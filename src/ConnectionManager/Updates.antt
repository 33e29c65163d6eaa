-- ===== src/ConnectionManager/Updates.antt =====
-- The objects in memory after one of them has changed.
use subiaoserver.Common.{ℕ, ◌≡◌, ap, ◌==◌, true, false, if◌then◌else◌}
use subiaoserver.ConnectionManager.{update}

pub update-at :
    {A : Type 0} (k i : ℕ) (x : A) (map : ℕ → A) → (k == i) ≡ true → update i x map k ≡ x
update-at k i x map e = ap (λ b. if b then x else map k) e

pub update-away :
    {A : Type 0} (k i : ℕ) (x : A) (map : ℕ → A) → (k == i) ≡ false → update i x map k ≡ map k
update-away k i x map e = ap (λ b. if b then x else map k) e
