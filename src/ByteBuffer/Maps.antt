-- ===== src/ByteBuffer/Maps.antt =====
-- `operator<<` and `operator>>` of `std::map` in Packets/ByteBuffer.h. A map is the list of its
-- pairs in the order of their keys, which `less` decides.
pub mod RoundTrip
use subiaoserver.Common.{
  ℕ, zero, suc, ◌%◌, ◌^◌, Bool, List, [], ◌∷◌, length, if◌then◌else◌, done, Exec, ◌>>=◌, ◌>>◌, pure,
}
use subiaoserver.Common.Words.{uint32}
use subiaoserver.ByteBuffer.{ByteBuffer, write, read}
use subiaoserver.ByteBuffer.Containers.{Operators}

module _ {K V : Type 0} (less : K → K → Bool) where
  -- `m.insert(make_pair(k, v))` leaves a map alone that has the key.
  unfoldable pub insert : K → V → List (K × V) → List (K × V)
  insert k v [] = (k, v) ∷ []
  insert k v ((k', v') ∷ m) =
      let rest = insert k v m in
      if less k k'
      then (k, v) ∷ (k', v') ∷ m
      else if less k' k
      then (k', v') ∷ rest
      else (k', v') ∷ m

module _ {K V : Type 0} (keys : Operators K) (values : Operators V) where
  unfoldable pub put_pairs : List (K × V) → Exec ByteBuffer (Unit {0})
  put_pairs [] = pure tt
  put_pairs ((k, v) ∷ m) = do keys.put k; values.put v; put_pairs m

  unfoldable pub put_map : List (K × V) → Exec ByteBuffer (Unit {0})
  unfolding put_pairs
  put_map m = do write uint32 (length m % 2 ^ 32); put_pairs m

  module _ (less : K → K → Bool) where
    -- `while (msize--)`, with the rounds left.
    unfoldable pub get_pairs : ℕ → List (K × V) → Exec ByteBuffer (List (K × V))
    unfolding insert
    get_pairs zero m = pure m
    get_pairs (suc msize) m = do k ← keys.get; v ← values.get; get_pairs msize (insert less k v m)

    unfoldable pub get_map : Exec ByteBuffer (List (K × V))
    unfolding get_pairs
    get_map = do msize ← read uint32; get_pairs msize []
