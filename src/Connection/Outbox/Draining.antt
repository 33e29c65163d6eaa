-- ===== src/Connection/Outbox/Draining.antt =====
-- No packet waits for ever.
use subiaoserver.Common.{
  ℕ, zero, suc, ◌+◌, ◌≡◌, refl, ap, ◌∙◌, arith, Outcome, throws, undefined, diverges, Exec,
  and_then, ◌>>◌, List, [], ◌∷◌, ◌++◌, done, length, replicate, inl, inr, List-cases,
}
use subiaoserver.Connection.{Connection}
use subiaoserver.WorldPacket.{WorldPacket}
use subiaoserver.Connection.Outbox.Line.{
  Event, runs, completes, Line, run_posted, complete_write, handle, handle_all, IsOrdered, front,
}
use subiaoserver.Connection.Outbox.Moves.{run_one}
use subiaoserver.Connection.Outbox.Steps.{complete_one}
use subiaoserver.Connection.Outbox.Order.{IsOrdered-flushed}

-- The strand runs what is posted, and every write that is begun completes.
unfoldable pub draining : Connection → List Event
draining c =
    let n = length c.host.posted in replicate n runs ++ replicate (length c.outbox + n) completes

-- The lines that some events lead to, where nothing new has been submitted.
abbrev Reaches : List Event → Line → (Line → Type 0) → Type 0
Reaches es l P =
    (l' : Line) × (handle_all es l ≡ done tt l')
    × IsOrdered l'
    × (l'.submitted ≡ l.submitted)
    × P l'

runs-Reaches :
    (ps : List WorldPacket) (l : Line)
    → IsOrdered l
    → l.connection.host.posted ≡ ps
    → Reaches (replicate (length ps) runs) l (λ l'.
      (l'.connection.host.posted ≡ [])
      × (length l'.connection.outbox ≡ length l.connection.outbox + length ps))
unfolding handle_all handle
runs-Reaches [] l v e = (l, refl, v, refl, (e, omega arith))
runs-Reaches (p ∷ ps) l v e =
    let (l1, run, v1, t) = run_one l p ps v e in
    let (l2, run2, v2, same, (none_posted, count)) = runs-Reaches ps l1 v1 t.posted in
    (
      l2,
      rw (ap (λ qs. run_posted qs l) e ∙ run) run2,
      v2,
      same ∙ t.submitted,
      (none_posted, omega (arith, t.outbox, count)),
    )

completes-Reaches :
    (n : ℕ) (l : Line)
    → IsOrdered l
    → l.connection.host.posted ≡ []
    → length l.connection.outbox ≡ n
    → Reaches
        (replicate n completes)
        l
        (λ l'. (l'.connection.host.posted ≡ []) × (l'.connection.host.writing ≡ []))
unfolding handle_all handle
completes-Reaches zero l v e count = elim (List-cases l.connection.outbox) [
  | inl none_waiting ↦ (l, refl, v, refl, (e, v.writes_front ∙ ap front none_waiting))
  | inr (p, ps, is_next) ↦ absurd (omega (arith, ap length is_next))
]
completes-Reaches (suc n) l v e count = elim (List-cases l.connection.outbox) [
  | inl none_waiting ↦ absurd (omega (arith, ap length none_waiting))
  | inr (p, ps, is_next) ↦
      let begun = v.writes_front ∙ ap front is_next in
      let (l1, run, v1, t) = complete_one l _ [] v begun in
      let (l2, run2, v2, same, rest) =
        completes-Reaches n l1 v1 (t.posted ∙ e) (omega (arith, t.outbox)) in
      (l2, rw (ap (λ bs. complete_write bs l) begun ∙ run) run2, v2, same ∙ t.submitted, rest)
]

behind :
    (r : Outcome Line (Unit {0})) (f g h : Exec Line (Unit {0}))
    → ((l : Line) → f l ≡ (do g; h) l)
    → and_then r (λ _. f) ≡ and_then (and_then r (λ _. g)) (λ _. h)
behind (done _ l) f g h e = e l
behind (throws x l) f g h e = refl
behind undefined f g h e = refl
behind diverges f g h e = refl

handle_all-append :
    (es fs : List Event) (l : Line) → handle_all (es ++ fs) l ≡ (do handle_all es; handle_all fs) l
unfolding handle_all
handle_all-append [] fs l = refl
handle_all-append (e ∷ es) fs l =
    behind (handle e l) (handle_all (es ++ fs)) (handle_all es) (handle_all fs)
      (λ l'. handle_all-append es fs l')

-- From every ordered line, when each posted handler runs and one write completes for each packet,
-- and nothing new is submitted, no handler throws or is undefined, and at the end nothing is posted
-- or being written, and what has been written is all that was submitted, in its order.
pub draining-flushes :
    (l : Line)
    → IsOrdered l
    → Reaches (draining l.connection) l (λ l'.
      (l'.connection.host.posted ≡ [])
      × (l'.connection.host.writing ≡ [])
      × (l'.wire ≡ l.submitted))
unfolding draining
draining-flushes l v =
    let c = l.connection in
    let n = length c.host.posted in
    let (l1, run, v1, same, (none_posted, count)) = runs-Reaches c.host.posted l v refl in
    let (l2, run2, v2, same2, (still_none, none_writing)) =
      completes-Reaches (length c.outbox + n) l1 v1 none_posted count in
    (
      l2,
      handle_all-append (replicate n runs) _ l ∙ rw run run2,
      v2,
      same2 ∙ same,
      (still_none, none_writing, IsOrdered-flushed l2 v2 still_none none_writing ∙ same2 ∙ same),
    )
