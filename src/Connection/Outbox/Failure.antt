-- ===== src/Connection/Outbox/Failure.antt =====
-- A line whose connection may be stopped, by a failed write or from elsewhere.
use subiaoserver.Common.{
  ℕ, ◌≡◌, ◌⊎◌, sym, refl, List, [], ◌∷◌, ◌++◌, done, All, inl, inr, List-cases,
}
use subiaoserver.Connection.{manager_stop}
use mathlib.Core.Path.{subst}
use mathlib.Core.List.{map}
use subiaoserver.Connection.Outbox.Line.{
  Event, submits, runs, completes, fails, stops, is_live, Line, bytes, fail_write, handle,
  handle_all, IsOrdered, IsFilled,
}
use subiaoserver.Connection.Outbox.Moves.{parts}
use subiaoserver.Connection.Outbox.Steps.{handle-Succeeds}
use subiaoserver.Connection.Outbox.Closed.{
  IsClosed, Closes, ended, stopped_line, write_handler-failed, closed-handle,
}

pub stop-Closes : (l : Line) → IsOrdered l → Closes (handle stops l)
unfolding handle manager_stop
stop-Closes l v = (
  record l { connection = manager_stop l.connection },
  refl,
  record {
    is_open = refl;
    writes = elim (List-cases l.connection.outbox) [
      | inl none_waiting ↦ inl (parts l v none_waiting refl).1
      | inr (p, ps, waiting) ↦ inr (p, ps, waiting, (parts l v waiting refl).1)
    ];
    prefix = elim (List-cases l.connection.outbox) [
      | inl none_waiting ↦
          let q = parts l v none_waiting refl in (map bytes l.connection.host.posted, rw q.1 q.3)
      | inr (p, ps, waiting) ↦
          let q = parts l v waiting refl in (map bytes (ps ++ l.connection.host.posted), rw q.1 q.3)
    ];
  },
)

-- An event ends well, and leaves a line that is ordered or closed.
unfoldable pub Goes : Event → Line → Type 0
Goes e l = (l' : Line) × (handle e l ≡ done tt l') × (IsOrdered l' ⊎ IsClosed l')

fail-Goes : (l : Line) → IsOrdered l → Goes fails l
unfolding Goes handle fail_write stopped_line manager_stop
fail-Goes l v = elim (List-cases l.connection.outbox) [
  | inl none_waiting ↦
      subst (λ bs. (l' : Line) × (fail_write bs l ≡ done tt l') × (IsOrdered l' ⊎ IsClosed l'))
        (sym (parts l v none_waiting refl).1) (l, refl, inl v)
  | inr (p, ps, waiting) ↦
      let q = parts l v waiting refl in
      subst (λ bs. (l' : Line) × (fail_write bs l ≡ done tt l') × (IsOrdered l' ⊎ IsClosed l'))
        (sym q.1)
        (
          stopped_line ps l,
          rw (write_handler-failed (ended l.connection.outbox l.connection) p ps waiting),
          inr (record {
            is_open = refl;
            writes = inl refl;
            prefix = (map bytes (p ∷ (ps ++ l.connection.host.posted)), q.3);
          }),
        )
]

ordered-Goes : (e : Event) (l : Line) → IsFilled e → IsOrdered l → Goes e l
unfolding Goes is_live
ordered-Goes fails l h v = fail-Goes l v
ordered-Goes stops l h v = let (l', run, c) = stop-Closes l v in (l', run, inr c)
ordered-Goes (submits p) l h v =
    let (l', run, o) = handle-Succeeds (submits p) l h refl v in (l', run, inl o)
ordered-Goes runs l h v = let (l', run, o) = handle-Succeeds runs l h refl v in (l', run, inl o)
ordered-Goes completes l h v =
    let (l', run, o) = handle-Succeeds completes l h refl v in (l', run, inl o)

pub either-Goes : (e : Event) (l : Line) → IsFilled e → IsOrdered l ⊎ IsClosed l → Goes e l
unfolding Goes
either-Goes e l h (inl v) = ordered-Goes e l h v
either-Goes e l h (inr v) = let (l', run, c) = closed-handle e l v in (l', run, inr c)

-- Whatever writes fail and whenever the connection is stopped, no event of an ordered or closed
-- line throws or is undefined, if every packet submitted holds a byte, and the line is ordered or
-- closed afterwards: in either case what has been written are the first packets submitted.
pub handle_all-IsClosed :
    (es : List Event) (l : Line)
    → All IsFilled es
    → IsOrdered l ⊎ IsClosed l
    → (l' : Line) × (handle_all es l ≡ done tt l')
      × (IsOrdered l' ⊎ IsClosed l')
      × ((rest : List (List ℕ)) × (l'.wire ++ rest ≡ l'.submitted))
unfolding handle_all Goes
handle_all-IsClosed [] l h (inl v) =
    (l, refl, inl v, (map bytes (l.connection.outbox ++ l.connection.host.posted), v.ordered))
handle_all-IsClosed [] l h (inr v) =
    (l, refl, inr v, (l.connection.host.writing ++ v.prefix.0, v.prefix.1))
handle_all-IsClosed (e ∷ es) l h v =
    let (l1, run1, v1) = either-Goes e l h.0 v in
    let (l2, run2, v2, wire) = handle_all-IsClosed es l1 h.1 v1 in (l2, rw run1 run2, v2, wire)
