-- ===== src/Connection/Outbox/Order.antt =====
-- The events of a line, one after another: the order of what is written.
use subiaoserver.Common.{
  ◌≡◌, sym, refl, ◌∙◌, true, List, [], ◌∷◌, append-nil, All, inl, inr, List-cases,
}
use subiaoserver.Connection.Outbox.Line.{
  Event, Line, bytes, handle_all, IsOrdered, IsFilled, is_live,
}
use subiaoserver.Connection.Outbox.Moves.{Succeeds, parts}
use subiaoserver.Connection.Outbox.Steps.{handle-Succeeds}

pub handle_all-IsOrdered :
    (es : List Event) (l : Line)
    → All IsFilled es
    → All (λ e. is_live e ≡ true) es
    → IsOrdered l
    → Succeeds (handle_all es l)
unfolding handle_all
handle_all-IsOrdered [] l h alive v = (l, refl, v)
handle_all-IsOrdered (e ∷ es) l h alive v =
    let (l', e', v') = handle-Succeeds e l h.0 alive.0 v in
    let (l'', e'', v'') = handle_all-IsOrdered es l' h.1 alive.1 v' in (l'', rw e' e'', v'')

-- An ordered line on which nothing is outstanding has written all that was submitted, in order.
pub IsOrdered-flushed :
    (l : Line)
    → IsOrdered l
    → l.connection.host.posted ≡ []
    → l.connection.host.writing ≡ []
    → l.wire ≡ l.submitted
IsOrdered-flushed l v p w = elim (List-cases l.connection.outbox) [
  | inl none_waiting ↦ rw append-nil at (parts l v none_waiting p).3
  | inr (first, others, waiting) ↦
      let bad : bytes first ∷ [] ≡ [] = sym (parts l v waiting p).1 ∙ w in absurd (cc bad)
]
