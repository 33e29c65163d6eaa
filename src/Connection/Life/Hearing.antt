-- ===== src/Connection/Life/Hearing.antt =====
-- The line of a connection when a handler has posted packets.
use subiaoserver.Common.{
  ℕ, ◌≡◌, ◌≢◌, ◌⊎◌, inl, inr, refl, sym, ap, ◌∙◌, List, [], ◌∷◌, ◌++◌, append_assoc, drop,
  drop-append, length, Outcome, done, throws, undefined, diverges, All, All-append,
}
use mathlib.Core.Path.{subst}
use mathlib.Core.List.{map, map-append}
use subiaoserver.Common.Keeps.{Ends}
use subiaoserver.Connection.{Connection}
use subiaoserver.Connection.Kept.{IsFrame, sides}
use subiaoserver.Connection.Outbox.Line.{Line, bytes, front, IsOrdered}
use subiaoserver.Connection.Life.{after, hears}
use subiaoserver.Connection.Life.Posting.{Extends, Posts}
use subiaoserver.Connection.Outbox.Closed.{IsClosed}

-- The line is ordered, or closed in an order, and what has been submitted are frames.
abbrev pub IsSending : Line → Type 0
IsSending l = (IsOrdered l ⊎ IsClosed l) × All IsFrame l.submitted

frames-filled : (bss : List (List ℕ)) → All IsFrame bss → All (λ bs. bs ≢ []) bss
frames-filled [] h = tt
frames-filled (bs ∷ bss) h =
    ((λ e. let bad = sym h.0.3 ∙ e in absurd (cc bad)), frames-filled bss h.1)

-- An ordered line stays ordered when a handler of its connection has posted packets.
after-IsOrdered :
    (l : Line) (c : Connection)
    → IsOrdered l
    → Extends (sides l.connection) (sides c)
    → IsOrdered (after l c)
after-IsOrdered l c v h =
    let old = l.connection.host.posted in
    let new : drop (length old) c.host.posted ≡ h.more =
      ap (drop (length old)) h.posted ∙ drop-append old h.more (length old) refl in
    let waits : map bytes (c.outbox ++ c.host.posted)
        ≡ map bytes (l.connection.outbox ++ old) ++ map bytes h.more =
      ap (λ xs. map bytes (xs ++ c.host.posted)) h.outbox
      ∙ ap (λ xs. map bytes (l.connection.outbox ++ xs)) h.posted
      ∙ ap (map bytes) (sym (append_assoc l.connection.outbox old h.more))
      ∙ map-append bytes (l.connection.outbox ++ old) h.more in
    record {
      is_open = h.is_open ∙ v.is_open;
      writes_front = h.writing ∙ v.writes_front ∙ ap front (sym h.outbox);
      filled =
          subst (All (λ bs. bs ≢ [])) (sym waits)
            (All-append _ _ _ v.filled (frames-filled _ h.filled));
      ordered =
          ap (λ ws. l.wire ++ ws) waits
          ∙ sym (append_assoc l.wire _ (map bytes h.more))
          ∙ ap (λ ws. ws ++ map bytes h.more) v.ordered
          ∙ ap (λ ps. l.submitted ++ map bytes ps) (sym new);
    }

-- A closed line stays closed, whatever has been posted.
after-IsClosed :
    (l : Line) (c : Connection)
    → IsClosed l
    → Extends (sides l.connection) (sides c)
    → IsClosed (after l c)
after-IsClosed l c v h =
    let more = map bytes (drop (length l.connection.host.posted) c.host.posted) in
    record {
      is_open = h.is_open ∙ v.is_open;
      writes = elim v.writes [
        | inl nothing ↦ inl (h.writing ∙ nothing)
        | inr (p, ps, waiting, begun) ↦ inr (p, ps, h.outbox ∙ waiting, h.writing ∙ begun)
      ];
      prefix = (
        v.prefix.0 ++ more,
        ap (λ ws. l.wire ++ (ws ++ (v.prefix.0 ++ more))) h.writing
            ∙ ap (λ ws. l.wire ++ ws) (sym (append_assoc l.connection.host.writing v.prefix.0 more))
            ∙ sym (append_assoc l.wire _ more)
            ∙ ap (λ ws. ws ++ more) v.prefix.1,
      );
    }

after-either :
    (l : Line) (c : Connection)
    → IsOrdered l ⊎ IsClosed l
    → Extends (sides l.connection) (sides c)
    → IsOrdered (after l c) ⊎ IsClosed (after l c)
after-either l c (inl v) h = inl (after-IsOrdered l c v h)
after-either l c (inr v) h = inr (after-IsClosed l c v h)

pub after-IsSending :
    (l : Line) (c : Connection)
    → IsSending l
    → Extends (sides l.connection) (sides c)
    → IsSending (after l c)
after-IsSending l c v h =
    let old = l.connection.host.posted in
    let new : drop (length old) c.host.posted ≡ h.more =
      ap (drop (length old)) h.posted ∙ drop-append old h.more (length old) refl in
    (
      after-either l c v.0 h,
      All-append IsFrame l.submitted _ v.1
          (subst (λ ps. All IsFrame (map bytes ps)) (sym new) h.filled),
    )

pub hears-IsSending :
    (l : Line) (r : Outcome Connection (Unit {0}))
    → IsSending l
    → Posts l.connection r
    → Ends IsSending (hears l r)
hears-IsSending l (done a c) v h = after-IsSending l c v h
hears-IsSending l (throws e c) v h = after-IsSending l c v h
hears-IsSending l undefined v h = tt
hears-IsSending l diverges v h = tt
