-- ===== src/Connection/Outbox/Moves.antt =====
-- One event on an ordered line: a packet is submitted, or a posted handler runs.
use subiaoserver.Common.{
  ℕ, ◌≡◌, ◌≢◌, sym, refl, ap, ◌∙◌, arith, Bool, true, List, [], ◌∷◌, ◌++◌, append_assoc, Outcome,
  done, length, ◌+◌, length-append, All, All-append, inl, inr, List-cases,
}
use subiaoserver.ByteBuffer.{contents}
use subiaoserver.WorldPacket.{WorldPacket, copy}
use subiaoserver.Connection.{Connection, set_host}
use subiaoserver.Connection.Outbox.{packetwrite, packetwrite_impl}
use mathlib.Core.List.{map, map-append}
use subiaoserver.Connection.Outbox.Line.{
  submits, Line, bytes, continue, run_posted, handle, front, IsOrdered,
}

-- An event ends well and leaves an ordered line.
abbrev pub Succeeds : Outcome Line (Unit {0}) → Type 0
Succeeds r = (l : Line) × (r ≡ done tt l) × IsOrdered l

-- The packets that are not written yet, in their order.
abbrev pub waiting : Connection → List (List ℕ)
waiting c = map bytes (c.outbox ++ c.host.posted)

-- A posted packet has moved to the outbox, and nothing else has changed hands.
pub record Ran (ps : List WorldPacket) (l l' : Line) : Type 0 where
  pub queue : waiting l'.connection ≡ waiting l.connection
  pub posted : l'.connection.host.posted ≡ ps
  pub outbox : length l'.connection.outbox ≡ length l.connection.outbox + 1
  pub wire : l'.wire ≡ l.wire
  pub submitted : l'.submitted ≡ l.submitted

-- The first packet of the outbox has gone to the wire.
pub record Wrote (bs : List ℕ) (l l' : Line) : Type 0 where
  pub queue : waiting l.connection ≡ bs ∷ waiting l'.connection
  pub posted : l'.connection.host.posted ≡ l.connection.host.posted
  pub outbox : length l.connection.outbox ≡ length l'.connection.outbox + 1
  pub wire : l'.wire ≡ l.wire ++ bs ∷ []
  pub submitted : l'.submitted ≡ l.submitted

-- A packet has been posted.
pub record Took (bs : List ℕ) (l l' : Line) : Type 0 where
  pub queue : waiting l'.connection ≡ waiting l.connection ++ bs ∷ []
  pub wire : l'.wire ≡ l.wire

-- The same, with what the event does.
abbrev pub SucceedsWith : (Line → Type 0) → Outcome Line (Unit {0}) → Type 0
SucceedsWith P r = (l : Line) × (r ≡ done tt l) × IsOrdered l × P l

abbrev pub forget :
    {P : Line → Type 0} (r : Outcome Line (Unit {0})) → SucceedsWith P r → Succeeds r
forget r (l, e, v, p) = (l, e, v)

-- The parts of an ordered line, at the lists that they are known to be.
abbrev Parts : Bool → List (List ℕ) → List WorldPacket → List WorldPacket → Line → Type 0
Parts is_open writing outbox posted l =
    (is_open ≡ true)
    × (writing ≡ front outbox)
    × All (λ bs. bs ≢ []) (map bytes (outbox ++ posted))
    × (l.wire ++ map bytes (outbox ++ posted) ≡ l.submitted)

pub parts :
    (l : Line) {outbox posted : List WorldPacket}
    → IsOrdered l
    → l.connection.outbox ≡ outbox
    → l.connection.host.posted ≡ posted
    → Parts l.connection.is_open l.connection.host.writing outbox posted l
parts l v e f = rw (← e, ← f) (v.is_open, v.writes_front, v.filled, v.ordered)

pub submit-Succeeds :
    (p : WorldPacket) (l : Line)
    → bytes p ≢ []
    → IsOrdered l
    → SucceedsWith (Took (bytes p) l) (handle (submits p) l)
unfolding handle packetwrite copy
submit-Succeeds p l ne v =
    let c = l.connection in
    let sent = set_host c (record (c.host) { posted = c.host.posted ++ copy p ∷ [] }) in
    (
      record { connection = sent; wire = l.wire; submitted = l.submitted ++ bytes p ∷ [] },
      rw (v.is_open, continue),
      record {
        is_open = v.is_open;
        writes_front = v.writes_front;
        filled =
            rw (← append_assoc, map-append)
              (All-append _ (map bytes (c.outbox ++ c.host.posted)) _ v.filled (ne, tt));
        ordered = rw (← append_assoc, map-append, ← append_assoc, v.ordered) refl;
      },
      record { queue = rw (← append_assoc, map-append) refl; wire = refl },
    )

pub contents-filled : (p : WorldPacket) → bytes p ≢ [] → contents p.buffer ≡ done (bytes p) p.buffer
unfolding contents
contents-filled p ne = elim (List-cases (bytes p)) [
  | inl e ↦ absurd (ne e)
  | inr (x, xs, e) ↦ ground arith
]

queued-copy :
    (xs ys : List WorldPacket) (p : WorldPacket)
    → map bytes ((xs ++ copy p ∷ []) ++ ys) ≡ map bytes (xs ++ p ∷ ys)
unfolding copy
queued-copy xs ys p =
    rw append_assoc (map-append bytes xs (copy p ∷ ys) ∙ sym (map-append bytes xs (p ∷ ys)))

pub run_one :
    (l : Line) (p : WorldPacket) (ps : List WorldPacket)
    → IsOrdered l
    → l.connection.host.posted ≡ p ∷ ps
    → SucceedsWith (Ran ps l) (run_posted (p ∷ ps) l)
unfolding run_posted packetwrite_impl copy
run_one l p ps v e =
    let c = l.connection in
    elim (List-cases c.outbox) [
      | inl none_waiting ↦
          let begun = record c {
            outbox = copy p ∷ [];
            host = record (c.host) { posted = ps; writing = c.host.writing ++ bytes p ∷ [] };
          } in
          let q = parts l v none_waiting e in
          (
            record l { connection = begun },
            ground (arith, contents-filled p q.2.0),
            record { is_open = v.is_open; writes_front = rw q.1; filled = q.2; ordered = q.3 },
            record {
              queue = rw (none_waiting, e) refl;
              posted = refl;
              outbox = omega (arith, ap length none_waiting);
              wire = refl;
              submitted = refl;
            },
          )
      | inr (first, others, is_next) ↦
          let begun = record c {
            outbox = c.outbox ++ copy p ∷ [];
            host = record (c.host) { posted = ps };
          } in
          let q = parts l v is_next e in
          (
            record l { connection = begun },
            ground (arith, length-append c.outbox (copy p ∷ [])),
            record {
              is_open = v.is_open;
              writes_front = rw is_next q.1;
              filled = rw (queued-copy c.outbox ps p, is_next) q.2;
              ordered = rw (queued-copy c.outbox ps p, is_next) q.3;
            },
            record {
              queue = queued-copy c.outbox ps p ∙ ap (λ xs. map bytes (c.outbox ++ xs)) (sym e);
              posted = refl;
              outbox = length-append c.outbox (copy p ∷ []);
              wire = refl;
              submitted = refl;
            },
          )
    ]
