-- ===== src/Connection/Outbox/Steps.antt =====
-- One event on an ordered line.
use subiaoserver.Common.{
  ℕ, ◌≡◌, ◌≢◌, sym, refl, ap, ◌∙◌, arith, true, false, List, [], ◌∷◌, ◌++◌, append_assoc, done,
  length, inl, inr, List-cases,
}
use subiaoserver.WorldPacket.{WorldPacket}
use subiaoserver.Connection.{Connection, set_host}
use subiaoserver.Connection.Outbox.{write_handler}
use mathlib.Core.Path.{subst}
use subiaoserver.Connection.Outbox.Line.{
  Event, submits, runs, completes, fails, stops, is_live, Line, bytes, run_posted, complete_write,
  handle, IsOrdered, IsFilled,
}
use subiaoserver.Connection.Outbox.Moves.{
  Succeeds, SucceedsWith, Wrote, parts, forget, submit-Succeeds, contents-filled, run_one,
}

write_handler-last :
    (c : Connection) (first : WorldPacket)
    → c.outbox ≡ first ∷ []
    → write_handler false c ≡ done tt (record c { outbox = [] })
unfolding write_handler
write_handler-last c first e = ground arith

write_handler-next :
    (c : Connection) (first second : WorldPacket) (more : List WorldPacket)
    → c.outbox ≡ first ∷ second ∷ more
    → c.is_open ≡ true
    → bytes second ≢ []
    → write_handler false c
      ≡ done tt (record c {
        outbox = second ∷ more;
        host = record (c.host) { writing = c.host.writing ++ bytes second ∷ [] };
      })
unfolding write_handler
write_handler-next c first second more e is_open ne = ground (arith, contents-filled second ne)

pub complete_one :
    (l : Line) (bs : List ℕ) (rest : List (List ℕ))
    → IsOrdered l
    → l.connection.host.writing ≡ bs ∷ rest
    → SucceedsWith (Wrote bs l) (complete_write (bs ∷ rest) l)
unfolding complete_write
complete_one l bs rest v e =
    let c = l.connection in
    let c0 = set_host c (record (c.host) { writing = rest }) in
    elim (List-cases c.outbox) [
      | inl none_waiting ↦
          let bad : bs ∷ rest ≡ [] = sym e ∙ (parts l v none_waiting refl).1 in absurd (cc bad)
      | inr (first, others, is_next) ↦
          let q = parts l v is_next refl in
          let same : bs ∷ rest ≡ bytes first ∷ [] = sym e ∙ q.1 in
          let is_first : bs ≡ bytes first = cc same in
          let alone : rest ≡ [] = cc same in
          elim (List-cases others) [
            | inl last ↦ (
              record {
                connection = record c0 { outbox = [] };
                wire = l.wire ++ bs ∷ [];
                submitted = l.submitted;
              },
              rw (write_handler-last c0 first (is_next ∙ ap (◌∷◌ first) last)),
              record {
                is_open = v.is_open;
                writes_front = alone;
                filled = (rw last at q.2).1;
                ordered = rw (append_assoc, is_first) (rw last at q.3);
              },
              record {
                queue = rw (is_next, last, is_first) refl;
                posted = refl;
                outbox = omega (arith, ap length is_next, ap length last);
                wire = refl;
                submitted = refl;
              },
            )
            | inr (second, more, behind) ↦
                let filled = rw behind at q.2 in
                (
                  record {
                    connection = record c0 {
                      outbox = second ∷ more;
                      host = record (c0.host) { writing = rest ++ bytes second ∷ [] };
                    };
                    wire = l.wire ++ bs ∷ [];
                    submitted = l.submitted;
                  },
                  rw (
                      write_handler-next c0 first second more (is_next ∙ ap (◌∷◌ first) behind)
                        v.is_open filled.1.0),
                  record {
                    is_open = v.is_open;
                    writes_front = rw alone;
                    filled = filled.1;
                    ordered = rw (append_assoc, is_first) (rw behind at q.3);
                  },
                  record {
                    queue = rw (is_next, behind, is_first) refl;
                    posted = refl;
                    outbox = omega (arith, ap length is_next, ap length behind);
                    wire = refl;
                    submitted = refl;
                  },
                )
          ]
    ]

pub handle-Succeeds :
    (e : Event) (l : Line) → IsFilled e → is_live e ≡ true → IsOrdered l → Succeeds (handle e l)
unfolding handle IsFilled is_live
handle-Succeeds (submits p) l h alive v = forget _ (submit-Succeeds p l h v)
handle-Succeeds runs l h alive v = elim (List-cases l.connection.host.posted) [
  | inl e ↦ subst (λ ps. Succeeds (run_posted ps l)) (sym e) (l, unfold run_posted in refl, v)
  | inr (p, ps, e) ↦
      subst (λ ps. Succeeds (run_posted ps l)) (sym e) (forget _ (run_one l p ps v e))
]
handle-Succeeds completes l h alive v = elim (List-cases l.connection.host.writing) [
  | inl e ↦
      subst (λ bs. Succeeds (complete_write bs l)) (sym e) (l, unfold complete_write in refl, v)
  | inr (bs, rest, e) ↦
      subst (λ bs. Succeeds (complete_write bs l)) (sym e) (forget _ (complete_one l bs rest v e))
]
handle-Succeeds fails l h alive v = absurd (cc alive)
handle-Succeeds stops l h alive v = absurd (cc alive)
