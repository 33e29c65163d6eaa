-- ===== src/Connection/Outbox/Closed.antt =====
-- One event on a line whose connection has been stopped.
use subiaoserver.Common.{
  ℕ, ◌≡◌, ◌⊎◌, sym, refl, arith, true, false, List, [], ◌∷◌, ◌++◌, append_assoc, Outcome, done, inl,
  inr,
}
use subiaoserver.WorldPacket.{WorldPacket, copy}
use subiaoserver.Connection.{Connection, set_host, manager_stop}
use subiaoserver.Connection.Outbox.{
  packetwrite, packetwrite_impl, packetwrite_outbox, write_front, write_handler,
}
use mathlib.Core.Path.{subst}
use subiaoserver.Connection.Outbox.Line.{
  Event, submits, runs, completes, fails, stops, Line, bytes, run_posted, complete_write,
  fail_write, handle,
}

-- A write that is outstanding is that of the first packet of the outbox, and what has been written
-- and what is being written are the packets that were submitted first, in their order.
pub record IsClosed (l : Line) : Type 0 where
  pub is_open : l.connection.is_open ≡ false
  pub writes :
      (l.connection.host.writing ≡ [])
      ⊎ ((p : WorldPacket) × (ps : List WorldPacket) × (l.connection.outbox ≡ p ∷ ps)
          × (l.connection.host.writing ≡ bytes p ∷ []))
  pub prefix :
      (rest : List (List ℕ)) × (l.wire ++ (l.connection.host.writing ++ rest) ≡ l.submitted)

abbrev pub Closes : Outcome Line (Unit {0}) → Type 0
Closes r = (l : Line) × (r ≡ done tt l) × IsClosed l

closed-submits : (p : WorldPacket) (l : Line) → IsClosed l → Closes (handle (submits p) l)
unfolding handle packetwrite
closed-submits p l v =
    let (rest, e) = v.prefix in
    (
      record l { submitted = l.submitted ++ bytes p ∷ [] },
      ground (arith, v.is_open),
      record {
        is_open = v.is_open;
        writes = v.writes;
        prefix = (rest ++ bytes p ∷ [], rw (← e, append_assoc, append_assoc));
      },
    )

write_front-closed :
    (ps : List WorldPacket) (p : WorldPacket) (c : Connection)
    → c.is_open ≡ false
    → write_front (ps ++ p ∷ []) c ≡ done tt c
unfolding write_front
write_front-closed [] p c e = ground (arith, e)
write_front-closed (q ∷ ps) p c e = ground (arith, e)

impl-closed :
    (p : WorldPacket) (c : Connection)
    → c.is_open ≡ false
    → packetwrite_impl p c ≡ done tt (record c { outbox = c.outbox ++ copy p ∷ [] })
unfolding packetwrite_impl packetwrite_outbox
impl-closed p c e =
    ground (
      arith,
      write_front-closed c.outbox (copy p) (record c { outbox = c.outbox ++ copy p ∷ [] }) e,
    )

closed-runs : (l : Line) (ps : List WorldPacket) → IsClosed l → Closes (run_posted ps l)
unfolding run_posted
closed-runs l [] v = (l, refl, v)
closed-runs l (p ∷ ps) v =
    let c0 = set_host l.connection (record (l.connection.host) { posted = ps }) in
    (
      record l { connection = record c0 { outbox = c0.outbox ++ copy p ∷ [] } },
      rw (impl-closed p c0 v.is_open),
      record {
        is_open = v.is_open;
        writes = elim v.writes [
          | inl nothing ↦ inl nothing
          | inr (q, qs, waiting, begun) ↦ inr (q, qs ++ copy p ∷ [], rw waiting, begun)
        ];
        prefix = v.prefix;
      },
    )

write_handler-closed :
    (c : Connection) (p : WorldPacket) (ps : List WorldPacket)
    → c.outbox ≡ p ∷ ps
    → c.is_open ≡ false
    → write_handler false c ≡ done tt (record c { outbox = ps })
unfolding write_handler packetwrite_outbox write_front
write_handler-closed c p [] e shut = ground arith
write_handler-closed c p (q ∷ ps) e shut = ground arith

pub write_handler-failed :
    (c : Connection) (p : WorldPacket) (ps : List WorldPacket)
    → c.outbox ≡ p ∷ ps
    → write_handler true c ≡ done tt (manager_stop (record c { outbox = ps }))
unfolding write_handler
write_handler-failed c p ps e = ground arith

-- The connection at which the write that was outstanding has ended.
abbrev pub ended : List WorldPacket → Connection → Connection
ended ps c = record c { outbox = ps; host = record (c.host) { writing = [] } }

closed-completes : (l : Line) → IsClosed l → Closes (complete_write l.connection.host.writing l)
unfolding complete_write
closed-completes l v = elim v.writes [
  | inl nothing ↦ subst (λ bs. Closes (complete_write bs l)) (sym nothing) (l, refl, v)
  | inr (p, ps, waiting, begun) ↦
      subst (λ bs. Closes (complete_write bs l)) (sym begun)
        (
          record l { connection = ended ps l.connection; wire = l.wire ++ bytes p ∷ [] },
          rw (write_handler-closed (ended l.connection.outbox l.connection) p ps waiting v.is_open),
          record {
            is_open = v.is_open;
            writes = inl refl;
            prefix = (v.prefix.0, rw append_assoc (rw begun at v.prefix.1));
          },
        )
]

-- A line whose outstanding write has failed.
unfoldable pub stopped_line : List WorldPacket → Line → Line
stopped_line ps l = record l { connection = manager_stop (ended ps l.connection) }

closed-fails : (l : Line) → IsClosed l → Closes (fail_write l.connection.host.writing l)
unfolding fail_write manager_stop stopped_line
closed-fails l v = elim v.writes [
  | inl nothing ↦ subst (λ bs. Closes (fail_write bs l)) (sym nothing) (l, refl, v)
  | inr (p, ps, waiting, begun) ↦
      subst (λ bs. Closes (fail_write bs l)) (sym begun)
        (
          stopped_line ps l,
          rw (write_handler-failed (ended l.connection.outbox l.connection) p ps waiting),
          record {
            is_open = refl;
            writes = inl refl;
            prefix = (bytes p ∷ v.prefix.0, rw begun at v.prefix.1);
          },
        )
]

pub closed-handle : (e : Event) (l : Line) → IsClosed l → Closes (handle e l)
unfolding handle manager_stop
closed-handle (submits p) l v = closed-submits p l v
closed-handle runs l v = closed-runs l l.connection.host.posted v
closed-handle completes l v = closed-completes l v
closed-handle fails l v = closed-fails l v
closed-handle stops l v = (
  record l { connection = manager_stop l.connection },
  refl,
  record { is_open = refl; writes = v.writes; prefix = v.prefix },
)
