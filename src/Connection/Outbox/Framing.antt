-- ===== src/Connection/Outbox/Framing.antt =====
-- What the handlers of the outgoing side leave alone.
use subiaoserver.Common.{
  ℕ, Bool, true, false, List, [], ◌∷◌, ◌++◌, Outcome, ltb, length, done, throws, undefined,
  diverges, Exec,
}
use subiaoserver.Common.Keeps.{Ends, Ends-if, Keeps, Keeps-if, Keeps-pure}
use subiaoserver.ByteBuffer.{contents}
use subiaoserver.WorldPacket.{WorldPacket, copy}
use subiaoserver.Connection.{Connection, set_host, manager_stop}
use subiaoserver.Connection.Kept.{Frame, frame}
use subiaoserver.Connection.Outbox.{
  packetwrite_outbox, packetwrite_impl, write_front, async_write, after_pop, is_empty,
  write_handler,
}
use subiaoserver.Connection.Outbox.Line.{Line, continue, run_posted, complete_write, fail_write}

-- What is said of a connection, and does not depend on its queues or on a stop.
pub record Ignores (P : Connection → Type 0) : Type 0 where
  pub queue : (c : Connection) (ps : List WorldPacket) → P c → P (record c { outbox = ps })
  pub pop :
      (c : Connection) (ps : List WorldPacket)
      → P c
      → P (set_host c (record (c.host) { posted = ps }))
  pub write :
      (c : Connection) (bss : List (List ℕ))
      → P c
      → P (set_host c (record (c.host) { writing = bss }))
  pub quit : (c : Connection) → P c → P (manager_stop c)

pub frame-Ignores : (Q : Frame → Type 0) → Ignores (λ c. Q (frame c))
unfolding manager_stop
frame-Ignores Q = record {
  queue = λ c ps h. h;
  pop = λ c ps h. h;
  write = λ c bss h. h;
  quit = λ c h. h;
}

module _ (P : Connection → Type 0) (ignores : Ignores P) where
  abbrev KeepsSaid : {A : Type 0} → Exec Connection A → Type 0
  KeepsSaid m = Keeps P m

  begin_write-Keeps :
      (message : WorldPacket)
      → KeepsSaid (λ c. elim (contents message.buffer) [
        | done bytes _ ↦ done tt (async_write bytes c)
        | throws e _ ↦ throws e c
        | undefined ↦ undefined
        | diverges ↦ diverges
      ])
  begin_write-Keeps message = record {
    at = λ c h.
        elim (contents message.buffer)
          as (λ r. Ends P (elim r [
            | done bytes _ ↦ done tt (async_write bytes c)
            | throws e _ ↦ throws e c
            | undefined ↦ undefined
            | diverges ↦ diverges
          ])) [
            | done bytes b ↦ ignores.write c (c.host.writing ++ bytes ∷ []) h
            | throws e b ↦ h
            | undefined ↦ tt
            | diverges ↦ tt
          ];
  }

  write_front-Keeps : (ps : List WorldPacket) → KeepsSaid (write_front ps)
  unfolding write_front
  write_front-Keeps [] = record { at = λ c h. tt }
  write_front-Keeps (message ∷ rest) =
      Keeps-if (λ c. c.is_open) _ _ (begin_write-Keeps message) (Keeps-pure tt)

  packetwrite_outbox-Keeps : KeepsSaid packetwrite_outbox
  unfolding packetwrite_outbox
  packetwrite_outbox-Keeps = record { at = λ c h. (write_front-Keeps c.outbox).at c h }

  pub packetwrite_impl-Keeps : (p : WorldPacket) → KeepsSaid (packetwrite_impl p)
  unfolding packetwrite_impl
  packetwrite_impl-Keeps p = record {
    at = λ c h.
        let c' = record c { outbox = c.outbox ++ copy p ∷ [] } in
        let h' = ignores.queue c (c.outbox ++ copy p ∷ []) h in
        Ends-if P (ltb 1 (length c'.outbox)) (done tt c') _ h' (packetwrite_outbox-Keeps.at c' h');
  }

  after_pop-Keeps : (error : Bool) (ps : List WorldPacket) → KeepsSaid (after_pop error ps)
  unfolding after_pop
  after_pop-Keeps error [] = record { at = λ c h. tt }
  after_pop-Keeps error (p ∷ rest) = record {
    at = λ c h.
        let c' = record c { outbox = rest } in
        let h' = ignores.queue c rest h in
        Ends-if P error (done tt (manager_stop c')) _ (ignores.quit c' h')
          (Ends-if P (is_empty rest) (done tt c') _ h' (packetwrite_outbox-Keeps.at c' h'));
  }

  pub write_handler-Keeps : (error : Bool) → KeepsSaid (write_handler error)
  unfolding write_handler
  write_handler-Keeps error = record { at = λ c h. (after_pop-Keeps error c.outbox).at c h }

  -- The same of the line.
  abbrev LineSaid : Outcome Line (Unit {0}) → Type 0
  LineSaid r = Ends (λ l. P l.connection) r

  continue-Ends :
      (l : Line) (r : Outcome Connection (Unit {0})) → Ends P r → LineSaid (continue l r)
  continue-Ends l (done a c) h = h
  continue-Ends l (throws e c) h = h
  continue-Ends l undefined h = tt
  continue-Ends l diverges h = tt

  pub run_posted-Ends :
      (ps : List WorldPacket) (l : Line) → P l.connection → LineSaid (run_posted ps l)
  unfolding run_posted
  run_posted-Ends [] l h = h
  run_posted-Ends (p ∷ ps) l h =
      continue-Ends l _ ((packetwrite_impl-Keeps p).at _ (ignores.pop l.connection ps h))

  pub complete_write-Ends :
      (bss : List (List ℕ)) (l : Line) → P l.connection → LineSaid (complete_write bss l)
  unfolding complete_write
  complete_write-Ends [] l h = h
  complete_write-Ends (bs ∷ bss) l h =
      continue-Ends (record l { wire = l.wire ++ bs ∷ [] }) _
        ((write_handler-Keeps false).at _ (ignores.write l.connection bss h))

  pub fail_write-Ends :
      (bss : List (List ℕ)) (l : Line) → P l.connection → LineSaid (fail_write bss l)
  unfolding fail_write
  fail_write-Ends [] l h = h
  fail_write-Ends (bs ∷ bss) l h =
      continue-Ends l _ ((write_handler-Keeps true).at _ (ignores.write l.connection bss h))
