-- ===== src/Server/Running/Taking.antt =====
-- What an accept leaves of the lines, whatever it was: the one that it was for, and a new one.
use subiaoserver.Common.{
  ℕ, suc, ◌<◌, ◌≡◌, ap, ◌∙◌, arith, ◌==◌, refl, sym, true, false, List, [], ◌++◌, drop, length, inl,
  inr, Bool-cases,
}
use mathlib.Core.Path.{subst}
use mathlib.Core.List.{map}
use subiaoserver.Connection.{Connection, set_settings}
use subiaoserver.Connection.Outbox.Line.{Line, bytes}
use subiaoserver.Connection.Life.Hearing.{IsSending}
use subiaoserver.ConnectionManager.{update}
use subiaoserver.ConnectionManager.Updates.{update-at, update-away}
use subiaoserver.Server.{Server}
use subiaoserver.Server.Serving.{IsServing}
use subiaoserver.Server.Running.{Program, line, put_server}
use subiaoserver.Server.Running.Lines.{
  IsSound, IsIdle, IsFresh, line_of, line_of-IsSending, settings-IsSending,
}

-- A line that has sent nothing is closed or, once its socket is open, ordered.
pub fresh-IsSending : (l : Line) → IsFresh l → IsSending l
fresh-IsSending l v =
    let (shut, _, _, none_writing) = v.idle in
    (
      inr (record {
        is_open = shut;
        writes = inl none_writing;
        prefix = ([], rw (none_writing, v.wire, v.submitted) refl);
      }),
      rw v.submitted tt,
    )

pub opened-IsSending :
    (l : Line) (c : Connection)
    → IsFresh l
    → c.is_open ≡ true
    → c.outbox ≡ l.connection.outbox
    → c.host ≡ l.connection.host
    → IsSending (record l { connection = c })
opened-IsSending l c v o outbox host =
    let (_, none_waiting, none_posted, none_writing) = v.idle in
    (
      inl (record {
        is_open = o;
        writes_front = rw (outbox, host, none_waiting, none_writing) refl;
        filled = rw (outbox, host, none_waiting, none_posted) tt;
        ordered = rw (outbox, host, none_waiting, none_posted, v.wire, v.submitted) refl;
      }),
      rw v.submitted tt,
    )

-- The line of the connection that an accept was for.
abbrev taken : ℕ → Program → Server → Line
taken i s s' =
    let old = (s.server.manager.objects i).host.posted in
    let new = (s'.manager.objects i).host.posted in
    line_of (set_settings (s'.manager.objects i) s'.manager.settings) (s.wires i)
      (s.submitted i ++ map bytes (drop (length old) new))

-- What an accept leaves of the server.
pub record IsTaken (s : Program) (s' : Server) : Type 0 where
  pub serving : IsServing s'
  pub new_connection : s'.new_connection ≡ s.server.next
  pub next : s'.next ≡ suc s.server.next
  pub idle : IsIdle (s'.manager.objects s.server.next)
  pub others :
      (k : ℕ)
      → (k == s.server.new_connection) ≡ false
      → (k == s.server.next) ≡ false
      → s'.manager.objects k ≡ s.server.manager.objects k
  pub sending : IsSending (taken s.server.new_connection s s')

put_server-IsSending :
    (s : Program) (s' : Server) (k : ℕ)
    → IsSound s
    → IsTaken s s'
    → k < suc s.server.next
    → (k == s.server.next) ≡ false
    → IsSending (line k (put_server s.server.new_connection s.server.next s s'))
put_server-IsSending s s' k v w before away =
    let i = s.server.new_connection in
    let j = s.server.next in
    let sent = taken i s s' in
    let sent_before : ℕ → List (List ℕ) = update i sent.submitted s.submitted in
    elim (Bool-cases (k == i)) [
      | inl same ↦
          let k_is : k ≡ i = ground (arith, same) in
          line_of-IsSending s'.manager.settings (ap s'.manager.objects k_is)
            (update-away k j [] s.wires away ∙ ap s.wires k_is)
            (update-away k j [] sent_before away ∙ update-at k i sent.submitted s.submitted same)
            w.sending
      | inr other ↦
          line_of-IsSending s'.manager.settings (w.others k other away)
            (update-away k j [] s.wires away)
            (update-away k j [] sent_before away ∙ update-away k i sent.submitted s.submitted other)
            (settings-IsSending (s.server.manager.objects k) (s.wires k) (s.submitted k)
              s.server.manager.settings s'.manager.settings
              (v.sending k (ground (arith, before, away)) other))
    ]

pub put_server-IsSound :
    (s : Program) (s' : Server)
    → IsSound s
    → IsTaken s s'
    → IsSound (put_server s.server.new_connection s.server.next s s')
put_server-IsSound s s' v w = record {
  serving = w.serving;
  fresh =
      let j = s.server.next in
      let here : (j == j) ≡ true = ground arith in
      subst (λ k. IsFresh (line k (put_server s.server.new_connection j s s')))
        (sym w.new_connection)
        (record {
          idle = w.idle;
          wire = update-at j j [] s.wires here;
          submitted =
              update-at j j []
                (update s.server.new_connection (taken s.server.new_connection s s').submitted
                  s.submitted)
                here;
        });
  sending = λ k before away.
      put_server-IsSending s s' k v w (rw (sym w.next) before) (rw (sym w.new_connection) away);
}
