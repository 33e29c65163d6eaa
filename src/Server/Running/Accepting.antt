-- ===== src/Server/Running/Accepting.antt =====
-- An accept that completes leaves a sound program sound.
use subiaoserver.Common.{
  ℕ, ◌<◌, ◌≡◌, ap, ◌∙◌, arith, ◌==◌, refl, sym, true, false, Bool, ◌++◌, append-nil, tail, drop,
  length, Outcome, done,
}
use mathlib.Core.Path.{subst}
use mathlib.Core.List.{map}
use subiaoserver.Common.Keeps.{Ends}
use subiaoserver.Connection.{Connection, set_settings}
use subiaoserver.Connection.Globals.{Settings}
use subiaoserver.Connection.Kept.{sides}
use subiaoserver.Connection.Outbox.Line.{Line, bytes}
use subiaoserver.Connection.Packets.{LocalTime}
use subiaoserver.Connection.Receive.{Indeterminate, connection}
use subiaoserver.Connection.Receive
use subiaoserver.Connection.Receive.Heartbeat
use subiaoserver.Connection.Life.Hearing.{IsSending, after-IsSending}
use subiaoserver.Connection.Life.Posting.{Extends, start-Posts}
use subiaoserver.ConnectionManager.{ConnectionManager}
use subiaoserver.ConnectionManager.Held.{starting, begun, start-begun}
use subiaoserver.ConnectionManager.Updates.{update-at, update-away}
use subiaoserver.Server.{Server, accepted, accept_next, handle_accept, start_new}
use subiaoserver.Server.Serving.{IsServing, accept-Serves}
use subiaoserver.Server.Serving
use subiaoserver.Server.Running.{Program, line, after_accept, handle, accepts}
use subiaoserver.Server.Running.Taking.{
  fresh-IsSending, opened-IsSending, IsTaken, put_server-IsSound,
}
use subiaoserver.Server.Running.Lines.{IsIdle, IsSound, line_of}

-- The line at `i` when the object there has become `d`.
abbrev grown : ℕ → Program → Settings → Connection → Line
grown i s settings d = line_of (set_settings d settings) (s.wires i) (
    s.submitted i
    ++ map bytes (drop (length (s.server.manager.objects i).host.posted) d.host.posted))

-- The server when the accept has made `m` of its manager.
abbrev pub with_manager : Program → ConnectionManager → Server
with_manager s m = record (s.server) { accepting = tail s.server.accepting; manager = m }

next-IsTaken :
    (memory : Indeterminate) (s : Program) (m : ConnectionManager)
    → s.server.new_connection < s.server.next
    → IsServing (accept_next memory (with_manager s m))
    → ((k : ℕ) → (k == s.server.new_connection) ≡ false → m.objects k ≡ s.server.manager.objects k)
    → IsSending (grown s.server.new_connection s m.settings (m.objects s.server.new_connection))
    → IsTaken s (accept_next memory (with_manager s m))
unfolding accept_next connection
next-IsTaken memory s m made serving others sending =
    let i = s.server.new_connection in
    let j = s.server.next in
    let c = record (connection memory m.settings) { is_open = false } in
    let same = update-at j j c m.objects (ground arith) in
    let waiting = update-away i j c m.objects (ground (arith, made)) in
    record {
      serving = serving;
      new_connection = refl;
      next = refl;
      idle = subst IsIdle (sym same) (refl, refl, refl, refl);
      others = λ k other away. update-away k j c m.objects away ∙ others k other;
      sending = subst (λ d. IsSending (grown i s m.settings d)) (sym waiting) sending;
    }

-- Nothing has been posted to a fresh connection, and nothing is after a failed accept.
refused-IsSending :
    (s : Program)
    → IsSound s
    → IsSending (
        grown s.server.new_connection s s.server.manager.settings
          (s.server.manager.objects s.server.new_connection))
refused-IsSending s v =
    let i = s.server.new_connection in
    subst (λ sent. IsSending (line_of (line i s).connection (s.wires i) sent))
      (rw v.fresh.idle.2 (sym (append-nil (s.submitted i)))) (fresh-IsSending (line i s) v.fresh)

-- The connection that starts, and its line before.
abbrev pub opened : Server → ConnectionManager
opened s = (accepted false s).manager

started-IsSending :
    (t : LocalTime) (s : Program) (d : Connection)
    → IsSound s
    → Receive.start t (starting s.server.new_connection (opened s.server)) ≡ done tt d
    → IsSending (grown s.server.new_connection s d.settings d)
started-IsSending t s d v run =
    let i = s.server.new_connection in
    let c = starting i (opened s.server) in
    let l = line_of c (s.wires i) (s.submitted i) in
    let here =
      update-at i i (record (s.server.manager.objects i) { is_open = true })
        s.server.manager.objects (ground arith) in
    let same_host : c.host ≡ (line i s).connection.host = ap (λ (c : Connection). c.host) here in
    let ready : IsSending l =
      opened-IsSending (line i s) c v.fresh (ap (λ (c : Connection). c.is_open) here)
        (ap (λ (c : Connection). c.outbox) here) same_host in
    let posts = start-Posts t c in
    subst
      (λ h.
        IsSending (
          line_of d (s.wires i)
            (s.submitted i ++ map bytes (drop (length h.posted) d.host.posted))))
      same_host
      (after-IsSending l d ready (subst (Ends (λ d. Extends (sides c) (sides d))) run posts))

accept-IsServing :
    (t : LocalTime) (memory : Indeterminate) (error : Bool) (s : Server)
    → IsServing s
    → Ends IsServing (Serving.handle (Serving.accepts t memory error) s)
accept-IsServing t memory error s v =
    let (s', run, serving) = accept-Serves t memory error s v in
    subst (Ends IsServing) (sym run) serving

-- Where the server ends in `s'`, the program does.
ended-IsSound :
    (s : Program) (r : Outcome Server (Unit {0})) (s' : Server)
    → IsSound s
    → r ≡ done tt s'
    → Ends IsServing r
    → (IsServing s' → IsTaken s s')
    → Ends IsSound (after_accept s.server.new_connection s.server.next s r)
ended-IsSound s r s' v run serving taken =
    subst (λ r. Ends IsSound (after_accept s.server.new_connection s.server.next s r)) (sym run)
      (put_server-IsSound s s' v (taken (subst (Ends IsServing) run serving)))

pub start-accepted :
    (t : LocalTime) (memory : Indeterminate) (s : Program) (d : Connection)
    → Receive.start t (starting s.server.new_connection (opened s.server)) ≡ done tt d
    → handle_accept t memory false (accepted false s.server)
      ≡ done tt
          (accept_next memory (with_manager s (begun s.server.new_connection d (opened s.server))))
unfolding handle_accept start_new
start-accepted t memory s d run =
    ground (arith, start-begun t s.server.new_connection (opened s.server) d run)

started-others :
    (s : Program) (d : Connection) (k : ℕ)
    → (k == s.server.new_connection) ≡ false
    → (begun s.server.new_connection d (opened s.server)).objects k ≡ s.server.manager.objects k
started-others s d k other = ground (arith, other)

begun-at :
    (s : Program) (d : Connection)
    → (begun s.server.new_connection d (opened s.server)).objects s.server.new_connection ≡ d
begun-at s d = ground arith

pub accept-IsSound :
    (t : LocalTime) (memory : Indeterminate) (error : Bool) (s : Program)
    → IsSound s
    → Ends IsSound (handle (accepts t memory error) s)
unfolding handle handle_accept Serving.handle
accept-IsSound t memory true s v =
    ended-IsSound s _ (accept_next memory (accepted true s.server)) v refl
      (accept-IsServing t memory true s.server v.serving)
      (λ serving.
        next-IsTaken memory s s.server.manager v.serving.made serving (λ k other. refl)
          (refused-IsSending s v))
accept-IsSound t memory false s v =
    let i = s.server.new_connection in
    let (d, run, _) = Heartbeat.start-Keeps t (starting i (opened s.server)) in
    let m = begun i d (opened s.server) in
    ended-IsSound s _ (accept_next memory (with_manager s m)) v (start-accepted t memory s d run)
      (accept-IsServing t memory false s.server v.serving)
      (λ serving. next-IsTaken memory s m v.serving.made serving (started-others s d) (
        subst (λ d'. IsSending (grown i s d.settings d')) (sym (begun-at s d))
          (started-IsSending t s d v run)))
