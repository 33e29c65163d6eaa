-- ===== src/Server/Running/Lines.antt =====
-- What one event leaves of the line of each connection.
use subiaoserver.Common.{ℕ, ◌≡◌, ◌==◌, ◌<◌, false, List, [], inl, inr, Bool-cases}
use subiaoserver.Connection.{Connection, set_settings}
use subiaoserver.Connection.Globals.{Settings}
use subiaoserver.Connection.Outbox.Line.{Line}
use subiaoserver.Connection.Life.Hearing.{IsSending}
use subiaoserver.ConnectionManager.Updates.{update-at, update-away}
use subiaoserver.Server.Serving.{IsServing}
use subiaoserver.Server.Running.{Program, line, put_line}

abbrev pub line_of : Connection → List (List ℕ) → List (List ℕ) → Line
line_of c wire submitted = record { connection = c; wire = wire; submitted = submitted }

pub line_of-IsSending :
    {c c' : Connection} {wire wire' sent sent' : List (List ℕ)} (s : Settings)
    → c' ≡ c
    → wire' ≡ wire
    → sent' ≡ sent
    → IsSending (line_of (set_settings c s) wire sent)
    → IsSending (line_of (set_settings c' s) wire' sent')
line_of-IsSending s ec ew es h = rw (ec, ew, es) h

-- The queues do not depend on the global variables.
pub settings-IsSending :
    (c : Connection) (wire sent : List (List ℕ)) (s s' : Settings)
    → IsSending (line_of (set_settings c s) wire sent)
    → IsSending (line_of (set_settings c s') wire sent)
settings-IsSending c wire sent s s' (inl v, frames) = (
  inl (record {
    is_open = v.is_open;
    writes_front = v.writes_front;
    filled = v.filled;
    ordered = v.ordered;
  }),
  frames,
)
settings-IsSending c wire sent s s' (inr v, frames) =
    (inr (record { is_open = v.is_open; writes = v.writes; prefix = v.prefix }), frames)

pub put_line-IsSending :
    (k i : ℕ) (l : Line) (s : Program)
    → IsSending l
    → ((k == i) ≡ false → IsSending (line k s))
    → IsSending (line k (put_line i l s))
put_line-IsSending k i l s v others =
    let settings = l.connection.settings in
    let objects = s.server.manager.objects in
    elim (Bool-cases (k == i)) [
      | inl same ↦
          line_of-IsSending settings (update-at k i l.connection objects same)
            (update-at k i l.wire s.wires same) (update-at k i l.submitted s.submitted same) v
      | inr other ↦
          line_of-IsSending settings (update-away k i l.connection objects other)
            (update-away k i l.wire s.wires other) (update-away k i l.submitted s.submitted other)
            (settings-IsSending (objects k) (s.wires k) (s.submitted k) s.server.manager.settings
              settings (others other))
    ]

-- Its socket is not open, and nothing waits.
abbrev pub IsIdle : Connection → Type 0
IsIdle c = (c.is_open ≡ false) × (c.outbox ≡ []) × (c.host.posted ≡ []) × (c.host.writing ≡ [])

-- The connection that waits to be accepted has sent nothing.
pub record IsFresh (l : Line) : Type 0 where
  pub idle : IsIdle l.connection
  pub wire : l.wire ≡ []
  pub submitted : l.submitted ≡ []

-- The server serves, and each connection that has been accepted sends what its handlers send.
pub record IsSound (s : Program) : Type 0 where
  pub serving : IsServing s.server
  pub fresh : IsFresh (line s.server.new_connection s)
  pub sending :
      (k : ℕ) → k < s.server.next → (k == s.server.new_connection) ≡ false → IsSending (line k s)
