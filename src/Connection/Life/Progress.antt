-- ===== src/Connection/Life/Progress.antt =====
-- What happens to a connection without an exception: everything but bytes that arrive.
use subiaoserver.Common.{ℕ, ◌≡◌, refl, ap, ◌∙◌, Bool, true, false, List, Outcome, done, inl, inr}
use subiaoserver.ByteBuffer.Streams.{bytes_of}
use subiaoserver.Connection.{Connection, manager_stop, mediadelay_call, cancel}
use subiaoserver.Connection.Media.{Library, getalarmsmedia}
use subiaoserver.Connection.Outbox.{packetwrite, post}
use subiaoserver.Connection.Packets.{LocalTime}
use subiaoserver.Connection.Packets.Frames.{framed, packetwrite_cases}
use subiaoserver.Connection.Requests.{
  Request, perform, perform-framed, prepared, opcode_of, message, current_media,
}
use subiaoserver.Connection.Receive.{ReadEvent, aborted, failed, received, read_handler, heart_tick}
use subiaoserver.Connection.Receive.Heartbeat
use subiaoserver.Connection.Outbox.Line.{Line, Event, runs, completes, fails, handle, IsFilled}
use subiaoserver.Connection.Outbox.Failure.{Goes, either-Goes}
use subiaoserver.Connection.Life.{
  Occurrence, starting, receives, beats, delayed, asks, running, completing, failing, stopping,
  hears, happens,
}
use subiaoserver.Connection.Life.Hearing.{IsSending}

-- Anything but received bytes.
unfoldable pub is_quiet : Occurrence → Bool
is_quiet (receives lib (received bs)) = false
is_quiet _ = true

abbrev pub Completes : {S : Type 0} → Outcome S (Unit {0}) → Type 0
Completes {S} r = (s : S) × (r ≡ done tt s)

packetwrite-Completes :
    (m : Outcome Connection (Unit {0})) (opcode : ℕ) (bs : List ℕ) (c : Connection)
    → m ≡ packetwrite (framed opcode bs) c
    → Completes m
packetwrite-Completes m opcode bs c e = elim (packetwrite_cases (framed opcode bs) c) [
  | inl posted ↦ (post (framed opcode bs) c, e ∙ posted)
  | inr not_posted ↦ (c, e ∙ not_posted)
]

perform-Completes : (r : Request) (c : Connection) → Completes (perform r c)
perform-Completes r c =
    packetwrite-Completes (perform r c) (opcode_of r) (bytes_of (message r (prepared r c)))
      (prepared r c) (perform-framed r c)

getalarmsmedia-Completes : (ec : Bool) (c : Connection) → Completes (getalarmsmedia ec c)
unfolding getalarmsmedia perform
getalarmsmedia-Completes ec c =
    let (d, run) = perform-Completes current_media c in (mediadelay_call cancel d, rw run refl)

hears-Completes :
    (l : Line) (r : Outcome Connection (Unit {0})) → Completes r → Completes (hears l r)
hears-Completes l r (c, run) = (_, ap (hears l) run)

outgoing-Completes : (e : Event) (l : Line) → IsFilled e → IsSending l → Completes (handle e l)
unfolding Goes
outgoing-Completes e l filled v = let (l', run, _) = either-Goes e l filled v.0 in (l', run)

read_handler-Completes :
    (lib : Library) (e : ReadEvent) (c : Connection)
    → is_quiet (receives lib e) ≡ true
    → Completes (read_handler lib e c)
unfolding is_quiet read_handler
read_handler-Completes lib aborted c quiet = (c, refl)
read_handler-Completes lib failed c quiet = (manager_stop c, refl)
read_handler-Completes lib (received bs) c quiet = absurd (cc quiet)

heart_tick-Completes : (t : LocalTime) (ec : Bool) (c : Connection) → Completes (heart_tick t ec c)
heart_tick-Completes t true c = unfold heart_tick in (manager_stop c, refl)
heart_tick-Completes t false c = let (d, run, _) = Heartbeat.heart_tick-Keeps t c in (d, run)

pub happens-Completes :
    (o : Occurrence) (l : Line) → is_quiet o ≡ true → IsSending l → Completes (happens o l)
unfolding happens handle IsFilled
happens-Completes (starting t) l quiet v =
    let (d, run, _) = Heartbeat.start-Keeps t l.connection in hears-Completes l _ (d, run)
happens-Completes (receives lib e) l quiet v =
    hears-Completes l _ (read_handler-Completes lib e l.connection quiet)
happens-Completes (beats t ec) l quiet v =
    hears-Completes l _ (heart_tick-Completes t ec l.connection)
happens-Completes (delayed ec) l quiet v =
    hears-Completes l _ (getalarmsmedia-Completes ec l.connection)
happens-Completes (asks r) l quiet v = hears-Completes l _ (perform-Completes r l.connection)
happens-Completes running l quiet v = outgoing-Completes runs l tt v
happens-Completes completing l quiet v = outgoing-Completes completes l tt v
happens-Completes failing l quiet v = outgoing-Completes fails l tt v
happens-Completes stopping l quiet v = (record l { connection = manager_stop l.connection }, refl)
