-- ===== src/Connection/Life/Sending.antt =====
-- What handlers send reaches the wire, in its order and in frames.
use subiaoserver.Common.{
  ℕ, ◌≡◌, ◌⊎◌, inl, inr, Bool, true, false, append-nil, refl, sym, ap, ◌∙◌, List, [], ◌∷◌, ◌++◌,
  drop, drop-append, length, Outcome, done, throws, undefined, diverges, All,
}
use mathlib.Core.Path.{subst}
use mathlib.Core.List.{map}
use subiaoserver.Common.Keeps.{Ends, Keeps, Keeps-then}
use subiaoserver.WorldPacket.{WorldPacket}
use subiaoserver.Connection.{Connection, manager_stop}
use subiaoserver.Connection.Packets.{LocalTime}
use subiaoserver.Connection.Media.{Library}
use subiaoserver.Connection.Globals.{Settings}
use subiaoserver.Connection.Kept.{IsFrame, sides}
use subiaoserver.Connection.Receive.{
  Indeterminate, connection, ReadEvent, aborted, failed, received, read_handler, heart_tick,
}
use subiaoserver.Connection.Outbox.Line.{
  Line, bytes, run_posted, complete_write, fail_write, continue, Event, runs, completes, fails,
  stops, handle, handle_all, IsOrdered, IsFilled,
}
use subiaoserver.Connection.Life.{
  Occurrence, starting, receives, beats, delayed, asks, running, completing, failing, stopping,
  after, hears, happens, happen_all, new_line,
}
use subiaoserver.Connection.Life.Hearing.{IsSending, after-IsSending, hears-IsSending}
use subiaoserver.Connection.Life.Posting.{
  Extends-self, start-Posts, received-Posts, heart_tick-Posts, getalarmsmedia-Posts, perform-Posts,
}
use subiaoserver.Connection.Outbox.Closed.{IsClosed}
use subiaoserver.Connection.Outbox.Failure.{Goes, either-Goes}
use subiaoserver.Connection.Outbox.Draining.{draining, draining-flushes}

-- The events of the outgoing side submit nothing.
abbrev SubmitsNothing : Line → Outcome Line (Unit {0}) → Type 0
SubmitsNothing l r = Ends (λ l'. l'.submitted ≡ l.submitted) r

continue-SubmitsNothing :
    (l : Line) (r : Outcome Connection (Unit {0})) → SubmitsNothing l (continue l r)
continue-SubmitsNothing l (done a c) = refl
continue-SubmitsNothing l (throws e c) = refl
continue-SubmitsNothing l undefined = tt
continue-SubmitsNothing l diverges = tt

run_posted-SubmitsNothing : (ps : List WorldPacket) (l : Line) → SubmitsNothing l (run_posted ps l)
unfolding run_posted
run_posted-SubmitsNothing [] l = refl
run_posted-SubmitsNothing (p ∷ ps) l = continue-SubmitsNothing l _

complete_write-SubmitsNothing :
    (bss : List (List ℕ)) (l : Line) → SubmitsNothing l (complete_write bss l)
unfolding complete_write
complete_write-SubmitsNothing [] l = refl
complete_write-SubmitsNothing (bs ∷ bss) l =
    continue-SubmitsNothing (record l { wire = l.wire ++ bs ∷ [] }) _

fail_write-SubmitsNothing : (bss : List (List ℕ)) (l : Line) → SubmitsNothing l (fail_write bss l)
unfolding fail_write
fail_write-SubmitsNothing [] l = refl
fail_write-SubmitsNothing (bs ∷ bss) l = continue-SubmitsNothing l _

handle-SubmitsNothing :
    (e : Event) (l : Line)
    → IsFilled e
    → SubmitsNothing l (handle e l)
    → IsSending l
    → Ends IsSending (handle e l)
unfolding Goes
handle-SubmitsNothing e l h same (either, frames) =
    let (l', run, v) = either-Goes e l h either in
    let kept = subst (SubmitsNothing l) run same in
    subst (Ends IsSending) (sym run) (v, subst (All IsFrame) (sym kept) frames)

-- Where a handler stops the connection.
pub stopped-IsSending :
    (l : Line) → IsSending l → IsSending (record l { connection = manager_stop l.connection })
unfolding handle IsFilled
stopped-IsSending l v = handle-SubmitsNothing stops l tt refl v

quits-IsSending : (l : Line) → IsSending l → IsSending (after l (manager_stop l.connection))
unfolding manager_stop
quits-IsSending l v =
    let old = l.connection.host.posted in
    let none_new : drop (length old) old ≡ [] =
      ap (drop (length old)) (sym (append-nil old)) ∙ drop-append old [] (length old) refl in
    let same : l.submitted ++ map bytes (drop (length old) old) ≡ l.submitted =
      ap (λ ps. l.submitted ++ map bytes ps) none_new ∙ append-nil l.submitted in
    subst
      (λ ps.
        IsSending
          (record { connection = manager_stop l.connection; wire = l.wire; submitted = ps }))
      (sym same) (stopped-IsSending l v)

read_handler-IsSending :
    (lib : Library) (e : ReadEvent) (l : Line)
    → IsSending l
    → Ends IsSending (hears l (read_handler lib e l.connection))
read_handler-IsSending lib aborted l v =
    unfold read_handler in after-IsSending l l.connection v (Extends-self (sides l.connection))
read_handler-IsSending lib failed l v = unfold read_handler in quits-IsSending l v
read_handler-IsSending lib (received bs) l v =
    hears-IsSending l _ v (received-Posts lib bs l.connection)

heart_tick-IsSending :
    (t : LocalTime) (ec : Bool) (l : Line)
    → IsSending l
    → Ends IsSending (hears l (heart_tick t ec l.connection))
heart_tick-IsSending t true l v = unfold heart_tick in quits-IsSending l v
heart_tick-IsSending t false l v = hears-IsSending l _ v (heart_tick-Posts t l.connection)

pub happens-IsSending : (o : Occurrence) (l : Line) → IsSending l → Ends IsSending (happens o l)
unfolding happens handle IsFilled
happens-IsSending (starting t) l v = hears-IsSending l _ v (start-Posts t l.connection)
happens-IsSending (receives lib e) l v = read_handler-IsSending lib e l v
happens-IsSending (beats t ec) l v = heart_tick-IsSending t ec l v
happens-IsSending (delayed ec) l v = hears-IsSending l _ v (getalarmsmedia-Posts ec l.connection)
happens-IsSending (asks r) l v = hears-IsSending l _ v (perform-Posts r l.connection)
happens-IsSending running l v =
    handle-SubmitsNothing runs l tt (run_posted-SubmitsNothing l.connection.host.posted l) v
happens-IsSending completing l v =
    handle-SubmitsNothing completes l tt (complete_write-SubmitsNothing l.connection.host.writing l)
      v
happens-IsSending failing l v =
    handle-SubmitsNothing fails l tt (fail_write-SubmitsNothing l.connection.host.writing l) v
happens-IsSending stopping l v = stopped-IsSending l v

happen_all-Keeps : (os : List Occurrence) → Keeps IsSending (happen_all os)
unfolding happen_all
happen_all-Keeps [] = record { at = λ l v. v }
happen_all-Keeps (o ∷ os) = record {
  at = λ l v.
      (Keeps-then (happens o) (happen_all os) (record { at = λ l v. happens-IsSending o l v })
          (happen_all-Keeps os)).at
        l v;
}

-- Draining the line writes what has been submitted, all of it and in its order.
abbrev pub Flushes : Line → Type 0
Flushes l =
    (l' : Line) × (handle_all (draining l.connection) l ≡ done tt l')
    × (l'.connection.host.posted ≡ [])
    × (l'.connection.host.writing ≡ [])
    × (l'.wire ≡ l.submitted)

-- What has been submitted are frames, and those written are the first of them. An open line is
-- flushed by draining it.
abbrev pub Delivers : Line → Type 0
Delivers l =
    All IsFrame l.submitted
    × ((rest : List (List ℕ)) × (l.wire ++ rest ≡ l.submitted))
    × ((IsOrdered l × Flushes l) ⊎ IsClosed l)

pub delivers : (l : Line) → IsOrdered l ⊎ IsClosed l → All IsFrame l.submitted → Delivers l
delivers l (inl v) frames =
    let (l', run, _, _, (none_posted, none_writing, sent)) = draining-flushes l v in
    (
      frames,
      (map bytes (l.connection.outbox ++ l.connection.host.posted), v.ordered),
      inl (v, (l', run, none_posted, none_writing, sent)),
    )
delivers l (inr v) frames = (frames, (l.connection.host.writing ++ v.prefix.0, v.prefix.1), inr v)

all_delivered : (r : Outcome Line (Unit {0})) → Ends IsSending r → Ends Delivers r
all_delivered (done a l) v = delivers l v.0 v.1
all_delivered (throws e l) v = delivers l v.0 v.1
all_delivered undefined v = tt
all_delivered diverges v = tt

pub new_line-IsSending :
    (memory : Indeterminate) (settings : Settings) → IsSending (new_line memory settings)
unfolding connection
new_line-IsSending memory settings =
    (inl (record { is_open = refl; writes_front = refl; filled = tt; ordered = refl }), tt)

-- Whatever happens to a new connection, in whatever order, starts, reads that end with bytes or an
-- error, timers, requests, posted handlers that run, writes that complete or fail, and stops,
-- wherever these end or throw each packet that its handlers have sent is the frame of a message of
-- 2 to 255 bytes, those written are the first of them, in their order, and the line is closed, or
-- it is ordered and draining it writes all of them without an exception.
pub happen_all-Delivers :
    (memory : Indeterminate) (settings : Settings) (os : List Occurrence)
    → Ends Delivers (happen_all os (new_line memory settings))
happen_all-Delivers memory settings os =
    let l = new_line memory settings in
    all_delivered (happen_all os l)
      ((happen_all-Keeps os).at l (new_line-IsSending memory settings))
