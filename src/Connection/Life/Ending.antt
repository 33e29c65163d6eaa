-- ===== src/Connection/Life/Ending.antt =====
-- What happens to a connection ends, whatever it receives.
use subiaoserver.Common.{
  ℕ, ◌+◌, ◌^◌, ◌<◌, ◌≢◌, refl, sym, arith, Bool, true, false, List, [], ◌∷◌, length, Outcome, done,
  throws, undefined, diverges, Exec,
}
use mathlib.Core.Path.{subst}
use subiaoserver.Common.Keeps.{Ends}
use subiaoserver.Common.Halts.{
  IsHalted, IsHalted-diverges, Leads, Leads-Ends, Leads-IsHalted, Leads-and_then,
}
use subiaoserver.Connection.{Connection, manager_stop}
use subiaoserver.Connection.Globals.{Settings}
use subiaoserver.Connection.Packets.{LocalTime}
use subiaoserver.Connection.Media.{Library}
use subiaoserver.Connection.Kept.{perform-Keeps}
use subiaoserver.Connection.Kept.Handlers.{getalarmsmedia-Keeps}
use subiaoserver.Connection.Halting.{perform-Halts, getalarmsmedia-Halts}
use subiaoserver.Connection.Outbox.Framing.{
  frame-Ignores, run_posted-Ends, complete_write-Ends, fail_write-Ends,
}
use subiaoserver.Connection.Outbox.Line.{Line, Event, runs, completes, fails, handle, IsFilled}
use subiaoserver.Connection.Receive.{
  ReadEvent, aborted, failed, received, readmedia, read_handler, heart_tick, start, start_write,
  Indeterminate, connection,
}
use subiaoserver.Connection.Requests.{Request, perform}
use subiaoserver.Connection.Media.{getalarmsmedia}
use subiaoserver.Connection.Outbox.Failure.{Goes, either-Goes}
use subiaoserver.Connection.Life.Hearing.{IsSending}
use subiaoserver.Connection.Life.Sending.{happens-IsSending, new_line-IsSending}
use subiaoserver.Connection.Life.Keeping.{
  IsSmall, HasSmall, Small, Small-Survives, beat-Leads, received-Leads,
}
use subiaoserver.Connection.Life.{
  Occurrence, starting, receives, beats, delayed, asks, running, completing, failing, stopping,
  hears, happens, happen_all, new_line,
}

-- How many bytes have been received.
abbrev pub arriving : Occurrence → ℕ
arriving (receives lib (received bs)) = length bs
arriving _ = 0

abbrev pub arriving_all : List Occurrence → ℕ
arriving_all [] = 0
arriving_all (o ∷ os) = arriving o + arriving_all os

handler-Leads :
    (n : ℕ) (m : Exec Connection (Unit {0})) (l : Line)
    → Leads (HasSmall n) (m l.connection)
    → Leads (λ l'. HasSmall n l'.connection) (hears l (m l.connection))
handler-Leads n m l h =
    elim (m l.connection)
        as (λ r. Leads (HasSmall n) r → Leads (λ l'. HasSmall n l'.connection) (hears l r)) [
          | done a c ↦ λ k. k
          | throws e c ↦ λ k. k
          | undefined ↦ λ k. k
          | diverges ↦ λ k. k
        ]
      h

module _ (n : ℕ) where
  abbrev LineLeads : Outcome Line (Unit {0}) → Type 0
  LineLeads r = Leads (λ l. HasSmall n l.connection) r

  outgoing-Leads :
      (e : Event) (l : Line)
      → IsFilled e
      → IsSending l
      → Ends (λ l. HasSmall n l.connection) (handle e l)
      → LineLeads (handle e l)
  unfolding Goes
  outgoing-Leads e l filled v ends =
      let (l', run, _) = either-Goes e l filled v.0 in
      Leads-Ends _ (handle e l) (subst IsHalted (sym run) tt) ends

  -- What happens, but for bytes that arrive.
  start-Leads : (t : LocalTime) (c : Connection) → HasSmall n c → Leads (HasSmall n) (start t c)
  unfolding start start_write readmedia
  start-Leads t c h = beat-Leads n t _ (h.0, omega arith)

  heart_tick-Leads :
      (t : LocalTime) (ec : Bool) (c : Connection)
      → HasSmall n c
      → Leads (HasSmall n) (heart_tick t ec c)
  unfolding heart_tick manager_stop
  heart_tick-Leads t true c h = h
  heart_tick-Leads t false c h = beat-Leads n t c h

  getalarmsmedia-Leads :
      (ec : Bool) (c : Connection) → HasSmall n c → Leads (HasSmall n) (getalarmsmedia ec c)
  getalarmsmedia-Leads ec c h =
      Leads-Ends (HasSmall n) _ ((getalarmsmedia-Halts ec).at c)
        ((getalarmsmedia-Keeps (Small n) (Small-Survives n) ec).at c h)

  perform-Leads : (r : Request) (c : Connection) → HasSmall n c → Leads (HasSmall n) (perform r c)
  perform-Leads r c h =
      Leads-Ends (HasSmall n) _ ((perform-Halts r).at c)
        ((perform-Keeps (Small n) (Small-Survives n) r).at c h)

same_size : (n : ℕ) (c : Connection) → HasSmall n c → HasSmall (n + 0) c
same_size n c h = (h.0, omega (arith, h.1))

stopped-HasSmall : (n : ℕ) (c : Connection) → HasSmall n c → HasSmall n (manager_stop c)
unfolding manager_stop
stopped-HasSmall n c h = h

read_handler-Leads :
    (n : ℕ) (lib : Library) (e : ReadEvent) (c : Connection)
    → HasSmall n c
    → n + arriving (receives lib e) + 1 < 2 ^ 64
    → Leads (HasSmall (n + arriving (receives lib e))) (read_handler lib e c)
read_handler-Leads n lib aborted c h small = unfold read_handler in (h.0, omega (arith, h.1))
read_handler-Leads n lib failed c h small =
    unfold read_handler in stopped-HasSmall (n + 0) c (h.0, omega (arith, h.1))
read_handler-Leads n lib (received bs) c h small = received-Leads n lib bs c h small

happens-Leads :
    (n : ℕ) (o : Occurrence) (l : Line)
    → IsSending l
    → HasSmall n l.connection
    → n + arriving o + 1 < 2 ^ 64
    → LineLeads (n + arriving o) (happens o l)
unfolding happens handle IsFilled
happens-Leads n (receives lib e) l v h small =
    handler-Leads (n + arriving (receives lib e)) (read_handler lib e) l
      (read_handler-Leads n lib e l.connection h small)
happens-Leads n (starting t) l v h small =
    handler-Leads (n + 0) (start t) l
      (start-Leads (n + 0) t l.connection (same_size n l.connection h))
happens-Leads n (beats t ec) l v h small =
    handler-Leads (n + 0) (heart_tick t ec) l
      (heart_tick-Leads (n + 0) t ec l.connection (same_size n l.connection h))
happens-Leads n (delayed ec) l v h small =
    handler-Leads (n + 0) (getalarmsmedia ec) l
      (getalarmsmedia-Leads (n + 0) ec l.connection (same_size n l.connection h))
happens-Leads n (asks r) l v h small =
    handler-Leads (n + 0) (perform r) l
      (perform-Leads (n + 0) r l.connection (same_size n l.connection h))
happens-Leads n running l v h small = outgoing-Leads (n + 0) runs l tt v (
    run_posted-Ends (HasSmall (n + 0)) (frame-Ignores (IsSmall (n + 0))) l.connection.host.posted l
      (same_size n l.connection h))
happens-Leads n completing l v h small = outgoing-Leads (n + 0) completes l tt v (
    complete_write-Ends (HasSmall (n + 0)) (frame-Ignores (IsSmall (n + 0)))
      l.connection.host.writing l (same_size n l.connection h))
happens-Leads n failing l v h small = outgoing-Leads (n + 0) fails l tt v (
    fail_write-Ends (HasSmall (n + 0)) (frame-Ignores (IsSmall (n + 0))) l.connection.host.writing l
      (same_size n l.connection h))
happens-Leads n stopping l v h small =
    stopped-HasSmall (n + 0) l.connection (same_size n l.connection h)

-- What leads to one fact and ends with another leads to both.
Leads-both :
    {S A : Type 0} (P Q : S → Type 0) (r : Outcome S A)
    → Leads P r
    → Ends Q r
    → Leads (λ s. P s × Q s) r
Leads-both P Q (done a s) h e = (h, e)
Leads-both P Q (throws x s) h e = tt
Leads-both P Q undefined h e = tt
Leads-both P Q diverges h e = h

happen_all-IsHalted :
    (n : ℕ) (os : List Occurrence) (l : Line)
    → HasSmall n l.connection
    → IsSending l
    → n + arriving_all os + 1 < 2 ^ 64
    → IsHalted (happen_all os l)
unfolding happen_all
happen_all-IsHalted n [] l h v small = tt
happen_all-IsHalted n (o ∷ os) l h v small =
    let P : Line → Type 0 = λ l. HasSmall (n + arriving o) l.connection in
    Leads-IsHalted (λ l. Unit) _
      (Leads-and_then (λ l. P l × IsSending l) (λ l. Unit) (happens o l) (λ _. happen_all os)
        (Leads-both P IsSending _ (happens-Leads n o l v h (omega (arith, small)))
          (happens-IsSending o l v))
        (λ a s k. happen_all-IsHalted (n + arriving o) os s k.0 k.1 (omega (arith, small))))

pub happen_all-Halts :
    (memory : Indeterminate) (settings : Settings) (os : List Occurrence)
    → arriving_all os + 1 < 2 ^ 64
    → happen_all os (new_line memory settings) ≢ diverges
unfolding connection
happen_all-Halts memory settings os small = IsHalted-diverges _ (
    happen_all-IsHalted 0 os (new_line memory settings) (refl, omega arith)
      (new_line-IsSending memory settings) (omega (arith, small)))
