-- ===== src/Server/Running/Occurring.antt =====
-- What happens to a connection leaves a sound program sound.
use subiaoserver.Common.{
  ℕ, ◌<◌, ◌≡◌, ◌≢◌, ◌∙◌, arith, ◌==◌, true, false, List, if◌then◌else◌, inl, inr, Bool-cases,
  Outcome, done, throws, undefined, diverges,
}
use mathlib.Core.Path.{subst, sym}
use subiaoserver.Common.Keeps.{Ends}
use subiaoserver.Connection.{Connection}
use subiaoserver.Connection.Outbox.Line.{Line}
use subiaoserver.Connection.Life.{Occurrence, happens}
use subiaoserver.Connection.Life.Hearing.{IsSending}
use subiaoserver.Connection.Life.Sending.{happens-IsSending}
use subiaoserver.Connection.Life.Membership.{IsStill, happens-IsStill}
use subiaoserver.ConnectionManager.Held.{IsHeld}
use subiaoserver.ConnectionManager.Sets.{contains, contains-erase, erase-IsSorted, IsSorted}
use subiaoserver.ConnectionManager.Updates.{update-away}
use subiaoserver.Server.Serving.{IsServing}
use subiaoserver.Server.Running.{handle, occurs, after_line, Program, line, put_line, forget}
use subiaoserver.Server.Running.Lines.{IsSound, IsIdle, IsFresh, put_line-IsSending}

forget-IsSorted : (i : ℕ) (c : Connection) (is : List ℕ) → IsSorted is → IsSorted (forget i c is)
forget-IsSorted i c is h = elim (Bool-cases c.registered) [
  | inl held ↦ rw held h
  | inr lost ↦ rw lost (erase-IsSorted i is h)
]

contains-forget :
    (k i : ℕ) (c : Connection) (is : List ℕ)
    → IsSorted is
    → (c.registered ≡ true → contains i is ≡ true)
    → contains k (forget i c is) ≡ (if k == i then c.registered else contains k is)
contains-forget k i c is h before = ground (arith, contains-erase k i is h, before)

put_line-IsHeld :
    (i : ℕ) (l : Line) (s : Program)
    → IsStill (line i s).connection l.connection
    → IsHeld s.server.manager
    → IsHeld (put_line i l s).server.manager
put_line-IsHeld i l s h v = record {
  sorted = forget-IsSorted i l.connection s.server.manager.connections v.sorted;
  registered = λ k. ground (
    arith,
    contains-forget k i l.connection s.server.manager.connections v.sorted,
    v.registered k,
    h,
  );
  is_open = λ k held. ground (arith, v.is_open k, h);
}

put_line-IsServing :
    (i : ℕ) (l : Line) (s : Program)
    → i < s.server.next
    → (i == s.server.new_connection) ≡ false
    → IsStill (line i s).connection l.connection
    → IsServing s.server
    → IsServing (put_line i l s).server
put_line-IsServing i l s made other h v = record {
  held = put_line-IsHeld i l s h v.held;
  accepting = v.accepting;
  made = v.made;
  waits = ground (arith, v.waits);
  unused = λ k above. ground (
    arith,
    contains-forget k i l.connection s.server.manager.connections v.held.sorted,
    v.held.registered i,
    v.unused k above,
    h,
  );
}

put_line-IsFresh :
    (i : ℕ) (l : Line) (s : Program)
    → (s.server.new_connection == i) ≡ false
    → IsFresh (line s.server.new_connection s)
    → IsFresh (line s.server.new_connection (put_line i l s))
put_line-IsFresh i l s other v =
    let n = s.server.new_connection in
    let same = update-away n i l.connection s.server.manager.objects other in
    record {
      idle = subst IsIdle (sym same) v.idle;
      wire = update-away n i l.wire s.wires other ∙ v.wire;
      submitted = update-away n i l.submitted s.submitted other ∙ v.submitted;
    }

put_line-IsSound :
    (i : ℕ) (l : Line) (s : Program)
    → i < s.server.next
    → i ≢ s.server.new_connection
    → IsStill (line i s).connection l.connection
    → IsSending l
    → IsSound s
    → IsSound (put_line i l s)
put_line-IsSound i l s made other h sends v = record {
  serving = put_line-IsServing i l s made (ground (arith, other)) h v.serving;
  fresh = put_line-IsFresh i l s (ground (arith, other)) v.fresh;
  sending = λ k before away. put_line-IsSending k i l s sends (λ _. v.sending k before away);
}

after_line-IsSound :
    (i : ℕ) (s : Program) (r : Outcome Line (Unit {0}))
    → i < s.server.next
    → i ≢ s.server.new_connection
    → Ends (λ l. IsStill (line i s).connection l.connection) r
    → Ends IsSending r
    → IsSound s
    → Ends IsSound (after_line i s r)
after_line-IsSound i s (done a l) made other h sends v = put_line-IsSound i l s made other h sends v
after_line-IsSound i s (throws e l) made other h sends v =
    put_line-IsSound i l s made other h sends v
after_line-IsSound i s undefined made other h sends v = tt
after_line-IsSound i s diverges made other h sends v = tt

pub occurs-IsSound :
    (i : ℕ) (o : Occurrence) (s : Program)
    → i < s.server.next
    → i ≢ s.server.new_connection
    → IsSound s
    → Ends IsSound (handle (occurs i o) s)
unfolding handle
occurs-IsSound i o s made other v =
    let away : (i == s.server.new_connection) ≡ false = ground (arith, other) in
    after_line-IsSound i s (happens o (line i s)) made other
      (happens-IsStill o (line i s) (v.serving.held.is_open i))
      (happens-IsSending o (line i s) (v.sending i made away)) v
