-- ===== src/Connection/Outbox/Fifo.antt =====
-- What the outgoing side promises, without the strand, the outbox and the socket: a queue, which
-- packets enter behind and leave in front.
use subiaoserver.WorldPacket.{WorldPacket}
use subiaoserver.Common.{
  ℕ, ◌≢◌, Outcome, ◌≡◌, sym, refl, true, List, [], ◌∷◌, ◌++◌, done, All, inl, inr, List-cases,
}
use mathlib.Core.Path.{subst}
use subiaoserver.Connection.Outbox.Line.{
  Event, submits, runs, completes, fails, stops, is_live, Line, bytes, run_posted, complete_write,
  handle, handle_all, IsOrdered, IsFilled,
}
use subiaoserver.Connection.Outbox.Moves.{waiting, submit-Succeeds, run_one}
use subiaoserver.Connection.Outbox.Steps.{complete_one}

pub record Fifo : Type 0 where
  pub queue : List (List ℕ)
  pub sent : List (List ℕ)

-- A run of the queue, with the packets that enter meanwhile in their order.
pub data Runs : List (List ℕ) → Fifo → Fifo → Type 0 where
  rests : {q : Fifo} → Runs [] q q
  enters :
      {ps : List (List ℕ)} {q r : Fifo} (bs : List ℕ)
      → Runs ps (record q { queue = q.queue ++ bs ∷ [] }) r
      → Runs (bs ∷ ps) q r
  leaves :
      {ps : List (List ℕ)} {q r : Fifo} (bs : List ℕ) (rest : List (List ℕ))
      → q.queue ≡ bs ∷ rest
      → Runs ps (record { queue = rest; sent = q.sent ++ bs ∷ [] }) r
      → Runs ps q r

-- The packets that are submitted during some events.
abbrev pub packets : List Event → List (List ℕ)
packets [] = []
packets (submits p ∷ es) = bytes p ∷ packets es
packets (runs ∷ es) = packets es
packets (completes ∷ es) = packets es
packets (fails ∷ es) = packets es
packets (stops ∷ es) = packets es

-- The queue that a line stands for.
abbrev pub view : Line → Fifo
view l = record { queue = waiting l.connection; sent = l.wire }

abbrev pub Refines : List Event → Line → Type 0
Refines es l =
    (l' : Line) × (handle_all es l ≡ done tt l')
    × IsOrdered l'
    × Runs (packets es) (view l) (view l')

-- What one event does to the queue: its packets enter, or the first leaves, or nothing happens.
abbrev After : Event → Line → Outcome Line (Unit {0}) → Type 0
After e l r =
    (l1 : Line) × (r ≡ done tt l1)
    × IsOrdered l1
    × ((ps : List (List ℕ)) (q : Fifo)
        → Runs ps (view l1) q
        → Runs (packets (e ∷ []) ++ ps) (view l) q)

idle : (e : Event) (l : Line) → packets (e ∷ []) ≡ [] → IsOrdered l → After e l (done tt l)
idle e l none_enters v = (l, refl, v, λ ps q r. rw none_enters r)

submits-After :
    (p : WorldPacket) (l : Line)
    → bytes p ≢ []
    → IsOrdered l
    → After (submits p) l (handle (submits p) l)
submits-After p l h v =
    let (l1, e, v1, t) = submit-Succeeds p l h v in
    let same : view l1 ≡ record { queue = waiting l.connection ++ bytes p ∷ []; sent = l.wire } =
      λ i. record { queue = t.queue i; sent = t.wire i } in
    (l1, e, v1, λ ps q r. enters (bytes p) (subst (λ f. Runs ps f q) same r))

runs-After : (l : Line) → IsOrdered l → After runs l (run_posted l.connection.host.posted l)
runs-After l v = elim (List-cases l.connection.host.posted) [
  | inl e ↦
      subst (λ ps. After runs l (run_posted ps l)) (sym e) (unfold run_posted in idle runs l refl v)
  | inr (p, ps, e) ↦
      let (l1, run, v1, t) = run_one l p ps v e in
      let same : view l1 ≡ view l = λ i. record { queue = t.queue i; sent = t.wire i } in
      subst (λ ps. After runs l (run_posted ps l)) (sym e)
        (l1, run, v1, λ ps q r. subst (λ f. Runs ps f q) same r)
]

completes-After :
    (l : Line) → IsOrdered l → After completes l (complete_write l.connection.host.writing l)
completes-After l v = elim (List-cases l.connection.host.writing) [
  | inl e ↦
      subst (λ bs. After completes l (complete_write bs l)) (sym e)
        (unfold complete_write in idle completes l refl v)
  | inr (bs, rest, e) ↦
      let (l1, run, v1, t) = complete_one l bs rest v e in
      let same : view l1 ≡ record { queue = waiting l1.connection; sent = l.wire ++ bs ∷ [] } =
        λ i. record { queue = waiting l1.connection; sent = t.wire i } in
      subst (λ bs. After completes l (complete_write bs l)) (sym e)
        (
          l1,
          run,
          v1,
          λ ps q r. leaves bs (waiting l1.connection) t.queue (subst (λ f. Runs ps f q) same r),
        )
]

handle-After :
    (e : Event) (l : Line) → IsFilled e → is_live e ≡ true → IsOrdered l → After e l (handle e l)
unfolding handle IsFilled is_live
handle-After (submits p) l h alive v = submits-After p l h v
handle-After runs l h alive v = runs-After l v
handle-After completes l h alive v = completes-After l v
handle-After fails l h alive v = absurd (cc alive)
handle-After stops l h alive v = absurd (cc alive)

packets-cons : (e : Event) (es : List Event) → packets (e ∷ []) ++ packets es ≡ packets (e ∷ es)
packets-cons (submits p) es = refl
packets-cons runs es = refl
packets-cons completes es = refl
packets-cons fails es = refl
packets-cons stops es = refl

-- As long as no write fails, nothing stops the connection and every packet submitted holds a byte,
-- an ordered line does what a queue does: the outbox with what is posted changes only in that the
-- packets submitted enter behind, in their order, and packets leave in front to the wire.
pub handle_all-Refines :
    (es : List Event) (l : Line)
    → All IsFilled es
    → All (λ e. is_live e ≡ true) es
    → IsOrdered l
    → Refines es l
unfolding handle_all
handle_all-Refines [] l h alive v = (l, refl, v, rests)
handle_all-Refines (e ∷ es) l h alive v =
    let (l1, e1, v1, step) = handle-After e l h.0 alive.0 v in
    let (l2, e2, v2, r) = handle_all-Refines es l1 h.1 alive.1 v1 in
    (
      l2,
      rw e1 e2,
      v2,
      subst (λ ps. Runs ps (view l) (view l2)) (packets-cons e es) (step (packets es) (view l2) r),
    )
