-- ===== src/Triggers/Ticking/Accounting.antt =====
-- Where the ticks of a periodic source go.
use fortsa.Base.{
  ◌⊎◌, inl, inr, inl, inr, ℕ, zero, suc, ◌+◌, Bool, true, false, none, some, ◌≡◌, refl, ok, ap, ◌∙◌,
  arith,
}
use fortsa.Base.Int.{Duration}
use fortsa.Kube.{NamespacedName}
use fortsa.Triggers.{periodic_request}
use fortsa.Triggers.Ticking.{
  Ticking, done, ticked, start_source, select_round, Step, round, tick, drop_tick, cancel, Run,
  begin, next,
}

module _ {Queue : Type 0} (add : NamespacedName → Queue → Queue) where
  -- The queue after the periodic request was put into it some times.
  pub added : ℕ → Queue → Queue
  added zero queue = queue
  added (suc n) queue = add periodic_request (added n queue)

  abbrev pub sent_by : {s t : Ticking Queue} → Step add s t → ℕ
  sent_by (round c e) = 0
  sent_by (tick on free) = 1
  sent_by (drop_tick on full) = 1
  sent_by cancel = 0

  abbrev pub dropped_by : {s t : Ticking Queue} → Step add s t → ℕ
  dropped_by (round c e) = 0
  dropped_by (tick on free) = 0
  dropped_by (drop_tick on full) = 1
  dropped_by cancel = 0

  abbrev pub received_by : {s t : Ticking Queue} → Step add s t → ℕ
  received_by (round done e) = 0
  received_by (round ticked e) = 1
  received_by (tick on free) = 0
  received_by (drop_tick on full) = 0
  received_by cancel = 0

  -- The ticks of a run that were sent, dropped and received.
  pub sent : {s t : Ticking Queue} → Run add s t → ℕ
  sent begin = 0
  sent (next r st) = sent r + sent_by st

  pub dropped : {s t : Ticking Queue} → Run add s t → ℕ
  dropped begin = 0
  dropped (next r st) = dropped r + dropped_by st

  pub received : {s t : Ticking Queue} → Run add s t → ℕ
  received begin = 0
  received (next r st) = received r + received_by st

  abbrev pub pending : Bool → ℕ
  pending true = 1
  pending false = 0

  -- A step's ticks are received, dropped, or wait.
  Step-ticks :
      {s t : Ticking Queue} (st : Step add s t)
      → pending s.waiting + sent_by st ≡ received_by st + dropped_by st + pending t.waiting
  unfolding select_round
  Step-ticks (round done e) = ground arith
  Step-ticks (round ticked e) = ground arith
  Step-ticks (tick on free) = ground arith
  Step-ticks (drop_tick on full) = ground arith
  Step-ticks cancel = ground arith

  Step-queue : {s t : Ticking Queue} (st : Step add s t) → t.queue ≡ added (received_by st) s.queue
  unfolding select_round added
  Step-queue (round done e) = ground arith
  Step-queue (round ticked e) = ground arith
  Step-queue (tick on free) = refl
  Step-queue (drop_tick on full) = refl
  Step-queue cancel = refl

  added-add : (n m : ℕ) (queue : Queue) → added n (added m queue) ≡ added (m + n) queue
  unfolding added
  added-add zero m queue = let same : m ≡ m + 0 = omega arith in ap (λ k. added k queue) same
  added-add (suc n) m queue =
      let same : suc (m + n) ≡ m + suc n = omega arith in
      ap (add periodic_request) (added-add n m queue) ∙ ap (λ k. added k queue) same

  Run-ticks :
      {s t : Ticking Queue} (r : Run add s t)
      → pending s.waiting + sent r ≡ received r + dropped r + pending t.waiting
  unfolding sent received dropped
  Run-ticks begin = omega arith
  Run-ticks (next r st) = omega (arith, Run-ticks r, Step-ticks st)

  Run-queue : {s t : Ticking Queue} (r : Run add s t) → t.queue ≡ added (received r) s.queue
  unfolding received
  Run-queue begin = unfold added in refl
  Run-queue {s} (next r st) =
      Step-queue st
      ∙ ap (added (received_by st)) (Run-queue r)
      ∙ added-add (received_by st) (received r) s.queue

  -- Only a cancelled context ends the loop, and a cancelled one stays so.
  Stops : Ticking Queue → Type 0
  Stops s = (s.cancelled ≡ true) ⊎ (s.running ≡ true)

  Step-Stops : {s t : Ticking Queue} → Step add s t → Stops s → Stops t
  unfolding select_round Stops
  Step-Stops (round done e) stops = ground arith
  Step-Stops (round ticked e) stops = ground arith
  Step-Stops (tick on free) stops = inr on
  Step-Stops (drop_tick on full) stops = stops
  Step-Stops cancel stops = inl refl

  Run-Stops : {s t : Ticking Queue} → Run add s t → Stops s → Stops t
  Run-Stops begin stops = stops
  Run-Stops (next r st) stops = Step-Stops st (Run-Stops r stops)

  start_source-running :
      (E : Type 0) (period : Duration) (queue : Queue) {s : Ticking Queue}
      → start_source {E = E} period queue ≡ ok s
      → (s.running ≡ true) × (s.waiting ≡ false) × (s.queue ≡ queue)
  unfolding start_source
  start_source-running E period queue h = ground arith

  -- What has become of the ticks of a run, whose queue was as given when it began.
  pub record Accounted (queue : Queue) {s t : Ticking Queue} (r : Run add s t) : Type 0 where
    pub balanced : sent r ≡ received r + dropped r + pending t.waiting
    pub queued : t.queue ≡ added (received r) queue
    pub runs_on : (t.cancelled ≡ true) ⊎ (t.running ≡ true)

  -- At each moment of a run of a source that has started, the ticks sent are those received, those
  -- dropped because one was waiting, and the one that waits, if any; the queue is the first one
  -- with the periodic request put into it once for each tick received; and the loop runs if the
  -- context is not cancelled.
  pub Run-Accounted :
      (E : Type 0) (period : Duration) (queue : Queue) {s t : Ticking Queue}
      → start_source {E = E} period queue ≡ ok s
      → (r : Run add s t) → Accounted queue r
  unfolding Stops
  Run-Accounted E period queue {s} started r =
      let (running, free, same) = start_source-running E period queue started in
      let none_waits : pending s.waiting ≡ 0 = ap pending free in
      record {
        balanced = omega (arith, Run-ticks r);
        queued = Run-queue r ∙ ap (added (received r)) same;
        runs_on = Run-Stops r (inr running);
      }

  -- In a run of a source that has started, while the context is not cancelled and a tick waits, the
  -- loop's next round can only be the receipt of this tick; the round can be made, and it puts the
  -- request into the queue once more.
  pub Run-receives :
      (E : Type 0) (period : Duration) (queue : Queue) {s t : Ticking Queue}
      → start_source {E = E} period queue ≡ ok s
      → (r : Run add s t) → t.cancelled ≡ false
      → t.waiting ≡ true
      → (u : Ticking Queue) × (select_round add ticked t ≡ some u)
        × (u.queue ≡ added (suc (received r)) queue)
        × (u.waiting ≡ false)
        × (select_round add done t ≡ none)
  unfolding select_round
  Run-receives E period queue {s} {t} started r live waits =
      let accounts = Run-Accounted E period queue started r in
      let running : t.running ≡ true = ground (arith, accounts.runs_on) in
      (
        record t { waiting = false; queue = add periodic_request t.queue },
        rw (running, waits) refl,
        unfold added in ap (add periodic_request) accounts.queued,
        refl,
        rw (running, live) refl,
      )
