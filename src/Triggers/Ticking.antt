-- ===== src/Triggers/Ticking.antt =====
-- The source of `NewReconcileSource` of internal/periodic/trigger.go: a goroutine that puts the
-- periodic request into the controller's queue at each tick, until its context is cancelled. The
-- queue and its `Add` are parameters. The ticker's channel holds one tick; a tick that finds
-- one waiting is dropped, and a stopped ticker sends no more.
pub mod Accounting
use fortsa.Base.{Bool, true, false, ◌&&◌, Option, none, some, ◌≡◌, if◌then◌else◌, Result, ok, panic}
use fortsa.Base.Int.{Duration, pos, ltb_ℤ}
use fortsa.Kube.{NamespacedName}
use fortsa.Triggers.{periodic_request}

-- The goroutine, the ticker's channel, the context and the queue.
pub record Ticking (Queue : Type 0) : Type 0 where
  pub running : Bool
  pub waiting : Bool
  pub cancelled : Bool
  pub queue : Queue

-- The cases of `select`.
pub data Case : Type 0 where
  done : Case
  ticked : Case

-- What the source's function starts: `time.NewTicker` panics unless the period is positive.
unfoldable pub start_source : {E Queue : Type 0} → Duration → Queue → Result E (Ticking Queue)
start_source period queue =
    if ltb_ℤ (pos 0) period
    then ok (record { running = true; waiting = false; cancelled = false; queue = queue })
    else panic

module _ {Queue : Type 0} (add : NamespacedName → Queue → Queue) where
  -- A round of the loop by a case of `select`, where the case is ready.
  unfoldable pub select_round : Case → Ticking Queue → Option (Ticking Queue)
  select_round done s =
      if s.running && s.cancelled then some (record s { running = false }) else none
  select_round ticked s =
      if s.running && s.waiting
      then some (record s { waiting = false; queue = add periodic_request s.queue })
      else none

  -- What happens: the loop makes a round, or the ticker or the context moves. `select` may take
  -- either case where both are ready.
  pub data Step (s : Ticking Queue) : Ticking Queue → Type 0 where
    round : {t : Ticking Queue} (c : Case) → select_round c s ≡ some t → Step s t
    tick : s.running ≡ true → s.waiting ≡ false → Step s (record s { waiting = true })
    drop_tick : s.running ≡ true → s.waiting ≡ true → Step s s
    cancel : Step s (record s { cancelled = true })

  pub data Run (s : Ticking Queue) : Ticking Queue → Type 0 where
    begin : Run s s
    next : {t u : Ticking Queue} → Run s t → Step t u → Run s u
