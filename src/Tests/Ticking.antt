-- ===== src/Tests/Ticking.antt =====
-- Two ticks of a periodic source whose queue counts, and the theorems there.
use fortsa.Base.{ℕ, suc, true, false, none, some, ◌≡◌, refl, ok}
use fortsa.Base.Int.{pos}
use fortsa.Kube.{NamespacedName}
use fortsa.Triggers.Ticking.{
  Ticking, done, ticked, start_source, select_round, round, tick, drop_tick, Run, begin, next,
}
use fortsa.Triggers.Ticking.Accounting.{received, Accounted, added, Run-Accounted, Run-receives}

abbrev count : NamespacedName → ℕ → ℕ
count req n = suc n

abbrev idle : Ticking ℕ
idle = record { running = true; waiting = false; cancelled = false; queue = 0 }

abbrev full : Ticking ℕ
full = record idle { waiting = true }

abbrev once : Ticking ℕ
once = record idle { queue = 1 }

tick_received : select_round count ticked full ≡ some once
unfolding select_round
tick_received = refl

-- A tick is received; of the next two, one is dropped.
abbrev three_ticks : Run count idle (record once { waiting = true })
three_ticks =
    next (next (next (next begin (tick refl refl)) (round ticked tick_received)) (tick refl refl))
      (drop_tick refl refl)

idle_started : start_source {E = ℕ} (pos 60) 0 ≡ ok idle
unfolding start_source
idle_started = refl

Run-Accounted_example : Accounted count 0 three_ticks
Run-Accounted_example = Run-Accounted count ℕ (pos 60) 0 idle_started three_ticks

Run-receives_example :
    (u : Ticking ℕ) × (select_round count ticked (record once { waiting = true }) ≡ some u)
    × (u.queue ≡ added count (suc (received count three_ticks)) 0)
    × (u.waiting ≡ false)
    × (select_round count done (record once { waiting = true }) ≡ none)
Run-receives_example = Run-receives count ℕ (pos 60) 0 idle_started three_ticks refl refl
