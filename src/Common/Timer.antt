-- ===== src/Common/Timer.antt =====
-- orderer/common/timer.go: the timer behind every view change. Durations are nanoseconds. The
-- goroutine that waits is the environment's choice to call `expire`; a stop signal is taken by it
-- at once, so its last write (`duration = 5s`) is made in `start` and `stop`.
use dcschain.Base.{ℕ, ◌*◌, Bool, true, false, if◌then◌else◌}

pub record Timer : Type 0 where
  pub duration : ℕ
  pub is_stopped : Bool

abbrev pub stop_duration : ℕ
stop_duration = 5_000_000_000

unfoldable pub new_timer : ℕ → Timer
new_timer d = record { duration = d; is_stopped = true }

unfoldable pub start : Timer → Timer
start t =
    if t.is_stopped then record t { is_stopped = false } else record t { duration = stop_duration }

unfoldable pub stop : Timer → Timer
stop t = if t.is_stopped then t else record { duration = stop_duration; is_stopped = true }

-- The waiting goroutine's expiry around `action`, which runs with the timer stopped.
unfoldable pub expire : (Timer → Timer) → Timer → Timer
expire action t =
    let t' = action (record t { is_stopped = true }) in record t' { duration = t'.duration * 2 }

unfoldable pub reset : Timer → Timer
unfolding start stop
reset t = start (stop t)
