-- ===== src/Timer/Event.antt =====
-- The start of the timers of timer_event.c. What the system says of a timer, and whether it makes
-- and starts one, are arguments; `none` is a call that fails.
use socket.Base.{ℕ, Bool, false, Option, none, some, ltb, ◌==◌, ◌||◌, if◌then◌else◌}

pub record Clock : Type 0 where
  pub timer_gettime : ℕ → Option (ℕ × ℕ)
  pub timer_create : Option ℕ
  pub timer_settime : ℕ → Bool

-- `is_timer_active`: the answer, and `*timer`, where 0 is no timer.
abbrev pub is_timer_active : Clock → ℕ → Bool × ℕ
is_timer_active clock timer =
    if timer == 0 then (false, timer) else by_time (clock.timer_gettime timer)
  where
    by_time : Option (ℕ × ℕ) → Bool × ℕ
    by_time none = (false, 0)
    by_time (some (sec, nsec)) = (ltb 0 sec || ltb 0 nsec, timer)

-- `create_timer` and `start_timer`. Where one of them fails the program exits.
abbrev pub start_new : Clock → Option ℕ → Option ℕ
start_new clock none = none
start_new clock (some id) = if clock.timer_settime id then some id else none

-- `path_event_handler` and `resv_event_handler`, on the variable of their timer.
unfoldable pub event_handler : Clock → ℕ → Option ℕ
event_handler clock timer =
    let (active, timer') = is_timer_active clock timer in
    if active then some timer' else start_new clock clock.timer_create
