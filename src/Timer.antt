-- ===== src/Timer.antt =====
-- The timer of simple_timer.C. `ticks` and `hz` are of type int and `hz` is
-- positive, so `ticks` stays below it and cannot overflow.
pub mod Ticks
mod Tests
use multi_process.Base.{
  ℕ, zero, suc, ◌+◌, ◌/◌, ◌%◌, ◌^◌, Bool, true, false, ◌&&◌, List, [], ◌∷◌, ltb, leb, add32,
  if◌then◌else◌,
}

-- `class SimpleTimer`
pub record Timer : Type 0 where
  pub seconds : ℕ
  pub ticks : ℕ
  pub hz : ℕ

-- The writes to ports are pairs of a port and a byte.
unfoldable pub set_frequency : Timer → ℕ → Timer × List (ℕ × ℕ)
set_frequency t hz =
    let divisor = 1193180 / hz in
    (
      record { seconds = t.seconds; ticks = t.ticks; hz = hz },
      (0x43, 0x34) ∷ (0x40, divisor % 2 ^ 8) ∷ (0x40, divisor / 2 ^ 8 % 2 ^ 8) ∷ [],
    )

-- The field `hz` has no value before the call.
unfoldable pub construct : ℕ → Timer × List (ℕ × ℕ)
unfolding set_frequency
construct hz = set_frequency (record { seconds = 0; ticks = 0; hz = 0 }) hz

unfoldable pub handle_interrupt : Timer → Timer
handle_interrupt t =
    if leb (t.hz) (t.ticks + 1)
    then record { seconds = add32 (t.seconds) 1; ticks = 0; hz = t.hz }
    else record { seconds = t.seconds; ticks = t.ticks + 1; hz = t.hz }

unfoldable pub current : Timer → ℕ × ℕ
current t = (t.seconds, t.ticks)

-- The condition on which `wait` goes on, for the timer it was called at.
unfoldable pub waits : Timer → ℕ → Timer → Bool
unfolding current
waits start seconds t =
    let (now_seconds, now_ticks) = current start in
    leb (t.seconds) (add32 now_seconds seconds) && ltb (t.ticks) now_ticks
