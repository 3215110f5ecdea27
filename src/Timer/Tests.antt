-- ===== src/Timer/Tests.antt =====
-- A timer of 5 Hz.
use multi_process.Base.{arith}
use multi_process.Timer.{Timer}
use multi_process.Timer.Ticks.{IsValid}

abbrev timer : Timer
timer = record { seconds = 3; ticks = 4; hz = 5 }

timer-IsValid : IsValid timer
timer-IsValid = record { runs = omega arith; below = omega arith }
