-- ===== src/Interrupts/Tests.antt =====
-- The dispatcher with a handler for the timer.
use multi_process.Base.{◌≡◌, refl, none, some, [], ◌∷◌, replicate}
use multi_process.Interrupts.{outportb, handle_interrupt, HandlerTable, dispatch_interrupt, serve}

abbrev timer_only : HandlerTable
timer_only = some 0x9000 ∷ replicate 15 none

tick : dispatch_interrupt timer_only 32 ≡ some (outportb 0x20 0x20 ∷ handle_interrupt 0x9000 ∷ [])
unfolding dispatch_interrupt serve
tick = refl
