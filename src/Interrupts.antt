-- ===== src/Interrupts.antt =====
-- The interrupt dispatcher of interrupts.C. A handler is the address of its object. `none` is a
-- failed assertion.
pub mod Dispatch
mod Tests
use multi_process.Base.{
  ℕ, ◌+◌, Bool, true, false, List, [], ◌∷◌, Option, none, some, ltb, ◌==◌, if◌then◌else◌, sub32,
  set, get_or, replicate,
}
use multi_process.Idt
use multi_process.Idt.{Idt}

abbrev pub irq_table_size : ℕ
irq_table_size = 16

abbrev pub irq_base : ℕ
irq_base = 32

-- `handler_table`; `none` is NULL.
abbrev pub HandlerTable : Type 0
HandlerTable = List (Option ℕ)

-- What a dispatch does, in order: a write to a port, a call of a handler, the error message.
pub data Event : Type 0 where
  outportb : ℕ → ℕ → Event
  handle_interrupt : ℕ → Event
  no_handler : ℕ → Event

-- `irq` gives the addresses of the assembly stubs.
unfoldable pub init_dispatcher : (ℕ → ℕ) → Idt → Idt × HandlerTable
init_dispatcher irq idt =
    (Idt.set_gates irq irq_base irq_table_size idt, replicate irq_table_size none)

unfoldable pub generated_by_slave_pic : ℕ → Bool
generated_by_slave_pic int_no = ltb 7 int_no

-- The end-of-interrupt messages behind the handler.
unfoldable pub end_of_interrupt : ℕ → List Event
unfolding generated_by_slave_pic
end_of_interrupt int_no =
    if generated_by_slave_pic int_no
    then outportb 0xa0 0x20 ∷ outportb 0x20 0x20 ∷ []
    else outportb 0x20 0x20 ∷ []

-- The rest of `dispatch_interrupt`, for the handler that was looked up. The timer interrupt is
-- acknowledged before its handler is called.
unfoldable pub serve : Option ℕ → ℕ → List Event
unfolding end_of_interrupt
serve none int_no = no_handler int_no ∷ end_of_interrupt int_no
serve (some handler) int_no =
    if int_no == 0
    then outportb 0x20 0x20 ∷ handle_interrupt handler ∷ []
    else handle_interrupt handler ∷ end_of_interrupt int_no

-- `dispatch_interrupt` on the number in the register frame.
unfoldable pub dispatch_interrupt : HandlerTable → ℕ → Option (List Event)
unfolding serve
dispatch_interrupt table frame_int_no =
    let int_no = sub32 frame_int_no irq_base in
    if ltb int_no irq_table_size then some (serve (get_or table int_no none) int_no) else none

unfoldable pub register_handler : HandlerTable → ℕ → ℕ → Option HandlerTable
register_handler table irq_code handler =
    if ltb irq_code irq_table_size then some (set table irq_code (some handler)) else none

unfoldable pub deregister_handler : HandlerTable → ℕ → Option HandlerTable
deregister_handler table irq_code =
    if ltb irq_code irq_table_size then some (set table irq_code none) else none
