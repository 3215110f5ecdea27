-- ===== src/Exceptions.antt =====
-- The exception dispatcher of exceptions.C. A handler is the address of its object.
pub mod Dispatch
mod Tests
use multi_process.Base.{
  ℕ, Bool, true, false, List, Option, none, some, ltb, if◌then◌else◌, set, get_or, replicate,
}
use multi_process.Idt
use multi_process.Idt.{Idt}

abbrev pub exception_table_size : ℕ
exception_table_size = 32

-- `handler_table`; `none` is NULL.
abbrev pub HandlerTable : Type 0
HandlerTable = List (Option ℕ)

-- How a dispatch ends: the handler is called, the kernel aborts for want of one, or the assertion
-- on the number fails.
pub data Outcome : Type 0 where
  handle_exception : ℕ → Outcome
  abort : Outcome
  assertion_failed : Outcome

-- `isr` gives the addresses of the assembly stubs.
unfoldable pub init_dispatcher : (ℕ → ℕ) → Idt → Idt × HandlerTable
init_dispatcher isr idt =
    (Idt.set_gates isr 0 exception_table_size idt, replicate exception_table_size none)

unfoldable pub call_or_abort : Option ℕ → Outcome
call_or_abort none = abort
call_or_abort (some handler) = handle_exception handler

-- `dispatch_exception` on the number in the register frame.
unfoldable pub dispatch_exception : HandlerTable → ℕ → Outcome
unfolding call_or_abort
dispatch_exception table exc_no =
    if ltb exc_no exception_table_size
    then call_or_abort (get_or table exc_no none)
    else assertion_failed

-- `none` is a failed assertion.
unfoldable pub register_handler : HandlerTable → ℕ → ℕ → Option HandlerTable
register_handler table isr_code handler =
    if ltb isr_code exception_table_size then some (set table isr_code (some handler)) else none

unfoldable pub deregister_handler : HandlerTable → ℕ → Option HandlerTable
deregister_handler table isr_code =
    if ltb isr_code exception_table_size then some (set table isr_code none) else none
