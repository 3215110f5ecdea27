-- ===== src/Exceptions/Dispatch.antt =====
-- The exceptions of the processor reach the handlers registered for them.
use multi_process.Base.{
  get_or-replicate, ℕ, ◌+◌, ◌≤◌, ◌<◌, ◌≡◌, ◌≢◌, inr, refl, ◌∙◌, true, Option, none, some, ltb, set,
  length, length-set, get_or-set_self, get_or-set_other, word, arith,
}
use mathlib.Core.Path.{subst}
use multi_process.Idt.{Idt}
use multi_process.Idt.Gates
use multi_process.Exceptions.{
  HandlerTable, handle_exception, abort, exception_table_size, init_dispatcher, dispatch_exception,
  register_handler, deregister_handler,
}

-- A handler that was registered for an exception is called by the next such exception; the
-- handlers of the others stay; once it is deregistered, the exception aborts the kernel.
pub register_handler-dispatch_exception :
    (table : HandlerTable) (isr_code handler : ℕ)
    → length table ≡ exception_table_size
    → isr_code < exception_table_size
    → ((table' : HandlerTable) × (register_handler table isr_code handler ≡ some table')
        × (length table' ≡ exception_table_size)
        × (dispatch_exception table' isr_code ≡ handle_exception handler)
        × ((j : ℕ) → isr_code ≢ j → dispatch_exception table' j ≡ dispatch_exception table j))
      × ((table' : HandlerTable) × (deregister_handler table isr_code ≡ some table')
          × (length table' ≡ exception_table_size)
          × (dispatch_exception table' isr_code ≡ abort)
          × ((j : ℕ) → isr_code ≢ j → dispatch_exception table' j ≡ dispatch_exception table j))
unfolding register_handler deregister_handler dispatch_exception
register_handler-dispatch_exception table n h full lt =
    let ok : ltb n exception_table_size ≡ true = ground arith in
    (
      (
        set table n (some h),
        rw ok refl,
        length-set table n (some h) ∙ full,
        rw (ok, get_or-set_self table n (some h) none (rw full lt)) refl,
        λ j ne. rw (get_or-set_other table n j (some h) none ne) refl,
      ),
      (
        set table n none,
        rw ok refl,
        length-set table n none ∙ full,
        rw (ok, get_or-set_self table n none none (rw full lt)) refl,
        λ j ne. rw (get_or-set_other table n j none none ne) refl,
      ),
    )

-- After the initialization, the gates 0 to 31 lead to the stubs of the exceptions, the other gates
-- are as they were, and every exception aborts the kernel.
pub exceptions-init :
    (isr : ℕ → ℕ) (idt : Idt)
    → ((i : ℕ) → isr i < word)
    → ((i : ℕ) → i < 32 → Gates.Leads ((init_dispatcher isr idt).0 i) (isr i))
      × ((k : ℕ) → 32 ≤ k → (init_dispatcher isr idt).0 k ≡ idt k)
      × ((i : ℕ) → i < 32 → dispatch_exception (init_dispatcher isr idt).1 i ≡ abort)
unfolding init_dispatcher dispatch_exception
exceptions-init isr idt small =
    let (inside, outside) =
      Gates.set_gates_lem isr 0 exception_table_size idt (omega arith) small in
    (
      λ i lt.
          let z : 0 + i ≡ i = omega arith in
          subst (λ k. Gates.Leads ((init_dispatcher isr idt).0 k) (isr i)) z (inside i lt),
      λ k le. outside k (inr le),
      λ i lt.
          let ok : ltb i exception_table_size ≡ true = ground arith in
          rw (ok, get_or-replicate {A = Option ℕ} exception_table_size i none) refl,
    )
