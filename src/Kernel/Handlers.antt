-- ===== src/Kernel/Handlers.antt =====
-- Where exceptions and interrupts lead when main has set the kernel up.
use multi_process.Base.{
  ℕ, ◌+◌, ◌<◌, ◌≡◌, ◌≢◌, refl, sym, ◌∙◌, true, List, [], ◌∷◌, Option, none, some, inl, word, length,
  length-replicate, arith,
}
use mathlib.Core.Path.{subst}
use multi_process.Gdt.{Gdt}
use multi_process.Idt
use multi_process.Idt.Gates.{Leads}
use multi_process.Console
use multi_process.Console.{Console, output_redirection, with_cursor, cls}
use multi_process.Console.Echo.{Ready}
use multi_process.Exceptions
use multi_process.Exceptions.{handle_exception, abort, dispatch_exception}
use multi_process.Exceptions.Dispatch.{exceptions-init, register_handler-dispatch_exception}
use multi_process.Interrupts
use multi_process.Interrupts.{Event, dispatch_interrupt}
use multi_process.Interrupts.Dispatch.{handlers, register_handler-serve, init_dispatcher_lem}
use multi_process.Scheduler.{Thread, construct_rr}
use multi_process.Kernel.SetUp.{Devices, set_up, register_handlers}

-- The kernel when it is set up.
pub record Operational (isr irq : ℕ → ℕ) (dbz pagefault timer : ℕ) (d : Devices) : Type 0 where
  pub ready : Ready d.console
  pub exception_gates : (i : ℕ) → i < 32 → Leads (d.idt i) (isr i)
  pub interrupt_gates : (i : ℕ) → i < 16 → Leads (d.idt (32 + i)) (irq i)
  pub division : dispatch_exception d.exceptions 0 ≡ handle_exception dbz
  pub page_fault : dispatch_exception d.exceptions 14 ≡ handle_exception pagefault
  pub others : (j : ℕ) → j < 32 → 0 ≢ j → 14 ≢ j → dispatch_exception d.exceptions j ≡ abort
  pub quantum :
      (hz : ℕ) (next : Thread → Thread) (control : Thread)
      → (t : Interrupts.HandlerTable) × ((construct_rr hz next control timer d.interrupts).2
          ≡ some t)
        × (es : List Event) × (dispatch_interrupt t 32 ≡ some es)
        × (handlers es ≡ timer ∷ [])

console-Ready :
    (fore back : ℕ) (c : Console) → Ready (output_redirection true (Console.init fore back c))
unfolding output_redirection Console.init cls with_cursor
console-Ready fore back c = record {
  redirected = refl;
  on = record { column = omega arith; row = omega arith };
}

module _ (isr irq : ℕ → ℕ) (gdt : Gdt) (console : Console) (isr_small : (i : ℕ) → isr i < word)
    (irq_small : (i : ℕ) → irq i < word) where
  abbrev fresh : Devices
  fresh = set_up isr irq gdt console

  exceptions-length : length fresh.exceptions ≡ 32
  unfolding set_up Exceptions.init_dispatcher
  exceptions-length = length-replicate {A = Option ℕ} 32 none

  interrupts-length : length fresh.interrupts ≡ 16
  unfolding set_up Interrupts.init_dispatcher
  interrupts-length = length-replicate {A = Option ℕ} 16 none

  fresh-Ready : Ready fresh.console
  unfolding set_up
  fresh-Ready = console-Ready 15 0 console

  exception-Leads : (i : ℕ) → i < 32 → Leads (fresh.idt i) (isr i)
  unfolding set_up
  exception-Leads i lt =
      let (gates, _, _) = exceptions-init isr Idt.init isr_small in
      let (_, kept, _) =
        init_dispatcher_lem irq (Exceptions.init_dispatcher isr Idt.init).0 irq_small in
      subst (λ e. Leads e (isr i)) (sym (kept i (inl lt))) (gates i lt)

  interrupt-Leads : (i : ℕ) → i < 16 → Leads (fresh.idt (32 + i)) (irq i)
  unfolding set_up
  interrupt-Leads =
      (init_dispatcher_lem irq (Exceptions.init_dispatcher isr Idt.init).0 irq_small).0

  fresh-abort : (j : ℕ) → j < 32 → dispatch_exception fresh.exceptions j ≡ abort
  unfolding set_up
  fresh-abort = (exceptions-init isr Idt.init isr_small).2

  timer-quantum :
      (timer hz : ℕ) (next : Thread → Thread) (control : Thread)
      → (t : Interrupts.HandlerTable) × ((construct_rr hz next control timer fresh.interrupts).2
          ≡ some t)
        × (es : List Event) × (dispatch_interrupt t 32 ≡ some es)
        × (handlers es ≡ timer ∷ [])
  unfolding construct_rr
  timer-quantum timer hz next control =
      let ((t, e, _, _, (es, served, called)), _) =
        register_handler-serve fresh.interrupts 0 timer interrupts-length (omega arith) in
      (t, e, es, served, called)

  -- The set-up in `main` succeeds. Behind it the console is ready for output that goes to the
  -- emulator's port too, the gates 0 to 47 lead to the stubs of the exceptions and of the interrupts,
  -- a division by zero and a page fault call their handlers and the other exceptions abort, and once
  -- the round robin scheduler is made, the timer's interrupt calls its timer.
  pub register_handlers-Operational :
      (dbz pagefault timer : ℕ)
      → (d : Devices) × (register_handlers dbz pagefault (set_up isr irq gdt console) ≡ some d)
        × Operational isr irq dbz pagefault timer d
  unfolding register_handlers
  register_handlers-Operational dbz pagefault timer =
      let ((t, first, len, division, kept), _) =
        register_handler-dispatch_exception fresh.exceptions 0 dbz exceptions-length
          (omega arith) in
      let ((t', second, _, fault, kept'), _) =
        register_handler-dispatch_exception t 14 pagefault len (omega arith) in
      (
        record fresh { exceptions = t' },
        rw (first, second) refl,
        record {
          ready = fresh-Ready;
          exception_gates = exception-Leads;
          interrupt_gates = interrupt-Leads;
          division = kept' 0 (omega arith) ∙ division;
          page_fault = fault;
          others = λ j lt ne ne'. kept' j ne' ∙ kept j ne ∙ fresh-abort j lt;
          quantum = timer-quantum timer;
        },
      )
