-- ===== src/Kernel/SetUp.antt =====
-- The first part of main in kernel.C: the tables of the processor, the console, the interrupt
-- controllers, and the handlers of exceptions.
use multi_process.Base.{ℕ, true, List, Option, some}
use multi_process.Scheduler.{◌>>=◌}
use multi_process.Gdt
use multi_process.Gdt.{Gdt}
use multi_process.Idt
use multi_process.Idt.{Idt}
use multi_process.Console
use multi_process.Console.{Console}
use multi_process.Console.Color.{color_code, white, black}
use multi_process.Exceptions
use multi_process.Interrupts
use multi_process.Irq

-- What main has set up: `ports` are the writes to the interrupt controllers.
pub record Devices : Type 0 where
  pub gdt : Gdt
  pub console : Console
  pub idt : Idt
  pub exceptions : Exceptions.HandlerTable
  pub interrupts : Interrupts.HandlerTable
  pub ports : List (ℕ × ℕ)

-- The calls up to `output_redirection(true)`. `isr` and `irq` are the addresses of the assembly
-- stubs, the other arguments the state before; the colors are the defaults, white on black.
unfoldable pub set_up : (ℕ → ℕ) → (ℕ → ℕ) → Gdt → Console → Devices
set_up isr irq gdt console =
    let (idt1, exceptions) = Exceptions.init_dispatcher isr Idt.init in
    let (idt2, interrupts) = Interrupts.init_dispatcher irq idt1 in
    record {
      gdt = Gdt.init gdt;
      console =
          Console.output_redirection true
            (Console.init (color_code white) (color_code black) console);
      idt = idt2;
      exceptions = exceptions;
      interrupts = interrupts;
      ports = Irq.init;
    }

-- The handlers of exceptions, by the addresses of their objects. `none` is a failed assertion.
unfoldable pub register_handlers : ℕ → ℕ → Devices → Option Devices
register_handlers dbz_handler pagefault_handler d =
    Exceptions.register_handler d.exceptions 0 dbz_handler >>= λ t.
    Exceptions.register_handler t 14 pagefault_handler >>= λ t'. some (record d { exceptions = t' })
