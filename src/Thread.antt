-- ===== src/Thread.antt =====
-- The start of a thread in thread.C: the stack that its first dispatch takes it from. The memory
-- holds words of 32 bits, by address.
pub mod Context
pub mod Life
pub mod Lifetime
pub mod Switch
pub mod InForce
pub mod End
mod Tests
use multi_process.Base.{ℕ, ◌+◌, List, [], ◌∷◌, ◌==◌, if◌then◌else◌, update, add32, sub32}

-- The stack pointer and the memory.
pub record Stack : Type 0 where
  pub esp : ℕ
  pub memory : ℕ → ℕ

-- `REGS`, without the two words that an exception in user mode has in addition.
pub record Regs : Type 0 where
  pub gs : ℕ
  pub fs : ℕ
  pub es : ℕ
  pub ds : ℕ
  pub edi : ℕ
  pub esi : ℕ
  pub ebp : ℕ
  pub esp : ℕ
  pub ebx : ℕ
  pub edx : ℕ
  pub ecx : ℕ
  pub eax : ℕ
  pub int_no : ℕ
  pub err_code : ℕ
  pub eip : ℕ
  pub cs : ℕ
  pub eflags : ℕ

abbrev pub kernel_ds : ℕ
kernel_ds = 0x10

abbrev pub kernel_cs : ℕ
kernel_cs = 0x08

unfoldable pub push : Stack → ℕ → Stack
push s val = let esp = sub32 s.esp 4 in record { esp = esp; memory = update s.memory esp val }

-- Pushes in the order of the list.
unfoldable pub pushes : Stack → List ℕ → Stack
unfolding push
pushes s [] = s
pushes s (val ∷ vals) = pushes (push s val) vals

-- The words that `setup_context` pushes, in its order: the argument, the return address of the
-- thread's function, and that function; the flags, code segment and instruction pointer; the error
-- code and the interrupt number; eax, ecx, edx, ebx, esp, ebp, esi, edi; ds, es, fs, gs.
unfoldable pub context : ℕ → ℕ → ℕ → List ℕ
context thread_shutdown thread_start tfunction =
    0 ∷ thread_shutdown ∷ tfunction ∷ 0 ∷ kernel_cs ∷ thread_start ∷ 0 ∷ 0 ∷ 0 ∷ 0 ∷ 0 ∷ 0 ∷ 0 ∷ 0
    ∷ 0 ∷ 0 ∷ kernel_ds ∷ kernel_ds ∷ 0 ∷ 0 ∷ []

unfoldable pub setup_context : ℕ → ℕ → ℕ → Stack → Stack
unfolding pushes context
setup_context thread_shutdown thread_start tfunction s =
    pushes s (context thread_shutdown thread_start tfunction)

-- The part of a constructor behind the allocation of the stack: the id from the counter, and the
-- stack. The result is the counter, the id and the stack.
unfoldable pub initialize : ℕ → ℕ → ℕ → ℕ → ℕ → (ℕ → ℕ) → ℕ → ℕ × (ℕ × Stack)
unfolding setup_context
initialize thread_shutdown thread_start tfunction stack stack_size memory next_free_pid = (
  next_free_pid + 1,
  (
    next_free_pid,
    setup_context thread_shutdown thread_start tfunction
        (record { esp = add32 stack stack_size; memory = memory }),
  ),
)
