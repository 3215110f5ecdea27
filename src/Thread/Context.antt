-- ===== src/Thread/Context.antt =====
-- What the first dispatch of a thread finds on its stack.
use multi_process.Base.{
  ℕ, zero, suc, ◌+◌, ◌-◌, ◌*◌, ◌≤◌, ◌<◌, ◌≡◌, refl, ap, ◌∙◌, true, false, List, [], ◌∷◌, length,
  get_or, ◌==◌, sub32, word, inr, ◌⊎◌, arith,
}
use multi_process.Thread.{Stack, Regs, kernel_cs, kernel_ds, push, pushes, context, setup_context}

-- What pushes leave.
record Pushed (s : Stack) (vals : List ℕ) (s' : Stack) : Type 0 where
  pointer : s'.esp ≡ s.esp - 4 * length vals
  words : (i : ℕ) → i < length vals → s'.memory (s.esp - 4 * suc i) ≡ get_or vals i 0
  kept : (x : ℕ) → (x < s.esp - 4 * length vals) ⊎ (s.esp ≤ x) → s'.memory x ≡ s.memory x

esp-push : (s : Stack) (val n : ℕ) → 4 * suc n ≤ s.esp → s.esp < word → (push s val).esp ≡ s.esp - 4
unfolding push
esp-push s val n room small = ground arith

memory-push :
    (s : Stack) (val x : ℕ)
    → (push s val).esp ≡ s.esp - 4
    → ((push s val).esp == x) ≡ false
    → (push s val).memory x ≡ s.memory x
unfolding push
memory-push s val x down ne = rw ne refl

memory-push_self : (s : Stack) (val : ℕ) → (push s val).memory (push s val).esp ≡ val
unfolding push
memory-push_self s val =
    let same : (sub32 s.esp 4 == sub32 s.esp 4) ≡ true = ground arith in rw same refl

word_at :
    (s : Stack) (val : ℕ) (vals : List ℕ)
    → (push s val).esp ≡ s.esp - 4
    → 4 * suc (length vals) ≤ s.esp
    → Pushed (push s val) vals (pushes (push s val) vals)
    → (i : ℕ) → i < suc (length vals)
    → (pushes (push s val) vals).memory (s.esp - 4 * suc i) ≡ get_or (val ∷ vals) i 0
word_at s val vals down room p zero lt =
    ap (pushes (push s val) vals).memory (omega arith)
    ∙ p.kept (push s val).esp (inr (omega arith))
    ∙ memory-push_self s val
word_at s val vals down room p (suc i) lt =
    ap (pushes (push s val) vals).memory (omega arith) ∙ p.words i (omega arith)

pushes-Pushed :
    (s : Stack) (vals : List ℕ)
    → 4 * length vals ≤ s.esp
    → s.esp < word
    → Pushed s vals (pushes s vals)
unfolding pushes
pushes-Pushed s [] room small = record {
  pointer = omega arith;
  words = λ i lt. elim lt [ ];
  kept = λ x out. refl;
}
pushes-Pushed s (val ∷ vals) room small =
    let down : (push s val).esp ≡ s.esp - 4 = esp-push s val (length vals) room small in
    let p = pushes-Pushed (push s val) vals (omega arith) (omega arith) in
    let at = p.pointer in
    record {
      pointer = omega arith;
      words = λ i lt. word_at s val vals down room p i lt;
      kept = λ x out. p.kept x (ground arith) ∙ memory-push s val x down (ground arith);
    }

-- The register context at an address, in the order of `REGS`.
abbrev pub regs_at : (ℕ → ℕ) → ℕ → Regs
regs_at m a = record {
  gs = m a;
  fs = m (a + 4);
  es = m (a + 8);
  ds = m (a + 12);
  edi = m (a + 16);
  esi = m (a + 20);
  ebp = m (a + 24);
  esp = m (a + 28);
  ebx = m (a + 32);
  edx = m (a + 36);
  ecx = m (a + 40);
  eax = m (a + 44);
  int_no = m (a + 48);
  err_code = m (a + 52);
  eip = m (a + 56);
  cs = m (a + 60);
  eflags = m (a + 64);
}

-- The registers a thread starts with: the flags have interrupts off.
abbrev pub starting : ℕ → Regs
starting thread_start = record {
  gs = 0;
  fs = 0;
  es = kernel_ds;
  ds = kernel_ds;
  edi = 0;
  esi = 0;
  ebp = 0;
  esp = 0;
  ebx = 0;
  edx = 0;
  ecx = 0;
  eax = 0;
  int_no = 0;
  err_code = 0;
  eip = thread_start;
  cs = kernel_cs;
  eflags = 0;
}

regs_at-starting :
    (m : ℕ → ℕ) (shut start f a top : ℕ)
    → a + 80 ≡ top
    → ((i : ℕ) → i < 20 → (x : ℕ) → x ≡ top - 4 * suc i → m x ≡ get_or (context shut start f) i 0)
    → regs_at m a ≡ starting start
unfolding context
regs_at-starting m shut start f a top e word = λ i. record {
  gs = word 19 (omega arith) a (omega arith) i;
  fs = word 18 (omega arith) (a + 4) (omega arith) i;
  es = word 17 (omega arith) (a + 8) (omega arith) i;
  ds = word 16 (omega arith) (a + 12) (omega arith) i;
  edi = word 15 (omega arith) (a + 16) (omega arith) i;
  esi = word 14 (omega arith) (a + 20) (omega arith) i;
  ebp = word 13 (omega arith) (a + 24) (omega arith) i;
  esp = word 12 (omega arith) (a + 28) (omega arith) i;
  ebx = word 11 (omega arith) (a + 32) (omega arith) i;
  edx = word 10 (omega arith) (a + 36) (omega arith) i;
  ecx = word 9 (omega arith) (a + 40) (omega arith) i;
  eax = word 8 (omega arith) (a + 44) (omega arith) i;
  int_no = word 7 (omega arith) (a + 48) (omega arith) i;
  err_code = word 6 (omega arith) (a + 52) (omega arith) i;
  eip = word 5 (omega arith) (a + 56) (omega arith) i;
  cs = word 4 (omega arith) (a + 60) (omega arith) i;
  eflags = word 3 (omega arith) (a + 64) (omega arith) i;
}

-- On a stack of at least 80 bytes that ends at `s.esp`, the context takes the last 80 bytes and
-- nothing else: the stack pointer is at a register context that starts `thread_start` with
-- interrupts off, and behind it are the thread's function, to which `thread_start` returns, the
-- return address of that function, and its argument.
pub setup_context_lem :
    (thread_shutdown thread_start tfunction : ℕ) (s : Stack)
    → 80 ≤ s.esp
    → s.esp < word
    → ((setup_context thread_shutdown thread_start tfunction s).esp ≡ s.esp - 80)
      × (regs_at (setup_context thread_shutdown thread_start tfunction s).memory (s.esp - 80)
          ≡ starting thread_start)
      × ((setup_context thread_shutdown thread_start tfunction s).memory (s.esp - 12) ≡ tfunction)
      × ((setup_context thread_shutdown thread_start tfunction s).memory (s.esp - 8)
          ≡ thread_shutdown)
      × ((setup_context thread_shutdown thread_start tfunction s).memory (s.esp - 4) ≡ 0)
      × ((x : ℕ)
          → (x < s.esp - 80) ⊎ (s.esp ≤ x)
          → (setup_context thread_shutdown thread_start tfunction s).memory x ≡ s.memory x)
unfolding setup_context context
setup_context_lem shut start f s room small =
    let vals = context shut start f in
    let p = pushes-Pushed s vals room small in
    let m = (pushes s vals).memory in
    let w : (i : ℕ) → i < 20 → (a : ℕ) → a ≡ s.esp - 4 * suc i → m a ≡ get_or vals i 0 =
      λ i lt a e. ap m e ∙ p.words i lt in
    (
      p.pointer,
      regs_at-starting m shut start f (s.esp - 80) s.esp (omega arith) w,
      p.words 2 (omega arith),
      p.words 1 (omega arith),
      p.words 0 (omega arith),
      p.kept,
    )
