-- ===== src/Interrupts/Dispatch.antt =====
-- Each interrupt is acknowledged once, and goes to the handler that is registered for it.
use multi_process.Base.{
  get_or-replicate, ◌∙◌, get_or-set_self, get_or-set_other, length-set, ℕ, ◌+◌, ◌-◌, ◌≤◌, ◌<◌, ◌≡◌,
  ◌≢◌, refl, true, false, List, [], ◌∷◌, Option, none, some, ltb, ◌==◌, if◌then◌else◌, sub32, set,
  get_or, arith, length, word, Bool-cases, inl, inr, ◌⊎◌, inr, inl,
}
use mathlib.Core.Path.{subst}
use multi_process.Idt.{Idt}
use multi_process.Idt.Gates
use multi_process.Interrupts.{
  init_dispatcher, serve, Event, outportb, handle_interrupt, no_handler, HandlerTable, irq_base,
  irq_table_size, dispatch_interrupt, register_handler, deregister_handler,
}

-- How often a port is written in a list of events.
abbrev pub writes : ℕ → List Event → ℕ
writes port [] = 0
writes port (outportb p v ∷ es) = (if p == port then 1 else 0) + writes port es
writes port (handle_interrupt h ∷ es) = writes port es
writes port (no_handler n ∷ es) = writes port es

-- The handlers called in a list of events, in order.
abbrev pub handlers : List Event → List ℕ
handlers [] = []
handlers (outportb p v ∷ es) = handlers es
handlers (handle_interrupt h ∷ es) = h ∷ handlers es
handlers (no_handler n ∷ es) = handlers es

abbrev pub registered : Option ℕ → List ℕ
registered none = []
registered (some h) = h ∷ []

-- What serving IRQ `n` does when `o` is its handler.
pub record Served (o : Option ℕ) (n : ℕ) (es : List Event) : Type 0 where
  pub master : writes 0x20 es ≡ 1
  pub slave : writes 0xa0 es ≡ (if ltb 7 n then 1 else 0)
  pub called : handlers es ≡ registered o

serve-Served : (o : Option ℕ) (n : ℕ) → Served o n (serve o n)
unfolding serve
serve-Served none n = elim (Bool-cases (ltb 7 n)) [
  | inl hi ↦ rw hi (record { master = refl; slave = rw hi refl; called = refl })
  | inr lo ↦ rw lo (record { master = refl; slave = rw lo refl; called = refl })
]
serve-Served (some h) n = elim (Bool-cases (n == 0)) [
  | inl timer ↦
      let lo : ltb 7 n ≡ false = ground arith in
      rw timer (record { master = refl; slave = rw lo refl; called = refl })
  | inr other ↦ elim (Bool-cases (ltb 7 n)) [
    | inl hi ↦ rw (other, hi) (record { master = refl; slave = rw hi refl; called = refl })
    | inr lo ↦ rw (other, lo) (record { master = refl; slave = rw lo refl; called = refl })
  ]
]

-- An interrupt of the range that the dispatcher serves is acknowledged exactly once to the master
-- controller, to the slave exactly if it came from there, and calls exactly the handler registered
-- for it, if any. Any other number fails the assertion.
dispatch_interrupt_lem :
    (table : HandlerTable) (frame_int_no : ℕ)
    → frame_int_no < word
    → ((es : List Event) × (dispatch_interrupt table frame_int_no ≡ some es)
        × (irq_base ≤ frame_int_no)
        × Served (get_or table (frame_int_no - irq_base) none) (frame_int_no - irq_base) es)
      ⊎ ((dispatch_interrupt table frame_int_no ≡ none)
          × ((frame_int_no < irq_base) ⊎ (irq_base + irq_table_size ≤ frame_int_no)))
unfolding dispatch_interrupt
dispatch_interrupt_lem table r small = elim (Bool-cases (ltb (sub32 r irq_base) irq_table_size)) [
  | inr out ↦ inr (rw out refl, ground arith)
  | inl ok ↦
      let at : sub32 r irq_base ≡ r - irq_base = ground arith in
      inl (
        serve (get_or table (sub32 r irq_base) none) (sub32 r irq_base),
        rw ok refl,
        ground arith,
        subst
            (λ n.
              Served (get_or table n none) n
                (serve (get_or table (sub32 r irq_base) none) (sub32 r irq_base)))
            at (serve-Served (get_or table (sub32 r irq_base) none) (sub32 r irq_base)),
      )
]

-- A handler that was registered for an IRQ of the range is what the next interrupt of that IRQ
-- calls, and the handlers of the other IRQs stay. Once deregistered, nothing is called.
pub register_handler-serve :
    (table : HandlerTable) (irq_code handler : ℕ)
    → length table ≡ irq_table_size
    → irq_code < irq_table_size
    → ((table' : HandlerTable) × (register_handler table irq_code handler ≡ some table')
        × (length table' ≡ irq_table_size)
        × ((j : ℕ) → irq_code ≢ j → get_or table' j none ≡ get_or table j none)
        × ((es : List Event) × (dispatch_interrupt table' (irq_base + irq_code) ≡ some es)
            × (handlers es ≡ handler ∷ [])))
      × ((table' : HandlerTable) × (deregister_handler table irq_code ≡ some table')
          × ((es : List Event) × (dispatch_interrupt table' (irq_base + irq_code) ≡ some es)
              × (handlers es ≡ [])))
unfolding register_handler deregister_handler dispatch_interrupt
register_handler-serve table n h full lt =
    let ok : ltb n irq_table_size ≡ true = ground arith in
    let at : sub32 (irq_base + n) irq_base ≡ n = ground arith in
    let on = get_or-set_self table n (some h) none (rw full lt) in
    let off = get_or-set_self table n none none (rw full lt) in
    (
      (
        set table n (some h),
        rw ok refl,
        length-set table n (some h) ∙ full,
        λ j ne. get_or-set_other table n j (some h) none ne,
        (serve (some h) n, rw (at, ok, on) refl, (serve-Served (some h) n).called),
      ),
      (
        set table n none,
        rw ok refl,
        (serve none n, rw (at, ok, off) refl, (serve-Served none n).called),
      ),
    )

-- After the initialization, the gates 32 to 47 lead to the stubs of the 16 IRQs, the other gates
-- are as they were, and no IRQ has a handler.
pub init_dispatcher_lem :
    (irq : ℕ → ℕ) (idt : Idt)
    → ((i : ℕ) → irq i < word)
    → ((i : ℕ) → i < 16 → Gates.Leads ((init_dispatcher irq idt).0 (32 + i)) (irq i))
      × ((k : ℕ) → (k < 32) ⊎ (48 ≤ k) → (init_dispatcher irq idt).0 k ≡ idt k)
      × ((i : ℕ) → get_or (init_dispatcher irq idt).1 i none ≡ none)
unfolding init_dispatcher
init_dispatcher_lem irq idt small =
    let (inside, outside) =
      Gates.set_gates_lem irq irq_base irq_table_size idt (omega arith) small in
    (inside, outside, λ i. get_or-replicate irq_table_size i none)
