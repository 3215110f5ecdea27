-- ===== src/Keyboard.antt =====
-- The keyboard of simple_keyboard.C. What the ports answer is
-- a parameter.
pub mod Keys
mod Tests
use multi_process.Base.{
  ℕ, zero, suc, ◌+◌, ◌%◌, ◌^◌, Bool, true, false, List, [], ◌∷◌, Option, ltb, ◌==◌, if◌then◌else◌,
}
use multi_process.Interrupts.{HandlerTable, register_handler}

-- `class SimpleKeyboard`
pub record Keyboard : Type 0 where
  pub key_pressed : Bool
  pub key_code : ℕ

-- `handle_interrupt`, for the bytes at the status and the data port. A byte of 128 or more is
-- negative as a `char`: the key was let go.
unfoldable pub key_interrupt : ℕ → ℕ → Keyboard → Keyboard
key_interrupt status kc kb =
    if status % 2 == 1
    then (if ltb kc 128 then record { key_pressed = true; key_code = kc } else kb)
    else kb

-- `read` and `wait` clear the flag and loop until it is set; these are the interrupts that arrive
-- meanwhile, as pairs of status and data. The result is the keyboard at the end of the loop and the
-- interrupts left over; it is the last keyboard where none of them sets the flag.
unfoldable pub await : List (ℕ × ℕ) → Keyboard → Keyboard × List (ℕ × ℕ)
unfolding key_interrupt
await [] kb = (kb, [])
await ((status, kc) ∷ rest) kb =
    let next = await rest (key_interrupt status kc kb) in
    if kb.key_pressed then (kb, (status, kc) ∷ rest) else next

unfoldable pub read : List (ℕ × ℕ) → Keyboard → ℕ × List (ℕ × ℕ)
unfolding await
read arriving kb =
    let (kb', rest) = await arriving (record { key_pressed = false; key_code = kb.key_code }) in
    (kb'.key_code, rest)

-- `init`; `kb` is the address of the only object.
unfoldable pub init : HandlerTable → ℕ → Option HandlerTable
init table kb = register_handler table 1 kb
