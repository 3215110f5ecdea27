-- ===== src/Keyboard/Keys.antt =====
-- What `read` returns.
use multi_process.Base.{
  ap, ◌∙◌, ℕ, ◌%◌, ◌<◌, ◌≤◌, ◌≡◌, refl, true, false, List, [], ◌∷◌, ◌++◌, ltb, ◌==◌, ◌⊎◌,
  Bool-cases, inl, inr, arith,
}
use multi_process.Keyboard.{Keyboard, key_interrupt, await, read}

-- The interrupts bring no key: the buffer is empty, or a key is let go.
pub data NoKey : List (ℕ × ℕ) → Type 0 where
  none_left : NoKey []
  ignored :
      {status kc : ℕ} {rest : List (ℕ × ℕ)}
      → (status % 2 ≡ 0) ⊎ (128 ≤ kc)
      → NoKey rest
      → NoKey ((status, kc) ∷ rest)

-- An interrupt without a key changes nothing.
key_interrupt-NoKey :
    (status byte : ℕ) (kb : Keyboard)
    → (status % 2 ≡ 0) ⊎ (128 ≤ byte)
    → key_interrupt status byte kb ≡ kb
unfolding key_interrupt
key_interrupt-NoKey status byte kb (inl even) =
    let e : (status % 2 == 1) ≡ false = ground arith in rw e refl
key_interrupt-NoKey status byte kb (inr up) =
    let e : ltb byte 128 ≡ false = ground arith in
    elim (Bool-cases (status % 2 == 1)) [ inl one ↦ rw (one, e) refl | inr other ↦ rw other refl ]

await_pressed :
    (rest : List (ℕ × ℕ)) (kb : Keyboard) → kb.key_pressed ≡ true → await rest kb ≡ (kb, rest)
unfolding await
await_pressed [] kb on = refl
await_pressed ((status, byte) ∷ rest) kb on = rw on refl

await_next :
    (status byte : ℕ) (rest : List (ℕ × ℕ)) (kb : Keyboard)
    → kb.key_pressed ≡ false
    → await ((status, byte) ∷ rest) kb ≡ await rest (key_interrupt status byte kb)
unfolding await
await_next status byte rest kb off = rw off refl

await_lem :
    (noise : List (ℕ × ℕ)) (status key : ℕ) (rest : List (ℕ × ℕ)) (kb : Keyboard)
    → NoKey noise
    → status % 2 ≡ 1
    → key < 128
    → kb.key_pressed ≡ false
    → await (noise ++ ((status, key) ∷ rest)) kb
      ≡ (record { key_pressed = true; key_code = key }, rest)
unfolding await key_interrupt
await_lem [] status key rest kb n odd low off =
    let full : (status % 2 == 1) ≡ true = ground arith in
    let down : ltb key 128 ≡ true = ground arith in
    rw (off, full, down) (await_pressed rest (record { key_pressed = true; key_code = key }) refl)
await_lem ((st, byte) ∷ noise) status key rest kb (ignored idle n) odd low off =
    await_next st byte (noise ++ ((status, key) ∷ rest)) kb off
    ∙ ap (await (noise ++ ((status, key) ∷ rest))) (key_interrupt-NoKey st byte kb idle)
    ∙ await_lem noise status key rest kb n odd low off

-- However many interrupts without a key come first, `read` ends at the first key that is pressed,
-- returns its code, and leaves the later interrupts.
read_lem :
    (noise : List (ℕ × ℕ)) (status key : ℕ) (rest : List (ℕ × ℕ)) (kb : Keyboard)
    → NoKey noise
    → status % 2 ≡ 1
    → key < 128
    → read (noise ++ ((status, key) ∷ rest)) kb ≡ (key, rest)
unfolding read
read_lem noise status key rest kb n odd low =
    rw
      (await_lem noise status key rest (record { key_pressed = false; key_code = kb.key_code }) n
        odd low refl)
      refl
