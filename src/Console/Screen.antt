-- ===== src/Console/Screen.antt =====
-- The cursor stays on the screen, and nothing outside the screen is written.
use multi_process.Base.{
  ℕ, zero, suc, ◌+◌, ◌*◌, ◌≤◌, ◌<◌, ◌≡◌, refl, ap, ◌∙◌, false, leb, ◌==◌, Bool-cases, inl, inr, ◌⊎◌,
  arith,
}
use multi_process.Console.{Console, memsetw, memcpy, blank, with_cursor, with_text, scroll}

-- The cursor is on the screen.
pub record OnScreen (c : Console) : Type 0 where
  pub column : c.csr_x < 80
  pub row : c.csr_y < 25

memsetw-outside :
    (text : ℕ → ℕ) (at val n i : ℕ) → (i < at) ⊎ (at + n ≤ i) → memsetw text at val n i ≡ text i
unfolding memsetw
memsetw-outside text at val zero i out = refl
memsetw-outside text at val (suc n) i out =
    let no : (at + n == i) ≡ false = ground arith in
    rw no (memsetw-outside text at val n i (ground arith))

memsetw-inside :
    (text : ℕ → ℕ) (at val n i : ℕ) → at ≤ i → i < at + n → memsetw text at val n i ≡ val
unfolding memsetw
memsetw-inside text at val zero i le lt = absurd (omega arith)
memsetw-inside text at val (suc n) i le lt = elim (Bool-cases (at + n == i)) [
  | inl same ↦ rw same refl
  | inr other ↦ rw other (memsetw-inside text at val n i le (ground arith))
]

memcpy-outside : (text : ℕ → ℕ) (from n i : ℕ) → n ≤ i → memcpy text from n i ≡ text i
unfolding memcpy
memcpy-outside text from zero i le = refl
memcpy-outside text from (suc n) i le =
    let no : (n == i) ≡ false = ground arith in rw no (memcpy-outside text from n i (omega arith))

memcpy-inside : (text : ℕ → ℕ) (from n i : ℕ) → i < n → memcpy text from n i ≡ text (from + i)
unfolding memcpy
memcpy-inside text from zero i lt = elim lt [ ]
memcpy-inside text from (suc n) i lt = elim (Bool-cases (n == i)) [
  | inl same ↦
      let e : n ≡ i = ground arith in
      rw same (memcpy-outside text from n (from + n) (omega arith) ∙ ap (λ k. text (from + k)) e)
  | inr other ↦ rw other (memcpy-inside text from n i (ground arith))
]

-- One row past the last, the text moves up by a row, the last row is blank, and the cursor is on
-- it. Above that nothing happens.
pub scroll_lem :
    (c : Console)
    → c.csr_y ≤ 25
    → ((scroll c ≡ c) × (c.csr_y < 25))
      ⊎ ((c.csr_y ≡ 25)
          × ((scroll c).csr_y ≡ 24)
          × ((scroll c).csr_x ≡ c.csr_x)
          × ((i : ℕ) → i < 24 * 80 → (scroll c).text i ≡ c.text (i + 80))
          × ((i : ℕ) → 24 * 80 ≤ i → i < 25 * 80 → (scroll c).text i ≡ blank c.attrib)
          × ((i : ℕ) → 25 * 80 ≤ i → (scroll c).text i ≡ c.text i))
unfolding scroll with_cursor with_text
scroll_lem c le = elim (Bool-cases (leb 25 c.csr_y)) [
  | inr above ↦ inl (rw above refl, ground arith)
  | inl last ↦
      let y : c.csr_y ≡ 25 = ground arith in
      let moved = memcpy c.text 80 1920 in
      inr (
        y,
        rw last refl,
        rw last refl,
        λ i lt.
            rw (last, y)
              (memsetw-outside moved 1920 (blank c.attrib) 80 i (inl lt)
                ∙ memcpy-inside c.text 80 1920 i lt
                ∙ ap c.text (omega arith)),
        λ i ge lt. rw (last, y) (memsetw-inside moved 1920 (blank c.attrib) 80 i ge lt),
        λ i ge.
            rw (last, y)
              (memsetw-outside moved 1920 (blank c.attrib) 80 i (inr ge)
                ∙ memcpy-outside c.text 80 1920 i (omega arith)),
      )
]
