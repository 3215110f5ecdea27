-- ===== src/Console/Putch.antt =====
-- Characters on the screen.
use multi_process.Base.{
  ℕ, ◌+◌, ◌*◌, ◌%◌, ◌^◌, ◌≤◌, ◌<◌, ◌≡◌, ◌≢◌, refl, ◌∙◌, true, false, ◌&&◌, ltb, leb, ◌==◌,
  Bool-cases, inl, inr, ◌⊎◌, arith,
}
use multi_process.Console.{Console, with_cursor, with_text, echo, scroll, put_at, wrap, putch}
use multi_process.Console.Screen.{OnScreen, scroll_lem}

-- Between the character and the wrap, the cursor may stand one past the edge.
record Edge (c c' : Console) : Type 0 where
  column : c'.csr_x ≤ 80
  row : c'.csr_y ≤ 25
  corner : (c'.csr_x < 80) ⊎ (c'.csr_y < 25)
  beyond : (i : ℕ) → 2000 ≤ i → c'.text i ≡ c.text i

put_at-Edge : (c : Console) (ch : ℕ) → OnScreen c → Edge c (put_at c ch)
unfolding put_at with_cursor with_text echo
put_at-Edge c ch on =
    let x = on.column in
    let y = on.row in
    elim (Bool-cases (ch == 0x08)) [
      | inl bs ↦ elim (Bool-cases (c.csr_x == 0)) [
        | inl left ↦
            rw (bs, left)
              (record {
                column = omega arith;
                row = omega arith;
                corner = inl x;
                beyond = λ i le. refl;
              })
        | inr inside ↦
            rw (bs, inside)
              (record {
                column = omega arith;
                row = omega arith;
                corner = inr y;
                beyond = λ i le. refl;
              })
      ]
      | inr bs ↦ elim (Bool-cases (ch == 0x09)) [
        | inl tab ↦
            rw (bs, tab)
              (record {
                column = omega arith;
                row = omega arith;
                corner = inr y;
                beyond = λ i le. refl;
              })
        | inr tab ↦ elim (Bool-cases (ch == 0x0d)) [
          | inl cr ↦
              rw (bs, tab, cr)
                (record {
                  column = omega arith;
                  row = omega arith;
                  corner = inr y;
                  beyond = λ i le. refl;
                })
          | inr cr ↦ elim (Bool-cases (ch == 0x0a)) [
            | inl nl ↦
                rw (bs, tab, cr, nl)
                  (record {
                    column = omega arith;
                    row = omega arith;
                    corner = inl (omega arith);
                    beyond = λ i le. refl;
                  })
            | inr nl ↦ elim (Bool-cases (leb 0x20 ch && ltb ch 0x80)) [
              | inl print ↦
                  rw (bs, tab, cr, nl, print)
                    (record {
                      column = omega arith;
                      row = omega arith;
                      corner = inr y;
                      beyond = λ i le.
                          let far : (c.csr_y * 80 + c.csr_x == i) ≡ false = ground arith in
                          rw far refl;
                    })
              | inr print ↦
                  rw (bs, tab, cr, nl, print)
                    (record {
                      column = omega arith;
                      row = omega arith;
                      corner = inr y;
                      beyond = λ i le. refl;
                    })
            ]
          ]
        ]
      ]
    ]

-- After the wrap, the cursor may stand one below the last row.
record Bottom (c c' : Console) : Type 0 where
  column : c'.csr_x < 80
  row : c'.csr_y ≤ 25
  beyond : (i : ℕ) → 2000 ≤ i → c'.text i ≡ c.text i

wrap-Bottom : (c c' : Console) → Edge c c' → Bottom c (wrap c')
unfolding wrap with_cursor
wrap-Bottom c c' e =
    let x = e.column in
    let y = e.row in
    elim (Bool-cases (leb 80 c'.csr_x)) [
      | inl edge ↦ rw edge (record {
        column = omega arith;
        row = elim e.corner [ inl lt ↦ ground arith | inr lt ↦ omega arith ];
        beyond = e.beyond;
      })
      | inr inside ↦ rw inside (record { column = ground arith; row = y; beyond = e.beyond })
    ]

-- Whatever the character, the cursor is on the screen behind it, and no cell behind the 25 rows of
-- 80 is written.
pub putch-OnScreen :
    (c : Console) (ch : ℕ)
    → OnScreen c
    → OnScreen (putch c ch) × ((i : ℕ) → 25 * 80 ≤ i → (putch c ch).text i ≡ c.text i)
unfolding putch
putch-OnScreen c ch on =
    let c' = wrap (put_at c ch) in
    let b = wrap-Bottom c (put_at c ch) (put_at-Edge c ch on) in
    let x = b.column in
    elim (scroll_lem c' b.row) [
      | inl (same, lt) ↦ rw same (record { column = x; row = lt }, b.beyond)
      | inr (last, row, column, up, clear, beyond) ↦ (
        record { column = rw column x; row = rw row (omega arith) },
        λ i le. beyond i le ∙ b.beyond i le,
      )
    ]

-- The place of the cursor in the text memory.
abbrev pub place : Console → ℕ
place c = c.csr_y * 80 + c.csr_x

-- What a printed character does before the end of the screen.
pub record Printed (c : Console) (ch : ℕ) (c' : Console) : Type 0 where
  pub on : OnScreen c'
  pub moved : place c' ≡ place c + 1
  pub cell : c'.text (place c) ≡ (ch + c.attrib * 2 ^ 8) % 2 ^ 16
  pub kept : (i : ℕ) → place c ≢ i → c'.text i ≡ c.text i
  pub color : c'.attrib ≡ c.attrib

-- A printable character in any place but the last of the screen is stored there in the current
-- color, the cursor moves on by one place, and every other cell is as it was.
pub putch-Printed :
    (c : Console) (ch : ℕ)
    → OnScreen c
    → 32 ≤ ch
    → ch < 128
    → place c + 1 < 2000
    → Printed c ch (putch c ch)
unfolding putch put_at wrap scroll with_cursor with_text echo
putch-Printed c ch on low high room =
    let x = on.column in
    let y = on.row in
    let bs : (ch == 0x08) ≡ false = ground arith in
    let tab : (ch == 0x09) ≡ false = ground arith in
    let cr : (ch == 0x0d) ≡ false = ground arith in
    let nl : (ch == 0x0a) ≡ false = ground arith in
    let lo : leb 0x20 ch ≡ true = ground arith in
    let hi : ltb ch 0x80 ≡ true = ground arith in
    let here : (place c == place c) ≡ true = ground arith in
    elim (Bool-cases (leb 80 (c.csr_x + 1))) [
      | inl edge ↦
          let up : leb 25 (c.csr_y + 1) ≡ false = ground arith in
          rw (bs, tab, cr, nl, lo, hi, edge, up)
            (record {
              on = record { column = omega arith; row = ground arith };
              moved = ground arith;
              cell = rw here refl;
              kept = λ i ne. let no : (place c == i) ≡ false = ground arith in rw no refl;
              color = refl;
            })
      | inr inside ↦
          let up : leb 25 c.csr_y ≡ false = ground arith in
          rw (bs, tab, cr, nl, lo, hi, inside, up)
            (record {
              on = record { column = ground arith; row = y };
              moved = omega arith;
              cell = rw here refl;
              kept = λ i ne. let no : (place c == i) ≡ false = ground arith in rw no refl;
              color = refl;
            })
    ]
