-- ===== src/Console/Puts.antt =====
-- Strings on the screen.
use multi_process.Base.{
  ℕ, zero, suc, ◌+◌, ◌*◌, ◌%◌, ◌^◌, ◌≤◌, ◌<◌, ◌≡◌, refl, ap, ◌∙◌, List, [], ◌∷◌, length, get_or,
  inl, ◌⊎◌, arith,
}
use multi_process.Console.{Console, putch, puts}
use multi_process.Console.Screen.{OnScreen}
use multi_process.Console.Putch.{place, Printed, putch-Printed}

abbrev pub Printable : List ℕ → Type 0
Printable s = (i : ℕ) → i < length s → (32 ≤ get_or s i 32) × (get_or s i 32 < 128)

-- What a string does.
pub record Written (c : Console) (s : List ℕ) (c' : Console) : Type 0 where
  pub on : OnScreen c'
  pub moved : place c' ≡ place c + length s
  pub cells :
      (i : ℕ) → i < length s → c'.text (place c + i) ≡ (get_or s i 32 + c.attrib * 2 ^ 8) % 2 ^ 16
  pub kept : (i : ℕ) → (i < place c) ⊎ (place c + length s ≤ i) → c'.text i ≡ c.text i

-- A string of printable characters that ends before the last place of the screen stands there from
-- the place of the cursor on, across the ends of rows, and the cursor is behind it; every other
-- cell is as it was.
puts-Written :
    (c : Console) (s : List ℕ)
    → OnScreen c
    → Printable s
    → place c + length s < 2000
    → Written c s (puts c s)
unfolding puts
puts-Written c [] on print room = record {
  on = on;
  moved = omega arith;
  cells = λ i lt. elim lt [ ];
  kept = λ i out. refl;
}
puts-Written c (ch ∷ s) on print room =
    let (low, high) = print 0 (omega arith) in
    let p = putch-Printed c ch on low high (omega arith) in
    let c' = putch c ch in
    let moved = p.moved in
    let w = puts-Written c' s p.on (λ i lt. print (suc i) (omega arith)) (omega arith) in
    let moved' = w.moved in
    record {
      on = w.on;
      moved = omega arith;
      cells = λ i lt. cell c ch s p w i lt;
      kept = λ i out. w.kept i (ground arith) ∙ p.kept i (λ e. ground arith);
    }
  where
    cell :
        (c : Console) (ch : ℕ) (s : List ℕ)
        → Printed c ch (putch c ch)
        → Written (putch c ch) s (puts (putch c ch) s)
        → (i : ℕ) → i < suc (length s)
        → (puts (putch c ch) s).text (place c + i)
          ≡ (get_or (ch ∷ s) i 32 + c.attrib * 2 ^ 8) % 2 ^ 16
    cell c ch s p w zero lt =
        let moved = p.moved in
        ap (puts (putch c ch) s).text (omega arith) ∙ w.kept (place c) (inl (omega arith)) ∙ p.cell
    cell c ch s p w (suc i) lt =
        let moved = p.moved in
        ap (puts (putch c ch) s).text (omega arith)
        ∙ w.cells i (omega arith)
        ∙ ap (λ a. (get_or s i 32 + a * 2 ^ 8) % 2 ^ 16) p.color
