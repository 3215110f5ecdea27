-- ===== src/Console.antt =====
-- The text console of console.C. The screen is addressed by cells of 16 bits from the start of the
-- text memory. The commands to the VGA controller, which move no cursor, are left out.
pub mod Color
pub mod Screen
pub mod Putch
pub mod Puts
pub mod Format
pub mod Print
pub mod Echo
pub mod Numbers
mod Tests
use multi_process.Base.{
  ℕ, zero, suc, ◌+◌, ◌-◌, ◌*◌, ◌/◌, ◌%◌, ◌^◌, Bool, true, false, ◌&&◌, List, [], ◌∷◌, ltb, leb,
  ◌==◌, if◌then◌else◌, update,
}

-- The static fields of `class Console`; `out` has the characters written to port 0xe9, the latest
-- first.
pub record Console : Type 0 where
  pub attrib : ℕ
  pub csr_x : ℕ
  pub csr_y : ℕ
  pub text : ℕ → ℕ
  pub redirect_output : Bool
  pub out : List ℕ

-- `memsetw` on the cells from `at` on.
unfoldable pub memsetw : (ℕ → ℕ) → ℕ → ℕ → ℕ → ℕ → ℕ
memsetw text at val zero = text
memsetw text at val (suc n) = update (memsetw text at val n) (at + n) val

-- `memcpy` to the first `n` cells from the cells that start at `from`, upwards.
unfoldable pub memcpy : (ℕ → ℕ) → ℕ → ℕ → ℕ → ℕ
memcpy text from zero = text
memcpy text from (suc n) = let text' = memcpy text from n in update text' n (text' (from + n))

-- A blank as stored in a cell: `0x20 | (attrib << 8)`, cut to 16 bits.
unfoldable pub blank : ℕ → ℕ
blank attrib = (0x20 + attrib * 2 ^ 8) % 2 ^ 16

unfoldable pub with_cursor : Console → ℕ → ℕ → Console
with_cursor c x y = record {
  attrib = c.attrib;
  csr_x = x;
  csr_y = y;
  text = c.text;
  redirect_output = c.redirect_output;
  out = c.out;
}

unfoldable pub with_text : Console → (ℕ → ℕ) → Console
with_text c text = record {
  attrib = c.attrib;
  csr_x = c.csr_x;
  csr_y = c.csr_y;
  text = text;
  redirect_output = c.redirect_output;
  out = c.out;
}

-- The copy to port 0xe9.
unfoldable pub echo : Console → ℕ → Console
echo c ch = record {
  attrib = c.attrib;
  csr_x = c.csr_x;
  csr_y = c.csr_y;
  text = c.text;
  redirect_output = c.redirect_output;
  out = if c.redirect_output then ch ∷ c.out else c.out;
}

unfoldable pub scroll : Console → Console
unfolding memcpy memsetw blank with_text with_cursor
scroll c =
    if leb 25 c.csr_y
    then (let temp = c.csr_y - 25 + 1 in
        let moved = memcpy c.text (temp * 80) ((25 - temp) * 80) in
        with_cursor (with_text c (memsetw moved ((25 - temp) * 80) (blank c.attrib) 80)) c.csr_x 24)
    else c

-- The rows that `cls` blanks, the `n` first.
unfoldable pub blank_rows : (ℕ → ℕ) → ℕ → ℕ → ℕ → ℕ
unfolding memsetw
blank_rows text val zero = text
blank_rows text val (suc n) = memsetw (blank_rows text val n) (n * 80) val 80

unfoldable pub cls : Console → Console
unfolding blank_rows blank with_text with_cursor
cls c = with_cursor (with_text c (blank_rows c.text (blank c.attrib) 25)) 0 0

-- What `putch` does for the character, before the margin and the scrolling. A character of 128 or
-- more is negative as a `char`, hence below a space. `& ~(8 - 1)` clears three bits.
unfoldable pub put_at : Console → ℕ → Console
unfolding with_cursor with_text echo
put_at c ch =
    if ch == 0x08
    then (if c.csr_x == 0 then c else with_cursor c (c.csr_x - 1) c.csr_y)
    else if ch == 0x09
    then with_cursor c ((c.csr_x + 8) / 8 * 8) c.csr_y
    else if ch == 0x0d
    then echo (with_cursor c 0 c.csr_y) ch
    else if ch == 0x0a
    then echo (with_cursor c 0 (c.csr_y + 1)) ch
    else if leb 0x20 ch && ltb ch 0x80
    then echo
        (with_cursor
          (with_text c (update c.text (c.csr_y * 80 + c.csr_x) ((ch + c.attrib * 2 ^ 8) % 2 ^ 16)))
          (c.csr_x + 1) c.csr_y)
        ch
    else c

-- The new line at the margin.
unfoldable pub wrap : Console → Console
unfolding with_cursor
wrap c = if leb 80 c.csr_x then with_cursor c 0 (c.csr_y + 1) else c

unfoldable pub putch : Console → ℕ → Console
unfolding put_at wrap scroll
putch c ch = scroll (wrap (put_at c ch))

-- The string is the list of its characters, without the 0 at its end.
unfoldable pub puts : Console → List ℕ → Console
unfolding putch
puts c [] = c
puts c (ch ∷ s) = puts (putch c ch) s

-- The upper bits are the background; the operands of `|` have no bit in common.
unfoldable pub set_text_color : ℕ → ℕ → Console → Console
set_text_color fore back c = record {
  attrib = back * 2 ^ 4 + fore % 2 ^ 4;
  csr_x = c.csr_x;
  csr_y = c.csr_y;
  text = c.text;
  redirect_output = c.redirect_output;
  out = c.out;
}

unfoldable pub init : ℕ → ℕ → Console → Console
unfolding set_text_color with_cursor cls
init fore back c = cls (with_cursor (set_text_color fore back c) 0 0)

unfoldable pub output_redirection : Bool → Console → Console
output_redirection on c = record {
  attrib = c.attrib;
  csr_x = c.csr_x;
  csr_y = c.csr_y;
  text = c.text;
  redirect_output = on;
  out = c.out;
}
