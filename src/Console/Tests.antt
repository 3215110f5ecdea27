-- ===== src/Console/Tests.antt =====
-- The console near the end of a row and of the screen, and formatted output.
use multi_process.Base.{ℕ, zero, suc, ◌≡◌, refl, List, [], ◌∷◌, ◌++◌, true, false, some, inl, arith}
use multi_process.Base.Int.{pos, negsuc}
use multi_process.Console.{Console, scroll, putch, puts, put_at, wrap, with_cursor, with_text, echo}
use multi_process.Console.Puts.{Printable}
use multi_process.Console.Format.{int_arg, int_text, kprintf}
use multi_process.Console.Print.{
  Rendered, finished, plain, int_conversion, unknown, kprintf-Rendered,
}
use multi_process.Console.Numbers.{read_int, int_text-reads}

abbrev at : ℕ → ℕ → Console
at x y = record {
  attrib = 7;
  csr_x = x;
  csr_y = y;
  text = λ i. i;
  redirect_output = false;
  out = [];
}

abbrev greeting : List ℕ
greeting = 72 ∷ 105 ∷ 33 ∷ []

across : (puts (at 78 3) greeting).csr_x ≡ 1
unfolding puts putch put_at wrap scroll with_cursor with_text echo
across = refl

greeting-Printable : Printable greeting
greeting-Printable zero lt = (omega arith, omega arith)
greeting-Printable (suc zero) lt = (omega arith, omega arith)
greeting-Printable (suc (suc zero)) lt = (omega arith, omega arith)
greeting-Printable (suc (suc (suc i))) lt = absurd (omega arith)

-- The console at the end of the screen, its output redirected.
abbrev redirected : Console
redirected = record {
  attrib = 7;
  csr_x = 79;
  csr_y = 24;
  text = λ i. i;
  redirect_output = true;
  out = [];
}

int_text-reads_example : read_int (int_text (negsuc 1022)) ≡ negsuc 1022
int_text-reads_example = int_text-reads (negsuc 1022) (omega arith)

-- "=%d%x"
abbrev format : List ℕ
format = b'=' ∷ b'%' ∷ b'd' ∷ b'%' ∷ b'x' ∷ []

-- The unknown specifier `x` prints as a percent sign and the first character of the format.
format-Rendered :
    Rendered b'=' format (int_arg (pos 7) ∷ []) (b'=' ∷ (int_text (pos 7) ++ (b'%' ∷ b'=' ∷ [])))
format-Rendered = plain (omega arith) (
    int_conversion refl (inl refl) (
      unknown refl
        (record {
          not_d = omega arith;
          not_i = omega arith;
          not_u = omega arith;
          not_s = omega arith;
          not_percent = omega arith;
        })
        finished))

kprintf-Rendered_example :
    kprintf format (int_arg (pos 7) ∷ []) redirected
    ≡ some (puts redirected (b'=' ∷ (int_text (pos 7) ++ (b'%' ∷ b'=' ∷ []))))
kprintf-Rendered_example =
    kprintf-Rendered b'=' (b'%' ∷ b'd' ∷ b'%' ∷ b'x' ∷ []) (int_arg (pos 7) ∷ [])
      (b'=' ∷ (int_text (pos 7) ++ (b'%' ∷ b'=' ∷ []))) redirected format-Rendered
