-- ===== src/Assert.antt =====
-- The message of a failed assertion in assert.C.
pub mod Message
use multi_process.Base.{ℕ, List, [], ◌∷◌}
use multi_process.Base.Int.{ℤ}
use multi_process.Console.{Console, puts}
use multi_process.Console.Format.{int_text}

-- "Assertion failed at file: "
abbrev pub file_label : List ℕ
file_label =
    b'A' ∷ b's' ∷ b's' ∷ b'e' ∷ b'r' ∷ b't' ∷ b'i' ∷ b'o' ∷ b'n' ∷ b' ' ∷ b'f' ∷ b'a' ∷ b'i' ∷ b'l'
    ∷ b'e' ∷ b'd' ∷ b' ' ∷ b'a' ∷ b't' ∷ b' ' ∷ b'f' ∷ b'i' ∷ b'l' ∷ b'e' ∷ b':' ∷ b' ' ∷ []

-- " line: "
abbrev pub line_label : List ℕ
line_label = b' ' ∷ b'l' ∷ b'i' ∷ b'n' ∷ b'e' ∷ b':' ∷ b' ' ∷ []

-- " assertion: "
abbrev pub assertion_label : List ℕ
assertion_label =
    b' ' ∷ b'a' ∷ b's' ∷ b's' ∷ b'e' ∷ b'r' ∷ b't' ∷ b'i' ∷ b'o' ∷ b'n' ∷ b':' ∷ b' ' ∷ []

-- `_assert` up to the call of `abort`. The number is printed through a buffer of 15 bytes, as by
-- `puti`.
unfoldable pub failed_assertion : List ℕ → ℤ → List ℕ → Console → Console
failed_assertion file line message c =
    puts
      (puts
        (puts (puts (puts (puts (puts c file_label) file) line_label) (int_text line))
          assertion_label)
        message)
      (10 ∷ [])
