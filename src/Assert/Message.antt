-- ===== src/Assert/Message.antt =====
-- What a failed assertion prints.
use multi_process.Base.{ℕ, List, [], ◌∷◌, ◌++◌}
use multi_process.Base.Int.{ℤ}
use multi_process.Console.{Console, puts}
use multi_process.Console.Format.{int_text}
use multi_process.Console.Echo.{Ready, Prints, Prints-append, puts-Prints}
use multi_process.Assert.{file_label, line_label, assertion_label, failed_assertion}

-- The message in one piece.
abbrev pub assertion_text : List ℕ → ℤ → List ℕ → List ℕ
assertion_text file line message =
    (((((file_label ++ file) ++ line_label) ++ int_text line) ++ assertion_label) ++ message)
    ++ (10 ∷ [])

-- Output behind a text that was printed before.
then_puts : {c c' : Console} (s t : List ℕ) → Prints c s c' → Prints c (s ++ t) (puts c' t)
then_puts {c} {c'} s t p = Prints-append s t p (puts-Prints c' t p.ready)

-- With output redirected, a failed assertion sends its file, its line and its text to the
-- emulator's port in order, wherever the cursor is.
failed_assertion-Prints :
    (file : List ℕ) (line : ℤ) (message : List ℕ) (c : Console)
    → Ready c
    → Prints c (assertion_text file line message) (failed_assertion file line message c)
unfolding failed_assertion
failed_assertion-Prints file line message c r =
    then_puts
      (((((file_label ++ file) ++ line_label) ++ int_text line) ++ assertion_label) ++ message)
      (10 ∷ [])
      (then_puts ((((file_label ++ file) ++ line_label) ++ int_text line) ++ assertion_label)
        message
        (then_puts (((file_label ++ file) ++ line_label) ++ int_text line) assertion_label (
          then_puts ((file_label ++ file) ++ line_label) (int_text line) (
            then_puts (file_label ++ file) line_label
              (then_puts file_label file (puts-Prints c file_label r))))))
