-- ===== src/Console/Format.antt =====
-- `puti`, `putui` and `kprintf` of console.C.
use multi_process.Base.{ℕ, List, [], ◌∷◌, Option, none, some, ◌==◌, ◌||◌, if◌then◌else◌}
use multi_process.Base.Int.{ℤ}
use multi_process.Utils.{int2str, uint2str, c_string}
use multi_process.Console.{Console, putch, puts}

-- The string in `foostr` behind the call that fills it; `foostr` has 15 bytes.
unfoldable pub int_text : ℤ → List ℕ
int_text n = c_string 15 (int2str n (λ _. 0) 0) 0

unfoldable pub uint_text : ℕ → List ℕ
uint_text n = c_string 15 (uint2str n (λ _. 0) 0) 0

unfoldable pub puti : Console → ℤ → Console
puti c n = puts c (int_text n)

unfoldable pub putui : Console → ℕ → Console
putui c n = putch (puts (putch c b'<') (uint_text n)) b'>'

-- What a caller passes behind the format.
pub data Arg : Type 0 where
  int_arg : ℤ → Arg
  uint_arg : ℕ → Arg
  str_arg : List ℕ → Arg

-- The output of the specifier `d`, where `first` is the first character of the format, `*fmt`, and
-- the arguments left. `none` is an argument that is missing or of another type.
unfoldable pub convert : ℕ → ℕ → List Arg → Console → Option (Console × List Arg)
convert first d args c =
    if d == b'd' || d == b'i'
    then elim args [ int_arg n ∷ rest ↦ some (puti c n, rest) | _ ↦ none ]
    else if d == b'u'
    then elim args [ uint_arg n ∷ rest ↦ some (putui c n, rest) | _ ↦ none ]
    else if d == b's'
    then elim args [ str_arg s ∷ rest ↦ some (puts c s, rest) | _ ↦ none ]
    else if d == b'%'
    then some (putch c b'%', args)
    else some (putch (putch c b'%') first, args)

-- The loop over the format. A `%` at its end makes the loop step over the 0, and is `none`.
unfoldable pub format_loop : ℕ → List ℕ → List Arg → Console → Option Console
format_loop first [] args c = some c
format_loop first (ch ∷ []) args c = if ch == b'%' then none else some (putch c ch)
format_loop first (ch ∷ d ∷ rest) args c =
    let plain = format_loop first (d ∷ rest) args (putch c ch) in
    if ch == b'%'
    then elim (convert first d args c) [
      | none ↦ none
      | some (c', args') ↦ format_loop first rest args' c'
    ]
    else plain

unfoldable pub kprintf : List ℕ → List Arg → Console → Option Console
unfolding format_loop
kprintf [] args c = some c
kprintf (first ∷ fmt) args c = format_loop first (first ∷ fmt) args c
