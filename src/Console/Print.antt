-- ===== src/Console/Print.antt =====
-- What formatted output puts on the console.
use multi_process.Base.{
  ℕ, ◌≡◌, ◌≢◌, refl, sym, ap, ◌∙◌, true, false, List, [], ◌∷◌, ◌++◌, some, ◌==◌, inl, inr, ◌⊎◌,
  arith,
}
use multi_process.Base.Int.{ℤ}
use multi_process.Console.{Console, putch, puts}
use multi_process.Console.Format.{
  int_text, uint_text, puti, putui, Arg, int_arg, uint_arg, str_arg, convert, format_loop, kprintf,
}

puts-append : (c : Console) (s t : List ℕ) → puts c (s ++ t) ≡ puts (puts c s) t
unfolding puts
puts-append c [] t = refl
puts-append c (ch ∷ s) t = puts-append (putch c ch) s t

-- No conversion of `kprintf`.
pub record Unknown (d : ℕ) : Type 0 where
  pub not_d : d ≢ b'd'
  pub not_i : d ≢ b'i'
  pub not_u : d ≢ b'u'
  pub not_s : d ≢ b's'
  pub not_percent : d ≢ b'%'

-- The text of a format with its arguments, where `first` is the first character of the whole format.
pub data Rendered (first : ℕ) : List ℕ → List Arg → List ℕ → Type 0 where
  finished : {args : List Arg} → Rendered first [] args []
  plain :
      {ch : ℕ} {fmt : List ℕ} {args : List Arg} {text : List ℕ}
      → ch ≢ b'%'
      → Rendered first fmt args text
      → Rendered first (ch ∷ fmt) args (ch ∷ text)
  int_conversion :
      {p d : ℕ} {fmt : List ℕ} {n : ℤ} {args : List Arg} {text : List ℕ}
      → p ≡ b'%'
      → (d ≡ b'd') ⊎ (d ≡ b'i')
      → Rendered first fmt args text
      → Rendered first (p ∷ d ∷ fmt) (int_arg n ∷ args) (int_text n ++ text)
  uint_conversion :
      {p d : ℕ} {fmt : List ℕ} {n : ℕ} {args : List Arg} {text : List ℕ}
      → p ≡ b'%'
      → d ≡ b'u'
      → Rendered first fmt args text
      → Rendered first (p ∷ d ∷ fmt) (uint_arg n ∷ args) (b'<' ∷ (uint_text n ++ (b'>' ∷ text)))
  str_conversion :
      {p d : ℕ} {fmt s : List ℕ} {args : List Arg} {text : List ℕ}
      → p ≡ b'%'
      → d ≡ b's'
      → Rendered first fmt args text
      → Rendered first (p ∷ d ∷ fmt) (str_arg s ∷ args) (s ++ text)
  percent :
      {p d : ℕ} {fmt : List ℕ} {args : List Arg} {text : List ℕ}
      → p ≡ b'%'
      → d ≡ b'%'
      → Rendered first fmt args text
      → Rendered first (p ∷ d ∷ fmt) args (d ∷ text)
  unknown :
      {p d : ℕ} {fmt : List ℕ} {args : List Arg} {text : List ℕ}
      → p ≡ b'%'
      → Unknown d
      → Rendered first fmt args text
      → Rendered first (p ∷ d ∷ fmt) args (p ∷ first ∷ text)

-- A conversion, where what follows is known.
format_loop-convert :
    (first p d : ℕ) (fmt : List ℕ) (args args' : List Arg) (c c' : Console)
    → p ≡ b'%'
    → convert first d args c ≡ some (c', args')
    → format_loop first (p ∷ d ∷ fmt) args c ≡ format_loop first fmt args' c'
unfolding format_loop
format_loop-convert first p d fmt args args' c c' e done =
    let pct : (p == b'%') ≡ true = ground arith in rw (pct, done) refl

format_loop-plain :
    (first ch : ℕ) (fmt : List ℕ) (args : List Arg) (c : Console)
    → ch ≢ b'%'
    → format_loop first (ch ∷ fmt) args c ≡ format_loop first fmt args (putch c ch)
unfolding format_loop
format_loop-plain first ch [] args c ne =
    let other : (ch == b'%') ≡ false = ground arith in rw other refl
format_loop-plain first ch (d ∷ fmt) args c ne =
    let other : (ch == b'%') ≡ false = ground arith in rw other refl

convert-int :
    (first d : ℕ) (n : ℤ) (args : List Arg) (c : Console)
    → (d ≡ b'd') ⊎ (d ≡ b'i')
    → convert first d (int_arg n ∷ args) c ≡ some (puti c n, args)
unfolding convert
convert-int first d n args c (inl e) = rw e refl
convert-int first d n args c (inr e) = rw e refl

convert-uint :
    (first d n : ℕ) (args : List Arg) (c : Console)
    → d ≡ b'u'
    → convert first d (uint_arg n ∷ args) c ≡ some (putui c n, args)
unfolding convert
convert-uint first d n args c e = rw e refl

convert-str :
    (first d : ℕ) (s : List ℕ) (args : List Arg) (c : Console)
    → d ≡ b's'
    → convert first d (str_arg s ∷ args) c ≡ some (puts c s, args)
unfolding convert
convert-str first d s args c e = rw e refl

convert-percent :
    (first d : ℕ) (args : List Arg) (c : Console)
    → d ≡ b'%'
    → convert first d args c ≡ some (putch c d, args)
unfolding convert
convert-percent first d args c e = rw e refl

convert-Unknown :
    (first p d : ℕ) (args : List Arg) (c : Console)
    → p ≡ b'%'
    → Unknown d
    → convert first d args c ≡ some (putch (putch c p) first, args)
unfolding convert
convert-Unknown first p d args c e u =
    let not_d : (d == b'd') ≡ false = ground (arith, u.not_d) in
    let not_i : (d == b'i') ≡ false = ground (arith, u.not_i) in
    let not_u : (d == b'u') ≡ false = ground (arith, u.not_u) in
    let not_s : (d == b's') ≡ false = ground (arith, u.not_s) in
    let not_percent : (d == b'%') ≡ false = ground (arith, u.not_percent) in
    rw (e, not_d, not_i, not_u, not_s, not_percent) refl

format_loop-Rendered :
    {first : ℕ} {fmt : List ℕ} {args : List Arg} {text : List ℕ} (c : Console)
    → Rendered first fmt args text
    → format_loop first fmt args c ≡ some (puts c text)
unfolding puti putui puts
format_loop-Rendered c finished = unfold format_loop in refl
format_loop-Rendered {first} c (plain {ch} {fmt} {args} ne r) =
    format_loop-plain first ch fmt args c ne ∙ format_loop-Rendered (putch c ch) r
format_loop-Rendered {first} c (int_conversion {p} {d} {fmt} {n} {args} {text} e kind r) =
    format_loop-convert first p d fmt (int_arg n ∷ args) args c (puti c n) e
      (convert-int first d n args c kind)
    ∙ format_loop-Rendered (puti c n) r
    ∙ ap some (sym (puts-append c (int_text n) text))
format_loop-Rendered {first} c (uint_conversion {p} {d} {fmt} {n} {args} {text} e kind r) =
    format_loop-convert first p d fmt (uint_arg n ∷ args) args c (putui c n) e
      (convert-uint first d n args c kind)
    ∙ format_loop-Rendered (putui c n) r
    ∙ ap some (sym (puts-append (putch c b'<') (uint_text n) (b'>' ∷ text)))
format_loop-Rendered {first} c (str_conversion {p} {d} {fmt} {s} {args} {text} e kind r) =
    format_loop-convert first p d fmt (str_arg s ∷ args) args c (puts c s) e
      (convert-str first d s args c kind)
    ∙ format_loop-Rendered (puts c s) r
    ∙ ap some (sym (puts-append c s text))
format_loop-Rendered {first} c (percent {p} {d} {fmt} {args} e kind r) =
    format_loop-convert first p d fmt args args c (putch c d) e
      (convert-percent first d args c kind)
    ∙ format_loop-Rendered (putch c d) r
format_loop-Rendered {first} c (unknown {p} {d} {fmt} {args} e u r) =
    format_loop-convert first p d fmt args args c (putch (putch c p) first) e
      (convert-Unknown first p d args c e u)
    ∙ format_loop-Rendered (putch (putch c p) first) r

-- `kprintf` prints the text of its format: `%d` and `%i` the int, `%u` the unsigned int in angle
-- brackets, `%s` the string, `%%` a percent sign, and any other character behind a `%` as a percent
-- sign and the first character of the format.
pub kprintf-Rendered :
    (first : ℕ) (fmt : List ℕ) (args : List Arg) (text : List ℕ) (c : Console)
    → Rendered first (first ∷ fmt) args text
    → kprintf (first ∷ fmt) args c ≡ some (puts c text)
unfolding kprintf
kprintf-Rendered first fmt args text c r = format_loop-Rendered c r
