-- ===== src/Console/Echo.antt =====
-- What the console sends to the emulator's port, and that its cursor never leaves the screen.
use multi_process.Base.{
  ℕ, ◌*◌, ◌≤◌, ◌≡◌, refl, sym, ap, ◌∙◌, Bool, true, ◌&&◌, ◌||◌, List, [], ◌∷◌, ◌++◌, ltb, leb, ◌==◌,
  if◌then◌else◌, Bool-cases, inl, inr, arith,
}
use multi_process.Console.{Console, put_at, wrap, scroll, putch, puts, with_cursor, with_text, echo}
use multi_process.Console.Screen.{OnScreen}
use multi_process.Console.Putch.{putch-OnScreen}

-- The characters that are sent: carriage return, new line, and the printable ones.
abbrev pub sent : ℕ → Bool
sent ch = ch == 0x0d || ch == 0x0a || (leb 0x20 ch && ltb ch 0x80)

-- The log of the port, the latest first, behind the characters of a string.
abbrev pub log : List ℕ → List ℕ → List ℕ
log [] out = out
log (ch ∷ s) out = log s (if sent ch then ch ∷ out else out)

log-append : (s t out : List ℕ) → log (s ++ t) out ≡ log t (log s out)
log-append [] t out = refl
log-append (ch ∷ s) t out = log-append s t (if sent ch then ch ∷ out else out)

scroll-out :
    (c : Console) → ((scroll c).out ≡ c.out) × ((scroll c).redirect_output ≡ c.redirect_output)
unfolding scroll with_text with_cursor
scroll-out c = elim (Bool-cases (leb 25 c.csr_y)) [
  | inl last ↦ rw last (refl, refl)
  | inr above ↦ rw above (refl, refl)
]

wrap-out : (c : Console) → ((wrap c).out ≡ c.out) × ((wrap c).redirect_output ≡ c.redirect_output)
unfolding wrap with_cursor
wrap-out c = elim (Bool-cases (leb 80 c.csr_x)) [
  | inl edge ↦ rw edge (refl, refl)
  | inr inside ↦ rw inside (refl, refl)
]

put_at-out :
    (c : Console) (ch : ℕ)
    → c.redirect_output ≡ true
    → ((put_at c ch).out ≡ (if sent ch then ch ∷ c.out else c.out))
      × ((put_at c ch).redirect_output ≡ true)
unfolding put_at with_text with_cursor echo
put_at-out c ch on = ground arith

putch-out :
    (c : Console) (ch : ℕ)
    → c.redirect_output ≡ true
    → ((putch c ch).out ≡ (if sent ch then ch ∷ c.out else c.out))
      × ((putch c ch).redirect_output ≡ true)
unfolding putch
putch-out c ch on =
    let (out, still) = put_at-out c ch on in
    let (out1, still1) = wrap-out (put_at c ch) in
    let (out2, still2) = scroll-out (wrap (put_at c ch)) in
    (out2 ∙ out1 ∙ out, still2 ∙ still1 ∙ still)

-- A console on which output is redirected to the port, its cursor on the screen.
pub record Ready (c : Console) : Type 0 where
  pub redirected : c.redirect_output ≡ true
  pub on : OnScreen c

-- Output of the text `s`: the port gets its characters in order, as far as they are sent at all.
pub record Prints (c : Console) (s : List ℕ) (c' : Console) : Type 0 where
  pub ready : Ready c'
  pub out : c'.out ≡ log s c.out
  pub beyond : (i : ℕ) → 25 * 80 ≤ i → c'.text i ≡ c.text i

pub Prints-append :
    {c c' c'' : Console} (s t : List ℕ) → Prints c s c' → Prints c' t c'' → Prints c (s ++ t) c''
Prints-append {c} s t p q = record {
  ready = q.ready;
  out = q.out ∙ ap (log t) p.out ∙ sym (log-append s t c.out);
  beyond = λ i le. q.beyond i le ∙ p.beyond i le;
}

-- With output redirected, whatever the text and wherever the cursor: the emulator's port gets the
-- carriage returns, new lines and printable characters of the text in order, the cursor is on the
-- screen behind it, and no cell behind the screen is written.
pub puts-Prints : (c : Console) (s : List ℕ) → Ready c → Prints c s (puts c s)
unfolding puts
puts-Prints c [] r = record { ready = r; out = refl; beyond = λ i le. refl }
puts-Prints c (ch ∷ s) r =
    let (out, still) = putch-out c ch r.redirected in
    let (on, beyond) = putch-OnScreen c ch r.on in
    let p = puts-Prints (putch c ch) s (record { redirected = still; on = on }) in
    record {
      ready = p.ready;
      out = p.out ∙ ap (log s) out;
      beyond = λ i le. p.beyond i le ∙ beyond i le;
    }
