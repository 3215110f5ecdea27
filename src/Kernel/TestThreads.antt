-- ===== src/Kernel/TestThreads.antt =====
-- The functions `test1` to `test3` of kernel.C, which are compiled but not started.
use multi_process.Base.{
  ℕ, zero, suc, ◌+◌, Bool, true, false, refl, List, [], ◌∷◌, ◌++◌, if◌then◌else◌,
}
use multi_process.Base.Int.{pos}
use multi_process.Console.{Console, puts}
use multi_process.Console.Format.{int_text, puti}
use multi_process.Console.Echo.{Ready, Prints, Prints-append, puts-Prints}
use multi_process.Kernel.Output.{numbered}

-- "est thread ", a digit, and " running "
abbrev test_name : ℕ → ℕ → List ℕ
test_name letter digit =
    letter ∷ b'e' ∷ b's' ∷ b't' ∷ b' ' ∷ b't' ∷ b'h' ∷ b'r' ∷ b'e' ∷ b'a' ∷ b'd' ∷ b' ' ∷ digit
    ∷ b' ' ∷ b'r' ∷ b'u' ∷ b'n' ∷ b'n' ∷ b'i' ∷ b'n' ∷ b'g' ∷ b' ' ∷ []

-- "Terminated test thread 1!\n"
abbrev terminated_text : List ℕ
terminated_text =
    b'T' ∷ b'e' ∷ b'r' ∷ b'm' ∷ b'i' ∷ b'n' ∷ b'a' ∷ b't' ∷ b'e' ∷ b'd' ∷ b' ' ∷ b't' ∷ b'e' ∷ b's'
    ∷ b't' ∷ b' ' ∷ b't' ∷ b'h' ∷ b'r' ∷ b'e' ∷ b'a' ∷ b'd' ∷ b' ' ∷ b'1' ∷ b'!' ∷ 10 ∷ []

-- The endless loop from round `i` on, for `n` rounds; `terminated` says whether each round prints
-- the second message.
unfoldable test_rounds : List ℕ → Bool → ℕ → ℕ → Console → Console
test_rounds name terminated zero i c = c
test_rounds name terminated (suc n) i c =
    let c' = puts (puti (puts c name) (pos i)) (10 ∷ []) in
    test_rounds name terminated n (i + 1) (if terminated then puts c' terminated_text else c')

unfoldable test1 : ℕ → Console → Console
unfolding test_rounds
test1 n c = test_rounds (test_name b'T' b'1') false n 0 c

-- The test of `testThread1` against NULL is an argument.
unfoldable test2 : Bool → ℕ → Console → Console
unfolding test_rounds
test2 test_thread1 n c = test_rounds (test_name b'T' b'2') test_thread1 n 0 c

unfoldable test3 : ℕ → Console → Console
unfolding test_rounds
test3 n c = test_rounds (test_name b't' b'3') false n 0 c

abbrev test_text : List ℕ → Bool → ℕ → ℕ → List ℕ
test_text name terminated zero i = []
test_text name terminated (suc n) i =
    ((name ++ (int_text (pos i) ++ (10 ∷ []))) ++ (if terminated then terminated_text else []))
    ++ test_text name terminated n (i + 1)

test_rounds-Prints :
    (name : List ℕ) (terminated : Bool) (n i : ℕ) (c : Console)
    → Ready c
    → Prints c (test_text name terminated n i) (test_rounds name terminated n i c)
unfolding test_rounds
test_rounds-Prints name terminated zero i c r = record {
  ready = r;
  out = refl;
  beyond = λ i le. refl;
}
test_rounds-Prints name true (suc n) i c r =
    let p = numbered c name i (10 ∷ []) r in
    let q =
      Prints-append (name ++ (int_text (pos i) ++ (10 ∷ []))) terminated_text p
        (puts-Prints _ terminated_text p.ready) in
    Prints-append ((name ++ (int_text (pos i) ++ (10 ∷ []))) ++ terminated_text)
      (test_text name true n (i + 1)) q (test_rounds-Prints name true n (i + 1) _ q.ready)
test_rounds-Prints name false (suc n) i c r =
    let p = numbered c name i (10 ∷ []) r in
    let q =
      Prints-append (name ++ (int_text (pos i) ++ (10 ∷ []))) [] p
        (record { ready = p.ready; out = refl; beyond = λ i le. refl }) in
    Prints-append ((name ++ (int_text (pos i) ++ (10 ∷ []))) ++ []) (test_text name false n (i + 1))
      q (test_rounds-Prints name false n (i + 1) _ q.ready)

-- Every round of `test2` prints its number, and that thread 1 is terminated when there is one.
test2-Prints :
    (test_thread1 : Bool) (n : ℕ) (c : Console)
    → Ready c
    → Prints c (test_text (test_name b'T' b'2') test_thread1 n 0) (test2 test_thread1 n c)
unfolding test2
test2-Prints test_thread1 n c r = test_rounds-Prints (test_name b'T' b'2') test_thread1 n 0 c r

test1-Prints :
    (n : ℕ) (c : Console)
    → Ready c
    → Prints c (test_text (test_name b'T' b'1') false n 0) (test1 n c)
unfolding test1
test1-Prints n c r = test_rounds-Prints (test_name b'T' b'1') false n 0 c r

test3-Prints :
    (n : ℕ) (c : Console)
    → Ready c
    → Prints c (test_text (test_name b't' b'3') false n 0) (test3 n c)
unfolding test3
test3-Prints n c r = test_rounds-Prints (test_name b't' b'3') false n 0 c r
