-- ===== src/Kernel/Output.antt =====
-- The output of the threads' functions.
use multi_process.Base.{ℕ, zero, suc, ◌+◌, ◌^◌, ◌<◌, ◌≤◌, refl, List, [], ◌∷◌, ◌++◌}
use multi_process.Base.Int.{pos}
use multi_process.Console.{Console, puts}
use multi_process.Console.Format.{int_text, puti}
use multi_process.Console.Echo.{Ready, Prints, Prints-append, puts-Prints}
use multi_process.Kernel.{
  fun_name, tick_text, burst_text, invoked_text, thread_text, close_text, ticks, bursts, fun_prefix,
}

-- A line with a number: "<before><number>]\n".
abbrev pub line : List ℕ → ℕ → List ℕ
line before i = before ++ (int_text (pos i) ++ (b']' ∷ 10 ∷ []))

-- "FUN <digit>: TICK [", "FUN <digit> IN BURST[", "FUN <digit> INVOKED!\n" and "Thread: ".
abbrev pub tick_head : ℕ → List ℕ
tick_head digit =
    b'F' ∷ b'U' ∷ b'N' ∷ b' ' ∷ digit ∷ b':' ∷ b' ' ∷ b'T' ∷ b'I' ∷ b'C' ∷ b'K' ∷ b' ' ∷ b'[' ∷ []

abbrev pub burst_head : ℕ → List ℕ
burst_head digit =
    b'F' ∷ b'U' ∷ b'N' ∷ b' ' ∷ digit ∷ b' ' ∷ b'I' ∷ b'N' ∷ b' ' ∷ b'B' ∷ b'U' ∷ b'R' ∷ b'S' ∷ b'T'
    ∷ b'[' ∷ []

abbrev pub invoked_line : ℕ → List ℕ
invoked_line digit =
    b'F' ∷ b'U' ∷ b'N' ∷ b' ' ∷ digit ∷ b' ' ∷ b'I' ∷ b'N' ∷ b'V' ∷ b'O' ∷ b'K' ∷ b'E' ∷ b'D' ∷ b'!'
    ∷ 10 ∷ []

abbrev pub thread_head : List ℕ
thread_head = b'T' ∷ b'h' ∷ b'r' ∷ b'e' ∷ b'a' ∷ b'd' ∷ b':' ∷ b' ' ∷ []

-- The lines of the ticks `i`, `i + 1` and so on, `n` of them.
abbrev pub tick_lines : ℕ → ℕ → ℕ → List ℕ
tick_lines digit zero i = []
tick_lines digit (suc n) i = line (tick_head digit) i ++ tick_lines digit n (i + 1)

-- The lines of `n` bursts from `j` on, ten ticks in each.
abbrev pub burst_lines : ℕ → ℕ → ℕ → List ℕ
burst_lines digit zero j = []
burst_lines digit (suc n) j =
    (line (burst_head digit) j ++ tick_lines digit 10 0) ++ burst_lines digit n (j + 1)

-- All that a thread's function prints in `n` bursts.
abbrev pub fun_text : ℕ → ℕ → ℕ → List ℕ
fun_text digit thread_id n =
    ((thread_head ++ (int_text (pos thread_id) ++ (10 ∷ []))) ++ invoked_line digit)
    ++ burst_lines digit n 0

pub numbered :
    (c : Console) (before : List ℕ) (i : ℕ) (behind : List ℕ)
    → Ready c
    → Prints c (before ++ (int_text (pos i) ++ behind)) (puts (puti (puts c before) (pos i)) behind)
unfolding puti
numbered c before i behind r =
    let p = puts-Prints c before r in
    let q = puts-Prints (puts c before) (int_text (pos i)) p.ready in
    Prints-append before (int_text (pos i) ++ behind) p
      (Prints-append (int_text (pos i)) behind q (puts-Prints _ behind q.ready))

ticks-Prints :
    (digit n i : ℕ) (c : Console) → Ready c → Prints c (tick_lines digit n i) (ticks digit n i c)
unfolding ticks
ticks-Prints digit zero i c r = record { ready = r; out = refl; beyond = λ i le. refl }
ticks-Prints digit (suc n) i c r =
    let p = numbered c (fun_name digit ++ tick_text) i close_text r in
    Prints-append (line (fun_name digit ++ tick_text) i) (tick_lines digit n (i + 1)) p
      (ticks-Prints digit n (i + 1) _ p.ready)

bursts-Prints :
    (digit n j : ℕ) (c : Console) → Ready c → Prints c (burst_lines digit n j) (bursts digit n j c)
unfolding bursts
bursts-Prints digit zero j c r = record { ready = r; out = refl; beyond = λ i le. refl }
bursts-Prints digit (suc n) j c r =
    let p = numbered c (fun_name digit ++ burst_text) j close_text r in
    let t = ticks-Prints digit 10 0 _ p.ready in
    let b = Prints-append (line (fun_name digit ++ burst_text) j) (tick_lines digit 10 0) p t in
    Prints-append (line (fun_name digit ++ burst_text) j ++ tick_lines digit 10 0)
      (burst_lines digit n (j + 1)) b (bursts-Prints digit n (j + 1) _ b.ready)

-- Up to burst `n`, the function of a thread prints its id, its name, and for each burst from 0 on a
-- line with its number and ten lines for its ticks, each numbered from 0 on; nothing is lost at the
-- edges of the screen. `n` is at most 2 ^ 31, and the id below, so that no `int` overflows.
pub fun_prefix-Prints :
    (digit thread_id n : ℕ) (c : Console)
    → thread_id < 2 ^ 31
    → n ≤ 2 ^ 31
    → Ready c
    → Prints c (fun_text digit thread_id n) (fun_prefix digit thread_id n c)
unfolding fun_prefix
fun_prefix-Prints digit thread_id n c id_int burst_int r =
    let p = numbered c thread_text thread_id (10 ∷ []) r in
    let q = puts-Prints _ (fun_name digit ++ invoked_text) p.ready in
    let h =
      Prints-append (thread_text ++ (int_text (pos thread_id) ++ (10 ∷ [])))
        (fun_name digit ++ invoked_text) p q in
    Prints-append _ (burst_lines digit n 0) h (bursts-Prints digit n 0 _ h.ready)
