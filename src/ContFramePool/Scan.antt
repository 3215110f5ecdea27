-- ===== src/ContFramePool/Scan.antt =====
-- The search of `get_frames` finds the first run of free frames, exactly when there is one.
use multi_process.Base.{
  dec_lt, ℕ, zero, suc, ◌+◌, ◌-◌, ◌≤◌, ◌<◌, ◌^◌, ◌≡◌, ◌≢◌, true, false, arith, ◌⊎◌, ◌==◌,
  Bool-cases, inl, inr, add32, sub32,
}
use multi_process.ContFramePool.{ContFramePool, FrameState, free, is_free, get_state, scan}

-- The `n` frames from `a` are free.
abbrev pub FreeRun : ContFramePool → ℕ → ℕ → Type 0
FreeRun p n a = (f : ℕ) → a ≤ f → f < a + n → get_state p f ≡ free

-- No run of `n` free frames ends at `limit` or before it.
abbrev pub NoRun : ContFramePool → ℕ → ℕ → Type 0
NoRun p n limit = (a : ℕ) → a + n ≤ limit → ¬ (FreeRun p n a)

-- What the loop knows at frame `fno`.
pub record Looking (p : ContFramePool) (n fno run : ℕ) : Type 0 where
  pub short : run < n
  pub inside : run ≤ fno
  pub behind : (f : ℕ) → fno ≤ f + run → f < fno → get_state p f ≡ free
  pub edge : (f : ℕ) → f + run + 1 ≡ fno → get_state p f ≢ free
  pub none_yet : NoRun p n fno

pub record Found (p : ContFramePool) (n limit : ℕ) (out : ℕ × ℕ) : Type 0 where
  pub enough : out.0 ≡ n
  pub fits : out.1 + n ≤ limit
  pub run : FreeRun p n out.1
  pub least : (a : ℕ) → a < out.1 → ¬ (FreeRun p n a)

pub record Missing (p : ContFramePool) (n limit : ℕ) (out : ℕ × ℕ) : Type 0 where
  pub short : out.0 ≢ n
  pub absent : NoRun p n limit

module _ (p : ContFramePool) (n : ℕ) where
  Looking-used :
      (fno run : ℕ) → Looking p n fno run → get_state p fno ≢ free → Looking p n (fno + 1) 0
  Looking-used fno run h ne = record {
    short = omega (arith, h.short);
    inside = omega arith;
    behind = λ f le lt. absurd (omega arith);
    edge = λ f e is. ground (arith, h.short);
    none_yet = λ a le all. elim (dec_lt fno (a + n)) [
      | yes past ↦ ne (all fno (omega (arith, h.short)) past)
      | no before ↦ h.none_yet a (omega arith) all
    ];
  }

  Looking-free :
      (fno run : ℕ)
      → Looking p n fno run
      → get_state p fno ≡ free
      → run + 1 < n
      → Looking p n (fno + 1) (run + 1)
  Looking-free fno run h e lt = record {
    short = lt;
    inside = omega (arith, h.inside);
    behind = λ f le lt'. ground (arith, h.behind f);
    edge = λ f eq. h.edge f (omega arith);
    none_yet = λ a le all. elim (dec_lt fno (a + n)) [
      | yes past ↦
          h.edge (fno - run - 1) (omega arith) (all (fno - run - 1) (omega arith) (omega arith))
      | no before ↦ h.none_yet a (omega arith) all
    ];
  }

  Looking-Found :
      (fno run limit : ℕ)
      → Looking p n fno run
      → get_state p fno ≡ free
      → run + 1 ≡ n
      → fno < limit
      → Found p n limit (run + 1, fno - run)
  Looking-Found fno run limit h e eq lt = record {
    enough = eq;
    fits = omega (arith, h.inside);
    run = λ f le lt'. ground (arith, h.behind f, h.inside);
    least = λ a below all. h.none_yet a (omega (arith, h.inside)) all;
  }

  is_free→free : (s : FrameState) → is_free s ≡ true → s ≡ free
  is_free→free s h = ground arith

  free→is_free : (s : FrameState) → s ≡ free → is_free s ≡ true
  free→is_free s h = ground arith

  pub scan_lem :
      (rounds fno run limit : ℕ)
      → Looking p n fno run
      → fno + rounds ≡ limit
      → limit < 2 ^ 31
      → Found p n limit (scan p n rounds fno run) ⊎ Missing p n limit (scan p n rounds fno run)
  unfolding scan
  scan_lem zero fno run limit h e small =
      inr (record { short = omega (arith, h.short); absent = λ a le. h.none_yet a (omega arith) })
  scan_lem (suc k) fno run limit h e small = elim (Bool-cases (is_free (get_state p fno))) [
    | inl fr ↦
        (let step : add32 run 1 ≡ run + 1 = omega (arith, h.inside) in
          elim (Bool-cases (run + 1 == n)) [
            | inl eq ↦
                (let start : add32 (sub32 fno (run + 1)) 1 ≡ fno - run = omega (arith, h.inside) in
                  rw (fr, step, eq, start)
                    (inl (
                      Looking-Found fno run limit h (is_free→free _ fr) (ground arith)
                        (omega arith))))
            | inr ne ↦
                rw (fr, step, ne)
                  (scan_lem k (fno + 1) (run + 1) limit
                    (Looking-free fno run h (is_free→free _ fr) (ground (arith, h.short)))
                    (omega arith) small)
          ])
    | inr us ↦
        let ne : (0 == n) ≡ false = ground (arith, h.short) in
        rw (us, ne)
          (scan_lem k (fno + 1) 0 limit (Looking-used fno run h (ground arith)) (omega arith) small)
  ]

pub Looking-start : (p : ContFramePool) (n : ℕ) → 0 < n → Looking p n 0 0
Looking-start p n pos = record {
  short = pos;
  inside = omega arith;
  behind = λ f le lt. absurd (omega arith);
  edge = λ f e is. absurd (omega arith);
  none_yet = λ a le all. absurd (omega arith);
}
