-- ===== src/Transfer/Jobs.antt =====
-- A list of `memcpy`s of the same size, as pairs of a destination and a source.
use clvk.Common.{
  ℕ, ◌+◌, ◌-◌, ◌<◌, ◌≤◌, ◌≡◌, ◌⊎◌, refl, ◌∙◌, true, ◌&&◌, List, [], ◌∷◌, ltb, leb, arith, All,
}
use clvk.Transfer.{Memory, memcpy}

abbrev pub Job : Type 0
Job = ℕ × ℕ

unfoldable pub run_jobs : ℕ → List Job → Memory → Memory
run_jobs w [] m = m
run_jobs w (j ∷ js) m = run_jobs w js (memcpy j.0 j.1 w m)

-- The address `i` is not among the `w` from `a` on.
abbrev pub Outside : ℕ → ℕ → ℕ → Type 0
Outside w i a = (i < a) ⊎ (a + w ≤ i)

pub memcpy-out : (d s w : ℕ) (m : Memory) (i : ℕ) → Outside w i d → memcpy d s w m i ≡ m i
unfolding memcpy
memcpy-out d s w m i h = ground arith

in_block : (d w c : ℕ) → c < w → (leb d (d + c) && ltb (d + c) (d + w)) ≡ true
in_block d w c h = ground arith

past : (d c : ℕ) → d + c - d ≡ c
past d c = omega arith

pub memcpy-in : (d s w : ℕ) (m : Memory) (c : ℕ) → c < w → memcpy d s w m (d + c) ≡ m (s + c)
unfolding memcpy
memcpy-in d s w m c h = ground (arith, in_block d w c h, past d c)

-- A job leaves every address outside the blocks that it writes.
pub run_jobs-out :
    (w : ℕ) (js : List Job) (m : Memory) (i : ℕ)
    → All (λ j. Outside w i j.0) js
    → run_jobs w js m i ≡ m i
unfolding run_jobs
run_jobs-out w [] m i h = refl
run_jobs-out w (j ∷ js) m i (h, hs) =
    run_jobs-out w js (memcpy j.0 j.1 w m) i hs ∙ memcpy-out j.0 j.1 w m i h

-- Two blocks of `w` have no address in common.
abbrev pub Disjoint : ℕ → ℕ → ℕ → Type 0
Disjoint w a b = (a + w ≤ b) ⊎ (b + w ≤ a)

-- What the job `j` writes is neither written nor read by a later one.
abbrev pub Clear : ℕ → Job → Job → Type 0
Clear w j k = Disjoint w j.0 k.0 × Disjoint w j.0 k.1

abbrev pub Separate : ℕ → List Job → Type 0
Separate w [] = Unit
Separate w (j ∷ js) = All (Clear w j) js × Separate w js

-- The block of a job holds what its source held.
abbrev pub Moved : ℕ → Memory → Memory → Job → Type 0
Moved w m m' j = (c : ℕ) → c < w → m' (j.0 + c) ≡ m (j.1 + c)

All-map2 {ℓ κ μ ν} :
    {A : Type ℓ} (P : A → Type κ) (Q : A → Type μ) (R : A → Type ν) (xs : List A)
    → ((a : A) → P a → Q a → R a)
    → All P xs
    → All Q xs
    → All R xs
All-map2 P Q R [] f h g = tt
All-map2 P Q R (x ∷ xs) f (p, h) (q, g) = (f x p q, All-map2 P Q R xs f h g)

Disjoint-Outside : (w a b c : ℕ) → c < w → Disjoint w a b → Outside w (a + c) b
Disjoint-Outside w a b c h d = ground arith

Disjoint-Outside_sym : (w a b c : ℕ) → c < w → Disjoint w a b → Outside w (b + c) a
Disjoint-Outside_sym w a b c h d = ground arith

pub run_jobs-Moved :
    (w : ℕ) (js : List Job) (m : Memory) → Separate w js → All (Moved w m (run_jobs w js m)) js
unfolding run_jobs
run_jobs-Moved w [] m h = tt
run_jobs-Moved w (j ∷ js) m (clear, rest) =
    let m' = memcpy j.0 j.1 w m in
    (
      (λ c small.
          run_jobs-out w js m' (j.0 + c) (
            All-map2 (Clear w j) (Clear w j) (λ k. Outside w (j.0 + c) k.0) js
              (λ k d _. Disjoint-Outside w j.0 k.0 c small d.0) clear clear)
          ∙ memcpy-in j.0 j.1 w m c small),
      All-map2 (Clear w j) (Moved w m' (run_jobs w js m')) (Moved w m (run_jobs w js m')) js
          (λ k d moved c small.
            moved c small
            ∙ memcpy-out j.0 j.1 w m (k.1 + c) (Disjoint-Outside_sym w j.0 k.1 c small d.1))
          clear (run_jobs-Moved w js m' rest),
    )
