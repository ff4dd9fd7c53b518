-- ===== src/Transfer/Grid.antt =====
-- Jobs for each row of each slice, in the order of the loops of `do_copy` in src/queue.cpp.
use clvk.Common.{ℕ, zero, suc, ◌+◌, ◌<◌, ◌≤◌, subst, List, [], ◌∷◌, ◌++◌, arith, All}
use native.Mathlib.Decide.{ℕ_discrete}
use clvk.Transfer.Jobs.{Job, Clear, Separate}

module _ (job : ℕ → ℕ → Job) where
  -- `n` rows of a slice, from `row` on.
  unfoldable pub row_jobs : ℕ → ℕ → ℕ → List Job
  row_jobs zero slice row = []
  row_jobs (suc n) slice row = job slice row ∷ row_jobs n slice (row + 1)

  -- `n` slices of `rows` rows, from `slice` on.
  unfoldable pub slice_jobs : ℕ → ℕ → ℕ → List Job
  slice_jobs rows zero slice = []
  slice_jobs rows (suc n) slice = row_jobs rows slice 0 ++ slice_jobs rows n (slice + 1)

All-append {ℓ κ} :
    {A : Type ℓ} (P : A → Type κ) (xs ys : List A) → All P xs → All P ys → All P (xs ++ ys)
All-append P [] ys h g = g
All-append P (x ∷ xs) ys (p, h) g = (p, All-append P xs ys h g)

All-left {ℓ κ} : {A : Type ℓ} (P : A → Type κ) (xs ys : List A) → All P (xs ++ ys) → All P xs
All-left P [] ys h = tt
All-left P (x ∷ xs) ys (p, h) = (p, All-left P xs ys h)

All-right {ℓ κ} : {A : Type ℓ} (P : A → Type κ) (xs ys : List A) → All P (xs ++ ys) → All P ys
All-right P [] ys h = h
All-right P (x ∷ xs) ys (p, h) = All-right P xs ys h

module _ {κ} (P : Job → Type κ) (job : ℕ → ℕ → Job) where
  pub row_jobs-All :
      (n slice row : ℕ)
      → ((r : ℕ) → row ≤ r → r < row + n → P (job slice r))
      → All P (row_jobs job n slice row)
  unfolding row_jobs
  row_jobs-All zero slice row h = tt
  row_jobs-All (suc n) slice row h = (
    h row (omega arith) (omega arith),
    row_jobs-All n slice (row + 1) (λ r a b. h r (omega arith) (omega arith)),
  )

  pub slice_jobs-All :
      (rows n slice : ℕ)
      → ((s r : ℕ) → slice ≤ s → s < slice + n → r < rows → P (job s r))
      → All P (slice_jobs job rows n slice)
  unfolding slice_jobs
  slice_jobs-All rows zero slice h = tt
  slice_jobs-All rows (suc n) slice h =
      All-append P (row_jobs job rows slice 0) (slice_jobs job rows n (slice + 1))
        (row_jobs-All rows slice 0 (λ r a b. h slice r (omega arith) (omega arith) (omega arith)))
        (slice_jobs-All rows n (slice + 1) (λ s r a b e. h s r (omega arith) (omega arith) e))

  row_jobs-at :
      (n slice row r : ℕ)
      → row ≤ r
      → r < row + n
      → All P (row_jobs job n slice row)
      → P (job slice r)
  unfolding row_jobs
  row_jobs-at zero slice row r a b h = absurd (omega arith)
  row_jobs-at (suc n) slice row r a b (p, h) = elim (ℕ_discrete row r) [
    | yes e ↦ subst (λ k. P (job slice k)) e p
    | no d ↦ row_jobs-at n slice (row + 1) r (omega (arith, d)) (omega arith) h
  ]

  pub slice_jobs-at :
      (rows n slice s r : ℕ)
      → slice ≤ s
      → s < slice + n
      → r < rows
      → All P (slice_jobs job rows n slice)
      → P (job s r)
  unfolding slice_jobs
  slice_jobs-at rows zero slice s r a b c h = absurd (omega arith)
  slice_jobs-at rows (suc n) slice s r a b c h = elim (ℕ_discrete slice s) [
    | yes e ↦
        subst (λ k. P (job k r)) e
          (row_jobs-at rows slice 0 r (omega arith) (omega arith)
            (All-left P (row_jobs job rows slice 0) (slice_jobs job rows n (slice + 1)) h))
    | no d ↦
        slice_jobs-at rows n (slice + 1) s r (omega (arith, d)) (omega arith) c
          (All-right P (row_jobs job rows slice 0) (slice_jobs job rows n (slice + 1)) h)
  ]

Separate-append :
    (w : ℕ) (xs ys : List Job)
    → Separate w xs
    → Separate w ys
    → All (λ x. All (Clear w x) ys) xs
    → Separate w (xs ++ ys)
Separate-append w [] ys h g c = g
Separate-append w (x ∷ xs) ys (p, h) g (q, c) =
    (All-append (Clear w x) xs ys p q, Separate-append w xs ys h g c)

module _ (w : ℕ) (job : ℕ → ℕ → Job) (rows slices : ℕ)
    (same_slice : (s r k : ℕ) → s < slices → k < rows → r < k → Clear w (job s r) (job s k))
    (later_slice : (s t r k : ℕ)
      → t < slices
      → r < rows
      → k < rows
      → s < t
      → Clear w (job s r) (job t k)) where
  row_jobs-Separate :
      (n slice row : ℕ) → slice < slices → row + n ≤ rows → Separate w (row_jobs job n slice row)
  unfolding row_jobs
  row_jobs-Separate zero slice row a b = tt
  row_jobs-Separate (suc n) slice row a b = (
    row_jobs-All (Clear w (job slice row)) job n slice (row + 1)
        (λ r p q. same_slice slice row r a (omega arith) (omega arith)),
    row_jobs-Separate n slice (row + 1) a (omega arith),
  )

  pub slice_jobs-Separate :
      (n slice : ℕ) → slice + n ≤ slices → Separate w (slice_jobs job rows n slice)
  unfolding slice_jobs
  slice_jobs-Separate zero slice a = tt
  slice_jobs-Separate (suc n) slice a =
      let later = slice_jobs job rows n (slice + 1) in
      Separate-append w (row_jobs job rows slice 0) later
        (row_jobs-Separate rows slice 0 (omega arith) (omega arith))
        (slice_jobs-Separate n (slice + 1) (omega arith))
        (row_jobs-All (λ x. All (Clear w x) later) job rows slice 0
          (λ r p q.
            slice_jobs-All (Clear w (job slice r)) job rows n (slice + 1)
              (λ t k b c d. later_slice slice t r k (omega arith) (omega arith) d (omega arith))))
