-- ===== src/Dispatch/Pieces.antt =====
-- The split of a uniform region along the device's limits: one dimension.
use clvk.Common.{
  ℕ, zero, suc, ◌+◌, ◌-◌, ◌*◌, ◌/◌, ◌%◌, ◌≤◌, ◌<◌, ◌≡◌, ◌⊎◌, inl, inr, Bool-cases, refl, ◌++◌,
  arith, min, ceil_div, All, All-append, ◌==◌,
}
use clvk.Codes.{success}
use clvk.Dispatch.{NdRange, Trace, for_pieces, then_trace}
use clvk.Dispatch.Region.{inside, total, total-append}

-- The sum of a function over `k` numbers from `i` on.
abbrev pub sum_from : (ℕ → ℕ) → ℕ → ℕ → ℕ
sum_from g zero i = 0
sum_from g (suc k) i = g i + sum_from g k (i + 1)

pub sum_from-mul : (g : ℕ → ℕ) (c k i : ℕ) → sum_from (λ j. g j * c) k i ≡ sum_from g k i * c
sum_from-mul g c zero i = omega arith
sum_from-mul g c (suc k) i = omega (arith, sum_from-mul g c k (i + 1))

-- A first piece of the size `s`, and the rest.
inside_step : (o g s p : ℕ) → inside o g p ≡ inside o (min s g) p + inside (s + o) (g - s) p
inside_step o g s p = ground arith

-- Pieces of the size `s`, of which the last is cut off, make up the whole.
pub sum_from-inside :
    (o g s p k i : ℕ)
    → g ≤ (i + k) * s
    → sum_from (λ j. inside (j * s + o) (min s (g - j * s)) p) k i
      ≡ inside (i * s + o) (g - i * s) p
sum_from-inside o g s p zero i h = ground arith
sum_from-inside o g s p (suc k) i h = rw (
  sum_from-inside o g s p k (i + 1) (omega (arith, h)),
  inside_step (i * s + o) (g - i * s) s p,
  offset_step,
  size_step,
)
  where
    offset_step : (i + 1) * s + o ≡ s + (i * s + o)
    offset_step = omega arith

    size_step : g - (i + 1) * s ≡ g - i * s - s
    size_step = omega arith

-- The number of pieces reaches the end, and each starts before it.
pub pieces_reach : (m c : ℕ) → 0 < c → m ≤ ceil_div m c * c
unfolding ceil_div
pieces_reach m c h = ground arith

ceil_div_below : (m c i : ℕ) → i < ceil_div m c → (i < m / c) ⊎ ((i ≤ m / c) × (0 < m % c))
unfolding ceil_div
ceil_div_below m c i h = elim (Bool-cases (m % c == 0)) [
  | inl e ↦ let k : i < m / c + 0 = (rw e at h) in inl (omega arith)
  | inr e ↦ let k : i < m / c + 1 = (rw e at h) in inr (omega arith, ground arith)
]

mul_mono : (i q c : ℕ) → i ≤ q → i * c ≤ q * c
mul_mono i q c h = grind arith

pub piece_starts : (m c i : ℕ) → 0 < c → i < ceil_div m c → i * c < m
piece_starts m c i pos h = elim (ceil_div_below m c i h) [
  | inl k ↦ omega (arith, mul_mono (suc i) (m / c) c k)
  | inr (k, r) ↦ omega (arith, mul_mono i (m / c) c k)
]

pub then_trace_ok :
    (t u : Trace)
    → (then_trace t u).1 ≡ success
    → (t.1 ≡ success) × (u.1 ≡ success) × ((then_trace t u).0 ≡ t.0 ++ u.0)
then_trace_ok (rs, success) (ss, e) h = (refl, h, refl)
then_trace_ok (rs, _) (ss, e) h = cc

then_trace-All {ℓ} :
    (P : NdRange → Type ℓ) (t u : Trace) → All P t.0 → All P u.0 → All P (then_trace t u).0
then_trace-All P (rs, success) (ss, e) h k = All-append P rs ss h k
then_trace-All P (rs, _) (ss, e) h k = h

module _ (body : ℕ → Trace) where
  pub for_pieces-total :
      (f : NdRange → ℕ) (g : ℕ → ℕ) (n : ℕ)
      → ((j : ℕ) → j < n → (body j).1 ≡ success → total f (body j).0 ≡ g j)
      → (k i : ℕ) → i + k ≤ n
      → (for_pieces body k i).1 ≡ success
      → total f (for_pieces body k i).0 ≡ sum_from g k i
  unfolding for_pieces
  for_pieces-total f g n each zero i le ok = refl
  for_pieces-total f g n each (suc k) i le ok =
      let (here, rest, e) = then_trace_ok (body i) (for_pieces body k (i + 1)) ok in
      rw e (
        omega (
          arith,
          total-append f (body i).0 (for_pieces body k (i + 1)).0,
          each i (omega arith) here,
          for_pieces-total f g n each k (i + 1) (omega arith) rest,
        ))

  pub for_pieces-All {ℓ} :
      (P : NdRange → Type ℓ) (n : ℕ)
      → ((j : ℕ) → j < n → All P (body j).0)
      → (k i : ℕ) → i + k ≤ n
      → All P (for_pieces body k i).0
  unfolding for_pieces
  for_pieces-All P n each zero i le = tt
  for_pieces-All P n each (suc k) i le =
      then_trace-All P (body i) (for_pieces body k (i + 1)) (each i (omega arith))
        (for_pieces-All P n each k (i + 1) (omega arith))
