-- ===== src/Dispatch/Region.antt =====
-- One region of the range, and its split along one dimension.
use clvk.Common.{
  ℕ, zero, suc, ◌+◌, ◌-◌, ◌*◌, ◌%◌, ◌≤◌, ◌<◌, ◌≡◌, ◌≢◌, ◌⊎◌, inl, inr, ◌&&◌, List, [], ◌∷◌, ◌++◌,
  ltb, leb, ◌==◌, ==_iff, if◌then◌else◌, arith, All, Bool-cases,
}
use clvk.Dispatch.{Dim3, get, NdRange, split_dim, lowered, split_out}

-- 1 if the point lies in the interval of that length, 0 if not.
abbrev pub inside : ℕ → ℕ → ℕ → ℕ
inside offset size p = if leb offset p && ltb p (offset + size) then 1 else 0

-- 1 if the work-item lies in the region.
abbrev pub covers : NdRange → Dim3 → ℕ
covers r p =
    inside r.offset.x r.gws.x p.x * inside r.offset.y r.gws.y p.y * inside r.offset.z r.gws.z p.z

-- The sum of a measure over the regions.
abbrev pub total : (NdRange → ℕ) → List NdRange → ℕ
total f [] = 0
total f (r ∷ rs) = f r + total f rs

-- How many of the regions hold the work-item.
abbrev pub covers_all : List NdRange → Dim3 → ℕ
covers_all rs p = total (λ r. covers r p) rs

pub total-append :
    (f : NdRange → ℕ) (rs ss : List NdRange) → total f (rs ++ ss) ≡ total f rs + total f ss
total-append f [] ss = omega arith
total-append f (r ∷ rs) ss = omega (arith, total-append f rs ss)

abbrev pub IsUniformAt : ℕ → NdRange → Type 0
IsUniformAt d r = get r.gws d % get r.lws d ≡ 0

-- A region that is still to be split in a dimension starts at 0 there.
abbrev IsAligned : ℕ → NdRange → Type 0
IsAligned d r = IsUniformAt d r ⊎ (get r.offset d ≡ 0)

-- What every region is, of a range of the size `n` in groups of the size `l`.
pub record IsPart (n l : Dim3) (r : NdRange) : Type 0 where
  pub aligned_x : IsAligned 0 r
  pub aligned_y : IsAligned 1 r
  pub aligned_z : IsAligned 2 r
  pub within_x : r.offset.x + r.gws.x ≤ n.x
  pub within_y : r.offset.y + r.gws.y ≤ n.y
  pub within_z : r.offset.z + r.gws.z ≤ n.z
  pub some_x : 0 < r.lws.x
  pub some_y : 0 < r.lws.y
  pub some_z : 0 < r.lws.z
  pub small_x : r.lws.x ≤ l.x
  pub small_y : r.lws.y ≤ l.y
  pub small_z : r.lws.z ≤ l.z

inside-split :
    (offset size rem p : ℕ)
    → offset ≡ 0
    → rem ≤ size
    → inside offset size p ≡ inside offset (size - rem) p + inside (size - rem) rem p
inside-split offset size rem p h l = ground arith

split_dim_cases {ℓ} :
    (d : ℕ) (r : NdRange) (P : NdRange × List NdRange → Type ℓ)
    → (get r.gws d % get r.lws d ≡ 0 → P (r, []))
    → (get r.gws d % get r.lws d ≢ 0 → P (lowered d r, split_out d r ∷ []))
    → P (split_dim d r)
unfolding split_dim
split_dim_cases d r P kept cut = elim (Bool-cases (get r.gws d % get r.lws d == 0)) [
  | inl e ↦ rw e (kept ((==_iff _ _).0 e))
  | inr e ↦ rw e (cut (λ z. ground arith))
]

pub split_dim-covers :
    (d : ℕ) (n l : Dim3) (r : NdRange) (p : Dim3)
    → IsPart n l r
    → covers r p ≡ covers (split_dim d r).0 p + covers_all (split_dim d r).1 p
unfolding split_dim
split_dim-covers zero n l r p h = grind (arith, inside-split, h.aligned_x)
split_dim-covers (suc zero) n l r p h = grind (arith, inside-split, h.aligned_y)
split_dim-covers (suc (suc d)) n l r p h = grind (arith, inside-split, h.aligned_z)

rem_of_lowered : (g l : ℕ) → (g - g % l) % l ≡ 0
rem_of_lowered g l = grind arith

pub rem_self : (n : ℕ) → n % n ≡ 0
rem_self n = grind arith

lowered-IsPart : (d : ℕ) (n l : Dim3) (r : NdRange) → IsPart n l r → IsPart n l (lowered d r)
lowered-IsPart zero n l r h = ground (arith, rem_of_lowered r.gws.x r.lws.x)
lowered-IsPart (suc zero) n l r h = ground (arith, rem_of_lowered r.gws.y r.lws.y)
lowered-IsPart (suc (suc d)) n l r h = ground (arith, rem_of_lowered r.gws.z r.lws.z)

split_out-IsPart :
    (d : ℕ) (n l : Dim3) (r : NdRange)
    → IsPart n l r
    → get r.gws d % get r.lws d ≢ 0
    → IsPart n l (split_out d r)
split_out-IsPart zero n l r h ne = ground (arith, rem_self (r.gws.x % r.lws.x))
split_out-IsPart (suc zero) n l r h ne = ground (arith, rem_self (r.gws.y % r.lws.y))
split_out-IsPart (suc (suc d)) n l r h ne = ground (arith, rem_self (r.gws.z % r.lws.z))

pub split_dim-IsPart :
    (d : ℕ) (n l : Dim3) (r : NdRange)
    → IsPart n l r
    → IsPart n l (split_dim d r).0 × All (IsPart n l) (split_dim d r).1
split_dim-IsPart d n l r h =
    split_dim_cases d r (λ o. IsPart n l o.0 × All (IsPart n l) o.1) (λ e. (h, tt))
      (λ ne. (lowered-IsPart d n l r h, (split_out-IsPart d n l r h ne, tt)))

-- 1 if the region is uniform in the dimension, 2 if not.
abbrev halves_of : ℕ → ℕ → ℕ
halves_of size group = if size % group == 0 then 1 else 2

abbrev halves : ℕ → NdRange → ℕ
halves d r = halves_of (get r.gws d) (get r.lws d)

-- The number of regions that a region becomes.
abbrev pub weight : NdRange → ℕ
weight r = halves 0 r * halves 1 r * halves 2 r

halves_of_uniform : (g l : ℕ) → g % l ≡ 0 → halves_of g l ≡ 1
halves_of_uniform g l h = ground arith

halves_of_partial : (g l : ℕ) → g % l ≢ 0 → halves_of g l ≡ 2
halves_of_partial g l h = ground arith

split-weight :
    (d : ℕ) (r : NdRange)
    → get r.gws d % get r.lws d ≢ 0
    → weight r ≡ weight (lowered d r) + weight (split_out d r)
split-weight zero r h =
    rw
      (
        halves_of_partial r.gws.x r.lws.x h,
        halves_of_uniform _ r.lws.x (rem_of_lowered r.gws.x r.lws.x),
        halves_of_uniform _ _ (rem_self (r.gws.x % r.lws.x)),
      )
      (omega arith)
split-weight (suc zero) r h =
    rw
      (
        halves_of_partial r.gws.y r.lws.y h,
        halves_of_uniform _ r.lws.y (rem_of_lowered r.gws.y r.lws.y),
        halves_of_uniform _ _ (rem_self (r.gws.y % r.lws.y)),
      )
      (omega arith)
split-weight (suc (suc d)) r h =
    rw
      (
        halves_of_partial r.gws.z r.lws.z h,
        halves_of_uniform _ r.lws.z (rem_of_lowered r.gws.z r.lws.z),
        halves_of_uniform _ _ (rem_self (r.gws.z % r.lws.z)),
      )
      (omega arith)

pub split_dim-weight :
    (d : ℕ) (r : NdRange) → weight r ≡ weight (split_dim d r).0 + total weight (split_dim d r).1
split_dim-weight d r =
    split_dim_cases d r (λ o. weight r ≡ weight o.0 + total weight o.1) (λ e. omega arith)
      (λ ne. omega (arith, split-weight d r ne))

lowered-IsUniformAt : (d : ℕ) (r : NdRange) → IsUniformAt d (lowered d r)
lowered-IsUniformAt zero r = rem_of_lowered r.gws.x r.lws.x
lowered-IsUniformAt (suc zero) r = rem_of_lowered r.gws.y r.lws.y
lowered-IsUniformAt (suc (suc d)) r = rem_of_lowered r.gws.z r.lws.z

lowered_keeps-IsUniformAt : (d e : ℕ) (r : NdRange) → IsUniformAt e r → IsUniformAt e (lowered d r)
lowered_keeps-IsUniformAt zero zero r h = rem_of_lowered r.gws.x r.lws.x
lowered_keeps-IsUniformAt (suc zero) zero r h = h
lowered_keeps-IsUniformAt (suc (suc d)) zero r h = h
lowered_keeps-IsUniformAt zero (suc zero) r h = h
lowered_keeps-IsUniformAt (suc zero) (suc zero) r h = rem_of_lowered r.gws.y r.lws.y
lowered_keeps-IsUniformAt (suc (suc d)) (suc zero) r h = h
lowered_keeps-IsUniformAt zero (suc (suc e)) r h = h
lowered_keeps-IsUniformAt (suc zero) (suc (suc e)) r h = h
lowered_keeps-IsUniformAt (suc (suc d)) (suc (suc e)) r h = rem_of_lowered r.gws.z r.lws.z

pub split_dim_makes-IsUniformAt : (d : ℕ) (r : NdRange) → IsUniformAt d (split_dim d r).0
split_dim_makes-IsUniformAt d r =
    split_dim_cases d r (λ o. IsUniformAt d o.0) (λ e. e) (λ ne. lowered-IsUniformAt d r)

pub split_dim_keeps-IsUniformAt :
    (d e : ℕ) (r : NdRange) → IsUniformAt e r → IsUniformAt e (split_dim d r).0
split_dim_keeps-IsUniformAt d e r h =
    split_dim_cases d r (λ o. IsUniformAt e o.0) (λ _. h) (λ _. lowered_keeps-IsUniformAt d e r h)

split_out_keeps-IsUniformAt :
    (d e : ℕ) (r : NdRange) → IsUniformAt e r → IsUniformAt e (split_out d r)
split_out_keeps-IsUniformAt zero zero r h = rem_self (r.gws.x % r.lws.x)
split_out_keeps-IsUniformAt (suc zero) zero r h = h
split_out_keeps-IsUniformAt (suc (suc d)) zero r h = h
split_out_keeps-IsUniformAt zero (suc zero) r h = h
split_out_keeps-IsUniformAt (suc zero) (suc zero) r h = rem_self (r.gws.y % r.lws.y)
split_out_keeps-IsUniformAt (suc (suc d)) (suc zero) r h = h
split_out_keeps-IsUniformAt zero (suc (suc e)) r h = h
split_out_keeps-IsUniformAt (suc zero) (suc (suc e)) r h = h
split_out_keeps-IsUniformAt (suc (suc d)) (suc (suc e)) r h = rem_self (r.gws.z % r.lws.z)

pub split_dim_outs-IsUniformAt :
    (d e : ℕ) (r : NdRange) → IsUniformAt e r → All (IsUniformAt e) (split_dim d r).1
split_dim_outs-IsUniformAt d e r h =
    split_dim_cases d r (λ o. All (IsUniformAt e) o.1) (λ _. tt)
      (λ _. (split_out_keeps-IsUniformAt d e r h, tt))

pub weight_of_uniform :
    (r : NdRange) → IsUniformAt 0 r → IsUniformAt 1 r → IsUniformAt 2 r → weight r ≡ 1
weight_of_uniform r hx hy hz = rw (
  halves_of_uniform r.gws.x r.lws.x hx,
  halves_of_uniform r.gws.y r.lws.y hy,
  halves_of_uniform r.gws.z r.lws.z hz,
)

halves_of-le : (g l : ℕ) → halves_of g l ≤ 2
halves_of-le g l = ground arith

mul-le_eight : (a b c : ℕ) → a ≤ 2 → b ≤ 2 → c ≤ 2 → a * b * c ≤ 8
mul-le_eight a b c h k m = grind arith

pub weight-le : (r : NdRange) → weight r ≤ 8
weight-le r =
    mul-le_eight (halves 0 r) (halves 1 r) (halves 2 r) (halves_of-le r.gws.x r.lws.x)
      (halves_of-le r.gws.y r.lws.y) (halves_of-le r.gws.z r.lws.z)

halves_of-pos : (g l : ℕ) → 0 < halves_of g l
halves_of-pos g l = ground arith

mul-pos : (a b c : ℕ) → 0 < a → 0 < b → 0 < c → 0 < a * b * c
mul-pos a b c h k m = grind arith

pub weight-pos : (r : NdRange) → 0 < weight r
weight-pos r =
    mul-pos (halves 0 r) (halves 1 r) (halves 2 r) (halves_of-pos r.gws.x r.lws.x)
      (halves_of-pos r.gws.y r.lws.y) (halves_of-pos r.gws.z r.lws.z)

inside-le : (offset size p : ℕ) → inside offset size p ≤ 1
inside-le offset size p = ground arith

mul-le_one : (a b c : ℕ) → a ≤ 1 → b ≤ 1 → c ≤ 1 → a * b * c ≤ 1
mul-le_one a b c h k m = grind arith

pub covers-le : (r : NdRange) (p : Dim3) → covers r p ≤ 1
covers-le r p =
    mul-le_one (inside r.offset.x r.gws.x p.x) (inside r.offset.y r.gws.y p.y)
      (inside r.offset.z r.gws.z p.z) (inside-le r.offset.x r.gws.x p.x)
      (inside-le r.offset.y r.gws.y p.y) (inside-le r.offset.z r.gws.z p.z)
