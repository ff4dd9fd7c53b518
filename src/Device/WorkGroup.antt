-- ===== src/Device/WorkGroup.antt =====
-- The work-group size that is chosen is one that the kernel can be run with.
use clvk.Common.{ℕ, zero, suc, ◌*◌, ◌%◌, ◌≤◌, ◌≡◌, ◌⊎◌, Bool, true, false, Option, some}
use clvk.Dispatch.{Dim3}
use clvk.Device.{Limits, max_size, can_double}

-- A size that divides the global size and keeps the limits.
pub record Fits (l : Limits) (global local : Dim3) : Type 0 where
  pub whole_x : global.x % local.x ≡ 0
  pub whole_y : global.y % local.y ≡ 0
  pub within_x : local.x ≤ l.max_work_group_count.x
  pub within_y : local.y ≤ l.max_work_group_count.y
  pub some_x : 1 ≤ local.x
  pub some_y : 1 ≤ local.y
  pub flat : local.z ≡ 1
  pub few : local.x * local.y ≤ max_size l

-- Neither of the first two dimensions can be doubled.
pub record IsLargest (l : Limits) (global local : Dim3) : Type 0 where
  pub fixed_x : can_double l global 0 local ≡ false
  pub fixed_y : can_double l global 1 local ≡ false

-- `n` doublings.
abbrev times_doubled : ℕ → ℕ → ℕ
times_doubled zero p = p
times_doubled (suc n) p = times_doubled n (2 * p)

-- A turn of the loop leaves the size, which is then the largest, or doubles it once or twice.
module _ (l : Limits) (global : Dim3) where
  abbrev Turn : Dim3 → Dim3 × Bool → Type 0
  Turn local r =
      Fits l global r.0
      × (((r.1 ≡ false) × (r.0 ≡ local) × IsLargest l global local)
          ⊎ ((r.1 ≡ true) × (2 * (local.x * local.y) ≤ r.0.x * r.0.y)))

  abbrev Chosen : Option Dim3 → Type 0
  Chosen o = (local : Dim3) × (o ≡ some local) × Fits l global local × IsLargest l global local
