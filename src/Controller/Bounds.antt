-- ===== src/Controller/Bounds.antt =====
-- The ranges in which the controller keeps the sizes.
use clvk.Common.{
  ℕ, ◌+◌, ◌^◌, ◌≤◌, ◌<◌, ◌≡◌, ◌≢◌, refl, Bool, true, false, ◌||◌, Option, none, some, arith, ◌==◌,
}
use native.Mathlib.Decide.{ℕ_discrete}
use clvk.Controller.{
  is_idle, Controller, Load, reset_after_flush, update_after_empty_flush, adapt, finish_batch,
  clamp_max, clamp_first, order_sizes, update_with_batch, update_after_end_current_command_batch,
}

-- The limit of a first batch is a positive 32-bit number, and its hits stay below the two
-- thresholds.
pub record IsLimited (c : Controller) : Type 0 where
  pub some : 0 < c.first_limit
  pub small : c.first_limit < 2 ^ 32
  pub hits : c.first_limit_hit ≤ 16
  pub few_hits : 1 < c.first_limit → c.first_limit_hit ≤ 8

-- A first batch is not larger than a batch.
pub record IsValid (c : Controller) : Type 0 where
  pub limited : IsLimited c
  pub ordered : c.max_first_cmd_batch_size ≤ c.max_cmd_batch_size

-- The device's size of a first batch is a positive 32-bit number, and the sizes leave room for
-- what the controller adds to them.
pub record IsSmall (q : Load) (c : Controller) : Type 0 where
  pub device : 0 < q.device_first
  pub device_small : q.device_first < 2 ^ 32
  pub size : c.max_cmd_batch_size + q.in_flight + 5 < 2 ^ 32
  pub first : c.max_first_cmd_batch_size + 5 < 2 ^ 32

module _ (q : Load) (c : Controller) where
  adapt-IsLimited : IsSmall q c → IsLimited c → IsLimited (adapt q c)
  unfolding adapt
  adapt-IsLimited s v = ground arith

  reset_after_flush-IsLimited : IsLimited c → IsLimited (reset_after_flush q c)
  unfolding reset_after_flush
  reset_after_flush-IsLimited v = ground arith

  finish_batch-IsLimited :
      (from_flush : Bool) (size : ℕ) → IsLimited c → IsLimited (finish_batch from_flush q size c)
  unfolding finish_batch reset_after_flush
  finish_batch-IsLimited true size v = ground arith
  finish_batch-IsLimited false size v = ground arith

  clamp_max-IsLimited : IsLimited c → IsLimited (clamp_max c)
  unfolding clamp_max
  clamp_max-IsLimited v = ground arith

  clamp_first-IsLimited :
      0 < q.device_first → q.device_first < 2 ^ 32 → IsLimited c → IsLimited (clamp_first q c)
  unfolding clamp_first
  clamp_first-IsLimited d e v = ground arith

  order_sizes-IsValid : IsLimited c → IsValid (order_sizes c)
  unfolding order_sizes
  order_sizes-IsValid v = ground arith

  adapt_keeps : (adapt q c).max_cmd_batch_size_limit ≡ c.max_cmd_batch_size_limit
  unfolding adapt
  adapt_keeps = ground arith

  finish_batch_keeps :
      (from_flush : Bool) (size : ℕ)
      → (finish_batch from_flush q size c).max_cmd_batch_size_limit ≡ c.max_cmd_batch_size_limit
  unfolding finish_batch reset_after_flush
  finish_batch_keeps true size = ground arith
  finish_batch_keeps false size = ground arith

  clamp_max_caps :
      ((clamp_max c).max_cmd_batch_size ≤ c.max_cmd_batch_size_limit)
      × ((clamp_max c).max_cmd_batch_size_limit ≡ c.max_cmd_batch_size_limit)
  unfolding clamp_max
  clamp_max_caps = ground arith

  clamp_first_keeps :
      ((clamp_first q c).max_cmd_batch_size ≡ c.max_cmd_batch_size)
      × ((clamp_first q c).max_cmd_batch_size_limit ≡ c.max_cmd_batch_size_limit)
  unfolding clamp_first
  clamp_first_keeps = ground arith

  order_sizes_keeps :
      ((order_sizes c).max_cmd_batch_size ≡ c.max_cmd_batch_size)
      × ((order_sizes c).max_cmd_batch_size_limit ≡ c.max_cmd_batch_size_limit)
  unfolding order_sizes
  order_sizes_keeps = ground arith

module _ (from_flush : Bool) (q : Load) (size : ℕ) where
  -- What the update does once there was a batch before this one.
  abbrev settled : Controller → Controller
  settled c = clamp_first q (clamp_max (finish_batch from_flush q size (adapt q c)))

  settled-IsLimited : (c : Controller) → IsSmall q c → IsLimited c → IsLimited (settled c)
  settled-IsLimited c s v = clamp_first-IsLimited q _ s.device s.device_small (
      clamp_max-IsLimited q _
        (finish_batch-IsLimited q _ from_flush size (adapt-IsLimited q c s v)))

  settled_caps :
      (c : Controller)
      → ((order_sizes (settled c)).max_cmd_batch_size ≤ c.max_cmd_batch_size_limit)
        × ((order_sizes (settled c)).max_cmd_batch_size_limit ≡ c.max_cmd_batch_size_limit)
  settled_caps c =
      let a = adapt q c in
      let f = finish_batch from_flush q size a in
      ground (
        arith,
        adapt_keeps q c,
        finish_batch_keeps q a from_flush size,
        clamp_max_caps q f,
        clamp_first_keeps q (clamp_max f),
        order_sizes_keeps q (settled c),
      )

-- The controller with what it has seen of the queue.
abbrev noted : Load → Controller → Controller
noted q c = record c {
  executor_idle = c.executor_idle || is_idle q;
  no_batch_in_flight = c.no_batch_in_flight || (q.in_flight == 0);
}

first_batch-IsValid :
    (from_flush : Bool) (q : Load) (size : ℕ) (c : Controller)
    → c.last_batch_size ≡ 0
    → IsValid c
    → IsValid (update_with_batch from_flush q size c)
unfolding update_with_batch
first_batch-IsValid from_flush q size c e v = ground arith

-- For a valid controller, a device whose size of a first batch is positive, and sizes that leave
-- room for what is added to them: the update after a batch that is not the first since the last
-- flush leaves the controller valid, caps the batch size by its limit, and keeps the limit.
update_with_batch_bounds :
    (from_flush : Bool) (q : Load) (size : ℕ) (c : Controller)
    → c.last_batch_size ≢ 0
    → IsSmall q c
    → IsLimited c
    → let d = update_with_batch from_flush q size c in
      IsValid d
      × (d.max_cmd_batch_size ≤ c.max_cmd_batch_size_limit)
      × (d.max_cmd_batch_size_limit ≡ c.max_cmd_batch_size_limit)
unfolding update_with_batch
update_with_batch_bounds from_flush q size c ne s v =
    let later : (c.last_batch_size == 0) ≡ false = ground arith in
    let caps = settled_caps from_flush q size (noted q c) in
    rw later (
      order_sizes-IsValid q (settled from_flush q size (noted q c))
          (settled-IsLimited from_flush q size (noted q c) (omega arith) (ground arith)),
      caps.0,
      caps.1,
    )

update_with_batch-IsValid :
    (from_flush : Bool) (q : Load) (size : ℕ) (c : Controller)
    → IsSmall q c
    → IsValid c
    → IsValid (update_with_batch from_flush q size c)
update_with_batch-IsValid from_flush q size c s v = elim (ℕ_discrete c.last_batch_size 0) [
  | yes e ↦ first_batch-IsValid from_flush q size c e v
  | no ne ↦ (update_with_batch_bounds from_flush q size c ne s v.limited).0
]

reset_after_flush-IsValid :
    (q : Load) (c : Controller) → IsSmall q c → IsValid c → IsValid (reset_after_flush q c)
unfolding reset_after_flush
reset_after_flush-IsValid q c s v = ground arith

update-IsValid_at :
    (from_flush : Bool) (q : Load) (batch : Option ℕ) (c : Controller)
    → q.batch ≡ batch
    → IsSmall q c
    → IsValid c
    → IsValid (update_after_end_current_command_batch from_flush q c)
unfolding update_after_end_current_command_batch
update-IsValid_at true q none c e s v =
    rw (e, update_after_end_current_command_batch) (reset_after_flush-IsValid q c s v)
update-IsValid_at false q none c e s v = rw (e, update_after_end_current_command_batch) v
update-IsValid_at from_flush q (some size) c e s v =
    rw (e, update_after_end_current_command_batch)
      (update_with_batch-IsValid from_flush q size c s v)

-- For a valid controller, a device whose size of a first batch is a positive 32-bit number, and
-- sizes that leave room for what is added to them: each update of the controller, with a batch or
-- without one and at a flush or not, and the update after an empty flush, keep it valid.
update-IsValid :
    (from_flush : Bool) (q : Load) (c : Controller)
    → IsSmall q c
    → IsValid c
    → IsValid (update_after_end_current_command_batch from_flush q c)
      × IsValid (update_after_empty_flush q c)
unfolding update_after_empty_flush
update-IsValid from_flush q c s v =
    (update-IsValid_at from_flush q q.batch c refl s v, reset_after_flush-IsValid q c s v)
