-- ===== src/Controller.antt =====
-- src/queue_controller.cpp: the controller that adapts a queue's batch sizes. The two sizes are
-- the queue's fields; the controller is the only code that writes them. Its trace counters have
-- no effect on the program and are left out.
pub mod Bounds
pub mod Idle
mod Tests
use clvk.Common.{
  ℕ, ◌+◌, ◌-◌, ◌%◌, ◌^◌, Bool, true, false, ◌&&◌, ◌||◌, not, Option, none, some, ltb, leb, ◌==◌,
  if◌then◌else◌, u32, sub32,
}

-- `cvk_queue_controller_batch_parameters`, with the queue's `m_max_cmd_batch_size` and
-- `m_max_first_cmd_batch_size`.
pub record Controller : Type 0 where
  pub max_cmd_batch_size_limit : ℕ
  pub first_limit : ℕ
  pub first_limit_hit : ℕ
  pub last_batch_size : ℕ
  pub no_batch_in_flight : Bool
  pub executor_idle : Bool
  pub max_cmd_batch_size : ℕ
  pub max_first_cmd_batch_size : ℕ

-- What the controller reads of the queue: the batches in flight, the size of the current batch
-- (`none` if there is none), whether the executor is idle (`none` if there is no executor), and
-- the device's size of a first batch.
pub record Load : Type 0 where
  pub in_flight : ℕ
  pub batch : Option ℕ
  pub executor : Option Bool
  pub device_first : ℕ

-- The constructor, for the device's two sizes.
pub create : ℕ → ℕ → Controller
create max_cmd max_first = record {
  max_cmd_batch_size_limit = max_cmd;
  first_limit = max_first;
  first_limit_hit = 0;
  last_batch_size = 0;
  no_batch_in_flight = false;
  executor_idle = false;
  max_cmd_batch_size = max_cmd;
  max_first_cmd_batch_size = max_first;
}

pub reset_after_flush : Load → Controller → Controller
reset_after_flush q c = record c {
  max_cmd_batch_size =
      if ltb 2 q.in_flight && not c.no_batch_in_flight
      then u32 (c.max_cmd_batch_size + q.in_flight)
      else c.max_cmd_batch_size;
  last_batch_size = 0;
  no_batch_in_flight = false;
  executor_idle = false;
}

pub update_after_empty_flush : Load → Controller → Controller
update_after_empty_flush q c = reset_after_flush q c

abbrev pub is_idle : Load → Bool
is_idle q = elim q.executor [ none ↦ false | some idle ↦ idle ]

-- The three cases that move the sizes.
pub adapt : Load → Controller → Controller
adapt q c =
    if q.in_flight == 0 && c.last_batch_size == c.max_first_cmd_batch_size
    then record c {
      first_limit = u32 (c.max_first_cmd_batch_size + 1);
      first_limit_hit = 0;
      max_first_cmd_batch_size = u32 (c.max_first_cmd_batch_size + 5);
      max_cmd_batch_size = u32 (c.max_first_cmd_batch_size + 5);
    }
    else if q.in_flight == 0 && leb (u32 (c.max_first_cmd_batch_size + 2)) c.max_cmd_batch_size
    then record c { max_cmd_batch_size = sub32 c.max_cmd_batch_size 2 }
    else if ltb 0 q.in_flight && leb c.last_batch_size c.max_first_cmd_batch_size && c.executor_idle
    then record c { max_first_cmd_batch_size = sub32 c.max_first_cmd_batch_size 1 }
    else c

-- The end of a flush, or else the size of the batch is kept.
pub finish_batch : Bool → Load → ℕ → Controller → Controller
finish_batch from_flush q size c =
    if from_flush
    then reset_after_flush q (
        if not c.executor_idle && ltb 0 c.first_limit_hit
        then record c { first_limit_hit = sub32 c.first_limit_hit 1 }
        else c)
    else record c { last_batch_size = size }

pub clamp_max : Controller → Controller
clamp_max c =
    if ltb c.max_cmd_batch_size_limit c.max_cmd_batch_size
    then record c { max_cmd_batch_size = c.max_cmd_batch_size_limit }
    else c

-- A first batch under its limit is a hit; too many hits lower the limit, or restore it.
pub clamp_first : Load → Controller → Controller
clamp_first q c =
    if ltb c.max_first_cmd_batch_size c.first_limit
    then (let hit = u32 (c.first_limit_hit + 2) in
        if ltb 8 hit && ltb 1 c.first_limit
        then record c { first_limit_hit = 0; first_limit = sub32 c.first_limit 1 }
        else if ltb 16 hit && c.first_limit == 1
        then record c { first_limit_hit = 0; first_limit = q.device_first }
        else record c { first_limit_hit = hit; max_first_cmd_batch_size = c.first_limit })
    else c

pub order_sizes : Controller → Controller
order_sizes c =
    if ltb c.max_cmd_batch_size c.max_first_cmd_batch_size
    then record c { max_first_cmd_batch_size = c.max_cmd_batch_size }
    else c

-- `update_after_end_current_command_batch` with a batch of the given size.
pub update_with_batch : Bool → Load → ℕ → Controller → Controller
update_with_batch from_flush q size c =
    let c1 = record c { executor_idle = c.executor_idle || is_idle q } in
    if c1.last_batch_size == 0
    then record c1 { last_batch_size = size }
    else let c2 = record c1 { no_batch_in_flight = c1.no_batch_in_flight || (q.in_flight == 0) } in
      order_sizes (clamp_first q (clamp_max (finish_batch from_flush q size (adapt q c2))))

pub update_after_end_current_command_batch : Bool → Load → Controller → Controller
update_after_end_current_command_batch from_flush q c = elim q.batch [
  | none ↦ if from_flush then reset_after_flush q c else c
  | some size ↦ update_with_batch from_flush q size c
]
