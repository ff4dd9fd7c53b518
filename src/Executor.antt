-- ===== src/Executor.antt =====
-- The executor threads of src/queue.hpp and src/queue.cpp: what is taken back from one, and the
-- pool that they come from.
pub mod Extract
pub mod Counts
pub mod Pool
mod Tests
use clvk.Common.{
  u64, sub64, ℕ, ◌+◌, ◌-◌, Bool, true, false, ◌&&◌, ◌||◌, not, List, [], ◌∷◌, ◌++◌, ◌==◌,
  if◌then◌else◌,
}

pub record Cmd : Type 0 where
  pub event : ℕ
  pub is_batch : Bool

-- The part of a thread's state that `extract_cmds_required_by` changes, and the count of groups in
-- flight of the queue that the thread works for.
pub record Executor : Type 0 where
  pub groups : List (List Cmd)
  pub nb_group_in_flight : ℕ

-- The loop over the events of the call.
pub is_required : List ℕ → ℕ → Bool
is_required [] e = false
is_required (d ∷ ds) e = e == d || is_required ds e

-- The locals of the loops: `dominated`, `executor_cmds` and `output`.
pub record Walk : Type 0 where
  pub dominated : Bool
  pub executor_cmds : List Cmd
  pub output : List Cmd

abbrev pub before_walk : Walk
before_walk = record { dominated = false; executor_cmds = []; output = [] }

-- The body of the inner loop for the command at the back.
pub visit : Bool → List ℕ → Cmd → Walk → Walk
visit only_non_batch events c w =
    let dominated = w.dominated || is_required events c.event in
    if not dominated || c.is_batch && only_non_batch
    then record { dominated = dominated; executor_cmds = c ∷ w.executor_cmds; output = w.output }
    else record { dominated = dominated; executor_cmds = w.executor_cmds; output = c ∷ w.output }

-- The inner loop goes through a group from its back.
pub walk_group : Bool → List ℕ → List Cmd → Walk → Walk
walk_group only events [] w = w
walk_group only events (c ∷ cs) w = visit only events c (walk_group only events cs w)

-- The outer loop goes through the groups from the last to the first.
pub walk_groups : Bool → List ℕ → List (List Cmd) → Walk → Walk
walk_groups only events [] w = w
walk_groups only events (g ∷ gs) w = walk_group only events g (walk_groups only events gs w)

-- Each group that is walked through has completed; the count is a `uint64_t`.
pub completed : List (List Cmd) → ℕ → ℕ
completed [] n = n
completed (g ∷ gs) n = sub64 (completed gs n) 1

-- What is left goes back as one group, if it is not empty.
pub leave : List Cmd → ℕ → Executor
leave [] n = record { groups = []; nb_group_in_flight = n }
leave (c ∷ cs) n = record { groups = (c ∷ cs) ∷ []; nb_group_in_flight = u64 (n + 1) }

-- `extract_cmds_required_by`, with the state spelled out: the output, and the thread afterwards.
pub extract_from : Bool → List ℕ → List (List Cmd) → ℕ → List Cmd × Executor
extract_from only events [] n = ([], record { groups = []; nb_group_in_flight = n })
extract_from only events (g ∷ gs) n =
    let w = walk_groups only events (g ∷ gs) before_walk in
    (w.output, leave w.executor_cmds (completed (g ∷ gs) n))

pub extract : Bool → List ℕ → Executor → List Cmd × Executor
extract only events x = extract_from only events x.groups x.nb_group_in_flight

-- The pool: each executor with whether it is free.
pub data PoolState : Type 0 where
  free bound : PoolState

-- The loop over the executors, in the order of the map; `idle` is `is_idle`.
pub find_free : (ℕ → Bool) → List (ℕ × PoolState) → List ℕ × List (ℕ × PoolState)
find_free idle [] = ([], [])
find_free idle ((x, bound) ∷ xs) = let rest = find_free idle xs in (rest.0, (x, bound) ∷ rest.1)
find_free idle ((x, free) ∷ xs) =
    let rest = find_free idle xs in
    if not (idle x) then (rest.0, (x, bound) ∷ rest.1) else (x ∷ [], (x, bound) ∷ xs)

-- `get_executor`; `fresh` is the executor that is created when none is found.
pub get_executor : (ℕ → Bool) → ℕ → List (ℕ × PoolState) → ℕ × List (ℕ × PoolState)
get_executor idle fresh pool =
    let r = find_free idle pool in
    elim r.0 [ [] ↦ (fresh, (fresh, bound) ∷ r.1) | x ∷ xs ↦ (x, r.1) ]
