-- ===== src/Executor/Counts.antt =====
-- The count of groups in flight over `extract_cmds_required_by`.
use clvk.Common.{
  ℕ, ◌+◌, ◌-◌, ◌^◌, ◌<◌, ◌≤◌, ◌≡◌, refl, Bool, List, [], ◌∷◌, arith, length, sub64, u64-id,
}
use clvk.Executor.{Cmd, Executor, before_walk, walk_groups, completed, leave, extract_from, extract}

leave_counts :
    (cs : List Cmd) (n : ℕ)
    → n + 1 < 2 ^ 64
    → (leave cs n).nb_group_in_flight ≡ n + length (leave cs n).groups
unfolding leave
leave_counts [] n h = omega arith
leave_counts (c ∷ cs) n h = u64-id h

sub64-one : (n : ℕ) → 0 < n → n < 2 ^ 64 → sub64 n 1 ≡ n - 1
sub64-one n some small = omega arith

completed_lem :
    (gs : List (List Cmd)) (n : ℕ) → length gs ≤ n → n < 2 ^ 64 → completed gs n ≡ n - length gs
unfolding completed
completed_lem [] n some small = omega arith
completed_lem (g ∷ gs) n some small =
    let ih = completed_lem gs n (omega arith) small in
    let one = sub64-one (completed gs n) (omega (arith, ih)) (omega (arith, ih)) in
    omega (arith, ih, one)

extract_from_counts :
    (only : Bool) (events : List ℕ) (gs : List (List Cmd)) (busy : ℕ)
    → busy + length gs < 2 ^ 64
    → (extract_from only events gs (busy + length gs)).1.nb_group_in_flight
      ≡ busy + length (extract_from only events gs (busy + length gs)).1.groups
unfolding extract_from
extract_from_counts only events [] busy h = refl
extract_from_counts only events (g ∷ gs) busy h =
    let kept = (walk_groups only events (g ∷ gs) before_walk).executor_cmds in
    let n = busy + length (g ∷ gs) in
    let done = completed_lem (g ∷ gs) n (omega arith) h in
    omega (arith, leave_counts kept (completed (g ∷ gs) n) (omega (arith, done)), done)

-- When the queue's groups in flight are those of its thread and `busy` more, and fit a `uint64_t`,
-- they are so after an extraction too.
pub extract_counts :
    (only : Bool) (events : List ℕ) (x : Executor) (busy : ℕ)
    → x.nb_group_in_flight ≡ busy + length x.groups
    → busy + length x.groups < 2 ^ 64
    → (extract only events x).1.nb_group_in_flight ≡ busy + length (extract only events x).1.groups
unfolding extract
extract_counts only events x busy h small =
    rw h (extract_from_counts only events x.groups busy small)
