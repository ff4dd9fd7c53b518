-- ===== src/KernelArgs/Lifetime.antt =====
-- How long commands use the argument values of a kernel: `build_batchable_inner` and the destructor
-- of `cvk_command_kernel`, of src/queue.cpp and src/queue.hpp.
use clvk.Common.{
  ℕ, zero, suc, ◌+◌, ◌-◌, ◌^◌, ◌<◌, ◌≤◌, ◌≡◌, inl, inr, refl, subst, Option-cases, Bool, true,
  false, ◌||◌, not, List, [], ◌∷◌, Option, none, some, ◌==◌, if◌then◌else◌, length, arith, u32,
  u32-id, sub32, some-injective, none≢some,
}
use clvk.KernelArgs.{Values, mark_enqueued, retain_resources, release_resources}

-- A command takes the values it is built with. `allocated` is whether the driver gives the
-- descriptor sets, which only the first of the commands asks for.
unfoldable pub build_with : Bool → Values → Bool × Values
build_with allocated v =
    let w = retain_resources v in
    if w.is_enqueued
    then (true, w)
    else if allocated
    then (true, mark_enqueued w)
    else (false, release_resources w)

-- What happens to the values: a command is built with them, or one that was is destroyed.
pub data Step : Type 0 where
  builds : Bool → Step
  ends : Step

unfoldable pub step : Step → Values → Values
step (builds allocated) v = (build_with allocated v).1
step ends v = release_resources v

unfoldable pub run_steps : List Step → Values → Values
run_steps [] v = v
run_steps (s ∷ ss) v = run_steps ss (step s v)

-- The number of commands that use the values: `none` if more are destroyed than were built.
unfoldable pub next_count : Step → ℕ → Option ℕ
next_count (builds allocated) n = if allocated || not (n == 0) then some (n + 1) else some n
next_count ends n = if n == 0 then none else some (n - 1)

unfoldable pub commands : List Step → ℕ → Option ℕ
commands [] n = some n
commands (s ∷ ss) n = elim (next_count s n) [ none ↦ none | some m ↦ commands ss m ]

-- Exactly `n` commands use the values.
abbrev pub InFlight : ℕ → Values → Type 0
InFlight n v = (v.descriptor_sets_refcount ≡ n) × (v.is_enqueued ≡ not (n == 0))

-- Taking one from a `uint32_t` that is not zero.
sub32_one : {k n : ℕ} → k ≡ n + 1 → n + 1 < 2 ^ 32 → sub32 k 1 ≡ n
sub32_one e h = omega arith

step-InFlight :
    (s : Step) (n m : ℕ) (v : Values)
    → next_count s n ≡ some m
    → n + 1 < 2 ^ 32
    → InFlight n v
    → InFlight m (step s v)
unfolding next_count step build_with mark_enqueued retain_resources release_resources
step-InFlight (builds allocated) n m v h room (count, used) =
    let up : u32 (v.descriptor_sets_refcount + 1) ≡ n + 1 = rw count (u32-id room) in
    let down : sub32 (n + 1) 1 ≡ n = sub32_one refl room in ground arith
step-InFlight ends zero m v h room inv = absurd (none≢some h)
step-InFlight ends (suc n) m v h room (count, used) =
    let down : sub32 v.descriptor_sets_refcount 1 ≡ n = sub32_one (omega arith) (omega arith) in
    let same : n ≡ m = ground arith in ground arith

next_count-le : (s : Step) (n m : ℕ) → next_count s n ≡ some m → m ≤ n + 1
unfolding next_count
next_count-le s n m h = ground arith

-- The count of the users and the mark of use stay exact, whatever is built, whether the driver
-- gives what it is asked for or not, and whatever is destroyed, as long as the count of all that
-- is built fits a `uint32_t`.
pub run_steps-InFlight :
    (ss : List Step) (n m : ℕ) (v : Values)
    → commands ss n ≡ some m
    → n + length ss < 2 ^ 32
    → InFlight n v
    → InFlight m (run_steps ss v)
unfolding commands run_steps
run_steps-InFlight [] n m v h room inv = subst (λ k. InFlight k v) (some-injective h) inv
run_steps-InFlight (s ∷ ss) n m v h room inv = elim (Option-cases (next_count s n)) [
  | inl p ↦ absurd (none≢some (rw (p, commands) at h))
  | inr (k, p) ↦
      let rest : commands ss k ≡ some m = rw (p, commands) at h in
      let bound = next_count-le s n k p in
      run_steps-InFlight ss k m (step s v) rest (omega arith)
        (step-InFlight s n k v p (omega arith) inv)
]
