-- ===== src/Executor/Pool.antt =====
-- The pool of executor threads.
use clvk.Common.{ℕ, ◌≡◌, refl, Bool, true, false, List, [], ◌∷◌, ◌&&◌, ◌||◌, arith, All}
use clvk.Executor.{PoolState, free, bound, find_free, get_executor}

abbrev pub is_free : PoolState → Bool
is_free free = true
is_free bound = false

-- Whether the pool has a thread that is free and idle.
abbrev pub some_ready : (ℕ → Bool) → List (ℕ × PoolState) → Bool
some_ready idle [] = false
some_ready idle ((x, s) ∷ xs) = is_free s && idle x || some_ready idle xs

abbrev pub AllBound : List (ℕ × PoolState) → Type 0
AllBound xs = All (λ (x : ℕ × PoolState). is_free x.1 ≡ false) xs

find_free-AllBound :
    (idle : ℕ → Bool) (xs : List (ℕ × PoolState))
    → some_ready idle xs ≡ false
    → ((find_free idle xs).0 ≡ []) × AllBound (find_free idle xs).1
unfolding find_free
find_free-AllBound idle [] h = (refl, tt)
find_free-AllBound idle ((x, bound) ∷ xs) h =
    let (p, q) = find_free-AllBound idle xs (ground arith) in (p, (refl, q))
find_free-AllBound idle ((x, free) ∷ xs) h =
    let (p, q) = find_free-AllBound idle xs (ground arith) in
    let busy : idle x ≡ false = ground arith in rw busy (p, (refl, q))

-- When no thread of the pool is both free and idle, a fresh thread is bound, and no thread of the
-- pool is free afterwards: the free ones that were busy have been marked as bound, to no queue.
pub get_executor_binds_all :
    (idle : ℕ → Bool) (fresh : ℕ) (pool : List (ℕ × PoolState))
    → some_ready idle pool ≡ false
    → ((get_executor idle fresh pool).0 ≡ fresh) × AllBound (get_executor idle fresh pool).1
unfolding get_executor
get_executor_binds_all idle fresh pool h =
    let (p, q) = find_free-AllBound idle pool h in rw (p, get_executor) (refl, (refl, q))
