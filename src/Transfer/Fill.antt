-- ===== src/Transfer/Fill.antt =====
-- `cvk_command_fill_buffer::do_action` of src/queue.cpp repeats its pattern.
use clvk.Common.{
  ℕ, zero, suc, ◌+◌, ◌-◌, ◌*◌, ◌%◌, ◌/◌, Bool-cases, ◌^◌, ◌<◌, ◌≤◌, lt→ltb, ◌≡◌, inl, inr, refl,
  sym, ap, ◌∙◌, true, false, some, arith, ltb, ◌==◌, u64, u64-id,
}
use native.Mathlib.Nat.{suc-mul, div-add-mod', div-lt_iff_lt-mul, mul-le-mul_left, mod-one, mod-lt}
use native.Mathlib.Decide.{ℕ_discrete}
use clvk.Codes.{success}
use clvk.Transfer.{Memory, memset, put_pattern, fill_loop, fill_buffer}
use clvk.Transfer.Jobs.{Outside}

-- `k` patterns of `n` bytes are in memory from `dst` on, and the rest is as in `m`.
abbrev Filled : ℕ → ℕ → ℕ → Memory → Memory → Memory → Type 0
Filled k n dst p m m' =
    ((q c : ℕ) → q < k → c < n → m' (dst + (q * n + c)) ≡ p c)
    × ((i : ℕ) → Outside (k * n) i dst → m' i ≡ m i)

step_back : (n dst q c : ℕ) → 0 < q → dst + n + ((q - 1) * n + c) ≡ dst + (q * n + c)
step_back n dst zero c h = absurd (omega arith)
step_back n dst (suc q) c h =
    let e = suc-mul q n in let f : suc q - 1 ≡ q = omega arith in rw f (omega arith)

put_pattern-in :
    (dst n c a : ℕ) (p m : Memory) → a ≡ dst + c → c < n → put_pattern dst p n m a ≡ p c
unfolding put_pattern
put_pattern-in dst n c a p m e h = let past : a - dst ≡ c = omega arith in ground arith

-- One pattern more before `k` patterns.
Filled-step :
    (k n dst : ℕ) (p m m' : Memory)
    → Filled k n (dst + n) p (put_pattern dst p n m) m'
    → Filled (suc k) n dst p m m'
unfolding put_pattern
Filled-step k n dst p m m' (inside, outside) = (
  (λ q c a b. elim (ℕ_discrete q 0) [
    | yes e ↦
        let at : dst + (q * n + c) ≡ dst + c = rw e (omega arith) in
        outside (dst + (q * n + c)) (omega arith) ∙ put_pattern-in dst n c _ p m at b
    | no d ↦
        let at : dst + n + ((q - 1) * n + c) ≡ dst + (q * n + c) =
          step_back n dst q c (omega (arith, d)) in
        ap m' (sym at) ∙ inside (q - 1) c (omega (arith, d)) b
  ]),
  (λ i h. let e = suc-mul k n in outside i (omega arith) ∙ ground arith),
)

fill_loop-Filled :
    (fuel k n dst end : ℕ) (p m : Memory)
    → k ≤ fuel
    → 0 < n
    → end ≡ dst + k * n
    → Filled k n dst p m (fill_loop fuel dst end p n m)
unfolding fill_loop
fill_loop-Filled zero k n dst end p m a b e = ((λ q c d. absurd (omega arith)), λ i h. refl)
fill_loop-Filled (suc fuel) zero n dst end p m a b e =
    let stops : ltb dst end ≡ false = ground arith in
    ((λ q c d. absurd (omega arith)), λ i h. rw stops refl)
fill_loop-Filled (suc fuel) (suc k) n dst end p m a b e =
    let s = suc-mul k n in
    let goes : ltb dst end ≡ true = lt→ltb dst end (omega arith) in
    let rest =
      fill_loop-Filled fuel k n (dst + n) end p (put_pattern dst p n m) (omega arith) b
        (omega arith) in
    rw goes (Filled-step k n dst p m _ rest)

div-lt : (k n i : ℕ) → 0 < n → i < k * n → i / n < k
div-lt k n i positive h = (div-lt_iff_lt-mul positive).1 h

-- `size` bytes from `begin` on repeat a pattern of `n` bytes, and the rest is as in `m`.
abbrev Repeats : ℕ → ℕ → ℕ → Memory → Memory → Memory → Type 0
Repeats begin size n p m m' =
    ((i : ℕ) → i < size → m' (begin + i) ≡ p (i % n))
    × ((i : ℕ) → Outside size i begin → m' i ≡ m i)

memset-Repeats :
    (begin size : ℕ) (p m : Memory) → Repeats begin size 1 p m (memset begin (p 0) size m)
unfolding memset
memset-Repeats begin size p m =
    ((λ i h. let e : i % 1 ≡ 0 = mod-one i in rw e (ground arith)), λ i h. ground arith)

Filled-Repeats :
    (k n begin : ℕ) (p m m' : Memory)
    → 0 < n
    → Filled k n begin p m m'
    → Repeats begin (k * n) n p m m'
Filled-Repeats k n begin p m m' positive (inside, outside) = (
  (λ i h.
      let split : i / n * n + i % n ≡ i = div-add-mod' i n in
      let few : i / n < k = div-lt k n i positive h in
      ap (λ a. m' (begin + a)) (sym split) ∙ inside (i / n) (i % n) few (mod-lt i positive)),
  outside,
)

-- A buffer that can be mapped and a whole number of patterns: the command completes, each byte of
-- the region is that of the pattern in its place, and no other byte changes.
pub fill_buffer_repeats :
    (host_va offset k n : ℕ) (p m : Memory)
    → 0 < n
    → host_va + offset + k * n < 2 ^ 64
    → let (e, m') = fill_buffer (some host_va) offset (k * n) p n m in
      (e ≡ success)
      × (((i : ℕ) → i < k * n → m' (host_va + offset + i) ≡ p (i % n))
          × ((i : ℕ) → Outside (k * n) i (host_va + offset) → m' i ≡ m i))
unfolding fill_buffer
fill_buffer_repeats host_va offset k n p m positive room =
    let begin : u64 (host_va + offset) ≡ host_va + offset = u64-id (omega arith) in
    let end : u64 (host_va + offset + k * n) ≡ host_va + offset + k * n = u64-id room in
    elim (Bool-cases (n == 1)) [
      | inl e ↦
          let one : n ≡ 1 = ground arith in
          rw (e, begin) (refl, rw one (memset-Repeats (host_va + offset) (k * 1) p m))
      | inr e ↦
          let grows : k * 1 ≤ k * n = mul-le-mul_left k positive in
          rw (e, begin, end)
            (
              refl,
              Filled-Repeats k n (host_va + offset) p m _ positive (
                  fill_loop-Filled (k * n) k n (host_va + offset) (host_va + offset + k * n) p m
                    (omega arith) positive refl),
            )
    ]
