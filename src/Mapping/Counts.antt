-- ===== src/Mapping/Counts.antt =====
-- The counts of the maps are exact along a chain of memory objects.
use clvk.Common.{
  ℕ, ◌+◌, ◌^◌, ◌<◌, ◌≤◌, ◌≡◌, ◌⊎◌, inl, inr, refl, Bool, true, false, List, [], ◌∷◌, none, some,
  ◌==◌, if◌then◌else◌, u32, sub32, u64, u32-id, arith, All, Bool-cases,
}
use clvk.Mapping.{
  Allocation, Level, Chain, map_allocation, unmap_allocation, host_va, map_memory, unmap_memory,
}

-- Where an object is, once it is mapped.
unfoldable pub address : Chain → ℕ
address (Chain.root a l) = a.base
address (Chain.sub o l p) = u64 (address p + o)

-- The driver keeps the memory mapped that was, if it is to be kept, and no other that no object
-- has mapped.
abbrev pub Kept : Allocation → Type 0
Kept a =
    (a.map_ptr ≡ none) ⊎ ((a.map_ptr ≡ some a.base) × (a.keep_mapping ≡ true → a.mapped ≡ true))

-- A level whose maps are `n`.
abbrev pub Counted : ℕ → Level → ℕ → Type 0
Counted n l at = (l.map_count ≡ n) × (0 < n → l.map_ptr ≡ some at)

abbrev pub one_if : ℕ → ℕ
one_if n = if n == 0 then 0 else 1

-- The maps of an object are those of its users, the first of the list with an entry for each, and
-- one if an object above it is mapped (`b` for the first of the chain). An object that is mapped is
-- at its address, and the driver maps the memory exactly then, but for memory that it is to keep
-- mapped.
unfoldable pub Holds : ℕ → List ℕ → Chain → Type 0
Holds b [] c = ⊥
Holds b (u ∷ us) (Chain.root a l) =
    (us ≡ [])
    × (Counted (b + u) l a.base
        × (Kept a
            × ((0 < b + u → a.mapped ≡ true)
                × (a.keep_mapping ≡ false → b + u ≡ 0 → a.mapped ≡ false))))
Holds b (u ∷ us) (Chain.sub o l p) =
    Counted (b + u) l (u64 (address p + o)) × Holds (one_if (b + u)) us p

-- No count comes near the end of a `uint32_t`.
abbrev pub Small : List ℕ → Type 0
Small = All (λ u. u + 2 < 2 ^ 32)

pub map_memory-address : (ok : Bool) (c : Chain) → address (map_memory ok c).1 ≡ address c
unfolding address map_memory map_allocation
map_memory-address ok (Chain.root a l) = ground arith
map_memory-address ok (Chain.sub o l p) = let e = map_memory-address ok p in ground arith

pub unmap_memory-address : (c : Chain) → address (unmap_memory c) ≡ address c
unfolding address unmap_memory unmap_allocation
unmap_memory-address (Chain.root a l) = ground arith
unmap_memory-address (Chain.sub o l p) = let e = unmap_memory-address p in ground arith

pub Holds-host_va :
    (b : ℕ) (us : List ℕ) (c : Chain) → 0 < b → Holds b us c → host_va c ≡ some (address c)
unfolding Holds host_va address
Holds-host_va b [] c h inv = elim inv [ ]
Holds-host_va b (u ∷ us) (Chain.root a l) h (alone, (count, rest)) = count.1 (omega arith)
Holds-host_va b (u ∷ us) (Chain.sub o l p) h (count, rest) = count.1 (omega arith)

-- The first map of a sub-buffer, when its parent has been asked for one.
sub_mapped :
    (ok : Bool) (o u b : ℕ) (us : List ℕ) (l : Level) (p : Chain)
    → (l.map_count == 0) ≡ true
    → b ≡ 0
    → u ≡ 0
    → u32 (l.map_count + 1) ≡ b + u + 1
    → Counted (b + u) l (u64 (address p + o))
    → Holds (if (map_memory ok p).0 then 0 + 1 else 0) us (map_memory ok p).1
    → Holds
        (if (map_memory ok (Chain.sub o l p)).0 then b + 1 else b)
        (u ∷ us)
        (map_memory ok (Chain.sub o l p)).1
unfolding Holds map_memory
sub_mapped ok o u b us l p z b_zero u_zero up count rest = elim (Bool-cases (map_memory ok p).0) [
  | inl e ↦
      let held : Holds 1 us (map_memory ok p).1 = rw e at rest in
      let there = Holds-host_va 1 us (map_memory ok p).1 (omega arith) held in
      let same = map_memory-address ok p in
      rw (z, e, there, same, b_zero, u_zero) ((omega (arith, up), λ _. refl), held)
  | inr e ↦
      let held : Holds 0 us (map_memory ok p).1 = rw e at rest in
      let same = map_memory-address ok p in
      rw (z, e, same, b_zero, u_zero) ((ground arith, λ k. absurd (omega arith)), held)
]

-- A map adds one for its caller if it succeeds, and nothing if not.
pub map_memory-Holds :
    (ok : Bool) (b : ℕ) (us : List ℕ) (c : Chain)
    → b ≤ 1
    → Small us
    → Holds b us c
    → Holds (if (map_memory ok c).0 then b + 1 else b) us (map_memory ok c).1
unfolding Holds map_memory map_allocation
map_memory-Holds ok b [] c h s inv = elim inv [ ]
map_memory-Holds ok b (u ∷ us) (Chain.root a l) h (s, ss) (alone, (count, (kept, driver))) =
    let up : u32 (l.map_count + 1) ≡ b + u + 1 = rw count.0 (u32-id (omega arith)) in ground arith
map_memory-Holds ok b (u ∷ us) (Chain.sub o l p) h (s, ss) (count, inv) =
    let up : u32 (l.map_count + 1) ≡ b + u + 1 = rw count.0 (u32-id (omega arith)) in
    elim (Bool-cases (l.map_count == 0)) [
      | inl z ↦
          let none_yet : b + u ≡ 0 = ground arith in
          let b_zero : b ≡ 0 = omega arith in
          let u_zero : u ≡ 0 = omega arith in
          let again : Holds 0 us p = rw none_yet at inv in
          let rest = map_memory-Holds ok 0 us p (omega arith) ss again in
          sub_mapped ok o u b us l p z b_zero u_zero up count rest
      | inr z ↦
          let some_yet : one_if (b + u) ≡ 1 = ground arith in
          let more : one_if (b + 1 + u) ≡ 1 = ground arith in
          let held : Holds 1 us p = rw some_yet at inv in
          rw z (
            (
              (omega (arith, up)),
              (let held_once : 0 < b + u = ground arith in λ _. count.1 held_once),
            ),
            rw more held,
          )
    ]

sub32_one : {k n : ℕ} → k ≡ n + 1 → n + 1 < 2 ^ 32 → sub32 k 1 ≡ n
sub32_one e h = omega arith

-- An unmap takes away the one that its caller has.
pub unmap_memory-Holds :
    (b : ℕ) (us : List ℕ) (c : Chain)
    → b ≤ 1
    → Small us
    → Holds (b + 1) us c
    → Holds b us (unmap_memory c)
unfolding Holds unmap_memory unmap_allocation
unmap_memory-Holds b [] c h s inv = elim inv [ ]
unmap_memory-Holds b (u ∷ us) (Chain.root a l) h (s, ss) (alone, (count, (kept, driver))) =
    let down : sub32 l.map_count 1 ≡ b + u = sub32_one (omega (arith, count.0)) (omega arith) in
    ground arith
unmap_memory-Holds b (u ∷ us) (Chain.sub o l p) h (s, ss) (count, inv) =
    let down : sub32 l.map_count 1 ≡ b + u = sub32_one (omega (arith, count.0)) (omega arith) in
    let was : one_if (b + 1 + u) ≡ 1 = ground arith in
    let held : Holds 1 us p = rw was at inv in
    let there : l.map_ptr ≡ some (u64 (address p + o)) = count.1 (omega arith) in
    elim (Bool-cases (sub32 l.map_count 1 == 0)) [
      | inl z ↦
          let rest = unmap_memory-Holds 0 us p (omega arith) ss held in
          let same = unmap_memory-address p in
          let last : one_if (b + u) ≡ 0 = ground arith in
          rw (z, same, last) ((down, λ _. there), rest)
      | inr z ↦
          let more : one_if (b + u) ≡ 1 = ground arith in rw (z, more) ((down, λ _. there), held)
    ]
