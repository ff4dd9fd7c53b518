-- ===== src/Mapping/Users.antt =====
-- Maps and unmaps of the objects of a chain, in any order, by users that unmap what they mapped.
use clvk.Common.{
  ℕ, zero, suc, ◌+◌, ◌-◌, ◌<◌, ◌≤◌, ◌≡◌, inl, inr, refl, Bool, List, [], ◌∷◌, ◌==◌, if◌then◌else◌,
  get_or, arith, Bool-cases,
}
use clvk.Mapping.{Chain, map_memory, map_at, unmap_at}
use clvk.Mapping.Counts.{
  Holds, Small, address, one_if, map_memory-Holds, unmap_memory-Holds, map_memory-address,
  unmap_memory-address,
}

unfoldable pub add_user : ℕ → List ℕ → List ℕ
add_user k [] = []
add_user zero (u ∷ us) = suc u ∷ us
add_user (suc k) (u ∷ us) = u ∷ add_user k us

unfoldable pub drop_user : ℕ → List ℕ → List ℕ
drop_user k [] = []
drop_user zero (u ∷ us) = (u - 1) ∷ us
drop_user (suc k) (u ∷ us) = u ∷ drop_user k us

-- A call for the object `k` places up the chain; the Boolean is whether the driver can map.
pub data MapStep : Type 0 where
  maps : ℕ → Bool → MapStep
  unmaps : ℕ → MapStep

-- A user counts a map that succeeds, and unmaps only where there is one.
unfoldable pub map_step : MapStep → List ℕ × Chain → List ℕ × Chain
map_step (maps k ok) (us, c) = let r = map_at k ok c in (if r.0 then add_user k us else us, r.1)
map_step (unmaps k) (us, c) = if get_or us k 0 == 0 then (us, c) else (drop_user k us, unmap_at k c)

unfoldable pub run_maps : List MapStep → List ℕ × Chain → List ℕ × Chain
run_maps [] x = x
run_maps (s ∷ ss) x = run_maps ss (map_step s x)

-- A map of the caller's is one of a user's.
pub shift : (b u : ℕ) (us : List ℕ) (c : Chain) → Holds (b + 1) (u ∷ us) c → Holds b (suc u ∷ us) c
unfolding Holds
shift b u us (Chain.root a l) h = let e : b + 1 + u ≡ b + suc u = omega arith in rw e at h
shift b u us (Chain.sub o l p) h = let e : b + 1 + u ≡ b + suc u = omega arith in rw e at h

pub shift_back :
    (b u : ℕ) (us : List ℕ) (c : Chain)
    → 0 < u
    → Holds b (u ∷ us) c
    → Holds (b + 1) ((u - 1) ∷ us) c
unfolding Holds
shift_back b u us (Chain.root a l) p h = let e : b + u ≡ b + 1 + (u - 1) = omega arith in rw e at h
shift_back b u us (Chain.sub o l q) p h = let e : b + u ≡ b + 1 + (u - 1) = omega arith in rw e at h

map_at-address : (k : ℕ) (ok : Bool) (c : Chain) → address (map_at k ok c).1 ≡ address c
unfolding map_at address
map_at-address zero ok c = map_memory-address ok c
map_at-address (suc k) ok (Chain.root a l) = refl
map_at-address (suc k) ok (Chain.sub o l p) = rw (map_at-address k ok p) refl

unmap_at-address : (k : ℕ) (c : Chain) → address (unmap_at k c) ≡ address c
unfolding unmap_at address
unmap_at-address zero c = unmap_memory-address c
unmap_at-address (suc k) (Chain.root a l) = refl
unmap_at-address (suc k) (Chain.sub o l p) = rw (unmap_at-address k p) refl

pub map_at-Holds :
    (k : ℕ) (ok : Bool) (b : ℕ) (us : List ℕ) (c : Chain)
    → b ≤ 1
    → Small us
    → Holds b us c
    → Holds b (if (map_at k ok c).0 then add_user k us else us) (map_at k ok c).1
unfolding map_at add_user Holds
map_at-Holds k ok b [] c h s inv = elim inv [ ]
map_at-Holds zero ok b (u ∷ us) c h s inv =
    let done = map_memory-Holds ok b (u ∷ us) c h s inv in
    elim (Bool-cases (map_memory ok c).0) [
      | inl e ↦
          let one_more : Holds (b + 1) (u ∷ us) (map_memory ok c).1 = rw e at done in
          rw e (shift b u us (map_memory ok c).1 one_more)
      | inr e ↦ let same : Holds b (u ∷ us) (map_memory ok c).1 = rw e at done in rw e same
    ]
map_at-Holds (suc k) ok b (u ∷ us) (Chain.root a l) h s inv = inv
map_at-Holds (suc k) ok b (u ∷ us) (Chain.sub o l p) h (s, ss) (count, inv) =
    let rest = map_at-Holds k ok (one_if (b + u)) us p (ground arith) ss inv in
    let same = map_at-address k ok p in
    elim (Bool-cases (map_at k ok p).0) [
      | inl e ↦
          let held : Holds (one_if (b + u)) (add_user k us) (map_at k ok p).1 = rw e at rest in
          rw (e, same) (count, held)
      | inr e ↦
          let held : Holds (one_if (b + u)) us (map_at k ok p).1 = rw e at rest in
          rw (e, same) (count, held)
    ]

pub unmap_at-Holds :
    (k b : ℕ) (us : List ℕ) (c : Chain)
    → b ≤ 1
    → Small us
    → 0 < get_or us k 0
    → Holds b us c
    → Holds b (drop_user k us) (unmap_at k c)
unfolding unmap_at drop_user Holds
unmap_at-Holds k b [] c h s has inv = elim inv [ ]
unmap_at-Holds zero b (u ∷ us) c h (s, ss) has inv =
    unmap_memory-Holds b ((u - 1) ∷ us) c h (omega arith, ss) (shift_back b u us c has inv)
unmap_at-Holds (suc k) b (u ∷ us) (Chain.root a l) h (s, ss) has (alone, rest) =
    let none_there : get_or us k 0 ≡ 0 = rw alone refl in absurd (omega arith)
unmap_at-Holds (suc k) b (u ∷ us) (Chain.sub o l p) h (s, ss) has (count, inv) =
    let rest = unmap_at-Holds k (one_if (b + u)) us p (ground arith) ss has inv in
    rw (unmap_at-address k p) (count, rest)
