-- ===== src/Mapping/Runs.antt =====
-- What a user of a chain of memory objects can rely on, after any maps and unmaps.
use clvk.Common.{
  ℕ, zero, suc, ◌+◌, ◌-◌, ◌^◌, ◌<◌, ◌≡◌, inl, inr, refl, Bool, true, List, [], ◌∷◌, Option, none,
  some, ◌==◌, get_or, length, arith, All, Bool-cases,
}
use clvk.Mapping.{Chain, host_va, map_at}
use clvk.Mapping.Counts.{Holds, Small, address, one_if, Holds-host_va}
use clvk.Mapping.Users.{
  add_user, drop_user, MapStep, maps, unmaps, map_step, run_maps, shift_back, map_at-Holds,
  unmap_at-Holds,
}

-- `n` more maps leave room in every count.
abbrev pub Room : ℕ → List ℕ → Type 0
Room n us = All (λ u. u + n + 2 < 2 ^ 32) us

Room-Small : (n : ℕ) (us : List ℕ) → Room n us → Small us
Room-Small n [] h = tt
Room-Small n (u ∷ us) (h, hs) = (omega arith, Room-Small n us hs)

Room-same : (n : ℕ) (us : List ℕ) → Room (suc n) us → Room n us
Room-same n [] h = tt
Room-same n (u ∷ us) (h, hs) = (omega arith, Room-same n us hs)

add_user-Room : (n k : ℕ) (us : List ℕ) → Room (suc n) us → Room n (add_user k us)
unfolding add_user
add_user-Room n k [] h = tt
add_user-Room n zero (u ∷ us) (h, hs) = (omega arith, Room-same n us hs)
add_user-Room n (suc k) (u ∷ us) (h, hs) = (omega arith, add_user-Room n k us hs)

drop_user-Room : (n k : ℕ) (us : List ℕ) → Room (suc n) us → Room n (drop_user k us)
unfolding drop_user
drop_user-Room n k [] h = tt
drop_user-Room n zero (u ∷ us) (h, hs) = (omega arith, Room-same n us hs)
drop_user-Room n (suc k) (u ∷ us) (h, hs) = (omega arith, drop_user-Room n k us hs)

map_step-Holds :
    (s : MapStep) (n : ℕ) (us : List ℕ) (c : Chain)
    → Room (suc n) us
    → Holds 0 us c
    → Room n (map_step s (us, c)).0 × Holds 0 (map_step s (us, c)).0 (map_step s (us, c)).1
unfolding map_step
map_step-Holds (maps k ok) n us c room inv =
    let kept = map_at-Holds k ok 0 us c (omega arith) (Room-Small (suc n) us room) inv in
    elim (Bool-cases (map_at k ok c).0) [
      | inl e ↦
          let held : Holds 0 (add_user k us) (map_at k ok c).1 = rw e at kept in
          rw e (add_user-Room n k us room, held)
      | inr e ↦
          let held : Holds 0 us (map_at k ok c).1 = rw e at kept in rw e (Room-same n us room, held)
    ]
map_step-Holds (unmaps k) n us c room inv = elim (Bool-cases (get_or us k 0 == 0)) [
  | inl e ↦ rw e (Room-same n us room, inv)
  | inr e ↦
      let has : 0 < get_or us k 0 = ground arith in
      rw e (
        drop_user-Room n k us room,
        unmap_at-Holds k 0 us c (omega arith) (Room-Small (suc n) us room) has inv,
      )
]

-- The object `k` places up the chain.
unfoldable pub object_at : ℕ → Chain → Option Chain
object_at zero c = some c
object_at (suc k) (Chain.root a l) = none
object_at (suc k) (Chain.sub o l p) = object_at k p

-- Whether the driver has the memory of a chain mapped.
unfoldable pub driver_maps : Chain → Bool
driver_maps (Chain.root a l) = a.mapped
driver_maps (Chain.sub o l p) = driver_maps p

-- An object that a user has mapped is where it should be, in memory that is mapped.
abbrev pub Usable : ℕ → Chain → Type 0
Usable k c =
    (d : Chain) × ((object_at k c ≡ some d)
      × ((host_va d ≡ some (address d)) × (driver_maps c ≡ true)))

driver_maps-held : (b : ℕ) (us : List ℕ) (c : Chain) → 0 < b → Holds b us c → driver_maps c ≡ true
unfolding Holds driver_maps
driver_maps-held b [] c h inv = elim inv [ ]
driver_maps-held b (u ∷ us) (Chain.root a l) h (alone, (count, (kept, (on, off)))) =
    on (omega arith)
driver_maps-held b (u ∷ us) (Chain.sub o l p) h (count, inv) =
    driver_maps-held (one_if (b + u)) us p (ground arith) inv

Holds-Usable : (b k : ℕ) (us : List ℕ) (c : Chain) → 0 < get_or us k 0 → Holds b us c → Usable k c
unfolding object_at Holds driver_maps
Holds-Usable b k [] c h inv = elim inv [ ]
Holds-Usable b zero (u ∷ us) c h inv =
    let held = shift_back b u us c h inv in
    (
      c,
      (
        refl,
        (
          Holds-host_va (b + 1) ((u - 1) ∷ us) c (omega arith) held,
          driver_maps-held (b + 1) ((u - 1) ∷ us) c (omega arith) held,
        ),
      ),
    )
Holds-Usable b (suc k) (u ∷ us) (Chain.root a l) h (alone, rest) =
    let none_there : get_or us k 0 ≡ 0 = rw alone refl in absurd (omega arith)
Holds-Usable b (suc k) (u ∷ us) (Chain.sub o l p) h (count, inv) =
    Holds-Usable (one_if (b + u)) k us p h inv

run_maps-held :
    (ss : List MapStep) (us : List ℕ) (c : Chain)
    → Room (length ss) us
    → Holds 0 us c
    → Holds 0 (run_maps ss (us, c)).0 (run_maps ss (us, c)).1
unfolding run_maps
run_maps-held [] us c room inv = inv
run_maps-held (s ∷ ss) us c room inv =
    let (room', inv') = map_step-Holds s (length ss) us c room inv in
    run_maps-held ss (map_step s (us, c)).0 (map_step s (us, c)).1 room' inv'

-- Users map and unmap a buffer and the sub-buffers and images on it in any order, and the driver
-- may fail: as long as no count overflows, the counts stay exact, and every object that a user
-- still has mapped is at its address, in memory that the driver has mapped.
pub run_maps-Holds :
    (ss : List MapStep) (us : List ℕ) (c : Chain)
    → Room (length ss) us
    → Holds 0 us c
    → let (us', c') = run_maps ss (us, c) in
      Holds 0 us' c' × ((k : ℕ) → 0 < get_or us' k 0 → Usable k c')
run_maps-Holds ss us c room inv =
    let held = run_maps-held ss us c room inv in (held, λ k has. Holds-Usable 0 k _ _ has held)
