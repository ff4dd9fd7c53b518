-- ===== src/Executor/Extract.antt =====
-- What `extract_cmds_required_by` takes from a thread and what it leaves.
use clvk.Common.{
  ℕ, ◌≡◌, ◌⊎◌, inl, inr, refl, sym, ap, subst, Bool, true, false, ◌&&◌, List, [], ◌∷◌, ◌++◌,
  if◌then◌else◌, Bool-cases, arith, All,
}
use clvk.Executor.{
  Cmd, Executor, is_required, Walk, before_walk, visit, walk_group, walk_groups, completed, leave,
  extract_from, extract,
}

abbrev pub flat : List (List Cmd) → List Cmd
flat [] = []
flat (g ∷ gs) = g ++ flat gs

-- Whether a command of the taken part stays with the thread.
abbrev pub stays : Bool → Cmd → Bool
stays only c = c.is_batch && only

abbrev pub staying : Bool → List Cmd → List Cmd
staying only [] = []
staying only (c ∷ cs) = if stays only c then c ∷ staying only cs else staying only cs

abbrev pub leaving : Bool → List Cmd → List Cmd
leaving only [] = []
leaving only (c ∷ cs) = if stays only c then leaving only cs else c ∷ leaving only cs

-- A list without a command that is required, and one whose last command is.
abbrev pub NoneRequired : List ℕ → List Cmd → Type 0
NoneRequired events cs = All (λ c. is_required events c.event ≡ false) cs

abbrev pub ends_required : List ℕ → List Cmd → Bool
ends_required events [] = false
ends_required events (c ∷ []) = is_required events c.event
ends_required events (c ∷ (d ∷ cs)) = ends_required events (d ∷ cs)

abbrev walked : Bool → List Cmd → List Cmd → Walk
walked d kept out = record { dominated = d; executor_cmds = kept; output = out }

-- `IsWalk only events cs w`: the loops have been through the commands `cs`, which fall into the
-- part up to the last required command, and a rest that is not required.
data IsWalk (only : Bool) (events : List ℕ) : List Cmd → Walk → Type 0 where
  undominated :
      (cs : List Cmd) → NoneRequired events cs → IsWalk only events cs (walked false cs [])
  dominated :
      (taken rest : List Cmd)
      → ends_required events taken ≡ true
      → NoneRequired events rest
      → IsWalk only events
          (taken ++ rest)
          (walked true (staying only taken ++ rest) (leaving only taken))

ends_required-cons :
    (events : List ℕ) (c : Cmd) (cs : List Cmd)
    → ends_required events cs ≡ true
    → ends_required events (c ∷ cs) ≡ true
ends_required-cons events c [] h = ground arith
ends_required-cons events c (d ∷ cs) h = h

module _ (only : Bool) (events : List ℕ) (c : Cmd) where
  visit-undominated :
      (cs : List Cmd)
      → is_required events c.event ≡ false
      → visit only events c (walked false cs []) ≡ walked false (c ∷ cs) []
  unfolding visit
  visit-undominated cs h = ground arith

  visit-required :
      (cs : List Cmd)
      → is_required events c.event ≡ true
      → visit only events c (walked false cs [])
        ≡ walked true (staying only (c ∷ []) ++ cs) (leaving only (c ∷ []))
  unfolding visit
  visit-required cs h = ground arith

  visit-dominated :
      (taken rest : List Cmd)
      → visit only events c (walked true (staying only taken ++ rest) (leaving only taken))
        ≡ walked true (staying only (c ∷ taken) ++ rest) (leaving only (c ∷ taken))
  unfolding visit
  visit-dominated taken rest = ground arith

  visit-IsWalk :
      {cs : List Cmd} {w : Walk}
      → IsWalk only events cs w
      → IsWalk only events (c ∷ cs) (visit only events c w)
  visit-IsWalk (undominated cs h) = elim (Bool-cases (is_required events c.event)) [
    | inl p ↦
        subst (IsWalk only events (c ∷ cs)) (sym (visit-required cs p)) (dominated (c ∷ []) cs p h)
    | inr p ↦
        subst (IsWalk only events (c ∷ cs)) (sym (visit-undominated cs p))
          (undominated (c ∷ cs) (p, h))
  ]
  visit-IsWalk (dominated taken rest e h) =
      subst (IsWalk only events (c ∷ (taken ++ rest))) (sym (visit-dominated taken rest))
        (dominated (c ∷ taken) rest (ends_required-cons events c taken e) h)

module _ (only : Bool) (events : List ℕ) where
  walk_group-IsWalk :
      (g : List Cmd) {cs : List Cmd} {w : Walk}
      → IsWalk only events cs w
      → IsWalk only events (g ++ cs) (walk_group only events g w)
  unfolding walk_group
  walk_group-IsWalk [] h = h
  walk_group-IsWalk (c ∷ g) h = visit-IsWalk only events c (walk_group-IsWalk g h)

  walk_groups-IsWalk :
      (gs : List (List Cmd)) → IsWalk only events (flat gs) (walk_groups only events gs before_walk)
  unfolding walk_groups
  walk_groups-IsWalk [] = undominated [] tt
  walk_groups-IsWalk (g ∷ gs) = walk_group-IsWalk g (walk_groups-IsWalk gs)

-- How a list of commands is shared out between the output and the thread.
pub record Split (only : Bool) (events : List ℕ) (cs out kept : List Cmd) : Type 0 where
  pub taken : List Cmd
  pub rest : List Cmd
  pub parts : cs ≡ taken ++ rest
  pub output_leaves : out ≡ leaving only taken
  pub executor_keeps : kept ≡ staying only taken ++ rest
  pub rest_free : NoneRequired events rest
  pub last_taken : (taken ≡ []) ⊎ (ends_required events taken ≡ true)

walk-Split :
    {only : Bool} {events : List ℕ} {cs : List Cmd} {w : Walk}
    → IsWalk only events cs w
    → Split only events cs w.output w.executor_cmds
walk-Split (undominated cs h) = record {
  taken = [];
  rest = cs;
  parts = refl;
  output_leaves = refl;
  executor_keeps = refl;
  rest_free = h;
  last_taken = inl refl;
}
walk-Split (dominated taken rest e h) = record {
  taken = taken;
  rest = rest;
  parts = refl;
  output_leaves = refl;
  executor_keeps = refl;
  rest_free = h;
  last_taken = inr e;
}

append-none : (cs : List Cmd) → cs ++ [] ≡ cs
append-none [] = refl
append-none (c ∷ cs) = ap (λ xs. c ∷ xs) (append-none cs)

flat-leave : (cs : List Cmd) (n : ℕ) → flat (leave cs n).groups ≡ cs
unfolding leave
flat-leave [] n = refl
flat-leave (c ∷ cs) n = append-none (c ∷ cs)

extract_walk :
    (only : Bool) (events : List ℕ) (gs : List (List Cmd)) (n : ℕ)
    → ((extract_from only events gs n).0 ≡ (walk_groups only events gs before_walk).output)
      × (flat (extract_from only events gs n).1.groups
          ≡ (walk_groups only events gs before_walk).executor_cmds)
unfolding extract_from walk_groups
extract_walk only events [] n = (refl, refl)
extract_walk only events (g ∷ gs) n = (
  refl,
  flat-leave (walk_groups only events (g ∷ gs) before_walk).executor_cmds (completed (g ∷ gs) n),
)

-- What is taken from a thread and what it keeps, of the commands of all its groups in order: they
-- fall into a part that is empty or ends with a required command, and a rest with none. Taken are
-- the commands of the first part, in order, but for batches when only others are asked for; the
-- thread keeps those batches and the rest, in order.
pub extract-Split :
    (only : Bool) (events : List ℕ) (x : Executor)
    → Split only events
        (flat x.groups)
        (extract only events x).0
        (flat (extract only events x).1.groups)
unfolding extract
extract-Split only events x =
    let (p, q) = extract_walk only events x.groups x.nb_group_in_flight in
    rw (p, q) (walk-Split (walk_groups-IsWalk only events x.groups))
