-- ===== src/KernelArgs/Sets.antt =====
-- Which arguments count as set.
use clvk.Common.{
  ℕ, zero, suc, ◌<◌, ◌≡◌, ◌≢◌, ◌↔◌, inl, inr, refl, sym, ◌∙◌, Bool, true, false, ◌&&◌, ◌||◌, List,
  [], ◌∷◌, arith, ◌==◌, length, length-set, set, get_or, replicate, length-replicate, Bool-cases,
}
use clvk.Codes.{Code, success}
use clvk.KernelArgs.{
  Arg, Value, Values, Entry, create, set_arg, set_pointer_arg, set_pod_arg, set_local_arg,
  set_sampler_arg, set_mem_arg, set_pod_data, args_valid, all_true,
}

abbrev Marks : Arg → Values → Code × Values → Type 0
Marks a v r = (r.0 ≡ success → r.1.args_set ≡ set v.args_set a.pos true) × (r.0 ≢ success → r.1 ≡ v)

module _ (a : Arg) (size : ℕ) (x : Value) (v : Values) where
  pointer-Marks : Marks a v (set_pointer_arg a size x v)
  unfolding set_pointer_arg set_pod_data
  pointer-Marks = ground arith

  pod-Marks : Marks a v (set_pod_arg a size x v)
  unfolding set_pod_arg set_pod_data
  pod-Marks = ground arith

  local-Marks : Marks a v (set_local_arg a size v)
  unfolding set_local_arg
  local-Marks = ground arith

  sampler-Marks : Marks a v (set_sampler_arg a x v)
  unfolding set_sampler_arg
  sampler-Marks = ground arith

  mem-Marks : Marks a v (set_mem_arg a x v)
  unfolding set_mem_arg
  mem-Marks = ground arith

  -- A call that succeeds marks its argument as set, and no other; one that fails changes nothing.
  pub set_arg-Marks : Marks a v (set_arg a size x v)
  unfolding set_arg
  set_arg-Marks =
      let p = pointer-Marks in
      let q = pod-Marks in
      let l = local-Marks in let s = sampler-Marks in let m = mem-Marks in ground arith

-- A call of the program: the argument, the size and the value.
pub record Call : Type 0 where
  pub arg : Arg
  pub size : ℕ
  pub value : Value

-- The values after some calls, and the positions of those that succeeded.
abbrev pub run : List Call → Values → Values
run [] v = v
run (c ∷ cs) v = run cs (set_arg c.arg c.size c.value v).1

abbrev succeeded : Code → Bool
succeeded success = true
succeeded e = false

abbrev pub set_by : List Call → Values → ℕ → Bool
set_by [] v i = false
set_by (c ∷ cs) v i =
    succeeded (set_arg c.arg c.size c.value v).0 && c.arg.pos == i
    || set_by cs (set_arg c.arg c.size c.value v).1 i

get_or-set :
    (bs : List Bool) (p i : ℕ)
    → i < length bs
    → get_or (set bs p true) i false ≡ (get_or bs i false || p == i)
get_or-set [] p i h = absurd (omega arith)
get_or-set (b ∷ bs) zero zero h = ground arith
get_or-set (b ∷ bs) zero (suc i) h = ground arith
get_or-set (b ∷ bs) (suc p) zero h = ground arith
get_or-set (b ∷ bs) (suc p) (suc i) h = ground (arith, get_or-set bs p i)

succeeded_iff : (e : Code) → (succeeded e ≡ true) ↔ (e ≡ success)
succeeded_iff success = ground arith
succeeded_iff e = ground arith

-- What one call does to a position.
step_set :
    (c : Call) (v : Values) (i : ℕ)
    → i < length v.args_set
    → let r = set_arg c.arg c.size c.value v in
      (get_or r.1.args_set i false
        ≡ (get_or v.args_set i false || (succeeded r.0 && c.arg.pos == i)))
      × (length r.1.args_set ≡ length v.args_set)
step_set c v i h =
    let r = set_arg c.arg c.size c.value v in
    let (good, bad) = set_arg-Marks c.arg c.size c.value v in
    let marked = get_or-set v.args_set c.arg.pos i h in
    let same = length-set v.args_set c.arg.pos true in
    elim (Bool-cases (succeeded r.0)) [
      | inl ok ↦ let e = good ((succeeded_iff r.0).0 ok) in (rw (e, ok) marked, rw e same)
      | inr ko ↦
          let e = bad (λ p. ground (arith, succeeded_iff r.0)) in
          (rw (e, ko) (ground arith), rw e refl)
    ]

run_set :
    (cs : List Call) (v : Values) (i : ℕ)
    → i < length v.args_set
    → get_or (run cs v).args_set i false ≡ (get_or v.args_set i false || set_by cs v i)
run_set [] v i h = ground arith
run_set (c ∷ cs) v i h =
    let (here, same) = step_set c v i h in
    let rest = run_set cs (set_arg c.arg c.size c.value v).1 i (omega (arith, same)) in ground arith

length-run : (cs : List Call) (v : Values) → length (run cs v).args_set ≡ length v.args_set
length-run [] v = refl
length-run (c ∷ cs) v =
    let r = set_arg c.arg c.size c.value v in
    let (good, bad) = set_arg-Marks c.arg c.size c.value v in
    let same = length-set v.args_set c.arg.pos true in
    let here : length r.1.args_set ≡ length v.args_set = elim (Bool-cases (succeeded r.0)) [
      | inl ok ↦ let e = good ((succeeded_iff r.0).0 ok) in rw e same
      | inr ko ↦ let e = bad (λ p. ground (arith, succeeded_iff r.0)) in rw e refl
    ] in
    length-run cs r.1 ∙ here

all_true-get :
    (bs : List Bool) → all_true bs ≡ true → (i : ℕ) → i < length bs → get_or bs i false ≡ true
unfolding all_true
all_true-get [] h i lt = absurd (omega arith)
all_true-get (b ∷ bs) h zero lt = ground arith
all_true-get (b ∷ bs) h (suc i) lt = all_true-get bs (ground arith) i (omega arith)

all_true-of :
    (bs : List Bool) → ((i : ℕ) → i < length bs → get_or bs i false ≡ true) → all_true bs ≡ true
unfolding all_true
all_true-of [] h = refl
all_true-of (b ∷ bs) h =
    let first = h 0 (omega arith) in
    let rest = all_true-of bs (λ i lt. h (suc i) (omega arith)) in ground arith

get_or-replicate : (n i : ℕ) → get_or (replicate n false) i false ≡ false
get_or-replicate zero i = refl
get_or-replicate (suc n) zero = refl
get_or-replicate (suc n) (suc i) = get_or-replicate n i

length-created : (e : Entry) → length (create e).args_set ≡ length e.args
unfolding create
length-created e = length-replicate (length e.args) false

fresh_set :
    (e : Entry) (cs : List Call) (i : ℕ)
    → i < length e.args
    → get_or (run cs (create e)).args_set i false ≡ set_by cs (create e) i
unfolding create
fresh_set e cs i lt =
    let none_set = get_or-replicate (length e.args) i in
    let total = length-replicate (length e.args) false in
    let set_there = run_set cs (create e) i (omega (arith, total)) in ground arith

-- After some calls on fresh values, the arguments are valid exactly when a call that succeeded has
-- set each position of an argument.
pub args_valid_iff :
    (e : Entry) (cs : List Call)
    → (args_valid (run cs (create e)) ≡ true)
      ↔ ((i : ℕ) → i < length e.args → set_by cs (create e) i ≡ true)
unfolding args_valid
args_valid_iff e cs =
    let n = length-created e in
    let total = length-run cs (create e) ∙ n in
    (
      (λ h i lt.
          let got = all_true-get (run cs (create e)).args_set h i (omega (arith, total)) in
          sym (fresh_set e cs i lt) ∙ got),
      (λ h. all_true-of (run cs (create e)).args_set (λ i lt.
          let small : i < length e.args = omega (arith, total) in
          fresh_set e cs i small ∙ h i small)),
    )
