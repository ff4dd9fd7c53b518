-- ===== src/Program/Build/Calls/Counts.antt =====
-- What a build does to the counts of references and of callbacks.
use clvk.Common.{
  ℕ, ◌+◌, ◌-◌, ◌≡◌, refl, ap, ◌∙◌, ap₂, inl, inr, true, false, List, [], ◌∷◌, arith, if◌then◌else◌,
  Bool-cases,
}
use clvk.Program.State.{BuildStatus, build_in_progress, DevStatus, set_dev_status}
use clvk.Program.Build.{
  Builder, Request, Answers, in_progress, is_build_binary, Input, build_devices, mark_devices,
  add_inputs, set_own_options, prepare, mark_in_progress, begin_build, do_build_inner,
  complete_operation, after_inner, do_build, build_and_wait, build_outcome,
}
use clvk.Program.Build.Calls.{Builds, start, start_build, is_promised}

in_progress-set :
    (d : ℕ) (st : DevStatus) → in_progress (set_dev_status d build_in_progress st) ≡ true
unfolding in_progress set_dev_status
in_progress-set d [] = refl
in_progress-set d ((e, s) ∷ rest) = ground (arith, in_progress-set d rest)

in_progress-mark :
    (ds : List ℕ) (st : DevStatus) → in_progress st ≡ true → in_progress (mark_devices ds st) ≡ true
unfolding mark_devices
in_progress-mark [] st h = h
in_progress-mark (d ∷ ds) st h =
    in_progress-mark ds (set_dev_status d build_in_progress st) (in_progress-set d st)

abbrev pub Ready : Request → Builder → Builder → Type 0
Ready r b c =
    (in_progress c.program.dev_status ≡ true)
    × (c.has_callback ≡ r.callback)
    × (c.refcount ≡ b.refcount + 1)
    × (c.notified ≡ b.notified)

in_progress-mark_devices :
    (ds : List ℕ) (d : ℕ) (st : DevStatus)
    → in_progress (mark_devices (build_devices ds d) st) ≡ true
unfolding mark_devices
in_progress-mark_devices [] d st = in_progress-set d st
in_progress-mark_devices (e ∷ ds) d st = in_progress-mark ds _ (in_progress-set e st)

add_inputs_counts :
    (is : List Input) (r : Request) (b : Builder)
    → ((add_inputs is r b).refcount ≡ b.refcount) × ((add_inputs is r b).notified ≡ b.notified)
unfolding add_inputs set_own_options
add_inputs_counts [] r b = ground arith
add_inputs_counts (i ∷ is) r b = (refl, refl)

pub prepare-Ready : (r : Request) (b : Builder) → Ready r b (prepare r b)
unfolding prepare mark_in_progress
prepare-Ready r b =
    let (refs, told) = add_inputs_counts r.inputs r (record b { refcount = b.refcount + 1 }) in
    (in_progress-mark_devices r.devices _ _, refl, refs, told)

-- What the end of a build does to the counts.
abbrev pub Ends : Builder → Builder → Type 0
Ends b c =
    (c.refcount ≡ b.refcount - 1)
    × (c.notified ≡ (if b.has_callback then b.notified + 1 else b.notified))

abbrev pub Keeps : Builder → Builder → Type 0
Keeps b c =
    (c.refcount ≡ b.refcount) × (c.notified ≡ b.notified) × (c.has_callback ≡ b.has_callback)

do_build_inner-Keeps : (a : Answers) (b : Builder) → Keeps b (do_build_inner a b).0
unfolding do_build_inner
do_build_inner-Keeps a b = ground arith

complete-Ends : (s : BuildStatus) (b : Builder) → Ends b (complete_operation s b)
unfolding complete_operation
complete-Ends s b = (refl, refl)

after_inner-Keeps : (a : Answers) (b : Builder) (s : BuildStatus) → Keeps b (after_inner a (b, s)).0
unfolding after_inner
after_inner-Keeps a b s = ground arith

pub build_outcome-Keeps : (a : Answers) (b : Builder) → Keeps b (build_outcome a b).0
build_outcome-Keeps a b =
    let (refs, told, callback) = do_build_inner-Keeps a b in
    let (refs', told', callback') =
      after_inner-Keeps a (do_build_inner a b).0 (do_build_inner a b).1 in
    elim (Bool-cases (is_build_binary b.operation)) [
      | inl y ↦ rw y (refl, refl, refl)
      | inr n ↦ rw n (refs' ∙ refs, told' ∙ told, callback' ∙ callback)
    ]

do_build-Ends : (a : Answers) (b : Builder) → Ends b (do_build a b)
unfolding do_build
do_build-Ends a b =
    let (refs, told, callback) = build_outcome-Keeps a b in
    let (refs', told') = complete-Ends (build_outcome a b).1 (build_outcome a b).0 in
    (refs' ∙ ap (λ n. n - 1) refs, told' ∙ ap₂ (λ c n. if c then n + 1 else n) callback told)

pub do_build_callback : (a : Answers) (b : Builder) → (do_build a b).has_callback ≡ b.has_callback
unfolding do_build complete_operation
do_build_callback a b = (build_outcome-Keeps a b).2

-- A build that waits takes its reference back, and calls its callback, if it has one.
pub build_and_wait_lem :
    (r : Request) (a : Answers) (b : Builder)
    → r.callback ≡ false
    → let c = (build_and_wait r a b).0 in
      (c.refcount ≡ b.refcount)
      × (c.notified ≡ b.notified)
      × (in_progress b.program.dev_status ≡ true → c ≡ b)
unfolding build_and_wait begin_build
build_and_wait_lem r a b waits =
    let (busy, callback, refs, told) = prepare-Ready r b in
    let (refs', told') = do_build-Ends a (prepare r b) in
    elim (Bool-cases (in_progress b.program.dev_status)) [
      | inl y ↦ rw (y, build_and_wait, begin_build) (refl, refl, λ h. refl)
      | inr n ↦
          rw (n, build_and_wait, begin_build)
            (omega (arith, refs, refs'), ground arith, λ h. absurd cc)
    ]

module _ (r : Request) (a : Answers) (s : Builds) where
  abbrev pub promised : ℕ
  promised = is_promised (start r a) s

  pub start_refused :
      r.callback ≡ true
      → in_progress s.builder.program.dev_status ≡ true
      → (start_build r a s ≡ s) × (promised ≡ 0)
  unfolding start_build is_promised begin_build
  start_refused c busy = (rw c (rw (busy, begin_build)), rw c (rw busy))

  pub start_thread :
      r.callback ≡ true
      → in_progress s.builder.program.dev_status ≡ false
      → (start_build r a s ≡ record s { builder = prepare r s.builder; building = s.building + 1 })
        × (promised ≡ 1)
  unfolding start_build is_promised begin_build
  start_thread c free = (rw c (rw (free, begin_build)), rw c (rw free))

  pub start_waits :
      r.callback ≡ false
      → (start_build r a s ≡ record s { builder = (build_and_wait r a s.builder).0 })
        × (promised ≡ 0)
  unfolding start_build is_promised
  start_waits c = (rw c, rw c)
