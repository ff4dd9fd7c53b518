-- ===== src/Program/Build/Devices.antt =====
-- A build for a device that is not the context's.
use clvk.Common.{
  refl, List, ℕ, ◌+◌, ◌≡◌, ◌≢◌, ap, ◌∙◌, Bool, true, false, ◌&&◌, ◌||◌, not, [], ◌∷◌, arith, ◌==◌,
  Bool-cases, inl, inr,
}
use clvk.Codes.{Code, invalid_operation}
use clvk.Program.State.{BuildStatus, build_in_progress, DevStatus, set_dev_status, type_executable}
use clvk.Program.Build.{
  start_or_wait, Builder, Request, Answers, is_in_progress, is_success, is_build_binary,
  in_progress, mark_devices, build_devices, add_inputs, mark_in_progress, prepare, begin_build,
  do_build_inner, complete_operation, after_inner, complete, do_build, build_and_wait, load_binary,
}
use clvk.Program.Build.Stages.{build_and_wait_builder, added, inner_status}

-- The device has a build in progress.
pub builds_for : ℕ → DevStatus → Bool
builds_for e [] = false
builds_for e ((d, s) ∷ rest) = d == e && is_in_progress s || builds_for e rest

builds_for-set :
    (e : ℕ) (st : DevStatus) → builds_for e (set_dev_status e build_in_progress st) ≡ true
unfolding builds_for set_dev_status
builds_for-set e [] = ground arith
builds_for-set e ((d, s) ∷ rest) = ground (arith, builds_for-set e rest)

builds_for-set_other :
    (e d : ℕ) (s : BuildStatus) (st : DevStatus)
    → e ≢ d
    → builds_for e (set_dev_status d s st) ≡ builds_for e st
unfolding builds_for set_dev_status
builds_for-set_other e d s [] ne = ground arith
builds_for-set_other e d s ((x, t) ∷ rest) ne = ground (arith, builds_for-set_other e d s rest ne)

builds_for→in_progress : (e : ℕ) (st : DevStatus) → builds_for e st ≡ true → in_progress st ≡ true
unfolding builds_for in_progress
builds_for→in_progress e [] h = h
builds_for→in_progress e ((d, s) ∷ rest) h = ground (arith, builds_for→in_progress e rest)

-- The build of the device goes on, and the device of the context is another one.
abbrev Left : ℕ → Builder → Type 0
Left e b = (e ≢ b.program.device) × (builds_for e b.program.dev_status ≡ true)

complete-Left : (e : ℕ) (s : BuildStatus) (b : Builder) → Left e b → Left e (complete_operation s b)
unfolding complete_operation
complete-Left e s b (ne, h) =
    (ne, builds_for-set_other e b.program.device s b.program.dev_status ne ∙ h)

after_inner-Left :
    (e : ℕ) (a : Answers) (b : Builder) (s : BuildStatus)
    → Left e b
    → Left e (complete (after_inner a (b, s)))
unfolding after_inner
after_inner-Left e a b s h =
    elim (Bool-cases (not (b.program.binary_type == type_executable) || not (is_success s))) [
      | inl y ↦ rw (y, after_inner) (complete-Left e s b h)
      | inr n ↦ rw (n, after_inner) (complete-Left e (load_binary a b.program.binary_type) b h)
    ]

do_build-Left : (e : ℕ) (a : Answers) (b : Builder) → Left e b → Left e (do_build a b)
unfolding do_build
do_build-Left e a b (ne, h) =
    let (compiled, typed, statuses, device) = inner_status a b in
    elim (Bool-cases (is_build_binary b.operation)) [
      | inl y ↦ rw (y, do_build) (complete-Left e (load_binary a b.program.binary_type) b (ne, h))
      | inr n ↦
          rw (n, do_build)
            (after_inner-Left e a (do_build_inner a b).0 (do_build_inner a b).1
              (λ same. ne (same ∙ device), ap (builds_for e) statuses ∙ h))
    ]

prepare-Left :
    (e : ℕ) (r : Request) (b : Builder)
    → r.devices ≡ e ∷ []
    → e ≢ b.program.device
    → Left e (prepare r b)
unfolding prepare mark_in_progress mark_devices
prepare-Left e r b given ne =
    let own = add_inputs r.inputs r (record b { refcount = b.refcount + 1 }) in
    let (device, statuses, type) = added r.inputs r (record b { refcount = b.refcount + 1 }) in
    (
      λ same. ne (same ∙ device),
      ap
            (λ ds.
              builds_for e
                (mark_devices (build_devices ds own.program.device) own.program.dev_status))
            given
          ∙ builds_for-set e own.program.dev_status,
    )

-- Calls of `build`, on threads of their own or not, and their codes.
pub build_all : List (Request × Answers) → Builder → Builder × List Code
build_all [] b = (b, [])
build_all ((r, a) ∷ calls) b =
    let (c, code) = start_or_wait r a b in let (d, codes) = build_all calls c in (d, code ∷ codes)

abbrev pub all_refused : List (Request × Answers) → List Code
all_refused [] = []
all_refused (c ∷ calls) = invalid_operation ∷ all_refused calls

refused :
    (r : Request) (a : Answers) (b : Builder)
    → in_progress b.program.dev_status ≡ true
    → start_or_wait r a b ≡ (b, invalid_operation)
unfolding start_or_wait build_and_wait begin_build
refused r a b busy = elim (Bool-cases r.callback) [
  | inl y ↦ rw (y, start_or_wait) (rw (busy, begin_build))
  | inr n ↦ rw (n, start_or_wait) (rw (busy, build_and_wait, begin_build))
]

build_all_refused :
    (calls : List (Request × Answers)) (b : Builder)
    → in_progress b.program.dev_status ≡ true
    → build_all calls b ≡ (b, all_refused calls)
unfolding build_all
build_all_refused [] b busy = refl
build_all_refused ((r, a) ∷ calls) b busy =
    let first = refused r a b busy in
    ap (λ x. ((build_all calls x.0).0, x.1 ∷ (build_all calls x.0).1)) first
    ∙ ap (λ x. (x.0, invalid_operation ∷ x.1)) (build_all_refused calls b busy)

-- A build for a device that is not the context's, which is not refused: when it has ended, the
-- status of that device is still in progress, and all later builds, whatever they are for, with a
-- callback or without one, are refused and leave the program as it is.
pub foreign_device_blocks :
    (r : Request) (a : Answers) (b : Builder) (e : ℕ) (calls : List (Request × Answers))
    → in_progress b.program.dev_status ≡ false
    → r.devices ≡ e ∷ []
    → e ≢ b.program.device
    → let c = (build_and_wait r a b).0 in
      (builds_for e c.program.dev_status ≡ true) × (build_all calls c ≡ (c, all_refused calls))
foreign_device_blocks r a b e calls free given ne =
    let (ne', left) = do_build-Left e a (prepare r b) (prepare-Left e r b given ne) in
    let ended = build_and_wait_builder r a b free in
    let still : builds_for e (build_and_wait r a b).0.program.dev_status ≡ true =
      ap (λ c. builds_for e c.program.dev_status) ended ∙ left in
    (still, build_all_refused calls (build_and_wait r a b).0 (builds_for→in_progress e _ still))
