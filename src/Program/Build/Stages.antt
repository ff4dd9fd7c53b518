-- ===== src/Program/Build/Stages.antt =====
-- What a build answers.
use clvk.Common.{
  ℕ, ◌+◌, ◌≡◌, refl, sym, ap, ◌∙◌, ◌⊎◌, inl, inr, Bool, true, false, ◌&&◌, ◌||◌, not, List, [], ◌∷◌,
  arith, ◌==◌, if◌then◌else◌, Bool-cases,
}
use clvk.Codes.{success}
use clvk.Program.State.{
  BuildStatus, build_error, build_in_progress, build_success, set_dev_status, set_dev_status_single,
  type_executable,
}
use clvk.Program.Build.{
  Builder, Request, Answers, Operation, build, build_binary, compile, link, is_in_progress,
  is_success, is_compile, is_build_binary, in_progress, build_status, mark_devices, build_devices,
  add_inputs, set_own_options, mark_in_progress, prepare, begin_build, creates_library, built_type,
  do_build_inner, complete_operation, load_binary, after_inner, complete, do_build, failure_code,
  build_and_wait, Input,
}

-- The compiler gives what is asked of it.
abbrev pub compiles : Answers → Operation → Bool
compiles a op = a.temp_folder && ((not (is_compile op) || a.headers_saved) && is_success a.compiled)

-- An executable is loaded and accepted by the driver.
abbrev pub loads : Answers → Bool
loads a =
    a.descriptor_map
    && (a.constant_data_buffer
        && (a.pipeline_cache
            && ((a.cache_hit || a.valid)
                && ((a.skip_capability_check || a.capabilities)
                    && (a.samplers
                        && ((not a.strip_reflection || a.stripped) && a.shader_module))))))

-- All that a build needs.
abbrev pub passes : Answers → Operation → Bool → Bool
passes a build_binary library = loads a
passes a op library = compiles a op && (not (built_type op library == type_executable) || loads a)

stage :
    (p u : Bool) (x : BuildStatus)
    → x ≡ (if u then build_success else build_error)
    → (if not p then build_error else x) ≡ (if p && u then build_success else build_error)
stage true u x e = e
stage false u x e = refl

choice_stage :
    (p q u : Bool) (x : BuildStatus)
    → x ≡ (if u then build_success else build_error)
    → (if not p && not q then build_error else x)
      ≡ (if (p || q) && u then build_success else build_error)
choice_stage true q u x e = e
choice_stage false true u x e = e
choice_stage false false u x e = refl

optional_stage :
    (p q u : Bool) (x : BuildStatus)
    → x ≡ (if u then build_success else build_error)
    → (if p && not q then build_error else x)
      ≡ (if (not p || q) && u then build_success else build_error)
optional_stage false q u x e = e
optional_stage true true u x e = e
optional_stage true false u x e = refl

last_stage :
    (p : Bool)
    → (if not p then build_error else build_success) ≡ (if p then build_success else build_error)
last_stage true = refl
last_stage false = refl

load_binary_lem :
    (a : Answers) → load_binary a type_executable ≡ (if loads a then build_success else build_error)
unfolding load_binary
load_binary_lem a = stage a.descriptor_map _ _ (
    stage a.constant_data_buffer _ _ (
      stage a.pipeline_cache _ _ (
        choice_stage a.cache_hit a.valid _ _ (
          choice_stage a.skip_capability_check a.capabilities _ _ (
            stage a.samplers _ _
              (optional_stage a.strip_reflection a.stripped _ _ (last_stage a.shader_module)))))))

success_if : (u : Bool) → is_success (if u then build_success else build_error) ≡ u
success_if true = refl
success_if false = refl

load_binary_passes :
    (a : Answers) (t : ℕ) → t ≡ type_executable → is_success (load_binary a t) ≡ loads a
load_binary_passes a t e =
    ap (λ k. is_success (load_binary a k)) e
    ∙ ap is_success (load_binary_lem a)
    ∙ success_if (loads a)

-- The status of a build, which `complete_operation` is given.
pub inner_status :
    (a : Answers) (b : Builder)
    → (is_success (do_build_inner a b).1 ≡ compiles a b.operation)
      × (compiles a b.operation ≡ true
          → (do_build_inner a b).0.program.binary_type ≡ built_type b.operation (creates_library b))
      × ((do_build_inner a b).0.program.dev_status ≡ b.program.dev_status)
      × ((do_build_inner a b).0.program.device ≡ b.program.device)
unfolding do_build_inner
inner_status a b = ground arith

-- A program whose only status is that of its device.
abbrev pub Single : Builder → BuildStatus → Type 0
Single b s = b.program.dev_status ≡ (b.program.device, s) ∷ []

complete-Single :
    (b : Builder) (old s : BuildStatus) → Single b old → Single (complete_operation s b) s
unfolding complete_operation
complete-Single b old s e =
    ap (set_dev_status b.program.device s) e ∙ set_dev_status_single b.program.device old s

status-Single :
    (b : Builder) (s : BuildStatus)
    → Single b s
    → is_success (build_status b.program.dev_status) ≡ is_success s
unfolding build_status
status-Single b s e = ap (λ st. is_success (build_status st)) e ∙ ground arith

-- Whether the program is built.
abbrev pub is_built : Builder → Bool
is_built b = is_success (build_status b.program.dev_status)

complete_built :
    (b : Builder) (old s : BuildStatus)
    → Single b old
    → is_built (complete_operation s b) ≡ is_success s
complete_built b old s single =
    status-Single (complete_operation s b) s (complete-Single b old s single)

ends_early : (t s l : Bool) → (not t || not s) ≡ true → s ≡ (s && (not t || l))
ends_early t s l h = ground arith

goes_on : (t s l : Bool) → (not t || not s) ≡ false → l ≡ (s && (not t || l))
goes_on t s l h = ground arith

is_executable :
    (t : ℕ) (s : Bool) → (not (t == type_executable) || not s) ≡ false → t ≡ type_executable
is_executable t s h = ground arith

after_inner_built :
    (a : Answers) (b : Builder) (s old : BuildStatus)
    → Single b old
    → is_built (complete (after_inner a (b, s)))
      ≡ (is_success s && (not (b.program.binary_type == type_executable) || loads a))
unfolding after_inner
after_inner_built a b s old single =
    let t : ℕ = b.program.binary_type in
    elim (Bool-cases (not (b.program.binary_type == type_executable) || not (is_success s))) [
      | inl y ↦
          rw (y, after_inner)
            (complete_built b old s single
              ∙ ends_early (t == type_executable) (is_success s) (loads a) y)
      | inr n ↦
          rw (n, after_inner)
            (complete_built b old (load_binary a t) single
              ∙ load_binary_passes a t (is_executable t (is_success s) n)
              ∙ goes_on (t == type_executable) (is_success s) (loads a) n)
    ]

type_if_compiled :
    (k l : Bool) (t u : ℕ)
    → (k ≡ true → t ≡ u)
    → (k && (not (t == type_executable) || l)) ≡ (k && (not (u == type_executable) || l))
type_if_compiled true l t u h = ap (λ x. not (x == type_executable) || l) (h refl)
type_if_compiled false l t u h = refl

binary_or_not :
    (a : Answers) (op : Operation) (library : Bool)
    → ((op ≡ build_binary) × (is_build_binary op ≡ true) × (passes a op library ≡ loads a))
      ⊎ ((is_build_binary op ≡ false)
          × (passes a op library
              ≡ (compiles a op && (not (built_type op library == type_executable) || loads a))))
binary_or_not a build_binary library = inl (refl, refl, refl)
binary_or_not a build library = inr (refl, refl)
binary_or_not a compile library = inr (refl, refl)
binary_or_not a link library = inr (refl, refl)

pub do_build_built :
    (a : Answers) (b : Builder) (old : BuildStatus)
    → Single b old
    → (b.operation ≡ build_binary → b.program.binary_type ≡ type_executable)
    → is_built (do_build a b) ≡ passes a b.operation (creates_library b)
unfolding do_build
do_build_built a b old single exe = elim (binary_or_not a b.operation (creates_library b)) [
  | inl (e, y, p) ↦
      rw (y, do_build)
        (complete_built b old (load_binary a b.program.binary_type) single
          ∙ load_binary_passes a b.program.binary_type (exe e)
          ∙ sym p)
  | inr (n, p) ↦
      let (compiled, typed, statuses, device) = inner_status a b in
      rw (n, do_build)
        (after_inner_built a (do_build_inner a b).0 (do_build_inner a b).1 old
            (statuses ∙ single ∙ ap (λ d. (d, old) ∷ []) (sym device))
          ∙ ap
              (λ k.
                k
                && (not ((do_build_inner a b).0.program.binary_type == type_executable) || loads a))
              compiled
          ∙ type_if_compiled (compiles a b.operation) (loads a) _ _ typed
          ∙ sym p)
]

-- What a request changes of the program before it is built.
pub added :
    (is : List Input) (r : Request) (b : Builder)
    → ((add_inputs is r b).program.device ≡ b.program.device)
      × ((add_inputs is r b).program.dev_status ≡ b.program.dev_status)
      × ((add_inputs is r b).program.binary_type ≡ b.program.binary_type)
unfolding add_inputs set_own_options
added [] r b = ground arith
added (i ∷ is) r b = (refl, refl, refl)

pub prepare-Single :
    (r : Request) (b : Builder) (s : BuildStatus)
    → Single b s
    → r.devices ≡ []
    → Single (prepare r b) build_in_progress
unfolding prepare mark_in_progress mark_devices
prepare-Single r b s single none_given =
    let (device, statuses, type) = added r.inputs r (record b { refcount = b.refcount + 1 }) in
    let own = add_inputs r.inputs r (record b { refcount = b.refcount + 1 }) in
    ap (λ ds. mark_devices (build_devices ds own.program.device) own.program.dev_status) none_given
    ∙ ap (set_dev_status own.program.device build_in_progress)
        (statuses ∙ single ∙ ap (λ d. (d, s) ∷ []) (sym device))
    ∙ set_dev_status_single own.program.device s build_in_progress

pub prepare_type :
    (r : Request) (b : Builder)
    → ((prepare r b).program.binary_type ≡ b.program.binary_type)
      × ((prepare r b).operation ≡ r.operation)
unfolding prepare mark_in_progress
prepare_type r b = ((added r.inputs r (record b { refcount = b.refcount + 1 })).2, refl)

pub build_and_wait_builder :
    (r : Request) (a : Answers) (b : Builder)
    → in_progress b.program.dev_status ≡ false
    → (build_and_wait r a b).0 ≡ do_build a (prepare r b)
unfolding build_and_wait begin_build
build_and_wait_builder r a b idle = rw (idle, build_and_wait, begin_build)

pub Single-idle :
    (b : Builder) (s : BuildStatus)
    → Single b s
    → is_in_progress s ≡ false
    → in_progress b.program.dev_status ≡ false
unfolding in_progress
Single-idle b s single free = ap in_progress single ∙ ap (λ p. p || false) free

after_inner_type :
    (a : Answers) (b : Builder) (s : BuildStatus)
    → (complete (after_inner a (b, s))).program.binary_type ≡ b.program.binary_type
unfolding after_inner complete_operation
after_inner_type a b s =
    elim (Bool-cases (not (b.program.binary_type == type_executable) || not (is_success s))) [
      | inl y ↦ rw (y, after_inner)
      | inr n ↦ rw (n, after_inner)
    ]

-- The type that a compilation gives.
pub compile_type :
    (a : Answers) (b : Builder)
    → b.operation ≡ compile
    → compiles a compile ≡ true
    → (do_build a b).program.binary_type ≡ built_type compile (creates_library b)
unfolding do_build
compile_type a b op ok =
    let (compiled, typed, statuses, device) = inner_status a b in
    let not_binary : is_build_binary b.operation ≡ false = ap is_build_binary op in
    rw (not_binary, do_build)
      (after_inner_type a (do_build_inner a b).0 (do_build_inner a b).1
        ∙ typed (ap (compiles a) op ∙ ok)
        ∙ ap (λ o. built_type o (creates_library b)) op)

pub build_and_wait_answers :
    (r : Request) (a : Answers) (b : Builder) (s : BuildStatus)
    → Single b s
    → is_in_progress s ≡ false
    → r.devices ≡ []
    → (r.operation ≡ build_binary → b.program.binary_type ≡ type_executable)
    → (build_and_wait r a b).1 ≡ (
        if passes a r.operation (creates_library (prepare r b))
        then success
        else failure_code r.operation)
unfolding build_and_wait begin_build in_progress
build_and_wait_answers r a b s single free none_given exe =
    let idle = Single-idle b s single free in
    let (type, operation) = prepare_type r b in
    rw (idle, build_and_wait, begin_build)
      (ap (λ k. if k then success else failure_code r.operation)
        (do_build_built a (prepare r b) build_in_progress (prepare-Single r b s single none_given)
            (λ e. type ∙ exe (sym operation ∙ e))
          ∙ ap (λ op. passes a op (creates_library (prepare r b))) operation))
