-- ===== src/Program/Build.antt =====
-- The builds of a program: `cvk_program::build`, `do_build`, `do_build_inner` and
-- `complete_operation` of src/program.cpp and src/program.hpp. What the compiler, the validator and
-- the driver answer is in `Answers`. A build with a callback runs on a thread of its own. The calls
-- of callbacks are counted. The compiler is a program that is called, which reads its headers from
-- files (`do_build_inner_offline`).
pub mod Calls
pub mod Stages
pub mod Headers
pub mod Devices
mod Tests
use clvk.Common.{
  ℕ, zero, suc, ◌+◌, ◌-◌, Bool, true, false, ◌&&◌, ◌||◌, not, List, [], ◌∷◌, ◌++◌, Option, none,
  some, ◌==◌, if◌then◌else◌, length, take, map, ltb,
}
use clvk.Codes.{
  Code, success, invalid_operation, build_program_failure, compile_program_failure,
  link_program_failure,
}
use clvk.PrintfText.{Text}
use clvk.Program.Options.{from_options, from_link_options, from_string, merge, find_text}
use clvk.Program.State.{
  BuildStatus, build_none, build_error, build_in_progress, build_success, DevStatus, set_dev_status,
  type_compiled_object, type_library, type_executable, Program,
}

-- `build_operation`.
pub data Operation : Type 0 where
  build build_binary compile link : Operation

-- A program that is compiled or linked into another one, or included by it.
pub record Input : Type 0 where
  pub build_options : Text
  pub source : Text

pub record Builder : Type 0 where
  pub program : Program
  pub input_programs : List Input
  pub header_include_names : List Text
  pub num_input_programs : ℕ
  pub operation : Operation
  pub has_callback : Bool
  pub refcount : ℕ
  -- The number of the calls of callbacks.
  pub notified : ℕ

-- The arguments of `build`. The device list is empty when `num_devices` is 0.
pub record Request : Type 0 where
  pub operation : Operation
  pub devices : List ℕ
  pub options : Option Text
  pub inputs : List Input
  pub header_names : Option (List Text)
  pub callback : Bool

abbrev pub is_in_progress : BuildStatus → Bool
is_in_progress build_in_progress = true
is_in_progress s = false

abbrev pub is_success : BuildStatus → Bool
is_success build_success = true
is_success s = false

-- `count_if`.
pub in_progress : DevStatus → Bool
in_progress [] = false
in_progress ((d, s) ∷ rest) = is_in_progress s || in_progress rest

-- `build_status`.
pub build_status : DevStatus → BuildStatus
build_status [] = build_success
build_status ((d, s) ∷ rest) = let later = build_status rest in if is_success s then later else s

-- The loop over the devices.
pub mark_devices : List ℕ → DevStatus → DevStatus
mark_devices [] st = st
mark_devices (d ∷ ds) st = mark_devices ds (set_dev_status d build_in_progress st)

abbrev pub some_or {ℓ} : {A : Type ℓ} → A → Option A → A
some_or a none = a
some_or a (some b) = b

abbrev pub put_program : Program → Builder → Builder
put_program p b = record b { program = p }

pub set_own_options : Option Text → Builder → Builder
set_own_options none b = b
set_own_options (some o) b = put_program (record b.program { build_options = from_options o }) b

-- The input programs of a build, and their options.
pub add_inputs : List Input → Request → Builder → Builder
add_inputs [] r b = set_own_options r.options b
add_inputs (i ∷ is) r b =
    let merged = merge (map (λ x. from_string x.build_options) (i ∷ is)) in
    record b {
      program = record b.program {
        build_options = from_link_options (some_or [] r.options) merged;
      };
      input_programs = b.input_programs ++ (i ∷ is);
      header_include_names =
          b.header_include_names ++ take (length (i ∷ is)) (some_or [] r.header_names);
    }

-- The devices of a build: that of the context when `num_devices` is 0.
abbrev pub build_devices : List ℕ → ℕ → List ℕ
build_devices [] device = device ∷ []
build_devices (d ∷ ds) device = d ∷ ds

pub mark_in_progress : Request → Builder → Builder
mark_in_progress r b =
    put_program
      (record b.program {
        dev_status = mark_devices (build_devices r.devices b.program.device) b.program.dev_status;
      })
      b

-- What `build` sets once it is not refused.
pub prepare : Request → Builder → Builder
prepare r b =
    record (mark_in_progress r (add_inputs r.inputs r (record b { refcount = b.refcount + 1 }))) {
      num_input_programs = length r.inputs;
      operation = r.operation;
      has_callback = r.callback;
    }

-- `build`, up to the choice of the thread; `none` is a build that is refused.
pub begin_build : Request → Builder → Option Builder
begin_build r b = if in_progress b.program.dev_status then none else some (prepare r b)

-- What others answer during a build. `compiled` is the status of `do_build_inner_offline`.
pub record Answers : Type 0 where
  pub temp_folder : Bool
  pub headers_saved : Bool
  pub compiled : BuildStatus
  pub descriptor_map : Bool
  pub constant_data_buffer : Bool
  pub pipeline_cache : Bool
  pub cache_hit : Bool
  pub valid : Bool
  pub skip_capability_check : Bool
  pub capabilities : Bool
  pub samplers : Bool
  pub strip_reflection : Bool
  pub stripped : Bool
  pub shader_module : Bool

-- "create-library".
abbrev pub create_library : Text
create_library = 99 ∷ 114 ∷ 101 ∷ 97 ∷ 116 ∷ 101 ∷ 45 ∷ 108 ∷ 105 ∷ 98 ∷ 114 ∷ 97 ∷ 114 ∷ 121 ∷ []

pub creates_library : Builder → Bool
creates_library b = elim (find_text create_library b.program.build_options.build_options) [
  | none ↦ false
  | some rest ↦ true
]

-- The type that a build which succeeded gives.
unfoldable pub built_type : Operation → Bool → ℕ
built_type compile library = type_compiled_object
built_type link true = type_library
built_type op library = type_executable

abbrev pub is_compile : Operation → Bool
is_compile compile = true
is_compile op = false

abbrev pub is_build_binary : Operation → Bool
is_build_binary build_binary = true
is_build_binary op = false

-- `do_build_inner`: the program, whose type changes on success, and the status.
pub do_build_inner : Answers → Builder → Builder × BuildStatus
do_build_inner a b =
    if not a.temp_folder
    then (b, build_error)
    else if is_compile b.operation && not a.headers_saved
    then (b, build_error)
    else if not (is_success a.compiled)
    then (b, a.compiled)
    else (
      put_program (record b.program { binary_type = built_type b.operation (creates_library b) }) b,
      build_success,
    )

-- What `complete_operation` does, one after the other. It has no lock, so on a thread of its own
-- these are three steps.
abbrev pub set_device_status : BuildStatus → Builder → Builder
set_device_status s b =
    put_program
      (record b.program { dev_status = set_dev_status b.program.device s b.program.dev_status }) b

-- The call of `m_operation_callback`, as it is then.
abbrev pub call_callback : Builder → Builder
call_callback b = record b { notified = if b.has_callback then b.notified + 1 else b.notified }

abbrev pub release : Builder → Builder
release b = record b { refcount = b.refcount - 1 }

-- `complete_operation`.
pub complete_operation : BuildStatus → Builder → Builder
complete_operation s b = release (call_callback (set_device_status s b))

-- What `do_build` does with the SPIR-V of an executable.
pub load_binary : Answers → ℕ → BuildStatus
load_binary a t =
    if not a.descriptor_map
    then build_error
    else if not a.constant_data_buffer
    then build_error
    else if not a.pipeline_cache
    then build_error
    else if not a.cache_hit && (t == type_executable && not a.valid)
    then build_error
    else if t == type_executable && (not a.skip_capability_check && not a.capabilities)
    then build_error
    else if not a.samplers
    then build_error
    else if a.strip_reflection && not a.stripped
    then build_error
    else if not a.shader_module
    then build_error
    else build_success

-- What `do_build` does after the compiler: the program, and the status that `complete_operation` is
-- given.
pub after_inner : Answers → Builder × BuildStatus → Builder × BuildStatus
after_inner a (b, status) =
    if not (b.program.binary_type == type_executable) || not (is_success status)
    then (b, status)
    else (b, load_binary a b.program.binary_type)

-- `do_build` up to `complete_operation`.
abbrev pub build_outcome : Answers → Builder → Builder × BuildStatus
build_outcome a b =
    if is_build_binary b.operation
    then (b, load_binary a b.program.binary_type)
    else after_inner a (do_build_inner a b)

abbrev pub complete : Builder × BuildStatus → Builder
complete (b, s) = complete_operation s b

-- `do_build`.
pub do_build : Answers → Builder → Builder
do_build a b = complete (build_outcome a b)

-- The code of a build that failed.
abbrev pub failure_code : Operation → Code
failure_code build = build_program_failure
failure_code build_binary = build_program_failure
failure_code compile = compile_program_failure
failure_code link = link_program_failure

-- `build` without a callback.
pub build_and_wait : Request → Answers → Builder → Builder × Code
build_and_wait r a b = elim (begin_build r b) [
  | none ↦ (b, invalid_operation)
  | some c ↦
      let d = do_build a c in
      (
        d,
        if is_success (build_status d.program.dev_status)
            then success
            else failure_code r.operation,
      )
]

-- `build`, which with a callback only starts a thread.
unfoldable pub start_or_wait : Request → Answers → Builder → Builder × Code
start_or_wait r ans b =
    if r.callback
    then elim (begin_build r b) [ none ↦ (b, invalid_operation) | some c ↦ (c, success) ]
    else build_and_wait r ans b
