-- ===== src/Program/Build/Tests.antt =====
-- Builds of a program at concrete values.
use clvk.Common.{
  List, inl, ◌≡◌, ◌%◌, refl, sym, subst, true, false, [], ◌∷◌, none, some, arith, All,
}
use clvk.KernelArgs.{Arg, pointer_pushconstant, no_access}
use clvk.Codes.{invalid_operation}
use clvk.Program.Options.{from_options}
use clvk.Program.State.{build_none, build_success, Program}
use clvk.Program.Build.{
  build, compile, Builder, Request, Answers, prepare, begin_build, build_and_wait, in_progress,
}
use clvk.Program.Build.Calls.{
  Builds, Call, start, finish, notify, drop_reference, call, run_calls, Balanced,
}
use clvk.Program.Build.Calls.Balance.{run_calls-Balanced, callback_lost}
use clvk.Program.Build.Headers.{saved_headers, headers_of, headers_are_stale}
use clvk.Program.Build.Devices.{builds_for, build_all, foreign_device_blocks}
use clvk.Program.PushConstants.{
  KernelRanges, all_ranges, argument_ranges, image_ranges, sampler_ranges, is_pushconstant,
  prepare_push_constant_range,
}
use clvk.Program.PushConstants.Bounds.{IsSmall, Covers}
use clvk.Program.PushConstants.Used.{Mem, of_pointer, prepare_push_constant_range-Covers}

abbrev fresh : Program
fresh = record {
  device = 0;
  dev_status = (0, build_none) ∷ [];
  binary_type = 0;
  build_options = from_options [];
  ir = [];
  code = [];
  loaded_from_binary = false;
}

abbrev builder : Builder
builder = record {
  program = fresh;
  input_programs = [];
  header_include_names = [];
  num_input_programs = 0;
  operation = build;
  has_callback = false;
  refcount = 1;
  notified = 0;
}

-- A program that was compiled with a header "a" whose text is "x".
abbrev compiled_builder : Builder
compiled_builder = record builder {
  input_programs = record { build_options = []; source = 120 ∷ [] } ∷ [];
  header_include_names = (97 ∷ []) ∷ [];
}

abbrev own_build : Request
own_build = record {
  operation = build;
  devices = [];
  options = none;
  inputs = [];
  header_names = none;
  callback = false;
}

-- A compilation with a header "b" whose text is "y".
abbrev header_build : Request
header_build = record own_build {
  operation = compile;
  inputs = record { build_options = []; source = 121 ∷ [] } ∷ [];
  header_names = some ((98 ∷ []) ∷ []);
}

-- Everything works, but the validation.
abbrev invalid_code : Answers
invalid_code = record {
  temp_folder = true;
  headers_saved = true;
  compiled = build_success;
  descriptor_map = true;
  constant_data_buffer = true;
  pipeline_cache = true;
  cache_hit = false;
  valid = false;
  skip_capability_check = false;
  capabilities = true;
  samplers = true;
  strip_reflection = false;
  stripped = false;
  shader_module = true;
}

-- Two builds, of which the second is refused, and the end of the thread of the first.
abbrev some_calls : List Call
some_calls =
    start (record own_build { callback = true }) invalid_code
    ∷ start own_build invalid_code
    ∷ finish invalid_code
    ∷ notify
    ∷ drop_reference
    ∷ []

abbrev unbuilt : Builds
unbuilt = record { builder = builder; building = 0; calling = 0; releasing = 0 }

run_calls-Balanced_example :
    Balanced 1 (run_calls some_calls unbuilt 0).1 (run_calls some_calls unbuilt 0).0
run_calls-Balanced_example = run_calls-Balanced 1 some_calls 0 unbuilt (record {
  single = omega arith;
  busy = λ e. absurd (omega arith);
  counted = refl;
  told = omega arith;
})

-- A thread has set the status of a build with a callback.
abbrev status_set : Builds
status_set = record {
  builder = record builder { has_callback = true; refcount = 2 };
  building = 0;
  calling = 1;
  releasing = 0;
}

callback_lost_example :
    ((call notify (call (start own_build invalid_code) status_set)).builder.notified ≡ 0)
    × ((call notify (call (start own_build invalid_code) status_set)).building ≡ 0)
    × ((call notify (call (start own_build invalid_code) status_set)).calling ≡ 0)
unfolding in_progress
callback_lost_example = callback_lost own_build invalid_code status_set refl refl refl refl

begun_again :
    begin_build header_build compiled_builder ≡ some (prepare header_build compiled_builder)
unfolding begin_build in_progress
begun_again = refl

headers_are_stale_example :
    headers_of (prepare header_build compiled_builder)
    ≡ saved_headers 1 ((97 ∷ []) ∷ []) (record { build_options = []; source = 120 ∷ [] } ∷ [])
headers_are_stale_example =
    headers_are_stale compiled_builder (prepare header_build compiled_builder) header_build
      (record { build_options = []; source = 121 ∷ [] }) [] begun_again refl refl (omega arith)

-- What the build for device 7 leaves.
abbrev blocked : Builder
blocked = (build_and_wait (record own_build { devices = 7 ∷ [] }) invalid_code builder).0

foreign_device_blocks_example :
    (builds_for 7 blocked.program.dev_status ≡ true)
    × (build_all
          ((own_build, invalid_code) ∷ (record own_build { callback = true }, invalid_code) ∷ [])
          blocked
        ≡ (blocked, invalid_operation ∷ invalid_operation ∷ []))
unfolding in_progress
foreign_device_blocks_example =
    foreign_device_blocks (record own_build { devices = 7 ∷ [] }) invalid_code builder 7
      ((own_build, invalid_code) ∷ (record own_build { callback = true }, invalid_code) ∷ []) refl
      refl (λ e. absurd (omega (arith, e)))

-- Push constants of five bytes at 6, and a kernel with a pointer in push constants at 32, and with
-- the metadata of an image and of a sampler.
abbrev pointer_arg : Arg
pointer_arg = record {
  pos = 0;
  binding = 0;
  offset = 32;
  size = 8;
  kind = pointer_pushconstant;
  local_spec_id = 0;
  local_elem_size = 0;
  is_vec3 = false;
  access = no_access;
}

abbrev kernel_ranges : KernelRanges
kernel_ranges = record {
  args = pointer_arg ∷ [];
  image_metadata = (0, record { order_offset = none; data_type_offset = some 16 }) ∷ [];
  sampler_metadata = (1, 24) ∷ [];
}

ranges : all_ranges ((6, 5) ∷ []) (kernel_ranges ∷ []) ≡ (6, 5) ∷ (32, 8) ∷ (16, 4) ∷ (24, 4) ∷ []
unfolding all_ranges argument_ranges image_ranges sampler_ranges is_pushconstant
ranges = refl

prepare_push_constant_range-Covers_example :
    Covers (prepare_push_constant_range ((6, 5) ∷ []) (kernel_ranges ∷ [])) (32, 8)
    × ((prepare_push_constant_range ((6, 5) ∷ []) (kernel_ranges ∷ [])).0 % 4 ≡ 0)
    × ((prepare_push_constant_range ((6, 5) ∷ []) (kernel_ranges ∷ [])).1 % 4 ≡ 0)
unfolding Mem
prepare_push_constant_range-Covers_example =
    prepare_push_constant_range-Covers ((6, 5) ∷ []) (kernel_ranges ∷ []) (32, 8)
      (of_pointer kernel_ranges pointer_arg (inl refl) (inl refl) refl)
      (subst (All IsSmall) (sym ranges)
        (omega arith, (omega arith, (omega arith, (omega arith, tt)))))
