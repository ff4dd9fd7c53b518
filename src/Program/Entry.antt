-- ===== src/Program/Entry.antt =====
-- The entry points of src/api.cpp that create, build, compile and link programs. A handle is `none`
-- for the null pointer. `available` is `compiler_available` of a device; what the compiler and the
-- driver answer is in `Answers`, as in Program/Build.
pub mod Chain
pub mod Rebuild
mod Tests
use clvk.Common.{
  ℕ, zero, suc, Bool, true, false, ◌&&◌, ◌||◌, not, List, [], ◌∷◌, Option, none, some, ◌==◌,
  if◌then◌else◌, take, length,
}
use clvk.Codes.{
  Code, success, invalid_value, invalid_context, invalid_device, invalid_operation, invalid_program,
  invalid_binary, compiler_not_available, linker_not_available,
}
use clvk.PrintfText.{Text}
use clvk.Api.{Handle, is_null, elements}
use clvk.Program.Options.{from_options}
use clvk.Program.State.{build_none, type_none, type_compiled_object, type_library, Program}
use clvk.Program.Binary.{read}
use clvk.Program.Build.{
  Operation, build, build_binary, compile, link, Input, Builder, Request, Answers, is_success,
  build_status, in_progress, start_or_wait,
}

pub record ContextObject : Type 0 where
  pub valid : Bool
  pub device : ℕ

pub record ProgramObject : Type 0 where
  pub valid : Bool
  pub builder : Builder
  pub source : Text

-- A new `cvk_program`, with the reference of its creator.
pub new_program : ℕ → ProgramObject
new_program d = record {
  valid = true;
  builder = record {
    program = record {
      device = d;
      dev_status = (d, build_none) ∷ [];
      binary_type = type_none;
      build_options = from_options [];
      ir = [];
      code = [];
      loaded_from_binary = false;
    };
    input_programs = [];
    header_include_names = [];
    num_input_programs = 0;
    operation = build;
    has_callback = false;
    refcount = 1;
    notified = 0;
  };
  source = [];
}

-- The arguments that the entry points share; `user_data` tells whether it is not null.
pub record Args : Type 0 where
  pub num_devices : ℕ
  pub device_list : Option (List ℕ)
  pub options : Option Text
  pub pfn_notify : Bool
  pub user_data : Bool

-- A number and an array that do not go together.
abbrev pub mismatched {ℓ} : {A : Type ℓ} → ℕ → Option A → Bool
mismatched n o = n == 0 && not (is_null o) || not (n == 0) && is_null o

-- The loop over the first `n` devices.
pub all_available : (ℕ → Bool) → ℕ → List ℕ → Bool
all_available available zero ds = true
all_available available (suc n) [] = false
all_available available (suc n) (d ∷ ds) = available d && all_available available n ds

abbrev pub is_compiler_available : (ℕ → Bool) → Args → Bool
is_compiler_available available a = all_available available a.num_devices (elements a.device_list)

pub can_be_linked : ProgramObject → Bool
can_be_linked p =
    is_success (build_status p.builder.program.dev_status)
    && (p.builder.program.binary_type == type_compiled_object
        || p.builder.program.binary_type == type_library)

abbrev pub input_of : ProgramObject → Input
input_of p = record {
  build_options = p.builder.program.build_options.build_options;
  source = p.source;
}

abbrev pub request : Args → Operation → List Input → Option (List Text) → Request
request a op inputs names = record {
  operation = op;
  devices = take a.num_devices (elements a.device_list);
  options = a.options;
  inputs = inputs;
  header_names = names;
  callback = a.pfn_notify;
}

abbrev pub built : ProgramObject → Builder × Code → Handle ProgramObject × Code
built p r = (some (record p { builder = r.0 }), r.1)

-- clBuildProgram of a program that is valid.
pub build_valid_program : (ℕ → Bool) → Args → Answers → ProgramObject → Handle ProgramObject × Code
build_valid_program available a ans p =
    if mismatched a.num_devices a.device_list
    then (some p, invalid_value)
    else if not a.pfn_notify && a.user_data
    then (some p, invalid_value)
    else if p.builder.program.loaded_from_binary
    then built p (start_or_wait (request a build_binary [] none) ans p.builder)
    else if is_compiler_available available a
    then built p (start_or_wait (request a build [] none) ans p.builder)
    else (some p, compiler_not_available)

-- clBuildProgram.
pub build_program : (ℕ → Bool) → Args → Answers → Handle ProgramObject → Handle ProgramObject × Code
build_program available a ans none = (none, invalid_program)
build_program available a ans (some p) =
    if p.valid then build_valid_program available a ans p else (some p, invalid_program)

-- The headers of clCompileProgram.
pub record Headers : Type 0 where
  pub num_input_headers : ℕ
  pub input_headers : Option (List (Handle ProgramObject))
  pub header_include_names : Option (List Text)

-- The programs that `build` reads, which are not checked: `none` for a null pointer among them.
pub read_inputs : ℕ → List (Handle ProgramObject) → Option (List Input)
read_inputs zero ps = some []
read_inputs (suc n) [] = none
read_inputs (suc n) (none ∷ ps) = none
read_inputs (suc n) (some p ∷ ps) = elim (read_inputs n ps) [
  | none ↦ none
  | some is ↦ some (input_of p ∷ is)
]

-- The call of `build` in clCompileProgram, which crashes on a null pointer unless it is refused
-- before.
pub compile_with : Args → Answers → Headers → ProgramObject → Option (Handle ProgramObject × Code)
compile_with a ans h p = elim (read_inputs h.num_input_headers (elements h.input_headers)) [
  | none ↦
      if in_progress p.builder.program.dev_status then some (some p, invalid_operation) else none
  | some is ↦
      some (built p (start_or_wait (request a compile is h.header_include_names) ans p.builder))
]

-- clCompileProgram of a program that is valid; `none` is a crash.
pub compile_valid_program :
    (ℕ → Bool) → Args → Answers → Headers → ProgramObject → Option (Handle ProgramObject × Code)
compile_valid_program available a ans h p =
    if mismatched a.num_devices a.device_list
    then some (some p, invalid_value)
    else if mismatched h.num_input_headers h.header_include_names
        || mismatched h.num_input_headers h.input_headers
    then some (some p, invalid_value)
    else if not a.pfn_notify && a.user_data
    then some (some p, invalid_value)
    else if not (is_compiler_available available a)
    then some (some p, compiler_not_available)
    else if p.builder.program.loaded_from_binary
    then some (some p, invalid_operation)
    else compile_with a ans h p

-- clCompileProgram.
pub compile_program :
    (ℕ → Bool)
    → Args
    → Answers
    → Headers
    → Handle ProgramObject
    → Option (Handle ProgramObject × Code)
compile_program available a ans h none = some (none, invalid_program)
compile_program available a ans h (some p) =
    if p.valid then compile_valid_program available a ans h p else some (some p, invalid_program)

-- The loop over the input programs that tests each.
pub all_valid_programs : ℕ → List (Handle ProgramObject) → Bool
all_valid_programs zero ps = true
all_valid_programs (suc n) [] = false
all_valid_programs (suc n) (none ∷ ps) = false
all_valid_programs (suc n) (some p ∷ ps) = p.valid && all_valid_programs n ps

-- The loop over the input programs that tests whether each can be linked; all are valid.
pub all_linkable : ℕ → List (Handle ProgramObject) → Bool
all_linkable zero ps = true
all_linkable (suc n) [] = false
all_linkable (suc n) (none ∷ ps) = false
all_linkable (suc n) (some p ∷ ps) = can_be_linked p && all_linkable n ps

-- The call of `build` in clLinkProgram.
pub link_with : Args → Answers → ContextObject → List Input → Handle ProgramObject × Code
link_with a ans c is =
    built (new_program c.device)
      (start_or_wait (request a link is none) ans (new_program c.device).builder)

-- clLinkProgram: the new program, and the code.
pub link_program :
    (ℕ → Bool)
    → Args
    → Answers
    → Handle ContextObject
    → ℕ
    → Option (List (Handle ProgramObject))
    → Handle ProgramObject × Code
link_program available a ans none n inputs = (none, invalid_context)
link_program available a ans (some c) n inputs =
    if not c.valid
    then (none, invalid_context)
    else if mismatched a.num_devices a.device_list
    then (none, invalid_value)
    else if n == 0 || is_null inputs
    then (none, invalid_value)
    else if not (all_valid_programs n (elements inputs))
    then (none, invalid_program)
    else if not a.pfn_notify && a.user_data
    then (none, invalid_value)
    else if not (is_compiler_available available a)
    then (none, linker_not_available)
    else if not (all_linkable n (elements inputs))
    then (none, invalid_operation)
    else elim (read_inputs n (elements inputs)) [
      | none ↦ (none, invalid_operation)
      | some is ↦ link_with a ans c is
    ]

-- The arguments of clCreateProgramWithBinary. Each binary has the length that is given for it.
pub record BinaryArgs : Type 0 where
  pub num_devices : ℕ
  pub device_list : Option (List ℕ)
  pub lengths : Bool
  pub binaries : Option (List (Option (List ℕ)))

-- The code of a read, and the program that has read.
abbrev pub loaded_as :
    ContextObject → Option (Program × Bool) → Option (Handle ProgramObject × Code)
loaded_as c none = none
loaded_as c (some r) =
    let new = new_program c.device in
    some (
      some (record new { builder = record new.builder { program = r.0 } }),
      if r.1 then success else invalid_binary,
    )

-- The program that reads its binary; `none` is a read that overflows.
pub load_program : ContextObject → List ℕ → Option (Handle ProgramObject × Code)
load_program c src = loaded_as c (read src (new_program c.device).builder.program)

-- What clCreateProgramWithBinary does with the first, and only, binary.
pub load_first : ContextObject → List (Option (List ℕ)) → Option (Handle ProgramObject × Code)
load_first c [] = none
load_first c (none ∷ bs) = some (none, invalid_value)
load_first c (some src ∷ bs) =
    if length src == 0 then some (none, invalid_value) else load_program c src

abbrev first_is : ℕ → List ℕ → Bool
first_is d [] = false
first_is d (e ∷ es) = e == d

-- clCreateProgramWithBinary.
pub create_program_with_binary :
    BinaryArgs → Handle ContextObject → Option (Handle ProgramObject × Code)
create_program_with_binary a none = some (none, invalid_context)
create_program_with_binary a (some c) =
    if not c.valid
    then some (none, invalid_context)
    else if not (a.num_devices == 1) || is_null a.device_list
    then some (none, invalid_value)
    else if not (first_is c.device (elements a.device_list))
    then some (none, invalid_device)
    else if not a.lengths || is_null a.binaries
    then some (none, invalid_value)
    else load_first c (elements a.binaries)
