-- ===== src/Program/Entry/Rebuild.antt =====
-- An executable that is saved and built again from its binary.
use clvk.Common.{
  ℕ, ◌≡◌, refl, ap, ◌∙◌, Bool, true, [], ◌∷◌, Option, none, some, arith, ◌==◌, if◌then◌else◌,
}
use clvk.Codes.{success, build_program_failure}
use clvk.PrintfText.{Text}
use clvk.Program.Options.{preserved_options, from_options}
use clvk.Program.State.{build_none, type_executable, Program}
use clvk.Program.Binary.{write}
use clvk.Program.Binary.Roundtrip.{IsWritable, executable_read, written_some}
use clvk.Program.Build.{build_binary, Answers}
use clvk.Program.Build.Stages.{loads, build_and_wait_answers}
use clvk.Program.Entry.{
  ContextObject, ProgramObject, new_program, BinaryArgs, request, build_valid_program,
  build_program, loaded_as, load_program, load_first, create_program_with_binary,
}
use clvk.Program.Entry.Chain.{plain, start_or_wait_plain}

-- The arguments of clCreateProgramWithBinary for the binary of a program.
abbrev pub binary_of : Program → ContextObject → BinaryArgs
binary_of p c = record {
  num_devices = 1;
  device_list = some (c.device ∷ []);
  lengths = true;
  binaries = some (some (write p).0 ∷ []);
}

-- The new program, with the executable.
abbrev loaded : Program → ContextObject → ProgramObject
loaded p c =
    let new = new_program c.device in
    record new {
      builder = record new.builder {
        program = record new.builder.program {
          build_options = from_options (preserved_options p.build_options);
          code = p.code;
          loaded_from_binary = true;
          binary_type = p.binary_type;
        };
      };
    }

load_program_lem :
    (p : Program) (c : ContextObject)
    → IsWritable p
    → p.binary_type ≡ type_executable
    → load_program c (write p).0 ≡ some (some (loaded p c), success)
unfolding load_program
load_program_lem p c w exe =
    ap (loaded_as c) (executable_read p (new_program c.device).builder.program w exe)

loaded_lem :
    (p : Program) (c : ContextObject)
    → IsWritable p
    → p.binary_type ≡ type_executable
    → c.valid ≡ true
    → create_program_with_binary (binary_of p c) (some c) ≡ some (some (loaded p c), success)
unfolding create_program_with_binary load_first
loaded_lem p c w exe valid =
    let new : Program = (new_program c.device).builder.program in
    let same : (c.device == c.device) ≡ true = ground arith in
    simp (valid, same, written_some p new w) (load_program_lem p c w exe)

-- An executable with options that were read or merged and with SPIR-V of whole words, both less
-- than 2 ^ 32 bytes: creating a program from its binary returns CL_SUCCESS and a program. Building
-- that program, without a list of devices and without a callback, needs no compiler; it returns
-- CL_SUCCESS exactly when all passes that loads an executable, and CL_BUILD_PROGRAM_FAILURE if not.
pub binary_rebuilds :
    (p : Program) (c : ContextObject) (available : ℕ → Bool) (o : Option Text) (ans : Answers)
    → IsWritable p
    → p.binary_type ≡ type_executable
    → c.valid ≡ true
    → (q : ProgramObject) × (create_program_with_binary (binary_of p c) (some c)
        ≡ some (some q, success))
      × ((build_program available (plain o) ans (some q)).1
          ≡ (if loads ans then success else build_program_failure))
unfolding build_program build_valid_program new_program
binary_rebuilds p c available o ans w exe valid =
    let q = loaded p c in
    let r = request (plain o) build_binary [] none in
    (
      q,
      loaded_lem p c w exe valid,
      ap (λ x. x.1) (start_or_wait_plain r ans q.builder refl)
          ∙ build_and_wait_answers r ans q.builder build_none refl refl refl (λ e. exe),
    )
