-- ===== src/Program/State.antt =====
-- `cvk_program` of src/program.hpp, as its binaries and its builds read it.
use clvk.Common.{ℕ, ◌≡◌, arith, Bool, List, [], ◌∷◌, ◌==◌, if◌then◌else◌}
use clvk.Program.Options.{BuildOptions}

-- `cl_build_status`.
pub data BuildStatus : Type 0 where
  build_none build_error build_in_progress build_success : BuildStatus

-- `cl_program_binary_type`, which a binary may give any value.
abbrev pub type_none : ℕ
type_none = 0

abbrev pub type_compiled_object : ℕ
type_compiled_object = 1

abbrev pub type_library : ℕ
type_library = 2

abbrev pub type_executable : ℕ
type_executable = 4

-- The statuses of the devices that have one.
abbrev pub DevStatus : Type 0
DevStatus = List (ℕ × BuildStatus)

-- `m_dev_status[device] = status`.
unfoldable pub set_dev_status : ℕ → BuildStatus → DevStatus → DevStatus
set_dev_status d s [] = (d, s) ∷ []
set_dev_status d s ((e, t) ∷ rest) =
    let later = set_dev_status d s rest in if e == d then (e, s) ∷ rest else (e, t) ∷ later

-- `device` is that of the context; `code` is the bytes of the words of `m_binary`.
pub record Program : Type 0 where
  pub device : ℕ
  pub dev_status : DevStatus
  pub binary_type : ℕ
  pub build_options : BuildOptions
  pub ir : List ℕ
  pub code : List ℕ
  pub loaded_from_binary : Bool

pub set_dev_status_single :
    (d : ℕ) (old s : BuildStatus) → set_dev_status d s ((d, old) ∷ []) ≡ (d, s) ∷ []
unfolding set_dev_status
set_dev_status_single d old s = ground arith
