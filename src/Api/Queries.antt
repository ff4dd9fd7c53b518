-- ===== src/Api/Queries.antt =====
-- The queries of src/api.cpp, clGet…Info. Each finds what is asked for in a switch, and then copies
-- it to the caller. A pointer and a `size_t` take 8 bytes, and numbers are stored the lowest byte
-- first.
pub mod Objects
pub mod Memory
pub mod Shapes
pub mod Answers
mod Tests
use clvk.Common.{
  ℕ, ◌+◌, ◌++◌, Bool, true, false, List, [], ◌∷◌, Option, none, some, ltb, if◌then◌else◌, length,
  take, drop, le_bytes, min,
}
use clvk.Codes.{Code, success, invalid_value}

-- The last three arguments. `param_value` is the memory at the caller's pointer, `none` for the
-- null pointer, and `size_ret` tells whether `param_value_size_ret` is given.
pub record Request : Type 0 where
  pub param_value_size : ℕ
  pub param_value : Option (List ℕ)
  pub size_ret : Bool

-- What a switch sets: `ret`, and the bytes at `copy_ptr`, `none` for the null pointer. Their number
-- is `ret_size`.
pub record Found : Type 0 where
  pub ret : Code
  pub bytes : Option (List ℕ)

-- What the caller gets: the result, the memory at `param_value`, and what is written to
-- `param_value_size_ret`, if anything is.
pub record Outcome : Type 0 where
  pub ret : Code
  pub value : Option (List ℕ)
  pub size : Option ℕ

-- The object is refused.
abbrev pub refuse : Code → Request → Outcome
refuse e r = record { ret = e; value = r.param_value; size = none }

-- The parameter has this value.
abbrev pub value : List ℕ → Found
value bs = record { ret = success; bytes = some bs }

-- The `default` of a switch.
abbrev pub unknown : Found
unknown = record { ret = invalid_value; bytes = none }

abbrev pub cl_uint : ℕ → List ℕ
cl_uint n = le_bytes 4 n

-- Also a `cl_ulong`, a pointer and a handle, which is 0 for the null pointer.
abbrev pub size_t : ℕ → List ℕ
size_t n = le_bytes 8 n

abbrev pub cl_bool : Bool → List ℕ
cl_bool true = cl_uint 1
cl_bool false = cl_uint 0

-- A vector of 8-byte elements.
abbrev pub elements_of : List ℕ → List ℕ
elements_of [] = []
elements_of (x ∷ xs) = size_t x ++ elements_of xs

abbrev pub size_of : Option (List ℕ) → ℕ
size_of none = 0
size_of (some bs) = length bs

abbrev pub written_size : Bool → ℕ → Option ℕ
written_size true n = some n
written_size false n = none

-- `memcpy` of the first `n` bytes to the caller's memory.
abbrev pub memcpy_to : List ℕ → ℕ → List ℕ → List ℕ
memcpy_to bs n memory = take n bs ++ drop n memory

-- What a request that gives memory gets.
abbrev pub copied : ℕ → Code → Option (List ℕ) → List ℕ → Code × List ℕ
copied size ret none memory = (ret, memory)
copied size ret (some bs) memory = (
  if ltb size (length bs) then invalid_value else ret,
  memcpy_to bs (min size (length bs)) memory,
)

-- The end of the queries, that of clGetContextInfo excepted.
pub answer : Found → Request → Outcome
answer f r = elim r.param_value [
  | none ↦ record { ret = f.ret; value = none; size = written_size r.size_ret (size_of f.bytes) }
  | some memory ↦
      let (ret, new) = copied r.param_value_size f.ret f.bytes memory in
      record { ret = ret; value = some new; size = written_size r.size_ret (size_of f.bytes) }
]

-- The end of clGetContextInfo, which returns at once when the size is too small.
pub answer_or_return : Found → Request → Outcome
answer_or_return f r = elim r.param_value [
  | none ↦ answer f r
  | some memory ↦
      if ltb r.param_value_size (size_of f.bytes) then refuse invalid_value r else answer f r
]
