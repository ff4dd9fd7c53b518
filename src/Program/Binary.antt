-- ===== src/Program/Binary.antt =====
-- The format of the binaries of src/program.cpp. A buffer is the list of its bytes; what `write`
-- puts there is its result. A read that writes past the end of `m_code` is `none`.
pub mod Roundtrip
use clvk.Common.{
  ℕ, ◌+◌, ◌%◌, Bool, true, false, ◌&&◌, ◌||◌, List, [], ◌∷◌, ◌++◌, Option, none, some, ltb, leb,
  ◌/◌, ◌*◌, replicate, ◌==◌, if◌then◌else◌, length, take, drop, read_at, le_bytes, from_le, get_or,
  u32,
}
use clvk.Program.Options.{preserved_options, from_options}
use clvk.Program.State.{
  BuildStatus, build_success, type_none, type_compiled_object, type_library, type_executable,
  Program, set_dev_status,
}

abbrev pub binary_magic : ℕ
binary_magic = 0x6B766C63

abbrev pub binary_version : ℕ
binary_version = 2

-- `sizeof(struct clvk_binary_header)`.
abbrev pub header_size : ℕ
header_size = 16

-- `write_binary_header`.
unfoldable pub write_binary_header : Program → List ℕ
write_binary_header p =
    le_bytes 4 binary_magic
    ++ (le_bytes 4 binary_version
        ++ (le_bytes 4 p.binary_type
            ++ le_bytes 4 (u32 (length (preserved_options p.build_options)))))

-- `read_binary_header`: the type and the size of the options.
unfoldable pub read_binary_header : List ℕ → ℕ × ℕ
read_binary_header src =
    if ltb (length src) header_size
    then (type_none, 0)
    else if from_le (read_at 0 4 src) == binary_magic
    then if from_le (read_at 4 4 src) == binary_version
      then (from_le (read_at 8 4 src), from_le (read_at 12 4 src))
      else (type_none, 0)
    else (type_none, 0)

-- The test of `read_llvm_bitcode`.
unfoldable pub is_bitcode : List ℕ → Bool
is_bitcode src =
    leb 4 (length src)
    && (get_or src 0 0 == 0x42
        && (get_or src 1 0 == 0x43 && (get_or src 2 0 == 0xc0 && get_or src 3 0 == 0xde)))

-- `read_llvm_bitcode`.
unfoldable pub read_llvm_bitcode : List ℕ → Program → Program × Bool
read_llvm_bitcode src p =
    if is_bitcode src
    then (
      record p { ir = src; dev_status = set_dev_status p.device build_success p.dev_status },
      true,
    )
    else (p, false)

abbrev pub zeros : ℕ → List ℕ
zeros n = replicate n 0

-- `spir_binary::read`, with `load`: the bytes, whose number is a `uint32_t`, are read to a buffer
-- of `size / 4` words. A read of more bytes than the buffer has is `none`.
unfoldable pub read_spirv : List ℕ → Program → Option (Program × Bool)
read_spirv src p =
    let size = u32 (length src) in
    let buffer = zeros (size / 4 * 4) in
    if leb size (length buffer)
    then some
        (record p { code = take size src ++ drop size buffer; loaded_from_binary = true }, true)
    else none

-- The type is kept only when the read succeeded.
abbrev pub with_type : ℕ → Program × Bool → Program × Bool
with_type t (p, true) = (record p { binary_type = t }, true)
with_type t (p, false) = (p, false)

abbrev pub finish : ℕ → Option (Program × Bool) → Option (Program × Bool)
finish t none = none
finish t (some r) = some (with_type t r)

-- What `read` does without a header.
unfoldable pub read_raw : List ℕ → Program → Option (Program × Bool)
read_raw src p =
    if is_bitcode src
    then some (with_type type_compiled_object (read_llvm_bitcode src p))
    else finish type_executable (read_spirv src p)

-- What `read` does with what follows the options.
unfoldable pub read_code : ℕ → List ℕ → Program → Option (Program × Bool)
read_code t src p =
    if t == type_library || t == type_compiled_object
    then some (with_type t (read_llvm_bitcode src p))
    else if t == type_executable
    then finish t (read_spirv src p)
    else some (p, false)

-- What `read` does with what follows the header.
unfoldable pub read_options : ℕ → ℕ → List ℕ → Program → Option (Program × Bool)
read_options t options_size src p =
    if ltb (length src) options_size
    then some (p, false)
    else read_code t (drop options_size src)
        (record p { build_options = from_options (take options_size src) })

-- `read`.
unfoldable pub read : List ℕ → Program → Option (Program × Bool)
read src p =
    let (t, options_size) = read_binary_header src in
    if t == type_none then read_raw src p else read_options t options_size (drop header_size src) p

-- The code that `write` puts behind the options, and its result.
unfoldable pub written_code : Program → List ℕ × Bool
written_code p =
    if p.binary_type == type_library || p.binary_type == type_compiled_object
    then (p.ir, true)
    else if p.binary_type == type_executable
    then (p.code, true)
    else ([], false)

-- `write`.
unfoldable pub write : Program → List ℕ × Bool
write p =
    let (code, ok) = written_code p in
    (write_binary_header p ++ (preserved_options p.build_options ++ code), ok)

-- `binary_size`.
unfoldable pub binary_size : Program → ℕ
binary_size p =
    let size = header_size + length (preserved_options p.build_options) in
    if p.binary_type == type_library || p.binary_type == type_compiled_object
    then size + length p.ir
    else if p.binary_type == type_executable
    then size + length p.code
    else 0
