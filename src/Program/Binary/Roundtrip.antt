-- ===== src/Program/Binary/Roundtrip.antt =====
-- A program that is written to a binary and read again.
use mathlib.Core.List.{append-nil}
use clvk.Common.{
  zero, suc, ◌*◌, ◌/◌, leb, length-replicate, ℕ, ◌+◌, ◌%◌, ◌^◌, ◌<◌, ◌≡◌, refl, sym, ap, ap₂, ◌∙◌,
  ◌⊎◌, inl, inr, Bool, true, false, ◌||◌, List, [], ◌∷◌, ◌++◌, Option, some, arith, ltb, ◌==◌,
  length, take, drop, le_bytes, from_le, u32, u32-id, length-append,
}
use clvk.Program.Options.{preserved_options, from_options, str}
use clvk.Program.Options.Roundtrip.{IsKnown, from_string-str}
use clvk.Program.State.{
  build_success, type_none, type_compiled_object, type_library, type_executable, Program,
  set_dev_status,
}
use clvk.Program.Binary.{
  zeros, header_size, binary_magic, binary_version, write_binary_header, read_binary_header,
  is_bitcode, read_llvm_bitcode, read_spirv, with_type, read_code, read_options, read, written_code,
  write, binary_size,
}

pub take-append : (xs ys : List ℕ) → take (length xs) (xs ++ ys) ≡ xs
take-append [] ys = refl
take-append (x ∷ xs) ys = ap (λ r. x ∷ r) (take-append xs ys)

pub drop-append : (xs ys : List ℕ) → drop (length xs) (xs ++ ys) ≡ ys
drop-append [] ys = refl
drop-append (x ∷ xs) ys = drop-append xs ys

take_all : (xs : List ℕ) → take (length xs) xs ≡ xs
take_all [] = refl
take_all (x ∷ xs) = ap (λ r. x ∷ r) (take_all xs)

from_le-le_bytes : (n : ℕ) → n < 2 ^ 32 → from_le (le_bytes 4 n) ≡ n
from_le-le_bytes n h = omega arith

eq_lt : {a b c : ℕ} → a ≡ b → b < c → a < c
eq_lt e h = omega (arith, e)

-- The program has options that were read or merged, and code of the kind that its type says.
pub record IsWritable (p : Program) : Type 0 where
  pub known : IsKnown p.build_options.preserved
  pub short : length (preserved_options p.build_options) < 2 ^ 32
  pub code :
      (((p.binary_type ≡ type_library) ⊎ (p.binary_type ≡ type_compiled_object))
        × (is_bitcode p.ir ≡ true))
      ⊎ ((p.binary_type ≡ type_executable) × (length p.code < 2 ^ 32) × (length p.code % 4 ≡ 0))

header_read :
    (t n : ℕ) (rest : List ℕ)
    → t < 2 ^ 32
    → n < 2 ^ 32
    → read_binary_header (
        (le_bytes 4 binary_magic ++ (le_bytes 4 binary_version ++ (le_bytes 4 t ++ le_bytes 4 n)))
        ++ rest)
      ≡ (t, n)
unfolding read_binary_header
header_read t n rest h k =
    let long : ltb
          (length (
            le_bytes 4 binary_magic
            ++ (le_bytes 4 binary_version ++ (le_bytes 4 t ++ (le_bytes 4 n ++ rest)))))
          header_size
        ≡ false =
      ground arith in
    rw long (ap₂ (λ a b. (a, b)) (from_le-le_bytes t h) (from_le-le_bytes n k))

module _ (p : Program) (w : IsWritable p) where
  abbrev options : List ℕ
  options = preserved_options p.build_options

  type_small : p.binary_type < 2 ^ 32
  type_small = elim w.code [
    | inl (inl e, b) ↦ omega arith
    | inl (inr e, b) ↦ omega arith
    | inr (e, k, m) ↦ omega arith
  ]

  type_known : (p.binary_type == type_none) ≡ false
  type_known = elim w.code [
    | inl (inl e, b) ↦ ground arith
    | inl (inr e, b) ↦ ground arith
    | inr (e, k, m) ↦ ground arith
  ]

  header_lem :
      (code : List ℕ)
      → read_binary_header (write_binary_header p ++ (options ++ code))
        ≡ (p.binary_type, length options)
  unfolding write_binary_header
  header_lem code =
      header_read p.binary_type (u32 (length options)) (options ++ code) type_small
        (eq_lt (u32-id w.short) w.short)
      ∙ ap (λ n. (p.binary_type, n)) (u32-id w.short)

  options_read :
      (code : List ℕ) (q : Program)
      → read_options p.binary_type (length options) (options ++ code) q
        ≡ read_code p.binary_type code (record q { build_options = from_options options })
  unfolding read_options
  options_read code q =
      let long : ltb (length (options ++ code)) (length options) ≡ false =
        ground (arith, length-append options code) in
      rw long (
        ap₂ (λ c o. read_code p.binary_type c (record q { build_options = from_options o }))
          (drop-append options code) (take-append options code))

  header_dropped : (rest : List ℕ) → drop header_size (write_binary_header p ++ rest) ≡ rest
  unfolding write_binary_header
  header_dropped rest = refl

  read-write :
      (q : Program)
      → read (write p).0 q
        ≡ read_code p.binary_type
            (written_code p).0
            (record q { build_options = from_options options })
  unfolding read write
  read-write q =
      rw (header_lem (written_code p).0, read)
        (rw type_known (
          ap (λ src. read_options p.binary_type (length options) src q)
            (header_dropped (options ++ (written_code p).0))
          ∙ options_read (written_code p).0 q))

-- What the program `r` has of the program `p`.
pub record Restored (p r : Program) : Type 0 where
  pub type : r.binary_type ≡ p.binary_type
  pub preserved : r.build_options.preserved ≡ p.build_options.preserved
  pub code : written_code r ≡ written_code p
  pub same : write r ≡ write p

abbrev pub ReadBack : Program → Option (Program × Bool) → Type 0
ReadBack p o = (r : Program) × (o ≡ some (r, true)) × Restored p r

restored :
    (p r : Program)
    → IsKnown p.build_options.preserved
    → r.binary_type ≡ p.binary_type
    → r.build_options ≡ from_options (preserved_options p.build_options)
    → written_code r ≡ written_code p
    → Restored p r
unfolding write write_binary_header preserved_options from_options
restored p r known t o c =
    let kept : r.build_options.preserved ≡ p.build_options.preserved =
      ap (λ b. b.preserved) o ∙ from_string-str p.build_options.preserved known in
    record {
      type = t;
      preserved = kept;
      code = c;
      same = λ i. (
        (le_bytes 4 binary_magic
              ++ (le_bytes 4 binary_version
                  ++ (le_bytes 4 (t i) ++ le_bytes 4 (u32 (length (str (kept i)))))))
            ++ (str (kept i) ++ (c i).0),
        (c i).1,
      );
    }

abbrev IsIr : ℕ → Type 0
IsIr t = (t ≡ type_library) ⊎ (t ≡ type_compiled_object)

with_ir : ℕ → List ℕ → Program → Program
with_ir t c q = record q {
  ir = c;
  dev_status = set_dev_status q.device build_success q.dev_status;
  binary_type = t;
}

with_spirv : ℕ → List ℕ → Program → Program
with_spirv t c q = record q { code = c; loaded_from_binary = true; binary_type = t }

IsIr-test : (t : ℕ) → IsIr t → (t == type_library || t == type_compiled_object) ≡ true
IsIr-test t (inl e) = ground arith
IsIr-test t (inr e) = ground arith

bitcode_read :
    (c : List ℕ) (q : Program)
    → is_bitcode c ≡ true
    → read_llvm_bitcode c q
      ≡ (record q { ir = c; dev_status = set_dev_status q.device build_success q.dev_status }, true)
unfolding read_llvm_bitcode
bitcode_read c q b = rw b

ir_read :
    (t : ℕ) (c : List ℕ) (q : Program)
    → IsIr t
    → is_bitcode c ≡ true
    → read_code t c q ≡ some (with_ir t c q, true)
unfolding read_code with_ir
ir_read t c q k b = rw (IsIr-test t k) (ap (λ r. some (with_type t r)) (bitcode_read c q b))

drop-zeros : (n : ℕ) → drop n (zeros n) ≡ []
drop-zeros zero = refl
drop-zeros (suc n) = drop-zeros n

-- Whole words fill their buffer.
words_fill :
    (c : List ℕ)
    → length c % 4 ≡ 0
    → (leb (length c) (length (zeros (length c / 4 * 4))) ≡ true)
      × (take (length c) c ++ drop (length c) (zeros (length c / 4 * 4)) ≡ c)
words_fill c k =
    let whole : length c / 4 * 4 ≡ length c = omega arith in
    let same : length (zeros (length c)) ≡ length c = length-replicate (length c) 0 in
    (rw (whole, same) (ground arith), rw (whole, drop-zeros (length c), take_all c) (append-nil c))

spirv_read :
    (t : ℕ) (c : List ℕ) (q : Program)
    → t ≡ type_executable
    → length c < 2 ^ 32
    → length c % 4 ≡ 0
    → read_code t c q ≡ some (with_spirv t c q, true)
unfolding read_code read_spirv with_spirv
spirv_read t c q e h k =
    let not_ir : (t == type_library || t == type_compiled_object) ≡ false = ground arith in
    let is_exe : (t == type_executable) ≡ true = ground arith in
    let (fits, same) = words_fill c k in
    rw not_ir (rw is_exe (rw (u32-id h, fits) (ap (λ x. some (with_spirv t x q, true)) same)))

module _ (p q : Program) (w : IsWritable p) where
  abbrev reader : Program
  reader = record q { build_options = from_options (preserved_options p.build_options) }

  abbrev total_size : ℕ → ℕ
  total_size n = header_size + length (preserved_options p.build_options) + n

  written_size : length (write p).0 ≡ total_size (length (written_code p).0)
  unfolding write write_binary_header
  written_size = omega (arith, length-append (preserved_options p.build_options) (written_code p).0)

  code_of_ir : IsIr p.binary_type → written_code p ≡ (p.ir, true)
  unfolding written_code
  code_of_ir k = rw (IsIr-test p.binary_type k)

  not_ir :
      p.binary_type ≡ type_executable
      → (p.binary_type == type_library || p.binary_type == type_compiled_object) ≡ false
  not_ir e = ground arith

  is_executable : p.binary_type ≡ type_executable → (p.binary_type == type_executable) ≡ true
  is_executable e = ground arith

  code_of_spirv : p.binary_type ≡ type_executable → written_code p ≡ (p.code, true)
  unfolding written_code
  code_of_spirv e = rw (not_ir e) (rw (is_executable e))

  size_of_ir : IsIr p.binary_type → binary_size p ≡ total_size (length p.ir)
  unfolding binary_size
  size_of_ir k = rw (IsIr-test p.binary_type k)

  size_of_spirv : p.binary_type ≡ type_executable → binary_size p ≡ total_size (length p.code)
  unfolding binary_size
  size_of_spirv e = rw (not_ir e) (rw (is_executable e))

  abbrev Survives : Type 0
  Survives =
      ((write p).1 ≡ true) × (length (write p).0 ≡ binary_size p) × ReadBack p (read (write p).0 q)

  written_ir : IsIr p.binary_type → is_bitcode p.ir ≡ true → Survives
  unfolding with_ir written_code write
  written_ir k b =
      let c = code_of_ir k in
      let test = IsIr-test p.binary_type k in
      (
        ap (λ r. r.1) c,
        written_size ∙ ap (λ r. total_size (length r.0)) c ∙ sym (size_of_ir k),
        (
          with_ir p.binary_type p.ir reader,
          read-write p w q
              ∙ ap (λ r. read_code p.binary_type r.0 reader) c
              ∙ ir_read p.binary_type p.ir reader k b,
          restored p _ w.known refl refl (rw test),
        ),
      )

  written_spirv :
      p.binary_type ≡ type_executable → length p.code < 2 ^ 32 → length p.code % 4 ≡ 0 → Survives
  unfolding with_spirv written_code write
  written_spirv e h k =
      let c = code_of_spirv e in
      (
        ap (λ r. r.1) c,
        written_size ∙ ap (λ r. total_size (length r.0)) c ∙ sym (size_of_spirv e),
        (
          with_spirv p.binary_type p.code reader,
          read-write p w q
              ∙ ap (λ r. read_code p.binary_type r.0 reader) c
              ∙ spirv_read p.binary_type p.code reader e h k,
          restored p _ w.known refl refl (rw (not_ir e) (rw (is_executable e))),
        ),
      )

module _ (p q : Program) (w : IsWritable p) where
  -- The program that has read an executable.
  pub executable_read :
      p.binary_type ≡ type_executable
      → read (write p).0 q
        ≡ some (
          record q {
            build_options = from_options (preserved_options p.build_options);
            code = p.code;
            loaded_from_binary = true;
            binary_type = p.binary_type;
          },
          true,
        )
  unfolding with_spirv
  executable_read e = elim w.code [
    | inl (k, b) ↦ absurd (elim k [ inl l ↦ omega (arith, l, e) | inr l ↦ omega (arith, l, e) ])
    | inr (e', h, k) ↦
        read-write p w q
        ∙ ap (λ r. read_code p.binary_type r.0 (reader p q w)) (code_of_spirv p q w e)
        ∙ spirv_read p.binary_type p.code (reader p q w) e h k
  ]

  pub written_some : (length (write p).0 == 0) ≡ false
  written_some = ground (arith, written_size p q w)

-- A program that is written and read again, by a program in any state, whose options were read or
-- merged and take less than 2 ^ 32 bytes, and whose code is bitcode, or SPIR-V of whole words and
-- less than 2 ^ 32 bytes: the write and the read succeed, the binary has the size that is
-- announced, and the program that has read it has the type, the preserved options and the code, and
-- is written as the same binary.
pub write-read :
    (p q : Program)
    → IsWritable p
    → ((write p).1 ≡ true) × (length (write p).0 ≡ binary_size p) × ReadBack p (read (write p).0 q)
write-read p q w = elim w.code [
  | inl (k, b) ↦ written_ir p q w k b
  | inr (e, h, k) ↦ written_spirv p q w e h k
]
