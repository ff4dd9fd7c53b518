-- ===== src/KernelArgs/Pod.antt =====
-- What the bytes for plain data hold after an argument is set.
use clvk.Common.{
  ℕ, zero, suc, ◌+◌, ◌*◌, ◌/◌, ◌^◌, ◌≤◌, ◌<◌, ◌≡◌, ◌⊎◌, inl, inr, refl, ap, ◌∙◌, true, false, List,
  [], ◌∷◌, some, arith, length, take, length-take, read_at, write_at, le_bytes, from_le,
  read_at-write_at, read_at-write_before, read_at-write_after,
}
use clvk.Codes.{success}
use clvk.KernelArgs.{
  Arg, Mem, Value, Values, set_arg, set_pod_arg, set_pointer_arg, set_pod_data, pod_size_matches,
  is_pod, is_pod_pointer,
}

-- `Holds o bs d d'`: the bytes `d'` are `d` but for `bs` at `o`.
pub record Holds (o : ℕ) (bs d d' : List ℕ) : Type 0 where
  pub written : read_at o (length bs) d' ≡ bs
  pub others : (p n : ℕ) → (p + n ≤ o) ⊎ (o + length bs ≤ p) → read_at p n d' ≡ read_at p n d

write_at-Holds : (o : ℕ) (bs d : List ℕ) → o + length bs ≤ length d → Holds o bs d (write_at o bs d)
write_at-Holds o bs d h = record {
  written = read_at-write_at o bs d h;
  others = λ p n c. elim c [
    | inl before ↦ read_at-write_before p n o bs d before
    | inr after ↦ read_at-write_after p n o bs d after
  ];
}

-- An argument of plain data that is set with a size that fits it: the call succeeds, the argument's
-- bytes are then the first of the value's, and all other bytes are as before.
pub set_arg-Holds :
    (a : Arg) (size : ℕ) (x : Value) (v : Values) (d : List ℕ)
    → is_pod a.kind ≡ true
    → is_pod_pointer a.kind ≡ false
    → pod_size_matches a size ≡ true
    → a.size ≤ length x.bytes
    → v.pod_data ≡ some d
    → a.offset + a.size ≤ length d
    → let (e, w) = set_arg a size x v in
      (e ≡ success)
      × ((w.pod_data ≡ some (write_at a.offset (take a.size x.bytes) d))
          × (Holds a.offset (take a.size x.bytes) d (write_at a.offset (take a.size x.bytes) d)
              × (length (take a.size x.bytes) ≡ a.size)))
unfolding set_arg set_pod_arg set_pod_data
set_arg-Holds a size x v d pod not_pointer fits enough e room =
    let n : length (take a.size x.bytes) ≡ a.size = omega (arith, length-take a.size x.bytes) in
    let holds = write_at-Holds a.offset (take a.size x.bytes) d (omega (arith, n)) in
    (ground arith, (ground arith, (holds, n)))

-- The numbers of `k` bytes.
abbrev bound : ℕ → ℕ
bound zero = 1
bound (suc k) = 256 * bound k

from_le-le_bytes : (k n : ℕ) → n < bound k → from_le (le_bytes k n) ≡ n
from_le-le_bytes zero n h = omega arith
from_le-le_bytes (suc k) n h =
    let rest = from_le-le_bytes k (n / 256) (omega arith) in omega (arith, rest)

take-whole {ℓ} : {A : Type ℓ} (n : ℕ) (xs : List A) → length xs ≡ n → take n xs ≡ xs
take-whole zero [] h = refl
take-whole zero (x ∷ xs) h = absurd (omega arith)
take-whole (suc n) [] h = refl
take-whole (suc n) (x ∷ xs) h = ap (λ ys. x ∷ ys) (take-whole n xs (omega arith))

-- A pointer argument of eight bytes that is set to a valid buffer: the call succeeds, and the eight
-- bytes that the kernel reads at the argument's offset are the buffer's device address.
pointer_roundtrip :
    (a : Arg) (x : Value) (m : Mem) (v : Values) (d : List ℕ)
    → is_pod_pointer a.kind ≡ true
    → a.size ≡ 8
    → x.mem ≡ some m
    → m.valid ≡ true
    → m.is_buffer ≡ true
    → m.device_address < 2 ^ 64
    → v.pod_data ≡ some d
    → a.offset + 8 ≤ length d
    → let (e, w) = set_arg a 8 x v in
      (e ≡ success)
      × ((d' : List ℕ) × ((w.pod_data ≡ some d')
            × (from_le (read_at a.offset 8 d') ≡ m.device_address)))
unfolding set_arg set_pointer_arg set_pod_data
pointer_roundtrip a x m v d ptr eight e valid is_buffer small data_there room =
    let bs = le_bytes 8 m.device_address in
    let whole : take a.size bs ≡ bs = rw eight refl in
    let back = read_at-write_at a.offset bs d room in
    (
      ground arith,
      (
        write_at a.offset bs d,
        (ground arith, ap from_le back ∙ from_le-le_bytes 8 m.device_address small),
      ),
    )
