-- ===== src/Common/Bytes.antt =====
-- Bytes in memory: what `memcpy` writes, and the bytes of a number.
use Prim.Native.Nat.{ℕ, zero, suc, ◌+◌, ◌*◌, ◌/◌, ◌%◌, ◌≤◌}
use mathlib.Core.Path.{◌≡◌, refl, ap}
use mathlib.Core.List.{List, [], ◌∷◌}
use native.Mathlib.Omega.{arith}
use clvk.Common.Lists.{length, take, drop}

-- The bytes `bs` over the first of `xs`. A write past the end changes nothing there.
abbrev pub overwrite : List ℕ → List ℕ → List ℕ
overwrite [] xs = xs
overwrite (b ∷ bs) [] = []
overwrite (b ∷ bs) (x ∷ xs) = b ∷ overwrite bs xs

-- `memcpy(&xs[o], bs, length bs)`.
abbrev pub write_at : ℕ → List ℕ → List ℕ → List ℕ
write_at zero bs xs = overwrite bs xs
write_at (suc o) bs [] = []
write_at (suc o) bs (x ∷ xs) = x ∷ write_at o bs xs

-- The `n` bytes at `o`.
abbrev pub read_at : ℕ → ℕ → List ℕ → List ℕ
read_at o n xs = take n (drop o xs)

-- The `k` bytes of a number, the lowest first.
abbrev pub le_bytes : ℕ → ℕ → List ℕ
le_bytes zero n = []
le_bytes (suc k) n = n % 256 ∷ le_bytes k (n / 256)

-- The number of a list of bytes, the lowest first.
abbrev pub from_le : List ℕ → ℕ
from_le [] = 0
from_le (b ∷ bs) = b + 256 * from_le bs

pub length-overwrite : (bs xs : List ℕ) → length (overwrite bs xs) ≡ length xs
length-overwrite [] xs = refl
length-overwrite (b ∷ bs) [] = refl
length-overwrite (b ∷ bs) (x ∷ xs) = ap suc (length-overwrite bs xs)

pub length-write_at : (o : ℕ) (bs xs : List ℕ) → length (write_at o bs xs) ≡ length xs
length-write_at zero bs xs = length-overwrite bs xs
length-write_at (suc o) bs [] = refl
length-write_at (suc o) bs (x ∷ xs) = ap suc (length-write_at o bs xs)

pub take-overwrite :
    (bs xs : List ℕ) → length bs ≤ length xs → take (length bs) (overwrite bs xs) ≡ bs
take-overwrite [] xs h = refl
take-overwrite (b ∷ bs) [] h = elim h [ ]
take-overwrite (b ∷ bs) (x ∷ xs) h = ap (λ ys. b ∷ ys) (take-overwrite bs xs (omega arith))

pub drop-overwrite : (bs xs : List ℕ) → drop (length bs) (overwrite bs xs) ≡ drop (length bs) xs
drop-overwrite [] xs = refl
drop-overwrite (b ∷ bs) [] = refl
drop-overwrite (b ∷ bs) (x ∷ xs) = drop-overwrite bs xs

-- What was written is read back.
pub read_at-write_at :
    (o : ℕ) (bs xs : List ℕ)
    → o + length bs ≤ length xs
    → read_at o (length bs) (write_at o bs xs) ≡ bs
read_at-write_at zero bs xs h = take-overwrite bs xs (omega arith)
read_at-write_at (suc o) bs [] h = absurd (omega arith)
read_at-write_at (suc o) bs (x ∷ xs) h = read_at-write_at o bs xs (omega arith)

-- What lies before a write stays.
pub read_at-write_before :
    (p n o : ℕ) (bs xs : List ℕ) → p + n ≤ o → read_at p n (write_at o bs xs) ≡ read_at p n xs
read_at-write_before p zero o bs xs h = refl
read_at-write_before zero (suc n) zero bs xs h = absurd (omega arith)
read_at-write_before zero (suc n) (suc o) bs [] h = refl
read_at-write_before zero (suc n) (suc o) bs (x ∷ xs) h =
    ap (λ ys. x ∷ ys) (read_at-write_before zero n o bs xs (omega arith))
read_at-write_before (suc p) (suc n) zero bs xs h = absurd (omega arith)
read_at-write_before (suc p) (suc n) (suc o) bs [] h = refl
read_at-write_before (suc p) (suc n) (suc o) bs (x ∷ xs) h =
    read_at-write_before p (suc n) o bs xs (omega arith)

drop-overwrite_after :
    (p : ℕ) (bs xs : List ℕ) → length bs ≤ p → drop p (overwrite bs xs) ≡ drop p xs
drop-overwrite_after p [] xs h = refl
drop-overwrite_after zero (b ∷ bs) xs h = absurd (omega arith)
drop-overwrite_after (suc p) (b ∷ bs) [] h = refl
drop-overwrite_after (suc p) (b ∷ bs) (x ∷ xs) h = drop-overwrite_after p bs xs (omega arith)

drop-write_after :
    (p o : ℕ) (bs xs : List ℕ) → o + length bs ≤ p → drop p (write_at o bs xs) ≡ drop p xs
drop-write_after p zero bs xs h = drop-overwrite_after p bs xs (omega arith)
drop-write_after zero (suc o) bs xs h = absurd (omega arith)
drop-write_after (suc p) (suc o) bs [] h = refl
drop-write_after (suc p) (suc o) bs (x ∷ xs) h = drop-write_after p o bs xs (omega arith)

-- What lies after a write stays.
pub read_at-write_after :
    (p n o : ℕ) (bs xs : List ℕ)
    → o + length bs ≤ p
    → read_at p n (write_at o bs xs) ≡ read_at p n xs
read_at-write_after p n o bs xs h = ap (take n) (drop-write_after p o bs xs h)

pub length-le_bytes : (k n : ℕ) → length (le_bytes k n) ≡ k
length-le_bytes zero n = refl
length-le_bytes (suc k) n = ap suc (length-le_bytes k (n / 256))
