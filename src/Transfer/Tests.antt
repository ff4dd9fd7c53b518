-- ===== src/Transfer/Tests.antt =====
-- The theorems on copies and fills for a rectangle of two rows in two slices.
use clvk.Common.{ℕ, ◌+◌, ◌*◌, ◌%◌, ◌<◌, ◌≡◌, some, arith}
use clvk.Codes.{success}
use clvk.Transfer.{Memory, Triple, Copier, new_copier, fill_buffer}
use clvk.Transfer.Jobs.{Outside}
use clvk.Transfer.Fill.{fill_buffer_repeats}

abbrev triple : ℕ → ℕ → ℕ → Triple
triple x y z = record { x = x; y = y; z = z }

-- Two bytes of two rows of two slices. The host's rows follow one another.
abbrev copier : Copier
copier = new_copier (triple 1 0 0) (triple 0 0 0) (triple 2 2 2) 4 8 0 0 1

-- A memory whose bytes are their addresses.
abbrev bytes : Memory
bytes i = i

fill_buffer_repeats_example :
    let (e, m') = fill_buffer (some 100) 4 (3 * 2) bytes 2 bytes in
    (e ≡ success)
    × (((i : ℕ) → i < 3 * 2 → m' (100 + 4 + i) ≡ i % 2)
        × ((i : ℕ) → Outside (3 * 2) i (100 + 4) → m' i ≡ i))
fill_buffer_repeats_example = fill_buffer_repeats 100 4 3 2 bytes bytes (omega arith) (omega arith)
