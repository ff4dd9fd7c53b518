-- ===== src/Mapping/Entries.antt =====
-- The table of mappings of a buffer, as the commands of src/queue.cpp find it and leave it.
use clvk.Common.{
  ℕ, ◌≡◌, Bool, true, false, List, [], ◌∷◌, none, some, ◌==◌, arith, Bool-cases, Option-cases, inl,
  inr, refl, ap, ◌∙◌,
}
use clvk.Codes.{success}
use clvk.Mapping.{unmap_memory}
use clvk.Mapping.Table.{
  Buffer, BufferMapping, MapCommand, find_mapping, erase_mapping, unmap_buffer, insert_mapping,
  remove_mapping, do_map, do_unmap,
}

erase_absent :
    (p : ℕ) (ms : List BufferMapping) → find_mapping p ms ≡ none → erase_mapping p ms ≡ ms
unfolding find_mapping erase_mapping
erase_absent p [] h = refl
erase_absent p (m ∷ ms) h = let rest = erase_absent p ms in ground arith

pub find_erased : (p : ℕ) (ms : List BufferMapping) → find_mapping p (erase_mapping p ms) ≡ none
unfolding find_mapping erase_mapping
find_erased p [] = refl
find_erased p (m ∷ ms) =
    let rest = find_erased p ms in
    elim (Bool-cases (m.ptr == p)) [ inl e ↦ rw e rest | inr e ↦ rw e (rw e rest) ]

insert_fresh :
    (m : BufferMapping) (b : Buffer)
    → find_mapping m.ptr b.mappings ≡ none
    → insert_mapping m b ≡ (true, record b { mappings = m ∷ b.mappings })
unfolding insert_mapping
insert_fresh m b h = rw (h, insert_mapping) refl

insert_again :
    (m n : BufferMapping) (b : Buffer)
    → find_mapping m.ptr b.mappings ≡ some n
    → insert_mapping m b ≡ (false, b)
unfolding insert_mapping
insert_again m n b h = rw (h, insert_mapping) refl

pub do_map_fresh :
    (m : BufferMapping) (c : MapCommand) (b : Buffer)
    → find_mapping m.ptr b.mappings ≡ none
    → do_map true m c b
      ≡ (success, (record c { needs_releasing = false }, record b { mappings = m ∷ b.mappings }))
unfolding do_map
do_map_fresh m c b h = elim (Option-cases b.use_host_ptr) [
  | inl n ↦ rw (insert_fresh m b h, n) refl
  | inr (q, n) ↦ rw (insert_fresh m b h, n) refl
]

pub do_map_again :
    (copied : Bool) (m n : BufferMapping) (c : MapCommand) (b : Buffer)
    → find_mapping m.ptr b.mappings ≡ some n
    → do_map copied m c b ≡ (success, (c, b))
unfolding do_map
do_map_again copied m n c b h = rw (insert_again m n b h) refl

find_first : (m : BufferMapping) (ms : List BufferMapping) → find_mapping m.ptr (m ∷ ms) ≡ some m
unfolding find_mapping
find_first m ms = ground arith

erase_first :
    (m : BufferMapping) (ms : List BufferMapping)
    → find_mapping m.ptr ms ≡ none
    → erase_mapping m.ptr (m ∷ ms) ≡ ms
unfolding erase_mapping
erase_first m ms h = let rest = erase_absent m.ptr ms h in ground arith

remove_found :
    (p : ℕ) (m : BufferMapping) (b : Buffer)
    → find_mapping p b.mappings ≡ some m
    → remove_mapping p b
      ≡ some (m, unmap_buffer (record b { mappings = erase_mapping p b.mappings }))
unfolding remove_mapping
remove_found p m b h = rw (h, remove_mapping) refl

unmap_found :
    (p : ℕ) (m : BufferMapping) (b : Buffer)
    → find_mapping p b.mappings ≡ some m
    → do_unmap true p b
      ≡ some (success, unmap_buffer (record b { mappings = erase_mapping p b.mappings }))
unfolding do_unmap
unmap_found p m b h = elim (Option-cases b.use_host_ptr) [
  | inl n ↦ rw (remove_found p m b h, do_unmap, n) refl
  | inr (q, n) ↦ rw (remove_found p m b h, do_unmap, n) refl
]

pub unmap_first :
    (m : BufferMapping) (ms : List BufferMapping) (b : Buffer)
    → b.mappings ≡ m ∷ ms
    → find_mapping m.ptr ms ≡ none
    → do_unmap true m.ptr b
      ≡ some (success, record b { chain = unmap_memory b.chain; mappings = ms })
unfolding unmap_buffer
unmap_first m ms b e h =
    let first : find_mapping m.ptr b.mappings ≡ some m = rw e (find_first m ms) in
    let rest : erase_mapping m.ptr b.mappings ≡ ms = rw e (erase_first m ms h) in
    unmap_found m.ptr m b first
    ∙ ap (λ x. some (success, unmap_buffer (record b { mappings = x }))) rest

pub unmap_absent :
    (copied : Bool) (p : ℕ) (b : Buffer)
    → find_mapping p b.mappings ≡ none
    → do_unmap copied p b ≡ none
unfolding do_unmap remove_mapping
unmap_absent copied p b h = rw (h, do_unmap, remove_mapping) refl
