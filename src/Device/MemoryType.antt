-- ===== src/Device/MemoryType.antt =====
-- The memory type that is chosen: the first that fits, of the first set of flags that some type
-- fits.
use Prim.Native.Nat.{bit_and}
use clvk.Common.{
  ◌≢◌, ◌^◌, ℕ, zero, suc, ◌+◌, ◌≤◌, ◌<◌, ◌≡◌, refl, sym, ap, ◌∙◌, subst, ◌⊎◌, inl, inr, true, false,
  List, [], ◌∷◌, some, arith, ◌==◌, Bool-cases, some-injective, none≢some, length, get_elem?,
}
use clvk.Device.{
  MemoryTypes, max_memory_types, is_suitable, first_suitable, memory_type_index, index_among,
  index_avoiding,
}

abbrev pub IsIn : ℕ → List ℕ → Type 0
IsIn x [] = ⊥
IsIn x (y ∷ ys) = (x ≡ y) ⊎ IsIn x ys

-- No type suits the flags.
abbrev pub NoneSuits : MemoryTypes → ℕ → ℕ → ℕ → Type 0
NoneSuits types valid_bits avoid required =
    (i flags : ℕ)
    → get_elem? types i ≡ some flags
    → is_suitable valid_bits required avoid i flags ≡ false

-- Type `k` suits the flags.
abbrev pub Suits : MemoryTypes → ℕ → ℕ → ℕ → ℕ → Type 0
Suits types valid_bits avoid required k =
    (flags : ℕ) × (get_elem? types k ≡ some flags)
    × (is_suitable valid_bits required avoid k flags ≡ true)

module _ (valid_bits required avoid : ℕ) where
  -- What the loop finds among the types from `k` on.
  abbrev Found : ℕ → MemoryTypes → ℕ → Type 0
  Found k types r =
      ((r ≡ max_memory_types)
        × ((i flags : ℕ)
            → get_elem? types i ≡ some flags
            → is_suitable valid_bits required avoid (k + i) flags ≡ false))
      ⊎ ((i : ℕ) × (flags : ℕ) × (r ≡ k + i)
          × (get_elem? types i ≡ some flags)
          × (is_suitable valid_bits required avoid (k + i) flags ≡ true))

  none_from :
      (f k : ℕ) (types : MemoryTypes)
      → is_suitable valid_bits required avoid k f ≡ false
      → ((i flags : ℕ)
          → get_elem? types i ≡ some flags
          → is_suitable valid_bits required avoid (suc k + i) flags ≡ false)
      → (i flags : ℕ) → get_elem? (f ∷ types) i ≡ some flags
      → is_suitable valid_bits required avoid (k + i) flags ≡ false
  none_from f k types n h zero flags e =
      subst (λ j. is_suitable valid_bits required avoid j flags ≡ false) (omega arith)
        (subst (λ x. is_suitable valid_bits required avoid k x ≡ false) (some-injective e) n)
  none_from f k types n h (suc i) flags e =
      subst (λ j. is_suitable valid_bits required avoid j flags ≡ false) (omega arith) (h i flags e)

  Found-later :
      (f k r : ℕ) (types : MemoryTypes)
      → is_suitable valid_bits required avoid k f ≡ false
      → Found (suc k) types r
      → Found k (f ∷ types) r
  Found-later f k r types n (inl (e, h)) = inl (e, none_from f k types n h)
  Found-later f k r types n (inr (i, flags, at_i, e, y)) =
      let shift : suc k + i ≡ k + suc i = omega arith in
      inr (
        suc i,
        flags,
        at_i ∙ shift,
        e,
        subst (λ j. is_suitable valid_bits required avoid j flags ≡ true) shift y,
      )

  first_suitable-Found :
      (types : MemoryTypes) (k : ℕ)
      → Found k types (first_suitable valid_bits required avoid k types)
  unfolding first_suitable
  first_suitable-Found [] k = inl (refl, λ i flags e. absurd (none≢some e))
  first_suitable-Found (f ∷ types) k =
      elim (Bool-cases (is_suitable valid_bits required avoid k f)) [
        | inl y ↦
            let here : k ≡ k + 0 = omega arith in
            rw (y, first_suitable)
              (inr (
                0,
                f,
                here,
                refl,
                subst (λ j. is_suitable valid_bits required avoid j f ≡ true) here y,
              ))
        | inr n ↦
            rw (n, first_suitable) (Found-later f k _ types n (first_suitable-Found types (suc k)))
      ]

length-get_elem? : (xs : List ℕ) (i x : ℕ) → get_elem? xs i ≡ some x → i < length xs
length-get_elem? [] i x e = absurd (none≢some e)
length-get_elem? (y ∷ xs) zero x e = omega arith
length-get_elem? (y ∷ xs) (suc i) x e = omega (arith, length-get_elem? xs i x e)

module _ (types : MemoryTypes) (valid_bits : ℕ) (few : length types ≤ max_memory_types) where
  -- A result that is an index suits, as `P`, and one that is not says that nothing does, as `Q`.
  abbrev Choice : (ℕ → Type 0) → Type 0 → ℕ → Type 0
  Choice P Q r = ((r ≡ max_memory_types) × Q) ⊎ (((r == max_memory_types) ≡ false) × P r)

  type_index_Choice :
      (required avoid : ℕ)
      → Choice
          (Suits types valid_bits avoid required)
          (NoneSuits types valid_bits avoid required)
          (memory_type_index types valid_bits required avoid)
  unfolding memory_type_index
  type_index_Choice required avoid = elim (first_suitable-Found valid_bits required avoid types 0) [
    | inl (e, h) ↦ inl (
      e,
      λ i flags g.
          subst (λ j. is_suitable valid_bits required avoid j flags ≡ false) (omega arith)
            (h i flags g),
    )
    | inr (i, flags, at_i, g, y) ↦
        let same : 0 + i ≡ i = omega arith in
        let below = length-get_elem? types i flags g in
        let found : Suits types valid_bits avoid required i =
          (flags, g, subst (λ j. is_suitable valid_bits required avoid j flags ≡ true) same y) in
        let small : (i == max_memory_types) ≡ false = ground arith in
        let is_i = at_i ∙ same in
        inr (
          ap (λ j. j == max_memory_types) is_i ∙ small,
          subst (Suits types valid_bits avoid required) (sym is_i) found,
        )
  ]

  abbrev SomeSuits : ℕ → List ℕ → ℕ → Type 0
  SomeSuits avoid supported k =
      (required : ℕ) × IsIn required supported × Suits types valid_bits avoid required k

  abbrev NoneOfSuits : ℕ → List ℕ → Type 0
  NoneOfSuits avoid supported =
      (required : ℕ) → IsIn required supported → NoneSuits types valid_bits avoid required

  later_Choice :
      (avoid required r : ℕ) (supported : List ℕ)
      → NoneSuits types valid_bits avoid required
      → Choice (SomeSuits avoid supported) (NoneOfSuits avoid supported) r
      → Choice (SomeSuits avoid (required ∷ supported)) (NoneOfSuits avoid (required ∷ supported)) r
  later_Choice avoid required r supported n (inl (e, none_later)) = inl (
    e,
    λ q m. elim m [
      | inl same ↦ subst (NoneSuits types valid_bits avoid) (sym same) n
      | inr there ↦ none_later q there
    ],
  )
  later_Choice avoid required r supported n (inr (ne, (q, m, y))) = inr (ne, (q, inr m, y))

  index_among-Choice :
      (avoid : ℕ) (supported : List ℕ)
      → Choice
          (SomeSuits avoid supported)
          (NoneOfSuits avoid supported)
          (index_among types valid_bits avoid supported)
  unfolding index_among
  index_among-Choice avoid [] = inl (refl, λ required m. absurd m)
  index_among-Choice avoid (required ∷ supported) = elim (type_index_Choice required avoid) [
    | inl (e, n) ↦
        let none_here : (memory_type_index types valid_bits required avoid == max_memory_types)
            ≡ true =
          ap (λ j. j == max_memory_types) e in
        rw (none_here, index_among)
          (later_Choice avoid required _ supported n (index_among-Choice avoid supported))
    | inr (ne, y) ↦ rw (ne, index_among) (inr (ne, (required, inl refl, y)))
  ]

-- Type `i`, with these flags, is valid, has the required flags, and none of those to avoid.
abbrev pub Fits : ℕ → ℕ → ℕ → ℕ → ℕ → Type 0
Fits valid_bits avoid required i flags =
    (bit_and (2 ^ i) valid_bits ≢ 0)
    × (bit_and flags required ≡ required)
    × (bit_and flags avoid ≡ 0)

is_suitable-Fits :
    (valid_bits avoid required i flags : ℕ)
    → is_suitable valid_bits required avoid i flags ≡ true
    → Fits valid_bits avoid required i flags
unfolding is_suitable
is_suitable-Fits valid_bits avoid required i flags h = ground arith

Fits-is_suitable :
    (valid_bits avoid required i flags : ℕ)
    → Fits valid_bits avoid required i flags
    → is_suitable valid_bits required avoid i flags ≡ true
unfolding is_suitable
Fits-is_suitable valid_bits avoid required i flags (v, r, a) = ground arith

-- Type `k` of the device fits.
abbrev pub TypeFits : MemoryTypes → ℕ → ℕ → ℕ → ℕ → Type 0
TypeFits types valid_bits avoid required k =
    (flags : ℕ) × (get_elem? types k ≡ some flags) × Fits valid_bits avoid required k flags

-- No type of the device fits.
abbrev pub NoneFits : MemoryTypes → ℕ → ℕ → ℕ → Type 0
NoneFits types valid_bits avoid required = (i : ℕ) → ¬ TypeFits types valid_bits avoid required i

Suits-TypeFits :
    (types : MemoryTypes) (valid_bits avoid required k : ℕ)
    → Suits types valid_bits avoid required k
    → TypeFits types valid_bits avoid required k
Suits-TypeFits types valid_bits avoid required k (flags, e, y) =
    (flags, e, is_suitable-Fits valid_bits avoid required k flags y)

NoneSuits-NoneFits :
    (types : MemoryTypes) (valid_bits avoid required : ℕ)
    → NoneSuits types valid_bits avoid required
    → NoneFits types valid_bits avoid required
NoneSuits-NoneFits types valid_bits avoid required n i (flags, e, fits) = absurd (
    let no_fit = n i flags e in
    let fit = Fits-is_suitable valid_bits avoid required i flags fits in cc)

-- The third overload. When it returns VK_MAX_MEMORY_TYPES, no type that is valid has all flags of
-- one of the sets. Otherwise it returns a valid type that has all flags of one of the sets, and
-- none of the flags to avoid unless every valid type that has all flags of one of the sets has one
-- of them. A device has at most VK_MAX_MEMORY_TYPES types.
pub index_avoiding_chooses :
    (types : MemoryTypes) (valid_bits avoid : ℕ) (supported : List ℕ)
    → length types ≤ max_memory_types
    → let r = index_avoiding types valid_bits avoid supported in
      ((r ≡ max_memory_types)
        × ((required : ℕ) → IsIn required supported → NoneFits types valid_bits 0 required))
      ⊎ ((required : ℕ) × IsIn required supported
          × (TypeFits types valid_bits avoid required r
              ⊎ (TypeFits types valid_bits 0 required r
                  × ((q : ℕ) → IsIn q supported → NoneFits types valid_bits avoid q))))
unfolding index_avoiding
index_avoiding_chooses types valid_bits avoid supported few =
    elim (index_among-Choice types valid_bits few avoid supported) [
      | inl (e, n) ↦
          let none_avoids = ap (λ j. j == max_memory_types) e in
          rw (none_avoids, index_avoiding)
            (elim (index_among-Choice types valid_bits few 0 supported) [
              | inl (e', n') ↦ inl (e', λ q m. NoneSuits-NoneFits types valid_bits 0 q (n' q m))
              | inr (ne, (q, m, y)) ↦ inr (
                q,
                m,
                inr (
                  Suits-TypeFits types valid_bits 0 q _ y,
                  λ p at. NoneSuits-NoneFits types valid_bits avoid p (n p at),
                ),
              )
            ])
      | inr (ne, (q, m, y)) ↦
          rw (ne, index_avoiding) (inr (q, m, inl (Suits-TypeFits types valid_bits avoid q _ y)))
    ]
