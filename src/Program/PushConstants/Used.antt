-- ===== src/Program/PushConstants/Used.antt =====
-- The range of push constants against what the pipelines are given.
use clvk.Common.{
  ℕ, ◌%◌, ◌≡◌, refl, sym, ap, ◌∙◌, ◌⊎◌, inl, inr, Bool-cases, some-injective, subst, true, List, [],
  ◌∷◌, ◌++◌, Option, none, some, All,
}
use clvk.KernelArgs.{pod_pushconstant, pointer_pushconstant, Arg}
use clvk.KernelArgs.Kernel.{ImageMetadata}
use clvk.Program.PushConstants.{
  Range, is_pushconstant, argument_ranges, word_range, image_ranges, sampler_ranges, KernelRanges,
  each, all_ranges, prepare_push_constant_range,
}
use clvk.Program.PushConstants.Bounds.{IsSmall, Covers, each_covered}

unfoldable pub Mem : {A : Type 0} → A → List A → Type 0
Mem x [] = ⊥
Mem x (y ∷ ys) = (x ≡ y) ⊎ Mem x ys

List-cases : (rs : List Range) → (rs ≡ []) ⊎ ((x : Range) × (xs : List Range) × (rs ≡ x ∷ xs))
List-cases [] = inl refl
List-cases (x ∷ xs) = inr (x, xs, refl)

-- A range of bytes that the pipelines of the program are given: that of a push constant of the
-- program, of an argument of a kernel that is in push constants, or of a word of the metadata of an
-- image or of a sampler of a kernel.
pub data Used (pcs : List Range) (ks : List KernelRanges) : Range → Type 0 where
  of_program : (r : Range) → Mem r pcs → Used pcs ks r
  of_pod :
      (k : KernelRanges) (a : Arg)
      → Mem k ks
      → Mem a k.args
      → a.kind ≡ pod_pushconstant
      → Used pcs ks (a.offset, a.size)
  of_pointer :
      (k : KernelRanges) (a : Arg)
      → Mem k ks
      → Mem a k.args
      → a.kind ≡ pointer_pushconstant
      → Used pcs ks (a.offset, a.size)
  of_order :
      (k : KernelRanges) (i o : ℕ) (m : ImageMetadata)
      → Mem k ks
      → Mem (i, m) k.image_metadata
      → m.order_offset ≡ some o
      → Used pcs ks (o, 4)
  of_data_type :
      (k : KernelRanges) (i o : ℕ) (m : ImageMetadata)
      → Mem k ks
      → Mem (i, m) k.image_metadata
      → m.data_type_offset ≡ some o
      → Used pcs ks (o, 4)
  of_sampler :
      (k : KernelRanges) (i o : ℕ) → Mem k ks → Mem (i, o) k.sampler_metadata → Used pcs ks (o, 4)

Mem-left : (r : Range) (xs ys : List Range) → Mem r xs → Mem r (xs ++ ys)
unfolding Mem
Mem-left _ [] ys m = absurd m
Mem-left _ (x ∷ xs) ys (inl e) = inl e
Mem-left _ (x ∷ xs) ys (inr m) = inr (Mem-left _ xs ys m)

Mem-right : (r : Range) (xs ys : List Range) → Mem r ys → Mem r (xs ++ ys)
unfolding Mem
Mem-right _ [] ys m = m
Mem-right _ (x ∷ xs) ys m = inr (Mem-right _ xs ys m)

Mem-each :
    {A : Type 0} (r : Range) (f : A → List Range) (x : A) (xs : List A)
    → Mem x xs
    → Mem r (f x)
    → Mem r (each f xs)
unfolding Mem
Mem-each r f x [] m h = absurd m
Mem-each r f x (y ∷ ys) (inl e) h = Mem-left _ (f y) (each f ys) (subst (λ z. Mem r (f z)) e h)
Mem-each r f x (y ∷ ys) (inr m) h = Mem-right _ (f y) (each f ys) (Mem-each _ f x ys m h)

Mem-argument_ranges :
    (a : Arg) (args : List Arg)
    → Mem a args
    → is_pushconstant a.kind ≡ true
    → Mem (a.offset, a.size) (argument_ranges args)
unfolding argument_ranges Mem
Mem-argument_ranges a [] m h = absurd m
Mem-argument_ranges a (b ∷ args) (inl e) h =
    let same : is_pushconstant b.kind ≡ true = ap (λ x. is_pushconstant x.kind) (sym e) ∙ h in
    rw (same, argument_ranges) (inl (ap (λ x. (x.offset, x.size)) e))
Mem-argument_ranges a (b ∷ args) (inr m) h = elim (Bool-cases (is_pushconstant b.kind)) [
  | inl y ↦ rw (y, argument_ranges) (inr (Mem-argument_ranges a args m h))
  | inr n ↦ rw (n, argument_ranges) (Mem-argument_ranges a args m h)
]

Mem-word : (w : Option ℕ) (o : ℕ) → w ≡ some o → Mem (o, 4) (word_range w)
unfolding Mem
Mem-word none o e = absurd cc
Mem-word (some p) o e = inl (ap (λ x. (x, 4)) (sym (some-injective e)))

Mem-image_ranges :
    (i o : ℕ) (m : ImageMetadata) (ms : List (ℕ × ImageMetadata))
    → Mem (i, m) ms
    → (m.order_offset ≡ some o) ⊎ (m.data_type_offset ≡ some o)
    → Mem (o, 4) (image_ranges ms)
unfolding image_ranges Mem
Mem-image_ranges i o m [] h w = absurd h
Mem-image_ranges i o m ((j, x) ∷ ms) (inl e) (inl w) =
    Mem-left _ (word_range x.order_offset) _
      (Mem-word x.order_offset o (ap (λ p. p.1.order_offset) (sym e) ∙ w))
Mem-image_ranges i o m ((j, x) ∷ ms) (inl e) (inr w) = Mem-right _ (word_range x.order_offset) _ (
    Mem-left _ (word_range x.data_type_offset) _
      (Mem-word x.data_type_offset o (ap (λ p. p.1.data_type_offset) (sym e) ∙ w)))
Mem-image_ranges i o m ((j, x) ∷ ms) (inr h) w =
    Mem-right _ (word_range x.order_offset) _
      (Mem-right _ (word_range x.data_type_offset) _ (Mem-image_ranges i o m ms h w))

Mem-sampler_ranges : (i o : ℕ) (ms : List (ℕ × ℕ)) → Mem (i, o) ms → Mem (o, 4) (sampler_ranges ms)
unfolding sampler_ranges Mem
Mem-sampler_ranges i o [] m = absurd m
Mem-sampler_ranges i o ((j, p) ∷ ms) (inl e) = inl (ap (λ x. (x.1, 4)) e)
Mem-sampler_ranges i o ((j, p) ∷ ms) (inr m) = inr (Mem-sampler_ranges i o ms m)

module _ (pcs : List Range) (ks : List KernelRanges) where
  abbrev of_args : List Range
  of_args = each (λ k. argument_ranges k.args) ks

  abbrev of_images : List Range
  of_images = each (λ k. image_ranges k.image_metadata) ks

  abbrev of_samplers : List Range
  of_samplers = each (λ k. sampler_ranges k.sampler_metadata) ks

  in_args : (r : Range) → Mem r of_args → Mem r (all_ranges pcs ks)
  unfolding all_ranges
  in_args r m = Mem-right _ pcs _ (Mem-left _ of_args (of_images ++ of_samplers) m)

  in_images : (r : Range) → Mem r of_images → Mem r (all_ranges pcs ks)
  unfolding all_ranges
  in_images r m = Mem-right _ pcs _ (Mem-right _ of_args _ (Mem-left _ of_images of_samplers m))

  in_samplers : (r : Range) → Mem r of_samplers → Mem r (all_ranges pcs ks)
  unfolding all_ranges
  in_samplers r m = Mem-right _ pcs _ (Mem-right _ of_args _ (Mem-right _ of_images of_samplers m))

  Used-Mem : (r : Range) → Used pcs ks r → Mem r (all_ranges pcs ks)
  unfolding all_ranges is_pushconstant
  Used-Mem r (of_program r' m) = Mem-left _ pcs _ m
  Used-Mem r (of_pod k a mk ma e) = in_args _ (
      Mem-each _ (λ x. argument_ranges x.args) k ks mk
        (Mem-argument_ranges a k.args ma (ap is_pushconstant e)))
  Used-Mem r (of_pointer k a mk ma e) = in_args _ (
      Mem-each _ (λ x. argument_ranges x.args) k ks mk
        (Mem-argument_ranges a k.args ma (ap is_pushconstant e)))
  Used-Mem r (of_order k i o m mk mm e) = in_images _ (
      Mem-each _ (λ x. image_ranges x.image_metadata) k ks mk
        (Mem-image_ranges i o m k.image_metadata mm (inl e)))
  Used-Mem r (of_data_type k i o m mk mm e) = in_images _ (
      Mem-each _ (λ x. image_ranges x.image_metadata) k ks mk
        (Mem-image_ranges i o m k.image_metadata mm (inr e)))
  Used-Mem r (of_sampler k i o mk mm) = in_samplers _ (
      Mem-each _ (λ x. sampler_ranges x.sampler_metadata) k ks mk
        (Mem-sampler_ranges i o k.sampler_metadata mm))

All-Mem : (P : Range → Type 0) (r : Range) (rs : List Range) → Mem r rs → All P rs → P r
unfolding Mem
All-Mem P r [] m h = absurd m
All-Mem P r (x ∷ rs) (inl e) h = subst P (sym e) h.0
All-Mem P r (x ∷ rs) (inr m) h = All-Mem P r rs m h.1

-- The range of push constants of a program whose ranges all end before the last word of the 32-bit
-- numbers has the bytes of each range that the pipelines are given: of a push constant of the
-- program, of an argument of a kernel in push constants, plain or a pointer, and of a word of
-- metadata, the channel order or the data type of an image or that of a sampler. Its offset and its
-- size are multiples of four.
pub prepare_push_constant_range-Covers :
    (pcs : List Range) (ks : List KernelRanges) (r : Range)
    → Used pcs ks r
    → All IsSmall (all_ranges pcs ks)
    → Covers (prepare_push_constant_range pcs ks) r
      × ((prepare_push_constant_range pcs ks).0 % 4 ≡ 0)
      × ((prepare_push_constant_range pcs ks).1 % 4 ≡ 0)
unfolding Mem
prepare_push_constant_range-Covers pcs ks r used small =
    let there = Used-Mem pcs ks r used in
    elim (List-cases (all_ranges pcs ks)) [
      | inl e ↦ absurd (subst (Mem r) e there)
      | inr (x, rs, e) ↦
          let (covers, offset, size) = each_covered pcs ks x rs e small in
          (All-Mem (Covers (prepare_push_constant_range pcs ks)) r _ there covers, offset, size)
    ]
