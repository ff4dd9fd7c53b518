-- ===== src/KernelArgs/Faults.antt =====
-- What goes wrong around the metadata of images and samplers.
use clvk.Common.{
  ℕ, ◌≡◌, ◌≢◌, ◌↔◌, inl, inr, refl, Bool, true, false, ◌&&◌, ◌||◌, not, [], Option, none, some,
  arith, get_elem?, set, sym, ◌∙◌, none≢some, ap, Option-cases,
}
use clvk.Codes.{success}
use clvk.KernelArgs.{
  Arg, Entry, Value, Values, set_arg, set_mem_arg, set_sampler_arg, wants_image, is_sampler, is_pod,
  is_pod_pointer, is_local, is_unused,
}
use clvk.KernelArgs.Isolation.{own_values-OwnsFresh}
use clvk.KernelArgs.Kernel.{
  Kernel, find_key, set_image_metadata, set_sampler_metadata, set_metadata, set_own_arg, nothing,
  cl_set_kernel_arg, kernel_set_arg, own_values,
}

-- The image that is read for its channel order and data type is null or no image.
abbrev pub bad_image : Value → Bool
bad_image x = elim x.mem [ none ↦ true | some m ↦ not m.is_image ]

abbrev pub bad_sampler : Value → Bool
bad_sampler x = elim x.sampler [ none ↦ true | some s ↦ false ]

abbrev pub has_key {ℓ} : {A : Type ℓ} → Option A → Bool
has_key none = false
has_key (some a) = true

-- Whether the metadata is read from an object that cannot have it.
abbrev pub reads_bad_object : Kernel → Arg → ℕ → Value → Bool
reads_bad_object k a index x =
    wants_image a.kind && (has_key (find_key index k.image_metadata) && bad_image x)
    || is_sampler a.kind && (has_key (find_key index k.sampler_metadata) && bad_sampler x)

module _ (k : Kernel) (a : Arg) (index size : ℕ) (x : Value) (v w : Values) where
  abbrev takes_handle : Bool
  takes_handle =
      not (is_pod_pointer a.kind)
      && (not (is_pod a.kind) && (not (is_local a.kind) && not (is_unused a.kind)))

  image_kind : wants_image a.kind ≡ true → (is_sampler a.kind ≡ false) × (takes_handle ≡ true)
  unfolding wants_image is_sampler is_pod_pointer is_pod is_local is_unused
  image_kind h = ground arith

  sampler_kind : is_sampler a.kind ≡ true → takes_handle ≡ true
  unfolding is_sampler is_pod_pointer is_pod is_local is_unused
  sampler_kind h = ground arith

  metadata_faults : (set_metadata k a index x w ≡ none) ↔ (reads_bad_object k a index x ≡ true)
  unfolding set_metadata set_image_metadata set_sampler_metadata
  metadata_faults = let e = image_kind in ground arith

  bad_object_refused : reads_bad_object k a index x ≡ true → (set_arg a size x v).0 ≢ success
  unfolding set_arg set_mem_arg set_sampler_arg
  bad_object_refused h = let e = image_kind in let s = sampler_kind in ground arith

-- Setting a kernel's own argument faults exactly when the argument is an image with metadata and
-- the value is null or no image, or a sampler with metadata and the value is null. The argument's
-- own check refuses each of these values: the fault is in the calls after it, which are made all
-- the same.
set_own_arg_faults :
    (k : Kernel) (a : Arg) (index size : ℕ) (x : Value) (v : Values)
    → get_elem? k.entry.args index ≡ some a
    → get_elem? k.store k.current ≡ some v
    → ((set_own_arg index size x k ≡ none) ↔ (reads_bad_object k a index x ≡ true))
      × (set_own_arg index size x k ≡ none → (set_arg a size x v).0 ≢ success)
unfolding set_own_arg
set_own_arg_faults k a index size x v p q =
    let faults = metadata_faults k a index size x v (set_arg a size x v).1 in
    let refused = bad_object_refused k a index size x v v in
    elim (Option-cases (set_metadata k a index x (set_arg a size x v).1)) [
      | inl r ↦
          let failed : set_own_arg index size x k ≡ none = rw (p, set_own_arg, q, r) refl in
          ((λ _. faults.0 r, λ _. failed), λ _. refused (faults.0 r))
      | inr (w, r) ↦
          let made : set_own_arg index size x k
              ≡ some ((set_arg a size x v).0, record k { store = set k.store k.current w }) =
            rw (p, set_own_arg, q, r) refl in
          (
            (
              λ n. absurd (none≢some (sym n ∙ made)),
              λ h. absurd (none≢some (sym (faults.1 h) ∙ r)),
            ),
            λ n. absurd (none≢some (sym n ∙ made)),
          )
    ]

kernel_no_fault :
    (k : Kernel) (index size : ℕ) (x : Value) (a : Arg) (v : Values)
    → k.image_metadata ≡ []
    → k.sampler_metadata ≡ []
    → get_elem? k.entry.args index ≡ some a
    → get_elem? k.store k.current ≡ some v
    → set_own_arg index size x k ≢ none
unfolding find_key
kernel_no_fault k index size x a v im sm p q =
    let (faults, _) = set_own_arg_faults k a index size x v p q in
    let fine : reads_bad_object k a index x ≡ false = rw (im, sm) (ground arith) in
    λ n. cc (faults.0 n, fine)

own_values-there :
    (k : Kernel) (v : Values) → get_elem? k.store k.current ≡ some v → own_values k ≢ none
unfolding own_values
own_values-there k v q = rw (q, own_values) (ground arith)

kernel_set_arg_no_fault :
    (k : Kernel) (index size : ℕ) (x : Value) (a : Arg) (v : Values)
    → k.image_metadata ≡ []
    → k.sampler_metadata ≡ []
    → get_elem? k.entry.args index ≡ some a
    → get_elem? k.store k.current ≡ some v
    → kernel_set_arg index size x k ≢ none
unfolding kernel_set_arg
kernel_set_arg_no_fault k index size x a v im sm p q = elim (Option-cases (own_values k)) [
  | inl r ↦ absurd (own_values-there k v q r)
  | inr (k', r) ↦
      let fresh = own_values-OwnsFresh k k' r in
      let fine =
        kernel_no_fault k' index size x a fresh.own (fresh.same_images ∙ im)
          (fresh.same_samplers ∙ sm)
          (ap (λ (e : Entry). get_elem? e.args index) fresh.same_entry ∙ p) fresh.own_there in
      rw (r, kernel_set_arg) fine
]

-- A kernel without metadata, whose values are there: clSetKernelArg faults on no arguments, null
-- values and indices out of range included.
pub cl_set_kernel_arg_safe :
    (valid : Bool) (index size : ℕ) (x : Option Value) (k : Kernel) (v : Values)
    → k.image_metadata ≡ []
    → k.sampler_metadata ≡ []
    → get_elem? k.store k.current ≡ some v
    → cl_set_kernel_arg valid index size x k ≢ none
unfolding cl_set_kernel_arg
cl_set_kernel_arg_safe valid index size none k v im sm q =
    elim (Option-cases (get_elem? k.entry.args index)) [
      | inl p ↦ rw (p, cl_set_kernel_arg) (ground arith)
      | inr (a, p) ↦
          let run = kernel_set_arg_no_fault k index size nothing a v im sm p q in
          rw (p, cl_set_kernel_arg) (ground arith)
    ]
cl_set_kernel_arg_safe valid index size (some y) k v im sm q =
    elim (Option-cases (get_elem? k.entry.args index)) [
      | inl p ↦ rw (p, cl_set_kernel_arg) (ground arith)
      | inr (a, p) ↦
          let run = kernel_set_arg_no_fault k index size y a v im sm p q in
          rw (p, cl_set_kernel_arg) (ground arith)
    ]
