-- ===== src/KernelArgs/Isolation.antt =====
-- Setting an argument does not touch the values that a command uses.
use clvk.Common.{
  ℕ, zero, suc, ◌≡◌, ◌≢◌, inl, inr, refl, sym, ap, subst, ◌∙◌, some-injective, none≢some, true,
  false, List, [], ◌∷◌, ◌++◌, none, some, arith, length, get_elem?, get_elem?-set_ne, Bool-cases,
  Option-cases,
}
use clvk.Codes.{Code}
use clvk.KernelArgs.{Entry, Value, Values, copy, set_arg}
use clvk.KernelArgs.Kernel.{
  Kernel, own_values, set_own_arg, kernel_set_arg, set_metadata, put_values,
}

get_elem?-append {ℓ} :
    {A : Type ℓ} (xs ys : List A) (i : ℕ) (a : A)
    → get_elem? xs i ≡ some a
    → get_elem? (xs ++ ys) i ≡ some a
get_elem?-append [] ys i a h = ground arith
get_elem?-append (x ∷ xs) ys zero a h = h
get_elem?-append (x ∷ xs) ys (suc i) a h = get_elem?-append xs ys i a h

get_elem?-last {ℓ} :
    {A : Type ℓ} (xs : List A) (a : A) → get_elem? (xs ++ (a ∷ [])) (length xs) ≡ some a
get_elem?-last [] a = refl
get_elem?-last (x ∷ xs) a = get_elem?-last xs a

-- `Used k i v`: a command uses the values `v`, at place `i`.
abbrev pub Used : Kernel → ℕ → Values → Type 0
Used k i v = (get_elem? k.store i ≡ some v) × (v.is_enqueued ≡ true)

-- Once the kernel has values of its own, they are used by no command.
pub record OwnsFresh (k k' : Kernel) : Type 0 where
  pub used_stay : (i : ℕ) (v : Values) → Used k i v → Used k' i v
  pub own : Values
  pub own_there : get_elem? k'.store k'.current ≡ some own
  pub own_free : own.is_enqueued ≡ false
  pub same_entry : k'.entry ≡ k.entry
  pub same_images : k'.image_metadata ≡ k.image_metadata
  pub same_samplers : k'.sampler_metadata ≡ k.sampler_metadata

copy_free : (e : Entry) (v : Values) → (copy e v).is_enqueued ≡ false
unfolding copy
copy_free e v = refl

abbrev cloned : Kernel → Values → Kernel
cloned k v = record k { current = length k.store; store = k.store ++ (copy k.entry v ∷ []) }

cloned-OwnsFresh : (k : Kernel) (v : Values) → OwnsFresh k (cloned k v)
cloned-OwnsFresh k v = record {
  used_stay = λ i w u. (get_elem?-append k.store (copy k.entry v ∷ []) i w u.0, u.1);
  own = copy k.entry v;
  own_there = get_elem?-last k.store (copy k.entry v);
  own_free = copy_free k.entry v;
  same_entry = refl;
  same_images = refl;
  same_samplers = refl;
}

pub own_values-OwnsFresh : (k k' : Kernel) → own_values k ≡ some k' → OwnsFresh k k'
unfolding own_values
own_values-OwnsFresh k k' h = elim (Option-cases (get_elem? k.store k.current)) [
  | inl p ↦
      let failed : own_values k ≡ none = rw (p, own_values) refl in
      absurd (none≢some (sym failed ∙ h))
  | inr (v, p) ↦ elim (Bool-cases v.is_enqueued) [
    | inl e ↦
        let made : own_values k ≡ some (cloned k v) = rw (p, own_values, e) refl in
        subst (OwnsFresh k) (some-injective (sym made ∙ h)) (cloned-OwnsFresh k v)
    | inr e ↦
        let kept : own_values k ≡ some k = rw (p, own_values, e) refl in
        subst (OwnsFresh k) (some-injective (sym kept ∙ h)) (record {
          used_stay = λ i w u. u;
          own = v;
          own_there = p;
          own_free = e;
          same_entry = refl;
          same_images = refl;
          same_samplers = refl;
        })
  ]
]

-- Writing the kernel's own values leaves the used ones.
different :
    (k : Kernel) (own v : Values) (i : ℕ)
    → get_elem? k.store k.current ≡ some own
    → own.is_enqueued ≡ false
    → get_elem? k.store i ≡ some v
    → v.is_enqueued ≡ true
    → k.current ≢ i
different k own v i there own_free at used e =
    let same : own ≡ v = some-injective (sym there ∙ (ap (get_elem? k.store) e ∙ at)) in
    let flag : own.is_enqueued ≡ v.is_enqueued = ap (λ (w : Values). w.is_enqueued) same in cc

put_values-Used :
    (k : Kernel) (own w : Values)
    → get_elem? k.store k.current ≡ some own
    → own.is_enqueued ≡ false
    → (i : ℕ) (v : Values) → Used k i v
    → Used (put_values k w) i v
put_values-Used k own w there own_free i v (at, used) =
    let apart : k.current ≢ i = λ e. different k own v i there own_free at used e in
    (get_elem?-set_ne k.store w apart ∙ at, used)

-- What is left of a call that succeeds in setting a kernel's own argument.
set_own_arg-put :
    (index size : ℕ) (x : Value) (k : Kernel) (c : Code) (k' : Kernel)
    → set_own_arg index size x k ≡ some (c, k')
    → (w : Values) × (k' ≡ put_values k w)
unfolding set_own_arg
set_own_arg-put index size x k c k' h = elim (Option-cases (get_elem? k.entry.args index)) [
  | inl p ↦
      let failed : set_own_arg index size x k ≡ none = rw (p, set_own_arg) refl in
      absurd (none≢some (sym failed ∙ h))
  | inr (a, p) ↦ elim (Option-cases (get_elem? k.store k.current)) [
    | inl q ↦
        let failed : set_own_arg index size x k ≡ none = rw (p, set_own_arg, q) refl in
        absurd (none≢some (sym failed ∙ h))
    | inr (v, q) ↦ elim (Option-cases (set_metadata k a index x (set_arg a size x v).1)) [
      | inl r ↦
          let failed : set_own_arg index size x k ≡ none = rw (p, set_own_arg, q, r) refl in
          absurd (none≢some (sym failed ∙ h))
      | inr (w, r) ↦
          let made : set_own_arg index size x k ≡ some ((set_arg a size x v).0, put_values k w) =
            rw (p, set_own_arg, q, r) refl in
          (w, ap (λ (z : Code × Kernel). z.1) (some-injective (sym h ∙ made)))
    ]
  ]
]

-- Setting an argument of a kernel, whether that succeeds or not, leaves all values that a command
-- uses as they were, and the kernel's own values are then used by none.
pub kernel_set_arg_isolates :
    (index size : ℕ) (x : Value) (k : Kernel) (c : Code) (k' : Kernel)
    → kernel_set_arg index size x k ≡ some (c, k')
    → (i : ℕ) (v : Values) → Used k i v
    → Used k' i v × (k'.current ≢ i)
unfolding kernel_set_arg
kernel_set_arg_isolates index size x k c k' h i v used = elim (Option-cases (own_values k)) [
  | inl p ↦
      let failed : kernel_set_arg index size x k ≡ none = rw (p, kernel_set_arg) refl in
      absurd (none≢some (sym failed ∙ h))
  | inr (k1, p) ↦
      let fresh = own_values-OwnsFresh k k1 p in
      let called : set_own_arg index size x k1 ≡ some (c, k') = rw (p, kernel_set_arg) at h in
      let (w, e) = set_own_arg-put index size x k1 c k' called in
      let used1 = fresh.used_stay i v used in
      let (at, flag) = used1 in
      let kept = put_values-Used k1 fresh.own w fresh.own_there fresh.own_free i v used1 in
      let apart = different k1 fresh.own v i fresh.own_there fresh.own_free at flag in
      (subst (λ z. Used z i v) (sym e) kept, subst (λ (z : Kernel). z.current ≢ i) (sym e) apart)
]
