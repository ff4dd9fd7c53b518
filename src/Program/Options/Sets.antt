-- ===== src/Program/Options/Sets.antt =====
-- The sets of options: lists in the order of their items, with no item twice.
use clvk.Common.{
  ◌≡◌, refl, ap, ap₂, ◌∙◌, sym, inl, inr, true, false, ◌&&◌, ◌||◌, not, List, [], ◌∷◌, arith,
  Bool-cases,
}
use clvk.PrintfText.{Text}
use clvk.Program.Options.{equal_text, less_text, count, insert, erase}

-- The text is less than each of the list.
abbrev pub Below : Text → List Text → Type 0
Below u [] = Unit {0}
Below u (v ∷ us) = (less_text u v ≡ true) × Below u us

abbrev pub Ordered : List Text → Type 0
Ordered [] = Unit {0}
Ordered (u ∷ us) = Below u us × Ordered us

pub equal_text→eq : (t u : Text) → equal_text t u ≡ true → t ≡ u
equal_text→eq [] [] h = refl
equal_text→eq [] (d ∷ ds) h = absurd cc
equal_text→eq (c ∷ cs) [] h = absurd cc
equal_text→eq (c ∷ cs) (d ∷ ds) h =
    ap₂ (λ x xs. x ∷ xs) (ground arith) (equal_text→eq cs ds (ground arith))

pub equal_text_refl : (t : Text) → equal_text t t ≡ true
equal_text_refl [] = refl
equal_text_refl (c ∷ cs) = ground (arith, equal_text_refl cs)

less_text_irrefl : (t : Text) → less_text t t ≡ false
less_text_irrefl [] = refl
less_text_irrefl (c ∷ cs) = ground (arith, less_text_irrefl cs)

less_text_trans :
    (s t u : Text) → less_text s t ≡ true → less_text t u ≡ true → less_text s u ≡ true
less_text_trans s [] u h k = absurd cc
less_text_trans s (d ∷ t) [] h k = absurd cc
less_text_trans [] (d ∷ t) (e ∷ u) h k = refl
less_text_trans (c ∷ s) (d ∷ t) (e ∷ u) h k = ground (arith, less_text_trans s t u)

less_text_total :
    (s t : Text) → equal_text s t ≡ false → less_text s t ≡ false → less_text t s ≡ true
less_text_total [] [] h k = absurd cc
less_text_total [] (d ∷ t) h k = absurd cc
less_text_total (c ∷ s) [] h k = refl
less_text_total (c ∷ s) (d ∷ t) h k = ground (arith, less_text_total s t)

-- `equal_text` at a text that equals another one.
pub equal_text_same : (t u v : Text) → equal_text t u ≡ true → equal_text v t ≡ equal_text v u
equal_text_same t u v h = ap (equal_text v) (equal_text→eq t u h)

less→ne : (t u : Text) → less_text t u ≡ true → equal_text t u ≡ false
less→ne t u h = elim (Bool-cases (equal_text t u)) [
  | inl y ↦
      let e : less_text t u ≡ false =
        ap (less_text t) (sym (equal_text→eq t u y)) ∙ less_text_irrefl t in
      absurd cc
  | inr n ↦ n
]

-- What is below all items is not among them.
pub Below-fresh : (t : Text) (us : List Text) → Below t us → count t us ≡ false
unfolding count
Below-fresh t [] b = refl
Below-fresh t (u ∷ us) b = ground (arith, less→ne t u b.0, Below-fresh t us b.1)

Below-trans : (t u : Text) (us : List Text) → less_text t u ≡ true → Below u us → Below t us
Below-trans t u [] h b = tt
Below-trans t u (v ∷ us) h b = (less_text_trans t u v h b.0, Below-trans t u us h b.1)

pub count-insert :
    (t u : Text) (us : List Text) → count t (insert u us) ≡ (equal_text t u || count t us)
unfolding insert count
count-insert t u [] = refl
count-insert t u (v ∷ us) = let same = equal_text_same u v t in ground (arith, count-insert t u us)

Below-insert :
    (t u : Text) (us : List Text) → less_text t u ≡ true → Below t us → Below t (insert u us)
unfolding insert
Below-insert t u [] h b = (h, tt)
Below-insert t u (v ∷ us) h b = ground (arith, Below-insert t u us h b.1)

pub insert-Ordered : (u : Text) (us : List Text) → Ordered us → Ordered (insert u us)
unfolding insert
insert-Ordered u [] o = (tt, tt)
insert-Ordered u (v ∷ us) (b, o) = elim (Bool-cases (equal_text u v)) [
  | inl same ↦ rw (same, insert) (b, o)
  | inr ne ↦ elim (Bool-cases (less_text u v)) [
    | inl less ↦ rw (ne, less, insert) ((less, Below-trans u v us less b), (b, o))
    | inr more ↦
        rw (ne, more, insert)
          (Below-insert v u us (less_text_total u v ne more) b, insert-Ordered u us o)
  ]
]

Below-erase : (t u : Text) (us : List Text) → Below t us → Below t (erase u us)
unfolding erase
Below-erase t u [] b = tt
Below-erase t u (v ∷ us) b = ground (arith, Below-erase t u us b.1)

pub erase-Ordered : (u : Text) (us : List Text) → Ordered us → Ordered (erase u us)
unfolding erase
erase-Ordered u [] o = tt
erase-Ordered u (v ∷ us) (b, o) = ground (arith, erase-Ordered u us o, Below-erase v u us b)

pub count_same : (t u : Text) (us : List Text) → equal_text t u ≡ true → count t us ≡ count u us
count_same t u us h = ap (λ x. count x us) (equal_text→eq t u h)

equal_text_join :
    (t u v : Text) → equal_text u v ≡ false → equal_text t v ≡ true → equal_text t u ≡ false
equal_text_join t u v ne h = elim (Bool-cases (equal_text t u)) [
  | inl same ↦
      let e : equal_text u v ≡ true = ap (λ x. equal_text x v) (sym (equal_text→eq t u same)) ∙ h in
      absurd cc
  | inr n ↦ n
]

pub count-erase :
    (t u : Text) (us : List Text)
    → Ordered us
    → count t (erase u us) ≡ (count t us && not (equal_text t u))
unfolding erase count
count-erase t u [] o = refl
count-erase t u (v ∷ us) (b, o) = ground (
  arith,
  equal_text_same u v t,
  count_same t v us,
  Below-fresh v us b,
  equal_text_join t u v,
  count-erase t u us o,
)

-- Of two sets with the same items, the first item of one is not less than that of the other.
first_not_less :
    (u v : Text) (us vs : List Text)
    → Below u us
    → ((t : Text) → count t (u ∷ us) ≡ count t (v ∷ vs))
    → less_text v u ≡ false
unfolding count
first_not_less u v us vs b h = elim (Bool-cases (less_text v u)) [
  | inl less ↦
      let e = h v in
      let fresh = Below-fresh v (u ∷ us) (less, Below-trans v u us less b) in
      absurd (ground (arith, e, fresh, equal_text_refl v))
  | inr n ↦ n
]

first_eq : (u v : Text) → less_text u v ≡ false → less_text v u ≡ false → equal_text u v ≡ true
first_eq u v h k = elim (Bool-cases (equal_text u v)) [
  | inl y ↦ y
  | inr n ↦ let e = less_text_total u v n h in absurd cc
]

-- A set is its items.
pub Ordered-eq :
    (us vs : List Text) → Ordered us → Ordered vs → ((t : Text) → count t us ≡ count t vs) → us ≡ vs
unfolding count
Ordered-eq [] [] o p h = refl
Ordered-eq [] (v ∷ vs) o p h = let e = h v in ground (arith, e, equal_text_refl v)
Ordered-eq (u ∷ us) [] o p h = let e = h u in ground (arith, e, equal_text_refl u)
Ordered-eq (u ∷ us) (v ∷ vs) (b, o) (d, p) h =
    let same =
      first_eq u v (first_not_less v u vs us d (λ t. sym (h t))) (first_not_less u v us vs b h) in
    ap₂ (λ x xs. x ∷ xs) (equal_text→eq u v same)
      (Ordered-eq us vs o p (λ t.
        let e = h t in
        ground (
          arith,
          e,
          equal_text_same u v t same,
          count_same t u us,
          count_same t v vs,
          Below-fresh u us b,
          Below-fresh v vs d,
        )))
