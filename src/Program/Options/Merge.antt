-- ===== src/Program/Options/Merge.antt =====
-- What a merge of preserved options keeps.
use native.Mathlib.Decide.{dec_le}
use clvk.Common.{
  ℕ, ◌≤◌, ◌≡◌, refl, ◌⊎◌, inl, inr, Bool, true, false, ◌&&◌, ◌||◌, not, List, [], ◌∷◌, arith, All,
  max,
}
use clvk.PrintfText.{Text}
use clvk.Program.Options.{
  Preserved, count, insert, keep_common, insert_all, merge_one, merge_from, merge,
}
use clvk.Program.Options.Sets.{
  Ordered, count-insert, count-erase, count_same, insert-Ordered, erase-Ordered,
}

keep_common-Ordered : (os input all : List Text) → Ordered all → Ordered (keep_common os input all)
unfolding keep_common
keep_common-Ordered [] input all o = o
keep_common-Ordered (u ∷ os) input all o =
    let ih = keep_common-Ordered os input all o in
    ground (arith, ih, erase-Ordered u (keep_common os input all) ih)

count-keep_common :
    (t : Text) (os input all : List Text)
    → Ordered all
    → count t (keep_common os input all) ≡ (count t all && (not (count t os) || count t input))
unfolding keep_common count
count-keep_common t [] input all o = ground arith
count-keep_common t (u ∷ os) input all o = ground (
  arith,
  count-keep_common t os input all o,
  count_same t u input,
  count-erase t u (keep_common os input all) (keep_common-Ordered os input all o),
)

insert_all-Ordered : (os one : List Text) → Ordered one → Ordered (insert_all os one)
unfolding insert_all
insert_all-Ordered [] one o = o
insert_all-Ordered (u ∷ os) one o = insert_all-Ordered os (insert u one) (insert-Ordered u one o)

count-insert_all :
    (t : Text) (os one : List Text) → count t (insert_all os one) ≡ (count t os || count t one)
unfolding insert_all count
count-insert_all t [] one = refl
count-insert_all t (u ∷ os) one =
    ground (arith, count-insert_all t os (insert u one), count-insert t u one)

-- Both sets are in order.
pub record IsOrdered (p : Preserved) : Type 0 where
  pub all : Ordered p.options_all
  pub one : Ordered p.options_one

pub merge_one-IsOrdered : (r i : Preserved) → IsOrdered r → IsOrdered (merge_one r i)
unfolding merge_one
merge_one-IsOrdered r i o = record {
  all = keep_common-Ordered r.options_all i.options_all r.options_all o.all;
  one = insert_all-Ordered i.options_one r.options_one o.one;
}

abbrev pub in_every : Text → List Preserved → Bool
in_every t [] = true
in_every t (i ∷ is) = count t i.options_all && in_every t is

abbrev pub in_some : Text → List Preserved → Bool
in_some t [] = false
in_some t (i ∷ is) = count t i.options_one || in_some t is

-- One of the programs has the version.
abbrev pub HasLanguage : ℕ → List Preserved → Type 0
HasLanguage n [] = ⊥
HasLanguage n (i ∷ is) = (n ≡ i.source_language) ⊎ HasLanguage n is

pub record Merged (is : List Preserved) (r : Preserved) : Type 0 where
  pub ordered : IsOrdered r
  pub all : (t : Text) → count t r.options_all ≡ in_every t is
  pub one : (t : Text) → count t r.options_one ≡ in_some t is
  pub highest : All (λ i. i.source_language ≤ r.source_language) is
  pub attained : HasLanguage r.source_language is

HasLanguage-max :
    (r i : Preserved) (is : List Preserved) (n : ℕ)
    → n ≡ max r.source_language i.source_language
    → HasLanguage n (r ∷ i ∷ is)
HasLanguage-max r i is n e = elim (dec_le r.source_language i.source_language) [
  | yes le ↦ inr (inl (omega arith))
  | no gt ↦ inl (omega arith)
]

merge_one-Merged :
    (r i : Preserved) (is : List Preserved) (m : Preserved)
    → IsOrdered r
    → Merged (merge_one r i ∷ is) m
    → Merged (r ∷ i ∷ is) m
unfolding merge_one
merge_one-Merged r i is m o h = record {
  ordered = h.ordered;
  all = λ t.
      let e = h.all t in
      let k = count-keep_common t r.options_all i.options_all r.options_all o.all in
      ground (arith, e, k);
  one = λ t.
      let e = h.one t in
      let k = count-insert_all t i.options_one r.options_one in ground (arith, e, k);
  highest = (omega (arith, h.highest.0), (omega (arith, h.highest.0), h.highest.1));
  attained = elim h.attained [
    | inl e ↦ HasLanguage-max r i is m.source_language e
    | inr later ↦ inr (inr later)
  ];
}

merge_from-Merged :
    (is : List Preserved) (r : Preserved) → IsOrdered r → Merged (r ∷ is) (merge_from r is)
unfolding merge_from
merge_from-Merged [] r o = record {
  ordered = o;
  all = λ t. ground arith;
  one = λ t. ground arith;
  highest = (omega arith, tt);
  attained = inl refl;
}
merge_from-Merged (i ∷ is) r o =
    merge_one-Merged r i is (merge_from (merge_one r i) is) o
      (merge_from-Merged is (merge_one r i) (merge_one-IsOrdered r i o))

-- What a merge of the options of one or more programs has: of the options that must be in all,
-- those that each program has; of the others, those that some program has; and the highest version
-- of OpenCL C among them. The sets of the first program are in order, and those of the result are
-- then.
pub merge-Merged :
    (i : Preserved) (is : List Preserved) → IsOrdered i → Merged (i ∷ is) (merge (i ∷ is))
unfolding merge
merge-Merged i is o = merge_from-Merged is i o
