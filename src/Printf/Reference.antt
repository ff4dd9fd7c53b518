-- ===== src/Printf/Reference.antt =====
-- What a printf prints, by the parts of its format: an independent description of the loop of
-- `process_printf` in src/printf.cpp.
use clvk.Common.{
  ℕ, zero, suc, ◌+◌, ◌≤◌, ◌≡◌, inl, inr, refl, ap, ◌∙◌, List, [], ◌∷◌, ◌++◌, Option, some, arith,
  length, ltb, if◌then◌else◌, Bool-cases, ◌⊎◌, read_at, from_le, All,
}
use clvk.Printf.{
  Argument, Descriptor, Outcome, Part, threw, endless, wrote, turn, percent_turn, convert,
  print_arg, print_parts, process_printf,
}
use clvk.PrintfText.{Text, split_at, percent}
use clvk.Printf.Parts.{after}
use clvk.Printf.Items.{
  Item, show_item, show, Plain, PlainItem, count_conversions, Plain-tail, split_at-Plain,
  split_at-nil, split_at-first, append-nil, append-one, longer, split_at-show, literal_percent,
  conversion,
}

Part-cases : (p : Part) → (p ≡ threw) ⊎ ((p ≡ endless) ⊎ ((t : Text) × (p ≡ wrote t)))
Part-cases threw = inl refl
Part-cases endless = inr (inl refl)
Part-cases (wrote t) = inr (inr (t, refl))

module _ (snprintf : Text → Argument → Option Text) (descs : ℕ → Option Descriptor)
    (buffer : List ℕ) where
  -- Each part in its turn: "%%" prints '%' and its text, and a conversion what `print_arg` prints
  -- of it with the text behind it, until one does not have its data.
  unfoldable pub render : List Item → List ℕ → ℕ → ℕ → Text → Outcome
  render [] sizes pos limit out = Outcome.printed out pos
  render (literal_percent lit ∷ is) sizes pos limit out =
      render is sizes pos limit (out ++ (percent ∷ lit))
  render (conversion t ∷ is) [] pos limit out = Outcome.fault
  render (conversion t ∷ is) (s ∷ ss) pos limit out =
      if ltb limit (pos + s)
      then Outcome.skipped (pos + s)
      else elim (print_arg snprintf descs buffer (percent ∷ t) pos s) [
        | threw ↦ Outcome.fault
        | endless ↦ Outcome.out_of_fuel
        | wrote u ↦ render is ss (pos + s) limit (out ++ u)
      ]

  turn-convert :
      (c b : ℕ) (bs rest : Text) (s : ℕ) (ss : List ℕ) (pos limit : ℕ) (out : Text)
      → turn snprintf descs buffer c (b ∷ bs) rest (s ∷ ss) pos limit out
        ≡ convert snprintf descs buffer (c ∷ b ∷ bs) rest s ss pos limit out
  unfolding turn
  turn-convert c b bs [] s ss pos limit out = refl
  turn-convert c b bs (p ∷ g) s ss pos limit out = refl

  print_parts-split :
      (fuel c : ℕ) (f body rest : Text) (sizes : List ℕ) (pos limit : ℕ) (out : Text)
      → split_at (percent ∷ []) f ≡ (body, rest)
      → print_parts snprintf descs buffer (suc fuel) (c ∷ f) sizes pos limit out
        ≡ after snprintf descs buffer fuel limit
            (turn snprintf descs buffer c body rest sizes pos limit out)
  unfolding print_parts
  print_parts-split fuel c f body rest sizes pos limit out e =
      ap
        (λ (r : Text × Text).
          after snprintf descs buffer fuel limit
            (turn snprintf descs buffer c r.0 r.1 sizes pos limit out))
        e

  turn-percent :
      (g lit rest : Text) (sizes : List ℕ) (pos limit : ℕ) (out : Text)
      → split_at (percent ∷ []) g ≡ (lit, rest)
      → turn snprintf descs buffer percent [] (percent ∷ g) sizes pos limit out
        ≡ percent_turn g lit rest sizes pos out
  unfolding turn
  turn-percent g lit rest sizes pos limit out e =
      ap (λ (r : Text × Text). percent_turn g r.0 r.1 sizes pos out) e

  -- The loop ends with the text that is left when no argument is.
  print_parts-Plain :
      (fuel : ℕ) (t : Text) (pos limit : ℕ) (out : Text)
      → length t ≤ fuel
      → Plain t
      → print_parts snprintf descs buffer fuel t [] pos limit out ≡ Outcome.printed (out ++ t) pos
  unfolding print_parts turn
  print_parts-Plain fuel [] pos limit out h p = rw (append-nil out) refl
  print_parts-Plain zero (c ∷ t) pos limit out h p = absurd (omega arith)
  print_parts-Plain (suc fuel) (c ∷ []) pos limit out h p =
      print_parts-split fuel c [] [] [] [] pos limit out split_at-nil
  print_parts-Plain (suc fuel) (c ∷ d ∷ t) pos limit out h p =
      print_parts-split fuel c (d ∷ t) (d ∷ t) [] [] pos limit out
        (split_at-Plain (d ∷ t) (Plain-tail c (d ∷ t) p))

  after-percent :
      (fuel : ℕ) (lit : Text) (is : List Item) (sizes : List ℕ) (pos limit : ℕ) (out : Text)
      → length (lit ++ show is) ≤ fuel
      → Plain lit
      → All PlainItem is
      → count_conversions is ≡ length sizes
      → ((out' : Text)
          → print_parts snprintf descs buffer fuel (show is) sizes pos limit out'
            ≡ render is sizes pos limit out')
      → after snprintf descs buffer fuel limit
          (turn snprintf descs buffer percent [] (percent ∷ (lit ++ show is)) sizes pos limit out)
        ≡ render is sizes pos limit (out ++ (percent ∷ lit))
  unfolding show show_item percent_turn render count_conversions
  after-percent fuel lit [] [] pos limit out h p ps n rest =
      ap (after snprintf descs buffer fuel limit)
        (turn-percent (lit ++ []) lit [] [] pos limit out (split_at-show lit [] p))
      ∙ (ap (λ u. print_parts snprintf descs buffer fuel u [] pos limit (out ++ (percent ∷ [])))
            (append-nil lit)
          ∙ (print_parts-Plain fuel lit pos limit (out ++ (percent ∷ []))
                (let e : length (lit ++ []) ≡ length lit = ap length (append-nil lit) in
                  omega (arith, e))
                p
              ∙ ap (λ u. Outcome.printed u pos) (append-one out percent lit)))
  after-percent fuel lit [] (s ∷ ss) pos limit out h p ps n rest = absurd (omega arith)
  after-percent fuel lit (literal_percent l ∷ is) sizes pos limit out h p ps n rest =
      ap (after snprintf descs buffer fuel limit)
        (turn-percent _ lit _ sizes pos limit out (split_at-show lit (literal_percent l ∷ is) p))
      ∙ rest (out ++ (percent ∷ lit))
  after-percent fuel lit (conversion t ∷ is) sizes pos limit out h p ps n rest =
      ap (after snprintf descs buffer fuel limit)
        (turn-percent _ lit _ sizes pos limit out (split_at-show lit (conversion t ∷ is) p))
      ∙ rest (out ++ (percent ∷ lit))

  after-convert :
      (fuel : ℕ) (t : Text) (is : List Item) (s : ℕ) (ss : List ℕ) (pos limit : ℕ) (out : Text)
      → ((out' : Text)
          → print_parts snprintf descs buffer fuel (show is) ss (pos + s) limit out'
            ≡ render is ss (pos + s) limit out')
      → after snprintf descs buffer fuel limit
          (convert snprintf descs buffer (percent ∷ t) (show is) s ss pos limit out)
        ≡ render (conversion t ∷ is) (s ∷ ss) pos limit out
  unfolding convert render
  after-convert fuel t is s ss pos limit out rest = elim (Bool-cases (ltb limit (pos + s))) [
    | inl e ↦ rw e refl
    | inr e ↦ elim (Part-cases (print_arg snprintf descs buffer (percent ∷ t) pos s)) [
      | inl p ↦ rw (e, p) refl
      | inr (inl p) ↦ rw (e, p) refl
      | inr (inr (u, p)) ↦ rw (e, p) (rest (out ++ u))
    ]
  ]

  print_parts-render :
      (fuel : ℕ) (is : List Item) (sizes : List ℕ) (pos limit : ℕ) (out : Text)
      → length (show is) ≤ fuel
      → All PlainItem is
      → count_conversions is ≡ length sizes
      → print_parts snprintf descs buffer fuel (show is) sizes pos limit out
        ≡ render is sizes pos limit out
  unfolding print_parts render show show_item count_conversions
  print_parts-render fuel [] sizes pos limit out h p n = refl
  print_parts-render zero (literal_percent lit ∷ is) sizes pos limit out h p n =
      absurd (omega arith)
  print_parts-render zero (conversion t ∷ is) sizes pos limit out h p n = absurd (omega arith)
  print_parts-render (suc fuel) (literal_percent lit ∷ is) sizes pos limit out h (p, ps) n =
      print_parts-split fuel percent (percent ∷ (lit ++ show is)) [] (percent ∷ (lit ++ show is))
        sizes pos limit out (split_at-first (lit ++ show is))
      ∙ after-percent fuel lit is sizes pos limit out (omega arith) p ps n (λ out'.
        print_parts-render fuel is sizes pos limit out' (omega (arith, longer lit is)) ps n)
  print_parts-render (suc fuel) (conversion t ∷ is) [] pos limit out h p n = absurd (omega arith)
  print_parts-render (suc fuel) (conversion [] ∷ is) (s ∷ ss) pos limit out h ((p, e), ps) n =
      absurd (e refl)
  print_parts-render (suc fuel) (conversion (b ∷ bs) ∷ is) (s ∷ ss) pos limit out h ((p, e), ps) n =
      print_parts-split fuel percent (b ∷ (bs ++ show is)) (b ∷ bs) (show is) (s ∷ ss) pos limit out
        (split_at-show (b ∷ bs) is p)
      ∙ (ap (after snprintf descs buffer fuel limit)
            (turn-convert percent b bs (show is) s ss pos limit out)
          ∙ after-convert fuel (b ∷ bs) is s ss pos limit out (λ out'.
            print_parts-render fuel is ss (pos + s) limit out' (omega (arith, longer bs is)) ps
              (omega arith)))

  at_first :
      (i : Item) (is : List Item) (sizes : List ℕ) (pos limit : ℕ) (text : Text) (fuel : ℕ)
      → print_parts snprintf descs buffer fuel
          (show (i ∷ is))
          sizes
          (elim (show (i ∷ is)) as (λ _. ℕ) [ [] ↦ limit | c ∷ f ↦ pos + 4 ])
          limit
          text
        ≡ print_parts snprintf descs buffer fuel (show (i ∷ is)) sizes (pos + 4) limit text
  unfolding show show_item
  at_first (literal_percent lit) is sizes pos limit text fuel = refl
  at_first (conversion t) is sizes pos limit text fuel = refl

  -- A printf whose format is text and then at least one part, each without another '%', and whose
  -- descriptor has a size for each conversion, ends as the parts do, rendered one after the other.
  pub process_printf-render :
      (pos limit : ℕ) (d : Descriptor) (text : Text) (i : Item) (is : List Item)
      → descs (from_le (read_at pos 4 buffer)) ≡ some d
      → d.format_string ≡ text ++ show (i ∷ is)
      → Plain text
      → All PlainItem (i ∷ is)
      → count_conversions (i ∷ is) ≡ length d.arg_sizes
      → process_printf snprintf descs buffer pos limit
        ≡ render (i ∷ is) d.arg_sizes (pos + 4) limit text
  unfolding process_printf
  process_printf-render pos limit d text i is found format plain items n =
      let split : split_at (percent ∷ []) d.format_string ≡ (text, show (i ∷ is)) =
        rw format (split_at-show text (i ∷ is) plain) in
      let room : length (show (i ∷ is)) ≤ length d.format_string =
        rw format (longer text (i ∷ is)) in
      rw (found, process_printf, split)
        (at_first i is d.arg_sizes pos limit text (length d.format_string)
          ∙ print_parts-render (length d.format_string) (i ∷ is) d.arg_sizes (pos + 4) limit text
              room items n)
