-- ===== src/Quote/Recommend/Best.antt =====
-- The recommended offer is the best of those that can be ranked.
use logistics.Common.{
  ◌≡◌, refl, sym, subst, ◌↔◌, ◌⊎◌, inl, inr, Bool, true, false, none, some, List, [], ◌∷◌, arith,
  All, All-In, In-All, In,
}
use logistics.Common.Sort.{sort_by, sort_by-In, sort_by-IsSorted, IsSorted}
use logistics.Quote.Recommend.{
  Priority, high, urgent, medium, low, RecommendOffer, Rankable, RecommendResult, str_less, sign,
  is_speed_first, is_not_gt, rankable, result_of, compare_offers, recommend_offer,
}
use logistics.Quote.Recommend.Comparisons.{
  IsStrictWeak, IsComparison, sign-IsComparison, or_then-IsComparison, str_less-asym,
  str_less-IsStrictWeak, on-IsComparison,
}
use logistics.Quote.Recommend.Offered.{IsOffered, rankable-In}

module _ {N : Type 0} (less : N → N → Bool) where
  abbrev pub IsNotAhead : (Rankable N → N) → (Rankable N → N) → Rankable N → Rankable N → Type 0
  IsNotAhead first second best o =
      (less (first o) (first best) ≡ false)
      × (less (first best) (first o) ≡ false
          → (less (second o) (second best) ≡ false)
            × (less (second best) (second o) ≡ false
                → str_less o.submitted_at best.submitted_at ≡ false))

  -- No offer of the list is better: none is ahead on the first figure, none that ties on it is ahead
  -- on the second, and none that ties on both was submitted earlier.
  abbrev pub IsBest : (Rankable N → N) → (Rankable N → N) → List (Rankable N) → Rankable N → Type 0
  IsBest first second offers best = All (IsNotAhead first second best) offers

  -- the figure that the comparator looks at first, and the other
  abbrev leading_figure : Bool → Rankable N → N
  leading_figure true r = r.transit_days
  leading_figure false r = r.usd_total

  abbrev trailing_figure : Bool → Rankable N → N
  trailing_figure true r = r.usd_total
  trailing_figure false r = r.transit_days

  -- what matters first at each priority, and what second
  abbrev pub first_figure : Priority → Rankable N → N
  first_figure high r = r.transit_days
  first_figure urgent r = r.transit_days
  first_figure medium r = r.usd_total
  first_figure low r = r.usd_total

  abbrev pub second_figure : Priority → Rankable N → N
  second_figure high r = r.usd_total
  second_figure urgent r = r.usd_total
  second_figure medium r = r.transit_days
  second_figure low r = r.transit_days

submit :
    {N : Type 0} → IsComparison (λ (x y : Rankable N). sign str_less x.submitted_at y.submitted_at)
submit =
    on-IsComparison (λ r. r.submitted_at) (sign str_less)
      (sign-IsComparison str_less str_less-IsStrictWeak)

module _ {N : Type 0} (less : N → N → Bool) (weak : IsStrictWeak less) where
  figure : (k : Rankable N → N) → IsComparison (λ x y. sign less (k x) (k y))
  figure k = on-IsComparison k (sign less) (sign-IsComparison less weak)

  compare_offers-IsComparison : (b : Bool) → IsComparison (compare_offers less b)
  unfolding compare_offers
  compare_offers-IsComparison true =
      or_then-IsComparison _ _ (figure (λ r. r.transit_days))
        (or_then-IsComparison _ _ (figure (λ r. r.usd_total)) submit)
  compare_offers-IsComparison false =
      or_then-IsComparison _ _ (figure (λ r. r.usd_total))
        (or_then-IsComparison _ _ (figure (λ r. r.transit_days)) submit)

  abbrev le_of : Bool → Rankable N → Rankable N → Bool
  le_of b x y = is_not_gt (compare_offers less b x y)

  le_of_total : (b : Bool) (x y : Rankable N) → (le_of b x y ≡ true) ⊎ (le_of b y x ≡ true)
  le_of_total b x y = ground (arith, (compare_offers-IsComparison b).flip y x)

  le_of_refl : (b : Bool) (x : Rankable N) → le_of b x x ≡ true
  le_of_refl b x = ground (arith, le_of_total b x x)

  le_of_trans :
      (b : Bool) (x y z : Rankable N) → le_of b x y ≡ true → le_of b y z ≡ true → le_of b x z ≡ true
  le_of_trans b x y z p q = ground (arith, (compare_offers-IsComparison b).trans x y z)

  not_ahead :
      (b : Bool) (best o : Rankable N)
      → is_not_gt (compare_offers less b best o) ≡ true
      → IsNotAhead less (leading_figure less b) (trailing_figure less b) best o
  unfolding compare_offers
  not_ahead true best o h = ground (
    arith,
    weak.asym best.usd_total o.usd_total,
    weak.asym best.transit_days o.transit_days,
    weak.asym o.usd_total best.usd_total,
    weak.asym o.transit_days best.transit_days,
    str_less-asym o.submitted_at best.submitted_at,
  )
  not_ahead false best o h = ground (
    arith,
    weak.asym best.usd_total o.usd_total,
    weak.asym best.transit_days o.transit_days,
    weak.asym o.usd_total best.usd_total,
    weak.asym o.transit_days best.transit_days,
    str_less-asym o.submitted_at best.submitted_at,
  )

  head-IsBest :
      (b : Bool) (offers sorted : List (Rankable N)) (r : RecommendResult)
      → IsSorted (le_of b) sorted
      → ((a : Rankable N) → In a sorted ↔ In a offers)
      → result_of sorted ≡ some r
      → (best : Rankable N) × In best offers
        × (r ≡ record { quote_id = best.quote_id; variant = best.variant })
        × IsBest less (leading_figure less b) (trailing_figure less b) offers best
  head-IsBest b offers [] r s same h = absurd (ground arith)
  head-IsBest b offers (best ∷ rest) r (least, s) same h = (
    best,
    (same best).0 (inl refl),
    ground arith,
    In-All (IsNotAhead less (leading_figure less b) (trailing_figure less b) best) offers (λ o m.
        not_ahead b best o (elim ((same o).1 m) [
          | inl e ↦ subst (λ x. le_of b best x ≡ true) (sym e) (le_of_refl b best)
          | inr later ↦ All-In _ rest least later
        ])),
  )

  by_priority :
      (priority : Priority) (best o : Rankable N)
      → IsNotAhead less
          (leading_figure less (is_speed_first priority))
          (trailing_figure less (is_speed_first priority))
          best
          o
      → IsNotAhead less (first_figure less priority) (second_figure less priority) best o
  by_priority high best o h = h
  by_priority urgent best o h = h
  by_priority medium best o h = h
  by_priority low best o h = h

  -- What is recommended is one of the offers, with both figures, and no offer with both figures is
  -- better: by transit time first where the priority is HIGH or URGENT and by price first where it is
  -- MEDIUM or LOW, the other figure and then the time of submission breaking ties. (The numbers are
  -- strictly ordered.)
  pub recommend_offer-IsBest :
      (priority : Priority) (offers : List (RecommendOffer N)) (r : RecommendResult)
      → recommend_offer less priority offers ≡ some r
      → (best : Rankable N) × IsOffered offers best
        × (r ≡ record { quote_id = best.quote_id; variant = best.variant })
        × ((o : Rankable N)
            → IsOffered offers o
            → IsNotAhead less (first_figure less priority) (second_figure less priority) best o)
  unfolding recommend_offer
  recommend_offer-IsBest priority offers r h =
      let b = is_speed_first priority in
      let (best, there, same, ahead) =
        head-IsBest b (rankable offers) (sort_by (le_of b) (rankable offers)) r
          (sort_by-IsSorted (le_of b) (le_of_total b) (le_of_trans b) (rankable offers))
          (sort_by-In (le_of b) (rankable offers)) h in
      (
        best,
        (rankable-In offers best).0 there,
        same,
        λ o m.
            by_priority priority best o
              (All-In _ (rankable offers) ahead ((rankable-In offers o).1 m)),
      )

  none_iff :
      (sorted offers : List (Rankable N))
      → ((a : Rankable N) → In a sorted ↔ In a offers)
      → (result_of sorted ≡ none) ↔ (offers ≡ [])
  none_iff [] [] same = (λ _. refl, λ _. refl)
  none_iff [] (x ∷ xs) same = absurd ((same x).1 (inl refl))
  none_iff (y ∷ ys) [] same = absurd ((same y).0 (inl refl))
  none_iff (y ∷ ys) (x ∷ xs) same = ground arith

  -- Nothing is recommended exactly if no offer has both figures.
  pub recommend_offer-none_iff :
      (priority : Priority) (offers : List (RecommendOffer N))
      → (recommend_offer less priority offers ≡ none) ↔ (rankable offers ≡ [])
  unfolding recommend_offer
  recommend_offer-none_iff priority offers =
      let b = is_speed_first priority in
      none_iff (sort_by (le_of b) (rankable offers)) (rankable offers)
        (sort_by-In (le_of b) (rankable offers))
