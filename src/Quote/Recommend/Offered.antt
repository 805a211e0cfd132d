-- ===== src/Quote/Recommend/Offered.antt =====
-- The offers that are ranked, of packages/shared/src/recommend.ts: those with both figures.
use logistics.Common.{
  ◌≡◌, refl, sym, subst, ap, ◌∙◌, Option, ◌↔◌, ◌⊎◌, inl, inr, none, some, List, [], ◌∷◌, arith, In,
}
use mathlib.Core.Option.{some_inj}
use logistics.Quote.Recommend.{RecommendOffer, Rankable, rankable}

-- one of the offers, with both figures
pub record IsOffered {N : Type 0} (offers : List (RecommendOffer N)) (r : Rankable N) : Type 0 where
  pub offer : RecommendOffer N
  pub there : In offer offers
  pub price : offer.usd_total ≡ some r.usd_total
  pub days : offer.transit_days ≡ some r.transit_days
  pub same_quote : offer.quote_id ≡ r.quote_id
  pub same_variant : offer.variant ≡ r.variant
  pub same_time : offer.submitted_at ≡ r.submitted_at

IsOffered-later :
    {N : Type 0} (x : RecommendOffer N) (offers : List (RecommendOffer N)) (r : Rankable N)
    → IsOffered offers r
    → IsOffered (x ∷ offers) r
IsOffered-later x offers r h = record {
  offer = h.offer;
  there = inr h.there;
  price = h.price;
  days = h.days;
  same_quote = h.same_quote;
  same_variant = h.same_variant;
  same_time = h.same_time;
}

same_offer :
    {N : Type 0} {all : List (RecommendOffer N)} (xs : List (RecommendOffer N)) (r : Rankable N)
    (h : IsOffered all r)
    → In h.offer xs
    → IsOffered xs r
same_offer xs r h m = record {
  offer = h.offer;
  there = m;
  price = h.price;
  days = h.days;
  same_quote = h.same_quote;
  same_variant = h.same_variant;
  same_time = h.same_time;
}

rank_unique :
    {N : Type 0} {all : List (RecommendOffer N)} (x : RecommendOffer N) (r : Rankable N)
    (h : IsOffered all r)
    → h.offer ≡ x
    → (usd days : N) → x.usd_total ≡ some usd
    → x.transit_days ≡ some days
    → r ≡ record {
      quote_id = x.quote_id;
      variant = x.variant;
      usd_total = usd;
      transit_days = days;
      submitted_at = x.submitted_at;
    }
rank_unique x r h e usd days u d =
    let price : r.usd_total ≡ usd =
      some_inj.0 (sym h.price ∙ ap (λ (o : RecommendOffer _). o.usd_total) e ∙ u) in
    let time : r.transit_days ≡ days =
      some_inj.0 (sym h.days ∙ ap (λ (o : RecommendOffer _). o.transit_days) e ∙ d) in
    let quote : r.quote_id ≡ x.quote_id =
      sym h.same_quote ∙ ap (λ (o : RecommendOffer _). o.quote_id) e in
    let variant : r.variant ≡ x.variant =
      sym h.same_variant ∙ ap (λ (o : RecommendOffer _). o.variant) e in
    let at : r.submitted_at ≡ x.submitted_at =
      sym h.same_time ∙ ap (λ (o : RecommendOffer _). o.submitted_at) e in
    cc

-- what the filter does with one offer
data Ranked {N : Type 0} (x : RecommendOffer N) (xs : List (RecommendOffer N)) : Type 0 where
  skipped :
      ((x.usd_total ≡ none) ⊎ (x.transit_days ≡ none))
      → rankable (x ∷ xs) ≡ rankable xs
      → Ranked x xs
  kept :
      (usd days : N)
      → x.usd_total ≡ some usd
      → x.transit_days ≡ some days
      → rankable (x ∷ xs)
        ≡ record {
          quote_id = x.quote_id;
          variant = x.variant;
          usd_total = usd;
          transit_days = days;
          submitted_at = x.submitted_at;
        }
          ∷ rankable xs
      → Ranked x xs

ranked_by :
    {N : Type 0} (x : RecommendOffer N) (xs : List (RecommendOffer N)) (u d : Option N)
    → x.usd_total ≡ u
    → x.transit_days ≡ d
    → Ranked x xs
unfolding rankable
ranked_by x xs none d e f = skipped (inl e) (ground (arith, e, f))
ranked_by x xs (some usd) none e f = skipped (inr f) (ground (arith, e, f))
ranked_by x xs (some usd) (some days) e f = kept usd days e f (ground (arith, e, f))

unranked :
    {N : Type 0} {all : List (RecommendOffer N)} (x : RecommendOffer N) (r : Rankable N)
    (h : IsOffered all r)
    → h.offer ≡ x
    → ¬ ((x.usd_total ≡ none) ⊎ (x.transit_days ≡ none))
unranked x r h e (inl n) = ground (arith, n, h.price, ap (λ (o : RecommendOffer _). o.usd_total) e)
unranked x r h e (inr n) =
    ground (arith, n, h.days, ap (λ (o : RecommendOffer _). o.transit_days) e)

-- The offers that are ranked are those with both figures.
pub rankable-In :
    {N : Type 0} (offers : List (RecommendOffer N)) (r : Rankable N)
    → In r (rankable offers) ↔ IsOffered offers r
unfolding rankable
rankable-In [] r = (λ m. absurd m, λ h. absurd h.there)
rankable-In (x ∷ xs) r =
    let (to, from) = rankable-In xs r in
    elim (ranked_by x xs x.usd_total x.transit_days refl refl) [
      | skipped lacks step ↦ (
        λ m. IsOffered-later x xs r (to (subst (In r) step m)),
        λ h. elim h.there [
          | inl e ↦ absurd (unranked x r h e lacks)
          | inr m ↦ subst (In r) (sym step) (from (same_offer xs r h m))
        ],
      )
      | kept usd days u d step ↦ (
        λ m. elim (subst (In r) step m) [
          | inl e ↦ record {
            offer = x;
            there = inl refl;
            price = u ∙ ap (λ (o : Rankable _). some o.usd_total) (sym e);
            days = d ∙ ap (λ (o : Rankable _). some o.transit_days) (sym e);
            same_quote = ap (λ (o : Rankable _). o.quote_id) (sym e);
            same_variant = ap (λ (o : Rankable _). o.variant) (sym e);
            same_time = ap (λ (o : Rankable _). o.submitted_at) (sym e);
          }
          | inr later ↦ IsOffered-later x xs r (to later)
        ],
        λ h. subst (In r) (sym step) (elim h.there [
          | inl e ↦ inl (rank_unique x r h e usd days u d)
          | inr m ↦ inr (from (same_offer xs r h m))
        ]),
      )
    ]
