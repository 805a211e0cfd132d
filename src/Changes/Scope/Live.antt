-- ===== src/Changes/Scope/Live.antt =====
-- What a live quote of a scope is, for both halves of the fork.
use logistics.Common.{
  ◌≡◌, refl, sym, ap, ◌∙◌, ◌↔◌, ◌⊎◌, inl, inr, Bool, true, not, some, List, [], ◌∷◌, String, arith,
  All, In, In-append_left, In-append_right, In-append_cases, filter, is_nil, includes_iff, eq_iff,
  string_eq, Option-cases,
}
use logistics.Common.Images.{filter-In_iff}
use logistics.Findings.{FindingScope}
use logistics.Status.Vocabulary.{QuoteStatus, quote_status_eq}
use logistics.Changes.Store.{QuoteRow, Db}
use logistics.Changes.Scope.{
  is_uuid, is_live, find_live_quotes, leg_id_of, leg_ids, downstream_work,
}

-- The quote holds a price: it is on the table, under review or approved, or has expired after the price
-- was submitted.
abbrev pub IsPriced : {M : Type 0} → QuoteRow M → Type 0
IsPriced q =
    (q.status ≡ QuoteStatus.quoted)
    ⊎ (q.status ≡ QuoteStatus.pending_approval)
    ⊎ (q.status ≡ QuoteStatus.approved)
    ⊎ ((q.status ≡ QuoteStatus.expired) × (q.submitted ≡ true))

-- The quote is outstanding or holds a price.
abbrev pub IsLive : {M : Type 0} → QuoteRow M → Type 0
IsLive q = (q.status ≡ QuoteStatus.rfq_sent) ⊎ IsPriced q

pub is_live_iff : {M : Type 0} (q : QuoteRow M) → (is_live q ≡ true) ↔ IsLive q
is_live_iff q = ground arith

-- The scope names the leg.
abbrev pub OnScope : List FindingScope → String → Type 0
OnScope scope l = (s : FindingScope) × In s scope × (s.type_ ≡ "leg") × (s.id ≡ some l)

leg_id_of_iff :
    (s : FindingScope) (l : String) → In l (leg_id_of s) ↔ ((s.type_ ≡ "leg") × (s.id ≡ some l))
leg_id_of_iff s l = elim (Option-cases s.id) [
  | inl n ↦ ground (arith, n)
  | inr (id, e) ↦ ground (arith, e, eq_iff s.type_ "leg")
]

leg_ids_iff : (scope : List FindingScope) (l : String) → In l (leg_ids scope) ↔ OnScope scope l
unfolding leg_ids
leg_ids_iff [] l = (λ m. absurd m, λ h. absurd h.1)
leg_ids_iff (s ∷ ss) l = (
  λ m. elim (In-append_cases l (leg_id_of s) (leg_ids ss) m) [
    | inl here ↦ let (t, i) = (leg_id_of_iff s l).0 here in (s, inl refl, t, i)
    | inr later ↦ let (x, there, t, i) = (leg_ids_iff ss l).0 later in (x, inr there, t, i)
  ],
  λ h.
      let (x, there, t, i) = h in
      elim there [
        | inl e ↦ In-append_left l (leg_id_of s) (leg_ids ss) (
            (leg_id_of_iff s l).1 (
              ap (λ (y : FindingScope). y.type_) (sym e) ∙ t,
              ap (λ (y : FindingScope). y.id) (sym e) ∙ i,
            ))
        | inr m ↦ In-append_right l (leg_id_of s) (leg_ids ss) ((leg_ids_iff ss l).1 (x, m, t, i))
      ],
)

filter-All : (p : String → Bool) (xs : List String) → All (λ x. p x ≡ true) xs → filter p xs ≡ xs
filter-All p [] h = refl
filter-All p (x ∷ xs) h = ground (arith, filter-All p xs)

not-is_nil_iff : {A : Type 0} (xs : List A) → (not (is_nil xs) ≡ true) ↔ ((x : A) × In x xs)
not-is_nil_iff [] = (λ h. absurd (ground arith), λ h. absurd h.1)
not-is_nil_iff (x ∷ xs) = (λ _. (x, inl refl), λ _. refl)

module _ {M : Type 0} (scope : List FindingScope) (db : Db M) where
  -- the row of a quote on a leg of the scope
  abbrev pub InScope : String × QuoteRow M → Type 0
  InScope e = In e db.quotes.entries × OnScope scope e.1.leg_id

  pub find_live_quotes_iff :
      (e : String × QuoteRow M)
      → In e (find_live_quotes (leg_ids scope) db) ↔ (InScope e × IsLive e.1)
  unfolding find_live_quotes
  find_live_quotes_iff e =
      let (a, b) = filter-In_iff _ db.quotes.entries e in
      let (c, d) = includes_iff (leg_ids scope) e.1.leg_id in
      let (f, g) = leg_ids_iff scope e.1.leg_id in
      let (i, j) = is_live_iff e.1 in
      (
        λ h. let (m, t) = a h in ((m, f (c (ground arith))), i (ground arith)),
        λ h.
            let ((m, s), live) = h in
            let on = d (g s) in let alive = j live in b (m, ground (arith, on, alive)),
      )

  -- Where the scope's legs have well-formed ids, the fork is armed exactly if some quote on a leg of the
  -- scope is live: it is RFQ_SENT, QUOTED, PENDING_APPROVAL or APPROVED, or EXPIRED after a price was
  -- submitted.
  pub downstream_work_iff :
      All (λ id. is_uuid id ≡ true) (leg_ids scope)
      → (downstream_work scope db ≡ true) ↔ ((e : String × QuoteRow M) × InScope e × IsLive e.1)
  unfolding downstream_work
  downstream_work_iff h = rw (filter-All is_uuid (leg_ids scope) h) (
      let (a, b) = not-is_nil_iff (find_live_quotes (leg_ids scope) db) in
      (
        λ on.
            let (e, m) = a on in
            let (there, live) = (find_live_quotes_iff e).0 m in (e, there, live),
        λ x. b (x.0, (find_live_quotes_iff x.0).1 (x.1, x.2)),
      ))
