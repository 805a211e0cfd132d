-- ===== src/Common/Dict.antt =====
-- A `Map` with string keys: entries in insertion order, `set` in place where the key is present.
use Prim.Native.String.{String}
use mathlib.Core.Path.{◌≡◌, refl, sym, subst, ap, ◌∙◌}
use mathlib.Core.Logic.{◌≢◌, ◌↔◌, ◌⊎◌, inl, inr}
use mathlib.Core.Option.{Option, none, some, some_inj}
use mathlib.Core.Option
use mathlib.Core.List.{List, [], ◌∷◌, map}
use native.Mathlib.Omega.{arith}
use text.Mathlib.Text.{◌==◌}
use text.Mathlib.TextEquality.{eq_iff}
use logistics.Common.Tests.{if◌then◌else◌, Bool-cases}
use logistics.Common.Lists.{In, IsDistinct}

pub record Dict {ℓ} (V : Type ℓ) : Type ℓ where
  pub entries : List (String × V)

module _ {ℓ} {V : Type ℓ} where
  abbrev pub empty : Dict V
  empty = record { entries = [] }

  lookup : String → List (String × V) → Option V
  lookup k [] = none
  lookup k ((j, v) ∷ es) = if j == k then some v else lookup k es

  insert : String → V → List (String × V) → List (String × V)
  insert k v [] = (k, v) ∷ []
  insert k v ((j, w) ∷ es) = if j == k then (j, v) ∷ es else (j, w) ∷ insert k v es

  remove : String → List (String × V) → List (String × V)
  remove k [] = []
  remove k ((j, w) ∷ es) = let rest = remove k es in if j == k then rest else (j, w) ∷ rest

  unfoldable pub get : String → Dict V → Option V
  unfolding lookup
  get k d = lookup k d.entries

  unfoldable pub set : String → V → Dict V → Dict V
  unfolding insert
  set k v d = record { entries = insert k v d.entries }

  unfoldable pub delete : String → Dict V → Dict V
  unfolding remove
  delete k d = record { entries = remove k d.entries }

  -- `[...d.keys()]`
  unfoldable pub keys : Dict V → List String
  keys d = map (λ e. e.0) d.entries

  lookup-insert :
      (k j : String) (v : V) (es : List (String × V))
      → lookup j (insert k v es) ≡ (if k == j then some v else lookup j es)
  unfolding lookup insert
  lookup-insert k j v [] = refl
  lookup-insert k j v ((i, w) ∷ es) =
      ground (arith, eq_iff k j, eq_iff i k, eq_iff i j, lookup-insert k j v es)

  lookup-remove :
      (k j : String) (es : List (String × V))
      → lookup j (remove k es) ≡ (if k == j then none else lookup j es)
  unfolding lookup remove
  lookup-remove k j [] = ground arith
  lookup-remove k j ((i, w) ∷ es) =
      ground (arith, eq_iff k j, eq_iff i k, eq_iff i j, lookup-remove k j es)

  pub get-set :
      (k j : String) (v : V) (d : Dict V) → get j (set k v d) ≡ (if k == j then some v else get j d)
  unfolding get set
  get-set k j v d = lookup-insert k j v d.entries

  pub get-set_other : (k j : String) (v : V) (d : Dict V) → (j ≢ k) → get j (set k v d) ≡ get j d
  get-set_other k j v d ne = ground (arith, get-set k j v d, eq_iff k j)

  pub get-set_same : (k : String) (v : V) (d : Dict V) → get k (set k v d) ≡ some v
  get-set_same k v d = ground (arith, get-set k k v d, eq_iff k k)

  pub get-delete :
      (k j : String) (d : Dict V) → get j (delete k d) ≡ (if k == j then none else get j d)
  unfolding get delete
  get-delete k j d = lookup-remove k j d.entries

  pub get-empty : (j : String) → get j empty ≡ none
  unfolding get
  get-empty j = refl

  -- A map with no key is one in which every look-up fails.
  keys-eq-nil_of_get :
      (es : List (String × V)) → ((k : String) → lookup k es ≡ none) → map (λ e. e.0) es ≡ []
  unfolding lookup
  keys-eq-nil_of_get [] h = refl
  keys-eq-nil_of_get ((i, w) ∷ es) h = ground (arith, h i, eq_iff i i)

  pub keys-eq-nil : (d : Dict V) → ((k : String) → get k d ≡ none) → keys d ≡ []
  unfolding get keys
  keys-eq-nil d h = keys-eq-nil_of_get d.entries h

  keys-none : (es : List (String × V)) (k : String) → map (λ e. e.0) es ≡ [] → lookup k es ≡ none
  unfolding lookup
  keys-none [] k h = refl
  keys-none (e ∷ es) k h = ground arith

  pub get-eq-none_of_keys : (d : Dict V) (k : String) → keys d ≡ [] → get k d ≡ none
  unfolding get keys
  get-eq-none_of_keys d k h = keys-none d.entries k h

  lookup-map :
      (f : String × V → String × V) (k : String) (es : List (String × V))
      → ((e : String × V) → (f e).0 ≡ e.0)
      → lookup k (map f es) ≡ Option.map (λ v. (f (k, v)).1) (lookup k es)
  unfolding lookup
  lookup-map f k [] keeps = refl
  lookup-map f k ((j, w) ∷ es) keeps =
      ground (arith, keeps (j, w), eq_iff j k, lookup-map f k es keeps)

  -- A function that keeps the keys acts on the value of each.
  pub get-map :
      (f : String × V → String × V) (k : String) (d : Dict V)
      → ((e : String × V) → (f e).0 ≡ e.0)
      → get k (record { entries = map f d.entries }) ≡ Option.map (λ v. (f (k, v)).1) (get k d)
  unfolding get
  get-map f k d keeps = lookup-map f k d.entries keeps

module _ {V : Type 0} where
  key-In : (k : String) (v : V) (es : List (String × V)) → In (k, v) es → In k (map (λ e. e.0) es)
  key-In k v [] m = absurd m
  key-In k v ((j, w) ∷ es) (inl same) = inl (ap (λ e. e.0) same)
  key-In k v ((j, w) ∷ es) (inr m) = inr (key-In k v es m)

  lookup-In :
      (es : List (String × V)) (k : String) (v : V)
      → IsDistinct (map (λ e. e.0) es)
      → In (k, v) es
      → lookup k es ≡ some v
  unfolding lookup
  lookup-In [] k v d m = absurd m
  lookup-In ((j, w) ∷ es) k v (fresh, d) (inl same) =
      rw (sym (ap (λ e. e.0) same), sym (ap (λ e. e.1) same), (eq_iff k k).1 refl) refl
  lookup-In ((j, w) ∷ es) k v (fresh, d) (inr m) = elim (Bool-cases (j == k)) [
    | inl jk ↦
        absurd (
          fresh (subst (λ x. In x (map (λ e. e.0) es)) (sym ((eq_iff j k).0 jk)) (key-In k v es m)))
    | inr jk ↦ rw jk (lookup-In es k v d m)
  ]

  -- Where no key comes twice, an entry is what its key looks up.
  pub get-In :
      (d : Dict V) (k : String) (v : V)
      → IsDistinct (keys d)
      → In (k, v) d.entries
      → get k d ≡ some v
  unfolding get keys
  get-In d k v distinct m = lookup-In d.entries k v distinct m

  In-lookup : (es : List (String × V)) (k : String) (v : V) → lookup k es ≡ some v → In (k, v) es
  unfolding lookup
  In-lookup [] k v h = absurd (ground arith)
  In-lookup ((j, w) ∷ es) k v h = elim (Bool-cases (j == k)) [
    | inl jk ↦
        let found : some w ≡ some v = rw jk at h in
        inl (ap (λ x. (k, x)) (sym (some_inj.0 found)) ∙ ap (λ x. (x, w)) (sym ((eq_iff j k).0 jk)))
    | inr jk ↦ inr (In-lookup es k v (rw jk at h))
  ]

  -- What a key looks up is one of the entries.
  pub In-get : (d : Dict V) (k : String) (v : V) → get k d ≡ some v → In (k, v) d.entries
  unfolding get
  In-get d k v h = In-lookup d.entries k v h

  In-remove_iff :
      (k : String) (es : List (String × V)) (e : String × V)
      → In e (remove k es) ↔ (In e es × (e.0 ≢ k))
  unfolding remove
  In-remove_iff k [] e = (λ m. absurd m, λ h. absurd h.0)
  In-remove_iff k ((j, w) ∷ es) e = elim (Bool-cases (j == k)) [
    | inl gone ↦
        rw (remove, gone)
          (
            λ m. let (there, other) = (In-remove_iff k es e).0 m in (inr there, other),
            λ h. elim h.0 [
              | inl same ↦ absurd (h.1 (ap (λ x. x.0) same ∙ (eq_iff j k).0 gone))
              | inr there ↦ (In-remove_iff k es e).1 (there, h.1)
            ],
          )
    | inr stays ↦
        rw (remove, stays)
          (
            λ m. elim m [
              | inl same ↦ (
                inl same,
                λ at. absurd (ground (arith, stays, eq_iff j k, ap (λ x. x.0) same, at)),
              )
              | inr m' ↦ let (there, other) = (In-remove_iff k es e).0 m' in (inr there, other)
            ],
            λ h. elim h.0 [
              | inl same ↦ inl same
              | inr there ↦ inr ((In-remove_iff k es e).1 (there, h.1))
            ],
          )
  ]

  -- The entries that are left.
  pub In-delete_iff :
      (k : String) (d : Dict V) (e : String × V)
      → In e (delete k d).entries ↔ (In e d.entries × (e.0 ≢ k))
  unfolding delete
  In-delete_iff k d e = In-remove_iff k d.entries e

  In-insert_iff :
      (k : String) (v : V) (es : List (String × V)) (e : String × V)
      → lookup k es ≡ none
      → In e (insert k v es) ↔ (In e es ⊎ (e ≡ (k, v)))
  unfolding insert lookup
  In-insert_iff k v [] e new = ground arith
  In-insert_iff k v ((j, w) ∷ es) e new = elim (Bool-cases (j == k)) [
    | inl here ↦ absurd (ground (arith, new, here))
    | inr other ↦
        let (to, from) = In-insert_iff k v es e (rw (lookup, other) at new) in
        rw (insert, other)
          (
            λ m. elim m [
              | inl same ↦ inl (inl same)
              | inr m' ↦ elim (to m') [ inl there ↦ inl (inr there) | inr is_new ↦ inr is_new ]
            ],
            λ h. elim h [
              | inl m ↦ elim m [ inl same ↦ inl same | inr there ↦ inr (from (inl there)) ]
              | inr is_new ↦ inr (from (inr is_new))
            ],
          )
  ]

  -- A key that is new brings one entry.
  pub In-set_iff :
      (k : String) (v : V) (d : Dict V) (e : String × V)
      → get k d ≡ none
      → In e (set k v d).entries ↔ (In e d.entries ⊎ (e ≡ (k, v)))
  unfolding get set
  In-set_iff k v d e new = In-insert_iff k v d.entries e new
