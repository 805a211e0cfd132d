-- ===== src/Quote/Recommend/Comparisons.antt =====
-- The comparisons of offers that the recommendation is made from.
use Prim.Native.Nat.{Ordering}
use logistics.Common.{◌≡◌, refl, ◌≢◌, ◌↔◌, Bool, true, false, String, arith}
use logistics.Quote.Recommend.{str_less, sign, or_then}

-- a strict order of values some of which may tie
pub record IsStrictWeak {A : Type 0} (less : A → A → Bool) : Type 0 where
  pub asym : (x y : A) → less x y ≡ true → less y x ≡ false
  pub cotrans : (x y z : A) → less x z ≡ true → less x y ≡ false → less y z ≡ true

pub record IsComparison {A : Type 0} (f : A → A → Ordering) : Type 0 where
  pub flip : (x y : A) → (f x y ≡ Ordering.lt) ↔ (f y x ≡ Ordering.gt)
  pub trans : (x y z : A) → f x y ≢ Ordering.gt → f y z ≢ Ordering.gt → f x z ≢ Ordering.gt

pub sign-IsComparison :
    {A : Type 0} (less : A → A → Bool) → IsStrictWeak less → IsComparison (sign less)
sign-IsComparison less w = record {
  flip = λ x y. ground (arith, w.asym x y, w.asym y x);
  trans = λ x y z. ground (
    arith,
    w.asym x z,
    w.asym z x,
    w.cotrans z y x,
    w.cotrans x y z,
    w.asym x y,
    w.asym y x,
    w.asym y z,
    w.asym z y,
  );
}

pub or_then-IsComparison :
    {A : Type 0} (f g : A → A → Ordering)
    → IsComparison f
    → IsComparison g
    → IsComparison (λ x y. or_then (f x y) (g x y))
or_then-IsComparison f g p q = record {
  flip = λ x y. ground (arith, p.flip x y, p.flip y x, q.flip x y, q.flip y x);
  trans = λ x y z. ground (
    arith,
    p.flip x y,
    p.flip y x,
    p.flip y z,
    p.flip z y,
    p.flip x z,
    p.flip z x,
    p.trans x y z,
    p.trans y z x,
    p.trans z x y,
    q.trans x y z,
  );
}

pub str_less-asym : (s t : String) → str_less s t ≡ true → str_less t s ≡ false
unfolding str_less
str_less-asym String.[] String.[] h = refl
str_less-asym String.[] (String.◌∷◌ d t) h = refl
str_less-asym (String.◌∷◌ c s) String.[] h = ground arith
str_less-asym (String.◌∷◌ c s) (String.◌∷◌ d t) h = ground (arith, str_less-asym s t)

str_less-cotrans :
    (s t u : String) → str_less s u ≡ true → str_less s t ≡ false → str_less t u ≡ true
unfolding str_less
str_less-cotrans String.[] String.[] u h n = h
str_less-cotrans String.[] (String.◌∷◌ d t) u h n = ground arith
str_less-cotrans (String.◌∷◌ c s) String.[] String.[] h n = h
str_less-cotrans (String.◌∷◌ c s) String.[] (String.◌∷◌ e u) h n = refl
str_less-cotrans (String.◌∷◌ c s) (String.◌∷◌ d t) String.[] h n = ground arith
str_less-cotrans (String.◌∷◌ c s) (String.◌∷◌ d t) (String.◌∷◌ e u) h n =
    ground (arith, str_less-cotrans s t u)

pub str_less-IsStrictWeak : IsStrictWeak str_less
str_less-IsStrictWeak = record { asym = str_less-asym; cotrans = str_less-cotrans }

pub on-IsComparison :
    {A B : Type 0} (k : A → B) (f : B → B → Ordering)
    → IsComparison f
    → IsComparison (λ x y. f (k x) (k y))
on-IsComparison k f p = record {
  flip = λ x y. p.flip (k x) (k y);
  trans = λ x y z. p.trans (k x) (k y) (k z);
}
