-- ===== src/Controller/Status/Order.antt =====
-- The keys of a map are sorted to one list, in whatever order the map is iterated.
use Prim.Native.Char.{code}
use text.Mathlib.TextEquality.{Char-path}
use kasmcloud.Prelude.{
  String, ◌≡◌, refl, sym, ap, ◌∙◌, inl, inr, true, false, List, [], ◌∷◌, arith, Bool-cases,
}
use kasmcloud.Map.{Map}
use kasmcloud.Map.Orders.{Reordered, ended, kept, swapped, and_then}
use kasmcloud.Controller.Status.{text_leb, put_in_order, sort, keys}

text_leb_total : (s t : String) → text_leb s t ≡ false → text_leb t s ≡ true
unfolding text_leb
text_leb_total String.[] t e = ground arith
text_leb_total (String.◌∷◌ c s) String.[] e = refl
text_leb_total (String.◌∷◌ c s) (String.◌∷◌ d t) e = ground (arith, text_leb_total s t)

text_leb_antisym : (s t : String) → text_leb s t ≡ true → text_leb t s ≡ true → s ≡ t
unfolding text_leb
text_leb_antisym String.[] String.[] e f = refl
text_leb_antisym String.[] (String.◌∷◌ d t) e f = absurd (ground arith)
text_leb_antisym (String.◌∷◌ c s) String.[] e f = absurd (ground arith)
text_leb_antisym (String.◌∷◌ c s) (String.◌∷◌ d t) e f =
    let first : c ≡ d = Char-path c d (ground arith) in
    let rest : s ≡ t =
      text_leb_antisym s t (ground (arith, ap code first)) (ground (arith, ap code first)) in
    cc

text_leb_trans : (s t u : String) → text_leb s t ≡ true → text_leb t u ≡ true → text_leb s u ≡ true
unfolding text_leb
text_leb_trans String.[] t u e f = refl
text_leb_trans (String.◌∷◌ c s) String.[] u e f = absurd (ground arith)
text_leb_trans (String.◌∷◌ c s) (String.◌∷◌ d t) String.[] e f = absurd (ground arith)
text_leb_trans (String.◌∷◌ c s) (String.◌∷◌ d t) (String.◌∷◌ g u) e f =
    ground (arith, text_leb_trans s t u)

same_text :
    (a b : String) (xs : List String)
    → a ≡ b
    → put_in_order a (put_in_order b xs) ≡ put_in_order b (put_in_order a xs)
same_text a b xs e =
    ap (λ y. put_in_order a (put_in_order y xs)) (sym e)
    ∙ ap (λ y. put_in_order y (put_in_order a xs)) e

-- two texts are put in order either way round
put_in_order_comm :
    (a b : String) (xs : List String)
    → put_in_order a (put_in_order b xs) ≡ put_in_order b (put_in_order a xs)
unfolding put_in_order
put_in_order_comm a b [] = elim (Bool-cases (text_leb a b)) [
  | inl e ↦ elim (Bool-cases (text_leb b a)) [
    | inl f ↦ same_text a b [] (text_leb_antisym a b e f)
    | inr f ↦ rw (e, f) refl
  ]
  | inr e ↦ rw (e, text_leb_total a b e) refl
]
put_in_order_comm a b (x ∷ xs) = elim (Bool-cases (text_leb a x)) [
  | inl p ↦ elim (Bool-cases (text_leb b x)) [
    | inl q ↦ elim (Bool-cases (text_leb a b)) [
      | inl e ↦ elim (Bool-cases (text_leb b a)) [
        | inl f ↦ same_text a b (x ∷ xs) (text_leb_antisym a b e f)
        | inr f ↦ ground arith
      ]
      | inr e ↦ ground (arith, text_leb_total a b e)
    ]
    | inr q ↦ elim (Bool-cases (text_leb b a)) [
      | inl f ↦ absurd (let m : true ≡ false = rw (text_leb_trans b a x f p) at q in cc)
      | inr f ↦ ground arith
    ]
  ]
  | inr p ↦ elim (Bool-cases (text_leb b x)) [
    | inl q ↦ elim (Bool-cases (text_leb a b)) [
      | inl e ↦ absurd (let m : true ≡ false = rw (text_leb_trans a b x e q) at p in cc)
      | inr e ↦ ground arith
    ]
    | inr q ↦ ground (arith, put_in_order_comm a b xs)
  ]
]

pub sort-keys-Reordered :
    {V : Type 0} {m m' : Map V} → Reordered m m' → sort (keys m) ≡ sort (keys m')
unfolding sort
sort-keys-Reordered ended = refl
sort-keys-Reordered (kept (k, v) r) = ap (put_in_order k) (sort-keys-Reordered r)
sort-keys-Reordered (swapped (k, v) (l, w) m) = put_in_order_comm k l (sort (keys m))
sort-keys-Reordered (and_then r s) = sort-keys-Reordered r ∙ sort-keys-Reordered s
