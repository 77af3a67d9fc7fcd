-- ===== src/Bp/Prefabs.antt =====
-- Sets of prefabs of src/popls/bp.rs: nothing that enters a set is lost.
use rgb_std.Base.{
  ℕ, ◌≡◌, refl, ap, ap₂, ◌∙◌, ◌⊎◌, inl, inr, Bool, false, ◌||◌, compare, Ordering, List, [], ◌∷◌,
  ◌++◌, arith, contains, contains-append, contains-set_put, set_put,
}
use rgb_std.Ledger.{Ledger}
use rgb_std.Contracts.Named.{Among}
use rgb_std.Bp.{Bitcoin}
use rgb_std.Bp.Api.{Api}
use rgb_std.Bp.Prefab.{Prefab}
use rgb_std.Bp.Bundle.{compare_list, then_by, prefab_compare, add_prefab}
use rgb_std.Bp.Bundling.{closes, extend}

module _ {A : Type 0} where
  pub Among-left : (a : A) (xs ys : List A) → Among a xs → Among a (xs ++ ys)
  Among-left a [] ys m = elim m [ ]
  Among-left a (x ∷ xs) ys m = elim m [
    | inl here ↦ inl here
    | inr later ↦ inr (Among-left a xs ys later)
  ]

  pub Among-right : (a : A) (xs ys : List A) → Among a ys → Among a (xs ++ ys)
  Among-right a [] ys m = m
  Among-right a (x ∷ xs) ys m = inr (Among-right a xs ys m)

abbrev pub any : {A : Type 0} → (A → Bool) → List A → Bool
any f [] = false
any f (a ∷ l) = f a || any f l

Ordering-cases : (o : Ordering) → (o ≡ Ordering.lt) ⊎ ((o ≡ Ordering.eq) ⊎ (o ≡ Ordering.gt))
Ordering-cases Ordering.lt = inl refl
Ordering-cases Ordering.eq = inr (inl refl)
Ordering-cases Ordering.gt = inr (inr refl)

compare_list-eq : (as' bs : List ℕ) → compare_list as' bs ≡ Ordering.eq → as' ≡ bs
unfolding compare_list
compare_list-eq [] [] h = refl
compare_list-eq [] (b ∷ bs) h = absurd (cc)
compare_list-eq (a ∷ as') [] h = absurd (cc)
compare_list-eq (a ∷ as') (b ∷ bs) h = elim (Ordering-cases (compare a b)) [
  | inl less ↦ absurd (ground (arith, h, less))
  | inr (inr more) ↦ absurd (ground (arith, h, more))
  | inr (inl same) ↦
      let head : a ≡ b = ground (arith, same) in
      let rest : compare_list as' bs ≡ Ordering.eq = ground (arith, h, same) in
      ap₂ ◌∷◌ head (compare_list-eq as' bs rest)
]

then_by-eq : (a b : Ordering) → then_by a b ≡ Ordering.eq → (a ≡ Ordering.eq) × (b ≡ Ordering.eq)
then_by-eq Ordering.lt b h = absurd (cc)
then_by-eq Ordering.gt b h = absurd (cc)
then_by-eq Ordering.eq b h = (refl, h)

pub contains-extend :
    (s ks : List ℕ) (a : ℕ) → contains (extend s ks) a ≡ (contains ks a || contains s a)
unfolding extend
contains-extend s [] a = refl
contains-extend s (k ∷ ks) a =
    ground (arith, contains-extend (set_put k s) ks a, contains-set_put k a s)

module _ {B : Bitcoin} {L : Ledger} (A : Api B L)
    (compare_eq : (a b : L.Operation) → A.op_compare a b ≡ Ordering.eq → a ≡ b) where
  prefab_compare-eq : (p q : Prefab L) → prefab_compare A p q ≡ Ordering.eq → p ≡ q
  unfolding prefab_compare
  prefab_compare-eq p q h =
      let (c, rest) = then_by-eq (compare_list p.closes q.closes) _ h in
      let (d, o) = then_by-eq (compare_list p.defines q.defines) _ rest in
      let same_closes = compare_list-eq p.closes q.closes c in
      let same_defines = compare_list-eq p.defines q.defines d in
      let same_operation = compare_eq p.operation q.operation o in
      ground (arith, same_closes, same_defines, same_operation)

  -- The three cases of an insertion.
  add_before :
      (p q : Prefab L) (s : List (Prefab L))
      → prefab_compare A p q ≡ Ordering.lt
      → add_prefab A p (q ∷ s) ≡ p ∷ q ∷ s
  unfolding add_prefab
  add_before p q s less = ground (arith, less)

  add_same :
      (p q : Prefab L) (s : List (Prefab L))
      → prefab_compare A p q ≡ Ordering.eq
      → add_prefab A p (q ∷ s) ≡ q ∷ s
  unfolding add_prefab
  add_same p q s same = ground (arith, same)

  add_after :
      (p q : Prefab L) (s : List (Prefab L))
      → prefab_compare A p q ≡ Ordering.gt
      → add_prefab A p (q ∷ s) ≡ q ∷ add_prefab A p s
  unfolding add_prefab
  add_after p q s more = ground (arith, more)

  pub Among-add_prefab : (p : Prefab L) (s : List (Prefab L)) → Among p (add_prefab A p s)
  unfolding add_prefab
  Among-add_prefab p [] = inl refl
  Among-add_prefab p (q ∷ s) = elim (Ordering-cases (prefab_compare A p q)) [
    | inl less ↦ rw (add_before p q s less) (inl refl)
    | inr (inl same) ↦ rw (add_same p q s same) (inl (prefab_compare-eq p q same))
    | inr (inr more) ↦ rw (add_after p q s more) (inr (Among-add_prefab p s))
  ]

  pub add_prefab-Among :
      (p q : Prefab L) (s : List (Prefab L)) → Among q s → Among q (add_prefab A p s)
  unfolding add_prefab
  add_prefab-Among p q [] m = elim m [ ]
  add_prefab-Among p q (r ∷ s) m = elim (Ordering-cases (prefab_compare A p r)) [
    | inl less ↦ rw (add_before p r s less) (inr m)
    | inr (inl same) ↦ rw (add_same p r s same) m
    | inr (inr more) ↦
        rw (add_after p r s more)
          (elim m [ inl here ↦ inl here | inr later ↦ inr (add_prefab-Among p q s later) ])
  ]

  pub any-add_prefab :
      (f : Prefab L → Bool) (p : Prefab L) (s : List (Prefab L))
      → any f (add_prefab A p s) ≡ (f p || any f s)
  unfolding add_prefab
  any-add_prefab f p [] = refl
  any-add_prefab f p (q ∷ s) = elim (Ordering-cases (prefab_compare A p q)) [
    | inl less ↦ rw (add_before p q s less) refl
    | inr (inl same) ↦
        let eq : f p ≡ f q = ap f (prefab_compare-eq p q same) in
        rw (add_same p q s same, eq) (ground arith)
    | inr (inr more) ↦ rw (add_after p q s more) (ground (arith, any-add_prefab f p s))
  ]

pub contains-closes :
    {L : Ledger} (s : List (Prefab L)) (o : ℕ)
    → contains (closes s) o ≡ any (λ (p : Prefab L). contains p.closes o) s
unfolding closes
contains-closes [] o = refl
contains-closes (p ∷ s) o =
    contains-append p.closes (closes s) o ∙ ap (λ b. contains p.closes o || b) (contains-closes s o)
