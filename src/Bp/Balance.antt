-- ===== src/Bp/Balance.antt =====
-- What a request that passes `check_request` of src/popls/bp.rs comes to, state by state.
use mathlib.Core.Path.{subst}
use rgb_std.Base.{
  ℕ, ◌<◌, ◌≡◌, refl, sym, ap, ◌∙◌, inl, inr, true, false, Option, none, some, List, [], ◌∷◌, arith,
  ltb, ◌==◌, ==_iff, ==_refl, Bool-cases, lookup, put, lookup-put, Result, ok, err, All, All-imp,
}
use rgb_std.Base.Results.{◌>>=◌ as bind, >>=-eq-ok as bind-eq-ok}
use rgb_std.Ledger.{Ledger}
use rgb_std.Bp.{Bitcoin}
use rgb_std.Bp.Api.{Api}
use rgb_std.Bp.Check.{Checked, Calcs, entry, stepped, calc_step, no_change, check_diffs}

module _ {V : Type 0} where
  -- The names of a map in ascending order.
  abbrev pub Ascends : List (ℕ × V) → Type 0
  Ascends [] = Unit {0}
  Ascends ((k, v) ∷ m) = All (λ (e : ℕ × V). k < e.0) m × Ascends m

  put-All :
      (Q : ℕ × V → Type 0) (k : ℕ) (v : V) (m : List (ℕ × V))
      → Q (k, v)
      → All Q m
      → All Q (put k v m)
  unfolding put
  put-All Q k v [] q h = (q, tt)
  put-All Q k v ((j, w) ∷ m) q h = ground (arith, put-All Q k v m q h.1)

  put-Ascends : (k : ℕ) (v : V) (m : List (ℕ × V)) → Ascends m → Ascends (put k v m)
  unfolding put
  put-Ascends k v [] h = (tt, tt)
  put-Ascends k v ((j, w) ∷ m) (above, h) = elim (Bool-cases (ltb k j)) [
    | inl less ↦
        let lt : k < j = ground arith in
        rw less ((lt, All-imp (λ (e : ℕ × V) (a : j < e.0). omega arith) m above), (above, h))
    | inr more ↦ elim (Bool-cases (k == j)) [
      | inl eq ↦
          let same : j ≡ k = ground arith in
          rw (more, eq) (subst (λ i. All (λ (e : ℕ × V). i < e.0) m) same above, h)
      | inr ne ↦
          let lt : j < k = ground arith in
          rw (more, ne) (put-All (λ e. j < e.0) k v m lt above, put-Ascends k v m h)
    ]
  ]

module _ {B : Bitcoin} {L : Ledger} (A : Api B L) (articles : L.Articles) where
  abbrev pub Method : Type 0
  Method = A.Calc → L.Value → A.Calc × Result A.CalcError (Unit {0})

  -- The same loop for inputs and outputs.
  unfoldable pub moves :
      Method → List (ℕ × L.Value) → Calcs A articles → Checked A articles (Calcs A articles)
  moves method [] calcs = ok calcs
  moves method ((name, value) ∷ l) calcs =
      bind (calc_step A articles method name value calcs) (moves method l)

  -- One calculator, which a value of another name passes by.
  abbrev pub own_step : Method → ℕ → L.Value → Option A.Calc → Checked A articles (Option A.Calc)
  own_step method name value calc =
      bind (entry A articles name calc)
        λ calc'. bind (stepped A articles (method calc' value)) λ calc1. ok (some calc1)

  unfoldable pub own :
      Method → ℕ → List (ℕ × L.Value) → Option A.Calc → Checked A articles (Option A.Calc)
  own method name [] calc = ok calc
  own method name ((other, value) ∷ l) calc = elim (other == name) [
    | true ↦ bind (own_step method name value calc) (own method name l)
    | false ↦ own method name l calc
  ]

  calc_step-own_step :
      (method : Method) (name : ℕ) (value : L.Value) (calcs calcs' : Calcs A articles)
      → calc_step A articles method name value calcs ≡ ok calcs'
      → (calc : A.Calc) × (own_step method name value (lookup name calcs) ≡ ok (some calc))
        × (calcs' ≡ put name calc calcs)
  unfolding calc_step
  calc_step-own_step method name value calcs calcs' e =
      let (calc, found, e1) = bind-eq-ok (entry A articles name (lookup name calcs)) _ e in
      let (calc1, fine, e2) = bind-eq-ok (stepped A articles (method calc value)) _ e1 in
      (calc1, rw (found, fine), ground (arith, e2))

  own_step-calc_step :
      (method : Method) (name : ℕ) (value : L.Value) (calcs : Calcs A articles) (o : Option A.Calc)
      → own_step method name value (lookup name calcs) ≡ ok o
      → (calc : A.Calc) × (o ≡ some calc)
        × (calc_step A articles method name value calcs ≡ ok (put name calc calcs))
  unfolding calc_step
  own_step-calc_step method name value calcs o e =
      let (calc, found, e1) = bind-eq-ok (entry A articles name (lookup name calcs)) _ e in
      let (calc1, fine, e2) = bind-eq-ok (stepped A articles (method calc value)) _ e1 in
      (calc1, ground (arith, e2), rw (found, fine))

  pub moves-own :
      (method : Method) (l : List (ℕ × L.Value)) (calcs calcs' : Calcs A articles)
      → moves method l calcs ≡ ok calcs'
      → (n : ℕ) → own method n l (lookup n calcs) ≡ ok (lookup n calcs')
  unfolding moves own
  moves-own method [] calcs calcs' e n = ground (arith, e)
  moves-own method ((name, value) ∷ l) calcs calcs' e n =
      let (calcs1, first, rest) = bind-eq-ok (calc_step A articles method name value calcs) _ e in
      let (calc, stepped_fine, e1) = calc_step-own_step method name value calcs calcs1 first in
      let ih = moves-own method l calcs1 calcs' rest n in
      let found = ap (lookup n) e1 ∙ lookup-put name n calc calcs in
      elim (Bool-cases (name == n)) [
        | inl hit ↦
            let same : name ≡ n = (==_iff name n).0 hit in
            let mine =
              subst (λ i. own_step method i value (lookup i calcs) ≡ ok (some calc)) same
                stepped_fine in
            rw (hit, own, mine) (rw (found, hit) at ih)
        | inr miss ↦ rw (miss, own) (rw (found, miss) at ih)
      ]

  pub own-moves :
      (method : Method) (l : List (ℕ × L.Value)) (calcs : Calcs A articles)
      → ((n : ℕ) → (o : Option A.Calc) × (own method n l (lookup n calcs) ≡ ok o))
      → (calcs' : Calcs A articles) × (moves method l calcs ≡ ok calcs')
  unfolding moves own
  own-moves method [] calcs h = (calcs, refl)
  own-moves method ((name, value) ∷ l) calcs h =
      let (o, e) = h name in
      let mine : bind (own_step method name value (lookup name calcs)) (own method name l) ≡ ok o =
        rw (==_refl name, own) at e in
      let (o1, fine, rest) = bind-eq-ok (own_step method name value (lookup name calcs)) _ mine in
      let (calc, e1, step) = own_step-calc_step method name value calcs o1 fine in
      let tail : (n : ℕ)
          → (o : Option A.Calc) × (own method n l (lookup n (put name calc calcs)) ≡ ok o) =
        λ n. elim (Bool-cases (name == n)) [
          | inl hit ↦
              let same : name ≡ n = (==_iff name n).0 hit in
              let at_n : own method n l (some calc) ≡ ok o =
                subst (λ i. own method i l (some calc) ≡ ok o) same (rw e1 at rest) in
              (o, rw (lookup-put name n calc calcs, hit) at_n)
          | inr miss ↦
              let (o2, e2) = h n in
              let later : own method n l (lookup n calcs) ≡ ok o2 = rw (miss, own) at e2 in
              (o2, rw (lookup-put name n calc calcs, miss) later)
        ] in
      let (calcs', done) = own-moves method l (put name calc calcs) tail in (calcs', rw step done)

  pub moves-Ascends :
      (method : Method) (l : List (ℕ × L.Value)) (calcs calcs' : Calcs A articles)
      → moves method l calcs ≡ ok calcs'
      → Ascends calcs
      → Ascends calcs'
  unfolding moves
  moves-Ascends method [] calcs calcs' e h =
      let same : calcs ≡ calcs' = ground (arith, e) in subst Ascends same h
  moves-Ascends method ((name, value) ∷ l) calcs calcs' e h =
      let (calcs1, first, rest) = bind-eq-ok (calc_step A articles method name value calcs) _ e in
      let (calc, _, e1) = calc_step-own_step method name value calcs calcs1 first in
      moves-Ascends method l calcs1 calcs' rest
        (subst Ascends (sym e1) (put-Ascends name calc calcs h))

  -- What is left of a state is nothing.
  abbrev pub Settled : Option A.Calc → Type 0
  Settled none = Unit {0}
  Settled (some calc) = A.diff calc ≡ ok []

  no_change-Settled :
      (name : ℕ) (r : Result A.CalcError (List L.Value)) {u : Unit {0}}
      → no_change A articles name r ≡ ok u
      → r ≡ ok []
  no_change-Settled name (err e) h = absurd (cc)
  no_change-Settled name (ok []) h = refl
  no_change-Settled name (ok (v ∷ vs)) h = absurd (cc)

  pub check_diffs-Settled :
      (calcs : Calcs A articles) {u : Unit {0}}
      → check_diffs A articles calcs ≡ ok u
      → (n : ℕ) → Settled (lookup n calcs)
  unfolding check_diffs
  check_diffs-Settled [] e n = tt
  check_diffs-Settled ((name, calc) ∷ calcs) e n =
      let (_, first, rest) = bind-eq-ok (no_change A articles name (A.diff calc)) _ e in
      elim (Bool-cases (name == n)) [
        | inl hit ↦ rw hit (no_change-Settled name (A.diff calc) first)
        | inr miss ↦ rw miss (check_diffs-Settled calcs rest n)
      ]

  lookup_above :
      (k : ℕ) (calcs : Calcs A articles)
      → All (λ (e : ℕ × A.Calc). k < e.0) calcs
      → lookup k calcs ≡ none
  lookup_above k [] h = refl
  lookup_above k ((j, calc) ∷ calcs) h = ground (arith, lookup_above k calcs h.1)

  pub Settled-check_diffs :
      (calcs : Calcs A articles)
      → Ascends calcs
      → ((n : ℕ) → Settled (lookup n calcs))
      → check_diffs A articles calcs ≡ ok tt
  unfolding check_diffs
  Settled-check_diffs [] h all = refl
  Settled-check_diffs ((name, calc) ∷ calcs) (above, h) all =
      let first : A.diff calc ≡ ok [] = rw (==_refl name) at (all name) in
      let rest : (n : ℕ) → Settled (lookup n calcs) = λ n. elim (Bool-cases (name == n)) [
        | inl hit ↦
            let same : name ≡ n = (==_iff name n).0 hit in
            let unknown : lookup n calcs ≡ none =
              ap (λ i. lookup i calcs) (sym same) ∙ lookup_above name calcs above in
            rw unknown tt
        | inr miss ↦ rw miss at (all n)
      ] in
      rw first (Settled-check_diffs calcs h rest)
