-- ===== src/Bp/Runs.antt =====
-- One calculator over the values of one state, as `fulfill` of src/popls/bp.rs drives it, against
-- the calculators of `check_request`.
use mathlib.Core.Path.{subst}
use rgb_std.Base.{
  ℕ, ◌≡◌, refl, sym, ap, ◌∙◌, inl, inr, false, not, ◌&&◌, Option, some, List, [], ◌∷◌, ◌++◌, arith,
  ◌==◌, ==_refl, Bool, Bool-cases, All, All-imp, contains, ok, err,
}
use rgb_std.Base.Results.{◌>>=◌ as bind, >>=-eq-ok as bind-eq-ok, Result-cases}
use rgb_std.Seals.{CellAddr}
use rgb_std.Ledger.{Ledger}
use rgb_std.Contracts.Named.{Among}
use rgb_std.Contract.State.{OwnedState}
use rgb_std.Bp.{Bitcoin}
use rgb_std.Bp.Api.{Api}
use rgb_std.Bp.Check.{Checked, entry, stepped}
use rgb_std.Bp.Balance.{Method, own}
use rgb_std.Bp.Fulfill.{other_uses, outpoints, has_addr}

-- Values under one name.
abbrev pub tagged : {V : Type 0} → ℕ → List V → List (ℕ × V)
tagged name [] = []
tagged name (value ∷ values) = (name, value) ∷ tagged name values

module _ {Value : Type 0} where
  abbrev pub values_of : List (OwnedState ℕ Value) → List Value
  values_of [] = []
  values_of (o ∷ picked) = o.assignment.value ∷ values_of picked

  -- The addresses and outpoints of states.
  abbrev pub uses_of : List (OwnedState ℕ Value) → List (CellAddr × ℕ)
  uses_of [] = []
  uses_of (o ∷ picked) = (o.addr, o.assignment.seal) ∷ uses_of picked

  pub values_of-append :
      (xs ys : List (OwnedState ℕ Value)) → values_of (xs ++ ys) ≡ values_of xs ++ values_of ys
  values_of-append [] ys = refl
  values_of-append (x ∷ xs) ys = ap (λ r. x.assignment.value ∷ r) (values_of-append xs ys)

  pub uses_of-append :
      (xs ys : List (OwnedState ℕ Value)) → uses_of (xs ++ ys) ≡ uses_of xs ++ uses_of ys
  uses_of-append [] ys = refl
  uses_of-append (x ∷ xs) ys = ap (λ r. (x.addr, x.assignment.seal) ∷ r) (uses_of-append xs ys)

module _ {B : Bitcoin} {L : Ledger} (A : Api B L) (articles : L.Articles) where
  -- A calculator takes values one by one, with no error.
  abbrev pub run_all : Method A articles → List L.Value → A.Calc → Checked A articles A.Calc
  run_all method [] calc = ok calc
  run_all method (value ∷ values) calc =
      bind (stepped A articles (method calc value)) (run_all method values)

  pub run_all-cons :
      (method : Method A articles) (value : L.Value) (values : List L.Value)
      (calc mid last : A.Calc) (u : Unit {0})
      → method calc value ≡ (mid, ok u)
      → run_all method values mid ≡ ok last
      → run_all method (value ∷ values) calc ≡ ok last
  run_all-cons method value values calc mid last u e rest = rw e rest

  pub run_all-append :
      (method : Method A articles) (xs ys : List L.Value) (calc calc1 calc2 : A.Calc)
      → run_all method xs calc ≡ ok calc1
      → run_all method ys calc1 ≡ ok calc2
      → run_all method (xs ++ ys) calc ≡ ok calc2
  run_all-append method [] ys calc calc1 calc2 e e' =
      let same : calc ≡ calc1 = ground (arith, e) in rw same e'
  run_all-append method (x ∷ xs) ys calc calc1 calc2 e e' =
      let (mid, fine, rest) = bind-eq-ok (stepped A articles (method calc x)) _ e in
      rw fine (run_all-append method xs ys mid calc1 calc2 rest e')

  -- The calculator of the name does the same, whether it is made already or not.
  pub own-run_all :
      (method : Method A articles) (name : ℕ) (values : List L.Value) (o : Option A.Calc)
      (calc calc' : A.Calc)
      → entry A articles name o ≡ ok calc
      → run_all method values calc ≡ ok calc'
      → (o' : Option A.Calc) × (own A articles method name (tagged name values) o ≡ ok o')
        × (entry A articles name o' ≡ ok calc')
  unfolding own
  own-run_all method name [] o calc calc' made e = (o, refl, made ∙ e)
  own-run_all method name (value ∷ values) o calc calc' made e =
      let (mid, fine, rest) = bind-eq-ok (stepped A articles (method calc value)) _ e in
      let start : entry A articles name (some mid) ≡ ok mid = unfold entry in refl in
      let (o', ran, last) = own-run_all method name values (some mid) mid calc' start rest in
      (o', rw (==_refl name, own, made, fine) ran, last)

  -- One that takes at least one value is made.
  pub own-run_all-some :
      (method : Method A articles) (name : ℕ) (value : L.Value) (values : List L.Value)
      (o : Option A.Calc) (calc calc' : A.Calc)
      → entry A articles name o ≡ ok calc
      → run_all method (value ∷ values) calc ≡ ok calc'
      → own A articles method name (tagged name (value ∷ values)) o ≡ ok (some calc')
  unfolding own
  own-run_all-some method name value [] o calc calc' made e =
      let (mid, fine, rest) = bind-eq-ok (stepped A articles (method calc value)) _ e in
      rw (==_refl name, own, made, fine) (ap (λ r. bind r (λ c. ok (some c))) rest)
  own-run_all-some method name value (v ∷ values) o calc calc' made e =
      let (mid, fine, rest) = bind-eq-ok (stepped A articles (method calc value)) _ e in
      let start : entry A articles name (some mid) ≡ ok mid = unfold entry in refl in
      let later = own-run_all-some method name v values (some mid) mid calc' start rest in
      rw (==_refl name, own, made, fine) later

  -- No other calculator does anything.
  pub own-tagged_other :
      (method : Method A articles) (name n : ℕ) (values : List L.Value) (o : Option A.Calc)
      → (name == n) ≡ false
      → own A articles method n (tagged name values) o ≡ ok o
  unfolding own
  own-tagged_other method name n [] o ne = refl
  own-tagged_other method name n (value ∷ values) o ne =
      rw (ne, own) (own-tagged_other method name n values o ne)

  -- What is picked of a list of states, with the calculator after it.
  abbrev pub IsPicked : List (OwnedState ℕ L.Value) → A.Calc → List (CellAddr × ℕ) × A.Calc → Type 0
  IsPicked state calc res =
      (picked : List (OwnedState ℕ L.Value)) × All (λ o. Among o state) picked
      × (res.0 ≡ uses_of picked)
      × (run_all A.accumulate (values_of picked) calc ≡ ok res.1)

  IsPicked-skip :
      (s : OwnedState ℕ L.Value) (state : List (OwnedState ℕ L.Value)) (calc : A.Calc)
      (res : List (CellAddr × ℕ) × A.Calc)
      → IsPicked state calc res
      → IsPicked (s ∷ state) calc res
  IsPicked-skip s state calc res (picked, among, uses, ran) =
      (picked, All-imp (λ o m. inr m) picked among, uses, ran)

  IsPicked-kept :
      (s : OwnedState ℕ L.Value) (state : List (OwnedState ℕ L.Value)) (calc after : A.Calc)
      (u : Unit {0}) (res : List (CellAddr × ℕ) × A.Calc)
      → A.accumulate calc s.assignment.value ≡ (after, ok u)
      → IsPicked state after res
      → IsPicked (s ∷ state) calc ((s.addr, s.assignment.seal) ∷ res.0, res.1)
  IsPicked-kept s state calc after u res fine (picked, among, uses, ran) = (
    s ∷ picked,
    (inl refl, All-imp (λ o m. inr m) picked among),
    ap (λ r. (s.addr, s.assignment.seal) ∷ r) uses,
    rw fine ran,
  )

  abbrev is_other : List (CellAddr × ℕ) → OwnedState ℕ L.Value → Bool
  is_other using s = contains (outpoints using) s.assignment.seal && not (has_addr using s.addr)

  -- The other allocations that `fulfill` adds are states of the list, which were accumulated.
  pub other_uses-IsPicked :
      (using : List (CellAddr × ℕ)) (calc : A.Calc) (state : List (OwnedState ℕ L.Value))
      → ((before after : A.Calc) (value : L.Value) (e : A.CalcError)
          → A.accumulate before value ≡ (after, err e)
          → after ≡ before)
      → IsPicked state calc (other_uses A using calc state)
  unfolding other_uses
  other_uses-IsPicked using calc [] clean = ([], tt, refl, refl)
  other_uses-IsPicked using calc (s ∷ state) clean = elim (Bool-cases (is_other using s)) [
    | inr skip ↦
        let same : other_uses A using calc (s ∷ state) ≡ other_uses A using calc state =
          ground (arith, skip) in
        subst (IsPicked (s ∷ state) calc) (sym same)
          (IsPicked-skip s state calc _ (other_uses-IsPicked using calc state clean))
    | inl take ↦
        let after = (A.accumulate calc s.assignment.value).0 in
        let ih = other_uses-IsPicked using after state clean in
        elim (Result-cases (A.accumulate calc s.assignment.value).1) [
          | inl (e, bad) ↦
              let failed : A.accumulate calc s.assignment.value ≡ (after, err e) =
                ap (λ r. (after, r)) bad in
              let back = clean calc after s.assignment.value e failed in
              let same : other_uses A using calc (s ∷ state) ≡ other_uses A using after state =
                ground (arith, take, bad) in
              subst (IsPicked (s ∷ state) calc) (sym same) (
                IsPicked-skip s state calc _
                  (subst (λ c. IsPicked state c (other_uses A using after state)) back ih))
          | inr (u, fine) ↦
              let done : A.accumulate calc s.assignment.value ≡ (after, ok u) =
                ap (λ r. (after, r)) fine in
              let same : other_uses A using calc (s ∷ state) ≡ (
                (s.addr, s.assignment.seal) ∷ (other_uses A using after state).0,
                (other_uses A using after state).1,
              ) =
                ground (arith, take, fine) in
              subst (IsPicked (s ∷ state) calc) (sym same)
                (IsPicked-kept s state calc after u (other_uses A using after state) done ih)
        ]
  ]
