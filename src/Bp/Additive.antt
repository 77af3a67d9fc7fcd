-- ===== src/Bp/Additive.antt =====
-- What the requests that `check_request` of src/popls/bp.rs accepts conserve, where the calculators
-- add up.
use rgb_std.Base.{
  ℕ, ◌+◌, ◌≡◌, refl, Option-cases, ap, inl, inr, Option, none, some, List, [], ◌∷◌, arith, ◌==◌,
  if◌then◌else◌, Bool-cases, Result, ok, err,
}
use rgb_std.Base.Results.{◌>>=◌ as bind, >>=-eq-ok as bind-eq-ok}
use rgb_std.Seals.{RgbSeal}
use rgb_std.Pile.{Pile}
use rgb_std.Ledger.{Ledger}
use rgb_std.Wire.{Wire}
use rgb_std.Stockpile.{Stockpile}
use rgb_std.Contract.{Contract}
use rgb_std.Contracts.{Contracts}
use rgb_std.Contracts.View.{current}
use rgb_std.Contract.State.{ContractState, state}
use rgb_std.Bp.{Bitcoin, OpRequest}
use rgb_std.Bp.Api.{Api}
use rgb_std.Bp.Check.{entry, stepped, check_request}
use rgb_std.Bp.Balance.{own, own_step, Method, Settled}
use rgb_std.Bp.Checked.{values_in, values_out, IsBalanced}
use rgb_std.Bp.Conserved.{check_request-IsBalanced}

-- A measure of values that the calculators add up.
pub record IsAdditive {B : Bitcoin} {L : Ledger} (A : Api B L) (weight : L.Value → ℕ) : Type 0 where
  pub inflow : A.Calc → ℕ
  pub outflow : A.Calc → ℕ
  pub calculate_zero :
      (articles : L.Articles) (name : ℕ) (calc : A.Calc)
      → A.calculate articles name ≡ some calc
      → (inflow calc ≡ 0) × (outflow calc ≡ 0)
  pub accumulate_adds :
      (calc calc' : A.Calc) (value : L.Value)
      → A.accumulate calc value ≡ (calc', ok tt)
      → (inflow calc' ≡ inflow calc + weight value) × (outflow calc' ≡ outflow calc)
  pub lessen_adds :
      (calc calc' : A.Calc) (value : L.Value)
      → A.lessen calc value ≡ (calc', ok tt)
      → (inflow calc' ≡ inflow calc) × (outflow calc' ≡ outflow calc + weight value)
  -- `diff` says what is missing on either side.
  pub diff_zero : (calc : A.Calc) → A.diff calc ≡ ok [] → inflow calc ≡ outflow calc

-- The sum over the values with a name.
abbrev pub total : {V : Type 0} → (V → ℕ) → ℕ → List (ℕ × V) → ℕ
total weight name [] = 0
total weight name ((other, value) ∷ l) =
    if other == name then weight value + total weight name l else total weight name l

module _ {B : Bitcoin} {L : Ledger} (A : Api B L) (weight : L.Value → ℕ)
    (additive : IsAdditive A weight) (articles : L.Articles) where
  open additive use {inflow, outflow}

  -- A calculator that is not made yet has seen nothing.
  abbrev flow : (A.Calc → ℕ) → Option A.Calc → ℕ
  flow f none = 0
  flow f (some calc) = f calc

  stepped-ok :
      (r : A.Calc × Result A.CalcError (Unit {0})) {calc : A.Calc}
      → stepped A articles r ≡ ok calc
      → r ≡ (calc, ok tt)
  stepped-ok (calc, ok tt) h = ground (arith, h)
  stepped-ok (calc, err e) h = absurd (cc)

  entry-flow :
      (f : A.Calc → ℕ) (name : ℕ) (calc : Option A.Calc) (calc' : A.Calc)
      → ((fresh : A.Calc) → A.calculate articles name ≡ some fresh → f fresh ≡ 0)
      → entry A articles name calc ≡ ok calc'
      → f calc' ≡ flow f calc
  unfolding entry
  entry-flow f name (some calc) calc' zero e = ground (arith, e)
  entry-flow f name none calc' zero e = elim (Option-cases (A.calculate articles name)) [
    | inl unknown ↦ absurd (ground (arith, e, unknown))
    | inr (fresh, made) ↦
        let same : fresh ≡ calc' = ground (arith, e, made) in
        let start : f fresh ≡ 0 = zero fresh made in rw same at start
  ]

  own-adds :
      (method : Method A articles) (f : A.Calc → ℕ) (more : L.Value → ℕ) (name : ℕ)
      (l : List (ℕ × L.Value)) (calc o : Option A.Calc)
      → ((fresh : A.Calc) → A.calculate articles name ≡ some fresh → f fresh ≡ 0)
      → ((a b : A.Calc) (value : L.Value) → method a value ≡ (b, ok tt) → f b ≡ f a + more value)
      → own A articles method name l calc ≡ ok o
      → flow f o ≡ flow f calc + total more name l
  unfolding own
  own-adds method f more name [] calc o zero adds e =
      let same : calc ≡ o = ground (arith, e) in omega (arith, ap (flow f) same)
  own-adds method f more name ((other, value) ∷ l) calc o zero adds e =
      elim (Bool-cases (other == name)) [
        | inr miss ↦
            let later : own A articles method name l calc ≡ ok o = rw (miss, own) at e in
            rw miss (own-adds method f more name l calc o zero adds later)
        | inl hit ↦
            let mine : bind (own_step A articles method name value calc)
                  (own A articles method name l)
                ≡ ok o =
              rw (hit, own) at e in
            let (o1, step, rest) = bind-eq-ok (own_step A articles method name value calc) _ mine in
            let (calc1, found, step1) = bind-eq-ok (entry A articles name calc) _ step in
            let (calc2, fine, step2) =
              bind-eq-ok (stepped A articles (method calc1 value)) _ step1 in
            let same : some calc2 ≡ o1 = ground (arith, step2) in
            let first = entry-flow f name calc calc1 zero found in
            let second = adds calc1 calc2 value (stepped-ok (method calc1 value) fine) in
            let ih = own-adds method f more name l o1 o zero adds rest in
            rw hit (omega (arith, first, second, ih, ap (flow f) same))
      ]

  total-zero : (name : ℕ) (l : List (ℕ × L.Value)) → total (λ _. 0) name l ≡ 0
  total-zero name [] = refl
  total-zero name ((other, value) ∷ l) = ground (arith, total-zero name l)

  Settled-flow :
      (last : Option A.Calc) → Settled A articles last → flow inflow last ≡ flow outflow last
  Settled-flow none h = refl
  Settled-flow (some calc) h = additive.diff_zero calc h

  IsBalanced-total :
      (name : ℕ) (inputs outputs : List (ℕ × L.Value))
      → IsBalanced A articles name inputs outputs
      → total weight name inputs ≡ total weight name outputs
  IsBalanced-total name inputs outputs (mid, last, taken, given, settled) =
      let no_in = λ (fresh : A.Calc) (e : A.calculate articles name ≡ some fresh).
        (additive.calculate_zero articles name fresh e).0 in
      let no_out = λ (fresh : A.Calc) (e : A.calculate articles name ≡ some fresh).
        (additive.calculate_zero articles name fresh e).1 in
      let a =
        own-adds A.accumulate inflow weight name inputs none mid no_in
          (λ a b v e. (additive.accumulate_adds a b v e).0) taken in
      let b =
        own-adds A.accumulate outflow (λ _. 0) name inputs none mid no_out
          (λ a b v e. omega (arith, (additive.accumulate_adds a b v e).1)) taken in
      let c =
        own-adds A.lessen inflow (λ _. 0) name outputs mid last no_in
          (λ a b v e. omega (arith, (additive.lessen_adds a b v e).0)) given in
      let d =
        own-adds A.lessen outflow weight name outputs mid last no_out
          (λ a b v e. (additive.lessen_adds a b v e).1) given in
      omega (
        arith,
        a,
        b,
        c,
        d,
        total-zero name inputs,
        total-zero name outputs,
        Settled-flow last settled,
      )

module _ {S : RgbSeal} {P : Pile S} {L : Ledger} {W : Wire S} (Sp : Stockpile P L W) {B : Bitcoin}
    (A : Api B L) where
  -- Where the calculators add up a measure of values, and tell nothing of a difference only if what
  -- went in and what went out weigh the same: a request that is accepted uses, for each name, owned
  -- states of the contract that weigh together as much as those that it assigns.
  pub check_request-conserves :
      {T : Type 0} (cs cs' : Contracts Sp) (request : OpRequest B L.Value L.Atom T)
      (c : Contract P L) (st : ContractState S.Seal L.Value L.Atom) (weight : L.Value → ℕ)
      → IsAdditive A weight
      → current Sp cs request.contract_id ≡ some c
      → state P L c ≡ some st
      → check_request Sp A cs request ≡ some (ok tt, cs')
      → (l : List (ℕ × L.Value)) × (values_in st.owned request.using ≡ some l)
        × ((name : ℕ) → total weight name l ≡ total weight name (values_out request.owned))
  check_request-conserves cs cs' request c st weight additive here computed accepted =
      let (_, (l, known, balanced)) =
        (check_request-IsBalanced Sp A cs request c st here computed).0 cs' accepted in
      (
        l,
        known,
        λ name.
            IsBalanced-total A weight additive (L.articles c.ledger) name l
              (values_out request.owned) (balanced name),
      )
