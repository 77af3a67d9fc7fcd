-- ===== src/Bp/Fulfill.antt =====
-- `RgbWallet::fulfill` of src/popls/bp.rs: an operation request that pays an invoice.
use rgb_std.Base.{
  ℕ, Bool, true, false, not, ◌&&◌, ◌||◌, Option, none, some, List, [], ◌∷◌, ◌++◌, ◌>>=◌, or_else,
  lookup, contains, set_put, Result, ok, err,
}
use rgb_std.Base.Results.{◌>>=◌ as bind}
use rgb_std.Seals.{RgbSeal, CellAddr, cell_eq}
use rgb_std.Pile.{Pile}
use rgb_std.Ledger.{Ledger}
use rgb_std.Wire.{Wire}
use rgb_std.Stockpile.{Stockpile}
use rgb_std.Contracts.{contract_articles}
use rgb_std.Contract.State.{Assignment, OwnedState}
use rgb_std.Contract.Params.{EitherSeal, alt, token, NamedState}
use rgb_std.Invoice.{RgbBeneficiary, to_token, to_wout}
use rgb_std.Bp.{Bitcoin, WoutAssignment, UsedState, OpRequest}
use rgb_std.Bp.Requests.{ok_or}
use rgb_std.Bp.Api.{Api, CallState}
use rgb_std.Bp.Wallet.{WalletProvider, RgbWallet, state_own}

-- The fields of `CallRequest` that are used.
pub record RgbInvoice (B : Bitcoin) (Value : Type 0) : Type 0 where
  pub scope : ℕ
  pub call : Option CallState
  pub auth : RgbBeneficiary B.WitnessOut
  pub value : Option Value

pub data FulfillError (CalcError : Type 0) : Type 0 where
  call_state_unknown : FulfillError CalcError
  state_name_unknown : FulfillError CalcError
  state_unavailable : FulfillError CalcError
  state_insufficient : FulfillError CalcError
  state_calc : CalcError → FulfillError CalcError
  wout_requires_giveaway : FulfillError CalcError
  value_missed : FulfillError CalcError

-- The two halves of `unzip`, into sets.
abbrev pub has_addr : List (CellAddr × ℕ) → CellAddr → Bool
has_addr [] addr = false
has_addr ((a, _) ∷ using) addr = cell_eq a addr || has_addr using addr

abbrev pub outpoints : List (CellAddr × ℕ) → List ℕ
outpoints [] = []
outpoints ((_, o) ∷ rest) = set_put o (outpoints rest)

module _ {B : Bitcoin} {L : Ledger} (A : Api B L) where
  -- The trait `Coinselect`: it accumulates what it selects.
  abbrev pub Coinselect : Type 0
  Coinselect =
      L.Value → A.Calc → List (OwnedState ℕ L.Value) → Option (List (CellAddr × ℕ)) × A.Calc

  -- What is determined before the coins are selected.
  pub record Terms : Type 0 where
    pub method : ℕ
    pub state_name : ℕ
    pub calc : A.Calc
    pub value : L.Value

  unfoldable pub terms : RgbInvoice B L.Value → L.Articles → Result (FulfillError A.CalcError) Terms
  terms invoice articles =
      bind (ok_or call_state_unknown (or_else invoice.call (A.default_call articles))) λ call.
        bind (ok_or state_name_unknown call.owned) λ state_name.
          bind (ok_or state_name_unknown (A.calculate articles state_name)) λ calc.
            bind (ok_or value_missed invoice.value) λ value.
              ok (record {
                method = call.method;
                state_name = state_name;
                calc = calc;
                value = value;
              })

  abbrev pub kept_if :
      Result A.CalcError (Unit {0}) → CellAddr × ℕ → List (CellAddr × ℕ) → List (CellAddr × ℕ)
  kept_if (err _) used rest = rest
  kept_if (ok _) used rest = used ∷ rest

  -- All other allocations on the selected outputs; one that does not accumulate is left out.
  unfoldable pub other_uses :
      List (CellAddr × ℕ) → A.Calc → List (OwnedState ℕ L.Value) → List (CellAddr × ℕ) × A.Calc
  other_uses using calc [] = ([], calc)
  other_uses using calc (s ∷ state) =
      elim (contains (outpoints using) s.assignment.seal && not (has_addr using s.addr)) [
        | false ↦ other_uses using calc state
        | true ↦
            let (calc', res) = A.accumulate calc s.assignment.value in
            let (rest, last) = other_uses using calc' state in
            (kept_if res (s.addr, s.assignment.seal) rest, last)
      ]

  abbrev pub used_states : List (CellAddr × ℕ) → List (UsedState B)
  used_states [] = []
  used_states ((addr, outpoint) ∷ using) =
      record { addr = addr; outpoint = outpoint; satisfaction = none } ∷ used_states using

  abbrev pub Paid : Type 0
  Paid = NamedState (Assignment (EitherSeal (Option (WoutAssignment B))) L.Value)

  unfoldable pub beneficiary :
      RgbBeneficiary B.WitnessOut
      → Option ℕ
      → Result (FulfillError A.CalcError) (EitherSeal (Option (WoutAssignment B)))
  beneficiary (to_token auth) giveaway = ok (token auth)
  beneficiary (to_wout wout) giveaway =
      bind (ok_or wout_requires_giveaway giveaway)
        λ sats. ok (alt (some (record { wout = wout; sats = sats })))

  abbrev pub paid : ℕ → EitherSeal (Option (WoutAssignment B)) → L.Value → Paid
  paid state_name seal value = record {
    name = state_name;
    state = record { seal = seal; value = value };
  }

  -- The change.
  unfoldable pub changes : ℕ → List L.Value → List Paid
  changes state_name [] = []
  changes state_name (value ∷ diff) = paid state_name (alt none) value ∷ changes state_name diff

  abbrev pub as_fulfill : {X : Type 0} → Result A.CalcError X → Result (FulfillError A.CalcError) X
  as_fulfill (ok x) = ok x
  as_fulfill (err e) = err (state_calc e)

  -- After the selection.
  unfoldable pub pay :
      RgbInvoice B L.Value
      → Option ℕ
      → Terms
      → List (CellAddr × ℕ)
      → A.Calc
      → Result (FulfillError A.CalcError) (OpRequest B L.Value L.Atom (Option (WoutAssignment B)))
  unfolding beneficiary changes
  pay invoice giveaway terms using calc = bind (beneficiary invoice.auth giveaway) λ seal.
      let (calc', res) = A.lessen calc terms.value in
      bind (as_fulfill res) λ _. bind (as_fulfill (A.diff calc')) λ diff. ok (record {
        contract_id = invoice.scope;
        method = terms.method;
        reading = [];
        using = used_states using;
        global = [];
        owned = paid terms.state_name seal terms.value ∷ changes terms.state_name diff;
      })

  unfoldable pub select :
      Coinselect
      → RgbInvoice B L.Value
      → Option ℕ
      → Terms
      → List (OwnedState ℕ L.Value)
      → Result (FulfillError A.CalcError) (OpRequest B L.Value L.Atom (Option (WoutAssignment B)))
  unfolding other_uses pay
  select coinselect invoice giveaway terms state =
      let (selected, calc) = coinselect terms.value terms.calc state in
      bind (ok_or state_insufficient selected) λ using.
        let (others, calc') = other_uses using calc state in
        pay invoice giveaway terms (using ++ others) calc'

  module _ {S : RgbSeal} {P : Pile S} {W : Wire S} (Sp : Stockpile P L W)
      (N : WalletProvider B S) where
    unfoldable pub fulfill_terms :
        Coinselect
        → RgbInvoice B L.Value
        → Option ℕ
        → RgbWallet Sp N
        → Result (FulfillError A.CalcError) Terms
        → Option (
            RgbWallet Sp N
            × Result
                (FulfillError A.CalcError)
                (OpRequest B L.Value L.Atom (Option (WoutAssignment B))))
    unfolding select
    fulfill_terms coinselect invoice giveaway w (err e) = some (w, err e)
    fulfill_terms coinselect invoice giveaway w (ok terms) =
        state_own Sp N w invoice.scope >>= λ found. some (
          found.1,
          bind (ok_or state_unavailable (lookup terms.state_name found.0.owned))
              (select coinselect invoice giveaway terms),
        )

    unfoldable pub fulfill :
        RgbWallet Sp N
        → RgbInvoice B L.Value
        → Coinselect
        → Option ℕ
        → Option (
            RgbWallet Sp N
            × Result
                (FulfillError A.CalcError)
                (OpRequest B L.Value L.Atom (Option (WoutAssignment B))))
    unfolding terms fulfill_terms
    fulfill w invoice coinselect giveaway =
        contract_articles Sp w.contracts invoice.scope >>= λ found.
        fulfill_terms coinselect invoice giveaway (record w { contracts = found.1 })
          (terms invoice found.0)
