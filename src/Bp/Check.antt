-- ===== src/Bp/Check.antt =====
-- `RgbWallet::check_request` of src/popls/bp.rs: a calculator for each state of a request.
use rgb_std.Base.{ℕ, Option, none, some, List, [], ◌∷◌, ◌>>=◌, lookup, put, Result, ok, err}
use rgb_std.Base.Results.{◌>>=◌ as bind}
use rgb_std.Seals.{RgbSeal, CellAddr, cell_eq}
use rgb_std.Pile.{Pile}
use rgb_std.Ledger.{Ledger}
use rgb_std.Wire.{Wire}
use rgb_std.Stockpile.{Stockpile}
use rgb_std.Contracts.{Contracts, contract_state, contract_articles}
use rgb_std.Contracts.Queries.{find}
use rgb_std.Contract.State.{Assignment, OwnedState}
use rgb_std.Contract.Params.{EitherSeal, NamedState}
use rgb_std.Bp.{Bitcoin, UsedState, OpRequest}
use rgb_std.Bp.Api.{Api}

pub data UnmatchedState (CalcError : Type 0) : Type 0 where
  state_name_unknown : UnmatchedState CalcError
  state_calc : CalcError → UnmatchedState CalcError
  not_enough_change : ℕ → UnmatchedState CalcError

-- The first owned element at the address, over all names, with its name.
unfoldable pub find_used :
    {Seal Value : Type 0}
    → CellAddr
    → List (ℕ × List (OwnedState Seal Value))
    → Option (ℕ × OwnedState Seal Value)
find_used addr [] = none
find_used addr ((state_name, map) ∷ states) = elim (find (λ owned. cell_eq owned.addr addr) map) [
  | some owned ↦ some (state_name, owned)
  | none ↦ find_used addr states
]

module _ {B : Bitcoin} {L : Ledger} (A : Api B L) (articles : L.Articles) where
  abbrev pub Checked {ℓ} : Type ℓ → Type ℓ
  Checked X = Result (UnmatchedState A.CalcError) X

  abbrev pub Calcs : Type 0
  Calcs = List (ℕ × A.Calc)

  -- The calculator under a name, or a new one.
  unfoldable pub entry : ℕ → Option A.Calc → Checked A.Calc
  entry state_name (some calc) = ok calc
  entry state_name none = elim (A.calculate articles state_name) [
    | none ↦ err state_name_unknown
    | some calc ↦ ok calc
  ]

  abbrev pub stepped : A.Calc × Result A.CalcError (Unit {0}) → Checked A.Calc
  stepped (calc, ok _) = ok calc
  stepped (calc, err e) = err (state_calc e)

  -- One round of either loop, where the method is `accumulate` or `lessen`.
  unfoldable pub calc_step :
      (A.Calc → L.Value → A.Calc × Result A.CalcError (Unit {0}))
      → ℕ
      → L.Value
      → Calcs
      → Checked Calcs
  unfolding entry
  calc_step method state_name value calcs =
      bind (entry state_name (lookup state_name calcs))
        λ calc. bind (stepped (method calc value)) λ calc'. ok (put state_name calc' calcs)

  -- The loop over the inputs; an input that is not found is a panic.
  unfoldable pub accumulate_inputs :
      {Seal : Type 0}
      → List (ℕ × List (OwnedState Seal L.Value))
      → List (UsedState B)
      → Calcs
      → Option (Checked Calcs)
  accumulate_inputs states [] calcs = some (ok calcs)
  accumulate_inputs states (inp ∷ using) calcs = find_used inp.addr states >>= λ found.
      elim (calc_step A.accumulate found.0 found.1.assignment.value calcs) [
        | err e ↦ some (err e)
        | ok calcs' ↦ accumulate_inputs states using calcs'
      ]

  unfoldable pub lessen_outputs :
      {T : Type 0} → List (NamedState (Assignment (EitherSeal T) L.Value)) → Calcs → Checked Calcs
  lessen_outputs [] calcs = ok calcs
  lessen_outputs (out ∷ owned) calcs =
      bind (calc_step A.lessen out.name out.state.value calcs) (lessen_outputs owned)

  abbrev pub no_change : ℕ → Result A.CalcError (List L.Value) → Checked (Unit {0})
  no_change state_name (err e) = err (state_calc e)
  no_change state_name (ok []) = ok tt
  no_change state_name (ok (value ∷ values)) = err (not_enough_change state_name)

  unfoldable pub check_diffs : Calcs → Checked (Unit {0})
  check_diffs [] = ok tt
  check_diffs ((state_name, calc) ∷ calcs) =
      bind (no_change state_name (A.diff calc)) λ _. check_diffs calcs

  unfoldable pub check_calcs :
      {Seal T : Type 0}
      → List (ℕ × List (OwnedState Seal L.Value))
      → OpRequest B L.Value L.Atom T
      → Option (Checked (Unit {0}))
  unfolding accumulate_inputs lessen_outputs check_diffs
  check_calcs states request = accumulate_inputs states request.using [] >>= λ res.
      some (bind res λ calcs. bind (lessen_outputs request.owned calcs) check_diffs)

module _ {S : RgbSeal} {P : Pile S} {L : Ledger} {W : Wire S} (Sp : Stockpile P L W) {B : Bitcoin}
    (A : Api B L) where
  unfoldable pub check_request :
      {T : Type 0}
      → Contracts Sp
      → OpRequest B L.Value L.Atom T
      → Option (Result (UnmatchedState A.CalcError) (Unit {0}) × Contracts Sp)
  check_request cs request = do
    state ← contract_state Sp cs request.contract_id
    articles ← contract_articles Sp state.1 request.contract_id
    res ← check_calcs A articles.0 state.0.owned request
    some (res, articles.1)
