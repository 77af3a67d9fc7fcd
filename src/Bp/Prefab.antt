-- ===== src/Bp/Prefab.antt =====
-- `RgbWallet::prefab` of src/popls/bp.rs: an operation with the outpoints that it closes and the
-- outputs that it defines.
use rgb_std.Base.{
  ℕ, ◌+◌, ◌%◌, ◌^◌, Option, none, some, List, [], ◌∷◌, ◌>>=◌, Result, ok, err, set_put,
}
use rgb_std.Base.Results.{MultiError, in_a, in_b, in_c}
use rgb_std.Seals.{RgbSeal, CellAddr}
use rgb_std.Pile.{Pile}
use rgb_std.Ledger.{Ledger}
use rgb_std.Wire.{Wire}
use rgb_std.Stockpile.{Stockpile}
use rgb_std.Contracts.{contract_call}
use rgb_std.Contract.State.{Assignment}
use rgb_std.Contract.Params.{EitherSeal, alt, token, NamedState, DataCell}
use rgb_std.Bp.{Bitcoin, PrefabSeal, UsedState, OpRequest}
use rgb_std.Bp.Api.{Api, CallParts, Confined}
use rgb_std.Bp.Check.{UnmatchedState, check_request}
use rgb_std.Bp.Wallet.{WalletProvider, RgbWallet, noise_engine}

pub record Prefab (L : Ledger) : Type 0 where
  pub closes : List ℕ
  pub defines : List ℕ
  pub operation : L.Operation

pub data PrefabError (CalcError AcceptError : Type 0) : Type 0 where
  too_many_inputs : PrefabError CalcError AcceptError
  too_many_outputs : PrefabError CalcError AcceptError
  unmatched_state : UnmatchedState CalcError → PrefabError CalcError AcceptError
  accept : AcceptError → PrefabError CalcError AcceptError

-- The first half of `unzip`, into a `BTreeSet`, and the second.
unfoldable pub outpoints_of : {B : Bitcoin} → List (UsedState B) → List ℕ
outpoints_of [] = []
outpoints_of (used ∷ using) = set_put used.outpoint (outpoints_of using)

unfoldable pub inputs_of :
    {B : Bitcoin} → List (UsedState B) → List (CellAddr × Option B.Satisfaction)
inputs_of [] = []
inputs_of (used ∷ using) = (used.addr, used.satisfaction) ∷ inputs_of using

-- What the loop over the outputs collects.
pub record Outputs (S : RgbSeal) (Value : Type 0) : Type 0 where
  pub defines : List ℕ
  pub seals : List (ℕ × S.Definition)
  pub owned : List (NamedState (DataCell Value))

abbrev pub data_cell :
    {B : Bitcoin} {Value : Type 0}
    → ℕ
    → NamedState (Assignment (EitherSeal (PrefabSeal B)) Value)
    → NamedState (DataCell Value)
data_cell auth assignment = record {
  name = assignment.name;
  state = record { auth = auth; value = assignment.state.value; lock = none };
}

abbrev pub collect_cell :
    {E : Type 0} {S : RgbSeal} {Value : Type 0}
    → NamedState (DataCell Value)
    → Result E (Outputs S Value)
    → Result E (Outputs S Value)
collect_cell cell (err e) = err e
collect_cell cell (ok outputs) = ok (record outputs { owned = cell ∷ outputs.owned })

module _ {B : Bitcoin} {S : RgbSeal} (N : WalletProvider B S) (C : Confined) where
  -- The noise of a seal, or else one with the number of the output.
  unfoldable pub noise_or : N.Engine → ℕ → PrefabSeal B → Option B.Noise → B.Noise
  noise_or engine opout_no seal (some noise) = noise
  noise_or engine opout_no seal none = N.noise_with seal.vout engine opout_no

  abbrev pub seal_of : N.Engine → ℕ → PrefabSeal B → S.Definition
  seal_of engine opout_no seal =
      N.witness_seal
        (record { primary = seal.vout; noise = noise_or engine opout_no seal seal.noise })

  -- `none` is the panic of `expect`, where `seals` is full.
  unfoldable pub collect_outputs :
      {Value CalcError AcceptError : Type 0}
      → N.Engine
      → ℕ
      → List (NamedState (Assignment (EitherSeal (PrefabSeal B)) Value))
      → List ℕ
      → List (ℕ × S.Definition)
      → Option (Result (PrefabError CalcError AcceptError) (Outputs S Value))
  collect_outputs engine opout_no [] defines seals =
      some (ok (record { defines = defines; seals = seals; owned = [] }))
  collect_outputs engine opout_no (assignment ∷ owned) defines seals = elim assignment.state.seal [
    | token auth ↦ collect_outputs engine (opout_no + 1) owned defines seals >>= λ res.
        some (collect_cell (data_cell auth assignment) res)
    | alt seal ↦ elim (C.push seal.vout defines) [
      | none ↦ some (err too_many_outputs)
      | some defines' ↦
          let definition = seal_of engine opout_no seal in
          C.insert (opout_no % 2 ^ 16) definition seals >>= λ seals'.
          collect_outputs engine (opout_no + 1) owned defines' seals' >>= λ res.
          some (collect_cell (data_cell (S.auth_token definition) assignment) res)
    ]
  ]

-- `MultiError::from_other_a`.
abbrev pub from_other_a : {E F X C : Type 0} → (E → F) → MultiError E X C → MultiError F X C
from_other_a f (in_a e) = in_a (f e)
from_other_a f (in_b e) = in_b e
from_other_a f (in_c e) = in_c e

module _ {S : RgbSeal} {P : Pile S} {L : Ledger} {W : Wire S} (Sp : Stockpile P L W) {B : Bitcoin}
    (A : Api B L) (N : WalletProvider B S) (C : Confined) where
  abbrev pub PrefabFailure : Type 0
  PrefabFailure = MultiError (PrefabError A.CalcError A.AcceptError) L.StockError ⊥

  abbrev pub called_prefab :
      List ℕ → List ℕ → Result L.Error L.Operation → Result PrefabFailure (Prefab L)
  called_prefab closes defines (err e) = err (from_other_a accept (A.call_error e))
  called_prefab closes defines (ok operation) =
      ok (record { closes = closes; defines = defines; operation = operation })

  abbrev pub request_engine : RgbWallet Sp N → ℕ → N.Engine
  request_engine w contract_id = N.input_raw (noise_engine N w.wallet) contract_id

  abbrev pub parts_of :
      OpRequest B L.Value L.Atom (PrefabSeal B) → Outputs S L.Value → CallParts B L
  parts_of request outputs = record {
    method = request.method;
    global = request.global;
    owned = outputs.owned;
    using = inputs_of request.using;
    reading = request.reading;
  }

  -- After the loop.
  unfoldable pub call_outputs :
      RgbWallet Sp N
      → OpRequest B L.Value L.Atom (PrefabSeal B)
      → List ℕ
      → Result (PrefabError A.CalcError A.AcceptError) (Outputs S L.Value)
      → Option (RgbWallet Sp N × Result PrefabFailure (Prefab L))
  call_outputs w request closes (err e) = some (w, err (in_a e))
  call_outputs w request closes (ok outputs) =
      contract_call Sp w.contracts request.contract_id (A.call_params (parts_of request outputs))
        outputs.seals
      >>= λ res. some (record w { contracts = res.0 }, called_prefab closes outputs.defines res.1)

  -- After the check.
  unfoldable pub prefab_checked :
      RgbWallet Sp N
      → OpRequest B L.Value L.Atom (PrefabSeal B)
      → Result (UnmatchedState A.CalcError) (Unit {0})
      → Option (RgbWallet Sp N × Result PrefabFailure (Prefab L))
  unfolding call_outputs
  prefab_checked w request (err e) = some (w, err (in_a (unmatched_state e)))
  prefab_checked w request (ok _) = elim (C.try_from (outpoints_of request.using)) [
    | none ↦ some (w, err (in_a too_many_inputs))
    | some closes ↦
        collect_outputs N C (request_engine w request.contract_id) 0 request.owned [] []
        >>= call_outputs w request closes
  ]

  unfoldable pub prefab :
      RgbWallet Sp N
      → OpRequest B L.Value L.Atom (PrefabSeal B)
      → Option (RgbWallet Sp N × Result PrefabFailure (Prefab L))
  unfolding prefab_checked
  prefab w request = check_request Sp A w.contracts request >>= λ checked.
      prefab_checked (record w { contracts = checked.1 }) request checked.0
