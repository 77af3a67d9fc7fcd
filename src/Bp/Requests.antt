-- ===== src/Bp/Requests.antt =====
-- How src/popls/bp.rs resolves the seals of operation requests into outputs of a transaction.
use rgb_std.Base.{
  ℕ, Bool, false, Option, none, some, List, [], ◌∷◌, if◌then◌else◌, ◌>>=◌, Result, ok, err,
}
use rgb_std.Base.Results.{◌>>=◌ as bind}
use rgb_std.Contract.State.{Assignment}
use rgb_std.Contract.Params.{EitherSeal, alt, token, NamedState}
use rgb_std.Bp.{
  Bitcoin, PrefabSeal, WoutAssignment, OpRequest, WitnessSeal, UnresolvedSeal, spk, change,
}

-- `Option::ok_or`.
abbrev pub ok_or : {E A : Type 0} → E → Option A → Result E A
ok_or e none = err e
ok_or e (some a) = ok a

module _ (B : Bitcoin) where
  abbrev pub Asked : Type 0
  Asked = EitherSeal (Option (WoutAssignment B))

  abbrev pub Cells : Type 0 → Type 0 → Type 0
  Cells T Value = List (NamedState (Assignment (EitherSeal T) Value))

  -- The `match` on the seal.
  unfoldable pub resolve_one :
      (ℕ → Option ℕ) → Option ℕ → Asked → Result UnresolvedSeal (EitherSeal (PrefabSeal B))
  resolve_one resolver change_vout (alt (some seal)) =
      let script = B.script_pubkey seal.wout in
      bind (ok_or (spk script) (resolver script))
        λ vout. ok (alt (record { vout = vout; noise = some (B.noise seal.wout) }))
  resolve_one resolver change_vout (alt none) =
      bind (ok_or change change_vout) λ vout. ok (alt (record { vout = vout; noise = none }))
  resolve_one resolver change_vout (token auth) = ok (token auth)

  -- The inner loop.
  unfoldable pub resolve_owned :
      {Value : Type 0}
      → (ℕ → Option ℕ)
      → Option ℕ
      → Cells (Option (WoutAssignment B)) Value
      → Result UnresolvedSeal (Cells (PrefabSeal B) Value)
  unfolding resolve_one
  resolve_owned resolver change_vout [] = ok []
  resolve_owned resolver change_vout (assignment ∷ owned) =
      bind (resolve_one resolver change_vout assignment.state.seal) λ seal.
        bind (resolve_owned resolver change_vout owned) λ rest. ok (
          record {
            name = assignment.name;
            state = record { seal = seal; value = assignment.state.value };
          }
          ∷ rest)

  -- The outer loop.
  unfoldable pub resolve_seals :
      {Value Atom : Type 0}
      → (ℕ → Option ℕ)
      → Option ℕ
      → List (OpRequest B Value Atom (Option (WoutAssignment B)))
      → Result UnresolvedSeal (List (OpRequest B Value Atom (PrefabSeal B)))
  unfolding resolve_owned
  resolve_seals resolver change_vout [] = ok []
  resolve_seals resolver change_vout (request ∷ requests) =
      bind (resolve_owned resolver change_vout request.owned) λ owned.
        bind (resolve_seals resolver change_vout requests) λ items. ok (
          record {
            contract_id = request.contract_id;
            method = request.method;
            reading = request.reading;
            using = request.using;
            global = request.global;
            owned = owned;
          }
          ∷ items)

  -- `OpRequest::resolve_seal`: the loop, with its early returns.
  abbrev pub seal_at : B.WitnessOut → ℕ → WitnessSeal B
  seal_at wout vout = record { primary = vout; noise = B.noise wout }

  abbrev pub asks_for : B.WitnessOut → Asked → Bool
  asks_for wout (alt (some assignment)) = B.wout_eq.beq assignment.wout wout
  asks_for wout (alt none) = false
  asks_for wout (token auth) = false

  abbrev pub script_of : Asked → Option ℕ
  script_of (alt (some assignment)) = some (B.script_pubkey assignment.wout)
  script_of (alt none) = none
  script_of (token auth) = none

  unfoldable pub resolve_seal_in :
      {Value : Type 0}
      → B.WitnessOut
      → (ℕ → Option ℕ)
      → Cells (Option (WoutAssignment B)) Value
      → Option (WitnessSeal B)
  resolve_seal_in wout resolver [] = none
  resolve_seal_in wout resolver (assignment ∷ owned) =
      if asks_for wout assignment.state.seal
      then (script_of assignment.state.seal >>= resolver >>= λ vout. some (seal_at wout vout))
      else resolve_seal_in wout resolver owned

  unfoldable pub resolve_seal :
      {Value Atom : Type 0}
      → OpRequest B Value Atom (Option (WoutAssignment B))
      → B.WitnessOut
      → (ℕ → Option ℕ)
      → Option (WitnessSeal B)
  unfolding resolve_seal_in
  resolve_seal request wout resolver = resolve_seal_in wout resolver request.owned
