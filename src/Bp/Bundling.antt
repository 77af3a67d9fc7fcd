-- ===== src/Bp/Bundling.antt =====
-- The loops of `RgbWallet::bundle` of src/popls/bp.rs, and what a bundle closes and defines.
use rgb_std.Base.{
  ℕ, true, false, Option, none, some, List, [], ◌∷◌, ◌++◌, ◌>>=◌, contains, set_put, Result, ok,
  err,
}
use rgb_std.Base.Results.{in_a, in_b, in_c}
use rgb_std.Seals.{RgbSeal}
use rgb_std.Pile.{Pile}
use rgb_std.Ledger.{Ledger}
use rgb_std.Wire.{Wire}
use rgb_std.Stockpile.{Stockpile}
use rgb_std.Contracts.{Contracts, contract_ids, contract_state, contract_articles}
use rgb_std.Contract.State.{OwnedState}
use rgb_std.Bp.{Bitcoin, PrefabSeal, UsedState, OpRequest}
use rgb_std.Bp.Api.{Api, Confined}
use rgb_std.Bp.Wallet.{WalletProvider, RgbWallet, noise_engine}
use rgb_std.Bp.Prefab.{Prefab, PrefabFailure, prefab, from_other_a}
use rgb_std.Bp.Bundle.{
  BundleError, prefab_error, blank, too_many_blanks, BundleFailure, add_prefab, used_states,
  blank_request,
}

-- `PrefabBundle` is its list of prefabs.
unfoldable pub closes : {L : Ledger} → List (Prefab L) → List ℕ
closes [] = []
closes (item ∷ bundle) = item.closes ++ closes bundle

unfoldable defines : {L : Ledger} → List (Prefab L) → List ℕ
defines [] = []
defines (item ∷ bundle) = item.defines ++ defines bundle

unfoldable pub new_bundle : {L : Ledger} → Confined → List (Prefab L) → Option (List (Prefab L))
new_bundle C items = C.try_from items

-- `contracts`, `outpoints` and `prefabs`.
pub record Gathered (L : Ledger) : Type 0 where
  pub contracts : List ℕ
  pub outpoints : List ℕ
  pub prefabs : List (Prefab L)

-- `extend` of a set.
unfoldable pub extend : List ℕ → List ℕ → List ℕ
extend s [] = s
extend s (k ∷ ks) = extend (set_put k s) ks

module _ {S : RgbSeal} {P : Pile S} {L : Ledger} {W : Wire S} (Sp : Stockpile P L W) {B : Bitcoin}
    (A : Api B L) (N : WalletProvider B S) (C : Confined) where
  abbrev pub Request : Type 0
  Request = OpRequest B L.Value L.Atom (PrefabSeal B)

  abbrev pub gather : Gathered L → Prefab L → Gathered L
  gather g p = record {
    contracts = set_put (A.op_contract_id p.operation) g.contracts;
    outpoints = extend g.outpoints p.closes;
    prefabs = add_prefab A p g.prefabs;
  }

  -- The loop over the requests.
  unfoldable pub bundle_requests :
      RgbWallet Sp N
      → List Request
      → Gathered L
      → Option (RgbWallet Sp N × Result (BundleFailure A) (Gathered L))
  bundle_requests w [] g = some (w, ok g)
  bundle_requests w (request ∷ requests) g = prefab Sp A N C w request >>= λ res. elim res.1 [
    | err e ↦ some (res.0, err (from_other_a prefab_error e))
    | ok p ↦ bundle_requests res.0 requests (gather g p)
  ]

  abbrev pub Asked : Type 0
  Asked = Option (Contracts Sp × Result (BundleFailure A) (List Request))

  module _ (blank_method : ℕ) (root_engine : N.Engine) (change : Option ℕ) (g : Gathered L) where
    -- The rest of a round, where `go_on` is the rounds after it.
    unfoldable pub push_blank :
        (Contracts Sp → Asked)
        → Contracts Sp
        → Result (BundleError A.CalcError A.AcceptError) Request
        → Asked
    push_blank go_on cs (err e) = some (cs, err (in_a e))
    push_blank go_on cs (ok params) = go_on cs >>= λ res.
        some (res.0, elim res.1 [ err e ↦ err e | ok rest ↦ ok (params ∷ rest) ])

    unfoldable pub ask_blank :
        (Contracts Sp → Asked)
        → ℕ
        → List (UsedState B × ℕ × OwnedState S.Seal L.Value)
        → Contracts Sp
        → Asked
    unfolding push_blank
    ask_blank go_on contract_id [] cs = go_on cs
    ask_blank go_on contract_id (prev ∷ prevs) cs =
        contract_articles Sp cs contract_id >>= λ articles.
        push_blank go_on articles.1
          (blank_request A N blank_method root_engine change contract_id articles.0 (prev ∷ prevs))

    -- The loop over the contracts, which asks for blank operations.
    unfoldable pub blank_requests : Contracts Sp → List ℕ → Asked
    unfolding ask_blank
    blank_requests cs [] = some (cs, ok [])
    blank_requests cs (contract_id ∷ ids) = elim (contains g.contracts contract_id) [
      | true ↦ blank_requests cs ids
      | false ↦ contract_state Sp cs contract_id >>= λ state.
          ask_blank (λ cs'. blank_requests cs' ids) contract_id
            (used_states A N g.outpoints state.0.owned) state.1
    ]

  abbrev blank_failure : PrefabFailure Sp A N C → BundleFailure A
  blank_failure (in_a e) = in_a (blank e)
  blank_failure (in_b e) = in_b e
  blank_failure (in_c e) = absurd e

  -- The loop over the blank requests.
  unfoldable pub prefab_blanks :
      RgbWallet Sp N
      → List Request
      → List (Prefab L)
      → Option (RgbWallet Sp N × Result (BundleFailure A) (List (Prefab L)))
  prefab_blanks w [] prefabs = some (w, ok prefabs)
  prefab_blanks w (request ∷ requests) prefabs = prefab Sp A N C w request >>= λ res. elim res.1 [
    | err e ↦ some (res.0, err (blank_failure e))
    | ok p ↦ prefab_blanks res.0 requests (add_prefab A p prefabs)
  ]

  abbrev pub bundled :
      Result (BundleFailure A) (List (Prefab L)) → Result (BundleFailure A) (List (Prefab L))
  bundled (err e) = err e
  bundled (ok prefabs) = elim (new_bundle C prefabs) [
    | none ↦ err (in_a too_many_blanks)
    | some bundle ↦ ok bundle
  ]

  unfoldable pub bundle_blanks :
      RgbWallet Sp N
      → Gathered L
      → Result (BundleFailure A) (List Request)
      → Option (RgbWallet Sp N × Result (BundleFailure A) (List (Prefab L)))
  unfolding prefab_blanks new_bundle
  bundle_blanks w g (err e) = some (w, err e)
  bundle_blanks w g (ok blanks) =
      prefab_blanks w blanks g.prefabs >>= λ res. some (res.0, bundled res.1)

  unfoldable pub bundle_gathered :
      ℕ
      → Option ℕ
      → RgbWallet Sp N
      → Result (BundleFailure A) (Gathered L)
      → Option (RgbWallet Sp N × Result (BundleFailure A) (List (Prefab L)))
  unfolding blank_requests bundle_blanks
  bundle_gathered blank_method change w (err e) = some (w, err e)
  bundle_gathered blank_method change w (ok g) =
      blank_requests blank_method (noise_engine N w.wallet) change g w.contracts
        (contract_ids Sp w.contracts)
      >>= λ blanks. bundle_blanks (record w { contracts = blanks.0 }) g blanks.1

  unfoldable pub bundle :
      ℕ
      → RgbWallet Sp N
      → List Request
      → Option ℕ
      → Option (RgbWallet Sp N × Result (BundleFailure A) (List (Prefab L)))
  unfolding bundle_requests bundle_gathered
  bundle blank_method w requests change =
      bundle_requests w requests (record { contracts = []; outpoints = []; prefabs = [] })
      >>= λ res. bundle_gathered blank_method change res.0 res.1
