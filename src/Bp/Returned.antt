-- ===== src/Bp/Returned.antt =====
-- When `RgbWallet::prefab` of src/popls/bp.rs returns without a panic and without an error of its own.
use rgb_std.Base.{
  ℕ, suc, ◌+◌, ◌%◌, ◌^◌, ◌<◌, ◌≤◌, ◌≡◌, refl, Option, some, List, [], ◌∷◌, ◌>>=◌, arith, length,
  put, set_put, Result, ok,
}
use rgb_std.Seals.{RgbSeal}
use rgb_std.Pile.{Pile}
use rgb_std.Ledger.{Ledger}
use rgb_std.Wire.{Wire}
use rgb_std.Stockpile.{Stockpile}
use rgb_std.Contract.State.{Assignment}
use rgb_std.Contract.Params.{EitherSeal, alt, token, NamedState}
use rgb_std.Contracts.{Contracts, contract_call}
use rgb_std.Bp.{Bitcoin, PrefabSeal, UsedState, OpRequest}
use rgb_std.Bp.Api.{Api, Confined}
use rgb_std.Bp.Check.{check_request}
use rgb_std.Bp.Wallet.{WalletProvider, RgbWallet}
use rgb_std.Bp.Prefab.{
  PrefabError, outpoints_of, Outputs, data_cell, seal_of, collect_outputs, called_prefab,
  request_engine, parts_of, call_outputs, prefab_checked, prefab,
}

-- A list of fewer than 2^16 entries fits, and one more entry where there are fewer than 2^16 - 1.
pub record ConfinedBounds (C : Confined) : Type 1 where
  pub try_from_fits : (A : Type 0) (l : List A) → length l < 2 ^ 16 → C.try_from l ≡ some l
  pub push_fits : (k : ℕ) (s : List ℕ) → length s + 1 < 2 ^ 16 → C.push k s ≡ some (set_put k s)
  pub insert_fits :
      (V : Type 0) (k : ℕ) (v : V) (m : List (ℕ × V))
      → length m + 1 < 2 ^ 16
      → C.insert k v m ≡ some (put k v m)

length-set_put : (k : ℕ) (s : List ℕ) → length (set_put k s) ≤ suc (length s)
unfolding set_put
length-set_put k [] = omega arith
length-set_put k (j ∷ s) = ground (arith, length-set_put k s)

length-put : {V : Type 0} (k : ℕ) (v : V) (m : List (ℕ × V)) → length (put k v m) ≤ suc (length m)
unfolding put
length-put k v [] = omega arith
length-put k v ((j, w) ∷ m) = ground (arith, length-put k v m)

pub length-outpoints_of :
    {B : Bitcoin} (using : List (UsedState B)) → length (outpoints_of using) ≤ length using
unfolding outpoints_of
length-outpoints_of [] = omega arith
length-outpoints_of (used ∷ using) =
    omega (arith, length-outpoints_of using, length-set_put used.outpoint (outpoints_of using))

module _ {B : Bitcoin} {S : RgbSeal} (N : WalletProvider B S) (C : Confined) (Value E F : Type 0)
    (bounds : ConfinedBounds C) where
  abbrev Collected : Option (Result (PrefabError E F) (Outputs S Value)) → Type 0
  Collected r = (outputs : Outputs S Value) × (r ≡ some (ok outputs))

  abbrev collected :
      N.Engine
      → ℕ
      → List (NamedState (Assignment (EitherSeal (PrefabSeal B)) Value))
      → List ℕ
      → List (ℕ × S.Definition)
      → Option (Result (PrefabError E F) (Outputs S Value))
  collected engine i owned defines seals = collect_outputs N C engine i owned defines seals

  -- One round, where all later ones collect.
  collected_cell :
      (engine : N.Engine) (i : ℕ) (cell : NamedState (Assignment (EitherSeal (PrefabSeal B)) Value))
      (owned : List (NamedState (Assignment (EitherSeal (PrefabSeal B)) Value))) (defines : List ℕ)
      (seals : List (ℕ × S.Definition)) (seal : EitherSeal (PrefabSeal B))
      → cell.state.seal ≡ seal
      → length defines + suc (length owned) < 2 ^ 16
      → length seals + suc (length owned) < 2 ^ 16
      → ((ds : List ℕ) (ss : List (ℕ × S.Definition))
          → length ds + length owned < 2 ^ 16
          → length ss + length owned < 2 ^ 16
          → Collected (collected engine (i + 1) owned ds ss))
      → Collected (collected engine i (cell ∷ owned) defines seals)
  unfolding collect_outputs
  collected_cell engine i cell owned defines seals (token auth) is d s next =
      let (outputs, e) = next defines seals (omega (arith, d)) (omega (arith, s)) in
      (record outputs { owned = data_cell auth cell ∷ outputs.owned }, rw (is, e) refl)
  collected_cell engine i cell owned defines seals (alt seal) is d s next =
      let definition = seal_of N C engine i seal in
      let ds = set_put seal.vout defines in
      let ss = put (i % 2 ^ 16) definition seals in
      let few = length-set_put seal.vout defines in
      let few' = length-put (i % 2 ^ 16) definition seals in
      let (outputs, e) = next ds ss (omega (arith, d, few)) (omega (arith, s, few')) in
      (
        record outputs { owned = data_cell (S.auth_token definition) cell ∷ outputs.owned },
        rw
            (
              is,
              bounds.push_fits seal.vout defines (omega (arith, d)),
              bounds.insert_fits S.Definition (i % 2 ^ 16) definition seals (omega (arith, s)),
              e,
            )
            refl,
      )

  collect_outputs-Collected :
      (engine : N.Engine) (i : ℕ)
      (owned : List (NamedState (Assignment (EitherSeal (PrefabSeal B)) Value))) (defines : List ℕ)
      (seals : List (ℕ × S.Definition))
      → length defines + length owned < 2 ^ 16
      → length seals + length owned < 2 ^ 16
      → Collected (collected engine i owned defines seals)
  collect_outputs-Collected engine i [] defines seals d s = unfold collect_outputs in (_, refl)
  collect_outputs-Collected engine i (cell ∷ owned) defines seals d s =
      collected_cell engine i cell owned defines seals cell.state.seal refl d s
        (λ ds ss d' s'. collect_outputs-Collected engine (i + 1) owned ds ss d' s')

module _ {S : RgbSeal} {P : Pile S} {L : Ledger} {W : Wire S} (Sp : Stockpile P L W) {B : Bitcoin}
    (A : Api B L) (N : WalletProvider B S) (C : Confined) (bounds : ConfinedBounds C) where
  -- On a request that the check accepts, with fewer than 2^16 inputs and fewer than 2^16 outputs,
  -- `prefab` does not panic and has no error of its own, where a collection takes one more entry as
  -- long as it has fewer than 2^16 - 1: it calls the contract with outputs that it has collected,
  -- and what it returns is the operation of the call, or the call's error.
  pub prefab_returns :
      (w : RgbWallet Sp N) (request : OpRequest B L.Value L.Atom (PrefabSeal B))
      (cs1 : Contracts Sp)
      → check_request Sp A w.contracts request ≡ some (ok tt, cs1)
      → length request.using < 2 ^ 16
      → length request.owned < 2 ^ 16
      → (outputs : Outputs S L.Value) × ((cs2 : Contracts Sp) (res : Result L.Error L.Operation)
          → contract_call Sp cs1 request.contract_id
              (A.call_params (parts_of Sp A N C request outputs))
              outputs.seals
            ≡ some (cs2, res)
          → prefab Sp A N C w request
            ≡ some (
              record w { contracts = cs2 },
              called_prefab Sp A N C (outpoints_of request.using) outputs.defines res,
            ))
  unfolding prefab prefab_checked call_outputs
  prefab_returns w request cs1 accepted few_inputs few_outputs =
      let engine = request_engine Sp A N C w request.contract_id in
      let (outputs, collected) =
        collect_outputs-Collected N C L.Value A.CalcError A.AcceptError bounds engine 0
          request.owned [] [] (omega (arith, few_outputs)) (omega (arith, few_outputs)) in
      let size = length-outpoints_of request.using in
      let fits =
        bounds.try_from_fits ℕ (outpoints_of request.using) (omega (arith, size, few_inputs)) in
      (
        outputs,
        λ cs2 res called. rw (accepted, ◌>>=◌, prefab_checked, fits, collected, called) refl,
      )
