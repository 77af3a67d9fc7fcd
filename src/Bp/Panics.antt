-- ===== src/Bp/Panics.antt =====
-- When `RgbWallet::prefab` of src/popls/bp.rs panics at the seal that does not fit in the map any
-- more.
use rgb_std.Base.{
  ℕ, suc, ◌+◌, ◌%◌, ◌^◌, ◌<◌, ◌≤◌, ◌≡◌, refl, ap, ◌∙◌, inl, inr, Option, none, some, List, [], ◌∷◌,
  ◌++◌, ◌>>=◌, arith, ltb, Bool-cases, length, length-append, lookup, All, All-imp, All-append, put,
  set_put, Result, ok,
}
use rgb_std.Seals.{RgbSeal}
use rgb_std.Pile.{Pile}
use rgb_std.Ledger.{Ledger}
use rgb_std.Wire.{Wire}
use rgb_std.Stockpile.{Stockpile}
use rgb_std.Contract.State.{Assignment}
use rgb_std.Contract.Params.{EitherSeal, alt, NamedState}
use rgb_std.Contracts.{Contracts}
use rgb_std.Bp.{Bitcoin, PrefabSeal, OpRequest}
use rgb_std.Bp.Api.{Api, Confined}
use rgb_std.Bp.Check.{check_request}
use rgb_std.Bp.Wallet.{WalletProvider, RgbWallet}
use rgb_std.Bp.Prefab.{
  PrefabError, outpoints_of, Outputs, seal_of, collect_outputs, request_engine, prefab_checked,
  prefab,
}
use rgb_std.Bp.Returned.{length-outpoints_of}

-- A collection takes another entry while it has fewer than its maximum, and a full map takes no new
-- key. The maximum of those of the code is 2^16 - 1.
pub record Capacity (C : Confined) (cap : ℕ) : Type 1 where
  pub try_from_fits : (A : Type 0) (l : List A) → length l ≤ cap → C.try_from l ≡ some l
  pub push_fits : (k : ℕ) (s : List ℕ) → length s < cap → C.push k s ≡ some (set_put k s)
  pub insert_fits :
      (V : Type 0) (k : ℕ) (v : V) (m : List (ℕ × V))
      → length m < cap
      → C.insert k v m ≡ some (put k v m)
  pub insert_full :
      (V : Type 0) (k : ℕ) (v : V) (m : List (ℕ × V))
      → length m ≡ cap
      → lookup k m ≡ none
      → C.insert k v m ≡ none

module _ {V : Type 0} where
  abbrev Below : ℕ → List (ℕ × V) → Type 0
  Below n m = All (λ (e : ℕ × V). e.0 < n) m

  -- A key above all others goes to the end.
  put_last : (k : ℕ) (v : V) (m : List (ℕ × V)) → Below k m → put k v m ≡ m ++ (k, v) ∷ []
  unfolding put
  put_last k v [] h = refl
  put_last k v ((j, w) ∷ m) (less, h) = ground (arith, less, put_last k v m h)

  lookup-Below : (k : ℕ) (m : List (ℕ × V)) → Below k m → lookup k m ≡ none
  lookup-Below k [] h = refl
  lookup-Below k ((j, w) ∷ m) (less, h) = ground (arith, less, lookup-Below k m h)

  length-put_last :
      (k : ℕ) (v : V) (m : List (ℕ × V)) → Below k m → length (put k v m) ≡ suc (length m)
  length-put_last k v m h =
      ap length (put_last k v m h) ∙ omega (arith, length-append m ((k, v) ∷ []))

  put_last-Below : (k : ℕ) (v : V) (m : List (ℕ × V)) → Below k m → Below (k + 1) (put k v m)
  put_last-Below k v m h = rw (put_last k v m h) (
      All-append (λ (e : ℕ × V). e.0 < k + 1) m ((k, v) ∷ [])
        (All-imp (λ (e : ℕ × V) less. omega (arith, less)) m h) (omega arith, tt))

-- A new seal at the output `vout`.
abbrev pub SealsOutput :
    {B : Bitcoin} {Value : Type 0}
    → ℕ
    → NamedState (Assignment (EitherSeal (PrefabSeal B)) Value)
    → Type 0
SealsOutput {B} vout cell =
    (seal : PrefabSeal B) × (cell.state.seal ≡ alt seal) × (seal.vout ≡ vout)

again : (vout : ℕ) → set_put vout (vout ∷ []) ≡ vout ∷ []
unfolding set_put
again vout = ground arith

module _ {B : Bitcoin} {S : RgbSeal} (N : WalletProvider B S) (C : Confined) (Value E F : Type 0)
    (cap : ℕ) (capacity : Capacity C cap) (few : cap < 2 ^ 16) (two_fit : 2 ≤ cap) where
  abbrev Cell : Type 0
  Cell = NamedState (Assignment (EitherSeal (PrefabSeal B)) Value)

  collect_outputs_full :
      (engine : N.Engine) (vout i : ℕ) (owned : List Cell) (defines : List ℕ)
      (seals : List (ℕ × S.Definition))
      → All (SealsOutput vout) owned
      → set_put vout defines ≡ vout ∷ []
      → length defines ≤ 1
      → Below i seals
      → length seals ≡ i
      → i ≤ cap
      → cap < i + length owned
      → ◌≡◌ {A = Option (Result (PrefabError E F) (Outputs S Value))}
          (collect_outputs N C engine i owned defines seals)
          none
  unfolding collect_outputs
  collect_outputs_full engine vout i [] defines seals all one small below size at_most more =
      absurd (omega (arith, at_most, more))
  collect_outputs_full engine vout i (cell ∷ owned) defines seals ((seal, is, same), all) one small
        below size at_most more =
      let definition = seal_of N C engine i seal in
      let fits : length defines < cap = omega (arith, small, two_fit) in
      let pushed : C.push seal.vout defines ≡ some (vout ∷ []) =
        ap (λ v. C.push v defines) same ∙ capacity.push_fits vout defines fits ∙ ap some one in
      let key : i % 2 ^ 16 ≡ i = omega (arith, few, at_most) in
      let longer = length-put_last i definition seals below in
      elim (Bool-cases (ltb i cap)) [
        | inl room ↦
            let inserted : C.insert (i % 2 ^ 16) definition seals ≡ some (put i definition seals) =
              rw key (
                capacity.insert_fits S.Definition i definition seals
                  (ground (arith, size, room))) in
            let rest =
              collect_outputs_full engine vout (i + 1) owned (vout ∷ []) (put i definition seals)
                all (again vout) (omega arith) (put_last-Below i definition seals below)
                (omega (arith, longer, size)) (ground (arith, room)) (omega (arith, more)) in
            rw (is, pushed, inserted, rest) refl
        | inr full ↦
            let refused : C.insert (i % 2 ^ 16) definition seals ≡ none = rw key (
              capacity.insert_full S.Definition i definition seals
                (ground (arith, size, full, at_most)) (lookup-Below i seals below)) in
            rw (is, pushed, refused) refl
      ]

module _ {S : RgbSeal} {P : Pile S} {L : Ledger} {W : Wire S} (Sp : Stockpile P L W) {B : Bitcoin}
    (A : Api B L) (N : WalletProvider B S) (C : Confined) (cap : ℕ) (capacity : Capacity C cap)
    (few : cap < 2 ^ 16) (two_fit : 2 ≤ cap) where
  -- On a request that the check accepts, with at most as many inputs as a collection holds but with
  -- more outputs than that, all new seals at the same output of the transaction, `prefab` panics,
  -- where the maximum of the collections is at least two and below 2^16: no error of its own tells
  -- that there are too many outputs.
  pub prefab_panics :
      (w : RgbWallet Sp N) (request : OpRequest B L.Value L.Atom (PrefabSeal B))
      (cs1 : Contracts Sp) (vout : ℕ)
      → check_request Sp A w.contracts request ≡ some (ok tt, cs1)
      → length request.using ≤ cap
      → All (SealsOutput vout) request.owned
      → cap < length request.owned
      → prefab Sp A N C w request ≡ none
  unfolding prefab prefab_checked
  prefab_panics w request cs1 vout accepted inputs same_output many =
      let size = length-outpoints_of request.using in
      let fits =
        capacity.try_from_fits ℕ (outpoints_of request.using) (omega (arith, size, inputs)) in
      let engine = request_engine Sp A N C w request.contract_id in
      let panics =
        collect_outputs_full N C L.Value A.CalcError A.AcceptError cap capacity few two_fit engine
          vout 0 request.owned [] [] same_output (unfold set_put in refl) (omega arith) tt refl
          (omega arith) (omega (arith, many)) in
      rw (accepted, ◌>>=◌, prefab_checked, fits, panics) refl
