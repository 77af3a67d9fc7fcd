-- ===== src/Bp/Include.antt =====
-- `RgbWallet::include` and the seal resolver of `RgbWallet::consume` of src/popls/bp.rs.
use rgb_std.Base.{
  ℕ, suc, ◌%◌, ◌^◌, ◌≡◌, Bool, Option, none, some, List, [], ◌∷◌, ◌>>=◌, ◌==◌, if◌then◌else◌, put,
  Result, ok, err,
}
use rgb_std.Base.Results.{◌>>=◌ as bind}
use rgb_std.Seals.{RgbSeal}
use rgb_std.Pile.{Pile}
use rgb_std.Ledger.{Ledger}
use rgb_std.Wire.{Wire}
use rgb_std.Host.{Host}
use rgb_std.Stockpile.{Stockpile}
use rgb_std.Contracts as Contracts
use rgb_std.Consignment.{ConsignmentHeader}
use rgb_std.Contract.Reader.{OperationSeals}
use rgb_std.Contracts.Consume.{Error, consume as consume_contracts}
use rgb_std.Bp.{Bitcoin}
use rgb_std.Bp.Requests.{ok_or}
use rgb_std.Bp.Api.{Api}
use rgb_std.Bp.Wallet.{WalletProvider, RgbWallet}
use rgb_std.Bp.Prefab.{Prefab}

-- `Iterator::position` of a number.
unfoldable pub position : ℕ → List ℕ → Option ℕ
position a [] = none
position a (b ∷ l) = if b == a then some 0 else (position a l >>= λ pos. some (suc pos))

-- `Anchor` and the proofs of bp-core: `to_merkle_proof` at a protocol id, where `none` is
-- `LeafNotKnown`, and the anchor with the messages, the protocol id and the proofs.
pub record Anchors (S : RgbSeal) : Type 1 where
  pub MerkleBlock : Type 0
  pub MerkleProof : Type 0
  pub DbcProof : Type 0
  pub to_merkle_proof : MerkleBlock → ℕ → Option MerkleProof
  pub anchor : List (ℕ × ℕ) → ℕ → MerkleProof → DbcProof → S.Client

pub data IncludeError : Type 0 where
  missing_prevout : ℕ → IncludeError
  leaf_not_known : IncludeError

-- The loop over the closed outpoints: the message of the operation under the input of each.
unfoldable pub bundle_map : ℕ → List ℕ → List ℕ → List (ℕ × ℕ) → Result IncludeError (List (ℕ × ℕ))
unfolding position
bundle_map opid prevouts [] map = ok map
bundle_map opid prevouts (prevout ∷ closes) map =
    bind (ok_or (missing_prevout prevout) (position prevout prevouts))
      λ pos. bundle_map opid prevouts closes (put (pos % 2 ^ 32) opid map)

module _ {S : RgbSeal} {P : Pile S} {L : Ledger} {W : Wire S} (Sp : Stockpile P L W) {B : Bitcoin}
    (A : Api B L) (N : WalletProvider B S) where
  module _ (K : Anchors S) where
    unfoldable pub prefab_anchor :
        Prefab L → K.MerkleBlock → K.DbcProof → List ℕ → Result IncludeError S.Client
    unfolding bundle_map
    prefab_anchor prefab mpc dbc prevouts =
        let protocol_id = A.op_contract_id prefab.operation in
        bind (bundle_map (A.opid prefab.operation) prevouts prefab.closes []) λ map.
          bind (ok_or leaf_not_known (K.to_merkle_proof mpc protocol_id))
            λ mpc_proof. ok (K.anchor map protocol_id mpc_proof dbc)

    -- The loop over the prefabs; what was included before an error stays.
    unfoldable pub include :
        RgbWallet Sp N
        → List (Prefab L)
        → S.Published
        → K.MerkleBlock
        → K.DbcProof
        → List ℕ
        → Option (RgbWallet Sp N × Result IncludeError (Unit {0}))
    include w [] witness mpc dbc prevouts = some (w, ok tt)
    include w (prefab ∷ bundle) witness mpc dbc prevouts =
        elim (prefab_anchor prefab mpc dbc prevouts) [
          | err e ↦ some (w, err e)
          | ok anchor ↦
              Contracts.include Sp w.contracts (A.op_contract_id prefab.operation)
                (A.opid prefab.operation) witness anchor
              >>= λ res. include (record w { contracts = res.0 }) bundle witness mpc dbc prevouts
        ]

  -- The closure `seal_resolver`, on the tokens of the outputs and the seals that the wallet has for
  -- them: a map from numbers of outputs. `none` is the panic at an invalid wallet.
  unfoldable pub resolved :
      List ℕ → List S.Definition → List (ℕ × S.Definition) → Option (List (ℕ × S.Definition))
  unfolding position
  resolved auths [] map = some map
  resolved auths (seal ∷ seals) map = position (S.auth_token seal) auths >>= λ op_out.
      resolved auths seals (put (op_out % 2 ^ 16) seal map)

  unfoldable pub seal_resolver :
      (W.Operation → List ℕ) → N.Wallet → W.Operation → Option (List (ℕ × S.Definition))
  unfolding resolved
  seal_resolver destructible_out wallet op =
      resolved (destructible_out op) (N.resolve_seals wallet (destructible_out op)) []

  -- With a wallet that does not make the resolver panic.
  module _ (H : Host P L W)
      (decode_header : W.Stream → Result W.DecodeError (ConsignmentHeader W × W.Stream))
      (decode_operation : W.Stream → Result W.DecodeError (OperationSeals W × W.Stream))
      (destructible_out : W.Operation → List ℕ) where
    pub consume :
        (w : RgbWallet Sp N)
        → ((op : W.Operation)
            → (seals : List (ℕ × S.Definition)) × (seal_resolver destructible_out w.wallet op
                ≡ some seals))
        → Bool
        → W.Stream
        → H.Validator
        → Option (RgbWallet Sp N × Result (Error Sp H decode_header decode_operation) (Unit {0}))
    consume w valid allow_unknown stream sig_validator =
        consume_contracts Sp H decode_header decode_operation w.contracts allow_unknown stream
          (λ op. (valid op).0) sig_validator
        >>= λ res. some (record w { contracts = res.0 }, res.1)
