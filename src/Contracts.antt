-- ===== src/Contracts.antt =====
-- `Contracts` of src/contracts.rs: contracts and issuers that are cached in memory, over a stockpile.
-- The `RefCell`s of the caches are state that is passed on, also by the calls that only read. `none`
-- is a panic.
pub mod View
pub mod Synced
pub mod Consume
pub mod Issuers
pub mod Queries
pub mod Exports
pub mod Reads
pub mod Named
pub mod WitnessIds
use rgb_std.Base.{
  ℕ, ◌≡◌, Bool, true, false, not, ◌&&◌, Option, none, some, List, [], ◌∷◌, ◌++◌, map, ◌==◌,
  if◌then◌else◌, ◌>>=◌, lookup, insert, contains, is_some, Result, ok, err,
}
use rgb_std.Base.Results.{MultiError, in_a, in_b, in_c}
use rgb_std.Seals.{RgbSeal, Witness}
use rgb_std.Pile.{Pile}
use rgb_std.Ledger.{Ledger}
use rgb_std.Wire.{Wire}
use rgb_std.Errors.{
  IssuerError, ConsumeError, consensus_mismatch, testnet_mismatch, mainnet_mismatch,
}
use rgb_std.Contract.{Contract}
use rgb_std.Contract.State.{ContractState, state}
use rgb_std.Contract.Sync.{Changes}
use rgb_std.Contract.Sync as Sync
use rgb_std.Contract.Include as Include
use rgb_std.Contract.Call as Call
use rgb_std.Stockpile.{Stockpile}

-- `remove` of a keyed collection.
abbrev pub remove {ℓ} : {V : Type ℓ} → ℕ → List (ℕ × V) → List (ℕ × V)
remove k [] = []
remove k ((j, v) ∷ m) = if j == k then remove k m else (j, v) ∷ remove k m

module _ {S : RgbSeal} {P : Pile S} {L : Ledger} {W : Wire S} (Sp : Stockpile P L W) where
  pub record Contracts : Type 0 where
    pub issuers : List (ℕ × Sp.Issuer)
    pub contracts : List (ℕ × Contract P L)
    pub persistence : Sp.Store

  unfoldable pub load : Sp.Store → Contracts
  load persistence = record { issuers = []; contracts = []; persistence = persistence }

  -- With a contract that is read; `f` can panic.
  unfoldable pub with_contract {ℓ} :
      {R : Type ℓ} → Contracts → ℕ → (Contract P L → Option R) → Option R → Option (R × Contracts)
  with_contract cs id f or = elim (lookup id cs.contracts) [
    | some contract ↦ f contract >>= λ res. some (res, cs)
    | none ↦ elim (Sp.contract cs.persistence id) [
      | some contract ↦ f contract >>= λ res.
          some (res, record cs { contracts = insert id contract cs.contracts })
      | none ↦ or >>= λ res. some (res, cs)
    ]
  ]

  -- With a contract that `f` changes.
  unfoldable pub with_contract_mut {ℓ} :
      {R : Type ℓ}
      → Contracts
      → ℕ
      → (Contract P L → Option (Contract P L × R))
      → Option (Contracts × R)
  with_contract_mut cs id f = elim (lookup id cs.contracts) [
    | some contract ↦
        f contract >>= λ res. some (record cs { contracts = insert id res.0 cs.contracts }, res.1)
    | none ↦ elim (Sp.contract cs.persistence id) [
      | some contract ↦
          f contract >>= λ res. some (record cs { contracts = insert id res.0 cs.contracts }, res.1)
      | none ↦ none
    ]
  ]

  unfoldable pub codex_ids : Contracts → List ℕ
  codex_ids cs = Sp.codex_ids cs.persistence

  unfoldable issuers_count : Contracts → ℕ
  issuers_count cs = Sp.issuers_count cs.persistence

  unfoldable pub has_issuer : Contracts → ℕ → Bool
  has_issuer cs codex_id = Sp.has_issuer cs.persistence codex_id

  unfoldable pub issuer : Contracts → ℕ → Option Sp.Issuer × Contracts
  issuer cs codex_id = elim (lookup codex_id cs.issuers) [
    | some found ↦ (some found, cs)
    | none ↦ elim (Sp.issuer cs.persistence codex_id) [
      | none ↦ (none, cs)
      | some found ↦
          let issuers = insert codex_id found cs.issuers in
          (lookup codex_id issuers, record cs { issuers = issuers })
    ]
  ]

  unfoldable contracts_count : Contracts → ℕ
  contracts_count cs = Sp.contracts_count cs.persistence

  unfoldable pub has_contract : Contracts → ℕ → Bool
  has_contract cs contract_id = Sp.has_contract cs.persistence contract_id

  unfoldable pub contract_ids : Contracts → List ℕ
  contract_ids cs = Sp.contract_ids cs.persistence

  unfoldable pub contract_state :
      Contracts → ℕ → Option (ContractState S.Seal L.Value L.Atom × Contracts)
  contract_state cs contract_id = with_contract cs contract_id (λ contract. state P L contract) none

  unfoldable pub contract_articles : Contracts → ℕ → Option (L.Articles × Contracts)
  contract_articles cs contract_id =
      with_contract cs contract_id (λ contract. some (L.articles contract.ledger)) none

  abbrev pub imported_issuer :
      Contracts → ℕ → Sp.Store × Result Sp.Error Sp.Issuer → Contracts × Result Sp.Error ℕ
  imported_issuer cs codex_id (store, err e) = (record cs { persistence = store }, err e)
  imported_issuer cs codex_id (store, ok schema) =
      (record cs { persistence = store; issuers = insert codex_id schema cs.issuers }, ok codex_id)

  unfoldable pub import_issuer : Contracts → Sp.Issuer → Contracts × Result Sp.Error ℕ
  import_issuer cs issuer =
      imported_issuer cs (Sp.codex_id issuer) (Sp.import_issuer cs.persistence issuer)

  abbrev pub IssueMultiError : Type 0
  IssueMultiError = MultiError (IssuerError L) L.StockError Sp.PileError

  -- `bool` is compared as such.
  unfoldable pub check_layer1 : Contracts → ℕ → Bool → Result IssueMultiError (Unit {0})
  check_layer1 cs consensus testnet =
      if not (consensus == Sp.consensus cs.persistence)
      then err (in_a consensus_mismatch)
      else if Sync.same_bool testnet (Sp.is_testnet cs.persistence)
      then ok tt
      else err (if testnet then in_a testnet_mismatch else in_a mainnet_mismatch)

  abbrev pub issued :
      Contracts
      → Sp.Store × Result IssueMultiError (Contract P L)
      → Contracts × Result IssueMultiError ℕ
  issued cs (store, err e) = (record cs { persistence = store }, err e)
  issued cs (store, ok contract) = (
    record cs {
      persistence = store;
      contracts = insert contract.contract_id contract cs.contracts;
    },
    ok contract.contract_id,
  )

  unfoldable pub issue : Contracts → Sp.CreateParams → Option (Contracts × Result IssueMultiError ℕ)
  unfolding check_layer1
  issue cs params = elim (check_layer1 cs (Sp.params_consensus params) (Sp.params_testnet params)) [
    | err e ↦ some (cs, err e)
    | ok _ ↦ Sp.issue cs.persistence params >>= λ res. some (issued cs res)
  ]

  unfoldable pub contract_call :
      Contracts
      → ℕ
      → L.CallParams
      → List (ℕ × S.Definition)
      → Option (Contracts × Result L.Error L.Operation)
  contract_call cs contract_id params seals =
      with_contract_mut cs contract_id (λ contract. Call.call P L contract params seals)

  -- The loop of `sync`, which an error ends.
  unfoldable sync_ids :
      Contracts → Changes → List ℕ → Option (Contracts × Result L.Error (Unit {0}))
  sync_ids cs changed [] = some (cs, ok tt)
  sync_ids cs changed (contract_id ∷ contract_ids) =
      with_contract_mut cs contract_id (λ contract. Sync.sync P L contract changed) >>= λ res.
      elim res.1 [ err e ↦ some (res.0, err e) | ok _ ↦ sync_ids res.0 changed contract_ids ]

  unfoldable pub sync : Contracts → Changes → Option (Contracts × Result L.Error (Unit {0}))
  unfolding sync_ids
  sync cs changed = sync_ids cs changed (Sp.contract_ids cs.persistence)

  unfoldable pub include :
      Contracts → ℕ → ℕ → S.Published → S.Client → Option (Contracts × Unit {0})
  include cs contract_id opid pub_witness anchor = with_contract_mut cs contract_id λ contract.
      Include.include P contract opid anchor pub_witness >>= λ contract'. some (contract', tt)

  unfoldable pub purge : Contracts → ℕ → Contracts × Result Sp.Error (Unit {0})
  purge cs contract_id =
      let (store, res) = Sp.purge cs.persistence contract_id in
      (record cs { persistence = store; contracts = remove contract_id cs.contracts }, res)
