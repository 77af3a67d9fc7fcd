-- ===== src/Bp/Wallet.antt =====
-- `RgbWallet` of src/popls/bp.rs: a wallet beside the contracts, and the calls that make its seals,
-- outputs and own state.
use rgb_std.Base.{ℕ, ◌+◌, Bool, Option, none, some, List, [], ◌∷◌, ◌>>=◌, if◌then◌else◌, Result}
use rgb_std.Base.Results.{MultiError}
use rgb_std.Seals.{RgbSeal}
use rgb_std.Pile.{Pile}
use rgb_std.Ledger.{Ledger}
use rgb_std.Wire.{Wire}
use rgb_std.Errors.{IssuerError}
use rgb_std.Stockpile.{Stockpile}
use rgb_std.Contracts.{Contracts, contract_state}
use rgb_std.Contracts as Contracts
use rgb_std.Contract.State.{Assignment, ContractState}
use rgb_std.Contract.State.Mapped.{filter_map_state}
use rgb_std.Contract.Params.{EitherSeal, map_seal, NamedState, CreateParams}
use rgb_std.Bp.{Bitcoin, WitnessSeal}

-- What is used of the bitcoin seals and of a wallet. Byte strings that are hashed are numbers.
pub record WalletProvider (B : Bitcoin) (S : RgbSeal) : Type 1 where
  -- `Sha256`, and `Noise::with` at the output of the transaction.
  pub Engine : Type 0
  pub new_engine : Engine
  pub input_raw : Engine → ℕ → Engine
  pub noise_with : ℕ → Engine → ℕ → B.Noise
  -- `WTxoSeal`, `WTxoSeal::no_fallback`, and `primary` of `TxoSeal`.
  pub witness_seal : WitnessSeal B → S.Definition
  pub no_fallback : ℕ → Engine → ℕ → S.Definition
  pub primary : S.Seal → ℕ
  -- `WitnessOut::new`, at the payload of an address.
  pub new_wout : ℕ → ℕ → B.WitnessOut
  -- The trait `WalletProvider`.
  pub Wallet : Type 0
  pub noise_seed : Wallet → ℕ
  pub has_utxo : Wallet → ℕ → Bool
  pub utxos : Wallet → List ℕ
  pub register_seal : Wallet → S.Definition → Wallet
  pub resolve_seals : Wallet → List ℕ → List S.Definition
  pub next_address : Wallet → ℕ × Wallet
  pub next_nonce : Wallet → ℕ × Wallet

module _ {B : Bitcoin} {S : RgbSeal} (N : WalletProvider B S) where
  -- `EitherSeal::transform`.
  transform_seal : N.Engine → ℕ → EitherSeal ℕ → EitherSeal S.Definition
  unfolding map_seal
  transform_seal noise_engine nonce seal = map_seal (λ o. N.no_fallback o noise_engine nonce) seal

  transform_owned :
      {Value : Type 0}
      → N.Engine
      → ℕ
      → List (NamedState (Assignment (EitherSeal ℕ) Value))
      → List (NamedState (Assignment (EitherSeal S.Definition) Value))
  unfolding transform_seal
  transform_owned noise_engine nonce [] = []
  transform_owned noise_engine nonce (assignment ∷ owned) =
      record {
        name = assignment.name;
        state = record {
          seal = transform_seal noise_engine nonce assignment.state.seal;
          value = assignment.state.value;
        };
      }
      ∷ transform_owned noise_engine (nonce + 1) owned

  or_zero : Option ℕ → ℕ
  or_zero none = 0
  or_zero (some timestamp) = timestamp

  -- `CreateParams::transform`; the codex id of the issuer is its number.
  unfoldable transform :
      {Value Atom : Type 0}
      → CreateParams ℕ Value Atom
      → N.Engine
      → CreateParams S.Definition Value Atom
  unfolding transform_owned or_zero
  transform params engine0 =
      let engine1 = N.input_raw engine0 params.issuer in
      let engine2 = N.input_raw engine1 params.consensus in
      let engine3 = N.input_raw engine2 params.method in
      let engine4 = N.input_raw engine3 params.name in
      let noise_engine = N.input_raw engine4 (or_zero params.timestamp) in
      record {
        issuer = params.issuer;
        consensus = params.consensus;
        testnet = params.testnet;
        method = params.method;
        name = params.name;
        timestamp = params.timestamp;
        global = params.global;
        owned = transform_owned noise_engine 0 params.owned;
      }

  unfoldable pub noise_engine : N.Wallet → N.Engine
  noise_engine wallet = N.input_raw N.new_engine (N.noise_seed wallet)

  -- The given nonce, or else the next one of the wallet.
  pub nonce_or_next : N.Wallet → Option ℕ → ℕ × N.Wallet
  nonce_or_next wallet (some nonce) = (nonce, wallet)
  nonce_or_next wallet none = N.next_nonce wallet

module _ {S : RgbSeal} {P : Pile S} {L : Ledger} {W : Wire S} (Sp : Stockpile P L W) {B : Bitcoin}
    (N : WalletProvider B S) where
  pub record RgbWallet : Type 0 where
    pub wallet : N.Wallet
    pub contracts : Contracts Sp

  unfoldable pub auth_token_at : RgbWallet → Option ℕ → List ℕ → Option ℕ × RgbWallet
  unfolding nonce_or_next
  auth_token_at w given [] = (none, w)
  auth_token_at w given (outpoint ∷ _) =
      let (nonce', wallet) = nonce_or_next N w.wallet given in
      let seal = N.no_fallback outpoint (noise_engine N wallet) nonce' in
      (some (S.auth_token seal), record w { wallet = N.register_seal wallet seal })

  unfoldable pub auth_token : RgbWallet → Option ℕ → Option ℕ × RgbWallet
  unfolding auth_token_at
  auth_token w given = auth_token_at w given (N.utxos w.wallet)

  unfoldable pub wout : RgbWallet → Option ℕ → B.WitnessOut × RgbWallet
  unfolding nonce_or_next
  wout w given =
      let (address, wallet) = N.next_address w.wallet in
      let (nonce', wallet') = nonce_or_next N wallet given in
      (N.new_wout address nonce', record w { wallet = wallet' })

  abbrev pub own_seal : N.Wallet → S.Seal → Option ℕ
  own_seal wallet seal = if N.has_utxo wallet (N.primary seal) then some (N.primary seal) else none

  unfoldable pub state_own : RgbWallet → ℕ → Option (ContractState ℕ L.Value L.Atom × RgbWallet)
  state_own w contract_id = do
    found ← contract_state Sp w.contracts contract_id
    some (filter_map_state (own_seal w.wallet) found.0, record w { contracts = found.1 })

  unfoldable state_all : RgbWallet → ℕ → Option (ContractState S.Seal L.Value L.Atom × RgbWallet)
  state_all w contract_id = do
    found ← contract_state Sp w.contracts contract_id
    some (found.0, record w { contracts = found.1 })

  -- The stockpile takes the parameters in a form of its own.
  pub issue :
      (CreateParams S.Definition L.Value L.Atom → Sp.CreateParams)
      → RgbWallet
      → CreateParams ℕ L.Value L.Atom
      → Option (RgbWallet × Result (MultiError (IssuerError L) L.StockError Sp.PileError) ℕ)
  issue params_of w params =
      Contracts.issue Sp w.contracts (params_of (transform N params (noise_engine N w.wallet)))
      >>= λ res. some (record w { contracts = res.0 }, res.1)
