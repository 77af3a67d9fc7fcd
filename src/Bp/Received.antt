-- ===== src/Bp/Received.antt =====
-- The tokens that `RgbWallet::auth_token` of src/popls/bp.rs gives out, and the seal resolver that
-- looks for them in consumed operations.
use rgb_std.Base.{
  ℕ, ◌≤◌, ◌^◌, ◌≡◌, sym, ap, ◌∙◌, true, Option, some, List, [], ◌∷◌, arith, length, lookup,
  contains,
}
use mathlib.Core.Path.{subst}
use rgb_std.Seals.{RgbSeal}
use rgb_std.Pile.{Pile}
use rgb_std.Ledger.{Ledger}
use rgb_std.Wire.{Wire}
use rgb_std.Stockpile.{Stockpile}
use rgb_std.Contract.Params.{nth}
use rgb_std.Contracts.Named.{Among}
use rgb_std.Bp.{Bitcoin}
use rgb_std.Bp.Api.{Api}
use rgb_std.Bp.Wallet.{
  WalletProvider, RgbWallet, nonce_or_next, noise_engine, auth_token_at, auth_token,
}
use rgb_std.Bp.Include.{seal_resolver}
use rgb_std.Bp.SealsFound.{seal_resolver_first}

-- A wallet resolves the token of a seal that it has registered.
pub record WalletLaws {B : Bitcoin} {S : RgbSeal} (N : WalletProvider B S) : Type 0 where
  pub resolve-register :
      (wallet : N.Wallet) (seal : S.Definition) (auths : List ℕ)
      → contains auths (S.auth_token seal) ≡ true
      → Among seal (N.resolve_seals (N.register_seal wallet seal) auths)

module _ {S : RgbSeal} {P : Pile S} {L : Ledger} {W : Wire S} (Sp : Stockpile P L W) {B : Bitcoin}
    (A : Api B L) (N : WalletProvider B S) where
  -- A token comes from a seal that the wallet has registered.
  abbrev IsRegistered : RgbWallet Sp N → ℕ → Type 0
  IsRegistered w' auth =
      (seal : S.Definition) × (wallet : N.Wallet) × (S.auth_token seal ≡ auth)
      × (w'.wallet ≡ N.register_seal wallet seal)

  auth_token_at-IsRegistered :
      (w w' : RgbWallet Sp N) (given : Option ℕ) (utxos : List ℕ) (auth : ℕ)
      → auth_token_at Sp N w given utxos ≡ (some auth, w')
      → IsRegistered w' auth
  unfolding auth_token_at
  auth_token_at-IsRegistered w w' given [] auth e = absurd (ground (arith, e))
  auth_token_at-IsRegistered w w' given (outpoint ∷ utxos) auth e =
      let (nonce', wallet) = nonce_or_next N w.wallet given in
      let seal = N.no_fallback outpoint (noise_engine N wallet) nonce' in
      (seal, wallet, ground (arith, e), ap (λ (r : Option ℕ × RgbWallet Sp N). r.1.wallet) (sym e))

  -- On a wallet that resolves what it has registered: after a token was given out, the resolver finds
  -- a seal with this token, under the number of an output that has the token, for each operation of at
  -- most 2^16 outputs that assigns to the token, where it does not panic.
  pub auth_token-seal_resolver :
      WalletLaws N
      → (w w' : RgbWallet Sp N) (given : Option ℕ) (auth : ℕ)
        (destructible_out : W.Operation → List ℕ) (op : W.Operation) (map : List (ℕ × S.Definition))
      → auth_token Sp N w given ≡ (some auth, w')
      → contains (destructible_out op) auth ≡ true
      → length (destructible_out op) ≤ 2 ^ 16
      → seal_resolver Sp A N destructible_out w'.wallet op ≡ some map
      → (j : ℕ) × (seal : S.Definition) × (lookup j map ≡ some seal)
        × (S.auth_token seal ≡ auth)
        × (nth j (destructible_out op) ≡ some auth)
  auth_token-seal_resolver laws w w' given auth destructible_out op map e assigned few resolved =
      let (seal, wallet, token, registered) =
        auth_token_at-IsRegistered w w' given (N.utxos w.wallet) auth (unfold auth_token in e) in
      let auths = destructible_out op in
      let known = laws.resolve-register wallet seal auths (ap (contains auths) token ∙ assigned) in
      let among = subst (λ v. Among seal (N.resolve_seals v auths)) (sym registered) known in
      let (at_output, found) =
        seal_resolver_first Sp A N destructible_out w'.wallet op map few resolved in
      let (j, other, entry, same) = found seal among in
      let is = same ∙ token in (j, other, entry, is, (at_output j other entry).0 ∙ ap some is)
