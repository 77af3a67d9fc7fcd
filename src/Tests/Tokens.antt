-- ===== src/Tests/Tokens.antt =====
-- The theorem on tokens that a wallet gives out at a concrete input.
use rgb_std.Base.{
  ℕ, ◌≡◌, refl, sym, inl, inr, true, none, some, List, [], ◌∷◌, arith, ◌==◌, ==_iff, contains,
  lookup, put, Bool-cases,
}
use rgb_std.Contract.Params.{nth}
use rgb_std.Contracts.Named.{Among}
use rgb_std.Bp.Wallet.{RgbWallet, auth_token, noise_engine}
use rgb_std.Bp.Include.{seal_resolver}
use rgb_std.Bp.Received.{WalletLaws, auth_token-seal_resolver}
use rgb_std.Tests.Hosts.{stockpile}
use rgb_std.Tests.Wallets.{api, provider, kept, wallet}

Among-kept :
    (seal : ℕ) (wallet auths : List ℕ)
    → contains auths seal ≡ true
    → Among seal (kept (seal ∷ wallet) auths)
Among-kept seal wallet [] h = absurd (cc)
Among-kept seal wallet (auth ∷ auths) h = elim (Bool-cases (auth == seal)) [
  | inl same ↦
      let is : auth ≡ seal = (==_iff auth seal).0 same in
      let kept_first : contains (seal ∷ wallet) auth ≡ true = ground (arith, is) in
      rw kept_first (inl (sym is))
  | inr other ↦
      let later = Among-kept seal wallet auths (ground (arith, h, other)) in
      elim (Bool-cases (contains (seal ∷ wallet) auth)) [
        | inl hit ↦ rw hit (inr later)
        | inr miss ↦ rw miss later
      ]
]

provider_laws : WalletLaws provider
provider_laws = record { resolve-register = λ wallet seal auths h. Among-kept seal wallet auths h }

-- The token 9 is that of the output 8 with the nonce 1.
abbrev given_wallet : RgbWallet stockpile provider
given_wallet = record wallet { wallet = 9 ∷ 8 ∷ [] }

token_given : auth_token stockpile provider wallet none ≡ (some 9, given_wallet)
unfolding auth_token noise_engine
token_given = refl

abbrev assigned : ℕ → List ℕ
assigned op = 4 ∷ 9 ∷ []

nine_found : seal_resolver stockpile api provider assigned (9 ∷ 8 ∷ []) 1 ≡ some ((1, 9) ∷ [])
unfolding seal_resolver put
nine_found = refl

auth_token-seal_resolver_example :
    (j seal : ℕ) × (lookup j ((1, 9) ∷ []) ≡ some seal) × (seal ≡ 9) × (nth j (assigned 1) ≡ some 9)
auth_token-seal_resolver_example =
    auth_token-seal_resolver stockpile api provider provider_laws wallet given_wallet none 9
      assigned 1 ((1, 9) ∷ []) token_given refl (omega arith) nine_found
