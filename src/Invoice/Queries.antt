-- ===== src/Invoice/Queries.antt =====
-- Beneficiaries and contract queries of invoice/src/lib.rs as texts.
use rgb_std.Base.{
  ℕ, zero, suc, ◌≡◌, refl, ◌∙◌, true, false, none, some, List, ◌∷◌, ◌++◌, length, inl, inr,
  Bool-cases, ok,
}
use rgb_std.Invoice.{
  Formats, RgbBeneficiary, to_token, to_wout, ContractQuery, beneficiary_from_str,
  beneficiary_display, query_from_str, query_display,
}
use rgb_std.Invoice.Text.{testnet, strip_prefix, trim_start_matches}
use rgb_std.Invoice.RoundTrip.{strip_prefix-append}

-- Each format reads back, no output reads as a token, and no consensus begins like a test network.
pub record FormatsLaws (F : Formats) : Type 0 where
  pub token : (auth : ℕ) → F.token_from_str (F.token_display auth) ≡ some auth
  pub wout : (wout : F.WitnessOut) → F.wout_from_str (F.wout_display wout) ≡ ok wout
  pub no_token : (wout : F.WitnessOut) → F.token_from_str (F.wout_display wout) ≡ none
  pub consensus :
      (consensus : F.Consensus)
      → F.consensus_from_str (F.consensus_display consensus) ≡ some consensus
  pub no_testnet :
      (consensus : F.Consensus) → strip_prefix testnet (F.consensus_display consensus) ≡ none

trim_none : (fuel : ℕ) (p s : List ℕ) → strip_prefix p s ≡ none → trim_start_matches fuel p s ≡ s
unfolding trim_start_matches
trim_none zero p s h = refl
trim_none (suc fuel) p s h = rw (h, trim_start_matches) refl

trim_some :
    (fuel : ℕ) (p s rest : List ℕ)
    → strip_prefix p s ≡ some rest
    → trim_start_matches (suc fuel) p s ≡ trim_start_matches fuel p rest
unfolding trim_start_matches
trim_some fuel p s rest h = rw (h, trim_start_matches) refl

module _ (F : Formats) (laws : FormatsLaws F) where
  -- A beneficiary is read back from its text.
  beneficiary_from_str-display :
      (b : RgbBeneficiary F.WitnessOut) → beneficiary_from_str F (beneficiary_display F b) ≡ ok b
  unfolding beneficiary_from_str beneficiary_display
  beneficiary_from_str-display (to_token auth) =
      rw (beneficiary_from_str, beneficiary_display, laws.token auth) refl
  beneficiary_from_str-display (to_wout wout) =
      rw (beneficiary_from_str, beneficiary_display, laws.no_token wout, laws.wout wout) refl

  display-testnet :
      (c : F.Consensus)
      → query_from_str F (testnet ++ F.consensus_display c)
        ≡ some (record { consensus = c; testnet = true })
  unfolding query_from_str
  display-testnet c =
      let text = F.consensus_display c in
      let fuel = length (b'e' ∷ b's' ∷ b't' ∷ b'n' ∷ b'e' ∷ b't' ∷ b'@' ∷ text) in
      let begins = strip_prefix-append testnet text in
      let trimmed : trim_start_matches (suc fuel) testnet (testnet ++ text) ≡ text =
        trim_some fuel testnet (testnet ++ text) text begins
        ∙ trim_none fuel testnet text (laws.no_testnet c) in
      rw (begins, trimmed, laws.consensus c) refl

  display-mainnet :
      (c : F.Consensus)
      → query_from_str F (F.consensus_display c) ≡ some (record { consensus = c; testnet = false })
  unfolding query_from_str
  display-mainnet c =
      let text = F.consensus_display c in
      let trimmed = trim_none (length text) testnet text (laws.no_testnet c) in
      rw (laws.no_testnet c, trimmed, laws.consensus c) refl

  -- A contract query is read back from its text.
  pub query_from_str-display :
      (query : ContractQuery F) → query_from_str F (query_display F query) ≡ some query
  unfolding query_display
  query_from_str-display query = elim (Bool-cases query.testnet) [
    | inl test ↦ rw test (display-testnet query.consensus)
    | inr main ↦ rw main (display-mainnet query.consensus)
  ]
