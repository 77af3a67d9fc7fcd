-- ===== src/Bp/BlankUses.antt =====
-- What a blank request of `RgbWallet::bundle` of src/popls/bp.rs uses: each state on a spent output.
use mathlib.Core.Path.{subst}
use rgb_std.Base.{
  ℕ, ◌≡◌, refl, sym, ap, ◌∙◌, inl, inr, true, Option, none, List, [], ◌∷◌, ◌++◌, arith, Bool-cases,
  contains, ok,
}
use rgb_std.Base.Results.{>>=-eq-ok as bind-eq-ok}
use rgb_std.Seals.{RgbSeal}
use rgb_std.Ledger.{Ledger}
use rgb_std.Contracts.Named.{Among}
use rgb_std.Contract.State.{OwnedState}
use rgb_std.Bp.{Bitcoin, UsedState}
use rgb_std.Bp.Api.{Api}
use rgb_std.Bp.Wallet.{WalletProvider}
use rgb_std.Bp.Bundle.{accumulate_prev, blank_owned, used_in, used_states, using_of, blank_request}
use rgb_std.Bp.Prefabs.{Among-left, Among-right}

module _ {B : Bitcoin} {S : RgbSeal} {L : Ledger} (A : Api B L) (N : WalletProvider B S) where
  -- How a state is used in a blank request.
  abbrev pub use_of : OwnedState S.Seal L.Value → UsedState B
  use_of owned = record {
    addr = owned.addr;
    outpoint = N.primary owned.assignment.seal;
    satisfaction = none;
  }

  using_of-append :
      (xs ys : List (UsedState B × ℕ × OwnedState S.Seal L.Value))
      → using_of A N (xs ++ ys) ≡ using_of A N xs ++ using_of A N ys
  using_of-append [] ys = refl
  using_of-append ((used, _, _) ∷ xs) ys = ap (λ r. used ∷ r) (using_of-append xs ys)

  used_in-Among :
      (outpoints : List ℕ) (name : ℕ) (map : List (OwnedState S.Seal L.Value))
      (owned : OwnedState S.Seal L.Value)
      → Among owned map
      → contains outpoints (N.primary owned.assignment.seal) ≡ true
      → Among (use_of owned) (using_of A N (used_in A N outpoints name map))
  unfolding used_in
  used_in-Among outpoints name [] owned m h = elim m [ ]
  used_in-Among outpoints name (o ∷ map) owned m h =
      elim (Bool-cases (contains outpoints (N.primary o.assignment.seal))) [
        | inl hit ↦
            rw (hit, using_of, Among)
              (elim m [
                | inl here ↦ inl (ap use_of here)
                | inr later ↦ inr (used_in-Among outpoints name map owned later h)
              ])
        | inr miss ↦
            rw (miss, using_of, Among)
              (elim m [
                | inl here ↦
                    let same : contains outpoints (N.primary o.assignment.seal) ≡ true =
                      ap
                        (λ (s : OwnedState S.Seal L.Value).
                          contains outpoints (N.primary s.assignment.seal))
                        (sym here)
                      ∙ h in
                    absurd (ground (arith, same, miss))
                | inr later ↦ used_in-Among outpoints name map owned later h
              ])
      ]

  pub used_states-Among :
      (outpoints : List ℕ) (states : List (ℕ × List (OwnedState S.Seal L.Value))) (name : ℕ)
      (map : List (OwnedState S.Seal L.Value)) (owned : OwnedState S.Seal L.Value)
      → Among (name, map) states
      → Among owned map
      → contains outpoints (N.primary owned.assignment.seal) ≡ true
      → Among (use_of owned) (using_of A N (used_states A N outpoints states))
  unfolding used_states
  used_states-Among outpoints [] name map owned m k h = elim m [ ]
  used_states-Among outpoints ((n, mm) ∷ states) name map owned m k h =
      rw (using_of-append (used_in A N outpoints n mm) (used_states A N outpoints states)) (elim m [
        | inl here ↦
            let same : map ≡ mm = ap (λ (e : ℕ × List (OwnedState S.Seal L.Value)). e.1) here in
            let there : Among owned mm = subst (Among owned) same k in
            Among-left _ _ _ (used_in-Among outpoints n mm owned there h)
        | inr later ↦
            Among-right _ _ _ (used_states-Among outpoints states name map owned later k h)
      ])

  pub blank_request-fields :
      (blank_method : ℕ) (engine : N.Engine) (change : Option ℕ) (id : ℕ) (articles : L.Articles)
      (prev : List (UsedState B × ℕ × OwnedState S.Seal L.Value)) {params : _}
      → blank_request A N blank_method engine change id articles prev ≡ ok params
      → (params.contract_id ≡ id) × (params.using ≡ using_of A N prev)
  unfolding blank_request
  blank_request-fields blank_method engine change id articles prev e =
      let (calcs, _, e1) = bind-eq-ok (accumulate_prev A articles prev []) _ e in
      let (owned, _, e2) =
        bind-eq-ok (blank_owned A N (N.input_raw engine id) 0 change calcs) _ e1 in
      (ground (arith, e2), ground (arith, e2))
