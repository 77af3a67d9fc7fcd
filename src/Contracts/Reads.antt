-- ===== src/Contracts/Reads.antt =====
-- The calls of src/contracts.rs that read the state and the articles of a contract.
use mathlib.Core.Path.{subst}
use rgb_std.Base.{ℕ, ◌≡◌, refl, none, some, arith, inl, inr, Option-cases}
use rgb_std.Seals.{RgbSeal}
use rgb_std.Pile.{Pile}
use rgb_std.Ledger.{Ledger}
use rgb_std.Wire.{Wire}
use rgb_std.Contract.{Contract}
use rgb_std.Contract.State.{ContractState, state}
use rgb_std.Stockpile.{Stockpile}
use rgb_std.Contracts.{Contracts, contract_state, contract_articles}
use rgb_std.Contracts.View.{current, with_contract_lem}

module _ {S : RgbSeal} {P : Pile S} {L : Ledger} {W : Wire S} (Sp : Stockpile P L W) where
  -- What a call that reads leaves.
  abbrev pub SameView : Contracts Sp → Contracts Sp → Type 0
  SameView cs cs' =
      (cs'.persistence ≡ cs.persistence) × ((j : ℕ) → current Sp cs' j ≡ current Sp cs j)

  module _ (cs : Contracts Sp) (id : ℕ) (c : Contract P L) (here : current Sp cs id ≡ some c) where
    pub contract_state_lem :
        (st : ContractState S.Seal L.Value L.Atom)
        → state P L c ≡ some st
        → (cs' : Contracts Sp) × (contract_state Sp cs id ≡ some (st, cs')) × SameView cs cs'
    unfolding contract_state
    contract_state_lem st computed =
        let (cs', e, p, same) =
          (with_contract_lem Sp cs id (λ contract. state P L contract) none).0 c st here computed in
        (cs', e, (p, same))

    pub contract_articles_lem :
        (cs' : Contracts Sp) × (contract_articles Sp cs id ≡ some (L.articles c.ledger, cs'))
        × SameView cs cs'
    unfolding contract_articles
    contract_articles_lem =
        let (cs', e, p, same) =
          (with_contract_lem Sp cs id (λ contract. some (L.articles contract.ledger)) none).0 c
            (L.articles c.ledger) here refl in
        (cs', e, (p, same))

  contract_state_unknown :
      (cs : Contracts Sp) (id : ℕ) → current Sp cs id ≡ none → contract_state Sp cs id ≡ none
  unfolding contract_state
  contract_state_unknown cs id unknown =
      (with_contract_lem Sp cs id (λ contract. state P L contract) none).2 unknown

  contract_state_panics :
      (cs : Contracts Sp) (id : ℕ) (c : Contract P L)
      → current Sp cs id ≡ some c
      → state P L c ≡ none
      → contract_state Sp cs id ≡ none
  unfolding contract_state
  contract_state_panics cs id c here panics =
      (with_contract_lem Sp cs id (λ contract. state P L contract) none).1 c here panics

  pub contract_state-SameView :
      (cs cs' : Contracts Sp) (id : ℕ) (st : ContractState S.Seal L.Value L.Atom)
      → contract_state Sp cs id ≡ some (st, cs')
      → SameView cs cs'
  contract_state-SameView cs cs' id st e = elim (Option-cases (current Sp cs id)) [
    | inl unknown ↦
        let gone = contract_state_unknown cs id unknown in absurd (ground (arith, e, gone))
    | inr (c, here) ↦ elim (Option-cases (state P L c)) [
      | inl panics ↦
          let gone = contract_state_panics cs id c here panics in absurd (ground (arith, e, gone))
      | inr (st1, computed) ↦
          let (cs1, e1, same) = contract_state_lem cs id c here st1 computed in
          let eq : cs1 ≡ cs' = ground (arith, e, e1) in subst (SameView cs) eq same
    ]
  ]

  pub contract_articles-SameView :
      (cs cs' : Contracts Sp) (id : ℕ) (articles : L.Articles)
      → contract_articles Sp cs id ≡ some (articles, cs')
      → SameView cs cs'
  unfolding contract_articles
  contract_articles-SameView cs cs' id articles e = elim (Option-cases (current Sp cs id)) [
    | inl unknown ↦
        let gone =
          (with_contract_lem Sp cs id (λ contract. some (L.articles contract.ledger)) none).2
            unknown in
        absurd (ground (arith, e, gone))
    | inr (c, here) ↦
        let (cs1, e1, same) = contract_articles_lem cs id c here in
        let eq : cs1 ≡ cs' = ground (arith, e, e1) in subst (SameView cs) eq same
  ]
