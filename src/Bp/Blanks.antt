-- ===== src/Bp/Blanks.antt =====
-- The blank requests of `RgbWallet::bundle` of src/popls/bp.rs, round by round.
use mathlib.Core.Path.{subst}
use rgb_std.Base.{
  ℕ, ◌≡◌, refl, sym, ap, ◌∙◌, ◌⊎◌, inl, inr, true, false, Option, some, List, [], ◌∷◌, ◌>>=◌,
  >>=-eq-some, arith, Bool-cases, contains, Result, ok, err,
}
use rgb_std.Base.Results.{Result-cases}
use rgb_std.Seals.{RgbSeal}
use rgb_std.Pile.{Pile}
use rgb_std.Ledger.{Ledger}
use rgb_std.Wire.{Wire}
use rgb_std.Stockpile.{Stockpile}
use rgb_std.Contract.{Contract}
use rgb_std.Contracts.{Contracts, contract_state, contract_articles}
use rgb_std.Contracts.View.{current}
use rgb_std.Contracts.Named.{Among}
use rgb_std.Contracts.Reads.{
  contract_state_lem, contract_state-SameView, contract_articles-SameView,
}
use rgb_std.Contract.State.{OwnedState, ContractState, state}
use rgb_std.Bp.{Bitcoin, UsedState}
use rgb_std.Bp.Api.{Api, Confined}
use rgb_std.Bp.Wallet.{WalletProvider}
use rgb_std.Bp.Bundle.{BundleError, used_states, using_of, blank_request}
use rgb_std.Bp.Bundling.{Gathered, Request, Asked, blank_requests, ask_blank, push_blank}
use rgb_std.Bp.BlankUses.{use_of, used_states-Among, blank_request-fields}

List-cases : {A : Type 0} (l : List A) → (l ≡ []) ⊎ ((a : A) × (r : List A) × (l ≡ a ∷ r))
List-cases [] = inl refl
List-cases (a ∷ r) = inr (a, r, refl)

module _ {S : RgbSeal} {P : Pile S} {L : Ledger} {W : Wire S} (Sp : Stockpile P L W) {B : Bitcoin}
    (A : Api B L) (N : WalletProvider B S) (C : Confined) (blank_method : ℕ) (engine : N.Engine)
    (change : Option ℕ) (g : Gathered L) where
  abbrev asked_blanks : Contracts Sp → List ℕ → Asked Sp A N C
  asked_blanks cs ids = blank_requests Sp A N C blank_method engine change g cs ids

  abbrev prevs_of :
      ContractState S.Seal L.Value L.Atom → List (UsedState B × ℕ × OwnedState S.Seal L.Value)
  prevs_of st = used_states A N g.outpoints st.owned

  -- How a successful loop deals with the first contract: it has an operation, or no state on a spent
  -- output, or gets a request.
  data Round (cs : Contracts Sp) (id : ℕ) (ids : List ℕ) (cs' : Contracts Sp)
      (blanks : List (Request Sp A N C)) : Type 0 where
    has_operation :
        contains g.contracts id ≡ true
        → asked_blanks cs ids ≡ some (cs', ok blanks)
        → Round cs id ids cs' blanks
    no_state :
        (st : ContractState S.Seal L.Value L.Atom) (cs1 : Contracts Sp)
        → contract_state Sp cs id ≡ some (st, cs1)
        → prevs_of st ≡ []
        → asked_blanks cs1 ids ≡ some (cs', ok blanks)
        → Round cs id ids cs' blanks
    requested :
        (st : ContractState S.Seal L.Value L.Atom) (cs1 cs2 : Contracts Sp) (articles : L.Articles)
        (params : Request Sp A N C) (rest : List (Request Sp A N C))
        → contract_state Sp cs id ≡ some (st, cs1)
        → contract_articles Sp cs1 id ≡ some (articles, cs2)
        → blank_request A N blank_method engine change id articles (prevs_of st) ≡ ok params
        → asked_blanks cs2 ids ≡ some (cs', ok rest)
        → blanks ≡ params ∷ rest
        → Round cs id ids cs' blanks

  push_blank-ok :
      (go_on : Contracts Sp → Asked Sp A N C) (cs cs' : Contracts Sp)
      (r : Result (BundleError A.CalcError A.AcceptError) (Request Sp A N C))
      (blanks : List (Request Sp A N C))
      → push_blank Sp A N C blank_method engine change g go_on cs r ≡ some (cs', ok blanks)
      → (params : Request Sp A N C) × (rest : List (Request Sp A N C)) × (r ≡ ok params)
        × (go_on cs ≡ some (cs', ok rest))
        × (blanks ≡ params ∷ rest)
  unfolding push_blank
  push_blank-ok go_on cs cs' (err bad) blanks e = absurd (cc)
  push_blank-ok go_on cs cs' (ok params) blanks e =
      let ((cs1, res), e1, e2) = >>=-eq-some (go_on cs) _ e in
      elim (Result-cases res) [
        | inl (bad, e3) ↦ absurd (ground (arith, e2, e3))
        | inr (rest, e3) ↦ (params, rest, refl, ground (arith, e1, e2, e3), ground (arith, e2, e3))
      ]

  round :
      (cs : Contracts Sp) (id : ℕ) (ids : List ℕ) (cs' : Contracts Sp)
      (blanks : List (Request Sp A N C))
      → asked_blanks cs (id ∷ ids) ≡ some (cs', ok blanks)
      → Round cs id ids cs' blanks
  unfolding blank_requests ask_blank
  round cs id ids cs' blanks e = elim (Bool-cases (contains g.contracts id)) [
    | inl known ↦ has_operation known (ground (arith, e, known))
    | inr fresh ↦
        let go_on = λ (c : Contracts Sp). asked_blanks c ids in
        let asking = λ (state : ContractState S.Seal L.Value L.Atom × Contracts Sp).
          ask_blank Sp A N C blank_method engine change g go_on id (prevs_of state.0) state.1 in
        let e0 : (contract_state Sp cs id >>= asking) ≡ some (cs', ok blanks) =
          ground (arith, e, fresh) in
        let ((st, cs1), e1, e2) = >>=-eq-some (contract_state Sp cs id) asking e0 in
        elim (List-cases (prevs_of st)) [
          | inl nothing ↦ no_state st cs1 e1 nothing (ground (arith, e2, nothing))
          | inr (prev, prevs, used) ↦
              let e3 : ask_blank Sp A N C blank_method engine change g go_on id (prev ∷ prevs) cs1
                  ≡ some (cs', ok blanks) =
                rw used at e2 in
              let ((articles, cs2), e4, e5) = >>=-eq-some (contract_articles Sp cs1 id) _ e3 in
              let (params, rest, e6, e7, e8) = push_blank-ok go_on cs2 cs' _ blanks e5 in
              requested st cs1 cs2 articles params rest e1 e4 (rw used e6) e7 e8
        ]
  ]

  module _ (id : ℕ) (c : Contract P L) (st : ContractState S.Seal L.Value L.Atom) (name : ℕ)
      (map : List (OwnedState S.Seal L.Value)) (owned : OwnedState S.Seal L.Value)
      (fresh : contains g.contracts id ≡ false) (computed : state P L c ≡ some st)
      (in_state : Among (name, map) st.owned) (in_map : Among owned map)
      (spent : contains g.outpoints (N.primary owned.assignment.seal) ≡ true) where
    abbrev Uses : List (Request Sp A N C) → Type 0
    Uses blanks =
        (request : Request Sp A N C) × Among request blanks
        × (request.contract_id ≡ id)
        × Among (use_of A N owned) request.using

    used_here : Among (use_of A N owned) (using_of A N (prevs_of st))
    used_here = used_states-Among A N g.outpoints st.owned name map owned in_state in_map spent

    same_state :
        (cs cs1 : Contracts Sp) (st1 : ContractState S.Seal L.Value L.Atom)
        → current Sp cs id ≡ some c
        → contract_state Sp cs id ≡ some (st1, cs1)
        → st1 ≡ st
    same_state cs cs1 st1 here e =
        let (cs2, e2, _) = contract_state_lem Sp cs id c here st computed in ground (arith, e, e2)

    Round-Uses :
        (cs cs' : Contracts Sp) (ids : List ℕ) (blanks : List (Request Sp A N C))
        → current Sp cs id ≡ some c
        → Round cs id ids cs' blanks
        → Uses blanks
    Round-Uses cs cs' ids blanks here (has_operation known _) =
        absurd (ground (arith, known, fresh))
    Round-Uses cs cs' ids blanks here (no_state st1 cs1 e1 nothing _) =
        let same = same_state cs cs1 st1 here e1 in
        let none_used : prevs_of st ≡ [] = ap prevs_of (sym same) ∙ nothing in
        elim (subst (λ l. Among (use_of A N owned) (using_of A N l)) none_used used_here) [ ]
    Round-Uses cs cs' ids blanks here (requested st1 cs1 cs2 articles params rest e1 e2 e3 e4 e5) =
        let same = same_state cs cs1 st1 here e1 in
        let (its_id, its_using) =
          blank_request-fields A N blank_method engine change id articles (prevs_of st1) e3 in
        let using : params.using ≡ using_of A N (prevs_of st) =
          its_using ∙ ap (λ s. using_of A N (prevs_of s)) same in
        (
          params,
          subst (Among params) (sym e5) (inl refl),
          its_id,
          subst (Among (use_of A N owned)) (sym using) used_here,
        )

    -- A contract without an operation that has a state on a spent output gets a blank request that
    -- uses it.
    pub blank_requests-use_of :
        (cs cs' : Contracts Sp) (ids : List ℕ) (blanks : List (Request Sp A N C))
        → asked_blanks cs ids ≡ some (cs', ok blanks)
        → Among id ids
        → current Sp cs id ≡ some c
        → Uses blanks
    blank_requests-use_of cs cs' [] blanks e m here = elim m [ ]
    blank_requests-use_of cs cs' (j ∷ ids) blanks e m here = elim m [
      | inl same ↦
          let first =
            subst (λ i. Round cs i ids cs' blanks) (sym same) (round cs j ids cs' blanks e) in
          Round-Uses cs cs' ids blanks here first
      | inr later ↦ elim (round cs j ids cs' blanks e) [
        | has_operation _ rest ↦ blank_requests-use_of cs cs' ids blanks rest later here
        | no_state st1 cs1 e1 _ rest ↦
            let view = contract_state-SameView Sp cs cs1 j st1 e1 in
            blank_requests-use_of cs1 cs' ids blanks rest later (view.1 id ∙ here)
        | requested st1 cs1 cs2 articles params rest e1 e2 e3 e4 e5 ↦
            let view = contract_state-SameView Sp cs cs1 j st1 e1 in
            let view' = contract_articles-SameView Sp cs1 cs2 j articles e2 in
            let (request, among, its_id, uses) =
              blank_requests-use_of cs2 cs' ids rest e4 later (view'.1 id ∙ view.1 id ∙ here) in
            (request, subst (Among request) (sym e5) (inr among), its_id, uses)
      ]
    ]
