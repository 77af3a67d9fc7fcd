-- ===== src/Bp/Conserved.antt =====
-- `check_request` of src/popls/bp.rs on a contract: exactly the balanced requests pass, and they
-- conserve each state where its calculator adds up.
use rgb_std.Base.{ℕ, ◌≡◌, refl, sym, ap, ◌∙◌, some, List, ◌>>=◌, >>=-eq-some, arith, ok}
use rgb_std.Seals.{RgbSeal}
use rgb_std.Pile.{Pile}
use rgb_std.Ledger.{Ledger}
use rgb_std.Wire.{Wire}
use rgb_std.Stockpile.{Stockpile}
use rgb_std.Contract.{Contract}
use rgb_std.Contracts.{Contracts}
use rgb_std.Contracts.View.{current}
use rgb_std.Contracts.Reads.{SameView, contract_state_lem, contract_articles_lem}
use rgb_std.Contract.State.{ContractState, state}
use rgb_std.Bp.{Bitcoin, OpRequest}
use rgb_std.Bp.Api.{Api}
use rgb_std.Bp.Check.{check_calcs, check_request}
use rgb_std.Bp.Checked.{
  values_in, values_out, IsBalanced, check_calcs-IsBalanced, IsBalanced-check_calcs,
}

module _ {S : RgbSeal} {P : Pile S} {L : Ledger} {W : Wire S} (Sp : Stockpile P L W) {B : Bitcoin}
    (A : Api B L) where
  check_request-check_calcs :
      {T : Type 0} (cs : Contracts Sp) (request : OpRequest B L.Value L.Atom T) (c : Contract P L)
      (st : ContractState S.Seal L.Value L.Atom)
      → current Sp cs request.contract_id ≡ some c
      → state P L c ≡ some st
      → (cs' : Contracts Sp) × SameView Sp cs cs'
        × (check_request Sp A cs request
            ≡ (check_calcs A (L.articles c.ledger) st.owned request >>= λ res. some (res, cs')))
  unfolding check_request
  check_request-check_calcs cs request c st here computed =
      let (cs1, e1, same1) = contract_state_lem Sp cs request.contract_id c here st computed in
      let here1 = same1.1 request.contract_id ∙ here in
      let (cs2, e2, same2) = contract_articles_lem Sp cs1 request.contract_id c here1 in
      (cs2, (same2.0 ∙ same1.0, λ j. same2.1 j ∙ same1.1 j), rw (e1, ◌>>=◌, e2) refl)

  -- A request under a contract whose state is computed is accepted exactly if each of its inputs is
  -- in the state and, for every name, one calculator takes the values of the inputs with this name
  -- and then those of the outputs with it, without an error, and ends with no difference; the
  -- current contracts and the stockpile stay as they are.
  pub check_request-IsBalanced :
      {T : Type 0} (cs : Contracts Sp) (request : OpRequest B L.Value L.Atom T) (c : Contract P L)
      (st : ContractState S.Seal L.Value L.Atom)
      → current Sp cs request.contract_id ≡ some c
      → state P L c ≡ some st
      → ((cs' : Contracts Sp)
          → check_request Sp A cs request ≡ some (ok tt, cs')
          → SameView Sp cs cs'
            × ((l : List (ℕ × L.Value)) × (values_in st.owned request.using ≡ some l)
                × ((name : ℕ)
                    → IsBalanced A (L.articles c.ledger) name l (values_out request.owned))))
        × ((l : List (ℕ × L.Value))
            → values_in st.owned request.using ≡ some l
            → ((name : ℕ) → IsBalanced A (L.articles c.ledger) name l (values_out request.owned))
            → (cs' : Contracts Sp) × (check_request Sp A cs request ≡ some (ok tt, cs')))
  check_request-IsBalanced cs request c st here computed =
      let articles = L.articles c.ledger in
      let (cs1, same, e) = check_request-check_calcs cs request c st here computed in
      (
        λ cs' e'.
            let (res, e1, e2) =
              >>=-eq-some (check_calcs A articles st.owned request) _ (sym e ∙ e') in
            let accepted : check_calcs A articles st.owned request ≡ some (ok tt) =
              ground (arith, e1, e2) in
            let view : cs1 ≡ cs' = ground (arith, e2) in
            (
              mathlib.Core.Path.subst (SameView Sp cs) view same,
              check_calcs-IsBalanced A articles st.owned request accepted,
            ),
        λ l known h. (
          cs1,
          e
              ∙ ap (λ r. r >>= λ res. some (res, cs1))
                  (IsBalanced-check_calcs A articles st.owned request l known h),
        ),
      )
