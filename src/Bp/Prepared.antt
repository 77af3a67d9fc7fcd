-- ===== src/Bp/Prepared.antt =====
-- How the steps of a payment of src/popls/bp.rs fit together: the seals of a request are resolved by
-- `resolve_seals` before `prefab` checks it.
use rgb_std.Base.{ℕ, ◌≡◌, refl, sym, ap, ◌∙◌, Option, some, List, [], ◌∷◌, ◌>>=◌, arith, ok}
use rgb_std.Base.Results.{◌>>=◌ as bind, >>=-eq-ok as bind-eq-ok}
use rgb_std.Seals.{RgbSeal}
use rgb_std.Pile.{Pile}
use rgb_std.Ledger.{Ledger}
use rgb_std.Wire.{Wire}
use rgb_std.Stockpile.{Stockpile}
use rgb_std.Contract.State.{OwnedState}
use rgb_std.Contracts.{Contracts, contract_state, contract_articles}
use rgb_std.Bp.{Bitcoin, PrefabSeal, WoutAssignment, OpRequest}
use rgb_std.Bp.Api.{Api}
use rgb_std.Bp.Requests.{Cells, resolve_one, resolve_owned, resolve_seals}
use rgb_std.Bp.Check.{
  calc_step, accumulate_inputs, lessen_outputs, check_diffs, check_calcs, check_request,
}

module _ {B : Bitcoin} {L : Ledger} (A : Api B L) (articles : L.Articles) where
  lessen_outputs-resolve_owned :
      (resolver : ℕ → Option ℕ) (change : Option ℕ)
      (owned : Cells B (Option (WoutAssignment B)) L.Value)
      (owned' : Cells B (PrefabSeal B) L.Value)
      → resolve_owned B resolver change owned ≡ ok owned'
      → lessen_outputs A articles owned' ≡ lessen_outputs A articles owned
  unfolding resolve_owned lessen_outputs
  lessen_outputs-resolve_owned resolver change [] owned' e =
      let same : [] ≡ owned' = ground (arith, e) in ap (lessen_outputs A articles) (sym same)
  lessen_outputs-resolve_owned resolver change (out ∷ owned) owned' e =
      let (seal, _, e1) = bind-eq-ok (resolve_one B resolver change out.state.seal) _ e in
      let (rest, found, e2) = bind-eq-ok (resolve_owned B resolver change owned) _ e1 in
      let ih = lessen_outputs-resolve_owned resolver change owned rest found in
      let same : record { name = out.name; state = record { seal = seal; value = out.state.value } }
            ∷ rest
          ≡ owned' =
        ground (arith, e2) in
      ap (lessen_outputs A articles) (sym same)
      ∙ ap (λ next calcs. bind (calc_step A articles A.lessen out.name out.state.value calcs) next)
          ih

  check_calcs-owned :
      {T T' : Type 0} {Seal : Type 0} (states : List (ℕ × List (OwnedState Seal L.Value)))
      (r : OpRequest B L.Value L.Atom T) (request : OpRequest B L.Value L.Atom T')
      → r.using ≡ request.using
      → lessen_outputs A articles r.owned ≡ lessen_outputs A articles request.owned
      → check_calcs A articles states r ≡ check_calcs A articles states request
  unfolding check_calcs
  check_calcs-owned states r request using owned i =
      accumulate_inputs A articles states (using i) [] >>= λ res.
      some (bind res λ calcs. bind (owned i calcs) (check_diffs A articles))

module _ {S : RgbSeal} {P : Pile S} {L : Ledger} {W : Wire S} (Sp : Stockpile P L W) {B : Bitcoin}
    (A : Api B L) where
  -- A request whose seals are resolved becomes one request, and the check gives the same for it as for
  -- the one before, whether it accepts or not.
  pub resolve_seals-check_request :
      (resolver : ℕ → Option ℕ) (change : Option ℕ)
      (request : OpRequest B L.Value L.Atom (Option (WoutAssignment B)))
      (items : List (OpRequest B L.Value L.Atom (PrefabSeal B)))
      → resolve_seals B resolver change (request ∷ []) ≡ ok items
      → (r : OpRequest B L.Value L.Atom (PrefabSeal B)) × (items ≡ r ∷ [])
        × ((cs : Contracts Sp) → check_request Sp A cs r ≡ check_request Sp A cs request)
  unfolding resolve_seals check_request
  resolve_seals-check_request resolver change request items e =
      let (owned', e1, e2) = bind-eq-ok (resolve_owned B resolver change request.owned) _ e in
      let r : OpRequest B L.Value L.Atom (PrefabSeal B) = record {
        contract_id = request.contract_id;
        method = request.method;
        reading = request.reading;
        using = request.using;
        global = request.global;
        owned = owned';
      } in
      (
        r,
        ground (arith, e2),
        λ cs i. contract_state Sp cs request.contract_id >>= λ st.
            contract_articles Sp st.1 request.contract_id >>= λ articles.
            check_calcs-owned A articles.0 st.0.owned r request refl
              (lessen_outputs-resolve_owned A articles.0 resolver change request.owned owned' e1) i
            >>= λ res. some (res, articles.1),
      )
