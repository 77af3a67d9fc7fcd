-- ===== src/Bp/Fulfilled.antt =====
-- A request that `RgbWallet::fulfill` of src/popls/bp.rs makes passes `check_request`.
use rgb_std.Base.{
  ℕ, ◌≡◌, sym, ap, ap₂, ◌∙◌, Option, none, some, List, [], ◌∷◌, ◌++◌, arith, All, All-append,
  Result, ok, err,
}
use rgb_std.Base.Results.{>>=-eq-ok as bind-eq-ok}
use rgb_std.Seals.{CellAddr}
use rgb_std.Ledger.{Ledger}
use rgb_std.Contracts.Named.{Among}
use rgb_std.Contract.State.{OwnedState, state}
use rgb_std.Contract.Params.{EitherSeal}
use rgb_std.Bp.{Bitcoin, WoutAssignment, OpRequest}
use rgb_std.Bp.Requests.{ok_or}
use rgb_std.Bp.Api.{Api}
use rgb_std.Bp.Fulfill.{
  RgbInvoice, state_insufficient, Coinselect, Terms, other_uses, used_states, beneficiary, paid,
  changes, as_fulfill, pay, select,
}
use rgb_std.Bp.Runs.{
  values_of, uses_of, values_of-append, uses_of-append, run_all, run_all-append, run_all-cons,
  IsPicked, other_uses-IsPicked,
}

pub ok_or-ok : {E A : Type 0} (e : E) (o : Option A) (a : A) → ok_or e o ≡ ok a → o ≡ some a
ok_or-ok e none a h = absurd (cc)
ok_or-ok e (some b) a h = ground (arith, h)

module _ {B : Bitcoin} {L : Ledger} (A : Api B L) (articles : L.Articles) where
  -- A selection picks states of the list and accumulates them.
  pub record IsHonest (coinselect : Coinselect A) : Type 0 where
    pub picks :
        (value : L.Value) (calc calc' : A.Calc) (states : List (OwnedState ℕ L.Value))
        (selected : List (CellAddr × ℕ))
        → coinselect value calc states ≡ (some selected, calc')
        → IsPicked A articles states calc (selected, calc')

  -- A failed `accumulate` leaves the calculator, and assigning the difference leaves none.
  pub record IsRegular : Type 0 where
    pub clean :
        (before after : A.Calc) (value : L.Value) (e : A.CalcError)
        → A.accumulate before value ≡ (after, err e)
        → after ≡ before
    pub remainder :
        (calc : A.Calc) (values : List L.Value)
        → A.diff calc ≡ ok values
        → (last : A.Calc) × (run_all A articles A.lessen values calc ≡ ok last)
          × (A.diff last ≡ ok [])

  -- What a request that pays an invoice has.
  pub record Pays (invoice : RgbInvoice B L.Value) (giveaway : Option ℕ) (terms : Terms A)
      (state : List (OwnedState ℕ L.Value))
      (request : OpRequest B L.Value L.Atom (Option (WoutAssignment B))) : Type 0 where
    pub seal : EitherSeal (Option (WoutAssignment B))
    pub diff : List L.Value
    pub picked : List (OwnedState ℕ L.Value)
    pub mid : A.Calc
    pub last : A.Calc
    pub to : beneficiary A invoice.auth giveaway ≡ ok seal
    pub scope : request.contract_id ≡ invoice.scope
    pub method : request.method ≡ terms.method
    pub among : All (λ (o : OwnedState ℕ L.Value). Among o state) picked
    pub using : request.using ≡ used_states A (uses_of picked)
    pub owned :
        request.owned ≡ paid A terms.state_name seal terms.value ∷ changes A terms.state_name diff
    pub taken : run_all A articles A.accumulate (values_of picked) terms.calc ≡ ok mid
    pub given : run_all A articles A.lessen (terms.value ∷ diff) mid ≡ ok last
    pub settled : A.diff last ≡ ok []

  as_fulfill-ok : {X : Type 0} (r : Result A.CalcError X) (x : X) → as_fulfill A r ≡ ok x → r ≡ ok x
  as_fulfill-ok (ok y) x h = ground (arith, h)
  as_fulfill-ok (err e) x h = absurd (cc)

  IsPicked-both :
      (state : List (OwnedState ℕ L.Value)) (calc mid : A.Calc) (selected : List (CellAddr × ℕ))
      (res : List (CellAddr × ℕ) × A.Calc)
      → IsPicked A articles state calc (selected, mid)
      → IsPicked A articles state mid res
      → IsPicked A articles state calc (selected ++ res.0, res.1)
  IsPicked-both state calc mid selected res (p, among, uses, ran) (q, among', uses', ran') = (
    p ++ q,
    All-append (λ o. Among o state) p q among among',
    ap₂ ◌++◌ uses uses' ∙ sym (uses_of-append p q),
    rw (values_of-append p q) (
        run_all-append A articles A.accumulate (values_of p) (values_of q) calc mid res.1 ran ran'),
  )

  module _ (regular : IsRegular) where
    pay-Pays :
        (invoice : RgbInvoice B L.Value) (giveaway : Option ℕ) (terms : Terms A)
        (state : List (OwnedState ℕ L.Value)) (using : List (CellAddr × ℕ)) (calc : A.Calc)
        (request : OpRequest B L.Value L.Atom (Option (WoutAssignment B)))
        → IsPicked A articles state terms.calc (using, calc)
        → pay A invoice giveaway terms using calc ≡ ok request
        → Pays invoice giveaway terms state request
    unfolding pay
    pay-Pays invoice giveaway terms state using calc request (picked, among, uses, ran) e =
        let (seal, to, e1) = bind-eq-ok (beneficiary A invoice.auth giveaway) _ e in
        let after = (A.lessen calc terms.value).0 in
        let (u, e2, e3) = bind-eq-ok (as_fulfill A (A.lessen calc terms.value).1) _ e1 in
        let (diff, e4, e5) = bind-eq-ok (as_fulfill A (A.diff after)) _ e3 in
        let lessened : A.lessen calc terms.value ≡ (after, ok u) =
          ap (λ r. (after, r)) (as_fulfill-ok (A.lessen calc terms.value).1 u e2) in
        let (last, rest, settled) =
          regular.remainder after diff (as_fulfill-ok (A.diff after) diff e4) in
        let made : record {
          contract_id = invoice.scope;
          method = terms.method;
          reading = [];
          using = used_states A using;
          global = [];
          owned = paid A terms.state_name seal terms.value ∷ changes A terms.state_name diff;
        }
            ≡ request =
          ground (arith, e5) in
        record {
          seal = seal;
          diff = diff;
          picked = picked;
          mid = calc;
          last = last;
          to = to;
          scope =
              ap (λ (r : OpRequest B L.Value L.Atom (Option (WoutAssignment B))). r.contract_id)
                (sym made);
          method =
              ap (λ (r : OpRequest B L.Value L.Atom (Option (WoutAssignment B))). r.method)
                (sym made);
          among = among;
          using =
              ap (λ (r : OpRequest B L.Value L.Atom (Option (WoutAssignment B))). r.using)
                (sym made)
              ∙ ap (used_states A) uses;
          owned =
              ap (λ (r : OpRequest B L.Value L.Atom (Option (WoutAssignment B))). r.owned)
                (sym made);
          taken = ran;
          given = run_all-cons A articles A.lessen terms.value diff calc after last u lessened rest;
          settled = settled;
        }

    pub select-Pays :
        (coinselect : Coinselect A) (invoice : RgbInvoice B L.Value) (giveaway : Option ℕ)
        (terms : Terms A) (state : List (OwnedState ℕ L.Value))
        (request : OpRequest B L.Value L.Atom (Option (WoutAssignment B)))
        → IsHonest coinselect
        → select A coinselect invoice giveaway terms state ≡ ok request
        → Pays invoice giveaway terms state request
    unfolding select
    select-Pays coinselect invoice giveaway terms state request honest e =
        let chosen = coinselect terms.value terms.calc state in
        let (selected, e1, e2) = bind-eq-ok (ok_or state_insufficient chosen.0) _ e in
        let hit = ok_or-ok state_insufficient chosen.0 selected e1 in
        let first =
          honest.picks terms.value terms.calc chosen.1 state selected
            (ap (λ o. (o, chosen.1)) hit) in
        let others = other_uses A selected chosen.1 state in
        let second = other_uses-IsPicked A articles selected chosen.1 state regular.clean in
        pay-Pays invoice giveaway terms state (selected ++ others.0) others.1 request
          (IsPicked-both state terms.calc chosen.1 selected others first second) e2
