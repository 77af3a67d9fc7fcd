-- ===== src/Bp/Checked.antt =====
-- Which requests `check_request` of src/popls/bp.rs accepts, and what they conserve.
use rgb_std.Base.{
  ℕ, ◌≡◌, refl, sym, ap, ◌∙◌, Option, none, some, List, [], ◌∷◌, ◌>>=◌, >>=-eq-some, arith, inl,
  inr, lookup, ok,
}
use rgb_std.Base.Results.{◌>>=◌ as bind, >>=-eq-ok as bind-eq-ok, Result-cases}
use rgb_std.Ledger.{Ledger}
use rgb_std.Contract.State.{Assignment, OwnedState}
use rgb_std.Contract.Params.{EitherSeal, NamedState}
use rgb_std.Bp.{Bitcoin, UsedState, OpRequest}
use rgb_std.Bp.Api.{Api}
use rgb_std.Bp.Check.{
  find_used, Calcs, calc_step, accumulate_inputs, lessen_outputs, check_diffs, check_calcs,
}
use rgb_std.Bp.Balance.{
  moves, own, moves-own, own-moves, moves-Ascends, Settled, check_diffs-Settled,
  Settled-check_diffs,
}

module _ {B : Bitcoin} {Seal Value : Type 0} where
  -- The values that the inputs stand for, with the names of their states, if all are found.
  abbrev pub values_in :
      List (ℕ × List (OwnedState Seal Value)) → List (UsedState B) → Option (List (ℕ × Value))
  values_in states [] = some []
  values_in states (inp ∷ using) = find_used inp.addr states >>= λ found.
      values_in states using >>= λ rest. some ((found.0, found.1.assignment.value) ∷ rest)

abbrev pub values_out :
    {T Value : Type 0} → List (NamedState (Assignment (EitherSeal T) Value)) → List (ℕ × Value)
values_out [] = []
values_out (out ∷ owned) = (out.name, out.state.value) ∷ values_out owned

module _ {B : Bitcoin} {L : Ledger} (A : Api B L) (articles : L.Articles) where
  -- One calculator takes the inputs of a state and then its outputs, without an error, and nothing is
  -- left for the change.
  abbrev pub IsBalanced : ℕ → List (ℕ × L.Value) → List (ℕ × L.Value) → Type 0
  IsBalanced name inputs outputs =
      (mid last : Option A.Calc) × (own A articles A.accumulate name inputs none ≡ ok mid)
      × (own A articles A.lessen name outputs mid ≡ ok last)
      × Settled A articles last

  accumulate_inputs-moves :
      {Seal : Type 0} (states : List (ℕ × List (OwnedState Seal L.Value)))
      (using : List (UsedState B)) (calcs calcs' : Calcs A articles)
      → accumulate_inputs A articles states using calcs ≡ some (ok calcs')
      → (l : List (ℕ × L.Value)) × (values_in states using ≡ some l)
        × (moves A articles A.accumulate l calcs ≡ ok calcs')
  unfolding accumulate_inputs moves
  accumulate_inputs-moves states [] calcs calcs' e = ([], refl, ground (arith, e))
  accumulate_inputs-moves states (inp ∷ using) calcs calcs' e =
      let (found, hit, e1) = >>=-eq-some (find_used inp.addr states) _ e in
      elim (Result-cases
        (calc_step A articles A.accumulate found.0 found.1.assignment.value calcs)) [
          | inl (bad, e2) ↦ absurd (ground (arith, e1, e2))
          | inr (calcs1, e2) ↦
              let rest : accumulate_inputs A articles states using calcs1 ≡ some (ok calcs') =
                ground (arith, e1, e2) in
              let (l, e3, e4) = accumulate_inputs-moves states using calcs1 calcs' rest in
              ((found.0, found.1.assignment.value) ∷ l, rw (hit, e3), rw e2 e4)
        ]

  moves-accumulate_inputs :
      {Seal : Type 0} (states : List (ℕ × List (OwnedState Seal L.Value)))
      (using : List (UsedState B)) (calcs calcs' : Calcs A articles) (l : List (ℕ × L.Value))
      → values_in states using ≡ some l
      → moves A articles A.accumulate l calcs ≡ ok calcs'
      → accumulate_inputs A articles states using calcs ≡ some (ok calcs')
  unfolding accumulate_inputs moves
  moves-accumulate_inputs states [] calcs calcs' l e m = ground (arith, e, m)
  moves-accumulate_inputs states (inp ∷ using) calcs calcs' l e m =
      let (found, hit, e1) = >>=-eq-some (find_used inp.addr states) _ e in
      let (rest, e2, e3) = >>=-eq-some (values_in states using) _ e1 in
      let first : l ≡ (found.0, found.1.assignment.value) ∷ rest = ground (arith, e3) in
      let (calcs1, step, m1) =
        bind-eq-ok (calc_step A articles A.accumulate found.0 found.1.assignment.value calcs) _
          (rw first at m) in
      let later = moves-accumulate_inputs states using calcs1 calcs' rest e2 m1 in
      rw (hit, ◌>>=◌, step) later

  lessen_outputs-moves :
      {T : Type 0} (owned : List (NamedState (Assignment (EitherSeal T) L.Value)))
      (calcs : Calcs A articles)
      → lessen_outputs A articles owned calcs ≡ moves A articles A.lessen (values_out owned) calcs
  unfolding lessen_outputs moves
  lessen_outputs-moves [] calcs = refl
  lessen_outputs-moves (out ∷ owned) calcs =
      elim (Result-cases (calc_step A articles A.lessen out.name out.state.value calcs)) [
        | inl (bad, e) ↦ rw e
        | inr (calcs1, e) ↦ rw e (lessen_outputs-moves owned calcs1)
      ]

  pub check_calcs-IsBalanced :
      {Seal T : Type 0} (states : List (ℕ × List (OwnedState Seal L.Value)))
      (request : OpRequest B L.Value L.Atom T)
      → check_calcs A articles states request ≡ some (ok tt)
      → (l : List (ℕ × L.Value)) × (values_in states request.using ≡ some l)
        × ((name : ℕ) → IsBalanced name l (values_out request.owned))
  unfolding check_calcs
  check_calcs-IsBalanced states request e =
      let (res, e1, e2) = >>=-eq-some (accumulate_inputs A articles states request.using []) _ e in
      let fine : bind res
            (λ calcs. bind (lessen_outputs A articles request.owned calcs) (check_diffs A articles))
          ≡ ok tt =
        ground (arith, e2) in
      let (calcs, e3, e4) = bind-eq-ok res _ fine in
      let (calcs', e5, e6) = bind-eq-ok (lessen_outputs A articles request.owned calcs) _ e4 in
      let (l, known, moved) = accumulate_inputs-moves states request.using [] calcs (rw e3 at e1) in
      let out = sym (lessen_outputs-moves request.owned calcs) ∙ e5 in
      (
        l,
        known,
        λ name. (
          lookup name calcs,
          lookup name calcs',
          moves-own A articles A.accumulate l [] calcs moved name,
          moves-own A articles A.lessen (values_out request.owned) calcs calcs' out name,
          check_diffs-Settled A articles calcs' e6 name,
        ),
      )

  pub IsBalanced-check_calcs :
      {Seal T : Type 0} (states : List (ℕ × List (OwnedState Seal L.Value)))
      (request : OpRequest B L.Value L.Atom T) (l : List (ℕ × L.Value))
      → values_in states request.using ≡ some l
      → ((name : ℕ) → IsBalanced name l (values_out request.owned))
      → check_calcs A articles states request ≡ some (ok tt)
  unfolding check_calcs
  IsBalanced-check_calcs states request l known h =
      let (calcs, moved) =
        own-moves A articles A.accumulate l [] (λ n. let (mid, _, e, _, _) = h n in (mid, e)) in
      let mids = moves-own A articles A.accumulate l [] calcs moved in
      let outs = values_out request.owned in
      let after : (n : ℕ)
          → (last : Option A.Calc) × (own A articles A.lessen n outs (lookup n calcs) ≡ ok last)
            × Settled A articles last =
        λ n.
          let (mid, last, e, e', s) = h n in
          let same : mid ≡ lookup n calcs = ground (arith, sym e ∙ mids n) in
          (last, rw same at e', s) in
      let (calcs', out) =
        own-moves A articles A.lessen outs calcs (λ n. let (last, e, _) = after n in (last, e)) in
      let settled : (n : ℕ) → Settled A articles (lookup n calcs') = λ n.
        let (last, e, s) = after n in
        let same : last ≡ lookup n calcs' =
          ground (arith, sym e ∙ moves-own A articles A.lessen outs calcs calcs' out n) in
        mathlib.Core.Path.subst (Settled A articles) same s in
      let ascends =
        moves-Ascends A articles A.lessen outs calcs calcs' out
          (moves-Ascends A articles A.accumulate l [] calcs moved tt) in
      rw
        (
          moves-accumulate_inputs states request.using [] calcs l known moved,
          lessen_outputs-moves request.owned calcs ∙ out,
        )
        (ap some (Settled-check_diffs A articles calcs' ascends settled))
