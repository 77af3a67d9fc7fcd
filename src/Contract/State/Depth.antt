-- ===== src/Contract/State/Depth.antt =====
-- What the elements of `Contract::state` of src/contract.rs say: the seal of an owned element is
-- resolved from its definition, and no ancestor of its operation has a worse best witness than its
-- status.
use mathlib.Core.Path.{subst}
use rgb_std.Base.{
  ℕ, ◌≤◌, ◌≡◌, refl, sym, ap, ◌∙◌, ◌⊎◌, inl, inr, true, Option, none, some, List, [], ◌∷◌, ◌++◌,
  arith, ==_iff, >>=-eq-some, put, contains, All, All-append, All-put, Option-cases,
}
use rgb_std.Status.{WitnessStatus, genesis, worst, quasi_height}
use rgb_std.Status.Order.{height-worst}
use rgb_std.Seals.{RgbSeal, CellAddr}
use rgb_std.Pile.{Pile}
use rgb_std.Ledger.{Ledger}
use rgb_std.Contract.{Contract}
use rgb_std.Contract.Status.{witness_status}
use rgb_std.Contract.State.{OwnedState, ContractState, worst_ancestor, fold_worst, owned_at, state}
use rgb_std.Contract.State.Direct.{
  direct_status, direct_copies, direct_resolved_cell, direct_owned_cell, direct_owned_cells,
  direct_owned, direct_immutable, direct_state,
}
use rgb_std.Contract.State.Memoised.{state-direct_state}

module _ {S : RgbSeal} (P : Pile S) (L : Ledger) (c : Contract P L) where
  -- No operation of the list has a best witness that is worse than the status.
  abbrev pub Dominates : WitnessStatus → List ℕ → Type 0
  Dominates st ops =
      (o : ℕ) (other : WitnessStatus)
      → contains ops o ≡ true
      → witness_status P c.pile o ≡ some other
      → quasi_height other ≤ quasi_height st

  fold_worst_lem :
      (acc st : WitnessStatus) (ops : List ℕ)
      → fold_worst P L c acc ops ≡ some st
      → (quasi_height acc ≤ quasi_height st) × Dominates st ops
  unfolding fold_worst
  fold_worst_lem acc st [] e = (ground arith, λ o other m e'. absurd (cc))
  fold_worst_lem acc st (o1 ∷ ops) e = elim (Option-cases (witness_status P c.pile o1)) [
    | inl panics ↦ absurd (ground (arith, panics, e))
    | inr (st1, e1) ↦
        let rest : fold_worst P L c (worst acc st1) ops ≡ some st = ground (arith, e1, e) in
        let (above, all) = fold_worst_lem (worst acc st1) st ops rest in
        (
          omega (arith, above, height-worst acc st1),
          λ o other m e'. ground (arith, above, height-worst acc st1, all o other, ==_iff o1 o, e1),
        )
  ]

  -- The status of an element of the operation `o` is no better than `other` and dominates the
  -- ancestors of the operation.
  direct_status_lem :
      (o : ℕ) (other st : WitnessStatus)
      → direct_status P L c o other ≡ some st
      → (quasi_height other ≤ quasi_height st) × Dominates st (L.ancestors c.ledger o)
  unfolding direct_status worst_ancestor
  direct_status_lem o other st e =
      let (w, e1, e2) = >>=-eq-some (worst_ancestor P L c o) _ e in
      let (above, all) = fold_worst_lem genesis w (L.ancestors c.ledger o) e1 in
      let same : worst w other ≡ st = ground arith in
      (
        omega (arith, height-worst w other, ap quasi_height same),
        λ o' st' m e'. omega (arith, height-worst w other, ap quasi_height same, all o' st' m e'),
      )

  -- What holds of every owned element of the state.
  pub record IsResolved (x : OwnedState S.Seal L.Value) : Type 0 where
    pub definition : S.Definition
    pub defined : P.seal c.pile x.addr ≡ some definition
    pub resolved :
        (S.to_src definition ≡ some x.assignment.seal)
        ⊎ ((w : ℕ) × (S.to_src definition ≡ none)
            × (contains (P.op_witness_ids c.pile x.addr.opid) w ≡ true)
            × (x.assignment.seal ≡ S.resolve definition w))
    deep : Dominates x.status (L.ancestors c.ledger x.addr.opid)

  direct_copies-IsResolved :
      (addr : CellAddr) (value : L.Value) (def : S.Definition) (wids : List ℕ)
      (xs : List (OwnedState S.Seal L.Value))
      → P.seal c.pile addr ≡ some def
      → S.to_src def ≡ none
      → ((w : ℕ) → contains wids w ≡ true → contains (P.op_witness_ids c.pile addr.opid) w ≡ true)
      → direct_copies P L c addr value def wids ≡ some xs
      → All IsResolved xs
  unfolding direct_copies
  direct_copies-IsResolved addr value def [] [] d n sub e = tt
  direct_copies-IsResolved addr value def [] (x ∷ xs) d n sub e = absurd (cc)
  direct_copies-IsResolved addr value def (w ∷ ws) xs d n sub e =
      let (st, e1, f1) = >>=-eq-some (P.witness_status c.pile w) _ e in
      let (status, e2, f2) = >>=-eq-some (direct_status P L c addr.opid st) _ f1 in
      let (rest, e3, f3) = >>=-eq-some (direct_copies P L c addr value def ws) _ f2 in
      let same : owned_at P L c addr (S.resolve def w) value status ∷ rest ≡ xs = ground arith in
      subst (All IsResolved) same (
        record {
          definition = def;
          defined = d;
          resolved = inr (w, n, sub w (ground arith), refl);
          deep = (direct_status_lem addr.opid st status e2).1;
        },
        direct_copies-IsResolved addr value def ws rest d n (λ w' m. sub w' (ground arith)) e3,
      )

  direct_resolved_cell-IsResolved :
      (addr : CellAddr) (value : L.Value) (def : S.Definition) (src : Option S.Seal)
      (xs : List (OwnedState S.Seal L.Value))
      → P.seal c.pile addr ≡ some def
      → S.to_src def ≡ src
      → direct_resolved_cell P L c addr value def src ≡ some xs
      → All IsResolved xs
  unfolding direct_resolved_cell
  direct_resolved_cell-IsResolved addr value def none xs d n e =
      direct_copies-IsResolved addr value def _ xs d n (λ w m. m) e
  direct_resolved_cell-IsResolved addr value def (some src) xs d n e =
      let (st, e1, f1) = >>=-eq-some (witness_status P c.pile addr.opid) _ e in
      let (status, e2, f2) = >>=-eq-some (direct_status P L c addr.opid st) _ f1 in
      let same : owned_at P L c addr src value status ∷ [] ≡ xs = ground arith in
      subst (All IsResolved) same (
        record {
          definition = def;
          defined = d;
          resolved = inl n;
          deep = (direct_status_lem addr.opid st status e2).1;
        },
        tt,
      )

  direct_owned_cell-IsResolved :
      (addr : CellAddr) (value : L.Value) (def : Option S.Definition)
      (xs : List (OwnedState S.Seal L.Value))
      → P.seal c.pile addr ≡ def
      → direct_owned_cell P L c addr value def ≡ some xs
      → All IsResolved xs
  unfolding direct_owned_cell
  direct_owned_cell-IsResolved addr value none [] d e = tt
  direct_owned_cell-IsResolved addr value none (x ∷ xs) d e = absurd (cc)
  direct_owned_cell-IsResolved addr value (some def) xs d e =
      direct_resolved_cell-IsResolved addr value def (S.to_src def) xs d refl e

  direct_owned_cells-IsResolved :
      (cells : List (CellAddr × L.Value)) (xs : List (OwnedState S.Seal L.Value))
      → direct_owned_cells P L c cells ≡ some xs
      → All IsResolved xs
  unfolding direct_owned_cells
  direct_owned_cells-IsResolved [] [] e = tt
  direct_owned_cells-IsResolved [] (x ∷ xs) e = absurd (cc)
  direct_owned_cells-IsResolved ((addr, value) ∷ cells) xs e =
      let (first, e1, f1) =
        >>=-eq-some (direct_owned_cell P L c addr value (P.seal c.pile addr)) _ e in
      let (rest, e2, f2) = >>=-eq-some (direct_owned_cells P L c cells) _ f1 in
      let same : first ++ rest ≡ xs = ground arith in
      subst (All IsResolved) same (
        All-append IsResolved first rest (direct_owned_cell-IsResolved addr value _ first refl e1)
          (direct_owned_cells-IsResolved cells rest e2))

  abbrev pub AllResolved : List (ℕ × List (OwnedState S.Seal L.Value)) → Type 0
  AllResolved = All (λ (e : ℕ × List (OwnedState S.Seal L.Value)). All IsResolved e.1)

  direct_owned-AllResolved :
      (states : List (ℕ × List (CellAddr × L.Value)))
      (owned result : List (ℕ × List (OwnedState S.Seal L.Value)))
      → AllResolved owned
      → direct_owned P L c states owned ≡ some result
      → AllResolved result
  unfolding direct_owned
  direct_owned-AllResolved [] owned result h e =
      let same : owned ≡ result = ground arith in subst AllResolved same h
  direct_owned-AllResolved ((name, cells) ∷ states) owned result h e =
      let (found, e1, f1) = >>=-eq-some (direct_owned_cells P L c cells) _ e in
      direct_owned-AllResolved states (put name found owned) result
        (All-put (All IsResolved) name found owned (direct_owned_cells-IsResolved cells found e1) h)
        f1

  -- Every owned element of the state has a seal definition in the pile, which gives its seal or is
  -- resolved into it by a witness of its operation, and no ancestor of its operation has a best
  -- witness that is worse than the status of the element.
  pub state-AllResolved :
      (result : ContractState S.Seal L.Value L.Atom)
      → state P L c ≡ some result
      → AllResolved result.owned
  unfolding direct_state
  state-AllResolved result e =
      let direct : direct_state P L c ≡ some result = sym (state-direct_state P L c) ∙ e in
      let (owned, e1, f1) = >>=-eq-some (direct_owned P L c (L.owned c.ledger) []) _ direct in
      let (immutable, e2, f2) = >>=-eq-some (direct_immutable P L c (L.global c.ledger) []) _ f1 in
      let same : owned ≡ result.owned = ground arith in
      subst AllResolved same (direct_owned-AllResolved (L.owned c.ledger) [] owned tt e1)
