-- ===== src/Bp/Outputs.antt =====
-- The outputs that `RgbWallet::prefab` of src/popls/bp.rs collects.
use rgb_std.Base.{
  ℕ, zero, suc, ◌+◌, ◌%◌, ◌^◌, ◌<◌, ◌≤◌, ◌≡◌, refl, sym, ap, ◌∙◌, inl, inr, ◌||◌, Option, some,
  List, [], ◌∷◌, ◌>>=◌, >>=-eq-some, arith, or_else, length, lookup, put, lookup-put, contains,
  set_put, contains-set_put, Option-cases, Result, ok, err,
}
use rgb_std.Seals.{RgbSeal}
use rgb_std.Contract.State.{Assignment}
use rgb_std.Contract.Params.{EitherSeal, alt, token, NamedState, DataCell, nth}
use rgb_std.Bp.{Bitcoin, PrefabSeal}
use rgb_std.Bp.Api.{Confined, ConfinedLaws}
use rgb_std.Bp.Wallet.{WalletProvider}
use rgb_std.Bp.Prefab.{PrefabError, Outputs, seal_of, data_cell, collect_cell, collect_outputs}
use rgb_std.Bp.Defined.{Asked, defined_by, definition_at, cells_of}

module _ {B : Bitcoin} {S : RgbSeal} (N : WalletProvider B S) (C : Confined)
    (Value CalcError AcceptError : Type 0) (laws : ConfinedLaws C) (engine : N.Engine) where
  abbrev collected :
      ℕ
      → Asked N C Value
      → List ℕ
      → List (ℕ × S.Definition)
      → Option (Result (PrefabError CalcError AcceptError) (Outputs S Value))
  collected = collect_outputs N C engine

  -- What one more output does to the sets and the maps.
  data Step (opout_no : ℕ) (assignment : NamedState (Assignment (EitherSeal (PrefabSeal B)) Value))
      (owned : Asked N C Value) (ds : List ℕ) (seals : List (ℕ × S.Definition))
      (out : Outputs S Value) : Type 0 where
    explicit :
        (seal : PrefabSeal B) (rest : Outputs S Value)
        → assignment.state.seal ≡ alt seal
        → collected
            (opout_no + 1)
            owned
            (set_put seal.vout ds)
            (put (opout_no % 2 ^ 16) (seal_of N C engine opout_no seal) seals)
          ≡ some (ok rest)
        → out ≡ record rest {
          owned =
              data_cell (S.auth_token (seal_of N C engine opout_no seal)) assignment ∷ rest.owned;
        }
        → Step opout_no assignment owned ds seals out
    external :
        (auth : ℕ) (rest : Outputs S Value)
        → assignment.state.seal ≡ token auth
        → collected (opout_no + 1) owned ds seals ≡ some (ok rest)
        → out ≡ record rest { owned = data_cell auth assignment ∷ rest.owned }
        → Step opout_no assignment owned ds seals out

  collect_cell-ok :
      (cell : NamedState (DataCell Value))
      (res : Result (PrefabError CalcError AcceptError) (Outputs S Value)) (out : Outputs S Value)
      → collect_cell cell res ≡ ok out
      → (rest : Outputs S Value) × (res ≡ ok rest)
        × (out ≡ record rest { owned = cell ∷ rest.owned })
  collect_cell-ok cell (err e) out h = absurd (cc)
  collect_cell-ok cell (ok rest) out h = (rest, refl, ground (arith, h))

  step :
      (opout_no : ℕ) (assignment : NamedState (Assignment (EitherSeal (PrefabSeal B)) Value))
      (owned : Asked N C Value) (ds : List ℕ) (seals : List (ℕ × S.Definition))
      (out : Outputs S Value) (seal : EitherSeal (PrefabSeal B))
      → assignment.state.seal ≡ seal
      → collected opout_no (assignment ∷ owned) ds seals ≡ some (ok out)
      → Step opout_no assignment owned ds seals out
  unfolding collect_outputs
  step opout_no assignment owned ds seals out (token auth) is e =
      let later = collected (opout_no + 1) owned ds seals in
      let e0 : (later >>= λ res. some (collect_cell (data_cell auth assignment) res))
          ≡ some (ok out) =
        ground (arith, is, e) in
      let (res, e1, e2) = >>=-eq-some later _ e0 in
      let (rest, e3, e4) =
        collect_cell-ok (data_cell auth assignment) res out (ground (arith, e2)) in
      external auth rest is (e1 ∙ ap some e3) e4
  step opout_no assignment owned ds seals out (alt seal) is e =
      elim (Option-cases (C.push seal.vout ds)) [
        | inl full ↦ absurd (ground (arith, is, e, full))
        | inr (ds', pushed) ↦
            let definition = seal_of N C engine opout_no seal in
            let more = C.insert (opout_no % 2 ^ 16) definition seals in
            let cell = data_cell (S.auth_token definition) assignment in
            let go_on = λ (seals' : List (ℕ × S.Definition)).
              collected (opout_no + 1) owned ds' seals' >>= λ res. some (collect_cell cell res) in
            let e0 : (more >>= go_on) ≡ some (ok out) = ground (arith, is, e, pushed) in
            let (seals', inserted, e1) = >>=-eq-some more go_on e0 in
            let (res, e2, e3) = >>=-eq-some (collected (opout_no + 1) owned ds' seals') _ e1 in
            let (rest, e4, e5) = collect_cell-ok cell res out (ground (arith, e3)) in
            let same_ds = laws.push_some seal.vout ds ds' pushed in
            let same_seals =
              laws.insert_some S.Definition (opout_no % 2 ^ 16) definition seals seals' inserted in
            explicit seal rest is (rw (sym same_ds, sym same_seals) (e2 ∙ ap some e4)) e5
      ]

  -- The outputs of the transaction that are defined are those that were, and those of the seals.
  pub contains-collected :
      (opout_no : ℕ) (owned : Asked N C Value) (ds : List ℕ) (seals : List (ℕ × S.Definition))
      (out : Outputs S Value)
      → collected opout_no owned ds seals ≡ some (ok out)
      → (v : ℕ) → contains out.defines v ≡ (defined_by N C Value owned v || contains ds v)
  unfolding collect_outputs
  contains-collected opout_no [] ds seals out e v = ground (arith, e)
  contains-collected opout_no (assignment ∷ owned) ds seals out e v =
      elim (step opout_no assignment owned ds seals out assignment.state.seal refl e) [
        | explicit seal rest is later eq ↦
            let ih = contains-collected (opout_no + 1) owned _ _ rest later v in
            rw is (ground (arith, ih, eq, contains-set_put seal.vout v ds))
        | external auth rest is later eq ↦
            let ih = contains-collected (opout_no + 1) owned ds seals rest later v in
            rw is (ground (arith, ih, eq))
      ]

  pub cells-collected :
      (opout_no : ℕ) (owned : Asked N C Value) (ds : List ℕ) (seals : List (ℕ × S.Definition))
      (out : Outputs S Value)
      → collected opout_no owned ds seals ≡ some (ok out)
      → out.owned ≡ cells_of N C Value engine opout_no owned
  unfolding collect_outputs
  cells-collected opout_no [] ds seals out e = ground (arith, e)
  cells-collected opout_no (assignment ∷ owned) ds seals out e =
      elim (step opout_no assignment owned ds seals out assignment.state.seal refl e) [
        | explicit seal rest is later eq ↦
            let ih = cells-collected (opout_no + 1) owned _ _ rest later in
            rw is (
              ap (λ (o : Outputs S Value). o.owned) eq
              ∙ ap (λ r. data_cell (S.auth_token (seal_of N C engine opout_no seal)) assignment ∷ r)
                  ih)
        | external auth rest is later eq ↦
            let ih = cells-collected (opout_no + 1) owned ds seals rest later in
            rw is (
              ap (λ (o : Outputs S Value). o.owned) eq ∙ ap (λ r. data_cell auth assignment ∷ r) ih)
      ]

  lookup_before :
      (opout_no j : ℕ) (owned : Asked N C Value) (ds : List ℕ) (seals : List (ℕ × S.Definition))
      (out : Outputs S Value)
      → j < opout_no
      → opout_no + length owned ≤ 2 ^ 16
      → collected opout_no owned ds seals ≡ some (ok out)
      → lookup j out.seals ≡ lookup j seals
  unfolding collect_outputs
  lookup_before opout_no j [] ds seals out h k e = ground (arith, e)
  lookup_before opout_no j (assignment ∷ owned) ds seals out h k e =
      elim (step opout_no assignment owned ds seals out assignment.state.seal refl e) [
        | explicit seal rest is later eq ↦
            let ih =
              lookup_before (opout_no + 1) j owned _ _ rest (omega arith) (omega arith) later in
            ground (
              arith,
              ih,
              eq,
              lookup-put (opout_no % 2 ^ 16) j (seal_of N C engine opout_no seal) seals,
            )
        | external auth rest is later eq ↦
            let ih =
              lookup_before (opout_no + 1) j owned ds seals rest (omega arith) (omega arith)
                later in
            ground (arith, ih, eq)
      ]

  pub lookup-collected :
      (opout_no i : ℕ) (owned : Asked N C Value) (ds : List ℕ) (seals : List (ℕ × S.Definition))
      (out : Outputs S Value)
      → opout_no + length owned ≤ 2 ^ 16
      → collected opout_no owned ds seals ≡ some (ok out)
      → lookup (opout_no + i) out.seals
        ≡ or_else
            (definition_at N C Value engine (opout_no + i) (nth i owned))
            (lookup (opout_no + i) seals)
  unfolding collect_outputs
  lookup-collected opout_no i [] ds seals out k e = ground (arith, e)
  lookup-collected opout_no zero (assignment ∷ owned) ds seals out k e =
      let at : opout_no + 0 ≡ opout_no = omega arith in
      rw at (elim (step opout_no assignment owned ds seals out assignment.state.seal refl e) [
        | explicit seal rest is later eq ↦
            let definition = seal_of N C engine opout_no seal in
            let ih =
              lookup_before (opout_no + 1) opout_no owned _ _ rest (omega arith) (omega arith)
                later in
            rw is (ground (arith, ih, eq, lookup-put (opout_no % 2 ^ 16) opout_no definition seals))
        | external auth rest is later eq ↦
            let ih =
              lookup_before (opout_no + 1) opout_no owned ds seals rest (omega arith) (omega arith)
                later in
            rw is (ground (arith, ih, eq))
      ])
  lookup-collected opout_no (suc i) (assignment ∷ owned) ds seals out k e =
      let at : opout_no + suc i ≡ opout_no + 1 + i = omega arith in
      rw at (elim (step opout_no assignment owned ds seals out assignment.state.seal refl e) [
        | explicit seal rest is later eq ↦
            let definition = seal_of N C engine opout_no seal in
            let ih = lookup-collected (opout_no + 1) i owned _ _ rest (omega arith) later in
            let kept : lookup (opout_no + 1 + i) (put (opout_no % 2 ^ 16) definition seals)
                ≡ lookup (opout_no + 1 + i) seals =
              ground (arith, lookup-put (opout_no % 2 ^ 16) (opout_no + 1 + i) definition seals) in
            ap (λ (o : Outputs S Value). lookup (opout_no + 1 + i) o.seals) eq
            ∙ ih
            ∙ ap (or_else (definition_at N C Value engine (opout_no + 1 + i) (nth i owned))) kept
        | external auth rest is later eq ↦
            let ih = lookup-collected (opout_no + 1) i owned ds seals rest (omega arith) later in
            ap (λ (o : Outputs S Value). lookup (opout_no + 1 + i) o.seals) eq ∙ ih
      ])
