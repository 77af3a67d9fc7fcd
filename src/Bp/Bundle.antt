-- ===== src/Bp/Bundle.antt =====
-- `PrefabBundle` and `RgbWallet::bundle` of src/popls/bp.rs: the operations that were asked for,
-- and blank ones for all other contracts with state on the outputs that are spent.
use rgb_std.Base.{
  ℕ, ◌+◌, compare, Ordering, Option, none, some, List, [], ◌∷◌, ◌++◌, if◌then◌else◌, length, lookup,
  put, contains, Result, ok, err,
}
use rgb_std.Base.Results.{MultiError, ◌>>=◌ as bind}
use rgb_std.Seals.{RgbSeal}
use rgb_std.Ledger.{Ledger}
use rgb_std.Contract.State.{Assignment, OwnedState}
use rgb_std.Contract.Params.{EitherSeal, alt, NamedState}
use rgb_std.Bp.{Bitcoin, PrefabSeal, UsedState, OpRequest}
use rgb_std.Bp.Requests.{ok_or}
use rgb_std.Bp.Api.{Api}
use rgb_std.Bp.Wallet.{WalletProvider}
use rgb_std.Bp.Prefab.{Prefab, PrefabError}

-- The order of lists and of pairs that Rust derives.
unfoldable pub compare_list : List ℕ → List ℕ → Ordering
compare_list [] [] = Ordering.eq
compare_list [] (b ∷ bs) = Ordering.lt
compare_list (a ∷ as') [] = Ordering.gt
compare_list (a ∷ as') (b ∷ bs) = elim (compare a b) [
  | Ordering.lt ↦ Ordering.lt
  | Ordering.gt ↦ Ordering.gt
  | Ordering.eq ↦ compare_list as' bs
]

abbrev pub then_by : Ordering → Ordering → Ordering
then_by Ordering.lt next = Ordering.lt
then_by Ordering.gt next = Ordering.gt
then_by Ordering.eq next = next

pub data BundleError (CalcError AcceptError : Type 0) : Type 0 where
  prefab_error : PrefabError CalcError AcceptError → BundleError CalcError AcceptError
  blank : PrefabError CalcError AcceptError → BundleError CalcError AcceptError
  change_required : BundleError CalcError AcceptError
  state_name_unknown : BundleError CalcError AcceptError
  state_calc : CalcError → BundleError CalcError AcceptError
  too_many_blanks : BundleError CalcError AcceptError

module _ {B : Bitcoin} {L : Ledger} (A : Api B L) where
  -- `Ord` of `Prefab`.
  unfoldable pub prefab_compare : Prefab L → Prefab L → Ordering
  unfolding compare_list
  prefab_compare p q =
      then_by (compare_list p.closes q.closes)
        (then_by (compare_list p.defines q.defines) (A.op_compare p.operation q.operation))

  -- `BTreeSet::insert` of prefabs.
  unfoldable pub add_prefab : Prefab L → List (Prefab L) → List (Prefab L)
  unfolding prefab_compare
  add_prefab p [] = p ∷ []
  add_prefab p (q ∷ s) = elim (prefab_compare p q) [
    | Ordering.lt ↦ p ∷ q ∷ s
    | Ordering.eq ↦ q ∷ s
    | Ordering.gt ↦ q ∷ add_prefab p s
  ]

  abbrev pub BundleFailure : Type 0
  BundleFailure = MultiError (BundleError A.CalcError A.AcceptError) L.StockError ⊥

  -- `entry(name)` with `calculate`, and `accumulate`, in the errors of a bundle.
  abbrev blank_entry :
      L.Articles → ℕ → Option A.Calc → Result (BundleError A.CalcError A.AcceptError) A.Calc
  blank_entry articles name (some calc) = ok calc
  blank_entry articles name none = ok_or state_name_unknown (A.calculate articles name)

  abbrev blank_stepped :
      A.Calc × Result A.CalcError (Unit {0}) → Result (BundleError A.CalcError A.AcceptError) A.Calc
  blank_stepped (calc, ok _) = ok calc
  blank_stepped (calc, err e) = err (state_calc e)

  abbrev blank_diff :
      Result A.CalcError (List L.Value)
      → Result (BundleError A.CalcError A.AcceptError) (List L.Value)
  blank_diff (ok values) = ok values
  blank_diff (err e) = err (state_calc e)

  -- The loop over the states on spent outputs.
  pub accumulate_prev :
      {Seal : Type 0}
      → L.Articles
      → List (UsedState B × ℕ × OwnedState Seal L.Value)
      → List (ℕ × A.Calc)
      → Result (BundleError A.CalcError A.AcceptError) (List (ℕ × A.Calc))
  accumulate_prev articles [] calcs = ok calcs
  accumulate_prev articles ((_, name, state) ∷ prev) calcs =
      bind (blank_entry articles name (lookup name calcs)) λ calc.
        bind (blank_stepped (A.accumulate calc state.assignment.value))
          λ calc'. accumulate_prev articles prev (put name calc' calcs)

module _ {B : Bitcoin} {S : RgbSeal} {L : Ledger} (A : Api B L) (N : WalletProvider B S) where
  -- The states of a name that are on spent outputs, and those of all names.
  unfoldable pub used_in :
      List ℕ
      → ℕ
      → List (OwnedState S.Seal L.Value)
      → List (UsedState B × ℕ × OwnedState S.Seal L.Value)
  used_in outpoints name [] = []
  used_in outpoints name (owned ∷ map) =
      let outpoint = N.primary owned.assignment.seal in
      let rest = used_in outpoints name map in
      if contains outpoints outpoint
      then (record { addr = owned.addr; outpoint = outpoint; satisfaction = none }, name, owned)
        ∷ rest
      else rest

  unfoldable pub used_states :
      List ℕ
      → List (ℕ × List (OwnedState S.Seal L.Value))
      → List (UsedState B × ℕ × OwnedState S.Seal L.Value)
  unfolding used_in
  used_states outpoints [] = []
  used_states outpoints ((name, map) ∷ owned) =
      used_in outpoints name map ++ used_states outpoints owned

  abbrev pub using_of : List (UsedState B × ℕ × OwnedState S.Seal L.Value) → List (UsedState B)
  using_of [] = []
  using_of ((used, _, _) ∷ rest) = used ∷ using_of rest

  abbrev Cells : Type 0
  Cells = List (NamedState (Assignment (EitherSeal (PrefabSeal B)) L.Value))

  -- The inner loop over the difference of a state, with the nonce that it counts.
  unfoldable change_cells :
      N.Engine
      → ℕ
      → ℕ
      → Option ℕ
      → List L.Value
      → Result (BundleError A.CalcError A.AcceptError) Cells
  change_cells engine nonce name change [] = ok []
  change_cells engine nonce name change (value ∷ values) =
      bind (ok_or change_required change) λ vout.
        bind (change_cells engine (nonce + 1) name change values) λ rest. ok (
          record {
            name = name;
            state = record {
              seal = alt (record { vout = vout; noise = some (N.noise_with vout engine nonce) });
              value = value;
            };
          }
          ∷ rest)

  pub blank_owned :
      N.Engine
      → ℕ
      → Option ℕ
      → List (ℕ × A.Calc)
      → Result (BundleError A.CalcError A.AcceptError) Cells
  unfolding change_cells
  blank_owned engine nonce change [] = ok []
  blank_owned engine nonce change ((name, calc) ∷ calcs) =
      bind (blank_diff A (A.diff calc)) λ values.
        bind (change_cells engine nonce name change values) λ cells.
          bind (blank_owned engine (nonce + length values) change calcs) λ rest. ok (cells ++ rest)

  -- A blank request for a contract with state on spent outputs. Its method is that with the name `_`.
  unfoldable pub blank_request :
      ℕ
      → N.Engine
      → Option ℕ
      → ℕ
      → L.Articles
      → List (UsedState B × ℕ × OwnedState S.Seal L.Value)
      → Result (BundleError A.CalcError A.AcceptError) (OpRequest B L.Value L.Atom (PrefabSeal B))
  unfolding accumulate_prev blank_owned
  blank_request blank_method root_engine change contract_id articles prev =
      bind (accumulate_prev A articles prev []) λ calcs.
        bind (blank_owned (N.input_raw root_engine contract_id) 0 change calcs) λ owned.
          ok (record {
            contract_id = contract_id;
            method = blank_method;
            reading = [];
            using = using_of prev;
            global = [];
            owned = owned;
          })
