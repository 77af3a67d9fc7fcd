-- ===== src/Contract/State.antt =====
-- `Contract::state` of src/contract.rs: the state of the ledger with its seals resolved and the
-- status of each element, by way of two caches that the closures `cached_status` and `get_status`
-- fill.
pub mod Direct
pub mod Memoised
pub mod Depth
pub mod Mapped
use rgb_std.Base.{ℕ, Option, none, some, List, [], ◌∷◌, ◌++◌, ◌==◌, if◌then◌else◌, lookup, put}
use rgb_std.Status.{WitnessStatus, genesis, worst}
use rgb_std.Seals.{RgbSeal, CellAddr}
use rgb_std.Pile.{Pile}
use rgb_std.Ledger.{Ledger}
use rgb_std.Contract.{Contract}
use rgb_std.Contract.Status.{witness_status}

pub record Assignment (Seal Value : Type 0) : Type 0 where
  pub seal : Seal
  pub value : Value

pub record OwnedState (Seal Value : Type 0) : Type 0 where
  pub addr : CellAddr
  pub assignment : Assignment Seal Value
  pub status : WitnessStatus

pub record ImmutableState (Atom : Type 0) : Type 0 where
  pub addr : CellAddr
  pub atom : Atom
  pub status : WitnessStatus

pub record ContractState (Seal Value Atom : Type 0) : Type 0 where
  pub immutable : List (ℕ × List (ImmutableState Atom))
  pub owned : List (ℕ × List (OwnedState Seal Value))
  pub aggregated : List (ℕ × Value)

-- `cache` and `ancestor_cache`.
pub record Caches : Type 0 where
  pub cache : List (ℕ × WitnessStatus)
  pub ancestor_cache : List (ℕ × WitnessStatus)

-- Code that reads and fills the caches; `none` is a panic.
abbrev pub Memo {ℓ} : Type ℓ → Type ℓ
Memo A = Caches → Option (A × Caches)

abbrev pub pure {ℓ} : {A : Type ℓ} → A → Memo A
pure a caches = some (a, caches)

-- A computation without caches.
abbrev pub lift {ℓ} : {A : Type ℓ} → Option A → Memo A
lift none caches = none
lift (some a) caches = some (a, caches)

infixl 5 ◌>>=◌
abbrev pub ◌>>=◌ {ℓ κ} : {A : Type ℓ} {B : Type κ} → Memo A → (A → Memo B) → Memo B
◌>>=◌ m f caches = elim (m caches) [ none ↦ none | some (a, caches') ↦ f a caches' ]

-- `entry(opid).or_insert_with(…)` on either cache.
unfoldable pub or_insert_with :
    ℕ
    → List (ℕ × WitnessStatus)
    → Option WitnessStatus
    → Option (WitnessStatus × List (ℕ × WitnessStatus))
or_insert_with opid cache fresh = elim (lookup opid cache) [
  | some st ↦ some (st, cache)
  | none ↦ elim fresh [ none ↦ none | some st ↦ some (st, put opid st cache) ]
]

module _ {S : RgbSeal} (P : Pile S) (L : Ledger) (c : Contract P L) where
  unfoldable pub cached_status : ℕ → Memo WitnessStatus
  unfolding or_insert_with
  cached_status opid caches =
      elim (or_insert_with opid caches.cache (witness_status P c.pile opid)) [
        | none ↦ none
        | some (st, cache) ↦ some (st, record caches { cache = cache })
      ]

  -- `.map(|ancestor| self.witness_status(ancestor)).fold(worst, |worst, other| …)`.
  unfoldable pub fold_worst : WitnessStatus → List ℕ → Option WitnessStatus
  fold_worst acc [] = some acc
  fold_worst acc (ancestor ∷ ancestors) = elim (witness_status P c.pile ancestor) [
    | none ↦ none
    | some other ↦ fold_worst (worst acc other) ancestors
  ]

  unfoldable pub worst_ancestor : ℕ → Option WitnessStatus
  unfolding fold_worst
  worst_ancestor opid = fold_worst genesis (L.ancestors c.ledger opid)

  unfoldable pub get_status : ℕ → WitnessStatus → Memo WitnessStatus
  unfolding or_insert_with
  get_status opid other caches =
      elim (or_insert_with opid caches.ancestor_cache (worst_ancestor opid)) [
        | none ↦ none
        | some (st, cache) ↦ some (worst st other, record caches { ancestor_cache = cache })
      ]

  abbrev owned_at : CellAddr → S.Seal → L.Value → WitnessStatus → OwnedState S.Seal L.Value
  owned_at addr seal value status = record {
    addr = addr;
    assignment = record { seal = seal; value = value };
    status = status;
  }

  -- A seal that the operation's witness defines: a copy for each of the witnesses.
  unfoldable pub witness_copies :
      CellAddr → L.Value → S.Definition → List ℕ → Memo (List (OwnedState S.Seal L.Value))
  witness_copies addr value seal [] = pure []
  witness_copies addr value seal (wid ∷ wids) = do
    st ← lift (P.witness_status c.pile wid)
    status ← get_status addr.opid st
    rest ← witness_copies addr value seal wids
    pure (owned_at addr (S.resolve seal wid) value status ∷ rest)

  -- `if let Some(seal) = seal.to_src() { … } else { … }`.
  unfoldable pub resolved_cell :
      CellAddr → L.Value → S.Definition → Option S.Seal → Memo (List (OwnedState S.Seal L.Value))
  resolved_cell addr value seal (some src) = do
    st ← cached_status addr.opid
    status ← get_status addr.opid st
    pure (owned_at addr src value status ∷ [])
  resolved_cell addr value seal none =
      witness_copies addr value seal (P.op_witness_ids c.pile addr.opid)

  -- `let Some(seal) = self.pile.seal(addr) else { continue };`
  unfoldable pub owned_cell :
      CellAddr → L.Value → Option S.Definition → Memo (List (OwnedState S.Seal L.Value))
  owned_cell addr value none = pure []
  owned_cell addr value (some seal) = resolved_cell addr value seal (S.to_src seal)

  unfoldable pub owned_cells : List (CellAddr × L.Value) → Memo (List (OwnedState S.Seal L.Value))
  owned_cells [] = pure []
  owned_cells ((addr, value) ∷ cells) = do
    first ← owned_cell addr value (P.seal c.pile addr)
    rest ← owned_cells cells
    pure (first ++ rest)

  unfoldable pub owned_states :
      List (ℕ × List (CellAddr × L.Value))
      → List (ℕ × List (OwnedState S.Seal L.Value))
      → Memo (List (ℕ × List (OwnedState S.Seal L.Value)))
  owned_states [] owned = pure owned
  owned_states ((name, cells) ∷ states) owned = do
    state ← owned_cells cells
    owned_states states (put name state owned)

  unfoldable pub immutable_cells : List (CellAddr × L.Atom) → Memo (List (ImmutableState L.Atom))
  immutable_cells [] = pure []
  immutable_cells ((addr, atom) ∷ cells) = do
    st ← cached_status addr.opid
    status ← get_status addr.opid st
    rest ← immutable_cells cells
    pure (record { addr = addr; atom = atom; status = status } ∷ rest)

  unfoldable pub immutable_states :
      List (ℕ × List (CellAddr × L.Atom))
      → List (ℕ × List (ImmutableState L.Atom))
      → Memo (List (ℕ × List (ImmutableState L.Atom)))
  immutable_states [] immutable = pure immutable
  immutable_states ((name, cells) ∷ states) immutable = do
    state ← immutable_cells cells
    immutable_states states (put name state immutable)

  unfoldable pub memo_state : Memo (ContractState S.Seal L.Value L.Atom)
  memo_state = do
    owned ← owned_states (L.owned c.ledger) []
    immutable ← immutable_states (L.global c.ledger) []
    pure (record { immutable = immutable; owned = owned; aggregated = L.aggregated c.ledger })

  unfoldable pub state : Option (ContractState S.Seal L.Value L.Atom)
  unfolding memo_state
  state = elim (memo_state (record { cache = []; ancestor_cache = [] })) [
    | none ↦ none
    | some (computed, _) ↦ some computed
  ]
