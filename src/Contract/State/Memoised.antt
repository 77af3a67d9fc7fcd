-- ===== src/Contract/State/Memoised.antt =====
-- The caches of `Contract::state` of src/contract.rs do not show.
use rgb_std.Base.{
  ℕ, ◌≡◌, refl, ◌⊎◌, inl, inr, Option, none, some, List, [], ◌∷◌, arith, ==_iff, ◌>>=◌, lookup, put,
  lookup-put, Option-cases,
}
use rgb_std.Status.{WitnessStatus, worst}
use rgb_std.Seals.{RgbSeal, CellAddr}
use rgb_std.Pile.{Pile}
use rgb_std.Ledger.{Ledger}
use rgb_std.Contract.{Contract}
use rgb_std.Contract.Status.{witness_status}
use rgb_std.Contract.State.{
  OwnedState, ImmutableState, Caches, Memo, pure, lift, ◌>>=◌ as bind, or_insert_with,
  cached_status, worst_ancestor, get_status, witness_copies, resolved_cell, owned_cell, owned_cells,
  owned_states, immutable_cells, immutable_states, memo_state, state,
}
use rgb_std.Contract.State.Direct.{
  direct_status, direct_copies, direct_resolved_cell, direct_owned_cell, direct_owned_cells,
  direct_owned, direct_immutable_cells, direct_immutable, direct_state,
}

abbrev IsSoundFor : (ℕ → Option WitnessStatus) → List (ℕ × WitnessStatus) → Type 0
IsSoundFor f cache = (o : ℕ) (st : WitnessStatus) → lookup o cache ≡ some st → f o ≡ some st

or_insert_with_lem :
    (f : ℕ → Option WitnessStatus) (opid : ℕ) (cache : List (ℕ × WitnessStatus))
    → IsSoundFor f cache
    → ((f opid ≡ none) × (or_insert_with opid cache (f opid) ≡ none))
      ⊎ ((st : WitnessStatus) × (cache' : List (ℕ × WitnessStatus)) × (f opid ≡ some st)
          × (or_insert_with opid cache (f opid) ≡ some (st, cache'))
          × IsSoundFor f cache')
unfolding or_insert_with
or_insert_with_lem f opid cache h = elim (Option-cases (lookup opid cache)) [
  | inr (st, hit) ↦ inr (st, cache, h opid st hit, rw (hit, or_insert_with), h)
  | inl miss ↦ elim (Option-cases (f opid)) [
    | inl e ↦ inl (e, rw (miss, e, or_insert_with))
    | inr (st, e) ↦ inr (
      st,
      put opid st cache,
      e,
      rw (miss, e, or_insert_with),
      λ o st' look. ground (arith, lookup-put opid o st cache, h o st', ==_iff opid o),
    )
  ]
]

module _ {S : RgbSeal} (P : Pile S) (L : Ledger) (c : Contract P L) where
  record IsSound (caches : Caches) : Type 0 where
    statuses : IsSoundFor (witness_status P c.pile) caches.cache
    ancestors : IsSoundFor (worst_ancestor P L c) caches.ancestor_cache

  -- From sound caches a computation returns what it returns with no cache, and leaves them sound.
  record Agrees {A : Type 0} (m : Memo A) (d : Option A) : Type 0 where
    at :
        (caches : Caches)
        → IsSound caches
        → ((d ≡ none) × (m caches ≡ none))
          ⊎ ((a : A) × (caches' : Caches) × (d ≡ some a)
              × (m caches ≡ some (a, caches'))
              × IsSound caches')

  pure-Agrees : {A : Type 0} (a : A) → Agrees (pure a) (some a)
  pure-Agrees a = record { at = λ caches h. inr (a, caches, refl, refl, h) }

  lift-Agrees : {A : Type 0} (o : Option A) → Agrees (lift o) o
  lift-Agrees none = record { at = λ caches h. inl (refl, refl) }
  lift-Agrees (some a) = record { at = λ caches h. inr (a, caches, refl, refl, h) }

  bind-Agrees :
      {A B : Type 0} {m : Memo A} {d : Option A} {f : A → Memo B} {g : A → Option B}
      → Agrees m d
      → ((a : A) → Agrees (f a) (g a))
      → Agrees (bind m f) (d >>= g)
  bind-Agrees {g = g} h k = record {
    at = λ caches sound. elim (h.at caches sound) [
      | inl (e, e') ↦ inl (rw e, rw (e', bind))
      | inr (a, caches', e, e', sound') ↦ rw (e, e', bind) ((k a).at caches' sound')
    ];
  }

  cached_status-Agrees : (o : ℕ) → Agrees (cached_status P L c o) (witness_status P c.pile o)
  unfolding cached_status
  cached_status-Agrees o = record {
    at = λ caches h. elim (or_insert_with_lem (witness_status P c.pile) o caches.cache h.statuses) [
      | inl (e, e') ↦ inl (e, rw (e', cached_status))
      | inr (st, cache, e, e', sound) ↦ inr (
        st,
        record caches { cache = cache },
        e,
        rw (e', cached_status),
        record { statuses = sound; ancestors = h.ancestors },
      )
    ];
  }

  get_status-Agrees :
      (o : ℕ) (st : WitnessStatus) → Agrees (get_status P L c o st) (direct_status P L c o st)
  unfolding get_status direct_status
  get_status-Agrees o st = record {
    at = λ caches h.
        elim (or_insert_with_lem (worst_ancestor P L c) o caches.ancestor_cache h.ancestors) [
          | inl (e, e') ↦ inl (rw e, rw (e', get_status))
          | inr (w, cache, e, e', sound) ↦ inr (
            worst w st,
            record caches { ancestor_cache = cache },
            rw e,
            rw (e', get_status),
            record { statuses = h.statuses; ancestors = sound },
          )
        ];
  }

  witness_copies-Agrees :
      (addr : CellAddr) (value : L.Value) (seal : S.Definition) (wids : List ℕ)
      → Agrees
          (witness_copies P L c addr value seal wids)
          (direct_copies P L c addr value seal wids)
  unfolding witness_copies direct_copies
  witness_copies-Agrees addr value seal [] = pure-Agrees []
  witness_copies-Agrees addr value seal (wid ∷ wids) =
      bind-Agrees (lift-Agrees (P.witness_status c.pile wid)) λ st.
        bind-Agrees (get_status-Agrees addr.opid st)
          λ status. bind-Agrees (witness_copies-Agrees addr value seal wids) λ rest. pure-Agrees _

  resolved_cell-Agrees :
      (addr : CellAddr) (value : L.Value) (seal : S.Definition) (src : Option S.Seal)
      → Agrees
          (resolved_cell P L c addr value seal src)
          (direct_resolved_cell P L c addr value seal src)
  unfolding resolved_cell direct_resolved_cell
  resolved_cell-Agrees addr value seal (some src) =
      bind-Agrees (cached_status-Agrees addr.opid)
        λ st. bind-Agrees (get_status-Agrees addr.opid st) λ status. pure-Agrees _
  resolved_cell-Agrees addr value seal none =
      witness_copies-Agrees addr value seal (P.op_witness_ids c.pile addr.opid)

  owned_cell-Agrees :
      (addr : CellAddr) (value : L.Value) (seal : Option S.Definition)
      → Agrees (owned_cell P L c addr value seal) (direct_owned_cell P L c addr value seal)
  unfolding owned_cell direct_owned_cell
  owned_cell-Agrees addr value none = pure-Agrees []
  owned_cell-Agrees addr value (some seal) = resolved_cell-Agrees addr value seal (S.to_src seal)

  owned_cells-Agrees :
      (cells : List (CellAddr × L.Value))
      → Agrees (owned_cells P L c cells) (direct_owned_cells P L c cells)
  unfolding owned_cells direct_owned_cells
  owned_cells-Agrees [] = pure-Agrees []
  owned_cells-Agrees ((addr, value) ∷ cells) =
      bind-Agrees (owned_cell-Agrees addr value (P.seal c.pile addr))
        λ first. bind-Agrees (owned_cells-Agrees cells) λ rest. pure-Agrees _

  owned_states-Agrees :
      (states : List (ℕ × List (CellAddr × L.Value)))
      (owned : List (ℕ × List (OwnedState S.Seal L.Value)))
      → Agrees (owned_states P L c states owned) (direct_owned P L c states owned)
  unfolding owned_states direct_owned
  owned_states-Agrees [] owned = pure-Agrees owned
  owned_states-Agrees ((name, cells) ∷ states) owned =
      bind-Agrees (owned_cells-Agrees cells)
        λ found. owned_states-Agrees states (put name found owned)

  immutable_cells-Agrees :
      (cells : List (CellAddr × L.Atom))
      → Agrees (immutable_cells P L c cells) (direct_immutable_cells P L c cells)
  unfolding immutable_cells direct_immutable_cells
  immutable_cells-Agrees [] = pure-Agrees []
  immutable_cells-Agrees ((addr, atom) ∷ cells) = bind-Agrees (cached_status-Agrees addr.opid) λ st.
      bind-Agrees (get_status-Agrees addr.opid st)
        λ status. bind-Agrees (immutable_cells-Agrees cells) λ rest. pure-Agrees _

  immutable_states-Agrees :
      (states : List (ℕ × List (CellAddr × L.Atom)))
      (immutable : List (ℕ × List (ImmutableState L.Atom)))
      → Agrees (immutable_states P L c states immutable) (direct_immutable P L c states immutable)
  unfolding immutable_states direct_immutable
  immutable_states-Agrees [] immutable = pure-Agrees immutable
  immutable_states-Agrees ((name, cells) ∷ states) immutable =
      bind-Agrees (immutable_cells-Agrees cells)
        λ found. immutable_states-Agrees states (put name found immutable)

  memo_state-Agrees : Agrees (memo_state P L c) (direct_state P L c)
  unfolding memo_state direct_state
  memo_state-Agrees = bind-Agrees (owned_states-Agrees (L.owned c.ledger) []) λ owned.
      bind-Agrees (immutable_states-Agrees (L.global c.ledger) []) λ immutable. pure-Agrees _

  -- The state that is computed by way of the two caches is the one that is computed with none, and
  -- panics exactly where that does.
  pub state-direct_state : state P L c ≡ direct_state P L c
  unfolding state
  state-direct_state =
      elim (memo_state-Agrees.at (record { cache = []; ancestor_cache = [] })
        (record { statuses = λ o st e. absurd (cc); ancestors = λ o st e. absurd (cc) })) [
          | inl (e, e') ↦ rw (e, e', state)
          | inr (a, caches, e, e', sound) ↦ rw (e, e', state)
        ]
