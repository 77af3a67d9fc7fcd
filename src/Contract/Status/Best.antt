-- ===== src/Contract/Status/Best.antt =====
-- The status of an operation is that of its best witness, and `retrieve` picks such a witness.
use mathlib.Core.Path.{subst}
use rgb_std.Base.{
  ℕ, ◌≤◌, ◌≡◌, refl, sym, ap, ◌⊎◌, inl, inr, true, false, Option, none, some, List, [], ◌∷◌, arith,
  ◌==◌, contains, Bool-cases,
}
use rgb_std.Status.{WitnessStatus, genesis, archived, is_valid, quasi_height, IsCanonical}
use rgb_std.Seals.{RgbSeal, SealWitness}
use rgb_std.Pile.{Pile, PileLaws}
use rgb_std.Contract.Status.{
  reduce_pair, retrieve_best, statuses, witness_status, with_status, retrieve,
}
use rgb_std.Contract.Status.Pairs.{
  firsts, reduce_pair-reduce_best, AllKnown, PairsAre, Pairs, known-Pairs, height-reduce_pair,
  reduce_pair_lower, IsFrom, IsFrom-cons, reduce_pair_attained,
}

archived_beyond :
    (b st : WitnessStatus)
    → is_valid b ≡ false
    → IsCanonical st
    → quasi_height b ≤ quasi_height st
    → st ≡ archived
unfolding is_valid quasi_height
archived_beyond b st h c le = ground arith

module _ {S : RgbSeal} {P : Pile S} (laws : PileLaws P) where
  open laws use {IsValid, status_known, index_known, anchor_known}

  -- What `reduce` returns for a list that is not empty.
  pub record BestOf (s : P.Store) (ids : List ℕ) (b : WitnessStatus × ℕ) : Type 0 where
    from : IsFrom laws s ids b
    pub lower :
        (w : ℕ) (st : WitnessStatus)
        → contains ids w ≡ true
        → P.witness_status s w ≡ some st
        → quasi_height b.0 ≤ quasi_height st

  best_of :
      (s : P.Store) (w : ℕ) (ws : List ℕ) (b : WitnessStatus × ℕ) (l : List (WitnessStatus × ℕ))
      → PairsAre laws s (w ∷ ws) (b ∷ l)
      → BestOf s (w ∷ ws) (reduce_pair b l)
  best_of s w ws b l are = record {
    from = elim (reduce_pair_attained laws s b ws l are.2) [
      | inl same ↦ subst (IsFrom laws s (w ∷ ws)) (sym same) (ground arith, rw are.0 are.1)
      | inr later ↦ IsFrom-cons laws s w ws _ later
    ];
    lower = λ w' st m e. elim (Bool-cases (w == w')) [
      | inl hit ↦
          let same : b.0 ≡ st = ground arith in
          omega (arith, height-reduce_pair laws b l, ap quasi_height same)
      | inr miss ↦ reduce_pair_lower laws s b ws l are.2 w' st (ground arith) e
    ];
  }

  witness_status_of :
      (s : P.Store) (o : ℕ) (ids : List ℕ)
      → P.op_witness_ids s o ≡ ids
      → Pairs laws s ids
      → (st : WitnessStatus) × (witness_status P s o ≡ some st)
        × (((ids ≡ []) × (st ≡ genesis)) ⊎ ((w : ℕ) × BestOf s ids (st, w)))
  unfolding witness_status
  witness_status_of s o [] e ps = (genesis, rw (e, statuses) refl, inl (refl, refl))
  witness_status_of s o (w ∷ ws) e ps = go ps.pairs ps.are ps.statuses_eq
    where
      go :
          (l : List (WitnessStatus × ℕ))
          → PairsAre laws s (w ∷ ws) l
          → statuses P s (w ∷ ws) ≡ some (firsts l)
          → (st : WitnessStatus) × (witness_status P s o ≡ some st)
            × (((w ∷ ws ≡ []) × (st ≡ genesis)) ⊎ ((w' : ℕ) × BestOf s (w ∷ ws) (st, w')))
      go [] are eq = elim are [ ]
      go (b ∷ l) are eq = (
        (reduce_pair b l).0,
        rw (e, eq) (ap some (sym (reduce_pair-reduce_best b l))),
        inr ((reduce_pair b l).1, best_of s w ws b l are),
      )

  -- On a valid pile `witness_status` does not panic. It gives `Genesis` for an operation without
  -- witnesses, and otherwise the status of one of the operation's witnesses than which none of them
  -- is mined deeper.
  pub witness_status-BestOf :
      (s : P.Store) (o : ℕ)
      → IsValid s
      → (st : WitnessStatus) × (witness_status P s o ≡ some st)
        × (((P.op_witness_ids s o ≡ []) × (st ≡ genesis))
            ⊎ ((w : ℕ) × BestOf s (P.op_witness_ids s o) (st, w)))
  witness_status-BestOf s o v =
      witness_status_of s o (P.op_witness_ids s o) refl
        (known-Pairs laws s (P.op_witness_ids s o) v (λ w. index_known s o w v))

  -- What `retrieve` is to return for the witness ids of an operation.
  abbrev pub Retrieves : P.Store → List ℕ → Option (Option (SealWitness S)) → Type 0
  Retrieves s ids r =
      ((r ≡ some none)
        × ((w : ℕ) (st : WitnessStatus)
            → contains ids w ≡ true
            → P.witness_status s w ≡ some st
            → st ≡ archived))
      ⊎ ((b : WitnessStatus × ℕ) × (client : S.Client) × (published : S.Published) × BestOf s ids b
          × (is_valid b.0 ≡ true)
          × (P.cli_witness s b.1 ≡ some client)
          × (P.pub_witness s b.1 ≡ some published)
          × (r ≡ some (some (record { published = published; client = client }))))

  abbrev pub AllCanonical : P.Store → Type 0
  AllCanonical s = (w : ℕ) (st : WitnessStatus) → P.witness_status s w ≡ some st → IsCanonical st

  retrieve_best-Retrieves :
      (s : P.Store) (w : ℕ) (ws : List ℕ) (l : List (WitnessStatus × ℕ))
      → IsValid s
      → AllKnown laws s (w ∷ ws)
      → AllCanonical s
      → PairsAre laws s (w ∷ ws) l
      → Retrieves s (w ∷ ws) (retrieve_best P s l)
  retrieve_best-Retrieves s w ws [] v known canon are = elim are [ ]
  retrieve_best-Retrieves s w ws (b ∷ l) v known canon are =
      let chosen = best_of s w ws b l are in
      elim (Bool-cases (is_valid (reduce_pair b l).0)) [
        | inl good ↦
            let (client, published, c, p) =
              anchor_known s (reduce_pair b l).1 v (known _ chosen.from.0) in
            inr (reduce_pair b l, client, published, chosen, good, c, p, rw (good, c, p))
        | inr bad ↦
            inl (
              rw bad,
              λ w' st m e. archived_beyond _ st bad (canon w' st e) (chosen.lower w' st m e),
            )
      ]

  retrieve_of :
      (s : P.Store) (o : ℕ) (ids : List ℕ)
      → P.op_witness_ids s o ≡ ids
      → IsValid s
      → AllKnown laws s ids
      → AllCanonical s
      → Retrieves s ids (retrieve P s o)
  unfolding retrieve
  retrieve_of s o [] e v known canon = inl (rw (e, with_status), λ w st m e'. absurd (cc))
  retrieve_of s o (w ∷ ws) e v known canon =
      let ps = known-Pairs laws s (w ∷ ws) v known in
      rw (e, ps.with_status_eq) (retrieve_best-Retrieves s w ws ps.pairs v known canon ps.are)

  -- On a valid pile with canonical statuses `retrieve` does not panic. It returns no witness exactly
  -- if all witnesses of the operation are archived, and otherwise the two halves of a valid witness
  -- of the operation than which none of its witnesses is mined deeper.
  pub retrieve-Retrieves :
      (s : P.Store) (o : ℕ)
      → IsValid s
      → AllCanonical s
      → Retrieves s (P.op_witness_ids s o) (retrieve P s o)
  retrieve-Retrieves s o v canon =
      retrieve_of s o (P.op_witness_ids s o) refl v (λ w. index_known s o w v) canon
