-- ===== src/Contract/Status/Pairs.antt =====
-- The pairs of a status and a witness id over which `witness_status` and `retrieve` of src/contract.rs
-- reduce.
use mathlib.Core.Path.{subst}
use rgb_std.Base.{
  ℕ, ◌≤◌, ◌≡◌, refl, sym, ◌∙◌, ap, ◌⊎◌, inl, inr, true, some, List, [], ◌∷◌, arith, ◌==◌, contains,
  Bool-cases,
}
use rgb_std.Status.{WitnessStatus, best, is_better, quasi_height}
use rgb_std.Seals.{RgbSeal}
use rgb_std.Pile.{Pile, PileLaws}
use rgb_std.Contract.Status.{reduce_best, better_pair, reduce_pair, statuses, with_status}

height-better_pair :
    (a b : WitnessStatus × ℕ)
    → (quasi_height (better_pair a b).0 ≤ quasi_height a.0)
      × (quasi_height (better_pair a b).0 ≤ quasi_height b.0)
unfolding better_pair is_better
height-better_pair a b = ground arith

better_pair-cases : (a b : WitnessStatus × ℕ) → (better_pair a b ≡ a) ⊎ (better_pair a b ≡ b)
unfolding better_pair
better_pair-cases a b = elim (Bool-cases (is_better a.0 b.0)) [
  | inl e ↦ inl (rw (e, better_pair))
  | inr e ↦ inr (rw (e, better_pair))
]

better_pair-best : (a b : WitnessStatus × ℕ) → (better_pair a b).0 ≡ best a.0 b.0
unfolding better_pair best
better_pair-best a b = ground arith

abbrev pub firsts : List (WitnessStatus × ℕ) → List WitnessStatus
firsts [] = []
firsts ((st, w) ∷ l) = st ∷ firsts l

pub reduce_pair-reduce_best :
    (b : WitnessStatus × ℕ) (l : List (WitnessStatus × ℕ))
    → (reduce_pair b l).0 ≡ reduce_best b.0 (firsts l)
reduce_pair-reduce_best b [] = refl
reduce_pair-reduce_best b (other ∷ l) =
    reduce_pair-reduce_best (better_pair b other) l
    ∙ ap (λ st. reduce_best st (firsts l)) (better_pair-best b other)

module _ {S : RgbSeal} {P : Pile S} (laws : PileLaws P) where
  open laws use {IsValid, status_known, index_known, anchor_known}

  abbrev pub AllKnown : P.Store → List ℕ → Type 0
  AllKnown s ids = (w : ℕ) → contains ids w ≡ true → P.has_witness s w ≡ true

  -- The pairs that the iteration over the witness ids yields.
  abbrev pub PairsAre : P.Store → List ℕ → List (WitnessStatus × ℕ) → Type 0
  PairsAre s [] [] = Unit {0}
  PairsAre s (w ∷ ws) ((st, w') ∷ l) = (w' ≡ w) × (P.witness_status s w ≡ some st) × PairsAre s ws l
  PairsAre s _ _ = ⊥

  pub record Pairs (s : P.Store) (ids : List ℕ) : Type 0 where
    pub pairs : List (WitnessStatus × ℕ)
    pub are : PairsAre s ids pairs
    pub statuses_eq : statuses P s ids ≡ some (firsts pairs)
    pub with_status_eq : with_status P s ids ≡ some pairs

  pub known-Pairs : (s : P.Store) (ids : List ℕ) → IsValid s → AllKnown s ids → Pairs s ids
  unfolding statuses with_status
  known-Pairs s [] v h = record { pairs = []; are = tt; statuses_eq = refl; with_status_eq = refl }
  known-Pairs s (w ∷ ws) v h =
      let (st, e) = status_known s w v (h w (ground arith)) in
      let rest = known-Pairs s ws v (λ w' m. h w' (ground arith)) in
      record {
        pairs = (st, w) ∷ rest.pairs;
        are = (refl, e, rest.are);
        statuses_eq = rw (e, rest.statuses_eq);
        with_status_eq = rw (e, rest.with_status_eq);
      }

  pub height-reduce_pair :
      (b : WitnessStatus × ℕ) (l : List (WitnessStatus × ℕ))
      → quasi_height (reduce_pair b l).0 ≤ quasi_height b.0
  height-reduce_pair b [] = omega arith
  height-reduce_pair b (other ∷ l) =
      omega (arith, height-reduce_pair (better_pair b other) l, height-better_pair b other)

  -- No witness of the list is better than the chosen pair.
  pub reduce_pair_lower :
      (s : P.Store) (b : WitnessStatus × ℕ) (ids : List ℕ) (l : List (WitnessStatus × ℕ))
      → PairsAre s ids l
      → (w : ℕ) (st : WitnessStatus) → contains ids w ≡ true
      → P.witness_status s w ≡ some st
      → quasi_height (reduce_pair b l).0 ≤ quasi_height st
  reduce_pair_lower s b [] [] are w st m e = absurd (cc)
  reduce_pair_lower s b [] (x ∷ l) are w st m e = elim are [ ]
  reduce_pair_lower s b (w' ∷ ws) [] are w st m e = elim are [ ]
  reduce_pair_lower s b (w' ∷ ws) ((st', w'') ∷ l) are w st m e = elim (Bool-cases (w' == w)) [
    | inl hit ↦
        let same : st' ≡ st = ground arith in
        omega (
          arith,
          height-reduce_pair (better_pair b (st', w'')) l,
          height-better_pair b (st', w''),
          ap quasi_height same,
        )
    | inr miss ↦ reduce_pair_lower s (better_pair b (st', w'')) ws l are.2 w st (ground arith) e
  ]

  abbrev pub IsFrom : P.Store → List ℕ → WitnessStatus × ℕ → Type 0
  IsFrom s ids b = (contains ids b.1 ≡ true) × (P.witness_status s b.1 ≡ some b.0)

  pub IsFrom-cons :
      (s : P.Store) (w : ℕ) (ids : List ℕ) (b : WitnessStatus × ℕ)
      → IsFrom s ids b
      → IsFrom s (w ∷ ids) b
  IsFrom-cons s w ids b h = (ground arith, h.1)

  -- The chosen pair is the first one or comes from a witness of the list.
  pub reduce_pair_attained :
      (s : P.Store) (b : WitnessStatus × ℕ) (ids : List ℕ) (l : List (WitnessStatus × ℕ))
      → PairsAre s ids l
      → (reduce_pair b l ≡ b) ⊎ IsFrom s ids (reduce_pair b l)
  reduce_pair_attained s b [] [] are = inl refl
  reduce_pair_attained s b [] (x ∷ l) are = elim are [ ]
  reduce_pair_attained s b (w' ∷ ws) [] are = elim are [ ]
  reduce_pair_attained s b (w ∷ ws) ((st, w') ∷ l) are =
      elim (reduce_pair_attained s (better_pair b (st, w')) ws l are.2) [
        | inr later ↦ inr (IsFrom-cons s w ws _ later)
        | inl same ↦ elim (better_pair-cases b (st, w')) [
          | inl old ↦ inl (same ∙ old)
          | inr new ↦
              inr (subst (IsFrom s (w ∷ ws)) (sym (same ∙ new)) (ground arith, rw are.0 are.1))
        ]
      ]
