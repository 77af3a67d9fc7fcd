-- ===== src/Contracts/WitnessIds.antt =====
-- Which ids `witness_ids` of src/contracts.rs iterates over.
use mathlib.Core.Path.{subst}
use rgb_std.Base.{
  ℕ, ◌≡◌, refl, sym, ap, ◌∙◌, ◌⊎◌, inl, inr, Bool, true, false, none, some, List, [], ◌∷◌, ◌++◌,
  ◌>>=◌, arith, Bool-cases, Option-cases,
}
use rgb_std.Seals.{RgbSeal, Witness}
use rgb_std.Pile.{Pile}
use rgb_std.Ledger.{Ledger}
use rgb_std.Wire.{Wire}
use rgb_std.Contract.{Contract}
use rgb_std.Stockpile.{Stockpile}
use rgb_std.Contracts.{Contracts, with_contract}
use rgb_std.Contracts.Queries.{filter_ids, witness_ids_of, witness_ids}
use rgb_std.Contracts.View.{current, with_contract_lem}
use rgb_std.Contracts.Reads.{SameView}
use rgb_std.Contracts.Named.{Among}

module _ {A : Type 0} where
  Among-append :
      (a : A) (l m : List A)
      → (Among a (l ++ m) → Among a l ⊎ Among a m) × (Among a l ⊎ Among a m → Among a (l ++ m))
  Among-append a [] m = (inr, λ h. elim h [ inl no_one ↦ absurd no_one | inr there ↦ there ])
  Among-append a (b ∷ l) m =
      let (apart, joined) = Among-append a l m in
      (
        λ h. elim h [
          | inl same ↦ inl (inl same)
          | inr later ↦ elim (apart later) [ inl left ↦ inl (inr left) | inr right ↦ inr right ]
        ],
        λ h. elim h [
          | inl left ↦ elim left [ inl same ↦ inl same | inr later ↦ inr (joined (inl later)) ]
          | inr right ↦ inr (joined (inr right))
        ],
      )

module _ {S : RgbSeal} {P : Pile S} {L : Ledger} {W : Wire S} (Sp : Stockpile P L W)
    (predicate : Witness S → Bool) where
  abbrev Chosen : List (Witness S) → ℕ → Type 0
  Chosen ws wid = (w : Witness S) × Among w ws × (predicate w ≡ true) × (w.id ≡ wid)

  first_kept :
      (w : Witness S) (ws : List (Witness S)) (wid : ℕ)
      → Chosen (w ∷ ws) wid
      → (Chosen ws wid → Among wid (filter_ids Sp predicate ws))
      → Among wid (w.id ∷ filter_ids Sp predicate ws)
  first_kept w ws wid (x, inl same, p, i) back = inl (sym i ∙ ap (λ (v : Witness S). v.id) same)
  first_kept w ws wid (x, inr m, p, i) back = inr (back (x, m, p, i))

  first_dropped :
      (w : Witness S) (ws : List (Witness S)) (wid : ℕ)
      → predicate w ≡ false
      → Chosen (w ∷ ws) wid
      → Chosen ws wid
  first_dropped w ws wid dropped (x, inl same, p, i) =
      absurd (ground (arith, sym p ∙ ap predicate same ∙ dropped))
  first_dropped w ws wid dropped (x, inr m, p, i) = (x, m, p, i)

  filter_ids-Chosen :
      (ws : List (Witness S)) (wid : ℕ)
      → (Among wid (filter_ids Sp predicate ws) → Chosen ws wid)
        × (Chosen ws wid → Among wid (filter_ids Sp predicate ws))
  filter_ids-Chosen [] wid = (λ h. absurd h, λ h. absurd h.1)
  filter_ids-Chosen (w ∷ ws) wid =
      let (out, back) = filter_ids-Chosen ws wid in
      elim (Bool-cases (predicate w)) [
        | inl kept ↦ rw kept (
          λ h. elim h [
            | inl same ↦ (w, inl refl, kept, sym same)
            | inr later ↦ let (x, m, p, i) = out later in (x, inr m, p, i)
          ],
          λ h. first_kept w ws wid h back,
        )
        | inr dropped ↦ rw dropped (
          λ h. let (x, m, p, i) = out h in (x, inr m, p, i),
          λ h. back (first_dropped w ws wid dropped h),
        )
      ]

  -- A witness of a contract under one of the ids.
  abbrev pub HasWitness : Contracts Sp → List ℕ → ℕ → Type 0
  HasWitness cs ids wid =
      (id : ℕ) × (c : Contract P L) × (ws : List (Witness S)) × Among id ids
      × (current Sp cs id ≡ some c)
      × (P.witnesses c.pile ≡ some ws)
      × Chosen ws wid

  abbrev pub AllRead : Contracts Sp → List ℕ → Type 0
  AllRead cs ids =
      (id : ℕ) (c : Contract P L)
      → Among id ids
      → current Sp cs id ≡ some c
      → (ws : List (Witness S)) × (P.witnesses c.pile ≡ some ws)

  abbrev Found : Contracts Sp → List ℕ → Type 0
  Found cs ids =
      (found : List ℕ) × (cs' : Contracts Sp) × (witness_ids_of Sp cs predicate ids
        ≡ some (found, cs'))
      × SameView Sp cs cs'
      × ((wid : ℕ) → Among wid found → HasWitness cs ids wid)
      × ((wid : ℕ) → HasWitness cs ids wid → Among wid found)

  at_first :
      (cs : Contracts Sp) (id : ℕ) (ids : List ℕ) (wid : ℕ)
      → HasWitness cs (id ∷ []) wid
      → HasWitness cs (id ∷ ids) wid
  at_first cs id ids wid (i, c, ws, inl first, at, read, h) = (i, c, ws, inl first, at, read, h)
  at_first cs id ids wid (i, c, ws, inr no_one, at, read, h) = absurd no_one

  -- The ids of one contract, before those of the others.
  joined_ids :
      (cs cs1 : Contracts Sp) (id : ℕ) (ids here : List ℕ)
      → with_contract Sp cs id
          (λ contract. P.witnesses contract.pile >>= λ ws. some (filter_ids Sp predicate ws))
          (some [])
        ≡ some (here, cs1)
      → SameView Sp cs cs1
      → ((wid : ℕ) → Among wid here → HasWitness cs (id ∷ []) wid)
      → ((wid : ℕ) → HasWitness cs (id ∷ []) wid → Among wid here)
      → Found cs1 ids
      → Found cs (id ∷ ids)
  unfolding witness_ids_of
  joined_ids cs cs1 id ids here e (p, same) from into (found, cs', e', (p', same'), froms, intos) =
      (
        here ++ found,
        cs',
        rw (e, ◌>>=◌, e') refl,
        (p' ∙ p, λ j. same' j ∙ same j),
        λ wid h. elim ((Among-append wid here found).0 h) [
          | inl left ↦ at_first cs id ids wid (from wid left)
          | inr right ↦
              let (i, c, ws, m, at, read, h) = froms wid right in
              (i, c, ws, inr m, sym (same i) ∙ at, read, h)
        ],
        λ wid h. (Among-append wid here found).1 (split wid h),
      )
    where
      split : (wid : ℕ) → HasWitness cs (id ∷ ids) wid → Among wid here ⊎ Among wid found
      split wid (i, c, ws, inl first, at, read, h) =
          inl (into wid (i, c, ws, inl first, at, read, h))
      split wid (i, c, ws, inr m, at, read, h) = inr (intos wid (i, c, ws, m, same i ∙ at, read, h))

  -- Under an unknown id there is no witness, and under that of a contract there are its own.
  unknown_none :
      (cs : Contracts Sp) (id wid : ℕ) → current Sp cs id ≡ none → HasWitness cs (id ∷ []) wid → ⊥
  unknown_none cs id wid unknown (i, c, ws, inl first, at, read, h) =
      absurd (ground (arith, unknown, sym (ap (current Sp cs) first) ∙ at))
  unknown_none cs id wid unknown (i, c, ws, inr no_one, at, read, h) = no_one

  own_witness :
      (cs : Contracts Sp) (id wid : ℕ) (c : Contract P L) (ws : List (Witness S))
      → current Sp cs id ≡ some c
      → P.witnesses c.pile ≡ some ws
      → HasWitness cs (id ∷ []) wid
      → Chosen ws wid
  own_witness cs id wid c ws here read (i, c', ws', inl first, at, read', chosen) =
      let same_contract : c' ≡ c = ground (arith, here, sym (ap (current Sp cs) first) ∙ at) in
      let same : ws' ≡ ws =
        ground (
          arith,
          read,
          ap (λ (k : Contract P L). P.witnesses k.pile) (sym same_contract) ∙ read',
        ) in
      subst (λ l. Chosen l wid) same chosen
  own_witness cs id wid c ws here read (i, c', ws', inr no_one, at, read', chosen) = absurd no_one

  witness_ids_of-Found : (cs : Contracts Sp) (ids : List ℕ) → AllRead cs ids → Found cs ids
  witness_ids_of-Found cs [] all = (
    [],
    cs,
    unfold witness_ids_of in refl,
    (refl, λ j. refl),
    λ wid h. absurd h,
    λ wid h. absurd h.3,
  )
  witness_ids_of-Found cs (id ∷ ids) all =
      let f = λ (contract : Contract P L).
        P.witnesses contract.pile >>= λ ws. some (filter_ids Sp predicate ws) in
      let lem = with_contract_lem Sp cs id f (some []) in
      elim (Option-cases (current Sp cs id)) [
        | inl unknown ↦
            joined_ids cs cs id ids [] (lem.2 unknown) (refl, λ j. refl) (λ wid h. absurd h)
              (λ wid h. absurd (unknown_none cs id wid unknown h))
              (witness_ids_of-Found cs ids (λ i c m at. all i c (inr m) at))
        | inr (c, here) ↦
            let (ws, read) = all id c (inl refl) here in
            let (cs1, e, p, same) = lem.0 c (filter_ids Sp predicate ws) here (rw read refl) in
            joined_ids cs cs1 id ids (filter_ids Sp predicate ws) e (p, same)
              (λ wid h. (id, c, ws, inl refl, here, read, (filter_ids-Chosen ws wid).0 h))
              (λ wid h. (filter_ids-Chosen ws wid).1 (own_witness cs id wid c ws here read h))
              (witness_ids_of-Found cs1 ids (λ i k m at. all i k (inr m) (sym (same i) ∙ at)))
      ]

  -- Where the witnesses of every listed contract can be read, `witness_ids` returns, changes
  -- neither the stockpile nor the current contract of any id, and gives exactly the ids of those
  -- witnesses of the current contracts under listed ids that satisfy the predicate.
  pub witness_ids_lem :
      (cs : Contracts Sp)
      → AllRead cs (Sp.contract_ids cs.persistence)
      → (found : List ℕ) × (cs' : Contracts Sp) × (witness_ids Sp cs predicate ≡ some (found, cs'))
        × SameView Sp cs cs'
        × ((wid : ℕ) → Among wid found → HasWitness cs (Sp.contract_ids cs.persistence) wid)
        × ((wid : ℕ) → HasWitness cs (Sp.contract_ids cs.persistence) wid → Among wid found)
  unfolding witness_ids
  witness_ids_lem cs all = witness_ids_of-Found cs (Sp.contract_ids cs.persistence) all
