-- ===== src/Contracts/Named.antt =====
-- What `find_contract_id` of src/contracts.rs finds by a name.
use mathlib.Core.Path.{subst}
use rgb_std.Base.{
  ℕ, ◌≡◌, refl, sym, ap, ◌∙◌, ◌⊎◌, inl, inr, Bool, true, false, Option, none, some, List, [], ◌∷◌,
  arith, Bool-cases, Option-cases,
}
use rgb_std.Seals.{RgbSeal}
use rgb_std.Pile.{Pile}
use rgb_std.Ledger.{Ledger}
use rgb_std.Wire.{Wire}
use rgb_std.Contract.{Contract}
use rgb_std.Stockpile.{Stockpile}
use rgb_std.Contracts.{Contracts}
use rgb_std.Contracts.Queries.{find, filter_map, is_named, by_name, find_contract_id}

module _ {A : Type 0} where
  abbrev pub Among : A → List A → Type 0
  Among a [] = ⊥
  Among a (b ∷ l) = (a ≡ b) ⊎ Among a l

  find-Among : (p : A → Bool) (l : List A) (a : A) → find p l ≡ some a → Among a l × (p a ≡ true)
  find-Among p [] a e = absurd (cc)
  find-Among p (b ∷ l) a e = elim (Bool-cases (p b)) [
    | inl hit ↦ let same : b ≡ a = ground arith in (inl (sym same), ap p (sym same) ∙ hit)
    | inr miss ↦
        let rest : find p l ≡ some a = ground arith in
        let (m, h) = find-Among p l a rest in (inr m, h)
  ]

  find-none : (p : A → Bool) (l : List A) (a : A) → find p l ≡ none → Among a l → p a ≡ false
  find-none p [] a e m = elim m [ ]
  find-none p (b ∷ l) a e m = elim (Bool-cases (p b)) [
    | inl hit ↦ absurd (ground (arith, hit, e))
    | inr miss ↦ elim m [
      | inl same ↦ ap p same ∙ miss
      | inr later ↦ let rest : find p l ≡ none = ground arith in find-none p l a rest later
    ]
  ]

module _ {A B : Type 0} where
  filter_map-Among :
      (f : A → Option B) (l : List A) (b : B)
      → Among b (filter_map f l)
      → (a : A) × Among a l × (f a ≡ some b)
  filter_map-Among f [] b m = elim m [ ]
  filter_map-Among f (a ∷ l) b m = elim (Option-cases (f a)) [
    | inl e ↦
        let later : Among b (filter_map f l) = rw (e, filter_map) at m in
        let (a', m', e') = filter_map-Among f l b later in (a', inr m', e')
    | inr (b', e) ↦
        let here : Among b (b' ∷ filter_map f l) = rw (e, filter_map) at m in
        elim here [
          | inl same ↦ (a, inl refl, e ∙ ap some (sym same))
          | inr later ↦ let (a', m', e') = filter_map-Among f l b later in (a', inr m', e')
        ]
  ]

  Among-filter_map :
      (f : A → Option B) (l : List A) (a : A) (b : B)
      → Among a l
      → f a ≡ some b
      → Among b (filter_map f l)
  Among-filter_map f [] a b m e = elim m [ ]
  Among-filter_map f (a' ∷ l) a b m e = elim m [
    | inl same ↦ let here : f a' ≡ some b = ap f (sym same) ∙ e in rw (here, filter_map) (inl refl)
    | inr later ↦
        let rest = Among-filter_map f l a b later e in
        elim (Option-cases (f a')) [
          | inl none_here ↦ rw (none_here, filter_map) rest
          | inr (b', here) ↦ rw (here, filter_map) (inr rest)
        ]
  ]

module _ {S : RgbSeal} {P : Pile S} {L : Ledger} {W : Wire S} (Sp : Stockpile P L W) where
  -- A contract with this name that is in memory under the id, or that the stockpile stores under a
  -- listed id and that has the id.
  abbrev pub HasName : Contracts Sp → ℕ → ℕ → Type 0
  HasName cs n id =
      ((c : Contract P L) × Among (id, c) cs.contracts × (is_named Sp n c ≡ true))
      ⊎ ((j : ℕ) × (c : Contract P L) × Among j (Sp.contract_ids cs.persistence)
          × (Sp.contract cs.persistence j ≡ some c)
          × (is_named Sp n c ≡ true)
          × (c.contract_id ≡ id))

  -- Looking for a name finds the id of a contract that has the name, in memory or in the stockpile,
  -- and finds nothing only if no contract in memory and no listed contract of the stockpile has it.
  find_contract_id-HasName :
      (cs : Contracts Sp) (n : ℕ)
      → ((id : ℕ) → find_contract_id Sp cs (by_name n) ≡ some id → HasName cs n id)
        × (find_contract_id Sp cs (by_name n) ≡ none
            → ((id : ℕ) (c : Contract P L) → Among (id, c) cs.contracts → is_named Sp n c ≡ false)
              × ((j : ℕ) (c : Contract P L)
                  → Among j (Sp.contract_ids cs.persistence)
                  → Sp.contract cs.persistence j ≡ some c
                  → is_named Sp n c ≡ false))
  unfolding find_contract_id
  find_contract_id-HasName cs n =
      let named = λ (entry : ℕ × Contract P L). is_named Sp n entry.1 in
      let stored = filter_map (Sp.contract cs.persistence) (Sp.contract_ids cs.persistence) in
      elim (Option-cases (find named cs.contracts)) [
        | inr ((id', c), hit) ↦ (
          λ id e.
              let same : id' ≡ id = ground (arith, hit, e) in
              let (m, h) = find-Among named cs.contracts (id', c) hit in
              inl (c, subst (λ i. Among (i, c) cs.contracts) same m, h),
          λ e. absurd (ground (arith, hit, e)),
        )
        | inl miss ↦ elim (Option-cases (find (is_named Sp n) stored)) [
          | inr (c, hit) ↦ (
            λ id e.
                let same : c.contract_id ≡ id = ground (arith, miss, hit, e) in
                let (m, h) = find-Among (is_named Sp n) stored c hit in
                let (j, listed, e') =
                  filter_map-Among (Sp.contract cs.persistence) (Sp.contract_ids cs.persistence) c
                    m in
                inr (j, c, listed, e', h, same),
            λ e. absurd (ground (arith, miss, hit, e)),
          )
          | inl unknown ↦ (
            λ id e. absurd (ground (arith, miss, unknown, e)),
            λ e. (
              λ id c m. find-none named cs.contracts (id, c) miss m,
              λ j c listed e'. find-none (is_named Sp n) stored c unknown (
                  Among-filter_map (Sp.contract cs.persistence) (Sp.contract_ids cs.persistence) j c
                    listed e'),
            ),
          )
        ]
      ]
