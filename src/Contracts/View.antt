-- ===== src/Contracts/View.antt =====
-- The cache of src/contracts.rs does not show: what a contract is, whether in memory or in the
-- stockpile only.
use rgb_std.Base.{
  ℕ, ◌≡◌, refl, sym, ap, ◌∙◌, inl, inr, Option, none, some, arith, ◌==◌, ==_iff, if◌then◌else◌,
  ◌>>=◌, lookup, insert, lookup-insert, or_else, Option-cases,
}
use rgb_std.Seals.{RgbSeal}
use rgb_std.Pile.{Pile}
use rgb_std.Ledger.{Ledger}
use rgb_std.Wire.{Wire}
use rgb_std.Contract.{Contract}
use rgb_std.Stockpile.{Stockpile}
use rgb_std.Contracts.{Contracts, with_contract, with_contract_mut}

module _ {S : RgbSeal} {P : Pile S} {L : Ledger} {W : Wire S} (Sp : Stockpile P L W) where
  -- The contract of an id: the one in memory, or else the stored one.
  unfoldable pub current : Contracts Sp → ℕ → Option (Contract P L)
  current cs id = or_else (lookup id cs.contracts) (Sp.contract cs.persistence id)

  -- Where there is a contract and `f` does not panic on it, `with_contract` returns what `f` returns
  -- and leaves the stockpile and the current contract of every id as they were; where there is a
  -- contract and `f` panics, it panics; where there is none it returns `or` and changes nothing, and
  -- panics if `or` is not given.
  pub with_contract_lem :
      {R : Type 0} (cs : Contracts Sp) (id : ℕ) (f : Contract P L → Option R) (or : Option R)
      → ((c : Contract P L) (res : R)
          → current cs id ≡ some c
          → f c ≡ some res
          → (cs' : Contracts Sp) × (with_contract Sp cs id f or ≡ some (res, cs'))
            × (cs'.persistence ≡ cs.persistence)
            × ((j : ℕ) → current cs' j ≡ current cs j))
        × ((c : Contract P L)
            → current cs id ≡ some c
            → f c ≡ none
            → with_contract Sp cs id f or ≡ none)
        × (current cs id ≡ none → with_contract Sp cs id f or ≡ (or >>= λ res. some (res, cs)))
  unfolding with_contract current
  with_contract_lem cs id f or = elim (Option-cases (lookup id cs.contracts)) [
    | inr (c, hit) ↦ (
      λ c1 res e e'.
          let same : c ≡ c1 = ground (arith, hit, e) in
          (cs, rw (hit, with_contract, same, e'), refl, λ j. refl),
      λ c1 e e'. let same : c ≡ c1 = ground (arith, hit, e) in rw (hit, with_contract, same, e'),
      λ none_here. absurd (ground (arith, hit)),
    )
    | inl miss ↦ (
      λ c res e e'.
          let stored : Sp.contract cs.persistence id ≡ some c = ground (arith, miss, e) in
          (
            record cs { contracts = insert id c cs.contracts },
            rw (miss, stored, with_contract, e'),
            refl,
            λ j. ground (arith, lookup-insert id j c cs.contracts, ==_iff id j, miss, stored),
          ),
      λ c e e'.
          let stored : Sp.contract cs.persistence id ≡ some c = ground (arith, miss, e) in
          rw (miss, stored, with_contract, e'),
      λ none_here.
          let unknown : Sp.contract cs.persistence id ≡ none = ground (arith, miss, none_here) in
          rw (miss, unknown, with_contract),
    )
  ]

  -- Where there is a contract and `f` does not panic on it, `with_contract_mut` returns what `f`
  -- returns, makes the changed contract the current one of its id, and leaves the stockpile and all
  -- other current contracts as they were; where there is none, or `f` panics, it panics.
  pub with_contract_mut_lem :
      {R : Type 0} (cs : Contracts Sp) (id : ℕ) (f : Contract P L → Option (Contract P L × R))
      → (current cs id ≡ none → with_contract_mut Sp cs id f ≡ none)
        × ((c c' : Contract P L) (res : R)
            → current cs id ≡ some c
            → f c ≡ some (c', res)
            → (cs' : Contracts Sp) × (with_contract_mut Sp cs id f ≡ some (cs', res))
              × (cs'.persistence ≡ cs.persistence)
              × ((j : ℕ) → current cs' j ≡ (if id == j then some c' else current cs j)))
        × ((c : Contract P L)
            → current cs id ≡ some c
            → f c ≡ none
            → with_contract_mut Sp cs id f ≡ none)
  unfolding with_contract_mut current
  with_contract_mut_lem cs id f = elim (Option-cases (lookup id cs.contracts)) [
    | inr (c, hit) ↦ (
      λ none_here. absurd (ground (arith, hit)),
      λ c1 c' res e e'.
          let same : c ≡ c1 = ground (arith, hit, e) in
          (
            record cs { contracts = insert id c' cs.contracts },
            rw (hit, with_contract_mut, same, e'),
            refl,
            λ j. ground (arith, lookup-insert id j c' cs.contracts),
          ),
      λ c1 e e'.
          let same : c ≡ c1 = ground (arith, hit, e) in rw (hit, with_contract_mut, same, e'),
    )
    | inl miss ↦ (
      λ none_here. ground (arith, miss, none_here),
      λ c c' res e e'.
          let stored : Sp.contract cs.persistence id ≡ some c = ground (arith, miss, e) in
          (
            record cs { contracts = insert id c' cs.contracts },
            rw (miss, stored, with_contract_mut, e'),
            refl,
            λ j. ground (arith, lookup-insert id j c' cs.contracts),
          ),
      λ c e e'.
          let stored : Sp.contract cs.persistence id ≡ some c = ground (arith, miss, e) in
          rw (miss, stored, with_contract_mut, e'),
    )
  ]

  -- The same from its result.
  pub with_contract_mut-current :
      {R : Type 0} (cs cs' : Contracts Sp) (id : ℕ) (f : Contract P L → Option (Contract P L × R))
      (res : R)
      → with_contract_mut Sp cs id f ≡ some (cs', res)
      → (c c' : Contract P L) × (current cs id ≡ some c)
        × (f c ≡ some (c', res))
        × (cs'.persistence ≡ cs.persistence)
        × ((j : ℕ) → current cs' j ≡ (if id == j then some c' else current cs j))
  with_contract_mut-current {R = R} cs cs' id f res e =
      let laws = with_contract_mut_lem cs id f in
      elim (Option-cases (current cs id)) [
        | inl unknown ↦ absurd (ground (arith, laws.0 unknown, e))
        | inr (c, known) ↦ elim (Option-cases (f c)) [
          | inl panics ↦ absurd (ground (arith, laws.2 c known panics, e))
          | inr ((c', r), done) ↦
              let (cs1, e1, persisted, view) = laws.1 c c' r known done in
              let same : ◌≡◌ {A = Contracts Sp × R} (cs1, r) (cs', res) = ground (arith, e1, e) in
              let same_cs : cs1 ≡ cs' = ap (λ k. k.0) same in
              (
                c,
                c',
                known,
                done ∙ ap (λ k. some (c', k.1)) same,
                ap (λ k. k.persistence) (sym same_cs) ∙ persisted,
                λ j. ap (λ k. current k j) (sym same_cs) ∙ view j,
              )
        ]
      ]
