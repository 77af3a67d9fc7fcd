-- ===== src/Contracts/Issuers.antt =====
-- The issuers of src/contracts.rs, by way of their cache, and issuing by a checked layer.
use rgb_std.Base.{
  ℕ, ◌≡◌, refl, inl, inr, Bool, true, false, Option, some, arith, ◌==◌, ==_iff, ==_refl, lookup,
  insert, lookup-insert, or_else, Option-cases, ok, err,
}
use rgb_std.Base.Results.{in_a}
use rgb_std.Seals.{RgbSeal}
use rgb_std.Pile.{Pile}
use rgb_std.Ledger.{Ledger}
use rgb_std.Wire.{Wire}
use rgb_std.Contract.{Contract}
use rgb_std.Contract.Sync.{same_bool}
use rgb_std.Errors.{consensus_mismatch, testnet_mismatch, mainnet_mismatch}
use rgb_std.Stockpile.{Stockpile}
use rgb_std.Contracts.{Contracts, issuer, check_layer1, issue}
use rgb_std.Contracts.View.{current}

same_bool_refl : (b : Bool) → same_bool b b ≡ true
same_bool_refl true = refl
same_bool_refl false = refl

module _ {S : RgbSeal} {P : Pile S} {L : Ledger} {W : Wire S} (Sp : Stockpile P L W) where
  -- The issuer of a codex: the one in memory, or else the stored one.
  abbrev pub current_issuer : Contracts Sp → ℕ → Option Sp.Issuer
  current_issuer cs id = or_else (lookup id cs.issuers) (Sp.issuer cs.persistence id)

  -- `issuer` returns the current issuer of the codex, and changes neither the stockpile nor the
  -- contracts nor the current issuer of any codex.
  pub issuer_lem :
      (cs : Contracts Sp) (id : ℕ)
      → ((issuer Sp cs id).0 ≡ current_issuer cs id)
        × ((issuer Sp cs id).1.persistence ≡ cs.persistence)
        × ((issuer Sp cs id).1.contracts ≡ cs.contracts)
        × ((j : ℕ) → current_issuer (issuer Sp cs id).1 j ≡ current_issuer cs j)
  unfolding issuer
  issuer_lem cs id = elim (Option-cases (lookup id cs.issuers)) [
    | inr (i, hit) ↦ rw (hit, issuer) (refl, refl, refl, λ j. refl)
    | inl miss ↦ elim (Option-cases (Sp.issuer cs.persistence id)) [
      | inl unknown ↦ rw (miss, issuer, unknown) (refl, refl, refl, λ j. refl)
      | inr (i, stored) ↦
          rw (miss, issuer, stored)
            (
              ground (arith, lookup-insert id id i cs.issuers, ==_refl id),
              refl,
              refl,
              λ j. ground (arith, lookup-insert id j i cs.issuers, ==_iff id j, miss, stored),
            )
    ]
  ]

  -- Parameters of another layer than that of the stockpile are refused without a change, with the
  -- error that names the difference; otherwise an issued contract becomes the current one of its id,
  -- and what is in memory under every other id stays.
  issue_lem :
      (cs : Contracts Sp) (params : Sp.CreateParams)
      → ((Sp.params_consensus params == Sp.consensus cs.persistence) ≡ false
          → issue Sp cs params ≡ some (cs, err (in_a consensus_mismatch)))
        × ((Sp.params_consensus params == Sp.consensus cs.persistence) ≡ true
            → Sp.params_testnet params ≡ true
            → Sp.is_testnet cs.persistence ≡ false
            → issue Sp cs params ≡ some (cs, err (in_a testnet_mismatch)))
        × ((Sp.params_consensus params == Sp.consensus cs.persistence) ≡ true
            → Sp.params_testnet params ≡ false
            → Sp.is_testnet cs.persistence ≡ true
            → issue Sp cs params ≡ some (cs, err (in_a mainnet_mismatch)))
        × ((store : Sp.Store) (c : Contract P L)
            → (Sp.params_consensus params == Sp.consensus cs.persistence) ≡ true
            → Sp.params_testnet params ≡ Sp.is_testnet cs.persistence
            → Sp.issue cs.persistence params ≡ some (store, ok c)
            → (cs' : Contracts Sp) × (issue Sp cs params ≡ some (cs', ok c.contract_id))
              × (current Sp cs' c.contract_id ≡ some c)
              × (cs'.persistence ≡ store)
              × ((j : ℕ)
                  → (c.contract_id == j) ≡ false
                  → lookup j cs'.contracts ≡ lookup j cs.contracts))
  unfolding issue check_layer1 current
  issue_lem cs params = (
    λ differ. rw (differ, issue),
    λ same t m. rw (same, issue, t, m),
    λ same t m. rw (same, issue, t, m),
    λ store c same t i. (
      record cs { persistence = store; contracts = insert c.contract_id c cs.contracts },
      rw (same, issue, t, same_bool_refl (Sp.is_testnet cs.persistence), i),
      ground
          (arith, lookup-insert c.contract_id c.contract_id c cs.contracts, ==_refl c.contract_id),
      refl,
      λ j other. ground (arith, lookup-insert c.contract_id j c cs.contracts, other),
    ),
  )
