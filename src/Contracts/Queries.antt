-- ===== src/Contracts/Queries.antt =====
-- `find_contract_id` and `witness_ids` of src/contracts.rs.
use rgb_std.Base.{ℕ, Bool, Option, none, some, List, [], ◌∷◌, ◌++◌, ◌==◌, if◌then◌else◌, ◌>>=◌}
use rgb_std.Seals.{RgbSeal, Witness}
use rgb_std.Pile.{Pile}
use rgb_std.Ledger.{Ledger}
use rgb_std.Wire.{Wire}
use rgb_std.Contract.{Contract}
use rgb_std.Stockpile.{Stockpile}
use rgb_std.Contracts.{Contracts, has_contract, with_contract}

-- `ContractRef` of src/util.rs.
pub data ContractRef : Type 0 where
  by_id : ℕ → ContractRef
  by_name : ℕ → ContractRef

-- `find` on an iterator.
abbrev pub find {ℓ} : {A : Type ℓ} → (A → Bool) → List A → Option A
find p [] = none
find p (a ∷ xs) = if p a then some a else find p xs

-- `filter_map`.
abbrev pub filter_map {ℓ κ} : {A : Type ℓ} {B : Type κ} → (A → Option B) → List A → List B
filter_map f [] = []
filter_map f (a ∷ xs) = elim (f a) [ none ↦ filter_map f xs | some b ↦ b ∷ filter_map f xs ]

module _ {S : RgbSeal} {P : Pile S} {L : Ledger} {W : Wire S} (Sp : Stockpile P L W) where
  abbrev pub is_named : ℕ → Contract P L → Bool
  is_named name contract = L.name (L.articles contract.ledger) == name

  -- A name is looked for in memory first.
  unfoldable pub find_contract_id : Contracts Sp → ContractRef → Option ℕ
  unfolding has_contract
  find_contract_id cs (by_id i) = if has_contract Sp cs i then some i else none
  find_contract_id cs (by_name n) =
      elim (find (λ (entry : ℕ × Contract P L). is_named n entry.1) cs.contracts) [
        | some entry ↦ some entry.0
        | none ↦
            find (is_named n)
              (filter_map (Sp.contract cs.persistence) (Sp.contract_ids cs.persistence))
            >>= λ contract. some contract.contract_id
      ]

  -- The ids of the witnesses that satisfy the predicate.
  abbrev pub filter_ids : (Witness S → Bool) → List (Witness S) → List ℕ
  filter_ids predicate [] = []
  filter_ids predicate (w ∷ ws) =
      if predicate w then w.id ∷ filter_ids predicate ws else filter_ids predicate ws

  unfoldable pub witness_ids_of :
      Contracts Sp → (Witness S → Bool) → List ℕ → Option (List ℕ × Contracts Sp)
  witness_ids_of cs predicate [] = some ([], cs)
  witness_ids_of cs predicate (id ∷ ids) = do
    found ←
        with_contract Sp cs id
          (λ contract. P.witnesses contract.pile >>= λ ws. some (filter_ids predicate ws)) (some [])
    rest ← witness_ids_of found.1 predicate ids
    some (found.0 ++ rest.0, rest.1)

  unfoldable pub witness_ids : Contracts Sp → (Witness S → Bool) → Option (List ℕ × Contracts Sp)
  unfolding witness_ids_of
  witness_ids cs predicate = witness_ids_of cs predicate (Sp.contract_ids cs.persistence)
