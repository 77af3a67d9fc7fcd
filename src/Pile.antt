-- ===== src/Pile.antt =====
-- The trait `Pile` of src/pile.rs: the witnesses and the seal definitions of a contract, as an
-- interface. `none` is a panic. `PileLaws` is what the rest of the code relies on.
use rgb_std.Base.{
  ℕ, Bool, true, false, ◌≡◌, ◌⊎◌, ◌&&◌, ◌||◌, Option, some, or_else, List, contains, ◌==◌,
  if◌then◌else◌,
}
use rgb_std.Status.{WitnessStatus}
use rgb_std.Seals.{RgbSeal, CellAddr, Witness, OpRels}

pub record Pile (S : RgbSeal) : Type 1 where
  pub Store : Type 0
  pub pub_witness : Store → ℕ → Option S.Published
  pub has_witness : Store → ℕ → Bool
  pub cli_witness : Store → ℕ → Option S.Client
  pub witness_status : Store → ℕ → Option WitnessStatus
  pub witness_ids : Store → List ℕ
  pub witnesses : Store → Option (List (Witness S))
  pub op_witness_ids : Store → ℕ → List ℕ
  pub ops_by_witness_id : Store → ℕ → List ℕ
  pub seal : Store → CellAddr → Option S.Definition
  pub seals : Store → ℕ → ℕ → List (ℕ × S.Definition)
  pub op_relations : Store → ℕ → ℕ → OpRels S
  pub add_witness : Store → ℕ → ℕ → S.Published → S.Client → WitnessStatus → Option Store
  pub add_seals : Store → ℕ → List (ℕ × S.Definition) → Option Store
  pub update_witness_status : Store → ℕ → WitnessStatus → Option Store
  pub commit_transaction : Store → Store

module _ {S : RgbSeal} (P : Pile S) where
  -- The same witnesses, linked to the same operations, with the same seals.
  pub record SameLinks (s t : P.Store) : Type 0 where
    pub same_witness : (w : ℕ) → P.has_witness t w ≡ P.has_witness s w
    pub same_index : (o : ℕ) → P.op_witness_ids t o ≡ P.op_witness_ids s o
    pub same_stand : (w : ℕ) → P.ops_by_witness_id t w ≡ P.ops_by_witness_id s w
    pub same_seal : (a : CellAddr) → P.seal t a ≡ P.seal s a

  -- The store `t` after the operation `o` was linked to the witness `w`.
  pub record Added (s t : P.Store) (o w : ℕ) (published : S.Published) (anchor : S.Client)
      (status : WitnessStatus) : Type 0 where
    pub added_witness : (j : ℕ) → P.has_witness t j ≡ (w == j || P.has_witness s j)
    pub added_index :
        (o' j : ℕ)
        → contains (P.op_witness_ids t o') j
          ≡ (o == o' && w == j || contains (P.op_witness_ids s o') j)
    pub added_status :
        (j : ℕ)
        → P.witness_status t j
          ≡ (if w == j then or_else (P.witness_status s w) (some status) else P.witness_status s j)
    pub added_anchor :
        (j : ℕ) → P.cli_witness t j ≡ (if w == j then some anchor else P.cli_witness s j)
    pub added_published :
        (j : ℕ) → P.pub_witness t j ≡ (if w == j then some published else P.pub_witness s j)
    pub added_seal : (a : CellAddr) → P.seal t a ≡ P.seal s a

  pub record PileLaws : Type 1 where
    pub IsValid : P.Store → Type 0
    pub status_known :
        (s : P.Store) (w : ℕ)
        → IsValid s
        → P.has_witness s w ≡ true
        → (st : WitnessStatus) × (P.witness_status s w ≡ some st)
    pub anchor_known :
        (s : P.Store) (w : ℕ)
        → IsValid s
        → P.has_witness s w ≡ true
        → (client : S.Client) × (published : S.Published) × (P.cli_witness s w ≡ some client)
          × (P.pub_witness s w ≡ some published)
    pub index_known :
        (s : P.Store) (o w : ℕ)
        → IsValid s
        → contains (P.op_witness_ids s o) w ≡ true
        → P.has_witness s w ≡ true
    pub linked :
        (s : P.Store) (o w : ℕ)
        → IsValid s
        → contains (P.op_witness_ids s o) w ≡ contains (P.ops_by_witness_id s w) o
    pub update :
        (s : P.Store) (w : ℕ) (st : WitnessStatus)
        → IsValid s
        → P.has_witness s w ≡ true
        → (t : P.Store) × (P.update_witness_status s w st ≡ some t)
          × IsValid t
          × SameLinks s t
          × ((j : ℕ) → P.witness_status t j ≡ (if w == j then some st else P.witness_status s j))
    -- For a new witness, or one that is known with the same two halves.
    pub add :
        (s : P.Store) (o w : ℕ) (published : S.Published) (anchor : S.Client)
        (status : WitnessStatus)
        → IsValid s
        → (P.has_witness s w ≡ false)
          ⊎ ((P.cli_witness s w ≡ some anchor) × (P.pub_witness s w ≡ some published))
        → (t : P.Store) × (P.add_witness s o w published anchor status ≡ some t)
          × IsValid t
          × Added s t o w published anchor status
    pub commit :
        (s : P.Store)
        → IsValid s
        → IsValid (P.commit_transaction s)
          × SameLinks s (P.commit_transaction s)
          × ((j : ℕ) → P.witness_status (P.commit_transaction s) j ≡ P.witness_status s j)
          × ((j : ℕ) → P.cli_witness (P.commit_transaction s) j ≡ P.cli_witness s j)
