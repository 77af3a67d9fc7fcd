-- ===== src/Seals.antt =====
-- What src/pile.rs and src/contract.rs use of the single-use seals of rgb-core and
-- single_use_seals: the trait `RgbSeal` with its associated types, taken as a parameter. Witness
-- ids, operation ids, contract ids and authentication tokens are fixed-size byte strings that the
-- code only compares, and stand as natural numbers.
use rgb_std.Base.{ℕ, Bool, true, ◌&&◌, ◌==◌, ◌≡◌, ◌↔◌, Option, List, Eq, arith}
use rgb_std.Status.{WitnessStatus}

pub record RgbSeal : Type 1 where
  pub Definition : Type 0
  pub Client : Type 0
  pub Published : Type 0
  -- The seal itself, which a definition gives or is resolved into.
  pub Seal : Type 0
  pub client_eq : Eq Client
  pub pub_id : Published → ℕ
  -- `none` is the error of `merge`.
  pub merge : Client → Client → Option Client
  pub auth_token : Definition → ℕ
  pub to_src : Definition → Option Seal
  pub resolve : Definition → ℕ → Seal

-- `CellAddr` of hypersonic: an operation and the number of one of its outputs.
pub record CellAddr : Type 0 where
  pub opid : ℕ
  pub pos : ℕ

unfoldable pub cell_eq : CellAddr → CellAddr → Bool
cell_eq a b = a.opid == b.opid && a.pos == b.pos

pub cell_eq_iff : (a b : CellAddr) → (cell_eq a b ≡ true) ↔ (a ≡ b)
unfolding cell_eq
cell_eq_iff a b = ground arith

instance unfoldable pub cell_addr_eq : Eq CellAddr
unfolding cell_eq
cell_addr_eq = record { beq = cell_eq; beq_iff = cell_eq_iff }

-- `SealWitness` of single_use_seals.
pub record SealWitness (S : RgbSeal) : Type 0 where
  pub published : S.Published
  pub client : S.Client

-- `Witness` of src/pile.rs.
pub record Witness (S : RgbSeal) : Type 0 where
  pub id : ℕ
  pub published : S.Published
  pub client : S.Client
  pub status : WitnessStatus
  pub opids : List ℕ

-- `OpRels` of src/pile.rs.
pub record OpRels (S : RgbSeal) : Type 0 where
  pub opid : ℕ
  pub witness_ids : List ℕ
  pub defines : List (ℕ × S.Definition)
