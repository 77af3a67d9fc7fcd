-- ===== src/Contract/Params.antt =====
-- The seals and parameters with which src/contract.rs issues a contract: `EitherSeal`,
-- `CreateParams`, and what `Contract::issue` makes of them.
use rgb_std.Base.{
  ℕ, zero, suc, ◌+◌, ◌%◌, ◌^◌, ◌<◌, ◌≡◌, refl, Bool, true, Option, none, some, List, [], ◌∷◌, ◌++◌,
  arith, lookup, length, ap, ◌∙◌, is_some, IsDistinct, contains-keys,
}
use rgb_std.Contract.State.{Assignment}

pub data EitherSeal (Seal : Type 0) : Type 0 where
  alt : Seal → EitherSeal Seal
  token : ℕ → EitherSeal Seal

-- With the seal's own `auth_token`.
unfoldable pub auth_token : {Seal : Type 0} → (Seal → ℕ) → EitherSeal Seal → ℕ
auth_token seal_token (alt seal) = seal_token seal
auth_token seal_token (token auth) = auth

pub to_explicit : {Seal : Type 0} → EitherSeal Seal → Option Seal
to_explicit (alt seal) = some seal
to_explicit (token _) = none

-- `EitherSeal::map` of src/popls/bp.rs.
unfoldable pub map_seal : {A B : Type 0} → (A → B) → EitherSeal A → EitherSeal B
map_seal f (alt seal) = alt (f seal)
map_seal f (token auth) = token auth

unfoldable new_external : {Seal Value : Type 0} → ℕ → Value → Assignment (EitherSeal Seal) Value
new_external auth value = record { seal = token auth; value = value }

unfoldable new_internal : {Seal Value : Type 0} → Seal → Value → Assignment (EitherSeal Seal) Value
new_internal seal value = record { seal = alt seal; value = value }

-- `NamedState` of hypersonic.
pub record NamedState (A : Type 0) : Type 0 where
  pub name : ℕ
  pub state : A

pub record CreateParams (Seal Value Atom : Type 0) : Type 0 where
  pub issuer : ℕ
  pub consensus : ℕ
  pub testnet : Bool
  pub method : ℕ
  pub name : ℕ
  pub timestamp : Option ℕ
  pub global : List (NamedState Atom)
  pub owned : List (NamedState (Assignment (EitherSeal Seal) Value))

-- The method is that with the name `issue`.
unfoldable new_testnet : {Seal Value Atom : Type 0} → ℕ → ℕ → ℕ → ℕ → CreateParams Seal Value Atom
new_testnet issue_method issuer consensus name = record {
  issuer = issuer;
  consensus = consensus;
  testnet = true;
  method = issue_method;
  name = name;
  timestamp = none;
  global = [];
  owned = [];
}

unfoldable with_global_verified :
    {Seal Value Atom : Type 0}
    → CreateParams Seal Value Atom
    → ℕ
    → Atom
    → CreateParams Seal Value Atom
with_global_verified params name atom = record params {
  global = params.global ++ record { name = name; state = atom } ∷ [];
}

unfoldable push_owned_unlocked :
    {Seal Value Atom : Type 0}
    → CreateParams Seal Value Atom
    → ℕ
    → Assignment (EitherSeal Seal) Value
    → CreateParams Seal Value Atom
push_owned_unlocked params name assignment = record params {
  owned = params.owned ++ record { name = name; state = assignment } ∷ [];
}

-- `DataCell` and `IssueParams` of hypersonic.
pub record DataCell (Value : Type 0) : Type 0 where
  pub auth : ℕ
  pub value : Value
  pub lock : Option ℕ

pub record IssueParams (Value Atom : Type 0) : Type 0 where
  pub issuer : ℕ
  pub name : ℕ
  pub consensus : ℕ
  pub testnet : Bool
  pub timestamp : Option ℕ
  pub method : ℕ
  pub global : List (NamedState Atom)
  pub owned : List (NamedState (DataCell Value))

abbrev pub Owned : Type 0 → Type 0 → Type 0
Owned Seal Value = List (NamedState (Assignment (EitherSeal Seal) Value))

-- The element at a position.
abbrev pub nth : {A : Type 0} → ℕ → List A → Option A
nth i [] = none
nth zero (a ∷ l) = some a
nth (suc i) (a ∷ l) = nth i l

abbrev note_seal : {Seal : Type 0} → ℕ → Option Seal → List (ℕ × Seal) → List (ℕ × Seal)
note_seal pos none seals = seals
note_seal pos (some seal) seals = (pos % 2 ^ 16, seal) ∷ seals

note_seal-IsDistinct :
    {Seal : Type 0} (pos : ℕ) (seal : Option Seal) (seals : List (ℕ × Seal))
    → pos < 2 ^ 16
    → lookup pos seals ≡ none
    → IsDistinct seals
    → IsDistinct (note_seal pos seal seals)
note_seal-IsDistinct pos none seals h fresh d = d
note_seal-IsDistinct pos (some seal) seals h fresh d = (
  let same : pos % 2 ^ 16 ≡ pos = omega arith in
      rw same (contains-keys pos seals ∙ ap is_some fresh),
  d,
)

module _ {Seal Value : Type 0} where
  -- `owned.iter().enumerate().filter_map(…)`, with `pos as u16`.
  pub explicit_seals : ℕ → Owned Seal Value → List (ℕ × Seal)
  unfolding to_explicit
  explicit_seals pos [] = []
  explicit_seals pos (assignment ∷ owned) =
      note_seal pos (to_explicit assignment.state.seal) (explicit_seals (pos + 1) owned)

  -- The outputs of the genesis.
  unfoldable data_cells : (Seal → ℕ) → Owned Seal Value → List (NamedState (DataCell Value))
  unfolding auth_token
  data_cells seal_token [] = []
  data_cells seal_token (assignment ∷ owned) =
      record {
        name = assignment.name;
        state = record {
          auth = auth_token seal_token assignment.state.seal;
          value = assignment.state.value;
          lock = none;
        };
      }
      ∷ data_cells seal_token owned

  unfoldable pub issue_params :
      {Atom : Type 0} → (Seal → ℕ) → CreateParams Seal Value Atom → IssueParams Value Atom
  unfolding data_cells
  issue_params seal_token params = record {
    issuer = params.issuer;
    name = params.name;
    consensus = params.consensus;
    testnet = params.testnet;
    timestamp = params.timestamp;
    method = params.method;
    global = params.global;
    owned = data_cells seal_token params.owned;
  }

  abbrev pub explicit_at : Option (NamedState (Assignment (EitherSeal Seal) Value)) → Option Seal
  explicit_at none = none
  explicit_at (some assignment) = to_explicit assignment.state.seal

  lookup_below :
      (pos j : ℕ) (owned : Owned Seal Value)
      → j < pos
      → pos + length owned < 2 ^ 16
      → lookup j (explicit_seals pos owned) ≡ none
  unfolding explicit_seals to_explicit
  lookup_below pos j [] h k = refl
  lookup_below pos j (assignment ∷ owned) h k = ground (arith, lookup_below (pos + 1) j owned)

  lookup-explicit_seals_from :
      (pos i : ℕ) (owned : Owned Seal Value)
      → pos + length owned < 2 ^ 16
      → lookup (pos + i) (explicit_seals pos owned) ≡ explicit_at (nth i owned)
  unfolding explicit_seals to_explicit
  lookup-explicit_seals_from pos i [] h = refl
  lookup-explicit_seals_from pos zero (assignment ∷ owned) h =
      ground (arith, lookup_below (pos + 1) pos owned)
  lookup-explicit_seals_from pos (suc i) (assignment ∷ owned) h =
      let rest = lookup-explicit_seals_from (pos + 1) i owned (omega arith) in ground (arith, rest)

  -- No output number is taken twice.
  pub explicit_seals-IsDistinct :
      (pos : ℕ) (owned : Owned Seal Value)
      → pos + length owned < 2 ^ 16
      → IsDistinct (explicit_seals pos owned)
  unfolding explicit_seals
  explicit_seals-IsDistinct pos [] h = tt
  explicit_seals-IsDistinct pos (assignment ∷ owned) h =
      note_seal-IsDistinct pos (to_explicit assignment.state.seal) (explicit_seals (pos + 1) owned)
        (omega arith) (lookup_below (pos + 1) pos owned (omega arith) (omega arith))
        (explicit_seals-IsDistinct (pos + 1) owned (omega arith))

  -- With fewer than 2^16 outputs, the seal that `Contract::issue` registers under a number is the
  -- explicit seal of the output at this position, and there is none where the output has only a token
  -- or does not exist.
  pub lookup-explicit_seals :
      (owned : Owned Seal Value) (i : ℕ)
      → length owned < 2 ^ 16
      → lookup i (explicit_seals 0 owned) ≡ explicit_at (nth i owned)
  lookup-explicit_seals owned i h =
      let found = lookup-explicit_seals_from 0 i owned (omega arith) in
      let same : 0 + i ≡ i = omega arith in rw same at found
