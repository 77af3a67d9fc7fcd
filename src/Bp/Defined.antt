-- ===== src/Bp/Defined.antt =====
-- What the outputs of a request ask for, against which `RgbWallet::prefab` of src/popls/bp.rs is held:
-- outpoints that are closed, outputs that are defined, and the definitions and cells of the operation.
use rgb_std.Base.{
  ℕ, ◌+◌, ◌≡◌, refl, ap, ◌∙◌, Bool, false, ◌||◌, Option, none, some, List, [], ◌∷◌, ◌==◌, contains,
  contains-set_put,
}
use rgb_std.Seals.{RgbSeal}
use rgb_std.Contract.State.{Assignment}
use rgb_std.Contract.Params.{EitherSeal, alt, token, NamedState, DataCell}
use rgb_std.Bp.{Bitcoin, PrefabSeal, UsedState}
use rgb_std.Bp.Api.{Confined}
use rgb_std.Bp.Wallet.{WalletProvider}
use rgb_std.Bp.Prefab.{outpoints_of, seal_of, data_cell}

abbrev pub closed_by : {B : Bitcoin} → List (UsedState B) → ℕ → Bool
closed_by [] o = false
closed_by (used ∷ using) o = used.outpoint == o || closed_by using o

pub contains-outpoints_of :
    {B : Bitcoin} (using : List (UsedState B)) (o : ℕ)
    → contains (outpoints_of using) o ≡ closed_by using o
unfolding outpoints_of
contains-outpoints_of [] o = refl
contains-outpoints_of (used ∷ using) o =
    contains-set_put used.outpoint o (outpoints_of using)
    ∙ ap (λ b. used.outpoint == o || b) (contains-outpoints_of using o)

module _ {B : Bitcoin} {S : RgbSeal} (N : WalletProvider B S) (C : Confined) (Value : Type 0) where
  abbrev pub Asked : Type 0
  Asked = List (NamedState (Assignment (EitherSeal (PrefabSeal B)) Value))

  -- Whether an output is assigned to the output of the transaction with this number.
  abbrev pub vout_is : EitherSeal (PrefabSeal B) → ℕ → Bool
  vout_is (alt seal) v = seal.vout == v
  vout_is (token auth) v = false

  abbrev pub defined_by : Asked → ℕ → Bool
  defined_by [] v = false
  defined_by (assignment ∷ owned) v = vout_is assignment.state.seal v || defined_by owned v

  abbrev pub definition_of : N.Engine → ℕ → EitherSeal (PrefabSeal B) → Option S.Definition
  definition_of engine opout_no (alt seal) = some (seal_of N C engine opout_no seal)
  definition_of engine opout_no (token auth) = none

  -- The definition for the output at a position.
  abbrev pub definition_at :
      N.Engine
      → ℕ
      → Option (NamedState (Assignment (EitherSeal (PrefabSeal B)) Value))
      → Option S.Definition
  definition_at engine opout_no none = none
  definition_at engine opout_no (some assignment) =
      definition_of engine opout_no assignment.state.seal

  abbrev pub auth_of : N.Engine → ℕ → EitherSeal (PrefabSeal B) → ℕ
  auth_of engine opout_no (alt seal) = S.auth_token (seal_of N C engine opout_no seal)
  auth_of engine opout_no (token auth) = auth

  -- The cells of the outputs, each with the token of its seal.
  abbrev pub cells_of : N.Engine → ℕ → Asked → List (NamedState (DataCell Value))
  cells_of engine opout_no [] = []
  cells_of engine opout_no (assignment ∷ owned) =
      data_cell (auth_of engine opout_no assignment.state.seal) assignment
      ∷ cells_of engine (opout_no + 1) owned
