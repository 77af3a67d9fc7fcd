-- ===== src/Contract/Status.antt =====
-- `Contract::witness_status` and `Contract::retrieve` of src/contract.rs: the best witness of an
-- operation.
pub mod Pairs
pub mod Best
use rgb_std.Base.{
  ℕ, ◌≤◌, ◌≡◌, refl, ◌⊎◌, inl, inr, Bool, true, false, ◌||◌, Option, none, some, List, [], ◌∷◌,
  arith, ◌==◌, ==_iff, if◌then◌else◌, ◌>>=◌, contains, Bool-cases,
}
use rgb_std.Status.{WitnessStatus, genesis, archived, best, is_better, is_valid, quasi_height}
use rgb_std.Status.Order.{height-best}
use rgb_std.Seals.{RgbSeal, SealWitness}
use rgb_std.Pile.{Pile, PileLaws}

-- `reduce(|best, other| best.best(other))`, from the first item on.
abbrev pub reduce_best : WitnessStatus → List WitnessStatus → WitnessStatus
reduce_best b [] = b
reduce_best b (other ∷ rest) = reduce_best (best b other) rest

-- `.reduce(…).unwrap_or(WitnessStatus::Genesis)`.
abbrev pub best_or_genesis : List WitnessStatus → WitnessStatus
best_or_genesis [] = genesis
best_or_genesis (st ∷ rest) = reduce_best st rest

-- `|best, other| if best.0.is_better(other.0) { best } else { other }`.
unfoldable pub better_pair : WitnessStatus × ℕ → WitnessStatus × ℕ → WitnessStatus × ℕ
better_pair b other = if is_better b.0 other.0 then b else other

-- The `reduce` by it, from the first item on.
abbrev pub reduce_pair : WitnessStatus × ℕ → List (WitnessStatus × ℕ) → WitnessStatus × ℕ
reduce_pair b [] = b
reduce_pair b (other ∷ rest) = reduce_pair (better_pair b other) rest

module _ {S : RgbSeal} (P : Pile S) where
  unfoldable pub statuses : P.Store → List ℕ → Option (List WitnessStatus)
  statuses s [] = some []
  statuses s (wid ∷ wids) = do st ← P.witness_status s wid; rest ← statuses s wids; some (st ∷ rest)

  unfoldable pub witness_status : P.Store → ℕ → Option WitnessStatus
  unfolding statuses
  witness_status s opid = do sts ← statuses s (P.op_witness_ids s opid); some (best_or_genesis sts)

  pub with_status : P.Store → List ℕ → Option (List (WitnessStatus × ℕ))
  with_status s [] = some []
  with_status s (wid ∷ wids) = do
    st ← P.witness_status s wid
    rest ← with_status s wids
    some ((st, wid) ∷ rest)

  abbrev pub retrieve_best : P.Store → List (WitnessStatus × ℕ) → Option (Option (SealWitness S))
  retrieve_best s [] = some none
  retrieve_best s (w ∷ ws) =
      let b = reduce_pair w ws in
      if is_valid b.0
      then (do
        client ← P.cli_witness s b.1
        published ← P.pub_witness s b.1
        some (some (record { published = published; client = client })))
      else some none

  -- The outer `none` is a panic of the pile.
  unfoldable pub retrieve : P.Store → ℕ → Option (Option (SealWitness S))
  unfolding with_status
  retrieve s opid = do all ← with_status s (P.op_witness_ids s opid); retrieve_best s all
