-- ===== src/Tests/States.antt =====
-- The theorems on `Contract::state`, at the contract with two witnesses.
use rgb_std.Base.{ℕ, ◌≡◌, refl, some, [], ◌∷◌, put}
use rgb_std.Status.{mined, archived, worst, best, is_better, is_worse, quasi_height}
use rgb_std.Contract.State.{
  ContractState, state, memo_state, owned_states, owned_cells, owned_cell, resolved_cell,
  cached_status, get_status, worst_ancestor, fold_worst, witness_copies, immutable_states,
  immutable_cells, or_insert_with,
}
use rgb_std.Contract.Status.{witness_status, statuses}
use rgb_std.Seals.{cell_addr_eq}
use rgb_std.Contract.State.Direct.{direct_state}
use rgb_std.Contract.State.Memoised.{state-direct_state}
use rgb_std.Contract.State.Depth.{AllResolved, state-AllResolved}
use rgb_std.Tests.Samples.{pile, ledger, contract, cell}

state-direct_state_example : state pile ledger contract ≡ direct_state pile ledger contract
state-direct_state_example = state-direct_state pile ledger contract

-- Seal 8 gives itself, and seal 9 is resolved by each of the two witnesses.
abbrev pub resolved_state : ContractState ℕ ℕ ℕ
resolved_state = record {
  immutable = (8, record { addr = cell 2 0; atom = 52; status = archived } ∷ []) ∷ [];
  owned =
      (
        7,
        record { addr = cell 1 0; assignment = record { seal = 8; value = 50 }; status = mined 100 }
            ∷ record {
              addr = cell 1 1;
              assignment = record { seal = 13; value = 51 };
              status = mined 100;
            }
            ∷ record {
              addr = cell 1 1;
              assignment = record { seal = 15; value = 51 };
              status = archived;
            }
            ∷ [],
      )
      ∷ [];
  aggregated = (9, 53) ∷ [];
}

pub state_resolved :
    (id : ℕ) → state pile ledger (record contract { contract_id = id }) ≡ some resolved_state
unfolding state memo_state owned_states owned_cells owned_cell resolved_cell cached_status
    get_status worst_ancestor fold_worst witness_copies immutable_states immutable_cells
    or_insert_with witness_status statuses put rgb_std.PileFs.seal rgb_std.PileFs.op_witness_ids
    rgb_std.PileFs.witness_status cell_addr_eq worst best is_better is_worse quasi_height
state_resolved id = refl

state-AllResolved_example : AllResolved pile ledger contract resolved_state.owned
state-AllResolved_example = state-AllResolved pile ledger contract resolved_state (state_resolved 3)
