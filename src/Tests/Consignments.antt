-- ===== src/Tests/Consignments.antt =====
-- The theorems on calling, issuing and consuming at concrete inputs.
use rgb_std.Base.{
  ℕ, ◌≡◌, refl, true, false, none, some, List, [], ◌∷◌, arith, ◌==◌, ltb, if◌then◌else◌, lookup, ok,
}
use rgb_std.Seals.{cell_addr_eq}
use rgb_std.Contract.{Contract}
use rgb_std.Contract.Call.{call, seals-call}
use rgb_std.Contract.Params.{alt, token, CreateParams, explicit_at, nth, Owned}
use rgb_std.Contract.New.{issue, seals-issue}
use rgb_std.Contract.Consume.{
  Consumed, committed, skip_ext_blocks, read_head, evaluate_commit, consume_internal, consume,
}
use rgb_std.Contract.Consume.Ends.{ConsumeEnds, consume-ConsumeEnds}
use rgb_std.Consignment.{parse_consignment}
use rgb_std.PileFs.{cell_addr, seal, seals}
use rgb_std.Tests.Samples.{files, files_laws, pile, ledger, contract, no_seals}
use rgb_std.Tests.Hosts.{host}

abbrev defs : List (ℕ × ℕ)
defs = (0, 14) ∷ (1, 15) ∷ []

fresh : (j : ℕ) → seal files contract.pile (cell_addr 5 j) ≡ none
unfolding seal cell_addr_eq
fresh j = refl

seals-call_example :
    (c' : Contract pile ledger) × (call pile ledger contract 5 defs ≡ some (c', ok 5))
    × (c'.ledger ≡ 5 ∷ [])
    × ((up_to j : ℕ)
        → lookup j (seals files c'.pile 5 up_to) ≡ (if ltb j up_to then lookup j defs else none))
    × ((o up_to j : ℕ)
        → (5 == o) ≡ false
        → lookup j (seals files c'.pile o up_to) ≡ lookup j (seals files contract.pile o up_to))
seals-call_example =
    seals-call files_laws ledger contract 5 defs (5 ∷ []) 5 refl (ground arith) fresh

-- The second output has only a token.
abbrev outputs : Owned ℕ ℕ
outputs =
    record { name = 7; state = record { seal = alt 8; value = 50 } }
    ∷ record { name = 7; state = record { seal = token 99; value = 51 } }
    ∷ []

abbrev params : CreateParams ℕ ℕ ℕ
params = record {
  issuer = 7;
  consensus = 1;
  testnet = true;
  method = 1;
  name = 30;
  timestamp = none;
  global = [];
  owned = outputs;
}

seals-issue_example :
    (c : Contract pile ledger) × (issue host [] 7 params (λ disk a. (disk, ok 4))
      ≡ some (4 ∷ [], ok c))
    × (c.ledger ≡ [])
    × ((up_to j : ℕ)
        → lookup j (seals files c.pile 10 up_to)
          ≡ (if ltb j up_to then explicit_at (nth j outputs) else none))
seals-issue_example =
    seals-issue files_laws host [] [] (4 ∷ []) (4 ∷ []) 7 params (λ disk a. (disk, ok 4)) 4 [] refl
      (omega arith) refl refl refl refl

-- A consignment of the contract 3 with no extension blocks, whose operations are evaluated.
abbrev stream : List ℕ
stream = 0 ∷ 3 ∷ 0 ∷ 1 ∷ 1 ∷ 1 ∷ 1 ∷ []

abbrev consumed_stream : Consumed host
consumed_stream = (committed host contract, ok tt)

consume_stream : consume host contract stream no_seals tt ≡ some consumed_stream
unfolding consume consume_internal read_head skip_ext_blocks evaluate_commit parse_consignment
consume_stream = refl

consume-ConsumeEnds_example : ConsumeEnds host contract stream no_seals tt consumed_stream
consume-ConsumeEnds_example =
    consume-ConsumeEnds host contract stream no_seals tt consumed_stream consume_stream
