-- ===== src/Tests/Stores.antt =====
-- The theorems on the contracts over a stockpile at concrete inputs.
use mathlib.Core.Path.{subst}
use rgb_std.Base.{
  ℕ, ◌≡◌, refl, inl, inr, Bool, true, false, Option, none, some, List, [], ◌∷◌, arith, ◌==◌,
  if◌then◌else◌, insert, contains, Result, ok,
}
use rgb_std.Status.{mined, archived}
use rgb_std.Seals.{Witness}
use rgb_std.Contract.{Contract}
use rgb_std.Consignment.{strict_decode, decode_operations, parse_consignment}
use rgb_std.PileFs.Refines.{pile_fs_laws}
use rgb_std.StockpileDir.{has_contract, create_contract_dir, import_contract}
use rgb_std.Contract.New.{with_consignment}
use rgb_std.Contract.Consume.{evaluate_commit}
use rgb_std.PileFs.{new, add_seals}
use rgb_std.StockpileDir.Purged.{purge-current}
use rgb_std.StockpileDir.Issuers.{IssuerFiles, import_issuer-issuer}
use rgb_std.Contracts.{
  Contracts, with_contract, with_contract_mut, issuer, issue, sync, check_layer1, import_issuer,
  has_issuer, codex_ids, load,
}
use rgb_std.Contracts as Contracts
use rgb_std.Contracts.Queries.{witness_ids}
use rgb_std.Contracts.Named.{Among}
use rgb_std.Contracts.Reads.{SameView}
use rgb_std.Contracts.WitnessIds.{AllRead, HasWitness, witness_ids_lem}
use rgb_std.Contracts.View.{current, with_contract_mut_lem}
use rgb_std.Contracts.Synced.{AllSynced, AllPresent, sync-AllSynced}
use rgb_std.Contracts.Consume as Consume
use rgb_std.Contracts.Consume.Ends.{ImportEnds, consume-ImportEnds}
use rgb_std.Tests.Samples.{
  numbers, files, pile, laws, ledger, contract, wire, no_seals, two_witnesses-IsValid,
}
use rgb_std.Tests.Hosts.{
  host, file_system, stockpile, directory, in_memory, decode_header, decode_operation,
}

abbrev forget : Contract pile ledger → Option (Contract pile ledger × ℕ)
forget c = some (record c { ledger = 1 ∷ c.ledger }, 0)

with_contract_mut_lem_example :
    (current stockpile in_memory 3 ≡ none → with_contract_mut stockpile in_memory 3 forget ≡ none)
    × ((c c' : Contract pile ledger) (res : ℕ)
        → current stockpile in_memory 3 ≡ some c
        → forget c ≡ some (c', res)
        → (cs' : Contracts stockpile) × (with_contract_mut stockpile in_memory 3 forget
            ≡ some (cs', res))
          × (cs'.persistence ≡ directory)
          × ((j : ℕ)
              → current stockpile cs' j
                ≡ (if 3 == j then some c' else current stockpile in_memory j)))
    × ((c : Contract pile ledger)
        → current stockpile in_memory 3 ≡ some c
        → forget c ≡ none
        → with_contract_mut stockpile in_memory 3 forget ≡ none)
with_contract_mut_lem_example = with_contract_mut_lem stockpile in_memory 3 forget

all_present : AllPresent stockpile laws in_memory (3 ∷ [])
unfolding current pile_fs_laws
all_present j listed = (contract, ground arith, two_witnesses-IsValid)

sync-AllSynced_example :
    (cs' : Contracts stockpile) × (r : Result ℕ (Unit {0})) × (sync stockpile in_memory []
      ≡ some (cs', r))
    × (r ≡ ok tt → AllSynced stockpile in_memory cs' [] (3 ∷ []))
sync-AllSynced_example = sync-AllSynced stockpile laws in_memory [] (refl, tt) all_present

purge-current_example :
    (cs' : Contracts stockpile) × (Contracts.purge stockpile in_memory 3 ≡ (cs', ok tt))
    × (Contracts.has_contract stockpile cs' 3 ≡ true)
    × (contains (Contracts.contract_ids stockpile cs') 3 ≡ true)
    × (current stockpile cs' 3 ≡ none)
    × (with_contract_mut stockpile cs' 3 forget ≡ none)
purge-current_example = purge-current file_system in_memory 3 30 (7 ∷ []) 5 forget refl refl refl

is_archived : Witness numbers → Bool
is_archived w = w.published == 6

abbrev both : List (Witness numbers)
both =
    record { id = 4; published = 4; client = 40; status = mined 100; opids = 1 ∷ [] }
    ∷ record { id = 6; published = 6; client = 60; status = archived; opids = 1 ∷ 2 ∷ [] }
    ∷ []

all_read : AllRead stockpile is_archived in_memory (3 ∷ [])
unfolding current rgb_std.PileFs.witnesses
all_read id c (inl same) at =
    let is : contract ≡ c = ground (arith, same, at) in
    (both, subst (λ (k : Contract pile ledger). pile.witnesses k.pile ≡ some both) is refl)
all_read id c (inr no_one) at = absurd no_one

witness_ids_lem_example :
    (found : List ℕ) × (cs' : Contracts stockpile) × (witness_ids stockpile in_memory is_archived
      ≡ some (found, cs'))
    × SameView stockpile in_memory cs'
    × ((wid : ℕ) → Among wid found → HasWitness stockpile is_archived in_memory (3 ∷ []) wid)
    × ((wid : ℕ) → HasWitness stockpile is_archived in_memory (3 ∷ []) wid → Among wid found)
witness_ids_lem_example = witness_ids_lem stockpile is_archived in_memory all_read

issuer_files : IssuerFiles file_system
issuer_files = record {
  saved = λ disk disk' i e. ground (arith, e);
  others = λ disk disk' path other i e apart. ground (arith, e, apart);
  path_codex = λ name name' id id' e. e;
}

import_issuer-issuer_example :
    (cs' : Contracts stockpile) × (import_issuer stockpile in_memory 5 ≡ (cs', ok 5))
    × (has_issuer stockpile cs' 5 ≡ true)
    × (contains (codex_ids stockpile cs') 5 ≡ true)
    × ((id : ℕ)
        → (issuer stockpile cs' id).0
          ≡ (if 5 == id then some 5 else (issuer stockpile in_memory id).0))
    × ((id : ℕ)
        → (issuer stockpile (load stockpile cs'.persistence) id).0 ≡ (
            if 5 == id
            then some 5
            else (issuer stockpile (load stockpile in_memory.persistence) id).0))
import_issuer-issuer_example =
    import_issuer-issuer file_system issuer_files in_memory 5 (5 ∷ 3 ∷ 7 ∷ []) refl

-- A consignment of the contract 4, whose articles have the id 77.
parse_four : parse_consignment wire (0 ∷ 4 ∷ []) ≡ ok (4, [])
unfolding parse_consignment
parse_four = refl

four_unknown : Contracts.has_contract stockpile in_memory 4 ≡ false
unfolding Contracts.has_contract has_contract
four_unknown = refl

-- The contract is put in memory under 4, and listed by the stockpile under 77.
abbrev four_imported : Consume.Consumed stockpile host decode_header decode_operation
four_imported = (
  record {
    issuers = [];
    contracts =
        insert 4
          (record { contract_id = 77; ledger = []; pile = pile.commit_transaction (new files) })
          ((3, contract) ∷ []);
    persistence = record directory {
      contracts = insert 77 77 ((3, 30) ∷ []);
      disk = 77 ∷ 77 ∷ 3 ∷ 7 ∷ [];
    };
  },
  ok tt,
)

consume_four :
    Consume.consume stockpile host decode_header decode_operation in_memory true
      (0 ∷ 4 ∷ [])
      no_seals
      tt
    ≡ some four_imported
unfolding Consume.consume parse_consignment Contracts.has_contract has_contract strict_decode
    decode_operations check_layer1 import_contract create_contract_dir with_consignment
    evaluate_commit add_seals new
consume_four = refl

consume-ImportEnds_example :
    ImportEnds stockpile host decode_header decode_operation in_memory tt [] 4 true four_imported
consume-ImportEnds_example =
    consume-ImportEnds stockpile host decode_header decode_operation in_memory tt (0 ∷ 4 ∷ []) [] 4
      no_seals true four_imported parse_four four_unknown consume_four
