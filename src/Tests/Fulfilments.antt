-- ===== src/Tests/Fulfilments.antt =====
-- The theorems on invoices that are paid, and on bundles that are bundle_included, at concrete inputs.
use mathlib.Core.Path.{subst}
use rgb_std.Base.{
  ℕ, ◌+◌, ◌<◌, ◌≡◌, refl, sym, ap, ◌∙◌, inl, inr, Option, none, some, List, [], ◌∷◌, arith, ◌>>=◌,
  lookup, insert, put, set_put, ok,
}
use rgb_std.Status.{tentative, mined, archived}
use rgb_std.Seals.{CellAddr, cell_eq, cell_addr_eq}
use rgb_std.Contract.{Contract}
use rgb_std.Contract.State.{OwnedState}
use rgb_std.Contract.State.Mapped.{filter_map_state, filter_owned, map_names}
use rgb_std.Contract.Params.{alt, nth}
use rgb_std.Contract.Include as Include
use rgb_std.Contracts.{
  Contracts, contract_state, contract_articles, with_contract, with_contract_mut,
}
use rgb_std.Contracts as Contracts
use rgb_std.Contracts.View.{current}
use rgb_std.Contracts.Named.{Among}
use rgb_std.Bp.{PrefabSeal, WoutAssignment, OpRequest}
use rgb_std.Bp.Check.{check_request, find_used}
use rgb_std.Bp.Wallet.{RgbWallet, state_own, own_seal}
use rgb_std.Invoice.{to_wout}
use rgb_std.Bp.Fulfill.{
  RgbInvoice, Coinselect, Terms, terms, select, other_uses, pay, beneficiary, changes, fulfill,
}
use rgb_std.Bp.Fulfilled.{IsHonest, Pays}
use rgb_std.Bp.Runs.{IsPicked}
use rgb_std.Bp.Requests.{resolve_seals}
use rgb_std.Bp.Prepared.{resolve_seals-check_request}
use rgb_std.Bp.Accepted.{IsIndexed, fulfill-Pays, fulfill-accepted}
use rgb_std.Bp.Include.{Anchors, include, prefab_anchor, seal_resolver}
use rgb_std.Bp.Included.{AllIncluded, include-AllIncluded}
use rgb_std.Bp.SealsFound.{seal_resolver_first}
use rgb_std.Tests.Samples.{numbers, pile, ledger, contract, cell}
use rgb_std.Tests.Hosts.{stockpile}
use rgb_std.Tests.States.{resolved_state, state_resolved}
use rgb_std.Tests.Payments.{bitcoin, resolver}
use rgb_std.Tests.Wallets.{api, api-IsRegular, provider, two_contracts, other_contract, wallet}
use rgb_std.Tests.Bundles.{paid_contract, paid_wallet, paid_prefab, three_state, at_three}

-- The first state, if there is one.
abbrev first_coin : Coinselect api
first_coin value calc [] = (none, calc)
first_coin value calc (s ∷ states) =
    (some ((s.addr, s.assignment.seal) ∷ []), (api.accumulate calc s.assignment.value).0)

first_coin-picks :
    (value : ℕ) (calc calc' : ℕ × ℕ) (states : List (OwnedState ℕ ℕ))
    (selected : List (CellAddr × ℕ))
    → first_coin value calc states ≡ (some selected, calc')
    → IsPicked api 77 states calc (selected, calc')
first_coin-picks value calc calc' [] selected e = absurd (ground (arith, e))
first_coin-picks value calc calc' (s ∷ states) selected e =
    (s ∷ [], (inl refl, tt), ground (arith, e), ground (arith, e))

first_coin-IsHonest : IsHonest api 77 first_coin
first_coin-IsHonest = record { picks = first_coin-picks }

abbrev invoice : RgbInvoice bitcoin ℕ
invoice = record { scope = 3; call = none; auth = to_wout 20; value = some 30 }

-- The payment with its change.
abbrev paying : OpRequest bitcoin ℕ ℕ (Option (WoutAssignment bitcoin))
paying = record {
  contract_id = 3;
  method = 1;
  reading = [];
  using = record { addr = cell 1 0; outpoint = 8; satisfaction = none } ∷ [];
  global = [];
  owned =
      record {
        name = 7;
        state = record { seal = alt (some (record { wout = 20; sats = 546 })); value = 30 };
      }
      ∷ record { name = 7; state = record { seal = alt none; value = 20 } }
      ∷ [];
}

fulfilled :
    fulfill api stockpile provider wallet invoice first_coin (some 546) ≡ some (wallet, ok paying)
unfolding fulfill contract_articles with_contract state_own filter_map_state map_names filter_owned
    select other_uses pay beneficiary changes cell_eq set_put
fulfilled = rw (three_state, ◌>>=◌) refl

fulfill-Pays_example :
    (t : Terms api) × (own_states : List (OwnedState ℕ ℕ)) × (current stockpile two_contracts 3
      ≡ some contract)
    × (terms api invoice 77 ≡ ok t)
    × (lookup t.state_name
          (map_names (filter_owned (own_seal stockpile provider (8 ∷ []))) resolved_state.owned)
        ≡ some own_states)
    × Pays api 77 invoice (some 546) t own_states paying
fulfill-Pays_example =
    fulfill-Pays stockpile api provider wallet wallet invoice first_coin (some 546) paying contract
      resolved_state first_coin-IsHonest api-IsRegular at_three (state_resolved 3) fulfilled

abbrev three_states : List (OwnedState ℕ ℕ)
three_states =
    record { addr = cell 1 0; assignment = record { seal = 8; value = 50 }; status = mined 100 }
    ∷ record { addr = cell 1 1; assignment = record { seal = 13; value = 51 }; status = mined 100 }
    ∷ record { addr = cell 1 1; assignment = record { seal = 15; value = 51 }; status = archived }
    ∷ []

abbrev IsFound : OwnedState ℕ ℕ → Type 0
IsFound o =
    (o' : OwnedState ℕ ℕ) × (find_used o.addr resolved_state.owned ≡ some (7, o'))
    × (o'.assignment.value ≡ o.assignment.value)

three_states-IsFound : (o : OwnedState ℕ ℕ) → Among o three_states → IsFound o
unfolding find_used cell_eq
three_states-IsFound o (inl e) = subst IsFound (sym e) (_, refl, refl)
three_states-IsFound o (inr (inl e)) = subst IsFound (sym e) (_, refl, refl)
three_states-IsFound o (inr (inr (inl e))) = subst IsFound (sym e) (_, refl, refl)
three_states-IsFound o (inr (inr (inr there))) = absurd there

resolved_state-IsIndexed : IsIndexed resolved_state.owned
resolved_state-IsIndexed name map o (inl here) m =
    let (o', found, same) = three_states-IsFound o (subst (Among o) (ap (λ e. e.1) here) m) in
    (o', found ∙ ap (λ n. some (n, o')) (ap (λ e. e.0) (sym here)), same)
resolved_state-IsIndexed name map o (inr there) m = absurd there

fulfill-accepted_example :
    (cs' : Contracts stockpile) × (check_request stockpile api two_contracts paying
      ≡ some (ok tt, cs'))
fulfill-accepted_example =
    fulfill-accepted stockpile api provider wallet wallet invoice first_coin (some 546) paying
      contract resolved_state first_coin-IsHonest api-IsRegular resolved_state-IsIndexed at_three
      (state_resolved 3) fulfilled

-- The script 21 of the output 20 is in output 0, and the change goes to output 1.
abbrev ready : OpRequest bitcoin ℕ ℕ (PrefabSeal bitcoin)
ready = record {
  contract_id = 3;
  method = 1;
  reading = [];
  using = paying.using;
  global = [];
  owned =
      record {
        name = 7;
        state = record { seal = alt (record { vout = 0; noise = some 20 }); value = 30 };
      }
      ∷ record {
        name = 7;
        state = record { seal = alt (record { vout = 1; noise = none }); value = 20 };
      }
      ∷ [];
}

made_ready : resolve_seals bitcoin resolver (some 1) (paying ∷ []) ≡ ok (ready ∷ [])
unfolding resolve_seals
made_ready = refl

resolve_seals-check_request_example :
    (r : OpRequest bitcoin ℕ ℕ (PrefabSeal bitcoin)) × (ready ∷ [] ≡ r ∷ [])
    × ((cs : Contracts stockpile)
        → check_request stockpile api cs r ≡ check_request stockpile api cs paying)
resolve_seals-check_request_example =
    resolve_seals-check_request stockpile api resolver (some 1) paying (ready ∷ []) made_ready

abbrev invoice_terms : Terms api
invoice_terms = record { method = 1; state_name = 7; calc = (0, 0); value = 30 }

abbrev own_state : List (OwnedState ℕ ℕ)
own_state =
    record { addr = cell 1 0; assignment = record { seal = 8; value = 50 }; status = mined 100 }
    ∷ []

-- The proof of a contract is its id with the block's number, and an anchor is a number.
abbrev anchors : Anchors numbers
anchors = record {
  MerkleBlock = ℕ;
  MerkleProof = ℕ;
  DbcProof = ℕ;
  to_merkle_proof = λ mpc id. some (mpc + id);
  anchor = λ map id proof dbc. id + proof + dbc;
}

abbrev included_contract : Contract pile ledger
included_contract = record paid_contract {
  pile = record paid_contract.pile {
    hoard = (7, 107) ∷ paid_contract.pile.hoard;
    cache = (7, 7) ∷ paid_contract.pile.cache;
    index = (11, 7) ∷ paid_contract.pile.index;
    stand = (7, 11) ∷ paid_contract.pile.stand;
    mine = (7, tentative) ∷ paid_contract.pile.mine;
  };
}

abbrev included_wallet : RgbWallet stockpile provider
included_wallet = record paid_wallet {
  contracts = record paid_wallet.contracts {
    contracts = (3, included_contract) ∷ (5, other_contract) ∷ [];
  };
}

bundle_included :
    include stockpile api provider anchors paid_wallet (paid_prefab ∷ []) 7 100 1 (4 ∷ 8 ∷ [])
    ≡ some (included_wallet, ok tt)
unfolding include prefab_anchor Contracts.include with_contract_mut Include.include
    Include.merged_anchor insert put rgb_std.PileFs.has_witness rgb_std.PileFs.add_witness
    rgb_std.PileFs.commit_transaction
bundle_included = refl

include-AllIncluded_example :
    (included_wallet.wallet ≡ paid_wallet.wallet)
    × AllIncluded stockpile api provider anchors 7 100 1
        (4 ∷ 8 ∷ [])
        (paid_prefab ∷ [])
        paid_wallet.contracts
        included_wallet.contracts
include-AllIncluded_example =
    include-AllIncluded stockpile api provider anchors paid_wallet included_wallet
      (paid_prefab ∷ []) 7 100 1 (4 ∷ 8 ∷ []) (refl, (refl, tt)) (omega arith) bundle_included

-- The last output has the token of the first.
abbrev tokens : ℕ → List ℕ
tokens op = 8 ∷ 5 ∷ 8 ∷ []

resolver_seals : seal_resolver stockpile api provider tokens (8 ∷ []) 1 ≡ some ((0, 8) ∷ [])
unfolding seal_resolver put
resolver_seals = refl

seal_resolver_first_example :
    ((j seal : ℕ)
      → lookup j ((0, 8) ∷ []) ≡ some seal
      → (nth j (tokens 1) ≡ some seal) × ((i : ℕ) → i < j → nth i (tokens 1) ≡ some seal → ⊥))
    × ((seal : ℕ)
        → Among seal (provider.resolve_seals (8 ∷ []) (tokens 1))
        → (j other : ℕ) × (lookup j ((0, 8) ∷ []) ≡ some other) × (other ≡ seal))
seal_resolver_first_example =
    seal_resolver_first stockpile api provider tokens (8 ∷ []) 1 ((0, 8) ∷ []) (omega arith)
      resolver_seals
