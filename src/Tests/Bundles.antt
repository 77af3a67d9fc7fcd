-- ===== src/Tests/Bundles.antt =====
-- The theorems on checked requests, prefabs and bundles at concrete inputs.
use rgb_std.Base.{
  arith, Result, ℕ, ◌≤◌, ◌^◌, ◌≡◌, refl, inl, inr, true, some, List, [], ◌∷◌, ◌>>=◌, lookup, insert,
  put, set_put, contains, ok,
}
use rgb_std.Status.{mined}
use rgb_std.Seals.{cell_addr_eq, cell_eq}
use rgb_std.Contract.{Contract}
use rgb_std.Contract.Params.{alt, nth}
use rgb_std.Contract.Call as Call
use rgb_std.Contracts.{
  Contracts, contract_state, contract_articles, with_contract, with_contract_mut, contract_ids,
  contract_call,
}
use rgb_std.Contracts.View.{current}
use rgb_std.Contracts.Reads.{SameView}
use rgb_std.Contracts.Named.{Among}
use rgb_std.Bp.Check.{check_request, check_calcs, calc_step, find_used}
use rgb_std.Bp.Checked.{values_in, values_out, IsBalanced}
use rgb_std.Bp.Conserved.{check_request-IsBalanced}
use rgb_std.Bp.Additive.{total, check_request-conserves}
use rgb_std.Bp.Wallet.{RgbWallet, noise_engine}
use rgb_std.Bp.Prefab.{
  called_prefab, Prefab, Outputs, prefab, outpoints_of, inputs_of, collect_outputs, noise_or,
  call_outputs, prefab_checked, parts_of, request_engine,
}
use rgb_std.Bp.Defined.{closed_by, defined_by, definition_at, cells_of}
use rgb_std.Bp.Prefabbed.{prefab_lem}
use rgb_std.Bp.Returned.{prefab_returns}
use rgb_std.Bp.Bundling.{
  Gathered, Request, closes, blank_requests, bundle_gathered, extend, bundle_requests, bundle,
}
use rgb_std.Bp.Bundle.{add_prefab, blank_request, used_states}
use rgb_std.Bp.Bundled.{IsMade, empty}
use rgb_std.Bp.BlankUses.{use_of}
use rgb_std.Bp.Covered.{bundle-IsMade, bundle-moves}
use rgb_std.Tests.Samples.{numbers, pile, ledger, contract, cell}
use rgb_std.Tests.Hosts.{stockpile}
use rgb_std.Tests.States.{resolved_state, state_resolved}
use rgb_std.Tests.Wallets.{
  api, compare_eq, api-IsAdditive, confined, confined_bounds, confined_laws, provider,
  two_contracts, other_contract, wallet, payment,
}

pub at_three : current stockpile two_contracts 3 ≡ some contract
unfolding current
at_three = refl

check_request-IsBalanced_example :
    ((cs' : Contracts stockpile)
      → check_request stockpile api two_contracts payment ≡ some (ok tt, cs')
      → SameView stockpile two_contracts cs'
        × ((l : List (ℕ × ℕ)) × (values_in resolved_state.owned payment.using ≡ some l)
            × ((name : ℕ) → IsBalanced api 77 name l (values_out payment.owned))))
    × ((l : List (ℕ × ℕ))
        → values_in resolved_state.owned payment.using ≡ some l
        → ((name : ℕ) → IsBalanced api 77 name l (values_out payment.owned))
        → (cs' : Contracts stockpile) × (check_request stockpile api two_contracts payment
            ≡ some (ok tt, cs')))
check_request-IsBalanced_example =
    check_request-IsBalanced stockpile api two_contracts payment contract resolved_state at_three
      (state_resolved 3)

pub three_state : contract_state stockpile two_contracts 3 ≡ some (resolved_state, two_contracts)
unfolding contract_state with_contract
three_state = rw (state_resolved 3) refl

accepted : check_request stockpile api two_contracts payment ≡ some (ok tt, two_contracts)
unfolding check_request contract_articles with_contract check_calcs calc_step find_used cell_eq put
accepted = rw (three_state, ◌>>=◌) refl

check_request-conserves_example :
    (l : List (ℕ × ℕ)) × (values_in resolved_state.owned payment.using ≡ some l)
    × ((name : ℕ) → total (λ v. v) name l ≡ total (λ v. v) name (values_out payment.owned))
check_request-conserves_example =
    check_request-conserves stockpile api two_contracts two_contracts payment contract
      resolved_state (λ v. v) api-IsAdditive at_three (state_resolved 3) accepted

-- The ledger has the operation 11, and the pile its seal in output 0.
abbrev pub paid_contract : Contract pile ledger
paid_contract = record {
  contract_id = 3;
  ledger = 11 ∷ [];
  pile = record contract.pile { keep = (cell 11 0, 20) ∷ contract.pile.keep };
}

abbrev pub paid_wallet : RgbWallet stockpile provider
paid_wallet = record wallet {
  contracts = record two_contracts { contracts = (3, paid_contract) ∷ (5, other_contract) ∷ [] };
}

abbrev pub paid_prefab : Prefab ledger
paid_prefab = record { closes = 8 ∷ []; defines = 0 ∷ []; operation = 11 }

prefab_made :
    prefab stockpile api provider confined wallet payment ≡ some (paid_wallet, ok paid_prefab)
unfolding prefab contract_call insert cell_addr_eq Call.call rgb_std.PileFs.add_seals
    with_contract_mut outpoints_of inputs_of collect_outputs noise_or set_put put call_outputs
    prefab_checked
prefab_made = rw accepted refl

prefab_lem_example :
    (cs1 : Contracts stockpile) × (outputs : Outputs numbers ℕ) × (check_request stockpile api
        two_contracts payment
      ≡ some (ok tt, cs1))
    × (contract_call stockpile cs1 3
          (api.call_params (parts_of stockpile api provider confined payment outputs))
          outputs.seals
        ≡ some (paid_wallet.contracts, ok 11))
    × ((o : ℕ) → contains (8 ∷ []) o ≡ closed_by payment.using o)
    × ((v : ℕ) → contains (0 ∷ []) v ≡ defined_by provider confined ℕ payment.owned v)
    × (outputs.owned
        ≡ cells_of provider confined ℕ
            (request_engine stockpile api provider confined wallet 3)
            0
            payment.owned)
    × ((i : ℕ)
        → 2 ≤ 2 ^ 16
        → lookup i outputs.seals
          ≡ definition_at provider confined ℕ
              (request_engine stockpile api provider confined wallet 3)
              i
              (nth i payment.owned))
prefab_lem_example =
    prefab_lem stockpile api provider confined confined_laws wallet paid_wallet payment paid_prefab
      prefab_made

prefab_returns_example :
    (outputs : Outputs numbers ℕ) × ((cs2 : Contracts stockpile) (res : Result ℕ ℕ)
      → contract_call stockpile two_contracts 3
          (api.call_params (parts_of stockpile api provider confined payment outputs))
          outputs.seals
        ≡ some (cs2, res)
      → prefab stockpile api provider confined wallet payment
        ≡ some (
          record wallet { contracts = cs2 },
          called_prefab stockpile api provider confined
              (outpoints_of payment.using)
              outputs.defines
              res,
        ))
prefab_returns_example =
    prefab_returns stockpile api provider confined confined_bounds wallet payment two_contracts
      accepted (omega arith) (omega arith)

abbrev gathered : Gathered ledger
gathered = record { contracts = 3 ∷ []; outpoints = 8 ∷ []; prefabs = paid_prefab ∷ [] }

requests_made :
    bundle_requests stockpile api provider confined wallet
      (payment ∷ [])
      (empty stockpile api provider confined confined_laws compare_eq)
    ≡ some (paid_wallet, ok gathered)
unfolding bundle_requests extend add_prefab set_put
requests_made = rw prefab_made refl

-- A blank operation of the contract 5, which has a state on the outpoint 8 too.
abbrev moved_contract : Contract pile ledger
moved_contract = record {
  contract_id = 5;
  ledger = 12 ∷ [];
  pile = record contract.pile { keep = (cell 12 0, 7) ∷ contract.pile.keep };
}

abbrev bundle_wallet : RgbWallet stockpile provider
bundle_wallet = record wallet {
  contracts = record two_contracts { contracts = (3, paid_contract) ∷ (5, moved_contract) ∷ [] };
}

abbrev made_bundle : List (Prefab ledger)
made_bundle = paid_prefab ∷ record { closes = 8 ∷ []; defines = 1 ∷ []; operation = 12 } ∷ []

five_state :
    contract_state stockpile paid_wallet.contracts 5 ≡ some (resolved_state, paid_wallet.contracts)
unfolding contract_state with_contract
five_state = rw (state_resolved 5) refl

-- The blank request, and what becomes of it.
abbrev blank_payment : Request stockpile api provider confined
blank_payment = record {
  contract_id = 5;
  method = 2;
  reading = [];
  using = payment.using;
  global = [];
  owned =
      record {
        name = 7;
        state = record { seal = alt (record { vout = 1; noise = some 6 }); value = 50 };
      }
      ∷ [];
}

blank_asked :
    blank_requests stockpile api provider confined 2 0
      (some 1)
      gathered
      paid_wallet.contracts
      (3 ∷ 5 ∷ [])
    ≡ some (paid_wallet.contracts, ok (blank_payment ∷ []))
unfolding blank_requests blank_request used_states contract_articles with_contract put
blank_asked = rw (five_state, ◌>>=◌) refl

blank_accepted :
    check_request stockpile api paid_wallet.contracts blank_payment
    ≡ some (ok tt, paid_wallet.contracts)
unfolding check_request contract_articles with_contract check_calcs calc_step find_used cell_eq put
blank_accepted = rw (five_state, ◌>>=◌) refl

blank_made :
    prefab stockpile api provider confined paid_wallet blank_payment
    ≡ some (bundle_wallet, ok (record { closes = 8 ∷ []; defines = 1 ∷ []; operation = 12 }))
unfolding prefab contract_call insert cell_addr_eq Call.call rgb_std.PileFs.add_seals
    with_contract_mut outpoints_of inputs_of collect_outputs noise_or set_put put call_outputs
    prefab_checked
blank_made = rw (blank_accepted, ◌>>=◌) refl

bundle_made :
    bundle stockpile api provider confined 2 wallet (payment ∷ []) (some 1)
    ≡ some (bundle_wallet, ok made_bundle)
unfolding bundle bundle_gathered contract_ids noise_engine add_prefab
bundle_made = rw (requests_made, ◌>>=◌, blank_asked, blank_made) refl

bundle-IsMade_example :
    IsMade stockpile api provider confined confined_laws compare_eq payment made_bundle
bundle-IsMade_example =
    bundle-IsMade stockpile api provider confined confined_laws compare_eq 2 wallet bundle_wallet
      (payment ∷ []) (some 1) made_bundle payment bundle_made (inl refl)

other_listed : Among 5 (contract_ids stockpile paid_wallet.contracts)
unfolding contract_ids
other_listed = inr (inl refl)

at_five : current stockpile paid_wallet.contracts 5 ≡ some other_contract
unfolding current
at_five = refl

bundle-moves_example :
    (request : Request stockpile api provider confined) × (request.contract_id ≡ 5)
    × Among
        (use_of api provider (record {
          addr = cell 1 0;
          assignment = record { seal = 8; value = 50 };
          status = mined 100;
        }))
        request.using
    × IsMade stockpile api provider confined confined_laws compare_eq request made_bundle
    × (contains (outpoints_of request.using) 8 ≡ true)
unfolding closes
bundle-moves_example =
    bundle-moves stockpile api provider confined confined_laws compare_eq 2 wallet bundle_wallet
      paid_wallet (payment ∷ []) (some 1) made_bundle gathered 5 other_contract resolved_state 7 _ _
      bundle_made requests_made other_listed refl at_five (state_resolved 5) (inl refl) (inl refl)
      refl
