-- ===== src/Tests/Panics.antt =====
-- The theorem on the panic of `prefab` at a concrete input.
use rgb_std.Base.{
  arith, ℕ, ◌≡◌, refl, some, none, [], ◌∷◌, ◌>>=◌, ltb, if◌then◌else◌, length, All, put, set_put,
  ok,
}
use rgb_std.Seals.{cell_eq}
use rgb_std.Contract.Params.{alt}
use rgb_std.Contracts.{contract_articles, with_contract}
use rgb_std.Bp.{PrefabSeal, OpRequest}
use rgb_std.Bp.Api.{Confined}
use rgb_std.Bp.Check.{check_request, check_calcs, calc_step, find_used}
use rgb_std.Bp.Prefab.{prefab}
use rgb_std.Bp.Panics.{Capacity, SealsOutput, prefab_panics}
use rgb_std.Tests.Hosts.{stockpile}
use rgb_std.Tests.Payments.{bitcoin}
use rgb_std.Tests.Bundles.{three_state}
use rgb_std.Tests.Wallets.{api, provider, two_contracts, wallet, payment}

-- Collections of at most two entries, which take none when they are full.
abbrev small : Confined
small = record {
  try_from = λ l. if ltb 2 (length l) then none else some l;
  push = λ k s. if ltb (length s) 2 then some (set_put k s) else none;
  insert = λ k v m. if ltb (length m) 2 then some (put k v m) else none;
}

capacity : Capacity small 2
capacity = record {
  try_from_fits = λ A l h. ground (arith, h);
  push_fits = λ k s h. ground (arith, h);
  insert_fits = λ V k v m h. ground (arith, h);
  insert_full = λ V k v m h new. ground (arith, h);
}

-- All three outputs are at the output 0 of the transaction.
abbrev thrice : OpRequest bitcoin ℕ ℕ (PrefabSeal bitcoin)
thrice = record payment {
  owned =
      record {
        name = 7;
        state = record { seal = alt (record { vout = 0; noise = some 20 }); value = 30 };
      }
      ∷ record {
        name = 7;
        state = record { seal = alt (record { vout = 0; noise = some 21 }); value = 10 };
      }
      ∷ record {
        name = 7;
        state = record { seal = alt (record { vout = 0; noise = some 22 }); value = 10 };
      }
      ∷ [];
}

accepted : check_request stockpile api two_contracts thrice ≡ some (ok tt, two_contracts)
unfolding check_request contract_articles with_contract check_calcs calc_step find_used cell_eq put
accepted = rw (three_state, ◌>>=◌) refl

at_output : All (SealsOutput 0) thrice.owned
at_output = ((_, refl, refl), ((_, refl, refl), ((_, refl, refl), tt)))

prefab_panics_example : prefab stockpile api provider small wallet thrice ≡ none
prefab_panics_example =
    prefab_panics stockpile api provider small 2 capacity (omega arith) (omega arith) wallet thrice
      two_contracts 0 accepted (omega arith) at_output (omega arith)
