-- ===== src/Tests/Wallets.antt =====
-- Concrete instances of the parameters of the wallet: calculators that add up, and a wallet that is a
-- list of outpoints.
use rgb_std.Base.{
  ℕ, ◌+◌, ◌-◌, ◌^◌, ◌≡◌, refl, inl, inr, sym, false, compare, Ordering, none, some, List, [], ◌∷◌,
  arith, ◌==◌, ltb, if◌then◌else◌, Bool-cases, length, put, set_put, contains, Result, ok, err,
}
use rgb_std.Base.Results.{in_b}
use rgb_std.Contract.{Contract}
use rgb_std.Contract.Params.{alt, token}
use rgb_std.Contracts.{Contracts}
use rgb_std.Bp.{PrefabSeal, OpRequest}
use rgb_std.Bp.Api.{Api, Confined, ConfinedLaws}
use rgb_std.Bp.Additive.{IsAdditive}
use rgb_std.Bp.Returned.{ConfinedBounds}
use rgb_std.Bp.Runs.{run_all}
use rgb_std.Bp.Wallet.{WalletProvider, RgbWallet}
use rgb_std.Bp.Fulfilled.{IsRegular}
use rgb_std.Tests.Samples.{numbers, pile, ledger, contract, cell}
use rgb_std.Tests.Hosts.{stockpile, directory}
use rgb_std.Tests.Payments.{bitcoin}

-- What went in and what went out.
abbrev lessen : ℕ × ℕ → ℕ → (ℕ × ℕ) × Result ℕ (Unit {0})
lessen (i, o) v = if ltb i (o + v) then ((i, o), err 1) else ((i, o + v), ok tt)

abbrev diff : ℕ × ℕ → Result ℕ (List ℕ)
diff (i, o) = if ltb i o then err 2 else if i == o then ok [] else ok ((i - o) ∷ [])

-- The operation is the method and 10; 11 is of the contract 3.
abbrev pub api : Api bitcoin ledger
api = record {
  Calc = ℕ × ℕ;
  CalcError = ℕ;
  AcceptError = ℕ;
  default_call = λ a. some (record { method = 1; owned = some 7 });
  calculate = λ a name. some (0, 0);
  accumulate = λ c v. ((c.0 + v, c.1), ok tt);
  lessen = lessen;
  diff = diff;
  call_params = λ parts. parts.method + 10;
  call_error = in_b;
  op_contract_id = λ o. if o == 11 then 3 else 5;
  opid = λ o. o;
  op_compare = compare;
}

pub compare_eq : (a b : ℕ) → compare a b ≡ Ordering.eq → a ≡ b
compare_eq a b e = ground (arith, e)

pub api-IsAdditive : IsAdditive api (λ v. v)
api-IsAdditive = record {
  inflow = λ c. c.0;
  outflow = λ c. c.1;
  calculate_zero = λ a name calc e. ground (arith, e);
  accumulate_adds = λ a b v e. ground (arith, e);
  lessen_adds = λ a b v e. ground (arith, e);
  diff_zero = λ c e. ground (arith, e);
}

-- The difference can be assigned, and then there is none.
diff_remainder :
    (i o : ℕ) (values : List ℕ)
    → diff (i, o) ≡ ok values
    → (last : ℕ × ℕ) × (run_all api 77 lessen values (i, o) ≡ ok last) × (diff last ≡ ok [])
diff_remainder i o values h = elim (Bool-cases (ltb i o)) [
  | inl less ↦ absurd (ground (arith, h, less))
  | inr fits ↦ elim (Bool-cases (i == o)) [
    | inl same ↦
        let none_left : [] ≡ values = ground (arith, h, fits, same) in
        ((i, o), rw (sym none_left) refl, rw (fits, same) refl)
    | inr more ↦
        let rest : (i - o) ∷ [] ≡ values = ground (arith, h, fits, more) in
        let all : o + (i - o) ≡ i = ground (arith, fits) in
        let enough : ltb i (o + (i - o)) ≡ false = ground (arith, all) in
        ((i, o + (i - o)), rw (sym rest) (rw enough refl), ground (arith, all))
  ]
]

pub api-IsRegular : IsRegular api 77
api-IsRegular = record {
  clean = λ a b v e h. absurd (ground (arith, h));
  remainder = λ c values h. diff_remainder c.0 c.1 values h;
}

abbrev pub confined : Confined
confined = record {
  try_from = λ l. if ltb (length l) (2 ^ 16) then some l else none;
  push = λ k s. if ltb (length s + 1) (2 ^ 16) then some (set_put k s) else none;
  insert = λ k v m. if ltb (length m + 1) (2 ^ 16) then some (put k v m) else none;
}

pub confined_laws : ConfinedLaws confined
confined_laws = record {
  try_from_some = λ A l l' e. ground (arith, e);
  push_some = λ k s s' e. ground (arith, e);
  insert_some = λ V k v m m' e. ground (arith, e);
}

pub confined_bounds : ConfinedBounds confined
confined_bounds = record {
  try_from_fits = λ A l h. ground (arith, h);
  push_fits = λ k s h. ground (arith, h);
  insert_fits = λ V k v m h. ground (arith, h);
}

abbrev pub kept : List ℕ → List ℕ → List ℕ
kept wallet [] = []
kept wallet (auth ∷ auths) =
    if contains wallet auth then auth ∷ kept wallet auths else kept wallet auths

abbrev pub provider : WalletProvider bitcoin numbers
provider = record {
  Engine = ℕ;
  new_engine = 0;
  input_raw = λ e n. e + n;
  noise_with = λ v e n. v + e + n;
  witness_seal = λ s. s.primary + s.noise;
  no_fallback = λ o e n. o + e + n;
  primary = λ s. s;
  new_wout = λ a n. a + n;
  Wallet = List ℕ;
  noise_seed = λ w. 0;
  has_utxo = contains;
  utxos = λ w. w;
  register_seal = λ w s. s ∷ w;
  resolve_seals = kept;
  next_address = λ w. (1, w);
  next_nonce = λ w. (1, w);
}

-- The contracts 3 and 5 have the same states, and their first ones are on the same output.
abbrev pub other_contract : Contract pile ledger
other_contract = record { contract_id = 5; ledger = []; pile = contract.pile }

abbrev pub two_contracts : Contracts stockpile
two_contracts = record {
  issuers = [];
  contracts = (3, contract) ∷ (5, other_contract) ∷ [];
  persistence = record directory { contracts = (3, 30) ∷ (5, 50) ∷ [] };
}

abbrev pub wallet : RgbWallet stockpile provider
wallet = record { wallet = 8 ∷ []; contracts = two_contracts }

-- The first state of the contract 3 is split in two.
abbrev pub payment : OpRequest bitcoin ℕ ℕ (PrefabSeal bitcoin)
payment = record {
  contract_id = 3;
  method = 1;
  reading = [];
  using = record { addr = cell 1 0; outpoint = 8; satisfaction = none } ∷ [];
  global = [];
  owned =
      record {
        name = 7;
        state = record { seal = alt (record { vout = 0; noise = some 20 }); value = 30 };
      }
      ∷ record { name = 7; state = record { seal = token 99; value = 20 } }
      ∷ [];
}
