-- ===== src/Tests/Payments.antt =====
-- The theorems on operation requests at concrete inputs.
use rgb_std.Base.{
  ℕ, ◌+◌, ◌==◌, ◌≡◌, ◌⊎◌, Option, none, some, List, [], ◌∷◌, if◌then◌else◌, nat_eq, ok, err,
}
use rgb_std.Contract.Params.{alt}
use rgb_std.Bp.{Bitcoin, PrefabSeal, WoutAssignment, OpRequest, UnresolvedSeal}
use rgb_std.Bp.Requests.{resolve_seals}
use rgb_std.Bp.Resolved.{AllResolved, Fails, AskedBy, resolve_seals-AllResolved}

-- An output has its own number as noise, and the script of the number after it.
abbrev pub bitcoin : Bitcoin
bitcoin = record {
  WitnessOut = ℕ;
  Noise = ℕ;
  Satisfaction = ℕ;
  wout_eq = nat_eq;
  script_pubkey = λ w. w + 1;
  noise = λ w. w;
}

abbrev request : OpRequest bitcoin ℕ ℕ (Option (WoutAssignment bitcoin))
request = record {
  contract_id = 3;
  method = 1;
  reading = [];
  using = [];
  global = [];
  owned =
      record {
        name = 7;
        state = record { seal = alt (some (record { wout = 20; sats = 546 })); value = 50 };
      }
      ∷ record { name = 7; state = record { seal = alt none; value = 51 } }
      ∷ [];
}

-- The transaction pays to the script 21 in its output 0.
abbrev pub resolver : ℕ → Option ℕ
resolver script = if script == 21 then some 0 else none

resolve_seals-AllResolved_example :
    ((items : List (OpRequest bitcoin ℕ ℕ (PrefabSeal bitcoin))) × (resolve_seals bitcoin resolver
          (some 1)
          (request ∷ [])
        ≡ ok items)
      × AllResolved bitcoin resolver (some 1) (request ∷ []) items)
    ⊎ ((e : UnresolvedSeal) × (resolve_seals bitcoin resolver (some 1) (request ∷ []) ≡ err e)
        × Fails bitcoin resolver (some 1) e
        × AskedBy bitcoin (request ∷ []) e)
resolve_seals-AllResolved_example =
    resolve_seals-AllResolved bitcoin resolver (some 1) (request ∷ [])
