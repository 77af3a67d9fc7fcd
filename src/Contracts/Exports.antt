-- ===== src/Contracts/Exports.antt =====
-- `issuers`, `export` and `consign` of src/contracts.rs.
use rgb_std.Base.{ℕ, Option, none, some, List, [], ◌∷◌, ◌>>=◌}
use rgb_std.Seals.{RgbSeal}
use rgb_std.Pile.{Pile}
use rgb_std.Ledger.{Ledger}
use rgb_std.Wire.{Wire}
use rgb_std.Stockpile.{Stockpile}
use rgb_std.Contract.Export.{Writing, Written}
use rgb_std.Contract.Export as Export
use rgb_std.Contracts.{Contracts, issuer, with_contract, with_contract_mut}

module _ {S : RgbSeal} {P : Pile S} {L : Ledger} {W : Wire S} (Sp : Stockpile P L W) where
  abbrev pub with_issuer :
      ℕ
      → Option Sp.Issuer
      → List (ℕ × Sp.Issuer) × Contracts Sp
      → List (ℕ × Sp.Issuer) × Contracts Sp
  with_issuer codex_id none rest = rest
  with_issuer codex_id (some schema) (schemata, cs) = ((codex_id, schema) ∷ schemata, cs)

  issuers_of : Contracts Sp → List ℕ → List (ℕ × Sp.Issuer) × Contracts Sp
  issuers_of cs [] = ([], cs)
  issuers_of cs (codex_id ∷ ids) =
      let (found, cs') = issuer Sp cs codex_id in with_issuer codex_id found (issuers_of cs' ids)

  unfoldable issuers : Contracts Sp → List (ℕ × Sp.Issuer) × Contracts Sp
  unfolding issuers_of
  issuers cs = issuers_of cs (Sp.codex_ids cs.persistence)

  module _ (X : Writing L W) where
    unfoldable export : Contracts Sp → ℕ → X.Writer → Option (Written P L X × Contracts Sp)
    export cs contract_id writer =
        with_contract Sp cs contract_id (λ contract. Export.export P L X contract writer) none

    unfoldable consign :
        Contracts Sp → ℕ → List ℕ → X.Writer → Option (Contracts Sp × Written P L X)
    consign cs contract_id terminals writer =
        with_contract_mut Sp cs contract_id
          λ contract. Export.consign P L X contract terminals writer >>= λ res. some (contract, res)
