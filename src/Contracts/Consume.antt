-- ===== src/Contracts/Consume.antt =====
-- `consume` of src/contracts.rs: a consignment of a known contract, or of one to be imported.
pub mod Ends
use rgb_std.Base.{
  ℕ, ◌≡◌, refl, Bool, true, false, not, Option, some, arith, ==_refl, if◌then◌else◌, ◌>>=◌, insert,
  lookup-insert, Result, ok, err,
}
use rgb_std.Base.Results.{MultiError, in_a, in_b, in_c}
use rgb_std.Seals.{RgbSeal}
use rgb_std.Pile.{Pile}
use rgb_std.Ledger.{Ledger}
use rgb_std.Wire.{Wire}
use rgb_std.Host.{Host}
use rgb_std.Errors.{ConsumeError, unknown_contract, decode, semantics, issue as issue_error}
use rgb_std.Contract.{Contract}
use rgb_std.Contract.Reader.{OperationSeals}
use rgb_std.Contract.Consume.{consume_internal, SealResolver}
use rgb_std.Consignment.{ConsignmentHeader, Consignment, strict_decode, parse_consignment}
use rgb_std.Stockpile.{Stockpile}
use rgb_std.Contracts.{Contracts, IssueMultiError, has_contract, check_layer1, with_contract_mut}
use rgb_std.Contracts.View.{current}

module _ {S : RgbSeal} {P : Pile S} {L : Ledger} {W : Wire S} (Sp : Stockpile P L W)
    (H : Host P L W)
    (decode_header : W.Stream → Result W.DecodeError (ConsignmentHeader W × W.Stream))
    (decode_operation : W.Stream → Result W.DecodeError (OperationSeals W × W.Stream)) where
  abbrev pub Error : Type 0
  Error = MultiError (ConsumeError W L) L.StockError Sp.PileError

  abbrev pub Consumed : Type 0
  Consumed = Contracts Sp × Result Error (Unit {0})

  -- `MultiError::from_other_a`.
  abbrev pub layer_error : IssueMultiError Sp → Error
  layer_error (in_a e) = in_a (issue_error e)
  layer_error (in_b e) = in_b e
  layer_error (in_c e) = in_c e

  -- The `map_err` on the result of `consume_internal`.
  abbrev pub known_error :
      Result (MultiError (ConsumeError W L) L.StockError ⊥) (Unit {0}) → Result Error (Unit {0})
  known_error (ok _) = ok tt
  known_error (err (in_a e)) = err (in_a e)
  known_error (err (in_b e)) = err (in_b e)
  known_error (err (in_c e)) = elim e [ ]

  abbrev pub imported : Contracts Sp → ℕ → Sp.Store × Result Error (Contract P L) → Consumed
  imported cs contract_id (store, err e) = (record cs { persistence = store }, err e)
  imported cs contract_id (store, ok contract) = (
    record cs { persistence = store; contracts = insert contract_id contract cs.contracts },
    ok tt,
  )

  abbrev pub import_checked :
      Contracts Sp
      → ℕ
      → L.Articles
      → Consignment W
      → Result (IssueMultiError Sp) (Unit {0})
      → Option Consumed
  import_checked cs contract_id articles consignment (err e) = some (cs, err (layer_error e))
  import_checked cs contract_id articles consignment (ok _) =
      Sp.import_contract cs.persistence articles consignment >>= λ res.
      some (imported cs contract_id res)

  abbrev pub import_articles :
      Contracts Sp → ℕ → Consignment W → Result L.SemanticError L.Articles → Option Consumed
  import_articles cs contract_id consignment (err e) = some (cs, err (in_a (semantics e)))
  import_articles cs contract_id consignment (ok articles) =
      import_checked cs contract_id articles consignment
        (check_layer1 Sp cs (L.consensus articles) (L.testnet articles))

  -- `Consignment::articles`.
  abbrev pub articles : Consignment W → H.Validator → Result L.SemanticError L.Articles
  articles consignment sig_validator =
      H.articles_with consignment.header.semantics consignment.header.issue consignment.header.sig
        sig_validator

  abbrev pub import_decoded :
      Contracts Sp
      → ℕ
      → H.Validator
      → Result W.DecodeError (Consignment W × W.Stream)
      → Option Consumed
  import_decoded cs contract_id sig_validator (err e) = some (cs, err (in_a (decode e)))
  import_decoded cs contract_id sig_validator (ok (consignment, stream)) =
      import_articles cs contract_id consignment (articles consignment sig_validator)

  abbrev pub consume_parsed :
      Contracts Sp
      → Bool
      → SealResolver H
      → H.Validator
      → Result W.DecodeError (ℕ × W.Stream)
      → Option Consumed
  consume_parsed cs allow_unknown seal_resolver sig_validator (err e) =
      some (cs, err (in_a (decode e)))
  consume_parsed cs allow_unknown seal_resolver sig_validator (ok (contract_id, stream)) =
      if not (has_contract Sp cs contract_id)
      then (if allow_unknown
          then import_decoded cs contract_id sig_validator
              (strict_decode W decode_header decode_operation stream)
          else some (cs, err (in_a (unknown_contract contract_id))))
      else (with_contract_mut Sp cs contract_id
            (λ contract. consume_internal H contract stream seal_resolver sig_validator)
          >>= λ res. some (res.0, known_error res.1))

  unfoldable pub consume :
      Contracts Sp → Bool → W.Stream → SealResolver H → H.Validator → Option Consumed
  consume cs allow_unknown stream seal_resolver sig_validator =
      consume_parsed cs allow_unknown seal_resolver sig_validator (parse_consignment W stream)
