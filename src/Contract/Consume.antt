-- ===== src/Contract/Consume.antt =====
-- `consume`, `consume_internal` and `evaluate_commit` of src/contract.rs: a stream of operations is
-- evaluated against a contract.
pub mod Ends
use rgb_std.Base.{
  ℕ, zero, suc, ◌≡◌, false, not, Option, none, some, List, ◌==◌, ==_refl, if◌then◌else◌, Result, ok,
  err,
}
use rgb_std.Base.Results.{◌>>=◌, MultiError, in_a, in_b, in_c}
use rgb_std.Seals.{RgbSeal}
use rgb_std.Pile.{Pile}
use rgb_std.Ledger.{Ledger}
use rgb_std.Wire.{Wire}
use rgb_std.Host.{Host}
use rgb_std.Errors.{ConsumeError, unknown_contract, semantics, decode, verify}
use rgb_std.Contract.{Contract}
use rgb_std.Contract.Reader.{OperationSeals, OpReader, u32_max, read_operation}
use rgb_std.Consignment.{parse_consignment}

-- What is read before the operations.
pub record Head {S : RgbSeal} (W : Wire S) : Type 0 where
  pub semantics : W.Semantics
  pub sig : Option W.SigBlob
  pub version : W.Version
  pub meta : W.ContractMeta
  pub codex : W.Codex

module _ {S : RgbSeal} {P : Pile S} {L : Ledger} {W : Wire S} (H : Host P L W) where
  -- The extension blocks, which are read and ignored.
  unfoldable pub skip_ext_blocks : ℕ → W.Stream → Result W.DecodeError (Unit {0} × W.Stream)
  skip_ext_blocks zero stream = ok (tt, stream)
  skip_ext_blocks (suc n) stream = do
    len ← W.u16 stream
    skipped ← W.read_raw len.0 len.1
    skip_ext_blocks n skipped.1

  unfoldable pub read_head : W.Stream → Result W.DecodeError (Head W × W.Stream)
  unfolding skip_ext_blocks
  read_head stream = do
    ext_blocks ← W.u8 stream
    skipped ← skip_ext_blocks ext_blocks.0 ext_blocks.1
    read ← W.semantics skipped.1
    sig ← W.sig read.1
    version ← W.version sig.1
    meta ← W.meta version.1
    codex ← W.codex meta.1
    ok (
      record {
        semantics = read.0;
        sig = sig.0;
        version = version.0;
        meta = meta.0;
        codex = codex.0;
      },
      codex.1,
    )

  abbrev pub committed : Contract P L → Contract P L
  committed c = record c {
    ledger = L.commit_transaction c.ledger;
    pile = P.commit_transaction c.pile;
  }

  abbrev pub commit_evaluated :
      Option (Contract P L × Result L.VerifyError (Unit {0}))
      → Option (Contract P L × Result L.VerifyError (Unit {0}))
  commit_evaluated none = none
  commit_evaluated (some (c, err e)) = some (c, err e)
  commit_evaluated (some (c, ok _)) = some (committed c, ok tt)

  unfoldable pub evaluate_commit :
      {R : Type 0}
      → (R → Result W.DecodeError (Option (OperationSeals W) × R))
      → R
      → Contract P L
      → Option (Contract P L × Result L.VerifyError (Unit {0}))
  evaluate_commit read reader c = commit_evaluated (H.evaluate read reader c)

  abbrev pub Consumed : Type 0
  Consumed = Contract P L × Result (MultiError (ConsumeError W L) L.StockError ⊥) (Unit {0})

  -- `upgrade_apis(articles).map_err(MultiError::from_other_a)?`.
  abbrev pub upgraded :
      Contract P L
      → L.Log × Result (MultiError L.SemanticError L.StockError ⊥) (Unit {0})
      → Consumed
  upgraded c (log, ok _) = (record c { ledger = log }, ok tt)
  upgraded c (log, err (in_a e)) = (record c { ledger = log }, err (in_a (semantics e)))
  upgraded c (log, err (in_b e)) = (record c { ledger = log }, err (in_b e))
  upgraded c (log, err (in_c e)) = (record c { ledger = log }, err (in_c e))

  abbrev pub with_articles : Contract P L → Result L.SemanticError L.Articles → Consumed
  with_articles c (err e) = (c, err (in_a (semantics e)))
  with_articles c (ok articles) = upgraded c (H.upgrade_apis c.ledger articles)

  -- After the evaluation: the articles are made of the genesis that the ledger now has.
  abbrev pub check_articles :
      Head W
      → H.Validator
      → Option (Contract P L × Result L.VerifyError (Unit {0}))
      → Option Consumed
  check_articles head sig_validator none = none
  check_articles head sig_validator (some (c, err e)) = some (c, err (in_a (verify e)))
  check_articles head sig_validator (some (c, ok _)) =
      let issue = H.issue_with head.version head.meta head.codex (L.articles c.ledger) in
      some (with_articles c (H.articles_with head.semantics issue head.sig sig_validator))

  abbrev pub SealResolver : Type 0
  SealResolver = W.Operation → List (ℕ × S.Definition)

  abbrev pub consume_head :
      Contract P L
      → SealResolver
      → H.Validator
      → Result W.DecodeError (Head W × W.Stream)
      → Option Consumed
  consume_head c seal_resolver sig_validator (err e) = some (c, err (in_a (decode e)))
  consume_head c seal_resolver sig_validator (ok (head, stream)) =
      let op_reader : OpReader W = record { stream = stream; count = u32_max } in
      check_articles head sig_validator
        (evaluate_commit (read_operation W seal_resolver) op_reader c)

  unfoldable pub consume_internal :
      Contract P L → W.Stream → SealResolver → H.Validator → Option Consumed
  unfolding read_head evaluate_commit
  consume_internal c stream seal_resolver sig_validator =
      consume_head c seal_resolver sig_validator (read_head stream)

  abbrev pub consume_from :
      Contract P L
      → SealResolver
      → H.Validator
      → Result W.DecodeError (ℕ × W.Stream)
      → Option Consumed
  consume_from c seal_resolver sig_validator (err e) = some (c, err (in_a (decode e)))
  consume_from c seal_resolver sig_validator (ok (contract_id, stream)) =
      if not (contract_id == c.contract_id)
      then some (c, err (in_a (unknown_contract contract_id)))
      else consume_internal c stream seal_resolver sig_validator

  unfoldable pub consume : Contract P L → W.Stream → SealResolver → H.Validator → Option Consumed
  consume c stream seal_resolver sig_validator =
      consume_from c seal_resolver sig_validator (parse_consignment W stream)
