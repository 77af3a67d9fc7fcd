-- ===== src/Contract/New.antt =====
-- `with`, `issue` and `load` of src/contract.rs: how a contract comes into being.
use rgb_std.Base.{
  ℕ, ◌^◌, ◌<◌, ◌≡◌, refl, true, not, Option, none, some, List, [], arith, ltb, if◌then◌else◌, ◌>>=◌,
  lookup, length, Result, ok, err,
}
use rgb_std.Base.Results.{MultiError, in_a, in_b, in_c}
use rgb_std.Seals.{RgbSeal}
use rgb_std.Pile.{Pile}
use rgb_std.Ledger.{Ledger}
use rgb_std.Wire.{Wire}
use rgb_std.Host.{Host}
use rgb_std.Errors.{
  IssuerError, ConsumeError, issuer_mismatch, inner, verify, issue as consume_issue,
}
use rgb_std.Contract.{Contract}
use rgb_std.Contract.Params.{
  CreateParams, explicit_seals, issue_params, explicit_at, nth, lookup-explicit_seals,
  explicit_seals-IsDistinct,
}
use rgb_std.Contract.Consume.{evaluate_commit}
use rgb_std.Consignment.{Consignment, into_operations, take_operation}
use rgb_std.PileFs.{Files, pile_fs, new, cell_addr, seal, seals}
use rgb_std.PileFs.Valid.{FilesLaws}
use rgb_std.PileFs.Seals.{seals-add_seals}

module _ {S : RgbSeal} {P : Pile S} {L : Ledger} {W : Wire S} (H : Host P L W) where
  abbrev pub Issued : Type 0
  Issued = H.Disk × Result (MultiError (IssuerError L) L.StockError H.PileError) (Contract P L)

  abbrev pub founded : L.Log → P.Store → Contract P L
  founded ledger pile = record { contract_id = H.ledger_id ledger; ledger = ledger; pile = pile }

  -- The errors of `Ledger::new`, by `with_third` and `from_other_a`.
  abbrev pub ledger_error :
      MultiError L.IssueError L.StockError ⊥ → MultiError (IssuerError L) L.StockError H.PileError
  ledger_error (in_a e) = in_a (inner e)
  ledger_error (in_b e) = in_b e
  ledger_error (in_c e) = elim e [ ]

  abbrev pub issue_pile :
      List (ℕ × S.Definition) → L.Log → H.Disk × Result H.PileError P.Store → Option Issued
  issue_pile seals ledger (disk, err e) = some (disk, err (in_c e))
  issue_pile seals ledger (disk, ok pile) = do
    pile' ← P.add_seals pile (H.genesis_opid (L.articles ledger)) seals
    some (disk, ok (founded ledger pile'))

  abbrev pub issue_ledger :
      List (ℕ × S.Definition)
      → H.Disk × Result (MultiError L.IssueError L.StockError ⊥) L.Log
      → Option Issued
  issue_ledger seals (disk, err e) = some (disk, err (ledger_error e))
  issue_ledger seals (disk, ok ledger) = issue_pile seals ledger (H.new_pile disk (H.config ledger))

  abbrev pub issue_at :
      List (ℕ × S.Definition) → L.Articles → H.Disk × Result L.StockError H.Conf → Option Issued
  issue_at seals articles (disk, err e) = some (disk, err (in_b e))
  issue_at seals articles (disk, ok conf) = issue_ledger seals (H.new_ledger disk articles conf)

  abbrev pub Params : Type 0
  Params = CreateParams S.Definition L.Value L.Atom

  unfoldable pub issue :
      H.Disk
      → H.Issuer
      → Params
      → (H.Disk → L.Articles → H.Disk × Result L.StockError H.Conf)
      → Option Issued
  issue disk issuer params conf =
      if not (H.check params.issuer (H.issuer_id issuer))
      then some (disk, err (in_a issuer_mismatch))
      else do
        seals ← H.confine (explicit_seals 0 params.owned)
        let articles = H.issue issuer (issue_params S.auth_token params)
        issue_at seals articles (conf disk articles)

  abbrev pub Imported : Type 0
  Imported = H.Disk × Result (MultiError (ConsumeError W L) L.StockError H.PileError) (Contract P L)

  abbrev pub import_error :
      MultiError L.IssueError L.StockError ⊥
      → MultiError (ConsumeError W L) L.StockError H.PileError
  import_error (in_a e) = in_a (consume_issue (inner e))
  import_error (in_b e) = in_b e
  import_error (in_c e) = elim e [ ]

  abbrev pub with_evaluated :
      H.Disk → Option (Contract P L × Result L.VerifyError (Unit {0})) → Option Imported
  with_evaluated disk none = none
  with_evaluated disk (some (c, err e)) = some (disk, err (in_a (verify e)))
  with_evaluated disk (some (c, ok _)) = some (disk, ok c)

  abbrev pub with_pile :
      ℕ → ℕ → Consignment W → L.Log → H.Disk × Result H.PileError P.Store → Option Imported
  with_pile contract_id genesis_opid consignment ledger (disk, err e) = some (disk, err (in_c e))
  with_pile contract_id genesis_opid consignment ledger (disk, ok pile) = do
    pile' ← P.add_seals pile genesis_opid []
    with_evaluated disk (
        evaluate_commit H (take_operation W) (into_operations W consignment)
          (record { contract_id = contract_id; ledger = ledger; pile = pile' }))

  abbrev pub with_ledger :
      ℕ
      → ℕ
      → Consignment W
      → H.Disk × Result (MultiError L.IssueError L.StockError ⊥) L.Log
      → Option Imported
  with_ledger contract_id genesis_opid consignment (disk, err e) = some (disk, err (import_error e))
  with_ledger contract_id genesis_opid consignment (disk, ok ledger) =
      with_pile contract_id genesis_opid consignment ledger (H.new_pile disk (H.config ledger))

  -- `Contract::with`.
  unfoldable pub with_consignment : H.Disk → L.Articles → Consignment W → H.Conf → Option Imported
  with_consignment disk articles consignment conf =
      with_ledger (H.articles_id articles) (H.genesis_opid articles) consignment
        (H.new_ledger disk articles conf)

  abbrev pub load_with :
      Result L.StockError L.Log
      → Result H.PileError P.Store
      → Result (MultiError L.StockError H.PileError ⊥) (Contract P L)
  load_with (err e) pile = err (in_a e)
  load_with (ok ledger) (err e) = err (in_b e)
  load_with (ok ledger) (ok pile) = ok (founded ledger pile)

  unfoldable pub load :
      H.Disk → H.Conf → H.Conf → Result (MultiError L.StockError H.PileError ⊥) (Contract P L)
  load disk stock_conf pile_conf =
      load_with (H.load_ledger disk stock_conf) (H.load_pile disk pile_conf)

module _ {S : RgbSeal} {F : Files S} (laws : FilesLaws F) {L : Ledger} {W : Wire S}
    (H : Host (pile_fs F) L W) where
  open laws use {keep}

  no_seals : (o j : ℕ) → seal F (new F) (cell_addr o j) ≡ none
  unfolding seal new
  no_seals o j = keep.get-create_new (cell_addr o j)

  -- Issuing with an issuer that the parameters admit, seals that fit the map, and files and a ledger
  -- that can be made: the contract has the ledger of the articles that the issuer makes, and the pile
  -- has for each output of the genesis below `up_to` the explicit seal that the parameters give it.
  pub seals-issue :
      (disk disk1 disk2 disk3 : H.Disk) (issuer : H.Issuer) (params : Params H)
      (conf : H.Disk → L.Articles → H.Disk × Result L.StockError H.Conf) (at : H.Conf)
      (ledger : L.Log)
      → H.check params.issuer (H.issuer_id issuer) ≡ true
      → length params.owned < 2 ^ 16
      → H.confine (explicit_seals 0 params.owned) ≡ some (explicit_seals 0 params.owned)
      → conf disk (H.issue issuer (issue_params S.auth_token params)) ≡ (disk1, ok at)
      → H.new_ledger disk1 (H.issue issuer (issue_params S.auth_token params)) at
        ≡ (disk2, ok ledger)
      → H.new_pile disk2 (H.config ledger) ≡ (disk3, ok (new F))
      → (c : Contract (pile_fs F) L) × (issue H disk issuer params conf ≡ some (disk3, ok c))
        × (c.ledger ≡ ledger)
        × ((up_to j : ℕ)
            → lookup j (seals F c.pile (H.genesis_opid (L.articles ledger)) up_to)
              ≡ (if ltb j up_to then explicit_at (nth j params.owned) else none))
  unfolding issue
  seals-issue disk disk1 disk2 disk3 issuer params conf at ledger admit few fit e1 e2 e3 =
      let opid = H.genesis_opid (L.articles ledger) in
      let (pile, e, own, _) =
        seals-add_seals laws (new F) opid (explicit_seals 0 params.owned)
          (explicit_seals-IsDistinct 0 params.owned (omega arith)) (no_seals opid) in
      (
        founded H ledger pile,
        rw (admit, fit, e1, e2, e3, e),
        refl,
        λ up_to j. ground (arith, own up_to j, lookup-explicit_seals params.owned j few),
      )
