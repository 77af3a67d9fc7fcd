-- ===== src/Contract/Consume/Ends.antt =====
-- How `Contract::consume` of src/contract.rs ends.
use mathlib.Core.Path.{subst}
use rgb_std.Base.{
  ℕ, ◌≡◌, refl, ap, ◌∙◌, ◌⊎◌, inl, inr, some, arith, ◌==◌, ==_iff, ==_refl, Bool-cases,
  Option-cases, ok, err, Result,
}
use rgb_std.Base.Results.{MultiError, in_a, in_b, in_c, Result-cases}
use rgb_std.Seals.{RgbSeal}
use rgb_std.Pile.{Pile}
use rgb_std.Ledger.{Ledger}
use rgb_std.Wire.{Wire}
use rgb_std.Host.{Host}
use rgb_std.Errors.{ConsumeError, unknown_contract, semantics, decode, verify}
use rgb_std.Contract.{Contract}
use rgb_std.Contract.Reader.{u32_max, read_operation}
use rgb_std.Contract.Consume.{
  Head, read_head, committed, evaluate_commit, Consumed, upgraded, check_articles, SealResolver,
  consume_internal, consume,
}
use rgb_std.Consignment.{parse_consignment}

module _ {S : RgbSeal} {P : Pile S} {L : Ledger} {W : Wire S} (H : Host P L W) (c : Contract P L)
    (stream : W.Stream) (resolver : SealResolver H) (validator : H.Validator) where
  -- The stream is of this contract, and decodes up to its operations.
  abbrev pub IsRead : Head W → W.Stream → Type 0
  IsRead head rest =
      (stream1 : W.Stream) × (parse_consignment W stream ≡ ok (c.contract_id, stream1))
      × (read_head H stream1 ≡ ok (head, rest))

  -- The evaluation of the operations from there.
  abbrev pub Evaluates : W.Stream → Contract P L → Result L.VerifyError (Unit {0}) → Type 0
  Evaluates rest c1 res =
      H.evaluate (read_operation W resolver) (record { stream = rest; count = u32_max }) c
      ≡ some (c1, res)

  -- The articles of the stream, with the genesis that the evaluated contract has.
  abbrev pub articles_of : Head W → Contract P L → Result L.SemanticError L.Articles
  articles_of head c1 =
      H.articles_with head.semantics
        (H.issue_with head.version head.meta head.codex
          (L.articles (L.commit_transaction c1.ledger)))
        head.sig validator

  -- The error of a stream that is not read: that of its decoding, or the contract that it is of.
  abbrev pub IsRefusal : MultiError (ConsumeError W L) L.StockError ⊥ → Type 0
  IsRefusal e =
      ((x : W.DecodeError) × (e ≡ in_a (decode x)))
      ⊎ ((id : ℕ) × (stream1 : W.Stream) × (parse_consignment W stream ≡ ok (id, stream1))
          × (id ≡ c.contract_id → ⊥)
          × (e ≡ in_a (unknown_contract id)))

  -- The four ends: nothing is done, the evaluation fails, the articles are refused after a commit, or
  -- all is accepted.
  pub data ConsumeEnds : Consumed H → Type 0 where
    refused :
        (e : MultiError (ConsumeError W L) L.StockError ⊥)
        → IsRefusal e
        → ((head : Head W) (rest : W.Stream) → IsRead head rest → ⊥)
        → ConsumeEnds (c, err e)
    not_evaluated :
        (head : Head W) (rest : W.Stream) (c1 : Contract P L) (e : L.VerifyError)
        → IsRead head rest
        → Evaluates rest c1 (err e)
        → ConsumeEnds (c1, err (in_a (verify e)))
    not_upgraded :
        (head : Head W) (rest : W.Stream) (c1 : Contract P L) (log : L.Log)
        (e : MultiError (ConsumeError W L) L.StockError ⊥)
        → IsRead head rest
        → Evaluates rest c1 (ok tt)
        → ((x : L.SemanticError) × (articles_of head c1 ≡ err x)
            × (e ≡ in_a (semantics x))
            × (log ≡ L.commit_transaction c1.ledger))
          ⊎ ((articles : L.Articles) × (x : MultiError L.SemanticError L.StockError ⊥)
              × (articles_of head c1 ≡ ok articles)
              × (H.upgrade_apis (L.commit_transaction c1.ledger) articles ≡ (log, err x)))
        → ConsumeEnds (record c1 { ledger = log; pile = P.commit_transaction c1.pile }, err e)
    consumed :
        (head : Head W) (rest : W.Stream) (c1 : Contract P L) (log : L.Log) (articles : L.Articles)
        → IsRead head rest
        → Evaluates rest c1 (ok tt)
        → articles_of head c1 ≡ ok articles
        → H.upgrade_apis (L.commit_transaction c1.ledger) articles ≡ (log, ok tt)
        → ConsumeEnds (record c1 { ledger = log; pile = P.commit_transaction c1.pile }, ok tt)

  -- After the articles were accepted.
  upgraded-ConsumeEnds :
      (head : Head W) (rest : W.Stream) (c1 : Contract P L) (articles : L.Articles)
      (made : L.Log × Result (MultiError L.SemanticError L.StockError ⊥) (Unit {0}))
      → IsRead head rest
      → Evaluates rest c1 (ok tt)
      → articles_of head c1 ≡ ok articles
      → H.upgrade_apis (L.commit_transaction c1.ledger) articles ≡ made
      → ConsumeEnds (upgraded H (committed H c1) made)
  upgraded-ConsumeEnds head rest c1 articles (log, ok _) r v a u =
      consumed head rest c1 log articles r v a u
  upgraded-ConsumeEnds head rest c1 articles (log, err (in_a e)) r v a u =
      not_upgraded head rest c1 log _ r v (inr (articles, in_a e, a, u))
  upgraded-ConsumeEnds head rest c1 articles (log, err (in_b e)) r v a u =
      not_upgraded head rest c1 log _ r v (inr (articles, in_b e, a, u))
  upgraded-ConsumeEnds head rest c1 articles (log, err (in_c e)) r v a u = absurd e

  -- After the stream was read up to its operations.
  evaluated-ConsumeEnds :
      (head : Head W) (rest : W.Stream) (result : Consumed H)
      → IsRead head rest
      → check_articles H head validator (
          evaluate_commit H
            (read_operation W resolver)
            (record { stream = rest; count = u32_max })
            c)
        ≡ some result
      → ConsumeEnds result
  unfolding evaluate_commit
  evaluated-ConsumeEnds head rest result r e =
      let run =
        H.evaluate (read_operation W resolver) (record { stream = rest; count = u32_max }) c in
      elim (Option-cases run) [
        | inl panics ↦ absurd (ground (arith, panics, e))
        | inr ((c1, res), v) ↦ elim (Result-cases res) [
          | inl (x, bad) ↦
              let same : (c1, err (in_a (verify x))) ≡ result = ground (arith, v, bad, e) in
              subst ConsumeEnds same
                (not_evaluated head rest c1 x r (v ∙ ap (λ z. some (c1, z)) bad))
          | inr (_, good) ↦
              let v1 : Evaluates rest c1 (ok tt) = v ∙ ap (λ z. some (c1, z)) good in
              elim (Result-cases (articles_of head c1)) [
                | inl (x, bad) ↦
                    let same : (committed H c1, err (in_a (semantics x))) ≡ result =
                      ground (arith, v1, bad, e) in
                    subst ConsumeEnds same
                      (not_upgraded head rest c1 _ _ r v1 (inl (x, bad, refl, refl)))
                | inr (articles, a) ↦
                    let made = H.upgrade_apis (L.commit_transaction c1.ledger) articles in
                    let same : upgraded H (committed H c1) made ≡ result =
                      ground (arith, v1, a, e) in
                    subst ConsumeEnds same
                      (upgraded-ConsumeEnds head rest c1 articles made r v1 a refl)
              ]
        ]
      ]

  -- Where consuming a stream does not panic, it ends in one of four ways. It does nothing and is an
  -- error exactly where the stream does not decode up to the operations or is of another contract:
  -- the error is one of decoding, or names the contract that the stream is of in place of this one.
  -- Else the operations are evaluated: a failure leaves what the evaluation left, uncommitted. Else
  -- both the ledger and the pile are committed, also where the articles or their signature are then
  -- refused, or the ledger does not take them; and the call succeeds only with articles that are
  -- accepted, of the genesis that was evaluated, and that the ledger took.
  pub consume-ConsumeEnds :
      (result : Consumed H)
      → consume H c stream resolver validator ≡ some result
      → ConsumeEnds result
  unfolding consume consume_internal
  consume-ConsumeEnds result e = elim (Result-cases (parse_consignment W stream)) [
    | inl (x, bad) ↦
        let same : (c, err (in_a (decode x))) ≡ result = ground (arith, bad, e) in
        subst ConsumeEnds same
          (refused _ (inl (x, refl)) (λ head rest r. absurd (ground (arith, bad, r.1))))
    | inr ((id, stream1), parsed) ↦ elim (Bool-cases (id == c.contract_id)) [
      | inr other ↦
          let same : (c, err (in_a (unknown_contract id))) ≡ result =
            ground (arith, parsed, other, e) in
          subst ConsumeEnds same (
            refused _
              (inr (id, stream1, parsed, λ i. absurd (ground (arith, i, other, ==_refl id)), refl))
              (λ head rest r. absurd (ground (arith, parsed, r.1, other, ==_refl c.contract_id))))
      | inl same_id ↦
          let id_is : id ≡ c.contract_id = (==_iff id c.contract_id).0 same_id in
          let parsed1 : parse_consignment W stream ≡ ok (c.contract_id, stream1) =
            parsed ∙ ap (λ i. ok (i, stream1)) id_is in
          elim (Result-cases (read_head H stream1)) [
            | inl (x, bad) ↦
                let same : (c, err (in_a (decode x))) ≡ result =
                  ground (arith, parsed1, ==_refl c.contract_id, bad, e) in
                subst ConsumeEnds same (
                  refused _ (inl (x, refl))
                    (λ head rest r. absurd (ground (arith, parsed1, r.1, r.2, bad))))
            | inr ((head, rest), headed) ↦
                evaluated-ConsumeEnds head rest result (stream1, parsed1, headed)
                  (ground (arith, parsed1, ==_refl c.contract_id, headed, e))
          ]
    ]
  ]
