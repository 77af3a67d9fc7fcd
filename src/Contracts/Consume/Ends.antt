-- ===== src/Contracts/Consume/Ends.antt =====
-- How `Contracts::consume` of src/contracts.rs ends for a contract that is not known.
use mathlib.Core.Path.{subst}
use rgb_std.Base.{
  ◌⊎◌, ℕ, ◌≡◌, refl, inl, inr, Bool, true, false, some, arith, ◌==◌, ==_iff, ==_refl, if◌then◌else◌,
  lookup, lookup-insert, Bool-cases, Option-cases, Result, ok, err,
}
use rgb_std.Base.Results.{in_a, Result-cases}
use rgb_std.Seals.{RgbSeal}
use rgb_std.Pile.{Pile}
use rgb_std.Ledger.{Ledger}
use rgb_std.Wire.{Wire}
use rgb_std.Host.{Host}
use rgb_std.Errors.{unknown_contract, decode, semantics}
use rgb_std.Contract.{Contract}
use rgb_std.Contract.Reader.{OperationSeals}
use rgb_std.Contract.Consume.{SealResolver}
use rgb_std.Contract.Sync.{same_bool}
use rgb_std.Consignment.{ConsignmentHeader, Consignment, strict_decode, parse_consignment}
use rgb_std.Stockpile.{Stockpile}
use rgb_std.Contracts.{Contracts, IssueMultiError, has_contract, check_layer1}
use rgb_std.Contracts.Consume.{
  Error, Consumed, layer_error, articles, imported, import_articles, consume,
}

same_bool-eq : (a b : Bool) → same_bool a b ≡ true → a ≡ b
same_bool-eq true true h = refl
same_bool-eq false false h = refl
same_bool-eq true false h = absurd (cc)
same_bool-eq false true h = absurd (cc)

same_bool_refl : (b : Bool) → same_bool b b ≡ true
same_bool_refl true = refl
same_bool_refl false = refl

module _ {S : RgbSeal} {P : Pile S} {L : Ledger} {W : Wire S} (Sp : Stockpile P L W) where
  -- The articles are of the layer of the stockpile.
  abbrev pub SameLayer : Contracts Sp → L.Articles → Type 0
  SameLayer cs terms =
      (L.consensus terms ≡ Sp.consensus cs.persistence)
      × (L.testnet terms ≡ Sp.is_testnet cs.persistence)

  check_layer1-SameLayer :
      (cs : Contracts Sp) (terms : L.Articles)
      → (check_layer1 Sp cs (L.consensus terms) (L.testnet terms) ≡ ok tt → SameLayer cs terms)
        × (SameLayer cs terms → check_layer1 Sp cs (L.consensus terms) (L.testnet terms) ≡ ok tt)
  unfolding check_layer1
  check_layer1-SameLayer cs terms = (
    λ e. elim (Bool-cases (L.consensus terms == Sp.consensus cs.persistence)) [
      | inr other ↦ absurd (ground (arith, other, e))
      | inl same ↦ elim (Bool-cases (same_bool (L.testnet terms) (Sp.is_testnet cs.persistence))) [
        | inr other ↦ absurd (ground (arith, same, other, e))
        | inl net ↦ (
          (==_iff (L.consensus terms) (Sp.consensus cs.persistence)).0 same,
          same_bool-eq (L.testnet terms) (Sp.is_testnet cs.persistence) net,
        )
      ]
    ],
    λ h.
        rw
          (
            h.0,
            h.1,
            ==_refl (Sp.consensus cs.persistence),
            same_bool_refl (Sp.is_testnet cs.persistence),
          )
          refl,
  )

  module _ (H : Host P L W)
      (decode_header : W.Stream → Result W.DecodeError (ConsignmentHeader W × W.Stream))
      (decode_operation : W.Stream → Result W.DecodeError (OperationSeals W × W.Stream))
      (cs : Contracts Sp) (validator : H.Validator) where
    -- The consignment decodes, its articles are accepted, and they are of this layer.
    abbrev pub IsAccepted : W.Stream → Consignment W → L.Articles → Type 0
    IsAccepted stream1 consignment terms =
        (rest : W.Stream) × (strict_decode W decode_header decode_operation stream1
          ≡ ok (consignment, rest))
        × (articles Sp H decode_header decode_operation consignment validator ≡ ok terms)
        × SameLayer cs terms

    -- The error of a consignment that is not accepted, in the order of the checks.
    abbrev pub IsRefusal : W.Stream → Error Sp H decode_header decode_operation → Type 0
    IsRefusal stream1 e =
        ((x : W.DecodeError) × (strict_decode W decode_header decode_operation stream1 ≡ err x)
          × (e ≡ in_a (decode x)))
        ⊎ ((consignment : Consignment W) × (rest : W.Stream) × (strict_decode W decode_header
                decode_operation stream1
              ≡ ok (consignment, rest))
            × (((x : L.SemanticError) × (articles Sp H decode_header decode_operation consignment
                      validator
                    ≡ err x)
                  × (e ≡ in_a (semantics x)))
                ⊎ ((terms : L.Articles) × (x : IssueMultiError Sp) × (articles Sp H decode_header
                        decode_operation consignment validator
                      ≡ ok terms)
                    × (check_layer1 Sp cs (L.consensus terms) (L.testnet terms) ≡ err x)
                    × (e ≡ layer_error Sp H decode_header decode_operation x))))

    -- Nothing is done, or the stockpile does not import the contract, or it does.
    pub data ImportEnds (stream1 : W.Stream) (id : ℕ) (allow_unknown : Bool)
        : Consumed Sp H decode_header decode_operation → Type 0 where
      not_allowed :
          allow_unknown ≡ false
          → ImportEnds stream1 id allow_unknown (cs, err (in_a (unknown_contract id)))
      refused :
          (e : Error Sp H decode_header decode_operation)
          → allow_unknown ≡ true
          → IsRefusal stream1 e
          → ((consignment : Consignment W) (terms : L.Articles)
              → IsAccepted stream1 consignment terms
              → ⊥)
          → ImportEnds stream1 id allow_unknown (cs, err e)
      not_imported :
          (consignment : Consignment W) (terms : L.Articles) (store : Sp.Store)
          (e : Error Sp H decode_header decode_operation)
          → allow_unknown ≡ true
          → IsAccepted stream1 consignment terms
          → Sp.import_contract cs.persistence terms consignment ≡ some (store, err e)
          → ImportEnds stream1 id allow_unknown (record cs { persistence = store }, err e)
      is_imported :
          (consignment : Consignment W) (terms : L.Articles) (store : Sp.Store) (c : Contract P L)
          (cs' : Contracts Sp)
          → allow_unknown ≡ true
          → IsAccepted stream1 consignment terms
          → Sp.import_contract cs.persistence terms consignment ≡ some (store, ok c)
          → cs'.persistence ≡ store
          → cs'.issuers ≡ cs.issuers
          → ((j : ℕ) → lookup j cs'.contracts ≡ (if id == j then some c else lookup j cs.contracts))
          → ImportEnds stream1 id allow_unknown (cs', ok tt)

    -- After the checks.
    imported-ImportEnds :
        (stream1 : W.Stream) (id : ℕ) (consignment : Consignment W) (terms : L.Articles)
        (store : Sp.Store) (res : Result (Error Sp H decode_header decode_operation) (Contract P L))
        → IsAccepted stream1 consignment terms
        → Sp.import_contract cs.persistence terms consignment ≡ some (store, res)
        → ImportEnds stream1 id true
            (imported Sp H decode_header decode_operation cs id (store, res))
    imported-ImportEnds stream1 id consignment terms store (err e) a i =
        not_imported consignment terms store e refl a i
    imported-ImportEnds stream1 id consignment terms store (ok c) a i =
        is_imported consignment terms store c _ refl a i refl refl
          (λ j. lookup-insert id j c cs.contracts)

    -- Where the consignment was decoded.
    decoded-ImportEnds :
        (stream1 rest : W.Stream) (id : ℕ) (consignment : Consignment W)
        (result : Consumed Sp H decode_header decode_operation)
        → strict_decode W decode_header decode_operation stream1 ≡ ok (consignment, rest)
        → import_articles Sp H decode_header decode_operation cs id consignment
            (articles Sp H decode_header decode_operation consignment validator)
          ≡ some result
        → ImportEnds stream1 id true result
    decoded-ImportEnds stream1 rest id consignment result d e =
        let terms_of = articles Sp H decode_header decode_operation consignment validator in
        elim (Result-cases terms_of) [
          | inl (x, bad) ↦
              let same : (cs, err (in_a (semantics x))) ≡ result = ground (arith, bad, e) in
              subst (ImportEnds stream1 id true) same (
                refused _ refl (inr (consignment, rest, d, inl (x, bad, refl)))
                  (λ k terms a. absurd (ground (arith, d, bad, a.1, a.2))))
          | inr (terms, made) ↦
              let layer = check_layer1 Sp cs (L.consensus terms) (L.testnet terms) in
              elim (Result-cases layer) [
                | inl (x, bad) ↦
                    let same : (cs, err (layer_error Sp H decode_header decode_operation x))
                        ≡ result =
                      ground (arith, made, bad, e) in
                    subst (ImportEnds stream1 id true) same (
                      refused _ refl (inr (consignment, rest, d, inr (terms, x, made, bad, refl)))
                        (λ k terms' a.
                          let same_k : k ≡ consignment = ground (arith, d, a.1) in
                          let same_terms : terms' ≡ terms = ground (arith, same_k, made, a.2) in
                          let good : layer ≡ ok tt =
                            (check_layer1-SameLayer cs terms).1
                              (subst (SameLayer cs) same_terms a.3) in
                          absurd (ground (arith, good, bad))))
                | inr (x, good) ↦
                    let in_layer : layer ≡ ok tt = good in
                    elim (Option-cases (Sp.import_contract cs.persistence terms consignment)) [
                      | inl panics ↦ absurd (ground (arith, made, good, panics, e))
                      | inr ((store, res), i) ↦
                          let same : imported Sp H decode_header decode_operation cs id (store, res)
                              ≡ result =
                            ground (arith, made, good, i, e) in
                          let accepted : IsAccepted stream1 consignment terms =
                            (rest, d, made, (check_layer1-SameLayer cs terms).0 in_layer) in
                          subst (ImportEnds stream1 id true) same
                            (imported-ImportEnds stream1 id consignment terms store res accepted i)
                    ]
              ]
        ]

    -- Where the consignment names a contract that is not known, and consuming it does not panic, it
    -- ends in one of four ways. Where unknown contracts are not allowed, nothing is done and the
    -- error names the contract. Else nothing is done, and it is an error, only where the
    -- consignment does not decode, its articles are not accepted, or they are of another layer or
    -- network, and the error is that of the first of these. Else the stockpile is asked to import
    -- those articles with that consignment: its error is the result, with its store; and its
    -- contract is put in memory under the id that the consignment names, whatever the id of its
    -- articles is, in place of nothing else in memory.
    pub consume-ImportEnds :
        (stream stream1 : W.Stream) (id : ℕ) (resolver : SealResolver H) (allow_unknown : Bool)
        (result : Consumed Sp H decode_header decode_operation)
        → parse_consignment W stream ≡ ok (id, stream1)
        → has_contract Sp cs id ≡ false
        → consume Sp H decode_header decode_operation cs allow_unknown stream resolver validator
          ≡ some result
        → ImportEnds stream1 id allow_unknown result
    unfolding consume
    consume-ImportEnds stream stream1 id resolver false result parsed unknown e =
        let same : (cs, err (in_a (unknown_contract id))) ≡ result =
          ground (arith, parsed, unknown, e) in
        subst (ImportEnds stream1 id false) same (not_allowed refl)
    consume-ImportEnds stream stream1 id resolver true result parsed unknown e =
        elim (Result-cases (strict_decode W decode_header decode_operation stream1)) [
          | inl (x, bad) ↦
              let same : (cs, err (in_a (decode x))) ≡ result =
                ground (arith, parsed, unknown, bad, e) in
              subst (ImportEnds stream1 id true) same (
                refused _ refl (inl (x, bad, refl))
                  (λ k terms a. absurd (ground (arith, bad, a.1))))
          | inr ((consignment, rest), d) ↦
              decoded-ImportEnds stream1 rest id consignment result d
                (ground (arith, parsed, unknown, d, e))
        ]
