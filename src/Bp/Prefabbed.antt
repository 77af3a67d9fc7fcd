-- ===== src/Bp/Prefabbed.antt =====
-- What `RgbWallet::prefab` of src/popls/bp.rs returns.
use rgb_std.Base.{
  ℕ, ◌+◌, ◌^◌, ◌≤◌, ◌≡◌, refl, sym, ap, ap₂, ◌∙◌, inl, inr, Bool, false, ◌||◌, Option, none, some,
  List, [], ◌>>=◌, >>=-eq-some, arith, or_else, length, lookup, contains, Option-cases, Result, ok,
  err,
}
use rgb_std.Base.Results.{Result-cases}
use rgb_std.Seals.{RgbSeal}
use rgb_std.Pile.{Pile}
use rgb_std.Ledger.{Ledger}
use rgb_std.Wire.{Wire}
use rgb_std.Stockpile.{Stockpile}
use rgb_std.Contracts.{Contracts, contract_call}
use rgb_std.Contract.Params.{nth}
use rgb_std.Bp.{Bitcoin, PrefabSeal, OpRequest}
use rgb_std.Bp.Api.{Api, Confined, ConfinedLaws}
use rgb_std.Bp.Check.{check_request}
use rgb_std.Bp.Wallet.{WalletProvider, RgbWallet}
use rgb_std.Bp.Prefab.{
  Prefab, PrefabError, called_prefab, outpoints_of, Outputs, collect_outputs, request_engine,
  parts_of, call_outputs, prefab_checked, prefab,
}
use rgb_std.Bp.Defined.{closed_by, contains-outpoints_of, defined_by, definition_at, cells_of}
use rgb_std.Bp.Outputs.{contains-collected, cells-collected, lookup-collected}

or_none : {A : Type 0} (o : Option A) → or_else o none ≡ o
or_none none = refl
or_none (some a) = refl

or_false : (b : Bool) → (b || false) ≡ b
or_false b = ground arith

module _ {S : RgbSeal} {P : Pile S} {L : Ledger} {W : Wire S} (Sp : Stockpile P L W) {B : Bitcoin}
    (A : Api B L) (N : WalletProvider B S) (C : Confined) (laws : ConfinedLaws C) where
  -- The steps of a prefab that succeeds.
  pub record Steps (w w' : RgbWallet Sp N) (request : OpRequest B L.Value L.Atom (PrefabSeal B))
      (p : Prefab L) : Type 0 where
    checked_contracts : Contracts Sp
    pub outputs : Outputs S L.Value
    pub checked : check_request Sp A w.contracts request ≡ some (ok tt, checked_contracts)
    pub collected :
        collect_outputs N C {CalcError = A.CalcError} {AcceptError = A.AcceptError}
          (request_engine Sp A N C w request.contract_id)
          0
          request.owned
          []
          []
        ≡ some (ok outputs)
    pub called :
        contract_call Sp checked_contracts request.contract_id
          (A.call_params (parts_of Sp A N C request outputs))
          outputs.seals
        ≡ some (w'.contracts, ok p.operation)
    same_wallet : w'.wallet ≡ w.wallet
    pub closed : p.closes ≡ outpoints_of request.using
    pub defined : p.defines ≡ outputs.defines

  call_outputs-ok :
      (w w' : RgbWallet Sp N) (request : OpRequest B L.Value L.Atom (PrefabSeal B))
      (closes : List ℕ) (r : Result (PrefabError A.CalcError A.AcceptError) (Outputs S L.Value))
      (p : Prefab L)
      → call_outputs Sp A N C w request closes r ≡ some (w', ok p)
      → (outputs : Outputs S L.Value) × (r ≡ ok outputs)
        × (contract_call Sp w.contracts request.contract_id
              (A.call_params (parts_of Sp A N C request outputs))
              outputs.seals
            ≡ some (w'.contracts, ok p.operation))
        × (w'.wallet ≡ w.wallet)
        × (p.closes ≡ closes)
        × (p.defines ≡ outputs.defines)
  unfolding call_outputs
  call_outputs-ok w w' request closes (err bad) p e = absurd (ground (arith, e))
  call_outputs-ok w w' request closes (ok outputs) p e =
      let call =
        contract_call Sp w.contracts request.contract_id
          (A.call_params (parts_of Sp A N C request outputs)) outputs.seals in
      let ((cs, res), e1, e2) = >>=-eq-some call _ e in
      elim (Result-cases res) [
        | inl (bad, is) ↦ absurd (ground (arith, e2, is))
        | inr (operation, is) ↦
            let made : some (
              record w { contracts = cs },
              called_prefab Sp A N C closes outputs.defines (ok operation),
            )
                ≡ some (w', ok p) =
              rw is at e2 in
            let wallets : record w { contracts = cs } ≡ w' = ground (arith, made) in
            let prefabs : record {
              closes = closes;
              defines = outputs.defines;
              operation = operation;
            }
                ≡ p =
              ground (arith, made) in
            (
              outputs,
              refl,
              e1
                  ∙ ap some (
                      ap₂ (λ (c : Contracts Sp) (r : Result L.Error L.Operation). (c, r))
                        (ap (λ (v : RgbWallet Sp N). v.contracts) wallets)
                        (is ∙ ap (λ (q : Prefab L). ok q.operation) prefabs)),
              ap (λ (v : RgbWallet Sp N). v.wallet) (sym wallets),
              ap (λ (q : Prefab L). q.closes) (sym prefabs),
              ap (λ (q : Prefab L). q.defines) (sym prefabs),
            )
      ]

  prefab_checked-Steps :
      (w w' : RgbWallet Sp N) (cs1 : Contracts Sp)
      (request : OpRequest B L.Value L.Atom (PrefabSeal B)) (p : Prefab L)
      → check_request Sp A w.contracts request ≡ some (ok tt, cs1)
      → prefab_checked Sp A N C (record w { contracts = cs1 }) request (ok tt) ≡ some (w', ok p)
      → Steps w w' request p
  unfolding prefab_checked
  prefab_checked-Steps w w' cs1 request p e1 e =
      let w1 : RgbWallet Sp N = record w { contracts = cs1 } in
      let collect =
        collect_outputs N C {CalcError = A.CalcError} {AcceptError = A.AcceptError}
          (request_engine Sp A N C w1 request.contract_id) 0 request.owned [] [] in
      elim (Option-cases (C.try_from (outpoints_of request.using))) [
        | inl full ↦ absurd (ground (arith, e, full))
        | inr (closes, fits) ↦
            let e2 : (collect >>= call_outputs Sp A N C w1 request closes) ≡ some (w', ok p) =
              ground (arith, e, fits) in
            let (r, e3, e4) = >>=-eq-some collect (call_outputs Sp A N C w1 request closes) e2 in
            let (outputs, is, called, wallets, closed, defined) =
              call_outputs-ok w1 w' request closes r p e4 in
            record {
              checked_contracts = cs1;
              outputs = outputs;
              checked = e1;
              collected = e3 ∙ ap some is;
              called = called;
              same_wallet = wallets;
              closed = closed ∙ laws.try_from_some ℕ (outpoints_of request.using) closes fits;
              defined = defined;
            }
      ]

  pub prefab-Steps :
      (w w' : RgbWallet Sp N) (request : OpRequest B L.Value L.Atom (PrefabSeal B)) (p : Prefab L)
      → prefab Sp A N C w request ≡ some (w', ok p)
      → Steps w w' request p
  unfolding prefab
  prefab-Steps w w' request p e =
      let ((res, cs1), e1, e2) = >>=-eq-some (check_request Sp A w.contracts request) _ e in
      elim (Result-cases res) [
        | inl (bad, is) ↦
            let refused : prefab_checked Sp A N C (record w { contracts = cs1 }) request (err bad)
                ≡ some (w', ok p) =
              rw is at e2 in
            absurd (unfold prefab_checked in ground (arith, refused))
        | inr (done, is) ↦
            prefab_checked-Steps w w' cs1 request p (e1 ∙ ap (λ r. some (r, cs1)) is) (rw is at e2)
      ]

  -- A prefab that is made comes from a request that `check_request` accepts. It closes exactly the
  -- outpoints of the inputs and defines exactly the outputs of the transaction that the seals name;
  -- its operation is what the ledger makes of the method, inputs and cells of the request, where a
  -- cell has the token that it is given or that of its seal; and with at most 2^16 outputs the seal
  -- that the contract keeps for an output is the one that is made for it, with the noise of the
  -- request or else that of the output's number, and none where the request gives a token.
  pub prefab_lem :
      (w w' : RgbWallet Sp N) (request : OpRequest B L.Value L.Atom (PrefabSeal B)) (p : Prefab L)
      → prefab Sp A N C w request ≡ some (w', ok p)
      → (cs1 : Contracts Sp) × (outputs : Outputs S L.Value) × (check_request Sp A w.contracts
            request
          ≡ some (ok tt, cs1))
        × (contract_call Sp cs1 request.contract_id
              (A.call_params (parts_of Sp A N C request outputs))
              outputs.seals
            ≡ some (w'.contracts, ok p.operation))
        × ((o : ℕ) → contains p.closes o ≡ closed_by request.using o)
        × ((v : ℕ) → contains p.defines v ≡ defined_by N C L.Value request.owned v)
        × (outputs.owned
            ≡ cells_of N C L.Value (request_engine Sp A N C w request.contract_id) 0 request.owned)
        × ((i : ℕ)
            → length request.owned ≤ 2 ^ 16
            → lookup i outputs.seals
              ≡ definition_at N C L.Value
                  (request_engine Sp A N C w request.contract_id)
                  i
                  (nth i request.owned))
  prefab_lem w w' request p e =
      let steps = prefab-Steps w w' request p e in
      let engine = request_engine Sp A N C w request.contract_id in
      let outputs = steps.outputs in
      (
        steps.checked_contracts,
        outputs,
        steps.checked,
        steps.called,
        λ o. ap (λ l. contains l o) steps.closed ∙ contains-outpoints_of request.using o,
        λ v.
            ap (λ l. contains l v) steps.defined
            ∙ contains-collected N C L.Value A.CalcError A.AcceptError laws engine 0 request.owned
                [] [] outputs steps.collected v
            ∙ or_false (defined_by N C L.Value request.owned v),
        cells-collected N C L.Value A.CalcError A.AcceptError laws engine 0 request.owned [] []
            outputs steps.collected,
        λ i few.
            let found =
              lookup-collected N C L.Value A.CalcError A.AcceptError laws engine 0 i request.owned
                [] [] outputs (omega arith) steps.collected in
            let at : 0 + i ≡ i = omega arith in
            rw at at found ∙ or_none (definition_at N C L.Value engine i (nth i request.owned)),
      )
