-- ===== src/Bp/Included.antt =====
-- What `RgbWallet::include` of src/popls/bp.rs includes.
use rgb_std.Base.{
  ℕ, ◌%◌, ◌^◌, ◌≤◌, ◌≡◌, refl, sym, ap, ◌∙◌, inl, inr, Bool, true, false, ◌||◌, Option, none, some,
  List, [], ◌∷◌, ◌>>=◌, >>=-eq-some, arith, ◌==◌, ==_iff, if◌then◌else◌, Bool-cases, Option-cases,
  length, contains, lookup, put, lookup-put, ok,
}
use rgb_std.Base.Results.{>>=-eq-ok as bind-eq-ok, Result-cases}
use rgb_std.Seals.{RgbSeal}
use rgb_std.Pile.{Pile}
use rgb_std.Ledger.{Ledger}
use rgb_std.Wire.{Wire}
use rgb_std.Stockpile.{Stockpile}
use rgb_std.Contracts.{Contracts}
use rgb_std.Contracts as Contracts
use rgb_std.Contracts.View.{current, with_contract_mut-current}
use rgb_std.Contract.{Contract}
use rgb_std.Contract.Include as Include
use rgb_std.Contract.Params.{nth}
use rgb_std.Bp.{Bitcoin}
use rgb_std.Bp.Requests.{ok_or}
use rgb_std.Bp.Api.{Api}
use rgb_std.Bp.Fulfilled.{ok_or-ok}
use rgb_std.Bp.Wallet.{WalletProvider, RgbWallet}
use rgb_std.Bp.Prefab.{Prefab}
use rgb_std.Bp.Positions.{AllDiffer, is_at, position-nth, contains-position, position-is_at}
use rgb_std.Bp.Include.{
  position, Anchors, missing_prevout, leaf_not_known, bundle_map, prefab_anchor, include,
}

-- Whether the input at a position spends one of the outpoints.
abbrev pub closed_at : List ℕ → Option ℕ → Bool
closed_at closes none = false
closed_at closes (some o) = contains closes o

closed_at-cons :
    (o : ℕ) (closes : List ℕ) (input : Option ℕ)
    → closed_at (o ∷ closes) input ≡ (is_at o input || closed_at closes input)
closed_at-cons o closes none = refl
closed_at-cons o closes (some a) = refl

lookup-bundle_map :
    (opid : ℕ) (prevouts closes : List ℕ) (map m : List (ℕ × ℕ)) (i : ℕ)
    → AllDiffer prevouts
    → length prevouts ≤ 2 ^ 32
    → bundle_map opid prevouts closes map ≡ ok m
    → lookup i m ≡ (if closed_at closes (nth i prevouts) then some opid else lookup i map)
unfolding bundle_map
lookup-bundle_map opid prevouts [] map m i d few e =
    let same : map ≡ m = ground (arith, e) in
    elim (Option-cases (nth i prevouts)) [
      | inl past ↦ rw past (ap (lookup i) (sym same))
      | inr (a, here) ↦ rw here (ap (lookup i) (sym same))
    ]
lookup-bundle_map opid prevouts (o ∷ closes) map m i d few e =
    let (pos, e1, rest) = bind-eq-ok (ok_or (missing_prevout o) (position o prevouts)) _ e in
    let found = ok_or-ok (missing_prevout o) (position o prevouts) pos e1 in
    let (_, below) = position-nth o prevouts pos found in
    let small : pos % 2 ^ 32 ≡ pos = omega (arith, below, few) in
    let ih = lookup-bundle_map opid prevouts closes (put (pos % 2 ^ 32) opid map) m i d few rest in
    let put_here = lookup-put (pos % 2 ^ 32) i opid map in
    let at = position-is_at o prevouts pos i d found in
    let split = closed_at-cons o closes (nth i prevouts) in
    ground (arith, ih, put_here, at, split, small)

contains-bundle_map :
    (opid : ℕ) (prevouts closes : List ℕ) (map m : List (ℕ × ℕ)) (o : ℕ)
    → bundle_map opid prevouts closes map ≡ ok m
    → contains closes o ≡ true
    → contains prevouts o ≡ true
unfolding bundle_map
contains-bundle_map opid prevouts [] map m o e h = absurd (cc)
contains-bundle_map opid prevouts (c ∷ closes) map m o e h =
    let (pos, e1, rest) = bind-eq-ok (ok_or (missing_prevout c) (position c prevouts)) _ e in
    let found = ok_or-ok (missing_prevout c) (position c prevouts) pos e1 in
    elim (Bool-cases (c == o)) [
      | inl same ↦
          ap (contains prevouts) (sym ((==_iff c o).0 same))
          ∙ contains-position c prevouts pos found
      | inr other ↦ contains-bundle_map opid prevouts closes _ m o rest (ground (arith, h, other))
    ]

module _ {S : RgbSeal} {P : Pile S} {L : Ledger} {W : Wire S} (Sp : Stockpile P L W) {B : Bitcoin}
    (A : Api B L) (N : WalletProvider B S) (K : Anchors S) where
  -- A contract included the operation of the prefab with the witness and an anchor that has the
  -- operation as the message of exactly the inputs that spend what the prefab closes; the contracts
  -- then are as they were, but for this one.
  abbrev pub Includes :
      S.Published
      → K.MerkleBlock
      → K.DbcProof
      → List ℕ
      → Prefab L
      → Contracts Sp
      → Contracts Sp
      → Type 0
  Includes witness mpc dbc prevouts p cs cs' =
      (c c' : Contract P L) × (map : List (ℕ × ℕ)) × (proof : K.MerkleProof) × (current Sp cs
          (A.op_contract_id p.operation)
        ≡ some c)
      × (K.to_merkle_proof mpc (A.op_contract_id p.operation) ≡ some proof)
      × (Include.include P c (A.opid p.operation)
            (K.anchor map (A.op_contract_id p.operation) proof dbc) witness
          ≡ some c')
      × (cs'.persistence ≡ cs.persistence)
      × ((j : ℕ)
          → current Sp cs' j
            ≡ (if A.op_contract_id p.operation == j then some c' else current Sp cs j))
      × ((i : ℕ)
          → lookup i map
            ≡ (if closed_at p.closes (nth i prevouts) then some (A.opid p.operation) else none))
      × ((o : ℕ) → contains p.closes o ≡ true → contains prevouts o ≡ true)

  -- One prefab after another, from the first contracts to the last.
  abbrev pub AllIncluded :
      S.Published
      → K.MerkleBlock
      → K.DbcProof
      → List ℕ
      → List (Prefab L)
      → Contracts Sp
      → Contracts Sp
      → Type 0
  AllIncluded witness mpc dbc prevouts [] cs cs' = cs' ≡ cs
  AllIncluded witness mpc dbc prevouts (p ∷ bundle) cs cs' =
      (next : Contracts Sp) × Includes witness mpc dbc prevouts p cs next
      × AllIncluded witness mpc dbc prevouts bundle next cs'

  prefab_anchor-Includes :
      (q : Prefab L) (witness : S.Published) (mpc : K.MerkleBlock) (dbc : K.DbcProof)
      (prevouts : List ℕ) (anchor : S.Client) (cs cs' : Contracts Sp)
      → AllDiffer prevouts
      → length prevouts ≤ 2 ^ 32
      → prefab_anchor Sp A N K q mpc dbc prevouts ≡ ok anchor
      → Contracts.include Sp cs (A.op_contract_id q.operation) (A.opid q.operation) witness anchor
        ≡ some (cs', tt)
      → Includes witness mpc dbc prevouts q cs cs'
  unfolding prefab_anchor Contracts.include
  prefab_anchor-Includes q witness mpc dbc prevouts anchor cs cs' d few e call =
      let opid = A.opid q.operation in
      let id = A.op_contract_id q.operation in
      let (map, e1, e2) = bind-eq-ok (bundle_map opid prevouts q.closes []) _ e in
      let (proof, e3, e4) = bind-eq-ok (ok_or leaf_not_known (K.to_merkle_proof mpc id)) _ e2 in
      let same : anchor ≡ K.anchor map id proof dbc = ground (arith, e4) in
      let (c, c', here, included, p, view) = with_contract_mut-current Sp cs cs' id _ tt call in
      let (c1, e5, e6) = >>=-eq-some (Include.include P c opid anchor witness) _ included in
      let is : c1 ≡ c' = ground (arith, e6) in
      (
        c,
        c',
        map,
        proof,
        here,
        ok_or-ok leaf_not_known (K.to_merkle_proof mpc id) proof e3,
        ap (λ a. Include.include P c opid a witness) (sym same) ∙ e5 ∙ ap some is,
        p,
        view,
        λ i. lookup-bundle_map opid prevouts q.closes [] map i d few e1,
        λ o h. contains-bundle_map opid prevouts q.closes [] map o e1 h,
      )

  -- Where `include` returns without an error for a transaction with distinct inputs, the rest of
  -- the wallet is as it was, and from the contracts of the wallet to those of the returned one
  -- there is one step for each operation of the bundle, in order, in which the current contract of
  -- the operation includes it and no other contract changes: with the witness and an anchor that
  -- holds the multi-protocol proof of the contract and has the operation as the message of exactly
  -- those inputs that spend an outpoint which the prefab closes; and each such outpoint is spent by
  -- an input.
  pub include-AllIncluded :
      (w w' : RgbWallet Sp N) (bundle : List (Prefab L)) (witness : S.Published)
      (mpc : K.MerkleBlock) (dbc : K.DbcProof) (prevouts : List ℕ)
      → AllDiffer prevouts
      → length prevouts ≤ 2 ^ 32
      → include Sp A N K w bundle witness mpc dbc prevouts ≡ some (w', ok tt)
      → (w'.wallet ≡ w.wallet)
        × AllIncluded witness mpc dbc prevouts bundle w.contracts w'.contracts
  unfolding include
  include-AllIncluded w w' [] witness mpc dbc prevouts d few e =
      let same : w' ≡ w = ground (arith, e) in
      (ap (λ (v : RgbWallet Sp N). v.wallet) same, ap (λ (v : RgbWallet Sp N). v.contracts) same)
  include-AllIncluded w w' (q ∷ bundle) witness mpc dbc prevouts d few e =
      elim (Result-cases (prefab_anchor Sp A N K q mpc dbc prevouts)) [
        | inl (bad, is) ↦ absurd (ground (arith, e, is))
        | inr (anchor, is) ↦
            let call =
              Contracts.include Sp w.contracts (A.op_contract_id q.operation) (A.opid q.operation)
                witness anchor in
            let go_on = λ (res : Contracts Sp × Unit {0}).
              include Sp A N K (record w { contracts = res.0 }) bundle witness mpc dbc prevouts in
            let e1 : (call >>= go_on) ≡ some (w', ok tt) = ground (arith, e, is) in
            let ((cs', tt'), e2, e3) = >>=-eq-some call go_on e1 in
            let (same, all) =
              include-AllIncluded (record w { contracts = cs' }) w' bundle witness mpc dbc prevouts
                d few e3 in
            (
              same,
              (
                cs',
                prefab_anchor-Includes q witness mpc dbc prevouts anchor w.contracts cs' d few is
                    e2,
                all,
              ),
            )
      ]
