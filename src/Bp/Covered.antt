-- ===== src/Bp/Covered.antt =====
-- A bundle of src/popls/bp.rs leaves out no request and no state on the outputs that it spends.
use rgb_std.Base.{
  ℕ, ◌≡◌, refl, sym, ap, ap₂, ◌∙◌, inl, inr, true, false, Option, some, List, [], ◌∷◌, ◌>>=◌,
  >>=-eq-some, arith, contains, Option-cases, Result, ok, err, Ordering,
}
use rgb_std.Base.Results.{Result-cases}
use rgb_std.Seals.{RgbSeal}
use rgb_std.Pile.{Pile}
use rgb_std.Ledger.{Ledger}
use rgb_std.Wire.{Wire}
use rgb_std.Stockpile.{Stockpile}
use rgb_std.Contract.{Contract}
use rgb_std.Contracts.{Contracts, contract_ids}
use rgb_std.Contracts.View.{current}
use rgb_std.Contracts.Named.{Among}
use rgb_std.Contract.State.{OwnedState, ContractState, state}
use rgb_std.Bp.{Bitcoin, UsedState}
use rgb_std.Bp.Api.{Api, Confined, ConfinedLaws}
use rgb_std.Bp.Wallet.{WalletProvider, RgbWallet, noise_engine}
use rgb_std.Bp.Prefab.{Prefab, outpoints_of}
use rgb_std.Bp.Bundle.{BundleFailure}
use rgb_std.Bp.Bundling.{
  closes, Gathered, Request, bundle_requests, blank_requests, prefab_blanks, new_bundle,
  bundle_blanks, bundle_gathered, bundle,
}
use rgb_std.Bp.BlankUses.{use_of}
use rgb_std.Bp.Blanks.{blank_requests-use_of}
use rgb_std.Bp.Bundled.{
  IsMade, operates, empty, empty-IsExact, prefab_blanks-IsMade, bundle_requests-IsMade,
}
use rgb_std.Bp.Defined.{closed_by, contains-outpoints_of}

Among-closed_by :
    {B : Bitcoin} (used : UsedState B) (using : List (UsedState B))
    → Among used using
    → closed_by using used.outpoint ≡ true
Among-closed_by used [] m = elim m [ ]
Among-closed_by used (u ∷ using) m = elim m [
  | inl here ↦
      let same : u.outpoint ≡ used.outpoint = ap (λ (x : UsedState _). x.outpoint) (sym here) in
      ground (arith, same)
  | inr later ↦ ground (arith, Among-closed_by used using later)
]

module _ {S : RgbSeal} {P : Pile S} {L : Ledger} {W : Wire S} (Sp : Stockpile P L W) {B : Bitcoin}
    (A : Api B L) (N : WalletProvider B S) (C : Confined) (laws : ConfinedLaws C)
    (compare_eq : (a b : L.Operation) → A.op_compare a b ≡ Ordering.eq → a ≡ b)
    (blank_method : ℕ) where
  -- The steps of a bundle that succeeds.
  record Steps (w w' : RgbWallet Sp N) (requests : List (Request Sp A N C)) (change : Option ℕ)
      (bundled : List (Prefab L)) : Type 0 where
    between : RgbWallet Sp N
    gathered : Gathered L
    contracts : Contracts Sp
    blanks : List (Request Sp A N C)
    asked :
        bundle_requests Sp A N C w requests (empty Sp A N C laws compare_eq)
        ≡ some (between, ok gathered)
    blank :
        blank_requests Sp A N C blank_method
          (noise_engine N between.wallet)
          change
          gathered
          between.contracts
          (contract_ids Sp between.contracts)
        ≡ some (contracts, ok blanks)
    made :
        prefab_blanks Sp A N C (record between { contracts = contracts }) blanks gathered.prefabs
        ≡ some (w', ok bundled)

  new_bundle-same : (ps b : List (Prefab L)) → new_bundle C ps ≡ some b → b ≡ ps
  unfolding new_bundle
  new_bundle-same ps b e = laws.try_from_some (Prefab L) ps b e

  bundle_blanks-ok :
      (w w' : RgbWallet Sp N) (g : Gathered L)
      (r : Result (BundleFailure A) (List (Request Sp A N C))) (b : List (Prefab L))
      → bundle_blanks Sp A N C w g r ≡ some (w', ok b)
      → (blanks : List (Request Sp A N C)) × (r ≡ ok blanks)
        × (prefab_blanks Sp A N C w blanks g.prefabs ≡ some (w', ok b))
  unfolding bundle_blanks
  bundle_blanks-ok w w' g (err bad) b e = absurd (ground (arith, e))
  bundle_blanks-ok w w' g (ok blanks) b e =
      let ((w1, res), e1, e2) = >>=-eq-some (prefab_blanks Sp A N C w blanks g.prefabs) _ e in
      elim (Result-cases res) [
        | inl (bad, is) ↦ absurd (ground (arith, e2, is))
        | inr (ps, is) ↦ elim (Option-cases (new_bundle C ps)) [
          | inl full ↦ absurd (ground (arith, e2, is, full))
          | inr (b1, fits) ↦
              let same : b1 ≡ b = ground (arith, e2, is, fits) in
              let wallets : w1 ≡ w' = ground (arith, e2, is, fits) in
              let all = sym (new_bundle-same ps b1 fits) ∙ same in
              (
                blanks,
                refl,
                e1
                    ∙ ap some (
                        ap₂
                          (λ (v : RgbWallet Sp N) (q : Result (BundleFailure A) (List (Prefab L))).
                            (v, q))
                          wallets (is ∙ ap ok all)),
              )
        ]
      ]

  bundle-Steps :
      (w w' : RgbWallet Sp N) (requests : List (Request Sp A N C)) (change : Option ℕ)
      (b : List (Prefab L))
      → bundle Sp A N C blank_method w requests change ≡ some (w', ok b)
      → Steps w w' requests change b
  unfolding bundle bundle_gathered
  bundle-Steps w w' requests change b e =
      let none_yet = empty Sp A N C laws compare_eq in
      let ((w1, res), e1, e2) = >>=-eq-some (bundle_requests Sp A N C w requests none_yet) _ e in
      elim (Result-cases res) [
        | inl (bad, is) ↦ absurd (ground (arith, e2, is))
        | inr (g, is) ↦
            let asking =
              blank_requests Sp A N C blank_method (noise_engine N w1.wallet) change g w1.contracts
                (contract_ids Sp w1.contracts) in
            let finish =
              λ (blanks : Contracts Sp × Result (BundleFailure A) (List (Request Sp A N C))).
                bundle_blanks Sp A N C (record w1 { contracts = blanks.0 }) g blanks.1 in
            let e3 : (asking >>= finish) ≡ some (w', ok b) = ground (arith, e2, is) in
            let ((cs2, r), e4, e5) = >>=-eq-some asking finish e3 in
            let (blanks, is', e6) = bundle_blanks-ok (record w1 { contracts = cs2 }) w' g r b e5 in
            record {
              between = w1;
              gathered = g;
              contracts = cs2;
              blanks = blanks;
              asked = e1 ∙ ap (λ r. some (w1, r)) is;
              blank = e4 ∙ ap (λ r. some (cs2, r)) is';
              made = e6;
            }
      ]

  -- A bundle that is made has for each request an operation that `prefab` made of it, which closes
  -- the outpoints of its inputs.
  pub bundle-IsMade :
      (w w' : RgbWallet Sp N) (requests : List (Request Sp A N C)) (change : Option ℕ)
      (b : List (Prefab L)) (request : Request Sp A N C)
      → bundle Sp A N C blank_method w requests change ≡ some (w', ok b)
      → Among request requests
      → IsMade Sp A N C laws compare_eq request b
  bundle-IsMade w w' requests change b request e m =
      let steps = bundle-Steps w w' requests change b e in
      let (_, _, asked) =
        bundle_requests-IsMade Sp A N C laws compare_eq w steps.between requests
          (empty Sp A N C laws compare_eq) steps.gathered (empty-IsExact Sp A N C laws compare_eq)
          steps.asked in
      let (kept, _) =
        prefab_blanks-IsMade Sp A N C laws compare_eq
          (record steps.between { contracts = steps.contracts }) w' steps.blanks
          steps.gathered.prefabs b steps.made in
      let (v, v', p, made, among, closed) = asked request m in
      (v, v', p, made, kept p among, closed)

  -- Where the requests of a bundle that is made leave the wallet `w1` and the prefabs `g`, a listed
  -- contract that has no operation among these and that then has, under any name, a state on an
  -- outpoint which one of them closes: the bundle has an operation made of a request under this
  -- contract that uses the state, and that closes its outpoint.
  pub bundle-moves :
      (w w' w1 : RgbWallet Sp N) (requests : List (Request Sp A N C)) (change : Option ℕ)
      (b : List (Prefab L)) (g : Gathered L) (id : ℕ) (c : Contract P L)
      (st : ContractState S.Seal L.Value L.Atom) (name : ℕ) (map : List (OwnedState S.Seal L.Value))
      (owned : OwnedState S.Seal L.Value)
      → bundle Sp A N C blank_method w requests change ≡ some (w', ok b)
      → bundle_requests Sp A N C w requests (empty Sp A N C laws compare_eq) ≡ some (w1, ok g)
      → Among id (contract_ids Sp w1.contracts)
      → operates Sp A N C laws compare_eq g.prefabs id ≡ false
      → current Sp w1.contracts id ≡ some c
      → state P L c ≡ some st
      → Among (name, map) st.owned
      → Among owned map
      → contains (closes g.prefabs) (N.primary owned.assignment.seal) ≡ true
      → (request : Request Sp A N C) × (request.contract_id ≡ id)
        × Among (use_of A N owned) request.using
        × IsMade Sp A N C laws compare_eq request b
        × (contains (outpoints_of request.using) (N.primary owned.assignment.seal) ≡ true)
  bundle-moves w w' w1 requests change b g id c st name map owned e asked listed idle here computed
        in_state in_map spent =
      let steps = bundle-Steps w w' requests change b e in
      let wallets : steps.between ≡ w1 = ground (arith, steps.asked, asked) in
      let gathered : steps.gathered ≡ g = ground (arith, steps.asked, asked) in
      let (exact, _, _) =
        bundle_requests-IsMade Sp A N C laws compare_eq w w1 requests
          (empty Sp A N C laws compare_eq) g (empty-IsExact Sp A N C laws compare_eq) asked in
      let blank = rw (wallets, gathered) at steps.blank in
      let (request, among, its_id, uses) =
        blank_requests-use_of Sp A N C blank_method (noise_engine N w1.wallet) change g id c st name
          map owned (exact.1 id ∙ idle) computed in_state in_map
          (exact.0 (N.primary owned.assignment.seal) ∙ spent) w1.contracts steps.contracts
          (contract_ids Sp w1.contracts) steps.blanks blank listed here in
      let (_, blanks_made) =
        prefab_blanks-IsMade Sp A N C laws compare_eq
          (record steps.between { contracts = steps.contracts }) w' steps.blanks
          steps.gathered.prefabs b steps.made in
      (
        request,
        its_id,
        uses,
        blanks_made request among,
        contains-outpoints_of request.using _
            ∙ Among-closed_by (use_of A N owned) request.using uses,
      )
