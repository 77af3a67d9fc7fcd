-- ===== src/Bp/Bundled.antt =====
-- What `RgbWallet::bundle` of src/popls/bp.rs puts into a bundle.
use mathlib.Core.Path.{subst}
use rgb_std.Base.{
  ℕ, ◌≡◌, refl, sym, ap, ◌∙◌, inl, inr, Bool, ◌||◌, ◌==◌, some, List, [], ◌∷◌, >>=-eq-some, arith,
  contains, contains-set_put, ok, Ordering,
}
use rgb_std.Base.Results.{Result-cases}
use rgb_std.Seals.{RgbSeal}
use rgb_std.Pile.{Pile}
use rgb_std.Ledger.{Ledger}
use rgb_std.Wire.{Wire}
use rgb_std.Stockpile.{Stockpile}
use rgb_std.Contracts.Named.{Among}
use rgb_std.Bp.{Bitcoin}
use rgb_std.Bp.Api.{Api, Confined, ConfinedLaws}
use rgb_std.Bp.Wallet.{WalletProvider, RgbWallet}
use rgb_std.Bp.Prefab.{Prefab, outpoints_of, prefab}
use rgb_std.Bp.Prefabbed.{prefab-Steps}
use rgb_std.Bp.Bundle.{add_prefab}
use rgb_std.Bp.Bundling.{closes, Gathered, Request, bundle_requests, gather, prefab_blanks}
use rgb_std.Bp.Prefabs.{
  Among-add_prefab, add_prefab-Among, any, any-add_prefab, contains-closes, contains-extend,
}

module _ {S : RgbSeal} {P : Pile S} {L : Ledger} {W : Wire S} (Sp : Stockpile P L W) {B : Bitcoin}
    (A : Api B L) (N : WalletProvider B S) (C : Confined) (laws : ConfinedLaws C)
    (compare_eq : (a b : L.Operation) → A.op_compare a b ≡ Ordering.eq → a ≡ b) where
  -- The set has an operation that `prefab` made of the request, which closes the outpoints of its
  -- inputs.
  abbrev pub IsMade : Request Sp A N C → List (Prefab L) → Type 0
  IsMade request prefabs =
      (w w' : RgbWallet Sp N) × (p : Prefab L) × (prefab Sp A N C w request ≡ some (w', ok p))
      × Among p prefabs
      × (p.closes ≡ outpoints_of request.using)

  -- Whether a contract has an operation in a set.
  abbrev pub operates : List (Prefab L) → ℕ → Bool
  operates prefabs id = any (λ (p : Prefab L). A.op_contract_id p.operation == id) prefabs

  abbrev pub empty : Gathered L
  empty = record { contracts = []; outpoints = []; prefabs = [] }

  pub prefab_blanks-IsMade :
      (w w' : RgbWallet Sp N) (requests : List (Request Sp A N C)) (ps ps' : List (Prefab L))
      → prefab_blanks Sp A N C w requests ps ≡ some (w', ok ps')
      → ((q : Prefab L) → Among q ps → Among q ps')
        × ((r : Request Sp A N C) → Among r requests → IsMade r ps')
  unfolding prefab_blanks
  prefab_blanks-IsMade w w' [] ps ps' e =
      let same : ps ≡ ps' = ground (arith, e) in (λ q m. subst (Among q) same m, λ r m. elim m [ ])
  prefab_blanks-IsMade w w' (request ∷ requests) ps ps' e =
      let ((w1, res), e1, e2) = >>=-eq-some (prefab Sp A N C w request) _ e in
      elim (Result-cases res) [
        | inl (bad, is) ↦ absurd (ground (arith, e2, is))
        | inr (p, is) ↦
            let made : prefab Sp A N C w request ≡ some (w1, ok p) =
              e1 ∙ ap (λ r. some (w1, r)) is in
            let rest : prefab_blanks Sp A N C w1 requests (add_prefab A p ps) ≡ some (w', ok ps') =
              ground (arith, e2, is) in
            let (kept, more) = prefab_blanks-IsMade w1 w' requests (add_prefab A p ps) ps' rest in
            (
              λ q m. kept q (add_prefab-Among A compare_eq p q ps m),
              λ r m. elim m [
                | inl here ↦
                    subst (λ x. IsMade x ps') (sym here)
                      (
                        w,
                        w1,
                        p,
                        made,
                        kept p (Among-add_prefab A compare_eq p ps),
                        (prefab-Steps Sp A N C laws w w1 request p made).closed,
                      )
                | inr later ↦ more r later
              ],
            )
      ]

  -- The sets of contracts and outpoints are those of the prefabs.
  abbrev pub IsExact : Gathered L → Type 0
  IsExact g =
      ((o : ℕ) → contains g.outpoints o ≡ contains (closes g.prefabs) o)
      × ((id : ℕ) → contains g.contracts id ≡ operates g.prefabs id)

  pub empty-IsExact : IsExact empty
  unfolding closes
  empty-IsExact = (λ o. refl, λ id. refl)

  gather-IsExact : (g : Gathered L) (p : Prefab L) → IsExact g → IsExact (gather Sp A N C g p)
  gather-IsExact g p (outs, ids) = (
    λ o.
        contains-extend g.outpoints p.closes o
        ∙ ap (λ b. contains p.closes o || b) (outs o ∙ contains-closes g.prefabs o)
        ∙ sym (any-add_prefab A compare_eq (λ (q : Prefab L). contains q.closes o) p g.prefabs)
        ∙ sym (contains-closes (add_prefab A p g.prefabs) o),
    λ id.
        contains-set_put (A.op_contract_id p.operation) id g.contracts
        ∙ ap (λ b. A.op_contract_id p.operation == id || b) (ids id)
        ∙ sym (
            any-add_prefab A compare_eq (λ (q : Prefab L). A.op_contract_id q.operation == id) p
              g.prefabs),
  )

  pub bundle_requests-IsMade :
      (w w' : RgbWallet Sp N) (requests : List (Request Sp A N C)) (g g' : Gathered L)
      → IsExact g
      → bundle_requests Sp A N C w requests g ≡ some (w', ok g')
      → IsExact g'
        × ((q : Prefab L) → Among q g.prefabs → Among q g'.prefabs)
        × ((r : Request Sp A N C) → Among r requests → IsMade r g'.prefabs)
  unfolding bundle_requests
  bundle_requests-IsMade w w' [] g g' exact e =
      let same : g ≡ g' = ground (arith, e) in
      (
        subst IsExact same exact,
        λ q m. subst (λ (x : Gathered L). Among q x.prefabs) same m,
        λ r m. elim m [ ],
      )
  bundle_requests-IsMade w w' (request ∷ requests) g g' exact e =
      let ((w1, res), e1, e2) = >>=-eq-some (prefab Sp A N C w request) _ e in
      elim (Result-cases res) [
        | inl (bad, is) ↦ absurd (ground (arith, e2, is))
        | inr (p, is) ↦
            let made : prefab Sp A N C w request ≡ some (w1, ok p) =
              e1 ∙ ap (λ r. some (w1, r)) is in
            let rest : bundle_requests Sp A N C w1 requests (gather Sp A N C g p)
                ≡ some (w', ok g') =
              ground (arith, e2, is) in
            let (exact', kept, more) =
              bundle_requests-IsMade w1 w' requests (gather Sp A N C g p) g'
                (gather-IsExact g p exact) rest in
            (
              exact',
              λ q m. kept q (add_prefab-Among A compare_eq p q g.prefabs m),
              λ r m. elim m [
                | inl here ↦
                    subst (λ x. IsMade x g'.prefabs) (sym here)
                      (
                        w,
                        w1,
                        p,
                        made,
                        kept p (Among-add_prefab A compare_eq p g.prefabs),
                        (prefab-Steps Sp A N C laws w w1 request p made).closed,
                      )
                | inr later ↦ more r later
              ],
            )
      ]
