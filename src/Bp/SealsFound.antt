-- ===== src/Bp/SealsFound.antt =====
-- Which outputs the seal resolver of `RgbWallet::consume` of src/popls/bp.rs finds seals for.
use mathlib.Core.Path.{subst}
use rgb_std.Base.{
  ℕ, zero, suc, ◌%◌, ◌^◌, ◌<◌, ◌≤◌, ◌≡◌, sym, ap, ◌∙◌, inl, inr, some, List, [], ◌∷◌, ◌>>=◌,
  >>=-eq-some, arith, ◌==◌, ==_iff, Bool-cases, length, lookup, put, lookup-put,
}
use rgb_std.Seals.{RgbSeal}
use rgb_std.Pile.{Pile}
use rgb_std.Ledger.{Ledger}
use rgb_std.Wire.{Wire}
use rgb_std.Stockpile.{Stockpile}
use rgb_std.Contracts.Named.{Among}
use rgb_std.Contract.Params.{nth}
use rgb_std.Bp.{Bitcoin}
use rgb_std.Bp.Api.{Api}
use rgb_std.Bp.Wallet.{WalletProvider}
use rgb_std.Bp.Positions.{position-nth}
use rgb_std.Bp.Include.{position, resolved, seal_resolver}

-- The position that is found is the first.
position_first :
    (a : ℕ) (l : List ℕ) (pos i : ℕ) → position a l ≡ some pos → i < pos → nth i l ≡ some a → ⊥
unfolding position
position_first a [] pos i e h at = absurd (cc)
position_first a (b ∷ l) pos zero e h at =
    let same : b ≡ a = ground (arith, at) in
    let first : 0 ≡ pos = ground (arith, e, (==_iff b a).1 same) in absurd (omega (arith, first))
position_first a (b ∷ l) pos (suc i) e h at = elim (Bool-cases (b == a)) [
  | inl hit ↦ let first : 0 ≡ pos = ground (arith, e, hit) in absurd (omega (arith, first))
  | inr miss ↦
      let e1 : (position a l >>= λ j. some (suc j)) ≡ some pos = ground (arith, e, miss) in
      let (j, e2, e3) = >>=-eq-some (position a l) _ e1 in
      let later : suc j ≡ pos = ground (arith, e3) in
      position_first a l j i e2 (omega (arith, later)) at
]

module _ {S : RgbSeal} {P : Pile S} {L : Ledger} {W : Wire S} (Sp : Stockpile P L W) {B : Bitcoin}
    (A : Api B L) (N : WalletProvider B S) where
  -- What holds of each entry of the map, and what of each seal.
  abbrev Entries : List ℕ → List (ℕ × S.Definition) → Type 0
  Entries auths map =
      (j : ℕ) (seal : S.Definition)
      → lookup j map ≡ some seal
      → position (S.auth_token seal) auths ≡ some j

  abbrev Registered : S.Definition → List (ℕ × S.Definition) → Type 0
  Registered seal map =
      (j : ℕ) × (other : S.Definition) × (lookup j map ≡ some other)
      × (S.auth_token other ≡ S.auth_token seal)

  put-Entries :
      (auths : List ℕ) (seal : S.Definition) (pos : ℕ) (map : List (ℕ × S.Definition))
      → position (S.auth_token seal) auths ≡ some pos
      → Entries auths map
      → Entries auths (put pos seal map)
  put-Entries auths seal pos map found h j other e = elim (Bool-cases (pos == j)) [
    | inl hit ↦
        let same : seal ≡ other = ground (arith, e, hit, lookup-put pos j seal map) in
        let at : pos ≡ j = (==_iff pos j).0 hit in
        ap (λ s. position (S.auth_token s) auths) (sym same) ∙ found ∙ ap some at
    | inr miss ↦ h j other (ground (arith, e, miss, lookup-put pos j seal map))
  ]

  -- A seal that is registered stays so: what takes its place has its token.
  put-Registered :
      (auths : List ℕ) (seal old : S.Definition) (pos : ℕ) (map : List (ℕ × S.Definition))
      → position (S.auth_token seal) auths ≡ some pos
      → Entries auths map
      → Registered old map
      → Registered old (put pos seal map)
  put-Registered auths seal old pos map found h (j, other, e, token) =
      elim (Bool-cases (pos == j)) [
        | inl hit ↦
            let at : pos ≡ j = (==_iff pos j).0 hit in
            let (first, _) = position-nth (S.auth_token seal) auths pos found in
            let (second, _) = position-nth (S.auth_token other) auths j (h j other e) in
            let same : S.auth_token seal ≡ S.auth_token other =
              ground (arith, sym first ∙ ap (λ k. nth k auths) at ∙ second) in
            (j, seal, ground (arith, lookup-put pos j seal map, hit), same ∙ token)
        | inr miss ↦ (j, other, ground (arith, e, miss, lookup-put pos j seal map), token)
      ]

  resolved-Entries :
      (auths : List ℕ) (seals : List S.Definition) (map m : List (ℕ × S.Definition))
      → length auths ≤ 2 ^ 16
      → Entries auths map
      → resolved Sp A N auths seals map ≡ some m
      → Entries auths m
        × ((seal : S.Definition) → Registered seal map → Registered seal m)
        × ((seal : S.Definition) → Among seal seals → Registered seal m)
  unfolding resolved
  resolved-Entries auths [] map m few h e =
      let same : map ≡ m = ground (arith, e) in
      (subst (Entries auths) same h, λ s r. subst (Registered s) same r, λ s among. elim among [ ])
  resolved-Entries auths (seal ∷ seals) map m few h e =
      let (pos, found, rest) = >>=-eq-some (position (S.auth_token seal) auths) _ e in
      let (_, below) = position-nth (S.auth_token seal) auths pos found in
      let small : pos % 2 ^ 16 ≡ pos = omega (arith, below, few) in
      let rest1 : resolved Sp A N auths seals (put pos seal map) ≡ some m =
        ap (λ k. resolved Sp A N auths seals (put k seal map)) (sym small) ∙ rest in
      let (entries, kept, all) =
        resolved-Entries auths seals (put pos seal map) m few
          (put-Entries auths seal pos map found h) rest1 in
      (
        entries,
        λ s r. kept s (put-Registered auths seal s pos map found h r),
        λ s among. elim among [
          | inl here ↦
              kept s
                (pos, seal, ground (arith, lookup-put pos pos seal map), ap S.auth_token (sym here))
          | inr later ↦ all s later
        ],
      )

  -- On an operation with at most 2^16 outputs the resolver, where it does not panic, gives under
  -- the number of an output only a seal with the token of that output, and only where no earlier
  -- output has the same token; and for each seal that the wallet has it gives one with its token.
  pub seal_resolver_first :
      (destructible_out : W.Operation → List ℕ) (wallet : N.Wallet) (op : W.Operation)
      (map : List (ℕ × S.Definition))
      → length (destructible_out op) ≤ 2 ^ 16
      → seal_resolver Sp A N destructible_out wallet op ≡ some map
      → ((j : ℕ) (seal : S.Definition)
          → lookup j map ≡ some seal
          → (nth j (destructible_out op) ≡ some (S.auth_token seal))
            × ((i : ℕ) → i < j → nth i (destructible_out op) ≡ some (S.auth_token seal) → ⊥))
        × ((seal : S.Definition)
            → Among seal (N.resolve_seals wallet (destructible_out op))
            → (j : ℕ) × (other : S.Definition) × (lookup j map ≡ some other)
              × (S.auth_token other ≡ S.auth_token seal))
  unfolding seal_resolver
  seal_resolver_first destructible_out wallet op map few e =
      let auths = destructible_out op in
      let (entries, _, all) =
        resolved-Entries auths (N.resolve_seals wallet auths) [] map few (λ j s h. absurd (cc)) e in
      (
        λ j seal h. (
          (position-nth (S.auth_token seal) auths j (entries j seal h)).0,
          λ i below at. position_first (S.auth_token seal) auths j i (entries j seal h) below at,
        ),
        all,
      )
