-- ===== src/Bp/Owned.antt =====
-- The own state of a wallet, `RgbWallet::state_own` of src/popls/bp.rs, inside the state of the
-- contract.
use rgb_std.Base.{
  ℕ, ◌≡◌, refl, sym, ap, ◌∙◌, inl, inr, Option, some, List, [], ◌∷◌, ◌>>=◌, arith, ◌==◌, ==_iff,
  Bool-cases, Option-cases, lookup,
}
use rgb_std.Seals.{RgbSeal}
use rgb_std.Pile.{Pile}
use rgb_std.Ledger.{Ledger}
use rgb_std.Wire.{Wire}
use rgb_std.Stockpile.{Stockpile}
use rgb_std.Contract.{Contract}
use rgb_std.Contracts.View.{current}
use rgb_std.Contracts.Named.{Among}
use rgb_std.Contracts.Reads.{SameView, contract_state_lem}
use rgb_std.Contract.State.{OwnedState, ContractState, state}
use rgb_std.Contract.State.Mapped.{with_seal, keep_owned, filter_owned, map_names, filter_map_state}
use rgb_std.Bp.{Bitcoin}
use rgb_std.Bp.Wallet.{WalletProvider, RgbWallet, own_seal, state_own}

module _ {X Y Value : Type 0} (f : X → Option Y) where
  -- A kept state is one of the list, with another seal.
  pub filter_owned-Among :
      (l : List (OwnedState X Value)) (o : OwnedState Y Value)
      → Among o (filter_owned f l)
      → (o' : OwnedState X Value) × (seal : Y) × Among o' l
        × (f o'.assignment.seal ≡ some seal)
        × (o ≡ with_seal o' seal)
  unfolding filter_owned
  filter_owned-Among [] o m = elim m [ ]
  filter_owned-Among (s ∷ l) o m = elim (Option-cases (f s.assignment.seal)) [
    | inl gone ↦
        let later : Among o (filter_owned f l) = rw (gone, keep_owned) at m in
        let (o', seal, among, kept, is) = filter_owned-Among l o later in
        (o', seal, inr among, kept, is)
    | inr (seal, kept) ↦
        let here : Among o (with_seal s seal ∷ filter_owned f l) = rw (kept, keep_owned) at m in
        elim here [
          | inl is ↦ (s, seal, inl refl, kept, is)
          | inr later ↦
              let (o', seal', among, kept', is) = filter_owned-Among l o later in
              (o', seal', inr among, kept', is)
        ]
  ]

  -- Every state whose seal is kept is there.
  Among-filter_owned :
      (l : List (OwnedState X Value)) (o : OwnedState X Value) (seal : Y)
      → Among o l
      → f o.assignment.seal ≡ some seal
      → Among (with_seal o seal) (filter_owned f l)
  unfolding filter_owned
  Among-filter_owned [] o seal m kept = elim m [ ]
  Among-filter_owned (s ∷ l) o seal m kept = elim m [
    | inl is ↦
        let here : f s.assignment.seal ≡ some seal =
          ap (λ (x : OwnedState X Value). f x.assignment.seal) (sym is) ∙ kept in
        rw (here, keep_owned) (inl (ap (λ (x : OwnedState X Value). with_seal x seal) is))
    | inr later ↦
        let rest = Among-filter_owned l o seal later kept in
        elim (Option-cases (f s.assignment.seal)) [
          | inl gone ↦ rw (gone, keep_owned) rest
          | inr (seal', here) ↦ rw (here, keep_owned) (inr rest)
        ]
  ]

  pub lookup-map_names :
      (name : ℕ) (owned : List (ℕ × List (OwnedState X Value))) (l : List (OwnedState Y Value))
      → lookup name (map_names (filter_owned f) owned) ≡ some l
      → (map : List (OwnedState X Value)) × Among (name, map) owned × (l ≡ filter_owned f map)
  unfolding map_names
  lookup-map_names name [] l e = absurd (cc)
  lookup-map_names name ((n, map) ∷ owned) l e = elim (Bool-cases (n == name)) [
    | inl hit ↦
        let same : name ≡ n = sym ((==_iff n name).0 hit) in
        (map, inl (ap (λ i. (i, map)) same), ground (arith, e, hit))
    | inr miss ↦
        let rest : lookup name (map_names (filter_owned f) owned) ≡ some l =
          ground (arith, e, miss) in
        let (m, among, is) = lookup-map_names name owned l rest in (m, inr among, is)
  ]

module _ {S : RgbSeal} {P : Pile S} {L : Ledger} {W : Wire S} (Sp : Stockpile P L W) {B : Bitcoin}
    (N : WalletProvider B S) where
  pub state_own_lem :
      (w : RgbWallet Sp N) (id : ℕ) (c : Contract P L) (st : ContractState S.Seal L.Value L.Atom)
      → current Sp w.contracts id ≡ some c
      → state P L c ≡ some st
      → (w' : RgbWallet Sp N) × (state_own Sp N w id
          ≡ some (filter_map_state (own_seal Sp N w.wallet) st, w'))
        × SameView Sp w.contracts w'.contracts
        × (w'.wallet ≡ w.wallet)
  unfolding state_own
  state_own_lem w id c st here computed =
      let (cs', e, view) = contract_state_lem Sp w.contracts id c here st computed in
      (record w { contracts = cs' }, rw (e, ◌>>=◌) refl, view, refl)
