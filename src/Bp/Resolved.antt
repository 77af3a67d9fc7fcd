-- ===== src/Bp/Resolved.antt =====
-- What the resolution of seals of src/popls/bp.rs gives.
use rgb_std.Base.{
  ℕ, ◌≡◌, refl, ap, inl, inr, ◌⊎◌, Bool, true, false, ◌||◌, Option, none, some, List, [], ◌∷◌,
  if◌then◌else◌, ◌>>=◌, Bool-cases, Option-cases, ok, err,
}
use rgb_std.Contract.Params.{EitherSeal, alt, token}
use rgb_std.Bp.{Bitcoin, PrefabSeal, WoutAssignment, OpRequest, UnresolvedSeal, spk, change}
use rgb_std.Bp.Requests.{
  Asked, Cells, resolve_one, resolve_owned, resolve_seals, seal_at, asks_for, script_of,
  resolve_seal_in, resolve_seal,
}

module _ (B : Bitcoin) where
  -- How a resolved seal stands to the one that was asked for.
  abbrev pub SealResolved : (ℕ → Option ℕ) → Option ℕ → Asked B → EitherSeal (PrefabSeal B) → Type 0
  SealResolved resolver change_vout (alt (some seal)) (alt found) =
      (resolver (B.script_pubkey seal.wout) ≡ some found.vout)
      × (found.noise ≡ some (B.noise seal.wout))
  SealResolved resolver change_vout (alt none) (alt found) =
      (change_vout ≡ some found.vout) × (found.noise ≡ none)
  SealResolved resolver change_vout (token auth) (token auth') = auth ≡ auth'
  SealResolved resolver change_vout _ _ = ⊥

  abbrev pub OwnedResolved :
      {Value : Type 0}
      → (ℕ → Option ℕ)
      → Option ℕ
      → Cells B (Option (WoutAssignment B)) Value
      → Cells B (PrefabSeal B) Value
      → Type 0
  OwnedResolved resolver change_vout [] [] = Unit {0}
  OwnedResolved resolver change_vout (a ∷ owned) (r ∷ resolved) =
      (r.name ≡ a.name)
      × (r.state.value ≡ a.state.value)
      × SealResolved resolver change_vout a.state.seal r.state.seal
      × OwnedResolved resolver change_vout owned resolved
  OwnedResolved resolver change_vout _ _ = ⊥

  abbrev pub AllResolved :
      {Value Atom : Type 0}
      → (ℕ → Option ℕ)
      → Option ℕ
      → List (OpRequest B Value Atom (Option (WoutAssignment B)))
      → List (OpRequest B Value Atom (PrefabSeal B))
      → Type 0
  AllResolved resolver change_vout [] [] = Unit {0}
  AllResolved resolver change_vout (a ∷ requests) (r ∷ items) =
      (r.contract_id ≡ a.contract_id)
      × (r.method ≡ a.method)
      × (r.reading ≡ a.reading)
      × (r.using ≡ a.using)
      × (r.global ≡ a.global)
      × OwnedResolved resolver change_vout a.owned r.owned
      × AllResolved resolver change_vout requests items
  AllResolved resolver change_vout _ _ = ⊥

  -- Why a seal does not resolve.
  abbrev pub Fails : (ℕ → Option ℕ) → Option ℕ → UnresolvedSeal → Type 0
  Fails resolver change_vout (spk script) = resolver script ≡ none
  Fails resolver change_vout change = change_vout ≡ none

  -- A seal that is asked for and that an error is about.
  abbrev pub Asks : Asked B → UnresolvedSeal → Type 0
  Asks (alt (some seal)) (spk script) = B.script_pubkey seal.wout ≡ script
  Asks (alt none) change = Unit {0}
  Asks _ _ = ⊥

  abbrev pub AsksAmong :
      {Value : Type 0} → Cells B (Option (WoutAssignment B)) Value → UnresolvedSeal → Type 0
  AsksAmong [] e = ⊥
  AsksAmong (a ∷ owned) e = Asks a.state.seal e ⊎ AsksAmong owned e

  abbrev pub AskedBy :
      {Value Atom : Type 0}
      → List (OpRequest B Value Atom (Option (WoutAssignment B)))
      → UnresolvedSeal
      → Type 0
  AskedBy [] e = ⊥
  AskedBy (request ∷ requests) e = AsksAmong request.owned e ⊎ AskedBy requests e

  resolve_one-SealResolved :
      (resolver : ℕ → Option ℕ) (change_vout : Option ℕ) (asked : Asked B)
      → ((seal : EitherSeal (PrefabSeal B)) × (resolve_one B resolver change_vout asked ≡ ok seal)
          × SealResolved resolver change_vout asked seal)
        ⊎ ((e : UnresolvedSeal) × (resolve_one B resolver change_vout asked ≡ err e)
            × Fails resolver change_vout e
            × Asks asked e)
  unfolding resolve_one
  resolve_one-SealResolved resolver change_vout (alt (some seal)) =
      let script = B.script_pubkey seal.wout in
      elim (Option-cases (resolver script)) [
        | inl e ↦ inr (spk script, rw e, e, refl)
        | inr (vout, e) ↦
            inl (alt (record { vout = vout; noise = some (B.noise seal.wout) }), rw e, (e, refl))
      ]
  resolve_one-SealResolved resolver none (alt none) = inr (change, refl, refl, tt)
  resolve_one-SealResolved resolver (some vout) (alt none) =
      inl (alt (record { vout = vout; noise = none }), refl, (refl, refl))
  resolve_one-SealResolved resolver change_vout (token auth) = inl (token auth, refl, refl)

  resolve_owned-OwnedResolved :
      {Value : Type 0} (resolver : ℕ → Option ℕ) (change_vout : Option ℕ)
      (owned : Cells B (Option (WoutAssignment B)) Value)
      → ((resolved : Cells B (PrefabSeal B) Value) × (resolve_owned B resolver change_vout owned
            ≡ ok resolved)
          × OwnedResolved resolver change_vout owned resolved)
        ⊎ ((e : UnresolvedSeal) × (resolve_owned B resolver change_vout owned ≡ err e)
            × Fails resolver change_vout e
            × AsksAmong owned e)
  unfolding resolve_owned
  resolve_owned-OwnedResolved resolver change_vout [] = inl ([], refl, tt)
  resolve_owned-OwnedResolved resolver change_vout (assignment ∷ owned) =
      elim (resolve_one-SealResolved resolver change_vout assignment.state.seal) [
        | inr (e, bad, why, asks) ↦ inr (e, rw bad, why, inl asks)
        | inl (seal, good, seal_fine) ↦
            elim (resolve_owned-OwnedResolved resolver change_vout owned) [
              | inr (e, bad, why, asks) ↦ inr (e, rw (good, bad), why, inr asks)
              | inl (rest, fine, rest_fine) ↦ inl (
                record {
                  name = assignment.name;
                  state = record { seal = seal; value = assignment.state.value };
                }
                    ∷ rest,
                rw (good, fine),
                (refl, refl, seal_fine, rest_fine),
              )
            ]
      ]

  -- Resolving the seals of requests ends with requests that are the same but for their seals, where
  -- each seal of an asked output has the output number that the resolver gives its script, and the
  -- output's noise, each change seal the number of the change output, and each token stays; or it
  -- ends with the error of a seal that is asked for: a script that the resolver does not know, or a
  -- change output that lacks.
  pub resolve_seals-AllResolved :
      {Value Atom : Type 0} (resolver : ℕ → Option ℕ) (change_vout : Option ℕ)
      (requests : List (OpRequest B Value Atom (Option (WoutAssignment B))))
      → ((items : List (OpRequest B Value Atom (PrefabSeal B))) × (resolve_seals B resolver
              change_vout requests
            ≡ ok items)
          × AllResolved resolver change_vout requests items)
        ⊎ ((e : UnresolvedSeal) × (resolve_seals B resolver change_vout requests ≡ err e)
            × Fails resolver change_vout e
            × AskedBy requests e)
  unfolding resolve_seals
  resolve_seals-AllResolved resolver change_vout [] = inl ([], refl, tt)
  resolve_seals-AllResolved resolver change_vout (request ∷ requests) =
      elim (resolve_owned-OwnedResolved resolver change_vout request.owned) [
        | inr (e, bad, why, asks) ↦ inr (e, rw bad, why, inl asks)
        | inl (owned, good, owned_fine) ↦
            elim (resolve_seals-AllResolved resolver change_vout requests) [
              | inr (e, bad, why, asks) ↦ inr (e, rw (good, bad), why, inr asks)
              | inl (items, fine, items_fine) ↦ inl (
                record {
                  contract_id = request.contract_id;
                  method = request.method;
                  reading = request.reading;
                  using = request.using;
                  global = request.global;
                  owned = owned;
                }
                    ∷ items,
                rw (good, fine),
                (refl, refl, refl, refl, refl, owned_fine, items_fine),
              )
            ]
      ]

  -- Whether a request asks for an output.
  abbrev pub asked_in :
      {Value : Type 0} → B.WitnessOut → Cells B (Option (WoutAssignment B)) Value → Bool
  asked_in wout [] = false
  asked_in wout (assignment ∷ owned) = asks_for B wout assignment.state.seal || asked_in wout owned

  asks_for-script_of :
      (wout : B.WitnessOut) (asked : Asked B)
      → asks_for B wout asked ≡ true
      → script_of B asked ≡ some (B.script_pubkey wout)
  asks_for-script_of wout (alt (some seal)) h =
      ap (λ w. some (B.script_pubkey w)) ((B.wout_eq.beq_iff seal.wout wout).0 h)
  asks_for-script_of wout (alt none) h = absurd (cc)
  asks_for-script_of wout (token auth) h = absurd (cc)

  resolve_seal_in-asked :
      {Value : Type 0} (wout : B.WitnessOut) (resolver : ℕ → Option ℕ)
      (owned : Cells B (Option (WoutAssignment B)) Value)
      → resolve_seal_in B wout resolver owned ≡ (
          if asked_in wout owned
          then (resolver (B.script_pubkey wout) >>= λ vout. some (seal_at B wout vout))
          else none)
  unfolding resolve_seal_in
  resolve_seal_in-asked wout resolver [] = refl
  resolve_seal_in-asked wout resolver (assignment ∷ owned) =
      elim (Bool-cases (asks_for B wout assignment.state.seal)) [
        | inl hit ↦ rw (hit, asks_for-script_of wout assignment.state.seal hit)
        | inr miss ↦ rw miss (resolve_seal_in-asked wout resolver owned)
      ]

  -- A request resolves an output that it asks for, anywhere among its owned states, to the number
  -- that the resolver gives its script, with the noise of the output; and no other output.
  resolve_seal-asked :
      {Value Atom : Type 0} (request : OpRequest B Value Atom (Option (WoutAssignment B)))
      (wout : B.WitnessOut) (resolver : ℕ → Option ℕ)
      → resolve_seal B request wout resolver ≡ (
          if asked_in wout request.owned
          then (resolver (B.script_pubkey wout) >>= λ vout. some (seal_at B wout vout))
          else none)
  unfolding resolve_seal
  resolve_seal-asked request wout resolver = resolve_seal_in-asked wout resolver request.owned
