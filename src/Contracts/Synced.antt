-- ===== src/Contracts/Synced.antt =====
-- `sync` of src/contracts.rs over all contracts.
use rgb_std.Base.{
  ℕ, ◌≡◌, refl, sym, ap, ◌∙◌, inl, inr, true, false, some, List, [], ◌∷◌, arith, ◌==◌, ==_iff,
  ==_refl, if◌then◌else◌, >>=-eq-some, contains, Bool-cases, Result, ok, err,
}
use rgb_std.Seals.{RgbSeal}
use rgb_std.Pile.{Pile, PileLaws}
use rgb_std.Ledger.{Ledger}
use rgb_std.Wire.{Wire}
use rgb_std.Contract.{Contract}
use rgb_std.Contract.Sync.{Changes}
use rgb_std.Contract.Sync as Sync
use rgb_std.Contract.Sync.Ends.{sync-Ends}
use rgb_std.Stockpile.{Stockpile}
use rgb_std.Contracts.{Contracts, with_contract_mut, sync_ids, sync}
use rgb_std.Contracts.View.{current, with_contract_mut_lem, with_contract_mut-current}

-- No id is listed twice.
abbrev pub IsUnique : List ℕ → Type 0
IsUnique [] = Unit {0}
IsUnique (x ∷ xs) = (contains xs x ≡ false) × IsUnique xs

module _ {S : RgbSeal} {P : Pile S} {L : Ledger} {W : Wire S} (Sp : Stockpile P L W) where
  -- Each listed contract is the result of its own `sync`, and no other contract has changed.
  pub record AllSynced (cs cs' : Contracts Sp) (changed : Changes) (ids : List ℕ) : Type 0 where
    same_store : cs'.persistence ≡ cs.persistence
    pub synced :
        (j : ℕ)
        → contains ids j ≡ true
        → (c c' : Contract P L) × (current Sp cs j ≡ some c)
          × (Sync.sync P L c changed ≡ some (c', ok tt))
          × (current Sp cs' j ≡ some c')
    pub others : (j : ℕ) → contains ids j ≡ false → current Sp cs' j ≡ current Sp cs j

  after_one :
      (cs cs1 cs' : Contracts Sp) (changed : Changes) (id : ℕ) (ids : List ℕ) (c c' : Contract P L)
      → contains ids id ≡ false
      → current Sp cs id ≡ some c
      → Sync.sync P L c changed ≡ some (c', ok tt)
      → cs1.persistence ≡ cs.persistence
      → ((j : ℕ) → current Sp cs1 j ≡ (if id == j then some c' else current Sp cs j))
      → AllSynced cs1 cs' changed ids
      → AllSynced cs cs' changed (id ∷ ids)
  after_one cs cs1 cs' changed id ids c c' once known done stored view rest = record {
    same_store = rest.same_store ∙ stored;
    synced = λ j listed. elim (Bool-cases (id == j)) [
      | inl hit ↦
          let same : id ≡ j = ground arith in
          (
            c,
            c',
            ground (arith, known, same),
            done,
            ground (arith, rest.others j, view j, once, same),
          )
      | inr miss ↦
          let (d, d', e1, e2, e3) = rest.synced j (ground (arith, listed, miss)) in
          (d, d', ground (arith, view j, miss, e1), e2, e3)
    ];
    others = λ j unlisted. ground (arith, rest.others j, view j, unlisted);
  }

  sync_one :
      (cs cs1 : Contracts Sp) (changed : Changes) (id : ℕ) (ids : List ℕ)
      (r : Result L.Error (Unit {0}))
      → with_contract_mut Sp cs id (λ c. Sync.sync P L c changed) ≡ some (cs1, r)
      → sync_ids Sp cs changed (id ∷ ids)
        ≡ elim r [ err e ↦ some (cs1, err e) | ok _ ↦ sync_ids Sp cs1 changed ids ]
  unfolding sync_ids
  sync_one cs cs1 changed id ids r e = rw e

  sync_ids-AllSynced :
      (cs cs' : Contracts Sp) (changed : Changes) (ids : List ℕ)
      → IsUnique ids
      → sync_ids Sp cs changed ids ≡ some (cs', ok tt)
      → AllSynced cs cs' changed ids
  unfolding sync_ids
  sync_ids-AllSynced cs cs' changed [] u e =
      let same : cs ≡ cs' = ground (arith, e) in
      record {
        same_store = ap (λ k. k.persistence) (sym same);
        synced = λ j c. absurd (cc);
        others = λ j c. ap (λ k. current Sp k j) (sym same);
      }
  sync_ids-AllSynced cs cs' changed (id ∷ ids) u e =
      let ((cs1, r), e1, e2) =
        >>=-eq-some (with_contract_mut Sp cs id (λ c. Sync.sync P L c changed)) _ e in
      go (λ cs2. sync_ids-AllSynced cs2 cs' changed ids u.1) cs1 r e1 e2
    where
      go :
          ((cs2 : Contracts Sp)
            → sync_ids Sp cs2 changed ids ≡ some (cs', ok tt)
            → AllSynced cs2 cs' changed ids)
          → (cs1 : Contracts Sp) (r : Result L.Error (Unit {0}))
          → with_contract_mut Sp cs id (λ c. Sync.sync P L c changed) ≡ some (cs1, r)
          → elim r [ err e ↦ some (cs1, err e) | ok _ ↦ sync_ids Sp cs1 changed ids ]
            ≡ some (cs', ok tt)
          → AllSynced cs cs' changed (id ∷ ids)
      go next cs1 (err x) e1 e2 = absurd (cc)
      go next cs1 (ok _) e1 e2 =
          let (c, c', known, done, stored, view) =
            with_contract_mut-current Sp cs cs1 id (λ c. Sync.sync P L c changed) (ok tt) e1 in
          after_one cs cs1 cs' changed id ids c c' u.0 known done stored view (next cs1 e2)

  module _ (laws : PileLaws P) where
    open laws use {IsValid}

    abbrev pub AllPresent : Contracts Sp → List ℕ → Type 0
    AllPresent cs ids =
        (j : ℕ)
        → contains ids j ≡ true
        → (c : Contract P L) × (current Sp cs j ≡ some c) × IsValid c.pile

    sync_ids_total :
        (cs : Contracts Sp) (changed : Changes) (ids : List ℕ)
        → IsUnique ids
        → AllPresent cs ids
        → (end : Contracts Sp × Result L.Error (Unit {0})) × (sync_ids Sp cs changed ids ≡ some end)
    unfolding sync_ids
    sync_ids_total cs changed [] u h = (_, refl)
    sync_ids_total cs changed (id ∷ ids) u h =
        let (c, known, v) = h id (ground (arith, ==_refl id)) in
        let (_, _, _, end, e, _, _) = sync-Ends laws L c changed v in
        go (λ cs1. sync_ids_total cs1 changed ids u.1) c end known e
      where
        go :
            ((cs1 : Contracts Sp)
              → AllPresent cs1 ids
              → (end : Contracts Sp × Result L.Error (Unit {0})) × (sync_ids Sp cs1 changed ids
                  ≡ some end))
            → (c : Contract P L) (end : Contract P L × Result L.Error (Unit {0}))
            → current Sp cs id ≡ some c
            → Sync.sync P L c changed ≡ some end
            → (end' : Contracts Sp × Result L.Error (Unit {0})) × (sync_ids Sp cs changed (id ∷ ids)
                ≡ some end')
        go next c (c', err x) known e =
            let (cs1, e1, _, _) = (with_contract_mut_lem Sp cs id _).1 c c' (err x) known e in
            (_, sync_one cs cs1 changed id ids (err x) e1)
        go next c (c', ok _) known e =
            let (cs1, e1, _, view) = (with_contract_mut_lem Sp cs id _).1 c c' (ok tt) known e in
            let present : AllPresent cs1 ids = λ j listed.
              let (d, k, v) = h j (ground (arith, listed)) in
              (d, ground (arith, view j, k, u.0, listed, ==_iff id j), v) in
            let (end', e2) = next cs1 present in
            (end', sync_one cs cs1 changed id ids (ok tt) e1 ∙ e2)

    -- Where every listed id is listed once and has a contract with a valid pile, `sync` does not
    -- panic. If it returns no error, then each listed contract is the result of its own `sync` with
    -- these changes, and the stockpile and all other contracts are as they were.
    pub sync-AllSynced :
        (cs : Contracts Sp) (changed : Changes)
        → IsUnique (Sp.contract_ids cs.persistence)
        → AllPresent cs (Sp.contract_ids cs.persistence)
        → (cs' : Contracts Sp) × (r : Result L.Error (Unit {0})) × (sync Sp cs changed
            ≡ some (cs', r))
          × (r ≡ ok tt → AllSynced cs cs' changed (Sp.contract_ids cs.persistence))
    unfolding sync
    sync-AllSynced cs changed u h =
        let ids = Sp.contract_ids cs.persistence in
        let (end, e) = sync_ids_total cs changed ids u h in
        (
          end.0,
          end.1,
          e,
          λ fine. sync_ids-AllSynced cs end.0 changed ids u (e ∙ ap (λ r. some (end.0, r)) fine),
        )
