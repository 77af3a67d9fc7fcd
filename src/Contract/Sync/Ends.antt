-- ===== src/Contract/Sync/Ends.antt =====
-- How the two calls of the ledger decide the result of `Contract::sync` of src/contract.rs.
use rgb_std.Base.{ℕ, ◌≡◌, refl, some, List, Result, ok, err}
use rgb_std.Seals.{RgbSeal}
use rgb_std.Pile.{Pile, PileLaws}
use rgb_std.Ledger.{Ledger}
use rgb_std.Contract.{Contract}
use rgb_std.Contract.Sync.{Changes, sync, roll_back_ops, forward_ops}
use rgb_std.Contract.Sync.Exact.{IsExact, prepare_total}

module _ {S : RgbSeal} {P : Pile S} (laws : PileLaws P) (L : Ledger) where
  open laws use {IsValid}

  -- How `sync` ends, by the results of the two calls of the ledger.
  pub data Ends (c : Contract P L) (t : P.Store) (roll_back forward : List ℕ)
      : Contract P L × Result L.Error (Unit {0}) → Type 0 where
    rollback_failed :
        (log : L.Log) (e : L.Error)
        → L.rollback c.ledger roll_back ≡ (log, err e)
        → Ends c t roll_back forward (record c { ledger = log; pile = t }, err e)
    forward_failed :
        (log log' : L.Log) (e : L.Error)
        → L.rollback c.ledger roll_back ≡ (log, ok tt)
        → L.forward log forward ≡ (log', err e)
        → Ends c t roll_back forward
            (record c { ledger = log'; pile = P.commit_transaction t }, err e)
    synced :
        (log log' : L.Log)
        → L.rollback c.ledger roll_back ≡ (log, ok tt)
        → L.forward log forward ≡ (log', ok tt)
        → Ends c t roll_back forward (
          record c { ledger = log'; pile = P.commit_transaction (P.commit_transaction t) },
          ok tt,
        )

  forward_ops-Ends :
      (c : Contract P L) (t : P.Store) (rb fw : List ℕ) (log : L.Log)
      (r : L.Log × Result L.Error (Unit {0}))
      → L.rollback c.ledger rb ≡ (log, ok tt)
      → L.forward log fw ≡ r
      → Ends c t rb fw
          (forward_ops P L (record c { ledger = log; pile = P.commit_transaction t }) fw r)
  unfolding forward_ops
  forward_ops-Ends c t rb fw log (log', err e) h k = forward_failed log log' e h k
  forward_ops-Ends c t rb fw log (log', ok tt) h k = synced log log' h k

  roll_back_ops-Ends :
      (c : Contract P L) (t : P.Store) (rb fw : List ℕ) (r : L.Log × Result L.Error (Unit {0}))
      → L.rollback c.ledger rb ≡ r
      → Ends c t rb fw (roll_back_ops P L (record c { pile = t }) fw r)
  unfolding roll_back_ops
  roll_back_ops-Ends c t rb fw (log, err e) h = rollback_failed log e h
  roll_back_ops-Ends c t rb fw (log, ok tt) h =
      forward_ops-Ends c t rb fw log (L.forward log fw) h refl

  -- On a contract with a valid pile `sync` does not panic. It rolls the ledger back by exactly the
  -- operations that lost their validity and then forwards exactly those that gained it; the pile
  -- is committed once after each call that succeeds, and an error ends the call and is returned.
  pub sync-Ends :
      (c : Contract P L) (changed : Changes)
      → IsValid c.pile
      → (t : P.Store) × (roll_back forward : List ℕ) × (end : Contract P L
          × Result L.Error (Unit {0}))
        × (sync P L c changed ≡ some end)
        × IsExact laws c.pile t (roll_back, forward)
        × Ends c t roll_back forward end
  unfolding sync
  sync-Ends c changed v =
      let p = prepare_total laws c.pile changed v in
      (
        p.target,
        p.sets.0,
        p.sets.1,
        _,
        rw p.prepared,
        p.exact,
        roll_back_ops-Ends c p.target p.sets.0 p.sets.1 (L.rollback c.ledger p.sets.0) refl,
      )
