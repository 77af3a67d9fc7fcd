-- ===== src/StockpileDir/Purged.antt =====
-- What `purge` of persistence/fs/src/stockpile.rs leaves.
use rgb_std.Base.{
  ℕ, ◌≡◌, refl, ◌∙◌, ap, true, Option, none, some, List, [], ◌∷◌, arith, lookup, contains,
  contains-keys, is_some, ok, err,
}
use rgb_std.Seals.{RgbSeal}
use rgb_std.Pile.{Pile}
use rgb_std.Ledger.{Ledger}
use rgb_std.Wire.{Wire}
use rgb_std.Host.{Host}
use rgb_std.Contract.{Contract}
use rgb_std.Contract.New.{load}
use rgb_std.Contracts.{Contracts, with_contract_mut, remove}
use rgb_std.Contracts as Contracts
use rgb_std.Contracts.View.{current, with_contract_mut_lem}
use rgb_std.StockpileDir.{
  StockpileDir, FileSystem, stockpile_dir, has_contract, contract, get_contract_dir, purge,
}

lookup-remove {ℓ} : {V : Type ℓ} (k : ℕ) (m : List (ℕ × V)) → lookup k (remove k m) ≡ none
lookup-remove k [] = refl
lookup-remove k ((j, v) ∷ m) = ground (arith, lookup-remove k m)

module _ {S : RgbSeal} {P : Pile S} {L : Ledger} {W : Wire S} {H : Host P L W}
    (D : FileSystem H) where
  path_of :
      (d : StockpileDir D) (id name : ℕ)
      → lookup id d.contracts ≡ some name
      → get_contract_dir D d id ≡ some (D.contract_path name id)
  unfolding get_contract_dir
  path_of d id name listed = rw listed

  purge_listed :
      (d : StockpileDir D) (id name : ℕ) (disk : H.Disk)
      → lookup id d.contracts ≡ some name
      → D.remove_dir_all d.disk (D.contract_path name id) ≡ (disk, ok tt)
      → purge D d id ≡ (record d { disk = disk }, ok tt)
  unfolding purge
  purge_listed d id name disk listed gone = rw (path_of d id name listed, purge, gone)

  contract_missing :
      (d : StockpileDir D) (id name : ℕ) (e : L.StockError)
      → lookup id d.contracts ≡ some name
      → H.load_ledger d.disk (D.contract_path name id) ≡ err e
      → contract D d id ≡ none
  unfolding contract load
  contract_missing d id name e listed fails = rw (path_of d id name listed, fails)

  -- After a contract was purged over a directory, where its files were removed and a ledger does not
  -- load from a directory that is gone, its id is still listed and known, but there is no contract
  -- under it, and every call that changes it, as `sync` does for each listed id, panics.
  pub purge-current :
      {R : Type 0} (cs : Contracts (stockpile_dir D)) (id name : ℕ) (disk : H.Disk)
      (e : L.StockError) (f : Contract P L → Option (Contract P L × R))
      → lookup id cs.persistence.contracts ≡ some name
      → D.remove_dir_all cs.persistence.disk (D.contract_path name id) ≡ (disk, ok tt)
      → H.load_ledger disk (D.contract_path name id) ≡ err e
      → (cs' : Contracts (stockpile_dir D)) × (Contracts.purge (stockpile_dir D) cs id
          ≡ (cs', ok tt))
        × (Contracts.has_contract (stockpile_dir D) cs' id ≡ true)
        × (contains (Contracts.contract_ids (stockpile_dir D) cs') id ≡ true)
        × (current (stockpile_dir D) cs' id ≡ none)
        × (with_contract_mut (stockpile_dir D) cs' id f ≡ none)
  unfolding Contracts.purge Contracts.has_contract Contracts.contract_ids current has_contract
  purge-current cs id name disk e f listed gone fails =
      let d : StockpileDir D = record cs.persistence { disk = disk } in
      let cs' : Contracts (stockpile_dir D) = record cs {
        persistence = d;
        contracts = remove id cs.contracts;
      } in
      let missing : current (stockpile_dir D) cs' id ≡ none =
        rw (lookup-remove id cs.contracts, contract_missing d id name e listed fails) in
      (
        cs',
        rw (purge_listed cs.persistence id name disk listed gone),
        rw listed,
        contains-keys id cs.persistence.contracts ∙ ap is_some listed,
        missing,
        (with_contract_mut_lem (stockpile_dir D) cs' id f).0 missing,
      )
