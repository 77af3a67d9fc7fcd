-- ===== src/PileFs/Aora.antt =====
-- The containers of the `aora` crate on which persistence/fs/src/pile.rs stands, taken as parameters
-- with what their documentation promises: an append-only map, whose entries are never changed; an
-- append-only index of several values under a key, whose order is not relied upon; and a map whose
-- values can be updated. `none` is a panic.
use rgb_std.Base.{
  ℕ, ◌≡◌, Bool, true, ◌&&◌, ◌||◌, Option, none, some, or_else, is_some, List, [], contains, ◌==◌,
  if◌then◌else◌, Eq,
}

-- `FileAoraMap`. `get_expect` is `get` where `none` is a panic.
pub record AoraMap (K : Type 0) (V : Type 0) : Type 1 where
  pub File : Type 0
  pub create_new : File
  pub contains_key : File → K → Bool
  pub get : File → K → Option V
  pub insert : File → K → V → Option File
  pub iter : File → List (K × V)

pub record AoraMapLaws {K V : Type 0} ⦃e : Eq K⦄ (M : AoraMap K V) : Type 0 where
  pub get-create_new : (k : K) → M.get M.create_new k ≡ none
  pub contains_key-get : (f : M.File) (k : K) → M.contains_key f k ≡ is_some (M.get f k)
  -- An entry that is there stays, whatever is inserted.
  pub get-insert :
      (f g : M.File) (k j : K) (v : V)
      → M.insert f k v ≡ some g
      → M.get g j ≡ (if e.beq k j then or_else (M.get f k) (some v) else M.get f j)
  pub insert_new :
      (f : M.File) (k : K) (v : V) → M.get f k ≡ none → (g : M.File) × (M.insert f k v ≡ some g)
  pub insert_same :
      (f : M.File) (k : K) (v : V) → M.get f k ≡ some v → (g : M.File) × (M.insert f k v ≡ some g)

-- `FileAoraIndex`.
pub record AoraIndex : Type 1 where
  pub File : Type 0
  pub create_new : File
  pub keys : File → List ℕ
  pub get : File → ℕ → List ℕ
  pub push : File → ℕ → ℕ → File

pub record AoraIndexLaws (M : AoraIndex) : Type 0 where
  pub keys-create_new : M.keys M.create_new ≡ []
  pub get-create_new : (k : ℕ) → M.get M.create_new k ≡ []
  pub keys-push :
      (f : M.File) (k v j : ℕ)
      → contains (M.keys (M.push f k v)) j ≡ (k == j || contains (M.keys f) j)
  pub get-push :
      (f : M.File) (k v j a : ℕ)
      → contains (M.get (M.push f k v) j) a ≡ (k == j && v == a || contains (M.get f j) a)

-- `FileAuraMap`.
pub record AuraMap (V : Type 0) : Type 1 where
  pub File : Type 0
  pub create_new : File
  pub contains_key : File → ℕ → Bool
  pub get : File → ℕ → Option V
  pub insert_only : File → ℕ → V → Option File
  pub update_only : File → ℕ → V → Option File
  pub commit_transaction : File → File

pub record AuraMapLaws {V : Type 0} (M : AuraMap V) : Type 0 where
  pub get-create_new : (k : ℕ) → M.get M.create_new k ≡ none
  pub contains_key-get : (f : M.File) (k : ℕ) → M.contains_key f k ≡ is_some (M.get f k)
  pub get-insert_only :
      (f : M.File) (k : ℕ) (v : V)
      → M.get f k ≡ none
      → (g : M.File) × (M.insert_only f k v ≡ some g)
        × ((j : ℕ) → M.get g j ≡ (if k == j then some v else M.get f j))
  pub get-update_only :
      (f : M.File) (k : ℕ) (v : V)
      → is_some (M.get f k) ≡ true
      → (g : M.File) × (M.update_only f k v ≡ some g)
        × ((j : ℕ) → M.get g j ≡ (if k == j then some v else M.get f j))
  pub get-commit_transaction : (f : M.File) (j : ℕ) → M.get (M.commit_transaction f) j ≡ M.get f j
