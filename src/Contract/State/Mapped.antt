-- ===== src/Contract/State/Mapped.antt =====
-- `map` and `filter_map` of `ContractState` in src/contract.rs.
use rgb_std.Base.{
  ℕ, ◌≡◌, refl, ap, ap₂, Option, none, some, List, [], ◌∷◌, ◌>>=◌, Option-cases, inl, inr,
}
use rgb_std.Contract.State.{OwnedState, ContractState}

module _ {A B Value : Type 0} where
  abbrev pub with_seal : OwnedState A Value → B → OwnedState B Value
  with_seal owned seal = record {
    addr = owned.addr;
    assignment = record { seal = seal; value = owned.assignment.value };
    status = owned.status;
  }

  unfoldable map_owned : (A → B) → List (OwnedState A Value) → List (OwnedState B Value)
  map_owned f [] = []
  map_owned f (owned ∷ rest) = with_seal owned (f owned.assignment.seal) ∷ map_owned f rest

  abbrev pub keep_owned :
      OwnedState A Value → Option B → List (OwnedState B Value) → List (OwnedState B Value)
  keep_owned owned none rest = rest
  keep_owned owned (some seal) rest = with_seal owned seal ∷ rest

  unfoldable pub filter_owned :
      (A → Option B) → List (OwnedState A Value) → List (OwnedState B Value)
  filter_owned f [] = []
  filter_owned f (owned ∷ rest) = keep_owned owned (f owned.assignment.seal) (filter_owned f rest)

  -- On each list of a map by names, which stay.
  unfoldable pub map_names :
      (List (OwnedState A Value) → List (OwnedState B Value))
      → List (ℕ × List (OwnedState A Value))
      → List (ℕ × List (OwnedState B Value))
  map_names g [] = []
  map_names g ((name, states) ∷ rest) = (name, g states) ∷ map_names g rest

  unfoldable map_state :
      {Atom : Type 0} → (A → B) → ContractState A Value Atom → ContractState B Value Atom
  unfolding map_owned map_names
  map_state f state = record {
    immutable = state.immutable;
    owned = map_names (map_owned f) state.owned;
    aggregated = state.aggregated;
  }

  unfoldable pub filter_map_state :
      {Atom : Type 0} → (A → Option B) → ContractState A Value Atom → ContractState B Value Atom
  unfolding filter_owned map_names
  filter_map_state f state = record {
    immutable = state.immutable;
    owned = map_names (filter_owned f) state.owned;
    aggregated = state.aggregated;
  }

  filter_owned-some :
      (f : A → B) (l : List (OwnedState A Value)) → filter_owned (λ a. some (f a)) l ≡ map_owned f l
  unfolding filter_owned map_owned
  filter_owned-some f [] = refl
  filter_owned-some f (owned ∷ l) =
      ap (λ r. with_seal owned (f owned.assignment.seal) ∷ r) (filter_owned-some f l)

  map_names-cong :
      (g h : List (OwnedState A Value) → List (OwnedState B Value))
      (m : List (ℕ × List (OwnedState A Value)))
      → ((l : List (OwnedState A Value)) → g l ≡ h l)
      → map_names g m ≡ map_names h m
  unfolding map_names
  map_names-cong g h [] e = refl
  map_names-cong g h ((name, l) ∷ m) e = ap₂ (λ x y. (name, x) ∷ y) (e l) (map_names-cong g h m e)

module _ {A B C Value : Type 0} where
  filter_owned_twice :
      (f : A → Option B) (g : B → Option C) (l : List (OwnedState A Value))
      → filter_owned g (filter_owned f l) ≡ filter_owned (λ a. f a >>= g) l
  unfolding filter_owned
  filter_owned_twice f g [] = refl
  filter_owned_twice f g (owned ∷ l) = elim (Option-cases (f owned.assignment.seal)) [
    | inl e ↦ rw (e, filter_owned) (filter_owned_twice f g l)
    | inr (b, e) ↦
        rw (e, filter_owned) (ap (keep_owned (with_seal owned b) (g b)) (filter_owned_twice f g l))
  ]

  map_names_twice :
      (f : A → Option B) (g : B → Option C) (m : List (ℕ × List (OwnedState A Value)))
      → map_names (filter_owned g) (map_names (filter_owned f) m)
        ≡ map_names (filter_owned (λ a. f a >>= g)) m
  unfolding map_names
  map_names_twice f g [] = refl
  map_names_twice f g ((name, l) ∷ m) =
      ap₂ (λ x y. (name, x) ∷ y) (filter_owned_twice f g l) (map_names_twice f g m)

  -- Filtering by a function that keeps every seal is mapping, and filtering twice is filtering by
  -- the two functions one after the other.
  filter_map_state_lem :
      {Atom : Type 0} (h : A → B) (f : A → Option B) (g : B → Option C)
      (state : ContractState A Value Atom)
      → (filter_map_state (λ a. some (h a)) state ≡ map_state h state)
        × (filter_map_state g (filter_map_state f state) ≡ filter_map_state (λ a. f a >>= g) state)
  unfolding filter_map_state map_state
  filter_map_state_lem h f g state = (
    ap (λ o. record { immutable = state.immutable; owned = o; aggregated = state.aggregated })
        (map_names-cong (filter_owned (λ a. some (h a))) (map_owned h) state.owned
          (filter_owned-some h)),
    ap (λ o. record { immutable = state.immutable; owned = o; aggregated = state.aggregated })
        (map_names_twice f g state.owned),
  )
