-- ===== src/Bp/Api.antt =====
-- What src/popls/bp.rs calls of hypersonic and amplify, taken as parameters: the calculators of an
-- API, the parts of calls and operations, and confined collections.
use rgb_std.Base.{ℕ, ◌≡◌, Ordering, Option, some, List, Result, put, set_put}
use rgb_std.Base.Results.{MultiError}
use rgb_std.Seals.{CellAddr}
use rgb_std.Ledger.{Ledger}
use rgb_std.Contract.Params.{NamedState, DataCell}
use rgb_std.Bp.{Bitcoin}

-- `CallState`: a method and the name of the state that it assigns.
pub record CallState : Type 0 where
  pub method : ℕ
  pub owned : Option ℕ

-- The parts of `CallParams`, in the order of the code.
pub record CallParts (B : Bitcoin) (L : Ledger) : Type 0 where
  pub method : ℕ
  pub global : List (NamedState L.Atom)
  pub owned : List (NamedState (DataCell L.Value))
  pub using : List (CellAddr × Option B.Satisfaction)
  pub reading : List CellAddr

-- The default API of the articles, and its calculators. A calculator is changed by a call, also by
-- one that fails.
pub record Api (B : Bitcoin) (L : Ledger) : Type 1 where
  pub Calc : Type 0
  pub CalcError : Type 0
  pub AcceptError : Type 0
  pub default_call : L.Articles → Option CallState
  -- `none` is `StateUnknown`.
  pub calculate : L.Articles → ℕ → Option Calc
  pub accumulate : Calc → L.Value → Calc × Result CalcError (Unit {0})
  pub lessen : Calc → L.Value → Calc × Result CalcError (Unit {0})
  pub diff : Calc → Result CalcError (List L.Value)
  pub call_params : CallParts B L → L.CallParams
  -- The error of a call as the `MultiError` that it is.
  pub call_error : L.Error → MultiError AcceptError L.StockError ⊥
  pub op_contract_id : L.Operation → ℕ
  pub opid : L.Operation → ℕ
  pub op_compare : L.Operation → L.Operation → Ordering

-- `SmallOrdSet` and `SmallOrdMap` of amplify, which hold at most 2^16 - 1 entries; `none` is the error
-- of a collection that would be larger.
pub record Confined : Type 1 where
  pub try_from : {A : Type 0} → List A → Option (List A)
  pub push : ℕ → List ℕ → Option (List ℕ)
  pub insert : {V : Type 0} → ℕ → V → List (ℕ × V) → Option (List (ℕ × V))

pub record ConfinedLaws (C : Confined) : Type 1 where
  pub try_from_some : (A : Type 0) (l l' : List A) → C.try_from l ≡ some l' → l' ≡ l
  pub push_some : (k : ℕ) (s s' : List ℕ) → C.push k s ≡ some s' → s' ≡ set_put k s
  pub insert_some :
      (V : Type 0) (k : ℕ) (v : V) (m m' : List (ℕ × V)) → C.insert k v m ≡ some m' → m' ≡ put k v m
