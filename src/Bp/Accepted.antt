-- ===== src/Bp/Accepted.antt =====
-- `fulfill` of src/popls/bp.rs followed by `check_request`: the wallet accepts its own payments.
use mathlib.Core.Path.{subst}
use rgb_std.Base.{
  ℕ, ◌≡◌, refl, sym, ap, ◌∙◌, inl, inr, Option, none, some, List, [], ◌∷◌, ◌>>=◌, arith, ◌==◌,
  ==_iff, Bool-cases, All, All-imp, lookup, or_else, Result, ok,
}
use rgb_std.Base.Results.{◌>>=◌ as bind, >>=-eq-ok as bind-eq-ok, Result-cases}
use rgb_std.Seals.{RgbSeal}
use rgb_std.Pile.{Pile}
use rgb_std.Ledger.{Ledger}
use rgb_std.Wire.{Wire}
use rgb_std.Stockpile.{Stockpile}
use rgb_std.Contract.{Contract}
use rgb_std.Contracts.{Contracts}
use rgb_std.Contracts.View.{current}
use rgb_std.Contracts.Named.{Among}
use rgb_std.Contracts.Reads.{contract_articles_lem}
use rgb_std.Contract.State.{OwnedState, ContractState, state}
use rgb_std.Contract.State.Mapped.{filter_owned, map_names, filter_map_state}
use rgb_std.Bp.{Bitcoin, WoutAssignment, OpRequest}
use rgb_std.Bp.Requests.{ok_or}
use rgb_std.Bp.Api.{Api}
use rgb_std.Bp.Check.{entry, find_used, check_request}
use rgb_std.Bp.Checked.{values_in, values_out, IsBalanced}
use rgb_std.Bp.Conserved.{check_request-IsBalanced}
use rgb_std.Bp.Wallet.{WalletProvider, RgbWallet, own_seal}
use rgb_std.Bp.Owned.{filter_owned-Among, lookup-map_names, state_own_lem}
use rgb_std.Bp.Fulfill.{
  RgbInvoice, FulfillError, call_state_unknown, state_name_unknown, value_missed, state_unavailable,
  Coinselect, Terms, terms, used_states, changes, select, fulfill_terms, fulfill,
}
use rgb_std.Bp.Runs.{tagged, values_of, uses_of, own-run_all, own-run_all-some, own-tagged_other}
use rgb_std.Bp.Fulfilled.{IsHonest, IsRegular, Pays, ok_or-ok, select-Pays}

module _ {Seal Value : Type 0} where
  -- A state is found under its name by its address, or another of the same value is.
  abbrev pub IsIndexed : List (ℕ × List (OwnedState Seal Value)) → Type 0
  IsIndexed states =
      (name : ℕ) (map : List (OwnedState Seal Value)) (o : OwnedState Seal Value)
      → Among (name, map) states
      → Among o map
      → (o' : OwnedState Seal Value) × (find_used o.addr states ≡ some (name, o'))
        × (o'.assignment.value ≡ o.assignment.value)

module _ {B : Bitcoin} {L : Ledger} (A : Api B L) where
  values_out-changes :
      (name : ℕ) (diff : List L.Value) → values_out (changes A name diff) ≡ tagged name diff
  unfolding changes
  values_out-changes name [] = refl
  values_out-changes name (value ∷ diff) =
      ap (λ r. (name, value) ∷ r) (values_out-changes name diff)

  -- What a picked state has to do with the states that `check_request` looks in.
  abbrev IsFound :
      {Seal : Type 0}
      → List (ℕ × List (OwnedState Seal L.Value))
      → ℕ
      → OwnedState ℕ L.Value
      → Type 0
  IsFound {Seal} states name o =
      (o' : OwnedState Seal L.Value) × (find_used o.addr states ≡ some (name, o'))
      × (o'.assignment.value ≡ o.assignment.value)

  values_in-picked :
      {Seal : Type 0} (states : List (ℕ × List (OwnedState Seal L.Value))) (name : ℕ)
      (picked : List (OwnedState ℕ L.Value))
      → All (IsFound states name) picked
      → values_in states (used_states A (uses_of picked)) ≡ some (tagged name (values_of picked))
  values_in-picked states name [] h = refl
  values_in-picked states name (o ∷ picked) ((o', found, same), h) =
      let ih = values_in-picked states name picked h in rw (found, ◌>>=◌, ih, same) refl

  terms-calc :
      (invoice : RgbInvoice B L.Value) (articles : L.Articles) (t : Terms A)
      → terms A invoice articles ≡ ok t
      → A.calculate articles t.state_name ≡ some t.calc
  unfolding terms
  terms-calc invoice articles t e =
      let (call, _, e1) =
        bind-eq-ok (ok_or call_state_unknown (or_else invoice.call (A.default_call articles))) _
          e in
      let (name, _, e2) = bind-eq-ok (ok_or state_name_unknown call.owned) _ e1 in
      let (calc, e3, e4) = bind-eq-ok (ok_or state_name_unknown (A.calculate articles name)) _ e2 in
      let (value, _, e5) = bind-eq-ok (ok_or value_missed invoice.value) _ e4 in
      let made : record { method = call.method; state_name = name; calc = calc; value = value }
          ≡ t =
        ground (arith, e5) in
      subst (λ (x : Terms A). A.calculate articles x.state_name ≡ some x.calc) made
        (ok_or-ok state_name_unknown (A.calculate articles name) calc e3)

  Pays-IsBalanced :
      (articles : L.Articles) (invoice : RgbInvoice B L.Value) (giveaway : Option ℕ) (t : Terms A)
      (own_states : List (OwnedState ℕ L.Value))
      (request : OpRequest B L.Value L.Atom (Option (WoutAssignment B)))
      → A.calculate articles t.state_name ≡ some t.calc
      → (pays : Pays A articles invoice giveaway t own_states request) → (name : ℕ)
      → IsBalanced A articles name
          (tagged t.state_name (values_of pays.picked))
          (values_out request.owned)
  Pays-IsBalanced articles invoice giveaway t own_states request known pays name =
      let made : entry A articles t.state_name none ≡ ok t.calc =
        unfold entry in rw (known, entry) refl in
      let outs : values_out request.owned ≡ tagged t.state_name (t.value ∷ pays.diff) =
        ap values_out pays.owned
        ∙ ap (λ r. (t.state_name, t.value) ∷ r) (values_out-changes t.state_name pays.diff) in
      rw outs (elim (Bool-cases (t.state_name == name)) [
        | inl hit ↦
            let same : t.state_name ≡ name = (==_iff t.state_name name).0 hit in
            let (mid, took, is) =
              own-run_all A articles A.accumulate t.state_name (values_of pays.picked) none t.calc
                pays.mid made pays.taken in
            let gave =
              own-run_all-some A articles A.lessen t.state_name t.value pays.diff mid pays.mid
                pays.last is pays.given in
            subst
              (λ n.
                IsBalanced A articles n (tagged t.state_name (values_of pays.picked))
                  (tagged t.state_name (t.value ∷ pays.diff)))
              same (mid, some pays.last, took, gave, pays.settled)
        | inr miss ↦ (
          none,
          none,
          own-tagged_other A articles A.accumulate t.state_name name (values_of pays.picked) none
              miss,
          own-tagged_other A articles A.lessen t.state_name name (t.value ∷ pays.diff) none miss,
          tt,
        )
      ])

module _ {S : RgbSeal} {P : Pile S} {L : Ledger} {W : Wire S} (Sp : Stockpile P L W) {B : Bitcoin}
    (A : Api B L) (N : WalletProvider B S) where
  -- The states that the wallet owns under a name are found by their addresses.
  own-IsFound :
      (w : RgbWallet Sp N) (st : ContractState S.Seal L.Value L.Atom) (name : ℕ)
      (own_states picked : List (OwnedState ℕ L.Value))
      → IsIndexed st.owned
      → lookup name (map_names (filter_owned (own_seal Sp N w.wallet)) st.owned) ≡ some own_states
      → All (λ (o : OwnedState ℕ L.Value). Among o own_states) picked
      → All (IsFound A st.owned name) picked
  own-IsFound w st name own_states picked indexed e among =
      let f = own_seal Sp N w.wallet in
      let (map, listed, is) = lookup-map_names f name st.owned own_states e in
      All-imp
        (λ (o : OwnedState ℕ L.Value) (m : Among o own_states).
          let (o1, seal, m1, _, same) = filter_owned-Among f map o (subst (Among o) is m) in
          let (o', found, value) = indexed name map o1 listed m1 in
          subst (IsFound A st.owned name) (sym same) (o', found, value))
        picked among

  -- A request that `fulfill` returns, by a coin selection that selects states of the given list and
  -- accumulates them, is under the contract of the invoice and has the method of its terms. It uses
  -- states that the wallet owns under the name of the terms; it assigns the invoiced value to the
  -- beneficiary, and then, to the change, values that together with it leave the calculator with no
  -- difference. The current contract stays as it was.
  pub fulfill-Pays :
      (w w' : RgbWallet Sp N) (invoice : RgbInvoice B L.Value) (coinselect : Coinselect A)
      (giveaway : Option ℕ) (request : OpRequest B L.Value L.Atom (Option (WoutAssignment B)))
      (c : Contract P L) (st : ContractState S.Seal L.Value L.Atom)
      → IsHonest A (L.articles c.ledger) coinselect
      → IsRegular A (L.articles c.ledger)
      → current Sp w.contracts invoice.scope ≡ some c
      → state P L c ≡ some st
      → fulfill A Sp N w invoice coinselect giveaway ≡ some (w', ok request)
      → (t : Terms A) × (own_states : List (OwnedState ℕ L.Value)) × (current Sp w'.contracts
            invoice.scope
          ≡ some c)
        × (terms A invoice (L.articles c.ledger) ≡ ok t)
        × (lookup t.state_name (map_names (filter_owned (own_seal Sp N w.wallet)) st.owned)
            ≡ some own_states)
        × Pays A (L.articles c.ledger) invoice giveaway t own_states request
  unfolding fulfill fulfill_terms filter_map_state
  fulfill-Pays w w' invoice coinselect giveaway request c st honest regular here computed e =
      let (cs1, e1, view) = contract_articles_lem Sp w.contracts invoice.scope c here in
      let w1 : RgbWallet Sp N = record w { contracts = cs1 } in
      let articles = L.articles c.ledger in
      let e2 : fulfill_terms A Sp N coinselect invoice giveaway w1 (terms A invoice articles)
          ≡ some (w', ok request) =
        ground (arith, e, e1) in
      elim (Result-cases (terms A invoice articles)) [
        | inl (bad, is) ↦ absurd (ground (arith, e2, is))
        | inr (t, is) ↦
            let here1 = view.1 invoice.scope ∙ here in
            let (w2, e3, view', _) = state_own_lem Sp N w1 invoice.scope c st here1 computed in
            let own =
              lookup t.state_name (map_names (filter_owned (own_seal Sp N w.wallet)) st.owned) in
            let chosen =
              bind (ok_or state_unavailable own) (select A coinselect invoice giveaway t) in
            let left : RgbWallet Sp N
                × Result (FulfillError A.CalcError)
                    (OpRequest B L.Value L.Atom (Option (WoutAssignment B))) =
              (w2, chosen) in
            let e4 : some left ≡ some (w', ok request) = ground (arith, e2, is, e3) in
            let wallets : w2 ≡ w' = ground (arith, e4) in
            let made : chosen ≡ ok request = ground (arith, e4) in
            let (own_states, e5, e6) = bind-eq-ok (ok_or state_unavailable own) _ made in
            (
              t,
              own_states,
              subst (λ (v : RgbWallet Sp N). current Sp v.contracts invoice.scope ≡ some c) wallets
                  (view'.1 invoice.scope ∙ here1),
              is,
              ok_or-ok state_unavailable own own_states e5,
              select-Pays A articles regular coinselect invoice giveaway t own_states request honest
                  e6,
            )
      ]

  -- A request that pays an invoice, by a coin selection that selects states of the given list and
  -- accumulates them, is accepted by the wallet's own check, where a failed `accumulate` leaves the
  -- calculator as it was, assigning a difference leaves none, and the states of the contract are
  -- found under their names by their addresses.
  pub fulfill-accepted :
      (w w' : RgbWallet Sp N) (invoice : RgbInvoice B L.Value) (coinselect : Coinselect A)
      (giveaway : Option ℕ) (request : OpRequest B L.Value L.Atom (Option (WoutAssignment B)))
      (c : Contract P L) (st : ContractState S.Seal L.Value L.Atom)
      → IsHonest A (L.articles c.ledger) coinselect
      → IsRegular A (L.articles c.ledger)
      → IsIndexed st.owned
      → current Sp w.contracts invoice.scope ≡ some c
      → state P L c ≡ some st
      → fulfill A Sp N w invoice coinselect giveaway ≡ some (w', ok request)
      → (cs' : Contracts Sp) × (check_request Sp A w'.contracts request ≡ some (ok tt, cs'))
  fulfill-accepted w w' invoice coinselect giveaway request c st honest regular indexed here
        computed e =
      let (t, own_states, here', known, own, pays) =
        fulfill-Pays w w' invoice coinselect giveaway request c st honest regular here computed e in
      let articles = L.articles c.ledger in
      let at_scope = subst (λ i. current Sp w'.contracts i ≡ some c) (sym pays.scope) here' in
      let found = own-IsFound w st t.state_name own_states pays.picked indexed own pays.among in
      let known_values =
        ap (values_in st.owned) pays.using
        ∙ values_in-picked A st.owned t.state_name pays.picked found in
      (check_request-IsBalanced Sp A w'.contracts request c st at_scope computed).1
        (tagged t.state_name (values_of pays.picked)) known_values
        (Pays-IsBalanced A articles invoice giveaway t own_states request
          (terms-calc A invoice articles t known) pays)
