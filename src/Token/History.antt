-- ===== src/Token/History.antt =====
-- The dispatchers of the token contracts, and the life of a contract from its first action on. An
-- action that aborts changes nothing. The actions that `issue` and the staking actions leave for the
-- chain are ordinary actions of such a history.
use decentral_bank.Prelude.{
  ℕ, ◌≡◌, Bool, List, [], ◌∷◌, String, Result, ok, abort, Result-cases, inl, inr, arith,
}
use decentral_bank.Chain.{Symbol, Asset, Context, Chain, IsChain}
use decentral_bank.Token.{Contract, CurrencyStats, Account}
use decentral_bank.Token.Eosio
use decentral_bank.Token.Iq
use decentral_bank.Token.Bond
use decentral_bank.Token
use decentral_bank.Token.Balances.{sub_keeping, sub_erasing}
use decentral_bank.Token.Ledger.{balance_in, sub_keeping-Debits, sub_erasing-Debits}
use decentral_bank.Token.Supply.{
  IsSolvent, create-IsSolvent, issue-IsSolvent, transfer-IsSolvent, retire-IsSolvent,
  burn-IsSolvent, open_balance-IsSolvent, close_balance-IsSolvent, IsSolvent-moved,
}

-- `EOSIO_DISPATCH( eosio::token, ... )`
pub data EosioAction : Type 0 where
  create : ℕ → Asset → EosioAction
  issue : ℕ → Asset → String → EosioAction
  transfer : ℕ → ℕ → Asset → String → EosioAction
  open_balance : ℕ → Symbol → ℕ → EosioAction
  close_balance : ℕ → Symbol → EosioAction
  retire : Asset → String → EosioAction

-- `EOSIO_DISPATCH( everipediaiq, ... )`
pub data IqAction : Type 0 where
  burn : ℕ → Asset → String → IqAction
  create : ℕ → Asset → IqAction
  issue : ℕ → Asset → String → IqAction
  transfer : ℕ → ℕ → Asset → String → IqAction
  epartvote : ℕ → ℕ → Bool → ℕ → String → String → IqAction
  epartpropose : ℕ → ℕ → String → String → String → ℕ → String → String → IqAction

-- `EOSIO_ABI( bond, ... )`
pub data BondAction : Type 0 where
  create : ℕ → Asset → BondAction
  issue : ℕ → Asset → String → BondAction
  transfer : ℕ → ℕ → Asset → String → BondAction

module _ (E : Chain) where
  unfoldable pub dispatch_eosio : Context → EosioAction → Contract E → Result (Contract E)
  dispatch_eosio c (EosioAction.create issuer m) = Token.create E c issuer m
  dispatch_eosio c (EosioAction.issue to q memo) = Token.issue E c to q memo
  dispatch_eosio c (EosioAction.transfer from to q memo) = Eosio.transfer E c from to q memo
  dispatch_eosio c (EosioAction.open_balance owner y payer) = Eosio.open_balance E c owner y payer
  dispatch_eosio c (EosioAction.close_balance owner y) = Eosio.close_balance E c owner y
  dispatch_eosio c (EosioAction.retire q memo) = Eosio.retire E c q memo

  unfoldable pub dispatch_iq : Context → IqAction → Contract E → Result (Contract E)
  dispatch_iq c (IqAction.burn from q memo) = Iq.burn E c from q memo
  dispatch_iq c (IqAction.create issuer m) = Iq.create E c issuer m
  dispatch_iq c (IqAction.issue to q memo) = Iq.issue E c to q memo
  dispatch_iq c (IqAction.transfer from to q memo) = Iq.transfer E c from to q memo
  dispatch_iq c (IqAction.epartvote v i y n t memo) = Iq.epartvote E c v i y n t memo
  dispatch_iq c (IqAction.epartpropose p w a b l g t memo) = Iq.epartpropose E c p w a b l g t memo

  unfoldable pub dispatch_bond : Context → BondAction → Contract E → Result (Contract E)
  dispatch_bond c (BondAction.create issuer m) = Bond.create E c issuer m
  dispatch_bond c (BondAction.issue to q memo) = Bond.issue E c to q memo
  dispatch_bond c (BondAction.transfer from to q memo) = Bond.transfer E c from to q memo

  -- A contract before its first action.
  abbrev pub genesis : Contract E
  genesis = record { accounts = E.empty; stat = E.empty; messages = [] }

  -- The state after an action, which is the old one if the action aborts.
  abbrev pub settled : Result (Contract E) → Contract E → Contract E
  settled (ok s') s = s'
  settled (abort e) s = s

  module _ {A : Type 0} (dispatch : Context → A → Contract E → Result (Contract E)) where
    unfoldable pub run : List (Context × A) → Contract E → Contract E
    run [] s = s
    run ((c, a) ∷ rest) s = run rest (settled (dispatch c a s) s)

module _ (E : Chain) (L : IsChain E) where
  genesis-IsSolvent : IsSolvent E (genesis E)
  genesis-IsSolvent = record {
    backed = λ c. rw (L.find-empty CurrencyStats c c) (L.weigh-empty Account (balance_in c));
    bounded = λ c. rw (L.find-empty CurrencyStats c c) tt;
  }

  -- An invariant of the successful actions holds all along a history.
  run-IsSolvent :
      {A : Type 0} (dispatch : Context → A → Contract E → Result (Contract E))
      → ((c : Context) (a : A) (s s' : Contract E)
          → dispatch c a s ≡ ok s'
          → IsSolvent E s
          → IsSolvent E s')
      → (history : List (Context × A)) (s : Contract E) → IsSolvent E s
      → IsSolvent E (run E dispatch history s)
  unfolding run
  run-IsSolvent dispatch keep [] s v = v
  run-IsSolvent dispatch keep ((c, a) ∷ rest) s v =
      run-IsSolvent dispatch keep rest (settled E (dispatch c a s) s)
        (elim (Result-cases (dispatch c a s)) [
          | inl (s', e) ↦ rw e (keep c a s s' e v)
          | inr (m, e) ↦ rw e v
        ])

  dispatch_eosio-IsSolvent :
      (c : Context) (a : EosioAction) (s s' : Contract E)
      → dispatch_eosio E c a s ≡ ok s'
      → IsSolvent E s
      → IsSolvent E s'
  unfolding dispatch_eosio Eosio.transfer Eosio.sub_balance
  dispatch_eosio-IsSolvent c (EosioAction.create i m) s s' = create-IsSolvent E L c i m s s'
  dispatch_eosio-IsSolvent c (EosioAction.issue to q m) s s' = issue-IsSolvent E L c to q m s s'
  dispatch_eosio-IsSolvent c (EosioAction.transfer from to q m) s s' =
      transfer-IsSolvent E L (sub_keeping E) (sub_keeping-Debits E L) c from to q m s s'
  dispatch_eosio-IsSolvent c (EosioAction.open_balance o y p) s s' =
      open_balance-IsSolvent E L c o y p s s'
  dispatch_eosio-IsSolvent c (EosioAction.close_balance o y) s s' =
      close_balance-IsSolvent E L c o y s s'
  dispatch_eosio-IsSolvent c (EosioAction.retire q m) s s' = retire-IsSolvent E L c q m s s'

  epartvote-kept :
      (c : Context) (v i : ℕ) (y : Bool) (n : ℕ) (t memo : String) (s s' : Contract E)
      → Iq.epartvote E c v i y n t memo s ≡ ok s'
      → (s'.accounts ≡ s.accounts) × (s'.stat ≡ s.stat)
  unfolding Iq.epartvote
  epartvote-kept c v i y n t memo s s' h = ground arith

  epartpropose-kept :
      (c : Context) (p w : ℕ) (a b l : String) (g : ℕ) (t memo : String) (s s' : Contract E)
      → Iq.epartpropose E c p w a b l g t memo s ≡ ok s'
      → (s'.accounts ≡ s.accounts) × (s'.stat ≡ s.stat)
  unfolding Iq.epartpropose
  epartpropose-kept c p w a b l g t memo s s' h = ground arith

  dispatch_iq-IsSolvent :
      (c : Context) (a : IqAction) (s s' : Contract E)
      → dispatch_iq E c a s ≡ ok s'
      → IsSolvent E s
      → IsSolvent E s'
  unfolding dispatch_iq Iq.create Iq.issue Iq.transfer Iq.sub_balance
  dispatch_iq-IsSolvent c (IqAction.burn from q m) s s' h = burn-IsSolvent E L c from q m s s' h
  dispatch_iq-IsSolvent c (IqAction.create i m) s s' h = create-IsSolvent E L c i m s s' h
  dispatch_iq-IsSolvent c (IqAction.issue to q m) s s' h = issue-IsSolvent E L c to q m s s' h
  dispatch_iq-IsSolvent c (IqAction.transfer from to q m) s s' h =
      transfer-IsSolvent E L (sub_erasing E) (sub_erasing-Debits E L) c from to q m s s' h
  dispatch_iq-IsSolvent c (IqAction.epartvote v i y n t memo) s s' h =
      let kept = epartvote-kept c v i y n t memo s s' h in
      IsSolvent-moved E L s s' kept.1 (λ k. rw (kept.0))
  dispatch_iq-IsSolvent c (IqAction.epartpropose p w a b l g t memo) s s' h =
      let kept = epartpropose-kept c p w a b l g t memo s s' h in
      IsSolvent-moved E L s s' kept.1 (λ k. rw (kept.0))

  dispatch_bond-IsSolvent :
      (c : Context) (a : BondAction) (s s' : Contract E)
      → dispatch_bond E c a s ≡ ok s'
      → IsSolvent E s
      → IsSolvent E s'
  unfolding dispatch_bond Bond.create Bond.issue Bond.transfer Bond.sub_balance
  dispatch_bond-IsSolvent c (BondAction.create i m) s s' = create-IsSolvent E L c i m s s'
  dispatch_bond-IsSolvent c (BondAction.issue to q m) s s' = issue-IsSolvent E L c to q m s s'
  dispatch_bond-IsSolvent c (BondAction.transfer from to q m) s s' =
      transfer-IsSolvent E L (sub_erasing E) (sub_erasing-Debits E L) c from to q m s s'

  -- After any sequence of eosio.token actions, by anybody and in any order, the balances of every
  -- symbol add up to its supply, and the supply is at most the maximum supply.
  pub run-dispatch_eosio :
      (history : List (Context × EosioAction))
      → IsSolvent E (run E (dispatch_eosio E) history (genesis E))
  run-dispatch_eosio history =
      run-IsSolvent (dispatch_eosio E) dispatch_eosio-IsSolvent history (genesis E)
        genesis-IsSolvent

  -- After any sequence of actions of the IQ token, `burn` included, the balances of every symbol add up
  -- to its supply, and the supply is at most the maximum supply.
  pub run-dispatch_iq :
      (history : List (Context × IqAction))
      → IsSolvent E (run E (dispatch_iq E) history (genesis E))
  run-dispatch_iq history =
      run-IsSolvent (dispatch_iq E) dispatch_iq-IsSolvent history (genesis E) genesis-IsSolvent

  -- After any sequence of actions of the bond token the balances of every symbol add up to its supply,
  -- and the supply is at most the maximum supply.
  pub run-dispatch_bond :
      (history : List (Context × BondAction))
      → IsSolvent E (run E (dispatch_bond E) history (genesis E))
  run-dispatch_bond history =
      run-IsSolvent (dispatch_bond E) dispatch_bond-IsSolvent history (genesis E) genesis-IsSolvent
