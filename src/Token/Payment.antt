-- ===== src/Token/Payment.antt =====
-- What a payment does to every single balance.
use decentral_bank.Prelude.{
  ℕ, ◌≡◌, ◌&&◌, true, Option-cases, inl, inr, String, arith, ◌==◌, if◌then◌else◌, Result, ok,
}
use decentral_bank.Prelude.Int.{ℤ, pos, ◌+ℤ◌, ◌-ℤ◌, ◌≤ℤ◌, ◌<ℤ◌, -ℤ-self}
use decentral_bank.Chain.{Asset, Context, Chain, IsChain}
use decentral_bank.Token.Eosio
use decentral_bank.Token.{Account, Contract, add_balance, transfer}
use decentral_bank.Token.Balances.{sub_keeping, sub_erasing}
use decentral_bank.Token.Ledger.{held, add_balance-store, sub_keeping-store, sub_erasing-store}
use decentral_bank.Token.Passed.{transfer-ok}

module _ (E : Chain) where
  -- The balance of `owner` in the symbol code `c`.
  abbrev pub balance_at : E.Table Account → ℕ → ℕ → ℤ
  balance_at t owner c = held (E.find t owner c)

  -- A debit takes its amount from a balance that covers it, and leaves every other balance alone.
  pub record Takes (owner : ℕ) (v : Asset) (t t' : E.Table Account) : Type 0 where
    pub covered : v.amount ≤ℤ balance_at t owner v.symbol.code
    pub changed :
        (o c : ℕ)
        → balance_at t' o c ≡ (
            if (owner == o) && (v.symbol.code == c)
            then balance_at t o c -ℤ v.amount
            else balance_at t o c)

module _ (E : Chain) (L : IsChain E) where
  pub add_balance-balance :
      (owner : ℕ) (v : Asset) (t t' : E.Table Account)
      → add_balance E owner v t ≡ ok t'
      → (o c : ℕ)
      → balance_at E t' o c ≡ (
          if (owner == o) && (v.symbol.code == c)
          then balance_at E t o c +ℤ v.amount
          else balance_at E t o c)
  add_balance-balance owner v t t' h o c =
      let (a, e, n) = add_balance-store E L owner v t t' h in
      rw (e, L.find-store Account t owner v.symbol.code a o c) (ground arith)

  pub sub_keeping-Takes :
      (owner : ℕ) (v : Asset) (t t' : E.Table Account)
      → sub_keeping E owner v t ≡ ok t'
      → Takes E owner v t t'
  unfolding sub_keeping
  sub_keeping-Takes owner v t t' h =
      let (a, e, n) = sub_keeping-store E L owner v t t' h in
      record {
        covered = elim (Option-cases (E.find t owner v.symbol.code)) [
          | inl f ↦ ground arith
          | inr (b, f) ↦ ground arith
        ];
        changed = λ o c. rw (e, L.find-store Account t owner v.symbol.code a o c) (ground arith);
      }

  pub sub_erasing-Takes :
      (owner : ℕ) (v : Asset) (t t' : E.Table Account)
      → sub_erasing E owner v t ≡ ok t'
      → Takes E owner v t t'
  unfolding sub_erasing
  sub_erasing-Takes owner v t t' h = record {
    covered = elim (Option-cases (E.find t owner v.symbol.code)) [
      | inl f ↦ ground arith
      | inr (b, f) ↦ ground arith
    ];
    changed = λ o c. elim (sub_erasing-store E L owner v t t' h) [
      | inl (e, all) ↦
          rw (e, L.find-erase Account t owner v.symbol.code o c) (ground (arith, -ℤ-self v.amount))
      | inr (a, e, n) ↦ rw (e, L.find-store Account t owner v.symbol.code a o c) (ground arith)
    ];
  }

  module _ (sub_balance : ℕ → Asset → E.Table Account → Result (E.Table Account))
      (takes : (owner : ℕ) (v : Asset) (t t' : E.Table Account)
        → sub_balance owner v t ≡ ok t'
        → Takes E owner v t t') where
    pub transfer-balance :
        (c : Context) (from to : ℕ) (q : Asset) (memo : String) (s s' : Contract E)
        → transfer E sub_balance c from to q memo s ≡ ok s'
        → (c.has_auth from ≡ true)
          × (pos 0 <ℤ q.amount)
          × (q.amount ≤ℤ balance_at E s.accounts from q.symbol.code)
          × (s'.stat ≡ s.stat)
          × ((o k : ℕ)
              → balance_at E s'.accounts o k ≡ (
                  if q.symbol.code == k
                  then (if from == o
                      then balance_at E s.accounts o k -ℤ q.amount
                      else if to == o
                      then balance_at E s.accounts o k +ℤ q.amount
                      else balance_at E s.accounts o k)
                  else balance_at E s.accounts o k))
    transfer-balance c from to q memo s s' h =
        let m = transfer-ok E sub_balance c from to q memo s s' h in
        let d = takes from q s.accounts m.debited m.taken in
        (
          m.authorised,
          m.positive,
          d.covered,
          m.kept,
          λ o k. ground (
            arith,
            m.distinct,
            add_balance-balance to q m.debited s'.accounts m.credited o k,
            d.changed o k,
          ),
        )

  -- A successful eosio.token transfer is authorised by the payer, who holds the positive amount. It
  -- takes the amount from the payer, adds it to the payee, and leaves every other balance and all
  -- statistics alone.
  pub eosio_transfer-balance :
      (c : Context) (from to : ℕ) (q : Asset) (memo : String) (s s' : Contract E)
      → Eosio.transfer E c from to q memo s ≡ ok s'
      → (c.has_auth from ≡ true)
        × (pos 0 <ℤ q.amount)
        × (q.amount ≤ℤ balance_at E s.accounts from q.symbol.code)
        × (s'.stat ≡ s.stat)
        × ((o k : ℕ)
            → balance_at E s'.accounts o k ≡ (
                if q.symbol.code == k
                then (if from == o
                    then balance_at E s.accounts o k -ℤ q.amount
                    else if to == o
                    then balance_at E s.accounts o k +ℤ q.amount
                    else balance_at E s.accounts o k)
                else balance_at E s.accounts o k))
  unfolding Eosio.transfer Eosio.sub_balance
  eosio_transfer-balance = transfer-balance (sub_keeping E) sub_keeping-Takes
