-- ===== src/Cdp/Wallet/Conserved.antt =====
-- What a payment between two users of the CDP engine leaves as it is.
use decentral_bank.Prelude.{ℕ, ◌≡◌, ◌≢◌, true, some, Result-cases, ok, inl, inr, String, arith}
use decentral_bank.Prelude.Int.{pos, ◌≤ℤ◌, ◌<ℤ◌, sub_then_add}
use decentral_bank.Chain.{Asset, Context, Chain, IsChain}
use decentral_bank.Cdp.{Engine, Account}
use decentral_bank.Cdp.Wallet.{sub_balance, add_balance, transfer}
use decentral_bank.Cdp.Wallet.Ledger.{
  balance_in, part, sub_balance-store, sub_balance-total, add_balance-total,
}

module _ (E : Chain) (L : IsChain E) where
  open E use {find, weigh}

  transfer-steps :
      (c : Context) (from to : ℕ) (q : Asset) (memo : String) (s s' : Engine E)
      → transfer E c from to q memo s ≡ ok s'
      → (t : E.Table Account) × (from ≢ to)
        × (c.has_auth from ≡ true)
        × (pos 0 <ℤ q.amount)
        × (sub_balance E from q s.accounts ≡ ok (c.self, t))
        × (add_balance E to q c.self t ≡ ok s'.accounts)
        × (s' ≡ record s { accounts = s'.accounts })
  unfolding transfer
  transfer-steps c from to q memo s s' h = elim (Result-cases (sub_balance E from q s.accounts)) [
    | inr (message, e) ↦ absurd (ground arith)
    | inl ((contract, t), e) ↦ elim (Result-cases (add_balance E to q contract t)) [
      | inr (message, f) ↦ absurd (ground arith)
      | inl (paid, f) ↦
          (t, ground arith, ground arith, ground arith, ground arith, ground arith, ground arith)
    ]
  ]

  -- A successful transfer between two users is authorised by the payer and positive, the payer's
  -- balance is of the engine's own tokens and covers it, the balances of every symbol add up to what
  -- they did before, and nothing but the balances changes.
  pub transfer-conserves :
      (c : Context) (from to : ℕ) (q : Asset) (memo : String) (s s' : Engine E)
      → transfer E c from to q memo s ≡ ok s'
      → (row : Account) × (find s.accounts q.symbol.code from ≡ some row)
        × (row.code ≡ c.self)
        × (q.amount ≤ℤ row.balance.amount)
        × (c.has_auth from ≡ true)
        × (pos 0 <ℤ q.amount)
        × (s' ≡ record s { accounts = s'.accounts })
        × ((y : ℕ) → weigh (balance_in y) s'.accounts ≡ weigh (balance_in y) s.accounts)
  transfer-conserves c from to q memo s s' h =
      let (t, _, auth, positive, taken, given, rest) = transfer-steps c from to q memo s s' h in
      let (row, _, found, code, _, covers, _, _) =
        sub_balance-store E L from q s.accounts c.self t taken in
      (
        row,
        found,
        ground arith,
        covers,
        auth,
        positive,
        rest,
        λ y.
            sub_then_add _ _ _ (part y q) (sub_balance-total E L from q s.accounts c.self t y taken)
              (add_balance-total E L to q c.self t s'.accounts y given),
      )
