-- ===== src/Cdp/Wallet/Custody.antt =====
-- Tokens that enter and leave the CDP engine: `deposit` and `withdraw` against the balances.
use decentral_bank.Prelude.{
  ℕ, ◌≡◌, ◌≢◌, true, some, Option-cases, Result-cases, Bool-cases, sym, ◌∙◌, ok, inl, inr, String,
  arith, if◌then◌else◌, refl, ◌∷◌,
}
use decentral_bank.Prelude.Int.{pos, ◌-ℤ◌, ◌≤ℤ◌, eqb_ℤ}
use decentral_bank.Chain.{Asset, Context, Chain, IsChain}
use decentral_bank.Cdp.{Engine, Account, Payout}
use decentral_bank.Cdp.Wallet.{sub_balance, get_balance, pay_out, withdraw}
use decentral_bank.Cdp.Wallet.Ledger.{balance_in, part, sub_balance-store, sub_balance-total}
use mathlib.Core.Option.{some-injective}

module _ (E : Chain) (L : IsChain E) where
  open E use {find, store, weigh}

  -- The payment of `q` out of the row `row`.
  abbrev Pays : Context → ℕ → Asset → Account → Engine E → Engine E → Type 0
  Pays c owner q row s s' =
      (p : Payout) × (s'.payouts ≡ p ∷ s.payouts)
      × (p.quantity ≡ q)
      × (p.code ≡ row.code)
      × (p.code ≢ c.self)
      × (p.to ≡ owner)
      × (q.amount ≤ℤ row.balance.amount)
      × ((y : ℕ) → weigh (balance_in y) s'.accounts ≡ weigh (balance_in y) s.accounts -ℤ part y q)

  pay_out-Pays :
      (c : Context) (owner : ℕ) (q : Asset) (memo : String) (s s' : Engine E) (row : Account)
      → find s.accounts q.symbol.code owner ≡ some row
      → pay_out E c owner q memo s ≡ ok s'
      → Pays c owner q row s s'
  unfolding pay_out
  pay_out-Pays c owner q memo s s' row found h =
      elim (Result-cases (sub_balance E owner q s.accounts)) [
        | inr (message, e₁) ↦ absurd (ground arith)
        | inl ((code, accounts), e₁) ↦ elim (Option-cases (find s.feeds c.self q.symbol.code)) [
          | inl e₂ ↦ absurd (ground arith)
          | inr (fc, e₂) ↦ elim (Option-cases (E.minus fc.total q)) [
            | inl e₃ ↦ absurd (ground arith)
            | inr (total, e₃) ↦
                let (from, _, held_by, same, _, covers, _, _) =
                  sub_balance-store E L owner q s.accounts code accounts e₁ in
                let its : from ≡ row = some-injective from row (sym held_by ∙ found) in
                let paid : s'.accounts ≡ accounts = ground arith in
                (
                  record { code = code; to = owner; quantity = q; memo = memo },
                  ground arith,
                  refl,
                  rw its at same,
                  ground arith,
                  refl,
                  rw its at covers,
                  λ y. rw (paid, sub_balance-total E L owner q s.accounts code accounts y e₁),
                )
          ]
        ]
      ]

  withdraw-pay_out :
      (c : Context) (owner : ℕ) (requested : Asset) (memo : String) (s s' : Engine E)
      (row : Account)
      → find s.accounts requested.symbol.code owner ≡ some row
      → withdraw E c owner requested memo s ≡ ok s'
      → (c.has_auth owner ≡ true)
        × (pay_out E c owner
              (if eqb_ℤ requested.amount (pos 0) then row.balance else requested)
              memo
              s
            ≡ ok s')
  unfolding withdraw get_balance
  withdraw-pay_out c owner requested memo s s' row found h =
      elim (Bool-cases (eqb_ℤ requested.amount (pos 0))) [
        | inl all ↦ (ground arith, ground arith)
        | inr some_part ↦ (ground arith, ground arith)
      ]

  -- A successful withdrawal, where the owner's row holds a balance in its own symbol, is authorised by
  -- the owner. It queues one payment, to the owner, from the contract that the owner's tokens came
  -- from, which is not the engine: of the requested amount or, where zero is requested, of the whole
  -- balance. The owner's balance covers it, and the balances of each symbol fall by exactly what is
  -- paid.
  pub withdraw-Pays :
      (c : Context) (owner : ℕ) (requested : Asset) (memo : String) (s s' : Engine E)
      (row : Account)
      → find s.accounts requested.symbol.code owner ≡ some row
      → row.balance.symbol.code ≡ requested.symbol.code
      → withdraw E c owner requested memo s ≡ ok s'
      → (c.has_auth owner ≡ true)
        × Pays c owner (if eqb_ℤ requested.amount (pos 0) then row.balance else requested) row s s'
  withdraw-Pays c owner requested memo s s' row found named h =
      let (auth, out) = withdraw-pay_out c owner requested memo s s' row found h in
      let q : Asset = if eqb_ℤ requested.amount (pos 0) then row.balance else requested in
      let symbol : q.symbol.code ≡ requested.symbol.code = ground (arith, named) in
      (auth, pay_out-Pays c owner q memo s s' row (rw symbol found) out)
