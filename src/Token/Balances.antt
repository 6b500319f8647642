-- ===== src/Token/Balances.antt =====
-- The two versions of `sub_balance`: eosio.token keeps a row whose balance falls to zero, the IQ
-- token and the bond token erase it.
use decentral_bank.Prelude.{ℕ, Result, ok, ◌>>=◌, ◌>>◌, check, or_abort, if◌then◌else◌}
use decentral_bank.Prelude.Int.{leb_ℤ, eqb_ℤ}
use decentral_bank.Chain.{Asset, Chain}
use decentral_bank.Token.{Account}

module _ (E : Chain) where
  open E use {Table, find, store, erase}

  unfoldable pub sub_keeping : ℕ → Asset → Table Account → Result (Table Account)
  sub_keeping owner value accounts = do
    from ← or_abort (find accounts owner value.symbol.code) "no balance object found"
    check (leb_ℤ value.amount from.balance.amount) "overdrawn balance"
    balance ← or_abort (E.minus from.balance value) "asset subtraction"
    ok (store accounts owner value.symbol.code (record { balance = balance }))

  unfoldable pub sub_erasing : ℕ → Asset → Table Account → Result (Table Account)
  sub_erasing owner value accounts = do
    from ← or_abort (find accounts owner value.symbol.code) "no balance object found"
    check (leb_ℤ value.amount from.balance.amount) "overdrawn balance"
    let smaller = or_abort (E.minus from.balance value) "asset subtraction" >>= λ balance.
        ok (store accounts owner value.symbol.code (record { balance = balance }))
    if eqb_ℤ from.balance.amount value.amount
        then ok (erase accounts owner value.symbol.code)
        else smaller
