-- ===== src/Cdp/Wallet/Ledger.antt =====
-- What the balances of the CDP engine's users add up to.
use decentral_bank.Prelude.{
  ℕ, ◌≡◌, refl, none, some, Option, Option-cases, ok, inl, inr, arith, ◌==◌, if◌then◌else◌, ◌&&◌,
  Bool-cases, sym,
}
use decentral_bank.Prelude.Int.{
  ℤ, pos, ◌+ℤ◌, ◌-ℤ◌, ◌≤ℤ◌, int_laws, shift_term, shift_term_down, add_under, sub_under, +ℤ-zero,
}
use decentral_bank.Chain.{Asset, Chain, IsChain, weight}
use decentral_bank.Cdp.{Account}
use decentral_bank.Cdp.Wallet.{sub_balance, add_balance}

-- The balance of a row that counts for the symbol code `y`.
abbrev pub balance_in : ℕ → ℕ → ℕ → Account → ℤ
balance_in y scope key a = if scope == y then a.balance.amount else pos 0

abbrev pub part : ℕ → Asset → ℤ
part y v = if v.symbol.code == y then v.amount else pos 0

abbrev pub held : Option Account → ℤ
held none = pos 0
held (some a) = a.balance.amount

module _ (E : Chain) (L : IsChain E) where
  open E use {Table, find, store, weigh}

  -- A payment out of a balance: the row, the contract of its tokens, and what is left of it.
  pub sub_balance-store :
      (owner : ℕ) (v : Asset) (t : Table Account) (code : ℕ) (t' : Table Account)
      → sub_balance E owner v t ≡ ok (code, t')
      → (from : Account) × (a : Account) × (find t v.symbol.code owner ≡ some from)
        × (code ≡ from.code)
        × (a.code ≡ from.code)
        × (v.amount ≤ℤ from.balance.amount)
        × (t' ≡ store t v.symbol.code owner a)
        × (a.balance.amount ≡ from.balance.amount -ℤ v.amount)
  unfolding sub_balance
  sub_balance-store owner v t code t' h = elim (Option-cases (find t v.symbol.code owner)) [
    | inl e ↦ absurd (ground arith)
    | inr (from, e) ↦ elim (Option-cases (E.minus from.balance v)) [
      | inl f ↦ absurd (ground arith)
      | inr (rest, f) ↦ (
        from,
        record from { balance = rest },
        e,
        ground arith,
        refl,
        ground arith,
        ground arith,
        (L.minus_some from.balance v rest f).0,
      )
    ]
  ]

  -- A payment into a balance, of tokens of the contract `code`.
  pub add_balance-store :
      (owner : ℕ) (v : Asset) (code : ℕ) (t t' : Table Account)
      → add_balance E owner v code t ≡ ok t'
      → (a : Account) × (a.code ≡ code)
        × (t' ≡ store t v.symbol.code owner a)
        × (a.balance.amount ≡ held (find t v.symbol.code owner) +ℤ v.amount)
  unfolding add_balance
  add_balance-store owner v code t t' h = elim (Option-cases (find t v.symbol.code owner)) [
    | inl e ↦ (
      record { balance = v; owner = owner; code = code },
      refl,
      ground arith,
      rw e (omega int_laws),
    )
    | inr (to, e) ↦ elim (Option-cases (E.plus to.balance v)) [
      | inl f ↦ absurd (ground arith)
      | inr (sum, f) ↦ (
        record to { balance = sum },
        ground arith,
        ground arith,
        rw e ((L.plus_some to.balance v sum f).0),
      )
    ]
  ]

  pub weight-held :
      (y scope owner : ℕ) (o : Option Account)
      → weight (balance_in y) scope owner o ≡ (if scope == y then held o else pos 0)
  weight-held y scope owner none = ground arith
  weight-held y scope owner (some a) = refl

  pub sub_balance-total :
      (owner : ℕ) (v : Asset) (t : Table Account) (code : ℕ) (t' : Table Account) (y : ℕ)
      → sub_balance E owner v t ≡ ok (code, t')
      → weigh (balance_in y) t' ≡ weigh (balance_in y) t -ℤ part y v
  sub_balance-total owner v t code t' y h =
      let (from, a, e, _, _, _, w, n) = sub_balance-store owner v t code t' h in
      rw w (
        shift_term_down _ _ _ _ _ (L.weigh-store Account (balance_in y) t v.symbol.code owner a)
          (rw e (sub_under (v.symbol.code == y) _ _ _ n)))

  pub add_balance-total :
      (owner : ℕ) (v : Asset) (code : ℕ) (t t' : Table Account) (y : ℕ)
      → add_balance E owner v code t ≡ ok t'
      → weigh (balance_in y) t' ≡ weigh (balance_in y) t +ℤ part y v
  add_balance-total owner v code t t' y h =
      let (a, _, w, n) = add_balance-store owner v code t t' h in
      rw w (
        shift_term _ _ _ _ _ (L.weigh-store Account (balance_in y) t v.symbol.code owner a)
          (rw (weight-held y v.symbol.code owner) (add_under (v.symbol.code == y) _ _ _ n)))

  -- What a payment into a balance does to the balance of an account in a symbol.
  pub add_balance-held :
      (owner : ℕ) (v : Asset) (code : ℕ) (t t' : Table Account) (y o : ℕ)
      → add_balance E owner v code t ≡ ok t'
      → held (find t' y o)
        ≡ held (find t y o) +ℤ (if (v.symbol.code == y) && (owner == o) then v.amount else pos 0)
  add_balance-held owner v code t t' y o h =
      let (a, _, w, n) = add_balance-store owner v code t t' h in
      elim (Bool-cases ((v.symbol.code == y) && (owner == o))) [
        | inl hit ↦
            rw (w, L.find-store Account t v.symbol.code owner a y o, hit) (ground (arith, n))
        | inr miss ↦
            rw (w, L.find-store Account t v.symbol.code owner a y o, miss) (sym (+ℤ-zero _))
      ]
