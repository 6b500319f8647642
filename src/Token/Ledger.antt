-- ===== src/Token/Ledger.antt =====
-- What the two halves of a payment do to the sum of all balances of a symbol.
use decentral_bank.Prelude.{
  ℕ, ◌≡◌, ◌⊎◌, Option, none, some, Option-cases, Bool-cases, inl, inr, arith, ◌==◌, if◌then◌else◌,
  Result, ok,
}
use decentral_bank.Prelude.Int.{
  ℤ, pos, ◌+ℤ◌, ◌-ℤ◌, int_laws, eqb_ℤ, shift_term, shift_term_down, add_under, sub_under,
  sub_of_add,
}
use decentral_bank.Chain.{Asset, Chain, IsChain, weight}
use decentral_bank.Token.{Account, add_balance}
use decentral_bank.Token.Balances.{sub_keeping, sub_erasing}

-- The balance of a row that counts for the symbol code `c`.
abbrev pub balance_in : ℕ → ℕ → ℕ → Account → ℤ
balance_in c owner key a = if key == c then a.balance.amount else pos 0

-- The part of an asset that counts for the symbol code `c`.
abbrev pub part : ℕ → Asset → ℤ
part c v = if v.symbol.code == c then v.amount else pos 0

module _ (E : Chain) where
  -- The sum of all balances in the symbol code `c`.
  abbrev pub total : ℕ → E.Table Account → ℤ
  total c t = E.weigh (balance_in c) t

  -- How a debit takes its amount from the sum.
  abbrev pub Debits : (ℕ → Asset → E.Table Account → Result (E.Table Account)) → Type 0
  Debits sub_balance =
      (owner : ℕ) (v : Asset) (t t' : E.Table Account) (c : ℕ)
      → sub_balance owner v t ≡ ok t'
      → total c t' ≡ total c t -ℤ part c v

-- The balance that a row holds, and nothing where there is no row.
abbrev pub held : Option Account → ℤ
held none = pos 0
held (some a) = a.balance.amount

module _ (E : Chain) (L : IsChain E) where
  -- A credit writes the row that holds the sum.
  pub add_balance-store :
      (owner : ℕ) (v : Asset) (t t' : E.Table Account)
      → add_balance E owner v t ≡ ok t'
      → (a : Account) × (t' ≡ E.store t owner v.symbol.code a)
        × (a.balance.amount ≡ held (E.find t owner v.symbol.code) +ℤ v.amount)
  unfolding add_balance
  add_balance-store owner v t t' h = elim (Option-cases (E.find t owner v.symbol.code)) [
    | inl e ↦ (record { balance = v }, ground arith, rw e (omega int_laws))
    | inr (a, e) ↦ elim (Option-cases (E.plus a.balance v)) [
      | inl f ↦ ground arith
      | inr (b, f) ↦ (record { balance = b }, ground arith, rw e ((L.plus_some a.balance v b f).0))
    ]
  ]

  -- The row that a debit finds covers it.
  pub sub_keeping-store :
      (owner : ℕ) (v : Asset) (t t' : E.Table Account)
      → sub_keeping E owner v t ≡ ok t'
      → (a : Account) × (t' ≡ E.store t owner v.symbol.code a)
        × (a.balance.amount ≡ held (E.find t owner v.symbol.code) -ℤ v.amount)
  unfolding sub_keeping
  sub_keeping-store owner v t t' h = elim (Option-cases (E.find t owner v.symbol.code)) [
    | inl e ↦ ground arith
    | inr (a, e) ↦ elim (Option-cases (E.minus a.balance v)) [
      | inl f ↦ ground arith
      | inr (b, f) ↦ (record { balance = b }, ground arith, rw e ((L.minus_some a.balance v b f).0))
    ]
  ]

  pub sub_erasing-store :
      (owner : ℕ) (v : Asset) (t t' : E.Table Account)
      → sub_erasing E owner v t ≡ ok t'
      → ((t' ≡ E.erase t owner v.symbol.code) × (held (E.find t owner v.symbol.code) ≡ v.amount))
        ⊎ ((a : Account) × (t' ≡ E.store t owner v.symbol.code a)
            × (a.balance.amount ≡ held (E.find t owner v.symbol.code) -ℤ v.amount))
  unfolding sub_erasing
  sub_erasing-store owner v t t' h = elim (Option-cases (E.find t owner v.symbol.code)) [
    | inl e ↦ ground arith
    | inr (a, e) ↦ elim (Bool-cases (eqb_ℤ a.balance.amount v.amount)) [
      | inl all ↦ inl (ground arith, rw e (ground arith))
      | inr some_left ↦ elim (Option-cases (E.minus a.balance v)) [
        | inl f ↦ ground arith
        | inr (b, f) ↦
            inr (record { balance = b }, ground arith, rw e ((L.minus_some a.balance v b f).0))
      ]
    ]
  ]

  module _ (c owner key : ℕ) (t : E.Table Account) where
    weight-held :
        weight (balance_in c) owner key (E.find t owner key)
        ≡ (if key == c then held (E.find t owner key) else pos 0)
    weight-held = elim (Option-cases (E.find t owner key)) [
      | inl e ↦ ground arith
      | inr (b, e) ↦ rw e
    ]

    pub total-store :
        (a : Account) (n : ℤ)
        → a.balance.amount ≡ held (E.find t owner key) +ℤ n
        → total E c (E.store t owner key a) ≡ total E c t +ℤ (if key == c then n else pos 0)
    total-store a n h =
        shift_term _ _ _ _ _ (L.weigh-store Account (balance_in c) t owner key a)
          (rw weight-held (add_under (key == c) _ _ n h))

    total-store_less :
        (a : Account) (n : ℤ)
        → a.balance.amount ≡ held (E.find t owner key) -ℤ n
        → total E c (E.store t owner key a) ≡ total E c t -ℤ (if key == c then n else pos 0)
    total-store_less a n h =
        shift_term_down _ _ _ _ _ (L.weigh-store Account (balance_in c) t owner key a)
          (rw weight-held (sub_under (key == c) _ _ n h))

    pub total-erase :
        total E c (E.erase t owner key)
        ≡ total E c t -ℤ (if key == c then held (E.find t owner key) else pos 0)
    total-erase =
        sub_of_add _ _ _ (rw weight-held at (L.weigh-erase Account (balance_in c) t owner key))

  -- A credit adds its amount to the sum of its symbol, and to no other.
  pub add_balance-total :
      (owner : ℕ) (v : Asset) (t t' : E.Table Account) (c : ℕ)
      → add_balance E owner v t ≡ ok t'
      → total E c t' ≡ total E c t +ℤ part c v
  add_balance-total owner v t t' c h =
      let (a, e, n) = add_balance-store owner v t t' h in
      rw e (total-store c owner v.symbol.code t a v.amount n)

  pub sub_keeping-Debits : Debits E (sub_keeping E)
  sub_keeping-Debits owner v t t' c h =
      let (a, e, n) = sub_keeping-store owner v t t' h in
      rw e (total-store_less c owner v.symbol.code t a v.amount n)

  pub sub_erasing-Debits : Debits E (sub_erasing E)
  sub_erasing-Debits owner v t t' c h = elim (sub_erasing-store owner v t t' h) [
    | inl (e, all) ↦ rw e (rw all at (total-erase c owner v.symbol.code t))
    | inr (a, e, n) ↦ rw e (total-store_less c owner v.symbol.code t a v.amount n)
  ]
