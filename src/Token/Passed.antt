-- ===== src/Token/Passed.antt =====
-- What a successful action of a token contract has read, tested and written.
use decentral_bank.Prelude.{
  ℕ, ◌≡◌, ◌⊎◌, true, none, some, Option-cases, Result, ok, Result-cases, inl, inr, String, arith,
  ◌==◌, false,
}
use decentral_bank.Prelude.Int.{pos, ◌<ℤ◌, leb_ℤ}
use decentral_bank.Prelude.Word.{sub_i64}
use decentral_bank.Chain.{Symbol, Asset, Context, Chain}
use decentral_bank.Token.{Account, CurrencyStats, Contract, add_balance, create, issue, transfer}
use decentral_bank.Token.Eosio
use decentral_bank.Token.Eosio.{retire, open_balance, close_balance}
use decentral_bank.Token.Iq
use decentral_bank.Token.Iq.{burn}

module _ (E : Chain) where
  open E use {Table, find, store}

  pub create-ok :
      (c : Context) (issuer : ℕ) (m : Asset) (s s' : Contract E)
      → create E c issuer m s ≡ ok s'
      → (E.asset_valid m ≡ true)
        × (pos 0 <ℤ m.amount)
        × (find s.stat m.symbol.code m.symbol.code ≡ none)
        × (s'.accounts ≡ s.accounts)
        × (s'.stat
            ≡ store s.stat m.symbol.code m.symbol.code (record {
              supply = record { amount = pos 0; symbol = m.symbol };
              max_supply = m;
              issuer = issuer;
            }))
  unfolding create
  create-ok c issuer m s s' h = ground arith

  -- The row of `stat`, the new supply and the new accounts of a successful `issue`.
  pub record Issued (c : Context) (q : Asset) (s s' : Contract E) : Type 0 where
    pub st : CurrencyStats
    pub supply : Asset
    pub found : find s.stat q.symbol.code q.symbol.code ≡ some st
    pub authorised : c.has_auth st.issuer ≡ true
    pub positive : pos 0 <ℤ q.amount
    pub same : E.same_symbol q.symbol st.supply.symbol ≡ true
    pub fits : leb_ℤ q.amount (sub_i64 st.max_supply.amount st.supply.amount) ≡ true
    pub summed : E.plus st.supply q ≡ some supply
    pub credited : add_balance E st.issuer q s.accounts ≡ ok s'.accounts
    pub written : s'.stat ≡ store s.stat q.symbol.code q.symbol.code (record st { supply = supply })

  pub issue-ok :
      (c : Context) (to : ℕ) (q : Asset) (memo : String) (s s' : Contract E)
      → issue E c to q memo s ≡ ok s'
      → Issued c q s s'
  unfolding issue
  issue-ok c to q memo s s' h = elim (Option-cases (find s.stat q.symbol.code q.symbol.code)) [
    | inl e ↦ absurd (ground arith)
    | inr (row, e) ↦ elim (Option-cases (E.plus row.supply q)) [
      | inl f ↦ absurd (ground arith)
      | inr (sum, f) ↦ elim (Result-cases (add_balance E row.issuer q s.accounts)) [
        | inr (m, g) ↦ absurd (ground arith)
        | inl (accounts, g) ↦ record {
          st = row;
          supply = sum;
          found = e;
          authorised = ground arith;
          positive = ground arith;
          same = ground arith;
          fits = ground arith;
          summed = f;
          credited = ground arith;
          written = ground arith;
        }
      ]
    ]
  ]

  module _ (sub_balance : ℕ → Asset → Table Account → Result (Table Account)) where
    -- The two halves of a successful `transfer`.
    pub record Moved (c : Context) (from to : ℕ) (q : Asset) (s s' : Contract E) : Type 0 where
      pub debited : Table Account
      pub distinct : (from == to) ≡ false
      pub authorised : c.has_auth from ≡ true
      pub positive : pos 0 <ℤ q.amount
      pub taken : sub_balance from q s.accounts ≡ ok debited
      pub credited : add_balance E to q debited ≡ ok s'.accounts
      pub kept : s'.stat ≡ s.stat

    pub transfer-ok :
        (c : Context) (from to : ℕ) (q : Asset) (memo : String) (s s' : Contract E)
        → transfer E sub_balance c from to q memo s ≡ ok s'
        → Moved c from to q s s'
    unfolding transfer
    transfer-ok c from to q memo s s' h = elim (Result-cases (sub_balance from q s.accounts)) [
      | inr (m, e) ↦ absurd (ground arith)
      | inl (t, e) ↦ elim (Result-cases (add_balance E to q t)) [
        | inr (m, f) ↦ absurd (ground arith)
        | inl (t', f) ↦ record {
          debited = t;
          distinct = ground arith;
          authorised = ground arith;
          positive = ground arith;
          taken = e;
          credited = ground arith;
          kept = ground arith;
        }
      ]
    ]

    -- A successful `retire` or `burn` by the account `owner`.
    pub record Reduced (owner : ℕ) (q : Asset) (s s' : Contract E) : Type 0 where
      pub st : CurrencyStats
      pub supply : Asset
      pub found : find s.stat q.symbol.code q.symbol.code ≡ some st
      pub positive : pos 0 <ℤ q.amount
      pub same : E.same_symbol q.symbol st.supply.symbol ≡ true
      pub lowered : E.minus st.supply q ≡ some supply
      pub taken : sub_balance owner q s.accounts ≡ ok s'.accounts
      pub written :
          s'.stat ≡ store s.stat q.symbol.code q.symbol.code (record st { supply = supply })

  pub retire-ok :
      (c : Context) (q : Asset) (memo : String) (s s' : Contract E)
      → retire E c q memo s ≡ ok s'
      → (issuer : ℕ) × (c.has_auth issuer ≡ true) × Reduced (Eosio.sub_balance E) issuer q s s'
  unfolding retire
  retire-ok c q memo s s' h = elim (Option-cases (find s.stat q.symbol.code q.symbol.code)) [
    | inl e ↦ absurd (ground arith)
    | inr (row, e) ↦ elim (Option-cases (E.minus row.supply q)) [
      | inl f ↦ absurd (ground arith)
      | inr (rest, f) ↦ elim (Result-cases (Eosio.sub_balance E row.issuer q s.accounts)) [
        | inr (m, g) ↦ absurd (ground arith)
        | inl (accounts, g) ↦ (
          row.issuer,
          ground arith,
          record {
            st = row;
            supply = rest;
            found = e;
            positive = ground arith;
            same = ground arith;
            lowered = f;
            taken = ground arith;
            written = ground arith;
          },
        )
      ]
    ]
  ]

  pub burn-ok :
      (c : Context) (from : ℕ) (q : Asset) (memo : String) (s s' : Contract E)
      → burn E c from q memo s ≡ ok s'
      → (c.has_auth from ≡ true) × Reduced (Iq.sub_balance E) from q s s'
  unfolding burn
  burn-ok c from q memo s s' h = elim (Option-cases (find s.stat q.symbol.code q.symbol.code)) [
    | inl e ↦ absurd (ground arith)
    | inr (row, e) ↦ elim (Option-cases (E.minus row.supply q)) [
      | inl f ↦ absurd (ground arith)
      | inr (rest, f) ↦ elim (Result-cases (Iq.sub_balance E from q s.accounts)) [
        | inr (m, g) ↦ absurd (ground arith)
        | inl (accounts, g) ↦ (
          ground arith,
          record {
            st = row;
            supply = rest;
            found = e;
            positive = ground arith;
            same = ground arith;
            lowered = f;
            taken = ground arith;
            written = ground arith;
          },
        )
      ]
    ]
  ]

  -- `open` writes an empty row where there is none, and nothing else.
  pub open_balance-ok :
      (c : Context) (owner : ℕ) (y : Symbol) (payer : ℕ) (s s' : Contract E)
      → open_balance E c owner y payer s ≡ ok s'
      → (s'.stat ≡ s.stat)
        × ((s'.accounts ≡ s.accounts)
            ⊎ ((z : Asset) × (find s.accounts owner y.code ≡ none)
                × (E.make_asset (pos 0) y ≡ some z)
                × (s'.accounts ≡ store s.accounts owner y.code (record { balance = z }))))
  unfolding open_balance
  open_balance-ok c owner y payer s s' h = elim (Option-cases (find s.accounts owner y.code)) [
    | inr (a, e) ↦ (ground arith, inl (ground arith))
    | inl e ↦ elim (Option-cases (E.make_asset (pos 0) y)) [
      | inl f ↦ absurd (ground arith)
      | inr (z, f) ↦ (ground arith, inr (z, e, f, ground arith))
    ]
  ]

  -- `close` erases a row that holds nothing, and nothing else.
  pub close_balance-ok :
      (c : Context) (owner : ℕ) (y : Symbol) (s s' : Contract E)
      → close_balance E c owner y s ≡ ok s'
      → (a : Account) × (find s.accounts owner y.code ≡ some a)
        × (a.balance.amount ≡ pos 0)
        × (s'.stat ≡ s.stat)
        × (s'.accounts ≡ E.erase s.accounts owner y.code)
  unfolding close_balance
  close_balance-ok c owner y s s' h = elim (Option-cases (find s.accounts owner y.code)) [
    | inl e ↦ absurd (ground arith)
    | inr (a, e) ↦ (a, e, ground arith, ground arith, ground arith)
  ]
