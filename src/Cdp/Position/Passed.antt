-- ===== src/Cdp/Position/Passed.antt =====
-- How the actions of a position's owner move its debt and its collateral, and the totals of its type.
use decentral_bank.Prelude.{ℕ, ◌≡◌, some, Option-cases, ok, Result-cases, inl, inr, arith}
use decentral_bank.Prelude.Int.{ℤ, pos, ◌+ℤ◌, ◌-ℤ◌, -ℤ-as_add, add_zero_eq}
use decentral_bank.Chain.{Asset, Context, Chain, IsChain}
use decentral_bank.Cdp.{Engine, Cdp, Stat, Feed}
use decentral_bank.Cdp.Wallet.{add_balance, sub_balance}
use decentral_bank.Cdp.Position.{release, mint, repay, take_in}

module _ (E : Chain) where
  open E use {find, store}

  -- One position and its type are written: the debt moves by `n` in both, the collateral by `m`.
  pub record Adjusts (c : Context) (owner symbl : ℕ) (n m : ℤ) (s s' : Engine E) : Type 0 where
    pub st : Stat
    pub st' : Stat
    pub it : Cdp
    pub it' : Cdp
    pub typed : find s.stats c.self symbl ≡ some st
    pub owned : find s.cdps symbl owner ≡ some it
    pub cdps : s'.cdps ≡ store s.cdps symbl owner it'
    pub stats : s'.stats ≡ store s.stats c.self symbl st'
    pub debt : it'.stablecoin.amount ≡ it.stablecoin.amount +ℤ n
    pub total_debt : st'.total_stablecoin.amount ≡ st.total_stablecoin.amount +ℤ n
    pub locked : it'.collateral.amount ≡ it.collateral.amount +ℤ m
    pub total_locked :
        st'.total_collateral.quantity.amount ≡ st.total_collateral.quantity.amount +ℤ m

module _ (E : Chain) (L : IsChain E) where
  open E use {find, store}

  module _ (c : Context) (owner symbl : ℕ) (q : Asset) (s s' : Engine E) (row : Stat) (cdp : Cdp)
      (typed_row : find s.stats c.self symbl ≡ some row)
      (owned_cdp : find s.cdps symbl owner ≡ some cdp) where
    pub mint-Adjusts :
        (fs : Feed)
        → mint E c owner symbl q row cdp fs s ≡ ok s'
        → Adjusts E c owner symbl q.amount (pos 0) s s'
    unfolding mint
    mint-Adjusts fs h = elim (Result-cases (add_balance E owner q c.self s.accounts)) [
      | inr (message, e₁) ↦ absurd (ground arith)
      | inl (accounts, e₁) ↦ elim (Option-cases (E.plus cdp.stablecoin q)) [
        | inl e₂ ↦ absurd (ground arith)
        | inr (more, e₂) ↦ elim (Option-cases (E.plus row.total_stablecoin q)) [
          | inl e₃ ↦ absurd (ground arith)
          | inr (sum, e₃) ↦ elim (Option-cases (E.plus fs.total q)) [
            | inl e₄ ↦ absurd (ground arith)
            | inr (supply, e₄) ↦ record {
              st = row;
              st' = record row { total_stablecoin = sum };
              it = cdp;
              it' = record cdp { stablecoin = more };
              typed = typed_row;
              owned = owned_cdp;
              cdps = ground arith;
              stats = ground arith;
              debt = (L.plus_some cdp.stablecoin q more e₂).0;
              total_debt = (L.plus_some row.total_stablecoin q sum e₃).0;
              locked = add_zero_eq _;
              total_locked = add_zero_eq _;
            }
          ]
        ]
      ]
    ]

    pub release-Adjusts :
        (fc : Feed)
        → release E c owner symbl q row cdp fc s ≡ ok s'
        → Adjusts E c owner symbl (pos 0) (pos 0 -ℤ q.amount) s s'
    unfolding release
    release-Adjusts fc h =
        elim (Result-cases (add_balance E owner q row.total_collateral.contract s.accounts)) [
          | inr (message, e₁) ↦ absurd (ground arith)
          | inl (accounts, e₁) ↦ elim (Option-cases (E.minus cdp.collateral q)) [
            | inl e₂ ↦ absurd (ground arith)
            | inr (rest, e₂) ↦ elim (Option-cases (E.minus row.total_collateral.quantity q)) [
              | inl e₃ ↦ absurd (ground arith)
              | inr (sum, e₃) ↦ elim (Option-cases (E.plus fc.total q)) [
                | inl e₄ ↦ absurd (ground arith)
                | inr (supply, e₄) ↦ record {
                  st = row;
                  st' = record row {
                    total_collateral = record {
                      quantity = sum;
                      contract = row.total_collateral.contract;
                    };
                  };
                  it = cdp;
                  it' = record cdp { collateral = rest };
                  typed = typed_row;
                  owned = owned_cdp;
                  cdps = ground arith;
                  stats = ground arith;
                  debt = add_zero_eq _;
                  total_debt = add_zero_eq _;
                  locked = -ℤ-as_add _ _ _ (L.minus_some cdp.collateral q rest e₂).0;
                  total_locked =
                      -ℤ-as_add _ _ _ (L.minus_some row.total_collateral.quantity q sum e₃).0;
                }
              ]
            ]
          ]
        ]

    pub repay-Adjusts :
        (fee : Asset)
        → repay E c owner symbl q fee row cdp s ≡ ok s'
        → Adjusts E c owner symbl (pos 0 -ℤ q.amount) (pos 0) s s'
    unfolding repay
    repay-Adjusts fee h = elim (Result-cases (sub_balance E owner fee s.accounts)) [
      | inr (message, e₁) ↦ absurd (ground arith)
      | inl (charged, e₁) ↦ elim (Result-cases (sub_balance E owner q charged.1)) [
        | inr (message, e₂) ↦ absurd (ground arith)
        | inl (paid, e₂) ↦ elim (Option-cases (E.plus row.fee_balance fee)) [
          | inl e₃ ↦ absurd (ground arith)
          | inr (fees, e₃) ↦ elim (Option-cases (E.minus row.total_stablecoin q)) [
            | inl e₄ ↦ absurd (ground arith)
            | inr (sum, e₄) ↦ elim (Option-cases (E.minus cdp.stablecoin q)) [
              | inl e₅ ↦ absurd (ground arith)
              | inr (rest, e₅) ↦ elim (Option-cases (find s.feeds c.self q.symbol.code)) [
                | inl e₆ ↦ absurd (ground arith)
                | inr (coin, e₆) ↦ elim (Option-cases (E.minus coin.total q)) [
                  | inl e₇ ↦ absurd (ground arith)
                  | inr (supply, e₇) ↦ record {
                    st = row;
                    st' = record row { fee_balance = fees; total_stablecoin = sum };
                    it = cdp;
                    it' = record cdp { stablecoin = rest };
                    typed = typed_row;
                    owned = owned_cdp;
                    cdps = ground arith;
                    stats = ground arith;
                    debt = -ℤ-as_add _ _ _ (L.minus_some cdp.stablecoin q rest e₅).0;
                    total_debt = -ℤ-as_add _ _ _ (L.minus_some row.total_stablecoin q sum e₄).0;
                    locked = add_zero_eq _;
                    total_locked = add_zero_eq _;
                  }
                ]
              ]
            ]
          ]
        ]
      ]
    ]

    pub take_in-Adjusts :
        take_in E c owner symbl q row cdp s ≡ ok s' → Adjusts E c owner symbl (pos 0) q.amount s s'
    unfolding take_in
    take_in-Adjusts h = elim (Result-cases (sub_balance E owner q s.accounts)) [
      | inr (message, e₁) ↦ absurd (ground arith)
      | inl (paid, e₁) ↦ elim (Option-cases (E.plus row.total_collateral.quantity q)) [
        | inl e₂ ↦ absurd (ground arith)
        | inr (sum, e₂) ↦ elim (Option-cases (E.plus cdp.collateral q)) [
          | inl e₃ ↦ absurd (ground arith)
          | inr (more, e₃) ↦ elim (Option-cases (find s.feeds c.self q.symbol.code)) [
            | inl e₄ ↦ absurd (ground arith)
            | inr (coin, e₄) ↦ elim (Option-cases (E.minus coin.total q)) [
              | inl e₅ ↦ absurd (ground arith)
              | inr (supply, e₅) ↦ record {
                st = row;
                st' = record row {
                  total_collateral = record {
                    quantity = sum;
                    contract = row.total_collateral.contract;
                  };
                };
                it = cdp;
                it' = record cdp { collateral = more };
                typed = typed_row;
                owned = owned_cdp;
                cdps = ground arith;
                stats = ground arith;
                debt = add_zero_eq _;
                total_debt = add_zero_eq _;
                locked = (L.plus_some cdp.collateral q more e₃).0;
                total_locked = (L.plus_some row.total_collateral.quantity q sum e₂).0;
              }
            ]
          ]
        ]
      ]
    ]
