-- ===== src/Cdp/Position/Actions.antt =====
-- Every successful `draw`, `wipe`, `bail` and `lock` adjusts one position and its type alike.
use decentral_bank.Prelude.{ℕ, ◌≡◌, Option-cases, ok, Result-cases, inl, inr, arith, if◌then◌else◌}
use decentral_bank.Prelude.Int.{pos, ◌-ℤ◌, eqb_ℤ}
use decentral_bank.Prelude.Word.{to_u64, add_i64, sub_i64, sub_u32, to_i64}
use decentral_bank.Chain.{Asset, Context, Chain, IsChain}
use decentral_bank.Cdp.{Engine, iq_symbol}
use decentral_bank.Cdp.Position.{ratio_i64, ratio_u64, accrued_fee, bail, draw, wipe, lock}
use decentral_bank.Cdp.Position.Passed.{
  Adjusts, mint-Adjusts, release-Adjusts, repay-Adjusts, take_in-Adjusts,
}

module _ (E : Chain) (L : IsChain E) where
  open E use {find}

  module _ (c : Context) (owner symbl : ℕ) (q : Asset) (s s' : Engine E) where
    pub draw-Adjusts :
        draw E c owner symbl q s ≡ ok s' → Adjusts E c owner symbl (q.amount) (pos 0) s s'
    unfolding draw
    draw-Adjusts h = elim (Option-cases (find s.stats c.self symbl)) [
      | inl e₁ ↦ absurd (ground arith)
      | inr (row, e₁) ↦ elim (Option-cases (find s.cdps symbl owner)) [
        | inl e₂ ↦ absurd (ground arith)
        | inr (cdp, e₂) ↦ elim (Option-cases (find s.feeds c.self cdp.collateral.symbol.code)) [
          | inl e₃ ↦ absurd (ground arith)
          | inr (feed, e₃) ↦
              elim (Result-cases (
                ratio_u64 feed.price.amount (to_u64 (add_i64 cdp.stablecoin.amount q.amount))
                  cdp.collateral.amount)) [
                    | inr (message, e₄) ↦ absurd (ground arith)
                    | inl (ratio, e₄) ↦ elim (Option-cases (find s.feeds c.self q.symbol.code)) [
                      | inl e₅ ↦ absurd (ground arith)
                      | inr (coin, e₅) ↦
                          mint-Adjusts E L c owner symbl q s s' row cdp e₁ e₂ coin (ground arith)
                    ]
                  ]
        ]
      ]
    ]

    pub wipe-Adjusts :
        wipe E c owner symbl q s ≡ ok s' → Adjusts E c owner symbl (pos 0 -ℤ q.amount) (pos 0) s s'
    unfolding wipe
    wipe-Adjusts h = elim (Option-cases (find s.stats c.self symbl)) [
      | inl e₁ ↦ absurd (ground arith)
      | inr (row, e₁) ↦ elim (Option-cases (find s.cdps symbl owner)) [
        | inl e₂ ↦ absurd (ground arith)
        | inr (cdp, e₂) ↦ elim (Option-cases (E.exceeds cdp.stablecoin q)) [
          | inl e₃ ↦ absurd (ground arith)
          | inr (more, e₃) ↦ elim (Option-cases (find s.feeds c.self iq_symbol.code)) [
            | inl e₄ ↦ absurd (ground arith)
            | inr (feed, e₄) ↦
                elim (Result-cases (
                  accrued_fee row.stability_fee (sub_u32 c.now cdp.created) q.amount
                    feed.price.amount)) [
                      | inr (message, e₅) ↦ absurd (ground arith)
                      | inl (apr, e₅) ↦ elim (Option-cases (E.make_asset (to_i64 apr) iq_symbol)) [
                        | inl e₆ ↦ absurd (ground arith)
                        | inr (fee, e₆) ↦
                            repay-Adjusts E L c owner symbl q s s' row cdp e₁ e₂ fee (ground arith)
                      ]
                    ]
          ]
        ]
      ]
    ]

    pub bail-Adjusts :
        bail E c owner symbl q s ≡ ok s' → Adjusts E c owner symbl (pos 0) (pos 0 -ℤ q.amount) s s'
    unfolding bail
    bail-Adjusts h = elim (Option-cases (find s.stats c.self symbl)) [
      | inl e₁ ↦ absurd (ground arith)
      | inr (row, e₁) ↦ elim (Option-cases (find s.cdps symbl owner)) [
        | inl e₂ ↦ absurd (ground arith)
        | inr (cdp, e₂) ↦ elim (Option-cases (E.exceeds cdp.collateral q)) [
          | inl e₃ ↦ absurd (ground arith)
          | inr (more, e₃) ↦ elim (Option-cases (find s.feeds c.self q.symbol.code)) [
            | inl e₄ ↦ absurd (ground arith)
            | inr (feed, e₄) ↦
                elim (Result-cases (
                  if eqb_ℤ cdp.stablecoin.amount (pos 0)
                  then ok row.liquid8_ratio
                  else ratio_i64 feed.price.amount cdp.stablecoin.amount
                      (sub_i64 cdp.collateral.amount q.amount))) [
                        | inr (message, e₅) ↦ absurd (ground arith)
                        | inl (ratio, e₅) ↦
                            release-Adjusts E L c owner symbl q s s' row cdp e₁ e₂ feed
                              (ground arith)
                      ]
          ]
        ]
      ]
    ]

    pub lock-Adjusts :
        lock E c owner symbl q s ≡ ok s' → Adjusts E c owner symbl (pos 0) (q.amount) s s'
    unfolding lock
    lock-Adjusts h = elim (Option-cases (find s.stats c.self symbl)) [
      | inl e₁ ↦ absurd (ground arith)
      | inr (row, e₁) ↦ elim (Option-cases (find s.cdps symbl owner)) [
        | inl e₂ ↦ absurd (ground arith)
        | inr (cdp, e₂) ↦ take_in-Adjusts E L c owner symbl q s s' row cdp e₁ e₂ (ground arith)
      ]
    ]
