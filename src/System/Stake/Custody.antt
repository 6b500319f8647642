-- ===== src/System/Stake/Custody.antt =====
-- The tokens that a change of stakes moves (`changebw`).
use decentral_bank.Prelude.{
  ℕ, ◌≡◌, ◌≢◌, Bool, true, false, List, [], ◌∷◌, ok, Bool-cases, if_then, if_else, bind_then,
  check_then, ok_injective, inl, inr, ap, sym, ◌∙◌, if◌then◌else◌, ◌==◌, leb, not, ◌||◌,
}
use decentral_bank.Prelude.Int.{pos, ◌+ℤ◌, ◌≤ℤ◌, ltb_ℤ, leb_ℤ, eqb_ℤ}
use decentral_bank.Chain.{Asset, Chain, IsChain}
use decentral_bank.Chain.Double.{Float}
use decentral_bank.System.{System, Moment, RefundRequest, VoterInfo, stake_account, Inline}
use decentral_bank.System.Voting.Ballots.Apart.{update_votes-rest}
use decentral_bank.System.Stake.{
  Stakes, add, abs, max_ℕ, validate_stake, delegation_row, totals_row, change_delegation,
  change_totals, settle_tokens, staked_row, change_staked, recast, changebw,
}
use decentral_bank.System.Stake.Balances.{due}
use decentral_bank.System.Stake.Refunds.{settle_tokens-settles}

module _ (E : Chain) (F : Float) where
  -- What staking keeps besides the refunds.
  abbrev kept : System E F → E.Table RefundRequest × List Inline
  kept s = (s.refunds, s.inline)

  change_delegation-kept :
      (from receiver : ℕ) (d : Stakes) (s s' : System E F)
      → change_delegation E F from receiver d s ≡ ok s'
      → kept s' ≡ kept s
  unfolding change_delegation
  change_delegation-kept from receiver d s s' h =
      bind_then (delegation_row E F from receiver d s) _ _ h (λ row _ h₁.
        check_then (leb_ℤ (pos 0) row.net_weight.amount) _ _ _ h₁ (λ _ h₂.
          check_then (leb_ℤ (pos 0) row.cpu_weight.amount) _ _ _ h₂
            (λ _ h₃. ap kept (sym (ok_injective _ s' h₃)))))

  change_totals-kept :
      (receiver : ℕ) (d : Stakes) (s s' : System E F)
      → change_totals E F receiver d s ≡ ok s'
      → kept s' ≡ kept s
  unfolding change_totals
  change_totals-kept receiver d s s' h = bind_then (totals_row E F receiver d s) _ _ h (λ row _ h₁.
      check_then (leb_ℤ (pos 0) row.net_weight.amount) _ _ _ h₁ (λ _ h₂.
        check_then (leb_ℤ (pos 0) row.cpu_weight.amount) _ _ _ h₂
          (λ _ h₃. ap kept (sym (ok_injective _ s' h₃)))))

  change_staked-kept :
      (c : Moment) (from : ℕ) (total : Asset) (v : VoterInfo F) (s s' : System E F)
      → change_staked E F c from total s ≡ ok (v, s')
      → kept s' ≡ kept s
  unfolding change_staked
  change_staked-kept c from total v s s' h =
      check_then (leb_ℤ (pos 0) (staked_row E F c from total s).staked) _ _ _ h (λ _ h₁.
        bind_then (validate_stake E F c.at.now from (staked_row E F c from total s).staked) _ _ h₁
          (λ _ _ h₂. ap (λ z. kept z.1) (sym (ok_injective _ (v, s') h₂))))

  recast-kept :
      (fuel : ℕ) (c : Moment) (from : ℕ) (v : VoterInfo F) (s s' : System E F)
      → recast E F fuel c from v s ≡ ok s'
      → kept s' ≡ kept s
  unfolding recast
  recast-kept fuel c from v s s' h =
      let voted : Bool = elim v.producers [ [] ↦ not (v.proxy == 0) | _ ∷ _ ↦ true ] in
      elim (Bool-cases voted) [
        | inl again ↦
            ap (λ r. (r.refunds, r.inline))
              (update_votes-rest E F fuel c from v.proxy v.producers false s s'
                (if_then voted _ _ _ again h))
        | inr never ↦ ap kept (sym (ok_injective s s' (if_else voted _ _ _ never h)))
      ]

module _ (E : Chain) (L : IsChain E) (F : Float) where
  -- A change of stakes that succeeds, by an account other than eosio.stake, sends at most one
  -- payment, from that account to eosio.stake, of an amount that is not negative (none where it is
  -- 0). With it the refunds that are due and the change balance: the refunds after it and the
  -- change add up to the refunds before it and the payment.
  pub changebw-custody :
      (fuel : ℕ) (c : Moment) (source receiver : ℕ) (d : Stakes) (transfer : Bool)
      (s s' : System E F)
      → source ≢ stake_account
      → changebw E F fuel c source receiver d transfer s ≡ ok s'
      → (total : Asset) × (E.weigh due s'.refunds +ℤ (d.net.amount +ℤ d.cpu.amount)
          ≡ E.weigh due s.refunds +ℤ total.amount)
        × (pos 0 ≤ℤ total.amount)
        × (s'.inline ≡ (
            if ltb_ℤ (pos 0) total.amount
            then Inline.transfer source stake_account total "stake bandwidth" ∷ s.inline
            else s.inline))
  unfolding changebw
  changebw-custody fuel c source receiver d transfer s s' other h =
      check_then (c.at.has_auth source) _ _ _ h (λ _ h₁.
        check_then (not (eqb_ℤ d.net.amount (pos 0)) || not (eqb_ℤ d.cpu.amount (pos 0))) _ _ _ h₁
          (λ _ h₂. bind_then (add E F d.net d.cpu) _ _ h₂ (λ total _ h₃.
            check_then (leb (max_ℕ (abs d.net.amount) (abs d.cpu.amount)) (abs total.amount)) _ _ _
              h₃
              (λ _ h₄.
                let from = if transfer then receiver else source in
                bind_then (change_delegation E F from receiver d s) _ _ h₄ (λ s₁ e₁ h₅.
                  bind_then (change_totals E F receiver d s₁) _ _ h₅ (λ s₂ e₂ h₆.
                    bind_then (settle_tokens E F c source from receiver d transfer s₂) _ _ h₆
                      (λ s₃ e₃ h₇.
                        bind_then (change_staked E F c from total s₃) _ _ h₇ (λ (v, s₄) e₄ h₈.
                          let first =
                            change_totals-kept E F receiver d s₁ s₂ e₂
                            ∙ change_delegation-kept E F from receiver d s s₁ e₁ in
                          let last =
                            recast-kept E F fuel c from v s₄ s' h₈
                            ∙ change_staked-kept E F c from total v s₃ s₄ e₄ in
                          let (paid, (sum, positive), sent) =
                            settle_tokens-settles E L F c source from receiver d transfer s₂ s₃
                              other e₃ in
                          (
                            paid,
                            ap (λ z. E.weigh due z.0 +ℤ (d.net.amount +ℤ d.cpu.amount)) last
                                ∙ sum
                                ∙ ap (λ z. E.weigh due z.0 +ℤ paid.amount) first,
                            positive,
                            ap (λ z. z.1) last
                                ∙ sent
                                ∙ ap
                                    (λ z.
                                      if ltb_ℤ (pos 0) paid.amount
                                      then Inline.transfer source stake_account paid
                                          "stake bandwidth"
                                        ∷ z.1
                                      else z.1)
                                    first,
                          )))))))))
