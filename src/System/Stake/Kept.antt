-- ===== src/System/Stake/Kept.antt =====
-- The staking actions and the weights of the accounts (delegate_bandwidth.cpp).
use decentral_bank.Prelude.{
  ℕ, ◌≡◌, refl, Bool, true, false, [], ◌∷◌, ok, Bool-cases, Option-cases, if_then, if_else,
  bind_then, check_then, ok_injective, inl, inr, ap, sym, ◌∙◌, arith, if◌then◌else◌, ◌==◌, leb, not,
  ◌&&◌, ◌||◌,
}
use decentral_bank.Prelude.Int.{pos, ◌+ℤ◌, ltb_ℤ, leb_ℤ, eqb_ℤ}
use decentral_bank.Prelude.Word.{add_i64}
use decentral_bank.Chain.{Asset, Chain, IsChain}
use decentral_bank.Chain.Double.{Float}
use decentral_bank.System.{
  System, Moment, UserResources, DelegatedBandwidth, RefundRequest, VoterInfo, stake_account,
  min_activated_stake, asset, core_symbol, Inline, send,
}
use decentral_bank.System.Voting.Ballots.Apart.{update_votes-rest}
use decentral_bank.System.Stake.{
  Stakes, add, abs, max_ℕ, change_delegation, change_totals, offset, request, update_refund,
  open_refund, change_refund, schedule_refund, take_refund, move_tokens, settle_tokens,
  validate_stake, staked_row, change_staked, recast, changebw, at_least, delegatebw, undelegatebw,
}
use decentral_bank.System.Stake.Totals.{
  net_to, cpu_to, net_of, cpu_of, IsTotalled, change_delegation-adds, change_totals-adds,
}

module _ (E : Chain) (F : Float) where
  open E use {find}

  -- The two tables that the totals are of.
  abbrev both : System E F → E.Table DelegatedBandwidth × E.Table UserResources
  both s = (s.delband, s.userres)

  update_refund-both :
      (c : Moment) (from : ℕ) (d d' : Stakes) (r : RefundRequest) (n : Bool) (s s' : System E F)
      → update_refund E F c from d r s ≡ ok (d', n, s')
      → both s' ≡ both s
  unfolding update_refund
  update_refund-both c from d d' r n s s' h =
      bind_then (offset E F r.net_amount d.net) _ _ h (λ (a, x) _ h₁.
        bind_then (offset E F r.cpu_amount d.cpu) _ _ h₁ (λ (b, y) _ h₂.
          check_then (leb_ℤ (pos 0) a.amount) _ _ _ h₂ (λ _ h₃.
            check_then (leb_ℤ (pos 0) b.amount) _ _ _ h₃
              (λ _ h₄. ap (λ z. both z.2) (sym (ok_injective _ (d', n, s') h₄))))))

  open_refund-both :
      (c : Moment) (from : ℕ) (d d' : Stakes) (n : Bool) (s s' : System E F)
      → open_refund E F c from d s ≡ ok (d', n, s')
      → both s' ≡ both s
  unfolding open_refund
  open_refund-both c from d d' n s s' h =
      bind_then (request E F c.at.self d.net s) _ _ h (λ (a, x) _ h₁.
        bind_then (request E F c.at.self d.cpu s) _ _ h₁
          (λ (b, y) _ h₂. ap (λ z. both z.2) (sym (ok_injective _ (d', n, s') h₂))))

  change_refund-both :
      (c : Moment) (from : ℕ) (d d' : Stakes) (n : Bool) (s s' : System E F)
      → change_refund E F c from d s ≡ ok (d', n, s')
      → both s' ≡ both s
  unfolding change_refund
  change_refund-both c from d d' n s s' h = elim (Option-cases (find s.refunds from from)) [
    | inr (r, e) ↦ update_refund-both c from d d' r n s s' (ground arith)
    | inl e ↦ elim (Bool-cases (ltb_ℤ d.net.amount (pos 0) || ltb_ℤ d.cpu.amount (pos 0))) [
      | inl falls ↦ open_refund-both c from d d' n s s' (ground arith)
      | inr rises ↦ let same : s ≡ s' = ground arith in ap both (sym same)
    ]
  ]

  take_refund-both :
      (c : Moment) (from receiver : ℕ) (d d' : Stakes) (transfer n : Bool) (s s' : System E F)
      → take_refund E F c from receiver d transfer s ≡ ok (d', n, s')
      → both s' ≡ both s
  unfolding take_refund
  take_refund-both c from receiver d d' transfer n s s' h =
      let takes =
        (not transfer && from == receiver) || ltb_ℤ (add_i64 d.net.amount d.cpu.amount) (pos 0) in
      elim (Bool-cases takes) [
        | inl yes_takes ↦ change_refund-both c from d d' n s s' (if_then takes _ _ _ yes_takes h)
        | inr keeps ↦
            ap (λ z. both z.2) (sym (ok_injective _ (d', n, s') (if_else takes _ _ _ keeps h)))
      ]

  sent_both :
      (b : Bool) (a : Inline) (s : System E F) → both (if b then send E F a s else s) ≡ both s
  sent_both true a s = refl
  sent_both false a s = refl

  move_tokens-both :
      (c : Moment) (source from receiver : ℕ) (d : Stakes) (transfer : Bool) (s s' : System E F)
      → move_tokens E F c source from receiver d transfer s ≡ ok s'
      → both s' ≡ both s
  unfolding move_tokens schedule_refund
  move_tokens-both c source from receiver d transfer s s' h =
      bind_then (take_refund E F c from receiver d transfer s) _ _ h (λ (left, needed, t) e h₁.
        bind_then (add E F left.net left.cpu) _ _ h₁ (λ total _ h₂.
          ap both (sym (ok_injective _ s' h₂))
          ∙ sent_both (ltb_ℤ (pos 0) total.amount) _ _
          ∙ take_refund-both c from receiver d left transfer needed s t e))

  settle_tokens-both :
      (c : Moment) (source from receiver : ℕ) (d : Stakes) (transfer : Bool) (s s' : System E F)
      → settle_tokens E F c source from receiver d transfer s ≡ ok s'
      → both s' ≡ both s
  unfolding settle_tokens
  settle_tokens-both c source from receiver d transfer s s' h =
      elim (Bool-cases (source == stake_account)) [
        | inl staked ↦
            ap both (sym (ok_injective s s' (if_then (source == stake_account) _ _ _ staked h)))
        | inr other ↦
            move_tokens-both c source from receiver d transfer s s'
              (if_else (source == stake_account) _ _ _ other h)
      ]

  change_staked-both :
      (c : Moment) (from : ℕ) (total : Asset) (v : VoterInfo F) (s s' : System E F)
      → change_staked E F c from total s ≡ ok (v, s')
      → both s' ≡ both s
  unfolding change_staked
  change_staked-both c from total v s s' h =
      check_then (leb_ℤ (pos 0) (staked_row E F c from total s).staked) _ _ _ h (λ _ h₁.
        bind_then (validate_stake E F c.at.now from (staked_row E F c from total s).staked) _ _ h₁
          (λ _ _ h₂. ap (λ z. both z.1) (sym (ok_injective _ (v, s') h₂))))

  recast-both :
      (fuel : ℕ) (c : Moment) (from : ℕ) (v : VoterInfo F) (s s' : System E F)
      → recast E F fuel c from v s ≡ ok s'
      → both s' ≡ both s
  unfolding recast
  recast-both fuel c from v s s' h =
      let voted : Bool = elim v.producers [ [] ↦ not (v.proxy == 0) | _ ∷ _ ↦ true ] in
      elim (Bool-cases voted) [
        | inl again ↦
            ap (λ r. (r.delband, r.userres))
              (update_votes-rest E F fuel c from v.proxy v.producers false s s'
                (if_then voted _ _ _ again h))
        | inr never ↦ ap both (sym (ok_injective s s' (if_else voted _ _ _ never h)))
      ]

module _ (E : Chain) (L : IsChain E) (F : Float) where
  changebw-IsTotalled :
      (fuel : ℕ) (c : Moment) (source receiver : ℕ) (d : Stakes) (transfer : Bool)
      (s s' : System E F)
      → IsTotalled E F s
      → changebw E F fuel c source receiver d transfer s ≡ ok s'
      → IsTotalled E F s'
  unfolding changebw
  changebw-IsTotalled fuel c source receiver d transfer s s' balanced h y =
      check_then (c.at.has_auth source) _ _ _ h (λ _ h₁.
        check_then (not (eqb_ℤ d.net.amount (pos 0)) || not (eqb_ℤ d.cpu.amount (pos 0))) _ _ _ h₁
          (λ _ h₂. bind_then (add E F d.net d.cpu) _ _ h₂ (λ total _ h₃.
            check_then (leb (max_ℕ (abs d.net.amount) (abs d.cpu.amount)) (abs total.amount)) _ _ _
              h₃
              (λ _ h₄.
                let from = if transfer then receiver else source in
                bind_then (change_delegation E F from receiver d s) _ _ h₄ (λ s₁ e₁ h₅.
                  bind_then (change_totals E F receiver d s₁) _ _ h₅ (λ s₂ e₂ h₆.
                    bind_then (settle_tokens E F c source from receiver d transfer s₂) _ _ h₆
                      (λ s₃ e₃ h₇.
                        bind_then (change_staked E F c from total s₃) _ _ h₇ (λ (v, s₄) e₄ h₈.
                          let kept =
                            recast-both E F fuel c from v s₄ s' h₈
                            ∙ change_staked-both E F c from total v s₃ s₄ e₄
                            ∙ settle_tokens-both E F c source from receiver d transfer s₂ s₃ e₃ in
                          let (net, cpu, same) =
                            change_delegation-adds E L F from receiver d s s₁ y e₁ in
                          let (net', cpu', same') =
                            change_totals-adds E L F receiver d s₁ s₂ y e₂ in
                          let (a, b) = balanced y in
                          (
                            ap (λ z. E.weigh (net_to y) z.0) kept
                                ∙ ap (E.weigh (net_to y)) same'
                                ∙ net
                                ∙ ap (λ z. z +ℤ (if receiver == y then d.net.amount else pos 0))
                                    (a ∙ ap (E.weigh (net_of y)) (sym same))
                                ∙ sym net'
                                ∙ ap (λ z. E.weigh (net_of y) z.1) (sym kept),
                            ap (λ z. E.weigh (cpu_to y) z.0) kept
                                ∙ ap (E.weigh (cpu_to y)) same'
                                ∙ cpu
                                ∙ ap (λ z. z +ℤ (if receiver == y then d.cpu.amount else pos 0))
                                    (b ∙ ap (E.weigh (cpu_of y)) (sym same))
                                ∙ sym cpu'
                                ∙ ap (λ z. E.weigh (cpu_of y) z.1) (sym kept),
                          )))))))))

  -- Where the network and processor weights of every account are the sums of what is delegated to
  -- it, they still are after a delegation that succeeds, to oneself or to another, with or without
  -- transfer of the stake, and whatever the vote that is cast anew changes.
  pub delegatebw-IsTotalled :
      (fuel : ℕ) (c : Moment) (from receiver : ℕ) (net cpu : Asset) (transfer : Bool)
      (s s' : System E F)
      → IsTotalled E F s
      → delegatebw E F fuel c from receiver net cpu transfer s ≡ ok s'
      → IsTotalled E F s'
  unfolding delegatebw
  delegatebw-IsTotalled fuel c from receiver net cpu transfer s s' balanced h =
      bind_then (core_symbol E F c.at.self s) _ _ h (λ core _ h₁.
        bind_then (asset E F (pos 0) core) _ _ h₁ (λ zero _ h₂.
          bind_then (at_least E F cpu zero) _ _ h₂ (λ cpu_fits _ h₃.
            check_then cpu_fits _ _ _ h₃ (λ _ h₄.
              bind_then (at_least E F net zero) _ _ h₄ (λ net_fits _ h₅.
                check_then net_fits _ _ _ h₅ (λ _ h₆.
                  check_then (ltb_ℤ (pos 0) (add_i64 net.amount cpu.amount)) _ _ _ h₆ (λ _ h₇.
                    check_then (not transfer || not (from == receiver)) _ _ _ h₇ (λ _ h₈.
                      changebw-IsTotalled fuel c from receiver _ transfer s s' balanced h₈))))))))

  -- Where the network and processor weights of every account are the sums of what is delegated to
  -- it, they still are after stakes are taken back with success.
  pub undelegatebw-IsTotalled :
      (fuel : ℕ) (c : Moment) (from receiver : ℕ) (net cpu : Asset) (s s' : System E F)
      → IsTotalled E F s
      → undelegatebw E F fuel c from receiver net cpu s ≡ ok s'
      → IsTotalled E F s'
  unfolding undelegatebw
  undelegatebw-IsTotalled fuel c from receiver net cpu s s' balanced h =
      bind_then (core_symbol E F c.at.self s) _ _ h (λ core _ h₁.
        bind_then (asset E F (pos 0) core) _ _ h₁ (λ zero _ h₂.
          bind_then (at_least E F cpu zero) _ _ h₂ (λ cpu_fits _ h₃.
            check_then cpu_fits _ _ _ h₃ (λ _ h₄.
              bind_then (at_least E F net zero) _ _ h₄ (λ net_fits _ h₅.
                check_then net_fits _ _ _ h₅ (λ _ h₆.
                  check_then (ltb_ℤ (pos 0) (add_i64 cpu.amount net.amount)) _ _ _ h₆ (λ _ h₇.
                    check_then (leb_ℤ min_activated_stake s.global.total_activated_stake) _ _ _ h₇
                      (λ _ h₈.
                        changebw-IsTotalled fuel c from receiver _ false s s' balanced h₈))))))))
