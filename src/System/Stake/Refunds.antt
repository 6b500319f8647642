-- ===== src/System/Stake/Refunds.antt =====
-- What a change of stakes takes out of a refund, and the payment of the rest.
use decentral_bank.Prelude.{
  ℕ, ◌≡◌, ◌≢◌, refl, Bool, true, false, some, none, ◌∷◌, ok, Bool-cases, Option-cases, if_then,
  if_else, bind_then, check_then, ok_injective, or_abort-ok, inl, inr, ap, sym, subst, ◌∙◌, arith,
  if◌then◌else◌, ◌==◌, ==_iff, not, ◌&&◌, ◌||◌,
}
use decentral_bank.Prelude.Int.{pos, ◌+ℤ◌, ◌-ℤ◌, ◌≤ℤ◌, ltb_ℤ, leb_ℤ, eqb_ℤ}
use decentral_bank.Prelude.Word.{add_i64}
use decentral_bank.Chain.{Asset, Chain, IsChain, weight}
use decentral_bank.Chain.Double.{Float}
use decentral_bank.System.{
  System, Moment, RefundRequest, stake_account, asset, core_symbol, Inline, send,
}
use decentral_bank.System.Exchange.Symbols.{asset-ok}
use decentral_bank.System.Stake.{
  Stakes, add, subtract, offset, request, update_refund, open_refund, change_refund,
  schedule_refund, take_refund, move_tokens, settle_tokens,
}
use decentral_bank.System.Stake.Totals.{put_row}
use decentral_bank.System.Stake.Balances.{
  due, Balances, below_Balances, above_Balances, kept_Balances, both_Balances, zero_due, sum_up,
  not_below, moved_due,
}

module _ (E : Chain) (L : IsChain E) (F : Float) where
  open E use {find, store}

  offset-Balances :
      (requested balance r left : Asset)
      → offset E F requested balance ≡ ok (r, left)
      → Balances requested.amount balance.amount r.amount left.amount
  unfolding offset
  offset-Balances requested balance r left h =
      bind_then (subtract E F requested balance) _ _ h (λ x e k.
        let (n, _, _, _) =
          L.minus_some requested balance x (or_abort-ok (E.minus requested balance) _ x e) in
        let (m, _) = L.negated_lem x in
        elim (Bool-cases (ltb_ℤ x.amount (pos 0))) [
          | inl below ↦
              let z = if_then (ltb_ℤ x.amount (pos 0)) _ _ _ below (ok_injective _ (r, left) k) in
              below_Balances requested.amount balance.amount x.amount left.amount r.amount n
                (ap (λ y. y.1.amount) (sym z) ∙ m) (ap (λ y. y.0.amount) (sym z)) (ground arith)
          | inr above ↦
              let z = if_else (ltb_ℤ x.amount (pos 0)) _ _ _ above (ok_injective _ (r, left) k) in
              above_Balances requested.amount balance.amount x.amount left.amount r.amount n
                (ap (λ y. y.1.amount) (sym z)) (ap (λ y. y.0.amount) (sym z))
        ])

  request-Balances :
      (self : ℕ) (balance r left : Asset) (s : System E F)
      → request E F self balance s ≡ ok (r, left)
      → Balances (pos 0) balance.amount r.amount left.amount
  unfolding request
  request-Balances self balance r left s h = elim (Bool-cases (ltb_ℤ balance.amount (pos 0))) [
    | inl below ↦
        let z = ok_injective _ (r, left) (if_then (ltb_ℤ balance.amount (pos 0)) _ _ _ below h) in
        let (m, _) = L.negated_lem balance in
        above_Balances (pos 0) balance.amount _ left.amount r.amount refl
          (ap (λ y. y.1.amount) (sym z)) (ap (λ y. y.0.amount) (sym z) ∙ m)
    | inr above ↦
        bind_then (core_symbol E F self s) _ _
          (if_else (ltb_ℤ balance.amount (pos 0)) _ _ _ above h)
          (λ core _ k. bind_then (asset E F (pos 0) core) _ _ k (λ zero made g.
            let (n, _) = asset-ok E L F (pos 0) core zero made in
            let z = ok_injective (zero, balance) (r, left) g in
            kept_Balances balance.amount left.amount r.amount (ap (λ y. y.1.amount) (sym z))
              (ap (λ y. y.0.amount) (sym z) ∙ n) (ground arith)))
  ]

  update_refund-settles :
      (c : Moment) (from : ℕ) (d left : Stakes) (r : RefundRequest) (n : Bool) (s s' : System E F)
      → find s.refunds from from ≡ some r
      → update_refund E F c from d r s ≡ ok (left, n, s')
      → Balances
          (E.weigh due s.refunds)
          (d.net.amount +ℤ d.cpu.amount)
          (E.weigh due s'.refunds)
          (left.net.amount +ℤ left.cpu.amount)
        × (s'.inline ≡ s.inline)
  unfolding update_refund
  update_refund-settles c from d left r n s s' found h =
      bind_then (offset E F r.net_amount d.net) _ _ h (λ (a, x) e h₁.
        bind_then (offset E F r.cpu_amount d.cpu) _ _ h₁ (λ (b, y) f h₂.
          check_then (leb_ℤ (pos 0) a.amount) _ _ _ h₂ (λ _ h₃.
            check_then (leb_ℤ (pos 0) b.amount) _ _ _ h₃ (λ _ h₄.
              let net = offset-Balances r.net_amount d.net a x e in
              let cpu = offset-Balances r.cpu_amount d.cpu b y f in
              let done = ok_injective _ (left, n, s') h₄ in
              let moved = moved_due _ _ _ _ _ _ _ _ net cpu in
              let settled = eqb_ℤ a.amount (pos 0) && eqb_ℤ b.amount (pos 0) in
              (
                subst
                    (λ z.
                      Balances (E.weigh due s.refunds) (d.net.amount +ℤ d.cpu.amount)
                        (E.weigh due z.2.refunds) (z.0.net.amount +ℤ z.0.cpu.amount))
                    done
                    (both_Balances _ _ _ _ _ _ _ _ _ _ net cpu (
                      put_row E L RefundRequest due s.refunds from from _ _ settled
                        (moved
                          ∙ ap
                              (λ z.
                                weight due from from z
                                +ℤ ((x.amount +ℤ y.amount) -ℤ (d.net.amount +ℤ d.cpu.amount)))
                              (sym found))
                        (zero_due a.amount b.amount))),
                ap (λ z. z.2.inline) (sym done),
              )))))

  open_refund-settles :
      (c : Moment) (from : ℕ) (d left : Stakes) (n : Bool) (s s' : System E F)
      → find s.refunds from from ≡ none
      → open_refund E F c from d s ≡ ok (left, n, s')
      → Balances
          (E.weigh due s.refunds)
          (d.net.amount +ℤ d.cpu.amount)
          (E.weigh due s'.refunds)
          (left.net.amount +ℤ left.cpu.amount)
        × (s'.inline ≡ s.inline)
  unfolding open_refund
  open_refund-settles c from d left n s s' absent h =
      bind_then (request E F c.at.self d.net s) _ _ h (λ (a, x) e h₁.
        bind_then (request E F c.at.self d.cpu s) _ _ h₁ (λ (b, y) f h₂.
          let net = request-Balances c.at.self d.net a x s e in
          let cpu = request-Balances c.at.self d.cpu b y s f in
          let done = ok_injective _ (left, n, s') h₂ in
          let moved = moved_due _ _ _ _ _ _ _ _ net cpu in
          (
            subst
                (λ z.
                  Balances (E.weigh due s.refunds) (d.net.amount +ℤ d.cpu.amount)
                    (E.weigh due z.2.refunds) (z.0.net.amount +ℤ z.0.cpu.amount))
                done
                (both_Balances _ _ _ _ _ _ _ _ _ _ net cpu (
                  put_row E L RefundRequest due s.refunds from from _ _ false
                    (moved
                      ∙ ap (λ z. z +ℤ ((x.amount +ℤ y.amount) -ℤ (d.net.amount +ℤ d.cpu.amount)))
                          (zero_due (pos 0) (pos 0) refl ∙ ap (weight due from from) (sym absent)))
                    (λ z. absurd (ground arith)))),
            ap (λ z. z.2.inline) (sym done),
          )))

  unchanged-settles :
      (d left : Stakes) (total : Asset) (s s' : System E F)
      → d ≡ left
      → s ≡ s'
      → total.amount ≡ left.net.amount +ℤ left.cpu.amount
      → pos 0 ≤ℤ total.amount
      → Balances
          (E.weigh due s.refunds)
          (d.net.amount +ℤ d.cpu.amount)
          (E.weigh due s'.refunds)
          total.amount
        × (s'.inline ≡ s.inline)
  unchanged-settles d left total s s' same kept amount h = (
    (
      ap (λ x. E.weigh due x.refunds +ℤ (d.net.amount +ℤ d.cpu.amount)) (sym kept)
          ∙ ap (λ x. E.weigh due s.refunds +ℤ x)
              (ap (λ x. x.net.amount +ℤ x.cpu.amount) same ∙ sym amount),
      h,
    ),
    ap (λ x. x.inline) (sym kept),
  )

  take_refund-settles :
      (c : Moment) (from receiver : ℕ) (d left : Stakes) (transfer n : Bool) (total : Asset)
      (s s' : System E F)
      → take_refund E F c from receiver d transfer s ≡ ok (left, n, s')
      → add E F left.net left.cpu ≡ ok total
      → Balances
          (E.weigh due s.refunds)
          (d.net.amount +ℤ d.cpu.amount)
          (E.weigh due s'.refunds)
          total.amount
        × (s'.inline ≡ s.inline)
  unfolding take_refund change_refund
  take_refund-settles c from receiver d left transfer n total s s' h sum =
      let (amount, _, _, range) =
        L.plus_some left.net left.cpu total (or_abort-ok (E.plus left.net left.cpu) _ total sum) in
      let takes =
        (not transfer && from == receiver) || ltb_ℤ (add_i64 d.net.amount d.cpu.amount) (pos 0) in
      let falls = ltb_ℤ d.net.amount (pos 0) || ltb_ℤ d.cpu.amount (pos 0) in
      elim (Bool-cases takes) [
        | inr keeps ↦
            let z = ok_injective _ (left, n, s') (if_else takes _ _ _ keeps h) in
            unchanged-settles d left total s s' (ap (λ y. y.0) z) (ap (λ y. y.2) z) amount (
              not_below d.net.amount d.cpu.amount total.amount
                (amount ∙ ap (λ y. y.0.net.amount +ℤ y.0.cpu.amount) (sym z)) range (ground arith))
        | inl yes_takes ↦
            let h₁ = if_then takes _ _ _ yes_takes h in
            elim (Option-cases (find s.refunds from from)) [
              | inr (r, found) ↦
                  let (x, y) = update_refund-settles c from d left r n s s' found (ground arith) in
                  (
                    subst
                        (λ t.
                          Balances (E.weigh due s.refunds) (d.net.amount +ℤ d.cpu.amount)
                            (E.weigh due s'.refunds) t)
                        (sym amount) x,
                    y,
                  )
              | inl absent ↦ elim (Bool-cases falls) [
                | inl down ↦
                    let (x, y) = open_refund-settles c from d left n s s' absent (ground arith) in
                    (
                      subst
                          (λ t.
                            Balances (E.weigh due s.refunds) (d.net.amount +ℤ d.cpu.amount)
                              (E.weigh due s'.refunds) t)
                          (sym amount) x,
                      y,
                    )
                | inr up ↦
                    let before : Stakes × Bool × System E F = (d, false, s) in
                    let after : Stakes × Bool × System E F = (left, n, s') in
                    let z = ok_injective before after (ground arith) in
                    unchanged-settles d left total s s' (ap (λ y. y.0) z) (ap (λ y. y.2) z) amount (
                      subst (λ t. pos 0 ≤ℤ t)
                        (sym (amount ∙ ap (λ y. y.0.net.amount +ℤ y.0.cpu.amount) (sym z)))
                        (sum_up d.net.amount d.cpu.amount (ground arith) (ground arith)))
              ]
            ]
      ]

  sent_refunds :
      (b : Bool) (a : Inline) (s : System E F) → (if b then send E F a s else s).refunds ≡ s.refunds
  sent_refunds true a s = refl
  sent_refunds false a s = refl

  sent_inline :
      (b : Bool) (a : Inline) (s : System E F)
      → (if b then send E F a s else s).inline ≡ (if b then a ∷ s.inline else s.inline)
  sent_inline true a s = refl
  sent_inline false a s = refl

  -- The payment is for what is left.
  pub settle_tokens-settles :
      (c : Moment) (source from receiver : ℕ) (d : Stakes) (transfer : Bool) (s s' : System E F)
      → source ≢ stake_account
      → settle_tokens E F c source from receiver d transfer s ≡ ok s'
      → (total : Asset) × Balances
          (E.weigh due s.refunds)
          (d.net.amount +ℤ d.cpu.amount)
          (E.weigh due s'.refunds)
          total.amount
        × (s'.inline ≡ (
            if ltb_ℤ (pos 0) total.amount
            then Inline.transfer source stake_account total "stake bandwidth" ∷ s.inline
            else s.inline))
  unfolding settle_tokens move_tokens schedule_refund
  settle_tokens-settles c source from receiver d transfer s s' other h =
      let not_staked : (source == stake_account) ≡ false =
        ground (arith, ==_iff source stake_account, other) in
      bind_then (take_refund E F c from receiver d transfer s) _ _
        (if_else (source == stake_account) _ _ _ not_staked h)
        (λ (left, needed, t) e h₁. bind_then (add E F left.net left.cpu) _ _ h₁ (λ total f h₂.
          let (x, y) = take_refund-settles c from receiver d left transfer needed total s t e f in
          let done = ok_injective _ s' h₂ in
          let positive = ltb_ℤ (pos 0) total.amount in
          let payment = Inline.transfer source stake_account total "stake bandwidth" in
          (
            total,
            subst
                (λ w.
                  Balances (E.weigh due s.refunds) (d.net.amount +ℤ d.cpu.amount) w total.amount)
                (ap (E.weigh due) (sym (sent_refunds positive payment _))
                  ∙ ap (λ u. E.weigh due u.refunds) done)
                x,
            ap (λ u. u.inline) (sym done)
                ∙ sent_inline positive payment _
                ∙ ap (λ l. if positive then payment ∷ l else l) y,
          )))
