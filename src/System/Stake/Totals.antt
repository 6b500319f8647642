-- ===== src/System/Stake/Totals.antt =====
-- The weights of an account against what is delegated to it (`changebw`).
use decentral_bank.Prelude.{
  ℕ, ◌≡◌, refl, Bool, true, false, some, ok, Result-cases, Option-cases, bind_then, check_then,
  ok_injective, or_abort-ok, inl, inr, ap, sym, ◌∙◌, arith, if◌then◌else◌, ◌==◌, ◌&&◌,
}
use decentral_bank.Prelude.Int.{ℤ, pos, pos_part, neg_part, ◌+ℤ◌, leb_ℤ, eqb_ℤ, int_laws, add_under}
use decentral_bank.Chain.{Asset, Chain, IsChain, weight}
use decentral_bank.Chain.Double.{Float}
use decentral_bank.System.{System, UserResources, DelegatedBandwidth}
use decentral_bank.System.Stake.{
  Stakes, add, change_delegation, delegation_row, change_totals, totals_row,
}

-- What a row counts for the account `y`.
abbrev pub net_to : ℕ → ℕ → ℕ → DelegatedBandwidth → ℤ
net_to y scope key r = if key == y then r.net_weight.amount else pos 0

abbrev pub cpu_to : ℕ → ℕ → ℕ → DelegatedBandwidth → ℤ
cpu_to y scope key r = if key == y then r.cpu_weight.amount else pos 0

abbrev pub net_of : ℕ → ℕ → ℕ → UserResources → ℤ
net_of y scope key r = if key == y then r.net_weight.amount else pos 0

abbrev pub cpu_of : ℕ → ℕ → ℕ → UserResources → ℤ
cpu_of y scope key r = if key == y then r.cpu_weight.amount else pos 0

zero_add : (x : ℤ) → x ≡ pos 0 +ℤ x
zero_add x = omega int_laws

shift : (x' x old new n : ℤ) → x' +ℤ old ≡ x +ℤ new → new ≡ old +ℤ n → x' ≡ x +ℤ n
shift x' x old new n h k =
    omega (int_laws, ap pos_part h, ap neg_part h, ap pos_part k, ap neg_part k)

erased : (z x' old x new : ℤ) → z +ℤ pos 0 ≡ x' → x' +ℤ old ≡ x +ℤ new → z +ℤ old ≡ x +ℤ new
erased z x' old x new h k =
    omega (int_laws, ap pos_part h, ap neg_part h, ap pos_part k, ap neg_part k)

module _ (E : Chain) (L : IsChain E) where
  open E use {find, store, erase}

  -- A row that is written, or erased again if it counts nothing.
  pub put_row :
      (R : Type 0) (w : ℕ → ℕ → R → ℤ) (t : E.Table R) (s k : ℕ) (r : R) (n : ℤ) (empty : Bool)
      → w s k r ≡ weight w s k (find t s k) +ℤ n
      → (empty ≡ true → w s k r ≡ pos 0)
      → E.weigh w (if empty then erase (store t s k r) s k else store t s k r) ≡ E.weigh w t +ℤ n
  put_row R w t s k r n false h e = shift _ _ _ _ n (L.weigh-store R w t s k r) h
  put_row R w t s k r n true h e =
      let gone = L.weigh-erase R w (store t s k r) s k in
      let here = L.find-store R t s k r s k in
      let found : find (store t s k r) s k ≡ some r = ground (arith, here) in
      let none_left = ap (weight w s k) found ∙ e refl in
      shift _ _ _ _ n
        (erased _ _ _ _ _
          (ap (λ x. E.weigh w (erase (store t s k r) s k) +ℤ x) (sym none_left) ∙ gone)
          (L.weigh-store R w t s k r))
        h

module _ (E : Chain) (F : Float) where
  -- For every account, the rows that delegate to it and the row of its weights count the same.
  abbrev pub IsTotalled : System E F → Type 0
  IsTotalled s =
      (y : ℕ)
      → (E.weigh (net_to y) s.delband ≡ E.weigh (net_of y) s.userres)
        × (E.weigh (cpu_to y) s.delband ≡ E.weigh (cpu_of y) s.userres)

module _ (E : Chain) (L : IsChain E) (F : Float) where
  open E use {find}

  plus-amount : (a b c : Asset) → add E F a b ≡ ok c → c.amount ≡ a.amount +ℤ b.amount
  plus-amount a b c h = (L.plus_some a b c (or_abort-ok (E.plus a b) _ c h)).0

  delegation_row-adds :
      (from receiver : ℕ) (d : Stakes) (s : System E F) (row : DelegatedBandwidth) (y : ℕ)
      → delegation_row E F from receiver d s ≡ ok row
      → (net_to y from receiver row
          ≡ weight (net_to y) from receiver (find s.delband from receiver)
            +ℤ (if receiver == y then d.net.amount else pos 0))
        × (cpu_to y from receiver row
            ≡ weight (cpu_to y) from receiver (find s.delband from receiver)
              +ℤ (if receiver == y then d.cpu.amount else pos 0))
  unfolding delegation_row
  delegation_row-adds from receiver d s row y h =
      elim (Option-cases (find s.delband from receiver)) [
        | inl e ↦ (
          ground (arith, zero_add d.net.amount, zero_add (pos 0)),
          ground (arith, zero_add d.cpu.amount, zero_add (pos 0)),
        )
        | inr (r, e) ↦ elim (Result-cases (add E F r.net_weight d.net)) [
          | inr (m, f) ↦ absurd (ground arith)
          | inl (net, f) ↦ elim (Result-cases (add E F r.cpu_weight d.cpu)) [
            | inr (m, g) ↦ absurd (ground arith)
            | inl (cpu, g) ↦
                let a = plus-amount r.net_weight d.net net f in
                let b = plus-amount r.cpu_weight d.cpu cpu g in
                (
                  ground (
                    arith,
                    add_under (receiver == y) net.amount r.net_weight.amount d.net.amount a,
                  ),
                  ground (
                    arith,
                    add_under (receiver == y) cpu.amount r.cpu_weight.amount d.cpu.amount b,
                  ),
                )
          ]
        ]
      ]

  totals_row-adds :
      (receiver : ℕ) (d : Stakes) (s : System E F) (row : UserResources) (y : ℕ)
      → totals_row E F receiver d s ≡ ok row
      → (net_of y receiver receiver row
          ≡ weight (net_of y) receiver receiver (find s.userres receiver receiver)
            +ℤ (if receiver == y then d.net.amount else pos 0))
        × (cpu_of y receiver receiver row
            ≡ weight (cpu_of y) receiver receiver (find s.userres receiver receiver)
              +ℤ (if receiver == y then d.cpu.amount else pos 0))
  unfolding totals_row
  totals_row-adds receiver d s row y h = elim (Option-cases (find s.userres receiver receiver)) [
    | inl e ↦ (
      ground (arith, zero_add d.net.amount, zero_add (pos 0)),
      ground (arith, zero_add d.cpu.amount, zero_add (pos 0)),
    )
    | inr (r, e) ↦ elim (Result-cases (add E F r.net_weight d.net)) [
      | inr (m, f) ↦ absurd (ground arith)
      | inl (net, f) ↦ elim (Result-cases (add E F r.cpu_weight d.cpu)) [
        | inr (m, g) ↦ absurd (ground arith)
        | inl (cpu, g) ↦
            let a = plus-amount r.net_weight d.net net f in
            let b = plus-amount r.cpu_weight d.cpu cpu g in
            (
              ground
                  (arith, add_under (receiver == y) net.amount r.net_weight.amount d.net.amount a),
              ground
                  (arith, add_under (receiver == y) cpu.amount r.cpu_weight.amount d.cpu.amount b),
            )
      ]
    ]
  ]

  pub change_delegation-adds :
      (from receiver : ℕ) (d : Stakes) (s s' : System E F) (y : ℕ)
      → change_delegation E F from receiver d s ≡ ok s'
      → (E.weigh (net_to y) s'.delband
          ≡ E.weigh (net_to y) s.delband +ℤ (if receiver == y then d.net.amount else pos 0))
        × (E.weigh (cpu_to y) s'.delband
            ≡ E.weigh (cpu_to y) s.delband +ℤ (if receiver == y then d.cpu.amount else pos 0))
        × (s'.userres ≡ s.userres)
  unfolding change_delegation
  change_delegation-adds from receiver d s s' y h =
      bind_then (delegation_row E F from receiver d s) _ _ h (λ row e h₁.
        check_then (leb_ℤ (pos 0) row.net_weight.amount) _ _ _ h₁ (λ _ h₂.
          check_then (leb_ℤ (pos 0) row.cpu_weight.amount) _ _ _ h₂ (λ _ h₃.
            let (net, cpu) = delegation_row-adds from receiver d s row y e in
            let done = ok_injective _ s' h₃ in
            let empty =
              eqb_ℤ row.net_weight.amount (pos 0) && eqb_ℤ row.cpu_weight.amount (pos 0) in
            (
              ap (λ x. E.weigh (net_to y) x.delband) (sym done)
                  ∙ put_row E L _ (net_to y) s.delband from receiver row _ empty net
                      (λ z. ground arith),
              ap (λ x. E.weigh (cpu_to y) x.delband) (sym done)
                  ∙ put_row E L _ (cpu_to y) s.delband from receiver row _ empty cpu
                      (λ z. ground arith),
              ap (λ x. x.userres) (sym done),
            ))))

  pub change_totals-adds :
      (receiver : ℕ) (d : Stakes) (s s' : System E F) (y : ℕ)
      → change_totals E F receiver d s ≡ ok s'
      → (E.weigh (net_of y) s'.userres
          ≡ E.weigh (net_of y) s.userres +ℤ (if receiver == y then d.net.amount else pos 0))
        × (E.weigh (cpu_of y) s'.userres
            ≡ E.weigh (cpu_of y) s.userres +ℤ (if receiver == y then d.cpu.amount else pos 0))
        × (s'.delband ≡ s.delband)
  unfolding change_totals
  change_totals-adds receiver d s s' y h =
      bind_then (totals_row E F receiver d s) _ _ h (λ row e h₁.
        check_then (leb_ℤ (pos 0) row.net_weight.amount) _ _ _ h₁ (λ _ h₂.
          check_then (leb_ℤ (pos 0) row.cpu_weight.amount) _ _ _ h₂ (λ _ h₃.
            let (net, cpu) = totals_row-adds receiver d s row y e in
            let done = ok_injective _ s' h₃ in
            let empty =
              eqb_ℤ row.net_weight.amount (pos 0)
              && (eqb_ℤ row.cpu_weight.amount (pos 0) && eqb_ℤ row.ram_bytes (pos 0)) in
            (
              ap (λ x. E.weigh (net_of y) x.userres) (sym done)
                  ∙ put_row E L _ (net_of y) s.userres receiver receiver row _ empty net
                      (λ z. ground arith),
              ap (λ x. E.weigh (cpu_of y) x.userres) (sym done)
                  ∙ put_row E L _ (cpu_of y) s.userres receiver receiver row _ empty cpu
                      (λ z. ground arith),
              ap (λ x. x.delband) (sym done),
            ))))
