-- ===== src/Cdp/Governance/Escrow.antt =====
-- Where the IQ of the voters goes: a vote keeps it under the proposed cdp type, and the count pays it
-- back.
use decentral_bank.Prelude.{
  ℕ, ◌≡◌, ◌≢◌, ◌≤◌, ◌∙◌, ap, refl, sym, true, false, none, some, Option-cases, Bool-cases,
  Result-cases, ok, inl, inr, arith, ◌==◌, ==_refl, if◌then◌else◌, List, [], ◌∷◌,
}
use decentral_bank.Prelude.Int.{ℤ, pos, ◌+ℤ◌, add_in_turn, add_zero_eq, +ℤ-zero, eqb_ℤ, eq_of_parts}
use decentral_bank.Chain.{Context, Chain, IsChain, lookup}
use decentral_bank.Cdp.{Engine, Account, Prop, iq_symbol, iq_name}
use decentral_bank.Cdp.Wallet.{add_balance}
use decentral_bank.Cdp.Wallet.Ledger.{
  balance_in, part, held, add_balance-store, add_balance-held, add_balance-total, weight-held,
}
use decentral_bank.Cdp.Governance.{refund_votes, referended, enact}

-- What the rows of voters add up to.
abbrev pub stakes : List (ℕ × Account) → ℤ
stakes [] = pos 0
stakes ((voter, a) ∷ rest) = a.balance.amount +ℤ stakes rest

-- What the rows of voters pay back to an account.
abbrev pub stakes_of : ℕ → List (ℕ × Account) → ℤ
stakes_of o [] = pos 0
stakes_of o ((voter, a) ∷ rest) =
    (if a.owner == o then a.balance.amount else pos 0) +ℤ stakes_of o rest

apart : (a b : ℤ) → a ≢ b → eqb_ℤ a b ≡ false
apart a b h = elim (Bool-cases (eqb_ℤ a b)) [
  | inl same ↦ absurd (h (eq_of_parts a b (ground arith)))
  | inr f ↦ f
]

module _ (E : Chain) (L : IsChain E) where
  open E use {Table, find, store, erase, rows, weigh}

  -- To erase a row of another scope moves no sum.
  total-erase :
      (y scope owner : ℕ) (t : Table Account)
      → (scope == y) ≡ false
      → weigh (balance_in y) (erase t scope owner) ≡ weigh (balance_in y) t
  total-erase y scope owner t other =
      sym (+ℤ-zero _)
      ∙ rw (weight-held E L y scope owner (find t scope owner), other) at
          (L.weigh-erase Account (balance_in y) t scope owner)

  refund_votes-total :
      (symbl : ℕ) (l : List (ℕ × Account)) (t t' : Table Account)
      → (symbl == iq_symbol.code) ≡ false
      → refund_votes E symbl l t ≡ ok t'
      → weigh (balance_in iq_symbol.code) t' ≡ weigh (balance_in iq_symbol.code) t +ℤ stakes l
  unfolding refund_votes
  refund_votes-total symbl [] t t' other h = let e : t' ≡ t = ground arith in rw e (add_zero_eq _)
  refund_votes-total symbl ((voter, it) ∷ rest) t t' other h =
      elim (Option-cases (E.make_asset it.balance.amount iq_symbol)) [
        | inl e₁ ↦ absurd (ground arith)
        | inr (refund, e₁) ↦ elim (Result-cases (add_balance E it.owner refund iq_name t)) [
          | inr (message, e₂) ↦ absurd (ground arith)
          | inl (paid, e₂) ↦
              let (n, y, _) = L.make_asset_some _ iq_symbol refund e₁ in
              let counts : part iq_symbol.code refund ≡ it.balance.amount = rw (y, n) refl in
              let credit =
                rw counts at
                  (add_balance-total E L it.owner refund iq_name t paid iq_symbol.code e₂) in
              add_in_turn _ _ _ _ _ (total-erase iq_symbol.code symbl voter paid other ∙ credit)
                (refund_votes-total symbl rest (erase paid symbl voter) t' other (ground arith))
        ]
      ]

  -- Each stake goes to the owner of its row.
  refund_votes-held :
      (symbl o : ℕ) (l : List (ℕ × Account)) (t t' : Table Account)
      → (symbl == iq_symbol.code) ≡ false
      → refund_votes E symbl l t ≡ ok t'
      → held (find t' iq_symbol.code o) ≡ held (find t iq_symbol.code o) +ℤ stakes_of o l
  unfolding refund_votes
  refund_votes-held symbl o [] t t' other h = let e : t' ≡ t = ground arith in rw e (add_zero_eq _)
  refund_votes-held symbl o ((voter, it) ∷ rest) t t' other h =
      elim (Option-cases (E.make_asset it.balance.amount iq_symbol)) [
        | inl e₁ ↦ absurd (ground arith)
        | inr (refund, e₁) ↦ elim (Result-cases (add_balance E it.owner refund iq_name t)) [
          | inr (message, e₂) ↦ absurd (ground arith)
          | inl (paid, e₂) ↦
              let (n, y, _) = L.make_asset_some _ iq_symbol refund e₁ in
              let credit =
                rw (y, n) at
                  (add_balance-held E L it.owner refund iq_name t paid iq_symbol.code o e₂) in
              let kept : held (find (erase paid symbl voter) iq_symbol.code o)
                  ≡ held (find paid iq_symbol.code o) =
                rw (L.find-erase Account paid symbl voter iq_symbol.code o, other) refl in
              add_in_turn _ _ _ _ _ (kept ∙ credit)
                (refund_votes-held symbl o rest (erase paid symbl voter) t' other (ground arith))
        ]
      ]

  -- A voter whose row is paid back, or who had none, has none after.
  refund_votes-cleared :
      (symbl : ℕ) (l : List (ℕ × Account)) (t t' : Table Account) (v : ℕ)
      → (symbl == iq_symbol.code) ≡ false
      → (lookup v l ≡ none → find t symbl v ≡ none)
      → refund_votes E symbl l t ≡ ok t'
      → find t' symbl v ≡ none
  unfolding refund_votes
  refund_votes-cleared symbl [] t t' v other listed h = ground (arith, listed refl)
  refund_votes-cleared symbl ((voter, it) ∷ rest) t t' v other listed h =
      elim (Option-cases (E.make_asset it.balance.amount iq_symbol)) [
        | inl e₁ ↦ absurd (ground arith)
        | inr (refund, e₁) ↦ elim (Result-cases (add_balance E it.owner refund iq_name t)) [
          | inr (message, e₂) ↦ absurd (ground arith)
          | inl (paid, e₂) ↦
              let (n, y, _) = L.make_asset_some _ iq_symbol refund e₁ in
              let (a, _, w, _) = add_balance-store E L it.owner refund iq_name t paid e₂ in
              let kept : find paid symbl v ≡ find t symbl v = ground (
                arith,
                L.find-store Account t refund.symbol.code it.owner a symbl v,
                ap (λ z. z.code) y,
              ) in
              refund_votes-cleared symbl rest (erase paid symbl voter) t' v other
                (λ none_left. elim (Bool-cases (v == voter)) [
                  | inl hit ↦
                      ground (arith, L.find-erase Account paid symbl voter symbl v, ==_refl symbl)
                  | inr miss ↦
                      let gone = listed (rw miss none_left) in
                      ground (arith, L.find-erase Account paid symbl voter symbl v, kept, gone)
                ])
                (ground arith)
        ]
      ]

  referended-steps :
      (c : Context) (proposer symbl : ℕ) (s s' : Engine E) (p : Prop)
      → find s.props c.self symbl ≡ some p
      → p.yay.amount ≢ p.nay.amount
      → referended E c proposer symbl s ≡ ok s'
      → (c.has_auth c.self ≡ true)
        × (p.deadline ≤ c.now)
        × (refund_votes E symbl (rows s.accounts symbl) s.accounts ≡ ok s'.accounts)
        × (s'.props ≡ erase s.props c.self symbl)
        × (s'.deferred ≡ s.deferred)
  unfolding referended
  referended-steps c proposer symbl s s' p found decided h =
      elim (Option-cases (E.equals p.yay p.nay)) [
        | inl e₁ ↦ absurd (ground arith)
        | inr (tie, e₁) ↦
            let (q, _) = L.equals_some p.yay p.nay tie e₁ in
            let differ : tie ≡ false = q ∙ apart _ _ decided in
            elim (Option-cases (E.exceeds p.yay p.nay)) [
              | inl e₂ ↦ absurd (ground arith)
              | inr (passed, e₂) ↦
                  elim (Result-cases (
                    if passed
                    then enact E c symbl (find s.stats proposer symbl) (find s.stats c.self symbl)
                        s.stats
                    else ok s.stats)) [
                      | inr (message, e₃) ↦ absurd (ground arith)
                      | inl (enacted, e₃) ↦
                          elim (Result-cases
                            (refund_votes E symbl (rows s.accounts symbl) s.accounts)) [
                              | inr (message, e₄) ↦ absurd (ground arith)
                              | inl (paid, e₄) ↦ (
                                ground arith,
                                ground arith,
                                ground arith,
                                ground arith,
                                ground arith,
                              )
                            ]
                    ]
            ]
      ]

  -- The count of a proposal whose votes are not tied, on a cdp type that is not named like IQ, runs
  -- with the contract's authority, from the deadline on. The balance in IQ of every account grows
  -- by exactly what it has staked on the type, as the owner of the rows there, and so the balances
  -- in IQ together by what the stakes add up to; no voter has a stake after; and the proposal is
  -- gone, with no new count scheduled.
  pub referended-refunds :
      (c : Context) (proposer symbl : ℕ) (s s' : Engine E) (p : Prop)
      → find s.props c.self symbl ≡ some p
      → p.yay.amount ≢ p.nay.amount
      → (symbl == iq_symbol.code) ≡ false
      → referended E c proposer symbl s ≡ ok s'
      → (c.has_auth c.self ≡ true)
        × (p.deadline ≤ c.now)
        × (weigh (balance_in iq_symbol.code) s'.accounts
            ≡ weigh (balance_in iq_symbol.code) s.accounts +ℤ stakes (rows s.accounts symbl))
        × ((o : ℕ)
            → held (find s'.accounts iq_symbol.code o)
              ≡ held (find s.accounts iq_symbol.code o) +ℤ stakes_of o (rows s.accounts symbl))
        × ((v : ℕ) → find s'.accounts symbl v ≡ none)
        × (find s'.props c.self symbl ≡ none)
        × (s'.deferred ≡ s.deferred)
  referended-refunds c proposer symbl s s' p found decided other h =
      let (auth, due, paid, props, same) =
        referended-steps c proposer symbl s s' p found decided h in
      (
        auth,
        due,
        refund_votes-total symbl (rows s.accounts symbl) s.accounts s'.accounts other paid,
        λ o. refund_votes-held symbl o (rows s.accounts symbl) s.accounts s'.accounts other paid,
        λ v.
            refund_votes-cleared symbl (rows s.accounts symbl) s.accounts s'.accounts v other
              (λ e. L.find-rows Account s.accounts symbl v ∙ e) paid,
        ground (
          arith,
          props,
          L.find-erase Prop s.props c.self symbl c.self symbl,
          ==_refl c.self,
          ==_refl symbl,
        ),
        same,
      )
