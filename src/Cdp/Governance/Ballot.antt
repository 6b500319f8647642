-- ===== src/Cdp/Governance/Ballot.antt =====
-- What a vote does: the voter's IQ becomes a stake on the proposal, and its weight in the count.
use decentral_bank.Prelude.{
  ℕ, ◌≡◌, ◌∙◌, ap, refl, true, false, Bool, some, Option-cases, Result-cases, ok, inl, inr, arith,
  ◌==◌, ==_refl, if◌then◌else◌,
}
use decentral_bank.Prelude.Int.{
  ℤ, pos, ◌+ℤ◌, ◌-ℤ◌, ◌<ℤ◌, int_laws, shift_term, add_under, -ℤ-zero, +ℤ-zero,
}
use decentral_bank.Chain.{Asset, Context, Chain, IsChain}
use decentral_bank.Cdp.{Engine, Account, Prop, iq_symbol}
use decentral_bank.Cdp.Wallet.{sub_balance}
use decentral_bank.Cdp.Wallet.Ledger.{balance_in, part, held, sub_balance-total, weight-held}
use decentral_bank.Cdp.Governance.{put_stake, count_vote, vote}

-- The count with the votes `n` more for or against.
abbrev pub Counted : Bool → ℤ → Prop → Prop → Type 0
Counted true n p p' =
    (p'.nay.amount ≡ p.nay.amount +ℤ n) × (p'.yay ≡ p.yay) × (p'.deadline ≡ p.deadline)
Counted false n p p' =
    (p'.yay.amount ≡ p.yay.amount +ℤ n) × (p'.nay ≡ p.nay) × (p'.deadline ≡ p.deadline)

module _ (E : Chain) (L : IsChain E) where
  open E use {Table, find, store, weigh}

  pub record Ballot (c : Context) (voter symbl : ℕ) (against : Bool) (q : Asset) (p : Prop)
      (s s' : Engine E) : Type 0 where
    pub code : ℕ
    pub charged : Table Account
    pub row : Account
    pub count : Prop
    pub taken : sub_balance E voter q s.accounts ≡ ok (code, charged)
    pub staked : s'.accounts ≡ store charged symbl voter row
    pub stake : row.balance.amount ≡ held (find charged symbl voter) +ℤ q.amount
    pub props : s'.props ≡ store s.props c.self symbl count
    pub moved : Counted against q.amount p count
    pub governing : E.same_symbol q.symbol iq_symbol ≡ true
    pub authorised : c.has_auth voter ≡ true
    pub positive : pos 0 <ℤ q.amount

  put_stake-store :
      (voter symbl : ℕ) (stake : Asset) (t t' : Table Account)
      → put_stake E voter symbl stake t ≡ ok t'
      → (row : Account) × (t' ≡ store t symbl voter row)
        × (row.balance.amount ≡ held (find t symbl voter) +ℤ stake.amount)
  unfolding put_stake
  put_stake-store voter symbl stake t t' h = elim (Option-cases (find t symbl voter)) [
    | inl e ↦
        (record { balance = stake; owner = voter; code = 0 }, ground arith, rw e (omega int_laws))
    | inr (old, e) ↦ elim (Option-cases (E.plus old.balance stake)) [
      | inl f ↦ absurd (ground arith)
      | inr (sum, f) ↦ (
        record old { balance = sum },
        ground arith,
        rw e ((L.plus_some old.balance stake sum f).0),
      )
    ]
  ]

  count_vote-Counted :
      (against : Bool) (q : Asset) (p p' : Prop)
      → count_vote E against q p ≡ ok p'
      → Counted against q.amount p p'
  unfolding count_vote
  count_vote-Counted true q p p' h = elim (Option-cases (E.plus p.nay q)) [
    | inl e ↦ absurd (ground arith)
    | inr (nay, e) ↦
        let n = (L.plus_some p.nay q nay e).0 in (ground arith, ground arith, ground arith)
  ]
  count_vote-Counted false q p p' h = elim (Option-cases (E.plus p.yay q)) [
    | inl e ↦ absurd (ground arith)
    | inr (yay, e) ↦
        let n = (L.plus_some p.yay q yay e).0 in (ground arith, ground arith, ground arith)
  ]

  vote-Ballot :
      (c : Context) (voter symbl : ℕ) (against : Bool) (q : Asset) (s s' : Engine E) (p : Prop)
      → find s.props c.self symbl ≡ some p
      → vote E c voter symbl against q s ≡ ok s'
      → Ballot c voter symbl against q p s s'
  unfolding vote
  vote-Ballot c voter symbl against q s s' p found h =
      elim (Result-cases (sub_balance E voter q s.accounts)) [
        | inr (message, e₁) ↦ absurd (ground arith)
        | inl ((code, charged), e₁) ↦
            elim (Option-cases (E.make_asset q.amount (record { code = symbl; precision = 3 }))) [
              | inl e₂ ↦ absurd (ground arith)
              | inr (stake, e₂) ↦ elim (Result-cases (put_stake E voter symbl stake charged)) [
                | inr (message, e₃) ↦ absurd (ground arith)
                | inl (accounts, e₃) ↦ elim (Result-cases (count_vote E against q p)) [
                  | inr (message, e₄) ↦ absurd (ground arith)
                  | inl (count, e₄) ↦
                      let (row, w, n) = put_stake-store voter symbl stake charged accounts e₃ in
                      record {
                        code = code;
                        charged = charged;
                        row = row;
                        count = count;
                        taken = e₁;
                        staked = ground arith;
                        stake = rw (L.make_asset_some _ _ stake e₂).0 at n;
                        props = ground arith;
                        moved = count_vote-Counted against q p count e₄;
                        governing = ground arith;
                        authorised = ground arith;
                        positive = ground arith;
                      }
                ]
              ]
            ]
      ]

  stake-total :
      (y voter symbl : ℕ) (row : Account) (n : ℤ) (t : Table Account)
      → row.balance.amount ≡ held (find t symbl voter) +ℤ n
      → weigh (balance_in y) (store t symbl voter row)
        ≡ weigh (balance_in y) t +ℤ (if symbl == y then n else pos 0)
  stake-total y voter symbl row n t h =
      shift_term _ _ _ _ _ (L.weigh-store Account (balance_in y) t symbl voter row)
        (rw (weight-held E L y symbl voter (find t symbl voter)) (add_under (symbl == y) _ _ n h))

  -- A successful vote is authorised and positive, and is in IQ. On a cdp type that is not named like IQ
  -- it takes its amount from the balances in IQ and adds it to the stakes on the type, and adds as much
  -- to the votes against or to those in favour, whichever the voter chose; the other count and the
  -- deadline stay.
  pub vote-escrow :
      (c : Context) (voter symbl : ℕ) (against : Bool) (q : Asset) (s s' : Engine E) (p : Prop)
      → find s.props c.self symbl ≡ some p
      → (symbl == iq_symbol.code) ≡ false
      → vote E c voter symbl against q s ≡ ok s'
      → (p' : Prop) × (find s'.props c.self symbl ≡ some p')
        × Counted against q.amount p p'
        × (c.has_auth voter ≡ true)
        × (pos 0 <ℤ q.amount)
        × (q.symbol ≡ iq_symbol)
        × (weigh (balance_in iq_symbol.code) s'.accounts
            ≡ weigh (balance_in iq_symbol.code) s.accounts -ℤ q.amount)
        × (weigh (balance_in symbl) s'.accounts ≡ weigh (balance_in symbl) s.accounts +ℤ q.amount)
  vote-escrow c voter symbl against q s s' p found other h =
      let b = vote-Ballot c voter symbl against q s s' p found h in
      let iq : q.symbol ≡ iq_symbol = (L.same_symbol_iff q.symbol iq_symbol).0 b.governing in
      let away : (iq_symbol.code == symbl) ≡ false = ground arith in
      let counts : part iq_symbol.code q ≡ q.amount = rw iq refl in
      let counts_not : part symbl q ≡ pos 0 = rw (iq, away) refl in
      (
        b.count,
        ground (
          arith,
          b.props,
          L.find-store Prop s.props c.self symbl b.count c.self symbl,
          ==_refl c.self,
          ==_refl symbl,
        ),
        b.moved,
        b.authorised,
        b.positive,
        iq,
        rw b.staked (
            rw other at (stake-total iq_symbol.code voter symbl b.row q.amount b.charged b.stake)
            ∙ +ℤ-zero _
            ∙ rw counts at
                (sub_balance-total E L voter q s.accounts b.code b.charged iq_symbol.code b.taken)),
        rw b.staked (
            rw (==_refl symbl) at (stake-total symbl voter symbl b.row q.amount b.charged b.stake)
            ∙ ap (λ z. z +ℤ q.amount)
                (rw counts_not at
                    (sub_balance-total E L voter q s.accounts b.code b.charged symbl b.taken)
                  ∙ -ℤ-zero _)),
      )
