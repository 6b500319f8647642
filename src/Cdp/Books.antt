-- ===== src/Cdp/Books.antt =====
-- The books hold along the life of the engine, but for the actions named in `keeps_books`.
use decentral_bank.Prelude.{
  ◌⊎◌, not, Result-cases, ◌&&◌, ℕ, ◌≡◌, ◌∙◌, sym, Bool, true, false, some, Option-cases, Bool-cases,
  ok, inl, inr, String, arith, ◌==◌, if◌then◌else◌,
}
use decentral_bank.Chain.{Asset, Symbol, Context, Chain, IsChain}
use decentral_bank.Cdp.{Engine, Stat}
use decentral_bank.Cdp.Wallet
use decentral_bank.Cdp.Position.Actions.{draw-Adjusts, wipe-Adjusts, bail-Adjusts, lock-Adjusts}
use decentral_bank.Prelude.Int.{ℤ, pos, ◌+ℤ◌, +ℤ-zero, add_zero_eq}
use decentral_bank.Cdp.Position.Debt.{
  balance_after, find_type, IsBooked, Adjusts-IsBooked, open_cdp-IsBooked,
}
use decentral_bank.Cdp.Governance
use decentral_bank.Cdp.Governance.{Proposal}
use decentral_bank.Cdp.Oracle
use decentral_bank.Cdp.Dispatch.{Action, own_action, foreign_action, apply}

-- `shut`, `liquify` and `referended` are left out, and a proposal of the contract itself.
unfoldable pub keeps_books : ℕ → Action → Bool
keeps_books self (Action.shut owner symbl) = false
keeps_books self (Action.liquify bidder owner symbl bid) = false
keeps_books self (Action.propose proposer symbl p) = not (proposer == self)
keeps_books self (Action.referended proposer symbl) = false
keeps_books self a = true

module _ (E : Chain) where
  -- Positions and types are as they were.
  abbrev Leaves : Engine E → Engine E → Type 0
  Leaves s s' = (s'.cdps ≡ s.cdps) × (s'.stats ≡ s.stats)

  close-Leaves :
      (c : Context) (o y : ℕ) (s s' : Engine E) → Wallet.close E c o y s ≡ ok s' → Leaves s s'
  unfolding Wallet.close
  close-Leaves c o y s s' h = ground arith

  withdraw-Leaves :
      (c : Context) (o : ℕ) (q : Asset) (memo : String) (s s' : Engine E)
      → Wallet.withdraw E c o q memo s ≡ ok s'
      → Leaves s s'
  unfolding Wallet.withdraw Wallet.pay_out
  withdraw-Leaves c o q memo s s' h = ground arith

  deposit-Leaves :
      (c : Context) (from to : ℕ) (q : Asset) (memo : String) (s s' : Engine E)
      → Wallet.deposit E c from to q memo s ≡ ok s'
      → Leaves s s'
  unfolding Wallet.deposit
  deposit-Leaves c from to q memo s s' h = ground arith

  upfeed-Leaves :
      (c : Context) (f : ℕ) (price : Asset) (y : ℕ) (symbl : Symbol) (s s' : Engine E)
      → Oracle.upfeed E c f price y symbl s ≡ ok s'
      → Leaves s s'
  unfolding Oracle.upfeed
  upfeed-Leaves c f price y symbl s s' h = ground arith

  vote-Leaves :
      (c : Context) (v y : ℕ) (against : Bool) (q : Asset) (s s' : Engine E)
      → Governance.vote E c v y against q s ≡ ok s'
      → Leaves s s'
  unfolding Governance.vote
  vote-Leaves c v y against q s s' h = ground arith

module _ (E : Chain) (L : IsChain E) where
  open E use {find, store}

  -- Positions are as they were, and the enacted types read the same.
  IsBooked-same_types :
      (self : ℕ) (s s' : Engine E)
      → s'.cdps ≡ s.cdps
      → ((y : ℕ) → find s'.stats self y ≡ find s.stats self y)
      → IsBooked E self s
      → IsBooked E self s'
  IsBooked-same_types self s s' cdps stats b = record {
    debts = λ y st h. rw cdps (b.debts y st (sym (stats y) ∙ h));
    collaterals = λ y st h. rw cdps (b.collaterals y st (sym (stats y) ∙ h));
  }

  propose-written :
      (c : Context) (proposer symbl : ℕ) (p : Proposal) (s s' : Engine E)
      → Governance.propose E c proposer symbl p s ≡ ok s'
      → (s'.cdps ≡ s.cdps)
        × ((s'.stats ≡ s.stats)
            ⊎ ((draft : Stat) × (s'.stats ≡ store s.stats proposer symbl draft)))
  unfolding Governance.propose
  propose-written c proposer symbl p s s' h = elim (Bool-cases (p.tau == 0 && p.ttl == 0)) [
    | inl settlement ↦ (ground arith, inl (ground arith))
    | inr change ↦ elim (Result-cases (Governance.draft_stat E symbl p)) [
      | inr (message, e) ↦ absurd (ground arith)
      | inl (draft, e) ↦ (ground arith, inr (draft, ground arith))
    ]
  ]

  -- A draft stands in the scope of its proposer.
  propose-IsBooked :
      (c : Context) (proposer symbl : ℕ) (p : Proposal) (s s' : Engine E)
      → (proposer == c.self) ≡ false
      → Governance.propose E c proposer symbl p s ≡ ok s'
      → IsBooked E c.self s
      → IsBooked E c.self s'
  propose-IsBooked c proposer symbl p s s' other h =
      let (cdps, written) = propose-written c proposer symbl p s s' h in
      IsBooked-same_types c.self s s' cdps (λ y. elim written [
        | inl stats ↦ rw stats
        | inr (draft, stats) ↦
            ground (arith, stats, L.find-store Stat s.stats proposer symbl draft c.self y, other)
      ])

  Leaves-IsBooked :
      (self : ℕ) (s s' : Engine E) → Leaves E s s' → IsBooked E self s → IsBooked E self s'
  Leaves-IsBooked self s s' (cdps, stats) b = record {
    debts = λ y st h. rw cdps (b.debts y st (rw stats at h));
    collaterals = λ y st h. rw cdps (b.collaterals y st (rw stats at h));
  }

  no_change : (b : Bool) (x y : ℤ) → x +ℤ (if b then pos 0 else pos 0) ≡ y → x ≡ y
  no_change true x y h = sym (+ℤ-zero x) ∙ h
  no_change false x y h = sym (+ℤ-zero x) ∙ h

  -- A settlement writes the row of a type, and keeps its totals.
  settle-IsBooked :
      (c : Context) (f symbl : ℕ) (s s' : Engine E)
      → Oracle.settle E c f symbl s ≡ ok s'
      → IsBooked E c.self s
      → IsBooked E c.self s'
  unfolding Oracle.settle
  settle-IsBooked c f symbl s s' h b = elim (Option-cases (find s.stats c.self symbl)) [
    | inl e ↦ absurd (ground arith)
    | inr (row, e) ↦ settled_row row e (ground arith) (ground arith)
  ]
    where
      settled_row :
          (row : Stat)
          → find s.stats c.self symbl ≡ some row
          → s'.cdps ≡ s.cdps
          → s'.stats ≡ store s.stats c.self symbl (record row { live = false })
          → IsBooked E c.self s'
      settled_row row e cdps stats = record {
        debts = λ y st k. rw cdps (
            no_change (symbl == y) _ _ (
              balance_after E L s.stats c.self symbl y (λ r. r.total_stablecoin.amount) row
                (record row { live = false }) st _ (pos 0) (b.debts y) e (add_zero_eq _)
                (find_type E L s.stats c.self symbl y (record row { live = false }) st
                  (rw stats at k))));
        collaterals = λ y st k. rw cdps (
            no_change (symbl == y) _ _ (
              balance_after E L s.stats c.self symbl y (λ r. r.total_collateral.quantity.amount) row
                (record row { live = false }) st _ (pos 0) (b.collaterals y) e (add_zero_eq _)
                (find_type E L s.stats c.self symbl y (record row { live = false }) st
                  (rw stats at k))));
      }

  own_action-IsBooked :
      (c : Context) (a : Action) (s s' : Engine E)
      → keeps_books c.self a ≡ true
      → own_action E c a s ≡ ok s'
      → IsBooked E c.self s
      → IsBooked E c.self s'
  unfolding own_action keeps_books
  own_action-IsBooked c (Action.open_cdp o y p) s s' k h = open_cdp-IsBooked E L c o y p s s' h
  own_action-IsBooked c (Action.close o y) s s' k h =
      Leaves-IsBooked c.self s s' (close-Leaves E c o y s s' h)
  own_action-IsBooked c (Action.shut o y) s s' k h = cc
  own_action-IsBooked c (Action.lock o y q) s s' k h =
      Adjusts-IsBooked E L c o y _ _ s s' (lock-Adjusts E L c o y q s s' h)
  own_action-IsBooked c (Action.bail o y q) s s' k h =
      Adjusts-IsBooked E L c o y _ _ s s' (bail-Adjusts E L c o y q s s' h)
  own_action-IsBooked c (Action.draw o y q) s s' k h =
      Adjusts-IsBooked E L c o y _ _ s s' (draw-Adjusts E L c o y q s s' h)
  own_action-IsBooked c (Action.wipe o y q) s s' k h =
      Adjusts-IsBooked E L c o y _ _ s s' (wipe-Adjusts E L c o y q s s' h)
  own_action-IsBooked c (Action.settle f y) s s' k h = settle-IsBooked c f y s s' h
  own_action-IsBooked c (Action.vote v y against q) s s' k h =
      Leaves-IsBooked c.self s s' (vote-Leaves E c v y against q s s' h)
  own_action-IsBooked c (Action.propose p y a) s s' k h =
      propose-IsBooked c p y a s s' (ground (arith, k)) h
  own_action-IsBooked c (Action.referended p y) s s' k h = cc
  own_action-IsBooked c (Action.liquify b o y q) s s' k h = cc
  own_action-IsBooked c (Action.upfeed f price y symbl) s s' k h =
      Leaves-IsBooked c.self s s' (upfeed-Leaves E c f price y symbl s s' h)
  own_action-IsBooked c (Action.withdraw o q memo) s s' k h =
      Leaves-IsBooked c.self s s' (withdraw-Leaves E c o q memo s s' h)
  own_action-IsBooked c (Action.transfer from to q memo) s s' k h =
      Leaves-IsBooked c.self s s' (ground arith)
  own_action-IsBooked c Action.other s s' k h = Leaves-IsBooked c.self s s' (ground arith)

  foreign_action-Leaves :
      (c : Context) (a : Action) (s s' : Engine E) → foreign_action E c a s ≡ ok s' → Leaves E s s'
  unfolding foreign_action
  foreign_action-Leaves c (Action.transfer from to q memo) s s' h =
      deposit-Leaves E c from to q memo s s' h
  foreign_action-Leaves c a s s' h = ground arith

  -- A successful action, dispatched to the engine, keeps the books: where the recorded totals of debt
  -- and of collateral of every enacted cdp type are the sums over its positions before, they are so
  -- after. `shut`, `liquify`, `referended` and proposals of the contract itself are left out.
  pub apply-IsBooked :
      (c : Context) (a : Action) (s s' : Engine E)
      → keeps_books c.self a ≡ true
      → apply E c a s ≡ ok s'
      → IsBooked E c.self s
      → IsBooked E c.self s'
  unfolding apply
  apply-IsBooked c a s s' k h = elim (Bool-cases (c.code == c.self)) [
    | inl own ↦ own_action-IsBooked c a s s' k (rw own at h)
    | inr foreign ↦ Leaves-IsBooked c.self s s' (foreign_action-Leaves c a s s' (rw foreign at h))
  ]
