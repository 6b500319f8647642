-- ===== src/Cdp/Position/Debt.antt =====
-- The books of the CDP engine: the totals of a cdp type against the positions of that type.
use decentral_bank.Prelude.{
  ℕ, ◌≡◌, refl, ◌∙◌, sym, ap, subst, true, false, none, some, Option-cases, Bool-cases, ok, inl,
  inr, Bool, arith, ◌==◌, ==_refl, ==_iff, if◌then◌else◌,
}
use mathlib.Core.Option.{some-injective}
use decentral_bank.Prelude.Int.{ℤ, pos, ◌+ℤ◌, shift_term, add_under, add_zero_eq, +ℤ-zero}
use decentral_bank.Chain.{Asset, Context, Chain, IsChain}
use decentral_bank.Cdp.{Engine, Cdp, Stat}
use decentral_bank.Cdp.Position.{open_cdp}
use decentral_bank.Cdp.Position.Passed.{Adjusts}

-- A position's debt and collateral, where it is of the cdp type `y`.
abbrev pub debt_in : ℕ → ℕ → ℕ → Cdp → ℤ
debt_in y scope key it = if scope == y then it.stablecoin.amount else pos 0

abbrev pub collateral_in : ℕ → ℕ → ℕ → Cdp → ℤ
collateral_in y scope key it = if scope == y then it.collateral.amount else pos 0

-- For every enacted cdp type the recorded totals are the sums over its positions.
pub record IsBooked (E : Chain) (self : ℕ) (s : Engine E) : Type 0 where
  pub debts :
      (y : ℕ) (st : Stat)
      → E.find s.stats self y ≡ some st
      → E.weigh (debt_in y) s.cdps ≡ st.total_stablecoin.amount
  pub collaterals :
      (y : ℕ) (st : Stat)
      → E.find s.stats self y ≡ some st
      → E.weigh (collateral_in y) s.cdps ≡ st.total_collateral.quantity.amount

abbrev fresh : Context → ℕ → Asset → Asset → Cdp
fresh c owner coll debt = record {
  owner = owner;
  created = c.now;
  collateral = coll;
  stablecoin = debt;
  live = true;
}

if_same : (b : Bool) → (if b then pos 0 else pos 0) ≡ pos 0
if_same true = refl
if_same false = refl

module _ (E : Chain) (L : IsChain E) where
  open E use {find, store, weigh}

  -- A position of type `symbl` that gains `n` moves the sum of that type, and of no other.
  weigh-debt :
      (y symbl owner : ℕ) (t : E.Table Cdp) (it it' : Cdp) (n : ℤ)
      → find t symbl owner ≡ some it
      → it'.stablecoin.amount ≡ it.stablecoin.amount +ℤ n
      → weigh (debt_in y) (store t symbl owner it')
        ≡ weigh (debt_in y) t +ℤ (if symbl == y then n else pos 0)
  weigh-debt y symbl owner t it it' n found moved =
      shift_term _ _ _ _ _ (L.weigh-store Cdp (debt_in y) t symbl owner it')
        (rw found (add_under (symbl == y) _ _ n moved))

  weigh-collateral :
      (y symbl owner : ℕ) (t : E.Table Cdp) (it it' : Cdp) (n : ℤ)
      → find t symbl owner ≡ some it
      → it'.collateral.amount ≡ it.collateral.amount +ℤ n
      → weigh (collateral_in y) (store t symbl owner it')
        ≡ weigh (collateral_in y) t +ℤ (if symbl == y then n else pos 0)
  weigh-collateral y symbl owner t it it' n found moved =
      shift_term _ _ _ _ _ (L.weigh-store Cdp (collateral_in y) t symbl owner it')
        (rw found (add_under (symbl == y) _ _ n moved))

  -- The row of a type after the row of the type `symbl` was written.
  pub find_type :
      (t : E.Table Stat) (self symbl y : ℕ) (st' st : Stat)
      → find (store t self symbl st') self y ≡ some st
      → (if symbl == y then some st' else find t self y) ≡ some st
  find_type t self symbl y st' st h =
      ground (arith, L.find-store Stat t self symbl st' self y, ==_refl self)

  -- A sum and a total of type `symbl` that both gain `n`.
  pub balance_after :
      (t : E.Table Stat) (self symbl y : ℕ) (amount : Stat → ℤ) (st st' found : Stat) (x n : ℤ)
      → ((st₀ : Stat) → find t self y ≡ some st₀ → x ≡ amount st₀)
      → find t self symbl ≡ some st
      → amount st' ≡ amount st +ℤ n
      → (if symbl == y then some st' else find t self y) ≡ some found
      → x +ℤ (if symbl == y then n else pos 0) ≡ amount found
  balance_after t self symbl y amount st st' found x n booked typed raised h =
      elim (Bool-cases (symbl == y)) [
        | inl hit ↦
            let here = subst (λ k. find t self k ≡ some st) ((==_iff symbl y).0 hit) typed in
            rw hit (
              ap (λ z. z +ℤ n) (booked st here)
              ∙ sym raised
              ∙ ap amount (some-injective st' found (rw hit at h)))
        | inr miss ↦ rw miss (+ℤ-zero x ∙ booked found (rw miss at h))
      ]

  pub Adjusts-IsBooked :
      (c : Context) (owner symbl : ℕ) (n m : ℤ) (s s' : Engine E)
      → Adjusts E c owner symbl n m s s'
      → IsBooked E c.self s
      → IsBooked E c.self s'
  Adjusts-IsBooked c owner symbl n m s s' a b = record {
    debts = λ y st h.
        rw (a.cdps, weigh-debt y symbl owner s.cdps a.it a.it' n a.owned a.debt)
          (balance_after s.stats c.self symbl y (λ r. r.total_stablecoin.amount) a.st a.st' st _ n
            (b.debts y) a.typed a.total_debt
            (find_type s.stats c.self symbl y a.st' st (rw a.stats at h)));
    collaterals = λ y st h.
        rw (a.cdps, weigh-collateral y symbl owner s.cdps a.it a.it' m a.owned a.locked)
          (balance_after s.stats c.self symbl y (λ r. r.total_collateral.quantity.amount) a.st a.st'
            st _ m (b.collaterals y) a.typed a.total_locked
            (find_type s.stats c.self symbl y a.st' st (rw a.stats at h)));
  }

  -- A new row without weight moves no sum.
  booked_new :
      (w : ℕ → ℕ → Cdp → ℤ) (it : Cdp) (symbl owner : ℕ) (t t' : E.Table Cdp) (total : ℤ)
      → w symbl owner it ≡ pos 0
      → find t symbl owner ≡ none
      → t' ≡ store t symbl owner it
      → weigh w t ≡ total
      → weigh w t' ≡ total
  booked_new w it symbl owner t t' total nothing new e booked = rw e (
      shift_term _ _ (pos 0) (w symbl owner it) (pos 0)
        (rw new at (L.weigh-store Cdp w t symbl owner it)) (nothing ∙ add_zero_eq (pos 0))
      ∙ +ℤ-zero _
      ∙ booked)

  -- A new position owes nothing and holds nothing.
  pub open_cdp-IsBooked :
      (c : Context) (owner symbl payer : ℕ) (s s' : Engine E)
      → open_cdp E c owner symbl payer s ≡ ok s'
      → IsBooked E c.self s
      → IsBooked E c.self s'
  unfolding open_cdp
  open_cdp-IsBooked c owner symbl payer s s' h b = elim (Option-cases (find s.stats c.self symbl)) [
    | inl e₁ ↦ absurd (ground arith)
    | inr (row, e₁) ↦
        elim (Option-cases (find s.feeds c.self row.total_collateral.quantity.symbol.code)) [
          | inl e₂ ↦ absurd (ground arith)
          | inr (feed, e₂) ↦
              elim (Option-cases (E.make_asset (pos 0) row.total_collateral.quantity.symbol)) [
                | inl e₄ ↦ absurd (ground arith)
                | inr (coll, e₄) ↦
                    elim (Option-cases (E.make_asset (pos 0) row.total_stablecoin.symbol)) [
                      | inl e₅ ↦ absurd (ground arith)
                      | inr (debt, e₅) ↦ elim (Option-cases (find s.cdps symbl owner)) [
                        | inr (taken, e₃) ↦ absurd (ground arith)
                        | inl e₃ ↦ record {
                          debts = λ y st f.
                              booked_new (debt_in y) (fresh c owner coll debt) symbl owner s.cdps _
                                _ (rw ((L.make_asset_some _ _ debt e₅).0) (if_same (symbl == y))) e₃
                                (ground arith) (b.debts y st (ground arith));
                          collaterals = λ y st f.
                              booked_new (collateral_in y) (fresh c owner coll debt) symbl owner
                                s.cdps _ _
                                (rw ((L.make_asset_some _ _ coll e₄).0) (if_same (symbl == y))) e₃
                                (ground arith) (b.collaterals y st (ground arith));
                        }
                      ]
                    ]
              ]
        ]
  ]
