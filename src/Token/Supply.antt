-- ===== src/Token/Supply.antt =====
-- The supply of a token is the sum of its balances, and stays below its maximum.
use decentral_bank.Prelude.{
  ℕ, ◌≡◌, refl, ap, subst, ◌∙◌, Bool, true, false, Bool-cases, Option, none, some, inl, inr, String,
  arith, ◌==◌, ==_iff, if◌then◌else◌, Result, ok, true,
}
use decentral_bank.Prelude.Int.{ℤ, pos, ◌+ℤ◌, ◌-ℤ◌, ◌≤ℤ◌, int_laws, leb_ℤ, +ℤ-zero, -ℤ-zero}
use decentral_bank.Prelude.Word.{sub_i64, sub_i64-narrow}
use decentral_bank.Chain.{Symbol, Asset, Context, Chain, IsChain, InRange}
use decentral_bank.Token.{Account, CurrencyStats, Contract, create, issue, transfer}
use decentral_bank.Token.Eosio
use decentral_bank.Token.Iq
use decentral_bank.Token.Balances.{sub_keeping, sub_erasing}
use decentral_bank.Token.Passed.{
  create-ok, issue-ok, transfer-ok, Reduced, retire-ok, burn-ok, open_balance-ok, close_balance-ok,
}
use decentral_bank.Token.Ledger.{
  total, Debits, add_balance-total, total-store, total-erase, sub_keeping-Debits,
  sub_erasing-Debits,
}

abbrev pub amount_issued : Option CurrencyStats → ℤ
amount_issued none = pos 0
amount_issued (some st) = st.supply.amount

abbrev pub IsBounded : ℕ → Option CurrencyStats → Type 0
IsBounded c none = Unit {0}
IsBounded c (some st) =
    (st.supply.amount ≤ℤ st.max_supply.amount)
    × InRange st.supply.amount
    × InRange st.max_supply.amount
    × (st.supply.symbol.code ≡ c)

-- For every symbol code, all balances add up to the supply, which the maximum bounds.
pub record IsSolvent (E : Chain) (s : Contract E) : Type 0 where
  pub backed : (c : ℕ) → total E c s.accounts ≡ amount_issued (E.find s.stat c c)
  pub bounded : (c : ℕ) → IsBounded c (E.find s.stat c c)

-- The room that `issue` tests for is the true difference.
room :
    (max supply q : ℤ)
    → InRange max
    → InRange supply
    → leb_ℤ q (sub_i64 max supply) ≡ true
    → supply +ℤ q ≤ℤ max
room max supply q m n h =
    let e = sub_i64-narrow max supply m.0 m.1 n.0 n.1 in
    let fits : leb_ℤ q (max -ℤ supply) ≡ true = rw e at h in
    let le : q ≤ℤ max -ℤ supply = ground arith in omega (int_laws, le)

no_change : (x : ℤ) (b : Bool) → x +ℤ (if b then pos 0 else pos 0) ≡ x
no_change x true = +ℤ-zero x
no_change x false = +ℤ-zero x

no_change_less : (x : ℤ) (b : Bool) → x -ℤ (if b then pos 0 else pos 0) ≡ x
no_change_less x true = -ℤ-zero x
no_change_less x false = -ℤ-zero x

refl_zero : pos 0 ≡ pos 0 +ℤ pos 0
unfolding ◌+ℤ◌
refl_zero = refl

put_back : (x a : ℤ) → x -ℤ a +ℤ a ≡ x
put_back x a = omega int_laws

module _ (E : Chain) (L : IsChain E) where
  open E use {Table, find, store}

  -- The row of `stat` is all that changes, at its symbol code.
  find_stat :
      (t : Table CurrencyStats) (k : ℕ) (st : CurrencyStats) (c : ℕ)
      → find (store t k k st) c c ≡ (if k == c then some st else find t c c)
  find_stat t k st c = ground (arith, L.find-store CurrencyStats t k k st c c)

  -- What a state with a new row of `stat` and new accounts has to show.
  pub IsSolvent-after :
      (s s' : Contract E) (k : ℕ) (st : CurrencyStats)
      → s'.stat ≡ store s.stat k k st
      → IsBounded k (some st)
      → ((c : ℕ)
          → total E c s'.accounts
            ≡ (if k == c then st.supply.amount else amount_issued (find s.stat c c)))
      → IsSolvent E s
      → IsSolvent E s'
  IsSolvent-after s s' k st e bound sums v = record {
    backed = λ c.
        rw (e, find_stat)
          (elim (Bool-cases (k == c)) [
            | inl hit ↦ rw hit (sums c ∙ rw hit)
            | inr miss ↦ rw miss (sums c ∙ rw miss)
          ]);
    bounded = λ c.
        rw (e, find_stat)
          (elim (Bool-cases (k == c)) [
            | inl hit ↦ rw hit (subst (λ c'. IsBounded c' (some st)) ((==_iff k c).0 hit) bound)
            | inr miss ↦ rw miss (v.bounded c)
          ]);
  }

  -- A payment between accounts leaves every sum alone.
  pub IsSolvent-moved :
      (s s' : Contract E)
      → s'.stat ≡ s.stat
      → ((c : ℕ) → total E c s'.accounts ≡ total E c s.accounts)
      → IsSolvent E s
      → IsSolvent E s'
  IsSolvent-moved s s' e sums v = record {
    backed = λ c. rw e (sums c ∙ v.backed c);
    bounded = λ c. rw e (v.bounded c);
  }

  pub create-IsSolvent :
      (c : Context) (issuer : ℕ) (m : Asset) (s s' : Contract E)
      → create E c issuer m s ≡ ok s'
      → IsSolvent E s
      → IsSolvent E s'
  create-IsSolvent c issuer m s s' h v =
      let (valid, positive, fresh, accounts, stat) = create-ok E c issuer m s s' h in
      IsSolvent-after s s' m.symbol.code _ stat
        (omega arith, omega arith, L.asset_valid_InRange m valid, refl)
        (λ k. elim (Bool-cases (m.symbol.code == k)) [
          | inl hit ↦ rw (hit, accounts) (v.backed k ∙ ground (arith, fresh))
          | inr miss ↦ rw (miss, accounts) (v.backed k)
        ])
        v

  -- A sum that moves with the supply of its symbol, and only there.
  issued_more :
      (t : Table CurrencyStats) (key k : ℕ) (st : CurrencyStats) (n supply x x' : ℤ)
      → find t key key ≡ some st
      → x ≡ amount_issued (find t k k)
      → supply ≡ st.supply.amount +ℤ n
      → x' ≡ x +ℤ (if key == k then n else pos 0)
      → x' ≡ (if key == k then supply else amount_issued (find t k k))
  issued_more t key k st n supply x x' found backed raised moved = elim (Bool-cases (key == k)) [
    | inl hit ↦ ground arith
    | inr miss ↦ rw miss (rw miss at moved ∙ +ℤ-zero x ∙ backed)
  ]

  issued_less :
      (t : Table CurrencyStats) (key k : ℕ) (st : CurrencyStats) (n supply x x' : ℤ)
      → find t key key ≡ some st
      → x ≡ amount_issued (find t k k)
      → supply ≡ st.supply.amount -ℤ n
      → x' ≡ x -ℤ (if key == k then n else pos 0)
      → x' ≡ (if key == k then supply else amount_issued (find t k k))
  issued_less t key k st n supply x x' found backed lowered moved = elim (Bool-cases (key == k)) [
    | inl hit ↦ ground arith
    | inr miss ↦ rw miss (rw miss at moved ∙ -ℤ-zero x ∙ backed)
  ]

  pub issue-IsSolvent :
      (c : Context) (to : ℕ) (q : Asset) (memo : String) (s s' : Contract E)
      → issue E c to q memo s ≡ ok s'
      → IsSolvent E s
      → IsSolvent E s'
  issue-IsSolvent c to q memo s s' h v =
      let i = issue-ok E c to q memo s s' h in
      let b : IsBounded q.symbol.code (some i.st) =
        subst (IsBounded q.symbol.code) i.found (v.bounded q.symbol.code) in
      let (e, y, _, r) = L.plus_some i.st.supply q i.supply i.summed in
      IsSolvent-after s s' q.symbol.code _ i.written
        (rw e (room _ _ _ b.2 b.1 i.fits), r, b.2, ap Symbol.code y ∙ b.3)
        (λ k.
          issued_more s.stat q.symbol.code k i.st q.amount _ _ _ i.found (v.backed k) e
            (add_balance-total E L i.st.issuer q s.accounts s'.accounts k i.credited))
        v

  -- An action that takes from a balance and from the supply alike.
  pub Reduced-IsSolvent :
      (sub_balance : ℕ → Asset → Table Account → Result (Table Account))
      → Debits E sub_balance
      → (owner : ℕ) (q : Asset) (s s' : Contract E) → Reduced E sub_balance owner q s s'
      → IsSolvent E s
      → IsSolvent E s'
  Reduced-IsSolvent sub_balance debits owner q s s' i v =
      let b : IsBounded q.symbol.code (some i.st) =
        subst (IsBounded q.symbol.code) i.found (v.bounded q.symbol.code) in
      let (e, y, _, r) = L.minus_some i.st.supply q i.supply i.lowered in
      IsSolvent-after s s' q.symbol.code _ i.written
        (rw e (omega (int_laws, b.0, i.positive)), r, b.2, ap Symbol.code y ∙ b.3)
        (λ k.
          issued_less s.stat q.symbol.code k i.st q.amount _ _ _ i.found (v.backed k) e
            (debits owner q s.accounts s'.accounts k i.taken))
        v

  pub transfer-IsSolvent :
      (sub_balance : ℕ → Asset → Table Account → Result (Table Account))
      → Debits E sub_balance
      → (c : Context) (from to : ℕ) (q : Asset) (memo : String) (s s' : Contract E)
      → transfer E sub_balance c from to q memo s ≡ ok s'
      → IsSolvent E s
      → IsSolvent E s'
  transfer-IsSolvent sub_balance debits c from to q memo s s' h v =
      let m = transfer-ok E sub_balance c from to q memo s s' h in
      IsSolvent-moved s s' m.kept
        (λ k.
          add_balance-total E L to q m.debited s'.accounts k m.credited
          ∙ rw (debits from q s.accounts m.debited k m.taken) (put_back _ _))
        v

  pub retire-IsSolvent :
      (c : Context) (q : Asset) (memo : String) (s s' : Contract E)
      → Eosio.retire E c q memo s ≡ ok s'
      → IsSolvent E s
      → IsSolvent E s'
  unfolding Eosio.sub_balance
  retire-IsSolvent c q memo s s' h v =
      let (issuer, _, r) = retire-ok E c q memo s s' h in
      Reduced-IsSolvent (sub_keeping E) (sub_keeping-Debits E L) issuer q s s' r v

  pub burn-IsSolvent :
      (c : Context) (from : ℕ) (q : Asset) (memo : String) (s s' : Contract E)
      → Iq.burn E c from q memo s ≡ ok s'
      → IsSolvent E s
      → IsSolvent E s'
  unfolding Iq.sub_balance
  burn-IsSolvent c from q memo s s' h v =
      let (_, r) = burn-ok E c from q memo s s' h in
      Reduced-IsSolvent (sub_erasing E) (sub_erasing-Debits E L) from q s s' r v

  pub open_balance-IsSolvent :
      (c : Context) (owner : ℕ) (y : Symbol) (payer : ℕ) (s s' : Contract E)
      → Eosio.open_balance E c owner y payer s ≡ ok s'
      → IsSolvent E s
      → IsSolvent E s'
  open_balance-IsSolvent c owner y payer s s' h v =
      let (stat, rest) = open_balance-ok E c owner y payer s s' h in
      IsSolvent-moved s s' stat
        (λ k. elim rest [
          | inl same ↦ rw same
          | inr (z, none_yet, made, stored) ↦ rw stored (
              total-store E L k owner y.code s.accounts (record { balance = z }) (pos 0)
                (rw none_yet ((L.make_asset_some (pos 0) y z made).0 ∙ refl_zero))
              ∙ no_change _ (y.code == k))
        ])
        v

  pub close_balance-IsSolvent :
      (c : Context) (owner : ℕ) (y : Symbol) (s s' : Contract E)
      → Eosio.close_balance E c owner y s ≡ ok s'
      → IsSolvent E s
      → IsSolvent E s'
  close_balance-IsSolvent c owner y s s' h v =
      let (a, found, nothing, stat, erased) = close_balance-ok E c owner y s s' h in
      IsSolvent-moved s s' stat
        (λ k. rw erased (
          total-erase E L k owner y.code s.accounts
          ∙ rw (found, nothing) (no_change_less _ (y.code == k))))
        v
