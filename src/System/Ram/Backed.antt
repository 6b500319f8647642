-- ===== src/System/Ram/Backed.antt =====
-- The RAM that the market holds against the RAM that is reserved, and the size of RAM.
use decentral_bank.Prelude.{
  ℕ, leb, ◌%◌, ◌≡◌, refl, some, ok, Result-cases, Bool-cases, or_abort, bind-ok, or_abort-ok, inl,
  inr, ap, sym, subst, ◌∙◌, arith,
}
use decentral_bank.Prelude.Int.{ℤ, pos}
use decentral_bank.Prelude.Word.{
  mul_u32, sub_u32, add_i64, sub_i64, add_u64, sub_u64, to_u64, to_i64, u64_mod,
}
use decentral_bank.Prelude.Word.Modular.{to_u64-to_i64, to_u64-add_i64, to_u64-sub_i64}
use decentral_bank.Chain.{Chain, IsChain}
use decentral_bank.Chain.Double.{Float}
use decentral_bank.System.{System, Moment, ExchangeState, GlobalState, ramcore_key, ram_symbol}
use decentral_bank.System.Exchange.Trades.{AreDistinct}
use decentral_bank.System.Ram.{grow_market, setram, update_ram_supply}

-- A balance of the market and the reserved bytes add up to the size.
abbrev pub AddsUp : ℤ → ℕ → ℕ → Type 0
AddsUp base reserved size = add_u64 (to_u64 base) reserved ≡ size % u64_mod

grown-AddsUp : (b : ℤ) (r m n : ℕ) → AddsUp b r m → AddsUp (add_i64 b (pos n)) r (add_u64 m n)
unfolding add_u64 to_u64
grown-AddsUp b r m n h = omega (arith, to_u64-add_i64 b (pos n))

raised-AddsUp :
    (b : ℤ) (r m n : ℕ) → AddsUp b r m → AddsUp (add_i64 b (sub_i64 (to_i64 n) (to_i64 m))) r n
unfolding add_u64 sub_u64
raised-AddsUp b r m n h = omega (
  arith,
  to_u64-add_i64 b (sub_i64 (to_i64 n) (to_i64 m)),
  to_u64-sub_i64 (to_i64 n) (to_i64 m),
  to_u64-to_i64 n,
  to_u64-to_i64 m,
)

pub bought-AddsUp :
    (b n : ℤ) (r m : ℕ) → AddsUp b r m → AddsUp (sub_i64 b n) (add_u64 r (to_u64 n)) m
unfolding add_u64 sub_u64
bought-AddsUp b n r m h = omega (arith, to_u64-sub_i64 b n)

pub sold-AddsUp : (b n : ℤ) (r m : ℕ) → AddsUp b r m → AddsUp (add_i64 b n) (sub_u64 r (to_u64 n)) m
unfolding add_u64 sub_u64
sold-AddsUp b n r m h = omega (arith, to_u64-add_i64 b n)

pub opened-AddsUp : (r m : ℕ) → AddsUp (to_i64 (sub_u64 m r)) r m
unfolding add_u64 sub_u64
opened-AddsUp r m = omega (arith, to_u64-to_i64 (sub_u64 m r))

pub AddsUp-eq :
    (b b' : ℤ) (r r' m m' : ℕ) → AddsUp b r m → b' ≡ b → r' ≡ r → m' ≡ m → AddsUp b' r' m'
AddsUp-eq b b' r r' m m' h i j k = cc

module _ (E : Chain) (F : Float) where
  open E use {find}

  -- A market that sells RAM, and holds what is not reserved.
  abbrev pub Backs : ExchangeState F → GlobalState F → Type 0
  Backs m g =
      AreDistinct F m
      × (m.base.balance.symbol ≡ ram_symbol)
      × AddsUp m.base.balance.amount g.total_ram_bytes_reserved g.max_ram_size

  -- Of a state: its market, if there is one, is such.
  abbrev pub IsBacked : ℕ → System E F → Type 0
  IsBacked self s =
      (m : ExchangeState F) → find s.rammarket self ramcore_key ≡ some m → Backs m s.global

module _ (E : Chain) (L : IsChain E) (F : Float) where
  open E use {find, store}

  pub stored-IsBacked :
      (self : ℕ) (m : ExchangeState F) (t : E.Table (ExchangeState F)) (s' : System E F)
      → s'.rammarket ≡ store t self ramcore_key m
      → Backs E F m s'.global
      → IsBacked E F self s'
  stored-IsBacked self m t s' h b n found =
      let written = L.find-store (ExchangeState F) t self ramcore_key m self ramcore_key in
      subst (λ x. Backs E F x s'.global) (ground (arith, ap (λ u. find u self ramcore_key) h)) b

  pub kept-IsBacked :
      (self : ℕ) (s s' : System E F)
      → IsBacked E F self s
      → s'.rammarket ≡ s.rammarket
      → s'.global.total_ram_bytes_reserved ≡ s.global.total_ram_bytes_reserved
      → s'.global.max_ram_size ≡ s.global.max_ram_size
      → IsBacked E F self s'
  kept-IsBacked self s s' b h k l m found =
      let (distinct, symbol, sum) = b m (ap (λ t. find t self ramcore_key) (sym h) ∙ found) in
      (distinct, symbol, ground arith)

  -- The market grows with the size.
  grow_market-ok :
      (self : ℕ) (delta : ℤ) (s s' : System E F)
      → grow_market E F self delta s ≡ ok s'
      → (m : ExchangeState F) × (m' : ExchangeState F) × (find s.rammarket self ramcore_key
          ≡ some m)
        × (s' ≡ record s { rammarket = store s.rammarket self ramcore_key m' })
        × (m'.base.balance.amount ≡ add_i64 m.base.balance.amount delta)
        × (m'.base.balance.symbol ≡ m.base.balance.symbol)
        × (m'.supply ≡ m.supply)
        × (m'.quote ≡ m.quote)
  unfolding grow_market
  grow_market-ok self delta s s' h =
      let (m, found, e) = bind-ok (or_abort (find s.rammarket self ramcore_key) _) _ _ h in
      let m' = record m {
        base = record m.base {
          balance = record {
            amount = add_i64 m.base.balance.amount delta;
            symbol = m.base.balance.symbol;
          };
        };
      } in
      (m, m', or_abort-ok _ _ m found, ground arith, refl, refl, refl, refl)

  pub moved-Backs :
      (m m' : ExchangeState F) (g g' : GlobalState F)
      → Backs E F m g
      → m'.supply.symbol ≡ m.supply.symbol
      → m'.base.balance.symbol ≡ m.base.balance.symbol
      → m'.quote.balance.symbol ≡ m.quote.balance.symbol
      → AddsUp m'.base.balance.amount g'.total_ram_bytes_reserved g'.max_ram_size
      → Backs E F m' g'
  moved-Backs m m' g g' (d, symbol, _) h k l sum = (
    record {
      supply_base = λ e. d.supply_base (ground arith);
      supply_quote = λ e. d.supply_quote (ground arith);
      base_quote = λ e. d.base_quote (ground arith);
    },
    ground arith,
    sum,
  )

  grow_market-IsBacked :
      (self : ℕ) (delta : ℤ) (n : ℕ) (s t s' : System E F)
      → IsBacked E F self s
      → ((b : ℤ) (r : ℕ) → AddsUp b r s.global.max_ram_size → AddsUp (add_i64 b delta) r n)
      → grow_market E F self delta s ≡ ok t
      → s'.rammarket ≡ t.rammarket
      → s'.global.total_ram_bytes_reserved ≡ s.global.total_ram_bytes_reserved
      → s'.global.max_ram_size ≡ n
      → IsBacked E F self s'
  grow_market-IsBacked self delta n s t s' b f h i j k =
      let (m, m', found, grown, amount, x, y, z) = grow_market-ok self delta s t h in
      let backs = b m found in
      stored-IsBacked self m' s.rammarket s' (ground arith) (
        moved-Backs m m' s.global s'.global backs (ground arith) x (ground arith)
          (AddsUp-eq _ _ _ _ _ _ (f _ _ backs.2) amount j k))

  -- Where the RAM that the market holds and the RAM that is reserved add up to the size of RAM
  -- modulo 2 ^ 64, in a market whose three symbols are different and whose base is RAM, they still
  -- do after a successful change of the size.
  pub setram-IsBacked :
      (c : Moment) (n : ℕ) (s s' : System E F)
      → IsBacked E F c.at.self s
      → setram E F c n s ≡ ok s'
      → IsBacked E F c.at.self s'
  unfolding setram
  setram-IsBacked c n s s' b h =
      let delta = sub_i64 (to_i64 n) (to_i64 s.global.max_ram_size) in
      elim (Result-cases (grow_market E F c.at.self delta s)) [
        | inr (message, e) ↦ absurd (ground arith)
        | inl (t, e) ↦
            let (m, m', found, grown, _, _, _, _) = grow_market-ok c.at.self delta s t e in
            grow_market-IsBacked c.at.self delta n s t s' b
              (λ x r. raised-AddsUp x r s.global.max_ram_size n) e (ground arith) (ground arith)
              (ground arith)
      ]

  pub update_ram_supply-IsBacked :
      (c : Moment) (s s' : System E F)
      → IsBacked E F c.at.self s
      → update_ram_supply E F c s ≡ ok s'
      → IsBacked E F c.at.self s'
  unfolding update_ram_supply
  update_ram_supply-IsBacked c s s' b h =
      let new_ram =
        mul_u32 (sub_u32 c.slot s.global.last_ram_increase) s.global.new_ram_per_block in
      elim (Result-cases (grow_market E F c.at.self (pos new_ram) s)) [
        | inr (message, e) ↦
            kept-IsBacked c.at.self s s' b (ground arith) (ground arith) (ground arith)
        | inl (t, e) ↦ elim (Bool-cases (leb c.slot s.global.last_ram_increase)) [
          | inl early ↦ kept-IsBacked c.at.self s s' b (ground arith) (ground arith) (ground arith)
          | inr late ↦
              let (m, m', found, grown, _, _, _, _) =
                grow_market-ok c.at.self (pos new_ram) s t e in
              grow_market-IsBacked c.at.self (pos new_ram) (add_u64 s.global.max_ram_size new_ram) s
                t s' b (λ x r. grown-AddsUp x r s.global.max_ram_size new_ram) e (ground arith)
                (ground arith) (ground arith)
        ]
      ]
