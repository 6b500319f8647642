-- ===== src/System/Ram/Trading.antt =====
-- The actions that sell and buy RAM, and the balance of the market (delegate_bandwidth.cpp).
use decentral_bank.Prelude.{
  ℕ, ◌≡◌, ◌≢◌, refl, true, false, some, none, ok, Result-cases, bind-ok, check-ok, bind_then,
  ok_injective, check_then, or_abort-ok, or_abort, inl, inr, ap, sym, subst, ◌∙◌, arith, ◌==◌,
}
use decentral_bank.Prelude.Int.{ℤ, pos, ltb_ℤ, leb_ℤ}
use decentral_bank.Prelude.Word.{add_i64, sub_i64, add_u64, sub_u64, to_u64}
use decentral_bank.Chain.{Symbol, Asset, Chain, IsChain}
use decentral_bank.Chain.Double.{Float}
use decentral_bank.Token.{CurrencyStats}
use decentral_bank.System.{
  System, Moment, ExchangeState, ramcore_key, ram_symbol, ramcore_symbol, asset, core_symbol,
}
use decentral_bank.System.Exchange.{convert}
use decentral_bank.System.Exchange.Symbols.{asset-ok}
use decentral_bank.System.Exchange.Trades.{buys-Exchanges, sells-Exchanges}
use decentral_bank.System.Ram.{
  opening_market, init, trade, ram_row, add_ram, pay_for_ram, pay_seller, ram_fee, buyram, sellram,
  update_ram_supply,
}
use decentral_bank.System.Ram.Backed.{
  AddsUp-eq, bought-AddsUp, sold-AddsUp, opened-AddsUp, IsBacked, stored-IsBacked, moved-Backs,
  update_ram_supply-IsBacked,
}

module _ (E : Chain) (L : IsChain E) (F : Float) where
  open E use {find, store}

  trade-ok :
      (self : ℕ) (paid got : Asset) (to : Symbol) (s s' : System E F)
      → trade E F self paid to s ≡ ok (got, s')
      → (m : ExchangeState F) × (m' : ExchangeState F) × (find s.rammarket self ramcore_key
          ≡ some m)
        × (convert E F paid to m ≡ ok (got, m'))
        × (s' ≡ record s { rammarket = store s.rammarket self ramcore_key m' })
  unfolding trade
  trade-ok self paid got to s s' h =
      let (m, found, k) = bind-ok (or_abort (find s.rammarket self ramcore_key) _) _ _ h in
      let ((got', m'), converted, l) = bind-ok (convert E F paid to m) _ _ k in
      (m, m', or_abort-ok _ _ m found, ground arith, ground arith)

  core_symbol-ok :
      (self : ℕ) (s : System E F) (core : Symbol) (m : ExchangeState F)
      → core_symbol E F self s ≡ ok core
      → find s.rammarket self ramcore_key ≡ some m
      → core ≡ m.quote.balance.symbol
  unfolding core_symbol
  core_symbol-ok self s core m h found = ground arith

  add_ram-keeps :
      (self receiver : ℕ) (bytes : ℤ) (s s' : System E F)
      → add_ram E F self receiver bytes s ≡ ok s'
      → (s'.rammarket ≡ s.rammarket) × (s'.global ≡ s.global)
  unfolding add_ram
  add_ram-keeps self receiver bytes s s' h =
      let (res, e, k) = bind-ok (ram_row E F self receiver bytes s) _ _ h in
      (ground arith, ground arith)

  pay_for_ram-keeps :
      (payer : ℕ) (q fee : Asset) (s : System E F)
      → ((pay_for_ram E F payer q fee s).rammarket ≡ s.rammarket)
        × ((pay_for_ram E F payer q fee s).global ≡ s.global)
  unfolding pay_for_ram
  pay_for_ram-keeps payer q fee s = (ground arith, ground arith)

  -- Where the RAM that the market holds and the RAM that is reserved add up to the size of RAM
  -- modulo 2 ^ 64, in a market whose three symbols are different and whose base is RAM, they still
  -- do after a purchase of RAM that succeeds.
  pub buyram-IsBacked :
      (c : Moment) (payer receiver : ℕ) (quant : Asset) (s s' : System E F)
      → IsBacked E F c.at.self s
      → buyram E F c payer receiver quant s ≡ ok s'
      → IsBacked E F c.at.self s'
  unfolding buyram
  buyram-IsBacked c payer receiver quant s s' b h =
      let (_, h₁) = check-ok (c.at.has_auth payer) _ _ _ h in
      let (t, supplied, h₂) = bind-ok (update_ram_supply E F c s) _ _ h₁ in
      let (core, cored, h₃) = bind-ok (core_symbol E F c.at.self t) _ _ h₂ in
      let (paid_core, h₄) = check-ok (E.same_symbol quant.symbol core) _ _ _ h₃ in
      let (_, h₅) = check-ok (ltb_ℤ (pos 0) quant.amount) _ _ _ h₄ in
      let ((bytes, t₁), traded, h₆) = bind-ok (trade E F c.at.self _ ram_symbol _) _ _ h₅ in
      let (_, h₇) = check-ok (ltb_ℤ (pos 0) bytes.amount) _ _ _ h₆ in
      let (m, m', found, converted, written) = trade-ok c.at.self _ bytes ram_symbol _ t₁ traded in
      let (market, global) = pay_for_ram-keeps payer _ _ t in
      let here = ap (λ x. find x c.at.self ramcore_key) (sym market) ∙ found in
      let (distinct, symbol, sum) = update_ram_supply-IsBacked E L F c s t b supplied m here in
      let core_is = core_symbol-ok c.at.self t core m cored here in
      let (_, x) =
        buys-Exchanges E L F _ bytes ram_symbol m m' distinct
          ((L.same_symbol_iff quant.symbol core).0 paid_core ∙ core_is) (sym symbol) converted in
      let (k₁, k₂) = add_ram-keeps c.at.self receiver bytes.amount _ s' h₇ in
      stored-IsBacked E L F c.at.self m' _ s' (k₁ ∙ ap (λ u. u.rammarket) written) (
        moved-Backs E L F m m' t.global s'.global (distinct, symbol, sum)
          (ap (λ u. u.symbol) x.supply) (ap (λ u. u.symbol) x.given) (ap (λ u. u.symbol) x.taken)
          (AddsUp-eq _ _ _ _ _ _
            (bought-AddsUp m.base.balance.amount bytes.amount t.global.total_ram_bytes_reserved
              t.global.max_ram_size sum)
            (ap (λ u. u.amount) x.given)
            (ap (λ g. g.total_ram_bytes_reserved) k₂
              ∙ ap (λ u. add_u64 u.global.total_ram_bytes_reserved (to_u64 bytes.amount)) written
              ∙ ap (λ g. add_u64 g.total_ram_bytes_reserved (to_u64 bytes.amount)) global)
            (ap (λ g. g.max_ram_size) k₂
              ∙ ap (λ u. u.global.max_ram_size) written
              ∙ ap (λ g. g.max_ram_size) global)))

  pay_seller-keeps :
      (account : ℕ) (core : Symbol) (q : Asset) (s s' : System E F)
      → pay_seller E F account core q s ≡ ok s'
      → (s'.rammarket ≡ s.rammarket) × (s'.global ≡ s.global)
  unfolding pay_seller
  pay_seller-keeps account core q s s' h = elim (Result-cases (asset E F (ram_fee q.amount) core)) [
    | inl (fee, e) ↦ (ground arith, ground arith)
    | inr (message, e) ↦ (ground arith, ground arith)
  ]

  -- Where the RAM that the market holds and the RAM that is reserved add up to the size of RAM
  -- modulo 2 ^ 64, in a market whose three symbols are different and whose base is RAM, they still
  -- do after a sale of RAM that succeeds.
  pub sellram-IsBacked :
      (c : Moment) (account : ℕ) (bytes : ℤ) (s s' : System E F)
      → IsBacked E F c.at.self s
      → sellram E F c account bytes s ≡ ok s'
      → IsBacked E F c.at.self s'
  unfolding sellram
  sellram-IsBacked c account bytes s s' b h = check_then (c.at.has_auth account) _ _ _ h (λ _ h₁.
      bind_then (update_ram_supply E F c s) _ _ h₁ (λ t supplied h₂.
        check_then (ltb_ℤ (pos 0) bytes) _ _ _ h₂ (λ _ h₃.
          bind_then (or_abort (find t.userres account account) _) _ _ h₃ (λ res _ h₄.
            check_then (leb_ℤ bytes res.ram_bytes) _ _ _ h₄ (λ _ h₅.
              bind_then (core_symbol E F c.at.self t) _ _ h₅ (λ core cored h₆.
                bind_then (asset E F bytes ram_symbol) _ _ h₆ (λ offered made h₇.
                  bind_then (trade E F c.at.self offered core t) _ _ h₇ (λ (out, t₁) traded h₈.
                    check_then (ltb_ℤ (pos 1) out.amount) _ _ _ h₈ (λ _ h₉.
                      check_then (leb_ℤ (pos 0) (sub_i64 t₁.global.total_ram_stake out.amount)) _ _
                        _ h₉
                        (λ _ g.
                          let (m, m', found, converted, written) =
                            trade-ok c.at.self offered out core t t₁ traded in
                          let (distinct, symbol, sum) =
                            update_ram_supply-IsBacked E L F c s t b supplied m found in
                          let core_is = core_symbol-ok c.at.self t core m cored found in
                          let (n, y) = asset-ok E L F bytes ram_symbol offered made in
                          let (_, x) =
                            sells-Exchanges E L F offered out core m m' distinct (y ∙ sym symbol)
                              core_is converted in
                          let (k₁, k₂) = pay_seller-keeps account core out _ s' g in
                          stored-IsBacked E L F c.at.self m' t.rammarket s'
                            (k₁ ∙ ap (λ u. u.rammarket) written)
                            (moved-Backs E L F m m' t.global s'.global (distinct, symbol, sum)
                              (ap (λ u. u.symbol) x.supply) (ap (λ u. u.symbol) x.taken)
                              (ap (λ u. u.symbol) x.given)
                              (AddsUp-eq _ _ _ _ _ _
                                (sold-AddsUp m.base.balance.amount bytes
                                  t.global.total_ram_bytes_reserved t.global.max_ram_size sum)
                                (ap (λ u. u.amount) x.taken ∙ ap (add_i64 m.base.balance.amount) n)
                                (ap (λ u. u.total_ram_bytes_reserved) k₂
                                  ∙ ap
                                      (λ u.
                                        sub_u64 u.global.total_ram_bytes_reserved (to_u64 bytes))
                                      written)
                                (ap (λ u. u.max_ram_size) k₂
                                  ∙ ap (λ u. u.global.max_ram_size) written)))))))))))))

  -- The market that a successful init opens, on a core token that is neither RAM nor RAMCORE, has
  -- three different symbols and RAM as its base, and holds the RAM that is not reserved, modulo 2 ^
  -- 64.
  pub init-IsBacked :
      (c : Moment) (version : ℕ) (core : Symbol) (st : E.Table CurrencyStats) (s s' : System E F)
      → core ≢ ram_symbol
      → core ≢ ramcore_symbol
      → init E F c version core st s ≡ ok s'
      → IsBacked E F c.at.self s'
  unfolding init opening_market
  init-IsBacked c version core st s s' u v h = check_then (c.at.has_auth c.at.self) _ _ _ h (λ _ h₁.
      check_then (version == 0) _ _ _ h₁ (λ _ h₂.
        check_then (elim (find s.rammarket c.at.self ramcore_key) [ none ↦ true | some _ ↦ false ])
          _ _ _ h₂
          (λ _ h₃. bind_then (or_abort (find st core.code core.code) _) _ _ h₃ (λ row _ h₄.
            check_then (E.same_symbol row.supply.symbol core) _ _ _ h₄ (λ _ h₅.
              check_then (ltb_ℤ (pos 0) row.supply.amount) _ _ _ h₅ (λ _ h₆.
                let market = opening_market E F core row.supply.amount s.global in
                let opened = store s.rammarket c.at.self ramcore_key market in
                subst (IsBacked E F c.at.self)
                  (ok_injective (record s { rammarket = opened }) s' h₆)
                  (stored-IsBacked E L F c.at.self market s.rammarket
                    (record s { rammarket = opened }) refl
                    (
                      record {
                        supply_base = λ e. absurd (ground (arith, e));
                        supply_quote = λ e. v (sym e);
                        base_quote = λ e. u (sym e);
                      },
                      refl,
                      opened-AddsUp s.global.total_ram_bytes_reserved s.global.max_ram_size,
                    ))))))))
