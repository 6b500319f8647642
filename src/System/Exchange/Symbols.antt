-- ===== src/System/Exchange/Symbols.antt =====
-- What one step of a conversion does to the amounts and the symbols of the exchange.
use decentral_bank.Prelude.{
  ◌≡◌, ok, if◌then◌else◌, bind-ok, check-ok, Result-cases, Bool-cases, Option-cases, inl, inr,
  arith,
}
use decentral_bank.Prelude.Int.{ℤ}
use decentral_bank.Prelude.Word.{add_i64, sub_i64}
use decentral_bank.Chain.{Symbol, Asset, Chain, IsChain}
use decentral_bank.Chain.Double.{Float}
use decentral_bank.System.{Connector, ExchangeState, asset}
use decentral_bank.System.Exchange.{convert_to_exchange, convert_from_exchange, convert_once}

module _ (E : Chain) (L : IsChain E) (F : Float) where
  pub asset-ok :
      (n : ℤ) (y : Symbol) (a : Asset) → asset E F n y ≡ ok a → (a.amount ≡ n) × (a.symbol ≡ y)
  asset-ok n y a h = elim (Option-cases (E.make_asset n y)) [
    | inl e ↦ absurd (ground arith)
    | inr (b, e) ↦
        let (amount, symbol, _) = L.make_asset_some n y b e in (ground arith, ground arith)
  ]

  pub convert_to_exchange-ok :
      (supply : Asset) (c : Connector F) (paid out : Asset) (supply' : Asset) (c' : Connector F)
      → convert_to_exchange E F supply c paid ≡ ok (out, supply', c')
      → (out.symbol ≡ supply.symbol)
        × (supply' ≡ record supply { amount = add_i64 supply.amount out.amount })
        × (c'.balance.amount ≡ add_i64 c.balance.amount paid.amount)
        × (c'.balance.symbol ≡ c.balance.symbol)
  unfolding convert_to_exchange
  convert_to_exchange-ok supply c paid out supply' c' h =
      let (a, made, e) = bind-ok (asset E F _ supply.symbol) _ _ h in
      let (amount, symbol) = asset-ok _ supply.symbol a made in
      (ground arith, ground arith, ground arith, ground arith)

  pub convert_from_exchange-ok :
      (supply : Asset) (c : Connector F) (paid out : Asset) (supply' : Asset) (c' : Connector F)
      → convert_from_exchange E F supply c paid ≡ ok (out, supply', c')
      → (out.symbol ≡ c.balance.symbol)
        × (supply' ≡ record supply { amount = sub_i64 supply.amount paid.amount })
        × (c'.balance.amount ≡ sub_i64 c.balance.amount out.amount)
        × (c'.balance.symbol ≡ c.balance.symbol)
  unfolding convert_from_exchange
  convert_from_exchange-ok supply c paid out supply' c' h =
      let (_, k) = check-ok (E.same_symbol paid.symbol supply.symbol) _ _ _ h in
      let (a, made, e) = bind-ok (asset E F _ c.balance.symbol) _ _ k in
      let (amount, symbol) = asset-ok _ c.balance.symbol a made in
      (ground arith, ground arith, ground arith, ground arith)

  -- A step from the supply ends at `to`; any other ends at the supply.
  pub convert_once-symbols :
      (from : Asset) (to : Symbol) (m : ExchangeState F) (sold : Asset) (m' : ExchangeState F)
      → convert_once E F from to m ≡ ok (sold, m')
      → (m'.supply.symbol ≡ m.supply.symbol)
        × (sold.symbol
            ≡ (if E.same_symbol from.symbol m.supply.symbol then to else m.supply.symbol))
  unfolding convert_once
  convert_once-symbols from to m sold m' h =
      elim (Bool-cases (E.same_symbol from.symbol m.supply.symbol)) [
        | inl is_supply ↦ elim (Bool-cases (E.same_symbol to m.base.balance.symbol)) [
          | inl is_base ↦ elim (Result-cases (convert_from_exchange E F m.supply m.base from)) [
            | inr (message, e) ↦ absurd (ground arith)
            | inl ((out, supply, b), e) ↦
                let (symbol, kept, _, _) =
                  convert_from_exchange-ok m.supply m.base from out supply b e in
                let same = (L.same_symbol_iff to m.base.balance.symbol).0 is_base in
                (ground arith, ground arith)
          ]
          | inr no_base ↦ elim (Bool-cases (E.same_symbol to m.quote.balance.symbol)) [
            | inl is_quote ↦ elim (Result-cases (convert_from_exchange E F m.supply m.quote from)) [
              | inr (message, e) ↦ absurd (ground arith)
              | inl ((out, supply, b), e) ↦
                  let (symbol, kept, _, _) =
                    convert_from_exchange-ok m.supply m.quote from out supply b e in
                  let same = (L.same_symbol_iff to m.quote.balance.symbol).0 is_quote in
                  (ground arith, ground arith)
            ]
            | inr no_quote ↦ absurd (ground arith)
          ]
        ]
        | inr no_supply ↦ elim (Bool-cases (E.same_symbol from.symbol m.base.balance.symbol)) [
          | inl is_base ↦ elim (Result-cases (convert_to_exchange E F m.supply m.base from)) [
            | inr (message, e) ↦ absurd (ground arith)
            | inl ((out, supply, b), e) ↦
                let (symbol, kept, _, _) =
                  convert_to_exchange-ok m.supply m.base from out supply b e in
                (ground arith, ground arith)
          ]
          | inr no_base ↦ elim (Bool-cases (E.same_symbol from.symbol m.quote.balance.symbol)) [
            | inl is_quote ↦ elim (Result-cases (convert_to_exchange E F m.supply m.quote from)) [
              | inr (message, e) ↦ absurd (ground arith)
              | inl ((out, supply, b), e) ↦
                  let (symbol, kept, _, _) =
                    convert_to_exchange-ok m.supply m.quote from out supply b e in
                  (ground arith, ground arith)
            ]
            | inr no_quote ↦ absurd (ground arith)
          ]
        ]
      ]
