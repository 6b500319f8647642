-- ===== src/System/Exchange/Ends.antt =====
-- The recursion of `convert` (exchange_state.cpp) and its fuel.
use decentral_bank.Prelude.{
  ℕ, suc, ◌≡◌, true, false, some, ok, Result-cases, Bool-cases, inl, inr, arith,
}
use decentral_bank.Chain.{Symbol, Asset, Chain, IsChain}
use decentral_bank.Chain.Double.{Float}
use decentral_bank.System.{ExchangeState}
use decentral_bank.System.Exchange.{convert_once, convert_within, convert}
use decentral_bank.System.Exchange.Symbols.{convert_once-symbols}

module _ (E : Chain) (L : IsChain E) (F : Float) where
  same_symbol-eq : (a b : Symbol) → a ≡ b → E.same_symbol a b ≡ true
  same_symbol-eq a b h = (L.same_symbol_iff a b).1 h

  -- A step from the supply is the last.
  convert_within-supply :
      (fuel : ℕ) (from : Asset) (to : Symbol) (m : ExchangeState F)
      → from.symbol ≡ m.supply.symbol
      → convert_within E F (suc fuel) from to m ≡ some (convert_once E F from to m)
  unfolding convert_within
  convert_within-supply fuel from to m h = elim (Result-cases (convert_once E F from to m)) [
    | inr (message, e) ↦ ground arith
    | inl ((sold, m'), e) ↦
        let (_, symbol) = convert_once-symbols E L F from to m sold m' e in
        let supplied = same_symbol-eq from.symbol m.supply.symbol h in
        let last = same_symbol-eq to sold.symbol (ground arith) in ground arith
  ]

  -- After a step that does not reach `to` the next is from the supply.
  convert_once-supply :
      (from : Asset) (to : Symbol) (m : ExchangeState F) (sold : Asset) (m' : ExchangeState F)
      → convert_once E F from to m ≡ ok (sold, m')
      → E.same_symbol to sold.symbol ≡ false
      → sold.symbol ≡ m'.supply.symbol
  convert_once-supply from to m sold m' h other =
      let (kept, symbol) = convert_once-symbols E L F from to m sold m' h in
      elim (Bool-cases (E.same_symbol from.symbol m.supply.symbol)) [
        | inl supplied ↦
            let last = same_symbol-eq to sold.symbol (ground arith) in absurd (ground arith)
        | inr bought ↦ ground arith
      ]

  -- convert calls itself once at most: two steps of fuel are enough for every conversion on every
  -- exchange, more give the same outcome, and convert is that outcome.
  pub convert_within-enough :
      (fuel : ℕ) (from : Asset) (to : Symbol) (m : ExchangeState F)
      → convert_within E F (suc (suc fuel)) from to m ≡ some (convert E F from to m)
  unfolding convert_within convert
  convert_within-enough fuel from to m = elim (Result-cases (convert_once E F from to m)) [
    | inr (message, e) ↦ ground arith
    | inl ((sold, m'), e) ↦ elim (Bool-cases (E.same_symbol to sold.symbol)) [
      | inl reached ↦ ground arith
      | inr other ↦
          let supplied = convert_once-supply from to m sold m' e other in
          let shorter = convert_within-supply 0 sold to m' supplied in
          let longer = convert_within-supply fuel sold to m' supplied in ground arith
    ]
  ]
