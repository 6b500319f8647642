-- ===== src/System/Exchange/Trades.antt =====
-- What a purchase or a sale of RAM does to the exchange: a conversion of two steps, through the supply.
use decentral_bank.Prelude.{
  ◌≡◌, ◌≢◌, refl, true, false, ok, Result-cases, Bool-cases, inl, inr, arith,
}
use decentral_bank.Prelude.Int.{ℤ}
use decentral_bank.Prelude.Word.{add_i64, sub_i64}
use decentral_bank.Chain.{Symbol, Asset, Chain, IsChain}
use decentral_bank.Chain.Double.{Float}
use decentral_bank.System.{Connector, ExchangeState}
use decentral_bank.System.Exchange.{
  convert_to_exchange, convert_from_exchange, convert_once, convert_within, convert,
}
use decentral_bank.System.Exchange.Symbols.{convert_to_exchange-ok, convert_from_exchange-ok}

-- The three symbols of an exchange are different.
pub record AreDistinct (F : Float) (m : ExchangeState F) : Type 0 where
  pub supply_base : m.supply.symbol ≢ m.base.balance.symbol
  pub supply_quote : m.supply.symbol ≢ m.quote.balance.symbol
  pub base_quote : m.base.balance.symbol ≢ m.quote.balance.symbol

-- One connector takes in `paid`, the other gives out `sold`, and the supply is what it was but for the
-- wrap-around: what the first step issues the second takes back.
pub record Exchanges (F : Float) (into out : ExchangeState F → Connector F) (paid sold : ℤ)
    (m m' : ExchangeState F) : Type 0 where
  pub issued : ℤ
  pub supply :
      m'.supply ≡ record m.supply { amount = sub_i64 (add_i64 m.supply.amount issued) issued }
  pub taken :
      (into m').balance ≡ record (into m).balance { amount = add_i64 (into m).balance.amount paid }
  pub given :
      (out m').balance ≡ record (out m).balance { amount = sub_i64 (out m).balance.amount sold }

module _ (E : Chain) (L : IsChain E) (F : Float) where
  different : (a b : Symbol) → a ≢ b → E.same_symbol a b ≡ false
  different a b h = elim (Bool-cases (E.same_symbol a b)) [
    | inl yes_same ↦ absurd (h ((L.same_symbol_iff a b).0 yes_same))
    | inr no_same ↦ no_same
  ]

  same : (a : Symbol) → E.same_symbol a a ≡ true
  same a = (L.same_symbol_iff a a).1 refl

  -- A purchase pays into the quote and takes out of the base.
  pub buys-Exchanges :
      (from sold : Asset) (to : Symbol) (m m' : ExchangeState F)
      → AreDistinct F m
      → from.symbol ≡ m.quote.balance.symbol
      → to ≡ m.base.balance.symbol
      → convert E F from to m ≡ ok (sold, m')
      → (sold.symbol ≡ to) × Exchanges F (λ x. x.quote) (λ x. x.base) from.amount sold.amount m m'
  unfolding convert convert_within convert_once
  buys-Exchanges from sold to m m' d paid wanted h =
      let t₁ = different from.symbol m.supply.symbol (λ e. d.supply_quote (ground arith)) in
      let t₂ = different from.symbol m.base.balance.symbol (λ e. d.base_quote (ground arith)) in
      let t₃ = same from.symbol in
      let t₄ = same m.base.balance.symbol in
      let t₆ = same m.supply.symbol in
      let t₅ = different to m.supply.symbol (λ e. d.supply_base (ground arith)) in
      elim (Result-cases (convert_to_exchange E F m.supply m.quote from)) [
        | inr (message, e) ↦ absurd (ground arith)
        | inl ((issued, supply, quote), e) ↦
            let (s₁, s₂, s₃, s₄) =
              convert_to_exchange-ok E L F m.supply m.quote from issued supply quote e in
            elim (Result-cases (convert_from_exchange E F supply m.base issued)) [
              | inr (message, f) ↦ absurd (ground arith)
              | inl ((got, supply', base), f) ↦
                  let (r₁, r₂, r₃, r₄) =
                    convert_from_exchange-ok E L F supply m.base issued got supply' base f in
                  (
                    ground arith,
                    record {
                      issued = issued.amount;
                      supply = ground arith;
                      taken = ground arith;
                      given = ground arith;
                    },
                  )
            ]
      ]

  -- A sale pays into the base and takes out of the quote.
  pub sells-Exchanges :
      (from sold : Asset) (to : Symbol) (m m' : ExchangeState F)
      → AreDistinct F m
      → from.symbol ≡ m.base.balance.symbol
      → to ≡ m.quote.balance.symbol
      → convert E F from to m ≡ ok (sold, m')
      → (sold.symbol ≡ to) × Exchanges F (λ x. x.base) (λ x. x.quote) from.amount sold.amount m m'
  unfolding convert convert_within convert_once
  sells-Exchanges from sold to m m' d paid wanted h =
      let t₁ = different from.symbol m.supply.symbol (λ e. d.supply_base (ground arith)) in
      let t₂ = different to m.base.balance.symbol (λ e. d.base_quote (ground arith)) in
      let t₃ = same from.symbol in
      let t₄ = same m.quote.balance.symbol in
      let t₆ = same m.supply.symbol in
      let t₅ = different to m.supply.symbol (λ e. d.supply_quote (ground arith)) in
      elim (Result-cases (convert_to_exchange E F m.supply m.base from)) [
        | inr (message, e) ↦ absurd (ground arith)
        | inl ((issued, supply, b), e) ↦
            let (s₁, s₂, s₃, s₄) =
              convert_to_exchange-ok E L F m.supply m.base from issued supply b e in
            elim (Result-cases (convert_from_exchange E F supply m.quote issued)) [
              | inr (message, f) ↦ absurd (ground arith)
              | inl ((got, supply', q), f) ↦
                  let (r₁, r₂, r₃, r₄) =
                    convert_from_exchange-ok E L F supply m.quote issued got supply' q f in
                  (
                    ground arith,
                    record {
                      issued = issued.amount;
                      supply = ground arith;
                      taken = ground arith;
                      given = ground arith;
                    },
                  )
            ]
      ]
