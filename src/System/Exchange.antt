-- ===== src/System/Exchange.antt =====
-- The exchange that sells RAM (decentralbank.system/exchange_state.cpp): two connectors around a
-- supply. A call that changes the state returns the new one with its result.
use decentral_bank.Prelude.{
  ℕ, true, false, zero, suc, Option, none, some, if◌then◌else◌, Result, ok, abort, ◌>>=◌, ◌>>◌,
  check,
}
use decentral_bank.Prelude.Int.{pos}
use decentral_bank.Prelude.Word.{add_i64, sub_i64}
use decentral_bank.Chain.{Symbol, Asset, Chain}
use decentral_bank.Chain.Double.{Float}
use decentral_bank.System.{Connector, ExchangeState, asset}
pub mod Symbols
pub mod Ends
pub mod Trades

module _ (E : Chain) (F : Float) where
  open F use {of_int, to_int, negated, plus, minus, times, over, pow}

  -- It returns the issued asset, the new supply and the new connector.
  unfoldable pub convert_to_exchange :
      Asset → Connector F → Asset → Result (Asset × Asset × Connector F)
  convert_to_exchange supply c paid = do
    let r = of_int supply.amount
    let balance = add_i64 c.balance.amount paid.amount
    let one = of_int (pos 1)
    let grown = pow (plus one (over (of_int paid.amount) (of_int balance))) c.weight
    let issued = to_int (times (negated r) (minus one grown))
    out ← asset E F issued supply.symbol
    ok (
      out,
      record supply { amount = add_i64 supply.amount issued },
      record c { balance = record { amount = balance; symbol = c.balance.symbol } },
    )

  unfoldable pub convert_from_exchange :
      Asset → Connector F → Asset → Result (Asset × Asset × Connector F)
  convert_from_exchange supply c paid = do
    check (E.same_symbol paid.symbol supply.symbol) "unexpected asset symbol input"
    let r = of_int (sub_i64 supply.amount paid.amount)
    let one = of_int (pos 1)
    let grown = pow (plus one (over (of_int paid.amount) r)) (over one c.weight)
    let out = to_int (times (of_int c.balance.amount) (minus grown one))
    sold ← asset E F out c.balance.symbol
    ok (
      sold,
      record supply { amount = sub_i64 supply.amount paid.amount },
      record c {
        balance = record { amount = sub_i64 c.balance.amount out; symbol = c.balance.symbol };
      },
    )

  -- `convert` up to its recursive call.
  unfoldable pub convert_once : Asset → Symbol → ExchangeState F → Result (Asset × ExchangeState F)
  convert_once from to m =
      let with_base =
        λ (r : Asset × Asset × Connector F). ok (r.0, record m { supply = r.1; base = r.2 }) in
      let with_quote =
        λ (r : Asset × Asset × Connector F). ok (r.0, record m { supply = r.1; quote = r.2 }) in
      if E.same_symbol from.symbol m.supply.symbol
      then (if E.same_symbol to m.base.balance.symbol
          then convert_from_exchange m.supply m.base from >>= with_base
          else if E.same_symbol to m.quote.balance.symbol
          then convert_from_exchange m.supply m.quote from >>= with_quote
          else abort "invalid conversion")
      else if E.same_symbol from.symbol m.base.balance.symbol
      then convert_to_exchange m.supply m.base from >>= with_base
      else if E.same_symbol from.symbol m.quote.balance.symbol
      then convert_to_exchange m.supply m.quote from >>= with_quote
      else abort "invalid sell"

  -- `convert( from, to )`, which calls itself; `none` means that the fuel ran out.
  unfoldable pub convert_within :
      ℕ → Asset → Symbol → ExchangeState F → Option (Result (Asset × ExchangeState F))
  convert_within zero from to m = none
  convert_within (suc fuel) from to m = elim (convert_once from to m) [
    | abort e ↦ some (abort e)
    | ok (sold, m') ↦ elim (E.same_symbol to sold.symbol) [
      | true ↦ some (ok (sold, m'))
      | false ↦ convert_within fuel sold to m'
    ]
  ]

  unfoldable pub convert : Asset → Symbol → ExchangeState F → Result (Asset × ExchangeState F)
  convert from to m = elim (convert_within 2 from to m) [ none ↦ abort "out of fuel" | some r ↦ r ]
