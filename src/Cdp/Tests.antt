-- ===== src/Cdp/Tests.antt =====
-- A cdp type on a chain that runs, and the theorems on the CDP engine at its positions.
use decentral_bank.Prelude.{
  ℕ, ◌*◌, ◌≤◌, ◌≡◌, ◌≢◌, refl, true, false, some, ok, [], arith, ◌==◌, Result,
}
use decentral_bank.Prelude.Int.{pos, pos_part, ◌+ℤ◌, ◌-ℤ◌, ◌*ℤ◌, ◌≤ℤ◌}
use decentral_bank.Prelude.Word
use decentral_bank.Chain.{Symbol, Asset, Context}
use decentral_bank.Chain.Memory.{memory, memory-IsChain}
use decentral_bank.Cdp
use decentral_bank.Cdp.{Engine, Cdp, Stat, Feed}
use decentral_bank.Cdp.Wallet
use decentral_bank.Cdp.Position
use decentral_bank.Cdp.Position.Debt.{IsBooked, collateral_in}
use decentral_bank.Cdp.Position.Guards.{draw_limits}
use decentral_bank.Cdp.Oracle
use decentral_bank.Cdp.Dispatch.{Action, apply, own_action}
use decentral_bank.Cdp.Books.{keeps_books, apply-IsBooked}
use decentral_bank.Cdp.Flaws.{upfeed_zero, draw_worthless, shut_misbooks}
mod Votes
mod Auctions

abbrev gold : Symbol
gold = record { code = 7; precision = 4 }

abbrev dollar : Symbol
dollar = record { code = 8; precision = 2 }

abbrev of_gold : ℕ → Asset
of_gold n = record { amount = pos n; symbol = gold }

abbrev of_dollar : ℕ → Asset
of_dollar n = record { amount = pos n; symbol = dollar }

-- The engine is account 1, the owner account 3, the feeder account 4.
abbrev context : Context
context = record { self = 1; code = 1; now = 1000; has_auth = λ a. a == 3; is_account = λ a. true }

abbrev by_feeder : Context
by_feeder = record context { has_auth = λ a. a == 4 }

abbrev gold_backed : ℕ → ℕ → Stat
gold_backed debt locked = record {
  live = true;
  last_vote = 0;
  tau = 3600;
  ttl = 600;
  feeder = 4;
  cdp_type = 100;
  global_ceil = 100000;
  debt_ceiling = 5000;
  stability_fee = 5;
  beg = 3;
  penalty_ratio = 13;
  liquid8_ratio = 150;
  fee_balance = record { amount = pos 0; symbol = Cdp.iq_symbol };
  total_stablecoin = of_dollar debt;
  total_collateral = record { quantity = of_gold locked; contract = 50 };
}

abbrev position : ℕ → ℕ → Cdp
position debt locked = record {
  owner = 3;
  created = 900;
  collateral = of_gold locked;
  stablecoin = of_dollar debt;
  live = true;
}

abbrev gold_feed : ℕ → Feed
gold_feed price = record { total = of_gold 0; price = of_dollar price; stamp = 950 }

abbrev dollar_feed : Feed
dollar_feed = record { total = of_dollar 500; price = of_dollar 1; stamp = 950 }

-- One position of 60000 gold and the debt `debt`, at the price `price`.
abbrev engine : ℕ → ℕ → Engine memory
engine debt price = record {
  bids = memory.empty;
  cdps = memory.store memory.empty 100 3 (position debt 60000);
  props = memory.empty;
  stats = memory.store memory.empty 1 100 (gold_backed debt 60000);
  feeds = memory.store (memory.store memory.empty 1 7 (gold_feed price)) 1 8 dollar_feed;
  accounts = memory.empty;
  deferred = [];
  payouts = [];
}

abbrev outcome : Result (Engine memory) → Engine memory
outcome (ok s) = s
outcome _ = engine 0 0

engine-IsBooked : IsBooked memory 1 (engine 0 2500)
unfolding memory ◌+ℤ◌ ◌-ℤ◌
engine-IsBooked = record { debts = λ y st h. ground arith; collaterals = λ y st h. ground arith }

abbrev drawn : Engine memory
drawn = outcome (Position.draw memory context 3 100 (of_dollar 400) (engine 0 2500))

draw-runs : Position.draw memory context 3 100 (of_dollar 400) (engine 0 2500) ≡ ok drawn
unfolding memory Position.draw Position.mint Position.is_fresh Position.ratio_u64 Wallet.add_balance
    Word.sub_u32 Word.add_i64 Word.mul_i64 Word.to_u64 Word.to_i64 Word.wrap_i64 Word.div_u64
    Word.mul_u64 ◌+ℤ◌ ◌*ℤ◌
draw-runs = refl

apply-IsBooked_example : IsBooked memory 1 drawn
unfolding keeps_books apply own_action
apply-IsBooked_example =
    apply-IsBooked memory memory-IsChain context (Action.draw 3 100 (of_dollar 400)) (engine 0 2500)
      drawn refl draw-runs engine-IsBooked

draw_limits_example :
    (it' : Cdp) × (st' : Stat) × (memory.find drawn.cdps 100 3 ≡ some it')
    × (memory.find drawn.stats 1 100 ≡ some st')
    × (it'.collateral ≡ of_gold 60000)
    × (it'.stablecoin.amount ≡ pos 0 +ℤ pos 400)
    × (it'.stablecoin.amount ≤ℤ pos 5000)
    × (st'.total_stablecoin.amount ≤ℤ pos 100000)
    × (Position.is_fresh 1000 950 ≡ true)
    × (150 * 10000 * pos_part it'.stablecoin.amount ≤ 2500 * 100 * 60000)
unfolding memory
draw_limits_example =
    draw_limits memory memory-IsChain context 3 100 (of_dollar 400) (engine 0 2500) drawn
      (gold_backed 0 60000) (position 0 60000) (gold_feed 2500) 2500 60000 refl refl refl refl refl
      draw-runs

-- The state after a report of 2600 on the price 2500.
abbrev reported : Engine memory
reported = outcome (Oracle.upfeed memory by_feeder 4 (of_dollar 2600) 100 gold (engine 0 2500))

upfeed_zero_example :
    (f' : Feed) × (memory.find reported.feeds 1 7 ≡ some f')
    × (f'.price.amount ≡ pos 0)
    × (f'.total ≡ of_gold 0)
    × (f'.stamp ≡ 1000)
unfolding memory Oracle.upfeed
upfeed_zero_example =
    upfeed_zero memory memory-IsChain by_feeder 4 (of_dollar 2600) 100 gold (engine 0 2500) reported
      (gold_feed 2500) refl refl

draw_worthless_example :
    Position.draw memory context 3 100 (of_dollar 400) (engine 0 0) ≢ ok (engine 400 0)
unfolding memory
draw_worthless_example =
    draw_worthless memory memory-IsChain context 3 100 (of_dollar 400) (engine 0 0) (engine 400 0)
      (gold_backed 0 60000) (position 0 60000) (gold_feed 0) refl refl refl refl (omega arith)

abbrev closed : Engine memory
closed = outcome (Position.shut memory context 3 100 (engine 0 2500))

shut_misbooks_example :
    (st' : Stat) × (memory.find closed.stats 1 100 ≡ some st')
    × (st'.total_collateral.quantity.amount
        ≡ memory.weigh (collateral_in 100) closed.cdps +ℤ pos 60000 +ℤ pos 60000)
unfolding memory Position.shut Position.return_collateral Position.settle_debt Wallet.add_balance
    ◌+ℤ◌ ◌-ℤ◌
shut_misbooks_example =
    shut_misbooks memory memory-IsChain context 3 100 (engine 0 2500) closed (gold_backed 0 60000)
      (position 0 60000) refl refl (omega arith) refl refl
