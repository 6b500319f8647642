-- ===== src/System/Tests.antt =====
-- The system contract on a chain that runs, and the theorems on it at such states.
use decentral_bank.Prelude.{
  ℕ, suc, ◌≡◌, ◌≢◌, ◌≤◌, ◌<◌, ◌^◌, refl, Bool, true, false, Option, some, none, String, List, [],
  ◌∷◌, Result, ok, abort, ◌==◌, if◌then◌else◌, subst, arith,
}
use decentral_bank.Prelude.Int.{ℤ, pos, negsuc, ◌+ℤ◌, ◌-ℤ◌, ◌<ℤ◌, ◌*ℤ◌, quot, ltb_ℤ}
use decentral_bank.Prelude.Word
use decentral_bank.Prelude.Word.{sub_i64}
use decentral_bank.Chain.{Symbol, Asset, Context}
use decentral_bank.Chain.Memory.{memory, memory-IsChain}
use decentral_bank.Chain.Double.{whole}
use decentral_bank.Token.{CurrencyStats}
use decentral_bank.System
use decentral_bank.System.Ram
use decentral_bank.System.Exchange
use decentral_bank.System.Names
use decentral_bank.System.Pay
use decentral_bank.System.Stake
use decentral_bank.System.Voting
use decentral_bank.System.Voting.Ballots
use decentral_bank.System.{
  System, Moment, Library, GlobalState, ExchangeState, NameBid, BidRefund, UserResources,
  DelegatedBandwidth, VoterInfo, ProducerInfo, Inline, Limits, core_symbol, eosio, ramcore_key,
  ramcore_symbol, ram_symbol, names_account, bpay_account, vpay_account,
}
use decentral_bank.System.Exchange.{convert, convert_within}
use decentral_bank.System.Ram.Backed.{IsBacked, Backs, setram-IsBacked}
use decentral_bank.System.Ram.Trading.{buyram-IsBacked, sellram-IsBacked, init-IsBacked}
use decentral_bank.System.Exchange.Ends.{convert_within-enough}
mod Accounts
mod Stakes

abbrev pub core : Symbol
core = record { code = 7; precision = 4 }

abbrev pub tokens : ℕ → Asset
tokens n = record { amount = pos n; symbol = core }

abbrev pub shelf : Library memory whole
shelf = record {
  suffix = λ n. n;
  to_string = λ n. "name";
  sha256 = λ l. 0;
  by_high_bid = λ t s n. none;
  by_votes = λ t s. [];
  sort = λ l. l;
  accepts = λ l. true;
}

abbrev pub day_ten : Moment
day_ten = record {
  at = record {
    self = eosio;
    code = eosio;
    now = 1_600_000_000;
    has_auth = λ a. true;
    is_account = λ a. false;
  };
  time = pos 1_600_000_000_000_000;
  slot = 10;
}

-- 1000 bytes of RAM, of which `reserved` are sold.
abbrev global : ℕ → GlobalState whole
global reserved = record {
  max_authority_depth = 6;
  max_ram_size = 1000;
  total_ram_bytes_reserved = reserved;
  total_ram_stake = pos 500;
  last_producer_schedule_update = 0;
  last_pervote_bucket_fill = pos 1_568_550_400_000_000;
  pervote_bucket = pos 5_000_000;
  perblock_bucket = pos 300;
  total_unpaid_blocks = 3;
  total_activated_stake = pos 2_000_000_000_000;
  thresh_activated_stake_time = pos 1;
  last_producer_schedule_size = 0;
  total_producer_vote_weight = pos 10;
  last_name_close = 0;
  new_ram_per_block = 0;
  last_ram_increase = 10;
  last_block_num = 0;
  total_producer_votepay_share = pos 0;
  revision = 0;
  last_vpay_state_update = pos 0;
  total_vpay_share_change_rate = pos 0;
}

abbrev market : ℕ → ℕ → ExchangeState whole
market base quote = record {
  supply = record { amount = pos 1000; symbol = ramcore_symbol };
  base = record { balance = record { amount = pos base; symbol = ram_symbol }; weight = pos 1 };
  quote = record { balance = tokens quote; weight = pos 1 };
}

-- The system with the market that holds what is not reserved, and `quote` tokens.
abbrev pub system : ℕ → ℕ → System memory whole
system base quote = record {
  voters = memory.empty;
  producers = memory.empty;
  producers2 = memory.empty;
  global = global (if base == 0 then 1000 else 0);
  rammarket = memory.store memory.empty eosio ramcore_key (market base quote);
  namebids = memory.empty;
  bidrefunds = memory.empty;
  userres = memory.empty;
  delband = memory.empty;
  refunds = memory.empty;
  abihash = memory.empty;
  limits = λ a. record { ram = pos 0; net = pos 0; cpu = pos 0 };
  privileged = λ a. false;
  schedule = [];
  inline = [];
  deferred = [];
  notified = [];
}

some_injective : {A : Type 0} (a b : A) → some a ≡ some b → a ≡ b
some_injective a b h = ground arith

abbrev pub outcome : Result (System memory whole) → System memory whole
outcome (ok s) = s
outcome _ = system 0 0

convert_within-enough_example :
    convert_within memory whole 9 (tokens 40) ram_symbol (market 1000 0)
    ≡ some (convert memory whole (tokens 40) ram_symbol (market 1000 0))
convert_within-enough_example =
    convert_within-enough memory memory-IsChain whole 7 (tokens 40) ram_symbol (market 1000 0)

-- Account 3 buys all the RAM, and sells it again.
abbrev bought : System memory whole
bought = outcome (Ram.buyram memory whole day_ten 3 3 (tokens 400) (system 1000 0))

bought-runs : Ram.buyram memory whole day_ten 3 3 (tokens 400) (system 1000 0) ≡ ok bought
unfolding memory Ram.buyram Ram.update_ram_supply core_symbol Ram.trade Ram.add_ram Ram.ram_row
    Ram.pay_for_ram Ram.ram_fee convert convert_within Exchange.convert_once
    Exchange.convert_to_exchange Exchange.convert_from_exchange Word.add_i64 Word.sub_i64
    Word.to_u64 Word.to_i64 Word.wrap_i64 Word.quot_i64 Word.add_u64 Word.sub_u64 quot Word.mul_u32
    Word.sub_u32 ◌+ℤ◌ ◌-ℤ◌ ◌*ℤ◌
bought-runs = refl

abbrev sold : System memory whole
sold = outcome (Ram.sellram memory whole day_ten 3 (pos 1000) bought)

sold-runs : Ram.sellram memory whole day_ten 3 (pos 1000) bought ≡ ok sold
unfolding memory Ram.sellram Ram.buyram Ram.update_ram_supply core_symbol Ram.trade Ram.add_ram
    Ram.ram_row Ram.pay_for_ram Ram.pay_seller Ram.ram_fee convert convert_within
    Exchange.convert_once Exchange.convert_to_exchange Exchange.convert_from_exchange Word.add_i64
    Word.sub_i64 Word.to_u64 Word.to_i64 Word.wrap_i64 Word.quot_i64 Word.add_u64 Word.sub_u64 quot
    Word.mul_u32 Word.sub_u32 ◌+ℤ◌ ◌-ℤ◌ ◌*ℤ◌
sold-runs = refl

system-IsBacked : IsBacked memory whole eosio (system 1000 0)
unfolding memory Word.add_u64 Word.to_u64
system-IsBacked m found =
    subst (λ x. Backs memory whole x (global 0)) (some_injective _ m found)
      (
        record {
          supply_base = λ e. absurd (ground (arith, e));
          supply_quote = λ e. absurd (ground (arith, e));
          base_quote = λ e. absurd (ground (arith, e));
        },
        refl,
        refl,
      )

buyram-IsBacked_example : IsBacked memory whole eosio bought
buyram-IsBacked_example =
    buyram-IsBacked memory memory-IsChain whole day_ten 3 3 (tokens 400) (system 1000 0) bought
      system-IsBacked bought-runs

sellram-IsBacked_example : IsBacked memory whole eosio sold
sellram-IsBacked_example =
    sellram-IsBacked memory memory-IsChain whole day_ten 3 (pos 1000) bought sold
      (buyram-IsBacked memory memory-IsChain whole day_ten 3 3 (tokens 400) (system 1000 0) bought
        system-IsBacked bought-runs)
      sold-runs

abbrev larger : System memory whole
larger = outcome (Ram.setram memory whole day_ten 2000 (system 1000 0))

setram-IsBacked_example : IsBacked memory whole eosio larger
unfolding memory Ram.setram Ram.grow_market Word.add_i64 Word.sub_i64 Word.to_u64 Word.to_i64
    Word.wrap_i64 ◌+ℤ◌ ◌-ℤ◌
setram-IsBacked_example =
    setram-IsBacked memory memory-IsChain whole day_ten 2000 (system 1000 0) larger system-IsBacked
      refl

abbrev before_init : System memory whole
before_init = record (system 1000 0) { rammarket = memory.empty }

abbrev pub statistics : memory.Table CurrencyStats
statistics =
    memory.store memory.empty 7 7
      (record { supply = tokens 1_000_000; max_supply = tokens 9_000_000; issuer = eosio })

abbrev opened : System memory whole
opened = outcome (Ram.init memory whole day_ten 0 core statistics before_init)

init-IsBacked_example : IsBacked memory whole eosio opened
unfolding memory Ram.init
init-IsBacked_example =
    init-IsBacked memory memory-IsChain whole day_ten 0 core statistics before_init opened
      (λ e. absurd (ground (arith, e))) (λ e. absurd (ground (arith, e))) refl
