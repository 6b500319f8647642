-- ===== src/System/Tests/Accounts.antt =====
-- The theorems on names, pay, stakes and votes of the system contract, at states of a chain that runs.
use decentral_bank.Prelude.{◌⊎◌, ℕ, ◌≡◌, refl, true, some, none, String, [], ◌∷◌, ok, abort, arith}
use decentral_bank.Prelude.Int.{ℤ, pos, negsuc, ◌+ℤ◌, ◌-ℤ◌, ◌*ℤ◌, ◌<ℤ◌, ◌≤ℤ◌, quot}
use decentral_bank.Prelude.Word
use decentral_bank.Prelude.Word.{sub_i64}
use decentral_bank.Chain.Memory.{memory, memory-IsChain}
use decentral_bank.Chain.Double.{whole}
use decentral_bank.System.{
  System, Moment, NameBid, BidRefund, UserResources, ProducerInfo, Inline, core_symbol, eosio,
  names_account, bpay_account, vpay_account,
}
use decentral_bank.Chain.{Symbol}
use decentral_bank.Token.{CurrencyStats}
use decentral_bank.System.Names
use decentral_bank.System.Names.Escrow.{escrow, bidname-escrow, bidrefund-escrow}
use decentral_bank.System.Names.Claims.{newaccount-claims}
use decentral_bank.System.Pay
use decentral_bank.System.Pay.Claims.{split_tokens-sum, paid, votes_due, claimrewards-pays}
use decentral_bank.System.Pay.Again.{claimrewards-again, here, block, registered}
use decentral_bank.System.Voting
use decentral_bank.System.Tests.{tokens, shelf, day_ten, system, outcome, statistics}

-- Account 4 has bid 20 on a name, and account 3 bids 50.
abbrev auctioned : ℤ → System memory whole
auctioned high_bid = record (system 1000 0) {
  namebids =
      memory.store memory.empty eosio 1024
        (record { newname = 1024; high_bidder = 4; high_bid = high_bid; last_bid_time = pos 0 });
}

abbrev outbid : System memory whole
outbid = outcome (Names.bidname memory whole shelf day_ten 3 1024 (tokens 50) (auctioned (pos 20)))

bidname-escrow_example :
    (true ≡ true)
    × (pos 0 <ℤ pos 50)
    × (escrow memory whole outbid ≡ escrow memory whole (auctioned (pos 20)) +ℤ pos 50)
    × ((memo : String) × (outbid.inline ≡ Inline.transfer 3 names_account (tokens 50) memo ∷ []))
unfolding memory Names.bidname Names.place_bid Names.raise_bid Names.credit_refund Names.refund_row
    Names.schedule_refund core_symbol Word.sub_i64 Word.quot_i64 Word.to_u64 Word.to_i64
    Word.wrap_i64 quot ◌+ℤ◌ ◌-ℤ◌
bidname-escrow_example =
    bidname-escrow memory memory-IsChain whole shelf day_ten 3 1024 (tokens 50) (auctioned (pos 20))
      outbid refl

abbrev refunded : System memory whole
refunded = outcome (Names.bidrefund memory whole shelf day_ten 4 1024 outbid)

bidrefund-escrow_example :
    (r : BidRefund) × (memory.find outbid.bidrefunds 1024 4 ≡ some r)
    × (escrow memory whole refunded ≡ escrow memory whole outbid -ℤ r.amount.amount)
    × ((memo : String) × (refunded.inline
          ≡ Inline.transfer names_account 4 r.amount memo ∷ outbid.inline))
    × ((again : Moment)
        → Names.bidrefund memory whole shelf again 4 1024 refunded ≡ abort "refund not found")
unfolding memory Names.bidname Names.place_bid Names.raise_bid Names.credit_refund Names.refund_row
    Names.schedule_refund Names.bidrefund core_symbol Word.sub_i64 Word.quot_i64 Word.to_u64
    Word.to_i64 Word.wrap_i64 quot ◌+ℤ◌ ◌-ℤ◌
bidrefund-escrow_example =
    bidrefund-escrow memory memory-IsChain whole shelf day_ten 4 1024 outbid refunded refl

abbrev created : System memory whole
created = outcome (Names.newaccount memory whole shelf day_ten 4 1024 (auctioned (negsuc 19)))

newaccount-claims_example :
    (b : NameBid) × (r : UserResources) × (memory.find (auctioned (negsuc 19)).namebids eosio 1024
      ≡ some b)
    × (b.high_bidder ≡ 4)
    × (b.high_bid <ℤ pos 0)
    × (memory.find created.namebids eosio 1024 ≡ none)
    × (memory.find (auctioned (negsuc 19)).userres 1024 1024 ≡ none)
    × (memory.find created.userres 1024 1024 ≡ some r)
    × (r.ram_bytes ≡ pos 0)
    × (r.net_weight.amount ≡ pos 0)
    × (r.cpu_weight.amount ≡ pos 0)
unfolding memory Names.newaccount Names.claim_name Names.has_dot Names.dot_within core_symbol
newaccount-claims_example =
    newaccount-claims memory memory-IsChain whole shelf day_ten 4 1024 (auctioned (negsuc 19))
      created refl refl (λ e. absurd (ground (arith, e))) refl

split_tokens-sum_example :
    (a : ℕ) × (b : ℕ) × (d : ℕ) × ((Pay.split_tokens (pos 1003)).to_savings ≡ pos a)
    × ((Pay.split_tokens (pos 1003)).to_per_block_pay ≡ pos b)
    × ((Pay.split_tokens (pos 1003)).to_per_vote_pay ≡ pos d)
    × (pos 1003 ≡ pos a +ℤ pos b +ℤ pos d)
split_tokens-sum_example = split_tokens-sum 1003 (omega arith)

abbrev produced : System memory whole
produced = record (system 1000 0) {
  producers = memory.store memory.empty eosio 5 (record {
    owner = 5;
    total_votes = pos 10;
    producer_key = 1;
    is_active = true;
    url = "url";
    unpaid_blocks = 3;
    last_claim_time = pos 0;
    location = 0;
  });
}

abbrev claimed : System memory whole
claimed = outcome (Pay.claimrewards memory whole day_ten 5 statistics produced)

claimed-runs : Pay.claimrewards memory whole day_ten 5 statistics produced ≡ ok claimed
unfolding memory Pay.claimrewards Pay.fill_buckets Pay.new_tokens_of Pay.split_tokens
    Pay.pay_producer Pay.row2_of Pay.per_block_pay Pay.vote_pay Pay.at_minimum Pay.take_pay
    Pay.pay_out Voting.update_producer_votepay_share Voting.update_total_votepay_share
    Voting.add_capped core_symbol Word.add_i64 Word.sub_i64 Word.mul_i64 Word.quot_i64 Word.sub_u32
    Word.to_u64 Word.to_i64 Word.wrap_i64 quot ◌+ℤ◌ ◌-ℤ◌ ◌*ℤ◌
claimed-runs = refl

claimrewards-pays_example :
    (prod : ProducerInfo whole) × (core : Symbol) × (row : CurrencyStats) × (t : System memory
      whole)
    × (memory.find produced.producers eosio 5 ≡ some prod)
    × (prod.is_active ≡ true)
    × (core_symbol memory whole eosio produced ≡ ok core)
    × (memory.find statistics core.code core.code ≡ some row)
    × (Pay.fill_buckets memory whole day_ten row.supply.amount produced ≡ ok t)
    × (claimed.global.perblock_bucket
        ≡ sub_i64 t.global.perblock_bucket (Pay.per_block_pay memory whole prod t.global))
    × (claimed.global.pervote_bucket
        ≡ sub_i64 t.global.pervote_bucket (votes_due memory memory-IsChain whole day_ten 5 prod t))
    × (claimed.inline
        ≡ paid vpay_account 5
            (votes_due memory memory-IsChain whole day_ten 5 prod t)
            "producer vote pay"
            core
            (paid bpay_account 5
              (Pay.per_block_pay memory whole prod t.global)
              "producer block pay"
              core
              t.inline))
    × ((votes_due memory memory-IsChain whole day_ten 5 prod t ≡ pos 0)
        ⊎ (pos 1_000_000 ≤ℤ votes_due memory memory-IsChain whole day_ten 5 prod t))
    × (memory.find claimed.producers eosio 5
        ≡ some (record prod { last_claim_time = pos 1_600_000_000_000_000; unpaid_blocks = 0 }))
claimrewards-pays_example =
    claimrewards-pays memory memory-IsChain whole day_ten 5 statistics produced claimed claimed-runs

-- Hours later, after a new registration of the producer and a block of it.
abbrev hours_later : Moment
hours_later = record day_ten { time = pos 1_600_040_000_000_000 }

abbrev registered_anew : System memory whole
registered_anew = outcome (Voting.regproducer memory whole hours_later 5 2 "other" 0 claimed)

registered_anew-runs :
    Voting.regproducer memory whole hours_later 5 2 "other" 0 claimed ≡ ok registered_anew
unfolding memory Voting.regproducer Pay.claimrewards Pay.fill_buckets Pay.new_tokens_of
    Pay.split_tokens Pay.pay_producer Pay.row2_of Pay.per_block_pay Pay.vote_pay Pay.at_minimum
    Pay.take_pay Pay.pay_out Voting.update_producer_votepay_share Voting.update_total_votepay_share
    Voting.add_capped core_symbol Word.add_i64 Word.sub_i64 Word.mul_i64 Word.quot_i64 Word.sub_u32
    Word.to_u64 Word.to_i64 Word.wrap_i64 quot ◌+ℤ◌ ◌-ℤ◌ ◌*ℤ◌
registered_anew-runs = refl

abbrev next_block : System memory whole
next_block = outcome (Pay.onblock memory whole shelf hours_later 40 5 registered_anew)

next_block-runs : Pay.onblock memory whole shelf hours_later 40 5 registered_anew ≡ ok next_block
unfolding memory Pay.onblock
next_block-runs = refl

claimrewards-again_example :
    (m : String) × (Pay.claimrewards memory whole hours_later 5 statistics next_block ≡ abort m)
unfolding sub_i64 Word.to_u64 Word.to_i64 Word.wrap_i64 ◌-ℤ◌
claimrewards-again_example =
    claimrewards-again memory memory-IsChain whole shelf day_ten 5 statistics produced claimed
      next_block hours_later statistics claimed-runs (λ e. ground arith)
      (block hours_later 40 5 (registered hours_later 5 2 "other" 0 here refl registered_anew-runs)
        refl next_block-runs)
      refl (omega arith)
