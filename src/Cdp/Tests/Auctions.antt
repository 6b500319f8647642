-- ===== src/Cdp/Tests/Auctions.antt =====
-- Bids on positions on the chain that runs.
use decentral_bank.Prelude.{
  ℕ, ◌+◌, ◌*◌, ◌≢◌, arith, ◌≡◌, ◌≤◌, ◌<◌, refl, true, false, some, ok, not, ◌||◌,
}
use decentral_bank.Prelude.Int.{pos, ◌+ℤ◌, ◌-ℤ◌, ◌*ℤ◌, quot}
use decentral_bank.Prelude.Word
use decentral_bank.Chain.Memory.{memory, memory-IsChain}
use decentral_bank.Cdp.{Engine, Cdp, Bid}
use decentral_bank.Cdp.Wallet
use decentral_bank.Cdp.Wallet.Ledger.{balance_in, part, held}
use decentral_bank.Cdp.Position
use decentral_bank.Cdp.Auction
use decentral_bank.Cdp.Auction.Outcome.{outbid-carries, award_collateral-awards_nothing}
use decentral_bank.Cdp.Auction.Hazard.{liquify-hazard}
use decentral_bank.Cdp.Flaws.{liquify_full_first_bid}
use decentral_bank.Cdp.Tests.{
  context, engine, gold_backed, gold_feed, position, of_gold, of_dollar, outcome,
}

-- A position of account 3 that owes 400 at the price 10, and bidders with dollars.
abbrev hazard : Engine memory
hazard = record (engine 400 10) {
  accounts =
      memory.store
        (memory.store memory.empty 8 3 (record { balance = of_dollar 700; owner = 3; code = 1 })) 8
        6 (record { balance = of_dollar 0; owner = 6; code = 1 });
}

-- The same position of account 5, and nobody has bid.
abbrev endangered : Engine memory
endangered = record hazard {
  cdps = memory.store memory.empty 100 5 (record (position 400 60000) { owner = 5 });
}

abbrev started : Engine memory
started = outcome (Auction.liquify memory context 3 5 100 (of_dollar 100) endangered)

liquify-hazard_example :
    (0 < 400)
    × ((Position.is_fresh 1000 950 || not true) ≡ true)
    × (10 * 100 * 60000 < (150 * 10000 + 60000) * 400)
unfolding memory Auction.liquify Auction.start_liquidation Auction.place_bid Auction.first_bid
    Auction.with_penalty Wallet.sub_balance Position.is_fresh Position.ratio_i64 Word.div_i64
    Word.quot_i64 Word.mul_i64 Word.wrap_i64 Word.to_u64 Word.to_i64 Word.add_u64 Word.mul_u64
    Word.sub_u32 quot ◌*ℤ◌ ◌-ℤ◌
liquify-hazard_example =
    liquify-hazard memory context 3 5 100 (of_dollar 100) endangered started (gold_backed 400 60000)
      (record (position 400 60000) { owner = 5 }) (gold_feed 10) 10 400 60000 refl refl refl refl
      refl refl refl (omega arith) (omega arith) refl

-- Account 3 bids all that the position owes in liquidation.
liquify_full_first_bid_example :
    Auction.liquify memory context 3 5 100 (of_dollar 452) endangered ≢ ok endangered
unfolding memory Auction.with_penalty Word.add_u64 Word.mul_u64 Word.to_u64 Word.to_i64
liquify_full_first_bid_example =
    liquify_full_first_bid memory memory-IsChain context 3 5 100 (of_dollar 452) endangered
      endangered (gold_backed 400 60000) (record (position 400 60000) { owner = 5 }) refl refl refl
      refl refl

abbrev standing : Bid
standing = record { owner = 5; bidder = 6; bidamt = of_dollar 100; started = 900; lastbid = 950 }

abbrev seized : ℕ → ℕ → Cdp
seized debt locked = record (position debt locked) { owner = 5; live = false }

abbrev raised : Bid
raised = record standing { bidder = 3; bidamt = of_dollar 110; lastbid = 1000 }

abbrev outbidden : Engine memory
outbidden =
    elim (Auction.outbid memory context 3 5 100 (of_dollar 110) (gold_backed 400 60000)
      (seized 300 60000) standing hazard) [ ok (_, _, s) ↦ s | _ ↦ hazard ]

outbid-carries_example :
    (bt' : Bid) × (some raised ≡ some bt')
    × (memory.find outbidden.bids 100 5 ≡ some bt')
    × (memory.find outbidden.cdps 100 5 ≡ some (seized 290 60000))
    × (bt'.bidder ≡ 3)
    × (Auction.least_bid (pos 100) 3 ≤ Word.to_u64 bt'.bidamt.amount)
    × (of_gold 60000 ≡ of_gold 60000)
    × (pos 290 +ℤ bt'.bidamt.amount ≡ pos 300 +ℤ pos 100)
    × ((y : ℕ)
        → memory.weigh (balance_in y) outbidden.accounts
          ≡ memory.weigh (balance_in y) hazard.accounts
            -ℤ part y (of_dollar 110)
            +ℤ part y (of_dollar 100))
unfolding memory Auction.outbid Auction.least_bid Wallet.sub_balance Wallet.add_balance Word.add_u64
    Word.mul_u64 Word.to_u64 ◌+ℤ◌ ◌-ℤ◌
outbid-carries_example =
    outbid-carries memory memory-IsChain context 3 5 100 (of_dollar 110) (gold_backed 400 60000)
      (seized 300 60000) standing hazard outbidden (seized 290 60000) (some raised) refl

abbrev awarded : Engine memory
awarded =
    elim (Auction.award_collateral memory context 5 100 (gold_backed 400 60000) (seized 300 60000)
      standing hazard) [ ok (_, _, s) ↦ s | _ ↦ hazard ]

award_collateral-awards_nothing_example :
    (pos 0 ≡ pos 0)
    × (pos 60000 ≡ pos 60000)
    × ((y o : ℕ) → held (memory.find awarded.accounts y o) ≡ held (memory.find hazard.accounts y o))
unfolding memory Auction.award_collateral Wallet.add_balance ◌+ℤ◌ ◌-ℤ◌
award_collateral-awards_nothing_example =
    award_collateral-awards_nothing memory memory-IsChain context 5 100 (gold_backed 400 60000)
      (seized 300 60000) standing hazard (gold_backed 400 60000) (seized 300 0) awarded refl
