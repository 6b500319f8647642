-- ===== src/System/Pay.antt =====
-- The pay of block producers (decentralbank.system/producer_pay.cpp): `onblock` and `claimrewards`.
use decentral_bank.Prelude.{
  ℕ, ◌*◌, not, Bool, true, false, none, some, String, ◌&&◌, leb, ltb, ◌==◌, if◌then◌else◌, Result,
  ok, ◌>>=◌, ◌>>◌, check, or_abort,
}
use decentral_bank.Prelude.Int.{ℤ, pos, ltb_ℤ, leb_ℤ, eqb_ℤ}
use decentral_bank.Prelude.Word.{add_i64, sub_i64, mul_i64, quot_i64, add_u32, sub_u32}
use decentral_bank.Chain.{Asset, Context, Chain}
use decentral_bank.Chain.Double.{Float}
use decentral_bank.Token.{CurrencyStats}
use decentral_bank.System.{
  System, Moment, ProducerInfo, ProducerInfo2, GlobalState, Library, Inline, min_activated_stake,
  useconds_per_day, bpay_account, vpay_account, saving_account, asset, send, core_symbol, insert,
}
use decentral_bank.System.Names.{close_auction}
use decentral_bank.System.Voting.{
  nought, update_elected_producers, update_producer_votepay_share, update_total_votepay_share,
}
pub mod Again
pub mod Claims
pub mod Steps

-- `min_pervote_daily_pay`, `useconds_per_year` and `blocks_per_day`.
abbrev pub min_pervote_daily_pay : ℤ
min_pervote_daily_pay = pos 1_000_000

abbrev pub useconds_per_year : ℕ
useconds_per_year = 31_449_600_000_000

abbrev pub blocks_per_day : ℕ
blocks_per_day = 172_800

-- The parts of the tokens that a claim issues.
pub record Parts : Type 0 where
  pub to_savings : ℤ
  pub to_per_block_pay : ℤ
  pub to_per_vote_pay : ℤ

unfoldable pub split_tokens : ℤ → Parts
split_tokens new_tokens =
    let to_producers = quot_i64 new_tokens (pos 5) in
    let to_per_block_pay = quot_i64 to_producers (pos 4) in
    record {
      to_savings = sub_i64 new_tokens to_producers;
      to_per_block_pay = to_per_block_pay;
      to_per_vote_pay = sub_i64 to_producers to_per_block_pay;
    }

module _ (E : Chain) (F : Float) where
  open E use {find, store}
  open F use {Double, of_int, to_int, negated, times, over, less}

  -- The producer of the block gets one unpaid block more.
  unfoldable pub count_block : Moment → ℕ → System E F → System E F
  count_block c producer s = elim (find s.producers c.at.self producer) [
    | none ↦ s
    | some p ↦ record s {
      global = record s.global { total_unpaid_blocks = add_u32 s.global.total_unpaid_blocks 1 };
      producers =
          store s.producers c.at.self producer
            (record p { unpaid_blocks = add_u32 p.unpaid_blocks 1 });
    }
  ]

  -- `onblock( timestamp, producer )`, the time of the block as its slot.
  unfoldable pub onblock : Library E F → Moment → ℕ → ℕ → System E F → Result (System E F)
  onblock B c timestamp producer s₀ = do
    check (c.at.has_auth c.at.self) "missing authority"
    let s = record s₀ { global = record s₀.global { last_block_num = timestamp } }
    let started = record s {
      global = record s.global {
        last_pervote_bucket_fill =
            if eqb_ℤ s.global.last_pervote_bucket_fill (pos 0)
            then c.time
            else s.global.last_pervote_bucket_fill;
      };
    }
    let counted = count_block c producer started
    let chosen = update_elected_producers E F B c timestamp counted
    let closed =
        if ltb blocks_per_day (sub_u32 timestamp chosen.global.last_name_close)
        then close_auction E F B c timestamp chosen
        else chosen
    let updated =
        if ltb 120 (sub_u32 timestamp counted.global.last_producer_schedule_update)
        then closed
        else counted
    ok (if ltb_ℤ s.global.total_activated_stake min_activated_stake then s else updated)

  -- The tokens that are new since the buckets were filled.
  unfoldable pub new_tokens_of : ℤ → ℤ → ℤ
  new_tokens_of supply usecs = to_int (
      over (times (times F.continuous_rate (of_int supply)) (of_int usecs))
        (of_int (pos useconds_per_year)))

  -- They are issued, and handed to the savings and to the two buckets.
  unfoldable pub fill_buckets : Moment → ℤ → System E F → Result (System E F)
  fill_buckets c supply s = do
    let usecs = sub_i64 c.time s.global.last_pervote_bucket_fill
    let new_tokens = new_tokens_of supply usecs
    let parts = split_tokens new_tokens
    let filled = do
      core ← core_symbol E F c.at.self s
      all ← asset E F new_tokens core
      savings ← asset E F parts.to_savings core
      per_block ← asset E F parts.to_per_block_pay core
      per_vote ← asset E F parts.to_per_vote_pay core
      let issued =
          send E F (Inline.issue c.at.self all "issue tokens for producer pay and savings") s
      let saved =
          send E F (Inline.transfer c.at.self saving_account savings "unallocated inflation") issued
      let for_blocks =
          send E F (Inline.transfer c.at.self bpay_account per_block "fund per-block bucket") saved
      let for_votes =
          send E F (Inline.transfer c.at.self vpay_account per_vote "fund per-vote bucket")
            for_blocks
      ok (record for_votes {
        global = record s.global {
          pervote_bucket = add_i64 s.global.pervote_bucket parts.to_per_vote_pay;
          perblock_bucket = add_i64 s.global.perblock_bucket parts.to_per_block_pay;
          last_pervote_bucket_fill = c.time;
        };
      })
    if ltb_ℤ (pos 0) usecs && ltb_ℤ (pos 0) s.global.last_pervote_bucket_fill then filled else ok s

  -- `producer_per_block_pay`
  unfoldable pub per_block_pay : ProducerInfo F → GlobalState F → ℤ
  per_block_pay prod g =
      if ltb 0 g.total_unpaid_blocks
      then quot_i64 (mul_i64 g.perblock_bucket (pos prod.unpaid_blocks)) (pos g.total_unpaid_blocks)
      else pos 0

  -- `producer_per_vote_pay` before its minimum, and the global state, in the two revisions.
  unfoldable pub vote_pay : ℤ → ProducerInfo F → Double → Bool → GlobalState F → ℤ × GlobalState F
  vote_pay ct prod share crossed g =
      let r = update_total_votepay_share E F ct (nought E F) (nought E F) g in
      let bucket = r.1.pervote_bucket in
      let by_share = to_int (over (times share (of_int bucket)) r.0) in
      let capped = if ltb_ℤ bucket by_share then bucket else by_share in
      let by_weight =
        to_int
          (over (times (of_int g.pervote_bucket) prod.total_votes) g.total_producer_vote_weight) in
      if ltb 0 g.revision
      then (if less (nought E F) r.0 && not crossed then capped else pos 0, r.1)
      else (if less (nought E F) g.total_producer_vote_weight then by_weight else pos 0, g)

  -- A pay below the minimum is none.
  unfoldable pub at_minimum : ℤ → ℤ
  at_minimum pay = if ltb_ℤ pay min_pervote_daily_pay then pos 0 else pay

  -- The row of `producers2`, created where it is missing, and `updated_after_threshold`.
  unfoldable pub row2_of : Moment → ℕ → ℤ → System E F → ProducerInfo2 F × Bool
  row2_of c owner threshold s = elim (find s.producers2 c.at.self owner) [
    | some p ↦ (p, leb_ℤ threshold p.last_votepay_share_update)
    | none ↦ (
      record { owner = owner; votepay_share = nought E F; last_votepay_share_update = c.time },
      true,
    )
  ]

  -- What the pay takes from the buckets and from the unpaid blocks.
  unfoldable pub take_pay : ℤ → ℤ → ℕ → GlobalState F → GlobalState F
  take_pay for_blocks for_votes unpaid_blocks g = record g {
    pervote_bucket = sub_i64 g.pervote_bucket for_votes;
    perblock_bucket = sub_i64 g.perblock_bucket for_blocks;
    total_unpaid_blocks = sub_u32 g.total_unpaid_blocks unpaid_blocks;
  }

  -- A payment out of a bucket, where there is one.
  unfoldable pub pay_out : ℕ → ℕ → ℕ → ℤ → String → System E F → Result (System E F)
  pay_out self bucket owner amount memo s =
      let paid = (do
        core ← core_symbol E F self s
        quantity ← asset E F amount core
        ok (send E F (Inline.transfer bucket owner quantity memo) s)) in
      if ltb_ℤ (pos 0) amount then paid else ok s

  -- `claimrewards` from where the buckets are full.
  unfoldable pub pay_producer : Moment → ℕ → ProducerInfo F → System E F → Result (System E F)
  pay_producer c owner prod s =
      let threshold = add_i64 prod.last_claim_time (pos (3 * useconds_per_day)) in
      let row2 = row2_of c owner threshold s in
      let for_blocks = per_block_pay prod s.global in
      let r =
        update_producer_votepay_share E F c owner row2.0
          (if row2.1 then nought E F else prod.total_votes) true s in
      let v = vote_pay c.time prod r.0 (leb_ℤ threshold c.time) r.1.global in
      let for_votes = at_minimum v.0 in
      let taken = take_pay for_blocks for_votes prod.unpaid_blocks v.1 in
      let settled =
        update_total_votepay_share E F c.time (negated r.0)
          (if row2.1 then prod.total_votes else nought E F) taken in
      pay_out c.at.self bpay_account owner for_blocks "producer block pay" (record r.1 {
        global = settled.1;
        producers =
            store r.1.producers c.at.self owner
              (record prod { last_claim_time = c.time; unpaid_blocks = 0 });
      })
      >>= λ s'. pay_out c.at.self vpay_account owner for_votes "producer vote pay" s'

  -- `claimrewards( owner )`, where `statistics` are those of the token contract.
  unfoldable pub claimrewards :
      Moment → ℕ → E.Table CurrencyStats → System E F → Result (System E F)
  claimrewards c owner statistics s₀ = do
    check (c.at.has_auth owner) "missing authority"
    prod ← or_abort (find s₀.producers c.at.self owner) "unable to find key"
    check prod.is_active "producer does not have an active key"
    check (leb_ℤ min_activated_stake s₀.global.total_activated_stake)
        "cannot claim rewards until the chain is activated"
    check (ltb_ℤ (pos useconds_per_day) (sub_i64 c.time prod.last_claim_time))
        "already claimed rewards within past day"
    core ← core_symbol E F c.at.self s₀
    st ← or_abort (find statistics core.code core.code) "unable to find key"
    s ← fill_buckets c st.supply.amount s₀
    pay_producer c owner prod s
