-- ===== src/System/Names.antt =====
-- The auction of account names (decentralbank.system/eosio.system.cpp, and its end in `onblock` of
-- producer_pay.cpp): `bidname`, `bidrefund` and `newaccount`. An auction that is closed has a negative
-- `high_bid`.
use decentral_bank.Prelude.{
  ℕ, zero, suc, ◌+◌, ◌*◌, ◌/◌, ◌%◌, not, Bool, true, false, none, some, ◌∷◌, ◌&&◌, ◌||◌, ◌==◌,
  if◌then◌else◌, Result, ok, ◌>>=◌, ◌>>◌, check, or_abort,
}
use decentral_bank.Prelude.Int.{ℤ, pos, ltb_ℤ, eqb_ℤ}
use decentral_bank.Prelude.Word.{sub_i64, quot_i64, wrap_i64, sub_u32, u64_mod}
use decentral_bank.Chain.{Symbol, Asset, Context, Chain}
use decentral_bank.Chain.Double.{Float}
use decentral_bank.System.{
  System, Moment, NameBid, BidRefund, UserResources, Limits, Inline, Deferred, Later, Library,
  GlobalState, cancel_deferred, names_account, eosio, useconds_per_day, asset, set_limits, send,
  core_symbol, insert,
}
use Prim.Native.String as Str
pub mod Escrow
pub mod Claims

-- `has_dot |= !( tmp & 0x1f ); tmp >>= 5;`, `n` times.
unfoldable pub dot_within : ℕ → ℕ → Bool → Bool
dot_within zero tmp has_dot = has_dot
dot_within (suc n) tmp has_dot = dot_within n (tmp / 32) (has_dot || tmp % 32 == 0)

-- The loop of `newaccount`: whether one of the first twelve characters is a dot.
unfoldable pub has_dot : ℕ → Bool
has_dot newact = dot_within 12 (newact / 16) false

module _ (E : Chain) (F : Float) (B : Library E F) where
  open E use {find, store, erase}

  -- What the outbid bidder of `b` gets back.
  unfoldable pub refund_row : ℕ → NameBid → Asset → System E F → Result BidRefund
  refund_row newname b amount s = elim (find s.bidrefunds newname b.high_bidder) [
    | none ↦ ok (record { bidder = b.high_bidder; amount = amount })
    | some r ↦ do
      sum ← or_abort (E.plus r.amount amount) "asset addition"
      ok (record r { amount = sum })
  ]

  unfoldable pub credit_refund : ℕ → ℕ → NameBid → System E F → Result (System E F)
  credit_refund self newname b s = do
    core ← core_symbol E F self s
    amount ← asset E F b.high_bid core
    row ← refund_row newname b amount s
    ok (record s { bidrefunds = store s.bidrefunds newname b.high_bidder row })

  -- The transaction that pays the refund out.
  unfoldable pub schedule_refund : ℕ → NameBid → System E F → System E F
  schedule_refund newname b s =
      let id = newname * u64_mod + b.high_bidder in
      record s {
        deferred =
            record { id = id; delay_sec = 0; action = Later.bidrefund b.high_bidder newname }
            ∷ cancel_deferred id s.deferred;
      }

  -- A bid on a name that has one.
  unfoldable pub raise_bid : Moment → ℕ → ℕ → Asset → NameBid → System E F → Result (System E F)
  raise_bid c bidder newname bid current s = do
    check (ltb_ℤ (pos 0) current.high_bid) "this auction has already closed"
    check (ltb_ℤ (quot_i64 current.high_bid (pos 10)) (sub_i64 bid.amount current.high_bid))
        "must increase bid by 10%"
    check (not (current.high_bidder == bidder)) "account is already highest bidder"
    credited ← credit_refund c.at.self newname current s
    let s' = schedule_refund newname current credited
    ok (record s' {
      namebids =
          store s'.namebids c.at.self newname (record current {
            high_bidder = bidder;
            high_bid = bid.amount;
            last_bid_time = c.time;
          });
    })

  unfoldable pub place_bid : Moment → ℕ → ℕ → Asset → System E F → Result (System E F)
  place_bid c bidder newname bid s = elim (find s.namebids c.at.self newname) [
    | none ↦ ok (record s {
      namebids = store s.namebids c.at.self newname (record {
        newname = newname;
        high_bidder = bidder;
        high_bid = bid.amount;
        last_bid_time = c.time;
      });
    })
    | some current ↦ raise_bid c bidder newname bid current s
  ]

  unfoldable pub bidname : Moment → ℕ → ℕ → Asset → System E F → Result (System E F)
  bidname c bidder newname bid s = do
    check (c.at.has_auth bidder) "missing authority"
    check (B.suffix newname == newname) "you can only bid on top-level suffix"
    check (not (newname == 0)) "the empty name is not a valid account name to bid on"
    check (newname % 16 == 0) "13 character names are not valid account names to bid on"
    check (newname / 16 % 32 == 0)
        "accounts with 12 character names and no dots can be created without bidding required"
    check (not (c.at.is_account newname)) "account already exists"
    core ← core_symbol E F c.at.self s
    check (E.same_symbol bid.symbol core) "asset must be system token"
    check (ltb_ℤ (pos 0) bid.amount) "insufficient bid"
    let paid =
        send E F
          (Inline.transfer bidder names_account bid (Str.◌++◌ "bid name " (B.to_string newname))) s
    place_bid c bidder newname bid paid

  unfoldable pub bidrefund : Moment → ℕ → ℕ → System E F → Result (System E F)
  bidrefund c bidder newname s = do
    it ← or_abort (find s.bidrefunds newname bidder) "refund not found"
    let paid =
        send E F
          (Inline.transfer names_account bidder it.amount
            (Str.◌++◌ "refund bid on name " (B.to_string newname)))
          s
    ok (record paid { bidrefunds = erase paid.bidrefunds newname bidder })

  -- The last part of `onblock`: the highest bid closes, at most one each day.
  unfoldable pub close_auction : Moment → ℕ → System E F → System E F
  close_auction c timestamp s = elim (B.by_high_bid s.namebids c.at.self 0x7fff_ffff_ffff_ffff) [
    | none ↦ s
    | some (key, highest) ↦
        if ltb_ℤ (pos 0) highest.high_bid
          && (ltb_ℤ (pos useconds_per_day) (sub_i64 c.time highest.last_bid_time)
              && (ltb_ℤ (pos 0) s.global.thresh_activated_stake_time
                  && ltb_ℤ (pos (14 * useconds_per_day))
                      (sub_i64 c.time s.global.thresh_activated_stake_time)))
        then record s {
          global = record s.global { last_name_close = timestamp };
          namebids =
              store s.namebids c.at.self key
                (record highest { high_bid = sub_i64 (pos 0) highest.high_bid });
        }
        else s
  ]

  -- The part of `newaccount` on names with a dot.
  unfoldable pub claim_name : ℕ → ℕ → ℕ → System E F → Result (System E F)
  claim_name self creator newact s = do
    let claim = do
      current ← or_abort (find s.namebids self newact) "no active bid for name"
      check (current.high_bidder == creator) "only highest bidder can claim"
      check (ltb_ℤ current.high_bid (pos 0)) "auction for name is not closed yet"
      ok (record s { namebids = erase s.namebids self newact })
    let by_suffix = do
      check (creator == B.suffix newact) "only suffix may create this account"
      ok s
    if B.suffix newact == newact then claim else by_suffix

  -- `newaccount( creator, newact, ... )`; the authorities are not read.
  unfoldable pub newaccount : Moment → ℕ → ℕ → System E F → Result (System E F)
  newaccount c creator newact s₀ = do
    s ←
        if not (creator == c.at.self) && has_dot newact
        then claim_name c.at.self creator newact s₀
        else ok s₀
    core ← core_symbol E F eosio s
    nothing ← asset E F (pos 0) core
    userres ←
        insert E F s.userres newact newact
          (record { owner = newact; net_weight = nothing; cpu_weight = nothing; ram_bytes = pos 0 })
    ok (
        set_limits E F newact (record { ram = pos 0; net = pos 0; cpu = pos 0 })
          (record s { userres = userres }))
