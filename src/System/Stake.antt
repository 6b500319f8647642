-- ===== src/System/Stake.antt =====
-- Staking (decentralbank.system/delegate_bandwidth.cpp): `delegatebw`, `undelegatebw` and `refund`. The
-- source's `changebw` is cut at its blocks.
use decentral_bank.Prelude.{
  ℕ, ◌*◌, ◌+◌, ◌-◌, ◌/◌, ◌%◌, not, Bool, true, false, Option, none, some, List, [], ◌∷◌, ◌&&◌, ◌||◌,
  leb, ltb, ◌==◌, if◌then◌else◌, Result, ok, ◌>>=◌, ◌>>◌, check, or_abort,
}
use decentral_bank.Prelude.Int.{ℤ, pos, pos_part, neg_part, ltb_ℤ, leb_ℤ, eqb_ℤ}
use decentral_bank.Prelude.Word.{add_i64, sub_i64, add_u32, to_u64, u32_mod}
use decentral_bank.Chain.{Asset, Context, Chain}
use decentral_bank.Chain.Double.{Float}
use decentral_bank.System.{
  System, Moment, VoterInfo, UserResources, DelegatedBandwidth, RefundRequest, Limits, Inline,
  Deferred, Later, cancel_deferred, stake_account, min_activated_stake, asset, set_limits, send,
  core_symbol,
}
use decentral_bank.System.Ram.{ram_gift_bytes}
use decentral_bank.System.Voting.{nought}
use decentral_bank.System.Voting.Ballots.{update_votes}
pub mod Totals
pub mod Kept
pub mod Balances
pub mod Refunds
pub mod Custody

-- `refund_delay_sec`
abbrev pub refund_delay_sec : ℕ
refund_delay_sec = 259_200

-- The account "b1".
abbrev pub b1 : ℕ
b1 = 0x3840_0000_0000_0000

-- `time_point_sec( time )`
unfoldable pub to_seconds : ℤ → ℕ
to_seconds t = to_u64 t / 1_000_000 % u32_mod

abbrev pub abs : ℤ → ℕ
abs n = pos_part n + neg_part n

abbrev pub max_ℕ : ℕ → ℕ → ℕ
max_ℕ a b = if ltb a b then b else a

abbrev pub max_ℤ : ℤ → ℤ → ℤ
max_ℤ a b = if ltb_ℤ a b then b else a

-- A pair of changes, or of amounts, of network and processor bandwidth.
pub record Stakes : Type 0 where
  pub net : Asset
  pub cpu : Asset

module _ (E : Chain) (F : Float) where
  open E use {find, store, erase}
  open F use {Double, of_int, to_int, times, over}

  abbrev pub add : Asset → Asset → Result Asset
  add a b = or_abort (E.plus a b) "asset addition"

  abbrev pub subtract : Asset → Asset → Result Asset
  subtract a b = or_abort (E.minus a b) "asset subtraction"

  -- `validate_b1_vesting( stake )`
  unfoldable pub validate_b1_vesting : ℕ → ℤ → Result (Unit {0})
  validate_b1_vesting now stake =
      let max_claimable = pos 1_000_000_000_000 in
      let elapsed = of_int (sub_i64 (pos now) (pos 1_527_811_200)) in
      let claimable =
        to_int (over (times (of_int max_claimable) elapsed) (of_int (pos 314_496_000))) in
      check (leb_ℤ (sub_i64 max_claimable claimable) stake)
        "b1 can only claim their tokens over 10 years"

  unfoldable pub validate_stake : ℕ → ℕ → ℤ → Result (Unit {0})
  validate_stake now from stake = if from == b1 then validate_b1_vesting now stake else ok tt

  -- "update stake delegated from "from" to "receiver""
  unfoldable pub delegation_row : ℕ → ℕ → Stakes → System E F → Result DelegatedBandwidth
  delegation_row from receiver d s = elim (find s.delband from receiver) [
    | none ↦ ok (record { from = from; to = receiver; net_weight = d.net; cpu_weight = d.cpu })
    | some r ↦ do
      net ← add r.net_weight d.net
      cpu ← add r.cpu_weight d.cpu
      ok (record r { net_weight = net; cpu_weight = cpu })
  ]

  unfoldable pub change_delegation : ℕ → ℕ → Stakes → System E F → Result (System E F)
  change_delegation from receiver d s = do
    row ← delegation_row from receiver d s
    check (leb_ℤ (pos 0) row.net_weight.amount) "insufficient staked net bandwidth"
    check (leb_ℤ (pos 0) row.cpu_weight.amount) "insufficient staked cpu bandwidth"
    ok (record s {
      delband =
          if eqb_ℤ row.net_weight.amount (pos 0) && eqb_ℤ row.cpu_weight.amount (pos 0)
          then erase (store s.delband from receiver row) from receiver
          else store s.delband from receiver row;
    })

  -- "update totals of "receiver""
  unfoldable pub totals_row : ℕ → Stakes → System E F → Result UserResources
  totals_row receiver d s = elim (find s.userres receiver receiver) [
    | none ↦
        ok (record { owner = receiver; net_weight = d.net; cpu_weight = d.cpu; ram_bytes = pos 0 })
    | some r ↦ do
      net ← add r.net_weight d.net
      cpu ← add r.cpu_weight d.cpu
      ok (record r { net_weight = net; cpu_weight = cpu })
  ]

  unfoldable pub change_totals : ℕ → Stakes → System E F → Result (System E F)
  change_totals receiver d s = do
    row ← totals_row receiver d s
    check (leb_ℤ (pos 0) row.net_weight.amount) "insufficient staked total net bandwidth"
    check (leb_ℤ (pos 0) row.cpu_weight.amount) "insufficient staked total cpu bandwidth"
    let limits : Limits = record {
      ram = max_ℤ (add_i64 row.ram_bytes ram_gift_bytes) (s.limits receiver).ram;
      net = row.net_weight.amount;
      cpu = row.cpu_weight.amount;
    }
    let empty =
        eqb_ℤ row.net_weight.amount (pos 0)
        && (eqb_ℤ row.cpu_weight.amount (pos 0) && eqb_ℤ row.ram_bytes (pos 0))
    ok (
        set_limits E F receiver limits (record s {
          userres =
              if empty
              then erase (store s.userres receiver receiver row) receiver receiver
              else store s.userres receiver receiver row;
        }))

  -- One of the two amounts of a refund request that exists, and what is left of the change.
  unfoldable pub offset : Asset → Asset → Result (Asset × Asset)
  offset requested balance = do
    rest ← subtract requested balance
    ok (
        if ltb_ℤ rest.amount (pos 0)
        then (record rest { amount = pos 0 }, E.negated rest)
        else (rest, record balance { amount = pos 0 }))

  -- One of the two amounts of a new one, and what is left of the change.
  unfoldable pub request : ℕ → Asset → System E F → Result (Asset × Asset)
  request self balance s =
      let nothing = (do
        core ← core_symbol E F self s
        zero ← asset E F (pos 0) core
        ok (zero, balance)) in
      if ltb_ℤ balance.amount (pos 0)
      then ok (E.negated balance, record balance { amount = pos 0 })
      else nothing

  -- "create/update/delete refund": a request that exists, and a new one. They return what is left of
  -- the changes, whether a refund is to be scheduled, and the state.
  unfoldable pub update_refund :
      Moment → ℕ → Stakes → RefundRequest → System E F → Result (Stakes × Bool × System E F)
  update_refund c from d r s = do
    (net_amount, net) ← offset r.net_amount d.net
    (cpu_amount, cpu) ← offset r.cpu_amount d.cpu
    let falls = ltb_ℤ d.net.amount (pos 0) || ltb_ℤ d.cpu.amount (pos 0)
    let r' = record r {
      request_time = if falls then to_seconds c.time else r.request_time;
      net_amount = net_amount;
      cpu_amount = cpu_amount;
    }
    check (leb_ℤ (pos 0) net_amount.amount) "negative net refund amount"
    check (leb_ℤ (pos 0) cpu_amount.amount) "negative cpu refund amount"
    let settled = eqb_ℤ net_amount.amount (pos 0) && eqb_ℤ cpu_amount.amount (pos 0)
    ok (
      record { net = net; cpu = cpu },
      not settled,
      record s {
        refunds =
            if settled
            then erase (store s.refunds from from r') from from
            else store s.refunds from from r';
      },
    )

  unfoldable pub open_refund :
      Moment → ℕ → Stakes → System E F → Result (Stakes × Bool × System E F)
  open_refund c from d s = do
    (net_amount, net) ← request c.at.self d.net s
    (cpu_amount, cpu) ← request c.at.self d.cpu s
    ok (
      record { net = net; cpu = cpu },
      true,
      record s {
        refunds = store s.refunds from from (record {
          owner = from;
          request_time = to_seconds c.time;
          net_amount = net_amount;
          cpu_amount = cpu_amount;
        });
      },
    )

  unfoldable pub change_refund :
      Moment → ℕ → Stakes → System E F → Result (Stakes × Bool × System E F)
  change_refund c from d s =
      let falls = ltb_ℤ d.net.amount (pos 0) || ltb_ℤ d.cpu.amount (pos 0) in
      elim (find s.refunds from from) [
        | some r ↦ update_refund c from d r s
        | none ↦ if falls then open_refund c from d s else ok (d, false, s)
      ]

  -- The transaction that pays the refund out.
  unfoldable pub schedule_refund : ℕ → Bool → System E F → System E F
  schedule_refund from needed s =
      let cancelled = cancel_deferred from s.deferred in
      record s {
        deferred =
            if needed
            then record { id = from; delay_sec = refund_delay_sec; action = Later.refund from }
              ∷ cancelled
            else cancelled;
      }

  -- A refund is only changed for what falls, and for what accounts stake to themselves.
  unfoldable pub take_refund :
      Moment → ℕ → ℕ → Stakes → Bool → System E F → Result (Stakes × Bool × System E F)
  take_refund c from receiver d transfer s =
      let is_undelegating = ltb_ℤ (add_i64 d.net.amount d.cpu.amount) (pos 0) in
      let is_delegating_to_self = not transfer && from == receiver in
      if is_delegating_to_self || is_undelegating
      then change_refund c from d s
      else ok (d, false, s)

  -- "create refund or update from existing refund", and the payment of what it does not cover.
  unfoldable pub move_tokens : Moment → ℕ → ℕ → ℕ → Stakes → Bool → System E F → Result (System E F)
  move_tokens c source from receiver d transfer s = do
    (left, needed, s₁) ← take_refund c from receiver d transfer s
    let s₂ = schedule_refund from needed s₁
    transfer_amount ← add left.net left.cpu
    ok (
        if ltb_ℤ (pos 0) transfer_amount.amount
        then send E F (Inline.transfer source stake_account transfer_amount "stake bandwidth") s₂
        else s₂)

  unfoldable pub settle_tokens :
      Moment → ℕ → ℕ → ℕ → Stakes → Bool → System E F → Result (System E F)
  settle_tokens c source from receiver d transfer s =
      if source == stake_account then ok s else move_tokens c source from receiver d transfer s

  unfoldable pub staked_row : Moment → ℕ → Asset → System E F → VoterInfo F
  staked_row c from total s = elim (find s.voters c.at.self from) [
    | none ↦ record {
      owner = from;
      proxy = 0;
      producers = [];
      staked = total.amount;
      last_vote_weight = nought E F;
      proxied_vote_weight = nought E F;
      is_proxy = false;
    }
    | some v ↦ record v { staked = add_i64 v.staked total.amount }
  ]

  -- "update voting power": the row of the voter, and whether the vote has to be cast anew.
  unfoldable pub change_staked : Moment → ℕ → Asset → System E F → Result (VoterInfo F × System E F)
  change_staked c from total s = do
    let v = staked_row c from total s
    check (leb_ℤ (pos 0) v.staked) "stake for voting cannot be negative"
    validate_stake c.at.now from v.staked
    ok (v, record s { voters = store s.voters c.at.self from v })

  unfoldable pub recast : ℕ → Moment → ℕ → VoterInfo F → System E F → Result (System E F)
  recast fuel c from v s =
      let voted : Bool = elim v.producers [ [] ↦ not (v.proxy == 0) | _ ∷ _ ↦ true ] in
      if voted then update_votes E F fuel c from v.proxy v.producers false s else ok s

  -- `changebw( from, receiver, net, cpu, transfer )`
  unfoldable pub changebw : ℕ → Moment → ℕ → ℕ → Stakes → Bool → System E F → Result (System E F)
  changebw fuel c source receiver d transfer s = do
    check (c.at.has_auth source) "missing authority"
    check (not (eqb_ℤ d.net.amount (pos 0)) || not (eqb_ℤ d.cpu.amount (pos 0)))
        "should stake non-zero amount"
    total ← add d.net d.cpu
    check (leb (max_ℕ (abs d.net.amount) (abs d.cpu.amount)) (abs total.amount))
        "net and cpu deltas cannot be opposite signs"
    let from = if transfer then receiver else source
    s₁ ← change_delegation from receiver d s
    s₂ ← change_totals receiver d s₁
    s₃ ← settle_tokens c source from receiver d transfer s₂
    (v, s₄) ← change_staked c from total s₃
    recast fuel c from v s₄

  -- `a >= b` on assets.
  abbrev at_least : Asset → Asset → Result Bool
  at_least a b = or_abort (E.exceeds b a) "asset comparison" >>= λ below. ok (not below)

  unfoldable pub delegatebw :
      ℕ → Moment → ℕ → ℕ → Asset → Asset → Bool → System E F → Result (System E F)
  delegatebw fuel c from receiver net cpu transfer s = do
    core ← core_symbol E F c.at.self s
    zero ← asset E F (pos 0) core
    cpu_fits ← at_least cpu zero
    check cpu_fits "must stake a positive amount"
    net_fits ← at_least net zero
    check net_fits "must stake a positive amount"
    check (ltb_ℤ (pos 0) (add_i64 net.amount cpu.amount)) "must stake a positive amount"
    check (not transfer || not (from == receiver)) "cannot use transfer flag if delegating to self"
    changebw fuel c from receiver (record { net = net; cpu = cpu }) transfer s

  unfoldable pub undelegatebw :
      ℕ → Moment → ℕ → ℕ → Asset → Asset → System E F → Result (System E F)
  undelegatebw fuel c from receiver net cpu s = do
    core ← core_symbol E F c.at.self s
    zero ← asset E F (pos 0) core
    cpu_fits ← at_least cpu zero
    check cpu_fits "must unstake a positive amount"
    net_fits ← at_least net zero
    check net_fits "must unstake a positive amount"
    check (ltb_ℤ (pos 0) (add_i64 cpu.amount net.amount)) "must unstake a positive amount"
    check (leb_ℤ min_activated_stake s.global.total_activated_stake)
        "cannot undelegate bandwidth until the chain is activated"
    changebw fuel c from receiver (record { net = E.negated net; cpu = E.negated cpu }) false s

  -- `refund( owner )`
  unfoldable pub refund : Moment → ℕ → System E F → Result (System E F)
  refund c owner s = do
    check (c.at.has_auth owner) "missing authority"
    req ← or_abort (find s.refunds owner owner) "refund request not found"
    check (leb_ℤ (pos ((req.request_time + refund_delay_sec) * 1_000_000)) c.time)
        "refund is not available yet"
    total ← add req.net_amount req.cpu_amount
    let paid = send E F (Inline.transfer stake_account req.owner total "unstake") s
    ok (record paid { refunds = erase paid.refunds owner owner })
