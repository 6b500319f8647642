-- ===== src/System/Voting.antt =====
-- The election of block producers (decentralbank.system/voting.cpp): registration, votes, proxies and
-- the schedule. A row that the source refers to while other rows change is read again where it is
-- written.
use decentral_bank.Prelude.{
  ℕ, zero, suc, ◌*◌, not, Bool, true, false, Option, none, some, List, [], ◌∷◌, String, ◌&&◌, ◌||◌,
  leb, ltb, ◌==◌, if◌then◌else◌, Result, ok, abort, ◌>>=◌, ◌>>◌, check, or_abort,
}
use decentral_bank.Prelude.Int.{ℤ, pos, ltb_ℤ, leb_ℤ, eqb_ℤ}
use decentral_bank.Prelude.Word.{add_i64, sub_i64, quot_i64}
use decentral_bank.Chain.{Context, Chain}
use decentral_bank.Chain.Double.{Float}
use decentral_bank.System.{
  System, Moment, ProducerInfo, ProducerInfo2, VoterInfo, GlobalState, Library, min_activated_stake,
  useconds_per_day, insert,
}
use decentral_bank.System.Params.{deactivate}
use Prim.Native.String.{len}
pub mod Ballots
pub mod Ends
pub mod Apart
pub mod Times

-- `producers.size() <= ...`
abbrev pub count : List ℕ → ℕ
count [] = 0
count (x ∷ xs) = suc (count xs)

-- `for( i = 1; ... ) producers[i-1] < producers[i]`
unfoldable pub ascending_from : ℕ → List ℕ → Bool
ascending_from a [] = true
ascending_from a (b ∷ l) = ltb a b && ascending_from b l

unfoldable pub ascending : List ℕ → Bool
unfolding ascending_from
ascending [] = true
ascending (a ∷ l) = ascending_from a l

-- `block_timestamp_epoch / 1000`, the year 2000 in seconds.
abbrev pub block_epoch : ℕ
block_epoch = 946_684_800

module _ (E : Chain) (F : Float) where
  open E use {find, store}
  open F use {Double, of_int, to_int, negated, plus, minus, times, over, fabs, pow, less}

  abbrev pub nought : Double
  nought = of_int (pos 0)

  -- `stake2vote( staked )`
  unfoldable pub stake2vote : ℕ → ℤ → Double
  stake2vote now staked =
      let weeks = quot_i64 (sub_i64 (pos now) (pos block_epoch)) (pos 604_800) in
      times (of_int staked) (pow (of_int (pos 2)) (over (of_int weeks) (of_int (pos 52))))

  -- The seconds from one time to another, as a `double`.
  abbrev pub seconds_between : ℤ → ℤ → Double
  seconds_between earlier later = over (of_int (sub_i64 later earlier)) (of_int (pos 1_000_000))

  -- `total += delta`, but not below zero.
  unfoldable pub add_capped : Double → Double → Double
  add_capped total delta =
      if less delta nought && less total (negated delta) then nought else plus total delta

  -- It returns the new total.
  unfoldable pub update_total_votepay_share :
      ℤ → Double → Double → GlobalState F → Double × GlobalState F
  update_total_votepay_share ct additional_shares_delta shares_rate_delta g =
      let grown =
        if ltb_ℤ g.last_vpay_state_update ct
        then times g.total_vpay_share_change_rate (seconds_between g.last_vpay_state_update ct)
        else nought in
      let total = add_capped g.total_producer_votepay_share (plus grown additional_shares_delta) in
      (
        total,
        record g {
          total_producer_votepay_share = total;
          total_vpay_share_change_rate =
              add_capped g.total_vpay_share_change_rate shares_rate_delta;
          last_vpay_state_update = ct;
        },
      )

  -- It returns the producer's share; `p` is the row of `producer`.
  unfoldable pub update_producer_votepay_share :
      Moment → ℕ → ProducerInfo2 F → Double → Bool → System E F → Double × System E F
  update_producer_votepay_share c producer p shares_rate reset_to_zero s =
      let ct = c.time in
      let grown =
        if less nought shares_rate && ltb_ℤ p.last_votepay_share_update ct
        then times shares_rate (seconds_between p.last_votepay_share_update ct)
        else nought in
      let share = plus p.votepay_share grown in
      (
        share,
        record s {
          producers2 = store s.producers2 c.at.self producer (record p {
            votepay_share = if reset_to_zero then nought else share;
            last_votepay_share_update = ct;
          });
        },
      )

  unfoldable pub regproducer : Moment → ℕ → ℕ → String → ℕ → System E F → Result (System E F)
  regproducer c producer producer_key url location s = do
    check (ltb (len url) 512) "url too long"
    check (not (producer_key == 0)) "public key should not be the default value"
    check (c.at.has_auth producer) "missing authority"
    let row2 : ProducerInfo2 F = record {
      owner = producer;
      votepay_share = nought;
      last_votepay_share_update = c.time;
    }
    elim (find s.producers c.at.self producer) [
      | none ↦ do
        producers2 ← insert E F s.producers2 c.at.self producer row2
        ok (record s {
          producers = store s.producers c.at.self producer (record {
            owner = producer;
            total_votes = nought;
            producer_key = producer_key;
            is_active = true;
            url = url;
            unpaid_blocks = 0;
            last_claim_time = c.time;
            location = location;
          });
          producers2 = producers2;
        })
      | some info ↦
          let info' = record info {
            producer_key = producer_key;
            is_active = true;
            url = url;
            location = location;
            last_claim_time =
                if eqb_ℤ info.last_claim_time (pos 0) then c.time else info.last_claim_time;
          } in
          let s' = record s { producers = store s.producers c.at.self producer info' } in
          elim (find s.producers2 c.at.self producer) [
            | some _ ↦ ok s'
            | none ↦ ok (record s' {
              producers2 = store s.producers2 c.at.self producer row2;
              global = (update_total_votepay_share c.time nought info.total_votes s.global).1;
            })
          ]
    ]

  unfoldable pub unregprod : Moment → ℕ → System E F → Result (System E F)
  unregprod c producer s = do
    check (c.at.has_auth producer) "missing authority"
    prod ← or_abort (find s.producers c.at.self producer) "producer not found"
    ok (record s { producers = store s.producers c.at.self producer (deactivate E F prod) })

  -- The loop that collects the elected producers, `room` at most.
  unfoldable pub elected : ℕ → List (ProducerInfo F) → List (ℕ × ℕ × ℕ)
  elected room [] = []
  elected zero (p ∷ l) = []
  elected (suc room) (p ∷ l) =
      let rest = elected room l in
      if less nought p.total_votes && p.is_active
      then (p.owner, p.producer_key, p.location) ∷ rest
      else []

  abbrev keys_of : List (ℕ × ℕ × ℕ) → List (ℕ × ℕ)
  keys_of [] = []
  keys_of ((name, key, location) ∷ l) = (name, key) ∷ keys_of l

  abbrev pub size : List (ℕ × ℕ × ℕ) → ℕ
  size [] = 0
  size (x ∷ l) = suc (size l)

  unfoldable pub update_elected_producers : Library E F → Moment → ℕ → System E F → System E F
  update_elected_producers B c block_time s₀ =
      let s = record s₀ {
        global = record s₀.global { last_producer_schedule_update = block_time };
      } in
      let top = elected 21 (B.by_votes s.producers c.at.self) in
      let keys = keys_of (B.sort top) in
      if ltb (size top) s.global.last_producer_schedule_size
      then s
      else if B.accepts keys
      then record s {
        global = record s.global { last_producer_schedule_size = size top };
        schedule = keys;
      }
      else s

  -- What the loops over producers carry along: the state, `delta_change_rate` and
  -- `total_inactive_vpay_share`.
  pub record Tally : Type 0 where
    pub now : System E F
    pub rate : Double
    pub inactive : Double

  -- The part of the loops on `producers2`, after the votes of the producer changed by `delta`.
  unfoldable pub settle_share : Moment → ProducerInfo F → ℕ → Double → Tally → Tally
  settle_share c prod producer delta t = elim (find t.now.producers2 c.at.self producer) [
    | none ↦ t
    | some p ↦
        let threshold = add_i64 prod.last_claim_time (pos (3 * useconds_per_day)) in
        let crossed = leb_ℤ threshold c.time in
        let updated = leb_ℤ threshold p.last_votepay_share_update in
        let r =
          update_producer_votepay_share c producer p (if updated then nought else prod.total_votes)
            (crossed && not updated) t.now in
        if not crossed
        then record { now = r.1; rate = plus t.rate delta; inactive = t.inactive }
        else if not updated
        then record {
          now = r.1;
          rate = minus t.rate prod.total_votes;
          inactive = plus t.inactive r.0;
        }
        else record { now = r.1; rate = t.rate; inactive = t.inactive }
  ]

  -- `update_total_votepay_share` after such a loop.
  unfoldable pub close_tally : Moment → Tally → System E F
  close_tally c t = record t.now {
    global = (update_total_votepay_share c.time (negated t.inactive) t.rate t.now.global).1;
  }

  abbrev pub open_tally : System E F → Tally
  open_tally s = record { now = s; rate = nought; inactive = nought }

  -- The loop of `propagate_weight_change`.
  unfoldable pub move_votes : Moment → Double → List ℕ → Tally → Result Tally
  move_votes c delta [] t = ok t
  move_votes c delta (acnt ∷ l) t =
      or_abort (find t.now.producers c.at.self acnt) "producer not found" >>= λ prod.
      let s = record t.now {
        producers =
            store t.now.producers c.at.self acnt
              (record prod { total_votes = plus prod.total_votes delta });
        global = record t.now.global {
          total_producer_vote_weight = plus t.now.global.total_producer_vote_weight delta;
        };
      } in
      move_votes c delta l (settle_share c prod acnt delta (record t { now = s }))

  abbrev weight_of : Moment → VoterInfo F → Double
  weight_of c v =
      let own = stake2vote c.at.now v.staked in
      if v.is_proxy then plus own v.proxied_vote_weight else own

  -- `propagate_weight_change( voter )` up to its recursive call: the new weight, the proxy to go on
  -- with, and the state.
  unfoldable pub propagate_once : Moment → ℕ → System E F → Result (Double × Option ℕ × System E F)
  propagate_once c owner s = do
    v ← or_abort (find s.voters c.at.self owner) "no such voter"
    check (v.proxy == 0 || not v.is_proxy)
        "account registered as a proxy is not allowed to use a proxy"
    let new_weight = weight_of c v
    let delta = minus new_weight v.last_vote_weight
    let to_proxy = do
      p ← or_abort (find s.voters c.at.self v.proxy) "proxy not found"
      ok (
        new_weight,
        some v.proxy,
        record s {
          voters =
              store s.voters c.at.self v.proxy
                (record p { proxied_vote_weight = plus p.proxied_vote_weight delta });
        },
      )
    let to_producers = do
      t ← move_votes c delta v.producers (open_tally s)
      ok (new_weight, none, close_tally c t)
    if less (of_int (pos 1)) (fabs delta)
        then (if v.proxy == 0 then to_producers else to_proxy)
        else ok (new_weight, none, s)

  -- Its last statement.
  unfoldable pub set_weight : Moment → ℕ → Double → System E F → Result (System E F)
  set_weight c owner weight s = do
    v ← or_abort (find s.voters c.at.self owner) "no such voter"
    ok (record s {
      voters = store s.voters c.at.self owner (record v { last_vote_weight = weight });
    })

  -- `none` means that the fuel ran out.
  unfoldable pub propagate_within : ℕ → Moment → ℕ → System E F → Option (Result (System E F))
  propagate_within zero c owner s = none
  propagate_within (suc fuel) c owner s = elim (propagate_once c owner s) [
    | abort e ↦ some (abort e)
    | ok (weight, none, s') ↦ some (set_weight c owner weight s')
    | ok (weight, some proxy, s') ↦ elim (propagate_within fuel c proxy s') [
      | none ↦ none
      | some r ↦ some (r >>= λ s''. set_weight c owner weight s'')
    ]
  ]

  unfoldable pub propagate_weight_change : ℕ → Moment → ℕ → System E F → Result (System E F)
  propagate_weight_change fuel c owner s = elim (propagate_within fuel c owner s) [
    | none ↦ abort "out of fuel"
    | some r ↦ r
  ]
