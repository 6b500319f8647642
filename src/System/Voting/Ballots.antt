-- ===== src/System/Voting/Ballots.antt =====
-- Votes and proxies (decentralbank.system/voting.cpp): `voteproducer`, `update_votes` and `regproxy`.
use decentral_bank.Prelude.{
  ℕ, ◌*◌, not, Bool, true, false, Option, none, some, List, [], ◌∷◌, ◌&&◌, ◌||◌, leb, ltb, ◌==◌,
  if◌then◌else◌, Result, ok, abort, ◌>>=◌, ◌>>◌, check, or_abort,
}
use decentral_bank.Prelude.Int.{ℤ, pos, ltb_ℤ, leb_ℤ, eqb_ℤ}
use decentral_bank.Prelude.Word.{add_i64}
use decentral_bank.Chain.{Context, Chain}
use decentral_bank.Chain.Double.{Float}
use decentral_bank.System.{
  System, Moment, ProducerInfo, VoterInfo, GlobalState, min_activated_stake,
}
use decentral_bank.System.Voting.{
  count, ascending, nought, stake2vote, Tally, open_tally, close_tally, settle_share,
  propagate_weight_change,
}
pub mod Apart
pub mod Times
pub mod Links
pub mod Forest

module _ (E : Chain) (F : Float) where
  open E use {find, store}
  open F use {Double, of_int, negated, plus, minus, less, at_most}

  -- `flat_map<name, pair<double, bool>>`, in the order of the names.
  abbrev pub Deltas : Type 0
  Deltas = List (ℕ × Double × Bool)

  -- `auto& d = producer_deltas[p]; d.first = f( d.first ); d.second = fresh;`
  unfoldable pub adjust : (Double → Double) → Bool → ℕ → Deltas → Deltas
  adjust f fresh p [] = (p, f (nought E F), fresh) ∷ []
  adjust f fresh p ((q, d, b) ∷ l) =
      if p == q
      then (q, f d, fresh) ∷ l
      else if ltb p q
      then (p, f (nought E F), fresh) ∷ (q, d, b) ∷ l
      else (q, d, b) ∷ adjust f fresh p l

  unfoldable pub adjust_all : (Double → Double) → Bool → List ℕ → Deltas → Deltas
  adjust_all f fresh [] ds = ds
  adjust_all f fresh (p ∷ l) ds = adjust_all f fresh l (adjust f fresh p ds)

  -- `p.total_votes += delta`, and 0 if that is negative.
  unfoldable pub change_votes : Double → ProducerInfo F → ProducerInfo F
  change_votes delta p =
      let total = plus p.total_votes delta in
      record p { total_votes = if less total (nought E F) then nought E F else total }

  -- The loop over `producer_deltas`, and one turn of it.
  unfoldable pub apply_delta : Moment → Bool → ℕ → Double → Bool → Tally E F → Result (Tally E F)
  apply_delta c voting p delta fresh t = elim (find t.now.producers c.at.self p) [
    | none ↦ check (not fresh) "producer is not registered" >> ok t
    | some prod ↦
        check (not voting || (prod.is_active || not fresh)) "producer is not currently registered"
        >> ok (
            settle_share E F c prod p delta (record t {
              now = record t.now {
                producers = store t.now.producers c.at.self p (change_votes delta prod);
                global = record t.now.global {
                  total_producer_vote_weight = plus t.now.global.total_producer_vote_weight delta;
                };
              };
            }))
  ]

  unfoldable pub apply_deltas : Moment → Bool → Deltas → Tally E F → Result (Tally E F)
  apply_deltas c voting [] t = ok t
  apply_deltas c voting ((p, delta, fresh) ∷ l) t =
      apply_delta c voting p delta fresh t >>= λ t'. apply_deltas c voting l t'

  -- The first time that a stake votes it counts as activated.
  unfoldable pub activate : Moment → VoterInfo F → GlobalState F → GlobalState F
  activate c v g =
      let total = add_i64 g.total_activated_stake v.staked in
      let activated = record g {
        total_activated_stake = total;
        thresh_activated_stake_time =
            if leb_ℤ min_activated_stake total && eqb_ℤ g.thresh_activated_stake_time (pos 0)
            then c.time
            else g.thresh_activated_stake_time;
      } in
      if at_most v.last_vote_weight (nought E F) then activated else g

  -- "validate input"
  unfoldable pub check_ballot : ℕ → ℕ → List ℕ → Result (Unit {0})
  check_ballot voter proxy producers =
      if proxy == 0
      then (check (leb (count producers) 30) "attempt to vote for too many producers"
          >> check (ascending producers) "producer votes must be unique and sorted")
      else (check (count producers == 0) "cannot vote for producers and proxy at same time"
          >> check (not (voter == proxy)) "cannot proxy to self")

  -- `vp.proxied_vote_weight = f( vp.proxied_vote_weight )` on the row of a proxy, and on from there.
  unfoldable pub change_proxied :
      ℕ → Moment → ℕ → VoterInfo F → (Double → Double) → System E F → Result (System E F)
  change_proxied fuel c proxy vp f s = propagate_weight_change E F fuel c proxy (record s {
    voters =
        store s.voters c.at.self proxy
          (record vp { proxied_vote_weight = f vp.proxied_vote_weight });
  })

  -- The last vote of `v` is taken back.
  unfoldable pub undo_vote : ℕ → Moment → VoterInfo F → System E F → Result (Deltas × System E F)
  undo_vote fuel c v s =
      let by_proxy = (do
        old ← or_abort (find s.voters c.at.self v.proxy) "old proxy not found"
        s' ← change_proxied fuel c v.proxy old (λ w. minus w v.last_vote_weight) s
        ok ([], s')) in
      if less (nought E F) v.last_vote_weight
      then (if v.proxy == 0
          then ok (adjust_all (λ d. minus d v.last_vote_weight) false v.producers [], s)
          else by_proxy)
      else ok ([], s)

  -- The new vote, of the weight `w`.
  unfoldable pub cast_vote :
      ℕ → Moment → ℕ → List ℕ → Bool → Double → Deltas → System E F → Result (Deltas × System E F)
  cast_vote fuel c proxy producers voting w ds s =
      let by_proxy = (do
        new ← or_abort (find s.voters c.at.self proxy) "invalid proxy specified"
        check (not voting || new.is_proxy) "proxy not found"
        s' ←
            if at_most (nought E F) w
            then change_proxied fuel c proxy new (λ x. plus x w) s
            else ok s
        ok (ds, s')) in
      if proxy == 0
      then ok
          (if at_most (nought E F) w then adjust_all (λ d. plus d w) true producers ds else ds, s)
      else by_proxy

  -- Its last statement.
  unfoldable pub record_vote : Moment → ℕ → ℕ → List ℕ → Double → System E F → Result (System E F)
  record_vote c voter proxy producers w s = do
    v ← or_abort (find s.voters c.at.self voter) "no such voter"
    ok (record s {
      voters =
          store s.voters c.at.self voter
            (record v { last_vote_weight = w; producers = producers; proxy = proxy });
    })

  -- `update_votes( voter, proxy, producers, voting )`
  unfoldable pub update_votes :
      ℕ → Moment → ℕ → ℕ → List ℕ → Bool → System E F → Result (System E F)
  update_votes fuel c voter proxy producers voting s₀ = do
    check_ballot voter proxy producers
    let s = if proxy == 0 then s₀ else record s₀ { notified = proxy ∷ s₀.notified }
    v ← or_abort (find s.voters c.at.self voter) "user must stake before they can vote"
    check (proxy == 0 || not v.is_proxy)
        "account registered as a proxy is not allowed to use a proxy"
    let own = stake2vote E F c.at.now v.staked
    let w = if v.is_proxy then plus own v.proxied_vote_weight else own
    (ds, s₁) ← undo_vote fuel c v (record s { global = activate c v s.global })
    (ds', s₂) ← cast_vote fuel c proxy producers voting w ds s₁
    t ← apply_deltas c voting ds' (open_tally E F s₂)
    record_vote c voter proxy producers w (close_tally E F c t)

  -- `voteproducer( voter, proxy, producers )`
  unfoldable pub voteproducer : ℕ → Moment → ℕ → ℕ → List ℕ → System E F → Result (System E F)
  voteproducer fuel c voter proxy producers s = do
    check (c.at.has_auth voter) "missing authority"
    update_votes fuel c voter proxy producers true s

  -- `regproxy( proxy, isproxy )`
  unfoldable pub regproxy : ℕ → Moment → ℕ → Bool → System E F → Result (System E F)
  regproxy fuel c proxy isproxy s = do
    check (c.at.has_auth proxy) "missing authority"
    elim (find s.voters c.at.self proxy) [
      | some p ↦ do
        check (if isproxy then not p.is_proxy else p.is_proxy) "action has no effect"
        check (not isproxy || p.proxy == 0)
            "account that uses a proxy is not allowed to become a proxy"
        propagate_weight_change E F fuel c proxy
            (record s { voters = store s.voters c.at.self proxy (record p { is_proxy = isproxy }) })
      | none ↦ ok (record s {
        voters = store s.voters c.at.self proxy (record {
          owner = proxy;
          proxy = 0;
          producers = [];
          staked = pos 0;
          last_vote_weight = nought E F;
          proxied_vote_weight = nought E F;
          is_proxy = isproxy;
        });
      })
    ]
