-- ===== src/System/Pay/Again.antt =====
-- When the next claim of a producer can be made (decentralbank.system/producer_pay.cpp,
-- `claimrewards`), whatever happens to the table of producers in between.
use decentral_bank.Prelude.{
  ℕ, List, ◌≡◌, ◌≢◌, Bool, false, String, ok, abort, check-abort, or_abort-abort, arith, ==_refl,
}
use decentral_bank.Prelude.Int.{ℤ, pos, ◌≤ℤ◌, ltb_ℤ, leb_ℤ}
use decentral_bank.Prelude.Word.{sub_i64}
use decentral_bank.Chain.{Chain, IsChain}
use decentral_bank.Chain.Double.{Float}
use decentral_bank.Token.{CurrencyStats}
use decentral_bank.System.{
  System, Moment, ProducerInfo, Library, useconds_per_day, min_activated_stake,
}
use decentral_bank.System.Pay.{onblock, claimrewards}
use decentral_bank.System.Voting.{regproducer, unregprod}
use decentral_bank.System.Params.{rmvproducer}
use decentral_bank.System.Voting.Times.{IsClaimed}
use decentral_bank.System.Voting.Ballots.{voteproducer, regproxy}
use decentral_bank.System.Voting.Ballots.Times.{voteproducer-Keeps, regproxy-Keeps}
use decentral_bank.System.Pay.Steps.{
  onblock-IsClaimed, regproducer-IsClaimed, unregprod-IsClaimed, rmvproducer-IsClaimed,
  claimrewards-writes, claimrewards-IsClaimed,
}

module _ (E : Chain) (F : Float) (B : Library E F) where
  -- What happens in the contract `self` while the producer `owner` does not claim: blocks,
  -- registrations and deregistrations of any producer, votes and proxies of anybody, and the claims of
  -- the others.
  pub data Meanwhile (self owner : ℕ) (s : System E F) : System E F → Type 0 where
    here : Meanwhile self owner s s
    block :
        (c : Moment) (timestamp producer : ℕ) {t u : System E F}
        → Meanwhile self owner s t
        → c.at.self ≡ self
        → onblock E F B c timestamp producer t ≡ ok u
        → Meanwhile self owner s u
    registered :
        (c : Moment) (producer key : ℕ) (url : String) (location : ℕ) {t u : System E F}
        → Meanwhile self owner s t
        → c.at.self ≡ self
        → regproducer E F c producer key url location t ≡ ok u
        → Meanwhile self owner s u
    unregistered :
        (c : Moment) (producer : ℕ) {t u : System E F}
        → Meanwhile self owner s t
        → c.at.self ≡ self
        → unregprod E F c producer t ≡ ok u
        → Meanwhile self owner s u
    removed :
        (c : Moment) (producer : ℕ) {t u : System E F}
        → Meanwhile self owner s t
        → c.at.self ≡ self
        → rmvproducer E F c producer t ≡ ok u
        → Meanwhile self owner s u
    voted :
        (c : Moment) (fuel voter proxy : ℕ) (producers : List ℕ) {t u : System E F}
        → Meanwhile self owner s t
        → c.at.self ≡ self
        → voteproducer E F fuel c voter proxy producers t ≡ ok u
        → Meanwhile self owner s u
    proxy_registered :
        (c : Moment) (fuel proxy : ℕ) (isproxy : Bool) {t u : System E F}
        → Meanwhile self owner s t
        → c.at.self ≡ self
        → regproxy E F fuel c proxy isproxy t ≡ ok u
        → Meanwhile self owner s u
    other_paid :
        (c : Moment) (producer : ℕ) (st : E.Table CurrencyStats) {t u : System E F}
        → Meanwhile self owner s t
        → c.at.self ≡ self
        → producer ≢ owner
        → claimrewards E F c producer st t ≡ ok u
        → Meanwhile self owner s u

module _ (E : Chain) (L : IsChain E) (F : Float) where
  open E use {find, store}

  -- A step of the contract `k` is one of the contract `self`, where they are the same.
  onward :
      (owner : ℕ) (time : ℤ) {k self : ℕ} {t u : E.Table (ProducerInfo F)}
      → k ≡ self
      → (IsClaimed E L F k owner time t → IsClaimed E L F k owner time u)
      → IsClaimed E L F self owner time t
      → IsClaimed E L F self owner time u
  onward owner time at step h = rw (← at) (step (rw (← at) at h))

  Meanwhile-IsClaimed :
      (B : Library E F) (self owner : ℕ) (time : ℤ) (s : System E F) {u : System E F}
      → time ≢ pos 0
      → IsClaimed E L F self owner time s.producers
      → Meanwhile E F B self owner s u
      → IsClaimed E L F self owner time u.producers
  Meanwhile-IsClaimed B self owner time s later h here = h
  Meanwhile-IsClaimed B self owner time s later h (block c timestamp producer run at ran) =
      onward owner time at (onblock-IsClaimed E L F B c timestamp producer owner time _ _ ran)
        (Meanwhile-IsClaimed B self owner time s later h run)
  Meanwhile-IsClaimed B self owner time s later h (registered c p key url place run at ran) =
      onward owner time at (regproducer-IsClaimed E L F c p key url place owner time _ _ later ran)
        (Meanwhile-IsClaimed B self owner time s later h run)
  Meanwhile-IsClaimed B self owner time s later h (unregistered c p run at ran) =
      onward owner time at (unregprod-IsClaimed E L F c p owner time _ _ ran)
        (Meanwhile-IsClaimed B self owner time s later h run)
  Meanwhile-IsClaimed B self owner time s later h (removed c p run at ran) =
      onward owner time at (rmvproducer-IsClaimed E L F c p owner time _ _ ran)
        (Meanwhile-IsClaimed B self owner time s later h run)
  Meanwhile-IsClaimed B self owner time s later h (voted c fuel voter proxy l run at ran) =
      onward owner time at (voteproducer-Keeps E L F fuel c voter proxy l _ _ ran owner time)
        (Meanwhile-IsClaimed B self owner time s later h run)
  Meanwhile-IsClaimed B self owner time s later h (proxy_registered c fuel p is run at ran) =
      onward owner time at (regproxy-Keeps E L F fuel c p is _ _ ran owner time)
        (Meanwhile-IsClaimed B self owner time s later h run)
  Meanwhile-IsClaimed B self owner time s later h (other_paid c p st run at other ran) =
      onward owner time at (claimrewards-IsClaimed E L F c p owner time st _ _ other ran)
        (Meanwhile-IsClaimed B self owner time s later h run)

  -- A claim that finds the last one no more than a day ago aborts.
  claimrewards-early :
      (later : Moment) (owner : ℕ) (time : ℤ) (st : E.Table CurrencyStats) (u : System E F)
      → IsClaimed E L F later.at.self owner time u.producers
      → sub_i64 later.time time ≤ℤ pos useconds_per_day
      → (m : String) × (claimrewards E F later owner st u ≡ abort m)
  unfolding claimrewards
  claimrewards-early later owner time st u h soon =
      let early : ltb_ℤ (pos useconds_per_day) (sub_i64 later.time h.row.last_claim_time) ≡ false =
        rw (h.at_time) (ground arith) in
      check-abort (later.at.has_auth owner) _ _ (
        or_abort-abort (find u.producers later.at.self owner) _ _ _ (h.found) (
          check-abort h.row.is_active _ _ (
            check-abort (leb_ℤ min_activated_stake u.global.total_activated_stake) _ _
              ("already claimed rewards within past day", ground arith))))

  -- After a claim of a producer that succeeds, at a time other than 0, whatever blocks,
  -- registrations, deregistrations and removals of any producer, votes and proxies of anybody, and
  -- claims of other producers follow, every claim of that producer aborts that is made no more than
  -- a day later by the clock, whoever signs it and whatever the token's statistics are by then.
  pub claimrewards-again :
      (B : Library E F) (c : Moment) (owner : ℕ) (st : E.Table CurrencyStats) (s s' u : System E F)
      (later : Moment) (st' : E.Table CurrencyStats)
      → claimrewards E F c owner st s ≡ ok s'
      → c.time ≢ pos 0
      → Meanwhile E F B c.at.self owner s' u
      → later.at.self ≡ c.at.self
      → sub_i64 later.time c.time ≤ℤ pos useconds_per_day
      → (m : String) × (claimrewards E F later owner st' u ≡ abort m)
  claimrewards-again B c owner st s s' u later st' h started run self soon =
      let (p, at_time, rows) = claimrewards-writes E L F c owner st s s' h in
      let stored = L.find-store (ProducerInfo F) s.producers c.at.self owner p c.at.self owner in
      let claimed : IsClaimed E L F c.at.self owner c.time s'.producers = record {
        row = p;
        found = rw rows (ground (arith, stored, ==_refl owner, ==_refl c.at.self));
        at_time = at_time;
      } in
      let still = Meanwhile-IsClaimed B c.at.self owner c.time s' started claimed run in
      claimrewards-early later owner c.time st' u (rw (self) still) soon
