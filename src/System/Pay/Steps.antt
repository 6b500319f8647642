-- ===== src/System/Pay/Steps.antt =====
-- What blocks, registrations and claims do to the time of the last claim of a producer
-- (decentralbank.system/producer_pay.cpp and voting.cpp).
use decentral_bank.Prelude.{
  ℕ, ◌≡◌, ◌≢◌, refl, Bool, true, false, none, some, String, ok, Bool-cases, bind_then, check_then,
  or_abort, or_abort-ok, ok_injective, inl, inr, ap, sym, ◌∙◌, ◌⊎◌, arith, if◌then◌else◌, ◌==◌,
  ==_iff, ltb, not, Option-cases,
}
use decentral_bank.Prelude.Int.{ℤ, pos, ltb_ℤ, eqb_ℤ, eq_of_parts}
use decentral_bank.Prelude.Word.{add_u32, sub_u32}
use Prim.Native.String.{len}
use decentral_bank.Chain.{Chain, IsChain}
use decentral_bank.Chain.Double.{Float}
use decentral_bank.Token.{CurrencyStats}
use decentral_bank.System.{System, Moment, ProducerInfo, Library, insert, min_activated_stake}
use decentral_bank.System.Names.{close_auction}
use decentral_bank.System.Pay.{blocks_per_day, count_block, onblock, claimrewards}
use decentral_bank.System.Pay.Claims.{
  fill_buckets-keeps, core_symbol-rammarket, claimrewards-steps, pay_producer-pays,
}
use decentral_bank.System.Voting.{nought, update_elected_producers, regproducer, unregprod}
use decentral_bank.System.Params.{deactivate, rmvproducer}
use decentral_bank.System.Voting.Times.{IsClaimed, rewritten, elsewhere}

module _ (E : Chain) (L : IsChain E) (F : Float) where
  open E use {find, store}

  count_block-IsClaimed :
      (c : Moment) (producer owner : ℕ) (time : ℤ) (s : System E F)
      → IsClaimed E L F c.at.self owner time s.producers
      → IsClaimed E L F c.at.self owner time (count_block E F c producer s).producers
  unfolding count_block
  count_block-IsClaimed c producer owner time s h =
      elim (Option-cases (find s.producers c.at.self producer)) [
        | inl e ↦ let same : count_block E F c producer s ≡ s = ground (arith, e) in rw same h
        | inr (p, e) ↦
            let p' : ProducerInfo F = record p { unpaid_blocks = add_u32 p.unpaid_blocks 1 } in
            let counted : (count_block E F c producer s).producers
                ≡ store s.producers c.at.self producer p' =
              ground (arith, e) in
            rw counted
              (rewritten E L F c.at.self owner producer time s.producers p p' e (λ same. same) h)
      ]

  update_elected_producers-producers :
      (B : Library E F) (c : Moment) (time : ℕ) (s : System E F)
      → (update_elected_producers E F B c time s).producers ≡ s.producers
  unfolding update_elected_producers
  update_elected_producers-producers B c time s = ground arith

  close_auction-producers :
      (B : Library E F) (c : Moment) (time : ℕ) (s : System E F)
      → (close_auction E F B c time s).producers ≡ s.producers
  unfolding close_auction
  close_auction-producers B c time s = ground arith

  both :
      (b : Bool) (x y : System E F) (t : E.Table (ProducerInfo F))
      → x.producers ≡ t
      → y.producers ≡ t
      → (if b then x else y).producers ≡ t
  both true x y t h k = h
  both false x y t h k = k

  one_of :
      (b : Bool) (x y u : System E F) (t t' : E.Table (ProducerInfo F))
      → u.producers ≡ (if b then x else y).producers
      → x.producers ≡ t
      → y.producers ≡ t'
      → (u.producers ≡ t) ⊎ (u.producers ≡ t')
  one_of true x y u t t' e h k = inl (e ∙ h)
  one_of false x y u t t' e h k = inr (e ∙ k)

  -- A block changes the producers by its count only.
  onblock-producers :
      (B : Library E F) (c : Moment) (timestamp producer : ℕ) (s u : System E F)
      → onblock E F B c timestamp producer s ≡ ok u
      → (started : System E F) × (started.producers ≡ s.producers)
        × ((u.producers ≡ s.producers)
            ⊎ (u.producers ≡ (count_block E F c producer started).producers))
  unfolding onblock
  onblock-producers B c timestamp producer s u h =
      check_then (c.at.has_auth c.at.self) _ _ _ h (λ _ h₁.
        let s₁ : System E F = record s {
          global = record s.global { last_block_num = timestamp };
        } in
        let started : System E F = record s₁ {
          global = record s₁.global {
            last_pervote_bucket_fill =
                if eqb_ℤ s.global.last_pervote_bucket_fill (pos 0)
                then c.time
                else s.global.last_pervote_bucket_fill;
          };
        } in
        let counted = count_block E F c producer started in
        let chosen = update_elected_producers E F B c timestamp counted in
        let auctions = ltb blocks_per_day (sub_u32 timestamp chosen.global.last_name_close) in
        let closed = if auctions then close_auction E F B c timestamp chosen else chosen in
        let late = ltb 120 (sub_u32 timestamp counted.global.last_producer_schedule_update) in
        let updated = if late then closed else counted in
        let few = ltb_ℤ s.global.total_activated_stake min_activated_stake in
        let e₁ = update_elected_producers-producers B c timestamp counted in
        let e₂ = close_auction-producers B c timestamp chosen in
        let e₃ =
          both auctions (close_auction E F B c timestamp chosen) chosen counted.producers (e₂ ∙ e₁)
            e₁ in
        let done = ap (λ x. x.producers) (sym (ok_injective _ u h₁)) in
        (
          started,
          refl,
          one_of few s₁ updated u s.producers counted.producers done refl
              (both late closed counted counted.producers e₃ refl),
        ))

  pub onblock-IsClaimed :
      (B : Library E F) (c : Moment) (timestamp producer owner : ℕ) (time : ℤ) (s u : System E F)
      → onblock E F B c timestamp producer s ≡ ok u
      → IsClaimed E L F c.at.self owner time s.producers
      → IsClaimed E L F c.at.self owner time u.producers
  onblock-IsClaimed B c timestamp producer owner time s u h claimed =
      let (started, same, either) = onblock-producers B c timestamp producer s u h in
      elim either [
        | inl e ↦ rw e claimed
        | inr e ↦ rw e (count_block-IsClaimed c producer owner time started (rw same claimed))
      ]

  -- A registration writes the row of its producer, and a row that was there keeps its time, unless
  -- that is 0.
  regproducer-writes :
      (c : Moment) (producer key : ℕ) (url : String) (location : ℕ) (s u : System E F)
      → regproducer E F c producer key url location s ≡ ok u
      → (q : ProducerInfo F) × (u.producers ≡ store s.producers c.at.self producer q)
        × ((find s.producers c.at.self producer ≡ none)
            ⊎ ((info : ProducerInfo F) × (find s.producers c.at.self producer ≡ some info)
                × (q.last_claim_time ≡ (
                    if eqb_ℤ info.last_claim_time (pos 0) then c.time else info.last_claim_time))))
  unfolding regproducer
  regproducer-writes c producer key url location s u h =
      check_then (ltb (len url) 512) _ _ _ h (λ _ h₁. check_then (not (key == 0)) _ _ _ h₁ (λ _ h₂.
        check_then (c.at.has_auth producer) _ _ _ h₂ (λ _ h₃.
          elim (Option-cases (find s.producers c.at.self producer)) [
            | inl e ↦
                bind_then
                  (insert E F s.producers2 c.at.self producer (record {
                    owner = producer;
                    votepay_share = nought E F;
                    last_votepay_share_update = c.time;
                  }))
                  _ _ (rw e at h₃)
                  (λ producers2 _ h₄. (
                    record {
                      owner = producer;
                      total_votes = nought E F;
                      producer_key = key;
                      is_active = true;
                      url = url;
                      unpaid_blocks = 0;
                      last_claim_time = c.time;
                      location = location;
                    },
                    ap (λ x. x.producers) (sym (ok_injective _ u h₄)),
                    inl e,
                  ))
            | inr (info, e) ↦
                let info' : ProducerInfo F = record info {
                  producer_key = key;
                  is_active = true;
                  url = url;
                  location = location;
                  last_claim_time =
                      if eqb_ℤ info.last_claim_time (pos 0) then c.time else info.last_claim_time;
                } in
                let rows : u.producers ≡ store s.producers c.at.self producer info' =
                  elim (Option-cases (find s.producers2 c.at.self producer)) [
                    | inl f ↦ ap (λ x. x.producers) (sym (ok_injective _ u (rw (e, f) at h₃)))
                    | inr (p, f) ↦ ap (λ x. x.producers) (sym (ok_injective _ u (rw (e, f) at h₃)))
                  ] in
                (info', rows, inr (info, e, refl))
          ])))

  same_time :
      (before now time : ℤ)
      → time ≢ pos 0
      → before ≡ time
      → (if eqb_ℤ before (pos 0) then now else before) ≡ time
  same_time before now time later same = elim (Bool-cases (eqb_ℤ before (pos 0))) [
    | inl zero_time ↦ absurd (later (sym same ∙ eq_of_parts before (pos 0) (ground arith)))
    | inr some_time ↦ ground arith
  ]

  pub regproducer-IsClaimed :
      (c : Moment) (producer key : ℕ) (url : String) (location owner : ℕ) (time : ℤ)
      (s u : System E F)
      → time ≢ pos 0
      → regproducer E F c producer key url location s ≡ ok u
      → IsClaimed E L F c.at.self owner time s.producers
      → IsClaimed E L F c.at.self owner time u.producers
  regproducer-IsClaimed c producer key url location owner time s u later h claimed =
      let (q, rows, either) = regproducer-writes c producer key url location s u h in
      elim either [
        | inl new ↦ elim (Bool-cases (producer == owner)) [
          | inl hit ↦
              let it = ap (λ k. find s.producers c.at.self k) ((==_iff producer owner).0 hit) in
              absurd (ground (arith, it, new, claimed.found))
          | inr miss ↦
              rw rows (elsewhere E L F c.at.self owner producer time s.producers q miss claimed)
        ]
        | inr (info, e, kept) ↦ rw rows (
            rewritten E L F c.at.self owner producer time s.producers info q e
              (λ same. kept ∙ same_time _ c.time time later same) claimed)
      ]

  pub unregprod-IsClaimed :
      (c : Moment) (producer owner : ℕ) (time : ℤ) (s u : System E F)
      → unregprod E F c producer s ≡ ok u
      → IsClaimed E L F c.at.self owner time s.producers
      → IsClaimed E L F c.at.self owner time u.producers
  unfolding unregprod deactivate
  unregprod-IsClaimed c producer owner time s u h claimed =
      check_then (c.at.has_auth producer) _ _ _ h (λ _ h₁.
        bind_then (or_abort (find s.producers c.at.self producer) _) _ _ h₁ (λ prod e h₂.
          let done = ok_injective _ u h₂ in
          rw (← done) (
            rewritten E L F c.at.self owner producer time s.producers prod _
              (or_abort-ok _ _ prod e) (λ same. same) claimed)))

  pub rmvproducer-IsClaimed :
      (c : Moment) (producer owner : ℕ) (time : ℤ) (s u : System E F)
      → rmvproducer E F c producer s ≡ ok u
      → IsClaimed E L F c.at.self owner time s.producers
      → IsClaimed E L F c.at.self owner time u.producers
  unfolding rmvproducer deactivate
  rmvproducer-IsClaimed c producer owner time s u h claimed =
      check_then (c.at.has_auth c.at.self) _ _ _ h (λ _ h₁.
        bind_then (or_abort (find s.producers c.at.self producer) _) _ _ h₁ (λ prod e h₂.
          let done = ok_injective _ u h₂ in
          rw (← done) (
            rewritten E L F c.at.self owner producer time s.producers prod _
              (or_abort-ok _ _ prod e) (λ same. same) claimed)))

  -- A claim writes the row of its producer only.
  pub claimrewards-writes :
      (c : Moment) (producer : ℕ) (st : E.Table CurrencyStats) (s u : System E F)
      → claimrewards E F c producer st s ≡ ok u
      → (p : ProducerInfo F) × (p.last_claim_time ≡ c.time)
        × (u.producers ≡ store s.producers c.at.self producer p)
  claimrewards-writes c producer st s u h =
      let (prod, core, row, t, _, _, known, _, filled, settled) =
        claimrewards-steps E L F c producer st s u h in
      let (market, kept) = fill_buckets-keeps E L F c row.supply.amount s t filled in
      let known' = core_symbol-rammarket E L F c.at.self s t market ∙ known in
      let (_, _, _, rows) = pay_producer-pays E L F c producer prod core t u known' settled in
      let anew : ProducerInfo F = record prod { last_claim_time = c.time; unpaid_blocks = 0 } in
      (anew, refl, rows ∙ ap (λ x. store x c.at.self producer anew) kept)

  pub claimrewards-IsClaimed :
      (c : Moment) (producer owner : ℕ) (time : ℤ) (st : E.Table CurrencyStats) (s u : System E F)
      → producer ≢ owner
      → claimrewards E F c producer st s ≡ ok u
      → IsClaimed E L F c.at.self owner time s.producers
      → IsClaimed E L F c.at.self owner time u.producers
  claimrewards-IsClaimed c producer owner time st s u other h claimed =
      let (p, _, rows) = claimrewards-writes c producer st s u h in
      elim (Bool-cases (producer == owner)) [
        | inl hit ↦ absurd (other ((==_iff producer owner).0 hit))
        | inr miss ↦
            rw rows (elsewhere E L F c.at.self owner producer time s.producers p miss claimed)
      ]
