-- ===== src/System/Pay/Claims.antt =====
-- What a claim of a producer pays (decentralbank.system/producer_pay.cpp, `claimrewards`).
use decentral_bank.Prelude.{
  ◌⊎◌, refl, ◌&&◌, ℕ, ◌*◌, ◌≡◌, ◌<◌, ◌^◌, ◌-◌, ◌/◌, Bool, true, some, String, List, ◌∷◌, ok,
  Bool-cases, bind_then, check_then, ok_injective, if_then, if_else, or_abort, or_abort-ok, inl,
  inr, ap, sym, ◌∙◌, arith, if◌then◌else◌, ltb,
}
use decentral_bank.Prelude.Int.{ℤ, pos, quot, ◌+ℤ◌, ◌-ℤ◌, ◌≤ℤ◌, ltb_ℤ, leb_ℤ}
use decentral_bank.Prelude.Word.{sub_i64, add_i64, quot_i64, wrap_i64, to_u64, to_i64}
use decentral_bank.Chain.{Symbol, Chain, IsChain}
use decentral_bank.Chain.Double.{Float}
use decentral_bank.Token.{CurrencyStats}
use decentral_bank.System.{
  System, Moment, ProducerInfo, GlobalState, Inline, asset, core_symbol, useconds_per_day,
  min_activated_stake, bpay_account, vpay_account,
}
use decentral_bank.System.Exchange.Symbols.{asset-ok}
use decentral_bank.System.Pay.{
  split_tokens, fill_buckets, per_block_pay, vote_pay, at_minimum, take_pay, row2_of, pay_out,
  pay_producer, claimrewards,
}
use decentral_bank.System.Voting.{nought, update_producer_votepay_share, update_total_votepay_share}

-- The three parts of an amount of new tokens from 0 to 2 ^ 63 - 1 are not negative and add up to it
-- exactly.
pub split_tokens-sum :
    (n : ℕ)
    → n < 2 ^ 63
    → (a : ℕ) × (b : ℕ) × (d : ℕ) × ((split_tokens (pos n)).to_savings ≡ pos a)
      × ((split_tokens (pos n)).to_per_block_pay ≡ pos b)
      × ((split_tokens (pos n)).to_per_vote_pay ≡ pos d)
      × (pos n ≡ pos a +ℤ pos b +ℤ pos d)
unfolding split_tokens quot_i64 quot sub_i64 wrap_i64 to_u64 to_i64 ◌-ℤ◌ ◌+ℤ◌
split_tokens-sum n h = (
  n - n / 5,
  n / 5 / 4,
  n / 5 - n / 5 / 4,
  ground arith,
  ground arith,
  ground arith,
  ground arith,
)

-- A payment of the amount `n`, if positive, on top of the queued actions.
abbrev pub paid : (bucket owner : ℕ) → ℤ → String → Symbol → List Inline → List Inline
paid bucket owner n memo core l =
    if ltb_ℤ (pos 0) n
    then Inline.transfer bucket owner (record { amount = n; symbol = core }) memo ∷ l
    else l

module _ (E : Chain) (L : IsChain E) (F : Float) where
  open E use {find, store}

  -- What the votes of a producer are due, by the share of the producer at this time.
  abbrev pub votes_due : Moment → ℕ → ProducerInfo F → System E F → ℤ
  votes_due c owner prod s =
      let threshold = add_i64 prod.last_claim_time (pos (3 * useconds_per_day)) in
      let row2 = row2_of E F c owner threshold s in
      let r =
        update_producer_votepay_share E F c owner row2.0
          (if row2.1 then nought E F else prod.total_votes) true s in
      at_minimum E F (vote_pay E F c.time prod r.0 (leb_ℤ threshold c.time) r.1.global).0

  -- A payment sends its amount in the core symbol and changes nothing else.
  pay_out-sends :
      (self bucket owner : ℕ) (n : ℤ) (memo : String) (core : Symbol) (s s' : System E F)
      → core_symbol E F self s ≡ ok core
      → pay_out E F self bucket owner n memo s ≡ ok s'
      → s' ≡ record s { inline = paid bucket owner n memo core s.inline }
  unfolding pay_out
  pay_out-sends self bucket owner n memo core s s' known h = elim (Bool-cases (ltb_ℤ (pos 0) n)) [
    | inr none_due ↦
        let done = ok_injective s s' (if_else (ltb_ℤ (pos 0) n) _ _ _ none_due h) in
        rw none_due (sym done)
    | inl due ↦
        bind_then (core_symbol E F self s) _ _ (if_then (ltb_ℤ (pos 0) n) _ _ _ due h)
          (λ core' e h₁. bind_then (asset E F n core') _ _ h₁ (λ q made h₂.
            let (amount, symbol) = asset-ok E L F n core' q made in
            let same : core' ≡ core = ok_injective _ _ (sym e ∙ known) in
            let whole : q ≡ record { amount = n; symbol = core } = ground (arith, amount, symbol) in
            rw (due, ← whole) (sym (ok_injective _ s' h₂))))
  ]

  vote_pay-keeps :
      (ct : ℤ) (prod : ProducerInfo F) (share : F.Double) (crossed : Bool) (g : GlobalState F)
      → ((vote_pay E F ct prod share crossed g).1.perblock_bucket ≡ g.perblock_bucket)
        × ((vote_pay E F ct prod share crossed g).1.pervote_bucket ≡ g.pervote_bucket)
  unfolding vote_pay update_total_votepay_share
  vote_pay-keeps ct prod share crossed g = elim (Bool-cases (ltb 0 g.revision)) [
    | inl later ↦ (ground arith, ground arith)
    | inr first ↦ (ground arith, ground arith)
  ]

  pub fill_buckets-keeps :
      (c : Moment) (supply : ℤ) (s t : System E F)
      → fill_buckets E F c supply s ≡ ok t
      → (t.rammarket ≡ s.rammarket) × (t.producers ≡ s.producers)
  unfolding fill_buckets
  fill_buckets-keeps c supply s t h =
      elim (Bool-cases (
        ltb_ℤ (pos 0) (sub_i64 c.time s.global.last_pervote_bucket_fill)
        && ltb_ℤ (pos 0) s.global.last_pervote_bucket_fill)) [
          | inr early ↦
              let done = ok_injective s t (if_else _ _ _ _ early h) in
              (ap (λ x. x.rammarket) (sym done), ap (λ x. x.producers) (sym done))
          | inl late ↦
              bind_then (core_symbol E F c.at.self s) _ _ (if_then _ _ _ _ late h) (λ core _ h₁.
                bind_then (asset E F _ core) _ _ h₁ (λ all _ h₂.
                  bind_then (asset E F _ core) _ _ h₂ (λ savings _ h₃.
                    bind_then (asset E F _ core) _ _ h₃ (λ per_block _ h₄.
                      bind_then (asset E F _ core) _ _ h₄ (λ per_vote _ h₅.
                        let done = ok_injective _ t h₅ in
                        (ap (λ x. x.rammarket) (sym done), ap (λ x. x.producers) (sym done)))))))
        ]

  pub core_symbol-rammarket :
      (self : ℕ) (s t : System E F)
      → t.rammarket ≡ s.rammarket
      → core_symbol E F self t ≡ core_symbol E F self s
  unfolding core_symbol
  core_symbol-rammarket self s t e = rw e refl

  -- The steps of a claim that succeeds.
  pub claimrewards-steps :
      (c : Moment) (owner : ℕ) (st : E.Table CurrencyStats) (s s' : System E F)
      → claimrewards E F c owner st s ≡ ok s'
      → (prod : ProducerInfo F) × (core : Symbol) × (row : CurrencyStats) × (t : System E F) × (find
            s.producers c.at.self owner
          ≡ some prod)
        × (prod.is_active ≡ true)
        × (core_symbol E F c.at.self s ≡ ok core)
        × (find st core.code core.code ≡ some row)
        × (fill_buckets E F c row.supply.amount s ≡ ok t)
        × (pay_producer E F c owner prod t ≡ ok s')
  unfolding claimrewards
  claimrewards-steps c owner st s s' h = check_then (c.at.has_auth owner) _ _ _ h (λ _ h₁.
      bind_then (or_abort (find s.producers c.at.self owner) _) _ _ h₁ (λ prod found h₂.
        check_then prod.is_active _ _ _ h₂ (λ active h₃.
          check_then (leb_ℤ min_activated_stake s.global.total_activated_stake) _ _ _ h₃ (λ _ h₄.
            check_then (ltb_ℤ (pos useconds_per_day) (sub_i64 c.time prod.last_claim_time)) _ _ _ h₄
              (λ _ h₅. bind_then (core_symbol E F c.at.self s) _ _ h₅ (λ core known h₆.
                bind_then (or_abort (find st core.code core.code) _) _ _ h₆ (λ row listed h₇.
                  bind_then (fill_buckets E F c row.supply.amount s) _ _ h₇ (λ t filled h₈. (
                    prod,
                    core,
                    row,
                    t,
                    or_abort-ok _ _ prod found,
                    active,
                    known,
                    or_abort-ok _ _ row listed,
                    filled,
                    h₈,
                  )))))))))

  -- Where the buckets are full, a claim takes the two amounts out of them and sends them, and the
  -- producer starts anew: no unpaid blocks, and a claim at this time.
  pub pay_producer-pays :
      (c : Moment) (owner : ℕ) (prod : ProducerInfo F) (core : Symbol) (s s' : System E F)
      → core_symbol E F c.at.self s ≡ ok core
      → pay_producer E F c owner prod s ≡ ok s'
      → let a = per_block_pay E F prod s.global in
        let b = votes_due c owner prod s in
        (s'.global.perblock_bucket ≡ sub_i64 s.global.perblock_bucket a)
        × (s'.global.pervote_bucket ≡ sub_i64 s.global.pervote_bucket b)
        × (s'.inline
            ≡ paid vpay_account owner b "producer vote pay" core
                (paid bpay_account owner a "producer block pay" core s.inline))
        × (s'.producers
            ≡ store s.producers c.at.self owner
                (record prod { last_claim_time = c.time; unpaid_blocks = 0 }))
  unfolding pay_producer take_pay update_total_votepay_share update_producer_votepay_share
      core_symbol
  pay_producer-pays c owner prod core s s' known h =
      bind_then (pay_out E F c.at.self bpay_account owner _ _ _) _ _ h (λ t h₁ h₂.
        let e₁ = pay_out-sends c.at.self bpay_account owner _ _ core _ t known h₁ in
        let market = ap (λ x. x.rammarket) e₁ in
        let known' = core_symbol-rammarket c.at.self s t market ∙ known in
        let e₂ = pay_out-sends c.at.self vpay_account owner _ _ core t s' known' h₂ in
        let threshold = add_i64 prod.last_claim_time (pos (3 * useconds_per_day)) in
        let row2 = row2_of E F c owner threshold s in
        let r =
          update_producer_votepay_share E F c owner row2.0
            (if row2.1 then nought E F else prod.total_votes) true s in
        let b = votes_due c owner prod s in
        let (block_kept, vote_kept) =
          vote_pay-keeps c.time prod r.0 (leb_ℤ threshold c.time) r.1.global in
        (
          ap (λ x. x.global.perblock_bucket) e₂
              ∙ ap (λ x. x.global.perblock_bucket) e₁
              ∙ ap (λ x. sub_i64 x (per_block_pay E F prod s.global)) block_kept,
          ap (λ x. x.global.pervote_bucket) e₂
              ∙ ap (λ x. x.global.pervote_bucket) e₁
              ∙ ap (λ x. sub_i64 x b) vote_kept,
          ap (λ x. x.inline) e₂
              ∙ ap (λ x. paid vpay_account owner b "producer vote pay" core x.inline) e₁,
          ap (λ x. x.producers) e₂ ∙ ap (λ x. x.producers) e₁,
        ))

  -- A pay for votes is none, or reaches the minimum.
  votes_due-minimum :
      (c : Moment) (owner : ℕ) (prod : ProducerInfo F) (s : System E F)
      → (votes_due c owner prod s ≡ pos 0) ⊎ (pos 1_000_000 ≤ℤ votes_due c owner prod s)
  unfolding at_minimum
  votes_due-minimum c owner prod s = ground arith

  -- A claim that succeeds is that of an active producer. The buckets are filled from the supply in
  -- the statistics of the core symbol. Then the pay for blocks and the pay for votes are taken out
  -- of their buckets, modulo 2 ^ 64, and what is positive of them is sent to the producer, in the
  -- core symbol, from the account of its bucket; nothing else is sent. The pay for votes is none or
  -- at least 1000000. The row of the producer is left with no unpaid blocks and with this time as
  -- that of the last claim.
  pub claimrewards-pays :
      (c : Moment) (owner : ℕ) (st : E.Table CurrencyStats) (s s' : System E F)
      → claimrewards E F c owner st s ≡ ok s'
      → (prod : ProducerInfo F) × (core : Symbol) × (row : CurrencyStats) × (t : System E F) × (find
            s.producers c.at.self owner
          ≡ some prod)
        × (prod.is_active ≡ true)
        × (core_symbol E F c.at.self s ≡ ok core)
        × (find st core.code core.code ≡ some row)
        × (fill_buckets E F c row.supply.amount s ≡ ok t)
        × (s'.global.perblock_bucket
            ≡ sub_i64 t.global.perblock_bucket (per_block_pay E F prod t.global))
        × (s'.global.pervote_bucket ≡ sub_i64 t.global.pervote_bucket (votes_due c owner prod t))
        × (s'.inline
            ≡ paid vpay_account owner (votes_due c owner prod t) "producer vote pay" core (
                paid bpay_account owner
                  (per_block_pay E F prod t.global)
                  "producer block pay"
                  core
                  t.inline))
        × ((votes_due c owner prod t ≡ pos 0) ⊎ (pos 1_000_000 ≤ℤ votes_due c owner prod t))
        × (find s'.producers c.at.self owner
            ≡ some (record prod { last_claim_time = c.time; unpaid_blocks = 0 }))
  claimrewards-pays c owner st s s' h =
      let (prod, core, row, t, found, active, known, listed, filled, settled) =
        claimrewards-steps c owner st s s' h in
      let (market, _) = fill_buckets-keeps c row.supply.amount s t filled in
      let known' = core_symbol-rammarket c.at.self s t market ∙ known in
      let (block, vote, sent, rows) = pay_producer-pays c owner prod core t s' known' settled in
      let least = votes_due-minimum c owner prod t in
      let anew : ProducerInfo F = record prod { last_claim_time = c.time; unpaid_blocks = 0 } in
      let stored = L.find-store (ProducerInfo F) t.producers c.at.self owner anew c.at.self owner in
      let kept : find s'.producers c.at.self owner ≡ some anew = rw rows (ground (arith, stored)) in
      (prod, core, row, t, found, active, known, listed, filled, block, vote, sent, least, kept)
