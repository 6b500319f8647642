-- ===== src/System/Names/Escrow.antt =====
-- The tokens that the auctions of names hold: the bids of those that are open, and the refunds.
use decentral_bank.Prelude.{
  ℕ, ◌≡◌, refl, true, some, none, String, Option-cases, ◌∷◌, ok, abort, bind_then, check_then,
  ok_injective, or_abort, or_abort-ok, inl, inr, ap, sym, ◌∙◌, arith, if◌then◌else◌, ◌==◌, not, ◌/◌,
  ◌%◌,
}
use decentral_bank.Prelude.Int.{
  ℤ, pos, pos_part, neg_part, ◌+ℤ◌, ◌-ℤ◌, ◌<ℤ◌, ltb_ℤ, int_laws, shift_term, add_zero_eq,
}
use decentral_bank.Prelude.Word.{sub_i64, quot_i64}
use decentral_bank.Chain.{Asset, Chain, IsChain, weight}
use decentral_bank.Chain.Double.{Float}
use decentral_bank.System.{
  System, Moment, NameBid, BidRefund, Inline, Library, names_account, asset, core_symbol,
}
use decentral_bank.System.Exchange.Symbols.{asset-ok}
use decentral_bank.System.Names.{
  credit_refund, refund_row, schedule_refund, bidname, raise_bid, place_bid, bidrefund,
}

zero_add : (x : ℤ) → x ≡ pos 0 +ℤ x
zero_add x = omega int_laws

-- The new bid replaces the old one, which moves to the refunds.
moved_bid :
    (w' w w₀ before high new bid r' r : ℤ)
    → w' +ℤ before ≡ w +ℤ new
    → before ≡ high
    → new ≡ bid
    → w ≡ w₀
    → r' ≡ r +ℤ high
    → w' +ℤ r' ≡ w₀ +ℤ r +ℤ bid
moved_bid w' w w₀ before high new bid r' r h i j k l = omega (
  int_laws,
  ap pos_part h,
  ap neg_part h,
  ap pos_part i,
  ap neg_part i,
  ap pos_part j,
  ap neg_part j,
  ap pos_part k,
  ap neg_part k,
  ap pos_part l,
  ap neg_part l,
)

paid_out : (w r' r due old : ℤ) → r' +ℤ old ≡ r → old ≡ due → w +ℤ r' ≡ w +ℤ r -ℤ due
paid_out w r' r due old h i =
    omega (int_laws, ap pos_part h, ap neg_part h, ap pos_part i, ap neg_part i)

-- What a row of an auction holds while it is open, and what a refund is.
abbrev pub open_bid : ℕ → ℕ → NameBid → ℤ
open_bid scope key b = if ltb_ℤ (pos 0) b.high_bid then b.high_bid else pos 0

abbrev pub refund_due : ℕ → ℕ → BidRefund → ℤ
refund_due scope key r = r.amount.amount

module _ (E : Chain) (F : Float) where
  abbrev pub escrow : System E F → ℤ
  escrow s = E.weigh open_bid s.namebids +ℤ E.weigh refund_due s.bidrefunds

module _ (E : Chain) (L : IsChain E) (F : Float) (B : Library E F) where
  open E use {find, store}

  refund_row-adds :
      (newname : ℕ) (b : NameBid) (amount : Asset) (s : System E F) (row : BidRefund)
      → refund_row E F B newname b amount s ≡ ok row
      → row.amount.amount
        ≡ weight refund_due newname b.high_bidder (find s.bidrefunds newname b.high_bidder)
          +ℤ amount.amount
  unfolding refund_row
  refund_row-adds newname b amount s row h =
      elim (Option-cases (find s.bidrefunds newname b.high_bidder)) [
        | inl e ↦ ground (arith, zero_add amount.amount)
        | inr (r, e) ↦ elim (Option-cases (E.plus r.amount amount)) [
          | inl f ↦ absurd (ground arith)
          | inr (sum, f) ↦ let (n, _, _, _) = L.plus_some r.amount amount sum f in ground arith
        ]
      ]

  credit_refund-adds :
      (self newname : ℕ) (b : NameBid) (s s' : System E F)
      → credit_refund E F B self newname b s ≡ ok s'
      → (E.weigh refund_due s'.bidrefunds ≡ E.weigh refund_due s.bidrefunds +ℤ b.high_bid)
        × (s'.namebids ≡ s.namebids)
        × (s'.inline ≡ s.inline)
  unfolding credit_refund
  credit_refund-adds self newname b s s' h = bind_then (core_symbol E F self s) _ _ h (λ core _ h₁.
      bind_then (asset E F b.high_bid core) _ _ h₁ (λ amount made h₂.
        bind_then (refund_row E F B newname b amount s) _ _ h₂ (λ row e h₃.
          let (n, _) = asset-ok E L F b.high_bid core amount made in
          let sum = refund_row-adds newname b amount s row e in
          let stored = L.weigh-store BidRefund refund_due s.bidrefunds newname b.high_bidder row in
          (
            ap (λ x. E.weigh refund_due x.bidrefunds) (sym (ok_injective _ s' h₃))
                ∙ shift_term _ _ _ _ b.high_bid stored (
                    sum
                    ∙ ap
                        (λ x.
                          weight refund_due newname b.high_bidder
                            (find s.bidrefunds newname b.high_bidder)
                          +ℤ x)
                        n),
            ground arith,
            ground arith,
          ))))

  raise_bid-adds :
      (c : Moment) (bidder newname : ℕ) (bid : Asset) (b : NameBid) (s s' : System E F)
      → pos 0 <ℤ bid.amount
      → find s.namebids c.at.self newname ≡ some b
      → raise_bid E F B c bidder newname bid b s ≡ ok s'
      → (escrow E F s' ≡ escrow E F s +ℤ bid.amount) × (s'.inline ≡ s.inline)
  unfolding raise_bid schedule_refund
  raise_bid-adds c bidder newname bid b s s' positive found h =
      check_then (ltb_ℤ (pos 0) b.high_bid) _ _ _ h (λ live h₁.
        check_then (ltb_ℤ (quot_i64 b.high_bid (pos 10)) (sub_i64 bid.amount b.high_bid)) _ _ _ h₁
          (λ _ h₂. check_then (not (b.high_bidder == bidder)) _ _ _ h₂ (λ _ h₃.
            bind_then (credit_refund E F B c.at.self newname b s) _ _ h₃ (λ t credited h₄.
              let (refunded, kept, sent) = credit_refund-adds c.at.self newname b s t credited in
              let row : NameBid = record b {
                high_bidder = bidder;
                high_bid = bid.amount;
                last_bid_time = c.time;
              } in
              let stored = L.weigh-store NameBid open_bid t.namebids c.at.self newname row in
              let before =
                ap (weight open_bid c.at.self newname)
                  (ap (λ x. find x c.at.self newname) kept ∙ found) in
              let same = ap (E.weigh open_bid) kept in
              let old : weight open_bid c.at.self newname (some b) ≡ b.high_bid = ground arith in
              let new : open_bid c.at.self newname row ≡ bid.amount = ground arith in
              let e = ok_injective _ s' h₄ in
              (
                ap (escrow E F) (sym e)
                    ∙ moved_bid _ _ _ _ _ _ _ _ _ stored (before ∙ old) new same refunded,
                ap (λ x. x.inline) (sym e) ∙ sent,
              )))))

  place_bid-adds :
      (c : Moment) (bidder newname : ℕ) (bid : Asset) (s s' : System E F)
      → pos 0 <ℤ bid.amount
      → place_bid E F B c bidder newname bid s ≡ ok s'
      → (escrow E F s' ≡ escrow E F s +ℤ bid.amount) × (s'.inline ≡ s.inline)
  unfolding place_bid
  place_bid-adds c bidder newname bid s s' positive h =
      elim (Option-cases (find s.namebids c.at.self newname)) [
        | inr (b, found) ↦ raise_bid-adds c bidder newname bid b s s' positive found (ground arith)
        | inl fresh ↦
            let row : NameBid = record {
              newname = newname;
              high_bidder = bidder;
              high_bid = bid.amount;
              last_bid_time = c.time;
            } in
            let s₁ = record s { namebids = store s.namebids c.at.self newname row } in
            let e : s₁ ≡ s' = ok_injective _ s' (ground arith) in
            let stored = L.weigh-store NameBid open_bid s.namebids c.at.self newname row in
            let before = ap (weight open_bid c.at.self newname) fresh in
            let new : open_bid c.at.self newname row ≡ bid.amount = ground arith in
            (
              ap (escrow E F) (sym e)
                  ∙ moved_bid _ _ _ _ _ _ _ _ _ stored before new refl (add_zero_eq _),
              ap (λ x. x.inline) (sym e),
            )
      ]

  -- A bid on a name that succeeds is authorised and positive. It sends the bid's tokens once, from
  -- the bidder to the account of the auctions, and raises what the auctions hold, the open bids and
  -- the refunds that are due, by exactly the bid: the bid that it replaces becomes a refund.
  pub bidname-escrow :
      (c : Moment) (bidder newname : ℕ) (bid : Asset) (s s' : System E F)
      → bidname E F B c bidder newname bid s ≡ ok s'
      → (c.at.has_auth bidder ≡ true)
        × (pos 0 <ℤ bid.amount)
        × (escrow E F s' ≡ escrow E F s +ℤ bid.amount)
        × ((memo : String) × (s'.inline ≡ Inline.transfer bidder names_account bid memo ∷ s.inline))
  unfolding bidname
  bidname-escrow c bidder newname bid s s' h = check_then (c.at.has_auth bidder) _ _ _ h (λ auth h₁.
      check_then (B.suffix newname == newname) _ _ _ h₁ (λ _ h₂.
        check_then (not (newname == 0)) _ _ _ h₂ (λ _ h₃.
          check_then (newname % 16 == 0) _ _ _ h₃ (λ _ h₄.
            check_then (newname / 16 % 32 == 0) _ _ _ h₄ (λ _ h₅.
              check_then (not (c.at.is_account newname)) _ _ _ h₅ (λ _ h₆.
                bind_then (core_symbol E F c.at.self s) _ _ h₆ (λ core _ h₇.
                  check_then (E.same_symbol bid.symbol core) _ _ _ h₇ (λ _ h₈.
                    check_then (ltb_ℤ (pos 0) bid.amount) _ _ _ h₈ (λ positive h₉.
                      let pays : pos 0 <ℤ bid.amount = ground arith in
                      let (sum, sent) = place_bid-adds c bidder newname bid _ s' pays h₉ in
                      (auth, pays, sum, (_, sent)))))))))))

  -- A refund of a bid that succeeds sends the bidder what was due to that bidder on the name,
  -- lowers what the auctions hold by exactly this, and can not be taken a second time: the same
  -- action then aborts at any later moment, as long as no new refund is due.
  pub bidrefund-escrow :
      (c : Moment) (bidder newname : ℕ) (s s' : System E F)
      → bidrefund E F B c bidder newname s ≡ ok s'
      → (r : BidRefund) × (find s.bidrefunds newname bidder ≡ some r)
        × (escrow E F s' ≡ escrow E F s -ℤ r.amount.amount)
        × ((memo : String) × (s'.inline
              ≡ Inline.transfer names_account bidder r.amount memo ∷ s.inline))
        × ((again : Moment) → bidrefund E F B again bidder newname s' ≡ abort "refund not found")
  unfolding bidrefund
  bidrefund-escrow c bidder newname s s' h =
      bind_then (or_abort (find s.bidrefunds newname bidder) _) _ _ h (λ r e h₁.
        let found = or_abort-ok (find s.bidrefunds newname bidder) _ r e in
        let done = ok_injective _ s' h₁ in
        let erased = L.weigh-erase BidRefund refund_due s.bidrefunds newname bidder in
        let due = ap (weight refund_due newname bidder) found in
        let gone = L.find-erase BidRefund s.bidrefunds newname bidder newname bidder in
        let absent : find s'.bidrefunds newname bidder ≡ none =
          ap (λ x. find x.bidrefunds newname bidder) (sym done) ∙ ground (arith, gone) in
        (
          r,
          found,
          ap (escrow E F) (sym done) ∙ paid_out _ _ _ _ _ erased due,
          (_, ap (λ x. x.inline) (sym done)),
          λ again. ground (arith, absent),
        ))
