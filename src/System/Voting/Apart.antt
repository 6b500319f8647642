-- ===== src/System/Voting/Apart.antt =====
-- What votes and proxies leave as it is.
use decentral_bank.Prelude.{
  ℕ, zero, suc, ◌≡◌, refl, Option, some, none, List, [], ◌∷◌, ok, abort, Result-cases, Bool-cases,
  Option-cases, if_then, if_else, bind_then, check_then, ok_injective, or_abort, inl, inr, ap, sym,
  ◌∙◌, arith, ◌==◌, ◌||◌, not,
}
use decentral_bank.Prelude.Int.{pos}
use decentral_bank.Chain.{Chain}
use decentral_bank.Chain.Double.{Float}
use decentral_bank.System.{
  System, Moment, ProducerInfo, ExchangeState, UserResources, DelegatedBandwidth, RefundRequest,
  NameBid, BidRefund, Inline,
}
use decentral_bank.System.Voting.{
  Tally, weight_of, move_votes, open_tally, close_tally, settle_share,
  update_producer_votepay_share, update_total_votepay_share, propagate_once, set_weight,
  propagate_within, propagate_weight_change,
}

-- The tables of staking, RAM and names, what the token contract is sent, and the size of RAM.
pub record Rest (E : Chain) (F : Float) : Type 0 where
  pub userres : E.Table UserResources
  pub delband : E.Table DelegatedBandwidth
  pub refunds : E.Table RefundRequest
  pub rammarket : E.Table (ExchangeState F)
  pub namebids : E.Table NameBid
  pub bidrefunds : E.Table BidRefund
  pub inline : List Inline
  pub max_ram_size : ℕ
  pub reserved : ℕ

module _ (E : Chain) (F : Float) where
  open E use {find, store}

  abbrev pub rest : System E F → Rest E F
  rest s = record {
    userres = s.userres;
    delband = s.delband;
    refunds = s.refunds;
    rammarket = s.rammarket;
    namebids = s.namebids;
    bidrefunds = s.bidrefunds;
    inline = s.inline;
    max_ram_size = s.global.max_ram_size;
    reserved = s.global.total_ram_bytes_reserved;
  }

  pub settle_share-rest :
      (c : Moment) (prod : ProducerInfo F) (producer : ℕ) (d : F.Double) (t : Tally E F)
      → rest (settle_share E F c prod producer d t).now ≡ rest t.now
  unfolding settle_share update_producer_votepay_share
  settle_share-rest c prod producer d t = ground arith

  pub close_tally-rest : (c : Moment) (t : Tally E F) → rest (close_tally E F c t) ≡ rest t.now
  unfolding close_tally update_total_votepay_share
  close_tally-rest c t = refl

  move_votes-rest :
      (c : Moment) (d : F.Double) (l : List ℕ) (t t' : Tally E F)
      → move_votes E F c d l t ≡ ok t'
      → rest t'.now ≡ rest t.now
  unfolding move_votes
  move_votes-rest c d [] t t' h = ap (λ x. rest x.now) (sym (ok_injective t t' h))
  move_votes-rest c d (a ∷ l) t t' h =
      bind_then (or_abort (find t.now.producers c.at.self a) _) _ _ h
        (λ prod _ k. move_votes-rest c d l _ t' k ∙ settle_share-rest c prod a d _)

  propagate_once-rest :
      (c : Moment) (owner : ℕ) (s s' : System E F) (w : F.Double) (next : Option ℕ)
      → propagate_once E F c owner s ≡ ok (w, next, s')
      → rest s' ≡ rest s
  unfolding propagate_once
  propagate_once-rest c owner s s' w next h =
      bind_then (or_abort (find s.voters c.at.self owner) _) _ _ h (λ v found h₁.
        check_then (v.proxy == 0 || not v.is_proxy) _ _ _ h₁ (λ _ h₂.
          let delta = F.minus (weight_of E F c v) v.last_vote_weight in
          let moved = F.less (F.of_int (pos 1)) (F.fabs delta) in
          elim (Bool-cases moved) [
            | inr still ↦
                ap (λ x. rest x.2)
                  (sym (ok_injective _ (w, next, s') (if_else moved _ _ _ still h₂)))
            | inl moves ↦
                let h₃ = if_then moved _ _ _ moves h₂ in
                elim (Bool-cases (v.proxy == 0)) [
                  | inl direct ↦
                      bind_then (move_votes E F c delta v.producers (open_tally E F s)) _ _
                        (if_then (v.proxy == 0) _ _ _ direct h₃)
                        (λ t e h₄.
                          ap (λ x. rest x.2) (sym (ok_injective _ (w, next, s') h₄))
                          ∙ close_tally-rest c t
                          ∙ move_votes-rest c delta v.producers (open_tally E F s) t e)
                  | inr proxied ↦
                      bind_then (or_abort (find s.voters c.at.self v.proxy) _) _ _
                        (if_else (v.proxy == 0) _ _ _ proxied h₃)
                        (λ p e h₄. ap (λ x. rest x.2) (sym (ok_injective _ (w, next, s') h₄)))
                ]
          ]))

  set_weight-rest :
      (c : Moment) (owner : ℕ) (w : F.Double) (s s' : System E F)
      → set_weight E F c owner w s ≡ ok s'
      → rest s' ≡ rest s
  unfolding set_weight
  set_weight-rest c owner w s s' h =
      bind_then (or_abort (find s.voters c.at.self owner) _) _ _ h
        (λ v _ k. ap rest (sym (ok_injective _ s' k)))

  propagate_within-rest :
      (fuel : ℕ) (c : Moment) (owner : ℕ) (s s' : System E F)
      → propagate_within E F fuel c owner s ≡ some (ok s')
      → rest s' ≡ rest s
  unfolding propagate_within
  propagate_within-rest zero c owner s s' h = absurd (ground arith)
  propagate_within-rest (suc fuel) c owner s s' h =
      elim (Result-cases (propagate_once E F c owner s)) [
        | inr (e, k) ↦ absurd (ground arith)
        | inl ((w, none, t), k) ↦
            set_weight-rest c owner w t s' (ground arith) ∙ propagate_once-rest c owner s t w none k
        | inl ((w, some p, t), k) ↦ elim (Option-cases (propagate_within E F fuel c p t)) [
          | inl out ↦ absurd (ground arith)
          | inr (abort m, e) ↦ absurd (ground arith)
          | inr (ok u, e) ↦
              set_weight-rest c owner w u s' (ground arith)
              ∙ propagate_within-rest fuel c p t u e
              ∙ propagate_once-rest c owner s t w (some p) k
        ]
      ]

  pub propagate_weight_change-rest :
      (fuel : ℕ) (c : Moment) (owner : ℕ) (s s' : System E F)
      → propagate_weight_change E F fuel c owner s ≡ ok s'
      → rest s' ≡ rest s
  unfolding propagate_weight_change
  propagate_weight_change-rest fuel c owner s s' h =
      elim (Option-cases (propagate_within E F fuel c owner s)) [
        | inl out ↦ absurd (ground arith)
        | inr (r, e) ↦ propagate_within-rest fuel c owner s s' (ground arith)
      ]
