-- ===== src/System/Voting/Times.antt =====
-- The time of the last claim in the rows of producers, along the recursion through proxies
-- (decentralbank.system/voting.cpp, `propagate_weight_change`).
use decentral_bank.Prelude.{
  ℕ, zero, suc, ◌≡◌, refl, false, Option, some, none, List, [], ◌∷◌, ok, abort, Result-cases,
  Bool-cases, Option-cases, if_then, if_else, bind_then, check_then, ok_injective, or_abort,
  or_abort-ok, inl, inr, ap, sym, ◌∙◌, arith, ◌==◌, ◌||◌, not, ==_iff, ==_refl,
}
use decentral_bank.Prelude.Int.{ℤ, pos}
use decentral_bank.Chain.{Chain, IsChain}
use decentral_bank.Chain.Double.{Float}
use decentral_bank.System.{System, Moment, ProducerInfo}
use decentral_bank.System.Voting.{
  Tally, weight_of, move_votes, open_tally, close_tally, settle_share,
  update_producer_votepay_share, update_total_votepay_share, propagate_once, set_weight,
  propagate_within, propagate_weight_change,
}

module _ (E : Chain) (L : IsChain E) (F : Float) where
  open E use {find, store}

  -- The producer's row says that the last claim was at `time`.
  pub record IsClaimed (self owner : ℕ) (time : ℤ) (t : E.Table (ProducerInfo F)) : Type 0 where
    pub row : ProducerInfo F
    pub found : find t self owner ≡ some row
    pub at_time : row.last_claim_time ≡ time

  -- A row is written anew with the time that it had.
  pub rewritten :
      (self owner x : ℕ) (time : ℤ) (t : E.Table (ProducerInfo F)) (q q' : ProducerInfo F)
      → find t self x ≡ some q
      → (q.last_claim_time ≡ time → q'.last_claim_time ≡ time)
      → IsClaimed self owner time t
      → IsClaimed self owner time (store t self x q')
  rewritten self owner x time t q q' e same h = elim (Bool-cases (x == owner)) [
    | inl hit ↦
        let here : x ≡ owner = (==_iff x owner).0 hit in
        let it : q ≡ h.row = ground (arith, ap (λ k. find t self k) here, e, h.found) in
        record {
          row = q';
          found =
              ground
                (arith, L.find-store (ProducerInfo F) t self x q' self owner, ==_refl self, hit);
          at_time = same (ap (λ z. z.last_claim_time) it ∙ h.at_time);
        }
    | inr miss ↦ record {
      row = h.row;
      found = ground (
        arith,
        L.find-store (ProducerInfo F) t self x q' self owner,
        ==_refl self,
        miss,
        h.found,
      );
      at_time = h.at_time;
    }
  ]

  -- The row of another producer is written.
  pub elsewhere :
      (self owner x : ℕ) (time : ℤ) (t : E.Table (ProducerInfo F)) (q : ProducerInfo F)
      → (x == owner) ≡ false
      → IsClaimed self owner time t
      → IsClaimed self owner time (store t self x q)
  elsewhere self owner x time t q miss h = record {
    row = h.row;
    found =
        ground
          (arith, L.find-store (ProducerInfo F) t self x q self owner, ==_refl self, miss, h.found);
    at_time = h.at_time;
  }

  -- From `t` to `t'` no producer's row goes away or changes the time of its last claim.
  abbrev pub Keeps : ℕ → E.Table (ProducerInfo F) → E.Table (ProducerInfo F) → Type 0
  Keeps self t' t =
      (owner : ℕ) (time : ℤ) → IsClaimed self owner time t → IsClaimed self owner time t'

  pub same : (self : ℕ) {t' t : E.Table (ProducerInfo F)} → t ≡ t' → Keeps self t' t
  same self e owner time h = rw (← e) h

  pub after :
      (self : ℕ) {a b d : E.Table (ProducerInfo F)}
      → Keeps self d b
      → Keeps self b a
      → Keeps self d a
  after self second first owner time h = second owner time (first owner time h)

  -- A row that is written anew with its time.
  pub revised :
      (self x : ℕ) (t : E.Table (ProducerInfo F)) (q q' : ProducerInfo F)
      → find t self x ≡ some q
      → q'.last_claim_time ≡ q.last_claim_time
      → Keeps self (store t self x q') t
  revised self x t q q' e kept owner time h =
      rewritten self owner x time t q q' e (λ before. kept ∙ before) h

  pub settle_share-producers :
      (c : Moment) (prod : ProducerInfo F) (producer : ℕ) (d : F.Double) (t : Tally E F)
      → (settle_share E F c prod producer d t).now.producers ≡ t.now.producers
  unfolding settle_share update_producer_votepay_share
  settle_share-producers c prod producer d t = ground arith

  pub close_tally-producers :
      (c : Moment) (t : Tally E F) → (close_tally E F c t).producers ≡ t.now.producers
  unfolding close_tally update_total_votepay_share
  close_tally-producers c t = refl

  move_votes-Keeps :
      (c : Moment) (d : F.Double) (l : List ℕ) (t t' : Tally E F)
      → move_votes E F c d l t ≡ ok t'
      → Keeps c.at.self t'.now.producers t.now.producers
  unfolding move_votes
  move_votes-Keeps c d [] t t' h = same c.at.self (ap (λ x. x.now.producers) (ok_injective t t' h))
  move_votes-Keeps c d (a ∷ l) t t' h =
      bind_then (or_abort (find t.now.producers c.at.self a) _) _ _ h (λ prod e k.
        after c.at.self (move_votes-Keeps c d l _ t' k) (
          after c.at.self (same c.at.self (sym (settle_share-producers c prod a d _)))
            (revised c.at.self a t.now.producers prod _ (or_abort-ok _ _ prod e) refl)))

  propagate_once-Keeps :
      (c : Moment) (owner : ℕ) (s s' : System E F) (w : F.Double) (next : Option ℕ)
      → propagate_once E F c owner s ≡ ok (w, next, s')
      → Keeps c.at.self s'.producers s.producers
  unfolding propagate_once
  propagate_once-Keeps c owner s s' w next h =
      bind_then (or_abort (find s.voters c.at.self owner) _) _ _ h (λ v found h₁.
        check_then (v.proxy == 0 || not v.is_proxy) _ _ _ h₁ (λ _ h₂.
          let delta = F.minus (weight_of E F c v) v.last_vote_weight in
          let moved = F.less (F.of_int (pos 1)) (F.fabs delta) in
          elim (Bool-cases moved) [
            | inr still ↦ same c.at.self (
                ap (λ x. x.2.producers)
                  (ok_injective _ (w, next, s') (if_else moved _ _ _ still h₂)))
            | inl moves ↦
                let h₃ = if_then moved _ _ _ moves h₂ in
                elim (Bool-cases (v.proxy == 0)) [
                  | inl direct ↦
                      bind_then (move_votes E F c delta v.producers (open_tally E F s)) _ _
                        (if_then (v.proxy == 0) _ _ _ direct h₃)
                        (λ t e h₄.
                          after c.at.self
                            (same c.at.self (
                              sym (close_tally-producers c t)
                              ∙ ap (λ x. x.2.producers) (ok_injective _ (w, next, s') h₄)))
                            (move_votes-Keeps c delta v.producers (open_tally E F s) t e))
                  | inr proxied ↦
                      bind_then (or_abort (find s.voters c.at.self v.proxy) _) _ _
                        (if_else (v.proxy == 0) _ _ _ proxied h₃)
                        (λ p e h₄.
                          same c.at.self
                            (ap (λ x. x.2.producers) (ok_injective _ (w, next, s') h₄)))
                ]
          ]))

  set_weight-producers :
      (c : Moment) (owner : ℕ) (w : F.Double) (s s' : System E F)
      → set_weight E F c owner w s ≡ ok s'
      → s.producers ≡ s'.producers
  unfolding set_weight
  set_weight-producers c owner w s s' h =
      bind_then (or_abort (find s.voters c.at.self owner) _) _ _ h
        (λ v _ k. ap (λ x. x.producers) (ok_injective _ s' k))

  propagate_within-Keeps :
      (fuel : ℕ) (c : Moment) (owner : ℕ) (s s' : System E F)
      → propagate_within E F fuel c owner s ≡ some (ok s')
      → Keeps c.at.self s'.producers s.producers
  unfolding propagate_within
  propagate_within-Keeps zero c owner s s' h = absurd (ground arith)
  propagate_within-Keeps (suc fuel) c owner s s' h =
      elim (Result-cases (propagate_once E F c owner s)) [
        | inr (e, k) ↦ absurd (ground arith)
        | inl ((w, none, t), k) ↦
            after c.at.self (same c.at.self (set_weight-producers c owner w t s' (ground arith)))
              (propagate_once-Keeps c owner s t w none k)
        | inl ((w, some p, t), k) ↦ elim (Option-cases (propagate_within E F fuel c p t)) [
          | inl out ↦ absurd (ground arith)
          | inr (abort m, e) ↦ absurd (ground arith)
          | inr (ok u, e) ↦
              after c.at.self (same c.at.self (set_weight-producers c owner w u s' (ground arith)))
                (after c.at.self (propagate_within-Keeps fuel c p t u e)
                  (propagate_once-Keeps c owner s t w (some p) k))
        ]
      ]

  pub propagate_weight_change-Keeps :
      (fuel : ℕ) (c : Moment) (owner : ℕ) (s s' : System E F)
      → propagate_weight_change E F fuel c owner s ≡ ok s'
      → Keeps c.at.self s'.producers s.producers
  unfolding propagate_weight_change
  propagate_weight_change-Keeps fuel c owner s s' h =
      elim (Option-cases (propagate_within E F fuel c owner s)) [
        | inl out ↦ absurd (ground arith)
        | inr (r, e) ↦ propagate_within-Keeps fuel c owner s s' (ground arith)
      ]
