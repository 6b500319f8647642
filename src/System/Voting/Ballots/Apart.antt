-- ===== src/System/Voting/Ballots/Apart.antt =====
-- What the change of a vote leaves as it is.
use decentral_bank.Prelude.{
  ℕ, ◌≡◌, Bool, List, [], ◌∷◌, ok, Bool-cases, Option-cases, if_then, if_else, bind_then,
  check_then, ok_injective, or_abort, inl, inr, ap, sym, ◌∙◌, arith, if◌then◌else◌, ◌==◌, ◌||◌, not,
}
use decentral_bank.Chain.{Chain}
use decentral_bank.Chain.Double.{Float}
use decentral_bank.System.{System, Moment, VoterInfo}
use decentral_bank.System.Voting.{Tally, nought, open_tally, close_tally, settle_share}
use decentral_bank.System.Voting.Apart.{
  rest, settle_share-rest, close_tally-rest, propagate_weight_change-rest,
}
use decentral_bank.System.Voting.Ballots.{
  Deltas, change_proxied, change_votes, undo_vote, cast_vote, apply_delta, apply_deltas,
  record_vote, update_votes, check_ballot, activate,
}

module _ (E : Chain) (F : Float) where
  open E use {find, store}

  change_proxied-rest :
      (fuel : ℕ) (c : Moment) (proxy : ℕ) (v : VoterInfo F) (f : F.Double → F.Double)
      (s s' : System E F)
      → change_proxied E F fuel c proxy v f s ≡ ok s'
      → rest E F s' ≡ rest E F s
  unfolding change_proxied
  change_proxied-rest fuel c proxy v f s s' h = propagate_weight_change-rest E F fuel c proxy _ s' h

  undo_vote-rest :
      (fuel : ℕ) (c : Moment) (v : VoterInfo F) (s s' : System E F) (ds : Deltas E F)
      → undo_vote E F fuel c v s ≡ ok (ds, s')
      → rest E F s' ≡ rest E F s
  unfolding undo_vote
  undo_vote-rest fuel c v s s' ds h = elim (Bool-cases (F.less (nought E F) v.last_vote_weight)) [
    | inr new ↦
        ap (λ x. rest E F x.1)
          (sym (
            ok_injective _ (ds, s') (if_else (F.less (nought E F) v.last_vote_weight) _ _ _ new h)))
    | inl old ↦
        let h₁ = if_then (F.less (nought E F) v.last_vote_weight) _ _ _ old h in
        elim (Bool-cases (v.proxy == 0)) [
          | inl direct ↦
              ap (λ x. rest E F x.1)
                (sym (ok_injective _ (ds, s') (if_then (v.proxy == 0) _ _ _ direct h₁)))
          | inr proxied ↦
              bind_then (or_abort (find s.voters c.at.self v.proxy) _) _ _
                (if_else (v.proxy == 0) _ _ _ proxied h₁)
                (λ p _ h₂. bind_then (change_proxied E F fuel c v.proxy p _ s) _ _ h₂ (λ t e h₃.
                  ap (λ x. rest E F x.1) (sym (ok_injective _ (ds, s') h₃))
                  ∙ change_proxied-rest fuel c v.proxy p _ s t e))
        ]
  ]

  cast_vote-rest :
      (fuel : ℕ) (c : Moment) (proxy : ℕ) (l : List ℕ) (voting : Bool) (w : F.Double)
      (ds ds' : Deltas E F) (s s' : System E F)
      → cast_vote E F fuel c proxy l voting w ds s ≡ ok (ds', s')
      → rest E F s' ≡ rest E F s
  unfolding cast_vote
  cast_vote-rest fuel c proxy l voting w ds ds' s s' h = elim (Bool-cases (proxy == 0)) [
    | inl direct ↦
        ap (λ x. rest E F x.1)
          (sym (ok_injective _ (ds', s') (if_then (proxy == 0) _ _ _ direct h)))
    | inr proxied ↦
        bind_then (or_abort (find s.voters c.at.self proxy) _) _ _
          (if_else (proxy == 0) _ _ _ proxied h)
          (λ p _ h₁. check_then (not voting || p.is_proxy) _ _ _ h₁ (λ _ h₂.
            bind_then
              (if F.at_most (nought E F) w then change_proxied E F fuel c proxy p _ s else ok s) _ _
              h₂
              (λ t e h₃.
                ap (λ x. rest E F x.1) (sym (ok_injective _ (ds', s') h₃))
                ∙ elim (Bool-cases (F.at_most (nought E F) w)) [
                  | inl some_weight ↦
                      change_proxied-rest fuel c proxy p _ s t
                        (if_then (F.at_most (nought E F) w) _ _ _ some_weight e)
                  | inr no_weight ↦ ap (rest E F) (
                      sym (ok_injective s t (if_else (F.at_most (nought E F) w) _ _ _ no_weight e)))
                ])))
  ]

  apply_delta-rest :
      (c : Moment) (voting : Bool) (p : ℕ) (d : F.Double) (fresh : Bool) (t t' : Tally E F)
      → apply_delta E F c voting p d fresh t ≡ ok t'
      → rest E F t'.now ≡ rest E F t.now
  unfolding apply_delta
  apply_delta-rest c voting p d fresh t t' h =
      elim (Option-cases (find t.now.producers c.at.self p)) [
        | inl gone ↦ let same : t ≡ t' = ground arith in ap (λ x. rest E F x.now) (sym same)
        | inr (prod, found) ↦
            let u : Tally E F = record t {
              now = record t.now {
                producers = store t.now.producers c.at.self p (change_votes E F d prod);
                global = record t.now.global {
                  total_producer_vote_weight = F.plus t.now.global.total_producer_vote_weight d;
                };
              };
            } in
            let made : settle_share E F c prod p d u ≡ t' = ground arith in
            ap (λ x. rest E F x.now) (sym made) ∙ settle_share-rest E F c prod p d u
      ]

  apply_deltas-rest :
      (c : Moment) (voting : Bool) (ds : Deltas E F) (t t' : Tally E F)
      → apply_deltas E F c voting ds t ≡ ok t'
      → rest E F t'.now ≡ rest E F t.now
  unfolding apply_deltas
  apply_deltas-rest c voting [] t t' h = ap (λ x. rest E F x.now) (sym (ok_injective t t' h))
  apply_deltas-rest c voting ((p, d, fresh) ∷ l) t t' h =
      bind_then (apply_delta E F c voting p d fresh t) _ _ h
        (λ u e k. apply_deltas-rest c voting l u t' k ∙ apply_delta-rest c voting p d fresh t u e)

  record_vote-rest :
      (c : Moment) (voter proxy : ℕ) (l : List ℕ) (w : F.Double) (s s' : System E F)
      → record_vote E F c voter proxy l w s ≡ ok s'
      → rest E F s' ≡ rest E F s
  unfolding record_vote
  record_vote-rest c voter proxy l w s s' h =
      bind_then (or_abort (find s.voters c.at.self voter) _) _ _ h
        (λ v _ k. ap (rest E F) (sym (ok_injective _ s' k)))

  activate-rest :
      (c : Moment) (v : VoterInfo F) (s : System E F)
      → rest E F (record s { global = activate E F c v s.global }) ≡ rest E F s
  unfolding activate
  activate-rest c v s = ground arith

  notify-rest :
      (proxy : ℕ) (s : System E F)
      → rest E F (if proxy == 0 then s else record s { notified = proxy ∷ s.notified }) ≡ rest E F s
  notify-rest proxy s = ground arith

  pub update_votes-rest :
      (fuel : ℕ) (c : Moment) (voter proxy : ℕ) (l : List ℕ) (voting : Bool) (s s' : System E F)
      → update_votes E F fuel c voter proxy l voting s ≡ ok s'
      → rest E F s' ≡ rest E F s
  unfolding update_votes
  update_votes-rest fuel c voter proxy l voting s s' h =
      let s₀ = if proxy == 0 then s else record s { notified = proxy ∷ s.notified } in
      bind_then (check_ballot E F voter proxy l) _ _ h (λ _ _ h₁.
        bind_then (or_abort (find s₀.voters c.at.self voter) _) _ _ h₁ (λ v _ h₂.
          check_then (proxy == 0 || not v.is_proxy) _ _ _ h₂ (λ _ h₃.
            bind_then (undo_vote E F fuel c v (record s₀ { global = activate E F c v s₀.global })) _
              _ h₃
              (λ (ds, s₁) undone h₄.
                bind_then (cast_vote E F fuel c proxy l voting _ ds s₁) _ _ h₄ (λ (ds', s₂) cast h₅.
                  bind_then (apply_deltas E F c voting ds' (open_tally E F s₂)) _ _ h₅
                    (λ t applied h₆.
                      record_vote-rest c voter proxy l _ (close_tally E F c t) s' h₆
                      ∙ close_tally-rest E F c t
                      ∙ apply_deltas-rest c voting ds' (open_tally E F s₂) t applied
                      ∙ cast_vote-rest fuel c proxy l voting _ ds ds' s₁ s₂ cast
                      ∙ undo_vote-rest fuel c v _ s₁ ds undone
                      ∙ activate-rest c v s₀
                      ∙ notify-rest proxy s))))))
