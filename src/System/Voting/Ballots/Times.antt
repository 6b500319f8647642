-- ===== src/System/Voting/Ballots/Times.antt =====
-- The time of the last claim in the rows of producers, along the change of a vote
-- (decentralbank.system/voting.cpp, `update_votes`).
use decentral_bank.Prelude.{
  ℕ, ◌≡◌, refl, Bool, true, List, [], ◌∷◌, ok, Bool-cases, Option-cases, if_then, if_else,
  bind_then, check_then, ok_injective, or_abort, inl, inr, ap, sym, ◌∙◌, arith, if◌then◌else◌, ◌==◌,
  ◌||◌, not,
}
use decentral_bank.Chain.{Chain, IsChain}
use decentral_bank.Chain.Double.{Float}
use decentral_bank.System.{System, Moment, VoterInfo}
use decentral_bank.System.Voting.{Tally, nought, open_tally, close_tally, settle_share}
use decentral_bank.System.Voting.Times.{
  Keeps, same, after, revised, settle_share-producers, close_tally-producers,
  propagate_weight_change-Keeps,
}
use decentral_bank.System.Voting.Ballots.{
  Deltas, change_proxied, change_votes, undo_vote, cast_vote, apply_delta, apply_deltas,
  record_vote, update_votes, check_ballot, activate, voteproducer, regproxy,
}

module _ (E : Chain) (L : IsChain E) (F : Float) where
  open E use {find, store}

  change_proxied-Keeps :
      (fuel : ℕ) (c : Moment) (proxy : ℕ) (v : VoterInfo F) (f : F.Double → F.Double)
      (s s' : System E F)
      → change_proxied E F fuel c proxy v f s ≡ ok s'
      → Keeps E L F c.at.self s'.producers s.producers
  unfolding change_proxied
  change_proxied-Keeps fuel c proxy v f s s' h =
      propagate_weight_change-Keeps E L F fuel c proxy _ s' h

  undo_vote-Keeps :
      (fuel : ℕ) (c : Moment) (v : VoterInfo F) (s s' : System E F) (ds : Deltas E F)
      → undo_vote E F fuel c v s ≡ ok (ds, s')
      → Keeps E L F c.at.self s'.producers s.producers
  unfolding undo_vote
  undo_vote-Keeps fuel c v s s' ds h = elim (Bool-cases (F.less (nought E F) v.last_vote_weight)) [
    | inr new ↦ same E L F c.at.self (
        ap (λ x. x.1.producers)
          (ok_injective _ (ds, s') (if_else (F.less (nought E F) v.last_vote_weight) _ _ _ new h)))
    | inl old ↦
        let h₁ = if_then (F.less (nought E F) v.last_vote_weight) _ _ _ old h in
        elim (Bool-cases (v.proxy == 0)) [
          | inl direct ↦ same E L F c.at.self (
              ap (λ x. x.1.producers)
                (ok_injective _ (ds, s') (if_then (v.proxy == 0) _ _ _ direct h₁)))
          | inr proxied ↦
              bind_then (or_abort (find s.voters c.at.self v.proxy) _) _ _
                (if_else (v.proxy == 0) _ _ _ proxied h₁)
                (λ p _ h₂. bind_then (change_proxied E F fuel c v.proxy p _ s) _ _ h₂ (λ t e h₃.
                  after E L F c.at.self
                    (same E L F c.at.self (ap (λ x. x.1.producers) (ok_injective _ (ds, s') h₃)))
                    (change_proxied-Keeps fuel c v.proxy p _ s t e)))
        ]
  ]

  cast_vote-Keeps :
      (fuel : ℕ) (c : Moment) (proxy : ℕ) (l : List ℕ) (voting : Bool) (w : F.Double)
      (ds ds' : Deltas E F) (s s' : System E F)
      → cast_vote E F fuel c proxy l voting w ds s ≡ ok (ds', s')
      → Keeps E L F c.at.self s'.producers s.producers
  unfolding cast_vote
  cast_vote-Keeps fuel c proxy l voting w ds ds' s s' h = elim (Bool-cases (proxy == 0)) [
    | inl direct ↦
        same E L F c.at.self
          (ap (λ x. x.1.producers) (ok_injective _ (ds', s') (if_then (proxy == 0) _ _ _ direct h)))
    | inr proxied ↦
        bind_then (or_abort (find s.voters c.at.self proxy) _) _ _
          (if_else (proxy == 0) _ _ _ proxied h)
          (λ p _ h₁. check_then (not voting || p.is_proxy) _ _ _ h₁ (λ _ h₂.
            bind_then
              (if F.at_most (nought E F) w then change_proxied E F fuel c proxy p _ s else ok s) _ _
              h₂
              (λ t e h₃.
                after E L F c.at.self
                  (same E L F c.at.self (ap (λ x. x.1.producers) (ok_injective _ (ds', s') h₃)))
                  (elim (Bool-cases (F.at_most (nought E F) w)) [
                    | inl some_weight ↦
                        change_proxied-Keeps fuel c proxy p _ s t
                          (if_then (F.at_most (nought E F) w) _ _ _ some_weight e)
                    | inr no_weight ↦ same E L F c.at.self (
                        ap (λ x. x.producers)
                          (ok_injective s t (if_else (F.at_most (nought E F) w) _ _ _ no_weight e)))
                  ]))))
  ]

  apply_delta-Keeps :
      (c : Moment) (voting : Bool) (p : ℕ) (d : F.Double) (fresh : Bool) (t t' : Tally E F)
      → apply_delta E F c voting p d fresh t ≡ ok t'
      → Keeps E L F c.at.self t'.now.producers t.now.producers
  unfolding apply_delta change_votes
  apply_delta-Keeps c voting p d fresh t t' h =
      elim (Option-cases (find t.now.producers c.at.self p)) [
        | inl gone ↦
            let kept : t ≡ t' = ground arith in
            same E L F c.at.self (ap (λ x. x.now.producers) kept)
        | inr (prod, found) ↦
            let u : Tally E F = record t {
              now = record t.now {
                producers = store t.now.producers c.at.self p (change_votes E F d prod);
                global = record t.now.global {
                  total_producer_vote_weight = F.plus t.now.global.total_producer_vote_weight d;
                };
              };
            } in
            let made : settle_share E F c prod p d u ≡ t' = ground arith in
            let rows = sym (settle_share-producers E L F c prod p d u) in
            after E L F c.at.self (same E L F c.at.self (rows ∙ ap (λ x. x.now.producers) made))
              (revised E L F c.at.self p t.now.producers prod (change_votes E F d prod) found refl)
      ]

  apply_deltas-Keeps :
      (c : Moment) (voting : Bool) (ds : Deltas E F) (t t' : Tally E F)
      → apply_deltas E F c voting ds t ≡ ok t'
      → Keeps E L F c.at.self t'.now.producers t.now.producers
  unfolding apply_deltas
  apply_deltas-Keeps c voting [] t t' h =
      same E L F c.at.self (ap (λ x. x.now.producers) (ok_injective t t' h))
  apply_deltas-Keeps c voting ((p, d, fresh) ∷ l) t t' h =
      bind_then (apply_delta E F c voting p d fresh t) _ _ h (λ u e k.
        after E L F c.at.self (apply_deltas-Keeps c voting l u t' k)
          (apply_delta-Keeps c voting p d fresh t u e))

  record_vote-producers :
      (c : Moment) (voter proxy : ℕ) (l : List ℕ) (w : F.Double) (s s' : System E F)
      → record_vote E F c voter proxy l w s ≡ ok s'
      → s.producers ≡ s'.producers
  unfolding record_vote
  record_vote-producers c voter proxy l w s s' h =
      bind_then (or_abort (find s.voters c.at.self voter) _) _ _ h
        (λ v _ k. ap (λ x. x.producers) (ok_injective _ s' k))

  notify-producers :
      (proxy : ℕ) (s : System E F)
      → s.producers
        ≡ (if proxy == 0 then s else record s { notified = proxy ∷ s.notified }).producers
  notify-producers proxy s = ground arith

  pub update_votes-Keeps :
      (fuel : ℕ) (c : Moment) (voter proxy : ℕ) (l : List ℕ) (voting : Bool) (s s' : System E F)
      → update_votes E F fuel c voter proxy l voting s ≡ ok s'
      → Keeps E L F c.at.self s'.producers s.producers
  unfolding update_votes
  update_votes-Keeps fuel c voter proxy l voting s s' h =
      let s₀ = if proxy == 0 then s else record s { notified = proxy ∷ s.notified } in
      let self = c.at.self in
      bind_then (check_ballot E F voter proxy l) _ _ h (λ _ _ h₁.
        bind_then (or_abort (find s₀.voters self voter) _) _ _ h₁ (λ v _ h₂.
          check_then (proxy == 0 || not v.is_proxy) _ _ _ h₂ (λ _ h₃.
            bind_then (undo_vote E F fuel c v (record s₀ { global = activate E F c v s₀.global })) _
              _ h₃
              (λ (ds, s₁) undone h₄.
                bind_then (cast_vote E F fuel c proxy l voting _ ds s₁) _ _ h₄ (λ (ds', s₂) cast h₅.
                  bind_then (apply_deltas E F c voting ds' (open_tally E F s₂)) _ _ h₅
                    (λ t applied h₆.
                      let told = same E L F self (notify-producers proxy s) in
                      let undo = undo_vote-Keeps fuel c v _ s₁ ds undone in
                      let new = cast_vote-Keeps fuel c proxy l voting _ ds ds' s₁ s₂ cast in
                      let rows = apply_deltas-Keeps c voting ds' (open_tally E F s₂) t applied in
                      let written =
                        sym (close_tally-producers E L F c t)
                        ∙ record_vote-producers c voter proxy l _ (close_tally E F c t) s' h₆ in
                      after E L F self (same E L F self written) (
                        after E L F self rows
                          (after E L F self new (after E L F self undo told)))))))))

  pub voteproducer-Keeps :
      (fuel : ℕ) (c : Moment) (voter proxy : ℕ) (l : List ℕ) (s s' : System E F)
      → voteproducer E F fuel c voter proxy l s ≡ ok s'
      → Keeps E L F c.at.self s'.producers s.producers
  unfolding voteproducer
  voteproducer-Keeps fuel c voter proxy l s s' h =
      check_then (c.at.has_auth voter) _ _ _ h
        (λ _ k. update_votes-Keeps fuel c voter proxy l true s s' k)

  pub regproxy-Keeps :
      (fuel : ℕ) (c : Moment) (proxy : ℕ) (isproxy : Bool) (s s' : System E F)
      → regproxy E F fuel c proxy isproxy s ≡ ok s'
      → Keeps E L F c.at.self s'.producers s.producers
  unfolding regproxy
  regproxy-Keeps fuel c proxy isproxy s s' h = check_then (c.at.has_auth proxy) _ _ _ h (λ _ h₁.
      elim (Option-cases (find s.voters c.at.self proxy)) [
        | inl e ↦ same E L F c.at.self (ap (λ x. x.producers) (ok_injective _ s' (rw e at h₁)))
        | inr (p, e) ↦
            check_then (if isproxy then not p.is_proxy else p.is_proxy) _ _ _ (rw e at h₁) (λ _ h₂.
              check_then (not isproxy || p.proxy == 0) _ _ _ h₂
                (λ _ h₃. propagate_weight_change-Keeps E L F fuel c proxy _ s' h₃))
      ])
