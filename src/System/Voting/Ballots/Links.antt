-- ===== src/System/Voting/Ballots/Links.antt =====
-- How the actions on votes change whom a voter has as a proxy.
use decentral_bank.Prelude.{
  ℕ, zero, suc, ◌≡◌, ◌≢◌, refl, Bool, true, false, some, none, List, [], ◌∷◌, ok, abort,
  Result-cases, Bool-cases, Option-cases, if_then, if_else, bind_then, check_then, ok_injective,
  or_abort, or_abort-ok, inl, inr, ap, sym, ◌∙◌, arith, if◌then◌else◌, ◌==◌, ==_iff, ◌||◌, not,
}
use decentral_bank.Chain.{Chain, IsChain}
use decentral_bank.Chain.Double.{Float}
use decentral_bank.System.{System, Moment, VoterInfo}
use decentral_bank.System.Voting.{
  count, Tally, nought, open_tally, close_tally, settle_share, set_weight, propagate_once,
  propagate_within, propagate_weight_change,
}
use decentral_bank.System.Voting.Ends.{
  link, SameLinks, rewrite-SameLinks, settle_share-voters, propagate_once-links,
}
use decentral_bank.System.Voting.Ballots.{
  Deltas, change_proxied, change_votes, undo_vote, cast_vote, apply_delta, apply_deltas,
  record_vote, update_votes, check_ballot, activate, voteproducer,
}

module _ (E : Chain) (L : IsChain E) (F : Float) where
  open E use {find, store}

  set_weight-links :
      (c : Moment) (owner : ℕ) (w : F.Double) (s s' : System E F)
      → set_weight E F c owner w s ≡ ok s'
      → SameLinks E F c.at.self s s'
  unfolding set_weight
  set_weight-links c owner w s s' h =
      bind_then (or_abort (find s.voters c.at.self owner) _) _ _ h (λ v e k.
        rewrite-SameLinks E L F c.at.self owner v _ s s' (or_abort-ok _ _ v e)
          (ap (λ x. x.voters) (sym (ok_injective _ s' k))) refl refl)

  propagate_within-links :
      (fuel : ℕ) (c : Moment) (owner : ℕ) (s s' : System E F)
      → propagate_within E F fuel c owner s ≡ some (ok s')
      → SameLinks E F c.at.self s s'
  unfolding propagate_within
  propagate_within-links zero c owner s s' h k = absurd (ground arith)
  propagate_within-links (suc fuel) c owner s s' h k =
      elim (Result-cases (propagate_once E F c owner s)) [
        | inr (e, f) ↦ absurd (ground arith)
        | inl ((w, none, t), f) ↦
            set_weight-links c owner w t s' (ground arith) k
            ∙ (propagate_once-links E L F c owner s t w none f).0 k
        | inl ((w, some p, t), f) ↦ elim (Option-cases (propagate_within E F fuel c p t)) [
          | inl out ↦ absurd (ground arith)
          | inr (abort m, e) ↦ absurd (ground arith)
          | inr (ok u, e) ↦
              set_weight-links c owner w u s' (ground arith) k
              ∙ propagate_within-links fuel c p t u e k
              ∙ (propagate_once-links E L F c owner s t w (some p) f).0 k
        ]
      ]

  propagate_weight_change-links :
      (fuel : ℕ) (c : Moment) (owner : ℕ) (s s' : System E F)
      → propagate_weight_change E F fuel c owner s ≡ ok s'
      → SameLinks E F c.at.self s s'
  unfolding propagate_weight_change
  propagate_weight_change-links fuel c owner s s' h =
      elim (Option-cases (propagate_within E F fuel c owner s)) [
        | inl out ↦ absurd (ground arith)
        | inr (r, e) ↦ propagate_within-links fuel c owner s s' (ground arith)
      ]

  change_proxied-links :
      (fuel : ℕ) (c : Moment) (proxy : ℕ) (v : VoterInfo F) (f : F.Double → F.Double)
      (s s' : System E F)
      → find s.voters c.at.self proxy ≡ some v
      → change_proxied E F fuel c proxy v f s ≡ ok s'
      → SameLinks E F c.at.self s s'
  unfolding change_proxied
  change_proxied-links fuel c proxy v f s s' found h k =
      let v' : VoterInfo F = record v { proxied_vote_weight = f v.proxied_vote_weight } in
      let t : System E F = record s { voters = store s.voters c.at.self proxy v' } in
      propagate_weight_change-links fuel c proxy t s' h k
      ∙ rewrite-SameLinks E L F c.at.self proxy v v' s t found refl refl refl k

  undo_vote-links :
      (fuel : ℕ) (c : Moment) (v : VoterInfo F) (s s' : System E F) (ds : Deltas E F)
      → undo_vote E F fuel c v s ≡ ok (ds, s')
      → SameLinks E F c.at.self s s'
  unfolding undo_vote
  undo_vote-links fuel c v s s' ds h k =
      let counted = F.less (nought E F) v.last_vote_weight in
      elim (Bool-cases counted) [
        | inr new ↦
            ap (λ x. link E F (find x.1.voters c.at.self k))
              (sym (ok_injective _ (ds, s') (if_else counted _ _ _ new h)))
        | inl old ↦
            let h₁ = if_then counted _ _ _ old h in
            elim (Bool-cases (v.proxy == 0)) [
              | inl direct ↦
                  ap (λ x. link E F (find x.1.voters c.at.self k))
                    (sym (ok_injective _ (ds, s') (if_then (v.proxy == 0) _ _ _ direct h₁)))
              | inr proxied ↦
                  bind_then (or_abort (find s.voters c.at.self v.proxy) _) _ _
                    (if_else (v.proxy == 0) _ _ _ proxied h₁)
                    (λ p f h₂. bind_then (change_proxied E F fuel c v.proxy p _ s) _ _ h₂ (λ t e h₃.
                      ap (λ x. link E F (find x.1.voters c.at.self k))
                        (sym (ok_injective _ (ds, s') h₃))
                      ∙ change_proxied-links fuel c v.proxy p _ s t (or_abort-ok _ _ p f) e k))
            ]
      ]

  -- A new vote by a proxy is by one.
  cast_vote-links :
      (fuel : ℕ) (c : Moment) (proxy : ℕ) (l : List ℕ) (w : F.Double) (ds ds' : Deltas E F)
      (s s' : System E F)
      → cast_vote E F fuel c proxy l true w ds s ≡ ok (ds', s')
      → (k : ℕ)
      → (link E F (find s'.voters c.at.self k) ≡ link E F (find s.voters c.at.self k))
        × (proxy ≢ 0 → (q : ℕ) × (link E F (find s.voters c.at.self proxy) ≡ some (q, true)))
  unfolding cast_vote
  cast_vote-links fuel c proxy l w ds ds' s s' h k = elim (Bool-cases (proxy == 0)) [
    | inl direct ↦ (
      ap (λ x. link E F (find x.1.voters c.at.self k))
          (sym (ok_injective _ (ds', s') (if_then (proxy == 0) _ _ _ direct h))),
      λ n. absurd (n ((==_iff proxy 0).0 direct)),
    )
    | inr proxied ↦
        bind_then (or_abort (find s.voters c.at.self proxy) _) _ _
          (if_else (proxy == 0) _ _ _ proxied h)
          (λ p f h₁. check_then (not true || p.is_proxy) _ _ _ h₁ (λ is h₂.
            bind_then
              (if F.at_most (nought E F) w then change_proxied E F fuel c proxy p _ s else ok s) _ _
              h₂
              (λ t e h₃.
                let here = or_abort-ok (find s.voters c.at.self proxy) _ p f in
                (
                  ap (λ x. link E F (find x.1.voters c.at.self k))
                        (sym (ok_injective _ (ds', s') h₃))
                      ∙ elim (Bool-cases (F.at_most (nought E F) w)) [
                        | inl some_weight ↦
                            change_proxied-links fuel c proxy p _ s t here
                              (if_then (F.at_most (nought E F) w) _ _ _ some_weight e) k
                        | inr no_weight ↦
                            ap (λ x. link E F (find x.voters c.at.self k))
                              (sym (
                                ok_injective s t
                                  (if_else (F.at_most (nought E F) w) _ _ _ no_weight e)))
                      ],
                  λ n. (p.proxy, ground (arith, here, is)),
                ))))
  ]

  apply_delta-voters :
      (c : Moment) (voting : Bool) (p : ℕ) (d : F.Double) (fresh : Bool) (t t' : Tally E F)
      → apply_delta E F c voting p d fresh t ≡ ok t'
      → t'.now.voters ≡ t.now.voters
  unfolding apply_delta
  apply_delta-voters c voting p d fresh t t' h =
      elim (Option-cases (find t.now.producers c.at.self p)) [
        | inl gone ↦ let same : t ≡ t' = ground arith in ap (λ x. x.now.voters) (sym same)
        | inr (prod, found) ↦
            let u : Tally E F = record t {
              now = record t.now {
                producers = store t.now.producers c.at.self p (change_votes E F d prod);
                global = record t.now.global {
                  total_producer_vote_weight = F.plus t.now.global.total_producer_vote_weight d;
                };
              };
            } in
            let made : settle_share E F c prod p d u ≡ t' = ground arith in
            ap (λ x. x.now.voters) (sym made) ∙ settle_share-voters E L F c prod p d u
      ]

  apply_deltas-voters :
      (c : Moment) (voting : Bool) (ds : Deltas E F) (t t' : Tally E F)
      → apply_deltas E F c voting ds t ≡ ok t'
      → t'.now.voters ≡ t.now.voters
  unfolding apply_deltas
  apply_deltas-voters c voting [] t t' h = ap (λ x. x.now.voters) (sym (ok_injective t t' h))
  apply_deltas-voters c voting ((p, d, fresh) ∷ l) t t' h =
      bind_then (apply_delta E F c voting p d fresh t) _ _ h (λ u e k.
        apply_deltas-voters c voting l u t' k ∙ apply_delta-voters c voting p d fresh t u e)

  record_vote-links :
      (c : Moment) (voter proxy : ℕ) (l : List ℕ) (w : F.Double) (s s' : System E F) (p : ℕ)
      (b : Bool)
      → link E F (find s.voters c.at.self voter) ≡ some (p, b)
      → record_vote E F c voter proxy l w s ≡ ok s'
      → (k : ℕ)
      → link E F (find s'.voters c.at.self k)
        ≡ (if voter == k then some (proxy, b) else link E F (find s.voters c.at.self k))
  unfolding record_vote
  record_vote-links c voter proxy l w s s' p b was h k =
      bind_then (or_abort (find s.voters c.at.self voter) _) _ _ h (λ v e g.
        let here = or_abort-ok (find s.voters c.at.self voter) _ v e in
        let v' : VoterInfo F = record v { last_vote_weight = w; producers = l; proxy = proxy } in
        let stored = L.find-store (VoterInfo F) s.voters c.at.self voter v' c.at.self k in
        let reads = ap (λ x. find x.voters c.at.self k) (sym (ok_injective _ s' g)) in
        ground (arith, here, was, stored, reads))

  check_ballot-other :
      (voter proxy : ℕ) (l : List ℕ) (u : Unit {0})
      → check_ballot E F voter proxy l ≡ ok u
      → proxy ≢ 0
      → voter ≢ proxy
  unfolding check_ballot
  check_ballot-other voter proxy l u h n =
      let other : (proxy == 0) ≡ false = ground (arith, ==_iff proxy 0, n) in
      check_then (count l == 0) _ _ u (if_else (proxy == 0) _ _ _ other h) (λ _ h₁.
        elim (Bool-cases (not (voter == proxy))) [
          | inl differ ↦ λ e. absurd (ground (arith, differ, e))
          | inr same ↦ absurd (ground (arith, same, h₁))
        ])

  notify-voters :
      (proxy : ℕ) (s : System E F)
      → (if proxy == 0 then s else record s { notified = proxy ∷ s.notified }).voters ≡ s.voters
  notify-voters proxy s = ground arith

  -- What a vote changes of the links: that of the voter, which becomes one to a proxy, if to anybody.
  pub voteproducer-links :
      (fuel : ℕ) (c : Moment) (voter proxy : ℕ) (l : List ℕ) (s s' : System E F)
      → voteproducer E F fuel c voter proxy l s ≡ ok s'
      → (p : ℕ) × (b : Bool) × (link E F (find s.voters c.at.self voter) ≡ some (p, b))
        × (proxy ≢ 0
            → (b ≡ false)
              × (voter ≢ proxy)
              × ((q : ℕ) × (link E F (find s.voters c.at.self proxy) ≡ some (q, true))))
        × ((k : ℕ)
            → link E F (find s'.voters c.at.self k)
              ≡ (if voter == k then some (proxy, b) else link E F (find s.voters c.at.self k)))
  unfolding voteproducer update_votes close_tally
  voteproducer-links fuel c voter proxy l s s' h = check_then (c.at.has_auth voter) _ _ _ h (λ _ h₀.
      let s₀ = if proxy == 0 then s else record s { notified = proxy ∷ s.notified } in
      let same = notify-voters proxy s in
      bind_then (check_ballot E F voter proxy l) _ _ h₀ (λ u ballot h₁.
        bind_then (or_abort (find s₀.voters c.at.self voter) _) _ _ h₁ (λ v e h₂.
          check_then (proxy == 0 || not v.is_proxy) _ _ _ h₂ (λ plain h₃.
            let s₁ : System E F = record s₀ { global = activate E F c v s₀.global } in
            bind_then (undo_vote E F fuel c v s₁) _ _ h₃ (λ (ds, s₂) undone h₄.
              bind_then (cast_vote E F fuel c proxy l true _ ds s₂) _ _ h₄ (λ (ds', s₃) cast h₅.
                bind_then (apply_deltas E F c true ds' (open_tally E F s₃)) _ _ h₅ (λ t applied h₆.
                  let voters = apply_deltas-voters c true ds' (open_tally E F s₃) t applied in
                  let here =
                    ap (λ x. link E F (find x c.at.self voter)) (sym same)
                    ∙ ap (link E F) (or_abort-ok (find s₀.voters c.at.self voter) _ v e) in
                  let base = λ (k : ℕ). ap (λ x. link E F (find x c.at.self k)) same in
                  let undo = λ (k : ℕ). undo_vote-links fuel c v s₁ s₂ ds undone k ∙ base k in
                  let all = λ (k : ℕ).
                    ap (λ x. link E F (find x c.at.self k)) voters
                    ∙ (cast_vote-links fuel c proxy l _ ds ds' s₂ s₃ cast k).0
                    ∙ undo k in
                  (
                    v.proxy,
                    v.is_proxy,
                    here,
                    λ n. (
                      ground (arith, ==_iff proxy 0, n, plain),
                      check_ballot-other voter proxy l u ballot n,
                      let (q, is) =
                            (cast_vote-links fuel c proxy l _ ds ds' s₂ s₃ cast proxy).1 n in
                          (q, sym (undo proxy) ∙ is),
                    ),
                    λ k.
                        record_vote-links c voter proxy l _ (close_tally E F c t) s' v.proxy
                          v.is_proxy (all voter ∙ here) h₆ k
                        ∙ ap (λ x. if voter == k then some (proxy, v.is_proxy) else x) (all k),
                  ))))))))
