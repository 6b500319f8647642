-- ===== src/System/Voting/Ends.antt =====
-- The recursion of `propagate_weight_change` (voting.cpp), from voter to proxy, and its fuel.
use decentral_bank.Prelude.{
  ℕ, ◌>>=◌, zero, suc, ◌+◌, ◌<◌, ◌≤◌, ◌≡◌, ◌≢◌, refl, Bool, Option, some, none, List, [], ◌∷◌,
  Result, ok, abort, Result-cases, Bool-cases, Option-cases, if_then, if_else, bind_then,
  check_then, ok_injective, or_abort, or_abort-ok, inl, inr, ap, sym, ◌∙◌, arith, ◌==◌, ◌||◌, not,
  ==_iff,
}
use decentral_bank.Prelude.Int.{pos}
use decentral_bank.Chain.{Chain, IsChain}
use decentral_bank.Chain.Double.{Float}
use decentral_bank.System.{System, Moment, VoterInfo, ProducerInfo, ProducerInfo2}
use decentral_bank.System.Voting.{
  Tally, weight_of, move_votes, open_tally, close_tally, settle_share,
  update_producer_votepay_share, propagate_once, set_weight, propagate_within,
  propagate_weight_change,
}

module _ (E : Chain) (F : Float) where
  open E use {find, store}

  -- Whom a voter has as a proxy, and whether the voter is one.
  abbrev pub link : Option (VoterInfo F) → Option (ℕ × Bool)
  link none = none
  link (some v) = some (v.proxy, v.is_proxy)

  abbrev pub SameLinks : ℕ → System E F → System E F → Type 0
  SameLinks self s s' = (k : ℕ) → link (find s'.voters self k) ≡ link (find s.voters self k)

  -- A voter who has a proxy ranks below that proxy, and the bound is not below any proxy.
  abbrev pub IsRanked : ℕ → (ℕ → ℕ) → ℕ → System E F → Type 0
  IsRanked self rank bound s =
      (k p : ℕ) (b : Bool)
      → link (find s.voters self k) ≡ some (p, b)
      → p ≢ 0
      → (rank k < rank p) × (rank p ≤ bound)

module _ (E : Chain) (L : IsChain E) (F : Float) where
  open E use {find, store}

  -- A row that is written with the links it had.
  pub rewrite-SameLinks :
      (self k : ℕ) (v v' : VoterInfo F) (s s' : System E F)
      → find s.voters self k ≡ some v
      → s'.voters ≡ store s.voters self k v'
      → v'.proxy ≡ v.proxy
      → v'.is_proxy ≡ v.is_proxy
      → SameLinks E F self s s'
  rewrite-SameLinks self k v v' s s' found h i j n =
      let written = L.find-store (VoterInfo F) s.voters self k v' self n in
      let reads = ap (λ t. find t self n) h in ground (arith, ==_iff k n)

  update_share-voters :
      (c : Moment) (producer : ℕ) (p : ProducerInfo2 F) (rate : F.Double) (reset : Bool)
      (s : System E F)
      → (update_producer_votepay_share E F c producer p rate reset s).1.voters ≡ s.voters
  unfolding update_producer_votepay_share
  update_share-voters c producer p rate reset s = refl

  pub settle_share-voters :
      (c : Moment) (prod : ProducerInfo F) (producer : ℕ) (d : F.Double) (t : Tally E F)
      → (settle_share E F c prod producer d t).now.voters ≡ t.now.voters
  unfolding settle_share update_producer_votepay_share
  settle_share-voters c prod producer d t = ground arith

  move_votes-voters :
      (c : Moment) (d : F.Double) (l : List ℕ) (t t' : Tally E F)
      → move_votes E F c d l t ≡ ok t'
      → t'.now.voters ≡ t.now.voters
  unfolding move_votes
  move_votes-voters c d [] t t' h = ground arith
  move_votes-voters c d (a ∷ l) t t' h =
      bind_then (or_abort (find t.now.producers c.at.self a) _) _ _ h
        (λ prod _ k. move_votes-voters c d l _ t' k ∙ settle_share-voters c prod a d _)

  -- One step keeps the links, and goes on to the proxy of the voter.
  pub propagate_once-links :
      (c : Moment) (owner : ℕ) (s s' : System E F) (w : F.Double) (next : Option ℕ)
      → propagate_once E F c owner s ≡ ok (w, next, s')
      → SameLinks E F c.at.self s s'
        × ((p : ℕ)
            → next ≡ some p
            → (b : Bool) × (p ≢ 0) × (link E F (find s.voters c.at.self owner) ≡ some (p, b)))
  unfolding propagate_once close_tally
  propagate_once-links c owner s s' w next h =
      bind_then (or_abort (find s.voters c.at.self owner) _) _ _ h (λ v found h₁.
        check_then (v.proxy == 0 || not v.is_proxy) _ _ _ h₁ (λ _ h₂.
          let here = or_abort-ok (find s.voters c.at.self owner) _ v found in
          let delta = F.minus (weight_of E F c v) v.last_vote_weight in
          let moved = F.less (F.of_int (pos 1)) (F.fabs delta) in
          elim (Bool-cases moved) [
            | inr still ↦
                let e = ok_injective _ (w, next, s') (if_else moved _ _ _ still h₂) in
                (
                  λ k. ap (λ x. link E F (find x.2.voters c.at.self k)) (sym e),
                  λ p q. absurd (ground arith),
                )
            | inl moves ↦
                let h₃ = if_then moved _ _ _ moves h₂ in
                elim (Bool-cases (v.proxy == 0)) [
                  | inl direct ↦
                      bind_then (move_votes E F c delta v.producers (open_tally E F s)) _ _
                        (if_then (v.proxy == 0) _ _ _ direct h₃)
                        (λ t e h₄.
                          let voters =
                            move_votes-voters c delta v.producers (open_tally E F s) t e in
                          let f = ok_injective _ (w, next, s') h₄ in
                          (
                            λ k.
                                ap (λ x. link E F (find x c.at.self k))
                                  (ap (λ x. x.2.voters) (sym f) ∙ voters),
                            λ p q. absurd (ground arith),
                          ))
                  | inr proxied ↦
                      bind_then (or_abort (find s.voters c.at.self v.proxy) _) _ _
                        (if_else (v.proxy == 0) _ _ _ proxied h₃)
                        (λ p e h₄.
                          let f = ok_injective _ (w, next, s') h₄ in
                          (
                            rewrite-SameLinks c.at.self v.proxy p _ s s' (or_abort-ok _ _ p e)
                                (ap (λ x. x.2.voters) (sym f)) refl refl,
                            λ q g. (
                              v.is_proxy,
                              (λ z. absurd (ground (arith, ap (λ x. x.1) f))),
                              ground (arith, ap (λ x. x.1) f),
                            ),
                          ))
                ]
          ]))

  SameLinks-IsRanked :
      (self : ℕ) (rank : ℕ → ℕ) (bound : ℕ) (s s' : System E F)
      → SameLinks E F self s s'
      → IsRanked E F self rank bound s
      → IsRanked E F self rank bound s'
  SameLinks-IsRanked self rank bound s s' same ranked k p b found =
      ranked k p b (sym (same k) ∙ found)

  module _ (rank : ℕ → ℕ) (bound : ℕ) (c : Moment) where
    propagate_within-some :
        (fuel owner : ℕ) (s : System E F)
        → IsRanked E F c.at.self rank bound s
        → rank owner ≤ bound
        → bound < fuel + rank owner
        → (r : Result (System E F)) × (propagate_within E F fuel c owner s ≡ some r)
    unfolding propagate_within
    propagate_within-some zero owner s ranked low enough = absurd (ground arith)
    propagate_within-some (suc fuel) owner s ranked low enough =
        elim (Result-cases (propagate_once E F c owner s)) [
          | inr (e, h) ↦ (abort e, ground arith)
          | inl ((w, none, s'), h) ↦ (set_weight E F c owner w s', ground arith)
          | inl ((w, some p, s'), h) ↦
              let (same, next) = propagate_once-links c owner s s' w (some p) h in
              let (b, nonzero, linked) = next p refl in
              let (higher, bounded) = ranked owner p b linked nonzero in
              let (r, e) =
                propagate_within-some fuel p s'
                  (SameLinks-IsRanked c.at.self rank bound s s' same ranked) bounded
                  (ground arith) in
              (r >>= λ s''. set_weight E F c owner w s'', ground arith)
        ]

    propagate_within-ends :
        (owner : ℕ) (s : System E F)
        → IsRanked E F c.at.self rank bound s
        → (r : Result (System E F)) × (propagate_within E F (suc (suc bound)) c owner s ≡ some r)
    unfolding propagate_within
    propagate_within-ends owner s ranked = elim (Result-cases (propagate_once E F c owner s)) [
      | inr (e, h) ↦ (abort e, ground arith)
      | inl ((w, none, s'), h) ↦ (set_weight E F c owner w s', ground arith)
      | inl ((w, some p, s'), h) ↦
          let (same, next) = propagate_once-links c owner s s' w (some p) h in
          let (b, nonzero, linked) = next p refl in
          let (higher, bounded) = ranked owner p b linked nonzero in
          let (r, e) =
            propagate_within-some (suc bound) p s'
              (SameLinks-IsRanked c.at.self rank bound s s' same ranked) bounded (ground arith) in
          (r >>= λ s''. set_weight E F c owner w s'', ground arith)
    ]

  -- More fuel changes nothing.
  propagate_within-more :
      (fuel more : ℕ) (c : Moment) (owner : ℕ) (s : System E F) (r : Result (System E F))
      → fuel ≤ more
      → propagate_within E F fuel c owner s ≡ some r
      → propagate_within E F more c owner s ≡ some r
  unfolding propagate_within
  propagate_within-more zero more c owner s r le h = absurd (ground arith)
  propagate_within-more (suc fuel) zero c owner s r le h = absurd (ground arith)
  propagate_within-more (suc fuel) (suc more) c owner s r le h =
      elim (Result-cases (propagate_once E F c owner s)) [
        | inr (e, k) ↦ ground arith
        | inl ((w, none, s'), k) ↦ ground arith
        | inl ((w, some p, s'), k) ↦ elim (Option-cases (propagate_within E F fuel c p s')) [
          | inl out ↦ absurd (ground arith)
          | inr (r', e) ↦
              let same = propagate_within-more fuel more c p s' r' (ground arith) e in ground arith
        ]
      ]

  -- Where the voters can be ranked, each who has a proxy below that proxy and no proxy above a
  -- bound, propagate_weight_change ends for every voter: two steps more than the bound are enough
  -- fuel, and more fuel does not change the outcome.
  pub propagate_within-enough :
      (rank : ℕ → ℕ) (bound : ℕ) (c : Moment) (owner : ℕ) (s : System E F) (fuel : ℕ)
      → IsRanked E F c.at.self rank bound s
      → suc (suc bound) ≤ fuel
      → propagate_within E F fuel c owner s
        ≡ some (propagate_weight_change E F (suc (suc bound)) c owner s)
  unfolding propagate_weight_change
  propagate_within-enough rank bound c owner s fuel ranked le =
      let (r, e) = propagate_within-ends rank bound c owner s ranked in
      let more = propagate_within-more (suc (suc bound)) fuel c owner s r le e in ground arith
