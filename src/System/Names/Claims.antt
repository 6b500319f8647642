-- ===== src/System/Names/Claims.antt =====
-- Who can create an account whose name is sold at auction.
use decentral_bank.Prelude.{
  ℕ, zero, suc, ◌≡◌, ◌≢◌, refl, true, some, none, Option-cases, ok, bind_then, check_then,
  ok_injective, if_then, or_abort, or_abort-ok, inl, inr, ap, sym, ◌∙◌, arith, if◌then◌else◌, ◌==◌,
  ==_iff, not, ◌/◌, ◌%◌, ◌&&◌,
}
use decentral_bank.Prelude.Int.{pos, ◌<ℤ◌, ltb_ℤ}
use decentral_bank.Chain.{Chain, IsChain}
use decentral_bank.Chain.Double.{Float}
use decentral_bank.System.{
  System, Moment, NameBid, UserResources, Library, eosio, asset, insert, core_symbol,
}
use decentral_bank.System.Exchange.Symbols.{asset-ok}
use decentral_bank.System.Names.{dot_within, has_dot, claim_name, newaccount}

dot_within-true : (n tmp : ℕ) → dot_within n tmp true ≡ true
unfolding dot_within
dot_within-true zero tmp = refl
dot_within-true (suc n) tmp = dot_within-true n (tmp / 32)

-- The names that can be bid on have a dot.
has_dot-short : (newname : ℕ) → newname / 16 % 32 ≡ 0 → has_dot newname ≡ true
unfolding has_dot dot_within
has_dot-short newname h =
    ap (dot_within 11 (newname / 16 / 32)) ((==_iff (newname / 16 % 32) 0).1 h)
    ∙ dot_within-true 11 (newname / 16 / 32)

module _ (E : Chain) (L : IsChain E) (F : Float) (B : Library E F) where
  open E use {find, erase}

  insert-ok :
      (t : E.Table UserResources) (scope key : ℕ) (r : UserResources) (t' : E.Table UserResources)
      → insert E F t scope key r ≡ ok t'
      → (find t scope key ≡ none) × (find t' scope key ≡ some r)
  insert-ok t scope key r t' h = elim (Option-cases (find t scope key)) [
    | inr (old, e) ↦ absurd (ground arith)
    | inl e ↦
        let stored = L.find-store UserResources t scope key r scope key in
        let same : E.store t scope key r ≡ t' = ok_injective _ t' (ground arith) in
        (e, ap (λ x. find x scope key) (sym same) ∙ ground (arith, stored))
  ]

  claim_name-ok :
      (self creator newact : ℕ) (s s' : System E F)
      → B.suffix newact ≡ newact
      → claim_name E F B self creator newact s ≡ ok s'
      → (b : NameBid) × (find s.namebids self newact ≡ some b)
        × (b.high_bidder ≡ creator)
        × (b.high_bid <ℤ pos 0)
        × (s' ≡ record s { namebids = erase s.namebids self newact })
  unfolding claim_name
  claim_name-ok self creator newact s s' top h =
      bind_then (or_abort (find s.namebids self newact) _) _ _
        (if_then (B.suffix newact == newact) _ _ _ ((==_iff _ _).1 top) h)
        (λ b e h₁. check_then (b.high_bidder == creator) _ _ _ h₁ (λ mine h₂.
          check_then (ltb_ℤ b.high_bid (pos 0)) _ _ _ h₂ (λ closed h₃. (
            b,
            or_abort-ok _ _ b e,
            (==_iff _ _).0 mine,
            ground arith,
            sym (ok_injective _ s' h₃),
          ))))

  -- An account under a name that can be bid on, created by another than the contract itself, is the
  -- highest bidder's and the auction of the name is closed. The auction's row goes away, and the
  -- account, which had no row of resources, gets one of no resources.
  pub newaccount-claims :
      (c : Moment) (creator newact : ℕ) (s s' : System E F)
      → newact / 16 % 32 ≡ 0
      → B.suffix newact ≡ newact
      → creator ≢ c.at.self
      → newaccount E F B c creator newact s ≡ ok s'
      → (b : NameBid) × (r : UserResources) × (find s.namebids c.at.self newact ≡ some b)
        × (b.high_bidder ≡ creator)
        × (b.high_bid <ℤ pos 0)
        × (find s'.namebids c.at.self newact ≡ none)
        × (find s.userres newact newact ≡ none)
        × (find s'.userres newact newact ≡ some r)
        × (r.ram_bytes ≡ pos 0)
        × (r.net_weight.amount ≡ pos 0)
        × (r.cpu_weight.amount ≡ pos 0)
  unfolding newaccount
  newaccount-claims c creator newact s s' short top outsider h =
      let dotted = has_dot-short newact short in
      let sold : (not (creator == c.at.self) && has_dot newact) ≡ true =
        ground (arith, ==_iff creator c.at.self, outsider, dotted) in
      bind_then
        (if not (creator == c.at.self) && has_dot newact
          then claim_name E F B c.at.self creator newact s
          else ok s)
        _ _ h
        (λ t claimed h₁. bind_then (core_symbol E F eosio t) _ _ h₁ (λ core _ h₂.
          bind_then (asset E F (pos 0) core) _ _ h₂ (λ nothing made h₃.
            let row : UserResources = record {
              owner = newact;
              net_weight = nothing;
              cpu_weight = nothing;
              ram_bytes = pos 0;
            } in
            bind_then (insert E F t.userres newact newact row) _ _ h₃ (λ table inserted h₄.
              let (b, found, mine, closed, e) =
                claim_name-ok c.at.self creator newact s t top
                  (if_then (not (creator == c.at.self) && has_dot newact) _ _ _ sold claimed) in
              let (n, _) = asset-ok E L F (pos 0) core nothing made in
              let (absent, stored) = insert-ok t.userres newact newact row table inserted in
              let done = ok_injective _ s' h₄ in
              (
                b,
                row,
                found,
                mine,
                closed,
                ap (λ x. find x.namebids c.at.self newact) (sym done)
                    ∙ ap (λ x. find x.namebids c.at.self newact) e
                    ∙ ground
                        (arith, L.find-erase NameBid s.namebids c.at.self newact c.at.self newact),
                ap (λ x. find x.userres newact newact) (sym e) ∙ absent,
                ap (λ x. find x.userres newact newact) (sym done) ∙ stored,
                refl,
                n,
                n,
              )))))
