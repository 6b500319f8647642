-- ===== src/System/Voting/Ballots/Forest.antt =====
-- Votes and the ranking of proxies (`voteproducer`).
use decentral_bank.Prelude.{
  ℕ, suc, ◌≡◌, ◌≢◌, ◌≤◌, true, some, List, ok, Bool-cases, inl, inr, ap, ◌∙◌, arith, if◌then◌else◌,
  ◌==◌, ==_iff, ◌&&◌, not,
}
use decentral_bank.Chain.{Chain, IsChain}
use decentral_bank.Chain.Double.{Float}
use decentral_bank.System.{System, Moment}
use decentral_bank.System.Voting.Ends.{link, IsRanked}
use decentral_bank.System.Voting.Ballots.{voteproducer}
use decentral_bank.System.Voting.Ballots.Links.{voteproducer-links}

-- The rank after a vote: the proxy, if there is one, comes to the top.
abbrev pub raised : ℕ → (ℕ → ℕ) → ℕ → ℕ → ℕ
raised proxy rank bound k = if not (proxy == 0) && k == proxy then suc bound else rank k

module _ (E : Chain) (F : Float) where
  open E use {find}

  -- Ranks under which every voter who has a proxy is below it, where no proxy has one itself.
  abbrev pub IsForest : ℕ → (ℕ → ℕ) → ℕ → System E F → Type 0
  IsForest self rank bound s =
      ((k : ℕ) → rank k ≤ bound)
      × IsRanked E F self rank bound s
      × ((k q : ℕ) → link E F (find s.voters self k) ≡ some (q, true) → q ≡ 0)

module _ (E : Chain) (L : IsChain E) (F : Float) where
  open E use {find}

  -- Where the voters are ranked so that each who has a proxy is below it, no rank is above a bound,
  -- and no account that is registered as a proxy has a proxy itself, a vote that succeeds leaves it
  -- so for the ranks in which the chosen proxy, if there is one, comes above the bound: no chain of
  -- proxies gets a loop.
  pub voteproducer-IsForest :
      (fuel : ℕ) (c : Moment) (voter proxy : ℕ) (l : List ℕ) (rank : ℕ → ℕ) (bound : ℕ)
      (s s' : System E F)
      → IsForest E F c.at.self rank bound s
      → voteproducer E F fuel c voter proxy l s ≡ ok s'
      → IsForest E F c.at.self (raised proxy rank bound) (suc bound) s'
  voteproducer-IsForest fuel c voter proxy l rank bound s s' (low, ranked, roots) h =
      let (p, b, was, casts, links) = voteproducer-links E L F fuel c voter proxy l s s' h in
      (
        λ k. ground (arith, low k),
        λ k q e linked has. elim (Bool-cases (voter == k)) [
          | inl own ↦
              let new = links k in
              let is : q ≡ proxy = ground (arith, own, new, linked) in
              let (_, apart, _) = casts (λ z. has (is ∙ z)) in
              let same = (==_iff voter k).0 own in ground (arith, is, has, apart, same, low k)
          | inr other ↦
              let before : link E F (find s.voters c.at.self k) ≡ some (q, e) =
                ground (arith, other, links k, linked) in
              let (below, within) = ranked k q e before has in
              elim (Bool-cases (not (proxy == 0) && k == proxy)) [
                | inl top ↦
                    let n : proxy ≢ 0 = λ z. absurd (ground (arith, top, z)) in
                    let at : k ≡ proxy = ground (arith, top) in
                    let (_, _, (q', root)) = casts n in
                    let none_above = roots proxy q' root in
                    absurd (
                      has (
                        ground (
                          arith,
                          none_above,
                          root,
                          before,
                          ap (λ x. link E F (find s.voters c.at.self x)) at,
                        )))
                | inr low_one ↦ ground (arith, below, within, low_one)
              ]
        ],
        λ k q linked. elim (Bool-cases (voter == k)) [
          | inl own ↦
              let new = links k in
              elim (Bool-cases (proxy == 0)) [
                | inl direct ↦ ground (arith, own, new, linked, direct)
                | inr proxied ↦
                    let (plain, _, _) = casts (λ z. absurd (ground (arith, proxied, z))) in
                    absurd (ground (arith, own, new, linked, plain))
              ]
          | inr other ↦ roots k q (ground (arith, other, links k, linked))
        ],
      )
