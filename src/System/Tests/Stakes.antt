-- ===== src/System/Tests/Stakes.antt =====
-- The theorems on stakes and on chains of proxies, at states of a chain that runs.
use decentral_bank.Prelude.{
  ◌∷◌, ℕ, ◌≡◌, refl, Bool, true, false, some, [], ok, ◌==◌, if◌then◌else◌, arith,
}
use decentral_bank.Prelude.Int.{◌*ℤ◌, quot, ◌≤ℤ◌, ltb_ℤ, ℤ, pos, ◌+ℤ◌, ◌-ℤ◌}
use decentral_bank.Prelude.Word
use decentral_bank.Chain.{Asset}
use decentral_bank.Chain.Memory.{memory, memory-IsChain}
use decentral_bank.Chain.Double.{whole}
use decentral_bank.System.{
  System, VoterInfo, core_symbol, Inline, stake_account, eosio, cancel_deferred,
}
use decentral_bank.System.Stake
use decentral_bank.System.Stake.Balances.{due}
use decentral_bank.System.Stake.Custody.{changebw-custody}
use decentral_bank.System.Stake.Totals.{IsTotalled}
use decentral_bank.System.Stake.Kept.{delegatebw-IsTotalled, undelegatebw-IsTotalled}
use decentral_bank.System.Voting
use decentral_bank.System.Voting.Ballots
use decentral_bank.System.Voting.Ballots.Forest.{IsForest, raised, voteproducer-IsForest}
use decentral_bank.System.Voting.{propagate_within, propagate_weight_change}
use decentral_bank.System.Voting.Ends.{IsRanked, propagate_within-enough}
use decentral_bank.System.Tests.{tokens, day_ten, system, outcome}

system-IsTotalled : IsTotalled memory whole (system 1000 0)
unfolding memory
system-IsTotalled y = (refl, refl)

-- Account 3 stakes 10 and 5 tokens, and takes 4 and 5 back.
abbrev staked : System memory whole
staked =
    outcome
      (Stake.delegatebw memory whole 2 day_ten 3 3 (tokens 10) (tokens 5) false (system 1000 0))

staked-runs :
    Stake.delegatebw memory whole 2 day_ten 3 3 (tokens 10) (tokens 5) false (system 1000 0)
    ≡ ok staked
unfolding memory Stake.delegatebw Stake.changebw Stake.change_delegation Stake.delegation_row
    Stake.change_totals Stake.totals_row Stake.settle_tokens Stake.move_tokens Stake.take_refund
    Stake.change_refund Stake.schedule_refund Stake.change_staked Stake.staked_row
    Stake.validate_stake Stake.recast core_symbol cancel_deferred Word.add_i64 Word.to_u64
    Word.to_i64 Word.wrap_i64 ◌+ℤ◌ ◌-ℤ◌
staked-runs = refl

delegatebw-IsTotalled_example : IsTotalled memory whole staked
delegatebw-IsTotalled_example =
    delegatebw-IsTotalled memory memory-IsChain whole 2 day_ten 3 3 (tokens 10) (tokens 5) false
      (system 1000 0) staked system-IsTotalled staked-runs

abbrev unstaked : System memory whole
unstaked = outcome (Stake.undelegatebw memory whole 2 day_ten 3 3 (tokens 4) (tokens 5) staked)

unstaked-runs :
    Stake.undelegatebw memory whole 2 day_ten 3 3 (tokens 4) (tokens 5) staked ≡ ok unstaked
unfolding memory Stake.delegatebw Stake.undelegatebw Stake.changebw Stake.change_delegation
    Stake.delegation_row Stake.change_totals Stake.totals_row Stake.settle_tokens Stake.move_tokens
    Stake.take_refund Stake.change_refund Stake.open_refund Stake.request Stake.to_seconds
    Stake.schedule_refund Stake.change_staked Stake.staked_row Stake.validate_stake Stake.recast
    core_symbol cancel_deferred Word.add_i64 Word.to_u64 Word.to_i64 Word.wrap_i64 ◌+ℤ◌ ◌-ℤ◌
unstaked-runs = refl

undelegatebw-IsTotalled_example : IsTotalled memory whole unstaked
undelegatebw-IsTotalled_example =
    undelegatebw-IsTotalled memory memory-IsChain whole 2 day_ten 3 3 (tokens 4) (tokens 5) staked
      unstaked
      (delegatebw-IsTotalled memory memory-IsChain whole 2 day_ten 3 3 (tokens 10) (tokens 5) false
        (system 1000 0) staked system-IsTotalled staked-runs)
      unstaked-runs

-- Account 3 votes through account 4.
abbrev voter : ℕ → ℕ → ℤ → Bool → VoterInfo whole
voter owner proxy stake is_proxy = record {
  owner = owner;
  proxy = proxy;
  producers = [];
  staked = stake;
  last_vote_weight = pos 0;
  proxied_vote_weight = pos 0;
  is_proxy = is_proxy;
}

abbrev proxied : System memory whole
proxied = record (system 1000 0) {
  voters =
      memory.store (memory.store memory.empty eosio 4 (voter 4 0 (pos 70) true)) eosio 3
        (voter 3 4 (pos 90) false);
}

abbrev rank : ℕ → ℕ
rank k = if k == 4 then 1 else 0

proxied-IsRanked : IsRanked memory whole eosio rank 1 proxied
unfolding memory
proxied-IsRanked k p b linked has_proxy = ground (arith, linked)

propagate_within-enough_example :
    propagate_within memory whole 9 day_ten 3 proxied
    ≡ some (propagate_weight_change memory whole 3 day_ten 3 proxied)
propagate_within-enough_example =
    propagate_within-enough memory memory-IsChain whole rank 1 day_ten 3 proxied 9 proxied-IsRanked
      (omega arith)

-- Account 3 stakes 6 and 7 tokens, for which the refund of 4 and 5 is used first.
abbrev again : Stake.Stakes
again = record { net = tokens 6; cpu = tokens 7 }

abbrev restaked : System memory whole
restaked = outcome (Stake.changebw memory whole 2 day_ten 3 3 again false unstaked)

restaked-runs : Stake.changebw memory whole 2 day_ten 3 3 again false unstaked ≡ ok restaked
unfolding memory Stake.delegatebw Stake.undelegatebw Stake.changebw Stake.change_delegation
    Stake.delegation_row Stake.change_totals Stake.totals_row Stake.settle_tokens Stake.move_tokens
    Stake.take_refund Stake.change_refund Stake.open_refund Stake.update_refund Stake.offset
    Stake.request Stake.to_seconds Stake.schedule_refund Stake.change_staked Stake.staked_row
    Stake.validate_stake Stake.recast core_symbol cancel_deferred Word.add_i64 Word.to_u64
    Word.to_i64 Word.wrap_i64 ◌+ℤ◌ ◌-ℤ◌
restaked-runs = refl

changebw-custody_example :
    (total : Asset) × (memory.weigh due restaked.refunds +ℤ (pos 6 +ℤ pos 7)
      ≡ memory.weigh due unstaked.refunds +ℤ total.amount)
    × (pos 0 ≤ℤ total.amount)
    × (restaked.inline ≡ (
        if ltb_ℤ (pos 0) total.amount
        then Inline.transfer 3 stake_account total "stake bandwidth" ∷ unstaked.inline
        else unstaked.inline))
changebw-custody_example =
    changebw-custody memory memory-IsChain whole 2 day_ten 3 3 again false unstaked restaked
      (λ e. absurd (ground (arith, e))) restaked-runs

-- Account 3 has staked, and chooses account 4 as its proxy.
abbrev choosing : System memory whole
choosing = record (system 1000 0) {
  voters =
      memory.store (memory.store memory.empty eosio 4 (voter 4 0 (pos 70) true)) eosio 3
        (voter 3 0 (pos 90) false);
}

abbrev chosen : System memory whole
chosen = outcome (Ballots.voteproducer memory whole 2 day_ten 3 4 [] choosing)

chosen-runs : Ballots.voteproducer memory whole 2 day_ten 3 4 [] choosing ≡ ok chosen
unfolding memory Ballots.voteproducer Ballots.update_votes Ballots.check_ballot Ballots.activate
    Ballots.undo_vote Ballots.cast_vote Ballots.change_proxied Ballots.apply_deltas
    Ballots.record_vote Voting.close_tally Voting.update_total_votepay_share Voting.add_capped
    Voting.propagate_weight_change Voting.propagate_within Voting.propagate_once Voting.set_weight
    Voting.move_votes Voting.stake2vote Word.add_i64 Word.sub_i64 Word.quot_i64 Word.to_u64
    Word.to_i64 Word.wrap_i64 quot ◌+ℤ◌ ◌-ℤ◌ ◌*ℤ◌
chosen-runs = refl

abbrev flat : ℕ → ℕ
flat k = 0

choosing-IsForest : IsForest memory whole eosio flat 0 choosing
unfolding memory
choosing-IsForest = (
  λ k. omega arith,
  λ k p b linked has_proxy. absurd (ground (arith, linked, has_proxy)),
  λ k q linked. ground (arith, linked),
)

voteproducer-IsForest_example : IsForest memory whole eosio (raised 4 flat 0) 1 chosen
voteproducer-IsForest_example =
    voteproducer-IsForest memory memory-IsChain whole 2 day_ten 3 4 [] flat 0 choosing chosen
      choosing-IsForest chosen-runs
