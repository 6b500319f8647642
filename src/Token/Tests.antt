-- ===== src/Token/Tests.antt =====
-- A token on a chain that runs, and the theorems on the token contracts at its actions.
use decentral_bank.Prelude.{
  ℕ, ◌+◌, ◌^◌, ◌<◌, ◌≡◌, ◌∷◌, [], List, true, ok, ◌==◌, if◌then◌else◌, arith, refl,
}
use decentral_bank.Prelude.Int.{pos, ◌+ℤ◌, ◌-ℤ◌, ◌≤ℤ◌, ◌<ℤ◌}
use decentral_bank.Prelude.Word
use decentral_bank.Chain.{Asset, Context}
use decentral_bank.Chain.Memory.{memory, memory-IsChain}
use decentral_bank.Token
use decentral_bank.Token.{Contract, Account, article_vote, inline_transfer}
use decentral_bank.Token.Balances
use decentral_bank.Token.Eosio
use decentral_bank.Token.Iq.{iq_symbol, article_contract, epartvote}
use decentral_bank.Token.Supply.{IsSolvent}
use decentral_bank.Token.Payment.{balance_at, eosio_transfer-balance}
use decentral_bank.Token.Stake.{epartvote-stake, epartvote-wraps}
use decentral_bank.Token.History.{
  EosioAction, IqAction, BondAction, dispatch_eosio, dispatch_iq, dispatch_bond, genesis, run,
  settled, run-dispatch_eosio, run-dispatch_iq, run-dispatch_bond,
}

-- The contract is account 1; the issuer 2 and the holder 3 sign everything.
abbrev context : Context
context = record { self = 1; code = 1; now = 1000; has_auth = λ a. true; is_account = λ a. true }

abbrev iq : ℕ → Asset
iq n = record { amount = pos n; symbol = iq_symbol }

abbrev eosio_history : List (Context × EosioAction)
eosio_history =
    (context, EosioAction.create 2 (iq 10000))
    ∷ (context, EosioAction.issue 2 (iq 600) "first")
    ∷ (context, EosioAction.transfer 2 3 (iq 250) "rent")
    ∷ (context, EosioAction.retire (iq 100) "less")
    ∷ []

run-dispatch_eosio_example :
    IsSolvent memory (run memory (dispatch_eosio memory) eosio_history (genesis memory))
run-dispatch_eosio_example = run-dispatch_eosio memory memory-IsChain eosio_history

abbrev iq_history : List (Context × IqAction)
iq_history =
    (context, IqAction.create 2 (iq 10000))
    ∷ (context, IqAction.issue 2 (iq 600) "first")
    ∷ (context, IqAction.transfer 2 3 (iq 600) "all")
    ∷ (context, IqAction.burn 3 (iq 100) "less")
    ∷ (context, IqAction.epartvote 3 9 true 1 "good" "vote")
    ∷ []

run-dispatch_iq_example :
    IsSolvent memory (run memory (dispatch_iq memory) iq_history (genesis memory))
run-dispatch_iq_example = run-dispatch_iq memory memory-IsChain iq_history

abbrev bond_history : List (Context × BondAction)
bond_history =
    (context, BondAction.create 2 (iq 10000))
    ∷ (context, BondAction.issue 2 (iq 600) "first")
    ∷ (context, BondAction.transfer 2 3 (iq 600) "all")
    ∷ []

run-dispatch_bond_example :
    IsSolvent memory (run memory (dispatch_bond memory) bond_history (genesis memory))
run-dispatch_bond_example = run-dispatch_bond memory memory-IsChain bond_history

-- Account 2 holds 600 of a supply of 600.
abbrev funded : Contract memory
funded = record {
  accounts = memory.store memory.empty 2 iq_symbol.code (record { balance = iq 600 });
  stat =
      memory.store memory.empty iq_symbol.code iq_symbol.code
        (record { supply = iq 600; max_supply = iq 10000; issuer = 2 });
  messages = [];
}

abbrev paid : Contract memory
paid = settled memory (Eosio.transfer memory context 2 3 (iq 250) "rent" funded) funded

eosio_transfer-balance_example :
    (true ≡ true)
    × (pos 0 <ℤ pos 250)
    × (pos 250 ≤ℤ balance_at memory funded.accounts 2 iq_symbol.code)
    × (paid.stat ≡ funded.stat)
    × ((o k : ℕ)
        → balance_at memory paid.accounts o k ≡ (
            if iq_symbol.code == k
            then (if 2 == o
                then balance_at memory funded.accounts o k -ℤ pos 250
                else if 3 == o
                then balance_at memory funded.accounts o k +ℤ pos 250
                else balance_at memory funded.accounts o k)
            else balance_at memory funded.accounts o k))
unfolding memory Eosio.transfer Eosio.sub_balance Token.transfer Token.add_balance
    Balances.sub_keeping ◌+ℤ◌ ◌-ℤ◌
eosio_transfer-balance_example =
    eosio_transfer-balance memory memory-IsChain context 2 3 (iq 250) "rent" funded paid refl

abbrev voted : Contract memory
voted = settled memory (epartvote memory context 3 9 true 5 "good" "vote" funded) funded

epartvote-stake_example :
    (pack : Asset) × (pack.amount ≡ pos 5000)
    × (pack.symbol ≡ iq_symbol)
    × (true ≡ true)
    × (0 < 5)
    × (voted.accounts ≡ funded.accounts)
    × (voted.stat ≡ funded.stat)
    × (voted.messages
        ≡ article_vote 3 9 true 5 "good" "vote"
          ∷ inline_transfer 3 1 3 article_contract pack "stake for vote"
          ∷ [])
unfolding memory epartvote Word.to_i64 Word.mul_u64
epartvote-stake_example =
    epartvote-stake memory memory-IsChain context 3 9 true 5 "good" "vote" funded voted
      (omega arith) refl

epartvote-wraps_example :
    epartvote memory context 3 9 true (5 + 2 ^ 61) "good" "vote" funded
    ≡ ok (record funded {
      messages =
          article_vote 3 9 true (5 + 2 ^ 61) "good" "vote"
          ∷ inline_transfer 3 1 3 article_contract (iq 5000) "stake for vote"
          ∷ [];
    })
unfolding memory
epartvote-wraps_example =
    epartvote-wraps memory memory-IsChain context 3 9 true 5 "good" "vote" funded (iq 5000)
      (omega arith) refl refl
