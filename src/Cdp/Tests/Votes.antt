-- ===== src/Cdp/Tests/Votes.antt =====
-- A vote, its count, a payment and a withdrawal on the chain that runs.
use decentral_bank.Prelude.{◌≢◌, [], ◌∷◌, ℕ, ◌≡◌, ◌≤◌, refl, true, false, none, some, arith, ◌==◌}
use decentral_bank.Prelude.Int.{pos, ◌+ℤ◌, ◌-ℤ◌, ◌≤ℤ◌, ◌<ℤ◌}
use decentral_bank.Chain.{Asset, Context}
use decentral_bank.Chain.Memory.{memory, memory-IsChain}
use decentral_bank.Cdp
use decentral_bank.Cdp.{Engine, Account, Prop}
use decentral_bank.Cdp.Wallet
use decentral_bank.Cdp.Wallet.Ledger.{balance_in, part, held}
use decentral_bank.Cdp.Wallet.Custody.{withdraw-Pays}
use decentral_bank.Cdp.Wallet.Conserved.{transfer-conserves}
use decentral_bank.Cdp.Governance
use decentral_bank.Cdp.Governance.Escrow.{stakes, stakes_of, referended-refunds}
use decentral_bank.Cdp.Governance.Ballot.{Counted, vote-escrow}
use decentral_bank.Cdp.Tests.{of_gold, gold_feed, context, engine, gold_backed, of_dollar, outcome}

abbrev iq : ℕ → Asset
iq n = record { amount = pos n; symbol = Cdp.iq_symbol }

abbrev staked : ℕ → Asset
staked n = record { amount = pos n; symbol = record { code = 200; precision = 3 } }

abbrev proposal : ℕ → Prop
proposal yay = record { cdp_type = 200; deadline = 1000; proposer = 3; yay = iq yay; nay = iq 20 }

-- The accounts 3 and 5 have staked 50 and 20 on the settlement of the cdp type 200.
abbrev session : Engine memory
session = record (engine 0 2500) {
  props = memory.store memory.empty 1 200 (proposal 50);
  stats = memory.store memory.empty 1 200 (gold_backed 0 60000);
  accounts =
      memory.store
        (memory.store
          (memory.store
            (memory.store memory.empty 8 3
              (record { balance = of_dollar 700; owner = 3; code = 1 }))
            Cdp.iq_symbol.code 3 (record { balance = iq 100; owner = 3; code = Cdp.iq_name }))
          200 3 (record { balance = staked 50; owner = 3; code = 0 }))
        200 5 (record { balance = staked 20; owner = 5; code = 0 });
}

abbrev by_contract : Context
by_contract = record context { has_auth = λ a. a == 1 }

abbrev counted_state : Engine memory
counted_state = outcome (Governance.referended memory by_contract 3 200 session)

referended-refunds_example :
    (true ≡ true)
    × (1000 ≤ 1000)
    × (memory.weigh (balance_in Cdp.iq_symbol.code) counted_state.accounts
        ≡ memory.weigh (balance_in Cdp.iq_symbol.code) session.accounts
          +ℤ stakes (memory.rows session.accounts 200))
    × ((o : ℕ)
        → held (memory.find counted_state.accounts Cdp.iq_symbol.code o)
          ≡ held (memory.find session.accounts Cdp.iq_symbol.code o)
            +ℤ stakes_of o (memory.rows session.accounts 200))
    × ((v : ℕ) → memory.find counted_state.accounts 200 v ≡ none)
    × (memory.find counted_state.props 1 200 ≡ none)
    × (counted_state.deferred ≡ session.deferred)
unfolding memory Governance.referended Governance.refund_votes Governance.enact Wallet.add_balance
    ◌+ℤ◌
referended-refunds_example =
    referended-refunds memory memory-IsChain by_contract 3 200 session counted_state (proposal 50)
      refl (λ h. ground arith) refl refl

abbrev voted : Engine memory
voted = outcome (Governance.vote memory context 3 200 false (iq 30) session)

vote-escrow_example :
    (p' : Prop) × (memory.find voted.props 1 200 ≡ some p')
    × Counted false (pos 30) (proposal 50) p'
    × (true ≡ true)
    × (pos 0 <ℤ pos 30)
    × (Cdp.iq_symbol ≡ Cdp.iq_symbol)
    × (memory.weigh (balance_in Cdp.iq_symbol.code) voted.accounts
        ≡ memory.weigh (balance_in Cdp.iq_symbol.code) session.accounts -ℤ pos 30)
    × (memory.weigh (balance_in 200) voted.accounts
        ≡ memory.weigh (balance_in 200) session.accounts +ℤ pos 30)
unfolding memory Governance.vote Governance.put_stake Governance.count_vote Wallet.sub_balance ◌+ℤ◌
    ◌-ℤ◌
vote-escrow_example =
    vote-escrow memory memory-IsChain context 3 200 false (iq 30) session voted (proposal 50) refl
      refl refl

abbrev paid : Engine memory
paid = outcome (Wallet.transfer memory context 3 5 (of_dollar 300) "rent" session)

transfer-conserves_example :
    (row : Account) × (memory.find session.accounts 8 3 ≡ some row)
    × (row.code ≡ 1)
    × (pos 300 ≤ℤ row.balance.amount)
    × (true ≡ true)
    × (pos 0 <ℤ pos 300)
    × (paid ≡ record session { accounts = paid.accounts })
    × ((y : ℕ)
        → memory.weigh (balance_in y) paid.accounts ≡ memory.weigh (balance_in y) session.accounts)
unfolding memory Wallet.transfer Wallet.sub_balance Wallet.add_balance ◌+ℤ◌ ◌-ℤ◌
transfer-conserves_example =
    transfer-conserves memory memory-IsChain context 3 5 (of_dollar 300) "rent" session paid refl

-- Account 3 has 90 gold in deposit, of the contract 50.
abbrev holding : Engine memory
holding = record (engine 0 2500) {
  accounts = memory.store memory.empty 7 3 (record { balance = of_gold 90; owner = 3; code = 50 });
  feeds = memory.store memory.empty 1 7 (record (gold_feed 2500) { total = of_gold 500 });
}

abbrev withdrawn : Engine memory
withdrawn = outcome (Wallet.withdraw memory context 3 (of_gold 0) "all" holding)

withdraw-Pays_example :
    (true ≡ true)
    × ((p : Cdp.Payout) × (withdrawn.payouts ≡ p ∷ [])
        × (p.quantity ≡ of_gold 90)
        × (p.code ≡ 50)
        × (p.code ≢ 1)
        × (p.to ≡ 3)
        × (pos 90 ≤ℤ pos 90)
        × ((y : ℕ)
            → memory.weigh (balance_in y) withdrawn.accounts
              ≡ memory.weigh (balance_in y) holding.accounts -ℤ part y (of_gold 90)))
unfolding memory Wallet.withdraw Wallet.pay_out Wallet.get_balance Wallet.sub_balance ◌-ℤ◌
withdraw-Pays_example =
    withdraw-Pays memory memory-IsChain context 3 (of_gold 0) "all" holding withdrawn
      (record { balance = of_gold 90; owner = 3; code = 50 }) refl refl refl
