-- ===== src/System/Dispatch.antt =====
-- The entry point of the system contract (`EOSIO_DISPATCH` in decentralbank.system/eosio.system.cpp):
-- which actions reach which function.
use decentral_bank.Prelude.{ℕ, Bool, String, List, ◌==◌, if◌then◌else◌, Result, ok}
use decentral_bank.Prelude.Int.{ℤ}
use decentral_bank.Chain.{Asset, Symbol, Chain}
use decentral_bank.Chain.Double.{Float}
use decentral_bank.Token.{CurrencyStats}
use decentral_bank.System.{System, Moment, Limits, Library}
use decentral_bank.System.Names
use decentral_bank.System.Params
use decentral_bank.System.Pay
use decentral_bank.System.Ram
use decentral_bank.System.Stake
use decentral_bank.System.Voting
use decentral_bank.System.Voting.Ballots

-- An action and its arguments. `native_action` is one of those with an empty body (`updateauth`,
-- `deleteauth`, `linkauth`, `unlinkauth`, `canceldelay` and `onerror`), `other` one of no known name.
pub data SystemAction : Type 0 where
  newaccount : (creator newact : ℕ) → SystemAction
  native_action : SystemAction
  setabi : (account : ℕ) (abi : List ℕ) → SystemAction
  init : (version : ℕ) (core : Symbol) → SystemAction
  setram : (max_ram_size : ℕ) → SystemAction
  setramrate : (bytes_per_block : ℕ) → SystemAction
  setparams : (max_authority_depth : ℕ) → SystemAction
  setpriv : (account : ℕ) (ispriv : Bool) → SystemAction
  setalimits : (account : ℕ) (limits : Limits) → SystemAction
  rmvproducer : (producer : ℕ) → SystemAction
  updtrevision : (revision : ℕ) → SystemAction
  bidname : (bidder newname : ℕ) (bid : Asset) → SystemAction
  bidrefund : (bidder newname : ℕ) → SystemAction
  buyrambytes : (payer receiver bytes : ℕ) → SystemAction
  buyram : (payer receiver : ℕ) (quant : Asset) → SystemAction
  sellram : (account : ℕ) (bytes : ℤ) → SystemAction
  delegatebw : (from receiver : ℕ) (net cpu : Asset) (transfer : Bool) → SystemAction
  undelegatebw : (from receiver : ℕ) (net cpu : Asset) → SystemAction
  refund : (owner : ℕ) → SystemAction
  regproducer : (producer producer_key : ℕ) (url : String) (location : ℕ) → SystemAction
  unregprod : (producer : ℕ) → SystemAction
  voteproducer : (voter proxy : ℕ) (producers : List ℕ) → SystemAction
  regproxy : (proxy : ℕ) (isproxy : Bool) → SystemAction
  onblock : (timestamp producer : ℕ) → SystemAction
  claimrewards : (owner : ℕ) → SystemAction
  other : SystemAction

module _ (E : Chain) (F : Float) (B : Library E F) where
  -- The `switch`; `statistics` are those of the token contract, `fuel` is for chains of proxies.
  unfoldable pub system_action :
      ℕ → E.Table CurrencyStats → Moment → SystemAction → System E F → Result (System E F)
  system_action fuel st c (newaccount creator newact) = Names.newaccount E F B c creator newact
  system_action fuel st c native_action = λ s. ok s
  system_action fuel st c (setabi account abi) = Params.setabi E F B c account abi
  system_action fuel st c (init version core) = Ram.init E F c version core st
  system_action fuel st c (setram max_ram_size) = Ram.setram E F c max_ram_size
  system_action fuel st c (setramrate rate) = Ram.setramrate E F c rate
  system_action fuel st c (setparams depth) = Params.setparams E F c depth
  system_action fuel st c (setpriv account ispriv) = Params.setpriv E F c account ispriv
  system_action fuel st c (setalimits account l) = Params.setalimits E F c account l
  system_action fuel st c (rmvproducer producer) = Params.rmvproducer E F c producer
  system_action fuel st c (updtrevision revision) = Params.updtrevision E F c revision
  system_action fuel st c (bidname bidder newname bid) = Names.bidname E F B c bidder newname bid
  system_action fuel st c (bidrefund bidder newname) = Names.bidrefund E F B c bidder newname
  system_action fuel st c (buyrambytes payer receiver n) = Ram.buyrambytes E F c payer receiver n
  system_action fuel st c (buyram payer receiver quant) = Ram.buyram E F c payer receiver quant
  system_action fuel st c (sellram account bytes) = Ram.sellram E F c account bytes
  system_action fuel st c (delegatebw from to net cpu t) =
      Stake.delegatebw E F fuel c from to net cpu t
  system_action fuel st c (undelegatebw from to net cpu) =
      Stake.undelegatebw E F fuel c from to net cpu
  system_action fuel st c (refund owner) = Stake.refund E F c owner
  system_action fuel st c (regproducer producer key url location) =
      Voting.regproducer E F c producer key url location
  system_action fuel st c (unregprod producer) = Voting.unregprod E F c producer
  system_action fuel st c (voteproducer voter proxy producers) =
      Ballots.voteproducer E F fuel c voter proxy producers
  system_action fuel st c (regproxy proxy isproxy) = Ballots.regproxy E F fuel c proxy isproxy
  system_action fuel st c (onblock timestamp producer) = Pay.onblock E F B c timestamp producer
  system_action fuel st c (claimrewards owner) = Pay.claimrewards E F c owner st
  system_action fuel st c other = λ s. ok s

  -- The actions of other contracts are not listened to.
  unfoldable pub dispatch :
      ℕ → E.Table CurrencyStats → Moment → SystemAction → System E F → Result (System E F)
  unfolding system_action
  dispatch fuel st c a s = if c.at.code == c.at.self then system_action fuel st c a s else ok s
