-- ===== src/Cdp/Dispatch.antt =====
-- `apply`, the entry point of the CDP engine: which actions reach which function.
use decentral_bank.Prelude.{ℕ, Bool, String, ◌==◌, if◌then◌else◌, Result, ok}
use decentral_bank.Chain.{Asset, Symbol, Context, Chain}
use decentral_bank.Cdp.{Engine}
use decentral_bank.Cdp.Wallet
use decentral_bank.Cdp.Position
use decentral_bank.Cdp.Auction
use decentral_bank.Cdp.Governance
use decentral_bank.Cdp.Governance.{Proposal}
use decentral_bank.Cdp.Oracle

-- An action and its arguments. `other` is an action of no known name.
pub data Action : Type 0 where
  open_cdp : (owner symbl ram_payer : ℕ) → Action
  close : (owner symbl : ℕ) → Action
  shut : (owner symbl : ℕ) → Action
  lock : (owner symbl : ℕ) (quantity : Asset) → Action
  bail : (owner symbl : ℕ) (quantity : Asset) → Action
  draw : (owner symbl : ℕ) (quantity : Asset) → Action
  wipe : (owner symbl : ℕ) (quantity : Asset) → Action
  settle : (feeder symbl : ℕ) → Action
  vote : (voter symbl : ℕ) (against : Bool) (quantity : Asset) → Action
  propose : (proposer symbl : ℕ) (p : Proposal) → Action
  referended : (proposer symbl : ℕ) → Action
  liquify : (bidder owner symbl : ℕ) (bidamt : Asset) → Action
  upfeed : (feeder : ℕ) (price : Asset) (cdp_type : ℕ) (symbl : Symbol) → Action
  withdraw : (owner : ℕ) (quantity : Asset) (memo : String) → Action
  transfer : (from to : ℕ) (quantity : Asset) (memo : String) → Action
  other : Action

module _ (E : Chain) where
  -- The `switch` on the contract's own actions, which has no case for `transfer`.
  unfoldable pub own_action : Context → Action → Engine E → Result (Engine E)
  own_action c (open_cdp owner symbl payer) = Position.open_cdp E c owner symbl payer
  own_action c (close owner symbl) = Wallet.close E c owner symbl
  own_action c (shut owner symbl) = Position.shut E c owner symbl
  own_action c (lock owner symbl q) = Position.lock E c owner symbl q
  own_action c (bail owner symbl q) = Position.bail E c owner symbl q
  own_action c (draw owner symbl q) = Position.draw E c owner symbl q
  own_action c (wipe owner symbl q) = Position.wipe E c owner symbl q
  own_action c (settle feeder symbl) = Oracle.settle E c feeder symbl
  own_action c (vote voter symbl against q) = Governance.vote E c voter symbl against q
  own_action c (propose proposer symbl p) = Governance.propose E c proposer symbl p
  own_action c (referended proposer symbl) = Governance.referended E c proposer symbl
  own_action c (liquify bidder owner symbl q) = Auction.liquify E c bidder owner symbl q
  own_action c (upfeed feeder price cdp_type y) = Oracle.upfeed E c feeder price cdp_type y
  own_action c (withdraw owner q memo) = Wallet.withdraw E c owner q memo
  own_action c (transfer from to q memo) = λ s. ok s
  own_action c other = λ s. ok s

  -- The action of another contract: only a `transfer` is listened to.
  unfoldable pub foreign_action : Context → Action → Engine E → Result (Engine E)
  foreign_action c (transfer from to q memo) = Wallet.deposit E c from to q memo
  foreign_action c a = λ s. ok s

  -- `apply( receiver, code, action )`
  unfoldable pub apply : Context → Action → Engine E → Result (Engine E)
  unfolding own_action foreign_action
  apply c a s = if c.code == c.self then own_action c a s else foreign_action c a s
