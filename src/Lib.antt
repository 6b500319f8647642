-- ===== src/Lib.antt =====
-- Verification library for DecentralBank: smart contracts for a bank on an EOSIO chain.
--
-- The program. Four contracts keep balances of tokens: eosio.token
-- (decentralbank.system/eosio.token.cpp), its copy for seigniorage shares
-- (SeigniorageShares/eosio.token.cpp), the IQ governance token (Maker/everipediaiq.cpp) and the bond
-- token (Bonds/bond.cpp). The CDP engine (Maker/daiqcontract.hpp, Maker/daiqcontract.cpp) takes tokens
-- of such contracts in deposit, lets users lock them as collateral of positions and draw stablecoin
-- against it, auctions positions that have lost their value, and lets the holders of IQ vote on the
-- parameters. The contracts meet through messages only: a transfer of a token contract to the engine
-- is seen by the engine's `apply`, and `withdraw` sends a transfer back. The system contract
-- (decentralbank.system) sells account names and RAM, keeps stakes, votes and proxies, and pays the
-- block producers; it moves tokens by actions that it sends to eosio.token.
--
-- The files. Each action is one function from the state of its contract to a `Result`: the new state,
-- or an abort, which undoes every write. Tables are state passed along.
--   Prelude  tests on numbers, signed integers (Int), machine integers (Word), results (Results)
--   Chain    eosiolib as a parameter: assets, `multi_index` tables and the transaction context are the
--            fields of `Chain`, their documented behaviour the fields of `IsChain`; Chain/Memory is an
--            instance that runs
--   Token    the code that the token contracts share, over their `sub_balance`; Token/Balances has its
--            two versions; Token/Eosio, Token/Seigniorage, Token/Iq and Token/Bond are the contracts;
--            Token/History has their dispatchers and the histories of actions; Token/Ledger,
--            Token/Passed, Token/Supply, Token/Payment and Token/Stake have proofs
--   Cdp      the tables of the engine; Cdp/Wallet has deposit, transfer, withdraw and close;
--            Cdp/Position has open, lock, bail, draw, wipe and shut; Cdp/Auction has liquify;
--            Cdp/Governance has propose, vote and referended; Cdp/Oracle has upfeed and settle;
--            Cdp/Dispatch has apply; Cdp/Books, Cdp/Flaws and the children of the others have proofs
--   System   the tables of the system contract; System/Exchange has exchange_state.cpp; System/Ram has
--            setram, setramrate, init, buyram, buyrambytes and sellram; System/Names has bidname,
--            bidrefund and newaccount; System/Params has the settings (setparams, setpriv, setalimits,
--            rmvproducer, updtrevision, setabi); System/Voting and System/Voting/Ballots have voting.cpp;
--            System/Stake has delegatebw, undelegatebw and refund; System/Pay has onblock and
--            claimrewards; System/Dispatch has the dispatcher; the other children have proofs
--   The files named Tests and the children of Cdp/Tests and System/Tests run the contracts on
--            Chain/Memory, and on whole numbers for those of type double, and apply theorems there.
-- The source's `open` and `close` are `open_cdp` in the engine, and `open_balance` and
-- `close_balance` in the tokens, since `open` is a keyword. `liquify` is cut at its branches; the
-- writes of `bail`, `draw`, `wipe`, `lock` and `withdraw` are `release`, `mint`, `repay`, `take_in` and
-- `pay_out`; `changebw`, `update_votes`, `propagate_weight_change` and `claimrewards` are cut likewise.
--
-- Bounds. Amounts are integers and the arithmetic that the contracts do on them outside the library is
-- that of int64_t, uint64_t and uint32_t with its wrap-around and its traps (Prelude/Word). Numbers of
-- type double, and their operations, are the fields of `Float` (Chain/Double): no law of them is
-- assumed. The loops of the code are recursion on lists. Two functions of the system contract call
-- themselves and have fuel: `convert` has 2, and `propagate_weight_change` takes its fuel from the
-- action; the theorems on the two say how much is enough.
--
-- Not modelled: who pays for storage, which no contract reads back; the delivery of notifications and
-- of deferred transactions, which are recorded in the state; the permissions with which the system
-- contract signs what it sends, and its debug prints; the fields of blockchain_parameters that no code
-- reads, but for max_authority_depth, which is checked; and libraries/helpers.cpp, which no contract
-- uses.
pub mod Prelude
pub mod Chain
pub mod Token
pub mod Cdp
pub mod System
