-- ===== src/Token/Iq.antt =====
-- The IQ token (Maker/everipediaiq.cpp): the shared actions over the `sub_balance` that erases empty
-- rows, `burn`, and the two actions that stake IQ with the article contract.
use decentral_bank.Prelude.{
  ℕ, Bool, String, ◌∷◌, leb, ltb, Result, ok, ◌>>=◌, ◌>>◌, check, or_abort,
}
use decentral_bank.Prelude.Int.{pos, ltb_ℤ}
use decentral_bank.Prelude.Word.{to_i64, mul_u64}
use decentral_bank.Chain.{Symbol, Asset, Context, Chain}
use decentral_bank.Token
use decentral_bank.Token.{Account, Contract, inline_transfer, article_propose, article_vote}
use decentral_bank.Token.Balances.{sub_erasing}
use Prim.Native.String.{len}

-- `EDIT_PROPOSE_IQ`
abbrev pub edit_propose_iq : ℕ
edit_propose_iq = 50

-- `IQ_PRECISION_MULTIPLIER`
abbrev pub iq_precision_multiplier : ℕ
iq_precision_multiplier = 1000

-- `IQSYMBOL`: the code's raw value is the bytes of "IQ", the first lowest.
abbrev pub iq_symbol : Symbol
iq_symbol = record { code = 0x5149; precision = 3 }

-- `ARTICLE_CONTRACT`: the 64-bit value of the account name "eparticlectr".
abbrev pub article_contract : ℕ
article_contract = 0x554d_7cb9_1152_3370

module _ (E : Chain) where
  open E use {Table, find, store}

  unfoldable pub sub_balance : ℕ → Asset → Table Account → Result (Table Account)
  unfolding sub_erasing
  sub_balance = sub_erasing E

  unfoldable pub add_balance : ℕ → Asset → Table Account → Result (Table Account)
  unfolding Token.add_balance
  add_balance = Token.add_balance E

  unfoldable pub create : Context → ℕ → Asset → Contract E → Result (Contract E)
  unfolding Token.create
  create = Token.create E

  unfoldable pub issue : Context → ℕ → Asset → String → Contract E → Result (Contract E)
  unfolding Token.issue
  issue = Token.issue E

  unfoldable pub transfer : Context → ℕ → ℕ → Asset → String → Contract E → Result (Contract E)
  unfolding Token.transfer
  transfer = Token.transfer E sub_balance

  unfoldable pub burn : Context → ℕ → Asset → String → Contract E → Result (Contract E)
  burn c from quantity memo s = do
    check (c.has_auth from) "missing authority"
    let symbol = quantity.symbol
    check (E.symbol_valid symbol) "invalid symbol name"
    check (leb (len memo) 256) "memo has more than 256 bytes"
    st ← or_abort (find s.stat symbol.code symbol.code) "token with symbol does not exist"
    check (E.asset_valid quantity) "invalid quantity"
    check (ltb_ℤ (pos 0) quantity.amount) "must burn positive quantity"
    check (E.same_symbol symbol st.supply.symbol) "symbol precision mismatch"
    supply ← or_abort (E.minus st.supply quantity) "asset subtraction"
    accounts ← sub_balance from quantity s.accounts
    ok (record s {
      accounts = accounts;
      stat = store s.stat symbol.code symbol.code (record st { supply = supply });
    })

  unfoldable pub epartpropose :
      Context
      → ℕ
      → ℕ
      → String
      → String
      → String
      → ℕ
      → String
      → String
      → Contract E
      → Result (Contract E)
  epartpropose c proposer wiki_id slug ipfs_hash lang_code group_id comment memo s = do
    check (c.has_auth proposer) "missing authority"
    pack ←
        or_abort (E.make_asset (to_i64 (mul_u64 edit_propose_iq iq_precision_multiplier)) iq_symbol)
          "asset construction"
    ok (record s {
      messages =
          article_propose proposer wiki_id slug ipfs_hash lang_code group_id comment memo
          ∷ inline_transfer proposer c.self proposer article_contract pack "stake for vote"
          ∷ s.messages;
    })

  unfoldable pub epartvote :
      Context → ℕ → ℕ → Bool → ℕ → String → String → Contract E → Result (Contract E)
  epartvote c voter proposal_id approve amount comment memo s = do
    check (c.has_auth voter) "missing authority"
    check (ltb 0 amount) "must transfer a positive amount"
    pack ←
        or_abort (E.make_asset (to_i64 (mul_u64 amount iq_precision_multiplier)) iq_symbol)
          "asset construction"
    ok (record s {
      messages =
          article_vote voter proposal_id approve amount comment memo
          ∷ inline_transfer voter c.self voter article_contract pack "stake for vote"
          ∷ s.messages;
    })
