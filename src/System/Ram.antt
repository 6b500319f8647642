-- ===== src/System/Ram.antt =====
-- RAM: its size, and its sale and purchase (decentralbank.system/eosio.system.cpp and
-- delegate_bandwidth.cpp): `setram`, `setramrate`, `init`, `buyram`, `buyrambytes` and `sellram`.
use decentral_bank.Prelude.{
  ℕ, ◌-◌, ◌^◌, ◌/◌, not, Bool, true, false, none, some, leb, ltb, ◌==◌, if◌then◌else◌, Result, ok,
  ◌>>=◌, ◌>>◌, check, or_abort,
}
use decentral_bank.Prelude.Int.{ℤ, pos, ltb_ℤ, leb_ℤ, eqb_ℤ}
use decentral_bank.Prelude.Word.{
  add_i64, sub_i64, add_u64, sub_u64, mul_u64, sub_u32, mul_u32, quot_i64, to_i64, to_u64, wrap_i64,
  u32_mod,
}
use decentral_bank.Chain.{Symbol, Asset, Context, Chain}
use decentral_bank.Chain.Double.{Float}
use decentral_bank.Token.{CurrencyStats}
use decentral_bank.System.{
  System, Moment, ExchangeState, GlobalState, UserResources, Limits, Inline, ramcore_symbol,
  ram_symbol, ramcore_key, ram_account, ramfee_account, asset, set_limits, send, core_symbol,
}
use decentral_bank.System.Exchange.{convert}
pub mod Backed
pub mod Trading

-- `ram_gift_bytes`
abbrev pub ram_gift_bytes : ℤ
ram_gift_bytes = pos 1400

-- `( amount + 199 ) / 200`
unfoldable pub ram_fee : ℤ → ℤ
ram_fee amount = quot_i64 (add_i64 amount (pos 199)) (pos 200)

module _ (E : Chain) (F : Float) where
  open E use {find, store, erase}

  -- `m.base.balance.amount += delta` on the row of the market.
  unfoldable pub grow_market : ℕ → ℤ → System E F → Result (System E F)
  grow_market self delta s = do
    m ← or_abort (find s.rammarket self ramcore_key) "cannot pass end iterator to modify"
    ok (record s {
      rammarket = store s.rammarket self ramcore_key (record m {
        base = record m.base {
          balance = record {
            amount = add_i64 m.base.balance.amount delta;
            symbol = m.base.balance.symbol;
          };
        };
      });
    })

  unfoldable pub setram : Moment → ℕ → System E F → Result (System E F)
  setram c max_ram_size s = do
    check (c.at.has_auth c.at.self) "missing authority"
    check (ltb s.global.max_ram_size max_ram_size) "ram may only be increased"
    check (ltb max_ram_size (2 ^ 50)) "ram size is unrealistic"
    check (ltb s.global.total_ram_bytes_reserved max_ram_size) "attempt to set max below reserved"
    s' ← grow_market c.at.self (sub_i64 (to_i64 max_ram_size) (to_i64 s.global.max_ram_size)) s
    ok (record s' { global = record s'.global { max_ram_size = max_ram_size } })

  -- The product of two `uint32_t` is one.
  unfoldable pub update_ram_supply : Moment → System E F → Result (System E F)
  update_ram_supply c s = do
    let new_ram = mul_u32 (sub_u32 c.slot s.global.last_ram_increase) s.global.new_ram_per_block
    let grown = do
      s' ← grow_market c.at.self (pos new_ram) s
      ok (record s' {
        global = record s'.global {
          max_ram_size = add_u64 s'.global.max_ram_size new_ram;
          last_ram_increase = c.slot;
        };
      })
    if leb c.slot s.global.last_ram_increase then ok s else grown

  unfoldable pub setramrate : Moment → ℕ → System E F → Result (System E F)
  setramrate c bytes_per_block s = do
    check (c.at.has_auth c.at.self) "missing authority"
    s' ← update_ram_supply c s
    ok (record s' { global = record s'.global { new_ram_per_block = bytes_per_block } })

  -- The row of the market that `init` creates.
  unfoldable pub opening_market : Symbol → ℤ → GlobalState F → ExchangeState F
  opening_market core system_token_supply g = record {
    supply = record { amount = pos 100_000_000_000_000; symbol = ramcore_symbol };
    base = record {
      balance = record {
        amount = to_i64 (sub_u64 g.max_ram_size g.total_ram_bytes_reserved);
        symbol = ram_symbol;
      };
      weight = F.half;
    };
    quote = record {
      balance = record { amount = quot_i64 system_token_supply (pos 1000); symbol = core };
      weight = F.half;
    };
  }

  -- `init( version, core )`, where `statistics` are those of the token contract.
  unfoldable pub init :
      Moment → ℕ → Symbol → E.Table CurrencyStats → System E F → Result (System E F)
  init c version core statistics s = do
    check (c.at.has_auth c.at.self) "missing authority"
    check (version == 0) "unsupported version for init action"
    check (elim (find s.rammarket c.at.self ramcore_key) [ none ↦ true | some _ ↦ false ])
        "system contract has already been initialized"
    st ← or_abort (find statistics core.code core.code) "unable to find key"
    check (E.same_symbol st.supply.symbol core)
        "specified core symbol does not exist (precision mismatch)"
    check (ltb_ℤ (pos 0) st.supply.amount) "system token supply must be greater than 0"
    ok (record s {
      rammarket =
          store s.rammarket c.at.self ramcore_key (opening_market core st.supply.amount s.global);
    })

  -- `es.convert( paid, to )` within `modify` of the row of the market.
  unfoldable pub trade : ℕ → Asset → Symbol → System E F → Result (Asset × System E F)
  trade self paid to s = do
    m ← or_abort (find s.rammarket self ramcore_key) "ram market does not exist"
    (got, m') ← convert E F paid to m
    ok (got, record s { rammarket = store s.rammarket self ramcore_key m' })

  -- The limits that follow from a row of `userres`.
  abbrev pub limits_of : UserResources → Limits
  limits_of res = record {
    ram = add_i64 res.ram_bytes ram_gift_bytes;
    net = res.net_weight.amount;
    cpu = res.cpu_weight.amount;
  }

  -- The row of `receiver` in `userres`, with `bytes` more.
  unfoldable pub ram_row : ℕ → ℕ → ℤ → System E F → Result UserResources
  ram_row self receiver bytes s = elim (find s.userres receiver receiver) [
    | none ↦ do
      core ← core_symbol E F self s
      nothing ← asset E F (pos 0) core
      ok (record {
        owner = receiver;
        net_weight = nothing;
        cpu_weight = nothing;
        ram_bytes = bytes;
      })
    | some r ↦ ok (record r { ram_bytes = add_i64 r.ram_bytes bytes })
  ]

  unfoldable pub add_ram : ℕ → ℕ → ℤ → System E F → Result (System E F)
  add_ram self receiver bytes s = do
    res ← ram_row self receiver bytes s
    ok (
        set_limits E F res.owner (limits_of res)
          (record s { userres = store s.userres receiver receiver res }))

  -- The payment of a purchase and of its fee.
  unfoldable pub pay_for_ram : ℕ → Asset → Asset → System E F → System E F
  pay_for_ram payer quant_after_fee fee s =
      let paid = send E F (Inline.transfer payer ram_account quant_after_fee "buy ram") s in
      if ltb_ℤ (pos 0) fee.amount
      then send E F (Inline.transfer payer ramfee_account fee "ram fee") paid
      else paid

  unfoldable pub buyram : Moment → ℕ → ℕ → Asset → System E F → Result (System E F)
  buyram c payer receiver quant s₀ = do
    check (c.at.has_auth payer) "missing authority"
    s ← update_ram_supply c s₀
    core ← core_symbol E F c.at.self s
    check (E.same_symbol quant.symbol core) "must buy ram with core token"
    check (ltb_ℤ (pos 0) quant.amount) "must purchase a positive amount"
    let fee : Asset = record { amount = ram_fee quant.amount; symbol = quant.symbol }
    let quant_after_fee : Asset = record {
      amount = sub_i64 quant.amount fee.amount;
      symbol = quant.symbol;
    }
    (bytes, s₁) ←
        trade c.at.self quant_after_fee ram_symbol (pay_for_ram payer quant_after_fee fee s)
    check (ltb_ℤ (pos 0) bytes.amount) "must reserve a positive amount"
    add_ram c.at.self receiver bytes.amount (record s₁ {
      global = record s₁.global {
        total_ram_bytes_reserved = add_u64 s₁.global.total_ram_bytes_reserved (to_u64 bytes.amount);
        total_ram_stake = add_i64 s₁.global.total_ram_stake quant_after_fee.amount;
      };
    })

  -- `buyrambytes( payer, receiver, bytes )`: the price is that of a copy of the market.
  unfoldable pub buyrambytes : Moment → ℕ → ℕ → ℕ → System E F → Result (System E F)
  buyrambytes c payer receiver bytes s = do
    m ← or_abort (find s.rammarket c.at.self ramcore_key) "cannot dereference end iterator"
    core ← core_symbol E F c.at.self s
    wanted ← asset E F (pos bytes) ram_symbol
    (eosout, _) ← convert E F wanted core m
    buyram c payer receiver eosout s

  -- The payment of a sale, and that of its fee.
  unfoldable pub pay_seller : ℕ → Symbol → Asset → System E F → Result (System E F)
  pay_seller account core tokens_out s =
      let paid = send E F (Inline.transfer ram_account account tokens_out "sell ram") s in
      let fee = ram_fee tokens_out.amount in
      let with_fee = (do
        fee_asset ← asset E F fee core
        ok (send E F (Inline.transfer account ramfee_account fee_asset "sell ram fee") paid)) in
      if ltb_ℤ (pos 0) fee then with_fee else ok paid

  unfoldable pub sellram : Moment → ℕ → ℤ → System E F → Result (System E F)
  sellram c account bytes s₀ = do
    check (c.at.has_auth account) "missing authority"
    s ← update_ram_supply c s₀
    check (ltb_ℤ (pos 0) bytes) "cannot sell negative byte"
    res ← or_abort (find s.userres account account) "no resource row"
    check (leb_ℤ bytes res.ram_bytes) "insufficient quota"
    core ← core_symbol E F c.at.self s
    offered ← asset E F bytes ram_symbol
    (tokens_out, s₁) ← trade c.at.self offered core s
    check (ltb_ℤ (pos 1) tokens_out.amount) "token amount received from selling ram is too low"
    let global = record s₁.global {
      total_ram_bytes_reserved = sub_u64 s₁.global.total_ram_bytes_reserved (to_u64 bytes);
      total_ram_stake = sub_i64 s₁.global.total_ram_stake tokens_out.amount;
    }
    check (leb_ℤ (pos 0) global.total_ram_stake)
        "error, attempt to unstake more tokens than previously staked"
    let res' = record res { ram_bytes = sub_i64 res.ram_bytes bytes }
    let sold =
        set_limits E F res'.owner (limits_of res')
          (record s₁ { global = global; userres = store s₁.userres account account res' })
    pay_seller account core tokens_out sold
