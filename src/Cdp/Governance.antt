-- ===== src/Cdp/Governance.antt =====
-- The votes on cdp types: `propose`, `vote` and `referended`. A voter's stake stands in `accounts`
-- under the proposed cdp type, in units of IQ.
use decentral_bank.Prelude.{
  ℕ, ◌+◌, ◌*◌, not, true, false, none, some, Option, List, [], ◌∷◌, ◌&&◌, ◌==◌, Bool, leb, ltb,
  if◌then◌else◌, Result, ok, abort, ◌>>=◌, ◌>>◌, check, or_abort,
}
use decentral_bank.Prelude.Int.{pos, ltb_ℤ}
use decentral_bank.Prelude.Word.{add_u32, mul_u64, u64_mod}
use decentral_bank.Chain.{Asset, Symbol, Context, Chain}
use decentral_bank.Cdp.{
  Engine, Stat, Account, Prop, Deferred, add, asset, vote_period, iq_symbol, iq_name,
}
use decentral_bank.Cdp.Wallet.{add_balance, sub_balance}
pub mod Escrow
pub mod Ballot

-- The arguments of `propose` after the proposer and the cdp type.
pub record Proposal : Type 0 where
  pub clatrl : Symbol
  pub stabl : ℕ
  pub max : ℕ
  pub gmax : ℕ
  pub pen : ℕ
  pub fee : ℕ
  pub beg : ℕ
  pub liq : ℕ
  pub tau : ℕ
  pub ttl : ℕ
  pub feeder : ℕ
  pub contract : ℕ

-- The test of the parameters ("bad props").
unfoldable pub is_sane : Proposal → Bool
is_sane p =
    ltb p.max p.gmax
    && (ltb 0 p.max
        && (leb p.gmax (mul_u64 p.max 1000000)
            && (leb p.pen 100
                && (ltb 0 p.pen
                    && (leb p.fee 100
                        && (ltb 0 p.fee
                            && (leb p.beg 100
                                && (ltb 0 p.beg
                                    && (leb p.liq 1000
                                        && (leb 100 p.liq
                                            && (leb p.tau 3600 && leb p.ttl 600)))))))))))

-- The transaction that runs `referended` after the voting period.
unfoldable pub referendum : Context → ℕ → ℕ → Deferred
referendum c proposer symbl = record {
  txid = proposer * u64_mod + c.now;
  delay_sec = vote_period;
  proposer = proposer;
  symbl = symbl;
}

module _ (E : Chain) where
  open E use {Table, find, store, erase, rows}

  -- The row of `stat` under the proposer's scope.
  unfoldable pub draft_stat : ℕ → Proposal → Result Stat
  draft_stat symbl p = do
    fee_balance ← asset E (pos 0) iq_symbol
    total_stablecoin ← asset E (pos 0) (record { code = p.stabl; precision = 2 })
    locked ← asset E (pos 0) p.clatrl
    ok (record {
      live = false;
      last_vote = 0;
      tau = p.tau;
      ttl = p.ttl;
      feeder = p.feeder;
      cdp_type = symbl;
      global_ceil = p.gmax;
      debt_ceiling = p.max;
      stability_fee = p.fee;
      beg = p.beg;
      penalty_ratio = p.pen;
      liquid8_ratio = p.liq;
      fee_balance = fee_balance;
      total_stablecoin = total_stablecoin;
      total_collateral = record { quantity = locked; contract = p.contract };
    })

  -- `propose( proposer, symbl, ... )`; what `is_account( feeder )` returns is not tested.
  unfoldable pub propose : Context → ℕ → ℕ → Proposal → Engine E → Result (Engine E)
  propose c proposer symbl p s = do
    check (c.has_auth proposer) "missing authority"
    check (E.code_valid symbl) "invalid cdp type symbol name"
    check (E.symbol_valid p.clatrl) "invalid collateral symbol name"
    check (E.code_valid p.stabl) "invalid stablecoin symbol name"
    check (elim (find s.props c.self symbl) [ none ↦ true | some _ ↦ false ])
        "proposal for this cdp type already in session"
    check (elim (find s.stats proposer symbl) [ none ↦ true | some _ ↦ false ])
        "proposer already claimed this cdp type"
    check (elim (find s.feeds c.self symbl) [ none ↦ true | some _ ↦ false ])
        "can't propose collateral or governance symbols"
    check (elim (find s.feeds c.self p.stabl) [ none ↦ false | some _ ↦ true ])
        "can't propose an unknown stablecoin symbol"
    let settlement = do
      st ← or_abort (find s.stats c.self symbl) "cdp type doesn't exist"
      check (proposer == st.feeder) "only priviliged accounts may propose global settlement"
      ok s.stats
    let change = do
      check (is_sane p) "bad props"
      draft ← draft_stat symbl p
      ok (store s.stats proposer symbl draft)
    stats ← if p.tau == 0 && p.ttl == 0 then settlement else change
    nay ← asset E (pos 0) iq_symbol
    yay ← asset E (pos 0) iq_symbol
    ok (record s {
      stats = stats;
      props = store s.props c.self symbl (record {
        cdp_type = symbl;
        deadline = add_u32 c.now vote_period;
        proposer = proposer;
        yay = yay;
        nay = nay;
      });
      deferred = referendum c proposer symbl ∷ s.deferred;
    })

  -- The row in which a vote leaves its stake.
  unfoldable pub put_stake : ℕ → ℕ → Asset → Table Account → Result (Table Account)
  put_stake voter symbl stake accounts = elim (find accounts symbl voter) [
    | none ↦ ok (store accounts symbl voter (record { balance = stake; owner = voter; code = 0 }))
    | some a ↦ do
      balance ← add E a.balance stake
      ok (store accounts symbl voter (record a { balance = balance }))
  ]

  -- `if (against) ... else ...`
  unfoldable pub count_vote : Bool → Asset → Prop → Result Prop
  count_vote true quantity pt = do nay ← add E pt.nay quantity; ok (record pt { nay = nay })
  count_vote false quantity pt = do yay ← add E pt.yay quantity; ok (record pt { yay = yay })

  -- `vote( voter, symbl, against, quantity )`
  unfoldable pub vote : Context → ℕ → ℕ → Bool → Asset → Engine E → Result (Engine E)
  vote c voter symbl against quantity s = do
    check (c.has_auth voter) "missing authority"
    check (E.code_valid symbl) "invalid symbol name"
    check (E.asset_valid quantity && ltb_ℤ (pos 0) quantity.amount) "invalid quantity"
    check (E.same_symbol quantity.symbol iq_symbol) "must vote with governance token"
    pt ← or_abort (find s.props c.self symbl) "cdp type not proposed"
    (_, charged) ← sub_balance E voter quantity s.accounts
    stake ← asset E quantity.amount (record { code = symbl; precision = 3 })
    accounts ← put_stake voter symbl stake charged
    pt' ← count_vote against quantity pt
    ok (record s { accounts = accounts; props = store s.props c.self symbl pt' })

  -- The loop that pays all stakes back and erases their rows.
  unfoldable pub refund_votes : ℕ → List (ℕ × Account) → Table Account → Result (Table Account)
  refund_votes symbl [] accounts = ok accounts
  refund_votes symbl ((voter, it) ∷ rest) accounts =
      asset E it.balance.amount iq_symbol >>= λ refund.
      add_balance E it.owner refund iq_name accounts >>= λ paid.
      refund_votes symbl rest (erase paid symbl voter)

  -- The fields of a drafted row of `stat` that an enacted one takes over.
  unfoldable pub adopt : ℕ → Stat → Stat → Stat
  adopt now draft old = record old {
    live = true;
    last_vote = now;
    tau = draft.tau;
    ttl = draft.ttl;
    beg = draft.beg;
    feeder = draft.feeder;
    global_ceil = draft.global_ceil;
    debt_ceiling = draft.debt_ceiling;
    stability_fee = draft.stability_fee;
    penalty_ratio = draft.penalty_ratio;
    liquid8_ratio = draft.liquid8_ratio;
  }

  -- What a majority in favour enacts: a settlement turns the cdp type over, a draft is adopted.
  unfoldable pub enact : Context → ℕ → Option Stat → Option Stat → Table Stat → Result (Table Stat)
  enact c symbl none none stats = abort "cannot pass end iterator to modify"
  enact c symbl none (some st) stats =
      ok (store stats c.self symbl (record st { live = not st.live }))
  enact c symbl (some draft) none stats =
      ok (store stats c.self symbl (record draft { live = true; last_vote = c.now }))
  enact c symbl (some draft) (some st) stats = ok (store stats c.self symbl (adopt c.now draft st))

  -- `referended( proposer, symbl )`
  unfoldable pub referended : Context → ℕ → ℕ → Engine E → Result (Engine E)
  referended c proposer symbl s = do
    check (c.has_auth c.self) "missing authority"
    check (E.code_valid symbl) "invalid symbol name"
    prop ← or_abort (find s.props c.self symbl) "no such proposal"
    check (leb prop.deadline c.now) "too soon to be referended"
    tie ← or_abort (E.equals prop.yay prop.nay) "asset comparison"
    let revote = ok (record s { deferred = referendum c proposer symbl ∷ s.deferred })
    let decide = do
      let pstat = find s.stats proposer symbl
      passed ← or_abort (E.exceeds prop.yay prop.nay) "asset comparison"
      enacted ←
          if passed then enact c symbl pstat (find s.stats c.self symbl) s.stats else ok s.stats
      accounts ← refund_votes symbl (rows s.accounts symbl) s.accounts
      ok (record s {
        accounts = accounts;
        stats = elim pstat [ none ↦ enacted | some _ ↦ erase enacted proposer symbl ];
        props = erase s.props c.self symbl;
      })
    if tie then revote else decide
