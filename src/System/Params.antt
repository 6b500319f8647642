-- ===== src/System/Params.antt =====
-- The settings of the chain (decentralbank.system/eosio.system.cpp): `setparams`, `setpriv`,
-- `setalimits`, `rmvproducer`, `updtrevision` and `setabi`.
use decentral_bank.Prelude.{
  ℕ, ◌+◌, Bool, true, false, none, some, List, leb, ltb, ◌==◌, if◌then◌else◌, Result, ok, ◌>>=◌,
  ◌>>◌, check, or_abort,
}
use decentral_bank.Chain.{Chain}
use decentral_bank.Chain.Double.{Float}
use decentral_bank.System.{System, Moment, ProducerInfo, Limits, Library, set_limits}

module _ (E : Chain) (F : Float) where
  open E use {find, store}

  -- `setparams( params )`; of the parameters the contract reads one.
  unfoldable pub setparams : Moment → ℕ → System E F → Result (System E F)
  setparams c max_authority_depth s = do
    check (c.at.has_auth c.at.self) "missing authority"
    check (leb 3 max_authority_depth) "max_authority_depth should be at least 3"
    ok (record s { global = record s.global { max_authority_depth = max_authority_depth } })

  unfoldable pub setpriv : Moment → ℕ → Bool → System E F → Result (System E F)
  setpriv c account ispriv s = do
    check (c.at.has_auth c.at.self) "missing authority"
    ok (record s { privileged = λ a. if a == account then ispriv else s.privileged a })

  unfoldable pub setalimits : Moment → ℕ → Limits → System E F → Result (System E F)
  setalimits c account l s = do
    check (c.at.has_auth c.at.self) "missing authority"
    check (elim (find s.userres account account) [ none ↦ true | some _ ↦ false ])
        "only supports unlimited accounts"
    ok (set_limits E F account l s)

  -- `producer_info::deactivate`
  unfoldable pub deactivate : ProducerInfo F → ProducerInfo F
  deactivate p = record p { producer_key = 0; is_active = false }

  unfoldable pub rmvproducer : Moment → ℕ → System E F → Result (System E F)
  rmvproducer c producer s = do
    check (c.at.has_auth c.at.self) "missing authority"
    prod ← or_abort (find s.producers c.at.self producer) "producer not found"
    ok (record s { producers = store s.producers c.at.self producer (deactivate prod) })

  unfoldable pub updtrevision : Moment → ℕ → System E F → Result (System E F)
  updtrevision c revision s = do
    check (c.at.has_auth c.at.self) "missing authority"
    check (ltb s.global.revision 255) "can not increment revision"
    check (revision == s.global.revision + 1) "can only increment revision by one"
    check (leb revision 1) "specified revision is not yet supported by the code"
    ok (record s { global = record s.global { revision = revision } })

  unfoldable pub setabi : Library E F → Moment → ℕ → List ℕ → System E F → Result (System E F)
  setabi B c acnt abi s = ok (record s {
    abihash = store s.abihash c.at.self acnt (elim (find s.abihash c.at.self acnt) [
      | none ↦ record { owner = acnt; hash = B.sha256 abi }
      | some row ↦ record row { hash = B.sha256 abi }
    ]);
  })
