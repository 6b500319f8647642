-- ===== src/Chain.antt =====
-- eosiolib, the library of the blockchain that the contracts are written against. It is not part
-- of the repository, so it is a parameter: its data as records, its operations as the fields of
-- `Chain`, and what its documentation says of them as the fields of `IsChain`.
use decentral_bank.Prelude.{
  ℕ, ◌<◌, ◌^◌, ◌≡◌, ◌↔◌, Bool, true, Option, none, some, List, [], ◌∷◌, ◌&&◌, ◌==◌, if◌then◌else◌,
}
use decentral_bank.Prelude.Int.{ℤ, pos, pos_part, neg_part, ◌+ℤ◌, ◌-ℤ◌, ltb_ℤ, eqb_ℤ}
pub mod Memory
pub mod Double

-- `symbol`: a symbol code (`symbol_code`, by its raw 64-bit value) and a number of decimals.
pub record Symbol : Type 0 where
  pub code : ℕ
  pub precision : ℕ

-- `asset`: an `int64_t` amount of a symbol.
pub record Asset : Type 0 where
  pub amount : ℤ
  pub symbol : Symbol

-- What an action can ask of the transaction that runs it. Accounts (`name`) are 64-bit numbers.
pub record Context : Type 0 where
  -- `_self`, the account of the contract
  pub self : ℕ
  -- `get_code()`, the account whose action is being run
  pub code : ℕ
  -- `now()`, in seconds
  pub now : ℕ
  -- `has_auth`
  pub has_auth : ℕ → Bool
  -- `is_account`
  pub is_account : ℕ → Bool

-- A table of the contract is the rows of all of its scopes, by scope and primary key.
pub record Chain : Type 1 where
  pub code_valid : ℕ → Bool
  pub symbol_valid : Symbol → Bool
  pub asset_valid : Asset → Bool
  pub same_symbol : Symbol → Symbol → Bool
  -- the constructor `asset( amount, symbol )`
  pub make_asset : ℤ → Symbol → Option Asset
  -- `+=` and `-=`, unary `-`, `>` and `==` of assets; `none` is an assertion inside the library
  pub plus : Asset → Asset → Option Asset
  pub minus : Asset → Asset → Option Asset
  pub negated : Asset → Asset
  pub exceeds : Asset → Asset → Option Bool
  pub equals : Asset → Asset → Option Bool
  -- `multi_index`: `find`, `emplace` or `modify`, `erase`, and the walk from `begin` to `end`
  pub Table : Type 0 → Type 0
  pub empty : {R : Type 0} → Table R
  pub find : {R : Type 0} → Table R → ℕ → ℕ → Option R
  pub store : {R : Type 0} → Table R → ℕ → ℕ → R → Table R
  pub erase : {R : Type 0} → Table R → ℕ → ℕ → Table R
  pub rows : {R : Type 0} → Table R → ℕ → List (ℕ × R)
  -- the sum of a weight over the rows of all scopes, of which only statements speak
  pub weigh : {R : Type 0} → (ℕ → ℕ → R → ℤ) → Table R → ℤ

-- The weight of a row that may be missing.
abbrev pub weight : {R : Type 0} → (ℕ → ℕ → R → ℤ) → ℕ → ℕ → Option R → ℤ
weight w s k none = pos 0
weight w s k (some r) = w s k r

-- The first pair with a key.
abbrev pub lookup : {R : Type 0} → ℕ → List (ℕ × R) → Option R
lookup k [] = none
lookup k ((j, r) ∷ l) = if k == j then some r else lookup k l

-- The range of a valid amount.
abbrev pub amount_bound : ℕ
amount_bound = 2 ^ 62

abbrev pub InRange : ℤ → Type 0
InRange n = (pos_part n < amount_bound) × (neg_part n < amount_bound)

pub record IsChain (E : Chain) : Type 1 where
  pub same_symbol_iff : (a b : Symbol) → (E.same_symbol a b ≡ true) ↔ (a ≡ b)
  pub asset_valid_InRange : (a : Asset) → E.asset_valid a ≡ true → InRange a.amount
  pub make_asset_some :
      (n : ℤ) (s : Symbol) (a : Asset)
      → E.make_asset n s ≡ some a
      → (a.amount ≡ n) × (a.symbol ≡ s) × InRange n
  pub plus_some :
      (a b c : Asset)
      → E.plus a b ≡ some c
      → (c.amount ≡ a.amount +ℤ b.amount)
        × (c.symbol ≡ a.symbol)
        × (b.symbol ≡ a.symbol)
        × InRange c.amount
  pub minus_some :
      (a b c : Asset)
      → E.minus a b ≡ some c
      → (c.amount ≡ a.amount -ℤ b.amount)
        × (c.symbol ≡ a.symbol)
        × (b.symbol ≡ a.symbol)
        × InRange c.amount
  pub negated_lem :
      (a : Asset) → ((E.negated a).amount ≡ pos 0 -ℤ a.amount) × ((E.negated a).symbol ≡ a.symbol)
  pub exceeds_some :
      (a b : Asset) (r : Bool)
      → E.exceeds a b ≡ some r
      → (r ≡ ltb_ℤ b.amount a.amount) × (b.symbol ≡ a.symbol)
  pub equals_some :
      (a b : Asset) (r : Bool)
      → E.equals a b ≡ some r
      → (r ≡ eqb_ℤ a.amount b.amount) × (b.symbol ≡ a.symbol)
  pub find-empty : (R : Type 0) (s k : ℕ) → E.find {R = R} E.empty s k ≡ none
  pub weigh-empty : (R : Type 0) (w : ℕ → ℕ → R → ℤ) → E.weigh w E.empty ≡ pos 0
  pub find-store :
      (R : Type 0) (t : E.Table R) (s k : ℕ) (r : R) (s' k' : ℕ)
      → E.find (E.store t s k r) s' k' ≡ (if (s == s') && (k == k') then some r else E.find t s' k')
  pub find-erase :
      (R : Type 0) (t : E.Table R) (s k s' k' : ℕ)
      → E.find (E.erase t s k) s' k' ≡ (if (s == s') && (k == k') then none else E.find t s' k')
  pub find-rows : (R : Type 0) (t : E.Table R) (s k : ℕ) → E.find t s k ≡ lookup k (E.rows t s)
  pub weigh-store :
      (R : Type 0) (w : ℕ → ℕ → R → ℤ) (t : E.Table R) (s k : ℕ) (r : R)
      → E.weigh w (E.store t s k r) +ℤ weight w s k (E.find t s k) ≡ E.weigh w t +ℤ w s k r
  pub weigh-erase :
      (R : Type 0) (w : ℕ → ℕ → R → ℤ) (t : E.Table R) (s k : ℕ)
      → E.weigh w (E.erase t s k) +ℤ weight w s k (E.find t s k) ≡ E.weigh w t
