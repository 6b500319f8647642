-- ===== src/Chain/Memory.antt =====
-- A chain that runs: tables as logs of writes, newest first. It shows that the assumptions on the
-- library can hold together, and the tests and examples run on it.
use decentral_bank.Prelude.{
  ℕ, ◌≡◌, refl, ◌↔◌, Bool, true, Option, none, some, List, [], ◌∷◌, arith, ◌&&◌, ◌==◌, leb, not,
  if◌then◌else◌,
}
use decentral_bank.Prelude.Int.{ℤ, pos, pos_part, neg_part, ◌+ℤ◌, ◌-ℤ◌, ltb_ℤ, eqb_ℤ, int_laws}
use decentral_bank.Chain.{Symbol, Asset, Chain, IsChain, weight, lookup}

abbrev max_amount : ℕ
max_amount = 0x3fff_ffff_ffff_ffff

abbrev amount_valid : ℤ → Bool
amount_valid n = leb (pos_part n) max_amount && leb (neg_part n) max_amount

abbrev equal_symbols : Symbol → Symbol → Bool
equal_symbols a b = a.code == b.code && a.precision == b.precision

abbrev valid_symbol : Symbol → Bool
valid_symbol s = not (s.code == 0) && leb s.precision 18

abbrev make : ℤ → Symbol → Option Asset
make n s =
    if amount_valid n && valid_symbol s then some (record { amount = n; symbol = s }) else none

abbrev within_range : Symbol → ℤ → Option Asset
within_range s n = if amount_valid n then some (record { amount = n; symbol = s }) else none

abbrev Log : Type 0 → Type 0
Log R = List (ℕ × ℕ × Option R)

module _ {R : Type 0} where
  find_log : Log R → ℕ → ℕ → Option R
  find_log [] s k = none
  find_log ((s', k', o) ∷ t) s k = if (s' == s) && (k' == k) then o else find_log t s k

  weigh_log : (ℕ → ℕ → R → ℤ) → Log R → ℤ
  unfolding find_log
  weigh_log w [] = pos 0
  weigh_log w ((s, k, o) ∷ t) = weigh_log w t -ℤ weight w s k (find_log t s k) +ℤ weight w s k o

  remove : ℕ → List (ℕ × R) → List (ℕ × R)
  remove k [] = []
  remove k ((j, r) ∷ l) = if k == j then remove k l else (j, r) ∷ remove k l

  put : ℕ → Option R → List (ℕ × R) → List (ℕ × R)
  unfolding remove
  put k none l = remove k l
  put k (some r) l = (k, r) ∷ remove k l

  rows_log : Log R → ℕ → List (ℕ × R)
  unfolding put
  rows_log [] s = []
  rows_log ((s', k', o) ∷ t) s = if s' == s then put k' o (rows_log t s) else rows_log t s

  lookup-remove :
      (k j : ℕ) (l : List (ℕ × R)) → lookup k (remove j l) ≡ (if j == k then none else lookup k l)
  unfolding remove
  lookup-remove k j [] = ground arith
  lookup-remove k j ((i, r) ∷ l) = ground (arith, lookup-remove k j l)

  find_log-rows : (t : Log R) (s k : ℕ) → find_log t s k ≡ lookup k (rows_log t s)
  unfolding find_log rows_log
  find_log-rows [] s k = refl
  find_log-rows ((s', k', none) ∷ t) s k =
      ground (arith, find_log-rows t s k, lookup-remove k k' (rows_log t s))
  find_log-rows ((s', k', some r) ∷ t) s k =
      ground (arith, find_log-rows t s k, lookup-remove k k' (rows_log t s))

-- Without its laws the chain computes.
unfoldable pub memory : Chain
unfolding find_log weigh_log rows_log
memory = record {
  code_valid = λ c. not (c == 0);
  symbol_valid = valid_symbol;
  asset_valid = λ a. amount_valid a.amount && valid_symbol a.symbol;
  same_symbol = equal_symbols;
  make_asset = make;
  plus = λ a b.
      if equal_symbols a.symbol b.symbol
      then within_range a.symbol (a.amount +ℤ b.amount)
      else none;
  minus = λ a b.
      if equal_symbols a.symbol b.symbol
      then within_range a.symbol (a.amount -ℤ b.amount)
      else none;
  negated = λ a. record a { amount = pos 0 -ℤ a.amount };
  exceeds = λ a b. if equal_symbols a.symbol b.symbol then some (ltb_ℤ b.amount a.amount) else none;
  equals = λ a b. if equal_symbols a.symbol b.symbol then some (eqb_ℤ a.amount b.amount) else none;
  Table = Log;
  empty = λ {R}. [];
  find = λ {R} t. find_log t;
  store = λ {R} t s k r. (s, k, some r) ∷ t;
  erase = λ {R} t s k. (s, k, none) ∷ t;
  rows = λ {R} t. rows_log t;
  weigh = λ {R} w t. weigh_log w t;
}

symbols_iff : (a b : Symbol) → (equal_symbols a b ≡ true) ↔ (a ≡ b)
symbols_iff a b = ground arith

undo_step : (t a b : ℤ) → t -ℤ a +ℤ b +ℤ a ≡ t +ℤ b
undo_step t a b = omega int_laws

undo_erase : (t a : ℤ) → t -ℤ a +ℤ pos 0 +ℤ a ≡ t
undo_erase t a = omega int_laws

pub memory-IsChain : IsChain memory
unfolding memory find_log weigh_log rows_log
memory-IsChain = record {
  same_symbol_iff = symbols_iff;
  asset_valid_InRange = λ a h. ground arith;
  make_asset_some = λ n s a h. ground arith;
  plus_some = λ a b c h. ground arith;
  minus_some = λ a b c h. ground arith;
  negated_lem = λ a. (refl, refl);
  exceeds_some = λ a b r h. ground arith;
  equals_some = λ a b r h. ground arith;
  find-empty = λ R s k. refl;
  weigh-empty = λ R w. refl;
  find-store = λ R t s k r s' k'. refl;
  find-erase = λ R t s k s' k'. refl;
  find-rows = λ R t s k. find_log-rows t s k;
  weigh-store = λ R w t s k r. undo_step _ _ _;
  weigh-erase = λ R w t s k. undo_erase _ _;
}
