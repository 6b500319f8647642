-- ===== src/Token/Stake.antt =====
-- The IQ staked by `epartvote` against the votes that it casts.
use decentral_bank.Prelude.{
  ℕ, ◌+◌, ◌*◌, ◌^◌, ◌<◌, ◌≡◌, ◌∙◌, true, Bool, some, Option-cases, inl, inr, ◌∷◌, String, arith, ok,
}
use decentral_bank.Prelude.Int.{pos}
use decentral_bank.Prelude.Word.{to_i64, mul_u64}
use decentral_bank.Chain.{Asset, Context, Chain, IsChain}
use decentral_bank.Token.{Contract, inline_transfer, article_vote}
use decentral_bank.Token.Iq.{iq_symbol, article_contract, iq_precision_multiplier, epartvote}

stake_exact :
    (n : ℕ) → n * 1000 < 2 ^ 63 → to_i64 (mul_u64 n iq_precision_multiplier) ≡ pos (n * 1000)
unfolding to_i64 mul_u64
stake_exact n h = ground arith

stake_wraps :
    (n : ℕ)
    → n * 1000 < 2 ^ 63
    → to_i64 (mul_u64 (n + 2 ^ 61) iq_precision_multiplier) ≡ pos (n * 1000)
unfolding to_i64 mul_u64
stake_wraps n h = ground arith

module _ (E : Chain) (L : IsChain E) where
  -- A successful vote of `n` units, where 1000 * n is below 2 ^ 63, is authorised by the voter. It
  -- queues a transfer of the voter's of exactly 1000 * n to the article contract and then the vote of
  -- `n` units, and changes no table.
  pub epartvote-stake :
      (c : Context) (voter id : ℕ) (approve : Bool) (n : ℕ) (comment memo : String)
      (s s' : Contract E)
      → n * 1000 < 2 ^ 63
      → epartvote E c voter id approve n comment memo s ≡ ok s'
      → (pack : Asset) × (pack.amount ≡ pos (n * 1000))
        × (pack.symbol ≡ iq_symbol)
        × (c.has_auth voter ≡ true)
        × (0 < n)
        × (s'.accounts ≡ s.accounts)
        × (s'.stat ≡ s.stat)
        × (s'.messages
            ≡ article_vote voter id approve n comment memo
              ∷ inline_transfer voter c.self voter article_contract pack "stake for vote"
              ∷ s.messages)
  unfolding epartvote
  epartvote-stake c voter id approve n comment memo s s' bound h =
      elim (Option-cases (E.make_asset (to_i64 (mul_u64 n iq_precision_multiplier)) iq_symbol)) [
        | inl e ↦ absurd (ground arith)
        | inr (pack, e) ↦
            let (a, y, _) = L.make_asset_some _ iq_symbol pack e in
            (
              pack,
              a ∙ stake_exact n bound,
              y,
              ground arith,
              ground arith,
              ground arith,
              ground arith,
              ground arith,
            )
      ]

  -- The product with 1000 wraps around: an authorised vote of n + 2 ^ 61 units stakes no more than a
  -- vote of `n` units does, 1000 * n, where that is below 2 ^ 63 and makes an asset.
  pub epartvote-wraps :
      (c : Context) (voter id : ℕ) (approve : Bool) (n : ℕ) (comment memo : String) (s : Contract E)
      (pack : Asset)
      → n * 1000 < 2 ^ 63
      → c.has_auth voter ≡ true
      → E.make_asset (pos (n * 1000)) iq_symbol ≡ some pack
      → epartvote E c voter id approve (n + 2 ^ 61) comment memo s
        ≡ ok (record s {
          messages =
              article_vote voter id approve (n + 2 ^ 61) comment memo
              ∷ inline_transfer voter c.self voter article_contract pack "stake for vote"
              ∷ s.messages;
        })
  unfolding epartvote
  epartvote-wraps c voter id approve n comment memo s pack bound auth made =
      rw (auth, stake_wraps n bound, made) (ground arith)
