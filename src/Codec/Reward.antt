-- ===== src/Codec/Reward.antt =====
-- src/storage/rocksdb.rs: `InflationRewardAddressValue`.
use alpamayo.Prelude.{
  ℕ, ◌+◌, ◌*◌, ◌/◌, ◌%◌, ◌^◌, ◌<◌, ◌≡◌, refl, ap, Option, none, some, List, [], ◌∷◌, ◌++◌, arith,
  Result, ok, err,
}
use alpamayo.Codec.Reader.{◌>>=◌, Varint}

pub record RpcInflationReward : Type 0 where
  pub epoch : ℕ
  pub effective_slot : ℕ
  pub amount : ℕ
  pub post_balance : ℕ
  pub commission : Option ℕ
  pub commission_bps : Option ℕ

pub data DecodeFailure : Type 0 where
  decode_error slice_panic : DecodeFailure

module _ (v : Varint) where
  -- `put_u16_le`.
  abbrev commission_bytes : Option ℕ → Option ℕ → List ℕ
  commission_bytes none bps = []
  commission_bytes (some c) none = c ∷ []
  commission_bytes (some c) (some bps) = c ∷ bps % 256 ∷ bps / 256 ∷ []

  unfoldable pub encode_reward_value : RpcInflationReward → List ℕ
  encode_reward_value r =
      v.encode_varint r.epoch
      ++ (v.encode_varint r.effective_slot
          ++ (v.encode_varint r.amount
              ++ (v.encode_varint r.post_balance
                  ++ commission_bytes r.commission r.commission_bps)))

  -- The match on the length of what is left: with two bytes the third index is out of range.
  unfoldable pub decode_commission : List ℕ → Result DecodeFailure (Option ℕ × Option ℕ)
  decode_commission [] = ok (none, none)
  decode_commission (c ∷ []) = ok (some c, none)
  decode_commission (c ∷ low ∷ []) = err slice_panic
  decode_commission (c ∷ low ∷ high ∷ rest) = ok (some c, some (low + 256 * high))

  unfoldable decode_four : List ℕ → Option (ℕ × ℕ × ℕ × ℕ × List ℕ)
  decode_four slice = do
    (epoch, slice) ← v.decode_varint slice
    (effective_slot, slice) ← v.decode_varint slice
    (amount, slice) ← v.decode_varint slice
    (post_balance, slice) ← v.decode_varint slice
    some (epoch, effective_slot, amount, post_balance, slice)

  unfoldable pub decode_reward_value : List ℕ → Result DecodeFailure RpcInflationReward
  unfolding decode_four decode_commission
  decode_reward_value slice = elim (decode_four slice) [
    | none ↦ err decode_error
    | some (epoch, effective_slot, amount, post_balance, rest) ↦ elim (decode_commission rest) [
      | err e ↦ err e
      | ok (commission, commission_bps) ↦ ok (record {
        epoch = epoch;
        effective_slot = effective_slot;
        amount = amount;
        post_balance = post_balance;
        commission = commission;
        commission_bps = commission_bps;
      })
    ]
  ]

  pub record Fits (r : RpcInflationReward) : Type 0 where
    pub epoch_fits : r.epoch < 2 ^ 64
    pub slot_fits : r.effective_slot < 2 ^ 64
    pub amount_fits : r.amount < 2 ^ 64
    pub balance_fits : r.post_balance < 2 ^ 64

  commission_read :
      (c bps : Option ℕ)
      → (c ≡ none → bps ≡ none)
      → decode_commission (commission_bytes c bps) ≡ ok (c, bps)
  unfolding decode_commission
  commission_read none none h = refl
  commission_read none (some n) h = ground (arith, h refl)
  commission_read (some c) none h = refl
  commission_read (some c) (some n) h = ap (λ m. ok (some c, some m)) (omega arith)

  four_read :
      (r : RpcInflationReward) (tail : List ℕ)
      → Fits r
      → decode_four (
          v.encode_varint r.epoch
          ++ (v.encode_varint r.effective_slot
              ++ (v.encode_varint r.amount ++ (v.encode_varint r.post_balance ++ tail))))
        ≡ some (r.epoch, r.effective_slot, r.amount, r.post_balance, tail)
  unfolding decode_four
  four_read r tail f = rw (
    decode_four,
    v.decode-encode r.epoch
        (v.encode_varint r.effective_slot
          ++ (v.encode_varint r.amount ++ (v.encode_varint r.post_balance ++ tail)))
        f.epoch_fits,
    v.decode-encode r.effective_slot
        (v.encode_varint r.amount ++ (v.encode_varint r.post_balance ++ tail)) f.slot_fits,
    v.decode-encode r.amount (v.encode_varint r.post_balance ++ tail) f.amount_fits,
    v.decode-encode r.post_balance tail f.balance_fits,
  )

  -- A reward whose fields fit their machine types, and which has no basis points without a
  -- commission, comes back from its bytes.
  pub decode_reward_value-encode_reward_value :
      (r : RpcInflationReward)
      → Fits r
      → (r.commission ≡ none → r.commission_bps ≡ none)
      → decode_reward_value (encode_reward_value r) ≡ ok r
  unfolding decode_reward_value encode_reward_value
  decode_reward_value-encode_reward_value r f h =
      let tail = commission_bytes r.commission r.commission_bps in
      rw (
        decode_reward_value,
        encode_reward_value,
        four_read r tail f,
        commission_read r.commission r.commission_bps h,
      )
