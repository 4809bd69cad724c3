-- ===== src/Source/Encode.antt =====
-- `ConfirmedBlockProtoRef` and `RewardWrapper` (src/source/block.rs). The buffer is the list of the bytes
-- put so far, so what a call puts stands at its end. `prost` is a record of the functions that the code
-- calls, and its laws that a function puts as many bytes as its length function says.
use alpamayo.Prelude.{
  ℕ, ◌+◌, ◌/◌, ◌%◌, ◌≡◌, Option, none, some, List, [], ◌∷◌, ◌++◌, ltb, ◌==◌, if◌then◌else◌, length,
}
use alpamayo.Prelude.Int.{ℤ, pos, negsuc}

-- `encode_key` is called with `WireType::LengthDelimited`. A message is given by its `encoded_len()` and
-- the bytes of its `encode_raw`.
pub record Prost : Type 0 where
  pub encode_key : ℕ → List ℕ
  pub key_len : ℕ → ℕ
  pub encode_varint : ℕ → List ℕ
  pub encoded_len_varint : ℕ → ℕ
  pub uint64_encode : ℕ → ℕ → List ℕ
  pub uint64_len : ℕ → ℕ → ℕ
  pub int64_encode : ℕ → ℤ → List ℕ
  pub int64_len : ℕ → ℤ → ℕ
  pub int32_encode : ℕ → ℕ → List ℕ
  pub int32_len : ℕ → ℕ → ℕ
  pub string_encode : ℕ → List ℕ → List ℕ
  pub string_len : ℕ → List ℕ → ℕ
  pub message_encode : ℕ → ℕ → List ℕ → List ℕ
  pub timestamp_encode : ℕ → ℤ → List ℕ
  pub timestamp_len : ℕ → ℤ → ℕ
  pub height_encode : ℕ → ℕ → List ℕ
  pub height_len : ℕ → ℕ → ℕ
  pub partitions_encode : ℕ → ℕ → List ℕ
  pub partitions_len : ℕ → ℕ → ℕ
  -- `u16::to_string`.
  pub to_string : ℕ → List ℕ

pub record Laws (p : Prost) : Type 0 where
  pub key_lem : (tag : ℕ) → length (p.encode_key tag) ≡ p.key_len tag
  pub varint_lem : (n : ℕ) → length (p.encode_varint n) ≡ p.encoded_len_varint n
  pub uint64_lem : (tag n : ℕ) → length (p.uint64_encode tag n) ≡ p.uint64_len tag n
  pub int64_lem : (tag : ℕ) (z : ℤ) → length (p.int64_encode tag z) ≡ p.int64_len tag z
  pub int32_lem : (tag n : ℕ) → length (p.int32_encode tag n) ≡ p.int32_len tag n
  pub string_lem : (tag : ℕ) (s : List ℕ) → length (p.string_encode tag s) ≡ p.string_len tag s
  pub message_lem :
      (tag len : ℕ) (raw : List ℕ)
      → length (p.message_encode tag len raw)
        ≡ p.key_len tag + p.encoded_len_varint len + length raw
  pub timestamp_lem : (tag : ℕ) (z : ℤ) → length (p.timestamp_encode tag z) ≡ p.timestamp_len tag z
  pub height_lem : (tag n : ℕ) → length (p.height_encode tag n) ≡ p.height_len tag n
  pub partitions_lem : (tag n : ℕ) → length (p.partitions_encode tag n) ≡ p.partitions_len tag n

pub data RewardType : Type 0 where
  fee rent staking voting deactivated_stake vat_debit : RewardType

pub record Reward : Type 0 where
  pub pubkey : List ℕ
  pub lamports : ℤ
  pub post_balance : ℕ
  pub reward_type : Option RewardType
  pub commission : Option ℕ
  pub commission_bps : Option ℕ

abbrev pub reward_type_as_i32 : Option RewardType → ℕ
reward_type_as_i32 none = 0
reward_type_as_i32 (some fee) = 1
reward_type_as_i32 (some rent) = 2
reward_type_as_i32 (some staking) = 3
reward_type_as_i32 (some voting) = 4
reward_type_as_i32 (some deactivated_stake) = 5
reward_type_as_i32 (some vat_debit) = 6

-- `NUM_STRINGS[num]`, for a `u8`: the ASCII digits.
unfoldable pub u8_to_static_str : ℕ → List ℕ
u8_to_static_str n =
    if ltb n 10
    then (48 + n) ∷ []
    else if ltb n 100
    then (48 + n / 10) ∷ (48 + n % 10) ∷ []
    else (48 + n / 100) ∷ (48 + n / 10 % 10) ∷ (48 + n % 10) ∷ []

-- `is_empty`, and `== 0` for an `i64`.
abbrev pub unless_empty {ℓ} : {A : Type ℓ} → List ℕ → A → A → A
unless_empty [] d a = d
unless_empty (_ ∷ _) d a = a

abbrev pub unless_zero {ℓ} : {A : Type ℓ} → ℤ → A → A → A
unless_zero (pos n) d a = if n == 0 then d else a
unless_zero (negsuc n) d a = a

abbrev pub map_or {ℓ κ} : {A : Type ℓ} {B : Type κ} → Option A → B → (A → B) → B
map_or none d f = d
map_or (some a) d f = f a

abbrev pub sum : List ℕ → ℕ
sum [] = 0
sum (n ∷ ns) = n + sum ns

module _ (p : Prost) where
  unfoldable pub bytes_encode : ℕ → List ℕ → List ℕ
  bytes_encode tag value = p.encode_key tag ++ (p.encode_varint (length value) ++ value)

  unfoldable pub bytes_encoded_len : ℕ → List ℕ → ℕ
  bytes_encoded_len tag value = p.key_len tag + p.encoded_len_varint (length value) + length value

  -- `RewardWrapper::encode_raw`.
  unfoldable pub encode_raw : Reward → List ℕ
  unfolding bytes_encode u8_to_static_str
  encode_raw r =
      unless_empty r.pubkey [] (p.string_encode 1 r.pubkey)
      ++ (unless_zero r.lamports [] (p.int64_encode 2 r.lamports)
          ++ ((if r.post_balance == 0 then [] else p.uint64_encode 3 r.post_balance)
              ++ (map_or r.reward_type [] (λ t. p.int32_encode 4 (reward_type_as_i32 (some t)))
                  ++ (map_or r.commission [] (λ c. bytes_encode 5 (u8_to_static_str c))
                      ++ map_or r.commission_bps [] (λ c. bytes_encode 6 (p.to_string c))))))

  -- `RewardWrapper::encoded_len`.
  unfoldable pub reward_len : Reward → ℕ
  unfolding bytes_encoded_len u8_to_static_str
  reward_len r =
      unless_empty r.pubkey 0 (p.string_len 1 r.pubkey)
      + unless_zero r.lamports 0 (p.int64_len 2 r.lamports)
      + (if r.post_balance == 0 then 0 else p.uint64_len 3 r.post_balance)
      + map_or r.reward_type 0 (λ t. p.int32_len 4 (reward_type_as_i32 (some t)))
      + map_or r.commission 0 (λ c. bytes_encoded_len 5 (u8_to_static_str c))
      + map_or r.commission_bps 0 (λ c. bytes_encoded_len 6 (p.to_string c))
