-- ===== src/Codec/Keys.antt =====
-- src/storage/rocksdb.rs: `SlotBasicIndex`, `SlotExtraIndex`, `SfaIndex`, `InflationRewardIndex`.
-- An address hash and a public key are their bytes.
use alpamayo.Prelude.{
  ℕ, ◌^◌, ◌<◌, ◌≡◌, Option, none, some, List, ◌++◌, arith, ◌==◌, if◌then◌else◌, length,
  length-append, take, drop,
}
use alpamayo.Codec.Bytes.{to_be_bytes, from_be, length-to_be_bytes, from_be-to_be_bytes}
use alpamayo.Codec.Reader.{take-eq, drop-eq}

-- `SlotBasicIndex::key`, `SlotExtraIndex::key`.
abbrev pub slot_key : ℕ → List ℕ
slot_key slot = to_be_bytes 8 slot

abbrev pub decode_slot : List ℕ → Option ℕ
decode_slot slice = if length slice == 8 then some (from_be 0 slice) else none

-- `SfaIndex::concat`.
abbrev pub concat : List ℕ → ℕ → List ℕ
concat address_hash slot = address_hash ++ to_be_bytes 8 slot

-- `SfaIndex::decode`.
unfoldable pub decode_sfa : List ℕ → Option (List ℕ × ℕ)
decode_sfa slice =
    if length slice == 16 then some (take 8 slice, from_be 0 (drop 8 slice)) else none

-- `InflationRewardIndex::encode_reward`.
abbrev pub encode_reward : ℕ → List ℕ → List ℕ
encode_reward epoch pubkey = to_be_bytes 8 epoch ++ pubkey

-- A slot of 64 bits comes back from its key.
pub decode_slot-slot_key : (slot : ℕ) → slot < 2 ^ 64 → decode_slot (slot_key slot) ≡ some slot
decode_slot-slot_key slot h =
    rw (length-to_be_bytes 8 slot, from_be-to_be_bytes 8 slot (omega arith))

-- From the key of 16 bytes of an address hash of 8 bytes and a slot of 64 bits, both come back.
pub decode_sfa-concat :
    (hash : List ℕ) (slot : ℕ)
    → length hash ≡ 8
    → slot < 2 ^ 64
    → decode_sfa (concat hash slot) ≡ some (hash, slot)
unfolding decode_sfa
decode_sfa-concat hash slot e h = rw (
  total,
  take-eq 8 hash (to_be_bytes 8 slot) e,
  drop-eq 8 hash (to_be_bytes 8 slot) e,
  from_be-to_be_bytes 8 slot (omega arith),
)
  where
    total : length (hash ++ to_be_bytes 8 slot) ≡ 16
    total = omega (arith, e, length-append hash (to_be_bytes 8 slot), length-to_be_bytes 8 slot)
