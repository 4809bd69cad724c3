-- ===== src/Codec/Basic.antt =====
-- src/storage/rocksdb.rs: `SlotBasicIndexValue`.
use alpamayo.Prelude.{
  ℕ, suc, ◌+◌, ◌-◌, ◌/◌, ◌%◌, ◌^◌, ◌<◌, ◌≡◌, refl, Option, none, some, Bool, true, false, List, [],
  ◌++◌, arith, ltb, ◌==◌, if◌then◌else◌, is_some, lt→ltb, ◌⊎◌, inl, inr,
}
use alpamayo.Prelude.Int.{ℤ, pos, negsuc}
use alpamayo.Codec.Reader.{◌>>=◌, Varint, try_get_u8, read_if, append_nil}

-- `i64 as u64` and `u64 as i64`.
abbrev pub as_u64 : ℤ → ℕ
as_u64 (pos n) = n
as_u64 (negsuc n) = 2 ^ 64 - suc n

abbrev pub as_i64 : ℕ → ℤ
as_i64 n = if ltb n (2 ^ 63) then pos n else negsuc (2 ^ 64 - suc n)

pub record SlotBasicIndexValue : Type 0 where
  pub dead : Bool
  pub block_time : Option ℤ
  pub block_height : Option ℕ
  pub storage_id : ℕ
  pub offset : ℕ
  pub size : ℕ

abbrev pub dead_value : SlotBasicIndexValue
dead_value = record {
  dead = true;
  block_time = none;
  block_height = none;
  storage_id = 0;
  offset = 0;
  size = 0;
}

-- The bits of the flags.
abbrev pub has_dead : ℕ → Bool
has_dead flags = flags % 2 == 1

abbrev pub has_block_time : ℕ → Bool
has_block_time flags = flags / 2 % 2 == 1

abbrev pub has_block_height : ℕ → Bool
has_block_height flags = flags / 4 % 2 == 1

-- `from_bits`: no bit but these three.
abbrev pub is_flags : ℕ → Bool
is_flags flags = ltb flags 8

abbrev pub InI64 : ℤ → Type 0
InI64 (pos n) = n < 2 ^ 63
InI64 (negsuc n) = n < 2 ^ 63

as_u64-lt : (t : ℤ) → InI64 t → as_u64 t < 2 ^ 64
as_u64-lt (pos n) h = omega arith
as_u64-lt (negsuc n) h = omega arith

pub as_i64-as_u64 : (t : ℤ) → InI64 t → as_i64 (as_u64 t) ≡ t
as_i64-as_u64 (pos n) h = ground arith
as_i64-as_u64 (negsuc n) h = ground arith

-- The fields fit their machine types.
pub record Fits (s : SlotBasicIndexValue) : Type 0 where
  pub time_fits : (t : ℤ) → s.block_time ≡ some t → InI64 t
  pub height_fits : (h : ℕ) → s.block_height ≡ some h → h < 2 ^ 64
  pub id_fits : s.storage_id < 2 ^ 8
  pub offset_fits : s.offset < 2 ^ 64
  pub size_fits : s.size < 2 ^ 64

module _ (v : Varint) where
  abbrev time_bytes : Option ℤ → List ℕ
  time_bytes none = []
  time_bytes (some t) = v.encode_varint (as_u64 t)

  abbrev height_bytes : Option ℕ → List ℕ
  height_bytes none = []
  height_bytes (some h) = v.encode_varint h

  unfoldable pub encode_basic : SlotBasicIndexValue → List ℕ
  encode_basic s =
      let flags =
        (if is_some s.block_time then 2 else 0) + (if is_some s.block_height then 4 else 0) in
      if s.dead
      then v.encode_varint 1
      else v.encode_varint flags
        ++ (time_bytes s.block_time
            ++ (height_bytes s.block_height
                ++ (v.encode_varint s.storage_id
                    ++ (v.encode_varint s.offset ++ v.encode_varint s.size))))

  abbrev map_time : Option ℕ → Option ℤ
  map_time none = none
  map_time (some n) = some (as_i64 n)

  -- `StorageId` is a `u8`.
  unfoldable decode_place : Option ℕ → Option ℕ → List ℕ → Option SlotBasicIndexValue
  decode_place block_time block_height fields = do
    (id, fields) ← v.decode_varint fields
    storage_id ← if ltb id (2 ^ 8) then some id else none
    (offset, fields) ← v.decode_varint fields
    (size, fields) ← v.decode_varint fields
    some (record {
      dead = false;
      block_time = map_time block_time;
      block_height = block_height;
      storage_id = storage_id;
      offset = offset;
      size = size;
    })

  -- The fields of a block that is not dead.
  unfoldable decode_live : ℕ → List ℕ → Option SlotBasicIndexValue
  unfolding decode_place
  decode_live flags fields = do
    (block_time, fields) ← read_if (has_block_time flags) v.decode_varint fields
    (block_height, fields) ← read_if (has_block_height flags) v.decode_varint fields
    decode_place block_time block_height fields

  unfoldable pub decode_basic : List ℕ → Option SlotBasicIndexValue
  unfolding decode_live
  decode_basic slice = do
    (flags, fields) ← try_get_u8 slice
    checked ← if is_flags flags then some flags else none
    if has_dead checked then some dead_value else decode_live checked fields

  size_read : (size : ℕ) → size < 2 ^ 64 → v.decode_varint (v.encode_varint size) ≡ some (size, [])
  size_read size h = rw (append_nil (v.encode_varint size)) at (v.decode-encode size [] h)

  place_read :
      (s : SlotBasicIndexValue) (bt bh : Option ℕ)
      → Fits s
      → decode_place bt bh
          (v.encode_varint s.storage_id ++ (v.encode_varint s.offset ++ v.encode_varint s.size))
        ≡ some (record s { dead = false; block_time = map_time bt; block_height = bh })
  unfolding decode_place
  place_read s bt bh f = rw (
    v.decode-encode s.storage_id (v.encode_varint s.offset ++ v.encode_varint s.size)
        (omega (arith, f.id_fits)),
    lt→ltb _ _ f.id_fits,
    v.decode-encode s.offset (v.encode_varint s.size) f.offset_fits,
    size_read s.size f.size_fits,
  )

  pub decode_basic-dead : decode_basic (encode_basic dead_value) ≡ some dead_value
  unfolding encode_basic decode_basic
  decode_basic-dead = rw (v.encode_small 1 (omega arith))

  live_round :
      (s : SlotBasicIndexValue) (bt : Option ℤ) (bh : Option ℕ)
      → s.block_time ≡ bt
      → s.block_height ≡ bh
      → s.dead ≡ false
      → Fits s
      → decode_basic (encode_basic s) ≡ some s
  unfolding encode_basic decode_basic
  live_round s none none et eh d f =
      rw (encode_basic, d, et, eh, v.encode_small 0 (omega arith), place_read s none none f)
  live_round s none (some h) et eh d f = rw (
    encode_basic,
    d,
    et,
    eh,
    v.encode_small 4 (omega arith),
    v.decode-encode h _ (f.height_fits h eh),
    place_read s none (some h) f,
  )
  live_round s (some t) none et eh d f = rw (
    encode_basic,
    d,
    et,
    eh,
    v.encode_small 2 (omega arith),
    v.decode-encode (as_u64 t) _ (as_u64-lt t (f.time_fits t et)),
    place_read s (some (as_u64 t)) none f,
    as_i64-as_u64 t (f.time_fits t et),
  )
  live_round s (some t) (some h) et eh d f = rw (
    encode_basic,
    d,
    et,
    eh,
    v.encode_small 6 (omega arith),
    v.decode-encode (as_u64 t) _ (as_u64-lt t (f.time_fits t et)),
    v.decode-encode h _ (f.height_fits h eh),
    place_read s (some (as_u64 t)) (some h) f,
    as_i64-as_u64 t (f.time_fits t et),
  )

  -- A value of a block that is not dead, with its fields within their machine types, comes back from
  -- its bytes; and so does the value of a dead slot.
  pub decode_basic-encode_basic :
      (s : SlotBasicIndexValue)
      → Fits s
      → (s.dead ≡ false) ⊎ (s ≡ dead_value)
      → decode_basic (encode_basic s) ≡ some s
  decode_basic-encode_basic s f (inl d) = live_round s s.block_time s.block_height refl refl d f
  decode_basic-encode_basic s f (inr e) = rw e decode_basic-dead
