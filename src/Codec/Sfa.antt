-- ===== src/Codec/Sfa.antt =====
-- src/storage/rocksdb.rs: `SfaIndexValue`, a list of `SignatureStatus` (src/source/sfa.rs). A
-- signature and a memo are their bytes, `E` is the transaction error, `is_utf8` the test that
-- `String::from_utf8` makes.
use alpamayo.Prelude.{
  ℕ, ◌+◌, ◌/◌, ◌%◌, ◌^◌, ◌<◌, ◌≡◌, refl, Option, none, some, Bool, true, false, List, [], ◌∷◌, ◌++◌,
  arith, ltb, ◌==◌, if◌then◌else◌, is_some, length, length-append, take, drop,
}
use alpamayo.Codec.Bytes.{to_be_bytes, from_be, length-to_be_bytes, from_be-to_be_bytes}
use alpamayo.Codec.Reader.{◌>>=◌, Varint, Bincode, take-eq, drop-eq, try_get_u8}

pub record SignatureStatus (E : Type 0) : Type 0 where
  pub signature : List ℕ
  pub error : Option E
  pub memo : Option (List ℕ)
  pub transaction_index : ℕ
  pub is_token_owner : Bool
  pub token_balance_changed : Bool

abbrev pub bit : Bool → ℕ → ℕ
bit true n = n
bit false n = 0

-- `SfaIndexValueFlags`: the bits that `encode` sets; the third is always set.
abbrev pub flags_of : Bool → Bool → Bool → Bool → ℕ
flags_of has_error has_memo owner changed =
    bit has_error 1 + bit has_memo 2 + 4 + bit owner 8 + bit changed 16

abbrev pub has_bit : ℕ → ℕ → Bool
has_bit n flags = flags / n % 2 == 1

record Bits (e m o c : Bool) : Type 0 where
  known : ltb (flags_of e m o c) 32 ≡ true
  error_bit : has_bit 1 (flags_of e m o c) ≡ e
  memo_bit : has_bit 2 (flags_of e m o c) ≡ m
  index_bit : has_bit 4 (flags_of e m o c) ≡ true
  owner_bit : has_bit 8 (flags_of e m o c) ≡ o
  changed_bit : has_bit 16 (flags_of e m o c) ≡ c

flags-Bits : (e m o c : Bool) → Bits e m o c
flags-Bits e m o c = record {
  known = ground arith;
  error_bit = ground arith;
  memo_bit = ground arith;
  index_bit = ground arith;
  owner_bit = ground arith;
  changed_bit = ground arith;
}

-- `try_copy_to_slice` and the slices after the test of the bytes left.
unfoldable pub read_bytes : ℕ → List ℕ → Option (List ℕ × List ℕ)
read_bytes size slice =
    if ltb (length slice) size then none else some (take size slice, drop size slice)

read_bytes-append :
    (bytes rest : List ℕ) (size : ℕ)
    → length bytes ≡ size
    → read_bytes size (bytes ++ rest) ≡ some (bytes, rest)
unfolding read_bytes
read_bytes-append bytes rest size e =
    rw (enough, take-eq size bytes rest e, drop-eq size bytes rest e)
  where
    enough : ltb (length (bytes ++ rest)) size ≡ false
    enough = ground (arith, length-append bytes rest, e)

module _ {E : Type 0} (v : Varint) (b : Bincode E) (is_utf8 : List ℕ → Bool) where
  -- A length and that many bytes.
  abbrev sized : List ℕ → List ℕ → List ℕ
  sized bytes rest = v.encode_varint (length bytes) ++ (bytes ++ rest)

  abbrev error_bytes : Option E → List ℕ → List ℕ
  error_bytes none rest = rest
  error_bytes (some e) rest = sized (b.serialize e) rest

  abbrev memo_bytes : Option (List ℕ) → List ℕ → List ℕ
  memo_bytes none rest = rest
  memo_bytes (some memo) rest = sized memo rest

  unfoldable pub encode_statuses : List (SignatureStatus E) → List ℕ
  encode_statuses [] = []
  encode_statuses (s ∷ rest) =
      flags_of (is_some s.error) (is_some s.memo) s.is_token_owner s.token_balance_changed
      ∷ (s.signature
          ++ (to_be_bytes 4 s.transaction_index
              ++ error_bytes s.error (memo_bytes s.memo (encode_statuses rest))))

  unfoldable read_sized : List ℕ → Option (List ℕ × List ℕ)
  unfolding read_bytes
  read_sized slice = do (size, slice) ← v.decode_varint slice; read_bytes size slice

  unfoldable read_index : Bool → List ℕ → Option (ℕ × List ℕ)
  unfolding read_bytes
  read_index false slice = some (0, slice)
  read_index true slice = do (bytes, slice) ← read_bytes 4 slice; some (from_be 0 bytes, slice)

  unfoldable read_error : Bool → List ℕ → Option (Option E × List ℕ)
  unfolding read_sized
  read_error false slice = some (none, slice)
  read_error true slice = do
    (bytes, slice) ← read_sized slice
    error ← b.deserialize bytes
    some (some error, slice)

  unfoldable read_memo : Bool → List ℕ → Option (Option (List ℕ) × List ℕ)
  unfolding read_sized
  read_memo false slice = some (none, slice)
  read_memo true slice = do
    (bytes, slice) ← read_sized slice
    if is_utf8 bytes then some (some bytes, slice) else none

  unfoldable decode_status : List ℕ → Option (SignatureStatus E × List ℕ)
  unfolding read_bytes read_index read_error read_memo
  decode_status slice = do
    (read_flags, slice) ← try_get_u8 slice
    flags ← if ltb read_flags 32 then some read_flags else none
    (signature, slice) ← read_bytes 64 slice
    (transaction_index, slice) ← read_index (has_bit 4 flags) slice
    (error, slice) ← read_error (has_bit 1 flags) slice
    (memo, slice) ← read_memo (has_bit 2 flags) slice
    some (
      record {
        signature = signature;
        error = error;
        memo = memo;
        transaction_index = transaction_index;
        is_token_owner = has_bit 8 flags;
        token_balance_changed = has_bit 16 flags;
      },
      slice,
    )

  -- The next status, or `none` at the end of the slice.
  unfoldable pub decode_next : List ℕ → Option (Option (SignatureStatus E) × List ℕ)
  unfolding decode_status
  decode_next [] = some (none, [])
  decode_next (x ∷ xs) = decode_status (x ∷ xs) >>= λ (status, rest). some (some status, rest)

  pub record Fits (s : SignatureStatus E) : Type 0 where
    pub signature_fits : length s.signature ≡ 64
    pub index_fits : s.transaction_index < 2 ^ 32
    pub error_fits : (e : E) → s.error ≡ some e → length (b.serialize e) < 2 ^ 64
    pub memo_fits : (m : List ℕ) → s.memo ≡ some m → (length m < 2 ^ 64) × (is_utf8 m ≡ true)

  read_sized-sized :
      (bytes rest : List ℕ)
      → length bytes < 2 ^ 64
      → read_sized (sized bytes rest) ≡ some (bytes, rest)
  unfolding read_sized
  read_sized-sized bytes rest h =
      rw (v.decode-encode (length bytes) (bytes ++ rest) h)
        (read_bytes-append bytes rest (length bytes) refl)

  error_read :
      (error : Option E) (rest : List ℕ)
      → ((e : E) → error ≡ some e → length (b.serialize e) < 2 ^ 64)
      → read_error (is_some error) (error_bytes error rest) ≡ some (error, rest)
  unfolding read_error
  error_read none rest h = refl
  error_read (some e) rest h =
      rw (read_error, read_sized-sized (b.serialize e) rest (h e refl), b.deserialize-serialize e)

  memo_read :
      (memo : Option (List ℕ)) (rest : List ℕ)
      → ((m : List ℕ) → memo ≡ some m → (length m < 2 ^ 64) × (is_utf8 m ≡ true))
      → read_memo (is_some memo) (memo_bytes memo rest) ≡ some (memo, rest)
  unfolding read_memo
  memo_read none rest h = refl
  memo_read (some m) rest h = rw (read_memo, read_sized-sized m rest (h m refl).0, (h m refl).1)

  index_read :
      (index : ℕ) (rest : List ℕ)
      → index < 2 ^ 32
      → read_index true (to_be_bytes 4 index ++ rest) ≡ some (index, rest)
  unfolding read_index
  index_read index rest h = rw (
    read_index,
    read_bytes-append (to_be_bytes 4 index) rest 4 (length-to_be_bytes 4 index),
    from_be-to_be_bytes 4 index (omega (arith, h)),
  )

  -- From the bytes of a list of statuses, with a first one whose parts fit their types and whose memo
  -- is text, the first status is read and the bytes of the others are left; no status is read from
  -- the bytes of no status.
  pub decode_next-encode_statuses :
      (s : SignatureStatus E) (rest : List (SignatureStatus E))
      → Fits s
      → (decode_next (encode_statuses (s ∷ rest)) ≡ some (some s, encode_statuses rest))
        × (decode_next (encode_statuses []) ≡ some (none, []))
  unfolding decode_next encode_statuses
  decode_next-encode_statuses s rest f =
      let bits =
        flags-Bits (is_some s.error) (is_some s.memo) s.is_token_owner s.token_balance_changed in
      let after_error = memo_bytes s.memo (encode_statuses rest) in
      let after_index = error_bytes s.error after_error in
      (
        rw (
          bits.known,
          read_bytes-append s.signature (to_be_bytes 4 s.transaction_index ++ after_index) 64
              f.signature_fits,
          bits.index_bit,
          index_read s.transaction_index after_index f.index_fits,
          bits.error_bit,
          error_read s.error after_error f.error_fits,
          bits.memo_bit,
          memo_read s.memo (encode_statuses rest) f.memo_fits,
          bits.owner_bit,
          bits.changed_bit,
        ),
        refl,
      )
