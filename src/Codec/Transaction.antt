-- ===== src/Codec/Transaction.antt =====
-- src/storage/rocksdb.rs: `TransactionIndexValue`, with the records of older versions. `E` is the
-- transaction error.
use alpamayo.Prelude.{
  ℕ, ◌%◌, ◌^◌, ◌≤◌, ◌<◌, ◌≡◌, refl, ◌∙◌, Option, none, some, Bool, true, false, List, [], ◌∷◌, ◌++◌,
  arith, ltb, ◌||◌, ◌==◌, if◌then◌else◌, length, length-append, take, drop,
}
use native.Mathlib.Nat.{mod-eq_of_lt}
use alpamayo.Codec.Reader.{◌>>=◌, Varint, Bincode, take-eq, drop-eq}
use alpamayo.Codec.Varints.{decode_last, varint_some, varint_append_some}

pub record TransactionIndexValue (E : Type 0) : Type 0 where
  pub slot : ℕ
  pub offset : ℕ
  pub size : ℕ
  pub error : Option E
  pub index : ℕ

module _ {E : Type 0} (v : Varint) (b : Bincode E) where
  abbrev pub error_bytes : Option E → List ℕ → List ℕ
  error_bytes none rest = rest
  error_bytes (some e) rest = v.encode_varint (length (b.serialize e)) ++ (b.serialize e ++ rest)

  -- The three fields that every version has written.
  abbrev pub place_bytes : TransactionIndexValue E → List ℕ → List ℕ
  place_bytes t rest =
      v.encode_varint t.slot ++ (v.encode_varint t.offset ++ (v.encode_varint t.size ++ rest))

  unfoldable pub encode_transaction : TransactionIndexValue E → List ℕ
  encode_transaction t = place_bytes t (error_bytes t.error (v.encode_varint t.index))

  abbrev read_error : Bool → List ℕ → Option (Option E)
  read_error false bytes = some none
  read_error true bytes = b.deserialize bytes >>= λ e. some (some e)

  unfoldable read_index : List ℕ → Option ℕ
  read_index [] = some 0
  read_index (x ∷ xs) = v.decode_varint (x ∷ xs) >>= λ (n, rest). some (n % 2 ^ 32)

  -- After the three fields: nothing, a bare index, or an error with or without an index.
  unfoldable decode_tail : Bool → List ℕ → Option (Option E × ℕ)
  unfolding read_index
  decode_tail decode_error [] = some (none, 0)
  decode_tail decode_error (x ∷ xs) = v.decode_varint (x ∷ xs) >>= λ (a, rest).
      if (a == 0) || ltb (length rest) a
      then some (none, a % 2 ^ 32)
      else (read_error decode_error (take a rest) >>= λ error.
          read_index (drop a rest) >>= λ index. some (error, index))

  unfoldable pub decode_transaction : Bool → List ℕ → Option (TransactionIndexValue E)
  unfolding decode_tail
  decode_transaction decode_error slice = do
    (slot, fields) ← v.decode_varint slice
    (offset, fields) ← v.decode_varint fields
    (size, fields) ← v.decode_varint fields
    (error, index) ← decode_tail decode_error fields
    some (record { slot = slot; offset = offset; size = size; error = error; index = index })

  pub record Fits (t : TransactionIndexValue E) : Type 0 where
    pub slot_fits : t.slot < 2 ^ 64
    pub offset_fits : t.offset < 2 ^ 64
    pub size_fits : t.size < 2 ^ 64
    pub index_fits : t.index < 2 ^ 32
    pub error_fits : (e : E) → t.error ≡ some e → length (b.serialize e) < 2 ^ 64

  -- The error that is read, if errors are to be decoded.
  abbrev pub shown : Bool → Option E → Option E
  shown true error = error
  shown false error = none

  place_read :
      (decode_error : Bool) (t : TransactionIndexValue E) (rest : List ℕ) (error : Option E)
      (index : ℕ)
      → Fits t
      → decode_tail decode_error rest ≡ some (error, index)
      → decode_transaction decode_error (place_bytes t rest)
        ≡ some (record t { error = error; index = index })
  unfolding decode_transaction
  place_read decode_error t rest error index f e = rw (
    v.decode-encode t.slot (v.encode_varint t.offset ++ (v.encode_varint t.size ++ rest))
        f.slot_fits,
    v.decode-encode t.offset (v.encode_varint t.size ++ rest) f.offset_fits,
    v.decode-encode t.size rest f.size_fits,
    e,
  )

  -- A slice that a varint is read from is not empty, so the tests for an empty slice do not matter.
  tail_of_varint :
      (decode_error : Bool) (bytes : List ℕ) (a : ℕ) (rest : List ℕ)
      → ¬ (bytes ≡ [])
      → v.decode_varint bytes ≡ some (a, rest)
      → decode_tail decode_error bytes ≡ (
          if (a == 0) || ltb (length rest) a
          then some (none, a % 2 ^ 32)
          else (read_error decode_error (take a rest) >>= λ error.
              read_index (drop a rest) >>= λ index. some (error, index)))
  unfolding decode_tail
  tail_of_varint decode_error [] a rest n e = absurd (n refl)
  tail_of_varint decode_error (x ∷ xs) a rest n e = rw e

  read_index-varint : (n : ℕ) → n < 2 ^ 32 → read_index (v.encode_varint n) ≡ some n
  unfolding read_index
  read_index-varint n h =
      read_of (v.encode_varint n) (varint_some v n (omega arith)) (decode_last v n (omega arith))
    where
      read_of :
          (bytes : List ℕ)
          → ¬ (bytes ≡ [])
          → v.decode_varint bytes ≡ some (n, [])
          → read_index bytes ≡ some n
      read_of [] ne e = absurd (ne refl)
      read_of (x ∷ xs) ne e = rw (e, mod-eq_of_lt {n = n} {m = 2 ^ 32} h)

  tail_of_index :
      (decode_error : Bool) (n : ℕ)
      → n < 2 ^ 32
      → decode_tail decode_error (v.encode_varint n) ≡ some (none, n)
  tail_of_index decode_error n h =
      tail_of_varint decode_error (v.encode_varint n) n [] (varint_some v n (omega arith))
        (decode_last v n (omega arith))
      ∙ rw (bare n, mod-eq_of_lt {n = n} {m = 2 ^ 32} h)
    where
      bare : (n : ℕ) → ((n == 0) || ltb 0 n) ≡ true
      bare n = ground arith

  shown-none : (decode_error : Bool) → shown decode_error none ≡ none
  shown-none true = refl
  shown-none false = refl

  read_error-serialize :
      (decode_error : Bool) (e : E)
      → read_error decode_error (b.serialize e) ≡ some (shown decode_error (some e))
  read_error-serialize true e = rw (b.deserialize-serialize e)
  read_error-serialize false e = refl

  enough : (a n : ℕ) → 0 < a → a ≤ n → ((a == 0) || ltb n a) ≡ false
  enough a n p l = ground arith

  tail_of_error :
      (decode_error : Bool) (e : E) (after : List ℕ) (n : ℕ)
      → length (b.serialize e) < 2 ^ 64
      → read_index after ≡ some n
      → decode_tail decode_error (error_bytes (some e) after)
        ≡ some (shown decode_error (some e), n)
  tail_of_error decode_error e after n h r =
      let bytes = b.serialize e in
      tail_of_varint decode_error (error_bytes (some e) after) (length bytes) (bytes ++ after)
        (varint_append_some v (length bytes) (bytes ++ after) h)
        (v.decode-encode (length bytes) (bytes ++ after) h)
      ∙ rw (
        enough (length bytes) (length (bytes ++ after)) (b.serialize_some e)
            (omega (arith, length-append bytes after)),
        take-eq (length bytes) bytes after refl,
        drop-eq (length bytes) bytes after refl,
        read_error-serialize decode_error e,
        r,
      )

  -- A value whose fields fit their machine types comes back from its bytes, its error left out when
  -- errors are not decoded: the bare index is never taken for the length of an error.
  pub decode_transaction-encode_transaction :
      (decode_error : Bool) (t : TransactionIndexValue E)
      → Fits t
      → decode_transaction decode_error (encode_transaction t)
        ≡ some (record t { error = shown decode_error t.error })
  unfolding encode_transaction
  decode_transaction-encode_transaction decode_error t f =
      place_read decode_error t _ (shown decode_error t.error) t.index f (read t.error refl)
    where
      read :
          (error : Option E)
          → t.error ≡ error
          → decode_tail decode_error (error_bytes error (v.encode_varint t.index))
            ≡ some (shown decode_error error, t.index)
      read none e = rw (shown-none decode_error) (tail_of_index decode_error t.index f.index_fits)
      read (some x) e =
          tail_of_error decode_error x (v.encode_varint t.index) t.index (f.error_fits x e)
            (read_index-varint t.index f.index_fits)

  -- A record of an older version, which ends after the three fields or after an error that is not
  -- empty, is read with index 0.
  pub decode_transaction-old :
      (decode_error : Bool) (t : TransactionIndexValue E)
      → Fits t
      → t.index ≡ 0
      → decode_transaction decode_error (place_bytes t (error_bytes t.error []))
        ≡ some (record t { error = shown decode_error t.error })
  unfolding decode_tail
  decode_transaction-old decode_error t f z =
      place_read decode_error t _ (shown decode_error t.error) t.index f (rw z (read t.error refl))
    where
      read :
          (error : Option E)
          → t.error ≡ error
          → decode_tail decode_error (error_bytes error []) ≡ some (shown decode_error error, 0)
      read none e = rw (shown-none decode_error)
      read (some x) e = tail_of_error decode_error x [] 0 (f.error_fits x e) refl
