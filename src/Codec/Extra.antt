-- ===== src/Codec/Extra.antt =====
-- src/storage/rocksdb.rs: `SlotExtraIndexValue`. A hash is its 8 bytes. The capacity of a new vector
-- is the one asked for; a slice out of range and an error are both `none`.
use alpamayo.Prelude.{
  ℕ, zero, suc, ◌^◌, ◌<◌, ◌≡◌, refl, Option, none, some, Bool, true, false, List, [], ◌∷◌, ◌++◌,
  arith, ltb, if◌then◌else◌, length, length-append, take, drop,
}
use alpamayo.Codec.Reader.{◌>>=◌, Varint, take-eq, drop-eq}

pub record SlotExtraIndexValue : Type 0 where
  pub transactions : List (List ℕ)
  pub sfa : List (List ℕ)

unfoldable pub hash_bytes : List (List ℕ) → List ℕ → List ℕ
hash_bytes [] rest = rest
hash_bytes (hash ∷ hashes) rest = hash ++ hash_bytes hashes rest

-- The loop over the slice, and the `advance` after it.
unfoldable pub read_hashes : ℕ → List ℕ → Option (List (List ℕ) × List ℕ)
read_hashes zero slice = some ([], slice)
read_hashes (suc count) slice =
    let rest = read_hashes count (drop 8 slice) in
    if ltb (length slice) 8
    then none
    else rest >>= λ (hashes, left). some (take 8 slice ∷ hashes, left)

abbrev pub AllHashes : List (List ℕ) → Type 0
AllHashes [] = Unit
AllHashes (hash ∷ hashes) = (length hash ≡ 8) × AllHashes hashes

read_hashes-hash_bytes :
    (hashes : List (List ℕ)) (rest : List ℕ)
    → AllHashes hashes
    → read_hashes (length hashes) (hash_bytes hashes rest) ≡ some (hashes, rest)
unfolding read_hashes hash_bytes
read_hashes-hash_bytes [] rest h = refl
read_hashes-hash_bytes (hash ∷ hashes) rest h = rw (
  enough,
  drop-eq 8 hash (hash_bytes hashes rest) h.0,
  take-eq 8 hash (hash_bytes hashes rest) h.0,
  read_hashes-hash_bytes hashes rest h.1,
)
  where
    enough : ltb (length (hash ++ hash_bytes hashes rest)) 8 ≡ false
    enough = ground (arith, length-append hash (hash_bytes hashes rest), h.0)

module _ (v : Varint) where
  unfoldable pub encode_extra : SlotExtraIndexValue → List ℕ
  unfolding hash_bytes
  encode_extra s =
      v.encode_varint (length s.transactions)
      ++ hash_bytes s.transactions (v.encode_varint (length s.sfa) ++ hash_bytes s.sfa [])

  abbrev pub is_empty : List ℕ → Bool
  is_empty [] = true
  is_empty (x ∷ xs) = false

  unfoldable pub decode_extra : List ℕ → Option SlotExtraIndexValue
  unfolding read_hashes
  decode_extra slice = do
    (count, slice) ← v.decode_varint slice
    (transactions, slice) ← read_hashes count slice
    (count, slice) ← v.decode_varint slice
    (sfa, slice) ← read_hashes count slice
    if is_empty slice then some (record { transactions = transactions; sfa = sfa }) else none

  -- A value whose hashes have 8 bytes each comes back from its bytes, which are all read.
  pub decode_extra-encode_extra :
      (s : SlotExtraIndexValue)
      → AllHashes s.transactions
      → AllHashes s.sfa
      → length s.transactions < 2 ^ 64
      → length s.sfa < 2 ^ 64
      → decode_extra (encode_extra s) ≡ some s
  unfolding decode_extra encode_extra
  decode_extra-encode_extra s ht hs lt ls = rw (
    v.decode-encode (length s.transactions)
        (hash_bytes s.transactions (v.encode_varint (length s.sfa) ++ hash_bytes s.sfa [])) lt,
    read_hashes-hash_bytes s.transactions (v.encode_varint (length s.sfa) ++ hash_bytes s.sfa [])
        ht,
    v.decode-encode (length s.sfa) (hash_bytes s.sfa []) ls,
    read_hashes-hash_bytes s.sfa [] hs,
  )
