-- ===== src/Source/Offsets.antt =====
-- src/source/block.rs: where the transactions stand in the bytes of a block.
use alpamayo.Prelude.{ℕ, ◌≡◌, refl, sym, ap, ◌∙◌, List, [], ◌∷◌, ◌++◌, length, take, drop}
use mathlib.Core.List.{append-nil, append_assoc}
use alpamayo.Codec.Reader.{take-eq}
use alpamayo.Store.Db.{BlockTransactionOffset}
use alpamayo.Source.Transaction.{TransactionWithBinary}
use alpamayo.Source.Encode.{Prost}
use alpamayo.Source.Proto.{
  ConfirmedBlockProtoRef, put_all, first_fields, last_fields, encode_with_tx_offsets,
}

slice : (a b c : List ℕ) → take (length b) (drop (length a) ((a ++ b) ++ c)) ≡ b
slice [] b c = take-eq (length b) b c refl
slice (x ∷ a) b c = slice a b c

module _ {E : Type 0} where
  -- Each offset names the transaction at its place in the list, and the bytes of the buffer from the
  -- offset on, as many as the size says, are the bytes of that transaction.
  abbrev pub Located :
      List ℕ → List (TransactionWithBinary E) → List (BlockTransactionOffset E) → Type 0
  Located buf [] [] = Unit
  Located buf [] (o ∷ os) = ⊥
  Located buf (tx ∷ txs) [] = ⊥
  Located buf (tx ∷ txs) (o ∷ os) =
      (o.key ≡ tx.key)
      × (o.index ≡ tx.index)
      × (o.error ≡ tx.error)
      × (o.size ≡ length tx.protobuf)
      × (take o.size (drop o.offset buf) ≡ tx.protobuf)
      × Located buf txs os

  module _ (p : Prost) where
    -- The loop only appends, and what it appends to the offsets is right whatever follows.
    put_all-Located :
        (txs : List (TransactionWithBinary E)) (buf : List ℕ)
        (offsets : List (BlockTransactionOffset E)) (rest : List ℕ)
        → let (buf', offsets') = put_all p txs buf offsets in
          (tail : List ℕ) × (more : List (BlockTransactionOffset E)) × (buf' ≡ buf ++ tail)
          × (offsets' ≡ offsets ++ more)
          × Located (buf' ++ rest) txs more
    unfolding put_all
    put_all-Located [] buf offsets rest =
        ([], [], sym (append-nil buf), sym (append-nil offsets), tt)
    put_all-Located (tx ∷ txs) buf offsets rest =
        let header = p.encode_key 4 ++ p.encode_varint (length tx.protobuf) in
        let head = buf ++ header in
        let o : BlockTransactionOffset E = record {
          key = tx.key;
          offset = length head;
          size = length tx.protobuf;
          error = tx.error;
          index = tx.index;
        } in
        let (tail, more, grown, added, located) =
          put_all-Located txs (head ++ tx.protobuf) (offsets ++ (o ∷ [])) rest in
        let shape = ap (λ l. l ++ rest) grown ∙ append_assoc (head ++ tx.protobuf) tail rest in
        (
          header ++ (tx.protobuf ++ tail),
          o ∷ more,
          grown
              ∙ append_assoc head tx.protobuf tail
              ∙ append_assoc buf header (tx.protobuf ++ tail),
          added ∙ append_assoc offsets (o ∷ []) more,
          (
            refl,
            refl,
            refl,
            refl,
            ap (λ l. take (length tx.protobuf) (drop (length head) l)) shape
                ∙ slice head tx.protobuf (tail ++ rest),
            located,
          ),
        )

    -- In the bytes of a block, every transaction stands at its offset: the offsets are those of the
    -- transactions in order, and the bytes from each offset on, as many as its size, are the bytes of the
    -- transaction.
    pub encode_with_tx_offsets-Located :
        (b : ConfirmedBlockProtoRef E)
        → let (buf, offsets) = encode_with_tx_offsets p b in Located buf b.transactions offsets
    unfolding encode_with_tx_offsets
    encode_with_tx_offsets-Located b =
        let (tail, more, _, added, located) =
          put_all-Located b.transactions (first_fields p b) [] (last_fields p b) in
        rw added located
