-- ===== src/Store/Db.antt =====
-- The column families that src/storage/rocksdb.rs keeps and the write requests on them. A family is
-- the list of its rows in key order: keys are big-endian, so the order of the bytes is that of the
-- numbers. A value is the value that its bytes decode to; a hash of 8 bytes is a number. `E` is the
-- transaction error.
use alpamayo.Prelude.{
  ℕ, ◌+◌, ◌*◌, ◌^◌, Option, none, some, Bool, true, false, List, [], ◌∷◌, ◌==◌, if◌then◌else◌, map,
}
use alpamayo.Prelude.Int.{ℤ}
use alpamayo.Prelude.TreeMap.{get, insert, remove}
use alpamayo.Blocks.Block.{StoredBlock}
use alpamayo.Codec.Basic.{SlotBasicIndexValue, dead_value}
use alpamayo.Codec.Transaction.{TransactionIndexValue}
use alpamayo.Codec.Sfa.{SignatureStatus}

pub record BlockTransactionOffset (E : Type 0) : Type 0 where
  pub key : ℕ
  pub offset : ℕ
  pub size : ℕ
  pub error : Option E
  pub index : ℕ

pub record SignaturesForAddress (E : Type 0) : Type 0 where
  pub address_hash : ℕ
  pub key : ℕ
  pub signatures : List (SignatureStatus E)

-- The fields of `BlockWithBinary` that are stored; `len` is the length of `protobuf`.
pub record BlockWithBinary (E : Type 0) : Type 0 where
  pub block_time : Option ℤ
  pub block_height : Option ℕ
  pub len : ℕ
  pub txs_offset : List (BlockTransactionOffset E)
  pub sfa : List (SignaturesForAddress E)

-- `SlotExtraIndexValue`, with a hash as a number.
pub record ExtraHashes : Type 0 where
  pub transactions : List ℕ
  pub sfa : List ℕ

pub record Db (E : Type 0) : Type 0 where
  pub slot_basic_index : List (ℕ × SlotBasicIndexValue)
  pub slot_extra_index : List (ℕ × ExtraHashes)
  pub tx_index : List (ℕ × TransactionIndexValue E)
  pub sfa_index : List (ℕ × List (SignatureStatus E))

-- `SfaIndex::concat`, the key of 16 bytes.
abbrev pub sfa_key : ℕ → ℕ → ℕ
sfa_key address_hash slot = address_hash * 2 ^ 64 + slot

unfoldable pub delete_all {ℓ} : {V : Type ℓ} → List ℕ → List (ℕ × V) → List (ℕ × V)
delete_all [] m = m
delete_all (k ∷ keys) m = delete_all keys (remove k m)

abbrev pub stored_block : ℕ → SlotBasicIndexValue → StoredBlock
stored_block slot v = record {
  exists = true;
  dead = v.dead;
  slot = slot;
  block_time = v.block_time;
  block_height = v.block_height;
  storage_id = v.storage_id;
  offset = v.offset;
  size = v.size;
}

-- The loop of `spawn_slots`; `none` at a hole.
unfoldable pub slots_loop : Option ℕ → List (ℕ × SlotBasicIndexValue) → Option (List StoredBlock)
slots_loop current [] = some []
slots_loop current ((slot, v) ∷ rows) =
    let rest = slots_loop (some slot) rows in
    let here = elim rest as (λ _. Option (List StoredBlock)) [
      | none ↦ none
      | some bs ↦ some (stored_block slot v ∷ bs)
    ] in
    elim current [ none ↦ here | some last ↦ if last + 1 == slot then here else none ]

module _ {E : Type 0} where
  unfoldable pub put_transactions :
      ℕ
      → List (BlockTransactionOffset E)
      → List (ℕ × TransactionIndexValue E)
      → List (ℕ × TransactionIndexValue E)
  put_transactions slot [] m = m
  put_transactions slot (tx ∷ txs) m = put_transactions slot txs (
      insert tx.key
        (record {
          slot = slot;
          offset = tx.offset;
          size = tx.size;
          error = tx.error;
          index = tx.index;
        })
        m)

  unfoldable pub put_sfa :
      List (SignaturesForAddress E)
      → List (ℕ × List (SignatureStatus E))
      → List (ℕ × List (SignatureStatus E))
  put_sfa [] m = m
  put_sfa (s ∷ rest) m = put_sfa rest (insert s.key s.signatures m)

  -- `WriteRequest::AddIndexes`: one batch.
  unfoldable pub add_indexes : ℕ → BlockWithBinary E → Db E → Db E
  unfolding put_transactions put_sfa
  add_indexes slot block db = record db {
    slot_extra_index =
        insert slot
          (record {
            transactions = map (λ (tx : BlockTransactionOffset E). tx.key) block.txs_offset;
            sfa = map (λ (s : SignaturesForAddress E). s.address_hash) block.sfa;
          })
          db.slot_extra_index;
    tx_index = put_transactions slot block.txs_offset db.tx_index;
    sfa_index = put_sfa block.sfa db.sfa_index;
  }

  abbrev pub basic_value : Option (BlockWithBinary E × ℕ × ℕ) → SlotBasicIndexValue
  basic_value none = dead_value
  basic_value (some (block, storage_id, offset)) = record {
    dead = false;
    block_time = block.block_time;
    block_height = block.block_height;
    storage_id = storage_id;
    offset = offset;
    size = block.len;
  }

  -- `WriteRequest::SlotAdd`.
  unfoldable pub slot_add : ℕ → Option (BlockWithBinary E × ℕ × ℕ) → Db E → Db E
  slot_add slot block db = record db {
    slot_basic_index = insert slot (basic_value block) db.slot_basic_index;
  }

  -- `spawn_remove_slot`, also one batch; `none` if the slot has no extra row.
  unfoldable pub remove_slot : ℕ → Bool → Db E → Option (Db E)
  unfolding delete_all
  remove_slot slot dead db =
      let basic = remove slot db.slot_basic_index in
      if dead
      then some (record db { slot_basic_index = basic })
      else elim (get slot db.slot_extra_index) [
        | none ↦ none
        | some extra ↦ some (record {
          slot_basic_index = basic;
          slot_extra_index = remove slot db.slot_extra_index;
          tx_index = delete_all extra.transactions db.tx_index;
          sfa_index = delete_all (map (λ hash. sfa_key hash slot) extra.sfa) db.sfa_index;
        })
      ]

  unfoldable pub spawn_slots : Db E → Option (List StoredBlock)
  unfolding slots_loop
  spawn_slots db = slots_loop none db.slot_basic_index
