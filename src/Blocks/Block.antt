-- ===== src/Blocks/Block.antt =====
-- `StoredBlock` and `StorageBlocksBoundaries` (src/storage/blocks.rs), `VecSide` (src/util.rs).
use alpamayo.Prelude.{ℕ, ◌+◌, Option, none, some, Bool, true, false, ltb, if◌then◌else◌}
use alpamayo.Prelude.Int.{ℤ}
use mathlib.Core.Option

pub data VecSide : Type 0 where
  back front : VecSide

-- A slot, a height, an offset and a size are `u64`, a storage id is `u8`, a time is `i64`.
pub record StoredBlock : Type 0 where
  pub exists : Bool
  pub dead : Bool
  pub slot : ℕ
  pub block_time : Option ℤ
  pub block_height : Option ℕ
  pub storage_id : ℕ
  pub offset : ℕ
  pub size : ℕ

-- `StoredBlock::default`
abbrev pub new_noexists : StoredBlock
new_noexists = record {
  exists = false;
  dead = false;
  slot = 0;
  block_time = none;
  block_height = none;
  storage_id = 0;
  offset = 0;
  size = 0;
}

abbrev pub new_dead : ℕ → StoredBlock
new_dead slot = record new_noexists { exists = true; dead = true; slot = slot }

abbrev pub new_confirmed : ℕ → Option ℤ → Option ℕ → ℕ → ℕ → ℕ → StoredBlock
new_confirmed slot block_time block_height storage_id offset size = record {
  exists = true;
  dead = false;
  slot = slot;
  block_time = block_time;
  block_height = block_height;
  storage_id = storage_id;
  offset = offset;
  size = size;
}

pub record StorageBlocksBoundaries : Type 0 where
  pub min_block : Option StoredBlock
  pub max_block : Option StoredBlock

-- `StorageBlocksBoundaries::default`
abbrev pub no_boundaries : StorageBlocksBoundaries
no_boundaries = record { min_block = none; max_block = none }

unfoldable pub update_min : Option StoredBlock → StoredBlock → Option StoredBlock
update_min none block = some block
update_min (some low) block = some (if ltb block.slot low.slot then block else low)

unfoldable pub update_max : Option StoredBlock → StoredBlock → Option StoredBlock
update_max none block = some block
update_max (some high) block = some (if ltb high.slot block.slot then block else high)

unfoldable pub update : StorageBlocksBoundaries → StoredBlock → StorageBlocksBoundaries
unfolding update_min update_max
update b block = record {
  min_block = update_min b.min_block block;
  max_block = update_max b.max_block block;
}

-- `StorageBlocksBoundaries::tail` and `head`
unfoldable pub tail_offset : StorageBlocksBoundaries → Option ℕ
tail_offset b = Option.map (λ (x : StoredBlock). x.offset) b.min_block

unfoldable pub head_offset : StorageBlocksBoundaries → Option ℕ
head_offset b = Option.map (λ (x : StoredBlock). x.offset + x.size) b.max_block
