-- ===== src/Slots/Stored.antt =====
-- `StoredSlots` (src/storage/slots.rs): the shared atomics and their gauges.
use alpamayo.Prelude.{
  ℕ, ◌-◌, ◌^◌, Option, none, some, Bool, false, not, ◌&&◌, max, leb, ◌==◌, if◌then◌else◌, unwrap_or,
}

-- `u64::MAX`
abbrev pub u64_max : ℕ
u64_max = 2 ^ 64 - 1

pub record Metrics : Type 0 where
  pub processed : Option ℕ
  pub confirmed : Option ℕ
  pub finalized : Option ℕ
  pub first_available : Option ℕ
  pub total : Option ℕ

pub record StoredSlots : Type 0 where
  pub processed : ℕ
  pub confirmed : ℕ
  pub finalized : ℕ
  pub first_available : ℕ
  pub max_recent_blockhashes : Bool
  pub metrics : Metrics

abbrev pub metrics_default : Metrics
metrics_default = record {
  processed = none;
  confirmed = none;
  finalized = none;
  first_available = none;
  total = none;
}

-- `StoredSlotsInner::default`
unfoldable pub slots_default : StoredSlots
slots_default = record {
  processed = 0;
  confirmed = 0;
  finalized = 0;
  first_available = u64_max;
  max_recent_blockhashes = false;
  metrics = metrics_default;
}

unfoldable pub is_ready : StoredSlots → Bool
is_ready s =
    not (s.processed == 0)
    && not (s.confirmed == 0)
    && not (s.finalized == 0)
    && not (s.first_available == u64_max)
    && s.max_recent_blockhashes

-- `fetch_max` returns the old value, so the gauge takes the new maximum.
unfoldable pub processed_store_max : ℕ → StoredSlots → StoredSlots
processed_store_max slot s = record s {
  processed = max s.processed slot;
  metrics = record (s.metrics) { processed = some (max s.processed slot) };
}

unfoldable pub confirmed_store : ℕ → StoredSlots → StoredSlots
confirmed_store slot s = record s {
  confirmed = slot;
  metrics = record (s.metrics) { confirmed = some slot };
}

unfoldable pub finalized_store : ℕ → StoredSlots → StoredSlots
finalized_store slot s =
    if leb s.first_available slot
    then record s { finalized = slot; metrics = record (s.metrics) { finalized = some slot } }
    else s

unfoldable pub first_available_store : Option ℕ → StoredSlots → StoredSlots
first_available_store slot s =
    let first = unwrap_or slot u64_max in
    record s {
      first_available = first;
      metrics = record (s.metrics) { first_available = some first };
    }

unfoldable pub set_total : ℕ → StoredSlots → StoredSlots
set_total total s = record s { metrics = record (s.metrics) { total = some total } }
