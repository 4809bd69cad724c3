-- ===== src/Files/Region.antt =====
-- src/storage/files.rs: where the bytes of a block go, and which bytes are in use.
use alpamayo.Prelude.{ℕ, ◌+◌, ◌≤◌, ◌<◌, ◌≡◌, ◌≢◌, ◌⊎◌, true, arith, leb, if◌then◌else◌, ok}
use alpamayo.Files.File.{StorageFile, write_back, write_front}

-- The byte lies between the tail and the head, going round at the end of the file. With the head on
-- the tail no byte does.
abbrev pub InUse : StorageFile → ℕ → Type 0
InUse f x =
    if leb f.tail f.head
    then (f.tail ≤ x) × (x < f.head)
    else (x < f.head)
    ⊎ ((f.tail ≤ x) × (x < f.size))

pub record InBounds (f : StorageFile) : Type 0 where
  pub tail_in : f.tail ≤ f.size
  pub head_in : f.head ≤ f.size

-- What a write of `len` bytes at `offset` has done.
pub record Wrote (f f' : StorageFile) (offset len : ℕ) : Type 0 where
  pub inside : offset + len ≤ f.size
  pub fresh : (x : ℕ) → offset ≤ x → x < offset + len → ¬ (InUse f x)
  pub bounds : InBounds f'
  pub covered : f'.head ≢ f'.tail → (x : ℕ) → offset ≤ x → x < offset + len → InUse f' x
  pub kept : f'.head ≢ f'.tail → (x : ℕ) → InUse f x → InUse f' x

-- When tail and head are within the file and a write at the back succeeds, the bytes written are
-- within the file and none was in use; tail and head stay within the file; and unless the head has
-- come to stand on the tail, the written bytes and all that were in use before are in use.
pub write_back-Wrote :
    (len offset : ℕ) (f : StorageFile)
    → InBounds f
    → (write_back len true f).1 ≡ ok offset
    → Wrote f (write_back len true f).0 offset len
unfolding write_back
write_back-Wrote len offset f b e = record {
  inside = ground arith;
  fresh = λ x l r. ground arith;
  bounds = ground arith;
  covered = λ ne x l r. ground arith;
  kept = λ ne x u. ground arith;
}

-- When tail and head are within the file and a write at the front succeeds, the bytes written are
-- within the file and none was in use; tail and head stay within the file; and unless the head has
-- come to stand on the tail, the written bytes and all that were in use before are in use.
pub write_front-Wrote :
    (len offset : ℕ) (f : StorageFile)
    → InBounds f
    → (write_front len true f).1 ≡ ok offset
    → Wrote f (write_front len true f).0 offset len
unfolding write_front
write_front-Wrote len offset f b e = record {
  inside = ground arith;
  fresh = λ x l r. ground arith;
  bounds = ground arith;
  covered = λ ne x l r. ground arith;
  kept = λ ne x u. ground arith;
}
