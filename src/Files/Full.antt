-- ===== src/Files/Full.antt =====
-- src/storage/files.rs: what the ring of bytes does when the head meets the tail.
use alpamayo.Prelude.{ℕ, ◌+◌, ◌-◌, ◌≤◌, ◌<◌, ◌≡◌, true, arith, max, ok, err}
use alpamayo.Files.File.{StorageFile, free_space, write_back, write_front, head_overflow, pop_file}
use alpamayo.Blocks.Block.{back, StoredBlock}
use alpamayo.Files.Region.{InUse}

-- When a write at the back fills the gap between head and tail to the last byte, the head stands on
-- the tail: the free space is then that of an empty file, and a further write at the back of `len'`
-- bytes, up to the head, succeeds on bytes that were in use before both writes.
pub write_back-overwrites :
    (len len' : ℕ) (f : StorageFile)
    → f.head + len ≡ f.tail
    → 0 < len
    → f.tail ≤ f.size
    → 0 < len'
    → len' ≤ f.head
    → (free_space (write_back len true f).0 ≡ max f.head (f.size - f.head))
      × ((write_back len' true (write_back len true f).0).1 ≡ ok (f.head - len'))
      × ((x : ℕ) → f.head - len' ≤ x → x < f.head → InUse f x)
unfolding write_back free_space
write_back-overwrites len len' f e p s q l = (ground arith, ground arith, λ x a b. ground arith)

-- On a file whose head stands on its tail (an empty one included), a write at the front that does not
-- fit between the head and the end of the file, but fits before the tail, passes the check of the
-- free space and fails after the write, with the head beyond the end of the file.
pub write_front-head_overflow :
    (len : ℕ) (f : StorageFile)
    → f.head ≡ f.tail
    → f.tail ≤ f.size
    → len ≤ f.tail
    → f.size < f.tail + len
    → ((write_front len true f).1 ≡ err head_overflow)
      × ((write_front len true f).0.head ≡ f.tail + len)
unfolding write_front free_space
write_front-head_overflow len f e s l m = (ground arith, ground arith)

-- A write at the front that ends at the end of the file succeeds, and then a pop of any block at the
-- back fails with a head overflow.
pub pop_file-head_at_end :
    (len : ℕ) (block : StoredBlock) (f : StorageFile)
    → f.tail ≤ f.head
    → f.head + len ≡ f.size
    → ((write_front len true f).1 ≡ ok f.head)
      × ((pop_file back block (write_front len true f).0).1 ≡ err head_overflow)
unfolding write_front free_space pop_file
pop_file-head_at_end len block f l e = (ground (arith, e), ground (arith, e))
