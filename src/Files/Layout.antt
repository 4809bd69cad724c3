-- ===== src/Files/Layout.antt =====
-- src/storage/files.rs: the blocks that a file stores, over its writes.
use alpamayo.Prelude.{ℕ, ◌+◌, ◌≤◌, ◌<◌, ◌≡◌, ◌≢◌, ◌⊎◌, inl, inr, true, List, [], ◌∷◌, ok}
use alpamayo.Files.File.{StorageFile, write_back, write_front}
use alpamayo.Files.Region.{InBounds, InUse, Wrote, write_back-Wrote, write_front-Wrote}

-- The byte is one of those of a block, given by its offset and size.
abbrev pub InBlock : ℕ × ℕ → ℕ → Type 0
InBlock (offset, len) x = (offset ≤ x) × (x < offset + len)

-- The byte is one of those of the blocks.
abbrev pub Stored : List (ℕ × ℕ) → ℕ → Type 0
Stored [] x = ⊥
Stored (b ∷ blocks) x = InBlock b x ⊎ Stored blocks x

-- No two of the blocks have a byte in common.
abbrev pub Apart : List (ℕ × ℕ) → Type 0
Apart [] = Unit
Apart (b ∷ blocks) = ((x : ℕ) → InBlock b x → ¬ (Stored blocks x)) × Apart blocks

-- The file holds these blocks: they are apart, and between tail and head, going round at the end of the
-- file. With the head on the tail it holds none, so a file that is full to the last byte is left out.
pub record Holds (f : StorageFile) (blocks : List (ℕ × ℕ)) : Type 0 where
  pub bounds : InBounds f
  pub apart : Apart blocks
  pub between : (x : ℕ) → Stored blocks x → InUse f x
  pub none_if_met : f.head ≡ f.tail → blocks ≡ []

-- What a write of `len` bytes at `offset` does to a file with these blocks.
pub record Stores (f f' : StorageFile) (blocks : List (ℕ × ℕ)) (offset len : ℕ) : Type 0 where
  pub inside : offset + len ≤ f.size
  pub fresh : (x : ℕ) → InBlock (offset, len) x → ¬ (Stored blocks x)
  pub holds : f'.head ≢ f'.tail → Holds f' ((offset, len) ∷ blocks)

Wrote-Stores :
    {f f' : StorageFile} (blocks : List (ℕ × ℕ)) {offset len : ℕ}
    → Holds f blocks
    → Wrote f f' offset len
    → Stores f f' blocks offset len
Wrote-Stores blocks h w = record {
  inside = w.inside;
  fresh = λ x i s. w.fresh x i.0 i.1 (h.between x s);
  holds = λ ne. record {
    bounds = w.bounds;
    apart = (λ x i s. w.fresh x i.0 i.1 (h.between x s), h.apart);
    between =
        λ x s. elim s [ inl i ↦ w.covered ne x i.0 i.1 | inr old ↦ w.kept ne x (h.between x old) ];
    none_if_met = λ e. absurd (ne e);
  };
}

-- A write at the back that succeeds, on a file that holds blocks between its tail and its head and is not
-- full to the last byte: its bytes are within the file and none is a byte of a stored block. Unless the
-- head has come to stand on the tail, the file then holds the new block and all the others.
pub write_back-Stores :
    (len offset : ℕ) (f : StorageFile) (blocks : List (ℕ × ℕ))
    → Holds f blocks
    → (write_back len true f).1 ≡ ok offset
    → Stores f (write_back len true f).0 blocks offset len
write_back-Stores len offset f blocks h e =
    Wrote-Stores blocks h (write_back-Wrote len offset f h.bounds e)

-- A write at the front that succeeds, on a file that holds blocks between its tail and its head and is not
-- full to the last byte: its bytes are within the file and none is a byte of a stored block. Unless the
-- head has come to stand on the tail, the file then holds the new block and all the others.
pub write_front-Stores :
    (len offset : ℕ) (f : StorageFile) (blocks : List (ℕ × ℕ))
    → Holds f blocks
    → (write_front len true f).1 ≡ ok offset
    → Stores f (write_front len true f).0 blocks offset len
write_front-Stores len offset f blocks h e =
    Wrote-Stores blocks h (write_front-Wrote len offset f h.bounds e)
