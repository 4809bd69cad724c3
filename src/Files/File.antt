-- ===== src/Files/File.antt =====
-- `StorageFile` and `StorageFilesWrite` (src/storage/files.rs). A write reaches the operating system
-- through `tokio_uring`: whether `write_all_at` and `sync_data` succeed is the argument `io`.
use alpamayo.Prelude.{
  ℕ, zero, suc, ◌+◌, ◌-◌, ◌%◌, Option, none, some, Bool, false, not, ◌&&◌, List, ltb, leb, ◌==◌,
  if◌then◌else◌, length, get_or, set, max, Result, ok, err,
}
use alpamayo.Prelude.TreeMap.{get}
use alpamayo.Blocks.Block.{VecSide, back, front, StoredBlock}

pub record StorageFile : Type 0 where
  pub id : ℕ
  pub tail : ℕ
  pub head : ℕ
  pub size : ℕ
  pub new_blocks : Bool

pub data FileError : Type 0 where
  not_enough_space io_error head_overflow tail_overflow unknown_storage_id : FileError

unfoldable pub free_space : StorageFile → ℕ
free_space f = if ltb f.head f.tail then f.tail - f.head else max f.tail (f.size - f.head)

-- The tail moves before the write, and stays moved if the write fails.
unfoldable pub write_back : ℕ → Bool → StorageFile → StorageFile × Result FileError ℕ
unfolding free_space
write_back len io f =
    let tail = if ltb f.tail len then f.size - len else f.tail - len in
    let moved : StorageFile = record f { tail = tail } in
    if ltb (free_space f) len
    then (f, err not_enough_space)
    else (moved, if io then ok tail else err io_error)

-- The bytes are written at `head` before the check of the new head.
unfoldable pub write_front : ℕ → Bool → StorageFile → StorageFile × Result FileError ℕ
unfolding free_space
write_front len io f =
    let head = if ltb f.tail f.head && ltb (f.size - f.head) len then 0 else f.head in
    let at_head : StorageFile = record f { head = head } in
    let moved : StorageFile = record f { head = head + len } in
    if ltb (free_space f) len
    then (f, err not_enough_space)
    else if not io
    then (at_head, err io_error)
    else (moved, if leb (head + len) f.size then ok head else err head_overflow)

pub record StorageFilesWrite : Type 0 where
  pub files : List StorageFile
  pub id2file : List (ℕ × ℕ)
  pub next_file : ℕ

abbrev pub no_file : StorageFile
no_file = record { id = 0; tail = 0; head = 0; size = 0; new_blocks = false }

abbrev pub file_at : List StorageFile → ℕ → StorageFile
file_at files index = get_or files index no_file

abbrev pub accepts : ℕ → StorageFile → Bool
accepts size f = f.new_blocks && leb size (free_space f)

-- The loop of `get_file_index_for_new_block`: the new `next_file`, and the index found.
unfoldable pub pick_loop : ℕ → List StorageFile → ℕ → ℕ → ℕ → ℕ × Option ℕ
pick_loop zero files size current index = (index, none)
pick_loop (suc fuel) files size current index =
    let following = (index + 1) % length files in
    let rest = pick_loop fuel files size current following in
    if accepts size (file_at files index)
    then (following, some index)
    else if following == current
    then (following, none)
    else rest

unfoldable pub get_file_index_for_new_block : ℕ → StorageFilesWrite → StorageFilesWrite × Option ℕ
unfolding pick_loop
get_file_index_for_new_block size w =
    let (next, found) = pick_loop (length w.files) w.files size w.next_file w.next_file in
    (record w { next_file = next }, found)

abbrev pub write_side : VecSide → ℕ → Bool → StorageFile → StorageFile × Result FileError ℕ
write_side back = write_back
write_side front = write_front

-- The storage id and offset of the block; `none` if no file has room. `len` is the buffer's length.
unfoldable pub push_block :
    ℕ → Bool → VecSide → StorageFilesWrite → StorageFilesWrite × Result FileError (Option (ℕ × ℕ))
unfolding get_file_index_for_new_block write_back write_front
push_block len io side w =
    let (w', found) = get_file_index_for_new_block len w in
    elim found [
      | none ↦ (w', ok none)
      | some index ↦
          let file = file_at w'.files index in
          let (file', written) = write_side side len io file in
          (
            record w' { files = set w'.files index file' },
            elim written [ err e ↦ err e | ok offset ↦ ok (some (file.id, offset)) ],
          )
    ]

abbrev pub pop_side : VecSide → StoredBlock → StorageFile → StorageFile
pop_side back block f = record f { tail = (block.offset + block.size) % f.size }
pop_side front block f = record f { head = block.offset }

-- The two checks after the move.
unfoldable pub pop_file :
    VecSide → StoredBlock → StorageFile → StorageFile × Result FileError (Unit {0})
pop_file side block f =
    let f' = pop_side side block f in
    (
      f',
      if not (ltb f'.head f'.size)
          then err head_overflow
          else if not (leb f'.tail f'.size)
          then err tail_overflow
          else ok tt,
    )

unfoldable pub pop_block :
    StoredBlock → VecSide → StorageFilesWrite → StorageFilesWrite × Result FileError (Unit {0})
unfolding pop_file
pop_block block side w = elim (get block.storage_id w.id2file) [
  | none ↦ (w, err unknown_storage_id)
  | some index ↦
      let (f, r) = pop_file side block (file_at w.files index) in
      (record w { files = set w.files index f }, r)
]

-- `StorageFilesRead::read`: the index of the file that is read.
unfoldable pub read_index : ℕ → List (ℕ × ℕ) → ℕ → Option ℕ
read_index storage_id id2file count = elim (get storage_id id2file) [
  | none ↦ none
  | some index ↦ if ltb index count then some index else none
]
