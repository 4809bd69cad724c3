-- ===== src/Files/Tests.antt =====
-- Concrete files for src/storage/files.rs.
use alpamayo.Prelude.{ℕ, ◌≤◌, ◌<◌, ◌≡◌, refl, true, List, [], ◌∷◌, arith, ok, err}
use alpamayo.Files.File.{
  StorageFile, StorageFilesWrite, head_overflow, free_space, write_back, write_front,
  get_file_index_for_new_block, pop_file,
}
use alpamayo.Files.Region.{InBounds, InUse}
use alpamayo.Files.Layout.{Holds, Stores, write_back-Stores, write_front-Stores}
use alpamayo.Blocks.Block.{back, new_dead}
use alpamayo.Files.Full.{pop_file-head_at_end, write_back-overwrites, write_front-head_overflow}
use alpamayo.Files.Pick.{FirstFrom, get_file_index_for_new_block-FirstFrom}

abbrev filled : ℕ → ℕ → StorageFile
filled tail head = record { id = 1; tail = tail; head = head; size = 100; new_blocks = true }

in_bounds : (tail head : ℕ) → tail ≤ 100 → head ≤ 100 → InBounds (filled tail head)
in_bounds tail head t h = record { tail_in = t; head_in = h }

-- Two blocks between tail and head, of which one goes to the end of the file.
abbrev two_blocks : List (ℕ × ℕ)
two_blocks = (80, 20) ∷ (0, 30) ∷ []

two_blocks-Holds : Holds (filled 80 30) two_blocks
two_blocks-Holds = record {
  bounds = in_bounds 80 30 (omega arith) (omega arith);
  apart = (λ x i s. ground (arith, i, s), (λ x i s. s, tt));
  between = λ x s. ground (arith, s);
  none_if_met = λ e. absurd (ground (arith, e));
}

back_runs : (write_back 20 true (filled 80 30)).1 ≡ ok 60
unfolding write_back
back_runs = refl

write_back-Stores_example :
    Stores (filled 80 30) (write_back 20 true (filled 80 30)).0 two_blocks 60 20
write_back-Stores_example =
    write_back-Stores 20 60 (filled 80 30) two_blocks two_blocks-Holds back_runs

front_runs : (write_front 25 true (filled 80 30)).1 ≡ ok 30
unfolding write_front
front_runs = refl

write_front-Stores_example :
    Stores (filled 80 30) (write_front 25 true (filled 80 30)).0 two_blocks 30 25
write_front-Stores_example =
    write_front-Stores 25 30 (filled 80 30) two_blocks two_blocks-Holds front_runs

write_back-overwrites_example :
    (free_space (write_back 30 true (filled 50 20)).0 ≡ 80)
    × ((write_back 15 true (write_back 30 true (filled 50 20)).0).1 ≡ ok 5)
    × ((x : ℕ) → 5 ≤ x → x < 20 → InUse (filled 50 20) x)
write_back-overwrites_example =
    write_back-overwrites 30 15 (filled 50 20) refl (omega arith) (omega arith) (omega arith)
      (omega arith)

write_front-head_overflow_example :
    ((write_front 45 true (filled 60 60)).1 ≡ err head_overflow)
    × ((write_front 45 true (filled 60 60)).0.head ≡ 105)
write_front-head_overflow_example =
    write_front-head_overflow 45 (filled 60 60) refl (omega arith) (omega arith) (omega arith)

abbrev three_files : StorageFilesWrite
three_files = record {
  files = filled 10 10 ∷ filled 10 5 ∷ filled 50 20 ∷ [];
  id2file = [];
  next_file = 1;
}

get_file_index_for_new_block-FirstFrom_example :
    FirstFrom 20 three_files.files 1 (
      (get_file_index_for_new_block 20 three_files).0.next_file,
      (get_file_index_for_new_block 20 three_files).1,
    )
    × ((get_file_index_for_new_block 20 three_files).0.files ≡ three_files.files)
get_file_index_for_new_block-FirstFrom_example =
    get_file_index_for_new_block-FirstFrom 20 three_files (omega arith)

pop_file-head_at_end_example :
    ((write_front 30 true (filled 10 70)).1 ≡ ok 70)
    × ((pop_file back (new_dead 3) (write_front 30 true (filled 10 70)).0).1 ≡ err head_overflow)
pop_file-head_at_end_example =
    pop_file-head_at_end 30 (new_dead 3) (filled 10 70) (omega arith) refl
