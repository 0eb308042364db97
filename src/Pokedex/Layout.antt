-- ===== src/Pokedex/Layout.antt =====
-- pokedex-server.c: read_and_set, which computes where the parts of the mapped file system lie.
use sisoputnfrba_tp_2016_2c.Base.{ℕ, ◌+◌, ◌-◌, ◌*◌, ◌/◌, ◌%◌, ◌^◌, ◌≤◌, ◌<◌, ◌≡◌, arith}
use sisoputnfrba_tp_2016_2c.Pokedex.State.{block_size}

-- `FILE_TABLE_SIZE` in blocks, for 2048 entries of 32 bytes.
abbrev pub file_table_size : ℕ
file_table_size = 1024

-- Subtraction of `uint32_t` numbers.
abbrev pub sub32 : ℕ → ℕ → ℕ
sub32 a b = (a + 2 ^ 32 - b) % 2 ^ 32

-- The sizes of the parts in blocks, and their first and last blocks.
pub record Layout : Type 0 where
  pub header_size : ℕ
  pub header_0 : ℕ
  pub header_1 : ℕ
  pub bitmap_size : ℕ
  pub mapping_table_size : ℕ
  pub data_size : ℕ
  pub bitmap_0 : ℕ
  pub bitmap_1 : ℕ
  pub file_table_0 : ℕ
  pub file_table_1 : ℕ
  pub mapping_table_0 : ℕ
  pub mapping_table_1 : ℕ
  pub data_0 : ℕ
  pub data_1 : ℕ
  pub bm_header_0 : ℕ
  pub bm_header_1 : ℕ
  pub bm_bitmap_0 : ℕ
  pub bm_bitmap_1 : ℕ
  pub bm_file_table_0 : ℕ
  pub bm_file_table_1 : ℕ
  pub bm_mapping_table_0 : ℕ
  pub bm_mapping_table_1 : ℕ
  pub bm_data_0 : ℕ
  pub bm_data_1 : ℕ

abbrev bitmap_blocks : ℕ → ℕ
bitmap_blocks fs_blocks = fs_blocks / 8 / block_size

abbrev mapping_blocks : ℕ → ℕ
mapping_blocks fs_blocks =
    1
    + sub32
        (sub32 (sub32 (sub32 fs_blocks 1) (bitmap_blocks fs_blocks)) file_table_size * 4 % 2 ^ 32) 1
      / block_size

abbrev data_blocks : ℕ → ℕ
data_blocks fs_blocks =
    sub32 (sub32 (sub32 (sub32 fs_blocks 1) (bitmap_blocks fs_blocks)) file_table_size)
      (mapping_blocks fs_blocks)

-- The first and the last block of a part.
abbrev last_of : ℕ → ℕ → ℕ
last_of start size = start + size - 1

-- read_and_set for a header that says `fs_blocks`.
unfoldable pub read_and_set : ℕ → Layout
read_and_set fs_blocks =
    let bitmap = bitmap_blocks fs_blocks in
    let mapping = mapping_blocks fs_blocks in
    let rest = data_blocks fs_blocks in
    let table_0 = bitmap + 1 in
    let mapping_0 = table_0 + file_table_size in
    let data_0 = mapping_0 + mapping in
    let bm_table_0 = last_of 1 bitmap + 1 in
    let bm_mapping_0 = last_of bm_table_0 file_table_size + 1 in
    let bm_data_0 = last_of bm_mapping_0 mapping + 1 in
    record {
      header_size = 1;
      header_0 = 0;
      header_1 = 0;
      bitmap_size = bitmap;
      mapping_table_size = mapping;
      data_size = rest;
      bitmap_0 = 1;
      bitmap_1 = last_of 1 bitmap;
      file_table_0 = table_0;
      file_table_1 = last_of table_0 file_table_size;
      mapping_table_0 = mapping_0;
      mapping_table_1 = last_of mapping_0 mapping;
      data_0 = data_0;
      data_1 = last_of data_0 rest;
      bm_header_0 = 0;
      bm_header_1 = 0;
      bm_bitmap_0 = 1;
      bm_bitmap_1 = last_of 1 bitmap;
      bm_file_table_0 = bm_table_0;
      bm_file_table_1 = last_of bm_table_0 file_table_size;
      bm_mapping_table_0 = bm_mapping_0;
      bm_mapping_table_1 = last_of bm_mapping_0 mapping;
      bm_data_0 = bm_data_0;
      bm_data_1 = last_of bm_data_0 rest;
    }

-- The parts follow each other without a gap, up to the last block of the file system; the bounds
-- that the loops over the bitmap use are those of the data blocks; the mapping
-- table has a word of four bytes for every data block, and the bitmap a bit for every data block.
pub record Partition (fs_blocks : ℕ) (l : Layout) : Type 0 where
  pub bitmap_first : l.bitmap_0 ≡ l.header_size
  pub table_next : l.file_table_0 ≡ l.bitmap_1 + 1
  pub mapping_next : l.mapping_table_0 ≡ l.file_table_1 + 1
  pub data_next : l.data_0 ≡ l.mapping_table_1 + 1
  pub data_last : l.data_1 + 1 ≡ fs_blocks
  pub data_count : l.data_1 + 1 ≡ l.data_0 + l.data_size
  pub same_first : l.bm_data_0 ≡ l.data_0
  pub same_last : l.bm_data_1 ≡ l.data_1
  pub words : 4 * l.data_size ≤ block_size * l.mapping_table_size
  pub bits : l.data_size ≤ 8 * (block_size * l.bitmap_size)

-- For a file system of 1100 blocks or more, and less than 2^29, read_and_set lays the parts out one
-- behind the other, fills the file system to its last block, and leaves room in the mapping table
-- and in the bitmap for every data block.
pub read_and_set-Partition :
    (fs_blocks : ℕ)
    → 1100 ≤ fs_blocks
    → fs_blocks < 2 ^ 29
    → Partition fs_blocks (read_and_set fs_blocks)
unfolding read_and_set
read_and_set-Partition fs_blocks low high = record {
  bitmap_first = omega arith;
  table_next = omega arith;
  mapping_next = omega arith;
  data_next = omega arith;
  data_last = omega arith;
  data_count = omega arith;
  same_first = omega arith;
  same_last = omega arith;
  words = omega arith;
  bits = omega arith;
}
