-- ===== src/Pokedex/Blocks.antt =====
-- pokedex-server.c: the loops over the mapping table, the bitmap and the data blocks that
-- osada_write, osada_read, osada_truncate and osada_unlink share.
pub mod Chains
pub mod Grow
pub mod Splice
pub mod Bytes
pub mod Sizes
pub mod Count
pub mod Store
use sisoputnfrba_tp_2016_2c.Base.{
  ℕ, zero, suc, ◌+◌, ◌-◌, ◌*◌, ◌/◌, ◌%◌, Bool, true, false, ◌&&◌, ◌||◌, List, [], ◌∷◌, ◌++◌, Option,
  none, some, ◌==◌, ◌>>=◌, ltb, leb, if◌then◌else◌, update, length, take, drop,
}
use sisoputnfrba_tp_2016_2c.Pokedex.State.{block_size, end_of_file, OsadaFile, Server, set_file}

-- What the loops read and write: `first_block` of the file, the mapping table and the bitmap.
pub record Chain : Type 0 where
  pub head : ℕ
  pub mapping : ℕ → ℕ
  pub bitmap : ℕ → Bool

abbrev pub chain_of : ℕ → Server → Chain
chain_of p s = record { head = (s.table p).first_block; mapping = s.mapping; bitmap = s.bitmap }

abbrev pub put_chain : ℕ → Chain → Server → Server
put_chain p c s = record s {
  table = update s.table p (record (s.table p) { first_block = c.head });
  mapping = c.mapping;
  bitmap = c.bitmap;
}

-- `aux_map_ptr`: the address of `first_block`, or of a word of the mapping table.
pub data Slot : Type 0 where
  first : Slot
  entry : ℕ → Slot

-- `* aux_map_ptr`.
abbrev pub read_slot : Slot → Chain → ℕ
read_slot first c = c.head
read_slot (entry k) c = c.mapping k

-- `* aux_map_ptr = v`.
abbrev pub write_slot : Slot → ℕ → Chain → Chain
write_slot first v c = record c { head = v }
write_slot (entry k) v c = record c { mapping = update c.mapping k v }

abbrev pub set_bit : ℕ → Bool → Chain → Chain
set_bit k b c = record c { bitmap = update c.bitmap k b }

-- The blocks that `n` bytes need, as osada_truncate and osada_write compute them.
unfoldable pub necessary_blocks : ℕ → ℕ
necessary_blocks n =
    let k = n / block_size in if ltb 0 n && (k == 0 || leb 1 (n % block_size)) then k + 1 else k

-- `while (n > 0) { n--; aux_map_ptr = map_ptr + (* aux_map_ptr); }`
unfoldable pub advance : ℕ → Slot → Chain → Slot
advance zero slot c = slot
advance (suc n) slot c = advance n (entry (read_slot slot c)) c

-- `while ((* aux_map_ptr) != END_OF_FILE)`, counting the rounds. `none`: the fuel ran out.
unfoldable pub count_loop : ℕ → Slot → ℕ → Chain → Option (ℕ × Slot)
count_loop zero slot n c = none
count_loop (suc fuel) slot n c =
    let v = read_slot slot c in
    let rest = count_loop fuel (entry v) (n + 1) c in
    if v == end_of_file then some (n, slot) else rest

-- One round of the loop that releases blocks.
abbrev pub release_one : Slot → Chain → Chain
release_one slot c = write_slot slot end_of_file (set_bit (read_slot slot c) false c)

-- `while ((* aux_map_ptr) != END_OF_FILE)`, releasing block after block.
unfoldable pub release_loop : ℕ → Slot → Chain → Option Chain
release_loop zero slot c = none
release_loop (suc fuel) slot c =
    let v = read_slot slot c in
    let rest = release_loop fuel (entry v) (release_one slot c) in
    if v == end_of_file then some c else rest

-- Where the loop that adds blocks stands.
pub record Growth : Type 0 where
  pub need : ℕ
  pub pos : ℕ
  pub slot : Slot
  pub chain : Chain

-- The block `pos` becomes the last of the chain.
abbrev pub link_block : ℕ → Slot → Chain → Chain
link_block pos slot c =
    write_slot (entry pos) end_of_file (write_slot slot pos (set_bit pos true c))

-- One round: a busy block is passed by, a free one is added and `unit` taken off what is needed.
abbrev pub grow_one : ℕ → Growth → Growth
grow_one unit g = if g.chain.bitmap g.pos then record g { pos = g.pos + 1 } else record {
  need = g.need - unit;
  pos = g.pos + 1;
  slot = entry g.pos;
  chain = link_block g.pos g.slot g.chain;
}

-- `while (need > 0 && free_db <= BM_DATA_1)`, with the blocks left to look at.
unfoldable pub grow_loop : ℕ → ℕ → Growth → Growth
grow_loop unit zero g = g
grow_loop unit (suc n) g =
    let rest = grow_loop unit n (grow_one unit g) in if g.need == 0 then g else rest

-- The loop by which osada_truncate adds `need` blocks behind `slot`.
unfoldable pub add_blocks : ℕ → Slot → Chain → ℕ → Growth
add_blocks need slot c size =
    grow_loop 1 size (record { need = need; pos = 0; slot = slot; chain = c })

-- The loop by which osada_write adds blocks for `bytes` bytes behind `slot`.
unfoldable pub add_bytes : ℕ → Slot → Chain → ℕ → Growth
add_bytes bytes slot c size =
    grow_loop block_size size (record { need = bytes; pos = 0; slot = slot; chain = c })

-- After "no space left on device": the blocks behind those of the old size are released.
unfoldable pub roll_back : ℕ → ℕ → Chain → Option Chain
roll_back fuel old c = release_loop fuel (advance (necessary_blocks old) first c) c

-- The loop by which osada_write looks for the first block of an empty file.
unfoldable pub assign_loop : ℕ → ℕ → Chain → Option Chain
assign_loop zero pos c = none
assign_loop (suc n) pos c =
    let rest = assign_loop n (pos + 1) c in
    if c.bitmap pos
    then rest
    else some (write_slot (entry pos) end_of_file (write_slot first pos (set_bit pos true c)))

-- The bytes of one data block from `off`, `n` of them.
unfoldable pub read_block : (ℕ → ℕ) → ℕ → ℕ → List ℕ
read_block b zero off = []
read_block b (suc n) off = b off ∷ read_block b n (off + 1)

-- `memcpy` of bytes into one data block from `off`.
unfoldable pub write_block : (ℕ → ℕ) → ℕ → List ℕ → ℕ → ℕ
write_block b off [] = b
write_block b off (x ∷ xs) = write_block (update b off x) (off + 1) xs

-- The loop of osada_read behind its first block. `none`: the fuel ran out.
unfoldable pub read_loop : ℕ → Slot → ℕ → Chain → (ℕ → ℕ → ℕ) → Option (List ℕ)
read_loop zero slot left c blocks = none
read_loop (suc fuel) slot left c blocks =
    let v = read_slot slot c in
    let n = if leb block_size left then block_size else left in
    let rest = read_loop fuel (entry v) (left - n) c blocks in
    if (v == end_of_file) || (left == 0)
    then some []
    else rest >>= λ bs. some (read_block (blocks v) n 0 ++ bs)

-- The loop of osada_write over the bytes left, from the block of `slot` and the offset in it.
unfoldable pub write_loop : ℕ → Slot → ℕ → List ℕ → Chain → (ℕ → ℕ → ℕ) → Option (ℕ → ℕ → ℕ)
write_loop zero slot off bytes c blocks = none
write_loop (suc fuel) slot off bytes c blocks =
    let v = read_slot slot c in
    let room = block_size - off in
    let n = if leb room (length bytes) then room else length bytes in
    let blocks' = update blocks v (write_block (blocks v) off (take n bytes)) in
    let rest = write_loop fuel (entry v) 0 (drop n bytes) c blocks' in
    if length bytes == 0
    then some blocks
    else if c.mapping v == end_of_file
    then some blocks'
    else rest
