-- ===== src/Pokedex/Content.antt =====
-- pokedex-server.c: osada_write, osada_read, osada_truncate and osada_unlink. A handler takes the
-- path and the other fields of its request, and returns what it writes to the socket
-- and the server. `none`: a loop over a chain of blocks ran out of its fuel.
use sisoputnfrba_tp_2016_2c.Base.{
  ℕ, ◌+◌, ◌-◌, ◌*◌, ◌/◌, ◌%◌, ◌^◌, ◌&&◌, List, [], ◌++◌, Option, none, some, ◌==◌, ◌>>=◌, ltb, leb,
  if◌then◌else◌, length,
}
use sisoputnfrba_tp_2016_2c.Pokedex.State.{
  block_size, root, end_of_file, Status, enospc, sexe, deleted, at, fail, Server, semaphore_unlock,
  set_file,
}
use sisoputnfrba_tp_2016_2c.Pokedex.Search.{Env}
use sisoputnfrba_tp_2016_2c.Pokedex.Blocks.{
  Chain, chain_of, put_chain, Slot, first, entry, read_slot, necessary_blocks, advance, count_loop,
  release_loop, Growth, add_blocks, add_bytes, roll_back, assign_loop, read_block, read_loop,
  write_loop,
}
use sisoputnfrba_tp_2016_2c.Pokedex.Walk.{
  Answer, code, content, unset, Walk, arrived, refused, astray, tokens, walk_nodes_of, walk_file,
}

abbrev pub Outcome : Type 0
Outcome = Option (Answer × Server)

-- `semaphore(UNLOCK, file_pos)` and an answer of one byte.
abbrev pub finish : Status → ℕ → Server → Answer × Server
finish c p s = (code c, semaphore_unlock (at p) s)

-- The handlers that need a file go on at its position, and answer where the walk was refused.
abbrev pub at_file : Walk → (ℕ → Server → Outcome) → Outcome
at_file (arrived (at p) s) go = go p s
at_file (arrived (fail c) s) go = some (unset, s)
at_file (refused c s) go = some (code c, s)
at_file (astray here s) go = some (unset, s)

-- osada_unlink behind the walk: the blocks are released and the entry is deleted.
unfoldable pub unlink_file : ℕ → ℕ → Server → Outcome
unlink_file fuel p s = do
  c ← release_loop fuel first (chain_of p s)
  let s' = put_chain p c s
  some (finish sexe p (set_file p (record (s'.table p) { state = deleted }) s'))

unfoldable pub osada_unlink : ℕ → List ℕ → Server → Outcome
osada_unlink fuel path s = at_file (walk_file (tokens path) (at root) s) (unlink_file fuel)

abbrev pub set_size : ℕ → ℕ → Server → Server
set_size p n s = set_file p (record (s.table p) { file_size = n }) s

-- "No space left on device": the old size again, and the blocks added so far released.
unfoldable pub no_space : ℕ → ℕ → ℕ → Chain → Server → Outcome
no_space fuel p old c s = do
  c' ← roll_back fuel old c
  some (finish enospc p (put_chain p c' (set_size p old s)))

-- osada_truncate once the blocks are added: the answer, or the way back if `free_db` has passed
-- `BM_DATA_1`.
unfoldable pub grown : ℕ → ℕ → ℕ → Growth → Server → Outcome
grown fuel p old g s =
    if ltb g.pos s.data_size
    then some (finish sexe p (put_chain p g.chain s))
    else no_space fuel p old g.chain s

-- The branch of osada_truncate that releases blocks behind the first `need`.
unfoldable pub shrink : ℕ → ℕ → ℕ → Server → Outcome
shrink fuel p need s = do
  c ← release_loop fuel (advance need first (chain_of p s)) (chain_of p s)
  some (finish sexe p (put_chain p c s))

-- osada_truncate behind the count of the blocks in use. `s` has the new size already.
unfoldable pub resize : ℕ → ℕ → ℕ → ℕ → ℕ × Slot → Server → Outcome
resize fuel p old new (current, last) s =
    let need = necessary_blocks new in
    if ltb old new && ltb current need
    then grown fuel p old (add_blocks (need - current) last (chain_of p s) s.data_size) s
    else if ltb new old && ltb need current
    then shrink fuel p need s
    else some (finish sexe p s)

unfoldable pub truncate_file : ℕ → ℕ → ℕ → Server → Outcome
truncate_file fuel new p s =
    let old = (s.table p).file_size in
    let s' = set_size p new s in
    if old == new
    then some (finish sexe p s')
    else do r ← count_loop fuel first 0 (chain_of p s); resize fuel p old new r s'

unfoldable pub osada_truncate : ℕ → List ℕ → ℕ → Server → Outcome
osada_truncate fuel path new s =
    at_file (walk_file (tokens path) (at root) s) (truncate_file fuel new)

-- A byte count kept in an `int`, as the loops test it for `> 0`: from 2^31 on it is negative.
unfoldable pub positive : ℕ → ℕ
positive n = if ltb n (2 ^ 31) then n else 0

-- osada_read behind the walk. The test compares `uint32_t` numbers, so it passes for every offset
-- but the largest where the file is empty.
unfoldable pub read_file : ℕ → ℕ → ℕ → ℕ → Server → Outcome
read_file fuel size offset p s =
    let f = s.table p in
    let c = chain_of p s in
    if ltb offset ((f.file_size + 2 ^ 32 - 1) % 2 ^ 32)
    then (do
      let n =
          if ltb f.file_size ((offset + size) % 2 ^ 32)
          then (f.file_size + 2 ^ 32 - offset) % 2 ^ 32
          else size
      let slot = advance (offset / block_size) first c
      let off = offset - block_size * (offset / block_size)
      let here = if leb n (block_size - off) then n else block_size - off
      let block = read_slot slot c
      rest ← read_loop fuel (entry block) (positive (n - here)) c s.blocks
      some (content (read_block (s.blocks block) here off ++ rest), semaphore_unlock (at p) s))
    else some (content [], semaphore_unlock (at p) s)

unfoldable pub osada_read : ℕ → List ℕ → ℕ → ℕ → Server → Outcome
osada_read fuel path size offset s =
    at_file (walk_nodes_of (tokens path) s) (read_file fuel size offset)

-- The last part of osada_write: the bytes go to the blocks from `offset` on.
unfoldable pub store_bytes : ℕ → ℕ → List ℕ → ℕ → Server → Outcome
store_bytes fuel p bytes offset s = do
  let movs = offset / block_size
  let slot = advance movs first (chain_of p s)
  blocks ← write_loop fuel slot (offset - block_size * movs) bytes (chain_of p s) s.blocks
  some (finish sexe p (record s { blocks = blocks }))

-- osada_write once the blocks are added: it stores the bytes, or takes the blocks back if `free_db`
-- has passed `BM_DATA_1`.
unfoldable pub expanded : ℕ → ℕ → ℕ → List ℕ → ℕ → Growth → Server → Outcome
expanded fuel p old bytes offset g s =
    if ltb g.pos s.data_size
    then store_bytes fuel p bytes offset (put_chain p g.chain s)
    else no_space fuel p old g.chain s

-- osada_write where the file grows to `new` bytes, with its first block assigned. The bytes that
-- do not fit in the blocks there are, `(new - old) - (64 - (old - movs * 64))`, are counted from 0.
unfoldable pub expand : ℕ → ℕ → ℕ → ℕ → List ℕ → ℕ → Chain → Server → Outcome
expand fuel p old new bytes offset c s = do
  (movs, last) ← count_loop fuel (entry c.head) 0 c
  let missing = positive ((new - old) + old - (movs * block_size + block_size))
  expanded fuel p old bytes offset (add_bytes missing last c s.data_size) s

-- The first block of a file: found in the bitmap, if the file is empty.
unfoldable pub first_block_of : Chain → ℕ → Option Chain
first_block_of c size = if c.head == end_of_file then assign_loop size 0 c else some c

-- osada_write behind the walk.
unfoldable pub write_file : ℕ → Env → List ℕ → ℕ → ℕ → Server → Outcome
write_file fuel e bytes offset p s =
    let old = (s.table p).file_size in
    let new = (offset + length bytes) % 2 ^ 32 in
    let s' = set_file p (record (s.table p) { lastmod = e.now }) s in
    if ltb old new
    then elim (first_block_of (chain_of p s') s.data_size) [
      | none ↦ some (finish enospc p s')
      | some c ↦ expand fuel p old new bytes offset c (set_size p new s')
    ]
    else store_bytes fuel p bytes offset s'

unfoldable pub osada_write : ℕ → Env → List ℕ → List ℕ → ℕ → Server → Outcome
osada_write fuel e path bytes offset s =
    at_file (walk_file (tokens path) (at root) s) (write_file fuel e bytes offset)
