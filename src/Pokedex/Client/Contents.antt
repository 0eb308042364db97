-- ===== src/Pokedex/Client/Contents.antt =====
-- pokedex-server.c: the answers of osada_write, osada_read, osada_truncate and osada_unlink.
use sisoputnfrba_tp_2016_2c.Base.{
  Vale, Vale-bind, Vale-if, Vale-some, ℕ, zero, suc, ◌+◌, ◌-◌, ◌*◌, ◌^◌, ◌%◌, ◌/◌, ◌<◌, ◌≤◌, List,
  Option, none, some, arith, ◌==◌, ◌||◌, ◌&&◌, if◌then◌else◌, length, ltb, leb, length-append,
}
use sisoputnfrba_tp_2016_2c.Pokedex.State.{
  enoent, enospc, root, at, fail, Server, set_file, block_size, end_of_file,
}
use sisoputnfrba_tp_2016_2c.Pokedex.Search.{Env}
use sisoputnfrba_tp_2016_2c.Pokedex.Walk.{
  Answer, code, content, silence, unset, Walk, arrived, refused, astray, tokens, walk_nodes_of,
  walk_file,
}
use sisoputnfrba_tp_2016_2c.Pokedex.Blocks.{
  Slot, Chain, chain_of, first, entry, read_slot, advance, read_block, read_loop, Growth,
  release_loop, roll_back, necessary_blocks, count_loop, write_loop,
}
use sisoputnfrba_tp_2016_2c.Pokedex.Blocks.Bytes.{length-read_block}
use sisoputnfrba_tp_2016_2c.Pokedex.Content.{
  Outcome, at_file, finish, unlink_file, osada_unlink, set_size, no_space, grown, shrink, resize,
  truncate_file, osada_truncate, positive, read_file, osada_read, store_bytes, expanded, expand,
  first_block_of, write_file, osada_write,
}
use sisoputnfrba_tp_2016_2c.Pokedex.Client.Answered.{Coded, is_code}
use sisoputnfrba_tp_2016_2c.Pokedex.Walk.Refused.{RefusedAs, walk_nodes_of-RefusedAs}

abbrev pub CodedIf : Outcome → Type 0
CodedIf o = Vale Coded o

at_file-CodedIf :
    (w : Walk) (go : ℕ → Server → Outcome)
    → ((p : ℕ) (s : Server) → CodedIf (go p s))
    → CodedIf (at_file w go)
at_file-CodedIf (arrived (at p) s) go h = h p s
at_file-CodedIf (arrived (fail c) s) go h = is_code tt
at_file-CodedIf (refused c s) go h = is_code tt
at_file-CodedIf (astray here s) go h = is_code tt

unlink_file-CodedIf : (fuel p : ℕ) (s : Server) → CodedIf (unlink_file fuel p s)
unfolding unlink_file
unlink_file-CodedIf fuel p s =
    Vale-bind Coded (release_loop fuel first (chain_of p s)) _ λ c h. is_code tt

no_space-CodedIf : (fuel p old : ℕ) (c : Chain) (s : Server) → CodedIf (no_space fuel p old c s)
unfolding no_space
no_space-CodedIf fuel p old c s = Vale-bind Coded (roll_back fuel old c) _ λ c' h. is_code tt

grown-CodedIf : (fuel p old : ℕ) (g : Growth) (s : Server) → CodedIf (grown fuel p old g s)
unfolding grown
grown-CodedIf fuel p old g s =
    Vale-if Coded (ltb g.pos s.data_size) _ _ (is_code tt) (no_space-CodedIf fuel p old g.chain s)

shrink-CodedIf : (fuel p need : ℕ) (s : Server) → CodedIf (shrink fuel p need s)
unfolding shrink
shrink-CodedIf fuel p need s =
    Vale-bind Coded (release_loop fuel (advance need first (chain_of p s)) (chain_of p s)) _
      λ c h. is_code tt

resize-CodedIf :
    (fuel p old new : ℕ) (r : ℕ × Slot) (s : Server) → CodedIf (resize fuel p old new r s)
unfolding resize
resize-CodedIf fuel p old new (current, last) s =
    let need = necessary_blocks new in
    Vale-if Coded (ltb old new && ltb current need) _ _ (grown-CodedIf fuel p old _ s) (
      Vale-if Coded (ltb new old && ltb need current) _ _ (shrink-CodedIf fuel p need s)
        (is_code tt))

truncate_file-CodedIf : (fuel new p : ℕ) (s : Server) → CodedIf (truncate_file fuel new p s)
unfolding truncate_file
truncate_file-CodedIf fuel new p s = Vale-if Coded ((s.table p).file_size == new) _ _ (is_code tt) (
    Vale-bind Coded (count_loop fuel first 0 (chain_of p s)) _
      λ r h. resize-CodedIf fuel p _ new r _)

store_bytes-CodedIf :
    (fuel p : ℕ) (bytes : List ℕ) (offset : ℕ) (s : Server)
    → CodedIf (store_bytes fuel p bytes offset s)
unfolding store_bytes
store_bytes-CodedIf fuel p bytes offset s =
    let movs = offset / block_size in
    let slot = advance movs first (chain_of p s) in
    Vale-bind Coded
      (write_loop fuel slot (offset - block_size * movs) bytes (chain_of p s) s.blocks) _
      λ b h. is_code tt

expanded-CodedIf :
    (fuel p old : ℕ) (bytes : List ℕ) (offset : ℕ) (g : Growth) (s : Server)
    → CodedIf (expanded fuel p old bytes offset g s)
unfolding expanded
expanded-CodedIf fuel p old bytes offset g s =
    Vale-if Coded (ltb g.pos s.data_size) _ _ (store_bytes-CodedIf fuel p bytes offset _)
      (no_space-CodedIf fuel p old g.chain s)

expand-CodedIf :
    (fuel p old new : ℕ) (bytes : List ℕ) (offset : ℕ) (c : Chain) (s : Server)
    → CodedIf (expand fuel p old new bytes offset c s)
unfolding expand
expand-CodedIf fuel p old new bytes offset c s =
    Vale-bind Coded (count_loop fuel (entry c.head) 0 c) _
      λ r h. expanded-CodedIf fuel p old bytes offset _ s

-- The file grows: there is a first block, or none is free.
grows-CodedIf :
    (fuel p old new : ℕ) (bytes : List ℕ) (offset : ℕ) (o : Option Chain) (s s' : Server)
    → CodedIf (elim o [
      | none ↦ some (finish enospc p s')
      | some c ↦ expand fuel p old new bytes offset c s
    ])
grows-CodedIf fuel p old new bytes offset none s s' = is_code tt
grows-CodedIf fuel p old new bytes offset (some c) s s' =
    expand-CodedIf fuel p old new bytes offset c s

write_file-CodedIf :
    (fuel : ℕ) (e : Env) (bytes : List ℕ) (offset p : ℕ) (s : Server)
    → CodedIf (write_file fuel e bytes offset p s)
unfolding write_file
write_file-CodedIf fuel e bytes offset p s =
    let old = (s.table p).file_size in
    let new = (offset + length bytes) % 2 ^ 32 in
    let s' = set_file p (record (s.table p) { lastmod = e.now }) s in
    let o = first_block_of (chain_of p s') s.data_size in
    Vale-if Coded (ltb old new) _ _
      (grows-CodedIf fuel p old new bytes offset o (set_size p new s') s')
      (store_bytes-CodedIf fuel p bytes offset s')

-- The smaller of two numbers, as the loops choose it.
if-le : (a b : ℕ) → ((if leb a b then a else b) ≤ a) × ((if leb a b then a else b) ≤ b)
if-le a b = ground arith

read_loop-length :
    (fuel : ℕ) (slot : Slot) (left : ℕ) (c : Chain) (blocks : ℕ → ℕ → ℕ)
    → Vale (λ bs. length bs ≤ left) (read_loop fuel slot left c blocks)
unfolding read_loop
read_loop-length zero slot left c blocks = tt
read_loop-length (suc fuel) slot left c blocks =
    let P : List ℕ → Type 0 = λ bs. length bs ≤ left in
    let v = read_slot slot c in
    let n = if leb block_size left then block_size else left in
    let rest = read_loop fuel (entry v) (left - n) c blocks in
    Vale-if P ((v == end_of_file) || (left == 0)) _ _ (omega arith) (
      Vale-bind P rest _ λ bs h.
        let l = Vale-some _ rest bs (read_loop-length fuel (entry v) (left - n) c blocks) h in
        let m = (if-le block_size left).1 in
        rw (length-append (read_block (blocks v) n 0) bs, length-read_block (blocks v) n 0)
          (omega (arith, l, m)))

positive-lt : (n : ℕ) → positive n < 2 ^ 31
unfolding positive
positive-lt n = ground arith

-- An answer of osada_read: the bytes of the file, fewer than 2^32 of them, or no such file.
abbrev pub Readable : Answer → Type 0
Readable (code enoent) = Unit {0}
Readable (content bs) = length bs < 2 ^ 32
Readable silence = Unit {0}
Readable unset = Unit {0}
Readable a = ⊥

pub data ReadIf (r : Answer × Server) : Type 0 where
  is_content : Readable r.0 → ReadIf r

read_file-ReadIf :
    (fuel size offset p : ℕ) (s : Server) → Vale ReadIf (read_file fuel size offset p s)
unfolding read_file
read_file-ReadIf fuel size offset p s =
    let f = s.table p in
    let c = chain_of p s in
    let n =
      if ltb f.file_size ((offset + size) % 2 ^ 32)
      then (f.file_size + 2 ^ 32 - offset) % 2 ^ 32
      else size in
    let slot = advance (offset / block_size) first c in
    let off = offset - block_size * (offset / block_size) in
    let here = if leb n (block_size - off) then n else block_size - off in
    let block = read_slot slot c in
    let rest = read_loop fuel (entry block) (positive (n - here)) c s.blocks in
    Vale-if ReadIf (ltb offset ((f.file_size + 2 ^ 32 - 1) % 2 ^ 32)) _ _
      (Vale-bind ReadIf rest _ λ bs h.
        let l =
          Vale-some _ rest bs (read_loop-length fuel (entry block) (positive (n - here)) c s.blocks)
            h in
        let m = (if-le n (block_size - off)).1 in
        let q = positive-lt (n - here) in
        is_content (
          rw
            (
              length-append (read_block (s.blocks block) here off) bs,
              length-read_block (s.blocks block) here off,
            )
            (omega (arith, l, m, q))))
      (is_content (omega arith))

at_file-ReadIf :
    (w : Walk) (go : ℕ → Server → Outcome)
    → RefusedAs enoent w
    → ((p : ℕ) (s : Server) → Vale ReadIf (go p s))
    → Vale ReadIf (at_file w go)
at_file-ReadIf (arrived (at p) s) go r h = h p s
at_file-ReadIf (arrived (fail c) s) go r h = is_content tt
at_file-ReadIf (refused c s) go r h = rw r (is_content tt)
at_file-ReadIf (astray here s) go r h = is_content tt

pub osada_read-ReadIf :
    (fuel : ℕ) (path : List ℕ) (size offset : ℕ) (s : Server)
    → Vale ReadIf (osada_read fuel path size offset s)
unfolding osada_read
osada_read-ReadIf fuel path size offset s =
    at_file-ReadIf (walk_nodes_of (tokens path) s) _ (walk_nodes_of-RefusedAs (tokens path) s)
      λ p s'. read_file-ReadIf fuel size offset p s'

pub osada_write-CodedIf :
    (fuel : ℕ) (e : Env) (path bytes : List ℕ) (offset : ℕ) (s : Server)
    → CodedIf (osada_write fuel e path bytes offset s)
unfolding osada_write
osada_write-CodedIf fuel e path bytes offset s =
    at_file-CodedIf (walk_file (tokens path) (at root) s) _
      λ p s'. write_file-CodedIf fuel e bytes offset p s'

pub osada_truncate-CodedIf :
    (fuel : ℕ) (path : List ℕ) (new : ℕ) (s : Server) → CodedIf (osada_truncate fuel path new s)
unfolding osada_truncate
osada_truncate-CodedIf fuel path new s =
    at_file-CodedIf (walk_file (tokens path) (at root) s) _
      λ p s'. truncate_file-CodedIf fuel new p s'

pub osada_unlink-CodedIf :
    (fuel : ℕ) (path : List ℕ) (s : Server) → CodedIf (osada_unlink fuel path s)
unfolding osada_unlink
osada_unlink-CodedIf fuel path s =
    at_file-CodedIf (walk_file (tokens path) (at root) s) _ λ p s'. unlink_file-CodedIf fuel p s'
