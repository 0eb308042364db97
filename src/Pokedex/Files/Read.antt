-- ===== src/Pokedex/Files/Read.antt =====
-- osada_read on a file: the bytes that it answers.
use sisoputnfrba_tp_2016_2c.Base.{
  ℕ, ◌+◌, ◌-◌, ◌*◌, ◌/◌, ◌%◌, ◌^◌, ◌<◌, ◌≡◌, sym, ap, ◌∙◌, List, ◌∷◌, ◌++◌, min, some, true, arith,
  ◌>>=◌, ltb, leb, if◌then◌else◌, length, take, drop, length-append, drop_append, drop_past,
  drop-take, take-take, split_at, Option, none,
}
use sisoputnfrba_tp_2016_2c.Pokedex.State.{block_size, at, Server, semaphore_unlock}
use sisoputnfrba_tp_2016_2c.Pokedex.Blocks.{
  chain_of, first, entry, advance, read_slot, read_block, read_loop, necessary_blocks,
}
use sisoputnfrba_tp_2016_2c.Pokedex.Blocks.Chains.{Follows, advance_lem}
use sisoputnfrba_tp_2016_2c.Pokedex.Blocks.Bytes.{
  chain_bytes, chain_bytes-cons, length-read_block, take_block, read_loop_lem, length-chain_bytes,
  chain_bytes-append, drop-read_block,
}
use sisoputnfrba_tp_2016_2c.Pokedex.Blocks.Count.{length-Distinct}
use sisoputnfrba_tp_2016_2c.Pokedex.Blocks.Sizes.{necessary_blocks_lem}
use sisoputnfrba_tp_2016_2c.Pokedex.Walk.{content}
use sisoputnfrba_tp_2016_2c.Pokedex.Content.{Outcome, positive, read_file}
use sisoputnfrba_tp_2016_2c.Pokedex.Files.Spec.{IsFile}

-- The bytes of the file `p` with the blocks `bs`: as many of the blocks' bytes as its size says.
unfoldable pub file_bytes : Server → ℕ → List ℕ → List ℕ
file_bytes s p bs = take (s.table p).file_size (chain_bytes s.blocks bs)

-- The bytes from an offset in the block `b` on.
drop-chain_bytes :
    (blocks : ℕ → ℕ → ℕ) (xs zs : List ℕ) (b off : ℕ)
    → off < block_size
    → drop (64 * length xs + off) (chain_bytes blocks (xs ++ (b ∷ zs)))
      ≡ read_block (blocks b) (block_size - off) off ++ chain_bytes blocks zs
drop-chain_bytes blocks xs zs b off h =
    let past : off - 64 ≡ 0 = omega arith in
    let from : 0 + off ≡ off = omega arith in
    rw (chain_bytes-append blocks xs (b ∷ zs)) (
      drop_past (chain_bytes blocks xs) (chain_bytes blocks (b ∷ zs)) (64 * length xs + off) off
        (omega (arith, length-chain_bytes blocks xs))
      ∙ rw (chain_bytes-cons blocks b zs) (
          drop_append off (read_block (blocks b) 64 0) (chain_bytes blocks zs)
          ∙ rw
              (length-read_block (blocks b) 64 0, past, drop-read_block (blocks b) off 64 0, from)))

module _ (fuel size offset p : ℕ) (s : Server) where
  -- osada_read at an offset in the block `b`, with the blocks `xs` before it.
  read_at :
      (n off : ℕ) (xs zs : List ℕ) (b : ℕ)
      → Follows s.mapping (s.table p).first_block (xs ++ (b ∷ zs))
      → length zs < fuel
      → offset ≡ 64 * length xs + off
      → off < block_size
      → (read_loop fuel
            (entry (read_slot (advance (length xs) first (chain_of p s)) (chain_of p s)))
            (n - min n (block_size - off))
            (chain_of p s)
            s.blocks
          >>= λ rest. some (
              read_block
                (s.blocks (read_slot (advance (length xs) first (chain_of p s)) (chain_of p s)))
                (min n (block_size - off))
                off
              ++ rest))
        ≡ some (take n (drop offset (chain_bytes s.blocks (xs ++ (b ∷ zs)))))
  read_at n off xs zs b f h e l =
      let (at_end, g) = advance_lem (chain_of p s) first xs (b ∷ zs) f in
      let left : n - min n (64 - off) ≡ n - (64 - off) = omega arith in
      rw (at_end, g.0, read_loop_lem (chain_of p s) s.blocks fuel _ (entry b) zs g.2 h)
        (ap some
          (rw (e, drop-chain_bytes s.blocks xs zs b off l, take_block s.blocks b n off, left)))

  -- The number of bytes that osada_read gives.
  wanted :
      (fs : ℕ)
      → fs < 2 ^ 32
      → offset + size < 2 ^ 32
      → offset < fs
      → (if ltb fs ((offset + size) % 2 ^ 32) then (fs + 2 ^ 32 - offset) % 2 ^ 32 else size)
        ≡ min size (fs - offset)
  wanted fs small fits before = ground arith

  within : (fs : ℕ) → fs < 2 ^ 32 → offset + 1 < fs → ltb offset ((fs + 2 ^ 32 - 1) % 2 ^ 32) ≡ true
  within fs small before = ground arith

  here_lem : (n room : ℕ) → (if leb n room then n else room) ≡ min n room
  here_lem n room = ground arith

  reach :
      (bs : List ℕ)
      → length bs ≡ necessary_blocks (s.table p).file_size
      → offset < (s.table p).file_size
      → offset / 64 < length bs
  reach bs e h = omega (arith, necessary_blocks_lem (s.table p).file_size)

  answered :
      (go : List ℕ → Outcome) (r : Option (List ℕ)) (xs ys : List ℕ)
      → (r >>= λ rest. some (xs ++ rest)) ≡ some ys
      → (r >>= λ rest. go (xs ++ rest)) ≡ go ys
  answered go none xs ys e = cc
  answered go (some r) xs ys e = ap (λ o. o >>= go) e

  -- At an offset before the last byte, osada_read on a file of less than 2^31 bytes answers the bytes
  -- of the file from the offset on, `size` of them or as many as there are, gives back the lock and
  -- changes nothing. The sum of offset and size is below 2^32, and the fuel above DATA_SIZE.
  pub read_file_lem :
      (bs : List ℕ)
      → IsFile s p bs
      → s.data_size < fuel
      → (s.table p).file_size < 2 ^ 31
      → offset + size < 2 ^ 32
      → offset + 1 < (s.table p).file_size
      → read_file fuel size offset p s
        ≡ some (content (take size (drop offset (file_bytes s p bs))), semaphore_unlock (at p) s)
  unfolding read_file file_bytes positive
  read_file_lem bs f h small fits before =
      let (xs, b, zs, e, l) = split_at (offset / 64) bs (reach bs f.sized (omega arith)) in
      let short : length zs < fuel = omega (
        arith,
        length-Distinct s.data_size bs f.chain.distinct f.chain.inside,
        ap length e,
        length-append xs (b ∷ zs),
      ) in
      let n = min size ((s.table p).file_size - offset) in
      let all_positive : positive (n - min n (64 - (offset - 64 * (offset / 64))))
          ≡ n - min n (64 - (offset - 64 * (offset / 64))) =
        ground arith in
      let bytes =
        read_at n (offset - 64 * (offset / 64)) xs zs b (rw (sym e) f.chain.follows) short
          (omega arith) (omega arith) in
      rw
        (
          within (s.table p).file_size (omega arith) before,
          wanted (s.table p).file_size (omega arith) fits (omega arith),
          here_lem,
          all_positive,
          drop-take,
          take-take,
        )
        (answered (λ zs. some (content zs, semaphore_unlock (at p) s)) _ _ _
          (rw (l, sym e) at bytes))
