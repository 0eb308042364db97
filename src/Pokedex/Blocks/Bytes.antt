-- ===== src/Pokedex/Blocks/Bytes.antt =====
-- The bytes of a file as one list, and the loop of osada_read as a part of it.
use sisoputnfrba_tp_2016_2c.Base.{
  ℕ, zero, suc, ◌+◌, ◌-◌, ◌*◌, ◌<◌, ◌≡◌, refl, sym, ap, false, List, [], ◌∷◌, ◌++◌, min, some,
  arith, ◌==◌, length, take, drop, length-append, take_append,
}
use mathlib.Core.List.{append_assoc}
use sisoputnfrba_tp_2016_2c.Pokedex.State.{block_size}
use sisoputnfrba_tp_2016_2c.Pokedex.Blocks.{Chain, Slot, entry, read_slot, read_block, read_loop}
use sisoputnfrba_tp_2016_2c.Pokedex.Blocks.Chains.{Follows}

-- The bytes of the blocks `bs`, one after the other.
unfoldable pub chain_bytes : (ℕ → ℕ → ℕ) → List ℕ → List ℕ
chain_bytes blocks [] = []
chain_bytes blocks (b ∷ bs) = read_block (blocks b) block_size 0 ++ chain_bytes blocks bs

pub chain_bytes-cons :
    (blocks : ℕ → ℕ → ℕ) (b : ℕ) (bs : List ℕ)
    → chain_bytes blocks (b ∷ bs) ≡ read_block (blocks b) block_size 0 ++ chain_bytes blocks bs
unfolding chain_bytes
chain_bytes-cons blocks b bs = refl

pub length-read_block : (b : ℕ → ℕ) (n off : ℕ) → length (read_block b n off) ≡ n
unfolding read_block
length-read_block b zero off = refl
length-read_block b (suc n) off = ap suc (length-read_block b n (off + 1))

pub take-read_block :
    (b : ℕ → ℕ) (k n off : ℕ) → take k (read_block b n off) ≡ read_block b (min k n) off
unfolding read_block
take-read_block b zero n off = let e : min 0 n ≡ 0 = omega arith in rw e
take-read_block b (suc k) zero off = let e : min (suc k) 0 ≡ 0 = omega arith in rw e
take-read_block b (suc k) (suc n) off =
    let e : min (suc k) (suc n) ≡ suc (min k n) = omega arith in
    rw e (ap (◌∷◌ (b off)) (take-read_block b k n (off + 1)))

pub drop-read_block :
    (b : ℕ → ℕ) (k n off : ℕ) → drop k (read_block b n off) ≡ read_block b (n - k) (off + k)
unfolding read_block
drop-read_block b zero n off =
    let e : n - 0 ≡ n = omega arith in let e' : off + 0 ≡ off = omega arith in rw (e, e')
drop-read_block b (suc k) zero off = let e : 0 - suc k ≡ 0 = omega arith in rw e
drop-read_block b (suc k) (suc n) off =
    let e : suc n - suc k ≡ n - k = omega arith in
    let e' : off + suc k ≡ off + 1 + k = omega arith in rw (e, e') (drop-read_block b k n (off + 1))

pub length-chain_bytes :
    (blocks : ℕ → ℕ → ℕ) (bs : List ℕ) → length (chain_bytes blocks bs) ≡ 64 * length bs
unfolding chain_bytes
length-chain_bytes blocks [] = omega arith
length-chain_bytes blocks (b ∷ bs) = omega (
  arith,
  length-append (read_block (blocks b) block_size 0) (chain_bytes blocks bs),
  length-read_block (blocks b) block_size 0,
  length-chain_bytes blocks bs,
)

pub chain_bytes-append :
    (blocks : ℕ → ℕ → ℕ) (xs ys : List ℕ)
    → chain_bytes blocks (xs ++ ys) ≡ chain_bytes blocks xs ++ chain_bytes blocks ys
unfolding chain_bytes
chain_bytes-append blocks [] ys = refl
chain_bytes-append blocks (x ∷ xs) ys = simp (chain_bytes-append blocks xs ys, append_assoc)

-- Some first bytes of one block and what follows it.
pub take_block :
    (blocks : ℕ → ℕ → ℕ) (b n off : ℕ) (rest : List ℕ)
    → take n (read_block (blocks b) (block_size - off) off ++ rest)
      ≡ read_block (blocks b) (min n (block_size - off)) off ++ take (n - (block_size - off)) rest
take_block blocks b n off rest = rw (
  take_append n (read_block (blocks b) (block_size - off) off) rest,
  length-read_block,
  take-read_block,
)

block_step :
    (blocks : ℕ → ℕ → ℕ) (b n left : ℕ) (rest : List ℕ)
    → n ≡ min left 64
    → left - n ≡ left - 64
    → read_block (blocks b) n 0 ++ take (left - n) rest
      ≡ take left (read_block (blocks b) block_size 0 ++ rest)
block_step blocks b n left rest e e' = rw (e', e) (sym (take_block blocks b left 0 rest))

-- With more fuel than blocks the loop of osada_read gives the first `left` bytes of the blocks.
pub read_loop_lem :
    (c : Chain) (blocks : ℕ → ℕ → ℕ) (fuel left : ℕ) (slot : Slot) (bs : List ℕ)
    → Follows c.mapping (read_slot slot c) bs
    → length bs < fuel
    → read_loop fuel slot left c blocks ≡ some (take left (chain_bytes blocks bs))
unfolding read_loop chain_bytes
read_loop_lem c blocks zero left slot bs f h = absurd (omega arith)
read_loop_lem c blocks (suc fuel) zero slot [] f h = rw f
read_loop_lem c blocks (suc fuel) (suc left) slot [] f h = rw f
read_loop_lem c blocks (suc fuel) zero slot (b ∷ bs) (e, x, f) h = rw (e, x)
read_loop_lem c blocks (suc fuel) (suc left) slot (b ∷ bs) (e, x, f) h =
    let z : (suc left == 0) ≡ false = ground arith in
    rw (e, x, read_loop_lem c blocks fuel _ (entry b) bs f (omega arith), z)
      (ap some
        (block_step blocks b _ (suc left) (chain_bytes blocks bs) (ground arith) (ground arith)))
