-- ===== src/Pokedex/Blocks/Sizes.antt =====
-- How many blocks a size needs.
use sisoputnfrba_tp_2016_2c.Base.{ℕ, ◌+◌, ◌/◌, ◌≤◌, ◌≡◌, arith}
use sisoputnfrba_tp_2016_2c.Pokedex.State.{block_size}
use sisoputnfrba_tp_2016_2c.Pokedex.Blocks.{necessary_blocks}

-- The blocks that osada_truncate and osada_write compute for a size are as many as hold it.
pub necessary_blocks_lem : (n : ℕ) → necessary_blocks n ≡ (n + 63) / block_size
unfolding necessary_blocks
necessary_blocks_lem n = ground arith

pub necessary_blocks_mono : (m n : ℕ) → m ≤ n → necessary_blocks m ≤ necessary_blocks n
necessary_blocks_mono m n h = omega (arith, necessary_blocks_lem m, necessary_blocks_lem n)
