-- ===== src/Memoria/Reads.antt =====
-- memoria.c: a read of a page, from the cache or from its frame.
use sisoputnfrba_tp_2016_2c.Base.{ℕ, ◌<◌, ◌≡◌, List, Option, some}
use sisoputnfrba_tp_2016_2c.Memoria.{Conf, Memoria}
use sisoputnfrba_tp_2016_2c.Memoria.Cache.{bytes_of}
use sisoputnfrba_tp_2016_2c.Memoria.Coherence.{frame_of, byte_of, Coherent}

-- The same, but for the times of last use.
abbrev Twins : Memoria → Memoria → Type 0
Twins m m' =
    (m'.invert_table ≡ m.invert_table)
    × (m'.memory ≡ m.memory)
    × ((q : ℕ)
        → ((m'.cache q).pid ≡ (m.cache q).pid)
          × ((m'.cache q).page ≡ (m.cache q).page)
          × ((m'.cache q).content ≡ (m.cache q).content)
          × ((m'.cache q).writed ≡ (m.cache q).writed))

-- Every page with a frame is as it was.
abbrev pub AllKept : Conf → Memoria → Memoria → Type 0
AllKept c m m' =
    (p n f off : ℕ)
    → frame_of c p n m.invert_table ≡ some f
    → off < c.frame_size
    → byte_of c p n m' off ≡ byte_of c p n m off

-- A read has ended with the bytes that are seen in the page, and nothing that is seen has changed.
pub record Read (c : Conf) (pid page offset size : ℕ) (m : Memoria) (r : List ℕ × Memoria)
    : Type 0 where
  pub bytes : r.0 ≡ bytes_of size offset (byte_of c pid page m)
  pub coherent : Coherent c r.1
  pub kept : AllKept c m r.1

-- What a read ends with.
abbrev pub Reads : Conf → ℕ → ℕ → ℕ → ℕ → Memoria → Option (List ℕ × Memoria) → Type 0
Reads c pid page offset size m o =
    (r : List ℕ × Memoria) × (o ≡ some r) × Read c pid page offset size m r
