-- ===== src/Pokedex/State.antt =====
-- pokedex-server/osada.h and the globals of pokedex-server.c: the mapped file system, the locks
-- of the file blocks, and the answers on the socket.
use sisoputnfrba_tp_2016_2c.Base.{
  ℕ, ◌+◌, ◌≡◌, Bool, false, ◌||◌, List, [], ◌∷◌, arith, ◌==◌, if◌then◌else◌, update,
}

-- `OSADA_FILENAME_LENGTH`, `OSADA_BLOCK_SIZE`, `FILE_BLOCKS_MOUNT`.
abbrev pub filename_length : ℕ
filename_length = 17

abbrev pub block_size : ℕ
block_size = 64

abbrev pub file_blocks_mount : ℕ
file_blocks_mount = 2048

-- `ROOT` and `END_OF_FILE`.
abbrev pub root : ℕ
root = 0xffff

abbrev pub end_of_file : ℕ
end_of_file = 0xffff_ffff

-- The codes of osada.h, which answers carry and which searches return negated.
pub data Status : Type 0 where
  enoent isreg isdir enotdir enospc emptydir notemptydir sexe enametoolong : Status

unfoldable pub status_code : Status → ℕ
status_code enoent = 1
status_code isreg = 2
status_code isdir = 3
status_code enotdir = 4
status_code enospc = 5
status_code emptydir = 6
status_code notemptydir = 7
status_code sexe = 8
status_code enametoolong = 9

-- `osada_file_state`.
pub data FileState : Type 0 where
  deleted regular directory : FileState

-- `osada_file`, with `fname` as the bytes of its array.
pub record OsadaFile : Type 0 where
  pub state : FileState
  pub fname : List ℕ
  pub parent_directory : ℕ
  pub file_size : ℕ
  pub lastmod : ℕ
  pub first_block : ℕ

-- An `int` that is a position in the file table, or a negated code.
pub data Place : Type 0 where
  at : ℕ → Place
  fail : Status → Place

abbrev pub is_at : Place → ℕ → Bool
is_at (at p) q = p == q
is_at (fail c) q = false

abbrev pub is_root : Place → Bool
is_root p = is_at p root

-- The actions of `semaphore` that take a lock.
pub data LockType : Type 0 where
  lock_read lock_write : LockType

-- The locks that the thread of one client holds, and how often it gave back one it did not hold.
pub record Locks : Type 0 where
  pub held : List (ℕ × LockType)
  pub stray : ℕ

abbrev pub holds : ℕ → List (ℕ × LockType) → Bool
holds p [] = false
holds p ((q, t) ∷ hs) = (p == q) || holds p hs

abbrev pub drop_hold : ℕ → List (ℕ × LockType) → List (ℕ × LockType)
drop_hold p [] = []
drop_hold p ((q, t) ∷ hs) = if p == q then hs else (q, t) ∷ drop_hold p hs

abbrev pub take_lock : LockType → ℕ → Locks → Locks
take_lock t p l = record l { held = (p, t) ∷ l.held }

abbrev pub give_lock : ℕ → Locks → Locks
give_lock p l =
    if holds p l.held
    then record l { held = drop_hold p l.held }
    else record l { stray = l.stray + 1 }

-- The mapped file and what the server keeps beside it: the file table, the words of the mapping
-- table, the bits and the bytes of the data blocks, `DATA_SIZE`, and the locks.
pub record Server : Type 0 where
  pub table : ℕ → OsadaFile
  pub mapping : ℕ → ℕ
  pub bitmap : ℕ → Bool
  pub blocks : ℕ → ℕ → ℕ
  pub data_size : ℕ
  pub locks : Locks

-- `semaphore(LOCK_READ, pos)` and `semaphore(LOCK_WRITE, pos)`, once the lock is free: the wait for
-- another holder, or for the thread itself where it has kept the lock, is no part of the model.
abbrev pub semaphore_lock : LockType → ℕ → Server → Server
semaphore_lock t p s = record s { locks = take_lock t p s.locks }

-- `semaphore(UNLOCK, pos)`. A negative position is no lock of the thread.
abbrev pub semaphore_unlock : Place → Server → Server
semaphore_unlock (at p) s = record s { locks = give_lock p s.locks }
semaphore_unlock (fail c) s = record s { locks = record s.locks { stray = s.locks.stray + 1 } }

-- `if (pb_pos != ROOT) semaphore(UNLOCK, pb_pos)`.
abbrev pub unlock_parent : Place → Server → Server
unlock_parent pb s = if is_root pb then s else semaphore_unlock pb s

-- The write of one entry of the file table.
abbrev pub set_file : ℕ → OsadaFile → Server → Server
set_file p f s = record s { table = update s.table p f }

-- Giving back the lock just taken leaves the locks as they were.
pub give_lock-take_lock : (t : LockType) (p : ℕ) (l : Locks) → give_lock p (take_lock t p l) ≡ l
give_lock-take_lock t p l = ground arith
