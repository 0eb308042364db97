-- ===== src/Pokedex/Search/Found.antt =====
-- What search_node, search_dir and get_free_file_block return, and the lock that they keep.
use sisoputnfrba_tp_2016_2c.Base.{
  ℕ, zero, suc, ◌+◌, ◌≤◌, ◌<◌, ◌≡◌, refl, ap, Bool, true, false, ◌&&◌, ◌||◌, not, List, inl, inr,
  arith, ◌==◌, Bool-cases, strcmp,
}
use sisoputnfrba_tp_2016_2c.Pokedex.State.{
  file_blocks_mount, enoent, enotdir, Place, at, fail, is_at, LockType, lock_write, Server,
  semaphore_lock, give_lock-take_lock,
}
use sisoputnfrba_tp_2016_2c.Pokedex.Search.{
  is_node, in_use, file_name, pass_entry, search_loop, search_node, check_dir, search_dir,
  is_directory, is_deleted, free_loop, get_free_file_block,
}

-- An entry that the search passes by leaves the server as it was.
pub pass_entry_same :
    (t : LockType) (skip : Bool) (pos : ℕ) (s : Server) → pass_entry t skip pos s ≡ s
pass_entry_same t true pos s = refl
pass_entry_same t false pos s = ap (λ l. record s { locks = l }) (give_lock-take_lock t pos s.locks)

-- An entry that is not skipped, in use, with the name and the parent.
unfoldable pub candidate : List ℕ → Place → Place → Server → ℕ → Bool
candidate name pb ignore s q =
    not (is_at pb q || is_at ignore q)
    && (in_use (s.table q).state
        && (strcmp (file_name (s.table q)) name && is_at pb (s.table q).parent_directory))

-- No entry from `lo` up to `hi` passes the test.
abbrev pub NoneIn : (ℕ → Bool) → ℕ → ℕ → Type 0
NoneIn test lo hi = (q : ℕ) → lo ≤ q → q < hi → test q ≡ false

-- The first entry from `lo` up to `hi` that passes the test, with its lock taken, or none of them.
pub data First (test : ℕ → Bool) (t : LockType) (s : Server) (lo hi : ℕ)
    : Place × Server → Type 0 where
  missing : NoneIn test lo hi → First test t s lo hi (fail enoent, s)
  found :
      (p : ℕ)
      → lo ≤ p
      → p < hi
      → test p ≡ true
      → NoneIn test lo p
      → First test t s lo hi (at p, semaphore_lock t p s)

NoneIn-cons :
    (test : ℕ → Bool) (lo hi : ℕ) → test lo ≡ false → NoneIn test (lo + 1) hi → NoneIn test lo hi
NoneIn-cons test lo hi h rest q a b = elim (Bool-cases (q == lo)) [
  | inl e ↦ let e' : q ≡ lo = ground arith in ground arith
  | inr e ↦ rest q (ground arith) b
]

First-cons :
    (test : ℕ → Bool) (t : LockType) (s : Server) (lo hi : ℕ) {r : Place × Server}
    → test lo ≡ false
    → First test t s (lo + 1) hi r
    → First test t s lo hi r
First-cons test t s lo hi h (missing none) = missing (NoneIn-cons test lo hi h none)
First-cons test t s lo hi h (found p a b c d) =
    found p (omega arith) b c (NoneIn-cons test lo p h d)

module _ (name : List ℕ) (pb : Place) (t : LockType) (ignore : Place) (s : Server) where
  search_loop-First :
      (n pos hi : ℕ)
      → pos + n ≡ hi
      → First (candidate name pb ignore s) t s pos hi (search_loop n pos name pb t ignore s)
  unfolding search_loop candidate is_node
  search_loop-First zero pos hi e = missing (λ q a b. absurd (omega arith))
  search_loop-First (suc n) pos hi e =
      rw (pass_entry_same t (is_at pb pos || is_at ignore pos) pos s)
        (elim (Bool-cases (is_at pb pos || is_at ignore pos)) [
          | inl skipped ↦ rw skipped (
              First-cons _ t s pos hi (rw skipped) (search_loop-First n (pos + 1) hi (omega arith)))
          | inr seen ↦ rw seen (elim (Bool-cases (is_node name pb (s.table pos))) [
            | inl hit ↦ rw hit (
                found pos (omega arith) (omega arith) (rw (seen, hit))
                  λ q a b. absurd (omega arith))
            | inr miss ↦ rw miss (
                First-cons _ t s pos hi (rw (seen, miss))
                  (search_loop-First n (pos + 1) hi (omega arith)))
          ])
        ])

  -- `search_node` returns the first entry in use, not skipped, with the name and the parent, and
  -- holds its lock; where there is none it returns -OSADA_ENOENT and holds no lock.
  pub search_node-First :
      First (candidate name pb ignore s) t s 0 file_blocks_mount (search_node name pb t ignore s)
  unfolding search_node
  search_node-First = search_loop-First file_blocks_mount 0 file_blocks_mount refl

-- What `search_dir` returns: the first candidate if it is a directory, locked, and otherwise
-- -OSADA_ENOTDIR with every lock given back.
pub data FirstDir (test : ℕ → Bool) (t : LockType) (s : Server) : Place × Server → Type 0 where
  no_node : NoneIn test 0 file_blocks_mount → FirstDir test t s (fail enotdir, s)
  no_dir :
      (p : ℕ)
      → p < file_blocks_mount
      → test p ≡ true
      → NoneIn test 0 p
      → is_directory (s.table p).state ≡ false
      → FirstDir test t s (fail enotdir, s)
  dir :
      (p : ℕ)
      → p < file_blocks_mount
      → test p ≡ true
      → NoneIn test 0 p
      → is_directory (s.table p).state ≡ true
      → FirstDir test t s (at p, semaphore_lock t p s)

check_dir-FirstDir :
    (test : ℕ → Bool) (t : LockType) (s : Server) (r : Place × Server)
    → First test t s 0 file_blocks_mount r
    → FirstDir test t s (check_dir r)
unfolding check_dir
check_dir-FirstDir test t s r (missing none) = no_node none
check_dir-FirstDir test t s r (found p a b c d) =
    rw (pass_entry_same t false p s) (elim (Bool-cases (is_directory (s.table p).state)) [
      | inl yes_dir ↦ rw yes_dir (dir p b c d yes_dir)
      | inr not_dir ↦ rw not_dir (no_dir p b c d not_dir)
    ])

-- `search_dir` looks at the first entry in use, not skipped, with the name and the parent: if it is
-- a directory, its position is returned and its lock held; if it is a file, or there is none,
-- -OSADA_ENOTDIR is returned and no lock is left.
pub search_dir-FirstDir :
    (name : List ℕ) (pb : Place) (t : LockType) (ignore : Place) (s : Server)
    → FirstDir (candidate name pb ignore s) t s (search_dir name pb t ignore s)
unfolding search_dir
search_dir-FirstDir name pb t ignore s =
    check_dir-FirstDir _ t s _ (search_node-First name pb t ignore s)

-- An entry that `get_free_file_block` may take.
unfoldable pub free_entry : Place → Server → ℕ → Bool
free_entry pb s q = not (is_at pb q) && is_deleted (s.table q).state

-- The first free entry, with its lock taken for writing, or the position behind the table.
pub data Free (test : ℕ → Bool) (s : Server) (lo hi : ℕ) : ℕ × Server → Type 0 where
  full : NoneIn test lo hi → Free test s lo hi (hi, s)
  free :
      (p : ℕ)
      → lo ≤ p
      → p < hi
      → test p ≡ true
      → NoneIn test lo p
      → Free test s lo hi (p, semaphore_lock lock_write p s)

Free-cons :
    (test : ℕ → Bool) (s : Server) (lo hi : ℕ) {r : ℕ × Server}
    → test lo ≡ false
    → Free test s (lo + 1) hi r
    → Free test s lo hi r
Free-cons test s lo hi h (full none) = full (NoneIn-cons test lo hi h none)
Free-cons test s lo hi h (free p a b c d) = free p (omega arith) b c (NoneIn-cons test lo p h d)

module _ (pb : Place) (s : Server) where
  free_loop-Free :
      (n pos hi : ℕ) → pos + n ≡ hi → Free (free_entry pb s) s pos hi (free_loop n pos pb s)
  unfolding free_loop free_entry
  free_loop-Free zero pos hi e =
      let e' : pos ≡ hi = omega arith in rw e' (full λ q a b. absurd (omega arith))
  free_loop-Free (suc n) pos hi e =
      rw (pass_entry_same lock_write (is_at pb pos) pos s) (elim (Bool-cases (is_at pb pos)) [
        | inl skipped ↦
            rw skipped
              (Free-cons _ s pos hi (rw skipped) (free_loop-Free n (pos + 1) hi (omega arith)))
        | inr seen ↦ rw seen (elim (Bool-cases (is_deleted (s.table pos).state)) [
          | inl hit ↦
              rw hit (
                free pos (omega arith) (omega arith) (rw (seen, hit)) λ q a b. absurd (omega arith))
          | inr miss ↦
              rw miss (
                Free-cons _ s pos hi (rw (seen, miss))
                  (free_loop-Free n (pos + 1) hi (omega arith)))
        ])
      ])

  -- `get_free_file_block` returns the first deleted entry that is not the parent's, locked for
  -- writing; where there is none, the position behind the table, and no lock is left.
  pub get_free_file_block-Free :
      Free (free_entry pb s) s 0 file_blocks_mount (get_free_file_block pb s)
  unfolding get_free_file_block
  get_free_file_block-Free = free_loop-Free file_blocks_mount 0 file_blocks_mount refl
