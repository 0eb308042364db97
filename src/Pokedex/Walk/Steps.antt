-- ===== src/Pokedex/Walk/Steps.antt =====
-- One step of a walk: the lock of the entry found is taken, then that of its parent given back.
use sisoputnfrba_tp_2016_2c.Base.{ℕ, ◌<◌, ◌≡◌, refl, false, List, arith}
use sisoputnfrba_tp_2016_2c.Pokedex.State.{
  file_blocks_mount, root, OsadaFile, directory, Place, at, is_at, LockType, Server, semaphore_lock,
  unlock_parent,
}
use sisoputnfrba_tp_2016_2c.Pokedex.Search.Wanted.{
  FirstWanted, Searched, nowhere, somewhere, SearchedDir, not_there, there, is_at-false,
}
use sisoputnfrba_tp_2016_2c.Pokedex.Walk.{on_place}

-- The server with the lock of the position at hand, if that is not the root.
pub data Holding (s : Server) : Place → Server → Type 0 where
  nothing : Holding s (at root) s
  one : (t : LockType) (p : ℕ) → p < file_blocks_mount → Holding s (at p) (semaphore_lock t p s)

-- The lock of the parent is given back once the lock of the child is taken.
pub unlock_parent-child :
    {s s' : Server} {here : Place} (t : LockType) (p : ℕ)
    → Holding s here s'
    → is_at here p ≡ false
    → unlock_parent here (semaphore_lock t p s') ≡ semaphore_lock t p s
unlock_parent-child t p nothing ne = refl
unlock_parent-child t p (one u h lt) ne = ground arith

-- Where the walk stops, the lock of the parent is given back.
pub unlock_parent-Holding :
    {s s' : Server} {here : Place} → Holding s here s' → unlock_parent here s' ≡ s
unlock_parent-Holding nothing = refl
unlock_parent-Holding (one t p lt) = ground arith

pub Holding-table :
    {s s' : Server} {here : Place} → Holding s here s' → (q : ℕ) → s'.table q ≡ s.table q
Holding-table nothing q = refl
Holding-table (one t p lt) q = refl

-- The child of a directory that a search finds: the directory itself is not looked at.
abbrev pub Child : (ℕ → OsadaFile) → List ℕ → Place → ℕ → Type 0
Child tab name here p = FirstWanted tab name here here p

-- The table is the same behind the locks.
pub Holding-Child :
    {s s' : Server} {here : Place} (word : List ℕ) (p : ℕ)
    → Holding s here s'
    → Child s.table word here p
    → Child s'.table word here p
Holding-Child word p nothing c = c
Holding-Child word p (one t q l) c = c

pub Child-Holding :
    {s s' : Server} {here : Place} (word : List ℕ) (p : ℕ)
    → Holding s here s'
    → Child s'.table word here p
    → Child s.table word here p
Child-Holding word p nothing c = c
Child-Holding word p (one t q l) c = c

pub Child-is_at :
    (tab : ℕ → OsadaFile) (name : List ℕ) (here : Place) (p : ℕ)
    → Child tab name here p
    → is_at here p ≡ false
Child-is_at tab name here p c = is_at-false here p c.wanted.not_parent

module _ {A : Type 0} (P : A → Type 0) (name : List ℕ) (t : LockType) (here : Place) (s : Server)
    (found_at : ℕ → Server → A) (none_at : Server → A) where
  pub node_case :
      {r : Place × Server}
      → Searched name here t here s r
      → ((p : ℕ) → Child s.table name here p → P (found_at p (semaphore_lock t p s)))
      → (((p : ℕ) → Child s.table name here p → ⊥) → P (none_at s))
      → P (on_place r found_at none_at)
  node_case (nowhere none) yes_case no_case = no_case λ p c. none p c.inside c.wanted
  node_case (somewhere p c) yes_case no_case = yes_case p c

  pub dir_case :
      {r : Place × Server}
      → SearchedDir name here t here s r
      → ((p : ℕ)
          → Child s.table name here p
          → (s.table p).state ≡ directory
          → P (found_at p (semaphore_lock t p s)))
      → (((p : ℕ) → Child s.table name here p → (s.table p).state ≡ directory → ⊥) → P (none_at s))
      → P (on_place r found_at none_at)
  dir_case (not_there none) yes_case no_case = no_case none
  dir_case (there p c d) yes_case no_case = yes_case p c d
