-- ===== src/Pokedex/Walk.antt =====
-- pokedex-server.c: how the handlers split a path and walk it down the directories.
pub mod Steps
pub mod Leads
pub mod Paths
pub mod Refused
use sisoputnfrba_tp_2016_2c.Base.{ℕ, Bool, true, false, List, [], ◌∷◌, ◌==◌, if◌then◌else◌}
use mathlib.Core.List.{reverse}
use sisoputnfrba_tp_2016_2c.Pokedex.State.{
  root, Status, enoent, enotdir, Place, at, fail, LockType, lock_read, lock_write, Server,
  unlock_parent,
}
use sisoputnfrba_tp_2016_2c.Pokedex.Search.{search_node, search_dir}

-- What a handler writes to the socket, before it is laid out in bytes.
pub data Answer : Type 0 where
  -- one byte, the code
  code : Status → Answer
  -- OSADA_NOTEMPTYDIR with the names
  names : List ℕ → Answer
  -- the code, the file size and the time of the last change
  attr : Status → ℕ → ℕ → Answer
  -- OSADA_SEXE with the bytes of a file
  content : List ℕ → Answer
  -- nothing is written
  silence : Answer
  -- the handler goes on with a variable that it has not set
  unset : Answer

-- A word that ends: none, if it is empty.
abbrev pub end_word : List ℕ → List (List ℕ) → List (List ℕ)
end_word [] rest = rest
end_word (x ∷ xs) rest = reverse (x ∷ xs) ∷ rest

-- The words of `strtok(path, "/")`, in order: the longest runs without '/'. `word` is the run that
-- is being read, in reverse.
unfoldable pub split_path : List ℕ → List ℕ → List (List ℕ)
split_path word [] = end_word word []
split_path word (b ∷ path) =
    let rest = split_path (if b == b'/' then [] else b ∷ word) path in
    if b == b'/' then end_word word rest else rest

unfoldable pub tokens : List ℕ → List (List ℕ)
tokens path = split_path [] path

-- Where a walk down the directories ends.
pub data Walk : Type 0 where
  -- at an entry whose lock is held
  arrived : Place → Server → Walk
  -- the handler answers a code and returns
  refused : Status → Server → Walk
  -- every word was a directory, and the position of the file was never set
  astray : Place → Server → Walk

-- The two ways on after a search: with the position found, or with a negated code.
abbrev pub on_place {ℓ} : {A : Type ℓ} → Place × Server → (ℕ → Server → A) → (Server → A) → A
on_place (at p, s) found missing = found p s
on_place (fail c, s) found missing = missing s

-- The walk of osada_getattr and osada_read: each word is looked for by `search_node`. `here` is
-- the position found last.
unfoldable pub walk_nodes : List (List ℕ) → Place → Server → Walk
walk_nodes [] here s = arrived here s
walk_nodes (word ∷ words) here s =
    on_place (search_node word here lock_read here s)
      (λ p s'. walk_nodes words (at p) (unlock_parent here s'))
      (λ s'. refused enoent (unlock_parent here s'))

-- A path without words leaves `node_pos` unset.
abbrev pub walk_nodes_of : List (List ℕ) → Server → Walk
walk_nodes_of [] s = astray (at root) s
walk_nodes_of (word ∷ words) s = walk_nodes (word ∷ words) (at root) s

-- What osada_write, osada_truncate, osada_unlink and osada_rename do with a word that is no
-- directory: as the last word it is looked for with LOCK_WRITE, and otherwise the path is wrong.
unfoldable pub last_node : List (List ℕ) → List ℕ → Place → Server → Walk
last_node [] word here s =
    on_place (search_node word here lock_write here s)
      (λ p s'. arrived (at p) (unlock_parent here s'))
      (λ s'. refused enoent (unlock_parent here s'))
last_node (w ∷ words) word here s = refused enoent (unlock_parent here s)

-- The walk of those four handlers.
unfoldable pub walk_file : List (List ℕ) → Place → Server → Walk
walk_file [] here s = astray here s
walk_file (word ∷ words) here s =
    on_place (search_dir word here lock_read here s)
      (λ p s'. walk_file words (at p) (unlock_parent here s')) (λ s'. last_node words word here s')

-- The walk of osada_readdir: every word is a directory.
unfoldable pub walk_dirs : List (List ℕ) → Place → Server → Walk
walk_dirs [] here s = arrived here s
walk_dirs (word ∷ words) here s =
    on_place (search_dir word here lock_read here s)
      (λ p s'. walk_dirs words (at p) (unlock_parent here s'))
      (λ s'. refused enotdir (unlock_parent here s'))

-- LOCK_WRITE for the last word, LOCK_READ for the others.
abbrev pub lock_for : List (List ℕ) → LockType
lock_for [] = lock_write
lock_for (w ∷ words) = lock_read

-- The walk of osada_rmdir.
unfoldable pub walk_rmdir : List (List ℕ) → Place → Server → Walk
walk_rmdir [] here s = arrived here s
walk_rmdir (word ∷ words) here s =
    on_place (search_dir word here (lock_for words) here s)
      (λ p s'. walk_rmdir words (at p) (unlock_parent here s'))
      (λ s'. refused enotdir (unlock_parent here s'))
