-- ===== src/Pokedex/Nodes/Look.antt =====
-- osada_getattr and osada_rmdir over all paths.
use sisoputnfrba_tp_2016_2c.Base.{
  ℕ, ◌<◌, ◌≡◌, refl, true, false, List, [], ◌∷◌, Bool-cases, inl, inr,
}
use sisoputnfrba_tp_2016_2c.Pokedex.State.{
  file_blocks_mount, at, root, enoent, enotdir, sexe, deleted, Server, give_lock-take_lock,
  set_file,
}
use sisoputnfrba_tp_2016_2c.Pokedex.Search.Found.{pass_entry_same}
use sisoputnfrba_tp_2016_2c.Pokedex.Walk.{Answer, code, unset, tokens, Walk, walk_nodes_of}
use sisoputnfrba_tp_2016_2c.Pokedex.Walk.Leads.{
  InUse, IsDir, Never, Leads, NoWay, Ends, ends_at, ends_refused, ends_astray,
}
use sisoputnfrba_tp_2016_2c.Pokedex.Walk.Paths.{walk_nodes-Ends, walk_rmdir-Ends}
use sisoputnfrba_tp_2016_2c.Pokedex.Walk.Refused.{
  RefusedAs, walk_nodes_of-RefusedAs, walk_rmdir-RefusedAs,
}
use sisoputnfrba_tp_2016_2c.Pokedex.Nodes.{
  attributes, get_attr, osada_getattr, remove_dir, walk_rmdir_of, is_slash, osada_rmdir,
}

-- The ends of osada_getattr: the words lead to an entry, or to none.
pub data Looked (s : Server) : List (List ℕ) → Answer × Server → Type 0 where
  known :
      (word : List ℕ) (words : List (List ℕ)) (p : ℕ)
      → p < file_blocks_mount
      → InUse s p
      → Leads s.table (InUse s) (InUse s) p (word ∷ words) (at root)
      → Looked s (word ∷ words) (attributes (s.table p), s)
  unknown :
      (word : List ℕ) (words : List (List ℕ))
      → NoWay s.table (InUse s) (InUse s) (word ∷ words) (at root)
      → Looked s (word ∷ words) (code enoent, s)
  no_word : Looked s [] (unset, s)

Ends-Looked :
    {s : Server} {w : Walk} (word : List ℕ) (words : List (List ℕ))
    → Ends s (InUse s) (InUse s) Never (word ∷ words) (at root) w
    → RefusedAs enoent w
    → Looked s (word ∷ words) (get_attr w)
unfolding get_attr
Ends-Looked {s} word words (ends_at t p l u k) only =
    rw (pass_entry_same t false p s) (known word words p l u k)
Ends-Looked word words (ends_refused c m n) only = rw only (unknown word words m)
Ends-Looked word words (ends_astray t p l never k) only = elim never [ ]

words-Looked :
    (words : List (List ℕ)) (s : Server) → Looked s words (get_attr (walk_nodes_of words s))
unfolding get_attr
words-Looked [] s = no_word
words-Looked (word ∷ words) s =
    Ends-Looked word words (walk_nodes-Ends s word words) (walk_nodes_of-RefusedAs (word ∷ words) s)

-- osada_getattr never changes the server: every lock that it takes is given back. It answers the
-- attributes of the entry in use to which the words of the path lead, or, where they lead to none,
-- OSADA_ENOENT; for a path without words it goes on with a position
-- that it has not set.
pub osada_getattr-Looked :
    (path : List ℕ) (s : Server) → Looked s (tokens path) (osada_getattr path s)
unfolding osada_getattr
osada_getattr-Looked path s = words-Looked (tokens path) s

-- The ends of osada_rmdir.
pub data RemovedDir (s : Server) (path : List ℕ) : Answer × Server → Type 0 where
  deletes :
      (p : ℕ)
      → p < file_blocks_mount
      → IsDir s p
      → Leads s.table (IsDir s) (IsDir s) p (tokens path) (at root)
      → RemovedDir s path (code sexe, set_file p (record (s.table p) { state = deleted }) s)
  refuses :
      NoWay s.table (IsDir s) (IsDir s) (tokens path) (at root)
      → RemovedDir s path (code enotdir, s)
  keeps_root : is_slash path ≡ true → RemovedDir s path (code sexe, s)
  no_words : tokens path ≡ [] → RemovedDir s path (unset, s)

Ends-RemovedDir :
    {s : Server} {w : Walk} (path : List ℕ)
    → Ends s (IsDir s) (IsDir s) Never (tokens path) (at root) w
    → RefusedAs enotdir w
    → RemovedDir s path (remove_dir w)
unfolding remove_dir
Ends-RemovedDir {s} path (ends_at t p l d k) only =
    rw (give_lock-take_lock t p s.locks) (deletes p l d k)
Ends-RemovedDir path (ends_refused c m n) only = rw only (refuses m)
Ends-RemovedDir path (ends_astray t p l never k) only = elim never [ ]

words-RemovedDir :
    (path : List ℕ) (words : List (List ℕ)) (s : Server)
    → tokens path ≡ words
    → RemovedDir s path (remove_dir (walk_rmdir_of words s))
unfolding remove_dir
words-RemovedDir path [] s e = no_words e
words-RemovedDir path (word ∷ words) s e =
    Ends-RemovedDir path (rw e (walk_rmdir-Ends s word words))
      (walk_rmdir-RefusedAs (word ∷ words) (at root) s)

-- osada_rmdir deletes the directory to which the words of the path lead over directories, and changes
-- nothing else, not even the locks; or, where they lead to none, it answers that the path is no
-- directory and changes nothing; for "/" it answers success and changes nothing; for another path
-- without words it goes on with a position that it has not set.
pub osada_rmdir-RemovedDir : (path : List ℕ) (s : Server) → RemovedDir s path (osada_rmdir path s)
unfolding osada_rmdir
osada_rmdir-RemovedDir path s = elim (Bool-cases (is_slash path)) [
  | inl slash ↦ rw slash (keeps_root slash)
  | inr other ↦ rw other (words-RemovedDir path (tokens path) s refl)
]
