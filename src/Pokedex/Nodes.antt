-- ===== src/Pokedex/Nodes.antt =====
-- pokedex-server.c: osada_mkdir, osada_readdir, osada_getattr, osada_mknod, osada_rmdir and
-- osada_rename. A handler takes the path of its request as bytes, and returns what it writes to
-- the socket and the server.
pub mod Look
pub mod Listing
use sisoputnfrba_tp_2016_2c.Base.{
  ℕ, zero, suc, ◌+◌, Bool, true, false, ◌&&◌, ◌||◌, not, List, [], ◌∷◌, ◌++◌, ◌==◌, ltb,
  if◌then◌else◌, length, strcmp,
}
use sisoputnfrba_tp_2016_2c.Pokedex.State.{
  filename_length, file_blocks_mount, root, Status, enoent, isreg, isdir, enotdir, enospc, emptydir,
  sexe, enametoolong, FileState, deleted, regular, directory, OsadaFile, Place, at, fail, is_at,
  lock_read, Server, semaphore_lock, semaphore_unlock, unlock_parent, set_file,
}
use sisoputnfrba_tp_2016_2c.Pokedex.Search.{
  Env, file_name, in_use, pass_entry, put_name, parent_word, search_node, search_dir, create_dir,
  create_node,
}
use sisoputnfrba_tp_2016_2c.Pokedex.Walk.{
  Answer, code, names, attr, silence, unset, Walk, arrived, refused, astray, tokens, on_place,
  walk_nodes_of, walk_file, walk_dirs, walk_rmdir,
}

-- `strcmp(path, "/") == 0`.
abbrev pub is_slash : List ℕ → Bool
is_slash path = strcmp path (b'/' ∷ [])

-- `pb_pos == -OSADA_ENOSPC`.
abbrev pub is_enospc : Place → Bool
is_enospc (at p) = false
is_enospc (fail enospc) = true
is_enospc (fail c) = false

-- What osada_mkdir does with the position that `create_dir` gave. `go` is the rest of the path.
abbrev pub made_dir : Place → (Place → Server → Answer × Server) → Place × Server → Answer × Server
made_dir here go (made, s) =
    if is_enospc here then (code enospc, unlock_parent here s) else go made (unlock_parent here s)

-- The loop of osada_mkdir over the words of the path.
unfoldable pub mkdir_loop : Env → List (List ℕ) → Place → Server → Answer × Server
mkdir_loop e [] here s = (code isdir, s)
mkdir_loop e (word ∷ words) here s =
    on_place (search_dir word here lock_read here s)
      (λ p s'. mkdir_loop e words (at p) (unlock_parent here s'))
      (λ s'.
        if ltb filename_length (length word)
        then (code enametoolong, unlock_parent here s')
        else made_dir here (λ q t. mkdir_loop e words q t) (create_dir e word here s'))

unfoldable pub osada_mkdir : Env → List ℕ → Server → Answer × Server
osada_mkdir e path s =
    if is_slash path then (code isdir, s) else mkdir_loop e (tokens path) (at root) s

-- The test by which osada_readdir lists an entry.
unfoldable pub is_child : Place → OsadaFile → Bool
is_child pb f = in_use f.state && is_at pb f.parent_directory

-- The loop of osada_readdir over the file table: the positions and names of the entries listed,
-- whose locks are kept.
unfoldable pub list_loop : ℕ → ℕ → Place → Server → List (ℕ × List ℕ) × Server
list_loop zero pos pb s = ([], s)
list_loop (suc n) pos pb s =
    let listed = not (is_at pb pos) && is_child pb (s.table pos) in
    let rest = list_loop n (pos + 1) pb (
      if listed
      then semaphore_lock lock_read pos s
      else pass_entry lock_read (is_at pb pos) pos s) in
    if listed then ((pos, file_name (s.table pos)) ∷ rest.0, rest.1) else rest

-- `unlock_block` for each element of the list.
unfoldable pub unlock_blocks : List (ℕ × List ℕ) → Server → Server
unlock_blocks [] s = s
unlock_blocks ((p, n) ∷ ps) s = unlock_blocks ps (semaphore_unlock (at p) s)

-- The buffer of osada_readdir: a comma behind each name, and the terminator.
unfoldable pub name_buffer : List (ℕ × List ℕ) → List ℕ
name_buffer [] = 0 ∷ []
name_buffer ((p, n) ∷ ps) = n ++ (b',' ∷ name_buffer ps)

-- The answer of osada_readdir, once the table is read.
unfoldable pub listing : Place → List (ℕ × List ℕ) × Server → Answer × Server
listing pb ([], s) = (code emptydir, unlock_parent pb s)
listing pb (x ∷ xs, s) = (names (name_buffer (x ∷ xs)), unlock_parent pb (unlock_blocks (x ∷ xs) s))

-- osada_readdir behind the walk.
unfoldable pub read_dir : Walk → Answer × Server
read_dir (arrived pb s) = listing pb (list_loop file_blocks_mount 0 pb s)
read_dir (refused c s) = (code c, s)
read_dir (astray pb s) = (unset, s)

unfoldable pub osada_readdir : List ℕ → Server → Answer × Server
osada_readdir path s =
    read_dir (if is_slash path then arrived (at root) s else walk_dirs (tokens path) (at root) s)

-- The fields that osada_getattr answers.
unfoldable pub attributes : OsadaFile → Answer
attributes f = elim f.state [
  | deleted ↦ unset
  | regular ↦ attr isreg f.file_size f.lastmod
  | directory ↦ attr isdir 0 f.lastmod
]

-- osada_getattr behind the walk.
unfoldable pub get_attr : Walk → Answer × Server
get_attr (arrived (at p) s) = (attributes (s.table p), semaphore_unlock (at p) s)
get_attr (arrived (fail c) s) = (unset, s)
get_attr (refused c s) = (code c, s)
get_attr (astray here s) = (unset, s)

unfoldable pub osada_getattr : List ℕ → Server → Answer × Server
osada_getattr path s = get_attr (walk_nodes_of (tokens path) s)

-- osada_mknod at the last word of the path, with the position that `create_node` gave.
abbrev pub made_node : Place → Place × Server → Answer × Server
made_node here (at p, s) = (code isreg, unlock_parent here s)
made_node here (fail c, s) = (code enospc, unlock_parent here s)

-- osada_mknod at a word that is no directory.
unfoldable pub mknod_last : Env → List (List ℕ) → List ℕ → Place → Server → Answer × Server
mknod_last e [] word here s =
    if ltb filename_length (length word)
    then (code enametoolong, unlock_parent here s)
    else made_node here (create_node e word here s)
mknod_last e (w ∷ words) word here s = (code enotdir, unlock_parent here s)

-- The loop of osada_mknod over the words of the path.
unfoldable pub mknod_loop : Env → List (List ℕ) → Place → Server → Answer × Server
mknod_loop e [] here s = (code isreg, s)
mknod_loop e (word ∷ words) here s =
    on_place (search_dir word here lock_read here s)
      (λ p s'. mknod_loop e words (at p) (unlock_parent here s'))
      (λ s'. mknod_last e words word here s')

unfoldable pub osada_mknod : Env → List ℕ → Server → Answer × Server
osada_mknod e path s = mknod_loop e (tokens path) (at root) s

-- osada_rmdir behind the walk.
unfoldable pub remove_dir : Walk → Answer × Server
remove_dir (arrived (at p) s) =
    (code sexe, semaphore_unlock (at p) (set_file p (record (s.table p) { state = deleted }) s))
remove_dir (arrived (fail c) s) = (unset, s)
remove_dir (refused c s) = (code c, s)
remove_dir (astray here s) = (unset, s)

-- A path without words leaves `dir_pos` unset.
abbrev pub walk_rmdir_of : List (List ℕ) → Server → Walk
walk_rmdir_of [] s = astray (at root) s
walk_rmdir_of (word ∷ words) s = walk_rmdir (word ∷ words) (at root) s

unfoldable pub osada_rmdir : List ℕ → Server → Answer × Server
osada_rmdir path s =
    if is_slash path then (code sexe, s) else remove_dir (walk_rmdir_of (tokens path) s)

-- osada_rename at the last word of the new path, which is no entry: the entry `from` moves.
unfoldable pub rename_move : ℕ → List ℕ → Place → Server → Answer × Server
rename_move from word to s =
    if ltb filename_length (length word)
    then (code enametoolong, semaphore_unlock (at from) s)
    else let f = s.table from in
      let f' = record f { parent_directory = parent_word to; fname = put_name word f.fname } in
      (code sexe, semaphore_unlock (at from) (set_file from f' s))

-- osada_rename at the last word of the new path, which is the entry `found`.
unfoldable pub rename_onto : Env → ℕ → ℕ → Place → Server → Answer × Server
rename_onto e from found to s = elim (s.table found).state [
  | deleted ↦ (unset, semaphore_unlock (at found) (semaphore_unlock (at from) s))
  | regular ↦ (code isreg, semaphore_unlock (at found) (semaphore_unlock (at from) s))
  | directory ↦
      let f' = record (s.table from) { parent_directory = parent_word to; lastmod = e.now } in
      (code sexe, semaphore_unlock (at found) (semaphore_unlock (at from) (set_file from f' s)))
]

-- osada_rename at a word of the new path that is no directory.
unfoldable pub rename_last : Env → ℕ → List (List ℕ) → List ℕ → Place → Server → Answer × Server
rename_last e from [] word to s =
    on_place (search_node word to lock_read (at from) s)
      (λ p s'. rename_onto e from p to (unlock_parent to s'))
      (λ s'. rename_move from word to (unlock_parent to s'))
rename_last e from (w ∷ words) word to s = (code enoent, unlock_parent to s)

-- The loop of osada_rename over the words of the new path.
unfoldable pub rename_loop : Env → ℕ → List (List ℕ) → Place → Server → Answer × Server
rename_loop e from [] to s = (silence, s)
rename_loop e from (word ∷ words) to s =
    on_place (search_dir word to lock_read (at from) s)
      (λ p s'. rename_loop e from words (at p) (unlock_parent to s'))
      (λ s'. rename_last e from words word to s')

-- osada_rename behind the walk to the old path. Where every word of it was a directory, the last
-- one is the entry to move, unless there was no word.
unfoldable pub rename_from : Env → List (List ℕ) → List (List ℕ) → Walk → Answer × Server
rename_from e olds news (arrived (at p) s) = rename_loop e p news (at root) s
rename_from e olds news (arrived (fail c) s) = (unset, s)
rename_from e olds news (refused c s) = (code c, s)
rename_from e [] news (astray here s) = (unset, s)
rename_from e (w ∷ olds) news (astray (at p) s) = rename_loop e p news (at root) s
rename_from e (w ∷ olds) news (astray (fail c) s) = (unset, s)

unfoldable pub osada_rename : Env → List ℕ → List ℕ → Server → Answer × Server
osada_rename e old new s =
    rename_from e (tokens old) (tokens new) (walk_file (tokens old) (at root) s)
