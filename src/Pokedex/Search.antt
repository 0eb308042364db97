-- ===== src/Pokedex/Search.antt =====
-- pokedex-server.c: search_node, search_dir, get_free_file_block, create_dir and create_node.
pub mod Found
pub mod Wanted
pub mod Create
use sisoputnfrba_tp_2016_2c.Base.{
  ℕ, zero, suc, ◌+◌, ◌-◌, ◌%◌, ◌^◌, Bool, true, false, ◌&&◌, ◌||◌, List, [], ◌∷◌, ◌++◌, ◌==◌, ltb,
  if◌then◌else◌, strcmp, length, drop,
}
use sisoputnfrba_tp_2016_2c.Pokedex.State.{
  filename_length, file_blocks_mount, end_of_file, status_code, enoent, enotdir, enospc, FileState,
  deleted, regular, directory, OsadaFile, Place, at, fail, is_at, LockType, lock_write, Server,
  semaphore_lock, semaphore_unlock, set_file,
}

-- The name in `fname`: the bytes before the first zero, at most `n`.
unfoldable pub name_bytes : ℕ → List ℕ → List ℕ
name_bytes zero bs = []
name_bytes (suc n) [] = []
name_bytes (suc n) (b ∷ bs) = if b == 0 then [] else b ∷ name_bytes n bs

abbrev pub file_name : OsadaFile → List ℕ
file_name f = name_bytes filename_length f.fname

-- `state == REGULAR || state == DIRECTORY`.
abbrev pub in_use : FileState → Bool
in_use deleted = false
in_use regular = true
in_use directory = true

abbrev pub is_directory : FileState → Bool
is_directory deleted = false
is_directory regular = false
is_directory directory = true

-- The test by which `search_node` stops at an entry.
unfoldable pub is_node : List ℕ → Place → OsadaFile → Bool
is_node name pb f = in_use f.state && (strcmp (file_name f) name && is_at pb f.parent_directory)

-- One entry of the table that is not the wanted one: its lock is taken and given back, unless the
-- entry is skipped.
abbrev pub pass_entry : LockType → Bool → ℕ → Server → Server
pass_entry t skip pos s = if skip then s else semaphore_unlock (at pos) (semaphore_lock t pos s)

-- The loop of `search_node`, with the entries left and the position.
unfoldable pub search_loop : ℕ → ℕ → List ℕ → Place → LockType → Place → Server → Place × Server
search_loop zero pos name pb t ignore s = (fail enoent, s)
search_loop (suc n) pos name pb t ignore s =
    let skip = is_at pb pos || is_at ignore pos in
    let rest = search_loop n (pos + 1) name pb t ignore (pass_entry t skip pos s) in
    if skip
    then rest
    else if is_node name pb (s.table pos)
    then (at pos, semaphore_lock t pos s)
    else rest

unfoldable pub search_node : List ℕ → Place → LockType → Place → Server → Place × Server
search_node name pb t ignore s = search_loop file_blocks_mount 0 name pb t ignore s

-- The check of `search_dir` on the entry that `search_node` found.
unfoldable pub check_dir : Place × Server → Place × Server
check_dir (fail c, s) = (fail enotdir, s)
check_dir (at p, s) =
    if is_directory (s.table p).state then (at p, s) else (fail enotdir, semaphore_unlock (at p) s)

unfoldable pub search_dir : List ℕ → Place → LockType → Place → Server → Place × Server
search_dir name pb t ignore s = check_dir (search_node name pb t ignore s)

abbrev pub is_deleted : FileState → Bool
is_deleted deleted = true
is_deleted regular = false
is_deleted directory = false

-- The loop of `get_free_file_block`. At the end of the table it returns the position behind it.
unfoldable pub free_loop : ℕ → ℕ → Place → Server → ℕ × Server
free_loop zero pos pb s = (pos, s)
free_loop (suc n) pos pb s =
    let rest = free_loop n (pos + 1) pb (pass_entry lock_write (is_at pb pos) pos s) in
    if is_at pb pos
    then rest
    else if is_deleted (s.table pos).state
    then (pos, semaphore_lock lock_write pos s)
    else rest

unfoldable pub get_free_file_block : Place → Server → ℕ × Server
get_free_file_block pb s = free_loop file_blocks_mount 0 pb s

-- `memcpy(fname, name, strlen(name))` and the terminator, if there is room for one.
unfoldable pub put_name : List ℕ → List ℕ → List ℕ
put_name name old =
    if ltb (length name) filename_length
    then name ++ (0 ∷ drop (length name + 1) old)
    else name ++ drop (length name) old

-- `(uint16_t) pb_pos`: a negated code is counted down from 2^16.
abbrev pub parent_word : Place → ℕ
parent_word (at p) = p % 2 ^ 16
parent_word (fail c) = 2 ^ 16 - status_code c

-- What a call finds outside the program: the clock, and the bytes of `fname` in a new `malloc`.
pub record Env : Type 0 where
  pub now : ℕ
  pub junk : List ℕ

-- The entry that `create_dir` and `create_node` write.
abbrev pub new_file : Env → FileState → ℕ → List ℕ → Place → OsadaFile
new_file e st first name pb = record {
  state = st;
  fname = put_name name e.junk;
  parent_directory = parent_word pb;
  file_size = 0;
  lastmod = e.now;
  first_block = first;
}

-- The end of both functions, with the position that `get_free_file_block` gave.
unfoldable pub create_at : (ℕ → OsadaFile) → ℕ × Server → Place × Server
create_at file (pos, s) =
    if ltb pos file_blocks_mount
    then (at pos, semaphore_unlock (at pos) (set_file pos (file pos) s))
    else (fail enospc, s)

unfoldable pub create_dir : Env → List ℕ → Place → Server → Place × Server
create_dir e name pb s =
    create_at (λ pos. new_file e directory 0 name pb) (get_free_file_block pb s)

unfoldable pub create_node : Env → List ℕ → Place → Server → Place × Server
create_node e name pb s =
    create_at (λ pos. new_file e regular end_of_file name pb) (get_free_file_block pb s)
