-- ===== src/Pokedex/Search/Create.antt =====
-- create_dir and create_node: the entry that they write, and the search for it afterwards.
use sisoputnfrba_tp_2016_2c.Base.{
  ℕ, zero, suc, ◌^◌, ◌≤◌, ◌<◌, ◌≡◌, refl, ap, true, false, List, [], ◌∷◌, ◌++◌, inl, inr, arith,
  ◌==◌, ==_refl, Bool-cases, ltb, strcmp_refl, length,
}
use sisoputnfrba_tp_2016_2c.Pokedex.State.{
  filename_length, file_blocks_mount, end_of_file, enospc, regular, directory, OsadaFile, Place, at,
  fail, is_at, LockType, lock_write, give_lock-take_lock, Server, semaphore_lock, set_file,
}
use sisoputnfrba_tp_2016_2c.Pokedex.Search.{
  in_use, name_bytes, file_name, is_node, search_node, put_name, Env, new_file, create_at,
  create_dir, create_node,
}
use sisoputnfrba_tp_2016_2c.Pokedex.Search.Found.{
  candidate, NoneIn, First, missing, found, search_node-First, free_entry, Free, full, free,
  get_free_file_block-Free,
}

-- No byte of the name is the terminator.
pub data NoZero : List ℕ → Type 0 where
  nil : NoZero []
  cons : {b : ℕ} {bs : List ℕ} → (b == 0) ≡ false → NoZero bs → NoZero (b ∷ bs)

name_bytes-terminated :
    (n : ℕ) (name rest : List ℕ)
    → NoZero name
    → length name ≤ n
    → name_bytes n (name ++ (0 ∷ rest)) ≡ name
unfolding name_bytes
name_bytes-terminated zero [] rest nil h = refl
name_bytes-terminated (suc n) [] rest nil h = refl
name_bytes-terminated zero (b ∷ name) rest (cons e z) h = absurd (omega arith)
name_bytes-terminated (suc n) (b ∷ name) rest (cons e z) h =
    rw e (ap (◌∷◌ b) (name_bytes-terminated n name rest z (omega arith)))

pub name_bytes-full :
    (n : ℕ) (name rest : List ℕ)
    → NoZero name
    → length name ≡ n
    → name_bytes n (name ++ rest) ≡ name
unfolding name_bytes
name_bytes-full zero [] rest nil h = refl
name_bytes-full (suc n) [] rest nil h = absurd (omega arith)
name_bytes-full zero (b ∷ name) rest (cons e z) h = absurd (omega arith)
name_bytes-full (suc n) (b ∷ name) rest (cons e z) h =
    rw e (ap (◌∷◌ b) (name_bytes-full n name rest z (omega arith)))

-- The name of at most 17 bytes is read back whole, whatever the array held before.
pub name_bytes-put_name :
    (name old : List ℕ)
    → NoZero name
    → length name ≤ filename_length
    → name_bytes filename_length (put_name name old) ≡ name
unfolding put_name
name_bytes-put_name name old z h = elim (Bool-cases (ltb (length name) filename_length)) [
  | inl short ↦ rw short (name_bytes-terminated filename_length name _ z h)
  | inr whole ↦ rw whole (name_bytes-full filename_length name _ z (ground arith))
]

-- The ends of create_dir and create_node for the entry `file`: the table is full and nothing
-- changes, or the first free entry is written and nothing else, with no lock kept.
pub data Created (file : OsadaFile) (pb : Place) (s : Server) : Place × Server → Type 0 where
  full_table : NoneIn (free_entry pb s) 0 file_blocks_mount → Created file pb s (fail enospc, s)
  created :
      (p : ℕ)
      → p < file_blocks_mount
      → free_entry pb s p ≡ true
      → NoneIn (free_entry pb s) 0 p
      → Created file pb s (at p, set_file p file s)

create_at-Created :
    (file : OsadaFile) (pb : Place) (s : Server) {r : ℕ × Server}
    → Free (free_entry pb s) s 0 file_blocks_mount r
    → Created file pb s (create_at (λ _. file) r)
unfolding create_at
create_at-Created file pb s (full none) = full_table none
create_at-Created file pb s (free p a b c d) =
    let small : ltb p file_blocks_mount ≡ true = ground arith in
    rw (small, give_lock-take_lock lock_write p s.locks) (created p b c d)

module _ (e : Env) (name : List ℕ) (pb : Place) (s : Server) where
  pub create_dir-Created : Created (new_file e directory 0 name pb) pb s (create_dir e name pb s)
  unfolding create_dir
  create_dir-Created = create_at-Created _ pb s (get_free_file_block-Free pb s)

  pub create_node-Created :
      Created (new_file e regular end_of_file name pb) pb s (create_node e name pb s)
  unfolding create_node
  create_node-Created = create_at-Created _ pb s (get_free_file_block-Free pb s)

-- An entry with the name and the parent, in use, is found where there was none before.
module _ (name : List ℕ) (pb : Place) (t : LockType) (file : OsadaFile) (s : Server) (p : ℕ) where
  is_candidate :
      is_at pb p ≡ false
      → in_use file.state ≡ true
      → file_name file ≡ name
      → is_at pb file.parent_directory ≡ true
      → candidate name pb pb (set_file p file s) p ≡ true
  unfolding candidate is_node
  is_candidate ne u n d = rw (==_refl p, ne, u, n, strcmp_refl name, d)

  same_candidate :
      (r : ℕ)
      → (r == p) ≡ false
      → candidate name pb pb (set_file p file s) r ≡ candidate name pb pb s r
  unfolding candidate
  same_candidate r ne = rw ne

  search_created :
      p < file_blocks_mount
      → candidate name pb pb (set_file p file s) p ≡ true
      → NoneIn (candidate name pb pb s) 0 file_blocks_mount
      → {r : Place × Server}
      → First (candidate name pb pb (set_file p file s)) t (set_file p file s) 0 file_blocks_mount r
      → r ≡ (at p, semaphore_lock t p (set_file p file s))
  search_created l c none (missing never) = let e = never p (omega arith) l in cc
  search_created l c none (found r a b d first) = elim (Bool-cases (r == p)) [
    | inl e ↦ let e' : r ≡ p = ground arith in rw e'
    | inr ne ↦ let e = none r a b in let e' = same_candidate r ne in cc
  ]

-- After the creation: no entry was free and nothing has changed, or the search for the name finds
-- the new entry, and no lock is kept.
pub data Searchable (name : List ℕ) (q : ℕ) (t : LockType) (s : Server)
    : Place × Server → Type 0 where
  no_room :
      NoneIn (free_entry (at q) s) 0 file_blocks_mount → Searchable name q t s (fail enospc, s)
  stored :
      (p : ℕ) (s' : Server)
      → s'.locks ≡ s.locks
      → search_node name (at q) t (at q) s' ≡ (at p, semaphore_lock t p s')
      → Searchable name q t s (at p, s')

Created-Searchable :
    (name : List ℕ) (q : ℕ) (t : LockType) (file : OsadaFile) (s : Server) {r : Place × Server}
    → in_use file.state ≡ true
    → file_name file ≡ name
    → is_at (at q) file.parent_directory ≡ true
    → NoneIn (candidate name (at q) (at q) s) 0 file_blocks_mount
    → Created file (at q) s r
    → Searchable name q t s r
unfolding free_entry
Created-Searchable name q t file s u n d none (full_table f) = no_room f
Created-Searchable name q t file s u n d none (created p l free_p first) = stored p _ refl (
    search_created name (at q) t file s p l
      (is_candidate name (at q) t file s p (ground arith) u n d) none
      (search_node-First name (at q) t (at q) (set_file p file s)))

-- For a name of at most 17 bytes without a zero byte that search_node does not find under the parent
-- `q`, a position below 2^16: create_node finds no free entry and changes nothing, or search_node
-- finds the new entry by the name afterwards; create_node leaves no lock.
pub create_node-Searchable :
    (e : Env) (name : List ℕ) (q : ℕ) (t : LockType) (s : Server)
    → q < 2 ^ 16
    → NoZero name
    → length name ≤ filename_length
    → NoneIn (candidate name (at q) (at q) s) 0 file_blocks_mount
    → Searchable name q t s (create_node e name (at q) s)
create_node-Searchable e name q t s l z h none =
    Created-Searchable name q t _ s refl (name_bytes-put_name name e.junk z h) (ground arith) none
      (create_node-Created e name (at q) s)

-- The same of create_dir.
pub create_dir-Searchable :
    (e : Env) (name : List ℕ) (q : ℕ) (t : LockType) (s : Server)
    → q < 2 ^ 16
    → NoZero name
    → length name ≤ filename_length
    → NoneIn (candidate name (at q) (at q) s) 0 file_blocks_mount
    → Searchable name q t s (create_dir e name (at q) s)
create_dir-Searchable e name q t s l z h none =
    Created-Searchable name q t _ s refl (name_bytes-put_name name e.junk z h) (ground arith) none
      (create_dir-Created e name (at q) s)
