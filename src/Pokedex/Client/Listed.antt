-- ===== src/Pokedex/Client/Listed.antt =====
-- pokedex-server.c: the answers of osada_readdir, osada_getattr and the walk of osada_read.
use sisoputnfrba_tp_2016_2c.Base.{
  ℕ, zero, suc, ◌+◌, ◌*◌, ◌^◌, ◌<◌, ◌≤◌, ◌≡◌, refl, List, [], ◌∷◌, arith, inl, inr, ◌==◌, ◌&&◌, not,
  length, Bool-cases, length-append,
}
use sisoputnfrba_tp_2016_2c.Pokedex.State.{
  enoent, enotdir, emptydir, isreg, isdir, FileState, deleted, regular, directory, OsadaFile, Place,
  at, fail, is_at, Server, root, lock_read, file_blocks_mount, semaphore_lock,
}
use sisoputnfrba_tp_2016_2c.Pokedex.Search.{name_bytes, file_name, pass_entry}
use sisoputnfrba_tp_2016_2c.Pokedex.Search.Create.{NoZero, nil, cons}
use sisoputnfrba_tp_2016_2c.Pokedex.Walk.{
  Answer, code, names, attr, silence, unset, Walk, arrived, refused, astray, tokens,
}
use sisoputnfrba_tp_2016_2c.Pokedex.Walk.Refused.{
  RefusedAs, walk_dirs-RefusedAs, walk_nodes_of-RefusedAs,
}
use sisoputnfrba_tp_2016_2c.Pokedex.Nodes.{
  is_slash, is_child, list_loop, name_buffer, listing, read_dir, osada_readdir, attributes,
  get_attr, osada_getattr,
}
use sisoputnfrba_tp_2016_2c.Pokedex.Requests.{c_string}
use sisoputnfrba_tp_2016_2c.Pokedex.Client.Names.{Terminated, AllNoZero, Terminated-name_buffer}
use sisoputnfrba_tp_2016_2c.Pokedex.Client.Answered.{if-both}

pub name_bytes-NoZero : (n : ℕ) (bs : List ℕ) → NoZero (name_bytes n bs)
unfolding name_bytes
name_bytes-NoZero zero bs = nil
name_bytes-NoZero (suc n) [] = nil
name_bytes-NoZero (suc n) (b ∷ bs) = elim (Bool-cases (b == 0)) [
  | inl z ↦ rw z nil
  | inr nz ↦ rw nz (cons nz (name_bytes-NoZero n bs))
]

name_bytes-length : (n : ℕ) (bs : List ℕ) → length (name_bytes n bs) ≤ n
unfolding name_bytes
name_bytes-length zero bs = omega arith
name_bytes-length (suc n) [] = omega arith
name_bytes-length (suc n) (b ∷ bs) = ground (arith, name_bytes-length n bs)

-- A buffer of at most `n` names of a table.
abbrev Fits : ℕ → List (ℕ × List ℕ) → Type 0
Fits n ps = AllNoZero ps × (length (name_buffer ps) ≤ 18 * n + 1)

Fits-cons :
    (n p : ℕ) (f : OsadaFile) (ps : List (ℕ × List ℕ))
    → Fits n ps
    → Fits (suc n) ((p, file_name f) ∷ ps)
unfolding name_buffer
Fits-cons n p f ps (z, l) =
    let m = name_bytes-length 17 f.fname in
    ((name_bytes-NoZero 17 f.fname, z), rw (length-append (file_name f)) (omega (arith, l, m)))

list_loop-Fits : (n pos : ℕ) (pb : Place) (s : Server) → Fits n (list_loop n pos pb s).0
unfolding list_loop name_buffer
list_loop-Fits zero pos pb s = (tt, omega arith)
list_loop-Fits (suc n) pos pb s =
    elim (Bool-cases (not (is_at pb pos) && is_child pb (s.table pos))) [
      | inl y ↦ rw y (
          Fits-cons n pos (s.table pos) _
            (list_loop-Fits n (pos + 1) pb (semaphore_lock lock_read pos s)))
      | inr other ↦
          let (z, l) = list_loop-Fits n (pos + 1) pb (pass_entry lock_read (is_at pb pos) pos s) in
          rw other (z, omega (arith, l))
    ]

-- An answer of osada_readdir.
abbrev pub Names : Answer → Type 0
Names (code enotdir) = Unit {0}
Names (code emptydir) = Unit {0}
Names (names bs) = Terminated bs × (suc (length (c_string bs)) < 2 ^ 32)
Names silence = Unit {0}
Names unset = Unit {0}
Names a = ⊥

listing-Names :
    (pb : Place) (ps : List (ℕ × List ℕ)) (s : Server) → Fits 2048 ps → Names (listing pb (ps, s)).0
unfolding listing
listing-Names pb [] s f = tt
listing-Names pb (x ∷ xs) s (z, l) =
    let t = Terminated-name_buffer (x ∷ xs) z in (t, omega (arith, t, l))

read_dir-Names : (w : Walk) → RefusedAs enotdir w → Names (read_dir w).0
unfolding read_dir
read_dir-Names (arrived pb s) h = listing-Names pb _ _ (list_loop-Fits file_blocks_mount 0 pb s)
read_dir-Names (refused c s) h = rw h tt
read_dir-Names (astray pb s) h = tt

pub osada_readdir-Names : (path : List ℕ) (s : Server) → Names (osada_readdir path s).0
unfolding osada_readdir
osada_readdir-Names path s = read_dir-Names _ (
    if-both (RefusedAs enotdir) (is_slash path) _ _ tt
      (walk_dirs-RefusedAs (tokens path) (at root) s))

-- An answer of osada_getattr.
abbrev pub Attributes : Answer → Type 0
Attributes (code enoent) = Unit {0}
Attributes (attr isreg n t) = Unit {0}
Attributes (attr isdir n t) = Unit {0}
Attributes silence = Unit {0}
Attributes unset = Unit {0}
Attributes a = ⊥

attributes-Attributes : (f : OsadaFile) (k : FileState) → f.state ≡ k → Attributes (attributes f)
unfolding attributes
attributes-Attributes f deleted h = rw (attributes, h) tt
attributes-Attributes f regular h = rw (attributes, h) tt
attributes-Attributes f directory h = rw (attributes, h) tt

get_attr-Attributes : (w : Walk) → RefusedAs enoent w → Attributes (get_attr w).0
unfolding get_attr
get_attr-Attributes (arrived (at p) s) h = attributes-Attributes (s.table p) _ refl
get_attr-Attributes (arrived (fail c) s) h = tt
get_attr-Attributes (refused c s) h = rw h tt
get_attr-Attributes (astray here s) h = tt

pub osada_getattr-Attributes : (path : List ℕ) (s : Server) → Attributes (osada_getattr path s).0
unfolding osada_getattr
osada_getattr-Attributes path s = get_attr-Attributes _ (walk_nodes_of-RefusedAs (tokens path) s)
