-- ===== src/Pokedex/Search/Wanted.antt =====
-- The entry that search_node and search_dir are asked for, and the first one in the table.
use sisoputnfrba_tp_2016_2c.Base.{
  ℕ, ◌<◌, ◌≡◌, refl, ap, true, false, List, arith, ◌==◌, strcmp, strcmp_refl, strcmp-eq, Bool-cases,
  inl, inr,
}
use native.Mathlib.Decide.{dec_lt}
use sisoputnfrba_tp_2016_2c.Pokedex.State.{
  file_blocks_mount, enoent, enotdir, FileState, deleted, regular, directory, OsadaFile, Place, at,
  fail, is_at, LockType, Server, semaphore_lock,
}
use sisoputnfrba_tp_2016_2c.Pokedex.Search.{
  in_use, is_directory, file_name, search_node, search_dir,
}
use sisoputnfrba_tp_2016_2c.Pokedex.Search.Found.{
  candidate, NoneIn, First, missing, found, search_node-First, FirstDir, no_node, no_dir, dir,
  search_dir-FirstDir,
}

-- An entry of the table that is in use and has the name and the parent; the entries `pb` and
-- `ignore` are not looked at.
pub record Wanted (tab : ℕ → OsadaFile) (name : List ℕ) (pb ignore : Place) (q : ℕ) : Type 0 where
  pub not_parent : pb ≡ at q → ⊥
  pub not_ignored : ignore ≡ at q → ⊥
  pub used : (tab q).state ≡ deleted → ⊥
  pub named : file_name (tab q) ≡ name
  pub parent : pb ≡ at (tab q).parent_directory

-- The first one.
pub record FirstWanted (tab : ℕ → OsadaFile) (name : List ℕ) (pb ignore : Place) (p : ℕ)
    : Type 0 where
  pub inside : p < file_blocks_mount
  pub wanted : Wanted tab name pb ignore p
  pub before : (q : ℕ) → q < p → Wanted tab name pb ignore q → ⊥

is_at-at : (pb : Place) (q : ℕ) → is_at pb q ≡ true → pb ≡ at q
is_at-at (at p) q h = ap at (ground arith)
is_at-at (fail c) q h = cc

is_at-not : (pb : Place) (q : ℕ) → is_at pb q ≡ false → pb ≡ at q → ⊥
is_at-not pb q h e = let k = rw e at h in ground (arith, k)

pub is_at-false : (pb : Place) (q : ℕ) → (pb ≡ at q → ⊥) → is_at pb q ≡ false
is_at-false (at p) q h = elim (Bool-cases (p == q)) [
  | inl y ↦ absurd (h (ap at (ground arith)))
  | inr n ↦ n
]
is_at-false (fail c) q h = refl

in_use-not : (f : FileState) → in_use f ≡ true → f ≡ deleted → ⊥
in_use-not f u e = cc (rw e at u)

in_use-true : (f : FileState) → (f ≡ deleted → ⊥) → in_use f ≡ true
in_use-true deleted h = absurd (h refl)
in_use-true regular h = refl
in_use-true directory h = refl

module _ (name : List ℕ) (pb ignore : Place) (s : Server) where
  candidate-Wanted : (q : ℕ) → candidate name pb ignore s q ≡ true → Wanted s.table name pb ignore q
  unfolding candidate
  candidate-Wanted q h =
      let f = s.table q in
      let a : is_at pb q ≡ false = ground (arith, h) in
      let b : is_at ignore q ≡ false = ground (arith, h) in
      let u : in_use f.state ≡ true = ground (arith, h) in
      let n : strcmp (file_name f) name ≡ true = ground (arith, h) in
      let d : is_at pb f.parent_directory ≡ true = ground (arith, h) in
      record {
        not_parent = is_at-not pb q a;
        not_ignored = is_at-not ignore q b;
        used = in_use-not f.state u;
        named = strcmp-eq (file_name f) name n;
        parent = is_at-at pb f.parent_directory d;
      }

  Wanted-candidate : (q : ℕ) → Wanted s.table name pb ignore q → candidate name pb ignore s q ≡ true
  unfolding candidate
  Wanted-candidate q w =
      let f = s.table q in
      let a = is_at-false pb q w.not_parent in
      let b = is_at-false ignore q w.not_ignored in
      let u = in_use-true f.state w.used in
      let n : strcmp (file_name f) name ≡ true = rw w.named (strcmp_refl name) in
      let d : is_at pb f.parent_directory ≡ true = rw w.parent (ground arith) in rw (a, b, u, n, d)

  first-Wanted :
      (p : ℕ)
      → p < file_blocks_mount
      → candidate name pb ignore s p ≡ true
      → NoneIn (candidate name pb ignore s) 0 p
      → FirstWanted s.table name pb ignore p
  first-Wanted p l c none = record {
    inside = l;
    wanted = candidate-Wanted p c;
    before = λ q k w. let e = none q (omega arith) k in let e' = Wanted-candidate q w in cc;
  }

  none-Wanted :
      NoneIn (candidate name pb ignore s) 0 file_blocks_mount
      → (q : ℕ) → q < file_blocks_mount
      → Wanted s.table name pb ignore q
      → ⊥
  none-Wanted none q l w = let e = none q (omega arith) l in let e' = Wanted-candidate q w in cc

-- What search_node returns: the first entry with its lock taken, or -OSADA_ENOENT where there is
-- none.
pub data Searched (name : List ℕ) (pb : Place) (t : LockType) (ignore : Place) (s : Server)
    : Place × Server → Type 0 where
  nowhere :
      ((q : ℕ) → q < file_blocks_mount → Wanted s.table name pb ignore q → ⊥)
      → Searched name pb t ignore s (fail enoent, s)
  somewhere :
      (p : ℕ)
      → FirstWanted s.table name pb ignore p
      → Searched name pb t ignore s (at p, semaphore_lock t p s)

-- What search_dir returns: the first entry, if it is a directory, with its lock taken, and
-- otherwise -OSADA_ENOTDIR with no lock.
pub data SearchedDir (name : List ℕ) (pb : Place) (t : LockType) (ignore : Place) (s : Server)
    : Place × Server → Type 0 where
  not_there :
      ((q : ℕ) → FirstWanted s.table name pb ignore q → (s.table q).state ≡ directory → ⊥)
      → SearchedDir name pb t ignore s (fail enotdir, s)
  there :
      (p : ℕ)
      → FirstWanted s.table name pb ignore p
      → (s.table p).state ≡ directory
      → SearchedDir name pb t ignore s (at p, semaphore_lock t p s)

pub first_unique :
    (tab : ℕ → OsadaFile) (name : List ℕ) (pb ignore : Place) (p r : ℕ)
    → FirstWanted tab name pb ignore p
    → FirstWanted tab name pb ignore r
    → p ≡ r
first_unique tab name pb ignore p r a b = elim (dec_lt p r) [
  | yes l ↦ absurd (b.before p l a.wanted)
  | no l ↦ elim (dec_lt r p) [ yes k ↦ absurd (a.before r k b.wanted) | no k ↦ omega arith ]
]

is_directory-directory : (f : FileState) → is_directory f ≡ true → f ≡ directory
is_directory-directory deleted h = cc
is_directory-directory regular h = cc
is_directory-directory directory h = refl

-- `search_node` returns the first entry of the table that is in use and has the name and the
-- parent, apart from the parent itself and the entry that is ignored, and takes its lock only; where
-- there is none it returns -OSADA_ENOENT and takes no lock.
pub search_node-Searched :
    (name : List ℕ) (pb : Place) (t : LockType) (ignore : Place) (s : Server)
    → Searched name pb t ignore s (search_node name pb t ignore s)
search_node-Searched name pb t ignore s = of_first (search_node-First name pb t ignore s)
  where
    of_first :
        {r : Place × Server}
        → First (candidate name pb ignore s) t s 0 file_blocks_mount r
        → Searched name pb t ignore s r
    of_first (missing none) = nowhere (none-Wanted name pb ignore s none)
    of_first (found p a b c d) = somewhere p (first-Wanted name pb ignore s p b c d)

-- `search_dir` looks at the first entry of the table that is in use and has the name and the parent,
-- apart from the parent itself and the entry that is ignored: if it is a directory, its position is
-- returned and its lock taken only; if it is a file, or there is none, -OSADA_ENOTDIR is returned and
-- no lock is taken.
pub search_dir-SearchedDir :
    (name : List ℕ) (pb : Place) (t : LockType) (ignore : Place) (s : Server)
    → SearchedDir name pb t ignore s (search_dir name pb t ignore s)
search_dir-SearchedDir name pb t ignore s = of_first (search_dir-FirstDir name pb t ignore s)
  where
    of_first :
        {r : Place × Server}
        → FirstDir (candidate name pb ignore s) t s r
        → SearchedDir name pb t ignore s r
    of_first (no_node none) =
        not_there (λ q w d. none-Wanted name pb ignore s none q w.inside w.wanted)
    of_first (no_dir p l c n e) = not_there (λ q w d.
        let k = first_unique s.table name pb ignore q p w (first-Wanted name pb ignore s p l c n) in
        let e' : is_directory (s.table q).state ≡ false = rw k e in cc (rw d at e'))
    of_first (dir p l c n e) =
        there p (first-Wanted name pb ignore s p l c n) (is_directory-directory _ e)
