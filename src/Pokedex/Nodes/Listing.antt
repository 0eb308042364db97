-- ===== src/Pokedex/Nodes/Listing.antt =====
-- osada_readdir over all paths.
use sisoputnfrba_tp_2016_2c.Base.{
  ℕ, zero, suc, ◌+◌, ◌<◌, refl, ap, ◌∙◌, false, ◌&&◌, not, List, [], ◌∷◌, arith, ◌==◌,
  if◌then◌else◌, Bool-cases, inl, inr, ◌⊎◌, Bool, true, ◌≡◌,
}
use sisoputnfrba_tp_2016_2c.Pokedex.State.{
  file_blocks_mount, root, enotdir, emptydir, Place, at, is_at, LockType, lock_read, Locks,
  give_lock, take_lock, give_lock-take_lock, Server, semaphore_lock, semaphore_unlock,
  unlock_parent,
}
use sisoputnfrba_tp_2016_2c.Pokedex.Search.{file_name, in_use}
use sisoputnfrba_tp_2016_2c.Pokedex.Search.Found.{pass_entry_same}
use sisoputnfrba_tp_2016_2c.Pokedex.Walk.{Answer, code, names, tokens, Walk, walk_dirs}
use sisoputnfrba_tp_2016_2c.Pokedex.Walk.Leads.{
  IsDir, Never, Leads, NoWay, Ends, ends_at, ends_refused, ends_astray,
}
use sisoputnfrba_tp_2016_2c.Pokedex.Walk.Paths.{walk_dirs-Ends}
use sisoputnfrba_tp_2016_2c.Pokedex.Walk.Refused.{RefusedAs, walk_dirs-RefusedAs}
use sisoputnfrba_tp_2016_2c.Pokedex.Nodes.{
  is_slash, is_child, list_loop, unlock_blocks, name_buffer, listing, read_dir, osada_readdir,
}

-- An entry of the table that is in use and has the parent `pb`, apart from the parent itself.
abbrev pub is_entry : Place → Server → ℕ → Bool
is_entry pb s pos =
    not (is_at pb pos) && (in_use (s.table pos).state && is_at pb (s.table pos).parent_directory)

-- Those from `pos` on, `n` of them, with their names.
unfoldable pub children : ℕ → ℕ → Place → Server → List (ℕ × List ℕ)
children zero pos pb s = []
children (suc n) pos pb s =
    let rest = children n (pos + 1) pb s in
    if is_entry pb s pos then (pos, file_name (s.table pos)) ∷ rest else rest

-- The locks of the entries listed are taken in order.
unfoldable lock_all : List (ℕ × List ℕ) → Server → Server
lock_all [] s = s
lock_all ((p, n) ∷ ps) s = lock_all ps (semaphore_lock lock_read p s)

children-locks :
    (n pos : ℕ) (pb : Place) (t : LockType) (p : ℕ) (s : Server)
    → children n pos pb (semaphore_lock t p s) ≡ children n pos pb s
unfolding children
children-locks zero pos pb t p s = refl
children-locks (suc n) pos pb t p s = rw (children-locks n (pos + 1) pb t p s)

list_loop-children :
    (n pos : ℕ) (pb : Place) (s : Server)
    → list_loop n pos pb s ≡ (children n pos pb s, lock_all (children n pos pb s) s)
unfolding list_loop children lock_all is_child
list_loop-children zero pos pb s = refl
list_loop-children (suc n) pos pb s = elim (Bool-cases (is_entry pb s pos)) [
  | inl child ↦ rw (
    child,
    list_loop-children n (pos + 1) pb (semaphore_lock lock_read pos s),
    children-locks n (pos + 1) pb lock_read pos s,
  )
  | inr other ↦
      rw
        (other, pass_entry_same lock_read (is_at pb pos) pos s, list_loop-children n (pos + 1) pb s)
]

give_lock-other :
    (p q : ℕ) (t : LockType) (l : Locks)
    → (p == q) ≡ false
    → give_lock p (take_lock t q l) ≡ take_lock t q (give_lock p l)
give_lock-other p q t l ne = ground arith

-- All positions listed lie behind `p`.
abbrev Behind : ℕ → List (ℕ × List ℕ) → Type 0
Behind p [] = Unit {0}
Behind p ((q, n) ∷ ps) = (p < q) × Behind p ps

Behind-children : (n pos p : ℕ) (pb : Place) (s : Server) → p < pos → Behind p (children n pos pb s)
unfolding children
Behind-children zero pos p pb s h = tt
Behind-children (suc n) pos p pb s h = elim (Bool-cases (is_entry pb s pos)) [
  | inl child ↦ rw child (h, Behind-children n (pos + 1) p pb s (omega arith))
  | inr other ↦ rw other (Behind-children n (pos + 1) p pb s (omega arith))
]

-- The lock of an entry before the ones listed is given back as if theirs were not taken.
unlock-lock_all :
    (p : ℕ) (ps : List (ℕ × List ℕ)) (s : Server)
    → Behind p ps
    → semaphore_unlock (at p) (lock_all ps s) ≡ lock_all ps (semaphore_unlock (at p) s)
unfolding lock_all
unlock-lock_all p [] s b = refl
unlock-lock_all p ((q, n) ∷ ps) s (lt, b) =
    let ne : (p == q) ≡ false = ground arith in
    unlock-lock_all p ps (semaphore_lock lock_read q s) b
    ∙ ap (λ l. lock_all ps (record s { locks = l })) (give_lock-other p q lock_read s.locks ne)

-- Every lock of the listing is given back.
unlock_blocks-children :
    (n pos : ℕ) (pb : Place) (s u : Server)
    → unlock_blocks (children n pos pb s) (lock_all (children n pos pb s) u) ≡ u
unfolding children unlock_blocks lock_all
unlock_blocks-children zero pos pb s u = refl
unlock_blocks-children (suc n) pos pb s u = elim (Bool-cases (is_entry pb s pos)) [
  | inl child ↦ rw child (
      ap (unlock_blocks (children n (pos + 1) pb s)) (
        unlock-lock_all pos (children n (pos + 1) pb s) (semaphore_lock lock_read pos u)
          (Behind-children n (pos + 1) pos pb s (omega arith))
        ∙ ap (lock_all (children n (pos + 1) pb s)) (pass_entry_same lock_read false pos u))
      ∙ unlock_blocks-children n (pos + 1) pb s u)
  | inr other ↦ rw other (unlock_blocks-children n (pos + 1) pb s u)
]

-- What the answer says of the entries listed.
unfoldable pub names_of : List (ℕ × List ℕ) → Answer
names_of [] = code emptydir
names_of (x ∷ xs) = names (name_buffer (x ∷ xs))

listing-children :
    (pb : Place) (xs : List (ℕ × List ℕ)) (s : Server)
    → unlock_blocks xs (lock_all xs s) ≡ s
    → listing pb (xs, lock_all xs s) ≡ (names_of xs, unlock_parent pb s)
unfolding listing names_of unlock_blocks lock_all
listing-children pb [] s e = refl
listing-children pb (x ∷ xs) s e = rw e

-- The ends of osada_readdir: the path is "/" or has no word, its words lead over directories to a
-- directory, or to none.
pub data Listed (s : Server) (path : List ℕ) : Answer × Server → Type 0 where
  of_root :
      (is_slash path ≡ true) ⊎ (tokens path ≡ [])
      → Listed s path (names_of (children file_blocks_mount 0 (at root) s), s)
  of_dir :
      (p : ℕ)
      → p < file_blocks_mount
      → Leads s.table (IsDir s) (IsDir s) p (tokens path) (at root)
      → Listed s path (names_of (children file_blocks_mount 0 (at p) s), s)
  no_dir :
      NoWay s.table (IsDir s) (IsDir s) (tokens path) (at root) → Listed s path (code enotdir, s)

read_dir-children :
    (pb : Place) (s : Server)
    → read_dir (Walk.arrived pb s)
      ≡ (names_of (children file_blocks_mount 0 pb s), unlock_parent pb s)
unfolding read_dir
read_dir-children pb s =
    ap (listing pb) (list_loop-children file_blocks_mount 0 pb s)
    ∙ listing-children pb (children file_blocks_mount 0 pb s) s
        (unlock_blocks-children file_blocks_mount 0 pb s s)

Ends-Listed :
    {s : Server} {w : Walk} (path : List ℕ)
    → Ends s (IsDir s) (IsDir s) Never (tokens path) (at root) w
    → RefusedAs enotdir w
    → Listed s path (read_dir w)
unfolding read_dir
Ends-Listed {s} path (ends_at t p l d k) only =
    let not_root : (p == root) ≡ false = ground arith in
    rw
      (
        read_dir-children (at p) (semaphore_lock t p s),
        not_root,
        give_lock-take_lock t p s.locks,
        children-locks file_blocks_mount 0 (at p) t p s,
      )
      (of_dir p l k)
Ends-Listed path (ends_refused c m n) only = rw only (no_dir m)
Ends-Listed path (ends_astray t p l never k) only = elim never [ ]

words-Listed :
    (path : List ℕ) (words : List (List ℕ)) (s : Server)
    → tokens path ≡ words
    → Listed s path (read_dir (walk_dirs words (at root) s))
unfolding walk_dirs
words-Listed path [] s e = rw (read_dir-children (at root) s) (of_root (inr e))
words-Listed path (word ∷ words) s e =
    Ends-Listed path (rw e (walk_dirs-Ends s word words))
      (walk_dirs-RefusedAs (word ∷ words) (at root) s)

pub osada_readdir-Listed : (path : List ℕ) (s : Server) → Listed s path (osada_readdir path s)
unfolding osada_readdir
osada_readdir-Listed path s = elim (Bool-cases (is_slash path)) [
  | inl slash ↦ rw (slash, read_dir-children (at root) s) (of_root (inl slash))
  | inr other ↦ rw other (words-Listed path (tokens path) s refl)
]
