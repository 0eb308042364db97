-- ===== src/Pokedex/Files/Handled.antt =====
-- How a handler that works on one regular file ends, whatever the path of its request is.
use sisoputnfrba_tp_2016_2c.Base.{ℕ, ◌<◌, ◌≤◌, ◌≡◌, refl, List, [], ◌∷◌, some, length}
use sisoputnfrba_tp_2016_2c.Pokedex.State.{
  file_blocks_mount, root, Status, at, LockType, Server, semaphore_lock,
}
use sisoputnfrba_tp_2016_2c.Pokedex.Blocks.Count.{length-Distinct}
use sisoputnfrba_tp_2016_2c.Pokedex.Content.{Outcome, at_file}
use sisoputnfrba_tp_2016_2c.Pokedex.Walk.{Answer, code, unset, Walk, tokens, walk_file}
use sisoputnfrba_tp_2016_2c.Pokedex.Walk.Leads.{
  IsRegular, IsDir, Leads, NoWay, Ends, ends_at, ends_refused, ends_astray,
}
use sisoputnfrba_tp_2016_2c.Pokedex.Walk.Paths.{walk_file-Ends}
use sisoputnfrba_tp_2016_2c.Pokedex.Files.Spec.{IsFile, Consistent}

-- The four ends: the words of the path lead over directories to the regular file `p`, which is
-- worked on; they lead neither to a regular file nor to a directory, and nothing has changed; they
-- lead to a directory, whose lock stays with the thread; there is no word.
pub data Handled (s : Server) (words : List (List ℕ)) (Done : ℕ → Answer × Server → Type 0)
    : Answer × Server → Type 0 where
  done :
      (p : ℕ) {r : Answer × Server}
      → p < file_blocks_mount
      → IsRegular s p
      → Leads s.table (IsDir s) (IsRegular s) p words (at root)
      → Done p r
      → Handled s words Done r
  rejected :
      (c : Status)
      → NoWay s.table (IsDir s) (IsRegular s) words (at root)
      → NoWay s.table (IsDir s) (IsDir s) words (at root)
      → Handled s words Done (code c, s)
  stuck :
      (t : LockType) (p : ℕ)
      → p < file_blocks_mount
      → Leads s.table (IsDir s) (IsDir s) p words (at root)
      → Handled s words Done (unset, semaphore_lock t p s)
  no_word : words ≡ [] → Handled s words Done (unset, s)

abbrev pub EndsAs : Outcome → (Answer × Server → Type 0) → Type 0
EndsAs o P = (r : Answer × Server) × (o ≡ some r) × P r

module _ {s : Server} {Done : ℕ → Answer × Server → Type 0} (go : ℕ → Server → Outcome)
    (works : (t : LockType) (p : ℕ)
      → p < file_blocks_mount
      → IsRegular s p
      → EndsAs (go p (semaphore_lock t p s)) (Done p)) where
  Ends-Handled :
      {w : Walk} (words : List (List ℕ))
      → Ends s (IsDir s) (IsRegular s) (IsDir s) words (at root) w
      → EndsAs (at_file w go) (Handled s words Done)
  Ends-Handled words (ends_at t p l g k) =
      let (r, run, d) = works t p l g in (r, run, done p l g k d)
  Ends-Handled words (ends_refused c m n) = ((code c, s), refl, rejected c m n)
  Ends-Handled words (ends_astray t p l d k) = ((unset, semaphore_lock t p s), refl, stuck t p l k)

  walk-Handled :
      (words : List (List ℕ))
      → EndsAs (at_file (walk_file words (at root) s) go) (Handled s words Done)
  unfolding walk_file
  walk-Handled [] = ((unset, s), refl, no_word refl)
  walk-Handled (word ∷ words) = Ends-Handled (word ∷ words) (walk_file-Ends s word words)

  -- A handler that ends on every regular file ends on every path.
  pub at_file-Handled :
      (path : List ℕ)
      → EndsAs (at_file (walk_file (tokens path) (at root) s) go) (Handled s (tokens path) Done)
  at_file-Handled path = walk-Handled (tokens path)

module _ {s : Server} {blocks : ℕ → List ℕ} (c : Consistent s blocks) (p : ℕ)
    (l : p < file_blocks_mount) (reg : IsRegular s p) where
  -- The file that a handler has locked.
  pub IsFile-at : (t : LockType) → IsFile (semaphore_lock t p s) p (blocks p)
  IsFile-at t = let f = c.files p l (rw reg) in record { chain = f.chain; sized = f.sized }

  pub length-blocks-le : length (blocks p) ≤ s.data_size
  length-blocks-le =
      let f = c.files p l (rw reg) in
      length-Distinct s.data_size (blocks p) f.chain.distinct f.chain.inside
