-- ===== src/Pokedex/Client/Answered.antt =====
-- pokedex-server.c: the answers of the handlers, as the client has to read them.
use sisoputnfrba_tp_2016_2c.Base.{
  ℕ, ◌≡◌, refl, true, false, Bool, List, [], ◌∷◌, if◌then◌else◌, length, ltb,
}
use sisoputnfrba_tp_2016_2c.Pokedex.State.{
  FileState, deleted, regular, directory, Place, at, fail, Server, root, filename_length, lock_read,
  unlock_parent,
}
use sisoputnfrba_tp_2016_2c.Pokedex.Search.{Env, search_node, search_dir, create_dir, create_node}
use sisoputnfrba_tp_2016_2c.Pokedex.Walk.{
  Answer, code, silence, unset, Walk, arrived, refused, astray, tokens,
}
use sisoputnfrba_tp_2016_2c.Pokedex.Walk.Refused.{on_place-both}
use sisoputnfrba_tp_2016_2c.Pokedex.Nodes.{
  is_slash, is_enospc, made_dir, mkdir_loop, osada_mkdir, made_node, mknod_last, mknod_loop,
  osada_mknod, remove_dir, osada_rmdir, rename_move, rename_onto, rename_last, rename_loop,
  rename_from, osada_rename,
}

-- An answer of one byte, or none that is known.
abbrev pub IsCode : Answer → Type 0
IsCode (code c) = Unit {0}
IsCode silence = Unit {0}
IsCode unset = Unit {0}
IsCode a = ⊥

pub if-both :
    {A : Type 0} (P : A → Type 0) (b : Bool) (x y : A) → P x → P y → P (if b then x else y)
if-both P true x y h g = h
if-both P false x y h g = g

pub data Coded (r : Answer × Server) : Type 0 where
  is_code : IsCode r.0 → Coded r

made_dir-Coded :
    (here : Place) (go : Place → Server → Answer × Server) (r : Place × Server)
    → ((q : Place) (s : Server) → Coded (go q s))
    → Coded (made_dir here go r)
made_dir-Coded here go (made, s) h = if-both Coded (is_enospc here) _ _ (is_code tt) (h made _)

mkdir_loop-Coded :
    (e : Env) (words : List (List ℕ)) (here : Place) (s : Server)
    → Coded (mkdir_loop e words here s)
unfolding mkdir_loop
mkdir_loop-Coded e [] here s = is_code tt
mkdir_loop-Coded e (word ∷ words) here s =
    on_place-both Coded (search_dir word here lock_read here s) _ _
      (λ p s'. mkdir_loop-Coded e words (at p) _)
      λ s'.
        if-both Coded (ltb filename_length (length word)) _ _ (is_code tt)
          (made_dir-Coded here _ (create_dir e word here s') λ q t. mkdir_loop-Coded e words q t)

pub osada_mkdir-Coded : (e : Env) (path : List ℕ) (s : Server) → Coded (osada_mkdir e path s)
unfolding osada_mkdir
osada_mkdir-Coded e path s =
    if-both Coded (is_slash path) _ _ (is_code tt) (mkdir_loop-Coded e (tokens path) (at root) s)

made_node-Coded : (here : Place) (r : Place × Server) → Coded (made_node here r)
made_node-Coded here (at p, s) = is_code tt
made_node-Coded here (fail c, s) = is_code tt

mknod_last-Coded :
    (e : Env) (words : List (List ℕ)) (word : List ℕ) (here : Place) (s : Server)
    → Coded (mknod_last e words word here s)
unfolding mknod_last
mknod_last-Coded e [] word here s =
    if-both Coded (ltb filename_length (length word)) _ _ (is_code tt)
      (made_node-Coded here (create_node e word here s))
mknod_last-Coded e (w ∷ words) word here s = is_code tt

mknod_loop-Coded :
    (e : Env) (words : List (List ℕ)) (here : Place) (s : Server)
    → Coded (mknod_loop e words here s)
unfolding mknod_loop
mknod_loop-Coded e [] here s = is_code tt
mknod_loop-Coded e (word ∷ words) here s =
    on_place-both Coded (search_dir word here lock_read here s) _ _
      (λ p s'. mknod_loop-Coded e words (at p) _) λ s'. mknod_last-Coded e words word here s'

remove_dir-Coded : (w : Walk) → Coded (remove_dir w)
unfolding remove_dir
remove_dir-Coded (arrived (at p) s) = is_code tt
remove_dir-Coded (arrived (fail c) s) = is_code tt
remove_dir-Coded (refused c s) = is_code tt
remove_dir-Coded (astray here s) = is_code tt

rename_move-Coded :
    (from : ℕ) (word : List ℕ) (to : Place) (s : Server) → Coded (rename_move from word to s)
unfolding rename_move
rename_move-Coded from word to s =
    if-both Coded (ltb filename_length (length word)) _ _ (is_code tt) (is_code tt)

rename_onto-Coded :
    (e : Env) (from found : ℕ) (to : Place) (s : Server) (k : FileState)
    → (s.table found).state ≡ k
    → Coded (rename_onto e from found to s)
unfolding rename_onto
rename_onto-Coded e from found to s deleted h = rw (rename_onto, h) (is_code tt)
rename_onto-Coded e from found to s regular h = rw (rename_onto, h) (is_code tt)
rename_onto-Coded e from found to s directory h = rw (rename_onto, h) (is_code tt)

rename_last-Coded :
    (e : Env) (from : ℕ) (words : List (List ℕ)) (word : List ℕ) (to : Place) (s : Server)
    → Coded (rename_last e from words word to s)
unfolding rename_last
rename_last-Coded e from [] word to s =
    on_place-both Coded (search_node word to lock_read (at from) s) _ _
      (λ p s'. rename_onto-Coded e from p to (unlock_parent to s') _ refl)
      λ s'. rename_move-Coded from word to _
rename_last-Coded e from (w ∷ words) word to s = is_code tt

rename_loop-Coded :
    (e : Env) (from : ℕ) (words : List (List ℕ)) (to : Place) (s : Server)
    → Coded (rename_loop e from words to s)
unfolding rename_loop
rename_loop-Coded e from [] to s = is_code tt
rename_loop-Coded e from (word ∷ words) to s =
    on_place-both Coded (search_dir word to lock_read (at from) s) _ _
      (λ p s'. rename_loop-Coded e from words (at p) _)
      λ s'. rename_last-Coded e from words word to s'

rename_from-Coded :
    (e : Env) (olds news : List (List ℕ)) (w : Walk) → Coded (rename_from e olds news w)
unfolding rename_from
rename_from-Coded e olds news (arrived (at p) s) = rename_loop-Coded e p news (at root) s
rename_from-Coded e olds news (arrived (fail c) s) = is_code tt
rename_from-Coded e olds news (refused c s) = is_code tt
rename_from-Coded e [] news (astray here s) = is_code tt
rename_from-Coded e (w ∷ olds) news (astray (at p) s) = rename_loop-Coded e p news (at root) s
rename_from-Coded e (w ∷ olds) news (astray (fail c) s) = is_code tt

pub osada_mknod-Coded : (e : Env) (path : List ℕ) (s : Server) → Coded (osada_mknod e path s)
unfolding osada_mknod
osada_mknod-Coded e path s = mknod_loop-Coded e (tokens path) (at root) s

pub osada_rmdir-Coded : (path : List ℕ) (s : Server) → Coded (osada_rmdir path s)
unfolding osada_rmdir
osada_rmdir-Coded path s = if-both Coded (is_slash path) _ _ (is_code tt) (remove_dir-Coded _)

pub osada_rename-Coded :
    (e : Env) (old new : List ℕ) (s : Server) → Coded (osada_rename e old new s)
unfolding osada_rename
osada_rename-Coded e old new s = rename_from-Coded e (tokens old) (tokens new) _
