-- ===== src/Pokedex/Walk/Refused.antt =====
-- pokedex-server.c: the code with which a walk is refused.
use sisoputnfrba_tp_2016_2c.Base.{ℕ, ◌≡◌, refl, List, [], ◌∷◌}
use sisoputnfrba_tp_2016_2c.Pokedex.State.{
  Status, enoent, enotdir, Place, at, fail, Server, root, lock_read, unlock_parent,
}
use sisoputnfrba_tp_2016_2c.Pokedex.Search.{search_node, search_dir}
use sisoputnfrba_tp_2016_2c.Pokedex.Walk.{
  Walk, refused, on_place, walk_nodes, walk_nodes_of, walk_dirs, walk_rmdir, lock_for,
}

-- What holds of both ways on after a search holds of the way taken.
pub on_place-both :
    {A : Type 0} (P : A → Type 0) (r : Place × Server) (found : ℕ → Server → A)
    (missing : Server → A)
    → ((p : ℕ) (s : Server) → P (found p s))
    → ((s : Server) → P (missing s))
    → P (on_place r found missing)
on_place-both P (at p, s) found missing f m = f p s
on_place-both P (fail c, s) found missing f m = m s

-- A walk that is refused with one code only.
abbrev pub RefusedAs : Status → Walk → Type 0
RefusedAs c (refused d s) = d ≡ c
RefusedAs c w = Unit {0}

pub walk_dirs-RefusedAs :
    (words : List (List ℕ)) (here : Place) (s : Server) → RefusedAs enotdir (walk_dirs words here s)
unfolding walk_dirs
walk_dirs-RefusedAs [] here s = tt
walk_dirs-RefusedAs (word ∷ words) here s =
    on_place-both (RefusedAs enotdir) (search_dir word here lock_read here s) _ _
      (λ p s'. walk_dirs-RefusedAs words (at p) (unlock_parent here s')) λ s'. refl

pub walk_nodes-RefusedAs :
    (words : List (List ℕ)) (here : Place) (s : Server) → RefusedAs enoent (walk_nodes words here s)
unfolding walk_nodes
walk_nodes-RefusedAs [] here s = tt
walk_nodes-RefusedAs (word ∷ words) here s =
    on_place-both (RefusedAs enoent) (search_node word here lock_read here s) _ _
      (λ p s'. walk_nodes-RefusedAs words (at p) (unlock_parent here s')) λ s'. refl

pub walk_nodes_of-RefusedAs :
    (words : List (List ℕ)) (s : Server) → RefusedAs enoent (walk_nodes_of words s)
walk_nodes_of-RefusedAs [] s = tt
walk_nodes_of-RefusedAs (word ∷ words) s = walk_nodes-RefusedAs (word ∷ words) (at root) s

pub walk_rmdir-RefusedAs :
    (words : List (List ℕ)) (here : Place) (s : Server)
    → RefusedAs enotdir (walk_rmdir words here s)
unfolding walk_rmdir
walk_rmdir-RefusedAs [] here s = tt
walk_rmdir-RefusedAs (word ∷ words) here s =
    on_place-both (RefusedAs enotdir) (search_dir word here (lock_for words) here s) _ _
      (λ p s'. walk_rmdir-RefusedAs words (at p) (unlock_parent here s')) λ s'. refl
