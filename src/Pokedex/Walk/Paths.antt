-- ===== src/Pokedex/Walk/Paths.antt =====
-- Where the walks over a path end, and which locks they leave.
use sisoputnfrba_tp_2016_2c.Base.{ℕ, ◌≡◌, refl, List, [], ◌∷◌}
use sisoputnfrba_tp_2016_2c.Pokedex.State.{
  root, enoent, enotdir, Place, at, lock_read, lock_write, FileState, deleted, regular, directory,
  Server,
}
use sisoputnfrba_tp_2016_2c.Pokedex.Search.Wanted.{search_node-Searched, search_dir-SearchedDir}
use sisoputnfrba_tp_2016_2c.Pokedex.Walk.{
  Walk, walk_nodes, walk_file, last_node, walk_dirs, walk_rmdir,
}
use sisoputnfrba_tp_2016_2c.Pokedex.Walk.Steps.{
  Holding, nothing, one, unlock_parent-child, unlock_parent-Holding, Holding-table, Child,
  Holding-Child, Child-Holding, Child-is_at, node_case, dir_case,
}
use sisoputnfrba_tp_2016_2c.Pokedex.Walk.Leads.{
  IsRegular, IsDir, InUse, Never, last, Ends, ends_at, ends_refused, ends_astray, NoWay-Never,
  NoWay-Child, NoWay-last, NoWay-via, Ends-step,
}

regular_of : (f : FileState) → (f ≡ deleted → ⊥) → (f ≡ directory → ⊥) → f ≡ regular
regular_of deleted u d = absurd (u refl)
regular_of regular u d = refl
regular_of directory u d = absurd (d refl)

module _ (s : Server) where
  -- No directory stands there, with the locks or without them.
  abbrev NoDir : List ℕ → Place → Type 0
  NoDir word here = (p : ℕ) → Child s.table word here p → IsDir s p → ⊥

  NoDir-Holding :
      {s' : Server} {here : Place} (word : List ℕ)
      → Holding s here s'
      → ((p : ℕ) → Child s'.table word here p → (s'.table p).state ≡ directory → ⊥)
      → NoDir word here
  NoDir-Holding word h none p c d = none p (Holding-Child word p h c) (rw (Holding-table h p) d)

  abbrev ByNodes : List (List ℕ) → Place → Walk → Type 0
  ByNodes words here w = Ends s (InUse s) (InUse s) Never words here w

  nodes_go :
      (words : List (List ℕ)) (word : List ℕ) {s' : Server} {here : Place}
      → Holding s here s'
      → ByNodes (word ∷ words) here (walk_nodes (word ∷ words) here s')
  unfolding walk_nodes
  nodes_go [] word {s'} {here} h =
      node_case (ByNodes (word ∷ []) here) word lock_read here s' _ _
        (search_node-Searched word here lock_read here s')
        (λ p c'.
          let c = Child-Holding word p h c' in
          rw (unlock_parent-child lock_read p h (Child-is_at s.table word here p c))
            (ends_at lock_read p c.inside c.wanted.used (last word here c c.wanted.used)))
        (λ none. rw (unlock_parent-Holding h) (
          ends_refused enoent
            (NoWay-Child s.table _ _ word [] here λ q c. none q (Holding-Child word q h c))
            (NoWay-Never s.table _ _ here)))
  nodes_go (next ∷ words) word {s'} {here} h =
      node_case (ByNodes (word ∷ next ∷ words) here) word lock_read here s' _ _
        (search_node-Searched word here lock_read here s')
        (λ p c'.
          let c = Child-Holding word p h c' in
          rw (unlock_parent-child lock_read p h (Child-is_at s.table word here p c)) (
            Ends-step word next words here p c c.wanted.used
              (nodes_go words next (one lock_read p c.inside))))
        (λ none. rw (unlock_parent-Holding h) (
          ends_refused enoent
            (NoWay-Child s.table _ _ word _ here λ q c. none q (Holding-Child word q h c))
            (NoWay-Never s.table _ _ here)))

  abbrev ByFiles : List (List ℕ) → Place → Walk → Type 0
  ByFiles words here w = Ends s (IsDir s) (IsRegular s) (IsDir s) words here w

  last_go :
      {s' : Server} {here : Place} (word : List ℕ) (words : List (List ℕ))
      → Holding s here s'
      → NoDir word here
      → ByFiles (word ∷ words) here (last_node words word here s')
  unfolding last_node
  last_go {s'} {here} word [] h no_dir =
      node_case (ByFiles (word ∷ []) here) word lock_write here s' _ _
        (search_node-Searched word here lock_write here s')
        (λ p c'.
          let c = Child-Holding word p h c' in
          let g = regular_of (s.table p).state c.wanted.used (no_dir p c) in
          rw (unlock_parent-child lock_write p h (Child-is_at s.table word here p c))
            (ends_at lock_write p c.inside g (last word here c g)))
        (λ none. rw (unlock_parent-Holding h) (
          ends_refused enoent
            (NoWay-Child s.table _ _ word [] here λ q c. none q (Holding-Child word q h c))
            (NoWay-Child s.table _ _ word [] here λ q c. none q (Holding-Child word q h c))))
  last_go {s'} {here} word (next ∷ words) h no_dir = rw (unlock_parent-Holding h) (
      ends_refused enoent (NoWay-via s.table _ _ word next words here no_dir)
        (NoWay-via s.table _ _ word next words here no_dir))

  file_go :
      (words : List (List ℕ)) (word : List ℕ) {s' : Server} {here : Place}
      → Holding s here s'
      → ByFiles (word ∷ words) here (walk_file (word ∷ words) here s')
  unfolding walk_file
  file_go [] word {s'} {here} h =
      dir_case (ByFiles (word ∷ []) here) word lock_read here s' _ _
        (search_dir-SearchedDir word here lock_read here s')
        (λ p c' d'.
          let c = Child-Holding word p h c' in
          let d : IsDir s p = rw (← Holding-table h p) d' in
          rw (unlock_parent-child lock_read p h (Child-is_at s.table word here p c))
            (ends_astray lock_read p c.inside d (last word here c d)))
        (λ none. last_go word [] h (NoDir-Holding word h none))
  file_go (next ∷ words) word {s'} {here} h =
      dir_case (ByFiles (word ∷ next ∷ words) here) word lock_read here s' _ _
        (search_dir-SearchedDir word here lock_read here s')
        (λ p c' d'.
          let c = Child-Holding word p h c' in
          let d : IsDir s p = rw (← Holding-table h p) d' in
          rw (unlock_parent-child lock_read p h (Child-is_at s.table word here p c))
            (Ends-step word next words here p c d (file_go words next (one lock_read p c.inside))))
        (λ none. last_go word (next ∷ words) h (NoDir-Holding word h none))

  abbrev ByDirs : List (List ℕ) → Place → Walk → Type 0
  ByDirs words here w = Ends s (IsDir s) (IsDir s) Never words here w

  no_dirs :
      {here : Place} (word : List ℕ) (words : List (List ℕ))
      → NoDir word here
      → ByDirs (word ∷ words) here (Walk.refused enotdir s)
  no_dirs {here} word [] none =
      ends_refused enotdir (NoWay-last s.table _ _ word here none) (NoWay-Never s.table _ _ here)
  no_dirs {here} word (next ∷ words) none =
      ends_refused enotdir (NoWay-via s.table _ _ word next words here none)
        (NoWay-Never s.table _ _ here)

  dirs_go :
      (words : List (List ℕ)) (word : List ℕ) {s' : Server} {here : Place}
      → Holding s here s'
      → ByDirs (word ∷ words) here (walk_dirs (word ∷ words) here s')
  unfolding walk_dirs
  dirs_go [] word {s'} {here} h =
      dir_case (ByDirs (word ∷ []) here) word lock_read here s' _ _
        (search_dir-SearchedDir word here lock_read here s')
        (λ p c' d'.
          let c = Child-Holding word p h c' in
          let d : IsDir s p = rw (← Holding-table h p) d' in
          rw (unlock_parent-child lock_read p h (Child-is_at s.table word here p c))
            (ends_at lock_read p c.inside d (last word here c d)))
        (λ none. rw (unlock_parent-Holding h) (no_dirs word [] (NoDir-Holding word h none)))
  dirs_go (next ∷ words) word {s'} {here} h =
      dir_case (ByDirs (word ∷ next ∷ words) here) word lock_read here s' _ _
        (search_dir-SearchedDir word here lock_read here s')
        (λ p c' d'.
          let c = Child-Holding word p h c' in
          let d : IsDir s p = rw (← Holding-table h p) d' in
          rw (unlock_parent-child lock_read p h (Child-is_at s.table word here p c))
            (Ends-step word next words here p c d (dirs_go words next (one lock_read p c.inside))))
        (λ none.
          rw (unlock_parent-Holding h) (no_dirs word (next ∷ words) (NoDir-Holding word h none)))

  rmdir_go :
      (words : List (List ℕ)) (word : List ℕ) {s' : Server} {here : Place}
      → Holding s here s'
      → ByDirs (word ∷ words) here (walk_rmdir (word ∷ words) here s')
  unfolding walk_rmdir
  rmdir_go [] word {s'} {here} h =
      dir_case (ByDirs (word ∷ []) here) word lock_write here s' _ _
        (search_dir-SearchedDir word here lock_write here s')
        (λ p c' d'.
          let c = Child-Holding word p h c' in
          let d : IsDir s p = rw (← Holding-table h p) d' in
          rw (unlock_parent-child lock_write p h (Child-is_at s.table word here p c))
            (ends_at lock_write p c.inside d (last word here c d)))
        (λ none. rw (unlock_parent-Holding h) (no_dirs word [] (NoDir-Holding word h none)))
  rmdir_go (next ∷ words) word {s'} {here} h =
      dir_case (ByDirs (word ∷ next ∷ words) here) word lock_read here s' _ _
        (search_dir-SearchedDir word here lock_read here s')
        (λ p c' d'.
          let c = Child-Holding word p h c' in
          let d : IsDir s p = rw (← Holding-table h p) d' in
          rw (unlock_parent-child lock_read p h (Child-is_at s.table word here p c))
            (Ends-step word next words here p c d (rmdir_go words next (one lock_read p c.inside))))
        (λ none.
          rw (unlock_parent-Holding h) (no_dirs word (next ∷ words) (NoDir-Holding word h none)))

  -- The walk of osada_getattr and osada_read from the root, over one word at least.
  pub walk_nodes-Ends :
      (word : List ℕ) (words : List (List ℕ))
      → ByNodes (word ∷ words) (at root) (walk_nodes (word ∷ words) (at root) s)
  walk_nodes-Ends word words = nodes_go words word nothing

  -- The walk of osada_write, osada_truncate, osada_unlink and osada_rename.
  pub walk_file-Ends :
      (word : List ℕ) (words : List (List ℕ))
      → ByFiles (word ∷ words) (at root) (walk_file (word ∷ words) (at root) s)
  walk_file-Ends word words = file_go words word nothing

  -- The walk of osada_readdir.
  pub walk_dirs-Ends :
      (word : List ℕ) (words : List (List ℕ))
      → ByDirs (word ∷ words) (at root) (walk_dirs (word ∷ words) (at root) s)
  walk_dirs-Ends word words = dirs_go words word nothing

  -- The walk of osada_rmdir.
  pub walk_rmdir-Ends :
      (word : List ℕ) (words : List (List ℕ))
      → ByDirs (word ∷ words) (at root) (walk_rmdir (word ∷ words) (at root) s)
  walk_rmdir-Ends word words = rmdir_go words word nothing
