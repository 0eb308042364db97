-- ===== src/Pokedex/Client/Paths.antt =====
-- pokedex-client.c with pokedex-server.c: what pk_readdir and pk_getattr give to FUSE, over all paths.
use sisoputnfrba_tp_2016_2c.Base.{
  ℕ, zero, suc, ◌+◌, ◌%◌, ◌^◌, ◌<◌, ◌≡◌, refl, true, false, List, [], ◌∷◌, ◌++◌, none, some, arith,
  ap, inl, inr, ◌⊎◌, length, Bool-cases, strcmp, lt→ltb,
}
use sisoputnfrba_tp_2016_2c.Pokedex.State.{
  file_blocks_mount, root, FileState, deleted, regular, directory, Place, at, Server,
}
use sisoputnfrba_tp_2016_2c.Pokedex.Search.{Env, file_name, in_use}
use sisoputnfrba_tp_2016_2c.Pokedex.Walk.{Answer, tokens}
use sisoputnfrba_tp_2016_2c.Pokedex.Walk.Leads.{InUse, IsDir, IsRegular, Leads, NoWay}
use sisoputnfrba_tp_2016_2c.Pokedex.Nodes.{is_slash, attributes, osada_readdir, osada_getattr}
use sisoputnfrba_tp_2016_2c.Pokedex.Nodes.Listing.{
  is_entry, children, names_of, Listed, of_root, of_dir, no_dir, osada_readdir-Listed,
}
use sisoputnfrba_tp_2016_2c.Pokedex.Nodes.Look.{
  Looked, known, unknown, no_word, osada_getattr-Looked,
}
use sisoputnfrba_tp_2016_2c.Pokedex.Requests.{readdir, getattr, Received, perform}
use sisoputnfrba_tp_2016_2c.Pokedex.Requests.Sent.{IsPath}
use sisoputnfrba_tp_2016_2c.Pokedex.Client.{
  ret, minus, e_noent, e_notdir, zeroed, dir_stat, reg_stat, Reply, stats, fills, ask, dots,
  pk_oper,
}
use sisoputnfrba_tp_2016_2c.Pokedex.Client.Answers.{
  known_here, reply_of, readdir_reply, getattr_reply,
}
use sisoputnfrba_tp_2016_2c.Pokedex.Client.Names.{
  IsWord, AllWords, AllNoZero, only_names, split_names-name_buffer,
}
use sisoputnfrba_tp_2016_2c.Pokedex.Client.Listed.{name_bytes-NoZero}
use sisoputnfrba_tp_2016_2c.Pokedex.Client.Net.{deliver, receive_on}
use sisoputnfrba_tp_2016_2c.Pokedex.Client.Replies.{Sends}
use sisoputnfrba_tp_2016_2c.Pokedex.Client.Complete.{perform-IsShort}
use sisoputnfrba_tp_2016_2c.Pokedex.Client.Session.{reply_of-Sends}

-- The names of the entries in use are names that `strtok` keeps whole: not empty, without a comma.
abbrev pub NamesKept : Server → Type 0
NamesKept s = (q : ℕ) → in_use (s.table q).state ≡ true → IsWord (file_name (s.table q))

children-AllNoZero : (n pos : ℕ) (pb : Place) (s : Server) → AllNoZero (children n pos pb s)
unfolding children
children-AllNoZero zero pos pb s = tt
children-AllNoZero (suc n) pos pb s = elim (Bool-cases (is_entry pb s pos)) [
  | inl child ↦
      rw child (name_bytes-NoZero 17 (s.table pos).fname, children-AllNoZero n (pos + 1) pb s)
  | inr other ↦ rw other (children-AllNoZero n (pos + 1) pb s)
]

children-AllWords :
    (n pos : ℕ) (pb : Place) (s : Server)
    → NamesKept s
    → AllWords (only_names (children n pos pb s))
unfolding children
children-AllWords zero pos pb s k = tt
children-AllWords (suc n) pos pb s k = elim (Bool-cases (is_entry pb s pos)) [
  | inl child ↦ rw child (k pos (ground (arith, child)), children-AllWords n (pos + 1) pb s k)
  | inr other ↦ rw other (children-AllWords n (pos + 1) pb s k)
]

-- The names of the entries of a directory, in the order of the table.
abbrev pub names_in : Place → Server → List (List ℕ)
names_in pb s = only_names (children file_blocks_mount 0 pb s)

names_of-reply :
    (ps : List (ℕ × List ℕ))
    → AllNoZero ps
    → AllWords (only_names ps)
    → readdir_reply (names_of ps) ≡ some (fills (ret 0) (dots ++ only_names ps))
unfolding names_of readdir_reply
names_of-reply [] z w = refl
names_of-reply (x ∷ xs) z w = rw (split_names-name_buffer (x ∷ xs) z w)

-- What pk_readdir gives: the path is "/" or has no word, its words lead over directories to a
-- directory, or to none.
pub data Filled (s : Server) (path : List ℕ) : Reply → Type 0 where
  of_the_root :
      (is_slash path ≡ true) ⊎ (tokens path ≡ [])
      → Filled s path (fills (ret 0) (dots ++ names_in (at root) s))
  of_directory :
      (p : ℕ)
      → p < file_blocks_mount
      → Leads s.table (IsDir s) (IsDir s) p (tokens path) (at root)
      → Filled s path (fills (ret 0) (dots ++ names_in (at p) s))
  not_directory :
      NoWay s.table (IsDir s) (IsDir s) (tokens path) (at root)
      → Filled s path (fills (minus e_notdir) dots)

Listed-Filled :
    {s : Server} {path : List ℕ} {r : Answer × Server}
    → NamesKept s
    → Listed s path r
    → (reply : Reply) × (readdir_reply r.0 ≡ some reply) × (r.1 ≡ s) × Filled s path reply
unfolding readdir_reply
Listed-Filled {s} k (of_root o) =
    let ps = children file_blocks_mount 0 (at root) s in
    (
      fills (ret 0) (dots ++ only_names ps),
      names_of-reply ps (children-AllNoZero file_blocks_mount 0 (at root) s)
          (children-AllWords file_blocks_mount 0 (at root) s k),
      refl,
      of_the_root o,
    )
Listed-Filled {s} k (of_dir p l d) =
    let ps = children file_blocks_mount 0 (at p) s in
    (
      fills (ret 0) (dots ++ only_names ps),
      names_of-reply ps (children-AllNoZero file_blocks_mount 0 (at p) s)
          (children-AllWords file_blocks_mount 0 (at p) s k),
      refl,
      of_directory p l d,
    )
Listed-Filled k (no_dir n) = (fills (minus e_notdir) dots, refl, refl, not_directory n)

-- What pk_getattr gives for a path that it asks the server for: its words lead to a regular file, to
-- a directory, or to no entry.
pub data Known (s : Server) (words : List (List ℕ)) : Reply → Type 0 where
  of_file :
      (p : ℕ)
      → p < file_blocks_mount
      → IsRegular s p
      → Leads s.table (InUse s) (InUse s) p words (at root)
      → Known s words (stats (ret 0) (reg_stat ((s.table p).file_size % 2 ^ 32)))
  of_folder :
      (p : ℕ)
      → p < file_blocks_mount
      → IsDir s p
      → Leads s.table (InUse s) (InUse s) p words (at root)
      → Known s words (stats (ret 0) dir_stat)
  of_nothing :
      NoWay s.table (InUse s) (InUse s) words (at root)
      → Known s words (stats (minus e_noent) zeroed)

attributes-Known :
    (s : Server) (words : List (List ℕ)) (p : ℕ) (k : FileState)
    → p < file_blocks_mount
    → (s.table p).state ≡ k
    → InUse s p
    → Leads s.table (InUse s) (InUse s) p words (at root)
    → (reply : Reply) × (getattr_reply (attributes (s.table p)) ≡ some reply) × Known s words reply
unfolding getattr_reply attributes
attributes-Known s words p deleted l h u w = absurd (u h)
attributes-Known s words p regular l h u w = (_, rw (attributes, h), of_file p l h w)
attributes-Known s words p directory l h u w = (_, rw (attributes, h), of_folder p l h w)

Looked-Known :
    {s : Server} {words : List (List ℕ)} {r : Answer × Server}
    → 0 < length words
    → Looked s words r
    → (reply : Reply) × (getattr_reply r.0 ≡ some reply) × (r.1 ≡ s) × Known s words reply
unfolding getattr_reply
Looked-Known {s} some_word (known word words p l u w) =
    let (reply, made, k) = attributes-Known s (word ∷ words) p (s.table p).state l refl u w in
    (reply, made, refl, k)
Looked-Known some_word (unknown word words n) = (_, refl, refl, of_nothing n)
Looked-Known some_word no_word = absurd (omega arith)

asked_of :
    (path : List ℕ)
    → strcmp path (b'/' ∷ []) ≡ false
    → 0 < length path
    → known_here (ask (getattr path)) ≡ none
unfolding known_here
asked_of path other long = rw (other, lt→ltb 0 (length path) long)

module _ (recv : ℕ → List ℕ → Received (List ℕ) (List ℕ)) (fuel : ℕ) (e : Env)
    (waits : (n : ℕ) (bs rest : List ℕ)
      → 0 < n
      → length bs ≡ n
      → recv n (bs ++ rest) ≡ (some bs, rest))
    (gone : recv 1 [] ≡ (none, [])) where
  -- pk_readdir gives to FUSE ".", ".." and the names of exactly the entries of a directory in the
  -- file table of the server, in its order: of the root for "/" and for a path without words, and
  -- otherwise of the directory to which the words of the path lead over directories; where they lead
  -- to none, it gives -ENOTDIR. The server stays as it is, and no byte is left on the way. For a path
  -- that is not empty and without a zero byte, on a server whose names are not empty and hold no
  -- comma.
  pub pk_readdir-Filled :
      (path : List ℕ) (s : Server)
      → IsPath path
      → NamesKept s
      → (reply : Reply) × Sends
          (pk_oper (deliver recv fuel e) (receive_on recv fuel e) (ask (readdir path)))
          s
          reply
          s
        × Filled s path reply
  unfolding perform reply_of known_here
  pk_readdir-Filled path s i k =
      let (reply, made, same, f) = Listed-Filled k (osada_readdir-Listed path s) in
      let run = ap (λ t. some ((osada_readdir path s).0, t)) same in
      let l = perform-IsShort fuel e (readdir path) s s (osada_readdir path s).0 run in
      (
        reply,
        reply_of-Sends recv fuel e waits gone (ask (readdir path)) (osada_readdir path s).0 s s
            reply i refl l run made,
        f,
      )

  -- pk_getattr gives to FUSE, where the words of the path lead to an entry in use of the file table of
  -- the server, the stat of a regular file with its size modulo 2^32, or the one of a directory; and
  -- -ENOENT where they lead to none. The server stays as it is, and no byte is left on the way. For a
  -- path without a zero byte that has a word and is not asked for "/".
  pub pk_getattr-Known :
      (path : List ℕ) (s : Server)
      → IsPath path
      → strcmp path (b'/' ∷ []) ≡ false
      → 0 < length (tokens path)
      → (reply : Reply) × Sends
          (pk_oper (deliver recv fuel e) (receive_on recv fuel e) (ask (getattr path)))
          s
          reply
          s
        × Known s (tokens path) reply
  unfolding perform reply_of
  pk_getattr-Known path s i other words =
      let (reply, made, same, f) = Looked-Known words (osada_getattr-Looked path s) in
      let run = ap (λ t. some ((osada_getattr path s).0, t)) same in
      let l = perform-IsShort fuel e (getattr path) s s (osada_getattr path s).0 run in
      let asks = asked_of path other i.some_bytes in
      (
        reply,
        reply_of-Sends recv fuel e waits gone (ask (getattr path)) (osada_getattr path s).0 s s
            reply i asks l run made,
        f,
      )
