-- ===== src/Pokedex/Files/Write.antt =====
-- osada_write on a consistent file system.
use sisoputnfrba_tp_2016_2c.Base.{
  ℕ, ◌+◌, ◌/◌, ◌%◌, ◌^◌, ◌<◌, ◌≤◌, ◌≡◌, refl, ◌∙◌, inl, inr, false, List, [], ◌++◌, some, none,
  arith, ==_refl, ltb, Bool-cases, if◌then◌else◌, length, sym, subst, ltb→lt,
}
use mathlib.Core.List.{append-nil}
use sisoputnfrba_tp_2016_2c.Pokedex.State.{
  block_size, end_of_file, sexe, enospc, at, Server, semaphore_unlock, set_file,
}
use sisoputnfrba_tp_2016_2c.Pokedex.Search.{Env}
use sisoputnfrba_tp_2016_2c.Pokedex.Blocks.{chain_of}
use sisoputnfrba_tp_2016_2c.Pokedex.Blocks.Chains.{has}
use sisoputnfrba_tp_2016_2c.Pokedex.Blocks.Sizes.{necessary_blocks_lem}
use sisoputnfrba_tp_2016_2c.Pokedex.Content.{
  finish, set_size, store_bytes, expand, first_block_of, write_file,
}
use sisoputnfrba_tp_2016_2c.Pokedex.Walk.{Answer, code}
use sisoputnfrba_tp_2016_2c.Pokedex.Files.Spec.{IsFile}
use sisoputnfrba_tp_2016_2c.Pokedex.Files.Leaves.{Leaves, Kept}
use sisoputnfrba_tp_2016_2c.Pokedex.Files.Handled.{Handled, EndsAs}
use sisoputnfrba_tp_2016_2c.Pokedex.Files.Growth.{
  store_bytes-StoredAt, first_block_of-Reaches, Leaves-blocks, Written, stored, no_room, expand_end,
}

-- Giving back the lock changes nothing else.
unchanged :
    (u : Server) (p : ℕ) (bs : List ℕ)
    → IsFile u p bs
    → Leaves u (semaphore_unlock (at p) u) p (u.table p).file_size bs bs
unchanged u p bs f = record {
  touches = record {
    others = λ r ne. refl;
    size = refl;
    splice = record { words = λ q a b. refl; bits = λ q a b. a; fresh = λ q a b. ground arith };
  };
  is_file = record { chain = f.chain; sized = f.sized };
  size = refl;
  state = refl;
  locks = refl;
}

-- The server with the time of the last change written.
abbrev stamped : ℕ → ℕ → Server → Server
stamped now p s = set_file p (record (s.table p) { lastmod = now }) s

IsFile-stamped :
    (now p : ℕ) (s : Server) (bs : List ℕ) → IsFile s p bs → IsFile (stamped now p s) p bs
IsFile-stamped now p s bs f = record {
  chain = record {
    follows = rw ==_refl f.chain.follows;
    distinct = f.chain.distinct;
    busy = f.chain.busy;
    inside = f.chain.inside;
  };
  sized = rw ==_refl f.sized;
}

Leaves-stamped :
    (now p n : ℕ) (s s' : Server) (bs bs' : List ℕ)
    → Leaves (stamped now p s) s' p n bs bs'
    → Leaves s s' p n bs bs'
Leaves-stamped now p n s s' bs bs' l = record {
  touches = record {
    others = λ r ne. l.touches.others r ne ∙ ground arith;
    size = l.touches.size;
    splice = record {
      words = l.touches.splice.words;
      bits = l.touches.splice.bits;
      fresh = l.touches.splice.fresh;
    };
  };
  is_file = l.is_file;
  size = l.size;
  state = l.state ∙ ground arith;
  locks = l.locks;
}

Written-stamped :
    (now p n : ℕ) (s : Server) (bs : List ℕ) {r : Answer × Server}
    → Written (stamped now p s) p n bs r
    → Written s p n bs r
Written-stamped now p n s bs (stored s' more l same) =
    stored s' more (Leaves-stamped now p n s s' bs _ l) same
Written-stamped now p n s bs (no_room s' l same) =
    no_room s'
      (Leaves-stamped now p _ s s' bs bs
        (subst (λ k. Leaves (stamped now p s) s' p k bs bs) (ground arith) l))
      same

-- The size of the file behind the write.
abbrev pub size_after : ℕ → ℕ → ℕ
size_after old new = if ltb old new then new else old

module _ (fuel p : ℕ) (e : Env) (bytes : List ℕ) (offset : ℕ) (s : Server) (bs : List ℕ)
    (f : IsFile s p bs) (fits : s.data_size ≤ end_of_file) (h : s.data_size < fuel)
    (some_bytes : 0 < length bytes) (small : offset + length bytes < 2 ^ 31) where
  abbrev now_stamped : Server
  now_stamped = stamped e.now p s

  -- Within the old size the bytes go to the blocks there are.
  within_end :
      offset + length bytes ≤ (now_stamped.table p).file_size
      → EndsAs
          (store_bytes fuel p bytes offset now_stamped)
          (Written now_stamped p (now_stamped.table p).file_size bs)
  within_end le =
      let g = IsFile-stamped e.now p s bs f in
      let reach : offset / block_size < length bs =
        omega (arith, g.sized, necessary_blocks_lem (now_stamped.table p).file_size) in
      let (blocks, run, same) =
        store_bytes-StoredAt fuel p offset bytes now_stamped bs g.chain reach h in
      (
        finish sexe p (record now_stamped { blocks = blocks }),
        run,
        stored _ []
            (Leaves-blocks blocks (
              subst
                (λ l.
                  Leaves now_stamped (semaphore_unlock (at p) now_stamped) p
                    (now_stamped.table p).file_size bs l)
                (sym (append-nil bs)) (unchanged now_stamped p bs g)))
            (λ q a. same q (subst (λ l. has q l ≡ false) (append-nil bs) a)),
      )

  -- Beyond the old size blocks are added, the first one for an empty file.
  abbrev Beyond : ℕ → ℕ → Type 0
  Beyond old new =
      old < offset + length bytes
      → EndsAs
          (elim (first_block_of (chain_of p now_stamped) s.data_size) [
            | none ↦ some (finish enospc p now_stamped)
            | some c ↦ expand fuel p old new bytes offset c (set_size p new now_stamped)
          ])
          (Written now_stamped p (offset + length bytes) bs)

  adds_blocks : Beyond (now_stamped.table p).file_size (offset + length bytes)
  adds_blocks lt =
      let g = IsFile-stamped e.now p s bs f in
      elim (first_block_of-Reaches s.data_size (chain_of p now_stamped) bs g.chain fits) [
        | inl none_free ↦ rw none_free (
          finish enospc p now_stamped,
          refl,
          no_room _ (unchanged now_stamped p bs g) (λ q. refl),
        )
        | inr got ↦
            let (c, b, ds, more, run, x, behind, few, kept) = got in
            rw run (
              expand_end fuel p bytes offset (offset + length bytes) now_stamped bs g fits h
                some_bytes refl small c b ds more x behind
                (omega (
                  arith,
                  g.sized,
                  necessary_blocks_lem (now_stamped.table p).file_size,
                  necessary_blocks_lem (offset + length bytes),
                ))
                lt)
      ]

  -- osada_write behind the walk, on the file `p`.
  pub write_file-Written :
      EndsAs
        (write_file fuel e bytes offset p s)
        (Written s p (size_after (s.table p).file_size (offset + length bytes)) bs)
  unfolding write_file
  write_file-Written =
      let old = (s.table p).file_size in
      let new = offset + length bytes in
      let wrap : new % 2 ^ 32 ≡ new = omega arith in
      let at_p : (now_stamped.table p).file_size ≡ old = ground arith in
      rw wrap (elim (Bool-cases (ltb old new)) [
        | inl beyond ↦
            let beyond_there : Beyond old (new % 2 ^ 32) =
              subst (λ n. Beyond old n) (sym wrap) (subst (λ k. Beyond k new) at_p adds_blocks) in
            let (r, run, w) = beyond_there (ltb→lt old new beyond) in
            rw beyond (r, run, Written-stamped e.now p new s bs w)
        | inr within ↦
            let le : new ≤ (now_stamped.table p).file_size =
              (let l : new ≤ old = ground arith in omega (arith, at_p)) in
            let (r, run, w) = within_end le in
            rw within (
              r,
              run,
              Written-stamped e.now p old s bs (subst (λ n. Written now_stamped p n bs r) at_p w),
            )
      ])

-- The end of osada_write on the file `p` of a consistent file system.
pub data Writing (s : Server) (blocks : ℕ → List ℕ) (new p : ℕ) : Answer × Server → Type 0 where
  wrote :
      (s' : Server) (more : List ℕ)
      → Kept s s' blocks p (size_after (s.table p).file_size new) (blocks p ++ more)
      → ((q : ℕ) → has q (blocks p ++ more) ≡ false → s'.blocks q ≡ s.blocks q)
      → Writing s blocks new p (code sexe, s')
  no_space_left :
      (s' : Server)
      → Kept s s' blocks p (s.table p).file_size (blocks p)
      → ((q : ℕ) → s'.blocks q ≡ s.blocks q)
      → Writing s blocks new p (code enospc, s')
