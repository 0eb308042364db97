-- ===== src/Pokedex/Files/Truncate.antt =====
-- osada_truncate on a consistent file system.
use sisoputnfrba_tp_2016_2c.Base.{
  ℕ, ◌-◌, ◌<◌, ◌≤◌, ◌≡◌, refl, ◌∙◌, inl, inr, true, List, [], ◌++◌, some, arith, ◌==◌, ==_refl, ltb,
  Bool-cases, length, take, drop, ltb→lt, length-append, length-take, length-drop, take-append-drop,
  ◌∷◌, ◌&&◌, ap, sym, subst,
}
use sisoputnfrba_tp_2016_2c.Pokedex.State.{end_of_file, sexe, enospc, at, Server, semaphore_unlock}
use sisoputnfrba_tp_2016_2c.Pokedex.Blocks.{
  chain_of, put_chain, first, Growth, necessary_blocks, add_blocks, roll_back, count_loop,
}
use sisoputnfrba_tp_2016_2c.Pokedex.Blocks.Chains.{last_slot, count_loop_lem}
use sisoputnfrba_tp_2016_2c.Pokedex.Blocks.Splice.{
  IsChain, Splice, release_loop-Cut, Extended, grow_loop-Extended, Extended-back,
}
use sisoputnfrba_tp_2016_2c.Pokedex.Blocks.Count.{length-Distinct}
use sisoputnfrba_tp_2016_2c.Pokedex.Blocks.Sizes.{necessary_blocks_mono}
use sisoputnfrba_tp_2016_2c.Pokedex.Content.{
  finish, set_size, no_space, grown, shrink, resize, truncate_file,
}
use sisoputnfrba_tp_2016_2c.Pokedex.Walk.{Answer, code}
use sisoputnfrba_tp_2016_2c.Pokedex.Files.Spec.{IsFile}
use sisoputnfrba_tp_2016_2c.Pokedex.Files.Leaves.{
  Leaves, Kept, settled, settled-Leaves, chain_of-set_size, set_size_twice,
}
use sisoputnfrba_tp_2016_2c.Pokedex.Files.Handled.{Handled, EndsAs}

-- The two ends: the file has the new size, with blocks cut off or added at the end; or there is no
-- space, and the blocks, the size and every bit are the old ones.
pub data Truncated (s : Server) (p new : ℕ) (bs : List ℕ) : Answer × Server → Type 0 where
  cut :
      (s' : Server) (n : ℕ)
      → Leaves s s' p new bs (take n bs)
      → Truncated s p new bs (code sexe, s')
  extended :
      (s' : Server) (more : List ℕ)
      → Leaves s s' p new bs (bs ++ more)
      → Truncated s p new bs (code sexe, s')
  full :
      (s' : Server)
      → Leaves s s' p (s.table p).file_size bs bs
      → ((q : ℕ) → s'.bitmap q ≡ s.bitmap q)
      → Truncated s p new bs (code enospc, s')

take-length : (bs : List ℕ) → take (length bs) bs ≡ bs
take-length [] = refl
take-length (b ∷ bs) = ap (◌∷◌ b) (take-length bs)

module _ (fuel p new : ℕ) (s : Server) (bs : List ℕ) (f : IsFile s p bs)
    (fits : s.data_size ≤ end_of_file) (h : s.data_size < fuel) where
  abbrev End : Answer × Server → Type 0
  End = Truncated s p new bs

  -- No blocks change.
  same_blocks :
      length bs ≡ necessary_blocks new → EndsAs (some (finish sexe p (set_size p new s))) End
  same_blocks e = (
    finish sexe p (set_size p new s),
    refl,
    cut _ (length bs) (
        rw (take-length bs) (record {
          touches = record {
            others = λ r ne. ground arith;
            size = refl;
            splice = record {
              words = λ q a b. refl;
              bits = λ q a b. a;
              fresh = λ q a b. ground arith;
            };
          };
          is_file = record {
            chain = record {
              follows = rw ==_refl f.chain.follows;
              distinct = f.chain.distinct;
              busy = f.chain.busy;
              inside = f.chain.inside;
            };
            sized = rw ==_refl e;
          };
          size = ground arith;
          state = ground arith;
          locks = refl;
        })),
  )

  -- Blocks are released.
  shrink-Truncated :
      necessary_blocks new ≤ length bs
      → EndsAs (shrink fuel p (necessary_blocks new) (set_size p new s)) End
  unfolding shrink
  shrink-Truncated le =
      let n = necessary_blocks new in
      let len : length (take n bs) ≡ n = omega (arith, length-take n bs) in
      let enough = length-Distinct s.data_size bs f.chain.distinct f.chain.inside in
      let whole =
        subst (IsChain s.data_size (chain_of p s)) (sym (take-append-drop n bs)) f.chain in
      let (c, run, x) =
        release_loop-Cut fuel s.data_size n (chain_of p s) (take n bs) (drop n bs) len whole
          (omega (arith, length-drop n bs)) in
      (
        (code sexe, settled p new c s),
        rw (chain_of-set_size s p new) (rw run),
        cut _ n (
            settled-Leaves s p new c bs (take n bs)
              (subst (λ l. Splice (chain_of p s) c l (take n bs)) (take-append-drop n bs) x.splice)
              x.is_chain len),
      )

  module _ (g : Growth) (ns : List ℕ)
      (x : Extended 1 s.data_size (necessary_blocks new - length bs) (chain_of p s) bs g ns) where
    -- The blocks added are taken back.
    no_space-Truncated :
        EndsAs (no_space fuel p (s.table p).file_size g.chain (set_size p new s)) End
    unfolding no_space roll_back
    no_space-Truncated =
        let old = (s.table p).file_size in
        let fewer = length-Distinct s.data_size (bs ++ ns) x.is_chain.distinct x.is_chain.inside in
        let (c, run, i, sp, bits) =
          Extended-back 1 s.data_size (necessary_blocks new - length bs) (chain_of p s) bs g ns fuel
            (necessary_blocks old) f.sized f.chain x (omega (arith, length-append bs ns)) in
        (
          (code enospc, settled p old c s),
          rw run (
              ap (λ u. some (code enospc, semaphore_unlock (at p) (put_chain p c u)))
                (set_size_twice s p new old)),
          full _ (settled-Leaves s p old c bs bs sp i f.sized) bits,
        )

    all_added :
        ltb g.pos s.data_size ≡ true
        → length bs < necessary_blocks new
        → length (bs ++ ns) ≡ necessary_blocks new
    all_added room lt =
        omega (arith, length-append bs ns, x.grown.stopped, x.grown.need, x.grown.needed, ltb→lt)

    -- Blocks are added, or the ones added are taken back.
    grown-Truncated :
        length bs < necessary_blocks new
        → EndsAs (grown fuel p (s.table p).file_size g (set_size p new s)) End
    unfolding grown
    grown-Truncated lt = elim (Bool-cases (ltb g.pos s.data_size)) [
      | inl room ↦ rw room (
        (code sexe, settled p new g.chain s),
        refl,
        extended _ ns
            (settled-Leaves s p new g.chain bs (bs ++ ns) x.splice x.is_chain (all_added room lt)),
      )
      | inr none_left ↦ rw none_left no_space-Truncated
    ]

  resize-Truncated :
      EndsAs
        (resize fuel p (s.table p).file_size new (length bs, last_slot first bs) (set_size p new s))
        End
  unfolding resize add_blocks
  resize-Truncated =
      let old = (s.table p).file_size in
      let need = necessary_blocks new in
      let mono = necessary_blocks_mono old new in
      let mono' = necessary_blocks_mono new old in
      elim (Bool-cases (ltb old new && ltb (length bs) need)) [
        | inl grows ↦
            let (ns, x) =
              grow_loop-Extended 1 s.data_size (need - length bs) (chain_of p s) bs (omega arith)
                f.chain fits in
            rw grows (rw (chain_of-set_size s p new) (grown-Truncated _ ns x (ground arith)))
        | inr stays ↦ rw stays (elim (Bool-cases (ltb new old && ltb need (length bs))) [
          | inl shrinks ↦ rw shrinks (shrink-Truncated (ground arith))
          | inr keeps ↦ rw keeps (same_blocks (ground (arith, f.sized)))
        ])
      ]

  count_blocks : count_loop fuel first 0 (chain_of p s) ≡ some (length bs, last_slot first bs)
  count_blocks =
      let few = length-Distinct s.data_size bs f.chain.distinct f.chain.inside in
      count_loop_lem (chain_of p s) fuel 0 first bs f.chain.follows (omega arith)
      ∙ ap (λ n. some (n, last_slot first bs)) (omega arith)

  -- osada_truncate behind the walk, on the file `p`.
  pub truncate_file-Truncated : EndsAs (truncate_file fuel new p s) End
  unfolding truncate_file
  truncate_file-Truncated = elim (Bool-cases ((s.table p).file_size == new)) [
    | inl same ↦
        let e : (s.table p).file_size ≡ new = ground arith in
        rw same (same_blocks (f.sized ∙ ap necessary_blocks e))
    | inr differ ↦ rw differ (rw count_blocks resize-Truncated)
  ]

-- The end of osada_truncate on the file `p` of a consistent file system.
pub data Truncation (s : Server) (blocks : ℕ → List ℕ) (new p : ℕ) : Answer × Server → Type 0 where
  shrunk :
      (s' : Server) (n : ℕ)
      → Kept s s' blocks p new (take n (blocks p))
      → Truncation s blocks new p (code sexe, s')
  enlarged :
      (s' : Server) (more : List ℕ)
      → Kept s s' blocks p new (blocks p ++ more)
      → Truncation s blocks new p (code sexe, s')
  no_room :
      (s' : Server)
      → Kept s s' blocks p (s.table p).file_size (blocks p)
      → ((q : ℕ) → s'.bitmap q ≡ s.bitmap q)
      → Truncation s blocks new p (code enospc, s')
