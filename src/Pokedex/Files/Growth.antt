-- ===== src/Pokedex/Files/Growth.antt =====
-- The ends of osada_write behind the walk: bytes stored, blocks added or taken back.
use sisoputnfrba_tp_2016_2c.Base.{
  ℕ, ◌+◌, ◌-◌, ◌*◌, ◌/◌, ◌^◌, ◌<◌, ◌≤◌, ◌≡◌, refl, ◌∙◌, ◌⊎◌, inl, inr, true, false, List, [], ◌++◌,
  some, none, arith, ◌==◌, ==_refl, ltb, Bool-cases, length, length-append, ◌∷◌, ap, sym, subst,
  split_at,
}
use mathlib.Core.List.{append_assoc, append-nil}
use sisoputnfrba_tp_2016_2c.Pokedex.State.{
  block_size, end_of_file, sexe, enospc, at, Server, semaphore_unlock,
}
use sisoputnfrba_tp_2016_2c.Pokedex.Blocks.{
  Chain, chain_of, put_chain, first, entry, advance, Growth, necessary_blocks, add_bytes, roll_back,
  count_loop,
}
use sisoputnfrba_tp_2016_2c.Pokedex.Blocks.Chains.{
  has, has-append, Follows, last_slot, count_loop_lem, advance_lem,
}
use sisoputnfrba_tp_2016_2c.Pokedex.Blocks.Splice.{
  IsChain, release_loop-Cut, Extended, grow_loop-Extended,
}
use sisoputnfrba_tp_2016_2c.Pokedex.Blocks.Store.{
  write_loop_lem, Reaches, Splice-trans, assign_loop-Reaches,
}
use sisoputnfrba_tp_2016_2c.Pokedex.Blocks.Count.{length-Distinct}
use sisoputnfrba_tp_2016_2c.Pokedex.Blocks.Sizes.{necessary_blocks_lem}
use sisoputnfrba_tp_2016_2c.Pokedex.Content.{
  Outcome, finish, positive, set_size, no_space, store_bytes, expanded, expand, first_block_of,
}
use sisoputnfrba_tp_2016_2c.Pokedex.Walk.{Answer, code}
use sisoputnfrba_tp_2016_2c.Pokedex.Files.Spec.{IsFile}
use sisoputnfrba_tp_2016_2c.Pokedex.Files.Leaves.{Leaves, settled, settled-Leaves, set_size_twice}
use sisoputnfrba_tp_2016_2c.Pokedex.Files.Handled.{EndsAs}

-- The end of the storing: the server `u` with some bytes of the blocks `bs` changed.
abbrev pub StoredAt : ℕ → Server → List ℕ → Outcome → Type 0
StoredAt p u bs o =
    (blocks : ℕ → ℕ → ℕ) × (o ≡ some (finish sexe p (record u { blocks = blocks })))
    × ((q : ℕ) → has q bs ≡ false → blocks q ≡ u.blocks q)

store_at :
    (fuel p offset : ℕ) (bytes : List ℕ) (u : Server) (xs zs : List ℕ) (b : ℕ)
    → length xs ≡ offset / block_size
    → Follows u.mapping (u.table p).first_block (xs ++ (b ∷ zs))
    → length zs < fuel
    → StoredAt p u (xs ++ (b ∷ zs)) (store_bytes fuel p bytes offset u)
unfolding store_bytes
store_at fuel p offset bytes u xs zs b l f h =
    let (at_end, g) = advance_lem (chain_of p u) first xs (b ∷ zs) f in
    let (blocks, run, same) =
      write_loop_lem (chain_of p u) fuel (last_slot first xs)
        (offset - block_size * (offset / block_size)) b zs bytes u.blocks g h in
    let there : advance (offset / block_size) first (chain_of p u) ≡ last_slot first xs =
      ap (λ n. advance n first (chain_of p u)) (sym l) ∙ at_end in
    (blocks, rw (there, run), λ q a. same q (ground (arith, has-append q xs (b ∷ zs))))

-- Where the blocks reach the offset, the bytes are stored and no other block changes.
pub store_bytes-StoredAt :
    (fuel p offset : ℕ) (bytes : List ℕ) (u : Server) (bs : List ℕ)
    → IsChain u.data_size (chain_of p u) bs
    → offset / block_size < length bs
    → u.data_size < fuel
    → StoredAt p u bs (store_bytes fuel p bytes offset u)
store_bytes-StoredAt fuel p offset bytes u bs i r h =
    let (xs, b, zs, e, l) = split_at (offset / block_size) bs r in
    let short : length zs < fuel = omega (
      arith,
      length-Distinct u.data_size bs i.distinct i.inside,
      ap length e,
      length-append xs (b ∷ zs),
    ) in
    subst (λ ds. StoredAt p u ds (store_bytes fuel p bytes offset u)) (sym e)
      (store_at fuel p offset bytes u xs zs b l (rw (sym e) i.follows) short)

-- The first block of the file: its own, or a free one; or none is free.
pub first_block_of-Reaches :
    (size : ℕ) (c : Chain) (bs : List ℕ)
    → IsChain size c bs
    → size ≤ end_of_file
    → (first_block_of c size ≡ none)
      ⊎ ((c' : Chain) × (b : ℕ) × (ds more : List ℕ) × (first_block_of c size ≡ some c')
          × Reaches size c c' bs (b ∷ ds)
          × (b ∷ ds ≡ bs ++ more)
          × (length (b ∷ ds) ≤ length bs + 1)
          × ((length bs ≡ 0) ⊎ (length (b ∷ ds) ≡ length bs)))
unfolding first_block_of
first_block_of-Reaches size c [] i h =
    let empty : (c.head == end_of_file) ≡ true = (let g = i.follows in ground arith) in
    rw empty (elim (assign_loop-Reaches size c i h) [
      | inl no_block ↦ inl no_block
      | inr got ↦
          let (c', b, run, x) = got in inr (c', b, [], b ∷ [], run, x, refl, omega arith, inl refl)
    ])
first_block_of-Reaches size c (b ∷ ds) i h =
    let (e, x, f) = i.follows in
    let ne : (c.head == end_of_file) ≡ false = rw e x in
    rw ne (
      inr (
        c,
        b,
        ds,
        [],
        refl,
        record {
          is_chain = i;
          splice = record {
            words = λ q a b. refl;
            bits = λ q a b. a;
            fresh = λ q a b. ground arith;
          };
        },
        sym (append-nil (b ∷ ds)),
        omega arith,
        inr refl,
      ))

-- What the bytes of the blocks are does not matter to the tables.
pub Leaves-blocks :
    {s s' : Server} {p n : ℕ} {bs bs' : List ℕ} (blocks : ℕ → ℕ → ℕ)
    → Leaves s s' p n bs bs'
    → Leaves s (record s' { blocks = blocks }) p n bs bs'
Leaves-blocks blocks l = record {
  touches = record { others = l.touches.others; size = l.touches.size; splice = l.touches.splice };
  is_file = record { chain = l.is_file.chain; sized = l.is_file.sized };
  size = l.size;
  state = l.state;
  locks = l.locks;
}

-- The ends of osada_write on the file `p`: its size is `new`, blocks may be added behind its own,
-- and no other block has changed; or there is no space, and its blocks and size are the old ones.
pub data Written (s : Server) (p new : ℕ) (bs : List ℕ) : Answer × Server → Type 0 where
  stored :
      (s' : Server) (more : List ℕ)
      → Leaves s s' p new bs (bs ++ more)
      → ((q : ℕ) → has q (bs ++ more) ≡ false → s'.blocks q ≡ s.blocks q)
      → Written s p new bs (code sexe, s')
  no_room :
      (s' : Server)
      → Leaves s s' p (s.table p).file_size bs bs
      → ((q : ℕ) → s'.blocks q ≡ s.blocks q)
      → Written s p new bs (code enospc, s')

module _ (fuel p : ℕ) (bytes : List ℕ) (offset new : ℕ) (u : Server) (bs : List ℕ)
    (f : IsFile u p bs) (fits : u.data_size ≤ end_of_file) (h : u.data_size < fuel)
    (some_bytes : 0 < length bytes) (sum : offset + length bytes ≡ new) (small : new < 2 ^ 31) where
  -- The bytes go to the blocks there are, with the size `n`.
  stored_end :
      (n : ℕ) (c : Chain) (more : List ℕ)
      → Reaches u.data_size (chain_of p u) c bs (bs ++ more)
      → length (bs ++ more) ≡ necessary_blocks n
      → new ≤ n
      → EndsAs (store_bytes fuel p bytes offset (put_chain p c (set_size p n u))) (Written u p n bs)
  stored_end n c more x e le =
      let v = put_chain p c (set_size p n u) in
      let chain : chain_of p v ≡ c = rw ==_refl refl in
      let (blocks, run, same) =
        store_bytes-StoredAt fuel p offset bytes v (bs ++ more) (rw chain x.is_chain)
          (omega (arith, e, necessary_blocks_lem n)) h in
      (
        finish sexe p (record v { blocks = blocks }),
        run,
        stored _ more
            (Leaves-blocks blocks (settled-Leaves u p n c bs (bs ++ more) x.splice x.is_chain e))
            same,
      )

  -- The blocks behind those of the old size are released again.
  no_room_end :
      (c : Chain) (more : List ℕ)
      → Reaches u.data_size (chain_of p u) c bs (bs ++ more)
      → EndsAs (no_space fuel p (u.table p).file_size c (set_size p new u)) (Written u p new bs)
  unfolding no_space roll_back
  no_room_end c more x =
      let old = (u.table p).file_size in
      let fewer = length-Distinct u.data_size (bs ++ more) x.is_chain.distinct x.is_chain.inside in
      let (c', run, cut) =
        release_loop-Cut fuel u.data_size (necessary_blocks old) c bs more f.sized x.is_chain
          (omega (arith, length-append bs more)) in
      (
        (code enospc, settled p old c' u),
        rw run (
            ap (λ w. some (code enospc, semaphore_unlock (at p) (put_chain p c' w)))
              (set_size_twice u p new old)),
        no_room _
            (settled-Leaves u p old c' bs bs (Splice-trans x.splice cut.splice) cut.is_chain
              f.sized)
            (λ q. refl),
      )

  module _ (c : Chain) (b : ℕ) (ds more : List ℕ)
      (x : Reaches u.data_size (chain_of p u) c bs (b ∷ ds)) (behind : b ∷ ds ≡ bs ++ more)
      (room : length (b ∷ ds) ≤ necessary_blocks new) where
    abbrev missing : ℕ
    missing = positive (new - (length ds * block_size + block_size))

    -- Both ends of the growth, with the blocks `ns` added behind the ones there are.
    expanded_end :
        (g : Growth) (ns : List ℕ)
        → missing ≡ new - (length ds * block_size + block_size)
        → Extended block_size u.data_size missing c (b ∷ ds) g ns
        → EndsAs
            (expanded fuel p (u.table p).file_size bytes offset g (set_size p new u))
            (Written u p new bs)
    unfolding expanded
    expanded_end g ns m y =
        let e : (b ∷ ds) ++ ns ≡ bs ++ (more ++ ns) =
          ap (λ l. l ++ ns) behind ∙ append_assoc bs more ns in
        let whole =
          subst (λ l. Reaches u.data_size (chain_of p u) g.chain bs l) e
            (record { is_chain = y.is_chain; splice = Splice-trans x.splice y.splice }) in
        elim (Bool-cases (ltb g.pos u.data_size)) [
          | inl found_all ↦
              let lt : g.pos < u.data_size = ground arith in
              let all : length (bs ++ (more ++ ns)) ≡ necessary_blocks new = omega (
                arith,
                ap length e,
                length-append (b ∷ ds) ns,
                y.grown.stopped,
                y.grown.need,
                y.grown.needed,
                necessary_blocks_lem new,
              ) in
              rw found_all (stored_end new g.chain (more ++ ns) whole all (omega arith))
          | inr none_left ↦ rw none_left (no_room_end g.chain (more ++ ns) whole)
        ]

    missing_lem : missing ≡ new - (length ds * block_size + block_size)
    unfolding positive
    missing_lem = ground arith

    count : count_loop fuel (entry c.head) 0 c ≡ some (length ds, last_slot first (b ∷ ds))
    count =
        let (e, ne, g) = x.is_chain.follows in
        let few = length-Distinct u.data_size (b ∷ ds) x.is_chain.distinct x.is_chain.inside in
        ap (λ k. count_loop fuel (entry k) 0 c) e
        ∙ count_loop_lem c fuel 0 (entry b) ds g (omega arith)
        ∙ ap (λ n. some (n, last_slot (entry b) ds)) (omega arith)

    pub expand_end :
        (u.table p).file_size < new
        → EndsAs
            (expand fuel p (u.table p).file_size new bytes offset c (set_size p new u))
            (Written u p new bs)
    unfolding expand add_bytes
    expand_end grows =
        let old = (u.table p).file_size in
        let same : new - old + old - (length ds * block_size + block_size)
            ≡ new - (length ds * block_size + block_size) =
          omega arith in
        let (ns, y) =
          grow_loop-Extended block_size u.data_size missing c (b ∷ ds) (omega arith) x.is_chain
            fits in
        rw (count, same) (expanded_end _ ns missing_lem y)
