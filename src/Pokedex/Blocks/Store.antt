-- ===== src/Pokedex/Blocks/Store.antt =====
-- The loops of osada_write: the first block of an empty file, and the bytes that go to the blocks.
use sisoputnfrba_tp_2016_2c.Base.{
  ℕ, zero, suc, ◌+◌, ◌-◌, ◌≤◌, ◌<◌, ◌≡◌, refl, ◌∙◌, ◌⊎◌, inl, inr, true, false, List, [], ◌∷◌, none,
  some, arith, ◌==◌, leb, Bool-cases, if◌then◌else◌, update, length, take, drop,
}
use sisoputnfrba_tp_2016_2c.Pokedex.State.{block_size, end_of_file}
use sisoputnfrba_tp_2016_2c.Pokedex.Blocks.{
  Chain, Slot, first, entry, read_slot, Growth, grow_loop, link_block, assign_loop, write_block,
  write_loop,
}
use sisoputnfrba_tp_2016_2c.Pokedex.Blocks.Chains.{has, Follows}
use sisoputnfrba_tp_2016_2c.Pokedex.Blocks.Splice.{IsChain, Splice, Extended, grow_loop-Extended}

-- From a block of the chain on, the loop of osada_write ends, and only blocks of the chain change.
pub write_loop_lem :
    (c : Chain) (fuel : ℕ) (slot : Slot) (off b : ℕ) (bs bytes : List ℕ) (blocks : ℕ → ℕ → ℕ)
    → Follows c.mapping (read_slot slot c) (b ∷ bs)
    → length bs < fuel
    → (blocks' : ℕ → ℕ → ℕ) × (write_loop fuel slot off bytes c blocks ≡ some blocks')
      × ((q : ℕ) → has q (b ∷ bs) ≡ false → blocks' q ≡ blocks q)
unfolding write_loop
write_loop_lem c zero slot off b bs bytes blocks f h = absurd (omega arith)
write_loop_lem c (suc fuel) slot off b [] bytes blocks (e, x, f) h =
    elim (Bool-cases (length bytes == 0)) [
      | inl nothing_left ↦ rw nothing_left (blocks, refl, λ q a. refl)
      | inr some_left ↦ rw (some_left, e, f) (_, refl, λ q a. ground arith)
    ]
write_loop_lem c (suc fuel) slot off b (d ∷ ds) bytes blocks (e, x, (g, y, f)) h =
    elim (Bool-cases (length bytes == 0)) [
      | inl nothing_left ↦ rw nothing_left (blocks, refl, λ q a. refl)
      | inr some_left ↦
          let n =
            if leb (block_size - off) (length bytes) then block_size - off else length bytes in
          let (blocks', run, same) =
            write_loop_lem c fuel (entry b) 0 d ds (drop n bytes)
              (update blocks b (write_block (blocks b) off (take n bytes))) (g, y, f)
              (omega arith) in
          rw (some_left, e, g, y) (blocks', run, λ q a. same q (ground arith) ∙ ground arith)
    ]

-- The loop that has what it needs stops at once.
grow_loop_done : (unit n : ℕ) (g : Growth) → g.need ≡ 0 → grow_loop unit n g ≡ g
unfolding grow_loop
grow_loop_done unit zero g e = refl
grow_loop_done unit (suc n) g e = rw e

abbrev one_block : ℕ → Chain → Growth
one_block pos c = record { need = 1; pos = pos; slot = first; chain = c }

-- Looking for the first block is adding one block to an empty chain.
assign_loop-grow_loop :
    (n pos : ℕ) (c : Chain)
    → assign_loop n pos c ≡ (
        if (grow_loop 1 n (one_block pos c)).need == 0
        then some (grow_loop 1 n (one_block pos c)).chain
        else none)
unfolding assign_loop grow_loop
assign_loop-grow_loop zero pos c = refl
assign_loop-grow_loop (suc n) pos c = elim (Bool-cases (c.bitmap pos)) [
  | inl busy ↦ rw busy (assign_loop-grow_loop n (pos + 1) c)
  | inr free ↦
      let g : Growth = record {
        need = 0;
        pos = pos + 1;
        slot = entry pos;
        chain = link_block pos first c;
      } in
      rw (free, grow_loop_done 1 n g refl)
]

-- The chain has the blocks `bs'`, and of what else is busy nothing has changed.
pub record Reaches (size : ℕ) (c c' : Chain) (bs bs' : List ℕ) : Type 0 where
  pub is_chain : IsChain size c' bs'
  pub splice : Splice c c' bs bs'

pub Splice-trans :
    {c c1 c2 : Chain} {bs bs1 bs2 : List ℕ}
    → Splice c c1 bs bs1
    → Splice c1 c2 bs1 bs2
    → Splice c c2 bs bs2
Splice-trans {c} {c1} {c2} {bs} {bs1} {bs2} s t = record {
  words = λ q a b. t.words q (s.bits q a b) (out q a b) ∙ s.words q a b;
  bits = λ q a b. t.bits q (s.bits q a b) (out q a b);
  fresh = λ q a b. elim (Bool-cases (has q bs1)) [
    | inl yes_in ↦ s.fresh q yes_in b
    | inr no_in ↦ let e = t.fresh q a no_in in ground (arith, s.bits q, Bool-cases (c.bitmap q))
  ];
}
  where
    out : (q : ℕ) → c.bitmap q ≡ true → has q bs ≡ false → has q bs1 ≡ false
    out q a b = ground (arith, s.fresh q, Bool-cases (has q bs1))

-- The first block of an empty file, where one is free.
pub assign_loop-Reaches :
    (size : ℕ) (c : Chain)
    → IsChain size c []
    → size ≤ end_of_file
    → (assign_loop size 0 c ≡ none)
      ⊎ ((c' : Chain) × (b : ℕ) × (assign_loop size 0 c ≡ some c') × Reaches size c c' [] (b ∷ []))
assign_loop-Reaches size c i h =
    let (new, x) = grow_loop-Extended 1 size 1 c [] (omega arith) i h in
    rw (assign_loop-grow_loop size 0 c)
      (elim (Bool-cases ((grow_loop 1 size (one_block 0 c)).need == 0)) [
        | inr none_free ↦ rw none_free (inl refl)
        | inl got ↦
            let enough : (grow_loop 1 size (one_block 0 c)).need ≡ 0 = ground arith in
            rw got (inr (single new x (omega (arith, x.grown.need, x.grown.needed))))
      ])
  where
    single :
        (new : List ℕ)
        → Extended 1 size 1 c [] (grow_loop 1 size (one_block 0 c)) new
        → length new ≡ 1
        → (c' : Chain) × (b : ℕ) × (some (grow_loop 1 size (one_block 0 c)).chain ≡ some c')
          × Reaches size c c' [] (b ∷ [])
    single [] x e = absurd (omega arith)
    single (b ∷ []) x e = (_, b, refl, record { is_chain = x.is_chain; splice = x.splice })
    single (b ∷ d ∷ new) x e = absurd (omega arith)
