-- ===== src/Pokedex/Blocks/Splice.antt =====
-- The chain of one file: blocks released from its end, added to its end, and taken back.
use sisoputnfrba_tp_2016_2c.Base.{
  ℕ, ◌≤◌, ◌<◌, ◌≡◌, refl, ◌∙◌, ◌⊎◌, inl, inr, Bool, true, false, List, [], ◌∷◌, ◌++◌, some, arith,
  Bool-cases, if◌then◌else◌, length,
}
use mathlib.Core.List.{append-nil}
use sisoputnfrba_tp_2016_2c.Pokedex.State.{end_of_file}
use sisoputnfrba_tp_2016_2c.Pokedex.Blocks.{
  Chain, first, entry, advance, release_loop, Growth, grow_loop,
}
use sisoputnfrba_tp_2016_2c.Pokedex.Blocks.Chains.{
  has, Distinct, Follows, Apart, last_slot, advance_lem, Released, release_loop_lem, has-append,
  Distinct-append, Distinct-parts, is_entry-last_slot, last_slot-eq-entry, graft,
}
use sisoputnfrba_tp_2016_2c.Pokedex.Blocks.Grow.{Grown, Ready, grow_loop-Grown}

-- The chain leads through the blocks `bs`, each of them once, busy and among the first `size`.
pub record IsChain (size : ℕ) (c : Chain) (bs : List ℕ) : Type 0 where
  pub follows : Follows c.mapping c.head bs
  pub distinct : Distinct bs
  pub busy : (q : ℕ) → has q bs ≡ true → c.bitmap q ≡ true
  pub inside : (q : ℕ) → has q bs ≡ true → q < size

-- Of what is busy and not in `bs` nothing has changed, and `bs'` has no other busy block.
pub record Splice (c c' : Chain) (bs bs' : List ℕ) : Type 0 where
  pub words : (q : ℕ) → c.bitmap q ≡ true → has q bs ≡ false → c'.mapping q ≡ c.mapping q
  pub bits : (q : ℕ) → c.bitmap q ≡ true → has q bs ≡ false → c'.bitmap q ≡ true
  pub fresh : (q : ℕ) → has q bs' ≡ true → has q bs ≡ false → c.bitmap q ≡ false

-- The chain after its blocks `zs` are released, `xs` being kept.
pub record Cut (size : ℕ) (c c' : Chain) (xs zs : List ℕ) : Type 0 where
  pub is_chain : IsChain size c' xs
  pub splice : Splice c c' (xs ++ zs) xs
  pub freed : (q : ℕ) → c'.bitmap q ≡ (if has q zs then false else c.bitmap q)
  pub words : (q : ℕ) → has q (xs ++ zs) ≡ false → c'.mapping q ≡ c.mapping q

Released-Cut :
    (size : ℕ) (c c' : Chain) (xs zs : List ℕ)
    → IsChain size c (xs ++ zs)
    → Released (last_slot first xs) zs c c'
    → (xs ≡ []) ⊎ (c'.head ≡ c.head)
    → Cut size c c' xs zs
Released-Cut size c c' xs zs i r h =
    let (dx, dz, apart) = Distinct-parts xs zs i.distinct in
    record {
      is_chain = record {
        follows =
            rw (← append-nil xs)
              (graft c c' first xs [] zs i.follows dx (λ q a b. r.words q (apart q a) b) h r.ended);
        distinct = dx;
        busy = λ q a. ground (arith, r.freed q, apart q, i.busy q, has-append q xs zs);
        inside = λ q a. i.inside q (ground (arith, has-append q xs zs));
      };
      splice = record {
        words = λ q a b.
            r.words q (ground (arith, has-append q xs zs))
              (is_entry-last_slot first xs q refl (ground (arith, has-append q xs zs)));
        bits = λ q a b. ground (arith, r.freed q, has-append q xs zs);
        fresh = λ q a b. ground (arith, has-append q xs zs);
      };
      freed = r.freed;
      words = λ q a.
          r.words q (ground (arith, has-append q xs zs))
            (is_entry-last_slot first xs q refl (ground (arith, has-append q xs zs)));
    }

-- Where there is a block, `first_block` is not the slot behind the last one.
kept_head :
    {h h' : ℕ} (xs : List ℕ)
    → ((k : ℕ) → last_slot first xs ≡ entry k → h' ≡ h)
    → (xs ≡ []) ⊎ (h' ≡ h)
kept_head [] same = inl refl
kept_head (x ∷ xs) same = let (k, e) = last_slot-eq-entry x xs in inr (same k e)

Apart-last_slot : (xs zs : List ℕ) → Distinct (xs ++ zs) → Apart (last_slot first xs) zs
Apart-last_slot xs zs d q h =
    let (dx, dz, apart) = Distinct-parts xs zs d in
    is_entry-last_slot first xs q refl (ground (arith, apart q))

-- Blocks released from the end of a chain.
pub release_loop-Cut :
    (fuel size n : ℕ) (c : Chain) (xs zs : List ℕ)
    → length xs ≡ n
    → IsChain size c (xs ++ zs)
    → length zs < fuel
    → (c' : Chain) × (release_loop fuel (advance n first c) c ≡ some c') × Cut size c c' xs zs
release_loop-Cut fuel size n c xs zs e i h =
    let (at_end, f) = advance_lem c first xs zs i.follows in
    let (dx, dz, apart) = Distinct-parts xs zs i.distinct in
    let (c', run, r) =
      release_loop_lem fuel (last_slot first xs) zs c f dz (Apart-last_slot xs zs i.distinct) h in
    (c', rw (← e, at_end) run, Released-Cut size c c' xs zs i r (kept_head xs r.head))

-- A chain behind its last block is ready to grow.
IsChain-Ready :
    (size need : ℕ) (c : Chain) (bs : List ℕ)
    → IsChain size c bs
    → size ≤ end_of_file
    → Ready size (record { need = need; pos = 0; slot = last_slot first bs; chain = c })
IsChain-Ready size need c bs i h = record {
  ended = (advance_lem c first bs [] (rw (append-nil bs) i.follows)).1;
  busy = λ q e. elim (Bool-cases (has q bs)) [
    | inl yes_in ↦ i.busy q yes_in
    | inr out ↦ ground (arith, is_entry-last_slot first bs q refl out)
  ];
  fits = omega arith;
}

module _ (unit size need : ℕ) (c : Chain) (bs : List ℕ) where
  abbrev start : Growth
  start = record { need = need; pos = 0; slot = last_slot first bs; chain = c }

  -- A chain with the blocks `new` at its end.
  pub record Extended (g : Growth) (new : List ℕ) : Type 0 where
    pub grown : Grown unit size start g new
    pub is_chain : IsChain size g.chain (bs ++ new)
    pub splice : Splice c g.chain bs (bs ++ new)

  not_new :
      (g : Growth) (new : List ℕ)
      → Grown unit size start g new
      → (q : ℕ) → c.bitmap q ≡ true
      → has q new ≡ false
  not_new g new s q b = ground (arith, s.was_free q, Bool-cases (has q new))

  Grown-Extended :
      (g : Growth) (new : List ℕ) → IsChain size c bs → Grown unit size start g new → Extended g new
  Grown-Extended g new i s = record {
    grown = s;
    is_chain = record {
      follows =
          graft c g.chain first bs new [] (rw (append-nil bs) i.follows) i.distinct
            (λ q a b. s.words q (not_new g new s q (i.busy q a)) b) (kept_head bs s.head) s.follows;
      distinct =
          Distinct-append bs new i.distinct s.distinct (λ q a. not_new g new s q (i.busy q a));
      busy = λ q a. ground (arith, has-append q bs new, s.bits q, i.busy q);
      inside = λ q a. ground (arith, has-append q bs new, s.high q, i.inside q);
    };
    splice = record {
      words = λ q a b. s.words q (not_new g new s q a) (is_entry-last_slot first bs q refl b);
      bits = λ q a b. ground (arith, s.bits q);
      fresh = λ q a b. s.was_free q (ground (arith, has-append q bs new));
    };
  }

  -- Blocks added to the end of a chain.
  pub grow_loop-Extended :
      0 < unit
      → IsChain size c bs
      → size ≤ end_of_file
      → (new : List ℕ) × Extended (grow_loop unit size start) new
  grow_loop-Extended u i h =
      let (new, s) = grow_loop-Grown unit size start u (IsChain-Ready size need c bs i h) in
      (new, Grown-Extended _ new i s)

  -- The blocks added are taken back: the chain is the old one, and so is every bit.
  pub Extended-back :
      (g : Growth) (new : List ℕ) (fuel n : ℕ)
      → length bs ≡ n
      → IsChain size c bs
      → Extended g new
      → length new < fuel
      → (c' : Chain) × (release_loop fuel (advance n first g.chain) g.chain ≡ some c')
        × IsChain size c' bs
        × Splice c c' bs bs
        × ((q : ℕ) → c'.bitmap q ≡ c.bitmap q)
  Extended-back g new fuel n e i x h =
      let (c', run, cut) = release_loop-Cut fuel size n g.chain bs new e x.is_chain h in
      let bits = λ (q : ℕ). restored q (cut.freed q) in
      (
        c',
        run,
        cut.is_chain,
        record {
          words = λ q a b.
              cut.words q (ground (arith, has-append q bs new, not_new g new x.grown q a))
              ∙ x.splice.words q a b;
          bits = λ q a b. bits q ∙ a;
          fresh = λ q a b. ground arith;
        },
        bits,
      )
    where
      restored :
          {b : Bool} (q : ℕ) → b ≡ (if has q new then false else g.chain.bitmap q) → b ≡ c.bitmap q
      restored q e = ground (arith, x.grown.bits q, x.grown.was_free q)
