-- ===== src/Pokedex/Blocks/Grow.antt =====
-- What the loop that adds blocks leaves.
use sisoputnfrba_tp_2016_2c.Base.{
  ℕ, zero, suc, ◌+◌, ◌-◌, ◌*◌, ◌≤◌, ◌<◌, ◌≡◌, refl, ◌∙◌, ◌⊎◌, inl, inr, true, false, ◌||◌, List, [],
  ◌∷◌, arith, ◌==◌, Bool-cases, if◌then◌else◌, length,
}
use sisoputnfrba_tp_2016_2c.Pokedex.State.{end_of_file}
use sisoputnfrba_tp_2016_2c.Pokedex.Blocks.{
  Chain, Slot, first, entry, read_slot, link_block, Growth, grow_loop,
}
use sisoputnfrba_tp_2016_2c.Pokedex.Blocks.Chains.{has, Distinct, Follows, is_entry, last_slot}

-- The blocks `new` are added behind the slot of `g`: free ones of the `n` blocks from `g.pos` on.
pub record Grown (unit n : ℕ) (g g' : Growth) (new : List ℕ) : Type 0 where
  pub slot : g'.slot ≡ last_slot g.slot new
  pub need : g'.need ≡ g.need - unit * length new
  pub needed : unit * length new < g.need + unit
  pub pos_low : g.pos ≤ g'.pos
  pub pos_high : g'.pos ≤ g.pos + n
  pub stopped : (g'.pos ≡ g.pos + n) ⊎ (g'.need ≡ 0)
  pub low : (q : ℕ) → has q new ≡ true → g.pos ≤ q
  pub high : (q : ℕ) → has q new ≡ true → q < g.pos + n
  pub was_free : (q : ℕ) → has q new ≡ true → g.chain.bitmap q ≡ false
  pub distinct : Distinct new
  pub follows : Follows g'.chain.mapping (read_slot g.slot g'.chain) new
  pub bits : (q : ℕ) → g'.chain.bitmap q ≡ (g.chain.bitmap q || has q new)
  pub words :
      (q : ℕ)
      → has q new ≡ false
      → is_entry g.slot q ≡ false
      → g'.chain.mapping q ≡ g.chain.mapping q
  pub head : (k : ℕ) → g.slot ≡ entry k → g'.chain.head ≡ g.chain.head

-- The slot ends the chain, and its block is busy.
pub record Ready (n : ℕ) (g : Growth) : Type 0 where
  pub ended : read_slot g.slot g.chain ≡ end_of_file
  pub busy : (q : ℕ) → is_entry g.slot q ≡ true → g.chain.bitmap q ≡ true
  pub fits : g.pos + n ≤ end_of_file

module _ (unit n : ℕ) (g : Growth) where
  Grown-nil : 0 < unit → Ready n g → (g.pos ≡ g.pos + n) ⊎ (g.need ≡ 0) → Grown unit n g g []
  Grown-nil u r e = record {
    slot = refl;
    need = omega arith;
    needed = omega arith;
    pos_low = omega arith;
    pos_high = omega arith;
    stopped = e;
    low = λ q h. cc;
    high = λ q h. cc;
    was_free = λ q h. cc;
    distinct = tt;
    follows = r.ended;
    bits = λ q. ground arith;
    words = λ q _ _. refl;
    head = λ k _. refl;
  }

  Grown-pass :
      (g' : Growth) (new : List ℕ)
      → Grown unit n (record g { pos = g.pos + 1 }) g' new
      → Grown unit (suc n) g g' new
  Grown-pass g' new r = record {
    slot = r.slot;
    need = r.need;
    needed = r.needed;
    pos_low = omega (arith, r.pos_low);
    pos_high = omega (arith, r.pos_high);
    stopped = ground (arith, r.stopped);
    low = λ q h. omega (arith, r.low q h);
    high = λ q h. omega (arith, r.high q h);
    was_free = r.was_free;
    distinct = r.distinct;
    follows = r.follows;
    bits = r.bits;
    words = r.words;
    head = r.head;
  }

needed_add :
    (unit need k : ℕ) → 0 < need → unit * k < need - unit + unit → unit * suc k < need + unit
needed_add unit need zero u h = omega arith
needed_add unit need (suc k) u h = omega arith

-- The words and the head after a block is linked behind a slot.
link_block-mapping :
    (b : ℕ) (slot : Slot) (c : Chain) (q : ℕ)
    → (link_block b slot c).mapping q
      ≡ (if q == b then end_of_file else if is_entry slot q then b else c.mapping q)
link_block-mapping b first c q = refl
link_block-mapping b (entry k) c q = refl

link_block-bitmap :
    (b : ℕ) (slot : Slot) (c : Chain) (q : ℕ)
    → (link_block b slot c).bitmap q ≡ (if q == b then true else c.bitmap q)
link_block-bitmap b first c q = refl
link_block-bitmap b (entry k) c q = refl

link_block-head :
    (b : ℕ) (slot : Slot) (c : Chain) (k : ℕ) → slot ≡ entry k → (link_block b slot c).head ≡ c.head
link_block-head b first c k e = cc
link_block-head b (entry j) c k e = refl

-- The word of the slot is the new block, also after the blocks behind it are linked.
read_slot-Grown :
    (unit n need pos : ℕ) (slot : Slot) (c : Chain) (g' : Growth) (new : List ℕ)
    → ((q : ℕ) → is_entry slot q ≡ true → c.bitmap q ≡ true)
    → c.bitmap pos ≡ false
    → Grown unit n
        (record { need = need; pos = pos + 1; slot = entry pos; chain = link_block pos slot c })
        g'
        new
    → read_slot slot g'.chain ≡ pos
read_slot-Grown unit n need pos first c g' new busy h s = s.head pos refl
read_slot-Grown unit n need pos (entry k) c g' new busy h s =
    ground (arith, s.words k, s.was_free k, busy k, Bool-cases (has k new))

module _ (unit n : ℕ) (need pos : ℕ) (slot : Slot) (c : Chain) where
  abbrev old_growth : Growth
  old_growth = record { need = need; pos = pos; slot = slot; chain = c }

  abbrev new_growth : Growth
  new_growth = record {
    need = need - unit;
    pos = pos + 1;
    slot = entry pos;
    chain = link_block pos slot c;
  }

  Ready-new_growth : Ready (suc n) old_growth → Ready n new_growth
  Ready-new_growth r = record {
    ended = ground (arith, link_block-mapping pos slot c pos);
    busy = λ q h. ground (arith, link_block-bitmap pos slot c q);
    fits = omega (arith, r.fits);
  }

  Grown-add :
      (g' : Growth) (new : List ℕ)
      → 0 < need
      → Ready (suc n) old_growth
      → c.bitmap pos ≡ false
      → Grown unit n new_growth g' new
      → Grown unit (suc n) old_growth g' (pos ∷ new)
  Grown-add g' new u r h s = record {
    slot = s.slot;
    need = grind (arith, s.need);
    needed = needed_add unit need (length new) u s.needed;
    pos_low = omega (arith, s.pos_low);
    pos_high = omega (arith, s.pos_high);
    stopped = ground (arith, s.stopped);
    low = λ q i. ground (arith, s.low q);
    high = λ q i. ground (arith, s.high q);
    was_free = λ q i. ground (arith, s.was_free q, link_block-bitmap pos slot c q);
    distinct = (ground (arith, s.was_free pos, link_block-bitmap pos slot c pos), s.distinct);
    follows = (
      read_slot-Grown unit n (need - unit) pos slot c g' new r.busy h s,
      ground (arith, r.fits),
      s.follows,
    );
    bits = λ q. ground (arith, s.bits q, link_block-bitmap pos slot c q);
    words = λ q i j. ground (arith, s.words q, link_block-mapping pos slot c q);
    head = λ k e. s.head pos refl ∙ link_block-head pos slot c k e;
  }

-- The loop that adds blocks: it stops at the end of the bitmap or when no more is needed.
pub grow_loop-Grown :
    (unit n : ℕ) (g : Growth)
    → 0 < unit
    → Ready n g
    → (new : List ℕ) × Grown unit n g (grow_loop unit n g) new
unfolding grow_loop
grow_loop-Grown unit zero g u r = ([], Grown-nil unit 0 g u r (inl (omega arith)))
grow_loop-Grown unit (suc n) g u r = elim (Bool-cases (g.need == 0)) [
  | inl stop ↦ rw stop ([], Grown-nil unit (suc n) g u r (inr (ground arith)))
  | inr go ↦ rw go (elim (Bool-cases (g.chain.bitmap g.pos)) [
    | inl old ↦ rw old (
        let (new, s) =
          grow_loop-Grown unit n (record g { pos = g.pos + 1 }) u
            (record { ended = r.ended; busy = r.busy; fits = omega (arith, r.fits) }) in
        (new, Grown-pass unit n g _ new s))
    | inr free ↦ rw free (
        let (new, s) =
          grow_loop-Grown unit n (new_growth unit n g.need g.pos g.slot g.chain) u
            (Ready-new_growth unit n g.need g.pos g.slot g.chain r) in
        (g.pos ∷ new, Grown-add unit n g.need g.pos g.slot g.chain _ new (ground arith) r free s))
  ])
]
