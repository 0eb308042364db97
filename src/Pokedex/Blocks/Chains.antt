-- ===== src/Pokedex/Blocks/Chains.antt =====
-- The blocks of a file as a list: what the words of the mapping table lead through.
use sisoputnfrba_tp_2016_2c.Base.{
  ℕ, zero, suc, ◌+◌, ◌<◌, ◌≡◌, refl, ◌∙◌, ◌⊎◌, inl, inr, Bool, true, false, ◌||◌, List, [], ◌∷◌,
  ◌++◌, some, arith, ◌==◌, Bool-cases, if◌then◌else◌, update, length,
}
use sisoputnfrba_tp_2016_2c.Pokedex.State.{end_of_file}
use sisoputnfrba_tp_2016_2c.Pokedex.Blocks.{
  Chain, Slot, first, entry, read_slot, write_slot, set_bit, advance, count_loop, release_loop,
}

abbrev pub has : ℕ → List ℕ → Bool
has q [] = false
has q (b ∷ bs) = (q == b) || has q bs

-- No block stands in the list twice.
abbrev pub Distinct : List ℕ → Type 0
Distinct [] = Unit {0}
Distinct (b ∷ bs) = (has b bs ≡ false) × Distinct bs

-- From the word `v` the mapping table leads through the blocks `bs` to END_OF_FILE.
abbrev pub Follows : (ℕ → ℕ) → ℕ → List ℕ → Type 0
Follows m v [] = v ≡ end_of_file
Follows m v (b ∷ bs) = (v ≡ b) × ((b == end_of_file) ≡ false) × Follows m (m b) bs

-- The slot is the word of no block of the list.
abbrev pub is_entry : Slot → ℕ → Bool
is_entry first q = false
is_entry (entry k) q = q == k

abbrev pub Apart : Slot → List ℕ → Type 0
Apart slot bs = (q : ℕ) → has q bs ≡ true → is_entry slot q ≡ false

-- The slot behind the last block.
abbrev pub last_slot : Slot → List ℕ → Slot
last_slot slot [] = slot
last_slot slot (b ∷ bs) = last_slot (entry b) bs

pub Follows-frame :
    (m m' : ℕ → ℕ) (v : ℕ) (bs : List ℕ)
    → ((q : ℕ) → has q bs ≡ true → m' q ≡ m q)
    → Follows m v bs
    → Follows m' v bs
Follows-frame m m' v [] same f = f
Follows-frame m m' v (b ∷ bs) same (e, n, f) =
    let e' : m' b ≡ m b = same b (ground arith) in
    (e, n, rw e' (Follows-frame m m' (m b) bs (λ q h. same q (ground arith)) f))

-- With more fuel than blocks the count returns the number of blocks and the slot behind the last.
pub count_loop_lem :
    (c : Chain) (fuel n : ℕ) (slot : Slot) (bs : List ℕ)
    → Follows c.mapping (read_slot slot c) bs
    → length bs < fuel
    → count_loop fuel slot n c ≡ some (n + length bs, last_slot slot bs)
unfolding count_loop
count_loop_lem c zero n slot bs f h = absurd (omega arith)
count_loop_lem c (suc fuel) n slot [] f h = rw f (let e : n ≡ n + 0 = omega arith in rw (← e))
count_loop_lem c (suc fuel) n slot (b ∷ bs) (e, x, f) h =
    rw (e, x, count_loop_lem c fuel (n + 1) (entry b) bs f (omega arith))
      (let e' : n + 1 + length bs ≡ n + suc (length bs) = omega arith in rw e')

-- Over the first blocks of a chain the loop that only advances comes to the slot behind them.
pub advance_lem :
    (c : Chain) (slot : Slot) (xs zs : List ℕ)
    → Follows c.mapping (read_slot slot c) (xs ++ zs)
    → (advance (length xs) slot c ≡ last_slot slot xs)
      × Follows c.mapping (read_slot (last_slot slot xs) c) zs
unfolding advance
advance_lem c slot [] zs f = (refl, f)
advance_lem c slot (b ∷ xs) zs (e, x, f) = rw (e, advance) (advance_lem c (entry b) xs zs f)

-- What the release of the blocks `bs` behind `slot` leaves.
pub record Released (slot : Slot) (bs : List ℕ) (c c' : Chain) : Type 0 where
  pub ended : read_slot slot c' ≡ end_of_file
  pub freed : (q : ℕ) → c'.bitmap q ≡ (if has q bs then false else c.bitmap q)
  pub words : (q : ℕ) → has q bs ≡ false → is_entry slot q ≡ false → c'.mapping q ≡ c.mapping q
  pub head : (k : ℕ) → slot ≡ entry k → c'.head ≡ c.head

module _ (c : Chain) (b : ℕ) (bs : List ℕ) where
  Released-cons :
      (c' : Chain) (slot : Slot)
      → Apart slot (b ∷ bs)
      → Released (entry b) bs (write_slot slot end_of_file (set_bit b false c)) c'
      → Released slot (b ∷ bs) c c'
  Released-cons c' first out r = record {
    ended = r.head b refl;
    freed = λ q. ground (arith, r.freed q);
    words = λ q h g. ground (arith, r.words q);
    head = λ k e. cc;
  }
  Released-cons c' (entry k) out r = record {
    ended = ground (arith, r.words k, out k);
    freed = λ q. ground (arith, r.freed q);
    words = λ q h g. ground (arith, r.words q);
    head = λ j e. r.head b refl;
  }

  -- The blocks behind the one that is released keep their words.
  Follows-release_one :
      (slot : Slot)
      → Apart slot (b ∷ bs)
      → has b bs ≡ false
      → Follows c.mapping (c.mapping b) bs
      → Follows
          (write_slot slot end_of_file (set_bit b false c)).mapping
          ((write_slot slot end_of_file (set_bit b false c)).mapping b)
          bs
  Follows-release_one first out d f = f
  Follows-release_one (entry k) out d f =
      let e : update c.mapping k end_of_file b ≡ c.mapping b = ground (arith, out b) in
      rw e (Follows-frame c.mapping _ (c.mapping b) bs (λ q h. ground (arith, out q)) f)

Apart-entry : (b : ℕ) (bs : List ℕ) → has b bs ≡ false → Apart (entry b) bs
Apart-entry b bs d q h = elim (Bool-cases (q == b)) [
  | inl e ↦ let e' : q ≡ b = ground arith in ground arith
  | inr e ↦ e
]

-- With more fuel than blocks the release ends, frees exactly the blocks behind the slot, ends the
-- chain there and leaves every other word.
pub release_loop_lem :
    (fuel : ℕ) (slot : Slot) (bs : List ℕ) (c : Chain)
    → Follows c.mapping (read_slot slot c) bs
    → Distinct bs
    → Apart slot bs
    → length bs < fuel
    → (c' : Chain) × (release_loop fuel slot c ≡ some c') × Released slot bs c c'
unfolding release_loop
release_loop_lem zero slot bs c f d out h = absurd (omega arith)
release_loop_lem (suc fuel) slot [] c f d out h =
    (c, rw f, record { ended = f; freed = λ q. refl; words = λ q _ _. refl; head = λ k _. refl })
release_loop_lem (suc fuel) slot (b ∷ bs) c (e, x, f) (d, ds) out h =
    let (c', run, r) =
      release_loop_lem fuel (entry b) bs (write_slot slot end_of_file (set_bit b false c))
        (Follows-release_one c b bs slot out d f) ds (Apart-entry b bs d) (omega arith) in
    (c', rw (e, x) run, Released-cons c b bs c' slot out r)

pub has-append : (q : ℕ) (xs ys : List ℕ) → has q (xs ++ ys) ≡ (has q xs || has q ys)
has-append q [] ys = refl
has-append q (x ∷ xs) ys = ground (arith, has-append q xs ys)

pub Distinct-append :
    (xs ys : List ℕ)
    → Distinct xs
    → Distinct ys
    → ((q : ℕ) → has q xs ≡ true → has q ys ≡ false)
    → Distinct (xs ++ ys)
Distinct-append [] ys d e apart = e
Distinct-append (x ∷ xs) ys (d, ds) e apart = (
  ground (arith, has-append x xs ys, apart x),
  Distinct-append xs ys ds e (λ q h. apart q (ground arith)),
)

pub Distinct-parts :
    (xs ys : List ℕ)
    → Distinct (xs ++ ys)
    → Distinct xs × Distinct ys × ((q : ℕ) → has q xs ≡ true → has q ys ≡ false)
Distinct-parts [] ys d = (tt, d, λ q h. cc)
Distinct-parts (x ∷ xs) ys (d, ds) =
    let (dx, dy, apart) = Distinct-parts xs ys ds in
    (
      (ground (arith, has-append x xs ys), dx),
      dy,
      λ q h. elim (Bool-cases (q == x)) [
        | inl e ↦ let e' : q ≡ x = ground arith in rw e' (ground (arith, has-append x xs ys))
        | inr e ↦ apart q (ground arith)
      ],
    )

-- The slot behind some blocks is the word of one of them, or the slot before them.
pub is_entry-last_slot :
    (slot : Slot) (xs : List ℕ) (q : ℕ)
    → is_entry slot q ≡ false
    → has q xs ≡ false
    → is_entry (last_slot slot xs) q ≡ false
is_entry-last_slot slot [] q i h = i
is_entry-last_slot slot (x ∷ xs) q i h =
    is_entry-last_slot (entry x) xs q (ground arith) (ground arith)

pub last_slot-eq-entry : (b : ℕ) (xs : List ℕ) → (k : ℕ) × (last_slot (entry b) xs ≡ entry k)
last_slot-eq-entry b [] = (b, refl)
last_slot-eq-entry b (x ∷ xs) = last_slot-eq-entry x xs

-- What leads through `xs` before, and from the slot behind `xs` through `ys` after, leads through
-- both after, if the words of `xs` before the last are the same.
pub graft :
    (c c' : Chain) (slot : Slot) (xs ys zs : List ℕ)
    → Follows c.mapping (read_slot slot c) (xs ++ zs)
    → Distinct xs
    → ((q : ℕ)
        → has q xs ≡ true
        → is_entry (last_slot slot xs) q ≡ false
        → c'.mapping q ≡ c.mapping q)
    → (xs ≡ []) ⊎ (read_slot slot c' ≡ read_slot slot c)
    → Follows c'.mapping (read_slot (last_slot slot xs) c') ys
    → Follows c'.mapping (read_slot slot c') (xs ++ ys)
graft c c' slot [] ys zs f d words same tail = tail
graft c c' slot (b ∷ xs) ys zs f d words (inl e) tail = absurd (cc)
graft c c' slot (b ∷ []) ys zs (e, x, f) d words (inr same) tail = (same ∙ e, x, tail)
graft c c' slot (b ∷ b' ∷ xs) ys zs (e, x, f) (d, ds) words (inr same) tail = (
  same ∙ e,
  x,
  graft c c' (entry b) (b' ∷ xs) ys zs f ds (λ q h i. words q (ground arith) i)
      (inr
        (words b (ground arith) (is_entry-last_slot (entry b') xs b (ground arith) (ground arith))))
      tail,
)
