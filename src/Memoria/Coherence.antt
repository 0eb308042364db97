-- ===== src/Memoria/Coherence.antt =====
-- memoria.c: the pages as a process sees them, through the cache or in their frames.
use sisoputnfrba_tp_2016_2c.Base.{
  ℕ, ◌+◌, ◌-◌, ◌*◌, ◌<◌, ◌≤◌, ◌≡◌, refl, ap, sym, subst, ◌∙◌, Bool, true, false, ◌&&◌, not, Option,
  none, some, arith, ◌==◌, some_inj, Bool-cases, inl, inr, ltb,
}
use native.Mathlib.Nat.{mul-le-mul_right}
use sisoputnfrba_tp_2016_2c.Memoria.{
  Conf, InvertReg, CacheEntry, Memoria, memory_lock, memory_unlock,
}
use sisoputnfrba_tp_2016_2c.Memoria.Cache.{
  copy_to, is_page, find_frame, get_frame, writing_memory, write_back,
}
use sisoputnfrba_tp_2016_2c.Memoria.Lookup.{find_entry, find_frame-some}

-- The frame of a page of a process.
abbrev pub frame_of : Conf → ℕ → ℕ → (ℕ → InvertReg) → Option ℕ
frame_of c pid page table = find_frame c.frames 0 (some pid) page table

-- A byte of a page: the one of its entry, or of its frame.
abbrev pub seen : Conf → Option ℕ → Option ℕ → Memoria → ℕ → ℕ
seen c (some entry) f m off = (m.cache entry).content off
seen c none (some frame) m off = m.memory (frame * c.frame_size + off)
seen c none none m off = 0

abbrev pub byte_of : Conf → ℕ → ℕ → Memoria → ℕ → ℕ
byte_of c pid page m off =
    seen c (find_entry c.cache_entries 0 pid page m.cache) (frame_of c pid page m.invert_table) m
      off

-- The entry `q` holds the page.
abbrev pub HoldsPage : ℕ → ℕ → (ℕ → CacheEntry) → ℕ → Type 0
HoldsPage pid page cache q = is_page (some pid) page (cache q).pid (cache q).page ≡ true

-- An entry that has not been written to since it was filled has the bytes of its frame.
abbrev pub Backed : Conf → Memoria → ℕ → ℕ → ℕ → Type 0
Backed c m pid page q =
    (f : ℕ) × (frame_of c pid page m.invert_table ≡ some f)
    × ((m.cache q).writed ≡ false
        → (off : ℕ) → off < c.frame_size
        → (m.cache q).content off ≡ m.memory (f * c.frame_size + off))

-- A page is in one entry at most, a page in the cache has a frame, and an entry of no process has
-- not been written to.
pub record Coherent (c : Conf) (m : Memoria) : Type 0 where
  pub alone :
      (pid page q r : ℕ)
      → q < c.cache_entries
      → r < c.cache_entries
      → HoldsPage pid page m.cache q
      → HoldsPage pid page m.cache r
      → q ≡ r
  pub backed :
      (pid page q : ℕ) → q < c.cache_entries → HoldsPage pid page m.cache q → Backed c m pid page q
  pub idle : (q : ℕ) → q < c.cache_entries → (m.cache q).pid ≡ none → (m.cache q).writed ≡ false

pub copy_to-inside :
    (at n : ℕ) (src dst : ℕ → ℕ) (a : ℕ)
    → at ≤ a
    → a < at + n
    → copy_to at n src dst a ≡ src (a - at)
unfolding copy_to
copy_to-inside at n src dst a l h = ground arith

pub copy_to-before : (at n : ℕ) (src dst : ℕ → ℕ) (a : ℕ) → a < at → copy_to at n src dst a ≡ dst a
unfolding copy_to
copy_to-before at n src dst a h = ground arith

pub copy_to-behind :
    (at n : ℕ) (src dst : ℕ → ℕ) (a : ℕ) → at + n ≤ a → copy_to at n src dst a ≡ dst a
unfolding copy_to
copy_to-behind at n src dst a h = ground arith

pub is_page-inv :
    (p n : ℕ) (x : Option ℕ) (k : ℕ) → is_page (some p) n x k ≡ true → (x ≡ some p) × (k ≡ n)
is_page-inv p n none k h = cc
is_page-inv p n (some q) k h =
    let a : q ≡ p = ground arith in let b : k ≡ n = ground arith in (ap some a, b)

-- Two pages have two frames.
apart :
    (c : Conf) (p n q k f g : ℕ) (table : ℕ → InvertReg)
    → frame_of c p n table ≡ some f
    → frame_of c q k table ≡ some g
    → ((p == q) && (n == k)) ≡ false
    → f ≡ g
    → ⊥
apart c p n q k f g table hf hg ne e =
    let (a, b) = is_page-inv p n _ _ (find_frame-some c.frames 0 (some p) n f table hf) in
    let (a', b') = is_page-inv q k _ _ (find_frame-some c.frames 0 (some q) k g table hg) in
    let t : (table f).pid ≡ (table g).pid = ap (λ x. (table x).pid) e in
    let u : (table f).page ≡ (table g).page = ap (λ x. (table x).page) e in
    let s : p ≡ q = some_inj p q (sym a ∙ t ∙ a') in
    let r : n ≡ k = sym b ∙ u ∙ b' in ground (arith, ne, s, r)

own_frame :
    (f size off : ℕ) (src dst : ℕ → ℕ)
    → off < size
    → copy_to (f * size) size src dst (f * size + off) ≡ src off
own_frame f size off src dst l =
    copy_to-inside (f * size) size src dst (f * size + off) (omega arith) (omega (arith, l))
    ∙ ap src (omega arith)

-- A byte of another frame is not touched when a frame is written.
other_frame :
    (f g size off : ℕ) (src dst : ℕ → ℕ)
    → (f ≡ g → ⊥)
    → off < size
    → copy_to (f * size) size src dst (g * size + off) ≡ dst (g * size + off)
other_frame f g size off src dst ne l = elim (Bool-cases (ltb g f)) [
  | inl less ↦
      let h : g + 1 ≤ f = ground (arith, less) in
      let k : (g + 1) * size ≤ f * size = mul-le-mul_right size h in
      copy_to-before (f * size) size src dst (g * size + off) (omega (arith, k, l))
  | inr more ↦ elim (Bool-cases (ltb f g)) [
    | inl less ↦
        let h : f + 1 ≤ g = ground (arith, less) in
        let k : (f + 1) * size ≤ g * size = mul-le-mul_right size h in
        copy_to-behind (f * size) size src dst (g * size + off) (omega (arith, k))
    | inr same ↦ absurd (ne (ground (arith, more, same)))
  ]
]

-- After the write back for `entry` and a page that it is not written back for: the table and the
-- cache are the same; the frame of the page that the entry holds has its bytes, if it is another
-- page; the other frames are the same.
pub record WrittenBack (c : Conf) (entry pid page : ℕ) (m m' : Memoria) : Type 0 where
  pub table_same : m'.invert_table ≡ m.invert_table
  pub cache_same : m'.cache ≡ m.cache
  pub evicted :
      (p n f off : ℕ)
      → frame_of c p n m.invert_table ≡ some f
      → off < c.frame_size
      → HoldsPage p n m.cache entry
      → ((pid == p) && (page == n)) ≡ false
      → m'.memory (f * c.frame_size + off) ≡ (m.cache entry).content off
  pub others :
      (p n f off : ℕ)
      → frame_of c p n m.invert_table ≡ some f
      → off < c.frame_size
      → is_page (some p) n (m.cache entry).pid (m.cache entry).page ≡ false
      → m'.memory (f * c.frame_size + off) ≡ m.memory (f * c.frame_size + off)

-- An entry that is not written back.
kept-WrittenBack :
    (c : Conf) (entry pid page : ℕ) (m : Memoria)
    → ((p n : ℕ) → HoldsPage p n m.cache entry → Backed c m p n entry)
    → ((p n : ℕ)
        → HoldsPage p n m.cache entry
        → ((pid == p) && (page == n)) ≡ false
        → (m.cache entry).writed ≡ false)
    → WrittenBack c entry pid page m m
kept-WrittenBack c entry pid page m b clean = record {
  table_same = refl;
  cache_same = refl;
  evicted = λ p n f off e l h ne.
      let (g, e', same) = b p n h in
      let fg : g ≡ f = some_inj g f (sym e' ∙ e) in
      subst (λ x. m.memory (x * c.frame_size + off) ≡ (m.cache entry).content off) fg
        (sym (same (clean p n h ne) off l));
  others = λ p n f off e l h. refl;
}

-- The entry holds the page `q`, `k`, and it goes to its frame `g`.
flushed-WrittenBack :
    (c : Conf) (entry pid page q k g : ℕ) (m m' : Memoria)
    → frame_of c q k m.invert_table ≡ some g
    → (m.cache entry).pid ≡ some q
    → (m.cache entry).page ≡ k
    → m'.invert_table ≡ m.invert_table
    → m'.cache ≡ m.cache
    → m'.memory ≡ copy_to (g * c.frame_size) c.frame_size (m.cache entry).content m.memory
    → WrittenBack c entry pid page m m'
flushed-WrittenBack c entry pid page q k g m m' e hp hn t u w = record {
  table_same = t;
  cache_same = u;
  evicted = λ p n f off e' l h ne.
      let (a, b) = is_page-inv p n _ _ h in
      let qp : q ≡ p = some_inj q p (sym hp ∙ a) in
      let kn : k ≡ n = sym hn ∙ b in
      let same : g ≡ f = some_inj g f (sym (rw (qp, kn) at e) ∙ e') in
      rw (w, same) (own_frame f c.frame_size off (m.cache entry).content m.memory l);
  others = λ p n f off e' l h.
      let ne : ((q == p) && (k == n)) ≡ false = rw (hp, hn) at h in
      rw w (
        other_frame g f c.frame_size off (m.cache entry).content m.memory
          (λ s. apart c q k p n g f m.invert_table e e' ne s) l);
}

-- What write_back ends with, whatever the page.
abbrev pub BackEnds : Conf → ℕ → ℕ → ℕ → Memoria → Type 0
BackEnds c entry pid page m =
    (m' : Memoria) × (write_back c entry pid page m ≡ some m') × WrittenBack c entry pid page m m'

not_held : (p n k : ℕ) (x : Option ℕ) → x ≡ none → is_page (some p) n x k ≡ true → ⊥
not_held p n k x e h = cc (rw e at h)

and_false : (b : Bool) → (b && false) ≡ false
and_false true = refl
and_false false = refl

write_back-stays :
    (c : Conf) (entry pid page : ℕ) (m : Memoria)
    → (not (is_page (some pid) page (m.cache entry).pid (m.cache entry).page)
        && (m.cache entry).writed)
      ≡ false
    → write_back c entry pid page m ≡ some m
unfolding write_back
write_back-stays c entry pid page m h = rw h refl

write_back-flushes :
    (c : Conf) (entry pid page g : ℕ) (m : Memoria)
    → is_page (some pid) page (m.cache entry).pid (m.cache entry).page ≡ false
    → (m.cache entry).writed ≡ true
    → find_frame c.frames 0 (m.cache entry).pid (m.cache entry).page m.invert_table ≡ some g
    → write_back c entry pid page m
      ≡ some (
          memory_unlock g (record (memory_lock g m) {
            memory = copy_to (g * c.frame_size + 0) c.frame_size (m.cache entry).content m.memory;
          }))
unfolding write_back writing_memory get_frame
write_back-flushes c entry pid page g m other hw e = rw (other, hw, e)

-- A page that is held twice is the same page.
pub same_held :
    (p n q k : ℕ) (x : Option ℕ) (y : ℕ)
    → is_page (some p) n x y ≡ true
    → is_page (some q) k x y ≡ true
    → ((p == q) && (n == k)) ≡ false
    → ⊥
same_held p n q k x y h h' ne =
    let (a, b) = is_page-inv p n x y h in
    let (a', b') = is_page-inv q k x y h' in
    let s : p ≡ q = some_inj p q (sym a ∙ a') in
    let r : n ≡ k = sym b ∙ b' in ground (arith, ne, s, r)

pub write_back-BackEnds :
    (c : Conf) (entry pid page : ℕ) (m : Memoria) (x : Option ℕ) (w : Bool)
    → Coherent c m
    → entry < c.cache_entries
    → (m.cache entry).pid ≡ x
    → (m.cache entry).writed ≡ w
    → BackEnds c entry pid page m
write_back-BackEnds c entry pid page m none w i l hx hw =
    let clean = i.idle entry l hx in
    (
      m,
      write_back-stays c entry pid page m (rw clean (and_false _)),
      kept-WrittenBack c entry pid page m (λ p n h. absurd (not_held p n _ _ hx h))
          (λ p n h ne. clean),
    )
write_back-BackEnds c entry pid page m (some q) false i l hx hw = (
  m,
  write_back-stays c entry pid page m (rw hw (and_false _)),
  kept-WrittenBack c entry pid page m (λ p n h. i.backed p n entry l h) (λ p n h ne. hw),
)
write_back-BackEnds c entry pid page m (some q) true i l hx hw =
    elim (Bool-cases (is_page (some pid) page (m.cache entry).pid (m.cache entry).page)) [
      | inl same ↦ (
        m,
        write_back-stays c entry pid page m (rw same refl),
        kept-WrittenBack c entry pid page m (λ p n h. i.backed p n entry l h)
            (λ p n h ne. absurd (same_held pid page p n _ _ same h ne)),
      )
      | inr other ↦
          let k = (m.cache entry).page in
          let held : HoldsPage q k m.cache entry = rw hx (ground arith) in
          let (g, e, _) = i.backed q k entry l held in
          let e' : find_frame c.frames 0 (m.cache entry).pid k m.invert_table ≡ some g = rw hx e in
          (
            _,
            write_back-flushes c entry pid page g m other hw e',
            flushed-WrittenBack c entry pid page q k g m _ e hx refl refl refl
                (ap (λ a. copy_to a c.frame_size (m.cache entry).content m.memory) (omega arith)),
          )
    ]
