-- ===== src/Memoria/Requests.antt =====
-- memoria.c: what a read and a write of a page do to the pages that the processes see.
use sisoputnfrba_tp_2016_2c.Base.{
  ℕ, ◌+◌, ◌-◌, ◌*◌, ◌<◌, ◌≤◌, ◌≡◌, refl, ap, sym, ◌∙◌, Bool, true, false, ◌&&◌, Option, none, some,
  arith, ◌==◌, some_inj, leb,
}
use sisoputnfrba_tp_2016_2c.Memoria.{Conf, CacheEntry, Memoria, cache_unlock}
use sisoputnfrba_tp_2016_2c.Memoria.Cache.{
  copy_to, is_page, get_cache_entry, assign_cache_entry, set_entry, update_cache, entry_or_new,
  on_entry, writing_cache,
}
use sisoputnfrba_tp_2016_2c.Memoria.Lookup.{
  Alike, find_entry, find_entry-some, find_entry-none, get_cache_entry-find_entry,
  get_cache_entry-counts,
}
use sisoputnfrba_tp_2016_2c.Memoria.Choice.{
  Chosen, chosen, assign_cache_entry-Chosen, BelowLimit, IsGiven, assign_cache_entry-IsGiven,
}
use sisoputnfrba_tp_2016_2c.Memoria.Coherence.{
  frame_of, seen, byte_of, HoldsPage, Coherent, write_back-BackEnds, copy_to-inside,
}
use sisoputnfrba_tp_2016_2c.Memoria.Pages.{after-Coherent, byte_of-page, byte_of-other}

-- What does not depend on locks and counts.
pub Coherent-Alike : (c : Conf) (m m' : Memoria) → Alike m m' → Coherent c m → Coherent c m'
Coherent-Alike c m m' (a, b, d) i = record {
  alone = λ p n q r l k h h'. i.alone p n q r l k (rw d at h) (rw d at h');
  backed = λ p n q l h.
      let (f, e, s) = i.backed p n q l (rw d at h) in
      (f, rw a e, λ w off k. rw (b, d) (s (rw d at w) off k));
  idle = λ q l h. rw d (i.idle q l (rw d at h));
}

pub byte_of-Alike :
    (c : Conf) (m m' : Memoria) (p n off : ℕ)
    → Alike m m'
    → byte_of c p n m' off ≡ byte_of c p n m off
byte_of-Alike c m m' p n off (a, b, d) =
    go (find_entry c.cache_entries 0 p n m.cache) (frame_of c p n m.invert_table)
      (ap (find_entry c.cache_entries 0 p n) d) (ap (frame_of c p n) a)
  where
    go :
        (o f : Option ℕ)
        → find_entry c.cache_entries 0 p n m'.cache ≡ o
        → frame_of c p n m'.invert_table ≡ f
        → byte_of c p n m' off ≡ seen c o f m off
    go (some q) f e e' = rw (e, d)
    go none none e e' = rw (e, e')
    go none (some f) e e' = rw (e, e', b)

-- The entry for a page is in the cache, and no other entry holds the page.
pub record Picked (c : Conf) (pid page : ℕ) (m : Memoria) (r : Option ℕ × Memoria) : Type 0 where
  pub at_entry : ℕ
  pub is_it : r.0 ≡ some at_entry
  pub in_cache : at_entry < c.cache_entries
  pub sole : (q : ℕ) → q < c.cache_entries → HoldsPage pid page m.cache q → q ≡ at_entry
  pub like : Alike m r.1

Alike-then : (m m1 m2 : Memoria) → Alike m m1 → Alike m1 m2 → Alike m m2
Alike-then m m1 m2 (a, b, d) (a', b', d') = (a' ∙ a, b' ∙ b, d' ∙ d)

-- The entry that assign_cache_entry gives for a page that is in no entry.
pub assigned-Picked :
    (c : Conf) (pid page : ℕ) (m m1 : Memoria) (r : Option ℕ × Memoria)
    → Alike m m1
    → find_entry c.cache_entries 0 pid page m.cache ≡ none
    → IsGiven r.0
    → Chosen c.cache_entries m1 r
    → Picked c pid page m r
assigned-Picked c pid page m m1 (none, m2) a out g k = elim g [ ]
assigned-Picked c pid page m m1 (some e, m2) a out g (chosen l a') = record {
  at_entry = e;
  is_it = refl;
  in_cache = l;
  sole = λ q k h.
      let f =
        find_entry-none c.cache_entries 0 pid page q m.cache out (omega arith) (omega (arith, k)) in
      cc (f, h);
  like = Alike-then m m1 m2 a a';
}

found-Picked :
    (c : Conf) (pid page : ℕ) (m : Memoria) (r : Option ℕ × Memoria)
    → Coherent c m
    → 0 < c.cache_entries
    → BelowLimit c pid m
    → r.0 ≡ find_entry c.cache_entries 0 pid page m.cache
    → Alike m r.1
    → r.1.cache_x_process_list ≡ m.cache_x_process_list
    → Picked c pid page m (entry_or_new c pid r)
found-Picked c pid page m (some e, m1) i some_entry below f a n =
    let (l, h) = find_entry-some c.cache_entries 0 pid page e m.cache (sym f) in
    let l' : e < c.cache_entries = omega (arith, l) in
    record {
      at_entry = e;
      is_it = refl;
      in_cache = l';
      sole = λ q k h'. i.alone pid page q e k l' h' h;
      like = a;
    }
found-Picked c pid page m (none, m1) i some_entry below f a n =
    assigned-Picked c pid page m m1 (assign_cache_entry c pid m1) a (sym f)
      (assign_cache_entry-IsGiven c pid m1 some_entry (rw n below))
      (assign_cache_entry-Chosen c pid m1)

entry_or_new-Picked :
    (c : Conf) (pid page : ℕ) (m : Memoria)
    → Coherent c m
    → 0 < c.cache_entries
    → BelowLimit c pid m
    → Picked c pid page m (entry_or_new c pid (get_cache_entry c pid page m))
entry_or_new-Picked c pid page m i some_entry below =
    let (f, a) = get_cache_entry-find_entry c pid page m in
    found-Picked c pid page m (get_cache_entry c pid page m) i some_entry below f a
      (get_cache_entry-counts c pid page m)

-- The other pages are as they were.
abbrev pub OthersKept : Conf → ℕ → ℕ → Memoria → Memoria → Type 0
OthersKept c pid page m m' =
    (p n f off : ℕ)
    → frame_of c p n m.invert_table ≡ some f
    → off < c.frame_size
    → ((pid == p) && (page == n)) ≡ false
    → byte_of c p n m' off ≡ byte_of c p n m off

-- update_cache has filled an entry with the page: from the bytes `old` and those of `buffer` in the
-- state `mid` behind the write back.
pub record Updated (c : Conf) (e pid page home offset size : ℕ) (buffer : Memoria → ℕ → ℕ)
    (m y : Memoria) : Type 0 where
  pub mid : Memoria
  pub old : ℕ → ℕ
  pub same_memory : y.memory ≡ mid.memory
  pub coherent : Coherent c y
  pub table : y.invert_table ≡ m.invert_table
  pub bytes : (off : ℕ) → byte_of c pid page y off ≡ copy_to offset size (buffer mid) old off
  pub kept : OthersKept c pid page m y
  pub home_kept :
      (off : ℕ)
      → off < c.frame_size
      → is_page (some pid) page (m.cache e).pid (m.cache e).page ≡ false
      → mid.memory (home * c.frame_size + off) ≡ m.memory (home * c.frame_size + off)

pub update_cache-Updated :
    (c : Conf) (e pid page home offset size : ℕ) (buffer : Memoria → ℕ → ℕ) (w : Bool) (now : ℕ)
    (m x : Memoria)
    → offset + size ≤ c.frame_size
    → Coherent c m
    → frame_of c pid page m.invert_table ≡ some home
    → e < c.cache_entries
    → ((q : ℕ) → q < c.cache_entries → HoldsPage pid page m.cache q → q ≡ e)
    → Alike m x
    → ((z : Memoria) (old : ℕ → ℕ) (off : ℕ)
        → w ≡ false
        → off < c.frame_size
        → copy_to offset size (buffer z) old off ≡ z.memory (home * c.frame_size + off))
    → (y : Memoria) × (update_cache c e pid page offset size buffer w now x ≡ some y)
      × Updated c e pid page home offset size buffer m y
unfolding update_cache
update_cache-Updated c e pid page home offset size buffer w now m x fit i framed l sole (a, b, d)
      fills =
    let inside : leb (offset + size) c.frame_size ≡ true = ground (arith, fit) in
    let j = Coherent-Alike c m x (a, b, d) i in
    let (z, run, back) = write_back-BackEnds c e pid page x _ _ j l refl refl in
    let new : CacheEntry = record {
      pid = some pid;
      page = page;
      content = copy_to offset size (buffer z) (z.cache e).content;
      writed = w;
      last_used_time = now;
    } in
    let framed' : frame_of c pid page x.invert_table ≡ some home = rw a framed in
    let sole' : (q : ℕ) → q < c.cache_entries → HoldsPage pid page x.cache q → q ≡ e =
      λ q k h. sole q k (rw d at h) in
    let clean : w ≡ false
        → (off : ℕ) → off < c.frame_size
        → new.content off ≡ z.memory (home * c.frame_size + off) =
      λ u off k. fills z (z.cache e).content off u k in
    (
      set_entry e pid page offset size (buffer z) w now z,
      rw (run, inside) refl,
      record {
        mid = z;
        old = (z.cache e).content;
        same_memory = refl;
        coherent = after-Coherent c e pid page home x z new j l framed' sole' back refl refl clean;
        table = back.table_same ∙ a;
        bytes = byte_of-page c e pid page home x z new j l framed' sole' back refl refl clean;
        kept = λ p n f off g k ne.
            byte_of-other c e pid page home x z new j l framed' sole' back refl refl clean p n f off
              (rw a g) k ne
            ∙ byte_of-Alike c m x p n off (a, b, d);
        home_kept = λ off k out.
            back.others pid page home off framed' k (rw d out)
            ∙ ap (λ f. f (home * c.frame_size + off)) b;
      },
    )

-- A write has ended: the bytes written are seen, and the other pages are as they were.
pub record Wrote (c : Conf) (pid page offset size : ℕ) (buffer : ℕ → ℕ) (m m' : Memoria)
    : Type 0 where
  pub coherent : Coherent c m'
  pub table : m'.invert_table ≡ m.invert_table
  pub written :
      (off : ℕ)
      → offset ≤ off
      → off < offset + size
      → byte_of c pid page m' off ≡ buffer (off - offset)
  pub kept : OthersKept c pid page m m'

pub on_entry-given :
    {A : Type 0} (r : Option ℕ × Memoria) (go : ℕ → Memoria → Option A) (e : ℕ)
    → r.0 ≡ some e
    → on_entry r go ≡ go e r.1
on_entry-given (none, m) go e h = cc
on_entry-given (some d, m) go e h = ap (λ x. go x m) (some_inj d e h)

written-Wrote :
    (c : Conf) (e pid page home offset size : ℕ) (buffer : ℕ → ℕ) (m y y' : Memoria)
    → Updated c e pid page home offset size (λ z. buffer) m y
    → Alike y y'
    → Wrote c pid page offset size buffer m y'
written-Wrote c e pid page home offset size buffer m y y' u a = record {
  coherent = Coherent-Alike c y y' a u.coherent;
  table = a.0 ∙ u.table;
  written = λ off l h.
      byte_of-Alike c y y' pid page off a
      ∙ u.bytes off
      ∙ copy_to-inside offset size buffer u.old off l h;
  kept = λ p n f off g k ne. byte_of-Alike c y y' p n off a ∙ u.kept p n f off g k ne;
}

-- No lock is held, by this thread or another one.
abbrev pub Unlocked : Memoria → Type 0
Unlocked m = ((f : ℕ) → m.memory_locks f ≡ 0) × ((q : ℕ) → m.cache_memory_locks q ≡ 0)

-- writing_cache for bytes within a page that has a frame, where the cache has an entry, no lock of a
-- frame or of an entry is held and the process is below its limit of entries: it ends, the bytes that are written are seen in the page from then on, no
-- byte of another page changes, whichever page has to leave the cache for it, and the cache stays
-- coherent with the memory.
pub writing_cache-Wrote :
    (c : Conf) (pid page home offset size : ℕ) (buffer : ℕ → ℕ) (now : ℕ) (m : Memoria)
    → offset + size ≤ c.frame_size
    → Unlocked m
    → Coherent c m
    → frame_of c pid page m.invert_table ≡ some home
    → 0 < c.cache_entries
    → BelowLimit c pid m
    → (m' : Memoria) × (writing_cache c pid page offset size buffer now m ≡ some m')
      × Wrote c pid page offset size buffer m m'
unfolding writing_cache
writing_cache-Wrote c pid page home offset size buffer now m fit free i framed some_entry below =
    let r = entry_or_new c pid (get_cache_entry c pid page m) in
    let k = entry_or_new-Picked c pid page m i some_entry below in
    let (y, run, u) =
      update_cache-Updated c k.at_entry pid page home offset size (λ z. buffer) true now m r.1 fit i
        framed k.in_cache k.sole k.like (λ z old off t. cc) in
    (
      cache_unlock k.at_entry y,
      on_entry-given r _ k.at_entry k.is_it ∙ rw run refl,
      written-Wrote c k.at_entry pid page home offset size buffer m y _ u (refl, refl, refl),
    )
