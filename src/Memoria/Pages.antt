-- ===== src/Memoria/Pages.antt =====
-- memoria.c: update_cache keeps what the other pages hold.
use sisoputnfrba_tp_2016_2c.Base.{
  ℕ, ◌+◌, ◌*◌, ◌<◌, ◌≡◌, refl, ap, sym, subst, ◌∙◌, false, ◌&&◌, Option, none, some, arith, ◌==◌,
  ==_refl, some_inj, Bool-cases, inl, inr, ◌⊎◌, update,
}
use sisoputnfrba_tp_2016_2c.Memoria.{Conf, CacheEntry, Memoria}
use sisoputnfrba_tp_2016_2c.Memoria.Cache.{is_page}
use sisoputnfrba_tp_2016_2c.Memoria.Lookup.{
  find_entry, find_entry-only, find_entry-some, find_entry-none,
}
use sisoputnfrba_tp_2016_2c.Memoria.Coherence.{
  frame_of, seen, byte_of, HoldsPage, Backed, Coherent, WrittenBack, is_page-inv,
}

-- `entry` is filled with the page `page` of `pid`, which no other entry holds and which has the
-- frame `home`; `m1` is the memory behind the write back.
module _ (c : Conf) (entry pid page home : ℕ) (m m1 : Memoria) (new : CacheEntry) (i : Coherent c m)
    (inside : entry < c.cache_entries) (framed : frame_of c pid page m.invert_table ≡ some home)
    (only : (q : ℕ) → q < c.cache_entries → HoldsPage pid page m.cache q → q ≡ entry)
    (back : WrittenBack c entry pid page m m1) (named : new.pid ≡ some pid)
    (paged : new.page ≡ page)
    (clean : new.writed ≡ false
      → (off : ℕ) → off < c.frame_size
      → new.content off ≡ m1.memory (home * c.frame_size + off)) where
  abbrev pub after : Memoria
  after = record m1 { cache = update m1.cache entry new }

  abbrev Case : ℕ → ℕ → ℕ → Type 0
  Case p n q =
      ((q ≡ entry) × (p ≡ pid) × (n ≡ page)) ⊎ (((q == entry) ≡ false) × HoldsPage p n m.cache q)

  held-Case : (p n q : ℕ) → HoldsPage p n after.cache q → Case p n q
  held-Case p n q h = elim (Bool-cases (q == entry)) [
    | inl here ↦
        let (a, b) = is_page-inv p n _ _ (rw here at h) in
        inl (ground (arith, here), some_inj p pid (sym a ∙ named), sym b ∙ paged)
    | inr ne ↦ inr (ne, rw (ne, back.cache_same) at h)
  ]

  -- An entry that is another one holds another page.
  other_page :
      (p n q : ℕ)
      → q < c.cache_entries
      → (q == entry) ≡ false
      → HoldsPage p n m.cache q
      → ((pid == p) && (page == n)) ≡ false
  other_page p n q l ne h = elim (Bool-cases ((pid == p) && (page == n))) [
    | inl same ↦
        let a : p ≡ pid = ground (arith, same) in
        let b : n ≡ page = ground (arith, same) in
        absurd (ground (arith, ne, only q l (rw (a, b) at h)))
    | inr d ↦ d
  ]

  not_in_entry :
      (p n q : ℕ)
      → q < c.cache_entries
      → (q == entry) ≡ false
      → HoldsPage p n m.cache q
      → is_page (some p) n (m.cache entry).pid (m.cache entry).page ≡ false
  not_in_entry p n q l ne h =
      elim (Bool-cases (is_page (some p) n (m.cache entry).pid (m.cache entry).page)) [
        | inl both ↦ absurd (ground (arith, ne, i.alone p n q entry l inside h both))
        | inr d ↦ d
      ]

  new_at : after.cache entry ≡ new
  new_at = rw (==_refl entry) refl

  old_at : (q : ℕ) → (q == entry) ≡ false → after.cache q ≡ m.cache q
  old_at q ne = rw (ne, back.cache_same) refl

  entry-Backed : Backed c after pid page entry
  entry-Backed =
      (home, rw back.table_same framed, λ w off l. rw new_at (clean (rw new_at at w) off l))

  other-Backed :
      (p n q : ℕ)
      → q < c.cache_entries
      → (q == entry) ≡ false
      → HoldsPage p n m.cache q
      → Backed c after p n q
  other-Backed p n q l ne h =
      let (f, e, same) = i.backed p n q l h in
      (
        f,
        rw back.table_same e,
        λ w off k.
            let old = same (rw (old_at q ne) at w) off k in
            let kept = back.others p n f off e k (not_in_entry p n q l ne h) in
            rw (old_at q ne) (old ∙ sym kept),
      )

  after-Backed : (p n q : ℕ) → q < c.cache_entries → Case p n q → Backed c after p n q
  after-Backed p n q l (inl (e, a, b)) =
      subst (λ k. Backed c after p n k) (sym e)
        (subst (λ k. Backed c after k n entry) (sym a)
          (subst (λ k. Backed c after pid k entry) (sym b) entry-Backed))
  after-Backed p n q l (inr (ne, h)) = other-Backed p n q l ne h

  alone-Case :
      (p n q r : ℕ) → q < c.cache_entries → r < c.cache_entries → Case p n q → Case p n r → q ≡ r
  alone-Case p n q r l k (inl (e, a, b)) (inl (e', a', b')) = e ∙ sym e'
  alone-Case p n q r l k (inl (e, a, b)) (inr (ne, h)) =
      absurd (ground (arith, ne, only r k (rw (a, b) at h)))
  alone-Case p n q r l k (inr (ne, h)) (inl (e, a, b)) =
      absurd (ground (arith, ne, only q l (rw (a, b) at h)))
  alone-Case p n q r l k (inr (ne, h)) (inr (ne', h')) = i.alone p n q r l k h h'

  after-idle :
      (q : ℕ) → q < c.cache_entries → (after.cache q).pid ≡ none → (after.cache q).writed ≡ false
  after-idle q l h = elim (Bool-cases (q == entry)) [
    | inl here ↦ let h' : new.pid ≡ none = rw here at h in cc (h', named)
    | inr ne ↦ rw (old_at q ne) (i.idle q l (rw (old_at q ne) at h))
  ]

  pub after-Coherent : Coherent c after
  after-Coherent = record {
    alone = λ p n q r l k h h'. alone-Case p n q r l k (held-Case p n q h) (held-Case p n r h');
    backed = λ p n q l h. after-Backed p n q l (held-Case p n q h);
    idle = after-idle;
  }

  -- The page itself.
  pub byte_of-page : (off : ℕ) → byte_of c pid page after off ≡ new.content off
  byte_of-page off =
      let held : HoldsPage pid page after.cache entry =
        rw (new_at, named, paged, ==_refl pid, ==_refl page) in
      let found =
        find_entry-only c.cache_entries 0 pid page entry after.cache
          (λ q l h. after-Coherent.alone pid page q entry (omega (arith, l)) inside h held)
          (omega arith) (omega (arith, inside)) held in
      rw found (ap (λ x. x.content off) new_at)

  no_entry :
      (p n : ℕ) (o : Option ℕ)
      → find_entry c.cache_entries 0 p n after.cache ≡ o
      → ((q : ℕ) → q < c.cache_entries → Case p n q → ⊥)
      → find_entry c.cache_entries 0 p n after.cache ≡ none
  no_entry p n none e h = e
  no_entry p n (some q) e h =
      let (l, held) = find_entry-some c.cache_entries 0 p n q after.cache e in
      absurd (h q (omega (arith, l)) (held-Case p n q held))

  not_page : (p n : ℕ) → ((pid == p) && (page == n)) ≡ false → p ≡ pid → n ≡ page → ⊥
  not_page p n ne a b = ground (arith, ne, a, b)

  -- The page of an entry that is used again, and is in no entry any more.
  evicted_byte :
      (p n f off : ℕ)
      → frame_of c p n m.invert_table ≡ some f
      → off < c.frame_size
      → ((pid == p) && (page == n)) ≡ false
      → HoldsPage p n m.cache entry
      → byte_of c p n after off ≡ (m.cache entry).content off
  evicted_byte p n f off e l ne h =
      let gone = no_entry p n _ refl λ q k case. elim case [
        | inl (here, a, b) ↦ not_page p n ne a b
        | inr (ne', h') ↦ ground (arith, ne', i.alone p n q entry k inside h' h)
      ] in
      rw (gone, back.table_same, e) (back.evicted p n f off e l h ne)

  -- Another page, by the entry that held it before.
  other_byte :
      (p n f off : ℕ) (o : Option ℕ)
      → frame_of c p n m.invert_table ≡ some f
      → off < c.frame_size
      → ((pid == p) && (page == n)) ≡ false
      → find_entry c.cache_entries 0 p n m.cache ≡ o
      → byte_of c p n after off ≡ seen c o (some f) m off
  other_byte p n f off none e l ne h =
      let out : (q : ℕ)
          → q < c.cache_entries
          → is_page (some p) n (m.cache q).pid (m.cache q).page ≡ false =
        λ q k. find_entry-none c.cache_entries 0 p n q m.cache h (omega arith) (omega (arith, k)) in
      let gone = no_entry p n _ refl λ q k case. elim case [
        | inl (here, a, b) ↦ not_page p n ne a b
        | inr (ne', h') ↦ cc (out q k, h')
      ] in
      rw (gone, back.table_same, e) (back.others p n f off e l (out entry inside))
  other_byte p n f off (some q) e l ne h =
      let (k, held) = find_entry-some c.cache_entries 0 p n q m.cache h in
      let k' : q < c.cache_entries = omega (arith, k) in
      elim (Bool-cases (q == entry)) [
        | inl here ↦
            let same : q ≡ entry = ground (arith, here) in
            evicted_byte p n f off e l ne (rw same at held)
            ∙ ap (λ x. (m.cache x).content off) (sym same)
        | inr away ↦
            let held' : HoldsPage p n after.cache q = rw (old_at q away) held in
            let found =
              find_entry-only c.cache_entries 0 p n q after.cache
                (λ r j h'. after-Coherent.alone p n r q (omega (arith, j)) k' h' held')
                (omega arith) k held' in
            rw found (ap (λ x. x.content off) (old_at q away))
      ]

  pub byte_of-other :
      (p n f off : ℕ)
      → frame_of c p n m.invert_table ≡ some f
      → off < c.frame_size
      → ((pid == p) && (page == n)) ≡ false
      → byte_of c p n after off ≡ byte_of c p n m off
  byte_of-other p n f off e l ne = other_byte p n f off _ e l ne refl ∙ sym (rw e refl)
