-- ===== src/Memoria/Lookup.antt =====
-- memoria.c: what the searches for an entry of the cache and for a frame find.
use sisoputnfrba_tp_2016_2c.Base.{
  ℕ, zero, suc, ◌+◌, ◌<◌, ◌≤◌, ◌≡◌, refl, ap, subst, true, false, Option, none, some, arith, ◌==◌,
  if◌then◌else◌, some_inj, Bool-cases, inl, inr,
}
use sisoputnfrba_tp_2016_2c.Memoria.{Conf, InvertReg, CacheEntry, Memoria, cache_lock, cache_unlock}
use sisoputnfrba_tp_2016_2c.Memoria.Cache.{is_page, find_frame, entry_loop, get_cache_entry}

-- The table, the bytes and the cache are the same; locks and counts may differ.
abbrev pub Alike : Memoria → Memoria → Type 0
Alike m m' = (m'.invert_table ≡ m.invert_table) × (m'.memory ≡ m.memory) × (m'.cache ≡ m.cache)

-- The entry of a page, without the locks.
unfoldable pub find_entry : ℕ → ℕ → ℕ → ℕ → (ℕ → CacheEntry) → Option ℕ
find_entry zero entry pid page cache = none
find_entry (suc n) entry pid page cache =
    let rest = find_entry n (entry + 1) pid page cache in
    if is_page (some pid) page (cache entry).pid (cache entry).page then some entry else rest

entry_loop-find_entry :
    (n entry pid page : ℕ) (m : Memoria)
    → ((entry_loop n entry pid page m).0 ≡ find_entry n entry pid page m.cache)
      × Alike m (entry_loop n entry pid page m).1
unfolding entry_loop find_entry
entry_loop-find_entry zero entry pid page m = (refl, (refl, refl, refl))
entry_loop-find_entry (suc n) entry pid page m =
    elim (Bool-cases (is_page (some pid) page (m.cache entry).pid (m.cache entry).page)) [
      | inl here ↦ rw here (refl, (refl, refl, refl))
      | inr other ↦
          rw other
            (entry_loop-find_entry n (entry + 1) pid page (cache_unlock entry (cache_lock entry m)))
    ]

pub get_cache_entry-find_entry :
    (c : Conf) (pid page : ℕ) (m : Memoria)
    → ((get_cache_entry c pid page m).0 ≡ find_entry c.cache_entries 0 pid page m.cache)
      × Alike m (get_cache_entry c pid page m).1
unfolding get_cache_entry
get_cache_entry-find_entry c pid page m = entry_loop-find_entry c.cache_entries 0 pid page m

entry_loop-counts :
    (n entry pid page : ℕ) (m : Memoria)
    → (entry_loop n entry pid page m).1.cache_x_process_list ≡ m.cache_x_process_list
unfolding entry_loop
entry_loop-counts zero entry pid page m = refl
entry_loop-counts (suc n) entry pid page m =
    elim (Bool-cases (is_page (some pid) page (m.cache entry).pid (m.cache entry).page)) [
      | inl here ↦ rw here refl
      | inr other ↦
          rw other
            (entry_loop-counts n (entry + 1) pid page (cache_unlock entry (cache_lock entry m)))
    ]

-- A search for an entry does not count it.
pub get_cache_entry-counts :
    (c : Conf) (pid page : ℕ) (m : Memoria)
    → (get_cache_entry c pid page m).1.cache_x_process_list ≡ m.cache_x_process_list
unfolding get_cache_entry
get_cache_entry-counts c pid page m = entry_loop-counts c.cache_entries 0 pid page m

-- Where there is an entry for a page, and it is the only one, it is found.
pub find_entry-only :
    (n entry pid page k : ℕ) (cache : ℕ → CacheEntry)
    → ((q : ℕ)
        → q < entry + n
        → is_page (some pid) page (cache q).pid (cache q).page ≡ true
        → q ≡ k)
    → entry ≤ k
    → k < entry + n
    → is_page (some pid) page (cache k).pid (cache k).page ≡ true
    → find_entry n entry pid page cache ≡ some k
unfolding find_entry
find_entry-only zero entry pid page k cache u a b h = absurd (omega arith)
find_entry-only (suc n) entry pid page k cache u a b h =
    elim (Bool-cases (is_page (some pid) page (cache entry).pid (cache entry).page)) [
      | inl here ↦ rw here (ap some (u entry (omega arith) here))
      | inr other ↦ elim (Bool-cases (entry == k)) [
        | inl same ↦
            let e : entry ≡ k = ground (arith, same) in
            absurd (
              cc (
                subst (λ q. is_page (some pid) page (cache q).pid (cache q).page ≡ false) e other,
                h,
              ))
        | inr ne ↦ rw other (
            find_entry-only n (entry + 1) pid page k cache (λ q l i. u q (omega (arith, l)) i)
              (ground (arith, ne, a)) (omega (arith, b)) h)
      ]
    ]

-- What is found is an entry of the page.
pub find_entry-some :
    (n entry pid page k : ℕ) (cache : ℕ → CacheEntry)
    → find_entry n entry pid page cache ≡ some k
    → (k < entry + n) × (is_page (some pid) page (cache k).pid (cache k).page ≡ true)
unfolding find_entry
find_entry-some zero entry pid page k cache h = cc
find_entry-some (suc n) entry pid page k cache h =
    elim (Bool-cases (is_page (some pid) page (cache entry).pid (cache entry).page)) [
      | inl here ↦
          let e : entry ≡ k = some_inj entry k (rw here at h) in
          (
            omega (arith, e),
            subst (λ q. is_page (some pid) page (cache q).pid (cache q).page ≡ true) e here,
          )
      | inr other ↦
          let (l, i) = find_entry-some n (entry + 1) pid page k cache (rw other at h) in
          (omega (arith, l), i)
    ]

-- Where none is found, no entry is of the page.
pub find_entry-none :
    (n entry pid page k : ℕ) (cache : ℕ → CacheEntry)
    → find_entry n entry pid page cache ≡ none
    → entry ≤ k
    → k < entry + n
    → is_page (some pid) page (cache k).pid (cache k).page ≡ false
unfolding find_entry
find_entry-none zero entry pid page k cache h a b = absurd (omega arith)
find_entry-none (suc n) entry pid page k cache h a b =
    elim (Bool-cases (is_page (some pid) page (cache entry).pid (cache entry).page)) [
      | inl here ↦ absurd (cc (rw here at h))
      | inr other ↦ elim (Bool-cases (entry == k)) [
        | inl same ↦
            let e : entry ≡ k = ground (arith, same) in
            subst (λ q. is_page (some pid) page (cache q).pid (cache q).page ≡ false) e other
        | inr ne ↦
            find_entry-none n (entry + 1) pid page k cache (rw other at h) (ground (arith, ne, a))
              (omega (arith, b))
      ]
    ]

-- The frame that is found holds the page.
pub find_frame-some :
    (n frame : ℕ) (pid : Option ℕ) (page f : ℕ) (table : ℕ → InvertReg)
    → find_frame n frame pid page table ≡ some f
    → is_page pid page (table f).pid (table f).page ≡ true
unfolding find_frame
find_frame-some zero frame pid page f table h = cc
find_frame-some (suc n) frame pid page f table h =
    elim (Bool-cases (is_page pid page (table frame).pid (table frame).page)) [
      | inl here ↦
          let e : frame ≡ f = some_inj frame f (rw here at h) in
          subst (λ q. is_page pid page (table q).pid (table q).page ≡ true) e here
      | inr other ↦ find_frame-some n (frame + 1) pid page f table (rw other at h)
    ]
