-- ===== src/Memoria/Cache.antt =====
-- memoria.c: reading and writing a page through the cache. `none`: bytes outside the arrays would
-- be read or written, since no frame or no entry was found, or more bytes are written to an entry
-- than it has; the bytes that a read sends may lie behind the page. The delay of the memory and the
-- messages on the socket are left out.
use sisoputnfrba_tp_2016_2c.Base.{
  ℕ, zero, suc, ◌+◌, ◌-◌, ◌*◌, ◌%◌, ◌^◌, Bool, true, false, ◌&&◌, not, List, [], ◌∷◌, Option, none,
  some, ◌==◌, ltb, leb, if◌then◌else◌, update, ◌>>=◌,
}
use sisoputnfrba_tp_2016_2c.Memoria.{
  Conf, InvertReg, Memoria, same_pid, memory_lock, memory_unlock, cache_lock, cache_unlock,
}

-- `memcpy` of `n` bytes of `src` to the bytes of `dst` from `at` on.
unfoldable pub copy_to : ℕ → ℕ → (ℕ → ℕ) → (ℕ → ℕ) → ℕ → ℕ
copy_to at n src dst a = if leb at a && ltb a (at + n) then src (a - at) else dst a

-- The test of get_frame and get_cache_entry.
abbrev pub is_page : Option ℕ → ℕ → Option ℕ → ℕ → Bool
is_page pid page q n = same_pid q pid && (n == page)

-- The loop of get_frame from `frame` on, `n` frames. `none` is the number of frames.
unfoldable pub find_frame : ℕ → ℕ → Option ℕ → ℕ → (ℕ → InvertReg) → Option ℕ
find_frame zero frame pid page table = none
find_frame (suc n) frame pid page table =
    let rest = find_frame n (frame + 1) pid page table in
    if is_page pid page (table frame).pid (table frame).page then some frame else rest

-- get_frame, whose lock is taken where a frame is found.
abbrev pub locked_frame : Option ℕ → Memoria → Option (ℕ × Memoria)
locked_frame none m = none
locked_frame (some frame) m = some (frame, memory_lock frame m)

unfoldable pub get_frame : Conf → Option ℕ → ℕ → Memoria → Option (ℕ × Memoria)
get_frame c pid page m = locked_frame (find_frame c.frames 0 pid page m.invert_table) m

unfoldable pub writing_memory : Conf → Option ℕ → ℕ → ℕ → ℕ → (ℕ → ℕ) → Memoria → Option Memoria
writing_memory c pid page offset size buffer m = do
  (frame, m') ← get_frame c pid page m
  some (
      memory_unlock frame
        (record m' { memory = copy_to (frame * c.frame_size + offset) size buffer m'.memory }))

-- The loop of get_cache_entry, which keeps the lock of the entry that it finds. `none` is
-- CACHE_MISS.
unfoldable pub entry_loop : ℕ → ℕ → ℕ → ℕ → Memoria → Option ℕ × Memoria
entry_loop zero entry pid page m = (none, m)
entry_loop (suc n) entry pid page m =
    let m' = cache_lock entry m in
    let rest = entry_loop n (entry + 1) pid page (cache_unlock entry m') in
    if is_page (some pid) page (m.cache entry).pid (m.cache entry).page
    then (some entry, m')
    else rest

unfoldable pub get_cache_entry : Conf → ℕ → ℕ → Memoria → Option ℕ × Memoria
get_cache_entry c pid page m = entry_loop c.cache_entries 0 pid page m

-- `entries` is an int16_t, kept as its 16 bits; it is compared with a `uint32_t`.
abbrev pub as_unsigned : ℕ → ℕ
as_unsigned n = if ltb n (2 ^ 15) then n else n + (2 ^ 32 - 2 ^ 16)

-- The count of entries of a process in assign_cache_entry: whether it is at its limit, and the list
-- with one entry more where it is not.
unfoldable pub count_entry : ℕ → ℕ → List (ℕ × ℕ) → Bool × List (ℕ × ℕ)
count_entry limit pid [] = (false, (pid, 1) ∷ [])
count_entry limit pid ((q, n) ∷ ps) =
    let rest = count_entry limit pid ps in
    if q == pid
    then (if leb limit (as_unsigned n)
        then (true, (q, n) ∷ ps)
        else (false, (q, (n + 1) % 2 ^ 16) ∷ ps))
    else (rest.0, (q, n) ∷ rest.1)

-- least_recently_used: the entry kept so far, or the new one if it was used before; the lock of the
-- other one is given back.
unfoldable pub least_recently_used : ℕ → Option ℕ → Memoria → Option ℕ × Memoria
least_recently_used entry none m = (some entry, m)
least_recently_used entry (some lru) m =
    if ltb (m.cache entry).last_used_time (m.cache lru).last_used_time
    then (some entry, cache_unlock lru m)
    else (some lru, cache_unlock entry m)

abbrev pub unlock_some : Option ℕ → Memoria → Memoria
unlock_some none m = m
unlock_some (some lru) m = cache_unlock lru m

-- The loop of assign_cache_entry with `max_entries_exceeded`: only entries of the process.
unfoldable pub own_loop : ℕ → ℕ → ℕ → Option ℕ → Memoria → Option ℕ × Memoria
own_loop zero entry pid lru m = (lru, m)
own_loop (suc n) entry pid lru m =
    let m' = cache_lock entry m in
    let r =
      if same_pid (m.cache entry).pid (some pid)
      then least_recently_used entry lru m'
      else (lru, m') in
    own_loop n (entry + 1) pid r.0 r.1

-- The loop without it: the first free entry, or the least recently used one.
unfoldable pub any_loop : ℕ → ℕ → Option ℕ → Memoria → Option ℕ × Memoria
any_loop zero entry lru m = (lru, m)
any_loop (suc n) entry lru m =
    let m' = cache_lock entry m in
    let r = least_recently_used entry lru m' in
    let rest = any_loop n (entry + 1) r.0 r.1 in
    if same_pid (m.cache entry).pid none then (some entry, unlock_some lru m') else rest

-- assign_cache_entry. `none` is -1.
unfoldable pub assign_cache_entry : Conf → ℕ → Memoria → Option ℕ × Memoria
assign_cache_entry c pid m =
    let (exceeded, ps) = count_entry c.cache_x_process pid m.cache_x_process_list in
    let m' = record m { cache_x_process_list = ps } in
    if exceeded then own_loop c.cache_entries 0 pid none m' else any_loop c.cache_entries 0 none m'

-- update_cache before it writes to the entry: a page that was written goes back to its frame.
unfoldable pub write_back : Conf → ℕ → ℕ → ℕ → Memoria → Option Memoria
write_back c entry pid page m =
    let e = m.cache entry in
    if not (is_page (some pid) page e.pid e.page) && e.writed
    then writing_memory c e.pid e.page 0 c.frame_size e.content m
    else some m

-- `now` is the time of the clock.
abbrev pub set_entry : ℕ → ℕ → ℕ → ℕ → ℕ → (ℕ → ℕ) → Bool → ℕ → Memoria → Memoria
set_entry entry pid page offset size buffer writed now m = record m {
  cache = update m.cache entry (record {
    pid = some pid;
    page = page;
    content = copy_to offset size buffer (m.cache entry).content;
    writed = writed;
    last_used_time = now;
  });
}

-- The bytes of `buffer` are read behind the write back: they may stand in the memory. The content of
-- an entry has `frame_size` bytes, and a write beyond them is `none`.
unfoldable pub update_cache :
    Conf → ℕ → ℕ → ℕ → ℕ → ℕ → (Memoria → ℕ → ℕ) → Bool → ℕ → Memoria → Option Memoria
update_cache c entry pid page offset size buffer writed now m = do
  m' ← write_back c entry pid page m
  (if leb (offset + size) c.frame_size
      then some (set_entry entry pid page offset size (buffer m') writed now m')
      else none)

-- The entry that writing_cache writes to: the one of the page, or a new one.
abbrev pub entry_or_new : Conf → ℕ → Option ℕ × Memoria → Option ℕ × Memoria
entry_or_new c pid (some entry, m) = (some entry, m)
entry_or_new c pid (none, m) = assign_cache_entry c pid m

abbrev pub on_entry : {A : Type 0} → Option ℕ × Memoria → (ℕ → Memoria → Option A) → Option A
on_entry (none, m) go = none
on_entry (some entry, m) go = go entry m

unfoldable pub writing_cache : Conf → ℕ → ℕ → ℕ → ℕ → (ℕ → ℕ) → ℕ → Memoria → Option Memoria
writing_cache c pid page offset size buffer now m =
    on_entry (entry_or_new c pid (get_cache_entry c pid page m)) λ entry m'. do
      m'' ← update_cache c entry pid page offset size (λ x. buffer) true now m'
      some (cache_unlock entry m'')

-- The bytes that are sent to the client.
unfoldable pub bytes_of : ℕ → ℕ → (ℕ → ℕ) → List ℕ
bytes_of zero offset content = []
bytes_of (suc n) offset content = content offset ∷ bytes_of n (offset + 1) content

-- read_data_into_cache_entry_and_send.
abbrev pub read_entry : ℕ → ℕ → ℕ → ℕ → Memoria → List ℕ × Memoria
read_entry entry offset size now m = (
  bytes_of size offset (m.cache entry).content,
  record m { cache = update m.cache entry (record (m.cache entry) { last_used_time = now }) },
)

-- readind_memory.
unfoldable pub reading_memory : Conf → ℕ → ℕ → ℕ → ℕ → ℕ → Memoria → Option (List ℕ × Memoria)
reading_memory c pid page offset size now m = do
  (frame, m1) ← get_frame c (some pid) page m
  let start = frame * c.frame_size
  on_entry (assign_cache_entry c pid m1) λ entry m2. do
    m3 ← update_cache c entry pid page 0 c.frame_size (λ x i. x.memory (start + i)) false now m2
    some (bytes_of size (start + offset) m3.memory, memory_unlock frame (cache_unlock entry m3))

-- read_page, with reading_cache.
abbrev pub on_hit :
    Option ℕ × Memoria
    → (ℕ → Memoria → Option (List ℕ × Memoria))
    → (Memoria → Option (List ℕ × Memoria))
    → Option (List ℕ × Memoria)
on_hit (some entry, m) hit miss = hit entry m
on_hit (none, m) hit miss = miss m

unfoldable pub read_page : Conf → ℕ → ℕ → ℕ → ℕ → ℕ → Memoria → Option (List ℕ × Memoria)
read_page c pid page offset size now m =
    on_hit (get_cache_entry c pid page m)
      (λ entry m'.
        let r = read_entry entry offset size now m' in some (r.0, cache_unlock entry r.1))
      (λ m'. reading_memory c pid page offset size now m')
