-- ===== src/Memoria.antt =====
-- memoria.c: the memory process, with its inverted page table and its cache. A request is served
-- by one thread from its start to its end; the messages of shared-library are its arguments and
-- results.
pub mod Cache
pub mod Lookup
pub mod Choice
pub mod Coherence
pub mod Pages
pub mod Requests
pub mod Reads
mod Examples
use sisoputnfrba_tp_2016_2c.Base.{
  ℕ, zero, suc, ◌+◌, ◌-◌, ◌*◌, ◌/◌, ◌%◌, ◌^◌, Bool, true, false, ◌&&◌, not, List, [], ◌∷◌, ◌++◌,
  Option, none, some, ◌==◌, ltb, leb, if◌then◌else◌, update, length, ◌>>=◌,
}

-- The fields of `t_memory_conf` that the code reads again.
pub record Conf : Type 0 where
  pub frames : ℕ
  pub frame_size : ℕ
  pub cache_entries : ℕ
  pub cache_x_process : ℕ

-- `t_reg_invert_table`, whose number is its position. The pid -1 is `none`.
pub record InvertReg : Type 0 where
  pub pid : Option ℕ
  pub page : ℕ

-- `t_cache_memory` and `t_cache_ctrl` of one entry. `str_last_used_time` is a number: the strings
-- of the clock have one width, so that `strcmp` compares them as numbers.
pub record CacheEntry : Type 0 where
  pub pid : Option ℕ
  pub page : ℕ
  pub content : ℕ → ℕ
  pub writed : Bool
  pub last_used_time : ℕ

-- The globals. The locks are counted: a request that has to wait for another thread is no part of
-- the model, and what is said of an end takes the locks as free where that matters.
pub record Memoria : Type 0 where
  pub invert_table : ℕ → InvertReg
  pub available_frame_list : List ℕ
  pub pages_per_process_list : List (ℕ × ℕ)
  pub memory : ℕ → ℕ
  pub cache : ℕ → CacheEntry
  pub cache_x_process_list : List (ℕ × ℕ)
  pub memory_locks : ℕ → ℕ
  pub cache_memory_locks : ℕ → ℕ

abbrev pub same_pid : Option ℕ → Option ℕ → Bool
same_pid none none = true
same_pid (some p) (some q) = p == q
same_pid p q = false

-- `sizeof(t_reg_invert_table)` is 12: the table stands in the first frames.
unfoldable pub first_free_frame : Conf → ℕ
first_free_frame c =
    let size = 12 * c.frames in size / c.frame_size + (if ltb 0 (size % c.frame_size) then 1 else 0)

-- The loop of load over the frames.
unfoldable pub available_from : ℕ → ℕ → ℕ → List ℕ
available_from zero frame first = []
available_from (suc n) frame first =
    let rest = available_from n (frame + 1) first in if ltb frame first then rest else frame ∷ rest

abbrev pub loaded_reg : ℕ → ℕ → InvertReg
loaded_reg first frame =
    if ltb frame first
    then record { pid = none; page = frame }
    else record { pid = some 0; page = 0 }

abbrev pub empty_entry : (ℕ → ℕ) → CacheEntry
empty_entry junk = record {
  pid = none;
  page = 2 ^ 32 - 1;
  content = junk;
  writed = false;
  last_used_time = 0;
}

-- `load`, with what malloc has left in the bytes.
unfoldable pub load : Conf → (ℕ → ℕ) → Memoria
load c junk = record {
  invert_table = loaded_reg (first_free_frame c);
  available_frame_list = available_from c.frames 0 (first_free_frame c);
  pages_per_process_list = [];
  memory = junk;
  cache = λ entry. empty_entry junk;
  cache_x_process_list = [];
  memory_locks = λ frame. 0;
  cache_memory_locks = λ entry. 0;
}

-- memory_semaphore and cache_memory_semaphore, once the lock is free.
abbrev pub memory_lock : ℕ → Memoria → Memoria
memory_lock frame m = record m {
  memory_locks = update m.memory_locks frame (m.memory_locks frame + 1);
}

abbrev pub memory_unlock : ℕ → Memoria → Memoria
memory_unlock frame m = record m {
  memory_locks = update m.memory_locks frame (m.memory_locks frame - 1);
}

abbrev pub cache_lock : ℕ → Memoria → Memoria
cache_lock entry m = record m {
  cache_memory_locks = update m.cache_memory_locks entry (m.cache_memory_locks entry + 1);
}

abbrev pub cache_unlock : ℕ → Memoria → Memoria
cache_unlock entry m = record m {
  cache_memory_locks = update m.cache_memory_locks entry (m.cache_memory_locks entry - 1);
}

-- inicialize_page, with get_available_frame: the first frame of the list. An empty list gives the
-- null pointer, 0.
abbrev pub list_first : List ℕ → ℕ
list_first [] = 0
list_first (f ∷ fs) = f

abbrev pub list_rest : List ℕ → List ℕ
list_rest [] = []
list_rest (f ∷ fs) = fs

unfoldable pub inicialize_page : ℕ → ℕ → Memoria → Memoria
inicialize_page pid page m =
    let frame = list_first m.available_frame_list in
    record m {
      available_frame_list = list_rest m.available_frame_list;
      invert_table = update m.invert_table frame (record { pid = some pid; page = page });
    }

-- The node of a process in the list: its count of pages, and the list with one page more.
unfoldable pub pages_count : ℕ → List (ℕ × ℕ) → Option ℕ
pages_count pid [] = none
pages_count pid ((q, n) ∷ ps) = let rest = pages_count pid ps in if q == pid then some n else rest

unfoldable pub one_more_page : ℕ → List (ℕ × ℕ) → List (ℕ × ℕ)
one_more_page pid [] = []
one_more_page pid ((q, n) ∷ ps) =
    let rest = one_more_page pid ps in
    if q == pid then (q, (n + 1) % 2 ^ 32) ∷ ps else (q, n) ∷ rest

-- The count of pages of the process that is the number of its new page.
abbrev pub next_page : Option ℕ → ℕ
next_page none = 0
next_page (some n) = n

-- The loop of assign_pages_to_process.
unfoldable pub assign_frames : ℕ → ℕ → Memoria → Memoria
assign_frames zero pid m = m
assign_frames (suc n) pid m =
    let page = next_page (pages_count pid m.pages_per_process_list) in
    let m' = record m { pages_per_process_list = one_more_page pid m.pages_per_process_list } in
    assign_frames n pid (inicialize_page pid page m')

-- The process gets a node, if it has none.
abbrev pub with_node : ℕ → Option ℕ → List (ℕ × ℕ) → List (ℕ × ℕ)
with_node pid none ps = ps ++ ((pid, 0) ∷ [])
with_node pid (some n) ps = ps

-- assign_pages_to_process: `false` is ENOSPC, `true` is SUCCESS.
unfoldable pub assign_pages_to_process : ℕ → ℕ → Memoria → Bool × Memoria
assign_pages_to_process pid required m =
    if ltb (length m.available_frame_list) required
    then (false, m)
    else let ps = m.pages_per_process_list in
      (
        true,
        assign_frames required pid
            (record m { pages_per_process_list = with_node pid (pages_count pid ps) ps }),
      )

-- The loops of cleaning_process_entries.
unfoldable pub without_process : ℕ → List (ℕ × ℕ) → List (ℕ × ℕ)
without_process pid [] = []
without_process pid ((q, n) ∷ ps) =
    let rest = without_process pid ps in if q == pid then ps else (q, n) ∷ rest

unfoldable pub clean_loop : ℕ → ℕ → ℕ → Memoria → Memoria
clean_loop zero frame pid m = m
clean_loop (suc n) frame pid m = clean_loop n (frame + 1) pid (
    if same_pid (m.invert_table frame).pid (some pid)
    then record m {
      invert_table = update m.invert_table frame (record { pid = some 0; page = 0 });
      available_frame_list = m.available_frame_list ++ (frame ∷ []);
    }
    else m)

unfoldable pub cleaning_process_entries : Conf → ℕ → Memoria → Memoria
cleaning_process_entries c pid m =
    clean_loop c.frames 0 pid
      (record m { pages_per_process_list = without_process pid m.pages_per_process_list })
