-- ===== src/Memoria/Examples.antt =====
-- Four frames of 24 bytes, two of them for the table, and a cache of one entry.
use sisoputnfrba_tp_2016_2c.Base.{◌≡◌, refl, ◌+◌, some, arith}
use sisoputnfrba_tp_2016_2c.Memoria.{
  Conf, Memoria, load, first_free_frame, available_from, assign_pages_to_process, assign_frames,
  inicialize_page, pages_count, one_more_page,
}
use sisoputnfrba_tp_2016_2c.Memoria.Cache.{find_frame, count_entry, writing_cache}
use sisoputnfrba_tp_2016_2c.Memoria.Coherence.{Coherent}
use sisoputnfrba_tp_2016_2c.Memoria.Requests.{Wrote, Unlocked, writing_cache-Wrote}
use sisoputnfrba_tp_2016_2c.Memoria.Reads.{Reads}

abbrev conf : Conf
conf = record { frames = 4; frame_size = 24; cache_entries = 1; cache_x_process = 2 }

-- The process 1 has the pages 0 and 1.
abbrev two_pages : Memoria
two_pages = (assign_pages_to_process 1 2 (load conf (λ a. a))).1

-- The cache is empty.
two_pages-Coherent : Coherent conf two_pages
unfolding assign_pages_to_process assign_frames inicialize_page load pages_count one_more_page
    available_from first_free_frame
two_pages-Coherent = record {
  alone = λ p n q r l k h k'. absurd (cc h);
  backed = λ p n q l h. absurd (cc h);
  idle = λ q l h. refl;
}

two_pages-Unlocked : Unlocked two_pages
unfolding assign_pages_to_process assign_frames inicialize_page load pages_count one_more_page
    available_from first_free_frame
two_pages-Unlocked = (λ f. refl, λ q. refl)

writing_cache-Wrote_example :
    (m' : Memoria) × (writing_cache conf 1 1 3 2 (λ i. i + 7) 5 two_pages ≡ some m')
    × Wrote conf 1 1 3 2 (λ i. i + 7) two_pages m'
unfolding find_frame count_entry assign_pages_to_process assign_frames inicialize_page load
    pages_count one_more_page available_from first_free_frame
writing_cache-Wrote_example =
    writing_cache-Wrote conf 1 1 3 3 2 (λ i. i + 7) 5 two_pages (omega arith) two_pages-Unlocked
      two_pages-Coherent refl (omega arith) refl
