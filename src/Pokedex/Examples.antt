-- ===== src/Pokedex/Examples.antt =====
-- A small file system: the directory /d with the file f of 100 bytes in the blocks 2 and 0, the
-- runs of the server's functions on it, and the theorems at it.
use sisoputnfrba_tp_2016_2c.Base.{
  ℕ, ◌+◌, ◌≡◌, refl, Bool, true, false, List, [], ◌∷◌, Option, none, some, arith, ◌==◌,
  if◌then◌else◌, strcmp, take, drop,
}
use sisoputnfrba_tp_2016_2c.Pokedex.State.{
  file_blocks_mount, root, end_of_file, deleted, regular, directory, OsadaFile, at, lock_read,
  Server, semaphore_unlock, enospc,
}
use sisoputnfrba_tp_2016_2c.Pokedex.Search.{
  name_bytes, is_node, search_loop, search_node, check_dir, search_dir, get_free_file_block,
}
use sisoputnfrba_tp_2016_2c.Pokedex.Search.Wanted.{
  Searched, SearchedDir, search_node-Searched, search_dir-SearchedDir,
}
use sisoputnfrba_tp_2016_2c.Pokedex.Search.Found.{
  candidate, Free, free_entry, get_free_file_block-Free,
}
use sisoputnfrba_tp_2016_2c.Pokedex.Layout.{Partition, read_and_set, read_and_set-Partition}
use sisoputnfrba_tp_2016_2c.Pokedex.Blocks.{
  necessary_blocks, advance, count_loop, release_loop, grow_loop, add_blocks, roll_back,
}
use sisoputnfrba_tp_2016_2c.Pokedex.Walk.{Answer, code, split_path, tokens, walk_file, last_node}
use sisoputnfrba_tp_2016_2c.Pokedex.Content.{
  Outcome, unlink_file, osada_unlink, no_space, grown, shrink, resize, truncate_file,
  osada_truncate,
}
use sisoputnfrba_tp_2016_2c.Pokedex.Files.Spec.{IsFile}
use sisoputnfrba_tp_2016_2c.Pokedex.Files.Handled.{Handled}
use sisoputnfrba_tp_2016_2c.Pokedex.Walk.{content}
use sisoputnfrba_tp_2016_2c.Pokedex.Content.{read_file}
use sisoputnfrba_tp_2016_2c.Pokedex.Files.Read.{file_bytes, read_file_lem}
use sisoputnfrba_tp_2016_2c.Pokedex.Search.{Env, create_node, is_node}
use sisoputnfrba_tp_2016_2c.Pokedex.Search.Create.{nil, cons, Searchable, create_node-Searchable}
use sisoputnfrba_tp_2016_2c.Pokedex.Nodes.{osada_getattr, osada_rmdir}
use sisoputnfrba_tp_2016_2c.Pokedex.Nodes.Look.{
  Looked, osada_getattr-Looked, RemovedDir, osada_rmdir-RemovedDir,
}

abbrev dir_entry : OsadaFile
dir_entry = record {
  state = directory;
  fname = b'd' ∷ 0 ∷ [];
  parent_directory = root;
  file_size = 0;
  lastmod = 7;
  first_block = 0;
}

abbrev file_entry : OsadaFile
file_entry = record {
  state = regular;
  fname = b'f' ∷ 0 ∷ [];
  parent_directory = 0;
  file_size = 100;
  lastmod = 9;
  first_block = 2;
}

abbrev free_slot : OsadaFile
free_slot = record {
  state = deleted;
  fname = [];
  parent_directory = 0;
  file_size = 0;
  lastmod = 0;
  first_block = 0;
}

abbrev sample : Server
sample = record {
  table = λ q. if q == 0 then dir_entry else if q == 1 then file_entry else free_slot;
  mapping = λ q. if q == 2 then 0 else end_of_file;
  bitmap = λ q. if q == 2 then true else q == 0;
  blocks = λ b off. b + off;
  data_size = 5;
  locks = record { held = []; stray = 0 };
}

abbrev sample_blocks : ℕ → List ℕ
sample_blocks q = if q == 1 then 2 ∷ 0 ∷ [] else []

abbrev path_d_f : List ℕ
path_d_f = b'/' ∷ b'd' ∷ b'/' ∷ b'f' ∷ []

abbrev path_d : List ℕ
path_d = b'/' ∷ b'd' ∷ []

abbrev env : Env
env = record { now = 11; junk = [] }

tokens_run : tokens path_d_f ≡ (b'd' ∷ []) ∷ (b'f' ∷ []) ∷ []
unfolding tokens split_path
tokens_run = refl

sample-IsFile : IsFile sample 1 (2 ∷ 0 ∷ [])
unfolding necessary_blocks
sample-IsFile = record {
  chain = record {
    follows = (refl, refl, (refl, refl, refl));
    distinct = (refl, (refl, tt));
    busy = λ q h. ground arith;
    inside = λ q h. ground arith;
  };
  sized = refl;
}

search_node-Searched_example :
    Searched
      (b'f' ∷ [])
      (at 0)
      lock_read
      (at 0)
      sample
      (search_node (b'f' ∷ []) (at 0) lock_read (at 0) sample)
search_node-Searched_example = search_node-Searched (b'f' ∷ []) (at 0) lock_read (at 0) sample

search_dir-SearchedDir_example :
    SearchedDir
      (b'd' ∷ [])
      (at root)
      lock_read
      (at root)
      sample
      (search_dir (b'd' ∷ []) (at root) lock_read (at root) sample)
search_dir-SearchedDir_example =
    search_dir-SearchedDir (b'd' ∷ []) (at root) lock_read (at root) sample

get_free_file_block-Free_example :
    Free (free_entry (at 0) sample) sample 0 file_blocks_mount (get_free_file_block (at 0) sample)
get_free_file_block-Free_example = get_free_file_block-Free (at 0) sample

read_file_lem_example :
    read_file 6 5 62 1 sample
    ≡ some (
      content (take 5 (drop 62 (file_bytes sample 1 (2 ∷ 0 ∷ [])))),
      semaphore_unlock (at 1) sample,
    )
read_file_lem_example =
    read_file_lem 6 5 62 1 sample (2 ∷ 0 ∷ []) sample-IsFile (omega arith) (omega arith)
      (omega arith) (omega arith)

osada_getattr-Looked_example : Looked sample (tokens path_d_f) (osada_getattr path_d_f sample)
osada_getattr-Looked_example = osada_getattr-Looked path_d_f sample

osada_rmdir-RemovedDir_example : RemovedDir sample path_d (osada_rmdir path_d sample)
osada_rmdir-RemovedDir_example = osada_rmdir-RemovedDir path_d sample

no_g : (q : ℕ) → candidate (b'g' ∷ []) (at 0) (at 0) sample q ≡ false
unfolding candidate is_node name_bytes strcmp
no_g q = ground arith

create_node-Searchable_example :
    Searchable (b'g' ∷ []) 0 lock_read sample (create_node env (b'g' ∷ []) (at 0) sample)
create_node-Searchable_example =
    create_node-Searchable env (b'g' ∷ []) 0 lock_read sample (omega arith) (cons refl nil)
      (omega arith) (λ q a b. no_g q)

read_and_set-Partition_example : Partition 4096 (read_and_set 4096)
read_and_set-Partition_example = read_and_set-Partition 4096 (omega arith) (omega arith)

-- What the server answers, and what is left of the bitmap and of the locks.
answer_of : Outcome → Option Answer
answer_of none = none
answer_of (some (a, s)) = some a

bits_of : Outcome → List Bool
bits_of none = []
bits_of (some (a, s)) = s.bitmap 0 ∷ s.bitmap 1 ∷ s.bitmap 2 ∷ s.bitmap 3 ∷ s.bitmap 4 ∷ []

unfoldable_server : ℕ
unfolding tokens split_path walk_file last_node search_node search_loop search_dir check_dir is_node
    name_bytes strcmp osada_truncate truncate_file resize grown shrink no_space count_loop
    release_loop advance add_blocks grow_loop roll_back necessary_blocks osada_unlink unlink_file
unfoldable_server = 0

truncate_shrinks :
    bits_of (osada_truncate 6 path_d_f 10 sample) ≡ false ∷ false ∷ true ∷ false ∷ false ∷ []
unfolding unfoldable_server bits_of
truncate_shrinks = refl

truncate_grows :
    bits_of (osada_truncate 6 path_d_f 200 sample) ≡ true ∷ true ∷ true ∷ true ∷ false ∷ []
unfolding unfoldable_server bits_of
truncate_grows = refl

-- Of the five blocks three are free, and the file needs exactly these three more: the call answers
-- that there is no space left, since it looks at how far the search for free blocks has come.
truncate_last_block : answer_of (osada_truncate 6 path_d_f 320 sample) ≡ some (code enospc)
unfolding unfoldable_server answer_of
truncate_last_block = refl

unlink_frees : bits_of (osada_unlink 6 path_d_f sample) ≡ false ∷ false ∷ false ∷ false ∷ false ∷ []
unfolding unfoldable_server bits_of
unlink_frees = refl
