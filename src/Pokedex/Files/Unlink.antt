-- ===== src/Pokedex/Files/Unlink.antt =====
-- osada_unlink on a consistent file system.
use sisoputnfrba_tp_2016_2c.Base.{
  ℕ, ◌<◌, ◌≡◌, refl, false, List, [], some, arith, ◌==◌, if◌then◌else◌, update, length,
}
use sisoputnfrba_tp_2016_2c.Pokedex.State.{
  sexe, deleted, at, give_lock, Server, semaphore_unlock, set_file,
}
use sisoputnfrba_tp_2016_2c.Pokedex.Blocks.{Chain, chain_of, put_chain, advance}
use sisoputnfrba_tp_2016_2c.Pokedex.Blocks.Chains.{has}
use sisoputnfrba_tp_2016_2c.Pokedex.Blocks.Splice.{Cut, release_loop-Cut}
use sisoputnfrba_tp_2016_2c.Pokedex.Content.{unlink_file}
use sisoputnfrba_tp_2016_2c.Pokedex.Walk.{Answer, code}
use sisoputnfrba_tp_2016_2c.Pokedex.Files.Spec.{IsFile, Touches, Consistent}
use sisoputnfrba_tp_2016_2c.Pokedex.Files.Handled.{Handled}

-- The server after the blocks of `p` are released and its entry is deleted.
abbrev unlinked : ℕ → Chain → Server → Server
unlinked p c s =
    let s' = put_chain p c s in
    semaphore_unlock (at p) (set_file p (record (s'.table p) { state = deleted }) s')

-- What the call leaves: the entry is deleted, exactly its blocks are free, and the lock is back.
pub record Unlinked (s s' : Server) (p : ℕ) (bs : List ℕ) : Type 0 where
  pub touches : Touches s s' p bs []
  pub gone : (s'.table p).state ≡ deleted
  pub freed : (q : ℕ) → s'.bitmap q ≡ (if has q bs then false else s.bitmap q)
  pub locks : s'.locks ≡ give_lock p s.locks

Cut-Unlinked :
    (s : Server) (p : ℕ) (bs : List ℕ) (c : Chain)
    → Cut s.data_size (chain_of p s) c [] bs
    → Unlinked s (unlinked p c s) p bs
Cut-Unlinked s p bs c cut = record {
  touches = record {
    others = λ r h. ground arith;
    size = refl;
    splice = record { words = cut.splice.words; bits = cut.splice.bits; fresh = cut.splice.fresh };
  };
  gone = ground arith;
  freed = cut.freed;
  locks = refl;
}

pub unlink_file-Unlinked :
    (fuel p : ℕ) (s : Server) (bs : List ℕ)
    → IsFile s p bs
    → length bs < fuel
    → (s' : Server) × (unlink_file fuel p s ≡ some (code sexe, s')) × Unlinked s s' p bs
unfolding unlink_file advance
unlink_file-Unlinked fuel p s bs f h =
    let (c, run, cut) = release_loop-Cut fuel s.data_size 0 (chain_of p s) [] bs refl f.chain h in
    (unlinked p c s, rw run, Cut-Unlinked s p bs c cut)

-- The end of osada_unlink on a file: the answer, the file's blocks free and its entry deleted, the
-- locks as before the request, and the file system consistent.
pub record Removed (s : Server) (blocks : ℕ → List ℕ) (p : ℕ) (r : Answer × Server) : Type 0 where
  pub answer : r.0 ≡ code sexe
  pub gone : (r.1.table p).state ≡ deleted
  pub freed : (q : ℕ) → r.1.bitmap q ≡ (if has q (blocks p) then false else s.bitmap q)
  pub others : (k : ℕ) → (k == p) ≡ false → r.1.table k ≡ s.table k
  pub locks : r.1.locks ≡ s.locks
  pub consistent : Consistent r.1 (update blocks p [])
