-- ===== src/Pokedex/Files/Leaves.antt =====
-- What osada_truncate and osada_write leave of the file that they work on.
use sisoputnfrba_tp_2016_2c.Base.{
  ℕ, ◌<◌, ◌≡◌, refl, ◌∙◌, false, List, arith, ◌==◌, ==_refl, update, length, ap, fun_ext,
}
use sisoputnfrba_tp_2016_2c.Pokedex.State.{
  file_blocks_mount, at, LockType, give_lock, give_lock-take_lock, Server, semaphore_lock,
  semaphore_unlock,
}
use sisoputnfrba_tp_2016_2c.Pokedex.Blocks.{Chain, chain_of, put_chain, necessary_blocks}
use sisoputnfrba_tp_2016_2c.Pokedex.Blocks.Splice.{IsChain, Splice}
use sisoputnfrba_tp_2016_2c.Pokedex.Content.{set_size}
use sisoputnfrba_tp_2016_2c.Pokedex.Walk.Leads.{IsRegular}
use sisoputnfrba_tp_2016_2c.Pokedex.Files.Spec.{IsFile, Touches, Consistent, Consistent-Touches}

-- What a handler leaves of the file `p`: its blocks are `bs'`, its size is `n`, its lock is back.
pub record Leaves (s s' : Server) (p n : ℕ) (bs bs' : List ℕ) : Type 0 where
  pub touches : Touches s s' p bs bs'
  pub is_file : IsFile s' p bs'
  pub size : (s'.table p).file_size ≡ n
  pub state : (s'.table p).state ≡ (s.table p).state
  pub locks : s'.locks ≡ give_lock p s.locks

-- The server behind the loops: the size `n` and the chain `c`.
abbrev pub settled : ℕ → ℕ → Chain → Server → Server
settled p n c s = semaphore_unlock (at p) (put_chain p c (set_size p n s))

pub settled-Leaves :
    (s : Server) (p n : ℕ) (c : Chain) (bs bs' : List ℕ)
    → Splice (chain_of p s) c bs bs'
    → IsChain s.data_size c bs'
    → length bs' ≡ necessary_blocks n
    → Leaves s (settled p n c s) p n bs bs'
settled-Leaves s p n c bs bs' sp i h = record {
  touches = record {
    others = λ r ne. ground arith;
    size = refl;
    splice = record { words = sp.words; bits = sp.bits; fresh = sp.fresh };
  };
  is_file = record {
    chain = record {
      follows = rw ==_refl i.follows;
      distinct = i.distinct;
      busy = i.busy;
      inside = i.inside;
    };
    sized = rw ==_refl h;
  };
  size = ground arith;
  state = ground arith;
  locks = refl;
}

pub chain_of-set_size : (s : Server) (p n : ℕ) → chain_of p (set_size p n s) ≡ chain_of p s
chain_of-set_size s p n = rw ==_refl

-- A second size replaces the first.
pub set_size_twice : (s : Server) (p m n : ℕ) → set_size p n (set_size p m s) ≡ set_size p n s
set_size_twice s p m n = ap (λ t. record s { table = t }) (fun_ext λ r. ground arith)

-- The same seen from before the request, when the lock was not taken yet, with the whole file
-- system.
pub record Kept (s s' : Server) (blocks : ℕ → List ℕ) (p n : ℕ) (bs' : List ℕ) : Type 0 where
  pub size : (s'.table p).file_size ≡ n
  pub state : (s'.table p).state ≡ (s.table p).state
  pub others : (k : ℕ) → (k == p) ≡ false → s'.table k ≡ s.table k
  pub locks : s'.locks ≡ s.locks
  pub consistent : Consistent s' (update blocks p bs')

pub Leaves-Kept :
    {s s' : Server} {blocks : ℕ → List ℕ} (t : LockType) (p n : ℕ) (bs' : List ℕ)
    → Consistent s blocks
    → p < file_blocks_mount
    → IsRegular s p
    → Leaves (semaphore_lock t p s) s' p n (blocks p) bs'
    → Kept s s' blocks p n bs'
Leaves-Kept {s} {s'} {blocks} t p n bs' c l reg u = record {
  size = u.size;
  state = u.state;
  others = u.touches.others;
  locks = u.locks ∙ give_lock-take_lock t p s.locks;
  consistent =
      Consistent-Touches p bs' c l (rw reg)
        (record {
          others = u.touches.others;
          size = u.touches.size;
          splice = record {
            words = u.touches.splice.words;
            bits = u.touches.splice.bits;
            fresh = u.touches.splice.fresh;
          };
        })
        (λ h. u.is_file);
}
