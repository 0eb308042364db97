-- ===== src/Pokedex/Files/Spec.antt =====
-- The file system as a whole: what the file table, the mapping table and the bitmap promise, and
-- what a handler may change of them when it works on one file.

use sisoputnfrba_tp_2016_2c.Base.{
  ℕ, ◌≤◌, ◌<◌, ◌≡◌, sym, subst, inl, inr, Bool, true, false, List, arith, ◌==◌, Bool-cases, update,
  length,
}
use sisoputnfrba_tp_2016_2c.Pokedex.State.{
  file_blocks_mount, end_of_file, FileState, deleted, regular, directory, Server,
}
use sisoputnfrba_tp_2016_2c.Pokedex.Blocks.{chain_of, necessary_blocks}
use sisoputnfrba_tp_2016_2c.Pokedex.Blocks.Chains.{has, Follows-frame}
use sisoputnfrba_tp_2016_2c.Pokedex.Blocks.Splice.{IsChain, Splice}

-- The blocks of the entry `p` are `bs`, as many as its size needs.
pub record IsFile (s : Server) (p : ℕ) (bs : List ℕ) : Type 0 where
  pub chain : IsChain s.data_size (chain_of p s) bs
  pub sized : length bs ≡ necessary_blocks (s.table p).file_size

-- Of the other entries, and of what is busy and not of the blocks `bs` of `p`, nothing changes;
-- the blocks `bs'` that `p` has then were its own or free.
pub record Touches (s s' : Server) (p : ℕ) (bs bs' : List ℕ) : Type 0 where
  pub others : (r : ℕ) → (r == p) ≡ false → s'.table r ≡ s.table r
  pub size : s'.data_size ≡ s.data_size
  pub splice : Splice (chain_of p s) (chain_of p s') bs bs'

abbrev pub is_regular : FileState → Bool
is_regular deleted = false
is_regular regular = true
is_regular directory = false

-- Every regular file `p` of the table has the blocks `blocks p`, and no block is of two files.
pub record Consistent (s : Server) (blocks : ℕ → List ℕ) : Type 0 where
  pub fits : s.data_size ≤ end_of_file
  pub files :
      (p : ℕ) → p < file_blocks_mount → is_regular (s.table p).state ≡ true → IsFile s p (blocks p)
  pub apart :
      (p r q : ℕ)
      → p < file_blocks_mount
      → r < file_blocks_mount
      → (r == p) ≡ false
      → is_regular (s.table p).state ≡ true
      → is_regular (s.table r).state ≡ true
      → has q (blocks p) ≡ true
      → has q (blocks r) ≡ false

module _ {s s' : Server} {p : ℕ} {bs bs' : List ℕ} (t : Touches s s' p bs bs') where
  -- Another file, which shares no block with `p`, stays what it is.
  pub IsFile-Touches :
      (r : ℕ) (cs : List ℕ)
      → (r == p) ≡ false
      → ((q : ℕ) → has q cs ≡ true → has q bs ≡ false)
      → IsFile s r cs
      → IsFile s' r cs
  IsFile-Touches r cs ne apart f = record {
    chain = record {
      follows = rw (t.others r ne) (
          Follows-frame s.mapping s'.mapping _ cs
            (λ q h. t.splice.words q (f.chain.busy q h) (apart q h)) f.chain.follows);
      distinct = f.chain.distinct;
      busy = λ q h. t.splice.bits q (f.chain.busy q h) (apart q h);
      inside = λ q h. rw t.size (f.chain.inside q h);
    };
    sized = rw (t.others r ne) f.sized;
  }

module _ {s s' : Server} {blocks : ℕ → List ℕ} (p : ℕ) (bs' : List ℕ) where
  -- The whole stays consistent when a handler touches one regular file only, and leaves it a file
  -- with the blocks `bs'` or no regular file.
  pub Consistent-Touches :
      Consistent s blocks
      → p < file_blocks_mount
      → is_regular (s.table p).state ≡ true
      → Touches s s' p (blocks p) bs'
      → (is_regular (s'.table p).state ≡ true → IsFile s' p bs')
      → Consistent s' (update blocks p bs')
  Consistent-Touches c lp reg t f = record { fits = rw t.size c.fits; files = files; apart = apart }
    where
      same :
          (r : ℕ)
          → (r == p) ≡ false
          → is_regular (s'.table r).state ≡ true
          → is_regular (s.table r).state ≡ true
      same r ne h = rw (t.others r ne) at h

      files :
          (r : ℕ)
          → r < file_blocks_mount
          → is_regular (s'.table r).state ≡ true
          → IsFile s' r (update blocks p bs' r)
      files r lr h = elim (Bool-cases (r == p)) [
        | inl e ↦
            let e' : r ≡ p = ground arith in
            rw e (subst (λ k. IsFile s' k bs') (sym e') (f (rw e' at h)))
        | inr ne ↦ rw ne (
            IsFile-Touches t r (blocks r) ne
              (λ q a. c.apart r p q lr lp (ground arith) (same r ne h) reg a)
              (c.files r lr (same r ne h)))
      ]

      -- The blocks of `p` after the call are of no other file.
      new_apart :
          (r q : ℕ)
          → r < file_blocks_mount
          → (r == p) ≡ false
          → is_regular (s'.table r).state ≡ true
          → has q bs' ≡ true
          → has q (blocks r) ≡ false
      new_apart r q lr ne h a = elim (Bool-cases (has q (blocks p))) [
        | inl old ↦ c.apart p r q lp lr ne reg (same r ne h) old
        | inr new ↦ ground (
          arith,
          t.splice.fresh q a new,
          (c.files r lr (same r ne h)).chain.busy q,
          Bool-cases (has q (blocks r)),
        )
      ]

      apart :
          (u r q : ℕ)
          → u < file_blocks_mount
          → r < file_blocks_mount
          → (r == u) ≡ false
          → is_regular (s'.table u).state ≡ true
          → is_regular (s'.table r).state ≡ true
          → has q (update blocks p bs' u) ≡ true
          → has q (update blocks p bs' r) ≡ false
      apart u r q lu lr ne hu hr a = elim (Bool-cases (u == p)) [
        | inl e ↦
            let ne' : (r == p) ≡ false = ground arith in
            rw ne' (new_apart r q lr ne' hr (rw e at a))
        | inr nu ↦ elim (Bool-cases (r == p)) [
          | inl e ↦
              rw e (ground (arith, new_apart u q lu nu hu, Bool-cases (has q bs'), rw nu at a))
          | inr nr ↦ rw nr (c.apart u r q lu lr ne (same u nu hu) (same r nr hr) (rw nu at a))
        ]
      ]
