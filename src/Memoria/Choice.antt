-- ===== src/Memoria/Choice.antt =====
-- memoria.c: the entry of the cache that assign_cache_entry chooses.
use sisoputnfrba_tp_2016_2c.Base.{
  ℕ, zero, suc, Bool, ◌+◌, ◌<◌, ◌≤◌, ◌≡◌, refl, ◌∙◌, ltb, true, false, Option, none, some, arith,
  if◌then◌else◌, Bool-cases, inl, inr,
}
use sisoputnfrba_tp_2016_2c.Memoria.{Conf, Memoria, same_pid, cache_lock}
use sisoputnfrba_tp_2016_2c.Memoria.Cache.{
  least_recently_used, unlock_some, own_loop, any_loop, assign_cache_entry, count_entry,
}
use sisoputnfrba_tp_2016_2c.Memoria.Lookup.{Alike}

-- An entry that assign_cache_entry gives is one of the cache.
abbrev pub Below : ℕ → Option ℕ → Type 0
Below n none = Unit {0}
Below n (some e) = e < n

pub data Chosen (n : ℕ) (m : Memoria) (r : Option ℕ × Memoria) : Type 0 where
  chosen : Below n r.0 → Alike m r.1 → Chosen n m r

unlock_some-Alike : (lru : Option ℕ) (m : Memoria) → Alike m (unlock_some lru m)
unlock_some-Alike none m = (refl, refl, refl)
unlock_some-Alike (some e) m = (refl, refl, refl)

Chosen-if :
    (n : ℕ) (m : Memoria) (b : Bool) (x y : Option ℕ × Memoria)
    → Chosen n m x
    → Chosen n m y
    → Chosen n m (if b then x else y)
Chosen-if n m true x y h g = h
Chosen-if n m false x y h g = g

least_recently_used-Chosen :
    (n entry : ℕ) (lru : Option ℕ) (m : Memoria)
    → entry < n
    → Below n lru
    → Chosen n m (least_recently_used entry lru (cache_lock entry m))
unfolding least_recently_used
least_recently_used-Chosen n entry none m l b = chosen l (refl, refl, refl)
least_recently_used-Chosen n entry (some lru) m l b =
    Chosen-if n m (ltb (m.cache entry).last_used_time (m.cache lru).last_used_time) _ _
      (chosen l (refl, refl, refl)) (chosen b (refl, refl, refl))

-- A loop that goes on with a choice.
Chosen-then :
    (n : ℕ) (m : Memoria) (r : Option ℕ × Memoria) (go : Option ℕ → Memoria → Option ℕ × Memoria)
    → Chosen n m r
    → (Below n r.0 → Chosen n r.1 (go r.0 r.1))
    → Chosen n m (go r.0 r.1)
Chosen-then n m r go (chosen b (x, y, z)) h = elim (h b) [
  | chosen b' (x', y', z') ↦ chosen b' (x' ∙ x, y' ∙ y, z' ∙ z)
]

own_loop-Chosen :
    (k n entry pid : ℕ) (lru : Option ℕ) (m : Memoria)
    → entry + n ≤ k
    → Below k lru
    → Chosen k m (own_loop n entry pid lru m)
unfolding own_loop
own_loop-Chosen k zero entry pid lru m l b = chosen b (refl, refl, refl)
own_loop-Chosen k (suc n) entry pid lru m l b =
    let m' = cache_lock entry m in
    let r =
      if same_pid (m.cache entry).pid (some pid)
      then least_recently_used entry lru m'
      else (lru, m') in
    let step : Chosen k m r =
      Chosen-if k m (same_pid (m.cache entry).pid (some pid)) _ _
        (least_recently_used-Chosen k entry lru m (omega arith) b) (chosen b (refl, refl, refl)) in
    Chosen-then k m r (own_loop n (entry + 1) pid) step
      λ b'. own_loop-Chosen k n (entry + 1) pid r.0 r.1 (omega arith) b'

any_loop-Chosen :
    (k n entry : ℕ) (lru : Option ℕ) (m : Memoria)
    → entry + n ≤ k
    → Below k lru
    → Chosen k m (any_loop n entry lru m)
unfolding any_loop
any_loop-Chosen k zero entry lru m l b = chosen b (refl, refl, refl)
any_loop-Chosen k (suc n) entry lru m l b =
    let m' = cache_lock entry m in
    let r = least_recently_used entry lru m' in
    let step : Chosen k m r = least_recently_used-Chosen k entry lru m (omega arith) b in
    Chosen-if k m (same_pid (m.cache entry).pid none) _ _
      (chosen (omega arith) (unlock_some-Alike lru m'))
      (Chosen-then k m r (any_loop n (entry + 1)) step
        λ b'. any_loop-Chosen k n (entry + 1) r.0 r.1 (omega arith) b')

-- assign_cache_entry gives -1 or an entry of the cache, and changes no byte, no page and no entry.
pub assign_cache_entry-Chosen :
    (c : Conf) (pid : ℕ) (m : Memoria) → Chosen c.cache_entries m (assign_cache_entry c pid m)
unfolding assign_cache_entry
assign_cache_entry-Chosen c pid m =
    let r = count_entry c.cache_x_process pid m.cache_x_process_list in
    let m' = record m { cache_x_process_list = r.1 } in
    Chosen-if c.cache_entries m r.0 _ _
      (elim (own_loop-Chosen c.cache_entries c.cache_entries 0 pid none m' (omega arith) tt) [
        | chosen b a ↦ chosen b a
      ])
      (elim (any_loop-Chosen c.cache_entries c.cache_entries 0 none m' (omega arith) tt) [
        | chosen b a ↦ chosen b a
      ])

abbrev pub IsGiven : Option ℕ → Type 0
IsGiven none = ⊥
IsGiven (some e) = Unit {0}

least_recently_used-IsGiven :
    (entry : ℕ) (lru : Option ℕ) (m : Memoria) → IsGiven (least_recently_used entry lru m).0
unfolding least_recently_used
least_recently_used-IsGiven entry none m = tt
least_recently_used-IsGiven entry (some lru) m =
    elim (Bool-cases (ltb (m.cache entry).last_used_time (m.cache lru).last_used_time)) [
      | inl older ↦ rw older tt
      | inr newer ↦ rw newer tt
    ]

any_loop-IsGiven :
    (n entry : ℕ) (lru : Option ℕ) (m : Memoria) → IsGiven lru → IsGiven (any_loop n entry lru m).0
unfolding any_loop
any_loop-IsGiven zero entry lru m g = g
any_loop-IsGiven (suc n) entry lru m g = elim (Bool-cases (same_pid (m.cache entry).pid none)) [
  | inl free ↦ rw free tt
  | inr taken ↦
      let r = least_recently_used entry lru (cache_lock entry m) in
      rw taken (
        any_loop-IsGiven n (entry + 1) r.0 r.1
          (least_recently_used-IsGiven entry lru (cache_lock entry m)))
]

any_loop-one : (n : ℕ) (m : Memoria) → 0 < n → IsGiven (any_loop n 0 none m).0
unfolding any_loop
any_loop-one zero m h = absurd (omega arith)
any_loop-one (suc n) m h = elim (Bool-cases (same_pid (m.cache 0).pid none)) [
  | inl free ↦ rw free tt
  | inr taken ↦
      let r = least_recently_used 0 none (cache_lock 0 m) in
      rw taken (any_loop-IsGiven n 1 r.0 r.1 (least_recently_used-IsGiven 0 none (cache_lock 0 m)))
]

-- The process is below its limit of entries.
abbrev pub BelowLimit : Conf → ℕ → Memoria → Type 0
BelowLimit c pid m = (count_entry c.cache_x_process pid m.cache_x_process_list).0 ≡ false

-- Below its limit a process is given an entry, if the cache has any.
pub assign_cache_entry-IsGiven :
    (c : Conf) (pid : ℕ) (m : Memoria)
    → 0 < c.cache_entries
    → BelowLimit c pid m
    → IsGiven (assign_cache_entry c pid m).0
unfolding assign_cache_entry
assign_cache_entry-IsGiven c pid m h below = rw below (any_loop-one c.cache_entries _ h)
