-- ===== src/Pokedex/Blocks/Count.antt =====
-- How long a list of distinct blocks can be.
use sisoputnfrba_tp_2016_2c.Base.{
  ℕ, zero, suc, ◌≤◌, ◌<◌, ◌≡◌, refl, true, false, List, [], ◌∷◌, arith, ◌==◌, Bool-cases,
  if◌then◌else◌, length,
}
use sisoputnfrba_tp_2016_2c.Pokedex.Blocks.Chains.{has, Distinct}

-- The list without `k`.
without : ℕ → List ℕ → List ℕ
without k [] = []
without k (b ∷ bs) = if k == b then bs else b ∷ without k bs

has-without : (q k : ℕ) (bs : List ℕ) → has q (without k bs) ≡ true → has q bs ≡ true
unfolding without
has-without q k [] h = cc
has-without q k (b ∷ bs) h = ground (arith, has-without q k bs)

Distinct-without : (k : ℕ) (bs : List ℕ) → Distinct bs → Distinct (without k bs)
unfolding without
Distinct-without k [] d = tt
Distinct-without k (b ∷ bs) (d, ds) =
    ground (arith, Distinct-without k bs ds, has-without b k bs, Bool-cases (has b (without k bs)))

not-has-without : (k : ℕ) (bs : List ℕ) → Distinct bs → has k (without k bs) ≡ false
unfolding without
not-has-without k [] d = refl
not-has-without k (b ∷ bs) (d, ds) = ground (arith, not-has-without k bs ds)

length-without : (k : ℕ) (bs : List ℕ) → length bs ≤ suc (length (without k bs))
unfolding without
length-without k [] = omega arith
length-without k (b ∷ bs) = ground (arith, length-without k bs)

pub length-Distinct :
    (n : ℕ) (bs : List ℕ) → Distinct bs → ((q : ℕ) → has q bs ≡ true → q < n) → length bs ≤ n
length-Distinct n [] d h = omega arith
length-Distinct zero (b ∷ bs) d h = absurd (let l = h b (ground arith) in omega arith)
length-Distinct (suc n) (b ∷ bs) d h =
    let below = λ (q : ℕ) (i : has q (without n (b ∷ bs)) ≡ true). smaller q i in
    omega (
      arith,
      length-without n (b ∷ bs),
      length-Distinct n (without n (b ∷ bs)) (Distinct-without n (b ∷ bs) d) below,
    )
  where
    smaller : (q : ℕ) → has q (without n (b ∷ bs)) ≡ true → q < n
    smaller q i =
        let l = h q (has-without q n (b ∷ bs) i) in
        ground (arith, not-has-without n (b ∷ bs) d, Bool-cases (q == n))
