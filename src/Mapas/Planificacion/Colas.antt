-- ===== src/Mapas/Planificacion/Colas.antt =====
-- The queues of trainers and the list of PokeNests, where a trainer or a pokemon is moved.
use sisoputnfrba_tp_2016_2c.Base.{
  ℕ, zero, suc, ◌+◌, ◌≤◌, ◌≡◌, true, false, List, [], ◌∷◌, ◌++◌, some, arith, refl, ◌==◌,
  if◌then◌else◌, Bool-cases, ==_iff, ==_refl, ◌⊎◌, inl, inr, subst, length, drop,
}
use sisoputnfrba_tp_2016_2c.Mapas.State.{PokeNest}
use sisoputnfrba_tp_2016_2c.Mapas.Solicitudes.{buscar_pokenest, cambiar_pokenest}
use sisoputnfrba_tp_2016_2c.Mapas.Planificacion.{esta, quitar}

-- What drops off a list, by its first element.
pub drop-cases :
    (i : ℕ) (xs : List ℕ)
    → (drop i xs ≡ [])
      ⊎ ((b : ℕ) × (ys : List ℕ) × (drop i xs ≡ b ∷ ys)
          × (drop (suc i) xs ≡ ys)
          × (esta b xs ≡ true))
unfolding esta
drop-cases zero [] = inl refl
drop-cases zero (x ∷ xs) = inr (x, xs, refl, refl, ground (arith, ==_refl x))
drop-cases (suc i) [] = inl refl
drop-cases (suc i) (x ∷ xs) = elim (drop-cases i xs) [
  | inl e ↦ inl e
  | inr (b, ys, e, f, h) ↦ inr (b, ys, e, f, ground (arith, h, Bool-cases (x == b)))
]

-- How often a socket is in a queue.
abbrev pub veces : ℕ → List ℕ → ℕ
veces x [] = 0
veces x (y ∷ ys) = if y == x then suc (veces x ys) else veces x ys

pub veces-append : (x : ℕ) (xs ys : List ℕ) → veces x (xs ++ ys) ≡ veces x xs + veces x ys
veces-append x [] ys = omega arith
veces-append x (z ∷ zs) ys = ground (arith, veces-append x zs ys, Bool-cases (z == x))

pub veces-quitar :
    (b x : ℕ) (xs : List ℕ)
    → esta b xs ≡ true
    → veces x (quitar b xs) + veces x (b ∷ []) ≡ veces x xs
unfolding esta quitar
veces-quitar b x [] h = cc
veces-quitar b x (y ∷ ys) h = elim (Bool-cases (y == b)) [
  | inl e ↦
      let k : y ≡ b = (==_iff y b).0 e in
      rw e (
        subst (λ z. veces x ys + veces x (z ∷ []) ≡ veces x (y ∷ ys)) k
          (ground (arith, Bool-cases (y == x))))
  | inr e ↦
      let ih = veces-quitar b x ys (ground (arith, e)) in
      rw e (ground (arith, ih, Bool-cases (y == x), Bool-cases (b == x)))
]

pub esta-quitar : (b x : ℕ) (xs : List ℕ) → esta x xs ≡ false → esta x (quitar b xs) ≡ false
unfolding esta quitar
esta-quitar b x [] h = refl
esta-quitar b x (y ∷ ys) h =
    ground (arith, esta-quitar b x ys, Bool-cases (y == b), Bool-cases (y == x))

pub esta-quitar-true : (b x : ℕ) (xs : List ℕ) → esta x (quitar b xs) ≡ true → esta x xs ≡ true
unfolding esta quitar
esta-quitar-true b x [] h = cc
esta-quitar-true b x (y ∷ ys) h =
    ground (arith, esta-quitar-true b x ys, Bool-cases (y == b), Bool-cases (y == x))

pub length-quitar : (b : ℕ) (xs : List ℕ) → length (quitar b xs) ≤ length xs
unfolding quitar
length-quitar b [] = omega arith
length-quitar b (y ∷ ys) = ground (arith, length-quitar b ys, Bool-cases (y == b))

pub buscar-cambiar :
    (f : PokeNest → PokeNest) (id j : ℕ) (ns : List PokeNest) (n : PokeNest)
    → ((x : PokeNest) → (f x).id ≡ x.id)
    → buscar_pokenest ns j ≡ some n
    → (n' : PokeNest) × (buscar_pokenest (cambiar_pokenest f id ns) j ≡ some n')
unfolding buscar_pokenest cambiar_pokenest
buscar-cambiar f id j [] n s h = cc
buscar-cambiar f id j (x ∷ xs) n s h = elim (Bool-cases (x.id == id)) [
  | inl e ↦ elim (Bool-cases (x.id == j)) [
    | inl c ↦ (f x, rw e (rw (s x) (rw c refl)))
    | inr c ↦ (n, rw e (rw (s x) (rw c (rw c at h))))
  ]
  | inr e ↦ elim (Bool-cases (x.id == j)) [
    | inl c ↦ (x, rw e (rw c refl))
    | inr c ↦ let (n', ih) = buscar-cambiar f id j xs n s (rw c at h) in (n', rw e (rw c ih))
  ]
]

pub esta-otro : (b x : ℕ) (xs : List ℕ) → esta b xs ≡ true → esta x xs ≡ false → (x == b) ≡ false
esta-otro b x xs h l = elim (Bool-cases (x == b)) [
  | inl e ↦ let k = subst (λ y. esta y xs ≡ false) ((==_iff x b).0 e) l in cc
  | inr e ↦ e
]
