-- ===== src/Mapas/Cuentas.antt =====
-- Pokemons counted on the map and with the trainers.
use sisoputnfrba_tp_2016_2c.Base.{
  ℕ, ◌+◌, ◌≡◌, Bool, true, false, List, [], ◌∷◌, ◌++◌, Option, none, some, arith, refl, ap, ◌==◌,
  if◌then◌else◌, update, Bool-cases, ==_iff, inl, inr, subst,
}
use sisoputnfrba_tp_2016_2c.Mapas.State.{InfoPokemon, Entrenador, PokeNest}
use sisoputnfrba_tp_2016_2c.Mapas.Solicitudes.{buscar_pokenest, cambiar_pokenest}
use sisoputnfrba_tp_2016_2c.Mapas.Planificacion.{esta}

-- Each socket once.
abbrev pub Distintos : List ℕ → Type 0
Distintos [] = Unit {0}
Distintos (x ∷ xs) = (esta x xs ≡ false) × Distintos xs

-- The pokemons of a kind `q`.
module _ (q : InfoPokemon → Bool) where
  abbrev pub uno : InfoPokemon → ℕ
  uno p = if q p then 1 else 0

  abbrev pub cuantos : List InfoPokemon → ℕ
  cuantos [] = 0
  cuantos (p ∷ ps) = uno p + cuantos ps

  abbrev pub de_entrenador : Option Entrenador → ℕ
  de_entrenador none = 0
  de_entrenador (some t) = cuantos t.pokemons

  -- Those of some trainers, and those of the PokeNests.
  abbrev pub con_entrenadores : List ℕ → (ℕ → Option Entrenador) → ℕ
  con_entrenadores [] heap = 0
  con_entrenadores (x ∷ xs) heap = de_entrenador (heap x) + con_entrenadores xs heap

  abbrev pub en_pokenests : List PokeNest → ℕ
  en_pokenests [] = 0
  en_pokenests (n ∷ ns) = cuantos n.lista_pokemons + en_pokenests ns

  pub cuantos-append : (ps qs : List InfoPokemon) → cuantos (ps ++ qs) ≡ cuantos ps + cuantos qs
  cuantos-append [] qs = omega arith
  cuantos-append (p ∷ ps) qs = omega (arith, cuantos-append ps qs)

  pub con_entrenadores-fuera :
      (xs : List ℕ) (heap : ℕ → Option Entrenador) (id : ℕ) (o : Option Entrenador)
      → esta id xs ≡ false
      → con_entrenadores xs (update heap id o) ≡ con_entrenadores xs heap
  unfolding esta
  con_entrenadores-fuera [] heap id o h = refl
  con_entrenadores-fuera (x ∷ xs) heap id o h = elim (Bool-cases (x == id)) [
    | inl e ↦ absurd (ground (arith, e))
    | inr e ↦ rw e (
        ap (◌+◌ (de_entrenador (heap x))) (con_entrenadores-fuera xs heap id o (ground (arith, e))))
  ]

  pub con_entrenadores-update :
      (xs : List ℕ) (heap : ℕ → Option Entrenador) (id : ℕ) (o : Option Entrenador)
      → Distintos xs
      → esta id xs ≡ true
      → con_entrenadores xs (update heap id o) + de_entrenador (heap id)
        ≡ con_entrenadores xs heap + de_entrenador o
  unfolding esta
  con_entrenadores-update [] heap id o d h = cc
  con_entrenadores-update (x ∷ xs) heap id o (n, d) h = elim (Bool-cases (x == id)) [
    | inl e ↦
        let k : x ≡ id = (==_iff x id).0 e in
        let f = con_entrenadores-fuera xs heap x o n in
        let g = subst (λ y. con_entrenadores xs (update heap y o) ≡ con_entrenadores xs heap) k f in
        let c = ap (λ y. de_entrenador (heap y)) k in rw e (omega arith)
    | inr e ↦
        let ih = con_entrenadores-update xs heap id o d (ground (arith, e)) in
        rw e (omega (arith, ih))
  ]

  pub en_pokenests-cambiar :
      (f : PokeNest → PokeNest) (id : ℕ) (ns : List PokeNest) (n : PokeNest)
      → buscar_pokenest ns id ≡ some n
      → en_pokenests (cambiar_pokenest f id ns) + cuantos n.lista_pokemons
        ≡ en_pokenests ns + cuantos (f n).lista_pokemons
  unfolding buscar_pokenest cambiar_pokenest
  en_pokenests-cambiar f id [] n h = cc
  en_pokenests-cambiar f id (x ∷ xs) n h = elim (Bool-cases (x.id == id)) [
    | inl e ↦
        let k : x ≡ n = ground (arith, rw e at h) in
        rw e (
          subst
            (λ y.
              (cuantos (f x).lista_pokemons + en_pokenests xs) + cuantos y.lista_pokemons
              ≡ (cuantos x.lista_pokemons + en_pokenests xs) + cuantos (f y).lista_pokemons)
            k (omega arith))
    | inr e ↦ rw e (omega (arith, en_pokenests-cambiar f id xs n (rw e at h)))
  ]
