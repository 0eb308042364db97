-- ===== src/Mapas/Deadlock/Elegidos.antt =====
-- deteccionDeadlock.c: the trainers that duplicar_lista, the loop over `atendido` and the filter
-- leave.
use sisoputnfrba_tp_2016_2c.Base.{
  ℕ, ◌≡◌, refl, ◌⊎◌, inl, inr, true, false, List, [], ◌∷◌, Option, some, sym, ◌∙◌, arith, ap, ◌==◌,
  ==_refl, bind-some, some_inj, Bool-cases, subst,
}
use sisoputnfrba_tp_2016_2c.Mapas.State.{InfoPokemon, Entrenador}
use sisoputnfrba_tp_2016_2c.Mapas.Planificacion.{esta}
use sisoputnfrba_tp_2016_2c.Mapas.Deadlock.{Fila, filtrar, no_atendidos, es_buscado, retiene_alguno}
use sisoputnfrba_tp_2016_2c.Mapas.Deadlock.Batalla.{duplicar_lista}

-- One of a list.
abbrev pub EsUno : Entrenador → List Entrenador → Type 0
EsUno t [] = ⊥
EsUno t (u ∷ us) = (t ≡ u) ⊎ EsUno t us

pub filtrar-EsUno :
    (os es : List Entrenador) (t : Entrenador)
    → EsUno t (filtrar os es)
    → EsUno t es × (retiene_alguno os t.pokemons ≡ true)
unfolding filtrar
filtrar-EsUno os [] t h = absurd h
filtrar-EsUno os (u ∷ us) t h = elim (Bool-cases (retiene_alguno os u.pokemons)) [
  | inl r ↦ elim (rw r at h) [
    | inl k ↦ (inl k, subst (λ (x : Entrenador). retiene_alguno os x.pokemons ≡ true) (sym k) r)
    | inr k ↦ let (a, b) = filtrar-EsUno os us t k in (inr a, b)
  ]
  | inr r ↦ let (a, b) = filtrar-EsUno os us t (rw r at h) in (inr a, b)
]

-- A trainer of the list whose row of the matrices says that it has not been served.
abbrev pub SinAtender : List Fila → List Entrenador → Entrenador → Type 0
SinAtender [] es t = ⊥
SinAtender (f ∷ fs) [] t = ⊥
SinAtender (f ∷ fs) (u ∷ us) t = ((t ≡ u) × (f.atendido ≡ false)) ⊎ SinAtender fs us t

pub no_atendidos-SinAtender :
    (fs : List Fila) (es : List Entrenador) (t : Entrenador)
    → EsUno t (no_atendidos fs es)
    → SinAtender fs es t
unfolding no_atendidos
no_atendidos-SinAtender [] es t h = absurd h
no_atendidos-SinAtender (f ∷ fs) [] t h = absurd h
no_atendidos-SinAtender (f ∷ fs) (u ∷ us) t h = elim (Bool-cases f.atendido) [
  | inl r ↦ inr (no_atendidos-SinAtender fs us t (rw r at h))
  | inr r ↦ elim (rw r at h) [
    | inl k ↦ inl (k, r)
    | inr k ↦ inr (no_atendidos-SinAtender fs us t k)
  ]
]

pub SinAtender-EsUno :
    (fs : List Fila) (es : List Entrenador) (t : Entrenador) → SinAtender fs es t → EsUno t es
SinAtender-EsUno [] es t h = absurd h
SinAtender-EsUno (f ∷ fs) [] t h = absurd h
SinAtender-EsUno (f ∷ fs) (u ∷ us) t (inl (k, r)) = inl k
SinAtender-EsUno (f ∷ fs) (u ∷ us) t (inr k) = inr (SinAtender-EsUno fs us t k)

-- A pokemon of the list, from the PokeNest that a trainer asks for.
abbrev pub Retiene : Entrenador → List InfoPokemon → Type 0
Retiene u [] = ⊥
Retiene u (p ∷ ps) = (u.pokenest_buscada ≡ p.id_pokenest) ⊎ Retiene u ps

es_buscado-EsUno :
    (es : List Entrenador) (n : ℕ)
    → es_buscado es n ≡ true
    → (u : Entrenador) × EsUno u es × (u.pokenest_buscada ≡ n)
unfolding es_buscado
es_buscado-EsUno [] n h = cc
es_buscado-EsUno (e ∷ es) n h = elim (Bool-cases (e.pokenest_buscada == n)) [
  | inl y ↦ (e, inl refl, ground arith)
  | inr y ↦ let (u, i, k) = es_buscado-EsUno es n (rw y at h) in (u, inr i, k)
]

pub retiene_alguno-Retiene :
    (es : List Entrenador) (ps : List InfoPokemon)
    → retiene_alguno es ps ≡ true
    → (u : Entrenador) × EsUno u es × Retiene u ps
unfolding retiene_alguno
retiene_alguno-Retiene es [] h = cc
retiene_alguno-Retiene es (p ∷ ps) h = elim (Bool-cases (es_buscado es p.id_pokenest)) [
  | inl y ↦ let (u, i, k) = es_buscado-EsUno es p.id_pokenest y in (u, i, inl k)
  | inr y ↦ let (u, i, k) = retiene_alguno-Retiene es ps (rw y at h) in (u, i, inr k)
]

pub duplicar_lista-EsUno :
    (heap : ℕ → Option Entrenador) (xs : List ℕ) (es : List Entrenador) (t : Entrenador)
    → duplicar_lista heap xs ≡ some es
    → EsUno t es
    → (x : ℕ) × (esta x xs ≡ true) × (heap x ≡ some t)
unfolding duplicar_lista esta
duplicar_lista-EsUno heap [] es t h i =
    absurd (subst (λ x. EsUno t x) (sym (some_inj {A = List Entrenador} [] es h)) i)
duplicar_lista-EsUno heap (x ∷ xs) es t h i =
    let (u, hu, h1) = bind-some (heap x) _ es h in
    let (us, hus, h2) = bind-some (duplicar_lista heap xs) (λ ts. some (u ∷ ts)) es h1 in
    elim (subst (λ y. EsUno t y) (sym (some_inj (u ∷ us) es h2)) i) [
      | inl k ↦ (x, ground (arith, ==_refl x), hu ∙ ap (λ y. some y) (sym k))
      | inr k ↦
          let (y, ey, hy) = duplicar_lista-EsUno heap xs us t hus k in
          (y, ground (arith, ey, Bool-cases (x == y)), hy)
    ]
