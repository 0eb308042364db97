-- ===== src/Mapas/Turnos/Distancias.antt =====
-- planificacion.c: buscarEntrenadorConMenorDistancia.
use sisoputnfrba_tp_2016_2c.Base.{
  ℕ, ◌+◌, ◌-◌, ◌%◌, ◌^◌, ◌<◌, ◌≤◌, ◌≡◌, ◌≢◌, Bool, true, List, [], ◌∷◌, Option, none, some, arith,
  refl, ◌∙◌, ap, ltb, ltb→lt, inl, inr, Bool-cases, ◌>>=◌,
}
use sisoputnfrba_tp_2016_2c.Mapas.State.{Entrenador, PokeNest, Mapa, Ambiente, of_char}
use sisoputnfrba_tp_2016_2c.Mapas.Solicitudes.{buscar_pokenest}
use sisoputnfrba_tp_2016_2c.Mapas.Planificacion.{esta, en_posicion}
use sisoputnfrba_tp_2016_2c.Mapas.Turnos.{
  distancia, menor, distancia_a_pokenest, menor_distancia, con_menor_distancia,
}

-- The distance between two numbers, and the one that a trainer has to walk.
abbrev pub entre : ℕ → ℕ → ℕ
entre a b = (a - b) + (b - a)

abbrev pub a_pie : PokeNest → Entrenador → ℕ
a_pie n t = entre n.posx t.posx + entre n.posy t.posy

-- On the map: coordinates that are not negative, and far from the bounds of their types.
abbrev pub EnElMapa : PokeNest → Entrenador → Type 0
EnElMapa n t = (n.posx < 128) × (n.posy < 128) × (t.posx < 2 ^ 30) × (t.posy < 2 ^ 30)

distancia-entre : (c a : ℕ) → c < 128 → a < 2 ^ 30 → distancia (of_char c) a ≡ entre c a
distancia-entre c a h g = ground arith

distancia_a_pokenest-a_pie :
    (ns : List PokeNest) (n : PokeNest) (t : Entrenador)
    → buscar_pokenest ns t.pokenest_buscada ≡ some n
    → EnElMapa n t
    → (distancia_a_pokenest ns t ≡ some (a_pie n t)) × (a_pie n t < 2 ^ 31)
unfolding distancia_a_pokenest
distancia_a_pokenest-a_pie ns n t h (nx, ny, tx, ty) =
    let dx = distancia-entre n.posx t.posx nx tx in
    let dy = distancia-entre n.posy t.posy ny ty in
    let k : (distancia (of_char n.posx) t.posx + distancia (of_char n.posy) t.posy) % 2 ^ 32
        ≡ a_pie n t =
      omega (arith, dx, dy) in
    (rw h (ap (λ x. some x) k), omega arith)

menor-lt : (a b : ℕ) → a < 2 ^ 31 → b < 2 ^ 31 → a < b → menor a b ≡ true
menor-lt a b h g l = ground arith

-- `list_sort` by the order `f` puts first an element that no other one comes before.
abbrev pub PrimeroMenor : {S : Type 0} → Ambiente S → (ℕ → ℕ → Option Bool) → Type 0
PrimeroMenor e f =
    (xs ys : List ℕ) (y x : ℕ)
    → e.sort_entrenadores f xs ≡ some (y ∷ ys)
    → esta x xs ≡ true
    → f x y ≢ some true

en_posicion-some : (xs : List ℕ) (y : ℕ) → en_posicion xs ≡ some y → (ys : List ℕ) × (xs ≡ y ∷ ys)
en_posicion-some [] y h = cc
en_posicion-some (x ∷ xs) y h = (xs, ground arith)

-- The trainer that gets the turn is one with the least distance to walk to its PokeNest among
-- those ready, for trainers and PokeNests on the map, whose coordinates are not negative and do not
-- come near the bounds of their types. `list_sort` by the distance is taken to put first an
-- element that no other one comes before.
pub con_menor_distancia-a_pie :
    {S : Type 0} (e : Ambiente S) (m : Mapa S) (id x : ℕ) (t u : Entrenador) (n o : PokeNest)
    → PrimeroMenor e (menor_distancia m.heap m.lista_pokenests)
    → con_menor_distancia e m ≡ some id
    → m.heap id ≡ some t
    → buscar_pokenest m.lista_pokenests t.pokenest_buscada ≡ some n
    → EnElMapa n t
    → esta x m.cola_listos ≡ true
    → m.heap x ≡ some u
    → buscar_pokenest m.lista_pokenests u.pokenest_buscada ≡ some o
    → EnElMapa o u
    → a_pie n t ≤ a_pie o u
unfolding con_menor_distancia menor_distancia
con_menor_distancia-a_pie e m id x t u n o s c h hn en l g ho eo =
    con_orden (e.sort_entrenadores (menor_distancia m.heap m.lista_pokenests) m.cola_listos) refl c
  where
    con_orden :
        (z : Option (List ℕ))
        → e.sort_entrenadores (menor_distancia m.heap m.lista_pokenests) m.cola_listos ≡ z
        → z >>= en_posicion ≡ some id
        → a_pie n t ≤ a_pie o u
    con_orden none q k = cc
    con_orden (some xs) q k =
        let (ys, p) = en_posicion-some xs id k in
        let no_menor = s m.cola_listos ys id x (q ∙ ap (λ y. some y) p) l in
        let (d, b) = distancia_a_pokenest-a_pie m.lista_pokenests n t hn en in
        let (d', b') = distancia_a_pokenest-a_pie m.lista_pokenests o u ho eo in
        elim (Bool-cases (ltb (a_pie o u) (a_pie n t))) [
          | inl lt ↦
              let r : menor_distancia m.heap m.lista_pokenests x id ≡ some true = rw g (
                rw h (
                  rw d (
                    rw d' (
                      ap (λ y. some y)
                        (menor-lt (a_pie o u) (a_pie n t) b' b (ltb→lt _ _ lt)))))) in
              absurd (no_menor r)
          | inr ge ↦ ground arith
        ]
