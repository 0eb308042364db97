-- ===== src/Mapas/Deadlock/Served.antt =====
-- deteccionDeadlock.c: what `atendido` says when the `while` has ended.
use sisoputnfrba_tp_2016_2c.Base.{
  ℕ, zero, suc, ◌+◌, ◌%◌, ◌^◌, ◌<◌, ◌≡◌, ◌⊎◌, inl, inr, true, false, not, ◌&&◌, List, [], ◌∷◌,
  Option, none, some, arith, refl, sym, ap, lt→ltb, length, map, Bool-cases,
}
use sisoputnfrba_tp_2016_2c.Mapas.State.{above_zero, Entrenador, PokeNest}
use sisoputnfrba_tp_2016_2c.Mapas.Deadlock.{
  Fila, Vuelta, Fin, termina, primer_pedido, celda, en_celda, servir, soltar, pasada, sospechar,
  seguir, hay_alguien_para_atender, atender_pedidos, fila_de, repartir, inicio,
}
use sisoputnfrba_tp_2016_2c.Mapas.Deadlock.Passes.{visto, pasada-Casos}

-- A trainer is served, or its first request is for a PokeNest without pokemons.
abbrev pub Resuelta : List ℕ → Fila → Type 0
Resuelta ds f =
    (f.atendido ≡ true)
    ⊎ ((j : ℕ) × (primer_pedido f.pedidos ≡ some j) × (above_zero (celda j ds) ≡ false))

abbrev pub Resueltas : List ℕ → List Fila → Type 0
Resueltas ds [] = Unit {0}
Resueltas ds (f ∷ fs) = Resuelta ds f × Resueltas ds fs

-- There is a PokeNest.
abbrev pub ConNests : List Fila → Type 0
ConNests [] = Unit {0}
ConNests (f ∷ fs) = (0 < length f.utilizados) × ConNests fs

pub length-en_celda : (g : ℕ → ℕ) (j : ℕ) (xs : List ℕ) → length (en_celda g j xs) ≡ length xs
unfolding en_celda
length-en_celda g j [] = refl
length-en_celda g zero (x ∷ xs) = refl
length-en_celda g (suc j) (x ∷ xs) = ap suc (length-en_celda g j xs)

pub length_zeros : (xs : List ℕ) → length {A = ℕ} (map (λ u. 0) xs) ≡ length xs
length_zeros [] = refl
length_zeros (x ∷ xs) = ap suc (length_zeros xs)

-- A pass keeps the lengths of the rows.
pasada-ConNests :
    (fs : List Fila) (v : Vuelta) (gs : List Fila) (w : Vuelta)
    → pasada fs v ≡ some (gs, w)
    → ConNests fs
    → ConNests gs × (length gs ≡ length fs)
unfolding pasada
pasada-ConNests [] v gs w h c = let e : gs ≡ [] = ground arith in rw e (tt, refl)
pasada-ConNests (f ∷ fs) v gs w h (l, c) = elim (pasada-Casos f fs v gs w h) [
  | inl (j, e, z, (gs', p, q)) ↦
      let m = length-en_celda (λ u. (u + 1) % 2 ^ 32) j f.utilizados in
      rw q (
        let (ih, n) = pasada-ConNests fs (servir j f v).1 gs' w p c in
        ((omega arith, ih), ap suc n))
  | inr (inl (j, e, z, (gs', p, q))) ↦
      rw q (let (ih, n) = pasada-ConNests fs (visto v) gs' w p c in ((l, ih), ap suc n))
  | inr (inr (e, z, (gs', p, q))) ↦
      let m = length_zeros f.utilizados in
      rw q
        (let (ih, n) = pasada-ConNests fs (soltar f v).1 gs' w p c in ((omega arith, ih), ap suc n))
]

-- A pass that ends with `hayDeadlock` serves no request: behind a trainer that waits it changes
-- no PokeNest, and every trainer is served or waits.
pasada-Resueltas :
    (fs : List Fila) (v : Vuelta) (gs : List Fila) (w : Vuelta)
    → pasada fs v ≡ some (gs, w)
    → ConNests fs
    → w.hay_deadlock ≡ true
    → (v.hay_deadlock ≡ true)
      × Resueltas w.disponibles gs
      × (v.tiene_un_pedido ≡ true → w.disponibles ≡ v.disponibles)
unfolding pasada
pasada-Resueltas [] v gs w h c d =
    let e : gs ≡ [] = ground arith in
    let k : v ≡ w = ground arith in (ground arith, rw e tt, λ t. ap (λ x. x.disponibles) (sym k))
pasada-Resueltas (f ∷ fs) v gs w h (l, c) d = elim (pasada-Casos f fs v gs w h) [
  | inl (j, e, z, (gs', p, q)) ↦
      let (x, ih, n) = pasada-Resueltas fs (servir j f v).1 gs' w p c d in cc
  | inr (inl (j, e, z, (gs', p, q))) ↦
      let (x, ih, n) = pasada-Resueltas fs (visto v) gs' w p c d in
      let k = n refl in (x, rw q (inr (j, e, rw k z), ih), λ t. k)
  | inr (inr (e, z, (gs', p, q))) ↦
      let (x, ih, n) = pasada-Resueltas fs (soltar f v).1 gs' w p c d in
      (x, rw q (inl (ground (arith, lt→ltb 0 (length f.utilizados))), ih), λ t. ground arith)
]

todas_atendidas :
    (ds : List ℕ) (fs : List Fila) → hay_alguien_para_atender fs ≡ false → Resueltas ds fs
unfolding hay_alguien_para_atender
todas_atendidas ds [] h = tt
todas_atendidas ds (f ∷ fs) h = elim (Bool-cases f.atendido) [
  | inl e ↦ (inl e, todas_atendidas ds fs (ground (arith, e)))
  | inr e ↦ absurd (ground arith)
]

pub seguir-termina :
    (o : Option (List Fila × Vuelta)) (go : List Fila → Vuelta → Fin) (gs : List Fila) (w : Vuelta)
    → seguir o go ≡ termina gs w
    → (fs : List Fila) × (v : Vuelta) × (o ≡ some (fs, v)) × (go fs v ≡ termina gs w)
seguir-termina none go gs w h = cc
seguir-termina (some (fs, v)) go gs w h = (fs, v, refl, h)

pub termina-eq :
    (fs gs : List Fila) (v w : Vuelta)
    → termina fs v ≡ termina gs w
    → (fs ≡ gs) × (v.disponibles ≡ w.disponibles)
termina-eq fs gs v w h = let e : v ≡ w = ground arith in (ground arith, ap (λ x. x.disponibles) e)

atender_pedidos-Resueltas :
    (k : ℕ) (fs : List Fila) (v : Vuelta) (gs : List Fila) (w : Vuelta)
    → ConNests fs
    → (v.hay_deadlock ≡ true → Resueltas v.disponibles fs)
    → atender_pedidos k fs v ≡ termina gs w
    → Resueltas w.disponibles gs
unfolding atender_pedidos
atender_pedidos-Resueltas zero fs v gs w c i h = cc
atender_pedidos-Resueltas (suc k) fs v gs w c i h =
    elim (Bool-cases (not v.hay_deadlock && hay_alguien_para_atender fs)) [
      | inl e ↦
          let s = sospechar (length fs) v in
          let (fs', v', p, q) =
            seguir-termina (pasada fs s) (λ x y. atender_pedidos k x y) gs w (rw e at h) in
          let (c', n) = pasada-ConNests fs s fs' v' p c in
          atender_pedidos-Resueltas k fs' v' gs w c' (λ d. (pasada-Resueltas fs s fs' v' p c d).1) q
      | inr e ↦
          let (ef, ev) = termina-eq fs gs v w (rw e at h) in
          rw (← ef) (
            rw (← ev) (elim (Bool-cases v.hay_deadlock) [
              | inl d ↦ i d
              | inr d ↦ todas_atendidas v.disponibles fs (ground (arith, d))
            ]))
    ]

map-ConNests :
    (nests : List PokeNest) (es : List Entrenador)
    → 0 < length nests
    → ConNests (map (λ e. fila_de nests e) es)
map-ConNests nests [] l = tt
map-ConNests [] (e ∷ es) l = absurd (omega arith)
map-ConNests (n ∷ ns) (e ∷ es) l = (omega arith, map-ConNests (n ∷ ns) es l)

-- When the `while` has ended by its condition on a map with a PokeNest, every trainer is served, or
-- the first PokeNest that it asks for has no pokemon left: nobody is taken for blocked whose
-- request could be served.
pub repartir-Resueltas :
    (k : ℕ) (nests : List PokeNest) (es : List Entrenador) (gs : List Fila) (w : Vuelta)
    → 0 < length nests
    → repartir k nests es ≡ termina gs w
    → Resueltas w.disponibles gs
unfolding repartir inicio
repartir-Resueltas k nests es gs w l h =
    atender_pedidos-Resueltas k (map (λ e. fila_de nests e) es) (inicio nests) gs w
      (map-ConNests nests es l) (λ d. cc) h
