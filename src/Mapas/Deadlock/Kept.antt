-- ===== src/Mapas/Deadlock/Kept.antt =====
-- deteccionDeadlock.c: the pokemons of a PokeNest, on the map and with the trainers, while the
-- requests are served on the matrices.
use sisoputnfrba_tp_2016_2c.Base.{
  ℕ, zero, suc, ◌+◌, ◌-◌, ◌%◌, ◌^◌, ◌<◌, ◌≡◌, inl, inr, true, false, not, ◌&&◌, List, [], ◌∷◌, some,
  arith, refl, ap, ◌∙◌, leb, length, map, Bool-cases, ◌==◌, ==_iff, subst, length-map,
}
use sisoputnfrba_tp_2016_2c.Mapas.State.{above_zero, of_char, Entrenador, PokeNest}
use sisoputnfrba_tp_2016_2c.Mapas.Deadlock.{
  Fila, Vuelta, termina, celda, en_celda, devolver, servir, soltar, pasada, sospechar,
  hay_alguien_para_atender, atender_pedidos, fila_de, repartir, inicio, contador_pokemon,
}
use sisoputnfrba_tp_2016_2c.Mapas.Deadlock.Passes.{visto, pasada-Casos}
use sisoputnfrba_tp_2016_2c.Mapas.Deadlock.Served.{
  length-en_celda, length_zeros, seguir-termina, termina-eq,
}

-- The pokemons of the PokeNest `j` that the trainers hold by the matrix.
abbrev pub retenidos : ℕ → List Fila → ℕ
retenidos j [] = 0
retenidos j (f ∷ fs) = celda j f.utilizados + retenidos j fs

-- The rows are as long as `pokemonsDisponibles`.
abbrev Alineadas : ℕ → List Fila → Type 0
Alineadas n [] = Unit {0}
Alineadas n (f ∷ fs) = (length f.utilizados ≡ n) × Alineadas n fs

celda-en_celda :
    (g : ℕ → ℕ) (j : ℕ) (xs : List ℕ) → j < length xs → celda j (en_celda g j xs) ≡ g (celda j xs)
unfolding celda en_celda
celda-en_celda g j [] h = absurd (omega arith)
celda-en_celda g zero (x ∷ xs) h = refl
celda-en_celda g (suc j) (x ∷ xs) h = celda-en_celda g j xs (omega arith)

celda-en_celda_other :
    (g : ℕ → ℕ) (i j : ℕ) (xs : List ℕ) → (i == j) ≡ false → celda j (en_celda g i xs) ≡ celda j xs
unfolding celda en_celda
celda-en_celda_other g i j [] h = refl
celda-en_celda_other g zero zero (x ∷ xs) h = absurd (ground arith)
celda-en_celda_other g zero (suc j) (x ∷ xs) h = refl
celda-en_celda_other g (suc i) zero (x ∷ xs) h = refl
celda-en_celda_other g (suc i) (suc j) (x ∷ xs) h = celda-en_celda_other g i j xs (ground arith)

above_zero-celda :
    (j : ℕ) (xs : List ℕ) → above_zero (celda j xs) ≡ true → (j < length xs) × (0 < celda j xs)
unfolding celda
above_zero-celda j [] h = absurd (ground arith)
above_zero-celda zero (x ∷ xs) h = (omega arith, ground arith)
above_zero-celda (suc j) (x ∷ xs) h = let (l, m) = above_zero-celda j xs h in (omega arith, m)

celda-devolver :
    (j : ℕ) (ds us : List ℕ)
    → length us ≡ length ds
    → celda j (devolver ds us) % 2 ^ 32 ≡ (celda j ds + celda j us) % 2 ^ 32
unfolding celda devolver
celda-devolver j [] [] h = refl
celda-devolver j [] (u ∷ us) h = absurd (omega arith)
celda-devolver j (d ∷ ds) [] h = absurd (omega arith)
celda-devolver zero (d ∷ ds) (u ∷ us) h = omega arith
celda-devolver (suc j) (d ∷ ds) (u ∷ us) h = celda-devolver j ds us (omega arith)

length-devolver : (ds us : List ℕ) → length us ≡ length ds → length (devolver ds us) ≡ length ds
unfolding devolver
length-devolver [] us h = refl
length-devolver (d ∷ ds) [] h = refl
length-devolver (d ∷ ds) (u ∷ us) h = ap suc (length-devolver ds us (omega arith))

celda_zeros : (j : ℕ) (xs : List ℕ) → celda j (map (λ u. 0) xs) ≡ 0
unfolding celda
celda_zeros j [] = refl
celda_zeros zero (x ∷ xs) = refl
celda_zeros (suc j) (x ∷ xs) = celda_zeros j xs

-- A service moves one pokemon from the map to the trainer.
servir-celda :
    (i j : ℕ) (us ds : List ℕ)
    → length us ≡ length ds
    → above_zero (celda i ds) ≡ true
    → (celda j (en_celda (λ d. d - 1) i ds) + celda j (en_celda (λ u. (u + 1) % 2 ^ 32) i us))
        % 2 ^ 32
      ≡ (celda j ds + celda j us) % 2 ^ 32
servir-celda i j us ds l z =
    let (m, p) = above_zero-celda i ds z in
    elim (Bool-cases (i == j)) [
      | inl e ↦
          let k : i ≡ j = (==_iff i j).0 e in
          subst
            (λ x.
              (celda x (en_celda (λ d. d - 1) i ds)
                  + celda x (en_celda (λ u. (u + 1) % 2 ^ 32) i us))
                % 2 ^ 32
              ≡ (celda x ds + celda x us) % 2 ^ 32)
            k
            (rw (celda-en_celda (λ d. d - 1) i ds m)
              (rw (celda-en_celda (λ u. (u + 1) % 2 ^ 32) i us (omega arith)) (omega arith)))
      | inr e ↦
          rw (celda-en_celda_other (λ d. d - 1) i j ds e)
            (rw (celda-en_celda_other (λ u. (u + 1) % 2 ^ 32) i j us e))
    ]

-- The pokemons of the PokeNest `j`, on the map and with the trainers.
abbrev pub existentes : ℕ → List Fila → Vuelta → ℕ
existentes j fs v = (celda j v.disponibles + retenidos j fs) % 2 ^ 32

abbrev Conservado : ℕ → List Fila → Vuelta → List Fila → Vuelta → Type 0
Conservado j fs v gs w =
    Alineadas (length w.disponibles) gs × (existentes j gs w ≡ existentes j fs v)

pasada-Conservado :
    (j : ℕ) (fs : List Fila) (v : Vuelta) (gs : List Fila) (w : Vuelta)
    → pasada fs v ≡ some (gs, w)
    → Alineadas (length v.disponibles) fs
    → (length w.disponibles ≡ length v.disponibles) × Conservado j fs v gs w
unfolding pasada
pasada-Conservado j [] v gs w h a =
    let e : gs ≡ [] = ground arith in
    let k : v.disponibles ≡ w.disponibles = ground arith in rw e (rw k (refl, (tt, refl)))
pasada-Conservado j (f ∷ fs) v gs w h (l, a) = elim (pasada-Casos f fs v gs w h) [
  | inl (i, e, z, (gs', p, q)) ↦
      let v1 = (servir i f v).1 in
      let n = length-en_celda (λ d. d - 1) i v.disponibles in
      let m = length-en_celda (λ u. (u + 1) % 2 ^ 32) i f.utilizados in
      let (n', (a', ih)) = pasada-Conservado j fs v1 gs' w p (rw n a) in
      let c = servir-celda i j f.utilizados v.disponibles l z in
      rw q (omega arith, ((omega arith, a'), omega arith))
  | inr (inl (i, e, z, (gs', p, q))) ↦
      let (n', (a', ih)) = pasada-Conservado j fs (visto v) gs' w p a in
      rw q (n', ((omega arith, a'), omega arith))
  | inr (inr (e, z, (gs', p, q))) ↦
      let v1 = (soltar f v).1 in
      let n = length-devolver v.disponibles f.utilizados l in
      let m = length_zeros f.utilizados in
      let o = celda_zeros j f.utilizados in
      let (n', (a', ih)) = pasada-Conservado j fs v1 gs' w p (rw n a) in
      let c = celda-devolver j v.disponibles f.utilizados l in
      rw q (omega arith, ((omega arith, a'), omega arith))
]

sospechar-disponibles : (n : ℕ) (v : Vuelta) → (sospechar n v).disponibles ≡ v.disponibles
sospechar-disponibles n v = elim (Bool-cases (leb 2 n)) [ inl e ↦ rw e | inr e ↦ rw e ]

atender_pedidos-Conservado :
    (j k : ℕ) (fs : List Fila) (v : Vuelta) (gs : List Fila) (w : Vuelta)
    → Alineadas (length v.disponibles) fs
    → atender_pedidos k fs v ≡ termina gs w
    → existentes j gs w ≡ existentes j fs v
unfolding atender_pedidos
atender_pedidos-Conservado j zero fs v gs w a h = cc
atender_pedidos-Conservado j (suc k) fs v gs w a h =
    elim (Bool-cases (not v.hay_deadlock && hay_alguien_para_atender fs)) [
      | inl e ↦
          let s = sospechar (length fs) v in
          let d = sospechar-disponibles (length fs) v in
          let (fs', v', p, q) =
            seguir-termina (pasada fs s) (λ x y. atender_pedidos k x y) gs w (rw e at h) in
          let (n, (a', c)) = pasada-Conservado j fs s fs' v' p (rw d a) in
          atender_pedidos-Conservado j k fs' v' gs w a' q
          ∙ c
          ∙ ap (λ x. (celda j x + retenidos j fs) % 2 ^ 32) d
      | inr e ↦ let (ef, ev) = termina-eq fs gs v w (rw e at h) in rw (← ef) (rw (← ev) refl)
    ]

Alineadas-map :
    (nests : List PokeNest) (es : List Entrenador)
    → Alineadas (length (inicio nests).disponibles) (map (λ e. fila_de nests e) es)
unfolding inicio
Alineadas-map nests [] = tt
Alineadas-map nests (e ∷ es) =
    let l = length-map (λ n. contador_pokemon n.id e.pokemons) nests in
    let m = length-map (λ n. of_char n.cantidad) nests in (omega arith, Alineadas-map nests es)

-- Serving the requests on the matrices makes no pokemon and loses none: for each PokeNest those on
-- the map and those that the trainers hold are together as many at the end of the `while` as at its
-- start, modulo 2^32.
pub repartir-existentes :
    (j k : ℕ) (nests : List PokeNest) (es : List Entrenador) (gs : List Fila) (w : Vuelta)
    → repartir k nests es ≡ termina gs w
    → existentes j gs w ≡ existentes j (map (λ e. fila_de nests e) es) (inicio nests)
unfolding repartir
repartir-existentes j k nests es gs w h =
    atender_pedidos-Conservado j k (map (λ e. fila_de nests e) es) (inicio nests) gs w
      (Alineadas-map nests es) h
