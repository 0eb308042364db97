-- ===== src/Mapas/Deadlock/Ends.antt =====
-- deteccionDeadlock.c: how often the `while` over the requests goes round.
use sisoputnfrba_tp_2016_2c.Base.{
  ℕ, zero, suc, ◌+◌, ◌≤◌, ◌<◌, ◌≡◌, ◌≢◌, ◌⊎◌, inl, inr, Bool, true, false, not, ◌&&◌, List, [], ◌∷◌,
  Option, none, some, arith, refl, length, Bool-cases, map, length-map, ◌==◌, ◌*◌,
}
use sisoputnfrba_tp_2016_2c.Mapas.State.{above_zero, of_char, Entrenador, PokeNest}
use sisoputnfrba_tp_2016_2c.Mapas.Deadlock.Passes.{visto, pasada-Casos}
use sisoputnfrba_tp_2016_2c.Mapas.Deadlock.{
  Fila, Vuelta, Fin, termina, sin_fuel, primer_pedido, celda, sin_pedido, servir, soltar, paso,
  pasada, sospechar, seguir, hay_alguien_para_atender, atender_pedidos, fila_de, repartir, inicio,
}

-- How many requests are open in a row, and in the matrix.
abbrev pub abiertos : List Bool → ℕ
abiertos [] = 0
abiertos (true ∷ ps) = suc (abiertos ps)
abiertos (false ∷ ps) = abiertos ps

abbrev pub pendientes : List Fila → ℕ
pendientes [] = 0
pendientes (f ∷ fs) = abiertos f.pedidos + pendientes fs

abiertos-sin_pedido :
    (ps : List Bool) (j : ℕ)
    → primer_pedido ps ≡ some j
    → suc (abiertos (sin_pedido j ps)) ≡ abiertos ps
unfolding sin_pedido primer_pedido
abiertos-sin_pedido [] j h = cc
abiertos-sin_pedido (true ∷ ps) zero h = refl
abiertos-sin_pedido (true ∷ ps) (suc j) h = cc
abiertos-sin_pedido (false ∷ ps) zero h = ground arith
abiertos-sin_pedido (false ∷ ps) (suc j) h = ground (arith, abiertos-sin_pedido ps j)

-- A pass serves a request, or leaves `hayDeadlock`, the number of open requests and the trainers.
abbrev pub Progress : List Fila → Vuelta → List Fila × Vuelta → Type 0
Progress fs v (fs', v') =
    (length fs' ≡ length fs)
    × ((pendientes fs' < pendientes fs)
        ⊎ ((pendientes fs' ≡ pendientes fs) × (v'.hay_deadlock ≡ v.hay_deadlock)))

pasada-Progress :
    (fs : List Fila) (v : Vuelta) (fs' : List Fila) (v' : Vuelta)
    → pasada fs v ≡ some (fs', v')
    → Progress fs v (fs', v')
unfolding pasada
pasada-Progress [] v fs' v' h = ground arith
pasada-Progress (f ∷ fs) v fs' v' h = elim (pasada-Casos f fs v fs' v' h) [
  | inl (j, e, z, (gs, p, q)) ↦
      ground
        (arith, abiertos-sin_pedido f.pedidos j e, pasada-Progress fs (servir j f v).1 gs v' p, q)
  | inr (inl (j, e, z, (gs, p, q))) ↦ ground (arith, pasada-Progress fs (visto v) gs v' p, q)
  | inr (inr (e, z, (gs, p, q))) ↦ ground (arith, pasada-Progress fs (soltar f v).1 gs v' p, q)
]

atender_pedidos-parado :
    (k : ℕ) (fs : List Fila) (v : Vuelta)
    → v.hay_deadlock ≡ true
    → atender_pedidos (suc k) fs v ≡ termina fs v
unfolding atender_pedidos
atender_pedidos-parado k fs v h = ground arith

seguir-sin_fuel :
    (o : Option (List Fila × Vuelta)) (go : List Fila → Vuelta → Fin)
    → ((fs : List Fila) (v : Vuelta) → o ≡ some (fs, v) → go fs v ≢ sin_fuel)
    → seguir o go ≢ sin_fuel
seguir-sin_fuel none go h = ground arith
seguir-sin_fuel (some (fs, v)) go h = h fs v refl

pasada-sin_fuel :
    (k : ℕ) (fs : List Fila) (v : Vuelta) (fs' : List Fila) (v' : Vuelta)
    → 2 ≤ length fs
    → pendientes fs < suc k
    → pasada fs (sospechar (length fs) v) ≡ some (fs', v')
    → (2 ≤ length fs' → pendientes fs' < k → atender_pedidos (suc k) fs' v' ≢ sin_fuel)
    → atender_pedidos (suc k) fs' v' ≢ sin_fuel
pasada-sin_fuel k fs v fs' v' two less p later =
    let (l, c) = pasada-Progress fs (sospechar (length fs) v) fs' v' p in
    elim c [
      | inl d ↦ later (omega arith) (omega arith)
      | inr (d, h) ↦
          let e : v'.hay_deadlock ≡ true = ground (arith, h) in
          rw (atender_pedidos-parado k fs' v' e) (ground arith)
    ]

-- With two trainers or more, the `while` ends: on fuel above the number of open requests it comes
-- to its condition, or to a read behind an array.
pub atender_pedidos-sin_fuel :
    (k : ℕ) (fs : List Fila) (v : Vuelta)
    → 2 ≤ length fs
    → pendientes fs < k
    → atender_pedidos (suc k) fs v ≢ sin_fuel
unfolding atender_pedidos
atender_pedidos-sin_fuel zero fs v two less = absurd (omega arith)
atender_pedidos-sin_fuel (suc k) fs v two less =
    let go = λ (fs' : List Fila) (v' : Vuelta). atender_pedidos (suc k) fs' v' in
    let later = λ (fs' : List Fila) (v' : Vuelta) (l : 2 ≤ length fs') (d : pendientes fs' < k).
      atender_pedidos-sin_fuel k fs' v' l d in
    elim (Bool-cases (not v.hay_deadlock && hay_alguien_para_atender fs)) [
      | inr e ↦ rw e (ground arith)
      | inl e ↦ rw e (
          seguir-sin_fuel (pasada fs (sospechar (length fs) v)) go
            λ fs' v' p. pasada-sin_fuel k fs v fs' v' two less p (later fs' v'))
    ]

abiertos-map : (n : PokeNest → Bool) (nests : List PokeNest) → abiertos (map n nests) ≤ length nests
abiertos-map n [] = omega arith
abiertos-map n (x ∷ xs) = ground (arith, abiertos-map n xs, Bool-cases (n x))

pendientes-map :
    (nests : List PokeNest) (es : List Entrenador)
    → pendientes (map (λ e. fila_de nests e) es) ≤ length es * length nests
pendientes-map nests [] = omega arith
pendientes-map nests (e ∷ es) =
    let m : suc (length es) * length nests ≡ length nests + length es * length nests =
      omega arith in
    omega (arith, pendientes-map nests es, abiertos-map (λ n. n.id == e.pokenest_buscada) nests, m)

-- With two trainers or more, the round of the detection comes to an end: in at most one pass more
-- than there are pairs of a trainer and a PokeNest the `while` ends by its condition, or a pass
-- reads behind an array.
pub repartir-sin_fuel :
    (k : ℕ) (nests : List PokeNest) (es : List Entrenador)
    → 2 ≤ length es
    → length es * length nests < k
    → repartir (suc k) nests es ≢ sin_fuel
unfolding repartir
repartir-sin_fuel k nests es two less =
    let l = length-map (λ e. fila_de nests e) es in
    let p = pendientes-map nests es in
    atender_pedidos-sin_fuel k (map (λ e. fila_de nests e) es) (inicio nests) (omega arith)
      (omega arith)

solo_parado :
    (k j : ℕ) (us ds : List ℕ) (ps : List Bool) (t : Bool)
    → primer_pedido ps ≡ some j
    → above_zero (celda j ds) ≡ false
    → atender_pedidos k
        (record { utilizados = us; pedidos = ps; atendido = false } ∷ [])
        (record { disponibles = ds; hay_deadlock = false; tiene_un_pedido = t })
      ≡ sin_fuel
unfolding atender_pedidos hay_alguien_para_atender pasada paso
solo_parado zero j us ds ps t p z = refl
solo_parado (suc k) j us ds ps t p z = rw p (rw z (solo_parado k j us ds ps true p z))

-- A trainer alone on the map that asks for a PokeNest without pokemons keeps the detection in its
-- `while` for ever: no number of passes is enough.
pub repartir-solo :
    (nests : List PokeNest) (e : Entrenador) (j : ℕ)
    → primer_pedido (map (λ n. n.id == e.pokenest_buscada) nests) ≡ some j
    → above_zero (celda j (map (λ n. of_char n.cantidad) nests)) ≡ false
    → (k : ℕ) → repartir k nests (e ∷ []) ≡ sin_fuel
unfolding repartir inicio
repartir-solo nests e j p z k =
    let f = fila_de nests e in
    solo_parado k j f.utilizados (map (λ n. of_char n.cantidad) nests) f.pedidos false p z
