-- ===== src/Mapas/Deadlock.antt =====
-- deteccionDeadlock.c: the matrices of one round of detectarDeadlock, the loop that serves the
-- requests as far as there are pokemons, and the trainers that are left.
pub mod Batalla
pub mod Elegidos
pub mod Victima
pub mod Passes
pub mod Ends
pub mod Served
pub mod Kept
use sisoputnfrba_tp_2016_2c.Base.{
  ℕ, zero, suc, ◌+◌, ◌-◌, ◌%◌, ◌^◌, ◌<◌, ◌≡◌, Bool, true, false, not, ◌&&◌, ◌||◌, List, [], ◌∷◌,
  Option, none, some, arith, ltb, leb, ◌==◌, if◌then◌else◌, length, map,
}
use sisoputnfrba_tp_2016_2c.Mapas.State.{InfoPokemon, Entrenador, PokeNest, of_char, above_zero}

-- A row of `matrizUtilizados` and of `matrizPedidos`, and the trainer's `atendido`.
pub record Fila : Type 0 where
  pub utilizados : List ℕ
  pub pedidos : List Bool
  pub atendido : Bool

-- How many of a trainer's pokemons come from a PokeNest.
unfoldable pub contador_pokemon : ℕ → List InfoPokemon → ℕ
contador_pokemon n [] = 0
contador_pokemon n (p ∷ ps) =
    let rest = contador_pokemon n ps in if p.id_pokenest == n then suc rest else rest

-- The loops that fill the row of a trainer.
abbrev pub fila_de : List PokeNest → Entrenador → Fila
fila_de nests e = record {
  utilizados = map (λ n. contador_pokemon n.id e.pokemons) nests;
  pedidos = map (λ n. n.id == e.pokenest_buscada) nests;
  atendido = false;
}

unfoldable pub hay_alguien_para_atender : List Fila → Bool
hay_alguien_para_atender [] = false
hay_alguien_para_atender (f ∷ fs) = not f.atendido || hay_alguien_para_atender fs

-- `i_pokenest` when the loop over a row of `matrizPedidos` breaks.
unfoldable pub primer_pedido : List Bool → Option ℕ
primer_pedido [] = none
primer_pedido (true ∷ ps) = some 0
primer_pedido (false ∷ ps) = elim (primer_pedido ps) [ none ↦ none | some j ↦ some (suc j) ]

-- A cell of a row; behind it nothing is read.
unfoldable pub celda : ℕ → List ℕ → ℕ
celda j [] = 0
celda zero (x ∷ xs) = x
celda (suc j) (x ∷ xs) = celda j xs

unfoldable pub en_celda : (ℕ → ℕ) → ℕ → List ℕ → List ℕ
en_celda f j [] = []
en_celda f zero (x ∷ xs) = f x ∷ xs
en_celda f (suc j) (x ∷ xs) = x ∷ en_celda f j xs

unfoldable pub sin_pedido : ℕ → List Bool → List Bool
sin_pedido j [] = []
sin_pedido zero (p ∷ ps) = false ∷ ps
sin_pedido (suc j) (p ∷ ps) = p ∷ sin_pedido j ps

-- `pokemonsDisponibles[j] += matrizUtilizados[i][j]` for each `j`.
unfoldable pub devolver : List ℕ → List ℕ → List ℕ
devolver [] us = []
devolver (d ∷ ds) [] = d ∷ ds
devolver (d ∷ ds) (u ∷ us) = (d + u) % 2 ^ 32 ∷ devolver ds us

-- What the loop over the trainers carries: `pokemonsDisponibles`, `hayDeadlock`,
-- `tieneUnPedido`.
pub record Vuelta : Type 0 where
  pub disponibles : List ℕ
  pub hay_deadlock : Bool
  pub tiene_un_pedido : Bool

-- The request of a trainer is served.
abbrev pub servir : ℕ → Fila → Vuelta → Fila × Vuelta
servir j f v = (
  record {
    utilizados = en_celda (λ u. (u + 1) % 2 ^ 32) j f.utilizados;
    pedidos = sin_pedido j f.pedidos;
    atendido = true;
  },
  record {
    disponibles = en_celda (λ d. d - 1) j v.disponibles;
    hay_deadlock = false;
    tiene_un_pedido = true;
  },
)

-- A trainer without a request gives back what it holds. The loop that sets `atendido` goes over
-- the PokeNests.
abbrev pub soltar : Fila → Vuelta → Fila × Vuelta
soltar f v = (
  record {
    utilizados = map (λ u. 0) f.utilizados;
    pedidos = f.pedidos;
    atendido = f.atendido || ltb 0 (length f.utilizados);
  },
  record v { disponibles = devolver v.disponibles f.utilizados },
)

-- The body of the loop, by what the loop over the row has found. Without a request in the row
-- `i_pokenest` is behind the arrays; `none`: it is read there.
abbrev pub paso_con : Fila → Vuelta → Option ℕ → Bool → Option (Fila × Vuelta)
paso_con f v (some j) t =
    if above_zero (celda j v.disponibles)
    then some (servir j f v)
    else some (f, record v { tiene_un_pedido = true })
paso_con f v none true = none
paso_con f v none false = some (soltar f v)

unfoldable pub paso : Fila → Vuelta → Option (Fila × Vuelta)
paso f v = paso_con f v (primer_pedido f.pedidos) v.tiene_un_pedido

-- The loop over the trainers.
abbrev pub con_resto : Fila → Option (List Fila × Vuelta) → Option (List Fila × Vuelta)
con_resto f none = none
con_resto f (some (fs, v)) = some (f ∷ fs, v)

abbrev pub con_fila :
    Option (Fila × Vuelta) → (Vuelta → Option (List Fila × Vuelta)) → Option (List Fila × Vuelta)
con_fila none go = none
con_fila (some (f, v)) go = con_resto f (go v)

unfoldable pub pasada : List Fila → Vuelta → Option (List Fila × Vuelta)
pasada [] v = some ([], v)
pasada (f ∷ fs) v = con_fila (paso f v) (λ v'. pasada fs v')

-- How the `while` ends: by its condition, or with a read behind an array; or the fuel is used up.
pub data Fin : Type 0 where
  termina : List Fila → Vuelta → Fin
  fuera_de_rango sin_fuel : Fin

-- `hayDeadlock = 1` for two trainers or more.
abbrev pub sospechar : ℕ → Vuelta → Vuelta
sospechar n v = if leb 2 n then record v { hay_deadlock = true } else v

abbrev pub seguir : Option (List Fila × Vuelta) → (List Fila → Vuelta → Fin) → Fin
seguir none go = fuera_de_rango
seguir (some (fs, v)) go = go fs v

unfoldable pub atender_pedidos : ℕ → List Fila → Vuelta → Fin
atender_pedidos zero fs v = sin_fuel
atender_pedidos (suc k) fs v =
    if not v.hay_deadlock && hay_alguien_para_atender fs
    then seguir (pasada fs (sospechar (length fs) v)) (λ fs' v'. atender_pedidos k fs' v')
    else termina fs v

-- The matrices of a round and its `while`.
unfoldable pub inicio : List PokeNest → Vuelta
inicio nests = record {
  disponibles = map (λ n. of_char n.cantidad) nests;
  hay_deadlock = false;
  tiene_un_pedido = false;
}

unfoldable pub repartir : ℕ → List PokeNest → List Entrenador → Fin
repartir k nests es = atender_pedidos k (map (λ e. fila_de nests e) es) (inicio nests)

-- The trainers that are not served.
unfoldable pub no_atendidos : List Fila → List Entrenador → List Entrenador
no_atendidos [] es = []
no_atendidos (f ∷ fs) [] = []
no_atendidos (f ∷ fs) (e ∷ es) =
    let rest = no_atendidos fs es in if f.atendido then rest else e ∷ rest

unfoldable pub es_buscado : List Entrenador → ℕ → Bool
es_buscado [] n = false
es_buscado (e ∷ es) n = (e.pokenest_buscada == n) || es_buscado es n

-- `retieneAlgunObjetivo`.
unfoldable pub retiene_alguno : List Entrenador → List InfoPokemon → Bool
retiene_alguno es [] = false
retiene_alguno es (p ∷ ps) = es_buscado es p.id_pokenest || retiene_alguno es ps

unfoldable pub filtrar : List Entrenador → List Entrenador → List Entrenador
filtrar objetivos [] = []
filtrar objetivos (e ∷ es) =
    let rest = filtrar objetivos es in
    if retiene_alguno objetivos e.pokemons then e ∷ rest else rest

-- The trainers in deadlock, before they are counted.
unfoldable pub deadlockeados : List Fila → List Entrenador → List Entrenador
deadlockeados fs es = filtrar (no_atendidos fs es) (no_atendidos fs es)
