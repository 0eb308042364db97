-- ===== src/Mapas/State.antt =====
-- nivel-test.h, and tad_items.h as far as its calls are recorded: what a map keeps.
use sisoputnfrba_tp_2016_2c.Base.{
  ℕ, ◌+◌, ◌-◌, ◌^◌, Bool, List, ◌∷◌, Option, some, ltb, ◌&&◌, if◌then◌else◌, update,
}

-- A `char` as the `int` it is converted to, and an `int` that is above 0. An `int` is kept as its
-- 32 bits, a `char` as its 8.
abbrev pub of_char : ℕ → ℕ
of_char c = if ltb c 128 then c else c + (2 ^ 32 - 256)

abbrev pub above_zero : ℕ → Bool
above_zero x = ltb 0 x && ltb x (2 ^ 31)

-- `t_pokemon`.
pub record Pokemon : Type 0 where
  pub species : List ℕ
  pub level : ℕ

-- `t_infoPokemon`.
pub record InfoPokemon : Type 0 where
  pub pokemon : Pokemon
  pub nombre : List ℕ
  pub id_pokenest : ℕ

-- `t_entrenador`; `id` is its socket. A `pokenest_buscada` of 0 is its `NULL`.
pub record Entrenador : Type 0 where
  pub nombre : List ℕ
  pub posx : ℕ
  pub posy : ℕ
  pub id : ℕ
  pub simbolo : ℕ
  pub pokenest_buscada : ℕ
  pub cant_deadlocks : ℕ
  pub ultimo_pokemon : Bool
  pub pokemons : List InfoPokemon

-- `PokeNest`; `cantidad` is a `char`.
pub record PokeNest : Type 0 where
  pub id : ℕ
  pub posx : ℕ
  pub posy : ℕ
  pub cantidad : ℕ
  pub lista_pokemons : List InfoPokemon

-- What `recv` gives: bytes, 0, or a negative number.
pub data Llegada : Type 0 where
  llegan : List ℕ → Llegada
  cerrado fallo : Llegada

-- What the process sends and what it draws.
pub data Salida : Type 0 where
  envia : ℕ → List ℕ → Salida
  crea_personaje mueve_personaje : ℕ → ℕ → ℕ → Salida
  resta_recurso suma_recurso borra_item : ℕ → Salida

-- The globals of the process. A trainer is named by its socket; `heap` has those that are
-- allocated. `red` is what the sockets still bring, `salidas` has the last first.
pub record Mapa (S : Type 0) : Type 0 where
  pub heap : ℕ → Option Entrenador
  pub cola_listos : List ℕ
  pub cola_bloqueados : List ℕ
  pub entrenadores : List ℕ
  pub lista_pokenests : List PokeNest
  pub master : ℕ → Bool
  pub set_fd_max : ℕ
  pub red : S
  pub salidas : List Salida

-- The code that is not of the process: `recv` on a socket, `list_sort` of the collections library
-- for its two uses, `pkmn_battle` (whether the first loses),
-- `string_equals_ignore_case`, and the size of a pointer; and what
-- the arguments and the metadata of the map say.
pub record Ambiente (S : Type 0) : Type 0 where
  pub recv : ℕ → ℕ → S → Llegada × S
  pub sort_pokemons :
      (InfoPokemon → InfoPokemon → Option Bool) → List InfoPokemon → List InfoPokemon
  pub sort_entrenadores : (ℕ → ℕ → Option Bool) → List ℕ → Option (List ℕ)
  pub pkmn_battle : Pokemon → Pokemon → Bool
  pub string_equals_ignore_case : List ℕ → List ℕ → Bool
  pub size_of_pointer : ℕ
  pub nombre_mapa : List ℕ
  pub batalla : Bool
  pub algoritmo : List ℕ
  pub quantum : ℕ

module _ {S : Type 0} where
  abbrev pub con_salida : Salida → Mapa S → Mapa S
  con_salida o m = record m { salidas = o ∷ m.salidas }

  abbrev pub con_entrenador : ℕ → Entrenador → Mapa S → Mapa S
  con_entrenador id t m = record m { heap = update m.heap id (some t) }
