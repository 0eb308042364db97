-- ===== src/Entrenador/Completar.antt =====
-- entrenador/src/Entrenador/entrenador.c and Mapa/mapa.c: how a trainer goes through the pokemons of
-- a map, with the packets that it sends and receives.
use sisoputnfrba_tp_2016_2c.Base.{
  ℕ, zero, suc, Bool, List, [], ◌∷◌, ◌++◌, Option, none, some, ◌==◌, ltb, ◌>>=◌, if◌then◌else◌,
  length, drop,
}
use sisoputnfrba_tp_2016_2c.Entrenador.{Coor, coor_equals, calcular_movimiento}
use sisoputnfrba_tp_2016_2c.Entrenador.Captura.{
  CoachPokemon, Coach, Mundo, Entorno, Juego, sigue, pendiente, tras, definido, ultima, o_game_over,
  coach_capture_pokemon,
}
use sisoputnfrba_tp_2016_2c.Entrenador.Saludo.{con_coor, preguntar, map_locate_pokemon}

-- `t_map`: its pokemons, the path of its medal, and `index_current_pokemon` plus one.
pub record TMap : Type 0 where
  pub pokemon_list : List CoachPokemon
  pub medal_path : List ℕ
  pub siguiente : ℕ

abbrev pub en_posicion : List CoachPokemon → Option CoachPokemon
en_posicion [] = none
en_posicion (x ∷ xs) = some x

-- map_next_pokemon: the pokemon, and the map with the index moved on.
unfoldable pub map_next_pokemon : TMap → Option (CoachPokemon × TMap)
map_next_pokemon m =
    if ltb m.siguiente (length m.pokemon_list)
    then (en_posicion (drop m.siguiente m.pokemon_list) >>= λ p.
        some (p, record m { siguiente = suc m.siguiente }))
    else none

abbrev pub map_is_last_pokemon : TMap → Bool
map_is_last_pokemon m = length m.pokemon_list == m.siguiente

-- The code of the request: OC_ATRAPAR_ULTIMO_POKEMON or OC_ATRAPAR_POKEMON.
abbrev pub codigo_de : TMap → ℕ
codigo_de m = if map_is_last_pokemon m then 11 else 4

-- `resto` is what stands in the memory behind the byte of a movement, up to a zero: the source takes
-- the byte for a string.
module _ {D S F : Type 0} (e : Entorno D S F) (resto : List ℕ) where
  -- Where the trainer is, and the trainer.
  abbrev pub Jugador : Type 0
  Jugador = Coor × (Coach D × Mundo S F)

  -- move_to, whose answer is the position of the trainer.
  unfoldable pub move_to_en_red : ℕ → Mundo S F → Juego (Coor × Mundo S F)
  move_to_en_red movement w =
      preguntar e 3 (movement ∷ resto) w λ q w1. con_coor q.message λ a. sigue (a, w1)

  -- The `while` of coach_move_to_pokemon in at most `k` rounds.
  unfoldable pub caminar : ℕ → ℕ → Coor → Coor → Mundo S F → Juego (Coor × Mundo S F)
  caminar zero last a b w = pendiente
  caminar (suc k) last a b w =
      let d = calcular_movimiento last a b in
      let go = tras (move_to_en_red d w) λ (a', w'). caminar k d a' b w' in
      if coor_equals a b then sigue (a, w) else go

  -- What completar_mapa does for one pokemon: it asks for the place of its PokeNest, walks there from
  -- where it is, and asks for the pokemon with the code `oc`. What is set in the pokemon is set again
  -- before it is read, so that the list of the map stays as it is.
  unfoldable pub atrapar : ℕ → CoachPokemon → ℕ → Jugador → Juego (ℕ × Jugador)
  atrapar k p oc (a, (c, w)) = tras (map_locate_pokemon e p w) λ (p', w1).
      tras (caminar k 77 a p'.coor w1)
        λ (a', w2). tras (coach_capture_pokemon e k oc p' c w2) λ (r, j). sigue (r, (a', j))

  unfoldable pub coach_medal_copy : TMap → Jugador → Juego Jugador
  coach_medal_copy m (a, (c, w)) = definido (ultima (e.string_split m.medal_path)) λ archivo.
      let destino =
        e.path_pokedex
        ++ ((69 ∷ 110 ∷ 116 ∷ 114 ∷ 101 ∷ 110 ∷ 97 ∷ 100 ∷ 111 ∷ 114 ∷ 101 ∷ 115 ∷ 47 ∷ [])
            ++ (c.name
                ++ ((47 ∷ 109 ∷ 101 ∷ 100 ∷ 97 ∷ 108 ∷ 108 ∷ 97 ∷ 115 ∷ 47 ∷ []) ++ archivo))) in
      o_game_over e (e.copy_file (e.path_pokedex ++ m.medal_path) destino w.sistema)
        λ f. sigue (a, (c, record w { sistema = f }))

  -- The `while` of completar_mapa in at most `n` rounds, with `oc` where it has been set, and `k`
  -- rounds for each of the loops in it.
  abbrev pub con_siguiente :
      Option (CoachPokemon × TMap)
      → Juego (Option ℕ × (TMap × Jugador))
      → (CoachPokemon → TMap → Juego (Option ℕ × (TMap × Jugador)))
      → Juego (Option ℕ × (TMap × Jugador))
  con_siguiente none fin go = fin
  con_siguiente (some (p, m)) fin go = go p m

  unfoldable pub completar_mapa :
      ℕ → ℕ → Option ℕ → TMap → Jugador → Juego (Option ℕ × (TMap × Jugador))
  completar_mapa k zero oc m j = pendiente
  completar_mapa k (suc n) oc m j =
      con_siguiente (map_next_pokemon m) (tras (coach_medal_copy m j) λ j'. sigue (oc, (m, j')))
        λ p m'. tras (atrapar k p (codigo_de m') j) λ (r, j').
          let rest = completar_mapa k n (some r) m' j' in
          if r == 10 then sigue (some r, (m', j')) else rest
