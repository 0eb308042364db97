-- ===== src/Mapas/Turnos.antt =====
-- planificacion.c: the turns of round robin and of the shortest distance.
pub mod Contadas
pub mod RoundRobin
pub mod Distancias
use sisoputnfrba_tp_2016_2c.Base.{
  ℕ, zero, suc, ◌+◌, ◌-◌, ◌%◌, ◌^◌, ◌<◌, ◌≡◌, Bool, true, false, not, ◌&&◌, ◌||◌, List, [], ◌∷◌,
  ◌++◌, Option, none, some, arith, ltb, ◌==◌, if◌then◌else◌, length, drop, strcmp, ◌>>=◌, update,
}
use sisoputnfrba_tp_2016_2c.Mapas.State.{
  InfoPokemon, Entrenador, PokeNest, Salida, suma_recurso, borra_item, Mapa, Ambiente, con_salida,
  con_entrenador, of_char,
}
use sisoputnfrba_tp_2016_2c.Mapas.Solicitudes.{
  Recibido, buscar_pokenest, cambiar_pokenest, Respuesta, turno_normal, desconexion,
  capturo_pokemon, no_encontro_pokemon,
}
use sisoputnfrba_tp_2016_2c.Mapas.Solicitudes.Atencion.{
  connection_recv, notificar_captura_pokemon, atender_solicitud,
}
use sisoputnfrba_tp_2016_2c.Mapas.Planificacion.{
  quitar, en_posicion, bloquear_entrenador, liberar_recursos,
}

-- `abs` of a difference of two `int`, their sum, and `<` on `int`.
abbrev pub distancia : ℕ → ℕ → ℕ
distancia a b = let d = (a + (2 ^ 32 - b)) % 2 ^ 32 in if ltb d (2 ^ 31) then d else 2 ^ 32 - d

abbrev pub menor : ℕ → ℕ → Bool
menor a b = ltb ((a + 2 ^ 31) % 2 ^ 32) ((b + 2 ^ 31) % 2 ^ 32)

unfoldable pub distancia_a_pokenest : List PokeNest → Entrenador → Option ℕ
distancia_a_pokenest ns t = do
  n ← buscar_pokenest ns t.pokenest_buscada
  some ((distancia (of_char n.posx) t.posx + distancia (of_char n.posy) t.posy) % 2 ^ 32)

-- `_no_tiene_objetivo_asignado` down a queue: the first such trainer.
unfoldable pub sin_objetivo : (ℕ → Option Entrenador) → List ℕ → Option (Option ℕ)
sin_objetivo heap [] = some none
sin_objetivo heap (x ∷ xs) = do
  t ← heap x
  (if t.pokenest_buscada == 0 then some (some x) else sin_objetivo heap xs)

-- `_menor_distancia_a_pokenest`.
unfoldable pub menor_distancia : (ℕ → Option Entrenador) → List PokeNest → ℕ → ℕ → Option Bool
menor_distancia heap ns a b = do
  t ← heap a
  u ← heap b
  d ← distancia_a_pokenest ns t
  d' ← distancia_a_pokenest ns u
  some (menor d d')

module _ {S : Type 0} (e : Ambiente S) where
  -- What a turn does with the answer, as ejecutarRafagaRR does. liberarRecursos2 has `k` as fuel.
  unfoldable pub tras_rafaga : ℕ → ℕ → Respuesta → Mapa S → Option (Mapa S)
  tras_rafaga k id desconexion m = liberar_recursos e k id m
  tras_rafaga k id no_encontro_pokemon m = some (bloquear_entrenador id m)
  tras_rafaga k id turno_normal m = some (record m { cola_listos = m.cola_listos ++ (id ∷ []) })
  tras_rafaga k id capturo_pokemon m = some (record m { cola_listos = m.cola_listos ++ (id ∷ []) })

  abbrev pub es_turno_normal : Respuesta → Bool
  es_turno_normal turno_normal = true
  es_turno_normal desconexion = false
  es_turno_normal capturo_pokemon = false
  es_turno_normal no_encontro_pokemon = false

  -- The `for` over the quantum: `respuesta` is set when it ends, unless the quantum is 0.
  abbrev pub si_sigue :
      Respuesta × Mapa S → (Mapa S → Option (Respuesta × Mapa S)) → Option (Respuesta × Mapa S)
  si_sigue (r, m) go = if es_turno_normal r then go m else some (r, m)

  unfoldable pub rafaga : ℕ → ℕ → Mapa S → Option (Respuesta × Mapa S)
  rafaga zero id m = none
  rafaga (suc zero) id m = atender_solicitud e id m
  rafaga (suc (suc q)) id m = do r ← atender_solicitud e id m; si_sigue r λ m'. rafaga (suc q) id m'

  abbrev pub al_sacar : List ℕ → Mapa S → (ℕ → Mapa S → Option (Mapa S)) → Option (Mapa S)
  al_sacar [] m con = some m
  al_sacar (x ∷ xs) m con = con x (record m { cola_listos = xs })

  unfoldable pub ejecutar_rafaga_rr : ℕ → Mapa S → Option (Mapa S)
  ejecutar_rafaga_rr k m =
      al_sacar m.cola_listos m λ id m1. do r ← rafaga e.quantum id m1; tras_rafaga k id r.0 r.1

  -- The `do` of ejecutarRafagaSRDF, in at most `n` rounds.
  unfoldable pub hasta_respuesta : ℕ → ℕ → Mapa S → Option (Respuesta × Mapa S)
  hasta_respuesta zero id m = none
  hasta_respuesta (suc n) id m = do
    r ← atender_solicitud e id m
    si_sigue r λ m'. hasta_respuesta n id m'

  unfoldable pub tras_srdf : ℕ → ℕ → Respuesta → Mapa S → Option (Mapa S)
  tras_srdf k id no_encontro_pokemon m = some (bloquear_entrenador id m)
  tras_srdf k id desconexion m = liberar_recursos e k id m
  tras_srdf k id capturo_pokemon m = some (record m { cola_listos = m.cola_listos ++ (id ∷ []) })
  tras_srdf k id turno_normal m = some m

  abbrev pub sacar : ℕ → Mapa S → Mapa S
  sacar id m = record m { cola_listos = quitar id m.cola_listos }

  -- buscarEntrenadorConMenorDistancia: the first of the sorted queue.
  unfoldable pub con_menor_distancia : Mapa S → Option ℕ
  con_menor_distancia m = do
    xs ← e.sort_entrenadores (menor_distancia m.heap m.lista_pokenests) m.cola_listos
    en_posicion xs

  unfoldable pub turno_mas_cercano : ℕ → ℕ → Mapa S → Option (Mapa S)
  turno_mas_cercano k n m = do
    id ← con_menor_distancia m
    r ← hasta_respuesta n id (sacar id m)
    tras_srdf k id r.0 r.1

  abbrev pub al_elegir : Option ℕ → (ℕ → Option (Mapa S)) → Option (Mapa S) → Option (Mapa S)
  al_elegir none con sin = sin
  al_elegir (some id) con sin = con id

  abbrev pub si_hay_listos : List ℕ → Mapa S → Option (Mapa S) → Option (Mapa S)
  si_hay_listos [] m con = some m
  si_hay_listos (x ∷ xs) m con = con

  unfoldable pub ejecutar_rafaga_srdf : ℕ → ℕ → Mapa S → Option (Mapa S)
  ejecutar_rafaga_srdf k n m = do
    o ← sin_objetivo m.heap m.cola_listos
    al_elegir o (λ id. do r ← atender_solicitud e id (sacar id m); tras_rafaga k id r.0 r.1)
        (si_hay_listos m.cola_listos m (turno_mas_cercano k n m))

  -- One round of planificar: "RR" selects round robin.
  unfoldable pub planificar : ℕ → ℕ → Mapa S → Option (Mapa S)
  planificar k n m =
      if strcmp e.algoritmo (82 ∷ 82 ∷ [])
      then ejecutar_rafaga_rr k m
      else ejecutar_rafaga_srdf k n m
