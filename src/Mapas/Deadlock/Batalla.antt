-- ===== src/Mapas/Deadlock/Batalla.antt =====
-- deteccionDeadlock.c: what detectarDeadlock does with the trainers in deadlock.
use sisoputnfrba_tp_2016_2c.Base.{
  ℕ, Bool, true, false, ◌&&◌, List, [], ◌∷◌, Option, none, some, leb, ◌==◌, ◌>>=◌, if◌then◌else◌,
  length, update,
}
use sisoputnfrba_tp_2016_2c.Mapas.State.{
  Pokemon, InfoPokemon, Entrenador, Mapa, Ambiente, con_salida, envia,
}
use sisoputnfrba_tp_2016_2c.Mapas.Solicitudes.{Recibido}
use sisoputnfrba_tp_2016_2c.Mapas.Solicitudes.Atencion.{connection_recv}
use sisoputnfrba_tp_2016_2c.Mapas.Planificacion.{quitar, liberar_recursos}
use sisoputnfrba_tp_2016_2c.Mapas.Deadlock.{
  Fin, termina, fuera_de_rango, sin_fuel, deadlockeados, repartir,
}

-- estaBloqueado: a trainer in the queue with the symbol.
unfoldable pub esta_bloqueado : (ℕ → Option Entrenador) → List ℕ → ℕ → Option Bool
esta_bloqueado heap [] s = some false
esta_bloqueado heap (x ∷ xs) s = do
  t ← heap x
  (if t.simbolo == s then some true else esta_bloqueado heap xs s)

-- `list_all_satisfy` with estaBloqueado.
unfoldable pub todos_bloqueados : (ℕ → Option Entrenador) → List ℕ → List Entrenador → Option Bool
todos_bloqueados heap xs [] = some true
todos_bloqueados heap xs (t ∷ ts) = do
  b ← esta_bloqueado heap xs t.simbolo
  (if b then todos_bloqueados heap xs ts else some false)

-- duplicar_lista.
unfoldable pub duplicar_lista : (ℕ → Option Entrenador) → List ℕ → Option (List Entrenador)
duplicar_lista heap [] = some []
duplicar_lista heap (x ∷ xs) = do t ← heap x; ts ← duplicar_lista heap xs; some (t ∷ ts)

module _ {S : Type 0} (e : Ambiente S) where
  abbrev pub enviar_oc : ℕ → ℕ → Mapa S → Mapa S
  enviar_oc socket oc m = con_salida (envia socket (oc ∷ 0 ∷ [])) m

  unfoldable pub buscar_pokemon : List InfoPokemon → List ℕ → Option Pokemon
  buscar_pokemon [] nombre = none
  buscar_pokemon (p ∷ ps) nombre =
      if e.string_equals_ignore_case p.nombre nombre
      then some p.pokemon
      else buscar_pokemon ps nombre

  -- The pokemon that a trainer chooses for a battle.
  abbrev pub con_mensaje : {A : Type 0} → Recibido × S → (List ℕ → S → Option A) → Option A
  con_mensaje (r, s) go = do bs ← r.message; go bs s

  unfoldable pub elegir : Entrenador → Mapa S → Option (Pokemon × Mapa S)
  elegir t m =
      let m1 = enviar_oc t.id 17 m in
      con_mensaje (connection_recv e t.id m1.red)
        λ bs s. do p ← buscar_pokemon t.pokemons bs; some (p, record m1 { red = s })

  -- mandarAPelear: the loser, and what both are told.
  abbrev pub avisar : Bool → Entrenador → Entrenador → Mapa S → Entrenador × Mapa S
  avisar true t u m = (t, enviar_oc t.id 15 (enviar_oc u.id 16 m))
  avisar false t u m = (u, enviar_oc u.id 15 (enviar_oc t.id 16 m))

  unfoldable pub mandar_a_pelear : Entrenador → Entrenador → Mapa S → Option (Entrenador × Mapa S)
  mandar_a_pelear t u m = do
    a ← elegir t m
    b ← elegir u a.1
    some (avisar (e.pkmn_battle a.0 b.0) t u b.1)

  -- The `while` over the list: the loser goes on against the next one.
  unfoldable pub pelear_todos : Entrenador → List Entrenador → Mapa S → Option (Entrenador × Mapa S)
  pelear_todos t [] m = some (t, m)
  pelear_todos t (u ∷ us) m = do r ← mandar_a_pelear t u m; pelear_todos r.0 us r.1

  -- matarEntrenador. The copy that it is given shares its list of pokemons with the trainer, which
  -- cannot be used any more.
  unfoldable pub matar_entrenador : ℕ → ℕ → Mapa S → Option (Mapa S)
  matar_entrenador k id m =
      let m1 = con_salida (envia id (0 ∷ [])) (con_salida (envia id (10 ∷ [])) m) in
      liberar_recursos e k id (record m1 {
        master = update m.master id false;
        cola_bloqueados = quitar id m.cola_bloqueados;
      })

  -- A battle, where there are two trainers or more and all are blocked.
  abbrev pub matar_perdedor : ℕ → List Entrenador → Mapa S → Option (Mapa S)
  matar_perdedor k [] m = some m
  matar_perdedor k (t ∷ ts) m = do r ← pelear_todos t ts m; matar_entrenador k r.0.id r.1

  unfoldable pub resolver : ℕ → List Entrenador → Mapa S → Option (Mapa S)
  resolver k ds m =
      if leb 2 (length ds)
      then todos_bloqueados m.heap m.cola_bloqueados ds
        >>= (λ b. if e.batalla && b then matar_perdedor k ds m else some m)
      else some m

  -- A round of the detection: `n` passes for the `while` over the requests, and `k` as fuel of
  -- liberarRecursos2.
  abbrev pub tras_repartir : ℕ → List Entrenador → Fin → Mapa S → Option (Mapa S)
  tras_repartir k es (termina fs v) m = resolver k (deadlockeados fs es) m
  tras_repartir k es fuera_de_rango m = none
  tras_repartir k es sin_fuel m = none

  unfoldable pub detectar_deadlock : ℕ → ℕ → Mapa S → Option (Mapa S)
  detectar_deadlock k n m = do
    es ← duplicar_lista m.heap m.entrenadores
    tras_repartir k es (repartir n m.lista_pokenests es) m
