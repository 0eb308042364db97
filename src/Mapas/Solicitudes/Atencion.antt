-- ===== src/Mapas/Solicitudes/Atencion.antt =====
-- solicitudes.c: connection_recv, handshake and atenderSolicitud on the state of the map.
use sisoputnfrba_tp_2016_2c.Base.{
  ℕ, ◌+◌, ◌%◌, Bool, true, List, [], ◌∷◌, ◌++◌, Option, none, some, ltb, ◌==◌, if◌then◌else◌,
  length, ◌>>=◌,
}
use sisoputnfrba_tp_2016_2c.Mapas.State.{
  InfoPokemon, Entrenador, PokeNest, envia, mueve_personaje, resta_recurso, Mapa, Ambiente,
  con_salida, con_entrenador,
}
use sisoputnfrba_tp_2016_2c.Mapas.Solicitudes.{
  Recibido, primero, desconectado, si_llegan, es_coordenada, es_mensaje, buscar_pokenest,
  cambiar_pokenest, comparar_strings, ruta_pokenests, ruta_pokemon, paquete, Respuesta,
  turno_normal, desconexion, capturo_pokemon, no_encontro_pokemon, mover,
}

module _ {S : Type 0} (e : Ambiente S) where
  -- The message behind its code and its length. `r` bytes have been received, the last `k` of them
  -- by the last `recv`, whose value `status` keeps where there is no message.
  unfoldable pub recibir_mensaje : ℕ → ℕ → ℕ → ℕ → ℕ → S → Recibido × S
  recibir_mensaje socket op size r k s =
      let vacio : Recibido = record { ret = r + k; operation_code = some op; message = some [] } in
      let nada : Recibido = record { ret = r + k; operation_code = some op; message = none } in
      let leer =
        si_llegan (e.recv socket size s) (λ s'. (desconectado (some op), s'))
          λ bs s'.
            (record { ret = r + length bs; operation_code = some op; message = some bs }, s') in
      if es_coordenada op
      then leer
      else if es_mensaje op
      then if ltb 0 size then leer else (vacio, s)
      else (nada, s)

  unfoldable pub connection_recv : ℕ → S → Recibido × S
  connection_recv socket s =
      si_llegan (e.recv socket 1 s) (λ s'. (desconectado none, s'))
        λ ops s1.
          si_llegan (e.recv socket 1 s1) (λ s'. (desconectado (some (primero ops)), s'))
            λ sizes s2.
              recibir_mensaje socket (primero ops) (primero sizes) (length ops + length sizes)
                (length sizes) s2

  -- The orders on two pokemons that `list_sort` is given.
  abbrev pub pokemon_de_menor_nombre : InfoPokemon → InfoPokemon → Option Bool
  pokemon_de_menor_nombre p q = comparar_strings p.nombre q.nombre

  abbrev pub ordenar : List InfoPokemon → List InfoPokemon
  ordenar ps = e.sort_pokemons pokemon_de_menor_nombre ps

  -- notificar_captura_pokemon: the path of the pokemon is sent, and nothing is asked for any more.
  unfoldable pub notificar_captura_pokemon : InfoPokemon → Entrenador → Mapa S → Mapa S
  notificar_captura_pokemon p t m =
      let ruta = ruta_pokemon (ruta_pokenests e.nombre_mapa) p.pokemon.species ++ (47 ∷ p.nombre) in
      con_entrenador t.id (record t { pokenest_buscada = 0 })
        (con_salida (envia t.id (paquete 14 ruta)) m)

  abbrev pub Atendida : Type 0
  Atendida = Option (Respuesta × Mapa S)

  -- OC_UBICAR_POKENEST.
  unfoldable pub ubicar_pokenest : Entrenador → ℕ → Mapa S → Atendida
  ubicar_pokenest t pokenest_id m = do
    n ← buscar_pokenest m.lista_pokenests pokenest_id
    some (
      turno_normal,
      con_entrenador t.id (record t { pokenest_buscada = pokenest_id })
          (con_salida (envia t.id (5 ∷ 2 ∷ n.posx % 256 ∷ n.posy % 256 ∷ [])) m),
    )

  unfoldable pub avanzar_posicion : Entrenador → ℕ → Mapa S → Atendida
  avanzar_posicion t d m =
      let t' = mover d t in
      some (
        turno_normal,
        con_salida (mueve_personaje t.simbolo t'.posx t'.posy) (
            con_salida (envia t.id (3 ∷ 2 ∷ t'.posx % 256 ∷ t'.posy % 256 ∷ []))
              (con_entrenador t.id t' m)),
      )

  -- A PokeNest gives its first pokemon.
  abbrev pub entregar : List InfoPokemon → PokeNest → PokeNest
  entregar ps n = record n { lista_pokemons = ps; cantidad = (n.cantidad + 255) % 256 }

  unfoldable pub capturar : Entrenador → ℕ → InfoPokemon → List InfoPokemon → Mapa S → Mapa S
  capturar t pokenest_id p ps m = con_salida (resta_recurso p.id_pokenest) (
      notificar_captura_pokemon p (record t { pokemons = t.pokemons ++ (p ∷ []) })
        (record m {
          lista_pokenests = cambiar_pokenest (λ n. entregar ps n) pokenest_id m.lista_pokenests;
        }))

  abbrev pub al_atrapar :
      List InfoPokemon → Atendida → (InfoPokemon → List InfoPokemon → Atendida) → Atendida
  al_atrapar [] sin con = sin
  al_atrapar (p ∷ ps) sin con = con p ps

  -- OC_ATRAPAR_POKEMON.
  unfoldable pub atrapar_pokemon : Entrenador → ℕ → Mapa S → Atendida
  atrapar_pokemon t pokenest_id m = do
    n ← buscar_pokenest m.lista_pokenests pokenest_id
    al_atrapar (ordenar n.lista_pokemons) (some (no_encontro_pokemon, m))
        λ p ps. some (capturo_pokemon, capturar t pokenest_id p ps m)

  -- The request for the number of deadlocks that has to follow; another code ends the process.
  abbrev pub si_pide_deadlocks : Recibido × S → (S → Atendida) → Atendida
  si_pide_deadlocks (r, s) go = do op ← r.operation_code; if op == 12 then go s else none

  -- OC_ATRAPAR_ULTIMO_POKEMON.
  unfoldable pub atrapar_ultimo_pokemon : Entrenador → ℕ → Mapa S → Atendida
  atrapar_ultimo_pokemon t pokenest_id m = do
    n ← buscar_pokenest m.lista_pokenests pokenest_id
    al_atrapar (ordenar n.lista_pokemons)
        (some (no_encontro_pokemon, con_entrenador t.id (record t { ultimo_pokemon = true }) m))
        λ p ps.
          let m' = capturar t pokenest_id p ps m in
          si_pide_deadlocks (connection_recv t.id m'.red)
            λ s. some (desconexion, record m' { red = s })

  -- The `switch` over the operation code.
  unfoldable pub atender_codigo : Entrenador → ℕ → List ℕ → Mapa S → Atendida
  atender_codigo t op bs m =
      if op == 1
      then ubicar_pokenest t (primero bs) m
      else if op == 3
      then avanzar_posicion t (primero bs) m
      else if op == 4
      then atrapar_pokemon t (primero bs) m
      else if op == 11
      then atrapar_ultimo_pokemon t (primero bs) m
      else some (turno_normal, m)

  -- `buffer` is read or freed on every branch.
  abbrev pub con_recibido : Entrenador → Recibido → Mapa S → Atendida
  con_recibido t r m =
      if r.ret == 0
      then some (desconexion, m)
      else do op ← r.operation_code; bs ← r.message; atender_codigo t op bs m

  unfoldable pub atender_solicitud : ℕ → Mapa S → Atendida
  atender_solicitud id m = do
    t ← m.heap id
    let (r, s) = connection_recv t.id m.red in con_recibido t r (record m { red = s })
