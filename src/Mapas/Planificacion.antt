-- ===== src/Mapas/Planificacion.antt =====
-- planificacion.c, and liberarEntrenador of nivel-test.c: the queues of trainers, and what happens to
-- the pokemons of a trainer that leaves.
pub mod Colas
pub mod Recursos
pub mod Contadas
pub mod Liberar
use sisoputnfrba_tp_2016_2c.Base.{
  ℕ, zero, suc, ◌+◌, ◌-◌, ◌%◌, ◌^◌, ◌<◌, ◌≡◌, Bool, true, false, not, ◌&&◌, ◌||◌, List, [], ◌∷◌,
  ◌++◌, Option, none, some, arith, ltb, ◌==◌, if◌then◌else◌, length, drop, strcmp, ◌>>=◌, update,
}
use sisoputnfrba_tp_2016_2c.Mapas.State.{
  InfoPokemon, Entrenador, PokeNest, Salida, suma_recurso, borra_item, Mapa, Ambiente, con_salida,
  con_entrenador, of_char,
}
use sisoputnfrba_tp_2016_2c.Mapas.Solicitudes.{
  Recibido, buscar_pokenest, cambiar_pokenest, Respuesta, turno_normal, desconexion,
  capturo_pokemon, no_encontro_pokemon,
}
use sisoputnfrba_tp_2016_2c.Mapas.Solicitudes.Atencion.{
  connection_recv, notificar_captura_pokemon, atender_solicitud,
}

-- `list_remove_by_condition` for a socket, and whether the socket is there.
unfoldable pub quitar : ℕ → List ℕ → List ℕ
quitar id [] = []
quitar id (x ∷ xs) = if x == id then xs else x ∷ quitar id xs

unfoldable pub esta : ℕ → List ℕ → Bool
esta id [] = false
esta id (x ∷ xs) = (x == id) || esta id xs

-- The loop of liberarEntrenador over `entrenadores`: behind one that it removes it passes over the
-- next one (`saltar`).
unfoldable pub quitar_simbolo : (ℕ → Option Entrenador) → ℕ → Bool → List ℕ → Option (List ℕ)
quitar_simbolo heap s saltar [] = some []
quitar_simbolo heap s true (x ∷ xs) = do rest ← quitar_simbolo heap s false xs; some (x ∷ rest)
quitar_simbolo heap s false (x ∷ xs) = do
  t ← heap x
  rest ← quitar_simbolo heap s (t.simbolo == s) xs
  some (if t.simbolo == s then rest else x ∷ rest)

-- A pokemon that nobody waits for goes back to its PokeNest.
abbrev pub recibir_pokemon : InfoPokemon → PokeNest → PokeNest
recibir_pokemon p n = record n {
  lista_pokemons = n.lista_pokemons ++ (p ∷ []);
  cantidad = (n.cantidad + 1) % 256;
}

abbrev pub con_pokemon : InfoPokemon → Entrenador → Entrenador
con_pokemon p t = record t { pokemons = t.pokemons ++ (p ∷ []) }

abbrev pub en_posicion : List ℕ → Option ℕ
en_posicion [] = none
en_posicion (x ∷ xs) = some x

module _ {S : Type 0} where
  unfoldable pub liberar_entrenador : ℕ → Mapa S → Option (Mapa S)
  liberar_entrenador id m = do
    t ← m.heap id
    es ← quitar_simbolo m.heap t.simbolo false m.entrenadores
    some (
        con_salida (borra_item t.simbolo)
          (record m { entrenadores = es; heap = update m.heap id none }))

  unfoldable pub bloquear_entrenador : ℕ → Mapa S → Mapa S
  bloquear_entrenador id m = record m {
    cola_bloqueados = m.cola_bloqueados ++ (id ∷ []);
    master = update m.master id true;
    set_fd_max = if ltb m.set_fd_max id then id else m.set_fd_max;
  }

  unfoldable pub desbloquear_entrenador : ℕ → Mapa S → Mapa S
  desbloquear_entrenador id m = record m {
    cola_bloqueados = quitar id m.cola_bloqueados;
    cola_listos = m.cola_listos ++ (id ∷ []);
    master = update m.master id false;
  }

  abbrev pub devuelto : InfoPokemon → Mapa S → Mapa S
  devuelto p m = con_salida (suma_recurso p.id_pokenest) (record m {
    lista_pokenests = cambiar_pokenest (λ x. recibir_pokemon p x) p.id_pokenest m.lista_pokenests;
  })

  unfoldable pub devolver_pokemon : InfoPokemon → Mapa S → Option (Mapa S)
  devolver_pokemon p m = do n ← buscar_pokenest m.lista_pokenests p.id_pokenest; some (devuelto p m)

module _ {S : Type 0} (e : Ambiente S) where
  -- A blocked trainer that asked for its last pokemon leaves when it gets it.
  abbrev pub al_pedir_deadlocks : Recibido × S → (S → Option (Mapa S)) → Option (Mapa S)
  al_pedir_deadlocks (r, s) go = do op ← r.operation_code; if op == 12 then go s else none

  -- The `for` over the queue of blocked trainers from position `i` on, for the pokemon `p`:
  -- `true` is `pokemon_asignado`. `liberar` is liberarRecursos2.
  abbrev pub al_capturar :
      (ℕ → Mapa S → Option (Mapa S))
      → ℕ
      → Bool
      → Mapa S
      → (Mapa S → Option (Bool × Mapa S))
      → Option (Bool × Mapa S)
  al_capturar liberar b true m sigue = do
    m' ← al_pedir_deadlocks (connection_recv e b m.red) λ s. liberar b (record m { red = s })
    sigue m'
  al_capturar liberar b false m sigue = some (true, desbloquear_entrenador b m)

  abbrev pub con_bloqueado :
      (ℕ → Mapa S → Option (Mapa S))
      → InfoPokemon
      → ℕ
      → Mapa S
      → (Mapa S → Option (Bool × Mapa S))
      → Option (Bool × Mapa S)
  con_bloqueado liberar p b m sigue = do
    t ← m.heap b
    (if t.pokenest_buscada == p.id_pokenest
        then al_capturar liberar b t.ultimo_pokemon
            (notificar_captura_pokemon e p (con_pokemon p t) m) sigue
        else sigue m)

  abbrev pub si_hay :
      Option ℕ → (ℕ → Option (Bool × Mapa S)) → Option (Bool × Mapa S) → Option (Bool × Mapa S)
  si_hay none con fin = fin
  si_hay (some b) con fin = con b

  unfoldable pub asignar :
      (ℕ → Mapa S → Option (Mapa S)) → InfoPokemon → ℕ → ℕ → Mapa S → Option (Bool × Mapa S)
  asignar liberar p zero i m = none
  asignar liberar p (suc k) i m =
      si_hay (en_posicion (drop i m.cola_bloqueados))
        (λ b. con_bloqueado liberar p b m λ m'. asignar liberar p k (suc i) m') (some (false, m))

  -- One pokemon of the trainer that leaves.
  abbrev pub si_asignado : InfoPokemon → Bool × Mapa S → Option (Mapa S)
  si_asignado p (true, m) = some m
  si_asignado p (false, m) = devolver_pokemon p m

  unfoldable pub soltar_pokemon :
      (ℕ → Mapa S → Option (Mapa S)) → ℕ → InfoPokemon → Mapa S → Option (Mapa S)
  soltar_pokemon liberar k p m = do r ← asignar liberar p k 0 m; si_asignado p r

  abbrev pub por_pokemon :
      List InfoPokemon
      → Option (Mapa S)
      → (InfoPokemon → List InfoPokemon → Option (Mapa S))
      → Option (Mapa S)
  por_pokemon [] fin con = fin
  por_pokemon (p ∷ ps) fin con = con p ps

  -- liberarRecursos2: `none` also where the fuel is used up.
  unfoldable pub liberar_recursos : ℕ → ℕ → Mapa S → Option (Mapa S)
  liberar_recursos zero id m = none
  liberar_recursos (suc k) id m = do
    t ← m.heap id
    por_pokemon t.pokemons (liberar_entrenador id m) λ p ps. do
      m' ←
          soltar_pokemon (λ b x. liberar_recursos k b x) k p
            (con_entrenador id (record t { pokemons = ps }) m)
      liberar_recursos k id m'
