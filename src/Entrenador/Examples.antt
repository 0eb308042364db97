-- ===== src/Entrenador/Examples.antt =====
-- Walks, captures and handshakes on concrete maps.
use sisoputnfrba_tp_2016_2c.Base.{
  ap, length, take, drop, ◌++◌, take-append, drop-append, ℕ, suc, ◌≡◌, true, false, List, [], ◌∷◌,
  none, some, refl, arith,
}
use sisoputnfrba_tp_2016_2c.Mapas.State.{
  Entrenador, Ambiente, Llegada, llegan, cerrado, PokeNest, Mapa,
}
use sisoputnfrba_tp_2016_2c.Mapas.Solicitudes.{buscar_pokenest}
use sisoputnfrba_tp_2016_2c.Mapas.Solicitudes.Atencion.{connection_recv}
use sisoputnfrba_tp_2016_2c.Entrenador.Paquetes.{Entera, Entregado, connection_recv-connection_send}
use sisoputnfrba_tp_2016_2c.Entrenador.Captura.{
  CoachPokemon, Coach, Mundo, Entorno, sigue, game_over, coach_recv, coach_capture_pokemon,
}
use sisoputnfrba_tp_2016_2c.Entrenador.Saludo.{
  Ubicada, map_locate_pokemon-ubicar_pokenest, coach_capture_pokemon-game_over,
}
use sisoputnfrba_tp_2016_2c.Entrenador.Presentado.{Presentado, handshake-handshake_coach}
use sisoputnfrba_tp_2016_2c.Entrenador.Avisos.{Completa}
use sisoputnfrba_tp_2016_2c.Entrenador.Capturado.{Capturado, coach_capture_pokemon-Capturado}
use sisoputnfrba_tp_2016_2c.Entrenador.{connection_send, Coor, coach_move_to_pokemon}
use sisoputnfrba_tp_2016_2c.Entrenador.Recorrido.{
  responde_mapa, Llegado, coach_move_to_pokemon-Llegado,
}
use sisoputnfrba_tp_2016_2c.Entrenador.Completar.{TMap, Jugador, completar_mapa}
use sisoputnfrba_tp_2016_2c.Entrenador.Viaje.{en_orden, completar_mapa-en_orden}

abbrev caminante : Entrenador
caminante = record {
  nombre = 97 ∷ [];
  posx = 9;
  posy = 1;
  id = 3;
  simbolo = 65;
  pokenest_buscada = 80;
  cant_deadlocks = 0;
  ultimo_pokemon = false;
  pokemons = [];
}

abbrev desde : Coor
desde = record { x = 9; y = 1 }

abbrev hasta : Coor
hasta = record { x = 4; y = 6 }

coach_move_to_pokemon-Llegado_example :
    Llegado hasta (coach_move_to_pokemon responde_mapa 11 desde hasta caminante)
    × (coach_move_to_pokemon responde_mapa 10 desde hasta caminante ≡ none)
coach_move_to_pokemon-Llegado_example =
    coach_move_to_pokemon-Llegado desde hasta caminante (refl, refl, omega arith, omega arith)
      (omega arith) (omega arith)

-- The name "ab", and a stream that gives what is asked for.
abbrev ambiente : Ambiente (List ℕ)
ambiente = record {
  recv = λ socket n s. (llegan (take n s), drop n s);
  sort_pokemons = λ f ps. ps;
  sort_entrenadores = λ f xs. some xs;
  pkmn_battle = λ p q. true;
  string_equals_ignore_case = λ xs ys. true;
  size_of_pointer = 4;
  nombre_mapa = 80 ∷ [];
  batalla = true;
  algoritmo = 82 ∷ 82 ∷ [];
  quantum = 1;
}

entera : Entera ambiente
entera socket n bs rest l e =
    rw (← e) (ap (λ (x : List ℕ × List ℕ). (llegan x.0, x.1)) (pares bs rest))
  where
    pares :
        (bs rest : List ℕ)
        → ◌≡◌ {A = List ℕ × List ℕ}
            (take (length bs) (bs ++ rest), drop (length bs) (bs ++ rest))
            (bs, rest)
    pares bs rest = rw (take-append bs rest) (rw (drop-append bs rest) refl)

connection_recv-connection_send_example :
    (p : List ℕ) × (connection_send 0 (97 ∷ 98 ∷ []) ≡ some p)
    × Entregado 0 (97 ∷ 98 ∷ []) (7 ∷ []) (connection_recv ambiente 3 (p ++ (7 ∷ [])))
connection_recv-connection_send_example =
    connection_recv-connection_send ambiente 3 0 (97 ∷ 98 ∷ []) (7 ∷ []) entera refl (omega arith)

-- A trainer with a pokemon, that fights two battles, wins one, and gets the pokemon "b".
abbrev entorno : Entorno ℕ (List ℕ) ℕ
entorno = record {
  recv = λ n s. (llegan (take n s), drop n s);
  time = λ f. (f, suc f);
  difftime = λ a b. a;
  sumar = λ a b. a;
  list_sort = λ f ps. ps;
  string_split = λ bs. bs ∷ [];
  copy_file = λ o d f. some f;
  nivel = λ d f. 7;
  path_pokedex = 47 ∷ [];
}

abbrev un_pokemon : CoachPokemon
un_pokemon = record { name = 97 ∷ []; simbol = 80 ∷ []; level = 3; coor = desde }

abbrev coach : Coach ℕ
coach = record { name = 65 ∷ []; pokemons = un_pokemon ∷ []; pokenest_time = 0; count_deadlock = 2 }

abbrev mundo : Mundo (List ℕ) ℕ
mundo = record {
  red = 17 ∷ 0 ∷ 16 ∷ 0 ∷ 17 ∷ 0 ∷ 15 ∷ 0 ∷ 14 ∷ 1 ∷ 98 ∷ [];
  enviado = [];
  sistema = 5;
}

completa : Completa entorno.recv
completa n bs rest l e = entera 3 n bs rest l e

coach_capture_pokemon-Capturado_example :
    Capturado entorno 14 un_pokemon
      (98 ∷ [])
      coach
      mundo
      1
      2
      []
      (coach_capture_pokemon entorno 5 4 un_pokemon coach mundo)
coach_capture_pokemon-Capturado_example =
    coach_capture_pokemon-Capturado entorno 5 ((17, []) ∷ (16, []) ∷ (17, []) ∷ (15, []) ∷ []) 14
      (98 ∷ []) (98 ∷ []) [] un_pokemon coach mundo completa (λ f ps. refl) (λ o d f. (f, refl))
      ((refl, omega arith), ((refl, omega arith), ((refl, omega arith), ((refl, omega arith), tt))))
      (λ h. omega arith) refl refl (omega arith) refl

-- The same where the end of the stream is that of the connection.
abbrev recv_cerrado : ℕ → List ℕ → Llegada × List ℕ
recv_cerrado n [] = (cerrado, [])
recv_cerrado n (x ∷ xs) = (llegan (take n (x ∷ xs)), drop n (x ∷ xs))

abbrev entorno_cerrado : Entorno ℕ (List ℕ) ℕ
entorno_cerrado = record entorno { recv = recv_cerrado }

cerrada : Completa recv_cerrado
cerrada n [] rest l e = absurd (omega (arith, l, e))
cerrada n (x ∷ xs) rest l e = entera 3 n (x ∷ xs) rest l e

abbrev un_pokenest : PokeNest
un_pokenest = record { id = 80; posx = 4; posy = 6; cantidad = 0; lista_pokemons = [] }

abbrev mapa : Mapa (List ℕ)
mapa = record {
  heap = λ x. some caminante;
  cola_listos = [];
  cola_bloqueados = [];
  entrenadores = [];
  lista_pokenests = un_pokenest ∷ [];
  master = λ x. false;
  set_fd_max = 3;
  red = [];
  salidas = [];
}

abbrev saludado : Mundo (List ℕ) ℕ
saludado = record mundo { red = 6 ∷ 2 ∷ 1 ∷ 1 ∷ 8 ∷ 1 ∷ 99 ∷ [] }

recibe_6 :
    coach_recv entorno.recv (6 ∷ 2 ∷ 1 ∷ 1 ∷ 8 ∷ 1 ∷ 99 ∷ [])
    ≡ sigue (record { operation_code = 6; message = some (1 ∷ 1 ∷ []) }, 8 ∷ 1 ∷ 99 ∷ [])
unfolding coach_recv
recibe_6 = refl

recibe_8 :
    coach_recv entorno.recv (8 ∷ 1 ∷ 99 ∷ [])
    ≡ sigue (record { operation_code = 8; message = some (99 ∷ []) }, [])
unfolding coach_recv
recibe_8 = refl

coach_capture_pokemon-game_over_example :
    coach_capture_pokemon entorno_cerrado 3 4 un_pokemon coach
      (record mundo { red = 17 ∷ 0 ∷ 16 ∷ 0 ∷ [] })
    ≡ game_over
coach_capture_pokemon-game_over_example =
    coach_capture_pokemon-game_over entorno_cerrado 3 ((17, []) ∷ (16, []) ∷ []) un_pokemon coach
      (record mundo { red = 17 ∷ 0 ∷ 16 ∷ 0 ∷ [] }) cerrada (λ f ps. refl)
      ((refl, omega arith), ((refl, omega arith), tt)) (λ h. omega arith) refl (omega arith) refl

esta_el_pokenest : buscar_pokenest (un_pokenest ∷ []) 80 ≡ some un_pokenest
unfolding buscar_pokenest
esta_el_pokenest = refl

map_locate_pokemon-ubicar_pokenest_example :
    Ubicada entorno ambiente caminante 80 un_pokenest mapa un_pokemon mundo (7 ∷ [])
map_locate_pokemon-ubicar_pokenest_example =
    map_locate_pokemon-ubicar_pokenest entorno ambiente caminante 80 un_pokenest mapa un_pokemon
      mundo (7 ∷ []) completa esta_el_pokenest

handshake-handshake_coach_example :
    Presentado entorno ambiente 3
      (65 ∷ [])
      coach
      saludado
      mapa
      (1 ∷ [])
      (some (99 ∷ []))
      (record { x = 1; y = 1 })
handshake-handshake_coach_example =
    handshake-handshake_coach entorno ambiente 3 (65 ∷ []) coach saludado mapa (1 ∷ [])
      (record { operation_code = 6; message = some (1 ∷ 1 ∷ []) })
      (record { operation_code = 8; message = some (99 ∷ []) }) (8 ∷ 1 ∷ 99 ∷ []) [] 1 1 [] entera
      (omega arith) (omega arith) recibe_6 recibe_8 refl

-- Two pokemons, the first one the PokeNest at the place of the trainer, and the trainer a victim.
abbrev dos_pokemons : TMap
dos_pokemons = record {
  pokemon_list = un_pokemon ∷ un_pokemon ∷ [];
  medal_path = 109 ∷ [];
  siguiente = 0;
}

abbrev jugador : Jugador entorno (1 ∷ [])
jugador = (desde, (coach, record mundo { red = 5 ∷ 2 ∷ 9 ∷ 1 ∷ 10 ∷ 0 ∷ [] }))

completar_mapa-en_orden_example :
    completar_mapa entorno (1 ∷ []) 5 3 none dos_pokemons jugador
    ≡ en_orden entorno (1 ∷ []) 5 (un_pokemon ∷ un_pokemon ∷ []) none dos_pokemons jugador
completar_mapa-en_orden_example =
    completar_mapa-en_orden entorno (1 ∷ []) 5 3 (un_pokemon ∷ un_pokemon ∷ []) none dos_pokemons
      jugador refl (omega arith)
