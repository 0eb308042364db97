-- ===== src/Mapas/Examples.antt =====
-- Maps with two trainers, on which the theorems are applied.
mod Deadlocks
mod Turnos
use sisoputnfrba_tp_2016_2c.Base.{
  ℕ, zero, suc, ◌+◌, ◌*◌, ◌<◌, ◌≤◌, ◌≡◌, ◌≢◌, ◌⊎◌, inl, inr, Bool, true, false, List, [], ◌∷◌,
  Option, none, some, refl, arith, ◌==◌, if◌then◌else◌, not, ◌&&◌, take, drop, update, subst,
  ==_iff, Bool-cases, length,
}
use sisoputnfrba_tp_2016_2c.Mapas.State.{
  Pokemon, InfoPokemon, Entrenador, PokeNest, Llegada, llegan, cerrado, Mapa, Ambiente,
}
use sisoputnfrba_tp_2016_2c.Mapas.Solicitudes.{
  Respuesta, turno_normal, desconexion, capturo_pokemon, no_encontro_pokemon,
}
use sisoputnfrba_tp_2016_2c.Mapas.Solicitudes.Atencion.{atender_solicitud}
use sisoputnfrba_tp_2016_2c.Mapas.Solicitudes.Answers.{Atendio, Ordena}
use sisoputnfrba_tp_2016_2c.Mapas.Solicitudes.Atendidas.{atender_solicitud-Atendio}
use sisoputnfrba_tp_2016_2c.Mapas.Planificacion.{esta, liberar_recursos}
use sisoputnfrba_tp_2016_2c.Mapas.Turnos.{ejecutar_rafaga_rr, con_menor_distancia, menor_distancia}
use sisoputnfrba_tp_2016_2c.Mapas.Planificacion.Recursos.{Esperan}
use sisoputnfrba_tp_2016_2c.Mapas.Planificacion.Liberar.{Liberado, Vivos, liberar_recursos-Liberado}
use sisoputnfrba_tp_2016_2c.Mapas.Turnos.RoundRobin.{
  Rafaga, FinDeTurno, ejecutar_rafaga_rr-FinDeTurno,
}
use sisoputnfrba_tp_2016_2c.Mapas.Turnos.Distancias.{PrimeroMenor, a_pie, con_menor_distancia-a_pie}
use sisoputnfrba_tp_2016_2c.Mapas.Deadlock.{
  Fila, Vuelta, Fin, sin_fuel, termina, repartir, fila_de, inicio,
}
use sisoputnfrba_tp_2016_2c.Mapas.Deadlock.Ends.{repartir-sin_fuel, repartir-solo}
use sisoputnfrba_tp_2016_2c.Mapas.Deadlock.Served.{Resueltas, repartir-Resueltas}
use sisoputnfrba_tp_2016_2c.Mapas.Deadlock.Kept.{existentes, repartir-existentes}
use sisoputnfrba_tp_2016_2c.Mapas.Deadlock.Batalla.{detectar_deadlock}
use sisoputnfrba_tp_2016_2c.Mapas.Deadlock.Victima.{Victima, detectar_deadlock-Victima}

-- One stream for all sockets.
abbrev pub recibir : ℕ → ℕ → List ℕ → Llegada × List ℕ
recibir socket n [] = (cerrado, [])
recibir socket n (b ∷ bs) = (llegan (take n (b ∷ bs)), drop n (b ∷ bs))

abbrev pub es_true : Option Bool → Bool
es_true (some b) = b
es_true none = false

abbrev pub nadie_antes : (ℕ → ℕ → Option Bool) → ℕ → List ℕ → Bool
nadie_antes f y [] = true
nadie_antes f y (x ∷ xs) = not (es_true (f x y)) && nadie_antes f y xs

abbrev pub buscar_primero : (ℕ → ℕ → Option Bool) → List ℕ → List ℕ → Option (List ℕ)
buscar_primero f todos [] = none
buscar_primero f todos (y ∷ ys) =
    if nadie_antes f y todos then some (y ∷ []) else buscar_primero f todos ys

abbrev pub ambiente : Ambiente (List ℕ)
ambiente = record {
  recv = recibir;
  sort_pokemons = λ f ps. ps;
  sort_entrenadores = λ f xs. buscar_primero f xs xs;
  pkmn_battle = λ p q. true;
  string_equals_ignore_case = λ xs ys. true;
  size_of_pointer = 4;
  nombre_mapa = 80 ∷ [];
  batalla = true;
  algoritmo = 82 ∷ 82 ∷ [];
  quantum = 1;
}

abbrev pub pikachu : ℕ → InfoPokemon
pikachu nest = record {
  pokemon = record { species = 112 ∷ []; level = 3 };
  nombre = 112 ∷ [];
  id_pokenest = nest;
}

abbrev pub pokenest : ℕ → ℕ → List InfoPokemon → PokeNest
pokenest id cantidad ps = record {
  id = id;
  posx = 4;
  posy = 6;
  cantidad = cantidad;
  lista_pokemons = ps;
}

abbrev pub entrenador : ℕ → ℕ → List InfoPokemon → Entrenador
entrenador id busca ps = record {
  nombre = 97 ∷ [];
  posx = 1;
  posy = 1;
  id = id;
  simbolo = 60 + id;
  pokenest_buscada = busca;
  cant_deadlocks = 0;
  ultimo_pokemon = false;
  pokemons = ps;
}

-- Trainers 3 and 5; each may hold what the other asks for.
abbrev pub mapa : Entrenador → Entrenador → List ℕ → List ℕ → List PokeNest → List ℕ → Mapa (List ℕ)
mapa t u listos bloqueados nests bytes = record {
  heap = λ x. if x == 3 then some t else if x == 5 then some u else none;
  cola_listos = listos;
  cola_bloqueados = bloqueados;
  entrenadores = 3 ∷ 5 ∷ [];
  lista_pokenests = nests;
  master = λ x. false;
  set_fd_max = 5;
  red = bytes;
  salidas = [];
}

abbrev pub el_mapa : Option (Mapa (List ℕ)) → Mapa (List ℕ)
el_mapa (some m) = m
el_mapa none = mapa (entrenador 3 0 []) (entrenador 5 0 []) [] [] [] []

abbrev pub la_respuesta : Option (Respuesta × Mapa (List ℕ)) → Respuesta × Mapa (List ℕ)
la_respuesta (some r) = r
la_respuesta none = (turno_normal, el_mapa none)
