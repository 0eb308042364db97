-- ===== src/Mapas/Examples/Deadlocks.antt =====
-- The deadlock detection on concrete maps.
use sisoputnfrba_tp_2016_2c.Base.{ℕ, ◌≡◌, ◌≢◌, true, List, [], ◌∷◌, some, refl, arith}
use sisoputnfrba_tp_2016_2c.Mapas.State.{Entrenador, PokeNest, Mapa}
use sisoputnfrba_tp_2016_2c.Mapas.Solicitudes.Atencion.{
  connection_recv, notificar_captura_pokemon, recibir_mensaje,
}
use sisoputnfrba_tp_2016_2c.Mapas.Planificacion.{
  asignar, desbloquear_entrenador, devolver_pokemon, liberar_entrenador, quitar, quitar_simbolo,
  soltar_pokemon, liberar_recursos,
}
use sisoputnfrba_tp_2016_2c.Mapas.Deadlock.{
  Fila, Vuelta, sin_fuel, termina, repartir, fila_de, inicio, atender_pedidos,
  hay_alguien_para_atender, pasada, paso, primer_pedido, celda, deadlockeados, filtrar,
  no_atendidos, retiene_alguno, es_buscado, contador_pokemon, devolver, en_celda, sin_pedido,
}
use sisoputnfrba_tp_2016_2c.Mapas.Deadlock.Ends.{repartir-sin_fuel, repartir-solo}
use sisoputnfrba_tp_2016_2c.Mapas.Deadlock.Served.{Resueltas, repartir-Resueltas}
use sisoputnfrba_tp_2016_2c.Mapas.Deadlock.Kept.{existentes, repartir-existentes}
use sisoputnfrba_tp_2016_2c.Mapas.Deadlock.Batalla.{
  detectar_deadlock, duplicar_lista, resolver, todos_bloqueados, buscar_pokemon, elegir,
  esta_bloqueado, mandar_a_pelear, matar_entrenador, pelear_todos,
}
use sisoputnfrba_tp_2016_2c.Mapas.Deadlock.Victima.{Victima, detectar_deadlock-Victima}
use sisoputnfrba_tp_2016_2c.Mapas.Solicitudes.{buscar_pokenest, cambiar_pokenest, paquete}
use sisoputnfrba_tp_2016_2c.Mapas.Examples.{ambiente, pikachu, pokenest, entrenador, mapa, el_mapa}

-- The requests on the matrices.
abbrev dos : List Entrenador
dos = entrenador 3 80 [] ∷ entrenador 5 80 [] ∷ []

abbrev vacia : List PokeNest
vacia = pokenest 80 0 [] ∷ []

repartir-sin_fuel_example : repartir 4 vacia dos ≢ sin_fuel
repartir-sin_fuel_example = repartir-sin_fuel 3 vacia dos (omega arith) (omega arith)

repartir-solo_example : repartir 100 vacia (entrenador 3 80 [] ∷ []) ≡ sin_fuel
unfolding primer_pedido celda
repartir-solo_example = repartir-solo vacia (entrenador 3 80 []) 0 refl refl 100

abbrev filas_finales : List Fila
filas_finales = fila_de vacia (entrenador 3 80 []) ∷ fila_de vacia (entrenador 5 80 []) ∷ []

abbrev vuelta_final : Vuelta
vuelta_final = record { disponibles = 0 ∷ []; hay_deadlock = true; tiene_un_pedido = true }

dos-termina : repartir 4 vacia dos ≡ termina filas_finales vuelta_final
unfolding repartir atender_pedidos inicio hay_alguien_para_atender pasada paso primer_pedido celda
dos-termina = refl

repartir-Resueltas_example : Resueltas vuelta_final.disponibles filas_finales
repartir-Resueltas_example =
    repartir-Resueltas 4 vacia dos filas_finales vuelta_final (omega arith) dos-termina

repartir-existentes_example :
    existentes 0 filas_finales vuelta_final ≡ existentes 0 filas_finales (inicio vacia)
repartir-existentes_example =
    repartir-existentes 0 4 vacia dos filas_finales vuelta_final dos-termina

-- Trainer 3 holds what 5 asks for and the other way round, both are blocked, and both choose their
-- pokemon.
abbrev en_deadlock : Mapa (List ℕ)
en_deadlock =
    mapa (entrenador 3 80 (pikachu 81 ∷ [])) (entrenador 5 81 (pikachu 80 ∷ [])) [] (3 ∷ 5 ∷ [])
      (pokenest 80 0 [] ∷ pokenest 81 0 [] ∷ []) (14 ∷ 1 ∷ 112 ∷ 14 ∷ 1 ∷ 112 ∷ [])

abbrev tras_batalla : Mapa (List ℕ)
tras_batalla = el_mapa (detectar_deadlock ambiente 9 9 en_deadlock)

tras_batalla-eq : detectar_deadlock ambiente 9 9 en_deadlock ≡ some tras_batalla
unfolding detectar_deadlock repartir atender_pedidos inicio hay_alguien_para_atender pasada paso
    primer_pedido celda liberar_recursos duplicar_lista resolver todos_bloqueados buscar_pokemon
    elegir esta_bloqueado mandar_a_pelear matar_entrenador pelear_todos deadlockeados filtrar
    no_atendidos retiene_alguno es_buscado contador_pokemon devolver en_celda sin_pedido asignar
    desbloquear_entrenador devolver_pokemon liberar_entrenador quitar quitar_simbolo soltar_pokemon
    connection_recv notificar_captura_pokemon recibir_mensaje buscar_pokenest cambiar_pokenest
    paquete
tras_batalla-eq = refl

detectar_deadlock-Victima_example : Victima ambiente 9 9 en_deadlock tras_batalla
detectar_deadlock-Victima_example =
    detectar_deadlock-Victima ambiente 9 9 en_deadlock tras_batalla tras_batalla-eq
