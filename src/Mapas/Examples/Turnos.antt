-- ===== src/Mapas/Examples/Turnos.antt =====
-- Requests and turns on concrete maps.
use sisoputnfrba_tp_2016_2c.Base.{
  strcmp, ℕ, ◌≤◌, ◌≡◌, ◌≢◌, inl, inr, Bool, true, false, List, [], ◌∷◌, Option, some, refl, arith,
  ◌==◌, subst, ==_iff, Bool-cases, ap, not, ◌&&◌,
}
use sisoputnfrba_tp_2016_2c.Mapas.State.{Entrenador, Mapa}
use sisoputnfrba_tp_2016_2c.Mapas.Solicitudes.{Respuesta}
use sisoputnfrba_tp_2016_2c.Mapas.Solicitudes.Atencion.{
  atender_solicitud, connection_recv, recibir_mensaje, atender_codigo, atrapar_pokemon,
}
use sisoputnfrba_tp_2016_2c.Mapas.Solicitudes.Answers.{Atendio, Ordena}
use sisoputnfrba_tp_2016_2c.Mapas.Solicitudes.Atendidas.{atender_solicitud-Atendio}
use sisoputnfrba_tp_2016_2c.Mapas.Planificacion.{esta, liberar_recursos}
use sisoputnfrba_tp_2016_2c.Mapas.Solicitudes.Contadas.{Contadas}
use sisoputnfrba_tp_2016_2c.Mapas.Turnos.Contadas.{planificar-Contadas}
use sisoputnfrba_tp_2016_2c.Mapas.Turnos.{
  planificar, ejecutar_rafaga_rr, con_menor_distancia, menor_distancia, rafaga, tras_rafaga,
  distancia_a_pokenest,
}
use sisoputnfrba_tp_2016_2c.Mapas.Planificacion.Recursos.{Esperan}
use sisoputnfrba_tp_2016_2c.Mapas.Planificacion.Liberar.{Liberado, Vivos, liberar_recursos-Liberado}
use sisoputnfrba_tp_2016_2c.Mapas.Turnos.RoundRobin.{
  Rafaga, FinDeTurno, ejecutar_rafaga_rr-FinDeTurno,
}
use sisoputnfrba_tp_2016_2c.Mapas.Turnos.Distancias.{PrimeroMenor, a_pie, con_menor_distancia-a_pie}
use sisoputnfrba_tp_2016_2c.Mapas.Solicitudes.{buscar_pokenest}
use sisoputnfrba_tp_2016_2c.Mapas.Examples.{
  ambiente, pikachu, pokenest, entrenador, mapa, el_mapa, la_respuesta, nadie_antes, buscar_primero,
  es_true,
}

-- A request of trainer 3 for the PokeNest 80, and a capture.
abbrev pide : Mapa (List ℕ)
pide =
    mapa (entrenador 3 0 []) (entrenador 5 0 []) (3 ∷ 5 ∷ []) []
      (pokenest 80 1 (pikachu 80 ∷ []) ∷ []) (4 ∷ 1 ∷ 80 ∷ [])

ordena : Ordena ambiente
ordena q f ps = refl

abbrev atendido : Respuesta × Mapa (List ℕ)
atendido = la_respuesta (atender_solicitud ambiente 3 pide)

pide-atendido : atender_solicitud ambiente 3 pide ≡ some atendido
unfolding atender_solicitud connection_recv recibir_mensaje atender_codigo atrapar_pokemon
    buscar_pokenest
pide-atendido = refl

atender_solicitud-Atendio_example : Atendio (entrenador 3 0 []) pide atendido.0 atendido.1
atender_solicitud-Atendio_example =
    atender_solicitud-Atendio ambiente (entrenador 3 0 []) pide atendido.0 atendido.1 ordena refl
      pide-atendido

-- Trainer 5 waits for the PokeNest of the pokemon that trainer 3 holds.
abbrev se_va : Mapa (List ℕ)
se_va =
    mapa (entrenador 3 0 (pikachu 80 ∷ [])) (entrenador 5 80 []) [] (5 ∷ []) (pokenest 80 0 [] ∷ [])
      []

es_cinco : (b : ℕ) → esta b (5 ∷ []) ≡ true → 5 ≡ b
unfolding esta
es_cinco b h = ground arith

espera_cinco : Esperan ambiente se_va
espera_cinco b h =
    subst
      (λ x. (u : Entrenador) × (se_va.heap x ≡ some u) × (u.id ≡ x) × (u.ultimo_pokemon ≡ false))
      (es_cinco b h) (entrenador 5 80 [], refl, refl, refl)

se_va-Vivos : Vivos se_va.entrenadores se_va.heap
unfolding esta
se_va-Vivos x h = elim (Bool-cases (x == 3)) [
  | inl a ↦ (entrenador 3 0 (pikachu 80 ∷ []), rw a refl)
  | inr a ↦ let b : (x == 5) ≡ true = ground arith in (entrenador 5 80 [], rw a (rw b refl))
]

liberar_recursos-Liberado_example :
    (m' : Mapa (List ℕ)) × (liberar_recursos ambiente 3 3 se_va ≡ some m')
    × Liberado ambiente 3 se_va m'
unfolding esta buscar_pokenest
liberar_recursos-Liberado_example =
    liberar_recursos-Liberado ambiente 3 3 (entrenador 3 0 (pikachu 80 ∷ [])) se_va refl refl
      espera_cinco se_va-Vivos ((pokenest 80 0 [], refl), tt) (omega arith)

abbrev tras_turno : Mapa (List ℕ)
tras_turno = el_mapa (ejecutar_rafaga_rr ambiente 9 pide)

tras_turno-eq : ejecutar_rafaga_rr ambiente 9 pide ≡ some tras_turno
unfolding ejecutar_rafaga_rr rafaga atender_solicitud connection_recv recibir_mensaje atender_codigo
    atrapar_pokemon buscar_pokenest tras_rafaga
tras_turno-eq = refl

ejecutar_rafaga_rr-FinDeTurno_example :
    (r : Respuesta × Mapa (List ℕ)) × (rafaga ambiente 1 3 (record pide { cola_listos = 5 ∷ [] })
      ≡ some r)
    × Rafaga 3 (record pide { cola_listos = 5 ∷ [] }) r.1
    × FinDeTurno ambiente 9 3 (5 ∷ []) r.0 pide r.1 tras_turno
ejecutar_rafaga_rr-FinDeTurno_example =
    ejecutar_rafaga_rr-FinDeTurno ambiente 9 3 (5 ∷ []) (entrenador 3 0 []) pide tras_turno ordena
      refl refl refl tras_turno-eq

nadie_antes-lem :
    (f : ℕ → ℕ → Option Bool) (y x : ℕ) (xs : List ℕ)
    → nadie_antes f y xs ≡ true
    → esta x xs ≡ true
    → f x y ≢ some true
unfolding esta
nadie_antes-lem f y x [] n h k = cc
nadie_antes-lem f y x (z ∷ zs) n h k = elim (Bool-cases (z == x)) [
  | inl e ↦
      let a =
        subst (λ w. not (es_true (f w y)) && nadie_antes f y zs ≡ true) ((==_iff z x).0 e) n in
      ground (arith, a, ap es_true k)
  | inr e ↦
      nadie_antes-lem f y x zs (ground (arith, n, Bool-cases (es_true (f z y))))
        (ground (arith, e, h)) k
]

buscar_primero-lem :
    (f : ℕ → ℕ → Option Bool) (todos xs ys : List ℕ) (y : ℕ)
    → buscar_primero f todos xs ≡ some (y ∷ ys)
    → nadie_antes f y todos ≡ true
buscar_primero-lem f todos [] ys y h = cc
buscar_primero-lem f todos (x ∷ xs) ys y h = elim (Bool-cases (nadie_antes f x todos)) [
  | inl n ↦
      let k : x ≡ y = ground (arith, rw n at h) in subst (λ z. nadie_antes f z todos ≡ true) k n
  | inr n ↦ buscar_primero-lem f todos xs ys y (rw n at h)
]

-- Both ask for the PokeNest at (4, 6), and trainer 3 is as near as trainer 5.
abbrev esperan_turno : Mapa (List ℕ)
esperan_turno =
    mapa (entrenador 3 80 []) (entrenador 5 80 []) (3 ∷ 5 ∷ []) []
      (pokenest 80 1 (pikachu 80 ∷ []) ∷ []) []

menor_primero :
    PrimeroMenor ambiente (menor_distancia esperan_turno.heap esperan_turno.lista_pokenests)
menor_primero xs ys y x h l =
    let f = menor_distancia esperan_turno.heap esperan_turno.lista_pokenests in
    nadie_antes-lem f y x xs (buscar_primero-lem f xs xs ys y h) l

con_menor_distancia-a_pie_example :
    a_pie (pokenest 80 1 (pikachu 80 ∷ [])) (entrenador 3 80 [])
    ≤ a_pie (pokenest 80 1 (pikachu 80 ∷ [])) (entrenador 5 80 [])
unfolding con_menor_distancia menor_distancia distancia_a_pokenest buscar_pokenest esta
con_menor_distancia-a_pie_example =
    con_menor_distancia-a_pie ambiente esperan_turno 3 5 (entrenador 3 80 []) (entrenador 5 80 [])
      (pokenest 80 1 (pikachu 80 ∷ [])) (pokenest 80 1 (pikachu 80 ∷ [])) menor_primero refl refl
      refl (omega arith, omega arith, omega arith, omega arith) refl refl refl
      (omega arith, omega arith, omega arith, omega arith)

abbrev tras_planificar : Mapa (List ℕ)
tras_planificar = el_mapa (planificar ambiente 9 9 pide)

tras_planificar-eq : planificar ambiente 9 9 pide ≡ some tras_planificar
unfolding planificar strcmp ejecutar_rafaga_rr rafaga atender_solicitud connection_recv
    recibir_mensaje atender_codigo atrapar_pokemon buscar_pokenest tras_rafaga
tras_planificar-eq = refl

planificar-Contadas_example : Contadas tras_planificar.lista_pokenests
planificar-Contadas_example =
    planificar-Contadas ambiente 9 9 pide tras_planificar ordena (refl, tt) tras_planificar-eq
