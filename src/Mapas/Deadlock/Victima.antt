-- ===== src/Mapas/Deadlock/Victima.antt =====
-- deteccionDeadlock.c: whom a round of detectarDeadlock can kill.
use sisoputnfrba_tp_2016_2c.Base.{
  ℕ, ◌≤◌, ◌<◌, ◌≡◌, ◌⊎◌, inl, inr, Bool, true, false, ◌&&◌, List, [], ◌∷◌, some, refl, sym, ◌∙◌,
  arith, ap, leb, leb→le, bind-some, some_inj, length, Bool-cases, subst,
}
use sisoputnfrba_tp_2016_2c.Mapas.State.{Pokemon, Entrenador, Mapa, Ambiente, Salida}
use sisoputnfrba_tp_2016_2c.Mapas.Solicitudes.Atencion.{connection_recv}
use sisoputnfrba_tp_2016_2c.Mapas.Planificacion.{esta}
use sisoputnfrba_tp_2016_2c.Mapas.Deadlock.{
  Fila, Vuelta, Fin, termina, fuera_de_rango, sin_fuel, deadlockeados, filtrar, no_atendidos,
  repartir,
}
use sisoputnfrba_tp_2016_2c.Mapas.Deadlock.Batalla.{
  todos_bloqueados, duplicar_lista, elegir, buscar_pokemon, mandar_a_pelear, pelear_todos,
  matar_entrenador, matar_perdedor, resolver, tras_repartir, detectar_deadlock, avisar,
}
use sisoputnfrba_tp_2016_2c.Mapas.Deadlock.Elegidos.{
  EsUno, filtrar-EsUno, SinAtender, SinAtender-EsUno, no_atendidos-SinAtender, Retiene,
  retiene_alguno-Retiene, duplicar_lista-EsUno,
}

-- The exchange on the sockets apart, nothing has changed.
pub record MismoMapa {S : Type 0} (m m' : Mapa S) : Type 0 where
  pub heap_igual : m'.heap ≡ m.heap
  pub listos_igual : m'.cola_listos ≡ m.cola_listos
  pub bloqueados_igual : m'.cola_bloqueados ≡ m.cola_bloqueados
  pub pokenests_igual : m'.lista_pokenests ≡ m.lista_pokenests

module _ {S : Type 0} (e : Ambiente S) where
  Mismo : (m : Mapa S) (s : S) (os : List Salida) → MismoMapa m (record m { red = s; salidas = os })
  Mismo m s os = record {
    heap_igual = refl;
    listos_igual = refl;
    bloqueados_igual = refl;
    pokenests_igual = refl;
  }

  Mismo-seguido : (m m1 m' : Mapa S) → MismoMapa m m1 → MismoMapa m1 m' → MismoMapa m m'
  Mismo-seguido m m1 m' a b = record {
    heap_igual = b.heap_igual ∙ a.heap_igual;
    listos_igual = b.listos_igual ∙ a.listos_igual;
    bloqueados_igual = b.bloqueados_igual ∙ a.bloqueados_igual;
    pokenests_igual = b.pokenests_igual ∙ a.pokenests_igual;
  }

  elegir-MismoMapa :
      (t : Entrenador) (m : Mapa S) (r : Pokemon × Mapa S) → elegir e t m ≡ some r → MismoMapa m r.1
  unfolding elegir
  elegir-MismoMapa t m r h =
      let (bs, h1, h2) = bind-some (connection_recv e t.id m.red).0.message _ r h in
      let (p, h3, h4) = bind-some (buscar_pokemon e t.pokemons bs) _ r h2 in
      subst (λ (x : Pokemon × Mapa S). MismoMapa m x.1) (some_inj _ r h4) (Mismo m _ _)

  avisar-MismoMapa :
      (b : Bool) (t u : Entrenador) (m : Mapa S)
      → MismoMapa m (avisar e b t u m).1 × (((avisar e b t u m).0 ≡ t) ⊎ ((avisar e b t u m).0 ≡ u))
  avisar-MismoMapa true t u m = (Mismo m m.red _, inl refl)
  avisar-MismoMapa false t u m = (Mismo m m.red _, inr refl)

  pelea-MismoMapa :
      (t u : Entrenador) (m : Mapa S) (r : Entrenador × Mapa S)
      → mandar_a_pelear e t u m ≡ some r
      → MismoMapa m r.1 × ((r.0 ≡ t) ⊎ (r.0 ≡ u))
  unfolding mandar_a_pelear
  pelea-MismoMapa t u m r h =
      let (a, h1, h2) = bind-some (elegir e t m) _ r h in
      let (b, h3, h4) = bind-some (elegir e u a.1) _ r h2 in
      let pierde = e.pkmn_battle a.0 b.0 in
      let (s, o) = avisar-MismoMapa pierde t u b.1 in
      let s1 = Mismo-seguido m a.1 b.1 (elegir-MismoMapa t m a h1) (elegir-MismoMapa u a.1 b h3) in
      subst (λ (x : Entrenador × Mapa S). MismoMapa m x.1 × ((x.0 ≡ t) ⊎ (x.0 ≡ u)))
        (some_inj (avisar e pierde t u b.1) r h4)
        (Mismo-seguido m b.1 (avisar e pierde t u b.1).1 s1 s, o)

  pelear_todos-EsUno :
      (t : Entrenador) (us : List Entrenador) (m : Mapa S) (r : Entrenador × Mapa S)
      → pelear_todos e t us m ≡ some r
      → MismoMapa m r.1 × EsUno r.0 (t ∷ us)
  unfolding pelear_todos
  pelear_todos-EsUno t [] m r h =
      subst (λ (x : Entrenador × Mapa S). MismoMapa m x.1 × EsUno x.0 (t ∷ []))
        (some_inj (t, m) r h) (Mismo m m.red m.salidas, inl refl)
  pelear_todos-EsUno t (u ∷ us) m r h =
      let (a, h1, h2) = bind-some (mandar_a_pelear e t u m) _ r h in
      let (s, o) = pelea-MismoMapa t u m a h1 in
      let (s', i) = pelear_todos-EsUno a.0 us a.1 r h2 in
      (
        Mismo-seguido m a.1 r.1 s s',
        elim i [
          | inr k ↦ inr (inr k)
          | inl k ↦ elim o [ inl c ↦ inl (k ∙ c) | inr c ↦ inr (inl (k ∙ c)) ]
        ],
      )

  -- What comes of the trainers `es` and of the rows `fs` that the round over the matrices has left:
  -- nothing, where there are not two trainers in deadlock, no battles, or one that is not blocked; or
  -- one trainer is killed. It is one of the map, its row says that it has not been served, and it
  -- holds a pokemon that another or the same trainer not served asks for.
  pub data Resuelto (k : ℕ) (es : List Entrenador) (fs : List Fila) (m m' : Mapa S) : Type 0 where
    sin_cambio :
        m' ≡ m
        → (length (deadlockeados fs es) < 2)
          ⊎ ((e.batalla ≡ false)
              ⊎ (todos_bloqueados m.heap m.cola_bloqueados (deadlockeados fs es) ≡ some false))
        → Resuelto k es fs m m'
    victima :
        (t u : Entrenador) (m1 : Mapa S) (x : ℕ)
        → esta x m.entrenadores ≡ true
        → m.heap x ≡ some t
        → SinAtender fs es t
        → SinAtender fs es u
        → Retiene u t.pokemons
        → 2 ≤ length (deadlockeados fs es)
        → e.batalla ≡ true
        → todos_bloqueados m.heap m.cola_bloqueados (deadlockeados fs es) ≡ some true
        → MismoMapa m m1
        → matar_entrenador e k t.id m1 ≡ some m'
        → Resuelto k es fs m m'

  -- The trainers are the copies of those of the map, and the rows are those of the matrices.
  abbrev pub Victima : ℕ → ℕ → Mapa S → Mapa S → Type 0
  Victima k n m m' =
      (es : List Entrenador) × (fs : List Fila) × (v : Vuelta) × (duplicar_lista m.heap
          m.entrenadores
        ≡ some es)
      × (repartir n m.lista_pokenests es ≡ termina fs v)
      × Resuelto k es fs m m'

  perdedor-EsUno :
      (k : ℕ) (ds : List Entrenador) (m m' : Mapa S)
      → matar_perdedor e k ds m ≡ some m'
      → 2 ≤ length ds
      → (t : Entrenador) × (m1 : Mapa S) × EsUno t ds
        × MismoMapa m m1
        × (matar_entrenador e k t.id m1 ≡ some m')
  perdedor-EsUno k [] m m' h l = absurd (omega arith)
  perdedor-EsUno k (t ∷ ts) m m' h l =
      let (r, h1, h2) = bind-some (pelear_todos e t ts m) _ m' h in
      let (s, i) = pelear_todos-EsUno t ts m r h1 in (r.0, r.1, i, s, h2)

  resolver-Resuelto :
      (k : ℕ) (es : List Entrenador) (fs : List Fila) (m m' : Mapa S)
      → duplicar_lista m.heap m.entrenadores ≡ some es
      → resolver e k (deadlockeados fs es) m ≡ some m'
      → Resuelto k es fs m m'
  unfolding resolver deadlockeados
  resolver-Resuelto k es fs m m' d h =
      let os = no_atendidos fs es in
      let ds = filtrar os os in
      elim (Bool-cases (leb 2 (length ds))) [
        | inr l ↦ sin_cambio (sym (some_inj m m' (rw l at h))) (inl (ground (arith, l)))
        | inl l ↦
            let (b, hb, h1) =
              bind-some (todos_bloqueados m.heap m.cola_bloqueados ds) _ m' (rw l at h) in
            elim (Bool-cases (e.batalla && b)) [
              | inr c ↦ sin_cambio (sym (some_inj m m' (rw c at h1))) (inr (sin_batalla b hb c))
              | inl c ↦
                  let (t, m1, i, s, q) = perdedor-EsUno k ds m m' (rw c at h1) (leb→le 2 _ l) in
                  let (j, r) = filtrar-EsUno os os t i in
                  let (u, ju, ru) = retiene_alguno-Retiene os t.pokemons r in
                  let w = no_atendidos-SinAtender fs es t j in
                  let (x, ex, hx) =
                    duplicar_lista-EsUno m.heap m.entrenadores es t d
                      (SinAtender-EsUno fs es t w) in
                  let bt : b ≡ true = ground (arith, c) in
                  let be : e.batalla ≡ true = ground (arith, c) in
                  victima t u m1 x ex hx w (no_atendidos-SinAtender fs es u ju) ru (leb→le 2 _ l) be
                    (hb ∙ ap (λ y. some y) bt) s q
            ]
      ]
    where
      sin_batalla :
          (b : Bool)
          → todos_bloqueados m.heap m.cola_bloqueados
              (filtrar (no_atendidos fs es) (no_atendidos fs es))
            ≡ some b
          → (e.batalla && b) ≡ false
          → (e.batalla ≡ false)
            ⊎ (todos_bloqueados m.heap m.cola_bloqueados
                  (filtrar (no_atendidos fs es) (no_atendidos fs es))
                ≡ some false)
      sin_batalla false hb c = inr hb
      sin_batalla true hb c = inl (ground (arith, c))

  -- A round of the detection that comes to its end has copied the trainers of the map, and its matrices
  -- have come to an end. With fewer than two trainers in deadlock, without battles, or with one of
  -- them not blocked, it changes nothing. Otherwise it kills one trainer of the map, whose row of the
  -- matrices says that it has not been served and that holds a pokemon of the PokeNest for which a
  -- trainer asks that has not been served either; before the kill only messages have been exchanged.
  pub detectar_deadlock-Victima :
      (k n : ℕ) (m m' : Mapa S) → detectar_deadlock e k n m ≡ some m' → Victima k n m m'
  unfolding detectar_deadlock
  detectar_deadlock-Victima k n m m' h =
      let (es, d, h1) = bind-some (duplicar_lista m.heap m.entrenadores) _ m' h in
      segun es d (repartir n m.lista_pokenests es) refl h1
    where
      segun :
          (es : List Entrenador)
          → duplicar_lista m.heap m.entrenadores ≡ some es
          → (z : Fin) → repartir n m.lista_pokenests es ≡ z
          → tras_repartir e k es z m ≡ some m'
          → Victima k n m m'
      segun es d (termina fs v) r q = (es, fs, v, d, r, resolver-Resuelto k es fs m m' d q)
      segun es d fuera_de_rango r q = cc
      segun es d sin_fuel r q = cc
