-- ===== src/Mapas/Turnos/RoundRobin.antt =====
-- planificacion.c: a turn of round robin.
use sisoputnfrba_tp_2016_2c.Base.{
  ℕ, zero, suc, ◌+◌, ◌≡◌, Bool, true, false, List, [], ◌∷◌, ◌++◌, some, refl, ap, sym, ◌∙◌, ◌==◌,
  update, Bool-cases, ==_refl, inl, inr, subst, bind-some, some_inj,
}
use sisoputnfrba_tp_2016_2c.Mapas.State.{InfoPokemon, Entrenador, Mapa, Ambiente}
use sisoputnfrba_tp_2016_2c.Mapas.Solicitudes.{
  Respuesta, turno_normal, desconexion, capturo_pokemon, no_encontro_pokemon,
}
use sisoputnfrba_tp_2016_2c.Mapas.Solicitudes.Atencion.{atender_solicitud}
use sisoputnfrba_tp_2016_2c.Mapas.Solicitudes.Answers.{Atendio, Ordena}
use sisoputnfrba_tp_2016_2c.Mapas.Solicitudes.Atendidas.{atender_solicitud-Atendio}
use sisoputnfrba_tp_2016_2c.Mapas.Planificacion.{esta, bloquear_entrenador, liberar_recursos}
use sisoputnfrba_tp_2016_2c.Mapas.Turnos.{
  rafaga, si_sigue, es_turno_normal, tras_rafaga, ejecutar_rafaga_rr,
}
use sisoputnfrba_tp_2016_2c.Mapas.Cuentas.{Distintos, con_entrenadores, en_pokenests}

-- What a burst of requests of the trainer `id` keeps.
pub record Rafaga {S : Type 0} (id : ℕ) (m m' : Mapa S) : Type 0 where
  pub ajenos : (x : ℕ) → (x == id) ≡ false → m'.heap x ≡ m.heap x
  pub propio : (t' : Entrenador) × (m'.heap id ≡ some t') × (t'.id ≡ id)
  pub listos : m'.cola_listos ≡ m.cola_listos
  pub bloqueados : m'.cola_bloqueados ≡ m.cola_bloqueados
  pub mismos : m'.entrenadores ≡ m.entrenadores
  pub conserva :
      (q : InfoPokemon → Bool) (ids : List ℕ)
      → Distintos ids
      → esta id ids ≡ true
      → con_entrenadores q ids m'.heap + en_pokenests q m'.lista_pokenests
        ≡ con_entrenadores q ids m.heap + en_pokenests q m.lista_pokenests

module _ {S : Type 0} where
  Rafaga-seguida : (id : ℕ) (m m1 m' : Mapa S) → Rafaga id m m1 → Rafaga id m1 m' → Rafaga id m m'
  Rafaga-seguida id m m1 m' a b = record {
    ajenos = λ x o. b.ajenos x o ∙ a.ajenos x o;
    propio = b.propio;
    listos = b.listos ∙ a.listos;
    bloqueados = b.bloqueados ∙ a.bloqueados;
    mismos = b.mismos ∙ a.mismos;
    conserva = λ q ids d i. b.conserva q ids d i ∙ a.conserva q ids d i;
  }

  Atendio-Rafaga :
      (t : Entrenador) (m : Mapa S) (r : Respuesta) (m' : Mapa S)
      → Atendio t m r m'
      → Rafaga t.id m m'
  Atendio-Rafaga t m r m' a =
      let (t', h, i, s, g) = a.propio in
      record {
        ajenos = a.ajenos;
        propio = (t', h, i);
        listos = a.listos;
        bloqueados = a.bloqueados;
        mismos = a.mismos;
        conserva = a.conserva;
      }

module _ {S : Type 0} (e : Ambiente S) where
  -- A request, where the socket of the trainer is the one by which it is named.
  atender-Rafaga :
      (id : ℕ) (m : Mapa S) (t : Entrenador) (r : Respuesta × Mapa S)
      → Ordena e
      → m.heap id ≡ some t
      → t.id ≡ id
      → atender_solicitud e id m ≡ some r
      → Rafaga id m r.1
  atender-Rafaga id m t (r, m') o h i a =
      subst (λ x. Rafaga x m m') i
        (Atendio-Rafaga t m r m' (
          atender_solicitud-Atendio e t m r m' o (ap (λ x. m.heap x) i ∙ h)
            (ap (λ x. atender_solicitud e x m) i ∙ a)))

  rafaga-Rafaga :
      (q id : ℕ) (m : Mapa S) (t : Entrenador) (r : Respuesta × Mapa S)
      → Ordena e
      → m.heap id ≡ some t
      → t.id ≡ id
      → rafaga e q id m ≡ some r
      → Rafaga id m r.1
  unfolding rafaga
  rafaga-Rafaga zero id m t r o h i a = cc
  rafaga-Rafaga (suc zero) id m t r o h i a = atender-Rafaga id m t r o h i a
  rafaga-Rafaga (suc (suc q)) id m t r o h i a =
      let (r1, a1, a2) =
        bind-some (atender_solicitud e id m) (λ x. si_sigue e x λ m'. rafaga e (suc q) id m') r a in
      let p = atender-Rafaga id m t r1 o h i a1 in
      let (t', h', i') = p.propio in
      elim (Bool-cases (es_turno_normal e r1.0)) [
        | inl n ↦
            Rafaga-seguida id m r1.1 r.1 p (rafaga-Rafaga (suc q) id r1.1 t' r o h' i' (rw n at a2))
        | inr n ↦ subst (λ (x : Respuesta × Mapa S). Rafaga id m x.1) (some_inj r1 r (rw n at a2)) p
      ]

  -- How the turn of the trainer `id` ends when `m1` is the map after its burst, by the answer of the
  -- burst: it goes behind the others, or behind the blocked ones and its socket is watched, or it
  -- leaves.
  abbrev pub AlFinal : ℕ → List ℕ → Mapa S → Mapa S → Mapa S → Type 0
  AlFinal id xs m m1 m' =
      (m'.cola_listos ≡ xs ++ (id ∷ []))
      × (m'.cola_bloqueados ≡ m.cola_bloqueados)
      × (m'.heap ≡ m1.heap)
      × (m'.lista_pokenests ≡ m1.lista_pokenests)

  abbrev pub FinDeTurno : ℕ → ℕ → List ℕ → Respuesta → Mapa S → Mapa S → Mapa S → Type 0
  FinDeTurno k id xs turno_normal m m1 m' = AlFinal id xs m m1 m'
  FinDeTurno k id xs capturo_pokemon m m1 m' = AlFinal id xs m m1 m'
  FinDeTurno k id xs no_encontro_pokemon m m1 m' =
      (m'.cola_listos ≡ xs)
      × (m'.cola_bloqueados ≡ m.cola_bloqueados ++ (id ∷ []))
      × (m'.heap ≡ m1.heap)
      × (m'.lista_pokenests ≡ m1.lista_pokenests)
      × (m'.master id ≡ true)
  FinDeTurno k id xs desconexion m m1 m' =
      (m1.cola_listos ≡ xs)
      × (m1.cola_bloqueados ≡ m.cola_bloqueados)
      × (liberar_recursos e k id m1 ≡ some m')

  al_final_lem :
      (k id : ℕ) (xs : List ℕ) (m m1 m' : Mapa S)
      → Rafaga id (record m { cola_listos = xs }) m1
      → some (record m1 { cola_listos = m1.cola_listos ++ (id ∷ []) }) ≡ some m'
      → AlFinal id xs m m1 m'
  al_final_lem k id xs m m1 m' p h =
      let z = some_inj _ m' h in
      (
        sym (ap (λ x. x.cola_listos) z) ∙ ap (λ x. x ++ (id ∷ [])) p.listos,
        sym (ap (λ x. x.cola_bloqueados) z) ∙ p.bloqueados,
        sym (ap (λ x. x.heap) z),
        sym (ap (λ x. x.lista_pokenests) z),
      )

  tras_rafaga-FinDeTurno :
      (k id : ℕ) (xs : List ℕ) (r : Respuesta) (m m1 m' : Mapa S)
      → Rafaga id (record m { cola_listos = xs }) m1
      → tras_rafaga e k id r m1 ≡ some m'
      → FinDeTurno k id xs r m m1 m'
  unfolding tras_rafaga bloquear_entrenador
  tras_rafaga-FinDeTurno k id xs desconexion m m1 m' p h = (p.listos, p.bloqueados, h)
  tras_rafaga-FinDeTurno k id xs no_encontro_pokemon m m1 m' p h =
      let z = some_inj _ m' h in
      (
        sym (ap (λ x. x.cola_listos) z) ∙ p.listos,
        sym (ap (λ x. x.cola_bloqueados) z) ∙ ap (λ x. x ++ (id ∷ [])) p.bloqueados,
        sym (ap (λ x. x.heap) z),
        sym (ap (λ x. x.lista_pokenests) z),
        sym (ap (λ x. x.master id) z) ∙ vigilado m1.master,
      )
    where
      vigilado : (f : ℕ → Bool) → update f id true id ≡ true
      vigilado f = rw (==_refl id) refl
  tras_rafaga-FinDeTurno k id xs turno_normal m m1 m' p h = al_final_lem k id xs m m1 m' p h
  tras_rafaga-FinDeTurno k id xs capturo_pokemon m m1 m' p h = al_final_lem k id xs m m1 m' p h

  -- A turn of round robin that comes to its end, for the first trainer of the queue: its burst of the
  -- quantum ends with an answer, touches no other trainer, no queue and makes or loses no pokemon.
  -- Then the trainer goes to the end of the queue of those ready where the answer is TURNO_NORMAL or
  -- CAPTURO_POKEMON; to the end of that of those blocked, its socket watched, where it is
  -- NO_ENCONTRO_POKEMON; and where it is DESCONEXION, its resources are freed. The trainers behind it
  -- keep their order.
  pub ejecutar_rafaga_rr-FinDeTurno :
      (k id : ℕ) (xs : List ℕ) (t : Entrenador) (m m' : Mapa S)
      → Ordena e
      → m.cola_listos ≡ id ∷ xs
      → m.heap id ≡ some t
      → t.id ≡ id
      → ejecutar_rafaga_rr e k m ≡ some m'
      → (r : Respuesta × Mapa S) × (rafaga e e.quantum id (record m { cola_listos = xs }) ≡ some r)
        × Rafaga id (record m { cola_listos = xs }) r.1
        × FinDeTurno k id xs r.0 m r.1 m'
  unfolding ejecutar_rafaga_rr
  ejecutar_rafaga_rr-FinDeTurno k id xs t m m' o l h i a =
      let (r, a1, a2) =
        bind-some (rafaga e e.quantum id (record m { cola_listos = xs }))
          (λ r. tras_rafaga e k id r.0 r.1) m' (rw l at a) in
      let p = rafaga-Rafaga e.quantum id (record m { cola_listos = xs }) t r o h i a1 in
      (r, a1, p, tras_rafaga-FinDeTurno k id xs r.0 m r.1 m' p a2)
