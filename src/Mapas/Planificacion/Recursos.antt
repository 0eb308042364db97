-- ===== src/Mapas/Planificacion/Recursos.antt =====
-- planificacion.c: liberarRecursos2 when no blocked trainer waits for its last pokemon.
use sisoputnfrba_tp_2016_2c.Base.{
  ℕ, zero, suc, ◌+◌, ◌<◌, ◌≤◌, ◌≡◌, Bool, true, false, List, [], ◌∷◌, Option, some, arith, refl, ap,
  sym, ◌∙◌, ◌==◌, Bool-cases, ==_iff, ◌⊎◌, inl, inr, subst, length, drop,
}
use sisoputnfrba_tp_2016_2c.Mapas.State.{InfoPokemon, Entrenador, PokeNest, Mapa, Ambiente}
use sisoputnfrba_tp_2016_2c.Mapas.Solicitudes.{buscar_pokenest}
use sisoputnfrba_tp_2016_2c.Mapas.Solicitudes.Atencion.{notificar_captura_pokemon}
use sisoputnfrba_tp_2016_2c.Mapas.Planificacion.{
  esta, con_pokemon, desbloquear_entrenador, asignar, devolver_pokemon, recibir_pokemon, devuelto,
}
use sisoputnfrba_tp_2016_2c.Mapas.Planificacion.Colas.{
  drop-cases, veces, esta-otro, veces-append, veces-quitar, esta-quitar, esta-quitar-true,
  length-quitar, buscar-cambiar,
}
use sisoputnfrba_tp_2016_2c.Mapas.Cuentas.{
  Distintos, uno, de_entrenador, con_entrenadores, en_pokenests, cuantos-append,
  con_entrenadores-update, en_pokenests-cambiar,
}

module _ {S : Type 0} (e : Ambiente S) where
  -- The blocked trainers are allocated under their sockets, and none waits for its last pokemon.
  abbrev pub Esperan : Mapa S → Type 0
  Esperan m =
      (b : ℕ)
      → esta b m.cola_bloqueados ≡ true
      → (u : Entrenador) × (m.heap b ≡ some u) × (u.id ≡ b) × (u.ultimo_pokemon ≡ false)

  -- The blocked trainer `b` gets the pokemon.
  abbrev pub dado : InfoPokemon → ℕ → Entrenador → Mapa S → Mapa S
  dado p b u m = desbloquear_entrenador b (notificar_captura_pokemon e p (con_pokemon p u) m)

  -- The pokemon goes to a blocked trainer that asks for its PokeNest, or nobody gets it.
  abbrev pub Asignado : (ℕ → Mapa S → Option (Mapa S)) → InfoPokemon → ℕ → ℕ → Mapa S → Type 0
  Asignado lib p k i m =
      (asignar e lib p k i m ≡ some (false, m))
      ⊎ ((b : ℕ) × (u : Entrenador) × (esta b m.cola_bloqueados ≡ true)
          × (m.heap b ≡ some u)
          × (u.id ≡ b)
          × (u.ultimo_pokemon ≡ false)
          × (asignar e lib p k i m ≡ some (true, dado p b u m)))

  pub asignar-Asignado :
      (lib : ℕ → Mapa S → Option (Mapa S)) (p : InfoPokemon) (k i : ℕ) (m : Mapa S)
      → Esperan m
      → length (drop i m.cola_bloqueados) < k
      → Asignado lib p k i m
  unfolding asignar
  asignar-Asignado lib p zero i m w l = absurd (omega arith)
  asignar-Asignado lib p (suc k) i m w l = elim (drop-cases i m.cola_bloqueados) [
    | inl e0 ↦ inl (rw e0 refl)
    | inr (b, ys, e1, e2, h) ↦
        let (u, hu, id, ul) = w b h in
        let n = ap (λ x. length x) e1 in
        let n' = ap (λ x. length x) e2 in
        elim (Bool-cases (u.pokenest_buscada == p.id_pokenest)) [
          | inl s ↦ inr (b, u, h, hu, id, ul, rw e1 (rw hu (rw s (rw ul refl))))
          | inr s ↦ elim (asignar-Asignado lib p k (suc i) m w (omega arith)) [
            | inl r ↦ inl (rw e1 (rw hu (rw s r)))
            | inr (b', u', h', hu', id', ul', r) ↦
                inr (b', u', h', hu', id', ul', rw e1 (rw hu (rw s r)))
          ]
        ]
  ]

-- What giving up the pokemon `p` keeps: the other trainers, who they are, the queues as a whole,
-- and the pokemons of every kind.
pub record Soltado {S : Type 0} (e : Ambiente S) (p : InfoPokemon) (m m' : Mapa S) : Type 0 where
  pub ajenos : (x : ℕ) → esta x m.cola_bloqueados ≡ false → m'.heap x ≡ m.heap x
  pub vivos :
      (x : ℕ) (t : Entrenador)
      → m.heap x ≡ some t
      → (t' : Entrenador) × (m'.heap x ≡ some t') × (t'.simbolo ≡ t.simbolo)
  pub esperan : Esperan e m'
  pub no_bloqueados : (x : ℕ) → esta x m.cola_bloqueados ≡ false → esta x m'.cola_bloqueados ≡ false
  pub bloqueados_menos : length m'.cola_bloqueados ≤ length m.cola_bloqueados
  pub colas :
      (x : ℕ)
      → veces x m'.cola_listos + veces x m'.cola_bloqueados
        ≡ veces x m.cola_listos + veces x m.cola_bloqueados
  pub mismos : m'.entrenadores ≡ m.entrenadores
  pub pokenests :
      (j : ℕ) (n : PokeNest)
      → buscar_pokenest m.lista_pokenests j ≡ some n
      → (n' : PokeNest) × (buscar_pokenest m'.lista_pokenests j ≡ some n')
  pub conserva :
      (q : InfoPokemon → Bool) (ids : List ℕ)
      → Distintos ids
      → ((x : ℕ) → esta x m.cola_bloqueados ≡ true → esta x ids ≡ true)
      → con_entrenadores q ids m'.heap + en_pokenests q m'.lista_pokenests
        ≡ (con_entrenadores q ids m.heap + en_pokenests q m.lista_pokenests) + uno q p

module _ {S : Type 0} (e : Ambiente S) where
  pub devolver-Soltado :
      (p : InfoPokemon) (m : Mapa S) (n : PokeNest)
      → Esperan e m
      → buscar_pokenest m.lista_pokenests p.id_pokenest ≡ some n
      → (m' : Mapa S) × (devolver_pokemon p m ≡ some m') × Soltado e p m m'
  unfolding devolver_pokemon
  devolver-Soltado p m n w h = (
    devuelto p m,
    rw h refl,
    record {
      ajenos = λ x l. refl;
      vivos = λ x t g. (t, g, refl);
      esperan = w;
      no_bloqueados = λ x l. l;
      bloqueados_menos = omega arith;
      colas = λ x. refl;
      mismos = refl;
      pokenests = λ j n' g.
          buscar-cambiar (λ x. recibir_pokemon p x) p.id_pokenest j m.lista_pokenests n' (λ x. refl)
            g;
      conserva = λ q ids d i.
          let c =
            en_pokenests-cambiar q (λ x. recibir_pokemon p x) p.id_pokenest m.lista_pokenests n h in
          let a = cuantos-append q n.lista_pokemons (p ∷ []) in omega arith;
    },
  )

  pub dado-Soltado :
      (p : InfoPokemon) (b : ℕ) (u : Entrenador) (m : Mapa S)
      → Esperan e m
      → esta b m.cola_bloqueados ≡ true
      → m.heap b ≡ some u
      → u.id ≡ b
      → u.ultimo_pokemon ≡ false
      → Soltado e p m (dado e p b u m)
  unfolding desbloquear_entrenador notificar_captura_pokemon
  dado-Soltado p b u m w h hu hi ul = record {
    ajenos = λ x l. let o = ap (λ i. x == i) hi ∙ esta-otro b x m.cola_bloqueados h l in rw o refl;
    vivos = λ x t g. elim (Bool-cases (x == u.id)) [
      | inl o ↦
          let k : t ≡ u = misma_celda x t g o in
          (
            record (con_pokemon p u) { pokenest_buscada = 0 },
            rw o refl,
            ap (λ y. y.simbolo) (sym k),
          )
      | inr o ↦ (t, rw o g, refl)
    ];
    esperan = λ x l. elim (Bool-cases (x == u.id)) [
      | inl o ↦ (
        record (con_pokemon p u) { pokenest_buscada = 0 },
        rw o refl,
        sym ((==_iff x u.id).0 o),
        ul,
      )
      | inr o ↦
          let (u', hu', hi', ul') = w x (esta-quitar-true b x m.cola_bloqueados l) in
          (u', rw o hu', hi', ul')
    ];
    no_bloqueados = λ x l. esta-quitar b x m.cola_bloqueados l;
    bloqueados_menos = length-quitar b m.cola_bloqueados;
    colas = λ x.
        let c = veces-quitar b x m.cola_bloqueados h in
        let a = veces-append x m.cola_listos (b ∷ []) in omega (arith, c, a);
    mismos = refl;
    pokenests = λ j n g. (n, g);
    conserva = λ q ids d i.
        let h' = subst (λ j. esta j ids ≡ true) (sym hi) (i b h) in
        let v = ap (λ o. de_entrenador q o) (ap (λ j. m.heap j) hi ∙ hu) in
        let c =
          con_entrenadores-update q ids m.heap u.id
            (some (record (con_pokemon p u) { pokenest_buscada = 0 })) d h' in
        let a = cuantos-append q u.pokemons (p ∷ []) in omega (arith, v, c, a);
  }
    where
      misma_celda : (x : ℕ) (t : Entrenador) → m.heap x ≡ some t → (x == u.id) ≡ true → t ≡ u
      misma_celda x t g o = let k = ap (λ y. m.heap y) ((==_iff x u.id).0 o ∙ hi) in ground arith
