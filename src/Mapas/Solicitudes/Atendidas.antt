-- ===== src/Mapas/Solicitudes/Atendidas.antt =====
-- solicitudes.c: what every request that atenderSolicitud has answered keeps.
use sisoputnfrba_tp_2016_2c.Base.{
  ℕ, ◌≡◌, Bool, true, List, [], ◌∷◌, ◌++◌, none, some, arith, refl, ap, sym, ◌∙◌, ◌==◌, ==_refl,
  inl, inr, subst,
}
use sisoputnfrba_tp_2016_2c.Mapas.State.{
  InfoPokemon, Entrenador, PokeNest, Mapa, Ambiente, con_entrenador,
}
use sisoputnfrba_tp_2016_2c.Mapas.Solicitudes.{
  Recibido, Respuesta, turno_normal, desconexion, capturo_pokemon, no_encontro_pokemon, mover,
  buscar_pokenest, primero,
}
use sisoputnfrba_tp_2016_2c.Mapas.Solicitudes.Atencion.{
  connection_recv, ubicar_pokenest, avanzar_posicion, atrapar_pokemon, atrapar_ultimo_pokemon,
  capturar, entregar, al_atrapar, si_pide_deadlocks, atender_codigo, con_recibido,
  atender_solicitud, ordenar, notificar_captura_pokemon, pokemon_de_menor_nombre,
}
use sisoputnfrba_tp_2016_2c.Mapas.Cuentas.{
  cuantos, de_entrenador, con_entrenadores-update, en_pokenests-cambiar, cuantos-append,
}
use sisoputnfrba_tp_2016_2c.Mapas.Solicitudes.Answers.{
  Segun, Atendio, Cumple, Ordena, Cumple-bind, Cumple-if, Cumple-map, Atendio-red, cambio-Atendio,
  igual-Atendio, mover-pokemons, mover-id, mover-simbolo,
}

module _ {S : Type 0} (e : Ambiente S) where
  ubicar-Atendio :
      (t : Entrenador) (i : ℕ) (m : Mapa S)
      → m.heap t.id ≡ some t
      → Cumple (Atendio t m) (ubicar_pokenest e t i m)
  unfolding ubicar_pokenest
  ubicar-Atendio t i m h = Cumple-bind (Atendio t m) (buscar_pokenest m.lista_pokenests i) _ λ n hn.
      cambio-Atendio t (record t { pokenest_buscada = i }) m _ turno_normal h refl refl refl refl

  avanzar-Atendio :
      (t : Entrenador) (d : ℕ) (m : Mapa S)
      → m.heap t.id ≡ some t
      → Cumple (Atendio t m) (avanzar_posicion e t d m)
  unfolding avanzar_posicion
  avanzar-Atendio t d m h =
      let p = mover-pokemons d t in
      cambio-Atendio t (mover d t) m _ turno_normal h (mover-id d t) (mover-simbolo d t) p p

  -- A capture, whatever the answer is and however much is received afterwards.
  capturar-Atendio :
      (t : Entrenador) (i : ℕ) (p : InfoPokemon) (ps : List InfoPokemon) (n : PokeNest) (m : Mapa S)
      (s : S) (r : Respuesta)
      → m.heap t.id ≡ some t
      → buscar_pokenest m.lista_pokenests i ≡ some n
      → ((q : InfoPokemon → Bool) → cuantos q (p ∷ ps) ≡ cuantos q n.lista_pokemons)
      → ((t' : Entrenador)
          → t'.pokemons ≡ t.pokemons ++ (p ∷ [])
          → t'.pokenest_buscada ≡ 0
          → Segun r t t')
      → Atendio t m r (record (capturar e t i p ps m) { red = s })
  unfolding capturar notificar_captura_pokemon
  capturar-Atendio t i p ps n m s r h hn o g =
      let t' : Entrenador = record t { pokemons = t.pokemons ++ (p ∷ []); pokenest_buscada = 0 } in
      record {
        ajenos = λ x o. rw o refl;
        propio = (t', rw (==_refl t.id) refl, refl, refl, g t' refl refl);
        listos = refl;
        bloqueados = refl;
        mismos = refl;
        conserva = λ q ids d b.
            let c = con_entrenadores-update q ids m.heap t.id (some t') d b in
            let f = ap (λ o. de_entrenador q o) h in
            let a = cuantos-append q t.pokemons (p ∷ []) in
            let l = en_pokenests-cambiar q (λ x. entregar e ps x) i m.lista_pokenests n hn in
            let k = o q in omega (arith, c, f, a, l, k);
      }

  atrapar-Atendio :
      (t : Entrenador) (i : ℕ) (m : Mapa S)
      → Ordena e
      → m.heap t.id ≡ some t
      → Cumple (Atendio t m) (atrapar_pokemon e t i m)
  unfolding atrapar_pokemon capturar notificar_captura_pokemon
  atrapar-Atendio t i m o h =
      Cumple-bind (Atendio t m) (buscar_pokenest m.lista_pokenests i) _
        λ n hn. con_lista (ordenar e n.lista_pokemons) n refl hn
    where
      con_lista :
          (xs : List InfoPokemon) (n : PokeNest)
          → ordenar e n.lista_pokemons ≡ xs
          → buscar_pokenest m.lista_pokenests i ≡ some n
          → Cumple (Atendio t m) (
              al_atrapar e xs
                (some (no_encontro_pokemon, m))
                λ p ps. some (capturo_pokemon, capturar e t i p ps m))
      con_lista [] n z hn = igual-Atendio t m no_encontro_pokemon h refl
      con_lista (p ∷ ps) n z hn =
          capturar-Atendio t i p ps n m m.red capturo_pokemon h hn
            (λ q. ap (λ x. cuantos q x) (sym z) ∙ o q (pokemon_de_menor_nombre e) n.lista_pokemons)
            (λ t' a b. (p, a, b))

  ultimo-Atendio :
      (t : Entrenador) (i : ℕ) (m : Mapa S)
      → Ordena e
      → m.heap t.id ≡ some t
      → Cumple (Atendio t m) (atrapar_ultimo_pokemon e t i m)
  unfolding atrapar_ultimo_pokemon
  ultimo-Atendio t i m o h =
      Cumple-bind (Atendio t m) (buscar_pokenest m.lista_pokenests i) _
        λ n hn. con_lista (ordenar e n.lista_pokemons) n refl hn
    where
      con_lista :
          (xs : List InfoPokemon) (n : PokeNest)
          → ordenar e n.lista_pokemons ≡ xs
          → buscar_pokenest m.lista_pokenests i ≡ some n
          → Cumple (Atendio t m) (
              al_atrapar e xs
                (some
                  (no_encontro_pokemon, con_entrenador t.id (record t { ultimo_pokemon = true }) m))
                λ p ps.
                  let m' = capturar e t i p ps m in
                  si_pide_deadlocks e
                    (connection_recv e t.id m'.red)
                    λ s. some (desconexion, record m' { red = s }))
      con_lista [] n z hn =
          cambio-Atendio t (record t { ultimo_pokemon = true }) m m.salidas no_encontro_pokemon h
            refl refl refl refl
      con_lista (p ∷ ps) n z hn =
          let m' = capturar e t i p ps m in
          let (r, s) = connection_recv e t.id m'.red in
          Cumple-bind (Atendio t m) r.operation_code _ λ op hop.
            Cumple-if (Atendio t m) (op == 12) _ none
              (capturar-Atendio t i p ps n m s desconexion h hn
                (λ q.
                  ap (λ x. cuantos q x) (sym z) ∙ o q (pokemon_de_menor_nombre e) n.lista_pokemons)
                (λ t' a b. inr (p, a, b)))
              tt

  codigo-Atendio :
      (t : Entrenador) (op : ℕ) (bs : List ℕ) (m : Mapa S)
      → Ordena e
      → m.heap t.id ≡ some t
      → Cumple (Atendio t m) (atender_codigo e t op bs m)
  unfolding atender_codigo
  codigo-Atendio t op bs m o h =
      let P = Atendio t m in
      Cumple-if P (op == 1) _ _ (ubicar-Atendio t (primero bs) m h) (
        Cumple-if P (op == 3) _ _ (avanzar-Atendio t (primero bs) m h) (
          Cumple-if P (op == 4) _ _ (atrapar-Atendio t (primero bs) m o h) (
            Cumple-if P (op == 11) _ _ (ultimo-Atendio t (primero bs) m o h)
              (igual-Atendio t m turno_normal h refl))))

  recibido-Atendio :
      (t : Entrenador) (r : Recibido) (m : Mapa S)
      → Ordena e
      → m.heap t.id ≡ some t
      → Cumple (Atendio t m) (con_recibido e t r m)
  recibido-Atendio t r m o h =
      let P = Atendio t m in
      Cumple-if P (r.ret == 0) _ _ (igual-Atendio t m desconexion h (inl refl)) (
        Cumple-bind P r.operation_code _
          λ op hop. Cumple-bind P r.message _ λ bs hbs. codigo-Atendio t op bs m o h)

  -- The answer to a request of the trainer `t`, whatever its socket brings, on every branch that
  -- does not end the process: no other trainer and no queue changes, the trainer keeps its socket
  -- and its symbol, a pokemon is added to its own exactly when the answer says so, and of every kind
  -- there are as many pokemons with the trainers and the PokeNests as before. `list_sort` is taken
  -- to keep the elements.
  pub atender_solicitud-Atendio :
      (t : Entrenador) (m : Mapa S) (r : Respuesta) (m' : Mapa S)
      → Ordena e
      → m.heap t.id ≡ some t
      → atender_solicitud e t.id m ≡ some (r, m')
      → Atendio t m r m'
  unfolding atender_solicitud
  atender_solicitud-Atendio t m r m' o h a = subst (λ x. Cumple (Atendio t m) x) a (rw h todo)
    where
      todo : Cumple (Atendio t m) (
          con_recibido e t
            (connection_recv e t.id m.red).0
            (record m { red = (connection_recv e t.id m.red).1 }))
      todo =
          let s = (connection_recv e t.id m.red).1 in
          Cumple-map (Atendio t (record m { red = s })) (Atendio t m) _
            (λ x y z. Atendio-red t m s x y z)
            (recibido-Atendio t (connection_recv e t.id m.red).0 (record m { red = s }) o h)
