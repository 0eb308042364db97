-- ===== src/Mapas/Planificacion/Contadas.antt =====
-- The counter of a PokeNest and the list of its pokemons, through liberarRecursos2.
use sisoputnfrba_tp_2016_2c.Base.{
  Vale, Vale-bind, Vale-if, Vale-some, ℕ, zero, suc, Bool, true, false, List, [], ◌∷◌, Option, none,
  some, ◌==◌, ◌>>=◌, drop,
}
use sisoputnfrba_tp_2016_2c.Mapas.State.{InfoPokemon, Entrenador, Mapa, Ambiente, con_entrenador}
use sisoputnfrba_tp_2016_2c.Mapas.Solicitudes.{buscar_pokenest}
use sisoputnfrba_tp_2016_2c.Mapas.Solicitudes.Atencion.{connection_recv, notificar_captura_pokemon}
use sisoputnfrba_tp_2016_2c.Mapas.Planificacion.{
  quitar_simbolo, liberar_entrenador, desbloquear_entrenador, recibir_pokemon, devolver_pokemon,
  con_pokemon, en_posicion, al_pedir_deadlocks, al_capturar, con_bloqueado, si_hay, asignar,
  si_asignado, soltar_pokemon, por_pokemon, liberar_recursos,
}
use sisoputnfrba_tp_2016_2c.Mapas.Solicitudes.Contadas.{
  Bien, cambiar-Contadas, recibir_pokemon-Contada,
}

module _ {S : Type 0} (e : Ambiente S) where
  abbrev BienPar : Bool × Mapa S → Type 0
  BienPar r = Bien r.1

  al_capturar-Bien :
      (lib : ℕ → Mapa S → Option (Mapa S)) (b : ℕ) (u : Bool) (m : Mapa S)
      (sigue : Mapa S → Option (Bool × Mapa S))
      → ((x : ℕ) (y : Mapa S) → Bien y → Vale Bien (lib x y))
      → ((y : Mapa S) → Bien y → Vale BienPar (sigue y))
      → Bien m
      → Vale BienPar (al_capturar e lib b u m sigue)
  unfolding desbloquear_entrenador
  al_capturar-Bien lib b true m sigue hl hs c =
      let (r, s) = connection_recv e b m.red in
      Vale-bind BienPar (al_pedir_deadlocks e (r, s) λ s'. lib b (record m { red = s' })) sigue
        λ y hy. hs y (
          Vale-some Bien (al_pedir_deadlocks e (r, s) λ s'. lib b (record m { red = s' })) y
            (Vale-bind Bien r.operation_code _
              λ op h. Vale-if Bien (op == 12) _ none (hl b (record m { red = s }) c) tt)
            hy)
  al_capturar-Bien lib b false m sigue hl hs c = c

  asignar-Bien :
      (lib : ℕ → Mapa S → Option (Mapa S)) (p : InfoPokemon) (k i : ℕ) (m : Mapa S)
      → ((x : ℕ) (y : Mapa S) → Bien y → Vale Bien (lib x y))
      → Bien m
      → Vale BienPar (asignar e lib p k i m)
  unfolding asignar notificar_captura_pokemon
  asignar-Bien lib p zero i m hl c = tt
  asignar-Bien lib p (suc k) i m hl c =
      con_alguno (en_posicion (drop i m.cola_bloqueados)) λ y b. asignar-Bien lib p k (suc i) y hl b
    where
      con_alguno :
          (o : Option ℕ)
          → ((y : Mapa S) → Bien y → Vale BienPar (asignar e lib p k (suc i) y))
          → Vale BienPar (
              si_hay e o
                (λ b. con_bloqueado e lib p b m λ m'. asignar e lib p k (suc i) m')
                (some (false, m)))
      con_alguno none f = c
      con_alguno (some b) f = Vale-bind BienPar (m.heap b) _ λ t h.
          Vale-if BienPar (t.pokenest_buscada == p.id_pokenest) _ _
            (al_capturar-Bien lib b t.ultimo_pokemon
              (notificar_captura_pokemon e p (con_pokemon p t) m) _ hl f c)
            (f m c)

  soltar_pokemon-Bien :
      (lib : ℕ → Mapa S → Option (Mapa S)) (k : ℕ) (p : InfoPokemon) (m : Mapa S)
      → ((x : ℕ) (y : Mapa S) → Bien y → Vale Bien (lib x y))
      → Bien m
      → Vale Bien (soltar_pokemon e lib k p m)
  unfolding soltar_pokemon devolver_pokemon
  soltar_pokemon-Bien lib k p m hl c =
      Vale-bind Bien (asignar e lib p k 0 m) _ λ r h.
        tras r (Vale-some BienPar (asignar e lib p k 0 m) r (asignar-Bien lib p k 0 m hl c) h)
    where
      tras : (r : Bool × Mapa S) → BienPar r → Vale Bien (si_asignado e p r)
      tras (true, m') b = b
      tras (false, m') b =
          Vale-bind Bien (buscar_pokenest m'.lista_pokenests p.id_pokenest) _ λ n h.
            cambiar-Contadas (λ x. recibir_pokemon p x) p.id_pokenest m'.lista_pokenests b
              λ x hx cx. recibir_pokemon-Contada p x cx

  pub liberar_recursos-Bien :
      (k id : ℕ) (m : Mapa S) → Bien m → Vale Bien (liberar_recursos e k id m)
  unfolding liberar_recursos liberar_entrenador
  liberar_recursos-Bien zero id m c = tt
  liberar_recursos-Bien (suc k) id m c =
      Vale-bind Bien (m.heap id) _
        λ t h. con_lista t t.pokemons (λ x y b. liberar_recursos-Bien k x y b)
    where
      con_lista :
          (t : Entrenador) (ps : List InfoPokemon)
          → ((x : ℕ) (y : Mapa S) → Bien y → Vale Bien (liberar_recursos e k x y))
          → Vale Bien (
              por_pokemon e ps (liberar_entrenador id m) λ p qs. do
                m' ←
                    soltar_pokemon e
                      (λ b x. liberar_recursos e k b x)
                      k
                      p
                      (con_entrenador id (record t { pokemons = qs }) m)
                liberar_recursos e k id m')
      con_lista t [] hl =
          Vale-bind Bien (m.heap id) _
            λ u h. Vale-bind Bien (quitar_simbolo m.heap u.simbolo false m.entrenadores) _ λ es g. c
      con_lista t (p ∷ qs) hl =
          let m0 = con_entrenador id (record t { pokemons = qs }) m in
          let o = soltar_pokemon e (λ b x. liberar_recursos e k b x) k p m0 in
          Vale-bind Bien o _ λ m' g. hl id m' (
            Vale-some Bien o m' (soltar_pokemon-Bien (λ b x. liberar_recursos e k b x) k p m0 hl c)
              g)
