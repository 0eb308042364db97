-- ===== src/Mapas/Turnos/Contadas.antt =====
-- The counter of a PokeNest and the list of its pokemons, through every turn of planificacion.c.
use sisoputnfrba_tp_2016_2c.Base.{
  Vale, Vale-bind, Vale-if, Vale-some, ℕ, zero, suc, ◌≡◌, List, [], ◌∷◌, Option, none, some, ◌>>=◌,
  strcmp,
}
use sisoputnfrba_tp_2016_2c.Mapas.State.{Mapa, Ambiente}
use sisoputnfrba_tp_2016_2c.Mapas.Solicitudes.{
  Respuesta, turno_normal, desconexion, capturo_pokemon, no_encontro_pokemon,
}
use sisoputnfrba_tp_2016_2c.Mapas.Solicitudes.Atencion.{atender_solicitud}
use sisoputnfrba_tp_2016_2c.Mapas.Solicitudes.Answers.{Ordena}
use sisoputnfrba_tp_2016_2c.Mapas.Planificacion.{bloquear_entrenador}
use sisoputnfrba_tp_2016_2c.Mapas.Turnos.{
  tras_rafaga, es_turno_normal, rafaga, al_sacar, ejecutar_rafaga_rr, hasta_respuesta, tras_srdf,
  sacar, con_menor_distancia, turno_mas_cercano, al_elegir, si_hay_listos, ejecutar_rafaga_srdf,
  sin_objetivo, planificar,
}
use sisoputnfrba_tp_2016_2c.Mapas.Solicitudes.Contadas.{
  Contadas, Bien, BienTras, atender_solicitud-Bien,
}
use sisoputnfrba_tp_2016_2c.Mapas.Planificacion.Contadas.{liberar_recursos-Bien}

module _ {S : Type 0} (e : Ambiente S) where
  tras_rafaga-Bien :
      (k id : ℕ) (r : Respuesta) (m : Mapa S) → Bien m → Vale Bien (tras_rafaga e k id r m)
  unfolding tras_rafaga bloquear_entrenador
  tras_rafaga-Bien k id desconexion m c = liberar_recursos-Bien e k id m c
  tras_rafaga-Bien k id no_encontro_pokemon m c = c
  tras_rafaga-Bien k id turno_normal m c = c
  tras_rafaga-Bien k id capturo_pokemon m c = c

  tras_srdf-Bien :
      (k id : ℕ) (r : Respuesta) (m : Mapa S) → Bien m → Vale Bien (tras_srdf e k id r m)
  unfolding tras_srdf bloquear_entrenador
  tras_srdf-Bien k id desconexion m c = liberar_recursos-Bien e k id m c
  tras_srdf-Bien k id no_encontro_pokemon m c = c
  tras_srdf-Bien k id turno_normal m c = c
  tras_srdf-Bien k id capturo_pokemon m c = c

  rafaga-Bien : (q id : ℕ) (m : Mapa S) → Ordena e → Bien m → Vale BienTras (rafaga e q id m)
  unfolding rafaga
  rafaga-Bien zero id m o c = tt
  rafaga-Bien (suc zero) id m o c = atender_solicitud-Bien e id m o c
  rafaga-Bien (suc (suc q)) id m o c =
      let a = atender_solicitud e id m in
      let go = λ (m' : Mapa S) (b : Bien m'). rafaga-Bien (suc q) id m' o b in
      Vale-bind BienTras a _ λ r h.
        let b = Vale-some BienTras a r (atender_solicitud-Bien e id m o c) h in
        Vale-if BienTras (es_turno_normal e r.0) _ (some r) (go r.1 b) b

  hasta_respuesta-Bien :
      (n id : ℕ) (m : Mapa S) → Ordena e → Bien m → Vale BienTras (hasta_respuesta e n id m)
  unfolding hasta_respuesta
  hasta_respuesta-Bien zero id m o c = tt
  hasta_respuesta-Bien (suc n) id m o c =
      let a = atender_solicitud e id m in
      let go = λ (m' : Mapa S) (b : Bien m'). hasta_respuesta-Bien n id m' o b in
      Vale-bind BienTras a _ λ r h.
        let b = Vale-some BienTras a r (atender_solicitud-Bien e id m o c) h in
        Vale-if BienTras (es_turno_normal e r.0) _ (some r) (go r.1 b) b

  rr-Bien :
      (k : ℕ) (xs : List ℕ) (m : Mapa S)
      → Ordena e
      → Bien m
      → Vale Bien
          (al_sacar e xs m λ id m1. rafaga e e.quantum id m1 >>= λ r. tras_rafaga e k id r.0 r.1)
  rr-Bien k [] m o c = c
  rr-Bien k (id ∷ xs) m o c =
      let m1 : Mapa S = record m { cola_listos = xs } in
      let a = rafaga e e.quantum id m1 in
      Vale-bind Bien a _ λ r h.
        tras_rafaga-Bien k id r.0 r.1 (Vale-some BienTras a r (rafaga-Bien e.quantum id m1 o c) h)

  mas_cercano-Bien :
      (k n : ℕ) (m : Mapa S) → Ordena e → Bien m → Vale Bien (turno_mas_cercano e k n m)
  unfolding turno_mas_cercano
  mas_cercano-Bien k n m o c = Vale-bind Bien (con_menor_distancia e m) _ λ id h0.
      let a = hasta_respuesta e n id (sacar e id m) in
      Vale-bind Bien a _ λ r h.
        tras_srdf-Bien k id r.0 r.1
          (Vale-some BienTras a r (hasta_respuesta-Bien n id (sacar e id m) o c) h)

  si_hay_listos-Bien :
      (xs : List ℕ) (m : Mapa S) (x : Option (Mapa S))
      → Bien m
      → Vale Bien x
      → Vale Bien (si_hay_listos e xs m x)
  si_hay_listos-Bien [] m x c h = c
  si_hay_listos-Bien (y ∷ ys) m x c h = h

  elegir-Bien :
      (k : ℕ) (q : Option ℕ) (m : Mapa S) (x : Option (Mapa S))
      → Ordena e
      → Bien m
      → Vale Bien x
      → Vale Bien (
          al_elegir e q
            (λ id. atender_solicitud e id (sacar e id m) >>= λ r. tras_rafaga e k id r.0 r.1)
            x)
  elegir-Bien k none m x o c h = h
  elegir-Bien k (some id) m x o c h =
      let a = atender_solicitud e id (sacar e id m) in
      Vale-bind Bien a _ λ r g.
        tras_rafaga-Bien k id r.0 r.1
          (Vale-some BienTras a r (atender_solicitud-Bien e id (sacar e id m) o c) g)

  planificar-Vale : (k n : ℕ) (m : Mapa S) → Ordena e → Bien m → Vale Bien (planificar e k n m)
  unfolding planificar ejecutar_rafaga_rr ejecutar_rafaga_srdf
  planificar-Vale k n m o c =
      Vale-if Bien (strcmp e.algoritmo (82 ∷ 82 ∷ [])) _ _ (rr-Bien k m.cola_listos m o c) (
        Vale-bind Bien (sin_objetivo m.heap m.cola_listos) _ λ q h.
          elegir-Bien k q m _ o c
            (si_hay_listos-Bien m.cola_listos m _ c (mas_cercano-Bien k n m o c)))

  -- Every turn that comes to its end, of round robin and of SRDF, with whatever the trainers send,
  -- and also when a trainer leaves, keeps the counter of each PokeNest at the length of the list of
  -- its pokemons, in the eight bits of the counter. `list_sort` is taken to keep the elements.
  pub planificar-Contadas :
      (k n : ℕ) (m m' : Mapa S)
      → Ordena e
      → Contadas m.lista_pokenests
      → planificar e k n m ≡ some m'
      → Contadas m'.lista_pokenests
  planificar-Contadas k n m m' o c h =
      Vale-some Bien (planificar e k n m) m' (planificar-Vale k n m o c) h
