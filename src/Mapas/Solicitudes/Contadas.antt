-- ===== src/Mapas/Solicitudes/Contadas.antt =====
-- The counter of a PokeNest and the list of its pokemons: what it says, and atenderSolicitud.
use sisoputnfrba_tp_2016_2c.Base.{
  Vale, Vale-bind, Vale-if, ℕ, ◌%◌, ◌≡◌, true, List, [], ◌∷◌, Option, none, some, arith, refl, ap,
  sym, ◌∙◌, ◌==◌, Bool-cases, length, length-append, some_inj, inl, inr,
}
use sisoputnfrba_tp_2016_2c.Mapas.State.{InfoPokemon, Entrenador, PokeNest, Mapa, Ambiente}
use sisoputnfrba_tp_2016_2c.Mapas.Solicitudes.{
  Respuesta, desconexion, capturo_pokemon, no_encontro_pokemon, buscar_pokenest, cambiar_pokenest,
  primero,
}
use sisoputnfrba_tp_2016_2c.Mapas.Solicitudes.Atencion.{
  connection_recv, notificar_captura_pokemon, ubicar_pokenest, avanzar_posicion, atrapar_pokemon,
  atrapar_ultimo_pokemon, capturar, entregar, al_atrapar, si_pide_deadlocks, atender_codigo,
  atender_solicitud, ordenar, pokemon_de_menor_nombre,
}
use sisoputnfrba_tp_2016_2c.Mapas.Solicitudes.Answers.{Ordena}
use sisoputnfrba_tp_2016_2c.Mapas.Planificacion.{recibir_pokemon}
use sisoputnfrba_tp_2016_2c.Mapas.Cuentas.{cuantos}

-- `cantidad` is the length of the list, in the eight bits of a `char`.
abbrev pub Contada : PokeNest → Type 0
Contada n = n.cantidad ≡ length n.lista_pokemons % 256

abbrev pub Contadas : List PokeNest → Type 0
Contadas [] = Unit {0}
Contadas (n ∷ ns) = Contada n × Contadas ns

pub cambiar-Contadas :
    (f : PokeNest → PokeNest) (id : ℕ) (ns : List PokeNest)
    → Contadas ns
    → ((n : PokeNest) → buscar_pokenest ns id ≡ some n → Contada n → Contada (f n))
    → Contadas (cambiar_pokenest f id ns)
unfolding buscar_pokenest cambiar_pokenest
cambiar-Contadas f id [] c h = tt
cambiar-Contadas f id (n ∷ ns) (c, cs) h = elim (Bool-cases (n.id == id)) [
  | inl e ↦ rw e (h n (rw e refl) c, cs)
  | inr e ↦ rw e (c, cambiar-Contadas f id ns cs λ x hx. h x (rw e hx))
]

cuantos-length : (ps : List InfoPokemon) → cuantos (λ p. true) ps ≡ length ps
cuantos-length [] = refl
cuantos-length (p ∷ ps) = omega (arith, cuantos-length ps)

pub recibir_pokemon-Contada :
    (p : InfoPokemon) (n : PokeNest) → Contada n → Contada (recibir_pokemon p n)
recibir_pokemon-Contada p n c =
    let l = length-append n.lista_pokemons (p ∷ []) in omega (arith, c, l)

module _ {S : Type 0} where
  abbrev pub Bien : Mapa S → Type 0
  Bien m = Contadas m.lista_pokenests

  abbrev pub BienTras : Respuesta × Mapa S → Type 0
  BienTras r = Bien r.1

module _ {S : Type 0} (e : Ambiente S) where
  capturar-Bien :
      (t : Entrenador) (i : ℕ) (m : Mapa S) (n : PokeNest) (p : InfoPokemon) (ps : List InfoPokemon)
      → Ordena e
      → Bien m
      → buscar_pokenest m.lista_pokenests i ≡ some n
      → ordenar e n.lista_pokemons ≡ p ∷ ps
      → Bien (capturar e t i p ps m)
  unfolding capturar notificar_captura_pokemon
  capturar-Bien t i m n p ps o c hn z =
      cambiar-Contadas (λ x. entregar e ps x) i m.lista_pokenests c
        λ x hx cx.
          let k = some_inj x n (sym hx ∙ hn) in
          let q = o (λ y. true) (pokemon_de_menor_nombre e) n.lista_pokemons in
          let l = ap (λ y. length y.lista_pokemons) k in
          let a = cuantos-length n.lista_pokemons in
          let b = ap (λ ys. cuantos (λ y. true) ys) z in
          let d = cuantos-length (p ∷ ps) in omega (arith, cx, q, l, a, b, d)

  atrapar-Bien :
      (t : Entrenador) (i : ℕ) (m : Mapa S) (n : PokeNest) (xs : List InfoPokemon)
      (sin : Option (Respuesta × Mapa S)) (con : Mapa S → Option (Respuesta × Mapa S))
      → Ordena e
      → Bien m
      → buscar_pokenest m.lista_pokenests i ≡ some n
      → ordenar e n.lista_pokemons ≡ xs
      → Vale BienTras sin
      → ((x : Mapa S) → Bien x → Vale BienTras (con x))
      → Vale BienTras (al_atrapar e xs sin λ p ps. con (capturar e t i p ps m))
  atrapar-Bien t i m n [] sin con o c hn z s f = s
  atrapar-Bien t i m n (p ∷ ps) sin con o c hn z s f =
      f (capturar e t i p ps m) (capturar-Bien t i m n p ps o c hn z)

  atender_codigo-Bien :
      (t : Entrenador) (op : ℕ) (bs : List ℕ) (m : Mapa S)
      → Ordena e
      → Bien m
      → Vale BienTras (atender_codigo e t op bs m)
  unfolding atender_codigo ubicar_pokenest avanzar_posicion atrapar_pokemon atrapar_ultimo_pokemon
  atender_codigo-Bien t op bs m o c =
      let i = primero bs in
      Vale-if BienTras (op == 1) _ _
        (Vale-bind BienTras (buscar_pokenest m.lista_pokenests i) _ λ n h. c)
        (Vale-if BienTras (op == 3) _ _ c (
          Vale-if BienTras (op == 4) _ _
            (Vale-bind BienTras (buscar_pokenest m.lista_pokenests i) _ λ n h.
              atrapar-Bien t i m n (ordenar e n.lista_pokemons) (some (no_encontro_pokemon, m))
                (λ x. some (capturo_pokemon, x)) o c h refl c (λ x b. b))
            (Vale-if BienTras (op == 11) _ _
              (Vale-bind BienTras (buscar_pokenest m.lista_pokenests i) _ λ n h.
                atrapar-Bien t i m n (ordenar e n.lista_pokemons) _
                  (λ x.
                    si_pide_deadlocks e (connection_recv e t.id x.red)
                      λ s. some (desconexion, record x { red = s }))
                  o c h refl c (λ x b. pide-Bien t x b))
              c)))
    where
      pide-Bien :
          (t : Entrenador) (x : Mapa S)
          → Bien x
          → Vale BienTras (
              si_pide_deadlocks e
                (connection_recv e t.id x.red)
                λ s. some (desconexion, record x { red = s }))
      pide-Bien t x b =
          Vale-bind BienTras (connection_recv e t.id x.red).0.operation_code _
            λ op h. Vale-if BienTras (op == 12) _ none b tt

  pub atender_solicitud-Bien :
      (id : ℕ) (m : Mapa S) → Ordena e → Bien m → Vale BienTras (atender_solicitud e id m)
  unfolding atender_solicitud
  atender_solicitud-Bien id m o c = Vale-bind BienTras (m.heap id) _ λ t h.
      let (r, s) = connection_recv e t.id m.red in
      Vale-if BienTras (r.ret == 0) _ _ c (
        Vale-bind BienTras r.operation_code _ λ op h1.
          Vale-bind BienTras r.message _
            λ bs h2. atender_codigo-Bien t op bs (record m { red = s }) o c)
