-- ===== src/Mapas/Planificacion/Liberar.antt =====
-- planificacion.c: liberarRecursos2 as a whole, when no blocked trainer waits for its last pokemon.
use sisoputnfrba_tp_2016_2c.Base.{
  ℕ, zero, suc, ◌+◌, ◌<◌, ◌≡◌, Bool, true, false, List, [], ◌∷◌, Option, none, some, arith, refl,
  ap, ◌∙◌, ◌==◌, if◌then◌else◌, update, Bool-cases, ==_iff, ==_refl, inl, inr, subst, length,
}
use sisoputnfrba_tp_2016_2c.Mapas.State.{
  InfoPokemon, Entrenador, PokeNest, Mapa, Ambiente, con_entrenador, con_salida, borra_item,
}
use sisoputnfrba_tp_2016_2c.Mapas.Solicitudes.{buscar_pokenest}
use sisoputnfrba_tp_2016_2c.Mapas.Planificacion.{
  esta, soltar_pokemon, liberar_recursos, liberar_entrenador, quitar_simbolo,
}
use sisoputnfrba_tp_2016_2c.Mapas.Planificacion.Colas.{veces}
use sisoputnfrba_tp_2016_2c.Mapas.Planificacion.Recursos.{
  Esperan, Soltado, asignar-Asignado, dado, dado-Soltado, devolver-Soltado,
}
use sisoputnfrba_tp_2016_2c.Mapas.Cuentas.{
  Distintos, cuantos, de_entrenador, con_entrenadores, en_pokenests, con_entrenadores-update,
}

-- Every trainer in the list is allocated.
abbrev pub Vivos : List ℕ → (ℕ → Option Entrenador) → Type 0
Vivos xs heap = (x : ℕ) → esta x xs ≡ true → (t : Entrenador) × (heap x ≡ some t)

-- The PokeNests of some pokemons are on the map.
abbrev pub Conocidos : List PokeNest → List InfoPokemon → Type 0
Conocidos ns [] = Unit {0}
Conocidos ns (p ∷ ps) =
    ((n : PokeNest) × (buscar_pokenest ns p.id_pokenest ≡ some n)) × Conocidos ns ps

quitar_simbolo-some :
    (heap : ℕ → Option Entrenador) (s : ℕ) (saltar : Bool) (xs : List ℕ)
    → Vivos xs heap
    → (ys : List ℕ) × (quitar_simbolo heap s saltar xs ≡ some ys)
unfolding quitar_simbolo esta
quitar_simbolo-some heap s saltar [] v = ([], refl)
quitar_simbolo-some heap s true (x ∷ xs) v =
    let (ys, h) =
      quitar_simbolo-some heap s false xs (λ y l. v y (ground (arith, l, Bool-cases (x == y)))) in
    (x ∷ ys, rw h refl)
quitar_simbolo-some heap s false (x ∷ xs) v =
    let (t, ht) = v x (ground (arith, ==_refl x)) in
    let (ys, h) =
      quitar_simbolo-some heap s (t.simbolo == s) xs
        (λ y l. v y (ground (arith, l, Bool-cases (x == y)))) in
    ((if t.simbolo == s then ys else x ∷ ys), rw ht (rw h refl))

-- What a trainer that has left leaves behind: nothing of its own, the others allocated as before,
-- the queues as a whole, and the pokemons of every kind.
pub record Liberado {S : Type 0} (e : Ambiente S) (id : ℕ) (m m' : Mapa S) : Type 0 where
  pub libre : m'.heap id ≡ none
  pub otros :
      (x : ℕ) (t : Entrenador)
      → (x == id) ≡ false
      → m.heap x ≡ some t
      → (t' : Entrenador) × (m'.heap x ≡ some t')
  pub colas :
      (x : ℕ)
      → veces x m'.cola_listos + veces x m'.cola_bloqueados
        ≡ veces x m.cola_listos + veces x m.cola_bloqueados
  pub conserva :
      (q : InfoPokemon → Bool) (ids : List ℕ)
      → Distintos ids
      → esta id ids ≡ true
      → ((x : ℕ) → esta x m.cola_bloqueados ≡ true → esta x ids ≡ true)
      → con_entrenadores q ids m'.heap + en_pokenests q m'.lista_pokenests
        ≡ con_entrenadores q ids m.heap + en_pokenests q m.lista_pokenests

module _ {S : Type 0} (e : Ambiente S) where
  soltar_pokemon-Soltado :
      (lib : ℕ → Mapa S → Option (Mapa S)) (k : ℕ) (p : InfoPokemon) (m : Mapa S) (n : PokeNest)
      → Esperan e m
      → buscar_pokenest m.lista_pokenests p.id_pokenest ≡ some n
      → length m.cola_bloqueados < k
      → (m' : Mapa S) × (soltar_pokemon e lib k p m ≡ some m') × Soltado e p m m'
  unfolding soltar_pokemon
  soltar_pokemon-Soltado lib k p m n w h l = elim (asignar-Asignado e lib p k 0 m w l) [
    | inl r ↦ rw r (devolver-Soltado e p m n w h)
    | inr (b, u, hb, hu, hi, ul, r) ↦
        (dado e p b u m, rw r refl, dado-Soltado e p b u m w hb hu hi ul)
  ]

  Esperan-con_entrenador :
      (id : ℕ) (t : Entrenador) (m : Mapa S)
      → esta id m.cola_bloqueados ≡ false
      → Esperan e m
      → Esperan e (con_entrenador id t m)
  Esperan-con_entrenador id t m n w b h =
      let (u, hu, hi, ul) = w b h in
      elim (Bool-cases (b == id)) [
        | inl o ↦ let k = subst (λ y. esta y m.cola_bloqueados ≡ true) ((==_iff b id).0 o) h in cc
        | inr o ↦ (u, rw o hu, hi, ul)
      ]

  Conocidos-Soltado :
      (p : InfoPokemon) (m m' : Mapa S) (ps : List InfoPokemon)
      → Soltado e p m m'
      → Conocidos m.lista_pokenests ps
      → Conocidos m'.lista_pokenests ps
  Conocidos-Soltado p m m' [] s c = tt
  Conocidos-Soltado p m m' (x ∷ ps) s ((n, h), c) =
      (s.pokenests x.id_pokenest n h, Conocidos-Soltado p m m' ps s c)

  -- A trainer without pokemons only leaves.
  sin_pokemons-Liberado :
      (id : ℕ) (t : Entrenador) (m : Mapa S)
      → m.heap id ≡ some t
      → t.pokemons ≡ []
      → Vivos m.entrenadores m.heap
      → (m' : Mapa S) × (liberar_entrenador id m ≡ some m') × Liberado e id m m'
  unfolding liberar_entrenador
  sin_pokemons-Liberado id t m h z v =
      let (ys, r) = quitar_simbolo-some m.heap t.simbolo false m.entrenadores v in
      let m' =
        con_salida (borra_item t.simbolo)
          (record m { entrenadores = ys; heap = update m.heap id none }) in
      (
        m',
        rw h (rw r refl),
        record {
          libre = rw (==_refl id) refl;
          otros = λ x u o g. (u, rw o g);
          colas = λ x. refl;
          conserva = λ q ids d i b.
              let c = con_entrenadores-update q ids m.heap id none d i in
              let f = ap (λ o. de_entrenador q o) h in
              let g = ap (λ ps. cuantos q ps) z in omega (arith, c, f, g);
        },
      )

  -- The trainer gives up its first pokemon and then leaves.
  Liberado-cons :
      (id : ℕ) (p : InfoPokemon) (ps : List InfoPokemon) (t : Entrenador) (m m1 m' : Mapa S)
      → m.heap id ≡ some t
      → t.pokemons ≡ p ∷ ps
      → Soltado e p (con_entrenador id (record t { pokemons = ps }) m) m1
      → Liberado e id m1 m'
      → Liberado e id m m'
  Liberado-cons id p ps t m m1 m' h z s r = record {
    libre = r.libre;
    otros = λ x u o g. let (u', g', si) = s.vivos x u (rw o g) in r.otros x u' o g';
    colas = λ x. r.colas x ∙ s.colas x;
    conserva = λ q ids d i b.
        let c0 = con_entrenadores-update q ids m.heap id (some (record t { pokemons = ps })) d i in
        let f = ap (λ o. de_entrenador q o) h in
        let g = ap (λ x. cuantos q x) z in
        let c1 = s.conserva q ids d b in
        let c2 = r.conserva q ids d i (λ x l. b x (aun x l)) in omega (arith, c0, f, g, c1, c2);
  }
    where
      aun : (x : ℕ) → esta x m1.cola_bloqueados ≡ true → esta x m.cola_bloqueados ≡ true
      aun x l = elim (Bool-cases (esta x m.cola_bloqueados)) [
        | inl a ↦ a
        | inr a ↦ let k = s.no_bloqueados x a in cc
      ]

  Vivos-Soltado :
      (id : ℕ) (t : Entrenador) (p : InfoPokemon) (m m1 : Mapa S)
      → Vivos m.entrenadores m.heap
      → Soltado e p (con_entrenador id t m) m1
      → Vivos m1.entrenadores m1.heap
  Vivos-Soltado id t p m m1 v s x l =
      let (u, h) = v x (subst (λ xs. esta x xs ≡ true) s.mismos l) in
      elim (Bool-cases (x == id)) [
        | inl o ↦ let (u', g, si) = s.vivos x t (rw o refl) in (u', g)
        | inr o ↦ let (u', g, si) = s.vivos x u (rw o h) in (u', g)
      ]

  liberar_pokemons :
      (k id : ℕ) (ps : List InfoPokemon) (t : Entrenador) (m : Mapa S)
      → m.heap id ≡ some t
      → t.pokemons ≡ ps
      → esta id m.cola_bloqueados ≡ false
      → Esperan e m
      → Vivos m.entrenadores m.heap
      → Conocidos m.lista_pokenests ps
      → length ps + length m.cola_bloqueados < k
      → (m' : Mapa S) × (liberar_recursos e k id m ≡ some m') × Liberado e id m m'
  unfolding liberar_recursos
  liberar_pokemons zero id ps t m h z n w v c l = absurd (omega arith)
  liberar_pokemons (suc k) id [] t m h z n w v c l =
      rw h (rw z (sin_pokemons-Liberado id t m h z v))
  liberar_pokemons (suc k) id (p ∷ ps) t m h z n w v ((nest, hn), c) l =
      let t' : Entrenador = record t { pokemons = ps } in
      let m0 = con_entrenador id t' m in
      let (m1, r, s) =
        soltar_pokemon-Soltado (λ b x. liberar_recursos e k b x) k p m0 nest
          (Esperan-con_entrenador id t' m n w) hn (omega arith) in
      let a : m0.heap id ≡ some t' = rw (==_refl id) refl in
      let (m', r', lib) =
        liberar_pokemons k id ps t' m1 (s.ajenos id n ∙ a) refl (s.no_bloqueados id n) s.esperan
          (Vivos-Soltado id t' p m m1 v s) (Conocidos-Soltado p m0 m1 ps s c)
          (let q = s.bloqueados_menos in omega arith) in
      (m', rw h (rw z (rw r r')), Liberado-cons id p ps t m m1 m' h z s lib)

  -- A trainer leaves the map while no blocked trainer waits for its last pokemon, the trainers in
  -- the list are allocated and its pokemons come from PokeNests of the map: on fuel above its
  -- pokemons and the blocked trainers together, liberarRecursos2 ends. The trainer is freed, the
  -- others stay allocated, each trainer is as often in the two queues together as before, and of
  -- every kind there are as many pokemons with the trainers and the PokeNests as before.
  pub liberar_recursos-Liberado :
      (k id : ℕ) (t : Entrenador) (m : Mapa S)
      → m.heap id ≡ some t
      → esta id m.cola_bloqueados ≡ false
      → Esperan e m
      → Vivos m.entrenadores m.heap
      → Conocidos m.lista_pokenests t.pokemons
      → length t.pokemons + length m.cola_bloqueados < k
      → (m' : Mapa S) × (liberar_recursos e k id m ≡ some m') × Liberado e id m m'
  liberar_recursos-Liberado k id t m h n w v c l =
      liberar_pokemons k id t.pokemons t m h refl n w v c l
