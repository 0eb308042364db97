-- ===== src/Mapas/Solicitudes/Answers.antt =====
-- solicitudes.c: what the answer to a request keeps, and how it is shown of a chain of steps.
use sisoputnfrba_tp_2016_2c.Base.{
  ℕ, ◌+◌, ◌≡◌, Bool, true, false, List, [], ◌∷◌, ◌++◌, Option, none, some, arith, refl, ap, ◌==◌,
  if◌then◌else◌, update, ==_refl, ◌⊎◌, ◌>>=◌,
}
use sisoputnfrba_tp_2016_2c.Mapas.State.{InfoPokemon, Entrenador, Mapa, Ambiente, Salida}
use sisoputnfrba_tp_2016_2c.Mapas.Solicitudes.{
  Respuesta, turno_normal, desconexion, capturo_pokemon, no_encontro_pokemon, mover,
}
use sisoputnfrba_tp_2016_2c.Mapas.Planificacion.{esta}
use sisoputnfrba_tp_2016_2c.Mapas.Cuentas.{
  Distintos, cuantos, de_entrenador, con_entrenadores, en_pokenests, con_entrenadores-update,
}

-- The pokemons of the trainer by the answer: only a capture adds one, and then nothing is asked
-- for any more.
abbrev pub Segun : Respuesta → Entrenador → Entrenador → Type 0
Segun turno_normal t t' = t'.pokemons ≡ t.pokemons
Segun no_encontro_pokemon t t' = t'.pokemons ≡ t.pokemons
Segun capturo_pokemon t t' =
    (p : InfoPokemon) × (t'.pokemons ≡ t.pokemons ++ (p ∷ [])) × (t'.pokenest_buscada ≡ 0)
Segun desconexion t t' =
    (t'.pokemons ≡ t.pokemons)
    ⊎ ((p : InfoPokemon) × (t'.pokemons ≡ t.pokemons ++ (p ∷ [])) × (t'.pokenest_buscada ≡ 0))

-- The trainer `t` has been answered: the others and the queues are as before, and so are the
-- pokemons of every kind.
pub record Atendio {S : Type 0} (t : Entrenador) (m : Mapa S) (r : Respuesta) (m' : Mapa S)
    : Type 0 where
  pub ajenos : (x : ℕ) → (x == t.id) ≡ false → m'.heap x ≡ m.heap x
  pub propio :
      (t' : Entrenador) × (m'.heap t.id ≡ some t')
      × (t'.id ≡ t.id)
      × (t'.simbolo ≡ t.simbolo)
      × Segun r t t'
  pub listos : m'.cola_listos ≡ m.cola_listos
  pub bloqueados : m'.cola_bloqueados ≡ m.cola_bloqueados
  pub mismos : m'.entrenadores ≡ m.entrenadores
  pub conserva :
      (q : InfoPokemon → Bool) (ids : List ℕ)
      → Distintos ids
      → esta t.id ids ≡ true
      → con_entrenadores q ids m'.heap + en_pokenests q m'.lista_pokenests
        ≡ con_entrenadores q ids m.heap + en_pokenests q m.lista_pokenests

-- What holds of an answer, where there is one.
abbrev pub Cumple :
    {S : Type 0} → (Respuesta → Mapa S → Type 0) → Option (Respuesta × Mapa S) → Type 0
Cumple P none = Unit {0}
Cumple P (some (r, m)) = P r m

module _ {S : Type 0} (P : Respuesta → Mapa S → Type 0) where
  pub Cumple-bind :
      {A : Type 0} (o : Option A) (f : A → Option (Respuesta × Mapa S))
      → ((a : A) → o ≡ some a → Cumple P (f a))
      → Cumple P (o >>= f)
  Cumple-bind none f h = tt
  Cumple-bind (some a) f h = h a refl

  pub Cumple-if :
      (b : Bool) (x y : Option (Respuesta × Mapa S))
      → Cumple P x
      → Cumple P y
      → Cumple P (if b then x else y)
  Cumple-if true x y h g = h
  Cumple-if false x y h g = g

pub Cumple-map :
    {S : Type 0} (P Q : Respuesta → Mapa S → Type 0) (o : Option (Respuesta × Mapa S))
    → ((r : Respuesta) (m : Mapa S) → P r m → Q r m)
    → Cumple P o
    → Cumple Q o
Cumple-map P Q none f h = tt
Cumple-map P Q (some (r, m)) f h = f r m h

-- What the sockets bring does not matter to it.
pub Atendio-red :
    {S : Type 0} (t : Entrenador) (m : Mapa S) (s : S) (r : Respuesta) (m' : Mapa S)
    → Atendio t (record m { red = s }) r m'
    → Atendio t m r m'
Atendio-red t m s r m' a = record {
  ajenos = a.ajenos;
  propio = a.propio;
  listos = a.listos;
  bloqueados = a.bloqueados;
  mismos = a.mismos;
  conserva = a.conserva;
}

-- `list_sort` keeps the elements.
abbrev pub Ordena : {S : Type 0} → Ambiente S → Type 0
Ordena e =
    (q : InfoPokemon → Bool) (f : InfoPokemon → InfoPokemon → Option Bool) (ps : List InfoPokemon)
    → cuantos q (e.sort_pokemons f ps) ≡ cuantos q ps

-- Only the trainer has changed, and keeps its pokemons.
pub cambio-Atendio :
    {S : Type 0} (t t' : Entrenador) (m : Mapa S) (os : List Salida) (r : Respuesta)
    → m.heap t.id ≡ some t
    → t'.id ≡ t.id
    → t'.simbolo ≡ t.simbolo
    → t'.pokemons ≡ t.pokemons
    → Segun r t t'
    → Atendio t m r (record m { heap = update m.heap t.id (some t'); salidas = os })
cambio-Atendio t t' m os r h i s p g = record {
  ajenos = λ x o. rw o refl;
  propio = (t', rw (==_refl t.id) refl, i, s, g);
  listos = refl;
  bloqueados = refl;
  mismos = refl;
  conserva = λ q ids d b.
      let c = con_entrenadores-update q ids m.heap t.id (some t') d b in
      let f = ap (λ o. de_entrenador q o) h in
      let k = ap (λ x. cuantos q x) p in omega (arith, c, f, k);
}

pub igual-Atendio :
    {S : Type 0} (t : Entrenador) (m : Mapa S) (r : Respuesta)
    → m.heap t.id ≡ some t
    → Segun r t t
    → Atendio t m r m
igual-Atendio t m r h g = record {
  ajenos = λ x o. refl;
  propio = (t, h, refl, refl, g);
  listos = refl;
  bloqueados = refl;
  mismos = refl;
  conserva = λ q ids d b. refl;
}

pub mover-pokemons : (d : ℕ) (t : Entrenador) → (mover d t).pokemons ≡ t.pokemons
mover-pokemons d t = ground arith

pub mover-id : (d : ℕ) (t : Entrenador) → (mover d t).id ≡ t.id
mover-id d t = ground arith

pub mover-simbolo : (d : ℕ) (t : Entrenador) → (mover d t).simbolo ≡ t.simbolo
mover-simbolo d t = ground arith
