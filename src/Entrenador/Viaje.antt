-- ===== src/Entrenador/Viaje.antt =====
-- entrenador/src/Entrenador/entrenador.c: the order of the pokemons of a map.
use sisoputnfrba_tp_2016_2c.Base.{
  ℕ, zero, suc, ◌<◌, ◌≡◌, true, false, List, [], ◌∷◌, Option, none, some, refl, arith, ap, ◌==◌,
  ltb, if◌then◌else◌, Bool-cases, length, drop, inl, inr, lt→ltb, ltb→lt, length-drop,
}
use sisoputnfrba_tp_2016_2c.Entrenador.Captura.{
  CoachPokemon, Entorno, Juego, sigue, game_over, indefinido, pendiente, tras,
}
use sisoputnfrba_tp_2016_2c.Entrenador.Completar.{
  TMap, map_next_pokemon, codigo_de, Jugador, atrapar, coach_medal_copy, completar_mapa,
}

-- The code for a pokemon with these behind it: the last one is asked for as the last one.
abbrev pub codigo_con : List CoachPokemon → ℕ
codigo_con [] = 11
codigo_con (q ∷ qs) = 4

drop-suc : {A : Type 0} (i : ℕ) (p : A) (ps xs : List A) → drop i xs ≡ p ∷ ps → drop (suc i) xs ≡ ps
drop-suc i p ps [] e = absurd (vacia i e)
  where
    vacia : (i : ℕ) → drop i [] ≡ p ∷ ps → ⊥
    vacia zero h = cc
    vacia (suc i) h = cc
drop-suc zero p ps (x ∷ xs) e = ground arith
drop-suc (suc i) p ps (x ∷ xs) e = drop-suc i p ps xs e

map_next_pokemon-none :
    (m : TMap) → drop m.siguiente m.pokemon_list ≡ [] → map_next_pokemon m ≡ none
unfolding map_next_pokemon
map_next_pokemon-none m e =
    let n = length-drop m.siguiente m.pokemon_list in
    let z = ap (λ xs. length xs) e in
    elim (Bool-cases (ltb m.siguiente (length m.pokemon_list))) [
      | inl l ↦ absurd (let k = ltb→lt _ _ l in omega (arith, n, z, k))
      | inr l ↦ rw l refl
    ]

map_next_pokemon-some :
    (m : TMap) (p : CoachPokemon) (ps : List CoachPokemon)
    → drop m.siguiente m.pokemon_list ≡ p ∷ ps
    → map_next_pokemon m ≡ some (p, record m { siguiente = suc m.siguiente })
unfolding map_next_pokemon
map_next_pokemon-some m p ps e =
    let n = length-drop m.siguiente m.pokemon_list in
    let z = ap (λ xs. length xs) e in
    let l = lt→ltb m.siguiente (length m.pokemon_list) (omega (arith, n, z)) in rw l (rw e refl)

codigo_de-codigo_con :
    (m : TMap) (p : CoachPokemon) (ps : List CoachPokemon)
    → drop m.siguiente m.pokemon_list ≡ p ∷ ps
    → codigo_de (record m { siguiente = suc m.siguiente }) ≡ codigo_con ps
codigo_de-codigo_con m p [] e =
    let n = length-drop m.siguiente m.pokemon_list in
    let z = ap (λ xs. length xs) e in
    let l : length m.pokemon_list ≡ suc m.siguiente = omega (arith, n, z) in
    let b : (length m.pokemon_list == suc m.siguiente) ≡ true = ground (arith, l) in rw b refl
codigo_de-codigo_con m p (q ∷ qs) e =
    let n = length-drop m.siguiente m.pokemon_list in
    let z = ap (λ xs. length xs) e in
    let l : suc m.siguiente < length m.pokemon_list = omega (arith, n, z) in
    let b : (length m.pokemon_list == suc m.siguiente) ≡ false = ground (arith, l) in rw b refl

-- What comes behind a step that goes on, where the two ways on from it are the same.
tras-same :
    {A B : Type 0} (r : Juego A) (f g : A → Juego B) → ((a : A) → f a ≡ g a) → tras r f ≡ tras r g
tras-same (sigue a) f g h = h a
tras-same game_over f g h = refl
tras-same indefinido f g h = refl
tras-same pendiente f g h = refl

module _ {D S F : Type 0} (e : Entorno D S F) (resto : List ℕ) (k : ℕ) where
  -- The pokemons one after the other, without an index and without a bound of rounds: the first
  -- answer OC_VICTIMA_DEADLOCK ends it, and otherwise the medal is copied at the end.
  abbrev pub en_orden :
      List CoachPokemon
      → Option ℕ
      → TMap
      → Jugador e resto
      → Juego (Option ℕ × (TMap × Jugador e resto))
  en_orden [] oc m j = tras (coach_medal_copy e resto m j) λ j'. sigue (oc, (m, j'))
  en_orden (p ∷ ps) oc m j =
      let m' = record m { siguiente = suc m.siguiente } in
      tras (atrapar e resto k p (codigo_con ps) j) λ (r, j').
        let rest = en_orden ps (some r) m' j' in if r == 10 then sigue (some r, (m', j')) else rest

  -- completar_mapa, with more rounds than there are pokemons left on the map, does the same as going
  -- once through the list of these pokemons in order: each is located, walked to and captured, with
  -- OC_ATRAPAR_ULTIMO_POKEMON for the last one and OC_ATRAPAR_POKEMON for the others; a capture that
  -- answers OC_VICTIMA_DEADLOCK, or that does not come to its end, is the last, and otherwise the medal
  -- is copied at the end.
  pub completar_mapa-en_orden :
      (n : ℕ) (ps : List CoachPokemon) (oc : Option ℕ) (m : TMap) (j : Jugador e resto)
      → drop m.siguiente m.pokemon_list ≡ ps
      → length ps < n
      → completar_mapa e resto k n oc m j ≡ en_orden ps oc m j
  unfolding completar_mapa
  completar_mapa-en_orden zero ps oc m j h l = absurd (omega arith)
  completar_mapa-en_orden (suc n) [] oc m j h l = rw (map_next_pokemon-none m h) refl
  completar_mapa-en_orden (suc n) (p ∷ ps) oc m j h l =
      let m' = record m { siguiente = suc m.siguiente } in
      rw (map_next_pokemon-some m p ps h) (
        rw (codigo_de-codigo_con m p ps h) (
          tras-same (atrapar e resto k p (codigo_con ps) j) _ _ λ a.
            ap (λ x. if a.0 == 10 then sigue (some a.0, (m', a.1)) else x)
              (completar_mapa-en_orden n ps (some a.0) m' a.1
                (drop-suc m.siguiente p ps m.pokemon_list h) (omega arith))))
