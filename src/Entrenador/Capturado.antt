-- ===== src/Entrenador/Capturado.antt =====
-- entrenador/src/Entrenador/entrenador.c: what a capture comes to, for the packets that the map
-- sends.
use sisoputnfrba_tp_2016_2c.Base.{
  ℕ, zero, suc, ◌+◌, ◌<◌, ◌≡◌, Bool, true, false, List, [], ◌∷◌, ◌++◌, Option, none, some, refl,
  arith, ap, ◌∙◌, length, ◌==◌, ◌||◌, if◌then◌else◌, Bool-cases, inl, inr,
}
use sisoputnfrba_tp_2016_2c.Entrenador.{connection_send}
use sisoputnfrba_tp_2016_2c.Entrenador.Captura.{
  CoachPokemon, Coach, Mundo, Entorno, Juego, sigue, cadena_de_coach, ultima, al_frente,
  es_de_mayor_nivel, coach_pokemon_battle, con_aviso, si_gano, esperar_captura, guardar,
  coach_capture_pokemon, con_espera, ruta_de_bill,
}
use sisoputnfrba_tp_2016_2c.Entrenador.Avisos.{
  Completa, en_red, SonAvisos, uno_si, cuantas, aviso-cadena, aviso-sigue, paquete_recibido,
  uno_si-suma, cadena_4,
}

module _ {D F : Type 0} (e : Entorno D (List ℕ) F) where
  -- How many pokemons there are, and what of the won battles, the packets sent and the stream.
  abbrev pub Tras :
      Coach D → Mundo (List ℕ) F → Coach D → Mundo (List ℕ) F → ℕ → ℕ → List ℕ → Type 0
  Tras c w c' w' ganadas retos rest =
      (length c'.pokemons ≡ length c.pokemons)
      × (c'.count_deadlock ≡ c.count_deadlock + ganadas)
      × (length w'.enviado ≡ length w.enviado + retos)
      × (w'.red ≡ rest)

  -- `list_sort` loses no element.
  abbrev pub Ordena : Type 0
  Ordena =
      (f : CoachPokemon → CoachPokemon → Bool) (ps : List CoachPokemon)
      → length (e.list_sort f ps) ≡ length ps

  primero_de :
      (ps : List CoachPokemon) → 0 < length ps → (p : CoachPokemon) × (al_frente ps ≡ some p)
  primero_de [] l = absurd (omega arith)
  primero_de (p ∷ ps) l = (p, refl)

  length-uno : (xs : List (List ℕ)) (x : List ℕ) → length (xs ++ (x ∷ [])) ≡ length xs + 1
  length-uno [] x = refl
  length-uno (y ∷ ys) x = let h = length-uno ys x in omega (arith, h)

  cadena_14 : (bs : List ℕ) → (p : List ℕ) × (connection_send 14 bs ≡ some p)
  unfolding connection_send
  cadena_14 bs = (_, refl)

  batalla-Tras :
      (c : Coach D) (w : Mundo (List ℕ) F)
      → Ordena
      → 0 < length c.pokemons
      → (c' : Coach D) × (w' : Mundo (List ℕ) F) × (coach_pokemon_battle e c w ≡ sigue (c', w'))
        × Tras c w c' w' 0 1 w.red
  unfolding coach_pokemon_battle
  batalla-Tras c w o l =
      let qs = e.list_sort es_de_mayor_nivel c.pokemons in
      let n = o es_de_mayor_nivel c.pokemons in
      let (p, h) = primero_de qs (omega (arith, n, l)) in
      let (b, s) = cadena_14 p.name in
      (
        record c { pokemons = qs },
        record w { enviado = w.enviado ++ (b ∷ []) },
        rw h (rw s refl),
        (n, omega arith, length-uno w.enviado b, refl),
      )

  -- The code of a battle (17), or another one.
  pub aviso-Tras :
      (op : ℕ) (c : Coach D) (w : Mundo (List ℕ) F)
      → Ordena
      → (op ≡ 17 → 0 < length c.pokemons)
      → (c' : Coach D) × (w' : Mundo (List ℕ) F) × (con_aviso e op c w ≡ sigue (c', w'))
        × Tras c w (si_gano e op c') w' (uno_si (op == 16) 0) (uno_si (op == 17) 0) w.red
  aviso-Tras op c w o l = elim (Bool-cases (op == 17)) [
    | inl h ↦
        let n : (op == 16) ≡ false = ground arith in
        let (c', w', q, t) = batalla-Tras c w o (l (ground arith)) in
        (c', w', rw h q, rw h (rw n t))
    | inr h ↦ (c, w, rw h refl, rw h (ganada (op == 16)))
  ]
    where
      ganada :
          (b : Bool)
          → Tras c w
              (if b then record c { count_deadlock = suc c.count_deadlock } else c)
              w
              (uno_si b 0)
              0
              w.red
      ganada true = (refl, omega arith, omega arith, refl)
      ganada false = (refl, omega arith, omega arith, refl)

  Tras-dos :
      (c c1 c2 : Coach D) (w w1 w2 : Mundo (List ℕ) F) (g1 r1 g2 r2 : ℕ) (s1 rest : List ℕ)
      → Tras c w c1 w1 g1 r1 s1
      → Tras c1 w1 c2 w2 g2 r2 rest
      → Tras c w c2 w2 (g1 + g2) (r1 + r2) rest
  Tras-dos c c1 c2 w w1 w2 g1 r1 g2 r2 s1 rest (a, b, n, s) (a', b', n', s') =
      (a' ∙ a, omega (arith, b, b'), omega (arith, n, n'), s')

  -- The news of the map one after the other, and then the code that ends the wait.
  esperar_captura-Tras :
      (k : ℕ) (ps : List (ℕ × List ℕ)) (fin : ℕ) (bs rest : List ℕ) (ruta : Option (List ℕ))
      (c : Coach D) (w : Mundo (List ℕ) F)
      → Completa e.recv
      → Ordena
      → SonAvisos ps
      → (0 < cuantas 17 ps → 0 < length c.pokemons)
      → ((fin == 14) || (fin == 10)) ≡ true
      → length ps < k
      → w.red ≡ en_red ps (fin ∷ length bs ∷ (bs ++ rest))
      → (c' : Coach D) × (w' : Mundo (List ℕ) F) × (esperar_captura e k ruta c w
          ≡ sigue (fin, some bs, (c', w')))
        × Tras c w c' w' (cuantas 16 ps) (cuantas 17 ps) rest
  unfolding esperar_captura
  esperar_captura-Tras zero ps fin bs rest ruta c w q o a l f n h = absurd (omega arith)
  esperar_captura-Tras (suc k) [] fin bs rest ruta c w q o a l f n h =
      let i : cadena_de_coach fin ≡ true = ground (arith, f) in
      let r = paquete_recibido e.recv fin bs rest q i in
      let n17 : (fin == 17) ≡ false = ground (arith, f) in
      let n16 : (fin == 16) ≡ false = ground (arith, f) in
      (
        c,
        record w { red = rest },
        rw h (rw r (rw n17 (rw n16 (rw f refl)))),
        (refl, omega arith, omega arith, refl),
      )
  esperar_captura-Tras (suc k) ((op, xs) ∷ ps) fin bs rest ruta c w q o ((v, z), a) l f n h =
      let s = en_red ps (fin ∷ length bs ∷ (bs ++ rest)) in
      let r = paquete_recibido e.recv op xs s q (aviso-cadena op v) in
      let j = aviso-sigue op v in
      let (c1, w1, u, t) =
        aviso-Tras op c (record w { red = s }) o
          (λ y. l (let g : (op == 17) ≡ true = ground arith in rw g (omega arith))) in
      let d = uno_si-suma (op == 17) (cuantas 17 ps) in
      let m = t.0 in
      let (c2, w2, u', t') =
        esperar_captura-Tras k ps fin bs rest (some xs) (si_gano e op c1) w1 q o a
          (λ y. let y' = l (omega (arith, d, y)) in omega (arith, m, y')) f (omega arith) t.3 in
      (
        c2,
        w2,
        rw h (rw r (rw u (rw j u'))),
        rw d (
            rw (uno_si-suma (op == 16) (cuantas 16 ps)) (
              Tras-dos c (si_gano e op c1) c2 w w1 w2 (uno_si (op == 16) 0) (uno_si (op == 17) 0)
                (cuantas 16 ps) (cuantas 17 ps) s rest t t')),
      )

  -- The files are copied, and the path of a pokemon has a name.
  abbrev pub Copia : Type 0
  Copia = (o d : List ℕ) (f : F) → (f' : F) × (e.copy_file o d f ≡ some f')

  abbrev pub nuevos : Bool → CoachPokemon → List CoachPokemon
  nuevos true p = p ∷ []
  nuevos false p = []

  -- The trainer has the pokemon behind those that it had, or is a victim, after so many battles
  -- won and so many packets sent.
  pub data Capturado (fin : ℕ) (p : CoachPokemon) (archivo : List ℕ) (c : Coach D)
      (w : Mundo (List ℕ) F) (ganadas retos : ℕ) (rest : List ℕ)
      (r : Juego (ℕ × (Coach D × Mundo (List ℕ) F))) : Type 0 where
    capturado :
        (qs : List CoachPokemon) (nivel : ℕ) (c' : Coach D) (w' : Mundo (List ℕ) F)
        → r ≡ sigue (fin, (c', w'))
        → length qs ≡ length c.pokemons
        → c'.pokemons ≡ qs ++ nuevos (fin == 14) (record p { name = archivo; level = nivel })
        → c'.count_deadlock ≡ c.count_deadlock + ganadas
        → length w'.enviado ≡ length w.enviado + suc retos
        → w'.red ≡ rest
        → Capturado fin p archivo c w ganadas retos rest r

  nada_nuevo : (qs : List CoachPokemon) → qs ≡ qs ++ []
  nada_nuevo [] = refl
  nada_nuevo (q ∷ qs) = ap (λ xs. q ∷ xs) (nada_nuevo qs)

  -- Where the map sends news of battles (17, 16, 15) and then OC_POKEMON (14) or
  -- OC_VICTIMA_DEADLOCK (10), and the rounds are more than the news, coach_capture_pokemon with
  -- OC_ATRAPAR_POKEMON returns that last code. It has received no byte behind it, has sent one
  -- packet for the request and one for each battle, and has counted one deadlock for each battle
  -- won; after OC_POKEMON the pokemon stands behind as many as there were, with the name of its
  -- file. `recv` is taken to give what is asked for where it is there, `list_sort` to keep the
  -- number of elements, and the copy of the file to succeed; the path has a last part, and a
  -- trainer that is called to a battle has a pokemon.
  pub coach_capture_pokemon-Capturado :
      (k : ℕ) (ps : List (ℕ × List ℕ)) (fin : ℕ) (bs archivo rest : List ℕ) (p : CoachPokemon)
      (c : Coach D) (w : Mundo (List ℕ) F)
      → Completa e.recv
      → Ordena
      → Copia
      → SonAvisos ps
      → (0 < cuantas 17 ps → 0 < length c.pokemons)
      → ((fin == 14) || (fin == 10)) ≡ true
      → ultima (e.string_split bs) ≡ some archivo
      → length ps < k
      → w.red ≡ en_red ps (fin ∷ length bs ∷ (bs ++ rest))
      → Capturado fin p archivo c w
          (cuantas 16 ps)
          (cuantas 17 ps)
          rest
          (coach_capture_pokemon e k 4 p c w)
  unfolding coach_capture_pokemon guardar
  coach_capture_pokemon-Capturado k ps fin bs archivo rest p c w q o y a l f v n h =
      let (b, s) = cadena_4 p.simbol in
      let w1 : Mundo (List ℕ) F = record w {
        enviado = w.enviado ++ (b ∷ []);
        sistema = (e.time w.sistema).1;
      } in
      let (c', w', u, (n1, n2, n3, n4)) =
        esperar_captura-Tras k ps fin bs rest none c w1 q o a l f n h in
      let z = length-uno w.enviado b in
      let espera = con_espera e (e.time w.sistema).0 (e.time w'.sistema).0 c' in
      let despues : Mundo (List ℕ) F = record w' { sistema = (e.time w'.sistema).1 } in
      elim (Bool-cases (fin == 10)) [
        | inl t ↦
            let g : fin ≡ 10 = ground arith in
            let g4 : (fin == 14) ≡ false = ground arith in
            capturado c'.pokemons 0 espera despues (rw s (rw u (rw t (rw g refl)))) n1
              (rw g4 (nada_nuevo c'.pokemons)) n2 (omega (arith, n3, z)) n4
        | inr t ↦
            let g4 : (fin == 14) ≡ true = ground (arith, f, t) in
            let g : fin ≡ 14 = ground (arith, g4) in
            let destino = ruta_de_bill e c'.name archivo in
            let (f', d) = y (e.path_pokedex ++ bs) destino (e.time w'.sistema).1 in
            let p' = record p { name = archivo; level = e.nivel destino f' } in
            capturado c'.pokemons (e.nivel destino f')
              (record espera { pokemons = c'.pokemons ++ (p' ∷ []) })
              (record despues { sistema = f' }) (rw s (rw u (rw t (rw v (rw d (rw g refl)))))) n1
              (rw g4 refl) n2 (omega (arith, n3, z)) n4
      ]
