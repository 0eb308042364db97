-- ===== src/Entrenador/Saludo.antt =====
-- entrenador/src/Entrenador/entrenador.c and Mapa/mapa.c: how a trainer comes to a map and asks for
-- the place of a PokeNest and for a step; what becomes of it where the map closes the connection.
use sisoputnfrba_tp_2016_2c.Base.{
  ℕ, zero, suc, ◌<◌, ◌≡◌, true, List, [], ◌∷◌, ◌++◌, Option, none, some, refl, arith, length, ◌==◌,
  ◌%◌,
}
use sisoputnfrba_tp_2016_2c.Mapas.State.{
  Entrenador, PokeNest, Mapa, Ambiente, Llegada, cerrado, envia, con_salida, con_entrenador,
}
use sisoputnfrba_tp_2016_2c.Mapas.Solicitudes.{es_coordenada, buscar_pokenest, turno_normal}
use sisoputnfrba_tp_2016_2c.Mapas.Solicitudes.Atencion.{ubicar_pokenest}
use sisoputnfrba_tp_2016_2c.Entrenador.{Coor, connection_send}
use sisoputnfrba_tp_2016_2c.Entrenador.Captura.{
  CoachPokemon, Coach, Mundo, Entorno, Juego, sigue, game_over, tras, definido, Paquete, coach_recv,
  enviar, si_gano, esperar_captura, coach_capture_pokemon,
}
use sisoputnfrba_tp_2016_2c.Entrenador.Avisos.{
  Completa, en_red, SonAvisos, cuantas, paquete_recibido, cadena_4, uno_si-suma, aviso-cadena,
  aviso-sigue,
}
use sisoputnfrba_tp_2016_2c.Entrenador.Capturado.{Ordena, aviso-Tras}

-- The two bytes of a `t_coor` that has arrived.
abbrev pub coor_de : List ℕ → Option Coor
coor_de [] = none
coor_de (x ∷ []) = none
coor_de (x ∷ y ∷ ys) = some (record { x = x; y = y })

abbrev pub con_coor : {B : Type 0} → Option (List ℕ) → (Coor → Juego B) → Juego B
con_coor m f = definido m λ bs. definido (coor_de bs) f

module _ {D S F : Type 0} (e : Entorno D S F) where
  -- A packet is sent, and the answer is received.
  abbrev pub preguntar :
      {B : Type 0} → ℕ → List ℕ → Mundo S F → (Paquete → Mundo S F → Juego B) → Juego B
  preguntar op bs w f =
      tras (enviar op bs w)
        λ w1. tras (coach_recv e.recv w1.red) λ (p, s). f p (record w1 { red = s })

  -- handshake: the place of the trainer and the path of the medal. The answers are taken as they
  -- come, whatever their code is.
  unfoldable pub handshake_coach :
      List ℕ → Coach D → Mundo S F → Juego (Coor × (Option (List ℕ) × Mundo S F))
  handshake_coach simbol c w = preguntar 2 simbol w λ p w1.
      preguntar 7 simbol w1
        λ q w2. tras (enviar 0 c.name w2) λ w3. con_coor p.message λ a. sigue (a, (q.message, w3))

  unfoldable pub map_locate_pokemon : CoachPokemon → Mundo S F → Juego (CoachPokemon × Mundo S F)
  map_locate_pokemon p w =
      preguntar 1 p.simbol w λ q w1. con_coor q.message λ a. sigue (record p { coor = a }, w1)

coor_recibida :
    (recv : ℕ → List ℕ → Llegada × List ℕ) (op x y : ℕ) (rest : List ℕ)
    → Completa recv
    → es_coordenada op ≡ true
    → coach_recv recv (op ∷ 2 ∷ x ∷ y ∷ rest)
      ≡ sigue (record { operation_code = op; message = some (x ∷ y ∷ []) }, rest)
unfolding coach_recv
coor_recibida recv op x y rest w h =
    let a = w 1 (op ∷ []) (2 ∷ x ∷ y ∷ rest) (omega arith) refl in
    let b = w 1 (2 ∷ []) (x ∷ y ∷ rest) (omega arith) refl in
    let c = w 2 (x ∷ y ∷ []) rest (omega arith) refl in rw a (rw b (rw h (rw c refl)))

cadena_1 : (bs : List ℕ) → (p : List ℕ) × (connection_send 1 bs ≡ some p)
unfolding connection_send
cadena_1 bs = (_, refl)

-- A PokeNest is asked for: the map sends its place, and the trainer has it.
module _ {D F S : Type 0} (e : Entorno D (List ℕ) F) (a : Ambiente S) where
  -- What the map has sent last, and what the trainer makes of it.
  pub data Ubicada (t : Entrenador) (pokenest_id : ℕ) (n : PokeNest) (m : Mapa S) (p : CoachPokemon)
      (w : Mundo (List ℕ) F) (rest : List ℕ) : Type 0 where
    ubicada :
        (bs : List ℕ) (m' : Mapa S) (w' : Mundo (List ℕ) F)
        → ubicar_pokenest a t pokenest_id m ≡ some (turno_normal, m')
        → m'.salidas ≡ envia t.id bs ∷ m.salidas
        → map_locate_pokemon e p (record w { red = bs ++ rest })
          ≡ sigue (record p { coor = record { x = n.posx % 256; y = n.posy % 256 } }, w')
        → w'.red ≡ rest
        → Ubicada t pokenest_id n m p w rest

  -- For a PokeNest that the map has, the map answers with one packet, and map_locate_pokemon makes
  -- of this packet the coordinates of the PokeNest, a byte for each, and leaves the stream behind
  -- it. `recv` is taken to give as many bytes as are asked for, where they are there.
  pub map_locate_pokemon-ubicar_pokenest :
      (t : Entrenador) (pokenest_id : ℕ) (n : PokeNest) (m : Mapa S) (p : CoachPokemon)
      (w : Mundo (List ℕ) F) (rest : List ℕ)
      → Completa e.recv
      → buscar_pokenest m.lista_pokenests pokenest_id ≡ some n
      → Ubicada t pokenest_id n m p w rest
  unfolding map_locate_pokemon ubicar_pokenest
  map_locate_pokemon-ubicar_pokenest t pokenest_id n m p w rest q h =
      let (b, s) = cadena_1 p.simbol in
      let r = coor_recibida e.recv 5 (n.posx % 256) (n.posy % 256) rest q refl in
      let bs = 5 ∷ 2 ∷ n.posx % 256 ∷ n.posy % 256 ∷ [] in
      let m' =
        con_entrenador t.id (record t { pokenest_buscada = pokenest_id })
          (con_salida (envia t.id bs) m) in
      ubicada bs m' (record w { red = rest; enviado = w.enviado ++ (b ∷ []) }) (rw h refl) refl
        (rw s (rw r refl)) refl

module _ {D F : Type 0} (e : Entorno D (List ℕ) F) where
  esperar_captura-game_over :
      (k : ℕ) (ps : List (ℕ × List ℕ)) (ruta : Option (List ℕ)) (c : Coach D) (w : Mundo (List ℕ) F)
      → Completa e.recv
      → Ordena e
      → SonAvisos ps
      → (0 < cuantas 17 ps → 0 < length c.pokemons)
      → e.recv 1 [] ≡ (cerrado, [])
      → length ps < k
      → w.red ≡ en_red ps []
      → esperar_captura e k ruta c w ≡ game_over
  unfolding esperar_captura coach_recv
  esperar_captura-game_over zero ps ruta c w q o a l z n h = absurd (omega arith)
  esperar_captura-game_over (suc k) [] ruta c w q o a l z n h = rw h (rw z refl)
  esperar_captura-game_over (suc k) ((op, xs) ∷ ps) ruta c w q o ((v, u), a) l z n h =
      let s = en_red ps [] in
      let r = paquete_recibido e.recv op xs s q (aviso-cadena op v) in
      let j = aviso-sigue op v in
      let (c1, w1, g, (n1, n2, n3, n4)) =
        aviso-Tras e op c (record w { red = s }) o
          (λ y. l (let g : (op == 17) ≡ true = ground arith in rw g (omega arith))) in
      let d = uno_si-suma (op == 17) (cuantas 17 ps) in
      let sigue_cerrado =
        esperar_captura-game_over k ps (some xs) (si_gano e op c1) w1 q o a
          (λ y. let y' = l (omega (arith, d, y)) in omega (arith, n1, y')) z (omega arith) n4 in
      rw h (rw r (rw g (rw j sigue_cerrado)))

  -- Where the map closes the connection behind news of battles (17, 16, 15), and the rounds are more
  -- than the news, coach_capture_pokemon with OC_ATRAPAR_POKEMON ends the process through
  -- game_over. `recv` is taken to give what is asked for where it is there and 0 at the end,
  -- `list_sort` to keep the number of elements, and a trainer that is called to a battle to have a
  -- pokemon.
  pub coach_capture_pokemon-game_over :
      (k : ℕ) (ps : List (ℕ × List ℕ)) (p : CoachPokemon) (c : Coach D) (w : Mundo (List ℕ) F)
      → Completa e.recv
      → Ordena e
      → SonAvisos ps
      → (0 < cuantas 17 ps → 0 < length c.pokemons)
      → e.recv 1 [] ≡ (cerrado, [])
      → length ps < k
      → w.red ≡ en_red ps []
      → coach_capture_pokemon e k 4 p c w ≡ game_over
  unfolding coach_capture_pokemon
  coach_capture_pokemon-game_over k ps p c w q o a l z n h =
      let (b, s) = cadena_4 p.simbol in
      let w1 : Mundo (List ℕ) F = record w {
        enviado = w.enviado ++ (b ∷ []);
        sistema = (e.time w.sistema).1;
      } in
      let g = esperar_captura-game_over k ps none c w1 q o a l z n h in rw s (rw g refl)
