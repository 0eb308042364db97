-- ===== src/Entrenador/Captura.antt =====
-- entrenador/src/Conexion/conexion.c and Entrenador/entrenador.c: how a trainer receives a packet,
-- and how it captures a pokemon. The clock, the files, the strings of the commons library and the
-- sums of `double` are arguments.
use sisoputnfrba_tp_2016_2c.Base.{
  ℕ, zero, suc, Bool, List, [], ◌∷◌, ◌++◌, Option, none, some, ltb, ◌==◌, ◌||◌, if◌then◌else◌,
}
use sisoputnfrba_tp_2016_2c.Mapas.State.{Llegada, llegan, cerrado, fallo}
use sisoputnfrba_tp_2016_2c.Mapas.Solicitudes.{primero, es_coordenada}
use sisoputnfrba_tp_2016_2c.Entrenador.{Coor, connection_send}

-- `t_pokemon`.
pub record CoachPokemon : Type 0 where
  pub name : List ℕ
  pub simbol : List ℕ
  pub level : ℕ
  pub coor : Coor

-- `t_coach`, as far as a capture goes.
pub record Coach (D : Type 0) : Type 0 where
  pub name : List ℕ
  pub pokemons : List CoachPokemon
  pub pokenest_time : D
  pub count_deadlock : ℕ

-- What arrives, what has been sent, and the clock and the files.
pub record Mundo (S F : Type 0) : Type 0 where
  pub red : S
  pub enviado : List (List ℕ)
  pub sistema : F

-- `copy_file` gives `none` where it does not return 0: the process ends, in it or by game_over.
pub record Entorno (D S F : Type 0) : Type 0 where
  pub recv : ℕ → S → Llegada × S
  pub time : F → ℕ × F
  pub difftime : ℕ → ℕ → D
  pub sumar : D → D → D
  pub list_sort : (CoachPokemon → CoachPokemon → Bool) → List CoachPokemon → List CoachPokemon
  pub string_split : List ℕ → List (List ℕ)
  pub copy_file : List ℕ → List ℕ → F → Option F
  pub nivel : List ℕ → F → ℕ
  pub path_pokedex : List ℕ

-- The process goes on, exits through game_over, reads what has not been set, or waits for more.
pub data Juego (A : Type 0) : Type 0 where
  sigue : A → Juego A
  game_over indefinido pendiente : Juego A

abbrev pub tras : {A B : Type 0} → Juego A → (A → Juego B) → Juego B
tras (sigue a) f = f a
tras game_over f = game_over
tras indefinido f = indefinido
tras pendiente f = pendiente

abbrev pub definido : {A B : Type 0} → Option A → (A → Juego B) → Juego B
definido none f = indefinido
definido (some a) f = f a

-- A packet. A message that has not arrived leaves the pointer as it was.
pub record Paquete : Type 0 where
  pub operation_code : ℕ
  pub message : Option (List ℕ)

abbrev pub cadena_de_coach : ℕ → Bool
cadena_de_coach op =
    (op == 1)
    || ((op == 10)
        || ((op == 2)
            || ((op == 3)
                || ((op == 13)
                    || ((op == 4)
                        || ((op == 7)
                            || ((op == 8)
                                || ((op == 0)
                                    || ((op == 16)
                                        || ((op == 15) || ((op == 17) || (op == 14))))))))))))

-- connection_recv of the trainer; nobody reads what it returns.
module _ {S : Type 0} (recv : ℕ → S → Llegada × S) where
  abbrev pub leer_mensaje : ℕ → Llegada × S → Paquete × S
  leer_mensaje op (llegan bs, s) = (record { operation_code = op; message = some bs }, s)
  leer_mensaje op (cerrado, s) = (record { operation_code = op; message = none }, s)
  leer_mensaje op (fallo, s) = (record { operation_code = op; message = none }, s)

  abbrev pub tras_tamanio : ℕ → Llegada × S → Juego (Paquete × S)
  tras_tamanio op (llegan sizes, s) =
      if es_coordenada op
      then sigue (leer_mensaje op (recv (primero sizes) s))
      else if cadena_de_coach op
      then sigue (
          if ltb 0 (primero sizes)
          then leer_mensaje op (recv (primero sizes) s)
          else (record { operation_code = op; message = some [] }, s))
      else game_over
  tras_tamanio op (cerrado, s) = sigue (record { operation_code = op; message = none }, s)
  tras_tamanio op (fallo, s) = sigue (record { operation_code = op; message = none }, s)

  abbrev pub tras_codigo : Llegada × S → Juego (Paquete × S)
  tras_codigo (llegan ops, s) = tras_tamanio (primero ops) (recv 1 s)
  tras_codigo (cerrado, s) = game_over
  tras_codigo (fallo, s) = game_over

  unfoldable pub coach_recv : S → Juego (Paquete × S)
  coach_recv s = tras_codigo (recv 1 s)

abbrev pub enviar : {S F : Type 0} → ℕ → List ℕ → Mundo S F → Juego (Mundo S F)
enviar op bs w =
    definido (connection_send op bs) λ p. sigue (record w { enviado = w.enviado ++ (p ∷ []) })

-- The last string of a split, and the first element of a list.
abbrev pub ultima : List (List ℕ) → Option (List ℕ)
ultima [] = none
ultima (x ∷ []) = some x
ultima (x ∷ y ∷ ys) = ultima (y ∷ ys)

abbrev pub al_frente : List CoachPokemon → Option CoachPokemon
al_frente [] = none
al_frente (p ∷ ps) = some p

abbrev pub es_de_mayor_nivel : CoachPokemon → CoachPokemon → Bool
es_de_mayor_nivel p q = ltb q.level p.level

abbrev pub o_antes : Option (List ℕ) → Option (List ℕ) → Option (List ℕ)
o_antes none antes = antes
o_antes (some bs) antes = some bs

module _ {D S F : Type 0} (e : Entorno D S F) where
  abbrev pub Estado : Type 0
  Estado = Coach D × Mundo S F

  -- coach_pokemon_battle: the strongest pokemon is sent.
  unfoldable pub coach_pokemon_battle : Coach D → Mundo S F → Juego Estado
  coach_pokemon_battle c w =
      let ps = e.list_sort es_de_mayor_nivel c.pokemons in
      definido (al_frente ps)
        λ p. tras (enviar 14 p.name w) λ w'. sigue (record c { pokemons = ps }, w')

  -- What the loop does with a code, and its round.
  abbrev pub con_aviso : ℕ → Coach D → Mundo S F → Juego Estado
  con_aviso op c w = if op == 17 then coach_pokemon_battle c w else sigue (c, w)

  abbrev pub si_gano : ℕ → Coach D → Coach D
  si_gano op c = if op == 16 then record c { count_deadlock = suc c.count_deadlock } else c

  -- The `do` of coach_capture_pokemon in at most `k` rounds, with the path received so far.
  unfoldable pub esperar_captura :
      ℕ → Option (List ℕ) → Coach D → Mundo S F → Juego (ℕ × Option (List ℕ) × Estado)
  esperar_captura zero ruta c w = pendiente
  esperar_captura (suc k) ruta c w = tras (coach_recv e.recv w.red) λ (p, s).
      tras (con_aviso p.operation_code c (record w { red = s })) λ (c', w').
        let c'' = si_gano p.operation_code c' in
        let r = o_antes p.message ruta in
        let rest = esperar_captura k r c'' w' in
        if (p.operation_code == 14) || (p.operation_code == 10)
        then sigue (p.operation_code, r, (c'', w'))
        else rest

  -- The pokemon as it is after the copy of its file: its name is that of the file.
  abbrev pub ruta_de_bill : List ℕ → List ℕ → List ℕ
  ruta_de_bill name archivo =
      e.path_pokedex
      ++ ((69 ∷ 110 ∷ 116 ∷ 114 ∷ 101 ∷ 110 ∷ 97 ∷ 100 ∷ 111 ∷ 114 ∷ 101 ∷ 115 ∷ 47 ∷ [])
          ++ (name
              ++ ((47 ∷ 68 ∷ 105 ∷ 114 ∷ 32 ∷ 100 ∷ 101 ∷ 32 ∷ 66 ∷ 105 ∷ 108 ∷ 108 ∷ 47 ∷ [])
                  ++ archivo)))

  abbrev pub o_game_over : {A B : Type 0} → Option A → (A → Juego B) → Juego B
  o_game_over none f = game_over
  o_game_over (some a) f = f a

  unfoldable pub guardar : CoachPokemon → List ℕ → Coach D → Mundo S F → Juego (ℕ × Estado)
  guardar p ruta c w = definido (ultima (e.string_split ruta)) λ archivo.
      let destino = ruta_de_bill c.name archivo in
      o_game_over (e.copy_file (e.path_pokedex ++ ruta) destino w.sistema) λ s.
        let p' = record p { name = archivo; level = e.nivel destino s } in
        sigue (14, (record c { pokemons = c.pokemons ++ (p' ∷ []) }, record w { sistema = s }))

  -- The time of the wait, as the source takes it: from the end to the beginning.
  abbrev pub con_espera : ℕ → ℕ → Coach D → Coach D
  con_espera desde hasta c = record c {
    pokenest_time = e.sumar c.pokenest_time (e.difftime desde hasta);
  }

  unfoldable pub coach_capture_pokemon :
      ℕ → ℕ → CoachPokemon → Coach D → Mundo S F → Juego (ℕ × Estado)
  coach_capture_pokemon k oc p c w =
      let (desde, f) = e.time w.sistema in
      tras (enviar oc p.simbol (record w { sistema = f })) λ w1.
        tras (esperar_captura k none c w1) λ (op, ruta, (c1, w2)).
          let (hasta, f') = e.time w2.sistema in
          let c2 = con_espera desde hasta c1 in
          let w3 : Mundo S F = record w2 { sistema = f' } in
          if op == 10 then sigue (10, (c2, w3)) else definido ruta λ bs. guardar p bs c2 w3

  -- coach_capture_last_pokemon, which sends a code that connection_send does not know.
  unfoldable pub coach_capture_last_pokemon :
      CoachPokemon → Coach D → Mundo S F → Juego (ℕ × Estado)
  coach_capture_last_pokemon p c w =
      let (desde, f) = e.time w.sistema in
      tras (enviar 11 p.simbol (record w { sistema = f })) λ w1.
        tras (coach_recv e.recv w1.red) λ (q, s).
          let (hasta, f') = e.time w1.sistema in
          let c2 = con_espera hasta desde c in
          let w3 : Mundo S F = record w1 { red = s; sistema = f' } in
          if q.operation_code == 10
          then sigue (10, (c2, w3))
          else definido q.message λ ruta. definido (ultima (e.string_split ruta)) λ archivo.
            o_game_over
              (e.copy_file (e.path_pokedex ++ ruta) (ruta_de_bill c2.name archivo) w3.sistema)
              λ f''. sigue (q.operation_code, (c2, record w3 { sistema = f'' }))
