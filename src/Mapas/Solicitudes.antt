-- ===== src/Mapas/Solicitudes.antt =====
-- solicitudes.c, and the paths and strings that it takes from nivel-test.c and
-- bibliotecaCharMander.c: what a trainer sends and how the map answers.
pub mod Atencion
pub mod Answers
pub mod Contadas
pub mod Atendidas
use sisoputnfrba_tp_2016_2c.Base.{
  ℕ, zero, suc, ◌+◌, ◌-◌, ◌%◌, ◌^◌, ◌<◌, ◌≡◌, Bool, true, false, not, ◌&&◌, ◌||◌, List, [], ◌∷◌,
  ◌++◌, Option, none, some, arith, ltb, ◌==◌, if◌then◌else◌, length, take, strcmp, ◌>>=◌, update,
}
use sisoputnfrba_tp_2016_2c.Mapas.State.{
  Pokemon, InfoPokemon, Entrenador, PokeNest, Llegada, llegan, cerrado, fallo, Salida, envia,
  crea_personaje, mueve_personaje, resta_recurso, Mapa, Ambiente, con_salida, con_entrenador,
}

-- What connection_recv returns, and its two out parameters where it has set them.
pub record Recibido : Type 0 where
  pub ret : ℕ
  pub operation_code : Option ℕ
  pub message : Option (List ℕ)

-- The first byte of a message; the message ends with a zero.
abbrev pub primero : List ℕ → ℕ
primero [] = 0
primero (b ∷ bs) = b

abbrev pub desconectado : Option ℕ → Recibido
desconectado op = record { ret = 0; operation_code = op; message = none }

abbrev pub si_llegan : {S R : Type 0} → Llegada × S → (S → R) → (List ℕ → S → R) → R
si_llegan (llegan bs, s) gone go = go bs s
si_llegan (cerrado, s) gone go = gone s
si_llegan (fallo, s) gone go = gone s

abbrev pub es_coordenada : ℕ → Bool
es_coordenada op = (op == 5) || (op == 6)

abbrev pub es_mensaje : ℕ → Bool
es_mensaje op =
    (op == 1)
    || ((op == 2)
        || ((op == 3)
            || ((op == 13)
                || ((op == 4) || ((op == 7) || ((op == 8) || ((op == 14) || (op == 0))))))))

-- PokeNests by their id: the first one, and a change of the first one.
unfoldable pub buscar_pokenest : List PokeNest → ℕ → Option PokeNest
buscar_pokenest [] id = none
buscar_pokenest (n ∷ ns) id = if n.id == id then some n else buscar_pokenest ns id

unfoldable pub cambiar_pokenest : (PokeNest → PokeNest) → ℕ → List PokeNest → List PokeNest
cambiar_pokenest f id [] = []
cambiar_pokenest f id (n ∷ ns) = if n.id == id then f n ∷ ns else n ∷ cambiar_pokenest f id ns

-- comparar_strings on the bytes of two strings of one length; `none`: the end of the function
-- without a `return`. A `char` has a sign.
abbrev pub con_signo : ℕ → ℕ
con_signo c = (c + 128) % 256

unfoldable pub comparar_letras : List ℕ → List ℕ → Option Bool
comparar_letras [] ys = none
comparar_letras (x ∷ xs) [] = none
comparar_letras (x ∷ xs) (y ∷ ys) =
    let rest = comparar_letras xs ys in
    if x == y then rest else some (ltb (con_signo x) (con_signo y))

-- For two lengths it is `strcmp`, of which every value but 0 is true.
unfoldable pub comparar_strings : List ℕ → List ℕ → Option Bool
comparar_strings xs ys =
    if length xs == length ys then comparar_letras xs ys else some (not (strcmp xs ys))

-- "Mapas/", "/PokeNests", "/medalla-" and ".jpg".
abbrev pub ruta_mapa : List ℕ → List ℕ
ruta_mapa nombre = (77 ∷ 97 ∷ 112 ∷ 97 ∷ 115 ∷ 47 ∷ []) ++ nombre

abbrev pub ruta_pokenests : List ℕ → List ℕ
ruta_pokenests nombre =
    ruta_mapa nombre ++ (47 ∷ 80 ∷ 111 ∷ 107 ∷ 101 ∷ 78 ∷ 101 ∷ 115 ∷ 116 ∷ 115 ∷ [])

abbrev pub ruta_pokemon : List ℕ → List ℕ → List ℕ
ruta_pokemon rutas especie = rutas ++ (47 ∷ especie)

abbrev pub ruta_medalla : List ℕ → List ℕ
ruta_medalla nombre =
    ruta_mapa nombre
    ++ ((47 ∷ 109 ∷ 101 ∷ 100 ∷ 97 ∷ 108 ∷ 108 ∷ 97 ∷ 45 ∷ [])
        ++ (nombre ++ (46 ∷ 106 ∷ 112 ∷ 103 ∷ [])))

-- A packet: the operation code, the length in one byte, and as many bytes.
unfoldable pub paquete : ℕ → List ℕ → List ℕ
paquete op bs = op ∷ length bs % 256 ∷ take (length bs % 256) bs

-- What an exchange returns: `none` where the code exits, or goes on through a pointer that is
-- null, freed or not set.
pub data Respuesta : Type 0 where
  turno_normal desconexion capturo_pokemon no_encontro_pokemon : Respuesta

-- OC_AVANZAR_POSICION: an `int` wraps around.
abbrev pub mover : ℕ → Entrenador → Entrenador
mover d t =
    if d == 72
    then record t { posy = (t.posy + (2 ^ 32 - 1)) % 2 ^ 32 }
    else if d == 80
    then record t { posy = (t.posy + 1) % 2 ^ 32 }
    else if d == 77
    then record t { posx = (t.posx + 1) % 2 ^ 32 }
    else if d == 75
    then record t { posx = (t.posx + (2 ^ 32 - 1)) % 2 ^ 32 }
    else t
