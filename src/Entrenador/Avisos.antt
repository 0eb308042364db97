-- ===== src/Entrenador/Avisos.antt =====
-- entrenador/src/Conexion/conexion.c: the packets that a trainer receives while it waits.
use sisoputnfrba_tp_2016_2c.Base.{
  ℕ, suc, ◌+◌, ◌<◌, ◌≡◌, Bool, true, false, List, [], ◌∷◌, ◌++◌, some, refl, arith, lt→ltb, length,
  ◌==◌, ◌||◌,
}
use sisoputnfrba_tp_2016_2c.Mapas.State.{Llegada, llegan}
use sisoputnfrba_tp_2016_2c.Mapas.Solicitudes.{es_coordenada}
use sisoputnfrba_tp_2016_2c.Entrenador.{connection_send}
use sisoputnfrba_tp_2016_2c.Entrenador.Captura.{sigue, cadena_de_coach, coach_recv}

-- `recv` gives as many bytes as are asked for, where they are there.
abbrev pub Completa : (ℕ → List ℕ → Llegada × List ℕ) → Type 0
Completa recv =
    (n : ℕ) (bs rest : List ℕ) → 0 < n → length bs ≡ n → recv n (bs ++ rest) ≡ (llegan bs, rest)

-- The bytes of packets with their codes, in front of a stream.
abbrev pub en_red : List (ℕ × List ℕ) → List ℕ → List ℕ
en_red [] rest = rest
en_red ((op, bs) ∷ ps) rest = op ∷ length bs ∷ (bs ++ en_red ps rest)

-- What the map tells a trainer that waits: battles (17), and that one is won (16) or lost (15).
abbrev pub EsAviso : ℕ × List ℕ → Type 0
EsAviso (op, bs) = (((op == 17) || ((op == 16) || (op == 15))) ≡ true) × (length bs < 256)

abbrev pub SonAvisos : List (ℕ × List ℕ) → Type 0
SonAvisos [] = Unit {0}
SonAvisos (p ∷ ps) = EsAviso p × SonAvisos ps

abbrev pub uno_si : Bool → ℕ → ℕ
uno_si true n = suc n
uno_si false n = n

abbrev pub cuantas : ℕ → List (ℕ × List ℕ) → ℕ
cuantas c [] = 0
cuantas c ((op, bs) ∷ ps) = uno_si (op == c) (cuantas c ps)

pub aviso-cadena :
    (op : ℕ) → ((op == 17) || ((op == 16) || (op == 15))) ≡ true → cadena_de_coach op ≡ true
aviso-cadena op v = ground arith

pub aviso-sigue :
    (op : ℕ)
    → ((op == 17) || ((op == 16) || (op == 15))) ≡ true
    → ((op == 14) || (op == 10)) ≡ false
aviso-sigue op v = ground arith

pub paquete_recibido :
    (recv : ℕ → List ℕ → Llegada × List ℕ) (op : ℕ) (bs rest : List ℕ)
    → Completa recv
    → cadena_de_coach op ≡ true
    → coach_recv recv (op ∷ length bs ∷ (bs ++ rest))
      ≡ sigue (record { operation_code = op; message = some bs }, rest)
unfolding coach_recv
paquete_recibido recv op [] rest w h =
    let a = w 1 (op ∷ []) (0 ∷ rest) (omega arith) refl in
    let b = w 1 (0 ∷ []) rest (omega arith) refl in
    let n : es_coordenada op ≡ false = ground arith in rw a (rw b (rw n (rw h refl)))
paquete_recibido recv op (x ∷ xs) rest w h =
    let n = length (x ∷ xs) in
    let a = w 1 (op ∷ []) (n ∷ ((x ∷ xs) ++ rest)) (omega arith) refl in
    let b = w 1 (n ∷ []) ((x ∷ xs) ++ rest) (omega arith) refl in
    let c = w n (x ∷ xs) rest (omega arith) refl in
    let z = lt→ltb 0 (suc (length xs)) (omega arith) in
    let o : es_coordenada op ≡ false = ground arith in rw a (rw b (rw o (rw h (rw z (rw c refl)))))

pub uno_si-suma : (b : Bool) (n : ℕ) → uno_si b n ≡ uno_si b 0 + n
uno_si-suma true n = omega arith
uno_si-suma false n = omega arith

pub cadena_4 : (bs : List ℕ) → (p : List ℕ) × (connection_send 4 bs ≡ some p)
unfolding connection_send
cadena_4 bs = (_, refl)
