-- ===== src/Entrenador/Paquetes.antt =====
-- entrenador/src/Conexion/conexion.c with mapas/solicitudes.c: a packet on its way to the map.
use sisoputnfrba_tp_2016_2c.Base.{
  ℕ, suc, ◌%◌, ◌<◌, ◌≡◌, true, false, List, [], ◌∷◌, ◌++◌, some, refl, arith, ap, sym, ◌∙◌, lt→ltb,
  length, take, take-append,
}
use mathlib.Core.List.{append-nil}
use sisoputnfrba_tp_2016_2c.Mapas.State.{Ambiente, llegan}
use sisoputnfrba_tp_2016_2c.Mapas.Solicitudes.{Recibido, es_mensaje, es_coordenada}
use sisoputnfrba_tp_2016_2c.Mapas.Solicitudes.Atencion.{connection_recv, recibir_mensaje}
use sisoputnfrba_tp_2016_2c.Entrenador.{es_cadena, connection_send}

-- The code and the message that have been sent.
abbrev pub Entregado : ℕ → List ℕ → List ℕ → Recibido × List ℕ → Type 0
Entregado op bs rest (r, s) =
    (0 < r.ret) × (r.operation_code ≡ some op) × (r.message ≡ some bs) × (s ≡ rest)

-- `recv` gives as many bytes as are asked for, where they are there.
abbrev pub Entera : Ambiente (List ℕ) → Type 0
Entera e =
    (socket n : ℕ) (bs rest : List ℕ)
    → 0 < n
    → length bs ≡ n
    → e.recv socket n (bs ++ rest) ≡ (llegan bs, rest)

es_cadena-es_mensaje : (op : ℕ) → es_cadena op ≡ true → es_mensaje op ≡ true
es_cadena-es_mensaje op h = ground arith

es_cadena-es_coordenada : (op : ℕ) → es_cadena op ≡ true → es_coordenada op ≡ false
es_cadena-es_coordenada op h = ground arith

take_todo : (bs : List ℕ) → take (length bs) bs ≡ bs
take_todo bs = ap (take (length bs)) (sym (append-nil bs)) ∙ take-append bs []

pub cadena_enviada :
    (op : ℕ) (bs : List ℕ)
    → es_cadena op ≡ true
    → length bs < 256
    → connection_send op bs ≡ some (op ∷ length bs ∷ bs)
unfolding connection_send
cadena_enviada op bs h l =
    let n : length bs % 256 ≡ length bs = omega arith in
    rw (es_cadena-es_coordenada op h) (rw h (rw n (rw (take_todo bs) refl)))

pub cadena_recibida :
    (e : Ambiente (List ℕ)) (socket op : ℕ) (bs rest : List ℕ)
    → Entera e
    → es_cadena op ≡ true
    → Entregado op bs rest (connection_recv e socket (op ∷ length bs ∷ (bs ++ rest)))
unfolding connection_recv recibir_mensaje
cadena_recibida e socket op [] rest w h =
    let a = w socket 1 (op ∷ []) (0 ∷ rest) (omega arith) refl in
    let b = w socket 1 (0 ∷ []) rest (omega arith) refl in
    rw a (
      rw b (
        rw (es_cadena-es_coordenada op h)
          (rw (es_cadena-es_mensaje op h) (omega arith, refl, refl, refl))))
cadena_recibida e socket op (x ∷ xs) rest w h =
    let n = length (x ∷ xs) in
    let a = w socket 1 (op ∷ []) (n ∷ ((x ∷ xs) ++ rest)) (omega arith) refl in
    let b = w socket 1 (n ∷ []) ((x ∷ xs) ++ rest) (omega arith) refl in
    let z = lt→ltb 0 (suc (length xs)) (omega arith) in
    let c = w socket n (x ∷ xs) rest (omega arith) refl in
    rw a (
      rw b (
        rw (es_cadena-es_coordenada op h)
          (rw (es_cadena-es_mensaje op h) (rw z (rw c (omega arith, refl, refl, refl))))))

-- What connection_send of the trainer sends for a string of less than 256 bytes, with a code that
-- it knows for a string, connection_recv of the map receives as the same code and the same string,
-- and the stream goes on behind it. `recv` is taken to give as many bytes as are asked for, where
-- they are there.
pub connection_recv-connection_send :
    (e : Ambiente (List ℕ)) (socket op : ℕ) (bs rest : List ℕ)
    → Entera e
    → es_cadena op ≡ true
    → length bs < 256
    → (p : List ℕ) × (connection_send op bs ≡ some p)
      × Entregado op bs rest (connection_recv e socket (p ++ rest))
connection_recv-connection_send e socket op bs rest w h l =
    (op ∷ length bs ∷ bs, cadena_enviada op bs h l, cadena_recibida e socket op bs rest w h)
