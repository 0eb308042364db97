-- ===== src/Entrenador.antt =====
-- The process of a trainer (entrenador/src): how it walks to a PokeNest, and what it sends.
pub mod Recorrido
pub mod Paquetes
pub mod Captura
pub mod Avisos
pub mod Capturado
pub mod Saludo
pub mod Presentado
pub mod Completar
pub mod Viaje
mod Examples
use sisoputnfrba_tp_2016_2c.Base.{
  ℕ, zero, suc, ◌+◌, ◌<◌, ◌≡◌, Bool, true, false, not, ◌&&◌, ◌||◌, List, [], ◌∷◌, Option, none,
  some, ◌==◌, ltb, if◌then◌else◌, ◌>>=◌, ◌-◌, length, drop, take, ◌%◌,
}

-- `t_coor`.
pub record Coor : Type 0 where
  pub x : ℕ
  pub y : ℕ

abbrev pub coor_equals : Coor → Coor → Bool
coor_equals a b = (a.x == b.x) && (a.y == b.y)

-- MOVE_UP is 72, MOVE_LEFT 75, MOVE_RIGHT 77 and MOVE_DOWN 80.
abbrev pub mover_horizontalmente : ℕ → Coor → Coor → Bool
mover_horizontalmente last a b =
    (((last == 72) || (last == 80)) && not (a.x == b.x)) || (a.y == b.y)

unfoldable pub calcular_movimiento : ℕ → Coor → Coor → ℕ
calcular_movimiento last a b =
    if mover_horizontalmente last a b
    then if ltb a.x b.x then 77 else 75
    else if ltb a.y b.y
    then 80
    else 72

-- The map that the trainer is connected to: `responde` is the exchange of one OC_AVANZAR_POSICION,
-- the coordinates that come back and the map behind it.
module _ {M : Type 0} (responde : ℕ → M → Coor × M) where
  -- move_to, whose answer is the position of the trainer.
  abbrev pub move_to : ℕ → M → Coor × M
  move_to movement m = responde movement m

  -- The `while` of coach_move_to_pokemon in at most `k` rounds.
  abbrev pub si_llego : Bool → Coor × M → Option (Coor × M) → Option (Coor × M)
  si_llego true r go = some r
  si_llego false r go = go

  unfoldable pub mover_hasta : ℕ → ℕ → Coor → Coor → M → Option (Coor × M)
  mover_hasta zero last a b m = none
  mover_hasta (suc k) last a b m =
      let d = calcular_movimiento last a b in
      let r = move_to d m in si_llego (coor_equals a b) (a, m) (mover_hasta k d r.0 b r.1)

  unfoldable pub coach_move_to_pokemon : ℕ → Coor → Coor → M → Option (Coor × M)
  coach_move_to_pokemon k a b m = mover_hasta k 77 a b m

-- connection_send: the packet for a string, or for the two bytes of a `t_coor`. `none`: the size
-- has not been set.
abbrev pub es_cadena : ℕ → Bool
es_cadena op =
    (op == 1)
    || ((op == 2)
        || ((op == 3) || ((op == 4) || ((op == 7) || ((op == 8) || ((op == 0) || (op == 14)))))))

unfoldable pub connection_send : ℕ → List ℕ → Option (List ℕ)
connection_send op bs =
    if (op == 5) || (op == 6)
    then some (op ∷ 2 ∷ take 2 bs)
    else if es_cadena op
    then some (op ∷ length bs % 256 ∷ take (length bs % 256) bs)
    else none
