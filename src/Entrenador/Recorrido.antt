-- ===== src/Entrenador/Recorrido.antt =====
-- entrenador/src/Entrenador/entrenador.c with mapas/solicitudes.c: the walk of a trainer on a map.
use sisoputnfrba_tp_2016_2c.Base.{
  ℕ, zero, suc, ◌+◌, ◌-◌, ◌%◌, ◌<◌, ◌≤◌, ◌≡◌, true, false, Option, none, some, refl, arith, ◌⊎◌,
  inl, inr, ltb, Bool-cases,
}
use sisoputnfrba_tp_2016_2c.Mapas.State.{Entrenador}
use sisoputnfrba_tp_2016_2c.Mapas.Solicitudes.{mover}
use sisoputnfrba_tp_2016_2c.Entrenador.{
  Coor, coor_equals, mover_horizontalmente, calcular_movimiento, mover_hasta, coach_move_to_pokemon,
}

-- How the map answers to a movement: it moves the trainer and sends the position, a byte for each
-- coordinate.
abbrev pub responde_mapa : ℕ → Entrenador → Coor × Entrenador
responde_mapa d t = let t' = mover d t in (record { x = t'.posx % 256; y = t'.posy % 256 }, t')

abbrev pub entre : ℕ → ℕ → ℕ
entre a b = (a - b) + (b - a)

abbrev pub a_pie : Coor → Coor → ℕ
a_pie a b = entre a.x b.x + entre a.y b.y

-- The map has the trainer where the trainer believes to be.
abbrev pub EstaEn : Entrenador → Coor → Type 0
EstaEn t a = (t.posx ≡ a.x) × (t.posy ≡ a.y) × (a.x < 256) × (a.y < 256)

-- The direction is one in which the PokeNest lies.
calcular_movimiento-cases :
    (last : ℕ) (a b : Coor)
    → coor_equals a b ≡ false
    → ((calcular_movimiento last a b ≡ 77) × (a.x < b.x))
      ⊎ (((calcular_movimiento last a b ≡ 75) × (b.x < a.x))
          ⊎ (((calcular_movimiento last a b ≡ 80) × (a.y < b.y))
              ⊎ ((calcular_movimiento last a b ≡ 72) × (b.y < a.y))))
unfolding calcular_movimiento
calcular_movimiento-cases last a b ne = elim (Bool-cases (mover_horizontalmente last a b)) [
  | inl h ↦ elim (Bool-cases (ltb a.x b.x)) [
    | inl l ↦ inl (rw h (rw l refl), ground arith)
    | inr l ↦ inr (inl (rw h (rw l refl), ground (arith, h)))
  ]
  | inr h ↦ elim (Bool-cases (ltb a.y b.y)) [
    | inl l ↦ inr (inr (inl (rw h (rw l refl), ground arith)))
    | inr l ↦ inr (inr (inr (rw h (rw l refl), ground (arith, h))))
  ]
]

-- A step of the map in such a direction.
abbrev pub Acerca : ℕ → Coor → Coor → Entrenador → Type 0
Acerca d a b t =
    EstaEn (responde_mapa d t).1 (responde_mapa d t).0
    × (suc (a_pie (responde_mapa d t).0 b) ≡ a_pie a b)

direccion-Acerca :
    (d : ℕ) (a b : Coor) (t : Entrenador)
    → EstaEn t a
    → b.x < 256
    → b.y < 256
    → ((d ≡ 77) × (a.x < b.x))
      ⊎ (((d ≡ 75) × (b.x < a.x)) ⊎ (((d ≡ 80) × (a.y < b.y)) ⊎ ((d ≡ 72) × (b.y < a.y))))
    → Acerca d a b t
direccion-Acerca d a b t (px, py, ax, ay) bx by c = elim c [
  | inl (e, l) ↦ rw e ((omega arith, omega arith, omega arith, omega arith), omega arith)
  | inr (inl (e, l)) ↦ rw e ((omega arith, omega arith, omega arith, omega arith), omega arith)
  | inr (inr (inl (e, l))) ↦
      rw e ((omega arith, omega arith, omega arith, omega arith), omega arith)
  | inr (inr (inr (e, l))) ↦
      rw e ((omega arith, omega arith, omega arith, omega arith), omega arith)
]

paso-Acerca :
    (last : ℕ) (a b : Coor) (t : Entrenador)
    → EstaEn t a
    → b.x < 256
    → b.y < 256
    → coor_equals a b ≡ false
    → Acerca (calcular_movimiento last a b) a b t
paso-Acerca last a b t e bx by ne =
    direccion-Acerca (calcular_movimiento last a b) a b t e bx by
      (calcular_movimiento-cases last a b ne)

llegado-a_pie : (a b : Coor) → coor_equals a b ≡ true → a_pie a b ≡ 0
llegado-a_pie a b h = ground arith

sin_llegar-a_pie : (a b : Coor) → coor_equals a b ≡ false → 0 < a_pie a b
sin_llegar-a_pie a b h = ground arith

-- The walk has ended at the PokeNest, with the map having the trainer there.
abbrev pub Llegado : Coor → Option (Coor × Entrenador) → Type 0
Llegado b o =
    (a : Coor) × (t : Entrenador) × (o ≡ some (a, t)) × (coor_equals a b ≡ true) × EstaEn t a

mover_hasta-Llegado :
    (k last : ℕ) (a b : Coor) (t : Entrenador)
    → EstaEn t a
    → b.x < 256
    → b.y < 256
    → (a_pie a b < k → Llegado b (mover_hasta responde_mapa k last a b t))
      × (k ≤ a_pie a b → mover_hasta responde_mapa k last a b t ≡ none)
unfolding mover_hasta
mover_hasta-Llegado zero last a b t e bx by = (λ l. absurd (omega arith), λ l. refl)
mover_hasta-Llegado (suc k) last a b t e bx by = elim (Bool-cases (coor_equals a b)) [
  | inl h ↦ let z = llegado-a_pie a b h in (λ l. (a, t, rw h refl, h, e), λ l. absurd (omega arith))
  | inr h ↦
      let d = calcular_movimiento last a b in
      let r = responde_mapa d t in
      let (e', c) = paso-Acerca last a b t e bx by h in
      let (f, g) = mover_hasta-Llegado k d r.0 b r.1 e' bx by in
      (λ l. rw h (f (omega arith)), λ l. rw h (g (omega arith)))
]

-- A trainer that the map has where it believes to be walks to a PokeNest with coordinates of one
-- byte, from coordinates of one byte: the loop ends there, and the map has it there, after exactly
-- as many moves as the two are apart, along both axes together; without the round that finds this
-- out it has not ended.
pub coach_move_to_pokemon-Llegado :
    (a b : Coor) (t : Entrenador)
    → EstaEn t a
    → b.x < 256
    → b.y < 256
    → Llegado b (coach_move_to_pokemon responde_mapa (suc (a_pie a b)) a b t)
      × (coach_move_to_pokemon responde_mapa (a_pie a b) a b t ≡ none)
unfolding coach_move_to_pokemon
coach_move_to_pokemon-Llegado a b t e bx by = (
  (mover_hasta-Llegado (suc (a_pie a b)) 77 a b t e bx by).0 (omega arith),
  (mover_hasta-Llegado (a_pie a b) 77 a b t e bx by).1 (omega arith),
)
