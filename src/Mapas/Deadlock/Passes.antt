-- ===== src/Mapas/Deadlock/Passes.antt =====
-- deteccionDeadlock.c: the three ways in which a pass over the trainers goes on.
use sisoputnfrba_tp_2016_2c.Base.{
  ℕ, ◌≡◌, ◌⊎◌, inl, inr, Bool, true, false, List, ◌∷◌, Option, none, some, arith, refl, ap,
  Bool-cases,
}
use sisoputnfrba_tp_2016_2c.Mapas.State.{above_zero}
use sisoputnfrba_tp_2016_2c.Mapas.Deadlock.{
  Fila, Vuelta, primer_pedido, celda, servir, soltar, paso_con, paso, con_fila, con_resto, pasada,
}

-- The request of a trainer that waits is seen.
abbrev pub visto : Vuelta → Vuelta
visto v = record v { tiene_un_pedido = true }

-- The rest of a pass behind the row `f` and with `v`.
abbrev pub Sigue :
    (Vuelta → Option (List Fila × Vuelta)) → Fila → Vuelta → List Fila → Vuelta → Type 0
Sigue go f v gs w = (fs : List Fila) × (go v ≡ some (fs, w)) × (gs ≡ f ∷ fs)

-- A request is served, a trainer waits, or a trainer without a request gives back.
abbrev pub Casos :
    (Vuelta → Option (List Fila × Vuelta)) → Fila → Vuelta → List Fila → Vuelta → Type 0
Casos go f v gs w =
    ((j : ℕ) × (primer_pedido f.pedidos ≡ some j)
      × (above_zero (celda j v.disponibles) ≡ true)
      × Sigue go (servir j f v).0 (servir j f v).1 gs w)
    ⊎ (((j : ℕ) × (primer_pedido f.pedidos ≡ some j)
          × (above_zero (celda j v.disponibles) ≡ false)
          × Sigue go f (visto v) gs w)
        ⊎ ((primer_pedido f.pedidos ≡ none)
            × (v.tiene_un_pedido ≡ false)
            × Sigue go (soltar f v).0 (soltar f v).1 gs w))

con_resto-some :
    (f : Fila) (q : Option (List Fila × Vuelta)) (gs : List Fila) (w : Vuelta)
    → con_resto f q ≡ some (gs, w)
    → (fs : List Fila) × (q ≡ some (fs, w)) × (gs ≡ f ∷ fs)
con_resto-some f none gs w h = cc
con_resto-some f (some (fs, v')) gs w h =
    let k : v' ≡ w = ground arith in (fs, ap (λ x. some (fs, x)) k, ground arith)

paso_con-Casos :
    (f : Fila) (v : Vuelta) (go : Vuelta → Option (List Fila × Vuelta)) (o : Option ℕ) (t : Bool)
    (gs : List Fila) (w : Vuelta)
    → primer_pedido f.pedidos ≡ o
    → v.tiene_un_pedido ≡ t
    → con_fila (paso_con f v o t) go ≡ some (gs, w)
    → Casos go f v gs w
paso_con-Casos f v go (some j) t gs w e et h =
    elim (Bool-cases (above_zero (celda j v.disponibles))) [
      | inl z ↦ inl (j, e, z, con_resto-some _ _ gs w (rw z at h))
      | inr z ↦ inr (inl (j, e, z, con_resto-some _ _ gs w (rw z at h)))
    ]
paso_con-Casos f v go none true gs w e et h = cc
paso_con-Casos f v go none false gs w e et h = inr (inr (e, et, con_resto-some _ _ gs w h))

pub pasada-Casos :
    (f : Fila) (fs : List Fila) (v : Vuelta) (gs : List Fila) (w : Vuelta)
    → pasada (f ∷ fs) v ≡ some (gs, w)
    → Casos (λ v'. pasada fs v') f v gs w
unfolding pasada paso
pasada-Casos f fs v gs w h =
    paso_con-Casos f v (λ v'. pasada fs v') (primer_pedido f.pedidos) v.tiene_un_pedido gs w refl
      refl h
