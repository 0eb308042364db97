-- ===== src/Entrenador/Presentado.antt =====
-- entrenador/src/Entrenador/entrenador.c with mapas/solicitudes.c: the two ends of the handshake.
use sisoputnfrba_tp_2016_2c.Base.{ℕ, ◌%◌, ◌<◌, ◌≡◌, List, [], ◌∷◌, ◌++◌, Option, some, refl, length}
use sisoputnfrba_tp_2016_2c.Mapas.State.{Mapa, Ambiente, envia}
use sisoputnfrba_tp_2016_2c.Mapas.Solicitudes.{primero, paquete, ruta_medalla}
use sisoputnfrba_tp_2016_2c.Mapas.Conexiones.{handshake}
use sisoputnfrba_tp_2016_2c.Entrenador.{Coor}
use sisoputnfrba_tp_2016_2c.Entrenador.Paquetes.{Entera, cadena_enviada, cadena_recibida}
use sisoputnfrba_tp_2016_2c.Entrenador.Captura.{Coach, Mundo, Entorno, Paquete, sigue, coach_recv}
use sisoputnfrba_tp_2016_2c.Entrenador.Saludo.{handshake_coach}

module _ {D S F : Type 0} (e : Entorno D S F) (a : Ambiente (List ℕ)) where
  -- The three packets of the trainer, and what the map reads in them.
  pub data Presentado (socket : ℕ) (simbol : List ℕ) (c : Coach D) (w : Mundo S F)
      (m : Mapa (List ℕ)) (rest : List ℕ) (medalla : Option (List ℕ)) (donde : Coor) : Type 0 where
    presentado :
        (p q r : List ℕ) (w' : Mundo S F) (m' : Mapa (List ℕ))
        → handshake_coach e simbol c w ≡ sigue (donde, (medalla, w'))
        → w'.enviado ≡ ((w.enviado ++ (p ∷ [])) ++ (q ∷ [])) ++ (r ∷ [])
        → handshake a socket (record m { red = p ++ (q ++ (r ++ rest)) })
          ≡ some (primero simbol, c.name, m')
        → m'.red ≡ rest
        → Presentado socket simbol c w m rest medalla donde

  mapa_recibe :
      (socket : ℕ) (simbol nombre rest : List ℕ) (m : Mapa (List ℕ))
      → Entera a
      → (m' : Mapa (List ℕ)) × (handshake a socket (record m {
        red =
            2
            ∷ length simbol
            ∷ (simbol ++ (7 ∷ length simbol ∷ (simbol ++ (0 ∷ length nombre ∷ (nombre ++ rest)))));
      })
          ≡ some (primero simbol, nombre, m'))
        × (m'.red ≡ rest)
  unfolding handshake
  mapa_recibe socket simbol nombre rest m w =
      let s2 = 0 ∷ length nombre ∷ (nombre ++ rest) in
      let s1 = 7 ∷ length simbol ∷ (simbol ++ s2) in
      let (z1, o1, b1, r1) = cadena_recibida a socket 2 simbol s1 w refl in
      let (z2, o2, b2, r2) = cadena_recibida a socket 7 simbol s2 w refl in
      let (z3, o3, b3, r3) = cadena_recibida a socket 0 nombre rest w refl in
      let visto : Mapa (List ℕ) = record m {
        red = rest;
        salidas =
            envia socket (paquete 8 (ruta_medalla a.nombre_mapa))
            ∷ (envia socket (6 ∷ a.size_of_pointer % 256 ∷ 1 ∷ 1 ∷ []) ∷ m.salidas);
      } in
      (visto, rw o1 (rw b1 (rw r1 (rw o2 (rw b2 (rw r2 (rw b3 (rw r3 refl))))))), refl)

  -- Where the trainer receives two packets, the first with the coordinates, and its symbol and name
  -- have less than 256 bytes, its handshake sends three packets and returns the coordinates and the
  -- message of the second packet; and the handshake of the map, for these three packets one behind
  -- the other, returns the first byte of the symbol and the name, and leaves the stream behind them.
  -- `recv` of the map is taken to give as many bytes as are asked for, where they are there.
  pub handshake-handshake_coach :
      (socket : ℕ) (simbol : List ℕ) (c : Coach D) (w : Mundo S F) (m : Mapa (List ℕ))
      (rest : List ℕ) (p q : Paquete) (s1 s2 : S) (x y : ℕ) (xs : List ℕ)
      → Entera a
      → length simbol < 256
      → length c.name < 256
      → coach_recv e.recv w.red ≡ sigue (p, s1)
      → coach_recv e.recv s1 ≡ sigue (q, s2)
      → p.message ≡ some (x ∷ y ∷ xs)
      → Presentado socket simbol c w m rest q.message (record { x = x; y = y })
  unfolding handshake_coach
  handshake-handshake_coach socket simbol c w m rest p q s1 s2 x y xs t l n h1 h2 h3 =
      let e2 = cadena_enviada 2 simbol refl l in
      let e7 = cadena_enviada 7 simbol refl l in
      let e0 = cadena_enviada 0 c.name refl n in
      let (m', f, g) = mapa_recibe socket simbol c.name rest m t in
      presentado (2 ∷ length simbol ∷ simbol) (7 ∷ length simbol ∷ simbol)
        (0 ∷ length c.name ∷ c.name)
        (record w {
          red = s2;
          enviado =
              ((w.enviado ++ ((2 ∷ length simbol ∷ simbol) ∷ []))
                ++ ((7 ∷ length simbol ∷ simbol) ∷ []))
              ++ ((0 ∷ length c.name ∷ c.name) ∷ []);
        })
        m' (rw e2 (rw h1 (rw e7 (rw h2 (rw e0 (rw h3 refl)))))) refl f g
