-- ===== src/Mapas/Conexiones.antt =====
-- nivel-test.c: how a trainer comes to the map, and what manejar_select does when a socket can be
-- read; the handshake of solicitudes.c.
use sisoputnfrba_tp_2016_2c.Base.{
  ℕ, ◌%◌, Bool, true, false, List, [], ◌∷◌, ◌++◌, Option, none, some, ◌==◌, if◌then◌else◌, ◌>>=◌,
  update, leb, suc, zero,
}
use sisoputnfrba_tp_2016_2c.Mapas.State.{
  Entrenador, Llegada, llegan, cerrado, fallo, envia, crea_personaje, Mapa, Ambiente, con_salida,
  con_entrenador,
}
use sisoputnfrba_tp_2016_2c.Mapas.Solicitudes.{Recibido, primero, ruta_medalla, paquete}
use sisoputnfrba_tp_2016_2c.Mapas.Solicitudes.Atencion.{connection_recv}
use sisoputnfrba_tp_2016_2c.Mapas.Planificacion.{quitar, esta, liberar_recursos}

unfoldable pub crear_entrenador : ℕ → ℕ → List ℕ → Entrenador
crear_entrenador socket simbolo nombre = record {
  nombre = nombre;
  posx = 1;
  posy = 1;
  id = socket;
  simbolo = simbolo;
  pokenest_buscada = 0;
  cant_deadlocks = 0;
  ultimo_pokemon = false;
  pokemons = [];
}

module _ {S : Type 0} (e : Ambiente S) where
  -- A packet of the handshake with the code that has to come; another code ends the process.
  abbrev pub si_codigo :
      Recibido × S → ℕ → (List ℕ → S → Option (ℕ × List ℕ × Mapa S)) → Option (ℕ × List ℕ × Mapa S)
  si_codigo (r, s) op go = do
    op' ← r.operation_code
    bs ← r.message
    (if op' == op then go bs s else none)

  abbrev pub si_nombre :
      Recibido × S → (List ℕ → S → Option (ℕ × List ℕ × Mapa S)) → Option (ℕ × List ℕ × Mapa S)
  si_nombre (r, s) go = do bs ← r.message; go bs s

  -- The symbol and the name of the trainer. The size that is sent is that of a pointer.
  unfoldable pub handshake : ℕ → Mapa S → Option (ℕ × List ℕ × Mapa S)
  handshake socket m = si_codigo (connection_recv e socket m.red) 2 λ bs s1.
      let m1 =
        con_salida (envia socket (6 ∷ e.size_of_pointer % 256 ∷ 1 ∷ 1 ∷ []))
          (record m { red = s1 }) in
      si_codigo (connection_recv e socket m1.red) 7 λ cs s2.
        let m2 =
          con_salida (envia socket (paquete 8 (ruta_medalla e.nombre_mapa)))
            (record m1 { red = s2 }) in
        si_nombre (connection_recv e socket m2.red)
          λ nombre s3. some (primero bs, nombre, record m2 { red = s3 })

  -- The listening socket can be read: `nueva` is what `accept` returns.
  unfoldable pub aceptar_entrenador : ℕ → Mapa S → Option (Mapa S)
  aceptar_entrenador nueva m = do
    r ← handshake nueva m
    let (simbolo, nombre, m') = r
    let t = crear_entrenador nueva simbolo nombre
    let m'' = con_salida (crea_personaje simbolo t.posx t.posy) (con_entrenador nueva t m')
    some (record m'' {
      entrenadores = m''.entrenadores ++ (nueva ∷ []);
      cola_listos = m''.cola_listos ++ (nueva ∷ []);
    })

  -- What `recv` gives for a socket of a blocked trainer, which is no longer in the queue.
  abbrev pub al_leer : ℕ → ℕ → Llegada × S → Mapa S → Option (Mapa S)
  al_leer k a (cerrado, s) m =
      liberar_recursos e k a (record m { red = s; master = update m.master a false })
  al_leer k a (fallo, s) m = some (record m { red = s })
  al_leer k a (llegan bs, s) m = some (record m { red = s })

  unfoldable pub revisar_bloqueado : ℕ → ℕ → Mapa S → Option (Mapa S)
  revisar_bloqueado k a m =
      if esta a m.cola_bloqueados
      then al_leer k a (e.recv a 512 m.red)
          (record m { cola_bloqueados = quitar a m.cola_bloqueados })
      else some m

  abbrev pub al_revisar : Bool → Bool → Option (Mapa S) → Option (Mapa S) → Mapa S → Option (Mapa S)
  al_revisar false es_servidor nuevo viejo m = some m
  al_revisar true true nuevo viejo m = nuevo
  al_revisar true false nuevo viejo m = viejo

  abbrev pub al_tope : Bool → Mapa S → Option (Mapa S) → Option (Mapa S)
  al_tope true m go = go
  al_tope false m go = some m

  -- The loop of manejar_select over the sockets from `a` on, of which `select` has found
  -- `lectura`; `nueva` is what `accept` returns. `none` also after `n` sockets.
  unfoldable pub manejar_select : ℕ → (ℕ → Bool) → ℕ → ℕ → ℕ → ℕ → Mapa S → Option (Mapa S)
  manejar_select k lectura socket nueva zero a m = none
  manejar_select k lectura socket nueva (suc n) a m = al_tope (leb a m.set_fd_max) m do
    m' ←
        al_revisar (lectura a) (a == socket) (aceptar_entrenador nueva m) (revisar_bloqueado k a m)
          m
    manejar_select k lectura socket nueva n (suc a) m'
