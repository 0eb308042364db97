-- ===== src/Pokedex/Requests.antt =====
-- pokedex-server.c: process_request, and how each handler receives the fields of its request.
pub mod Sent
pub mod Examples
use sisoputnfrba_tp_2016_2c.Base.{
  ℕ, zero, suc, ◌+◌, ◌*◌, ◌≡◌, Bool, true, false, List, [], ◌∷◌, Option, none, some, ◌==◌, ◌>>=◌,
  if◌then◌else◌, length,
}
use sisoputnfrba_tp_2016_2c.Pokedex.State.{Server}
use sisoputnfrba_tp_2016_2c.Pokedex.Search.{Env, name_bytes}
use sisoputnfrba_tp_2016_2c.Pokedex.Walk.{Answer}
use sisoputnfrba_tp_2016_2c.Pokedex.Content.{
  Outcome, osada_write, osada_read, osada_truncate, osada_unlink,
}
use sisoputnfrba_tp_2016_2c.Pokedex.Nodes.{
  osada_mkdir, osada_readdir, osada_getattr, osada_mknod, osada_rmdir, osada_rename,
}

-- A request with the fields that its handler receives.
pub data Request : Type 0 where
  mkdir readdir getattr mknod : List ℕ → Request
  -- path, offset and bytes
  write : List ℕ → ℕ → List ℕ → Request
  -- path, size and offset
  read : List ℕ → ℕ → ℕ → Request
  truncate : List ℕ → ℕ → Request
  unlink rmdir : List ℕ → Request
  rename : List ℕ → List ℕ → Request

-- The bytes of a `uint32_t` in memory, the lowest first.
unfoldable pub le32 : List ℕ → ℕ
le32 [] = 0
le32 (b ∷ bs) = b + 256 * le32 bs

-- The bytes before the first zero.
unfoldable pub c_string : List ℕ → List ℕ
c_string bs = name_bytes (length bs) bs

-- What is received, or nothing where the handler returns early, and the stream behind it.
abbrev pub Received : Type 0 → Type 0 → Type 0
Received Stream A = Option A × Stream

abbrev pub and_then : {S A B : Type 0} → Received S A → (A → S → Received S B) → Received S B
and_then (none, st) go = (none, st)
and_then (some a, st) go = go a st

-- The handler that the operation code selects.
unfoldable pub perform : ℕ → Env → Request → Server → Outcome
perform fuel e (mkdir p) s = some (osada_mkdir e p s)
perform fuel e (readdir p) s = some (osada_readdir p s)
perform fuel e (getattr p) s = some (osada_getattr p s)
perform fuel e (mknod p) s = some (osada_mknod e p s)
perform fuel e (write p offset bytes) s = osada_write fuel e p bytes offset s
perform fuel e (read p size offset) s = osada_read fuel p size offset s
perform fuel e (truncate p size) s = osada_truncate fuel p size s
perform fuel e (unlink p) s = osada_unlink fuel p s
perform fuel e (rmdir p) s = some (osada_rmdir p s)
perform fuel e (rename p q) s = some (osada_rename e p q s)

abbrev pub Served : Type 0
Served = Option (List Answer × Server)

-- A request is performed and the rest goes on with the new server.
unfoldable pub serve_one : ℕ → Env → Request → Server → (Server → Served) → Served
serve_one fuel e r s go = do
  (a, s') ← perform fuel e r s
  (answers, s'') ← go s'
  some (a ∷ answers, s'')

-- `recv(socket, buffer, n, MSG_WAITALL)` on the stream of the client: the bytes, or nothing where
-- it returns 0 or less.
module _ {Stream : Type 0} (recv : ℕ → Stream → Received Stream (List ℕ)) where
  unfoldable pub receive_u32 : Stream → Received Stream ℕ
  receive_u32 st = and_then (recv 4 st) λ bs st'. (some (le32 bs), st')

  unfoldable pub receive_path : Stream → Received Stream (List ℕ)
  receive_path st =
      and_then (receive_u32 st) λ n st'. and_then (recv n st') λ bs st''. (some (c_string bs), st'')

  abbrev pub receive_one : (List ℕ → Request) → Stream → Received Stream Request
  receive_one make st = and_then (receive_path st) λ p st'. (some (make p), st')

  unfoldable pub receive_write : Stream → Received Stream Request
  receive_write st = and_then (receive_path st) λ p st1. and_then (receive_u32 st1) λ size st2.
      and_then (receive_u32 st2)
        λ offset st3. and_then (recv size st3) λ bytes st4. (some (write p offset bytes), st4)

  unfoldable pub receive_read : Stream → Received Stream Request
  receive_read st = and_then (receive_path st) λ p st1.
      and_then (receive_u32 st1)
        λ size st2. and_then (receive_u32 st2) λ offset st3. (some (read p size offset), st3)

  unfoldable pub receive_truncate : Stream → Received Stream Request
  receive_truncate st =
      and_then (receive_path st)
        λ p st1. and_then (receive_u32 st1) λ size st2. (some (truncate p size), st2)

  unfoldable pub receive_rename : Stream → Received Stream Request
  receive_rename st =
      and_then (receive_path st)
        λ p st1. and_then (receive_path st1) λ q st2. (some (rename p q), st2)

  -- The `switch` over the operation code. For another code nothing is received.
  unfoldable pub receive : ℕ → Stream → Received Stream Request
  receive op st =
      if op == 1
      then receive_one mkdir st
      else if op == 2
      then receive_one readdir st
      else if op == 3
      then receive_one getattr st
      else if op == 4
      then receive_one mknod st
      else if op == 5
      then receive_write st
      else if op == 6
      then receive_read st
      else if op == 7
      then receive_truncate st
      else if op == 8
      then receive_one unlink st
      else if op == 9
      then receive_one rmdir st
      else if op == 10
      then receive_rename st
      else (none, st)

  -- One round of the loop of process_request: nothing where the client is gone, and otherwise what
  -- the handler has received.
  abbrev pub on_code : Received Stream (List ℕ) → Option (Received Stream Request)
  on_code (none, st) = none
  on_code (some bs, st) = some (receive (le32 bs) st)

  unfoldable pub next_request : Stream → Option (Received Stream Request)
  next_request st = on_code (recv 1 st)

  -- What the loop does with a round: the client is gone, nothing is performed, or a request is.
  abbrev pub on_request :
      Option (Received Stream Request)
      → Served
      → (Stream → Served)
      → (Request → Stream → Served)
      → Served
  on_request none stop skip go = stop
  on_request (some (none, st)) stop skip go = skip st
  on_request (some (some r, st)) stop skip go = go r st

  -- process_request: the answers in order, and the server when the client is gone. `none`: more
  -- than `n` rounds, or a loop over a chain without fuel.
  unfoldable pub process_request : ℕ → ℕ → Env → Stream → Server → Served
  process_request zero fuel e st s = none
  process_request (suc n) fuel e st s =
      on_request (next_request st) (some ([], s)) (λ st'. process_request n fuel e st' s)
        λ r st'. serve_one fuel e r s λ s'. process_request n fuel e st' s'
