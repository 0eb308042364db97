-- ===== src/Pokedex/Client/Net.antt =====
-- pokedex-client.c with pokedex-server.c: the client at work on the server.
use sisoputnfrba_tp_2016_2c.Base.{
  ℕ, ◌%◌, ◌^◌, ◌<◌, ◌≡◌, refl, ap, sym, ◌∙◌, false, List, [], ◌∷◌, ◌++◌, Option, none, some, arith,
  ◌>>=◌, length, ◌==◌, if◌then◌else◌, lt→ltb,
}
use mathlib.Core.List.{append-nil}
use sisoputnfrba_tp_2016_2c.Pokedex.State.{Server, Status, status_code, sexe}
use sisoputnfrba_tp_2016_2c.Pokedex.Search.{Env}
use sisoputnfrba_tp_2016_2c.Pokedex.Walk.{Answer, code, attr, content}
use sisoputnfrba_tp_2016_2c.Pokedex.Requests.{
  Request, getattr, read, Received, le32, Served, serve_one, perform, process_request,
}
use sisoputnfrba_tp_2016_2c.Pokedex.Requests.Sent.{
  bytes32, length-bytes32, sent, IsSendable, all_sent, perform_all, process_request-all_sent,
}
use sisoputnfrba_tp_2016_2c.Pokedex.Client.{
  Ret, ret, minus, Reply, returns, reads, as_int, e_noent, FuseOp, one_code, ask_stat, copy_bytes,
  pk_read, pk_open, pk_oper, stat_reply,
}
use sisoputnfrba_tp_2016_2c.Pokedex.Client.Answers.{answer_bytes, reply_of, request_of, known_here}

-- The operation done on the server itself, without a socket.
abbrev pub unless_known : Option Reply → Server → Option (Reply × Server) → Option (Reply × Server)
unless_known (some reply) s asked = some (reply, s)
unless_known none s asked = asked

unfoldable pub asked : ℕ → Env → FuseOp → Server → Option (Reply × Server)
asked fuel e op s = do
  (a, s') ← perform fuel e (request_of op) s
  reply ← reply_of op a
  some (reply, s')

unfoldable pub direct : ℕ → Env → FuseOp → Server → Option (Reply × Server)
direct fuel e op s = unless_known (known_here op) s (asked fuel e op s)

unfoldable pub direct_all : ℕ → Env → List FuseOp → Server → Option (List Reply × Server)
direct_all fuel e [] s = some ([], s)
direct_all fuel e (op ∷ ops) s = do
  (reply, s') ← direct fuel e op s
  (replies, s'') ← direct_all fuel e ops s'
  some (reply ∷ replies, s'')

-- The server with the bytes that are on the way to the client.
pub record Net : Type 0 where
  pub server : Server
  pub incoming : List ℕ

-- The bytes of the answers, in order.
unfoldable pub all_bytes : List Answer → List ℕ
all_bytes [] = []
all_bytes (a ∷ rest) = (elim (answer_bytes a) [ none ↦ [] | some bs ↦ bs ]) ++ all_bytes rest

abbrev pub arrive : Served → Net → Net
arrive none net = net
arrive (some (answers, s)) net = record { server = s; incoming = net.incoming ++ all_bytes answers }

abbrev pub taken : Received (List ℕ) (List ℕ) → Net → Received Net (List ℕ)
taken (r, st) net = (r, record net { incoming = st })

pub le32-modulo : (n : ℕ) → le32 (bytes32 n) ≡ n % 2 ^ 32
unfolding le32 bytes32
le32-modulo n = omega arith

pub le32-one : (c : ℕ) → le32 (c ∷ []) ≡ c
unfolding le32
le32-one c = omega arith

module _ (recv : ℕ → List ℕ → Received (List ℕ) (List ℕ)) (fuel : ℕ) (e : Env) where
  -- What is sent, process_request handles before the client receives.
  abbrev pub deliver : List ℕ → Net → Net
  deliver bs net = arrive (process_request recv 2 fuel e bs net.server) net

  abbrev pub receive_on : ℕ → Net → Received Net (List ℕ)
  receive_on n net = taken (recv n net.incoming) net

  module _
      (waits : (n : ℕ) (bs rest : List ℕ)
        → 0 < n
        → length bs ≡ n
        → recv n (bs ++ rest) ≡ (some bs, rest))
      (gone : recv 1 [] ≡ (none, [])) where
    pub delivered :
        (r : Request) (s s' : Server) (a : Answer) (bs : List ℕ)
        → IsSendable r
        → perform fuel e r s ≡ some (a, s')
        → answer_bytes a ≡ some bs
        → deliver (sent r) (record { server = s; incoming = [] })
          ≡ record { server = s'; incoming = bs }
    unfolding all_sent perform_all all_bytes serve_one
    delivered r s s' a bs i p b =
        let all : process_request recv 2 fuel e (sent r) s ≡ perform_all fuel e (r ∷ []) s =
          rw (← append-nil (sent r))
            (process_request-all_sent recv waits gone fuel e (r ∷ []) 2 s (i, tt) (omega arith)) in
        rw (all, p, b, append-nil bs)

    -- One byte, and the bytes of a number.
    pub took_code : (c : ℕ) (rest : List ℕ) → recv 1 (c ∷ rest) ≡ (some (c ∷ []), rest)
    took_code c rest = waits 1 (c ∷ []) rest (omega arith) refl

    pub took_u32 : (n : ℕ) (rest : List ℕ) → recv 4 (bytes32 n ++ rest) ≡ (some (bytes32 n), rest)
    took_u32 n rest = waits 4 (bytes32 n) rest (omega arith) (length-bytes32 n)

    pub took_all : (n : ℕ) (bs : List ℕ) → 0 < n → length bs ≡ n → recv n bs ≡ (some bs, [])
    took_all n bs h l = ap (recv n) (sym (append-nil bs)) ∙ waits n bs [] h l

    pub took_last : (n : ℕ) → recv 4 (bytes32 n) ≡ (some (bytes32 n), [])
    took_last n = took_all 4 (bytes32 n) (omega arith) (length-bytes32 n)

    -- What an operation does with its answer.
    abbrev Answers : FuseOp → Server → Answer → Reply → Server → Type 0
    Answers op s a reply s' =
        pk_oper deliver receive_on op (record { server = s; incoming = [] })
        ≡ (reply, record { server = s'; incoming = [] })

    pub one_code-answer :
        (f : ℕ → Ret) (r : Request) (s s' : Server) (c : Status)
        → IsSendable r
        → perform fuel e r s ≡ some (code c, s')
        → one_code deliver receive_on f r (record { server = s; incoming = [] })
          ≡ (returns (f (status_code c)), record { server = s'; incoming = [] })
    unfolding one_code answer_bytes
    one_code-answer f r s s' c i p = rw (
      delivered r s s' (code c) (status_code c ∷ []) i p refl,
      took_code (status_code c) [],
      le32-one (status_code c),
    )

    pub pk_getattr-attr :
        (path : List ℕ) (s s' : Server) (c : Status) (n t : ℕ)
        → IsSendable (getattr path)
        → (status_code c == 1) ≡ false
        → perform fuel e (getattr path) s ≡ some (attr c n t, s')
        → ask_stat deliver receive_on path (record { server = s; incoming = [] })
          ≡ (stat_reply (status_code c) (n % 2 ^ 32), record { server = s'; incoming = [] })
    unfolding ask_stat answer_bytes
    pk_getattr-attr path s s' c n t i ne p = rw (
      delivered (getattr path) s s' (attr c n t) (status_code c ∷ (bytes32 n ++ bytes32 t)) i p
          refl,
      took_code (status_code c) (bytes32 n ++ bytes32 t),
      le32-one (status_code c),
      ne,
      took_u32 n (bytes32 t),
      took_last t,
      le32-modulo n,
    )

    pub pk_open-attr :
        (path : List ℕ) (s s' : Server) (c : Status) (n t : ℕ)
        → IsSendable (getattr path)
        → (status_code c == 1) ≡ false
        → perform fuel e (getattr path) s ≡ some (attr c n t, s')
        → pk_open deliver receive_on path (record { server = s; incoming = [] }) ≡ (
          returns (if status_code c == 2 then ret 0 else minus e_noent),
          record { server = s'; incoming = [] },
        )
    unfolding pk_open answer_bytes
    pk_open-attr path s s' c n t i ne p = rw (
      delivered (getattr path) s s' (attr c n t) (status_code c ∷ (bytes32 n ++ bytes32 t)) i p
          refl,
      took_code (status_code c) (bytes32 n ++ bytes32 t),
      le32-one (status_code c),
      ne,
      took_u32 n (bytes32 t),
      took_last t,
    )

    copy_bytes-all :
        (bs : List ℕ) (s : Server)
        → copy_bytes deliver receive_on (length bs) (record { server = s; incoming = bs })
          ≡ (reads (as_int (length bs)) bs, record { server = s; incoming = [] })
    unfolding copy_bytes
    copy_bytes-all [] s = refl
    copy_bytes-all (b ∷ bs) s =
        let some_bytes = lt→ltb 0 (length (b ∷ bs)) (omega arith) in
        rw (some_bytes, took_all (length (b ∷ bs)) (b ∷ bs) (omega arith) refl)

    pub pk_read-content :
        (path bs : List ℕ) (size offset : ℕ) (s s' : Server)
        → IsSendable (read path size offset)
        → length bs < 2 ^ 32
        → perform fuel e (read path size offset) s ≡ some (content bs, s')
        → pk_read deliver receive_on path size offset (record { server = s; incoming = [] })
          ≡ (reads (as_int (length bs)) bs, record { server = s'; incoming = [] })
    unfolding pk_read answer_bytes status_code as_int
    pk_read-content path bs size offset s s' i l p =
        let count : le32 (bytes32 (length bs)) ≡ length bs =
          rw (le32-modulo (length bs)) (omega arith) in
        rw (
          delivered (read path size offset) s s' (content bs)
              (status_code sexe ∷ (bytes32 (length bs) ++ bs)) i p refl,
          took_code (status_code sexe) (bytes32 (length bs) ++ bs),
          le32-one (status_code sexe),
          took_u32 (length bs) bs,
          count,
          copy_bytes-all bs s',
        )
