-- ===== src/Pokedex/Client/Replies.antt =====
-- pokedex-client.c with pokedex-server.c: what each operation makes of the answer to its request.
use sisoputnfrba_tp_2016_2c.Base.{
  ℕ, ◌^◌, ◌<◌, ◌≡◌, refl, ap, ◌∙◌, suc, List, [], ◌∷◌, ◌++◌, none, some, arith, length, some_inj,
  ap, ◌∙◌,
}
use sisoputnfrba_tp_2016_2c.Pokedex.State.{
  Server, Status, status_code, enoent, isreg, isdir, enotdir, emptydir,
}
use sisoputnfrba_tp_2016_2c.Pokedex.Search.{Env}
use sisoputnfrba_tp_2016_2c.Pokedex.Walk.{Answer, code, names, attr, content, silence, unset}
use sisoputnfrba_tp_2016_2c.Pokedex.Requests.{
  Request, readdir, getattr, read, Received, le32, c_string, perform,
}
use sisoputnfrba_tp_2016_2c.Pokedex.Requests.Sent.{bytes32, sent, IsSendable}
use sisoputnfrba_tp_2016_2c.Pokedex.Client.{
  Ret, ret, Reply, fills, dots, split_names, not_empty, one_code, ask_stat, fill_names, pk_readdir,
  pk_read, pk_open, stat_reply,
}
use sisoputnfrba_tp_2016_2c.Pokedex.Client.Answers.{
  listed_bytes, answer_bytes, code_reply, readdir_reply, getattr_reply, open_reply, read_reply,
}
use sisoputnfrba_tp_2016_2c.Pokedex.Client.Names.{
  Terminated, length-listed_bytes, c_string-listed_bytes,
}
use sisoputnfrba_tp_2016_2c.Pokedex.Client.Net.{
  Net, deliver, receive_on, took_code, took_u32, took_all, delivered, one_code-answer,
  pk_getattr-attr, pk_open-attr, pk_read-content, le32-one, le32-modulo,
}

-- The bytes of the answer are counted in a `uint32_t`, and names have their terminator.
abbrev pub IsShort : Answer → Type 0
IsShort (code c) = Unit {0}
IsShort (names bs) = Terminated bs × (suc (length (c_string bs)) < 2 ^ 32)
IsShort (attr c n t) = Unit {0}
IsShort (content bs) = length bs < 2 ^ 32
IsShort silence = Unit {0}
IsShort unset = Unit {0}

pub none-some : {A : Type 0} {P : Type 0} (a : A) → none ≡ some a → P
none-some a e = cc

-- A reply under its other name.
pub replied :
    {r r' : Reply} {n : Net} (x : Reply × Net) → some r ≡ some r' → x ≡ (r, n) → x ≡ (r', n)
replied {n} x h k = k ∙ ap (λ q. (q, n)) (some_inj _ _ h)

-- From the server `s`, with nothing on the way, the client gets `a` and leaves the server `s'`.
abbrev pub Sends : {A : Type 0} → (Net → A × Net) → Server → A → Server → Type 0
Sends f s a s' =
    f (record { server = s; incoming = [] }) ≡ (a, record { server = s'; incoming = [] })

module _ (recv : ℕ → List ℕ → Received (List ℕ) (List ℕ)) (fuel : ℕ) (e : Env)
    (waits : (n : ℕ) (bs rest : List ℕ)
      → 0 < n
      → length bs ≡ n
      → recv n (bs ++ rest) ≡ (some bs, rest))
    (gone : recv 1 [] ≡ (none, [])) where
  pub code_reply-Sends :
      (f : ℕ → Ret) (r : Request) (a : Answer) (s s' : Server) (reply : Reply)
      → IsSendable r
      → perform fuel e r s ≡ some (a, s')
      → code_reply f a ≡ some reply
      → Sends (one_code (deliver recv fuel e) (receive_on recv fuel e) f r) s reply s'
  unfolding code_reply
  code_reply-Sends f r (code c) s s' reply i p h =
      replied _ h (one_code-answer recv fuel e waits gone f r s s' c i p)
  code_reply-Sends f r a s s' reply i p h = none-some reply h

  -- After a request with an answer of one byte, the client receives it.
  coded :
      (r : Request) (c : Status) (s s' : Server)
      → IsSendable r
      → perform fuel e r s ≡ some (code c, s')
      → receive_on recv fuel e 1
          (deliver recv fuel e (sent r) (record { server = s; incoming = [] }))
        ≡ (some (status_code c ∷ []), record { server = s'; incoming = [] })
  unfolding answer_bytes
  coded r c s s' i p = rw (
    delivered recv fuel e waits gone r s s' (code c) (status_code c ∷ []) i p refl,
    took_code recv fuel e waits gone (status_code c) [],
  )

  readdir-names :
      (path bs : List ℕ) (s s' : Server)
      → IsSendable (readdir path)
      → IsShort (names bs)
      → perform fuel e (readdir path) s ≡ some (names bs, s')
      → Sends
          (pk_readdir (deliver recv fuel e) (receive_on recv fuel e) path)
          s
          (fills (ret 0) (dots ++ not_empty (split_names [] (c_string bs))))
          s'
  unfolding answer_bytes pk_readdir fill_names status_code
  readdir-names path bs s s' i (t, l) p =
      let size = bytes32 (suc (length (c_string bs))) in
      let size_back : le32 size ≡ suc (length (c_string bs)) =
        rw (le32-modulo (suc (length (c_string bs)))) (omega arith) in
      let whole =
        took_all recv fuel e waits gone (suc (length (c_string bs))) (listed_bytes bs) (omega arith)
          (length-listed_bytes bs t) in
      rw (
        delivered recv fuel e waits gone (readdir path) s s' (names bs)
            (7 ∷ (size ++ listed_bytes bs)) i p refl,
        took_code recv fuel e waits gone 7 (size ++ listed_bytes bs),
        le32-one 7,
        took_u32 recv fuel e waits gone (suc (length (c_string bs))) (listed_bytes bs),
        size_back,
        whole,
        c_string-listed_bytes bs t,
      )

  pub readdir_reply-Sends :
      (path : List ℕ) (a : Answer) (s s' : Server) (reply : Reply)
      → IsSendable (readdir path)
      → IsShort a
      → perform fuel e (readdir path) s ≡ some (a, s')
      → readdir_reply a ≡ some reply
      → Sends (pk_readdir (deliver recv fuel e) (receive_on recv fuel e) path) s reply s'
  unfolding readdir_reply pk_readdir status_code
  readdir_reply-Sends path (code enotdir) s s' reply i l p h =
      replied _ h (rw (coded (readdir path) enotdir s s' i p, le32-one 4))
  readdir_reply-Sends path (code emptydir) s s' reply i l p h =
      replied _ h (rw (coded (readdir path) emptydir s s' i p, le32-one 6))
  readdir_reply-Sends path (names bs) s s' reply i l p h =
      replied _ h (readdir-names path bs s s' i l p)
  readdir_reply-Sends path a s s' reply i l p h = none-some reply h

  pub getattr_reply-Sends :
      (path : List ℕ) (a : Answer) (s s' : Server) (reply : Reply)
      → IsSendable (getattr path)
      → perform fuel e (getattr path) s ≡ some (a, s')
      → getattr_reply a ≡ some reply
      → Sends (ask_stat (deliver recv fuel e) (receive_on recv fuel e) path) s reply s'
  unfolding getattr_reply ask_stat status_code stat_reply
  getattr_reply-Sends path (code enoent) s s' reply i p h =
      replied _ h (rw (coded (getattr path) enoent s s' i p, le32-one 1))
  getattr_reply-Sends path (attr isreg n t) s s' reply i p h =
      replied _ h (pk_getattr-attr recv fuel e waits gone path s s' isreg n t i refl p)
  getattr_reply-Sends path (attr isdir n t) s s' reply i p h =
      replied _ h (pk_getattr-attr recv fuel e waits gone path s s' isdir n t i refl p)
  getattr_reply-Sends path a s s' reply i p h = none-some reply h

  pub open_reply-Sends :
      (path : List ℕ) (a : Answer) (s s' : Server) (reply : Reply)
      → IsSendable (getattr path)
      → perform fuel e (getattr path) s ≡ some (a, s')
      → open_reply a ≡ some reply
      → Sends (pk_open (deliver recv fuel e) (receive_on recv fuel e) path) s reply s'
  unfolding open_reply pk_open status_code
  open_reply-Sends path (code enoent) s s' reply i p h =
      replied _ h (rw (coded (getattr path) enoent s s' i p, le32-one 1))
  open_reply-Sends path (attr isreg n t) s s' reply i p h =
      replied _ h (pk_open-attr recv fuel e waits gone path s s' isreg n t i refl p)
  open_reply-Sends path (attr isdir n t) s s' reply i p h =
      replied _ h (pk_open-attr recv fuel e waits gone path s s' isdir n t i refl p)
  open_reply-Sends path a s s' reply i p h = none-some reply h

  pub read_reply-Sends :
      (path : List ℕ) (size offset : ℕ) (a : Answer) (s s' : Server) (reply : Reply)
      → IsSendable (read path size offset)
      → IsShort a
      → perform fuel e (read path size offset) s ≡ some (a, s')
      → read_reply a ≡ some reply
      → Sends (pk_read (deliver recv fuel e) (receive_on recv fuel e) path size offset) s reply s'
  unfolding read_reply pk_read status_code
  read_reply-Sends path size offset (code enoent) s s' reply i l p h =
      replied _ h (rw (coded (read path size offset) enoent s s' i p, le32-one 1))
  read_reply-Sends path size offset (content bs) s s' reply i l p h =
      replied _ h (pk_read-content recv fuel e waits gone path bs size offset s s' i l p)
  read_reply-Sends path size offset a s s' reply i l p h = none-some reply h
