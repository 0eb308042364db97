-- ===== src/Pokedex/Client/Session.antt =====
-- pokedex-client.c with pokedex-server.c: operations of a client, one after the other.
use sisoputnfrba_tp_2016_2c.Base.{
  ℕ, some_inj, subst, ◌<◌, ◌≡◌, refl, List, [], ◌∷◌, ◌++◌, Option, none, some, length, strcmp, ltb,
  Bool-cases, inl, inr, bind-some, sym, ◌∙◌,
}
use sisoputnfrba_tp_2016_2c.Pokedex.State.{Server}
use sisoputnfrba_tp_2016_2c.Pokedex.Search.{Env}
use sisoputnfrba_tp_2016_2c.Pokedex.Walk.{Answer}
use sisoputnfrba_tp_2016_2c.Pokedex.Requests.{
  mkdir, readdir, getattr, mknod, write, read, truncate, unlink, rmdir, rename, Received, perform,
}
use sisoputnfrba_tp_2016_2c.Pokedex.Requests.Sent.{IsSendable}
use sisoputnfrba_tp_2016_2c.Pokedex.Client.{
  Reply, FuseOp, ask, open_file, pk_getattr, pk_oper, pk_all, mkdir_ret, mknod_ret, truncate_ret,
  write_ret, unlink_ret, rmdir_ret, rename_ret, ask_stat,
}
use sisoputnfrba_tp_2016_2c.Pokedex.Client.Answers.{reply_of, request_of, known_here}
use sisoputnfrba_tp_2016_2c.Pokedex.Client.Net.{
  Net, deliver, receive_on, direct, direct_all, unless_known, asked,
}
use sisoputnfrba_tp_2016_2c.Pokedex.Client.Complete.{perform-IsShort}
use sisoputnfrba_tp_2016_2c.Pokedex.Client.Replies.{
  IsShort, replied, none-some, Sends, code_reply-Sends, readdir_reply-Sends, getattr_reply-Sends,
  open_reply-Sends, read_reply-Sends,
}

-- What an operation asks of the server is in the range of its fields.
abbrev pub Asks : Option Reply → FuseOp → Type 0
Asks none op = IsSendable (request_of op)
Asks (some r) op = Unit {0}

abbrev pub AllAsked : List FuseOp → Type 0
AllAsked [] = Unit {0}
AllAsked (op ∷ ops) = Asks (known_here op) op × AllAsked ops

module _ (recv : ℕ → List ℕ → Received (List ℕ) (List ℕ)) (fuel : ℕ) (e : Env)
    (waits : (n : ℕ) (bs rest : List ℕ)
      → 0 < n
      → length bs ≡ n
      → recv n (bs ++ rest) ≡ (some bs, rest))
    (gone : recv 1 [] ≡ (none, [])) where
  abbrev client : FuseOp → Net → Reply × Net
  client op = pk_oper (deliver recv fuel e) (receive_on recv fuel e) op

  abbrev client_all : List FuseOp → Net → List Reply × Net
  client_all ops = pk_all (deliver recv fuel e) (receive_on recv fuel e) ops

  pk_getattr-asked :
      (path : List ℕ) (w : Net)
      → known_here (ask (getattr path)) ≡ none
      → client (ask (getattr path)) w
        ≡ ask_stat (deliver recv fuel e) (receive_on recv fuel e) path w
  unfolding known_here pk_oper pk_getattr
  pk_getattr-asked path w k = elim (Bool-cases (strcmp path (b'/' ∷ []))) [
    | inl slash ↦ none-some _ (sym (rw slash at k))
    | inr other ↦ elim (Bool-cases (ltb 0 (length path))) [
      | inl long ↦ rw (other, long)
      | inr empty ↦ none-some _ (sym (rw (other, empty) at k))
    ]
  ]

  pub reply_of-Sends :
      (op : FuseOp) (a : Answer) (s s' : Server) (reply : Reply)
      → IsSendable (request_of op)
      → known_here op ≡ none
      → IsShort a
      → perform fuel e (request_of op) s ≡ some (a, s')
      → reply_of op a ≡ some reply
      → Sends (client op) s reply s'
  unfolding reply_of pk_oper
  reply_of-Sends (ask (mkdir p)) a s s' reply i k l h r =
      code_reply-Sends recv fuel e waits gone mkdir_ret (mkdir p) a s s' reply i h r
  reply_of-Sends (ask (readdir p)) a s s' reply i k l h r =
      readdir_reply-Sends recv fuel e waits gone p a s s' reply i l h r
  reply_of-Sends (ask (getattr p)) a s s' reply i k l h r =
      pk_getattr-asked p _ k ∙ getattr_reply-Sends recv fuel e waits gone p a s s' reply i h r
  reply_of-Sends (ask (mknod p)) a s s' reply i k l h r =
      code_reply-Sends recv fuel e waits gone mknod_ret (mknod p) a s s' reply i h r
  reply_of-Sends (ask (write p offset bs)) a s s' reply i k l h r =
      code_reply-Sends recv fuel e waits gone (write_ret (length bs)) (write p offset bs) a s s'
        reply i h r
  reply_of-Sends (ask (read p size offset)) a s s' reply i k l h r =
      read_reply-Sends recv fuel e waits gone p size offset a s s' reply i l h r
  reply_of-Sends (ask (truncate p size)) a s s' reply i k l h r =
      code_reply-Sends recv fuel e waits gone truncate_ret (truncate p size) a s s' reply i h r
  reply_of-Sends (ask (unlink p)) a s s' reply i k l h r =
      code_reply-Sends recv fuel e waits gone unlink_ret (unlink p) a s s' reply i h r
  reply_of-Sends (ask (rmdir p)) a s s' reply i k l h r =
      code_reply-Sends recv fuel e waits gone rmdir_ret (rmdir p) a s s' reply i h r
  reply_of-Sends (ask (rename p q)) a s s' reply i k l h r =
      code_reply-Sends recv fuel e waits gone rename_ret (rename p q) a s s' reply i h r
  reply_of-Sends (open_file p) a s s' reply i k l h r =
      open_reply-Sends recv fuel e waits gone p a s s' reply i h r

  asked-Sends :
      (op : FuseOp) (s s' : Server) (reply : Reply)
      → IsSendable (request_of op)
      → known_here op ≡ none
      → asked fuel e op s ≡ some (reply, s')
      → Sends (client op) s reply s'
  unfolding asked
  asked-Sends op s s' reply i k h =
      let ((a, t), run, rest) = bind-some (perform fuel e (request_of op) s) _ (reply, s') h in
      let (q, made, same) = bind-some (reply_of op a) _ (reply, s') rest in
      let l = perform-IsShort fuel e (request_of op) s t a run in
      subst (λ r. Sends (client op) s r.0 r.1) (some_inj (q, t) (reply, s') same)
        (reply_of-Sends op a s t q i k l run made)

  known-Sends :
      (op : FuseOp) (s : Server) (reply : Reply)
      → known_here op ≡ some reply
      → Sends (client op) s reply s
  unfolding known_here pk_oper pk_getattr
  known-Sends (ask (getattr p)) s reply k = elim (Bool-cases (strcmp p (b'/' ∷ []))) [
    | inl slash ↦ rw slash (replied _ (rw slash at k) refl)
    | inr other ↦ elim (Bool-cases (ltb 0 (length p))) [
      | inl long ↦ none-some reply (rw (other, long) at k)
      | inr empty ↦ rw (other, empty) (replied _ (rw (other, empty) at k) refl)
    ]
  ]
  known-Sends op s reply k = none-some reply k

  direct-Sends :
      (op : FuseOp) (s s' : Server) (reply : Reply) (k : Option Reply)
      → known_here op ≡ k
      → Asks k op
      → unless_known k s (asked fuel e op s) ≡ some (reply, s')
      → Sends (client op) s reply s'
  direct-Sends op s s' reply none k i h = asked-Sends op s s' reply i k h
  direct-Sends op s s' reply (some r) k i h =
      subst (λ q. Sends (client op) s q.0 q.1) (some_inj (r, s) (reply, s') h)
        (known-Sends op s r k)

  -- A client whose operations go over the socket, one after the other, gives FUSE the same results
  -- as operations done on the server itself, and leaves the same server behind: each receives the
  -- answer to its own request, and no byte is left on the way. For operations with paths that are
  -- not empty, without a zero byte, and fields in their range, where every handler ends and answers
  -- with something that is set. `recv` waits for as many bytes as it is asked for.
  pub pk_all-direct_all :
      (ops : List FuseOp) (s s' : Server) (replies : List Reply)
      → AllAsked ops
      → direct_all fuel e ops s ≡ some (replies, s')
      → Sends (client_all ops) s replies s'
  unfolding pk_all direct_all direct
  pk_all-direct_all [] s s' replies i h =
      subst (λ r. Sends (client_all []) s r.0 r.1) (some_inj ([], s) (replies, s') h) refl
  pk_all-direct_all (op ∷ ops) s s' replies (i, is) h =
      let ((r, t), one, rest) = bind-some (direct fuel e op s) _ (replies, s') h in
      let ((rs, u), all, same) = bind-some (direct_all fuel e ops t) _ (replies, s') rest in
      let first = direct-Sends op s t r (known_here op) refl i one in
      let others = pk_all-direct_all ops t u rs is all in
      subst (λ q. Sends (client_all (op ∷ ops)) s q.0 q.1) (some_inj (r ∷ rs, u) (replies, s') same)
        (rw (first, others))
