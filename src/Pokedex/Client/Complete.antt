-- ===== src/Pokedex/Client/Complete.antt =====
-- pokedex-server.c: every answer to a request of the client is one that the client reads as a whole.
use sisoputnfrba_tp_2016_2c.Base.{
  Vale, Vale-some, ℕ, ◌≡◌, refl, List, some, length, subst, some_inj,
}
use sisoputnfrba_tp_2016_2c.Pokedex.State.{
  Server, status_code, enoent, isreg, isdir, enotdir, emptydir,
}
use sisoputnfrba_tp_2016_2c.Pokedex.Search.{Env}
use sisoputnfrba_tp_2016_2c.Pokedex.Walk.{Answer, code, names, attr, content, silence, unset}
use sisoputnfrba_tp_2016_2c.Pokedex.Content.{Outcome}
use sisoputnfrba_tp_2016_2c.Pokedex.Nodes.{osada_readdir, osada_getattr}
use sisoputnfrba_tp_2016_2c.Pokedex.Requests.{
  Request, mkdir, readdir, getattr, mknod, write, read, truncate, unlink, rmdir, rename, perform,
}
use sisoputnfrba_tp_2016_2c.Pokedex.Client.{
  Reply, returns, FuseOp, ask, open_file, Ret, mkdir_ret, mknod_ret, truncate_ret, write_ret,
  unlink_ret, rmdir_ret, rename_ret,
}
use sisoputnfrba_tp_2016_2c.Pokedex.Client.Answers.{
  reply_of, request_of, code_reply, readdir_reply, getattr_reply, read_reply, open_reply,
}
use sisoputnfrba_tp_2016_2c.Pokedex.Client.Answered.{
  IsCode, Coded, is_code, osada_mkdir-Coded, osada_mknod-Coded, osada_rmdir-Coded,
  osada_rename-Coded,
}
use sisoputnfrba_tp_2016_2c.Pokedex.Client.Contents.{
  CodedIf, Readable, ReadIf, is_content, osada_read-ReadIf, osada_write-CodedIf,
  osada_truncate-CodedIf, osada_unlink-CodedIf,
}
use sisoputnfrba_tp_2016_2c.Pokedex.Client.Listed.{
  Names, Attributes, osada_readdir-Names, osada_getattr-Attributes,
}
use sisoputnfrba_tp_2016_2c.Pokedex.Client.Replies.{IsShort}

-- The answers to a request.
abbrev AnswerOf : Request → Answer → Type 0
AnswerOf (readdir p) a = Names a
AnswerOf (getattr p) a = Attributes a
AnswerOf (read p n o) a = Readable a
AnswerOf r a = IsCode a

answer-IsCode :
    (r : Answer × Server) (a : Answer) (s' : Server) → Coded r → some r ≡ some (a, s') → IsCode a
answer-IsCode r a s' c h = elim (subst Coded (some_inj r (a, s') h) c) [ is_code i ↦ i ]

outcome-IsCode : (o : Outcome) (a : Answer) (s' : Server) → CodedIf o → o ≡ some (a, s') → IsCode a
outcome-IsCode o a s' c h = elim (Vale-some Coded o (a, s') c h) [ is_code i ↦ i ]

outcome-Readable :
    (o : Outcome) (a : Answer) (s' : Server) → Vale ReadIf o → o ≡ some (a, s') → Readable a
outcome-Readable o a s' c h = elim (Vale-some ReadIf o (a, s') c h) [ is_content i ↦ i ]

perform-AnswerOf :
    (fuel : ℕ) (e : Env) (r : Request) (s s' : Server) (a : Answer)
    → perform fuel e r s ≡ some (a, s')
    → AnswerOf r a
unfolding perform
perform-AnswerOf fuel e (mkdir p) s s' a h = answer-IsCode _ a s' (osada_mkdir-Coded e p s) h
perform-AnswerOf fuel e (readdir p) s s' a h =
    subst (λ r. Names r.0) (some_inj (osada_readdir p s) (a, s') h) (osada_readdir-Names p s)
perform-AnswerOf fuel e (getattr p) s s' a h =
    subst (λ r. Attributes r.0) (some_inj (osada_getattr p s) (a, s') h)
      (osada_getattr-Attributes p s)
perform-AnswerOf fuel e (mknod p) s s' a h = answer-IsCode _ a s' (osada_mknod-Coded e p s) h
perform-AnswerOf fuel e (write p offset bs) s s' a h =
    outcome-IsCode _ a s' (osada_write-CodedIf fuel e p bs offset s) h
perform-AnswerOf fuel e (read p size offset) s s' a h =
    outcome-Readable _ a s' (osada_read-ReadIf fuel p size offset s) h
perform-AnswerOf fuel e (truncate p size) s s' a h =
    outcome-IsCode _ a s' (osada_truncate-CodedIf fuel p size s) h
perform-AnswerOf fuel e (unlink p) s s' a h =
    outcome-IsCode _ a s' (osada_unlink-CodedIf fuel p s) h
perform-AnswerOf fuel e (rmdir p) s s' a h = answer-IsCode _ a s' (osada_rmdir-Coded p s) h
perform-AnswerOf fuel e (rename p q) s s' a h = answer-IsCode _ a s' (osada_rename-Coded e p q s) h

-- The client makes a reply of the answer, unless nothing is written or the bytes are not known.
abbrev pub HasReply : FuseOp → Answer → Type 0
HasReply op silence = Unit {0}
HasReply op unset = Unit {0}
HasReply op a = (reply : Reply) × (reply_of op a ≡ some reply)

IsCode-HasReply :
    (op : FuseOp) (f : ℕ → Ret) (a : Answer)
    → ((b : Answer) → reply_of op b ≡ code_reply f b)
    → IsCode a
    → HasReply op a
unfolding code_reply
IsCode-HasReply op f (code c) h i = (returns (f (status_code c)), h (code c))
IsCode-HasReply op f silence h i = tt
IsCode-HasReply op f unset h i = tt
IsCode-HasReply op f a h i = elim i [ ]

Names-HasReply : (p : List ℕ) (a : Answer) → Names a → HasReply (ask (readdir p)) a
unfolding reply_of readdir_reply
Names-HasReply p (code enotdir) n = (_, refl)
Names-HasReply p (code emptydir) n = (_, refl)
Names-HasReply p (names bs) n = (_, refl)
Names-HasReply p silence n = tt
Names-HasReply p unset n = tt
Names-HasReply p a n = elim n [ ]

Attributes-HasReply :
    (p : List ℕ) (a : Answer)
    → Attributes a
    → HasReply (ask (getattr p)) a × HasReply (open_file p) a
unfolding reply_of getattr_reply open_reply
Attributes-HasReply p (code enoent) n = ((_, refl), (_, refl))
Attributes-HasReply p (attr isreg k t) n = ((_, refl), (_, refl))
Attributes-HasReply p (attr isdir k t) n = ((_, refl), (_, refl))
Attributes-HasReply p silence n = (tt, tt)
Attributes-HasReply p unset n = (tt, tt)
Attributes-HasReply p a n = elim n [ ]

Readable-HasReply :
    (p : List ℕ) (size offset : ℕ) (a : Answer) → Readable a → HasReply (ask (read p size offset)) a
unfolding reply_of read_reply
Readable-HasReply p size offset (code enoent) n = (_, refl)
Readable-HasReply p size offset (content bs) n = (_, refl)
Readable-HasReply p size offset silence n = tt
Readable-HasReply p size offset unset n = tt
Readable-HasReply p size offset a n = elim n [ ]

AnswerOf-HasReply : (op : FuseOp) (a : Answer) → AnswerOf (request_of op) a → HasReply op a
unfolding reply_of
AnswerOf-HasReply (ask (mkdir p)) a i = IsCode-HasReply (ask (mkdir p)) mkdir_ret a (λ b. refl) i
AnswerOf-HasReply (ask (readdir p)) a i = Names-HasReply p a i
AnswerOf-HasReply (ask (getattr p)) a i = (Attributes-HasReply p a i).0
AnswerOf-HasReply (ask (mknod p)) a i = IsCode-HasReply (ask (mknod p)) mknod_ret a (λ b. refl) i
AnswerOf-HasReply (ask (write p offset bs)) a i =
    IsCode-HasReply (ask (write p offset bs)) (write_ret (length bs)) a (λ b. refl) i
AnswerOf-HasReply (ask (read p size offset)) a i = Readable-HasReply p size offset a i
AnswerOf-HasReply (ask (truncate p n)) a i =
    IsCode-HasReply (ask (truncate p n)) truncate_ret a (λ b. refl) i
AnswerOf-HasReply (ask (unlink p)) a i = IsCode-HasReply (ask (unlink p)) unlink_ret a (λ b. refl) i
AnswerOf-HasReply (ask (rmdir p)) a i = IsCode-HasReply (ask (rmdir p)) rmdir_ret a (λ b. refl) i
AnswerOf-HasReply (ask (rename p q)) a i =
    IsCode-HasReply (ask (rename p q)) rename_ret a (λ b. refl) i
AnswerOf-HasReply (open_file p) a i = (Attributes-HasReply p a i).1

-- Whatever a handler answers to the request of an operation, for every server and every path, the
-- operation reads as a whole and makes a result of it: a code where it waits for one byte, and
-- the fields that it waits for behind a code. Excepted are the two ends where the handler writes
-- nothing, or goes on with a variable that it has not set.
pub perform-HasReply :
    (fuel : ℕ) (e : Env) (op : FuseOp) (s s' : Server) (a : Answer)
    → perform fuel e (request_of op) s ≡ some (a, s')
    → HasReply op a
perform-HasReply fuel e op s s' a h =
    AnswerOf-HasReply op a (perform-AnswerOf fuel e (request_of op) s s' a h)

-- What is counted is less than 2^32.
IsCode-IsShort : (a : Answer) → IsCode a → IsShort a
IsCode-IsShort (code c) i = tt
IsCode-IsShort silence i = tt
IsCode-IsShort unset i = tt
IsCode-IsShort a i = elim i [ ]

Names-IsShort : (a : Answer) → Names a → IsShort a
Names-IsShort (code enotdir) n = tt
Names-IsShort (code emptydir) n = tt
Names-IsShort (names bs) n = n
Names-IsShort silence n = tt
Names-IsShort unset n = tt
Names-IsShort a n = elim n [ ]

Attributes-IsShort : (a : Answer) → Attributes a → IsShort a
Attributes-IsShort (content bs) n = elim n [ ]
Attributes-IsShort (names bs) n = elim n [ ]
Attributes-IsShort a n = tt

Readable-IsShort : (a : Answer) → Readable a → IsShort a
Readable-IsShort (content bs) n = n
Readable-IsShort (names bs) n = elim n [ ]
Readable-IsShort a n = tt

AnswerOf-IsShort : (r : Request) (a : Answer) → AnswerOf r a → IsShort a
AnswerOf-IsShort (readdir p) a i = Names-IsShort a i
AnswerOf-IsShort (getattr p) a i = Attributes-IsShort a i
AnswerOf-IsShort (read p n o) a i = Readable-IsShort a i
AnswerOf-IsShort r a i = IsCode-IsShort a i

pub perform-IsShort :
    (fuel : ℕ) (e : Env) (r : Request) (s s' : Server) (a : Answer)
    → perform fuel e r s ≡ some (a, s')
    → IsShort a
perform-IsShort fuel e r s s' a h = AnswerOf-IsShort r a (perform-AnswerOf fuel e r s s' a h)
