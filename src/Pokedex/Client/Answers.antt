-- ===== src/Pokedex/Client/Answers.antt =====
-- pokedex-server.c and pokedex-client.c: an answer in bytes, and what an operation makes of it.
use sisoputnfrba_tp_2016_2c.Base.{
  ℕ, ◌%◌, ◌^◌, suc, List, [], ◌∷◌, ◌++◌, Option, none, some, length, take, if◌then◌else◌, strcmp,
  ltb,
}
use sisoputnfrba_tp_2016_2c.Pokedex.State.{
  status_code, enoent, isreg, isdir, enotdir, emptydir, notemptydir, sexe,
}
use sisoputnfrba_tp_2016_2c.Pokedex.Walk.{Answer, code, names, attr, content, silence, unset}
use sisoputnfrba_tp_2016_2c.Pokedex.Requests.{
  Request, mkdir, readdir, getattr, mknod, write, read, truncate, unlink, rmdir, rename, c_string,
}
use sisoputnfrba_tp_2016_2c.Pokedex.Requests.Sent.{bytes32}
use sisoputnfrba_tp_2016_2c.Pokedex.Client.{
  Ret, ret, minus, e_noent, e_notdir, as_int, zeroed, dir_stat, reg_stat, Reply, returns, stats,
  fills, reads, FuseOp, ask, open_file, split_names, not_empty, dots, mkdir_ret, mknod_ret,
  truncate_ret, write_ret, unlink_ret, rmdir_ret, rename_ret,
}

-- The names of an answer of osada_readdir up to their terminator, with it.
abbrev pub listed_bytes : List ℕ → List ℕ
listed_bytes bs = take (suc (length (c_string bs))) bs

-- What the handlers write to the socket. `none`: the bytes are not known.
unfoldable pub answer_bytes : Answer → Option (List ℕ)
answer_bytes (code c) = some (status_code c ∷ [])
answer_bytes (names bs) =
    some (status_code notemptydir ∷ (bytes32 (suc (length (c_string bs))) ++ listed_bytes bs))
answer_bytes (attr c size lastmod) = some (status_code c ∷ (bytes32 size ++ bytes32 lastmod))
answer_bytes (content bs) = some (status_code sexe ∷ (bytes32 (length bs) ++ bs))
answer_bytes silence = some []
answer_bytes unset = none

-- What an operation makes of an answer that it reads as a whole. `none`: it waits for other bytes.
unfoldable pub code_reply : (ℕ → Ret) → Answer → Option Reply
code_reply f (code c) = some (returns (f (status_code c)))
code_reply f a = none

unfoldable pub readdir_reply : Answer → Option Reply
readdir_reply (code enotdir) = some (fills (minus e_notdir) dots)
readdir_reply (code emptydir) = some (fills (ret 0) dots)
readdir_reply (names bs) = some (fills (ret 0) (dots ++ not_empty (split_names [] (c_string bs))))
readdir_reply a = none

unfoldable pub getattr_reply : Answer → Option Reply
getattr_reply (code enoent) = some (stats (minus e_noent) zeroed)
getattr_reply (attr isreg n t) = some (stats (ret 0) (reg_stat (n % 2 ^ 32)))
getattr_reply (attr isdir n t) = some (stats (ret 0) dir_stat)
getattr_reply a = none

unfoldable pub open_reply : Answer → Option Reply
open_reply (code enoent) = some (returns (minus e_noent))
open_reply (attr isreg n t) = some (returns (ret 0))
open_reply (attr isdir n t) = some (returns (minus e_noent))
open_reply a = none

unfoldable pub read_reply : Answer → Option Reply
read_reply (code enoent) = some (reads (minus e_noent) [])
read_reply (content bs) = some (reads (as_int (length bs)) bs)
read_reply a = none

unfoldable pub reply_of : FuseOp → Answer → Option Reply
reply_of (ask (mkdir p)) a = code_reply mkdir_ret a
reply_of (ask (readdir p)) a = readdir_reply a
reply_of (ask (getattr p)) a = getattr_reply a
reply_of (ask (mknod p)) a = code_reply mknod_ret a
reply_of (ask (write p offset bs)) a = code_reply (write_ret (length bs)) a
reply_of (ask (read p size offset)) a = read_reply a
reply_of (ask (truncate p size)) a = code_reply truncate_ret a
reply_of (ask (unlink p)) a = code_reply unlink_ret a
reply_of (ask (rmdir p)) a = code_reply rmdir_ret a
reply_of (ask (rename p q)) a = code_reply rename_ret a
reply_of (open_file p) a = open_reply a

-- The request of an operation.
abbrev pub request_of : FuseOp → Request
request_of (ask r) = r
request_of (open_file p) = getattr p

-- What pk_getattr knows without the server.
unfoldable pub known_here : FuseOp → Option Reply
known_here (ask (getattr p)) =
    if strcmp p (b'/' ∷ [])
    then some (stats (ret 0) dir_stat)
    else if ltb 0 (length p)
    then none
    else some (stats (minus e_noent) zeroed)
known_here op = none
