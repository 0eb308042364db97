-- ===== src/Pokedex/Client.antt =====
-- pokedex-client.c: the FUSE operations. `send` and `recv` on `server_socket` are parameters.
pub mod Answers
pub mod Net
pub mod Names
pub mod Replies
pub mod Answered
pub mod Contents
pub mod Listed
pub mod Complete
pub mod Session
pub mod Paths
mod Examples
use sisoputnfrba_tp_2016_2c.Base.{
  ℕ, ◌-◌, ◌+◌, ◌*◌, ◌%◌, ◌^◌, Bool, true, false, List, [], ◌∷◌, ◌++◌, Option, none, some, ◌==◌, ltb,
  if◌then◌else◌, length, strcmp,
}
use sisoputnfrba_tp_2016_2c.Pokedex.Walk.{end_word}
use sisoputnfrba_tp_2016_2c.Pokedex.Requests.{
  Request, mkdir, readdir, getattr, mknod, write, read, truncate, unlink, rmdir, rename, Received,
  le32, c_string,
}
use sisoputnfrba_tp_2016_2c.Pokedex.Requests.Sent.{sent}

-- An `int` that is returned: from 0 on, or below 0.
pub data Ret : Type 0 where
  ret : ℕ → Ret
  minus : ℕ → Ret

-- ENOENT, EIO, ENOTDIR, EINVAL and ENOSPC of errno.h.
abbrev pub e_noent : ℕ
e_noent = 2

abbrev pub e_io : ℕ
e_io = 5

abbrev pub e_notdir : ℕ
e_notdir = 20

abbrev pub e_inval : ℕ
e_inval = 22

abbrev pub e_nospc : ℕ
e_nospc = 28

-- A `uint32_t` that is returned as an `int`.
unfoldable pub as_int : ℕ → Ret
as_int n = if ltb n (2 ^ 31) then ret n else minus (2 ^ 32 - n)

-- The fields of `struct stat` that pk_getattr sets.
pub record Stat : Type 0 where
  pub st_mode : ℕ
  pub st_nlink : ℕ
  pub st_size : ℕ

-- `memset(stbuf, 0, ...)`.
abbrev pub zeroed : Stat
zeroed = record { st_mode = 0; st_nlink = 0; st_size = 0 }

-- `S_IFDIR | 0755` and `S_IFREG | 0755`.
abbrev pub dir_stat : Stat
dir_stat = record { st_mode = 16877; st_nlink = 2; st_size = 0 }

abbrev pub reg_stat : ℕ → Stat
reg_stat n = record { st_mode = 33261; st_nlink = 2; st_size = n }

-- What an operation gives to FUSE: what it returns, with the stat, the names given to `filler` in
-- order, or the bytes copied to `buf`.
pub data Reply : Type 0 where
  returns : Ret → Reply
  stats : Ret → Stat → Reply
  fills : Ret → List (List ℕ) → Reply
  reads : Ret → List ℕ → Reply

-- The operations. pk_open is the only one whose request another one sends as well.
pub data FuseOp : Type 0 where
  ask : Request → FuseOp
  open_file : List ℕ → FuseOp

-- The words of `strtok(resp, ",")`. `word` is the one that is being read, in reverse.
unfoldable pub split_names : List ℕ → List ℕ → List (List ℕ)
split_names word [] = end_word word []
split_names word (b ∷ bs) =
    let rest = split_names (if b == b',' then [] else b ∷ word) bs in
    if b == b',' then end_word word rest else rest

-- The words that are given to `filler`, `dir_len > 0`.
unfoldable pub not_empty : List (List ℕ) → List (List ℕ)
not_empty [] = []
not_empty (w ∷ ws) = if ltb 0 (length w) then w ∷ not_empty ws else not_empty ws

-- "." and "..".
abbrev pub dots : List (List ℕ)
dots = (b'.' ∷ []) ∷ (b'.' ∷ b'.' ∷ []) ∷ []

-- What pk_mkdir, pk_mknod, pk_truncate, pk_write, pk_unlink, pk_rmdir and pk_rename return for a
-- response code.
unfoldable pub mkdir_ret : ℕ → Ret
mkdir_ret c = if c == 5 then minus e_nospc else if c == 9 then minus e_inval else ret 0

unfoldable pub mknod_ret : ℕ → Ret
mknod_ret c =
    if c == 5
    then minus e_nospc
    else if c == 9
    then minus e_inval
    else if c == 4
    then minus e_notdir
    else ret 0

unfoldable pub truncate_ret : ℕ → Ret
truncate_ret c = if c == 1 then minus e_noent else if c == 5 then minus e_nospc else ret 0

unfoldable pub write_ret : ℕ → ℕ → Ret
write_ret size c = if c == 8 then as_int (size % 2 ^ 32) else ret 0

unfoldable pub unlink_ret : ℕ → Ret
unlink_ret c = if c == 1 then minus e_noent else ret 0

unfoldable pub rmdir_ret : ℕ → Ret
rmdir_ret c = if c == 4 then minus e_notdir else ret 0

unfoldable pub rename_ret : ℕ → Ret
rename_ret c =
    if c == 1
    then minus e_noent
    else if c == 5
    then minus e_nospc
    else if c == 9
    then minus e_inval
    else ret 0

-- What pk_getattr gives for a response code and a file size.
unfoldable pub stat_reply : ℕ → ℕ → Reply
stat_reply c size =
    if c == 3
    then stats (ret 0) dir_stat
    else if c == 2
    then stats (ret 0) (reg_stat size)
    else stats (ret 0) zeroed

-- `send` puts bytes on the socket, and `recv` with MSG_WAITALL gives bytes of it, or nothing where
-- it returns 0 or less.
module _ {W : Type 0} (send : List ℕ → W → W) (recv : ℕ → W → Received W (List ℕ)) where
  -- `-EIO`, with the reply that is `lost` then, where nothing is received.
  abbrev pub on_bytes : Reply → Received W (List ℕ) → (List ℕ → W → Reply × W) → Reply × W
  on_bytes lost (none, w) go = (lost, w)
  on_bytes lost (some bs, w) go = go bs w

  -- An operation that receives one byte.
  unfoldable pub one_code : (ℕ → Ret) → Request → W → Reply × W
  one_code f r w =
      on_bytes (returns (minus e_io)) (recv 1 (send (sent r) w))
        λ bs w1. (returns (f (le32 bs)), w1)

  -- pk_getattr behind its tests of the path.
  unfoldable pub ask_stat : List ℕ → W → Reply × W
  ask_stat path w =
      let lost = stats (minus e_io) zeroed in
      on_bytes lost (recv 1 (send (sent (getattr path)) w)) λ c w1.
        if le32 c == 1
        then (stats (minus e_noent) zeroed, w1)
        else on_bytes lost (recv 4 w1)
            λ size w2. on_bytes lost (recv 4 w2) λ lastmod w3. (stat_reply (le32 c) (le32 size), w3)

  unfoldable pub pk_getattr : List ℕ → W → Reply × W
  pk_getattr path w =
      if strcmp path (b'/' ∷ [])
      then (stats (ret 0) dir_stat, w)
      else if ltb 0 (length path)
      then ask_stat path w
      else (stats (minus e_noent) zeroed, w)

  -- pk_readdir at OSADA_NOTEMPTYDIR.
  unfoldable pub fill_names : W → Reply × W
  fill_names w =
      let lost = fills (minus e_io) dots in
      on_bytes lost (recv 4 w) λ size w1.
        on_bytes lost (recv (le32 size) w1)
          λ resp w2. (fills (ret 0) (dots ++ not_empty (split_names [] (c_string resp))), w2)

  unfoldable pub pk_readdir : List ℕ → W → Reply × W
  pk_readdir path w =
      on_bytes (fills (minus e_io) dots) (recv 1 (send (sent (readdir path)) w)) λ c w1.
        if le32 c == 4
        then (fills (minus e_notdir) dots, w1)
        else if le32 c == 7
        then fill_names w1
        else (fills (ret 0) dots, w1)

  -- pk_read once it has the count of bytes: as many are copied, whatever `size` is.
  unfoldable pub copy_bytes : ℕ → W → Reply × W
  copy_bytes n w =
      if ltb 0 n
      then on_bytes (reads (minus e_io) []) (recv n w) (λ bs w1. (reads (as_int n) bs, w1))
      else (reads (as_int n) [], w)

  unfoldable pub pk_read : List ℕ → ℕ → ℕ → W → Reply × W
  pk_read path size offset w =
      let lost = reads (minus e_io) [] in
      on_bytes lost (recv 1 (send (sent (read path size offset)) w)) λ c w1.
        if le32 c == 1
        then (reads (minus e_noent) [], w1)
        else on_bytes lost (recv 4 w1) λ n w2. copy_bytes (le32 n) w2

  unfoldable pub pk_open : List ℕ → W → Reply × W
  pk_open path w =
      let lost = returns (minus e_io) in
      on_bytes lost (recv 1 (send (sent (getattr path)) w)) λ c w1.
        if le32 c == 1
        then (returns (minus e_noent), w1)
        else on_bytes lost (recv 4 w1) λ size w2.
          on_bytes lost (recv 4 w2)
            λ lastmod w3. (returns (if le32 c == 2 then ret 0 else minus e_noent), w3)

  abbrev pub pk_mkdir : List ℕ → W → Reply × W
  pk_mkdir path w = one_code mkdir_ret (mkdir path) w

  abbrev pub pk_mknod : List ℕ → W → Reply × W
  pk_mknod path w = one_code mknod_ret (mknod path) w

  abbrev pub pk_truncate : List ℕ → ℕ → W → Reply × W
  pk_truncate path offset w = one_code truncate_ret (truncate path offset) w

  -- `buf` holds the `size` bytes that are written.
  abbrev pub pk_write : List ℕ → List ℕ → ℕ → W → Reply × W
  pk_write path buf offset w = one_code (write_ret (length buf)) (write path offset buf) w

  abbrev pub pk_unlink : List ℕ → W → Reply × W
  pk_unlink path w = one_code unlink_ret (unlink path) w

  abbrev pub pk_rmdir : List ℕ → W → Reply × W
  pk_rmdir path w = one_code rmdir_ret (rmdir path) w

  abbrev pub pk_rename : List ℕ → List ℕ → W → Reply × W
  pk_rename from to w = one_code rename_ret (rename from to) w

  -- pk_oper.
  unfoldable pub pk_oper : FuseOp → W → Reply × W
  pk_oper (ask (mkdir p)) w = pk_mkdir p w
  pk_oper (ask (readdir p)) w = pk_readdir p w
  pk_oper (ask (getattr p)) w = pk_getattr p w
  pk_oper (ask (mknod p)) w = pk_mknod p w
  pk_oper (ask (write p offset bytes)) w = pk_write p bytes offset w
  pk_oper (ask (read p size offset)) w = pk_read p size offset w
  pk_oper (ask (truncate p size)) w = pk_truncate p size w
  pk_oper (ask (unlink p)) w = pk_unlink p w
  pk_oper (ask (rmdir p)) w = pk_rmdir p w
  pk_oper (ask (rename p q)) w = pk_rename p q w
  pk_oper (open_file p) w = pk_open p w

  -- Operations one after the other.
  unfoldable pub pk_all : List FuseOp → W → List Reply × W
  pk_all [] w = ([], w)
  pk_all (op ∷ ops) w = let r = pk_oper op w in let rest = pk_all ops r.1 in (r.0 ∷ rest.0, rest.1)
