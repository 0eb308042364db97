-- ===== src/Pokedex/Requests/Sent.antt =====
-- pokedex-client.c: the bytes of a request as the FUSE operations send them.
use sisoputnfrba_tp_2016_2c.Base.{
  ℕ, ◌+◌, ◌*◌, ◌/◌, ◌%◌, ◌<◌, ◌^◌, ◌≡◌, refl, sym, ap, ◌∙◌, zero, suc, fun_ext, List, [], ◌∷◌, ◌++◌,
  none, some, arith, length,
}
use mathlib.Core.List.{append_assoc, append-nil}
use sisoputnfrba_tp_2016_2c.Pokedex.State.{Server}
use sisoputnfrba_tp_2016_2c.Pokedex.Search.{Env, name_bytes}
use sisoputnfrba_tp_2016_2c.Pokedex.Search.Create.{NoZero, name_bytes-full}
use sisoputnfrba_tp_2016_2c.Pokedex.Requests.{
  Request, mkdir, readdir, getattr, mknod, write, read, truncate, unlink, rmdir, rename, Received,
  le32, c_string, receive_u32, receive_path, receive_write, receive_read, receive_truncate,
  receive_rename, receive, next_request, Served, serve_one, process_request,
}

-- `memcpy` of a `uint32_t` into the buffer.
unfoldable pub bytes32 : ℕ → List ℕ
bytes32 n = n % 256 ∷ n / 256 % 256 ∷ n / 65536 % 256 ∷ n / 16777216 % 256 ∷ []

-- The size of a path and its bytes.
unfoldable pub path_field : List ℕ → List ℕ
path_field p = bytes32 (length p) ++ p

-- REQ_MKDIR up to REQ_RENAME.
unfoldable pub req_code : Request → ℕ
req_code (mkdir p) = 1
req_code (readdir p) = 2
req_code (getattr p) = 3
req_code (mknod p) = 4
req_code (write p offset bytes) = 5
req_code (read p size offset) = 6
req_code (truncate p size) = 7
req_code (unlink p) = 8
req_code (rmdir p) = 9
req_code (rename p q) = 10

-- What pk_write, pk_read, pk_truncate and pk_rename put behind the operation code.
abbrev pub write_fields : List ℕ → ℕ → List ℕ → List ℕ
write_fields p offset bytes = path_field p ++ (bytes32 (length bytes) ++ (bytes32 offset ++ bytes))

abbrev pub read_fields : List ℕ → ℕ → ℕ → List ℕ
read_fields p size offset = path_field p ++ (bytes32 size ++ bytes32 offset)

abbrev pub truncate_fields : List ℕ → ℕ → List ℕ
truncate_fields p size = path_field p ++ bytes32 size

abbrev pub rename_fields : List ℕ → List ℕ → List ℕ
rename_fields p q = path_field p ++ path_field q

abbrev pub fields_of : Request → List ℕ
fields_of (mkdir p) = path_field p
fields_of (readdir p) = path_field p
fields_of (getattr p) = path_field p
fields_of (mknod p) = path_field p
fields_of (write p offset bytes) = write_fields p offset bytes
fields_of (read p size offset) = read_fields p size offset
fields_of (truncate p size) = truncate_fields p size
fields_of (unlink p) = path_field p
fields_of (rmdir p) = path_field p
fields_of (rename p q) = rename_fields p q

-- The buffer of an operation.
unfoldable pub sent : Request → List ℕ
sent r = req_code r ∷ fields_of r

-- A path that fills its field: not empty, without a zero byte, shorter than 2^32.
pub record IsPath (p : List ℕ) : Type 0 where
  pub no_zero : NoZero p
  pub some_bytes : 0 < length p
  pub short : length p < 2 ^ 32

-- The fields are in the range of their type.
abbrev pub IsSendable : Request → Type 0
IsSendable (mkdir p) = IsPath p
IsSendable (readdir p) = IsPath p
IsSendable (getattr p) = IsPath p
IsSendable (mknod p) = IsPath p
IsSendable (write p offset bytes) =
    IsPath p × (offset < 2 ^ 32) × (0 < length bytes) × (length bytes < 2 ^ 32)
IsSendable (read p size offset) = IsPath p × (size < 2 ^ 32) × (offset < 2 ^ 32)
IsSendable (truncate p size) = IsPath p × (size < 2 ^ 32)
IsSendable (unlink p) = IsPath p
IsSendable (rmdir p) = IsPath p
IsSendable (rename p q) = IsPath p × IsPath q

le32-bytes32 : (n : ℕ) → n < 2 ^ 32 → le32 (bytes32 n) ≡ n
unfolding le32 bytes32
le32-bytes32 n h = omega arith

c_string-NoZero : (p : List ℕ) → NoZero p → c_string p ≡ p
unfolding c_string
c_string-NoZero p z =
    let e = name_bytes-full (length p) p [] z refl in
    ap (name_bytes (length p)) (sym (append-nil p)) ∙ e

pub length-bytes32 : (n : ℕ) → length (bytes32 n) ≡ 4
unfolding bytes32
length-bytes32 n = refl

-- The bytes of some requests, one after the other.
unfoldable pub all_sent : List Request → List ℕ
all_sent [] = []
all_sent (r ∷ rs) = sent r ++ all_sent rs

-- The requests performed in order.
unfoldable pub perform_all : ℕ → Env → List Request → Server → Served
perform_all fuel e [] s = some ([], s)
perform_all fuel e (r ∷ rs) s = serve_one fuel e r s λ s'. perform_all fuel e rs s'

abbrev pub AllSendable : List Request → Type 0
AllSendable [] = Unit {0}
AllSendable (r ∷ rs) = IsSendable r × AllSendable rs

-- `waits`: recv with MSG_WAITALL gives as many bytes as are asked for, where they are there.
module _ (recv : ℕ → List ℕ → Received (List ℕ) (List ℕ))
    (waits : (n : ℕ) (bs rest : List ℕ)
      → 0 < n
      → length bs ≡ n
      → recv n (bs ++ rest) ≡ (some bs, rest)) where
  receive_u32-bytes32 :
      (n : ℕ) (rest : List ℕ) → n < 2 ^ 32 → receive_u32 recv (bytes32 n ++ rest) ≡ (some n, rest)
  unfolding receive_u32
  receive_u32-bytes32 n rest h =
      rw (waits 4 (bytes32 n) rest (omega arith) (length-bytes32 n), le32-bytes32 n h)

  receive_path-path_field :
      (p rest : List ℕ) → IsPath p → receive_path recv (path_field p ++ rest) ≡ (some p, rest)
  unfolding receive_path path_field
  receive_path-path_field p rest i =
      rw (append_assoc, receive_u32-bytes32 (length p) (p ++ rest) i.short)
        (rw (waits (length p) p rest i.some_bytes refl, c_string-NoZero p i.no_zero))

  receive-code :
      (op : ℕ) (fields : List ℕ) → next_request recv (op ∷ fields) ≡ some (receive recv op fields)
  unfolding next_request le32
  receive-code op fields =
      let one : op + 256 * 0 ≡ op = omega arith in
      let first : recv 1 (op ∷ fields) ≡ (some (op ∷ []), fields) =
        waits 1 (op ∷ []) fields (omega arith) refl in
      rw (first, one)

  -- What a FUSE operation of the client sends, the server receives as the same request, and the
  -- stream goes on behind it: for paths that are not empty, without a zero byte, numbers below 2^32
  -- and a write of at least one byte.
  pub receive-sent :
      (r : Request) (rest : List ℕ)
      → IsSendable r
      → next_request recv (sent r ++ rest) ≡ some (some r, rest)
  unfolding sent req_code receive receive_write receive_read receive_truncate receive_rename
  receive-sent (mkdir p) rest i = rw (receive-code, receive_path-path_field p rest i)
  receive-sent (readdir p) rest i = rw (receive-code, receive_path-path_field p rest i)
  receive-sent (getattr p) rest i = rw (receive-code, receive_path-path_field p rest i)
  receive-sent (mknod p) rest i = rw (receive-code, receive_path-path_field p rest i)
  receive-sent (write p offset bytes) rest (i, a, b, c) = rw (
    receive-code,
    append_assoc,
    append_assoc,
    append_assoc,
    receive_path-path_field p _ i,
    receive_u32-bytes32 (length bytes) _ c,
    receive_u32-bytes32 offset _ a,
    waits (length bytes) bytes rest b refl,
  )
  receive-sent (read p size offset) rest (i, a, b) = rw (
    receive-code,
    append_assoc,
    append_assoc,
    receive_path-path_field p _ i,
    receive_u32-bytes32 size _ a,
    receive_u32-bytes32 offset _ b,
  )
  receive-sent (truncate p size) rest (i, a) =
      rw (receive-code, append_assoc, receive_path-path_field p _ i, receive_u32-bytes32 size _ a)
  receive-sent (unlink p) rest i = rw (receive-code, receive_path-path_field p rest i)
  receive-sent (rmdir p) rest i = rw (receive-code, receive_path-path_field p rest i)
  receive-sent (rename p q) rest (i, j) =
      rw (receive-code, append_assoc, receive_path-path_field p _ i, receive_path-path_field q _ j)

  -- `gone`: behind the last byte of a client that is gone recv gives nothing.
  module _ (gone : recv 1 [] ≡ (none, [])) (fuel : ℕ) (e : Env) where
    left : next_request recv [] ≡ none
    unfolding next_request
    left = rw gone

    -- The requests that a client sends before it goes are performed in order, each on the server
    -- that the one before left, and answered in order; the loop ends in one round more than there
    -- are requests.
    pub process_request-all_sent :
        (rs : List Request) (n : ℕ) (s : Server)
        → AllSendable rs
        → length rs < n
        → process_request recv n fuel e (all_sent rs) s ≡ perform_all fuel e rs s
    unfolding process_request all_sent perform_all
    process_request-all_sent rs zero s i h = absurd (omega arith)
    process_request-all_sent [] (suc n) s i h =
        let stop : next_request recv [] ≡ none = left in rw stop
    process_request-all_sent (r ∷ rs) (suc n) s (i, is) h = rw (receive-sent r (all_sent rs) i) (
        ap (serve_one fuel e r s) (fun_ext λ s'. process_request-all_sent rs n s' is (omega arith)))
