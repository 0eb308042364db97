-- ===== src/Pokedex/Requests/Examples.antt =====
-- A stream of bytes from which recv takes what is there, and two requests on it.
use sisoputnfrba_tp_2016_2c.Base.{
  ℕ, zero, suc, ◌<◌, ◌≡◌, refl, List, [], ◌∷◌, ◌++◌, false, none, some, arith, length, take, drop,
  take-append, drop-append,
}
use sisoputnfrba_tp_2016_2c.Pokedex.Search.{Env}
use sisoputnfrba_tp_2016_2c.Pokedex.Search.Create.{nil, cons}
use sisoputnfrba_tp_2016_2c.Pokedex.State.{Server, deleted, end_of_file}
use sisoputnfrba_tp_2016_2c.Pokedex.Requests.{
  Request, mkdir, write, Received, next_request, process_request,
}
use sisoputnfrba_tp_2016_2c.Pokedex.Requests.Sent.{
  sent, IsPath, receive-sent, all_sent, perform_all, process_request-all_sent,
}

abbrev pub recv_all : ℕ → List ℕ → Received (List ℕ) (List ℕ)
recv_all n [] = (none, [])
recv_all zero (b ∷ bs) = (none, b ∷ bs)
recv_all (suc n) (b ∷ bs) = (some (take (suc n) (b ∷ bs)), drop (suc n) (b ∷ bs))

pub recv_all-waits :
    (n : ℕ) (bs rest : List ℕ) → 0 < n → length bs ≡ n → recv_all n (bs ++ rest) ≡ (some bs, rest)
recv_all-waits zero bs rest h e = absurd (omega arith)
recv_all-waits (suc n) [] rest h e = absurd (omega arith)
recv_all-waits (suc n) (b ∷ bs) rest h e =
    let l : length bs ≡ n = omega arith in rw (← l, take-append, drop-append)

abbrev some_path : List ℕ
some_path = b'/' ∷ b'd' ∷ []

some_path-IsPath : IsPath some_path
some_path-IsPath = record {
  no_zero = cons refl (cons refl nil);
  some_bytes = omega arith;
  short = omega arith;
}

abbrev some_write : Request
some_write = write some_path 300 (1 ∷ 2 ∷ 3 ∷ [])

receive-sent_example :
    next_request recv_all (sent some_write ++ (1 ∷ [])) ≡ some (some some_write, 1 ∷ [])
receive-sent_example =
    receive-sent recv_all recv_all-waits some_write (1 ∷ [])
      (some_path-IsPath, omega arith, omega arith, omega arith)

abbrev empty_server : Server
empty_server = record {
  table = λ q. record {
    state = deleted;
    fname = [];
    parent_directory = 0;
    file_size = 0;
    lastmod = 0;
    first_block = end_of_file;
  };
  mapping = λ q. end_of_file;
  bitmap = λ q. false;
  blocks = λ b off. 0;
  data_size = 4;
  locks = record { held = []; stray = 0 };
}

abbrev pub env : Env
env = record { now = 3; junk = [] }

process_request-all_sent_example :
    process_request recv_all 3 5 env (all_sent (mkdir some_path ∷ some_write ∷ [])) empty_server
    ≡ perform_all 5 env (mkdir some_path ∷ some_write ∷ []) empty_server
process_request-all_sent_example =
    process_request-all_sent recv_all recv_all-waits refl 5 env (mkdir some_path ∷ some_write ∷ [])
      3 empty_server
      (some_path-IsPath, ((some_path-IsPath, omega arith, omega arith, omega arith), tt))
      (omega arith)
