-- ===== src/Pokedex/Client/Examples.antt =====
-- A client on a server with one directory that holds one file.
use sisoputnfrba_tp_2016_2c.Base.{
  ℕ, ◌≡◌, refl, List, [], ◌∷◌, some, false, ◌==◌, if◌then◌else◌, arith, Bool-cases, inl, inr,
  strcmp, Option, none,
}
use sisoputnfrba_tp_2016_2c.Pokedex.State.{
  Server, OsadaFile, deleted, regular, directory, end_of_file, root, isreg, status_code,
}
use sisoputnfrba_tp_2016_2c.Pokedex.Search.{
  name_bytes, search_node, search_dir, search_loop, is_node, check_dir,
}
use sisoputnfrba_tp_2016_2c.Pokedex.Walk.{attr, tokens, split_path, walk_nodes, walk_rmdir}
use sisoputnfrba_tp_2016_2c.Pokedex.Nodes.{
  osada_getattr, get_attr, attributes, osada_rmdir, remove_dir,
}
use sisoputnfrba_tp_2016_2c.Pokedex.Client.Answers.{known_here, reply_of, open_reply, code_reply}
use sisoputnfrba_tp_2016_2c.Pokedex.Search.Create.{nil, cons}
use sisoputnfrba_tp_2016_2c.Pokedex.Requests.{readdir, getattr, rmdir, perform}
use sisoputnfrba_tp_2016_2c.Pokedex.Requests.Sent.{IsPath}
use sisoputnfrba_tp_2016_2c.Pokedex.Requests.Examples.{recv_all, recv_all-waits, env}
use sisoputnfrba_tp_2016_2c.Pokedex.Client.{
  Reply, FuseOp, ask, open_file, pk_oper, pk_all, rmdir_ret,
}
use sisoputnfrba_tp_2016_2c.Pokedex.Client.Names.{last, more}
use sisoputnfrba_tp_2016_2c.Pokedex.Client.Net.{deliver, receive_on, direct, asked, direct_all}
use sisoputnfrba_tp_2016_2c.Pokedex.Client.Replies.{Sends}
use sisoputnfrba_tp_2016_2c.Pokedex.Client.Complete.{HasReply, perform-HasReply}
use sisoputnfrba_tp_2016_2c.Pokedex.Client.Session.{pk_all-direct_all}
use sisoputnfrba_tp_2016_2c.Pokedex.Client.Paths.{
  NamesKept, Filled, Known, pk_readdir-Filled, pk_getattr-Known,
}

abbrev free_one : OsadaFile
free_one = record {
  state = deleted;
  fname = [];
  parent_directory = 0;
  file_size = 0;
  lastmod = 0;
  first_block = end_of_file;
}

-- "/d" at 0 and "/d/ab" at 1.
abbrev one_dir : Server
one_dir = record {
  table = λ q.
      if q == 0
      then record free_one { state = directory; fname = b'd' ∷ 0 ∷ []; parent_directory = root }
      else if q == 1
      then record free_one { state = regular; fname = b'a' ∷ b'b' ∷ 0 ∷ []; file_size = 300 }
      else free_one;
  mapping = λ q. end_of_file;
  bitmap = λ q. false;
  blocks = λ b off. 0;
  data_size = 4;
  locks = record { held = []; stray = 0 };
}

abbrev path_d : List ℕ
path_d = b'/' ∷ b'd' ∷ []

abbrev path_ab : List ℕ
path_ab = b'/' ∷ b'd' ∷ b'/' ∷ b'a' ∷ b'b' ∷ []

path_d-IsPath : IsPath path_d
path_d-IsPath = record {
  no_zero = cons refl (cons refl nil);
  some_bytes = omega arith;
  short = omega arith;
}

path_ab-IsPath : IsPath path_ab
path_ab-IsPath = record {
  no_zero = cons refl (cons refl (cons refl (cons refl (cons refl nil))));
  some_bytes = omega arith;
  short = omega arith;
}

one_dir-NamesKept : NamesKept one_dir
unfolding name_bytes
one_dir-NamesKept q u = elim (Bool-cases (q == 0)) [
  | inl first ↦ rw first (last refl)
  | inr other ↦ elim (Bool-cases (q == 1)) [
    | inl second ↦ rw (other, second) (more refl (last refl))
    | inr third ↦ absurd (cc (rw (other, third) at u))
  ]
]

pk_readdir-Filled_example :
    (reply : Reply) × Sends
      (pk_oper (deliver recv_all 9 env) (receive_on recv_all 9 env) (ask (readdir path_d)))
      one_dir
      reply
      one_dir
    × Filled one_dir path_d reply
pk_readdir-Filled_example =
    pk_readdir-Filled recv_all 9 env recv_all-waits refl path_d one_dir path_d-IsPath
      one_dir-NamesKept

pk_getattr-Known_example :
    (reply : Reply) × Sends
      (pk_oper (deliver recv_all 9 env) (receive_on recv_all 9 env) (ask (getattr path_ab)))
      one_dir
      reply
      one_dir
    × Known one_dir (tokens path_ab) reply
unfolding strcmp tokens split_path
pk_getattr-Known_example =
    pk_getattr-Known recv_all 9 env recv_all-waits refl path_ab one_dir path_ab-IsPath refl
      (omega arith)

-- A file is opened, the root is looked at, and the directory is removed.
abbrev some_ops : List FuseOp
some_ops = open_file path_ab ∷ ask (getattr (b'/' ∷ [])) ∷ ask (rmdir path_d) ∷ []

abbrev done_of : Option (List Reply × Server) → List Reply × Server
done_of none = ([], one_dir)
done_of (some r) = r

abbrev some_done : List Reply × Server
some_done = done_of (direct_all 9 env some_ops one_dir)

some_done_lem : direct_all 9 env some_ops one_dir ≡ some some_done
unfolding direct_all direct known_here asked perform reply_of open_reply osada_getattr get_attr
    attributes tokens split_path walk_nodes search_node search_loop is_node check_dir strcmp
    name_bytes code_reply rmdir_ret status_code osada_rmdir remove_dir walk_rmdir search_dir
some_done_lem = refl

pk_all-direct_all_example :
    Sends
      (pk_all (deliver recv_all 9 env) (receive_on recv_all 9 env) some_ops)
      one_dir
      some_done.0
      some_done.1
unfolding known_here strcmp
pk_all-direct_all_example =
    pk_all-direct_all recv_all 9 env recv_all-waits refl some_ops one_dir some_done.1 some_done.0
      (path_ab-IsPath, (tt, (path_d-IsPath, tt))) some_done_lem

perform-HasReply_example : HasReply (ask (getattr path_ab)) (attr isreg 300 0)
unfolding perform osada_getattr get_attr attributes tokens split_path walk_nodes search_node
    search_loop is_node strcmp name_bytes
perform-HasReply_example =
    perform-HasReply 9 env (ask (getattr path_ab)) one_dir one_dir (attr isreg 300 0) refl
