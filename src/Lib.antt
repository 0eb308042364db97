-- ===== src/Lib.antt =====
-- Three programs that talk over sockets, of a distributed game. The first is the server of an OSADA
-- file system (pokedex-server/pokedex-server.c with pokedex-server/osada.h), which answers the
-- requests of a FUSE client: a file table of 2048 entries, a mapping table that chains the data
-- blocks of a file, a bitmap of the blocks in use, and one read/write lock for each entry of the
-- file table. The second is the process of a map (mapas/), where trainers connect, move, wait in
-- queues for their turn, take pokemons from PokeNests and are searched for deadlocks. The third is
-- the process of a trainer (entrenador/), which walks over the map and asks for its pokemons. Beside
-- them stands memoria.c, a memory process with pages and a cache.
--
-- Pokedex/State: the mapped file and the locks. A lock is taken and given back by
-- `semaphore_lock` and `semaphore_unlock`; the model follows the thread of one client and keeps
-- which locks it holds and how many it gave back without holding them. To wait for a lock is no part
-- of it, so that the ends of an operation are stated for a thread that holds no lock before it: an
-- operation passes by the entries that it has locked itself. Pokedex/Search: search_node,
-- search_dir, get_free_file_block, create_dir, create_node. Pokedex/Walk: the words that strtok
-- finds and the loops by which the handlers go down the directories; Walk/Leads says to which entry
-- of the table the words of a path lead, and Search/Wanted which entry a search is asked for. Pokedex/Blocks: the loops over
-- chains of blocks. Pokedex/Content: osada_write, osada_read, osada_truncate, osada_unlink.
-- Pokedex/Nodes: osada_mkdir, osada_readdir, osada_getattr, osada_mknod, osada_rmdir,
-- osada_rename. A handler takes the fields of its request, and returns what it writes to the
-- socket and the server. `unset` stands for a handler that goes on with a variable it has not set.
--
-- What a handler calls and what its client sees: the walks call the searches, Content and Nodes
-- call the walks, and Content calls the loops of Blocks. Pokedex/Files says what the three tables
-- promise together (`Consistent`) and how a handler on one file relates to it.
--
-- Pokedex/Requests: process_request and the fields that each handler receives, over a stream and a
-- `recv` that are parameters; Pokedex/Requests/Sent has the buffers that
-- pokedex-client/pokedex-client.c sends. Pokedex/Client: the FUSE operations of
-- pokedex-client/pokedex-client.c over a `send` and a `recv` that are parameters, and what each
-- makes of an answer; Answers lays the answers out in bytes, and Net puts the client and the server
-- together: what is sent, process_request handles before the client receives. `Ret` is an `int`
-- that is returned, with its sign. Pokedex/Layout: read_and_set.
--
-- Mapas/State: mapas/nivel-test.h, the trainers by their socket, the two queues, the PokeNests, and
-- what is sent and drawn. Mapas/Solicitudes: mapas/solicitudes.c, with connection_recv and
-- atenderSolicitud in Atencion, and comparar_strings of
-- biblioteca-charmander/bibliotecaCharMander.c. Mapas/Planificacion: the queues and
-- liberarRecursos2 of mapas/planificacion.c, with liberarEntrenador of mapas/nivel-test.c.
-- Mapas/Turnos: round robin and SRDF. Mapas/Conexiones: the handshake and manejar_select.
-- Mapas/Deadlock: mapas/deteccionDeadlock.c, the loop over the matrices in Deadlock and the battles
-- in Batalla. Mapas/Cuentas counts pokemons. `recv`, `list_sort`, `pkmn_battle` and
-- `string_equals_ignore_case` are fields of `Ambiente`. An operation returns `none` where the
-- process exits, or goes on through a pointer that is null, freed or not set, and where the fuel is
-- used up; the detection tells the ends of its `while` apart in `Fin`. The threads of the process
-- are taken one step after the other: a turn, a round of the detection, a round of manejar_select.
--
-- Entrenador: the walk of coach_move_to_pokemon of entrenador/src/Entrenador/entrenador.c, and
-- connection_send of entrenador/src/Conexion/conexion.c; Recorrido connects the walk with the
-- answers of the map, and Paquetes connection_send with the connection_recv of the map. Captura has
-- the connection_recv of the trainer and coach_capture_pokemon, with fuel for the rounds of the
-- wait, and Saludo handshake and map_locate_pokemon; Avisos, Capturado, Saludo and Presentado
-- connect these with what the map sends. Completar: map_next_pokemon of entrenador/src/Mapa/mapa.c
-- and completar_mapa with move_to and coach_medal_copy, over the same packets; Viaje has the order of
-- the pokemons. `Juego` tells the ends of a step of the trainer apart. An index that starts at -1 is
-- kept plus one.
--
-- Memoria: the page table, assign_pages_to_process and cleaning_process_entries of memoria.c, with the
-- structures of memoria.h. Memoria/Cache: get_frame, the search and the choice of an entry,
-- update_cache, and read_page and writing_cache with what they call. An operation returns `none`
-- where no frame or no entry is found and where it would write beyond an entry; pid -1 is `none`. The table is kept apart from
-- the first frames, in which it stands. `byte_of` is a byte of a page as a process sees it.
--
-- Bounds: the loops over a chain are on fuel and answer `none` without it; a chain of distinct
-- blocks below DATA_SIZE has at most DATA_SIZE of them, so fuel above DATA_SIZE serves. The loops
-- over the file table and the bitmap are structural. `uint32_t` arithmetic keeps its wrap-around;
-- an `int` that counts bytes is read through `positive`. File sizes in an `int` are below 2^31, as
-- the blocks of a mapped file are. In Mapas an `int` is kept as its 32 bits and a `char` as its 8;
-- the `while` of the detection is on the number of its passes, liberarRecursos2 on the number of
-- pokemons and blocked trainers together, and the loop of SRDF until an answer on the number of
-- requests; the walk of a trainer and completar_mapa on the number of their rounds.
--
-- Not modelled: `main`, the loggers, the property files, fuse_main and mmap; other threads between
-- the steps of an operation, and the wait for a lock, of the server and of memoria.c alike; of mapas the loading of its files, and the drawing; of entrenador
-- iniciar_ruta_de_viaje, the files and the signals; the sockets of biblioteca-charmander; of memoria.c the console, and
-- the messages of shared-library, which is not in the repository; Servidor-Basico and
-- Cliente-Basico, samples of sockets.
pub mod Base
pub mod Entrenador
pub mod Mapas
pub mod Memoria
pub mod Pokedex
