-- ===== src/Lib.antt =====
-- A model of chirp, the message library in C: a program embeds a chirp object, which listens on a
-- port, keeps encrypted connections to other nodes, and sends and receives messages over them.
-- All of it runs on the callbacks of a libuv loop.
--
-- How the parts work together. libuv hands received bytes to the protocol, which decrypts them
-- through OpenSSL and gives them to the reader of the connection; the reader is a state machine
-- that expects a handshake and then messages. The writer sends a message in up to four writes,
-- each started by the callback of the one before, through the connection, which encrypts into a
-- buffer of its own. Every error ends in a shutdown of the connection, and closing the chirp
-- object shuts down all of them and waits, with a semaphore, until libuv has called back for
-- each.
--
-- Which file models which part:
--
-- - Prelude and its children: shared names, lists, bits of 32-bit words, bytes in little-endian
--    and network order, signed integers, and the outcomes of a call (Prelude/Outcome).
-- - Util: src/util.h, ch_msb32 (msb32), ch_bytes_to_hex (bytes_to_hex) and
--    ch_random_ints_as_bytes (random_ints_as_bytes). Util/Memory: src/util.c, ch_alloc (alloc),
--    ch_realloc (realloc), ch_free (free) and ch_set_alloc_funcs (set_alloc_funcs).
-- - Types: include/error.h, include/const.h, the sizes of the wire structures, and
--    ch_uv_error_map (uv_error_map).
-- - Buffer: src/buffer.h, the pool of handler buffers, ch_bf_init (init), ch_bf_reserve (reserve)
--    and ch_bf_return (return), with the invariant in Buffer/Invariant.
-- - Config: ch_config_t of include/chirp_obj.h and _ch_chirp_verify_cfg (verify_cfg) of
--    src/chirp.c.
-- - World: the structures of src/connection.h, src/reader.h, src/writer.h, src/chirp.h and
--    include/message.h as records, the calls that leave the program, and the monad of the
--    functions (World/Monad). World/Agree compares two programs, and World/Keeps has the rules
--    for what a program keeps.
-- - Connection: src/connection.c. Connection/Write has ch_cn_write (write) and
--    _ch_cn_partial_write (partial_write), Connection/Shutdown has ch_cn_shutdown (shutdown),
--    ch_cn_send_if_pending (send_if_pending) and the callbacks of a shutdown,
--    Connection/Lifecycle has ch_cn_close_cb (close_cb) and ch_cn_read_alloc_cb (read_alloc_cb),
--    Connection/Sent has _ch_cn_write_cb (write_sent), Connection/Init has ch_cn_init and
--    ch_cn_init_enc (init, init_enc) with ch_wr_init, Connection/Compare has ch_connection_cmp
--    (connection_cmp) of src/connection.h. Connection/InFlight has the predicates on the one
--    write request and their rules, Connection/Memory what a connection owns and which calls take
--    it and give it back, and Connection/Callbacks the callbacks that libuv owes.
-- - What is kept over all of the code: Connection/Frame is the interface of a predicate that the
--    reader, the writer, the shutdown and the protocol leave alone (their modules named Frame
--    show that they do), and Connection/Kept what ch_cn_write and ch_cn_send_if_pending must keep
--    for it. Connection/Frame also has the wider interface (Wide) of a predicate that does not
--    look at the write request, for which the modules named Wide show this once. The modules
--    InFlight, Ownership, Returned and Callbacks below a part treat the operations that do change
--    the write request, the resources and the semaphore.
-- - Reader: src/reader.c, ch_rd_read (read_data) with _ch_rd_handshake (handshake).
-- - Writer: src/writer.c, _ch_wr_send (send) and its callbacks.
-- - Protocol: src/protocol.c, what happens with the bytes that libuv reads, _ch_pr_read_data_cb
--    (read_data_cb). Protocol/Start has ch_pr_start (start), Protocol/Accept has
--    _ch_pr_new_connection_cb (new_connection_cb), and Protocol/Events puts the callbacks of a
--    connection together as events in any order, Protocol/Life follows what it owns from its
--    acceptance to its end, and Protocol/Callbacks the closing semaphore.
-- - Chirp: src/chirp.c, closing of a chirp object, with ch_pr_stop (stop) of src/protocol.c.
--    Chirp/Init has ch_chirp_init (init), Chirp/Run has ch_chirp_run (run) with ch_run of
--    include/wrappers.h, Chirp/Send has ch_chirp_send (chirp_send) of src/writer.c, Chirp/Access
--    has what a user reads and sets and _ch_chirp_check_closing_cb (check_closing_cb) with
--    ch_en_stop, and Chirp/System puts a closing object together with all of its connections.
-- - Encryption: src/encryption.c, ch_en_start (start) and ch_en_stop (stop).
-- - Message: src/message.c, the address of a message.
-- - Samples, and the modules named Tests: concrete data, and the theorems applied to them.
--
-- State and outcomes. A function of the code on a connection is a function of a State, the
-- connection, its chirp object and the trace of the calls made so far, newest first. It comes to
-- one of five outcomes: it returns; an assertion fails (the model is of a debug build, in which
-- NDEBUG is not defined); it does what C leaves undefined; it waits for a mutex that its own
-- thread holds; or the model has run out of fuel. libuv, OpenSSL, sglib and the allocator are not
-- modelled: a call of theirs is written into the trace, and the answer is that of an environment
-- (Env), a parameter of every definition, which may depend on all earlier calls. The connections
-- that sglib's iterators give to the two loops of _ch_pr_close_free_connections are a parameter
-- too, as positions (Visits of Chirp): ch_cn_shutdown deletes from the tree that one of them
-- walks, so that it may pass over some. A buffer that is passed by pointer is its contents at the
-- call.
--
-- Bounds and fuel. The host is a 64-bit little-endian one. Words of 8, 16 and 32 bits wrap where
-- the code lets them; the semaphores are integers without a bound. A shutdown calls itself
-- through the reader and the writer, which is the parameter depth: two is enough
-- (Connection/Shutdown/Depth). The loops run on fuel: for the loop of _ch_cn_partial_write one
-- round more than there are bytes left is enough as long as SSL_write takes a byte in each
-- (Connection/Write/Encrypts), and so it is for the decryption loop (Protocol/Failure); for the
-- loop of ch_rd_read no fuel is enough while a message part is due (Reader/Loop). The floats
-- TIMEOUT and REUSE_TIME are held in thousandths of a second; their rounding, negative values and
-- NaN are not modelled.
--
-- Not modelled: malloc, rand and memcmp, which are parameters, what happens in the loop while
-- ch_chirp_run waits for it, logging, the freeing of the trees of receipts, which nothing fills,
-- sglib (a third-party container library), the Python bindings, and the test programs. A
-- connection to a peer is never opened by the code (ch_chirp_send has a note in that place), so
-- every connection of the model is one that a peer has opened.
pub mod Prelude
pub mod Util
pub mod Buffer
pub mod Types
pub mod Config
pub mod World
pub mod Samples
pub mod Connection
pub mod Reader
pub mod Writer
pub mod Protocol
pub mod Chirp
pub mod Message
pub mod Encryption
