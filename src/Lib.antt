-- ===== src/Lib.antt =====
-- PostgreSQL as a WASI module, and the Java library around it, modelled and proved.
--
-- The Java library starts the module, passes the messages of its clients to it and their answers
-- back:
--
--   Wire (Wire/Exports, Wire/Transport, Wire/Engine, Wire/Session, Wire/Frame): `execProtocolRaw`
--   of core/src/main/java/io/roastedroot/pglite4j/core/PGLite.java and the methods that it calls.
--   The record `PgLite` holds `bufferAddr`, `pendingWireLen` and the state of the module. A call
--   returns or throws. The exports of the module, and the file that it may answer by, are the
--   record `Exports` over an unknown state; `IsLawful` says what is asked of them, in terms of the
--   replies that the module has for a message. Wire/Frame has `buildSimpleQuery`, and
--   `endsWithReadyForQuery` of jdbc/src/main/java/io/roastedroot/pglite4j/jdbc/PgLiteDriver.java.
--
--   Driver (Driver/State, Driver/Clients and its children Locking, Startup, Points, Cache, Served,
--   Answers, Progress): the threads of a `ManagedInstance` of PgLiteDriver.java, which are one per
--   connection, the periodic backup and the one that closes the instance. The record `System` holds
--   the lock `pgLock`, the shared fields, and for each thread the point of the code where it stands
--   and the bytes it wrote. `advance` is a move of a thread, from one use of the lock, the cache, a
--   socket or the module to the next; `Reached` are the states that any order of moves and any
--   input lead to. The test of `running` is a move, and the read after it, which may wait, is one
--   more. A failed write is taken to write nothing. A thread that has not been started
--   stands at its first point.
--
--   Driver/Registry (and its children Laws, Tidy, Settings): `connect`, `acceptsURL`, `boot` and
--   `closeAndEvict` of PgLiteDriver.java, on the record `Registry`, which has INSTANCES, and which of
--   all instances that were made are running. How a boot ends, `Long.parseLong` and the periods that
--   a scheduler takes are parameters. A boot is one step, as `computeIfAbsent` makes it for a path.
--
--   DataDir: `dumpDataDir`, after its two messages to the module, and `restoreDataDir` of
--   PGLite.java. A file system is a map from names to contents; the zip format, and how each call
--   of the host ends, are parameters; a plain move that fails leaves anything in place of the
--   archive. DataDir/Startup (and its children Laws, History and
--   Reopen) has the constructor and `extractDistToZeroFs`: the class path, what ZeroFS refuses, and
--   the loading of the module are parameters. A history of sessions is the list of how they end.
--
-- Wire/Errors (and its children Laws and Calls) is the other side of `pglCheckError`: the flag, and
-- the end of `errfinish`, of
-- wasm-build/patches/postgresql-pglite/src-backend-utils-error-elog.c.diff. It makes a module with
-- the flag out of any module, and the theorems run `execProtocolRaw` on the two together.
--
-- Inside the module, PostgreSQL and its client code call a small emulation of what WASI lacks. It
-- has these parts, each with the files that model it:
--
--   Receive (Receive and its children Laws and Bounds): `pq_recvbuf_fill`, and the read that
--   `pq_recvbuf` does in the module, of
--   wasm-build/patches/postgresql-pglite/src-backend-libpq-pqcomm.c.diff. The record `Buffer` holds
--   PqRecvBuffer, PqRecvPointer, PqRecvLength, `queryfp` and `querylen`; the file is the list of its
--   bytes that are left. `take_all` stands for the callers, which take all bytes before they ask for
--   more; as many rounds as the packet has bytes are enough for it.
--
--   Buffers (and its child Laws): `pgl_invalidate_buffers` of
--   wasm-build/patches/pglite-wasm/pgl_mains.c.diff, on the array of buffer descriptors.
--
--   Signals (Signals, Signals/Sets, Signals/State, Signals/Mask): the signal sets, `sigprocmask`
--   and `blocked_handler` of wasm-build/wasm-build/sdk_port-wasi/sdk_port-wasi.c. The record
--   `Signals` holds `blocked_set`, `pending_array` and `old_handlers`, the handlers that the C
--   library has, and a log of the signals that were delivered. NSIG, the signals that `signal`
--   refuses, and whether a handler is reset before it runs are parameters.
--
--   Socket (Socket, Socket/State): the client socket of wasm-build/sdk/hotfix/sdk_socket.c, which
--   hands a request to the host through files and reads the reply from a file. The record `Socket`
--   holds the variables of one translation unit and the files. The host is a function on the files
--   that runs inside `sched_yield`. A call returns, aborts, exits by `sdk_exit`
--   (wasm-build/sdk/hotfix/patch.h), or is undefined.
--
--   AddrInfo: `sdk_getaddrinfo`, `sdk_freeaddrinfo` and `sdk_gai_strerror` of the same file, on a
--   store of heap objects by address; `malloc`, `inet_pton`, `htons` and `atoi` are parameters, and
--   `IsAllocator` says what is asked of `malloc`.
--
--   Dlfcn (Dlfcn/Dict, Dlfcn/Text, Dlfcn/Loader, Dlfcn/Symbols): the dictionary, `ends_with`,
--   `dlopen` and `dlsym` of wasm-build/wasm-build/sdk_port-wasi/sdk_port-wasi-dlfcn.c. `dltab` has
--   the one element that C gives an array with no size.
--
--   Temp (Temp/Letters, Temp/Name, Temp/Tempnam): `__randname`, `mktemp`, `mkstemp`, `sdk_tmpfile`
--   and `tempnam` of wasm-build/sdk/hotfix/patch.h. The clock, the addresses and `stat` are
--   parameters.
--
--   Process: `sdk_getpid`, `sdk_getppid`, `sdk_fdtell` and `sdk_ftell` of the same file, and
--   the macros of wasm-build/sdk/hotfix/sys/wait.h.
--
--   Shm: `get_shm_path`, `shm_open` and `shm_unlink` of
--   wasm-build/wasm-build/sdk_port-wasi/sdk_port-wasi.c. The file system is a parameter.
--
--   Stubs: the calls that the port answers by a constant, in the C files above and in
--   wasm-build/wasm-build/sdk_port.h, wasm-build/sdk/hotfix/pwd.h, wasm-build/sdk/hotfix/dlfcn.h and
--   wasm-build/sdk/hotfix/wasi-setjmp.h, in groups by the place they stand at.
--
-- Prelude holds what they share: Boolean tests, lists and integers over the native numbers, bits of
-- a byte, C strings, and decimal numbers. Witnesses applies each result to a concrete input.
--
-- A loop of the source recurs on the rounds that are left, which its own counter bounds: 256 ticks
-- for a call, NSIG for the signals, 100 for `mktemp`, the length of the dictionary. Only
-- `sdk_freeaddrinfo`, which follows a chain, has rounds that are not in the source; one is shown to
-- be enough for what `sdk_getaddrinfo` gives. The decimal digits of `n` have n + 1 rounds, which
-- are enough.
--
-- A word of the target has 32 bits, and a wrap is written out where the source can reach it. An
-- `int` that counts the bytes of a file or of an object is taken to be below 2^31. What C leaves
-- undefined is a result of its own.
--
-- Not modelled: what the functions print; the other patches to PostgreSQL under wasm-build/patches,
-- whose files are not part of the repository; how PgLiteDriver.java accepts connections, its
-- sockets and its shutdown hook; `dict_free`, which nothing calls; the copies of C library headers;
-- and the build.
pub mod Prelude
pub mod Signals
pub mod Socket
pub mod Dlfcn
pub mod Temp
pub mod AddrInfo
pub mod Buffers
pub mod Shm
pub mod Process
pub mod Stubs
pub mod Wire
pub mod Driver
pub mod DataDir
pub mod Receive
pub mod Witnesses
