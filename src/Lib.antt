-- ===== src/Lib.antt =====
-- The verification library of zrpc, the server of the Zentific control panel (a C program): the
-- request context, sessions, login, accounts, groups, hashing, the update of a machine's disks and
-- interfaces and of a node's machines, jobs, networks, consoles, the console proxy, and the
-- configuration of the daemon with its signals and reloads.
--
-- The program. A client's call is a method of a servlet. `PRE_CALL` runs `session_pre_call` until
-- the session of the client is known and checked; then the method runs in a privilege macro
-- (include/servlets.h) and calls one of the functions under src/servlets/functions. A function
-- sends a query to the database pool, appends a callback to `ctx->cbs` and returns. When the answer
-- comes, `event_cb` (db_sources/mysql/zrpcdb.c) hands it to the first callback, which may hand a
-- value on (`NEXT_CB`), rewind the call so that it runs again with a higher `ctx->count`, or resume
-- it. Errors and finished results reach `error_handler` and `result_handler` of src/bin/loop.c.
--
-- The model. A function is a function from a `Ctx` to a `Ctx`, with the value it returns where it
-- has one. `Ctx` (Rpc/State) is `Zentific_Ctx` of include/ztypes.h with the parts of its module
-- that the code reaches: the session, the content and the cookie. Queries, resumes, rewinds and
-- jobs are entries of `log`, the newest first. Reads of NULL, past the end of a string or through a
-- number, and calls of NULL, are the entry `undefined`. Each macro of include/functions.h is a
-- function of Rpc/Macros. A run of a call, an answer and the next run are explicit steps: `deliver`
-- carries an answer through the chain.
--
-- The files.
--   Rpc/Records, Rpc/Query, Rpc/State, Rpc/Faults, Rpc/Slots: include/ztypes.h,
--     src/servlets/azy/zentific-server.azy
--   Rpc/Macros: include/functions.h
--   Rpc/Callbacks, Rpc/Handlers, Rpc/Delivery: src/servlets/functions/functions_cb.c, src/bin/loop.c
--   Rpc/Database: include/zrpcdb.h, include/zrpcdb.x, db_sources/mysql/zrpcdb.c
--   Rpc/Privileges: include/servlets.h, functions-vm.c, functions-node.c
--   Rpc/Env: the answers of code outside the repository (libzshare, Eina, Azy, libpam, the clock)
--   Session: src/servlets/functions/functions-session.c
--   Auth: src/servlets/functions/functions-auth.c, src/servlets/servlet-functions.c
--   User: src/servlets/functions/functions-user.c
--   Group: src/servlets/functions/functions-group.c
--   Hash: src/bin/sha1.c, src/bin/sha1wrap.c
--   Job: src/servlets/functions/functions-jobs.c, include/zentific-defines.h
--   Network: src/servlets/functions/functions-network.c
--   Machine: src/servlets/functions/functions-vm.c (the update of machines), with a context of its own
--   Device: src/servlets/functions/functions-disk.c, functions-vif.c
--   Console: src/servlets/functions/functions-console.c (the ports, the locks and the two calls that
--     connect a console)
--   Config: src/bin/zconf.c, src/bin/server.c, include/ztypes.h, include/zentific-defines.h; a state
--     of its own, `Server`, for the variables of server.c
--   Proxy: src/utils/zproxy.c, a program of its own: it listens for a client, dials a console, and
--     passes bytes on; what poll, read, send and the SSL library answer is an argument of each step
--   Dispatch: the chain of callbacks over all of these
--   Base: lists, numbers and tests that the components share
--   Tests: concrete requests
--
-- Bounds and fuel. `ctx->count` is an unsigned int of 32 bits. The words of SHA-1 have 32 bits. The
-- padding loop of SHA1_Final2 has fuel 64, which is enough for every position in a block. A chain
-- of callbacks has as much fuel as it has callbacks, and one more. The sending loop of the proxy
-- runs on the list of answers of send, and says whether it has returned. The search for a port has
-- fuel 2^16, one turn for each port; one that uses it up goes round for ever and has no result.
-- Strings that `sha1_buffer` joins are taken to be shorter than 2^31 bytes.
--
-- Not modelled: the text of SQL queries and the conversion of rows; outside the proxy, memory and
-- reference counts; failing allocations; log messages; the options of the proxy; the detection of a
-- virtual machine at the start, which the build leaves out by default; the cancelling of jobs; the
-- networks' calls that create jobs (a job is shared there between two slots of `ctx->params`); the
-- disconnection of consoles, which kills processes by their pid files; the functions on storage and
-- platforms, and the other calls on machines and nodes.
pub mod Base
pub mod Rpc
pub mod Session
pub mod Auth
pub mod Config
pub mod Console
pub mod User
pub mod Group
pub mod Dispatch
pub mod Hash
pub mod Device
pub mod Job
pub mod Network
pub mod Machine
pub mod Proxy
pub mod Tests
