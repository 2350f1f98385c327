-- ===== src/Lib.antt =====
-- herdr-phone: a daemon that lets the operator of a terminal multiplexer (Herdr) watch and drive
-- it from a phone. This library models the parts of the Go code that guard that access.
--
-- The parts, and how they work together. A phone pairs with a secret that is good for one exchange
-- (internal/auth/pairing.go) and gets a session (internal/auth/session.go). A mutation is a request
-- of a session to change something: internal/server/mutations.go checks it, takes its request id in
-- the idempotency cache, spends the confirmation nonce that a destructive operation needs (both
-- in internal/server/stores.go), and calls the mutator. The state engine polls the multiplexer
-- and numbers the occupants of each pane, so that a mutation can name the one it means, and so
-- can a request to read a run (internal/server/runs.go). Output of the terminals goes through the
-- escape sequence filter of internal/security/ansi.go before it reaches a log or a phone; the
-- bridge of internal/terminal carries it, and takes the phone's input the other way. The daemon
-- is reached through a tunnel, a child process that internal/tunnel supervises; internal/config
-- says how.
--
-- Base: numbers, strings as lists of bytes, and maps as association lists (Base/Assoc).
--
-- Ansi: internal/security/ansi.go. `Ansi` holds the state of `ANSIFilter` and one clause per case of
-- the switch in `Filter`, `Ansi/Strip` the functions `csiShouldStrip` and `oscShouldStrip`,
-- `Ansi/Loop` the loop over the bytes (`filter`) and `ansiWriter`. The loop reads a byte again after
-- some cases; `reread` allows one further reading, and `step-again` of Ansi/Bounds shows that there
-- is never another.
-- `Ansi/Queries` says which sequences are to be dropped without the code's tests.
--
-- Stores: internal/server/stores.go. `Stores/Nonces` is `nonceStore`, `Stores/Idem` is `idemStore`,
-- `Stores/Rate` is `rateLimiter`. The other files there are about histories of calls.
--
-- Auth: `Auth/Session` is internal/auth/session.go and the check of internal/auth/csrf.go,
-- `Auth/Pairing` is internal/auth/pairing.go.
--
-- Server: internal/server/mutations.go. `Server/Operations` holds its tables and
-- `classifyMutateErr`. `handleMutations` is cut where it calls the mutator: `admit` of
-- Server/Mutations runs up to the call, one function for each of its stages, and `finish` of
-- Server/Finish from its return; so a history may put the calls of other requests between. The
-- release that `handleMutations` defers is not reached on any of its paths.
-- `Server/Confirmations` is `handleConfirmations`. Of runs.go, `Server/RunText` holds the bounds on
-- text, and `Server/Runs` the list of runs and `handleRun`, whose JSON encoding does not fail here.
--
-- State: internal/state. `State/Generations` holds the generations of panes that the guard of a
-- mutation reads (`updateGenerationsLocked` of engine.go), `State/Engine` the engine's polling
-- results, broadcast and subscriptions, `State/Subscriber` the client queues of subscriber.go,
-- `State/Polling` the flags of the loop `Run`, and `State/Runs` the projection of runs.go. The
-- content hash of a topology and the size of a snapshot as JSON are parameters.
--
-- Terminal: internal/terminal. `Terminal/Protocol` is protocol.go with the options and audit events of
-- bridge.go, `Terminal/Channels` the state that the goroutines of `run` share and the sends on its
-- channels, `Terminal/Bridge` one turn of each goroutine (`bridge_step`). A list of turns is one
-- order in which they ran, and every list is allowed. The filter of the bridge is a parameter, for
-- which Terminal/Output takes the filter of Ansi as internal/integration/terminalfilter.go does.
--
-- Tunnel: internal/tunnel. `Tunnel/Config` is mode.go and args.go, `Tunnel/Logs` is logbuf.go,
-- `Tunnel/Supervisor` the loop `run` of supervisor.go, one `Turn` for what each of its turns meets,
-- and `Tunnel/Orphan` is orphan.go. The signals that a function sends are its result. Whether a file
-- can be removed is an argument, since the source ignores the error.
--
-- Config: internal/config. `Config/Model` holds the configuration of config.go and its defaults,
-- `Config/Decode` the decoding of a file over them, `Config/Expand` paths.go and the loading,
-- `Config/Validation` what `Validate` checks, as a list of checks for each function, and
-- `Config/Forms` the forms of single values without those checks. `Config/Front` is the part of
-- internal/integration/configmap.go that hands a configuration to Tunnel.
--
-- A mutex makes each operation of a store atomic: a history of calls is a list. The clock, the
-- entropy source and what other components answer are arguments of each call; times are natural
-- numbers of nanoseconds. JSON, SHA-256, base64, and decimal printing are parameters. The tokens of
-- the rate limiter are counted exactly and not in float64. Nothing here needs fuel: every loop
-- runs over a list.
--
-- Not modelled: HTTP, cookies and routing, message texts, the goroutines that call these parts, the
-- capabilities and interpreted parts of a run, and the hash projection of internal/state; of
-- the other packages internal/daemon, internal/interpret, internal/herdr and internal/app, what
-- reads the configuration file and what the parts above do not name of internal/integration; and
-- the web client.
pub mod Base
pub mod Ansi
pub mod Stores
pub mod Auth
pub mod Server
pub mod State
pub mod Terminal
pub mod Tunnel
pub mod Config
