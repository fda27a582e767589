-- ===== src/Lib.antt =====
-- The betting, login, gateway, observation, administration and monitoring core of the Discord bot.
--
-- The program is a bot process and a web process over one PostgreSQL database. Members of a guild
-- enrol, claim a daily credit, bet it on KBO games, and are paid when a game ends; the web process
-- reads roles from the bot, which takes them from Discord's gateway; the bot also compares what Riot
-- and Discord say of games that are played. An administrator's commands go from the web process to the
-- bot in frames over a local socket, and an operator's monitor turns observations into alerts.
--
--   Kbo           src/kbo: the rules. Return is bet-return.ts, Placement is bet-placement.ts,
--                 Settlement is bet-settlement.ts, Credit is daily-credit-claim.ts.
--   Persistence   src/persistence: the transactions. Database has the tables of migrations/ with the
--                 constraints that the stores rely on, Queries the shared queries, Ledger the
--                 invariant of accounts and ledger. DailyClaim is `claim` of
--                 postgres-kbo-daily-credit-claim-store.ts, BetStore is `place` of
--                 postgres-kbo-bet-store.ts, SettlementStore is `settle` of
--                 postgres-kbo-settlement-store.ts, Enrollment is `enroll` of postgres-kbo-enrollment-store.ts
--                 with the checks of src/kbo/betting-enrollment.ts, Departure is `depart` of
--                 postgres-kbo-departure-store.ts with those of src/kbo/departure.ts.
--   Auth          Authorization and OauthState are src/auth/authorization.ts, Session is
--                 src/persistence/session-store.ts. Cookies, Csrf and Boundary are
--                 src/http/session-boundary.ts: its cookies, the credential with its token, the
--                 authentication of a request and the logout. Callback is src/auth/oauth-callback.ts,
--                 CallbackRequest src/http/oauth-dto.ts, and Service is src/auth/auth-service.ts with
--                 `authorize` in Service/Access and the reading of roles in Service/Roles, which calls
--                 all of these. Log has the logs of outcomes, Ports the configuration, the interfaces
--                 and the response.
--   Runtime       src/runtime/health.ts.
--   Gateway       src/gateway/gateway-runtime.ts. Events has its methods, Reach their interleavings.
--   Game          src/game: Evidence is observation-state.ts, StreamObserver is
--                 discord-stream-observer.ts.
--   Ipc           Commands of an administrator. Request and Response, with Payload, Reasons and Text,
--                 are src/contracts/admin-command-ipc.ts: the types, the parsers and the serializers.
--                 Execute is `execute` of src/ipc/admin-command-application.ts with all of its
--                 handlers, Application its helpers, Label how it shows results, Services the
--                 interfaces that it calls. Json has the values of JSON, Platform the operations of
--                 the language and of node that the protocol uses.
--                 Transport is src/ipc/admin-command-ipc.ts: Server has `handleConnection`, Client
--                 has `exchange`.
--   Operations    src/operations/monitoring.ts: Monitoring has the observations, the alerts and the
--                 operational events, Monitoring/Evaluate has `evaluateMonitoring`.
--   Prelude       signed integers over the native numbers, searches in lists, dates and numbers of
--                 JavaScript, the chains of fallible results and, in Effects, of steps that may throw.
--
-- The stores call the rules; BetStore and SettlementStore write the tables that Ledger speaks of. A
-- transaction is a function from the tables to a result and the new tables; `none` is an error in a
-- statement, after which the transaction is rolled back. A table is a list of rows; a statement
-- fails where a constraint of the migrations that the model has fails, and `on conflict do nothing`
-- is the test for a conflict. Transactions run one after another: the row locks of the source are
-- what makes them do so. A bigint is an integer; the bounds of a bigint column are in the checks of
-- the ledger. In Kbo a `Date` is an instant in milliseconds or invalid, and a number is an integer or
-- not one; in Auth, Game and Gateway dates are valid instants and sequences are natural numbers.
--
-- In the login a text is the list of its code units, a header that is read is a field, and the random
-- values and the instants of the clock are arguments. The stores, Discord and the readers of roles are
-- steps over a state that Ports leaves open, each of which may throw; the hash, the HMAC and
-- `new URL` are the fields of Node. The boundary is that of `createSessionCookieBoundary`, which a
-- request makes anew and which stages one credential.
--
-- The methods of the gateway are cut at each `await`: a part gives the new state and the task that it
-- waits for, and a run is a sequence of calls and of answers to tasks, in any order. Nothing here uses
-- fuel: every loop of the source that is modelled runs over a list.
--
-- In Ipc a frame is what the socket carries between two line ends. In Ipc/Transport the callbacks of a
-- connection are the steps of a state, which give what is written and executed; the chunks that arrive
-- are lists of bytes. Reading and writing JSON and UTF-8, dates, base64url and the digits of a bigint
-- are fields of records that the definitions take; where a theorem needs that they read back what they
-- wrote, it says so by a named hypothesis. The execution of a command is a computation over the state
-- of the services, which may throw: `none` is a thrown error, and in a parser it is `undefined`. In
-- Operations `Date.parse` and `toISOString` are parameters and the share of the journal is compared as
-- a fraction.
--
-- Not modelled: the formatter of `Intl.DateTimeFormat` and the hash of node:crypto, which are
-- parameters; the tests `typeof` that the types of the fields make, save where a parser makes
-- them on values of JSON; the admin adjustment, which in Ipc is a service, the ranking and the
-- query stores; how the socket of the frames is opened and closed; the reader of the login's
-- configuration and its client of Discord; the half of a surrogate pair that the cut of a label
-- leaves, which is dropped with the other half, and the error of a value of JSON that has no
-- text; the slash commands, the routes of the HTTP server, the clients of Riot and OpenAI,
-- backup and the wiring of the two processes.
pub mod Auth
pub mod Game
pub mod Gateway
pub mod Ipc
pub mod Kbo
pub mod Operations
pub mod Persistence
pub mod Prelude
pub mod Runtime
