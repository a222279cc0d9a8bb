-- ===== src/Lib.antt =====
-- The key manager: a library that models the Rust code of this repository and proves it correct.
--
-- The program has three parts. The contract (contract/) runs in an enclave: it derives a key per
-- group and seals and opens data for the accounts that belong to the group. The indexers
-- (fastdata-indexer/) read blocks of the chain and fill a database: the main indexer stores the
-- fast data of each block in Redis, the suffix fetcher reads those of one suffix back, and the
-- key-value and the file indexer store what they hold. The server (fastkv-server/) answers queries
-- over the database.
--
-- Which file models which code, by paths from the root of the repository:
--
--   Base                 Rust's lists, options, results and `?`; Base/Text: `str` as its Unicode
--                        scalar values, with UTF-8; Base/Decimal: printing and parsing of numbers
--   Contract/Types       the structs and enums of contract/src/lib.rs
--   Contract/Runtime     what the contract calls: AES-GCM, SHA-256, base64, hex, serde_json and
--                        the environment, with what is documented of them
--   Contract/Crypto      get_ckd_master_seed to decrypt, of contract/src/lib.rs
--   Contract/Membership  check_membership
--   Contract/Handlers    the handlers and execute
--   Server/Errors        ApiError and its responses, fastkv-server/src/models.rs
--   Server/Validate      the validate functions of fastkv-server/src/handlers.rs and models.rs
--   Server/Cursor        the pagination cursors of fastkv-server/src/models.rs and scylladb.rs
--   Server/Page          collect_page of fastkv-server/src/scylladb.rs
--   Server/Prefix        the key ranges of query_kv_with_pagination, fastkv-server/src/scylladb.rs
--   Server/Throttle      check_scan_throttle of fastkv-server/src/handlers.rs
--   Server/Json          serde_json's maps, an interface; Server/Tree: fastkv-server/src/tree.rs
--   Server/Action        code that changes a state and may fail
--   Server/Models        entries, fields, parameters (Params) and bodies (Replies) of models.rs
--   Server/RedisDb       fastkv-server/src/redis_db.rs, with what it reads of the indexer's writes
--   Server/Handlers      fastkv-server/src/handlers.rs: the checks (Checks, Fits), the handlers
--                        (Entries, Lists, Batch, Watch), social_handlers.rs (Social) and the
--                        services of main.rs (Routes)
--   Server/ScyllaDb      the queries of fastkv-server/src/scylladb.rs
--   Server/Startup       the connecting task and the response headers of main.rs
--   Indexer/Retry        retry_with_delays, fastdata-indexer/scylladb/src/utils.rs
--   Indexer/OrderId      compute_order_id, the same file, and the key-value indexer's
--   Indexer/Rows         fastdata-indexer/scylladb/src/types.rs, and what the file indexer shares
--   Indexer/Buckets      get_suffix_data of fastdata-indexer/scylladb/src/lib.rs
--   Indexer/Fastfs       fastdata-indexer/fastfs-sub-indexer: checks, rows (Rows), loop (Service)
--   Indexer/RedisDb      fastdata-indexer/redis_db/src/lib.rs
--   Indexer/Blocks       fastdata-indexer/main-indexer/src/main.rs, over any database (Rounds) and
--                        over the writes of redis_db (Stored)
--   Indexer/SuffixFetcher  fastdata-indexer/suffix-fetcher/src/lib.rs
--   Indexer/Kv           fastdata-indexer/kv-sub-indexer/src/main.rs, over any sink (Loop) and over
--                        the writes of redis_db (Recorded)
--
-- A function of the code is a function of the same name. State is passed on: a database is a
-- parameter, a type of states with the operations that the code calls, each of which returns a
-- result and the next state and may fail. A theorem that needs more of it takes a record of laws
-- (IsStandard, IsMap, IsStable, IsRedis, IsLasting, IsKeyed, IsTable, IsQueries, IsConfined, IsReliable), and the Tests modules have a concrete
-- instance of each. The loops of the services are a function from an update and the loop's
-- variables to the next variables or the end of the loop. The flag `is_running` is shared between
-- threads: a round takes as an input whether another thread has cleared it. The replies to the
-- SCAN of the suffix fetcher are an input too, a finite sequence, as Redis promises that a scan
-- ends. No function here runs on fuel, but for the printing of a number, whose fuel is the number
-- itself plus one, and that is enough as each digit makes it smaller.
--
-- Numbers are natural numbers. Where the code computes on u32 or u64 the wrap-around is written
-- out, or a conversion that panics is an explicit outcome. Only the panics are modelled that the
-- code writes as `expect` or `unwrap` on such a conversion.
--
-- Handlers of the server that wait for each other's commands in any order run one after the other
-- here, except for the counter of the watches, which main.rs creates for each worker and whose
-- atomic operations are steps of a relation. A
-- stream of a watch is a sequence of rounds, each in the state of the server at that time, which
-- other requests and the indexers may have changed in between.
--
-- Not modelled: the start-up of the services (environment, connections, TLS, CQL statements, CORS),
-- logging and sleeping, except for the waits of retry_with_delays and of the connecting task,
-- and the code in other languages.
pub mod Base
pub mod Contract
pub mod Server
pub mod Indexer
