-- ===== src/Lib.antt =====
-- KmResolv, a recursive DNS resolver in Go: the verification of its core.
--
-- A query comes in over a socket (handleQuery in internal/server/server.go), is checked against the
-- access list, the rate limit (internal/server/ratelimit.go) and the block list
-- (internal/filter/filter.go), and is answered from the local records (internal/records/records.go) or by
-- resolve (internal/server/resolver.go), and is logged (internal/server/querylog.go) and counted
-- (internal/server/statshistory.go). resolve asks the cache (internal/cache/cache.go) first, then the
-- servers of a configured zone, the forwarders, or the root servers and those that they refer to, over
-- pooled connections (internal/server/connpool.go), and with internal/dnssec/dnssec.go checks the
-- signatures on the way. Messages are read and written by internal/dns/message.go. The settings are
-- internal/config/config.go; internal/dashboard/dashboard.go changes them, the filter and the records
-- behind a login, through the operations of internal/server/server.go, and the commands of
-- cmd/kmresolv/cmd_cli.go ask it.
--
-- Files, and what they model:
--   Prelude         Boolean tests, lists, maps and texts that the other files share. A Go map is an
--                   association list, whose order stands for the order of an iteration; a string is
--                   a list of bytes. strings.ToLower is modelled on ASCII.
--   Dns             Header, Question, RR and Message with the flag methods; Dns/Name has parseName,
--                   packName and parseUncompressedName, Dns/Parse ParseMessage, Dns/Pack Message.Pack.
--   Cache           Cache and its methods: SetMinTTL, SetMaxSize, SetPrefetchFn, SetNegative,
--                   IsNegative, Get, Set (here `put`, as `set` is the write to a list), and the end of
--                   a prefetch. Cache/Hash has shardIdx, Cache/Sweep evictShard, evictLoop, Size,
--                   NegativeSize and Flush; Cache/Runs is a run of calls.
--   Filter          Filter and its methods: NewFilter, Blocked, Add, Remove, SetMode, Size, Reload,
--                   and parseList; Filter/Lasting is what stays of a domain over reloads.
--   Records         RecordStore of internal/records/records.go with NewRecordStore and Lookup;
--                   Records/Build has buildRR.
--   Dnssec          internal/dnssec/dnssec.go: the parsers of keys and signatures; Dnssec/Wire has
--                   KeyTag, WireName, canonRdata and buildSignedData, Dnssec/Verify VerifyDS and
--                   VerifyRRSIG, Dnssec/Zone ValidateZoneDNSKEY, Dnssec/KeyCache the cache of keys.
--   Config          internal/config/config.go: the settings, the defaults and validate; Config/Files has
--                   LoadConfig and Save, over parameters for the YAML decoder and the files.
--   Dashboard       internal/dashboard/dashboard.go: nonces, session tokens, the guards requireAuth
--                   and the login, and the handlers that change the filter, the records, the
--                   settings or the cache; Dashboard/Blocking follows a blocked domain from there
--                   through the filter to the replies of handleQuery, and
--                   Dashboard/Reads has the handlers that only read.
--   Updater         internal/updater/updater.go: Check, fetchLatest, isNewer and parseSemver.
--   Commands        cmd/kmresolv/cmd_cli.go and main.go: the commands that ask the dashboard.
--   Server          Server/RateLimit and Server/Acl are internal/server/ratelimit.go, Server/QueryLog
--                   is QueryLog, Server/History is statsHistory with sampleHistory, and Server/Ring
--                   is the reading of both rings. Server/ConnPool is
--                   internal/server/connpool.go; Server/Zones has lookupZone, isDescendantZone and
--                   zoneChain of internal/server/resolver.go, Server/Answers what takes its
--                   answers apart, Server/Query the exchange with one server over UDP, TCP, TLS and
--                   HTTPS, Server/Verdict what it makes of the bytes that it reads,
--                   Server/Forward the forwarders, Server/Iterate resolveFromRoot,
--                   Server/Secure and Server/Secure/Resolve resolveAtDNSSEC, and Server/Resolve
--                   resolve. Server/Handle is handleQuery of internal/server/server.go with its
--                   replies, Server/Handle/Shared the message that joined calls write into
--                   before each packs it, and Server/Admin the operations that the dashboard calls.
--                   Server/Boot is New of internal/server/server.go, with the closure that it gives
--                   to SetPrefetchFn, and a server as a whole: the packets, ticks and changes that
--                   happen to it, one after another, where a reload of the filter and a prefetch
--                   end in a step of their own; Server/Boot/Prefetched is what a
--                   prefetch leaves for resolve. Server/Minecraft is
--                   internal/server/minecraft.go, the bridge to a game server, and
--                   Server/Snapshot has Stats, FilterStatus and GetSettings.
--
-- Conventions. State is a record that an operation takes and returns; a lock is the atomicity of an
-- operation. A time is a number of nanoseconds, and an operation reads the clock once, as an
-- argument. A w-bit integer is a natural number with its wrap-around written out, and an int of
-- the configuration an integer; a product with a second wraps at 64 bits. The texts of log
-- messages are left out.
--
-- What is outside of the program, sockets, the clock and random numbers, is the record `Network` of
-- Server/Query over a state `World`, which each exchange takes and returns. Lookups of the addresses
-- of name servers that run in parallel are run one after another, and `Network` says whose answer
-- arrives first. A call that joins a call in flight is given the result of that call as a value; only
-- Server/Handle/Shared has the message that both then write into. Changes through the dashboard
-- happen one after another: nothing in the source keeps two of them apart. Where the order
-- of goroutines matters, in the bridge to the game server, each step that another goroutine can run
-- in front of is a step of the model, and a process is a number among those that run.
--
-- Fuel. The loop of parseName has 16385 * (length + 1) rounds for a buffer of that length: a pointer
-- has 14 bits and is followed once at most, and the offset grows between pointers. The loop of
-- cmdLog that turns the entries round has a round more than there are entries. The loop of Blocked
-- has a round more than the name has bytes, and so have those that read uncompressed names.
-- resolveAt and resolveAtDNSSEC recurse on the levels that are left, which is max_depth + 1 - depth,
-- or none for a negative max_depth; no level left is the depth error of the code itself. The digits
-- of a number n have n + 1 rounds.
--
-- Not modelled: the listeners with their goroutines and the number of packets in work at once, the
-- servers of HTTP, the pages and the routes, the logger, the plugin of the game server, cmdServe and
-- the benchmark, which are input and output. Parameters of the definitions that use them are package
-- flag, sort.Strings, the formats of times and floats, the operating system under the bridge, what
-- is fetched from a URL or a file, the YAML and JSON codecs, the hash functions, the HMAC, the
-- signature checks, the decoders of base64 and hex, Atoi, and the parsers of addresses of the
-- standard library. The texts of errors of internal/dnssec/dnssec.go are left empty.
pub mod Prelude
pub mod Dns
pub mod Cache
pub mod Filter
pub mod Records
pub mod Dnssec
pub mod Server
pub mod Config
pub mod Dashboard
pub mod Updater
pub mod Commands
