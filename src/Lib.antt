-- ===== src/Lib.antt =====
-- Verification of parts of go-utils, a collection of Go packages.
--
-- The parts, and how they interact:
-- * rpcsplitter/ is a proxy that sends each JSON-RPC call to several Ethereum nodes and makes one answer
--   of theirs. `server.call` collects responses (Rpcsplitter/Server) and asks a resolver for an answer
--   (Rpcsplitter/Resolver: `defaultResolver`, `gasValueResolver`, `blockNumberResolver`), which compares
--   responses (Rpcsplitter/Compare) and merges errors (Rpcsplitter/Errors). The handlers of the procedures
--   (Rpcsplitter/Server/Handlers) replace block tags by `taggedBlockToNumber`, itself a call, before their
--   own. Rpcsplitter/Types has the texts of numbers, bytes and block numbers, from
--   rpcsplitter/types/util.go, number.go and blocknumber.go there, and in Rpcsplitter/Types/Fixed
--   hashes, addresses, nonces and bloom filters. Rpcsplitter/Errors/Text is the text of an error list.
-- * bn/ has decimal numbers over big integers: Bn/Rounding is `bigIntDivRound` and `bigIntSetPrec`, on which
--   Bn/FixedPoint (bn/decfixedpoint.go) and Bn/FloatPoint (bn/decfloatpoint.go) stand; Bn/Encoding is the
--   binary encoding, and Bn/IntNumber has the divisions of bn/int.go, of which the resolvers use one.
-- * interpolate/interpolate.go parses texts with variables: Interpolate, with an independent printer in
--   Interpolate/Print.
-- * sliceutil/sliceutil.go is Sliceutil, function by function.
-- * Errutil is `Append` of errutil/errutil.go, which the supervisor uses, and Errutil/Text its `Error`.
-- * Retry is `Try` and `TryForever` of retry/retry.go, the latter with a bound on its rounds, and Maputil
--   is maputil/maputil.go, with maps as lists of entries; Scoring is the map of scores of
--   scoring/scoring.go, over Maputil.
-- * Supervisor is `serviceMonitor` of supervisor/supervisor.go, over the events that its select receives, and
--   Supervisor/Launch its `Watch` and `Start`. Supervisor/Reloader is supervisor/reloader.go: the events of
--   its two goroutines are one list, and it collects errors by `Append`.
-- * Timeutil is timeutil/scheduler.go and timeutil/ticker.go. A ScheduledTicker (Timeutil/Schedule) is read
--   and written by Timeutil/Spec, `parse` and `String`, and finds its next time by Timeutil/Next; the loop
--   of a Scheduler over any such `Next` is Timeutil/Scheduler; Timeutil/Ticker has the other two tickers.
-- * Metrics is the logger of log/metrics/log.go: Metrics/Path is `byPath`, Metrics/Window the points of a
--   metric by minutes (`metricAggregated`), and Metrics/Collect is `collect`, which uses both and the names
--   that Interpolate parses.
-- * Hcl/Field and Hcl/Meta are `getStructFieldMeta` and `getStructMeta` of hcl/decode.go, which read the tags
--   of a struct; Hcl/Decode is `decodeSingleBlock` and what it calls, over the values of Hcl/Value and the
--   errors of Hcl/Result. Hcl/Variables is the tree of hcl/ext/variables/variables.go.
-- * Hcl/Encode is hcl/encode.go, from structs to the blocks of hcl/writer.go, by the tags of Hcl/Meta.
-- * Hcl/Mapper is hcl/mapper.go, which maps the values of attributes into Go and back, over any cty library.
-- * Hcl/Include is `Include` of hcl/ext/include/include.go, with hcl/parse.go: files that include files,
--   over a file system. Fsutil is the chain of file systems of fsutil/fsutil.go, which
--   collects errors by `Append`.
-- * Chanutil is chanutil/chainutil.go: FanIn and FanOut over the events of their callers, their goroutines
--   and their channels, in any order.
--
-- Names are those of the source in snake_case: `resolve_gas_value` is `gasValueResolver.resolve`,
-- `call_loop` the loop of `server.call`, `monitor_step` one round of `serviceMonitor`. An operation that a
-- type of fixed-point and of floating decimals shares has one name in both modules (`FixedPoint.add`,
-- `FloatPoint.add`). A Go panic is `none`, `panicked` or a constructor of the result.
--
-- What timeutil/scheduler.go uses of time.Time is the record Timeutil/Clock: what a time shows, Date and
-- Add, with their documented behaviour in a location whose clocks are never changed. The rounds of `Next`
-- are bounded by the seconds up to some time of the schedule, since every round comes at least a second
-- nearer to it and does not miss it.
--
-- Of the HCL library the decoder uses bodies, expressions and values, which are parameters (`Types` and
-- `Calls` of Hcl/Value); what is behind a pointer is decoded by recursion on the Go type, a tree.
--
-- Include runs on the levels of files that its maxDepth still allows, one more than maxDepth: that is the
-- code's own bound.
--
-- A big.Int is an ℤ of Prelude/Int, without bounds; a precision is a number, with its bound of 255 as a
-- hypothesis where a theorem needs it. Texts are lists of bytes (Prelude/Text). Concurrency is a list of
-- events in the order in which the code receives them: the responses of nodes and timeouts, and what the
-- channels of services send. A loop that is not structural runs on fuel by Prelude/Rounds, where the fuel
-- is a measure that every round makes smaller: `run_lem` there shows that a loop with such a measure is its
-- first round and the rest, so that the fuel does not run out. The loops of the parser measure the text
-- that is still unread. The decimal and hexadecimal digits of a number run on the number itself as fuel,
-- which is at least the count of its digits.
--
-- Not modelled: the HTTP server and the transport, loggers but that of metrics, the environment,
-- the writing of HCL tokens, mocks, floats (bn/float.go and the conversions by big.Float), and
-- of timeutil/ the ManualTicker, the texts of intervals and locations with daylight saving. Of the
-- proxy, the total timeout, the logger, and the comparison of floats are left out.
pub mod Prelude
pub mod Sliceutil
pub mod Interpolate
pub mod Bn
pub mod Rpcsplitter
pub mod Errutil
pub mod Fsutil
pub mod Supervisor
pub mod Retry
pub mod Maputil
pub mod Scoring
pub mod Timeutil
pub mod Chanutil
pub mod Metrics
pub mod Hcl
