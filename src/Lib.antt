-- ===== src/Lib.antt =====
-- The connector of Traversal and its library. The connector runs in a customer's network and dials
-- out to Traversal's controllers; through that tunnel it carries HTTP requests, whose responses it
-- redacts by rules of the customer, and raw pipes to the customer's own services, each opened by a
-- signed capability. The modules stand for the packages of the repository, and their definitions
-- for its functions, under the same names in lower case with underscores.
--
-- How the parts interact. An open of a raw pipe comes with a capability, a compact JWS (Jws), that
-- names a connector and a canonical destination (Hostname); its signature is checked under a pinned
-- key or a key of a certificate chain, its claims against the destination, and its uses are counted
-- (Capability). The destination is then dialed under a policy (DialPolicy), and the pipes in flight
-- are counted so that a shutdown can wait for them (Drain). A refusal carries a reason (RawPipe), and a
-- connector says who it is in the preface of a tunnel (RawPipe/Preface). The pipe server puts these
-- together: it opens a pipe, serves it, and forwards the requests inside it to its destination
-- (PipeServer, Upstream/Forward); elsewhere two connections are spliced (Halfconn). What the
-- connector does is set by its environment (Env, Config), which also says where a request of a pipe
-- is dialed (PipeServer/Egress); a loop for each tunnel redials it until the connector stops (Tunnels).
-- The redaction rules come from the controller, signed (SignedConfig), and replace the ones in force
-- if they are newer (Remote); the response of an upstream whose host a rule covers (Redact) is read
-- whole, taken out of its coding, redacted, and sent or refused (Upstream).
--
-- Which file models which part:
--   Drain         connector-lib/drain/drain.go. A Tracker is a record, the channels it has made are
--                 numbers, and which are closed is a store in the tracker; each method returns the
--                 next tracker. Drain/Wait runs one Wait among the calls of other goroutines, as steps.
--   Hostname      connector-lib/internal/hostname/hostname.go, connector-lib/capability/host.go, and
--                 Authority of connector-lib/rawpipe/http.go.
--   RawPipe       connector-lib/rawpipe/rawpipe.go: the reasons, and a result with early returns;
--                 RawPipe/Preface for WritePreface, ParsePreface and ReadPreface over the bytes that
--                 the reader gives; RawPipe/Identity for TenantID and CheckIdentity.
--   Jws           connector-lib/jws/jws.go: Parse, Verify, decodeSegment and foldedUnique.
--   Capability    connector-lib/capability/capability.go (the claims, Opens for take and the counts,
--                 Verify for Verify and parse) and connector-lib/capability/chain.go (Chain, with
--                 signingKey). The counts of a Verifier are a function from a jti, and its heap is
--                 what container/heap makes of jtiHeap, whose methods are those of JtiHeap.
--   DialPolicy    connector-lib/dialpolicy/dialpolicy.go. `plan` is Dial up to its first connection:
--                 it says whether the dial goes to the proxy or to which addresses; `race` is the loop
--                 over the connections, in the order in which they come up.
--   SignedConfig  connector-lib/signedconfig/signedconfig.go: Verify. The cases of its last switch are
--                 a list of a condition and an error each.
--   Redact        internal/redact/redact.go: Redact itself for the rules, their hosts and Apply,
--                 Redact/Compile for compileRules and Update, Redact/Walk for ApplyJSON. The members of
--                 a JSON object are a list, in the order in which Go iterates over its map.
--                 Redact/File is internal/redact/file.go, over what each tick reads.
--   Remote        internal/redact/remote.go: ParseConfig, ValidateConfig, and refresh as a function of
--                 the loader, what verifies a signature, the time, and the response.
--   Upstream      internal/upstream/redact.go and internal/upstream/encoding.go: respond as a function
--                 of the response, with the outcome of reading its body, and of the wait for a slot.
--                 Upstream/Forward is Forward of internal/upstream/upstream.go over a transport, with
--                 capStream of streamcap.go: it gives what goes upstream and what comes back.
--   PipeServer    internal/pipeserver/server.go: open and serve as the segments of a handler between
--                 the locks that it takes; PipeServer/World runs any number of handlers and a drain
--                 in any interleaving. PipeServer/Forward is internal/pipeserver/forward.go,
--                 and PipeServer/Egress newPolicy of internal/pipeserver/config.go, with the
--                 dialer that it returns.
--   Tunnels       internal/pipeserver/tunnels.go: where the loop of each tunnel is, from one wait
--                 to the next, and the events that it and Start go on with, in any order.
--   Env           connector-lib/env/env.go and reader.go, over an environment that is a function.
--   Config        internal/config/config.go and remote.go: Config/Load for Load, Config/Checks for
--                 the checks that it makes.
--   Halfconn      connector-lib/halfconn/splice.go: copyEnd from one call on an end to the next, and
--                 Splice as steps on the answers of the ends and on the timers, in any order.
--   Common        texts as lists of bytes, lists, decimal numbers, integers, and the switch.
--   Sample and Tests in a component are a concrete library, runs of the code, and witnesses.
--
-- What is a parameter. Code that is not in the repository is a record of functions, with what the
-- code relies on as laws where a theorem needs them: net/netip, net and strings (Hostname.Std),
-- encoding/base64, the JSON decoders and ES256 (Jws.Codec), crypto/x509 (Capability.Chain.X509, of
-- which equal keys are the same key), container/heap (JtiHeap.Heaped.Container, whose Push and Pop
-- keep a heap and its elements, with no element before the root, for any methods that meet its
-- contract), regexp and idna (Redact.Library), the TOML decoder and
-- SHA-256 (Remote.Library, SignedConfig.Library), the proxies of golang.org/x/net
-- (PipeServer.Egress.Library), the redial backoff (Tunnels), gzip and MIME (Upstream.Library), strconv and
-- time.ParseDuration (Env.Parsers), net/url, crypto/tls, godotenv and files (Config.Library), and uuid
-- (of which the canonical form is 36 lower-case hex digits and hyphens).
--
-- Bounds and fuel. Numbers are natural numbers or integers without a bound: times are nanoseconds
-- since 1970 and no sum of the program comes near 2^63, but for time.Unix of an expiry that a configuration names
-- (SignedConfig.unix_seconds), which wraps around there; ports and versions are only compared, and a
-- port is parsed within 16 bits. Three loops run on fuel: read_from of the preface takes the bytes
-- that the bound on a preface leaves, which is where the code stops too; prune_from takes one round
-- for each entry of the heap, each round that does not stop removes one, so that the loop ends before
-- the fuel does; and the decimal digits of a port take five rounds, one for each digit of a number below 2^16.
--
-- What is not modelled: the programs under cmd, which wire the parts together; the tunnel client and the
-- router under internal; the dialing of a tunnel and the TLS and HTTP/2 inside a pipe, which are calls
-- of crypto/tls and net/http on a live connection, so that serving a pipe is one stage; the streams of
-- a pipe and the validation of messages in connector-lib; the signing of tokens and the parsing of PEM;
-- and logs, metrics, traces, generated code, charts and scripts. An error is its kind: its text is not
-- modelled. The rules of a Redactor are the same for both passes over one response, ApplyJSON and
-- Apply, each of which loads them anew in the code.
mod Common
pub mod Drain
pub mod Hostname
pub mod RawPipe
pub mod Jws
pub mod Capability
pub mod DialPolicy
pub mod SignedConfig
pub mod Redact
pub mod Remote
pub mod Upstream
pub mod PipeServer
pub mod Tunnels
pub mod Env
pub mod Config
pub mod Halfconn
