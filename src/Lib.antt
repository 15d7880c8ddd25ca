-- ===== src/Lib.antt =====
-- Verification of rpc2: RPC over TCP with a choice of codecs (JSON, gob, each with or without
-- AES-GCM), and a generic proxy that forwards calls by service name.
--
-- The program and the files that model it
--
-- v3/client.go keeps one connection to one server. It speaks JSON, falls back to the legacy gob
-- codec when the JSON transport fails, and stays there. Client/Defs.antt has its state (the
-- options, the cached connection with its transport, the fallback flag) and getClient, invalidate,
-- Call and Close. What a call meets outside (dial, codec, remote call, context) is an Environment,
-- and the effects on connections are a trace. Client/Paths has the ways through Call that the
-- other proofs there share. Client/Callers.antt cuts Call at its mutex: each section under the
-- mutex and each remote call is a step, a caller is where its Call stands, and a schedule says
-- whose step is next. v2/client.go and v2/client_option.go are Client/V2.antt, and Call of
-- client.go (v1) is Client/V1.antt.
--
-- v3/server.go and v3/server_option.go accept connections and serve each with the codec that its
-- first bytes ask for: Server.antt. v3/codec/negotiate.go and the factories of
-- v2/codec/codec_factory.go choose the codec: Codec/Negotiate.antt. The codecs themselves are
-- v3/codec/json_server_codec.go, json_client_codec.go and json_crypto_codec.go: Codec/Stream.antt
-- has the byte budget of a message, Codec/Crypto.antt the cipher, Codec/Output.antt the writing
-- side and Close, Codec/Body.antt the reading of an encrypted body, Codec/Json.antt the reading of
-- headers and bodies through the JSON decoder. Codec/Json/Requests and Codec/Json/Sealed put the
-- two ends of a connection together, for the plain and for the crypto codecs; Codec/Json/Values and
-- Codec/Body/Chunks follow one value and one encrypted body through the chunks of the connection.
--
-- Codec/Legacy.antt has the gob and crypto codecs of v2/codec (server_gob_codec.go,
-- client_gob_codec.go, server_crypto_codec.go, client_crypto_codec.go, util.go), which the v3
-- codecs fall back on, over one list of all bytes to come. Codec/Buffered.antt is the buffered
-- reader of buffer.go, over which Codec/Legacy/Streams.antt has the reading side of the crypto
-- codecs again, chunk by chunk. Codec/Legacy/Channel.antt is what a pair of codecs is to its users
-- in one direction (Open, Frames and Responses make the channels), and Codec/Legacy/Exchange.antt
-- has rounds of calls over a channel for requests and one for responses. v1's codecs in codec have
-- the methods of v2's, and Codec/Legacy/Versions.antt has connections between the versions. server.go (v1) and v2/server.go with its options are Server/Earlier.antt.
-- Requests.antt has the types that callers send (request.go, response.go and errors.go).
--
-- v3/proxy is the proxy. Service.Call (service.go, metrics.go) in Proxy/Service.antt asks in turn
-- SplitMethod (Proxy/Method.antt), the Allowlist (allowlist.go, Proxy/Allowlist.antt), the
-- StaticRouter (router.go, Proxy/Router.antt) and the RPCInvoker (invoke.go, Proxy/Invoke.antt),
-- which opens a v3 client for the target (defaultClientFactory, Proxy/Factory.antt), sends the
-- whitelisted identity headers (Proxy/Headers.antt) and maps what fails to a structured error
-- (errors.go, Proxy/CallErrors.antt). Proxy/Invoke/Slots.antt has Invoke in steps over the channel
-- of slots, for invocations side by side, and Proxy/Service/Composed.antt the effects of Call
-- with the repository's own allowlist, router and invoker. ConfigFromEnv (config.go) in
-- Proxy/Config.antt reads targets and allowlist from the environment, by the address syntax of Proxy/Address.antt.
-- Proxy/Types.antt has the data of types.go.
--
-- Operations keep their names, in this language's spelling: NewAllowlist is new_allowlist, and a
-- method is a function of its receiver's state. A Go pair of value and error is a Result, or a
-- pair of both where the program uses both. Errors.antt has the error values, with the searches of
-- errors.Is and errors.As. Base.antt passes on the library and the helpers of its children.
-- Tests.antt has the tests and the examples.
--
-- Numbers, bounds and fuel
--
-- Lengths and counters are natural numbers; a Go int that can be negative is an integer. Nothing
-- modelled here adds integers near the bounds of their width, so that no operation wraps; Atoi
-- keeps its 64-bit range. A text is the list of its code points. A map is an association list, and
-- a loop over a map runs over its list; theorems quantify over every order. The reader of an
-- encrypted body runs on fuel of one more than the message limit: every Read without an error
-- takes a byte of the limit. So does a Decode of the JSON decoder, on fuel for the limit and the
-- bytes in front of the connection. The digits of a number run on fuel of one more than the
-- number.
--
-- What is not modelled
--
-- go.slink.ws/rpc and go.slink.ws/logging are not in the repository. Of the first, a remote call
-- is its outcome, Header's Set and Values are parameters, and so is what a server's handler does;
-- logging is left out. The standard library's ciphers, gob and JSON encoders are parameters with
-- the laws that their documentation gives; the case mapping of package strings is a parameter;
-- net.SplitHostPort, strconv, encoding/hex and the cuts of package strings are written out. The
-- decoders of encoding/json and encoding/gob are parameters too: what they do next in each of
-- their states, or, for the gob streams of v2, what they do over any source of bytes. What
-- go.slink.ws/rpc does between the codecs of a server is a function from requests to responses,
-- which are written in the order of the requests. A server's goroutines are listed one after the
-- other. BytesReadWriteCloser and chars of v2/codec, which only tests call, are not modelled, nor
-- are Write and Close of BufferedReadWriteCloser, which pass on to the connection, and the listening
-- of the v1 and v2 servers.
pub mod Base
pub mod Errors
pub mod Requests
pub mod Proxy
pub mod Client
pub mod Codec
pub mod Server
pub mod Tests
