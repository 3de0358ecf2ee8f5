-- ===== src/Lib.antt =====
-- WarpStream: a tunnel over WebSocket or HTTP/2. A client (pkg/client) asks a server (pkg/server) for
-- a tunnel by a JWT whose claims name the protocol, the host and the port. The server checks the token
-- and its rules, then dials the target (forward tunnels) or listens and hands each incoming connection
-- to a client connection that waits in a queue (reverse tunnels). pkg/wst is the WebSocket
-- implementation of the default mode, pkg/tunnel what both ends pipe and write.
--
-- The files and what they are about:
--   Base: Boolean tests, lists, bytes and words, bitwise operations, strings and the parts of Go's
--     strings, strconv and net packages that the code uses, all on the native numbers; results with
--     an error, and steps on a state that keep what was done before the error.
--     Base64 is encoding/base64, Trim the white space that TrimSpace takes away.
--   Protocol: pkg/protocol/types.go.
--   Wst/Upgrade: pkg/wst/upgrade.go, the handshake on parsed header fields.
--   Wst: pkg/wst/connection.go. Writer has WriteMessage and WriteControl on a buffered writer that
--     can fail, Reader has ReadMessage on the bytes still to be read. Frames and Decode describe the
--     wire format, Rounds counts the rounds of the read loop, the other files are about sender and
--     receiver together.
--   Server/Restrictions: pkg/server/restrictions.go, the rules and Validate.
--   Server/Startup: pkg/server/server.go, the rules that NewServer makes of the configuration.
--   Server/Gateway: pkg/server/server.go, parseJWTClaims and ServeHTTP.
--   Server/Dispatch: pkg/server/server.go, the route and the three connection handlers, as the list
--     of the calls that they make. The two goroutines of the pipe that they start (pkg/tunnel/pipe.go)
--     take turns by a schedule. Server/Bind: the address of getOrCreateListener.
--   Server/Queue: pkg/server/manager.go, the queue of waiting connections. Each function is a
--     critical section; System is the step relation of all who use a queue at once.
--   Server/Registry: pkg/server/manager.go, the map of listeners and their activity counters; System
--     is the step relation of the manager.
--   Server/ReverseUdp: pkg/server/reverse_udp.go, the sessions of a reverse UDP tunnel; System has the
--     listener with the sessions' readers and Close.
--   Proxy/HttpProxy: handleHttpProxy and authenticateHTTPProxy (pkg/client/client.go) and
--     handleHttpProxyHandshake (pkg/server/manager.go), behind the parsing of the request.
--     Reading has the buffered reader that both put on the connection.
--   Proxy/Socks5: handleSocks5 (pkg/client/client.go) and handleSocks5Handshake (pkg/server/manager.go).
--   Proxy/TargetFrame: encodeTargetFrame (pkg/server/manager.go) and readTargetFrame
--     (pkg/client/client.go).
--   Tunnel/Pipe: Pipe of pkg/tunnel/pipe.go, its two goroutines, and the ping handler that both ends
--     set. An end's goroutine gets what its local connection returns as a list of turns.
--   Tunnel/ProxyHeader: pkg/tunnel/proxyproto.go. Tunnel/IdleTimer: pkg/tunnel/idletimer.go, with the
--     timer and all who use a connection as a step relation.
--   Socket/Cmsg: internal/socket/cmsg.go.
--   Client/Arguments and Client/Query: pkg/client/config.go.
--   Client/Headers, Client/Connect: connectToTransport of pkg/client/client.go, the URL, the token and
--     the header fields that the three transports send; the tests with a server are in Client/Sessions.
--   Client/Tunnels: StartTunnel and the goroutine of an accepted connection, as the list of the calls
--     that it makes. Written has the tunnel arguments as text. Client/Reverse: the rounds of
--     StartReverseTunnel.
--   Client/Udp: the sessions of runUdpTunnel and runTProxyUdpTunnel with their timers, as a step relation.
--   Client/Pool: pkg/client/pool.go, with all who use the pool as a step relation.
--   Command: cmd/warpstream/main.go, the commands on the answers of the cli package's context: which
--     configuration they start with, and which tunnels startClient starts.
--   Caddy: pkg/caddy/caddy.go, on the module's block as lines of tokens.
--   The files Tests hold small concrete runs.
--
-- Conventions. A string is the list of its bytes, a pointer an Option. A w-bit number is a native one
-- with its wrap-around written out; int64 and int32 values are their bit patterns. The read loop of
-- ReadMessage is on fuel: every round takes two bytes at least, and it is given one round more than
-- there are bytes. ParseOrigDstAddr takes 16 bytes at least in every round and has the same fuel. A
-- round of Pipe's download reads a message, which takes a byte at least or ends the loop, and has the
-- same fuel too.
--
-- Parameters. net.ParseIP, time.ParseDuration, caddy.ParseDuration, compiled regular expressions,
-- the reading of a policy file, the JWT library and the hash of the WebSocket handshake are
-- arguments of the definitions that use them, as are the answers of the cli package and the file
-- that loadConfigFile reads. What url.Parse and http.ReadRequest return, and the lines of a header
-- file, are given as records and texts; the bytes that ReadRequest takes are found by a parser of
-- the bytes read so far, of which the theorem on the reader assumes that it waits for the end of
-- the request and leaves what is behind it. Of the JWT library the theorems on tokens assume that a
-- token is valid only if the key function answered with a key that signed it, or, where a client
-- and a server meet, that it reads and verifies what it signed.
--
-- Not modelled: sockets, TLS, certificate files, signals and the reading of the command line, which
-- are input and output; JSON and YAML; the dialling of connections; the variants of
-- Pipe for the other WebSocket library and for HTTP/2. No clock runs in the step relations: a timer
-- that runs may fire at any time.
pub mod Base
pub mod Wst
pub mod Caddy
pub mod Client
pub mod Command
pub mod Protocol
pub mod Proxy
pub mod Server
pub mod Socket
pub mod Tunnel
