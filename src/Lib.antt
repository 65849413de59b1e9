-- ===== src/Lib.antt =====
-- A model of qtun, a VPN over QUIC with a SOCKS5 server beside it, and the theorems about it.
--
-- The program. A client and a server each own a tunnel interface. A packet that is read from the
-- interface is wrapped in a protobuf envelope, put in a frame (a byte that says whether it is sealed,
-- a length of two bytes, the payload or its AES-GCM sealing, and the nonce), and sent over one of
-- several QUIC streams; the other end reads frames in a loop, decodes the envelope and writes the
-- packet to its interface. A client announces itself by pings, from which the server learns the
-- routes: an IP leads to the announced addresses, and the registry leads from an address to a
-- connection and back.
--
-- The files and the code.
--   Base        the names that all files share: numbers, lists, bytes, Go's results (a value, an
--               error, a panic) and actions on a state; Base/Map is a Go map as an association list.
--   Stream      a reader and writer: the input to come, the error it ends in, the output, and the
--               faults of the next writes. Stream/Laws: what reads and writes do.
--   Iface       iface/packet_ip.go: PacketIP as its bytes and what lies behind them up to the capacity;
--               Iface/Device: iface/iface.go with the commands it runs, and Iface/Device/Commands.
--   Protocol    protocol/protocol.pb.go: the messages and their getters; Marshal and Unmarshal are the
--               parameter Codec, with IsCodec for what decoding gives back. Protocol/Oneof: the functions
--               for the oneof of an envelope, with the library's part as the parameter Proto.
--   Transport   transport/. Frame: write and read of client_conn.go and server_conn.go, with
--               Frame/Head, Frame/Cut, Frame/RoundTrip and Frame/Security for what they prove; Aead: the
--               cipher, a parameter, with IsSound for its contract; Crypto: crypto.go; ReadLoop: the
--               loop of readProcess; ServerConn: the object of server_conn.go, and ServerConn/Life with
--               its files: readProcess, writeProcess and the senders as steps; Server: the registry of
--               server.go, with Server/Registry for its invariant and Server/History for sequences of
--               calls; Server/Listen: StartListen and listen, with Server/Listen/Accepted; Client:
--               client.go, and GetConnPort of client_conn.go, with Client/Balance; Client/Pings: ping and
--               the goroutine that repeats it, with Client/Pings/Turns, Client/Pings/Restarts and
--               Client/Pings/Rounds;
--               Client/Start: Start, Stop and ConnectWait, with Client/Start/Slots;
--               ClientConn/Life with its files: run, readProcess, writeProcess, Write and Close of
--               client_conn.go as steps, with ClientConn/Life/Payloads, Reconnects and Races.
--   App         qtun/app.go: ServerOnData, ClientOnData, the server's loop over one packet (forward) and
--               the cleaning task (clean_route). App/Routes, App/Forward, App/Clean, App/Receive and
--               App/Tunnel hold the proofs. App/Fetch: one worker's loop (FetchAndProcessTunPkt), with
--               App/Fetch/Worker; App/Whole: from the client's interface to the server's;
--               App/Downstream: from the server's interface to a client's;
--               App/Announce: from the client's ping to the server's route and back. App/Unordered:
--               the order of Go's maps. App/Shared: the workers, the cleaning task, pings and the ends of
--               connections as steps on the routes and the registry, with its files Streams and Consistent
--               (the registry), Undone (a ping in between), Routing, Entries, Settles
--               and Progress (a bound for the steps), and Connections (how the steps of one connection
--               fit in).
--               App/Startup: SetProxy, StartFetchTunInterface, and the end of Run in client mode.
--   Socks5      socks5/. Wire: constants, types, net.IP; Address: readAddrSpec, NewRequest and
--               sendReply; Auth: auth.go; Rules: ruleset.go and credentials.go; Serve: ServeConn of
--               socks5.go and handleRequest of request.go with its handlers; Listen: init.go,
--               resolver.go, and New, ListenAndServe and Serve of socks5.go, with Listen/Returns,
--               Listen/Requests and Listen/Alive.
--   Timer       utils/timer/timer.go, with Timer/Tasks.
--   Command     main.go, config/config.go and Run of qtun/app.go, with Command/Modes.
--   */*Tests    runs on small inputs, and the theorems at such inputs.
--
-- How state is modelled. A pointer to a ServerConn is a number, its object stands in the heap of the
-- Server record. A Go map is an association list in which inserting replaces; a range over a map is
-- the list's order. What is random is a parameter that the theorems quantify over: the numbers of
-- rand.Intn, the nonces, and which of the two copies of a SOCKS5 session ends first. What a goroutine
-- does is one sequence of calls, and the locked operations of the registry, from whichever goroutine,
-- form one sequence too (Server/History). The goroutines of one connection that share its channels
-- and flags are a step relation, in which any of them may take the next step (ServerConn/Life and
-- ClientConn/Life). A read of such a connection fails whenever the session breaks; a QUIC stream
-- refuses a write after its Close; OpenStreamSync returns the nil stream with its error. A write that
-- fails is taken to deliver nothing; a copy of a SOCKS5 session writes its input in one piece, and when
-- the copy that ends first reports an error, the other one is cut off anywhere (cut_at), without
-- its CloseWrite. What a worker reads from the
-- interface is a list of packets, after which a read fails; the listener's sessions are lists, too.
--
-- What waits. In the object of a server connection the two places of chanWrite and the senders behind
-- them are one queue, from which writeProcess takes; whoever must know whether it waits looks at the
-- queue's length: a worker that finds two messages there has put its own at the end and goes no further
-- (has_room in App/Fetch). In App/Shared a send is a step only while there is room (HasRoom). forward alone is one packet's way up to the send. The
-- channel of a client's connection has no place: a send comes back if the connection receives, a field
-- of ClientConn that stays as it is, and otherwise waits for ever, which is the error of write_at and
-- ends the caller's run, also that of the pings. Whether a Close of the client's Stop comes back is a
-- parameter of stop. The writeProcesses of a client's connection share one buffer; each of the calls of
-- the buffer is taken to be atomic, and nothing larger is.
--
-- Fuel. read_process runs read_loop with one round more than the input has bytes, which is enough
-- since a frame takes three bytes. The loop over a packet gets one round more than its route has
-- addresses, which is enough since a round that does not end it takes an address off. The
-- fuel's end is an outcome of its own, out_of_fuel. The goroutine of the pings gets one call of ping more
-- than there are turns, which is enough since a call that ends has taken a turn.
--
-- The application's steps. A step of App/Shared is one access to the routes or to the registry: a worker
-- looks up a route and picks an address under the mutex, asks the registry, looks at the connection's
-- flag, and then sends, or takes the address off the route and off the registry in two further steps.
-- The handler of a ping holds the mutex from the route to the registration. The cleaning task takes the
-- same steps without the mutex, one address after the other, as if each came from a fresh range over the
-- map; that Go's runtime may end a program which writes a map during such a range is not modelled. A
-- connection's object changes as the step relation of that connection allows for.
--
-- What is not modelled. The TLS set-up, the file server, logging, the pool of buffers and the hash
-- helpers: they are input and output, or calls of libraries. The rest of the generated protobuf code
-- (descriptors, and methods that only call the library), and the text of an address in a log or an error
-- (String of AddrSpec).
pub mod Base
pub mod Stream
pub mod Iface
pub mod Protocol
pub mod Transport
pub mod App
pub mod Socks5
pub mod Timer
pub mod Command
