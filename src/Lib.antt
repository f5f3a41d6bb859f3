-- ===== src/Lib.antt =====
-- go-udap finds and configures Squeezebox Receivers over UDAP, a broadcast protocol on UDP port
-- 17784. This library models its protocol client (udap/), its simulator of such devices (mocksbr/,
-- with the flags of cmd/mocksbr/), and the commands of its command line (cli/).
--
-- Parts and files:
--   Prelude    Boolean tests on numbers, results, lists, bytes, Go maps as association lists, sorting.
--   Go         what the code uses of Go's standard library: strconv, encoding/hex, net.ParseIP and
--              IP.String, runes, fmt's `%-Ns` and `%d` of Sscanf, encoding/csv and encoding/json, the
--              last two with readers of what they write.
--   Udap       udap/. `Mac` is mac.go; `Packet` and `Tlv` are protocol.go, loopback.go and the two
--              wire checks of validation.go; `Parameters` is parameters.go with the value codec;
--              `GetData`, `GetIp`, `GetUuid` and `Discovery` are the reply parsers; `Transport` is the
--              interface of transport.go, `UdpTransport` its implementation over a socket that is a
--              parameter, and `MultiTransport` the fan-out of multi_transport.go; `Client` is
--              client.go, with its constructors in `Client/Open`; `Operations` is config.go with the
--              request operations of discovery.go, getip.go and getuuid.go, made of `Actions` and
--              `Replies`; `Validation` is the checks of validation.go on what a user enters, on a
--              device and on a client; `Interfaces` is interfaces.go, `LocalIps` is getLocalIPs of
--              protocol.go, and `Logger` is logger.go.
--   Mocksbr    mocksbr/. `Device` and `Network` hold the state, `Requests`, `Values` and `Responses`
--              the wire side, `Handlers` the dispatch, and `Transport` the in-process transport, which
--              implements the interface `Udap.Transport`; `Exchange` runs the client's operations over
--              it against a virtual device.
--   Cli        cli/. `Config`, `Source` and `Set` are the parameters that `set` is given, from files,
--              standard input and flags (config.go, source.go, set.go, set_interface_default.go);
--              `Output` and `Get` are what `read` and `get` write; `Mac` and `Find` are find.go;
--              `Errors` is deverr.go with the exit codes; `Commands` is the body of every command that
--              works on a device, from its arguments to the result that is rendered; `NewClient` is
--              the client that it makes; `Results` is every result with its text, its JSON value and
--              its table, which `Output/Render` writes; `Root` is the checks in front of the commands
--              and the exit code behind them (cli.go, format.go, main.go); `Params`, `Version` and
--              `Completion` are params.go, version.go and completion.go; `Stderr` is the terminal
--              that the logger and the progress bar share (stderr.go, progress.go).
--   Cmd        cmd/mocksbr/: the `--device` flags and the devices that they replace, the run from the
--              parsed flags to the exit code, and the loop that answers packets.
--   Examples   runs of the definitions on concrete inputs.
--
-- State. A Go string and a byte slice are both a list of natural numbers. A client is a record with
-- its transport's state, the registry, the sequence counter and a heap of devices, so that a
-- `*Device` that two callers share is one address. An operation is a function from a client to a
-- result and a client. The mutexes are not modelled: the operations are sequential. Three places
-- run goroutines side by side: the search for a device, whose interleavings are a schedule that is a
-- parameter, and the pumps of the fan-out transport and the progress bar beside the logger, whose
-- interleavings are relations. The terminal's mutex makes each of its methods one step.
-- A Go map is an association list, and `range` visits it in the order of the list.
-- `sort.Slice` is an insertion sort; it is a stable one, where Go leaves the order of equal keys open.
--
-- Time and fuel. A transport carries a clock and a bound on the packets it can still deliver before
-- the deadline (`backlog`). A receive loop runs on that bound as fuel, and each packet that arrives
-- lowers it, so the fuel is enough. Three bounds are conditions on the world, since the code loops
-- for ever without them: the caller's context has a deadline (`backlog`, and `Udap.UdpTransport.Ending`
-- for a socket; the pumps of the fan-out call `Recv` with a context that has none, and are modelled by
-- what their children receive), and a signal or the closing of the socket ends the simulator's loop
-- (`Cmd.Serve.Ending`). Parsers that walk over bytes take the number of bytes as fuel. Times of the
-- simulator are nanoseconds, those of completions milliseconds.
--
-- Not modelled: the system calls of sockets and interfaces (udap/socket*.go) and of Close, which are
-- parameters or left out; of cli/, the third-party command library that parses the command line, the
-- text of the progress bar, which is computed with floats, the test for a terminal, and writers that
-- fail; the documentation commands (cmd/docs, cmd/docserve), which only call libraries; the helper of
-- the tests that spawns processes (mocksbr/testhelper). Files and standard input, the state file of
-- the completions, the flag library of the simulator, and the interfaces that the system lists, are
-- parameters. `strings.ToLower` is that of ASCII texts, but where its result is compared with words
-- (`to_lower_word`): a MAC address with other letters is not lowered as Go does.
pub mod Prelude
pub mod Go
pub mod Udap
pub mod Mocksbr
pub mod Cli
pub mod Cmd
pub mod Examples
