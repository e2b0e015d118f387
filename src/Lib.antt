-- ===== src/Lib.antt =====
-- The ddmp package, a client for Dometic coolers that speak DDMP over TCP: one
-- base64 text per frame, each ended by a carriage return. The package reads such a stream, keeps the
-- last published value of every topic, and writes the few topics that may be written.
--
-- Parts, and how they interact. `Session` (src/ddmp/session.py) owns a `LineDecoder`
-- (src/ddmp/protocol.py), which turns the bytes of a socket into frames. A PUBLISH is looked up by its
-- address in the topic table, decoded by the topic's codec and remembered; a NAK and any other frame
-- become events. `set_frame` checks the allow-list, coerces and encodes the value, and returns the
-- SET frame with a `WriteExpectation`, which judges the later events: the cooler has no
-- acknowledgement and publishes the new value instead. `CoolerState` (src/ddmp/models.py) is built from
-- the remembered values. `SyncClient` (src/ddmp/sync_client.py) and `AsyncClient` (src/ddmp/aio.py) own
-- a `Session` and a connection: one calls back from a reader thread, the other queues the events and
-- settles the futures of pending writes. The command line (src/ddmp/__main__.py) drives a `SyncClient`,
-- and src/ddmp/discovery.py finds coolers by mDNS and by UDP probes.
--
-- Files, and the code that each models:
--   Base, Base/*          shared names, tests, lists, equality, integers, dictionaries (`dict`)
--   Result                src/ddmp/errors.py and the built-in exceptions, as values
--   Bytes, Base64         byte strings; `base64.b64encode`, and `b64decode` with `validate=True`
--   Text, Text/*          `str` methods that the code calls, hexadecimal text, UTF-8
--   Action, Address, Frame   the classes of these names in src/ddmp/protocol.py
--   LineDecoder           `LineDecoder`; `feed` is the method, `loop` its `while True`, `cut` the search
--                         for a terminator, `read_line` what becomes of one line
--   Words, Value, Codec   `struct` integers; the Python values that topics carry; the eleven codecs
--   Enums                 the `IntEnum` classes of src/ddmp/models.py
--   Topic, Topic/*        `TOPICS`, its two dictionaries, `topic`, `WRITABLE`, `NEVER_WRITE`,
--                         `assert_writable`
--   Expectation           the event classes, `WriteExpectation.matches`, `_close`
--   Session               `Session`: `feed`, `_publish`, `set_frame`, `_check_range`, `_coerce`, `state`
--   CoolerState           `CoolerState.from_values`, `Compartment`
--   AsyncClient           `AsyncClient`: each function is the code between two awaits; Steps is every order
--                         of them, of the connection and of the clock; Opened `connect` with its socket
--   SyncClient            `SyncClient`: each function is what no other thread can split; Threads is every
--                         interleaving; Keepalive `apply_keepalive`, and `connect` with it; Burst the
--                         subscriptions on the wire
--   Cli                   `_write`, `cmd_*` and `main` of src/ddmp/__main__.py; Cli/Print the lines that
--                         they print, Cli/Arguments the arguments that `main` declares
--   Mdns                  `_read_name`; Mdns/Message `_encode_name`, `build_query`, `parse_response`,
--                         `_parse_txt`; Mdns/Collector `_MdnsCollector`; Mdns/Browse `query_mdns`
--   Discovery             `Discovered`, `discover`, `find_cooler`; Discovery/Replies `DdmdReply`,
--                         `probe_ddmd`
--   Tests                 concrete inputs
-- The other files prove what their names say about the module above them.
--
-- State is passed explicitly: an operation takes the record and returns it with the result. Exceptions
-- are the constructor `err` of `Result`; their message texts are left out. Where the code decodes
-- dynamically typed values, `Value` has a constructor for each Python type that a topic can carry, and
-- the built-in functions raise where Python's do.
--
-- Fuel. `LineDecoder.loop` is given one more than the length of the buffer; each round takes a
-- terminator off the buffer, and the loop is proved equal to a scan by structural recursion, so the
-- fuel is never used up. `Mdns.read_labels` counts the 64 jumps that the code allows, and gets the
-- length of the message and one more as fuel for the labels before each jump; each label advances the
-- offset. `Mdns.Message.txt_items` gets the length of the record, of which every string takes a byte, and
-- more fuel changes nothing. All other loops are structural, or count down their own argument.
--
-- What the threads, the event loop, the connection and the clock may do is a step relation for each
-- client, and for the command line a record of what the world answers. The other parameters are
-- `argparse`, `str.lower` on all of Unicode, `inet_ntoa`, the JSON library with `str` and `int` of its
-- values, the constants and calls of the socket options, and for the printed lines `repr`, `str` of what
-- is no text, `json.dumps` and the clock.
--
-- Floating point is the interface `Value.Floats`, whose laws `Value.Milli.FloatLaws` state what
-- double precision does for 32-bit integers and their thousandths; integers counted in thousandths
-- are an instance of both. The parsing of numeric texts, and `str` of a value that is no text, are
-- fields of that interface. A list inside a list has no place in `Value`.
--
-- Not modelled: the sockets themselves, time (a time-out is a step, or the end of a list of turns), the
-- top-level `--version` and `--verbose`, the printed JSON of a state, the logging, the texts of
-- exceptions, a reader task of `AsyncClient` that is cancelled before it has run at all, the wrappers `async_discover` and `async_find_cooler`, which run `discover` and
-- `find_cooler` in a thread, the names that the package exports, and its tests.
pub mod Base
pub mod Result
pub mod Bytes
pub mod Base64
pub mod Text
pub mod Action
pub mod Address
pub mod Frame
pub mod LineDecoder
pub mod Enums
pub mod Value
pub mod Words
pub mod Codec
pub mod Topic
pub mod Expectation
pub mod Session
pub mod Tests
pub mod CoolerState
pub mod Mdns
pub mod AsyncClient
pub mod SyncClient
pub mod Cli
pub mod Discovery
