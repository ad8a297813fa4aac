-- ===== src/Lib.antt =====
-- The QuestDB client for C and C++ (c-questdb-client): the Rust library that builds rows of the
-- InfluxDB line protocol in a buffer and sends them, the C functions over it, and the C++ classes
-- over those.
--
-- The parts, and the files that model them:
-- - Base: operators, Boolean tests, lists and integers over the native numbers, with their
--   lemmas.
-- - Op, Buffer: `Op`, `OpCase`, `BufferState` and `Buffer` of questdb-rs/src/ingress/mod.rs. A
--   method is a function from a buffer to its result and the buffer it leaves behind. Buffer/Calls
--   lists the row calls and says what each appends (Buffer/Calls/Outcome compares), Buffer/Marker
--   is about markers, Buffer/Rows about lines and the row count, Buffer/Tables about the
--   transactional flag, Buffer/Utf8 about the encoding of the output, Buffer/Progress about the
--   calls that end a row.
-- - Error: questdb-rs/src/error.rs. Text: strings as code points and as bytes; Text/Utf8 decodes.
-- - Name: `TableName` and `ColumnName` of mod.rs, each with the check of a string.
-- - Escape: `write_escaped_impl` of mod.rs, which writes from the back of memory that it exposes;
--   Escape/InPlace compares it with a function by clauses, Escape/Scan reads the result back.
-- - Timestamp: questdb-rs/src/ingress/timestamp.rs, with Timestamp/SystemTime about the system's
--   clock. Number: `F64Serializer` of mod.rs.
-- - Builder: `ConfigSetting` of questdb-rs/src/ingress/conf.rs and `SenderBuilder` of mod.rs; its
--   setters are in Builder/Setters, `build_auth` in Builder/Auth, `from_conf` and `from_env` in
--   Builder/Conf, `build` in Builder/Build. Builder/Setters/Once and Builder/Setters/Valid are
--   about chains of setters, Builder/Conf/Asks and Builder/Conf/Valid about configuration strings,
--   Builder/Build/Total about panics.
-- - Http: the retries of questdb-rs/src/ingress/http.rs. Sender: `Sender::flush` and its
--   relatives of mod.rs.
-- - Connection: `Connection::authenticate` of mod.rs. Connection/Keys is about the public key,
--   Connection/Authenticate and Connection/Handshake about what is sent and signed.
-- - MockServer: `recv` of the server of the C++ tests in cpp_test/mock_server.cpp;
--   MockServer/Lines compares its messages with the rows of a buffer.
-- - Capi/Header: the declarations of include/questdb/ingress/line_sender.h, in records of
--   commands. Capi/Memory: the objects behind the pointers. Capi/Ffi: questdb-rs-ffi/src/lib.rs, as
--   an implementation of the header; Capi/Ffi/Views is about names and strings. Capi/Codes and
--   Capi/Enums: the constants of lib.rs, of the header and of line_sender.hpp, and their numbers. Capi/Ffi/Opts: the functions on options and for
--   building; Capi/Ffi/Opts/Chain is about programs that set several.
-- - Cpp: the classes of include/questdb/ingress/line_sender.hpp, written against the records of
--   Capi/Header. Cpp/Opts/Chosen is about the options that a protocol chooses, Cpp/LineSender/Temporary,
--   Agent and Constructed about the constructors of a sender. Cpp/Timestamps: the two timestamp
--   classes; Cpp/Overloads: the literals and the overloads of `column`.
-- - Examples: `concat_` of examples/concat.c and the C programs in examples/; Examples/C/Row and
--   Examples/C/Sent follow the row that they send, Examples/C/Left what is left allocated behind
--   it, Examples/C/Answer, Exit and Main whole runs. Examples/Cpp: the C++ programs, with the same
--   parts.
-- - Tests: the theorems at concrete inputs.
--
-- How they interact: a C++ member function makes the C buffer on first use and calls a C function
-- (`wrapped_call`); a C function finds the object behind its pointer, calls the Rust method and turns
-- an error into an object that the caller frees; the C++ layer turns that object into an exception.
-- A flush checks the state of the buffer and its size, and hands the bytes to the network.
--
-- Parameters: what the crates itoa, ryu and hex write (`Formatters`, with the bytes that their
-- documentation allows), the socket and the HTTP request (`Network`), and the server's answers, the
-- random numbers and the delays of the retry loop (`World`), the crates base64ct and ring with what
-- arrives over a connection (`Crates`), and what the process finds outside: files, the variable
-- QDB_CLIENT_CONF, the parser of configuration strings, the connection, the TLS configuration, the
-- memory for `calloc` and the clock (`Environment`).
--
-- Bounds and fuel: `usize` is a number below 2 ^ 64 and the row count wraps around; an `i64` is an
-- integer whose conversions check its range. The retry loop takes fuel; its shortest sleep is five
-- milliseconds, so that a round for each five milliseconds of the timeout is enough. Everything else
-- is structural recursion.
--
-- Not modelled: the parser of configuration strings (a crate), sockets, host resolution and TLS,
-- capacities and allocation failures of the library, the texts of messages, the conversions from
-- chrono, which the C library does not enable, and the tests of the repository with the sockets of
-- their server.
pub mod Base
pub mod Op
pub mod Error
pub mod Text
pub mod Name
pub mod Escape
pub mod Examples
pub mod Timestamp
pub mod Number
pub mod Buffer
pub mod Builder
pub mod Http
pub mod Sender
pub mod Connection
pub mod MockServer
pub mod Capi
pub mod Cpp
pub mod Tests
