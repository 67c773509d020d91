-- ===== src/Lib.antt =====
-- A login server for an online game: clients connect over TCP or WebSocket, send a login or a status
-- request, and the server asks a query manager for the account and answers with a character list.
-- This library models its C++ code (src/) and proves what makes the parts correct.
--
-- Parts, and the files that model them:
--   src/common/byte_order.h        ByteOrder: words as bytes in memory, both byte orders.
--   src/crypto/xtea.cpp            Xtea: the cipher of the responses, word by word and block by block.
--   src/common/utf8.cpp            Utf8: sequences (OneSequence) and whole texts (Latin1, Text).
--   src/common/buffer_writer.cpp   Writer: what the writes append (Laws, Texts) and patch (Patches).
--   src/common/buffer_reader.cpp   Reader: what the reads give (Laws, Texts), and hostile lengths (Hostile).
--   both of the last               Wire: a message as a sequence of writes and of reads.
--   src/common/string_utils.cpp    Strings: comparison, copying, hashing and escaping of C strings.
--   src/status/xml_builder.cpp     Xml: the status page's builder; its numbers are in Numbers, and
--                                  what it takes for a format to be appended in Formats.
--   src/network/server.cpp         Connection: the input of a connection; the socket is a parameter (Input).
--                                  Its other operations are in Life, and its output is in Output.
--   src/network/server.cpp         Server: the listener, and process_connections over the table, with the
--                                  calls of the system as a record. Request, Cycle, Accept and Table go
--                                  from a request to a round over all slots; Start and Serving are on
--                                  the server from its start through the main loop of src/main.cpp;
--                                  Login is on what process_login_request leaves of a connection, and
--                                  Mended on rounds in which that handler is undefined.
--   src/network/websocket_acceptor.cpp
--                                  Acceptor: the callbacks, the deferred functions and the shared state.
--                                  Its threads are the steps of Step; Sound, Crew and Callbacks carry
--                                  what holds at every time to Reachable; Shutdown is on a worker that
--                                  the end of the loop overtakes.
--   src/status/status_handler.cpp  Status: the status page and its cache (Cache).
--   src/network/server.cpp         StatusLimit: the rate limit of status requests; the search of the
--                                  table is in Search.
--   src/query/query_client.cpp     Query: the calls on a socket (Exact) and a query with its attempts and
--                                  reconnections (Client; Total and Connect on where it ends).
--   src/query/login_query.cpp      Query/Requests: the queries for accounts and worlds, and what is made
--   src/query/world_query.cpp      of their answers (Answers, Worlds).
--   src/crypto/rsa.cpp             Rsa: decryption, with OpenSSL as a parameter.
--   src/login/login_handler.cpp    Login: the responses; what the client decrypts of them is in Response
--                                  and Messages. Login/Request: a request, from its bytes (Front) and
--                                  its plaintext (Plain; Hostile on a text length) to the queries
--                                  and the answer.
--   src/config/config.cpp          Config: the configuration from the environment (Texts, Loaded).
-- Base holds the names that all of them share, bit laws, arrays of bytes and signed integers; Tests
-- holds each theorem at a concrete input, and runs of the code.
--
-- How code corresponds to definitions: a function keeps its name. A pointer with a length is the
-- list of the bytes that it spans; a destination is an array with an offset; a C string is the list
-- of the bytes in front of its terminator. `Option` marks undefined behaviour: `none` is an access
-- outside an array, an overflow of `int`, or spent fuel, and the theorems show where there is none.
-- An unsigned word is a number below its modulus with the wrap-around written out; a value of `int`
-- that can be negative is an integer.
--
-- Bounds and fuel: `utf8_to_latin1` takes one round more than its input has bytes, and each round
-- reads one or more; a decimal number of an `int64` has at most 19 of the 64 digits that its array
-- holds; reading or writing takes as many rounds as it has bytes, since a call of the system moves
-- one or more; a query has two attempts; a padding of fewer than 8 bytes has 8 rounds; a format
-- takes as many rounds as it has bytes. The input of a connection has 2050 bytes at most still to
-- come, one fewer than its rounds; its output has 2048, one fewer than its rounds; accepting takes
-- more rounds than clients can wait, since each round takes one of them. Positions of a writer are
-- taken to stay below 2^31, since what the server writes is bounded by its own strings.
--
-- The parts interact so: process_connections hands a login request to process_login_request and a status
-- request to get_status_string, which ask the query manager through the query client; a worker of the
-- WebSocket acceptor does the former on a connection of its own. Server takes both as arguments, and
-- Server/Serving gives it process_login_request, over a state with the query client.
--
-- Not modelled: the build with CLIENT_ENCODING_UTF8 = 1; logging; assertions on arguments; formatting by
-- the C library; the POLLNVAL of a socket that is not open; what close does to the system when
-- close_connection gives up a socket; src/main.cpp but for its loop; the libraries in third_party, of which Acceptor/Step
-- says what is used; and the calls of the system, which are parameters.
pub mod Base
pub mod ByteOrder
pub mod Xtea
pub mod Utf8
pub mod Writer
pub mod Reader
pub mod Wire
pub mod Query
pub mod Strings
pub mod Rsa
pub mod Login
pub mod Xml
pub mod Config
pub mod Acceptor
pub mod Connection
pub mod Status
pub mod Server
pub mod StatusLimit
pub mod Tests
