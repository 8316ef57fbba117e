-- ===== src/Lib.antt =====
-- A SOCKS5 proxy in C with a management protocol, modelled for its own logic.
--
-- The program. A single thread runs a selector over non-blocking sockets. A SOCKS5 client sends
-- bytes that go through three byte-at-a-time parsers in turn: the method negotiation, the
-- user/password message and the request; the server answers each by writing into an output buffer.
-- An administrator's client sends lines of text, which are accumulated, split into tokens and
-- dispatched as commands on the store of users, the runtime parameters and the counters. A SOCKS5
-- connection has a state machine whose handlers call `recv`, `send`, `connect` and the selector; it
-- ends in a relay of bytes between the client and the origin.
--
-- Files, with the code that each models:
--   Buffer       src/shared/buffer.c, include/buffer.h. Pointers are offsets from `data`.
--                Buffer/Feed is the loop `while (buffer_can_read(b) && ...) buffer_read(b)` that the
--                parsers share, against the plain fold of their `switch` over the waiting bytes.
--   Negotiation  src/server/negotiation.c: `negotiation_parser_feed` is `parser_feed`, its `switch`
--                is `step`, `fill_negotiation_reply` is `fill_reply`.
--   Auth         src/server/auth.c, in the same way.
--   Request      src/server/request.c, in the same way, and `sockaddr_get_addr_port` of
--                src/shared/netutils.c. The replies are in Request/Reply.
--   Users        src/server/users.c: the array with its count.
--   Config       src/server/config.c. Metrics: src/server/metrics.c.
--   Line         src/server/mgmt_parser.c: `mgmt_parser_feed` and `mgmt_tokenize`.
--   Text         strcasecmp, printf and strtoul as src/server/mgmt.c uses them, and `parse_u32`.
--   AccessLog    src/server/access_log.c: `access_log_tail` over the bytes of the file.
--   Mgmt         src/server/mgmt.c. The commands (Mgmt/Commands) return the texts of their
--                `out_printf` calls with the new state; `handle_line` (Mgmt/Dispatch) writes them in
--                their order; Mgmt/Connection has the loop over the lines, the flush and the
--                handlers.
--   Selector     src/shared/selector.c: the table of items, its growth, registration, interests
--                and the sets for `select`. The allocator and the close of a handler are parameters.
--   Stm          src/shared/stm.c, for any callbacks: the three handlers are `handler`.
--   Socks5       src/server/socks5.c and src/server/include/socks5_internal.h, with what
--                src/server/socks5_resolver.c does to a connection. Socks5/Os has the calls of the
--                system: what they answer is the parameter `Os`, by the number of the call, and
--                `Net` logs the bytes that went through. Phases has the handlers of the messages,
--                Connect those of the origin, Relay the relay, Close the ends of the descriptors
--                with the references, Access the log, Machine the table `socks5_states` with the
--                handlers of the selector, Reaper `socks5_reap_idle`, Accept `socks5_passive_accept`.
--                In the proofs, Holds says what holds in each state and Course where a connection
--                stands between two events; Flush, Forward, Moved, Arming, Delivery, Arrivals and
--                Run are about the relay, Feeding, Parsing, Negotiating, Authenticating, Requesting
--                and Writes about the messages, Replying, Connecting and Candidates about the
--                origin, Ending about the end, Expiring and Sweeping about the idle connections,
--                Admitting about the limit; Advance, Serving, Served and Accepted put the whole life
--                together. A report of the selector comes for what it is armed for, and may
--                find that a worker of the resolver has ended the connection's job.
--                `Conn.parsed` is no field of the code: the feeds log in it the bytes that the
--                parsers take. The contents of a fresh buffer, which `malloc` leaves open, are the
--                parameter `Heap`.
--   Client       src/client/smcp_client.c and src/client/main.c: the tests of tokens and counts, the
--                reader of the replies (`run_command` behind its `send`), and the auth argument.
--   Prelude      shared tests, lists and numbers.
--
-- Representation. A byte is a number below 256; the hypotheses on bytes say so where they matter.
-- A counter of type `uint8_t`, `uint16_t` or `uint64_t` has its wrap-around written out. An array is
-- a list, and `set` outside of it changes nothing; the bounds theorems show that such a write does
-- not happen. A C string is the list of its bytes before the NUL. A failed `assert`, or an access
-- outside of a buffer's storage, is `none`, and the theorems say that the result is `some`. A
-- function that C lets mutate its argument returns the new value.
--
-- Fuel. The parsers' loop takes one round more than there are bytes waiting; each round takes one
-- byte, and Buffer/Feed shows that the loop then ends. The loop over the management lines takes at
-- least one byte in each round, and Mgmt/Loop shows that it ends. A number below 2^64 has at most 20
-- digits. `relay_flush` has a round for each byte that waits, and one more. `socks5_advance` reads
-- the waiting messages in a loop: one call of a read handler takes all that waits or leaves the
-- states that read, so that two rounds are enough. The other loops recurse on the count of the elements.
--
-- Parameters. Reading the access log's file is a function from paths to contents. What `recv` and
-- `send` answer is an input of the handlers. For a SOCKS5 connection the record `Os` has the answers
-- of `recv`, `send`, `connect` with `socket`, `getsockopt`, `getsockname`, `inet_ntop`, the clock,
-- the selector and the resolver's queue. `Documented` is what is relied on: `socket` gives another
-- descriptor than the client's, and `getsockname` an address of its family's size.
--
-- Not modelled: the rounds of `selector_select`, the resolver's queue and threads, several
-- connections at once, the call of `socks5_retry_accept` at the end of `socks5_close` (it changes
-- the listener only), the arguments of the server, the client's menus and terminal, the parser of
-- src/shared/parser.c, which the server does not use, and the process set-up.
pub mod Prelude
pub mod Buffer
pub mod Negotiation
pub mod Auth
pub mod Request
pub mod Users
pub mod Config
pub mod Metrics
pub mod Line
pub mod Text
pub mod AccessLog
pub mod Mgmt
pub mod Selector
pub mod Stm
pub mod Client
pub mod Socks5
