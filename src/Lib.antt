-- ===== src/Lib.antt =====
-- Mavicona: the HTTP and WebSocket server library mumux, the identifiers of quid, the hash ring and
-- the files of the storage node, and the archives and logs of jobs.
--
-- The program. Mavicona is a set of services that store, index and process data. The C library
-- mumux carries their HTTP interface. A server accepts connections; each reads a request header into
-- a buffer (mumux/socket.c), finds its end and cuts it into a request line and headers (mumux/util.c,
-- mumux/connection.c), and hands it to a callback, which looks up headers and query variables
-- (mumux/request.c, mumux/url.c) and writes an answer through a buffer (mumux/connection.c). A
-- request can upgrade its connection to WebSockets, with an answer that is made by SHA-1 and Base64
-- (mumux/sha.c, mumux/base64.c); after that, data goes in frames (mumux/util.c, mumux/request.c).
-- The library quid makes identifiers from the clock and random bytes, by which the services name what
-- they store (quid/quid.c). A storage node finds the node that holds an identifier on a ring of
-- hashes (cynder/consistent_hash.h) with a checksum for its hash (common/crc32.h), and keeps items in
-- files of pages (cynder/filepage.cpp). A worker runs jobs that come as archives (packer/package.c)
-- and keeps a log of each, by which jobs that were not finished are run again (chella/wal.cpp). The
-- services share helpers, such as a table of linked lists (common/hdb.h) and a reader of URLs
-- (common/url.cpp).
--
-- The files, and the code that each stands for:
--   Base, Base/                  lists, machine words, C's int, bit operations, tables of small numbers
--   Mumux/Ascii                  the character classes and case folding of the C library
--   Mumux/Peek                   wb_peek_request_size of mumux/util.c
--   Mumux/Token, Token/Cut       wby_skipws and wby_tok_inplace of mumux/util.c
--   Mumux/Request, Request/      wby_connection_setup_request of mumux/connection.c, and
--                                wby_find_header of mumux/request.c
--   Mumux/Url, Url/              wby_url_decode and wby_find_query_var of mumux/url.c
--   Mumux/Base64, Base64/        mumux/base64.c
--   Mumux/Sha, Sha/              mumux/sha.c
--   Mumux/Frame, Frame/          wby_make_websocket_header of mumux/util.c and
--                                wby_scan_websocket_frame of mumux/request.c
--   Mumux/Socket, Socket/        wby_socket_send, wby_socket_recv, wby_socket_flush and
--                                wby_socket_set_blocking of mumux/socket.c
--   Mumux/Connection, Connection/  wby_connection_reset, wby_connection_push, closing and
--                                blocking mode of mumux/connection.c; struct wby_connection
--   Mumux/Read, Read/            wby_read and wby_con_discard_incoming_data of mumux/request.c, and
--                                wby_read_buffered_data of mumux/util.c
--   Mumux/Response, Response/    mumux/response.c, and wby_printf of mumux/request.c
--   Mumux/Upgrade, Upgrade/      wby_con_is_websocket_request of mumux/request.c and
--                                wby_connection_send_websocket_upgrade of mumux/connection.c
--   Mumux/Serve, Serve/          wby_update_connection of mumux/server.c: Continue has the state
--                                that sends 100 Continue, Graph the diagram of the states, Arrival a
--                                request that has arrived, Dead a connection lost by its callback
--   Mumux/Memory, Memory/        wby_init, and the memory that wby_start sets up, of mumux/server.c
--   Mumux/Slots, Slots/          wby_on_incoming of mumux/server.c, wby_socket_config_incoming of
--                                mumux/socket.c, and the memmove of wby_update
--   Mumux/Update, Update/        wby_update of mumux/server.c
--   Mumux/Server, Server/        the last loop of wby_update of mumux/server.c
--   Mumux/Write, Write/          wby_write and wby_frame_end of mumux/request.c
--   Common/Crc32, Crc32/         common/crc32.h
--   Cynder/Ring, Ring/           cynder/consistent_hash.h
--   Chella/Layout                the header of a log in chella/wal.cpp, as bytes
--   Chella/Wal, Wal/             chella/wal.cpp and wal.h: Header has the header of a log, written and
--                                read, Recovery what becomes of a log
--   Common/Linklist              common/linklist.h
--   Common/Hdb, Hdb/             common/hdb.h: Refines has the table as one list, Runs sequences of calls
--   Common/Weburl, Weburl/       common/url.cpp
--   Packer/Package, Package/     packer/package.c: Calls has an archive library that lists its calls,
--                                Verify the loop over an archive
--   Base/Stdio, Stdio/           files of the C library: bytes, position, fread, fwrite and fseek
--   Cynder/Layout                the structures of cynder/filepage.cpp, as bytes
--   Cynder/Page, Page/           cynder/filepage.cpp and filepage.h: Walk has the slots of the indexes
--                                in the order of the loops, Sound the invariant, Life a page from its
--                                creation to its opening, Removed a page after removeItem
--   Quid, Quid/                  quid/quid.c: Ticks has the loop of get_current_time, Stamp the time in
--                                an identifier, Text and Text/Shape its text and strquid_format
-- In each directory the file Tests runs the definitions on concrete inputs.
--
-- How the code is represented. A function is a function on values, with the state that it changes
-- passed in and out. Bytes are numbers, and a buffer is the list of its bytes; where the code cuts
-- a buffer in place, the pieces are lists of their own. A machine word keeps its wrap-around (u8,
-- u32, u64), and an int that can be negative is a ℤ. A pointer into a text is the rest of the text.
-- A return code is an Option, a Bool or a data type, as each file says.
--
-- The system calls send, recv, fcntl and close are no code of the repository: they are the fields
-- of the record Network, and what they are known to do is in the records SendLaws and RecvLaws.
-- Socket/Loopback is a socket that has these laws.
--
-- Loops. The loop of quid that waits for a tick takes fuel for the readings of the clock. Most are
-- recursions on the input. The loops that copy into a buffer (wby_sha1_update, the padding of
-- wby_sha1_final, wby_socket_send, wby_socket_recv, wby_connection_push) take fuel: the number of
-- bytes, the room in the buffer, or 64 rounds of padding. Each round moves a byte, but for the
-- first round of a push on a full buffer, for which the fuel is one more. Running out of fuel would
-- lose what is left. The loop of wby_update that accepts has one round more than there are slots.
-- The loop of wby_read and the loop of wby_update_connection need not end: with fuel they give
-- `none` where they have not ended.
--
-- The loop of package_verify ends with enough fuel on an archive that ends. A file of stdio is its
-- bytes and a position; that opening it works is assumed, and what the code leaves unset in a structure
-- is a parameter.
--
-- A slot of a server behind the end of its array is no slot: wby_on_incoming has no result there.
-- LinkList::insertItem takes an item with the items that its next pointer leads to, which an empty
-- list takes along.
--
-- Callbacks and system answers. What accept and select answer is a parameter of Mumux/Slots and
-- Mumux/Update. The callbacks of a server are parameters of Mumux/Serve: functions from the
-- connection to a result and the connection, about which nothing is assumed unless a theorem says
-- so.
--
-- Sizes. A payload length or a buffer size is an int of 32 bits where the code has one; the length
-- of a text is below 2 ^ 31 where the code keeps it in an int. wby_write and wby_read_buffered_data
-- cast an unsigned long to an int, and so do their models; a copy of a negative number of bytes gives
-- no result. The position of wby_read in a body is an int that does not wrap around here. The count of
-- bits in SHA-1 is two words.
--
-- Buffers. The bytes of a buffer are part of its connection, as if no two connections had the same
-- memory. A connection that comes in after another one was closed may share the buffers of its
-- neighbour, and what the two then do to each other is not modelled: a turn of the server is about
-- slots that share none. Memory/Layout is about the places of the buffers as wby_start lays them
-- out, and Slots/Shift about the slots, with their places, that move when a connection is closed.
--
-- What is left out. Of mumux/server.c the creation and binding of the listening socket in
-- wby_start, the largest socket number that wby_update computes for select, and wby_stop, which
-- only closes; and anything that only logs. Of quid/quid.c the reader strtoquid, which is a call of
-- sscanf, and the tree that quid_decode builds; the clock and the random source are parameters. The
-- other parts of the repository are not modelled: services in C++, Python and PHP, generated code,
-- copies of other libraries, and the rest of the directory common.
pub mod Base
pub mod Chella
pub mod Common
pub mod Cynder
pub mod Mumux
pub mod Packer
pub mod Quid
