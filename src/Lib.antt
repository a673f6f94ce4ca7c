-- ===== src/Lib.antt =====
-- Mcaster1DNAS, a streaming server written in C: a verification of parts of its own logic. Paths
-- are from the root of the repository; the C sources are in src/.
--
-- The program. Sources send streams to the server. The parser of src/mpeg.c finds out what format
-- a stream has, and cuts it into frames. src/source.c keeps the latest blocks of a source in a
-- queue, as buffers of src/refbuf.c that are counted by their references, and sends them to the
-- listeners, each at its own place; src/format_mp3.c puts the titles of the stream between the
-- bytes for those listeners that ask for them. src/icy2_meta.c reads what a source says of itself
-- in its headers. Worker threads of src/client.c run the clients, and src/util.c counts rates. A
-- request is parsed by src/httpp/httpp.c; it names a mount point by a URI, which src/util.c
-- decodes and checks before a file or a source is looked up. A response is built by src/params.c,
-- which keeps the headers as a list of parameters, applies to it what the server, the
-- configuration and the handler of the request ask for, and prints it in front of the message.
-- src/songdata_api.c keeps a history of the titles that sources announce, and prints it for the
-- web interface. The parts meet in small places: params.c escapes values by util_url_escape of
-- util.c, the blocks that format_mp3.c interleaves are those of the queue of source.c, and every
-- part works on C strings and blocks of bytes.
--
-- Base: what all modules share. A C string is the list of its bytes without the NUL; `none` stands
-- for NULL, or for -1 where a function fails by that. Base/Tests has the Boolean tests of numbers
-- and the conditional, Base/Lists lists that are indexed by native numbers, Base/Strings
-- comparisons of strings and checks over a range of bytes.
--
-- Songdata: src/songdata_api.c. `History` holds the static variables of the file, `init`, `push`,
-- `snapshot` and `destroy` are songdata_init, songdata_push, the snapshot of songdata_get_xml, and
-- songdata_destroy. An access out of the array is a result of its own. Recent is the abstract
-- view, the entries from the newest to the oldest, and Promise what a push promises of it, written
-- without the functions of the code. Spec is a step between, the loops of the code on that list:
-- Scan, Added, Ring and Grow lead to it, Kept from it to Promise, and Push puts them together.
-- Duplicates is about the guard against a repeated title. The walk of newest_idx has a fuel of one
-- more step than the index it starts from, and the walk over the history one step for each entry
-- used.
--
-- Util: src/util.c. Util/Uri has util_url_escape, util_url_unescape, verify_path and
-- util_normalise_uri, Util/Base64 has util_base64_encode, util_base64_decode and util_bin_to_hex,
-- Util/Dict the linked lists of util_dict, and Util/Pattern util_expand_pattern, whose loop has
-- the length of the pattern as fuel. Buffers are measured by the lists that are written to them.
-- Util/Rate has the rates, rate_setup, rate_add_sum, rate_avg and their helpers: the ring of
-- samples is a list from the oldest to the newest, and counters wrap as uint64_t does.
--
-- Httpp: src/httpp/httpp.c. Httpp.antt is parse_query and the decoding of its values, Httpp/Request
-- the split into lines, the first line and the headers, with httpp_parse over them. What a parser
-- stores in its trees is listed in the order in which it is set.
--
-- Params: src/params.c and src/params.h. Params/Table is the list of parameters and
-- _ice_params_apply without a callback; Params/Http the headers of a response, the four callbacks
-- and mc_http_apply; Params/Output mc_params_printf, mc_params_complete and mc_http_complete. The
-- lengths wrap as uint32_t and uint16_t do. fnmatch and the text of the date are arguments.
--
-- Mpeg: src/mpeg.c and src/mpeg.h. Mpeg/Sync is the state, `mpeg_sync`, with the bits of
-- `settings` as fields; Mpeg/Header what the four bytes of a frame's header say; Mpeg/Handle the
-- handlers of frames; Mpeg/Detect the checks for MPEG-TS, USAC, MPEG audio (Mp3) and AAC;
-- Mpeg/Initial the check for tags, get_initial_frame and match_syncbits; Mpeg/Run the steps of a
-- parser in any order. A block is the list of the bytes from the pointer on, and a read or a write
-- beyond it is an answer of its own, `overrun`. The loops of check_for_mp3 and check_for_aac have
-- the number of bytes as fuel, since a frame that is passed has one byte at least;
-- handle_mpeg_frame, which calls itself, has a fuel of two. The floating-point estimate of an AAC
-- bitrate and the frame callback are arguments.
--
-- Icy2: src/icy2_meta.c and src/icy2_meta.h. Icy2/Rows names the members of the metadata,
-- Icy2/Headers is the table of the headers that icy2_meta_parse_headers reads, Icy2/Stats the
-- table of the statistics that icy2_meta_copy_to_stats reports, Icy2/Meta the two functions. The
-- request and the parts of it that other files provide are arguments.
--
-- Source: src/source.c, src/source.h and the send loop's test in src/format.c. `Source` is the
-- queue with its limits, and `Listener` a client's place on it. A pointer to a block is the number
-- of the block, counted from the first that was ever queued; `dropped` counts those that were
-- released, so that an access to a released block is a case of its own. Source/Sizes has the
-- limits that the configuration asks for, Source.antt the queue, Source/Serve the listeners. The
-- loop that reduces the queue has the bound of the code itself, `48 + (rate >> 13)` turns, and so
-- has the loop that sends.
--
-- Refbuf: src/refbuf.c and src/refbuf.h. The heap is a list, a freed place of it is `none`, and an
-- access there ends the run. refbuf_release walks the associated buffers, with fuel of four more
-- than the length of their list.
--
-- Mp3: src/format_mp3.c. Mp3.antt is send_icy_metadata and format_mp3_write_buf_to_client, with
-- the number of bytes that the socket takes as an argument; Mp3/Setup is metadata_setup;
-- Mp3/Receiver is written without the code, and is what a client does that was told the interval
-- of the metadata.
--
-- Worker: src/client.c and src/client.h. Worker.antt has the lists of clients of a worker, their
-- moves between the lists, the choice of the least busy worker and the end of a worker. What the
-- handler of a client answers and what the clock says are arguments.
--
-- What is not modelled. Allocation succeeds throughout, and locks make a call one step. Numbers
-- are unbounded where the code has an int or an unsigned int for the room of a response in
-- mc_http_complete, the length of the song history, the length of a message in metadata_setup, the
-- interval and the offsets of a listener in format_mp3.c, and the value of atoi: these are as in
-- the code below the limits of their types. metadata_setup is modelled from behind its early
-- return, while metadata is not yet on the queue. Of params.c the set-up from a request and the
-- freeing are left out, of util.c cached files and everything that reads sockets or clocks, of
-- mpeg.c find_align_sync and the reallocation of blocks in mpeg_complete_frames_cb; of source.c
-- the input of a stream, fallbacks and moves of listeners, start and end of a source, and its
-- settings other than the sizes; of format_mp3.c the input side, and of client.c the reads and
-- writes of a connection and the relocation of clients between workers. Of the request parser the
-- trees of variables and the parser of responses are left out. Not begun are file serving,
-- authentication, connections, relays, statistics, administration, the configuration, events, and
-- the formats of Ogg, EBML and FLV. The wrappers of threads, sockets and logs, and the copies of
-- other libraries (AVL trees, MD5, fnmatch), stay outside.
pub mod Base
pub mod Httpp
pub mod Icy2
pub mod Mp3
pub mod Mpeg
pub mod Params
pub mod Refbuf
pub mod Songdata
pub mod Source
pub mod Util
pub mod Worker
