-- ===== src/Lib.antt =====
-- zvbi decodes what television broadcasts carry in the vertical blanking interval: Teletext,
-- Video Program System, Closed Caption and others. A line of it arrives as bytes (vbi_sliced, in
-- src/sliced.h), the error protection of Teletext is taken off (src/hamm.c), and a decoder or a
-- demultiplexer for each service turns packets into pages, blocks or programme labels for the
-- client. This library models parts of src/ of the repository, the functions under their names
-- less the prefix vbi_ or _vbi_.
--
-- Hamm: src/hamm.h and src/hamm.c, the protection of bytes and words. rev8, rev16, rev16p, par8,
--   unpar8, par, unpar, ham8, unham8, unham16p, ham24p and unham24p are the functions of these
--   names; Hamm/Tables and Hamm/InverseTables are src/hamm-tables.h; Hamm/Gen is src/hammgen.c,
--   which computes those tables, one definition for each loop.
-- Pfc: src/pfc_demux.c, the demultiplexer for Page Function Clear data. Pfc/State has the structs,
--   vbi_pfc_demux_reset and _vbi_pfc_demux_init; Pfc/Decode has _vbi_pfc_demux_decode, its loop
--   body cut into fill, open_block, complete and next_block; Pfc/Feed has vbi_pfc_demux_feed and
--   vbi_pfc_demux_feed_frame. Pfc/Select is about which packets
--   reach the decoder. It uses unham8 and unham16p of Hamm. The callback is a parameter: a
--   function of the client's state and the block, which gives the state after and whether it
--   succeeded; it is taken not to call back into the demultiplexer.
-- Idl: src/idl_demux.c, the demultiplexer for Independent Data Lines. Idl/Crc has init_crc16_table
--   and the sum over a packet, Idl/Data the loop over the user data, Idl/Demux the struct,
--   vbi_idl_demux_reset, _vbi_idl_demux_init, idl_a_demux_feed (cut into spa_loop, check_packet and
--   deliver), vbi_idl_demux_feed and vbi_idl_demux_feed_frame. The static table and the memory in
--   which the counts of idl_a_demux_feed start are arguments.
-- PageTable: src/page_table.c, a set of Teletext pages and subpages. PageTable/State has the structs
--   and the lookups, PageTable/Vector the capacity of the vector of subpages, PageTable/Pages
--   vbi_page_table_add_pages and vbi_page_table_remove_pages, PageTable/Subpages the functions of
--   these names for subpages. Which sizes vbi_realloc grants, and popcnt, are arguments.
-- Sliced: src/sliced.h, the line of sliced data that both demultiplexers are fed.
-- Vps: src/vps.c, the codecs of VPS packets and DVB PDC descriptors, with vbi_program_id of
--   src/pdc.h.
-- Bcd: src/bcd.h, packed decimal numbers: dec2bcd, bcd2dec, add_bcd, is_bcd and bcd_digits_greater;
--   value and AreDecimal read a packed number digit by digit. Bcd/Carry has the carries that the
--   last three look at, Bcd/Adder the addition digit by digit.
-- Packet830: src/packet-830.c, the decoders of Teletext packets 8/30, on Hamm and Bcd, with the
--   program ID of Vps. The function for the local time is cut into time_of_day and finish_time; the
--   limits of time_t are arguments, and its seconds are 64 bit patterns.
-- Xds: src/xds_demux.c, the demultiplexer for Extended Data Service packets: the struct,
--   vbi_xds_demux_reset, _vbi_xds_demux_init, vbi_xds_demux_feed, its switch cut into header,
--   contents_pair, terminator and discard, and vbi_xds_demux_feed_frame. The table of subpackets is
--   one list, row after row. The callback is a function from the packet to its answer, and a result
--   lists the packets that it was called with; it is taken not to call back into the demultiplexer.
-- Event: src/event.c, the list of event handlers that a decoder calls: add, remove_by_callback, remove,
--   remove_by_event and send of _vbi_event_handler_list. A pointer to a handler is its address, and
--   what malloc returns is an argument of add. The client is a function from the handler that is
--   called and the type of the event to the calls on the list that its callback makes; that a callback
--   sends an event itself is not modelled. Event/Masks reads masks as sets, Event/Covers is about the
--   mask of the list, Event/Entries and Event/Registry about the list as a map, Event/Removals and
--   Event/Send about a traversal, and Event/Lost about a handler that is added again in one.
-- Prelude: what these share. Words has the integers of C: an int is its 32 bit pattern, so that
--   "negative" is a test of bit 31, and a store in a uint8_t takes the remainder by 256. Access
--   has reads and copies of arrays, which end in out_of_bounds where C leaves the behaviour open;
--   Bits has the bitwise operations on fields; Sweep checks a statement at every number below a
--   bound.
--
-- Loops: those over an array or a table go over its list. The loop of _vbi_pfc_demux_decode has
-- fuel for 40 rounds, which is enough because the column grows in every round and there are 39
-- columns to go; that of bcd2bin has fuel for six rounds, and ends by its test in the sixth. The
-- loop of send has fuel as an argument, since a client that registers a handler in every call keeps
-- it going; one round more than there are handlers is enough for the others. The loops of Idl run
-- over a count, and need no fuel.
--
-- Not modelled: allocation, assertions and dump functions of the parts above; the printing of
-- src/hammgen.c; the iteration over a page table
-- and adding all displayable pages to it; and the other parts of the repository, the Teletext,
-- Closed Caption and raw VBI decoders, the page cache, export, capture and proxy among them.
pub mod Prelude
pub mod Hamm
pub mod Sliced
pub mod Pfc
pub mod Idl
pub mod PageTable
pub mod Vps
pub mod Bcd
pub mod Packet830
pub mod Xds
pub mod Event
