-- ===== src/Lib.antt =====
-- A verification library of dvb-apps: the parsers and protocol layers that read what a DVB receiver or
-- a conditional access module sends.
--
-- The program. lib/libucsi takes a transport stream apart: transport_packet reads a 188 byte packet and
-- follows its continuity counter, section_buf puts a section together from the payloads, section.h
-- checks the section and says whether a table still needs it, and a codec of mpeg/ or dvb/ checks one
-- table and swaps its fields in place, so that the for_each loops can walk its descriptors. The bytes come
-- from the air, so that these routines must hold for any bytes at all. lib/libdvben50221 speaks to the
-- module: asn_1 has the length fields of its messages, en50221_transport takes a read apart into messages,
-- runs the connections of each slot and sends what is queued, and en50221_session, above it, opens and
-- closes sessions on those connections and hands their messages to the resources of the host, of which
-- en50221_app_rm, en50221_app_ca, en50221_app_mmi and en50221_app_lowspeed are modelled: what each side
-- has, which programs are to be descrambled, the menus that the module shows to the user, and the modem
-- that it uses.
--
-- The files, and the code that they model:
--   Common              lists and numbers under one set of names, Boolean tests, and `Result`, which is
--                       what a C routine over raw memory can do
--   Ucsi.SectionBuf     lib/libucsi/section_buf.c and section_buf.h; struct section_buf is `SectionBuf`,
--                       section_buf_add is `section_buf_add`, its parts `add_header`, `check_length`, …
--   Ucsi.Descriptor     lib/libucsi/descriptor.h, and the loops that mpeg/pmt_section.h and the other
--                       headers of tables build on it
--   Ucsi.Codec          lib/libucsi/mpeg/{pat,pmt,cat}_section.c, dvb/{nit,bat,sdt,eit,tot,rst,tdt}_section.c,
--                       endianops.h, and section_codec and the length accessors of section.h
--   Ucsi.Crc32          lib/libucsi/crc32.h and crc32.c
--   Ucsi.SectionExt     section_check_crc, section_ext_decode and section_ext_encode of lib/libucsi/section.h
--   Ucsi.TransportPacket  lib/libucsi/transport_packet.c and transport_packet.h
--   Ucsi.PsiTable       psi_table_state of lib/libucsi/section.h
--   En50221.Asn1        lib/libdvben50221/asn_1.c
--   En50221.Transport   lib/libdvben50221/en50221_transport.c: `Handlers` and `Receive` for what comes in
--                       (en50221_tl_process_data), `Sending` and `Polling` for one connection, `Layer` and
--                       `Poll` for the slots; `tl_f` models en50221_tl_f, and time_after is that of
--                       lib/libdvbmisc/dvbmisc.h
--   En50221.Link        what the sessions need of the transport layer, as a record of operations and
--                       laws; `Link.OfLayer` fills it with the transport layer
--   En50221.Session     lib/libdvben50221/en50221_session.c and en50221_session.h: `Calls` of the host,
--                       `Handlers` for the messages of the module, `Receive` for the callback that the
--                       transport layer calls; the names leave out en50221_sl_
--   En50221.App         lib/libdvben50221/en50221_app_utils.c and en50221_app_tags.h; `Rm`, `Ca`, `Mmi`
--                       and `Lowspeed` are en50221_app_rm.c, en50221_app_ca.c, en50221_app_mmi.c with its
--                       header, and en50221_app_lowspeed.c, with lib/libucsi/dvb/telephone_descriptor.h, and
--                       `OverSession` puts them on the session layer, as en50221_stdcam_llci.c does. Of
--                       Ca, `Format` is en50221_ca_format_pmt and `Read` the layout of what it writes; of
--                       Mmi, `Fragments` is the reassembly of messages, `Text` the texts of menus and
--                       lists, `Message` en50221_app_mmi_message and `Send` what the host sends
-- Below each of these, the modules are named for what they prove; `Runs` has tests and concrete uses.
--
-- Conventions. Memory is a list of bytes and a pointer an index of it. A C routine is a function into
-- `Result`: `ok` is its value, `fail` its error value (`NULL` or a negative number), and `fault` a read or
-- write outside the memory that it was given. What memory holds after an error is not modelled, except
-- in section_buf, whose state lives on. The host is little-endian, `size_t` has 64 bits and `int` 32; a
-- subtraction in `size_t` that can wrap is written with its `2 ^ 64`. Bytes of input need not be below
-- 256 unless a theorem says so.
--
-- In the layers of lib/libdvben50221 a callback and a write to the device are events of a log, in their
-- order. The device is a function from what has happened to whether the next write succeeds; the clock
-- stands still during a call; `room` says whether malloc succeeds; and what poll and the reads report is
-- the record `World`. The locks are not modelled: each call runs by itself, and a callback does not call
-- back. The callbacks that the application registers on the session layer are the record `Upper`.
--
-- The resources return what they call instead of calling it: -1, 0, or a callback of the application with
-- its arguments, whose value is then returned. malloc succeeds there, and so does realloc, except that
-- realloc of a block to no bytes frees it and returns NULL, as the C library of GNU does; a block that is
-- used after that is a `fault`, and so is a text that is handed to a callback and is not there. The
-- transport layer, whose connections live on, has the same realloc, and the device says whether there is
-- memory for more than no bytes: `chain_freed` marks a connection whose chain_buffer has been freed, and
-- where that pointer is used again, the log has `freed_used` and the call ends with -1, since C defines
-- nothing from there on.
--
-- Fuel. `verify_loop` has one more than the length of its buffer, `walk` that length, and the loops of
-- the codecs one more than the length of the section; `process_data` and `apdus` have one more than the
-- length of the data, as has `defragment_text`; `swap_table` has one more than the length of the reply.
-- Each round moves on by a byte or more, and running out counts as `fault`, so that a
-- theorem that rules `fault` out also says that the fuel is enough. The polls of slots and connections
-- and the loops over sessions count through their tables.
--
-- Not modelled: the other section codecs and descriptors of lib/libucsi, the other resources
-- (en50221_app_ai, _auth, _datetime, _dvb, _epg, _smartcard, _teletext) and the standard loops of
-- lib/libdvben50221, the other libraries, and the utilities. Of lib/libdvben50221, what only frees memory
-- (en50221_tl_destroy, en50221_sl_destroy and the destroy functions of the resources). The kernel's
-- interface (lib/libdvbapi) is input and output only.
pub mod Common
pub mod Ucsi
pub mod En50221
