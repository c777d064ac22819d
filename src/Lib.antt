-- ===== src/Lib.antt =====
-- kos-tool: a loader that runs on a console (client/) and a tool on a host (host/), which exchange
-- commands over UDP or over a serial line. Over UDP the host uploads a program (LBIN, PBIN, DBIN), starts
-- it (EXEC) and then serves the system calls that the program makes through the loader; the loader
-- answers downloads (SBIN, SBIQ) and takes the results of calls (RETV). Over the serial line single bytes
-- name the same commands, and blocks are compressed.
--
-- The parts and their files:
--   Prelude: Boolean tests, lists, 32-bit arithmetic and texts that all modules share.
--   Wire: ids, trailer and byte order of include/kosload/protocol.h.
--   Divutil: client/include/kosload/divutil.h, UDIV_CONST and ms_to_ticks.
--   Checksum, Packet: client/common/network/checksum.c and packet_helpers.c as bytes in memory for both
--     byte orders, and the checksum tests of client/common/network/net.c (process_mine, process_udp).
--   Frames: client/common/network/net.c on a receive buffer, from process_pkt to the answers to ARP and
--     ICMP (process_broadcast, process_icmp) and to the datagram that a handler gets (process_udp).
--   Client: the loader's globals as one record, what it does to adapter, target and display as a list of
--     events. Client/Upload, Client/Download, Client/Retval and Client/Control are the handlers of
--     client/common/core/commands.c (cmd_loadbin, cmd_partbin, cmd_donebin, cmd_sendbinq, cmd_retval,
--     cmd_execute, ...), one function each; Client/Receive is the dispatch of
--     client/common/network/net.c (process_udp) over them, and Client/Syscalls is
--     client/common/network/network_syscalls.c.
--   Dedup: host/src/dedup.c; Dedup/Console the round of do_network_console (host/src/console.c) around it
--     and send_cmd (host/src/transport/network.c).
--   Host/Send, Host/Receive: network_send_data and network_recv_data of
--     host/src/transport/network.c. A pointer into the buffer is its distance from the start, and a
--     list of replies answers the commands that wait, in order; Host/Send/Delivery and
--     Host/Send/Restart give the client what the host sent.
--   Dhcp: client/common/network/dhcp.c with the lease management of client/common/network/entry.c
--     (dhcp_poll, dhcp_tick): Dhcp/Options the searches and the writer of the options, Dhcp/Exchange the
--     replies and the attempts of dhcp_go and dhcp_renew, Dhcp/Poll what the adapter's loop polls.
--   Display: ip_to_string, mac_to_string and uint_to_string_dec of entry.c, set_ip_from_string of
--     client/common/network/network_transport.c.
--   Serial: the byte protocol of the serial and USB loaders. Serial/Io is a program on a line, as a tree
--     of the bytes it sends and receives; Serial/Loader and Serial/Commands are
--     client/common/serial/serial_transport.c, Serial/Tool and Serial/Requests
--     host/src/transport/serial.c, Serial/Syscalls client/common/serial/serial_syscalls.c and
--     Serial/Syscalls/Serving the ser_syscall_* functions and do_serial_console of host/src/console.c.
--   Scramble: dc_descramble of host/src/binary/scramble.c, and Scramble/Disc the scrambler of
--     make-dist/tools/mkcdi-lite.c.
--   Dol: host/src/binary/dol.c, and Dol/Writer make-dist/tools/elf2dol.c.
--   Srec: host/src/binary/srec.c.
--   Examples, Dedup/Examples: tests, and the theorems at concrete values.
--
-- How they meet: Client/Upload/Recovery and Host/Send/Delivery run the host's loops against the client's
-- handlers; Client/Syscalls/Numbering reads the client's frames with the host's dedup_extract_seq;
-- Packet/Udp reads a frame of one byte order on another. Two programs on a serial line Agree when each
-- receives what the other one sends, in order, until both are done (Serial/Io/Meets).
-- The host reads what the tools of make-dist write: Scramble/RoundTrip and Dol/RoundTrip run one after the
-- other. Frames/Unanswered processes what an adapter sent on any other, and
-- Frames/Delivered what Packet makes.
--
-- Numbers are natural numbers with the wrap-around of the C type written out (% 2 ^ 32). Memory is a
-- function of the address. What comes from outside is an argument: the datagrams and answers that the
-- host receives are lists, the client's receive loop and the run of a program are functions of the
-- state, and what a system call does on the host is a function of its world. Time passes in these only. A wait of
-- DHCP is the list of what arrives before its time limit. LZO is a pair of functions, and the theorems on
-- blocks assume that decompression restores what was compressed.
--
-- Loops: the carry fold has three rounds, enough for a 32-bit sum; the scan of DBIN and the loops of the
-- downloads recur on the counts that the code computes; the host's loops recur on the datagrams left, and
-- the stream of an upload on its size, which is at least the number of its chunks. dhcp_go has fuel for its
-- passes, of which 31 are enough; a search of the options has the packet's length, for each pass advances;
-- the blocks of a serial transfer have the number of its bytes. The chunk loops of the scrambler recur on
-- the bytes left, of which a round takes a chunk, and elf2dol pads at most up to the offset that it fills.
--
-- Not modelled: the drivers and start-up code of the consoles, what is drawn, the calls on directories, CD
-- images and GDB over the serial line, a line that dies or garbles bytes, ELF and flat files, the host's
-- command line and system calls, third-party code. A read of a DOL section delivers all of it that the
-- file has. Pacing delays and diagnostics of the transfers have no
-- part in what they transfer. The reads of C past a buffer's end are not modelled.
pub mod Prelude
pub mod Divutil
pub mod Wire
pub mod Dedup
pub mod Checksum
pub mod Client
pub mod Dhcp
pub mod Display
pub mod Dol
pub mod Frames
pub mod Srec
pub mod Host
pub mod Packet
pub mod Scramble
pub mod Serial
pub mod Examples
