-- ===== src/Lib.antt =====
-- Verification of the CAPWAP core of actube, a CAPWAP access controller and termination point.
--
-- The program: a packet arrives on a socket and goes through a packet queue
-- (src/cw/conn_q_add_packet.c and its siblings) to the thread of its connection.
-- There `conn_process_packet2` (src/cw/conn.c) checks the transport header
-- (src/cw/cw.h, src/cw/cw_inline.c), puts fragments together with the fragment manager
-- (src/cw/fragman.c), and hands a whole message to `process_message`, which
-- looks at the sequence number and calls `process_elements`: the message set
-- (src/cw/msgset.h) tells whether the message is known and allowed in the present
-- CAPWAP state, the message elements are decoded (src/cw/message.c), a callback runs, and the
-- response is composed element by element and sent with `cw_send_msg`
-- (src/cw/send.c), which cuts it into fragments again.
--
-- Two things stand around that path. A message set is built before (src/cw/msgset.c) from the
-- tables of the protocol modules (src/mod/capwap/capwap_actions.c); the state machine of the access
-- controller (src/ac/wtpman.c) runs over the states of the same tables. And the elements' data are kept as
-- text in a configuration (src/cw/cfg.c), to which the value types (src/cw/cw_type_*.c) translate.
--
-- The files, with the code that each models:
--   Base            natural numbers with the comparisons of C, memory as a function from
--                   offsets to bytes, the network order accessors of src/cw/lw.h, bit lemmas
--   Header          the macros and functions on the transport header and the message header:
--                   `get_hdr_*` is `cw_get_hdr_*`, `set_hdr_*` is `cw_set_hdr_*`, `get_msg_*` is
--                   `cw_get_msg_*`; a pointer is a memory and an offset
--   Fragman         src/cw/fragman.c: `fragman_add` with `frag_get` and `frag_new`; Fragman/Slots,
--                   Order and Bounds have the proofs
--   Send            `cw_send_msg` of src/cw/send.c; Send/Fragment, Copy, Loop, Start and
--                   Misaligned have the proofs
--   Conn/Packet     `conn_process_packet2`; Conn/Delivery puts sender and receiver together
--   Conn/Process    `process_message`, `process_elements` and what they call, with
--                   `cw_compose_message` of src/cw/message.c; Conn/Process/Kept, Transition,
--                   Response and Error and Conn/Seqnum have the proofs
--   Conn/Queue      the ring of packets behind its semaphore, and the reader that takes a packet in
--                   pieces; Conn/Queue/Fifo, Refine, Unread, Started and Peek have the proofs
--   MsgSet          the records of src/cw/msgset.h and the functions of src/cw/msgset.c: Order the
--                   comparisons, Update `update_msgdata`, Add `cw_msgset_add`, States
--                   `cw_msgset_add_states`. Mavl is the interface of the balanced tree, with
--                   src/cw/mavl_replace.c on it; Elements the lists as sequences;
--                   Update/Elementwise, Update/Consistent and Add/Total have the proofs
--   Capwap          the tables of src/mod/capwap/capwap_actions.c: Names, Messages, Handlers, Machine;
--                   Cisco the messages of src/mod/cisco/cisco_actions.c and what they make of these
--   Machine         `cw_run_state_machine` of src/ac/wtpman.c; Machine/Session the sessions of
--                   `wtpman_main`, with proofs over the tables in Closed and Tables
--   Cfg             src/cw/cfg.c: Reader and Writer the file, Key the order of the keys, Store the
--                   configuration on the tree; Line, RoundTrip, Limits, Total, Key/Compared,
--                   Key/Parts and Store/Found have the proofs
--   Value           the value types: Byte, Number (word, dword and bool) and Bstr16, with their texts in
--                   Hex and Decimal; Kinds their `read` and `write` on the configuration, Struct
--                   src/cw/cw_type_struct.c; Kinds/RoundTrip, Kinds/Positioned and
--                   Struct/Layout have the proofs
--   Generic         `cw_in_generic`, `cw_out_generic` and the handlers of a radio's elements, src/cw/cw.c;
--                   Generic/Delivery takes a number from one configuration to another
--   Lwapp           src/cw/lw_checksum.c, with the proof in Lwapp/Checksum
--   Message         the message elements: the loop `cw_foreach_elem`, the functions that put an
--                   element, `cw_decode_elements`, `cw_encode_elements`, `cw_check_missing_mand`
--   MList           the doubly linked list of src/cw/mlist_*.c in a store of nodes
--   Tests           concrete inputs for the theorems
--
-- How the model follows the code. State that a function changes is passed on and
-- returned. A dropped packet or message, -1 with `errno` EAGAIN, is a value. Undefined
-- behaviour is a value of its own: `overflow`, `overrun`, `key_overrun` and `fault`, and `none` where a
-- name is read through a NULL handler. Where C leaves the result of `atoi` for a number that is no int open,
-- it is glibc's in the comparison of keys, and the difference of two ints wraps around there. The numbers are natural numbers, and wrap-around of
-- a byte, a word or a dword is written out; a signed length that may be negative is an
-- integer. `cw_send_msg` has one turn of fuel for each byte of the message, since every
-- turn sends some; the loop over elements has one for each byte of their area, since every turn
-- moves on by four at least; the search in a list has as many turns as the list counts. The reader
-- of a configuration file has one turn more than the file has bytes, since each takes one at least;
-- the state machine's loop need not end on every table, and over the tables of the modules two turns
-- are enough; the comparison of two keys has one turn more than the first has characters.
--
-- What stands outside: `malloc` and `realloc`, the clock, the result of a write, the
-- detection of a peer's kind (`cw_mod_detect`), the handlers and callbacks of a message
-- set, and what they keep in the configuration. They are arguments. A handler and a callback act on a state `S` that
-- they can reach; the fields of the connection that the model names are not part of it. A tree of the
-- external library mavl is the interface `Mavl` where it is changed, which states what the lookup finds
-- after each operation, and else the function that looks a key up. `fgetc` and `ungetc` act on the
-- list of the bytes that are left of a file. Debug output is left out.
--
-- Not modelled: of src/cw/cfg.c the iterator, `cw_cfg_get_next_index` and
-- `cw_cfg_base_exists`; the other value types and element handlers, which are next; the
-- tables of src/mod/cisco but for the state machine's and the states of the messages; the index of the handlers by key. DTLS,
-- sockets, logging and the programs around the core (src/ac, src/wtp) do input and output only.
pub mod Base
pub mod Header
pub mod Fragman
pub mod Send
pub mod MList
pub mod MsgSet
pub mod Message
pub mod Conn
pub mod Capwap
pub mod Cfg
pub mod Value
pub mod Generic
pub mod Lwapp
pub mod Machine
pub mod Tests
