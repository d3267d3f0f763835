-- ===== src/Lib.antt =====
-- A verification library for VFRS, a virtual Frame Relay switch in C.
--
-- The switch takes frames from ports (sockets, pipes, serial lines), checks and decodes them, polices
-- them by their DLCI's token bucket, and forwards them to the port and DLCI of a virtual circuit;
-- management and signalling frames go through a queue to the control plane, which keeps the state of
-- circuits and allocates DLCIs for switched calls by routes that a digit analysis tree finds.
--
-- What is modelled, by file; paths are from the repository's root:
--   Frame/Addr.antt    the Q.922 address: the inline functions of include/vfr/switching.h, and
--                      fr_decode_addr, fr_encode_dlci_with_flags, fr_rewrite_dlci, fr_dlci_reserved,
--                      fr_dlci_valid and fr_dlci_valid_for_width of src/switching/fr_frame.c
--   Frame/Crc.antt     crc16_fcs and crc16_check of src/switching/fr_frame.c, with the slice-by-eight
--                      loop, its alignment to eight octets and its tables
--   Frame/Hdlc.antt    hdlc_stuff and hdlc_unstuff of src/switching/fr_frame.c
--   Frame/Wire.antt    fr_parse_frame, fr_get_control, fr_build_ui_frame and the size functions of
--                      src/switching/fr_frame.c, composed of the three above
--   CtrlQueue.antt     the control-plane queue of src/ports/port_queue.c
--   DlciAlloc.antt     svc_dlci_alloc_init_ex, svc_dlci_alloc_ex and svc_dlci_free of
--                      src/switching/svc_routing_common.c
--   DigitTrie.antt     svc_trie_insert and svc_trie_lookup of src/switching/svc_routing_common.c
--   Fragment.antt      frf12_fragment_frame and frf12_reassemble_frame of src/switching/fr_fragment.c
--   Congestion.antt    the token buckets, the policing and the congestion state of
--                      src/congestion/cgst_mgnt.c
--   Cllm.antt          cllm_build_xid and cllm_parse_xid of src/congestion/cgst_cllm.c
--   Numbering.antt     svc_numbering_expand of src/ports/svc_numbering/svc_numbering.c
--   Numbering/Register.antt
--                      svc_numbering_add_mode, svc_numbering_is_all_zeros and svc_find_subscriber of
--                      src/ports/svc_numbering/svc_numbering.c
--   Lapf.antt          the state of a data link, its constants and its sequence numbers, from
--                      src/ports/lapf/port_lapf.h, include/vfr/ports.h and src/ports/port_common.c
--   Lapf/Frames.antt   the frames that src/ports/lapf/port_lapf.c sends, the acknowledgement of the
--                      transmit window, the backlog and the retransmission
--   Lapf/Xid.antt      the exchange of parameters: what is offered, parsed and agreed
--   Lapf/Unnumbered.antt, Lapf/Numbered.antt, Lapf/Handle.antt
--                      lapf_handle_frame, by the type of the frame, and the whole of it
--   Lapf/Calls.antt    the calls of the layers above, and the timers T200 and T203
--   Lapf/Table.antt    the table of data links by DLCI, its handlers and its polling
--   Lmi.antt           the state of the local management interface, of include/vfr/pvc.h, and the operations of
--                      src/pvc/pvc_lmi_common.c that send nothing
--   Lmi/Elements.antt  the elements and enquiries of src/pvc/pvc_lmi_ansi.c, pvc_lmi_q933a.c and pvc_lmi_gof.c
--   Lmi/Poll.antt      lmi_poll_timer and lmi_send_async_status of src/pvc/pvc_lmi_common.c
--   Lmi/Handle.antt    lmi_ansi_handle_frame, lmi_q933a_handle_frame and lmi_gof_handle_frame
--   Lmi/Status.antt    lmi_ansi_build_status, lmi_q933a_build_status, and the monitoring in
--                      send_lmi_status_response of src/switching/fr_switch.c
--   Lmi/Continue.antt  the init functions, lmi_cisco_build_status, and the STATUS branch of the frame handler
--                      in src/switching/fr_switch.c
--   Common.antt        what they share: lists by native numbers, words, bits and Boolean tests
-- Below each file of a component stand its proofs, one module for each thing proved, and its tests.
--
-- How the code is translated:
--   A pointer with a length is a list of octets, and a routine that writes gives what it writes. A
--   return value of -1, or 0 for a builder, is `none` or a status. Null arguments are left out.
--   Numbers are natural numbers, with `u8` to `u64` where the source's type wraps. A subtraction of
--   unsigned numbers that can wrap has the modulus added first.
--   Loops are structural recursion: on the octets left, on the ranges left, on the digits of a string,
--   or, in frf12_fragment_frame, on the room that `max_frags` leaves. The loop over the parameters of a
--   CLLM message has as much fuel as the group has octets; each step takes two of them at least, and
--   running out is a result of its own. So has the loop over the elements of an LMI message. The
--   decimal digits of an unsigned int are at most ten.
--   A call of the queue holds its mutex from the first to the last access, so that an interleaving of
--   threads is a sequence of calls.
--   A call of the data link or of LMI is one step, made under the port's mutex, and sees one time of the clock. What
--   the port's driver answers to a frame is an arbitrary function of the frames given to it before. A
--   slot of the transmit window is its first `len` octets. The loops over the window have fuel: 64
--   rounds send the backlog, which holds at most 64 messages; 128 rounds retransmit, as sequence
--   numbers are modulo 128; the acknowledged frames are at most as many as are outstanding.
--   The clock and the address of a buffer are arguments. The round trip of fragments asks of the clock
--   only that from call to call it goes on by no more than the timeout.
--   A buffer that is written without a test of its size grows in the model: the fragment slots, and the
--   reassembly buffer at a first fragment. Of an I-frame with more than 1599 octets of data, which overrun
--   the buffer of lapf_send_i_frame, nothing is built.
--
-- What is not modelled: of LMI the collection of the items of a full status, what a CLLM message does to circuits, the signalling of SVCs and its
-- information elements, the routing table, the switching core, multicast, and the configuration
-- language; of the congestion state the CLLM timer and the Ty timers;
-- freeing of memory, failure to get memory, logging, and the input and output of ports.
pub mod Common
pub mod Frame
pub mod CtrlQueue
pub mod DlciAlloc
pub mod Fragment
pub mod Lapf
pub mod Lmi
pub mod DigitTrie
pub mod Congestion
pub mod Cllm
pub mod Numbering
