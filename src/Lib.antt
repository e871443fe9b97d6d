-- ===== src/Lib.antt =====
-- udpfec: a reliable transport over UDP (the library under src/) and a SOCKS5 proxy that uses it
-- (socks5udpf/). A session numbers and sends packets, keeps them in a list until the peer confirms
-- them, resends what is lost or overdue, restores lost packets from FEC, and hands the frames that
-- arrive to the application.
--
-- Base holds what the modules share: Boolean tests on the native numbers, C arrays as lists, and
-- bits of words read from bytes, masks, exclusive or, `memset` and `memcpy`.
--
-- Arq is src/arq/goodtp_arq.cpp, the list of packets that wait for their confirmation:
--   Arq/Types       the structs of src/utils/goodtp_comstruct.h, the members of GtpArq, and the
--                   record Env of what it calls: pools, clock, bytes of packets, FramePrepHandler
--                   and FramePostHandler of the session. An answer is a function of the calls made
--                   so far. Calls from within them back into GtpArq, as the session's quality
--                   callback can make to change the resend limit or the rates, are left out.
--   Arq/Retransmit  PushPack, PopArqNode, the judgements, GtpSession::PackRetransmit
--                   (src/session/goodtp_session.cpp)
--   Arq/Boost       CloneBoostNode, TranFailedPostHandler
--   Arq/Feedback    ProcAck, ProcNack and the four passes, DelNodeByFirstSn, JudgeIsExist
--   Arq/Timer       CheckRtoRetran, ClearArqList, PopAllPack
--   Arq/Entry       the constructor, PacketEntryList, the setters, GetStat
-- The four feedback passes are one loop in the source, written out four times with different
-- decisions about a node; here the decision is an argument (`ack_verdict`, `no_loss_verdict`,
-- `has_loss_verdict`) of the loop `walk`. The lists linked by pointers are lists, in their order.
-- The other modules of Arq are proofs: Words (the two word sizes), Termination and TimerEnd (the
-- loops), Ownership, BoostOwnership and TimerOwnership (the pool's items), History (runs of
-- operations), Lookup, Release and Acked (what an ACK leaves), and the tests.
--
-- Reorder is the buffer that puts received frames back in order: ReorderClear, ReorderFlush,
-- ReorderEnqueue and the gap timeout of src/session/goodtp_session.cpp (Reorder/Buffer). Its proofs
-- are Slots (counts of occupied slots and of buffers), Valid, Enqueue and Operations (the invariant,
-- operation by operation), History (runs), and Order, Delivery, Sequence, Rising and Jump (the order of
-- what is handed over).
--
-- Fec2 is src/fec2/goodtp_fec2_buffer.cpp, the cache of packets for their recovery (Fec2/Buffer),
-- with the proofs Clear, Counted, RoundTrip and History, and the codes of src/fec2/goodtp_fec2.cpp:
-- XorEncode (Fec2/Xor), the positions of packets (Fec2/Positions), and the codes over packets with the
-- loops of RestoreDataByHDir, VDir, UHDir and DHDir (Fec2/Recovery), which differ in the stride through
-- the cache. Their proofs are XorBytes and XorEncode (bytes), Parity, Restore and Lost (recovery), and
-- Zones (positions).
--
-- SlidWin is the session's window of packet numbers, src/slidwin/slidwin.cpp: its tests of numbers and
-- positions (SlidWin/Window), CalcPps and CheckRealExistLoss (SlidWin/Stats), ResetWin and MoveWin
-- (SlidWin/Move), SnEntryWin and BlockSnEntryWin (SlidWin/Entry), both GetRtoTmoutPos (SlidWin/Tmout),
-- CheckNackIsValid (SlidWin/Nack), and NackSnEntryWin up to its call of CalcSndLoss (SlidWin/NackEntry).
-- The entries are those with `calc_loss_flag` SELF_NO, as the session enters ACK bitmaps into its send
-- window. With SELF_YES, as for every receive window, SnEntryWin goes on with CalcRcvLoss or CalcSndLoss,
-- which can move the window further and are not modelled. The sizes and tables are those of APPLICATION_TYPE
-- 2. The product with the float factor in CalcPps is a parameter. The proofs are Spans (validity, moves, the
-- newest position), Clear (the cleared memory), Refine, Steps and Marked (the ring as a set of numbers), Enter
-- (an entry), Fresh (ResetWin), Blocks and BlockSet (bitmaps), Rate (CalcPps), Overdue (the search for
-- overdue packets) and NackEnd (the loop over a NACK's blocks).
--
-- Frame is the packet of a frame: what FramePrepHandlerWithSelfVer of src/session/goodtp_session.cpp puts
-- in front of it, and what PackPrepHandler and PackPostHandler there and the checks of
-- src/interface/goodtp_interface.cpp read (Frame/Packet). The header of bit fields is a record, with every
-- number reduced to its width, and the bytes behind it are a list. Frame/Bytes has the fields as bytes, and
-- Frame/Sendable, Frame/Sent and Frame/RoundTrip follow a packet from its sender to its receiver.
--
-- SlideWin is the proxy's test for repeated packets, socks5udpf/src/slide_win.cpp with its bit
-- operations in socks5udpf/src/buf_operation.h: a window of 4096 sequence numbers in a ring of 512
-- bytes (SlideWin/Window, SlideWin/Buffer). SlideWin/Spec says what it promises without the ring. The
-- proofs are Bits, ByteMasks and Clear (the bits of the ring), Border and Refine (a call), and Runs and
-- Repeats (calls one after another).
--
-- LossStat is socks5udpf/src/loss_stat.cpp, the proxy's rate of lost packets (LossStat/Stat), and
-- socks5udpf/src/dly_cache.cpp (LossStat/Delay), with the proofs in LossStat/Bounds. The reported rate is
-- kept in hundredths of a percent, which the source divides as a float.
--
-- MemPool is src/mempool/goodtp_mem_pool.cpp, the pool of equal items with a bitmap of those in use
-- (MemPool/Pool). Addresses are numbers, and an item's position stands for its node. The proofs are
-- Scan and Search (the search for an unused item), Invariant, Calls (addresses, the call for a
-- new item), Refine (the number of users of each item), Start (the constructor and Init) and Reuse.
--
-- The session hands the packets that it receives to Fec2 and to Reorder, and those that it sends to
-- Arq; ACK and NACK packets start Arq's feedback passes, and the session's timer starts
-- CheckRtoRetran and the gap timeout. Those calls themselves are not modelled.
--
-- Fuel: a feedback pass visits a node once and once more for each resend that it has left
-- (`rounds`); the timer's pass handles a node at most twice, and gets one round more than that. A
-- flush of the reorder buffer empties a slot in each round, and has 17 for 16 slots; `Clear` takes
-- at most 32 rounds in a ring of 32 slots. The pool's search has its fuel for scans of the bitmap, of
-- which one is enough in a pool in order. A move of the session's window clears at most its whole ring,
-- with one round for each slot. The search for overdue packets has `end_pos + 1` rounds, since every call has a
-- shorter range, and a NACK fills at most the blocks of the ring. Running out is `none`, apart from every result.
--
-- Not modelled: log output; the boost calls under ENABLE_ARQ_BOOST_FLAG and the reliable mode under
-- SUPPORT_RELIABLE_TRAN, which src/utils/goodtp_macrodefine.h switches off; floats, which are kept as bit
-- patterns; the copying of packets' bytes in Arq and the caches, which do not read them; in the FEC code
-- the memory of the codes, the choice of a packet to restore, and the rules that adapt the code book; the
-- loss and round-trip statistics of the session's window. The manager, the interface and the rest of the
-- proxy are outside of this development.
pub mod Base
pub mod Arq
pub mod Fec2
pub mod Frame
pub mod Reorder
pub mod LossStat
pub mod MemPool
pub mod SlidWin
pub mod SlideWin
