-- ===== src/Lib.antt =====
-- A model of the YMODEM sender and receiver of this repository (Ensc351ymodLib), with what is shown
-- of them.
--
-- The program sends files over a serial medium in blocks of 128 bytes with a CRC. A sender
-- (SenderY) and a receiver (ReceiverY) share a base class (PeerY) and are each driven by a state
-- chart (ySenderSS, yReceiverSS), which the loop `transferCommon` feeds with events: SER, a
-- character from the medium; TM, a timeout; KB_C, a cancel from the keyboard. A chart's handlers
-- call the operations of their peer. The receiver's transient states post the event CONT to
-- themselves.
--
-- The files:
--   Base      lists as arrays and files, Boolean tests, signed integers, bitwise exclusive or.
--   Crc       Ensc351ymodLib/crc.c: `updcrc`, `my_htons` and `crc16ns`; Crc/Register and Crc/Detect
--             have the CRC as a shift register, Crc/Chunk the CRC of a chunk.
--   Text      the C and C++ functions that the code calls on text: C strings, `filename()`, "%ld",
--             `stoi`.
--   Peer      PeerY.h and PeerY.cpp: constants, members, timeouts; Peer/Loops has the loops that
--             read from the medium (`clearCan`, `dumpGlitches`, `purge`), Peer/Clock the clock and the
--             constructor, Peer/Transfer the loop of `transferCommon`, Peer/Transfer/Events and Steps
--             what its rounds post, and Peer/Transfer/Rounds single rounds.
--   Block     the block buffers of SenderY.cpp: `genBlk` (gen_blk), `genStatBlk` (gen_stat_blk).
--   Sender    Sender/Defs is SenderY.cpp, Sender/Chart the handlers of ySenderSS.cpp, one function
--             for each, Sender/Machine how the chart is driven. Sender/Resend is about the two block
--             buffers, Sender/Cancel about cancelling, Sender/Naks about refused blocks,
--             Sender/Sending, Sender/WholeFile and Sender/FirstBlocks about a file from its stat
--             block to EOT, Sender/NextFile about what comes before and after a file,
--             Sender/Loop about the chart under the loop of `transferCommon`.
--   Receiver  Receiver/Defs is ReceiverY.cpp, Receiver/Chart the handlers of yReceiverSS.cpp,
--             Receiver/Machine how the chart is driven. Receiver/Accept, Blocks and Damage are about
--             `getRestBlk`, Write, Transfer, Repeats and Once about the data of a file, StatBlock,
--             Files and Session about a file from its stat block on, Ends, Cancel, Settled and Fuel
--             about the chart, Loop and Silence about the chart under the loop of `transferCommon`.
--   Crossing  the two charts together, over a medium without errors.
--   MyIo      Ensc351ymodLib/myIO.cpp: MyIo/Defs is `socketInfoClass`, MyIo/Calls the functions on
--             descriptors. MyIo/Steps has the runs of one direction of a pair, MyIo/Channel the same
--             direction without its counters; Sound, Reads, Shows, InOrder, Drain, Pairs, Closed, Kept
--             and Ends are about such runs and calls.
--   Medium    Ensc351Part6/src: Medium/Defs and Medium/Loop are Medium.cpp, Medium/Kvm is Kvm.cpp.
--             Arrays, Stream, Passed, Invariant and Bytes are about single messages, Medium/Damage
--             joins the medium to the receiver of Ensc351ymodLib.
--   PartOne   Ensc351Part1/src, the first stage, which writes its blocks to a file: PartOne/Defs is
--             SenderY.cpp, Layout and StatBlock are about its blocks, DataLoop and Files about what it
--             writes for its files.
--   PartTwo   Ensc351Part2/src, an earlier stage: ReceiverY.cpp, SenderY.cpp, Medium.cpp; Stored,
--             Resent and Places are about these.
--   PartThree Ensc351Part3-soln/src/myIO.cpp: the first version of `reading`, which waits without a
--             limit; PartThree/Waits is about what it gives.
--   Tests     the results at concrete inputs.
--
-- State and operations: an object is a record (Peer, Sender, Receiver) with the members of its class;
-- a member function is a function on that record, and what it does to the medium, to files and in
-- time is appended to the record's log. What the system answers while one event is handled (time,
-- bytes read, results of `open` and `creat`) is a record Answers that comes with the event. A handler
-- gives a Reaction: ignored, an internal transition, or a transition to a target. A call of
-- `postEvent` is post_event, and a run is post_all on a list of events with their answers. An exit
-- of the process and an exception are results of their own.
--
-- Interfaces: Peer/Transfer uses a chart through the record StateMgr, which receiver_chart and
-- sender_chart fill. MyIo uses the system's buffer of a socket pair through the record Kernel, whose
-- laws say that a write appends what it accepts, that a read takes from the front and that a close by
-- the reader throws away what is there. A run of one direction of a pair is a sequence of steps, each
-- of them the part of a call between two points at which the call gives up the mutex of the object, in
-- any order. A thread that waits for `cvRead` may go on at any time, since that wait has a time limit;
-- one that waits for `cvDrain` goes on only when it is notified.
--
-- Integers: `uint8_t` and `uint16_t` arithmetic is written with its remainder, `errCnt` with
-- `% 2 ^ 32`, as are the counters of the socket pairs and of the medium, `off_t`, `ssize_t` and
-- `long long` are integers without a bound.
--
-- Fuel: `deliver` has fuel for three CONT messages, the longest chain of transient states;
-- `digits_from` has fuel above the number; `dump_glitches` takes its fuel as an argument;
-- `receive_data` of PartTwo has the number of bytes of the line. The loops that wait for
-- the world run on the list of what it answers: transfer_loop on rounds, the medium on reads, sendFiles
-- of PartOne and PartTwo on files and answers.
--
-- Not modelled: the system calls, failures that the `PE` wrappers turn into an exit, logging and the
-- console, the runtime library of the charts (Ensc351/ss_api.cpp) beyond what the two Machine files
-- state, the code under CIRCBUF and ALLOW_DEEMED_GOOD, which are not defined, the older kind of medium
-- in Ensc351Part6, the terminal and the programs' threads, and uartAxi (a board's kernel module).
pub mod Base
pub mod Crc
pub mod Text
pub mod Peer
pub mod Block
pub mod Sender
pub mod Receiver
pub mod Crossing
pub mod MyIo
pub mod Medium
pub mod PartOne
pub mod PartTwo
pub mod PartThree
pub mod Tests
