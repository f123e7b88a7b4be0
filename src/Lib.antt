-- ===== src/Lib.antt =====
-- Verification of multiDAQ, the data acquisition of multi-PMT detectors: a server that drives the
-- clients on the detectors over three planes (control, acquisition, monitoring).
--
-- The parts and their models:
-- * ServerState/ models server/core/server_state.py, the state machine of the server and its
--   registry of clients. Fsm has the enumerations and the two transition tables, Records the
--   ClientRecord and the fields of ServerState, Event `process_event`, cut into its consecutive
--   parts (the tests on the arguments in Event/Arguments, the branches in Event/Branches, the end
--   of a finalization, the assignments at the end), Methods the other methods that change the
--   state, with registration and configuration data in children, Queries and Snapshot the methods
--   that only read, Snapshot also the guards of the user's commands. Modes follows the acquisition
--   mode that they test through the calls, up to the commands under both, as in
--   server/commands/acq_commands.py. The method bodies run under one lock, so that a call is one
--   step; History has every call and runs of them. WellFormed and Invariant keep the invariant, the
--   other files hold one group of theorems each.
-- * Hv/ models the channel lists of class HV in client/hardware/hv/hv_interface.py and the commands
--   that loop over channels. Lists has the moves, Commands the commands and their replies; Counts
--   sees a method as what it does to one channel, and the theorems follow from that view. What the
--   Modbus library answers to an access is an argument, so that theorems hold for all answers.
--   Ramps has `on_and_wait` and `off_and_wait`, PowerState, AcqConfiguration and OkOffRecovery the
--   other methods that wait. Monitoring has `monitor_snapshot`, Reports and Snapshots say what it
--   reports, and the KeptBy modules carry the invariant of the lists through every method. A wait
--   is recursion on fuel over the rounds of its loop: that as many rounds are enough as pauses fit
--   into the timeout is part of the theorems, for a clock that the sleep between two rounds moves
--   by at least the pause.
-- * Board/ models client/hardware/hv/hvmodbus.py, the registers of the high voltage boards. Access
--   has the accesses and the search for a board, Coils the commands by which a board is switched,
--   Readings, Calibration and Serials the methods with their codings; Settings gives what writing
--   calibrations should do, and CalibrationRoundTrip, SerialBytes, SerialTexts and SerialRoundTrip
--   compare writing with reading. Hv/AddressChange and Hv/Serials use it for `change_feb_address`
--   and for the map of serial numbers, and Hv/Trimmed says what is left of their texts. Floating
--   point numbers are left out: a calibration is the integer that is written.
-- * Rc/ models client/hardware/rc/rc_interface.py, the registers of the run control. Registers has
--   the single accesses, ChannelCommands and ListCommands the commands that select channels,
--   Acquisition the configuration of an acquisition, Monitoring the rates. Requested, Writes, Merge
--   and Applied follow `set_acq_registers`, Selection and SingleChannel read the commands bit by
--   bit, Bounds runs any calls.
-- * Liveness/ models server/services/client_liveness_service.py, what the server does when a client
--   is lost on a plane or is found on all of them. Its state holds the ServerState and the Replies
--   of the three managers, which it changes. Records says what becomes of the registry, Counts and
--   Reports count what the user is told in any sequence of calls. Kept and Runs carry the invariants
--   of ServerState and Replies through such a sequence, whose calls may also be those of the three
--   managers.
-- * Channels/ models server/utils/channels.py, client/utils/channels.py and the channel argument of
--   the HV interface: the same field of a command is read by the three.
-- * Message/ models common/message_handler.py. A field of a message holds any JSON value wherever
--   Python does not convert it. The JSON library is a record of two functions; the theorem that
--   needs it takes as a hypothesis that what `dumps` writes is read back by `loads`.
-- * Replies/ models common/reply_handler.py: threads that wait for the replies to their requests.
--   The objects that a waiting thread holds stand in a store, and `wait_pending_reply` is three
--   steps (the key is looked up, the wait ends, the key is forgotten), so that other calls come
--   between them.
-- * MacRegistry/ models server/core/mac_id_registry.py, the numeric ids of MAC addresses. What the
--   file holds and whether it can be written are arguments.
-- * Prelude/ has what they share: Boolean tests, lists of texts and of numbers measured by
--   counting, dictionaries in insertion order with their laws, Python's `strip`, `lower`, `split`
--   and `int`, and `&` and `|` read bit by bit.
--
-- The server sends commands as messages (Message) and waits for the replies to them (Replies). It
-- turns the channels of the user into a field of the message, the client turns that field into
-- hardware channels (Channels), for Hv and Rc to work on. The results reach ServerState as events.
-- A client that is lost leaves ServerState through Liveness, which wakes whoever waits for it in
-- Replies.
--
-- A raised exception is `none`, a refused event leaves what was written before it. Loops are
-- structural recursion on the list that they run over; only the waits for ramps use fuel. Numbers
-- are natural numbers, or integers with a sign where the source tests for one; the registers of the
-- run control have 32 bits.
--
-- Not modelled: sockets, threads and the shell; the other services of the server; the serial line
-- and the other drivers below classes HV and RC; what registers the hardware changes by itself;
-- databases and metrics; the receiver in C. Text is compared in lower case on ASCII only, and `int`
-- reads ASCII digits. Log messages are left out.
pub mod Prelude
pub mod ServerState
pub mod Hv
pub mod Channels
pub mod Message
pub mod Replies
pub mod MacRegistry
pub mod Rc
pub mod Liveness
pub mod Board
