-- ===== src/Lib.antt =====
-- The verification library of Persea Terminal, a web terminal for tmux sessions.
--
-- The program is two processes. The front door (internal/frontdoor) serves browsers over WebSockets;
-- the broker (internal/broker) runs beside tmux. They speak frames over a Unix socket
-- (internal/proto). A page's input goes through the front door to the broker, which writes it to the
-- pane and reports what became of it; output goes the other way, paced by what the page has
-- acknowledged. The broker observes tmux through its control mode (internal/controlmode), keeps
-- what panes have written in journals (internal/unifiedjournal), and shares a pane's terminal among
-- its attachments (internal/terminal).
--
-- Base holds the numbers, lists, maps and options that all parts share. The parts, each of which uses
-- only Base and its own modules, but for Takeovers, which uses Handles, and Attachment and History, which
-- use ControlMode/Bytes:
-- - Broker/InputLedger: internal/broker/input_results.go. The ledger is the record InputLedger, its
--   methods are receive, settle, wrote and take_settled. The goroutine of report is a Reporter,
--   whose steps interleave with the methods: report_wakes, report_takes, report_writes, which is outside
--   the mutex and may fail, and report_confirms. A panic is the result none.
-- - FrontDoor/FlowWindow: internal/frontdoor/flow_window.go, with the method record as record_frame
--   and the method open as is_open. An index out of range is the result none.
-- - Broker/InputFreshness: internal/broker/input_freshness.go. A frontier clock is a FrontierClock and a
--   writer's gate an InputFreshness, whose ring of marks is the array of the source. observe and at of
--   the clock are observe and clock_at; start, delivered, receipt and admit are the methods of the
--   gate. The clock, the window and the quiet time are arguments.
-- - Broker/CommandQueue: internal/broker/retention_queue.go. A panic is the outer none of a result.
-- - FrontDoor/Leases: leaseStore of internal/frontdoor/state.go and controlLeaseOwner of
--   internal/frontdoor/control_takeover.go. Owners are on a heap of the store, and a call that waits for
--   an owner's input gate is two steps: transfer is transfer_starts and transfer_commits, and
--   useOwnerInput is input_begins and input_ends.
-- - FrontDoor/Handles: handleStore of internal/frontdoor/state.go.
-- - FrontDoor/Takeovers: controlTakeoverStore of internal/frontdoor/control_takeover.go; the functions
--   that authorize and consume are given are arguments.
-- - Proto/Frame: internal/proto/frame.go. A reader is the bytes that it delivers and how it
--   answers behind them, by the end of the stream or an error; a writer the list of its answers, and the admission is a parameter.
-- - Attachment/Transport: internal/attachmentwire/transport_flow.go and transport_input.go, and
--   Attachment/Notices: transport_liveness.go and transport_refusal.go, with the codes of
--   internal/proto/attachment_errors.go. The functions keep their names. What a decoder returns is a
--   Recognized: ordinary, violation or a frame.
-- - Journal/Retention: internal/unifiedjournal/retention.go. enter is take_ticket, and the wait for
--   is_served, with sleep for ready.Wait, from which the Broadcast of leave wakes every goroutine.
-- - Journal/Eligibility: internal/unifiedjournal/eligibility.go. The interface WriteAhead is a record of
--   functions on a state that is a parameter; WriteRecord is write_record.
-- - ControlMode: internal/controlmode/decoder.go. Bytes has what the decoder uses of the packages
--   bytes, strings and strconv, Payload has decodePayload, Line has decodeLine, and Decoder has feed
--   and Close.
--   Router is internal/controlmode/router.go, with the methods admit, observe and unified_eligible.
-- - Terminal/WorkGate: internal/terminal/work_gate.go. A claim is a number, and a panic is the result
--   none.
-- - Terminal/History: internal/terminal/history.go. boundedOffscreenRows is bounded_offscreen_rows, whose
--   loop is newest; the methods of the cut keep their names.
-- - Terminal/Scheduler: internal/terminal/scheduler.go. The goroutine run is a function of its
--   variables for each command and for the timer; a time is a number.
-- - Journal/SourceQuota: internal/unifiedjournal/source_quota.go. A key and a source are a number
--   each, since they are only compared, and the maps are association lists. The order in which Go
--   visits the panes is that of a list, which is any.
-- - Terminal/Egress: internal/terminal/egress.go. The goroutine pump is a step for each of its
--   locks, between which the other calls come in any order. The validation and the encoding of a frame
--   are parameters.
--
-- Numbers: a uint64 is a natural number that wraps at 2 ^ 64; an int that the code only adds sizes and
-- lengths to is a natural number, and where it could pass 2 ^ 63 - 1 the code's own test is kept
-- (feed). Loops are structural recursion, but for the loop of feed, which runs on fuel: each of its
-- rounds takes a newline from the buffer, so one more than the length of the buffer is enough; and for
-- the eviction in mint, whose rounds each take one handle away, so their number is enough. A count is
-- printed on fuel for twenty digits, the most that a uint64 has.
--
-- Not modelled: sockets, processes, files and the goroutines around the parts above, which are input
-- and output; the memory accounting of a decoder that has a Memory; the deadlines and the closing of
-- the egress's writer; the hooks that only tests set; and the components of the broker, the front
-- door, the terminal and the journal that are not named above.
mod Base
pub mod Proto
pub mod Attachment
pub mod Broker
pub mod FrontDoor
pub mod Journal
pub mod ControlMode
pub mod Terminal
