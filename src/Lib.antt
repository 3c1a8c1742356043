-- ===== src/Lib.antt =====
-- Verification of the protocol simulator, and of the driver model of its FPGA prototype.
--
-- The simulator runs a round-based protocol on a few nodes. A node collects proposals in a round,
-- the rows of its peers in the next, and judges the stage at the boundary after that: it commits
-- the round or halts. A control plane repairs halted nodes and moves the cluster to new
-- configurations; the runtime carries packets, events and updates between them.
--
-- Files and the code that they model:
--
--   Base             Python's lists, dicts with integer keys, and integers; lemmas shared by all.
--   Bitmap           bitmap_set, bitmap_members, bitmap_text and the tests on bitmaps of
--                    sim/protocol/types.py. A bitmap is a natural number.
--   Protocol         the records and enumerations of sim/protocol/types.py; Protocol.Records has the
--                    methods of the committed rounds, Protocol.Equality their `==`.
--   Node             the state of class Node of sim/protocol/node.py. Node.Rows has the rules on
--                    rows (_quorum to _commit_set), Node.Digest the digest chain, Node.Boundary
--                    _evaluate_round_boundary with the halt state, Node.Config the configuration
--                    steps and the mailbox, Node.Round advance_round, receive and crash.
--   Control          the state of class OnlineRejoinControlPlane of sim/control/control_plane.py and
--                    its helpers. Control.Repair has _select_repair_prefix and
--                    _rebuild_repair_logs, Control.Episode the collection windows and episodes,
--                    Control.Actions _apply_action and _maybe_activate_cutover, Control.Events
--                    observe_event, Control.Clock advance_to_time and __call__; Control.Validity is
--                    about all of them together.
--   Faults           the network and node fault models of sim/scenarios/faults.py.
--   Cluster          the state of class ClusterRun of sim/runtime/cluster.py with its events and
--                    updates, and the metrics collector of sim/runtime/metrics.py. Cluster.Network
--                    has the packets in flight (_schedule_packet_delivery to _advance_network),
--                    Cluster.Rounds the loop of run; Cluster.Totality is about all of them together.
--   Campaign         safety_violations of sim/runtime/random_campaign.py; Campaign.Faults has its
--                    random fault models, Campaign.Summary run_random_trial, summarize_trial and
--                    run_campaign.
--   Expectations     ScenarioExpectation of sim/protocol/types.py, and its evaluation in
--                    sim/runtime/cli.py; Expectations.Reports has its _compact_round_list.
--   Scenarios        the built-in scenarios of sim/scenarios/builtin.py.
--   Wire             the header layout of prototype/fpga/tb/mqnic_core_pcie_us/ssr_packet.py, and in
--                    Wire.Harness SSRPacketCodec, ClusterConfig and construct_packets of
--                    ssr_sim_harness.py beside it.
--   Driver           the driver of the dataplane, ssr_dataplane.py beside those: Driver.Registers
--                    has its constants, Driver.Hardware what it takes from mqnic and cocotb,
--                    Driver.Calls calls with state, hardware and exceptions. Driver.Proposals has
--                    ProposalQueue, with its transfers in Driver.Proposals.Transfers, Driver.Commits
--                    CommitBuffer and Driver.Commits.Queue CommitQueue, with its loops in
--                    Driver.Commits.Running, Driver.Consensus ConsensusCore, Driver.Device SSRDevice.
--
-- A method takes the node and returns the new one. Ids, rounds of packets, epochs, run ids and times
-- are natural numbers; the round of a stage and the committed frontier are integers, since they
-- start at -1 and -2. Strings that name a status, a reason or a kind of event are constructors.
-- hashlib and json are the parameter Hashing, scapy's Ether the parameter Ether, and what
-- random.Random draws is an argument. A function returns `none` where the code raises.
-- A method of the driver takes its object and the hardware, and leaves both with a result, an
-- exception or the note that it waits for another task; arguments of the driver are natural numbers.
-- A poll has its timeout as fuel. A pass of the run loop is one call, without other tasks between its
-- steps; recv_batch takes what other tasks do while it waits, and fuel that its theorem bounds.
-- Reasons attached to deliveries, which only people read, are left out. The snapshots that the
-- control plane reads through a callback are an argument of the methods that call it. Messages of
-- failures are kept as their contents. Loops run over lists; that of _advance_network, over a list
-- that it extends, has fuel for each delivery and for each of those that one may put behind it.
--
-- Not modelled: parse_duration_ns and format_duration_ns (floating point), the parsing of command
-- lines and the printing of reports, debug_snapshot, sweep_campaigns and its output, the
-- coroutines of the harness, mqnic.py (a copy of another project's driver), and the rest of
-- the FPGA prototype with its test benches.
pub mod Base
pub mod Bitmap
pub mod Protocol
pub mod Node
pub mod Control
pub mod Faults
pub mod Cluster
pub mod Campaign
pub mod Expectations
pub mod Scenarios
pub mod Wire
pub mod Driver
