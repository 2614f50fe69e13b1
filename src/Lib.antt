-- ===== src/Lib.antt =====
-- NFVnice: the manager of chains of network functions (NFs), a C program on DPDK.
--
-- A receive thread looks up the flow of each packet, gives it the service chain of the flow and queues
-- it for the first NF; a transmit thread takes the packets that NFs give back and drops them, passes
-- them on along their chain, or sends them out. Packets are gathered in buffers of 32 and flushed into
-- the rings of the NFs and to the ports. When the ring of an NF passes its mark, the positions of the NF
-- are marked in the chains at hand (back pressure), and packets of marked chains are dropped before the
-- first NF; when the ring has drained the marks are taken back. The main thread answers the requests of
-- NFs to start and to stop.
--
-- Files, and the parts of the repository they model:
--   Prelude         shared names, Boolean tests, lists, arrays as functions, circular buffers, sums
--   Action          the actions of onvm/shared/common.h
--   Bits            SET_BIT, CLEAR_BIT, TEST_BIT, is_upstream_NF and the highest set bit, common.h
--   Chain           onvm/shared/onvm_sc_common.c, onvm_sc_mgr.h and onvm_sc_mgr.c: service chains
--   Ringbuf         onvm/shared/onvm_ringbuf.c: a ring of pointers for one user
--   Headers         onvm/shared/onvm_pkt_helper.c and onvm_ft_fill_key of onvm_flow_table.h
--   Histogram       onvm/shared/histogram.c; Histogram/Samples has the functions with the suffix _v2
--   Mgr             the state of onvm/onvm_mgr: clients, infos, services, flow entries, statistics, the
--                   places of packets; the calls of DPDK as parameters, with what its documentation says
--   Bkpr            the back pressure of onvm/onvm_mgr/onvm_pkt.c, with the list of marked flows
--   Pkt             the packet paths of onvm/onvm_mgr/onvm_pkt.c; Pkt/Tx has the transmit side
--   Nf              the life of NFs, onvm/onvm_mgr/onvm_nf.c
--   Wake            the wakeup round of onvm/onvm_mgr/onvm_wakemgr.c
--   Watch           extract_sc_list of onvm/shared/onvm_flow_dir.c, marking and clearing all chains of
--                   an NF; Watch/Nfs has the watch list of onvm/onvm_mgr/onvm_nf.c
--   FlowDir         onvm/shared/onvm_flow_table.c and onvm/shared/onvm_flow_dir.c over rte_hash;
--                   FlowDir/Entries has what goes over all entries, FlowDir/Create the allocation
--   Sort            onvm/shared/onvm_sort.c over qsort
--   Nflib           the loop of an NF and its calls, onvm/onvm_nflib/onvm_nflib.c; what the manager does
--                   while the NF waits is a list of turns
--   Threads         onvm/onvm_mgr/main.c: which clients the threads are given, and the bodies of their loops;
--                   Threads/System has the threads side by side, with the NFs and the requests
--   Installer       examples/flow_rule_installer/flow_rule_installer.c, the NF that installs flow rules:
--                   Installer/Rules has the rules of its file and the packets of unknown flows,
--                   Installer/Rows the chains, Installer/Parse the file of services, over fgets and atoi
--   Apps            the packet handlers of examples/bridge/bridge.c, examples/basic_monitor/monitor.c and
--                   examples/simple_forward/forward.c
--   Args            the command line, onvm/onvm_mgr/onvm_args.c, over strtoul
-- In a component, the parent file has the definitions, the files below it the proofs, and its Tests
-- file concrete runs. Functions carry the names of the C functions; a pointer is the number of what it
-- points to, and `none` is NULL, or, as the result of a whole function, an access outside an array or
-- through NULL. The number of a service in a step of a chain is taken to be one of the configured
-- services, an entry that has a chain is taken to keep it while its flow is marked, and a row of `services`
-- gives 0 behind its end. A `uintN_t` keeps its wrap-around where it can occur. The configuration is that of
-- common.h: back pressure by approach 1 with a ring of marked flows, no global mode, no cgroups; the
-- watch list is that of the timer mode, which common.h leaves off, and the packet paths are those without.
--
-- A model of the world keeps, besides the state of the program, where packets went: taken by a port,
-- freed, or let go of with neither. A call of a
-- handler is atomic: receiving a burst, serving a client and flushing are the steps that interleave, and
-- every thread has buffers of its own. Loops run over lists, or count down from a bound that the C loop has too (32 clients,
-- 8 NFs of a service, the bits of a word), so that no theorem depends on fuel; the search for the
-- highest bit has a bound of 32 rounds, and the loop over a port mask one of 65, and both are shown to end
-- within them.
--
-- Not modelled: the timers of the wakeup thread, statistics on the terminal, the set-up of DPDK and the
-- memory zones, launching the threads, set-up and arguments of the NF library with its measured costs,
-- and the other example NFs.
pub mod Action
pub mod Apps
pub mod Args
pub mod Bits
pub mod Bkpr
pub mod Chain
pub mod FlowDir
pub mod Headers
pub mod Histogram
pub mod Installer
pub mod Mgr
pub mod Nf
pub mod Nflib
pub mod Pkt
pub mod Prelude
pub mod Ringbuf
pub mod Sort
pub mod Threads
pub mod Wake
pub mod Watch
