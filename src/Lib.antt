-- ===== src/Lib.antt =====
-- The DriveFlow runtime: sensor data over UDP, from the bytes of a datagram to validated samples,
-- with per-source sequence tracking and health.
--
-- The parts and their files. A datagram is decoded by protocol/packet, its payload by
-- protocol/sensor_payload. The receiver hands packets to the health monitor, which runs the stream
-- tracker on each of them, and to the worker pipeline, whose workers call the sample processor. The
-- programs of apps/ read their arguments, run these parts and print.
--   * Prelude: tests, lists, bits, 64-bit integers, results and option parsing (std::from_chars for
--     unsigned types) shared by all parts.
--   * Protocol/Wire: src/protocol/wire.hpp (write_big_endian, read_big_endian). A span of bytes is
--     a list of numbers below 256. write_float and write_double are these on bit patterns.
--   * Protocol/Packet: src/protocol/packet.cpp and include/driveflow/protocol/packet.hpp
--     (update_crc, packet_crc, crc32, encode_packet, decode_packet).
--   * Protocol/Sensor: src/protocol/sensor_payload.cpp and its header (validate, encode and decode
--     of each payload type, encode_sensor_payload, decode_sensor_payload). A float or a double is
--     its IEEE 754 bit pattern; std::isfinite and the comparisons are written on bit patterns.
--   * Net: the endpoint and the datagram of include/driveflow/net/udp_socket.hpp; Net/Socket has
--     src/net/udp_socket.cpp (open, bind_to, send_to, try_receive and the rest) over the system's
--     calls, which are a parameter; Net/Socket/Owned counts the descriptors that each call leaves open.
--   * Runtime/Received: ReceivedPacket, SensorSource and the 64-bit counters.
--   * Runtime/Tracker: src/runtime/sensor_stream_tracker.cpp. `observe` is SensorStreamTracker::
--     observe; History is the abstract account of all numbers seen that the bitmap refines, Spec the
--     reference for the whole class, Stream a stream whose numbers only go up.
--   * Runtime/Health: src/runtime/source_health_monitor.cpp. Health/Defs has the record of one
--     source and its updates, Health/Monitor the table and the report, Health/Ring the ring buffer
--     of timestamps, Health/Events any sequence of calls, Health/Order the order of the report, and
--     Health/Status, Health/Source, Health/Recovery and Health/Table what holds of the records. The
--     rate, a double in the code, is kept as the two integers that it is the quotient of.
--   * Runtime/Pipeline: src/runtime/worker_pipeline.cpp. The state under state_mutex_ with the
--     place of each worker thread, and which threads sleep at the condition variable with the
--     notifications that are out; every critical section is one step, with the notification that
--     follows it, and Pipeline/Run has every interleaving of clients and workers, with wakeups that
--     nothing notified. A packet processor may return or throw. Pipeline/Create has the constructor,
--     where reserving the threads or std::thread may throw, and Pipeline/Created what it comes to.
--   * Runtime/Samples: src/runtime/sensor_sample_processor.cpp (process and its counters).
--   * Runtime/Receiver: src/runtime/epoll_receiver.cpp, `poll` from epoll_wait on, in Receiver/Setup
--     with the check of its timeout and those of the configuration, and in Receiver/Create the constructor,
--     with what it closes where it throws. The kernel is a parameter: the result of epoll_wait, and
--     what each non-blocking receive gives.
--   * Runtime/Config: src/runtime/runtime_config.cpp, the option parser, with inet_pton as a
--     parameter.
--   * Runtime/Loop: src/runtime/runtime.cpp. Loop/Defs has validate_config, Loop/State the state of
--     Runtime::run and Loop/Steps its steps: of the thread that polls, hands packets on and sums up,
--     and of the worker threads with the packet processor, in any order. An exception of the
--     receiver leaves the loop, and the destructor of the pipeline stops it. Loop/Started has the
--     beginning of a run, Loop/Stopped the steps after a stop, Loop/Joined those of the join.
--   * Simulator: src/simulator/sensor_simulator.cpp and its header. Simulator/Config has the
--     configuration and validate_runtime_config, Simulator/Samples the samples and packets generated,
--     Simulator/Faults the class FaultInjector (process, finish), Simulator/Send wait_until_or_stop
--     and send_batch, Simulator/Run run_simulator, Simulator/Parser parse_simulator_config.
--     Simulator/World is what these run in, and a parameter: the stop predicate, the steady clock,
--     sleep_until and the socket. Waiting has the nanoseconds left as fuel, which is enough on a
--     clock that a sleep brings on; the loop of run_simulator, which may be without end, has a number
--     of rounds as fuel, and one more than the packet count is enough.
--   * System: the simulator, the receiver and the tracker together, over a network that delivers every
--     datagram in the order sent.
--   * Programs: apps/udp_sender_main.cpp (UdpSender), apps/udp_receiver_main.cpp (UdpReceiver),
--     apps/sensor_simulator_main.cpp (SensorSimulator) and apps/runtime_main.cpp (Runtime, with the
--     constructor of the class Runtime), each as its exit status and what it prints, with to_string
--     and the usage texts. A number printed stays a number. The readings of the clock, what
--     std::signal returns and the flag that a signal sets are parameters. What the runtime program
--     comes to is a relation, since its threads interleave.
-- The modules named Tests run the parts at concrete data.
--
-- Numbers are natural numbers; each std::uint64_t counter wraps at 2 ^ 64 where the code's does and
-- saturates where the code's does. The other loops are structural recursions on a list, on a width
-- or on a count of bits, so that no fuel is needed.
--
-- Not modelled: the characters that the standard library prints of a number; the moves of a
-- FileDescriptor, which the receiver does not use (src/runtime/epoll_receiver.cpp); the handlers of
-- signals, which only set the flag; exhaustion of memory but where the threads are reserved.
pub mod Prelude
pub mod Protocol
pub mod Net
pub mod Runtime
pub mod System
pub mod Programs
pub mod Simulator
