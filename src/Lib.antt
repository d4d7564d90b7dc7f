-- ===== src/Lib.antt =====
-- A model of the embedded communication testbed: a packet protocol with a checksum, a TCP receiver
-- that answers packets, a TCP sender with retries and heartbeats, a UDP receiver and a UDP sender
-- with retries, and a TCP fault injector that stands between the TCP sender and the TCP receiver.
--
-- The parts, and the files that model them:
--   Protocol        protocol/packet.hpp: the constants, MessageType and Packet. Protocol/Error has the
--                   exceptions and their messages.
--   Protocol/Codec  protocol/codec.cpp: encode_packet, get_payload_length and decode_packet.
--                   RoundTrip, Canonical and Corruption are about frames.
--   Protocol/Crc32  protocol/crc32.cpp: crc32, with its outer and inner loop.
--   Os              the system calls that the programs make, as a record over a state `World` that the
--                   model does not look into. Os/Laws is what POSIX documents of send and recv.
--   Os/Stream       send_all, recv_exact, send_packet and receive_packet of tcp/receiver.cpp and
--                   fault_injector/tcp_proxy.cpp, which differ in what they throw: a `Policy`.
--   Os/Datagram     send_packet and receive_packet of udp/sender.cpp and udp/receiver.cpp.
--   TcpReceiver     tcp/receiver.cpp, from create_server_socket to main.
--   TcpSender       tcp/sender.cpp up to wait_for_response; TcpSender/Connection has connect_with_retry and
--                   TcpSender/Run has main.
--   UdpReceiver     udp/receiver.cpp, with the loop on expected_sequence as `advance`.
--   UdpSender       udp/sender.cpp, with wait_for_ack and send_data_with_retry.
--   FaultInjector   fault_injector/tcp_proxy.cpp: the relay; FaultInjector/Server has its sockets and main.
--   Common          the control flow of C++ (a call returns, throws, or has not returned yet), sets of
--                   sequences, lists, and the laws of the bit operations.
--   Tests           a kernel for tests, and the programs run over it.
--
-- A program is a function of the kernel's state, its variables and what it has printed, the newest
-- line first. A body of a loop is a function of its own; the branches follow the source in their
-- order. An exception leaves the state as it was when it was thrown. A set of sequences is the list
-- of its members. A `do` block follows the statements of the source.
--
-- Loops: `rounds` bounds the rounds of one call of send_all, recv_exact, wait_for_response or
-- wait_for_ack, `turns` those of a server's loop on packets, and `accepts` the calls of accept. A
-- loop that has used them up gives `running`, which is no result. For send_all and recv_exact more
-- rounds than bytes and interruptions are enough, and for receive_packet more than 1040 and the
-- interruptions; for `advance` one more than there are members; the attempts of the two senders and
-- of connect_with_retry are counted by the source. The waits of the senders end by the clock, which
-- is a parameter, and the servers' own loops are unbounded in the source.
--
-- The system calls are parameters: sockets, poll, send, recv, sendto, recvfrom, the clock. Not
-- modelled: the Python scripts under reliability_verification/, which start the programs and
-- collect their output; the text of strerror, for which errno stands; SIGPIPE, which ends a process
-- without a result; and that the two output streams are two.
--
-- What the theorems suppose of the kernel: for streams, the laws of Os/Laws; for datagrams, that
-- `recvfrom` gives the first bytes of a datagram, as many as the buffer holds. Words of 16 and 32 bits
-- and the `int` that counts the DATA of the UDP receiver are numbers with the wrap-around written out.
pub mod Common
pub mod Protocol
pub mod Os
pub mod TcpReceiver
pub mod TcpSender
pub mod UdpReceiver
pub mod UdpSender
pub mod FaultInjector
pub mod Tests
