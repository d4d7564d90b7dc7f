-- ===== src/Tests/Injector.antt =====
-- The fault injector over the kernel of the tests.
use embedded_comm_reliabilit.Common.{◌≡◌, refl, [], ◌∷◌, ◌++◌, arith, ok}
use embedded_comm_reliabilit.FaultInjector.{corrupt_data, parse_fault_mode}
use embedded_comm_reliabilit.FaultInjector.Server
use embedded_comm_reliabilit.FaultInjector.Runs.{Proceeds, main-Proceeds}
use embedded_comm_reliabilit.FaultInjector.Corruption.{Rejected, corrupt_frame-Rejected}
use embedded_comm_reliabilit.Tests.Kernel.{Wire, wire}
use embedded_comm_reliabilit.Tests.Protocol.{
  greeting, greeting_frame, greeting-IsPacket, greeting_encoded,
}

-- One sender whose first packet is DATA.
abbrev sending : Wire
sending = record {
  incoming = greeting_frame ++ greeting_frame;
  outgoing = [];
  signals = 1;
  clock = 0;
  clients = 1;
}

corrupt_data_parsed : parse_fault_mode ("corrupt-data" ∷ []) ≡ ok corrupt_data
unfolding parse_fault_mode
corrupt_data_parsed = refl

main-Proceeds_example :
    Proceeds wire 40 sending corrupt_data (Server.main wire 40 2 3 ("corrupt-data" ∷ []) sending).1
main-Proceeds_example =
    main-Proceeds wire 40 corrupt_data 2 3 ("corrupt-data" ∷ []) sending corrupt_data_parsed

corrupt_frame-Rejected_example : Rejected greeting_frame
corrupt_frame-Rejected_example =
    corrupt_frame-Rejected greeting greeting_frame greeting-IsPacket (omega arith) greeting_encoded
