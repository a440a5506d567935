-- ===== src/Programs/Tests.antt =====
-- Runs of the programs.
use driveflow_runtime.Prelude.{
  ℕ, ◌+◌, ◌%◌, ◌^◌, false, true, ◌≡◌, ◌↔◌, refl, List, [], ◌∷◌, ◌++◌, arith,
}
use driveflow_runtime.Prelude.Parsed
use driveflow_runtime.Prelude.Parsing.{parse_unsigned}
use driveflow_runtime.Prelude.Result.{ok}
use driveflow_runtime.Net.{Text, Ipv4Endpoint, text_eq}
use driveflow_runtime.Net.Socket.{bind_to, local_endpoint, receive}
use driveflow_runtime.Protocol.Tests.{datagram, datagram-IsBytes}
use driveflow_runtime.Programs.Output.{literal, number, print_endpoint, parse_port}
use driveflow_runtime.Programs.UdpSender.{sent_sample, make_packet, sender_main}
use driveflow_runtime.Programs.UdpReceiver.{
  listening, print_sensor_payload, report_datagram, receiver_main,
}
use driveflow_runtime.Programs.Exchange.{
  IsEncoding, report_datagram-encodings, make_packet_received,
}
use driveflow_runtime.Programs.Owned.{mains_close}
use driveflow_runtime.Programs.SensorSimulator.{
  help_requested, simulator_main, starting, stopped_line,
}
use driveflow_runtime.Programs.Simulated.{simulator_main_complete}
use driveflow_runtime.Simulator.Send.{SimulationSummary}
use driveflow_runtime.Simulator.World.{finished}
use driveflow_runtime.Simulator.Tests.{clock, clock-IsSteady, clock-IsQuiet, tenth_of_second}
use driveflow_runtime.Simulator.Tests.Arguments.{
  no_double, any_address, arguments, expected, accepted,
}
use driveflow_runtime.Runtime.Tests.Loop
use driveflow_runtime.Runtime.Tests.Sockets.{machine, machine-IsSystem}

abbrev here : Ipv4Endpoint
here = record { address = 0x31 ∷ []; port = 9000 }

report_datagram-encodings_example :
    ((report_datagram here (ok (record { bytes = datagram; source = here }))).status ≡ 0)
    ↔ IsEncoding datagram
report_datagram-encodings_example = report_datagram-encodings here here datagram datagram-IsBytes

make_packet_received_example :
    (bytes : List ℕ) × ((make_packet 7 ≡ ok bytes)
      × (report_datagram here (ok (record { bytes = bytes; source = here })) ≡ record {
        status = 0;
        out =
            listening here
            ++ literal "received packet from "
              ∷ print_endpoint here (
                  literal " type="
                  ∷ number 1
                  ∷ literal " sequence="
                  ∷ number 1
                  ∷ literal " payload_bytes="
                  ∷ number 24
                  ∷ (print_sensor_payload sent_sample ++ literal "\n" ∷ []));
        err = [];
      }))
make_packet_received_example = make_packet_received 7 here here (omega arith)

abbrev argv : List Text
argv = Parsed.text "driveflow_udp_sender" ∷ Parsed.text "127.0.0.1" ∷ Parsed.text "9000" ∷ []

mains_close_example :
    ((sender_main machine argv 7 (λ y. 0)).1 4 ≡ 0)
    × ((receiver_main machine argv (λ y. 0)).1 4 ≡ 0)
mains_close_example = mains_close machine (λ s y. s y) 4 machine-IsSystem argv 7 (λ y. 0)

-- Nothing is sent on this machine, and nothing waits to be received.
argv_failed : (receiver_main machine argv (λ y. 0)).0.status ≡ 4
unfolding receiver_main parse_port parse_unsigned Parsed.text bind_to local_endpoint receive
argv_failed = refl

abbrev simulator_argv : List Text
simulator_argv = Parsed.text "driveflow_sensor_simulator" ∷ arguments

no_help : help_requested arguments ≡ false
unfolding help_requested Parsed.text text_eq
no_help = refl

simulator_main_complete_example :
    (summary : SimulationSummary) × ((simulator_main clock no_double any_address tenth_of_second 121
          true simulator_argv 5
        ≡ finished
            (record { status = 0; out = starting expected ++ stopped_line summary; err = [] }))
      × (summary.packets_generated ≡ 120)
      × ((summary.packets_sent + summary.packets_dropped) % 2 ^ 64
          ≡ (120 + summary.duplicate_packets_sent) % 2 ^ 64))
simulator_main_complete_example =
    simulator_main_complete clock no_double any_address tenth_of_second clock-IsSteady clock-IsQuiet
      121 120 simulator_argv expected 5 no_help accepted refl (omega arith)

-- The run of one packet, from the command line on.
abbrev runtime_argv : List Text
runtime_argv =
    Parsed.text "driveflow_runtime"
    ∷ Parsed.text "--workers"
    ∷ Parsed.text "1"
    ∷ Parsed.text "--queue-capacity"
    ∷ Parsed.text "1"
    ∷ []
