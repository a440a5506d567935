-- ===== src/Programs/UdpSender.antt =====
-- apps/udp_sender_main.cpp, over the system's calls; `now` is the time of the steady clock. A socket
-- is closed as it goes out of scope.
use driveflow_runtime.Prelude.{ℕ, List, [], ◌∷◌, length}
use driveflow_runtime.Prelude.Result.{Result, ok, throws, ◌>>=◌}
use driveflow_runtime.Net.{Text, Ipv4Endpoint}
use driveflow_runtime.Net.Socket.{System, Call, after, closing, open_socket, send_to}
use driveflow_runtime.Protocol.Packet.{encode_packet}
use driveflow_runtime.Protocol.Sensor.{
  SensorPayload, imu_sample, message_type, encode_sensor_payload,
}
use driveflow_runtime.Programs.Output.{
  Piece, literal, number, Exit, what, print_endpoint, parse_port,
}

-- 0.0, 0.0, 9.81 and 0.01, -0.02, 0.03 as floats.
abbrev pub sent_sample : SensorPayload
sent_sample = imu_sample (record {
  linear_acceleration_mps2 = record { x = 0; y = 0; z = 0x411cf5c3 };
  angular_velocity_rps = record { x = 0x3c23d70a; y = 0xbca3d70a; z = 0x3cf5c28f };
})

unfoldable pub make_packet : ℕ → Result (List ℕ)
make_packet now = encode_sensor_payload sent_sample >>= λ payload.
    encode_packet (message_type sent_sample) 1 now payload

abbrev sent_message : List ℕ → Ipv4Endpoint → List Piece
sent_message packet destination =
    literal "sent "
    ∷ number (length packet)
    ∷ literal " bytes to "
    ∷ print_endpoint destination (literal "\n" ∷ [])

abbrev usage : Exit
usage = record {
  status = 1;
  out = [];
  err = literal "usage: driveflow_udp_sender <IPv4-address> <port>\n" ∷ [];
}

-- The `catch` of `main`, and its end.
unfoldable pub sender_exit : Result (List Piece) → Exit
sender_exit (ok printed) = record { status = 0; out = printed; err = [] }
sender_exit (throws e) = record {
  status = 2;
  out = [];
  err = literal "send failed: " ∷ literal (what e) ∷ literal "\n" ∷ [];
}

module _ (system : System) where
  -- The body of the `try`.
  unfoldable pub send_sample : Text → Text → ℕ → Call system (List Piece)
  unfolding make_packet
  send_sample address port_text now s =
      after system (parse_port port_text, s)
        λ port s1.
          let destination : Ipv4Endpoint = record { address = address; port = port } in
          after system (make_packet now, s1)
            λ packet s2. after system (open_socket system s2) λ fd s3. closing system fd (
              after system (send_to system fd packet destination s3)
                λ _ s4. (ok (sent_message packet destination), s4))

  -- `argv`, and the time where it is asked for.
  unfoldable pub sender_main : List Text → ℕ → system.State → Exit × system.State
  unfolding send_sample sender_exit
  sender_main (program ∷ address ∷ port ∷ []) now s =
      let (result, s') = send_sample address port now s in (sender_exit result, s')
  sender_main [] now s = (usage, s)
  sender_main (program ∷ []) now s = (usage, s)
  sender_main (program ∷ address ∷ []) now s = (usage, s)
  sender_main (program ∷ address ∷ port ∷ more ∷ rest) now s = (usage, s)
