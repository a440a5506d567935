-- ===== src/Programs/UdpReceiver.antt =====
-- apps/udp_receiver_main.cpp, over the system's calls.
use driveflow_runtime.Prelude.{ℕ, none, some, List, [], ◌∷◌, ◌++◌, length}
use driveflow_runtime.Prelude.Result.{Result, ok, throws, Exception}
use driveflow_runtime.Net.{Text, Ipv4Endpoint, ReceivedDatagram}
use driveflow_runtime.Net.Socket.{
  System, Call, after, guarded, closing, bind_to, local_endpoint, receive, max_udp_payload_size,
}
use driveflow_runtime.Protocol.Packet.{Packet, DecodeResult, to_raw, decode_packet}
use driveflow_runtime.Protocol.Packet
use driveflow_runtime.Protocol.Sensor.{
  SensorPayload, DecodeSensorPayloadResult, imu_sample, gnss_fix, camera, decode_sensor_payload,
}
use driveflow_runtime.Protocol.Sensor
use driveflow_runtime.Programs.Output.{
  Piece, literal, number, float, double, Exit, what, print_endpoint, parse_port,
}

unfoldable pub print_sensor_payload : SensorPayload → List Piece
print_sensor_payload (imu_sample value) =
    literal " acceleration=("
    ∷ float value.linear_acceleration_mps2.x
    ∷ literal ","
    ∷ float value.linear_acceleration_mps2.y
    ∷ literal ","
    ∷ float value.linear_acceleration_mps2.z
    ∷ literal ") angular_velocity=("
    ∷ float value.angular_velocity_rps.x
    ∷ literal ","
    ∷ float value.angular_velocity_rps.y
    ∷ literal ","
    ∷ float value.angular_velocity_rps.z
    ∷ literal ")"
    ∷ []
print_sensor_payload (gnss_fix value) =
    literal " latitude="
    ∷ double value.latitude_deg
    ∷ literal " longitude="
    ∷ double value.longitude_deg
    ∷ literal " altitude_m="
    ∷ double value.altitude_m
    ∷ []
print_sensor_payload (camera value) =
    literal " frame_id="
    ∷ number value.frame_id
    ∷ literal " dimensions="
    ∷ number value.width
    ∷ literal "x"
    ∷ number value.height
    ∷ literal " extra_bytes="
    ∷ number (length value.extra_data)
    ∷ []

abbrev pub listening : Ipv4Endpoint → List Piece
listening actual = literal "listening on " ∷ print_endpoint actual (literal "\n" ∷ [])

-- The line that reports a packet and its payload.
abbrev pub received_line : Ipv4Endpoint → Packet → SensorPayload → List Piece
received_line source packet payload =
    literal "received packet from "
    ∷ print_endpoint source (
        literal " type="
        ∷ number (to_raw packet.header.message_type)
        ∷ literal " sequence="
        ∷ number packet.header.sequence_number
        ∷ literal " payload_bytes="
        ∷ number (length packet.payload)
        ∷ (print_sensor_payload payload ++ literal "\n" ∷ []))

unfoldable pub report_payload :
    Ipv4Endpoint → Ipv4Endpoint → Packet → DecodeSensorPayloadResult → Exit
unfolding print_sensor_payload
report_payload actual source packet decoded = elim decoded.payload [
  | none ↦ record {
    status = 3;
    out = listening actual;
    err =
        literal "rejected sensor payload from "
        ∷ print_endpoint source
            (literal ": " ∷ literal (Sensor.to_string decoded.error) ∷ literal "\n" ∷ []);
  }
  | some payload ↦ record {
    status = 0;
    out = listening actual ++ received_line source packet payload;
    err = [];
  }
]

unfoldable pub report_packet : Ipv4Endpoint → Ipv4Endpoint → DecodeResult → Exit
unfolding report_payload
report_packet actual source decoded = elim decoded.packet [
  | none ↦ record {
    status = 2;
    out = listening actual;
    err =
        literal "rejected packet from "
        ∷ print_endpoint source
            (literal ": " ∷ literal (Packet.to_string decoded.error) ∷ literal "\n" ∷ []);
  }
  | some packet ↦
      report_payload actual source packet
        (decode_sensor_payload packet.header.message_type packet.payload)
]

-- The `catch` of `main`, where `printed` is what was printed before.
abbrev receive_failed : List Piece → Exception → Exit
receive_failed printed e = record {
  status = 4;
  out = printed;
  err = literal "receive failed: " ∷ literal (what e) ∷ literal "\n" ∷ [];
}

abbrev usage : Exit
usage = record {
  status = 1;
  out = [];
  err = literal "usage: driveflow_udp_receiver <bind-IPv4-address> <port>\n" ∷ [];
}

-- What follows `socket.receive()`.
unfoldable pub report_datagram : Ipv4Endpoint → Result ReceivedDatagram → Exit
unfolding report_packet
report_datagram actual (throws e) = receive_failed (listening actual) e
report_datagram actual (ok datagram) =
    report_packet actual datagram.source (decode_packet datagram.bytes)

module _ (system : System) where
  -- The socket, which is kept, and its endpoint.
  unfoldable pub listen : Text → Text → Call system (ℕ × Ipv4Endpoint)
  listen address port_text s =
      after system (parse_port port_text, s)
        λ port s1.
          after system (bind_to system (record { address = address; port = port }) s1) λ fd s2.
            guarded system fd
              (after system (local_endpoint system fd s2) λ actual s3. (ok (fd, actual), s3))

  -- What follows, up to the end of the socket's scope.
  unfoldable pub receive_one : Result (ℕ × Ipv4Endpoint) × system.State → Exit × system.State
  unfolding report_datagram
  receive_one (Result.throws e, s) = (receive_failed [] e, s)
  receive_one (Result.ok (fd, actual), s) =
      let (result, s') = closing system fd (receive system fd max_udp_payload_size s) in
      (report_datagram actual result, s')

  unfoldable pub receiver_main : List Text → system.State → Exit × system.State
  unfolding listen receive_one
  receiver_main (program ∷ address ∷ port ∷ []) s = receive_one (listen address port s)
  receiver_main [] s = (usage, s)
  receiver_main (program ∷ []) s = (usage, s)
  receiver_main (program ∷ address ∷ []) s = (usage, s)
  receiver_main (program ∷ address ∷ port ∷ more ∷ rest) s = (usage, s)
