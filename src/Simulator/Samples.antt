-- ===== src/Simulator/Samples.antt =====
-- sensor_simulator.cpp: the samples and the packets that the simulator generates. The numbers of a
-- sample are the bit patterns of the code's floating-point constants.
use driveflow_runtime.Prelude.{ℕ, zero, suc, ◌%◌, List, [], ◌∷◌}
use driveflow_runtime.Prelude.Result.{Result, ok, throws, ◌>>=◌}
use driveflow_runtime.Protocol.Packet.{encode_packet}
use driveflow_runtime.Protocol.Sensor.{
  SensorPayload, imu_sample, gnss_fix, camera, message_type, encode_sensor_payload,
}
use driveflow_runtime.Simulator.Config.{SensorType, imu, gnss, camera_meta, other}
pub mod Delivery

-- The loop over `extra_data`, from `index` on with `left` rounds to go.
unfoldable pub ramp : ℕ → ℕ → List ℕ
ramp zero index = []
ramp (suc left) index = index % 256 ∷ ramp left (suc index)

abbrev pub sample_imu : SensorPayload
sample_imu = imu_sample (record {
  linear_acceleration_mps2 = record { x = 0; y = 0; z = 0x411cf5c3 };
  angular_velocity_rps = record { x = 0x3c23d70a; y = 0xbca3d70a; z = 0x3cf5c28f };
})

unfoldable pub make_sensor_sample : SensorType → ℕ → ℕ → SensorPayload
unfolding ramp
make_sensor_sample camera_meta sequence_number camera_extra_bytes = camera (record {
  frame_id = sequence_number;
  width = 1920;
  height = 1080;
  exposure_time_us = 8000;
  extra_data = ramp camera_extra_bytes 0;
})
make_sensor_sample gnss sequence_number camera_extra_bytes = gnss_fix (record {
  latitude_deg = 0x403f3afb7e90ff97;
  longitude_deg = 0x405e5e5119ce075f;
  altitude_m = 0x4010000000000000;
  horizontal_accuracy_m = 0x3fc00000;
  vertical_accuracy_m = 0x40200000;
})
make_sensor_sample imu sequence_number camera_extra_bytes = sample_imu
make_sensor_sample (other n) sequence_number camera_extra_bytes = sample_imu

-- The part of the loop of `run_simulator` that makes a packet.
unfoldable pub generate : SensorType → ℕ → ℕ → ℕ → Result (List ℕ)
unfolding make_sensor_sample
generate sensor camera_extra_bytes sequence_number timestamp_ns =
    let sample = make_sensor_sample sensor sequence_number camera_extra_bytes in
    encode_sensor_payload sample >>= λ payload.
    encode_packet (message_type sample) sequence_number timestamp_ns payload
