-- ===== src/Protocol/Sensor/Layout.antt =====
-- sensor_payload.cpp: the bytes of each payload, field by field, and that the encoder writes them
-- and the decoder reads them.
use mathlib.Core.List.{append-nil}
use native.Mathlib.Nat.{mod-eq_of_lt}
use driveflow_runtime.Prelude.{
  ℕ, zero, suc, ◌+◌, ◌*◌, ◌^◌, ◌≤◌, ◌<◌, ◌≡◌, refl, sym, ap, ◌∙◌, List, [], ◌∷◌, ◌++◌, arith,
  length, take, drop, replicate_add, drop_add, drop-replicate, length-drop, All-append,
}
use driveflow_runtime.Protocol.Wire.{
  be_bytes, write_big_endian, read_big_endian, IsBytes, IsByte, be_bytes-IsBytes, read-field,
  read-behind,
}
use driveflow_runtime.Protocol.Sensor.Defs.{
  ImuSample, GnssFix, CameraMeta, write_imu, write_gnss, write_camera, read_imu, read_gnss,
  read_camera,
}

abbrev pub imu_layout : ImuSample → List ℕ
imu_layout s =
    be_bytes 4 s.linear_acceleration_mps2.x
    ++ (be_bytes 4 s.linear_acceleration_mps2.y
        ++ (be_bytes 4 s.linear_acceleration_mps2.z
            ++ (be_bytes 4 s.angular_velocity_rps.x
                ++ (be_bytes 4 s.angular_velocity_rps.y
                    ++ (be_bytes 4 s.angular_velocity_rps.z ++ [])))))

abbrev pub gnss_layout : GnssFix → List ℕ
gnss_layout f =
    be_bytes 8 f.latitude_deg
    ++ (be_bytes 8 f.longitude_deg
        ++ (be_bytes 8 f.altitude_m
            ++ (be_bytes 4 f.horizontal_accuracy_m ++ (be_bytes 4 f.vertical_accuracy_m ++ []))))

abbrev pub camera_layout : CameraMeta → List ℕ
camera_layout m =
    be_bytes 8 m.frame_id
    ++ (be_bytes 4 m.width
        ++ (be_bytes 4 m.height
            ++ (be_bytes 4 m.exposure_time_us
                ++ (be_bytes 4 (length m.extra_data) ++ m.extra_data))))

pub write_imu-layout : (s : ImuSample) → write_imu s ≡ imu_layout s
unfolding write_imu write_big_endian
write_imu-layout s = refl

pub write_gnss-layout : (f : GnssFix) → write_gnss f ≡ gnss_layout f
unfolding write_gnss write_big_endian
write_gnss-layout f = refl

pub write_camera-layout :
    (m : CameraMeta) → length m.extra_data < 2 ^ 32 → write_camera m ≡ camera_layout m
unfolding write_camera write_big_endian
write_camera-layout m h =
    rw (replicate_add {A = ℕ} 24 (length m.extra_data) 0, drop_add 24 (length m.extra_data))
      (rw (drop-replicate {A = ℕ} (length m.extra_data) 0, append-nil m.extra_data, mod-eq_of_lt h)
        refl)

-- The fields fit the widths of their types.
pub record IsImu (s : ImuSample) : Type 0 where
  pub ax : s.linear_acceleration_mps2.x < 2 ^ 32
  pub ay : s.linear_acceleration_mps2.y < 2 ^ 32
  pub az : s.linear_acceleration_mps2.z < 2 ^ 32
  pub wx : s.angular_velocity_rps.x < 2 ^ 32
  pub wy : s.angular_velocity_rps.y < 2 ^ 32
  pub wz : s.angular_velocity_rps.z < 2 ^ 32

pub record IsGnss (f : GnssFix) : Type 0 where
  pub latitude : f.latitude_deg < 2 ^ 64
  pub longitude : f.longitude_deg < 2 ^ 64
  pub altitude : f.altitude_m < 2 ^ 64
  pub horizontal : f.horizontal_accuracy_m < 2 ^ 32
  pub vertical : f.vertical_accuracy_m < 2 ^ 32

pub record IsCamera (m : CameraMeta) : Type 0 where
  pub frame : m.frame_id < 2 ^ 64
  pub columns : m.width < 2 ^ 32
  pub rows : m.height < 2 ^ 32
  pub exposure : m.exposure_time_us < 2 ^ 32
  pub extra : IsBytes m.extra_data

pub imu_layout-IsBytes : (s : ImuSample) → IsBytes (imu_layout s)
imu_layout-IsBytes s = omega arith

pub gnss_layout-IsBytes : (f : GnssFix) → IsBytes (gnss_layout f)
gnss_layout-IsBytes f = omega arith

pub camera_layout-IsBytes : (m : CameraMeta) → IsBytes m.extra_data → IsBytes (camera_layout m)
camera_layout-IsBytes m b =
    before 8 m.frame_id
      (be_bytes 4 m.width
        ++ (be_bytes 4 m.height
            ++ (be_bytes 4 m.exposure_time_us
                ++ (be_bytes 4 (length m.extra_data) ++ m.extra_data))))
      (before 4 m.width
        (be_bytes 4 m.height
          ++ (be_bytes 4 m.exposure_time_us ++ (be_bytes 4 (length m.extra_data) ++ m.extra_data)))
        (before 4 m.height
          (be_bytes 4 m.exposure_time_us ++ (be_bytes 4 (length m.extra_data) ++ m.extra_data))
          (before 4 m.exposure_time_us (be_bytes 4 (length m.extra_data) ++ m.extra_data)
            (before 4 (length m.extra_data) m.extra_data b))))
  where
    before : (k v : ℕ) (rest : List ℕ) → IsBytes rest → IsBytes (be_bytes k v ++ rest)
    before k v rest h = All-append IsByte (be_bytes k v) rest (be_bytes-IsBytes k v) h

pub read_imu-layout : (s : ImuSample) → IsImu s → read_imu (imu_layout s) ≡ s
unfolding read_imu
read_imu-layout s h = λ i. record {
  linear_acceleration_mps2 = record {
    x = read 0 s.linear_acceleration_mps2.x (omega arith) h.ax refl i;
    y = read 4 s.linear_acceleration_mps2.y (omega arith) h.ay refl i;
    z = read 8 s.linear_acceleration_mps2.z (omega arith) h.az refl i;
  };
  angular_velocity_rps = record {
    x = read 12 s.angular_velocity_rps.x (omega arith) h.wx refl i;
    y = read 16 s.angular_velocity_rps.y (omega arith) h.wy refl i;
    z = read 20 s.angular_velocity_rps.z (omega arith) h.wz refl i;
  };
}
  where
    read :
        (pos v : ℕ)
        → pos + 4 ≤ 24
        → v < 2 ^ 32
        → take 4 (drop pos (imu_layout s)) ≡ be_bytes 4 v
        → read_big_endian 4 (imu_layout s) pos ≡ v
    read pos v room lt e =
        read-field (imu_layout s) (imu_layout-IsBytes s) 4 v pos (omega arith) lt e

pub read_gnss-layout : (f : GnssFix) → IsGnss f → read_gnss (gnss_layout f) ≡ f
unfolding read_gnss
read_gnss-layout f h = λ i. record {
  latitude_deg = read 8 0 f.latitude_deg (omega arith) h.latitude refl i;
  longitude_deg = read 8 8 f.longitude_deg (omega arith) h.longitude refl i;
  altitude_m = read 8 16 f.altitude_m (omega arith) h.altitude refl i;
  horizontal_accuracy_m = read 4 24 f.horizontal_accuracy_m (omega arith) h.horizontal refl i;
  vertical_accuracy_m = read 4 28 f.vertical_accuracy_m (omega arith) h.vertical refl i;
}
  where
    read :
        (k pos v : ℕ)
        → pos + k ≤ 32
        → v < 2 ^ (k * 8)
        → take k (drop pos (gnss_layout f)) ≡ be_bytes k v
        → read_big_endian k (gnss_layout f) pos ≡ v
    read k pos v room lt e =
        read-field (gnss_layout f) (gnss_layout-IsBytes f) k v pos (omega arith) lt e

module _ (m : CameraMeta) (h : IsCamera m) where
  camera_field :
      (k pos v : ℕ)
      → pos + k ≤ 24
      → v < 2 ^ (k * 8)
      → take k (drop pos (camera_layout m)) ≡ be_bytes k v
      → read_big_endian k (camera_layout m) pos ≡ v
  camera_field k pos v room lt e =
      read-field (camera_layout m) (camera_layout-IsBytes m h.extra) k v pos (omega arith) lt e

  pub read_camera-layout : read_camera (camera_layout m) ≡ m
  unfolding read_camera
  read_camera-layout = λ i. record {
    frame_id = camera_field 8 0 m.frame_id (omega arith) h.frame refl i;
    width = camera_field 4 8 m.width (omega arith) h.columns refl i;
    height = camera_field 4 12 m.height (omega arith) h.rows refl i;
    exposure_time_us = camera_field 4 16 m.exposure_time_us (omega arith) h.exposure refl i;
    extra_data = m.extra_data;
  }

  pub read_extra_size-layout :
      length m.extra_data < 2 ^ 32 → read_big_endian 4 (camera_layout m) 20 ≡ length m.extra_data
  read_extra_size-layout lt = camera_field 4 20 (length m.extra_data) (omega arith) lt refl

drop-all : (bs : List ℕ) (n : ℕ) → length bs ≡ n → drop n bs ≡ []
drop-all [] zero e = refl
drop-all [] (suc n) e = refl
drop-all (b ∷ bs) zero e = absurd (omega (arith, e))
drop-all (b ∷ bs) (suc n) e = drop-all bs n (omega (arith, e))

pub layout-read_imu : (bs : List ℕ) → IsBytes bs → length bs ≡ 24 → imu_layout (read_imu bs) ≡ bs
unfolding read_imu
layout-read_imu bs b len = at 0 _ (omega arith) (
    at 4 _ (omega arith) (
      at 8 _ (omega arith) (
        at 12 _ (omega arith)
          (at 16 _ (omega arith) (at 20 _ (omega arith) (sym (drop-all bs 24 len)))))))
  where
    at :
        (pos : ℕ) (rest : List ℕ)
        → pos + 4 ≤ 24
        → rest ≡ drop (pos + 4) bs
        → be_bytes 4 (read_big_endian 4 bs pos) ++ rest ≡ drop pos bs
    at pos rest room e = read-behind bs b pos 4 rest (omega (arith, len)) e

pub layout-read_gnss : (bs : List ℕ) → IsBytes bs → length bs ≡ 32 → gnss_layout (read_gnss bs) ≡ bs
unfolding read_gnss
layout-read_gnss bs b len = at 0 8 _ (omega arith) (
    at 8 8 _ (omega arith) (
      at 16 8 _ (omega arith)
        (at 24 4 _ (omega arith) (at 28 4 _ (omega arith) (sym (drop-all bs 32 len))))))
  where
    at :
        (pos k : ℕ) (rest : List ℕ)
        → pos + k ≤ 32
        → rest ≡ drop (pos + k) bs
        → be_bytes k (read_big_endian k bs pos) ++ rest ≡ drop pos bs
    at pos k rest room e = read-behind bs b pos k rest (omega (arith, len)) e

pub layout-read_camera :
    (bs : List ℕ)
    → IsBytes bs
    → length bs ≡ 24 + read_big_endian 4 bs 20
    → camera_layout (read_camera bs) ≡ bs
unfolding read_camera
layout-read_camera bs b len = at 0 8 _ (omega arith) (
    at 8 4 _ (omega arith) (
      at 12 4 _ (omega arith) (
        at 16 4 _ (omega arith)
          (ap (λ (n : ℕ). be_bytes 4 n ++ drop 24 bs) same ∙ at 20 4 _ (omega arith) refl))))
  where
    same : length (drop 24 bs) ≡ read_big_endian 4 bs 20
    same = omega (arith, len, length-drop 24 bs)

    at :
        (pos k : ℕ) (rest : List ℕ)
        → pos + k ≤ 24
        → rest ≡ drop (pos + k) bs
        → be_bytes k (read_big_endian k bs pos) ++ rest ≡ drop pos bs
    at pos k rest room e = read-behind bs b pos k rest (omega (arith, len)) e
