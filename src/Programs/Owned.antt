-- ===== src/Programs/Owned.antt =====
-- apps/udp_sender_main.cpp and apps/udp_receiver_main.cpp: the programs close what they open.
use driveflow_runtime.Prelude.{ℕ, ◌+◌, ◌≡◌, refl, List, [], ◌∷◌, arith}
use driveflow_runtime.Prelude.Result.{Result, ok, throws}
use driveflow_runtime.Net.{Text, Ipv4Endpoint}
use driveflow_runtime.Net.Socket.{
  System, open_socket, send_to, bind_to, local_endpoint, receive, closing, max_udp_payload_size,
}
use driveflow_runtime.Net.Socket.Owned.{
  one, IsSystem, Leaves, after-Leaves, guarded-Leaves, pure-Leaves, open_socket-Leaves,
  closing-Leaves, send_to-Leaves, bind_to-Leaves, local_endpoint-Leaves, receive-Leaves,
}
use driveflow_runtime.Programs.Output.{parse_port}
use driveflow_runtime.Programs.UdpSender.{make_packet, send_sample, sender_main}
use driveflow_runtime.Programs.UdpReceiver.{listen, receive_one, receiver_main}

module _ (system : System) (opens : system.State → ℕ → ℕ) (y : ℕ)
    (laws : IsSystem system opens) where
  send_sample-Leaves :
      (n : ℕ) (address port_text : Text) (now : ℕ) (s : system.State)
      → opens s y ≡ n
      → Leaves system opens laws y n n (λ u. 0) (send_sample system address port_text now s)
  unfolding send_sample
  send_sample-Leaves n address port_text now s h =
      after-Leaves system opens laws y n n n (λ port. 0) (λ u. 0) (parse_port port_text, s) _
        (pure-Leaves system opens laws y n (parse_port port_text) s h)
        λ port s1 h1.
          after-Leaves system opens laws y n n n (λ packet. 0) (λ u. 0) (make_packet now, s1) _
            (pure-Leaves system opens laws y n (make_packet now) s1 (omega (arith, h1)))
            λ packet s2 h2.
              after-Leaves system opens laws y n n n (λ fd. one fd y) (λ u. 0)
                (open_socket system s2) _
                (open_socket-Leaves system opens laws y n s2 (omega (arith, h2)))
                λ fd s3 h3.
                  let k = n + one fd y in
                  closing-Leaves system opens laws y n fd _ (
                    after-Leaves system opens laws y k k k (λ u. 0) (λ u. 0)
                      (send_to system fd packet (record { address = address; port = port }) s3) _
                      (send_to-Leaves system opens laws y k fd packet
                        (record { address = address; port = port }) s3 h3)
                      λ u s4 h4. h4)

  kept_open :
      {A : Type 0} (n : ℕ) (o : Result A × system.State)
      → Leaves system opens laws y n n (λ a. 0) o
      → opens o.1 y ≡ n
  kept_open n (ok a, s) h = omega (arith, h)
  kept_open n (throws e, s) h = h

  listen-Leaves :
      (n : ℕ) (address port_text : Text) (s : system.State)
      → opens s y ≡ n
      → Leaves system opens laws y n n (λ l. one l.0 y) (listen system address port_text s)
  unfolding listen
  listen-Leaves n address port_text s h =
      after-Leaves system opens laws y n n n (λ port. 0) (λ l. one l.0 y) (parse_port port_text, s)
        _ (pure-Leaves system opens laws y n (parse_port port_text) s h)
        λ port s1 h1.
          after-Leaves system opens laws y n n n (λ fd. one fd y) (λ l. one l.0 y)
            (bind_to system (record { address = address; port = port }) s1) _
            (bind_to-Leaves system opens laws y n (record { address = address; port = port }) s1
              (omega (arith, h1)))
            λ fd s2 h2.
              let k = n + one fd y in
              guarded-Leaves system opens laws y n n fd (λ l. one l.0 y) _
                (after-Leaves system opens laws y k n k (λ actual. 0) (λ l. one l.0 y)
                  (local_endpoint system fd s2) _
                  (local_endpoint-Leaves system opens laws y k fd s2 h2)
                  λ actual s3 h3. omega (arith, h3))

  receive_one-closes :
      (n : ℕ) (o : Result (ℕ × Ipv4Endpoint) × system.State)
      → Leaves system opens laws y n n (λ l. one l.0 y) o
      → opens (receive_one system o).1 y ≡ n
  unfolding receive_one
  receive_one-closes n (throws e, s) h = h
  receive_one-closes n (ok (fd, actual), s) h =
      let k = n + one fd y in
      kept_open n (closing system fd (receive system fd max_udp_payload_size s)) (
        closing-Leaves system opens laws y n fd (receive system fd max_udp_payload_size s)
          (receive-Leaves system opens laws y k fd max_udp_payload_size s h))

  sender_main-closes :
      (argv : List Text) (now : ℕ) (s : system.State)
      → opens (sender_main system argv now s).1 y ≡ opens s y
  unfolding sender_main
  sender_main-closes [] now s = refl
  sender_main-closes (program ∷ []) now s = refl
  sender_main-closes (program ∷ address ∷ []) now s = refl
  sender_main-closes (program ∷ address ∷ port ∷ []) now s =
      kept_open (opens s y) (send_sample system address port now s)
        (send_sample-Leaves (opens s y) address port now s refl)
  sender_main-closes (program ∷ address ∷ port ∷ more ∷ rest) now s = refl

  receiver_main-closes :
      (argv : List Text) (s : system.State) → opens (receiver_main system argv s).1 y ≡ opens s y
  unfolding receiver_main
  receiver_main-closes [] s = refl
  receiver_main-closes (program ∷ []) s = refl
  receiver_main-closes (program ∷ address ∷ []) s = refl
  receiver_main-closes (program ∷ address ∷ port ∷ []) s =
      receive_one-closes (opens s y) (listen system address port s)
        (listen-Leaves (opens s y) address port s refl)
  receiver_main-closes (program ∷ address ∷ port ∷ more ∷ rest) s = refl

  -- However the system's calls fail and whatever the arguments are, the sender and the receiver
  -- program end with every descriptor open as often as before: what they open they close, once.
  pub mains_close :
      (argv : List Text) (now : ℕ) (s : system.State)
      → (opens (sender_main system argv now s).1 y ≡ opens s y)
        × (opens (receiver_main system argv s).1 y ≡ opens s y)
  mains_close argv now s = (sender_main-closes argv now s, receiver_main-closes argv s)
