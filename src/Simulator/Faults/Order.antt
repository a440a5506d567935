-- ===== src/Simulator/Faults/Order.antt =====
-- sensor_simulator.cpp: what becomes of a sequence of packets that runs through the fault injector,
-- against a description of it that keeps no state.
use mathlib.Core.List.{Perm}
use mathlib.Core.List.Perm
use driveflow_runtime.Prelude.{
  ℕ, suc, ◌+◌, ◌≡◌, refl, sym, ap, subst, Bool, true, false, List, [], ◌∷◌, ◌++◌, map, arith,
  length, if◌then◌else◌,
}
use driveflow_runtime.Simulator.Config.{FaultInjectionConfig}
use driveflow_runtime.Simulator.Faults.Defs.{
  matches_interval, PendingPacket, FaultInjector, make_injector, no_packet, pending_packet, process,
  finish,
}

-- The packets sent for a sequence of numbered packets and the end of it.
unfoldable pub inject : FaultInjector → List (ℕ × List ℕ) → List PendingPacket
inject j [] = (finish j).1.packets
inject j ((n, bytes) ∷ rest) = (process j n bytes).1.packets ++ inject (process j n bytes).0 rest

-- The packets counted as dropped.
unfoldable pub dropped : FaultInjector → List (ℕ × List ℕ) → ℕ
dropped j [] = (finish j).1.packets_dropped
dropped j ((n, bytes) ∷ rest) =
    (process j n bytes).1.packets_dropped + dropped (process j n bytes).0 rest

-- The packets that are not dropped, each with whether its successor is to overtake it.
unfoldable pub survivors : FaultInjectionConfig → List (ℕ × List ℕ) → List (PendingPacket × Bool)
survivors config [] = []
survivors config ((n, bytes) ∷ rest) =
    if matches_interval config.drop_every n
    then survivors config rest
    else (pending_packet config n bytes, matches_interval config.reorder_every n)
      ∷ survivors config rest

-- A packet marked changes places with the one behind it, and stays where it is at the end.
unfoldable pub overtaken : List (PendingPacket × Bool) → List PendingPacket
overtaken [] = []
overtaken ((p, false) ∷ rest) = p ∷ overtaken rest
overtaken ((p, true) ∷ []) = p ∷ []
overtaken ((p, true) ∷ (q, marked) ∷ rest) = q ∷ p ∷ overtaken rest

-- What an injector still holds.
abbrev waiting : FaultInjector → List (PendingPacket × Bool) → List (PendingPacket × Bool)
waiting j rest = if j.has_held_packet then (j.held_packet, true) ∷ rest else rest

inject-waiting :
    (j : FaultInjector) (items : List (ℕ × List ℕ))
    → inject j items ≡ overtaken (waiting j (survivors j.config items))
unfolding inject survivors overtaken process finish
inject-waiting j [] = ground arith
inject-waiting j ((n, bytes) ∷ rest) =
    let packet = pending_packet j.config n bytes in
    ground (
      arith,
      inject-waiting j rest,
      inject-waiting (record j { held_packet = no_packet; has_held_packet = false }) rest,
      inject-waiting (record j { held_packet = packet; has_held_packet = true }) rest,
    )

-- The fault injector sends the packets that are not dropped, each once as a packet with its faults,
-- and in the order in which each packet that matches the reorder interval changes places with the
-- next packet that is not dropped; a packet held at the end is sent last.
pub inject-overtaken :
    (config : FaultInjectionConfig) (items : List (ℕ × List ℕ))
    → inject (make_injector config) items ≡ overtaken (survivors config items)
inject-overtaken config items = inject-waiting (make_injector config) items

overtaken-perm :
    (packets : List (PendingPacket × Bool)) → Perm (overtaken packets) (map (λ p. p.0) packets)
unfolding overtaken
overtaken-perm [] = Perm.rfl
overtaken-perm ((p, false) ∷ rest) = Perm.cons p (overtaken-perm rest)
overtaken-perm ((p, true) ∷ []) = Perm.rfl
overtaken-perm ((p, true) ∷ (q, marked) ∷ rest) =
    Perm.trans (Perm.cons q (Perm.cons p (overtaken-perm rest)))
      (Perm.swap p q (map (λ x. x.0) rest))

length-overtaken :
    (packets : List (PendingPacket × Bool)) → length (overtaken packets) ≡ length packets
unfolding overtaken
length-overtaken [] = refl
length-overtaken ((p, false) ∷ rest) = ap suc (length-overtaken rest)
length-overtaken ((p, true) ∷ []) = refl
length-overtaken ((p, true) ∷ (q, marked) ∷ rest) =
    ap (λ (n : ℕ). suc (suc n)) (length-overtaken rest)

dropped-survivors :
    (j : FaultInjector) (items : List (ℕ × List ℕ))
    → dropped j items + length (survivors j.config items) ≡ length items
unfolding dropped survivors process finish
dropped-survivors j [] = ground arith
dropped-survivors j ((n, bytes) ∷ rest) =
    let packet = pending_packet j.config n bytes in
    ground (
      arith,
      dropped-survivors j rest,
      dropped-survivors (record j { held_packet = no_packet; has_held_packet = false }) rest,
      dropped-survivors (record j { held_packet = packet; has_held_packet = true }) rest,
    )

-- No packet is lost or invented: the packets sent are the packets that are not dropped, in some
-- order, and with those counted as dropped they are as many as went in.
pub inject_conserves :
    (config : FaultInjectionConfig) (items : List (ℕ × List ℕ))
    → Perm (inject (make_injector config) items) (map (λ p. p.0) (survivors config items))
      × (dropped (make_injector config) items + length (inject (make_injector config) items)
          ≡ length items)
inject_conserves config items = (
  subst (λ (l : List PendingPacket). Perm l (map (λ p. p.0) (survivors config items)))
      (sym (inject-overtaken config items)) (overtaken-perm (survivors config items)),
  omega (
    arith,
    ap length (inject-overtaken config items),
    length-overtaken (survivors config items),
    dropped-survivors (make_injector config) items,
  ),
)
