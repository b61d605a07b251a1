-- ===== src/Bsd/ProxySocketManager/Purging.antt =====
-- What is left in the ring of waiting packets after a purge and after a delivery.
use ryu_ldn_nx.Prelude.{
  ℕ, ◌≡◌, ◌⊎◌, refl, sym, ap, ◌∙◌, inl, inr, Bool, true, false, not, ◌&&◌, Option, some, List, [],
  ◌∷◌, arith, ◌==◌, if◌then◌else◌, Bool-cases,
}
use ryu_ldn_nx.Bsd.EphemeralPortPool.{ProtocolType}
use ryu_ldn_nx.Bsd.ProxySocket.{ProxySocket}
use ryu_ldn_nx.Bsd.ProxySocket.Transfer.{incoming_data, drop_oldest, write_tail, advance}
use ryu_ldn_nx.Prelude.Ring.{window}
use ryu_ldn_nx.Bsd.PendingRing.{PendingRing, PendingPacket, blank, max_pending_packets}
use ryu_ldn_nx.Bsd.PendingRing.Sweeps.{IsValid, packets, sweep_list, sweep_lem}
use ryu_ldn_nx.Bsd.ProxySocketManager.{purge, should_purge}
use ryu_ldn_nx.Bsd.ProxySocketManager.Routing.{
  is_stale, is_for, source_addr, deliver_step, deliver_pending_packets,
  packet_matches_socket_destination,
}

abbrev pub select : (PendingPacket → Bool) → List PendingPacket → List PendingPacket
select test [] = []
select test (p ∷ ps) = let rest = select test ps in if test p then p ∷ rest else rest

-- A purge takes exactly the packets for the protocol and the port out of the ring; the others stay in
-- their order, and the ring stays valid.
pub packets-purge :
    (r : PendingRing) (protocol : ProtocolType) (port : ℕ)
    → IsValid r
    → IsValid (purge r protocol port)
      × (packets (purge r protocol port)
          ≡ select (λ p. not (should_purge protocol port p)) (packets r))
unfolding purge
packets-purge r protocol port v =
    let step : ℕ → PendingPacket → ℕ × Bool = λ n p. (n, not (should_purge protocol port p)) in
    let (w, e) = sweep_lem step 0 r v in
    (w, ap (λ (x : ℕ × List PendingPacket). x.1) e ∙ selected 0 (packets r))
  where
    selected :
        (n : ℕ) (ps : List PendingPacket)
        → (sweep_list {S = ℕ} (λ n p. (n, not (should_purge protocol port p))) n ps).1
          ≡ select (λ p. not (should_purge protocol port p)) ps
    selected n [] = refl
    selected n (p ∷ ps) =
        ap (λ rest. if not (should_purge protocol port p) then p ∷ rest else rest) (selected n ps)

-- The socket after the packets that are for it have come in, one after the other.
abbrev pub receive_all : ProxySocket → List PendingPacket → ProxySocket
receive_all s [] = s
receive_all s (p ∷ ps) =
    receive_all (incoming_data s (some p.payload) p.len (source_addr p.source_ip p.source_port)) ps

abbrev pub is_due : ℕ → ProxySocket → ℕ → ProtocolType → PendingPacket → Bool
is_due now_ms s port protocol p = not (is_stale now_ms p) && is_for s port protocol p

abbrev pub stays_pending : ℕ → ProxySocket → ℕ → ProtocolType → PendingPacket → Bool
stays_pending now_ms s port protocol p = not (is_stale now_ms p) && not (is_for s port protocol p)

-- Data that comes in does not change what is for the socket.
is_for-incoming_data :
    (s : ProxySocket) (bytes : Option (List ℕ)) (len : ℕ) (p q : PendingPacket) (port : ℕ)
    (protocol : ProtocolType)
    → is_for (incoming_data s bytes len (source_addr p.source_ip p.source_port)) port protocol q
      ≡ is_for s port protocol q
unfolding incoming_data drop_oldest write_tail advance packet_matches_socket_destination
is_for-incoming_data s bytes len p q port protocol = ground arith

deliver_step_cases :
    (port : ℕ) (protocol : ProtocolType) (now_ms : ℕ) (s t : ProxySocket) (p : PendingPacket)
    → is_for t port protocol p ≡ is_for s port protocol p
    → ((is_due now_ms s port protocol p ≡ true)
        × (stays_pending now_ms s port protocol p ≡ false)
        × (deliver_step port protocol now_ms t p ≡ (
          incoming_data t (some p.payload) p.len (source_addr p.source_ip p.source_port),
          false,
        )))
      ⊎ ((is_due now_ms s port protocol p ≡ false)
          × (deliver_step port protocol now_ms t p ≡ (t, stays_pending now_ms s port protocol p)))
unfolding deliver_step
deliver_step_cases port protocol now_ms s t p same = elim (Bool-cases (is_stale now_ms p)) [
  | inl old ↦ rw old (inr (refl, refl))
  | inr fresh ↦
      rw (fresh, same)
        (elim (Bool-cases (is_for s port protocol p)) [
          | inl mine ↦ rw mine (inl (refl, refl, refl))
          | inr other ↦ rw other (inr (refl, refl))
        ])
]

sweep_list-deliver_step :
    (port : ℕ) (protocol : ProtocolType) (now_ms : ℕ) (s t : ProxySocket) (ps : List PendingPacket)
    → ((q : PendingPacket) → is_for t port protocol q ≡ is_for s port protocol q)
    → sweep_list (deliver_step port protocol now_ms) t ps ≡ (
      receive_all t (select (is_due now_ms s port protocol) ps),
      select (stays_pending now_ms s port protocol) ps,
    )
sweep_list-deliver_step port protocol now_ms s t [] same = refl
sweep_list-deliver_step port protocol now_ms s t (p ∷ ps) same =
    let step = deliver_step port protocol now_ms in
    let onward : ProxySocket × Bool → ProxySocket × List PendingPacket = λ x. (
      (sweep_list step x.0 ps).0,
      if x.1 then p ∷ (sweep_list step x.0 ps).1 else (sweep_list step x.0 ps).1,
    ) in
    elim (deliver_step_cases port protocol now_ms s t p (same p)) [
      | inl (due, gone, e) ↦
          rw (due, gone)
            (ap onward e
              ∙ sweep_list-deliver_step port protocol now_ms s
                  (incoming_data t (some p.payload) p.len (source_addr p.source_ip p.source_port))
                  ps
                  (λ q. is_for-incoming_data t (some p.payload) p.len p q port protocol ∙ same q))
      | inr (kept, e) ↦ rw kept (
          ap onward e
          ∙ ap
              (λ (x : ProxySocket × List PendingPacket).
                (x.0, if stays_pending now_ms s port protocol p then p ∷ x.1 else x.1))
              (sweep_list-deliver_step port protocol now_ms s t ps same))
    ]

-- After a socket has bound its port: the packets that wait for it and are no older than half a second come
-- in, one after the other in their order; the other ones of that age stay in their order; the older ones
-- are gone; the ring stays valid.
pub deliver_pending_packets_lem :
    (r : PendingRing) (s : ProxySocket) (port : ℕ) (protocol : ProtocolType) (now_ms : ℕ)
    → IsValid r
    → let (s', r') = deliver_pending_packets r (some s) port protocol now_ms in
      IsValid r'
      × (s' ≡ some (receive_all s (select (is_due now_ms s port protocol) (packets r))))
      × (packets r' ≡ select (stays_pending now_ms s port protocol) (packets r))
unfolding deliver_pending_packets
deliver_pending_packets_lem r s port protocol now_ms v = elim (Bool-cases (r.count == 0)) [
  | inl empty ↦
      let nothing : r.count ≡ 0 = ground arith in
      let e : packets r ≡ [] = ap (window blank max_pending_packets r.slots r.head) nothing in
      rw empty (
        v,
        ap (λ ps. some (receive_all s (select (is_due now_ms s port protocol) ps))) (sym e),
        e ∙ ap (select (stays_pending now_ms s port protocol)) (sym e),
      )
  | inr full ↦
      let (w, e) = sweep_lem (deliver_step port protocol now_ms) s r v in
      let e' = e ∙ sweep_list-deliver_step port protocol now_ms s s (packets r) (λ q. refl) in
      rw full (
        w,
        ap (λ (x : ProxySocket × List PendingPacket). some x.0) e',
        ap (λ (x : ProxySocket × List PendingPacket). x.1) e',
      )
]
