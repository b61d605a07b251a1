-- ===== src/Bsd/ProxySocket/Mailbox.antt =====
-- The receiving side of a socket against its specification: a queue of at most 64 datagrams.
use ryu_ldn_nx.Prelude.{
  ℕ, min, ◌≡◌, refl, sym, ap, ◌∙◌, inl, inr, Bool, true, false, not, ◌&&◌, ◌||◌, Option, some, List,
  [], ◌∷◌, arith, ltb, leb, ◌==◌, if◌then◌else◌, Bool-cases, length, push_bounded, take,
  get_or-replicate, length-replicate, length-zero,
}
use ryu_ldn_nx.Bsd.EphemeralPortPool.{ProtocolType}
use ryu_ldn_nx.Bsd.Types.{SocketType, SockAddrIn, again, fault}
use ryu_ldn_nx.Bsd.ProxySocket.{
  ProxySocket, closed, is_state, max_queue_size, max_payload, empty_packet, new,
}
use ryu_ldn_nx.Bsd.ProxySocket.Transfer.{
  Datagram, Received, error, has_peek, has_dontwait, incoming_data, incoming_all, consume_front,
  recv_from, drop_oldest, write_tail, clear_event, advance,
}
use ryu_ldn_nx.Bsd.ProxySocket.Queue.{
  IsValid, pending, take_front, length-pending, pending-incoming_data, incoming_data-IsValid,
  consume_front_lem,
}

-- The specification's queue after datagrams have arrived.
abbrev pub push_all : List Datagram → List Datagram → List Datagram
push_all q [] = q
push_all q ((from, bytes) ∷ ds) =
    push_all (push_bounded max_queue_size q (from, take (min (length bytes) max_payload) bytes)) ds

incoming_all_lem :
    (s : ProxySocket) (ds : List Datagram)
    → IsValid s
    → IsValid (incoming_all s ds) × (pending (incoming_all s ds) ≡ push_all (pending s) ds)
unfolding incoming_all
incoming_all_lem s [] v = (v, refl)
incoming_all_lem s ((from, bytes) ∷ ds) v =
    let (w, e) =
      incoming_all_lem (incoming_data s (some bytes) (length bytes) from) ds
        (incoming_data-IsValid s bytes (length bytes) from v (omega arith)) in
    (
      w,
      e
          ∙ ap (λ q. push_all q ds)
              (pending-incoming_data s bytes (length bytes) from v (omega arith)),
    )

-- What a receiver may ask of the socket, besides its flags: the buffer, null or not, its length, the
-- flags and whether it wants the source.
pub record Request : Type 0 where
  pub null : Bool
  pub len : ℕ
  pub flags : ℕ
  pub want_from : Bool

-- The specification of `RecvFrom`: on a socket that is open, on the queue and what arrives while a
-- blocking call waits.
abbrev pub is_empty_queue : List Datagram → Bool
is_empty_queue [] = true
is_empty_queue (d ∷ q) = false

abbrev pub serve : Bool → Request → List Datagram → List Datagram → List Datagram × Received
serve non_blocking r q arrivals =
    if r.null && ltb 0 r.len
    then (q, error fault)
    else if not (is_empty_queue q)
    then take_front q r.len (has_peek r.flags) r.want_from
    else if has_dontwait r.flags || non_blocking
    then (q, error again)
    else take_front (push_all q arrivals) r.len (has_peek r.flags) r.want_from

is_empty_queue-pending : (s : ProxySocket) → is_empty_queue (pending s) ≡ (s.rx_count == 0)
is_empty_queue-pending s = by_length (pending s) s.rx_count (length-pending s)
  where
    by_length : (q : List Datagram) (n : ℕ) → length q ≡ n → is_empty_queue q ≡ (n == 0)
    by_length [] n e = ground arith
    by_length (d ∷ q) n e = ground arith

-- What a call does once it has waited.
take_woken :
    (s : ProxySocket) (r : Request)
    → IsValid s
    → let (s', result) =
        if ltb 0 s.rx_count
        then consume_front s r.len (has_peek r.flags) r.want_from
        else (s, error again) in
      IsValid s'
      × ((pending s', result) ≡ take_front (pending s) r.len (has_peek r.flags) r.want_from)
take_woken s r v = elim (Bool-cases (ltb 0 s.rx_count)) [
  | inl some_wait ↦
      rw some_wait (consume_front_lem s r.len (has_peek r.flags) r.want_from v (ground arith))
  | inr none_waits ↦
      let e : pending s ≡ [] = length-zero (pending s) (ground (arith, length-pending s)) in
      rw none_waits (
        v,
        ap (λ (q : List Datagram). (q, error again)) e
            ∙ ap (λ q. take_front q r.len (has_peek r.flags) r.want_from) (sym e),
      )
]

-- `RecvFrom` on a socket that is open for reading answers as the specification does.
pub recv_from_lem :
    (s : ProxySocket) (r : Request) (arrivals : List Datagram)
    → IsValid s
    → s.shutdown_read ≡ false
    → is_state s.state closed ≡ false
    → let (s', result) = recv_from s r.null r.len r.flags r.want_from arrivals in
      IsValid s' × ((pending s', result) ≡ serve s.non_blocking r (pending s) arrivals)
unfolding recv_from
recv_from_lem s r arrivals v open_read open_state =
    simp (open_read, open_state, is_empty_queue-pending s)
      (elim (Bool-cases (r.null && ltb 0 r.len)) [
        | inl bad ↦ rw bad (v, refl)
        | inr good ↦ rw good (elim (Bool-cases (s.rx_count == 0)) [
          | inl empty ↦ rw empty (elim (Bool-cases (has_dontwait r.flags || s.non_blocking)) [
            | inl no_wait ↦ rw no_wait (v, refl)
            | inr waits ↦
                let (w, e) = incoming_all_lem s arrivals v in
                let (w', e') = take_woken (incoming_all s arrivals) r w in
                rw waits (w', e' ∙ ap (λ q. take_front q r.len (has_peek r.flags) r.want_from) e)
          ])
          | inr full ↦
              rw full (consume_front_lem s r.len (has_peek r.flags) r.want_from v (ground arith))
        ])
      ])

-- A socket that is open for reading, and whether it blocks.
abbrev pub IsOpen : Bool → ProxySocket → Type 0
IsOpen non_blocking s =
    (s.shutdown_read ≡ false) × (is_state s.state closed ≡ false) × (s.non_blocking ≡ non_blocking)

incoming_data-IsOpen :
    (nb : Bool) (s : ProxySocket) (bytes : Option (List ℕ)) (len : ℕ) (from : SockAddrIn)
    → IsOpen nb s
    → IsOpen nb (incoming_data s bytes len from)
unfolding incoming_data drop_oldest write_tail advance
incoming_data-IsOpen nb s bytes len from o = elim (Bool-cases (leb max_queue_size s.rx_count)) [
  | inl e ↦ rw e o
  | inr e ↦ rw e o
]

incoming_all-IsOpen :
    (nb : Bool) (s : ProxySocket) (ds : List Datagram) → IsOpen nb s → IsOpen nb (incoming_all s ds)
unfolding incoming_all
incoming_all-IsOpen nb s [] o = o
incoming_all-IsOpen nb s ((from, bytes) ∷ ds) o =
    incoming_all-IsOpen nb (incoming_data s (some bytes) (length bytes) from) ds
      (incoming_data-IsOpen nb s (some bytes) (length bytes) from o)

consume_front-IsOpen :
    (nb : Bool) (s : ProxySocket) (len : ℕ) (peek want_from : Bool)
    → IsOpen nb s
    → IsOpen nb (consume_front s len peek want_from).0
unfolding consume_front clear_event advance
consume_front-IsOpen nb s len peek want_from o = ground arith

recv_from-IsOpen :
    (nb : Bool) (s : ProxySocket) (r : Request) (arrivals : List Datagram)
    → IsOpen nb s
    → IsOpen nb (recv_from s r.null r.len r.flags r.want_from arrivals).0
unfolding recv_from
recv_from-IsOpen nb s r arrivals o = ground (
  arith,
  consume_front-IsOpen nb s r.len (has_peek r.flags) r.want_from o,
  incoming_all-IsOpen nb s arrivals o,
  consume_front-IsOpen nb (incoming_all s arrivals) r.len (has_peek r.flags) r.want_from
      (incoming_all-IsOpen nb s arrivals o),
)

-- What happens to the receiving side: a datagram arrives, or the game asks for one.
pub data Event : Type 0 where
  arrives : Datagram → Event
  receives : Request → List Datagram → Event

unfoldable pub run : ProxySocket → List Event → ProxySocket × List Received
run s [] = (s, [])
run s (arrives (from, bytes) ∷ es) = run (incoming_data s (some bytes) (length bytes) from) es
run s (receives r arrivals ∷ es) =
    let (s', result) = recv_from s r.null r.len r.flags r.want_from arrivals in
    let (s'', results) = run s' es in (s'', result ∷ results)

abbrev pub replay : Bool → List Datagram → List Event → List Datagram × List Received
replay nb q [] = (q, [])
replay nb q (arrives d ∷ es) = replay nb (push_all q (d ∷ [])) es
replay nb q (receives r arrivals ∷ es) =
    let (q', result) = serve nb r q arrivals in
    let (q'', results) = replay nb q' es in (q'', result ∷ results)

-- Over any run on a socket that is open for reading, the ring answers every request as a queue of at most
-- 64 datagrams does that loses its oldest, and it stays valid.
pub run-replay :
    (nb : Bool) (s : ProxySocket) (es : List Event)
    → IsValid s
    → IsOpen nb s
    → let (s', results) = run s es in
      IsValid s' × ((pending s', results) ≡ replay nb (pending s) es)
unfolding run
run-replay nb s [] v o = (v, refl)
run-replay nb s (arrives (from, bytes) ∷ es) v o =
    let s' = incoming_data s (some bytes) (length bytes) from in
    let (w, e) =
      run-replay nb s' es (incoming_data-IsValid s bytes (length bytes) from v (omega arith))
        (incoming_data-IsOpen nb s (some bytes) (length bytes) from o) in
    (
      w,
      e
          ∙ ap (λ q. replay nb q es)
              (pending-incoming_data s bytes (length bytes) from v (omega arith)),
    )
run-replay nb s (receives r arrivals ∷ es) v o =
    let (open_read, open_state, same_nb) = o in
    let (w, e) = recv_from_lem s r arrivals v open_read open_state in
    let s' = (recv_from s r.null r.len r.flags r.want_from arrivals).0 in
    let (w', e') = run-replay nb s' es w (recv_from-IsOpen nb s r arrivals o) in
    let result = (recv_from s r.null r.len r.flags r.want_from arrivals).1 in
    (
      w',
      ap (λ (p : List Datagram × List Received). (p.0, result ∷ p.1)) e'
          ∙ ap
              (λ (p : List Datagram × Received). ((replay nb p.0 es).0, p.1 ∷ (replay nb p.0 es).1))
              (e ∙ ap (λ b. serve b r (pending s) arrivals) same_nb),
    )

-- A new socket's ring is valid and empty.
pub new-IsValid : (type : SocketType) (protocol : ProtocolType) → IsValid (new type protocol)
unfolding new
new-IsValid type protocol = record {
  ring_length = length-replicate max_queue_size empty_packet;
  head_lt = omega arith;
  count_le = omega arith;
  tail_eq = refl;
  slots = λ i.
      rw (get_or-replicate max_queue_size i empty_packet)
        (length-replicate {A = ℕ} max_payload 0, omega arith);
  signalled = λ h. absurd (omega arith);
}
