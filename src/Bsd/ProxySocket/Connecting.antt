-- ===== src/Bsd/ProxySocket/Connecting.antt =====
-- `Connect` on a stream: what the answers decide, and the call that does not block.
use ryu_ldn_nx.Prelude.{
  ℕ, ◌≡◌, refl, ap, ◌∙◌, inl, inr, Bool, true, false, not, Option, none, List, [], ◌∷◌, arith, ◌==◌,
  if◌then◌else◌, Bool-cases,
}
use ryu_ldn_nx.Bsd.Types.{
  SockAddrIn, inet, is_stream, ProxyMessage, BsdErrno, success, net_unreach, timed_out,
  conn_refused, in_progress, not_conn, failed,
}
use ryu_ldn_nx.Bsd.ProxySocket.{
  ProxySocket, ProxySocketState, bound, connecting, connected, closed, is_state, connect,
  connect_stream, connect_message, start_connecting, finish_connect, handle_connect_response,
  handle_connect_responses, get_peer_name,
}
use ryu_ldn_nx.Bsd.ProxySocket.Transfer.{send}
use ryu_ldn_nx.Ldn.ProxyHandler.{ProxyInfo}

-- What the answers to a blocking call decide: without one it times out, else the last one counts.
abbrev pub verdict : List ProxyInfo → ProxySocketState × BsdErrno
verdict [] = (bound, timed_out)
verdict (r ∷ []) = if r.protocol == 0 then (connected, success) else (bound, conn_refused)
verdict (r ∷ r' ∷ rs) = verdict (r' ∷ rs)

answered_finish :
    (s : ProxySocket) (r : ProxyInfo) (rs : List ProxyInfo)
    → let (t, e) = finish_connect (handle_connect_responses (handle_connect_response s r) rs) in
      (t.state, e) ≡ verdict (r ∷ rs)
unfolding finish_connect handle_connect_responses handle_connect_response
answered_finish s r [] = ground arith
answered_finish s r (r' ∷ rs) = answered_finish (handle_connect_response s r) r' rs

finish_connect-verdict :
    (s : ProxySocket) (rs : List ProxyInfo)
    → s.connect_event ≡ false
    → let (t, e) = finish_connect (handle_connect_responses s rs) in (t.state, e) ≡ verdict rs
finish_connect-verdict s [] unset = unfold finish_connect handle_connect_responses in ground arith
finish_connect-verdict s (r ∷ rs) unset = unfold handle_connect_responses in answered_finish s r rs

-- The state and the result of `connect_stream`.
connect_stream_lem :
    (send : ProxyMessage → Bool) (rs : List ProxyInfo) (s : ProxySocket) (a : SockAddrIn)
    → let (t, e) = connect_stream send rs s a in
      (t.state, e) ≡ (
        if not (send (connect_message s a))
        then (bound, net_unreach)
        else if s.non_blocking
        then (connecting, in_progress)
        else verdict rs)
unfolding connect_stream
connect_stream_lem send rs s a = elim (Bool-cases (send (connect_message s a))) [
  | inl ok ↦ rw ok (elim (Bool-cases s.non_blocking) [
    | inl nb ↦ simp nb (unfold start_connecting in refl)
    | inr nb ↦
        simp nb (unfold start_connecting in finish_connect-verdict (start_connecting s) rs refl)
  ])
  | inr refused ↦ rw refused refl
]

-- The outcome of `Connect` on a stream that is not closed, for an address of the Internet family: the
-- new state and the result. It is unreachable when the message is not sent; a call that does not block
-- stays in progress; of the answers that arrive while a blocking call waits, the last one decides.
pub connect_lem :
    (send : ProxyMessage → Bool) (rs : List ProxyInfo) (s : ProxySocket) (a : SockAddrIn)
    → is_stream s.type ≡ true
    → is_state s.state closed ≡ false
    → a.sin_family ≡ inet
    → let (t, e) = connect send rs s a in
      (t.state, e) ≡ (
        if not (send (connect_message s a))
        then (bound, net_unreach)
        else if s.non_blocking
        then (connecting, in_progress)
        else verdict rs)
unfolding connect
connect_lem send rs s a is_tcp is_open family =
    simp (is_tcp, is_open, ap (λ n. n == inet) family)
      (connect_stream_lem send rs (record s { remote_addr = a }) a)

-- Answers do not change the state.
handle_connect_responses-state :
    (s : ProxySocket) (rs : List ProxyInfo) → (handle_connect_responses s rs).state ≡ s.state
unfolding handle_connect_responses handle_connect_response
handle_connect_responses-state s [] = refl
handle_connect_responses-state s (r ∷ rs) =
    handle_connect_responses-state (handle_connect_response s r) rs

-- A connection that was asked for without blocking never comes about: whatever answers arrive, the
-- socket stays in the state Connecting, `GetPeerName` and `Send` report that it is not connected.
connect-stays_connecting :
    (send' : ProxyMessage → Bool) (s : ProxySocket) (a : SockAddrIn) (rs later : List ProxyInfo)
    (bytes : Option (List ℕ)) (len : ℕ)
    → is_stream s.type ≡ true
    → is_state s.state closed ≡ false
    → a.sin_family ≡ inet
    → s.non_blocking ≡ true
    → send' (connect_message s a) ≡ true
    → let t = handle_connect_responses (connect send' rs s a).0 later in
      ((connect send' rs s a).1 ≡ in_progress)
      × (t.state ≡ connecting)
      × (get_peer_name t false ≡ (none, not_conn))
      × (send send' t bytes len ≡ ([], failed not_conn))
unfolding get_peer_name send
connect-stays_connecting send' s a rs later bytes len is_tcp is_open family nb ok =
    let outcome : ((connect send' rs s a).0.state, (connect send' rs s a).1)
        ≡ (connecting, in_progress) =
      connect_lem send' rs s a is_tcp is_open family ∙ simp (ok, nb) refl in
    let still : (handle_connect_responses (connect send' rs s a).0 later).state ≡ connecting =
      handle_connect_responses-state (connect send' rs s a).0 later
      ∙ ap (λ (p : ProxySocketState × BsdErrno). p.0) outcome in
    (ap (λ (p : ProxySocketState × BsdErrno). p.1) outcome, still, simp still refl, simp still refl)
