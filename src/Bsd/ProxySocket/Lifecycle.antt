-- ===== src/Bsd/ProxySocket/Lifecycle.antt =====
-- The calls that change a socket, in any order, and what a closed socket still does.
use ryu_ldn_nx.Prelude.{
  ℕ, ◌≡◌, refl, ◌∙◌, ◌⊎◌, inl, inr, Bool, true, false, ◌||◌, Option, List, [], ◌∷◌, arith,
}
use ryu_ldn_nx.Bsd.Types.{
  SockAddrIn, ShutdownHow, read, write, both, other, ProxyMessage, inval, failed,
}
use ryu_ldn_nx.Bsd.ProxySocket.{
  ProxySocket, closed, bind, connect, connect_stream, start_connecting, finish_connect,
  handle_connect_responses, handle_connect_response, listen, accept, pop_accepted, pop_from,
  incoming_connection, incoming_connections, shutdown, close, set_non_blocking, set_sock_opt,
}
use ryu_ldn_nx.Bsd.ProxySocket.Transfer.{
  Datagram, eof, incoming_data, drop_oldest, write_tail, advance, recv_from, send_to,
}
use ryu_ldn_nx.Ldn.ProxyHandler.{ProxyInfo}

pub data Call : Type 0 where
  binds : SockAddrIn → Call
  connects : (ProxyMessage → Bool) → List ProxyInfo → SockAddrIn → Call
  is_answered : ProxyInfo → Call
  listens : Call
  accepts : List ProxyInfo → Call
  is_asked : ProxyInfo → Call
  is_sent : Option (List ℕ) → ℕ → SockAddrIn → Call
  receives : Bool → ℕ → ℕ → Bool → List Datagram → Call
  shuts_down : ShutdownHow → Call
  closes : Call
  sets_non_blocking : Bool → Call
  sets_sock_opt : ℕ → ℕ → Option ℕ → Call

-- The socket after a call.
unfoldable pub after : ProxySocket → Call → ProxySocket
after s (binds a) = (bind s a).0
after s (connects send responses a) = (connect send responses s a).0
after s (is_answered r) = handle_connect_response s r
after s listens = (listen s).0
after s (accepts requests) = (accept s requests).0
after s (is_asked r) = (incoming_connection s r).0
after s (is_sent bytes len from) = incoming_data s bytes len from
after s (receives null len flags want_from arrivals) =
    (recv_from s null len flags want_from arrivals).0
after s (shuts_down how) = (shutdown s how).0
after s closes = (close s).0
after s (sets_non_blocking on) = set_non_blocking s on
after s (sets_sock_opt level optname value) = (set_sock_opt s level optname value).0

unfoldable pub after_all : ProxySocket → List Call → ProxySocket
unfolding after
after_all s [] = s
after_all s (c ∷ cs) = after_all (after s c) cs

-- Shut down in both directions, and closed unless somebody has called `Listen`.
abbrev IsEnded : Bool → ProxySocket → Type 0
IsEnded listened s =
    (s.shutdown_read ≡ true) × (s.shutdown_write ≡ true) × ((listened ≡ true) ⊎ (s.state ≡ closed))

abbrev is_listen : Call → Bool
is_listen listens = true
is_listen _ = false

abbrev pub has_listen : List Call → Bool
has_listen [] = false
has_listen (c ∷ cs) = is_listen c || has_listen cs

abbrev SameFlags : ProxySocket → ProxySocket → Type 0
SameFlags s t = (t.shutdown_read ≡ s.shutdown_read) × (t.shutdown_write ≡ s.shutdown_write)

handle_connect_responses-SameFlags :
    (s : ProxySocket) (rs : List ProxyInfo) → SameFlags s (handle_connect_responses s rs)
unfolding handle_connect_responses handle_connect_response
handle_connect_responses-SameFlags s [] = (refl, refl)
handle_connect_responses-SameFlags s (r ∷ rs) =
    handle_connect_responses-SameFlags (handle_connect_response s r) rs

connect_stream-SameFlags :
    (send : ProxyMessage → Bool) (rs : List ProxyInfo) (s : ProxySocket) (a : SockAddrIn)
    → SameFlags s (connect_stream send rs s a).0
unfolding connect_stream start_connecting finish_connect
connect_stream-SameFlags send rs s a =
    ground (arith, handle_connect_responses-SameFlags (start_connecting s) rs)

connect-SameFlags :
    (send : ProxyMessage → Bool) (rs : List ProxyInfo) (s : ProxySocket) (a : SockAddrIn)
    → SameFlags s (connect send rs s a).0
unfolding connect
connect-SameFlags send rs s a =
    ground (arith, connect_stream-SameFlags send rs (record s { remote_addr = a }) a)

connect-closed :
    (send : ProxyMessage → Bool) (rs : List ProxyInfo) (s : ProxySocket) (a : SockAddrIn)
    → s.state ≡ closed
    → (connect send rs s a).0.state ≡ closed
unfolding connect
connect-closed send rs s a e = simp e refl

incoming_connections-IsEnded :
    (b : Bool) (s : ProxySocket) (rs : List ProxyInfo)
    → IsEnded b s
    → IsEnded b (incoming_connections s rs).0
unfolding incoming_connections incoming_connection
incoming_connections-IsEnded b s [] e = e
incoming_connections-IsEnded b s (r ∷ rs) e =
    incoming_connections-IsEnded b (incoming_connection s r).0 rs (ground arith)

pop_accepted-IsEnded : (b : Bool) (s : ProxySocket) → IsEnded b s → IsEnded b (pop_accepted s).0
unfolding pop_accepted pop_from
pop_accepted-IsEnded b s e = ground arith

incoming_data-IsEnded :
    (b : Bool) (s : ProxySocket) (bytes : Option (List ℕ)) (len : ℕ) (from : SockAddrIn)
    → IsEnded b s
    → IsEnded b (incoming_data s bytes len from)
unfolding incoming_data drop_oldest write_tail advance
incoming_data-IsEnded b s bytes len from e = ground arith

-- After a call, on a socket that is closed or that somebody made listen again.
connect-IsEnded :
    (b : Bool) (send : ProxyMessage → Bool) (rs : List ProxyInfo) (s : ProxySocket) (a : SockAddrIn)
    → IsEnded b s
    → IsEnded b (connect send rs s a).0
connect-IsEnded b send rs s a (r, w, l) =
    let (r', w') = connect-SameFlags send rs s a in
    (r' ∙ r, w' ∙ w, elim l [ inl e ↦ inl e | inr e ↦ inr (connect-closed send rs s a e) ])

accept-IsEnded :
    (b : Bool) (s : ProxySocket) (rs : List ProxyInfo) → IsEnded b s → IsEnded b (accept s rs).0
unfolding accept
accept-IsEnded b s rs e = ground (
  arith,
  pop_accepted-IsEnded b s e,
  pop_accepted-IsEnded b (incoming_connections s rs).0 (incoming_connections-IsEnded b s rs e),
)

after-IsEnded :
    (b : Bool) (s : ProxySocket) (c : Call) → IsEnded b s → IsEnded (is_listen c || b) (after s c)
unfolding after
after-IsEnded b s (binds a) e = unfold bind in ground arith
after-IsEnded b s (connects send rs a) e = connect-IsEnded b send rs s a e
after-IsEnded b s (is_answered r) e = unfold handle_connect_response in e
after-IsEnded b s listens e = unfold listen in ground arith
after-IsEnded b s (accepts rs) e = accept-IsEnded b s rs e
after-IsEnded b s (is_asked r) e = unfold incoming_connection in ground arith
after-IsEnded b s (is_sent bytes len from) e = incoming_data-IsEnded b s bytes len from e
after-IsEnded b s (receives null len flags want_from arrivals) e = unfold recv_from in ground arith
after-IsEnded b s (shuts_down read) e = unfold shutdown in ground arith
after-IsEnded b s (shuts_down write) e = unfold shutdown in ground arith
after-IsEnded b s (shuts_down both) e = unfold shutdown in ground arith
after-IsEnded b s (shuts_down (other n)) e = unfold shutdown in ground arith
after-IsEnded b s closes e = unfold close in ground arith
after-IsEnded b s (sets_non_blocking on) e = unfold set_non_blocking in e
after-IsEnded b s (sets_sock_opt level optname value) e = unfold set_sock_opt in ground arith

after_all-IsEnded :
    (b : Bool) (s : ProxySocket) (cs : List Call)
    → IsEnded b s
    → IsEnded (has_listen cs || b) (after_all s cs)
unfolding after_all
after_all-IsEnded b s [] e = e
after_all-IsEnded b s (c ∷ cs) e =
    ground (arith, after_all-IsEnded (is_listen c || b) (after s c) cs (after-IsEnded b s c e))

-- After `Close`, whatever is called: `RecvFrom` reports the end, `SendTo` fails and hands nothing to the
-- manager, and the socket stays closed unless `Listen` is called.
pub after_all-close :
    (s : ProxySocket) (cs : List Call) (null want_from : Bool) (len flags : ℕ)
    (arrivals : List Datagram) (send : ProxyMessage → Bool) (bytes : Option (List ℕ))
    (dest : SockAddrIn)
    → let t = after_all (close s).0 cs in
      (recv_from t null len flags want_from arrivals ≡ (t, eof))
      × (send_to send t bytes len dest ≡ ([], failed inval))
      × ((has_listen cs ≡ true) ⊎ (t.state ≡ closed))
unfolding recv_from send_to
after_all-close s cs null want_from len flags arrivals send bytes dest =
    let closed_now : IsEnded false (close s).0 = unfold close in (refl, refl, inr refl) in
    let (r, w, l) = after_all-IsEnded false (close s).0 cs closed_now in
    (simp r refl, simp w refl, ground (arith, l))
