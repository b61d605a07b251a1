-- ===== src/Network/Socket/Sending.antt =====
-- What `send_all` promises.
use ryu_ldn_nx.Prelude.{
  ℕ, zero, suc, ◌+◌, ◌≤◌, ◌<◌, ◌≡◌, ◌⊎◌, refl, sym, ap, ◌∙◌, inl, inr, Bool, true, false, not, ◌&&◌,
  ◌||◌, none, some, List, [], ◌∷◌, ◌++◌, ◌==◌, arith, append_assoc, Bool-cases, length,
  length-append, take, drop,
}
use ryu_ldn_nx.Network.Socket.{
  SocketResult, success, would_block, again, refused, reset, host_unreach, net_unreach, net_down,
  not_conn, is_conn, timed_out, other, Socket, Answer, wrote, errored, tls_wants, tls_errored,
  answered, send, Polled, ready, expired, hung_up, poll_errored, wait_ready, Round, All, Next,
  returns, continues, next_polled, next_sent, next, resume, prepend, send_rest, send_all,
}

abbrev pub is_success : SocketResult → Bool
is_success success = true
is_success _ = false

abbrev taken : Answer → ℕ
taken (wrote (suc n)) = 1
taken _ = 0

-- How many of the calls took something.
abbrev pub progress : List Round → ℕ
progress [] = 0
progress (round ∷ rounds) = taken round.answer + progress rounds

-- What a failed call leaves: some bytes were not sent, and those that were are the first ones.
abbrev pub IsCut : List ℕ → List ℕ → Type 0
IsCut bytes sent = (y : ℕ) × (left : List ℕ) × (bytes ≡ sent ++ (y ∷ left))

abbrev pub Outcome : List ℕ → ℕ → All → Type 0
Outcome bytes calls none = calls < length bytes
Outcome bytes calls (some (r, (s, sent))) =
    ((r ≡ success) × (sent ≡ bytes)) ⊎ ((is_success r ≡ false) × IsCut bytes sent)

take-drop-length : (n : ℕ) (l : List ℕ) → l ≡ take n l ++ drop (length (take n l)) l
take-drop-length zero l = refl
take-drop-length (suc n) [] = refl
take-drop-length (suc n) (x ∷ l) = ap (◌∷◌ x) (take-drop-length n l)

prepend-Outcome :
    (bytes sent rest : List ℕ) (calls more : ℕ) (out : All)
    → bytes ≡ sent ++ rest
    → calls ≤ length sent
    → Outcome rest more out
    → Outcome bytes (calls + more) (prepend sent out)
prepend-Outcome bytes sent rest calls more none e h o =
    omega (arith, ap (λ (l : List ℕ). length l) e, length-append sent rest)
prepend-Outcome bytes sent rest calls more (some (r, (s, later))) e h (inl (done, whole)) =
    inl (done, ap (◌++◌ sent) whole ∙ sym e)
prepend-Outcome bytes sent rest calls more (some (r, (s, later))) e h
      (inr (failed, (y, left, cut))) =
    inr (failed, (y, left, e ∙ ap (◌++◌ sent) cut ∙ sym (append_assoc sent later (y ∷ left))))

-- A round returns a failure, or goes on behind bytes that are the first of those it was given, at least as
-- many as the calls that took some.
abbrev GoesOn : List ℕ → ℕ → Next → Type 0
GoesOn bytes calls (returns r s) = is_success r ≡ false
GoesOn bytes calls (continues s sent) =
    (bytes ≡ sent ++ drop (length sent) bytes) × (calls ≤ length sent)

polled-GoesOn :
    (bytes : List ℕ) (s : Socket) (p : Polled) → GoesOn bytes 0 (next_polled (wait_ready s p))
unfolding wait_ready
polled-GoesOn bytes s ready = (refl, omega arith)
polled-GoesOn bytes s expired = refl
polled-GoesOn bytes s hung_up = refl
polled-GoesOn bytes s (poll_errored again) = refl
polled-GoesOn bytes s (poll_errored refused) = refl
polled-GoesOn bytes s (poll_errored reset) = refl
polled-GoesOn bytes s (poll_errored host_unreach) = refl
polled-GoesOn bytes s (poll_errored net_unreach) = refl
polled-GoesOn bytes s (poll_errored net_down) = refl
polled-GoesOn bytes s (poll_errored not_conn) = refl
polled-GoesOn bytes s (poll_errored is_conn) = refl
polled-GoesOn bytes s (poll_errored timed_out) = refl
polled-GoesOn bytes s (poll_errored other) = refl

blocked-GoesOn :
    (bytes : List ℕ) (s : Socket) (timeout_ms : ℕ) (b : Bool) (p : Polled)
    → GoesOn bytes 0 (next_sent timeout_ms b p (would_block, (s, [])))
unfolding next_sent
blocked-GoesOn bytes s timeout_ms b p = elim (Bool-cases ((timeout_ms == 0) && not b)) [
  | inl now ↦ rw now refl
  | inr later ↦ rw later (polled-GoesOn bytes s p)
]

answered-GoesOn :
    (x : ℕ) (xs : List ℕ) (s : Socket) (timeout_ms : ℕ) (b : Bool) (a : Answer) (p : Polled)
    → GoesOn (x ∷ xs) (taken a) (next_sent timeout_ms b p (answered s (x ∷ xs) a))
unfolding next_sent
answered-GoesOn x xs s timeout_ms b (wrote zero) p = elim (Bool-cases s.use_tls) [
  | inl tls ↦ rw tls (refl, omega arith)
  | inr plain ↦ rw plain refl
]
answered-GoesOn x xs s timeout_ms b (wrote (suc n)) p =
    (take-drop-length (suc n) (x ∷ xs), omega arith)
answered-GoesOn x xs s timeout_ms b tls_wants p = blocked-GoesOn (x ∷ xs) s timeout_ms b p
answered-GoesOn x xs s timeout_ms b tls_errored p = refl
answered-GoesOn x xs s timeout_ms b (errored again) p = blocked-GoesOn (x ∷ xs) s timeout_ms b p
answered-GoesOn x xs s timeout_ms b (errored refused) p = refl
answered-GoesOn x xs s timeout_ms b (errored reset) p = refl
answered-GoesOn x xs s timeout_ms b (errored host_unreach) p = refl
answered-GoesOn x xs s timeout_ms b (errored net_unreach) p = refl
answered-GoesOn x xs s timeout_ms b (errored net_down) p = refl
answered-GoesOn x xs s timeout_ms b (errored not_conn) p = refl
answered-GoesOn x xs s timeout_ms b (errored is_conn) p = refl
answered-GoesOn x xs s timeout_ms b (errored timed_out) p = refl
answered-GoesOn x xs s timeout_ms b (errored other) p = refl

next-GoesOn :
    (x : ℕ) (xs : List ℕ) (s : Socket) (timeout_ms : ℕ) (b : Bool) (round : Round)
    → GoesOn (x ∷ xs) (taken round.answer) (next s (x ∷ xs) timeout_ms b round)
unfolding next send next_sent
next-GoesOn x xs s timeout_ms b round = elim (Bool-cases s.connected) [
  | inl on ↦
      rw on (
        answered-GoesOn x xs (record s { connected = true }) timeout_ms b round.answer round.polled)
  | inr off ↦ rw off refl
]

resume-Outcome :
    (x : ℕ) (xs : List ℕ) (b : Bool) (calls more : ℕ) (later : Socket → List ℕ → Bool → All)
    (n : Next)
    → ((s : Socket) (bytes : List ℕ) (b : Bool) → Outcome bytes more (later s bytes b))
    → GoesOn (x ∷ xs) calls n
    → Outcome (x ∷ xs) (calls + more) (resume (x ∷ xs) b later n)
resume-Outcome x xs b calls more later (returns r s) ih h = inr (h, (x, xs, refl))
resume-Outcome x xs b calls more later (continues s sent) ih (split, enough) =
    prepend-Outcome (x ∷ xs) sent (drop (length sent) (x ∷ xs)) calls more
      (later s (drop (length sent) (x ∷ xs)) (b || not (length sent == 0))) split enough
      (ih s (drop (length sent) (x ∷ xs)) (b || not (length sent == 0)))

send_rest-Outcome :
    (rounds : List Round) (timeout_ms : ℕ) (s : Socket) (bytes : List ℕ) (b : Bool)
    → Outcome bytes (progress rounds) (send_rest rounds timeout_ms s bytes b)
unfolding send_rest
send_rest-Outcome rounds timeout_ms s [] b = inl (refl, refl)
send_rest-Outcome [] timeout_ms s (x ∷ xs) b = omega arith
send_rest-Outcome (round ∷ rounds) timeout_ms s (x ∷ xs) b =
    resume-Outcome x xs b (taken round.answer) (progress rounds) (send_rest rounds timeout_ms)
      (next s (x ∷ xs) timeout_ms b round) (send_rest-Outcome rounds timeout_ms)
      (next-GoesOn x xs s timeout_ms b round)

-- Whatever the socket answers: on success all the bytes were sent, once and in order; on a failure those that
-- were sent are a first part, with something left; and the loop is still waiting only as long as fewer of
-- its calls took something than there are bytes.
pub send_all_lem :
    (s : Socket) (bytes : List ℕ) (timeout_ms : ℕ) (rounds : List Round)
    → Outcome bytes (progress rounds) (send_all s bytes timeout_ms rounds)
unfolding send_all
send_all_lem s bytes timeout_ms rounds = send_rest-Outcome rounds timeout_ms s bytes false
