-- ===== src/Network/ConnectionState/Retries.antt =====
-- The retry counter against what the callback sees.
use ryu_ldn_nx.Prelude.{
  ℕ, ◌+◌, ◌%◌, ◌^◌, ◌≡◌, refl, sym, ap, ◌∙◌, true, List, [], ◌∷◌, ◌++◌, arith, if◌then◌else◌,
}
use ryu_ldn_nx.Network.ConnectionState.{
  ConnectionEvent, Notice, ConnectionStateMachine, is_ready, is_retrying, process_event, run,
}

abbrev pub count_notice : ℕ → Notice → ℕ
count_notice count n =
    if is_ready n.new_state
    then 0
    else if is_retrying n.new_state
    then (count + 1) % 2 ^ 32
    else count

-- The retries since the connection was last ready, read off the notices alone.
abbrev pub tally : ℕ → List Notice → ℕ
tally count [] = count
tally count (n ∷ ns) = tally (count_notice count n) ns

tally-append :
    (count : ℕ) (ns ls : List Notice) → tally count (ns ++ ls) ≡ tally (tally count ns) ls
tally-append count [] ls = refl
tally-append count (n ∷ ns) ls = tally-append (count_notice count n) ns ls

tally-step :
    (m : ConnectionStateMachine) (e : ConnectionEvent)
    → m.callback ≡ true
    → let (m', result, notices) = process_event m e in
      (m'.retry_count ≡ tally m.retry_count notices) × (m'.callback ≡ true)
unfolding process_event
tally-step m e h = ground arith

-- With a callback registered, the counter after a run is the number of times that the callback was
-- told of `retrying` since it was last told of `ready`, added to the first count if it never was,
-- modulo 2 ^ 32.
pub run-retry_count :
    (m : ConnectionStateMachine) (es : List ConnectionEvent)
    → m.callback ≡ true
    → (run m es).0.retry_count ≡ tally m.retry_count (run m es).1
unfolding run
run-retry_count m [] h = refl
run-retry_count m (e ∷ es) h =
    let (now, on) = tally-step m e h in
    let (m', result, notices) = process_event m e in
    run-retry_count m' es on
    ∙ ap (λ (k : ℕ). tally k (run m' es).1) now
    ∙ sym (tally-append m.retry_count notices (run m' es).1)
