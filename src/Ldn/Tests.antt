-- ===== src/Ldn/Tests.antt =====
-- Runs of the LDN state machine.
use ryu_ldn_nx.Prelude.{◌≡◌, ◌≢◌, refl, ◌⊎◌, true, false, List, [], ◌∷◌, if◌then◌else◌}
use ryu_ldn_nx.Ldn.StateMachine.{
  initialized, access_point, success, invalid_transition, already_in_state, LdnStateMachine, Op,
  initializes, opens_access_point, creates_network, new, is_valid_transition, is_network_active,
  step, run,
}
use ryu_ldn_nx.Ldn.StateMachine.Transitions.{starts, step_outcome}

abbrev opened : LdnStateMachine
opened = record { state = initialized; state_event = false; callback = true }

abbrev hosting : List Op
hosting = initializes ∷ opens_access_point ∷ creates_network ∷ []

step_outcome_example :
    let (m', result, notices) = step opened opens_access_point in
    ((result ≡ already_in_state) × (initialized ≡ access_point) × (m' ≡ opened) × (notices ≡ []))
    ⊎ ((result ≡ invalid_transition)
        × (initialized ≢ access_point)
        × (starts opens_access_point initialized ≡ false)
        × (m' ≡ opened)
        × (notices ≡ []))
    ⊎ ((result ≡ success)
        × (starts opens_access_point initialized ≡ true)
        × (initialized ≢ access_point)
        × (is_valid_transition initialized access_point ≡ true)
        × (m' ≡ record opened { state = access_point; state_event = true })
        × (notices ≡ (
            if true
            then record { old_state = initialized; new_state = access_point } ∷ []
            else [])))
step_outcome_example = step_outcome opened opens_access_point

hosting-active : is_network_active (run new hosting) ≡ true
unfolding run step new is_network_active
hosting-active = refl
