-- ===== src/Tests/NiceRuns.antt =====
-- An ICE connection of two components.
use erizo.Base.{some, arith, ℕ, ◌≡◌, ◌≤◌, ◌<◌, ◌↔◌, ◌⊎◌, refl, true, [], ◌∷◌, ◌++◌, ◌==◌}
use erizo.Sdp.Types.{new_candidate}
use erizo.Nice.Connection.{
  notify, nice_ready, nice_candidates_received, is_nice_ready, comp_state, update_component_state,
}
use erizo.Nice.Candidates.{set_remote_candidates}
use erizo.Nice.Ready.{update_component_state-ready_iff, set_remote_candidates-handed, handed}
use erizo.Nice.Liveness.{Covered, all_reports, last_event, all_reports_ready}
use erizo.Tests.Fixtures.{half_ready}

update_component_state-ready_iff_example :
    ((update_component_state half_ready 2 nice_ready).1 ≡ notify nice_ready ∷ []) ↔ (
      (j : ℕ)
      → 1 ≤ j
      → j < 3
      → ((2 == j) ≡ true) ⊎ (is_nice_ready (comp_state half_ready.comp_state_list j) ≡ true))
update_component_state-ready_iff_example = update_component_state-ready_iff half_ready 2 refl

set_remote_candidates-handed_example : set_remote_candidates half_ready (new_candidate ∷ []) ≡ (
  record half_ready { ice_state = nice_candidates_received },
  handed half_ready (new_candidate ∷ []) 2 1 ++ (notify nice_candidates_received ∷ []),
)
set_remote_candidates-handed_example =
    set_remote_candidates-handed half_ready (new_candidate ∷ []) refl (omega arith, tt)

-- The first component is ready, and the second is reported twice.
second_Covered : Covered half_ready (2 ∷ 2 ∷ [])
unfolding comp_state
second_Covered j a b = ground arith

all_reports_ready_example :
    ((all_reports half_ready (2 ∷ 2 ∷ [])).0.ice_state ≡ nice_ready)
    × (last_event (all_reports half_ready (2 ∷ 2 ∷ [])).1 ≡ some (notify nice_ready))
all_reports_ready_example = all_reports_ready 2 (2 ∷ []) half_ready refl second_Covered
