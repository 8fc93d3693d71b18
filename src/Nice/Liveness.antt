-- ===== src/Nice/Liveness.antt =====
-- NiceConnection.cpp: the components of a connection that become ready one after the other.
use erizo.Base.{
  ℕ, ◌+◌, ◌≤◌, ◌<◌, ◌≡◌, ◌∙◌, refl, ◌⊎◌, Bool, true, false, ◌||◌, List, [], ◌∷◌, ◌++◌, Option, none,
  some, arith, ◌==◌,
}
use erizo.Nice.Connection.{
  nice_ready, is_nice_ready, NiceEvent, notify, NiceConnection, comp_state, set_comp_state,
  all_ready, update_component_state, component_state_changed, component_ready,
}
use erizo.Nice.Ready.{comp_state-set_comp_state, all_ready_complete}

-- Reports of libnice that these components are ready, in this order.
unfoldable pub all_reports : NiceConnection → List ℕ → NiceConnection × List NiceEvent
all_reports c [] = (c, [])
all_reports c (k ∷ ks) =
    let (d, first) = component_state_changed c k component_ready in
    let (e, rest) = all_reports d ks in (e, first ++ rest)

abbrev pub contains : List ℕ → ℕ → Bool
contains [] j = false
contains (k ∷ ks) j = k == j || contains ks j

abbrev pub last_event : List NiceEvent → Option NiceEvent
last_event [] = none
last_event (e ∷ []) = some e
last_event (e ∷ f ∷ fs) = last_event (f ∷ fs)

last_event-append :
    (es fs : List NiceEvent) {e : NiceEvent}
    → last_event fs ≡ some e
    → last_event (es ++ fs) ≡ some e
last_event-append [] fs h = h
last_event-append (e1 ∷ []) [] h = cc
last_event-append (e1 ∷ []) (f ∷ fs) h = h
last_event-append (e1 ∷ e2 ∷ es) fs h = last_event-append (e2 ∷ es) fs h

after_report :
    (c : NiceConnection) (k : ℕ)
    → ((component_state_changed c k component_ready).0.comp_state_list
        ≡ set_comp_state c.comp_state_list k nice_ready)
      × ((component_state_changed c k component_ready).0.ice_components ≡ c.ice_components)
      × ((component_state_changed c k component_ready).0.has_listener ≡ c.has_listener)
unfolding component_state_changed update_component_state
after_report c k = ground arith

last_report :
    (c : NiceConnection) (k : ℕ)
    → c.has_listener ≡ true
    → all_ready (set_comp_state c.comp_state_list k nice_ready) c.ice_components 1 ≡ true
    → component_state_changed c k component_ready ≡ (
      record c {
        comp_state_list = set_comp_state c.comp_state_list k nice_ready;
        ice_state = nice_ready;
      },
      notify nice_ready ∷ [],
    )
unfolding component_state_changed update_component_state
last_report c k l h = ground arith

-- Each of the components that the connection has is ready or is about to be.
abbrev pub Covered : NiceConnection → List ℕ → Type 0
Covered c ks =
    (j : ℕ)
    → 1 ≤ j
    → j < 1 + c.ice_components
    → (contains ks j ≡ true) ⊎ (is_nice_ready (comp_state c.comp_state_list j) ≡ true)

-- One report makes its component ready and leaves the others.
report_covers :
    (c : NiceConnection) (k : ℕ) (ks : List ℕ)
    → Covered c (k ∷ ks)
    → Covered (component_state_changed c k component_ready).0 ks
report_covers c k ks h j a b =
    let (states, count, listens) = after_report c k in
    rw states (
      ground
        (arith, h j a (rw count at b), comp_state-set_comp_state c.comp_state_list k j nice_ready))

all_ready-Covered :
    (c : NiceConnection) (k : ℕ)
    → Covered c (k ∷ [])
    → all_ready (set_comp_state c.comp_state_list k nice_ready) c.ice_components 1 ≡ true
all_ready-Covered c k h =
    all_ready_complete (set_comp_state c.comp_state_list k nice_ready) c.ice_components 1
      (λ j a b. ground (arith, h j a b, comp_state-set_comp_state c.comp_state_list k j nice_ready))

-- When libnice reports components as ready, in any order and any number of times, and they are all of
-- the components that were not ready, the connection ends `NICE_READY`, and the last that its listener
-- hears is that it is.
pub all_reports_ready :
    (k : ℕ) (ks : List ℕ) (c : NiceConnection)
    → c.has_listener ≡ true
    → Covered c (k ∷ ks)
    → ((all_reports c (k ∷ ks)).0.ice_state ≡ nice_ready)
      × (last_event (all_reports c (k ∷ ks)).1 ≡ some (notify nice_ready))
unfolding all_reports
all_reports_ready k [] c l h = rw (last_report c k l (all_ready-Covered c k h)) (refl, refl)
all_reports_ready k (k2 ∷ ks) c l h =
    let d = (component_state_changed c k component_ready).0 in
    let (states, count, listens) = after_report c k in
    let (state, told) = all_reports_ready k2 ks d (listens ∙ l) (report_covers c k (k2 ∷ ks) h) in
    (
      state,
      last_event-append (component_state_changed c k component_ready).1 (all_reports d (k2 ∷ ks)).1
          told,
    )
