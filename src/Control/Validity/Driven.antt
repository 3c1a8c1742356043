-- ===== src/Control/Validity/Driven.antt =====
-- The control plane of sim/control/control_plane.py under the calls that the runtime makes: its
-- states stay valid, and no assertion fails.
use syncons.Base.{ℕ, ◌≡◌, subst, ◌<◌, refl, true, Option, none, some, List, is_some}
use syncons.Protocol.{event_node, RepairSnapshot, ControlPlaneState, SimulationTiming}
use syncons.Control.{ControlPlane, Forwarded, new_control_plane}
use syncons.Control.Events.{observe_event}
use syncons.Control.Clock.{advance_to_time, control_state_at}
use syncons.Control.Validity.{IsValid, Returns}
use syncons.Control.Validity.Events.{observe_event-Returns}
use syncons.Control.Validity.Clock.{
  Answers, new-Returns, advance_from, called_from, IsValid-initialise,
}

-- The control planes that the runtime drives from the start, over the events of nodes of the
-- cluster: the clock comes first.
pub data Driven (n : ℕ) (timing : SimulationTiming) : ControlPlane → Type 0 where
  first :
      (snapshots : List RepairSnapshot) (time_ns : ℕ) (cp : ControlPlane)
      → advance_to_time snapshots time_ns n (new_control_plane timing) ≡ some cp
      → Driven n timing cp
  advanced :
      (snapshots : List RepairSnapshot) (time_ns : ℕ) (cp after : ControlPlane)
      → Driven n timing cp
      → advance_to_time snapshots time_ns n cp ≡ some after
      → Driven n timing after
  observed :
      (forwarded : Forwarded) (cp after : ControlPlane)
      → event_node forwarded.event < n
      → Driven n timing cp
      → observe_event forwarded cp ≡ some after
      → Driven n timing after
  called :
      (snapshots : List RepairSnapshot) (round_id : ℕ) (cp after : ControlPlane)
      (state : ControlPlaneState)
      → Driven n timing cp
      → control_state_at snapshots round_id n cp ≡ some (state, after)
      → Driven n timing after

is_returned : (n : ℕ) (r : Option ControlPlane) → Returns n r → is_some r ≡ true
is_returned n none h = absurd h
is_returned n (some cp) h = refl

is_answered :
    (n : ℕ) (r : Option (ControlPlaneState × ControlPlane)) → Answers n r → is_some r ≡ true
is_answered n none h = absurd h
is_answered n (some answer) h = refl

-- What a method returned is valid.
returned :
    (n : ℕ) (r : Option ControlPlane) (cp : ControlPlane) → Returns n r → r ≡ some cp → IsValid n cp
returned n r cp h e = subst (Returns n) e h

module _ (n : ℕ) (timing : SimulationTiming) (positive : 0 < n)
    (ticks : 0 < timing.round_length_ns) where
  -- In a control plane that the runtime drives, over at least one node and with a positive round
  -- length, an episode under way has targets, a membership and a round to prepare, and no
  -- collection window is open; without an episode there are neither targets nor a future config;
  -- and all targets, collected and queued nodes are nodes of the cluster.
  pub Driven-IsValid : {cp : ControlPlane} → Driven n timing cp → IsValid n cp
  Driven-IsValid (first snapshots time_ns cp e) =
      returned n _ cp
        (advance_from n time_ns snapshots (new_control_plane timing)
          (new-Returns n timing positive ticks))
        e
  Driven-IsValid (advanced snapshots time_ns before cp d e) =
      returned n _ cp
        (advance_from n time_ns snapshots before (IsValid-initialise n before (Driven-IsValid d))) e
  Driven-IsValid (observed forwarded before cp inside d e) =
      returned n _ cp (observe_event-Returns n forwarded before inside (Driven-IsValid d)) e
  Driven-IsValid (called snapshots round_id before cp state d e) =
      subst (Answers n) e
        (called_from n snapshots before (IsValid-initialise n before (Driven-IsValid d)) round_id)

  -- Over at least one node and with a positive round length, the clock returns at the start; and
  -- in a control plane that the runtime drives, the clock, the call for the state and the observer
  -- of an event of a node of the cluster return: no assertion fails.
  pub Driven-Runs :
      (snapshots : List RepairSnapshot) (time_ns round_id : ℕ) (forwarded : Forwarded)
      (cp : ControlPlane)
      → event_node forwarded.event < n
      → Driven n timing cp
      → (is_some (advance_to_time snapshots time_ns n (new_control_plane timing)) ≡ true)
        × (is_some (advance_to_time snapshots time_ns n cp) ≡ true)
        × (is_some (control_state_at snapshots round_id n cp) ≡ true)
        × (is_some (observe_event forwarded cp) ≡ true)
  Driven-Runs snapshots time_ns round_id forwarded cp inside d =
      let v = IsValid-initialise n cp (Driven-IsValid d) in
      (
        is_returned n _ (
            advance_from n time_ns snapshots (new_control_plane timing)
              (new-Returns n timing positive ticks)),
        is_returned n _ (advance_from n time_ns snapshots cp v),
        is_answered n _ (called_from n snapshots cp v round_id),
        is_returned n _ (observe_event-Returns n forwarded cp inside (Driven-IsValid d)),
      )
