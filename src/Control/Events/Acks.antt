-- ===== src/Control/Events/Acks.antt =====
-- When `_note_prepare_ack` of sim/control/control_plane.py schedules the commit of an episode.
use mathlib.Core.List.{Memᴰ}
use mathlib.Core.List.Memᴰ
use syncons.Bitmap.{has_bit}
use syncons.Base.{ℕ, ◌<◌, ◌≡◌, ◌⊎◌, true, List, elem}
use syncons.Protocol.{PendingConfig}
use syncons.Control.{ControlPlane, Scheduled, commit_online_rejoin}

-- The commit of the active episode stands among the scheduled actions.
abbrev pub IsCommitting : ControlPlane → Type 0
IsCommitting cp =
    (item : Scheduled) × (item.action ≡ commit_online_rejoin)
    × (item.episode_id ≡ cp.active_episode_id)
    × Memᴰ item cp.scheduled

-- Every member of the new config has acknowledged it, the last one just now.
abbrev pub AreAcked : ℕ → PendingConfig → ControlPlane → Type 0
AreAcked node_id future cp =
    (m : ℕ)
    → m < cp.node_count
    → has_bit future.members_bitmap m ≡ true
    → (m ≡ node_id) ⊎ (elem m cp.prepare_acks ≡ true)
