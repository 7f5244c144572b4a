-- ===== src/ControlPlane/Heartbeats.antt =====
-- internal/app/control-plane/api/worker/heartbeat_tracker.go: at most one heartbeat write for each
-- worker and interval. A call takes time.Now(); calls are serialised by the tracker's mutex.
pub mod Spacing
use openseer.Base.{
  ℕ, zero, suc, ◌+◌, String, Bool, true, false, Option, none, some, List, [], ltb, if◌then◌else◌,
  ◌==◌, nat_eq, string_eq,
}
use openseer.Base.Int.{ℤ, pos, negsuc}
use openseer.Base.Dict.{lookup, insert, delete}

pub record HeartbeatTracker : Type 0 where
  pub interval : ℤ
  pub last_seen : List (String × ℕ)

unfoldable pub new_heartbeat_tracker : ℤ → HeartbeatTracker
new_heartbeat_tracker interval = record { interval = interval; last_seen = [] }

-- `ok && now.Sub(last) < h.interval`
abbrev pub too_soon : ℕ → ℕ → Option ℕ → Bool
too_soon n now none = false
too_soon n now (some last) = ltb now (last + n)

-- The part under the mutex, for a positive interval.
abbrev pub note_update : ℕ → ℕ → String → HeartbeatTracker → Bool × HeartbeatTracker
note_update n now worker h =
    if too_soon n now (lookup worker h.last_seen)
    then (false, h)
    else (true, record h { last_seen = insert worker now h.last_seen })

unfoldable pub update_every : ℤ → ℕ → String → HeartbeatTracker → Bool × HeartbeatTracker
update_every (pos zero) now worker h = (true, h)
update_every (negsuc n) now worker h = (true, h)
update_every (pos (suc n)) now worker h = note_update (suc n) now worker h

unfoldable pub should_update : ℕ → String → HeartbeatTracker → Bool × HeartbeatTracker
unfolding update_every
should_update now worker h =
    if worker == "" then (false, h) else update_every h.interval now worker h

unfoldable pub invalidate : String → HeartbeatTracker → HeartbeatTracker
invalidate worker h = if worker == "" then h else record h { last_seen = delete worker h.last_seen }
