-- ===== src/DeadMansSwitch/Fields.antt =====
-- The fields of a switch after a heartbeat and after a change of state.
use waychain_consensus.Prelude.{ℕ, ◌%◌, ◌^◌, ◌<◌, ◌≡◌, arith}
use waychain_consensus.DeadMansSwitch.{
  interval_of, last_heartbeat_of, state_of, with_heartbeat, with_state, new_switch,
}

pub with_heartbeat-fields :
    (slot block : ℕ)
    → (state_of (with_heartbeat slot block) ≡ state_of slot)
      × (interval_of (with_heartbeat slot block) ≡ interval_of slot)
      × (last_heartbeat_of (with_heartbeat slot block) ≡ block % 2 ^ 64)
unfolding state_of interval_of last_heartbeat_of with_heartbeat
with_heartbeat-fields slot block = (omega arith, omega arith, omega arith)

pub state_of-with_state : (slot v : ℕ) → v < 256 → state_of (with_state slot v) ≡ v
unfolding state_of with_state
state_of-with_state slot v small = omega arith

pub new_switch-fields :
    (truth_type interval block : ℕ)
    → interval < 2 ^ 64
    → block < 2 ^ 64
    → (state_of (new_switch truth_type interval block) ≡ 0)
      × (interval_of (new_switch truth_type interval block) ≡ interval)
      × (last_heartbeat_of (new_switch truth_type interval block) ≡ block)
unfolding state_of interval_of last_heartbeat_of new_switch
new_switch-fields truth_type interval block hi hb = (omega arith, omega arith, omega arith)
