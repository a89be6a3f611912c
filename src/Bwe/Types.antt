-- ===== src/Bwe/Types.antt =====
-- The records of sent packets of crates/session/src/bwe/types.rs. An instant is a number of
-- nanoseconds.
use game_streamer_agent.Base.{ℕ, ◌-◌, min, Option, none, some, ltb, if◌then◌else◌}

pub record TwccPacketId : Type 0 where
  pub seq : ℕ
  pub cluster : Option ℕ

pub record TwccRecvReport : Type 0 where
  pub local_recv_time : ℕ
  pub remote_recv_time : Option ℕ

pub record TwccSendRecord : Type 0 where
  pub packet_id : TwccPacketId
  pub local_send_time : ℕ
  pub size : ℕ
  pub recv_report : Option TwccRecvReport

abbrev report_of : Option ℕ → Option ℕ → Option TwccRecvReport
report_of none remote = none
report_of (some at) remote = some (record { local_recv_time = at; remote_recv_time = remote })

-- `TwccSendRecord::new`
abbrev pub new_record : TwccPacketId → ℕ → ℕ → Option ℕ → Option ℕ → TwccSendRecord
new_record id sent size local_recv remote_recv = record {
  packet_id = id;
  local_send_time = sent;
  size = min size 0xffff;
  recv_report = report_of local_recv remote_recv;
}

abbrev reported : Option TwccRecvReport → Option ℕ
reported none = none
reported (some r) = r.remote_recv_time

-- `TwccSendRecord::remote_recv_time`
abbrev pub remote_recv_time : TwccSendRecord → Option ℕ
remote_recv_time r = reported r.recv_report

-- `TwccSendRecord::rtt`; the difference of instants stops at 0.
abbrev pub rtt : TwccSendRecord → Option ℕ
rtt r = elim r.recv_report [
  | none ↦ none
  | some report ↦ some (report.local_recv_time - r.local_send_time)
]

pub data Reason : Type 0 where
  not_happening bwe_delay_control bwe_probe_control bwe_probe_estimator : Reason

-- `Soonest::soonest`
unfoldable pub soonest : Option ℕ × Reason → Option ℕ × Reason → Option ℕ × Reason
soonest (some v, s) (some w, t) = if ltb v w then (some v, s) else (some w, t)
soonest (none, s) (none, t) = (none, not_happening)
soonest (none, s) (some w, t) = (some w, t)
soonest (some v, s) (none, t) = (some v, s)
