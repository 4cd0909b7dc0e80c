-- ===== src/Protocol/InputFrame.antt =====
-- src/protocol/input_frame.rs: one player's input for one frame, and the validation limit.
use sn_netplay_serv.Base.{ℕ, List}
use sn_netplay_serv.Protocol.Ids.{PlayerIndex}
use sn_netplay_serv.Protocol.Limits.{max_future_frame_distance}

pub record InputFrame : Type 0 where
  pub player_index : PlayerIndex
  pub frame : ℕ
  pub payload : List ℕ

pub record InputFrameLimits : Type 0 where
  pub max_distance : ℕ

-- `InputFrameLimits::default`
abbrev pub default_limits : InputFrameLimits
default_limits = record { max_distance = max_future_frame_distance }
