-- ===== src/Rooms/Pause.antt =====
-- src/rooms/session_pause_state.rs and src/protocol/session_pause.rs: one coordinated pause.
use sn_netplay_serv.Base.{
  leb, ◌==◌, if◌then◌else◌, saturating_add, all, is_empty, ℕ, max, Bool, not, ◌&&◌, Option, none,
  some, List, [], ◌∷◌,
}
use sn_netplay_serv.Base.Maps.{Map, insert, remove, contains, set_insert, Text, contains_text}
use sn_netplay_serv.Protocol.Ids.{PlayerIndex}

pub data SessionPauseReason : Type 0 where
  menu backgrounded system connection_lost : SessionPauseReason

pub data SessionPauseState : Type 0 where
  pausing paused : SessionPauseState

pub record SessionPauseHolder : Type 0 where
  pub player_index : PlayerIndex
  pub reason : SessionPauseReason

pub record SessionPauseView : Type 0 where
  pub sequence : ℕ
  pub state : SessionPauseState
  pub reason : SessionPauseReason
  pub requested_by_player_index : PlayerIndex
  pub pause_at_frame : ℕ
  pub paused_at_frame : Option ℕ
  pub acknowledged_player_indexes : List PlayerIndex
  pub holders : List SessionPauseHolder

pub record PauseTracker : Type 0 where
  pub acknowledged_players : List PlayerIndex
  pub holders : Map SessionPauseReason
  pub pause_at_frame : ℕ
  pub pause_request_ids : List Text
  pub paused_at_frame : Option ℕ
  pub reason : SessionPauseReason
  pub resume_request_ids : List Text
  pub requested_by_player_index : PlayerIndex
  pub sequence : ℕ

-- `SessionPauseStateTracker::new`
unfoldable pub new_pause : ℕ → Text → SessionPauseReason → PlayerIndex → ℕ → PauseTracker
new_pause sequence request_id reason requested_by pause_at_frame = record {
  acknowledged_players = [];
  holders = insert requested_by reason [];
  pause_at_frame = pause_at_frame;
  pause_request_ids = if is_empty request_id then [] else request_id ∷ [];
  paused_at_frame = none;
  reason = reason;
  resume_request_ids = [];
  requested_by_player_index = requested_by;
  sequence = sequence;
}

-- A request id is spent when it is not empty and was inserted before; otherwise it is recorded.
abbrev spent : Text → List Text → Bool
spent request_id ids = not (is_empty request_id) && contains_text request_id ids

abbrev record_id : Text → List Text → List Text
record_id request_id ids = if is_empty request_id then ids else request_id ∷ ids

unfoldable pub hold : PauseTracker → PlayerIndex → Text → SessionPauseReason → PauseTracker
hold t player_index request_id reason =
    if spent request_id t.pause_request_ids then t else record t {
      pause_request_ids = record_id request_id t.pause_request_ids;
      holders = insert player_index reason t.holders;
    }

unfoldable pub acknowledge : PauseTracker → PlayerIndex → ℕ → PauseTracker
acknowledge t player_index frame = record t {
  acknowledged_players = set_insert player_index t.acknowledged_players;
  paused_at_frame =
      some (elim t.paused_at_frame [ none ↦ frame | some current ↦ max current frame ]);
}

unfoldable pub release : PauseTracker → PlayerIndex → Text → PauseTracker
release t player_index request_id = if spent request_id t.resume_request_ids then t else record t {
  resume_request_ids = record_id request_id t.resume_request_ids;
  holders = remove player_index t.holders;
}

unfoldable pub has_sequence : PauseTracker → ℕ → Bool
has_sequence t sequence = t.sequence == sequence

unfoldable pub resume_at_frame : PauseTracker → ℕ
resume_at_frame t =
    saturating_add (elim t.paused_at_frame [ none ↦ t.pause_at_frame | some frame ↦ frame ]) 1

unfoldable pub every_connected_player_acknowledged : PauseTracker → List PlayerIndex → Bool
every_connected_player_acknowledged t connected_players =
    not (is_empty connected_players)
    && all (λ i. contains i t.acknowledged_players) connected_players

unfoldable pub has_holders : PauseTracker → Bool
has_holders t = not (is_empty t.holders)

-- `sort` and `sort_by_key`, by insertion.
unfoldable pub insert_index : PlayerIndex → List PlayerIndex → List PlayerIndex
insert_index i [] = i ∷ []
insert_index i (j ∷ js) = if leb i j then i ∷ j ∷ js else j ∷ insert_index i js

unfoldable pub sort_indexes : List PlayerIndex → List PlayerIndex
unfolding insert_index
sort_indexes [] = []
sort_indexes (i ∷ is) = insert_index i (sort_indexes is)

unfoldable pub insert_holder :
    SessionPauseHolder → List SessionPauseHolder → List SessionPauseHolder
insert_holder h [] = h ∷ []
insert_holder h (g ∷ gs) =
    if leb h.player_index g.player_index then h ∷ g ∷ gs else g ∷ insert_holder h gs

unfoldable pub sort_holders : Map SessionPauseReason → List SessionPauseHolder
unfolding insert_holder
sort_holders [] = []
sort_holders ((i, reason) ∷ m) =
    insert_holder (record { player_index = i; reason = reason }) (sort_holders m)

unfoldable pub view : PauseTracker → SessionPauseState → SessionPauseView
view t state = record {
  sequence = t.sequence;
  state = state;
  reason = t.reason;
  requested_by_player_index = t.requested_by_player_index;
  pause_at_frame = t.pause_at_frame;
  paused_at_frame = t.paused_at_frame;
  acknowledged_player_indexes = sort_indexes t.acknowledged_players;
  holders = sort_holders t.holders;
}
