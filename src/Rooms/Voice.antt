-- ===== src/Rooms/Voice.antt =====
-- src/rooms/room_voice.rs, and the mode of src/protocol/voice_descriptor.rs: the voice state of a
-- room or a lobby.
use sn_netplay_serv.Base.{if◌then◌else◌, ℕ, Option, none, some, []}
use sn_netplay_serv.Base.Bytes.{bytes_eq}
use sn_netplay_serv.Base.Chars.{Chars}
use sn_netplay_serv.Base.Maps.{Map, lookup, insert}
use sn_netplay_serv.Protocol.Ids.{PlayerIndex}

pub data RoomVoiceStatus : Type 0 where
  available unavailable : RoomVoiceStatus

pub data NetplayVoiceMode : Type 0 where
  voice_activation push_to_talk muted_on_join : NetplayVoiceMode

pub record RoomVoiceView : Type 0 where
  pub status : RoomVoiceStatus
  pub provider : Option Chars
  pub voice_room_id : Option Chars
  pub livekit_room_name : Option Chars
  pub server_url : Option Chars
  pub mode : NetplayVoiceMode
  pub max_participants : ℕ
  pub status_detail : Option Chars

pub record PlayerVoiceJoinGrant : Type 0 where
  pub provider : Chars
  pub voice_room_id : Chars
  pub livekit_room_name : Chars
  pub server_url : Chars
  pub participant_identity : Chars
  pub token : Chars
  pub expires_at : Chars
  pub mode : NetplayVoiceMode

pub record RoomVoiceTokenRefreshRequest : Type 0 where
  pub voice_room_id : Chars
  pub player_index : PlayerIndex
  pub participant_identity : Chars
  pub display_name : Chars

pub record RoomVoiceState : Type 0 where
  pub view : RoomVoiceView
  pub grants : Map PlayerVoiceJoinGrant

-- `RoomVoiceState::unavailable`
unfoldable pub unavailable_voice : NetplayVoiceMode → Chars → RoomVoiceState
unavailable_voice mode detail = record {
  view = record {
    status = unavailable;
    provider = none;
    voice_room_id = none;
    livekit_room_name = none;
    server_url = none;
    mode = mode;
    max_participants = 0;
    status_detail = some detail;
  };
  grants = [];
}

-- `grant_for`
unfoldable pub grant_for : RoomVoiceState → PlayerIndex → Option PlayerVoiceJoinGrant
unfolding lookup
grant_for voice player_index = lookup player_index voice.grants

-- `refresh_grant`, with the state that is left.
unfoldable pub refresh_grant :
    RoomVoiceState
    → PlayerIndex
    → Chars
    → Chars
    → Chars
    → Option (RoomVoiceState × PlayerVoiceJoinGrant)
unfolding lookup insert
refresh_grant voice player_index participant_identity token expires_at =
    elim (lookup player_index voice.grants) [
      | none ↦ none
      | some grant ↦
          let fresh = record grant { token = token; expires_at = expires_at } in
          if bytes_eq grant.participant_identity participant_identity
          then some (record voice { grants = insert player_index fresh voice.grants }, fresh)
          else none
    ]
