-- ===== src/Rooms/LinkCable.antt =====
-- src/rooms/link_cable_room_state.rs, with the packets and the compatibility values of
-- src/protocol/link_cable_packet.rs, link_cable_compatibility.rs and link_cable_descriptor.rs: the
-- rooms of two handhelds on a virtual cable.
pub mod Laws
use sn_netplay_serv.Base.{
  ltb, leb, ◌==◌, if◌then◌else◌, length, all, is_empty, Result, ◌>>=◌, ◌>>◌, fail_if, map_err,
  is_some, ok, err, ℕ, Bool, true, false, not, ◌&&◌, Option, none, some, List, [], ◌∷◌,
}
use sn_netplay_serv.Base.Bytes.{bytes_eq}
use sn_netplay_serv.Base.Maps.{Map, lookup, insert, remove, Text}
use sn_netplay_serv.Protocol.Ids.{PlayerIndex}
use sn_netplay_serv.Protocol.Limits.{max_link_cable_packet_bytes}
use sn_netplay_serv.Rooms.Types.{
  RoomError, slot_spoofing, link_packet_invalid, out_of_order_link_packet, compatibility_mismatch,
}

pub data LinkCableTransport : Type 0 where
  relay_transport : LinkCableTransport

pub record LinkCableDescriptor : Type 0 where
  pub system_family : Text
  pub link_protocol : Text
  pub runtime_profile : Text
  pub max_players : ℕ
  pub transport : LinkCableTransport

pub record LinkCableCompatibility : Type 0 where
  pub protocol_version : ℕ
  pub system_family : Text
  pub link_protocol : Text
  pub runtime_profile : Text
  pub system_data_hash : Option Text

-- `matches_descriptor`
unfoldable pub matches_descriptor : LinkCableCompatibility → LinkCableDescriptor → Bool
matches_descriptor c link =
    bytes_eq c.system_family link.system_family
    && bytes_eq c.link_protocol link.link_protocol
    && bytes_eq c.runtime_profile link.runtime_profile

-- `a == b` on optional texts
unfoldable pub same_hash : Option Text → Option Text → Bool
same_hash none none = true
same_hash (some a) (some b) = bytes_eq a b
same_hash _ _ = false

-- `matches_peer`
unfoldable pub matches_peer : LinkCableCompatibility → LinkCableCompatibility → Bool
unfolding same_hash
matches_peer c d =
    (c.protocol_version == d.protocol_version)
    && bytes_eq c.system_family d.system_family
    && bytes_eq c.link_protocol d.link_protocol
    && bytes_eq c.runtime_profile d.runtime_profile
    && same_hash c.system_data_hash d.system_data_hash

pub record LinkCablePacket : Type 0 where
  pub player_index : PlayerIndex
  pub sequence : ℕ
  pub emulated_time : ℕ
  pub payload : List ℕ

pub record LinkCablePacketLimits : Type 0 where
  pub max_payload_bytes : ℕ

-- `LinkCablePacketLimits::default`
abbrev pub default_packet_limits : LinkCablePacketLimits
default_packet_limits = record { max_payload_bytes = max_link_cable_packet_bytes }

pub data LinkCablePacketError : Type 0 where
  empty_payload payload_too_large : LinkCablePacketError

-- `LinkCablePacket::validate`
unfoldable pub validate_link_packet :
    LinkCablePacket → LinkCablePacketLimits → Result LinkCablePacketError (Unit {0})
validate_link_packet packet limits = do
  fail_if (is_empty packet.payload) empty_payload
  fail_if (ltb limits.max_payload_bytes (length packet.payload)) payload_too_large

pub record LinkCableRoomState : Type 0 where
  pub compatibility : Map LinkCableCompatibility
  pub last_sequences : Map ℕ

-- `reset`
unfoldable pub reset_link_cable : LinkCableRoomState → LinkCableRoomState
reset_link_cable s = record { compatibility = []; last_sequences = [] }

-- `set_compatibility`; a refusal also forgets the player's earlier values.
unfoldable pub set_compatibility :
    LinkCableRoomState
    → PlayerIndex
    → LinkCableDescriptor
    → LinkCableCompatibility
    → LinkCableRoomState × Result RoomError (Unit {0})
unfolding matches_descriptor insert remove
set_compatibility s player_index link compatibility =
    if not (matches_descriptor compatibility link)
    then (
      record s { compatibility = remove player_index s.compatibility },
      err compatibility_mismatch,
    )
    else (record s { compatibility = insert player_index compatibility s.compatibility }, ok tt)

-- `connected_players_have_compatibility`
unfoldable pub connected_players_have_compatibility :
    LinkCableRoomState → List PlayerIndex → ℕ → Bool
unfolding lookup
connected_players_have_compatibility s connected_players max_players =
    (length connected_players == max_players)
    && all (λ i. is_some (lookup i s.compatibility)) connected_players

-- `compatibility_values_match`
unfoldable pub compatibility_values_match : LinkCableRoomState → Bool
unfolding matches_peer
compatibility_values_match s = elim s.compatibility [
  | [] ↦ false
  | (i, baseline) ∷ more ↦ all (λ entry. matches_peer baseline entry.1) more
]

-- `connected_players_are_compatible`
unfoldable pub connected_players_are_compatible : LinkCableRoomState → List PlayerIndex → ℕ → Bool
unfolding connected_players_have_compatibility compatibility_values_match
connected_players_are_compatible s connected_players max_players =
    connected_players_have_compatibility s connected_players max_players
    && compatibility_values_match s

-- The player's last sequence is not below this one.
unfoldable pub is_old_sequence : LinkCableRoomState → LinkCablePacket → Bool
unfolding lookup
is_old_sequence s packet = elim (lookup packet.player_index s.last_sequences) [
  | none ↦ false
  | some last_sequence ↦ leb packet.sequence last_sequence
]

-- `accept_packet`
unfoldable pub accept_packet :
    LinkCableRoomState
    → PlayerIndex
    → LinkCablePacket
    → LinkCablePacketLimits
    → Result RoomError LinkCableRoomState
unfolding validate_link_packet is_old_sequence insert
accept_packet s owned_index packet limits = do
  fail_if (not (owned_index == packet.player_index)) (slot_spoofing packet.player_index)
  map_err (validate_link_packet packet limits) link_packet_invalid
  fail_if (is_old_sequence s packet) out_of_order_link_packet
  ok record s { last_sequences = insert packet.player_index packet.sequence s.last_sequences }
