-- ===== src/Rooms/RelayBuffers.antt =====
-- src/rooms/input_frame_relay_buffer.rs and fast_input_relay_buffer.rs: accepted input that waits for
-- the room's frame. A `BTreeMap` from frame numbers is an association list.
pub mod Laws
pub mod Groups
use sn_netplay_serv.Base.{
  ◌==◌, if◌then◌else◌, any, filter, update_first, ℕ, Bool, ◌&&◌, List, [], ◌∷◌, ◌++◌,
}
use sn_netplay_serv.Base.Maps.{Map, lookup, insert, remove, lookup_or}
use sn_netplay_serv.Protocol.FastInput.{FastInputFrame}
use sn_netplay_serv.Protocol.Ids.{PlayerIndex, ConnectionId}
use sn_netplay_serv.Protocol.InputBatch.{InputFrameBatch}
use sn_netplay_serv.Protocol.InputFrame.{InputFrame}

abbrev pub FrameBuffer : Type 0 → Type 0
FrameBuffer B = Map (List B)

module _ {B : Type 0} where
  -- `entry(frame).or_default().push(item)`
  unfoldable pub push_at : ℕ → B → FrameBuffer B → FrameBuffer B
  unfolding lookup insert
  push_at frame item buffer = insert frame (lookup_or frame buffer [] ++ item ∷ []) buffer

pub record BufferedInputFrame : Type 0 where
  pub room_epoch : ℕ
  pub session_epoch : ℕ
  pub source : ConnectionId
  pub input : InputFrame

pub record BufferedInputFrameBatch : Type 0 where
  pub source : ConnectionId
  pub batch : InputFrameBatch

abbrev pub InputFrameRelayBuffer : Type 0
InputFrameRelayBuffer = FrameBuffer BufferedInputFrame

-- `InputFrameRelayBuffer::push`
unfoldable pub push_input : BufferedInputFrame → InputFrameRelayBuffer → InputFrameRelayBuffer
unfolding push_at
push_input buffered = push_at buffered.input.frame buffered

-- The batch of a source and a player.
unfoldable pub is_batch_of : ConnectionId → PlayerIndex → BufferedInputFrameBatch → Bool
is_batch_of source player b = (b.source == source) && (b.batch.player_index == player)

unfoldable pub add_frame : InputFrame → BufferedInputFrameBatch → BufferedInputFrameBatch
add_frame input b = record b { batch = record b.batch { frames = b.batch.frames ++ input ∷ [] } }

-- `push_to_batch`
unfoldable pub push_to_batch :
    List BufferedInputFrameBatch → BufferedInputFrame → List BufferedInputFrameBatch
unfolding is_batch_of add_frame
push_to_batch batches x =
    if any (is_batch_of x.source x.input.player_index) batches
    then update_first (is_batch_of x.source x.input.player_index) (add_frame x.input) batches
    else batches
      ++ record {
        source = x.source;
        batch = record {
          frames = x.input ∷ [];
          player_index = x.input.player_index;
          room_epoch = x.room_epoch;
          session_epoch = x.session_epoch;
        };
      }
        ∷ []

unfoldable pub is_current_input : ℕ → ℕ → BufferedInputFrame → Bool
is_current_input room_epoch session_epoch x =
    (x.room_epoch == room_epoch) && (x.session_epoch == session_epoch)

-- The loop of `drain_frame`.
unfoldable pub push_current :
    ℕ → ℕ → List BufferedInputFrameBatch → List BufferedInputFrame → List BufferedInputFrameBatch
unfolding push_to_batch is_current_input
push_current room_epoch session_epoch batches [] = batches
push_current room_epoch session_epoch batches (x ∷ more) =
    push_current room_epoch session_epoch
      (if is_current_input room_epoch session_epoch x then push_to_batch batches x else batches)
      more

-- `InputFrameRelayBuffer::drain_frame`, the buffer that is left and the batches.
unfoldable pub drain_input_frame :
    ℕ → ℕ → ℕ → InputFrameRelayBuffer → InputFrameRelayBuffer × List BufferedInputFrameBatch
unfolding lookup remove push_current
drain_input_frame frame room_epoch session_epoch buffer =
    (remove frame buffer, push_current room_epoch session_epoch [] (lookup_or frame buffer []))

pub record BufferedFastInputFrame : Type 0 where
  pub source : ConnectionId
  pub frame : FastInputFrame

abbrev pub FastInputRelayBuffer : Type 0
FastInputRelayBuffer = FrameBuffer BufferedFastInputFrame

-- `FastInputRelayBuffer::push`
unfoldable pub push_fast_input :
    BufferedFastInputFrame → FastInputRelayBuffer → FastInputRelayBuffer
unfolding push_at
push_fast_input buffered = push_at buffered.frame.frame buffered

unfoldable pub is_current_fast_input : ℕ → ℕ → BufferedFastInputFrame → Bool
is_current_fast_input room_epoch session_epoch x =
    (x.frame.room_epoch == room_epoch) && (x.frame.session_epoch == session_epoch)

-- `FastInputRelayBuffer::drain_frame`
unfoldable pub drain_fast_input_frame :
    ℕ → ℕ → ℕ → FastInputRelayBuffer → FastInputRelayBuffer × List BufferedFastInputFrame
unfolding lookup remove is_current_fast_input
drain_fast_input_frame frame room_epoch session_epoch buffer = (
  remove frame buffer,
  filter (is_current_fast_input room_epoch session_epoch) (lookup_or frame buffer []),
)
