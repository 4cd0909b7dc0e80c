-- ===== src/Rooms/Session/Clock.antt =====
-- The invariant over the strict input of src/rooms/room_strict_input_ops.rs and the frame opens of
-- src/rooms/room_host_frame_ops.rs.
-- A batch moves the host's cursor forward or leaves it, within 64 bits.
use sn_netplay_serv.Base.{
  ◌==◌, ==_iff, Bool-cases, IsU64, length, drop, length-drop, ok, ℕ, ◌+◌, ◌-◌, ◌≤◌, ◌<◌, ◌≡◌, refl,
  ap, ◌≢◌, ◌⊎◌, inl, inr, true, some, arith,
}
use sn_netplay_serv.Protocol.Ids.{ConnectionId, player_one}
use sn_netplay_serv.Protocol.StrictInput.Batch.{StrictInputBatch}
use sn_netplay_serv.Protocol.StrictInput.FrameClock.{HostFrameOpen}
use sn_netplay_serv.Rooms.RelayBuffers.Laws.{waiting}
use sn_netplay_serv.Rooms.Room.{NetplayRoom, next_input_frame}
use sn_netplay_serv.Rooms.Room.HostFrame.{
  HostFrameOpenOutcome, enter_v5_playing, advance_release, accept_host_frame_open,
  release_due_v5_host_frame,
}
use sn_netplay_serv.Rooms.Room.HostFrame.Laws.{
  open_frame-Opened, open-cases, held, started, went_on,
}
use sn_netplay_serv.Rooms.Room.StrictInput.{StrictInputBatchOutcome}
use sn_netplay_serv.Rooms.Room.StrictInput.Laws.{Advances, Took, kept, took}
use sn_netplay_serv.Rooms.Session.Invariant.{Synced, keep-Synced}

pub took-grows :
    (r r' : NetplayRoom) (b : StrictInputBatch)
    → b.start_frame ≤ next_input_frame r b.player_index
    → 0 < length (drop (next_input_frame r b.player_index - b.start_frame) b.payloads)
    → IsU64 (b.start_frame + length b.payloads)
    → Advances r r' b.player_index (b.start_frame + length b.payloads)
    → IsU64 (next_input_frame r player_one)
    → (next_input_frame r player_one ≤ next_input_frame r' player_one)
      × IsU64 (next_input_frame r' player_one)
took-grows r r' b le some_new fits adv before = elim (Bool-cases (b.player_index == player_one)) [
  | inl mine ↦
      let q : b.player_index ≡ player_one = (==_iff b.player_index player_one).0 mine in
      let own : next_input_frame r' player_one ≡ b.start_frame + length b.payloads =
        rw q at adv.own in
      let grew : 0 < length (drop (next_input_frame r player_one - b.start_frame) b.payloads) =
        rw q at some_new in
      (
        omega (
          arith,
          own,
          grew,
          length-drop (next_input_frame r player_one - b.start_frame) b.payloads,
        ),
        omega (arith, own, fits),
      )
  | inr other ↦
      let ne : b.player_index ≢ player_one = λ q.
        let t : (b.player_index == player_one) ≡ true = (==_iff b.player_index player_one).1 q in
        cc in
      let same = adv.others player_one ne in (omega (arith, same), omega (arith, same, before))
]

pub Took-Synced :
    (r : NetplayRoom) (b : StrictInputBatch) (r' : NetplayRoom) (o : StrictInputBatchOutcome)
    → Took r b r' o
    → Synced r
    → Synced r'
Took-Synced r b r' o (kept same nothing) inv = rw same inv
Took-Synced r b r' o (took a e le shape some_new bound fits adv) inv =
    let (grows, wide) = took-grows r r' b le (rw shape at some_new) fits adv inv.bounded in
    keep-Synced r r' (ap (λ (x : NetplayRoom). x.next_release_frame) adv.rest)
      (ap (λ (x : NetplayRoom). x.released_frame) adv.rest)
      (ap (λ (x : NetplayRoom). x.pending_host_frame_open) adv.rest)
      (ap (λ (x : NetplayRoom). x.state_recovery) adv.rest) grows wide inv

pub advance-Synced :
    (r : NetplayRoom) (f : ℕ)
    → f ≡ r.next_release_frame
    → f < next_input_frame r player_one
    → Synced r
    → Synced (advance_release r f)
unfolding advance_release next_input_frame
advance-Synced r f e lt inv = record {
  covered = omega (arith, inv.covered);
  bounded = inv.bounded;
  follows = λ g h. ground (arith, inv.bounded);
  waits = λ g h. ground arith;
  repairs = inv.repairs;
}

pub enter-Synced : (r : NetplayRoom) → Synced r → Synced (enter_v5_playing r)
unfolding enter_v5_playing next_input_frame
enter-Synced r inv = record {
  covered = inv.covered;
  bounded = inv.bounded;
  follows = inv.follows;
  waits = inv.waits;
  repairs = λ t h. ground arith;
}

pub start-Synced :
    (r : NetplayRoom) (f : ℕ)
    → f ≡ r.next_release_frame
    → f < next_input_frame r player_one
    → Synced r
    → Synced (advance_release (enter_v5_playing r) f)
unfolding enter_v5_playing next_input_frame
start-Synced r f e lt inv = advance-Synced (enter_v5_playing r) f e lt (enter-Synced r inv)

pub open-Synced :
    (r : NetplayRoom) (c : ConnectionId) (q : HostFrameOpen) (now : ℕ) (r' : NetplayRoom)
    (o : HostFrameOpenOutcome)
    → accept_host_frame_open r c q now ≡ ok (r', o)
    → Synced r
    → Synced r'
unfolding next_input_frame
open-Synced r c q now r' o h inv = elim (open-cases r c q now r' o h) [
  | inl (same, answer) ↦ rw same inv
  | inr (frame, covered, pause, room_epoch, session_epoch, sound, opened) ↦
      elim (open_frame-Opened r r.next_release_frame now r' o opened) [
        | held start e waiting first early room other ↦ rw room (record {
          covered = inv.covered;
          bounded = inv.bounded;
          follows = inv.follows;
          waits = λ f h. ground arith;
          repairs = inv.repairs;
        })
        | started start e waiting due first room sent ↦
            rw room (start-Synced r r.next_release_frame refl covered inv)
        | went_on other room sent ↦ rw room (advance-Synced r r.next_release_frame refl covered inv)
      ]
]

due-cases :
    (r : NetplayRoom) (now : ℕ)
    → ((release_due_v5_host_frame r now).0 ≡ r)
      ⊎ ((f : ℕ) × (r.pending_host_frame_open ≡ some f)
          × ((release_due_v5_host_frame r now).0 ≡ advance_release (enter_v5_playing r) f))
unfolding release_due_v5_host_frame
due-cases r now = ground arith

pub due-Synced : (r : NetplayRoom) (now : ℕ) → Synced r → Synced (release_due_v5_host_frame r now).0
due-Synced r now inv = elim (due-cases r now) [
  | inl same ↦ rw same inv
  | inr (f, waiting, out) ↦
      rw out (start-Synced r f (inv.waits f waiting).0 (inv.waits f waiting).1 inv)
]
