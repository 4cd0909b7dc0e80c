-- ===== src/Rooms/Room/FrameClock/Laws.antt =====
-- What the frame clock without strict controller input releases (src/rooms/room_frame_clock_ops.rs).
use sn_netplay_serv.Base.{
  Bool-cases, Option-cases, saturating_add, find, ℕ, ◌≤◌, max, ◌≡◌, refl, sym, ap, ◌∙◌, inl, inr,
  true, false, ◌||◌, some, List, [], ◌∷◌, Memᴰ, arith,
}
use sn_netplay_serv.Base.Maps.{lookup}
use sn_netplay_serv.Protocol.ServerFrame.{ServerFrame}
use sn_netplay_serv.Rooms.Room.{NetplayRoom, uses_strict_controller_input, mark_connected}
use sn_netplay_serv.Rooms.Room.FrameClock.{
  host_has_input_for_frame, apply_pending_input_delay_if_due, start_is_pending, begin_playing,
  release_frame, release_next_server_frame,
}
use sn_netplay_serv.Rooms.Slot.{PlayerSlot}
use sn_netplay_serv.Rooms.Types.{RoomStatus, has_status, is_host, PlayerStatus, PlayerRuntimeState}

release_frame-facts :
    (s : NetplayRoom) (f : ServerFrame)
    → (release_frame s).1 ≡ some f
    → (host_has_input_for_frame s f.frame ≡ true)
      × (f ≡ record {
        room_epoch = s.room_epoch;
        session_epoch = s.session_epoch;
        frame = s.next_release_frame;
        canonical_frame = max s.room_frame s.next_release_frame;
      })
      × ((release_frame s).0.released_frame ≡ some f.frame)
      × ((release_frame s).0.next_release_frame ≡ saturating_add f.frame 1)
unfolding release_frame
release_frame-facts s f e = elim (Bool-cases (host_has_input_for_frame s s.next_release_frame)) [
  | inr none_there ↦ absurd (ground arith)
  | inl there ↦
      let same : f ≡ record {
        room_epoch = s.room_epoch;
        session_epoch = s.session_epoch;
        frame = s.next_release_frame;
        canonical_frame = max s.room_frame s.next_release_frame;
      } =
        ground arith in
      let frame : f.frame ≡ s.next_release_frame = ap (λ g. g.frame) same in
      (ap (host_has_input_for_frame s) frame ∙ there, same, ground arith, ground arith)
]

-- What the start of play and a due delay leave as it was.
start-same :
    (r : NetplayRoom)
    → ((apply_pending_input_delay_if_due (begin_playing r)).room_epoch ≡ r.room_epoch)
      × ((apply_pending_input_delay_if_due (begin_playing r)).session_epoch ≡ r.session_epoch)
      × ((apply_pending_input_delay_if_due (begin_playing r)).next_release_frame
          ≡ r.next_release_frame)
      × ((apply_pending_input_delay_if_due (begin_playing r)).room_frame ≡ r.room_frame)
unfolding apply_pending_input_delay_if_due begin_playing
start-same r = (ground arith, ground arith, ground arith, ground arith)

pending-input :
    (r : NetplayRoom) (frame : ℕ)
    → host_has_input_for_frame (apply_pending_input_delay_if_due r) frame
      ≡ host_has_input_for_frame r frame
unfolding apply_pending_input_delay_if_due host_has_input_for_frame
pending-input r frame = ground arith

-- The host's slot, with a last input frame at or behind a frame.
pub HostHasInput : NetplayRoom → ℕ → Type 0
HostHasInput r frame =
    (s : PlayerSlot) × (last : ℕ) × Memᴰ s r.players
    × (is_host s.role ≡ true)
    × (lookup s.player_index r.last_input_frames ≡ some last)
    × (frame ≤ last)

-- Marking the connected slots keeps the players and their roles.
marked-host :
    (status : PlayerStatus) (runtime : PlayerRuntimeState) (xs : List PlayerSlot) (s : PlayerSlot)
    → find (λ (t : PlayerSlot). is_host t.role) (mark_connected status runtime xs) ≡ some s
    → (t : PlayerSlot) × Memᴰ t xs × (is_host t.role ≡ true) × (t.player_index ≡ s.player_index)
unfolding mark_connected
marked-host status runtime [] s found = absurd (cc)
marked-host status runtime (x ∷ xs) s found = elim (Bool-cases (is_host x.role)) [
  | inl hosts ↦ (x, Memᴰ.head refl, hosts, ground arith)
  | inr other ↦
      let (t, there, hosts, same) = marked-host status runtime xs s (ground arith) in
      (t, Memᴰ.tail there, hosts, same)
]

found-host :
    (xs : List PlayerSlot) (s : PlayerSlot)
    → find (λ (t : PlayerSlot). is_host t.role) xs ≡ some s
    → Memᴰ s xs × (is_host s.role ≡ true)
found-host [] s found = absurd (cc)
found-host (x ∷ xs) s found = elim (Bool-cases (is_host x.role)) [
  | inl hosts ↦
      let it : s ≡ x = ground arith in
      (Memᴰ.head it, ap (λ (t : PlayerSlot). is_host t.role) it ∙ hosts)
  | inr other ↦ let (there, hosts) = found-host xs s (ground arith) in (Memᴰ.tail there, hosts)
]

-- The start of play keeps the host and its last input.
host-HostHasInput :
    (r : NetplayRoom) (frame : ℕ)
    → host_has_input_for_frame (begin_playing r) frame ≡ true
    → HostHasInput r frame
unfolding host_has_input_for_frame begin_playing HostHasInput
host-HostHasInput r frame h = elim (Bool-cases (has_status r.status RoomStatus.start_scheduled)) [
  | inl waits ↦
      let marked = mark_connected PlayerStatus.playing PlayerRuntimeState.playing r.players in
      elim (Option-cases (find (λ (t : PlayerSlot). is_host t.role) marked)) [
        | inl nobody ↦ absurd (ground arith)
        | inr (s, found) ↦
            let (t, there, hosts, same) =
              marked-host PlayerStatus.playing PlayerRuntimeState.playing r.players s found in
            elim (Option-cases (lookup s.player_index r.last_input_frames)) [
              | inl silent ↦ absurd (ground arith)
              | inr (last, at) ↦
                  let kept = ap (λ i. lookup i r.last_input_frames) same ∙ at in
                  (t, last, there, hosts, kept, ground arith)
            ]
      ]
  | inr plays ↦ elim (Option-cases (find (λ (t : PlayerSlot). is_host t.role) r.players)) [
    | inl nobody ↦ absurd (ground arith)
    | inr (s, found) ↦
        let (there, hosts) = found-host r.players s found in
        elim (Option-cases (lookup s.player_index r.last_input_frames)) [
          | inl silent ↦ absurd (ground arith)
          | inr (last, at) ↦ (s, last, there, hosts, at, ground arith)
        ]
  ]
]

-- A server frame is released only by a room without the strict controller input of protocol 5, when no
-- scheduled start is still to come, and when the last input frame of a host of the room is that frame or
-- a later one; it is the next frame of the room's clock with the room's epochs, the room then counts it
-- as its last one, and its clock goes on to the frame behind it.
pub release_next_server_frame-next :
    (r : NetplayRoom) (now : ℕ) (f : ServerFrame)
    → (release_next_server_frame r now).1 ≡ some f
    → (uses_strict_controller_input r ≡ false)
      × (start_is_pending r now ≡ false)
      × HostHasInput r f.frame
      × (f ≡ record {
        room_epoch = r.room_epoch;
        session_epoch = r.session_epoch;
        frame = r.next_release_frame;
        canonical_frame = max r.room_frame r.next_release_frame;
      })
      × ((release_next_server_frame r now).0.released_frame ≡ some f.frame)
      × ((release_next_server_frame r now).0.next_release_frame ≡ saturating_add f.frame 1)
unfolding release_next_server_frame
release_next_server_frame-next r now f e =
    elim (Bool-cases (uses_strict_controller_input r || start_is_pending r now)) [
      | inl waits ↦ absurd (ground arith)
      | inr due ↦ elim (Bool-cases (has_status (begin_playing r).status RoomStatus.playing)) [
        | inr idle ↦ absurd (ground arith)
        | inl plays ↦
            let s = apply_pending_input_delay_if_due (begin_playing r) in
            let whole : release_next_server_frame r now ≡ release_frame s = ground arith in
            let (input, frame, last, next) =
              release_frame-facts s f (ap (λ p. p.1) (sym whole) ∙ e) in
            let (rooms, sessions, frames, clock) = start-same r in
            (
              ground arith,
              ground arith,
              host-HostHasInput r f.frame (sym (pending-input (begin_playing r) f.frame) ∙ input),
              frame ∙ (λ i. record {
                room_epoch = rooms i;
                session_epoch = sessions i;
                frame = frames i;
                canonical_frame = max (clock i) (frames i);
              }),
              ap (λ p. p.0.released_frame) whole ∙ last,
              ap (λ p. p.0.next_release_frame) whole ∙ next,
            )
      ]
    ]
