-- ===== src/Rooms/Session/Reachable.antt =====
-- Every state that a strict room can come to, over the calls of the session.
use sn_netplay_serv.Rooms.Room.{NetplayRoom}
use sn_netplay_serv.Rooms.Room.StrictInput.Laws.{accept_strict_input_batch-Took}
use sn_netplay_serv.Rooms.Session.{
  Step, Steps, batch_step, open_step, due_step, pause_step, reach_step, resume_step, repair_step,
  pin_step, expire_step, no_step, and_step,
}
use sn_netplay_serv.Rooms.Session.Clock.{Took-Synced, open-Synced, due-Synced}
use sn_netplay_serv.Rooms.Session.Invariant.{Synced}
use sn_netplay_serv.Rooms.Session.Pauses.{pause-Synced, reach-Synced, resume-Synced}
use sn_netplay_serv.Rooms.Session.Repairs.{pin-Synced, repair-Synced, expire-Synced}

Step-Synced : {r r' : NetplayRoom} → Step r r' → Synced r → Synced r'
Step-Synced {r} {r'} (batch_step c b o some_payload h) inv =
    Took-Synced r b r' o (accept_strict_input_batch-Took r c b r' o some_payload h) inv
Step-Synced {r} {r'} (open_step c q now o h) inv = open-Synced r c q now r' o h inv
Step-Synced {r} (due_step now) inv = due-Synced r now inv
Step-Synced {r} {r'} (pause_step c id reason frame v h) inv =
    pause-Synced r c id reason frame r' v h inv
Step-Synced {r} (reach_step c sequence frame now) inv = reach-Synced r c sequence frame now inv
Step-Synced {r} (resume_step c id sequence now) inv = resume-Synced r c id sequence now inv
Step-Synced {r} {r'} (repair_step m now o fits h) inv = repair-Synced r m now r' o fits h inv
Step-Synced {r} {r'} (pin_step c room_epoch session_epoch p limits v h) inv =
    pin-Synced r c room_epoch session_epoch p limits r' v h inv
Step-Synced {r} (expire_step now) inv = expire-Synced r now inv

-- Any sequence of batches, frame opens, due releases, pauses, acknowledgements, resumes, repairs,
-- pins and expiries keeps the frame clock's invariant: the host's input is accepted for every
-- released frame, the next frame is the one behind the last, an open that waits is for the next
-- frame with its input there, and the host's cursor and a repair frame fit 64 bits.
pub Steps-Synced : {r r' : NetplayRoom} → Steps r r' → Synced r → Synced r'
Steps-Synced no_step inv = inv
Steps-Synced (and_step before last) inv = Step-Synced last (Steps-Synced before inv)
