-- ===== src/Routes/Socket/Events.antt =====
-- The events that a socket sends.
use capstone_nps.Base.{
  nat_eq, ℕ, some, Option, List, option_eq, ◌≡◌, ◌∷◌, [], ◌≢◌, refl, ◌++◌, if◌then◌else◌, ◌==◌,
  Bool-cases, inl, inr, ==_iff, subst, sym,
}
use capstone_nps.Routes.Socket.{socket_loop, Poll, poll_event, still_open, Receive, Closed, left}
use capstone_nps.Jobs.Snapshot.{Snapshot}
use capstone_nps.Base.Errors.{ok}

-- The numbers of the events, as the polls see them; the polls up to the first that raises or after which the
-- client has left.
abbrev pub IsOpen : (job_id : ℕ) → List Poll → List Snapshot → Type 0
IsOpen job_id [] events = events ≡ []
IsOpen job_id (poll ∷ polls) [] = ⊥
IsOpen job_id (poll ∷ polls) (event ∷ events) =
    (poll_event job_id poll ≡ ok event)
    × (poll.receive ≢ Receive.disconnected)
    × IsOpen job_id polls events

-- The number that the client has after the events sent to it.
abbrev pub last_seen : Option ℕ → List Snapshot → Option ℕ
last_seen seq [] = seq
last_seen seq (event ∷ events) = last_seen (some event.seq) events

-- Each event has another number than the one before it.
abbrev pub Differ : Option ℕ → List Snapshot → Type 0
Differ seq [] = Unit
Differ seq (event ∷ events) = (seq ≢ some event.seq) × Differ (some event.seq) events

-- What one poll adds.
abbrev sent : Option ℕ → Snapshot → List Snapshot
sent seq event = if seq == some event.seq then [] else event ∷ []

while_open :
    (receive : Receive) (gone still : List Snapshot × Closed)
    → receive ≢ Receive.disconnected
    → elim receive [ Receive.disconnected ↦ gone | _ ↦ still ] ≡ still
while_open Receive.timeout gone still h = refl
while_open Receive.received gone still h = refl
while_open Receive.disconnected gone still h = absurd (h refl)

socket_loop_step :
    (job_id : ℕ) (seq : Option ℕ) (poll : Poll) (polls : List Poll) (event : Snapshot)
    → poll_event job_id poll ≡ ok event
    → poll.receive ≢ Receive.disconnected
    → socket_loop job_id seq (poll ∷ polls) ≡ (
      sent seq event ++ (socket_loop job_id (some event.seq) polls).0,
      (socket_loop job_id (some event.seq) polls).1,
    )
unfolding socket_loop
socket_loop_step job_id seq poll polls event found stays =
    rw (socket_loop, found) (while_open poll.receive (sent seq event, left) _ stays)

add_event :
    (seq : Option ℕ) (event : Snapshot) (later events : List Snapshot)
    → last_seen (some event.seq) later ≡ last_seen (some event.seq) events
    → Differ (some event.seq) later
    → (last_seen seq (sent seq event ++ later) ≡ last_seen (some event.seq) events)
      × Differ seq (sent seq event ++ later)
add_event seq event later events h d = elim (Bool-cases (seq == some event.seq)) [
  | inl same ↦
      let it : seq ≡ some event.seq = (==_iff seq (some event.seq)).0 same in
      rw same (
        subst (λ q. (last_seen q later ≡ last_seen (some event.seq) events) × Differ q later)
          (sym it) (h, d))
  | inr other_seq ↦ rw other_seq (h, ((λ it. cc ((==_iff seq (some event.seq)).1 it)), d))
]

-- While every poll succeeds and the client stays, the socket stays open, no event is sent twice in a row, and
-- after each poll the client has the number of the job as that poll found it: no change is left unsent.
pub socket_loop-current :
    (job_id : ℕ) (seq : Option ℕ) (polls : List Poll) (events : List Snapshot)
    → IsOpen job_id polls events
    → (last_seen seq (socket_loop job_id seq polls).0 ≡ last_seen seq events)
      × Differ seq (socket_loop job_id seq polls).0
      × ((socket_loop job_id seq polls).1 ≡ still_open)
unfolding socket_loop
socket_loop-current job_id seq [] events h = (rw h refl, tt, refl)
socket_loop-current job_id seq (poll ∷ polls) [] h = absurd h
socket_loop-current job_id seq (poll ∷ polls) (event ∷ events) (found, stays, rest) =
    let (current, differ, open_still) =
      socket_loop-current job_id (some event.seq) polls events rest in
    let (now, now_differ) =
      add_event seq event (socket_loop job_id (some event.seq) polls).0 events current differ in
    rw (socket_loop_step job_id seq poll polls event found stays) (now, now_differ, open_still)
