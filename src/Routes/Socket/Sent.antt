-- ===== src/Routes/Socket/Sent.antt =====
-- At which polls the socket sends an event.
use capstone_nps.Base.{
  ℕ, some, Option, List, ◌≡◌, ◌++◌, ◌∷◌, [], inl, inr, refl, arith, none, Bool, ◌≢◌,
}
use capstone_nps.Routes.Socket.{socket_loop, Poll, poll_event, job_socket}
use capstone_nps.Base.Errors.{Exception, err, Result-cases, ok}
use capstone_nps.Config.{Settings}
use capstone_nps.Base.Words.{Text}
use capstone_nps.Jobs.Snapshot.{Snapshot}

-- A poll that raises sends nothing.
socket_loop-silent :
    (job_id : ℕ) (last_seq : Option ℕ) (before : List Poll) (poll : Poll) (e : Exception)
    → poll_event job_id poll ≡ err e
    → (socket_loop job_id last_seq (before ++ poll ∷ [])).0 ≡ (socket_loop job_id last_seq before).0
unfolding socket_loop
socket_loop-silent job_id last_seq [] poll e h = rw (socket_loop, h) refl
socket_loop-silent job_id last_seq (first_poll ∷ before) poll e h =
    elim (Result-cases (poll_event job_id first_poll)) [
      | inl (_, refused) ↦ rw (socket_loop, refused) refl
      | inr (event, seen) ↦
          let later = socket_loop-silent job_id (some event.seq) before poll e h in
          rw (socket_loop, seen) (ground (arith, later))
    ]

-- A poll at which the socket sends an event is answered with one.
pub job_socket-sent :
    (config : Settings) (origin : Option Text) (in_time : Bool) (job_id : ℕ) (before : List Poll)
    (poll : Poll)
    → (job_socket config origin in_time job_id (before ++ poll ∷ [])).0
      ≢ (job_socket config origin in_time job_id before).0
    → (event : Snapshot) × (poll_event job_id poll ≡ ok event)
unfolding job_socket
job_socket-sent config origin in_time job_id before poll sent =
    elim (Result-cases (poll_event job_id poll)) [
      | inr (event, seen) ↦ (event, seen)
      | inl (e, refused) ↦
          let silent = socket_loop-silent job_id none before poll e refused in
          absurd (sent (ground (arith, silent)))
    ]
