-- ===== src/Routes/Socket.antt =====
-- `job_socket` of work_api.py: the events of one job, sent as its event number changes.
pub mod Events
pub mod Sent
use capstone_nps.Base.{
  ℕ, option_eq, List, Option, ◌∷◌, if◌then◌else◌, Bool, ◌==◌, nat_eq, [], some, ◌++◌, none, false,
  not, ◌&&◌, contains,
}
use capstone_nps.Routes.Jobs.{job_detail}
use capstone_nps.Base.Errors.{Result, Exception, domain_error, err, ok, other, ◌>>=◌, ◌>>◌}
use capstone_nps.Jobs.Snapshot.{Snapshot}
use capstone_nps.Routes.{Call}
use capstone_nps.Base.Words.{Text, text_eq, split_on}
use capstone_nps.Models.{Db}
use capstone_nps.Config.{Settings}

-- What the loop meets at one poll: the call (the accounts, and the user of the token when it is
-- accepted), the tables, and what `receive_text` does in the quarter of a second after it.
pub data Receive : Type 0 where
  timeout received disconnected : Receive

pub record Poll : Type 0 where
  pub call : Result Call
  pub db : Db
  pub receive : Receive

-- How a socket ended: closed with a code, left by the client (or by its silence), ended by another exception, or still open at the last poll.
pub data Closed : Type 0 where
  closed : (code : ℕ) → Closed
  left : Closed
  crashed : Closed
  still_open : Closed

-- The close code of an exception; one that is no `DomainError` goes through.
abbrev pub close_code : Exception → Closed
close_code (domain_error c status) = closed (if status == 401 then 4401 else 4403)
close_code other = crashed

unfoldable pub poll_event : (job_id : ℕ) → Poll → Result Snapshot
unfolding job_detail
poll_event job_id poll = do call ← poll.call; job_detail call job_id poll.db

-- The loop over the polls from the last sent event number on, `none` being the -1 at its start.
unfoldable pub socket_loop :
    (job_id : ℕ) → (last_seq : Option ℕ) → List Poll → List Snapshot × Closed
socket_loop job_id last_seq [] = ([], still_open)
socket_loop job_id last_seq (poll ∷ polls) = elim (poll_event job_id poll) [
  | err e ↦ ([], close_code e)
  | ok event ↦
      let rest = socket_loop job_id (some event.seq) polls in
      let sent = if last_seq == some event.seq then [] else event ∷ [] in
      elim poll.receive [ Receive.disconnected ↦ (sent, left) | _ ↦ (sent ++ rest.0, rest.1) ]
]

-- The whole handler: the origin that the client names, if it does, must be allowed, and the first frame
-- must come in time.
unfoldable pub job_socket :
    Settings
    → (origin : Option Text) → (in_time : Bool) → (job_id : ℕ) → List Poll
    → List Snapshot × Closed
unfolding socket_loop
job_socket config origin in_time job_id polls =
    let refused : Bool = elim origin [
      | none ↦ false
      | some o ↦ not (text_eq.beq o []) && not (contains o (split_on 44 config.allowed_origins))
    ] in
    if refused
    then ([], closed 4403)
    else if in_time
    then socket_loop job_id none polls
    else ([], left)
