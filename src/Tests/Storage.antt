-- ===== src/Tests/Storage.antt =====
-- Concrete runs of the files and of the restart.
use oh_my_db.Prelude.{ℕ, ◌≡◌, refl, pos, true, false, ◌⊎◌, arith, none, some, List, [], ◌∷◌, map}
use oh_my_db.Persist.Log.{LogVector}
use oh_my_db.Signal.Delivery.{
  Action, receive, wake, start, run, IsCoherent, is_stale, Lost, Consumed, send_wakes_once,
}
use oh_my_db.Raft.{Replica}
use oh_my_db.Raft.Append.{strip}
use oh_my_db.Raft.Machine.{
  Event, vote_request, timer, submission, step, restart, live, run as run_events,
}
use oh_my_db.Raft.Threads.{Disk, bootstrap}
use oh_my_db.Raft.Durable.Lives.{restart_keeps_vote, restart_keeps_log}
use oh_my_db.Tests.{put_op, vote_call}

abbrev blank : Disk
blank = record { log = []; files = [] }

abbrev history : List Event
history = timer 500 300 ∷ submission put_op ∷ vote_request 510 (vote_call (pos 1) (pos 3)) ∷ []

-- After one crash, and after the same events once more.
abbrev reborn : Replica
reborn = elim (live (history ∷ []) (bootstrap (pos 0) false blank)) [
  | none ↦ bootstrap (pos 0) false blank
  | some s ↦ s
]

lived : live (history ∷ []) (bootstrap (pos 0) false blank) ≡ some reborn
unfolding live run_events step
lived = refl

abbrev survivor : Replica
survivor = elim (run_events history reborn) [ none ↦ reborn | some s ↦ s ]

went_on : run_events history reborn ≡ some survivor
unfolding run_events step
went_on = refl

restart_keeps_vote_example :
    ((restart survivor).current_term ≡ survivor.current_term)
    × ((restart survivor).voted_for ≡ survivor.voted_for)
restart_keeps_vote_example =
    restart_keeps_vote (pos 0) blank (history ∷ []) history reborn survivor lived went_on

restart_keeps_log_example : (restart survivor).logs.items ≡ map strip survivor.logs.items
restart_keeps_log_example =
    restart_keeps_log (pos 0) blank (history ∷ []) history reborn survivor lived went_on

abbrev half_written : LogVector ℕ
half_written = record { items = 5 ∷ 6 ∷ []; persisted_items = 1; file = 5 ∷ [] }

calm : IsCoherent start
calm = record { sleeper = λ h. absurd (ground (arith, h)); exclusive = λ h. refl }

abbrev turns : List Action
turns = receive ∷ wake ∷ []

send_wakes_once_example :
    let d = run turns start in ((is_stale d ≡ true) × Lost d) ⊎ ((is_stale d ≡ false) × Consumed d)
send_wakes_once_example = send_wakes_once turns start calm
