-- ===== src/Raft/Durable/Lives.antt =====
-- A replica of ohmyraft/OhMyRaft.H over several crashes: what `bootstrap` brings back.
use oh_my_db.Prelude.{
  ◌≡◌, refl, sym, ap, ◌∙◌, ℤ, false, some, List, [], ◌∷◌, map, IfSome, IfSome-some, IfSome-bind,
}
use oh_my_db.Consensus.{LogEntry}
use oh_my_db.Persist.Store.{load}
use oh_my_db.Raft.{Replica}
use oh_my_db.Raft.Append.{strip}
use oh_my_db.Raft.Threads.{Disk, bootstrap}
use oh_my_db.Raft.Machine.{Event, run, restart, live}
use oh_my_db.Raft.Durable.{IsDurable}
use oh_my_db.Raft.Durable.Log.{LogSaved}
use oh_my_db.Raft.Durable.Machine.{run-IsDurable, fresh-IsDurable}
use oh_my_db.Raft.Durable.Events.{run-LogSaved}

restart-IsDurable : (s : Replica) → IsDurable s → IsDurable (restart s)
unfolding restart bootstrap load
restart-IsDurable s d = record { vote = rw (d.vote, load) refl; term = rw (d.term, load) refl }

live-IsDurable :
    (lives : List (List Event)) (s : Replica) → IsDurable s → IfSome IsDurable (live lives s)
unfolding live
live-IsDurable [] s d = d
live-IsDurable (es ∷ lives) s d =
    IfSome-bind IsDurable (run es s) (λ t. live lives (restart t))
      λ t eq.
        live-IsDurable lives (restart t)
          (restart-IsDurable t (IfSome-some IsDurable (run-IsDurable es s d) eq))

-- A replica that is set up afresh, goes through any lives with a crash at the end of each, and then
-- through any events, comes back from one more crash with the term and the vote that it had.
pub restart_keeps_vote :
    (my_id : ℤ) (disk : Disk) (lives : List (List Event)) (events : List Event) (s t : Replica)
    → live lives (bootstrap my_id false disk) ≡ some s
    → run events s ≡ some t
    → ((restart t).current_term ≡ t.current_term) × ((restart t).voted_for ≡ t.voted_for)
unfolding restart bootstrap load
restart_keeps_vote my_id disk lives events s t before e =
    let start = live-IsDurable lives (bootstrap my_id false disk) (fresh-IsDurable my_id disk) in
    let d : IsDurable t =
      IfSome-some IsDurable (run-IsDurable events s (IfSome-some IsDurable start before)) e in
    (rw (d.term, load) refl, rw (d.vote, load) refl)

strip-again : (es : List LogEntry) → map strip (map strip es) ≡ map strip es
unfolding strip
strip-again [] = refl
strip-again (e ∷ es) = ap (λ l. strip e ∷ l) (strip-again es)

restart-LogSaved : (s : Replica) → LogSaved s → LogSaved (restart s)
unfolding restart bootstrap
restart-LogSaved s h = record {
  written = refl;
  file = h.file ∙ sym (strip-again s.logs.items) ∙ ap (map strip) (sym h.file);
}

live-LogSaved :
    (lives : List (List Event)) (s : Replica) → LogSaved s → IfSome LogSaved (live lives s)
unfolding live
live-LogSaved [] s h = h
live-LogSaved (es ∷ lives) s h =
    IfSome-bind LogSaved (run es s) (λ t. live lives (restart t))
      λ t eq.
        live-LogSaved lives (restart t)
          (restart-LogSaved t (IfSome-some LogSaved (run-LogSaved es s h) eq))

-- A replica that is set up afresh, goes through any lives with a crash at the end of each, and then
-- through any events, comes back from one more crash with the log that it had, entry for entry,
-- without the promises.
pub restart_keeps_log :
    (my_id : ℤ) (disk : Disk) (lives : List (List Event)) (events : List Event) (s t : Replica)
    → live lives (bootstrap my_id false disk) ≡ some s
    → run events s ≡ some t
    → (restart t).logs.items ≡ map strip t.logs.items
unfolding restart bootstrap
restart_keeps_log my_id disk lives events s t before e =
    let start =
      live-LogSaved lives (bootstrap my_id false disk) (record { written = refl; file = refl }) in
    (IfSome-some LogSaved (run-LogSaved events s (IfSome-some LogSaved start before)) e).file
