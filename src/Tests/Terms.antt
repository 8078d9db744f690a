-- ===== src/Tests/Terms.antt =====
-- A concrete term of a leader and one follower of ohmyraft/OhMyRaft.H.
use oh_my_db.Prelude.{
  ◌*◌, ℕ, zero, suc, ◌≤◌, ◌≡◌, refl, ℤ, pos, minus_one, find, find_or, none, some, [], ◌∷◌, length,
  take, dec, inc, pos_part, neg_part, ◌==ℤ◌, arith, length,
}
use oh_my_db.Consensus.{without_promise}
use oh_my_db.Raft.{Replica}
use oh_my_db.Raft.Leader.{
  append_args, next_of, term_before, entries_at, entries_from, handle_append_reply, is_leader,
}
use oh_my_db.Raft.Machine.Steady.{InStep}
use oh_my_db.Raft.Replication.{stripped}
use oh_my_db.Raft.Replication.Network.{
  Network, session, with_session, NetworkSteps, nothing, and_then,
}
use oh_my_db.Raft.Append.Commit.{upto}
use oh_my_db.Raft.Append.{is_dead}
use oh_my_db.Raft.Replication.Repair.{exchanges, CanRepair, Repaired}
use oh_my_db.Raft.Replication.Repair.Ends.{exchanges_repair}
use oh_my_db.Raft.Replication.Network.Agreed.{followers_hold_prefix}
use oh_my_db.Raft.Replication.Network.Filed.{Filed}
use oh_my_db.Raft.Replication.Network.Moved.{network_start}
use oh_my_db.Raft.Replication.Logs.{Agree, Linked, Inside}
use oh_my_db.Raft.Replication.Session.{Session, Request, Reply, first, requested, delivered}
use oh_my_db.Tests.{busy_leader, lagging}
use oh_my_db.Tests.Entries.{shipment, caught_up, taken, runs_taken, logs_match, low, none-some}

-- The leader of a new term, which knows nothing of its peers.
abbrev elected : Replica
elected = record busy_leader { match_index = (pos 1, minus_one) ∷ (pos 2, minus_one) ∷ [] }

sent_first : append_args (pos 2) (pos 1) elected ≡ some shipment
unfolding append_args find_or term_before entries_at entries_from without_promise inc dec ◌==ℤ◌
sent_first = refl

reads_one : next_of (pos 1) elected ≡ pos 1
unfolding find_or ◌==ℤ◌
reads_one = refl

abbrev informed : Replica
informed = elim (handle_append_reply 6 (pos 1) (pos 2) (pos 1) 1 taken elected) [
  | none ↦ elected
  | some t ↦ t
]

abbrev one_reply : Reply
one_reply = record { next = 1; count = 1; ret = taken }

abbrev one_request : Request
one_request = record { next = 1; args = shipment }

abbrev told : Session
told = record {
  l = informed;
  f = caught_up.0;
  requests = one_request ∷ [];
  replies = one_reply ∷ [];
}

inside : Inside (pos 2) lagging.logs.items elected.logs.items
inside zero e p t = omega arith
inside (suc zero) e p t = omega arith
inside (suc (suc i)) e p t = absurd (none-some e p)

link : Linked (pos 2) lagging.logs.items elected.logs.items
link = record { matching = logs_match; inside = inside }

steady : InStep lagging
steady = record { applied = refl; low = low }

abbrev many : ℤ → Replica
many p = lagging

abbrev asked : Network
asked =
    with_session (pos 1)
      (record (session (pos 1) (network_start elected many)) { requests = one_request ∷ [] })
      (network_start elected many)

abbrev replied : Network
replied =
    with_session (pos 1)
      (record (session (pos 1) asked) { f = caught_up.0; replies = one_reply ∷ [] }) asked

network_steps : NetworkSteps (pos 2) (network_start elected many) replied
unfolding ◌==ℤ◌
network_steps =
    and_then
      (and_then nothing (pos 1) _
        (requested (session (pos 1) (network_start elected many)) 1 shipment reads_one sent_first))
      (pos 1) _
      (delivered (session (pos 1) asked) 5 one_request caught_up.0 taken first runs_taken (tt, tt))

all_fresh : (p i : ℤ) → find p elected.match_index ≡ some i → i ≡ minus_one
unfolding find
all_fresh p i h = ground (arith, h)

nothing_committed :
    (p : ℤ)
    → (upto (many p).commit_index ≤ length elected.logs.items)
      × Agree (upto (many p).commit_index) (many p).logs.items elected.logs.items
nothing_committed p = (omega arith, refl)

followers_hold_prefix_example :
    (upto replied.l.commit_index ≤ length replied.l.logs.items)
    × ((p : ℤ)
        → (upto (replied.f p).commit_index ≤ length replied.l.logs.items)
          × (stripped (take (upto (replied.f p).commit_index) (replied.f p).logs.items)
              ≡ stripped (take (upto (replied.f p).commit_index) replied.l.logs.items)))
    × ((p q : ℤ)
        → upto (replied.f p).commit_index ≤ upto (replied.f q).commit_index
        → stripped (take (upto (replied.f p).commit_index) (replied.f p).logs.items)
          ≡ stripped (take (upto (replied.f p).commit_index) (replied.f q).logs.items))
followers_hold_prefix_example =
    followers_hold_prefix (pos 2) elected many replied (λ p. link) (λ p. steady) all_fresh
      (omega arith) nothing_committed network_steps

-- A leader whose next index for peer 1 is the end of its log, where the peer's entry differs.
abbrev eager : Replica
eager = record elected { next_index = (pos 1, pos 2) ∷ (pos 2, pos 2) ∷ [] }

reads_two : next_of (pos 1) eager ≡ pos 2
unfolding find_or ◌==ℤ◌
reads_two = refl

eager-CanRepair : CanRepair (pos 2) eager lagging
unfolding is_leader is_dead pos_part neg_part
eager-CanRepair = record {
  leads = refl;
  alive = refl;
  recent = omega arith;
  steady_leader = record { applied = refl; low = low };
  steady = steady;
  matching = logs_match;
}

exchanges_repair_example :
    (k : ℕ) × (l' : Replica) × (f' : Replica) × (k ≤ 2)
    × (exchanges (pos 2) (pos 1) (λ i. i * 100) 5 (suc k) (eager, lagging) ≡ some (l', f'))
    × Repaired (pos 1) eager l' f'
exchanges_repair_example =
    exchanges_repair (pos 2) (pos 1) (λ i. i * 100) 5 2 eager lagging eager-CanRepair reads_two
      (omega arith)
