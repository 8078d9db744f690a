-- ===== src/Raft/Append/Commit.antt =====
-- The commit index in `AppendEntries` of ohmyraft/OhMyRaft.H, and the loop that queues operations.
use oh_my_db.Prelude.{
  ℕ, zero, suc, ◌+◌, ◌-◌, ◌≤◌, ◌≡◌, refl, inl, inr, ℤ, pos, negsuc, minus_one, some, List, ◌++◌,
  map, length, take, drop, drop-cons, drop-take, inc, dec, min_ℤ, last_index, ltb_ℤ, leb, ◌≤ℤ◌,
  pos_part, neg_part, arith, Bool-cases, if◌then◌else◌,
}
use oh_my_db.Consensus.{LogEntry, Operation}
use oh_my_db.Signal.{signal}
use oh_my_db.Raft.{Replica}
use oh_my_db.Raft.Append.{ops_range, committed_ops, follow_commit}

-- How many entries there are up to an index.
abbrev pub upto : ℤ → ℕ
upto (pos i) = suc i
upto (negsuc _) = 0

abbrev pub ops : List LogEntry → List Operation
ops = map (λ e. e.op)

-- The operations after index `a`, up to index `c`.
abbrev pub between : ℤ → ℤ → List LogEntry → List Operation
between a c logs = ops (drop (upto a) (take (upto c) logs))

ops_range-eq :
    (i n : ℕ) (logs : List LogEntry)
    → i + n ≤ length logs
    → ops_range i n logs ≡ some (ops (take n (drop i logs)))
unfolding ops_range
ops_range-eq i zero logs h = refl
ops_range-eq i (suc n) logs h =
    let (x, found, split) = drop-cons i logs (omega arith) in
    rw (found, split) (rw (ops_range-eq (suc i) n logs (omega arith)))

-- The count is cut off at 0, where nothing is read.
ops_range-between :
    (i c : ℕ) (logs : List LogEntry)
    → suc c ≤ length logs
    → ops_range i (c + 1 - i) logs ≡ some (ops (drop i (take (suc c) logs)))
unfolding ops_range
ops_range-between i c logs h =
    let e : c + 1 ≡ suc c = omega arith in
    elim (Bool-cases (leb i (suc c))) [
      | inl le ↦ rw e (rw drop-take (ops_range-eq i (suc c - i) logs (ground arith)))
      | inr gt ↦ let z : suc c - i ≡ 0 = ground arith in rw e (rw drop-take (rw z))
    ]

-- From a sound start and with a commit index inside the log, exactly the operations between the two
-- indices are queued.
pub committed_ops-between :
    (a c : ℤ) (logs : List LogEntry)
    → minus_one ≤ℤ a
    → upto c ≤ length logs
    → committed_ops a c logs ≡ some (between a c logs)
unfolding committed_ops inc pos_part neg_part
committed_ops-between (pos a) (pos c) logs h k = ops_range-between (suc a) c logs k
committed_ops-between (pos a) (negsuc c) logs h k = refl
committed_ops-between (negsuc zero) (pos c) logs h k = ops_range-between 0 c logs k
committed_ops-between (negsuc zero) (negsuc c) logs h k = refl
committed_ops-between (negsuc (suc a)) c logs h k = absurd (omega arith)

-- The commit index that a follower takes over.
abbrev pub commit_after : ℤ → Replica → ℤ
commit_after leader_commit s =
    if ltb_ℤ s.commit_index leader_commit
    then min_ℤ leader_commit (last_index (length s.logs.items))
    else s.commit_index

-- The replica after the committed operations are queued.
abbrev pub advanced : ℤ → Replica → Replica
advanced commit s = record s {
  commit_index = commit;
  raft_out = s.raft_out ++ between s.last_applied commit s.logs.items;
  last_applied = commit;
  more_exec_jobs_ready = (signal s.more_exec_jobs_ready).0;
}

upto-last : (c : ℤ) (n : ℕ) → upto (min_ℤ c (last_index n)) ≤ n
unfolding min_ℤ dec pos_part neg_part
upto-last (pos c) zero = ground arith
upto-last (pos c) (suc n) = ground arith
upto-last (negsuc c) zero = ground arith
upto-last (negsuc c) (suc n) = ground arith

-- `follow_commit` never reads out of bounds once something sound was applied: it moves the commit
-- index to the leader's, at most to the end of the log, and queues what lies between.
pub follow_commit-eq :
    (leader_commit : ℤ) (s : Replica)
    → minus_one ≤ℤ s.last_applied
    → follow_commit leader_commit s
      ≡ some (
          if ltb_ℤ s.commit_index leader_commit
          then advanced (commit_after leader_commit s) s
          else s)
unfolding follow_commit
follow_commit-eq lc s h = elim (Bool-cases (ltb_ℤ s.commit_index lc)) [
  | inr e ↦ rw e
  | inl e ↦ rw e (
      rw (
        committed_ops-between s.last_applied (min_ℤ lc (last_index (length s.logs.items)))
          s.logs.items h (upto-last lc (length s.logs.items))))
]
