-- ===== src/Raft/Replication/Committed.antt =====
-- The commit index of a follower against the log of the leader, in ohmyraft/OhMyRaft.H.
use oh_my_db.Prelude.{
  ℕ, ◌≤◌, ◌≡◌, sym, ap, ◌∙◌, ℤ, pos, negsuc, minus_one, true, some, length, take, map, map-take,
  take-take, ◌≤ℤ◌, ◌<ℤ◌, min_ℤ, ltb_ℤ, last_index, pos_part, neg_part, arith, subst,
}
use oh_my_db.Consensus.{AppendEntriesParams, AppendEntriesRet}
use oh_my_db.Raft.{Replica}
use oh_my_db.Raft.Append.{append_entries, strip}
use oh_my_db.Raft.Append.Commit.{upto}
use oh_my_db.Raft.Append.Followed.{new_log}
use oh_my_db.Raft.Leader.{append_args, next_of}
use oh_my_db.Raft.Replication.{
  LogMatching, request, append_args-request, dec_pos-low, answered, success-Followed,
  append_entries-replicates,
}

pub upto-min : (a b : ℤ) → upto (min_ℤ a b) ≤ upto a
unfolding min_ℤ pos_part neg_part
upto-min (pos a) (pos b) = ground arith
upto-min (pos a) (negsuc b) = ground arith
upto-min (negsuc a) (pos b) = ground arith
upto-min (negsuc a) (negsuc b) = ground arith

commit-inside :
    (now : ℕ) (saved peer : ℤ) (n : ℕ) (l f t : Replica) (args : AppendEntriesParams)
    (r : AppendEntriesRet)
    → next_of peer l ≡ pos n
    → minus_one ≤ℤ f.last_applied
    → append_args saved peer l ≡ some args
    → append_entries now args f ≡ some (t, r)
    → r.success ≡ true
    → f.commit_index <ℤ l.commit_index
    → upto t.commit_index ≤ upto l.commit_index
unfolding request
commit-inside now saved peer n l f t args r next low sent run success ahead =
    let (pt, before, same) = append_args-request saved peer l n next args sent in
    let q = request saved peer l n next pt in
    let (at, fol) =
      success-Followed q f t r (answered now q f t r low (dec_pos-low n) (rw same at run))
        success in
    let later : ltb_ℤ f.commit_index l.commit_index ≡ true = ground arith in
    let c : t.commit_index ≡ min_ℤ l.commit_index (last_index (length (new_log at q f))) =
      rw later at fol.commit in
    subst (λ (i : ℤ). upto i ≤ upto l.commit_index) (sym c) (upto-min l.commit_index _)

-- When a follower answers the leader's own parameters with success and moves its commit index, all
-- that it has committed then is the leader's log up to that index, without promises: for a next index
-- and a commit index inside the leader's log, under Raft's log matching property, and for a follower
-- that has applied no index below -1.
pub append_entries-commits :
    (now : ℕ) (saved peer : ℤ) (n : ℕ) (l f t : Replica) (args : AppendEntriesParams)
    (r : AppendEntriesRet)
    → next_of peer l ≡ pos n
    → n ≤ length l.logs.items
    → LogMatching f.logs.items l.logs.items
    → minus_one ≤ℤ f.last_applied
    → append_args saved peer l ≡ some args
    → append_entries now args f ≡ some (t, r)
    → r.success ≡ true
    → f.commit_index <ℤ l.commit_index
    → upto l.commit_index ≤ length l.logs.items
    → map strip (take (upto t.commit_index) t.logs.items)
      ≡ map strip (take (upto t.commit_index) l.logs.items)
append_entries-commits now saved peer n l f t args r next fits matching low sent run success ahead
      inside =
    let c = upto t.commit_index in
    let m = length l.logs.items in
    let le : c ≤ m = omega (
      arith,
      inside,
      commit-inside now saved peer n l f t args r next low sent run success ahead,
    ) in
    let all =
      append_entries-replicates now saved peer n l f t args r next fits matching low sent run
        success in
    ap (map strip) (sym (take-take c m t.logs.items le))
    ∙ map-take strip c (take m t.logs.items)
    ∙ ap (take c) all
    ∙ sym (map-take strip c l.logs.items)
