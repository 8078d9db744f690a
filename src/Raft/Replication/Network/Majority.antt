-- ===== src/Raft/Replication/Network/Majority.antt =====
-- What it takes for the leader of ohmyraft/OhMyRaft.H to move its commit index.
use oh_my_db.Prelude.{
  ℕ, zero, suc, ◌≤◌, ◌≡◌, refl, sym, ◌∙◌, subst, inl, inr, ◌⊎◌, ℤ, pos, negsuc, minus_one, find,
  find_or, contains, ==ℤ_refl, true, some, some-eq-some, Map, List, [], ◌∷◌, length, dec, inc,
  leb_ℤ, ◌≤ℤ◌, ◌<ℤ◌, arith, Bool-cases, pos_part, neg_part,
}
use oh_my_db.Consensus.{LogEntry}
use oh_my_db.Raft.{Replica, Router}
use oh_my_db.Raft.Leader.{peers_at, holders, leader_commit}
use oh_my_db.Raft.Leader.Commit.{CommitChoice, leader_commit-choice}
use oh_my_db.Raft.Replication.Logs.{Agree, Agree-less}
use oh_my_db.Raft.Replication.Network.{Sublist, empty, skip, keep, keys, AllAgree, IsHeld}
use oh_my_db.Raft.Replication.Network.Filed.{Filed}
use oh_my_db.Raft.Replication.Session.Matched.{AgreesAt}

contains-find : (k : ℤ) (d : ℤ) (m : Map ℤ) → contains k m ≡ true → find k m ≡ some (find_or k d m)
unfolding contains find find_or
contains-find k d [] h = absurd (ground (arith, h))
contains-find k d ((j, v) ∷ m) h = ground (arith, contains-find k d m)

leb-dec : (i k : ℕ) → leb_ℤ (pos i) (dec (pos k)) ≡ true → suc i ≤ k
unfolding dec pos_part neg_part
leb-dec i zero h = ground arith
leb-dec i (suc k) h = ground arith

-- A match index of `i` or more is that of an agreement past `i`.
AgreesAt-Agree :
    (i : ℕ) (j : ℤ) (fs ls : List LogEntry)
    → leb_ℤ (pos i) j ≡ true
    → AgreesAt j fs ls
    → Agree (suc i) fs ls
AgreesAt-Agree i j fs ls le a =
    Agree-less (suc i) a.k fs ls (leb-dec i a.k (rw a.index at le)) a.agree

-- The peers that are counted agree with the leader.
record Counted (i : ℕ) (f : ℤ → Replica) (l : Replica) (peers : Map Router) : Type 0 where
  those : List ℤ
  among : Sublist those (keys peers)
  agree : AllAgree (suc i) f l those
  count : length those ≡ peers_at (pos i) l.match_index peers

peers_at-Counted :
    (i : ℕ) (f : ℤ → Replica) (l : Replica) (peers : Map Router)
    → ((p : ℤ)
        → contains p peers ≡ true
        → leb_ℤ (pos i) (find_or p (pos 0) l.match_index) ≡ true
        → Agree (suc i) (f p).logs.items l.logs.items)
    → Counted i f l peers
unfolding peers_at contains
peers_at-Counted i f l [] h = record { those = []; among = empty; agree = tt; count = refl }
peers_at-Counted i f l ((p, r) ∷ peers) h =
    let rest : Counted i f l peers =
      peers_at-Counted i f l peers (λ q c le. h q (ground (arith, c)) le) in
    elim (Bool-cases (leb_ℤ (pos i) (find_or p (pos 0) l.match_index))) [
      | inl e ↦ record {
        those = p ∷ rest.those;
        among = keep rest.among;
        agree = (h p (rw (==ℤ_refl p) refl) e, rest.agree);
        count = rw e (omega (arith, rest.count));
      }
      | inr e ↦ record {
        those = rest.those;
        among = skip rest.among;
        agree = rest.agree;
        count = rw e (omega (arith, rest.count));
      }
    ]

inc-low : (i : ℤ) → (minus_one ≤ℤ i) ⊎ ((m : ℕ) × (inc i ≡ negsuc m))
unfolding inc pos_part neg_part
inc-low (pos i) = inl (omega arith)
inc-low (negsuc zero) = inl (omega arith)
inc-low (negsuc (suc i)) = inr (i, refl)

leader_commit-low : (s : Replica) (c : ℤ) → leader_commit s ≡ some c → minus_one ≤ℤ s.commit_index
unfolding leader_commit
leader_commit-low s c h = elim (inc-low s.commit_index) [
  | inl low ↦ low
  | inr (m, e) ↦ absurd (ground (arith, e, h))
]

pub leader_commit-CommitChoice : (s : Replica) (c : ℤ) → leader_commit s ≡ some c → CommitChoice s c
leader_commit-CommitChoice s c h =
    let (c', run, choice) = leader_commit-choice s (leader_commit-low s c h) in
    subst (CommitChoice s) (some-eq-some (sym run ∙ h)) choice

-- The leader moves its commit index only to an entry that is held.
pub leader_commit-IsHeld :
    (s : Replica) (f : ℤ → Replica) (c : ℤ)
    → Filed s
    → ((p : ℤ) (i : ℤ) → find p s.match_index ≡ some i → AgreesAt i (f p).logs.items s.logs.items)
    → leader_commit s ≡ some c
    → (c ≡ s.commit_index) ⊎ ((s.commit_index <ℤ c) × IsHeld s f c)
unfolding holders
leader_commit-IsHeld s f c covered agrees run = elim (leader_commit-CommitChoice s c run).sound [
  | inl same ↦ inl same
  | inr (ahead, j, e, index, here, fit) ↦
      let counted : Counted j f s s.peers = peers_at-Counted j f s s.peers (λ p known le.
        AgreesAt-Agree j (find_or p (pos 0) s.match_index) (f p).logs.items s.logs.items le
          (agrees p _ (contains-find p (pos 0) s.match_index (covered p known)))) in
      inr (
        ahead,
        record {
          place = j;
          entry = e;
          index = index;
          here = here;
          term = fit.term;
          holders = counted.those;
          peers = counted.among;
          agree = counted.agree;
          majority = rw counted.count fit.majority;
        },
      )
]
