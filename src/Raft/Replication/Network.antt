-- ===== src/Raft/Replication/Network.antt =====
-- A leader of ohmyraft/OhMyRaft.H and all its followers over a term: each follower has a session of its own
-- with the one leader.
pub mod Kept
pub mod Filed
pub mod Majority
pub mod Moved
pub mod Prefix
pub mod Agreed
use oh_my_db.Prelude.{
  ℕ, ◌+◌, ◌*◌, ◌<◌, ◌≡◌, suc, ℤ, pos, Map, contains, true, Bool, some, List, [], ◌∷◌, length, map,
  get_elem?, ◌==ℤ◌, if◌then◌else◌,
}
use oh_my_db.Consensus.{LogEntry}
use oh_my_db.Raft.{Replica, Router}
use oh_my_db.Raft.Replication.Logs.{Agree}
use oh_my_db.Raft.Replication.Session.{Request, Reply, Session, Step}

pub record Network : Type 0 where
  pub l : Replica
  pub f : ℤ → Replica
  pub requests : ℤ → List Request
  pub replies : ℤ → List Reply

abbrev pub session : ℤ → Network → Session
session peer n = record {
  l = n.l;
  f = n.f peer;
  requests = n.requests peer;
  replies = n.replies peer;
}

abbrev pub set_at : {A : Type 0} → ℤ → A → (ℤ → A) → ℤ → A
set_at p x g q = if p ==ℤ q then x else g q

-- The network after its peer's session has become `s`.
abbrev pub with_session : ℤ → Session → Network → Network
with_session p s n = record {
  l = s.l;
  f = set_at p s.f n.f;
  requests = set_at p s.requests n.requests;
  replies = set_at p s.replies n.replies;
}

pub data NetworkSteps (saved : ℤ) (n : Network) : Network → Type 0 where
  nothing : NetworkSteps saved n n
  and_then :
      {m : Network}
      → NetworkSteps saved n m
      → (peer : ℤ) (s : Session) → Step peer saved (session peer m) s
      → NetworkSteps saved n (with_session peer s m)

pub data Sublist : List ℤ → List ℤ → Type 0 where
  empty : Sublist [] []
  skip : {xs ys : List ℤ} {y : ℤ} → Sublist xs ys → Sublist xs (y ∷ ys)
  keep : {xs ys : List ℤ} {y : ℤ} → Sublist xs ys → Sublist (y ∷ xs) (y ∷ ys)

abbrev pub keys : Map Router → List ℤ
keys = map (λ p. p.0)

abbrev pub AllAgree : ℕ → (ℤ → Replica) → Replica → List ℤ → Type 0
AllAgree k f l [] = Unit
AllAgree k f l (p ∷ ps) = Agree k (f p).logs.items l.logs.items × AllAgree k f l ps

-- The leader has an entry of its term at index `i`, and peers of it that are, with the leader itself if it is
-- in the configuration, more than half of that agree with its log up to the entry.
pub record IsHeld (l : Replica) (f : ℤ → Replica) (i : ℤ) : Type 0 where
  pub place : ℕ
  pub entry : LogEntry
  pub index : i ≡ pos place
  pub here : get_elem? l.logs.items place ≡ some entry
  pub term : entry.term ≡ l.current_term
  pub holders : List ℤ
  pub peers : Sublist holders (keys l.peers)
  pub agree : AllAgree (suc place) f l holders
  pub majority :
      length l.cluster_config
      < ((if contains l.id l.cluster_config then 1 else 0) + length holders) * 2
