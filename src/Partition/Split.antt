-- ===== src/Partition/Split.antt =====
-- What the updates of ohmyserver/updatemask.cpp do to the replicas that get them.
use oh_my_db.Prelude.{
  ℕ, zero, suc, ◌+◌, ◌≤◌, ◌<◌, ◌≡◌, refl, ap, sym, ◌∙◌, subst, inl, inr, ℤ, pos, ◌==ℤ◌, ==ℤ_refl,
  Map, find, contains, find-insert, contains-insert, Bool, true, false, not, ◌||◌, Option, none,
  some, some-eq-some, List, [], ◌∷◌, ◌++◌, append-nil, append_assoc, map, length, take, min,
  get_elem?, ◌==◌, if◌then◌else◌, arith, Bool-cases,
}
use oh_my_db.Consensus.{Text, PeerNetworkConfig}
use oh_my_db.Raft.{Replica, Router}
use oh_my_db.Raft.Threads.{network_update, set_router}
use oh_my_db.Partition.{
  partition_id, Plan, no_plan, peer_config, add_replica, plan_from, make_plan, updates,
}

abbrev pub same : Bool → Bool → Bool
same true b = b
same false b = not b

==_false : (i k : ℕ) → i < k → (i == k) ≡ false
==_false i k h = ground arith

==_true : (i k : ℕ) → i ≡ k → (i == k) ≡ true
==_true i k h = ground arith

-- What a replica of partition `b` should be told of the replicas from `i` on.
side_configs : Bool → ℕ → Text → List PeerNetworkConfig
side_configs b i [] = []
side_configs b i (c ∷ cs) = peer_config i (same b (partition_id c)) ∷ side_configs b (suc i) cs

configs_of : Bool → Plan → List PeerNetworkConfig
configs_of true p = p.configs1
configs_of false p = p.configs0

members_of : Bool → Plan → List ℕ
members_of true p = p.members1
members_of false p = p.members0

configs_of-add_replica :
    (b side : Bool) (i : ℕ) (p : Plan)
    → configs_of b (add_replica i side p) ≡ configs_of b p ++ peer_config i (same b side) ∷ []
unfolding configs_of add_replica
configs_of-add_replica true true i p = refl
configs_of-add_replica true false i p = refl
configs_of-add_replica false true i p = refl
configs_of-add_replica false false i p = refl

configs_of-plan_from :
    (b : Bool) (i : ℕ) (cs : Text) (p : Plan)
    → configs_of b (plan_from i cs p) ≡ configs_of b p ++ side_configs b i cs
unfolding plan_from side_configs
configs_of-plan_from b i [] p = rw append-nil refl
configs_of-plan_from b i (c ∷ cs) p =
    configs_of-plan_from b (suc i) cs (add_replica i (partition_id c) p)
    ∙ rw (configs_of-add_replica b (partition_id c) i p) (rw append_assoc refl)

is_in : ℕ → List ℕ → Bool
is_in k [] = false
is_in k (i ∷ is) = if i == k then true else is_in k is

is_in-snoc : (k i : ℕ) (is : List ℕ) → is_in k (is ++ i ∷ []) ≡ is_in k is || i == k
unfolding is_in
is_in-snoc k i [] = ground arith
is_in-snoc k i (j ∷ is) = ground (arith, is_in-snoc k i is)

is_in-add_replica_other :
    (b side : Bool) (k i : ℕ) (p : Plan)
    → k < i
    → is_in k (members_of b (add_replica i side p)) ≡ is_in k (members_of b p)
unfolding members_of add_replica
is_in-add_replica_other true true k i p lt = ground (arith, is_in-snoc k i p.members1)
is_in-add_replica_other true false k i p lt = refl
is_in-add_replica_other false true k i p lt = refl
is_in-add_replica_other false false k i p lt = ground (arith, is_in-snoc k i p.members0)

is_in-plan_from_other :
    (b : Bool) (k i : ℕ) (cs : Text) (p : Plan)
    → k < i
    → is_in k (members_of b (plan_from i cs p)) ≡ is_in k (members_of b p)
unfolding plan_from
is_in-plan_from_other b k i [] p lt = refl
is_in-plan_from_other b k i (c ∷ cs) p lt =
    is_in-plan_from_other b k (suc i) cs (add_replica i (partition_id c) p) (omega arith)
    ∙ is_in-add_replica_other b (partition_id c) k i p lt

abbrev AllLower : Plan → ℕ → Type 0
AllLower p i = (b : Bool) (k : ℕ) → i ≤ k → is_in k (members_of b p) ≡ false

is_in-add_replica :
    (b side : Bool) (k i : ℕ) (p : Plan)
    → is_in k (members_of b p) ≡ false
    → is_in k (members_of b (add_replica i side p)) ≡ (if i == k then same b side else false)
unfolding members_of add_replica
is_in-add_replica true true k i p h = ground (arith, is_in-snoc k i p.members1)
is_in-add_replica true false k i p h = ground arith
is_in-add_replica false true k i p h = ground arith
is_in-add_replica false false k i p h = ground (arith, is_in-snoc k i p.members0)

AllLower-add_replica :
    (side : Bool) (i : ℕ) (p : Plan) → AllLower p i → AllLower (add_replica i side p) (suc i)
AllLower-add_replica side i p low b k lt =
    is_in-add_replica b side k i p (low b k (omega arith)) ∙ rw (==_false i k (omega arith)) refl

-- Replica `j` gets into the partition that its character names, and into no other.
is_in-plan_from :
    (b : Bool) (j k i c : ℕ) (cs : Text) (p : Plan)
    → AllLower p i
    → j ≡ i + k
    → get_elem? cs k ≡ some c
    → is_in j (members_of b (plan_from i cs p)) ≡ same b (partition_id c)
unfolding plan_from
is_in-plan_from b j k i c [] p low at e = absurd (ground (arith, e))
is_in-plan_from b j zero i c (d ∷ cs) p low at e =
    is_in-plan_from_other b j (suc i) cs (add_replica i (partition_id d) p) (omega arith)
    ∙ is_in-add_replica b (partition_id d) j i p (low b j (omega arith))
    ∙ rw (==_true i j (omega arith)) (ap (λ x. same b (partition_id x)) (some-eq-some e))
is_in-plan_from b j (suc k) i c (d ∷ cs) p low at e =
    is_in-plan_from b j k (suc i) c cs (add_replica i (partition_id d) p)
      (AllLower-add_replica (partition_id d) i p low) (omega arith) e

-- The first update that a replica is sent.
abbrev pub sent : ℕ → List (ℕ × List PeerNetworkConfig) → Option (List PeerNetworkConfig)
sent k [] = none
sent k ((i, configs) ∷ rest) = if i == k then some configs else sent k rest

sent-map :
    (k : ℕ) (configs : List PeerNetworkConfig) (is : List ℕ)
    (rest : List (ℕ × List PeerNetworkConfig))
    → sent k (map (λ i. (i, configs)) is ++ rest)
      ≡ (if is_in k is then some configs else sent k rest)
unfolding is_in
sent-map k configs [] rest = refl
sent-map k configs (i ∷ is) rest = ground (arith, sent-map k configs is rest)

sent-map_all :
    (k : ℕ) (configs : List PeerNetworkConfig) (is : List ℕ)
    → sent k (map (λ i. (i, configs)) is) ≡ (if is_in k is then some configs else none)
unfolding is_in
sent-map_all k configs [] = refl
sent-map_all k configs (i ∷ is) = ground (arith, sent-map_all k configs is)

sent-updates :
    (b : Bool) (k : ℕ) (p : Plan)
    → ((a : Bool) → is_in k (members_of a p) ≡ same a b)
    → sent k (updates p) ≡ some (configs_of b p)
unfolding updates members_of configs_of
sent-updates true k p h =
    sent-map k p.configs0 p.members0 _
    ∙ rw (h false) (sent-map_all k p.configs1 p.members1 ∙ rw (h true) refl)
sent-updates false k p h = sent-map k p.configs0 p.members0 _ ∙ rw (h false) refl

-- The same route, no delay.
abbrev pub route : Bool → Router
route is_enabled = record { is_enabled = is_enabled; is_delayed = false; delay_ms = pos 0 }

set_router-other :
    (e : PeerNetworkConfig) (k : ℤ) (peers : Map Router)
    → (e.peer_id ==ℤ k) ≡ false
    → find k (set_router e peers) ≡ find k peers
unfolding set_router
set_router-other e k peers h = elim (Bool-cases (contains e.peer_id peers)) [
  | inl c ↦ rw c (find-insert e.peer_id k _ peers ∙ rw h refl)
  | inr c ↦ rw c refl
]

set_router-has :
    (e : PeerNetworkConfig) (k : ℤ) (peers : Map Router)
    → contains k peers ≡ true
    → contains k (set_router e peers) ≡ true
unfolding set_router
set_router-has e k peers h = elim (Bool-cases (contains e.peer_id peers)) [
  | inr c ↦ rw c h
  | inl c ↦ elim (Bool-cases (e.peer_id ==ℤ k)) [
    | inl same ↦ rw c (contains-insert e.peer_id k _ peers ∙ rw same refl)
    | inr other ↦ rw c (contains-insert e.peer_id k _ peers ∙ rw other h)
  ]
]

set_router_self :
    (i : ℕ) (is_enabled : Bool) (peers : Map Router)
    → contains (pos i) peers ≡ true
    → find (pos i) (set_router (peer_config i is_enabled) peers) ≡ some (route is_enabled)
unfolding set_router peer_config
set_router_self i is_enabled peers h =
    rw h (find-insert (pos i) (pos i) _ peers ∙ rw (==ℤ_refl (pos i)) refl)

different : (i j : ℕ) → j < i → (pos i ==ℤ pos j) ≡ false
unfolding ◌==ℤ◌
different i j lt = ground arith

set_peers : ℕ → Bool → Replica → Replica
unfolding set_router
set_peers i is_enabled s = record s { peers = set_router (peer_config i is_enabled) s.peers }

-- The configurations of later replicas leave the route to an earlier one as it is.
peers_kept :
    (b : Bool) (j i : ℕ) (cs : Text) (s : Replica)
    → j < i
    → find (pos j) (network_update (side_configs b i cs) s).peers ≡ find (pos j) s.peers
unfolding network_update side_configs set_peers peer_config
peers_kept b j i [] s lt = refl
peers_kept b j i (c ∷ cs) s lt =
    let is_enabled = same b (partition_id c) in
    peers_kept b j (suc i) cs (set_peers i is_enabled s) (omega arith)
    ∙ set_router-other (peer_config i is_enabled) (pos j) s.peers (different i j lt)

peers_routed :
    (b : Bool) (j k i c : ℕ) (cs : Text) (s : Replica)
    → contains (pos j) s.peers ≡ true
    → j ≡ i + k
    → get_elem? cs k ≡ some c
    → find (pos j) (network_update (side_configs b i cs) s).peers
      ≡ some (route (same b (partition_id c)))
unfolding network_update side_configs set_peers
peers_routed b j k i c [] s has at e = absurd (ground (arith, e))
peers_routed b j zero i c (d ∷ cs) s has at e =
    let is_enabled = same b (partition_id d) in
    let here : i ≡ j = omega (arith, at) in
    peers_kept b j (suc i) cs (set_peers i is_enabled s) (omega arith)
    ∙ subst
        (λ x.
          find (pos x) (set_router (peer_config i is_enabled) s.peers) ≡ some (route is_enabled))
        here
        (set_router_self i is_enabled s.peers
          (subst (λ x. contains (pos x) s.peers ≡ true) (sym here) has))
    ∙ ap (λ x. some (route (same b (partition_id x)))) (some-eq-some e)
peers_routed b j (suc k) i c (d ∷ cs) s has at e =
    let is_enabled = same b (partition_id d) in
    peers_routed b j k (suc i) c cs (set_peers i is_enabled s)
      (set_router-has (peer_config i is_enabled) (pos j) s.peers has) (omega arith) e

no_plan-AllLower : AllLower no_plan 0
unfolding is_in members_of
no_plan-AllLower true k le = refl
no_plan-AllLower false k le = refl

no_plan-configs : (b : Bool) → configs_of b no_plan ≡ []
unfolding configs_of
no_plan-configs true = refl
no_plan-configs false = refl

-- Each replica that has a character in the text, and a server in the list, is sent an update; after it
-- the route to any peer with a character is enabled if the two are in the same partition, disabled
-- otherwise, and without delay.
pub updates_split :
    (op_cfg : Text) (num_servers k j c d : ℕ) (s : Replica)
    → (let named = take (min (length op_cfg) num_servers) op_cfg in
        (get_elem? named k ≡ some c) × (get_elem? named j ≡ some d))
    → contains (pos j) s.peers ≡ true
    → (configs : List PeerNetworkConfig) × (sent k (updates (make_plan op_cfg num_servers))
        ≡ some configs)
      × (find (pos j) (network_update configs s).peers
          ≡ some (route (same (partition_id c) (partition_id d))))
unfolding make_plan
updates_split op_cfg num_servers k j c d s named has =
    let cs = take (min (length op_cfg) num_servers) op_cfg in
    let b = partition_id c in
    (
      configs_of b (plan_from 0 cs no_plan),
      sent-updates b k (plan_from 0 cs no_plan)
          (λ a. is_in-plan_from a k k 0 c cs no_plan no_plan-AllLower (omega arith) named.0),
      rw (configs_of-plan_from b 0 cs no_plan)
          (rw (no_plan-configs b) (peers_routed b j j 0 d cs s has (omega arith) named.1)),
    )
