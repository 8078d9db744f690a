-- ===== src/Manager/Start/Ready.antt =====
-- When `initialiseServices` of ohmydb/OhMyReplica.H returns, and the replica that it leaves.
use oh_my_db.Prelude.{
  ℕ, zero, suc, ◌+◌, ◌*◌, ◌≤◌, ◌<◌, ◌≡◌, refl, subst, ◌∙◌, inl, inr, ℤ, Map, insert, find, contains,
  find-insert, contains-insert, Bool, true, false, ◌&&◌, ◌||◌, not, none, some, [], ◌∷◌, length,
  ltb, ltb_ℤ, ◌==ℤ◌, ==ℤ_iff, if◌then◌else◌, arith, Bool-cases,
}
use oh_my_db.Consensus.{ServerInfo, no_server}
use oh_my_db.Raft.{Replica, Router, fresh_router}
use oh_my_db.Raft.Roles.{add_peer, set_cluster_config, persist}
use oh_my_db.Raft.Threads.{Disk, bootstrap}
use oh_my_db.Manager.Start.{
  Place, local_config, filled_in, connect, active_peers, wait_for_peers, add_peers, Started,
  started_at, initialise_services,
}

wait_for_peers-leaves :
    (is_waiting : Bool) (size : ℕ) (peers : Map Router) (pings : ℕ → ℤ → ℤ) (j k r n : ℕ)
    → k < n
    → j ≡ r + k
    → size < active_peers (pings j) peers * 2
    → (at : ℕ) × (wait_for_peers is_waiting size peers pings r n ≡ some at) × (at ≤ j)
unfolding wait_for_peers
wait_for_peers-leaves is_waiting size peers pings j k r zero lt e many = absurd (omega arith)
wait_for_peers-leaves is_waiting size peers pings j zero r (suc n) lt e many =
    elim (Bool-cases (not is_waiting || ltb size (active_peers (pings r) peers * 2))) [
      | inl h ↦ (r, rw h refl, omega arith)
      | inr h ↦
          let here : j ≡ r = omega (arith, e) in
          absurd (ground (arith, h, subst (λ x. size < active_peers (pings x) peers * 2) here many))
    ]
wait_for_peers-leaves is_waiting size peers pings j (suc k) r (suc n) lt e many =
    let (at, left, le) =
      wait_for_peers-leaves is_waiting size peers pings j k (suc r) n (omega arith) (omega arith)
        many in
    elim (Bool-cases (not is_waiting || ltb size (active_peers (pings r) peers * 2))) [
      | inl h ↦ (r, rw h refl, omega arith)
      | inr h ↦ (at, rw h left, le)
    ]

-- Every client is new.
abbrev AllFresh : Map Router → Type 0
AllFresh [] = Unit
AllFresh ((i, peer) ∷ peers) = (peer ≡ fresh_router) × AllFresh peers

insert-AllFresh :
    (i : ℤ) (peers : Map Router) → AllFresh peers → AllFresh (insert i fresh_router peers)
unfolding insert
insert-AllFresh i [] h = (refl, tt)
insert-AllFresh i ((j, peer) ∷ peers) h =
    let later = insert-AllFresh i peers h.1 in
    elim (Bool-cases (j ==ℤ i)) [
      | inl e ↦ rw e (refl, h.1)
      | inr e ↦ elim (Bool-cases (ltb_ℤ i j)) [
        | inl l ↦ rw (e, l) (refl, (h.0, h.1))
        | inr l ↦ rw (e, l) (h.0, later)
      ]
    ]

connect-AllFresh :
    (id : ℤ) (config : Map ServerInfo) (peers : Map Router)
    → AllFresh peers
    → AllFresh (connect id config peers)
unfolding connect
connect-AllFresh id [] peers h = h
connect-AllFresh id ((i, info) ∷ config) peers h = elim (Bool-cases (i ==ℤ id)) [
  | inl e ↦ rw e (connect-AllFresh id config peers h)
  | inr e ↦
      rw e (connect-AllFresh id config (insert i fresh_router peers) (insert-AllFresh i peers h))
]

contains-connect :
    (id j : ℤ) (config : Map ServerInfo) (peers : Map Router)
    → contains j (connect id config peers)
      ≡ (if contains j config && not (j ==ℤ id) then true else contains j peers)
unfolding connect contains
contains-connect id j [] peers = refl
contains-connect id j ((i, info) ∷ config) peers = elim (Bool-cases (i ==ℤ id)) [
  | inl e ↦ rw e (
      contains-connect id j config peers
      ∙ ground (arith, ==ℤ_iff i id, ==ℤ_iff i j, ==ℤ_iff j id, e))
  | inr e ↦ rw e (
      contains-connect id j config (insert i fresh_router peers)
      ∙ ground (
        arith,
        contains-insert i j fresh_router peers,
        ==ℤ_iff i id,
        ==ℤ_iff i j,
        ==ℤ_iff j id,
        e,
      ))
]

find-add_peers :
    (j : ℤ) (peers : Map Router) (s : Replica)
    → AllFresh peers
    → find j (add_peers peers s).peers
      ≡ (if contains j peers then some fresh_router else find j s.peers)
unfolding add_peers add_peer contains
find-add_peers j [] s h = refl
find-add_peers j ((i, peer) ∷ peers) s h =
    find-add_peers j peers (add_peer i peer s) h.1
    ∙ ground (arith, find-insert i j peer s.peers, h.0)

cluster_config-add_peers :
    (peers : Map Router) (s : Replica) → (add_peers peers s).cluster_config ≡ s.cluster_config
unfolding add_peers add_peer persist
cluster_config-add_peers [] s = refl
cluster_config-add_peers ((i, peer) ∷ peers) s = cluster_config-add_peers peers (add_peer i peer s)

contains-local_config :
    (id j : ℤ) (place : Place) (config : Map ServerInfo)
    → (contains j (local_config id place config) && not (j ==ℤ id))
      ≡ (contains j config && not (j ==ℤ id))
unfolding local_config
contains-local_config id j place config =
    ground (arith, contains-insert id j no_server config, ==ℤ_iff id j, ==ℤ_iff j id)

peers-bootstrap : (id : ℤ) (b : Bool) (disk : Disk) → (bootstrap id b disk).peers ≡ []
unfolding bootstrap persist
peers-bootstrap id true disk = refl
peers-bootstrap id false disk = refl

nothing_before :
    (j : ℤ) (b : Bool)
    → (if (if b then true else contains {V = Router} j []) then some fresh_router else find j [])
      ≡ (if b then some fresh_router else none)
unfolding contains find
nothing_before j true = refl
nothing_before j false = refl

-- The size of the configuration that the wait compares with, and the clients that it pings.
abbrev pub size_of : ℤ → Place → Map ServerInfo → ℕ
size_of id place config = length (local_config id place config)

abbrev pub clients_of : ℤ → Place → Map ServerInfo → Map Router
clients_of id place config = connect id (local_config id place config) []

-- If in one of the rounds, with the replica itself, more than half of the servers answer, then
-- `initialiseServices` returns. The replica then has the configuration that it was given, and exactly
-- the other servers of it as its peers, over routes that are enabled and without delay.
pub initialise_services-ready :
    (config : Map ServerInfo) (id : ℤ) (is_waiting with_bootstrap : Bool) (disk : Disk)
    (place : Place) (pings : ℕ → ℤ → ℤ) (rounds k : ℕ)
    → k < rounds
    → size_of id place config < active_peers (pings k) (clients_of id place config) * 2
    → (started : Started) × (initialise_services config id is_waiting with_bootstrap disk place
          pings rounds
        ≡ some started)
      × (started.replica.cluster_config ≡ config)
      × ((j : ℤ)
          → find j started.replica.peers
            ≡ (if contains j config && not (j ==ℤ id) then some fresh_router else none))
unfolding initialise_services set_cluster_config persist
initialise_services-ready config id is_waiting with_bootstrap disk place pings rounds k lt many =
    let clients = clients_of id place config in
    let s = set_cluster_config config (bootstrap id with_bootstrap disk) in
    let (at, left, le) =
      wait_for_peers-leaves is_waiting (size_of id place config) clients pings k k 0 rounds lt
        (omega arith) many in
    (
      started_at (filled_in id place config) (add_peers clients s),
      rw left refl,
      cluster_config-add_peers clients s,
      λ j.
          find-add_peers j clients s (connect-AllFresh id (local_config id place config) [] tt)
          ∙ rw (contains-connect id j (local_config id place config) []) (
              rw (contains-local_config id j place config) (
                rw (peers-bootstrap id with_bootstrap disk)
                  (nothing_before j (contains j config && not (j ==ℤ id))))),
    )
