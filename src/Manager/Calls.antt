-- ===== src/Manager/Calls.antt =====
-- The promise of a call of ohmydb/OhMyReplica.H, from `insert` to `getAndRemove`.
use oh_my_db.Prelude.{
  ℕ, ◌+◌, ◌<◌, ◌≡◌, refl, ap, ◌∙◌, inl, inr, ℤ, contains, true, false, some, List, [], ◌∷◌, ◌++◌,
  Bool-cases, arith,
}
use oh_my_db.Consensus.{get, OpKind, Operation}
use oh_my_db.Promise.{value, PromiseStore, insert, holds, without, get_and_remove, serve}
use oh_my_db.Operation.{perform, fulfil, execute}
use oh_my_db.Database.{Database, IsLawful}
use oh_my_db.Raft.{Replica}
use oh_my_db.Raft.Leader.{is_leader}
use oh_my_db.Raft.Threads.Executed.{AllFit, AlwaysStores, last_put, execute_all-get}
use oh_my_db.Raft.Threads.{execute_all, submit, needs_leader}
use oh_my_db.Raft.Membership.{leader_db_addr, known_leader}
use oh_my_db.Manager.{answered, db_not_leader, start_call}

-- Every stored handle was handed out before.
abbrev pub AllBelow : ℕ → List ℕ → Type 0
AllBelow n [] = Unit
AllBelow n (h ∷ hs) = (h < n) × AllBelow n hs

holds-new : (n : ℕ) (hs : List ℕ) → AllBelow n hs → holds n (hs ++ n ∷ []) ≡ true
unfolding holds
holds-new n [] b = ground arith
holds-new n (h ∷ hs) b = ground (arith, holds-new n hs b.1)

without-new : (n : ℕ) (hs : List ℕ) → AllBelow n hs → without n (hs ++ n ∷ []) ≡ hs
unfolding without
without-new n [] b = ground arith
without-new n (h ∷ hs) b = ground (arith, b.0, without-new n hs b.1)

-- A promise that was just put in can be taken out, and the store holds what it held.
pub get_and_remove-insert :
    (p : PromiseStore)
    → AllBelow p.inserted p.store
    → get_and_remove p.inserted (insert p).0 ≡ record p { inserted = p.inserted + 1 }
unfolding get_and_remove insert
get_and_remove-insert p b =
    rw (holds-new p.inserted p.store b) (rw (without-new p.inserted p.store b) refl)

-- A replica that is not the leader answers get and put with the address of the leader it knows; its
-- promises and its inputs are as before, but for the number of the next handle.
pub start_call-refused :
    (kind : OpKind) (absent : ℤ) (s : Replica)
    → needs_leader kind ≡ true
    → is_leader s.role ≡ false
    → AllBelow s.promises.inserted s.promises.store
    → let (t, a) = start_call kind absent s in
      (a
        ≡ answered (record {
          error_code = db_not_leader;
          leader_addr = (leader_db_addr s).1;
          value = absent;
        }))
      × (t.promises ≡ record s.promises { inserted = s.promises.inserted + 1 })
      × (t.dispatch_out ≡ s.dispatch_out)
unfolding start_call submit leader_db_addr known_leader insert
start_call-refused kind absent s n l b =
    rw (n, l)
      (elim (Bool-cases (contains s.last_known_leader_id s.cluster_config)) [
        | inl e ↦ rw e (refl, get_and_remove-insert s.promises b, refl)
        | inr e ↦ rw e (refl, get_and_remove-insert s.promises b, refl)
      ])

-- An operation whose promise is in the store is executed once: the database changes as the operation
-- asks, its promise is taken out and fulfilled with the result, and no other is touched.
pub execute-serves :
    (d : Database) (op : Operation) (h : ℕ) (m : d.Store) (p : PromiseStore)
    → op.promise_handle ≡ some h
    → holds h p.store ≡ true
    → execute d op (m, p) ≡ (
      (perform d op.kind m).0,
      record p { store = without h p.store; served = (h, (perform d op.kind m).1) ∷ p.served },
    )
unfolding execute fulfil serve get_and_remove
execute-serves d op h m p e k = rw (e, fulfil) (rw k refl)

-- A get that the executer comes to after any operations fulfils its promise with the value of the last put of
-- its key among them, or with what the key held before, and takes no other promise out: for a promise that is
-- in the store then, and for a database that refuses no put and reads back what was stored, among
-- keys and values that fit it.
pub execute-last_put :
    {Fits : ℤ → Type 0} (d : Database) (ops : List Operation) (m : d.Store) (p : PromiseStore)
    (k : ℤ) (h : ℕ)
    → Fits k
    → AllFit Fits ops
    → IsLawful Fits d
    → AlwaysStores d
    → holds h (execute_all d ops (m, p)).1.store ≡ true
    → let (found, q) = execute_all d ops (m, p) in
      execute d (record { kind = get k; promise_handle = some h }) (found, q) ≡ (
        found,
        record q {
          store = without h q.store;
          served = (h, value (last_put k ops (d.get k m))) ∷ q.served;
        },
      )
unfolding perform
execute-last_put d ops m p k h fk fits lawful stores held =
    let (found, q) = execute_all d ops (m, p) in
    execute-serves d (record { kind = get k; promise_handle = some h }) h found q refl held
    ∙ ap (λ v. (found, record q { store = without h q.store; served = (h, value v) ∷ q.served }))
        (execute_all-get d ops m p k fk fits lawful stores)
