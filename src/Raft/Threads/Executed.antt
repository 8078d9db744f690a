-- ===== src/Raft/Threads/Executed.antt =====
-- The database after the operations that `executerImpl` of ohmyraft/OhMyRaft.H has executed.
use oh_my_db.Prelude.{
  ◌≡◌, refl, ap, ◌∙◌, ℤ, true, Option, some, List, [], ◌∷◌, ◌==ℤ◌, if◌then◌else◌,
}
use oh_my_db.Consensus.{OpKind, get, put, add_server, remove_server, unknown, Operation}
use oh_my_db.Promise.{PromiseStore}
use oh_my_db.Operation.{perform, execute}
use oh_my_db.Database.{Database, IsLawful}
use oh_my_db.Raft.Threads.{execute_all}

-- What a key holds after one operation, and after operations in order, from what it held.
abbrev pub put_by : ℤ → OpKind → Option ℤ → Option ℤ
put_by k (put j v) held = if j ==ℤ k then some v else held
put_by k _ held = held

abbrev pub last_put : ℤ → List Operation → Option ℤ → Option ℤ
last_put k [] held = held
last_put k (op ∷ ops) held = last_put k ops (put_by k op.kind held)

-- Every put among the operations is of a key and a value that fit the database.
abbrev pub KindFits : (ℤ → Type 0) → OpKind → Type 0
KindFits Fits (put key val) = Fits key × Fits val
KindFits Fits _ = Unit

abbrev pub AllFit : (ℤ → Type 0) → List Operation → Type 0
AllFit Fits [] = Unit
AllFit Fits (op ∷ ops) = KindFits Fits op.kind × AllFit Fits ops

-- A database that refuses no put.
abbrev pub AlwaysStores : Database → Type 0
AlwaysStores d = (k v : ℤ) (m : d.Store) → (d.put k v m).1 ≡ true

perform-get :
    {Fits : ℤ → Type 0} (d : Database) (k : ℤ) (kind : OpKind) (m : d.Store)
    → Fits k
    → KindFits Fits kind
    → IsLawful Fits d
    → AlwaysStores d
    → d.get k (perform d kind m).0 ≡ put_by k kind (d.get k m)
unfolding perform
perform-get d k (get j) m fk fits lawful stores = refl
perform-get d k (put j v) m fk fits lawful stores =
    lawful.get-put j k v m fits.0 fk fits.1 (stores j v m)
perform-get d k (add_server info) m fk fits lawful stores = refl
perform-get d k (remove_server id) m fk fits lawful stores = refl
perform-get d k (unknown kind arg) m fk fits lawful stores = refl

-- After the executer has gone through any operations, a key of the database holds the value of the
-- last put of it among them, or what it held before: for a database that refuses no put and reads
-- back what was stored, among keys and values that fit it.
pub execute_all-get :
    {Fits : ℤ → Type 0} (d : Database) (ops : List Operation) (m : d.Store) (p : PromiseStore)
    (k : ℤ)
    → Fits k
    → AllFit Fits ops
    → IsLawful Fits d
    → AlwaysStores d
    → d.get k (execute_all d ops (m, p)).0 ≡ last_put k ops (d.get k m)
unfolding execute_all execute
execute_all-get d [] m p k fk fits lawful stores = refl
execute_all-get d (op ∷ ops) m p k fk fits lawful stores =
    execute_all-get d ops (execute d op (m, p)).0 (execute d op (m, p)).1 k fk fits.1 lawful stores
    ∙ ap (last_put k ops) (perform-get d k op.kind m fk fits.0 lawful stores)
