-- ===== src/Operation.antt =====
-- `Operation::execute` and `Operation::abort` of ohmyraft/ConsensusUtils.H.
use oh_my_db.Prelude.{true, false, none, some}
use oh_my_db.Consensus.{OpKind, get, put, add_server, remove_server, unknown, Operation}
use oh_my_db.Promise.{OpResult, value, done, PromiseStore, serve}
use oh_my_db.Database.{Database}

-- What a client gets for an operation that is dropped.
unfoldable pub failure : OpKind → OpResult
failure (get _) = value none
failure (put _ _) = done false
failure (add_server _) = done false
failure (remove_server _) = done false
failure (unknown _ _) = done false

-- The promise is fulfilled with `failure`, if there is one, and the handle is dropped. On a kind
-- that has no enumerator the code calls itself, on a promise that was taken out already: the model
-- fulfils that promise once. No such operation has a promise.
unfoldable pub abort : Operation → PromiseStore → Operation × PromiseStore
unfolding failure
abort op p = elim op.promise_handle [
  | none ↦ (op, p)
  | some h ↦ (record op { promise_handle = none }, serve h (failure op.kind) p)
]

unfoldable pub fulfil : Operation → OpResult → PromiseStore → PromiseStore
fulfil op r p = elim op.promise_handle [ none ↦ p | some h ↦ serve h r p ]

module _ (d : Database) where
  -- The result of an operation, and the database after it.
  unfoldable pub perform : OpKind → d.Store → d.Store × OpResult
  perform (get key) m = (m, value (d.get key m))
  perform (put key val) m = let (m', stored) = d.put key val m in (m', done stored)
  perform (add_server _) m = (m, done true)
  perform (remove_server _) m = (m, done true)
  perform (unknown kind arg) m = (m, failure (unknown kind arg))

  -- `for ( auto op: execIn_ ) { op.execute(); }` runs this on each operation.
  unfoldable pub execute : Operation → d.Store × PromiseStore → d.Store × PromiseStore
  unfolding perform fulfil
  execute op (m, p) = let (m', r) = perform op.kind m in (m', fulfil op r p)
