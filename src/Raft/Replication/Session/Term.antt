-- ===== src/Raft/Replication/Session/Term.antt =====
-- `MatchIndex` of a leader of ohmyraft/OhMyRaft.H and the follower's log, after any steps of a term.
use oh_my_db.Prelude.{◌≡◌, ℤ, minus_one, find, some, [], subst, sym}
use oh_my_db.Raft.{Replica}
use oh_my_db.Raft.Machine.Steady.{InStep}
use oh_my_db.Raft.Replication.Logs.{Linked}
use oh_my_db.Raft.Replication.Session.{
  Session, Among, Step, submitted, logged, requested, delivered, answered,
}
use oh_my_db.Raft.Replication.Session.Matched.{AgreesAt, Sound}
use oh_my_db.Raft.Replication.Session.Preserved.{
  AgreesAt-minus_one, Sound-submit, Sound-round, Sound-request, Sound-reply,
}
use oh_my_db.Raft.Replication.Session.Delivery.{Sound-deliver}

pub Sound-Step :
    (peer saved : ℤ) (s t : Session) → Sound peer saved s → Step peer saved s t → Sound peer saved t
Sound-Step peer saved _ _ h (submitted s op) = Sound-submit peer saved s h op
Sound-Step peer saved _ _ h (logged s leads term plain) = Sound-round peer saved s h term
Sound-Step peer saved _ _ h (requested s n args next sent) =
    Sound-request peer saved s n args next sent h
Sound-Step peer saved _ _ h (delivered s now m t r a run plain) =
    Sound-deliver peer saved s h now m t r a run
Sound-Step peer saved _ _ h (answered s now r t a run) = Sound-reply peer saved s h now r t a run

pub none_among : {A : Type 0} (P : A → Type 0) (a : A) → Among a [] → P a
none_among P a m = elim m [ ]

-- The start of a term: nothing is sent, and nothing is known of the follower.
abbrev pub start : Replica → Replica → Session
start l f = record { l = l; f = f; requests = []; replies = [] }

pub start-Sound :
    (peer saved : ℤ) (l f : Replica)
    → Linked saved f.logs.items l.logs.items
    → InStep f
    → ((i : ℤ) → find peer l.match_index ≡ some i → i ≡ minus_one)
    → Sound peer saved (start l f)
start-Sound peer saved l f link steady fresh = record {
  link = link;
  steady = steady;
  pieces = none_among _;
  honest = none_among _;
  filed = λ j k.
      subst (λ x. AgreesAt x f.logs.items l.logs.items) (sym (fresh j k))
        (AgreesAt-minus_one f.logs.items l.logs.items);
}
