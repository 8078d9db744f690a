-- ===== src/Wire/Database/Trip.antt =====
-- A get and a put of the client library that reach the leader: from `ReplicatedDB` of
-- ohmydb/ReplicatedDB.H through ohmyserver/DatabaseClient.H and ohmyserver/DatabaseServiceImpl.C to
-- what the executer found, and back.
use oh_my_db.Prelude.{ℕ, ◌≡◌, refl, sym, ap, ◌∙◌, some-eq-some, ℤ, Option, none, some, ◌==ℤ◌}
use oh_my_db.Consensus.{Text}
use oh_my_db.Promise.{value}
use oh_my_db.Manager.{DbCode, db_ok, db_not_leader, key_not_found, unnamed, Ret, finish_get}
use oh_my_db.Client.{
  Finder, try_once, is_not_leader, finish_get as client_finish_get, client_put, db_get,
}
use oh_my_db.Client.Retry.{search_leader-first}
use oh_my_db.Wire.Database.{
  db_code_number, number_db_code, serve_put, serve_get, send_put, send_get,
}

abbrev IsNamed : DbCode → Type 0
IsNamed (unnamed _) = ⊥
IsNamed _ = Unit

number_db_code-db_code_number : (c : DbCode) → IsNamed c → number_db_code (db_code_number c) ≡ c
unfolding number_db_code db_code_number ◌==ℤ◌
number_db_code-db_code_number db_ok h = refl
number_db_code-db_code_number db_not_leader h = refl
number_db_code-db_code_number key_not_found h = refl
number_db_code-db_code_number (unnamed n) h = absurd h

-- The answer to a get or a put travels to the client as it is, but for the value of a put: the client
-- puts -1 in its place.
pub send-serve :
    (ret : Ret) (key val : ℤ)
    → IsNamed ret.error_code
    → (send_get (λ request. some (serve_get (λ k. ret) request)) key ≡ some ret)
      × (send_put (λ request. some (serve_put (λ k v. ret) request)) key val
          ≡ client_put (some ret))
unfolding send_get serve_get send_put serve_put client_put
send-serve ret key val h = (
  rw (number_db_code-db_code_number ret.error_code h) refl,
  rw (number_db_code-db_code_number ret.error_code h) refl,
)

-- A call of the service of a leader whose manager answers as `manager_get` says.
abbrev pub call_leader : (ℤ → Ret) → ℤ → Option Ret
call_leader manager_get key = send_get (λ request. some (serve_get manager_get request)) key

call_leader-found :
    (manager_get : ℤ → Ret) (key : ℤ) (ret : Ret)
    → manager_get key ≡ ret
    → IsNamed ret.error_code
    → call_leader manager_get key ≡ some ret
unfolding send_get serve_get
call_leader-found manager_get key ret e named =
    ap
      (λ (r : Ret). some (record {
        error_code = number_db_code (db_code_number r.error_code);
        leader_addr = r.leader_addr;
        value = r.value;
      }))
      e
    ∙ rw (number_db_code-db_code_number ret.error_code named) refl

-- When the first server that a client asks is a leader, the client's get for a key returns what the
-- executer found, if that is what the leader's manager answers for this key: the value, or that there is
-- none.
pub db_get_faithful :
    (manager_get : ℤ → Ret) (reply : ℕ → Text → Option Ret) (f : Finder) (key : ℤ) (held : Option ℤ)
    → reply 0 f.server_addr ≡ call_leader manager_get key
    → finish_get (value held) ≡ some (manager_get key)
    → db_get reply f ≡ held
unfolding db_get try_once client_finish_get is_not_leader finish_get send_get serve_get
    number_db_code db_code_number ◌==ℤ◌
db_get_faithful manager_get reply f key none h found =
    search_leader-first client_finish_get none reply none 0 999 f
      (rw (h ∙ call_leader-found manager_get key _ (sym (some-eq-some found)) tt) refl)
db_get_faithful manager_get reply f key (some v) h found =
    search_leader-first client_finish_get none reply (some v) 0 999 f
      (rw (h ∙ call_leader-found manager_get key _ (sym (some-eq-some found)) tt) refl)
