-- ===== src/Database.antt =====
-- ohmydb/LevelDBProxy.H: what the executer needs of a database, and the in-memory `LevelDBProxy`.
pub mod LevelDb
use oh_my_db.Prelude.{
  ℤ, Map, Bool, true, Option, some, ◌≡◌, find, insert, find-insert, ◌==ℤ◌, if◌then◌else◌,
}

-- `LevelDB<int, int>`: a database with `get` and `put`. `put` answers whether it was stored.
pub record Database : Type 1 where
  pub Store : Type 0
  pub get : ℤ → Store → Option ℤ
  pub put : ℤ → ℤ → Store → Store × Bool

-- What is relied on: a stored value is read back, and nothing else changes, for keys and values that
-- fit the database.
pub record IsLawful (Fits : ℤ → Type 0) (d : Database) : Type 0 where
  pub get-put :
      (k j v : ℤ) (m : d.Store)
      → Fits k
      → Fits j
      → Fits v
      → (d.put k v m).1 ≡ true
      → d.get j (d.put k v m).0 ≡ (if k ==ℤ j then some v else d.get j m)

-- `LevelDBProxy`, over its `std::map`
unfoldable pub proxy_get : ℤ → Map ℤ → Option ℤ
proxy_get key mpp = find key mpp

unfoldable pub proxy_put : ℤ → ℤ → Map ℤ → Map ℤ × Bool
proxy_put key val mpp = (insert key val mpp, true)

abbrev pub proxy : Database
proxy = record { Store = Map ℤ; get = proxy_get; put = proxy_put }

-- The map takes all keys and values.
abbrev pub AnyInt : ℤ → Type 0
AnyInt _ = Unit

pub proxy-IsLawful : IsLawful AnyInt proxy
unfolding proxy_get proxy_put
proxy-IsLawful = record { get-put = λ k j v m fk fj fv h. find-insert k j v m }
