-- ===== src/Persist/Vector.antt =====
-- ohmyraft/PersistentVector.H on the bytes of its file. How a record lies in memory is the argument
-- `layout`; the code copies records to the file and reads them back with a cast.
pub mod Recovery
pub mod Refinement
use oh_my_db.Prelude.{
  ℕ, zero, suc, ◌+◌, ◌-◌, ◌*◌, ◌≤◌, ◌≡◌, List, [], ◌∷◌, ◌++◌, Bool, true, false, leb, ◌==◌, length,
  take, drop, if◌then◌else◌,
}

-- `sizeof( T )`, the bytes of a record, and the cast of as many bytes
pub record Layout (A : Type 0) : Type 0 where
  pub size : ℕ
  pub write : A → List ℕ
  pub read : List ℕ → A

-- What holds of the layout of any type that is trivially copyable.
pub record IsLayout {A : Type 0} (layout : Layout A) : Type 0 where
  pub positive : 1 ≤ layout.size
  pub length-write : (a : A) → length (layout.write a) ≡ layout.size
  pub read-write : (a : A) → layout.read (layout.write a) ≡ a

pub record DiskVector (A : Type 0) : Type 0 where
  pub items : List A
  pub persisted_items : ℕ
  pub file : List ℕ

unfoldable pub zeros : ℕ → List ℕ
zeros zero = []
zeros (suc n) = 0 ∷ zeros n

-- `ftruncate`, which fills a shorter file up with zeros
unfoldable pub truncate : ℕ → List ℕ → List ℕ
unfolding zeros
truncate n file = take n file ++ zeros (n - length file)

unfoldable pub push_back : {A : Type 0} → A → DiskVector A → DiskVector A
push_back a v = record v { items = v.items ++ a ∷ [] }

module _ {A : Type 0} (layout : Layout A) where
  unfoldable pub resize : ℕ → DiskVector A → DiskVector A
  unfolding truncate
  resize n v =
      if leb n v.persisted_items
      then record {
        items = take n v.items;
        persisted_items = n;
        file = truncate (n * layout.size) v.file;
      }
      else record v { items = take n v.items }

  -- `for ( i = persistedItems_; … ) { write( … ); }`
  unfoldable pub write_all : (A → A) → List A → List ℕ → List ℕ
  write_all preproc [] file = file
  write_all preproc (a ∷ rest) file = write_all preproc rest (file ++ layout.write (preproc a))

  unfoldable pub persist : (A → A) → DiskVector A → DiskVector A
  unfolding resize write_all
  persist preproc v =
      if length v.items == v.persisted_items
      then v
      else let w = resize (length v.items) v in
        record w {
          persisted_items = length v.items;
          file = write_all preproc (drop w.persisted_items w.items) w.file;
        }

  -- The loop of `bootstrap` over the bytes that are left; each round takes at least one.
  unfoldable pub whole_records : ℕ → List ℕ → List A
  whole_records zero bytes = []
  whole_records (suc fuel) bytes =
      let rest = whole_records fuel (drop layout.size bytes) in
      if leb layout.size (length bytes) then layout.read (take layout.size bytes) ∷ rest else []

  -- `setup`, on a vector that was not set up before. The `resize` at the end of `bootstrap` runs
  -- while `persistedItems_` is 0, so it cuts nothing off the file. Where the file has no whole record
  -- it truncates and closes a descriptor that was never set: the model takes that for no effect. A
  -- file that is not there is an empty one.
  unfoldable pub setup : Bool → List ℕ → DiskVector A
  unfolding whole_records
  setup with_bootstrap bytes =
      let items = whole_records (length bytes) bytes in
      if with_bootstrap
      then record { items = items; persisted_items = length items; file = bytes }
      else record { items = []; persisted_items = 0; file = [] }
