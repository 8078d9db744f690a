-- ===== src/Database/LevelDb.antt =====
-- `LevelDBReal` of ohmydb/LevelDBProxy.H, over the leveldb library.
use oh_my_db.Prelude.{
  ◌≡◌, refl, ap, sym, ◌∙◌, ℤ, Bool, true, false, Option, none, some, [], ◌∷◌, ◌>>=◌, inl, inr,
  Bool-cases, ◌==ℤ◌, ==ℤ_iff, if◌then◌else◌, IsInt, to_string, stoi, stoi-to_string, text_eq,
  text_eq_iff, to_string≢nil, to_string-inj, ◌↔◌,
}
use oh_my_db.Consensus.{Text}
use oh_my_db.Database.{Database, IsLawful}

-- The library: `Get` answers a value with the status OK, or none; `Put` answers whether its status
-- is OK.
pub record LevelDb : Type 1 where
  pub Disk : Type 0
  pub read : Text → Disk → Option Text
  pub write : Text → Text → Disk → Disk × Bool

-- What its documentation promises.
pub record IsLevelDb (l : LevelDb) : Type 0 where
  pub read-write :
      (k j v : Text) (m : l.Disk)
      → (l.write k v m).1 ≡ true
      → l.read j (l.write k v m).0 ≡ (if text_eq k j then some v else l.read j m)

-- A stored value is read as a number; none for an empty one. Text that is no number throws: none of
-- the outer option.
unfoldable pub read_value : Option Text → Option (Option ℤ)
read_value none = some none
read_value (some []) = some none
read_value (some (c ∷ cs)) = do v ← stoi (c ∷ cs); some (some v)

-- What the executer sees of a read. One that throws ends the program; here it has no answer, so that the
-- database stands for the runs in which no read throws. `real_put-keeps_reading` is why none begins to.
unfoldable pub answer : Option (Option ℤ) → Option ℤ
answer none = none
answer (some held) = held

answer-if :
    (b : Bool) (v : ℤ) (r : Option (Option ℤ))
    → answer (if b then some (some v) else r) ≡ (if b then some v else answer r)
unfolding answer
answer-if true v r = refl
answer-if false v r = refl

module _ (l : LevelDb) where
  unfoldable pub real_get : ℤ → l.Disk → Option (Option ℤ)
  unfolding read_value
  real_get key db = read_value (l.read (to_string key) db)

  unfoldable pub real_put : ℤ → ℤ → l.Disk → l.Disk × Bool
  real_put key val db = l.write (to_string key) (to_string val) db

  abbrev pub level_db : Database
  level_db = record { Store = l.Disk; get = λ key db. answer (real_get key db); put = real_put }

both : {A B : Type 0} (a b : Bool) → (a ≡ true) ↔ A → (b ≡ true) ↔ B → (A → B) → (B → A) → a ≡ b
both true true p q f g = refl
both true false p q f g = sym (q.1 (f (p.0 refl)))
both false true p q f g = p.1 (g (q.0 refl))
both false false p q f g = refl

text_eq-to_string : (k j : ℤ) → IsInt k → IsInt j → text_eq (to_string k) (to_string j) ≡ (k ==ℤ j)
text_eq-to_string k j hk hj =
    both (text_eq (to_string k) (to_string j)) (k ==ℤ j) (text_eq_iff (to_string k) (to_string j))
      (==ℤ_iff k j) (to_string-inj k j hk hj) (ap to_string)

read_value-to_string : (v : ℤ) → IsInt v → read_value (some (to_string v)) ≡ some (some v)
unfolding read_value
read_value-to_string v hv = go (to_string v) refl
  where
    go : (t : Text) → t ≡ to_string v → read_value (some t) ≡ some (some v)
    go [] e = absurd (to_string≢nil v (sym e))
    go (c ∷ cs) e = rw (e ∙ refl) (rw (stoi-to_string v hv) refl)

-- A put that leveldb stored is read back from its key, and every other key reads as before, also
-- where it throws: for keys and values of 32 bits.
pub real_get-real_put :
    (l : LevelDb) (k j v : ℤ) (m : l.Disk)
    → IsLevelDb l
    → IsInt k
    → IsInt j
    → IsInt v
    → (real_put l k v m).1 ≡ true
    → real_get l j (real_put l k v m).0 ≡ (if k ==ℤ j then some (some v) else real_get l j m)
unfolding real_get real_put
real_get-real_put l k j v m lawful hk hj hv stored =
    rw (lawful.read-write (to_string k) (to_string j) (to_string v) m stored) (
      rw (text_eq-to_string k j hk hj) (elim (Bool-cases (k ==ℤ j)) [
        | inl e ↦ rw e (read_value-to_string v hv)
        | inr e ↦ rw e refl
      ]))

-- A read that does not throw does not throw after a put that was stored either, and its answer is what
-- the read returns.
real_put-keeps_reading :
    (l : LevelDb) (k j v : ℤ) (m : l.Disk)
    → IsLevelDb l
    → IsInt k
    → IsInt j
    → IsInt v
    → (real_put l k v m).1 ≡ true
    → real_get l j m ≡ some (answer (real_get l j m))
    → let m' = (real_put l k v m).0 in real_get l j m' ≡ some (answer (real_get l j m'))
unfolding answer
real_put-keeps_reading l k j v m lawful hk hj hv stored before =
    rw (real_get-real_put l k j v m lawful hk hj hv stored)
      (elim (Bool-cases (k ==ℤ j)) [ inl e ↦ rw e refl | inr e ↦ rw e before ])

-- Over leveldb the executer has a lawful database, for keys and values of 32 bits.
pub level_db-IsLawful : (l : LevelDb) → IsLevelDb l → IsLawful IsInt (level_db l)
level_db-IsLawful l lawful = record {
  get-put = λ k j v m hk hj hv stored.
      ap answer (real_get-real_put l k j v m lawful hk hj hv stored)
      ∙ answer-if (k ==ℤ j) v (real_get l j m);
}
