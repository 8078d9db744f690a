-- ===== src/Config/Lines.antt =====
-- The loops over `getline` of wowUtils/OhMyConfig.H.
use oh_my_db.Prelude.{
  ℕ, ◌≡◌, ◌≢◌, refl, inl, inr, false, Option, none, some, List, [], ◌∷◌, ◌++◌, ◌==◌, arith,
  Bool-cases, AllBut,
}
use oh_my_db.Consensus.{Text}
use oh_my_db.Config.{getline, prepend, split}

-- What `split` yields, seen from the first call of `getline`.
abbrev pub FirstThen : ℕ → List Text → Option (Text × Text) → Type 0
FirstThen d ts none = ts ≡ []
FirstThen d ts (some (t, rest)) = ts ≡ t ∷ split d rest

-- `split` is the loop over `getline`: no text if the first call fails, and else what that call reads,
-- followed by all that is read from there on.
pub split-getline : (d : ℕ) (s : Text) → FirstThen d (split d s) (getline d s)
unfolding split getline prepend
split-getline d [] = refl
split-getline d (c ∷ cs) = elim (Bool-cases (c == d)) [
  | inl e ↦ rw e refl
  | inr e ↦ go e (getline d cs) refl (split-getline d cs)
]
  where
    go :
        (c == d) ≡ false
        → (o : Option (Text × Text)) → getline d cs ≡ o
        → FirstThen d (split d cs) o
        → FirstThen d (split d (c ∷ cs)) (getline d (c ∷ cs))
    go other none e h = rw (other, e, h) refl
    go other (some (t, rest)) e h = rw (other, e, h) refl

pub split-field : (d : ℕ) (t rest : Text) → AllBut d t → split d (t ++ d ∷ rest) ≡ t ∷ split d rest
unfolding split prepend
split-field d [] rest h = ground arith
split-field d (c ∷ t) rest h = rw (h.0, split-field d t rest h.1) refl

pub split-last : (d : ℕ) (t : Text) → AllBut d t → t ≢ [] → split d t ≡ t ∷ []
unfolding split prepend
split-last d [] h ne = absurd (ne refl)
split-last d (c ∷ []) h ne = rw h.0 refl
split-last d (c ∷ b ∷ t) h ne = rw (h.0, split-last d (b ∷ t) h.1 (ground arith)) refl
