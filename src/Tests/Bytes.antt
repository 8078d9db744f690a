-- ===== src/Tests/Bytes.antt =====
-- Concrete runs of the log file's bytes, for records of two bytes.
use oh_my_db.Prelude.{ℕ, ◌≡◌, refl, true, List, [], ◌∷◌, ◌++◌, arith}
use oh_my_db.Persist.Log.{LogVector, persist as persist_log}
use oh_my_db.Persist.Vector.{Layout, IsLayout, DiskVector, push_back, persist, setup}
use oh_my_db.Persist.Vector.Recovery.{flatten, setup-recovers, setup-misreads}
use oh_my_db.Persist.Vector.Refinement.{Represents, persist-Represents, setup-Represents}

abbrev first : List ℕ → ℕ
first [] = 0
first (x ∷ xs) = x

abbrev twice : Layout ℕ
twice = record { size = 2; write = λ n. n ∷ n ∷ []; read = first }

twice-IsLayout : IsLayout twice
twice-IsLayout = record { positive = omega arith; length-write = λ a. refl; read-write = λ a. refl }

setup-recovers_example :
    (setup twice true (flatten twice (5 ∷ 6 ∷ []) ++ 9 ∷ [])).items ≡ 5 ∷ 6 ∷ []
setup-recovers_example = setup-recovers twice twice-IsLayout (5 ∷ 6 ∷ []) (9 ∷ []) (omega arith)

setup-misreads_example :
    let v = setup twice true (flatten twice (5 ∷ []) ++ 9 ∷ []) in
    (setup twice true (persist twice (λ b. b) (push_back 6 v)).file).items ≡ 5 ∷ 9 ∷ []
setup-misreads_example =
    setup-misreads twice twice-IsLayout (5 ∷ []) 6 (9 ∷ []) (omega arith) (omega arith)

abbrev bytes : DiskVector ℕ
bytes = record { items = 5 ∷ 6 ∷ []; persisted_items = 1; file = 5 ∷ 5 ∷ [] }

abbrev records : LogVector ℕ
records = record { items = 5 ∷ 6 ∷ []; persisted_items = 1; file = 5 ∷ [] }

same_content : Represents twice bytes records
unfolding flatten
same_content = record { items = refl; persisted = refl; file = refl }

persist-Represents_example :
    Represents twice (persist twice (λ b. b) bytes) (persist_log (λ b. b) records)
persist-Represents_example =
    persist-Represents twice twice-IsLayout (λ b. b) bytes records (omega arith) same_content

setup-Represents_example : (setup twice true bytes.file).items ≡ 5 ∷ []
setup-Represents_example = setup-Represents twice bytes records twice-IsLayout same_content
