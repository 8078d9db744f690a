-- ===== src/Logger.antt =====
-- wowUtils/WowLogger.H: the name of the source file that a line of the log carries.
use oh_my_db.Prelude.{◌≡◌, refl, [], ◌∷◌, ◌++◌, ◌==◌, if◌then◌else◌, AllBut}
use oh_my_db.Consensus.{Text}

-- `filename`: `path` is what is still to be read, `file` where the last name starts.
unfoldable pub filename_from : Text → Text → Text
filename_from [] file = file
filename_from (c ∷ path) file = filename_from path (if c == 47 then path else file)

unfoldable pub filename : Text → Text
unfolding filename_from
filename path = filename_from path path

filename_from-kept : (name file : Text) → AllBut 47 name → filename_from name file ≡ file
unfolding filename_from
filename_from-kept [] file h = refl
filename_from-kept (c ∷ name) file h = rw h.0 (filename_from-kept name file h.1)

filename_from-last :
    (dir name file : Text) → AllBut 47 name → filename_from (dir ++ 47 ∷ name) file ≡ name
unfolding filename_from
filename_from-last [] name file h = filename_from-kept name name h
filename_from-last (c ∷ dir) name file h =
    filename_from-last dir name (if c == 47 then dir ++ 47 ∷ name else file) h

-- The file's name is what follows the last slash, and the whole path if it has none.
pub filename_last :
    (dir name : Text)
    → AllBut 47 name
    → (filename (dir ++ 47 ∷ name) ≡ name) × (filename name ≡ name)
unfolding filename
filename_last dir name h =
    (filename_from-last dir name (dir ++ 47 ∷ name) h, filename_from-kept name name h)
