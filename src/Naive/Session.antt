-- ===== src/Naive/Session.antt =====
-- A put and a get of ohmyserver/server_naive.cpp in one connection.
use oh_my_db.Prelude.{
  ℕ, ◌≡◌, refl, ap, ◌∙◌, ◌≢◌, true, false, some, List, [], ◌∷◌, ◌++◌, codes, text_eq, text_eq_iff,
  is_space, skip_spaces, arith,
}
use oh_my_db.Consensus.{Text}
use oh_my_db.Database.LevelDb.{LevelDb, IsLevelDb}
use oh_my_db.Naive.{word, next_word, answer_command, handle_request, serve_client}

-- A text without spaces.
abbrev pub NoSpaces : Text → Type 0
NoSpaces [] = Unit
NoSpaces (c ∷ cs) = (is_space c ≡ false) × NoSpaces cs

-- A word is not empty.
pub record IsWord (w : Text) : Type 0 where
  pub filled : w ≢ []
  pub unbroken : NoSpaces w

word-append : (w : Text) → NoSpaces w → (rest : Text) → word (w ++ 32 ∷ rest) ≡ (w, 32 ∷ rest)
unfolding word is_space
word-append [] h rest = refl
word-append (c ∷ w) h rest = rw (h.0, word-append w h.1 rest) refl

word_all : (w : Text) → NoSpaces w → word w ≡ (w, [])
unfolding word
word_all [] h = refl
word_all (c ∷ w) h = rw (h.0, word_all w h.1) refl

next_word-first : (w rest : Text) → IsWord w → next_word (w ++ 32 ∷ rest) ≡ (w, 32 ∷ rest)
unfolding next_word skip_spaces
next_word-first [] rest h = absurd (h.filled refl)
next_word-first (c ∷ w) rest h = rw h.unbroken.0 (word-append (c ∷ w) h.unbroken rest)

next_word-middle : (w rest : Text) → IsWord w → next_word (32 ∷ (w ++ 32 ∷ rest)) ≡ (w, 32 ∷ rest)
unfolding next_word skip_spaces is_space
next_word-middle [] rest h = absurd (h.filled refl)
next_word-middle (c ∷ w) rest h = rw h.unbroken.0 (word-append (c ∷ w) h.unbroken rest)

next_word-last : (w : Text) → IsWord w → next_word (32 ∷ w) ≡ (w, [])
unfolding next_word skip_spaces is_space
next_word-last [] h = absurd (h.filled refl)
next_word-last (c ∷ w) h = rw h.unbroken.0 (word_all (c ∷ w) h.unbroken)

put-IsWord : IsWord (codes "put")
unfolding is_space
put-IsWord = record { filled = λ h. ground (arith, h); unbroken = (refl, (refl, (refl, tt))) }

get-IsWord : IsWord (codes "get")
unfolding is_space
get-IsWord = record { filled = λ h. ground (arith, h); unbroken = (refl, (refl, (refl, tt))) }

abbrev pub put_line : Text → Text → Text
put_line key value = codes "put" ++ 32 ∷ (key ++ 32 ∷ value)

abbrev pub get_line : Text → Text
get_line key = codes "get" ++ 32 ∷ key

module _ (l : LevelDb) where
  handle_request-put :
      (key value : Text) (db : l.Disk)
      → IsWord key
      → IsWord value
      → (l.write key value db).1 ≡ true
      → handle_request l (put_line key value) db ≡ ((l.write key value db).0, some (codes "OK"))
  unfolding handle_request answer_command text_eq
  handle_request-put key value db hk hv stored =
      rw (next_word-first (codes "put") (key ++ 32 ∷ value) put-IsWord)
        (rw (next_word-middle key value hk) (rw (next_word-last value hv) (rw stored refl)))

  handle_request-get :
      (key value : Text) (db : l.Disk)
      → IsWord key
      → l.read key db ≡ some value
      → handle_request l (get_line key) db ≡ (db, some (codes "OK " ++ value))
  unfolding handle_request answer_command text_eq
  handle_request-get key value db hk held =
      rw (next_word-first (codes "get") key get-IsWord) (rw (next_word-last key hk) (rw held refl))

  serve_client-answer :
      (c : ℕ) (cs : Text) (requests : List Text) (db after : l.Disk) (text : Text)
      → handle_request l (c ∷ cs) db ≡ (after, some text)
      → serve_client l ((c ∷ cs) ∷ requests) db
        ≡ ((serve_client l requests after).0, (text ++ 10 ∷ []) ∷ (serve_client l requests after).1)
  unfolding serve_client
  serve_client-answer c cs requests db after text h =
      let state : (handle_request l (c ∷ cs) db).0 ≡ after = ap (λ r. r.0) h in
      let said : (handle_request l (c ∷ cs) db).1 ≡ some text = ap (λ r. r.1) h in
      rw (said, serve_client) (rw state refl)

  -- A client that puts a value under a key and then asks for the key is answered OK, and OK with the
  -- value, if leveldb takes the put: for a key and a value that are words.
  pub serve_client-put_get :
      (key value : Text) (db : l.Disk)
      → IsLevelDb l
      → IsWord key
      → IsWord value
      → (l.write key value db).1 ≡ true
      → serve_client l (put_line key value ∷ get_line key ∷ []) db ≡ (
        (l.write key value db).0,
        (codes "OK" ++ 10 ∷ []) ∷ ((codes "OK " ++ value) ++ 10 ∷ []) ∷ [],
      )
  unfolding serve_client
  serve_client-put_get key value db lawful hk hv stored =
      let held : l.read key (l.write key value db).0 ≡ some value =
        lawful.read-write key key value db stored ∙ rw ((text_eq_iff key key).1 refl) refl in
      serve_client-answer _ _ (get_line key ∷ []) db (l.write key value db).0 (codes "OK")
        (handle_request-put key value db hk hv stored)
      ∙ ap (λ r. (r.0, (codes "OK" ++ 10 ∷ []) ∷ r.1))
          (serve_client-answer _ _ [] (l.write key value db).0 (l.write key value db).0
            (codes "OK " ++ value) (handle_request-get key value (l.write key value db).0 hk held))
