-- ===== src/Config/Storable.antt =====
-- What `ParseConfig` of wowUtils/OhMyConfig.H reads can be written again.
use oh_my_db.Prelude.{
  ℕ, zero, suc, ◌<◌, ◌≡◌, sym, ◌∙◌, subst, inl, inr, ℤ, ◌<ℤ◌, ◌==ℤ◌, ==ℤ_iff, ltb_ℤ, Map, insert,
  true, false, some, List, [], ◌∷◌, length, length-take, take, get_elem?, IfSome, IfSome-bind,
  >>=-eq-some, some-eq-some, ◌==◌, ◌^◌, arith, Bool-cases, strcpy, strcpy-copied, c_str,
  length-c_str, AllBut, AllBut-c_str, AllBut-take, stoi, stoi-IsInt, IsInt, eq_of_parts, codes,
}
use oh_my_db.Consensus.{Text, ServerInfo}
use oh_my_db.Config.{
  comma, newline, split, prepend, Header, has_column, rows, ip_size, name_size, token, row_id,
  parse_row,
}
use oh_my_db.Config.RoundTrip.{IsStorable, AllStorable, none_left, next_one, AllAbove, IsAscending}

-- Every one of the texts is without the character `d`.
abbrev pub EachBut : ℕ → List Text → Type 0
EachBut d [] = Unit
EachBut d (t ∷ ts) = AllBut d t × EachBut d ts

EachBut-prepend :
    (d c : ℕ) (ts : List Text) → (c == d) ≡ false → EachBut d ts → EachBut d (prepend c ts)
unfolding prepend
EachBut-prepend d c [] h hs = ((h, tt), tt)
EachBut-prepend d c (t ∷ ts) h hs = ((h, hs.0), hs.1)

pub split-EachBut : (d : ℕ) (s : Text) → EachBut d (split d s)
unfolding split
split-EachBut d [] = tt
split-EachBut d (c ∷ s) = elim (Bool-cases (c == d)) [
  | inl e ↦ rw e (tt, split-EachBut d s)
  | inr e ↦ rw e (EachBut-prepend d c (split d s) e (split-EachBut d s))
]

-- A character that the whole text does not hold is in none of its parts.
split-EachBut_kept : (d e : ℕ) (s : Text) → AllBut e s → EachBut e (split d s)
unfolding split
split-EachBut_kept d e [] h = tt
split-EachBut_kept d e (c ∷ s) h = elim (Bool-cases (c == d)) [
  | inl k ↦ rw k (tt, split-EachBut_kept d e s h.1)
  | inr k ↦ rw k (EachBut-prepend e c (split d s) h.0 (split-EachBut_kept d e s h.1))
]

abbrev IsToken : Text → Type 0
IsToken t = AllBut comma t × AllBut newline t

abbrev pub AllTokens : List Text → Type 0
AllTokens [] = Unit
AllTokens (t ∷ ts) = IsToken t × AllTokens ts

abbrev pub AllRows : List (List Text) → Type 0
AllRows [] = Unit
AllRows (ts ∷ rest) = AllTokens ts × AllRows rest

tokens_from : (ts : List Text) → EachBut comma ts → EachBut newline ts → AllTokens ts
tokens_from [] hc hn = tt
tokens_from (t ∷ ts) hc hn = ((hc.0, hn.0), tokens_from ts hc.1 hn.1)

pub rows-AllRows : (lines : List Text) → EachBut newline lines → AllRows (rows lines)
unfolding rows
rows-AllRows [] h = tt
rows-AllRows ([] ∷ lines) h = tt
rows-AllRows ((c ∷ cs) ∷ lines) h = (
  tokens_from (split comma (c ∷ cs)) (split-EachBut comma (c ∷ cs))
      (split-EachBut_kept comma newline (c ∷ cs) h.0),
  rows-AllRows lines h.1,
)

token-IsToken :
    (h : Header) (tokens : List Text) (name : Text) (t : Text)
    → AllTokens tokens
    → token h tokens name ≡ some t
    → IsToken t
unfolding token
token-IsToken h tokens name t all e = at tokens _ all e
  where
    at : (ts : List Text) (i : ℕ) → AllTokens ts → get_elem? ts i ≡ some t → IsToken t
    at [] i a k = absurd (ground (arith, k))
    at (x ∷ ts) zero a k = subst IsToken (some-eq-some k) a.0
    at (x ∷ ts) (suc i) a k = at ts i a.1 k

IsToken-copied : (t s : Text) → t ≡ c_str s → IsToken s → IsToken t
IsToken-copied t s e h =
    subst IsToken (sym e) (AllBut-c_str comma s h.0, AllBut-c_str newline s h.1)

-- The counter of the rows stays in the range of int.
row_id-IsInt :
    (h : Header) (cntr : ℕ) (tokens : List Text) (id : ℤ)
    → cntr < 2 ^ 31
    → row_id h cntr tokens ≡ some id
    → IsInt id
unfolding row_id
row_id-IsInt h cntr tokens id lt e = elim (Bool-cases (has_column (codes "id") h)) [
  | inl k ↦
      let (t, found, read) = >>=-eq-some (token h tokens (codes "id")) stoi (rw k at e) in
      stoi-IsInt t id read
  | inr k ↦ subst IsInt (some-eq-some (rw k at e)) lt
]

name_short : (name token : Text) → name ≡ c_str (take 20 token) → length name < 21
name_short name token e =
    subst (λ t. length t < 21) (sym e)
      (omega (arith, length-c_str (take 20 token), length-take 20 token))

pub parse_row-IsStorable :
    (h : Header) (cntr : ℕ) (tokens : List Text)
    → cntr < 2 ^ 31
    → AllTokens tokens
    → IfSome IsStorable (parse_row h cntr tokens)
unfolding parse_row
parse_row-IsStorable h cntr tokens lt all =
    IfSome-bind IsStorable (row_id h cntr tokens) _ (λ id e1.
      IfSome-bind IsStorable (token h tokens (codes "intf_ip")) _ (λ ip_token e2.
        IfSome-bind IsStorable (strcpy ip_size ip_token) _ (λ ip e3.
          IfSome-bind IsStorable (token h tokens (codes "name")) _ (λ name_token e4.
            IfSome-bind IsStorable (strcpy name_size (take 20 name_token)) _ (λ name e5.
              IfSome-bind IsStorable (token h tokens (codes "raft_port")) _ (λ raft_token e6.
                IfSome-bind IsStorable (stoi raft_token) _ (λ raft_port e7.
                  IfSome-bind IsStorable (token h tokens (codes "db_port")) _ (λ db_token e8.
                    IfSome-bind IsStorable (stoi db_token) _ (λ db_port e9.
                      let (ip_fits, ip_is) = strcpy-copied ip_size ip_token ip e3 in
                      let (name_fits, name_is) =
                        strcpy-copied name_size (take 20 name_token) name e5 in
                      let ip_all = token-IsToken h tokens (codes "intf_ip") ip_token all e2 in
                      let name_all = token-IsToken h tokens (codes "name") name_token all e4 in
                      record {
                        id_int = row_id-IsInt h cntr tokens id lt e1;
                        raft_int = stoi-IsInt raft_token raft_port e7;
                        db_int = stoi-IsInt db_token db_port e9;
                        ip_fits = ip_fits;
                        ip_tokens = IsToken-copied ip ip_token ip_is ip_all;
                        name_fits = record {
                          no_zero = name_fits.no_zero;
                          short = name_short name name_token name_is;
                        };
                        name_tokens = IsToken-copied name (take 20 name_token) name_is (
                          AllBut-take comma 20 name_token name_all.0,
                          AllBut-take newline 20 name_token name_all.1,
                        );
                      })))))))))

-- `std::map` keeps its keys in order, and each server under its own id.
AllAbove-insert :
    (j k : ℤ) (info : ServerInfo) (m : Map ServerInfo)
    → j <ℤ k
    → AllAbove j m
    → AllAbove j (insert k info m)
unfolding insert
AllAbove-insert j k info [] lt h = (lt, tt)
AllAbove-insert j k info ((i, w) ∷ m) lt h =
    let later = AllAbove-insert j k info m lt h.1 in
    elim (Bool-cases (i ==ℤ k)) [
      | inl e ↦ rw e (lt, h.1)
      | inr e ↦ elim (Bool-cases (ltb_ℤ k i)) [
        | inl l ↦ rw (e, l) (lt, (h.0, h.1))
        | inr l ↦ rw (e, l) (h.0, later)
      ]
    ]

AllAbove-lower : (j k : ℤ) (m : Map ServerInfo) → j <ℤ k → AllAbove k m → AllAbove j m
AllAbove-lower j k [] lt h = tt
AllAbove-lower j k ((i, w) ∷ m) lt h = (omega (arith, h.0), AllAbove-lower j k m lt h.1)

ltb_ℤ-lt : (a b : ℤ) → ltb_ℤ a b ≡ true → a <ℤ b
ltb_ℤ-lt a b h = ground (arith, h)

neither : (i k : ℤ) → (i ==ℤ k) ≡ false → ltb_ℤ k i ≡ false → i <ℤ k
neither i k e l = elim (Bool-cases (ltb_ℤ i k)) [
  | inl h ↦ ltb_ℤ-lt i k h
  | inr h ↦
      let same : i ≡ k = eq_of_parts i k (ground (arith, h, l)) in
      absurd (ground (arith, sym e ∙ (==ℤ_iff i k).1 same))
]

pub IsAscending-insert :
    (k : ℤ) (info : ServerInfo) (m : Map ServerInfo) → IsAscending m → IsAscending (insert k info m)
unfolding insert
IsAscending-insert k info [] h = (tt, tt)
IsAscending-insert k info ((i, w) ∷ m) h =
    let later = IsAscending-insert k info m h.1 in
    elim (Bool-cases (i ==ℤ k)) [
      | inl e ↦ rw e (subst (λ x. AllAbove x m) ((==ℤ_iff i k).0 e) h.0, h.1)
      | inr e ↦ elim (Bool-cases (ltb_ℤ k i)) [
        | inl l ↦
            let lt = ltb_ℤ-lt k i l in rw (e, l) ((lt, AllAbove-lower k i m lt h.0), (h.0, h.1))
        | inr l ↦ rw (e, l) (AllAbove-insert i k info m (neither i k e l) h.0, later)
      ]
    ]

pub AllStorable-insert :
    (info : ServerInfo) (m : Map ServerInfo)
    → IsStorable info
    → AllStorable m
    → AllStorable (insert info.id info m)
unfolding insert
AllStorable-insert info [] h hs = next_one h none_left
AllStorable-insert info _ h (next_one {info = w} {servers = m} hw hs) =
    let later = AllStorable-insert info m h hs in
    elim (Bool-cases (w.id ==ℤ info.id)) [
      | inl e ↦ rw e (next_one h hs)
      | inr e ↦ elim (Bool-cases (ltb_ℤ info.id w.id)) [
        | inl l ↦ rw (e, l) (next_one h (next_one hw hs))
        | inr l ↦ rw (e, l) (next_one hw later)
      ]
    ]
