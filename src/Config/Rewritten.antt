-- ===== src/Config/Rewritten.antt =====
-- Reading a file with `ParseConfig` of wowUtils/OhMyConfig.H and writing it again with `WriteConfig`.
use oh_my_db.Prelude.{
  ℕ, suc, ◌+◌, ◌≤◌, ◌<◌, ◌≡◌, inl, inr, Map, insert, some, some-eq-some, >>=-eq-some, IfSome-some,
  List, [], ◌∷◌, length, ◌==◌, ◌^◌, arith, Bool-cases,
}
use oh_my_db.Consensus.{Text, ServerInfo}
use oh_my_db.Config.{
  comma, newline, split, prepend, Header, rows, read_header, tokenize_lines, tokenize_csv,
  parse_row, parse_rows, parse_config,
}
use oh_my_db.Config.RoundTrip.{
  IsStorable, AllStorable, none_left, IsAscending, parse_config-config_text,
}
use oh_my_db.Config.Storable.{
  AllRows, EachBut, split-EachBut, rows-AllRows, parse_row-IsStorable, IsAscending-insert,
  AllStorable-insert,
}
use oh_my_db.Admin.{config_text}

length-split : (d : ℕ) (s : Text) → length (split d s) ≤ length s
unfolding split prepend
length-split d [] = omega arith
length-split d (c ∷ s) = elim (Bool-cases (c == d)) [
  | inl e ↦ rw e (omega (arith, length-split d s))
  | inr e ↦ rw e (lower (split d s) (length-split d s))
]
  where
    lower : (ts : List Text) → length ts ≤ length s → length (prepend c ts) ≤ suc (length s)
    lower [] h = omega arith
    lower (t ∷ ts) h = omega (arith, h)

length-rows : (lines : List Text) → length (rows lines) ≤ length lines
unfolding rows
length-rows [] = omega arith
length-rows ([] ∷ lines) = omega arith
length-rows ((c ∷ cs) ∷ lines) = omega (arith, length-rows lines)

-- What a map of parsed servers satisfies.
pub record IsStored (servers : Map ServerInfo) : Type 0 where
  pub storable : AllStorable servers
  pub ascending : IsAscending servers

pub IsStored-insert :
    (info : ServerInfo) (servers : Map ServerInfo)
    → IsStorable info
    → IsStored servers
    → IsStored (insert info.id info servers)
IsStored-insert info servers h s = record {
  storable = AllStorable-insert info servers h s.storable;
  ascending = IsAscending-insert info.id info servers s.ascending;
}

parse_rows-IsStored :
    (h : Header) (cntr : ℕ) (acc : Map ServerInfo) (rest : List (List Text))
    (servers : Map ServerInfo)
    → cntr + length rest < 2 ^ 31
    → AllRows rest
    → IsStored acc
    → parse_rows h cntr acc rest ≡ some servers
    → IsStored servers
unfolding parse_rows
parse_rows-IsStored h cntr acc [] servers lt all s e = rw (← some-eq-some e) s
parse_rows-IsStored h cntr acc (tokens ∷ rest) servers lt all s e =
    let (info, parsed, later) = >>=-eq-some (parse_row h cntr tokens) _ e in
    let fits =
      IfSome-some IsStorable (parse_row-IsStorable h cntr tokens (omega arith) all.0) parsed in
    parse_rows-IsStored h (suc cntr) (insert info.id info acc) rest servers (omega arith) all.1
      (IsStored-insert info acc fits s) later

-- What is read of a file whose length an int can count fits the file again.
pub parse_config-IsStored :
    (file : Text) (servers : Map ServerInfo)
    → length file < 2 ^ 31
    → parse_config file ≡ some servers
    → IsStored servers
unfolding parse_config tokenize_csv tokenize_lines parse_rows
parse_config-IsStored file servers lt e =
    at (split newline file) (length-split newline file) (split-EachBut newline file) e
  where
    at :
        (lines : List Text)
        → length lines ≤ length file
        → EachBut newline lines
        → (let out = tokenize_lines lines in parse_rows out.header 0 [] out.tokens_by_row)
          ≡ some servers
        → IsStored servers
    at [] le each k = rw (← some-eq-some k) (record { storable = none_left; ascending = tt })
    at (line ∷ lines) le each k =
        parse_rows-IsStored (read_header [] (split comma line)) 0 [] (rows lines) servers
          (omega (arith, length-rows lines)) (rows-AllRows lines each.1)
          (record { storable = none_left; ascending = tt }) k

-- Every file that parses can be rewritten: what `WriteConfig` writes of its servers parses to the same
-- servers.
pub parse_config-rewritten :
    (file : Text) (servers : Map ServerInfo)
    → length file < 2 ^ 31
    → parse_config file ≡ some servers
    → parse_config (config_text servers) ≡ some servers
parse_config-rewritten file servers lt e =
    let s = parse_config-IsStored file servers lt e in
    parse_config-config_text servers s.storable s.ascending
