-- ===== src/Config.antt =====
-- wowUtils/OhMyConfig.H: reading the CSV file that lists the servers. A stream is the text that is
-- still unread.
pub mod Lines
pub mod RoundTrip
pub mod Storable
pub mod Rewritten
use oh_my_db.Prelude.{
  ℕ, zero, suc, ℤ, pos, Map, insert, Bool, true, false, Option, none, some, List, [], ◌∷◌, length,
  take, get_elem?, ◌>>=◌, ◌==◌, if◌then◌else◌, text_eq, strcpy, stoi, codes,
}
use oh_my_db.Consensus.{Text, ServerInfo}

abbrev pub comma : ℕ
comma = 44

abbrev pub newline : ℕ
newline = 10

-- `std::getline`: the text before the next `d`, or all the rest; it fails at the end of the stream.
unfoldable pub getline : ℕ → Text → Option (Text × Text)
getline d [] = none
getline d (c ∷ cs) =
    let next = getline d cs in
    if c == d
    then some ([], cs)
    else elim next [ none ↦ some (c ∷ [], []) | some (t, rest) ↦ some (c ∷ t, rest) ]

unfoldable pub prepend : ℕ → List Text → List Text
prepend c [] = (c ∷ []) ∷ []
prepend c (t ∷ ts) = (c ∷ t) ∷ ts

-- All that a loop over `getline` reads.
unfoldable pub split : ℕ → Text → List Text
unfolding prepend
split d [] = []
split d (c ∷ cs) = let rest = split d cs in if c == d then [] ∷ rest else prepend c rest

-- The header: the column of each name.
abbrev pub Header : Type 0
Header = List (Text × ℕ)

unfoldable pub set_column : Text → ℕ → Header → Header
set_column name i [] = (name, i) ∷ []
set_column name i ((n, j) ∷ h) =
    let rest = set_column name i h in if text_eq n name then (n, i) ∷ h else (n, j) ∷ rest

-- `header[token] = header.size()`: the size is taken before the token is put in.
unfoldable pub read_header : Header → List Text → Header
unfolding set_column
read_header h [] = h
read_header h (token ∷ tokens) = read_header (set_column token (length h) h) tokens

unfoldable pub has_column : Text → Header → Bool
has_column name [] = false
has_column name ((n, j) ∷ h) = if text_eq n name then true else has_column name h

-- `header[name]`: column 0 for a name that is missing
unfoldable pub column : Text → Header → ℕ
column name [] = 0
column name ((n, j) ∷ h) = if text_eq n name then j else column name h

-- The lines after the header, up to an empty one.
unfoldable pub rows : List Text → List (List Text)
rows [] = []
rows ([] ∷ lines) = []
rows ((c ∷ cs) ∷ lines) = split comma (c ∷ cs) ∷ rows lines

pub record TokenizedOut : Type 0 where
  pub header : Header
  pub tokens_by_row : List (List Text)

unfoldable pub tokenize_lines : List Text → TokenizedOut
unfolding read_header rows split
tokenize_lines [] = record { header = []; tokens_by_row = [] }
tokenize_lines (line ∷ lines) = record {
  header = read_header [] (split comma line);
  tokens_by_row = rows lines;
}

-- `TokenizeCSV`, on the content of the file
unfoldable pub tokenize_csv : Text → TokenizedOut
unfolding tokenize_lines split
tokenize_csv file = tokenize_lines (split newline file)

-- The arrays of `ServerInfo`
abbrev pub ip_size : ℕ
ip_size = 20

abbrev pub name_size : ℕ
name_size = 25

-- A row that is too short is read out of bounds: none.
unfoldable pub token : Header → List Text → Text → Option Text
unfolding column
token h tokens name = get_elem? tokens (column name h)

unfoldable pub row_id : Header → ℕ → List Text → Option ℤ
unfolding has_column token
row_id h cntr tokens =
    if has_column (codes "id") h
    then (do t ← token h tokens (codes "id"); stoi t)
    else some (pos cntr)

-- None also for a number that does not parse, which throws, and for an address too long for its array.
unfoldable pub parse_row : Header → ℕ → List Text → Option ServerInfo
unfolding row_id token
parse_row h cntr tokens = do
  id ← row_id h cntr tokens
  ip_token ← token h tokens (codes "intf_ip")
  ip ← strcpy ip_size ip_token
  name_token ← token h tokens (codes "name")
  name ← strcpy name_size (take 20 name_token)
  raft_token ← token h tokens (codes "raft_port")
  raft_port ← stoi raft_token
  db_token ← token h tokens (codes "db_port")
  db_port ← stoi db_token
  some (record { id = id; ip = ip; raft_port = raft_port; db_port = db_port; name = name })

unfoldable pub parse_rows : Header → ℕ → Map ServerInfo → List (List Text) → Option (Map ServerInfo)
unfolding parse_row
parse_rows h cntr servers [] = some servers
parse_rows h cntr servers (tokens ∷ rest) = do
  server ← parse_row h cntr tokens
  parse_rows h (suc cntr) (insert server.id server servers) rest

-- `ParseConfig` reads the file in the same way, and turns each row into a server.
unfoldable pub parse_config : Text → Option (Map ServerInfo)
unfolding tokenize_csv parse_rows
parse_config file = let out = tokenize_csv file in parse_rows out.header 0 [] out.tokens_by_row
