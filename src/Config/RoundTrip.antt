-- ===== src/Config/RoundTrip.antt =====
-- What `ParseConfig` of wowUtils/OhMyConfig.H reads of the file that `WriteConfig` of
-- ohmyserver/admin.cpp writes.
use oh_my_db.Prelude.{
  ℕ, suc, ◌≡◌, ◌≢◌, refl, ap, ◌∙◌, subst, inl, inr, ℤ, ◌<ℤ◌, ◌==ℤ◌, ==ℤ_iff, Map, insert, Option,
  some, List, [], ◌∷◌, ◌++◌, append-nil, append_assoc, take_all, arith, Bool-cases, text_eq,
  FitsArray, strcpy-FitsArray, AllBut, AllBut-append, to_string-AllBut, to_string, stoi-to_string,
  to_string≢nil, IsInt, codes,
}
use oh_my_db.Consensus.{Text, ServerInfo}
use oh_my_db.Config.{
  comma, newline, split, prepend, Header, TokenizedOut, set_column, read_header, has_column, column,
  rows, tokenize_lines, tokenize_csv, ip_size, name_size, token, row_id, parse_row, parse_rows,
  parse_config,
}
use oh_my_db.Config.Lines.{split-field, split-last}
use oh_my_db.Admin.{config_header, config_line, config_lines, config_text}

-- A server that the file can hold: 32-bit numbers, and texts without a comma or a newline that fit
-- their arrays, the name in 20 characters.
pub record IsStorable (info : ServerInfo) : Type 0 where
  pub id_int : IsInt info.id
  pub raft_int : IsInt info.raft_port
  pub db_int : IsInt info.db_port
  pub ip_fits : FitsArray ip_size info.ip
  pub ip_tokens : AllBut comma info.ip × AllBut newline info.ip
  pub name_fits : FitsArray 21 info.name
  pub name_tokens : AllBut comma info.name × AllBut newline info.name

tokens_of : ServerInfo → List Text
tokens_of info =
    to_string info.id ∷ info.name ∷ info.ip ∷ to_string info.raft_port ∷ to_string info.db_port ∷ []

split-config_line :
    (info : ServerInfo) → IsStorable info → split comma (config_line info) ≡ tokens_of info
unfolding config_line tokens_of
split-config_line info h =
    rw
      (
        split-field comma (to_string info.id) _ (to_string-AllBut comma info.id (omega arith)),
        split-field comma info.name _ h.name_tokens.0,
        split-field comma info.ip _ h.ip_tokens.0,
        split-field comma (to_string info.raft_port) _
            (to_string-AllBut comma info.raft_port (omega arith)),
        split-last comma (to_string info.db_port)
            (to_string-AllBut comma info.db_port (omega arith)) (to_string≢nil info.db_port),
      )
      refl

abbrev names : Header
names =
    (codes "id", 0)
    ∷ (codes "name", 1)
    ∷ (codes "intf_ip", 2)
    ∷ (codes "raft_port", 3)
    ∷ (codes "db_port", 4)
    ∷ []

read_header-names : read_header [] (split comma config_header) ≡ names
unfolding read_header set_column split prepend text_eq
read_header-names = refl

parse_row-tokens_of :
    (cntr : ℕ) (info : ServerInfo)
    → IsStorable info
    → parse_row names cntr (tokens_of info) ≡ some info
unfolding parse_row tokens_of row_id has_column token column text_eq
parse_row-tokens_of cntr info h =
    rw
      (
        stoi-to_string info.id h.id_int,
        strcpy-FitsArray ip_size info.ip h.ip_fits,
        take_all 20 info.name (omega (arith, h.name_fits.short)),
        strcpy-FitsArray name_size info.name
            (record { no_zero = h.name_fits.no_zero; short = omega (arith, h.name_fits.short) }),
        stoi-to_string info.raft_port h.raft_int,
        stoi-to_string info.db_port h.db_int,
      )
      refl

config_line-AllBut : (info : ServerInfo) → IsStorable info → AllBut newline (config_line info)
unfolding config_line
config_line-AllBut info h =
    AllBut-append newline (to_string info.id) _ (to_string-AllBut newline info.id (omega arith)) (
      refl,
      AllBut-append newline info.name _ h.name_tokens.1 (
        refl,
        AllBut-append newline info.ip _ h.ip_tokens.1 (
          refl,
          AllBut-append newline (to_string info.raft_port) _
              (to_string-AllBut newline info.raft_port (omega arith))
              (refl, to_string-AllBut newline info.db_port (omega arith)),
        ),
      ),
    )

append≢nil : (s t : Text) → s ≢ [] → s ++ t ≢ []
append≢nil [] t ne = absurd (ne refl)
append≢nil (c ∷ s) t ne = λ h. ground (arith, h)

config_line≢nil : (info : ServerInfo) → config_line info ≢ []
unfolding config_line
config_line≢nil info = append≢nil (to_string info.id) _ (to_string≢nil info.id)

rows-cons :
    (line : Text) (lines : List Text)
    → line ≢ []
    → rows (line ∷ lines) ≡ split comma line ∷ rows lines
unfolding rows
rows-cons [] lines ne = absurd (ne refl)
rows-cons (c ∷ cs) lines ne = refl

-- Every server can be stored, under its own id.
pub data AllStorable : Map ServerInfo → Type 0 where
  none_left : AllStorable []
  next_one :
      {info : ServerInfo} {servers : Map ServerInfo}
      → IsStorable info
      → AllStorable servers
      → AllStorable ((info.id, info) ∷ servers)

rows_of : Map ServerInfo → List (List Text)
rows_of [] = []
rows_of ((id, info) ∷ servers) = tokens_of info ∷ rows_of servers

rows-config_lines :
    {servers : Map ServerInfo}
    → AllStorable servers
    → rows (split newline (config_lines servers)) ≡ rows_of servers
unfolding config_lines split rows rows_of
rows-config_lines none_left = refl
rows-config_lines (next_one {info} {servers} h hs) =
    rw
      (
        split-field newline (config_line info) (config_lines servers) (config_line-AllBut info h),
        rows-cons (config_line info) (split newline (config_lines servers)) (config_line≢nil info),
        split-config_line info h,
        rows-config_lines hs,
      )
      refl

-- A `std::map` holds its keys in ascending order.
abbrev pub AllAbove : ℤ → Map ServerInfo → Type 0
AllAbove k [] = Unit
AllAbove k ((j, info) ∷ servers) = (k <ℤ j) × AllAbove k servers

abbrev pub IsAscending : Map ServerInfo → Type 0
IsAscending [] = Unit
IsAscending ((k, info) ∷ servers) = AllAbove k servers × IsAscending servers

-- Every key of the first map lies below the key, or below every key of the second map.
abbrev Below : Map ServerInfo → ℤ → Type 0
Below [] k = Unit
Below ((j, info) ∷ servers) k = (j <ℤ k) × Below servers k

abbrev Under : Map ServerInfo → Map ServerInfo → Type 0
Under acc [] = Unit
Under acc ((k, info) ∷ servers) = Below acc k × Under acc servers

insert-last :
    (k : ℤ) (info : ServerInfo) (acc : Map ServerInfo)
    → Below acc k
    → insert k info acc ≡ acc ++ (k, info) ∷ []
unfolding insert
insert-last k info [] h = refl
insert-last k info ((j, w) ∷ acc) h =
    let later = insert-last k info acc h.1 in
    elim (Bool-cases (j ==ℤ k)) [
      | inl e ↦ absurd (omega (arith, subst (λ x. x <ℤ k) ((==ℤ_iff j k).0 e) h.0))
      | inr e ↦ ground (arith, e, h.0, later)
    ]

Below-snoc :
    (acc : Map ServerInfo) (j k : ℤ) (info : ServerInfo)
    → Below acc k
    → j <ℤ k
    → Below (acc ++ (j, info) ∷ []) k
Below-snoc [] j k info h l = (l, tt)
Below-snoc ((i, w) ∷ acc) j k info h l = (h.0, Below-snoc acc j k info h.1 l)

Under-snoc :
    (acc servers : Map ServerInfo) (j : ℤ) (info : ServerInfo)
    → Under acc servers
    → AllAbove j servers
    → Under (acc ++ (j, info) ∷ []) servers
Under-snoc acc [] j info h l = tt
Under-snoc acc ((k, w) ∷ servers) j info h l =
    (Below-snoc acc j k info h.0 l.0, Under-snoc acc servers j info h.1 l.1)

parse_rows-rows_of :
    {servers : Map ServerInfo} (cntr : ℕ) (acc : Map ServerInfo)
    → AllStorable servers
    → IsAscending servers
    → Under acc servers
    → parse_rows names cntr acc (rows_of servers) ≡ some (acc ++ servers)
unfolding parse_rows rows_of
parse_rows-rows_of cntr acc none_left up u = rw append-nil refl
parse_rows-rows_of cntr acc (next_one {info} {servers} h hs) up u =
    rw (parse_row-tokens_of cntr info h, insert-last info.id info acc u.0)
      (parse_rows-rows_of (suc cntr) (acc ++ (info.id, info) ∷ []) hs up.1
          (Under-snoc acc servers info.id info u.1 up.0)
        ∙ rw append_assoc refl)

split-config_header :
    (lines : Text)
    → split newline (config_header ++ 10 ∷ lines) ≡ config_header ∷ split newline lines
unfolding split prepend
split-config_header lines = refl

tokenized : Header → List (List Text) → TokenizedOut
tokenized h ts = record { header = h; tokens_by_row = ts }

tokenize_csv-config_text :
    {servers : Map ServerInfo}
    → AllStorable servers
    → tokenize_csv (config_text servers) ≡ tokenized names (rows_of servers)
unfolding tokenize_csv config_text tokenize_lines tokenized
tokenize_csv-config_text {servers} hs =
    ap tokenize_lines (split-config_header (config_lines servers))
    ∙ ap (λ h. tokenized h (rows (split newline (config_lines servers)))) read_header-names
    ∙ ap (tokenized names) (rows-config_lines hs)

parse : TokenizedOut → Option (Map ServerInfo)
parse out = parse_rows out.header 0 [] out.tokens_by_row

-- A list of servers that `WriteConfig` wrote is read back by `ParseConfig` as it was, if every server
-- fits the file.
pub parse_config-config_text :
    (servers : Map ServerInfo)
    → AllStorable servers
    → IsAscending servers
    → parse_config (config_text servers) ≡ some servers
unfolding parse_config parse tokenized
parse_config-config_text servers hs up =
    ap parse (tokenize_csv-config_text hs) ∙ parse_rows-rows_of 0 [] hs up (from_start servers)
  where
    from_start : (m : Map ServerInfo) → Under [] m
    from_start [] = tt
    from_start ((k, info) ∷ m) = (tt, from_start m)
