-- ===== src/Tests/Programs.antt =====
-- Concrete runs of the tools with a command line, of the configuration file and of leveldb.
use oh_my_db.Prelude.{
  ◌≡◌, refl, pos, Map, insert, true, Option, none, some, List, [], ◌∷◌, ◌++◌, codes, text_eq,
  text_eq_iff, arith, if◌then◌else◌, IsInt, c_str, strcpy, stoi, skip_spaces, is_space, is_digit,
  read_sign, read_number, read_digits, in_int, pos_part, neg_part,
}
use oh_my_db.Consensus.{Text, ServerInfo, ok, AddServerParams, AddServerRet}
use oh_my_db.Database.{IsLawful}
use oh_my_db.Database.LevelDb.{LevelDb, IsLevelDb, level_db, level_db-IsLawful}
use oh_my_db.Config.{
  split, prepend, set_column, read_header, has_column, column, rows, tokenize_lines, tokenize_csv,
  token, row_id, parse_row, parse_rows, parse_config,
}
use oh_my_db.Config.Rewritten.{parse_config-rewritten}
use oh_my_db.Config.RoundTrip.{IsStorable}
use oh_my_db.Raft.Membership.{server_info}
use oh_my_db.Admin.{config_text, add_server, run_add, AddCall, add_outcome, switch_client}
use oh_my_db.Admin.Search.{search-finish}
use oh_my_db.Admin.File.{start, run_add-updates}

-- A list of files under texts, as a leveldb.
put_in : Text → Text → List (Text × Text) → List (Text × Text)
put_in k v [] = (k, v) ∷ []
put_in k v ((j, w) ∷ m) =
    let rest = put_in k v m in if text_eq j k then (k, v) ∷ m else (j, w) ∷ rest

get_from : Text → List (Text × Text) → Option Text
get_from k [] = none
get_from k ((j, w) ∷ m) = if text_eq j k then some w else get_from k m

abbrev paper : LevelDb
paper = record { Disk = List (Text × Text); read = get_from; write = λ k v m. (put_in k v m, true) }

get_from-put_in :
    (k j v : Text) (m : List (Text × Text))
    → get_from j (put_in k v m) ≡ (if text_eq k j then some v else get_from j m)
unfolding get_from put_in
get_from-put_in k j v [] = refl
get_from-put_in k j v ((i, w) ∷ m) =
    ground (arith, text_eq_iff k j, text_eq_iff i k, text_eq_iff i j, get_from-put_in k j v m)

paper-IsLevelDb : IsLevelDb paper
paper-IsLevelDb = record { read-write = λ k j v m h. get_from-put_in k j v m }

level_db-IsLawful_example : IsLawful IsInt (level_db paper)
level_db-IsLawful_example = level_db-IsLawful paper paper-IsLevelDb

-- A file without ids, of one server.
abbrev file : Text
file = codes "name,intf_ip,raft_port,db_port" ++ 10 ∷ (codes "n0,1.2,10,20" ++ 10 ∷ [])

abbrev first_server : ServerInfo
first_server = record {
  id = pos 0;
  ip = codes "1.2";
  raft_port = pos 10;
  db_port = pos 20;
  name = codes "n0";
}

abbrev listed : Map ServerInfo
listed = (pos 0, first_server) ∷ []

file_parses : parse_config file ≡ some listed
unfolding parse_config tokenize_csv tokenize_lines parse_rows parse_row row_id token column
    has_column rows read_header set_column split prepend text_eq strcpy c_str stoi skip_spaces
    is_space read_sign read_number read_digits in_int is_digit insert
file_parses = refl

parse_config-rewritten_example : parse_config (config_text listed) ≡ some listed
parse_config-rewritten_example = parse_config-rewritten file listed (omega arith) file_parses

abbrev second_args : AddServerParams
second_args = record {
  server_id = pos 1;
  ip = codes "1.3";
  raft_port = pos 11;
  db_port = pos 21;
  name = codes "n1";
}

abbrev accept : AddCall
accept i to args = some (record { error_code = ok; leader_addr = [] })

accepted : add_server (λ to. pos 1) accept second_args (start listed) ≡ some true
unfolding add_server strcpy c_str add_outcome pos_part neg_part
accepted =
    search-finish (λ (r : AddServerRet). add_outcome r.error_code) (λ r. r.leader_addr)
      (λ i to. accept i to second_args) 0 999 0 (switch_client (pos 0) (start listed))
      (record { error_code = ok; leader_addr = [] }) true refl refl

second_fits : IsStorable (server_info second_args)
unfolding c_str server_info
second_fits = record {
  id_int = omega arith;
  raft_int = omega arith;
  db_int = omega arith;
  ip_fits = record { no_zero = refl; short = omega arith };
  ip_tokens = ((refl, (refl, (refl, tt))), (refl, (refl, (refl, tt))));
  name_fits = record { no_zero = refl; short = omega arith };
  name_tokens = ((refl, (refl, tt)), (refl, (refl, tt)));
}

run_add-updates_example :
    (after : Text) × (run_add (λ to. pos 1) accept true second_args file ≡ some after)
    × (parse_config after ≡ some (insert (pos 1) (server_info second_args) listed))
run_add-updates_example =
    run_add-updates (λ to. pos 1) accept second_args file listed true (omega arith) file_parses
      second_fits accepted
