-- ===== src/Consensus/Print.antt =====
-- The `str` methods of ohmyraft/ConsensusUtils.H.
use oh_my_db.Prelude.{Bool, true, false, Option, none, some, List, [], ◌∷◌, ◌++◌, codes, to_string}
use oh_my_db.Consensus.{
  Text, OpKind, get, put, add_server, remove_server, unknown, Operation, LogEntry, AppendLogEntry,
  AppendEntriesParams, AppendEntriesRet, RequestVoteParams, RequestVoteRet, ErrorCode, ok,
  not_leader, prev_not_committed_timeout, cur_not_committed_timeout, server_exists,
  server_not_found, other, unlisted, AddServerParams, AddServerRet, RemoveServerParams,
  RemoveServerRet, PeerNetworkConfig,
}

-- A stream prints a truth value as a number, and so an enumerator of `raft::ErrorCode`.
unfoldable pub bool_text : Bool → Text
bool_text true = codes "1"
bool_text false = codes "0"

unfoldable pub code_text : ErrorCode → Text
code_text ok = codes "0"
code_text not_leader = codes "1"
code_text prev_not_committed_timeout = codes "2"
code_text cur_not_committed_timeout = codes "3"
code_text server_exists = codes "4"
code_text server_not_found = codes "5"
code_text other = codes "6"
code_text (unlisted n) = to_string n

unfoldable pub has_value : {A : Type 0} → Option A → Bool
has_value none = false
has_value (some _) = true

unfoldable pub kind_str : OpKind → Text
kind_str (get key) = codes "GET(" ++ (to_string key ++ codes ") ")
kind_str (put key val) =
    codes "PUT(" ++ (to_string key ++ (codes ", " ++ (to_string val ++ codes ") ")))
kind_str (add_server info) = codes "ADD_SERVER(" ++ (info.ip ++ codes ") ")
kind_str (remove_server id) = codes "REMOVE_SERVER(" ++ (to_string id ++ codes ") ")
kind_str (unknown _ _) = codes "UNKNOWN_OP "

unfoldable pub operation_str : Operation → Text
unfolding kind_str bool_text has_value
operation_str op =
    codes "Operation[ "
    ++ (kind_str op.kind
        ++ (codes "HasPromise=" ++ (bool_text (has_value op.promise_handle) ++ codes " ]")))

unfoldable pub log_entry_str : LogEntry → Text
unfolding operation_str
log_entry_str e =
    codes "LogEntry=[Term="
    ++ (to_string e.term ++ (codes " Op=" ++ (operation_str e.op ++ codes "]")))

unfoldable pub append_log_entry_str : AppendLogEntry → Text
unfolding operation_str
append_log_entry_str e =
    codes "AppendLogEntry={Term="
    ++ (to_string e.term
        ++ (codes " Index="
            ++ (to_string e.index ++ (codes " Op=" ++ (operation_str e.op ++ codes "}")))))

unfoldable pub entries_str : List AppendLogEntry → Text
unfolding append_log_entry_str
entries_str [] = []
entries_str (e ∷ es) = append_log_entry_str e ++ (codes " " ++ entries_str es)

unfoldable pub append_entries_params_str : AppendEntriesParams → Text
unfolding entries_str
append_entries_params_str args =
    codes "AppendEntriesParam={Term="
    ++ (to_string args.term
        ++ (codes " LeaderId="
            ++ (to_string args.leader_id
                ++ (codes " PrevLogIndex="
                    ++ (to_string args.prev_log_index
                        ++ (codes " PrevLogTerm="
                            ++ (to_string args.prev_log_term
                                ++ (codes " LeaderCommit="
                                    ++ (to_string args.leader_commit
                                        ++ (codes " Entries=[ "
                                            ++ (entries_str args.entries ++ codes "]}")))))))))))

unfoldable pub append_entries_ret_str : AppendEntriesRet → Text
unfolding bool_text
append_entries_ret_str r =
    codes "AppendEntriesRet=[Term="
    ++ (to_string r.term ++ (codes " Success=" ++ (bool_text r.success ++ codes "]")))

unfoldable pub request_vote_params_str : RequestVoteParams → Text
request_vote_params_str args =
    codes "RequestVoteParams=[CandidateId="
    ++ (to_string args.candidate_id
        ++ (codes " Term="
            ++ (to_string args.term
                ++ (codes " LastLogIndex="
                    ++ (to_string args.last_log_index
                        ++ (codes " LastLogTerm="
                            ++ (to_string args.last_log_term ++ codes "]")))))))

unfoldable pub request_vote_ret_str : RequestVoteRet → Text
unfolding bool_text
request_vote_ret_str r =
    codes "RequestVoteRet=[Term="
    ++ (to_string r.term ++ (codes " VoteGranted=" ++ (bool_text r.vote_granted ++ codes "]")))

unfoldable pub add_server_params_str : AddServerParams → Text
add_server_params_str args =
    codes "AddServerParams=[ServerId="
    ++ (to_string args.server_id
        ++ (codes " IP="
            ++ (args.ip
                ++ (codes " RaftPort="
                    ++ (to_string args.raft_port
                        ++ (codes " DBPort="
                            ++ (to_string args.db_port
                                ++ (codes " Name=" ++ (args.name ++ codes "]")))))))))

unfoldable pub add_server_ret_str : AddServerRet → Text
unfolding code_text
add_server_ret_str r =
    codes "AddServerRet=[ErrorCode="
    ++ (code_text r.error_code ++ (codes " LeaderAddr=" ++ (r.leader_addr ++ codes "]")))

unfoldable pub remove_server_params_str : RemoveServerParams → Text
remove_server_params_str args =
    codes "RemoveServerParams=[ServerId=" ++ (to_string args.server_id ++ codes "]")

unfoldable pub remove_server_ret_str : RemoveServerRet → Text
unfolding code_text
remove_server_ret_str r =
    codes "RemoveServerRet=[ErrorCode="
    ++ (code_text r.error_code ++ (codes " LeaderAddr=" ++ (r.leader_addr ++ codes "]")))

unfoldable pub peer_network_config_str : PeerNetworkConfig → Text
unfolding bool_text
peer_network_config_str c =
    codes "PeerNetworkConfig=[PeerId="
    ++ (to_string c.peer_id
        ++ (codes " IsEnabled="
            ++ (bool_text c.is_enabled
                ++ (codes " IsDelayed="
                    ++ (bool_text c.is_delayed
                        ++ (codes " DelayMS=" ++ (to_string c.delay_ms ++ codes "]")))))))
