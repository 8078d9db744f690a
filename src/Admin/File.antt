-- ===== src/Admin/File.antt =====
-- The file of the servers before and after a run of ohmyserver/admin.cpp.
use oh_my_db.Prelude.{
  ◌<◌, ◌≡◌, refl, inl, inr, ℤ, ◌==ℤ◌, Map, insert, erase, Bool, true, false, some, [], ◌∷◌, length,
  ◌^◌, if◌then◌else◌, arith, Bool-cases, strcpy-FitsArray,
}
use oh_my_db.Consensus.{Text, ServerInfo, AddServerParams, RemoveServerParams}
use oh_my_db.Raft.Membership.{server_info}
use oh_my_db.Wire.Members.{ip_size}
use oh_my_db.Config.{parse_config, name_size as info_name_size}
use oh_my_db.Config.RoundTrip.{
  IsStorable, AllStorable, none_left, next_one, AllAbove, IsAscending, parse_config-config_text,
}
use oh_my_db.Config.Rewritten.{IsStored, IsStored-insert, parse_config-IsStored}
use oh_my_db.Admin.{
  Admin, AddCall, RemoveCall, first_client, add_server, remove_server, new_info, config_text,
  write_config, run_add, run_remove,
}

AllStorable-erase :
    {servers : Map ServerInfo} (k : ℤ) → AllStorable servers → AllStorable (erase k servers)
unfolding erase
AllStorable-erase k none_left = none_left
AllStorable-erase k (next_one {info} {servers} h hs) = elim (Bool-cases (info.id ==ℤ k)) [
  | inl e ↦ rw e (AllStorable-erase k hs)
  | inr e ↦ rw e (next_one h (AllStorable-erase k hs))
]

AllAbove-erase :
    (j k : ℤ) (servers : Map ServerInfo) → AllAbove j servers → AllAbove j (erase k servers)
unfolding erase
AllAbove-erase j k [] h = tt
AllAbove-erase j k ((i, w) ∷ servers) h = elim (Bool-cases (i ==ℤ k)) [
  | inl e ↦ rw e (AllAbove-erase j k servers h.1)
  | inr e ↦ rw e (h.0, AllAbove-erase j k servers h.1)
]

IsAscending-erase :
    (k : ℤ) (servers : Map ServerInfo) → IsAscending servers → IsAscending (erase k servers)
unfolding erase
IsAscending-erase k [] h = tt
IsAscending-erase k ((i, w) ∷ servers) h = elim (Bool-cases (i ==ℤ k)) [
  | inl e ↦ rw e (IsAscending-erase k servers h.1)
  | inr e ↦ rw e (AllAbove-erase i k servers h.0, IsAscending-erase k servers h.1)
]

IsStored-reread :
    (servers : Map ServerInfo)
    → IsStored servers
    → parse_config (config_text servers) ≡ some servers
IsStored-reread servers s = parse_config-config_text servers s.storable s.ascending

new_info-eq :
    (args : AddServerParams)
    → IsStorable (server_info args)
    → new_info args ≡ some (server_info args)
unfolding new_info server_info
new_info-eq args h = rw (strcpy-FitsArray ip_size args.ip h.ip_fits) (
    rw
      (strcpy-FitsArray info_name_size args.name
        (record { no_zero = h.name_fits.no_zero; short = omega (arith, h.name_fits.short) }))
      refl)

abbrev pub start : Map ServerInfo → Admin
start servers = record { servers = servers; client = first_client }

-- Where the tool's call of `AddServer` has an outcome, its run has one, and the file then parses to
-- the servers it held, with the new server among them exactly if the call succeeded: for a file that
-- parses and opens, and a server that fits it.
pub run_add-updates :
    (pinged : Text → ℤ) (call : AddCall) (args : AddServerParams) (file : Text)
    (servers : Map ServerInfo) (added : Bool)
    → length file < 2 ^ 31
    → parse_config file ≡ some servers
    → IsStorable (server_info args)
    → add_server pinged call args (start servers) ≡ some added
    → (after : Text) × (run_add pinged call true args file ≡ some after)
      × (parse_config after
          ≡ some (if added then insert args.server_id (server_info args) servers else servers))
unfolding run_add write_config server_info
run_add-updates pinged call args file servers true lt parsed fits done = (
  config_text (insert args.server_id (server_info args) servers),
  rw (parsed, done, new_info-eq args fits) refl,
  IsStored-reread (insert args.server_id (server_info args) servers) (
      IsStored-insert (server_info args) servers fits
        (parse_config-IsStored file servers lt parsed)),
)
run_add-updates pinged call args file servers false lt parsed fits done =
    (file, rw (parsed, done) refl, parsed)

-- The same for `RemoveServer`: the server is gone from the file exactly if the call succeeded.
pub run_remove-updates :
    (call : RemoveCall) (args : RemoveServerParams) (file : Text) (servers : Map ServerInfo)
    (removed : Bool)
    → length file < 2 ^ 31
    → parse_config file ≡ some servers
    → remove_server call args (start servers) ≡ some removed
    → (after : Text) × (run_remove call true args file ≡ some after)
      × (parse_config after ≡ some (if removed then erase args.server_id servers else servers))
unfolding run_remove write_config
run_remove-updates call args file servers true lt parsed done =
    let s = parse_config-IsStored file servers lt parsed in
    (
      config_text (erase args.server_id servers),
      rw (parsed, done) refl,
      IsStored-reread (erase args.server_id servers) (record {
        storable = AllStorable-erase args.server_id s.storable;
        ascending = IsAscending-erase args.server_id servers s.ascending;
      }),
    )
run_remove-updates call args file servers false lt parsed done =
    (file, rw (parsed, done) refl, parsed)
