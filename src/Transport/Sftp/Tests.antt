-- ===== src/Transport/Sftp/Tests.antt =====
-- The theorem about the SFTP client at a server that answers, and runs against it.
use tw_einvoice_rs.Base.{ℕ, ◌≡◌, refl, true, none, some, [], ◌∷◌, codes, ok, err}
use tw_einvoice_rs.Transport.Receiver.{RemoteObject}
use tw_einvoice_rs.Transport.Sftp.{
  SftpConfig, new_config, SftpCredentials, upload_connection, host_key_mismatch,
  safe_remote_basename,
}
use tw_einvoice_rs.Transport.Sftp.Steps.{CheckResult, key_matches, key_differs, Outside}
use tw_einvoice_rs.Transport.Sftp.Session.{
  set_timeouts, try_addresses, connect_tcp, verify_host_key, connect_session,
}
use tw_einvoice_rs.Transport.Sftp.Objects.{upload, list_inbox, collect_objects, sort_objects}
use tw_einvoice_rs.Transport.Sftp.Guarded.{IsGuarded}
use tw_einvoice_rs.Transport.Sftp.Operations.{
  uploads_object, lists_inbox, downloads_object, deletes_object, perform_all, perform_all-IsGuarded,
}

-- A server with two entries, one of them a directory, whose key is as the argument says.
abbrev server : CheckResult → Outside ℕ ℕ
server key = record {
  io_fault = λ past c. none;
  ssh_fault = λ past c. none;
  addresses = λ past. 7 ∷ [];
  no_addresses = 0;
  has_host_key = λ past. true;
  check_port = λ past. key;
  authenticated = λ past. true;
  contents = λ past. codes "<xml/>";
  entries = λ past.
      record { file_name = some (codes "b"); perm = none; size = some 6 }
      ∷ record { file_name = some (codes "a"); perm = some 33188; size = some 6 }
      ∷ record { file_name = some (codes "old"); perm = some 16877; size = none }
      ∷ [];
}

abbrev config : SftpConfig
config = new_config (codes "tsftp.einvoice.nat.gov.tw") (codes "known_hosts")

abbrev credentials : SftpCredentials
credentials = record { username = codes "id"; password = codes "secret" }

abbrev object : RemoteObject
object = record { name = codes "a"; size = 6 }

perform_all-IsGuarded_example : IsGuarded (server key_matches) config credentials (
    perform_all
      (server key_matches)
      config
      credentials
      (uploads_object (codes "x") (codes "bytes")
        ∷ lists_inbox
        ∷ downloads_object object
        ∷ deletes_object object
        ∷ [])
      [])
perform_all-IsGuarded_example = perform_all-IsGuarded (server key_matches) config credentials (
    uploads_object (codes "x") (codes "bytes")
    ∷ lists_inbox
    ∷ downloads_object object
    ∷ deletes_object object
    ∷ [])

uploaded : (upload (server key_matches) config credentials (codes "x") (codes "bytes") []).1 ≡ ok tt
unfolding upload connect_session connect_tcp try_addresses set_timeouts verify_host_key
    safe_remote_basename
uploaded = refl

refused :
    (upload (server key_differs) config credentials (codes "x") (codes "bytes") []).1
    ≡ err (upload_connection (host_key_mismatch (codes "tsftp.einvoice.nat.gov.tw") 2222))
unfolding upload connect_session connect_tcp try_addresses set_timeouts verify_host_key
    safe_remote_basename
refused = refl

listed :
    (list_inbox (server key_matches) config credentials []).1
    ≡ ok (object ∷ record { name = codes "b"; size = 6 } ∷ [])
unfolding list_inbox connect_session connect_tcp try_addresses set_timeouts verify_host_key
    collect_objects sort_objects safe_remote_basename
listed = refl
