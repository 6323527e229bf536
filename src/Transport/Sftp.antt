-- ===== src/Transport/Sftp.antt =====
-- crates/einvoice-transport/src/sftp.rs: the SFTP client, its configuration and its errors. The
-- children: Steps has the calls of the network and of libssh2, Session the connection, Objects what
-- is done with remote files, Guarded the proofs about both. `Debug` and the texts of errors are
-- not modelled.
use tw_einvoice_rs.Base.{
  ℕ, ◌/◌, ◌%◌, Bool, true, false, not, ◌&&◌, ◌||◌, ◌==◌, ltb, if◌then◌else◌, Option, none, some,
  List, [], ◌∷◌, ◌++◌, Str, codes, is_empty, str_eq, contains, u32_mod, ◌-◌, ◌*◌, Result, ok, err,
}
pub mod Steps
pub mod Session
pub mod Objects
pub mod Guarded
pub mod Operations
mod Tests

pub record SftpCredentials : Type 0 where
  pub username : Str
  pub password : Str

-- The timeout in seconds.
pub record SftpConfig : Type 0 where
  pub host : Str
  pub port : ℕ
  pub known_hosts_path : Str
  pub timeout : ℕ
  pub upload_directory : Str
  pub receive_directory : Str

abbrev pub default_port : ℕ
default_port = 2222

abbrev pub default_timeout : ℕ
default_timeout = 120

abbrev pub new_config : Str → Str → SftpConfig
new_config host known_hosts_path = record {
  host = host;
  port = default_port;
  known_hosts_path = known_hosts_path;
  timeout = default_timeout;
  upload_directory = codes "in";
  receive_directory = codes "out";
}

-- `I` and `S` are the errors of the system and of libssh2.
pub data SftpConnectionError (I S : Type 0) : Type 0 where
  missing_host_key authentication_failed : SftpConnectionError I S
  host_key_not_found host_key_mismatch host_key_check_failed : Str → ℕ → SftpConnectionError I S
  io_error : I → SftpConnectionError I S
  ssh_error : S → SftpConnectionError I S

pub data SftpUploadError (I S : Type 0) : Type 0 where
  invalid_remote_filename : SftpUploadError I S
  upload_connection : SftpConnectionError I S → SftpUploadError I S

pub data SftpInboxError (I S : Type 0) : Type 0 where
  invalid_remote_entry_name : SftpInboxError I S
  missing_remote_size : Str → SftpInboxError I S
  inbox_connection : SftpConnectionError I S → SftpInboxError I S

unfoldable pub safe_remote_basename : Str → Bool
safe_remote_basename value =
    not (is_empty value)
    && not (str_eq value (codes "."))
    && not (str_eq value (codes ".."))
    && not (contains b'/' value)
    && not (contains b'\\' value)
    && not (contains 0 value)
