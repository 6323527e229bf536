-- ===== src/Cli.antt =====
-- apps/einvoice-cli/src/main.rs: the program. Arguments are read by a library, and what is printed
-- is not modelled. The children: Artifact has the file system, Prepare what is signed, Run the three
-- commands, Durable and Receiving what they guarantee.
use tw_einvoice_rs.Base.{
  ℕ, Bool, Option, none, some, List, Str, codes, digits, ◌++◌, is_empty, if◌then◌else◌, Result, ok,
  err,
}
use tw_einvoice_rs.Transport.Gateway.{ServiceType, exchange, store, ZipMode, plain, zip}
pub mod Artifact
pub mod Prepare
pub mod Run
pub mod Durable
pub mod Plan
pub mod Receiving
mod Tests

pub data ServiceArg : Type 0 where
  store_arg exchange_arg : ServiceArg

abbrev pub into_service_type : ServiceArg → ServiceType
into_service_type store_arg = store
into_service_type exchange_arg = exchange

pub data ZipArg : Type 0 where
  plain_arg zip_arg : ZipArg

abbrev pub into_zip_mode : ZipArg → ZipMode
into_zip_mode plain_arg = plain
into_zip_mode zip_arg = zip

pub data PlatformEnvironment : Type 0 where
  test production : PlatformEnvironment

pub record PlatformEndpoints : Type 0 where
  pub sftp_host : Str
  pub gateway_base : Str

abbrev pub endpoints : PlatformEnvironment → PlatformEndpoints
endpoints test = record {
  sftp_host = codes "tsftp.einvoice.nat.gov.tw";
  gateway_base = codes "https://tgw.einvoice.nat.gov.tw/gateway/api";
}
endpoints production = record {
  sftp_host = codes "sftp.einvoice.nat.gov.tw";
  gateway_base = codes "https://gw.einvoice.nat.gov.tw/gateway/api";
}

pub record CommonPrepareArgs : Type 0 where
  pub filename : Str
  pub mig : List Str
  pub from_vac : Str
  pub to_vac : Str
  pub from_description : Option Str
  pub to_description : Option Str
  pub from_vac_description : Option Str
  pub to_vac_description : Option Str
  pub action : Str
  pub service : ServiceArg
  pub zip : ZipArg
  pub pfx : Str
  pub pfx_password_env : Str
  pub output : Str
  pub force_output : Bool
  pub api_version : Str
  pub turnkey_version : Str

pub record SubmitArgs : Type 0 where
  pub common : CommonPrepareArgs
  pub environment : PlatformEnvironment
  pub known_hosts : Str
  pub transport_id : Str
  pub transport_password_env : Str

pub record ReceiveArgs : Type 0 where
  pub environment : PlatformEnvironment
  pub known_hosts : Str
  pub transport_id : Str
  pub transport_password_env : Str
  pub inbox_dir : Str

pub data CliError : Type 0 where
  missing_secret_environment non_unicode_secret_environment : Str → CliError
  empty_secret_environment_name : CliError
  inbound_object_failures : ℕ → CliError

-- `env::var`.
pub data Variable : Type 0 where
  present : Str → Variable
  not_present not_unicode : Variable

abbrev pub secret_of : Str → Variable → Result Str CliError
secret_of name (present secret) = ok secret
secret_of name not_present = err (missing_secret_environment name)
secret_of name not_unicode = err (non_unicode_secret_environment name)

unfoldable pub read_secret_environment : (Str → Variable) → Str → Result Str CliError
read_secret_environment variable name =
    if is_empty name then err empty_secret_environment_name else secret_of name (variable name)
