-- ===== src/Transport/Sftp/Steps.antt =====
-- The calls that crates/einvoice-transport/src/sftp.rs makes of the network and of libssh2, as steps
-- that keep all calls made so far, the latest first. What a call answers may depend on those.
use tw_einvoice_rs.Base.{ℕ, Bool, Option, none, some, List, ◌∷◌, Str, Result, ok, err}

-- The calls; a path is a directory with a name in it.
pub data Call : Type 0 where
  resolves : Str → ℕ → Call
  connects : ℕ → Call
  sets_read_timeout sets_write_timeout : ℕ → Call
  opens_session : Call
  sets_timeout handshakes : ℕ → Call
  opens_known_hosts : Call
  reads_known_hosts : Str → Call
  checks_host_key : Str → ℕ → Call
  authenticates : Str → Str → Call
  opens_sftp : Call
  creates : Str → Str → Call
  writes : Str → Call
  flushes closes : Call
  opens : Str → Str → Call
  copies : Call
  unlinks : Str → Str → Call
  lists : Str → Call

pub data CheckResult : Type 0 where
  key_matches key_not_found key_differs check_fails : CheckResult

-- An entry of a listing: the file name if it is UTF-8, the mode, the size.
pub record Entry : Type 0 where
  pub file_name : Option Str
  pub perm : Option ℕ
  pub size : Option ℕ

-- What is outside: which calls fail and how, and what the others return.
pub record Outside (I S : Type 0) : Type 0 where
  pub io_fault : List Call → Call → Option I
  pub ssh_fault : List Call → Call → Option S
  pub addresses : List Call → List ℕ
  pub no_addresses : I
  pub has_host_key : List Call → Bool
  pub check_port : List Call → CheckResult
  pub authenticated : List Call → Bool
  pub contents : List Call → Str
  pub entries : List Call → List Entry

-- A step makes calls and returns a result.
abbrev pub Step : Type 0 → Type 0 → Type 0
Step E A = List Call → List Call × Result A E

abbrev pub continue :
    {E A B : Type 0} → List Call × Result A E → (A → Step E B) → List Call × Result B E
continue (past, ok a) f = f a past
continue (past, err e) f = (past, err e)

infixl 5 ◌>>=◌ ◌>>◌
abbrev pub ◌>>=◌ : {E A B : Type 0} → Step E A → (A → Step E B) → Step E B
◌>>=◌ m f past = continue (m past) f

abbrev pub ◌>>◌ : {E B : Type 0} → Step E (Unit {0}) → Step E B → Step E B
m >> k = m >>= λ _. k

abbrev pub pure : {E A : Type 0} → A → Step E A
pure a past = (past, ok a)

abbrev pub fail : {E A : Type 0} → E → Step E A
fail e past = (past, err e)

abbrev pub result_of : {E F : Type 0} → (F → E) → Option F → Result (Unit {0}) E
result_of wrap none = ok tt
result_of wrap (some e) = err (wrap e)

-- A call that may fail, its error as `From` wraps it.
abbrev pub call :
    {E F : Type 0} → (List Call → Call → Option F) → (F → E) → Call → Step E (Unit {0})
call fault wrap c past = (c ∷ past, result_of wrap (fault past c))

-- A call that cannot fail.
abbrev pub note : {E : Type 0} → Call → Step E (Unit {0})
note c past = (c ∷ past, ok tt)

-- What is read of the calls made so far.
abbrev pub ask : {E A : Type 0} → (List Call → A) → Step E A
ask f past = (past, ok (f past))

abbrev pub map_result : {E F A : Type 0} → (E → F) → List Call × Result A E → List Call × Result A F
map_result wrap (past, ok a) = (past, ok a)
map_result wrap (past, err e) = (past, err (wrap e))

-- `From` of the error of a connection.
abbrev pub lift : {E F A : Type 0} → (E → F) → Step E A → Step F A
lift wrap m past = map_result wrap (m past)
