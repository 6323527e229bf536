-- ===== src/Transport/Gateway/Http.antt =====
-- crates/einvoice-transport/src/gateway.rs: `Pfs001HttpClient`. The HTTP library and the readers and
-- writers of JSON are parameters.
use tw_einvoice_rs.Base.{
  ℕ, ◌≡◌, ◌↔◌, inl, inr, refl, ap, ◌∙◌, Bool, true, ◌&&◌, ◌==◌, leb, ltb, if◌then◌else◌, Bool-cases,
  [], ◌∷◌, ◌++◌, Str, codes, is_empty, Result, ok, err, map_err, ◌>>=◌, use_ok, ok_of-map_err,
}
use tw_einvoice_rs.Transport.Gateway.{
  UploadNotification, GatewayCredentials, GatewayProcessStatus, GatewayEncodeError,
  WireInvoiceEvent, to_pfs001,
}

-- `trim_end_matches('/')`.
abbrev pub trim_slashes : Str → Str
trim_slashes [] = []
trim_slashes (c ∷ s) =
    let rest = trim_slashes s in if is_empty rest && c == b'/' then [] else c ∷ rest

abbrev pub endpoint_of : Str → Str
endpoint_of base_url = trim_slashes base_url ++ codes "/pfs001i/uploadInvoiceMessage"

-- In seconds.
abbrev pub http_timeout : ℕ
http_timeout = 120

abbrev pub connect_timeout : ℕ
connect_timeout = 10

-- `H` is the error of the HTTP library, `J` that of JSON. `json_failed` is `Encode` of an error `Json`.
pub data Pfs001HttpError (H J : Type 0) : Type 0 where
  client_build : H → Pfs001HttpError H J
  encode_failed : GatewayEncodeError → Pfs001HttpError H J
  json_failed : J → Pfs001HttpError H J
  request_failed : H → Pfs001HttpError H J
  http_status : ℕ → Str → Pfs001HttpError H J
  decode_failed : J → Pfs001HttpError H J

-- The HTTP client is known by its timeouts.
pub record Pfs001HttpClient : Type 0 where
  pub connect : ℕ
  pub timeout : ℕ
  pub endpoint : Str
  pub credentials : GatewayCredentials

-- A POST with Basic authentication and a body of JSON.
pub record Request : Type 0 where
  pub url : Str
  pub login_id : Str
  pub login_password : Str
  pub content_type : Str
  pub body : Str

-- What has arrived: the status, and the body unless reading it failed.
pub record Response (H : Type 0) : Type 0 where
  pub status : ℕ
  pub bytes : Result Str H

-- `StatusCode::is_success`.
abbrev pub is_success : ℕ → Bool
is_success status = leb 200 status && ltb status 300

module _ {H J : Type 0} (build : ℕ → ℕ → Result (Unit {0}) H) where
  abbrev pub with_timeout :
      Str → GatewayCredentials → ℕ → Result Pfs001HttpClient (Pfs001HttpError H J)
  with_timeout base_url credentials timeout =
      map_err client_build (build connect_timeout timeout) >>= λ _. ok (record {
        connect = connect_timeout;
        timeout = timeout;
        endpoint = endpoint_of base_url;
        credentials = credentials;
      })

  unfoldable pub new_http_client :
      Str → GatewayCredentials → Result Pfs001HttpClient (Pfs001HttpError H J)
  new_http_client base_url credentials = with_timeout base_url credentials http_timeout

module _ {H J : Type 0} (to_json : WireInvoiceEvent → Result Str J)
    (from_json : Str → Result GatewayProcessStatus J) (from_utf8_lossy : Str → Str)
    (send : Request → Result (Response H) H) where
  -- `to_pfs001_json`, which fails for a number or in the writer.
  abbrev pub to_pfs001_json :
      UploadNotification → GatewayCredentials → Result Str (Pfs001HttpError H J)
  to_pfs001_json n credentials = map_err encode_failed (to_pfs001 n credentials) >>= λ event.
      map_err json_failed (to_json event)

  abbrev pub request_of : Pfs001HttpClient → Str → Request
  request_of client body = record {
    url = client.endpoint;
    login_id = client.credentials.login_id;
    login_password = client.credentials.login_password;
    content_type = codes "application/json";
    body = body;
  }

  abbrev pub answer_of : ℕ → Str → Result GatewayProcessStatus (Pfs001HttpError H J)
  answer_of status body =
      if is_success status
      then map_err decode_failed (from_json body)
      else err (http_status status (from_utf8_lossy body))

  unfoldable pub notify_http :
      Pfs001HttpClient → UploadNotification → Result GatewayProcessStatus (Pfs001HttpError H J)
  notify_http client n = to_pfs001_json n client.credentials >>= λ body.
      map_err request_failed (send (request_of client body)) >>= λ response.
      map_err request_failed response.bytes >>= λ response_body.
      answer_of response.status response_body

  answer_of_ok :
      (status : ℕ) (body : Str) (s : GatewayProcessStatus)
      → answer_of status body ≡ ok s
      → (is_success status ≡ true) × (from_json body ≡ ok s)
  answer_of_ok status body s h = elim (Bool-cases (is_success status)) [
    | inl e ↦ (e, ok_of-map_err decode_failed (from_json body) (rw e at h))
    | inr e ↦ let k = rw e at h in cc
  ]

  -- An answer is taken for the gateway's only where the notification could be encoded with the
  -- credentials, was sent to the endpoint under the same credentials, and came back with a status of
  -- success and a body that is this answer; and then it is.
  pub notify_http_iff :
      (client : Pfs001HttpClient) (n : UploadNotification) (s : GatewayProcessStatus)
      → (notify_http client n ≡ ok s) ↔ (
          (event : WireInvoiceEvent) × (body : Str) × (status : ℕ) × (answer : Str) × (to_pfs001 n
              client.credentials
            ≡ ok event)
          × (to_json event ≡ ok body)
          × (send (record {
            url = client.endpoint;
            login_id = client.credentials.login_id;
            login_password = client.credentials.login_password;
            content_type = codes "application/json";
            body = body;
          })
              ≡ ok (record { status = status; bytes = ok answer }))
          × (is_success status ≡ true)
          × (from_json answer ≡ ok s))
  unfolding notify_http
  notify_http_iff client n s = (
    λ h. use_ok (to_pfs001_json n client.credentials) _ h λ body e h1.
        use_ok (map_err request_failed (send (request_of client body))) _ h1 λ response r h2.
          use_ok (map_err request_failed response.bytes) _ h2 λ answer b h3.
            use_ok (map_err encode_failed (to_pfs001 n client.credentials)) _ e λ event e1 e2.
              let a = answer_of_ok response.status answer s h3 in
              (
                event,
                body,
                response.status,
                answer,
                ok_of-map_err encode_failed _ e1,
                ok_of-map_err json_failed _ e2,
                ok_of-map_err request_failed _ r
                    ∙ ap (λ x. ok (record { status = response.status; bytes = x }))
                        (ok_of-map_err request_failed _ b),
                a.0,
                a.1,
              ),
    λ (event, body, status, answer, e, j, r, u, f). rw (e, j, r, u, f) refl,
  )
