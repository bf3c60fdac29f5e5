-- ===== src/Request/New.antt =====
-- src/request.rs: `new_request`, and the readers of the request's fields.
pub mod Framing
use tiny_http.Prelude.{ℕ, Bool, true, false, List, [], ◌∷◌, Option, none, some, Result, ok, err}
use tiny_http.Text.{Text, Bytes}
use tiny_http.Io.{ErrorKind, Read}
use tiny_http.Common.Header.{Header}
use tiny_http.Common.Method.{Method}
use tiny_http.Common.HttpVersion.{HttpVersion}
use tiny_http.Request.Create.{
  Request, RequestCreationError, DataReader, SocketAddr, Chosen, choose_reader, content_length,
  transfer_encoding, expects_continue, connection_upgrade,
}

abbrev is_some {ℓ} : {A : Type ℓ} → Option A → Bool
is_some none = false
is_some (some _) = true

-- What a caller gets: the request or an error, and the source where the request does not hold it.
abbrev pub Created : Type 0 → Type 0 → Type 0 → Type 0
Created S D W = Result RequestCreationError (Request S D W) × Option S

-- The arguments of `new_request` but the source and the writer.
pub record Head : Type 0 where
  pub secure : Bool
  pub method : Method
  pub path : Text
  pub version : HttpVersion
  pub headers : List Header
  pub remote_addr : Option SocketAddr

module _ {S D W : Type 0} where
  -- The last expression, once a reader is at hand.
  unfoldable pub build : Head → Bool → W → DataReader S D → Request S D W
  build h expects writer reader = record {
    data_reader = some reader;
    response_writer = some writer;
    remote_addr = h.remote_addr;
    secure = h.secure;
    method = h.method;
    path = h.path;
    http_version = h.version;
    headers = h.headers;
    body_length = content_length h.headers;
    must_send_continue = expects;
    notify_when_responded = false;
  }

  abbrev pub built : Head → Bool → W → Option (Chosen S D) → Option (Created S D W)
  built h expects writer none = none
  built h expects writer (some (ok reader, s)) = some (ok (build h expects writer reader), s)
  built h expects writer (some (err e, s)) = some (err e, s)

  module _ (source : Read S) (decode : S → D) where
    abbrev pub create_with :
        Head → W → S → Result RequestCreationError Bool → Option (Created S D W)
    create_with h writer s (err e) = some (err e, some s)
    create_with h writer s (ok expects) = built h expects writer (
        choose_reader source decode (connection_upgrade h.headers) (content_length h.headers)
          expects (is_some (transfer_encoding h.headers)) s)

    -- `none` means that the loop over the body ran out of fuel.
    unfoldable pub new_request : Head → W → S → Option (Created S D W)
    unfolding build
    new_request h writer s = create_with h writer s (expects_continue h.headers)
