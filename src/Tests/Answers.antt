-- ===== src/Tests/Answers.antt =====
-- Runs about answers to requests.
use tiny_http.Prelude.{◌≡◌, refl, true, false, [], none, some, arith, ok, err}
use tiny_http.Text.{Bytes, codes, eq_ignore_ascii_case}
use tiny_http.Text.Decimal
use tiny_http.Io.{other, Body, Write, vec_writer, write_pieces, copy}
use tiny_http.Common.Header.{from_bytes, equiv}
use tiny_http.Common.Method.{get, method_eq}
use tiny_http.Common.HttpVersion.{version, version_le}
use tiny_http.Response.Builder.{Response, cursor, status, empty, threshold}
use tiny_http.Request.Create.{Request, nothing}
use tiny_http.Response.Print.{raw_print}
use tiny_http.Response.Prepare.{prepare, must_header}
use tiny_http.Response.TransferEncoding.{choose_transfer_encoding}
use tiny_http.Request.Answer.{respond, drop, as_reader, ignore_client_closing_errors, respond_impl}
use tiny_http.Request.Answer.Once.{
  OpenStill, untouched, respond-drop, respond-is_closing, as_reader_twice,
}
use tiny_http.Request.Answer.Answered.{Answered, respond-Answered, drop-Answered}
use tiny_http.Request.Answer.Told.{Told, with_notify_sender-Told}
use tiny_http.Request.Answer.{with_notify_sender}
use tiny_http.Request.Answer.Upgraded.{Upgraded, upgrade-Upgraded}
use tiny_http.Tests.Data.{whole_numbers, a_date}

abbrev a_request : Request Bytes Bytes Bytes
a_request = record {
  data_reader = some nothing;
  response_writer = some [];
  remote_addr = none;
  secure = false;
  method = get;
  path = codes "/";
  http_version = version 1 1;
  headers = [];
  body_length = none;
  must_send_continue = true;
  notify_when_responded = true;
}

abbrev a_response : Response Body
a_response = record {
  reader = cursor (codes "hi");
  status_code = status 200;
  headers = [];
  data_length = some 2;
  chunked_threshold = none;
}

respond-Answered_example :
    Answered whole_numbers a_date
      (λ b. b)
      a_response
      a_request
      []
      (respond whole_numbers a_date (λ b. b) vec_writer a_response a_request)
respond-Answered_example =
    respond-Answered whole_numbers a_date (λ b. b) a_response a_request [] refl refl
      (record { allowed = refl; no_length = refl; one_type = omega arith }) refl refl (omega arith)

drop-Answered_example :
    Answered whole_numbers a_date
      (λ b. b)
      (empty (status 500))
      a_request
      []
      (drop whole_numbers a_date (λ b. b) vec_writer a_request)
drop-Answered_example = drop-Answered whole_numbers a_date (λ b. b) a_request [] refl refl

respond-drop_example :
    (drop whole_numbers a_date
        (λ b. b)
        vec_writer
        (respond whole_numbers a_date (λ b. b) vec_writer a_response a_request).request
      ≡ untouched (respond whole_numbers a_date (λ b. b) vec_writer a_response a_request).request)
    × (drop whole_numbers a_date
          (λ b. b)
          vec_writer
          (drop whole_numbers a_date (λ b. b) vec_writer a_request).request
        ≡ untouched (drop whole_numbers a_date (λ b. b) vec_writer a_request).request)
respond-drop_example = respond-drop whole_numbers a_date (λ b. b) vec_writer a_response a_request

-- A writer that always fails.
abbrev broken : Write Bytes
broken = record { write_all = λ b w. (err other, w); flush = λ w. (err other, w) }

as_reader_twice_example :
    as_reader whole_numbers a_date
      (λ b. b)
      broken
      (as_reader whole_numbers a_date (λ b. b) broken a_request).1
    ≡ (ok tt, (as_reader whole_numbers a_date (λ b. b) broken a_request).1)
unfolding as_reader raw_print prepare empty must_header from_bytes equiv eq_ignore_ascii_case
    choose_transfer_encoding version_le Decimal.decimal write_pieces
as_reader_twice_example = as_reader_twice whole_numbers a_date (λ b. b) broken a_request refl

respond-is_closing_example : OpenStill other
unfolding respond respond_impl ignore_client_closing_errors raw_print prepare must_header from_bytes
    equiv eq_ignore_ascii_case choose_transfer_encoding version_le threshold Decimal.decimal
    write_pieces
respond-is_closing_example =
    respond-is_closing whole_numbers a_date (λ b. b) broken a_response a_request other refl

upgrade-Upgraded_example :
    Upgraded whole_numbers a_date (λ b. b) (codes "websocket") a_response a_request [] nothing
upgrade-Upgraded_example =
    upgrade-Upgraded whole_numbers a_date (λ b. b) (codes "websocket") a_response a_request []
      nothing refl refl refl refl
      (record { allowed = refl; no_length = refl; one_type = omega arith })

with_notify_sender-Told_example :
    Told whole_numbers a_date
      (λ b. b)
      vec_writer
      a_response
      (codes "websocket")
      []
      (with_notify_sender a_request)
unfolding respond_impl ignore_client_closing_errors with_notify_sender raw_print prepare must_header
    from_bytes equiv eq_ignore_ascii_case choose_transfer_encoding version_le threshold
    Decimal.decimal write_pieces method_eq copy empty
with_notify_sender-Told_example =
    with_notify_sender-Told whole_numbers a_date (λ b. b) vec_writer a_response (codes "websocket")
      a_request [] refl refl refl
