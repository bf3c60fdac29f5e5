-- ===== src/Tests/Messages.antt =====
-- Runs about responses.
use tiny_http.Prelude.{refl, false, [], ◌∷◌, none, some, arith}
use tiny_http.Text.{Text, codes, eq_ignore_ascii_case}
use tiny_http.Common.Header.{Header, make_header, equiv}
use tiny_http.Common.HttpVersion.{version}
use tiny_http.Io.{Body}
use tiny_http.Util.HeaderValue.{parse_header_value}
use tiny_http.Response.Builder.{Response, cursor, status, new, add_header}
use tiny_http.Response.Builder.Headers.{IsClean, new-IsClean, add_header-IsClean}
use tiny_http.Response.Print.Wire.{Message, raw_print-Message}
use tiny_http.Response.TransferEncoding.{requested}
use tiny_http.Response.TransferEncoding.Best.{Verdict, requested-Verdict}
use tiny_http.Tests.Data.{whole_numbers, whole_numbers-IsOrdered, a_date, numbers-IsNumber}

abbrev plain_header : Header
plain_header = make_header (codes "content-type") (codes "text/plain")

abbrev html_header : Header
html_header = make_header (codes "Content-Type") (codes "text/html")

abbrev greeting : Response Body
greeting = record {
  reader = cursor (codes "hello");
  status_code = status 200;
  headers = plain_header ∷ [];
  data_length = some 5;
  chunked_threshold = none;
}

greeting-IsClean : IsClean greeting.headers
unfolding equiv eq_ignore_ascii_case
greeting-IsClean = record { allowed = refl; no_length = refl; one_type = omega arith }

raw_print-Message_example : Message whole_numbers a_date (λ b. b) greeting (version 1 1) [] false []
raw_print-Message_example =
    raw_print-Message whole_numbers a_date (λ b. b) greeting (version 1 1) [] false [] refl
      greeting-IsClean refl refl (omega arith)

new-IsClean_example :
    IsClean (new (status 200) (html_header ∷ plain_header ∷ []) tt (some 5) none).headers
new-IsClean_example = new-IsClean (status 200) (html_header ∷ plain_header ∷ []) tt (some 5) none

add_header-IsClean_example : IsClean (add_header greeting html_header).headers
add_header-IsClean_example = add_header-IsClean greeting html_header greeting-IsClean

abbrev te_value : Text
te_value = codes "gzip;q=3, chunked;q=2, identity;q=0"

requested-Verdict_example :
    Verdict whole_numbers whole_numbers-IsOrdered
      (requested whole_numbers te_value)
      (parse_header_value whole_numbers te_value)
requested-Verdict_example =
    requested-Verdict whole_numbers whole_numbers-IsOrdered te_value
      (numbers-IsNumber (parse_header_value whole_numbers te_value))
