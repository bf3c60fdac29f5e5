-- ===== src/Tests/Values.antt =====
-- Runs about values: headers, methods, versions, requests and the queue.
use tiny_http.Prelude.{ℕ, ◌≡◌, refl, false, List, [], ◌∷◌, ◌++◌, none, ok, length, inl, inr}
use tiny_http.Text.{codes, eq_ignore_ascii_case}
use tiny_http.Text.Pieces.{trim, trim_start, trim_end, is_whitespace, splitn2}
use tiny_http.Text.Decimal
use tiny_http.Io.Slice.{slice_read, all_left, slice_read-IsReader}
use tiny_http.Common.Header.{Header, make_header, from_str, field_from_str, header_display, equiv}
use tiny_http.Common.Header.Parse.{IsWellFormed, from_str-IsWellFormed, from_str-header_display}
use tiny_http.Common.Method.{Method, get, as_str}
use tiny_http.Common.HttpVersion.{version}
use tiny_http.Client.RequestLine.{parse_request_line}
use tiny_http.Client.RequestLine.Parse.{
  IsRequestLine, request_line, parse_request_line_complete, parse_request_line_sound,
}
use tiny_http.Util.HeaderValue.{parse_header_value}
use tiny_http.Util.HeaderValue.Elements.{
  Element, IsPlain, value_text, Read, parse_header_value-value_text,
}
use tiny_http.Util.MessagesQueue.History.{
  Call, pushes, unblocks, pops, tries, run, offered, run_fifo,
}
use tiny_http.Request.Create.{content_length, expects_continue, connection_upgrade}
use tiny_http.Request.New.{Head, new_request}
use tiny_http.Request.New.Framing.{Frames, new_request-Frames}
use tiny_http.Tests.Data.{whole_numbers, stream}

abbrev host : Header
host = make_header (codes "Host") (codes "a:80")

host-IsWellFormed : IsWellFormed host
unfolding trim trim_start trim_end is_whitespace
host-IsWellFormed = record {
  solid = refl;
  no_colon = refl;
  name_ascii = refl;
  value_ascii = refl;
  trimmed = refl;
}

from_str-header_display_example : from_str (header_display host) ≡ ok host
from_str-header_display_example = from_str-header_display host host-IsWellFormed

from_str-IsWellFormed_example : IsWellFormed host
unfolding from_str field_from_str splitn2 trim trim_start trim_end is_whitespace
from_str-IsWellFormed_example = from_str-IsWellFormed (codes "Host:  a:80 ") host refl

parse_request_line_complete_example :
    parse_request_line (request_line get (codes "/a") (version 1 1) [])
    ≡ ok (get, codes "/a", version 1 1)
unfolding as_str
parse_request_line_complete_example =
    parse_request_line_complete get (codes "/a") (version 1 1) [] tt refl refl
      (inr (inr (inl refl))) (inl refl)

get_line :
    parse_request_line (request_line get (codes "/a") (version 1 1) [])
    ≡ ok (get, codes "/a", version 1 1)
unfolding as_str
get_line =
    parse_request_line_complete get (codes "/a") (version 1 1) [] tt refl refl
      (inr (inr (inl refl))) (inl refl)

parse_request_line_sound_example :
    IsRequestLine (request_line get (codes "/a") (version 1 1) []) (codes "/a") get (version 1 1)
parse_request_line_sound_example =
    parse_request_line_sound (request_line get (codes "/a") (version 1 1) []) (codes "/a") get
      (version 1 1) get_line

abbrev gzip : Element
gzip = record { name = codes "gzip"; params = codes " q=3" ∷ [] }

abbrev brotli : Element
brotli = record { name = codes " br"; params = [] }

gzip-IsPlain : IsPlain gzip
gzip-IsPlain = record { no_comma = refl; name_plain = refl; params_plain = (refl, tt) }

brotli-IsPlain : IsPlain brotli
brotli-IsPlain = record { no_comma = refl; name_plain = refl; params_plain = tt }

parse_header_value-value_text_example :
    Read whole_numbers
      (gzip ∷ brotli ∷ [])
      (parse_header_value whole_numbers (value_text gzip (brotli ∷ [])))
parse_header_value-value_text_example =
    parse_header_value-value_text whole_numbers gzip (brotli ∷ []) gzip-IsPlain (brotli-IsPlain, tt)

abbrev calls : List (Call ℕ)
calls = pushes 1 ∷ unblocks ∷ pops ∷ tries ∷ pushes 2 ∷ pops ∷ []

run_fifo_example : (run calls []).0 ++ (run calls []).1 ≡ [] ++ offered calls
run_fifo_example = run_fifo calls []

abbrev a_head : Head
a_head = record {
  secure = false;
  method = Method.post;
  path = codes "/a";
  version = version 1 1;
  headers = host ∷ make_header (codes "content-length") (codes "4") ∷ [];
  remote_addr = none;
}

new_request-Frames_example :
    Frames slice_read all_left length slice_read-IsReader false 4 stream
      (new_request slice_read (λ s. s) a_head tt stream)
unfolding content_length expects_continue connection_upgrade equiv eq_ignore_ascii_case
    Decimal.from_str
new_request-Frames_example =
    new_request-Frames slice_read all_left length slice_read-IsReader (λ s. s) a_head tt stream
      false 4 refl refl refl
