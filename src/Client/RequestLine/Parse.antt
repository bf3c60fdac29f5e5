-- ===== src/Client/RequestLine/Parse.antt =====
-- What `parse_request_line` accepts.
use Prim.Native.String.{String}
use tiny_http.Prelude.{
  ℕ, ◌≡◌, refl, sym, ap, ◌∙◌, false, List, [], ◌∷◌, ◌++◌, append-nil, some, arith, any, ◌==◌,
  Result, ok, err, ok_or, ok?, and_then, inl, inr, ◌⊎◌,
}
use tiny_http.Text.{Text, codes, text_eq, text_eq_iff}
use tiny_http.Text.Decimal.{decimal}
use tiny_http.Text.Pieces.{split, split-append, split_single, split-join, join, join_behind, NoSep}
use tiny_http.Common.Method.{Method, as_str, IsCanonical, as_str-from_str, from_str-as_str}
use tiny_http.Common.Method
use tiny_http.Common.HttpVersion.{HttpVersion, version, version_display}
use tiny_http.Client.RequestLine.{
  ReadError, wrong_request_line, parse_http_version, parse_request_line,
}

-- The versions that a request line may name.
abbrev pub IsKnown : HttpVersion → Type 0
IsKnown v =
    (v ≡ version 0 9)
    ⊎ (v ≡ version 1 0)
    ⊎ (v ≡ version 1 1)
    ⊎ (v ≡ version 2 0)
    ⊎ (v ≡ version 3 0)

abbrev pub version_text : HttpVersion → Text
version_text v = codes "HTTP/" ++ version_display v

abbrev Names : Text → HttpVersion → String → ℕ → ℕ → Type 0
Names s v name a b = (s ≡ codes name) × (v ≡ version a b)

known :
    (s : Text) (v : HttpVersion)
    → parse_http_version s ≡ ok v
    → Names s v "HTTP/0.9" 0 9
      ⊎ Names s v "HTTP/1.0" 1 0
      ⊎ Names s v "HTTP/1.1" 1 1
      ⊎ Names s v "HTTP/2.0" 2 0
      ⊎ Names s v "HTTP/3.0" 3 0
unfolding parse_http_version
known s v e = ground (
  arith,
  text_eq_iff s (codes "HTTP/0.9"),
  text_eq_iff s (codes "HTTP/1.0"),
  text_eq_iff s (codes "HTTP/1.1"),
  text_eq_iff s (codes "HTTP/2.0"),
  text_eq_iff s (codes "HTTP/3.0"),
)

parse_http_version_sound :
    (s : Text) (v : HttpVersion) → parse_http_version s ≡ ok v → (s ≡ version_text v) × IsKnown v
unfolding parse_http_version version_display decimal
parse_http_version_sound s v e = elim (known s v e) [
  | inl (a, k) ↦ (a ∙ rw k, inl k)
  | inr (inl (a, k)) ↦ (a ∙ rw k, inr (inl k))
  | inr (inr (inl (a, k))) ↦ (a ∙ rw k, inr (inr (inl k)))
  | inr (inr (inr (inl (a, k)))) ↦ (a ∙ rw k, inr (inr (inr (inl k))))
  | inr (inr (inr (inr (a, k)))) ↦ (a ∙ rw k, inr (inr (inr (inr k))))
]

parse_http_version_complete :
    (v : HttpVersion) → IsKnown v → parse_http_version (version_text v) ≡ ok v
unfolding parse_http_version version_display decimal text_eq
parse_http_version_complete v (inl e) = rw e
parse_http_version_complete v (inr (inl e)) = rw e
parse_http_version_complete v (inr (inr (inl e))) = rw e
parse_http_version_complete v (inr (inr (inr (inl e)))) = rw e
parse_http_version_complete v (inr (inr (inr (inr e)))) = rw e

-- What may stand behind the version: nothing, or a space and anything.
abbrev pub IsTail : Text → Type 0
IsTail tail = (tail ≡ []) ⊎ ((t : Text) × (tail ≡ b' ' ∷ t))

abbrev pub request_line : Method → Text → HttpVersion → Text → Text
request_line m path v tail = as_str m ++ b' ' ∷ (path ++ b' ' ∷ (version_text v ++ tail))

abbrev pub NoSpace : Text → Type 0
NoSpace s = any (λ c. c == b' ') s ≡ false

-- The first pieces of a line.
from_pieces :
    (line a b c : Text) (more : List Text) (m : Method) (v : HttpVersion)
    → split b' ' line ≡ a ∷ b ∷ c ∷ more
    → Method.from_str a ≡ ok m
    → parse_http_version c ≡ ok v
    → parse_request_line line ≡ ok (m, b, v)
unfolding parse_request_line
from_pieces line a b c more m v s hm hv = rw (s, hm, hv)

split_tail :
    (c tail : Text)
    → NoSpace c
    → IsTail tail
    → (more : List Text) × (split b' ' (c ++ tail) ≡ c ∷ more)
split_tail c tail n (inl e) = ([], rw (e, append-nil) (split_single b' ' c n))
split_tail c tail n (inr (t, e)) = (split b' ' t, rw e (split-append b' ' c t n))

version_text-NoSpace : (v : HttpVersion) → IsKnown v → NoSpace (version_text v)
unfolding version_display decimal
version_text-NoSpace v (inl e) = rw e
version_text-NoSpace v (inr (inl e)) = rw e
version_text-NoSpace v (inr (inr (inl e))) = rw e
version_text-NoSpace v (inr (inr (inr (inl e)))) = rw e
version_text-NoSpace v (inr (inr (inr (inr e)))) = rw e

-- A line of a canonical method with no space in it, a path with no space in it and one of the five
-- known versions, single spaces between them, and then nothing or a space and anything, is read as
-- that method, path and version.
pub parse_request_line_complete :
    (m : Method) (path : Text) (v : HttpVersion) (tail : Text)
    → IsCanonical m
    → NoSpace (as_str m)
    → NoSpace path
    → IsKnown v
    → IsTail tail
    → parse_request_line (request_line m path v tail) ≡ ok (m, path, v)
parse_request_line_complete m path v tail canonical a b known_v t =
    let (more, e) = split_tail (version_text v) tail (version_text-NoSpace v known_v) t in
    from_pieces (request_line m path v tail) (as_str m) path (version_text v) more m v
      (split-append b' ' (as_str m) _ a
        ∙ ap (◌∷◌ (as_str m)) (split-append b' ' path _ b ∙ ap (◌∷◌ path) e))
      (from_str-as_str m canonical) (parse_http_version_complete v known_v)

-- What an accepted line is made of.
pub record IsRequestLine (line path : Text) (m : Method) (v : HttpVersion) : Type 0 where
  pub tail : Text
  pub shape : line ≡ request_line m path v tail
  pub canonical : IsCanonical m
  pub method_solid : NoSpace (as_str m)
  pub path_solid : NoSpace path
  pub known_version : IsKnown v
  pub tail_apart : IsTail tail

join_behind-IsTail : (ps : List Text) → IsTail (join_behind b' ' ps)
join_behind-IsTail [] = inl refl
join_behind-IsTail (p ∷ ps) = inr (p ++ join_behind b' ' ps, refl)

accepted :
    (line a b c : Text) (more : List Text) (m m' : Method) (v v' : HttpVersion) (path : Text)
    → line ≡ join b' ' (a ∷ b ∷ c ∷ more)
    → NoSep b' ' (a ∷ b ∷ c ∷ more)
    → Method.from_str a ≡ ok m'
    → parse_http_version c ≡ ok v'
    → ◌≡◌ {A = Result ReadError (Method × Text × HttpVersion)} (ok (m', b, v')) (ok (m, path, v))
    → IsRequestLine line path m v
accepted line a b c more m m' v v' path whole (na, (nb, (nc, _))) hm hv e =
    let em : m' ≡ m = cc in
    let eb : b ≡ path = cc in
    let ev : v' ≡ v = cc in
    let (am, canonical) = as_str-from_str a m' hm in
    let (ac, known_v) = parse_http_version_sound c v' hv in
    rw (← em, ← eb, ← ev)
      (record {
        tail = join_behind b' ' more;
        shape = whole ∙ rw (am, ac);
        canonical = canonical;
        method_solid = rw am na;
        path_solid = nb;
        known_version = known_v;
        tail_apart = join_behind-IsTail more;
      })

pieces_accepted :
    (line path : Text) (m : Method) (v : HttpVersion) (ps : List Text)
    → split b' ' line ≡ ps
    → line ≡ join b' ' ps
    → NoSep b' ' ps
    → parse_request_line line ≡ ok (m, path, v)
    → IsRequestLine line path m v
unfolding parse_request_line
pieces_accepted line path m v [] s w n e = absurd (cc (rw (s, parse_request_line) at e))
pieces_accepted line path m v (a ∷ []) s w n e = absurd (ground arith)
pieces_accepted line path m v (a ∷ b ∷ []) s w n e = absurd (ground arith)
pieces_accepted line path m v (a ∷ b ∷ c ∷ more) s w n e =
    go (Method.from_str a) refl (parse_http_version c) refl (rw (s, parse_request_line) at e)
  where
    go :
        (x : Result (Unit {0}) Method)
        → Method.from_str a ≡ x
        → (y : Result ReadError HttpVersion) → parse_http_version c ≡ y
        → ok_or {A = Method × Text × HttpVersion}
            (and_then
              (ok? x)
              (λ m. and_then (some b) (λ p. and_then (ok? y) (λ v. some (m, p, v)))))
            wrong_request_line
          ≡ ok (m, path, v)
        → IsRequestLine line path m v
    go (ok m') hm (ok v') hv h = accepted line a b c more m m' v v' path w n hm hv h
    go (ok m') hm (err _) hv h = absurd (cc h)
    go (err _) hm (ok _) hv h = absurd (cc h)
    go (err _) hm (err _) hv h = absurd (cc h)

-- A line that is accepted is made of the method, the path and the version that are returned: a
-- canonical method and a path, both with no space, and one of the five known versions, with single
-- spaces between them, and then nothing, or a space and anything.
pub parse_request_line_sound :
    (line path : Text) (m : Method) (v : HttpVersion)
    → parse_request_line line ≡ ok (m, path, v)
    → IsRequestLine line path m v
parse_request_line_sound line path m v e =
    let (whole, clear) = split-join b' ' line in
    pieces_accepted line path m v (split b' ' line) refl (sym whole) clear e
