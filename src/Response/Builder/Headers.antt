-- ===== src/Response/Builder/Headers.antt =====
-- Which headers a response that was built by the operations can hold.
use tiny_http.Prelude.{
  ℕ, ◌≤◌, ◌≡◌, refl, ◌∙◌, Bool, true, false, List, [], ◌∷◌, ◌++◌, Option, none, some, arith, find,
  count_if, count_if-append, find-append_none, find-count, count_zero-find, Bool-cases,
  Option-cases, inl, inr,
}
use tiny_http.Text.{Text, codes, eq_ignore_ascii_case}
use tiny_http.Text.Decimal.{from_str}
use tiny_http.Common.StatusCode.{StatusCode}
use tiny_http.Common.Header.{Header, HeaderField}
use tiny_http.Common.Header.Equiv.{equiv_ne}
use tiny_http.Response.Builder.{
  Response, is_content_type, is_forbidden, is_content_length, overwrite, add_header, add_headers,
  new,
}

-- No header that cannot be set, no length, and at most one content type.
pub record IsClean (hs : List Header) : Type 0 where
  pub allowed : count_if is_forbidden hs ≡ 0
  pub no_length : count_if is_content_length hs ≡ 0
  pub one_type : count_if is_content_type hs ≤ 1

count_if-overwrite :
    (p : HeaderField → Bool) (value : Text) (hs hs' : List Header)
    → overwrite value hs ≡ some hs'
    → count_if (λ h. p h.field) hs' ≡ count_if (λ h. p h.field) hs
unfolding overwrite
count_if-overwrite p value [] hs' e = cc
count_if-overwrite p value (h ∷ hs) hs' e = elim (Bool-cases (is_content_type h)) [
  | inl here ↦ ground arith
  | inr there ↦ elim (Option-cases (overwrite value hs)) [
    | inl none' ↦ ground arith
    | inr (later, found) ↦ ground (arith, count_if-overwrite p value hs later found)
  ]
]

overwrite-none :
    (value : Text) (hs : List Header) → overwrite value hs ≡ none → count_if is_content_type hs ≡ 0
unfolding overwrite
overwrite-none value [] e = refl
overwrite-none value (h ∷ hs) e = elim (Option-cases (overwrite value hs)) [
  | inl none' ↦ ground (arith, overwrite-none value hs none')
  | inr (later, found) ↦ ground arith
]

push-IsClean :
    (hs : List Header) (h : Header)
    → IsClean hs
    → is_forbidden h ≡ false
    → is_content_length h ≡ false
    → (is_content_type h ≡ true → count_if is_content_type hs ≡ 0)
    → IsClean (hs ++ h ∷ [])
push-IsClean hs h c f l t = record {
  allowed = rw (count_if-append is_forbidden hs (h ∷ []), f) (omega (arith, c.allowed));
  no_length = rw (count_if-append is_content_length hs (h ∷ []), l) (omega (arith, c.no_length));
  one_type =
      rw (count_if-append is_content_type hs (h ∷ [])) (elim (Bool-cases (is_content_type h)) [
        | inl this ↦ rw this (omega (arith, t this))
        | inr other ↦ rw other (omega (arith, c.one_type))
      ]);
}

abbrev of_field : HeaderField → Header
of_field f = record { field = f; value = [] }

overwrite-IsClean :
    (value : Text) (hs hs' : List Header) → IsClean hs → overwrite value hs ≡ some hs' → IsClean hs'
overwrite-IsClean value hs hs' c e = record {
  allowed = count_if-overwrite (λ f. is_forbidden (of_field f)) value hs hs' e ∙ c.allowed;
  no_length = count_if-overwrite (λ f. is_content_length (of_field f)) value hs hs' e ∙ c.no_length;
  one_type =
      omega
        (arith, count_if-overwrite (λ f. is_content_type (of_field f)) value hs hs' e, c.one_type);
}

nil-IsClean : IsClean []
nil-IsClean = record { allowed = refl; no_length = refl; one_type = omega arith }

module _ {R : Type 0} where
  -- Adding any header to a response with clean headers leaves them clean.
  pub add_header-IsClean :
      (r : Response R) (h : Header) → IsClean r.headers → IsClean (add_header r h).headers
  unfolding add_header
  add_header-IsClean r h c = elim (Bool-cases (is_forbidden h)) [
    | inl forbidden ↦ rw forbidden c
    | inr allowed ↦ elim (Bool-cases (is_content_length h)) [
      | inl is_length ↦
          rw (allowed, is_length)
            (elim (Option-cases (from_str h.value)) [
              | inl bad ↦ rw bad c
              | inr (n, good) ↦ rw good c
            ])
      | inr no_length ↦ elim (Bool-cases (is_content_type h)) [
        | inl is_type ↦
            rw (allowed, no_length, is_type)
              (elim (Option-cases (overwrite h.value r.headers)) [
                | inl absent ↦ rw absent (
                    push-IsClean r.headers h c allowed no_length
                      (λ _. overwrite-none h.value r.headers absent))
                | inr (hs, present) ↦ rw present (overwrite-IsClean h.value r.headers hs c present)
              ])
        | inr plain ↦
            rw (allowed, no_length, plain) (push-IsClean r.headers h c allowed no_length (λ e. cc))
      ]
    ]
  ]

  add_headers-IsClean :
      (hs : List Header) (r : Response R) → IsClean r.headers → IsClean (add_headers r hs).headers
  unfolding add_headers
  add_headers-IsClean [] r c = c
  add_headers-IsClean (h ∷ hs) r c =
      add_headers-IsClean hs (add_header r h) (add_header-IsClean r h c)

  -- Whatever headers a response is made with, at once or through the receiver, it then holds none
  -- of `Connection`, `Trailer`, `Transfer-Encoding` and `Upgrade`, no `Content-Length`, and at most
  -- one `Content-Type`.
  pub new-IsClean :
      (s : StatusCode) (hs : List Header) (reader : R) (len : Option ℕ)
      (more : Option (List Header))
      → IsClean (new s hs reader len more).headers
  unfolding new
  new-IsClean s hs reader len none = add_headers-IsClean hs _ nil-IsClean
  new-IsClean s hs reader len (some more) =
      add_headers-IsClean more _ (add_headers-IsClean hs _ nil-IsClean)

-- The content type that was set last is the one that the headers hold.
overwrite-find :
    (value : Text) (hs hs' : List Header)
    → overwrite value hs ≡ some hs'
    → (h : Header) × (find is_content_type hs' ≡ some h) × (h.value ≡ value)
unfolding overwrite
overwrite-find value [] hs' e = cc
overwrite-find value (h ∷ hs) hs' e = elim (Bool-cases (is_content_type h)) [
  | inl here ↦ (record h { value = value }, ground arith, refl)
  | inr there ↦ elim (Option-cases (overwrite value hs)) [
    | inl absent ↦ absurd (ground arith)
    | inr (later, found) ↦
        let (k, a, b) = overwrite-find value hs later found in (k, ground arith, b)
  ]
]

is_content_type-ordinary :
    (h : Header)
    → is_content_type h ≡ true
    → (is_forbidden h ≡ false) × (is_content_length h ≡ false)
unfolding eq_ignore_ascii_case
is_content_type-ordinary h t = (
  ground (
    arith,
    equiv_ne h.field (codes "Content-Type") (codes "Connection") t refl,
    equiv_ne h.field (codes "Content-Type") (codes "Trailer") t refl,
    equiv_ne h.field (codes "Content-Type") (codes "Transfer-Encoding") t refl,
    equiv_ne h.field (codes "Content-Type") (codes "Upgrade") t refl,
  ),
  equiv_ne h.field (codes "Content-Type") (codes "Content-Length") t refl,
)

-- Adding a `Content-Type` to a response with clean headers leaves exactly one, with the value that
-- was added.
pub add_header_content_type :
    {R : Type 0} (r : Response R) (h : Header)
    → IsClean r.headers
    → is_content_type h ≡ true
    → (k : Header) × (find is_content_type (add_header r h).headers ≡ some k)
      × (k.value ≡ h.value)
      × (count_if is_content_type (add_header r h).headers ≡ 1)
unfolding add_header
add_header_content_type r h c t =
    let (allowed, no_length) = is_content_type-ordinary h t in
    elim (Option-cases (overwrite h.value r.headers)) [
      | inl absent ↦
          let fresh = overwrite-none h.value r.headers absent in
          (
            h,
            rw (allowed, no_length, t, absent)
                (find-append_none is_content_type r.headers (h ∷ [])
                    (count_zero-find is_content_type r.headers fresh)
                  ∙ rw t),
            refl,
            rw (allowed, no_length, t, absent)
                (count_if-append is_content_type r.headers (h ∷ []) ∙ rw (t, fresh)),
          )
      | inr (hs, present) ↦
          let (k, found, same) = overwrite-find h.value r.headers hs present in
          (
            k,
            rw (allowed, no_length, t, present) found,
            same,
            rw (allowed, no_length, t, present)
                (omega (
                  arith,
                  find-count is_content_type hs k found,
                  count_if-overwrite (λ f. is_content_type (of_field f)) h.value r.headers hs
                      present,
                )),
          )
    ]
