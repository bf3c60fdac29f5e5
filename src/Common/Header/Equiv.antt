-- ===== src/Common/Header/Equiv.antt =====
-- Fields are compared without regard to case: the laws of `equiv` and of `==` on fields.
use tiny_http.Prelude.{◌≡◌, refl, ◌∙◌, true, false, arith}
use tiny_http.Text.{Text, eq_ignore_ascii_case, eq_ignore_ascii_case_iff, to_ascii_lowercase}
use tiny_http.Common.Header.{HeaderField, equiv, field_eq}

-- `==` on header fields is reflexive, symmetric and transitive, and equal fields give the same
-- answers to `equiv`.
pub field_eq_equivalence :
    (f g h : HeaderField) (name : Text)
    → (field_eq f f ≡ true)
      × (field_eq f g ≡ field_eq g f)
      × (field_eq f g ≡ true → field_eq g h ≡ true → field_eq f h ≡ true)
      × (field_eq f g ≡ true → equiv f name ≡ equiv g name)
unfolding field_eq equiv
field_eq_equivalence f g h name = (
  (eq_ignore_ascii_case_iff f.name f.name).1 refl,
  symmetric f.name g.name,
  λ p q.
      (eq_ignore_ascii_case_iff f.name h.name).1 (
        (eq_ignore_ascii_case_iff f.name g.name).0 p
        ∙ (eq_ignore_ascii_case_iff g.name h.name).0 q),
  λ p. respects ((eq_ignore_ascii_case_iff f.name g.name).0 p),
)
  where
    symmetric : (a b : Text) → eq_ignore_ascii_case a b ≡ eq_ignore_ascii_case b a
    symmetric a b = ground (arith, eq_ignore_ascii_case_iff a b, eq_ignore_ascii_case_iff b a)

    respects :
        to_ascii_lowercase f.name ≡ to_ascii_lowercase g.name
        → eq_ignore_ascii_case name f.name ≡ eq_ignore_ascii_case name g.name
    respects e =
        ground (arith, eq_ignore_ascii_case_iff name f.name, eq_ignore_ascii_case_iff name g.name)

-- A field that is equal to one name is not equal to another.
pub equiv_ne :
    (f : HeaderField) (a b : Text)
    → equiv f a ≡ true
    → eq_ignore_ascii_case a b ≡ false
    → equiv f b ≡ false
unfolding equiv
equiv_ne f a b p n = ground (
  arith,
  eq_ignore_ascii_case_iff a f.name,
  eq_ignore_ascii_case_iff b f.name,
  eq_ignore_ascii_case_iff a b,
)
