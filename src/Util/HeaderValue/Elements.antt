-- ===== src/Util/HeaderValue/Elements.antt =====
-- `parse_header_value` against the list of elements that a header value is written from.
use tiny_http.Prelude.{
  ℕ, ◌≡◌, ◌∙◌, ap, Bool, false, List, [], ◌∷◌, ◌++◌, map, some, ◌==◌, any, append-nil,
}
use tiny_http.Text.{Text}
use tiny_http.Text.Pieces.{split, split-append, split_single, trim}
use tiny_http.Util.HeaderValue.{Float, quality, parse_element, parse_header_value}
use tiny_http.Util.HeaderValue.Quality.{Means, quality-Means}

abbrev pub holds : ℕ → Text → Bool
holds c = any (λ d. d == c)

-- One element: a name and its parameters, as they are written.
pub record Element : Type 0 where
  pub name : Text
  pub params : List Text

abbrev params_text : List Text → Text
params_text [] = []
params_text (p ∷ ps) = b';' ∷ (p ++ params_text ps)

abbrev pub element_text : Element → Text
element_text e = e.name ++ params_text e.params

-- A header value: at least one element, with commas between them.
abbrev pub value_text : Element → List Element → Text
value_text e [] = element_text e
value_text e (f ∷ fs) = element_text e ++ b',' ∷ value_text f fs

abbrev pub Plain : List Text → Type 0
Plain [] = Unit {0}
Plain (p ∷ ps) = (holds b';' p ≡ false) × Plain ps

-- No separator inside a name or a parameter.
pub record IsPlain (e : Element) : Type 0 where
  pub no_comma : holds b',' (element_text e) ≡ false
  pub name_plain : holds b';' e.name ≡ false
  pub params_plain : Plain e.params

abbrev pub ArePlain : List Element → Type 0
ArePlain [] = Unit {0}
ArePlain (e ∷ es) = IsPlain e × ArePlain es

split-params :
    (n : Text) (ps : List Text)
    → holds b';' n ≡ false
    → Plain ps
    → split b';' (n ++ params_text ps) ≡ n ∷ ps
split-params n [] h t = rw append-nil (split_single b';' n h)
split-params n (p ∷ ps) h (hp, t) =
    split-append b';' n (p ++ params_text ps) h ∙ ap (◌∷◌ n) (split-params p ps hp t)

module _ (float : Float) where
  -- What one element is read as.
  abbrev pub parsed : Element → Text × float.F
  parsed e = (trim e.name, quality float e.params float.one)

  element-parsed :
      (e : Element)
      → IsPlain e
      → parse_element float (split b';' (element_text e)) ≡ some (parsed e)
  unfolding parse_element
  element-parsed e p = rw (split-params e.name e.params p.name_plain p.params_plain, parse_element)

  parse_header_value-parsed :
      (e : Element) (es : List Element)
      → IsPlain e
      → ArePlain es
      → parse_header_value float (value_text e es) ≡ map (parsed) (e ∷ es)
  unfolding parse_header_value
  parse_header_value-parsed e [] p ps =
      rw (split_single b',' (element_text e) p.no_comma, element-parsed e p)
  parse_header_value-parsed e (f ∷ fs) p (pf, ps) =
      rw (split-append b',' (element_text e) (value_text f fs) p.no_comma, element-parsed e p)
        (ap (◌∷◌ (parsed e)) (parse_header_value-parsed f fs pf ps))

  -- The elements, one by one: the trimmed name, and the quality that the parameters give.
  pub data Read : List Element → List (Text × float.F) → Type 0 where
    done : Read [] []
    next :
        {e : Element} {es : List Element} {v : float.F} {vs : List (Text × float.F)}
        → Means float e.params v
        → Read es vs
        → Read (e ∷ es) ((trim e.name, v) ∷ vs)

  parsed-Read : (es : List Element) → Read es (map (parsed) es)
  parsed-Read [] = done
  parsed-Read (e ∷ es) = next (quality-Means float e.params) (parsed-Read es)

  -- A header value that is written from a list of elements with commas between them, each a name
  -- and parameters with semicolons between them and no separator inside, is read as the trimmed
  -- names with their qualities, in order: the quality of an element is the number of its first
  -- parameter that is `q=` and a number, white space around them aside, and 1 if it has none.
  pub parse_header_value-value_text :
      (e : Element) (es : List Element)
      → IsPlain e
      → ArePlain es
      → Read (e ∷ es) (parse_header_value float (value_text e es))
  parse_header_value-value_text e es p ps =
      rw (parse_header_value-parsed e es p ps) (parsed-Read (e ∷ es))
