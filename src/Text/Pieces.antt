-- ===== src/Text/Pieces.antt =====
-- Splitting, trimming and searching.
use tiny_http.Prelude.{
  ==_iff, ap, ◌∙◌, Bool-cases, inl, inr, all, ℕ, ◌≡◌, refl, Bool, true, false, ◌&&◌, ◌||◌, List, [],
  ◌∷◌, ◌++◌, Option, none, some, arith, leb, ◌==◌, if◌then◌else◌, any,
}
use tiny_http.Text.Ascii.{Text}

-- `char::is_whitespace`: the code points with the Unicode property White_Space.
unfoldable pub is_whitespace : ℕ → Bool
is_whitespace c =
    (leb 9 c && leb c 13)
    || c == 0x20
    || c == 0x85
    || c == 0xa0
    || c == 0x1680
    || (leb 0x2000 c && leb c 0x200a)
    || c == 0x2028
    || c == 0x2029
    || c == 0x202f
    || c == 0x205f
    || c == 0x3000

abbrev pub cons_head : ℕ → List Text → List Text
cons_head c [] = (c ∷ []) ∷ []
cons_head c (p ∷ ps) = (c ∷ p) ∷ ps

-- `str::split` at one character.
unfoldable pub split : ℕ → Text → List Text
split sep [] = [] ∷ []
split sep (c ∷ cs) = let rest = split sep cs in if c == sep then [] ∷ rest else cons_head c rest

-- `str::splitn` with two pieces: the first, and the second where the separator stands.
unfoldable pub splitn2 : ℕ → Text → Text × Option Text
splitn2 sep [] = ([], none)
splitn2 sep (c ∷ cs) =
    let rest = splitn2 sep cs in if c == sep then ([], some cs) else (c ∷ rest.0, rest.1)

unfoldable pub trim_start : Text → Text
trim_start [] = []
trim_start (c ∷ cs) = let rest = trim_start cs in if is_whitespace c then rest else c ∷ cs

abbrev keep_char : ℕ → Text → Text
keep_char c [] = if is_whitespace c then [] else c ∷ []
keep_char c (x ∷ xs) = c ∷ x ∷ xs

unfoldable pub trim_end : Text → Text
trim_end [] = []
trim_end (c ∷ cs) = keep_char c (trim_end cs)

unfoldable pub trim : Text → Text
unfolding trim_start trim_end is_whitespace
trim s = trim_end (trim_start s)

unfoldable pub starts_with : Text → Text → Bool
starts_with [] s = true
starts_with (p ∷ ps) [] = false
starts_with (p ∷ ps) (c ∷ cs) = p == c && starts_with ps cs

-- `str::contains` with a text: the pattern stands at some position.
unfoldable pub contains : Text → Text → Bool
unfolding starts_with
contains pattern' [] = starts_with pattern' []
contains pattern' (c ∷ cs) = starts_with pattern' (c ∷ cs) || contains pattern' cs

-- A separator that the first piece does not hold ends it.
pub splitn2-append :
    (sep : ℕ) (s t : Text)
    → any (λ c. c == sep) s ≡ false
    → splitn2 sep (s ++ sep ∷ t) ≡ (s, some t)
unfolding splitn2
splitn2-append sep [] t h = ground arith
splitn2-append sep (c ∷ s) t h = ground (arith, splitn2-append sep s t)

pub splitn2-none : (sep : ℕ) (s : Text) → any (λ c. c == sep) s ≡ false → splitn2 sep s ≡ (s, none)
unfolding splitn2
splitn2-none sep [] h = refl
splitn2-none sep (c ∷ s) h = ground (arith, splitn2-none sep s)

pub split-append :
    (sep : ℕ) (s t : Text)
    → any (λ c. c == sep) s ≡ false
    → split sep (s ++ sep ∷ t) ≡ s ∷ split sep t
unfolding split
split-append sep [] t h = ground arith
split-append sep (c ∷ s) t h = ground (arith, split-append sep s t)

pub split_single : (sep : ℕ) (s : Text) → any (λ c. c == sep) s ≡ false → split sep s ≡ s ∷ []
unfolding split
split_single sep [] h = refl
split_single sep (c ∷ s) h = ground (arith, split_single sep s)

-- Text with no white space at either end.
abbrev pub IsTrimmed : Text → Type 0
IsTrimmed s = trim s ≡ s

trim_end_idem : (s : Text) → trim_end (trim_end s) ≡ trim_end s
unfolding trim_end
trim_end_idem [] = refl
trim_end_idem (c ∷ cs) = keep (trim_end cs) (trim_end_idem cs)
  where
    keep : (t : Text) → trim_end t ≡ t → trim_end (keep_char c t) ≡ keep_char c t
    keep [] e = ground arith
    keep (x ∷ xs) e = rw e

-- A first character that is no white space stays in front.
trim_start-trim_end :
    (c : ℕ) (cs : Text)
    → is_whitespace c ≡ false
    → trim_start (trim_end (c ∷ cs)) ≡ trim_end (c ∷ cs)
unfolding trim_start trim_end
trim_start-trim_end c cs h = keep (trim_end cs)
  where
    keep : (t : Text) → trim_start (keep_char c t) ≡ keep_char c t
    keep [] = ground arith
    keep (x ∷ xs) = ground arith

trim_start-trim : (s : Text) → trim_start (trim_end (trim_start s)) ≡ trim_end (trim_start s)
unfolding trim_start
trim_start-trim [] = unfold trim_end in refl
trim_start-trim (c ∷ cs) = elim (Bool-cases (is_whitespace c)) [
  | inl blank ↦ rw blank (trim_start-trim cs)
  | inr solid ↦ rw solid (trim_start-trim_end c cs solid)
]

pub trim_idem : (s : Text) → IsTrimmed (trim s)
unfolding trim
trim_idem s = rw trim_start-trim (trim_end_idem (trim_start s))

-- White space in front goes.
pub trim-cons : (c : ℕ) (s : Text) → is_whitespace c ≡ true → trim (c ∷ s) ≡ trim s
unfolding trim trim_start
trim-cons c s h = rw h

module _ (p : ℕ → Bool) where
  all-trim_start : (s : Text) → all p s ≡ true → all p (trim_start s) ≡ true
  unfolding trim_start
  all-trim_start [] h = refl
  all-trim_start (c ∷ s) h = ground (arith, all-trim_start s)

  all-trim_end : (s : Text) → all p s ≡ true → all p (trim_end s) ≡ true
  unfolding trim_end
  all-trim_end [] h = refl
  all-trim_end (c ∷ s) h = keep (trim_end s) (ground arith) (all-trim_end s (ground arith))
    where
      keep : (t : Text) → p c ≡ true → all p t ≡ true → all p (keep_char c t) ≡ true
      keep [] a b = ground arith
      keep (x ∷ xs) a b = ground arith

  -- Trimming drops characters only.
  pub all-trim : (s : Text) → all p s ≡ true → all p (trim s) ≡ true
  unfolding trim
  all-trim s h = all-trim_end (trim_start s) (all-trim_start s h)

-- Text without white space is trimmed.
pub solid-IsTrimmed : (s : Text) → any is_whitespace s ≡ false → IsTrimmed s
unfolding trim
solid-IsTrimmed s h = ap trim_end (front s h) ∙ back s h
  where
    front : (s : Text) → any is_whitespace s ≡ false → trim_start s ≡ s
    front [] h = refl
    front (c ∷ s) h = ground arith

    back : (s : Text) → any is_whitespace s ≡ false → trim_end s ≡ s
    back [] h = refl
    back (c ∷ []) h = ground arith
    back (c ∷ d ∷ s) h = rw (back (d ∷ s) (ground arith))

-- What stands on both sides of the separator that `splitn2` finds.
pub splitn2_sound :
    (sep : ℕ) (s a : Text) (b : Text)
    → splitn2 sep s ≡ (a, some b)
    → (s ≡ a ++ sep ∷ b) × (any (λ c. c == sep) a ≡ false)
unfolding splitn2
splitn2_sound sep [] a b h = cc
splitn2_sound sep (c ∷ s) [] b h = ground arith
splitn2_sound sep (c ∷ s) (x ∷ a) b h = ground (arith, splitn2_sound sep s a b)

-- The pieces with the separator between them.
abbrev pub join_behind : ℕ → List Text → Text
join_behind sep [] = []
join_behind sep (p ∷ ps) = sep ∷ (p ++ join_behind sep ps)

abbrev pub join : ℕ → List Text → Text
join sep [] = []
join sep (p ∷ ps) = p ++ join_behind sep ps

abbrev pub NoSep : ℕ → List Text → Type 0
NoSep sep [] = Unit {0}
NoSep sep (p ∷ ps) = (any (λ c. c == sep) p ≡ false) × NoSep sep ps

split_cons : (sep : ℕ) (s : Text) → (p : Text) × (ps : List Text) × (split sep s ≡ p ∷ ps)
unfolding split
split_cons sep [] = ([], [], refl)
split_cons sep (c ∷ cs) = elim (Bool-cases (c == sep)) [
  | inl here ↦ ([], split sep cs, rw here)
  | inr there ↦ let (p, ps, e) = split_cons sep cs in (c ∷ p, ps, rw (there, e))
]

join-cons_head :
    (sep c : ℕ) (cs : Text) (ps : List Text)
    → (c == sep) ≡ false
    → (join sep ps ≡ cs) × NoSep sep ps
    → (join sep (cons_head c ps) ≡ c ∷ cs) × NoSep sep (cons_head c ps)
join-cons_head sep c cs [] n h = ground arith
join-cons_head sep c cs (p ∷ ps) n (e, (q, h)) = (ap (◌∷◌ c) e, (ground arith, h))

-- `split` loses nothing, and no piece holds the separator.
pub split-join : (sep : ℕ) (s : Text) → (join sep (split sep s) ≡ s) × NoSep sep (split sep s)
unfolding split
split-join sep [] = (refl, (refl, tt))
split-join sep (c ∷ cs) = elim (Bool-cases (c == sep)) [
  | inl here ↦
      let (p, ps, e) = split_cons sep cs in
      let (whole, clear) = split-join sep cs in
      rw here (rw e (rw ((==_iff c sep).0 here) (ap (◌∷◌ sep) (rw e at whole))), (refl, clear))
  | inr there ↦ rw there (join-cons_head sep c cs (split sep cs) there (split-join sep cs))
]
