-- ===== src/Request/New/Framing.antt =====
-- Which bytes of the source are the body of a request, and where the source stands behind it.
use tiny_http.Prelude.{
  ℕ, zero, suc, ◌-◌, ◌≤◌, ◌<◌, ◌≡◌, refl, sym, ap, ◌∙◌, Bool, false, not, ◌&&◌, [], ◌∷◌, ◌++◌,
  append-nil, append_assoc, Option, none, some, leb, ◌==◌, length, length-append, take, drop,
  take-append, drop-append, take_zero, drop_zero, Result, ok, err, and_then, arith, Bool-cases, inl,
  inr,
}
use tiny_http.Text.{Bytes}
use tiny_http.Io.{ErrorKind, Read}
use tiny_http.Io.Readers.{Reads, IsReader}
use tiny_http.Request.New.{Head, Created, build, built, new_request}
use tiny_http.Request.Create.{
  choose_reader, content_length, expects_continue, connection_upgrade, RequestCreationError,
  DataReader, whole, nothing, buffered, sized, chunks, fill, fill_arms, Chosen, keep_buffer,
  sized_reader,
}
use tiny_http.Util.EqualReader.{EqualReader}
use tiny_http.Util.EqualReader
use tiny_http.Util.FusedReader.{FusedReader}
use tiny_http.Util.FusedReader

module _ {S : Type 0} (source : Read S) (rest : S → Bytes) (fuel : S → ℕ)
    (law : IsReader source rest fuel) where
  -- How the loop that fills the buffer ends: with all that was missing, or within it.
  abbrev Fills : ℕ → Bytes → Bytes → Option (Result RequestCreationError Bytes × S) → Type 0
  Fills missing buffer before none = ⊥
  Fills missing buffer before (some (ok bytes, s)) =
      (bytes ≡ buffer ++ take missing before)
      × (rest s ≡ drop missing before)
      × (missing ≤ length before)
  Fills missing buffer before (some (err e, s)) =
      (part : Bytes) × (before ≡ part ++ rest s) × (length part < missing)

  Fills-chunk :
      (missing : ℕ) (buffer before bs : Bytes)
      (out : Option (Result RequestCreationError Bytes × S))
      → length bs ≤ missing
      → Fills (missing - length bs) (buffer ++ bs) before out
      → Fills missing buffer (bs ++ before) out
  Fills-chunk m buffer before bs none h f = f
  Fills-chunk m buffer before bs (some (ok bytes, s)) h (a, b, c) = (
    a ∙ append_assoc buffer bs _ ∙ ap (◌++◌ buffer) (sym (take-append m bs before h)),
    b ∙ sym (drop-append m bs before h),
    omega (arith, length-append bs before),
  )
  Fills-chunk m buffer before bs (some (err e, s)) h (part, a, b) =
      (bs ++ part, rw a (sym (append_assoc bs part (rest s))), omega (arith, length-append bs part))

  fill-Fills :
      (steps missing : ℕ) (buffer : Bytes) (s : S)
      → missing ≤ steps
      → Fills missing buffer (rest s) (fill source steps missing buffer s)
  unfolding fill
  fill-Fills steps zero buffer s h = (sym (append-nil buffer), refl, omega arith)
  fill-Fills zero (suc m) buffer s h = absurd (omega arith)
  fill-Fills (suc steps) (suc m) buffer s h =
      arms (source.read (suc m) s) (law.reads (suc m) s (omega arith)) (fill-Fills steps)
    where
      arms :
          (out : Result ErrorKind Bytes × S)
          → Reads rest fuel (suc m) s out
          → ((m' : ℕ) (b' : Bytes) (s' : S)
              → m' ≤ steps
              → Fills m' b' (rest s') (fill source steps m' b' s'))
          → Fills (suc m) buffer (rest s) (fill_arms (fill source steps) (suc m) buffer out)
      arms (err e, s') (same, _) again = ([], sym same, omega arith)
      arms (ok [], s') (none_left, none_after, _) again =
          ([], rw (none_left, none_after) refl, omega arith)
      arms (ok (b ∷ bs), s') (next, l, _) again = rw next (
          Fills-chunk (suc m) buffer (rest s') (b ∷ bs) _ l
            (again (suc m - length (b ∷ bs)) (buffer ++ b ∷ bs) s' (omega arith)))

  abbrev inner_bytes : Option (EqualReader S) → Bytes
  inner_bytes none = []
  inner_bytes (some e) = take e.size (rest e.reader)

  abbrev inner_beyond : Option (EqualReader S) → Option Bytes
  inner_beyond none = none
  inner_beyond (some e) = some (drop e.size (rest e.reader))

  -- The source was given back within the first `n` bytes, while a short body was being read.
  abbrev CutShort : Bool → ℕ → Bytes → Option S → Type 0
  CutShort expects n before none = ⊥
  CutShort expects n before (some s) =
      (expects ≡ false)
      × (n ≤ 1024)
      × ((part : Bytes) × (before ≡ part ++ rest s) × (length part < n))

  module _ {D : Type 0} where
    -- The bytes that a data reader delivers; `none` where chunks are decoded.
    abbrev pub body_bytes : DataReader S D → Option Bytes
    body_bytes (whole s) = some (rest s)
    body_bytes nothing = some []
    body_bytes (buffered b) = some b
    body_bytes (sized f) = some (inner_bytes f.inner)
    body_bytes (chunks f) = none

    -- The bytes behind the body: of the source that was given back, or of the one that the bounded
    -- reader holds.
    abbrev pub bytes_behind : DataReader S D → Option S → Option Bytes
    bytes_behind reader (some s) = some (rest s)
    bytes_behind (sized f) none = inner_beyond f.inner
    bytes_behind (whole s) none = none
    bytes_behind nothing none = none
    bytes_behind (buffered b) none = none
    bytes_behind (chunks f) none = none

    abbrev ChosenFrames : Bool → ℕ → Bytes → Option (Chosen S D) → Type 0
    ChosenFrames expects n before none = ⊥
    ChosenFrames expects n before (some (ok reader, given)) =
        (body_bytes reader ≡ some (take n before))
        × (bytes_behind reader given ≡ some (drop n before))
    ChosenFrames expects n before (some (err e, given)) = CutShort expects n before given

  keep_buffer-ChosenFrames :
      (D : Type 0) (expects : Bool) (n : ℕ) (before : Bytes)
      (out : Option (Result RequestCreationError Bytes × S))
      → expects ≡ false
      → n ≤ 1024
      → Fills n [] before out
      → ChosenFrames expects n before (keep_buffer {D = D} out)
  keep_buffer-ChosenFrames D expects n before none e l f = f
  keep_buffer-ChosenFrames D expects n before (some (ok bytes, s)) e l (a, b, _) =
      (ap some a, ap some b)
  keep_buffer-ChosenFrames D expects n before (some (err k, s)) e l f = (e, l, f)

  sized_reader-ChosenFrames :
      {D : Type 0} (decode : S → D) (n : ℕ) (expects : Bool) (s : S)
      → ChosenFrames expects n (rest s) (sized_reader source decode n expects s)
  unfolding sized_reader FusedReader.new EqualReader.new
  sized_reader-ChosenFrames decode n expects s = elim (Bool-cases (n == 0)) [
    | inl zero_length ↦ rw zero_length (
      ap some (sym (take_zero n (rest s) (ground arith))),
      ap some (sym (drop_zero n (rest s) (ground arith))),
    )
    | inr more ↦ elim (Bool-cases (leb n 1024 && not expects)) [
      | inl small ↦
          rw (more, small)
            (keep_buffer-ChosenFrames _ expects n (rest s) _ (ground arith) (ground arith)
              (fill-Fills n n [] s (omega arith)))
      | inr large ↦ rw (more, large) (refl, refl)
    ]
  ]

  module _ {D W : Type 0} where
    -- How `new_request` frames a body of length `n`; `before` is what the source has to deliver.
    abbrev pub Frames : Bool → ℕ → Bytes → Option (Created S D W) → Type 0
    Frames expects n before none = ⊥
    Frames expects n before (some (ok request, given)) =
        (and_then request.data_reader body_bytes ≡ some (take n before))
        × (and_then request.data_reader (λ reader. bytes_behind reader given)
            ≡ some (drop n before))
    Frames expects n before (some (err e, given)) = CutShort expects n before given

    built-Frames :
        (h : Head) (expects : Bool) (writer : W) (n : ℕ) (before : Bytes)
        (out : Option (Chosen S D))
        → ChosenFrames expects n before out
        → Frames expects n before (built h expects writer out)
    unfolding build
    built-Frames h expects writer n before none f = f
    built-Frames h expects writer n before (some (ok reader, given)) f = f
    built-Frames h expects writer n before (some (err e, given)) f = f

    -- For a request whose headers give a length `n`, no transfer encoding, no `Connection: upgrade`
    -- and no unknown `Expect`, over a source that keeps the contract of `Read`: `new_request` ends;
    -- on success the body that it delivers is the first `n` bytes of the source and what stands
    -- behind it is the rest; on an error a body of at most 1024 bytes without `Expect` was being
    -- read, and the source stands less than `n` bytes further.
    pub new_request-Frames :
        (decode : S → D) (h : Head) (writer : W) (s : S) (expects : Bool) (n : ℕ)
        → expects_continue h.headers ≡ ok expects
        → connection_upgrade h.headers ≡ false
        → content_length h.headers ≡ some n
        → Frames expects n (rest s) (new_request source decode h writer s)
    unfolding new_request choose_reader
    new_request-Frames decode h writer s expects n e u l =
        rw (e, u, l)
          (built-Frames h expects writer n (rest s) _
            (sized_reader-ChosenFrames decode n expects s))
