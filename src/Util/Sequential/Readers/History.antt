-- ===== src/Util/Sequential/Readers/History.antt =====
-- Any history of the readers: they share one stream out among them, in order.
use tiny_http.Prelude.{
  ℕ, suc, ◌<◌, ◌≡◌, refl, sym, ap, ◌∙◌, subst, [], ◌∷◌, ◌++◌, append_assoc, Option, none, some,
  arith, Result, ok, err, some_inj, Option-cases, inl, inr,
}
use tiny_http.Text.{Bytes}
use tiny_http.Io.{ErrorKind, Read}
use tiny_http.Io.Readers.{Reads, IsReader}
use tiny_http.Util.Sequential.Writers.{update}
use tiny_http.Util.Sequential.Order.{Ascends, All-concat, Ascends-concat}
use tiny_http.Util.Sequential.Readers.{
  first, ReaderInner, my_turn, waiting, empty, Readers, new, next, drop, drop_arms, read, read_arms,
  record_read,
}
use tiny_http.Util.Sequential.Readers.Baton.{
  bytes_of, bytes_of-concat, Place, reading, under_way, unissued, Holds, mine-turn, waiting-turn,
}
use tiny_http.Util.Sequential.Readers.Steps.{new-Holds, kept-Holds, handed-Holds, next-Holds}

-- Where the inner reader is.
pub data Lies {R : Type 0} (s : Readers R) (r : R) : Type 0 where
  in_builder : s.inner ≡ first r → Lies s r
  in_reader : (k : ℕ) → k < s.issued → s.state k ≡ my_turn r → Lies s r
  in_channel : (c : ℕ) → s.sent c ≡ some r → Lies s r

module _ {R : Type 0} (source : Read R) (rest : R → Bytes) (fuel : R → ℕ)
    (law : IsReader source rest fuel) (r0 : R) where
  -- The histories: readers are made, read into buffers that are not empty, and dropped, in any order.
  pub data Uses : Readers R → Type 0 where
    starts : Uses (new r0)
    makes : {s : Readers R} → Uses s → Uses (next s)
    reads :
        {s t : Readers R} (n k : ℕ) (out : Result ErrorKind Bytes)
        → Uses s
        → 0 < n
        → read source n k s ≡ some (out, t)
        → Uses t
    drops : {s t : Readers R} (k : ℕ) → Uses s → drop k s ≡ some t → Uses t

  record Good (s : Readers R) : Type 0 where
    turn : ℕ
    reader : R
    holds : Holds s turn reader
    whole : bytes_of s.delivered ++ rest reader ≡ rest r0

  logged-Good :
      (s : Readers R) (h : ℕ) (r r' : R) (sent : ℕ → Option R) (bytes : Bytes)
      → Holds s h r
      → h < s.issued
      → ((c : ℕ) → sent c ≡ none)
      → bytes_of s.delivered ++ rest r ≡ rest r0
      → rest r ≡ bytes ++ rest r'
      → Good (record s {
        delivered = s.delivered ++ (h, bytes) ∷ [];
        state = update s.state h (my_turn r');
        sent = sent;
      })
  logged-Good s h r r' sent bytes v l n w e = record {
    turn = h;
    reader = r';
    holds =
        kept-Holds s h r r' (s.delivered ++ (h, bytes) ∷ []) sent v l n
          (All-concat _ s.delivered (h, bytes) v.behind (omega arith))
          (Ascends-concat s.delivered (h, bytes) v.order v.behind);
    whole =
        ap (λ b. b ++ rest r') (bytes_of-concat s.delivered h bytes)
        ∙ append_assoc (bytes_of s.delivered) bytes (rest r')
        ∙ ap (λ b. bytes_of s.delivered ++ b) (sym e)
        ∙ w;
  }

  recorded-Good :
      (s : Readers R) (h n : ℕ) (r : R) (sent : ℕ → Option R) (out : Result ErrorKind Bytes × R)
      → Holds s h r
      → h < s.issued
      → ((c : ℕ) → sent c ≡ none)
      → bytes_of s.delivered ++ rest r ≡ rest r0
      → Reads rest fuel n r out
      → Good (record_read source h (record s { sent = sent }) out).1
  recorded-Good s h n r sent (ok [], r') v l m w (a, b, _) =
      logged-Good s h r r' sent [] v l m w (a ∙ sym b)
  recorded-Good s h n r sent (ok (b ∷ bs), r') v l m w (a, _, _) =
      logged-Good s h r r' sent (b ∷ bs) v l m w a
  recorded-Good s h n r sent (err e, r') v l m w (a, _) = record {
    turn = h;
    reader = r';
    holds = kept-Holds s h r r' s.delivered sent v l m v.behind v.order;
    whole = ap (λ b. bytes_of s.delivered ++ b) a ∙ w;
  }

  read-Good :
      (s t : Readers R) (n k : ℕ) (out : Result ErrorKind Bytes)
      → Good s
      → 0 < n
      → read source n k s ≡ some (out, t)
      → Good t
  unfolding read
  read-Good s t n k out g p e = go (s.state k) refl e
    where
      second : {p : Result ErrorKind Bytes × Readers R} → some p ≡ some (out, t) → Good p.1 → Good t
      second q g' = subst (λ x. Good x.1) (some_inj q) g'

      taken :
          (sent : ℕ → Option R) (q : R)
          → (k ≡ g.turn) × (q ≡ g.reader) × (g.turn < s.issued) × ((c : ℕ) → sent c ≡ none)
          → Good (record_read source k (record s { sent = sent }) (source.read n q)).1
      taken sent q (kh, qr, l, m) =
          subst (λ k'. Good (record_read source k' (record s { sent = sent }) (source.read n q)).1)
            (sym kh)
            (subst
              (λ q'.
                Good (record_read source g.turn (record s { sent = sent }) (source.read n q')).1)
              (sym qr)
              (recorded-Good s g.turn n g.reader sent _ g.holds l m g.whole
                (law.reads n g.reader p)))

      go :
          (st : ReaderInner R) → s.state k ≡ st → read_arms source n k s st ≡ some (out, t) → Good t
      go (my_turn q) m e' = second e' (taken s.sent q (mine-turn s g.turn k g.reader q g.holds m))
      go (waiting c) m e' = elim (Option-cases (s.sent c)) [
        | inl stuck ↦ absurd (cc (rw (stuck, read_arms) at e'))
        | inr (q, there) ↦
            second (rw (there, read_arms) at e') (
              taken (update s.sent c none) q (waiting-turn s g.turn k c g.reader q g.holds m there))
      ]
      go empty m e' = absurd (cc e')

  drop-Good : (s t : Readers R) (k : ℕ) → Good s → drop k s ≡ some t → Good t
  unfolding drop
  drop-Good s t k g e = go (s.state k) refl e
    where
      handed :
          (sent : ℕ → Option R) (q : R)
          → (k ≡ g.turn) × (q ≡ g.reader) × (g.turn < s.issued) × ((c : ℕ) → sent c ≡ none)
          → Good (record s { state = update s.state k empty; sent = update sent k (some q) })
      handed sent q (kh, qr, l, m) = record {
        turn = suc g.turn;
        reader = g.reader;
        holds =
            subst
              (λ k'.
                Holds (record s { state = update s.state k' empty; sent = update sent k' (some q) })
                  (suc g.turn) g.reader)
              (sym kh)
              (subst
                (λ q'.
                  Holds
                    (record s {
                      state = update s.state g.turn empty;
                      sent = update sent g.turn (some q');
                    })
                    (suc g.turn) g.reader)
                (sym qr) (handed-Holds s g.turn g.reader sent g.holds l m));
        whole = g.whole;
      }

      go : (st : ReaderInner R) → s.state k ≡ st → drop_arms k s st ≡ some t → Good t
      go (my_turn q) m e' =
          subst Good (some_inj e') (handed s.sent q (mine-turn s g.turn k g.reader q g.holds m))
      go (waiting c) m e' = elim (Option-cases (s.sent c)) [
        | inl stuck ↦ absurd (cc (rw (stuck, drop_arms) at e'))
        | inr (q, there) ↦
            subst Good (some_inj (rw (there, drop_arms) at e')) (
              handed (update s.sent c none) q
                (waiting-turn s g.turn k c g.reader q g.holds m there))
      ]
      go empty m e' = subst Good (some_inj e') g

  Uses-Good : {s : Readers R} → Uses s → Good s
  unfolding new next
  Uses-Good starts = record { turn = 0; reader = r0; holds = new-Holds r0; whole = refl }
  Uses-Good (makes {s} u) =
      let g = Uses-Good u in
      record {
        turn = g.turn;
        reader = g.reader;
        holds = next-Holds s g.turn g.reader g.holds;
        whole = g.whole;
      }
  Uses-Good (reads {s} {t} n k out u p e) = read-Good s t n k out (Uses-Good u) p e
  Uses-Good (drops {s} {t} k u e) = drop-Good s t k (Uses-Good u) e

  Place-Lies : (s : Readers R) (h : ℕ) (r : R) → Place s h r → Lies s r
  Place-Lies s h r (reading m l n) = in_reader h l m
  Place-Lies s h r (under_way c p m n w) = in_channel c m
  Place-Lies s h r (unissued z p i n) = in_builder i

  -- Over a reader that keeps the contract of `Read`, in any history in which sequential readers are
  -- made, read into buffers that are not empty, and dropped: the bytes were delivered through the
  -- readers in the order in which these were made; the inner reader is still in the builder, in one
  -- of the readers or under way to one; and what was delivered, in that order, followed by what the
  -- inner reader has left, is the whole stream.
  pub Uses-Ascends :
      {s : Readers R}
      → Uses s
      → Ascends s.delivered × ((r : R) × Lies s r × (bytes_of s.delivered ++ rest r ≡ rest r0))
  Uses-Ascends u =
      let g = Uses-Good u in
      (g.holds.order, (g.reader, Place-Lies _ g.turn g.reader g.holds.place, g.whole))
