-- ===== src/Server/TextPort/Chunks.antt =====
-- The framing of the text ports, over the chunks into which TCP cuts the text.
use fueltracks.Prelude.{
  ℕ, zero, suc, ◌-◌, ◌≤◌, ◌<◌, ◌≡◌, refl, sym, ap, ◌∙◌, inl, inr, Bool-cases, Option, Option-cases,
  none, some, List, [], ◌∷◌, ◌++◌, append-nil, append_assoc, length, false, ◌&&◌, ltb-false, ◌==◌,
  if◌then◌else◌, arith,
}
use fueltracks.Js.Text.{Text}
use fueltracks.Server.TextPort.{
  from_last_dollar, cut, found, take_packets, packets_in, TextSocket, is_misrouted, on_text_data,
}
use fueltracks.Js.Buffer.{Bytes}
use fueltracks.Concox.Parsers.Info.{ascii}

abbrev Cut : Type 0
Cut = Option (Text × Text)

-- what is cut off, with more text behind it
abbrev followed : Text → Cut → Cut
followed b none = none
followed b (some q) = some (q.0, q.1 ++ b)

abbrev rest_length : Cut → ℕ
rest_length none = 0
rest_length (some q) = length q.1

cut-cons :
    (d c : ℕ) (a : Text)
    → cut d (c ∷ a) ≡ (
        if c == d
        then some (c ∷ [], a)
        else elim (cut d a) [ none ↦ none | some p ↦ some (c ∷ p.0, p.1) ])
unfolding cut
cut-cons d c a = refl

cut-append :
    (d : ℕ) (a b : Text) (q : Text × Text)
    → cut d a ≡ some q
    → (cut d (a ++ b) ≡ some (q.0, q.1 ++ b)) × (length q.1 < length a)
cut-append d [] b q e = absurd (unfold cut in cc)
cut-append d (c ∷ a) b q e = elim (Bool-cases (c == d)) [
  | inl here ↦
      let now : some (c ∷ [], a) ≡ some q = rw (cut-cons d c a, here) at e in
      (rw (cut-cons d c (a ++ b), here) (ap (followed b) now), omega (arith, ap rest_length now))
  | inr later ↦ elim (Option-cases (cut d a)) [
    | inl nowhere ↦
        let never : none ≡ some q = rw (cut-cons d c a, later, nowhere) at e in absurd (cc)
    | inr (r, there) ↦
        let now : some (c ∷ r.0, r.1) ≡ some q = rw (cut-cons d c a, later, there) at e in
        let (cuts, shorter) = cut-append d a b r there in
        (
          rw (cut-cons d c (a ++ b), later, cuts) (ap (followed b) now),
          omega (arith, ap rest_length now, shorter),
        )
  ]
]

take-none : (d fuel : ℕ) (a : Text) → cut d a ≡ none → take_packets d fuel a ≡ ([], a)
unfolding take_packets
take-none d zero a e = refl
take-none d (suc fuel) a e = rw (take_packets, e) refl

take-some :
    (d fuel : ℕ) (a : Text) (q : Text × Text)
    → cut d a ≡ some q
    → take_packets d (suc fuel) a
      ≡ (found (from_last_dollar q.0) ++ (take_packets d fuel q.1).0, (take_packets d fuel q.1).1)
unfolding take_packets
take-some d fuel a q e = rw (take_packets, e) refl

take-enough :
    (d f g : ℕ) (a : Text) → length a ≤ f → length a ≤ g → take_packets d f a ≡ take_packets d g a
take-enough d zero g a hf hg = elim (Option-cases (cut d a)) [
  | inl nowhere ↦ take-none d zero a nowhere ∙ sym (take-none d g a nowhere)
  | inr (q, there) ↦ absurd (omega (arith, hf, (cut-append d a [] q there).1))
]
take-enough d (suc f) g a hf hg = elim (Option-cases (cut d a)) [
  | inl nowhere ↦ take-none d (suc f) a nowhere ∙ sym (take-none d g a nowhere)
  | inr (q, there) ↦
      let shorter = (cut-append d a [] q there).1 in
      let positive : suc (g - 1) ≡ g = omega (arith, hg, shorter) in
      take-some d f a q there
      ∙ ap (λ t. (found (from_last_dollar q.0) ++ t.0, t.1))
          (take-enough d f (g - 1) q.1 (omega (arith, hf, shorter)) (omega (arith, hg, shorter)))
      ∙ sym (take-some d (g - 1) a q there)
      ∙ ap (λ n. take_packets d n a) positive
]

-- the loop over a buffer, from its first packet on
in-some :
    (d : ℕ) (a : Text) (q : Text × Text)
    → cut d a ≡ some q
    → packets_in d a ≡ (found (from_last_dollar q.0) ++ (packets_in d q.1).0, (packets_in d q.1).1)
in-some d a q there =
    let shorter = (cut-append d a [] q there).1 in
    let positive : suc (length a - 1) ≡ length a = omega (arith, shorter) in
    ap (λ n. take_packets d n a) (sym positive)
    ∙ take-some d (length a - 1) a q there
    ∙ ap (λ t. (found (from_last_dollar q.0) ++ t.0, t.1))
        (take-enough d (length a - 1) (length q.1) q.1 (omega (arith, shorter)) (omega arith))

-- the packets of a buffer with more text behind what it leaves
abbrev go_on : ℕ → Text → List Text × Text → List Text × Text
go_on d b t = (t.0 ++ (packets_in d (t.1 ++ b)).0, (packets_in d (t.1 ++ b)).1)

chunked : (k d : ℕ) (a b : Text) → length a ≤ k → packets_in d (a ++ b) ≡ go_on d b (packets_in d a)
chunked zero d a b h = elim (Option-cases (cut d a)) [
  | inl nowhere ↦ ap (go_on d b) (sym (take-none d (length a) a nowhere))
  | inr (q, there) ↦ absurd (omega (arith, h, (cut-append d a [] q there).1))
]
chunked (suc k) d a b h = elim (Option-cases (cut d a)) [
  | inl nowhere ↦ ap (go_on d b) (sym (take-none d (length a) a nowhere))
  | inr (q, there) ↦
      let first = found (from_last_dollar q.0) in
      let shorter = (cut-append d a b q there).1 in
      let tail = packets_in d q.1 in
      in-some d (a ++ b) (q.0, q.1 ++ b) (cut-append d a b q there).0
      ∙ ap (λ t. (first ++ t.0, t.1)) (chunked k d q.1 b (omega (arith, h, shorter)))
      ∙ ap (λ l. (l, (packets_in d (tail.1 ++ b)).1))
          (sym (append_assoc first tail.0 (packets_in d (tail.1 ++ b)).0))
      ∙ ap (go_on d b) (sym (in-some d a q there))
]

packets_in-append :
    (d : ℕ) (a b : Text)
    → let (packets, rest) = packets_in d a in
      packets_in d (a ++ b)
      ≡ (packets ++ (packets_in d (rest ++ b)).0, (packets_in d (rest ++ b)).1)
packets_in-append d a b = chunked (length a) d a b (omega arith)

-- Nothing that is left over is complete.
cut-left : (k d : ℕ) (a : Text) → length a ≤ k → cut d (packets_in d a).1 ≡ none
cut-left zero d a h = elim (Option-cases (cut d a)) [
  | inl nowhere ↦ ap (λ t. cut d t.1) (take-none d (length a) a nowhere) ∙ nowhere
  | inr (q, there) ↦ absurd (omega (arith, h, (cut-append d a [] q there).1))
]
cut-left (suc k) d a h = elim (Option-cases (cut d a)) [
  | inl nowhere ↦ ap (λ t. cut d t.1) (take-none d (length a) a nowhere) ∙ nowhere
  | inr (q, there) ↦
      ap (λ t. cut d t.1) (in-some d a q there)
      ∙ cut-left k d q.1 (omega (arith, h, (cut-append d a [] q there).1))
]

-- The `data` events of a socket, one after the other: the packets that they hand on, and the socket.
abbrev pub feed_text : ℕ → List Bytes → TextSocket → List Text × TextSocket
feed_text d [] s = ([], s)
feed_text d (chunk ∷ chunks) s =
    let (packets, after) = on_text_data d chunk s in
    let (later, last) = feed_text d chunks after in (packets ++ later, last)

abbrev pub all_text : List Bytes → Text
all_text [] = []
all_text (chunk ∷ chunks) = ascii chunk ++ all_text chunks

-- The first chunk is not one of the binary protocol.
abbrev pub IsRouted : List Bytes → TextSocket → Type 0
IsRouted [] s = Unit
IsRouted (chunk ∷ chunks) s = s.is_first_data && is_misrouted chunk ≡ false

-- No chunk leaves more than 10000 characters over.
abbrev pub Fits : ℕ → List Bytes → Text → Type 0
Fits d [] buffer = Unit
Fits d (chunk ∷ chunks) buffer =
    let (packets, rest) = packets_in d (buffer ++ ascii chunk) in
    (length rest ≤ 10000) × Fits d chunks rest

fits-kept :
    (d : ℕ) (chunk : Bytes) (s : TextSocket)
    → s.is_first_data && is_misrouted chunk ≡ false
    → length (packets_in d (s.buffer ++ ascii chunk)).1 ≤ 10000
    → on_text_data d chunk s ≡ (
      (packets_in d (s.buffer ++ ascii chunk)).0,
      record s { is_first_data = false; buffer = (packets_in d (s.buffer ++ ascii chunk)).1 },
    )
unfolding on_text_data
fits-kept d chunk s routed fits =
    rw (routed, ltb-false 10000 (length (packets_in d (s.buffer ++ ascii chunk)).1) fits) refl

no_first : (chunks : List Bytes) (s : TextSocket) → s.is_first_data ≡ false → IsRouted chunks s
no_first [] s e = tt
no_first (chunk ∷ chunks) s e = ap (λ b. b && is_misrouted chunk) e

-- A text port whose first chunk does not begin as the binary protocol does, and whose chunks leave at
-- most 10000 characters over each time, hands on the packets of the whole text, wherever TCP cuts it:
-- from a buffer without a complete packet, in order, with the same text left over in the buffer, and
-- the socket is not destroyed.
pub feed_text-packets_in :
    (d : ℕ) (chunks : List Bytes) (s : TextSocket)
    → IsRouted chunks s
    → Fits d chunks s.buffer
    → cut d s.buffer ≡ none
    → let (packets, last) = feed_text d chunks s in
      let (whole, rest) = packets_in d (s.buffer ++ all_text chunks) in
      (packets ≡ whole) × (last.buffer ≡ rest) × (last.destroyed ≡ s.destroyed)
feed_text-packets_in d [] s routed fits open_end =
    let nothing =
      ap (packets_in d) (append-nil s.buffer) ∙ take-none d (length s.buffer) s.buffer open_end in
    (sym (ap (λ t. t.0) nothing), sym (ap (λ t. t.1) nothing), refl)
feed_text-packets_in d (chunk ∷ chunks) s routed (fits, more) open_end =
    let text = s.buffer ++ ascii chunk in
    let (packets, rest) = packets_in d text in
    let kept = fits-kept d chunk s routed fits in
    let after : TextSocket = record s { is_first_data = false; buffer = rest } in
    let (same, left, alive) =
      feed_text-packets_in d chunks after (no_first chunks after refl) more
        (cut-left (length text) d text (omega arith)) in
    let whole =
      ap (packets_in d) (sym (append_assoc s.buffer (ascii chunk) (all_text chunks)))
      ∙ packets_in-append d text (all_text chunks) in
    (
      ap (λ r. r.0 ++ (feed_text d chunks r.1).0) kept
          ∙ ap (λ l. packets ++ l) same
          ∙ sym (ap (λ t. t.0) whole),
      ap (λ r. (feed_text d chunks r.1).1.buffer) kept ∙ left ∙ sym (ap (λ t. t.1) whole),
      ap (λ r. (feed_text d chunks r.1).1.destroyed) kept ∙ alive,
    )
