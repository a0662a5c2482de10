-- ===== src/Js/Strings/Split.antt =====
-- `split` and `join`.
use fueltracks.Prelude.{
  ℕ, ◌≡◌, ◌≢◌, refl, sym, ap, ap₂, ◌∙◌, Bool, true, false, not, ◌&&◌, List, [], ◌∷◌, ◌++◌, All,
  ◌==◌, ==_iff, ==-false, ==-refl, Bool-cases, inl, inr, arith,
}
use fueltracks.Js.Text.{Text}
use fueltracks.Js.Strings.{split, join}

-- No character of the text is `d`.
abbrev pub IsFree : ℕ → Text → Type 0
IsFree d s = All (λ (c : ℕ). c ≢ d) s

both : (a b : Bool) → not a && b ≡ true → (a ≡ false) × (b ≡ true)
both a b e = ground arith

different : (c d : ℕ) → (c == d) ≡ false → c ≢ d
different c d e f = ground arith

-- a test for it
abbrev pub lacks : ℕ → Text → Bool
lacks d [] = true
lacks d (c ∷ s) = not (c == d) && lacks d s

pub lacks-IsFree : (d : ℕ) (s : Text) → lacks d s ≡ true → IsFree d s
lacks-IsFree d [] e = tt
lacks-IsFree d (c ∷ s) e =
    let (other, rest) = both (c == d) (lacks d s) e in (different c d other, lacks-IsFree d s rest)

abbrev pub all_lack : ℕ → List Text → Bool
all_lack d [] = true
all_lack d (s ∷ l) = lacks d s && all_lack d l

pub all_lack-IsFree : (d : ℕ) (l : List Text) → all_lack d l ≡ true → All (IsFree d) l
all_lack-IsFree d [] e = tt
all_lack-IsFree d (s ∷ l) e =
    let (mine, rest) = halves (lacks d s) (all_lack d l) e in
    (lacks-IsFree d s mine, all_lack-IsFree d l rest)
  where
    halves : (a b : Bool) → (a && b) ≡ true → (a ≡ true) × (b ≡ true)
    halves a b e = ground (arith, e)

split-free : (d : ℕ) (s : Text) → IsFree d s → split d s ≡ s ∷ []
unfolding split
split-free d [] free = refl
split-free d (c ∷ s) (other, free) = rw (==-false c d other, split-free d s free) refl

pub split-append : (d : ℕ) (s t : Text) → IsFree d s → split d (s ++ d ∷ t) ≡ s ∷ split d t
unfolding split
split-append d [] t free = rw (==-refl d) refl
split-append d (c ∷ s) t (other, free) = rw (==-false c d other, split-append d s t free) refl

-- Fields that do not contain the separator are got back from their line.
pub split-join :
    (d : ℕ) (part : Text) (parts : List Text)
    → All (IsFree d) (part ∷ parts)
    → split d (join d (part ∷ parts)) ≡ part ∷ parts
unfolding join
split-join d part [] (free, rest) = split-free d part free
split-join d part (next ∷ parts) (free, rest) =
    split-append d part (join d (next ∷ parts)) free
    ∙ ap (λ t. part ∷ t) (split-join d next parts rest)

extended :
    (d c : ℕ) (part : Text) (parts : List Text)
    → join d ((c ∷ part) ∷ parts) ≡ c ∷ join d (part ∷ parts)
unfolding join
extended d c part [] = refl
extended d c part (next ∷ parts) = refl

pub split-cons :
    (d : ℕ) (s : Text) → (part : Text) × (parts : List Text) × (split d s ≡ part ∷ parts)
unfolding split
split-cons d [] = ([], [], refl)
split-cons d (c ∷ s) =
    let (part, parts, e) = split-cons d s in
    elim (Bool-cases (c == d)) [
      | inl here ↦ ([], split d s, rw here refl)
      | inr other ↦ (c ∷ part, parts, rw (other, e) refl)
    ]

-- What is split is got back by joining it.
pub join-split : (d : ℕ) (s : Text) → join d (split d s) ≡ s
unfolding split join
join-split d [] = refl
join-split d (c ∷ s) =
    let (part, parts, e) = split-cons d s in
    let rest : join d (part ∷ parts) ≡ s = ap (join d) (sym e) ∙ join-split d s in
    elim (Bool-cases (c == d)) [
      | inl here ↦ rw (here, e) (ap₂ (λ x t. x ∷ t) (sym ((==_iff c d).0 here)) rest)
      | inr other ↦ rw (other, e) (extended d c part parts ∙ ap (λ t. c ∷ t) rest)
    ]
