-- ===== src/Metrics/Observed.antt =====
-- What the histogram of shared/metrics.js counts.
use fueltracks.Prelude.{ℕ, ◌+◌, ◌≤◌, ◌≡◌, refl, List, [], ◌∷◌, length, leb, if◌then◌else◌, arith}
use fueltracks.Js.Text.{Text}
use fueltracks.Metrics.{
  Histogram, insert, sort, zeros, histogram, count_all, place, observe, cumulative, printed_count,
}

-- How many of the values are at most the bound.
abbrev pub at_most : ℕ → List ℕ → ℕ
at_most b [] = 0
at_most b (v ∷ vs) = let n = at_most b vs in if leb v b then n + 1 else n

-- The values are observed one after the other, the last of them first in the list.
abbrev pub observe_all : List ℕ → Histogram → Histogram
observe_all [] h = h
observe_all (v ∷ vs) h = observe v (observe_all vs h)

abbrev pub sum_of : List ℕ → ℕ
sum_of [] = 0
sum_of (v ∷ vs) = v + sum_of vs

-- The rows of an ideal histogram.
abbrev pub tally : List ℕ → List ℕ → List (ℕ × ℕ)
tally [] vs = []
tally (b ∷ bs) vs = (b, at_most b vs) ∷ tally bs vs

-- Each bound is at least this one, and at most those behind it.
abbrev IsAscending : ℕ → List ℕ → Type 0
IsAscending b [] = Unit
IsAscending b (c ∷ cs) = (b ≤ c) × IsAscending c cs

insert-IsAscending :
    (a b : ℕ) (cs : List ℕ) → a ≤ b → IsAscending a cs → IsAscending a (insert b cs)
unfolding insert
insert-IsAscending a b [] h asc = (h, tt)
insert-IsAscending a b (c ∷ cs) h asc =
    ground (arith, λ (k : c ≤ b). insert-IsAscending c b cs k asc.1)

sort-IsAscending : (bs : List ℕ) → IsAscending 0 (sort bs)
unfolding sort
sort-IsAscending [] = tt
sort-IsAscending (b ∷ bs) = insert-IsAscending 0 b (sort bs) (ground arith) (sort-IsAscending bs)

count_all-tally :
    (v a : ℕ) (bs vs : List ℕ)
    → v ≤ a
    → IsAscending a bs
    → count_all (tally bs vs) ≡ tally bs (v ∷ vs)
unfolding count_all
count_all-tally v a [] vs h asc = refl
count_all-tally v a (b ∷ bs) vs h asc =
    ground (arith, count_all-tally v b bs vs (omega arith) asc.1)

place-tally :
    (v a : ℕ) (bs vs : List ℕ) → IsAscending a bs → (place v (tally bs vs)).1 ≡ tally bs (v ∷ vs)
unfolding place count_all
place-tally v a [] vs asc = refl
place-tally v a (b ∷ bs) vs asc =
    ground (arith, place-tally v b bs vs asc.1, λ (h : v ≤ b). count_all-tally v b bs vs h asc.1)

zeros-tally : (bs : List ℕ) → zeros bs ≡ tally bs []
unfolding zeros
zeros-tally [] = refl
zeros-tally (b ∷ bs) = ground (arith, zeros-tally bs)

cumulative-count_all :
    (k : ℕ) (rows : List (ℕ × ℕ)) → cumulative (k + 1) (count_all rows) ≡ cumulative k rows + 1
unfolding cumulative count_all
cumulative-count_all k [] = refl
cumulative-count_all k ((b, c) ∷ rows) = cumulative-count_all c rows

cumulative-place :
    (v k : ℕ) (rows : List (ℕ × ℕ))
    → cumulative k (place v rows).1
      ≡ (if (place v rows).0 then cumulative k rows + 1 else cumulative k rows)
unfolding cumulative place count_all
cumulative-place v k [] = refl
cumulative-place v k ((b, c) ∷ rows) =
    ground (arith, cumulative-place v c rows, cumulative-count_all c rows)

observe_all-rows :
    (name help : Text) (buckets vs : List ℕ)
    → (observe_all vs (histogram name help buckets)).rows ≡ tally (sort buckets) vs
unfolding observe histogram
observe_all-rows name help buckets [] = zeros-tally (sort buckets)
observe_all-rows name help buckets (v ∷ vs) =
    rw (observe_all-rows name help buckets vs)
      (place-tally v 0 (sort buckets) vs (sort-IsAscending buckets))

observe-printed_count : (v : ℕ) (h : Histogram) → printed_count (observe v h) ≡ printed_count h + 1
unfolding observe printed_count
observe-printed_count v h = ground (arith, cumulative-place v 0 h.rows)

cumulative-zeros : (bs : List ℕ) → cumulative 0 (zeros bs) ≡ 0
unfolding cumulative zeros
cumulative-zeros [] = refl
cumulative-zeros (b ∷ bs) = cumulative-zeros bs

observe_all-printed_count :
    (name help : Text) (buckets vs : List ℕ)
    → printed_count (observe_all vs (histogram name help buckets)) ≡ length vs
unfolding histogram printed_count
observe_all-printed_count name help buckets [] = omega (arith, cumulative-zeros (sort buckets))
observe_all-printed_count name help buckets (v ∷ vs) =
    let h = observe_all vs (histogram name help buckets) in
    ground (arith, observe-printed_count v h, observe_all-printed_count name help buckets vs)

observe_all-sum :
    (name help : Text) (buckets vs : List ℕ)
    → (observe_all vs (histogram name help buckets)).sum ≡ sum_of vs
unfolding observe histogram
observe_all-sum name help buckets [] = refl
observe_all-sum name help buckets (v ∷ vs) = ground (arith, observe_all-sum name help buckets vs)

-- Whatever the bounds and the values, in any order: a bucket counts the values that are at most its
-- bound, the `_count` line prints the number of all values, and the `_sum` line their sum.
pub observe_all-tally :
    (name help : Text) (buckets vs : List ℕ)
    → ((observe_all vs (histogram name help buckets)).rows ≡ tally (sort buckets) vs)
      × (printed_count (observe_all vs (histogram name help buckets)) ≡ length vs)
      × ((observe_all vs (histogram name help buckets)).sum ≡ sum_of vs)
observe_all-tally name help buckets vs = (
  observe_all-rows name help buckets vs,
  observe_all-printed_count name help buckets vs,
  observe_all-sum name help buckets vs,
)
