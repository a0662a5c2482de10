-- ===== src/Metrics.antt =====
-- The metrics of shared/metrics.js: `Counter`, `Gauge` and `Histogram`, and what `render` prints of
-- them. The values are the natural numbers that the servers count and time.
pub mod Observed
pub mod Peak
use fueltracks.Prelude.{
  ℕ, suc, ◌+◌, ◌-◌, max, Bool, true, false, List, [], ◌∷◌, ◌++◌, leb, ltb, if◌then◌else◌,
}
use fueltracks.Js.Text.{Text, codes, decimal}
use fueltracks.Js.Strings.{join}

pub record Counter : Type 0 where
  pub name : Text
  pub help : Text
  pub value : ℕ

unfoldable pub add_count : ℕ → Counter → Counter
add_count n c = record c { value = c.value + n }

pub record Gauge : Type 0 where
  pub name : Text
  pub help : Text
  pub value : ℕ
  pub peak : ℕ

unfoldable pub set_gauge : ℕ → Gauge → Gauge
set_gauge v g = record g { value = v; peak = if ltb g.peak v then v else g.peak }

unfoldable pub inc_gauge : ℕ → Gauge → Gauge
inc_gauge n g =
    let value = g.value + n in
    record g { value = value; peak = if ltb g.peak value then value else g.peak }

-- `Math.max(0, this.value - n)` is the subtraction that stops at 0.
unfoldable pub dec_gauge : ℕ → Gauge → Gauge
dec_gauge n g = record g { value = g.value - n }

-- `rows` has each of `buckets` with its entry of `counts`.
pub record Histogram : Type 0 where
  pub name : Text
  pub help : Text
  pub rows : List (ℕ × ℕ)
  pub plus_inf : ℕ
  pub sum : ℕ

unfoldable pub insert : ℕ → List ℕ → List ℕ
insert b [] = b ∷ []
insert b (c ∷ cs) = let rest = insert b cs in if leb b c then b ∷ c ∷ cs else c ∷ rest

-- `sort((a, b) => a - b)`
unfoldable pub sort : List ℕ → List ℕ
sort [] = []
sort (b ∷ bs) = insert b (sort bs)

unfoldable pub zeros : List ℕ → List (ℕ × ℕ)
zeros [] = []
zeros (b ∷ bs) = (b, 0) ∷ zeros bs

unfoldable pub histogram : Text → Text → List ℕ → Histogram
histogram name help buckets = record {
  name = name;
  help = help;
  rows = zeros (sort buckets);
  plus_inf = 0;
  sum = 0;
}

-- the inner loop
unfoldable pub count_all : List (ℕ × ℕ) → List (ℕ × ℕ)
count_all [] = []
count_all ((b, c) ∷ rows) = (b, c + 1) ∷ count_all rows

-- the outer loop, with `placed`
unfoldable pub place : ℕ → List (ℕ × ℕ) → Bool × List (ℕ × ℕ)
place v [] = (false, [])
place v ((b, c) ∷ rows) =
    let (placed, rest) = place v rows in
    if leb v b then (true, count_all ((b, c) ∷ rows)) else (placed, (b, c) ∷ rest)

unfoldable pub observe : ℕ → Histogram → Histogram
observe v h =
    let (placed, rows) = place v h.rows in
    record h {
      rows = rows;
      plus_inf = if placed then h.plus_inf else h.plus_inf + 1;
      sum = h.sum + v;
    }

-- `cumulative` after the loop of `render`: the last count.
unfoldable pub cumulative : ℕ → List (ℕ × ℕ) → ℕ
cumulative n [] = n
cumulative n ((b, c) ∷ rows) = cumulative c rows

unfoldable pub printed_count : Histogram → ℕ
printed_count h = h.plus_inf + cumulative 0 h.rows

unfoldable pub bucket_lines : Text → List (ℕ × ℕ) → List Text
bucket_lines name [] = []
bucket_lines name ((b, c) ∷ rows) =
    (name ++ codes "_bucket{le=\"" ++ decimal b ++ codes "\"} " ++ decimal c)
    ∷ bucket_lines name rows

-- The lines of `render` for a histogram.
unfoldable pub histogram_lines : Histogram → List Text
histogram_lines h =
    (codes "# HELP " ++ h.name ++ codes " " ++ h.help)
      ∷ (codes "# TYPE " ++ h.name ++ codes " histogram")
      ∷ bucket_lines h.name h.rows
    ++ (h.name ++ codes "_bucket{le=\"+Inf\"} " ++ decimal h.plus_inf)
      ∷ (h.name ++ codes "_sum " ++ decimal h.sum)
      ∷ (h.name ++ codes "_count " ++ decimal (printed_count h))
      ∷ []

-- The items of the registry, and its operations.
pub data Item : Type 0 where
  counter_item : Counter → Item
  gauge_item : Gauge → Item
  histogram_item : Histogram → Item

unfoldable pub value_lines : Text → Text → Text → ℕ → List Text
value_lines name help type value =
    (codes "# HELP " ++ name ++ codes " " ++ help)
    ∷ (codes "# TYPE " ++ name ++ codes " " ++ type)
    ∷ (name ++ codes " " ++ decimal value)
    ∷ []

unfoldable pub item_lines : Item → List Text
item_lines (counter_item c) = value_lines c.name c.help (codes "counter") c.value
item_lines (gauge_item g) = value_lines g.name g.help (codes "gauge") g.value
item_lines (histogram_item h) = histogram_lines h

unfoldable pub all_lines : List Item → List Text
all_lines [] = []
all_lines (item ∷ items) = item_lines item ++ all_lines items

unfoldable pub render : List Item → Text
render items = join 10 (all_lines items) ++ codes "\n"
