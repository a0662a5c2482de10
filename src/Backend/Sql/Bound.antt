-- ===== src/Backend/Sql/Bound.antt =====
-- The placeholders of a batch stand for the fields of its rows.
use mathlib.Core.Path.{fun_ext}
use fueltracks.Prelude.{
  ℕ, zero, suc, ◌+◌, ◌*◌, ◌-◌, ◌<◌, ◌≡◌, refl, sym, ap, ap₂, ◌∙◌, Option, some, List, [], ◌∷◌, ◌++◌,
  map, length, get_elem?, length-append, append_assoc, arith,
}
use fueltracks.Js.Text.{Text, codes}
use fueltracks.Writer.{Json, Point, LatestState}
use fueltracks.Backend.Sql.{
  numbers, dollars, row_text, number_rows, bind_rows, point_fields, state_fields, replace_first,
  replace_last, Batch, many, save_points_batch, update_latest_states_batch,
}

pub get_elem?-append_right {ℓ} :
    {A : Type ℓ} (xs ys : List A) (n : ℕ) → get_elem? (xs ++ ys) (length xs + n) ≡ get_elem? ys n
get_elem?-append_right [] ys n = let e : 0 + n ≡ n = omega arith in ap (get_elem? ys) e
get_elem?-append_right (x ∷ xs) ys n =
    let e : suc (length xs) + n ≡ suc (length xs + n) = omega arith in
    ap (get_elem? (x ∷ (xs ++ ys))) e ∙ get_elem?-append_right xs ys n

pub get_elem?-append_left {ℓ} :
    {A : Type ℓ} (xs ys : List A) (n : ℕ) → n < length xs → get_elem? (xs ++ ys) n ≡ get_elem? xs n
get_elem?-append_left [] ys n h = absurd (omega arith)
get_elem?-append_left (x ∷ xs) ys zero h = refl
get_elem?-append_left (x ∷ xs) ys (suc n) h = get_elem?-append_left xs ys n (omega arith)

-- The value that is bound to a placeholder.
abbrev pub bound_to : List Json → ℕ → Option Json
bound_to values n = get_elem? values (n - 1)

numbers-bound :
    (before mine after : List Json) (p : ℕ)
    → p ≡ length before + 1
    → map (bound_to (before ++ (mine ++ after))) (numbers p (length mine)) ≡ map some mine
unfolding numbers
numbers-bound before [] after p h = refl
numbers-bound before (v ∷ mine) after p h =
    ap₂ (λ x xs. x ∷ xs)
      (ap (get_elem? (before ++ (v ∷ mine ++ after))) (omega (arith, h))
        ∙ get_elem?-append_right before (v ∷ mine ++ after) 0)
      (ap (λ values. map (bound_to values) (numbers (p + 1) (length mine)))
          (sym (append_assoc before (v ∷ []) (mine ++ after)))
        ∙ numbers-bound (before ++ v ∷ []) mine after (p + 1)
            (omega (arith, h, length-append before (v ∷ []))))

suc_mul : (a b : ℕ) → suc a * b ≡ b + a * b
suc_mul a b = grind arith

module _ (width : ℕ) {A : Type 0} (fields : A → List Json)
    (wide : (a : A) → length (fields a) ≡ width) where
  number_rows-bound :
      (before : List Json) (rows : List A) (p : ℕ)
      → p ≡ length before + 1
      → map (map (bound_to (before ++ bind_rows fields rows))) (number_rows width fields p rows)
        ≡ map (λ (a : A). map some (fields a)) rows
  unfolding number_rows bind_rows
  number_rows-bound before [] p h = refl
  number_rows-bound before (a ∷ rows) p h =
      ap₂ (λ x xs. x ∷ xs)
        (ap (λ n. map (bound_to (before ++ (fields a ++ bind_rows fields rows))) (numbers p n))
            (sym (wide a))
          ∙ numbers-bound before (fields a) (bind_rows fields rows) p h)
        (ap (λ values. map (map (bound_to values)) (number_rows width fields (p + width) rows))
            (sym (append_assoc before (fields a) (bind_rows fields rows)))
          ∙ number_rows-bound (before ++ fields a) rows (p + width)
              (omega (arith, h, length-append before (fields a), wide a)))

  bind_rows-length : (rows : List A) → length (bind_rows fields rows) ≡ length rows * width
  unfolding bind_rows
  bind_rows-length [] = omega arith
  bind_rows-length (a ∷ rows) = ground (
    arith,
    length-append (fields a) (bind_rows fields rows),
    wide a,
    bind_rows-length rows,
    suc_mul (length rows) width,
  )

replace_last-append : (s : Text) (c : ℕ) → replace_last (s ++ c ∷ []) ≡ s ++ codes ",TRUE,NOW())"
unfolding replace_last
replace_last-append [] c = refl
replace_last-append (d ∷ []) c = refl
replace_last-append (d ∷ e ∷ s) c = ap (λ t. d ∷ t) (replace_last-append (e ∷ s) c)

state_row :
    (ps : List ℕ)
    → replace_last (replace_first (row_text ps)) ≡ codes "(" ++ (dollars ps ++ codes ",TRUE,NOW())")
unfolding row_text replace_first
state_row ps = replace_last-append (codes "(" ++ dollars ps) b')'

point_fields-length : (p : Point) → length (point_fields p) ≡ 14
unfolding point_fields
point_fields-length p = refl

state_fields-length : (s : LatestState) → length (state_fields s) ≡ 11
unfolding state_fields
state_fields-length s = refl

-- The statement for two or more points has a row of placeholders for each, which stand for its fields
-- in their order, and no other values; so has that for two or more states, with `TRUE` and `NOW()`
-- behind the fields of each row.
pub batches-bound :
    (p q : Point) (points : List Point) (u v : LatestState) (updates : List LatestState)
    → ((rows : List (List ℕ)) × (values : List Json) × (save_points_batch (p ∷ q ∷ points)
          ≡ many (map row_text rows) values)
        × (map (map (bound_to values)) rows
            ≡ map (λ (pt : Point). map some (point_fields pt)) (p ∷ q ∷ points))
        × (length values ≡ length (p ∷ q ∷ points) * 14))
      × ((rows : List (List ℕ)) × (values : List Json) × (update_latest_states_batch
              (u ∷ v ∷ updates)
            ≡ many
                (map (λ (ps : List ℕ). codes "(" ++ (dollars ps ++ codes ",TRUE,NOW())")) rows)
                values)
          × (map (map (bound_to values)) rows
              ≡ map (λ (x : LatestState). map some (state_fields x)) (u ∷ v ∷ updates))
          × (length values ≡ length (u ∷ v ∷ updates) * 11))
unfolding save_points_batch update_latest_states_batch
batches-bound p q points u v updates =
    let ps = p ∷ q ∷ points in
    let us = u ∷ v ∷ updates in
    let with_rows : (List ℕ → Text) → Batch LatestState =
      λ f. many (map f (number_rows 11 state_fields 1 us)) (bind_rows state_fields us) in
    (
      (
        number_rows 14 point_fields 1 ps,
        bind_rows point_fields ps,
        refl,
        number_rows-bound 14 point_fields point_fields-length [] ps 1 (omega arith),
        bind_rows-length 14 point_fields point_fields-length ps,
      ),
      (
        number_rows 11 state_fields 1 us,
        bind_rows state_fields us,
        ap with_rows (fun_ext state_row),
        number_rows-bound 11 state_fields state_fields-length [] us 1 (omega arith),
        bind_rows-length 11 state_fields state_fields-length us,
      ),
    )
