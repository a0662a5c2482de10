-- ===== src/Backend/Sql/Assigned.antt =====
-- The assignments of an update stand for the fields that are given.
use fueltracks.Prelude.{
  ℕ, ◌+◌, ◌-◌, ◌≤◌, ◌≡◌, ◌≢◌, refl, sym, ap, ap₂, ◌∙◌, subst, Option, none, some, List, [], ◌∷◌,
  ◌++◌, length, get_elem?, length-append, append_assoc, append-nil, All, All-append, arith,
}
use fueltracks.Js.Text.{Text}
use fueltracks.Writer.{Json}
use fueltracks.Backend.Sql.{Assignment, Builder, assign, assign_all, Update, finish, build_update}
use fueltracks.Backend.Sql.Bound.{bound_to, get_elem?-append_right, get_elem?-append_left}

-- The columns and values that are given.
abbrev pub supplied : List (Text × Option Json) → List (Text × Option Json)
supplied [] = []
supplied ((column, none) ∷ given) = supplied given
supplied ((column, some v) ∷ given) = (column, some v) ∷ supplied given

-- The columns of the assignments with what is bound to their placeholders.
abbrev pub assigned : List Json → List Assignment → List (Text × Option Json)
assigned values [] = []
assigned values (a ∷ fields) = (a.column, bound_to values a.number) ∷ assigned values fields

abbrev Within : List Json → Assignment → Type 0
Within values a = (1 ≤ a.number) × (a.number ≤ length values)

assigned-more :
    (values more : List Json) (fields : List Assignment)
    → All (Within values) fields
    → assigned (values ++ more) fields ≡ assigned values fields
assigned-more values more [] h = refl
assigned-more values more (a ∷ fields) ((low, high), hs) =
    ap₂ (λ x xs. (a.column, x) ∷ xs)
      (get_elem?-append_left values more (a.number - 1) (omega arith))
      (assigned-more values more fields hs)

assigned-append :
    (values : List Json) (fields more : List Assignment)
    → assigned values (fields ++ more) ≡ assigned values fields ++ assigned values more
assigned-append values [] more = refl
assigned-append values (a ∷ fields) more =
    ap (λ xs. (a.column, bound_to values a.number) ∷ xs) (assigned-append values fields more)

Within-more :
    (values more : List Json) (fields : List Assignment)
    → All (Within values) fields
    → All (Within (values ++ more)) fields
Within-more values more [] h = tt
Within-more values more (a ∷ fields) ((low, high), hs) =
    ((low, omega (arith, length-append values more)), Within-more values more fields hs)

-- The builder after these fields.
record Holds (b : Builder) (done : List (Text × Option Json)) : Type 0 where
  next_number : b.idx ≡ length b.values + 1
  within : All (Within b.values) b.fields
  bound : assigned b.values b.fields ≡ done

assign-Holds :
    (column : Text) (v : Json) (b : Builder) (done : List (Text × Option Json))
    → Holds b done
    → Holds (assign column (some v) b) (done ++ (column, some v) ∷ [])
unfolding assign
assign-Holds column v b done h =
    let mine : Assignment = record { column = column; number = b.idx } in
    let values = b.values ++ v ∷ [] in
    let last : bound_to values b.idx ≡ some v =
      ap (get_elem? values) (omega (arith, h.next_number))
      ∙ get_elem?-append_right b.values (v ∷ []) 0 in
    record {
      next_number = omega (arith, h.next_number, length-append b.values (v ∷ []));
      within =
          All-append (Within values) b.fields (mine ∷ [])
            (Within-more b.values (v ∷ []) b.fields h.within)
            (
              (
                (omega (arith, h.next_number)),
                omega (arith, h.next_number, length-append b.values (v ∷ [])),
              ),
              tt,
            );
      bound =
          assigned-append values b.fields (mine ∷ [])
          ∙ ap₂ (λ xs x. xs ++ (column, x) ∷ [])
              (assigned-more b.values (v ∷ []) b.fields h.within ∙ h.bound) last;
    }

assign_all-Holds :
    (given : List (Text × Option Json)) (b : Builder) (done : List (Text × Option Json))
    → Holds b done
    → Holds (assign_all given b) (done ++ supplied given)
unfolding assign_all assign
assign_all-Holds [] b done h = rw (append-nil done) h
assign_all-Holds ((column, none) ∷ given) b done h = assign_all-Holds given b done h
assign_all-Holds ((column, some v) ∷ given) b done h =
    subst (λ (l : List (Text × Option Json)). Holds (assign_all given (assign column (some v) b)) l)
      (append_assoc done ((column, some v) ∷ []) (supplied given))
      (assign_all-Holds given (assign column (some v) b) (done ++ (column, some v) ∷ [])
        (assign-Holds column v b done h))

-- What an update says: nothing where no field is given; else exactly the given columns, each with the
-- value that was given for it, for the row of this id.
abbrev pub Says : List (Text × Option Json) → Json → Option Update → Type 0
Says given id none = supplied given ≡ []
Says given id (some u) =
    (assigned u.bound u.set_fields ≡ supplied given)
    × (bound_to u.bound u.where_number ≡ some id)
    × (supplied given ≢ [])

finish-Says :
    (given : List (Text × Option Json)) (id : Json) (fields : List Assignment) (values : List Json)
    (idx : ℕ)
    → Holds (record { fields = fields; values = values; idx = idx }) (supplied given)
    → Says given id (finish id (record { fields = fields; values = values; idx = idx }))
unfolding finish
finish-Says given id [] values idx h = sym h.bound
finish-Says given id (f ∷ fields) values idx h = (
  assigned-more values (id ∷ []) (f ∷ fields) h.within ∙ h.bound,
  ap (get_elem? (values ++ id ∷ [])) (omega (arith, h.next_number))
      ∙ get_elem?-append_right values (id ∷ []) 0,
  λ e. cc (h.bound, e),
)

-- Whichever fields are given, the update that the models build assigns exactly these, each column with
-- its value, to the row of the id; and there is no statement exactly where no field is given.
pub build_update-Says :
    (given : List (Text × Option Json)) (id : Json) → Says given id (build_update given id)
unfolding build_update
build_update-Says given id =
    let start : Builder = record { fields = []; values = []; idx = 1 } in
    let b = assign_all given start in
    finish-Says given id b.fields b.values b.idx
      (assign_all-Holds given start [] (record { next_number = refl; within = tt; bound = refl }))
