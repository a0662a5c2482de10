-- ===== src/Backend/Sockets/Allowed.antt =====
-- Sockets that are only in the rooms that their user may hear, and the operations that keep them there.
use fueltracks.Prelude.{
  ◌≡◌, ◌⊎◌, inl, inr, refl, Bool, true, false, List, [], ◌∷◌, ◌++◌, All, All-append, if◌then◌else◌,
}
use fueltracks.Js.Text.{Text, equal}
use fueltracks.Writer.Settled.{Has}
use fueltracks.Backend.Access.{User}
use fueltracks.Backend.Sockets.{
  Database, org_room, vehicle_room, Check, asked, answered, ClientSocket, is_in, join_room,
  without_room, leave_room, send_error,
}
use fueltracks.Backend.Sockets.System.{with_checks}
use fueltracks.Backend.Sockets.Owned.{IsOwned}

-- The vehicle belonged to the organization, or to a child of it, in one of the databases.
abbrev pub WasOwned : List Database → Text → Text → Type 0
WasOwned dbs vehicle_id org_id = (db : Database) × Has db dbs × IsOwned db vehicle_id org_id

abbrev pub IsAllowed : List Database → Text → Text → Type 0
IsAllowed dbs org_id room =
    (room ≡ org_room org_id)
    ⊎ ((vehicle_id : Text) × (room ≡ vehicle_room vehicle_id) × WasOwned dbs vehicle_id org_id)

abbrev pub IsTrue : List Database → Text → Check → Type 0
IsTrue dbs org_id (asked vehicle_id) = Unit
IsTrue dbs org_id (answered vehicle_id false) = Unit
IsTrue dbs org_id (answered vehicle_id true) = WasOwned dbs vehicle_id org_id

pub record IsConfinedTo (user : User) (dbs : List Database) (s : ClientSocket) : Type 0 where
  pub same_user : s.user ≡ user
  pub rooms_allowed : All (IsAllowed dbs user.org_id) s.rooms
  pub checks_true : All (IsTrue dbs user.org_id) s.checks

pub WasOwned-later :
    (db : Database) (dbs : List Database) (v o : Text) → WasOwned dbs v o → WasOwned (db ∷ dbs) v o
WasOwned-later db dbs v o (d, there, owned) = (d, inr there, owned)

pub IsAllowed-later :
    (db : Database) (dbs : List Database) (o room : Text)
    → IsAllowed dbs o room
    → IsAllowed (db ∷ dbs) o room
IsAllowed-later db dbs o room (inl own) = inl own
IsAllowed-later db dbs o room (inr (v, at, owned)) = inr (v, at, WasOwned-later db dbs v o owned)

pub IsTrue-later :
    (db : Database) (dbs : List Database) (o : Text) (c : Check)
    → IsTrue dbs o c
    → IsTrue (db ∷ dbs) o c
IsTrue-later db dbs o (asked v) h = tt
IsTrue-later db dbs o (answered v false) h = tt
IsTrue-later db dbs o (answered v true) h = WasOwned-later db dbs v o h

-- A conditional has what both its branches have.
pub if_holds :
    {A : Type 0} (P : A → Type 0) (b : Bool) (x y : A)
    → (b ≡ true → P x)
    → (b ≡ false → P y)
    → P (if b then x else y)
if_holds P true x y h k = h refl
if_holds P false x y h k = k refl

All-without :
    (P : Text → Type 0) (room : Text) (rooms : List Text)
    → All P rooms
    → All P (without_room room rooms)
unfolding without_room
All-without P room [] h = tt
All-without P room (r ∷ rooms) h =
    let rest = All-without P room rooms h.1 in
    if_holds (All P) (equal r room) (without_room room rooms) (r ∷ without_room room rooms)
      (λ e. rest) (λ e. (h.0, rest))

module _ (user : User) (dbs : List Database) where
  pub joined :
      (room : Text) (s : ClientSocket)
      → IsAllowed dbs user.org_id room
      → IsConfinedTo user dbs s
      → IsConfinedTo user dbs (join_room room s)
  unfolding join_room
  joined room s allowed c = record {
    same_user = c.same_user;
    rooms_allowed =
        if_holds (All (IsAllowed dbs user.org_id)) (is_in room s.rooms) s.rooms
          (s.rooms ++ room ∷ []) (λ e. c.rooms_allowed)
          (λ e.
            All-append (IsAllowed dbs user.org_id) s.rooms (room ∷ []) c.rooms_allowed
              (allowed, tt));
    checks_true = c.checks_true;
  }

  pub left :
      (room : Text) (s : ClientSocket)
      → IsConfinedTo user dbs s
      → IsConfinedTo user dbs (leave_room room s)
  unfolding leave_room
  left room s c = record {
    same_user = c.same_user;
    rooms_allowed = All-without (IsAllowed dbs user.org_id) room s.rooms c.rooms_allowed;
    checks_true = c.checks_true;
  }

  pub told :
      (message : Text) (s : ClientSocket)
      → IsConfinedTo user dbs s
      → IsConfinedTo user dbs (send_error message s)
  unfolding send_error
  told message s c = record {
    same_user = c.same_user;
    rooms_allowed = c.rooms_allowed;
    checks_true = c.checks_true;
  }

  pub rechecked :
      (checks : List Check) (s : ClientSocket)
      → All (IsTrue dbs user.org_id) checks
      → IsConfinedTo user dbs s
      → IsConfinedTo user dbs (with_checks checks s)
  unfolding with_checks
  rechecked checks s h c = record {
    same_user = c.same_user;
    rooms_allowed = c.rooms_allowed;
    checks_true = h;
  }
