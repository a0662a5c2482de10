-- ===== src/Backend/Sockets/Kept.antt =====
-- The handlers and the steps keep a socket in the rooms that its user may hear.
use fueltracks.Prelude.{
  ◌≡◌, inl, inr, refl, sym, ap, subst, Bool, true, false, not, ◌&&◌, List, [], ◌∙◌, ◌∷◌, ◌++◌, All,
  All-append, All-split, replaced, arith, if◌then◌else◌,
}
use fueltracks.Js.Text.{Text, codes}
use fueltracks.Js.Map.{equal_iff}
use fueltracks.Writer.{Json, missing, null, boolean, number, negative, text}
use fueltracks.Writer.Settled.{All-weaken}
use fueltracks.Backend.Access.{User}
use fueltracks.Backend.Sockets.{
  Database, belongs_to_org, spelled, is_truthy, org_room, vehicle_room, Check, asked, answered,
  ClientSocket, join_room, leave_room, send_error, is_superadmin, join_vehicle, leave_vehicle,
  is_own, join_org, leave_org, resume,
}
use fueltracks.Backend.Sockets.System.{
  ClientEvent, join_vehicle_event, leave_vehicle_event, join_org_event, leave_org_event,
  handle_event, World, with_checks, Step, emitted_event, query_ran, query_failed, resumed, changed,
  Reach, here, next,
}
use fueltracks.Backend.Sockets.Owned.{IsOwned, belongs_to_org_iff}
use fueltracks.Backend.Sockets.Allowed.{
  IsTrue, IsConfinedTo, IsAllowed-later, IsTrue-later, if_holds, joined, left, told, rechecked,
}

is_own-spelled :
    (target : Json) (user : User) → is_own target user ≡ true → spelled target ≡ user.org_id
unfolding is_own spelled
is_own-spelled missing user h = absurd (ground (arith, h))
is_own-spelled null user h = absurd (ground (arith, h))
is_own-spelled (boolean b) user h = absurd (ground (arith, h))
is_own-spelled (number n) user h = absurd (ground (arith, h))
is_own-spelled (negative n) user h = absurd (ground (arith, h))
is_own-spelled (text t) user h = (equal_iff t user.org_id).0 h

module _ (user : User) (ordinary : is_superadmin user ≡ false) (dbs : List Database) where
  abbrev Fine : ClientSocket → Type 0
  Fine = IsConfinedTo user dbs

  no_superadmin : (s : ClientSocket) → Fine s → is_superadmin s.user ≡ false
  no_superadmin s c = subst (λ (u : User). is_superadmin u ≡ false) (sym c.same_user) ordinary

  join_vehicle-IsConfinedTo : (v : Json) (s : ClientSocket) → Fine s → Fine (join_vehicle v s)
  unfolding join_vehicle with_checks
  join_vehicle-IsConfinedTo v s c =
      let waits =
        rechecked user dbs (s.checks ++ asked (spelled v) ∷ []) s
          (All-append (IsTrue dbs user.org_id) s.checks (asked (spelled v) ∷ []) c.checks_true
            (tt, tt))
          c in
      let room = join_room (vehicle_room (spelled v)) s in
      let waiting = with_checks (s.checks ++ asked (spelled v) ∷ []) s in
      if_holds Fine (not (is_truthy v)) s (if is_superadmin s.user then room else waiting) (λ e. c)
        (λ e.
          if_holds Fine (is_superadmin s.user) room waiting
            (λ super. absurd (ground (arith, super, no_superadmin s c))) (λ other. waits))

  leave_vehicle-IsConfinedTo : (v : Json) (s : ClientSocket) → Fine s → Fine (leave_vehicle v s)
  unfolding leave_vehicle
  leave_vehicle-IsConfinedTo v s c =
      if_holds Fine (is_truthy v) (leave_room (vehicle_room (spelled v)) s) s
        (λ e. left user dbs (vehicle_room (spelled v)) s c) (λ e. c)

  leave_org-IsConfinedTo : (o : Json) (s : ClientSocket) → Fine s → Fine (leave_org o s)
  unfolding leave_org
  leave_org-IsConfinedTo o s c =
      if_holds Fine (is_truthy o) (leave_room (org_room (spelled o)) s) s
        (λ e. left user dbs (org_room (spelled o)) s c) (λ e. c)

  join_org-IsConfinedTo : (o : Json) (s : ClientSocket) → Fine s → Fine (join_org o s)
  unfolding join_org
  join_org-IsConfinedTo o s c =
      let denied = send_error (codes "Access denied to organization updates.") s in
      let room = join_room (org_room (spelled o)) s in
      let test = not (is_superadmin s.user) && not (is_own o s.user) in
      if_holds Fine (not (is_truthy o)) s (if test then denied else room) (λ e. c)
        (λ e.
          if_holds Fine test denied room
            (λ refused. told user dbs (codes "Access denied to organization updates.") s c)
            (λ taken.
              let own = is_own-spelled o s.user (ground (arith, taken, no_superadmin s c)) in
              joined user dbs (org_room (spelled o)) s
                (inl (ap org_room (own ∙ ap (λ (u : User). u.org_id) c.same_user))) c))

  resume-IsConfinedTo :
      (v : Text) (b : Bool) (s : ClientSocket)
      → IsTrue dbs user.org_id (answered v b)
      → Fine s
      → Fine (resume v b s)
  unfolding resume
  resume-IsConfinedTo v true s owned c = joined user dbs (vehicle_room v) s (inr (v, refl, owned)) c
  resume-IsConfinedTo v false s owned c = told user dbs _ s c

  handle_event-IsConfinedTo :
      (e : ClientEvent) (s : ClientSocket) → Fine s → Fine (handle_event e s)
  unfolding handle_event
  handle_event-IsConfinedTo (join_vehicle_event v) s c = join_vehicle-IsConfinedTo v s c
  handle_event-IsConfinedTo (leave_vehicle_event v) s c = leave_vehicle-IsConfinedTo v s c
  handle_event-IsConfinedTo (join_org_event o) s c = join_org-IsConfinedTo o s c
  handle_event-IsConfinedTo (leave_org_event o) s c = leave_org-IsConfinedTo o s c

later-confined :
    (user : User) (db : Database) (dbs : List Database) (s : ClientSocket)
    → IsConfinedTo user dbs s
    → IsConfinedTo user (db ∷ dbs) s
later-confined user db dbs s c = record {
  same_user = c.same_user;
  rooms_allowed = All-weaken (IsAllowed-later db dbs user.org_id) s.rooms c.rooms_allowed;
  checks_true = All-weaken (IsTrue-later db dbs user.org_id) s.checks c.checks_true;
}

-- An answer that is as the database is.
IsTrue-answered :
    (db : Database) (past : List Database) (v o : Text) (b : Bool)
    → (b ≡ true → IsOwned db v o)
    → IsTrue (db ∷ past) o (answered v b)
IsTrue-answered db past v o true h = (db, inl refl, h refl)
IsTrue-answered db past v o false h = tt

abbrev pub databases : World → List Database
databases w = w.database ∷ w.past

module _ (user : User) (ordinary : is_superadmin user ≡ false) where
  abbrev pub Kept : World → Type 0
  Kept w = IsConfinedTo user (databases w) w.socket

  checks-at :
      (w : World) (before after : List Check) (c : Check)
      → Kept w
      → w.socket.checks ≡ before ++ c ∷ after
      → All (IsTrue (databases w) user.org_id) before
        × All (IsTrue (databases w) user.org_id) (c ∷ after)
  checks-at w before after c k at =
      All-split (IsTrue (databases w) user.org_id) before (c ∷ after)
        (subst (All (IsTrue (databases w) user.org_id)) at k.checks_true)

  removed :
      (w : World) (before after : List Check) (c : Check)
      → Kept w
      → w.socket.checks ≡ before ++ c ∷ after
      → IsConfinedTo user (databases w) (with_checks (before ++ after) w.socket)
  removed w before after c k at =
      let (ahead, (mine, behind)) = checks-at w before after c k at in
      rechecked user (databases w) (before ++ after) w.socket
        (All-append (IsTrue (databases w) user.org_id) before after ahead behind) k

  Step-Kept : {w u : World} → Step w u → Kept w → Kept u
  Step-Kept {w} (emitted_event e to) k =
      subst Kept (sym to) (handle_event-IsConfinedTo user ordinary (databases w) e w.socket k)
  Step-Kept {w} (query_ran v before after at to) k =
      let b = belongs_to_org w.database v w.socket.user.org_id in
      let owned = λ (h : b ≡ true).
        subst (λ (u : User). IsOwned w.database v u.org_id) k.same_user
          ((belongs_to_org_iff w.database v w.socket.user.org_id).0 h) in
      subst Kept (sym to) (
        rechecked user (databases w) (before ++ answered v b ∷ after) w.socket
          (replaced (IsTrue (databases w) user.org_id) before after w.socket.checks (asked v)
            (answered v b) at k.checks_true
            (λ h. IsTrue-answered w.database w.past v user.org_id b owned))
          k)
  Step-Kept {w} (query_failed v before after at to) k =
      subst Kept (sym to) (removed w before after (asked v) k at)
  Step-Kept {w} (resumed v b before after at to) k =
      let mine = (checks-at w before after (answered v b) k at).1.0 in
      subst Kept (sym to) (
        resume-IsConfinedTo user ordinary (databases w) v b (with_checks (before ++ after) w.socket)
          mine (removed w before after (answered v b) k at))
  Step-Kept {w} (changed db to) k =
      subst Kept (sym to) (later-confined user db (databases w) w.socket k)

  pub Reach-Kept : {w u : World} → Reach w u → Kept w → Kept u
  Reach-Kept here k = k
  Reach-Kept (next r step) k = Step-Kept step (Reach-Kept r k)
