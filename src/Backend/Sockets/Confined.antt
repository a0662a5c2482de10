-- ===== src/Backend/Sockets/Confined.antt =====
-- Which effects reach the socket of a user of an organization.
use fueltracks.Prelude.{
  ◌≡◌, inl, inr, refl, sym, ap, subst, true, false, Option, some, List, [], ◌∷◌, All, drop, get_or,
  arith, Option-cases,
}
use fueltracks.Js.Text.{Text, equal}
use fueltracks.Js.Map.{equal_iff}
use fueltracks.Writer.Settled.{Has}
use fueltracks.Backend.Access.{User, Verified, claims, token_expired, invalid_token}
use fueltracks.Backend.Location.Entry.{
  Effect, save_raw, save_point, save_latest, send_alert, emit_to_vehicle, emit_to_org,
}
use fueltracks.Backend.Sockets.{
  Database, org_room, vehicle_room, ClientSocket, is_in, join_room, connected, is_superadmin, hears,
  token_of, by_claims, accept,
}
use fueltracks.Backend.Sockets.System.{World, Reach, start}
use fueltracks.Backend.Sockets.Owned.{some_row_iff}
use fueltracks.Backend.Sockets.Allowed.{WasOwned, IsAllowed, IsConfinedTo, joined}
use fueltracks.Backend.Sockets.Kept.{databases, Reach-Kept}

connected-IsConfinedTo :
    (user : User) (dbs : List Database) → IsConfinedTo user dbs (connected user)
unfolding connected
connected-IsConfinedTo user dbs =
    joined user dbs (org_room user.org_id)
      (record { user = user; rooms = []; checks = []; sent = [] }) (inl refl)
      (record { same_user = refl; rooms_allowed = tt; checks_true = tt })

by_claims-IsConfinedTo :
    (v : Verified) (s : ClientSocket) (dbs : List Database)
    → by_claims v ≡ some s
    → IsConfinedTo s.user dbs s
unfolding by_claims connected join_room
by_claims-IsConfinedTo (claims user) s dbs h =
    subst (λ (t : ClientSocket). IsConfinedTo t.user dbs t) (opened (connected user) s h)
      (connected-IsConfinedTo user dbs)
  where
    opened : (a b : ClientSocket) → some a ≡ some b → a ≡ b
    opened a b h = ground (arith, h)
by_claims-IsConfinedTo token_expired s dbs h = absurd (ground (arith, h))
by_claims-IsConfinedTo invalid_token s dbs h = absurd (ground (arith, h))

accept-IsConfinedTo :
    (verify : Text → Verified) (auth query : Option Text) (s : ClientSocket) (dbs : List Database)
    → accept verify auth query ≡ some s
    → IsConfinedTo s.user dbs s
unfolding accept
accept-IsConfinedTo verify auth query s dbs h = elim (Option-cases (token_of auth query)) [
  | inl e ↦ absurd (ground (arith, h, e))
  | inr (token, e) ↦ by_claims-IsConfinedTo (verify token) s dbs (ground (arith, h, e))
]

-- What a socket of the organization may hear.
abbrev pub MayHear : List Database → Text → Effect → Type 0
MayHear dbs org_id (emit_to_vehicle vehicle_id r) = WasOwned dbs vehicle_id org_id
MayHear dbs org_id (emit_to_org o r) = o ≡ org_id
MayHear dbs org_id _ = ⊥

org_room-IsAllowed :
    (dbs : List Database) (org_id o : Text) → IsAllowed dbs org_id (org_room o) → o ≡ org_id
unfolding org_room vehicle_room
org_room-IsAllowed dbs org_id o (inl same) = ap (drop 4) same
org_room-IsAllowed dbs org_id o (inr (v, same, owned)) =
    absurd (omega (arith, ap (λ (l : Text). get_or l 0 0) same))

vehicle_room-IsAllowed :
    (dbs : List Database) (org_id v : Text)
    → IsAllowed dbs org_id (vehicle_room v)
    → WasOwned dbs v org_id
unfolding org_room vehicle_room
vehicle_room-IsAllowed dbs org_id v (inl same) =
    absurd (omega (arith, ap (λ (l : Text). get_or l 0 0) same))
vehicle_room-IsAllowed dbs org_id v (inr (w, same, owned)) =
    subst (λ x. WasOwned dbs x org_id) (sym (ap (drop 8) same)) owned

All-at : (P : Text → Type 0) (x : Text) (rooms : List Text) → Has x rooms → All P rooms → P x
All-at P x [] there h = absurd there
All-at P x (r ∷ rooms) (inl same) h = subst P (sym same) h.0
All-at P x (r ∷ rooms) (inr later) h = All-at P x rooms later h.1

is_in-IsAllowed :
    (user : User) (dbs : List Database) (s : ClientSocket) (room : Text)
    → IsConfinedTo user dbs s
    → is_in room s.rooms ≡ true
    → IsAllowed dbs user.org_id room
unfolding is_in
is_in-IsAllowed user dbs s room c h =
    let (r, there, same) = (some_row_iff (λ r. equal r room) s.rooms).0 h in
    subst (IsAllowed dbs user.org_id) ((equal_iff r room).0 same)
      (All-at (IsAllowed dbs user.org_id) r s.rooms there c.rooms_allowed)

hears-MayHear :
    (user : User) (dbs : List Database) (s : ClientSocket) (e : Effect)
    → IsConfinedTo user dbs s
    → hears s e ≡ true
    → MayHear dbs user.org_id e
unfolding hears
hears-MayHear user dbs s (save_raw imei) c h = absurd (ground (arith, h))
hears-MayHear user dbs s (save_point v r) c h = absurd (ground (arith, h))
hears-MayHear user dbs s (save_latest v r) c h = absurd (ground (arith, h))
hears-MayHear user dbs s (send_alert imei alert) c h = absurd (ground (arith, h))
hears-MayHear user dbs s (emit_to_vehicle v r) c h =
    vehicle_room-IsAllowed dbs user.org_id v (is_in-IsAllowed user dbs s (vehicle_room v) c h)
hears-MayHear user dbs s (emit_to_org o r) c h =
    org_room-IsAllowed dbs user.org_id o (is_in-IsAllowed user dbs s (org_room o) c h)

-- In whatever order the events of a client, the answers of the database, their handlers and the
-- changes of the vehicles come: a socket that was opened with a token of a user who is not a
-- superadmin hears the positions of no organization but the user's own, and of a vehicle only if the
-- vehicle belonged to the user's organization, or to a child of it, now or at an earlier time since
-- the socket was opened.
pub Reach-MayHear :
    (verify : Text → Verified) (auth query : Option Text) (s : ClientSocket) (db : Database)
    {w : World}
    → accept verify auth query ≡ some s
    → is_superadmin s.user ≡ false
    → Reach (start s db) w
    → (e : Effect) → hears w.socket e ≡ true
    → MayHear (databases w) s.user.org_id e
unfolding start
Reach-MayHear verify auth query s db {w} opened ordinary r e h =
    let kept =
      Reach-Kept s.user ordinary r (accept-IsConfinedTo verify auth query s (db ∷ []) opened) in
    hears-MayHear s.user (databases w) w.socket e kept h
