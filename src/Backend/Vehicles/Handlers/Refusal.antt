-- ===== src/Backend/Vehicles/Handlers/Refusal.antt =====
-- What the early returns of a handler leave to it.
use fueltracks.Prelude.{
  ◌≡◌, inl, inr, refl, subst, Bool, true, false, none, some, List, [], ◌∷◌, All, arith,
  Option-cases,
}
use fueltracks.Backend.Vehicles.{Registry, Reply, refusal}
use fueltracks.Backend.Vehicles.Handlers.{unless}

refusal-none :
    (tests : List (Bool × Reply))
    → refusal tests ≡ none
    → All (λ (t : Bool × Reply). t.0 ≡ false) tests
unfolding refusal
refusal-none [] h = tt
refusal-none ((true, reply) ∷ tests) h = absurd (ground (arith, h))
refusal-none ((false, reply) ∷ tests) h = (refl, refusal-none tests h)

some_reply : (a b : Reply) → some a ≡ some b → a ≡ b
some_reply a b e = ground (arith, e)

refusal-some :
    (P : Reply → Type 0) (tests : List (Bool × Reply)) (reply : Reply)
    → All (λ (t : Bool × Reply). P t.1) tests
    → refusal tests ≡ some reply
    → P reply
unfolding refusal
refusal-some P [] reply h e = absurd (ground (arith, e))
refusal-some P ((true, other) ∷ tests) reply h e = subst P (some_reply other reply e) h.0
refusal-some P ((false, other) ∷ tests) reply h e = refusal-some P tests reply h.1 e

-- What holds with each answer, and of the act where no test holds, holds of both together.
pub unless-holds :
    (P : Reply × Registry → Type 0) (tests : List (Bool × Reply)) (reg : Registry)
    (acted : Reply × Registry)
    → All (λ (t : Bool × Reply). P (t.1, reg)) tests
    → (All (λ (t : Bool × Reply). t.0 ≡ false) tests → P acted)
    → P (unless tests reg acted)
unfolding unless
unless-holds P tests reg acted h k = elim (Option-cases (refusal tests)) [
  | inl e ↦ rw (unless, e) (k (refusal-none tests e))
  | inr (reply, e) ↦ rw (unless, e) (refusal-some (λ r. P (r, reg)) tests reply h e)
]
