-- ===== src/Server/Caps/Laws.antt =====
-- The counts follow the sockets and stay within the caps.
use fueltracks.Prelude.{ℕ, ◌+◌, ◌-◌, ◌≤◌, ◌≡◌, ◌≢◌, List, [], ◌∷◌, if◌then◌else◌, arith}
use fueltracks.Js.Text.{Text, equal}
use fueltracks.Js.Map
use fueltracks.Js.Map.{Map, equal_iff, map_laws, get-empty, get-set, get-delete}
use fueltracks.Server.Caps.{
  Config, Counts, count, try_accept_connection, release_connection, track_imei_socket,
  release_imei_socket,
}

pub count-set :
    (m : Map ℕ) (k j : Text) (n : ℕ)
    → count (Map.set m k n) j ≡ (if equal k j then n else count m j)
unfolding count
count-set m k j n = ground (arith, get-set m k j n)

pub count-delete :
    (m : Map ℕ) (k j : Text) → count (Map.delete m k) j ≡ (if equal k j then 0 else count m j)
unfolding count
count-delete m k j = ground (arith, get-delete m k j)

pub count-empty : (k : Text) → count Map.empty k ≡ 0
unfolding count
count-empty k = ground (arith, get-empty {V = ℕ} k)

-- Every count is within its cap.
pub record IsWithin (config : Config) (counts : Counts) : Type 0 where
  pub ports_within : (p : Text) → config.port_cap p ≢ 0 → count counts.ports p ≤ config.port_cap p
  pub imeis_within : (i : Text) → count counts.imeis i ≤ config.per_imei_cap

-- The calls that the sockets of the server make.
pub data Call : Type 0 where
  accept release track untrack : Text → Call

abbrev pub call : Config → Counts → Call → Counts
call config counts (accept p) = (try_accept_connection config counts p).1
call config counts (release p) = release_connection counts p
call config counts (track i) = (track_imei_socket config counts i).1
call config counts (untrack i) = release_imei_socket counts i

abbrev pub calls : Config → Counts → List Call → Counts
calls config counts [] = counts
calls config counts (c ∷ cs) = calls config (call config counts c) cs

accept-IsWithin :
    (config : Config) (counts : Counts) (p : Text)
    → IsWithin config counts
    → IsWithin config (try_accept_connection config counts p).1
unfolding try_accept_connection
accept-IsWithin config counts p w = record {
  ports_within = λ q h. ground (
    arith,
    count-set counts.ports p q (count counts.ports p + 1),
    equal_iff p q,
    w.ports_within q h,
  );
  imeis_within = λ i. ground (arith, w.imeis_within i);
}

release-IsWithin :
    (config : Config) (counts : Counts) (p : Text)
    → IsWithin config counts
    → IsWithin config (release_connection counts p)
unfolding release_connection
release-IsWithin config counts p w = record {
  ports_within = λ q h. ground (
    arith,
    count-set counts.ports p q (count counts.ports p - 1),
    equal_iff p q,
    w.ports_within q h,
  );
  imeis_within = λ i. ground (arith, w.imeis_within i);
}

track-IsWithin :
    (config : Config) (counts : Counts) (i : Text)
    → IsWithin config counts
    → IsWithin config (track_imei_socket config counts i).1
unfolding track_imei_socket
track-IsWithin config counts [] w = w
track-IsWithin config counts (c ∷ cs) w = record {
  ports_within = λ q h. ground (arith, w.ports_within q h);
  imeis_within = λ j. ground (
    arith,
    count-set counts.imeis (c ∷ cs) j (count counts.imeis (c ∷ cs) + 1),
    w.imeis_within j,
  );
}

untrack-IsWithin :
    (config : Config) (counts : Counts) (i : Text)
    → IsWithin config counts
    → IsWithin config (release_imei_socket counts i)
unfolding release_imei_socket
untrack-IsWithin config counts [] w = w
untrack-IsWithin config counts (c ∷ cs) w = record {
  ports_within = λ q h. ground (arith, w.ports_within q h);
  imeis_within = λ j. ground (
    arith,
    count-set counts.imeis (c ∷ cs) j (count counts.imeis (c ∷ cs) - 1),
    count-delete counts.imeis (c ∷ cs) j,
    w.imeis_within j,
    w.imeis_within (c ∷ cs),
  );
}

call-IsWithin :
    (config : Config) (counts : Counts) (c : Call)
    → IsWithin config counts
    → IsWithin config (call config counts c)
call-IsWithin config counts (accept p) w = accept-IsWithin config counts p w
call-IsWithin config counts (release p) w = release-IsWithin config counts p w
call-IsWithin config counts (track i) w = track-IsWithin config counts i w
call-IsWithin config counts (untrack i) w = untrack-IsWithin config counts i w

-- Whatever calls the sockets make, in whatever order, from counts within the caps: no port that has a
-- cap and no IMEI ever counts more sockets than its cap.
pub calls-IsWithin :
    (config : Config) (counts : Counts) (cs : List Call)
    → IsWithin config counts
    → IsWithin config (calls config counts cs)
calls-IsWithin config counts [] w = w
calls-IsWithin config counts (c ∷ cs) w =
    calls-IsWithin config (call config counts c) cs (call-IsWithin config counts c w)
