-- ===== src/Hydra/OutForward/Failover.antt =====
-- hydra/out_forward.go: the server that a record set goes to.
use fluent_agent_hydra.Prelude.{
  ℕ, zero, suc, ◌<◌, ◌≡◌, refl, sym, ap, ◌≢◌, Bool, false, ◌&&◌, not, Option, none, some, List, [],
  ◌∷◌, arith, if◌then◌else◌, length, get_elem?, set, length-set,
}
use fluent_agent_hydra.Fluent.Client.{Client, write_error, reconnecting_error, send, is_connected}
use fluent_agent_hydra.Hydra.OutForward.{OutForward, Network, try_loggers}

-- A logger that takes the bytes: not reconnecting, connected, and its write succeeds.
abbrev pub usable_client : Network → ℕ → Client → Bool
usable_client net i c = not c.reconnecting && (is_connected c.conn && net.write_ok i)

unfoldable pub usable : Network → List Client → ℕ → Bool
usable net cs i = elim (get_elem? cs i) [ none ↦ false | some c ↦ usable_client net i c ]

abbrev pub find : (ℕ → Bool) → List ℕ → Option ℕ
find p [] = none
find p (i ∷ is) = if p i then some i else find p is

-- No index twice, and each below the number of loggers.
abbrev pub NotIn : ℕ → List ℕ → Type 0
NotIn i [] = Unit {0}
NotIn i (j ∷ js) = (i ≢ j) × NotIn i js

abbrev pub AreIndices : ℕ → List ℕ → Type 0
AreIndices n [] = Unit {0}
AreIndices n (i ∷ is) = (i < n) × NotIn i is × AreIndices n is

get_elem?-lt {ℓ} :
    {A : Type ℓ} (xs : List A) (i : ℕ) → i < length xs → (x : A) × (get_elem? xs i ≡ some x)
get_elem?-lt [] i h = elim h [ ]
get_elem?-lt (x ∷ xs) zero h = (x, refl)
get_elem?-lt (x ∷ xs) (suc i) h = get_elem?-lt xs i (omega arith)

get_elem?-set_ne {ℓ} :
    {A : Type ℓ} (xs : List A) (i j : ℕ) (v : A) → i ≢ j → get_elem? (set xs i v) j ≡ get_elem? xs j
get_elem?-set_ne [] i j v h = refl
get_elem?-set_ne (x ∷ xs) zero zero v h = absurd (h refl)
get_elem?-set_ne (x ∷ xs) zero (suc j) v h = refl
get_elem?-set_ne (x ∷ xs) (suc i) zero v h = refl
get_elem?-set_ne (x ∷ xs) (suc i) (suc j) v h = get_elem?-set_ne xs i j v (λ e. h (ap suc e))

usable-set_ne :
    (net : Network) (cs : List Client) (i j : ℕ) (c : Client)
    → i ≢ j
    → usable net (set cs i c) j ≡ usable net cs j
unfolding usable
usable-set_ne net cs i j c h = rw (get_elem?-set_ne cs i j c h, usable)

find-set :
    (net : Network) (cs : List Client) (i : ℕ) (c : Client) (is : List ℕ)
    → NotIn i is
    → find (usable net (set cs i c)) is ≡ find (usable net cs) is
find-set net cs i c [] h = refl
find-set net cs i c (j ∷ js) h = rw (usable-set_ne net cs i j c h.0, find-set net cs i c js h.1)

usable_at :
    (net : Network) (cs : List Client) (i : ℕ) (c : Client)
    → get_elem? cs i ≡ some c
    → usable net cs i ≡ usable_client net i c
unfolding usable
usable_at net cs i c e = rw (e, usable)

-- `Send` succeeds exactly when there is a connection and the write succeeds.
send-result :
    (c : Client) (ok : Bool)
    → (send c ok).1 ≡ (
        if is_connected c.conn && ok
        then none
        else some (if is_connected c.conn then write_error else reconnecting_error))
unfolding send
send-result c ok = ground arith

AreIndices-length : {m n : ℕ} (is : List ℕ) → m ≡ n → AreIndices m is → AreIndices n is
AreIndices-length [] e h = tt
AreIndices-length (i ∷ is) e (a, b, c) = (omega arith, b, AreIndices-length is e c)

-- One pass over distinct indices of loggers gives the record set to the first in the order that is connected,
-- not reconnecting and whose write succeeds, and to none if there is no such logger.
pub try_loggers_lem :
    (net : Network) (is : List ℕ) (s : OutForward)
    → AreIndices (length s.loggers) is
    → (try_loggers net is s).1 ≡ find (usable net s.loggers) is
unfolding try_loggers
try_loggers_lem net [] s h = refl
try_loggers_lem net (i ∷ is) s (lt, fresh, h) =
    let (c, e) = get_elem?-lt s.loggers i lt in
    let c' = (send c (net.write_ok i)).0 in
    let s' = record s { loggers = set s.loggers i c' } in
    let h' = AreIndices-length is (sym (length-set s.loggers i c')) h in
    rw (e, try_loggers)
      (ground (
        arith,
        usable_at net s.loggers i c e,
        send-result c (net.write_ok i),
        try_loggers_lem net is s h,
        try_loggers_lem net is s' h',
        find-set net s.loggers i c' is fresh,
      ))
