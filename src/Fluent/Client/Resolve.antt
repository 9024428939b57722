-- ===== src/Fluent/Client/Resolve.antt =====
-- fluent/fluent.go: the address that `connect` dials. `net.SplitHostPort`, `net.LookupHost`, a
-- random number below its argument and `net.DialTimeout` are parameters.
use fluent_agent_hydra.Prelude.{
  ℕ, zero, suc, ◌<◌, ◌≡◌, refl, ap, ◌∙◌, Bool, false, ◌||◌, Option, none, some, List, [], ◌∷◌, ◌++◌,
  Bytes, ◌==◌, if◌then◌else◌, length, get_elem?, arith,
}
use fluent_agent_hydra.Fluent.Client.{
  Client, Attempt, unresolved, no_address, refused, connected, connect,
}

-- `strings.Contains(s, ":")`
unfoldable pub contains_colon : Bytes → Bool
contains_colon [] = false
contains_colon (c ∷ s) = (c == b':') || contains_colon s

-- `fmt.Sprintf(format, addr, port)`, with the format that fits the address.
unfoldable pub resolved_address : Bytes → Bytes → Bytes
unfolding contains_colon
resolved_address addr port =
    if contains_colon addr
    then (b'[' ∷ addr) ++ ((b']' ∷ (b':' ∷ [])) ++ port)
    else addr ++ ((b':' ∷ []) ++ port)

abbrev pub attempted : Option ℕ → Attempt
attempted none = refused
attempted (some c) = connected c

module _ (split_host_port : Bytes → Option (Bytes × Bytes))
    (lookup_host : Bytes → Option (List Bytes)) (intn : ℕ → ℕ) (dial : Bytes → Option ℕ) where
  -- `addrs[n]`; an index out of range, which does not occur, is no address.
  abbrev pub dialled : Option Bytes → Bytes → Attempt
  dialled none port = no_address
  dialled (some addr) port = attempted (dial (resolved_address addr port))

  abbrev pub looked_up : Option (List Bytes) → Bytes → Attempt
  looked_up none port = unresolved
  looked_up (some []) port = no_address
  looked_up (some (a ∷ addrs)) port =
      dialled (get_elem? (a ∷ addrs) (intn (length (a ∷ addrs)))) port

  -- How `connect` to the server ends.
  unfoldable pub attempt_of : Bytes → Attempt
  unfolding resolved_address
  attempt_of server = elim (split_host_port server) [
    | none ↦ unresolved
    | some (host, port) ↦ looked_up (lookup_host host) port
  ]

  get_elem?-in_range :
      (addrs : List Bytes) (i : ℕ)
      → i < length addrs
      → (addr : Bytes) × (get_elem? addrs i ≡ some addr)
  get_elem?-in_range [] i h = absurd (omega arith)
  get_elem?-in_range (a ∷ addrs) zero h = (a, refl)
  get_elem?-in_range (a ∷ addrs) (suc i) h = get_elem?-in_range addrs i (omega arith)

  -- When the host has addresses, `connect` dials one of them, with the port of the server, in
  -- brackets if it has a colon; what it returns and what the client has then is what the dial
  -- gives: the connection and no error, or no connection and the error.
  pub connect-dials :
      (f : Client) (host port a : Bytes) (addrs : List Bytes)
      → ((n : ℕ) → intn (suc n) < suc n)
      → split_host_port f.config.server ≡ some (host, port)
      → lookup_host host ≡ some (a ∷ addrs)
      → (addr : Bytes) × ((i : ℕ) × (get_elem? (a ∷ addrs) i ≡ some addr))
        × ((connect f (attempt_of f.config.server)).0.conn ≡ dial (resolved_address addr port))
  unfolding attempt_of
  connect-dials f host port a addrs below split found =
      let i = intn (length (a ∷ addrs)) in
      let (addr, at) = get_elem?-in_range (a ∷ addrs) i (below (length addrs)) in
      let attempt : attempt_of f.config.server ≡ attempted (dial (resolved_address addr port)) =
        rw (attempt_of, split, found, at) refl in
      (
        addr,
        (i, at),
        ap (λ t. (connect f t).0.conn) attempt ∙ outcome (dial (resolved_address addr port)),
      )
    where
      outcome : (o : Option ℕ) → (connect f (attempted o)).0.conn ≡ o
      outcome none = unfold connect in refl
      outcome (some c) = unfold connect in refl
