-- ===== src/Server/Admission/Limits.antt =====
-- server/src/main.rs: the limits on connections hold, and a refusal has a limit as its reason.
use quicfs.Base.{
  ℕ, zero, suc, ◌+◌, ◌-◌, ◌%◌, ◌^◌, ◌≤◌, ◌<◌, max, ◌≡◌, refl, ◌∙◌, ◌⊎◌, inl, inr, Bool, true, false,
  ◌&&◌, ◌||◌, Option, none, some, List, [], ◌∷◌, ltb, ◌==◌, if◌then◌else◌, length, Map, lookup,
  insert, lookup-insert, lookup-without, arith, Option-cases, Bool-cases,
}
use quicfs.Server.Admission.{
  Config, validate, or_zero, try_acquire, release_slot, Admission, no_connections, with_slot,
  accept, nth, remove_nth, ended, Event, arrives, ends, accept_loop,
}

-- How many connections of an address live.
unfoldable pub count : ℕ → List ℕ → ℕ
count ip [] = 0
count ip (x ∷ xs) = (if x == ip then 1 else 0) + count ip xs

-- The entry of an address that has so many connections.
abbrev entry : ℕ → Option ℕ
entry n = if n == 0 then none else some n

count-le : (ip : ℕ) (xs : List ℕ) → count ip xs ≤ length xs
unfolding count
count-le ip [] = omega arith
count-le ip (x ∷ xs) = ground (arith, count-le ip xs)

or_zero-entry : (n : ℕ) → or_zero (entry n) ≡ n
or_zero-entry n = ground arith

-- An address with so many connections may have one more.
abbrev pub below_cap : ℕ → ℕ → Bool
below_cap cap n = cap == 0 || ltb n cap

-- The permits are those that are left, the counts are those of the connections, and no address has more
-- than the cap.
abbrev pub IsValid : ℕ → ℕ → Admission → Type 0
IsValid clients cap s =
    (s.conn_slots + length s.live ≡ clients)
    × ((ip : ℕ) → lookup ip s.ip_counts ≡ entry (count ip s.live))
    × ((ip : ℕ) → (cap ≡ 0) ⊎ (count ip s.live ≤ cap))

module _ (clients cap : ℕ) (word : clients < 2 ^ 32) where
  -- A slot is given below the cap only, and counted.
  acquired :
      (ip : ℕ) (m : Map ℕ) (n : ℕ)
      → n < 2 ^ 32 - 1
      → lookup ip m ≡ entry n
      → ((try_acquire ip cap m).1 ≡ below_cap cap n)
        × ((j : ℕ)
            → lookup j (try_acquire ip cap m).0
              ≡ (if ip == j then entry (if below_cap cap n then suc n else n) else lookup j m))
  unfolding try_acquire
  acquired ip m n small e =
      let counted : or_zero (lookup ip m) ≡ n = rw e (or_zero-entry n) in
      let entered : Map ℕ = insert ip n m in
      let added : (n + 1) % 2 ^ 32 ≡ suc n = omega arith in
      rw (counted, added)
        (
          ground arith,
          λ j. ground (
            arith,
            lookup-insert ip j n m,
            lookup-insert ip j (suc n) entered,
            lookup-without ip j entered,
          ),
        )

  released :
      (ip : ℕ) (m : Map ℕ) (n : ℕ)
      → lookup ip m ≡ entry (suc n)
      → (j : ℕ) → lookup j (release_slot ip m) ≡ (if ip == j then entry n else lookup j m)
  unfolding release_slot
  released ip m n e j =
      let found : lookup ip m ≡ some (suc n) = e ∙ ground arith in
      let less : suc n - 1 ≡ n = omega arith in
      rw (found, release_slot, less)
        (ground (arith, lookup-without ip j (insert ip n m), lookup-insert ip j n m))

  with_slot-IsValid :
      (ip : ℕ) (s : Admission) (r : Map ℕ × Bool)
      → IsValid clients cap s
      → ((s.conn_slots == 0) ≡ false)
      → r.1 ≡ below_cap cap (count ip s.live)
      → ((j : ℕ)
          → lookup j r.0 ≡ (
              if ip == j
              then entry (
                  if below_cap cap (count ip s.live)
                  then suc (count ip s.live)
                  else count ip s.live)
              else lookup j s.ip_counts))
      → IsValid clients cap (with_slot ip r s).0 × ((with_slot ip r s).1 ≡ r.1)
  unfolding count
  with_slot-IsValid ip s (m, false) (slots, counts, capped) left given entries =
      ((slots, λ j. ground (arith, given, entries j, counts j, counts ip), capped), refl)
  with_slot-IsValid ip s (m, true) (slots, counts, capped) left given entries = (
    (
      ground (arith, slots, left),
      λ j. ground (arith, given, entries j, counts j),
      λ j. ground (arith, given, capped j),
    ),
    refl,
  )

  accept-IsValid :
      (ip : ℕ) (s : Admission)
      → IsValid clients cap s
      → IsValid clients cap (accept cap ip s).0
        × ((accept cap ip s).1 ≡ (ltb (length s.live) clients && below_cap cap (count ip s.live)))
  unfolding accept
  accept-IsValid ip s h = elim (Bool-cases (s.conn_slots == 0)) [
    | inl full ↦ rw (full, accept) (h, ground (arith, h.0))
    | inr left ↦
        let small : count ip s.live < 2 ^ 32 - 1 = ground (arith, count-le ip s.live, h.0) in
        let (given, entries) = acquired ip s.ip_counts (count ip s.live) small (h.1 ip) in
        let (valid, same) =
          with_slot-IsValid ip s (try_acquire ip cap s.ip_counts) h left given entries in
        rw (left, accept) (valid, same ∙ given ∙ ground (arith, h.0))
  ]

  count-remove_nth :
      (i ip : ℕ) (xs : List ℕ)
      → nth i xs ≡ some ip
      → (length xs ≡ suc (length (remove_nth i xs)))
        × ((j : ℕ) → count j xs ≡ (if ip == j then 1 else 0) + count j (remove_nth i xs))
  unfolding count
  count-remove_nth i ip [] h = absurd (cc)
  count-remove_nth zero ip (x ∷ xs) h = ground arith
  count-remove_nth (suc i) ip (x ∷ xs) h =
      let (len, counts) = count-remove_nth i ip xs h in
      (omega (arith, len), λ j. omega (arith, counts j))

  ended-IsValid : (i : ℕ) (s : Admission) → IsValid clients cap s → IsValid clients cap (ended i s)
  unfolding ended
  ended-IsValid i s (slots, counts, capped) = elim (Option-cases (nth i s.live)) [
    | inl e ↦ rw (e, ended) (slots, counts, capped)
    | inr (ip, e) ↦
        let (len, removed) = count-remove_nth i ip s.live e in
        let own : lookup ip s.ip_counts ≡ entry (suc (count ip (remove_nth i s.live))) =
          ground (arith, counts ip, removed ip) in
        rw (e, ended)
          (
            omega (arith, slots, len),
            λ j. ground (
              arith,
              released ip s.ip_counts (count ip (remove_nth i s.live)) own j,
              counts j,
              removed j,
            ),
            λ j. ground (arith, capped j, removed j),
          )
  ]

  accept_loop-IsValid :
      (events : List Event) (s : Admission)
      → IsValid clients cap s
      → IsValid clients cap (accept_loop cap events s)
  unfolding accept_loop
  accept_loop-IsValid [] s h = h
  accept_loop-IsValid (arrives ip ∷ events) s h =
      accept_loop-IsValid events (accept cap ip s).0 (accept-IsValid ip s h).0
  accept_loop-IsValid (ends i ∷ events) s h =
      accept_loop-IsValid events (ended i s) (ended-IsValid i s h)

some_clients : (cfg : Config) → validate cfg ≡ none → max cfg.max_clients 1 ≡ cfg.max_clients
unfolding validate
some_clients cfg h = elim (Bool-cases (cfg.max_clients == 0)) [
  | inl e ↦ absurd (cc (rw (e, validate) at h))
  | inr e ↦ ground arith
]

-- With a configuration that is accepted, whichever connections arrive and end and in whichever order:
-- never more of them live than `max_clients`, never more from one address than `max_conns_per_ip`,
-- unless it is 0, and the next connection is let in exactly if both limits leave room for it. So the
-- counts of connections that have ended are given back.
pub served_within :
    (cfg : Config) (events : List Event)
    → cfg.max_clients < 2 ^ 32
    → validate cfg ≡ none
    → let s : Admission = accept_loop cfg.max_conns_per_ip events (no_connections cfg) in
      (length s.live ≤ cfg.max_clients)
      × ((ip : ℕ) → (cfg.max_conns_per_ip ≡ 0) ⊎ (count ip s.live ≤ cfg.max_conns_per_ip))
      × ((ip : ℕ)
          → (accept cfg.max_conns_per_ip ip s).1 ≡ (
              ltb (length s.live) cfg.max_clients
              && below_cap cfg.max_conns_per_ip (count ip s.live)))
unfolding no_connections count lookup
served_within cfg events word valid =
    let cap : ℕ = cfg.max_conns_per_ip in
    let first : IsValid cfg.max_clients cap (no_connections cfg) =
      (omega (arith, some_clients cfg valid), λ ip. ground arith, λ ip. ground arith) in
    let (slots, counts, capped) =
      accept_loop-IsValid cfg.max_clients cap word events (no_connections cfg) first in
    (
      omega (arith, slots),
      capped,
      λ ip.
          (accept-IsValid cfg.max_clients cap word ip (accept_loop cap events (no_connections cfg))
            (slots, counts, capped)).1,
    )
