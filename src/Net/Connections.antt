-- ===== src/Net/Connections.antt =====
-- The table of connections of src/net.c.
use evil_engine.Base.{
  ℕ, ◌+◌, ◌%◌, ◌^◌, ◌⊎◌, ◌≤◌, ◌<◌, ◌≡◌, ◌≢◌, refl, arith, Bool, true, false, Option, none, some,
  ◌==◌, update, inl, inr, Bool-cases, clash, Option-cases, find_first, find_first-some,
  find_first-none,
}
use evil_engine.Net.{
  Address, Connection, Connections, same_address, max_connections, create_connection,
  find_or_create_connection, cleared,
}

-- No address has two connections.
abbrev pub IsDistinct : Connections → Type 0
IsDistinct cs =
    (i j : ℕ)
    → i < max_connections
    → j < max_connections
    → (cs i).address.port ≢ 0
    → same_address (cs i).address (cs j).address ≡ true
    → i ≡ j

-- The three ways a lookup can end.
data Lookup (address : Address) (now : ℕ) (cs : Connections) : Option ℕ × Connections → Type 0 where
  known :
      (k : ℕ)
      → k < max_connections
      → same_address (cs k).address address ≡ true
      → Lookup address now cs (some k, cs)
  fresh :
      (k : ℕ)
      → k < max_connections
      → ((j : ℕ) → j < max_connections → same_address (cs j).address address ≡ false)
      → (cs k).address.port ≡ 0
      → Lookup address now cs (some k, update cs k (create_connection address now (cs k)))
  full :
      ((j : ℕ) → j < max_connections → (cs j).address.port ≢ 0) → Lookup address now cs (none, cs)

lookup :
    (address : Address) (now : ℕ) (cs : Connections)
    → Lookup address now cs (find_or_create_connection address now cs)
unfolding find_or_create_connection
lookup address now cs =
    let test : ℕ → Bool = λ i. same_address (cs i).address address in
    let free : ℕ → Bool = λ i. (cs i).address.port == 0 in
    elim (Option-cases (find_first test max_connections 0)) [
      | inr (k, found) ↦
          let f = find_first-some test max_connections 0 found in
          rw (find_or_create_connection, found) (known k f.below f.passes)
      | inl absent ↦ elim (Option-cases (find_first free max_connections 0)) [
        | inr (k, found) ↦
            let f = find_first-some free max_connections 0 found in
            rw (find_or_create_connection, absent, found)
              (fresh k f.below
                (λ j h. find_first-none test max_connections 0 j absent (omega arith) h)
                (ground (arith, f.passes)))
        | inl none_free ↦
            rw (find_or_create_connection, absent, none_free)
              (full (λ j h z.
                ground (arith, find_first-none free max_connections 0 j none_free (omega arith) h)))
      ]
    ]

same_address_sym : (a b : Address) → same_address a b ≡ true → same_address b a ≡ true
same_address_sym a b h = ground arith

-- A connection with a new address in slot `k`.
IsDistinct-added :
    (cs : Connections) (c : Connection) (k : ℕ)
    → IsDistinct cs
    → ((j : ℕ) → j < max_connections → same_address (cs j).address c.address ≡ false)
    → IsDistinct (update cs k c)
IsDistinct-added cs c k d unseen i j p q used same = elim (Bool-cases (k == i)) [
  | inl at_i ↦ elim (Bool-cases (k == j)) [
    | inl at_j ↦ ground arith
    | inr off_j ↦
        let here : same_address c.address (cs j).address ≡ true = rw (at_i, off_j) at same in
        absurd (clash (same_address_sym c.address (cs j).address here) (unseen j q))
  ]
  | inr off_i ↦ elim (Bool-cases (k == j)) [
    | inl at_j ↦
        let here : same_address (cs i).address c.address ≡ true = rw (off_i, at_j) at same in
        absurd (clash here (unseen i p))
    | inr off_j ↦ d i j p q (rw (off_i) at used) (rw (off_i, off_j) at same)
  ]
]

distinct :
    {address : Address} {now : ℕ} {cs : Connections} {r : Option ℕ × Connections}
    → address.port ≢ 0
    → IsDistinct cs
    → Lookup address now cs r
    → IsDistinct r.1
unfolding create_connection
distinct port d (known k below found) = d
distinct {address} {now} {cs} port d (fresh k below unseen free) =
    IsDistinct-added cs (create_connection address now (cs k)) k d unseen
distinct port d (full used) = d

-- What the caller of `find_or_create_connection` gets.
pub record Connected (address : Address) (cs : Connections) (r : Option ℕ × Connections)
    : Type 0 where
  pub one_each : IsDistinct r.1
  pub found :
      (i : ℕ) → r.0 ≡ some i → (i < max_connections) × (same_address (r.1 i).address address ≡ true)
  pub others : (i j : ℕ) → r.0 ≡ some i → (i == j) ≡ false → r.1 j ≡ cs j
  pub refused : r.0 ≡ none → (r.1 ≡ cs) × ((j : ℕ) → j < max_connections → (cs j).address.port ≢ 0)

refl_address : (a : Address) → same_address a a ≡ true
refl_address a = ground arith

connected :
    {address : Address} {now : ℕ} {cs : Connections} {r : Option ℕ × Connections}
    → IsDistinct r.1
    → Lookup address now cs r
    → Connected address cs r
unfolding create_connection
connected {address} {now} {cs} d (known k below found) = record {
  one_each = d;
  found = λ i e. let same : k ≡ i = cc in (rw (← same) below, rw (← same) found);
  others = λ i j e miss. refl;
  refused = λ e. absurd cc;
}
connected {address} {now} {cs} d (fresh k below unseen free) = record {
  one_each = d;
  found = λ i e.
      let same : k ≡ i = cc in
      let at_k : (k == i) ≡ true = ground arith in
      (rw (← same) below, rw (at_k) (refl_address address));
  others = λ i j e miss.
      let same : k ≡ i = cc in let off : (k == j) ≡ false = rw (same) miss in rw (off) refl;
  refused = λ e. absurd cc;
}
connected {address} {now} {cs} d (full used) = record {
  one_each = d;
  found = λ i e. absurd cc;
  others = λ i j e miss. refl;
  refused = λ e. (refl, used);
}

-- For an address with a port, in a table where no address has two connections:
-- `find_or_create_connection` keeps it so; a slot that it gives is one of the three and has that
-- address, and no other slot changes; and where it gives none, the table is unchanged and every slot
-- of it is in use.
pub find_or_create_connection_lem :
    (address : Address) (now : ℕ) (cs : Connections)
    → address.port ≢ 0
    → IsDistinct cs
    → Connected address cs (find_or_create_connection address now cs)
find_or_create_connection_lem address now cs port d =
    let l = lookup address now cs in connected (distinct port d l) l

-- A slot after `timeout_old_connections`: cleared if it was in use and more than 5000 ms have passed since
-- it was heard of, and otherwise as it was.
abbrev pub TimedOut : ℕ → Connection → Connection → Type 0
TimedOut now c c' =
    ((c.address.port ≢ 0)
      × ((c.last_recv_ms + 5000) % 2 ^ 32 < now)
      × (c'.address.port ≡ 0)
      × (c' ≡ cleared))
    ⊎ (((c.address.port ≡ 0) ⊎ (now ≤ (c.last_recv_ms + 5000) % 2 ^ 32)) × (c' ≡ c))
