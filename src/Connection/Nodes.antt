-- ===== src/Connection/Nodes.antt =====
-- Which broker node a socket dials next, connection.go: dialAddrs, dialOrder and nextDialAddr; and which
-- socket a consumer is pinned to, internal/connpool/pool.go.
--
-- The shuffle draws from math/rand, so the order of a socket is a parameter; so is the FNV-1a sum of a tag.
use warren.Prelude.{
  bytes_Eq, ℕ, zero, suc, ◌+◌, ◌%◌, ◌<◌, String, ◌≡◌, refl, sym, ap, ◌∙◌, Option, some, List, [],
  ◌∷◌, arith, leb, if◌then◌else◌, nat_Eq, string_Eq, length, get_elem?, if_both,
}
use native.Mathlib.Nat.{mod-lt, mod-eq_of_lt, mod-add-mod}

unfoldable pub dial_addrs : List String → String → List String
dial_addrs [] addr = addr ∷ []
dial_addrs (a ∷ addrs) addr = a ∷ addrs

-- nextDialAddr: the address under the cursor and the cursor after it. The address is `none` where Go would
-- panic.
unfoldable pub next_dial_addr : List String → ℕ → Option String × ℕ
next_dial_addr order cursor = (get_elem? order cursor, (cursor + 1) % length order)

-- The first dials of a socket.
unfoldable pub dials : List String → ℕ → ℕ → List (Option String)
unfolding next_dial_addr
dials order cursor zero = []
dials order cursor (suc n) =
    (next_dial_addr order cursor).0 ∷ dials order (next_dial_addr order cursor).1 n

-- PinIndex; int(h.Sum32()) is not negative where int has 64 bits.
unfoldable pub pin_index : (String → ℕ) → String → ℕ → ℕ
pin_index sum tag n = if leb n 1 then 0 else sum tag % n

get_elem?-in : (xs : List String) (i : ℕ) → i < length xs → (a : String) × (get_elem? xs i ≡ some a)
get_elem?-in [] i lt = absurd (omega (arith, lt))
get_elem?-in (x ∷ xs) zero lt = (x, refl)
get_elem?-in (x ∷ xs) (suc i) lt = get_elem?-in xs i (omega (arith, lt))

walk_from :
    (order : List String) (cursor n j : ℕ)
    → cursor < length order
    → j < n
    → get_elem? (dials order cursor n) j ≡ some (get_elem? order ((cursor + j) % length order))
unfolding dials next_dial_addr
walk_from order cursor zero j lt jn = absurd (omega (arith, jn))
walk_from order cursor (suc n) zero lt jn =
    ap (λ k. some (get_elem? order k))
      (sym (mod-eq_of_lt lt) ∙ ap (λ k. k % length order) (omega arith))
walk_from order cursor (suc n) (suc j) lt jn =
    walk_from order ((cursor + 1) % length order) n j (mod-lt (cursor + 1) (omega arith))
      (omega arith)
    ∙ ap (λ k. some (get_elem? order k))
        (mod-add-mod (cursor + 1) (length order) j ∙ ap (λ k. k % length order) (omega arith))

-- The dials of a socket go round its order from the cursor on: the j-th of them takes the address j places
-- further, with the end joined to the start, an address that exists; so any n dials in a row reach every
-- place of an order of n. The cursor stays inside the order.
pub dials_lem :
    (order : List String) (cursor n j : ℕ)
    → cursor < length order
    → j < n
    → (a : String) × (get_elem? (dials order cursor n) j ≡ some (some a))
      × (get_elem? order ((cursor + j) % length order) ≡ some a)
      × ((next_dial_addr order cursor).1 < length order)
unfolding next_dial_addr
dials_lem order cursor n j lt jn =
    let found =
      get_elem?-in order ((cursor + j) % length order) (mod-lt (cursor + j) (omega arith)) in
    (
      found.0,
      walk_from order cursor n j lt jn ∙ ap some found.1,
      found.1,
      mod-lt (cursor + 1) (omega arith),
    )

-- A consumer is pinned to a socket of the pool, whatever the hash of its tag is.
pub pin_index-bounds : (sum : String → ℕ) (tag : String) (n : ℕ) → 0 < n → pin_index sum tag n < n
unfolding pin_index
pin_index-bounds sum tag n some_socket =
    if_both (λ i. i < n) (leb n 1) 0 (sum tag % n) (omega arith) (mod-lt (sum tag) some_socket)
