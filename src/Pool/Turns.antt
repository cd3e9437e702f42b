-- ===== src/Pool/Turns.antt =====
-- Which connection a fetch of crates/rsms-connector/src/pool.rs gives, and that the connections take
-- turns.
use native.Mathlib.Nat.{mod-lt}
use rsms.Common.{
  ℕ, zero, suc, Bool-cases, ◌+◌, ◌%◌, ◌≤◌, ◌<◌, ◌≡◌, refl, sym, ap, subst, ◌∙◌, ◌⊎◌, inl, inr, Bool,
  true, false, none, some, List, [], ◌∷◌, ◌++◌, map, length, take, drop, ◌==◌, All, All-append,
  take-append-drop, Result, ok, err, arith,
}
use rsms.Common.Bytes.{u64_mod}
use rsms.Core.Error.{RsmsError, no_ready_connection}
use rsms.Pool.{
  Connection, AccountConnections, is_available, fetch_loop, or_none_ready,
  fetch_available_connection,
}
use rsms.Pool.Rotation.{find, rotate, elem-drop, take-rotate, loop-find, next_index, drop_last}

-- The loop from its start visits the rotated list.
loop-rotate :
    (test : Connection → Bool) (cs : List Connection) (start : ℕ)
    → 0 < length cs
    → start + length cs ≤ u64_mod
    → fetch_loop test cs start 0 (length cs) ≡ find test (rotate (start % length cs) cs)
loop-rotate test cs start some_left fits =
    let small : start % length cs < length cs = mod-lt start some_left in
    let first : (start + 0) % length cs ≡ start % length cs =
      ap (λ (k : ℕ). k % length cs) (let same : start + 0 ≡ start = omega arith in same) in
    loop-find test cs start 0 (start % length cs) (length cs) first small (omega arith)
      (omega arith)
    ∙ ap (find test) (take-rotate (start % length cs) cs (omega (arith, small)))

find_nothing :
    (test : Connection → Bool) (r : ℕ) (cs : List Connection)
    → length cs ≡ 0
    → find test (rotate r cs) ≡ none
unfolding find
find_nothing test zero [] h = refl
find_nothing test (suc r) [] h = refl
find_nothing test r (c ∷ cs) h = absurd (omega arith)

nothing_fetched :
    (a : AccountConnections)
    → length a.connections ≡ 0
    → (fetch_available_connection a).1 ≡ err no_ready_connection
unfolding fetch_available_connection
nothing_fetched a h =
    let q : (length a.connections == 0) ≡ true = ground (arith, h) in
    rw (q, fetch_available_connection) refl

fetch-next :
    (a : AccountConnections)
    → 0 < length a.connections
    → a.cursor + length a.connections ≤ u64_mod
    → fetch_available_connection a ≡ (
      record a { cursor = (a.cursor + 1) % u64_mod },
      or_none_ready (find is_available (rotate (a.cursor % length a.connections) a.connections)),
    )
unfolding fetch_available_connection
fetch-next a some_left fits =
    let q : (length a.connections == 0) ≡ false = ground (arith, some_left) in
    rw (q, fetch_available_connection)
      (rw (loop-rotate is_available a.connections a.cursor some_left fits) refl)

-- While the cursor does not wrap within one round, a fetch gives the first available connection of the
-- list rotated by the cursor, and the error where there is none.
pub fetch_available_connection-find :
    (a : AccountConnections)
    → a.cursor + length a.connections ≤ u64_mod
    → (fetch_available_connection a).1
      ≡ or_none_ready (find is_available (rotate (a.cursor % length a.connections) a.connections))
fetch_available_connection-find a fits = elim (zero_or_more (length a.connections)) [
  | inl q ↦
      nothing_fetched a q
      ∙ sym (
          ap or_none_ready
            (find_nothing is_available (a.cursor % length a.connections) a.connections q))
  | inr q ↦ ap (λ (r : AccountConnections × Result RsmsError Connection). r.1) (fetch-next a q fits)
]
  where
    zero_or_more : (n : ℕ) → (n ≡ 0) ⊎ (0 < n)
    zero_or_more n = ground arith

find-All :
    (test : Connection → Bool) (cs : List Connection)
    → ((c : Connection) × (find test cs ≡ some c) × (test c ≡ true))
      ⊎ ((find test cs ≡ none) × All (λ c. test c ≡ false) cs)
unfolding find
find-All test [] = inr (refl, tt)
find-All test (c ∷ cs) = elim (Bool-cases (test c)) [
  | inl q ↦ inl (c, rw (q, find) refl, q)
  | inr q ↦ elim (find-All test cs) [
    | inl (d, found, passes) ↦ inl (d, rw (q, find) found, passes)
    | inr (missed, all) ↦ inr (rw (q, find) missed, (q, all))
  ]
]

module _ (P : Connection → Type 0) where
  All_left : (xs ys : List Connection) → All P (xs ++ ys) → All P xs
  All_left [] ys h = tt
  All_left (x ∷ xs) ys h = (h.0, All_left xs ys h.1)

  All_right : (xs ys : List Connection) → All P (xs ++ ys) → All P ys
  All_right [] ys h = h
  All_right (x ∷ xs) ys h = All_right xs ys h.1

  All-rotate : (r : ℕ) (cs : List Connection) → All P (rotate r cs) → All P cs
  All-rotate r cs h = subst (All P) (take-append-drop r cs) (
      All-append P (take r cs) (drop r cs) (All_right (drop r cs) (take r cs) h)
        (All_left (drop r cs) (take r cs) h))

-- While the cursor does not wrap within one round, a fetch gives an available connection, or none of
-- the account's connections is available and the fetch gives the error.
pub fetch_available_connection_complete :
    (a : AccountConnections)
    → a.cursor + length a.connections ≤ u64_mod
    → ((c : Connection) × ((fetch_available_connection a).1 ≡ ok c) × (is_available c ≡ true))
      ⊎ (((fetch_available_connection a).1 ≡ err no_ready_connection)
          × All (λ c. is_available c ≡ false) a.connections)
fetch_available_connection_complete a fits =
    let r = a.cursor % length a.connections in
    let given = fetch_available_connection-find a fits in
    elim (find-All is_available (rotate r a.connections)) [
      | inl (c, found, passes) ↦ inl (c, given ∙ ap or_none_ready found, passes)
      | inr (missed, all) ↦ inr (
        given ∙ ap or_none_ready missed,
        All-rotate (λ c. is_available c ≡ false) r a.connections all,
      )
    ]

-- The fetches that are made one after the other, with their results.
unfoldable pub fetches : ℕ → AccountConnections → List (Result RsmsError Connection)
fetches zero a = []
fetches (suc n) a = (fetch_available_connection a).1 ∷ fetches n (fetch_available_connection a).0

All-drop : (P : Connection → Type 0) (r : ℕ) (cs : List Connection) → All P cs → All P (drop r cs)
All-drop P zero cs h = h
All-drop P (suc r) [] h = h
All-drop P (suc r) (c ∷ cs) h = All-drop P r cs h.1

found_first :
    (cs : List Connection) (c : Connection) (r : ℕ)
    → drop r cs ≡ c ∷ drop (suc r) cs
    → All (λ d. is_available d ≡ true) cs
    → find is_available (rotate r cs) ≡ some c
unfolding find
found_first cs c r dropped all =
    let here =
      subst (λ (l : List Connection). All (λ d. is_available d ≡ true) l) dropped
        (All-drop (λ d. is_available d ≡ true) r cs all) in
    rw dropped (rw (here.0, find) refl)

abbrev at_cursor : List Connection → ℕ → ℕ → AccountConnections
at_cursor cs n k = record { connections = cs; cursor = k; inflight = n }

fetch_turn :
    (cs : List Connection) (n k r : ℕ)
    → k % length cs ≡ r
    → r < length cs
    → All (λ c. is_available c ≡ true) cs
    → suc k + length cs ≤ u64_mod
    → (c : Connection) × (fetch_available_connection (at_cursor cs n k)
        ≡ (at_cursor cs n (suc k), ok c))
      × (drop r cs ≡ c ∷ drop (suc r) cs)
fetch_turn cs n k r at small all fits =
    let (c, got, dropped) = elem-drop cs r small in
    let later : (k + 1) % u64_mod ≡ suc k = omega arith in
    (
      c,
      fetch-next (at_cursor cs n k) (omega arith) (omega arith)
          ∙ rw (at, later) (rw (found_first cs c r dropped all) refl),
      dropped,
    )

map-drop :
    (cs back : List Connection) (c : Connection) (r left : ℕ)
    → drop r cs ≡ c ∷ drop (suc r) cs
    → (rest : List (Result RsmsError Connection))
    → rest ≡ map ok (take left (drop (suc r) cs ++ back))
    → ok c ∷ rest ≡ map ok (take (suc left) (drop r cs ++ back))
map-drop cs back c r left dropped rest e = rw dropped (ap (◌∷◌ (ok c)) e)

turns :
    (cs : List Connection) (n k r left : ℕ)
    → k % length cs ≡ r
    → r < length cs
    → All (λ c. is_available c ≡ true) cs
    → left ≤ length cs
    → k + left + length cs ≤ u64_mod
    → fetches left (at_cursor cs n k) ≡ map ok (take left (drop r cs ++ cs))
unfolding fetches
turns cs n k r zero at small all few fits = refl
turns cs n k r (suc left) at small all few fits =
    let (c, fetched, dropped) = fetch_turn cs n k r at small all (omega arith) in
    let later : fetches left (at_cursor cs n (suc k)) ≡ map ok (take left (drop (suc r) cs ++ cs)) =
      elim (next_index k (length cs) r at small) [
        | inl (more, next) ↦
            turns cs n (suc k) (suc r) left next more all (omega arith) (omega arith)
        | inr (last, next) ↦
            turns cs n (suc k) 0 left next (omega arith) all (omega arith) (omega arith)
            ∙ ap (map ok) (drop_last cs r left last (omega arith))
      ] in
    rw fetched (map-drop cs cs c r left dropped _ later)

-- While the cursor does not wrap within two rounds: as many fetches as there are connections, all of
-- them available, give every connection once, in the order of the list from the cursor on.
pub fetches-rotate :
    (a : AccountConnections)
    → All (λ c. is_available c ≡ true) a.connections
    → 0 < length a.connections
    → a.cursor + length a.connections + length a.connections ≤ u64_mod
    → fetches (length a.connections) a
      ≡ map ok (rotate (a.cursor % length a.connections) a.connections)
fetches-rotate a all some_left fits =
    let small : a.cursor % length a.connections < length a.connections =
      mod-lt a.cursor some_left in
    turns a.connections a.inflight a.cursor (a.cursor % length a.connections) (length a.connections)
      refl small all (omega arith) fits
    ∙ ap (map ok)
        (take-rotate (a.cursor % length a.connections) a.connections (omega (arith, small)))
