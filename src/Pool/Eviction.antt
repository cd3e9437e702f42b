-- ===== src/Pool/Eviction.antt =====
-- crates/rsms-connector/src/pool.rs: the eviction of connections beyond the account's limit.
use rsms.Common.{
  ℕ, zero, suc, ◌+◌, ◌-◌, ◌≤◌, ◌<◌, ◌≡◌, ◌≢◌, refl, sym, ap, subst, ◌⊎◌, inl, inr, Bool, true,
  false, Bool-cases, List, [], ◌∷◌, map, length, take, length-take, ◌==◌, ltb, leb, if◌then◌else◌,
  min, arith,
}
use rsms.Pool.{Connection, AccountConnections, retain_other}

-- The order of `sort_by`: connections that are not ready first, then by falling last activity.
unfoldable pub before : Connection → Connection → Bool
before a b = elim a.ready [
  | true ↦ elim b.ready [ true ↦ ltb b.last_active a.last_active | false ↦ false ]
  | false ↦ elim b.ready [ true ↦ true | false ↦ ltb b.last_active a.last_active ]
]

-- The sort is stable: an earlier connection stands in front of its equals.
unfoldable pub insert_sorted : Connection → List Connection → List Connection
insert_sorted c [] = c ∷ []
insert_sorted c (d ∷ ds) =
    let rest = insert_sorted c ds in elim (before d c) [ true ↦ d ∷ rest | false ↦ c ∷ d ∷ ds ]

unfoldable pub sort_scored : List Connection → List Connection
sort_scored [] = []
sort_scored (c ∷ cs) = insert_sorted c (sort_scored cs)

unfoldable pub remove_all : List Connection → List Connection → List Connection
remove_all [] cs = cs
remove_all (e ∷ es) cs = remove_all es (retain_other e.id cs)

-- With the account's limit; the connections that are closed and removed, by their ids.
unfoldable pub evict_excess_connections : ℕ → AccountConnections → AccountConnections × List ℕ
evict_excess_connections limit a = elim (limit == 0) [
  | true ↦ (a, [])
  | false ↦ elim (leb (length a.connections) limit) [
    | true ↦ (a, [])
    | false ↦
        let evicted = take (length a.connections - limit) (sort_scored a.connections) in
        (
          record a { connections = remove_all evicted a.connections },
          map (λ (c : Connection). c.id) evicted,
        )
  ]
]

unfoldable pub one : ℕ → Connection → ℕ
one id c = if c.id == id then 1 else 0

-- How many connections have an id.
unfoldable pub count : ℕ → List Connection → ℕ
count id [] = 0
count id (c ∷ cs) = one id c + count id cs

-- No two connections have the same id.
abbrev pub Distinct : List Connection → Type 0
Distinct cs = (id : ℕ) → count id cs ≤ 1

one_own : (c : Connection) → one c.id c ≡ 1
unfolding one
one_own c = ground arith

count-insert_sorted :
    (id : ℕ) (c : Connection) (cs : List Connection)
    → count id (insert_sorted c cs) ≡ one id c + count id cs
unfolding count insert_sorted
count-insert_sorted id c [] = refl
count-insert_sorted id c (d ∷ ds) = elim (Bool-cases (before d c)) [
  | inl q ↦ rw (q, insert_sorted) (omega (arith, count-insert_sorted id c ds))
  | inr q ↦ rw (q, insert_sorted) refl
]

length-insert_sorted :
    (c : Connection) (cs : List Connection) → length (insert_sorted c cs) ≡ suc (length cs)
unfolding insert_sorted
length-insert_sorted c [] = refl
length-insert_sorted c (d ∷ ds) = elim (Bool-cases (before d c)) [
  | inl q ↦ rw (q, insert_sorted) (omega (arith, length-insert_sorted c ds))
  | inr q ↦ rw (q, insert_sorted) refl
]

count-sort_scored : (id : ℕ) (cs : List Connection) → count id (sort_scored cs) ≡ count id cs
unfolding count sort_scored
count-sort_scored id [] = refl
count-sort_scored id (c ∷ cs) =
    omega (arith, count-insert_sorted id c (sort_scored cs), count-sort_scored id cs)

length-sort_scored : (cs : List Connection) → length (sort_scored cs) ≡ length cs
unfolding sort_scored
length-sort_scored [] = refl
length-sort_scored (c ∷ cs) =
    omega (arith, length-insert_sorted c (sort_scored cs), length-sort_scored cs)

count-take : (id n : ℕ) (cs : List Connection) → count id (take n cs) ≤ count id cs
unfolding count
count-take id zero cs = omega arith
count-take id (suc n) [] = omega arith
count-take id (suc n) (c ∷ cs) = omega (arith, count-take id n cs)

length-retain_other :
    (id : ℕ) (cs : List Connection) → length (retain_other id cs) + count id cs ≡ length cs
unfolding count retain_other one
length-retain_other id [] = refl
length-retain_other id (c ∷ cs) = elim (Bool-cases (c.id == id)) [
  | inl q ↦ rw (q, retain_other) (omega (arith, length-retain_other id cs))
  | inr q ↦ rw (q, retain_other) (omega (arith, length-retain_other id cs))
]

one_other : (j id : ℕ) (c : Connection) → (c.id == id) ≡ true → j ≢ id → one j c ≡ 0
unfolding one
one_other j id c q h = ground arith

count-retain_other :
    (j id : ℕ) (cs : List Connection) → j ≢ id → count j (retain_other id cs) ≡ count j cs
unfolding count retain_other
count-retain_other j id [] h = refl
count-retain_other j id (c ∷ cs) h = elim (Bool-cases (c.id == id)) [
  | inl q ↦ rw (q, retain_other) (omega (arith, one_other j id c q h, count-retain_other j id cs h))
  | inr q ↦ rw (q, retain_other) (ap (λ (n : ℕ). one j c + n) (count-retain_other j id cs h))
]

count-retain_le : (j id : ℕ) (cs : List Connection) → count j (retain_other id cs) ≤ count j cs
unfolding count retain_other
count-retain_le j id [] = omega arith
count-retain_le j id (c ∷ cs) = elim (Bool-cases (c.id == id)) [
  | inl q ↦ rw (q, retain_other) (omega (arith, count-retain_le j id cs))
  | inr q ↦ rw (q, retain_other) (omega (arith, count-retain_le j id cs))
]

-- Without the first of the connections to be removed.
still_inside :
    (e : Connection) (es cs : List Connection)
    → Distinct cs
    → ((id : ℕ) → one id e + count id es ≤ count id cs)
    → (id : ℕ) → count id es ≤ count id (retain_other e.id cs)
still_inside e es cs distinct inside id = elim (same_or_not id e.id) [
  | inl q ↦
      let gone : count id es ≡ 0 =
        subst (λ (j : ℕ). count j es ≡ 0) (sym q)
          (omega (arith, inside e.id, distinct e.id, one_own e)) in
      omega (arith, gone)
  | inr q ↦ omega (arith, inside id, count-retain_other id e.id cs q)
]
  where
    same_or_not : (i j : ℕ) → (i ≡ j) ⊎ (i ≢ j)
    same_or_not i j = ground arith

length-remove_all :
    (es cs : List Connection)
    → Distinct cs
    → ((id : ℕ) → count id es ≤ count id cs)
    → length (remove_all es cs) + length es ≡ length cs
unfolding remove_all count
length-remove_all [] cs distinct inside = omega arith
length-remove_all (e ∷ es) cs distinct inside = omega (
  arith,
  length-remove_all es (retain_other e.id cs)
      (λ id. omega (arith, distinct id, count-retain_le id e.id cs))
      (still_inside e es cs distinct inside),
  length-retain_other e.id cs,
  inside e.id,
  distinct e.id,
  one_own e,
)

-- Where the limit is not 0 and no two connections have the same id, the eviction leaves as many of the
-- connections as the limit allows.
pub evict_excess_connections-length :
    (limit : ℕ) (a : AccountConnections)
    → Distinct a.connections
    → 0 < limit
    → length (evict_excess_connections limit a).0.connections ≡ min limit (length a.connections)
unfolding evict_excess_connections
evict_excess_connections-length limit a distinct some_left =
    let q : (limit == 0) ≡ false = ground arith in
    elim (Bool-cases (leb (length a.connections) limit)) [
      | inl few ↦
          rw (q, evict_excess_connections) (rw (few, evict_excess_connections) (ground arith))
      | inr many ↦
          rw (q, evict_excess_connections)
            (rw (many, evict_excess_connections) (kept limit a.connections distinct (ground arith)))
    ]
  where
    kept :
        (limit : ℕ) (cs : List Connection)
        → Distinct cs
        → limit < length cs
        → length (remove_all (take (length cs - limit) (sort_scored cs)) cs) ≡ min limit (length cs)
    kept limit cs distinct over = omega (
      arith,
      length-remove_all (take (length cs - limit) (sort_scored cs)) cs distinct (λ id.
          omega
            (arith, count-take id (length cs - limit) (sort_scored cs), count-sort_scored id cs)),
      length-take (length cs - limit) (sort_scored cs),
      length-sort_scored cs,
    )
