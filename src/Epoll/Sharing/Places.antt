-- ===== src/Epoll/Sharing/Places.antt =====
-- What holds of one descriptor of the shared table, and how often it occurs in a list.
use epoll_http_server.Prelude.{
  ℕ, zero, suc, ◌+◌, ◌-◌, ◌<◌, ◌≡◌, refl, sym, ◌∙◌, subst, Bool, true, false, ◌&&◌, inl, inr, List,
  [], ◌∷◌, ◌++◌, Option, none, some, arith, ltb, ◌==◌, ==_iff, if◌then◌else◌, All, Bool-cases,
}
use epoll_http_server.Connection.{Connection}
use epoll_http_server.Epoll.Table.{new_connection, timed_out}
use epoll_http_server.Epoll.Table.Entries.{expire}
use epoll_http_server.Epoll.Worker.{taken_up}
use epoll_http_server.Epoll.Sharing.{count, remove_one, occupied}

-- What holds at one descriptor: with no entry it is nowhere; with one it is in one place, and it is in
-- use exactly if a worker holds it.
abbrev pub Fine : Bool → ℕ → ℕ → Option Connection → Type 0
Fine armed queued held none = (armed ≡ false) × (queued ≡ 0) × (held ≡ 0)
Fine armed queued held (some conn) =
    ((if armed then 1 else 0) + queued + held ≡ 1) × (conn.in_use ≡ ltb 0 held)

pub accept-Fine :
    (a : Bool) (q h fd now : ℕ) → Fine a q h none → Fine true q h (some (new_connection fd now))
accept-Fine a q h fd now (x, y, z) = (omega arith, rw z)

pub event-Fine :
    (q q' h : ℕ) (e : Option Connection) → q' ≡ q + 1 → Fine true q h e → Fine false q' h e
event-Fine q q' h none more (x, y, z) = cc
event-Fine q q' h (some conn) more (x, y) = (omega arith, y)

pub refuse-Fine : (q h : ℕ) (e : Option Connection) → Fine true q h e → Fine false q h none
refuse-Fine q h none (x, y, z) = cc
refuse-Fine q h (some conn) (x, y) = (refl, omega arith, omega arith)

pub start-Fine :
    (a : Bool) (q q' h arrival : ℕ) (conn : Connection)
    → q' ≡ q + 1
    → Fine a q' h (some conn)
    → Fine a q (h + 1) (some (taken_up conn arrival))
start-Fine true q q' h arrival conn more (x, y) = (omega arith, ground arith)
start-Fine false q q' h arrival conn more (x, y) = (omega arith, ground arith)

pub release-Fine :
    (a : Bool) (q q' h : ℕ) (old conn : Connection)
    → 0 < h
    → q' ≡ q + 1
    → Fine a q h (some old)
    → Fine a q' (h - 1) (some (record conn { in_use = false }))
release-Fine true q q' h old conn p more (x, y) = absurd (omega arith)
release-Fine false q q' h old conn p more (x, y) = (omega arith, ground arith)

pub arm-Fine :
    (a : Bool) (q q' h : ℕ) (e : Option Connection)
    → q ≡ q' + 1
    → Fine a q h e
    → Fine (occupied e) q' h e
arm-Fine a q q' h none more (x, y, z) = absurd (omega arith)
arm-Fine true q q' h (some conn) more (x, y) = absurd (omega arith)
arm-Fine false q q' h (some conn) more (x, y) = (omega arith, y)

pub keep-Fine :
    (a : Bool) (q h : ℕ) (old conn : Connection)
    → 0 < h
    → Fine a q h (some old)
    → Fine true q (h - 1) (some (record conn { in_use = false }))
keep-Fine true q h old conn p (x, y) = absurd (omega arith)
keep-Fine false q h old conn p (x, y) = (omega arith, ground arith)

pub finish-Fine :
    (a : Bool) (q h : ℕ) (e : Option Connection) → 0 < h → Fine a q h e → Fine false q (h - 1) none
finish-Fine a q h none p (x, y, z) = absurd (omega arith)
finish-Fine true q h (some conn) p (x, y) = absurd (omega arith)
finish-Fine false q h (some conn) p (x, y) = (refl, omega arith, omega arith)

pub none_queued : (q : ℕ) {conn : Connection} → (0 < q → none ≡ some conn) → q ≡ 0
none_queued zero p = refl
none_queued (suc q) p = absurd (none_some (p (omega arith)))
  where
    none_some : {c : Connection} → none ≡ some c → ⊥
    none_some e = cc

pub and_true : (a : Bool) → a && true ≡ a
and_true true = refl
and_true false = refl

pub and_false : (a : Bool) → a && false ≡ false
and_false true = refl
and_false false = refl

pub check-Fine :
    (a : Bool) (q h now : ℕ) (e : Option Connection)
    → (0 < q → expire now e ≡ e)
    → Fine a q h e
    → Fine (a && occupied (expire now e)) q h (expire now e)
check-Fine a q h now none p (x, y, z) = (and_false a, y, z)
check-Fine a q h now (some conn) p (x, y) = elim (Bool-cases conn.in_use) [
  | inl used ↦ simp (used, and_true a) (x, sym used ∙ y)
  | inr unused ↦ simp unused (elim (Bool-cases (timed_out now conn)) [
    | inl old ↦ simp old (
      and_false a,
      none_queued q (λ k. simp (unused, old) at (p k)),
      ground (arith, sym unused ∙ y),
    )
    | inr new ↦ simp (new, and_true a) (x, y)
  ])
]

pub count-append : (j : ℕ) (xs ys : List ℕ) → count j (xs ++ ys) ≡ count j xs + count j ys
count-append j [] ys = omega arith
count-append j (x ∷ xs) ys = omega (arith, count-append j xs ys)

pub count-remove_one :
    (i j : ℕ) (xs : List ℕ)
    → count j (remove_one i xs)
      ≡ count j xs - (if i == j then (if ltb 0 (count i xs) then 1 else 0) else 0)
count-remove_one i j [] = ground arith
count-remove_one i j (x ∷ xs) = ground (arith, count-remove_one i j xs)

pub All-count : (P : ℕ → Type 0) (j : ℕ) (xs : List ℕ) → All P xs → 0 < count j xs → P j
All-count P j [] h c = absurd (omega arith)
All-count P j (x ∷ xs) h c = elim (Bool-cases (x == j)) [
  | inl same ↦ subst P ((==_iff x j).0 same) h.0
  | inr other ↦ All-count P j xs h.1 (ground (arith, c, other))
]

pub ==_refl : (n : ℕ) → (n == n) ≡ true
==_refl n = ground arith

pub count_back :
    (j fd : ℕ) (xs : List ℕ)
    → count j (xs ++ (fd ∷ [])) ≡ (if fd == j then count j xs + 1 else count j xs)
count_back j fd xs = ground (arith, count-append j xs (fd ∷ []))

pub count_front :
    (j fd : ℕ) (xs : List ℕ) → count j (fd ∷ xs) ≡ (if fd == j then count j xs + 1 else count j xs)
count_front j fd xs = ground arith

pub count_removed :
    (j fd : ℕ) (xs : List ℕ)
    → 0 < count fd xs
    → count j (remove_one fd xs) ≡ (if fd == j then count j xs - 1 else count j xs)
count_removed j fd xs p = ground (arith, count-remove_one fd j xs, p)
