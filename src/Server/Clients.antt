-- ===== src/Server/Clients.antt =====
-- `struct client_ds` (server/function.h) and `std::map<int, struct client_ds *> clients`: an
-- association list in the order of the keys.
use mathlib.Core.Path.{subst}
use monitor_system.Base.{
  All, ◌<◌, ℕ, ◌≡◌, refl, Bool, true, false, ◌||◌, List, [], ◌∷◌, Option, none, some, arith, ltb,
  ◌==◌, if◌then◌else◌, inl, inr, Bool-cases,
}

-- `isonline` is set to 8 or 5 and falls only while it is positive, so it is never negative.
-- `s_addr` and `sin_port` are the parts of `addr` that are read.
pub record Client : Type 0 where
  pub isonline : ℕ
  pub s_addr : ℕ
  pub sin_port : ℕ

abbrev pub ClientMap : Type 0
ClientMap = List (ℕ × Client)

unfoldable pub lookup : ℕ → ClientMap → Option Client
lookup k [] = none
lookup k ((j, c) ∷ m) = let rest = lookup k m in if j == k then some c else rest

-- The order of `std::map`.
abbrev pub Ascending : ClientMap → Type 0
Ascending [] = Unit
Ascending ((k, c) ∷ m) = All (λ e. k < e.0) m × Ascending m

-- `clients[k] = c`
unfoldable pub insert : ℕ → Client → ClientMap → ClientMap
insert k c [] = (k, c) ∷ []
insert k c ((j, d) ∷ m) =
    let rest = insert k c m in
    if j == k then (k, c) ∷ m else (if ltb k j then (k, c) ∷ (j, d) ∷ m else (j, d) ∷ rest)

pub lookup-insert :
    (k j : ℕ) (c : Client) (m : ClientMap)
    → lookup j (insert k c m) ≡ (if k == j then some c else lookup j m)
unfolding lookup insert
lookup-insert k j c [] = refl
lookup-insert k j c ((i, d) ∷ m) = ground (arith, lookup-insert k j c m)

All-insert :
    (n k : ℕ) (c : Client) (m : ClientMap)
    → n < k
    → All (λ e. n < e.0) m
    → All (λ e. n < e.0) (insert k c m)
unfolding insert
All-insert n k c [] lt h = (lt, tt)
All-insert n k c ((j, d) ∷ m) lt h = elim (Bool-cases (j == k)) [
  | inl same ↦ rw same (lt, h.1)
  | inr other ↦ elim (Bool-cases (ltb k j)) [
    | inl before ↦ rw (other, before) (lt, (h.0, h.1))
    | inr behind ↦ rw (other, behind) (h.0, All-insert n k c m lt h.1)
  ]
]

All-above : (n k : ℕ) (m : ClientMap) → n < k → All (λ e. k < e.0) m → All (λ e. n < e.0) m
All-above n k [] lt h = tt
All-above n k (e ∷ m) lt h = (omega (arith, lt, h.0), All-above n k m lt h.1)

pub insert-Ascending : (k : ℕ) (c : Client) (m : ClientMap) → Ascending m → Ascending (insert k c m)
unfolding insert
insert-Ascending k c [] up = (tt, tt)
insert-Ascending k c ((j, d) ∷ m) (above, up) = elim (Bool-cases (j == k)) [
  | inl same ↦
      let e : j ≡ k = ground (arith, same) in
      rw same (subst (λ n. All (λ x. n < x.0) m) e above, up)
  | inr other ↦ elim (Bool-cases (ltb k j)) [
    | inl before ↦
        let lt : k < j = ground (arith, before) in
        rw (other, before) ((lt, All-above k j m lt above), (above, up))
    | inr behind ↦
        let lt : j < k = ground (arith, other, behind) in
        rw (other, behind) (All-insert j k c m lt above, insert-Ascending k c m up)
  ]
]

-- A key below all others is not in the map.
pub lookup-below : (k : ℕ) (m : ClientMap) → All (λ e. k < e.0) m → lookup k m ≡ none
unfolding lookup
lookup-below k [] h = refl
lookup-below k ((j, c) ∷ m) h = ground (arith, h.0, lookup-below k m h.1)

-- `check_online`: is a client of this address in the map?
unfoldable pub check_online : ℕ → ClientMap → Bool
check_online a [] = false
check_online a ((k, c) ∷ m) = c.s_addr == a || check_online a m

-- Some entry of the map has the address.
pub data HasAddress (a : ℕ) : ClientMap → Type 0 where
  first : (k : ℕ) (c : Client) (m : ClientMap) → c.s_addr ≡ a → HasAddress a ((k, c) ∷ m)
  later : (e : ℕ × Client) (m : ClientMap) → HasAddress a m → HasAddress a (e ∷ m)

pub check_online_sound : (a : ℕ) (m : ClientMap) → check_online a m ≡ true → HasAddress a m
unfolding check_online
check_online_sound a [] h = cc
check_online_sound a ((k, c) ∷ m) h = elim (Bool-cases (c.s_addr == a)) [
  | inl e ↦ first k c m (ground arith)
  | inr e ↦ later (k, c) m (check_online_sound a m (ground arith))
]

pub check_online_complete : {a : ℕ} {m : ClientMap} → HasAddress a m → check_online a m ≡ true
unfolding check_online
check_online_complete (first k c m e) = ground arith
check_online_complete (later (k, c) m h) = ground (arith, check_online_complete h)

pub HasAddress-lookup :
    (k : ℕ) (c : Client) (m : ClientMap) → lookup k m ≡ some c → HasAddress c.s_addr m
unfolding lookup
HasAddress-lookup k c [] e = cc
HasAddress-lookup k c ((j, d) ∷ m) e = elim (Bool-cases (j == k)) [
  | inl hit ↦ first j d m (ground arith)
  | inr miss ↦ later (j, d) m (HasAddress-lookup k c m (ground arith))
]
