-- ===== src/Pipeline/Messages.antt =====
-- The messages that a reconnection sends, from those of each file.
use monitor_system.Base.{
  ℕ, suc, ◌+◌, ◌≡◌, refl, sym, ap, ◌∙◌, true, List, [], ◌∷◌, ◌++◌, map, map-append, some, Option,
  arith, All, length, length-append, ok, ◌>>=◌, first_call,
}
use monitor_system.Message.{Msg, is_data}
use monitor_system.Json.{Cjson}
use monitor_system.Offline.{resent_msg}
use monitor_system.Reconnect.{Replayed}
use monitor_system.Storing.{deal_with_monitor_msg}
use monitor_system.Storing.Turns.{deal_with_all}
use monitor_system.Encode.{Kind, type_of}
use monitor_system.Pipeline.Batch.{Line, row, is_data-type_of}
use monitor_system.Pipeline.Kept.{of_kind}
use monitor_system.Pipeline.Kinds.{by_kind}

-- The messages that a reconnection sends, in the order of the calls of `do_with_file`.
abbrev pub resent_msgs : Replayed → List Msg
resent_msgs r =
    map (resent_msg (type_of Kind.mem)) r.mem
    ++ (map (resent_msg (type_of Kind.cpu)) r.cpu
        ++ (map (resent_msg (type_of Kind.disk)) r.disk
            ++ map (resent_msg (type_of Kind.sys)) r.sys))

deal_with_all-append :
    (json : Cjson) (xs ys : List Msg) (us vs : List (Option (List ℕ)))
    → deal_with_all json xs ≡ ok us
    → deal_with_all json ys ≡ ok vs
    → deal_with_all json (xs ++ ys) ≡ ok (us ++ vs)
deal_with_all-append json [] ys us vs e f =
    let same : [] ≡ us = cc e in f ∙ ap (λ r. ok (r ++ vs)) same
deal_with_all-append json (x ∷ xs) ys us vs e f =
    let (sql, one, e1) = first_call (deal_with_monitor_msg json x) _ e in
    let (more, rest, e2) = first_call (deal_with_all json xs) _ e1 in
    let same : sql ∷ more ≡ us = cc e2 in
    ap (λ r. r >>= λ s. deal_with_all json (xs ++ ys) >>= λ m. ok (s ∷ m)) one
    ∙ ap (λ r. r >>= λ m. ok (sql ∷ m)) (deal_with_all-append json xs ys more vs rest f)
    ∙ ap (λ r. ok (r ++ vs)) same

resent-data :
    (k : Kind) (texts : List (List ℕ))
    → All (λ m. is_data m.type ≡ true) (map (resent_msg (type_of k)) texts)
unfolding resent_msg
resent-data k [] = tt
resent-data k (t ∷ texts) = (is_data-type_of k, resent-data k texts)

All-append : (P : Msg → Type 0) (xs ys : List Msg) → All P xs → All P ys → All P (xs ++ ys)
All-append P [] ys h k = k
All-append P (x ∷ xs) ys (one, h) k = (one, All-append P xs ys h k)

length-resent_msg :
    (k : Kind) (texts : List (List ℕ)) → length (map (resent_msg (type_of k)) texts) ≡ length texts
length-resent_msg k [] = refl
length-resent_msg k (t ∷ texts) = ap suc (length-resent_msg k texts)

pub resent_msgs-data : (r : Replayed) → All (λ m. is_data m.type ≡ true) (resent_msgs r)
resent_msgs-data r =
    let P = λ (m : Msg). is_data m.type ≡ true in
    All-append P _ _ (resent-data Kind.mem r.mem) (
      All-append P _ _ (resent-data Kind.cpu r.cpu)
        (All-append P _ _ (resent-data Kind.disk r.disk) (resent-data Kind.sys r.sys)))

pub length-resent_msgs :
    (r : Replayed)
    → length (resent_msgs r) ≡ length r.mem + (length r.cpu + (length r.disk + length r.sys))
length-resent_msgs r =
    four (map (resent_msg (type_of Kind.mem)) r.mem) (map (resent_msg (type_of Kind.cpu)) r.cpu)
      (map (resent_msg (type_of Kind.disk)) r.disk) (map (resent_msg (type_of Kind.sys)) r.sys)
      (length-resent_msg Kind.mem r.mem) (length-resent_msg Kind.cpu r.cpu)
      (length-resent_msg Kind.disk r.disk) (length-resent_msg Kind.sys r.sys)
  where
    four :
        {a b c d : ℕ} (ms cs ds ys : List Msg)
        → length ms ≡ a
        → length cs ≡ b
        → length ds ≡ c
        → length ys ≡ d
        → length (ms ++ (cs ++ (ds ++ ys))) ≡ a + (b + (c + d))
    four ms cs ds ys em ec ed ey = omega (
      arith,
      em,
      ec,
      ed,
      ey,
      length-append ms (cs ++ (ds ++ ys)),
      length-append cs (ds ++ ys),
      length-append ds ys,
    )

-- What the server makes of all messages, from what it makes of those of each kind.
pub all_dealt :
    (json : Cjson) (ls : List Line) (r : Replayed)
    → deal_with_all json (map (resent_msg (type_of Kind.mem)) r.mem)
      ≡ ok (map (λ l. some (row l)) (of_kind Kind.mem ls))
    → deal_with_all json (map (resent_msg (type_of Kind.cpu)) r.cpu)
      ≡ ok (map (λ l. some (row l)) (of_kind Kind.cpu ls))
    → deal_with_all json (map (resent_msg (type_of Kind.disk)) r.disk)
      ≡ ok (map (λ l. some (row l)) (of_kind Kind.disk ls))
    → deal_with_all json (map (resent_msg (type_of Kind.sys)) r.sys)
      ≡ ok (map (λ l. some (row l)) (of_kind Kind.sys ls))
    → deal_with_all json (resent_msgs r) ≡ ok (map (λ l. some (row l)) (by_kind ls))
all_dealt json ls r m c d y =
    let f = λ (l : Line). some (row l) in
    deal_with_all-append json _ _ _ _ m
      (deal_with_all-append json _ _ _ _ c (deal_with_all-append json _ _ _ _ d y))
    ∙ ap ok (
        sym (
          map-append f (of_kind Kind.mem ls) _
          ∙ ap (λ xs. map f (of_kind Kind.mem ls) ++ xs)
              (map-append f (of_kind Kind.cpu ls) _
                ∙ ap (λ xs. map f (of_kind Kind.cpu ls) ++ xs)
                    (map-append f (of_kind Kind.disk ls) _))))
