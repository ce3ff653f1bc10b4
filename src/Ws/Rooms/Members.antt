-- ===== src/Ws/Rooms/Members.antt =====
-- Who is in which set after each change of a map of sets (core/ws/rooms.ts).
use pilots_hq.Prelude.{
  ◌≡◌, inl, inr, refl, sym, ap, String, Bool, true, false, ◌&&◌, ◌||◌, not, Option, none, some,
  List, [], ◌∷◌, arith, str_eq, eq_iff, if◌then◌else◌, insert, erase, Option-cases, Bool-cases,
}
use pilots_hq.Ws.Rooms.{add_to, add_present, drop_member, delete_from, drop_all}
use pilots_hq.Ws.Rooms.Sets.{
  contains, add, delete, is_empty, contains-add, contains-delete, contains-is_empty,
}

-- Whether a set that may be missing has a value.
unfoldable pub in_set : String → Option (List String) → Bool
unfolding contains
in_set v none = false
in_set v (some s) = contains v s

-- Whether the set at a key has a value.
abbrev pub has : String → String → (String → Option (List String)) → Bool
has k v sets = in_set v (sets k)

pub has-erase :
    (k v j : String) (sets : String → Option (List String))
    → has j v (erase k sets) ≡ (not (str_eq k j) && has j v sets)
unfolding in_set
has-erase k v j sets = elim (Bool-cases (str_eq k j)) [ inl e ↦ rw e refl | inr e ↦ rw e refl ]

pub has-insert :
    (k v j : String) (s : List String) (sets : String → Option (List String))
    → has j v (insert k s sets) ≡ (if str_eq k j then contains v s else has j v sets)
unfolding in_set
has-insert k v j s sets = elim (Bool-cases (str_eq k j)) [ inl e ↦ rw e refl | inr e ↦ rw e refl ]

has-same :
    (k j x : String) (sets : String → Option (List String))
    → str_eq k j ≡ true
    → has j x sets ≡ has k x sets
has-same k j x sets e = ap (λ y. has y x sets) (sym (ground (arith, eq_iff k j)))

pub has-add_to :
    (k v j x : String) (sets : String → Option (List String))
    → has j x (add_to k v sets) ≡ ((str_eq k j && str_eq v x) || has j x sets)
unfolding add_to in_set
has-add_to k v j x sets = elim (Option-cases (sets k)) [
  | inl e ↦
      rw (add_to, e)
        (ground (
          arith,
          has-insert k x j (add v []) sets,
          contains-add v x [],
          has-same k j x sets,
          in_set,
          contains,
        ))
  | inr (s, e) ↦
      rw (add_to, e)
        (ground
          (arith, has-insert k x j (add v s) sets, contains-add v x s, has-same k j x sets, in_set))
]

pub has-add_present :
    (k v j x : String) (s : List String) (sets : String → Option (List String))
    → sets k ≡ some s
    → has j x (add_present k v sets) ≡ ((str_eq k j && str_eq v x) || has j x sets)
unfolding add_present in_set
has-add_present k v j x s sets e =
    rw (add_present, e)
      (ground
        (arith, has-insert k x j (add v s) sets, contains-add v x s, has-same k j x sets, in_set))

pub has-delete_from :
    (k v j x : String) (sets : String → Option (List String))
    → has j x (delete_from k v sets) ≡ (not (str_eq k j && str_eq v x) && has j x sets)
unfolding delete_from in_set
has-delete_from k v j x sets = elim (Option-cases (sets k)) [
  | inl e ↦ rw (delete_from, e) (ground (arith, has-same k j x sets, in_set))
  | inr (s, e) ↦
      rw (delete_from, e)
        (ground (
          arith,
          has-insert k x j (delete v s) sets,
          contains-delete v x s,
          has-same k j x sets,
          in_set,
        ))
]

has-keep :
    (c r j x : String) (s : List String) (sets : String → Option (List String))
    → sets r ≡ some s
    → has j x (if is_empty (delete c s) then erase r sets else insert r (delete c s) sets)
      ≡ (not (str_eq r j && str_eq c x) && has j x sets)
unfolding in_set
has-keep c r j x s sets e = elim (Bool-cases (is_empty (delete c s))) [
  | inl h ↦ rw h (
      ground (
        arith,
        has-erase r x j sets,
        contains-delete c x s,
        contains-is_empty x (delete c s),
        has-same r j x sets,
        in_set,
      ))
  | inr h ↦ rw h (
      ground (
        arith,
        has-insert r x j (delete c s) sets,
        contains-delete c x s,
        has-same r j x sets,
        in_set,
      ))
]

pub has-drop_member :
    (c r j x : String) (sets : String → Option (List String))
    → has j x (drop_member c r sets) ≡ (not (str_eq r j && str_eq c x) && has j x sets)
unfolding drop_member in_set
has-drop_member c r j x sets = elim (Option-cases (sets r)) [
  | inl e ↦ rw (drop_member, e) (ground (arith, has-same r j x sets, in_set))
  | inr (s, e) ↦ rw (drop_member, e) (has-keep c r j x s sets e)
]

pub has-drop_all :
    (c j x : String) (rs : List String) (sets : String → Option (List String))
    → has j x (drop_all c rs sets) ≡ (not (contains j rs && str_eq c x) && has j x sets)
unfolding drop_all contains
has-drop_all c j x [] sets = refl
has-drop_all c j x (r ∷ rs) sets =
    ground (arith, has-drop_all c j x rs (drop_member c r sets), has-drop_member c r j x sets)
