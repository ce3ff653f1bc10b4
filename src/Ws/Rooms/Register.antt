-- ===== src/Ws/Rooms/Register.antt =====
-- Registering, joining and leaving keep the maps in step (core/ws/rooms.ts).
use pilots_hq.Prelude.{
  ◌≡◌, inl, inr, refl, sym, ◌∙◌, ap, String, Bool, true, false, ◌&&◌, ◌||◌, not, Option, none, some,
  List, [], arith, str_eq, eq_iff, insert, erase, Option-cases, Bool-cases,
}
use pilots_hq.Ws.Rooms.{RoomManager, register, add_present, join, delete_from, leave}
use pilots_hq.Ws.Rooms.Sets.{contains}
use pilots_hq.Ws.Rooms.Members.{
  in_set, has, has-insert, has-add_to, has-add_present, has-delete_from, has-drop_member,
}

unfoldable pub is_some : {A : Type 0} → Option A → Bool
is_some none = false
is_some (some x) = true

-- Rooms list a connection where its own set lists the room, and the connections that have a set are
-- those that are registered.
pub record IsConsistent (m : RoomManager) : Type 0 where
  pub both_ways : (c r : String) → has r c m.rooms ≡ has c r m.conn_rooms
  pub registered : (c : String) → is_some (m.connections c) ≡ is_some (m.conn_rooms c)

is_some-false : {A : Type 0} (o : Option A) → is_some o ≡ false → o ≡ none
unfolding is_some
is_some-false none e = refl
is_some-false (some x) e = absurd (cc e)

is_some-true : {A : Type 0} (o : Option A) → is_some o ≡ true → (x : A) × (o ≡ some x)
unfolding is_some
is_some-true none e = absurd (cc e)
is_some-true (some x) e = (x, refl)

is_some-insert :
    {V : Type 0} (k c : String) (s : V) (sets : String → Option V)
    → is_some (insert k s sets c) ≡ (str_eq k c || is_some (sets c))
unfolding is_some
is_some-insert k c s sets = elim (Bool-cases (str_eq k c)) [ inl e ↦ rw e refl | inr e ↦ rw e refl ]

pub is_some-erase :
    {V : Type 0} (k c : String) (sets : String → Option V)
    → is_some (erase k sets c) ≡ (not (str_eq k c) && is_some (sets c))
unfolding is_some
is_some-erase k c sets = elim (Bool-cases (str_eq k c)) [ inl e ↦ rw e refl | inr e ↦ rw e refl ]

-- A key with a set keeps one.
is_some-replace :
    (k c : String) (s t : List String) (sets : String → Option (List String))
    → sets k ≡ some s
    → is_some (insert k t sets c) ≡ is_some (sets c)
is_some-replace k c s t sets e =
    let same : str_eq k c ≡ true → is_some (sets c) ≡ true = λ h.
      ap (λ y. is_some (sets y)) (sym (ground (arith, eq_iff k c)))
      ∙ ap is_some e
      ∙ unfold is_some in refl in
    is_some-insert k c t sets ∙ ground (arith, same)

is_some-delete_from :
    (k v c : String) (sets : String → Option (List String))
    → is_some (delete_from k v sets c) ≡ is_some (sets c)
unfolding delete_from
is_some-delete_from k v c sets = elim (Option-cases (sets k)) [
  | inl e ↦ rw (delete_from, e) refl
  | inr (s, e) ↦ rw (delete_from, e) (is_some-replace k c s _ sets e)
]

is_some-add_present :
    (k v c : String) (s : List String) (sets : String → Option (List String))
    → sets k ≡ some s
    → is_some (add_present k v sets c) ≡ is_some (sets c)
unfolding add_present
is_some-add_present k v c s sets e = rw (add_present, e) (is_some-replace k c s _ sets e)

register-new :
    (c : String) (m : RoomManager)
    → m.connections c ≡ none
    → IsConsistent m
    → IsConsistent
        record m { connections = insert c c m.connections; conn_rooms = insert c [] m.conn_rooms }
unfolding contains in_set
register-new c m e k =
    let no_set =
      is_some-false (m.conn_rooms c) (sym (k.registered c) ∙ rw e (unfold is_some in refl)) in
    record {
      both_ways = λ x r.
          k.both_ways x r
          ∙ ground (arith, has-insert c r x [] m.conn_rooms, eq_iff c x, no_set, in_set);
      registered = λ x.
          is_some-insert c x c m.connections
          ∙ ap (λ b. str_eq c x || b) (k.registered x)
          ∙ sym (is_some-insert c x [] m.conn_rooms);
    }

pub register_lem :
    (c : String) (m : RoomManager)
    → IsConsistent m
    → IsConsistent (register c m)
      × ((s : List String) × ((register c m).conn_rooms c ≡ some s))
      × ((register c m).rooms ≡ m.rooms)
unfolding register
register_lem c m k = elim (Option-cases (m.connections c)) [
  | inl e ↦ rw (register, e) (register-new c m e k, ([], ground (arith, eq_iff c c)), refl)
  | inr (x, e) ↦
      rw (register, e)
        (
          k,
          is_some-true (m.conn_rooms c) (sym (k.registered c) ∙ rw e (unfold is_some in refl)),
          refl,
        )
]

pub join-IsConsistent :
    (c r : String) (m : RoomManager) → IsConsistent m → IsConsistent (join c r m)
unfolding join
join-IsConsistent c r m k =
    let (k', (s, e), same) = register_lem c m k in
    let n = register c m in
    record {
      both_ways = λ x y.
          has-add_to r c y x n.rooms
          ∙ ground (arith, k'.both_ways x y)
          ∙ sym (has-add_present c r x y s n.conn_rooms e);
      registered = λ x. k'.registered x ∙ sym (is_some-add_present c r x s n.conn_rooms e);
    }

pub leave-IsConsistent :
    (c r : String) (m : RoomManager) → IsConsistent m → IsConsistent (leave c r m)
unfolding leave
leave-IsConsistent c r m k = record {
  both_ways = λ x y.
      has-drop_member c r y x m.rooms
      ∙ ground (arith, k.both_ways x y)
      ∙ sym (has-delete_from c r x y m.conn_rooms);
  registered = λ x. k.registered x ∙ sym (is_some-delete_from c r x m.conn_rooms);
}
