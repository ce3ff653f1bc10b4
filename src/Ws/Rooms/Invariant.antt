-- ===== src/Ws/Rooms/Invariant.antt =====
-- The two maps of sets of RoomManager agree, and refine a relation (core/ws/rooms.ts).
use pilots_hq.Prelude.{
  ◌≡◌, inl, inr, refl, sym, ◌∙◌, ap, String, Bool, true, ◌&&◌, ◌||◌, not, Option, none, some, List,
  [], ◌∷◌, arith, str_eq, eq_iff, Option-cases,
}
use pilots_hq.Ws.Rooms.{
  RoomManager, no_rooms, register, join, leave, leave_all, open_ones, broadcast_local,
}
use pilots_hq.Ws.Rooms.Sets.{contains}
use pilots_hq.Ws.Rooms.Members.{in_set, has, has-erase, has-add_to, has-drop_member, has-drop_all}
use pilots_hq.Ws.Rooms.Register.{
  is_some, IsConsistent, is_some-erase, register_lem, join-IsConsistent, leave-IsConsistent,
}

-- What a call of the manager does, and the relation of connections and rooms that it stands for.
pub data Call : Type 0 where
  join_room : String → String → Call
  leave_room : String → String → Call
  disconnect : String → Call

unfoldable pub perform : Call → RoomManager → RoomManager
unfolding join leave leave_all
perform (join_room c r) m = join c r m
perform (leave_room c r) m = leave c r m
perform (disconnect c) m = leave_all c m

unfoldable pub perform_all : List Call → RoomManager → RoomManager
unfolding perform
perform_all [] m = m
perform_all (x ∷ xs) m = perform_all xs (perform x m)

-- Whether `c` is in `r` after a call, where it was so before it or not.
unfoldable pub relate : Call → String → String → Bool → Bool
relate (join_room c r) c' r' was = (str_eq c c' && str_eq r r') || was
relate (leave_room c r) c' r' was = not (str_eq c c' && str_eq r r') && was
relate (disconnect c) c' r' was = not (str_eq c c') && was

unfoldable pub relate_all : List Call → String → String → Bool → Bool
unfolding relate
relate_all [] c r was = was
relate_all (x ∷ xs) c r was = relate_all xs c r (relate x c r was)

-- The rooms after `leaveAll`: the connection is in none, the others are where they were.
has-leave_all :
    (c x r : String) (m : RoomManager)
    → IsConsistent m
    → has r x (leave_all c m).rooms ≡ (not (str_eq c x) && has r x m.rooms)
unfolding leave_all in_set
has-leave_all c x r m k =
    let own : (str_eq c x ≡ true) → has r c m.rooms ≡ has r x m.rooms =
      λ e. ap (λ y. has r y m.rooms) (ground (arith, eq_iff c x)) in
    elim (Option-cases (m.conn_rooms c)) [
      | inl e ↦ rw (leave_all, e) (ground (arith, own, k.both_ways c r, ap (in_set r) e))
      | inr (rs, e) ↦
          rw (leave_all, e)
            (has-drop_all c r x rs m.rooms ∙ ground (arith, own, k.both_ways c r, ap (in_set r) e))
    ]

leave_all-IsConsistent :
    (c : String) (m : RoomManager) → IsConsistent m → IsConsistent (leave_all c m)
unfolding leave_all
leave_all-IsConsistent c m k = record {
  both_ways = λ x y.
      has-leave_all c x y m k
      ∙ ap (λ b. not (str_eq c x) && b) (k.both_ways x y)
      ∙ sym (has-erase c y x m.conn_rooms);
  registered = λ x.
      is_some-erase c x m.connections
      ∙ ap (λ b. not (str_eq c x) && b) (k.registered x)
      ∙ sym (is_some-erase c x m.conn_rooms);
}

perform-IsConsistent : (x : Call) (m : RoomManager) → IsConsistent m → IsConsistent (perform x m)
unfolding perform
perform-IsConsistent (join_room c r) m k = join-IsConsistent c r m k
perform-IsConsistent (leave_room c r) m k = leave-IsConsistent c r m k
perform-IsConsistent (disconnect c) m k = leave_all-IsConsistent c m k

perform-relate :
    (x : Call) (m : RoomManager) (c r : String)
    → IsConsistent m
    → has r c (perform x m).rooms ≡ relate x c r (has r c m.rooms)
unfolding perform relate
perform-relate (join_room c' r') m c r k =
    let (k', (s, e), same) = register_lem c' m k in
    unfold join in
    has-add_to r' c' r c (register c' m).rooms ∙ ground (arith, ap (λ rooms. has r c rooms) same)
perform-relate (leave_room c' r') m c r k =
    unfold leave in has-drop_member c' r' r c m.rooms ∙ ground arith
perform-relate (disconnect c') m c r k = has-leave_all c' c r m k

-- After any calls of `join`, `leave` and `leaveAll`, the two maps list the same pairs, and the
-- connections that have a set of rooms are those that are registered.
pub perform_all-IsConsistent :
    (xs : List Call) (m : RoomManager) → IsConsistent m → IsConsistent (perform_all xs m)
unfolding perform_all
perform_all-IsConsistent [] m k = k
perform_all-IsConsistent (x ∷ xs) m k =
    perform_all-IsConsistent xs (perform x m) (perform-IsConsistent x m k)

pub no_rooms-IsConsistent : IsConsistent no_rooms
unfolding no_rooms
no_rooms-IsConsistent = record {
  both_ways = λ c r. unfold in_set in refl;
  registered = λ c. unfold is_some in refl;
}

-- From a consistent manager, the calls do to its rooms what they do to a relation of connections
-- and rooms: `join` adds a pair, `leave` takes one away, `leaveAll` all of a connection.
pub perform_all-relate_all :
    (xs : List Call) (m : RoomManager) (c r : String)
    → IsConsistent m
    → has r c (perform_all xs m).rooms ≡ relate_all xs c r (has r c m.rooms)
unfolding perform_all relate_all
perform_all-relate_all [] m c r k = refl
perform_all-relate_all (x ∷ xs) m c r k =
    perform_all-relate_all xs (perform x m) c r (perform-IsConsistent x m k)
    ∙ ap (relate_all xs c r) (perform-relate x m c r k)

contains-open_ones :
    (is_alive : String → Bool) (connections : String → Option String) (c : String)
    (cs : List String)
    → contains c (open_ones is_alive connections cs)
      ≡ (contains c cs && is_some (connections c) && is_alive c)
unfolding open_ones contains is_some
contains-open_ones is_alive connections c [] = refl
contains-open_ones is_alive connections c (x ∷ cs) =
    let rest = contains-open_ones is_alive connections c cs in
    let same : str_eq x c ≡ true → is_alive x ≡ is_alive c =
      λ h. ap is_alive (ground (arith, eq_iff x c)) in
    let found : str_eq x c ≡ true → is_some (connections x) ≡ is_some (connections c) =
      λ h. ap (λ y. is_some (connections y)) (ground (arith, eq_iff x c)) in
    elim (Option-cases (connections x)) [
      | inl e ↦ rw (open_ones, e) (ground (arith, rest, found, ap is_some e))
      | inr (y, e) ↦ rw (open_ones, e) (ground (arith, rest, found, same, ap is_some e))
    ]

in_set-is_some : (v : String) (o : Option (List String)) → in_set v o ≡ true → is_some o ≡ true
unfolding in_set is_some
in_set-is_some v none h = absurd (cc h)
in_set-is_some v (some s) h = refl

-- A broadcast in a consistent manager is sent to the open members of the room and to no one else.
pub broadcast_local_lem :
    (is_alive : String → Bool) (room c : String) (m : RoomManager)
    → IsConsistent m
    → contains c (broadcast_local is_alive room m) ≡ (has room c m.rooms && is_alive c)
unfolding broadcast_local in_set
broadcast_local_lem is_alive room c m k = elim (Option-cases (m.rooms room)) [
  | inl e ↦ rw (broadcast_local, e) (unfold contains in refl)
  | inr (s, e) ↦
      let known : in_set c (m.rooms room) ≡ true → is_some (m.connections c) ≡ true =
        λ h. k.registered c ∙ in_set-is_some room (m.conn_rooms c) (sym (k.both_ways c room) ∙ h) in
      rw (broadcast_local, e)
        (contains-open_ones is_alive m.connections c s
          ∙ ground (arith, known, ap (in_set c) e, in_set))
]
