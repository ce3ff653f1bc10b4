-- ===== src/Ws/Rooms.antt =====
-- core/ws/rooms.ts: `RoomManager`. Its two maps of sets and the map of connections; `is_alive` tells
-- of each connection whether it is open, and a broadcast is the list of connections that are sent
-- the message. What Redis passes on to other servers is left out.
pub mod Sets
pub mod Members
pub mod Register
pub mod Invariant
use pilots_hq.Prelude.{
  String, Bool, true, false, ◌&&◌, ◌||◌, not, Option, none, some, List, [], ◌∷◌, ◌++◌, str_eq,
  if◌then◌else◌, insert, erase,
}
use Sets.{contains, add, delete, is_empty}

pub record RoomManager : Type 0 where
  pub rooms : String → Option (List String)
  pub connections : String → Option String
  pub conn_rooms : String → Option (List String)

unfoldable pub no_rooms : RoomManager
no_rooms = record { rooms = λ k. none; connections = λ k. none; conn_rooms = λ k. none }

unfoldable pub register : String → RoomManager → RoomManager
register c m = elim (m.connections c) [
  | some _ ↦ m
  | none ↦ record m {
    connections = insert c c m.connections;
    conn_rooms = insert c [] m.conn_rooms;
  }
]

-- `map.get(k)`, then `add` on the set found; a new set is made first where there is none
unfoldable pub add_to :
    String → String → (String → Option (List String)) → String → Option (List String)
unfolding add
add_to k v sets = elim (sets k) [
  | none ↦ insert k (add v []) sets
  | some s ↦ insert k (add v s) sets
]

-- `connRooms.get(id)!.add(name)`: without the set it would throw, and nothing else would be done
pub add_present : String → String → (String → Option (List String)) → String → Option (List String)
unfolding add
add_present k v sets = elim (sets k) [ none ↦ sets | some s ↦ insert k (add v s) sets ]

unfoldable pub join : String → String → RoomManager → RoomManager
unfolding register add_to add_present
join c room m =
    let m' = register c m in
    record m' { rooms = add_to room c m'.rooms; conn_rooms = add_present c room m'.conn_rooms }

-- `room.delete(id)`, and the room goes with its last member
unfoldable pub drop_member :
    String → String → (String → Option (List String)) → String → Option (List String)
unfolding delete is_empty
drop_member c room rooms = elim (rooms room) [
  | none ↦ rooms
  | some s ↦ if is_empty (delete c s) then erase room rooms else insert room (delete c s) rooms
]

-- `connRooms.get(id)?.delete(name)`
unfoldable pub delete_from :
    String → String → (String → Option (List String)) → String → Option (List String)
unfolding delete
delete_from k v sets = elim (sets k) [ none ↦ sets | some s ↦ insert k (delete v s) sets ]

unfoldable pub leave : String → String → RoomManager → RoomManager
unfolding drop_member delete_from
leave c room m = record m {
  rooms = drop_member c room m.rooms;
  conn_rooms = delete_from c room m.conn_rooms;
}

-- the loop of `leaveAll` over the rooms of a connection
unfoldable pub drop_all :
    String → List String → (String → Option (List String)) → String → Option (List String)
drop_all c [] rooms = rooms
drop_all c (r ∷ rs) rooms = drop_all c rs (drop_member c r rooms)

unfoldable pub leave_all : String → RoomManager → RoomManager
unfolding drop_all
leave_all c m = record m {
  rooms = elim (m.conn_rooms c) [ none ↦ m.rooms | some rs ↦ drop_all c rs m.rooms ];
  conn_rooms = erase c m.conn_rooms;
  connections = erase c m.connections;
}

-- the loop of `broadcastLocal`
pub open_ones : (String → Bool) → (String → Option String) → List String → List String
open_ones is_alive connections [] = []
open_ones is_alive connections (c ∷ cs) =
    let rest = open_ones is_alive connections cs in
    elim (connections c) [ none ↦ rest | some _ ↦ if is_alive c then c ∷ rest else rest ]

unfoldable pub broadcast_local : (String → Bool) → String → RoomManager → List String
unfolding open_ones
broadcast_local is_alive room m = elim (m.rooms room) [
  | none ↦ []
  | some s ↦ open_ones is_alive m.connections s
]

-- `broadcast`, and what `publish` does on this server
unfoldable pub broadcast : (String → Bool) → String → RoomManager → List String
unfolding broadcast_local
broadcast is_alive room m = broadcast_local is_alive room m
