-- ===== src/Samples/Net.antt =====
-- Frames, rooms and the rate limit at small inputs (core/ws, api/middleware/rate-limiter.ts).
use pilots_hq.Prelude.{
  ℕ, ◌≤◌, ◌≡◌, ◌&&◌, refl, String, Bool, true, false, some, List, [], ◌∷◌, ◌++◌, arith,
}
use pilots_hq.Ws.Frame.{
  Conn, parse_frame, build_frame, parse_frames, receive, split_at, payload_length, payload_bytes,
}
use pilots_hq.Ws.Frame.Stream.{with_buffer, receive-append}
use pilots_hq.Ws.Frame.RoundTrip.{parse-build_frame, receive-frames, frames, with_texts}
use pilots_hq.Ws.Rooms.{RoomManager, no_rooms, join, register, add_to, broadcast_local}
use pilots_hq.Ws.Rooms.Sets.{contains, add}
use pilots_hq.Ws.Rooms.Members.{has}
use pilots_hq.Ws.Rooms.Invariant.{
  Call, join_room, leave_room, disconnect, perform, perform_all, relate_all, no_rooms-IsConsistent,
  perform_all-IsConsistent, perform_all-relate_all, broadcast_local_lem,
}
use pilots_hq.Api.RateLimiter.{
  RateLimitConfig, passed, ScoreSet, no_scores, check_limit, live, trim, zadd, retry_after,
  ceil_seconds,
}
use pilots_hq.Api.RateLimiter.Counts.{count_in, passed_times}
use pilots_hq.Api.RateLimiter.Overlap.{two_at_once, remove_old, is_full, add_score, add_if_room}
use pilots_hq.Api.RateLimiter.Window.{passed_times-bound, retry_after_enough}

abbrev conn : Conn
conn = record { buffer = []; alive = true; writable = true; written = []; emitted = [] }

-- the first bytes of a frame with the text "hi"
abbrev part : List ℕ
part = 129 ∷ 2 ∷ 104 ∷ []

parse-build_frame_example :
    parse_frame (build_frame 1 (104 ∷ 105 ∷ []) ++ 9 ∷ []) ≡ some (1, 104 ∷ 105 ∷ [], 9 ∷ [])
parse-build_frame_example =
    parse-build_frame 1 (104 ∷ 105 ∷ []) (9 ∷ []) (omega arith) (omega arith)

receive-frames_example :
    receive (frames ((104 ∷ []) ∷ (105 ∷ []) ∷ [])) conn
    ≡ (with_buffer [] (with_texts ((104 ∷ []) ∷ (105 ∷ []) ∷ []) conn), false)
receive-frames_example =
    receive-frames ((104 ∷ []) ∷ (105 ∷ []) ∷ []) conn (omega arith, (omega arith, tt)) refl

receive-append_example : receive (105 ∷ []) (receive part conn).0 ≡ receive (part ++ 105 ∷ []) conn
unfolding receive parse_frames parse_frame payload_length payload_bytes split_at
receive-append_example = receive-append part (105 ∷ []) conn refl

abbrev calls : List Call
calls = join_room "c" "r" ∷ join_room "d" "r" ∷ leave_room "c" "r" ∷ disconnect "d" ∷ []

perform_all-relate_all_example :
    has "r" "c" (perform_all calls no_rooms).rooms
    ≡ relate_all calls "c" "r" (has "r" "c" no_rooms.rooms)
perform_all-relate_all_example = perform_all-relate_all calls no_rooms "c" "r" no_rooms-IsConsistent

abbrev everyone : String → Bool
everyone c = true

abbrev two_joined : RoomManager
two_joined = perform_all (join_room "c" "r" ∷ join_room "d" "r" ∷ []) no_rooms

both_reached : broadcast_local everyone "r" two_joined ≡ "c" ∷ "d" ∷ []
unfolding perform_all perform no_rooms join register add_to add contains broadcast_local
both_reached = refl

broadcast_local_lem_example :
    contains "d" (broadcast_local everyone "r" two_joined)
    ≡ (has "r" "d" two_joined.rooms && everyone "d")
broadcast_local_lem_example = broadcast_local_lem everyone "r" "d" two_joined (
    perform_all-IsConsistent (join_room "c" "r" ∷ join_room "d" "r" ∷ []) no_rooms
      no_rooms-IsConsistent)

abbrev two_a_second : RateLimitConfig
two_a_second = record { window_ms = 1000; max_requests = 2 }

three_of_four :
    passed_times two_a_second (100 ∷ 200 ∷ 300 ∷ 1150 ∷ []) no_scores ≡ 100 ∷ 200 ∷ 1150 ∷ []
unfolding passed_times no_scores check_limit live trim zadd retry_after ceil_seconds
three_of_four = refl

passed_times-bound_example :
    count_in 1000 300 (passed_times two_a_second (100 ∷ 200 ∷ 300 ∷ []) no_scores) ≤ 2
passed_times-bound_example =
    passed_times-bound two_a_second (100 ∷ 200 ∷ 300 ∷ []) 300
      (omega arith, (omega arith, (omega arith, tt)))

abbrev full : ScoreSet
full = record { scores = 100 ∷ 200 ∷ []; expires_at = 1200 }

retry_after_enough_example :
    (check_limit true two_a_second 1300 (check_limit true two_a_second 300 full).0).1 ≡ passed
unfolding check_limit live trim retry_after ceil_seconds
retry_after_enough_example =
    retry_after_enough two_a_second 300 1300 1 full (omega arith) (omega arith) refl (omega arith)

abbrev one_place_left : ScoreSet
one_place_left = record { scores = 100 ∷ []; expires_at = 1100 }

both_pass : (two_at_once two_a_second 200 one_place_left).0.scores ≡ 100 ∷ 200 ∷ 200 ∷ []
unfolding two_at_once remove_old is_full add_if_room add_score live trim zadd
both_pass = refl
