-- ===== src/Examples/Files.antt =====
-- Where src/client.cpp puts a file, when it refuses to, and how the bytes of a file move.
use dfss.Base.{
  ◌≡◌, ◌-◌, refl, true, false, some, none, [], ◌∷◌, ◌++◌, arith, ltb, if◌then◌else◌, ◌>>=◌,
}
use dfss.Base.Int.{pos, ◌+ℤ◌}
use dfss.Examples.Addresses.{host5, host20, host30, host40}
use dfss.Examples.Streams.{stream, stream-Delivers}
use dfss.Members.{MemberEntry, MemberList, number_of_active_nodes}
use dfss.Placement.{check_conflict, putfile_handler, where_to, where_to_value, write_ips, offset}
use dfss.Placement.Conflict.{AsksPut, AsksForced, conflict-window}
use dfss.Placement.Copies.{Judged, where_to-places, where_to-last}
use dfss.Text.{Str, codes}
use dfss.Text.Map.{map_find, map_set}
use dfss.Text.Number.{string_to_int, converts, starts_digit, atoi, signed, digits}
use dfss.Text.Split.{boost, tokens, push_byte}
use dfss.Transfer.{send_file, send_loop, fread, zeros, receive_file, receive_loop}
use dfss.Transfer.Receive.{Received, receive-prefix, receive_loop-endless}

abbrev alive : MemberEntry
alive = record { ip_addr = []; overrun = []; time_stamp = 0; failed = false }

abbrev failed_member : MemberEntry
failed_member = record { ip_addr = []; overrun = []; time_stamp = 0; failed = true }

abbrev pub name : Str
name = codes "a.txt"

abbrev pub members : MemberList
members = (host20, alive) ∷ (host30, alive) ∷ (host40, alive) ∷ (host5, alive) ∷ []

value : where_to_value name members ≡ some (pos 37)
unfolding where_to_value offset number_of_active_nodes ◌+ℤ◌
value = refl

passed20 : Judged boost (pos 37) true (host20, alive)
unfolding tokens push_byte atoi signed digits
passed20 = (codes "20", refl, refl)

passed30 : Judged boost (pos 37) true (host30, alive)
unfolding tokens push_byte atoi signed digits
passed30 = (codes "30", refl, refl)

taken40 : Judged boost (pos 37) false (host40, alive)
unfolding tokens push_byte atoi signed digits
taken40 = (codes "40", refl, refl)

where_to-places_example : where_to boost name members ≡ some (host40 ∷ host5 ∷ host30 ∷ [])
where_to-places_example =
    where_to-places boost name (pos 37) (host20, alive) (host30, alive) (host40, alive)
      (host5, alive) [] [] [] [] value (passed20, tt) passed30 tt taken40 refl tt tt refl

abbrev short_list : MemberList
short_list = (host20, alive) ∷ (host30, alive) ∷ (host40, alive) ∷ (host5, failed_member) ∷ []

value_short : where_to_value name short_list ≡ some (pos 37)
unfolding where_to_value offset number_of_active_nodes ◌+ℤ◌
value_short = refl

where_to-last_example : where_to boost name short_list ≡ none
where_to-last_example =
    where_to-last boost name (pos 37) (host40, alive) ((host20, alive) ∷ (host30, alive) ∷ [])
      ((host5, failed_member) ∷ []) value_short (passed20, (passed30, tt)) taken40 (refl, tt)

accepted : check_conflict name 100 [] ≡ some ((name, 100) ∷ [])
unfolding check_conflict map_find map_set
accepted = refl

asks : AsksPut boost (codes "0;a.txt") name
unfolding tokens push_byte string_to_int converts starts_digit atoi signed digits
asks = (codes "0", refl, refl, refl)

asks_forced : AsksForced boost (codes "1;a.txt") name
unfolding tokens push_byte string_to_int converts starts_digit atoi signed digits
asks_forced = (codes "1", refl, pos 1, refl, refl, refl)

conflict-window_example :
    (putfile_handler boost (codes "0;a.txt") 130 members ((name, 100) ∷ []) ≡ (
      if ltb (130 - 100) 60 then some (codes "CONFLICT", (name, 100) ∷ []) else (do
        ips ← where_to boost name members
        some (write_ips [] ips, map_set name 130 ((name, 100) ∷ [])))))
    × (putfile_handler boost (codes "1;a.txt") 130 members ((name, 100) ∷ [])
        ≡ (do ips ← where_to boost name members; some (write_ips [] ips, (name, 100) ∷ [])))
conflict-window_example =
    conflict-window boost name (codes "0;a.txt") name (codes "1;a.txt") 100 130 members []
      ((name, 100) ∷ []) accepted asks asks_forced

abbrev pub file : Str
file = codes "hello"

sent : send_file file ≡ some (file ++ zeros 251)
unfolding send_file send_loop fread zeros
sent = refl

receive-prefix_example :
    Received stream 5 [] (file ++ zeros 251) (receive_file stream 5 (file ++ zeros 251))
receive-prefix_example = receive-prefix stream 5 (file ++ zeros 251) stream-Delivers (omega arith)

-- 300 bytes were announced, and five come.
receive_loop-endless_example : receive_loop stream 1000 300 [] file ≡ none
receive_loop-endless_example = receive_loop-endless stream 1000 300 [] file (omega arith)
