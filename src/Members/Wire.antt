-- ===== src/Members/Wire.antt =====
-- src/client.cpp and src/com.cpp: the heartbeat message on its way from `make_message` through
-- `udp_sendmsg` and `handle_receive` to `heartbeat_handler`.
use dfss.Base.{
  ℕ, ◌+◌, ◌*◌, ◌≤◌, ◌≡◌, refl, subst, ap, ◌∙◌, Bool, true, false, Option, some, [], ◌∷◌, ◌++◌,
  arith, All, length, length-append, ◌>>=◌,
}
use dfss.Text.{Str, codes}
use dfss.Text.Split.{Boost, has_byte, has_byte-append}
use dfss.Text.Map.{IsSorted}
use dfss.Datagram.{UdpServer, send_buf, handle_receive}
use dfss.Datagram.Delivery.{request-arrives}
use dfss.Members.{
  MemberEntry, MemberList, Node, bool_to_string, make_message, heard_from, heartbeat_handler,
}
use dfss.Members.Gossip.{IsPlain, Merged, heartbeat-merges}
use dfss.Ring.Splice.{Yields, Yields-some}

-- A dotted address: at most 15 bytes, none of them 0.
abbrev pub IsShort : Str × MemberEntry → Type 0
IsShort (ip, e) = (length ip ≤ 15) × (has_byte 0 ip ≡ false)

length-bool_to_string : (f : Bool) → length (bool_to_string f) ≡ 1
unfolding bool_to_string
length-bool_to_string true = refl
length-bool_to_string false = refl

bool_to_string_free : (f : Bool) → has_byte 0 (bool_to_string f) ≡ false
unfolding bool_to_string
bool_to_string_free true = refl
bool_to_string_free false = refl

abbrev entry : Str → Bool → Str
entry ip failed = ip ++ (b':' ∷ (bool_to_string failed ++ (b';' ∷ [])))

length-entry : (ip : Str) (f : Bool) → length ip ≤ 15 → length (entry ip f) ≤ 18
length-entry ip f h = omega (
  arith,
  length-append ip (b':' ∷ (bool_to_string f ++ (b';' ∷ []))),
  length-append (bool_to_string f) (b';' ∷ []),
  length-bool_to_string f,
)

entry_free : (ip : Str) (f : Bool) → has_byte 0 ip ≡ false → has_byte 0 (entry ip f) ≡ false
entry_free ip f h =
    has_byte-append 0 ip (b':' ∷ (bool_to_string f ++ (b';' ∷ [])))
    ∙ rw (h, has_byte-append 0 (bool_to_string f) (b';' ∷ []), bool_to_string_free f) refl

length-make_message :
    (str : Str) (m : MemberList)
    → All IsShort m
    → length (make_message str m) ≤ length str + 18 * length m
unfolding make_message
length-make_message str [] short = omega arith
length-make_message str ((ip, e) ∷ m) short = omega (
  arith,
  length-make_message (str ++ entry ip e.failed) m short.1,
  length-append str (entry ip e.failed),
  length-entry ip e.failed short.0.0,
)

make_message_free :
    (str : Str) (m : MemberList)
    → has_byte 0 str ≡ false
    → All IsShort m
    → has_byte 0 (make_message str m) ≡ false
unfolding make_message
make_message_free str [] free short = free
make_message_free str ((ip, e) ∷ m) free short =
    make_message_free (str ++ entry ip e.failed) m
      (has_byte-append 0 str (entry ip e.failed) ∙ rw (free, entry_free ip e.failed short.0.1) refl)
      short.1

-- `heartbeat_handler` as the server calls it, at the time `now`.
abbrev pub heartbeat_processor : Boost → ℕ → Str → Str → Node → Option (Str × Node)
heartbeat_processor b now request remote n = do
  (n', reply) ← heartbeat_handler b request remote now n
  some (reply, n')

-- A sorted membership list of at most 28 members with dotted addresses without `:` and `;` fits in
-- the buffer of a datagram. A server with a sorted list and a buffer of 512 bytes then runs
-- `heartbeat_handler` on it, which has every token that is read, answers `pong`, and holds what
-- `Merged` says of the two lists, with new entries, which record the overrun of their constructor, for
-- the members that it did not know.
pub heartbeat-delivered :
    (b : Boost) (peer : MemberList) (ip : Str) (now : ℕ) (server : UdpServer Node)
    → All IsPlain peer
    → All IsShort peer
    → length peer ≤ 28
    → IsSorted peer
    → IsSorted server.state.member_list
    → length server.recv_buffer ≡ 512
    → (datagram : Str) × (send_buf (make_message [] peer) ≡ some datagram)
      × Yields
          (λ out.
            (out.0 ≡ some (codes "pong"))
            × Merged now peer (heard_from ip now server.state) (out.1.state, codes "pong"))
          (handle_receive (heartbeat_processor b now) true datagram ip server)
heartbeat-delivered b peer ip now server plain short few sp sn size =
    let (datagram, sent, full, got) =
      request-arrives (heartbeat_processor b now) ip (make_message [] peer) server
        (make_message_free [] peer refl short) (omega (arith, length-make_message [] peer short))
        size in
    let ((n, reply), e, merged) =
      Yields-some (heartbeat_handler b (make_message [] peer) ip now server.state)
        (heartbeat-merges b peer ip now server.state plain sp sn) in
    (
      datagram,
      sent,
      rw (got, e)
          (
            ap some merged.reply,
            subst (λ t. Merged now peer (heard_from ip now server.state) (n, t)) merged.reply
                merged,
          ),
    )
