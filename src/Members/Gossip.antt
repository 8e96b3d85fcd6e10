-- ===== src/Members/Gossip.antt =====
-- src/client.cpp, `heartbeater` and `heartbeat_handler`: a heartbeat carries the sender's membership
-- list; what the receiver makes of it.
use mathlib.Core.List.{append-nil, append_assoc}
use dfss.Base.{
  ℕ, ◌≤◌, ◌≡◌, ◌≢◌, refl, sym, ap, ◌∙◌, Bool, true, false, some, List, [], ◌∷◌, ◌++◌, arith, All,
}
use dfss.Text.{Str, codes}
use dfss.Text.Map.{map_find, IsSorted, map_insert-IsSorted, map_modify-IsSorted}
use dfss.Text.Order.{set_has}
use dfss.Text.Split.{
  Boost, has_byte, has_byte-append, Free, split-tokens, tokens, terminated, tokens-terminated,
  tokens_first, tokens_last,
}
use dfss.Members.{
  MemberEntry, MemberList, member_entry, Node, bool_to_string, make_message, heard_from,
  heartbeat_entry, heartbeat_entries, heartbeat_handler, add_to_local_neighbour_list,
}
use dfss.Ring.Splice.{Yields}
use dfss.Members.Learn.{gossip, learn, learn_all, learn_all-IsSorted, find-learn_all}

-- One entry of the message, without its `;`.
item : Str × MemberEntry → Str
item (ip, e) = ip ++ (b':' ∷ bool_to_string e.failed)

items : MemberList → List Str
unfolding item
items [] = []
items (x ∷ m) = item x ∷ items m

make_message-terminated :
    (str : Str) (m : MemberList) → make_message str m ≡ str ++ terminated b';' (items m)
unfolding make_message terminated items
make_message-terminated str [] = sym (append-nil str)
make_message-terminated str ((ip, e) ∷ m) =
    make_message-terminated (str ++ (ip ++ (b':' ∷ (bool_to_string e.failed ++ (b';' ∷ []))))) m
    ∙ simp append_assoc

-- An address without the bytes that the message is cut at.
abbrev pub IsPlain : Str × MemberEntry → Type 0
IsPlain (ip, e) = (has_byte b';' ip ≡ false) × (has_byte b':' ip ≡ false)

bool_to_string-free : (d : ℕ) (f : Bool) → 49 ≤ d → d ≢ 49 → has_byte d (bool_to_string f) ≡ false
unfolding bool_to_string
bool_to_string-free d true h n = ground arith
bool_to_string-free d false h n = ground arith

items-Free : (m : MemberList) → All IsPlain m → Free b';' (items m)
unfolding items
items-Free [] p = tt
items-Free ((ip, e) ∷ m) p = (
  rw has_byte-append
      (ground (arith, bool_to_string-free b';' e.failed (omega arith) (omega arith))),
  items-Free m p.1,
)

tokens-item :
    (ip : Str) (e : MemberEntry)
    → IsPlain (ip, e)
    → tokens b':' (item (ip, e)) ≡ ip ∷ bool_to_string e.failed ∷ []
unfolding item
tokens-item ip e p =
    tokens_first b':' ip (bool_to_string e.failed) p.1
    ∙ ap (◌∷◌ ip) (
        tokens_last b':' (bool_to_string e.failed)
          (bool_to_string-free b':' e.failed (omega arith) (omega arith)))

-- The handler's loop over the tokens of a message is that step for each entry.
heartbeat_entry-learn :
    (b : Boost) (ip : Str) (p : MemberEntry) (now : ℕ) (n : Node)
    → IsPlain (ip, p)
    → heartbeat_entry b (item (ip, p)) now n
      ≡ some (record n { member_list = learn n.local_neighbour_list now ip p n.member_list })
unfolding heartbeat_entry learn
heartbeat_entry-learn b ip p now n plain =
    let parsed = split-tokens b b':' (item (ip, p)) ∙ tokens-item ip p plain in
    rw parsed (ground arith)

heartbeat_entries-learn :
    (b : Boost) (peer : MemberList) (now : ℕ) (n : Node)
    → All IsPlain peer
    → heartbeat_entries b (items peer ++ ([] ∷ [])) now n
      ≡ some (record n { member_list = learn_all n.local_neighbour_list now peer n.member_list })
unfolding learn_all items heartbeat_entries
heartbeat_entries-learn b [] now n plain = refl
heartbeat_entries-learn b ((ip, p) ∷ peer) now n plain =
    let n' : Node = record n {
      member_list = learn n.local_neighbour_list now ip p n.member_list;
    } in
    more (items peer) (heartbeat_entries-learn b peer now n' plain.1)
  where
    more :
        (ts : List Str)
        → heartbeat_entries b
            (ts ++ ([] ∷ []))
            now
            (record n { member_list = learn n.local_neighbour_list now ip p n.member_list })
          ≡ some (record n {
            member_list =
                learn_all n.local_neighbour_list now peer
                  (learn n.local_neighbour_list now ip p n.member_list);
          })
        → heartbeat_entries b (item (ip, p) ∷ (ts ++ ([] ∷ []))) now n
          ≡ some (record n {
            member_list =
                learn_all n.local_neighbour_list now peer
                  (learn n.local_neighbour_list now ip p n.member_list);
          })
    more [] h = rw (heartbeat_entry-learn b ip p now n plain.0) h
    more (t ∷ ts) h = rw (heartbeat_entry-learn b ip p now n plain.0) h

pub heard_from-IsSorted :
    (ip : Str) (now : ℕ) (n : Node)
    → IsSorted n.member_list
    → IsSorted (heard_from ip now n).member_list
unfolding heard_from add_to_local_neighbour_list
heard_from-IsSorted ip now n s = ground (
  arith,
  map_insert-IsSorted ip (member_entry ip now) n.member_list s,
  map_modify-IsSorted (λ (e : MemberEntry). record e { time_stamp = now; failed = false }) ip
      n.member_list s,
)

-- The whole handler, on a message of `make_message`: the sender is heard of, then each entry is
-- learned.
pub heartbeat_handler-learn :
    (b : Boost) (peer : MemberList) (ip : Str) (now : ℕ) (n : Node)
    → All IsPlain peer
    → heartbeat_handler b (make_message [] peer) ip now n
      ≡ some (
        record (heard_from ip now n) {
          member_list =
              learn_all
                (heard_from ip now n).local_neighbour_list
                now
                peer
                (heard_from ip now n).member_list;
        },
        codes "pong",
      )
unfolding heartbeat_handler
heartbeat_handler-learn b peer ip now n plain =
    let parsed =
      split-tokens b b';' (make_message [] peer)
      ∙ ap (tokens b';') (make_message-terminated [] peer)
      ∙ tokens-terminated b';' (items peer) (items-Free peer plain) in
    rw (parsed, heartbeat_entries-learn b peer now (heard_from ip now n) plain) refl

-- The result of a heartbeat, member by member.
pub record Merged (now : ℕ) (peer : MemberList) (heard : Node) (out : Node × Str) : Type 0 where
  pub reply : out.1 ≡ codes "pong"
  pub sorted : IsSorted out.0.member_list
  pub neighbours : out.0.local_neighbour_list ≡ heard.local_neighbour_list
  pub master : out.0.master ≡ heard.master
  pub members :
      (i : Str)
      → map_find i out.0.member_list
        ≡ gossip now
            (set_has i heard.local_neighbour_list)
            i
            (map_find i peer)
            (map_find i heard.member_list)

-- A heartbeat with the message that `make_message` writes for a sorted list `peer` of addresses
-- without `:` and `;` has every token that is read, is answered with `pong`, and leaves a sorted list.
-- In it every member is what `gossip` makes of the two lists, after the sender itself was heard of; a
-- member that was not known is a new entry, which records the overrun of its constructor;
-- the neighbours and the master are untouched by the entries.
pub heartbeat-merges :
    (b : Boost) (peer : MemberList) (ip : Str) (now : ℕ) (n : Node)
    → All IsPlain peer
    → IsSorted peer
    → IsSorted n.member_list
    → Yields
        (Merged now peer (heard_from ip now n))
        (heartbeat_handler b (make_message [] peer) ip now n)
heartbeat-merges b peer ip now n plain sp sn =
    let heard = heard_from-IsSorted ip now n sn in
    rw (heartbeat_handler-learn b peer ip now n plain) (record {
      reply = refl;
      sorted =
          learn_all-IsSorted (heard_from ip now n).local_neighbour_list now peer
            (heard_from ip now n).member_list heard;
      neighbours = refl;
      master = refl;
      members = λ i.
          find-learn_all (heard_from ip now n).local_neighbour_list now i peer
            (heard_from ip now n).member_list sp heard;
    })
