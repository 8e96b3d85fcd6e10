-- ===== src/Introducer/Replies.antt =====
-- src/client.cpp: from the ring to the neighbours of a client, what the introducer writes and the
-- client reads.
use mathlib.Core.List.{append-nil, append_assoc}
use dfss.Base.{
  ◌≡◌, refl, sym, ap, ◌∙◌, ◌≢◌, Bool, false, not, ◌&&◌, ◌||◌, some, List, [], ◌∷◌, ◌++◌, arith,
  ◌==◌,
}
use dfss.Text.{Str, str_eq, str_eq_iff}
use dfss.Text.Order.{set_has, IsRising, set_insert-IsRising, set_has-set_insert}
use dfss.Text.Split.{Boost, Free, split-tokens, tokens, terminated, tokens-terminated}
use dfss.Introducer.{add_neighbour, neighbour_set, write_list}
use dfss.Members.{Node, contact_introducer, update_handler, drop_last_empty}
use dfss.Node.{Ptr, null, VirtualRing}

write_list-terminated :
    (response : Str) (xs : List Str) → write_list response xs ≡ response ++ terminated b';' xs
unfolding write_list terminated
write_list-terminated response [] = sym (append-nil response)
write_list-terminated response (x ∷ xs) =
    write_list-terminated (response ++ (x ++ (b';' ∷ []))) xs ∙ simp append_assoc

drop_last_empty-end : (xs : List Str) → drop_last_empty (xs ++ ([] ∷ [])) ≡ xs
unfolding drop_last_empty
drop_last_empty-end [] = refl
drop_last_empty-end (x ∷ []) = one x
  where
    one : (x : Str) → drop_last_empty (x ∷ [] ∷ []) ≡ x ∷ []
    one [] = refl
    one (c ∷ x) = refl
drop_last_empty-end (x ∷ y ∷ xs) = more x (drop_last_empty-end (y ∷ xs))
  where
    more :
        (x : Str)
        → drop_last_empty (y ∷ (xs ++ ([] ∷ []))) ≡ y ∷ xs
        → drop_last_empty (x ∷ y ∷ (xs ++ ([] ∷ []))) ≡ x ∷ y ∷ xs
    more [] h = ap (◌∷◌ []) h
    more (c ∷ x) h = ap (◌∷◌ (c ∷ x)) h

pub read_back :
    (b : Boost) (xs : List Str)
    → Free b';' xs
    → drop_last_empty (b.split b';' (write_list [] xs)) ≡ xs
read_back b xs free =
    ap drop_last_empty (
      split-tokens b b';' (write_list [] xs)
      ∙ ap (tokens b';') (write_list-terminated [] xs)
      ∙ tokens-terminated b';' xs free)
    ∙ drop_last_empty-end xs

-- A list of addresses without `;`, as the introducer writes it, is the list of neighbours that a
-- client holds after `update_handler` and after `contact_introducer`; `update_handler` leaves the
-- membership list alone.
pub update-roundtrip :
    (b : Boost) (xs : List Str) (n : Node)
    → Free b';' xs
    → ((update_handler b (write_list [] xs) n).0.local_neighbour_list ≡ xs)
      × ((contact_introducer b (write_list [] xs) n).local_neighbour_list ≡ xs)
      × ((update_handler b (write_list [] xs) n).0.member_list ≡ n.member_list)
unfolding update_handler contact_introducer
update-roundtrip b xs n free = (read_back b xs free, read_back b xs free, refl)

-- Is `x` the address of the pointer, and not `ip`?
abbrev pub names : Str → VirtualRing → Str → Ptr → Bool
names ip r x p = not (p == null) && (not (str_eq ip x) && str_eq x (r.ip_addr p))

add_neighbour-has :
    (ip : Str) (p : Ptr) (r : VirtualRing) (xs : List Str) (x : Str)
    → set_has x (add_neighbour ip p r xs) ≡ (names ip r x p || set_has x xs)
unfolding add_neighbour
add_neighbour-has ip p r xs x = ground (
  arith,
  set_has-set_insert (r.ip_addr p) x xs,
  str_eq_iff x (r.ip_addr p),
  str_eq_iff ip (r.ip_addr p),
  str_eq_iff ip x,
)

add_neighbour-IsRising :
    (ip : Str) (p : Ptr) (r : VirtualRing) (xs : List Str)
    → IsRising xs
    → IsRising (add_neighbour ip p r xs)
unfolding add_neighbour
add_neighbour-IsRising ip p r xs h = ground (arith, set_insert-IsRising (r.ip_addr p) xs h)

-- For a node `t` that is not NULL, `neighbour_set` follows no NULL pointer, and gives the addresses
-- behind the four pointers of `t` that are not NULL, without `ip`, each once and in order.
pub neighbour_set_lem :
    (ip : Str) (t : Ptr) (r : VirtualRing)
    → t ≢ null
    → (xs : List Str) × (neighbour_set ip t r ≡ some xs)
      × IsRising xs
      × ((x : Str)
          → set_has x xs ≡ (
              names ip r x (r.prev2 t)
              || (names ip r x (r.prev1 t)
                  || (names ip r x (r.next2 t) || names ip r x (r.next1 t)))))
unfolding neighbour_set set_has
neighbour_set_lem ip t r ne =
    let open_t : (t == null) ≡ false = ground arith in
    let l1 = add_neighbour ip (r.next1 t) r [] in
    let l2 = add_neighbour ip (r.next2 t) r l1 in
    let l3 = add_neighbour ip (r.prev1 t) r l2 in
    (
      add_neighbour ip (r.prev2 t) r l3,
      rw open_t refl,
      add_neighbour-IsRising ip (r.prev2 t) r l3 (
          add_neighbour-IsRising ip (r.prev1 t) r l2 (
            add_neighbour-IsRising ip (r.next2 t) r l1
              (add_neighbour-IsRising ip (r.next1 t) r [] tt))),
      λ x. ground (
        arith,
        add_neighbour-has ip (r.prev2 t) r l3 x,
        add_neighbour-has ip (r.prev1 t) r l2 x,
        add_neighbour-has ip (r.next2 t) r l1 x,
        add_neighbour-has ip (r.next1 t) r [] x,
      ),
    )

-- What the neighbours of `t` should be: the addresses behind its four pointers, those at NULL and the
-- node's own address left out, each once and in order.
pub record IsNeighbourSet (r : VirtualRing) (t : Ptr) (xs : List Str) : Type 0 where
  pub rising : IsRising xs
  pub exactly :
      (x : Str)
      → set_has x xs ≡ (
          names (r.ip_addr t) r x (r.prev2 t)
          || (names (r.ip_addr t) r x (r.prev1 t)
              || (names (r.ip_addr t) r x (r.next2 t) || names (r.ip_addr t) r x (r.next1 t))))

pub neighbour_set-IsNeighbourSet :
    (t : Ptr) (r : VirtualRing)
    → t ≢ null
    → (xs : List Str) × (neighbour_set (r.ip_addr t) t r ≡ some xs) × IsNeighbourSet r t xs
neighbour_set-IsNeighbourSet t r live =
    let (xs, e, rising, has) = neighbour_set_lem (r.ip_addr t) t r live in
    (xs, e, record { rising = rising; exactly = has })
