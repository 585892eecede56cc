-- ===== src/Lsm/Arena/Disjoint.antt =====
-- Allocations of pkg/lsm/arena/arena.go with other calls in between.
use indexed_watch.Prelude.{
  ℕ, ◌+◌, ◌*◌, ◌^◌, ◌≤◌, ◌<◌, ◌≡◌, refl, ◌∙◌, some, List, [], ◌∷◌, length, arith, All,
}
use indexed_watch.Lsm.Arena.{Arena, alloc, Request, IsRequest, IsValid, alloc_region}

-- Calls of `Alloc` in order, whether they succeed or not.
unfoldable pub alloc_each : List Request → Arena → Arena
alloc_each [] a = a
alloc_each (q ∷ qs) a = alloc_each qs (alloc q.size q.alignment a).1

-- One call moves the counter forward by less than 2 ^ 33.
alloc_step :
    (q : Request) (a : Arena)
    → IsRequest q
    → a.n < 2 ^ 63
    → (a.n ≤ (alloc q.size q.alignment a).1.n)
      × ((alloc q.size q.alignment a).1.n < a.n + 2 ^ 33)
      × ((alloc q.size q.alignment a).1.capacity ≡ a.capacity)
unfolding alloc
alloc_step q a r h = (ground arith, ground arith, ground arith)

alloc_each_step :
    (qs : List Request) (a : Arena)
    → All IsRequest qs
    → a.n + length qs * 2 ^ 33 < 2 ^ 63
    → (a.n ≤ (alloc_each qs a).n)
      × ((alloc_each qs a).n < 2 ^ 63)
      × ((alloc_each qs a).capacity ≡ a.capacity)
unfolding alloc_each
alloc_each_step [] a r h = (omega arith, omega arith, refl)
alloc_each_step (q ∷ qs) a r h =
    let one = alloc_step q a r.0 (omega arith) in
    let rest = alloc_each_step qs (alloc q.size q.alignment a).1 r.1 (omega arith) in
    (omega arith, omega arith, rest.2 ∙ one.2)

-- What a call allocated ends before what a later call allocates, however many calls are in
-- between, as long as the counter stays below 2 ^ 63: each call moves it by less than 2 ^ 33.
pub alloc-disjoint :
    (a : Arena) (q r : Request) (between : List Request) (first later : ℕ)
    → IsValid a
    → IsRequest q
    → IsRequest r
    → All IsRequest between
    → a.n + (length between + 1) * 2 ^ 33 < 2 ^ 63
    → (alloc q.size q.alignment a).0 ≡ some first
    → (alloc r.size r.alignment (alloc_each between (alloc q.size q.alignment a).1)).0 ≡ some later
    → first + q.size ≤ later
alloc-disjoint a q r between first later v iq ir ib room h k =
    let one = alloc_step q a iq (omega arith) in
    let rest = alloc_each_step between (alloc q.size q.alignment a).1 ib (omega arith) in
    let region = alloc_region q a first iq v h in
    let last =
      alloc_region r (alloc_each between (alloc q.size q.alignment a).1) later ir
        (record { started = omega arith; capacity_fits = omega arith; room = rest.1 }) k in
    omega arith
