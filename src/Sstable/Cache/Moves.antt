-- ===== src/Sstable/Cache/Moves.antt =====
-- `pushFront` and `moveToFront` of pkg/lsm/sstable/cache.go.
use indexed_watch.Prelude.{
  ℕ, ◌≡◌, refl, ap, sym, subst, ◌∙◌, true, false, Option, none, some, List, [], ◌∷◌, ◌++◌, ◌==◌,
  if◌then◌else◌, All, All-append, All-append-split, ==_self, Bool-cases, inl, inr,
}
use indexed_watch.Sstable.Cache.{
  BlockCache, write, set_prev, set_next, link_head, link_tail, push_front, remove, is_head,
  move_to_front,
}
use indexed_watch.Sstable.Cache.Links.{
  first, last, Linked, Other, Nodup, put, Links, Links-put, Kept, Kept-trans, set_prev-Kept,
  set_next-Kept, remove-Kept, remove-Links, relink_prev, around_others, Other-sym,
}

last-some : (ps : List ℕ) (q : ℕ) → (t : ℕ) × (last ps (some q) ≡ some t)
last-some [] q = (q, refl)
last-some (p ∷ ps) q = last-some ps p

-- The new entry's own links.
marked : ℕ → BlockCache → BlockCache
marked p c = set_next p c.head (set_prev p none c)

marked-Links :
    (p : ℕ) (c : BlockCache) (ps : List ℕ) → All (Other p) ps → Links c ps → Links (marked p c) ps
unfolding marked set_next set_prev
marked-Links p c ps o v =
    let c₁ = write p (record (c.heap p) { prev = none }) c in
    Links-put c₁ p (record (c₁.heap p) { next = c.head }) ps o
      (Links-put c p (record (c.heap p) { prev = none }) ps o v)

marked_here :
    (p : ℕ) (c : BlockCache)
    → (((marked p c).heap p).prev ≡ none) × (((marked p c).heap p).next ≡ c.head)
unfolding marked set_next set_prev write
marked_here p c = (rw (==_self p) refl, rw (==_self p) refl)

-- The two tests of `pushFront` on these values of the head and the tail.
at_front : Option ℕ → Option ℕ → ℕ → BlockCache → BlockCache
at_front hd tl p c = link_tail tl p (record (link_head hd p c) { head = some p })

link_head_tail : (hd : Option ℕ) (p : ℕ) (c : BlockCache) → (link_head hd p c).tail ≡ c.tail
unfolding link_head set_prev write
link_head_tail none p c = refl
link_head_tail (some h) p c = refl

push_front-at_front :
    (p : ℕ) (c : BlockCache)
    → push_front p c ≡ at_front (marked p c).head (marked p c).tail p (marked p c)
unfolding push_front at_front marked
push_front-at_front p c =
    let c₁ = set_next p c.head (set_prev p none c) in
    ap (λ t. link_tail t p (record (link_head c₁.head p c₁) { head = some p }))
      (link_head_tail c₁.head p c₁)

at_front-Links :
    (p : ℕ) (c : BlockCache) (ps : List ℕ)
    → All (Other p) ps
    → Nodup ps
    → Links c ps
    → (c.heap p).prev ≡ none
    → (c.heap p).next ≡ first ps none
    → Links (at_front (first ps none) (last ps none) p c) (p ∷ ps)
unfolding at_front link_head link_tail set_prev write
at_front-Links p c [] o d v a b = record { chain = (a, b, tt); front = refl; back = refl }
at_front-Links p c (h ∷ ps) o d v a b =
    let (t, e) = last-some ps h in
    let entry = record (c.heap h) { prev = some p } in
    let other : (h == p) ≡ false = Other-sym p h o.0 in
    let chain : Linked (put h entry c.heap) none (p ∷ h ∷ ps) none =
      (rw other a, rw other b, relink_prev c.heap none (some p) h ps none d.0 v.chain) in
    subst
      (λ x. Links (link_tail x p (record (link_head (some h) p c) { head = some p })) (p ∷ h ∷ ps))
      (sym e) (record { chain = chain; front = refl; back = v.back })

-- The entry becomes the first of the list.
pub push_front-Links :
    (p : ℕ) (c : BlockCache) (ps : List ℕ)
    → All (Other p) ps
    → Nodup ps
    → Links c ps
    → Links (push_front p c) (p ∷ ps)
push_front-Links p c ps o d v =
    let w = marked-Links p c ps o v in
    let (a, b) = marked_here p c in
    let m = marked p c in
    let at : Links (at_front (first ps none) (last ps none) p m) (p ∷ ps) =
      at_front-Links p m ps o d w a (b ∙ v.front) in
    subst (λ x. Links x (p ∷ ps))
      (ap (λ t. at_front (first ps none) t p m) (sym w.back)
        ∙ ap (λ t. at_front t m.tail p m) (sym w.front)
        ∙ sym (push_front-at_front p c))
      at

link_head-Kept : (hd : Option ℕ) (p : ℕ) (c : BlockCache) → Kept c (link_head hd p c)
unfolding link_head
link_head-Kept none p c = record {
  keys = λ q. refl;
  blocks = λ q. refl;
  items = refl;
  size = refl;
  capacity = refl;
  allocated = refl;
}
link_head-Kept (some h) p c = set_prev-Kept h (some p) c

link_tail-Kept : (tl : Option ℕ) (p : ℕ) (c : BlockCache) → Kept c (link_tail tl p c)
unfolding link_tail
link_tail-Kept none p c = record {
  keys = λ q. refl;
  blocks = λ q. refl;
  items = refl;
  size = refl;
  capacity = refl;
  allocated = refl;
}
link_tail-Kept (some t) p c = record {
  keys = λ q. refl;
  blocks = λ q. refl;
  items = refl;
  size = refl;
  capacity = refl;
  allocated = refl;
}

head-Kept : (h : Option ℕ) (c : BlockCache) → Kept c (record c { head = h })
head-Kept h c = record {
  keys = λ q. refl;
  blocks = λ q. refl;
  items = refl;
  size = refl;
  capacity = refl;
  allocated = refl;
}

pub push_front-Kept : (p : ℕ) (c : BlockCache) → Kept c (push_front p c)
unfolding push_front
push_front-Kept p c =
    let c₀ = set_prev p none c in
    let c₁ = set_next p c.head c₀ in
    let c₂ = link_head c₁.head p c₁ in
    let c₃ = record c₂ { head = some p } in
    Kept-trans c c₁ (link_tail c₃.tail p c₃)
      (Kept-trans c c₀ c₁ (set_prev-Kept p none c) (set_next-Kept p c.head c₀))
      (Kept-trans c₁ c₂ (link_tail c₃.tail p c₃) (link_head-Kept c₁.head p c₁) (
        Kept-trans c₂ c₃ (link_tail c₃.tail p c₃) (head-Kept (some p) c₂)
          (link_tail-Kept c₃.tail p c₃)))

pub without : (xs : List ℕ) (p : ℕ) (ys : List ℕ) → Nodup (xs ++ p ∷ ys) → Nodup (xs ++ ys)
without [] p ys d = d.1
without (x ∷ xs) p ys d =
    let (a, b) = All-append-split (Other x) xs (p ∷ ys) d.0 in
    (All-append (Other x) xs ys a b.1, without xs p ys d.1)

-- An entry of the list becomes its first, and the others stay in order.
pub move_to_front-Links :
    (c : BlockCache) (xs : List ℕ) (p : ℕ) (ys : List ℕ)
    → Links c (xs ++ p ∷ ys)
    → Nodup (xs ++ p ∷ ys)
    → Links (move_to_front p c) (p ∷ (xs ++ ys))
unfolding move_to_front is_head
move_to_front-Links c [] p ys v d =
    let e : is_head c.head p ≡ true = ap (λ h. is_head h p) v.front ∙ ==_self p in
    subst (λ b. Links (if b then c else push_front p (remove p c)) (p ∷ ys)) (sym e) v
move_to_front-Links c (x ∷ xs) p ys v d =
    let other = (All-append-split (Other x) xs (p ∷ ys) d.0).1.0 in
    let e : is_head c.head p ≡ false = ap (λ h. is_head h p) v.front ∙ other in
    subst (λ b. Links (if b then c else push_front p (remove p c)) (p ∷ (x ∷ (xs ++ ys)))) (sym e)
      (push_front-Links p (remove p c) (x ∷ (xs ++ ys)) (around_others (x ∷ xs) p ys d)
        (without (x ∷ xs) p ys d) (remove-Links c (x ∷ xs) p ys v d))

pub move_to_front-Kept : (p : ℕ) (c : BlockCache) → Kept c (move_to_front p c)
unfolding move_to_front
move_to_front-Kept p c = elim (Bool-cases (is_head c.head p)) [
  | inl yes' ↦ rw yes' (record {
    keys = λ q. refl;
    blocks = λ q. refl;
    items = refl;
    size = refl;
    capacity = refl;
    allocated = refl;
  })
  | inr no' ↦ rw no' (
      Kept-trans c (remove p c) (push_front p (remove p c)) (remove-Kept p c)
        (push_front-Kept p (remove p c)))
]
