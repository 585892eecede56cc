-- ===== src/Sstable/Cache/Links.antt =====
-- The doubly linked list of pkg/lsm/sstable/cache.go.
use indexed_watch.Prelude.{
  ℕ, ◌≡◌, refl, ap, sym, subst, ◌∙◌, false, Option, none, some, List, [], ◌∷◌, ◌++◌, ◌==◌,
  if◌then◌else◌, All, All-append, All-append-split, arith, ◌⊎◌, inl, inr, ==_self, ==_iff,
}
use indexed_watch.Sstable.Cache.{
  LruEntry, BlockCache, write, set_prev, set_next, unlink_prev, unlink_next, remove,
}

-- The first and the last pointer of a list, or what is beyond it.
abbrev pub first : List ℕ → Option ℕ → Option ℕ
first [] beyond = beyond
first (p ∷ ps) beyond = some p

abbrev pub last : List ℕ → Option ℕ → Option ℕ
last [] beyond = beyond
last (p ∷ ps) beyond = last ps (some p)

-- The entries point to their neighbours.
abbrev pub Linked : (ℕ → LruEntry) → Option ℕ → List ℕ → Option ℕ → Type 0
Linked h before [] after = Unit
Linked h before (p ∷ ps) after =
    ((h p).prev ≡ before) × ((h p).next ≡ first ps after) × Linked h (some p) ps after

abbrev pub Other : ℕ → ℕ → Type 0
Other p q = (p == q) ≡ false

abbrev pub Nodup : List ℕ → Type 0
Nodup [] = Unit
Nodup (p ∷ ps) = All (Other p) ps × Nodup ps

pub Linked-append :
    (h : ℕ → LruEntry) (b : Option ℕ) (xs ys : List ℕ) (a : Option ℕ)
    → Linked h b (xs ++ ys) a
    → Linked h b xs (first ys a) × Linked h (last xs b) ys a
Linked-append h b [] ys a v = (tt, v)
Linked-append h b (x ∷ []) ys a v = ((v.0, v.1, tt), v.2)
Linked-append h b (x ∷ y ∷ xs) ys a v =
    let (l, r) = Linked-append h (some x) (y ∷ xs) ys a v.2 in ((v.0, v.1, l), r)

pub append-Linked :
    (h : ℕ → LruEntry) (b : Option ℕ) (xs ys : List ℕ) (a : Option ℕ)
    → Linked h b xs (first ys a)
    → Linked h (last xs b) ys a
    → Linked h b (xs ++ ys) a
append-Linked h b [] ys a v w = w
append-Linked h b (x ∷ []) ys a v w = (v.0, v.1, w)
append-Linked h b (x ∷ y ∷ xs) ys a v w = (v.0, v.1, append-Linked h (some x) (y ∷ xs) ys a v.2 w)

-- A heap that has the same links at these pointers.
abbrev pub Agree : (ℕ → LruEntry) → (ℕ → LruEntry) → ℕ → Type 0
Agree h h' p = ((h' p).prev ≡ (h p).prev) × ((h' p).next ≡ (h p).next)

pub Linked-Agree :
    (h h' : ℕ → LruEntry) (b : Option ℕ) (ps : List ℕ) (a : Option ℕ)
    → Linked h b ps a
    → All (Agree h h') ps
    → Linked h' b ps a
Linked-Agree h h' b [] a v g = tt
Linked-Agree h h' b (p ∷ ps) a v g =
    (g.0.0 ∙ v.0, g.0.1 ∙ v.1, Linked-Agree h h' (some p) ps a v.2 g.1)

abbrev pub put : ℕ → LruEntry → (ℕ → LruEntry) → ℕ → LruEntry
put p e h q = if p == q then e else h q

pub put-Agree :
    (p : ℕ) (e : LruEntry) (h : ℕ → LruEntry) (ps : List ℕ)
    → All (Other p) ps
    → All (Agree h (put p e h)) ps
put-Agree p e h [] o = tt
put-Agree p e h (q ∷ ps) o = ((rw o.0 refl, rw o.0 refl), put-Agree p e h ps o.1)

pub Other-sym : (p q : ℕ) → Other p q → Other q p
Other-sym p q h = ground arith

-- The entry after the list is another one.
relink_next :
    (h : ℕ → LruEntry) (b : Option ℕ) (xs : List ℕ) (q : ℕ) (a n : Option ℕ)
    → Nodup (xs ++ q ∷ [])
    → Linked h b (xs ++ q ∷ []) a
    → Linked (put q (record (h q) { next = n }) h) b (xs ++ q ∷ []) n
relink_next h b [] q a n d v = (rw (==_self q) v.0, rw (==_self q) refl, tt)
relink_next h b (x ∷ []) q a n d v =
    let o = Other-sym x q d.0.0 in
    (rw o v.0, rw o v.1, (rw (==_self q) v.2.0, rw (==_self q) refl, tt))
relink_next h b (x ∷ y ∷ xs) q a n d v =
    let o = Other-sym x q (All-append-split (Other x) (y ∷ xs) (q ∷ []) d.0).1.0 in
    (rw o v.0, rw o v.1, relink_next h (some x) (y ∷ xs) q a n d.1 v.2)

-- The entry before the list is another one.
pub relink_prev :
    (h : ℕ → LruEntry) (b n : Option ℕ) (q : ℕ) (ys : List ℕ) (a : Option ℕ)
    → All (Other q) ys
    → Linked h b (q ∷ ys) a
    → Linked (put q (record (h q) { prev = n }) h) n (q ∷ ys) a
relink_prev h b n q ys a d v = (
  rw (==_self q) refl,
  rw (==_self q) v.1,
  Linked-Agree h (put q (record (h q) { prev = n }) h) (some q) ys a v.2
      (put-Agree q (record (h q) { prev = n }) h ys d),
)

-- The list from the head to the tail.
pub record Links (c : BlockCache) (ps : List ℕ) : Type 0 where
  pub chain : Linked c.heap none ps none
  pub front : c.head ≡ first ps none
  pub back : c.tail ≡ last ps none

-- What the operations on links do not touch.
pub record Kept (c c' : BlockCache) : Type 0 where
  pub keys : (q : ℕ) → (c'.heap q).key ≡ (c.heap q).key
  pub blocks : (q : ℕ) → (c'.heap q).block ≡ (c.heap q).block
  pub items : c'.items ≡ c.items
  pub size : c'.size ≡ c.size
  pub capacity : c'.capacity ≡ c.capacity
  pub allocated : c'.allocated ≡ c.allocated

pub Kept-trans : (a b c : BlockCache) → Kept a b → Kept b c → Kept a c
Kept-trans a b c v w = record {
  keys = λ q. w.keys q ∙ v.keys q;
  blocks = λ q. w.blocks q ∙ v.blocks q;
  items = w.items ∙ v.items;
  size = w.size ∙ v.size;
  capacity = w.capacity ∙ v.capacity;
  allocated = w.allocated ∙ v.allocated;
}

pub set_prev-Kept : (p : ℕ) (v : Option ℕ) (c : BlockCache) → Kept c (set_prev p v c)
unfolding set_prev write
set_prev-Kept p v c = record {
  keys = λ q. ground (arith, ==_iff p q);
  blocks = λ q. ground (arith, ==_iff p q);
  items = refl;
  size = refl;
  capacity = refl;
  allocated = refl;
}

pub set_next-Kept : (p : ℕ) (v : Option ℕ) (c : BlockCache) → Kept c (set_next p v c)
unfolding set_next write
set_next-Kept p v c = record {
  keys = λ q. ground (arith, ==_iff p q);
  blocks = λ q. ground (arith, ==_iff p q);
  items = refl;
  size = refl;
  capacity = refl;
  allocated = refl;
}

unlink_prev-Kept : (q n : Option ℕ) (c : BlockCache) → Kept c (unlink_prev q n c)
unfolding unlink_prev
unlink_prev-Kept none n c = record {
  keys = λ q. refl;
  blocks = λ q. refl;
  items = refl;
  size = refl;
  capacity = refl;
  allocated = refl;
}
unlink_prev-Kept (some q) n c = set_next-Kept q n c

unlink_next-Kept : (q n : Option ℕ) (c : BlockCache) → Kept c (unlink_next q n c)
unfolding unlink_next
unlink_next-Kept none n c = record {
  keys = λ q. refl;
  blocks = λ q. refl;
  items = refl;
  size = refl;
  capacity = refl;
  allocated = refl;
}
unlink_next-Kept (some q) n c = set_prev-Kept q n c

pub remove-Kept : (p : ℕ) (c : BlockCache) → Kept c (remove p c)
unfolding remove
remove-Kept p c =
    let c₁ = unlink_prev (c.heap p).prev (c.heap p).next c in
    let c₂ = unlink_next (c₁.heap p).next (c₁.heap p).prev c₁ in
    Kept-trans c c₂ (remove p c)
      (Kept-trans c c₁ c₂ (unlink_prev-Kept (c.heap p).prev (c.heap p).next c)
        (unlink_next-Kept (c₁.heap p).next (c₁.heap p).prev c₁))
      (Kept-trans c₂ (set_prev p none c₂) (set_next p none (set_prev p none c₂))
        (set_prev-Kept p none c₂) (set_next-Kept p none (set_prev p none c₂)))

pub snoc_view : (xs : List ℕ) → (xs ≡ []) ⊎ ((ws : List ℕ) × (q : ℕ) × (xs ≡ ws ++ q ∷ []))
snoc_view [] = inl refl
snoc_view (x ∷ xs) = elim (snoc_view xs) [
  | inl e ↦ inr ([], x, ap (λ l. x ∷ l) e)
  | inr (ws, q, e) ↦ inr (x ∷ ws, q, ap (λ l. x ∷ l) e)
]

pub last-snoc : (ws : List ℕ) (q : ℕ) (b : Option ℕ) → last (ws ++ q ∷ []) b ≡ some q
last-snoc [] q b = refl
last-snoc (w ∷ ws) q b = last-snoc ws q (some w)

pub Nodup-append :
    (xs ys : List ℕ) → Nodup (xs ++ ys) → Nodup xs × Nodup ys × All (λ (x : ℕ). All (Other x) ys) xs
Nodup-append [] ys d = (tt, d, tt)
Nodup-append (x ∷ xs) ys d =
    let (a, b) = All-append-split (Other x) xs ys d.0 in
    let (u, v, w) = Nodup-append xs ys d.1 in ((a, u), v, (b, w))

-- After the first test of `remove`: the part before the entry skips it.
record Skipped (c c₁ : BlockCache) (xs : List ℕ) (p : ℕ) (ys : List ℕ) : Type 0 where
  before : Linked c₁.heap none xs (first ys none)
  behind : Linked c₁.heap (some p) ys none
  front : c₁.head ≡ first (xs ++ ys) none
  back : c₁.tail ≡ c.tail
  here : Agree c.heap c₁.heap p

first-append :
    (xs : List ℕ) (q : ℕ) (ys : List ℕ)
    → first ((xs ++ q ∷ []) ++ ys) none ≡ first (xs ++ q ∷ []) none
first-append [] q ys = refl
first-append (x ∷ xs) q ys = refl

first_same :
    (xs : List ℕ) (q : ℕ) (a b : Option ℕ) → first (xs ++ q ∷ []) a ≡ first (xs ++ q ∷ []) b
first_same [] q a b = refl
first_same (x ∷ xs) q a b = refl

skip_from :
    (c : BlockCache) (ws : List ℕ) (q p : ℕ) (ys : List ℕ)
    → Links c ((ws ++ q ∷ []) ++ p ∷ ys)
    → Nodup ((ws ++ q ∷ []) ++ p ∷ ys)
    → Skipped c (unlink_prev (some q) (first ys none) c) (ws ++ q ∷ []) p ys
unfolding unlink_prev set_next write
skip_from c ws q p ys w n =
    let xs = ws ++ q ∷ [] in
    let e = record (c.heap q) { next = first ys none } in
    let (l, r) = Linked-append c.heap none xs (p ∷ ys) none w.chain in
    let (n₁, n₂, n₃) = Nodup-append xs (p ∷ ys) n in
    let other = (All-append-split (λ (x : ℕ). All (Other x) (p ∷ ys)) ws (q ∷ []) n₃).1.0 in
    record {
      before = relink_next c.heap none ws q (some p) (first ys none) n₁ l;
      behind =
          Linked-Agree c.heap (put q e c.heap) (some p) ys none r.2
            (put-Agree q e c.heap ys other.1);
      front = w.front ∙ first-append ws q (p ∷ ys) ∙ sym (first-append ws q ys);
      back = refl;
      here = (rw other.0 refl, rw other.0 refl);
    }

unlink_prev-Skipped :
    (c : BlockCache) (xs : List ℕ) (p : ℕ) (ys : List ℕ)
    → Links c (xs ++ p ∷ ys)
    → Nodup (xs ++ p ∷ ys)
    → Skipped c (unlink_prev (last xs none) (first ys none) c) xs p ys
unlink_prev-Skipped c xs p ys v d = elim (snoc_view xs) [
  | inl e ↦
      subst
        (λ l.
          Links c (l ++ p ∷ ys) → Skipped c (unlink_prev (last l none) (first ys none) c) l p ys)
        (sym e)
        (λ w.
          unfold unlink_prev in
          record {
            before = tt;
            behind = w.chain.2;
            front = refl;
            back = refl;
            here = (refl, refl);
          })
        v
  | inr (ws, q, e) ↦
      let P = λ (l : List ℕ).
        Links c (l ++ p ∷ ys)
        → Nodup (l ++ p ∷ ys)
        → Skipped c (unlink_prev (last l none) (first ys none) c) l p ys in
      let it : P (ws ++ q ∷ []) = λ w n.
        subst (λ t. Skipped c (unlink_prev t (first ys none) c) (ws ++ q ∷ []) p ys)
          (sym (last-snoc ws q none)) (skip_from c ws q p ys w n) in
      subst P (sym e) it v d
]

pub last-append : (xs ys : List ℕ) (b : Option ℕ) → last (xs ++ ys) b ≡ last ys (last xs b)
last-append [] ys b = refl
last-append (x ∷ xs) ys b = last-append xs ys (some x)

-- After both tests the entry is out of the list.
record Out (c₂ : BlockCache) (xs ys : List ℕ) : Type 0 where
  before : Linked c₂.heap none xs (first ys none)
  behind : Linked c₂.heap (last xs none) ys none
  front : c₂.head ≡ first (xs ++ ys) none
  back : c₂.tail ≡ last (xs ++ ys) none

others :
    (xs : List ℕ) (p r : ℕ) (ys : List ℕ)
    → All (λ (x : ℕ). All (Other x) (p ∷ r ∷ ys)) xs
    → All (Other r) xs
others [] p r ys h = tt
others (x ∷ xs) p r ys h = (Other-sym x r h.0.1.0, others xs p r ys h.1)

unlink_next-Out :
    (c c₁ : BlockCache) (xs : List ℕ) (p : ℕ) (ys : List ℕ)
    → c.tail ≡ last (xs ++ p ∷ ys) none
    → Nodup (xs ++ p ∷ ys)
    → Skipped c c₁ xs p ys
    → Out (unlink_next (first ys none) (last xs none) c₁) xs ys
unfolding unlink_next set_prev write
unlink_next-Out c c₁ xs p [] t d s = record {
  before = s.before;
  behind = tt;
  front = s.front;
  back = sym (last-append xs [] none);
}
unlink_next-Out c c₁ xs p (r ∷ ys) t d s =
    let e = record (c₁.heap r) { prev = last xs none } in
    let (n₁, n₂, n₃) = Nodup-append xs (p ∷ r ∷ ys) d in
    record {
      before =
          Linked-Agree c₁.heap (put r e c₁.heap) none xs (some r) s.before
            (put-Agree r e c₁.heap xs (others xs p r ys n₃));
      behind = relink_prev c₁.heap (some p) (last xs none) r ys none n₂.1.0 s.behind;
      front = s.front;
      back = s.back ∙ t ∙ last-append xs (p ∷ r ∷ ys) none ∙ sym (last-append xs (r ∷ ys) none);
    }

-- An entry that is not in the list is written.
pub Links-put :
    (c : BlockCache) (p : ℕ) (e : LruEntry) (ps : List ℕ)
    → All (Other p) ps
    → Links c ps
    → Links (write p e c) ps
unfolding write
Links-put c p e ps o v = record {
  chain = Linked-Agree c.heap (put p e c.heap) none ps none v.chain (put-Agree p e c.heap ps o);
  front = v.front;
  back = v.back;
}

pub around_others :
    (xs : List ℕ) (p : ℕ) (ys : List ℕ) → Nodup (xs ++ p ∷ ys) → All (Other p) (xs ++ ys)
around_others xs p ys d =
    let (n₁, n₂, n₃) = Nodup-append xs (p ∷ ys) d in All-append (Other p) xs ys (heads xs n₃) n₂.0
  where
    heads : (ws : List ℕ) → All (λ (x : ℕ). All (Other x) (p ∷ ys)) ws → All (Other p) ws
    heads [] h = tt
    heads (w ∷ ws) h = (Other-sym w p h.0.0, heads ws h.1)

-- `remove` takes an entry out of the list and leaves the order of the others.
pub remove-Links :
    (c : BlockCache) (xs : List ℕ) (p : ℕ) (ys : List ℕ)
    → Links c (xs ++ p ∷ ys)
    → Nodup (xs ++ p ∷ ys)
    → Links (remove p c) (xs ++ ys)
unfolding remove set_next set_prev
remove-Links c xs p ys v d =
    let (l, r) = Linked-append c.heap none xs (p ∷ ys) none v.chain in
    let skipped : Skipped c (unlink_prev (c.heap p).prev (c.heap p).next c) xs p ys =
      rw (r.0, r.1) (unlink_prev-Skipped c xs p ys v d) in
    let c₁ = unlink_prev (c.heap p).prev (c.heap p).next c in
    let out : Out (unlink_next (c₁.heap p).next (c₁.heap p).prev c₁) xs ys =
      rw (skipped.here.0 ∙ r.0, skipped.here.1 ∙ r.1)
        (unlink_next-Out c c₁ xs p ys v.back d skipped) in
    let c₂ = unlink_next (c₁.heap p).next (c₁.heap p).prev c₁ in
    let linked : Links c₂ (xs ++ ys) = record {
      chain = append-Linked c₂.heap none xs ys none out.before out.behind;
      front = out.front;
      back = out.back;
    } in
    let o = around_others xs p ys d in
    let c₃ = write p (record (c₂.heap p) { prev = none }) c₂ in
    Links-put c₃ p (record (c₃.heap p) { next = none }) (xs ++ ys) o
      (Links-put c₂ p (record (c₂.heap p) { prev = none }) (xs ++ ys) o linked)
