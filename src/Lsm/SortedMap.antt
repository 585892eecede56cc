-- ===== src/Lsm/SortedMap.antt =====
-- What pkg/lsm/skiplist/skiplist.go, its iterator, and the table iterator of
-- pkg/lsm/sstable/reader.go show to their callers: a sequence of keys and values in the order of
-- the keys. `Add` refuses a key that is there.
use indexed_watch.Prelude.{
  ℕ, ◌≡◌, ◌⊎◌, refl, subst, Bool, true, false, Option, none, some, List, [], ◌∷◌, All, In,
  Bool-cases, inl, inr, arith, if◌then◌else◌,
}
use indexed_watch.Bytes.{compare_bytes, is_neg, is_zero}
use indexed_watch.Bytes.Order.{
  not_below_trans, Lt, Lt_trans, compare_bytes-flip, compare_bytes_self,
}

abbrev pub Entries : Type 0
Entries = List (List ℕ × List ℕ)

-- The first entry at or behind the target.
unfoldable pub seek_ge : Entries → List ℕ → Option (List ℕ × List ℕ)
seek_ge [] target = none
seek_ge (e ∷ es) target = if is_neg (compare_bytes e.0 target) then seek_ge es target else some e

unfoldable pub has_key : Entries → List ℕ → Bool
has_key [] key = false
has_key (e ∷ es) key = if is_zero (compare_bytes e.0 key) then true else has_key es key

-- A new entry goes before the first one with a key that is not below.
unfoldable pub insert_entry : List ℕ × List ℕ → Entries → Entries
insert_entry x [] = x ∷ []
insert_entry x (e ∷ es) =
    if is_neg (compare_bytes e.0 x.0) then e ∷ insert_entry x es else x ∷ e ∷ es

-- Every key is below the next ones.
abbrev pub IsSorted : Entries → Type 0
IsSorted [] = Unit
IsSorted (e ∷ es) = All (λ d. Lt e.0 d.0) es × IsSorted es

pub All-insert_entry {κ} :
    (P : List ℕ × List ℕ → Type κ) (x : List ℕ × List ℕ) (es : Entries)
    → P x
    → All P es
    → All P (insert_entry x es)
unfolding insert_entry
All-insert_entry P x [] h v = (h, tt)
All-insert_entry P x (e ∷ es) h v = elim (Bool-cases (is_neg (compare_bytes e.0 x.0))) [
  | inl b ↦ rw b (v.0, All-insert_entry P x es h v.1)
  | inr b ↦ rw b (h, v)
]

pub In-insert_entry : (x : List ℕ × List ℕ) (es : Entries) → In x (insert_entry x es)
unfolding insert_entry
In-insert_entry x [] = (inl refl)
In-insert_entry x (e ∷ es) = elim (Bool-cases (is_neg (compare_bytes e.0 x.0))) [
  | inl b ↦ rw b (inr (In-insert_entry x es))
  | inr b ↦ rw b (inl refl)
]

pub In-insert_entry_inv :
    (x e : List ℕ × List ℕ) (es : Entries) → In e (insert_entry x es) → (e ≡ x) ⊎ In e es
unfolding insert_entry
In-insert_entry_inv x e [] m = m
In-insert_entry_inv x e (d ∷ es) m = elim (Bool-cases (is_neg (compare_bytes d.0 x.0))) [
  | inl b ↦
      behind (In-insert_entry_inv x e es)
        (subst (λ c. In e (if c then d ∷ insert_entry x es else x ∷ d ∷ es)) b m)
  | inr b ↦ subst (λ c. In e (if c then d ∷ insert_entry x es else x ∷ d ∷ es)) b m
]
  where
    behind :
        (In e (insert_entry x es) → (e ≡ x) ⊎ In e es)
        → In e (d ∷ insert_entry x es)
        → (e ≡ x) ⊎ In e (d ∷ es)
    behind later (inl h) = inr (inl h)
    behind later (inr h) = elim (later h) [ inl h ↦ inl h | inr h ↦ inr (inr h) ]

not_before :
    (a b : List ℕ)
    → is_neg (compare_bytes a b) ≡ false
    → is_zero (compare_bytes a b) ≡ false
    → Lt b a
not_before a b h k = ground (arith, compare_bytes-flip a b)

above_all : (a b : List ℕ) (es : Entries) → Lt a b → All (λ d. Lt b d.0) es → All (λ d. Lt a d.0) es
above_all a b [] h v = tt
above_all a b (e ∷ es) h v = (Lt_trans a b e.0 h v.0, above_all a b es h v.1)

-- Inserting a key that is not there keeps the order.
pub insert_entry-IsSorted :
    (x : List ℕ × List ℕ) (es : Entries)
    → has_key es x.0 ≡ false
    → IsSorted es
    → IsSorted (insert_entry x es)
unfolding insert_entry has_key
insert_entry-IsSorted x [] h v = (tt, tt)
insert_entry-IsSorted x (e ∷ es) h v = elim (Bool-cases (is_neg (compare_bytes e.0 x.0))) [
  | inl b ↦ rw b (
    All-insert_entry (λ d. Lt e.0 d.0) x es (ground arith) v.0,
    insert_entry-IsSorted x es (ground arith) v.1,
  )
  | inr b ↦
      let first : Lt x.0 e.0 = not_before e.0 x.0 b (ground arith) in
      rw b ((first, above_all x.0 e.0 es first v.0), v)
]

-- What `seek_ge` finds is an entry, is not before the target, and no other such entry is before it.
pub data Sought (es : Entries) (target : List ℕ) : Option (List ℕ × List ℕ) → Type 0 where
  nothing : All (λ d. Lt d.0 target) es → Sought es target none
  first :
      (e : List ℕ × List ℕ)
      → In e es
      → is_neg (compare_bytes e.0 target) ≡ false
      → All
          (λ d. is_neg (compare_bytes d.0 target) ≡ false → is_neg (compare_bytes d.0 e.0) ≡ false)
          es
      → Sought es target (some e)

none_before :
    (a target : List ℕ) (es : Entries)
    → All (λ d. Lt a d.0) es
    → All (λ d. is_neg (compare_bytes d.0 target) ≡ false → is_neg (compare_bytes d.0 a) ≡ false) es
none_before a target [] v = tt
none_before a target (d ∷ es) v =
    ((λ h. ground (arith, compare_bytes-flip a d.0)), none_before a target es v.1)

skip :
    (e : List ℕ × List ℕ) (es : Entries) (target : List ℕ) (r : Option (List ℕ × List ℕ))
    → is_neg (compare_bytes e.0 target) ≡ true
    → Sought es target r
    → Sought (e ∷ es) target r
skip e es target none b (nothing a) = nothing (ground arith, a)
skip e es target (some _) b (first d m n a) = first d (inr m) n ((λ h. cc), a)

pub seek_ge-Sought :
    (es : Entries) (target : List ℕ) → IsSorted es → Sought es target (seek_ge es target)
unfolding seek_ge
seek_ge-Sought [] target v = nothing tt
seek_ge-Sought (e ∷ es) target v = elim (Bool-cases (is_neg (compare_bytes e.0 target))) [
  | inl b ↦ rw b (skip e es target _ b (seek_ge-Sought es target v.1))
  | inr b ↦ rw b (
      first e (inl refl) b
        ((λ h. ground (arith, compare_bytes_self e.0)), none_before e.0 target es v.0))
]

-- A new entry is found when it is not before the target and what was found so far is not before it.
unfoldable pub found_after :
    List ℕ × List ℕ → List ℕ → Option (List ℕ × List ℕ) → Option (List ℕ × List ℕ)
found_after x target r = if is_neg (compare_bytes x.0 target) then r else elim r [
  | none ↦ some x
  | some e ↦ if is_neg (compare_bytes e.0 x.0) then some e else some x
]

-- A string below another one that is not below a third.
is_neg_trans :
    (a b c : List ℕ)
    → is_neg (compare_bytes a b) ≡ true
    → is_neg (compare_bytes a c) ≡ false
    → is_neg (compare_bytes b c) ≡ false
is_neg_trans a b c h k = not_below_trans b a c (ground (arith, compare_bytes-flip a b)) k

pub seek_ge-insert_entry :
    (x : List ℕ × List ℕ) (es : Entries) (target : List ℕ)
    → seek_ge (insert_entry x es) target ≡ found_after x target (seek_ge es target)
unfolding seek_ge insert_entry found_after
seek_ge-insert_entry x [] target = refl
seek_ge-insert_entry x (e ∷ es) target = elim (Bool-cases (is_neg (compare_bytes e.0 x.0))) [
  | inl b ↦ rw b (elim (Bool-cases (is_neg (compare_bytes e.0 target))) [
    | inl c ↦ rw c (seek_ge-insert_entry x es target)
    | inr c ↦ rw (c, is_neg_trans e.0 x.0 target b c) (rw b refl)
  ])
  | inr b ↦ rw b (elim (Bool-cases (is_neg (compare_bytes x.0 target))) [
    | inl c ↦ rw c refl
    | inr c ↦ rw (c, not_below_trans e.0 x.0 target b c) (rw b refl)
  ])
]

-- What `seek_ge` finds is one of the entries.
pub seek_ge-All {κ} :
    (P : List ℕ × List ℕ → Type κ) (es : Entries) (target : List ℕ) (e : List ℕ × List ℕ)
    → All P es
    → seek_ge es target ≡ some e
    → P e
unfolding seek_ge
seek_ge-All P [] target e p h = absurd (none_some h)
  where
    none_some : none ≡ some e → ⊥
    none_some h = cc
seek_ge-All P (d ∷ es) target e p h = elim (Bool-cases (is_neg (compare_bytes d.0 target))) [
  | inl b ↦
      seek_ge-All P es target e p.1
        (subst (λ c. (if c then seek_ge es target else some d) ≡ some e) b h)
  | inr b ↦ subst P (here (subst (λ c. (if c then seek_ge es target else some d) ≡ some e) b h)) p.0
]
  where
    here : some d ≡ some e → d ≡ e
    here h = cc
