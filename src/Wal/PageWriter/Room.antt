-- ===== src/Wal/PageWriter/Room.antt =====
-- Room in the page writer's buffer: what `copy` leaves there, and where pages end.
use native.Mathlib.Nat.{
  mod-lt, mod-eq_of_lt, div-add-mod, mul-mod_right, mul-add-mod_self_left, add-mod_right,
}
use indexed_watch.Prelude.{
  ℕ, zero, suc, ◌+◌, ◌-◌, ◌*◌, ◌/◌, ◌%◌, ◌≤◌, ◌<◌, ◌≡◌, refl, ap, ◌∙◌, List, [], ◌∷◌, ◌++◌, length,
  length-append, length-take, length-drop, take-length_append, take, drop, ltb, arith, Bool-cases,
  inl, inr,
}
use indexed_watch.Wal.PageWriter.{copy_at}

take-take_append :
    (off n : ℕ) (p rest buf : List ℕ)
    → off ≤ length buf
    → n ≡ off + length p
    → take n (take off buf ++ (p ++ rest)) ≡ take off buf ++ p
take-take_append zero n p rest buf h e = rw (same e) (take-length_append p rest)
  where
    same : n ≡ 0 + length p → n ≡ length p
    same e = omega arith
take-take_append (suc off) n p rest [] h e = absurd (omega arith)
take-take_append (suc off) zero p rest (x ∷ buf) h e = absurd (omega arith)
take-take_append (suc off) (suc n) p rest (x ∷ buf) h e =
    ap (λ l. x ∷ l) (take-take_append off n p rest buf (omega arith) (omega arith))

take-all : (n : ℕ) (p : List ℕ) → length p ≤ n → take n p ≡ p
take-all zero [] h = refl
take-all zero (x ∷ p) h = absurd (omega arith)
take-all (suc n) [] h = refl
take-all (suc n) (x ∷ p) h = ap (λ l. x ∷ l) (take-all n p (omega arith))

pub take-copy_at :
    (off : ℕ) (p buf : List ℕ)
    → off + length p ≤ length buf
    → take (off + length p) (copy_at off p buf) ≡ take off buf ++ p
unfolding copy_at
take-copy_at off p buf h =
    rw (take-all (length buf - off) p (omega arith))
      (take-take_append off (off + length p) p (drop (off + length p) buf) buf (omega arith) refl)

pub length-copy_at :
    (off : ℕ) (p buf : List ℕ)
    → off + length p ≤ length buf
    → length (copy_at off p buf) ≡ length buf
unfolding copy_at
length-copy_at off p buf h = simp (length-append, length-take, length-drop) (omega arith)

-- The numbers of a page writer whose buffer has room for what is still to come: `b` bytes of a
-- buffer of `size` are pending, behind the offset `po`; pages have `m` bytes. If the end of what
-- is pending is not on a page boundary, the rest of the page fits too.
abbrev pub Fit : ℕ → ℕ → ℕ → ℕ → ℕ → Type 0
Fit po m b watermark size =
    (0 < m)
    × (size ≡ watermark + m)
    × (b ≤ watermark + m)
    × (0 < (po + b) % m → b + (m - (po + b) % m) ≤ watermark + m)

pub page_end : (x m : ℕ) → 0 < m → (x + (m - x % m)) % m ≡ 0
page_end x m h =
    let whole : x + (m - x % m) ≡ m * suc (x / m) = grind (arith, div-add-mod x m, mod-lt x h) in
    rw whole (mul-mod_right m (suc (x / m)))

same_page : (x m k : ℕ) → 0 < m → k < m - x % m → (x + k) % m ≡ x % m + k
same_page x m k h lt =
    let parts : x + k ≡ m * (x / m) + (x % m + k) = omega (arith, div-add-mod x m) in
    ap (λ y. y % m) parts ∙ mul-add-mod_self_left m (x / m) (x % m + k) ∙ mod-eq_of_lt (omega arith)

pub Fit-small :
    (po m b l watermark size : ℕ)
    → Fit po m b watermark size
    → b + l ≤ watermark
    → Fit po m (b + l) watermark size
Fit-small po m b l watermark size v h = (v.0, v.1, omega arith, λ _. omega arith)

pub Fit-partial :
    (po m b l watermark size : ℕ)
    → Fit po m b watermark size
    → 0 < (po + b) % m
    → l < m - (po + b) % m
    → Fit po m (b + l) watermark size
Fit-partial po m b l watermark size v off h =
    let page : (po + (b + l)) % m ≡ (po + b) % m + l =
      ap (λ y. y % m) (omega arith) ∙ same_page (po + b) m l v.0 h in
    let room = v.3 off in (v.0, v.1, omega arith, λ _. rw page (omega arith))

pub Fit-tail :
    (po m l watermark size : ℕ)
    → 0 < m
    → size ≡ watermark + m
    → po % m ≡ 0
    → l ≤ m
    → Fit po m l watermark size
Fit-tail po m l watermark size pos e z h = elim (Bool-cases (ltb l m)) [
  | inl lt ↦
      let page : (po + l) % m ≡ l = same_page po m l pos (ground arith) ∙ omega arith in
      (pos, e, omega arith, λ _. rw page (omega arith))
  | inr ge ↦
      let whole : l ≡ m = ground arith in
      let page : (po + l) % m ≡ 0 = ap (λ y. (po + y) % m) whole ∙ add-mod_right po m ∙ z in
      (pos, e, omega arith, λ p. absurd (omega arith))
]
