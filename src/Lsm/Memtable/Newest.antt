-- ===== src/Lsm/Memtable/Newest.antt =====
-- What a read of a memtable finds: `getFromMemtable` of pkg/lsm/lsm.go, for user keys without the
-- byte 255 and sequence numbers below 2 ^ 48.
use indexed_watch.Prelude.{
  ℕ, ◌^◌, ◌≤◌, ◌<◌, ◌≡◌, ◌≢◌, sym, ap, ◌∙◌, false, Option, none, some, List, All, In, All-zip,
  All-In, Bool-cases, inl, inr, arith,
}
use indexed_watch.Bytes.{compare_bytes, is_neg, is_zero}
use indexed_watch.Bytes.Order.{Lt, compare_bytes-flip, compare_bytes_eq, compare_bytes_self}
use indexed_watch.Lsm.InternalKey.{
  make_internal_key, parse_internal_key, user_key, kind_set, user_key-make, parse-make,
}
use indexed_watch.Lsm.InternalKey.Plain.{
  seq_of, kind_of, IsText, IsPlain, make-IsPlain, older-is_neg, is_neg-seq_of, compare-other,
}
use indexed_watch.Lsm.SortedMap.{Entries, seek_ge, IsSorted, Sought, nothing, first, seek_ge-Sought}
use indexed_watch.Lsm.Read.{hit, get_from_memtable}

-- The entries of a key that a read at a sequence number sees.
pub record Sees (key : List ℕ) (seq : ℕ) (e : List ℕ × List ℕ) : Type 0 where
  pub same_key : user_key e.0 ≡ key
  pub visible : seq_of e.0 ≤ seq

-- The result is nothing when no entry is seen, or else the value and the kind of the newest one.
pub data Newest (es : Entries) (key : List ℕ) (seq : ℕ) : Option (List ℕ × ℕ) → Type 0 where
  unseen : All (λ d. ¬ (Sees key seq d)) es → Newest es key seq none
  newest :
      (e : List ℕ × List ℕ)
      → In e es
      → Sees key seq e
      → All (λ d. Sees key seq d → seq_of d.0 ≤ seq_of e.0) es
      → Newest es key seq (some (e.1, kind_of e.0))

module _ (key : List ℕ) (seq : ℕ) (t : IsText key) (b : seq < 2 ^ 48) where
  abbrev target : List ℕ
  target = make_internal_key key seq kind_set

  target-IsPlain : IsPlain target
  target-IsPlain = make-IsPlain key seq kind_set t b (omega arith)

  target-user_key : user_key target ≡ key
  target-user_key = user_key-make key seq kind_set

  target-parts : parse_internal_key target ≡ (key, seq, kind_set)
  target-parts = parse-make key seq kind_set (omega arith) (omega arith)

  -- What is seen is not before the target.
  Sees-is_neg :
      (e : List ℕ × List ℕ)
      → IsPlain e.0
      → Sees key seq e
      → is_neg (compare_bytes e.0 target) ≡ false
  Sees-is_neg e p s =
      older-is_neg e.0 target p target-IsPlain (s.same_key ∙ sym target-user_key)
        (omega (arith, s.visible, ap (λ x. x.1) target-parts))
        (omega (arith, p.kind_small, ap (λ x. x.2) target-parts))

  -- An entry of another key that is behind the target is behind all that is seen.
  Sees-before :
      (e d : List ℕ × List ℕ)
      → IsPlain e.0
      → IsPlain d.0
      → user_key e.0 ≢ key
      → is_neg (compare_bytes e.0 target) ≡ false
      → is_neg (compare_bytes d.0 e.0) ≡ false
      → ¬ (Sees key seq d)
  Sees-before e d p q n h k s =
      let same : compare_bytes e.0 target ≡ compare_bytes e.0 d.0 =
        compare-other e.0 target p target-IsPlain d.0 q (λ x. n (x ∙ target-user_key))
          (target-user_key ∙ sym s.same_key) in
      n (
        ap user_key (compare_bytes_eq e.0 d.0 (ground (arith, compare_bytes-flip e.0 d.0)))
        ∙ s.same_key)

  other_key :
      (es : Entries) (e : List ℕ × List ℕ)
      → All (λ d. IsPlain d.0) es
      → IsPlain e.0
      → user_key e.0 ≢ key
      → is_neg (compare_bytes e.0 target) ≡ false
      → All
          (λ d. is_neg (compare_bytes d.0 target) ≡ false → is_neg (compare_bytes d.0 e.0) ≡ false)
          es
      → All (λ d. ¬ (Sees key seq d)) es
  other_key es e p q n h a =
      All-zip (λ d r f s. Sees-before e d q r n h (f (Sees-is_neg d r s)) s) es p a

  different :
      (e : List ℕ × List ℕ)
      → user_key e.0 ≡ key
      → is_zero (compare_bytes (user_key e.0) key) ≡ false
      → ⊥
  different e s z = ground (arith, compare_bytes_self key, ap (λ u. compare_bytes u key) s)

  hit-Sought :
      (es : Entries)
      → All (λ d. IsPlain d.0) es
      → (r : Option (List ℕ × List ℕ)) → Sought es target r
      → Newest es key seq (hit key r)
  unfolding hit
  hit-Sought es p none (nothing a) =
      unseen (All-zip (λ d q l s. absurd (before d (Sees-is_neg d q s) l)) es p a)
    where
      before : (d : List ℕ × List ℕ) → is_neg (compare_bytes d.0 target) ≡ false → Lt d.0 target → ⊥
      before d h l = cc
  hit-Sought es p (some _) (first e m h a) =
      let q : IsPlain e.0 = All-In (λ d. IsPlain d.0) e es p m in
      elim (Bool-cases (is_zero (compare_bytes (user_key e.0) key))) [
        | inl z ↦
            let same : user_key e.0 ≡ key = compare_bytes_eq (user_key e.0) key (ground arith) in
            rw z (
              newest e m
                (record {
                  same_key = same;
                  visible = omega (
                    arith,
                    ap (λ x. x.1) target-parts,
                    is_neg-seq_of e.0 target q target-IsPlain (same ∙ sym target-user_key) h,
                  );
                })
                (All-zip
                  (λ d r f s.
                    is_neg-seq_of d.0 e.0 r q (s.same_key ∙ sym same) (f (Sees-is_neg d r s)))
                  es p a))
        | inr z ↦ rw z (unseen (other_key es e p q (λ s. different e s z) h a))
      ]

-- A read of a text at a sequence number below 2 ^ 48, in a sorted memtable with plain keys, finds the
-- newest version that it sees, or nothing when it sees none.
pub get_from_memtable-Newest :
    (es : Entries) (key : List ℕ) (seq : ℕ)
    → IsText key
    → seq < 2 ^ 48
    → IsSorted es
    → All (λ d. IsPlain d.0) es
    → Newest es key seq (get_from_memtable es key seq)
unfolding get_from_memtable
get_from_memtable-Newest es key seq t b v p =
    hit-Sought key seq t b es p (seek_ge es (target key seq t b))
      (seek_ge-Sought es (target key seq t b) v)
