-- ===== src/Lsm/InternalKey/Plain.antt =====
-- The byte order of internal keys of pkg/lsm/memtable/internalkey.go whose user keys have no byte
-- 255, such as UTF-8 text, and whose sequence numbers are below 2 ^ 48.
use indexed_watch.Prelude.{
  ℕ, ◌+◌, ◌*◌, ◌%◌, ◌^◌, ◌≤◌, ◌<◌, ◌≡◌, ◌≢◌, refl, ap, ap₂, ◌==◌, ==_iff, Bool-cases, inl, inr, sym,
  ◌∙◌, subst, false, List, [], ◌∷◌, ◌++◌, All, arith, ltb, ltb→lt, ltb_false→le,
}
use indexed_watch.Bytes.{compare_bytes, is_neg}
use indexed_watch.Bytes.Order.{Lt, compare_bytes-flip, compare_bytes_self}
use indexed_watch.Bytes.Fixed.{be_bytes}
use indexed_watch.Lsm.InternalKey.{
  trailer, make_internal_key, parse_internal_key, user_key, parse-make, user_key-make, larger_first,
}

abbrev pub seq_of : List ℕ → ℕ
seq_of ikey = (parse_internal_key ikey).1

abbrev pub kind_of : List ℕ → ℕ
kind_of ikey = (parse_internal_key ikey).2

abbrev pub IsText : List ℕ → Type 0
IsText u = All (λ b. b < 255) u

-- An internal key that was made of a text, a sequence number below 2 ^ 48 and one of the kinds.
pub record IsPlain (ikey : List ℕ) : Type 0 where
  pub made : ikey ≡ make_internal_key (user_key ikey) (seq_of ikey) (kind_of ikey)
  pub text : IsText (user_key ikey)
  pub seq_small : seq_of ikey < 2 ^ 48
  pub kind_small : kind_of ikey < 2

pub make-IsPlain :
    (u : List ℕ) (seq kind : ℕ)
    → IsText u
    → seq < 2 ^ 48
    → kind < 2
    → IsPlain (make_internal_key u seq kind)
make-IsPlain u seq kind t s k =
    let parts = parse-make u seq kind (omega arith) (omega arith) in
    let same_user = user_key-make u seq kind in
    record {
      made = sym (
          ap
            (λ x.
              make_internal_key x (seq_of (make_internal_key u seq kind))
                (kind_of (make_internal_key u seq kind)))
            same_user
          ∙ ap (λ p. make_internal_key u p.1 p.2) parts);
      text = subst IsText (sym same_user) t;
      seq_small = rw (ap (λ p. p.1) parts) s;
      kind_small = rw (ap (λ p. p.2) parts) k;
    }

-- Two different texts, each followed by a byte 255, compare by the texts alone.
compare_text :
    (u w a b c d : List ℕ)
    → u ≢ w
    → IsText u
    → IsText w
    → compare_bytes (u ++ 255 ∷ a) (w ++ 255 ∷ b) ≡ compare_bytes (u ++ 255 ∷ c) (w ++ 255 ∷ d)
unfolding compare_bytes
compare_text [] [] a b c d n t s = absurd (n refl)
compare_text [] (y ∷ w) a b c d n t s = ground arith
compare_text (x ∷ u) [] a b c d n t s = ground arith
compare_text (x ∷ u) (y ∷ w) a b c d n t s = elim (Bool-cases (x == y)) [
  | inl e ↦
      ground
        (arith, compare_text u w a b c d (λ h. n (ap₂ (λ z l. z ∷ l) ((==_iff x y).0 e) h)) t.1 s.1)
  | inr e ↦ ground arith
]

-- The trailer's first byte is 255.
trailer_front :
    (u : List ℕ) (seq kind : ℕ)
    → seq < 2 ^ 48
    → kind < 2
    → make_internal_key u seq kind ≡ u ++ 255 ∷ be_bytes 7 (trailer seq kind % 256 ^ 7)
unfolding make_internal_key be_bytes
trailer_front u seq kind s k =
    ap (λ b. u ++ b ∷ be_bytes 7 (trailer seq kind % 256 ^ 7)) (unfold trailer in omega arith)

-- Keys of different texts compare in the same way whatever their sequence numbers and kinds.
pub compare-make :
    (u w : List ℕ) (s k t l s' k' t' l' : ℕ)
    → u ≢ w
    → IsText u
    → IsText w
    → s < 2 ^ 48
    → k < 2
    → t < 2 ^ 48
    → l < 2
    → s' < 2 ^ 48
    → k' < 2
    → t' < 2 ^ 48
    → l' < 2
    → compare_bytes (make_internal_key u s k) (make_internal_key w t l)
      ≡ compare_bytes (make_internal_key u s' k') (make_internal_key w t' l')
compare-make u w s k t l s' k' t' l' n x y a b c d a' b' c' d' =
    ap₂ compare_bytes (trailer_front u s k a b) (trailer_front w t l c d)
    ∙ compare_text u w _ _ _ _ n x y
    ∙ sym (ap₂ compare_bytes (trailer_front u s' k' a' b') (trailer_front w t' l' c' d'))

-- Of two plain keys of one text, the one with the larger number and kind sorts first.
pub larger_after :
    (a b : List ℕ)
    → IsPlain a
    → IsPlain b
    → user_key a ≡ user_key b
    → seq_of a * 256 + kind_of a < seq_of b * 256 + kind_of b
    → Lt b a
larger_after a b p q e h =
    ap₂ compare_bytes (q.made ∙ ap (λ u. make_internal_key u (seq_of b) (kind_of b)) (sym e)) p.made
    ∙ larger_first (user_key a) (seq_of a) (seq_of b) (kind_of a) (kind_of b) h
        (omega (arith, q.seq_small)) (omega (arith, p.kind_small)) (omega (arith, q.kind_small))

module _ (a b : List ℕ) (p : IsPlain a) (q : IsPlain b) where
  -- Two plain keys with the same parts are the same.
  pub same_parts : user_key a ≡ user_key b → seq_of a ≡ seq_of b → kind_of a ≡ kind_of b → a ≡ b
  same_parts e s k =
      p.made
      ∙ ap₂ (λ u n. make_internal_key u n (kind_of a)) e s
      ∙ ap (make_internal_key (user_key b) (seq_of b)) k
      ∙ sym q.made

  pub older-is_neg :
      user_key a ≡ user_key b
      → seq_of a ≤ seq_of b
      → kind_of a ≤ kind_of b
      → is_neg (compare_bytes a b) ≡ false
  older-is_neg e s k =
      elim (Bool-cases (ltb (seq_of a * 256 + kind_of a) (seq_of b * 256 + kind_of b))) [
        | inl h ↦ ground (arith, compare_bytes-flip b a, larger_after a b p q e (ltb→lt _ _ h))
        | inr h ↦
            let same : a ≡ b =
              same_parts e (omega (arith, ltb_false→le _ _ h))
                (omega (arith, ltb_false→le _ _ h)) in
            rw same (ground (arith, compare_bytes_self b))
      ]

  pub is_neg-seq_of :
      user_key a ≡ user_key b → is_neg (compare_bytes a b) ≡ false → seq_of a ≤ seq_of b
  is_neg-seq_of e h = elim (Bool-cases (ltb (seq_of b) (seq_of a))) [
    | inl l ↦
        absurd
          (contradiction (larger_after b a q p (sym e) (omega (arith, ltb→lt _ _ l, q.kind_small))))
    | inr l ↦ ground arith
  ]
    where
      contradiction : Lt a b → ⊥
      contradiction l = cc

  -- The place of a key among those of another text does not depend on their numbers and kinds.
  pub compare-other :
      (c : List ℕ)
      → IsPlain c
      → user_key a ≢ user_key b
      → user_key b ≡ user_key c
      → compare_bytes a b ≡ compare_bytes a c
  compare-other c r n e =
      ap₂ compare_bytes p.made q.made
      ∙ compare-make (user_key a) (user_key b) (seq_of a) (kind_of a) (seq_of b) (kind_of b)
          (seq_of a) (kind_of a) (seq_of c) (kind_of c) n p.text q.text p.seq_small p.kind_small
          q.seq_small q.kind_small p.seq_small p.kind_small r.seq_small r.kind_small
      ∙ sym (
          ap₂ compare_bytes p.made
            (r.made ∙ ap (λ u. make_internal_key u (seq_of c) (kind_of c)) (sym e)))
