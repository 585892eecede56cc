-- ===== src/Lsm/Memtable/Versions.antt =====
-- Writes of pkg/lsm/memtable/memtable.go and the reads behind them: each write comes with a
-- sequence number above those of the entries that are there.
use indexed_watch.Prelude.{
  ℕ, ◌^◌, ◌≤◌, ◌<◌, ◌≡◌, ◌≢◌, refl, sym, ap, ◌∙◌, subst, true, false, Option, none, some, List, [],
  ◌∷◌, All, All-zip, All-In, Bool-cases, inl, inr, arith, if◌then◌else◌, ltb, ◌==◌, length,
}
use indexed_watch.Bytes.{compare_bytes, is_neg, is_zero}
use indexed_watch.Bytes.Order.{compare_bytes-flip, compare_bytes_eq, compare_bytes_self}
use indexed_watch.Lsm.InternalKey.{
  make_internal_key, parse_internal_key, user_key, kind_set, kind_delete, trailer_size,
  user_key-make, parse-make, newer_first,
}
use indexed_watch.Lsm.InternalKey.Plain.{
  seq_of, kind_of, IsText, IsPlain, make-IsPlain, compare-other,
}
use indexed_watch.Lsm.SortedMap.{
  Entries, seek_ge, has_key, insert_entry, IsSorted, In-insert_entry, In-insert_entry_inv,
  All-insert_entry, insert_entry-IsSorted, found_after, seek_ge-insert_entry, seek_ge-All,
}
use indexed_watch.Lsm.Read.{hit, get_from_memtable}
use indexed_watch.Lsm.Memtable.{Memtable, value_at, get_value}
use indexed_watch.Lsm.Memtable.Newest.{Newest, unseen, newest, Sees, get_from_memtable-Newest}

-- The entries are in order, their keys are plain, and their sequence numbers are at most this one.
pub record IsWritten (last : ℕ) (es : Entries) : Type 0 where
  pub sorted : IsSorted es
  pub plain : All (λ d. IsPlain d.0) es
  pub bounded : All (λ d. seq_of d.0 ≤ last) es

module _ (u : List ℕ) (seq kind : ℕ) (t : IsText u) (b : seq < 2 ^ 48) (k : kind < 2) where
  abbrev ikey : List ℕ
  ikey = make_internal_key u seq kind

  parts : parse_internal_key ikey ≡ (u, seq, kind)
  parts = parse-make u seq kind (omega arith) (omega arith)

  has_key-newer : (es : Entries) → All (λ d. seq_of d.0 < seq) es → has_key es ikey ≡ false
  unfolding has_key
  has_key-newer [] h = refl
  has_key-newer (e ∷ es) h = elim (Bool-cases (is_zero (compare_bytes e.0 ikey))) [
    | inl z ↦ absurd (
        omega
          (arith, h.0, ap (λ x. x.1) parts, ap seq_of (compare_bytes_eq e.0 ikey (ground arith))))
    | inr z ↦ rw z (has_key-newer es h.1)
  ]

  module _ (last : ℕ) (es : Entries) (w : IsWritten last es) (n : last < seq) where
    older : All (λ d. seq_of d.0 < seq) es
    older = All-zip (λ d a b. omega arith) es w.bounded w.bounded

    -- The write of a newer version is not refused for its key, and it keeps the entries in order.
    pub insert_entry-IsWritten : (value : List ℕ) → IsWritten seq (insert_entry (ikey, value) es)
    insert_entry-IsWritten value = record {
      sorted = insert_entry-IsSorted (ikey, value) es (has_key-newer es older) w.sorted;
      plain =
          All-insert_entry (λ d. IsPlain d.0) (ikey, value) es (make-IsPlain u seq kind t b k)
            w.plain;
      bounded =
          All-insert_entry (λ d. seq_of d.0 ≤ seq) (ikey, value) es
            (omega (arith, ap (λ x. x.1) parts))
            (All-zip (λ d a c. omega arith) es w.bounded w.bounded);
    }

    own-Sees : (value : List ℕ) → Sees u seq (ikey, value)
    own-Sees value = record {
      same_key = user_key-make u seq kind;
      visible = omega (arith, ap (λ x. x.1) parts);
    }

    own_entry :
        (value : List ℕ) (r : Option (List ℕ × ℕ))
        → Newest (insert_entry (ikey, value) es) u seq r
        → r ≡ some (value, kind)
    own_entry value none (unseen h) =
        absurd (All-In _ _ _ h (In-insert_entry (ikey, value) es) (own-Sees value))
    own_entry value (some _) (newest e m s h) = elim (In-insert_entry_inv (ikey, value) e es m) [
      | inl o ↦ ap (λ d. some (d.1, kind_of d.0)) o ∙ ap (λ p. some (value, p.2)) parts
      | inr o ↦ absurd (
          not_the_newest e (All-In _ _ _ older o)
            (All-In _ _ _ h (In-insert_entry (ikey, value) es) (own-Sees value)))
    ]
      where
        not_the_newest : (e : List ℕ × List ℕ) → seq_of e.0 < seq → seq_of ikey ≤ seq_of e.0 → ⊥
        not_the_newest e l g = omega (arith, ap (λ x. x.1) parts)

    pub get_from_memtable-insert_entry :
        (value : List ℕ)
        → get_from_memtable (insert_entry (ikey, value) es) u seq ≡ some (value, kind)
    get_from_memtable-insert_entry value =
        let w' = insert_entry-IsWritten value in
        own_entry value _ (get_from_memtable-Newest _ u seq t b w'.sorted w'.plain)

  -- Reads at an older sequence number do not see the new version.
  before-target :
      (r : ℕ) → r < seq → is_neg (compare_bytes ikey (make_internal_key u r kind_set)) ≡ true
  before-target r h =
      ap is_neg (newer_first u r seq kind kind_set h (omega arith) (omega arith) (omega arith))

  -- An entry of another text that is behind the target of a read is behind all of its key.
  other_text_hit :
      (key : List ℕ) (r : ℕ) (e : List ℕ × List ℕ)
      → IsText key
      → r < 2 ^ 48
      → u ≢ key
      → IsPlain e.0
      → is_neg (compare_bytes ikey (make_internal_key key r kind_set)) ≡ false
      → is_neg (compare_bytes e.0 ikey) ≡ false
      → none ≡ hit key (some e)
  unfolding hit
  other_text_hit key r e x y n p c l =
      elim (Bool-cases (is_zero (compare_bytes (user_key e.0) key))) [
        | inl z ↦ absurd (
            n (
              sym (user_key-make u seq kind)
              ∙ ap user_key
                  (same (ap is_neg (order (compare_bytes_eq (user_key e.0) key (ground arith)))))
              ∙ compare_bytes_eq (user_key e.0) key (ground arith)))
        | inr z ↦ rw z refl
      ]
    where
      order :
          user_key e.0 ≡ key
          → compare_bytes ikey (make_internal_key key r kind_set) ≡ compare_bytes ikey e.0
      order s =
          compare-other ikey (make_internal_key key r kind_set) (make-IsPlain u seq kind t b k)
            (make-IsPlain key r kind_set x y (omega arith)) e.0 p
            (λ h. n (sym (user_key-make u seq kind) ∙ h ∙ user_key-make key r kind_set))
            (user_key-make key r kind_set ∙ sym s)

      same :
          is_neg (compare_bytes ikey (make_internal_key key r kind_set))
            ≡ is_neg (compare_bytes ikey e.0)
          → ikey ≡ e.0
      same h = compare_bytes_eq ikey e.0 (ground (arith, compare_bytes-flip ikey e.0))

  hit-other : (key value : List ℕ) → u ≢ key → hit key (some (ikey, value)) ≡ none
  unfolding hit
  hit-other key value n = elim (Bool-cases (is_zero (compare_bytes (user_key ikey) key))) [
    | inl z ↦
        absurd
          (n (sym (user_key-make u seq kind) ∙ compare_bytes_eq (user_key ikey) key (ground arith)))
    | inr z ↦ rw z refl
  ]

  other_text :
      (key : List ℕ) (r : ℕ) (value : List ℕ) (f : Option (List ℕ × List ℕ))
      → IsText key
      → r < 2 ^ 48
      → u ≢ key
      → ((e : List ℕ × List ℕ) → f ≡ some e → IsPlain e.0)
      → hit key (found_after (ikey, value) (make_internal_key key r kind_set) f) ≡ hit key f
  unfolding found_after
  other_text key r value f x y n p =
      elim (Bool-cases (is_neg (compare_bytes ikey (make_internal_key key r kind_set)))) [
        | inl c ↦ rw c refl
        | inr c ↦ rw c (found f p c)
      ]
    where
      found :
          (f : Option (List ℕ × List ℕ))
          → ((e : List ℕ × List ℕ) → f ≡ some e → IsPlain e.0)
          → is_neg (compare_bytes ikey (make_internal_key key r kind_set)) ≡ false
          → hit key (elim f [
            | none ↦ some (ikey, value)
            | some e ↦ if is_neg (compare_bytes e.0 ikey) then some e else some (ikey, value)
          ])
            ≡ hit key f
      found none p c = hit-other key value n ∙ unfold hit in refl
      found (some e) p c = elim (Bool-cases (is_neg (compare_bytes e.0 ikey))) [
        | inl l ↦ rw l refl
        | inr l ↦ rw l (hit-other key value n ∙ other_text_hit key r e x y n (p e refl) c l)
      ]

  -- A version of another text is not seen.
  pub get_from_memtable-insert_other :
      (es : Entries) (key value : List ℕ) (r : ℕ)
      → IsText key
      → r < 2 ^ 48
      → u ≢ key
      → All (λ d. IsPlain d.0) es
      → get_from_memtable (insert_entry (ikey, value) es) key r ≡ get_from_memtable es key r
  unfolding get_from_memtable
  get_from_memtable-insert_other es key value r x l n p =
      rw (seek_ge-insert_entry (ikey, value) es (make_internal_key key r kind_set)) (
        other_text key r value (seek_ge es (make_internal_key key r kind_set)) x l n
          (λ e h. seek_ge-All (λ d. IsPlain d.0) es _ e p h))

  pub get_from_memtable-older :
      (es : Entries) (key value : List ℕ) (r : ℕ)
      → IsText key
      → r < seq
      → All (λ d. IsPlain d.0) es
      → get_from_memtable (insert_entry (ikey, value) es) key r ≡ get_from_memtable es key r
  unfolding get_from_memtable
  get_from_memtable-older es key value r x l p =
      rw (seek_ge-insert_entry (ikey, value) es (make_internal_key key r kind_set))
        (elim (Bool-cases (is_zero (compare_bytes u key))) [
          | inl z ↦
              unfold found_after in
              rw
                (subst (λ w. is_neg (compare_bytes ikey (make_internal_key w r kind_set)) ≡ true)
                  (compare_bytes_eq u key (ground arith)) (before-target r l))
                refl
          | inr z ↦
              other_text key r value (seek_ge es (make_internal_key key r kind_set)) x (omega arith)
                (λ h. other h z) (λ e h. seek_ge-All (λ d. IsPlain d.0) es _ e p h)
        ])
    where
      other : u ≡ key → is_zero (compare_bytes u key) ≡ false → ⊥
      other h z = ground (arith, compare_bytes_self key, ap (λ w. compare_bytes w key) h)

parse-user_key : (ikey : List ℕ) → (parse_internal_key ikey).0 ≡ user_key ikey
unfolding parse_internal_key user_key
parse-user_key ikey = elim (Bool-cases (ltb (length ikey) trailer_size)) [
  | inl b ↦ rw b refl
  | inr b ↦ rw b refl
]

-- A tombstone is no value.
abbrev pub live : Option (List ℕ × ℕ) → Option (List ℕ)
live none = none
live (some (value, kind)) = if kind == kind_delete then none else some value

value_at-live : (key : List ℕ) (r : Option (List ℕ × List ℕ)) → value_at key r ≡ live (hit key r)
unfolding value_at hit
value_at-live key none = refl
value_at-live key (some e) =
    rw (parse-user_key e.0, value_at)
      (elim (Bool-cases (is_zero (compare_bytes (user_key e.0) key))) [
        | inl z ↦ rw z refl
        | inr z ↦ rw z refl
      ])

-- `Memtable.Get` finds what the database's own search finds, with a tombstone as nothing.
pub get_value-get_from_memtable :
    (m : Memtable) (key : List ℕ) (seq : ℕ)
    → get_value m key seq ≡ live (get_from_memtable m.entries key seq)
unfolding get_value get_from_memtable
get_value-get_from_memtable m key seq =
    value_at-live key (seek_ge m.entries (make_internal_key key seq kind_set))
