-- ===== src/Lsm/Manifest/Records.antt =====
-- The records of the MANIFEST of pkg/lsm/version.go, one after another.
use indexed_watch.Prelude.{
  ℕ, zero, suc, ◌+◌, ◌-◌, ◌%◌, ◌≤◌, ◌<◌, ◌≡◌, refl, ap, sym, ◌∙◌, ap₂, drop_front, take-append,
  true, false, Option, none, some, List, [], ◌∷◌, ◌++◌, append_assoc, append-nil, length,
  length-append, length-take, take, drop, drop-length_append, take-length_append, ltb, ◌==◌,
  u32_mod, arith, Bool-cases, Option-cases, inl, inr, All,
}
use indexed_watch.Bytes.Fixed.{le_bytes, le_read, le_read-le_bytes, le_read_short, length-le_bytes}
use indexed_watch.Lsm.VersionEdit.{VersionEdit, encode}
use indexed_watch.Lsm.VersionEdit.RoundTrip.{IsEncodable, decode-encode}
use indexed_watch.Lsm.Manifest.{
  VersionSet, ok, read_failed, record_bytes, take_edit, read_record, recover_loop,
}

-- An edit whose bytes a record can hold.
pub record IsLoggable (edit : VersionEdit) : Type 0 where
  pub encodable : IsEncodable edit
  pub short : length (encode edit) < u32_mod

unfoldable pub records : List VersionEdit → List ℕ
records [] = []
records (e ∷ es) = record_bytes (encode e) ++ records es

-- The edits taken one after another.
unfoldable pub take_edits : List VersionEdit → VersionSet → Option VersionSet
take_edits [] vs = some vs
take_edits (e ∷ es) vs = elim (take_edit e vs) [ none ↦ none | some vs' ↦ take_edits es vs' ]

length_field :
    (d rest : List ℕ)
    → length d < u32_mod
    → (le_read 4 (record_bytes d ++ rest) ≡ some (length d))
      × (drop 4 (record_bytes d ++ rest) ≡ d ++ rest)
unfolding record_bytes
length_field d rest h =
    let split = append_assoc (le_bytes 4 (length d % u32_mod)) d rest in
    let small : length d % u32_mod ≡ length d = omega arith in
    (
      rw (split, small) (le_read-le_bytes 4 (length d) (d ++ rest) (omega arith)),
      rw split
          (drop_front 4 (le_bytes 4 (length d % u32_mod)) (d ++ rest) (sym (length-le_bytes 4 _))),
    )

read_record-encode :
    (edit : VersionEdit) (rest : List ℕ) (vs vs' : VersionSet)
    → IsEncodable edit
    → take_edit edit vs ≡ some vs'
    → read_record (length (encode edit)) (encode edit ++ rest) vs ≡ ok (vs', rest)
unfolding read_record
read_record-encode edit rest vs vs' v h =
    let fits : ltb (length (encode edit ++ rest)) (length (encode edit)) ≡ false =
      ground (arith, length-append (encode edit) rest) in
    rw (fits, take-length_append (encode edit) rest)
      (rw (decode-encode edit v) (rw h (rw (drop-length_append (encode edit) rest) refl)))

recover_loop-record :
    (edit : VersionEdit) (rest : List ℕ) (vs vs' : VersionSet) (fuel : ℕ)
    → IsLoggable edit
    → take_edit edit vs ≡ some vs'
    → recover_loop (suc fuel) (record_bytes (encode edit) ++ rest) vs ≡ recover_loop fuel rest vs'
unfolding recover_loop
recover_loop-record edit rest vs vs' fuel v h =
    let (field, behind) = length_field (encode edit) rest v.short in
    rw (field, recover_loop)
      (rw behind (rw (read_record-encode edit rest vs vs' v.encodable h) refl))

pub recover_loop-records :
    (es : List VersionEdit) (rest : List ℕ) (vs vs' : VersionSet) (k fuel : ℕ)
    → All IsLoggable es
    → take_edits es vs ≡ some vs'
    → fuel ≡ length es + k
    → recover_loop fuel (records es ++ rest) vs ≡ recover_loop k rest vs'
unfolding records take_edits
recover_loop-records [] rest vs vs' k fuel v h e =
    let same : vs ≡ vs' = ground arith in
    let all_left : fuel ≡ k = omega arith in ap₂ (λ f s. recover_loop f rest s) all_left same
recover_loop-records (d ∷ es) rest vs vs' k zero v h e = absurd (omega arith)
recover_loop-records (d ∷ es) rest vs vs' k (suc fuel) v h e =
    elim (Option-cases (take_edit d vs)) [
      | inl x ↦ absurd (ground arith)
      | inr (u, x) ↦ rw (append_assoc (record_bytes (encode d)) (records es) rest) (
          recover_loop-record d (records es ++ rest) vs u fuel v.0 x
          ∙ recover_loop-records es rest u vs' k fuel v.1 (ground arith) (omega arith))
    ]

pub records-snoc :
    (es : List VersionEdit) (d : VersionEdit)
    → records (es ++ d ∷ []) ≡ records es ++ record_bytes (encode d)
unfolding records
records-snoc [] d = append-nil (record_bytes (encode d))
records-snoc (e ∷ es) d =
    ap (λ l. record_bytes (encode e) ++ l) (records-snoc es d)
    ∙ sym (append_assoc (record_bytes (encode e)) (records es) (record_bytes (encode d)))

pub take_edits-snoc :
    (es : List VersionEdit) (d : VersionEdit) (vs u w : VersionSet)
    → take_edits es vs ≡ some u
    → take_edit d u ≡ some w
    → take_edits (es ++ d ∷ []) vs ≡ some w
unfolding take_edits
take_edits-snoc [] d vs u w h k =
    let same : vs ≡ u = ground arith in rw (ap (take_edit d) same ∙ k, take_edits) refl
take_edits-snoc (e ∷ es) d vs u w h k = elim (Option-cases (take_edit e vs)) [
  | inl x ↦ absurd (ground arith)
  | inr (t, x) ↦ rw (x, take_edits) (take_edits-snoc es d t u w (ground arith) k)
]

pub length-records : (es : List VersionEdit) → length es ≤ length (records es)
unfolding records record_bytes
length-records [] = omega arith
length-records (e ∷ es) = simp (length-append, length-le_bytes) (omega (arith, length-records es))

pub cut_record :
    (d : List ℕ) (k fuel : ℕ) (vs : VersionSet)
    → length d < u32_mod
    → 0 < k
    → k < 4 + length d
    → recover_loop (suc fuel) (take k (record_bytes d)) vs ≡ read_failed
unfolding recover_loop
cut_record d k fuel vs small pos cut = elim (Bool-cases (ltb k 4)) [
  | inl e ↦
      let nothing : le_read 4 (take k (record_bytes d)) ≡ none =
        le_read_short 4 (take k (record_bytes d)) (ground (arith, size)) in
      let some_bytes : (length (take k (record_bytes d)) == 0) ≡ false = ground (arith, size) in
      rw (nothing, recover_loop) (rw some_bytes refl)
  | inr e ↦
      let part : take k (record_bytes d) ≡ le_bytes 4 (length d) ++ take (k - 4) d =
        cut_behind (ground arith) in
      let short : ltb (length (take (k - 4) d)) (length d) ≡ true =
        ground (arith, length-take (k - 4) d) in
      rw part (
        rw (le_read-le_bytes 4 (length d) (take (k - 4) d) (omega arith), recover_loop)
          (rw
            (drop_front 4 (le_bytes 4 (length d)) (take (k - 4) d)
              (sym (length-le_bytes 4 (length d))))
            (rw (short_record short) refl)))
]
  where
    size : length (take k (record_bytes d)) ≡ k
    size =
        unfold record_bytes in
        (length-take k (le_bytes 4 (length d % u32_mod) ++ d)
          ∙ omega (
            arith,
            length-append (le_bytes 4 (length d % u32_mod)) d,
            length-le_bytes 4 (length d % u32_mod),
          ))

    cut_behind : 4 ≤ k → take k (record_bytes d) ≡ le_bytes 4 (length d) ++ take (k - 4) d
    cut_behind h =
        unfold record_bytes in
        (let small_length : length d % u32_mod ≡ length d = omega arith in
          rw small_length (
            take-append k (le_bytes 4 (length d)) d (omega (arith, length-le_bytes 4 (length d)))
            ∙ ap (λ n. le_bytes 4 (length d) ++ take (k - n) d) (length-le_bytes 4 (length d))))

    short_record :
        ltb (length (take (k - 4) d)) (length d) ≡ true
        → read_record (length d) (take (k - 4) d) vs ≡ read_failed
    short_record h = unfold read_record in rw h refl
