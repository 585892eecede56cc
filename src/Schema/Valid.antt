-- ===== src/Schema/Valid.antt =====
-- What `Validate` of pkg/schema/schema.go accepts, said without its loop and its set.
use indexed_watch.Prelude.{
  ℕ, ◌≡◌, ◌≢◌, ◌↔◌, refl, sym, Bool, true, false, ◌&&◌, not, none, List, [], ◌∷◌, arith, All,
  if◌then◌else◌, Bool-cases, inl, inr,
}
use indexed_watch.Bytes.{bytes_equal, bytes_equal_iff, has_suffix, contains}
use indexed_watch.Schema.{Schema, wildcard, has_path, validate_indexes, validate}

abbrev pub Distinct : List (List ℕ) → Type 0
Distinct [] = Unit
Distinct (x ∷ xs) = All (λ y. y ≢ x) xs × Distinct xs

-- An index path: not empty, not the primary key, and if it contains ".*" anywhere it also ends with
-- it; further wildcards before the last one, as in a.*.b.*, are allowed.
pub record IsIndexPath (primary_key idx : List ℕ) : Type 0 where
  pub nonempty : idx ≢ []
  pub not_key : idx ≢ primary_key
  pub suffix_only : contains idx wildcard ≡ true → has_suffix idx wildcard ≡ true

pub record IsWellFormed (s : Schema) : Type 0 where
  pub typed : s.type ≢ []
  pub keyed : s.primary_key ≢ []
  pub plain_key : has_suffix s.primary_key wildcard ≡ false
  pub paths : All (IsIndexPath s.primary_key) s.secondary_indexes
  pub distinct : Distinct s.secondary_indexes

pub All-imp {ℓ κ} :
    {A : Type ℓ} (P Q : A → Type κ) (xs : List A) → ((x : A) → P x → Q x) → All P xs → All Q xs
All-imp P Q [] f h = h
All-imp P Q (x ∷ xs) f h = (f x h.0, All-imp P Q xs f h.1)

All-and {ℓ κ} :
    {A : Type ℓ} (P Q R : A → Type κ) (xs : List A)
    → ((x : A) → P x → Q x → R x)
    → All P xs
    → All Q xs
    → All R xs
All-and P Q R [] f h k = h
All-and P Q R (x ∷ xs) f h k = (f x h.0 k.0, All-and P Q R xs f h.1 k.1)

pub has_path-cons_false :
    (x y : List ℕ) (seen : List (List ℕ))
    → (has_path (x ∷ seen) y ≡ false) ↔ ((y ≢ x) × (has_path seen y ≡ false))
unfolding has_path
has_path-cons_false x y seen = elim (Bool-cases (bytes_equal x y)) [
  | inl e ↦ rw e (λ h. cc, λ h. absurd (h.0 (sym ((bytes_equal_iff x y).0 e))))
  | inr e ↦ rw e (λ h. (λ p. cc (e, (bytes_equal_iff x y).1 (sym p)), h), λ h. h.1)
]

-- The test of one index path, before `seen` is asked.
path_problem : List ℕ → List ℕ → Bool
path_problem primary_key idx =
    if bytes_equal idx []
    then true
    else if bytes_equal idx primary_key
    then true
    else contains idx wildcard && not (has_suffix idx wildcard)

suffix_test : (c f : Bool) → (c ≡ true → f ≡ true) → (c && not f) ≡ false
suffix_test true f h = rw (h refl)
suffix_test false f h = refl

path_problem_iff : (pk idx : List ℕ) → (path_problem pk idx ≡ false) ↔ IsIndexPath pk idx
unfolding path_problem
path_problem_iff pk idx = elim (Bool-cases (bytes_equal idx [])) [
  | inl e ↦ rw e (λ h. cc, λ v. absurd (v.nonempty ((bytes_equal_iff idx []).0 e)))
  | inr e ↦ elim (Bool-cases (bytes_equal idx pk)) [
    | inl k ↦ rw (e, k) (λ h. cc, λ v. absurd (v.not_key ((bytes_equal_iff idx pk).0 k)))
    | inr k ↦
        rw (e, k)
          (
            λ h. record {
              nonempty = λ p. cc (e, (bytes_equal_iff idx []).1 p);
              not_key = λ p. cc (k, (bytes_equal_iff idx pk).1 p);
              suffix_only = λ c. ground arith;
            },
            λ v. suffix_test (contains idx wildcard) (has_suffix idx wildcard) v.suffix_only,
          )
  ]
]

-- A path that fails its own test stops the loop; any other is handed to `seen`.
validate_indexes-bad :
    (pk idx : List ℕ) (seen rest : List (List ℕ))
    → path_problem pk idx ≡ true
    → validate_indexes pk seen (idx ∷ rest) ≢ none
unfolding validate_indexes path_problem
validate_indexes-bad pk idx seen rest h = λ e. ground arith

validate_indexes-good :
    (pk idx : List ℕ) (seen rest : List (List ℕ))
    → path_problem pk idx ≡ false
    → (validate_indexes pk seen (idx ∷ rest) ≡ none)
      ↔ ((has_path seen idx ≡ false) × (validate_indexes pk (idx ∷ seen) rest ≡ none))
unfolding validate_indexes path_problem
validate_indexes-good pk idx seen rest h = (λ e. ground arith, λ e. ground arith)

validate_indexes_iff :
    (pk : List ℕ) (seen xs : List (List ℕ))
    → (validate_indexes pk seen xs ≡ none)
      ↔ (All (IsIndexPath pk) xs × All (λ x. has_path seen x ≡ false) xs × Distinct xs)
validate_indexes_iff pk seen [] = unfold validate_indexes in (λ e. (tt, tt, tt), λ e. refl)
validate_indexes_iff pk seen (x ∷ xs) =
    let ih = validate_indexes_iff pk (x ∷ seen) xs in
    elim (Bool-cases (path_problem pk x)) [
      | inl bad ↦ (
        λ e. absurd (validate_indexes-bad pk x seen xs bad e),
        λ h. cc (bad, (path_problem_iff pk x).1 h.0.0),
      )
      | inr good ↦ (
        λ e.
            let (fresh, rest) = (validate_indexes-good pk x seen xs good).0 e in
            let (paths, news, distinct) = ih.0 rest in
            (
              ((path_problem_iff pk x).0 good, paths),
              (fresh, All-imp _ _ xs (λ y p. ((has_path-cons_false x y seen).0 p).1) news),
              (All-imp _ _ xs (λ y p. ((has_path-cons_false x y seen).0 p).0) news, distinct),
            ),
        λ h. (validate_indexes-good pk x seen xs good).1 (
          h.1.0,
          ih.1 (
            h.0.1,
            All-and _ _ _ xs (λ y p q. (has_path-cons_false x y seen).1 (p, q)) h.2.0 h.1.1,
            h.2.1,
          ),
        ),
      )
    ]

none_seen : (xs : List (List ℕ)) → All (λ x. has_path [] x ≡ false) xs
unfolding has_path
none_seen [] = tt
none_seen (x ∷ xs) = (refl, none_seen xs)

rest :
    (s : Schema)
    → (validate_indexes s.primary_key [] s.secondary_indexes ≡ none) ↔ (
        All (IsIndexPath s.primary_key) s.secondary_indexes
        × All (λ x. has_path [] x ≡ false) s.secondary_indexes
        × Distinct s.secondary_indexes)
rest s = validate_indexes_iff s.primary_key [] s.secondary_indexes

-- `Validate` accepts exactly the schemas with a type, a primary key that is not empty and does not
-- end with ".*", and pairwise different, non-empty index paths other than the key, where a path
-- that contains ".*" anywhere also ends with it. So it accepts a.*.b.*, with a wildcard inside.
pub validate_iff : (s : Schema) → (validate s ≡ none) ↔ IsWellFormed s
unfolding validate
validate_iff s = elim (Bool-cases (bytes_equal s.type [])) [
  | inl e ↦ rw e (λ h. cc, λ v. absurd (v.typed ((bytes_equal_iff s.type []).0 e)))
  | inr e ↦ elim (Bool-cases (bytes_equal s.primary_key [])) [
    | inl k ↦ rw (e, k) (λ h. cc, λ v. absurd (v.keyed ((bytes_equal_iff s.primary_key []).0 k)))
    | inr k ↦ elim (Bool-cases (has_suffix s.primary_key wildcard)) [
      | inl w ↦ rw (e, k, w) (λ h. cc, λ v. cc (w, v.plain_key))
      | inr w ↦
          rw (e, k, w)
            (
              λ h.
                  let (paths, news, distinct) = (rest s).0 h in
                  record {
                    typed = λ p. cc (e, (bytes_equal_iff s.type []).1 p);
                    keyed = λ p. cc (k, (bytes_equal_iff s.primary_key []).1 p);
                    plain_key = w;
                    paths = paths;
                    distinct = distinct;
                  },
              λ v. (rest s).1 (v.paths, none_seen s.secondary_indexes, v.distinct),
            )
    ]
  ]
]
