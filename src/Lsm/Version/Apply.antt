-- ===== src/Lsm/Version/Apply.antt =====
-- What `apply` of pkg/lsm/version.go makes of the levels.
use mathlib.Core.List.{Perm}
use mathlib.Core.List.Perm
use indexed_watch.Prelude.{
  get_or-set, not, ◌&&◌, ℕ, zero, suc, ◌≡◌, refl, ap, sym, ◌∙◌, subst, Bool, true, false, some,
  List, [], ◌∷◌, ◌++◌, append_assoc, append-nil, arith, length, length-set, set, ltb, ◌==◌,
  if◌then◌else◌, Bool-cases, inl, inr, ltb→lt, ==_iff, Option-cases,
}
use indexed_watch.Bytes.{compare_bytes, is_neg}
use indexed_watch.Bytes.Order.{compare_bytes-flip}
use indexed_watch.Lsm.VersionEdit.{FileMeta, DeletedFile, VersionEdit}
use indexed_watch.Lsm.Version.{
  is_deleted, Levels, level_files, num_levels, keep_files, delete_files, add_files, insert_file,
  sort_files, sort_deeper, sort_levels, apply,
}

-- The new files of one level, in order.
unfoldable pub files_at : ℕ → List FileMeta → List FileMeta
files_at l [] = []
files_at l (f ∷ fs) = let rest = files_at l fs in if f.level == l then f ∷ rest else rest

-- The files whose number no deletion names, in order.
unfoldable pub survives : List DeletedFile → FileMeta → Bool
survives [] f = true
survives (d ∷ ds) f = not (d.file_num == f.file_num) && survives ds f

unfoldable pub survivors : List DeletedFile → List FileMeta → List FileMeta
unfolding survives
survivors ds [] = []
survivors ds (f ∷ fs) = let rest = survivors ds fs in if survives ds f then f ∷ rest else rest

is_deleted-survives :
    (ds : List DeletedFile) (f : FileMeta) → is_deleted ds f.file_num ≡ not (survives ds f)
unfolding is_deleted survives
is_deleted-survives [] f = refl
is_deleted-survives (d ∷ ds) f = ground (arith, is_deleted-survives ds f)

keep_files-survivors :
    (ds : List DeletedFile) (fs : List FileMeta) → keep_files ds fs ≡ survivors ds fs
unfolding keep_files survivors
keep_files-survivors ds [] = refl
keep_files-survivors ds (f ∷ fs) =
    ground (arith, is_deleted-survives ds f, keep_files-survivors ds fs)

insert_file-perm : (f : FileMeta) (fs : List FileMeta) → Perm (insert_file f fs) (f ∷ fs)
unfolding insert_file
insert_file-perm f [] = Perm.refl (f ∷ [])
insert_file-perm f (g ∷ fs) =
    elim (Bool-cases (is_neg (compare_bytes g.smallest_key f.smallest_key))) [
      | inl e ↦ rw e (Perm.trans (Perm.cons g (insert_file-perm f fs)) (Perm.swap f g fs))
      | inr e ↦ rw e (Perm.refl (f ∷ g ∷ fs))
    ]

sort_files-perm : (fs : List FileMeta) → Perm (sort_files fs) fs
unfolding sort_files
sort_files-perm [] = Perm.refl []
sort_files-perm (f ∷ fs) =
    Perm.trans (insert_file-perm f (sort_files fs)) (Perm.cons f (sort_files-perm fs))

-- No file has a smallest key below that of the one before it.
abbrev pub AtLeast : FileMeta → List FileMeta → Type 0
AtLeast f [] = Unit
AtLeast f (g ∷ fs) = is_neg (compare_bytes g.smallest_key f.smallest_key) ≡ false

abbrev pub IsSorted : List FileMeta → Type 0
IsSorted [] = Unit
IsSorted (f ∷ fs) = AtLeast f fs × IsSorted fs

less_flip :
    (f g : FileMeta)
    → is_neg (compare_bytes g.smallest_key f.smallest_key) ≡ true
    → is_neg (compare_bytes f.smallest_key g.smallest_key) ≡ false
less_flip f g h = ground (arith, compare_bytes-flip g.smallest_key f.smallest_key)

insert_file-IsSorted :
    (f : FileMeta) (fs : List FileMeta) → IsSorted fs → IsSorted (insert_file f fs)
unfolding insert_file
insert_file-IsSorted f [] h = (tt, tt)
insert_file-IsSorted f (g ∷ []) h = ground (arith, less_flip f g)
insert_file-IsSorted f (g ∷ k ∷ fs) h =
    ground (arith, less_flip f g, less_flip f k, insert_file-IsSorted f (k ∷ fs) h.1)

sort_files-IsSorted : (fs : List FileMeta) → IsSorted (sort_files fs)
unfolding sort_files
sort_files-IsSorted [] = tt
sort_files-IsSorted (f ∷ fs) = insert_file-IsSorted f (sort_files fs) (sort_files-IsSorted fs)

level_files-delete_files :
    (ds : List DeletedFile) (v : Levels) (l : ℕ)
    → level_files (delete_files ds v) l ≡ survivors ds (level_files v l)
unfolding delete_files survivors
level_files-delete_files ds [] l = refl
level_files-delete_files ds (fs ∷ v) zero = keep_files-survivors ds fs
level_files-delete_files ds (fs ∷ v) (suc l) = level_files-delete_files ds v l

length-delete_files : (ds : List DeletedFile) (v : Levels) → length (delete_files ds v) ≡ length v
unfolding delete_files
length-delete_files ds [] = refl
length-delete_files ds (fs ∷ v) = ap suc (length-delete_files ds v)

-- One added file, whichever level is asked for.
add_file_at :
    (f : FileMeta) (fs : List FileMeta) (v v₁ : Levels) (l : ℕ)
    → level_files v₁ l ≡ (if f.level == l then level_files v f.level ++ f ∷ [] else level_files v l)
    → level_files v₁ l ++ files_at l fs ≡ level_files v l ++ files_at l (f ∷ fs)
unfolding files_at
add_file_at f fs v v₁ l h = elim (Bool-cases (f.level == l)) [
  | inl e ↦
      let same = (==_iff f.level l).0 e in
      let there = (h ∙ rw e refl) ∙ ap (λ i. level_files v i ++ f ∷ []) same in
      rw (e, there) (append_assoc (level_files v l) (f ∷ []) (files_at l fs))
  | inr e ↦ rw (e, h, e) refl
]

level_files-add_files :
    (fs : List FileMeta) (v v' : Levels) (l : ℕ)
    → length v ≡ num_levels
    → add_files fs v ≡ some v'
    → level_files v' l ≡ level_files v l ++ files_at l fs
unfolding add_files files_at
level_files-add_files [] v v' l n h = ground (arith, append-nil (level_files v l))
level_files-add_files (f ∷ fs) v v' l n h = elim (Bool-cases (ltb f.level num_levels)) [
  | inl e ↦
      let v₁ = set v f.level (level_files v f.level ++ f ∷ []) in
      let ih = level_files-add_files fs v₁ v' l (length-set v f.level _ ∙ n) (rest e) in
      let here =
        get_or-set v f.level l (level_files v f.level ++ f ∷ []) []
          (omega (arith, ltb→lt f.level num_levels e)) in
      ih ∙ add_file_at f fs v _ l here
  | inr e ↦ absurd (ground arith)
]
  where
    rest :
        ltb f.level num_levels ≡ true
        → add_files fs (set v f.level (level_files v f.level ++ f ∷ [])) ≡ some v'
    rest e = ground arith

level_files-sort_deeper :
    (v : Levels) (l : ℕ) → level_files (sort_deeper v) l ≡ sort_files (level_files v l)
unfolding sort_deeper sort_files
level_files-sort_deeper [] l = refl
level_files-sort_deeper (fs ∷ v) zero = refl
level_files-sort_deeper (fs ∷ v) (suc l) = level_files-sort_deeper v l

level_files-sort_levels_zero : (v : Levels) → level_files (sort_levels v) 0 ≡ level_files v 0
unfolding sort_levels
level_files-sort_levels_zero [] = refl
level_files-sort_levels_zero (fs ∷ v) = refl

level_files-sort_levels :
    (v : Levels) (l : ℕ) → level_files (sort_levels v) (suc l) ≡ sort_files (level_files v (suc l))
unfolding sort_levels
level_files-sort_levels [] l = unfold sort_files in refl
level_files-sort_levels (fs ∷ v) l = level_files-sort_deeper v l

-- Applying an edit to seven levels: each level has the files that were not deleted, followed by
-- the edit's new files of that level. Level 0 has them in this order; a deeper level has the same
-- files, each once for each time, in the order of their smallest keys.
pub apply_levels :
    (v v' : Levels) (edit : VersionEdit) (l : ℕ)
    → length v ≡ num_levels
    → apply v edit ≡ some v'
    → (level_files v' 0
        ≡ survivors edit.deleted_files (level_files v 0) ++ files_at 0 edit.new_files)
      × Perm
          (level_files v' (suc l))
          (survivors edit.deleted_files (level_files v (suc l)) ++ files_at (suc l) edit.new_files)
      × IsSorted (level_files v' (suc l))
unfolding apply
apply_levels v v' edit l n h =
    elim (Option-cases (add_files edit.new_files (delete_files edit.deleted_files v))) [
      | inl none_e ↦ absurd (ground arith)
      | inr (w, e) ↦ sorted_levels w (files e) v' (same w e)
    ]
  where
    same :
        (w : Levels)
        → add_files edit.new_files (delete_files edit.deleted_files v) ≡ some w
        → v' ≡ sort_levels w
    same w e = ground arith

    files :
        {w : Levels}
        → add_files edit.new_files (delete_files edit.deleted_files v) ≡ some w
        → (i : ℕ)
        → level_files w i
          ≡ survivors edit.deleted_files (level_files v i) ++ files_at i edit.new_files
    files {w} e i =
        level_files-add_files edit.new_files (delete_files edit.deleted_files v) w i
          (length-delete_files edit.deleted_files v ∙ n) e
        ∙ rw (level_files-delete_files edit.deleted_files v i) refl

    sorted_levels :
        {expected : ℕ → List FileMeta} (w : Levels)
        → ((i : ℕ) → level_files w i ≡ expected i)
        → (v₁ : Levels) → v₁ ≡ sort_levels w
        → (level_files v₁ 0 ≡ expected 0)
          × Perm (level_files v₁ (suc l)) (expected (suc l))
          × IsSorted (level_files v₁ (suc l))
    sorted_levels {expected} w at v₁ eq =
        subst
          (λ u.
            (level_files u 0 ≡ expected 0)
            × Perm (level_files u (suc l)) (expected (suc l))
            × IsSorted (level_files u (suc l)))
          (sym eq) (level_files-sort_levels_zero w ∙ at 0, deeper.0, deeper.1)
      where
        deeper :
            Perm (level_files (sort_levels w) (suc l)) (expected (suc l))
            × IsSorted (level_files (sort_levels w) (suc l))
        deeper =
            rw (level_files-sort_levels w l, sym (at (suc l)))
              (sort_files-perm _, sort_files-IsSorted _)
