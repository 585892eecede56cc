-- ===== src/Wal/SyncGroup/Progress.antt =====
-- How the leader of pkg/wal/sync_group.go comes to an end when no more calls come.
use indexed_watch.Prelude.{
  ℕ, suc, ◌+◌, ◌-◌, ◌≤◌, ◌≡◌, refl, ap, ◌∙◌, false, Option, List, [], ◌∷◌, length, length-append,
  ◌==◌, Bool-cases, inl, inr, if◌then◌else◌, arith,
}
use indexed_watch.Wal.SyncGroup.{
  Call, Leader, idle, taken, running, notified, SyncGroup, advance_from, advance, answer_all,
  Reachable, advanced, advance_each,
}
use indexed_watch.Wal.SyncGroup.Answers.{Holds, Reachable-IsSound}

-- How many calls wait for an answer.
abbrev held_by : Leader → ℕ
held_by idle = 0
held_by (taken l batch) = 1 + length batch
held_by (running l batch) = 1 + length batch
held_by (notified l e) = 1

abbrev pub unanswered : SyncGroup → ℕ
unanswered g = length g.pending + held_by g.leader

-- How many events of the leader are left when no more calls come.
abbrev left : ℕ → Leader → ℕ
left n idle = 0
left n (taken l batch) = if n == 0 then 3 else 6
left n (running l batch) = if n == 0 then 2 else 5
left n (notified l e) = if n == 0 then 1 else 4

length-answer_all : (n : ℕ) (e : Option ℕ) (cs : List Call) → length (answer_all n e cs) ≡ length cs
length-answer_all n e [] = refl
length-answer_all n e (c ∷ cs) = ap suc (length-answer_all n e cs)

advance_count :
    (e : Option ℕ) (g : SyncGroup) (l : Leader)
    → g.leader ≡ l
    → length (advance_from e g l).answers
        + (length (advance_from e g l).pending + held_by (advance_from e g l).leader)
      ≡ length g.answers + (length g.pending + held_by l)
unfolding advance_from
advance_count e g idle q = rw q refl
advance_count e g (taken l batch) q = refl
advance_count e g (running l batch) q = omega (
  arith,
  length-append g.answers (answer_all g.started e batch),
  length-answer_all g.started e batch,
)
advance_count e g (notified l last) q = elim (Bool-cases (length g.pending == 0)) [
  | inl z ↦ rw z (omega (arith, length-append g.answers (answer_all g.started last (l ∷ []))))
  | inr z ↦ rw z (omega arith)
]

advance_left :
    (e : Option ℕ) (g : SyncGroup) (l : Leader)
    → g.leader ≡ l
    → left (length (advance_from e g l).pending) (advance_from e g l).leader
      ≡ left (length g.pending) l - 1
unfolding advance_from
advance_left e g idle q = rw q refl
advance_left e g (taken l batch) q = ground arith
advance_left e g (running l batch) q = ground arith
advance_left e g (notified l last) q = elim (Bool-cases (length g.pending == 0)) [
  | inl z ↦ rw z (omega arith)
  | inr z ↦ rw z (omega arith)
]

advance_each-Reachable :
    (es : List (Option ℕ)) (g : SyncGroup) → Reachable g → Reachable (advance_each es g)
advance_each-Reachable [] g r = r
advance_each-Reachable (e ∷ es) g r = advance_each-Reachable es (advance e g) (advanced e r)

abbrev left_of : SyncGroup → ℕ
left_of g = left (length g.pending) g.leader

advance_each-left :
    (es : List (Option ℕ)) (g : SyncGroup) → left_of (advance_each es g) ≡ left_of g - length es
advance_each-left [] g = omega arith
advance_each-left (e ∷ es) g =
    advance_each-left es (advance e g) ∙ omega (arith, advance_left e g g.leader refl)

advance_each-count :
    (es : List (Option ℕ)) (g : SyncGroup)
    → length (advance_each es g).answers + unanswered (advance_each es g)
      ≡ length g.answers + unanswered g
advance_each-count [] g = refl
advance_each-count (e ∷ es) g =
    advance_each-count es (advance e g) ∙ advance_count e g g.leader refl

left_bound : (n : ℕ) (l : Leader) → left n l ≤ 6
left_bound n idle = omega arith
left_bound n (taken l batch) = ground arith
left_bound n (running l batch) = ground arith
left_bound n (notified l e) = ground arith

left_none :
    (g : SyncGroup) (l : Leader) (n : ℕ)
    → Holds n g l
    → left (length g.pending) l ≡ 0
    → (length g.pending + held_by l ≡ 0) × (g.syncing ≡ false)
left_none g idle n (s, e, o) h = (omega (arith, ap length e), s)
left_none g (taken l batch) n v h = absurd (ground arith)
left_none g (running l batch) n v h = absurd (ground arith)
left_none g (notified l e) n v h = absurd (ground arith)

-- When no more calls come, six events of the leader answer every call that waits, whatever the sync
-- function returns, and leave the group ready for the next leader.
pub advance_each-answers :
    (es : List (Option ℕ)) (g : SyncGroup)
    → Reachable g
    → 6 ≤ length es
    → (unanswered (advance_each es g) ≡ 0)
      × ((advance_each es g).syncing ≡ false)
      × (length (advance_each es g).answers ≡ length g.answers + unanswered g)
advance_each-answers es g r h =
    let done : left (length (advance_each es g).pending) (advance_each es g).leader ≡ 0 =
      omega (arith, advance_each-left es g, left_bound (length g.pending) g.leader) in
    let (none_left, ready) =
      left_none (advance_each es g) (advance_each es g).leader _
        (Reachable-IsSound (advance_each-Reachable es g r)).held done in
    (none_left, ready, omega (arith, none_left, advance_each-count es g))
