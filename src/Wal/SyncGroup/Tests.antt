-- ===== src/Wal/SyncGroup/Tests.antt =====
-- Runs of the sync group of pkg/wal/sync_group.go.
use indexed_watch.Prelude.{
  ℕ, ◌+◌, ◌≡◌, refl, false, Option, none, some, List, [], ◌∷◌, length, All, arith, replicate,
}
use indexed_watch.Wal.SyncGroup.{
  SyncGroup, new_sync_group, join, advance, advance_from, Reachable, fresh, joined, advanced,
  advance_each,
}
use indexed_watch.Wal.SyncGroup.Answers.{IsFresh, answers-IsFresh}
use indexed_watch.Wal.SyncGroup.Progress.{unanswered, advance_each-answers}

-- The second caller comes while the first one syncs.
abbrev two_callers : SyncGroup
two_callers = join 2 (advance none (join 1 new_sync_group))

two_callers-Reachable : Reachable two_callers
two_callers-Reachable = joined 2 (advanced none (joined 1 fresh))

abbrev six : List (Option ℕ)
six = replicate 6 none

advance_each-answers_example :
    (unanswered (advance_each six two_callers) ≡ 0)
    × ((advance_each six two_callers).syncing ≡ false)
    × (length (advance_each six two_callers).answers
        ≡ length two_callers.answers + unanswered two_callers)
advance_each-answers_example =
    advance_each-answers six two_callers two_callers-Reachable (omega arith)

-- The first run fails, with error 5.
abbrev two_answered : SyncGroup
two_answered = advance_each (some 5 ∷ none ∷ none ∷ none ∷ none ∷ none ∷ []) two_callers

answers-IsFresh_example :
    All (IsFresh two_answered.started two_answered.outcomes) two_answered.answers
answers-IsFresh_example = answers-IsFresh two_answered (
    advanced none (
      advanced none
        (advanced none (advanced none (advanced none (advanced (some 5) two_callers-Reachable))))))

-- The run of the sync function that the first caller started fails, the next one does not, and the
-- first caller is told nil.
first_error_lost :
    (advance_each (some 5 ∷ none ∷ none ∷ none ∷ none ∷ []) two_callers).answers
    ≡ (record { call = record { caller = 2; seen = 1 }; number = 2; result = none })
      ∷ (record { call = record { caller = 1; seen = 0 }; number = 2; result = none })
      ∷ []
unfolding new_sync_group join advance_from
first_error_lost = refl
