-- ===== src/Wal/SyncGroup.antt =====
-- pkg/wal/sync_group.go: callers of `sync` that share one run of the sync function. An event is what
-- a goroutine does while it holds the mutex, or a return of the sync function with the notification
-- of a batch; any interleaving of goroutines is a sequence of events.
pub mod Answers
pub mod Progress
pub mod Tests
use indexed_watch.Prelude.{
  ℕ, ◌+◌, Bool, true, false, Option, none, some, List, [], ◌∷◌, ◌++◌, length, ◌==◌, if◌then◌else◌,
}

-- A call of `sync`: the caller, and how many runs of the sync function had begun before.
pub record Call : Type 0 where
  pub caller : ℕ
  pub seen : ℕ

-- What a call returned: `number` is the run that the result is from; a result of `none` is nil.
pub record Answer : Type 0 where
  pub call : Call
  pub number : ℕ
  pub result : Option ℕ

-- Where the leader is in its loop: it has taken a batch, it runs the sync function, it has notified
-- the batch.
pub data Leader : Type 0 where
  idle : Leader
  taken running : Call → List Call → Leader
  notified : Call → Option ℕ → Leader

-- `pending` and `syncing` are the fields of syncGroup. The others record what happened: how many runs
-- of the sync function began, what each run that ended returned, in order, and what callers were told.
pub record SyncGroup : Type 0 where
  pub pending : List Call
  pub syncing : Bool
  pub leader : Leader
  pub started : ℕ
  pub outcomes : List (Option ℕ)
  pub answers : List Answer

unfoldable pub new_sync_group : SyncGroup
new_sync_group = record {
  pending = [];
  syncing = false;
  leader = idle;
  started = 0;
  outcomes = [];
  answers = [];
}

-- A call becomes a follower, or the leader with the batch that is there.
unfoldable pub join : ℕ → SyncGroup → SyncGroup
join caller g =
    let call : Call = record { caller = caller; seen = g.started } in
    if g.syncing
    then record g { pending = g.pending ++ call ∷ [] }
    else record g { syncing = true; leader = taken call g.pending; pending = [] }

abbrev pub answer_all : ℕ → Option ℕ → List Call → List Answer
answer_all n result [] = []
answer_all n result (c ∷ cs) =
    (record { call = c; number = n; result = result }) ∷ answer_all n result cs

-- The leader's next event, by where it is; the result is that of the sync function, where it returns.
unfoldable pub advance_from : Option ℕ → SyncGroup → Leader → SyncGroup
advance_from result g idle = g
advance_from result g (taken l batch) = record g {
  leader = running l batch;
  started = g.started + 1;
}
advance_from result g (running l batch) = record g {
  leader = notified l result;
  outcomes = g.outcomes ++ result ∷ [];
  answers = g.answers ++ answer_all g.started result batch;
}
advance_from result g (notified l last_err) =
    if length g.pending == 0
    then record g {
      syncing = false;
      leader = idle;
      answers = g.answers ++ answer_all g.started last_err (l ∷ []);
    }
    else record g { leader = taken l g.pending; pending = [] }

abbrev pub advance : Option ℕ → SyncGroup → SyncGroup
advance result g = advance_from result g g.leader

-- The groups that calls and the leader's events lead to.
pub data Reachable : SyncGroup → Type 0 where
  fresh : Reachable new_sync_group
  joined : {g : SyncGroup} → (caller : ℕ) → Reachable g → Reachable (join caller g)
  advanced : {g : SyncGroup} → (result : Option ℕ) → Reachable g → Reachable (advance result g)

-- The leader alone, with one result for each event.
abbrev pub advance_each : List (Option ℕ) → SyncGroup → SyncGroup
advance_each [] g = g
advance_each (e ∷ es) g = advance_each es (advance e g)
