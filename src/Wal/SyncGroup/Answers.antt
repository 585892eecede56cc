-- ===== src/Wal/SyncGroup/Answers.antt =====
-- What the callers of `sync` of pkg/wal/sync_group.go are told, and that they are told.
use indexed_watch.Prelude.{
  ℕ, zero, suc, ◌+◌, ◌-◌, ◌≤◌, ◌<◌, ◌≡◌, refl, ap, sym, subst, ◌∙◌, Bool, true, false, Option, some,
  get_elem?, length-append, List, [], ◌∷◌, ◌++◌, length, All, All-append, ◌==◌, Bool-cases, inl,
  inr, if◌then◌else◌, arith,
}
use indexed_watch.Wal.SyncGroup.{
  Call, Answer, Leader, idle, taken, running, notified, SyncGroup, new_sync_group, join,
  advance_from, answer_all, Reachable, fresh, joined, advanced,
}

-- The answer is what a run of the sync function returned, and that run began after the call.
abbrev pub IsFresh : ℕ → List (Option ℕ) → Answer → Type 0
IsFresh n outcomes a =
    (a.call.seen < a.number) × (a.number ≤ n) × (get_elem? outcomes (a.number - 1) ≡ some a.result)

-- What the leader holds, after n runs of the sync function began.
abbrev pub Holds : ℕ → SyncGroup → Leader → Type 0
Holds n g idle = (g.syncing ≡ false) × (g.pending ≡ []) × (length g.outcomes ≡ n)
Holds n g (taken l batch) =
    (g.syncing ≡ true) × (l.seen ≤ n) × All (λ c. c.seen ≤ n) batch × (length g.outcomes ≡ n)
Holds n g (running l batch) =
    (g.syncing ≡ true) × (l.seen < n) × All (λ c. c.seen < n) batch × (length g.outcomes + 1 ≡ n)
Holds n g (notified l e) =
    (g.syncing ≡ true)
    × (l.seen < n)
    × (length g.outcomes ≡ n)
    × (get_elem? g.outcomes (n - 1) ≡ some e)

pub record IsSound (g : SyncGroup) : Type 0 where
  pub waiting : All (λ c. c.seen ≤ g.started) g.pending
  pub held : Holds g.started g g.leader
  pub told : All (IsFresh g.started g.outcomes) g.answers

answer_all-IsFresh :
    (n : ℕ) (o : List (Option ℕ)) (e : Option ℕ) (cs : List Call)
    → get_elem? o (n - 1) ≡ some e
    → All (λ c. c.seen < n) cs
    → All (IsFresh n o) (answer_all n e cs)
answer_all-IsFresh n o e [] q h = tt
answer_all-IsFresh n o e (c ∷ cs) q h = ((h.0, omega arith, q), answer_all-IsFresh n o e cs q h.1)

later :
    (n : ℕ) (o : List (Option ℕ)) (told : List Answer)
    → All (IsFresh n o) told
    → All (IsFresh (n + 1) o) told
later n o [] h = tt
later n o (a ∷ more) h = ((h.0.0, omega (arith, h.0.1), h.0.2), later n o more h.1)

-- A result that was recorded stays where it is.
get_elem?-append :
    (o : List (Option ℕ)) (e r : Option ℕ) (i : ℕ)
    → get_elem? o i ≡ some r
    → get_elem? (o ++ e ∷ []) i ≡ some r
get_elem?-append [] e r i h = cc
get_elem?-append (x ∷ o) e r zero h = h
get_elem?-append (x ∷ o) e r (suc i) h = get_elem?-append o e r i h

get_elem?-last : (o : List (Option ℕ)) (e : Option ℕ) → get_elem? (o ++ e ∷ []) (length o) ≡ some e
get_elem?-last [] e = refl
get_elem?-last (x ∷ o) e = get_elem?-last o e

kept :
    (n : ℕ) (o : List (Option ℕ)) (e : Option ℕ) (told : List Answer)
    → All (IsFresh n o) told
    → All (IsFresh n (o ++ e ∷ [])) told
kept n o e [] h = tt
kept n o e (a ∷ more) h =
    ((h.0.0, h.0.1, get_elem?-append o e a.result (a.number - 1) h.0.2), kept n o e more h.1)

later_calls : (n : ℕ) (cs : List Call) → All (λ c. c.seen ≤ n) cs → All (λ c. c.seen < n + 1) cs
later_calls n [] h = tt
later_calls n (c ∷ cs) h = (omega arith, later_calls n cs h.1)

later_pending : (n : ℕ) (cs : List Call) → All (λ c. c.seen ≤ n) cs → All (λ c. c.seen ≤ n + 1) cs
later_pending n [] h = tt
later_pending n (c ∷ cs) h = (omega arith, later_pending n cs h.1)

empty_list {ℓ} : {A : Type ℓ} (xs : List A) → length xs ≡ 0 → xs ≡ []
empty_list [] h = refl
empty_list (x ∷ xs) h = absurd (omega arith)

advance_from-IsSound :
    (e : Option ℕ) (g : SyncGroup) (l : Leader)
    → g.leader ≡ l
    → IsSound g
    → Holds g.started g l
    → IsSound (advance_from e g l)
unfolding advance_from
advance_from-IsSound e g idle q v h = v
advance_from-IsSound e g (taken l batch) q v (s, lo, b, n) = record {
  waiting = later_pending g.started g.pending v.waiting;
  held = (s, omega arith, later_calls g.started batch b, ap (λ k. k + 1) n);
  told = later g.started g.outcomes g.answers v.told;
}
advance_from-IsSound e g (running l batch) q v (s, lo, b, n) =
    let last : get_elem? (g.outcomes ++ e ∷ []) (g.started - 1) ≡ some e =
      subst (λ k. get_elem? (g.outcomes ++ e ∷ []) k ≡ some e) (omega arith)
        (get_elem?-last g.outcomes e) in
    record {
      waiting = v.waiting;
      held = (s, lo, length-append g.outcomes (e ∷ []) ∙ n, last);
      told =
          All-append (IsFresh g.started (g.outcomes ++ e ∷ [])) g.answers
            (answer_all g.started e batch) (kept g.started g.outcomes e g.answers v.told)
            (answer_all-IsFresh g.started (g.outcomes ++ e ∷ []) e batch last b);
    }
advance_from-IsSound e g (notified l last) q v (s, lo, n, r) =
    elim (Bool-cases (length g.pending == 0)) [
      | inl z ↦ rw z (record {
        waiting = v.waiting;
        held = (refl, empty_list g.pending (ground arith), n);
        told =
            All-append (IsFresh g.started g.outcomes) g.answers (answer_all g.started last (l ∷ []))
              v.told (answer_all-IsFresh g.started g.outcomes last (l ∷ []) r (lo, tt));
      })
      | inr z ↦ rw z (record { waiting = tt; held = (s, omega arith, v.waiting, n); told = v.told })
    ]

not_both : {b : Bool} → b ≡ false → b ≡ true → ⊥
not_both f t = cc

-- While a sync is in progress the pending calls do not matter to the leader.
Holds-pending :
    (n : ℕ) (g : SyncGroup) (cs : List Call) (l : Leader)
    → g.syncing ≡ true
    → Holds n g l
    → Holds n (record g { pending = cs }) l
Holds-pending n g cs idle s h = absurd (not_both h.0 s)
Holds-pending n g cs (taken l batch) s h = h
Holds-pending n g cs (running l batch) s h = h
Holds-pending n g cs (notified l e) s h = h

Holds-idle :
    (n : ℕ) (g : SyncGroup) (l : Leader) → g.syncing ≡ false → Holds n g l → length g.outcomes ≡ n
Holds-idle n g idle s h = h.2
Holds-idle n g (taken l batch) s h = absurd (not_both s h.0)
Holds-idle n g (running l batch) s h = absurd (not_both s h.0)
Holds-idle n g (notified l e) s h = absurd (not_both s h.0)

join-IsSound : (c : ℕ) (g : SyncGroup) → IsSound g → IsSound (join c g)
unfolding join
join-IsSound c g v = elim (Bool-cases g.syncing) [
  | inl s ↦
      subst (λ b. IsSound (if b then follower else leads)) (sym s)
        (record {
          waiting =
              All-append (λ d. d.seen ≤ g.started) g.pending (own ∷ []) v.waiting (omega arith, tt);
          held = Holds-pending g.started g (g.pending ++ own ∷ []) g.leader s v.held;
          told = v.told;
        })
  | inr s ↦
      subst (λ b. IsSound (if b then follower else leads)) (sym s)
        (record {
          waiting = tt;
          held = (refl, omega arith, v.waiting, started_all s);
          told = v.told;
        })
]
  where
    started_all : g.syncing ≡ false → length g.outcomes ≡ g.started
    started_all s = Holds-idle g.started g g.leader s v.held

    own : Call
    own = record { caller = c; seen = g.started }

    follower : SyncGroup
    follower = record g { pending = g.pending ++ own ∷ [] }

    leads : SyncGroup
    leads = record g { syncing = true; leader = taken own g.pending; pending = [] }

pub Reachable-IsSound : {g : SyncGroup} → Reachable g → IsSound g
Reachable-IsSound fresh =
    unfold new_sync_group in record { waiting = tt; held = (refl, refl, refl); told = tt }
Reachable-IsSound (joined {g = g} c r) = join-IsSound c g (Reachable-IsSound r)
Reachable-IsSound (advanced {g = g} e r) =
    let v = Reachable-IsSound r in advance_from-IsSound e g g.leader refl v v.held

-- Whatever the interleaving, each call is answered with what a run of the sync function returned,
-- namely the run whose number the answer has, and that run began after the call.
pub answers-IsFresh : (g : SyncGroup) → Reachable g → All (IsFresh g.started g.outcomes) g.answers
answers-IsFresh g r = (Reachable-IsSound r).told
