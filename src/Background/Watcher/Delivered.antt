-- ===== src/Background/Watcher/Delivered.antt =====
-- That the watcher of src/harmonist/web/dir_watcher.py delivers what changed.
use harmonist.Prelude.{
  ℕ, ◌+◌, ◌≤◌, String, ◌≡◌, inl, inr, refl, Bool, true, false, not, ◌&&◌, ◌||◌, some, List, [], ◌∷◌,
  ◌++◌, ◌==◌, string_eq, map, keep, every, any_of, contains, leb, is_none, if◌then◌else◌, arith,
  beq_iff, if_holds, Bool-cases, Option-cases,
}
use harmonist.Background.Watcher.{
  Change, Batch, Watch, watching, is_demo, update, fire, expire, receive, watch,
}

-- `on_change` has been called with the path.
abbrev pub is_delivered : Watch → String → Bool
is_delivered w p = any_of (λ paths. contains paths p) w.sent

-- The path is delivered, or collected.
abbrev caught : Watch → String → Bool
caught w p = contains w.changed_paths p || is_delivered w p

-- A timer runs while paths are collected, and is due by a time.
record IsTimed (end : ℕ) (w : Watch) : Type 0 where
  waits : (p : String) → contains w.changed_paths p ≡ true → is_none w.pending ≡ false
  due_by : (due : ℕ) → w.pending ≡ some due → due ≤ end

-- A path that counts changed in a batch.
abbrev pub changed_in : String → Batch → Bool
changed_in p batch = any_of (λ c. not (is_demo c) && c.path == p) batch.changes

any_of-sent :
    (p : String) (xs : List (List String)) (ys : List String)
    → any_of (λ q. contains q p) (xs ++ ys ∷ []) ≡ (any_of (λ q. contains q p) xs || contains ys p)
any_of-sent p [] ys = ground arith
any_of-sent p (x ∷ xs) ys = ground (arith, any_of-sent p xs ys)

contains-snoc :
    (xs : List String) (q p : String) → contains (xs ++ q ∷ []) p ≡ (contains xs p || q == p)
contains-snoc [] q p = ground arith
contains-snoc (x ∷ xs) q p = ground (arith, contains-snoc xs q p)

pub update_keeps :
    (paths known : List String) (p : String)
    → contains known p ≡ true
    → contains (update paths known) p ≡ true
unfolding update
update_keeps [] known p h = h
update_keeps (q ∷ paths) known p h =
    update_keeps paths (if contains known q then known else known ++ q ∷ []) p
      (ground (arith, contains-snoc known q p))

pub update_adds :
    (paths known : List String) (p : String)
    → contains paths p ≡ true
    → contains (update paths known) p ≡ true
unfolding update
update_adds [] known p h = absurd (cc)
update_adds (q ∷ paths) known p h = elim (Bool-cases (q == p)) [
  | inl at ↦
      update_keeps paths (if contains known q then known else known ++ q ∷ []) p
        (ground (arith, contains-snoc known q p, beq_iff q p))
  | inr past ↦
      update_adds paths (if contains known q then known else known ++ q ∷ []) p (ground arith)
]

fire_delivers : (w : Watch) (p : String) → caught w p ≡ true → is_delivered (fire w) p ≡ true
unfolding fire
fire_delivers w p h = ground (arith, any_of-sent p w.sent w.changed_paths)

fire-IsTimed : (end : ℕ) (w : Watch) → IsTimed end (fire w)
unfolding fire
fire-IsTimed end w = record { waits = λ p h. absurd (cc); due_by = λ due h. absurd (cc) }

expire-IsTimed : (end now : ℕ) (w : Watch) → IsTimed end w → IsTimed end (expire now w)
unfolding expire
expire-IsTimed end now w t = elim (Option-cases w.pending) [
  | inl idle ↦ let same : expire now w ≡ w = ground (arith, idle) in rw same t
  | inr (due, at) ↦ elim (Bool-cases (leb due now)) [
    | inl fires ↦
        let same : expire now w ≡ fire w = ground (arith, at) in rw same (fire-IsTimed end w)
    | inr early ↦ let same : expire now w ≡ w = ground (arith, at) in rw same t
  ]
]

expire-caught :
    (now : ℕ) (w : Watch) (p : String) → caught w p ≡ true → caught (expire now w) p ≡ true
unfolding expire
expire-caught now w p c = elim (Option-cases w.pending) [
  | inl idle ↦ let same : expire now w ≡ w = ground (arith, idle) in rw same c
  | inr (due, at) ↦ elim (Bool-cases (leb due now)) [
    | inl fires ↦
        let same : expire now w ≡ fire w = ground (arith, at) in
        rw same (ground (arith, fire_delivers w p c))
    | inr early ↦ let same : expire now w ≡ w = ground (arith, at) in rw same c
  ]
]

module _ (settle end : ℕ) (batch : Batch) (w : Watch) where
  receive-IsTimed :
      leb (batch.time + settle) end ≡ true → IsTimed end w → IsTimed end (receive settle batch w)
  unfolding receive
  receive-IsTimed le t =
      if_holds (IsTimed end) (every is_demo batch.changes) _ _ (λ demo. t)
        λ real. record { waits = λ p h. refl; due_by = λ due h. ground arith }

  receive-caught : (p : String) → caught w p ≡ true → caught (receive settle batch w) p ≡ true
  unfolding receive
  receive-caught p c =
      if_holds (λ v. caught v p ≡ true) (every is_demo batch.changes) _ _ (λ demo. c)
        λ real. ground (
          arith,
          update_keeps (map (λ c. c.path) (keep (λ c. not (is_demo c)) batch.changes))
              w.changed_paths p,
        )

paths_of_changes :
    (p : String) (cs : List Change)
    → any_of (λ c. not (is_demo c) && c.path == p) cs ≡ true
    → (contains (map (λ c. c.path) (keep (λ c. not (is_demo c)) cs)) p ≡ true)
      × (every is_demo cs ≡ false)
paths_of_changes p [] h = absurd (cc)
paths_of_changes p (c ∷ cs) h = ground (arith, paths_of_changes p cs)

receive_catches :
    (settle : ℕ) (batch : Batch) (w : Watch) (p : String)
    → changed_in p batch ≡ true
    → caught (receive settle batch w) p ≡ true
unfolding receive
receive_catches settle batch w p h =
    let (there, real) = paths_of_changes p batch.changes h in
    let added =
      update_adds (map (λ c. c.path) (keep (λ c. not (is_demo c)) batch.changes)) w.changed_paths p
        there in
    if_holds (λ v. caught v p ≡ true) (every is_demo batch.changes) _ _
      (λ demo. absurd (ground arith)) λ _. ground (arith, added)

module _ (settle end : ℕ) where
  abbrev pub all_settled : List Batch → Bool
  all_settled batches = every (λ b. leb (b.time + settle) end) batches

  watch-IsTimed :
      (batches : List Batch) (w : Watch)
      → all_settled batches ≡ true
      → IsTimed end w
      → IsTimed end (watch settle batches w)
  unfolding watch
  watch-IsTimed [] w q t = t
  watch-IsTimed (b ∷ batches) w q t =
      watch-IsTimed batches (receive settle b (expire b.time w)) (ground arith) (
        receive-IsTimed settle end b (expire b.time w) (ground arith)
          (expire-IsTimed end b.time w t))

  watch-caught :
      (batches : List Batch) (w : Watch) (p : String)
      → caught w p ≡ true
      → caught (watch settle batches w) p ≡ true
  unfolding watch
  watch-caught [] w p c = c
  watch-caught (b ∷ batches) w p c =
      watch-caught batches (receive settle b (expire b.time w)) p
        (receive-caught settle end b (expire b.time w) p (expire-caught b.time w p c))

  watch_catches :
      (batches : List Batch) (w : Watch) (p : String)
      → any_of (changed_in p) batches ≡ true
      → caught (watch settle batches w) p ≡ true
  unfolding watch
  watch_catches [] w p h = absurd (cc)
  watch_catches (b ∷ batches) w p h = elim (Bool-cases (changed_in p b)) [
    | inl here_ ↦
        watch-caught batches (receive settle b (expire b.time w)) p
          (receive_catches settle b (expire b.time w) p here_)
    | inr later ↦ watch_catches batches (receive settle b (expire b.time w)) p (ground arith)
  ]

expire_delivers :
    (end : ℕ) (w : Watch) (p : String)
    → IsTimed end w
    → caught w p ≡ true
    → is_delivered (expire end w) p ≡ true
unfolding expire
expire_delivers end w p t c = elim (Option-cases w.pending) [
  | inl idle ↦
      let same : expire end w ≡ w = ground (arith, idle) in rw same (ground (arith, t.waits p))
  | inr (due, at) ↦
      let le = t.due_by due at in
      let same : expire end w ≡ fire w = ground (arith, at) in rw same (fire_delivers w p c)
]

-- Once the tree has been quiet for the settle delay after every batch, each path that changed in any batch
-- has been delivered, but for the demo's own history, wherever and however often the timer was restarted.
pub watch_delivers :
    (settle end : ℕ) (batches : List Batch) (p : String)
    → all_settled settle end batches ≡ true
    → any_of (changed_in p) batches ≡ true
    → is_delivered (expire end (watch settle batches watching)) p ≡ true
watch_delivers settle end batches p quiet changed =
    let idle : IsTimed end watching = record {
      waits = λ q h. absurd (cc);
      due_by = λ due h. absurd (cc);
    } in
    expire_delivers end (watch settle batches watching) p
      (watch-IsTimed settle end batches watching quiet idle)
      (watch_catches settle end batches watching p changed)
