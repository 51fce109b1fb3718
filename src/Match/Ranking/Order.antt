-- ===== src/Match/Ranking/Order.antt =====
-- What `match_releases` promises of its best candidate, and when the order of the releases that
-- MusicBrainz returned has no say in it.
use mathlib.Core.List.{Perm, Mem, Memᴰ}
use mathlib.Core.List.Perm
use harmonist.Prelude.{
  ◌≡◌, refl, sym, ◌∙◌, ap, inl, inr, true, ◌||◌, none, some, List, [], ◌∷◌, nat_eq, map, length,
  keep, arith, sort_by, sort_by-perm, sort_by-IsSortedBy, IsSortedBy, IsOrder, Bool-cases,
  String_set, All-Mem, keep_one, length-keep-Perm, length-Perm, ◌<◌, beq_iff, ◌↔◌, subst,
}
use harmonist.Releases.{Release}
use harmonist.Match.{MatchCandidate, LocalFile, assess_match}
use harmonist.Match.Ranking.{
  RankKey, rank_key, no_better, same_key, Ranking, best, level_with, equal_best, unique,
  ranks_first, match_releases,
}

mem-head : (c : MatchCandidate) (cs : List MatchCandidate) → Mem c (c ∷ cs)
mem-head c cs = ∣ Memᴰ.head refl ∣₁

no_better_total : (a b : RankKey) → (no_better a b || no_better b a) ≡ true
unfolding no_better
no_better_total a b = ground arith

no_better_trans :
    (a b c : RankKey) → no_better a b ≡ true → no_better b c ≡ true → no_better a c ≡ true
unfolding no_better
no_better_trans a b c h k = ground arith

same_key_refl : (a : RankKey) → same_key a a ≡ true
unfolding same_key
same_key_refl a = ground arith

no_better_antisym :
    (a b : RankKey) → no_better a b ≡ true → no_better b a ≡ true → same_key a b ≡ true
unfolding no_better same_key
no_better_antisym a b h k = ground arith

MatchCandidate_set : IsSet MatchCandidate
MatchCandidate_set = hlevel String_set

ranks_first_refl : (c : MatchCandidate) → ranks_first c c ≡ true
unfolding ranks_first no_better
ranks_first_refl c = ground arith

ranks_first_order : IsOrder ranks_first
unfolding ranks_first
ranks_first_order = record {
  total = λ a b. elim (Bool-cases (no_better (rank_key b) (rank_key a))) [
    | inl h ↦ inl h
    | inr h ↦ inr (ground (arith, no_better_total (rank_key a) (rank_key b)))
  ];
  trans = λ a b c h k. no_better_trans (rank_key c) (rank_key b) (rank_key a) k h;
}

-- The first of a sorted list ranks before every item of it.
first_ranks :
    (c d : MatchCandidate) (cs : List MatchCandidate)
    → IsSortedBy ranks_first (c ∷ cs)
    → Mem d (c ∷ cs)
    → ranks_first c d ≡ true
first_ranks c d cs s m = All-Mem (ranks_first c) d (c ∷ cs) (ranks_first_refl c, s.0) m

level_antisym :
    (c d : MatchCandidate) → ranks_first c d ≡ true → ranks_first d c ≡ true → level_with c d ≡ true
unfolding ranks_first level_with
level_antisym c d h k = no_better_antisym (rank_key d) (rank_key c) h k

level_refl : (c : MatchCandidate) → level_with c c ≡ true
unfolding level_with
level_refl c = same_key_refl (rank_key c)

unique_length :
    (c : MatchCandidate) (cs : List MatchCandidate)
    → (unique (record { candidates = c ∷ cs }) ≡ true) ↔ (length (keep (level_with c) (c ∷ cs)) ≡ 1)
unfolding unique equal_best best
unique_length c cs = beq_iff (length (keep (level_with c) (c ∷ cs))) 1

-- Two rankings of the same candidates, where the best of one has no equal.
same_best :
    (c d : MatchCandidate) (cs ds : List MatchCandidate)
    → IsSortedBy ranks_first (c ∷ cs)
    → IsSortedBy ranks_first (d ∷ ds)
    → Perm (c ∷ cs) (d ∷ ds)
    → unique (record { candidates = c ∷ cs }) ≡ true
    → (unique (record { candidates = d ∷ ds }) ≡ true) × (d ≡ c)
same_best c d cs ds s t p u =
    let d_in = (Perm.mem_iff p).1 (mem-head d ds) in
    let c_in = (Perm.mem_iff p).0 (mem-head c cs) in
    let one = (unique_length c cs).0 u in
    let same =
      keep_one (level_with c) d c (c ∷ cs) MatchCandidate_set (omega arith) d_in (mem-head c cs)
        (level_antisym c d (first_ranks c d cs s d_in) (first_ranks d c ds t c_in))
        (level_refl c) in
    (
      (unique_length d ds).1 (
          sym (length-keep-Perm (level_with d) (c ∷ cs) (d ∷ ds) p)
          ∙ subst (λ e. length (keep (level_with e) (c ∷ cs)) ≡ 1) (sym same) one),
      same,
    )

uncons :
    (xs : List MatchCandidate)
    → 0 < length xs
    → (c : MatchCandidate) × (cs : List MatchCandidate) × (xs ≡ c ∷ cs)
uncons [] h = elim h [ ]
uncons (c ∷ cs) h = (c, cs, refl)

module _ (files : List LocalFile) where
  abbrev assessed : List Release → List MatchCandidate
  assessed = map (assess_match files)

  abbrev ranked : List Release → List MatchCandidate
  ranked rs = sort_by ranks_first (assessed rs)

  ranked_cons :
      (release : Release) (others : List Release)
      → (c : MatchCandidate) × (cs : List MatchCandidate) × (ranked (release ∷ others) ≡ c ∷ cs)
  ranked_cons release others =
      uncons (ranked (release ∷ others))
        (omega (arith, length-Perm _ _ (sort_by-perm ranks_first (assessed (release ∷ others)))))

  -- For any release and others, `match_releases` makes a ranking that holds the assessment of each
  -- of them once, and it has a best candidate, which no candidate outranks.
  pub match_releases-best :
      (release : Release) (others : List Release)
      → (r : Ranking) × (c : MatchCandidate) × (match_releases files (release ∷ others) ≡ some r)
        × (best r ≡ some c)
        × Perm r.candidates (map (assess_match files) (release ∷ others))
        × ((d : MatchCandidate) → Mem d r.candidates → no_better (rank_key d) (rank_key c) ≡ true)
  unfolding match_releases best ranks_first
  match_releases-best release others =
      let (c, cs, e) = ranked_cons release others in
      let s = sort_by-IsSortedBy ranks_first ranks_first_order (assessed (release ∷ others)) in
      (
        record { candidates = ranked (release ∷ others) },
        c,
        refl,
        rw e refl,
        sort_by-perm ranks_first (assessed (release ∷ others)),
        rw e (λ d m. first_ranks c d cs (subst (IsSortedBy ranks_first) e s) m),
      )

  same_ranking :
      (xs ys : List MatchCandidate) (c d : MatchCandidate) (cs ds : List MatchCandidate)
      → xs ≡ c ∷ cs
      → ys ≡ d ∷ ds
      → IsSortedBy ranks_first xs
      → IsSortedBy ranks_first ys
      → Perm xs ys
      → unique (record { candidates = xs }) ≡ true
      → (unique (record { candidates = ys }) ≡ true)
        × (best (record { candidates = ys }) ≡ best (record { candidates = xs }))
  unfolding best
  same_ranking xs ys c d cs ds e f s t p u =
      let (u', same) =
        same_best c d cs ds (subst (IsSortedBy ranks_first) e s)
          (subst (IsSortedBy ranks_first) f t)
          (subst (λ zs. Perm zs (d ∷ ds)) e (subst (Perm xs) f p))
          (subst (λ zs. unique (record { candidates = zs }) ≡ true) e u) in
      (
        subst (λ zs. unique (record { candidates = zs }) ≡ true) (sym f) u',
        rw (e, f) (ap some same),
      )

  -- Where `match_releases` has a unique best candidate, it has the same one, unique again, when the
  -- releases come in another order.
  pub unique-best :
      (rs rs' : List Release) (r : Ranking)
      → Perm rs rs'
      → match_releases files rs ≡ some r
      → unique r ≡ true
      → (r' : Ranking) × (match_releases files rs' ≡ some r')
        × (unique r' ≡ true)
        × (best r' ≡ best r)
  unfolding match_releases
  unique-best [] rs' r p m u = absurd (cc)
  unique-best (x ∷ xs) [] r p m u = absurd (omega (arith, length-Perm _ _ p))
  unique-best (x ∷ xs) (y ∷ ys) r p m u =
      let (c, cs, e) = ranked_cons x xs in
      let (d, ds, f) = ranked_cons y ys in
      let made : record { candidates = ranked (x ∷ xs) } ≡ r =
        ap (λ o. elim o [ none ↦ r | some z ↦ z ]) m in
      let (u', b) =
        same_ranking (ranked (x ∷ xs)) (ranked (y ∷ ys)) c d cs ds e f
          (sort_by-IsSortedBy ranks_first ranks_first_order (assessed (x ∷ xs)))
          (sort_by-IsSortedBy ranks_first ranks_first_order (assessed (y ∷ ys)))
          (Perm.trans (sort_by-perm ranks_first (assessed (x ∷ xs))) (
            Perm.trans (Perm.map (assess_match files) p)
              (Perm.symm (sort_by-perm ranks_first (assessed (y ∷ ys))))))
          (subst (λ z. unique z ≡ true) (sym made) u) in
      (record { candidates = ranked (y ∷ ys) }, refl, u', b ∙ ap best made)
