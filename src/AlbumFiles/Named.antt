-- ===== src/AlbumFiles/Named.antt =====
-- That the names of src/harmonist/album_files.py lead back to their files.
use harmonist.Prelude.{
  ◌-◌, String, ◌≡◌, inl, inr, refl, ap, sym, subst, ◌∙◌, Bool, true, false, ◌||◌, some, List, [],
  ◌∷◌, ◌++◌, ◌==◌, string_eq, length, length-append, map, every, any_of, drop-append, contains,
  contains-keep, arith, beq_iff, beq_refl, Bool-cases, list_beq, list_beq_refl, list_beq→eq,
}
use mathlib.Core.List.{append_assoc, append-nil}
use harmonist.AlbumFiles.{
  FilePath, path_eq, is_absolute, parent, bare_name, common, common_all, commonpath, root_of,
  relative_to, name_of, ends_as, is_special, matches,
}

-- What is left of a path behind a root that it is under.
abbrev Under : FilePath → FilePath → Type 0
Under root path = (rest : FilePath) × (path ≡ root ++ rest)

common_left : (p q : FilePath) → Under (common p q) p
unfolding common
common_left [] q = ([], refl)
common_left (a ∷ p) [] = (a ∷ p, refl)
common_left (a ∷ p) (b ∷ q) = elim (Bool-cases (a == b)) [
  | inl same ↦ let (rest, e) = common_left p q in (rest, ground arith)
  | inr differ ↦ (a ∷ p, ground arith)
]

common_right : (p q : FilePath) → Under (common p q) q
unfolding common
common_right [] q = (q, refl)
common_right (a ∷ p) [] = ([], refl)
common_right (a ∷ p) (b ∷ q) = elim (Bool-cases (a == b)) [
  | inl same ↦ let (rest, e) = common_right p q in (rest, ground (arith, beq_iff a b))
  | inr differ ↦ (b ∷ q, ground arith)
]

Under-trans : (a b c : FilePath) → Under a b → Under b c → Under a c
Under-trans a b c (r, e) (s, f) = (r ++ s, f ∙ (ap (λ p. p ++ s) e ∙ append_assoc a r s))

common_all-Under :
    (p : FilePath) (ps : List FilePath) (q : FilePath)
    → contains (p ∷ ps) q ≡ true
    → Under (common_all p ps) q
unfolding common_all
common_all-Under p [] q c =
    let e : p ≡ q = list_beq→eq p q (ground arith) in ([], sym e ∙ sym (append-nil p))
common_all-Under p (p' ∷ ps) q c = elim (Bool-cases (list_beq p q)) [
  | inl at ↦
      let e : p ≡ q = list_beq→eq p q at in
      subst (Under (common p (common_all p' ps))) e (common_left p (common_all p' ps))
  | inr past ↦
      Under-trans _ _ _ (common_right p (common_all p' ps))
        (common_all-Under p' ps q (ground arith))
]

common-absolute :
    (p q : FilePath) → is_absolute p ≡ true → is_absolute q ≡ true → is_absolute (common p q) ≡ true
unfolding common is_absolute
common-absolute [] q a b = a
common-absolute (x ∷ p) [] a b = b
common-absolute (x ∷ p) (y ∷ q) a b = ground (arith, beq_iff x "/", beq_iff y "/", beq_iff x y)

common_all-absolute :
    (p : FilePath) (ps : List FilePath)
    → every is_absolute (p ∷ ps) ≡ true
    → is_absolute (common_all p ps) ≡ true
unfolding common_all
common_all-absolute p [] a = ground arith
common_all-absolute p (q ∷ ps) a =
    common-absolute p (common_all q ps) (ground arith) (common_all-absolute q ps (ground arith))

every_equal :
    (p : FilePath) (ps : List FilePath) (q : FilePath)
    → every (list_beq p) ps ≡ true
    → contains ps q ≡ true
    → p ≡ q
every_equal p [] q h c = absurd (cc)
every_equal p (x ∷ ps) q h c = elim (Bool-cases (list_beq x q)) [
  | inl at ↦ list_beq→eq p x (ground arith) ∙ list_beq→eq x q at
  | inr past ↦ every_equal p ps q (ground arith) (ground arith)
]

contains-parents :
    (files : List FilePath) (f : FilePath)
    → contains files f ≡ true
    → contains (map parent files) (parent f) ≡ true
contains-parents [] f c = absurd (cc)
contains-parents (x ∷ files) f c = elim (Bool-cases (list_beq x f)) [
  | inl at ↦
      let e : x ≡ f = list_beq→eq x f at in ground (arith, ap parent e, list_beq_refl (parent f))
  | inr past ↦ ground (arith, contains-parents files f)
]

-- Where all the paths are absolute, the root is, and every file's directory is under it.
root-Under :
    (album_dir : FilePath) (files : List FilePath) (f : FilePath)
    → every is_absolute (album_dir ∷ map parent files) ≡ true
    → contains files f ≡ true
    → (is_absolute (root_of album_dir files) ≡ true) × Under (root_of album_dir files) (parent f)
unfolding root_of commonpath
root-Under album_dir files f a c =
    let dirs = map parent files in
    let there = contains-parents files f c in
    elim (Bool-cases (every (list_beq album_dir) dirs)) [
      | inl one ↦
          let e : album_dir ≡ parent f = every_equal album_dir dirs (parent f) one there in
          rw one (ground arith, ([], sym e ∙ sym (append-nil album_dir)))
      | inr several ↦
          rw (several, a)
            (
              common_all-absolute album_dir dirs a,
              common_all-Under album_dir dirs (parent f) (ground arith),
            )
    ]

relative_to-append : (root rest : FilePath) → relative_to root (root ++ rest) ≡ some rest
unfolding relative_to
relative_to-append [] rest = refl
relative_to-append (a ∷ root) rest = ground (arith, relative_to-append root rest, beq_refl a)

parent-bare_name : (a : String) (p : FilePath) → a ∷ p ≡ parent (a ∷ p) ++ bare_name (a ∷ p)
unfolding parent bare_name
parent-bare_name a [] = refl
parent-bare_name a (b ∷ p) = ap (λ q. a ∷ q) (parent-bare_name b p)

any_append :
    (test : String → Bool) (p q : FilePath)
    → any_of test (p ++ q) ≡ (any_of test p || any_of test q)
any_append test [] q = refl
any_append test (a ∷ p) q = ground (arith, any_append test p q)

bare_there : (a : String) (p : FilePath) → any_of (λ x. true) (bare_name (a ∷ p)) ≡ true
unfolding bare_name
bare_there a [] = refl
bare_there a (b ∷ p) = bare_there b p

or_true : (b : Bool) → (b || true) ≡ true
or_true b = ground arith

-- A part that no name has: a step in place or up, or a root.
abbrev pub bad_part : String → Bool
bad_part part = is_special part || part == "/"

fine_parts :
    (n : FilePath)
    → any_of bad_part n ≡ false
    → (any_of is_special n ≡ false) × (is_absolute n ≡ false)
unfolding is_absolute
fine_parts [] h = (refl, refl)
fine_parts (a ∷ n) h = (ground (arith, fine_parts n), ground arith)

ends_as-append : (root n : FilePath) → ends_as n (root ++ n) ≡ true
unfolding ends_as
ends_as-append root n =
    let e : length (root ++ n) - length n ≡ length root = omega (arith, length-append root n) in
    rw (e, drop-append root n) (list_beq_refl n)

path_tail : FilePath → FilePath
path_tail [] = []
path_tail (a ∷ p) = p

matched :
    (album_dir : FilePath) (files : List FilePath) (root n p : FilePath)
    → is_absolute root ≡ true
    → "/" ∷ p ≡ root ++ n
    → any_of (λ x. true) n ≡ true
    → any_of bad_part p ≡ false
    → contains files ("/" ∷ p) ≡ true
    → contains (matches album_dir files n) ("/" ∷ p) ≡ true
unfolding matches path_tail
matched album_dir files [] n p a e t fine c = absurd (ground arith)
matched album_dir files (x ∷ root) [] p a e t fine c = absurd (cc)
matched album_dir files (x ∷ root) (b ∷ n) p a e t fine c =
    let rest : p ≡ root ++ b ∷ n = ap path_tail e in
    let ok : any_of bad_part (b ∷ n) ≡ false =
      ground (arith, ap (any_of bad_part) rest, any_append bad_part root (b ∷ n)) in
    let (plain, relative) = fine_parts (b ∷ n) ok in
    let tail_fits : ends_as (b ∷ n) ("/" ∷ p) ≡ true =
      ap (ends_as (b ∷ n)) e ∙ ends_as-append (x ∷ root) (b ∷ n) in
    rw (relative, plain) (contains-keep (ends_as (b ∷ n)) files ("/" ∷ p) c tail_fits)

module _ (album_dir : FilePath) (files : List FilePath)
    (absolute : every is_absolute (album_dir ∷ map parent files) ≡ true) where
  -- The root before the name gives the file back.
  name_under :
      (a : String) (p : FilePath)
      → contains files (a ∷ p) ≡ true
      → (a ∷ p ≡ root_of album_dir files ++ name_of album_dir files (a ∷ p))
        × (any_of (λ x. true) (name_of album_dir files (a ∷ p)) ≡ true)
  unfolding name_of
  name_under a p c =
      let root = root_of album_dir files in
      let (_, (r, e)) = root-Under album_dir files (a ∷ p) absolute c in
      let whole : a ∷ p ≡ root ++ (r ++ bare_name (a ∷ p)) =
        parent-bare_name a p
        ∙ (ap (λ q. q ++ bare_name (a ∷ p)) e ∙ append_assoc root r (bare_name (a ∷ p))) in
      let found = ap (relative_to root) whole ∙ relative_to-append root (r ++ bare_name (a ∷ p)) in
      let named : name_of album_dir files (a ∷ p) ≡ r ++ bare_name (a ∷ p) =
        ground (arith, found) in
      (
        whole ∙ ap (λ n. root ++ n) (sym named),
        rw (named, any_append (λ x. true) r (bare_name (a ∷ p)), bare_there a p)
            (or_true (any_of (λ x. true) r)),
      )

  -- Two files of an album whose paths are absolute have different names.
  name_of_unique :
      (a b : String) (p q : FilePath)
      → contains files (a ∷ p) ≡ true
      → contains files (b ∷ q) ≡ true
      → name_of album_dir files (a ∷ p) ≡ name_of album_dir files (b ∷ q)
      → a ∷ p ≡ b ∷ q
  name_of_unique a b p q c d e =
      (name_under a p c).0 ∙ (ap (λ n. root_of album_dir files ++ n) e ∙ sym (name_under b q d).0)

  -- Where the paths of an album are absolute, the name that a record gives to one of its files leads back
  -- to it, the file being among those that the name could mean, if no part of the file's path after its
  -- root is `..`, `.`, empty or a root. (Of these, only `..` can stand in a path of pathlib.)
  pub name_of-matches :
      (p : FilePath)
      → contains files ("/" ∷ p) ≡ true
      → any_of bad_part p ≡ false
      → contains (matches album_dir files (name_of album_dir files ("/" ∷ p))) ("/" ∷ p) ≡ true
  name_of-matches p c fine =
      let (a, under) = root-Under album_dir files ("/" ∷ p) absolute c in
      let (e, some_) = name_under "/" p c in
      matched album_dir files (root_of album_dir files) (name_of album_dir files ("/" ∷ p)) p a e
        some_ fine c
