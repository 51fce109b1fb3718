-- ===== src/Compare/Page/Files.antt =====
-- No file is lost between the slots and the album page: `split_by_slot` writes no key twice.
use mathlib.Core.List.{Perm, perm_middle, append_assoc, append-nil, map-append}
use mathlib.Core.List.Perm
use harmonist.Prelude.{
  ℕ, ◌+◌, ◌≤◌, ◌≡◌, refl, Option, none, some, List, [], ◌∷◌, ◌++◌, arith, nat_eq, count,
  count-append, slots_of, length, String, ◌∙◌, sym, subst, length-map,
}
use harmonist.Formats.{TrackTags, TagSet}
use harmonist.Compare.{assign}
use harmonist.Compare.Slots.{assign_once, length-assign}
use harmonist.Compare.Page.{
  identities, targets_of, page_slots, page_assign, put, split_by_slot, dict_keys, dict_values,
}
use harmonist.Compare.Page.Narrowing.{Blank, count-Narrows, length-Narrows, page_slots-Narrows}

module _ {ℓ} {V : Type ℓ} where
  put_new :
      (k : ℕ) (v : V) (m : List (ℕ × V)) → count k (dict_keys m) ≡ 0 → put k v m ≡ m ++ (k, v) ∷ []
  unfolding put
  put_new k v [] h = refl
  put_new k v ((j, w) ∷ m) h = ground (arith, put_new k v m)

  -- With every slot given once, the dictionary's values and the leftovers are the items.
  split_by_slot-perm :
      (ts : List V) (slots : List (Option ℕ)) (assigned : List (ℕ × V)) (leftover : List V)
      → length ts ≡ length slots
      → ((x : ℕ) → count x (dict_keys assigned) + count x (slots_of slots) ≤ 1)
      → Perm
          (dict_values (split_by_slot ts slots assigned leftover).0
            ++ (split_by_slot ts slots assigned leftover).1)
          (dict_values assigned ++ (leftover ++ ts))
  unfolding split_by_slot
  split_by_slot-perm [] slots assigned leftover l h = rw append-nil (Perm.refl _)
  split_by_slot-perm (t ∷ ts) [] assigned leftover l h = absurd (omega arith)
  split_by_slot-perm (t ∷ ts) (none ∷ slots) assigned leftover l h =
      subst
        (λ rest.
          Perm
            (dict_values (split_by_slot ts slots assigned (leftover ++ t ∷ [])).0
              ++ (split_by_slot ts slots assigned (leftover ++ t ∷ [])).1)
            (dict_values assigned ++ rest))
        (append_assoc leftover (t ∷ []) ts)
        (split_by_slot-perm ts slots assigned (leftover ++ t ∷ []) (omega arith) h)
  split_by_slot-perm (t ∷ ts) (some s ∷ slots) assigned leftover l h =
      let next = assigned ++ (s, t) ∷ [] in
      subst
        (λ m.
          Perm
            (dict_values (split_by_slot ts slots m leftover).0
              ++ (split_by_slot ts slots m leftover).1)
            (dict_values assigned ++ (leftover ++ t ∷ ts)))
        (sym (put_new s t assigned (ground (arith, h s))))
        (Perm.trans
          (split_by_slot-perm ts slots next leftover (omega arith) (λ x. ground (
            arith,
            h x,
            count-append x (dict_keys assigned) (s ∷ []),
            map-append (λ (p : ℕ × V). p.0) assigned ((s, t) ∷ []),
          )))
          moved)
    where
      moved :
          Perm
            (dict_values (assigned ++ (s, t) ∷ []) ++ (leftover ++ ts))
            (dict_values assigned ++ (leftover ++ t ∷ ts))
      moved =
          rw (map-append, append_assoc)
            (Perm.append_left (dict_values assigned) (Perm.symm (perm_middle leftover ts)))

-- Where unreadable files carry no tags, every file of an album stands on its page exactly once,
-- beside a track or among the leftovers, whether or not the album is confirmed.
pub page_assign-perm :
    (tracks : List (String × TrackTags)) (mb : List TagSet) (confirmed : Option String)
    → Blank tracks
    → Perm
        (dict_values (page_assign tracks mb confirmed).0 ++ (page_assign tracks mb confirmed).1)
        tracks
unfolding page_assign
page_assign-perm tracks mb confirmed b =
    let slots = page_slots tracks mb confirmed in
    let given = assign (identities tracks) (targets_of mb) in
    let narrow = page_slots-Narrows tracks mb confirmed b in
    split_by_slot-perm tracks slots [] []
      (sym (
        length-Narrows slots given narrow
        ∙ (length-assign (identities tracks) (targets_of mb) ∙ length-map _ tracks)))
      (λ x. ground (
        arith,
        count-Narrows x slots given narrow,
        assign_once (identities tracks) (targets_of mb) x,
      ))
