-- ===== src/Assignment/Panel/Moves.antt =====
-- The invariant of a panel, its moves, and the draft that carries it to the next request.
use harmonist.Prelude.{
  ℕ, suc, ◌+◌, ◌≡◌, ◌≢◌, ◌≤◌, ◌<◌, ap, ◌∙◌, subst, Option, none, some, List, [], ◌∷◌, ◌++◌, map,
  length, length-append, length-map, length-range_from, length-replicate, range, leb, replicate,
  slots_of, sort_by, sort-range, arith, inl, inr, max, Option-cases, Bool-cases,
}
use mathlib.Core.List.{append-nil}
use harmonist.Assignment.Drafts.{order-encode, length-parts_of}
use harmonist.Assignment.Panel.{
  Panel, draft, replay, Move, release_only, add_gap, shift, other, disk_side, mb_side, Direction,
  with_orders, shift_order, move,
}
use harmonist.Assignment.Panel.Orders.{
  slots_of-append, slots_of-replicate, slots_of-map, shift_order-keeps,
}

-- An order of `rows` rows in which each entry below `n` stands once.
pub record IsOrderOf (xs : List (Option ℕ)) (n rows : ℕ) : Type 0 where
  pub each_once : sort_by leb (slots_of xs) ≡ range n
  pub has_rows : length xs ≡ rows

pub record IsValid (p : Panel) : Type 0 where
  pub rows : ℕ
  pub disk_valid : IsOrderOf p.disk_order (length p.disk) rows
  pub mb_valid : IsOrderOf p.mb_order (length p.mb) rows
  pub room : max (length p.disk) (length p.mb) ≤ rows
  pub bounded : rows ≤ length p.disk + length p.mb + 1

shifted :
    (xs ys : List (Option ℕ)) (i n rows : ℕ) (direction : Direction)
    → shift_order xs i direction ≡ some ys
    → IsOrderOf xs n rows
    → IsOrderOf ys n rows
shifted xs ys i n rows direction h v =
    let (e, l) = shift_order-keeps xs ys i n direction h v.each_once in
    record { each_once = e; has_rows = l ∙ v.has_rows }

files_first : (n m : ℕ) → IsOrderOf (map some (range n) ++ replicate m none) n (n + m)
files_first n m = record {
  each_once =
      ap (sort_by leb) (
        slots_of-append (map some (range n)) (replicate m none)
        ∙ rw (slots_of-replicate m, slots_of-map (range n)) (append-nil (range n)))
      ∙ sort-range n;
  has_rows =
      length-append (map some (range n)) (replicate m none)
      ∙ omega (
        arith,
        length-map {B = Option ℕ} some (range n),
        length-range_from 0 n,
        length-replicate {A = Option ℕ} m none,
      );
}

tracks_last : (n m : ℕ) → IsOrderOf (replicate n none ++ map some (range m)) m (n + m)
tracks_last n m = record {
  each_once =
      ap (sort_by leb) (
        slots_of-append (replicate n none) (map some (range m))
        ∙ rw (slots_of-replicate n) (slots_of-map (range m)))
      ∙ sort-range m;
  has_rows =
      length-append (replicate n none) (map some (range m))
      ∙ omega (
        arith,
        length-map {B = Option ℕ} some (range m),
        length-range_from 0 m,
        length-replicate {A = Option ℕ} n none,
      );
}

gap_added :
    (xs : List (Option ℕ)) (n rows : ℕ)
    → IsOrderOf xs n rows
    → IsOrderOf (xs ++ none ∷ []) n (suc rows)
gap_added xs n rows v = record {
  each_once =
      ap (sort_by leb) (slots_of-append xs (none ∷ []) ∙ append-nil (slots_of xs)) ∙ v.each_once;
  has_rows = length-append xs (none ∷ []) ∙ omega (arith, v.has_rows);
}

made : (p q : Panel) → some p ≡ some q → p ≡ q
made p q e = ap (λ o. elim o [ none ↦ p | some r ↦ r ]) e

-- A move keeps a panel valid, where it does not raise: the two orders keep the same number of rows,
-- each file and each track stands once, and there are no more rows than both take apart, and one.
pub move-IsValid : (p q : Panel) (m : Move) → move p m ≡ some q → IsValid p → IsValid q
unfolding move
move-IsValid p q release_only h v = subst IsValid (made _ q h) (record {
  rows = length p.disk + length p.mb;
  disk_valid = files_first (length p.disk) (length p.mb);
  mb_valid = tracks_last (length p.disk) (length p.mb);
  room = omega arith;
  bounded = omega arith;
})
move-IsValid p q add_gap h v =
    elim (Bool-cases (leb (length p.disk + length p.mb + 1) (length p.disk_order))) [
      | inl full ↦ absurd (ground arith)
      | inr room ↦
          subst IsValid
            (made (with_orders p (p.disk_order ++ none ∷ []) (p.mb_order ++ none ∷ [])) q
              (ground arith))
            (record {
              rows = suc v.rows;
              disk_valid = gap_added p.disk_order (length p.disk) v.rows v.disk_valid;
              mb_valid = gap_added p.mb_order (length p.mb) v.rows v.mb_valid;
              room = omega (arith, v.room);
              bounded = ground (arith, v.disk_valid.has_rows);
            })
    ]
move-IsValid p q (shift disk_side i direction) h v =
    elim (Option-cases (shift_order p.disk_order i direction)) [
      | inl out ↦ absurd (ground arith)
      | inr (moved, e) ↦
          subst IsValid (made (with_orders p moved p.mb_order) q (ground (arith, e))) (record {
            rows = v.rows;
            disk_valid =
                shifted p.disk_order moved i (length p.disk) v.rows direction e v.disk_valid;
            mb_valid = v.mb_valid;
            room = v.room;
            bounded = v.bounded;
          })
    ]
move-IsValid p q (shift mb_side i direction) h v =
    elim (Option-cases (shift_order p.mb_order i direction)) [
      | inl out ↦ absurd (ground arith)
      | inr (moved, e) ↦
          subst IsValid (made (with_orders p p.disk_order moved) q (ground (arith, e))) (record {
            rows = v.rows;
            disk_valid = v.disk_valid;
            mb_valid = shifted p.mb_order moved i (length p.mb) v.rows direction e v.mb_valid;
            room = v.room;
            bounded = v.bounded;
          })
    ]
move-IsValid p q other h v = absurd (cc)

not_empty {ℓ} : {A : Type ℓ} (xs : List A) → 0 < length xs → xs ≢ []
not_empty [] h = elim h [ ]
not_empty (x ∷ xs) h = λ e. cc

-- The draft of a valid panel with a file or a track is replayed: it gives both orders back.
pub replay-draft :
    (p : Panel)
    → IsValid p
    → 0 < length p.disk + length p.mb
    → replay (draft p) (length p.disk) (length p.mb) ≡ some (p.disk_order, p.mb_order)
unfolding replay draft
replay-draft p v some_entry =
    let d = not_empty p.disk_order (omega (arith, v.disk_valid.has_rows, v.room)) in
    let m = not_empty p.mb_order (omega (arith, v.mb_valid.has_rows, v.room)) in
    ground (
      arith,
      length-parts_of p.disk_order d,
      v.disk_valid.has_rows,
      v.mb_valid.has_rows,
      v.room,
      v.bounded,
      order-encode p.disk_order (length p.disk) d v.disk_valid.each_once,
      order-encode p.mb_order (length p.mb) m v.mb_valid.each_once,
    )
