-- ===== src/Scanner/State.antt =====
-- What an album's state says of its files.
use harmonist.Prelude.{
  ℕ, ◌+◌, ◌≤◌, ◌<◌, ◌≡◌, ◌≢◌, sym, ◌∙◌, ◌↔◌, ◌⊎◌, inl, inr, String, true, false, Option, some, List,
  ◌==◌, arith, nat_eq, string_eq, option_eq, keep, length, leb, if◌then◌else◌, Bool-cases,
  Option-cases,
}
use harmonist.Formats.{ScanFields}
use harmonist.Pregaps.{effective}
use harmonist.Models.{AlbumState, needs_sync, complete, incomplete, inconsistent, Sidecar}
use harmonist.Scanner.{derive_state, unlinked, is_inconsistent, album_state}
use harmonist.Scanner.Expected.{expected_tracks}
use harmonist.Scanner.Expected.Media.{
  present_files, has_disc, media_of, known_video, total_has_every_medium,
}

module _ (hostname : String → List ℕ) where
  -- Every file can be read, one at least names the release, and the verdict on its tracks is that
  -- they are all there.
  pub record IsWhole (sc : Sidecar) (mbid : String) (fields video_fields : List ScanFields)
      : Type 0 where
    pub confirmed : sc.mb_release_id ≡ some mbid
    pub all_readable : length (keep (λ f. f.unreadable) fields) ≡ 0
    pub tagged : 0 < length (keep (λ f. f.album_id == some mbid) fields)
    pub all_there :
        (expected_tracks fields video_fields sc.video_media
          (effective fields (some mbid) sc.included_pregaps)).complete
        ≡ true

  IsWhole-state :
      (sc : Sidecar) (fields video_fields : List ScanFields)
      → ((derive_state hostname (some sc) fields video_fields ≡ complete)
          → ((mbid : String) × IsWhole sc mbid fields video_fields)
            × (unlinked hostname sc ≡ false))
        × ((derive_state hostname (some sc) fields video_fields ≡ needs_sync)
            → ((mbid : String) × IsWhole sc mbid fields video_fields)
              × (unlinked hostname sc ≡ true))
  unfolding derive_state
  IsWhole-state sc fields video_fields = elim (Option-cases sc.mb_release_id) [
    | inl unmatched ↦ ((λ h. absurd (ground arith)), (λ h. absurd (ground arith)))
    | inr (mbid, e) ↦ (
      λ h. (
        (
          mbid,
          record {
            confirmed = e;
            all_readable = ground arith;
            tagged = ground arith;
            all_there = ground arith;
          },
        ),
        ground arith,
      ),
      λ h. (
        (
          mbid,
          record {
            confirmed = e;
            all_readable = ground arith;
            tagged = ground arith;
            all_there = ground arith;
          },
        ),
        ground arith,
      ),
    )
  ]

  whole-derive_state :
      (sc : Sidecar) (mbid : String) (fields video_fields : List ScanFields)
      → IsWhole sc mbid fields video_fields
      → derive_state hostname (some sc) fields video_fields
        ≡ (if unlinked hostname sc then needs_sync else complete)
  unfolding derive_state
  whole-derive_state sc mbid fields video_fields w =
      ground (arith, w.confirmed, w.all_readable, w.tagged, w.all_there)

  consistent :
      (sidecar : Option Sidecar) (fields video_fields : List ScanFields) (s : AlbumState)
      → album_state hostname sidecar fields video_fields ≡ s
      → s ≢ inconsistent
      → (is_inconsistent fields ≡ false) × (derive_state hostname sidecar fields video_fields ≡ s)
  unfolding album_state
  consistent sidecar fields video_fields s h n = elim (Bool-cases (is_inconsistent fields)) [
    | inl mixed ↦ absurd (n (cc (rw mixed at h)))
    | inr same ↦ (same, rw same at h)
  ]

  -- An album with a sidecar is COMPLETE exactly when its files agree on what they are, it is whole,
  -- and no Bandcamp purchase is left to link. It is whole where the sidecar names a release, every
  -- file can be read, one at least carries that release, and `expected_tracks` finds all there.
  pub complete_iff :
      (sc : Sidecar) (fields video_fields : List ScanFields)
      → (album_state hostname (some sc) fields video_fields ≡ complete) ↔ (
          (is_inconsistent fields ≡ false)
          × ((mbid : String) × IsWhole sc mbid fields video_fields)
          × (unlinked hostname sc ≡ false))
  unfolding album_state
  complete_iff sc fields video_fields = (
    λ h.
        let (same, e) = consistent (some sc) fields video_fields complete h (λ p. cc) in
        let (whole, linked) = (IsWhole-state sc fields video_fields).0 e in (same, whole, linked),
    λ (same, (mbid, whole), linked).
        rw same (rw (whole-derive_state sc mbid fields video_fields whole) (rw linked)),
  )

  -- In an album that is COMPLETE or waits only for its purchase, with a total that its files tell,
  -- every medium has a readable file on it or is known to be video alone, and the readable files
  -- and the pregaps that stand are at least that total.
  finished_has_every_medium :
      (sc : Sidecar) (fields video_fields : List ScanFields)
      → (album_state hostname (some sc) fields video_fields ≡ complete)
        ⊎ (album_state hostname (some sc) fields video_fields ≡ needs_sync)
      → (mbid : String) × IsWhole sc mbid fields video_fields
        × ((n : ℕ)
            → (expected_tracks fields video_fields sc.video_media
                (effective fields (some mbid) sc.included_pregaps)).total
              ≡ some n
            → ((m : ℕ)
                → 1 ≤ m
                → m ≤ media_of (present_files fields video_fields)
                → (has_disc (present_files fields video_fields) m ≡ true)
                  ⊎ (known_video sc.video_media m ≡ true))
              × (n
                  ≤ length (present_files fields video_fields)
                    + length (effective fields (some mbid) sc.included_pregaps)))
  finished_has_every_medium sc fields video_fields h =
      let (mbid, whole) = whole_of h in
      (
        mbid,
        whole,
        λ n told.
            let credits = effective fields (some mbid) sc.included_pregaps in
            let (media, verdict) =
              total_has_every_medium fields video_fields sc.video_media credits n told in
            (
              media,
              reached n (length (present_files fields video_fields) + length credits)
                  (sym verdict ∙ whole.all_there),
            ),
      )
    where
      whole_of :
          (album_state hostname (some sc) fields video_fields ≡ complete)
            ⊎ (album_state hostname (some sc) fields video_fields ≡ needs_sync)
          → (mbid : String) × IsWhole sc mbid fields video_fields
      whole_of (inl done) =
          ((IsWhole-state sc fields video_fields).0
            (consistent (some sc) fields video_fields complete done (λ p. cc)).1).0
      whole_of (inr waits) =
          ((IsWhole-state sc fields video_fields).1
            (consistent (some sc) fields video_fields needs_sync waits (λ p. cc)).1).0

      reached : (n k : ℕ) → leb n k ≡ true → n ≤ k
      reached n k e = ground arith

  -- A file that cannot be read makes a confirmed album INCOMPLETE, or INCONSISTENT where its other
  -- files disagree: never COMPLETE, never a purchase to link, and never one to tag again.
  unreadable_state :
      (sc : Sidecar) (mbid : String) (fields video_fields : List ScanFields)
      → sc.mb_release_id ≡ some mbid
      → 0 < length (keep (λ f. f.unreadable) fields)
      → album_state hostname (some sc) fields video_fields
        ≡ (if is_inconsistent fields then inconsistent else incomplete)
  unfolding album_state derive_state
  unreadable_state sc mbid fields video_fields e h = ground arith
