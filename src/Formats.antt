-- ===== src/Formats.antt =====
-- src/harmonist/formats/types.py: what the readers find in a file and what a tagging writes, with
-- the fields that the modelled code reads. Numbers are naturals: a tag holds no negative one.
use harmonist.Prelude.{ℕ, zero, suc, String, Bool, Option, none, some}

-- `x or 1`, on a number that may be absent: Python reads 0 as false too.
unfoldable pub or_1 : Option ℕ → ℕ
or_1 none = 1
or_1 (some zero) = 1
or_1 (some (suc n)) = suc n

-- The entries of the `owned` snapshot that the pairing reads.
pub record OwnedTags : Type 0 where
  pub mb_release_track_id : Option String
  pub mb_album_id : Option String
  pub mb_track_id : Option String
  pub track_num : Option ℕ
  pub disc_num : Option ℕ
  pub track_total : Option ℕ
  pub disc_total : Option ℕ

pub record TrackTags : Type 0 where
  pub unreadable : Bool
  pub video : Bool
  pub title : Option String
  pub release_track_id : Option String
  pub disc_num : Option ℕ
  pub track_num : Option ℕ
  pub duration_ms : Option ℕ
  pub owned : OwnedTags

pub record TagSet : Type 0 where
  pub title : String
  pub mb_release_track_id : Option String
  pub mb_track_id : Option String
  pub mb_album_id : String
  pub disc_num : ℕ
  pub track_num : ℕ
  pub track_total : ℕ
  pub disc_total : ℕ

pub record ScanFields : Type 0 where
  pub album_title : Option String
  pub album_id : Option String
  pub unreadable : Bool
  pub disc_num : Option ℕ
  pub track_total : Option ℕ
  pub disc_total : Option ℕ
  pub release_track_id : Option String
  pub duration_ms : Option ℕ
