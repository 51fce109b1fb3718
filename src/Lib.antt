-- ===== src/Lib.antt =====
-- Harmonist keeps a music library tagged from MusicBrainz. A scan reads every album's tags and
-- decides its state; a match compares an album's files with a release; the pairing of files with
-- tracks is made once and shared by the match, the album page, the review panel and the tagger. This
-- library models those decisions and proves what they promise. Paths are those of the repository.
--
-- The parts, and how they use each other:
--
-- Prelude: no code of the program. Numbers are the native naturals; Boolean tests, lists, counting,
--   Python's stable sort, and lists that hold each number below n once.
-- Formats: src/harmonist/formats/types.py, the fields of a file's tags (TrackTags, ScanFields) and of
--   a tagging (TagSet) that the modelled code reads.
-- Compare: src/harmonist/compare.py. `assign` is the ladder that decides which track each file is:
--   by release-track id, by disc and track number, and by order. Compare.Page is `_assign`, which the
--   album page uses. The slots are a list that the steps of the loop pass along.
-- Pregaps: src/harmonist/pregaps.py, `effective`.
-- Models: src/harmonist/models.py, the sidecar's fields, `host_is` and `titles_match`. The host of a
--   URL is a parameter: it comes from urllib.parse.
-- Scanner: src/harmonist/scanner.py. Scanner is `_derive_state` and the checks before it,
--   Scanner.Expected is `expected_tracks`, Scanner.Groups is `_disjoint_groups`. The order of two
--   paths is a parameter.
-- Releases: what is read off a release: src/harmonist/mb_tracks.py, `_flatten_tracks` and its helpers
--   in src/harmonist/tagger.py, `video_media_of` in src/harmonist/mb_lookup.py.
-- Match: src/harmonist/match.py. `assess_match` uses Compare.assign and Releases; Match.Ranking is
--   `match_releases`, which sorts the assessments.
-- Assignment: src/harmonist/track_assignment.py. Assignment is the text form of an order, and
--   Assignment.Panel the panel: its two orders are rows of optional indices, and a move is a function
--   that returns none where Python raises.
-- Structure: src/harmonist/track_structure.py, `pairs`: a state of slots and free tracks, and one step
--   for each kind of identity.
-- LiveCounts: src/harmonist/live_counts.py. A Counter is a function from states to naturals.
-- Barcodes: src/harmonist/barcodes.py. A text is the list of its code points.
-- Downloads: src/harmonist/pending_downloads.py and src/harmonist/redownloads.py, dictionaries that are
--   lists of pairs.
-- DiscFill: src/harmonist/disc_fill.py, with the fields of an album that it reads.
-- Images: src/harmonist/images.py. A byte is a number, and a read past the end of the data an answer of
--   its own.
-- Squish: src/harmonist/squish.py. Pillow is a record of what the code calls of it.
-- Progress: src/harmonist/progress.py. Jobs are numbers with a heap of their fields, since the register
--   compares objects.
-- Transforms: src/harmonist/transforms.py, and `title_with_disambiguation` of models.py.
-- Fields: src/harmonist/compare.py again, the rows of the album panel: `consensus` over the tracks, in
--   Fields.Rows the runs of a difference and the comparison of two values. difflib's operations are a
--   parameter.
-- Gardener: src/harmonist/gardener.py with the levels of formats/owned.py: the verdict on an album's
--   update and where the update goes.
-- AutoApply: src/harmonist/auto_apply.py: the holds, and one album's turn in a pass or a selection, over
--   the files as a world that a tagging changes. It asks Gardener for the level and the range.
-- AlbumFiles: src/harmonist/album_files.py, the names of an album's files. A path is the list of its
--   parts.
--
-- Background: what runs behind the web server: src/harmonist/web/dir_watcher.py, web/periodic.py,
--   web/scan_runner.py and src/harmonist/request_load.py. Each callback of the event loop is one step, and
--   time is a number of ticks.
--
-- Library: src/harmonist/library_titles.py and src/harmonist/library_index.py with the slugs of
--   src/harmonist/url_recovery.py. A dictionary is a list of keys with their values, a set a list of its
--   members; urllib is a record of what the code calls of it. Library.Titles.Quiet puts the membership
--   beside the titles that Transforms writes.
--
-- Security: src/harmonist/web/security.py. What it calls of the standard library is a record, with what
--   its documentation says as named laws.
--
-- Credits: src/harmonist/credits.py: the people and the works of a track, spelled by Transforms.
--
-- Each loop over a list is structural recursion, so nothing runs out of fuel but three: `digits`, which
-- prints a number with fuel one more than the number, since it divides by ten at each step; the walk
-- over a JPEG, with a round more than there are bytes, since each round starts at a later byte; and
-- the shrinking of an image, whose rounds are an argument.
--
-- Not modelled: file and network access, the tags' binary formats, the database, the web pages, and
-- the parts that call them. Texts of messages are left out where a case tells them apart.
pub mod Prelude
pub mod Formats
pub mod Compare
pub mod Pregaps
pub mod Models
pub mod Scanner
pub mod Releases
pub mod Match
pub mod Assignment
pub mod Structure
pub mod LiveCounts
pub mod Barcodes
pub mod Downloads
pub mod DiscFill
pub mod Images
pub mod Squish
pub mod Progress
pub mod Transforms
pub mod Fields
pub mod Gardener
pub mod AutoApply
pub mod AlbumFiles
pub mod Background
pub mod Library
pub mod Security
pub mod Credits
