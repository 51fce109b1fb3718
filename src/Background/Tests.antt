-- ===== src/Background/Tests.antt =====
-- A library that is copied into, a scan that is asked for while another runs, and the theorems of Background at them.
use harmonist.Prelude.{String, ◌≡◌, refl, true, false, none, some, List, [], ◌∷◌, string_eq, any_of}
use harmonist.Background.Watcher.{Change, Batch, watching, is_demo, expire, watch}
use harmonist.Background.Watcher.Delivered.{is_delivered, watch_delivers}
use harmonist.Background.Scans.{
  Pass, Runner, kick, kick_quiet, refresh, is_wanted, begin_pass, end_pass,
}
use harmonist.Background.Scans.Covered.{
  Steps, reads_path, is_shown_scan, refresh_covered, kick_covered,
}

abbrev change : String → Change
change name = record { path = name; name = name }

-- Two tracks are copied within the settle delay, the demo writes its history, and a third comes later.
abbrev copied : List Batch
copied =
    record { time = 10; changes = change "1.flac" ∷ change ".demo-activity.db" ∷ [] }
    ∷ record { time = 13; changes = change "2.flac" ∷ change "1.flac" ∷ [] }
    ∷ record { time = 14; changes = change ".demo-activity.db-wal" ∷ [] }
    ∷ record { time = 20; changes = change "3.flac" ∷ [] }
    ∷ []

copied_sent :
    (expire 25 (watch 5 copied watching)).sent ≡ (("1.flac" ∷ "2.flac" ∷ []) ∷ ("3.flac" ∷ []) ∷ [])
unfolding watch expire
copied_sent = refl

watch_delivers_example : is_delivered (expire 25 (watch 5 copied watching)) "2.flac" ≡ true
unfolding is_demo
watch_delivers_example = watch_delivers 5 25 copied "2.flac" refl refl

-- A refresh that fails after the initial scan, and the full scan that follows it.
abbrev idle : Runner
idle = record { dirty = false; visible = false; changed_paths = []; running = false; pass = none }

abbrev one_path : Pass
one_path = record { full = false; paths = "1.flac" ∷ []; visible = false }

abbrev shown : Pass
shown = record { full = true; paths = []; visible = true }

abbrev failing : Runner
failing = begin_pass (
    end_pass false shown
      (begin_pass (end_pass false one_path (begin_pass (refresh ("1.flac" ∷ []) idle)))))

failing-Steps : Steps (refresh ("1.flac" ∷ []) idle) failing (one_path ∷ shown ∷ [])
unfolding refresh begin_pass end_pass is_wanted
failing-Steps =
    Steps.begins _ _
      (Steps.ends false shown _ _
        (Steps.begins _ _
          (Steps.ends false one_path _ _ (Steps.begins _ _ Steps.stay refl refl) refl) refl refl)
        refl)
      refl refl

refresh_covered_example : any_of (reads_path "1.flac") (one_path ∷ shown ∷ []) ≡ true
unfolding refresh begin_pass end_pass is_wanted
refresh_covered_example =
    refresh_covered ("1.flac" ∷ []) "1.flac" idle refl failing (one_path ∷ shown ∷ []) failing-Steps
      refl

-- A kick in the middle of a quiet scan.
abbrev quiet : Pass
quiet = record { full = true; paths = []; visible = false }

abbrev in_quiet : Runner
in_quiet = begin_pass (kick_quiet idle)

abbrev after_kick : Runner
after_kick = begin_pass (end_pass true shown (begin_pass (end_pass true quiet (kick in_quiet))))

-- The scan in flight shows itself from the kick on.
kick_promotes : (kick in_quiet).pass ≡ some (record { full = true; paths = []; visible = true })
unfolding kick kick_quiet begin_pass
kick_promotes = refl

after_kick-Steps : Steps (kick in_quiet) after_kick (shown ∷ [])
unfolding kick kick_quiet begin_pass end_pass is_wanted
after_kick-Steps =
    Steps.begins _ _
      (Steps.ends true shown _ _
        (Steps.begins _ _
          (Steps.ends true (record { full = true; paths = []; visible = true }) _ _ Steps.stay refl)
          refl refl)
        refl)
      refl refl

kick_covered_example : any_of is_shown_scan (shown ∷ []) ≡ true
unfolding kick kick_quiet begin_pass end_pass is_wanted
kick_covered_example = kick_covered in_quiet after_kick (shown ∷ []) after_kick-Steps refl
