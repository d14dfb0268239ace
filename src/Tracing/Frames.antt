-- ===== src/Tracing/Frames.antt =====
-- The stack frames of tracer/trace.go and loggerw/logger.go, and what the two make of them.
use go_utility.Base.{
  ℕ, ◌+◌, String, Bool, true, false, ◌||◌, Option, none, some, List, [], ◌∷◌, leb, if◌then◌else◌,
}
use go_utility.Base.Text.{index}

-- A frame of `runtime`, with its function as bytes.
pub record Frame : Type 0 where
  pub function : List ℕ
  pub file : String
  pub line : ℕ

abbrev zero_frame : Frame
zero_frame = record { function = []; file = ""; line = 0 }

abbrev is_found : Option ℕ → Bool
is_found none = false
is_found (some i) = true

abbrev pub has : List ℕ → Frame → Bool
unfolding index
has part fr = is_found (index part fr.function)

abbrev is_last : List Frame → Bool
is_last [] = true
is_last (fr ∷ frames) = false

module _ (show : Frame → String) (is_skipped : Frame → Bool) (max : ℕ) where
  -- The loop over the frames, from the number of them that are written on: it ends when `max` are
  -- written, or with the last frame.
  unfoldable pub walk : ℕ → List Frame → List String
  walk depth [] = []
  walk depth (fr ∷ frames) =
      let skipping = walk depth frames in
      let going = walk (depth + 1) frames in
      if is_skipped fr
      then (if is_last frames then [] else skipping)
      else show fr ∷ (if leb max (depth + 1) || is_last frames then [] else going)

-- `fs.Next()` gives an empty frame when there is none at all.
abbrev pub at_least_one : List Frame → List Frame
at_least_one [] = zero_frame ∷ []
at_least_one frames = frames
