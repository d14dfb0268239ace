-- ===== src/Tracing/Stack.antt =====
-- What the loop over the stack frames gives.
use go_utility.Base.{
  ℕ, zero, suc, ◌+◌, ◌<◌, String, Bool, ◌≡◌, refl, List, [], ◌∷◌, map, if◌then◌else◌, arith,
}
use go_utility.Base.Text.{take, codes}
use go_utility.Tracing.Frames.{Frame, has, walk, at_least_one}
use go_utility.Tracing.Trace.{build_stack_slice}

abbrev pub kept : (Frame → Bool) → List Frame → List Frame
kept is_skipped [] = []
kept is_skipped (fr ∷ frames) =
    let rest = kept is_skipped frames in if is_skipped fr then rest else fr ∷ rest

module _ (show : Frame → String) (is_skipped : Frame → Bool) (max : ℕ) where
  pub walk_lem :
      (depth n : ℕ) (frames : List Frame)
      → n + depth ≡ max
      → 0 < n
      → walk show is_skipped max depth frames ≡ take n (map show (kept is_skipped frames))
  unfolding walk
  walk_lem depth zero frames e pos = absurd (omega arith)
  walk_lem depth (suc n) [] e pos = refl
  walk_lem depth (suc n) (fr ∷ frames) e pos =
      ground (arith, walk_lem depth (suc n) frames e pos, walk_lem (depth + 1) n frames)

-- The stack of an error line is the first frames whose function is not of the runtime, in their
-- order, at most as many as asked for; no frames at all count as one that is empty.
pub build_stack_slice_lem :
    (show : Frame → String) (max : ℕ) (frames : List Frame)
    → 0 < max
    → build_stack_slice show max frames
      ≡ take max (map show (kept (has (codes "runtime.")) (at_least_one frames)))
unfolding build_stack_slice
build_stack_slice_lem show max frames pos =
    walk_lem show (has (codes "runtime.")) max 0 max (at_least_one frames) (omega arith) pos
