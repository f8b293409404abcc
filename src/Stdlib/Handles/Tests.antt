-- ===== src/Stdlib/Handles/Tests.antt =====
-- The handles of a run.
use workflow_engine.Prelude.{◌≡◌, refl, List, [], ◌∷◌, ◌++◌, nat_eq}
use workflow_engine.Prelude.Counting.{times}
use workflow_engine.Stdlib.Handles.{track, remove, release, drain}
use workflow_engine.Stdlib.Handles.Closing.{
  HandleCall, tracks, releases, call, closed_by, closed_once,
}

-- 3 is released and tracked again, 4 is left open.
abbrev calls : List HandleCall
calls = tracks 3 ∷ tracks 4 ∷ releases 3 ∷ releases 3 ∷ tracks 4 ∷ tracks 3 ∷ []

open_test : (closed_by calls []).0 ≡ 4 ∷ 3 ∷ []
unfolding closed_by call track release remove
open_test = refl

closed_once_example :
    (times 3 ((closed_by calls []).1 ++ (drain (closed_by calls []).0).1) ≡ 2)
    × ((drain (closed_by calls []).0).0 ≡ [])
unfolding track release remove
closed_once_example = closed_once 3 calls
