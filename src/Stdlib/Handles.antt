-- ===== src/Stdlib/Handles.antt =====
-- packages/sandbox-stdlib/src/internal/run-scoped-handles.ts: the handles that a plugin has open in a
-- run. A handle is named by a number; an operation gives the handles that it closes. `release` and
-- `drain` take a handle out of the set before they wait for its closing, whose errors are swallowed,
-- so each is one step.
pub mod Closing
mod Tests
use workflow_engine.Prelude.{
  ℕ, Bool, true, false, not, List, [], ◌∷◌, any, keep, snoc, ◌==◌, nat_eq, if◌then◌else◌,
}

-- `open.has(handle)`.
abbrev pub is_open : ℕ → List ℕ → Bool
is_open h open_handles = any (λ x. x == h) open_handles

pub track : ℕ → List ℕ → List ℕ × List ℕ
track h open_handles = (if is_open h open_handles then open_handles else snoc open_handles h, [])

-- `open.delete(handle)`.
pub remove : ℕ → List ℕ → List ℕ
remove h [] = []
remove h (x ∷ xs) = if x == h then xs else x ∷ remove h xs

pub release : ℕ → List ℕ → List ℕ × List ℕ
release h open_handles =
    if is_open h open_handles then (remove h open_handles, h ∷ []) else (open_handles, [])

pub drain : List ℕ → List ℕ × List ℕ
drain open_handles = ([], open_handles)
