-- ===== src/Stdlib/Handles/Closing.antt =====
-- run-scoped-handles.ts: how often a handle is closed.
use workflow_engine.Prelude.{
  ℕ, suc, ◌+◌, ◌≡◌, refl, true, List, [], ◌∷◌, ◌++◌, snoc, ◌==◌, nat_eq, if◌then◌else◌, arith, inl,
  inr, Bool-cases,
}
use workflow_engine.Prelude.Counting.{times, times-append}
use workflow_engine.Stdlib.Handles.{is_open, track, remove, release, drain}

pub data HandleCall : Type 0 where
  tracks releases : ℕ → HandleCall
  drains : HandleCall

unfoldable pub call : HandleCall → List ℕ → List ℕ × List ℕ
call (tracks h) open_handles = track h open_handles
call (releases h) open_handles = release h open_handles
call drains open_handles = drain open_handles

unfoldable pub closed_by : List HandleCall → List ℕ → List ℕ × List ℕ
closed_by [] open_handles = (open_handles, [])
closed_by (c ∷ cs) open_handles =
    let (next, closed) = call c open_handles in
    let (last, more) = closed_by cs next in (last, closed ++ more)

-- How often a handle is taken in: how often it is tracked while it is not open.
abbrev pub taken : ℕ → List HandleCall → List ℕ → ℕ
taken h [] open_handles = 0
taken h (tracks x ∷ cs) open_handles =
    let rest = taken h cs (track x open_handles).0 in
    if x == h then (if is_open x open_handles then rest else suc rest) else rest
taken h (releases x ∷ cs) open_handles = taken h cs (release x open_handles).0
taken h (drains ∷ cs) open_handles = taken h cs (drain open_handles).0

times-remove :
    (h x : ℕ) (xs : List ℕ) → is_open x xs ≡ true → times h (x ∷ remove x xs) ≡ times h xs
unfolding remove
times-remove h x [] e = absurd (cc e)
times-remove h x (y ∷ ys) e = elim (Bool-cases (y == x)) [
  | inl t ↦ rw (t, remove) (ground arith)
  | inr f ↦ (let rest = times-remove h x ys (rw f at e) in rw (f, remove) (ground arith))
]

-- Over any calls, a handle is closed, or is still open, as often as it was taken in.
counted :
    (h : ℕ) (cs : List HandleCall) (open_handles : List ℕ)
    → times h (closed_by cs open_handles).1 + times h (closed_by cs open_handles).0
      ≡ taken h cs open_handles + times h open_handles
unfolding closed_by call track release drain
counted h [] open_handles = refl
counted h (tracks x ∷ cs) open_handles = elim (Bool-cases (is_open x open_handles)) [
  | inl e ↦ (let k = counted h cs open_handles in rw (e, track) (ground arith))
  | inr e ↦
      (let k = counted h cs (snoc open_handles x) in
        let split = times-append h open_handles (x ∷ []) in rw (e, track) (ground arith))
]
counted h (releases x ∷ cs) open_handles = elim (Bool-cases (is_open x open_handles)) [
  | inl e ↦
      (let k = counted h cs (remove x open_handles) in
        let gone = times-remove h x open_handles e in rw (e, release) (ground arith))
  | inr e ↦ (let k = counted h cs open_handles in rw (e, release) k)
]
counted h (drains ∷ cs) open_handles =
    let k = counted h cs [] in
    let split = times-append h open_handles (closed_by cs []).1 in ground arith

-- After whatever calls of a run, with the drain at its end, each handle has been closed as often as
-- it was taken in, and none is open.
pub closed_once :
    (h : ℕ) (cs : List HandleCall)
    → (times h ((closed_by cs []).1 ++ (drain (closed_by cs []).0).1) ≡ taken h cs [])
      × ((drain (closed_by cs []).0).0 ≡ [])
unfolding drain
closed_once h cs =
    let k = counted h cs [] in
    let split = times-append h (closed_by cs []).1 (closed_by cs []).0 in (omega arith, refl)
