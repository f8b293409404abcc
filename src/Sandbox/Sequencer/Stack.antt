-- ===== src/Sandbox/Sequencer/Stack.antt =====
-- run-sequencer.ts: the reference stack beside the call map. Popping, splicing and deleting.
use workflow_engine.Prelude.{
  ℕ, suc, ◌≤◌, ◌≡◌, refl, ap, true, false, some, List, [], ◌∷◌, ◌++◌, map, arith, ◌==◌, nat_eq,
  last?, snoc, inl, inr, ◌∙◌, Bool-cases, Option-cases, eq_cases,
}
use workflow_engine.Prelude.Maps.{get, set, delete, Fresh, set-Fresh}
use workflow_engine.Sandbox.Sequencer.{
  CallMapEntry, pop, contains, splice_last, drop_frame, entries_of,
}

-- The sequence numbers of the open frames, the outermost first.
abbrev pub open_seqs : List (ℕ × CallMapEntry) → List ℕ
open_seqs m = map (λ e. e.open_seq) (entries_of m)

-- `xs` rises strictly, from `lo` on and below `hi`.
abbrev pub Rising : ℕ → ℕ → List ℕ → Type 0
Rising lo hi [] = lo ≤ hi
Rising lo hi (x ∷ xs) = (lo ≤ x) × Rising (suc x) hi xs

pub Rising-snoc : (lo hi : ℕ) (xs : List ℕ) → Rising lo hi xs → Rising lo (suc hi) (snoc xs hi)
Rising-snoc lo hi [] h = (h, omega arith)
Rising-snoc lo hi (x ∷ xs) (p, h) = (p, Rising-snoc (suc x) hi xs h)

pub Rising-wider : (lo hi k : ℕ) (xs : List ℕ) → hi ≤ k → Rising lo hi xs → Rising lo k xs
Rising-wider lo hi k [] w h = omega arith
Rising-wider lo hi k (x ∷ xs) w (p, h) = (p, Rising-wider (suc x) hi k xs w h)

Rising-lower : (lo k hi : ℕ) (xs : List ℕ) → lo ≤ k → Rising k hi xs → Rising lo hi xs
Rising-lower lo k hi [] w h = omega arith
Rising-lower lo k hi (x ∷ xs) w (p, h) = (omega arith, h)

pub open_seqs-set :
    (id : ℕ) (e : CallMapEntry) (m : List (ℕ × CallMapEntry))
    → Fresh id m
    → open_seqs (set id e m) ≡ snoc (open_seqs m) e.open_seq
open_seqs-set id e m h = rw (set-Fresh id e m h) (go m)
  where
    go :
        (m : List (ℕ × CallMapEntry))
        → open_seqs (m ++ (id, e) ∷ []) ≡ snoc (open_seqs m) e.open_seq
    go [] = refl
    go (x ∷ m) = ap (◌∷◌ x.1.open_seq) (go m)

contains-above : (n lo hi : ℕ) (xs : List ℕ) → suc n ≤ lo → Rising lo hi xs → contains n xs ≡ false
unfolding contains
contains-above n lo hi [] w h = refl
contains-above n lo hi (x ∷ xs) w (p, h) =
    ground (arith, contains-above n (suc x) hi xs (omega arith) h)

contains-get :
    (id : ℕ) (e : CallMapEntry) (m : List (ℕ × CallMapEntry))
    → get id m ≡ some e
    → contains e.open_seq (open_seqs m) ≡ true
unfolding contains
contains-get id e [] h = cc
contains-get id e ((j, v) ∷ m) h = elim (Bool-cases (j == id)) [
  | inl t ↦ ground (arith, t)
  | inr f ↦ ground (arith, f, contains-get id e m)
]

contains-last : (n : ℕ) (xs : List ℕ) → last? xs ≡ some n → contains n xs ≡ true
unfolding contains
contains-last n [] h = cc
contains-last n (x ∷ []) h = ground arith
contains-last n (x ∷ y ∷ ys) h = ground (arith, contains-last n (y ∷ ys))

pop-splice_last : (n : ℕ) (xs : List ℕ) → last? xs ≡ some n → pop xs ≡ splice_last n xs
unfolding pop splice_last contains
pop-splice_last n [] h = cc
pop-splice_last n (x ∷ []) h = ground arith
pop-splice_last n (x ∷ y ∷ ys) h =
    rw (contains-last n (y ∷ ys) h) (ap (◌∷◌ x) (pop-splice_last n (y ∷ ys) h))

-- The fast path and the slow path of a close give the same stack.
pub drop_frame_lem : (n : ℕ) (xs : List ℕ) → drop_frame n xs ≡ splice_last n xs
unfolding drop_frame
drop_frame_lem n xs = elim (Option-cases (last? xs)) [
  | inl e ↦ rw (e, drop_frame) refl
  | inr (top, e) ↦ elim (eq_cases top n) [
    | inl (t, q) ↦ rw (e, drop_frame) (rw t (pop-splice_last n xs (cc)))
    | inr (f, q) ↦ rw (e, drop_frame) (rw f refl)
  ]
]

splice_last-delete :
    (id : ℕ) (e : CallMapEntry) (lo hi : ℕ) (m : List (ℕ × CallMapEntry))
    → Rising lo hi (open_seqs m)
    → get id m ≡ some e
    → splice_last e.open_seq (open_seqs m) ≡ open_seqs (delete id m)
unfolding splice_last
splice_last-delete id e lo hi [] r h = cc
splice_last-delete id e lo hi ((j, v) ∷ m) (p, r) h = elim (Bool-cases (j == id)) [
  | inl t ↦ ground (arith, t, contains-above v.open_seq (suc v.open_seq) hi (open_seqs m))
  | inr f ↦ ground (arith, f, contains-get id e m, splice_last-delete id e (suc v.open_seq) hi m)
]

-- Closing a frame, the innermost or not, takes it off the stack and the map alike.
pub drop_frame-delete :
    (id : ℕ) (e : CallMapEntry) (lo hi : ℕ) (m : List (ℕ × CallMapEntry))
    → Rising lo hi (open_seqs m)
    → get id m ≡ some e
    → drop_frame e.open_seq (open_seqs m) ≡ open_seqs (delete id m)
drop_frame-delete id e lo hi m r h =
    drop_frame_lem e.open_seq (open_seqs m) ∙ splice_last-delete id e lo hi m r h

pub Rising-delete :
    (id lo hi : ℕ) (m : List (ℕ × CallMapEntry))
    → Rising lo hi (open_seqs m)
    → Rising lo hi (open_seqs (delete id m))
Rising-delete id lo hi [] r = r
Rising-delete id lo hi ((j, v) ∷ m) (p, r) = elim (Bool-cases (j == id)) [
  | inl t ↦ rw t (Rising-lower lo (suc v.open_seq) hi (open_seqs m) (omega arith) r)
  | inr f ↦ rw f (p, Rising-delete id (suc v.open_seq) hi m r)
]
