-- ===== src/Sandbox/Sequencer/Balance.antt =====
-- run-sequencer.ts: the frames that a run window opens and closes, counted, and the closes that
-- `finish` makes up.
use mathlib.Core.List.{reverse, reverse-cons, map-append}
use workflow_engine.Core.{SandboxEvent}
use workflow_engine.Prelude.{
  ℕ, ◌+◌, ◌≡◌, refl, ap, sym, String, false, Option, none, some, List, [], ◌∷◌, ◌++◌, map, arith,
  ◌==◌, nat_eq, if◌then◌else◌, inl, inr, Option-cases, Bool-cases, ◌∙◌, ltb, length,
}
use workflow_engine.Prelude.Maps.{get, delete}
use workflow_engine.Sandbox.Sequencer.{
  Sequencer, WireEvent, WireFraming, leaf, open_frame, close_frame, CallMapEntry, start, frame,
  next, handle_close, finish, synthesise, synth_event, build_sandbox_event, seen, entries_of,
  drop_frame,
}
use workflow_engine.Sandbox.Sequencer.Stack.{open_seqs, drop_frame-delete}
use workflow_engine.Sandbox.Sequencer.Session.{run, next_open, next_shut, start-zeroed}
use workflow_engine.Sandbox.Sequencer.Frames.{
  Inv, FreshOpen, FreshOpens, next-Inv, run-Inv, seen-Inv,
}

pub count : ℕ → List ℕ → ℕ
count n [] = 0
count n (x ∷ xs) = (if x == n then 1 else 0) + count n xs

count-append : (n : ℕ) (xs ys : List ℕ) → count n (xs ++ ys) ≡ count n xs + count n ys
unfolding count
count-append n [] ys = omega arith
count-append n (x ∷ xs) ys = omega (arith, count-append n xs ys)

count-reverse : (n : ℕ) (xs : List ℕ) → count n (reverse xs) ≡ count n xs
unfolding count
count-reverse n [] = refl
count-reverse n (x ∷ xs) =
    rw (reverse-cons x xs) (omega (arith, count-append n (reverse xs) (x ∷ []), count-reverse n xs))

-- Deleting an open frame takes its number out once.
count-delete :
    (n id : ℕ) (e : CallMapEntry) (m : List (ℕ × CallMapEntry))
    → get id m ≡ some e
    → count n (open_seqs m) ≡ count n (e.open_seq ∷ open_seqs (delete id m))
unfolding count
count-delete n id e [] h = cc
count-delete n id e ((j, v) ∷ m) h = elim (Bool-cases (j == id)) [
  | inl t ↦ rw t (let q : v ≡ e = ground (arith, t) in rw q refl)
  | inr f ↦ rw f (omega (arith, count-delete n id e m (rw f at h)))
]

abbrev pub refs_of : {V : Type 0} → List (SandboxEvent V) → List ℕ
refs_of [] = []
refs_of (e ∷ es) = elim e.ref [ none ↦ refs_of es | some n ↦ n ∷ refs_of es ]

module _ {V : Type 0} where
  -- The numbers of the frames that one wire event opens, and of those that it closes.
  abbrev opened_by : WireFraming → Option (SandboxEvent V) → List ℕ
  opened_by (open_frame id) (some e) = e.seq ∷ []
  opened_by _ _ = []

  abbrev closed_by : WireFraming → Option (SandboxEvent V) → List ℕ
  closed_by (close_frame id) (some e) = refs_of (e ∷ [])
  closed_by _ _ = []

  -- The numbers under which frames were opened, and the frames that closes referred to.
  pub opened : Sequencer → List (WireEvent V) → List ℕ
  opened s [] = []
  opened s (w ∷ ws) = opened_by w.framing (next s w).1 ++ opened (next s w).0 ws

  pub closed : Sequencer → List (WireEvent V) → List ℕ
  closed s [] = []
  closed s (w ∷ ws) = closed_by w.framing (next s w).1 ++ closed (next s w).0 ws

  frame_balance :
      (n : ℕ) (s : Sequencer) (w : WireEvent V) (f : WireFraming)
      → FreshOpen s.call_map f
      → Inv s
      → count n (opened_by f (frame s w f).1) + count n s.ref_stack
        ≡ count n (closed_by f (frame s w f).1) + count n (frame s w f).0.ref_stack
  unfolding frame handle_close count build_sandbox_event
  frame_balance n s w leaf h v = refl
  frame_balance n s w (open_frame id) h v = omega (arith, count-append n s.ref_stack (s.seq ∷ []))
  frame_balance n s w (close_frame id) h v = elim (Option-cases (get id s.call_map)) [
    | inl e ↦ rw (e, frame, handle_close) refl
    | inr (c, e) ↦
        rw (e, frame, handle_close)
          (let q : count n s.ref_stack ≡ count n (open_seqs s.call_map) = ap (count n) v.mirrors in
            let d : count n (drop_frame c.open_seq s.ref_stack)
                ≡ count n (open_seqs (delete id s.call_map)) =
              ap (λ l. count n (drop_frame c.open_seq l)) v.mirrors
              ∙ ap (count n) (drop_frame-delete id c 0 s.seq s.call_map v.rising e) in
            omega (arith, q, d, count-delete n id c s.call_map e))
  ]

  next_balance :
      (n : ℕ) (s : Sequencer) (w : WireEvent V)
      → FreshOpen s.call_map w.framing
      → Inv s
      → count n (opened_by w.framing (next s w).1) + count n s.ref_stack
        ≡ count n (closed_by w.framing (next s w).1) + count n (next s w).0.ref_stack
  next_balance n s w h v = elim (Bool-cases s.run_active) [
    | inl e ↦ rw (next_open s w e) (frame_balance n (seen s w) w w.framing h (seen-Inv s w v))
    | inr e ↦ rw (next_shut s w e) (dropped w.framing)
  ]
    where
      dropped :
          (f : WireFraming)
          → count n (opened_by f none) + count n s.ref_stack
            ≡ count n (closed_by f none) + count n s.ref_stack
      dropped leaf = refl
      dropped (open_frame id) = refl
      dropped (close_frame id) = refl

  run_balance :
      (n : ℕ) (s : Sequencer) (ws : List (WireEvent V))
      → FreshOpens s ws
      → Inv s
      → count n (opened s ws) + count n s.ref_stack
        ≡ count n (closed s ws) + count n (run s ws).0.ref_stack
  unfolding opened closed run count
  run_balance n s [] h v = refl
  run_balance n s (w ∷ ws) (f, h) v = omega (
    arith,
    count-append n (opened_by w.framing (next s w).1) (opened (next s w).0 ws),
    count-append n (closed_by w.framing (next s w).1) (closed (next s w).0 ws),
    next_balance n s w f v,
    run_balance n (next s w).0 ws h (next-Inv s w f v),
  )

module _ (V : Type 0) where
  synthesise-refs :
      (s : Sequencer) (reason : String) (n : ℕ) (es : List CallMapEntry)
      → refs_of (synthesise {V = V} s reason n es) ≡ map (λ e. e.open_seq) es
  unfolding synthesise synth_event
  synthesise-refs s reason n [] = refl
  synthesise-refs s reason n (e ∷ es) = ap (◌∷◌ e.open_seq) (synthesise-refs s reason (n + 1) es)

  map-reverse :
      (es : List CallMapEntry)
      → map (λ e. e.open_seq) (reverse es) ≡ reverse (map (λ e. e.open_seq) es)
  map-reverse [] = refl
  map-reverse (e ∷ es) = simp (reverse-cons, map-append, map-reverse es)

  empty_of : (m : List (ℕ × CallMapEntry)) → ltb 0 (length m) ≡ false → m ≡ []
  empty_of [] h = refl
  empty_of (x ∷ m) h = absurd (ground arith)

  finish-refs :
      (s : Sequencer) (reason : String)
      → Inv s
      → refs_of (finish {V = V} s (some reason)).1 ≡ reverse s.ref_stack
  unfolding finish
  finish-refs s reason v = elim (Bool-cases (ltb 0 (length s.call_map))) [
    | inl e ↦ rw e (
        synthesise-refs s reason s.seq (reverse (entries_of s.call_map))
        ∙ map-reverse (entries_of s.call_map)
        ∙ sym (ap reverse v.mirrors))
    | inr e ↦ rw e (sym (ap reverse (v.mirrors ∙ ap open_seqs (empty_of s.call_map e))))
  ]

count-start : (n : ℕ) (s : Sequencer) → count n (start s).0.ref_stack ≡ 0
unfolding count
count-start n s = rw (start-zeroed s) refl

start-Inv : (s : Sequencer) → Inv (start s).0
start-Inv s = rw (start-zeroed s) (record { mirrors = refl; rising = omega arith; distinct = tt })

module _ {V : Type 0} where
  -- When the worker dies, `finish` closes the frames that are still open, each by one event, from
  -- the innermost to the outermost. (No open reuses the call id of a frame that is still open.)
  pub finish_innermost_first :
      (s : Sequencer) (ws : List (WireEvent V)) (reason : String)
      → FreshOpens (start s).0 ws
      → let t = (run (start s).0 ws).0 in
        refs_of (finish {V = V} t (some reason)).1 ≡ reverse t.ref_stack
  finish_innermost_first s ws reason h =
      finish-refs V (run (start s).0 ws).0 reason (run-Inv (start s).0 ws h (start-Inv s))

  -- In a run window that ends by the worker's death, each frame is closed exactly as often as it is
  -- opened: by a close of the guest or by one that `finish` makes up. (No open reuses the call id of
  -- a frame that is still open.)
  pub frames_balanced :
      (s : Sequencer) (ws : List (WireEvent V)) (reason : String) (n : ℕ)
      → FreshOpens (start s).0 ws
      → count n (opened (start s).0 ws)
        ≡ count n (
            closed (start s).0 ws
            ++ refs_of (finish {V = V} (run (start s).0 ws).0 (some reason)).1)
  frames_balanced s ws reason n h =
      let t = (run (start s).0 ws).0 in
      let none_open : count n (start s).0.ref_stack ≡ 0 = count-start n s in
      omega (
        arith,
        none_open,
        run_balance n (start s).0 ws h (start-Inv s),
        ap (count n) (finish_innermost_first s ws reason h),
        count-reverse n t.ref_stack,
        count-append n (closed (start s).0 ws) (refs_of (finish {V = V} t (some reason)).1),
      )
