-- ===== src/Live/Rounds.antt =====
-- The loop `while True: more = self._emit_ready_tools()` ends: each round that sends something is the
-- last of one call.
use grokcli_2api.Base.{
  ℕ, ◌<◌, ◌≤◌, suc, zero, ◌≡◌, refl, ◌⊎◌, inl, inr, Bool, true, false, not, ◌||◌, List, [], ◌∷◌,
  ◌++◌, is_text, arith, if◌then◌else◌, length,
}
use grokcli_2api.Live.Frames.{Sent, Slot}
use grokcli_2api.Live.Streamer.{
  Tooling, Streamer, emit_ready, emit_ready_tools, ready_rounds, emit_all_ready, ship_call,
  remapped, any_slot, is_pending, is_args_ready,
}

-- How many calls are not through.
undone : List Slot → ℕ
undone [] = 0
undone (t ∷ ts) = if t.is_done then undone ts else suc (undone ts)

undone-le-length : (ts : List Slot) → undone ts ≤ length ts
unfolding undone
undone-le-length [] = omega arith
undone-le-length (t ∷ ts) = ground (arith, undone-le-length ts)

-- A round sends nothing, or leaves fewer calls.
abbrev Shrinks : List Slot → List Slot × Streamer × List Sent → Type 0
Shrinks ts (us, s, es) = (es ≡ []) ⊎ (undone us < undone ts)

Shrinks-if :
    (b : Bool) (ts : List Slot) (x y : List Slot × Streamer × List Sent)
    → (b ≡ true → Shrinks ts x)
    → (b ≡ false → Shrinks ts y)
    → Shrinks ts (if b then x else y)
Shrinks-if true ts x y h k = h refl
Shrinks-if false ts x y h k = k refl

Shrinks-cons :
    (t : Slot) (ts : List Slot) (r : List Slot × Streamer × List Sent)
    → Shrinks ts r
    → Shrinks (t ∷ ts) (t ∷ r.0, r.1, r.2)
unfolding undone
Shrinks-cons t ts r (inl e) = inl e
Shrinks-cons t ts r (inr h) = inr (ground arith)

Shrinks-ship :
    (t u : Slot) (ts : List Slot) (s : Streamer)
    → t.is_done ≡ false
    → Shrinks (t ∷ ts) ((ship_call u s).0 ∷ ts, (ship_call u s).1, (ship_call u s).2)
unfolding undone ship_call
Shrinks-ship t u ts s e = inr (ground arith)

Shrinks-emit_ready :
    (k : Tooling) (lower ts : List Slot) (s : Streamer) → Shrinks ts (emit_ready k lower ts s)
unfolding emit_ready
Shrinks-emit_ready k lower [] s = inl refl
Shrinks-emit_ready k lower (t ∷ ts) s =
    let more = emit_ready k (lower ++ (t ∷ [])) ts s in
    let later = Shrinks-cons t ts more (Shrinks-emit_ready k (lower ++ (t ∷ [])) ts s) in
    let u = remapped k t in
    let shipped : List Slot × Streamer × List Sent =
      ((ship_call u s).0 ∷ ts, (ship_call u s).1, (ship_call u s).2) in
    let passed : List Slot × Streamer × List Sent = (t ∷ more.0, more.1, more.2) in
    let kept : List Slot × Streamer × List Sent = (t ∷ ts, s, []) in
    let waiting : List Slot × Streamer × List Sent = (u ∷ ts, s, []) in
    let ready = if not (is_args_ready k u.name u.arguments) then waiting else shipped in
    let known = is_text t.call_id || is_text (k.strip t.arguments) in
    let nameless = if known then kept else passed in
    let named = if not (is_text (k.strip t.name)) then nameless else ready in
    let free = if any_slot (is_pending k) lower then kept else named in
    Shrinks-if t.is_done (t ∷ ts) passed free (λ x. later)
      (λ e.
        Shrinks-if (any_slot (is_pending k) lower) (t ∷ ts) kept named (λ x. inl refl)
          (λ x.
            Shrinks-if (not (is_text (k.strip t.name))) (t ∷ ts) nameless ready
              (λ y. Shrinks-if known (t ∷ ts) kept passed (λ z. inl refl) (λ z. later))
              (λ y.
                Shrinks-if (not (is_args_ready k u.name u.arguments)) (t ∷ ts) waiting shipped
                  (λ z. inl refl) (λ z. Shrinks-ship t u ts s e))))

-- Two numbers of rounds, each above the number of calls that are left, give the same.
ready_rounds_agree :
    (k : Tooling) (n m : ℕ) (s : Streamer)
    → undone s.slots < n
    → undone s.slots < m
    → ready_rounds k n s ≡ ready_rounds k m s
unfolding ready_rounds emit_ready_tools
ready_rounds_agree k zero m s h g = elim h [ ]
ready_rounds_agree k (suc n) zero s h g = elim g [ ]
ready_rounds_agree k (suc n) (suc m) s h g =
    let out = emit_ready k [] s.slots s in
    let t = record out.1 { slots = out.0 } in
    elim (Shrinks-emit_ready k [] s.slots s) [
      | inl e ↦ rw e refl
      | inr less ↦ rw (ready_rounds_agree k n m t (omega arith) (omega arith)) refl
    ]

-- More rounds than one for each slot and one more change nothing: the loop has ended by its own test.
pub ready_rounds_end :
    (k : Tooling) (n : ℕ) (s : Streamer)
    → length s.slots < n
    → ready_rounds k n s ≡ emit_all_ready k s
unfolding emit_all_ready
ready_rounds_end k n s h =
    ready_rounds_agree k n (suc (length s.slots)) s (omega (arith, undone-le-length s.slots))
      (omega (arith, undone-le-length s.slots))
