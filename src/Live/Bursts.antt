-- ===== src/Live/Bursts.antt =====
-- One tool call of the streamer as the client reads it: it goes out in one burst.
use grokcli_2api.Base.{
  ℕ, ◌+◌, ◌≡◌, refl, String, Bool, true, false, Option, none, some, List, [], ◌∷◌, is_text, arith,
  eq_refl, if◌then◌else◌, get_or,
}
use grokcli_2api.Live.Frames.{
  Sent, Slot, CallDelta, new_slot, numbered, call_added, args_delta, args_done, call_done,
}
use grokcli_2api.Live.Streamer.{
  Tooling, Streamer, ◌then◌, get_slot, put_slot, merged_slot, merge_deltas, ship_call,
}
use grokcli_2api.Live.Client.{reading, rest, accept_all}
use grokcli_2api.Live.Texts.{is_whole, AllWhole, open_item, place_of}

pub AllWhole-put_slot :
    (t : Slot) (ts : List Slot) → is_whole t ≡ true → AllWhole ts → AllWhole (put_slot t ts)
unfolding put_slot
AllWhole-put_slot t [] h hs = (h, tt)
AllWhole-put_slot t (u ∷ us) h (k, hs) = ground (arith, AllWhole-put_slot t us h hs)

get_slot_whole :
    (i : ℕ) (ts : List Slot) (t : Slot) → AllWhole ts → get_slot i ts ≡ some t → is_whole t ≡ true
unfolding get_slot
get_slot_whole i [] t hs e = cc
get_slot_whole i (u ∷ us) t (k, hs) e = ground (arith, get_slot_whole i us t hs)

get_or_whole :
    (o : Option Slot) (d : Slot)
    → ((t : Slot) → o ≡ some t → is_whole t ≡ true)
    → is_whole d ≡ true
    → is_whole (get_or o d) ≡ true
get_or_whole none d h k = k
get_or_whole (some t) d h k = h t refl

pub AllWhole-merge_deltas :
    (k : Tooling) (ds : List CallDelta) (ts : List Slot)
    → AllWhole ts
    → AllWhole (merge_deltas k ds ts)
unfolding merge_deltas merged_slot
AllWhole-merge_deltas k [] ts h = h
AllWhole-merge_deltas k (d ∷ ds) ts h =
    let first = new_slot d.index d.drawn_id d.drawn_call_id in
    let t = get_or (get_slot d.index ts) first in
    AllWhole-merge_deltas k ds (put_slot (merged_slot k d t) ts) (
      AllWhole-put_slot (merged_slot k d t) ts
        (get_or_whole (get_slot d.index ts) first (λ u. get_slot_whole d.index ts u h) refl) h)

-- Two streamers that differ in the number, the item's index and the slots only.
pub record SameRest (s t : Streamer) : Type 0 where
  pub started_stays : t.started ≡ s.started
  pub closed_stays : t.closed ≡ s.closed
  pub open_stays : t.text_open ≡ s.text_open
  pub id_stays : t.msg_id ≡ s.msg_id
  pub at_stays : t.text_output_index ≡ s.text_output_index
  pub texts_stay : t.text_parts ≡ s.text_parts
  pub slots_stay : t.slots ≡ s.slots

-- What shipping a call leaves.
pub record Ships (s : Streamer) (w : Slot) (t : Streamer) (es : List Sent) : Type 0 where
  pub accepted : accept_all (place_of s) es ≡ place_of t
  pub same_rest : SameRest s t
  pub through : w.is_done ≡ true

burst :
    (n m : ℕ) (x : Option ℕ) (id call_id name args : String)
    → accept_all (reading n m x rest) (
        numbered n (call_added m id call_id name)
        ∷ numbered (n + 1) (args_delta m id args)
        ∷ numbered (n + 1 + 1) (args_done m id args)
        ∷ numbered (n + 1 + 1 + 1) (call_done m id call_id name args)
        ∷ [])
      ≡ reading (n + 1 + 1 + 1 + 1) (m + 1) x rest
unfolding accept_all
burst n m x id call_id name args = ground (arith, eq_refl args)

-- A call that has sent nothing goes out whole.
abbrev fresh_call : Slot → Streamer → Slot
fresh_call t s = record t {
  call_id = if is_text t.call_id then t.call_id else t.drawn_call_id;
  output_index = some s.output_index;
  opened = true;
}

ship_call_lem :
    (t : Slot) (s : Streamer)
    → t.opened ≡ false
    → t.args_emitted ≡ false
    → ship_call t s ≡ (
        let u = fresh_call t s in
        (
          record u { args_emitted = true; is_done = true },
          record s { seq = s.seq + 1 + 1 + 1 + 1; output_index = s.output_index + 1 },
          numbered s.seq (call_added s.output_index u.id u.call_id u.name)
              ∷ numbered (s.seq + 1) (args_delta s.output_index u.id u.arguments)
              ∷ numbered (s.seq + 1 + 1) (args_done s.output_index u.id u.arguments)
              ∷ numbered
                  (s.seq + 1 + 1 + 1)
                  (call_done s.output_index u.id u.call_id u.name u.arguments)
              ∷ [],
        ))
unfolding ship_call
ship_call_lem t s o a = ground arith

Ships-ship_call :
    (t : Slot) (s : Streamer)
    → t.opened ≡ false
    → t.args_emitted ≡ false
    → Ships s (ship_call t s).0 (ship_call t s).1 (ship_call t s).2
Ships-ship_call t s o a =
    let u = fresh_call t s in
    rw (ship_call_lem t s o a) (record {
      accepted = burst s.seq s.output_index (open_item s) u.id u.call_id u.name u.arguments;
      same_rest = record {
        started_stays = refl;
        closed_stays = refl;
        open_stays = refl;
        id_stays = refl;
        at_stays = refl;
        texts_stay = refl;
        slots_stay = refl;
      };
      through = refl;
    })

-- What the loop over the slots leaves.
abbrev pub Emits : Streamer → List Slot × Streamer × List Sent → Type 0
Emits s (ts, t, es) = (accept_all (place_of s) es ≡ place_of t) × SameRest s t × AllWhole ts

SameRest-refl : (s : Streamer) → SameRest s s
SameRest-refl s = record {
  started_stays = refl;
  closed_stays = refl;
  open_stays = refl;
  id_stays = refl;
  at_stays = refl;
  texts_stay = refl;
  slots_stay = refl;
}

pub Emits-nothing : (s : Streamer) (ts : List Slot) → AllWhole ts → Emits s (ts, s, [])
unfolding accept_all
Emits-nothing s ts h = (refl, SameRest-refl s, h)

pub Emits-cons :
    (s : Streamer) (t : Slot) (r : List Slot × Streamer × List Sent)
    → is_whole t ≡ true
    → Emits s r
    → Emits s (t ∷ r.0, r.1, r.2)
Emits-cons s t r h (e, same, hs) = (e, same, (h, hs))

pub Emits-if :
    (b : Bool) (s : Streamer) (x y : List Slot × Streamer × List Sent)
    → (b ≡ true → Emits s x)
    → (b ≡ false → Emits s y)
    → Emits s (if b then x else y)
Emits-if true s x y h k = h refl
Emits-if false s x y h k = k refl

pub unsent_of :
    (t : Slot)
    → is_whole t ≡ true
    → t.is_done ≡ false
    → (t.opened ≡ false) × (t.args_emitted ≡ false)
unsent_of t h e = ground arith

done_whole : (t : Slot) → t.is_done ≡ true → is_whole t ≡ true
done_whole t e = ground arith

pub Emits-ship :
    (t : Slot) (ts : List Slot) (s : Streamer)
    → t.opened ≡ false
    → t.args_emitted ≡ false
    → AllWhole ts
    → Emits s ((ship_call t s).0 ∷ ts, (ship_call t s).1, (ship_call t s).2)
Emits-ship t ts s o a h =
    let ships = Ships-ship_call t s o a in
    (ships.accepted, ships.same_rest, (done_whole (ship_call t s).0 ships.through, h))
