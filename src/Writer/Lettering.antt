-- ===== src/Writer/Lettering.antt =====
-- The commands that the writer sends to Redis leave each message in its stream or in the dead letters.
use grokcli_2api.Base.{
  ℕ, zero, suc, ◌≡◌, refl, ap, ◌∙◌, String, Bool, true, false, not, ◌&&◌, ◌||◌, List, [], ◌∷◌, ◌++◌,
  All, take, ltb, if◌then◌else◌, Bool-cases, inl, inr, eq_iff, arith,
}
use grokcli_2api.Writer.Process.{
  Message, World, same_message, has_message, acknowledge, Command, move_to_dlq, xack, xdel,
  run_command, run_all, ids_of, ack_each, Outcome, dead_letter, dead_letter_each,
  dead_letter_exhausted,
}

-- A message that has the stream and the id of another has its event.
abbrev pub Agrees : Message → List Message → Type 0
Agrees m batch = All (λ b. same_message m b ≡ true → b.event.event_id ≡ m.event.event_id) batch

same-has :
    (m x : Message) (batch : List Message)
    → same_message m x ≡ true
    → has_message x batch ≡ has_message m batch
unfolding has_message same_message
same-has m x [] h = refl
same-has m x (b ∷ batch) h = ground (
  arith,
  same-has m x batch h,
  eq_iff m.stream x.stream,
  eq_iff m.id x.id,
  eq_iff x.stream b.stream,
  eq_iff x.id b.id,
  eq_iff m.stream b.stream,
  eq_iff m.id b.id,
)

has-acknowledge :
    (m : Message) (batch ms : List Message)
    → has_message m (acknowledge batch ms) ≡ (has_message m ms && not (has_message m batch))
unfolding acknowledge has_message
has-acknowledge m batch [] = refl
has-acknowledge m batch (x ∷ ms) = ground (arith, has-acknowledge m batch ms, same-has m x batch)

has-append :
    (m : Message) (xs ys : List Message)
    → has_message m (xs ++ ys) ≡ (has_message m xs || has_message m ys)
unfolding has_message
has-append m [] ys = refl
has-append m (x ∷ xs) ys = ground (arith, has-append m xs ys)

-- The message is in its stream and not acknowledged, or is in the dead letters.
abbrev pub is_safe : Message → World → Bool
is_safe m w = has_message m w.entries && has_message m w.unacked || has_message m w.dead

-- The command does not acknowledge or delete the message.
unfoldable pub spares : Message → Command → Bool
spares m (move_to_dlq b) = true
spares m (xack ms) = not (has_message m ms)
spares m (xdel ms) = not (has_message m ms)

safe-run_command :
    (m : Message) (c : Command) (w : World)
    → spares m c ≡ true
    → is_safe m w ≡ true
    → is_safe m (run_command c w) ≡ true
unfolding spares run_command
safe-run_command m (move_to_dlq b) w h s = rw (has-append m w.dead (b ∷ [])) (ground arith)
safe-run_command m (xack ms) w h s = rw (has-acknowledge m ms w.unacked) (ground arith)
safe-run_command m (xdel ms) w h s = rw (has-acknowledge m ms w.entries) (ground arith)

pub safe-run_all :
    (m : Message) (n : ℕ) (cs : List Command) (w : World)
    → All (λ c. spares m c ≡ true) cs
    → is_safe m w ≡ true
    → is_safe m (run_all (take n cs) w) ≡ true
unfolding run_all take
safe-run_all m zero cs w h s = s
safe-run_all m (suc n) [] w h s = s
safe-run_all m (suc n) (c ∷ cs) w (h, hs) s =
    safe-run_all m n cs (run_command c w) hs (safe-run_command m c w h s)

has-ids_of :
    (m : Message) (s : String) (batch : List Message)
    → has_message m batch ≡ false
    → has_message m (ids_of s batch) ≡ false
unfolding has_message ids_of
has-ids_of m s [] h = refl
has-ids_of m s (b ∷ batch) h = ground (arith, has-ids_of m s batch)

pub spares-ack_each :
    (m : Message) (ss : List String) (batch : List Message)
    → has_message m batch ≡ false
    → All (λ c. spares m c ≡ true) (ack_each ss batch)
unfolding ack_each spares
spares-ack_each m [] batch h = tt
spares-ack_each m (s ∷ ss) batch h = (
  ap not (has-ids_of m s batch h),
  (ap not (has-ids_of m s batch h), spares-ack_each m ss batch h),
)

dead-run_all :
    (m : Message) (n : ℕ) (cs : List Command) (w : World)
    → has_message m w.dead ≡ true
    → has_message m (run_all (take n cs) w).dead ≡ true
unfolding run_all take
dead-run_all m zero cs w h = h
dead-run_all m (suc n) [] w h = h
dead-run_all m (suc n) (c ∷ cs) w h = dead-run_all m n cs (run_command c w) (dead-run_command c)
  where
    dead-run_command : (d : Command) → has_message m (run_command d w).dead ≡ true
    dead-run_command (move_to_dlq b) =
        unfold run_command in rw (has-append m w.dead (b ∷ [])) (ground arith)
    dead-run_command (xack ms) = unfold run_command in h
    dead-run_command (xdel ms) = unfold run_command in h

dead-is_safe : (m : Message) (w : World) → has_message m w.dead ≡ true → is_safe m w ≡ true
dead-is_safe m w h = ground arith

-- A message that is dead-lettered, however far that gets, is in the dead letters or still in its stream.
safe-commands :
    (m b : Message) (n : ℕ) (w : World)
    → is_safe m w ≡ true
    → is_safe m (run_all (take n (move_to_dlq b ∷ xack (b ∷ []) ∷ xdel (b ∷ []) ∷ [])) w) ≡ true
unfolding run_all take
safe-commands m b zero w s = s
safe-commands m b (suc n) w s = elim (Bool-cases (same_message m b)) [
  | inl same ↦
      dead-is_safe m (run_all (take n commands) lettered)
        (dead-run_all m n commands lettered (dead same))
  | inr other ↦
      safe-run_all m n commands lettered (spared other, (spared_entry other, tt))
        (safe-run_command m (move_to_dlq b) w moved s)
]
  where
    commands : List Command
    commands = xack (b ∷ []) ∷ xdel (b ∷ []) ∷ []

    lettered : World
    lettered = run_command (move_to_dlq b) w

    moved : spares m (move_to_dlq b) ≡ true
    moved = unfold spares in refl

    dead : same_message m b ≡ true → has_message m lettered.dead ≡ true
    dead same =
        unfold run_command in
        rw (has-append m w.dead (b ∷ [])) (unfold has_message in ground (arith, same))

    spared : same_message m b ≡ false → spares m (xack (b ∷ [])) ≡ true
    spared other = unfold spares has_message in ground (arith, other)

    spared_entry : same_message m b ≡ false → spares m (xdel (b ∷ [])) ≡ true
    spared_entry other = unfold spares has_message in ground (arith, other)

safe-dead_letter_each :
    (m : Message) (retries : ℕ) (o : Outcome) (batch : List Message) (w : World)
    → is_safe m w ≡ true
    → is_safe m (dead_letter_each retries o batch w) ≡ true
unfolding dead_letter_each
safe-dead_letter_each m retries o [] w s = s
safe-dead_letter_each m retries o (b ∷ batch) w s =
    safe-dead_letter_each m retries o batch
      (if ltb (o.deliveries b) retries then w else dead_letter o b w)
      (safe-if (ltb (o.deliveries b) retries))
  where
    safe-if : (c : Bool) → is_safe m (if c then w else dead_letter o b w) ≡ true
    safe-if true = s
    safe-if false = unfold dead_letter in safe-commands m b (o.letters b) w s

pub safe-dead_letter_exhausted :
    (m : Message) (retries : ℕ) (o : Outcome) (batch : List Message) (w : World)
    → is_safe m w ≡ true
    → is_safe m (dead_letter_exhausted retries o batch w) ≡ true
unfolding dead_letter_exhausted
safe-dead_letter_exhausted m retries o batch w s = elim (Bool-cases o.has_client) [
  | inl client ↦ rw client (safe-dead_letter_each m retries o batch w s)
  | inr none_there ↦ rw none_there s
]

pub tables-run_all : (cs : List Command) (w : World) → (run_all cs w).tables ≡ w.tables
unfolding run_all run_command
tables-run_all [] w = refl
tables-run_all (move_to_dlq b ∷ cs) w = tables-run_all cs (run_command (move_to_dlq b) w)
tables-run_all (xack ms ∷ cs) w = tables-run_all cs (run_command (xack ms) w)
tables-run_all (xdel ms ∷ cs) w = tables-run_all cs (run_command (xdel ms) w)

tables-dead_letter_each :
    (retries : ℕ) (o : Outcome) (batch : List Message) (w : World)
    → (dead_letter_each retries o batch w).tables ≡ w.tables
unfolding dead_letter_each
tables-dead_letter_each retries o [] w = refl
tables-dead_letter_each retries o (b ∷ batch) w =
    tables-dead_letter_each retries o batch
      (if ltb (o.deliveries b) retries then w else dead_letter o b w)
    ∙ tables-if (ltb (o.deliveries b) retries)
  where
    tables-if : (c : Bool) → (if c then w else dead_letter o b w).tables ≡ w.tables
    tables-if true = refl
    tables-if false =
        unfold dead_letter in
        tables-run_all (take (o.letters b) (move_to_dlq b ∷ xack (b ∷ []) ∷ xdel (b ∷ []) ∷ [])) w

pub tables-dead_letter_exhausted :
    (retries : ℕ) (o : Outcome) (batch : List Message) (w : World)
    → (dead_letter_exhausted retries o batch w).tables ≡ w.tables
unfolding dead_letter_exhausted
tables-dead_letter_exhausted retries o batch w = elim (Bool-cases o.has_client) [
  | inl client ↦ rw client (tables-dead_letter_each retries o batch w)
  | inr none_there ↦ rw none_there refl
]
