-- ===== src/Collector/Slot.antt =====
-- Runs of the collection that overlap: beginGC is a compare-and-swap of gcBusy and then a store to
-- gcRunning, endGC two stores, and runs of other requests come in between.
use registry_ui_go.Base.{
  ℕ, ◌+◌, ◌≡◌, ◌≤◌, Bool, true, false, List, [], ◌∷◌, if◌then◌else◌, arith, count,
}
use registry_ui_go.Collector.{Gate}

-- Where one run stands: not begun or refused, between the two stores of beginGC, at work, between
-- the two stores of endGC.
pub data Phase : Type 0 where
  idle claimed collecting closing : Phase

abbrev pub holds : Phase → Bool
holds Phase.idle = false
holds _ = true

abbrev pub is_collecting : Phase → Bool
is_collecting Phase.collecting = true
is_collecting _ = false

-- `Turn before after g g'`: one run goes from one phase to the next, and the gate from g to g'.
pub data Turn : Phase → Phase → Gate → Gate → Type 0 where
  claim :
      {r : Bool}
      → Turn Phase.idle Phase.claimed
          (record { busy = false; running = r })
          (record { busy = true; running = r })
  refuse :
      {r : Bool}
      → Turn Phase.idle Phase.idle
          (record { busy = true; running = r })
          (record { busy = true; running = r })
  shut :
      {b r : Bool}
      → Turn Phase.claimed Phase.collecting
          (record { busy = b; running = r })
          (record { busy = b; running = true })
  reopen :
      {b r : Bool}
      → Turn Phase.collecting Phase.closing
          (record { busy = b; running = r })
          (record { busy = b; running = false })
  release :
      {b r : Bool}
      → Turn Phase.closing Phase.idle
          (record { busy = b; running = r })
          (record { busy = false; running = r })

-- Some run takes its turn.
pub data Moves : List Phase → List Phase → Gate → Gate → Type 0 where
  here :
      {p q : Phase} {ps : List Phase} {g g' : Gate} → Turn p q g g' → Moves (p ∷ ps) (q ∷ ps) g g'
  there :
      {p : Phase} {ps qs : List Phase} {g g' : Gate}
      → Moves ps qs g g'
      → Moves (p ∷ ps) (p ∷ qs) g g'

pub data Reaches : List Phase → List Phase → Gate → Gate → Type 0 where
  start : {ps : List Phase} {g : Gate} → Reaches ps ps g g
  onward :
      {ps qs rs : List Phase} {g h k : Gate}
      → Reaches ps qs g h
      → Moves qs rs h k
      → Reaches ps rs g k

abbrev one_if : Bool → ℕ
one_if b = if b then 1 else 0

abbrev pub holders : List Phase → ℕ
holders ps = count holds ps

abbrev pub collectors : List Phase → ℕ
collectors ps = count is_collecting ps

-- The flags say how many runs hold the slot, and how many are at work.
pub record Guarded (ps : List Phase) (g : Gate) : Type 0 where
  pub busy_counts : holders ps ≡ one_if g.busy
  pub running_counts : collectors ps ≡ one_if g.running

collectors_le : (ps : List Phase) → collectors ps ≤ holders ps
unfolding count
collectors_le [] = omega arith
collectors_le (p ∷ ps) = ground (arith, collectors_le ps, le_one p)
  where
    le_one : (p : Phase) → one_if (is_collecting p) ≤ one_if (holds p)
    le_one Phase.idle = omega arith
    le_one Phase.claimed = omega arith
    le_one Phase.collecting = omega arith
    le_one Phase.closing = omega arith

-- One turn, among `a` holders and `b` collectors elsewhere.
turn_lem :
    (p q : Phase) (g g' : Gate) (a b : ℕ)
    → b ≤ a
    → Turn p q g g'
    → one_if (holds p) + a ≡ one_if g.busy
    → one_if (is_collecting p) + b ≡ one_if g.running
    → (one_if (holds q) + a ≡ one_if g'.busy) × (one_if (is_collecting q) + b ≡ one_if g'.running)
turn_lem p q g g' a b le (claim {r = r}) h k = (ground arith, ground arith)
turn_lem p q g g' a b le (refuse {r = r}) h k = (h, k)
turn_lem p q g g' a b le (shut {b = busy} {r = r}) h k = (ground arith, ground arith)
turn_lem p q g g' a b le (reopen {b = busy} {r = r}) h k = (ground arith, ground arith)
turn_lem p q g g' a b le (release {b = busy} {r = r}) h k = (ground arith, ground arith)

moves_lem :
    (ps qs : List Phase) (g g' : Gate) (a b : ℕ)
    → b ≤ a
    → Moves ps qs g g'
    → holders ps + a ≡ one_if g.busy
    → collectors ps + b ≡ one_if g.running
    → (holders qs + a ≡ one_if g'.busy) × (collectors qs + b ≡ one_if g'.running)
unfolding count
moves_lem ps qs g g' a b le (here {p = p} {q = q} {ps = rest} turn) h k =
    let (x, y) =
      turn_lem p q g g' (holders rest + a) (collectors rest + b) (omega (arith, collectors_le rest))
        turn (omega arith) (omega arith) in
    (omega arith, omega arith)
moves_lem ps qs g g' a b le (there {p = p} {ps = rest} {qs = after} move) h k =
    let (x, y) =
      moves_lem rest after g g' (one_if (holds p) + a) (one_if (is_collecting p) + b)
        (ground (arith, collectors_le (p ∷ []))) move (omega arith) (omega arith) in
    (omega arith, omega arith)

-- However the steps of any number of runs interleave, from a moment at which the flags are right, as
-- they are before any run: the slot is held by at most one run, the flag gcBusy says whether it is,
-- at most one run is at work, and the flag gcRunning, which refuses pushes, says whether one is.
pub Reaches-Guarded :
    (ps qs : List Phase) (g g' : Gate) → Guarded ps g → Reaches ps qs g g' → Guarded qs g'
Reaches-Guarded ps qs g g' h start = h
Reaches-Guarded ps qs g g' h (onward {qs = mid} {h = k} before move) =
    let before_ok = Reaches-Guarded ps mid g k h before in
    let (x, y) =
      moves_lem mid qs k g' 0 0 (omega arith) move (omega (arith, before_ok.busy_counts))
        (omega (arith, before_ok.running_counts)) in
    record { busy_counts = omega arith; running_counts = omega arith }
