-- ===== src/Serial/Router/Shares.antt =====
-- The queues of the sinks of deck_serial_router.cpp, and what leaves them.
use native.Mathlib.Decide.{dec_lt}
use s3_rlcd_deck.Base.{
  ℕ, suc, ◌+◌, ◌-◌, ◌%◌, ◌≤◌, ◌<◌, ◌≡◌, ◌≢◌, ◌∙◌, sym, ap, refl, true, false, List, [], ◌∷◌, inl,
  inr, length, get_or, ◌==◌, if◌then◌else◌, arith, Bool-cases,
}
use s3_rlcd_deck.Serial.Router.{
  Pool, Sink, block_at, Reason, overwritten, cleared, delivered, blank_sink, counted,
  release_reference, remove_front,
}
use s3_rlcd_deck.Serial.Router.Ring.{items, next_place}
use s3_rlcd_deck.Serial.Router.Chain.{occurs, IsPool, SameQueued, IsPool-release_reference}

-- The blocks of a sink, the oldest one first.
abbrev pub queue : Sink → List ℕ
queue s = items s.blocks s.capacity_blocks s.head s.count

pub record IsSink (s : Sink) : Type 0 where
  pub ready :
      s.registered ≡ true
      → (s.head < s.capacity_blocks)
        × (s.count ≤ s.capacity_blocks)
        × (length s.blocks ≡ s.capacity_blocks)
  pub off : s.registered ≡ false → s ≡ blank_sink

-- How often a block is queued.
unfoldable pub uses_of : List Sink → ℕ → ℕ
unfolding occurs items
uses_of [] j = 0
uses_of (s ∷ sinks) j = occurs j (queue s) + uses_of sinks j

abbrev pub AllSinks : List Sink → Type 0
AllSinks [] = Unit {0}
AllSinks (s ∷ sinks) = IsSink s × AllSinks sinks

-- With its uses counted otherwise, but equally.
pub IsPool-ext :
    (p : Pool) (free : List ℕ) (uses next : ℕ → ℕ)
    → IsPool p free uses
    → ((j : ℕ) → next j ≡ uses j)
    → IsPool p free next
IsPool-ext p free uses next i e = record {
  chain = i.chain;
  size = i.size;
  counts = λ k h. i.counts k h ∙ sym (e k);
  share = λ k h. ground (arith, i.share k h, e k);
  inside = λ k h. e k ∙ i.inside k h;
}

-- A sink in use.
pub record IsReady (s : Sink) : Type 0 where
  pub on : s.registered ≡ true
  pub head : s.head < s.capacity_blocks
  pub count : s.count ≤ s.capacity_blocks
  pub ring : length s.blocks ≡ s.capacity_blocks

pub IsReady-IsSink : (s : Sink) → IsReady s → IsSink s
IsReady-IsSink s r = record {
  ready = λ e. (r.head, r.count, r.ring);
  off = λ e. absurd (cc (e, r.on));
}

pub IsSink-IsReady : (s : Sink) → IsSink s → s.registered ≡ true → IsReady s
IsSink-IsReady s i e = record {
  on = e;
  head = (i.ready e).0;
  count = (i.ready e).1;
  ring = (i.ready e).2;
}

-- A sink that holds blocks is in use.
pub registered_of_count : (s : Sink) → IsSink s → s.count ≢ 0 → s.registered ≡ true
registered_of_count s i some_there = elim (Bool-cases s.registered) [
  | inl on ↦ on
  | inr off ↦ absurd (some_there (ap (λ x. x.count) (i.off off)))
]

-- The front of a queue has left it: the block is given back, and what is still queued, here or
-- elsewhere, is untouched.
pub record HasLeft (p q : Pool) (s t : Sink) (other : ℕ → ℕ) : Type 0 where
  pub front : ℕ
  pub free : List ℕ
  pub at : front ≡ get_or s.blocks s.head 0
  pub was : queue s ≡ front ∷ queue t
  pub pool : IsPool q free (λ j. occurs j (queue t) + other j)
  pub sink : IsReady t
  pub same : SameQueued p q (λ j. occurs j (queue t) + other j)
  pub fewer : s.count ≡ suc t.count
  pub room : t.capacity_blocks ≡ s.capacity_blocks
  pub retained : t.retained ≡ s.retained

-- The counters of a sink are none of its queue.
counted-HasLeft :
    (p q : Pool) (s t : Sink) (other : ℕ → ℕ) (reason : Reason) (n : ℕ)
    → HasLeft p q s t other
    → HasLeft p q s (counted reason n t) other
counted-HasLeft p q s t other overwritten n h = record {
  front = h.front;
  free = h.free;
  at = h.at;
  was = h.was;
  pool = h.pool;
  same = h.same;
  fewer = h.fewer;
  room = h.room;
  retained = h.retained;
  sink = record { on = h.sink.on; head = h.sink.head; count = h.sink.count; ring = h.sink.ring };
}
counted-HasLeft p q s t other cleared n h = record {
  front = h.front;
  free = h.free;
  at = h.at;
  was = h.was;
  pool = h.pool;
  same = h.same;
  fewer = h.fewer;
  room = h.room;
  retained = h.retained;
  sink = record { on = h.sink.on; head = h.sink.head; count = h.sink.count; ring = h.sink.ring };
}
counted-HasLeft p q s t other delivered n h = record {
  front = h.front;
  free = h.free;
  at = h.at;
  was = h.was;
  pool = h.pool;
  same = h.same;
  fewer = h.fewer;
  room = h.room;
  retained = h.retained;
  sink = record { on = h.sink.on; head = h.sink.head; count = h.sink.count; ring = h.sink.ring };
}

-- The sink without its front.
abbrev behind : Sink → ℕ → Sink
behind s n = record s {
  head = (s.head + 1) % s.capacity_blocks;
  count = s.count - 1;
  queued_bytes = s.queued_bytes - n;
}

behind-HasLeft :
    (p : Pool) (s : Sink) (n : ℕ) (free : List ℕ) (other : ℕ → ℕ)
    → IsSink s
    → s.count ≢ 0
    → IsPool p free (λ j. occurs j (queue s) + other j)
    → HasLeft p (release_reference p (get_or s.blocks s.head 0)) s (behind s n) other
unfolding occurs items
behind-HasLeft p s n free other i some_there pool =
    let k = get_or s.blocks s.head 0 in
    let r = IsSink-IsReady s i (registered_of_count s i some_there) in
    let rest = queue (behind s n) in
    let more : s.count ≡ suc (s.count - 1) = omega (arith, some_there) in
    let was : queue s ≡ k ∷ rest = ap (λ m. items s.blocks s.capacity_blocks s.head m) more in
    let next = λ (j : ℕ). occurs j rest + other j in
    let used : occurs k (queue s) + other k ≡ suc (next k) =
      ap (λ l. occurs k l + other k) was ∙ ground arith in
    let others = λ (j : ℕ) (ne : j ≢ k).
      (let e : occurs j (k ∷ rest) ≡ occurs j rest = ground arith in
        sym (ap (λ l. occurs j l + other j) was ∙ ap (λ m. m + other j) e)) in
    let inside : k < length p.blocks = elim (dec_lt k (length p.blocks)) [
      | yes lt ↦ lt
      | no ge ↦ absurd (omega (arith, ge, pool.inside k, used))
    ] in
    let (kept, same) =
      IsPool-release_reference p free (λ j. occurs j (queue s) + other j) next k inside pool used
        others in
    record {
      front = k;
      free = if next k == 0 then k ∷ free else free;
      at = refl;
      was = was;
      pool = kept;
      sink = record {
        on = r.on;
        head = next_place s.capacity_blocks s.head r.head;
        count = omega (arith, r.count);
        ring = r.ring;
      };
      same = same;
      fewer = more;
      room = refl;
      retained = refl;
    }

pub remove_front-HasLeft :
    (p : Pool) (s : Sink) (reason : Reason) (free : List ℕ) (other : ℕ → ℕ)
    → IsSink s
    → s.count ≢ 0
    → IsPool p free (λ j. occurs j (queue s) + other j)
    → let (q, t) = remove_front p s reason in HasLeft p q s t other
unfolding remove_front
remove_front-HasLeft p s reason free other i some_there pool =
    let n = length (block_at p (get_or s.blocks s.head 0)).bytes in
    let q = release_reference p (get_or s.blocks s.head 0) in
    let there : (s.count == 0) ≡ false = ground (arith, some_there) in
    rw there (
      counted-HasLeft p q s (behind s n) other reason n
        (behind-HasLeft p s n free other i some_there pool))
