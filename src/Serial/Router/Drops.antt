-- ===== src/Serial/Router/Drops.antt =====
-- The loops of deck_serial_router.cpp that take blocks out of queues.
use mathlib.Core.Path.{subst}
use s3_rlcd_deck.Base.{
  ℕ, zero, suc, ◌+◌, ◌≤◌, ◌<◌, ◌≡◌, ◌∙◌, sym, ap, refl, true, ◌&&◌, List, [], ◌∷◌, inl, inr, ◌==◌,
  if◌then◌else◌, arith, Bool-cases,
}
use s3_rlcd_deck.Serial.Router.{
  Pool, Sink, overwritten, cleared, remove_front, clear_loop, clear_sink_locked,
}
use s3_rlcd_deck.Serial.Router.Calls.{overwrite_full}
use s3_rlcd_deck.Serial.Router.Ring.{items}
use s3_rlcd_deck.Serial.Router.Chain.{occurs, IsPool, SameQueued}
use s3_rlcd_deck.Serial.Router.Shares.{
  queue, IsSink, IsReady-IsSink, uses_of, AllSinks, IsPool-ext, remove_front-HasLeft,
}

pub SameQueued-trans :
    (p q r : Pool) (uses next : ℕ → ℕ)
    → SameQueued p q uses
    → SameQueued q r next
    → ((j : ℕ) → next j ≤ uses j)
    → SameQueued p r next
SameQueued-trans p q r uses next a b less j session_id used =
    b j session_id used ∙ a j session_id (λ e. used (omega (arith, less j, e)))

-- A queue that was emptied, and what is queued elsewhere.
pub record IsCleared (p q : Pool) (t : Sink) (other : ℕ → ℕ) : Type 0 where
  pub free : List ℕ
  pub pool : IsPool q free other
  pub sink : IsSink t
  pub same : SameQueued p q other
  pub empty : t.count ≡ 0

clear_loop-IsCleared :
    (n : ℕ) (p : Pool) (s : Sink) (free : List ℕ) (other : ℕ → ℕ)
    → s.count ≡ n
    → IsSink s
    → IsPool p free (λ j. occurs j (queue s) + other j)
    → let (q, t) = clear_loop n p s in IsCleared p q t other
unfolding clear_loop occurs items
clear_loop-IsCleared zero p s free other e i pool =
    let none_left : queue s ≡ [] = ap (λ m. items s.blocks s.capacity_blocks s.head m) e in
    record {
      free = free;
      pool =
          IsPool-ext p free (λ j. occurs j (queue s) + other j) other pool
            (λ j. sym (ap (λ l. occurs j l + other j) none_left ∙ omega arith));
      sink = i;
      same = λ j session_id used. refl;
      empty = e;
    }
clear_loop-IsCleared (suc n) p s free other e i pool =
    let (q, t) = remove_front p s cleared in
    let h = remove_front-HasLeft p s cleared free other i (omega (arith, e)) pool in
    let ih =
      clear_loop-IsCleared n q t h.free other (omega (arith, e, h.fewer)) (IsReady-IsSink t h.sink)
        h.pool in
    let (r, u) = clear_loop n q t in
    record {
      free = ih.free;
      pool = ih.pool;
      sink = ih.sink;
      same =
          SameQueued-trans p q r (λ j. occurs j (queue t) + other j) other h.same ih.same
            (λ j. omega arith);
      empty = ih.empty;
    }

pub clear_sink_locked-IsCleared :
    (p : Pool) (s : Sink) (free : List ℕ) (other : ℕ → ℕ)
    → IsSink s
    → IsPool p free (λ j. occurs j (queue s) + other j)
    → let (q, t) = clear_sink_locked p s in IsCleared p q t other
unfolding clear_sink_locked
clear_sink_locked-IsCleared p s free other i pool =
    let h = clear_loop-IsCleared s.count p s free other refl i pool in
    let (q, t) = clear_loop s.count p s in
    record {
      free = h.free;
      pool = h.pool;
      sink = record {
        ready = λ on. (omega (arith, h.sink.ready on), (h.sink.ready on).1, (h.sink.ready on).2);
        off = λ off. ap (λ (x : Sink). record x { head = 0 }) (h.sink.off off);
      };
      same = h.same;
      empty = h.empty;
    }

abbrev pub tail : List ℕ → List ℕ
tail [] = []
tail (x ∷ xs) = xs

-- A sink has room for one more block: a full one has lost its oldest.
pub record HasRoom (s t : Sink) : Type 0 where
  pub sink : IsSink t
  pub left :
      queue t ≡ (if s.registered && s.count == s.capacity_blocks then tail (queue s) else queue s)
  pub space : t.registered ≡ true → t.count < t.capacity_blocks
  pub registered : t.registered ≡ s.registered

abbrev pub AllRoom : List Sink → List Sink → Type 0
AllRoom [] [] = Unit {0}
AllRoom (s ∷ sinks) (t ∷ others) = HasRoom s t × AllRoom sinks others
AllRoom _ _ = ⊥

-- After full sinks have lost their oldest blocks.
pub record HasDropped (p q : Pool) (sinks others : List Sink) (seen : ℕ → ℕ) : Type 0 where
  pub free : List ℕ
  pub pool : IsPool q free (λ j. seen j + uses_of others j)
  pub same : SameQueued p q (λ j. seen j + uses_of others j)
  pub rooms : AllRoom sinks others
  pub fewer : (j : ℕ) → uses_of others j ≤ uses_of sinks j

abbrev Overwritten : Pool → Sink → Pool → Sink → (ℕ → ℕ) → Type 0
Overwritten p s q t other =
    (later : List ℕ) × HasRoom s t
    × IsPool q later (λ j. occurs j (queue t) + other j)
    × SameQueued p q (λ j. occurs j (queue t) + other j)
    × ((j : ℕ) → occurs j (queue t) ≤ occurs j (queue s))

overwrite_full_one :
    (p : Pool) (s : Sink) (free : List ℕ) (other : ℕ → ℕ)
    → IsSink s
    → IsPool p free (λ j. occurs j (queue s) + other j)
    → (s.registered && s.count == s.capacity_blocks) ≡ true
    → let (q, t) = remove_front p s overwritten in Overwritten p s q t other
unfolding occurs
overwrite_full_one p s free other i pool full =
    let on : s.registered ≡ true = ground arith in
    let (inside, fits, ring) = i.ready on in
    let at : s.count ≡ s.capacity_blocks = ground arith in
    let (q, t) = remove_front p s overwritten in
    let h = remove_front-HasLeft p s overwritten free other i (omega (arith, at, inside)) pool in
    let left : queue t ≡ tail (queue s) = sym (ap tail h.was) in
    (
      h.free,
      record {
        sink = IsReady-IsSink t h.sink;
        left = rw full left;
        space = λ e. omega (arith, h.fewer, h.room, at);
        registered = h.sink.on ∙ sym on;
      },
      h.pool,
      h.same,
      λ j. subst (λ l. occurs j (queue t) ≤ occurs j l) (sym h.was) (ground arith),
    )

overwrite_one :
    (p : Pool) (s : Sink) (free : List ℕ) (other : ℕ → ℕ)
    → IsSink s
    → IsPool p free (λ j. occurs j (queue s) + other j)
    → let (q, t) =
        if s.registered && s.count == s.capacity_blocks
        then remove_front p s overwritten
        else (p, s) in
      Overwritten p s q t other
overwrite_one p s free other i pool =
    elim (Bool-cases (s.registered && s.count == s.capacity_blocks)) [
      | inl full ↦ rw full (overwrite_full_one p s free other i pool full)
      | inr room ↦
          let kept : HasRoom s s = record {
            sink = i;
            left = rw room refl;
            space = λ e. ground (arith, i.ready e, e, room);
            registered = refl;
          } in
          rw room (free, kept, pool, λ j session_id used. refl, λ j. omega arith)
    ]

pub overwrite_full-HasDropped :
    (p : Pool) (sinks : List Sink) (free : List ℕ) (seen : ℕ → ℕ)
    → AllSinks sinks
    → IsPool p free (λ j. seen j + uses_of sinks j)
    → let (q, others) = overwrite_full p sinks in HasDropped p q sinks others seen
unfolding overwrite_full uses_of
overwrite_full-HasDropped p [] free seen i pool = record {
  free = free;
  pool = pool;
  same = λ j session_id used. refl;
  rooms = tt;
  fewer = λ j. omega arith;
}
overwrite_full-HasDropped p (s ∷ sinks) free seen (i, is) pool =
    let here = λ (j : ℕ). seen j + uses_of sinks j in
    let (q, t) =
      if s.registered && s.count == s.capacity_blocks
      then remove_front p s overwritten
      else (p, s) in
    let (later, room, pool_q, same, less) = overwrite_one p s free here i (
      IsPool-ext p free (λ j. seen j + uses_of (s ∷ sinks) j) (λ j. occurs j (queue s) + here j)
        pool (λ j. omega arith)) in
    let past = λ (j : ℕ). seen j + occurs j (queue t) in
    let h = overwrite_full-HasDropped q sinks later past is (
      IsPool-ext q later (λ j. occurs j (queue t) + here j) (λ j. past j + uses_of sinks j) pool_q
        (λ j. omega arith)) in
    let (u, others) = overwrite_full q sinks in
    record {
      free = h.free;
      pool =
          IsPool-ext u h.free (λ j. past j + uses_of others j)
            (λ j. seen j + uses_of (t ∷ others) j) h.pool (λ j. omega arith);
      same =
          SameQueued-trans p q u (λ j. occurs j (queue t) + here j)
            (λ j. seen j + uses_of (t ∷ others) j) same
            (λ j session_id used. h.same j session_id (λ e. used (omega (arith, e))))
            (λ j. omega (arith, h.fewer j));
      rooms = (room, h.rooms);
      fewer = λ j. omega (arith, less j, h.fewer j);
    }
