-- ===== src/Setup/CommandQueue/Ring.antt =====
-- The places of the ring of deck_setup_command_queue.cpp: which are in use, and in what order.
use native.Mathlib.Decide.{ℕ_discrete}
use s3_rlcd_deck.Base.{
  ℕ, zero, suc, ◌+◌, ◌%◌, ◌≤◌, ◌<◌, ◌≡◌, ◌≢◌, refl, sym, ap, ◌∙◌, List, [], ◌∷◌, ◌++◌, arith,
  length, get_or, set_elem, replicate, length-set_elem, get_or-set_elem, get_or-set_elem_other,
  get_or-replicate,
}
use s3_rlcd_deck.Setup.CommandQueue.{CommandQueue, create}

module _ {A : Type 0} (cleared : A) where
  -- The commands in the ring, from the head on.
  abbrev pub waiting_from : List A → ℕ → ℕ → List A
  waiting_from items head zero = []
  waiting_from items head (suc n) =
      get_or items head cleared ∷ waiting_from items ((head + 1) % 8) n

  abbrev pub waiting : CommandQueue A → List A
  waiting q = waiting_from q.items q.head q.count

  -- Every place that is not in use is cleared.
  pub record Inv (q : CommandQueue A) : Type 0 where
    pub size : length q.items ≡ 8
    pub head_low : q.head < 8
    pub count_low : q.count ≤ 8
    pub tail_at : q.tail ≡ (q.head + q.count) % 8
    pub vacant : (k : ℕ) → q.count ≤ k → k < 8 → get_or q.items ((q.head + k) % 8) cleared ≡ cleared

  pub length-waiting_from : (items : List A) (head n : ℕ) → length (waiting_from items head n) ≡ n
  length-waiting_from items head zero = refl
  length-waiting_from items head (suc n) =
      omega (arith, length-waiting_from items ((head + 1) % 8) n)

  -- A place outside the window may change.
  waiting_from-set_elem :
      (items : List A) (head n i : ℕ) (v : A)
      → head < 8
      → ((k : ℕ) → k < n → (head + k) % 8 ≢ i)
      → waiting_from (set_elem items i v) head n ≡ waiting_from items head n
  waiting_from-set_elem items head zero i v low apart = refl
  waiting_from-set_elem items head (suc n) i v low apart =
      let here : i ≢ head = λ e. apart 0 (omega arith) (omega (arith, e, low)) in
      let rest =
        waiting_from-set_elem items ((head + 1) % 8) n i v (omega arith)
          (λ k h e. apart (k + 1) (omega (arith, h)) (omega (arith, e, low, h))) in
      cc (get_or-set_elem_other items i head v cleared here, rest)

  waiting_from-snoc :
      (items : List A) (head n : ℕ)
      → head < 8
      → waiting_from items head (suc n)
        ≡ waiting_from items head n ++ (get_or items ((head + n) % 8) cleared ∷ [])
  waiting_from-snoc items head zero low =
      let here : (head + 0) % 8 ≡ head = omega arith in rw here refl
  waiting_from-snoc items head (suc n) low =
      let here : ((head + 1) % 8 + n) % 8 ≡ (head + suc n) % 8 = omega arith in
      let rest = waiting_from-snoc items ((head + 1) % 8) n (omega arith) in
      ap (λ l. get_or items head cleared ∷ l)
        (rest
          ∙ ap (λ i. waiting_from items ((head + 1) % 8) n ++ (get_or items i cleared ∷ [])) here)

  -- The new command stands behind the others.
  pub sent-waiting :
      (q : CommandQueue A) (command : A)
      → Inv q
      → q.count < 8
      → waiting_from (set_elem q.items q.tail command) q.head (q.count + 1)
        ≡ waiting q ++ (command ∷ [])
  sent-waiting q command i room =
      let items = set_elem q.items q.tail command in
      let more : q.count + 1 ≡ suc q.count = omega arith in
      let others =
        waiting_from-set_elem q.items q.head q.count q.tail command i.head_low
          (λ k h e. omega (arith, h, e, i.tail_at, i.head_low, room)) in
      let last =
        get_or-set_elem q.items q.tail command cleared (omega (arith, i.size, i.tail_at)) in
      ap (λ n. waiting_from items q.head n) more
      ∙ waiting_from-snoc items q.head q.count i.head_low
      ∙ ap (λ at. waiting_from items q.head q.count ++ (get_or items at cleared ∷ []))
          (sym i.tail_at)
      ∙ cc (others, last)

  -- The oldest command is gone, and the others stay.
  pub received-waiting :
      (q : CommandQueue A) (n : ℕ)
      → Inv q
      → q.count ≡ suc n
      → waiting_from (set_elem q.items q.head cleared) ((q.head + 1) % 8) n
        ≡ waiting_from q.items ((q.head + 1) % 8) n
  received-waiting q n i more =
      waiting_from-set_elem q.items ((q.head + 1) % 8) n q.head cleared (omega arith)
        (λ k h e. omega (arith, h, e, more, i.head_low, i.count_low))

  pub sent-Inv :
      (q : CommandQueue A) (command : A)
      → Inv q
      → q.count < 8
      → Inv (record {
        items = set_elem q.items q.tail command;
        head = q.head;
        tail = (q.tail + 1) % 8;
        count = q.count + 1;
      })
  sent-Inv q command i room = record {
    size = length-set_elem q.items q.tail command ∙ i.size;
    head_low = i.head_low;
    count_low = omega arith;
    tail_at = omega (arith, i.tail_at);
    vacant = λ k low high.
        get_or-set_elem_other q.items q.tail ((q.head + k) % 8) command cleared
          (λ e. omega (arith, e, low, high, i.tail_at, i.head_low, room))
        ∙ i.vacant k (omega (arith, low)) high;
  }

  vacant-received :
      (q : CommandQueue A) (n : ℕ)
      → Inv q
      → q.count ≡ suc n
      → (k : ℕ) → n ≤ k
      → k < 8
      → get_or (set_elem q.items q.head cleared) (((q.head + 1) % 8 + k) % 8) cleared ≡ cleared
  vacant-received q n i more k low high = elim (ℕ_discrete k 7) [
    | yes last ↦
        let here : ((q.head + 1) % 8 + k) % 8 ≡ q.head = omega (arith, last, i.head_low) in
        rw here (get_or-set_elem q.items q.head cleared cleared (omega (arith, i.size, i.head_low)))
    | no before ↦
        let there : ((q.head + 1) % 8 + k) % 8 ≡ (q.head + (k + 1)) % 8 = omega arith in
        get_or-set_elem_other q.items q.head (((q.head + 1) % 8 + k) % 8) cleared cleared
          (λ e. omega (arith, e, before, high, i.head_low))
        ∙ ap (λ at. get_or q.items at cleared) there
        ∙ i.vacant (k + 1) (omega (arith, low, more)) (omega (arith, high, before))
  ]

  pub received-Inv :
      (q : CommandQueue A) (n : ℕ)
      → Inv q
      → q.count ≡ suc n
      → Inv (record {
        items = set_elem q.items q.head cleared;
        head = (q.head + 1) % 8;
        tail = q.tail;
        count = n;
      })
  received-Inv q n i more = record {
    size = length-set_elem q.items q.head cleared ∙ i.size;
    head_low = omega arith;
    count_low = omega (arith, i.count_low, more);
    tail_at = omega (arith, i.tail_at, more);
    vacant = vacant-received q n i more;
  }

  pub create-Inv : Inv (create cleared)
  unfolding create
  create-Inv = record {
    size = refl;
    head_low = omega arith;
    count_low = omega arith;
    tail_at = refl;
    vacant = λ k low high. get_or-replicate 8 ((0 + k) % 8) cleared;
  }

  pub replicate_of :
      (items : List A) (n : ℕ)
      → length items ≡ n
      → ((k : ℕ) → k < n → get_or items k cleared ≡ cleared)
      → items ≡ replicate n cleared
  replicate_of [] zero size all = refl
  replicate_of [] (suc n) size all = absurd (omega arith)
  replicate_of (x ∷ items) zero size all = absurd (omega arith)
  replicate_of (x ∷ items) (suc n) size all =
      let rest = replicate_of items n (omega arith) (λ k h. all (suc k) (omega (arith, h))) in
      cc (all 0 (omega arith), rest)
