-- ===== src/Serial/Router/Reading.antt =====
-- What reading the history of deck_serial_router.cpp leaves: the blocks of every sink.
use s3_rlcd_deck.Base.{
  ℕ, ◌+◌, ◌<◌, ◌≡◌, ◌≢◌, refl, true, not, ◌||◌, inl, inr, length, get_or-set_elem,
  get_or-set_elem_other, ◌==◌, ==_iff, arith, Bool-cases, Option-cases,
}
use s3_rlcd_deck.Serial.Router.{Router, blank_sink, block_at, delivered, counted, sink_block_at}
use s3_rlcd_deck.Serial.Router.Calls.{sink_at, has_sink, copy_at, copy_after, find_sequence}
use s3_rlcd_deck.Serial.Router.Fifo.{Inv, contents}
use s3_rlcd_deck.Serial.Router.Replay.{replay, copy_after-replay}

copy_at-contents :
    (r : Router) (id other selected : ℕ)
    → id < length r.sinks
    → contents (copy_at r id selected).0 other ≡ contents r other
unfolding contents
copy_at-contents r id other selected inside =
    let s = sink_at r id in
    let t = counted delivered (length (block_at r.pool (sink_block_at s selected)).bytes) s in
    elim (Bool-cases (other == id)) [
      | inl same ↦
          let e : other ≡ id = (==_iff other id).0 same in
          rw (e, get_or-set_elem r.sinks id t blank_sink inside) refl
      | inr apart ↦
          let ne : id ≢ other = λ d. ground (arith, apart, d) in
          rw (get_or-set_elem_other r.sinks id other t blank_sink ne) refl
    ]

copy_after-contents :
    (r : Router) (id other after_sequence : ℕ)
    → Inv r
    → contents (copy_after r id after_sequence).0 other ≡ contents r other
unfolding copy_after
copy_after-contents r id other after_sequence i =
    let s = sink_at r id in
    elim (Bool-cases (not (has_sink r id) || not s.retained)) [
      | inl bad ↦ rw bad refl
      | inr good ↦
          let inside : id < length r.sinks = ground (arith, good, i.four) in
          let first = copy_at-contents r id other 0 inside in
          elim (Bool-cases (s.count == 0)) [
            | inl empty ↦ rw (good, empty) refl
            | inr some_there ↦ elim (Bool-cases (after_sequence == 0)) [
              | inl start ↦ rw (good, some_there, start) first
              | inr later ↦ elim (Option-cases (find_sequence r.pool s after_sequence 0 s.count)) [
                | inl missing ↦ rw (good, some_there, later, missing) first
                | inr (offset, found) ↦ elim (Bool-cases (offset + 1 == s.count)) [
                  | inl last ↦ rw (good, some_there, later, found, last) refl
                  | inr more ↦
                      rw (good, some_there, later, found, more)
                        (copy_at-contents r id other (offset + 1) inside)
                ]
              ]
            ]
          ]
    ]

-- A reader of a retained sink gets what a reader of the list of its blocks gets, and the blocks of
-- every sink stay as they are.
pub copy_after_replays :
    (r : Router) (id other after_sequence : ℕ)
    → Inv r
    → has_sink r id ≡ true
    → (sink_at r id).retained ≡ true
    → ((copy_after r id after_sequence).1 ≡ replay (contents r id) after_sequence)
      × (contents (copy_after r id after_sequence).0 other ≡ contents r other)
copy_after_replays r id other after_sequence i there keeps = (
  copy_after-replay r id after_sequence i there keeps,
  copy_after-contents r id other after_sequence i,
)
