-- ===== src/Queue/Instance.antt =====
-- A concrete Redis stream: the greatest milliseconds, and the jobs.
use aos_operator.Shared.{
  ℕ, ◌-◌, ◌<◌, ◌≤◌, ◌≡◌, refl, ap, sym, ◌∙◌, false, map, All, Option, none, some, List, [], ◌∷◌,
  ◌++◌, take, length, length-append, take-append_length, ltb, lt→ltb, if◌then◌else◌, arith,
}
use aos_operator.Shared.Text.{Text, codes, text_eq, text_eq_refl}
use aos_operator.Shared.Decimal.{to_string, dec_value_from, dec_value-to_string}
use aos_operator.Queue.{Entry, RedisStream, ms_id, without}
use aos_operator.Queue.Fifo.{remove}
use aos_operator.Queue.Refinement.{entry_of, map-append_one, without-map}

-- The number before the last two characters.
abbrev pub ms_of : Text → ℕ
ms_of id = dec_value_from 0 (take (length id - 2) id)

pub ms_of-ms_id : (ms : ℕ) → ms_of (ms_id ms) ≡ ms
unfolding ms_id
ms_of-ms_id ms =
    let size = length-append (to_string ms) (codes "-0") in
    ap (dec_value_from 0) (
      take-append_length (length (to_string ms ++ codes "-0") - 2) (to_string ms) (codes "-0")
        (omega arith))
    ∙ dec_value-to_string ms

abbrev pub ToyStream : Type 0
ToyStream = ℕ × List (ℕ × Text)

abbrev pub toy_add : ℕ → Text → ToyStream → Option ToyStream
toy_add ms text (last, jobs) = if ltb last ms then some (ms, jobs ++ (ms, text) ∷ []) else none

pub toy_later :
    (ms : ℕ) (text : Text) (s : ToyStream)
    → s.0 < ms
    → (s' : ToyStream) × (toy_add (ms_of (ms_id ms)) text s ≡ some s')
      × (map entry_of s'.1
          ≡ map entry_of s.1 ++ record { entry_id = ms_id ms; data_field = some text } ∷ [])
      × (s'.0 ≡ ms)
toy_later ms text (last, jobs) h = (
  (ms, jobs ++ (ms, text) ∷ []),
  rw (ms_of-ms_id ms, lt→ltb last ms h) refl,
  sym (map-append_one jobs (ms, text)),
  refl,
)

pub toy_refused :
    (ms : ℕ) (text : Text) (s : ToyStream) → ms ≤ s.0 → toy_add (ms_of (ms_id ms)) text s ≡ none
toy_refused ms text (last, jobs) h =
    let early : ltb last ms ≡ false = ground arith in rw (ms_of-ms_id ms, early) refl

-- An id is a number followed by `-0`.
abbrev pub toy_canonical : Text → Option Text
toy_canonical id = if text_eq (ms_id (ms_of id)) id then some id else none

pub toy_canonical-ms_id : (ms : ℕ) → toy_canonical (ms_id ms) ≡ some (ms_id ms)
toy_canonical-ms_id ms = rw (ms_of-ms_id ms, text_eq_refl (ms_id ms)) refl

pub toy_entries :
    (jobs : List (ℕ × Text))
    → All (λ (e : Entry). toy_canonical e.entry_id ≡ some e.entry_id) (map entry_of jobs)
toy_entries [] = tt
toy_entries ((ms, text) ∷ jobs) = (toy_canonical-ms_id ms, toy_entries jobs)

abbrev pub toy_deleted : Option Text → ToyStream → Option ToyStream
toy_deleted none s = none
toy_deleted (some full) (last, jobs) = some (last, remove full jobs)

pub toy_xdel :
    (id full : Text) (s : ToyStream)
    → toy_canonical id ≡ some full
    → (s' : ToyStream) × (toy_deleted (toy_canonical id) s ≡ some s')
      × (map entry_of s'.1 ≡ without full (map entry_of s.1))
      × (s'.0 ≡ s.0)
toy_xdel id full (last, jobs) named = (
  (last, remove full jobs),
  ap (λ c. toy_deleted c (last, jobs)) named,
  sym (without-map full jobs),
  refl,
)

abbrev pub toy_redis : RedisStream
toy_redis = record {
  Stream = ToyStream;
  entries = λ s. map entry_of s.1;
  last_ms = λ s. s.0;
  xadd = λ id text s. toy_add (ms_of id) text s;
  xread = λ n s. take n (map entry_of s.1);
  xdel = λ id s. toy_deleted (toy_canonical id) s;
  canonical = toy_canonical;
  entries-canonical = λ s. toy_entries s.1;
  xadd_later = toy_later;
  xadd_refused = toy_refused;
  xread_lem = λ n s. refl;
  xdel_lem = toy_xdel;
  xdel_refused = λ id s malformed. ap (λ c. toy_deleted c s) malformed;
}
