-- ===== src/Ingestion/Framing/Drain.antt =====
-- The loop of `feed` (backend/app/ingestion/framing.py) as a whole: any sufficient fuel gives the
-- same result, and a stream may be cut anywhere.
use continuous_auth.Common.{
  ℕ, zero, suc, ◌+◌, ◌<◌, ◌≡◌, refl, inl, inr, true, false, List, arith, length, length-append,
  Bool-cases,
}
use continuous_auth.Ingestion.Framing.{FrameIssue, Loop, turn, drain}
use continuous_auth.Ingestion.Framing.Turns.{
  extend, after, measure, has_oversized, turn-extend, turn-wait, turn-measure, turn-measure_stop,
  turn-after, turn-settles, turn-oversized_keep, turn-oversized_extend,
}

pub drain-fuel : (f g : ℕ) (l : Loop) → measure l < f → measure l < g → drain f l ≡ drain g l
unfolding drain
drain-fuel zero g l h k = absurd (omega arith)
drain-fuel (suc f) zero l h k = absurd (omega arith)
drain-fuel (suc f) (suc g) l h k = elim (Bool-cases (turn l).0) [
  | inl go ↦ ground (arith, turn-measure l, drain-fuel f g (turn l).1)
  | inr stop ↦ rw stop
]

-- The loop ends by one of its breaks.
pub drain-settles : (f : ℕ) (l : Loop) → measure l < f → turn (drain f l) ≡ (false, drain f l)
unfolding drain
drain-settles zero l h = absurd (omega arith)
drain-settles (suc f) l h = elim (Bool-cases (turn l).0) [
  | inl go ↦ rw go (drain-settles f (turn l).1 (omega (arith, turn-measure l go)))
  | inr stop ↦ rw stop (turn-settles l stop)
]

pub drain-after :
    (f : ℕ) (ps : List (List ℕ)) (es : List FrameIssue) (l : Loop)
    → drain f (after ps es l) ≡ after ps es (drain f l)
unfolding drain
drain-after zero ps es l = refl
drain-after (suc f) ps es l = elim (Bool-cases (turn l).0) [
  | inl go ↦ rw (turn-after ps es l, go) (drain-after f ps es (turn l).1)
  | inr stop ↦ rw (turn-after ps es l, stop)
]

measure-extend : (more : List ℕ) (l : Loop) → measure (extend more l) ≡ measure l + length more
measure-extend more l = omega (arith, length-append l.decoder.buffer more)

-- Draining first and extending the buffer then is draining the longer buffer, as long as no
-- oversized frame was met.
pub drain-extend :
    (f g k : ℕ) (l : Loop) (more : List ℕ)
    → measure l < f
    → measure (extend more l) < g
    → measure (extend more (drain f l)) < k
    → has_oversized (drain f l).issues ≡ false
    → drain g (extend more l) ≡ drain k (extend more (drain f l))
unfolding drain
drain-extend zero g k l more hf hg hk o = absurd (omega arith)
drain-extend (suc f) zero k l more hf hg hk o = absurd (omega arith)
drain-extend (suc f) (suc g) zero l more hf hg hk o = absurd (omega arith)
drain-extend (suc f) (suc g) (suc k) l more hf hg hk o = elim (Bool-cases (turn l).0) [
  | inl go ↦ ground (
    arith,
    turn-extend l more,
    turn-measure l,
    measure-extend more l,
    measure-extend more (turn l).1,
    drain-extend f g (suc k) (turn l).1 more,
  )
  | inr stop ↦ ground (
    arith,
    turn-wait l more,
    turn-measure_stop l,
    measure-extend more l,
    measure-extend more (turn l).1,
    drain-fuel (suc g) (suc k) (extend more (turn l).1),
  )
]

drain-oversized_keep :
    (f : ℕ) (l : Loop) → has_oversized l.issues ≡ true → has_oversized (drain f l).issues ≡ true
unfolding drain
drain-oversized_keep zero l h = h
drain-oversized_keep (suc f) l h = elim (Bool-cases (turn l).0) [
  | inl go ↦ rw go (drain-oversized_keep f (turn l).1 (turn-oversized_keep l h))
  | inr stop ↦ rw stop (turn-oversized_keep l h)
]

-- An oversized frame is also met when more input follows.
pub drain-oversized_extend :
    (f g : ℕ) (l : Loop) (more : List ℕ)
    → measure l < f
    → measure (extend more l) < g
    → has_oversized (drain f l).issues ≡ true
    → has_oversized (drain g (extend more l)).issues ≡ true
unfolding drain
drain-oversized_extend zero g l more hf hg o = absurd (omega arith)
drain-oversized_extend (suc f) zero l more hf hg o = absurd (omega arith)
drain-oversized_extend (suc f) (suc g) l more hf hg o = elim (Bool-cases (turn l).0) [
  | inl go ↦ ground (
    arith,
    turn-extend l more,
    turn-measure l,
    measure-extend more l,
    measure-extend more (turn l).1,
    drain-oversized_extend f g (turn l).1 more,
  )
  | inr stop ↦
      ground (arith, turn-oversized_extend l more, drain-oversized_keep g (turn (extend more l)).1)
]
